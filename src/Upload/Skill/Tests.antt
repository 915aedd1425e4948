-- ===== src/Upload/Skill/Tests.antt =====
-- A package of a skill that is safe, and the text of its SKILL.md.
use bi_ble_atlas.Base.{◌*◌, ◌≡◌, ◌≤◌, refl, List, [], ◌∷◌, All, length, text_append, starts_with}
use bi_ble_atlas.Base.Result.{ok}
use bi_ble_atlas.Upload.Skill.Zip.{
  ZipInfo, Paths, is_symlink, check_entry, check_entries, open_zip, safe_entries, max_entries,
  max_total_uncompressed_bytes,
}
use bi_ble_atlas.Upload.Skill.Zip.Laws.{IsSafe, total_size, safe_entries-IsSafe}
use bi_ble_atlas.Upload.Skill.Markdown.{parse_text}
use bi_ble_atlas.Upload.Skill.Markdown.Laws.{IsParsed, parse_text-IsParsed}

abbrev entries : List ZipInfo
entries =
    record { filename = "cat/"; external_attr = 0; file_size = 0 }
    ∷ record { filename = "cat/SKILL.md"; external_attr = 33188 * 65536; file_size = 120 }
    ∷ []

abbrev paths : Paths
paths = record {
  infolist = λ path. ok entries;
  isabs = λ path. starts_with "/" path;
  join = λ a b. text_append a (text_append "/" b);
  realpath = λ path. path;
  sep = "/";
  extract_all = λ es dir. ok tt;
}

passed : safe_entries paths "/work" "/up/cat.skill" ≡ ok entries
unfolding safe_entries check_entries check_entry is_symlink open_zip starts_with
passed = refl

safe_entries-IsSafe_example :
    (paths.infolist "/up/cat.skill" ≡ ok entries)
    × (length entries ≤ max_entries)
    × All (IsSafe paths "/work") entries
    × (total_size entries ≤ max_total_uncompressed_bytes)
safe_entries-IsSafe_example = safe_entries-IsSafe paths "/work" "/up/cat.skill" passed

parse_text-IsParsed_example :
    IsParsed (parse_text "# Cat\n\nFinds cats.\nFast.\n\n## Use\nCall it.")
parse_text-IsParsed_example = parse_text-IsParsed "# Cat\n\nFinds cats.\nFast.\n\n## Use\nCall it."
