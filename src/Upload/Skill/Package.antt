-- ===== src/Upload/Skill/Package.antt =====
-- skill_parser/package_validator.py, skills_md_locator.py, file_classifier.py, manifest_loader.py,
-- storage_plan_builder.py, search_profile_builder.py, chunk_builder.py and orchestrator.py: from the
-- manifest of an upload to the chunk, the search profile and the storage plan of its skill.
pub mod Laws
use bi_ble_atlas.Base.{
  ℕ, String, Bool, true, not, ◌&&◌, Option, none, some, List, [], ◌∷◌, map, ◌==◌, if◌then◌else◌,
  or_else, text_append, filter, is_empty, length,
}
use bi_ble_atlas.Base.Dict.{Dict, get}
use bi_ble_atlas.Base.Int.{pos}
use bi_ble_atlas.Base.Value.{Value, bool, int, float, str, dict_of, list_of, one_half}
use bi_ble_atlas.Base.Result.{Result, ok, raise, ◌>>=◌, ◌>>◌, raise_if}
use bi_ble_atlas.Upload.{
  Exception, value_error, skill_package_missing, skill_package_multiple, skill_package_empty,
  no_top_level_dir, as_dict, root_level_files, many_top_level_dirs, skill_md_not_found,
}
use bi_ble_atlas.Upload.Plan.{text_or, iterate}
use bi_ble_atlas.Upload.Store.{ParseResult}
use bi_ble_atlas.Upload.Skill.Zip.{Paths, safe_extract}
use bi_ble_atlas.Upload.Skill.Markdown.{SkillDoc, ReadFailure, parse_standard_skills_md}

-- The file system and the hashes, as the parser reads them.
pub record Machine : Type 0 where
  pub paths : Paths
  pub listdir : String → Result Exception (List String)
  pub is_dir : String → Bool
  pub is_file : String → Bool
  pub dirname : String → String
  pub read : String → Result ReadFailure String
  -- `os.path.splitext(name)[1].lower()`
  pub extension : String → String
  pub file_sha256 : String → Result Exception String
  pub sha256 : String → String

-- An entry of the manifest, its texts where they are texts.
pub record UploadedFile : Type 0 where
  pub file_ref : String
  pub filename : String
  pub abs_path : String

-- `build_search_profile()` of skills, the same for all. A weight is the text after `^`, or the bits of a
-- float.
abbrev pub vector_part : Dict Value
vector_part =
    ("vector_field", str "content_vector")
    ∷ ("source_template", str "{name}\n{description}\n{body}")
    ∷ ("num_candidates", int (pos 100))
    ∷ []

abbrev pub boosted_fields : List String → Dict Value
boosted_fields fs = ("fields", list_of (map (λ s. str s) fs)) ∷ []

unfoldable pub search_profile : Dict Value
search_profile =
    ("keyword", dict_of (boosted_fields ("name.keyword^5" ∷ [])))
    ∷ ("title", dict_of (boosted_fields ("name^3" ∷ [])))
    ∷ (
      "text",
      dict_of (boosted_fields ("name^4" ∷ "description^2" ∷ "body^1.5" ∷ "content^1" ∷ [])),
    )
    ∷ ("vector", dict_of vector_part)
    ∷ ("hybrid", dict_of (("default_vector_weight", one_half) ∷ []))
    ∷ (
      "response_fields",
      list_of (
          map (λ s. str s)
            ("doc_id" ∷ "name" ∷ "description" ∷ "metadata.related_storage_paths" ∷ "score" ∷ [])),
    )
    ∷ []

module _ (m : Machine) where
  abbrev pub is_skill : UploadedFile → Bool
  is_skill f = m.extension f.filename == ".skill"

  abbrev classified :
      List UploadedFile → List UploadedFile → Result Exception (UploadedFile × List UploadedFile)
  classified [] others = raise (value_error skill_package_missing)
  classified (f ∷ []) others = ok (f, others)
  classified (f ∷ g ∷ fs) others =
      raise
        (value_error (skill_package_multiple (map (λ (h : UploadedFile). h.filename) (f ∷ g ∷ fs))))

  unfoldable pub classify_files :
      List UploadedFile → Result Exception (UploadedFile × List UploadedFile)
  classify_files files = classified (filter is_skill files) (filter (λ f. not (is_skill f)) files)

  abbrev pub only_dir : List String → Result Exception String
  only_dir [] = raise (value_error no_top_level_dir)
  only_dir (d ∷ []) = ok d
  only_dir (d ∷ e ∷ ds) = raise (value_error (many_top_level_dirs (d ∷ e ∷ ds)))

  abbrev pub is_directory : String → String → Bool
  is_directory extract_dir entry = m.is_dir (m.paths.join extract_dir entry)

  unfoldable pub validate_single_top_level_dir : String → Result Exception String
  validate_single_top_level_dir extract_dir = do
    entries ← m.listdir extract_dir
    raise_if (is_empty entries) (value_error skill_package_empty)
    let files = filter (λ entry. not (is_directory extract_dir entry)) entries
    raise_if (not (is_empty files)) (value_error (root_level_files files))
    only_dir (filter (is_directory extract_dir) entries)

  abbrev pub is_skill_md : String → String → Bool
  is_skill_md skill_dir entry = entry == "SKILL.md" && m.is_file (m.paths.join skill_dir entry)

  -- A directory has no two entries of one name, so `matches` has at most one.
  abbrev located : String → List String → Result Exception String
  located skill_dir [] = raise (value_error skill_md_not_found)
  located skill_dir (entry ∷ entries) = ok (m.paths.join skill_dir entry)

  unfoldable pub locate_skills_md : String → String → Result Exception String
  locate_skills_md extract_dir skill_name = do
    let skill_dir = m.paths.join extract_dir skill_name
    raise_if (not (m.is_dir skill_dir)) (value_error skill_md_not_found)
    entries ← m.listdir skill_dir
    located skill_dir (filter (is_skill_md skill_dir) entries)

  unfoldable pub plan_entry : String → UploadedFile → Dict Value
  plan_entry storage_role f =
      ("file_ref", str f.file_ref)
      ∷ ("filename", str f.filename)
      ∷ ("source_path", str f.abs_path)
      ∷ ("must_store_local", bool true)
      ∷ ("storage_role", str storage_role)
      ∷ []

  unfoldable pub build_local_storage_plan : UploadedFile → List UploadedFile → Dict Value
  unfolding plan_entry
  build_local_storage_plan skill_package other_files =
      (
        "files",
        list_of (
            dict_of (plan_entry "skill_package" skill_package)
            ∷ map (λ f. dict_of (plan_entry "skill_attachment" f)) other_files),
      )
      ∷ []

  abbrev pub content_of : SkillDoc → String
  content_of doc =
      let content = text_append doc.name (text_append "\n" doc.description) in
      if doc.body == "" then content else text_append content (text_append "\n\n" doc.body)

  abbrev pub chunk_metadata : SkillDoc → UploadedFile → String → List String → String → Dict Value
  chunk_metadata doc skill_package package_sha256 file_refs skill_name =
      (
        "source_file",
        str (
            if skill_name == ""
            then skill_package.filename
            else text_append skill_name "/SKILL.md"),
      )
      ∷ ("skill_name", str doc.name)
      ∷ ("related_file_refs", list_of (map (λ s. str s) file_refs))
      ∷ ("related_storage_paths", list_of [])
      ∷ ("package_filename", str skill_package.filename)
      ∷ ("package_sha256", str package_sha256)
      ∷ ("parser_version", str "v4-skill-package-1")
      ∷ []

  unfoldable pub build_chunks :
      SkillDoc → UploadedFile → String → List String → String → List (Dict Value)
  build_chunks doc skill_package package_sha256 file_refs skill_name =
      (("doc_id", str (m.sha256 (text_append package_sha256 (text_append "::" doc.name))))
        ∷ ("title", str doc.name)
        ∷ ("name", str doc.name)
        ∷ ("description", str doc.description)
        ∷ ("body", str doc.body)
        ∷ ("content", str (content_of doc))
        ∷ (
          "metadata",
          dict_of (chunk_metadata doc skill_package package_sha256 file_refs skill_name),
        )
        ∷ [])
      ∷ []

  unfoldable pub load_entry : Value → Result Exception UploadedFile
  load_entry entry = do
    d ← as_dict entry
    file_ref ← text_or "" (get "file_ref" d)
    filename ← text_or "" (get "filename" d)
    abs_path ← text_or "" (get "abs_path" d)
    ok (record { file_ref = file_ref; filename = filename; abs_path = abs_path })

  unfoldable pub load_entries : List Value → Result Exception (List UploadedFile)
  unfolding load_entry
  load_entries [] = ok []
  load_entries (entry ∷ entries) =
      load_entry entry >>= λ file. load_entries entries >>= λ files. ok (file ∷ files)

  unfoldable pub load_manifest : Value → Result Exception (List UploadedFile)
  unfolding load_entries
  load_manifest manifest = do
    d ← as_dict manifest
    entries ← iterate (or_else (get "files" d) (list_of []))
    load_entries entries

  -- The manifest as it was read, and the directory of its file.
  unfoldable pub parse_skill_manifest : Value → String → Result Exception ParseResult
  unfolding load_manifest classify_files validate_single_top_level_dir locate_skills_md build_chunks
      build_local_storage_plan
  parse_skill_manifest manifest manifest_dir = do
    files ← load_manifest manifest
    classes ← classify_files files
    extract_dir ← safe_extract m.paths (m.paths.join manifest_dir "extracted") classes.0.abs_path
    skill_name ← validate_single_top_level_dir extract_dir
    skills_md_path ← locate_skills_md extract_dir skill_name
    doc ← parse_standard_skills_md m.read skills_md_path
    package_sha256 ← m.file_sha256 classes.0.abs_path
    let file_refs = map (λ (f : UploadedFile). f.file_ref) (classes.0 ∷ classes.1)
    ok (record {
      chunks = build_chunks doc classes.0 package_sha256 file_refs skill_name;
      search_profile = search_profile;
      local_file_storage_plan = some (build_local_storage_plan classes.0 classes.1);
    })
