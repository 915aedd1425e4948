-- ===== src/Upload/Skill/Markdown.antt =====
-- skill_parser/skills_md_parser.py: the name, description and body of a SKILL.md.
pub mod Laws
use bi_ble_atlas.Base.{
  String, Bool, not, ◌&&◌, Option, none, some, List, [], ◌∷◌, ◌==◌, if◌then◌else◌, text_append,
  strip, starts_with, first_chars, splitlines,
}
use Prim.Native.String
use bi_ble_atlas.Base.Result.{Result, ok, raise, ◌>>=◌, ◌>>◌, raise_if}
use bi_ble_atlas.Upload.{
  Exception, Problem, value_error, skill_md_unreadable, skill_md_empty, skill_md_no_heading,
  skill_md_empty_heading, skill_md_no_description,
}

pub record SkillDoc : Type 0 where
  pub name : String
  pub description : String
  pub body : String

-- `s[2:]`
abbrev pub without_marker : String → String
without_marker String.[] = ""
without_marker (String.◌∷◌ c String.[]) = ""
without_marker (String.◌∷◌ c (String.◌∷◌ d s)) = s

-- `stripped.startswith("# ") and not stripped.startswith("## ")`
abbrev pub is_heading : String → Bool
is_heading stripped = starts_with "# " stripped && not (starts_with "## " stripped)

-- The name of the first heading, and the lines after it.
unfoldable pub find_heading : List String → Option (String × List String)
find_heading [] = none
find_heading (line ∷ lines) =
    let later = find_heading lines in
    if is_heading (strip line) then some (strip (without_marker (strip line)), lines) else later

-- `not line or line.startswith("#")`
abbrev pub ends_paragraph : String → Bool
ends_paragraph line = not (not (line == "") && not (starts_with "#" line))

-- The stripped lines of the paragraph that starts here, and the lines after it.
unfoldable pub collect : List String → List String × List String
collect [] = ([], [])
collect (line ∷ lines) =
    let (para, rest) = collect lines in
    if ends_paragraph (strip line) then ([], line ∷ lines) else (strip line ∷ para, rest)

unfoldable pub find_paragraph : List String → List String × List String
unfolding collect
find_paragraph [] = ([], [])
find_paragraph (line ∷ lines) =
    let later = find_paragraph lines in
    let here = collect (line ∷ lines) in if ends_paragraph (strip line) then later else here

-- `sep.join(texts)`
abbrev pub join_with : String → List String → String
join_with sep [] = ""
join_with sep (t ∷ []) = t
join_with sep (t ∷ u ∷ ts) = text_append t (text_append sep (join_with sep (u ∷ ts)))

abbrev pub heading_of : Option (String × List String) → Result Exception (String × List String)
heading_of none = raise (value_error skill_md_no_heading)
heading_of (some found) = ok found

-- The document of a text.
unfoldable pub parse_text : String → Result Exception SkillDoc
parse_text content = do
  raise_if (strip content == "") (value_error skill_md_empty)
  heading ← heading_of (find_heading (splitlines content))
  raise_if (heading.0 == "") (value_error skill_md_empty_heading)
  let paragraph = find_paragraph heading.1
  let description = strip (join_with " " paragraph.0)
  raise_if (description == "") (value_error skill_md_no_description)
  ok (record {
    name = heading.0;
    description = description;
    body = strip (join_with "\n" paragraph.1);
  })

-- `open(md_path).read()`, where an `OSError` is turned into a `ValueError`
pub data ReadFailure : Type 0 where
  os_error : ReadFailure
  failure : Exception → ReadFailure

abbrev pub read_content : Result ReadFailure String → Result Exception String
read_content (ok content) = ok content
read_content (raise os_error) = raise (value_error skill_md_unreadable)
read_content (raise (failure e)) = raise e

unfoldable pub parse_standard_skills_md :
    (String → Result ReadFailure String) → String → Result Exception SkillDoc
unfolding parse_text
parse_standard_skills_md read md_path = do content ← read_content (read md_path); parse_text content
