-- ===== src/FileSystem/Segment.antt =====
-- _utils.py: the parts of a storage path, and the path itself.
pub mod Laws
pub mod Key
use Prim.Native.Char.{Char, code}
use Prim.Native.String.{[] as no_text, ◌∷◌ as char_before}
use bi_ble_atlas.Base.{
  ℕ, String, Bool, true, false, not, ◌&&◌, ◌||◌, Option, none, some, List, [], ◌∷◌, ◌==◌, leb,
  nat_eq, if◌then◌else◌, text_append, strip, split, filter, is_blank,
}

-- The class [a-zA-Z0-9._-], and what `strip("._-")` takes off.
unfoldable pub is_mark : ℕ → Bool
is_mark c = nat_eq c b'.' || nat_eq c b'_' || nat_eq c b'-'

unfoldable pub is_alphanumeric : ℕ → Bool
is_alphanumeric c = (leb 97 c && leb c 122) || (leb 65 c && leb c 90) || (leb 48 c && leb c 57)

abbrev pub is_allowed : ℕ → Bool
is_allowed c = is_alphanumeric c || is_mark c

-- `_SEGMENT_RE.sub("_", text)`, after a character that was replaced or not: each run of other characters
-- becomes one underscore.
unfoldable pub replace_runs : String → (in_run : Bool) → String
replace_runs no_text in_run = no_text
replace_runs (char_before c s) in_run =
    let rest = replace_runs s in
    if is_allowed (code c)
    then char_before c (rest false)
    else if in_run
    then rest true
    else char_before "_" (rest true)

-- `text.strip("._-")`
unfoldable pub lstrip_marks : String → String
lstrip_marks no_text = no_text
lstrip_marks (char_before c s) =
    let rest = lstrip_marks s in if is_mark (code c) then rest else char_before c s

unfoldable pub rstrip_marks : String → String
rstrip_marks no_text = no_text
rstrip_marks (char_before c s) =
    let rest = rstrip_marks s in
    if is_blank rest && is_mark (code c) then no_text else char_before c rest

-- `text or fallback`
abbrev pub or_text : String → String → String
or_text text fallback = if text == "" then fallback else text

unfoldable pub sanitize_segment : (value fallback : String) → String
unfolding replace_runs lstrip_marks rstrip_marks
sanitize_segment value fallback =
    if strip value == ""
    then fallback
    else or_text (rstrip_marks (lstrip_marks (replace_runs (strip value) false))) fallback

abbrev pub last_or_empty : List String → String
last_or_empty [] = ""
last_or_empty (part ∷ []) = part
last_or_empty (part ∷ next ∷ parts) = last_or_empty (next ∷ parts)

-- `Path(s).name`: the last component; pathlib drops empty ones and single dots.
unfoldable pub path_name : String → String
path_name s = last_or_empty (filter (λ part. not (part == "" || part == ".")) (split b'/' s))

abbrev pub is_no_name : String → Bool
is_no_name s = s == "." || s == ".." || s == ""

unfoldable pub sanitize_filename : String → String
unfolding path_name replace_runs
sanitize_filename filename =
    if strip (path_name filename) == ""
    then "unnamed.bin"
    else (let cleaned = strip (replace_runs (strip (path_name filename)) false) in
        if is_no_name cleaned then "unnamed.bin" else cleaned)

-- A part that may be left out.
abbrev pub optional_segment : Option String → String
optional_segment none = ""
optional_segment (some s) = if s == "" then "" else sanitize_segment s ""

-- `task_id or "default"`
abbrev pub task_or_default : Option String → String
task_or_default none = "default"
task_or_default (some s) = or_text s "default"

abbrev pub non_empty : List String → List String
non_empty parts = filter (λ p. not (p == "")) parts

-- The parts of `build_storage_path`; `date_part` is the day of the clock, in digits.
unfoldable pub storage_parts :
    (date_part : String) (domain kb_index : Option String) (filename : String)
    (task_id : Option String)
    → List String
storage_parts date_part domain kb_index filename task_id = non_empty (
    optional_segment domain
    ∷ optional_segment kb_index
    ∷ date_part
    ∷ sanitize_segment (task_or_default task_id) "default"
    ∷ sanitize_filename filename
    ∷ [])

-- `"/".join(parts)`
unfoldable pub join_parts : List String → String
join_parts [] = ""
join_parts (part ∷ []) = part
join_parts (part ∷ next ∷ parts) = text_append part (text_append "/" (join_parts (next ∷ parts)))

unfoldable pub build_storage_path :
    (date_part : String) (domain kb_index : Option String) (filename : String)
    (task_id : Option String)
    → String
unfolding storage_parts join_parts
build_storage_path date_part domain kb_index filename task_id =
    join_parts (storage_parts date_part domain kb_index filename task_id)

-- `text.strip("/")`
unfoldable pub lstrip_slashes : String → String
lstrip_slashes no_text = no_text
lstrip_slashes (char_before c s) =
    let rest = lstrip_slashes s in if nat_eq (code c) b'/' then rest else char_before c s

unfoldable pub rstrip_slashes : String → String
rstrip_slashes no_text = no_text
rstrip_slashes (char_before c s) =
    let rest = rstrip_slashes s in
    if is_blank rest && nat_eq (code c) b'/' then no_text else char_before c rest

abbrev pub strip_slashes : String → String
strip_slashes s = rstrip_slashes (lstrip_slashes s)

unfoldable pub to_object_key : (storage_path prefix : String) → String
unfolding rstrip_slashes lstrip_slashes
to_object_key storage_path prefix =
    if strip_slashes prefix == ""
    then storage_path
    else text_append (strip_slashes prefix) (text_append "/" storage_path)
