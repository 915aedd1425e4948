-- ===== src/Upload/Preflight.antt =====
-- bible/features/upload/preflight/validators.py: the checks on an upload before its task is queued.
pub mod Laws
use bi_ble_atlas.Base.{
  ℕ, suc, String, Bool, true, false, not, ◌&&◌, ◌||◌, Option, none, some, List, [], ◌∷◌, map, ◌==◌,
  if◌then◌else◌, ltb, length, member, is_empty, filter, has_char, partition, text_append,
}
use bi_ble_atlas.Base.Dict.{Dict}
use bi_ble_atlas.Base.Int.{pos}
use bi_ble_atlas.Base.Value.{Value, null, int, str, obj}
use bi_ble_atlas.Base.Result.{Result, ok, raise, ◌>>=◌, ◌>>◌, raise_if}
use bi_ble_atlas.Errors.{domain_error, invalid_argument}
use bi_ble_atlas.Upload.{Exception, domain, external, Runtime}
use bi_ble_atlas.Upload.Guard.{Scripts, validate}
use bi_ble_atlas.Upload.Memory.Manifest.{UploadedFile, split_meta_and_attachments}
use bi_ble_atlas.Upload.Memory.Meta.{parse_meta}

pub record UploadFileRef : Type 0 where
  pub filename : String
  pub path : String
  pub content_type : Option String
  pub size : ℕ

pub record Tools : Type 0 where
  pub runtime : Runtime
  pub scripts : Scripts
  -- `path.endswith(".py")`
  pub is_python : String → Bool
  pub exists : String → Bool
  -- `f"f_{idx:03d}"`
  pub file_ref : ℕ → String
  -- the names of a zip file; its `BadZipFile` by its text
  pub namelist : String → Result String (List String)
  -- `repr(sorted(names))`
  pub sorted_text : List String → String

abbrev pub invalid : String → Exception
invalid text = domain (domain_error invalid_argument text none none)

-- `None` or a dictionary, of a JSON value
abbrev pub is_context : Value → Bool
is_context null = true
is_context (obj fs) = true
is_context v = false

module _ (tools : Tools) where
  abbrev pub check_script : Option String → Result Exception (Unit {0})
  check_script none = ok tt
  check_script (some path) =
      let checked =
        (raise_if (not (tools.is_python path)) (invalid "parser_script must be a .py file")
          >> validate tools.scripts path) in
      if path == "" then ok tt else checked

  unfoldable pub validate_common :
      List UploadFileRef → Option String → Value → Result Exception (Unit {0})
  validate_common files parser_script_path parser_context = do
    raise_if (is_empty files) (invalid "files[] is required")
    raise_if (ltb 2000 (length files)) (invalid "too many files")
    raise_if (not (is_context parser_context)) (invalid "parser_context must be a JSON object")
    check_script parser_script_path

  abbrev pub uploaded_file : ℕ → UploadFileRef → UploadedFile
  uploaded_file idx f = record {
    file_ref = tools.file_ref idx;
    filename = f.filename;
    abs_path = f.path;
    size_bytes = int (pos f.size);
    content_type = elim f.content_type [ none ↦ Value.null | some t ↦ str t ];
  }

  abbrev pub uploaded_files : ℕ → List UploadFileRef → List UploadedFile
  uploaded_files idx [] = []
  uploaded_files idx (f ∷ fs) = uploaded_file idx f ∷ uploaded_files (suc idx) fs

  unfoldable pub validate_memory : List UploadFileRef → Result Exception (Dict Value)
  validate_memory files = do
    split ← split_meta_and_attachments tools.runtime (uploaded_files 1 files)
    parsed ← parse_meta tools.runtime split.0.abs_path
    ok (("memory_id", str parsed.memory_id) ∷ ("attachments", int (pos (length split.1))) ∷ [])

  -- The loop over the files of a knowledge base.
  unfoldable pub check_exist : List UploadFileRef → Result Exception (Unit {0})
  check_exist [] = ok tt
  check_exist (f ∷ fs) = do
    raise_if (not (tools.exists f.path))
        (invalid (text_append "uploaded file not found: " f.filename))
    check_exist fs

  unfoldable pub validate_knowledge_base : List UploadFileRef → Result Exception (Dict Value)
  unfolding check_exist
  validate_knowledge_base files = do
    check_exist files
    ok (("files", int (pos (length files))) ∷ [])

  -- `{name.split("/")[0] for name in names if "/" in name}`, in the order of the names
  unfoldable pub top_level_dirs : List String → List String
  top_level_dirs [] = []
  top_level_dirs (n ∷ names) =
      let dirs = top_level_dirs names in
      let dir = (partition 47 n).0 in
      if not (has_char 47 n) then dirs else dir ∷ filter (λ d. not (d == dir)) dirs

  abbrev pub read_names : Result String (List String) → Result Exception (List String)
  read_names (ok names) = ok names
  read_names (raise text) =
      raise (invalid (text_append "skill package is not a valid zip file: " text))

  abbrev pub one_dir : List String → Result Exception String
  one_dir [] = raise (
      invalid
        "skill package must contain a top-level directory containing SKILL.md; found only root-level files")
  one_dir (d ∷ []) = ok d
  one_dir (d ∷ e ∷ ds) = raise (
      invalid (
        text_append "skill package must contain exactly one top-level directory, got "
          (tools.sorted_text (d ∷ e ∷ ds))))

  unfoldable pub validate_skill_names : String → List String → Result Exception (Dict Value)
  unfolding top_level_dirs
  validate_skill_names filename names = do
    skill_name ← one_dir (top_level_dirs names)
    raise_if (not (member (text_append skill_name "/SKILL.md") names)) (
        invalid (
          text_append "skill package '" (
            text_append filename (
              text_append "' must contain SKILL.md inside '"
                (text_append skill_name "/', but it was not found")))))
    ok (("skill_package", str filename) ∷ [])

  unfoldable pub validate_skill : List UploadFileRef → Result Exception (Dict Value)
  unfolding validate_skill_names
  validate_skill [] = raise (external "list index out of range")
  validate_skill (skill_file ∷ files) = do
    names ← read_names (tools.namelist skill_file.path)
    validate_skill_names skill_file.filename names

  unfoldable pub run_upload_preflight :
      String → List UploadFileRef → Option String → Value → Result Exception (Dict Value)
  unfolding validate_common validate_memory validate_knowledge_base validate_skill
  run_upload_preflight domain_name files parser_script_path parser_context =
      let memory = validate_memory files in
      let knowledge_base = validate_knowledge_base files in
      let skill = validate_skill files in
      validate_common files parser_script_path parser_context
      >> (if domain_name == "MEMORY"
          then memory
          else if domain_name == "KNOWLEDGE_BASE"
          then knowledge_base
          else if domain_name == "SKILL"
          then skill
          else raise (invalid (text_append "unsupported import domain: " domain_name)))
