-- ===== src/Upload/Service/Stage.antt =====
-- The values that an import passes along: its payload, the manifest, and the checked result of its
-- parser. `validate_parse_result_schema` of memory_upload_service.py and skill_upload_service.py, and
-- `build_staged_files_from_paths`, `build_parse_manifest` of store_memory.py and store_skill.py.
use bi_ble_atlas.Base.{
  ℕ, suc, String, Bool, true, false, ◌&&◌, ◌||◌, Option, none, some, List, [], ◌∷◌, map, ◌==◌,
  if◌then◌else◌, or_else, is_some, text_append,
}
use bi_ble_atlas.Base.Dict.{Dict, get, has, without}
use bi_ble_atlas.Base.Int.{pos}
use bi_ble_atlas.Base.Value.{
  Value, null, bool, int, float, str, arr, obj, items, fields, truthy, dict_of, list_of,
}
use bi_ble_atlas.Base.Result.{Result, ok, raise, ◌>>=◌, ◌>>◌}
use bi_ble_atlas.Errors.{domain_error, invalid_argument}
use bi_ble_atlas.Upload.{Exception, domain, type_error, as_dict}
use bi_ble_atlas.Upload.Plan.{text_or}
use bi_ble_atlas.Upload.Store.{ParseResult}

-- `MemoryUploadPayload` and `SkillImportPayload` of bible/features/upload/types.py.
pub record Payload : Type 0 where
  pub kb_index : String
  pub tag : String
  pub vector_model : Option String
  pub parser_context : Option (Dict Value)
  pub parser_script_path : Option String
  pub parser_script_filename : Option String
  pub session_upload_dir : Option String

-- What tells the two services apart, and their configuration.
pub record Settings : Type 0 where
  pub custom_parsers_dir : String
  pub parsers_dir : String
  pub import_work_root : String
  -- "parse_memory.py" or "parse_skill.py"
  pub parser_name : String
  pub manifest_name : String
  pub no_parser_message : String
  pub keep_failed_workspace : Bool

abbrev pub has_script_content : Payload → Bool
has_script_content p = has "script_content" (or_else p.parser_context [])

-- `_user_supplied`
abbrev pub is_user_supplied : Payload → Bool
is_user_supplied p = is_some p.parser_script_path || has_script_content p

-- The upload's directory, or the task's.
abbrev dir_or : Option String → String → String
dir_or none task_dir = task_dir
dir_or (some dir) task_dir = if dir == "" then task_dir else dir

abbrev pub base_dir : (String → String → String) → Settings → String → Payload → String
base_dir join s task_id p = dir_or p.session_upload_dir (join s.import_work_root task_id)

-- The context without the script's source.
abbrev pub without_script : Option (Dict Value) → Option (Dict Value)
without_script none = none
without_script (some context) = some (without ("script_content" ∷ []) context)

-- `ref.get("filename") or f"file_{idx}"`
abbrev pub filename_or : Option Value → String → Value
filename_or none name = str name
filename_or (some v) name = if truthy v then v else str name

module _ (str_of : Value → String) (get_size : String → Option Value) where
  abbrev size_of : String → Value
  size_of path =
      let size = or_else (get_size path) (int (pos 0)) in if path == "" then int (pos 0) else size

  unfoldable pub staged_file : ℕ → Dict Value → Result Exception (Dict Value)
  staged_file idx ref = do
    let name = text_append "file_" (str_of (int (pos idx)))
    path ← text_or "" (get "path" ref)
    ok (
        ("file_ref", str name)
        ∷ ("filename", filename_or (get "filename" ref) name)
        ∷ ("abs_path", str path)
        ∷ ("size_bytes", size_of path)
        ∷ ("content_type", or_else (get "content_type" ref) (str "application/octet-stream"))
        ∷ [])

  unfoldable pub staged_files : ℕ → List (Dict Value) → Result Exception (List (Dict Value))
  unfolding staged_file
  staged_files idx [] = ok []
  staged_files idx (ref ∷ refs) =
      staged_file idx ref >>= λ file. staged_files (suc idx) refs >>= λ files. ok (file ∷ files)

unfoldable pub manifest_of : String → Payload → List (Dict Value) → Dict Value
manifest_of task_id p files =
    ("task_id", str task_id)
    ∷ ("kb_index", str p.kb_index)
    ∷ ("tag", str p.tag)
    ∷ ("files", list_of (map (λ f. dict_of f) files))
    ∷ []

abbrev schema_invalid : String → Exception
schema_invalid text = domain (
    domain_error invalid_argument text (some (("code", str "PARSE_RESULT_SCHEMA_INVALID") ∷ []))
      none)

-- `len(v)`, which the log of the parser's result takes
unfoldable pub check_len : Value → Result Exception (Unit {0})
check_len null = raise type_error
check_len (bool b) = raise type_error
check_len (int n) = raise type_error
check_len (float x) = raise type_error
check_len v = ok tt

unfoldable pub chunks_of : Option Value → Result Exception (List Value)
chunks_of (some (arr vs)) = ok (items vs)
chunks_of o = raise (schema_invalid "Parse result missing required field 'chunks' (must be a list)")

unfoldable pub profile_of : Option Value → Result Exception (Dict Value)
profile_of (some (obj fs)) = ok (fields fs)
profile_of o =
    raise (schema_invalid "Parse result missing required field 'search_profile' (must be a dict)")

unfoldable pub plan_of : Option Value → Result Exception (Option (Dict Value))
plan_of none = ok none
plan_of (some null) = ok none
plan_of (some (obj fs)) = ok (some (fields fs))
plan_of (some v) =
    raise (schema_invalid "Parse result field 'local_file_storage_plan' must be a dict or null")

-- Chunks are dictionaries: another one is refused here, and not where it is first used.
unfoldable pub dict_chunks : List Value → Result Exception (List (Dict Value))
dict_chunks [] = ok []
dict_chunks (v ∷ vs) = as_dict v >>= λ d. dict_chunks vs >>= λ ds. ok (d ∷ ds)

unfoldable pub checked_result : Value → Result Exception ParseResult
unfolding check_len chunks_of profile_of plan_of dict_chunks
checked_result raw_result = do
  result ← as_dict raw_result
  check_len (or_else (get "chunks" result) (list_of []))
  chunks ← chunks_of (get "chunks" result)
  profile ← profile_of (get "search_profile" result)
  plan ← plan_of (get "local_file_storage_plan" result)
  dicts ← dict_chunks chunks
  ok (record { chunks = dicts; search_profile = profile; local_file_storage_plan = plan })

abbrev pub is_raise {ℓ} : {A : Type ℓ} → Result Exception A → Bool
is_raise (ok a) = false
is_raise (raise e) = true

-- `failed and keep_failed`
abbrev pub keeps : Settings → Result Exception (Dict Value) → Bool
keeps s r = is_raise r && s.keep_failed_workspace
