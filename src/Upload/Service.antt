-- ===== src/Upload/Service.antt =====
-- `MemoryUploadService` of memory_upload/memory_upload_service.py and `SkillImportService` of
-- skill_upload/skill_upload_service.py: one import, from the choice of its parser to the cleanup.
pub mod Laws
pub mod Documents
pub mod Stage
use bi_ble_atlas.Base.{
  ℕ, String, Bool, true, false, not, ◌&&◌, ◌||◌, Option, none, some, List, [], ◌∷◌, ◌++◌, ◌==◌,
  if◌then◌else◌, or_else, is_some,
}
use bi_ble_atlas.Base.Dict.{Dict, get, has, without}
use bi_ble_atlas.Base.Value.{Value, str}
use bi_ble_atlas.Base.Result.{Result, ok, raise}
use bi_ble_atlas.Errors.{domain_error, internal, not_found}
use bi_ble_atlas.Upload.{Exception, domain, soft_time_limit_exceeded, as_dict}
use bi_ble_atlas.Upload.Trace.{
  Event, Trace, wrote_file, ran_parser, persisted_parser, removed_workspace, removed_upload, ◌>>=◌,
  ◌>>◌, pure, lift, emit,
}
use bi_ble_atlas.Upload.Guard.{Scripts, validate}
use bi_ble_atlas.Upload.Sandbox.{Processes, Outcome, context_argument, outcome_result}
use bi_ble_atlas.Upload.Store.{ParseResult, Script}
use Stage.{
  Payload, Settings, has_script_content, is_user_supplied, base_dir, without_script, staged_files,
  manifest_of, checked_result, keeps,
}

-- What the services ask of the machine.
pub record Host : Type 0 where
  pub scripts : Scripts
  pub processes : Processes
  pub join : String → String → String
  pub exists : String → Bool
  pub is_dir : String → Bool
  pub abspath : String → String
  pub basename : String → String
  -- `os.path.getsize(path)`, `none` where it raises
  pub get_size : String → Option Value
  -- a file's text, or its JSON document
  pub write_text : String → Value → Result Exception (Unit {0})
  pub write_json : String → Dict Value → Result Exception (Unit {0})
  pub file_sha256 : String → Result Exception String
  -- the copy of the script to a temporary file, and its move to its place
  pub copy_parser : String → String → Result Exception (Unit {0})
  pub text_of : Exception → String

abbrev pub given_or : Option String → Trace String → Trace String
given_or (some path) t = pure path
given_or none t = t

module _ (host : Host) (s : Settings) (task_id : String) (payload : Payload) where
  abbrev pub custom_parser : String
  custom_parser = host.join s.custom_parsers_dir s.parser_name

  unfoldable pub write_inline_script : Value → Trace String
  write_inline_script content = do
    let script_path = host.join (base_dir host.join s task_id payload) "parse_from_context.py"
    emit (wrote_file script_path)
    lift (host.write_text script_path content)
    pure script_path

  -- The first of the registered parsers that there is.
  unfoldable pub registered_parser : Result Exception String
  registered_parser =
      if host.exists custom_parser
      then ok custom_parser
      else if host.exists (host.join s.parsers_dir s.parser_name)
      then ok (host.join s.parsers_dir s.parser_name)
      else if host.exists (host.join s.parsers_dir "parse_default.py")
      then ok (host.join s.parsers_dir "parse_default.py")
      else raise (
          domain (
            domain_error not_found s.no_parser_message
              (some (("code", str "PARSER_SCRIPT_NOT_FOUND") ∷ [])) none))

  abbrev pub inline_or_registered : Option Value → Trace String
  inline_or_registered none = lift registered_parser
  inline_or_registered (some content) = write_inline_script content

  unfoldable pub select_parser_script : Trace String
  select_parser_script =
      given_or payload.parser_script_path
        (inline_or_registered (get "script_content" (or_else payload.parser_context [])))

  abbrev pub is_custom_parser : String → Bool
  is_custom_parser script_path = host.abspath script_path == host.abspath custom_parser

  unfoldable pub guard_script : String → Result Exception (Unit {0})
  guard_script script_path =
      let checked = validate host.scripts script_path in
      if is_user_supplied payload || is_custom_parser script_path then checked else ok tt

  unfoldable pub build_parse_manifest : List (Dict Value) → Trace String
  build_parse_manifest files = do
    let path = host.join (base_dir host.join s task_id payload) s.manifest_name
    emit (wrote_file path)
    lift (host.write_json path (manifest_of task_id payload files))
    pure path

  unfoldable pub run_parse : String → String → Trace Value
  run_parse script_path manifest_path = do
    let context = context_argument (without_script payload.parser_context)
    emit (ran_parser script_path manifest_path context)
    outcome ← lift (host.processes.run script_path manifest_path context)
    lift (outcome_result host.processes outcome)

  unfoldable pub persist_custom_parser_if_needed : String → Trace (Unit {0})
  persist_custom_parser_if_needed script_path =
      if is_user_supplied payload
      then emit (persisted_parser custom_parser)
        >> lift (host.copy_parser script_path custom_parser)
      else pure tt

  abbrev pub script_source_name : String → String
  script_source_name script_path =
      if is_user_supplied payload then s.parser_name else host.basename script_path

  -- `except DomainError`, `except Exception`
  unfoldable pub handled : Exception → Exception
  handled (domain e) = domain e
  handled soft_time_limit_exceeded = soft_time_limit_exceeded
  handled e = domain (domain_error internal (host.text_of e) none none)

  unfoldable pub settled : Result Exception (Dict Value) → Result Exception (Dict Value)
  unfolding handled
  settled (ok v) = ok v
  settled (raise e) = raise (handled e)

  abbrev pub upload_removal : Option String → List Event
  upload_removal none = []
  upload_removal (some dir) = if dir == "" then [] else removed_upload dir ∷ []

  -- `finally`
  unfoldable pub cleanup_staged_workspace : Bool → List Event
  cleanup_staged_workspace keep_failed =
      let task_dir = host.join s.import_work_root task_id in
      (if not keep_failed && host.is_dir task_dir then removed_workspace task_dir ∷ [] else [])
      ++ (if keep_failed then [] else upload_removal payload.session_upload_dir)

  -- `StoreMemory.store` or `StoreSkill.store`
  module _
      (store : String
        → ParseResult
        → Option String
        → Script
        → Option Value
        → Trace (Dict Value)) where
    -- The import after its script was chosen and checked.
    unfoldable pub import_with : String → List (Dict Value) → Trace (Dict Value)
    import_with script_path files = do
      staged ← lift (staged_files host.scripts.str_of host.get_size 0 files)
      manifest_path ← build_parse_manifest staged
      raw_result ← run_parse script_path manifest_path
      result ← lift (checked_result raw_result)
      sha256 ← lift (host.file_sha256 script_path)
      stored ←
          store payload.kb_index result payload.vector_model
            (record { source = script_source_name script_path; sha256 = sha256 })
            (some (str task_id))
      persist_custom_parser_if_needed script_path
      pure stored

    unfoldable pub import_files : List (Dict Value) → Trace (Dict Value)
    import_files files = do
      script_path ← select_parser_script
      lift (guard_script script_path)
      import_with script_path files

    unfoldable pub execute_task : List (Dict Value) → Trace (Dict Value)
    unfolding import_files settled cleanup_staged_workspace
    execute_task files =
        let t = import_files files in (settled t.0, t.1 ++ cleanup_staged_workspace (keeps s t.0))
