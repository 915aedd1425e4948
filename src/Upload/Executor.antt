-- ===== src/Upload/Executor.antt =====
-- `UploadTaskExecutor` of bible/features/upload/upload_task_executor.py, with the services that
-- bible/features/upload/container.py gives it: an import by its task type.
pub mod Laws
use bi_ble_atlas.Base.{
  ℕ, String, Bool, Option, none, some, List, [], ◌∷◌, ◌==◌, if◌then◌else◌, or_else, text_append,
}
use bi_ble_atlas.Base.Dict.{Dict, get}
use bi_ble_atlas.Base.Value.{Value, null, str, obj, fields}
use bi_ble_atlas.Base.Result.{Result, ok, raise, ◌>>=◌}
use bi_ble_atlas.Errors.{domain_error, not_implemented}
use bi_ble_atlas.Upload.{Exception, domain, key_error, type_error, as_dict}
use bi_ble_atlas.Upload.Trace.{Trace, lift}
use bi_ble_atlas.Upload.World.{World}
use bi_ble_atlas.Upload.Plan.{text_or}
use bi_ble_atlas.Upload.Store.{store_memory, store_skill}
use bi_ble_atlas.Upload.Service.Stage.{Payload, Settings}
use bi_ble_atlas.Upload.Service.{Host, execute_task}

-- `payload.get(k)`, a text or `None`
abbrev pub optional_text : Option Value → Result Exception (Option String)
optional_text none = ok none
optional_text (some null) = ok none
optional_text (some (str s)) = ok (some s)
optional_text (some v) = raise type_error

abbrev pub optional_dict : Option Value → Result Exception (Option (Dict Value))
optional_dict (some (obj fs)) = ok (some (fields fs))
optional_dict none = ok none
optional_dict (some null) = ok none
optional_dict (some v) = raise type_error

-- `payload["kb_index"]`
abbrev pub required_text : String → Option Value → Result Exception String
required_text k none = raise (key_error k)
required_text k o = text_or "" o

unfoldable pub payload_of : String → Dict Value → Result Exception Payload
payload_of default_tag payload = do
  kb_index ← required_text "kb_index" (get "kb_index" payload)
  tag ← text_or default_tag (get "tag" payload)
  vector_model ← optional_text (get "vector_model" payload)
  parser_context ← optional_dict (get "parser_context" payload)
  path ← optional_text (get "parser_script_path" payload)
  filename ← optional_text (get "parser_script_filename" payload)
  dir ← optional_text (get "_session_upload_dir" payload)
  ok (record {
    kb_index = kb_index;
    tag = tag;
    vector_model = vector_model;
    parser_context = parser_context;
    parser_script_path = path;
    parser_script_filename = filename;
    session_upload_dir = dir;
  })

-- The services: the database and files of each, and its settings; that of skills may be missing.
pub record Services : Type 0 where
  pub host : Host
  pub memory_world : World
  pub memory : Settings
  pub skill_world : World
  pub skill : Option Settings

-- `SkillImportService.execute_task`, which takes the steps of `MemoryUploadService.execute_task`.
abbrev pub execute_skill_task :
    Host → World → Settings → String → Payload → List (Dict Value) → Trace (Dict Value)
execute_skill_task host world settings task_id payload files =
    execute_task host settings task_id payload (store_skill world) files

module _ (services : Services) (task_id : String) where
  unfoldable pub import_memory : Result Exception Payload → List (Dict Value) → Trace (Dict Value)
  import_memory (raise e) files = lift (raise e)
  import_memory (ok payload) files =
      execute_task services.host services.memory task_id payload
        (store_memory services.memory_world) files

  unfoldable pub import_skill :
      Option Settings → Result Exception Payload → List (Dict Value) → Trace (Dict Value)
  import_skill none payload files = lift (
      raise
        (domain (domain_error not_implemented "Skill import service is not initialized" none none)))
  import_skill (some settings) (raise e) files = lift (raise e)
  import_skill (some settings) (ok payload) files =
      execute_skill_task services.host services.skill_world settings task_id payload files

  -- `files` is `payload.get("_files", [])`, a list of dictionaries.
  unfoldable pub execute : String → Dict Value → List (Dict Value) → Trace (Dict Value)
  unfolding payload_of import_memory import_skill
  execute task_type payload files =
      let memory = import_memory (payload_of "memory" payload) files in
      let skill = import_skill services.skill (payload_of "skill" payload) files in
      if task_type == "import.memory"
      then memory
      else if task_type == "import.skill"
      then skill
      else lift (
          raise (
            domain (
              domain_error not_implemented (text_append "Unknown task type: " task_type) none
                none)))
