-- ===== src/Upload/Tests.antt =====
-- Imports, bindings, the guard and the preflight on concrete inputs.
use bi_ble_atlas.Base.{
  String, ◌≡◌, ◌≤◌, ◌<◌, refl, sym, ap, true, ◌&&◌, Option, none, some, List, [], ◌∷◌,
  if◌then◌else◌, filter, has_char, partition, all,
}
use bi_ble_atlas.Base.Dict.{Dict, get, put, without}
use bi_ble_atlas.Base.Int.{pos}
use bi_ble_atlas.Base.Value.{Value, int, str}
use bi_ble_atlas.Base.Result.{ok, raise}
use bi_ble_atlas.Errors.{DomainError, domain_error, deadline_exceeded, is_retryable_error}
use bi_ble_atlas.Upload.{as_dict, domain}
use bi_ble_atlas.Upload.Trace.{Trace}
use bi_ble_atlas.Upload.Trace.Laws.{Within}
use bi_ble_atlas.Upload.World.{IndexBinding, World}
use bi_ble_atlas.Upload.Binding.{
  upgrade_binding, upgrade_model, overwrite_binding, update_if_needed, patch, Import, new_binding,
  get_or_create_binding, get_or_create_skill_binding, binding_doc, create_binding,
}
use bi_ble_atlas.Upload.Binding.Laws.{
  document, replay, get_or_create_binding-document, get_or_create_skill_binding-document,
}
use bi_ble_atlas.Upload.Store.{
  ParseResult, Script, store_memory, vectorize_if_needed, store_parsed_content,
}
use bi_ble_atlas.Upload.Store.Quiet.{Write, writes}
use bi_ble_atlas.Upload.Store.Laws.{
  IsWrite, memory_template, store_memory-IsWrite, store_memory-IsStored,
}
use bi_ble_atlas.Upload.Service.Stage.{
  Payload, is_raise, staged_file, staged_files, manifest_of, check_len, chunks_of, profile_of,
  plan_of, dict_chunks, checked_result,
}
use bi_ble_atlas.Upload.Service.{
  handled, Host, execute_task, registered_parser, select_parser_script, guard_script,
  build_parse_manifest, run_parse, persist_custom_parser_if_needed, settled,
  cleanup_staged_workspace, import_with, import_files,
}
use bi_ble_atlas.Upload.Service.Laws.{IsGuarded, removals, execute_task-removals}
use bi_ble_atlas.Upload.Executor.{payload_of, Services, execute, import_memory}
use bi_ble_atlas.Upload.Executor.Laws.{execute-IsGuarded, execute-writes}
use bi_ble_atlas.Upload.Guard.{
  Node, validate, visit_names, visit_module, visit_call, visit, parse_tree, accept,
}
use bi_ble_atlas.Upload.Guard.Laws.{is_allowed, subtrees, validate-allowed}
use bi_ble_atlas.Upload.Preflight.{
  validate_common, validate_skill, validate_skill_names, top_level_dirs, UploadFileRef, Tools,
  run_upload_preflight,
}
use bi_ble_atlas.Upload.Preflight.Laws.{IsPackage, run_upload_preflight-IsPackage}
use bi_ble_atlas.Upload.Files.{save_files_by_plan}
use bi_ble_atlas.Upload.Plan.{iterate, hydrate, hydrate_all, hydrate_chunks_with_storage_paths}
use bi_ble_atlas.Upload.Vector.{
  extract_vector_source_template, search_profile_for_binding, extract_vector_options,
}
use bi_ble_atlas.Upload.Sandbox.{timed_out, decoded, outcome_result}
use bi_ble_atlas.Upload.Examples.{processes, runtime, world, scripts, host, settings}

abbrev services : Services
services = record {
  host = host;
  memory_world = world;
  memory = settings "parse_memory.py";
  skill_world = world;
  skill = some (settings "parse_skill.py");
}

abbrev payload : Dict Value
payload =
    ("kb_index", str "kb1")
    ∷ ("parser_script_path", str "/up/parser.py")
    ∷ ("_session_upload_dir", str "/up")
    ∷ []

abbrev payload_as : String → Payload
payload_as tag = record {
  kb_index = "kb1";
  tag = tag;
  vector_model = none;
  parser_context = none;
  parser_script_path = some "/up/parser.py";
  parser_script_filename = none;
  session_upload_dir = some "/up";
}

abbrev files : List (Dict Value)
files = (("path", str "/up/a") ∷ []) ∷ []

memory_payload : payload_of "memory" payload ≡ ok (payload_as "memory")
unfolding payload_of get
memory_payload = refl

skill_payload : payload_of "skill" payload ≡ ok (payload_as "skill")
unfolding payload_of get
skill_payload = refl

abbrev answer : Dict Value
answer =
    ("kb_index", str "kb1")
    ∷ ("binding_id", str "kb1")
    ∷ ("chunks_indexed", int (pos 1))
    ∷ ("files_stored", int (pos 0))
    ∷ []

returned : (execute services "t1" "import.memory" payload files).0 ≡ ok answer
unfolding vectorize_if_needed store_parsed_content store_memory save_files_by_plan iterate
    hydrate_all hydrate_chunks_with_storage_paths extract_vector_source_template
    search_profile_for_binding extract_vector_options new_binding binding_doc create_binding
    get_or_create_binding registered_parser select_parser_script guard_script build_parse_manifest
    run_parse persist_custom_parser_if_needed settled cleanup_staged_workspace decoded
    outcome_result visit_names visit_module visit_call visit parse_tree accept validate payload_of
    import_memory execute staged_file staged_files manifest_of check_len chunks_of profile_of
    plan_of dict_chunks checked_result as_dict get put without import_with import_files execute_task
    hydrate
returned = refl

execute-writes_example :
    (w : Write) × (writes (execute services "t1" "import.memory" payload files).1 ≡ w ∷ [])
    × (w.index ≡ "memory_kb1")
execute-writes_example =
    execute-writes services "t1" payload files {memory = payload_as "memory"} memory_payload
      returned

execute-IsGuarded_example :
    Within
      (IsGuarded host (settings "parse_memory.py") "t1" (payload_as "memory"))
      (execute services "t1" "import.memory" payload files)
    × Within
        (IsGuarded host (settings "parse_skill.py") "t1" (payload_as "skill"))
        (execute services "t1" "import.skill" payload files)
execute-IsGuarded_example =
    execute-IsGuarded services "t1" payload files memory_payload skill_payload refl

abbrev slow_host : Host
slow_host = record host {
  processes = record processes { run = λ script manifest context. ok timed_out };
}

abbrev timeout_error : DomainError
timeout_error =
    domain_error deadline_exceeded "Parser script timed out after 1s"
      (some (("code", str "PARSER_SCRIPT_TIMEOUT") ∷ [])) none

abbrev slow_import : Trace (Dict Value)
slow_import =
    execute_task slow_host (settings "parse_memory.py") "t1" (payload_as "memory")
      (store_memory world) files

slow_raises : slow_import.0 ≡ raise (domain timeout_error)
unfolding vectorize_if_needed store_parsed_content store_memory save_files_by_plan iterate
    hydrate_all hydrate_chunks_with_storage_paths extract_vector_source_template
    search_profile_for_binding extract_vector_options new_binding binding_doc create_binding
    get_or_create_binding registered_parser select_parser_script guard_script build_parse_manifest
    run_parse persist_custom_parser_if_needed settled cleanup_staged_workspace decoded
    outcome_result visit_names visit_module visit_call visit parse_tree accept validate payload_of
    import_memory execute staged_file staged_files manifest_of check_len chunks_of profile_of
    plan_of dict_chunks checked_result as_dict get put without import_with import_files execute_task
    hydrate handled domain_error is_retryable_error
slow_raises = refl

execute_task-removals_example :
    removals slow_host (settings "parse_memory.py") "t1" (payload_as "memory") slow_import.1
    ≡ (if is_raise slow_import.0 && true then [] else "/work/t1" ∷ "/up" ∷ [])
execute_task-removals_example =
    execute_task-removals slow_host (settings "parse_memory.py") "t1" (payload_as "memory")
      (store_memory world) (store_memory-IsStored world) files "/up" refl refl

abbrev import_of : String → Import
import_of tag = record {
  kb_index = "kb1";
  tag = tag;
  parser_script_source = "parse.py";
  parser_script_sha256 = "sha";
  vector_model = some "bge";
  search_profile = [];
}

abbrev old_binding : IndexBinding
old_binding = record (new_binding world (import_of "memory") "MEMORY") {
  vector_model = none;
  parser_script_sha256 = "old";
}

abbrev profile_or_empty : Option IndexBinding → String
profile_or_empty none = ""
profile_or_empty (some b) = b.search_profile_json

abbrev bound_world : World
bound_world = record world { get_binding_by_domain_index = λ domain index. ok (some old_binding) }

get_or_create_binding-document_example :
    replay "kb1"
      (get_or_create_binding bound_world (import_of "memory")).1
      (some (document old_binding))
    ≡ some (document (record old_binding { vector_model = some "bge" }))
unfolding get_or_create_binding upgrade_binding upgrade_model
get_or_create_binding-document_example =
    get_or_create_binding-document bound_world (import_of "memory") (some old_binding)
      {b = record old_binding { vector_model = some "bge" }} refl refl

same_profile :
    (old : IndexBinding)
    → ◌≡◌ {A = Option IndexBinding} (some old_binding) (some old)
    → old.search_profile_sha256 ≡ "sha:{}"
    → old.search_profile_json ≡ "{}"
unfolding new_binding
same_profile old e h = sym (ap profile_or_empty e)

abbrev new_skill : IndexBinding
new_skill = record old_binding {
  vector_model = some "bge";
  parser_script_sha256 = "sha";
  search_profile_json = "{}";
  search_profile_sha256 = "sha:{}";
}

skill_found : (get_or_create_skill_binding bound_world (import_of "skill")).0 ≡ ok new_skill
unfolding get_or_create_skill_binding overwrite_binding update_if_needed patch new_binding
skill_found = refl

get_or_create_skill_binding-document_example :
    (replay "kb1"
        (get_or_create_skill_binding bound_world (import_of "skill")).1
        (some (document old_binding))
      ≡ some (document new_skill))
    × (◌≡◌ {A = Option String} (some "bge") (some "bge"))
    × (◌≡◌ {A = String} "{}" "{}")
get_or_create_skill_binding-document_example =
    get_or_create_skill_binding-document bound_world (import_of "skill") (some old_binding)
      {b = new_skill} same_profile refl skill_found

abbrev parsed_result : ParseResult
parsed_result = record {
  chunks = (("doc_id", str "d1") ∷ []) ∷ [];
  search_profile = [];
  local_file_storage_plan = none;
}

abbrev script : Script
script = record { source = "parse_memory.py"; sha256 = "sha" }

store_memory-IsWrite_example :
    IsWrite world "memory_kb1" none
      (extract_vector_options [])
      (memory_template world [])
      parsed_result
      (save_files_by_plan world (some "kb1") none none)
      (store_memory world "kb1" parsed_result none script none)
store_memory-IsWrite_example = store_memory-IsWrite world "kb1" parsed_result none script none

accepted : validate scripts "/up/parser.py" ≡ ok tt
unfolding validate visit_names visit_module visit_call visit parse_tree accept
accepted = refl

validate-allowed_example :
    (source : String) × (tree : Node) × (scripts.read_text "/up/parser.py" ≡ ok source)
    × (scripts.ast_parse source ≡ ok tree)
    × (all is_allowed (subtrees tree) ≡ true)
validate-allowed_example = validate-allowed scripts "/up/parser.py" accepted

abbrev names : List String
names = "cat/" ∷ "cat/SKILL.md" ∷ "readme" ∷ []

abbrev tools : Tools
tools = record {
  runtime = runtime;
  scripts = scripts;
  is_python = λ path. true;
  exists = λ path. true;
  file_ref = λ n. "f_001";
  namelist = λ path. ok names;
  sorted_text = λ ds. "[]";
}

abbrev upload : UploadFileRef
upload = record { filename = "cat.skill"; path = "/up/cat.skill"; content_type = none; size = 10 }

preflight_passes :
    run_upload_preflight tools "SKILL" (upload ∷ []) none Value.null
    ≡ ok (("skill_package", str "cat.skill") ∷ [])
unfolding run_upload_preflight validate_common validate_skill validate_skill_names top_level_dirs
    filter has_char partition
preflight_passes = refl

run_upload_preflight-IsPackage_example :
    (0 < 1)
    × (1 ≤ 2000)
    × ((f : UploadFileRef) × (fs : List UploadFileRef) × (found : List String) × (upload ∷ []
          ≡ f ∷ fs)
        × (tools.namelist f.path ≡ ok found)
        × IsPackage tools found)
run_upload_preflight-IsPackage_example =
    run_upload_preflight-IsPackage tools (upload ∷ []) none Value.null preflight_passes
