-- ===== src/Upload/Executor/Laws.antt =====
-- The guarantees of an import, of its two kinds.
use bi_ble_atlas.Base.{String, ◌≡◌, none, some, List, [], ◌∷◌, text_append}
use bi_ble_atlas.Base.Dict.{Dict}
use bi_ble_atlas.Base.Value.{Value}
use bi_ble_atlas.Base.Result.{ok}
use bi_ble_atlas.Upload.Trace.Laws.{Within}
use bi_ble_atlas.Upload.Files.{save_files_by_plan}
use bi_ble_atlas.Upload.Store.{store_memory, store_skill}
use bi_ble_atlas.Upload.Store.Quiet.{Write, writes}
use bi_ble_atlas.Upload.Store.Laws.{
  store_memory-IsStored, store_skill-IsStored, store_memory-IsWrite, store_skill-IsWrite,
  IsWrite-OneWrite, OneWrite,
}
use bi_ble_atlas.Upload.Service.Documents.{execute_task-OneWrite}
use bi_ble_atlas.Upload.Service.Stage.{Payload, Settings}
use bi_ble_atlas.Upload.Service.Laws.{IsGuarded, execute_task-IsGuarded}
use bi_ble_atlas.Upload.Executor.{payload_of, Services, import_memory, import_skill, execute}

module _ (services : Services) (task_id : String) (payload : Dict Value)
    (files : List (Dict Value)) where
  -- The task of an import of a memory, and that of an import of a skill, start a parser that the payload
  -- brings, or that stands where such parsers are kept, only if the guard accepted it.
  pub execute-IsGuarded :
      {memory skill : Payload} {settings : Settings}
      → payload_of "memory" payload ≡ ok memory
      → payload_of "skill" payload ≡ ok skill
      → services.skill ≡ some settings
      → Within
          (IsGuarded services.host services.memory task_id memory)
          (execute services task_id "import.memory" payload files)
        × Within
            (IsGuarded services.host settings task_id skill)
            (execute services task_id "import.skill" payload files)
  unfolding execute import_memory import_skill
  execute-IsGuarded {memory} {skill} {settings} m k s = (
    rw (m) (
        execute_task-IsGuarded services.host services.memory task_id memory
          (store_memory services.memory_world) (store_memory-IsStored services.memory_world) files),
    rw (k, s)
        (execute_task-IsGuarded services.host settings task_id skill
          (store_skill services.skill_world) (store_skill-IsStored services.skill_world) files),
  )

  -- The task of an import of a memory that returns has written documents once, into memory_<kb_index>.
  pub execute-writes :
      {memory : Payload} {answer : Dict Value}
      → payload_of "memory" payload ≡ ok memory
      → (execute services task_id "import.memory" payload files).0 ≡ ok answer
      → (w : Write) × (writes (execute services task_id "import.memory" payload files).1 ≡ w ∷ [])
        × (w.index ≡ text_append "memory_" memory.kb_index)
  unfolding execute import_memory OneWrite
  execute-writes {memory} {answer} m h = rw (m) (
      execute_task-OneWrite services.host services.memory task_id memory
        (store_memory services.memory_world) (text_append "memory_" memory.kb_index)
        (λ result model script task.
          IsWrite-OneWrite services.memory_world _ model _ _ result
            (save_files_by_plan services.memory_world (some memory.kb_index)
              result.local_file_storage_plan task)
            (store_memory services.memory_world memory.kb_index result model script task)
            (store_memory-IsWrite services.memory_world memory.kb_index result model script task))
        files answer (rw (m) at h))

  -- The task of an import of a skill that returns has written them once, into the index kb_index.
  pub execute_skill-writes :
      {skill : Payload} {settings : Settings} {answer : Dict Value}
      → payload_of "skill" payload ≡ ok skill
      → services.skill ≡ some settings
      → (execute services task_id "import.skill" payload files).0 ≡ ok answer
      → (w : Write) × (writes (execute services task_id "import.skill" payload files).1 ≡ w ∷ [])
        × (w.index ≡ skill.kb_index)
  unfolding execute import_skill OneWrite
  execute_skill-writes {skill} {settings} {answer} k s h =
      rw (k, s)
        (execute_task-OneWrite services.host settings task_id skill
          (store_skill services.skill_world) skill.kb_index
          (λ result model script task.
            IsWrite-OneWrite services.skill_world _ model _ _ result
              (save_files_by_plan services.skill_world none result.local_file_storage_plan task)
              (store_skill services.skill_world skill.kb_index result model script task)
              (store_skill-IsWrite services.skill_world skill.kb_index result model script task))
          files answer (rw (k, s) at h))
