-- ===== src/Upload/Files.antt =====
-- `_save_files_by_plan` of bible/features/upload/memory_upload/storage/store_memory.py.
pub mod Laws
use bi_ble_atlas.Base.{
  String, Bool, true, false, not, ◌||◌, Option, none, some, List, [], ◌∷◌, ◌==◌, if◌then◌else◌,
  or_else,
}
use bi_ble_atlas.Base.Dict.{Dict, get, put}
use bi_ble_atlas.Base.Value.{Value, list_of, truthy}
use bi_ble_atlas.Base.Result.{ok, raise}
use bi_ble_atlas.Upload.Trace.{Trace, stored_file, ◌>>=◌, ◌>>◌, pure, lift, emit}
use bi_ble_atlas.Upload.World.{FileStoreResult, World}
use bi_ble_atlas.Upload.Plan.{PlanFile, plan_file, iterate}

-- `if not src_path or not os.path.exists(src_path)`
abbrev pub is_missing : World → PlanFile → Bool
is_missing world f = f.src_path == "" || not (world.exists f.src_path)

module _ (world : World) (kb_index : Option String) (task_id : Option Value) where
  unfoldable pub store_file : PlanFile → Dict FileStoreResult → Trace (Dict FileStoreResult)
  store_file f results = do
    emit (stored_file f.src_path f.filename task_id)
    r ← lift (world.store kb_index f.src_path f.filename task_id)
    pure (put f.file_ref r results)

  unfoldable pub save_files : List Value → Dict FileStoreResult → Trace (Dict FileStoreResult)
  save_files [] results = pure results
  save_files (entry ∷ rest) results = lift (plan_file world entry) >>= λ f.
      (if is_missing world f then pure results else store_file f results) >>= λ results'.
      save_files rest results'

-- `local_file_storage_plan.get("task_id") or task_id`
abbrev pub task_of : Option Value → Option Value → Option Value
task_of none task_id = task_id
task_of (some v) task_id = if truthy v then some v else task_id

unfoldable pub save_files_by_plan :
    World → Option String → Option (Dict Value) → Option Value → Trace (Dict FileStoreResult)
save_files_by_plan world kb_index none task_id = pure []
save_files_by_plan world kb_index (some []) task_id = pure []
save_files_by_plan world kb_index (some (entry ∷ plan)) task_id = do
  entries ← lift (iterate (or_else (get "files" (entry ∷ plan)) (list_of [])))
  save_files world kb_index (task_of (get "task_id" (entry ∷ plan)) task_id) entries []
