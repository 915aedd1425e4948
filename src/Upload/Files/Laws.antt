-- ===== src/Upload/Files/Laws.antt =====
-- What a file that was stored leaves behind.
use bi_ble_atlas.Base.{String, ◌≡◌, sym, ◌∙◌, subst, Option, none, some, List, [], ◌∷◌}
use bi_ble_atlas.Base.Dict.{Dict, get, put}
use bi_ble_atlas.Base.Value.{Value, list_of, items, to_items, items-to_items, elements}
use bi_ble_atlas.Base.Result.{ok}
use bi_ble_atlas.Upload.Trace.{>>=-eq-ok, stored_file, emit, lift, pure, ◌>>=◌}
use bi_ble_atlas.Upload.World.{FileStoreResult, World}
use bi_ble_atlas.Upload.Plan.{PlanFile, iterate}
use bi_ble_atlas.Upload.Files.{store_file, save_files, save_files_by_plan}

pub store_file-ok :
    (world : World) (kb_index : Option String) (task_id : Option Value) (f : PlanFile)
    (acc : Dict FileStoreResult) {results : Dict FileStoreResult}
    → (store_file world kb_index task_id f acc).0 ≡ ok results
    → (r : FileStoreResult) × (world.store kb_index f.src_path f.filename task_id ≡ ok r)
      × (put f.file_ref r acc ≡ results)
unfolding store_file
store_file-ok world kb_index task_id f acc {results} stored =
    let save : FileStoreResult → _ = λ r. pure (put f.file_ref r acc) in
    let gateway = lift (world.store kb_index f.src_path f.filename task_id) in
    let (u, emitted, stored) =
      >>=-eq-ok (emit (stored_file f.src_path f.filename task_id)) (λ u. gateway >>= save) stored in
    let (r, got, stored) = >>=-eq-ok gateway save stored in (r, got, cc)

-- A plan without a task of its own, whose files are a list.
pub save_files_by_plan-ok :
    (world : World) (kb_index : Option String) (task_id : Option Value) (entry : String × Value)
    (plan : Dict Value) (vs : List Value) {results : Dict FileStoreResult}
    → get "files" (entry ∷ plan) ≡ some (list_of vs)
    → get "task_id" (entry ∷ plan) ≡ none
    → (save_files_by_plan world kb_index (some (entry ∷ plan)) task_id).0 ≡ ok results
    → (save_files world kb_index task_id vs []).0 ≡ ok results
unfolding save_files_by_plan iterate elements
save_files_by_plan-ok world kb_index task_id entry plan vs {results} at_files at_task e =
    let save : List Value → _ = λ entries. save_files world kb_index task_id entries [] in
    let (entries, at_entries, saved) =
      >>=-eq-ok (lift (ok (items (to_items vs)))) save (rw (at_files, at_task) at e) in
    let same : items (to_items vs) ≡ entries = cc (at_entries) in
    subst (λ (es : List Value). (save_files world kb_index task_id es []).0 ≡ ok results)
      (sym same ∙ items-to_items vs) saved
