-- ===== src/Task/Repository/Runs.antt =====
-- Any sequence of calls of `update_status`, as concurrent callers make them one after another.
use bi_ble_atlas.Base.{
  ℕ, String, ◌≡◌, ◌∙◌, ap, true, Option, some, List, [], ◌∷◌, arith, eq_iff, ◌==◌, if◌then◌else◌,
  Bool-cases, inl, inr,
}
use bi_ble_atlas.Base.Dict.{Dict, get-put}
use bi_ble_atlas.Base.Value.{Value}
use bi_ble_atlas.Task.{Status, AsyncTask, is_terminal}
use bi_ble_atlas.Task.Repository.{
  AsyncTaskRepository, create, find, updated, update_status, new_task,
}
use bi_ble_atlas.Task.Repository.Laws.{
  find-update_status, Follows, Follows-refl, Follows-trans, updated-Follows, updated-terminal,
}

-- The arguments of one call.
pub record Update : Type 0 where
  pub now : ℕ
  pub task_id : String
  pub status : Status
  pub result : Option (Dict Value)
  pub error : Option String

abbrev pub apply : Update → AsyncTaskRepository → AsyncTaskRepository
apply u r = (update_status u.now u.task_id u.status u.result u.error r).1

-- The repository after the calls; those that raise leave it as it was.
unfoldable pub run : List Update → AsyncTaskRepository → AsyncTaskRepository
run [] r = r
run (u ∷ us) r = run us (apply u r)

-- One call, seen from one task: it is updated where the call names it.
abbrev seen : Update → AsyncTask → String → AsyncTask
seen u t task_id = if u.task_id == task_id then updated u.now u.status u.result u.error t else t

find-apply :
    (u : Update) (r : AsyncTaskRepository) (task_id : String) (t : AsyncTask)
    → find task_id r ≡ some t
    → find task_id (apply u r) ≡ some (seen u t task_id)
find-apply u r task_id t h = ground (
  arith,
  find-update_status u.now u.task_id u.status u.result u.error r task_id,
  eq_iff u.task_id task_id,
)

seen-Follows : (u : Update) (t : AsyncTask) (task_id : String) → Follows t (seen u t task_id)
seen-Follows u t task_id = elim (Bool-cases (u.task_id == task_id)) [
  | inl same ↦ rw same (updated-Follows u.now u.status u.result u.error t)
  | inr apart ↦ rw apart (Follows-refl t)
]

seen-terminal :
    (u : Update) (t : AsyncTask) (task_id : String)
    → is_terminal t.status ≡ true
    → seen u t task_id ≡ t
seen-terminal u t task_id h = ground (arith, updated-terminal u.now u.status u.result u.error t h)

-- Whatever calls of `update_status` are made, in any order and with any arguments, a task that is
-- stored stays stored: it keeps its id, type, payload and creation time, and its status moves only
-- along the edges queued → running, queued → cancelled, running → completed and running → failed.
pub run-Follows :
    (us : List Update) (r : AsyncTaskRepository) (task_id : String) (t : AsyncTask)
    → find task_id r ≡ some t
    → (t' : AsyncTask) × (find task_id (run us r) ≡ some t') × Follows t t'
unfolding run
run-Follows [] r task_id t h = (t, h, Follows-refl t)
run-Follows (u ∷ us) r task_id t h =
    let (t', found, later) =
      run-Follows us (apply u r) task_id (seen u t task_id) (find-apply u r task_id t h) in
    (t', found, Follows-trans (seen-Follows u t task_id) later)

-- Once a task is completed, failed or cancelled, no sequence of calls of `update_status` changes
-- anything of it: neither its status nor its result, its error or its time of update.
pub run-terminal :
    (us : List Update) (r : AsyncTaskRepository) (task_id : String) (t : AsyncTask)
    → find task_id r ≡ some t
    → is_terminal t.status ≡ true
    → find task_id (run us r) ≡ some t
unfolding run
run-terminal [] r task_id t h e = h
run-terminal (u ∷ us) r task_id t h e =
    run-terminal us (apply u r) task_id t
      (find-apply u r task_id t h ∙ ap some (seen-terminal u t task_id e)) e

-- `create` stores a queued task without result or error under its id, whatever stood there before,
-- a task in a terminal state included, and leaves the other ids alone.
pub find-create :
    (now now' : ℕ) (task_id task_type : String) (payload : Dict Value) (r : AsyncTaskRepository)
    (other_id : String)
    → find other_id (create now now' task_id task_type payload r).1 ≡ (
        if task_id == other_id
        then some (new_task now now' task_id task_type payload)
        else find other_id r)
unfolding create find
find-create now now' task_id task_type payload r other_id =
    get-put other_id task_id (new_task now now' task_id task_type payload) r.store
