-- ===== src/Task/Repository.antt =====
-- bible/features/async_task/repository.py: the repository in memory. Each method holds the lock from
-- its first read to its last write, so it is one function on the store. The methods return the
-- stored object itself; the model returns its value at that moment.
pub mod Laws
pub mod Runs
mod Tests
use bi_ble_atlas.Base.{
  ℕ, String, Option, none, some, List, [], ◌∷◌, ◌==◌, is_some, or_else, if◌then◌else◌,
}
use bi_ble_atlas.Base.Dict.{Dict, get, put}
use bi_ble_atlas.Base.Value.{Value}
use bi_ble_atlas.Base.Result.{Result, ok, raise}
use bi_ble_atlas.Task.{
  Status, queued, valid_transitions, is_allowed, AsyncTask, Exception, key_error,
}

pub record AsyncTaskRepository : Type 0 where
  pub store : Dict AsyncTask

abbrev pub empty : AsyncTaskRepository
empty = record { store = [] }

-- The task that is stored first, by the times of its two fields.
unfoldable pub new_task : (created updated : ℕ) → String → String → Dict Value → AsyncTask
new_task created updated task_id task_type payload = record {
  task_id = task_id;
  task_type = task_type;
  status = queued;
  payload = payload;
  result = none;
  error = none;
  created_at = created;
  updated_at = updated;
}

-- `_utcnow` is read for each of the two fields, one reading after the other.
unfoldable pub create :
    (now now' : ℕ)
    → String
    → String
    → Dict Value
    → AsyncTaskRepository
    → AsyncTask × AsyncTaskRepository
unfolding new_task
create now now' task_id task_type payload r =
    let task = new_task now now' task_id task_type payload in
    (task, record r { store = put task_id task r.store })

unfoldable pub find : String → AsyncTaskRepository → Option AsyncTask
find task_id r = get task_id r.store

-- The assignments of `update_status`, once the transition is allowed.
unfoldable pub assign : ℕ → Status → Option (Dict Value) → Option String → AsyncTask → AsyncTask
assign now status result error task = record task {
  status = status;
  updated_at = now;
  result = if is_some result then result else task.result;
  error = if is_some error then error else task.error;
}

-- The task after `update_status`: unchanged where the transition is not allowed.
unfoldable pub updated : ℕ → Status → Option (Dict Value) → Option String → AsyncTask → AsyncTask
unfolding assign is_allowed valid_transitions
updated now status result error task =
    if is_allowed status (valid_transitions task.status)
    then assign now status result error task
    else task

unfoldable pub update_status :
    ℕ
    → String
    → Status
    → Option (Dict Value)
    → Option String
    → AsyncTaskRepository
    → Result Exception AsyncTask × AsyncTaskRepository
unfolding find updated
update_status now task_id status result error r = elim (find task_id r) [
  | none ↦ (raise (key_error task_id), r)
  | some task ↦
      let task' = updated now status result error task in
      (ok task', record r { store = put task_id task' r.store })
]

unfoldable pub of_type : String → Dict AsyncTask → List AsyncTask
of_type task_type [] = []
of_type task_type ((k, t) ∷ d) =
    let rest = of_type task_type d in if t.task_type == task_type then t ∷ rest else rest

unfoldable pub list_by_type : String → AsyncTaskRepository → List AsyncTask
unfolding of_type
list_by_type task_type r = of_type task_type r.store
