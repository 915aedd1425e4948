-- ===== src/Task/Service.antt =====
-- bible/features/async_task/service.py. The broker is not in the repository's sources: whether it
-- accepts a message or a revocation is a parameter, and what it accepted is recorded in the state.
-- A broker only queues: it does not touch the repository before `submit` returns.
pub mod Laws
mod Tests
use mathlib.Core.Option
use bi_ble_atlas.Base.{
  ℕ, String, Bool, true, false, Option, none, some, List, [], ◌∷◌, ◌++◌, ◌==◌, text_append,
  if◌then◌else◌,
}
use bi_ble_atlas.Base.Dict.{Dict}
use bi_ble_atlas.Base.Int.{ℤ, pos, is_positive, pos_part}
use bi_ble_atlas.Base.Value.{Value}
use bi_ble_atlas.Base.Result.{Result, ok, raise}
use bi_ble_atlas.Errors.{ErrorCode, domain_error}
use bi_ble_atlas.Task.{
  Status, queued, running, completed, failed, cancelled, other, AsyncTask, Exception, key_error,
  domain, external,
}
use bi_ble_atlas.Task.Repository.{AsyncTaskRepository, create, find, update_status}

-- `dispatch_task.apply_async(args=[task_id, task_type, payload], task_id=..., soft_time_limit=...)`
pub record Message : Type 0 where
  pub task_id : String
  pub task_type : String
  pub payload : Dict Value
  pub soft_time_limit : Option ℕ

-- `celery_app.control.revoke(task_id, terminate=...)`
pub record Revocation : Type 0 where
  pub task_id : String
  pub terminate : Bool

-- What the broker answers: `none` where it accepts, or the text of what it raises.
pub record Broker : Type 0 where
  pub apply_async : Message → Option String
  pub revoke : Revocation → Option String

pub record System : Type 0 where
  pub repository : AsyncTaskRepository
  pub sent : List Message
  pub revoked : List Revocation

-- `task_timeout_seconds if task_timeout_seconds > 0 else None`
unfoldable pub task_timeout : ℤ → Option ℕ
task_timeout seconds = if is_positive seconds then some (pos_part seconds) else none

-- `idempotency_key or str(uuid.uuid4())`
unfoldable pub choose_id : Option String → String → String
choose_id none uuid = uuid
choose_id (some key) uuid = if key == "" then uuid else key

-- `_task_to_dict`
pub record TaskView : Type 0 where
  pub task_id : String
  pub task_type : String
  pub status : Status
  pub result : Option (Dict Value)
  pub error : Option String
  pub created_at : ℕ
  pub updated_at : ℕ

unfoldable pub view : AsyncTask → TaskView
view t = record {
  task_id = t.task_id;
  task_type = t.task_type;
  status = t.status;
  result = t.result;
  error = t.error;
  created_at = t.created_at;
  updated_at = t.updated_at;
}

pub record Submitted : Type 0 where
  pub task_id : String
  pub status : Status

-- `_task_to_dict(task)`, which fails on `None`.
unfoldable pub view_or_error : String → Option AsyncTask → Result Exception TaskView
view_or_error k none = raise (external "'NoneType' object has no attribute 'task_id'")
view_or_error k (some t) = ok (view t)

-- What follows the broker's answer.
unfoldable pub after_enqueue :
    ℕ → AsyncTask → Message → Option String → System → Result Exception Submitted × System
after_enqueue now task message none s = (
  ok (record { task_id = task.task_id; status = task.status }),
  record s { sent = s.sent ++ message ∷ [] },
)
after_enqueue now task message (some text) s = (
  raise (
      domain
        (domain_error ErrorCode.internal (text_append "Task broker unavailable: " text) none none)),
  record s { repository = (update_status now message.task_id cancelled none none s.repository).1 },
)

unfoldable pub after_revoke :
    Revocation → (System → System) → Option String → System → Result Exception (Unit {0}) × System
after_revoke revocation next none s =
    (ok tt, next (record s { revoked = s.revoked ++ revocation ∷ [] }))
after_revoke revocation next (some text) s = (raise (external text), s)

module _ (broker : Broker) where
  -- `now`, `now'` and `now_failed` are the readings of the clock, the first two for the new task.
  unfoldable pub submit :
      ℤ
      → ℕ
      → ℕ
      → ℕ
      → String
      → String
      → Dict Value
      → Option String
      → System
      → Result Exception Submitted × System
  submit timeout now now' now_failed uuid task_type payload idempotency_key s =
      let task_id = choose_id idempotency_key uuid in
      let (task, repository) = create now now' task_id task_type payload s.repository in
      let message : Message = record {
        task_id = task_id;
        task_type = task_type;
        payload = payload;
        soft_time_limit = task_timeout timeout;
      } in
      after_enqueue now_failed task message (broker.apply_async message)
        (record s { repository = repository })

  -- The revocation, and what follows it where the broker accepts.
  unfoldable pub revoke :
      String → Bool → (System → System) → System → Result Exception (Unit {0}) × System
  revoke task_id terminate next s =
      let revocation : Revocation = record { task_id = task_id; terminate = terminate } in
      after_revoke revocation next (broker.revoke revocation) s

  -- The branches on the status.
  unfoldable pub cancel_by_status :
      ℕ → String → Status → System → Result Exception (Unit {0}) × System
  cancel_by_status now task_id queued s =
      revoke task_id false
        (λ s'. record s' {
          repository = (update_status now task_id cancelled none none s'.repository).1;
        })
        s
  cancel_by_status now task_id running s = revoke task_id true (λ s'. s') s
  cancel_by_status now task_id _ s = (ok tt, s)

  -- `self._task_to_dict(self._repository.get(task_id))`
  unfoldable pub answer :
      String → Result Exception (Unit {0}) × System → Result Exception TaskView × System
  answer task_id (raise e, s) = (raise e, s)
  answer task_id (ok _, s) = (view_or_error task_id (find task_id s.repository), s)

  -- `if task is None: raise KeyError(...)`
  unfoldable pub cancel_found :
      ℕ → String → Option AsyncTask → System → Result Exception TaskView × System
  cancel_found now task_id none s = (raise (key_error task_id), s)
  cancel_found now task_id (some task) s =
      answer task_id (cancel_by_status now task_id task.status s)

  unfoldable pub cancel : ℕ → String → System → Result Exception TaskView × System
  cancel now task_id s = cancel_found now task_id (find task_id s.repository) s

-- `get`
unfoldable pub get_task : String → System → Option TaskView
unfolding view
get_task task_id s = Option.map view (find task_id s.repository)
