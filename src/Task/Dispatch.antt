-- ===== src/Task/Dispatch.antt =====
-- bible/features/async_task/dispatcher.py and tasks/dispatch_task.py: the handlers by task type, and
-- what a worker does with one message. A handler may change the repository too, as other processes
-- do while it runs. The clock is read once for each update.
pub mod Laws
mod Tests
use bi_ble_atlas.Base.{
  ℕ, String, Bool, true, Option, none, some, List, [], ◌∷◌, ◌==◌, text_append, if◌then◌else◌,
}
use bi_ble_atlas.Base.Dict.{Dict, get, put}
use bi_ble_atlas.Base.Value.{Value, null, str, dict_of}
use bi_ble_atlas.Base.Result.{Result, ok, raise}
use bi_ble_atlas.Errors.{ErrorCode, value, DomainError, domain_error}
use bi_ble_atlas.Task.{
  Status, running, completed, failed, cancelled, status_eq, AsyncTask, Exception, key_error,
  value_error, runtime_error, domain, external,
}
use bi_ble_atlas.Task.Repository.{AsyncTaskRepository, find, update_status}

-- How a call of a handler ends.
pub data Outcome : Type 0 where
  returned : Dict Value → Outcome
  soft_time_limit_exceeded : Outcome
  domain_failed : DomainError → Outcome
  -- any other exception, by its text
  unexpected : String → Outcome

abbrev pub Handler : Type 0
Handler = String → String → Dict Value → AsyncTaskRepository → Outcome × AsyncTaskRepository

pub record AsyncTaskDispatcher : Type 0 where
  pub handlers : Dict Handler

unfoldable pub register :
    String → Handler → AsyncTaskDispatcher → Result Exception AsyncTaskDispatcher
register task_type handler d =
    if task_type == ""
    then raise (value_error "task_type must not be empty")
    else ok (record d { handlers = put task_type handler d.handlers })

-- The call of the handler that was found.
unfoldable pub execute_with : Option Handler → Handler
execute_with none task_id task_type payload r = (
  domain_failed (
      domain_error ErrorCode.not_implemented (text_append "Unknown task type: " task_type) none
        none),
  r,
)
execute_with (some handler) task_id task_type payload r = handler task_id task_type payload r

unfoldable pub execute : AsyncTaskDispatcher → Handler
unfolding execute_with
execute d task_id task_type payload r =
    execute_with (get task_type d.handlers) task_id task_type payload r

-- The result that is stored with a failure.
abbrev pub domain_result : DomainError → Dict Value
domain_result e =
    ("code", str (value e.code))
    ∷ ("details", elim e.details [ none ↦ null | some d ↦ dict_of d ])
    ∷ []

abbrev pub internal_result : Dict Value
internal_result = ("code", str (value ErrorCode.internal)) ∷ []

-- `_repository.update_status(...)` as a statement.
abbrev statement :
    Result Exception AsyncTask × AsyncTaskRepository
    → Result Exception (Unit {0}) × AsyncTaskRepository
statement (ok t, r) = (ok tt, r)
statement (raise e, r) = (raise e, r)

-- The three `except` blocks.
unfoldable pub fail_unexpected :
    ℕ → String → String → AsyncTaskRepository → Result Exception (Unit {0}) × AsyncTaskRepository
fail_unexpected now task_id text r =
    statement (update_status now task_id failed (some internal_result) (some text) r)

-- An exception of the update inside the `try` is caught as an unexpected one.
unfoldable pub after_completed :
    ℕ
    → String
    → (Exception → String)
    → Result Exception AsyncTask × AsyncTaskRepository
    → Result Exception (Unit {0}) × AsyncTaskRepository
after_completed now task_id text_of (ok t, r) = (ok tt, r)
after_completed now task_id text_of (raise e, r) = fail_unexpected now task_id (text_of e) r

unfoldable pub settle :
    ℕ
    → String
    → (Exception → String)
    → Outcome × AsyncTaskRepository
    → Result Exception (Unit {0}) × AsyncTaskRepository
unfolding after_completed
settle now task_id text_of (returned result, r) =
    after_completed now task_id text_of (update_status now task_id completed (some result) none r)
settle now task_id text_of (soft_time_limit_exceeded, r) =
    statement (update_status now task_id failed none (some "Task exceeded configured timeout") r)
settle now task_id text_of (domain_failed e, r) =
    statement (update_status now task_id failed (some (domain_result e)) (some e.message) r)
settle now task_id text_of (unexpected text, r) = fail_unexpected now task_id text r

-- What follows the update to running.
unfoldable pub after_running :
    ℕ
    → AsyncTaskDispatcher
    → String
    → String
    → Dict Value
    → (Exception → String)
    → Result Exception AsyncTask × AsyncTaskRepository
    → Result Exception (Unit {0}) × AsyncTaskRepository
after_running now d task_id task_type payload text_of (raise e, r) = (raise e, r)
after_running now d task_id task_type payload text_of (ok t, r) =
    settle now task_id text_of (execute d task_id task_type payload r)

-- `task is not None and task.status == "cancelled"`
unfoldable pub is_cancelled : Option AsyncTask → Bool
unfolding status_eq
is_cancelled none = Bool.false
is_cancelled (some t) = status_eq t.status cancelled

-- `none` is a worker on which `configure_dispatch` was not called. `text_of` is `str(exc)`.
unfoldable pub dispatch_task :
    ℕ
    → ℕ
    → Option AsyncTaskDispatcher
    → (Exception → String)
    → String
    → String
    → Dict Value
    → AsyncTaskRepository
    → Result Exception (Unit {0}) × AsyncTaskRepository
dispatch_task now_start now_end none text_of task_id task_type payload r =
    (raise (runtime_error "dispatch_task not configured; call configure_dispatch() first"), r)
dispatch_task now_start now_end (some d) text_of task_id task_type payload r =
    if is_cancelled (find task_id r)
    then (ok tt, r)
    else after_running now_end d task_id task_type payload text_of
        (update_status now_start task_id running none none r)
