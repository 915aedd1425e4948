-- ===== src/Task/Dispatch/Laws.antt =====
-- What is stored of a task when a worker has handled its message.
use bi_ble_atlas.Base.{
  ℕ, String, true, false, Option, none, some, ◌≡◌, ◌≢◌, refl, ◌∙◌, ap, arith, eq_refl,
}
use bi_ble_atlas.Base.Dict.{Dict}
use bi_ble_atlas.Base.Value.{Value}
use bi_ble_atlas.Base.Result.{Result, ok, raise}
use bi_ble_atlas.Task.{
  Status, queued, running, completed, failed, cancelled, AsyncTask, Exception, valid_transitions,
  is_allowed, is_terminal, status_eq,
}
use bi_ble_atlas.Task.Repository.{AsyncTaskRepository, find, update_status, updated, assign}
use bi_ble_atlas.Task.Repository.Laws.{find-update_status, update_status-result, updated-terminal}
use bi_ble_atlas.Task.Dispatch.{
  Outcome, returned, soft_time_limit_exceeded, domain_failed, unexpected, AsyncTaskDispatcher,
  execute, domain_result, internal_result, settle, fail_unexpected, after_running, is_cancelled,
  dispatch_task,
}

-- What each outcome stores: the status, the result and the error.
abbrev pub final_status : Outcome → Status
final_status (returned result) = completed
final_status _ = failed

abbrev pub final_result : Outcome → Option (Dict Value)
final_result (returned result) = some result
final_result soft_time_limit_exceeded = none
final_result (domain_failed e) = some (domain_result e)
final_result (unexpected text) = some internal_result

abbrev pub final_error : Outcome → Option String
final_error (returned result) = none
final_error soft_time_limit_exceeded = some "Task exceeded configured timeout"
final_error (domain_failed e) = some e.message
final_error (unexpected text) = some text

-- The task after the last update of the worker.
abbrev pub settled : ℕ → Outcome → AsyncTask → AsyncTask
settled now out t = updated now (final_status out) (final_result out) (final_error out) t

abbrev pub or_kept {ℓ} : {A : Type ℓ} → Option A → Option A → Option A
or_kept none old = old
or_kept (some new) old = some new

settled-queued :
    (now_start now_end : ℕ) (out : Outcome) (t : AsyncTask)
    → t.status ≡ queued
    → settled now_end out (updated now_start running none none t) ≡ record t {
      status = final_status out;
      result = or_kept (final_result out) t.result;
      error = or_kept (final_error out) t.error;
      updated_at = now_end;
    }
unfolding updated assign is_allowed valid_transitions status_eq
settled-queued now_start now_end (returned result) t waits = ground arith
settled-queued now_start now_end out t waits = ground arith

module _ (now : ℕ) (task_id : String) (text_of : Exception → String) where
  -- One update, whatever the outcome.
  settle-eq :
      (out : Outcome) (r : AsyncTaskRepository) (t : AsyncTask)
      → find task_id r ≡ some t
      → settle now task_id text_of (out, r) ≡ (
        ok tt,
        (update_status now task_id (final_status out) (final_result out) (final_error out) r).1,
      )
  unfolding settle fail_unexpected update_status
  settle-eq (returned result) r t stored = ground arith
  settle-eq out r t stored = ground arith

  settle-find :
      (out : Outcome) (r : AsyncTaskRepository) (t : AsyncTask)
      → find task_id r ≡ some t
      → ((settle now task_id text_of (out, r)).0 ≡ ok tt)
        × (find task_id (settle now task_id text_of (out, r)).1 ≡ some (settled now out t))
  settle-find out r t stored =
      rw (settle-eq out r t stored) (refl, rw (find-update_status, stored, eq_refl))

status-ne : (t : AsyncTask) → t.status ≢ cancelled → status_eq t.status cancelled ≡ false
unfolding status_eq
status-ne t h = ground arith

module _ (now_start now_end : ℕ) (d : AsyncTaskDispatcher) (text_of : Exception → String)
    (task_id task_type : String) (payload : Dict Value) (r : AsyncTaskRepository) where
  abbrev dispatched : Result Exception (Unit {0}) × AsyncTaskRepository
  dispatched = dispatch_task now_start now_end (some d) text_of task_id task_type payload r

  -- How the handler ended, and the repository that it left.
  abbrev handled : Outcome × AsyncTaskRepository
  handled =
      execute d task_id task_type payload (update_status now_start task_id running none none r).1

  started :
      {x : AsyncTask} (p : Result Exception AsyncTask × AsyncTaskRepository)
      → p.0 ≡ ok x
      → after_running now_end d task_id task_type payload text_of p
        ≡ settle now_end task_id text_of (execute d task_id task_type payload p.1)
  unfolding after_running
  started (ok t, r') e = refl
  started (raise e, r') h = cc

  dispatch-eq :
      (t : AsyncTask)
      → find task_id r ≡ some t
      → t.status ≢ cancelled
      → dispatched ≡ settle now_end task_id text_of handled
  unfolding dispatch_task is_cancelled
  dispatch-eq t stored live =
      rw (stored, status-ne t live)
        (started {x = updated now_start running none none t}
          (update_status now_start task_id running none none r) (rw (update_status-result, stored)))

  -- The handler is called once for a task that is not cancelled, and what it finds under the task's
  -- id when it ends, whoever wrote that, is settled by its outcome: completed with the returned
  -- result, or failed with the error's text and code, if the transition is allowed; the message is
  -- then done without an exception.
  pub dispatch-settles :
      (t u : AsyncTask)
      → find task_id r ≡ some t
      → t.status ≢ cancelled
      → find task_id handled.1 ≡ some u
      → (dispatched.0 ≡ ok tt) × (find task_id dispatched.1 ≡ some (settled now_end handled.0 u))
  dispatch-settles t u stored live left =
      rw (dispatch-eq t stored live)
        (settle-find now_end task_id text_of handled.0 handled.1 u left)

  -- A queued task whose record no one else touches while its handler runs ends completed with the
  -- returned result, or failed with the error and its code; it was started at the first reading of
  -- the clock and keeps its id, type, payload and creation time.
  pub dispatch-queued :
      (t : AsyncTask)
      → find task_id r ≡ some t
      → t.status ≡ queued
      → find task_id handled.1
        ≡ find task_id (update_status now_start task_id running none none r).1
      → (dispatched.0 ≡ ok tt)
        × (find task_id dispatched.1
            ≡ some (record t {
              status = final_status handled.0;
              result = or_kept (final_result handled.0) t.result;
              error = or_kept (final_error handled.0) t.error;
              updated_at = now_end;
            }))
  dispatch-queued t stored waits kept =
      let u = updated now_start running none none t in
      let (done, left) =
        dispatch-settles t u stored (λ e. cc (waits, e))
          (kept ∙ rw (find-update_status, stored, eq_refl)) in
      (done, left ∙ ap some (settled-queued now_start now_end handled.0 t waits))

  -- A task that is completed or failed, as when its message is delivered a second time, is not
  -- changed, although its handler is called again, as long as the handler leaves its record alone.
  pub dispatch-again :
      (t : AsyncTask)
      → find task_id r ≡ some t
      → is_terminal t.status ≡ true
      → t.status ≢ cancelled
      → find task_id handled.1
        ≡ find task_id (update_status now_start task_id running none none r).1
      → (dispatched.0 ≡ ok tt) × (find task_id dispatched.1 ≡ some t)
  dispatch-again t stored over live kept =
      let same = updated-terminal now_start running none none t over in
      let (done, left) =
        dispatch-settles t t stored live (kept ∙ rw (find-update_status, stored, eq_refl, same)) in
      (
        done,
        left
            ∙ ap some (
                updated-terminal now_end (final_status handled.0) (final_result handled.0)
                  (final_error handled.0) t over),
      )
