-- ===== src/Task/Service/Laws.antt =====
-- What clients of the task service may rely on.
use mathlib.Core.List.{append-nil}
use bi_ble_atlas.Base.{
  ℕ, String, true, false, Option, none, some, List, [], ◌∷◌, ◌++◌, ◌≡◌, refl, sym, arith, eq_refl,
  ◌==◌, if◌then◌else◌, text_append,
}
use bi_ble_atlas.Base.Dict.{Dict}
use bi_ble_atlas.Base.Int.{ℤ}
use bi_ble_atlas.Base.Value.{Value}
use bi_ble_atlas.Base.Result.{Result, ok, raise}
use bi_ble_atlas.Errors.{ErrorCode, domain_error}
use bi_ble_atlas.Task.{
  Status, queued, running, completed, failed, cancelled, other, AsyncTask, Exception, key_error,
  domain, valid_transitions, is_allowed,
}
use bi_ble_atlas.Task.Repository.{create, find, update_status, updated, assign, new_task}
use bi_ble_atlas.Task.Repository.Laws.{find-update_status}
use bi_ble_atlas.Task.Repository.Runs.{find-create}
use bi_ble_atlas.Task.Service.{
  Message, Revocation, Broker, System, task_timeout, choose_id, after_enqueue, submit, cancel,
  cancel_found, cancel_by_status, view, answer, view_or_error, revoke, after_revoke, TaskView,
}

module _ (broker : Broker) (timeout : ℤ) (now now' now_failed : ℕ) (uuid task_type : String)
    (payload : Dict Value) (idempotency_key : Option String) (s : System) where
  abbrev id : String
  id = choose_id idempotency_key uuid

  abbrev message : Message
  message = record {
    task_id = id;
    task_type = task_type;
    payload = payload;
    soft_time_limit = task_timeout timeout;
  }

  abbrev created : System
  created = record s { repository = (create now now' id task_type payload s.repository).1 }

  submit_answered :
      (answered : Option String)
      → broker.apply_async message ≡ answered
      → submit broker timeout now now' now_failed uuid task_type payload idempotency_key s
        ≡ after_enqueue now_failed (new_task now now' id task_type payload) message answered created
  unfolding submit create
  submit_answered answered e = rw e

  -- Where the broker accepts the message, `submit` returns the id with the status queued, the
  -- repository holds a new queued task under that id and the old tasks under the others, and exactly
  -- this message was sent.
  pub submit-accepted :
      broker.apply_async message ≡ none
      → ((submit broker timeout now now' now_failed uuid task_type payload idempotency_key s).0
          ≡ ok (record { task_id = id; status = queued }))
        × ((other_id : String)
            → find other_id
                (submit broker timeout now now' now_failed uuid task_type payload idempotency_key
                  s).1.repository
              ≡ (if id == other_id
                  then some (new_task now now' id task_type payload)
                  else find other_id s.repository))
        × ((submit broker timeout now now' now_failed uuid task_type payload idempotency_key
              s).1.sent
            ≡ s.sent ++ message ∷ [])
  unfolding after_enqueue new_task
  submit-accepted accepted =
      rw (submit_answered none accepted)
        (refl, λ j. find-create now now' id task_type payload s.repository j, refl)

  -- Where the broker refuses, `submit` raises INTERNAL, nothing was sent, and the task stays behind
  -- in the repository as cancelled.
  pub submit-refused :
      (text : String)
      → broker.apply_async message ≡ some text
      → ((submit broker timeout now now' now_failed uuid task_type payload idempotency_key s).0
          ≡ raise (
              domain (
                domain_error ErrorCode.internal
                  (text_append "Task broker unavailable: " text)
                  none
                  none)))
        × ((other_id : String)
            → find other_id
                (submit broker timeout now now' now_failed uuid task_type payload idempotency_key
                  s).1.repository
              ≡ (if id == other_id
                  then some (
                      assign now_failed cancelled none none
                        (new_task now now' id task_type payload))
                  else find other_id s.repository))
        × ((submit broker timeout now now' now_failed uuid task_type payload idempotency_key
              s).1.sent
            ≡ s.sent)
  unfolding after_enqueue
  submit-refused text refused = rw (submit_answered (some text) refused) (
    refl,
    λ j. rw (find-update_status, find-create, eq_refl, find-create) (allowed_cancel j),
    refl,
  )
    where
      allowed_cancel :
          (j : String)
          → (if id == j
              then some
                  (updated now_failed cancelled none none (new_task now now' id task_type payload))
              else (if id == j
                  then some (new_task now now' id task_type payload)
                  else find j s.repository))
            ≡ (if id == j
                then some
                    (assign now_failed cancelled none none (new_task now now' id task_type payload))
                else find j s.repository)
      allowed_cancel j = unfold updated new_task is_allowed valid_transitions in ground arith

module _ (broker : Broker) (now : ℕ) (task_id : String) (s : System) where
  -- The status that a client sees after a cancellation.
  abbrev pub cancelled_status : Status → Status
  cancelled_status queued = cancelled
  cancelled_status st = st

  -- `cancel` of a task that is not stored raises `KeyError` and changes nothing.
  pub cancel-missing :
      find task_id s.repository ≡ none
      → cancel broker now task_id s ≡ (raise (key_error task_id), s)
  unfolding cancel cancel_found
  cancel-missing missing = rw missing

  -- What a cancellation asks of the broker.
  abbrev pub revocations : Status → List Revocation
  revocations queued = record { task_id = task_id; terminate = false } ∷ []
  revocations running = record { task_id = task_id; terminate = true } ∷ []
  revocations _ = []

  module _ (t : AsyncTask) (stored : find task_id s.repository ≡ some t)
      (accepts : (r : Revocation) → broker.revoke r ≡ none) where
    abbrev Answers : Status → Result Exception TaskView × System → Type 0
    Answers st out =
        (out.0 ≡ ok (view (updated now (cancelled_status st) none none t)))
        × (find task_id out.1.repository ≡ some (updated now (cancelled_status st) none none t))
        × (out.1.revoked ≡ s.revoked ++ revocations st)

    updated_id :
        find task_id (update_status now task_id cancelled none none s.repository).1
        ≡ some (updated now cancelled none none t)
    updated_id = rw (find-update_status, stored, eq_refl)

    -- `cancel` writes no status but cancelled, so a task that is not queued stays as it is.
    untouched :
        (st : Status)
        → is_allowed st (valid_transitions st) ≡ false
        → t.status ≡ st
        → updated now st none none t ≡ t
    unfolding updated
    untouched st never e = ground arith

    answers :
        (st : Status)
        → t.status ≡ st
        → Answers st (answer broker task_id (cancel_by_status broker now task_id st s))
    unfolding cancel_by_status revoke after_revoke answer view_or_error is_allowed valid_transitions
    answers queued e = rw (accepts, updated_id) (refl, refl, refl)
    answers running e = rw (accepts, stored, untouched running refl e) (refl, refl, refl)
    answers completed e =
        rw (stored, untouched completed refl e) (refl, refl, sym (append-nil s.revoked))
    answers failed e = rw (stored, untouched failed refl e) (refl, refl, sym (append-nil s.revoked))
    answers cancelled e =
        rw (stored, untouched cancelled refl e) (refl, refl, sym (append-nil s.revoked))
    answers (other text) e =
        rw (stored, untouched (other text) refl e) (refl, refl, sym (append-nil s.revoked))

    by_status :
        cancel broker now task_id s
        ≡ answer broker task_id (cancel_by_status broker now task_id t.status s)
    unfolding cancel cancel_found
    by_status = rw stored

    -- With a broker that accepts revocations, `cancel` of a stored task answers with the task as it
    -- then stands: a queued one is cancelled and revoked, a running one is revoked with a signal and
    -- otherwise left as it is, and for any other neither the task nor the broker hears of it.
    pub cancel-accepted : Answers t.status (cancel broker now task_id s)
    cancel-accepted = rw by_status (answers t.status refl)
