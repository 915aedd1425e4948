-- ===== src/Task/Repository/Laws.antt =====
-- The repository keeps to the state machine: what one update does, and what any run of updates does.
use bi_ble_atlas.Base.{
  ℕ, String, ◌≡◌, refl, inl, inr, true, Option, none, some, ◌∙◌, arith, ◌==◌, if◌then◌else◌,
  Option-cases, Bool-cases,
}
use bi_ble_atlas.Base.Dict.{Dict, get-put}
use bi_ble_atlas.Base.Value.{Value}
use bi_ble_atlas.Base.Result.{ok, raise}
use bi_ble_atlas.Task.{
  Status, queued, running, completed, failed, cancelled, AsyncTask, valid_transitions, is_allowed,
  is_terminal, key_error,
}
use bi_ble_atlas.Task.Repository.{AsyncTaskRepository, find, updated, assign, update_status}

-- The edges of the state machine.
pub data Step : Status → Status → Type 0 where
  start : Step queued running
  cancel : Step queued cancelled
  complete : Step running completed
  fail : Step running failed

-- Along allowed transitions, from one status to another.
pub data Reach (s : Status) : Status → Type 0 where
  here : Reach s s
  next : {t u : Status} → Reach s t → Step t u → Reach s u

-- The transition test of the code passes exactly on the edges.
pub allowed-Step : (s t : Status) → is_allowed t (valid_transitions s) ≡ true → Step s t
unfolding is_allowed valid_transitions
allowed-Step queued queued h = cc
allowed-Step queued running h = start
allowed-Step queued cancelled h = cancel
allowed-Step running completed h = complete
allowed-Step running failed h = fail
allowed-Step s t h = ground arith

pub Step-allowed : {s t : Status} → Step s t → is_allowed t (valid_transitions s) ≡ true
unfolding is_allowed valid_transitions
Step-allowed start = refl
Step-allowed cancel = refl
Step-allowed complete = refl
Step-allowed fail = refl

module _ (now : ℕ) (task_id : String) (status : Status) (result : Option (Dict Value))
    (error : Option String) (r : AsyncTaskRepository) where
  -- What every key holds after an update.
  pub find-update_status :
      (other_id : String)
      → find other_id (update_status now task_id status result error r).1 ≡ elim (find task_id r) [
        | none ↦ find other_id r
        | some task ↦
            if task_id == other_id
            then some (updated now status result error task)
            else find other_id r
      ]
  unfolding update_status find
  find-update_status other_id = elim (Option-cases (find task_id r)) [
    | inl missing ↦ ground arith
    | inr (t, found) ↦
        ground (arith, get-put other_id task_id (updated now status result error t) r.store)
  ]

  -- What `update_status` returns.
  pub update_status-result :
      (update_status now task_id status result error r).0 ≡ elim (find task_id r) [
        | none ↦ raise (key_error task_id)
        | some task ↦ ok (updated now status result error task)
      ]
  unfolding update_status
  update_status-result = ground arith

-- What an update never changes, and how it may move the status.
pub record Follows (t u : AsyncTask) : Type 0 where
  pub task_id : u.task_id ≡ t.task_id
  pub task_type : u.task_type ≡ t.task_type
  pub payload : u.payload ≡ t.payload
  pub created_at : u.created_at ≡ t.created_at
  pub status : Reach t.status u.status

pub Follows-refl : (t : AsyncTask) → Follows t t
Follows-refl t = record {
  task_id = refl;
  task_type = refl;
  payload = refl;
  created_at = refl;
  status = here;
}

Reach-trans : {a b c : Status} → Reach a b → Reach b c → Reach a c
Reach-trans p here = p
Reach-trans p (next q s) = next (Reach-trans p q) s

pub Follows-trans : {t u v : AsyncTask} → Follows t u → Follows u v → Follows t v
Follows-trans f g = record {
  task_id = g.task_id ∙ f.task_id;
  task_type = g.task_type ∙ f.task_type;
  payload = g.payload ∙ f.payload;
  created_at = g.created_at ∙ f.created_at;
  status = Reach-trans f.status g.status;
}

pub updated-Follows :
    (now : ℕ) (status : Status) (result : Option (Dict Value)) (error : Option String)
    (t : AsyncTask)
    → Follows t (updated now status result error t)
unfolding updated assign
updated-Follows now status result error t =
    elim (Bool-cases (is_allowed status (valid_transitions t.status))) [
      | inl good ↦ rw good (record {
        task_id = refl;
        task_type = refl;
        payload = refl;
        created_at = refl;
        status = next here (allowed-Step t.status status good);
      })
      | inr bad ↦ rw bad (Follows-refl t)
    ]

-- No transition leaves a terminal state.
pub updated-terminal :
    (now : ℕ) (status : Status) (result : Option (Dict Value)) (error : Option String)
    (t : AsyncTask)
    → is_terminal t.status ≡ true
    → updated now status result error t ≡ t
unfolding updated is_terminal is_allowed valid_transitions
updated-terminal now status result error t h = ground arith
