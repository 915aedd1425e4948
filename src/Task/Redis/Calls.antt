-- ===== src/Task/Redis/Calls.antt =====
-- Calls of a repository. The repository in memory reads the clock twice for a new task; the calls that read
-- it once are the same but for the time of the last change.
use bi_ble_atlas.Base.{
  ℕ, String, Option, none, some, List, [], ◌∷◌, ◌≡◌, refl, sym, ap, ap₂, ◌∙◌, inl, inr, map,
  Option-cases, Bool-cases, if◌then◌else◌, ◌==◌,
}
use bi_ble_atlas.Base.Dict.{Dict}
use bi_ble_atlas.Base.Value.{Value}
use bi_ble_atlas.Base.Result.{Result, ok, raise}
use bi_ble_atlas.Task.{Status, AsyncTask, Exception, is_allowed, valid_transitions}
use bi_ble_atlas.Task.Repository.{
  AsyncTaskRepository, create, find, update_status, updated, assign, new_task,
}
use bi_ble_atlas.Task.Repository.Laws.{find-update_status, update_status-result}
use bi_ble_atlas.Task.Repository.Runs.{Update, find-create}

-- A call that a client makes of either repository, with the readings of its clock: two for a creation in
-- memory, of which the one in Redis makes the first alone.
pub data Call : Type 0 where
  create_task : (now now' : ℕ) (task_id task_type : String) (payload : Dict Value) → Call
  update_task : Update → Call

abbrev pub call_memory :
    Call → AsyncTaskRepository → Result Exception AsyncTask × AsyncTaskRepository
call_memory (create_task now now' task_id task_type payload) r =
    let (t, r') = create now now' task_id task_type payload r in (ok t, r')
call_memory (update_task u) r = update_status u.now u.task_id u.status u.result u.error r

-- The calls one after another: what each returned or raised, and the repository after them.
unfoldable pub run_memory :
    List Call → AsyncTaskRepository → List (Result Exception AsyncTask) × AsyncTaskRepository
run_memory [] r = ([], r)
run_memory (c ∷ cs) r =
    let (x, r') = call_memory c r in let (xs, r'') = run_memory cs r' in (x ∷ xs, r'')

-- A task without the time of its last change.
abbrev pub untimed : AsyncTask → AsyncTask
untimed t = record t { updated_at = 0 }

abbrev pub untimed_option : Option AsyncTask → Option AsyncTask
untimed_option none = none
untimed_option (some t) = some (untimed t)

abbrev pub untimed_result : Result Exception AsyncTask → Result Exception AsyncTask
untimed_result (raise e) = raise e
untimed_result (ok t) = ok (untimed t)

-- The call with one reading of the clock.
abbrev pub at_once : Call → Call
at_once (create_task now now' task_id task_type payload) =
    create_task now now task_id task_type payload
at_once (update_task u) = update_task u

-- Every id reads the same in both, but for the time of the last change.
abbrev pub Alike : AsyncTaskRepository → AsyncTaskRepository → Type 0
Alike r r' = (task_id : String) → untimed_option (find task_id r) ≡ untimed_option (find task_id r')

untimed-updated :
    (now : ℕ) (status : Status) (result : Option (Dict Value)) (error : Option String)
    (t : AsyncTask)
    → untimed (updated now status result error t)
      ≡ untimed (updated now status result error (untimed t))
unfolding updated assign
untimed-updated now status result error t =
    elim (Bool-cases (is_allowed status (valid_transitions t.status))) [
      | inl good ↦ rw (good) refl
      | inr bad ↦ rw (bad) refl
    ]

updated-untimed :
    (u : Update) (t t' : AsyncTask)
    → untimed t ≡ untimed t'
    → untimed (updated u.now u.status u.result u.error t)
      ≡ untimed (updated u.now u.status u.result u.error t')
updated-untimed u t t' h =
    untimed-updated u.now u.status u.result u.error t
    ∙ ap (λ x. untimed (updated u.now u.status u.result u.error x)) h
    ∙ sym (untimed-updated u.now u.status u.result u.error t')

-- What a call sees of the task that it names.
result_of : Update → Option AsyncTask → Result Exception AsyncTask
result_of u none = raise (Exception.key_error u.task_id)
result_of u (some t) = ok (updated u.now u.status u.result u.error t)

after_of : Update → String → Option AsyncTask → Option AsyncTask → Option AsyncTask
after_of u j none other = other
after_of u j (some t) other =
    if u.task_id == j then some (updated u.now u.status u.result u.error t) else other

result-untimed :
    (u : Update) (o o' : Option AsyncTask)
    → untimed_option o ≡ untimed_option o'
    → untimed_result (result_of u o) ≡ untimed_result (result_of u o')
unfolding result_of
result-untimed u none none h = refl
result-untimed u (some t) (some t') h = ap ok (updated-untimed u t t' (cc (h)))
result-untimed u none (some t) h = cc
result-untimed u (some t) none h = cc

after-untimed :
    (u : Update) (j : String) (o o' other other' : Option AsyncTask)
    → untimed_option o ≡ untimed_option o'
    → untimed_option other ≡ untimed_option other'
    → untimed_option (after_of u j o other) ≡ untimed_option (after_of u j o' other')
unfolding after_of
after-untimed u j none none other other' h k = k
after-untimed u j (some t) (some t') other other' h k = elim (Bool-cases (u.task_id == j)) [
  | inl same ↦ rw (same) (ap some (updated-untimed u t t' (cc (h))))
  | inr apart ↦ rw (apart) k
]
after-untimed u j none (some t) other other' h k = cc
after-untimed u j (some t) none other other' h k = cc

update-result :
    (u : Update) (r : AsyncTaskRepository)
    → (call_memory (update_task u) r).0 ≡ result_of u (find u.task_id r)
unfolding result_of
update-result u r = elim (Option-cases (find u.task_id r)) [
  | inl missing ↦
      rw (update_status-result u.now u.task_id u.status u.result u.error r, missing) refl
  | inr (t, stored) ↦
      rw (update_status-result u.now u.task_id u.status u.result u.error r, stored) refl
]

update-after :
    (u : Update) (r : AsyncTaskRepository) (j : String)
    → find j (call_memory (update_task u) r).1 ≡ after_of u j (find u.task_id r) (find j r)
unfolding after_of
update-after u r j = elim (Option-cases (find u.task_id r)) [
  | inl missing ↦
      rw (find-update_status u.now u.task_id u.status u.result u.error r j, missing) refl
  | inr (t, stored) ↦
      rw (find-update_status u.now u.task_id u.status u.result u.error r j, stored) refl
]

create-Alike :
    (now now' : ℕ) (task_id task_type : String) (payload : Dict Value) (r r' : AsyncTaskRepository)
    → Alike r r'
    → Alike
        (create now now' task_id task_type payload r).1
        (create now now task_id task_type payload r').1
unfolding new_task
create-Alike now now' task_id task_type payload r r' h j = elim (Bool-cases (task_id == j)) [
  | inl same ↦
      rw
        (
          find-create now now' task_id task_type payload r j,
          find-create now now task_id task_type payload r' j,
          same,
        )
        refl
  | inr apart ↦
      rw
        (
          find-create now now' task_id task_type payload r j,
          find-create now now task_id task_type payload r' j,
          apart,
        )
        (h j)
]

call-Alike :
    (c : Call) (r r' : AsyncTaskRepository)
    → Alike r r'
    → (untimed_result (call_memory c r).0 ≡ untimed_result (call_memory (at_once c) r').0)
      × Alike (call_memory c r).1 (call_memory (at_once c) r').1
unfolding create new_task
call-Alike (create_task now now' task_id task_type payload) r r' h =
    (refl, create-Alike now now' task_id task_type payload r r' h)
call-Alike (update_task u) r r' h = (
  ap untimed_result (update-result u r)
      ∙ result-untimed u (find u.task_id r) (find u.task_id r') (h u.task_id)
      ∙ sym (ap untimed_result (update-result u r')),
  λ j.
      ap untimed_option (update-after u r j)
      ∙ after-untimed u j (find u.task_id r) (find u.task_id r') (find j r) (find j r')
          (h u.task_id) (h j)
      ∙ sym (ap untimed_option (update-after u r' j)),
)

-- Calls that read the clock twice for a new task, and the same calls with the first reading alone.
pub run_memory-Alike :
    (cs : List Call) (r r' : AsyncTaskRepository)
    → Alike r r'
    → (map untimed_result (run_memory cs r).0
        ≡ map untimed_result (run_memory (map at_once cs) r').0)
      × Alike (run_memory cs r).1 (run_memory (map at_once cs) r').1
unfolding run_memory
run_memory-Alike [] r r' h = (refl, h)
run_memory-Alike (c ∷ cs) r r' h =
    let (same, after) = call-Alike c r r' h in
    let (rest, final) =
      run_memory-Alike cs (call_memory c r).1 (call_memory (at_once c) r').1 after in
    (ap₂ ◌∷◌ same rest, final)
