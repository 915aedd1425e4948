-- ===== src/Task/Redis/Refines.antt =====
-- The Redis repository implements the repository in memory, call by call.
use bi_ble_atlas.Base.{
  sym, Option, map, ℕ, String, none, some, List, [], ◌∷◌, ◌≡◌, refl, arith, ap, ap₂, ◌∙◌, inl, inr,
  eq_iff, Option-cases, Bool-cases,
}
use bi_ble_atlas.Base.Dict.{Dict}
use bi_ble_atlas.Base.Value.{Value}
use bi_ble_atlas.Base.Result.{Result, ok}
use bi_ble_atlas.Task.{valid_transitions, is_allowed, AsyncTask, Exception}
use bi_ble_atlas.Task.Repository.{AsyncTaskRepository, updated, assign as assign_task, new_task}
use bi_ble_atlas.Task.Repository
use bi_ble_atlas.Task.Repository.Laws.{find-update_status, update_status-result}
use bi_ble_atlas.Task.Repository.Runs.{Update, find-create}
use bi_ble_atlas.Task.Redis.Calls.{
  Call, create_task, update_task, call_memory, run_memory, at_once, untimed_option, untimed_result,
  run_memory-Alike,
}
use bi_ble_atlas.Task.Redis
use bi_ble_atlas.Task.Redis.{
  Backend, task_to_dict, task_from_dict, update_status, read_phase, decide_on, commit, create, find,
  key, assign, read_back,
}
use bi_ble_atlas.Task.Redis.Decode.{task_from_dict-task_to_dict}
use bi_ble_atlas.Task.Redis.Store.{document, decide-document, find-redis_set, updated_document}

module _ (b : Backend) (ttl : ℕ) where
  open b use {State, redis_get}

  abbrev pub call_redis : Call → State → Result Exception AsyncTask × State
  call_redis (create_task now now' task_id task_type payload) s =
      let (t, s') = create b ttl now task_id task_type payload s in (ok t, s')
  call_redis (update_task u) s = update_status b ttl u.now u.task_id u.status u.result u.error s

  unfoldable pub run_redis : List Call → State → List (Result Exception AsyncTask) × State
  run_redis [] s = ([], s)
  run_redis (c ∷ cs) s =
      let (x, s') = call_redis c s in let (xs, s'') = run_redis cs s' in (x ∷ xs, s'')

  -- Every id reads the same in both.
  abbrev pub Agrees : AsyncTaskRepository → State → Type 0
  Agrees r s = (task_id : String) → find b task_id s ≡ ok (Repository.find task_id r)

  create-Agrees :
      (now : ℕ) (task_id task_type : String) (payload : Dict Value) (r : AsyncTaskRepository)
      (s : State)
      → Agrees r s
      → Agrees
          (Repository.create now now task_id task_type payload r).1
          (create b ttl now task_id task_type payload s).1
  unfolding create Redis.text_status Redis.status_text new_task
  create-Agrees now task_id task_type payload r s h j =
      let t = new_task now now task_id task_type payload in
      rw (find-create, find-redis_set, h, task_from_dict-task_to_dict b t refl) (ground arith)

  -- A task that is not stored has no document.
  not_stored :
      (task_id : String) (s : State) → find b task_id s ≡ ok none → redis_get (key task_id) s ≡ none
  unfolding find read_back
  not_stored task_id s h = elim (Option-cases (redis_get (key task_id) s)) [
    | inl missing ↦ missing
    | inr (raw, there) ↦ ground arith
  ]

  module _ (u : Update) (r : AsyncTaskRepository) (s : State) (h : Agrees r s) where
    abbrev memory_after : Result Exception AsyncTask × AsyncTaskRepository
    memory_after = Repository.update_status u.now u.task_id u.status u.result u.error r

    abbrev redis_after : Result Exception AsyncTask × State
    redis_after = update_status b ttl u.now u.task_id u.status u.result u.error s

    update_missing :
        Repository.find u.task_id r ≡ none
        → (redis_after.0 ≡ memory_after.0) × Agrees memory_after.1 redis_after.1
    unfolding update_status
    update_missing missing =
        let no_document = not_stored u.task_id s (h u.task_id ∙ ap ok missing) in
        (
          rw (update_status-result, missing, no_document, decide_on, commit) refl,
          λ j. rw (find-update_status, missing, no_document, decide_on, commit) (h j),
        )

    update_stored :
        (t : AsyncTask)
        → Repository.find u.task_id r ≡ some t
        → (redis_after.0 ≡ memory_after.0) × Agrees memory_after.1 redis_after.1
    unfolding update_status
    update_stored t stored =
        let (raw, d, there, loaded, decoded) =
          document b u.task_id s t (h u.task_id ∙ ap ok stored) in
        let decided = decide-document b u.now u.status u.result u.error raw d t loaded decoded in
        elim (Bool-cases (is_allowed u.status (valid_transitions t.status))) [
          | inl good ↦ (
            rw (update_status-result, stored, there, decide_on, decided, good, commit) refl,
            λ j.
                rw
                  (
                    find-update_status,
                    stored,
                    there,
                    decide_on,
                    decided,
                    good,
                    commit,
                    find-redis_set,
                    updated_document b u.now u.status u.result u.error d t decoded good,
                  )
                  (ground (arith, h j)),
          )
          | inr bad ↦ (
            rw (update_status-result, stored, there, decide_on, decided, bad, commit) refl,
            λ j.
                rw (find-update_status, stored, there, decide_on, decided, bad, commit)
                  (unfold updated in ground (arith, h j, bad, stored, eq_iff u.task_id j)),
          )
        ]

    update-Agrees : (redis_after.0 ≡ memory_after.0) × Agrees memory_after.1 redis_after.1
    update-Agrees = elim (Option-cases (Repository.find u.task_id r)) [
      | inl missing ↦ update_missing missing
      | inr (t, stored) ↦ update_stored t stored
    ]

  call-Agrees :
      (c : Call) (r : AsyncTaskRepository) (s : State)
      → Agrees r s
      → ((call_redis c s).0 ≡ (call_memory (at_once c) r).0)
        × Agrees (call_memory (at_once c) r).1 (call_redis c s).1
  call-Agrees (create_task now now' task_id task_type payload) r s h =
      (unfold create Repository.create in refl, create-Agrees now task_id task_type payload r s h)
  call-Agrees (update_task u) r s h = update-Agrees u r s h

  -- With one reading of the clock for a new task, the two return and store the same.
  run-at_once :
      (cs : List Call) (r : AsyncTaskRepository) (s : State)
      → Agrees r s
      → ((run_redis cs s).0 ≡ (run_memory (map at_once cs) r).0)
        × Agrees (run_memory (map at_once cs) r).1 (run_redis cs s).1
  unfolding run_redis run_memory
  run-at_once [] r s h = (refl, h)
  run-at_once (c ∷ cs) r s h =
      let (same, after) = call-Agrees c r s h in
      let (rest, final) = run-at_once cs (call_memory (at_once c) r).1 (call_redis c s).1 after in
      (ap₂ ◌∷◌ same rest, final)

  -- Every id reads the same in both, but for the time of the last change.
  abbrev pub AgreesUntimed : AsyncTaskRepository → State → Type 0
  AgreesUntimed r s =
      (task_id : String)
      → (o : Option AsyncTask) × (find b task_id s ≡ ok o)
        × (untimed_option o ≡ untimed_option (Repository.find task_id r))

  -- From stores in which every id reads the same, any sequence of calls of `create` and
  -- `update_status`, each made without another call in between, returns or raises the same in Redis
  -- as in memory, and afterwards every id reads the same again, but for the time of the last change of a
  -- task: the clock reads the same for both, and a creation in memory reads it a second time for that.
  pub run-Agrees :
      (cs : List Call) (r : AsyncTaskRepository) (s : State)
      → Agrees r s
      → (map untimed_result (run_redis cs s).0 ≡ map untimed_result (run_memory cs r).0)
        × AgreesUntimed (run_memory cs r).1 (run_redis cs s).1
  run-Agrees cs r s h =
      let (same, final) = run-at_once cs r s h in
      let (results, alike) = run_memory-Alike cs r r (λ j. refl) in
      (
        ap (map untimed_result) same ∙ sym results,
        λ j. (Repository.find j (run_memory (map at_once cs) r).1, final j, sym (alike j)),
      )
