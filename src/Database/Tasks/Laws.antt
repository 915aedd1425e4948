-- ===== src/Database/Tasks/Laws.antt =====
-- Updates of tasks that expect a status, alone and in a race.
use bi_ble_atlas.Base.{
  String, ◌≡◌, refl, sym, ap, ap₂, subst, ◌∙◌, ◌⊎◌, inl, inr, Bool, true, false, some, List, [],
  ◌∷◌, if◌then◌else◌,
}
use bi_ble_atlas.Base.Dict.{Dict, get, put}
use bi_ble_atlas.Base.Value.{Value, null, str, dict_of, fields-to_fields}
use bi_ble_atlas.Base.Result.{Result, ok, raise, Result-cases}
use bi_ble_atlas.Database.{Failure, not_found, conflict, transport, other, Runtime}
use bi_ble_atlas.Database.Client.{Client, written, run_script}
use bi_ble_atlas.Database.Step.{Step, pure, continue_with, >>=-eq-ok}
use bi_ble_atlas.Database.Binding.Laws.{first_some, get-patched}
use bi_ble_atlas.Database.Tasks.{
  has_status, get_async_task, task_of, is_expected, check_expected, task_script, is_updated,
  write_patch, update_async_task,
}

-- A branch that returned `True`, where the other returns `False`.
taken :
    {S E : Type 0} (b : Bool) (m : Step S E Bool) (s : S)
    → ((if b then m else pure false) s).0 ≡ ok true
    → b ≡ true
taken true m s e = refl
taken false m s e = cc

module _ (rt : Runtime) (c : Client) (index task_id : String) where
  -- A task that is read is the one that is stored.
  task_of-documents :
      (r : Result Failure (Dict Value)) (s : c.State) {v : Value}
      → c.fetch index task_id s ≡ r
      → task_of rt c index task_id r ≡ ok v
      → (v ≡ null) ⊎ ((d : Dict Value) × (c.documents s index task_id ≡ some d) × (v ≡ dict_of d))
  unfolding task_of
  task_of-documents (ok resp) s asked e =
      let (d, there, source) = c.fetch-ok index task_id s asked in
      inr (d, there, cc (rw (source) at e))
  task_of-documents (raise not_found) s asked e = inl (cc)
  task_of-documents (raise conflict) s asked e = cc
  task_of-documents (raise transport) s asked e = cc
  task_of-documents (raise (other text)) s asked e = cc

  expected-documents :
      (v : Value) (statuses : List String) (s : c.State)
      → (v ≡ null) ⊎ ((d : Dict Value) × (c.documents s index task_id ≡ some d) × (v ≡ dict_of d))
      → is_expected rt c index v statuses ≡ ok true
      → (d : Dict Value) × (c.documents s index task_id ≡ some d) × (has_status statuses d ≡ true)
  unfolding is_expected
  expected-documents v statuses s (inl nothing) e =
      let refused : ok false ≡ ok true = rw nothing at e in cc (refused)
  expected-documents v statuses s (inr (d, there, same)) e =
      let accepted : ok (has_status statuses d) ≡ ok true =
        rw (fields-to_fields d) at (rw same at e) in
      (d, there, cc (accepted))

  -- The check passed: the stored task has one of the statuses, and nothing was changed.
  pub check_expected-documents :
      (status : String) (statuses : List String) (s : c.State)
      → (check_expected rt c index task_id (some (status ∷ statuses)) s).0 ≡ ok true
      → (d : Dict Value) × (c.documents s index task_id ≡ some d)
        × (has_status (status ∷ statuses) d ≡ true)
  unfolding check_expected get_async_task
  check_expected-documents status statuses s e =
      let (v, got, accepted, _) = >>=-eq-ok (λ t. (get_async_task rt c index task_id t, t)) _ s e in
      expected-documents v (status ∷ statuses) s
        (task_of-documents (c.fetch index task_id s) s refl got) accepted

  is_updated-ok :
      (r : Result Failure (Dict Value) × c.State)
      → (is_updated rt c index task_id r).0 ≡ ok true
      → (resp : Dict Value) × (r.0 ≡ ok resp) × ((is_updated rt c index task_id r).1 ≡ r.1)
  unfolding is_updated
  is_updated-ok (ok resp, s) e = (resp, refl, refl)
  is_updated-ok (raise not_found, s) e = cc
  is_updated-ok (raise conflict, s) e = cc
  is_updated-ok (raise transport, s) e = cc
  is_updated-ok (raise (other text), s) e = cc

  -- The patch was written.
  pub write_patch-documents :
      (now : String) (patch : Dict Value) (s : c.State)
      → (write_patch rt c index now task_id patch s).0 ≡ ok true
      → (d d' : Dict Value) × (c.documents s index task_id ≡ some d)
        × ((k : String)
            → get k d' ≡ first_some (get k (put "updated_at" (str now) patch)) (get k d))
        × ((j l : String)
            → c.documents (write_patch rt c index now task_id patch s).1 j l
              ≡ written index task_id d' (c.documents s) j l)
  unfolding write_patch task_script
  write_patch-documents now patch s e =
      let script = task_script rt c index now patch in
      let (resp, returned, same) = is_updated-ok (c.update index task_id script s) e in
      let (d, there, after) = c.update-ok index task_id script s returned in
      (
        d,
        run_script script d,
        there,
        λ k. get-patched k (put "updated_at" (str now) patch) d,
        λ j l. ap (λ t. c.documents t j l) same ∙ after j l,
      )

  -- The check reads only.
  check_expected-state :
      (expected : List String) (s : c.State)
      → (check_expected rt c index task_id (some expected) s).1 ≡ s
  unfolding check_expected
  check_expected-state [] s = refl
  check_expected-state (status ∷ statuses) s =
      elim (Result-cases (get_async_task rt c index task_id s)) [
        | inl (v, e) ↦ rw (e) refl
        | inr (x, e) ↦ rw (e) refl
      ]

  -- An update that returned `True` wrote after its check.
  update_async_task-write :
      (now : String) (patch : Dict Value) (expected : List String) (s : c.State)
      → (update_async_task rt c index now task_id patch (some expected) s).0 ≡ ok true
      → ((check_expected rt c index task_id (some expected) s).0 ≡ ok true)
        × (update_async_task rt c index now task_id patch (some expected) s
            ≡ write_patch rt c index now task_id patch s)
  unfolding update_async_task
  update_async_task-write now patch expected s e =
      let (passed, checked, returned, _) =
        >>=-eq-ok (check_expected rt c index task_id (some expected)) _ s e in
      let true_passed = taken passed _ _ returned in
      (
        checked ∙ ap (λ b. ok b) true_passed,
        ap (continue_with _) (
            ap₂ (λ r t. (r, t)) (checked ∙ ap (λ b. ok b) true_passed)
              (check_expected-state expected s)),
      )

  -- An update that expects a status and returns `True`: the stored task had an expected status, and its
  -- document, and no other, now has the patch and the time before what it had.
  pub update_async_task-expected :
      (now : String) (patch : Dict Value) (status : String) (statuses : List String) (s : c.State)
      → (update_async_task rt c index now task_id patch (some (status ∷ statuses)) s).0 ≡ ok true
      → (d d' : Dict Value) × (c.documents s index task_id ≡ some d)
        × (has_status (status ∷ statuses) d ≡ true)
        × ((k : String)
            → get k d' ≡ first_some (get k (put "updated_at" (str now) patch)) (get k d))
        × ((j l : String)
            → c.documents
                (update_async_task rt c index now task_id patch (some (status ∷ statuses)) s).1
                j
                l
              ≡ written index task_id d' (c.documents s) j l)
  unfolding update_async_task
  update_async_task-expected now patch status statuses s e =
      let (checked, same) = update_async_task-write now patch (status ∷ statuses) s e in
      let (d, there, expected) = check_expected-documents status statuses s checked in
      let (d0, d', there0, patched, after) =
        write_patch-documents now patch s (ap (λ r. r.0) (sym same) ∙ e) in
      let same_document : d ≡ d0 = cc (sym there ∙ there0) in
      (
        d0,
        d',
        there0,
        subst (λ x. has_status (status ∷ statuses) x ≡ true) same_document expected,
        patched,
        λ j l. ap (λ r. c.documents r.1 j l) same ∙ after j l,
      )
