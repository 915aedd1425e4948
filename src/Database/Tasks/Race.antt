-- ===== src/Database/Tasks/Race.antt =====
-- Two updates of a task at once: the check of each is one request, and its write another.
use bi_ble_atlas.Base.{String, ◌≡◌, refl, sym, ap, subst, ◌∙◌, true, some, List, ◌∷◌}
use bi_ble_atlas.Base.Dict.{Dict, get, put}
use bi_ble_atlas.Base.Value.{Value, str, dict_of, fields-to_fields}
use bi_ble_atlas.Base.Result.{Result, ok, raise}
use bi_ble_atlas.Database.{Failure, Runtime}
use bi_ble_atlas.Database.Client.{Client, written_self}
use bi_ble_atlas.Database.Binding.Laws.{first_some}
use bi_ble_atlas.Database.Tasks.{
  has_status, get_async_task, task_of, is_expected, check_expected, task_script, is_updated,
  write_patch,
}
use bi_ble_atlas.Database.Tasks.Laws.{check_expected-documents, write_patch-documents}

module _ (rt : Runtime) (c : Client) (index task_id : String) where
  -- What two writes after two checks leave.
  writes-race :
      (now now' : String) (patch patch' : Dict Value) (status status' : String)
      (statuses statuses' : List String) (s : c.State)
      → (check_expected rt c index task_id (some (status ∷ statuses)) s).0 ≡ ok true
      → (check_expected rt c index task_id (some (status' ∷ statuses')) s).0 ≡ ok true
      → (write_patch rt c index now task_id patch s).0 ≡ ok true
      → (write_patch rt c index now' task_id patch'
          (write_patch rt c index now task_id patch s).1).0
        ≡ ok true
      → (d d' : Dict Value) × (c.documents s index task_id ≡ some d)
        × (has_status (status ∷ statuses) d ≡ true)
        × (has_status (status' ∷ statuses') d ≡ true)
        × (c.documents
              (write_patch rt c index now' task_id patch'
                (write_patch rt c index now task_id patch s).1).1
              index
              task_id
            ≡ some d')
        × ((k : String)
            → get k d'
              ≡ first_some
                  (get k (put "updated_at" (str now') patch'))
                  (first_some (get k (put "updated_at" (str now) patch)) (get k d)))
  writes-race now now' patch patch' status status' statuses statuses' s first second wrote wrote' =
      let (d, there, expected) =
        check_expected-documents rt c index task_id status statuses s first in
      let (d2, there2, expected2) =
        check_expected-documents rt c index task_id status' statuses' s second in
      let (d0, d1, there0, patched, after) =
        write_patch-documents rt c index task_id now patch s wrote in
      let (d0', d1', there0', patched', after') =
        write_patch-documents rt c index task_id now' patch'
          (write_patch rt c index now task_id patch s).1 wrote' in
      let same : d ≡ d0 = cc (sym there ∙ there0) in
      let same2 : d2 ≡ d0 = cc (sym there2 ∙ there0) in
      let between : d0' ≡ d1 =
        cc (sym there0' ∙ (after index task_id ∙ written_self index task_id d1 (c.documents s))) in
      (
        d0,
        d1',
        there0,
        subst (λ x. has_status (status ∷ statuses) x ≡ true) same expected,
        subst (λ x. has_status (status' ∷ statuses') x ≡ true) same2 expected2,
        after' index task_id
            ∙ written_self index task_id d1'
                (c.documents (write_patch rt c index now task_id patch s).1),
        λ k.
            patched' k
            ∙ ap (λ x. first_some (get k (put "updated_at" (str now') patch')) (get k x)) between
            ∙ ap (first_some (get k (put "updated_at" (str now') patch'))) (patched k),
      )

  expected-true :
      (d : Dict Value) (statuses : List String)
      → has_status statuses d ≡ true
      → is_expected rt c index (dict_of d) statuses ≡ ok true
  unfolding is_expected
  expected-true d statuses h = rw (fields-to_fields d, h) refl

  -- The check of a task with an expected status passes.
  check_expected-true :
      (status : String) (statuses : List String) (s : c.State) {d : Dict Value}
      → c.reachable s ≡ true
      → c.documents s index task_id ≡ some d
      → has_status (status ∷ statuses) d ≡ true
      → (check_expected rt c index task_id (some (status ∷ statuses)) s).0 ≡ ok true
  unfolding check_expected get_async_task task_of
  check_expected-true status statuses s {d} up there expected =
      let (r, got) = c.fetch-there index task_id s up there in
      let (d', there', source) = c.fetch-ok index task_id s got in
      let same : d' ≡ d = cc (there, there') in
      rw (got, source)
        (subst (λ x. is_expected rt c index (dict_of x) (status ∷ statuses) ≡ ok true) (sym same)
          (expected-true d (status ∷ statuses) expected))

  is_updated-true :
      (r : Result Failure (Dict Value) × c.State) {resp : Dict Value}
      → r.0 ≡ ok resp
      → ((is_updated rt c index task_id r).0 ≡ ok true)
        × ((is_updated rt c index task_id r).1 ≡ r.1)
  unfolding is_updated
  is_updated-true (ok resp, s) h = (refl, refl)
  is_updated-true (raise e, s) h = cc

  -- The write to a task that is there succeeds.
  write_patch-true :
      (now : String) (patch : Dict Value) (s : c.State) {d : Dict Value}
      → c.reachable s ≡ true
      → c.documents s index task_id ≡ some d
      → ((write_patch rt c index now task_id patch s).0 ≡ ok true)
        × (c.reachable (write_patch rt c index now task_id patch s).1 ≡ true)
  unfolding write_patch
  write_patch-true now patch s up there =
      let script = task_script rt c index now patch in
      let (resp, ran, still_up) = c.update-there index task_id script s up there in
      let (done, same) = is_updated-true (c.update index task_id script s) ran in
      (done, ap c.reachable same ∙ still_up)

  -- Where the engine is reachable and a task has a status that two updates expect, both can check it
  -- before either writes: then both checks pass and both writes succeed, and the task ends with the second
  -- patch before the first, whatever status the first gave it.
  pub update_async_task-race :
      (now now' : String) (patch patch' : Dict Value) (status status' : String)
      (statuses statuses' : List String) (s : c.State) {d : Dict Value}
      → c.reachable s ≡ true
      → c.documents s index task_id ≡ some d
      → has_status (status ∷ statuses) d ≡ true
      → has_status (status' ∷ statuses') d ≡ true
      → (d' : Dict Value) × ((check_expected rt c index task_id (some (status ∷ statuses)) s).0
          ≡ ok true)
        × ((check_expected rt c index task_id (some (status' ∷ statuses')) s).0 ≡ ok true)
        × ((write_patch rt c index now task_id patch s).0 ≡ ok true)
        × ((write_patch rt c index now' task_id patch'
              (write_patch rt c index now task_id patch s).1).0
            ≡ ok true)
        × (c.documents
              (write_patch rt c index now' task_id patch'
                (write_patch rt c index now task_id patch s).1).1
              index
              task_id
            ≡ some d')
        × ((k : String)
            → get k d'
              ≡ first_some
                  (get k (put "updated_at" (str now') patch'))
                  (first_some (get k (put "updated_at" (str now) patch)) (get k d)))
  update_async_task-race now now' patch patch' status status' statuses statuses' s {d} up there
        expected expected' =
      let first = check_expected-true status statuses s up there expected in
      let second = check_expected-true status' statuses' s up there expected' in
      let (wrote, still_up) = write_patch-true now patch s up there in
      let (d0, d1, there0, _, after) = write_patch-documents rt c index task_id now patch s wrote in
      let (wrote', _) =
        write_patch-true now' patch' (write_patch rt c index now task_id patch s).1 still_up
          (after index task_id ∙ written_self index task_id d1 (c.documents s)) in
      let (d2, d', there2, _, _, final, patched) =
        writes-race now now' patch patch' status status' statuses statuses' s first second wrote
          wrote' in
      let same : d2 ≡ d = cc (there, there2) in
      (
        d',
        first,
        second,
        wrote,
        wrote',
        final,
        subst
            (λ x.
              (k : String)
              → get k d'
                ≡ first_some (get k (put "updated_at" (str now') patch'))
                    (first_some (get k (put "updated_at" (str now) patch)) (get k x)))
            same patched,
      )
