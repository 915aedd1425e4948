-- ===== src/Database/Tasks.antt =====
-- The tasks of opensearch/writer.py, a document each; elasticsearch/writer.py has the same methods. `None`
-- as a result is the value `null`.
pub mod Laws
pub mod Race
use bi_ble_atlas.Base.{
  String, Bool, true, false, not, Option, none, some, List, [], ◌∷◌, ◌==◌, if◌then◌else◌, or_else,
  text_append, strip, member,
}
use bi_ble_atlas.Base.Dict.{Dict, get, put}
use bi_ble_atlas.Base.Int.{pos}
use bi_ble_atlas.Base.Value.{
  Value, Items, arr, cons, null, str, obj, int, truthy, list_of, dict_of, fields,
}
use bi_ble_atlas.Base.Result.{Result, ok, raise}
use bi_ble_atlas.Database.{
  index_binding_conflict, database_backend_unavailable, database_invalid_argument, DatabaseError,
  Failure, not_found, conflict, Exception, database, key_error, attribute_error, type_error,
  Runtime, as_dict, get_or_null,
}
use bi_ble_atlas.Database.Client.{Script, Client, unavailable}
use bi_ble_atlas.Database.Lookup.{error, or_value, hits_of, expect, term_of}
use bi_ble_atlas.Database.Binding.{set_clauses}
use bi_ble_atlas.Database.Step.{Step, ◌>>=◌, pure, lift, rescue}

-- `hits[0].get("_source")` of hits that are true
unfoldable pub first_document : Value → Result Exception Value
first_document (arr (cons (obj fs) hits)) = ok (get_or_null "_source" (fields fs))
first_document (arr (cons hit hits)) = raise attribute_error
first_document (obj fs) = raise (key_error "0")
first_document (str s) = raise attribute_error
first_document v = raise type_error

-- `existing.get("status") in expected_statuses`
unfoldable pub has_status : List String → Dict Value → Bool
has_status statuses task = elim (get "status" task) [ some (str s) ↦ member s statuses | _ ↦ false ]

module _ (rt : Runtime) (c : Client) (index : String) where
  -- `str(task_doc.get("task_id") or "").strip()`
  unfoldable pub id_of : Dict Value → String
  id_of doc = strip (rt.str_of (or_value (get_or_null "task_id" doc) (str "")))

  unfoldable pub task_payload : String → Dict Value → Dict Value
  task_payload now doc =
      put "updated_at" (str now) (put "created_at" (or_else (get "created_at" doc) (str now)) doc)

  unfoldable pub task_failed : String → Failure → Exception
  task_failed task_id conflict = database (
      error index_binding_conflict
        (text_append "Async task already exists: " (text_append task_id ".")) [])
  task_failed task_id e =
      unavailable c
        (error database_backend_unavailable "Failed to create async task."
          (("task_id", str task_id) ∷ []))
        e

  unfoldable pub create_async_task : String → Dict Value → Step c.State Exception (Unit {0})
  unfolding task_failed
  create_async_task now doc =
      if id_of doc == ""
      then lift (
          raise (
            database (
              error database_invalid_argument "create_async_task requires task_doc with task_id."
                [])))
      else ((λ s.
            rescue (task_failed (id_of doc)) (c.create index (id_of doc) (task_payload now doc) s))
          >>= λ _. pure tt)

  unfoldable pub task_of : String → Result Failure (Dict Value) → Result Exception Value
  task_of task_id (ok resp) = ok (get_or_null "_source" resp)
  task_of task_id (raise not_found) = ok null
  task_of task_id (raise e) = raise (
      unavailable c
        (error database_backend_unavailable "Failed to get async task."
          (("task_id", str task_id) ∷ []))
        e)

  unfoldable pub get_async_task : String → c.State → Result Exception Value
  unfolding task_of
  get_async_task task_id s = task_of task_id (c.fetch index task_id s)

  unfoldable pub idempotency_query : (task_type idempotency_key : String) → Dict Value
  idempotency_query task_type idempotency_key =
      ("size", int (pos 1))
      ∷ (
        "query",
        dict_of (
            (
              "bool",
              dict_of (
                  (
                    "filter",
                    list_of (
                        term_of "task_type.keyword" (str task_type)
                        ∷ term_of "idempotency_key.keyword" (str idempotency_key)
                        ∷ []),
                  )
                  ∷ []),
            )
            ∷ []),
      )
      ∷ []

  unfoldable pub first_or_none : Value → Result Exception Value
  unfolding first_document
  first_or_none hits = if truthy hits then first_document hits else ok null

  unfoldable pub find_async_task_by_idempotency :
      (task_type idempotency_key : String) → Step c.State Exception Value
  unfolding first_or_none
  find_async_task_by_idempotency task_type idempotency_key s =
      ((λ s. (
        expect c
            (error database_backend_unavailable "Failed to find async task by idempotency key."
              (("task_type", str task_type) ∷ ("idempotency_key", str idempotency_key) ∷ []))
            (c.find index (idempotency_query task_type idempotency_key) s),
        s,
      ))
          >>= λ resp. lift (hits_of resp) >>= λ hits. lift (first_or_none hits))
        s

  -- The first phase: may the task, as it is read, be updated?
  unfoldable pub is_expected : Value → List String → Result Exception Bool
  is_expected null statuses = ok false
  is_expected (obj fs) statuses = ok (has_status statuses (fields fs))
  is_expected v statuses = raise attribute_error

  unfoldable pub check_expected : String → Option (List String) → Step c.State Exception Bool
  unfolding is_expected
  check_expected task_id none = pure true
  check_expected task_id (some []) = pure true
  check_expected task_id (some (status ∷ statuses)) =
      (λ s. (get_async_task task_id s, s)) >>= λ existing.
      lift (is_expected existing (status ∷ statuses))

  unfoldable pub task_script : String → Dict Value → Script
  task_script now patch = record {
    source = set_clauses (put "updated_at" (str now) patch);
    params = put "updated_at" (str now) patch;
  }

  -- `True`, or `False` where the task is gone or in conflict
  unfoldable pub is_updated :
      String → Result Failure (Dict Value) × c.State → Result Exception Bool × c.State
  is_updated task_id (ok resp, s) = (ok true, s)
  is_updated task_id (raise not_found, s) = (ok false, s)
  is_updated task_id (raise conflict, s) = (ok false, s)
  is_updated task_id (raise e, s) = (
    raise (
        unavailable c
          (error database_backend_unavailable "Failed to update async task."
            (("task_id", str task_id) ∷ []))
          e),
    s,
  )

  -- The second phase.
  unfoldable pub write_patch : String → String → Dict Value → Step c.State Exception Bool
  unfolding is_updated task_script
  write_patch now task_id patch s =
      is_updated task_id (c.update index task_id (task_script now patch) s)

  unfoldable pub update_async_task :
      String → String → Dict Value → Option (List String) → Step c.State Exception Bool
  update_async_task now task_id patch expected_statuses =
      check_expected task_id expected_statuses >>= λ expected.
      if expected then write_patch now task_id patch else pure false
