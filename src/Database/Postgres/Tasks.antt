-- ===== src/Database/Postgres/Tasks.antt =====
-- The tasks of postgres/writer.py, a row each with its document in the column `payload`.
use bi_ble_atlas.Base.{
  String, Bool, true, false, Option, none, some, List, [], ◌∷◌, ◌==◌, if◌then◌else◌, or_else,
  text_append,
}
use bi_ble_atlas.Base.Dict.{Dict, get, put}
use bi_ble_atlas.Base.Value.{Value, obj, null, str, fields}
use bi_ble_atlas.Base.Result.{Result, ok, raise}
use bi_ble_atlas.Database.{
  index_binding_conflict, database_invalid_argument, Exception, database, attribute_error, Runtime,
  item, get_or_null,
}
use bi_ble_atlas.Database.Lookup.{error, or_value}
use bi_ble_atlas.Database.Postgres.{
  Failure, unique_violation, other, insert_task, select_task, select_task_by_key, update_task, Pool,
  failed, run_or,
}
use bi_ble_atlas.Database.Step.{Step, ◌>>=◌, pure, lift}
use bi_ble_atlas.Database.Tasks.{has_status}
use bi_ble_atlas.Base.{strip}

-- `{**existing, **patch}`
unfoldable pub merged : Dict Value → Dict Value → Dict Value
merged existing [] = existing
merged existing ((k, v) ∷ patch) = merged (put k v existing) patch

-- May the task be updated? No expectation, or an empty one, allows any.
unfoldable pub is_expected : Option (List String) → Dict Value → Bool
unfolding has_status
is_expected none existing = true
is_expected (some []) existing = true
is_expected (some (status ∷ statuses)) existing = has_status (status ∷ statuses) existing

module _ (rt : Runtime) (p : Pool) (table : String) where
  -- `row["payload"]` of the first row, and `None` where there is none
  unfoldable pub first_payload : List (Dict Value) → Result Exception Value
  first_payload [] = ok null
  first_payload (row ∷ rows) = item "payload" row

  unfoldable pub task_failed : String → Failure → Exception
  task_failed task_id unique_violation = database (
      error index_binding_conflict
        (text_append "Async task already exists: " (text_append task_id ".")) [])
  task_failed task_id (other text) =
      failed rt p table "Failed to create async task in Postgres." (("task_id", str task_id) ∷ [])
        (other text)

  -- `str(task_doc.get("task_id") or "").strip()`
  unfoldable pub id_of : Dict Value → String
  id_of doc = strip (rt.str_of (or_value (get_or_null "task_id" doc) (str "")))

  unfoldable pub task_payload : String → Dict Value → Dict Value
  task_payload now doc =
      put "updated_at" (str now) (put "created_at" (or_else (get "created_at" doc) (str now)) doc)

  unfoldable pub create_async_task : String → Dict Value → Step p.State Exception (Unit {0})
  unfolding task_failed
  create_async_task now doc =
      if id_of doc == ""
      then lift (
          raise (
            database (
              error database_invalid_argument "create_async_task requires task_doc with task_id."
                [])))
      else (run_or rt p table (task_failed (id_of doc)) (
            insert_task table (id_of doc) (task_payload now doc)
              (get_or_null "created_at" (task_payload now doc)) now)
          >>= λ rows. pure tt)

  unfoldable pub get_async_task : String → Step p.State Exception Value
  unfolding first_payload
  get_async_task task_id =
      run_or rt p table
        (failed rt p table "Failed to get async task from Postgres."
          (("task_id", str task_id) ∷ []))
        (select_task table task_id)
      >>= λ rows. lift (first_payload rows)

  unfoldable pub find_async_task_by_idempotency :
      (task_type idempotency_key : String) → Step p.State Exception Value
  unfolding first_payload
  find_async_task_by_idempotency task_type idempotency_key =
      run_or rt p table
        (failed rt p table "Failed to find async task by idempotency from Postgres."
          (("task_type", str task_type) ∷ ("idempotency_key", str idempotency_key) ∷ []))
        (select_task_by_key table task_type idempotency_key)
      >>= λ rows. lift (first_payload rows)

  -- The second phase: the whole document is written, with the patch over what was read.
  unfoldable pub write_payload :
      String → String → Dict Value → Dict Value → Step p.State Exception Bool
  unfolding merged
  write_payload now task_id patch existing =
      run_or rt p table
        (failed rt p table "Failed to update async task in Postgres."
          (("task_id", str task_id) ∷ []))
        (update_task table (put "updated_at" (str now) (merged existing patch)) now task_id)
      >>= λ rows. pure true

  -- What follows the read.
  unfoldable pub after_read :
      String → String → Dict Value → Option (List String) → Value → Step p.State Exception Bool
  after_read now task_id patch expected null = pure false
  after_read now task_id patch expected (obj fs) =
      if is_expected expected (fields fs)
      then write_payload now task_id patch (fields fs)
      else pure false
  after_read now task_id patch expected v = lift (raise attribute_error)

  unfoldable pub update_async_task :
      String → String → Dict Value → Option (List String) → Step p.State Exception Bool
  unfolding after_read
  update_async_task now task_id patch expected =
      get_async_task task_id >>= after_read now task_id patch expected
