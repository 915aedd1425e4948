-- ===== src/Database/Postgres.antt =====
-- postgres/writer.py. psycopg and its pool are not in the repository's sources: a statement is a constructor
-- with the SQL of the source beside it, and running one is a parameter.
pub mod Bulk
pub mod Tasks
pub mod Laws
use Prim.Native.Char.{Char, code}
use Prim.Native.String.{[] as no_text, ◌∷◌ as char_before}
use bi_ble_atlas.Base.{
  ℕ, String, Bool, true, false, ◌&&◌, ◌||◌, Option, none, some, List, [], ◌∷◌, ◌++◌, leb, nat_eq,
  if◌then◌else◌, or_else, text_append, is_empty, map,
}
use bi_ble_atlas.Base.Dict.{Dict, get, put}
use bi_ble_atlas.Base.Value.{Value, null, str, bool, list_of}
use bi_ble_atlas.Base.Result.{Result, ok, raise}
use bi_ble_atlas.Database.{
  DatabaseErrorCode, index_binding_conflict, index_not_bound, database_backend_unavailable,
  database_invalid_argument, Exception, database, Runtime, IndexBinding, item, get_or_null,
}
use bi_ble_atlas.Database.Lookup.{error, binding_doc_id, details_of, is_active_of, to_binding}
use bi_ble_atlas.Database.Binding.{not_bound, check_complete, payload_of}
use bi_ble_atlas.Database.Step.{Step, ◌>>=◌, pure, lift, rescue, lift-step}

-- What the pool and the cursor raise.
pub data Failure : Type 0 where
  unique_violation : Failure
  other : String → Failure

-- The statements, each with its table.
pub data Statement : Type 0 where
  -- SELECT … WHERE domain_type = %s AND kb_index = %s AND is_active = TRUE LIMIT 1
  select_by_index : (table domain kb_index : String) → Statement
  -- SELECT … WHERE domain_type = %s AND tag = %s AND is_active = TRUE
  -- ORDER BY updated_at DESC NULLS LAST LIMIT 2
  select_by_tag : (table domain tag : String) → Statement
  -- INSERT INTO … (domain_type, …, deleted_at) VALUES (…), by column
  insert_binding : (table : String) → Dict Value → Statement
  -- UPDATE … SET is_active = FALSE, deleted_at = %s, updated_at = %s
  -- WHERE domain_type = %s AND kb_index = %s AND is_active = TRUE RETURNING domain_type, kb_index
  deactivate_row : (table now domain kb_index : String) → Statement
  -- UPDATE … SET k = %s, … WHERE domain_type = %s AND kb_index = %s
  update_row : (table : String) → Dict Value → (domain kb_index : String) → Statement
  -- INSERT INTO … (task_id, payload, created_at, updated_at) VALUES (%s, %s, %s, %s)
  insert_task :
      (table task_id : String)
      → Dict Value
      → (created_at : Value) → (updated_at : String) → Statement
  -- SELECT payload FROM … WHERE task_id = %s LIMIT 1
  select_task : (table task_id : String) → Statement
  -- SELECT payload FROM … WHERE payload->>'task_type' = %s AND payload->>'idempotency_key' = %s LIMIT 1
  select_task_by_key : (table task_type idempotency_key : String) → Statement
  -- UPDATE … SET payload = %s, updated_at = %s WHERE task_id = %s
  update_task : (table : String) → Dict Value → (now task_id : String) → Statement
  -- `executemany` of INSERT INTO … (index_name, row_id, payload, created_at, updated_at)
  -- VALUES (%s, %s, %s, NOW(), NOW()) ON CONFLICT (index_name, row_id)
  -- DO UPDATE SET payload = EXCLUDED.payload, updated_at = NOW()
  upsert_rows : (table : String) → List (String × String × Dict Value) → Statement

pub record Pool : Type 1 where
  pub State : Type 0
  -- A statement in a connection of its own, committed: the rows that it gives. The times of a row are in
  -- the form of `_iso_if_datetime`, null included.
  pub run : Statement → Step State Failure (List (Dict Value))
  -- `repr(exc)`
  pub repr : Failure → String

-- The class [a-zA-Z_], and [a-zA-Z0-9_].
unfoldable pub is_word_start : ℕ → Bool
is_word_start c = (leb 97 c && leb c 122) || (leb 65 c && leb c 90) || nat_eq c 95

unfoldable pub is_word : ℕ → Bool
unfolding is_word_start
is_word c = is_word_start c || (leb 48 c && leb c 57)

-- `[a-zA-Z0-9_]*$`: `$` matches at the end, and before a line feed that is the end.
unfoldable pub matches_rest : String → Bool
unfolding is_word
matches_rest no_text = true
matches_rest (char_before c no_text) = is_word (code c) || nat_eq (code c) 10
matches_rest (char_before c (char_before d s)) = is_word (code c) && matches_rest (char_before d s)

-- `_TABLE_RE.match(table_name)`
unfoldable pub matches_table : String → Bool
unfolding is_word_start matches_rest
matches_table no_text = false
matches_table (char_before c s) = is_word_start (code c) && matches_rest s

-- `_validate_table_name`; the message has the `repr` of the name, which is left out here.
unfoldable pub validate_table_name : String → Result Exception (Unit {0})
unfolding matches_table
validate_table_name table_name =
    if matches_table table_name
    then ok tt
    else raise (database (error database_invalid_argument "Invalid postgres table name: " []))

-- `_iso_if_datetime`, of what is no `datetime`
unfoldable pub iso_if_datetime : Runtime → Value → Value
iso_if_datetime rt null = null
iso_if_datetime rt v = str (rt.str_of v)

-- The columns of a new row, by the document that is written.
unfoldable pub binding_row : Dict Value → Dict Value
binding_row payload =
    ("domain_type", get_or_null "domain_type" payload)
    ∷ ("kb_index", get_or_null "kb_index" payload)
    ∷ ("tag", get_or_null "tag" payload)
    ∷ ("parser_script_source", get_or_null "parser_script_source" payload)
    ∷ ("parser_script_sha256", get_or_null "parser_script_sha256" payload)
    ∷ ("vector_model", get_or_null "vector_model" payload)
    ∷ ("search_profile_json", get_or_null "search_profile_json" payload)
    ∷ ("search_profile_sha256", get_or_null "search_profile_sha256" payload)
    ∷ ("is_active", get_or_null "is_active" payload)
    ∷ ("created_at", get_or_null "created_at" payload)
    ∷ ("updated_at", get_or_null "updated_at" payload)
    ∷ ("deleted_at", get_or_null "deleted_at" payload)
    ∷ []

module _ (rt : Runtime) (p : Pool) (table : String) where
  -- `except Exception`
  abbrev pub failed : String → Dict Value → Failure → Exception
  failed message details e = database (error database_backend_unavailable message details)

  abbrev pub run_or : (Failure → Exception) → Statement → Step p.State Exception (List (Dict Value))
  run_or handler statement s = rescue handler (p.run statement s)

  -- `_to_binding`: the times go through `_iso_if_datetime`.
  unfoldable pub row_binding : Dict Value → Result Exception IndexBinding
  row_binding row = elim (to_binding rt row) [
    | raise e ↦ raise e
    | ok b ↦ ok (record b {
      created_at = iso_if_datetime rt b.created_at;
      updated_at = iso_if_datetime rt b.updated_at;
      deleted_at = iso_if_datetime rt b.deleted_at;
    })
  ]

  -- The first row, if there is one.
  unfoldable pub first_binding : List (Dict Value) → Result Exception (Option IndexBinding)
  unfolding row_binding
  first_binding [] = ok none
  first_binding (row ∷ rows) = elim (row_binding row) [ raise e ↦ raise e | ok b ↦ ok (some b) ]

  unfoldable pub get_binding_by_domain_index :
      (domain kb_index : String) → Step p.State Exception (Option IndexBinding)
  unfolding first_binding
  get_binding_by_domain_index domain kb_index =
      run_or
        (failed "Failed to query index binding by domain/index from Postgres."
          (details_of "domain_type" domain kb_index))
        (select_by_index table domain kb_index)
      >>= λ rows. lift (first_binding rows)

  unfoldable pub get_binding_by_domain_tag :
      (domain tag : String) → Step p.State Exception (Option IndexBinding)
  unfolding first_binding
  get_binding_by_domain_tag domain tag =
      run_or
        (failed "Failed to query index binding by domain/tag from Postgres."
          (("domain_type", str domain) ∷ ("tag", str tag) ∷ []))
        (select_by_tag table domain tag)
      >>= λ rows. lift (first_binding rows)

  abbrev pub done : String → Bool → (domain kb_index : String) → Dict Value
  done what b domain kb_index = (what, bool b) ∷ ("_id", str (binding_doc_id domain kb_index)) ∷ []

  unfoldable pub create_failed : Dict Value → Failure → Exception
  create_failed payload unique_violation = database (
      error index_binding_conflict
        (text_append "Index binding already exists for " (
          text_append
            (binding_doc_id (rt.str_of (get_or_null "domain_type" payload))
              (rt.str_of (get_or_null "kb_index" payload)))
            "."))
        [])
  create_failed payload (other text) =
      failed "Failed to create index binding in Postgres."
        (("domain_type", get_or_null "domain_type" payload)
          ∷ ("kb_index", get_or_null "kb_index" payload)
          ∷ ("tag", get_or_null "tag" payload)
          ∷ [])
        (other text)

  unfoldable pub create_index_binding : String → Dict Value → Step p.State Exception (Dict Value)
  create_index_binding now doc = lift (check_complete doc) >>= λ _.
      let row = binding_row (payload_of now doc) in
      run_or (create_failed row) (insert_binding table row) >>= λ rows. pure (
        done "created" true (rt.str_of (get_or_null "domain_type" row))
          (rt.str_of (get_or_null "kb_index" row)))

  -- `if updated is None: raise`
  unfoldable pub require_row :
      (domain kb_index : String) → List (Dict Value) → Result Exception (Dict Value)
  require_row domain kb_index [] = raise (database (not_bound domain kb_index))
  require_row domain kb_index (row ∷ rows) = ok (done "updated" true domain kb_index)

  unfoldable pub deactivate_binding :
      String → (domain kb_index : String) → Step p.State Exception (Dict Value)
  unfolding require_row
  deactivate_binding now domain kb_index =
      run_or
        (failed "Failed to deactivate index binding in Postgres."
          (details_of "domain_type" domain kb_index))
        (deactivate_row table now domain kb_index)
      >>= λ rows. lift (require_row domain kb_index rows)

  unfoldable pub update_binding :
      String → (domain kb_index : String) → Dict Value → Step p.State Exception (Dict Value)
  update_binding now domain kb_index [] = pure (done "updated" false domain kb_index)
  update_binding now domain kb_index (entry ∷ patch) =
      run_or
        (failed "Failed to update index binding in Postgres."
          (details_of "domain_type" domain kb_index))
        (update_row table (put "updated_at" (str now) (entry ∷ patch)) domain kb_index)
      >>= λ rows. pure (done "updated" true domain kb_index)
