-- ===== src/Database.antt =====
-- bible/infrastructure/database: the writers for bindings, documents and tasks. Here: the types of types.py,
-- and the exceptions that leave a writer.
mod Tests
pub mod Memory
pub mod Step
pub mod Client
pub mod Lookup
pub mod Binding
pub mod Tasks
pub mod Chunked
pub mod Bulk
pub mod Dsl
pub mod Vector
pub mod Content
pub mod Postgres
use bi_ble_atlas.Base.{ℕ, String, ◌≡◌, Bool, List, Option, none, some, or_else}
use bi_ble_atlas.Base.Dict.{Dict, get}
use bi_ble_atlas.Base.Int.{ℤ}
use bi_ble_atlas.Base.Value.{Value, obj, str, fields}
use bi_ble_atlas.Base.Result.{Result, ok, raise}

pub data DatabaseErrorCode : Type 0 where
  index_binding_conflict index_not_bound database_backend_unavailable : DatabaseErrorCode
  database_write_partial_failed database_invalid_argument : DatabaseErrorCode

-- The two search engines, whose writers differ in few places.
pub data Engine : Type 0 where
  opensearch elasticsearch : Engine

pub record DatabaseError : Type 0 where
  pub code : DatabaseErrorCode
  pub message : String
  pub details : Dict Value

-- What the client of a search engine raises: the three classes that the writers name, and any other.
pub data Failure : Type 0 where
  not_found conflict transport : Failure
  other : String → Failure

pub data Exception : Type 0 where
  database : DatabaseError → Exception
  -- an exception of the client that no `except` clause names
  client : Failure → Exception
  key_error : String → Exception
  attribute_error type_error value_error : Exception

-- What the writers use of Python's runtime.
pub record Runtime : Type 0 where
  -- `str(v)`, and its value at a text
  pub str_of : Value → String
  pub str_of-str : (s : String) → str_of (str s) ≡ s
  -- `json.loads(s)`; `none` is a `JSONDecodeError`
  pub loads : String → Option Value
  -- `int(v)`; `none` where it raises
  pub to_int : Value → Option ℤ

pub record IndexBinding : Type 0 where
  pub domain_type : Value
  pub kb_index : Value
  pub tag : Value
  pub parser_script_source : Value
  pub parser_script_sha256 : Value
  pub vector_model : Value
  pub search_profile_json : Dict Value
  pub search_profile_sha256 : Value
  pub is_active : Bool
  pub created_at : Value
  pub updated_at : Value
  pub deleted_at : Value

-- `errors` is counted only: `fail_count` goes with it.
pub record BulkWriteResult : Type 0 where
  pub success_count : ℕ
  pub fail_count : ℕ
  pub errors : List Value

-- `d[k]`
unfoldable pub item : String → Dict Value → Result Exception Value
item k d = elim (get k d) [ none ↦ raise (key_error k) | some v ↦ ok v ]

-- `v.get(...)`
unfoldable pub as_dict : Value → Result Exception (Dict Value)
as_dict (obj fs) = ok (fields fs)
as_dict v = raise attribute_error

-- `d.get(k)`
abbrev pub get_or_null : String → Dict Value → Value
get_or_null k d = or_else (get k d) Value.null

-- `json.loads` of `__post_init__`, whose result must be a dictionary.
unfoldable pub decoded : Option Value → Result Exception (Dict Value)
decoded (some (obj fs)) = ok (fields fs)
decoded v = raise value_error

-- `__post_init__`
unfoldable pub post_init : Runtime → Value → Result Exception (Dict Value)
unfolding decoded
post_init rt (str s) = decoded (rt.loads s)
post_init rt v = decoded (some v)
