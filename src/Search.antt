-- ===== src/Search.antt =====
-- bible/features/search: the exceptions of the search domain, and values as Python takes them apart.
-- The text of a `SearchProfileInvalidError` is a constructor with the parts that vary; where the
-- source lists unknown keys sorted, they stand here in the order of the profile.
pub mod Profile
pub mod Compiler
pub mod Hits
pub mod Searcher
pub mod Skill
pub mod Service
pub mod Http
pub mod Api
use Prim.Native.Char.{Char}
use Prim.Native.String.{[] as no_text, ◌∷◌ as char_before}
use bi_ble_atlas.Base.{
  ℕ, String, Bool, true, false, Option, none, some, List, [], ◌∷◌, map, ◌==◌, if◌then◌else◌,
}
use bi_ble_atlas.Base.Dict.{Dict, get}
use bi_ble_atlas.Base.Value.{Value, str, arr, obj, items, fields, Fields, end, field}
use bi_ble_atlas.Base.Result.{Result, ok, raise, ◌>>=◌}

pub data Reason : Type 0 where
  unsupported_search_type no_entry disabled profile_not_dict : String → Reason
  unknown_top_level_keys unknown_search_types : List String → Reason
  wrapper_not_dict : Reason
  unknown_profile_keys : String → List String → Reason
  fields_not_list entries_not_dicts : String → String → Reason
  unknown_entry_keys : String → String → List String → Reason
  num_candidates_not_positive no_fields no_query_vector no_vector_field no_vector_model :
      String → Reason
  response_fields_not_list response_fields_not_strings : Reason

pub data Exception : Type 0 where
  profile_invalid : Reason → Exception
  internal_error : String → Exception
  -- the selector and its value
  index_not_bound : String → String → Exception
  -- the requested and the bound model
  vector_model_conflict : String → String → Exception
  attribute_error type_error value_error : Exception
  key_error : String → Exception

-- `v.get(...)`, an `AttributeError` unless `v` is a dictionary
unfoldable pub as_dict : Value → Result Exception (Dict Value)
as_dict (obj fs) = ok (fields fs)
as_dict v = raise attribute_error

abbrev characters : String → List Value
characters no_text = []
characters (char_before c s) = str (char_before c no_text) ∷ characters s

abbrev key_values : Fields → List Value
key_values end = []
key_values (field k v fs) = str k ∷ key_values fs

-- `for x in v`
unfoldable pub iterate : Value → Result Exception (List Value)
iterate (arr xs) = ok (items xs)
iterate (str s) = ok (characters s)
iterate (obj fs) = ok (key_values fs)
iterate v = raise type_error

-- `v[k]` for a text `k`
unfoldable pub subscript : String → Value → Result Exception Value
subscript k (obj fs) = elim (get k (fields fs)) [ none ↦ raise (key_error k) | some v ↦ ok v ]
subscript k v = raise type_error

-- A value that is to be a dictionary's key.
unfoldable pub as_key : Value → Result Exception Value
as_key (arr xs) = raise type_error
as_key (obj fs) = raise type_error
as_key v = ok v

-- `[f(x) for x in xs]`
unfoldable pub traverse {ℓ κ} :
    {A : Type ℓ} {B : Type κ} → (A → Result Exception B) → List A → Result Exception (List B)
traverse f [] = ok []
traverse f (x ∷ xs) = do y ← f x; ys ← traverse f xs; ok (y ∷ ys)
