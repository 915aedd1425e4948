-- ===== src/Search/Profile.antt =====
-- bible/features/search/common/query_profile_compiler.py: the checks on a search profile, and the
-- choice of the part that a search type reads.
pub mod Laws
pub mod Checked
use bi_ble_atlas.Base.{
  String, Bool, true, false, not, ◌||◌, Option, none, some, List, [], ◌∷◌, ◌++◌, ◌==◌, is_some,
  or_else, is_empty, if◌then◌else◌,
}
use bi_ble_atlas.Base.Dict.{Dict, get, has, unknown_keys}
use bi_ble_atlas.Base.Int.{is_positive}
use bi_ble_atlas.Base.Value.{
  Value, bool, int, str, arr, obj, items, fields, dict_of, truthy, present,
}
use bi_ble_atlas.Base.Result.{Result, ok, raise, ◌>>=◌, ◌>>◌, raise_if}
use bi_ble_atlas.Search.{
  Exception, Reason, profile_invalid, unsupported_search_type, no_entry, disabled, profile_not_dict,
  unknown_top_level_keys, unknown_search_types, wrapper_not_dict, unknown_profile_keys,
  fields_not_list, entries_not_dicts, unknown_entry_keys, num_candidates_not_positive,
  response_fields_not_list, response_fields_not_strings, as_dict,
}

-- The members of `SEARCH_TYPES`.
pub data SearchType : Type 0 where
  keyword title text vector hybrid : SearchType

unfoldable pub name : SearchType → String
name keyword = "keyword"
name title = "title"
name text = "text"
name vector = "vector"
name hybrid = "hybrid"

abbrev pub search_types : List String
search_types = "keyword" ∷ "title" ∷ "text" ∷ "vector" ∷ "hybrid" ∷ []

-- `if search_type not in SEARCH_TYPES: raise ...`
unfoldable pub parse_search_type : String → Result Exception SearchType
parse_search_type s =
    if s == "keyword"
    then ok keyword
    else if s == "title"
    then ok title
    else if s == "text"
    then ok text
    else if s == "vector"
    then ok vector
    else if s == "hybrid"
    then ok hybrid
    else raise (profile_invalid (unsupported_search_type s))

abbrev pub top_level_keys : List String
top_level_keys = "tag" ∷ "search_type_profile" ∷ "response_fields" ∷ []

abbrev pub field_entry_keys : List String
field_entry_keys = "field" ∷ "weight" ∷ []

unfoldable pub type_profile_keys : SearchType → List String
type_profile_keys keyword = "enabled" ∷ "term_fields" ∷ []
type_profile_keys title = "enabled" ∷ "match_fields" ∷ []
type_profile_keys text = "enabled" ∷ "fields" ∷ "multi_match_type" ∷ []
type_profile_keys vector = "enabled" ∷ "vector_field" ∷ "num_candidates" ∷ []
type_profile_keys hybrid =
    "enabled" ∷ "default_vector_weight" ∷ "vector_field" ∷ "num_candidates" ∷ "fields"
    ∷ "match_fields" ∷ "multi_match_type" ∷ []

unfoldable pub field_list_names : SearchType → List String
field_list_names keyword = "term_fields" ∷ []
field_list_names title = "match_fields" ∷ []
field_list_names text = "fields" ∷ []
field_list_names vector = []
field_list_names hybrid = "fields" ∷ "match_fields" ∷ []

-- `if unknown: raise ...`, over the dictionary's own keys
abbrev pub reject_unknown :
    List String → (List String → Reason) → Dict Value → Result Exception (Unit {0})
reject_unknown allowed reason d =
    let unknown = unknown_keys allowed d in
    raise_if (not (is_empty unknown)) (profile_invalid (reason unknown))

unfoldable pub validate_top_level_profile : Dict Value → Result Exception (Unit {0})
validate_top_level_profile p = reject_unknown top_level_keys unknown_top_level_keys p

-- Returns the wrapper as the dictionary that it was found to be.
unfoldable pub validate_profile_wrapper : Value → Result Exception (Dict Value)
validate_profile_wrapper (obj fs) = do
  reject_unknown search_types unknown_search_types (fields fs)
  ok (fields fs)
validate_profile_wrapper v = raise (profile_invalid wrapper_not_dict)

unfoldable pub validate_grouped_flat_profile : Dict Value → Result Exception (Unit {0})
validate_grouped_flat_profile p =
    reject_unknown (search_types ++ "tag" ∷ "response_fields" ∷ []) unknown_top_level_keys p

-- The loop over the entries of one list.
unfoldable pub validate_entries : String → String → List Value → Result Exception (Unit {0})
validate_entries t list_name [] = ok tt
validate_entries t list_name (obj fs ∷ entries) = do
  reject_unknown field_entry_keys (unknown_entry_keys t list_name) (fields fs)
  validate_entries t list_name entries
validate_entries t list_name (v ∷ entries) = raise (profile_invalid (entries_not_dicts t list_name))

unfoldable pub validate_field_entries : String → String → Value → Result Exception (Unit {0})
unfolding validate_entries
validate_field_entries t list_name (arr xs) = validate_entries t list_name (items xs)
validate_field_entries t list_name v = raise (profile_invalid (fields_not_list t list_name))

-- `if list_name in profile: ...`
abbrev validate_field : String → String → Option Value → Result Exception (Unit {0})
validate_field t list_name none = ok tt
validate_field t list_name (some v) = validate_field_entries t list_name v

unfoldable pub validate_field_lists :
    String → List String → Dict Value → Result Exception (Unit {0})
validate_field_lists t [] d = ok tt
validate_field_lists t (list_name ∷ names) d = do
  validate_field t list_name (get list_name d)
  validate_field_lists t names d

-- `type(num_candidates) is not int or num_candidates <= 0`; a `bool` is not of type `int`
unfoldable pub validate_num_candidates : String → Option Value → Result Exception (Unit {0})
validate_num_candidates t none = ok tt
validate_num_candidates t (some (int n)) =
    raise_if (not (is_positive n)) (profile_invalid (num_candidates_not_positive t))
validate_num_candidates t (some v) = raise (profile_invalid (num_candidates_not_positive t))

-- Returns the profile as the dictionary that it was found to be.
unfoldable pub validate_type_profile :
    SearchType → Value → List String → Result Exception (Dict Value)
validate_type_profile t (obj fs) extra_allowed_keys = do
  reject_unknown (type_profile_keys t ++ extra_allowed_keys) (unknown_profile_keys (name t))
      (fields fs)
  validate_field_lists (name t) (field_list_names t) (fields fs)
  validate_num_candidates (name t) (get "num_candidates" (fields fs))
  ok (fields fs)
validate_type_profile t v extra_allowed_keys = raise (profile_invalid (profile_not_dict (name t)))

-- `if not type_entry.get("enabled", True): raise ...`
unfoldable pub require_enabled : SearchType → Dict Value → Result Exception (Unit {0})
require_enabled t d =
    raise_if (not (truthy (or_else (get "enabled" d) (bool true))))
      (profile_invalid (disabled (name t)))

-- `if type_entry is None: raise ...`
unfoldable pub require_entry : SearchType → Option Value → Result Exception Value
require_entry t none = raise (profile_invalid (no_entry (name t)))
require_entry t (some v) = ok v

-- The canonical form, with a wrapper.
unfoldable pub extract_wrapped : SearchType → Dict Value → Value → Result Exception (Dict Value)
extract_wrapped t p wrapper = do
  validate_top_level_profile p
  w ← validate_profile_wrapper wrapper
  type_entry ← require_entry t (present (get (name t) w))
  d ← as_dict type_entry
  require_enabled t d
  validate_type_profile t type_entry []

-- `if not isinstance(type_entry, dict): raise ...`
unfoldable pub require_dict : SearchType → Value → Result Exception (Dict Value)
require_dict t (obj fs) = ok (fields fs)
require_dict t v = raise (profile_invalid (profile_not_dict (name t)))

-- The grouped flat form, with the search types as keys of the profile.
unfoldable pub extract_grouped : SearchType → Dict Value → Value → Result Exception (Dict Value)
extract_grouped t p type_entry = do
  validate_grouped_flat_profile p
  d ← require_dict t type_entry
  require_enabled t d
  validate_type_profile t type_entry []

-- The legacy flat form: the profile itself is that of the type.
unfoldable pub extract_legacy : SearchType → Dict Value → Result Exception (Dict Value)
extract_legacy t p = validate_type_profile t (dict_of p) ("tag" ∷ "response_fields" ∷ [])

unfoldable pub extract_flat : SearchType → Dict Value → Option Value → Result Exception (Dict Value)
extract_flat t p none = extract_legacy t p
extract_flat t p (some type_entry) = extract_grouped t p type_entry

unfoldable pub extract_by_wrapper :
    SearchType → Dict Value → Option Value → Result Exception (Dict Value)
extract_by_wrapper t p none = extract_flat t p (get (name t) p)
extract_by_wrapper t p (some wrapper) = extract_wrapped t p wrapper

unfoldable pub extract_type_profile : SearchType → Dict Value → Result Exception (Dict Value)
extract_type_profile t p = extract_by_wrapper t p (present (get "search_type_profile" p))

-- The loop of `_extract_response_fields` without its filter: every entry is a text.
unfoldable pub texts : List Value → Result Exception (List String)
texts [] = ok []
texts (str s ∷ vs) = do ss ← texts vs; ok (s ∷ ss)
texts (v ∷ vs) = raise (profile_invalid response_fields_not_strings)

-- `response_fields`, as the list of texts that it was found to be
unfoldable pub response_fields : Option Value → Result Exception (List String)
unfolding texts
response_fields none = ok []
response_fields (some (arr xs)) = texts (items xs)
response_fields (some v) = raise (profile_invalid response_fields_not_list)

-- `field != "score"`
unfoldable pub source_fields : List String → List String
source_fields [] = []
source_fields (f ∷ fs) = let rest = source_fields fs in if f == "score" then rest else f ∷ rest

unfoldable pub extract_response_fields : Dict Value → Result Exception (List String)
unfolding source_fields response_fields
extract_response_fields p = do fs ← response_fields (get "response_fields" p); ok (source_fields fs)
