-- ===== src/Search/Profile/Laws.antt =====
-- What the checks on a profile establish, and that the two grouped forms of a profile agree.
use bi_ble_atlas.Base.{String, ◌≡◌, refl, [], ◌∷◌, arith, eq_iff}
use bi_ble_atlas.Base.Dict.{Dict, get, unknown_keys}
use bi_ble_atlas.Base.Value.{Value, obj, Fields, fields, dict_of}
use bi_ble_atlas.Base.Result.{Result, ok, ◌>>◌}
use bi_ble_atlas.Search.{Exception, as_dict}
use bi_ble_atlas.Search.Profile.{
  SearchType, keyword, name, parse_search_type, validate_type_profile, require_enabled,
  require_entry, require_dict, extract_wrapped, extract_grouped, extract_flat, extract_by_wrapper,
  extract_type_profile, validate_top_level_profile, validate_profile_wrapper,
  validate_grouped_flat_profile,
}

-- `_extract_type_profile` accepts a search type exactly if it is one of the five.
pub parse_search_type-name : (t : SearchType) → parse_search_type (name t) ≡ ok t
unfolding parse_search_type name
parse_search_type-name keyword = refl
parse_search_type-name _ = refl

pub parse-eq-ok : (s : String) (t : SearchType) → parse_search_type s ≡ ok t → s ≡ name t
unfolding parse_search_type name
parse-eq-ok s t h = ground (
  arith,
  eq_iff s "keyword",
  eq_iff s "title",
  eq_iff s "text",
  eq_iff s "vector",
  eq_iff s "hybrid",
)

-- The checked part of a profile, once it has been found to be a dictionary.
abbrev pub checked : SearchType → Fields → Result Exception (Dict Value)
checked t fs = require_enabled t (fields fs) >> validate_type_profile t (obj fs) []

-- A profile with one entry in the wrapper, and the grouped flat profile with the same entry, give
-- the same result, the entry or the same error, for every entry that is a dictionary.
pub wrapped-grouped :
    (t : SearchType) (fs : Fields)
    → (extract_type_profile t (("search_type_profile", dict_of ((name t, obj fs) ∷ [])) ∷ [])
        ≡ checked t fs)
      × (extract_type_profile t ((name t, obj fs) ∷ []) ≡ checked t fs)
unfolding extract_type_profile extract_by_wrapper extract_wrapped extract_flat extract_grouped
    validate_top_level_profile validate_profile_wrapper validate_grouped_flat_profile unknown_keys
    require_entry require_dict as_dict get name
wrapped-grouped keyword fs = (refl, refl)
wrapped-grouped _ fs = (refl, refl)
