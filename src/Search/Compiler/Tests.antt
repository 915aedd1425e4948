-- ===== src/Search/Compiler/Tests.antt =====
-- Profiles and their compilation at concrete inputs.
use bi_ble_atlas.Base.{String, ◌≡◌, refl, none, some, Option, List, [], ◌∷◌}
use bi_ble_atlas.Base.Dict
use bi_ble_atlas.Base.Dict.{Dict, get}
use bi_ble_atlas.Base.Int.{ℤ, pos}
use bi_ble_atlas.Base.Value.{Value, str, float, list_of, one_half, three_fifths, one}
use bi_ble_atlas.Base.Result.{ok}
use bi_ble_atlas.Search.{iterate, as_dict, subscript, as_key, traverse}
use bi_ble_atlas.Search.Profile
use bi_ble_atlas.Search.Profile.{
  SearchType, keyword, title, text, vector, hybrid, name, extract_type_profile, source_fields,
}
use bi_ble_atlas.Search.Profile.Checked.{IsChecked, extract-IsChecked}
use bi_ble_atlas.Search.Compiler.{
  Query, term, matches, multi_match, knn, function_score, should, last, more, Dsl, Python, compile,
  compile_hybrid, effective_weight, with_source,
}
use bi_ble_atlas.Search.Compiler
use bi_ble_atlas.Search.Compiler.Canonical.{entries, canonical, clause_query, compile-keyword}

abbrev str_of : Value → String
str_of (str s) = s
str_of v = "1.0"

abbrev complement : Value → Option Value
complement (float bits) = some one_half
complement v = none

abbrev py : Python
py = record { str_of = str_of; text_weight = complement }

abbrev ten : ℤ
ten = pos 10

abbrev by_name : String × Value
by_name = ("name", one)

abbrev more_fields : List (String × Value)
more_fields = ("body", one_half) ∷ []

abbrev shown : List String
shown = "title" ∷ "score" ∷ []

abbrev keyword_part : Dict Value
keyword_part = ("term_fields", entries (by_name ∷ more_fields)) ∷ []

abbrev keyword_profile : Dict Value
keyword_profile = canonical keyword keyword_part shown

abbrev keyword_dsl : Dsl
keyword_dsl = with_source py (source_fields shown) (record {
  size = ten;
  query = clause_query by_name more_fields shown term "cats";
  source = none;
})

keyword-compiled :
    compile py "keyword" "cats" ten keyword_profile none none ≡ ok (keyword_dsl, shown)
keyword-compiled = compile-keyword by_name more_fields shown py "cats" ten none none

abbrev hybrid_part : Dict Value
hybrid_part =
    ("vector_field", str "content_vector")
    ∷ ("match_fields", entries (by_name ∷ []))
    ∷ ("default_vector_weight", three_fifths)
    ∷ []

abbrev embedding : Value
embedding = list_of (one ∷ [])

abbrev hybrid_dsl : Dsl
hybrid_dsl = record {
  size = ten;
  query = should (
      more (function_score (matches (str "name") "cats" one) one_half)
        (last (function_score (knn (str "content_vector") embedding ten none) three_fifths)));
  source = none;
}

hybrid-compiled : compile_hybrid py "cats" ten hybrid_part (some embedding) none ≡ ok hybrid_dsl
unfolding compile_hybrid get iterate as_dict subscript as_key traverse Compiler.bm25_query
    Compiler.clauses Compiler.clause Compiler.field_and_weight Compiler.combine
hybrid-compiled = refl

extracted : extract_type_profile keyword keyword_profile ≡ ok keyword_part
unfolding extract_type_profile Profile.extract_by_wrapper get Profile.extract_wrapped
    Profile.validate_top_level_profile Dict.unknown_keys Profile.validate_profile_wrapper name
    Profile.require_entry as_dict Profile.require_enabled Profile.validate_type_profile
    Profile.type_profile_keys Profile.validate_field_lists Profile.field_list_names
    Profile.validate_field_entries Profile.validate_num_candidates
extracted = refl

extract-IsChecked_example : IsChecked keyword keyword_part
extract-IsChecked_example = extract-IsChecked keyword keyword_profile extracted
