-- ===== src/Upload/Memory/Served.antt =====
-- The profile that the parser of memories builds, stored with the binding by `_search_profile_for_binding`
-- and compiled for a search by bible/features/search/common/query_profile_compiler.py.
use bi_ble_atlas.Base.{String, ◌≡◌, refl, Option, none, some, List}
use bi_ble_atlas.Base.Dict.{get, put, without, unknown_keys}
use bi_ble_atlas.Base.Int.{ℤ}
use bi_ble_atlas.Base.Value.{Value}
use bi_ble_atlas.Base.Result.{Result, ok, raise}
use bi_ble_atlas.Search.{
  Exception, profile_invalid, no_vector_field, as_dict, iterate, subscript, as_key, traverse,
}
use bi_ble_atlas.Search.Profile.{
  response_fields as profile_fields, parse_search_type, type_profile_keys, field_list_names,
  validate_top_level_profile, validate_profile_wrapper, validate_entries, validate_field_entries,
  validate_field_lists, validate_num_candidates, validate_type_profile, require_enabled,
  require_entry, extract_wrapped, extract_by_wrapper, extract_type_profile, texts, source_fields,
  extract_response_fields, SearchType, keyword, title, text, vector, hybrid, name,
}
use bi_ble_atlas.Search.Compiler.{
  combine, field_and_weight, clause, clauses, compile_clauses, compile_keyword, compile_title,
  require_vector, require_vector_field, knn_query, compile_vector, boosted, multi_match_query,
  compile_text, weight_of_text, compile_hybrid, compile_by_type, Dsl, Python, compile,
  effective_weight,
}
use bi_ble_atlas.Upload.Memory.Profile.{search_profile, response_fields, hybrid_part}
use bi_ble_atlas.Upload.Vector.{search_profile_for_binding}

text_weighted :
    (py : Python) (v : Value) {w : Value} → py.text_weight v ≡ some w → weight_of_text py v ≡ ok w
unfolding weight_of_text
text_weighted py v h = rw (h, weight_of_text) refl

-- What a search gets from the profile of a memory, by its type.
abbrev pub IsServed : ℤ → SearchType → Result Exception (Dsl × List String) → Type 0
IsServed top_k hybrid r = r ≡ raise (profile_invalid (no_vector_field "hybrid"))
IsServed top_k t r = (dsl : Dsl) × (r ≡ ok (dsl, response_fields)) × (dsl.size ≡ top_k)

-- The stored profile of a memory compiles for keyword, title, text and vector searches, to the response
-- fields of the parser and the size asked for; for a hybrid search it is refused, whatever the query.
pub compile-search_profile :
    (py : Python) (t : SearchType) (query : String) (top_k : ℤ) (vector_weight : Option Value)
    (query_vector : Value) {w : Value}
    → py.text_weight (effective_weight py vector_weight hybrid_part) ≡ some w
    → IsServed top_k t (
        compile py
          (name t)
          query
          top_k
          (search_profile_for_binding search_profile)
          vector_weight
          (some query_vector))
unfolding compile name search_profile search_profile_for_binding get put without unknown_keys
    profile_fields parse_search_type type_profile_keys field_list_names validate_top_level_profile
    validate_profile_wrapper validate_entries validate_field_entries validate_field_lists
    validate_num_candidates validate_type_profile require_enabled require_entry extract_wrapped
    extract_by_wrapper extract_type_profile texts source_fields extract_response_fields combine
    field_and_weight clause clauses compile_clauses compile_keyword compile_title require_vector
    require_vector_field knn_query compile_vector boosted multi_match_query compile_text
    compile_hybrid compile_by_type as_dict iterate subscript as_key traverse
compile-search_profile py keyword query top_k vector_weight v h = (_, refl, refl)
compile-search_profile py title query top_k vector_weight v h = (_, refl, refl)
compile-search_profile py text query top_k vector_weight v h = (_, refl, refl)
compile-search_profile py vector query top_k vector_weight v h = (_, refl, refl)
compile-search_profile py hybrid query top_k none v h =
    rw (text_weighted py (effective_weight py none hybrid_part) h) refl
compile-search_profile py hybrid query top_k (some given) v h = rw (text_weighted py given h) refl
