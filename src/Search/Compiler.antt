-- ===== src/Search/Compiler.antt =====
-- bible/features/search/common/query_profile_compiler.py: the compilation of a search into an
-- OpenSearch query. The query is a tree with a constructor for each form of dictionary that the
-- source builds; the notes at the constructors give the dictionary. `str()` of a value inside an
-- f-string and the float arithmetic of `round(1.0 - vw, 6)` are parameters.
pub mod Laws
pub mod Canonical
mod Tests
use bi_ble_atlas.Base.{
  ℕ, String, Bool, true, false, not, Option, none, some, List, [], ◌∷◌, ◌≡◌, is_empty, or_else,
  if◌then◌else◌, text_append,
}
use bi_ble_atlas.Base.Dict.{Dict, get}
use bi_ble_atlas.Base.Int.{ℤ}
use bi_ble_atlas.Base.Value.{Value, str, arr, nil, truthy, present, list_of, three_fifths, one}
use bi_ble_atlas.Base.Result.{Result, ok, raise, ◌>>=◌, ◌>>◌, raise_if}
use bi_ble_atlas.Search.{
  Exception, profile_invalid, no_fields, no_query_vector, no_vector_field, type_error, iterate,
  subscript, as_key, as_dict, traverse,
}
use bi_ble_atlas.Search.Profile.{
  SearchType, keyword, title, text, vector, hybrid, name, parse_search_type, extract_type_profile,
  response_fields, extract_response_fields,
}

mutual
  pub data Query : Type 0 where
    -- {"term": {field: {"value": query, "boost": boost}}}
    term : (field : Value) (query : String) (boost : Value) → Query
    -- {"match": {field: {"query": query, "boost": boost}}}
    matches : (field : Value) (query : String) (boost : Value) → Query
    -- {"multi_match": {"query": query, "fields": fields, "type": type}}
    multi_match : (query : String) (fields : List String) (type : Value) → Query
    -- {"knn": {field: {"vector": ..., "k": k, "num_candidates": ...}}}
    knn : (field vector : Value) (k : ℤ) (num_candidates : Option Value) → Query
    -- {"function_score": {"query": query, "weight": weight}}
    function_score : Query → (weight : Value) → Query
    -- {"bool": {"should": clauses}}
    should : Queries → Query
    -- {"match_all": {}}
    match_all : Query

  pub data Queries : Type 0 where
    last : Query → Queries
    more : Query → Queries → Queries

-- {"size": size, "query": query, "_source": source}
pub record Dsl : Type 0 where
  pub size : ℤ
  pub query : Query
  pub source : Option (List String)

pub record Python : Type 0 where
  -- `str(v)`
  pub str_of : Value → String
  -- `round(1.0 - v, 6)`; `none` is a `TypeError`
  pub text_weight : Value → Option Value

-- `{"bool": {"should": clauses}} if len(clauses) > 1 else clauses[0]`
abbrev pub queries : Query → List Query → Queries
queries q [] = last q
queries q (r ∷ rs) = more q (queries r rs)

unfoldable pub combine : List Query → Result Exception Query
combine [] = raise type_error
combine (q ∷ []) = ok q
combine (q ∷ r ∷ rs) = ok (should (queries q (r ∷ rs)))

-- `entry["field"]` and `entry.get("weight", 1.0)`
unfoldable pub field_and_weight : Value → Result Exception (Value × Value)
unfolding subscript as_dict
field_and_weight entry = do
  field ← subscript "field" entry
  d ← as_dict entry
  ok (field, or_else (get "weight" d) one)

unfoldable pub clause : (Value → String → Value → Query) → String → Value → Result Exception Query
clause form query entry = do
  fw ← field_and_weight entry
  key ← as_key fw.0
  ok (form key query fw.1)

unfoldable pub clauses :
    (Value → String → Value → Query) → String → List Value → Result Exception Query
clauses form query entries = do qs ← traverse (clause form query) entries; combine qs

-- `profile.get(list_name, [])`
abbrev pub list_field : String → Dict Value → Value
list_field list_name d = or_else (get list_name d) (arr nil)

-- `if not x: raise ...`
abbrev pub require_truthy : Value → Exception → Result Exception (Unit {0})
require_truthy v e = raise_if (not (truthy v)) e

unfoldable pub compile_clauses :
    (Value → String → Value → Query)
    → SearchType
    → String
    → String
    → ℤ
    → Dict Value
    → Result Exception Dsl
compile_clauses form t list_name query top_k profile = do
  require_truthy (list_field list_name profile) (profile_invalid (no_fields (name t)))
  entries ← iterate (list_field list_name profile)
  q ← clauses form query entries
  ok (record { size = top_k; query = q; source = none })

unfoldable pub compile_keyword : String → ℤ → Dict Value → Result Exception Dsl
unfolding compile_clauses
compile_keyword query top_k profile = compile_clauses term keyword "term_fields" query top_k profile

unfoldable pub compile_title : String → ℤ → Dict Value → Result Exception Dsl
unfolding compile_clauses
compile_title query top_k profile = compile_clauses matches title "match_fields" query top_k profile

-- `if query_vector is None: raise ...`
unfoldable pub require_vector : SearchType → Option Value → Result Exception Value
require_vector t none = raise (profile_invalid (no_query_vector (name t)))
require_vector t (some v) = ok v

-- `vector_field = profile.get("vector_field")`, which must be true
unfoldable pub require_vector_field : SearchType → Dict Value → Result Exception Value
require_vector_field t profile = do
  require_truthy (or_else (get "vector_field" profile) Value.null)
      (profile_invalid (no_vector_field (name t)))
  ok (or_else (get "vector_field" profile) Value.null)

unfoldable pub knn_query : Value → Value → ℤ → Dict Value → Result Exception Query
knn_query vector_field query_vector top_k profile = do
  key ← as_key vector_field
  ok (knn key query_vector top_k (present (get "num_candidates" profile)))

unfoldable pub compile_vector : ℤ → Dict Value → Option Value → Result Exception Dsl
unfolding require_vector require_vector_field knn_query
compile_vector top_k profile query_vector = do
  v ← require_vector vector query_vector
  vector_field ← require_vector_field vector profile
  q ← knn_query vector_field v top_k profile
  ok (record { size = top_k; query = q; source = none })

module _ (py : Python) where
  -- f"{f['field']}^{f.get('weight', 1.0)}"
  unfoldable pub boosted : Value → Result Exception String
  unfolding field_and_weight
  boosted entry = do
    fw ← field_and_weight entry
    ok (text_append (py.str_of fw.0) (text_append "^" (py.str_of fw.1)))

  unfoldable pub multi_match_query : String → Value → Dict Value → Result Exception Query
  multi_match_query query fields_cfg profile = do
    entries ← iterate fields_cfg
    fields ← traverse boosted entries
    ok (multi_match query fields (or_else (get "multi_match_type" profile) (str "most_fields")))

  unfoldable pub compile_text : String → ℤ → Dict Value → Result Exception Dsl
  unfolding multi_match_query
  compile_text query top_k profile = do
    require_truthy (list_field "fields" profile) (profile_invalid (no_fields (name text)))
    q ← multi_match_query query (list_field "fields" profile) profile
    ok (record { size = top_k; query = q; source = none })

  -- `vector_weight if vector_weight is not None else profile.get("default_vector_weight", 0.6)`
  abbrev pub effective_weight : Option Value → Dict Value → Value
  effective_weight none profile = or_else (get "default_vector_weight" profile) three_fifths
  effective_weight (some w) profile = w

  unfoldable pub weight_of_text : Value → Result Exception Value
  weight_of_text vw = elim (py.text_weight vw) [ none ↦ raise type_error | some w ↦ ok w ]

  -- The branches that choose `bm25_query`.
  unfoldable pub bm25_query : String → Dict Value → Result Exception Query
  bm25_query query profile =
      if truthy (list_field "fields" profile)
      then multi_match_query query (list_field "fields" profile) profile
      else if truthy (list_field "match_fields" profile)
      then (do entries ← iterate (list_field "match_fields" profile); clauses matches query entries)
      else ok match_all

  unfoldable pub compile_hybrid :
      String → ℤ → Dict Value → Option Value → Option Value → Result Exception Dsl
  unfolding require_vector require_vector_field weight_of_text knn_query
  compile_hybrid query top_k profile query_vector vector_weight = do
    v ← require_vector hybrid query_vector
    let vw = effective_weight vector_weight profile
    w ← weight_of_text vw
    vector_field ← require_vector_field hybrid profile
    bm25 ← bm25_query query profile
    nearest ← knn_query vector_field v top_k profile
    ok (record {
      size = top_k;
      query = should (more (function_score bm25 w) (last (function_score nearest vw)));
      source = none;
    })

  unfoldable pub compile_by_type :
      SearchType → String → ℤ → Dict Value → Option Value → Option Value → Result Exception Dsl
  compile_by_type keyword query top_k stp query_vector vector_weight =
      compile_keyword query top_k stp
  compile_by_type title query top_k stp query_vector vector_weight = compile_title query top_k stp
  compile_by_type text query top_k stp query_vector vector_weight = compile_text query top_k stp
  compile_by_type vector query top_k stp query_vector vector_weight =
      compile_vector top_k stp query_vector
  compile_by_type hybrid query top_k stp query_vector vector_weight =
      compile_hybrid query top_k stp query_vector vector_weight

  -- `if source_fields: dsl["_source"] = source_fields`
  abbrev pub with_source : List String → Dsl → Dsl
  with_source fs dsl = if is_empty fs then dsl else record dsl { source = some fs }

  unfoldable pub compile :
      String
      → String
      → ℤ
      → Dict Value
      → Option Value
      → Option Value
      → Result Exception (Dsl × List String)
  compile search_type query top_k search_profile vector_weight query_vector = do
    t ← parse_search_type search_type
    stp ← extract_type_profile t search_profile
    dsl ← compile_by_type t query top_k stp query_vector vector_weight
    source ← extract_response_fields search_profile
    fields ← response_fields (get "response_fields" search_profile)
    ok (with_source source dsl, fields)
