-- ===== src/Database/Dsl.antt =====
-- How the writers prepare a search body: `_prepare_search_dsl` of opensearch/writer.py, which strips
-- `num_candidates`, and of elasticsearch/writer.py, which rewrites `knn` clauses. Both work on a copy.
pub mod Laws
use bi_ble_atlas.Base.{
  String, Bool, true, false, ◌&&◌, Option, none, some, List, [], ◌∷◌, ◌++◌, ◌==◌, if◌then◌else◌,
  member,
}
use bi_ble_atlas.Base.Dict.{Dict, get, put, without}
use bi_ble_atlas.Base.Value.{
  Value, Fields, Items, obj, arr, null, str, bool, float, int, field, end, cons, nil, fields,
  to_fields, dict_of, present,
}
use bi_ble_atlas.Base.Result.{Result, ok, raise, ◌>>=◌}
use bi_ble_atlas.Database.{Exception, attribute_error, type_error}

-- `_strip_num_candidates_from_knn`. The source first takes `num_candidates` out of the dictionaries below
-- a `knn` clause, and then goes into them; here a node is told by its parent whether it is such a
-- dictionary (`body`) and whether it is such a clause (`clause`).
unfoldable mutual
  pub strip_node : (body clause : Bool) → Value → Value
  strip_node body clause (obj fs) = obj (strip_fields body clause fs)
  strip_node body clause (arr vs) = arr (strip_items vs)
  strip_node body clause null = null
  strip_node body clause (str s) = str s
  strip_node body clause (bool b) = bool b
  strip_node body clause (float bits) = float bits
  strip_node body clause (int z) = int z

  pub strip_fields : (body clause : Bool) → Fields → Fields
  strip_fields body clause end = end
  strip_fields body clause (field k v fs) =
      let rest = strip_fields body clause fs in
      let kept = strip_node clause (k == "knn") v in
      if body && (k == "num_candidates") then rest else field k kept rest

  pub strip_items : Items → Items
  strip_items nil = nil
  strip_items (cons v vs) = cons (strip_node false false v) (strip_items vs)

-- `_prepare_search_dsl` of OpenSearch.
unfoldable pub prepare_opensearch : Value → Value
unfolding strip_node
prepare_opensearch dsl = strip_node false false dsl

-- The entries of the new clause that the body of the old one may have.
abbrev pub taken_over : String → Dict Value → Dict Value
taken_over k body = elim (get k body) [ none ↦ [] | some v ↦ (k, v) ∷ [] ]

-- A body with a vector.
abbrev pub converted : Bool → String → Dict Value → Option Value → Option Value
converted include_k name body none = none
converted include_k name body (some vector) = some (
    dict_of (
      ("field", str name)
        ∷ ("query_vector", vector)
        ∷ (if include_k then taken_over "k" body else [])
      ++ taken_over "num_candidates" body))

-- `_convert_knn_clause` of a dictionary.
unfoldable pub convert_knn_clause : Bool → Fields → Option Value
convert_knn_clause include_k (field name (obj body) end) =
    converted include_k name (fields body) (present (get "vector" (fields body)))
convert_knn_clause include_k clause = none

abbrev pub or_rewritten : Option Value → Value → Value
or_rewritten none v = v
or_rewritten (some c) v = c

-- The clause of a value below the key `knn`, if it is converted.
abbrev pub clause_at : String → Value → Option Value
clause_at k (obj clause) = if k == "knn" then convert_knn_clause false clause else none
clause_at k v = none

-- `_rewrite_knn_clauses` below the top level.
unfoldable mutual
  pub rewrite_node : Value → Value
  rewrite_node (obj fs) = obj (rewrite_fields fs)
  rewrite_node (arr vs) = arr (rewrite_items vs)
  rewrite_node null = null
  rewrite_node (str s) = str s
  rewrite_node (bool b) = bool b
  rewrite_node (float bits) = float bits
  rewrite_node (int z) = int z

  pub rewrite_fields : Fields → Fields
  rewrite_fields end = end
  rewrite_fields (field k v fs) =
      field k (or_rewritten (clause_at k v) (rewrite_node v)) (rewrite_fields fs)

  pub rewrite_items : Items → Items
  rewrite_items nil = nil
  rewrite_items (cons v vs) = cons (rewrite_node v) (rewrite_items vs)

-- `_convert_knn_clause(query["knn"], include_k=True)`, whatever stands there: `len` of what has none is a
-- `TypeError`, and `items` of what is no dictionary an `AttributeError`.
unfoldable pub convert_top : Value → Result Exception (Option Value)
convert_top (obj clause) = ok (convert_knn_clause true clause)
convert_top (arr (cons v nil)) = raise attribute_error
convert_top (arr vs) = ok none
convert_top (str (String.◌∷◌ c String.[])) = raise attribute_error
convert_top (str s) = ok none
convert_top v = raise type_error

-- The value of the only key of a query, if that is `knn`.
abbrev pub only_knn : Option Value → Option Value
only_knn (some (obj (field k v end))) = if k == "knn" then some v else none
only_knn v = none

-- The body with the converted clause in place of its query.
abbrev pub with_knn : Dict Value → Option Value → Value
with_knn dsl none = rewrite_node (dict_of dsl)
with_knn dsl (some c) = dict_of (without ("query" ∷ []) (put "knn" c dsl))

-- `_prepare_search_dsl` of Elasticsearch, of a dictionary.
unfoldable pub prepare_elasticsearch : Dict Value → Result Exception Value
prepare_elasticsearch dsl = elim (only_knn (get "query" dsl)) [
  | none ↦ ok (rewrite_node (dict_of dsl))
  | some clause ↦ convert_top clause >>= λ c. ok (with_knn dsl c)
]
