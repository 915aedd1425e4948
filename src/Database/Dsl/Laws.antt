-- ===== src/Database/Dsl/Laws.antt =====
-- What the preparation of a search body leaves of its `knn` clauses.
use bi_ble_atlas.Base.{
  String, ◌≡◌, refl, ap, ap₂, ◌∙◌, Bool, true, false, ◌&&◌, none, some, [], ◌∷◌, ◌==◌, ◌++◌,
  Bool-cases, inl, inr,
}
use bi_ble_atlas.Base.Dict.{
  Dict, get, put, without, get-put, get-put_self, get-without-member, get-without-other,
}
use bi_ble_atlas.Base.Value.{
  Value, Fields, Items, obj, arr, null, str, bool, float, int, field, end, cons, nil, fields,
  dict_of, present,
}
use bi_ble_atlas.Base.Result.{ok}
use bi_ble_atlas.Database.Dsl.{
  strip_node, strip_fields, strip_items, prepare_opensearch, taken_over, convert_top,
  convert_knn_clause, prepare_elasticsearch,
}

-- A dictionary without the key, or no dictionary.
abbrev pub LacksCandidates : Value → Type 0
LacksCandidates (obj fs) = get "num_candidates" (fields fs) ≡ none
LacksCandidates v = Unit

-- Every dictionary of a clause lacks the key.
abbrev pub LackCandidates : Fields → Type 0
LackCandidates end = Unit
LackCandidates (field k v fs) = LacksCandidates v × LackCandidates fs

abbrev pub IsStrippedClause : Value → Type 0
IsStrippedClause (obj fs) = LackCandidates fs
IsStrippedClause v = Unit

-- Wherever a dictionary stands below a `knn` clause, at any depth, it has no `num_candidates`.
abbrev mutual
  pub IsStripped : Value → Type 0
  IsStripped (obj fs) = AreStripped fs
  IsStripped (arr vs) = ItemsStripped vs
  IsStripped v = Unit

  pub AreStripped : Fields → Type 0
  AreStripped end = Unit
  AreStripped (field k v fs) =
      (k == "knn" ≡ true → IsStrippedClause v) × IsStripped v × AreStripped fs

  pub ItemsStripped : Items → Type 0
  ItemsStripped nil = Unit
  ItemsStripped (cons v vs) = IsStripped v × ItemsStripped vs

strip_fields-LacksCandidates :
    (clause : Bool) (fs : Fields)
    → get "num_candidates" (fields (strip_fields true clause fs)) ≡ none
unfolding strip_node get
strip_fields-LacksCandidates clause end = refl
strip_fields-LacksCandidates clause (field k v fs) = elim (Bool-cases (k == "num_candidates")) [
  | inl e ↦ rw e (strip_fields-LacksCandidates clause fs)
  | inr e ↦ rw (e) (rw (e) (strip_fields-LacksCandidates clause fs))
]

-- A node below a clause.
strip_node-LacksCandidates :
    (clause : Bool) (v : Value) → LacksCandidates (strip_node true clause v)
unfolding strip_node
strip_node-LacksCandidates clause (obj fs) = strip_fields-LacksCandidates clause fs
strip_node-LacksCandidates clause v = tt

strip_fields-LackCandidates :
    (body : Bool) (fs : Fields) → LackCandidates (strip_fields body true fs)
unfolding strip_node
strip_fields-LackCandidates body end = tt
strip_fields-LackCandidates body (field k v fs) =
    elim (Bool-cases (body && (k == "num_candidates"))) [
      | inl e ↦ rw e (strip_fields-LackCandidates body fs)
      | inr e ↦
          rw e (strip_node-LacksCandidates (k == "knn") v, strip_fields-LackCandidates body fs)
    ]

-- A clause.
strip_node-IsStrippedClause : (body : Bool) (v : Value) → IsStrippedClause (strip_node body true v)
unfolding strip_node
strip_node-IsStrippedClause body (obj fs) = strip_fields-LackCandidates body fs
strip_node-IsStrippedClause body v = tt

mutual
  unfolding strip_node

  strip_node-IsStripped : (body clause : Bool) (v : Value) → IsStripped (strip_node body clause v)
  strip_node-IsStripped body clause (obj fs) = strip_fields-AreStripped body clause fs
  strip_node-IsStripped body clause (arr vs) = strip_items-ItemsStripped vs
  strip_node-IsStripped body clause null = tt
  strip_node-IsStripped body clause (str s) = tt
  strip_node-IsStripped body clause (bool b) = tt
  strip_node-IsStripped body clause (float n) = tt
  strip_node-IsStripped body clause (int z) = tt

  strip_fields-AreStripped :
      (body clause : Bool) (fs : Fields) → AreStripped (strip_fields body clause fs)
  strip_fields-AreStripped body clause end = tt
  strip_fields-AreStripped body clause (field k v fs) =
      elim (Bool-cases (body && (k == "num_candidates"))) [
        | inl e ↦ rw e (strip_fields-AreStripped body clause fs)
        | inr e ↦ rw e (
          λ is_knn. rw is_knn (strip_node-IsStrippedClause clause v),
          strip_node-IsStripped clause (k == "knn") v,
          strip_fields-AreStripped body clause fs,
        )
      ]

  strip_items-ItemsStripped : (vs : Items) → ItemsStripped (strip_items vs)
  strip_items-ItemsStripped nil = tt
  strip_items-ItemsStripped (cons v vs) =
      (strip_node-IsStripped false false v, strip_items-ItemsStripped vs)

-- The body that goes to OpenSearch has no `num_candidates` in a dictionary below a `knn` clause.
pub prepare_opensearch-IsStripped : (dsl : Value) → IsStripped (prepare_opensearch dsl)
unfolding prepare_opensearch
prepare_opensearch-IsStripped dsl = strip_node-IsStripped false false dsl

-- What a node of a stripped body is, by what its parent says of it.
abbrev IsDone : (body clause : Bool) → Value → Type 0
IsDone body clause v =
    (body ≡ true → LacksCandidates v) × (clause ≡ true → IsStrippedClause v) × IsStripped v

-- A field that a body without `num_candidates` keeps.
kept :
    (body : Bool) (k : String) (v : Value) (fs : Fields)
    → (body ≡ true → get "num_candidates" (fields (field k v fs)) ≡ none)
    → ((body && (k == "num_candidates")) ≡ false)
      × (body ≡ true → get "num_candidates" (fields fs) ≡ none)
unfolding get
kept false k v fs lacks = (refl, λ t. cc)
kept true k v fs lacks = elim (Bool-cases (k == "num_candidates")) [
  | inl e ↦ let found : some v ≡ none = rw e at (lacks refl) in cc (found)
  | inr e ↦ (e, λ t. rw e at (lacks refl))
]

mutual
  unfolding strip_node get

  strip_node-done :
      (body clause : Bool) (v : Value) → IsDone body clause v → strip_node body clause v ≡ v
  strip_node-done body clause (obj fs) (lacks, stripped, rest) =
      ap (λ gs. obj gs) (strip_fields-done body clause fs lacks stripped rest)
  strip_node-done body clause (arr vs) (_, _, rest) = ap (λ ws. arr ws) (strip_items-done vs rest)
  strip_node-done body clause null h = refl
  strip_node-done body clause (str s) h = refl
  strip_node-done body clause (bool b) h = refl
  strip_node-done body clause (float n) h = refl
  strip_node-done body clause (int z) h = refl

  strip_fields-done :
      (body clause : Bool) (fs : Fields)
      → (body ≡ true → get "num_candidates" (fields fs) ≡ none)
      → (clause ≡ true → LackCandidates fs)
      → AreStripped fs
      → strip_fields body clause fs ≡ fs
  strip_fields-done body clause end lacks stripped rest = refl
  strip_fields-done body clause (field k v fs) lacks stripped (knn, deep, rest) =
      let (stays, lacks') = kept body k v fs lacks in
      rw stays (
        ap₂ (λ w gs. field k w gs)
          (strip_node-done clause (k == "knn") v (λ c. (stripped c).0, knn, deep))
          (strip_fields-done body clause fs lacks' (λ c. (stripped c).1) rest))

  strip_items-done : (vs : Items) → ItemsStripped vs → strip_items vs ≡ vs
  strip_items-done nil h = refl
  strip_items-done (cons v vs) (deep, rest) =
      ap₂ cons (strip_node-done false false v (λ t. cc, λ t. cc, deep)) (strip_items-done vs rest)

-- A body in which no dictionary below a `knn` clause has `num_candidates` goes to OpenSearch as it is.
pub prepare_opensearch-done : (dsl : Value) → IsStripped dsl → prepare_opensearch dsl ≡ dsl
unfolding prepare_opensearch
prepare_opensearch-done dsl h = strip_node-done false false dsl (λ t. cc, λ t. cc, h)

-- A body whose query is one `knn` clause with a vector goes to Elasticsearch with the clause at the top, in
-- the form that is used there: no query is left, and the other entries stay.
pub prepare_elasticsearch-knn :
    (dsl : Dict Value) (name k : String) (body : Fields) (vector : Value)
    → get "query" dsl ≡ some (obj (field "knn" (obj (field name (obj body) end)) end))
    → present (get "vector" (fields body)) ≡ some vector
    → ("query" == k) ≡ false
    → ("knn" == k) ≡ false
    → (d : Dict Value) × (prepare_elasticsearch dsl ≡ ok (dict_of d))
      × (get "query" d ≡ none)
      × (get "knn" d
          ≡ some (
              dict_of (
                ("field", str name) ∷ ("query_vector", vector) ∷ taken_over "k" (fields body)
                ++ taken_over "num_candidates" (fields body))))
      × (get k d ≡ get k dsl)
unfolding prepare_elasticsearch convert_top convert_knn_clause
prepare_elasticsearch-knn dsl name k body vector query has_vector not_query not_knn = (
  without ("query" ∷ []) (put "knn" _ dsl),
  rw (query, prepare_elasticsearch) (rw has_vector refl),
  get-without-member "query" ("query" ∷ []) (put "knn" _ dsl) refl,
  get-without-other "knn" ("query" ∷ []) (put "knn" _ dsl) refl ∙ get-put_self "knn" _ dsl,
  get-without-other k ("query" ∷ []) (put "knn" _ dsl) (rw not_query refl)
      ∙ get-put k "knn" _ dsl
      ∙ rw not_knn refl,
)
