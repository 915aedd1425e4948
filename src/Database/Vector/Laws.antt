-- ===== src/Database/Vector/Laws.antt =====
-- The field for vectors after an index was prepared.
use bi_ble_atlas.Base.{
  ℕ, String, ◌≡◌, refl, sym, ap, ◌∙◌, subst, ◌⊎◌, inl, inr, Bool, true, false, Option, none, some,
  List, [], ◌∷◌, or_else, if◌then◌else◌, eq_refl,
}
use bi_ble_atlas.Base.Dict.{Dict, get}
use bi_ble_atlas.Base.Int.{ℤ}
use bi_ble_atlas.Base.Value.{Value, null, dict_of, fields-to_fields}
use bi_ble_atlas.Base.Result.{Result, ok, raise}
use bi_ble_atlas.Database.{
  Engine, opensearch, elasticsearch, DatabaseError, Exception, client, database, key_error,
  attribute_error, type_error, value_error, Runtime, get_or_null,
}
use bi_ble_atlas.Database.Client.{Client}
use bi_ble_atlas.Database.Step.{
  Step, pure, >>=-eq-ok, rescue-ok, rescue-state, read-step, lift-step,
}
use bi_ble_atlas.Database.Vector.{
  vector_mapping, first_content_vector_dims, mapping_properties, index_body, with_field, given_type,
  ef_search, is_type, call, catch_transport, put_width, ensure_field, ensure_in, ensure_dims,
  num_candidates_from_options, ensure_vector_index_mapping,
}

-- The field of vectors: the one for the documents, or the one that was there.
abbrev pub HasField : Engine → ℕ → (before after : Dict Value) → Type 0
HasField engine dims before after =
    (get "content_vector" after ≡ some (dict_of (vector_mapping engine dims)))
    ⊎ ((v : Value) × (get "content_vector" before ≡ some v) × (get "content_vector" after ≡ some v))

mapping_properties-response :
    (index : String) (p : Dict Value)
    → mapping_properties
        (dict_of
          ((index, dict_of (("mappings", dict_of (("properties", dict_of p) ∷ [])) ∷ [])) ∷ []))
        index
      ≡ p
unfolding mapping_properties get
mapping_properties-response index p = rw (eq_refl index) (fields-to_fields p)

get-index_body :
    (engine : Engine) (dims : ℕ) (num_candidates : Option ℤ)
    → get "mappings" (index_body engine dims num_candidates)
      ≡ some (dict_of (("properties", dict_of (with_field engine dims)) ∷ []))
unfolding index_body get
get-index_body opensearch dims num_candidates = refl
get-index_body elasticsearch dims num_candidates = refl

module _ (rt : Runtime) (c : Client) (engine : Engine) (index : String) where
  catch_transport-ok :
      {A : Type 0} (e : DatabaseError) (r : Result Exception A × c.State) {a : A}
      → (catch_transport rt c engine index e r).0 ≡ ok a
      → (r.0 ≡ ok a) × ((catch_transport rt c engine index e r).1 ≡ r.1)
  catch_transport-ok e (ok a, s) h = (h, refl)
  catch_transport-ok e (raise (client f), s) h = cc
  catch_transport-ok e (raise (database d), s) h = cc
  catch_transport-ok e (raise (key_error k), s) h = cc
  catch_transport-ok e (raise attribute_error, s) h = cc
  catch_transport-ok e (raise type_error, s) h = cc
  catch_transport-ok e (raise value_error, s) h = cc

  -- A type is only asked for a field that is there.
  given_field :
      (existing : Value) (o : Option Value) {type : Value}
      → or_else o null ≡ existing
      → given_type existing ≡ ok (some type)
      → o ≡ some existing
  given_field existing none {type} found given =
      let refused : ok none ≡ ok (some type) = rw (← found) at given in cc (refused)
  given_field existing (some v) found given = ap (λ x. some x) found

  -- The search width changes no field.
  put_width-properties :
      (engine' : Engine) (num_candidates : Option ℤ) (s : c.State)
      → c.properties (put_width rt c engine index engine' num_candidates s).1 index
        ≡ c.properties s index
  unfolding put_width
  put_width-properties opensearch none s = refl
  put_width-properties opensearch (some z) s =
      let settings = ("index", dict_of (ef_search (some z))) ∷ [] in
      ap (λ t. c.properties t index) (rescue-state client (c.put_settings index settings s))
      ∙ c.put_settings-ok index settings s
  put_width-properties elasticsearch num_candidates s = refl

  ensure_field-HasField :
      (dims : ℕ) (num_candidates : Option ℤ) (existing : Value) (o : Option Value) (s : c.State)
      {u : Unit {0}}
      → get_or_null "content_vector" (c.properties s index) ≡ existing
      → given_type existing ≡ ok o
      → (ensure_field rt c engine index dims num_candidates o s).0 ≡ ok u
      → HasField engine dims
          (c.properties s index)
          (c.properties (ensure_field rt c engine index dims num_candidates o s).1 index)
  unfolding ensure_field get
  ensure_field-HasField dims num_candidates existing none s found given e =
      let p = with_field engine dims in
      let (u, put, _, same) =
        >>=-eq-ok (call rt c engine index (c.put_mapping index (("properties", dict_of p) ∷ []))) _
          s e in
      let answered =
        rescue-ok client (c.put_mapping index (("properties", dict_of p) ∷ []) s) put in
      inl (
        ap (λ t. get "content_vector" (c.properties t index)) same
        ∙ ap (get "content_vector") (
            put_width-properties engine num_candidates _
            ∙ ap (λ t. c.properties t index)
                (rescue-state client (c.put_mapping index (("properties", dict_of p) ∷ []) s)))
        ∙ c.put_mapping-ok index "content_vector" p s answered)
  ensure_field-HasField dims num_candidates existing (some type) s found given e =
      let there = given_field existing (get "content_vector" (c.properties s index)) found given in
      inr (
        existing,
        there,
        ap (get "content_vector") (width_if-properties (is_type engine type)) ∙ there,
      )
    where
      width_if-properties :
          (b : Bool)
          → c.properties
              ((if b then put_width rt c engine index engine num_candidates else pure tt) s).1
              index
            ≡ c.properties s index
      width_if-properties true = put_width-properties engine num_candidates s
      width_if-properties false = refl

  ensure_in-HasField :
      (dims : ℕ) (num_candidates : Option ℤ) (there : Bool) (s : c.State) {u : Unit {0}}
      → (ensure_in rt c engine index dims num_candidates there s).0 ≡ ok u
      → HasField engine dims
          (c.properties s index)
          (c.properties (ensure_in rt c engine index dims num_candidates there s).1 index)
  unfolding ensure_in get
  ensure_in-HasField dims num_candidates false s e =
      let body = index_body engine dims num_candidates in
      inl (
        ap (λ t. get "content_vector" (c.properties t index))
          (rescue-state client (c.create_index index body s))
        ∙ ap (get "content_vector") (
            c.create_index-ok index body (with_field engine dims) s
              (get-index_body engine dims num_candidates)
              (rescue-ok client (c.create_index index body s) e)))
  ensure_in-HasField dims num_candidates true s e =
      let (response, asked, first) = read-step (c.get_mapping index) client _ s e in
      let shown =
        ap (λ v. mapping_properties v index) (c.get_mapping-ok index s asked)
        ∙ mapping_properties-response index (c.properties s index) in
      let (o, given, second) = lift-step _ _ s (ap (λ r. r.0) (sym first) ∙ e) in
      let both = first ∙ second in
      subst (λ r. HasField engine dims (c.properties s index) (c.properties r.1 index)) (sym both)
        (ensure_field-HasField dims num_candidates _ o s
          (ap (get_or_null "content_vector") (sym shown)) given (ap (λ r. r.0) (sym both) ∙ e))

  ensure_dims-HasField :
      (dims : ℕ) (num_candidates : Option ℤ) (s : c.State) {u : Unit {0}}
      → (ensure_dims rt c engine index dims num_candidates s).0 ≡ ok u
      → HasField engine dims
          (c.properties s index)
          (c.properties (ensure_dims rt c engine index dims num_candidates s).1 index)
  unfolding ensure_dims
  ensure_dims-HasField dims num_candidates s e =
      let (returned, caught) = catch_transport-ok _ _ e in
      let (there, asked, same) = read-step (c.exists index) client _ s returned in
      subst (λ t. HasField engine dims (c.properties s index) (c.properties t index))
        (ap (λ r. r.1) (sym same) ∙ sym caught)
        (ensure_in-HasField dims num_candidates there s (ap (λ r. r.0) (sym same) ∙ returned))

  -- Where the preparation of an index for documents with vectors returns, the index has a field for them:
  -- the one for the first of the vectors, or the one that was there, of whatever type and dimension.
  pub ensure_vector_index_mapping-HasField :
      (docs : List (Dict Value)) (vector_options : Option (Dict Value)) (dims : ℕ) (s : c.State)
      {u : Unit {0}}
      → first_content_vector_dims docs ≡ some dims
      → (ensure_vector_index_mapping rt c engine index docs vector_options s).0 ≡ ok u
      → HasField engine dims (c.properties s index) (
          c.properties
            (ensure_vector_index_mapping rt c engine index docs vector_options s).1
            index)
  unfolding ensure_vector_index_mapping
  ensure_vector_index_mapping-HasField docs vector_options dims s found e =
      let prepared =
        ap
          (λ o.
            (elim o as (λ x. Step c.State Exception (Unit {0})) [
              | none ↦ pure tt
              | some n ↦
                  ensure_dims rt c engine index n (num_candidates_from_options vector_options)
            ])
              s)
          found in
      subst (λ r. HasField engine dims (c.properties s index) (c.properties r.1 index))
        (sym prepared)
        (ensure_dims-HasField dims (num_candidates_from_options vector_options) s
          (ap (λ r. r.0) (sym prepared) ∙ e))
