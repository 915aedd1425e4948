-- ===== src/Database/Lookup/Laws.antt =====
-- What a lookup says of the documents of the database.
use bi_ble_atlas.Base.{
  String, ◌≡◌, refl, ap, ◌∙◌, ◌⊎◌, inl, inr, true, false, Option, none, some, Bool-cases, arith,
}
use bi_ble_atlas.Base.Dict.{Dict, get}
use bi_ble_atlas.Base.Value.{Value, fields-to_fields}
use bi_ble_atlas.Base.Result.{Result, ok, raise, >>=-eq-ok}
use bi_ble_atlas.Database.{
  Failure, not_found, conflict, transport, other, Runtime, IndexBinding, item, as_dict, get_or_null,
  post_init,
}
use bi_ble_atlas.Database.Client.{Client}
use bi_ble_atlas.Database.Lookup.{
  binding_doc_id, is_active_of, to_binding, active_binding, fetched, get_binding_by_domain_index,
}

-- A binding with the fields of a document.
pub record Describes (b : IndexBinding) (doc : Dict Value) : Type 0 where
  pub domain_type : get "domain_type" doc ≡ some b.domain_type
  pub kb_index : get "kb_index" doc ≡ some b.kb_index
  pub tag : get "tag" doc ≡ some b.tag
  pub parser_script_source : get "parser_script_source" doc ≡ some b.parser_script_source
  pub parser_script_sha256 : get "parser_script_sha256" doc ≡ some b.parser_script_sha256
  pub search_profile_sha256 : get "search_profile_sha256" doc ≡ some b.search_profile_sha256
  pub vector_model : get_or_null "vector_model" doc ≡ b.vector_model
  pub is_active : is_active_of doc ≡ b.is_active

pub to_binding-Describes :
    (rt : Runtime) (doc : Dict Value) {b : IndexBinding}
    → to_binding rt doc ≡ ok b
    → Describes b doc
unfolding to_binding item
to_binding-Describes rt doc {b} e = ground arith

-- The rest of the fields: the profile as `__post_init__` made it of that of the document, and the times.
pub record Carries (rt : Runtime) (b : IndexBinding) (doc : Dict Value) : Type 0 where
  pub profile : Value
  pub stored_profile : get "search_profile_json" doc ≡ some profile
  pub search_profile_json : post_init rt profile ≡ ok b.search_profile_json
  pub created_at : get_or_null "created_at" doc ≡ b.created_at
  pub updated_at : get_or_null "updated_at" doc ≡ b.updated_at
  pub deleted_at : get_or_null "deleted_at" doc ≡ b.deleted_at

item-eq-ok : (k : String) (d : Dict Value) {v : Value} → item k d ≡ ok v → get k d ≡ some v
unfolding item
item-eq-ok k d e = ground arith

pub to_binding-Carries :
    (rt : Runtime) (doc : Dict Value) {b : IndexBinding}
    → to_binding rt doc ≡ ok b
    → Carries rt b doc
unfolding to_binding
to_binding-Carries rt doc {b} e =
    let (v1, _, e) = >>=-eq-ok (item "domain_type" doc) _ e in
    let (v2, _, e) = >>=-eq-ok (item "kb_index" doc) _ e in
    let (v3, _, e) = >>=-eq-ok (item "tag" doc) _ e in
    let (v4, _, e) = >>=-eq-ok (item "parser_script_source" doc) _ e in
    let (v5, _, e) = >>=-eq-ok (item "parser_script_sha256" doc) _ e in
    let (stored, there, e) = >>=-eq-ok (item "search_profile_json" doc) _ e in
    let (v7, _, e) = >>=-eq-ok (item "search_profile_sha256" doc) _ e in
    let (profile, decoded, e) = >>=-eq-ok (post_init rt stored) _ e in
    record {
      profile = stored;
      stored_profile = item-eq-ok "search_profile_json" doc there;
      search_profile_json = decoded ∙ ap ok (cc (e));
      created_at = cc (e);
      updated_at = cc (e);
      deleted_at = cc (e);
    }

-- A document that stands for a binding is read as that binding.
pub active_binding-some :
    (rt : Runtime) (doc : Dict Value) {b : IndexBinding}
    → active_binding rt doc ≡ ok (some b)
    → to_binding rt doc ≡ ok b
unfolding active_binding
active_binding-some rt doc {b} e = elim (Bool-cases (is_active_of doc)) [
  | inl active ↦
      let (b', bound, same) = >>=-eq-ok (to_binding rt doc) (λ b. ok (some b)) (rw active at e) in
      let one : b' ≡ b = cc (same) in bound ∙ ap ok one
  | inr inactive ↦ let same : ok none ≡ ok (some b) = rw inactive at e in cc (same)
]

-- What a document that was found stands for: a binding if it is active, and nothing otherwise.
pub active_binding-cases :
    (rt : Runtime) (doc : Dict Value) {o : Option IndexBinding}
    → active_binding rt doc ≡ ok o
    → ((is_active_of doc ≡ false) × (o ≡ none))
      ⊎ ((b : IndexBinding) × (o ≡ some b) × (is_active_of doc ≡ true) × Describes b doc)
unfolding active_binding
active_binding-cases rt doc {o} e = elim (Bool-cases (is_active_of doc)) [
  | inl active ↦
      let (b, bound, same) = >>=-eq-ok (to_binding rt doc) (λ b. ok (some b)) (rw active at e) in
      inr (b, cc (same), active, to_binding-Describes rt doc bound)
  | inr inactive ↦ let same : ok none ≡ ok o = rw inactive at e in inl (inactive, cc (same))
]

module _ (rt : Runtime) (c : Client) (index domain kb_index : String) (s : c.State) where
  fetched-documents :
      (r : Result Failure (Dict Value)) {o : Option IndexBinding}
      → c.fetch index (binding_doc_id domain kb_index) s ≡ r
      → fetched rt c index domain kb_index r ≡ ok o
      → ((c.documents s index (binding_doc_id domain kb_index) ≡ none) × (o ≡ none))
        ⊎ ((d : Dict Value) × (c.documents s index (binding_doc_id domain kb_index) ≡ some d)
            × (active_binding rt d ≡ ok o))
  unfolding fetched as_dict
  fetched-documents (ok resp) asked e =
      let (d, there, source) = c.fetch-ok index (binding_doc_id domain kb_index) s asked in
      inr (d, there, rw (fields-to_fields d) at (rw source at e))
  fetched-documents (raise not_found) asked e =
      inl (c.fetch-not_found index (binding_doc_id domain kb_index) s asked, cc)
  fetched-documents (raise conflict) asked e = cc
  fetched-documents (raise transport) asked e = cc
  fetched-documents (raise (other text)) asked e = cc

  -- A lookup that is answered gives what the document with the binding's id stands for, or none where
  -- there is no such document.
  pub get_binding-documents :
      {o : Option IndexBinding}
      → get_binding_by_domain_index rt c index domain kb_index s ≡ ok o
      → ((c.documents s index (binding_doc_id domain kb_index) ≡ none) × (o ≡ none))
        ⊎ ((d : Dict Value) × (c.documents s index (binding_doc_id domain kb_index) ≡ some d)
            × (active_binding rt d ≡ ok o))
  unfolding get_binding_by_domain_index
  get_binding-documents e =
      fetched-documents (c.fetch index (binding_doc_id domain kb_index) s) refl e
