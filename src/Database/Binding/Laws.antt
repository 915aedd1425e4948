-- ===== src/Database/Binding/Laws.antt =====
-- What the writes of a binding leave for its lookups.
use bi_ble_atlas.Base.{
  String, ◌≡◌, ◌≢◌, refl, sym, ap, ap₂, subst, ◌∙◌, ◌⊎◌, inl, inr, true, false, Option, none, some,
  [], ◌∷◌, or_else, if◌then◌else◌, Option-cases, arith, eq_iff,
}
use bi_ble_atlas.Base.Dict.{Dict, get, put, has, get-put, get-put_self}
use bi_ble_atlas.Base.Value.{Value, str, bool}
use bi_ble_atlas.Base.Result.{Result, ok}
use bi_ble_atlas.Database.{Runtime, IndexBinding, item}
use bi_ble_atlas.Database.Client.{Client, Script, written, written_self, run_script, assign_all}
use bi_ble_atlas.Database.Step.{Step, lift, ◌>>=◌, >>=-eq-ok, called-ok}
use bi_ble_atlas.Database.Lookup.{
  binding_doc_id, is_active_of, get_binding_by_domain_index, active_binding,
}
use bi_ble_atlas.Database.Lookup.Laws.{
  Describes, to_binding-Carries, active_binding-some, active_binding-cases, get_binding-documents,
}
use bi_ble_atlas.Database.Binding.{
  payload_of, create_document, check_complete, create_failed, update_failed, create_index_binding,
  run_update, deactivation, deactivate_binding, model_upgrade, upgrade_binding_vector_model,
  set_clauses, patch_script, update_binding,
}
use bi_ble_atlas.Database.Binding.Payload.{
  is_active_of-payload_of, Describes-payload_of, IsCreated, IsCreated-payload_of,
}

known_step :
    {S E A B : Type 0} (r : Result E A) (f : A → Step S E B) (s : S) {a : A}
    → r ≡ ok a
    → (lift r >>= f) s ≡ f a s
known_step r f s e = rw e refl

item-ok : (k : String) (d : Dict Value) {v : Value} → get k d ≡ some v → item k d ≡ ok v
unfolding item
item-ok k d e = rw (e, item) refl

-- The assignments of a patch: each of its keys gets the value of the patch, the others stay.
get-set_clauses :
    (j : String) (params p d : Dict Value)
    → get j (assign_all params (set_clauses p) d)
      ≡ (if has j p then some (or_else (get j params) Value.null) else get j d)
unfolding get
get-set_clauses j params [] d = refl
get-set_clauses j params ((k, v) ∷ p) d = ground (
  arith,
  eq_iff k j,
  get-set_clauses j params p (put k (or_else (get k params) Value.null) d),
  get-put j k (or_else (get k params) Value.null) d,
)

-- What a lookup found where the document is known.
known-lookup :
    (rt : Runtime) (found : Option (Dict Value)) (d : Dict Value) {o : Option IndexBinding}
    → ((found ≡ none) × (o ≡ none))
      ⊎ ((d' : Dict Value) × (found ≡ some d') × (active_binding rt d' ≡ ok o))
    → found ≡ some d
    → active_binding rt d ≡ ok o
known-lookup rt found d (inl (missing, nothing)) there = cc
known-lookup rt found d (inr (d', found_there, active)) there = cc

-- An inactive document stands for nothing.
inactive-none :
    (rt : Runtime) (d : Dict Value) {o : Option IndexBinding}
    → active_binding rt d ≡ ok o
    → is_active_of d ≡ false
    → o ≡ none
inactive-none rt d active inactive = elim (active_binding-cases rt d active) [
  | inl (_, nothing) ↦ nothing
  | inr (b, _, is_active, _) ↦ cc
]

-- What comes first of two optional values.
abbrev pub first_some : Option Value → Option Value → Option Value
first_some none b = b
first_some (some a) b = some a

-- A patch that a script applies: its entries before those of the document.
pub get-patched :
    (j : String) (p d : Dict Value)
    → get j (assign_all p (set_clauses p) d) ≡ first_some (get j p) (get j d)
get-patched j p d = elim (Option-cases (get j p)) [
  | inl e ↦ get-set_clauses j p p d ∙ rw (e) refl
  | inr (v, e) ↦ get-set_clauses j p p d ∙ rw (e) refl
]

module _ (rt : Runtime) (c : Client) (index now domain kb_index : String) where
  -- An update of a binding that returned: the document was there, and the script has run on it alone.
  run_update-documents :
      (message : String) (script : Script) (s : c.State) {answer : Dict Value}
      → (run_update rt c index now message domain kb_index script s).0 ≡ ok answer
      → (d : Dict Value) × (c.documents s index (binding_doc_id domain kb_index) ≡ some d)
        × ((j l : String)
            → c.documents (run_update rt c index now message domain kb_index script s).1 j l
              ≡ written index
                  (binding_doc_id domain kb_index)
                  (run_script script d)
                  (c.documents s)
                  j
                  l)
  unfolding run_update
  run_update-documents message script s e =
      let (resp, returned, _, same) =
        called-ok (update_failed rt c index now message domain kb_index) _
          (c.update index (binding_doc_id domain kb_index) script s) e in
      let (d, there, after) =
        c.update-ok index (binding_doc_id domain kb_index) script s returned in
      (d, there, λ j l. ap (λ t. c.documents t j l) same ∙ after j l)

  -- A lookup after an update gives what the script has made of the document.
  updated-lookup :
      (message : String) (script : Script) (s : c.State) {answer : Dict Value}
      {o : Option IndexBinding}
      → (run_update rt c index now message domain kb_index script s).0 ≡ ok answer
      → get_binding_by_domain_index rt c index domain kb_index
          (run_update rt c index now message domain kb_index script s).1
        ≡ ok o
      → (d : Dict Value) × (c.documents s index (binding_doc_id domain kb_index) ≡ some d)
        × (active_binding rt (run_script script d) ≡ ok o)
  updated-lookup message script s updated found =
      let (d, there, after) = run_update-documents message script s updated in
      (
        d,
        there,
        known-lookup rt _ _ (get_binding-documents rt c index domain kb_index _ found) (
            after index (binding_doc_id domain kb_index)
            ∙ written_self index (binding_doc_id domain kb_index) _ (c.documents s)),
      )

  -- After a binding is deactivated, a lookup that is answered finds none.
  pub deactivate_binding-lookup :
      (s : c.State) {answer : Dict Value} {o : Option IndexBinding}
      → (deactivate_binding rt c index now domain kb_index s).0 ≡ ok answer
      → get_binding_by_domain_index rt c index domain kb_index
          (deactivate_binding rt c index now domain kb_index s).1
        ≡ ok o
      → o ≡ none
  unfolding deactivate_binding deactivation get
  deactivate_binding-lookup s deactivated found =
      let (d, there, active) = updated-lookup _ _ s deactivated found in
      inactive-none rt (run_script (deactivation rt c index now) d) active (
        rw
          (
            get-put "is_active" "updated_at" (str now) _,
            get-put "is_active" "deleted_at" (str now) _,
            get-put_self "is_active" (bool false) d,
          )
          refl)

  -- A model that was added to a binding is the one that a lookup finds, whose other fields are as before.
  pub upgrade_binding_vector_model-lookup :
      (vector_model : String) (s : c.State) {answer : Dict Value} {o : Option IndexBinding}
      → (upgrade_binding_vector_model rt c index now domain kb_index vector_model s).0 ≡ ok answer
      → get_binding_by_domain_index rt c index domain kb_index
          (upgrade_binding_vector_model rt c index now domain kb_index vector_model s).1
        ≡ ok o
      → (d : Dict Value) × (c.documents s index (binding_doc_id domain kb_index) ≡ some d)
        × (active_binding rt (put "updated_at" (str now) (put "vector_model" (str vector_model) d))
            ≡ ok o)
  unfolding upgrade_binding_vector_model model_upgrade get
  upgrade_binding_vector_model-lookup vector_model s upgraded found =
      updated-lookup _ _ s upgraded found

  -- A creation that returned: there was no document, and there is the one that was given, with the
  -- times and the mark of activity.
  create_document-documents :
      (doc : Dict Value) (s : c.State) {answer : Dict Value}
      → (create_document rt c index now (str domain) (str kb_index) doc s).0 ≡ ok answer
      → (c.documents s index (binding_doc_id domain kb_index) ≡ none)
        × (c.documents
              (create_document rt c index now (str domain) (str kb_index) doc s).1
              index
              (binding_doc_id domain kb_index)
            ≡ some (payload_of now doc))
  unfolding create_document
  create_document-documents doc s created =
      let id = binding_doc_id (rt.str_of (str domain)) (rt.str_of (str kb_index)) in
      let (resp, returned, _, same) =
        called-ok (create_failed rt c index now (str domain) (str kb_index)) _
          (c.create index id (payload_of now doc) s) created in
      let (absent, after) = c.create-ok index id (payload_of now doc) s returned in
      subst
        (λ k.
          (c.documents s index k ≡ none)
          × (c.documents (create_document rt c index now (str domain) (str kb_index) doc s).1 index
                k
              ≡ some (payload_of now doc)))
        (ap₂ binding_doc_id (rt.str_of-str domain) (rt.str_of-str kb_index))
        (
          absent,
          ap (λ t. c.documents t index id) same
              ∙ after index id
              ∙ written_self index id _ (c.documents s),
        )

  create_index_binding-create_document :
      (doc : Dict Value) (s : c.State) {answer : Dict Value}
      → get "domain_type" doc ≡ some (str domain)
      → get "kb_index" doc ≡ some (str kb_index)
      → (create_index_binding rt c index now doc s).0 ≡ ok answer
      → create_index_binding rt c index now doc s
        ≡ create_document rt c index now (str domain) (str kb_index) doc s
  unfolding create_index_binding
  create_index_binding-create_document doc s of_domain of_index created =
      let (u, checked, _, _) = >>=-eq-ok (lift (check_complete doc)) _ s created in
      known_step (check_complete doc) _ s checked
      ∙ known_step (item "domain_type" doc) _ s (item-ok "domain_type" doc of_domain)
      ∙ known_step (item "kb_index" doc) _ s (item-ok "kb_index" doc of_index)

  -- A binding that was created as active is the one that a lookup that is answered finds: it has the fields of the
  -- document that was given, its profile as it is decoded, and the times of the creation, but
  -- for a time of creation that the document already has.
  pub create_index_binding-lookup :
      (doc : Dict Value) (s : c.State) {answer : Dict Value} {o : Option IndexBinding}
      → get "domain_type" doc ≡ some (str domain)
      → get "kb_index" doc ≡ some (str kb_index)
      → is_active_of doc ≡ true
      → (create_index_binding rt c index now doc s).0 ≡ ok answer
      → get_binding_by_domain_index rt c index domain kb_index
          (create_index_binding rt c index now doc s).1
        ≡ ok o
      → (b : IndexBinding) × (o ≡ some b) × Describes b doc × IsCreated rt now b doc
  create_index_binding-lookup doc s of_domain of_index active created found =
      let same = create_index_binding-create_document doc s of_domain of_index created in
      let (_, there) = create_document-documents doc s (ap (λ r. r.0) (sym same) ∙ created) in
      let stands =
        known-lookup rt _ (payload_of now doc)
          (get_binding-documents rt c index domain kb_index _ found)
          (ap (λ r. c.documents r.1 index (binding_doc_id domain kb_index)) same ∙ there) in
      elim (active_binding-cases rt (payload_of now doc) stands) [
        | inl (inactive, _) ↦ cc (inactive, is_active_of-payload_of now doc, active)
        | inr (b, found_b, _, described) ↦ (
          b,
          found_b,
          Describes-payload_of now doc described,
          IsCreated-payload_of rt now doc (
              to_binding-Carries rt (payload_of now doc)
                (active_binding-some rt (payload_of now doc) (stands ∙ ap ok found_b))),
        )
      ]

  -- In the state that a deactivation leaves, no creation of a binding of the same domain and index
  -- succeeds.
  pub deactivate_binding-create :
      (s : c.State) (doc : Dict Value) {answer created : Dict Value}
      → get "domain_type" doc ≡ some (str domain)
      → get "kb_index" doc ≡ some (str kb_index)
      → (deactivate_binding rt c index now domain kb_index s).0 ≡ ok answer
      → (create_index_binding rt c index now doc
          (deactivate_binding rt c index now domain kb_index s).1).0
        ≢ ok created
  unfolding deactivate_binding
  deactivate_binding-create s doc of_domain of_index deactivated created =
      let (d, there, after) = run_update-documents _ _ s deactivated in
      let t = (deactivate_binding rt c index now domain kb_index s).1 in
      let same = create_index_binding-create_document doc t of_domain of_index created in
      let (absent, _) = create_document-documents doc t (ap (λ r. r.0) (sym same) ∙ created) in
      cc (
        absent,
        after index (binding_doc_id domain kb_index)
            ∙ written_self index (binding_doc_id domain kb_index) _ (c.documents s),
      )

  -- After an update of a binding, an active lookup shows the patch and the time over what there was.
  pub update_binding-lookup :
      (patch : Dict Value) (s : c.State) {answer : Dict Value} {o : Option IndexBinding}
      → (update_binding rt c index now domain kb_index patch s).0 ≡ ok answer
      → get_binding_by_domain_index rt c index domain kb_index
          (update_binding rt c index now domain kb_index patch s).1
        ≡ ok o
      → (d d' : Dict Value) × (c.documents s index (binding_doc_id domain kb_index) ≡ some d)
        × (active_binding rt d' ≡ ok o)
        × ((k : String)
            → get k d' ≡ first_some (get k (put "updated_at" (str now) patch)) (get k d))
  unfolding update_binding patch_script
  update_binding-lookup patch s updated found =
      let (d, there, active) = updated-lookup _ _ s updated found in
      (
        d,
        run_script (patch_script rt c index now patch) d,
        there,
        active,
        λ k. get-patched k (put "updated_at" (str now) patch) d,
      )
