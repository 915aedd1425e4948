-- ===== src/Upload/Binding/Laws.antt =====
-- What an import returns as its binding, against the document that the database then holds.
use mathlib.Core.Option
use bi_ble_atlas.Base.{
  String, ◌≡◌, refl, ap, ◌∙◌, true, Option, none, some, List, [], ◌∷◌, ◌++◌, ◌==◌, if◌then◌else◌,
  Bool-cases, inl, inr, arith, eq_iff, eq_refl, false, Bool,
}
use bi_ble_atlas.Base.Dict.{Dict, get, put}
use bi_ble_atlas.Base.Value.{Value, str}
use bi_ble_atlas.Base.Result.{Result, ok, raise}
use bi_ble_atlas.Upload.{Exception}
use bi_ble_atlas.Upload.Trace.{
  Event, created_binding, upgraded_binding, updated_binding, ◌>>=◌, ◌>>◌, pure, lift, emit,
}
use bi_ble_atlas.Upload.World.{IndexBinding, World}
use bi_ble_atlas.Upload.Binding.{
  Import, text_value, same_model, profile_json, profile_sha256, new_binding, binding_doc,
  create_binding, upgrade_model, upgrade_binding, get_or_create_binding, patch, update_if_needed,
  overwrite_binding, get_or_create_skill_binding,
}

-- The document of a binding.
unfoldable pub document : IndexBinding → Dict Value
document b =
    ("domain_type", str b.domain_type)
    ∷ ("kb_index", str b.kb_index)
    ∷ ("tag", str b.tag)
    ∷ ("parser_script_source", str b.parser_script_source)
    ∷ ("parser_script_sha256", str b.parser_script_sha256)
    ∷ ("vector_model", text_value b.vector_model)
    ∷ ("search_profile_json", str b.search_profile_json)
    ∷ ("search_profile_sha256", str b.search_profile_sha256)
    ∷ ("created_at", text_value b.created_at)
    ∷ []

-- Is the value the text of this index?
abbrev pub names : (kb_index : String) → Option Value → Bool
names kb_index (some (str index)) = index == kb_index
names kb_index _ = false

abbrev pub put_all : Dict Value → Dict Value → Dict Value
put_all [] d = d
put_all ((k, v) ∷ patch) d = put_all patch (put k v d)

-- The document of an index after one call, which changes it only where the call names this index.
abbrev pub called : (kb_index : String) → Event → Option (Dict Value) → Option (Dict Value)
called kb_index (created_binding doc) o =
    if names kb_index (get "kb_index" doc) then some doc else o
called kb_index (upgraded_binding index model) (some d) =
    if index == kb_index then some (put "vector_model" (str model) d) else some d
called kb_index (updated_binding index patch) (some d) =
    if index == kb_index then some (put_all patch d) else some d
called kb_index e o = o

-- The document of an index that the calls leave in the database.
abbrev pub replay : (kb_index : String) → List Event → Option (Dict Value) → Option (Dict Value)
replay kb_index [] o = o
replay kb_index (e ∷ es) o = replay kb_index es (called kb_index e o)

same_model-eq : (a b : Option String) → same_model a b ≡ true → a ≡ b
same_model-eq none none h = refl
same_model-eq (some a) (some b) h = ap (λ x. some x) (ground (arith, eq_iff a b))
same_model-eq none (some b) h = cc
same_model-eq (some a) none h = cc

put_all-append : (p q d : Dict Value) → put_all (p ++ q) d ≡ put_all q (put_all p d)
put_all-append [] q d = refl
put_all-append ((k, v) ∷ p) q d = put_all-append p q (put k v d)

text_eq : (a b : String) → (a == b) ≡ true → a ≡ b
text_eq a b h = ground (arith, eq_iff a b)

-- A document by its entries.
abbrev entries_of :
    (domain_type kb_index tag source sha256 : String)
    → Option String
    → (json json_sha256 : String) → Option String
    → Dict Value
entries_of d k t a b m j s c =
    ("domain_type", str d)
    ∷ ("kb_index", str k)
    ∷ ("tag", str t)
    ∷ ("parser_script_source", str a)
    ∷ ("parser_script_sha256", str b)
    ∷ ("vector_model", text_value m)
    ∷ ("search_profile_json", str j)
    ∷ ("search_profile_sha256", str s)
    ∷ ("created_at", text_value c)
    ∷ []

-- Each field of a patch, put or left out.
module _ (d k t : String) (c : Option String) where
  patch-model :
      (a b : String) (m m' : Option String) (j s : String)
      → put_all
          (if same_model m m' then [] else ("vector_model", text_value m') ∷ [])
          (entries_of d k t a b m j s c)
        ≡ entries_of d k t a b m' j s c
  unfolding put
  patch-model a b m m' j s = elim (Bool-cases (same_model m m')) [
    | inl e ↦ rw (e) (ap (λ x. entries_of d k t a b x j s c) (same_model-eq m m' e))
    | inr e ↦ rw (e) refl
  ]

  patch-source :
      (a a' b : String) (m : Option String) (j s : String)
      → put_all
          (if a == a' then [] else ("parser_script_source", str a') ∷ [])
          (entries_of d k t a b m j s c)
        ≡ entries_of d k t a' b m j s c
  unfolding put
  patch-source a a' b m j s = elim (Bool-cases (a == a')) [
    | inl e ↦ rw (e) (ap (λ x. entries_of d k t x b m j s c) (text_eq a a' e))
    | inr e ↦ rw (e) refl
  ]

  patch-sha256 :
      (a b b' : String) (m : Option String) (j s : String)
      → put_all
          (if b == b' then [] else ("parser_script_sha256", str b') ∷ [])
          (entries_of d k t a b m j s c)
        ≡ entries_of d k t a b' m j s c
  unfolding put
  patch-sha256 a b b' m j s = elim (Bool-cases (b == b')) [
    | inl e ↦ rw (e) (ap (λ x. entries_of d k t a x m j s c) (text_eq b b' e))
    | inr e ↦ rw (e) refl
  ]

  patch-profile :
      (a b : String) (m : Option String) (j j' s s' : String)
      → (s ≡ s' → j ≡ j')
      → put_all
          (if s == s'
            then []
            else ("search_profile_json", str j') ∷ ("search_profile_sha256", str s') ∷ [])
          (entries_of d k t a b m j s c)
        ≡ entries_of d k t a b m j' s' c
  unfolding put
  patch-profile a b m j j' s s' h = elim (Bool-cases (s == s')) [
    | inl e ↦ rw (e) (
        ap (λ x. entries_of d k t a b m x s c) (h (text_eq s s' e))
        ∙ ap (λ x. entries_of d k t a b m j' x c) (text_eq s s' e))
    | inr e ↦ rw (e) refl
  ]

-- The last step of an import of a binding: a call, then the binding.
call-ok :
    (r : Result Exception (Unit {0})) (c : IndexBinding) {b : IndexBinding}
    → (lift r >>= λ u. pure c).0 ≡ ok b
    → (c ≡ b) × ((lift r >>= λ u. pure c).1 ≡ [])
call-ok (ok u) c {b} e = let same : c ≡ b = cc (e) in (same, refl)
call-ok (raise x) c e = cc

update-ok :
    (event : Event) (r : Result Exception (Unit {0})) (c : IndexBinding) {b : IndexBinding}
    → ((emit event >> lift r) >>= λ u. pure c).0 ≡ ok b
    → (c ≡ b) × (((emit event >> lift r) >>= λ u. pure c).1 ≡ event ∷ [])
update-ok event (ok u) c {b} e = let same : c ≡ b = cc (e) in (same, refl)
update-ok event (raise x) c e = cc

-- A binding that stays.
stays-document :
    (old : IndexBinding) {b : IndexBinding}
    → ◌≡◌ {A = Result Exception IndexBinding} (ok old) (ok b)
    → replay old.kb_index [] (some (document old)) ≡ some (document b)
stays-document old {b} e = let same : old ≡ b = cc (e) in ap (λ x. some (document x)) same

module _ (world : World) (i : Import) where
  patch-document :
      (b : IndexBinding)
      → (b.search_profile_sha256 ≡ profile_sha256 world i
          → b.search_profile_json ≡ profile_json world i)
      → put_all (patch world i b) (document b)
        ≡ document (record {
          domain_type = b.domain_type;
          kb_index = b.kb_index;
          tag = b.tag;
          parser_script_source = i.parser_script_source;
          parser_script_sha256 = i.parser_script_sha256;
          vector_model = i.vector_model;
          search_profile_json = profile_json world i;
          search_profile_sha256 = profile_sha256 world i;
          is_active = b.is_active;
          created_at = b.created_at;
        })
  unfolding patch document
  patch-document b h =
      rw
        (
          put_all-append,
          put_all-append,
          put_all-append,
          patch-model b.domain_type b.kb_index b.tag b.created_at b.parser_script_source
              b.parser_script_sha256 b.vector_model i.vector_model b.search_profile_json
              b.search_profile_sha256,
          patch-source b.domain_type b.kb_index b.tag b.created_at b.parser_script_source
              i.parser_script_source b.parser_script_sha256 i.vector_model b.search_profile_json
              b.search_profile_sha256,
          patch-sha256 b.domain_type b.kb_index b.tag b.created_at i.parser_script_source
              b.parser_script_sha256 i.parser_script_sha256 i.vector_model b.search_profile_json
              b.search_profile_sha256,
          patch-profile b.domain_type b.kb_index b.tag b.created_at i.parser_script_source
              i.parser_script_sha256 i.vector_model b.search_profile_json (profile_json world i)
              b.search_profile_sha256 (profile_sha256 world i) h,
        )
        refl

  create_binding-document :
      (domain_type : String) (o : Option (Dict Value)) {b : IndexBinding}
      → (create_binding world i domain_type).0 ≡ ok b
      → (replay i.kb_index (create_binding world i domain_type).1 o ≡ some (document b))
        × (b.vector_model ≡ i.vector_model)
        × (b.search_profile_json ≡ profile_json world i)
  unfolding create_binding new_binding binding_doc document get
  create_binding-document domain_type o {b} e =
      let (same, quiet) =
        call-ok (world.create_index_binding (binding_doc world i domain_type))
          (new_binding world i domain_type) {b = b} e in
      (rw (quiet, ← same, eq_refl i.kb_index) refl, rw (← same) refl, rw (← same) refl)

  update_if_needed-put_all :
      (p d : Dict Value) (c : IndexBinding) {b : IndexBinding}
      → (update_if_needed world i p >>= λ u. pure c).0 ≡ ok b
      → (c ≡ b)
        × (replay i.kb_index (update_if_needed world i p >>= λ u. pure c).1 (some d)
            ≡ some (put_all p d))
  unfolding update_if_needed
  update_if_needed-put_all [] d c {b} e = let same : c ≡ b = cc (e) in (same, refl)
  update_if_needed-put_all (entry ∷ p) d c {b} e =
      let (same, quiet) =
        update-ok (updated_binding i.kb_index (entry ∷ p))
          (world.update_binding i.kb_index (entry ∷ p)) c {b = b} e in
      (same, rw (quiet, eq_refl i.kb_index) refl)

  overwrite_binding-document :
      (old : IndexBinding) {b : IndexBinding}
      → (old.search_profile_sha256 ≡ profile_sha256 world i
          → old.search_profile_json ≡ profile_json world i)
      → (overwrite_binding world i old).0 ≡ ok b
      → (replay i.kb_index (overwrite_binding world i old).1 (some (document old))
          ≡ some (document b))
        × (b.vector_model ≡ i.vector_model)
        × (b.search_profile_json ≡ profile_json world i)
  unfolding overwrite_binding
  overwrite_binding-document old {b} h e =
      let (same, replayed) =
        update_if_needed-put_all (patch world i old) (document old) _ {b = b} e in
      (
        replayed ∙ ap (λ x. some x) (patch-document old h ∙ ap document same),
        rw (← same) refl,
        rw (← same) refl,
      )

  upgrade_model-document :
      (m m' : Option String) (old : IndexBinding) {b : IndexBinding}
      → (upgrade_model world i m m' old).0 ≡ ok b
      → replay i.kb_index (upgrade_model world i m m' old).1 (some (document old))
        ≡ some (document b)
  unfolding upgrade_model document put
  upgrade_model-document (some m) m' old e = stays-document old e
  upgrade_model-document none none old e = stays-document old e
  upgrade_model-document none (some m) old {b} e =
      let (same, quiet) = call-ok (world.upgrade_binding_vector_model i.kb_index m) _ {b = b} e in
      rw (quiet, ← same, eq_refl i.kb_index) refl

  -- Where the import of a memory returns its binding, the calls that it made on the database for its index
  -- turn the document that was found, or none, into the document of that binding.
  pub get_or_create_binding-document :
      (o : Option IndexBinding) {b : IndexBinding}
      → world.get_binding_by_domain_index "MEMORY" i.kb_index ≡ ok o
      → (get_or_create_binding world i).0 ≡ ok b
      → replay i.kb_index (get_or_create_binding world i).1 (Option.map document o)
        ≡ some (document b)
  unfolding get_or_create_binding upgrade_binding
  get_or_create_binding-document none {b} found e =
      rw (found) (create_binding-document "MEMORY" none {b = b} (rw (found) at e)).0
  get_or_create_binding-document (some old) {b} found e =
      rw (found)
        (upgrade_model-document old.vector_model i.vector_model old {b = b} (rw (found) at e))

  -- Where the import of a skill returns its binding, and a stored profile with the hash of the new one is
  -- the new one, the calls that it made on the database for its index turn the document that was found, or
  -- none, into the document of that binding, which has the model and the profile of the import.
  pub get_or_create_skill_binding-document :
      (o : Option IndexBinding) {b : IndexBinding}
      → ((old : IndexBinding)
          → o ≡ some old
          → old.search_profile_sha256 ≡ profile_sha256 world i
          → old.search_profile_json ≡ profile_json world i)
      → world.get_binding_by_domain_index "SKILL" i.kb_index ≡ ok o
      → (get_or_create_skill_binding world i).0 ≡ ok b
      → (replay i.kb_index (get_or_create_skill_binding world i).1 (Option.map document o)
          ≡ some (document b))
        × (b.vector_model ≡ i.vector_model)
        × (b.search_profile_json ≡ profile_json world i)
  unfolding get_or_create_skill_binding
  get_or_create_skill_binding-document none {b} h found e =
      let (replayed, model, profile) =
        create_binding-document "SKILL" none {b = b} (rw (found) at e) in
      (rw (found) replayed, model, profile)
  get_or_create_skill_binding-document (some old) {b} h found e =
      let (replayed, model, profile) =
        overwrite_binding-document old {b = b} (h old refl) (rw (found) at e) in
      (rw (found) replayed, model, profile)
