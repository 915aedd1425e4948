-- ===== src/Upload/Skill/Package/Laws.antt =====
-- A package that is accepted holds one directory and nothing beside it.
use bi_ble_atlas.Base.{
  String, ◌≡◌, refl, sym, ap, ◌∙◌, Bool, true, false, not, List, [], ◌∷◌, filter, is_empty,
  Bool-cases, inl, inr,
}
use bi_ble_atlas.Base.Result.{ok, >>=-eq-ok, raise_if-eq-ok}
use bi_ble_atlas.Upload.Skill.Package.{
  Machine, is_directory, only_dir, validate_single_top_level_dir,
}

module _ {ℓ} {A : Type ℓ} where
  filter-rest :
      (p : A → Bool) (xs : List A) → is_empty (filter (λ x. not (p x)) xs) ≡ true → filter p xs ≡ xs
  unfolding filter
  filter-rest p [] h = refl
  filter-rest p (x ∷ xs) h = elim (Bool-cases (p x)) [
    | inl yes' ↦ rw (yes', filter-rest p xs (rw (yes') at h)) refl
    | inr no' ↦ cc (rw (no') at h)
  ]

  filter-one :
      (p : A → Bool) (xs : List A) {x : A} {ys : List A} → filter p xs ≡ x ∷ ys → p x ≡ true
  unfolding filter
  filter-one p [] h = cc
  filter-one p (y ∷ ys) {x} h = elim (Bool-cases (p y)) [
    | inl yes' ↦ (let same : y ≡ x = cc (rw (yes') at h) in ap p (sym same) ∙ yes')
    | inr no' ↦ filter-one p ys (rw (no') at h)
  ]

not-false : (b : Bool) → not b ≡ false → b ≡ true
not-false true h = refl
not-false false h = cc

only_dir-ok : (m : Machine) (ds : List String) {d : String} → only_dir m ds ≡ ok d → ds ≡ d ∷ []
only_dir-ok m [] h = cc
only_dir-ok m (e ∷ []) {d} h = let same : e ≡ d = cc (h) in ap (λ x. x ∷ []) same
only_dir-ok m (d ∷ e ∷ ds) h = cc

-- The name that the check of an extracted package returns is that of its only entry, a directory.
pub validate_single_top_level_dir-ok :
    (m : Machine) (extract_dir : String) {skill_name : String}
    → validate_single_top_level_dir m extract_dir ≡ ok skill_name
    → (m.listdir extract_dir ≡ ok (skill_name ∷ []))
      × (m.is_dir (m.paths.join extract_dir skill_name) ≡ true)
unfolding validate_single_top_level_dir
validate_single_top_level_dir-ok m extract_dir h =
    let (entries, listed, h) = >>=-eq-ok (m.listdir extract_dir) _ h in
    let (some_entry, h) = raise_if-eq-ok (is_empty entries) _ _ h in
    let (no_files, h) =
      raise_if-eq-ok
        (not (is_empty (filter (λ entry. not (is_directory m extract_dir entry)) entries))) _ _ h in
    let one = only_dir-ok m (filter (is_directory m extract_dir) entries) h in
    let all_dirs = filter-rest (is_directory m extract_dir) entries (not-false _ no_files) in
    (
      listed ∙ ap (λ xs. ok xs) (sym all_dirs ∙ one),
      filter-one (is_directory m extract_dir) entries one,
    )
