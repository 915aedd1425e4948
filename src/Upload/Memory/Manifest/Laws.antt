-- ===== src/Upload/Memory/Manifest/Laws.antt =====
-- The files of an accepted manifest: their references are distinct, and meta.json is told apart from
-- the attachments.
use bi_ble_atlas.Base.{
  ◌⊎◌, ◌≢◌, length, String, ◌≡◌, refl, subst, ap, Bool, true, false, not, ◌||◌, List, [], ◌∷◌, ◌==◌,
  member, filter, All, arith, eq_iff, eq_refl, Bool-cases, inl, inr,
}
use bi_ble_atlas.Base.Dict.{get}
use bi_ble_atlas.Base.Value.{Value}
use bi_ble_atlas.Base.Result.{ok, raise, >>=-eq-ok, raise_if-eq-ok}
use bi_ble_atlas.Upload.{Exception, value_error, no_meta, many_metas, Runtime, as_dict, stripped}
use bi_ble_atlas.Upload.Memory.Manifest.{
  UploadedFile, number_or_zero, load_entry, load_entries, entries_of, load_manifest, is_meta,
  split_at, split_meta_and_attachments,
}

-- No reference is among those seen before it.
abbrev pub Fresh : List String → List UploadedFile → Type 0
Fresh seen [] = Unit {0}
Fresh seen (f ∷ fs) =
    (member f.file_ref seen ≡ false) × ((f.file_ref == "") ≡ false) × Fresh (f.file_ref ∷ seen) fs

pub Fresh-All :
    (x : String) (seen : List String) (fs : List UploadedFile)
    → member x seen ≡ true
    → Fresh seen fs
    → All (λ (f : UploadedFile). (f.file_ref == x) ≡ false) fs
Fresh-All x seen [] h k = tt
Fresh-All x seen (f ∷ fs) h (new, given, k) =
    (ground (arith, eq_iff f.file_ref x), Fresh-All x (f.file_ref ∷ seen) fs (ground arith) k)

module _ {ℓ} {A : Type ℓ} where
  filter-head :
      (p : A → Bool) (Q : A → Type 0) (xs : List A) {m : A} {ms : List A}
      → filter p xs ≡ m ∷ ms
      → All Q xs
      → Q m
  unfolding filter
  filter-head p Q [] e h = cc
  filter-head p Q (x ∷ xs) {m} e (q, h) = elim (Bool-cases (p x)) [
    | inl yes' ↦ (let same : x ≡ m = cc (rw yes' at e) in subst Q same q)
    | inr no' ↦ filter-head p Q xs (rw no' at e) h
  ]

  filter-All : (p : A → Bool) (xs : List A) → All (λ x. p x ≡ true) xs → filter p xs ≡ xs
  unfolding filter
  filter-All p [] h = refl
  filter-All p (x ∷ xs) (q, h) = rw (q, filter-All p xs h) refl

  filter-none : (p : A → Bool) (xs : List A) → filter p xs ≡ [] → filter (λ x. not (p x)) xs ≡ xs
  unfolding filter
  filter-none p [] h = refl
  filter-none p (x ∷ xs) h = elim (Bool-cases (p x)) [
    | inl yes' ↦ cc (rw yes' at h)
    | inr no' ↦ rw (no', filter-none p xs (rw no' at h)) refl
  ]

pub eq_flip : (f g : String) → (f == g) ≡ false → (g == f) ≡ false
eq_flip f g h = ground (arith, eq_iff f g, eq_iff g f)

All-not :
    (x : String) (fs : List UploadedFile)
    → All (λ (f : UploadedFile). (f.file_ref == x) ≡ false) fs
    → All (λ (f : UploadedFile). not (f.file_ref == x) ≡ true) fs
All-not x [] h = tt
All-not x (f ∷ fs) (q, h) = (ap not q, All-not x fs h)

module _ (rt : Runtime) where
  load_entry-Fresh :
      (seen : List String) (item : Value) {f : UploadedFile}
      → load_entry rt seen item ≡ ok f
      → (member f.file_ref seen ≡ false) × ((f.file_ref == "") ≡ false)
  unfolding load_entry
  load_entry-Fresh seen item {f} h =
      let (d, a, h) = >>=-eq-ok (as_dict item) _ h in
      let file_ref = stripped rt "file_ref" d in
      let (given, h) =
        raise_if-eq-ok
          (file_ref == "" || stripped rt "filename" d == "" || stripped rt "abs_path" d == "") _ _
          h in
      let (new, h) = raise_if-eq-ok (member file_ref seen) _ _ h in
      let (size, b, h) = >>=-eq-ok (rt.to_int (number_or_zero "size_bytes" d)) _ h in
      let same : stripped rt "file_ref" d ≡ f.file_ref = cc (h) in
      rw (← same) (new, ground (arith, given))

  load_entries-Fresh :
      (seen : List String) (vs : List Value) {fs : List UploadedFile}
      → load_entries rt seen vs ≡ ok fs
      → Fresh seen fs
  unfolding load_entries
  load_entries-Fresh seen [] {fs} h = let same : [] ≡ fs = cc (h) in subst (Fresh seen) same tt
  load_entries-Fresh seen (v ∷ vs) {fs} h =
      let (f, at_f, h) = >>=-eq-ok (load_entry rt seen v) _ h in
      let (rest, at_rest, h) = >>=-eq-ok (load_entries rt (f.file_ref ∷ seen) vs) _ h in
      let (new, given) = load_entry-Fresh seen v at_f in
      let same : f ∷ rest ≡ fs = cc (h) in
      subst (Fresh seen) same (new, given, load_entries-Fresh (f.file_ref ∷ seen) vs at_rest)

  filter-meta :
      (seen : List String) (fs : List UploadedFile) {m : UploadedFile}
      → Fresh seen fs
      → filter (is_meta rt) fs ≡ m ∷ []
      → filter (λ (f : UploadedFile). not (f.file_ref == m.file_ref)) fs
        ≡ filter (λ (f : UploadedFile). not (is_meta rt f)) fs
  unfolding filter
  filter-meta seen [] fresh e = cc
  filter-meta seen (f ∷ fs) {m} (new, given, fresh) e = elim (Bool-cases (is_meta rt f)) [
    | inl found ↦
        let one : f ∷ filter (is_meta rt) fs ≡ m ∷ [] = rw found at e in
        let same : f ≡ m = cc (one) in
        let others : filter (is_meta rt) fs ≡ [] = cc (one) in
        let kept : filter (λ (g : UploadedFile). not (g.file_ref == f.file_ref)) fs ≡ fs =
          filter-All (λ (g : UploadedFile). not (g.file_ref == f.file_ref)) fs
            (All-not f.file_ref fs (
              Fresh-All f.file_ref (f.file_ref ∷ seen) fs (ground (arith, eq_refl f.file_ref))
                fresh)) in
        subst
          (λ (x : UploadedFile).
            filter (λ (g : UploadedFile). not (g.file_ref == x.file_ref)) (f ∷ fs)
            ≡ filter (λ (g : UploadedFile). not (is_meta rt g)) (f ∷ fs))
          same (rw (found, eq_refl f.file_ref, kept, filter-none (is_meta rt) fs others) refl)
    | inr not_found ↦
        let later : filter (is_meta rt) fs ≡ m ∷ [] = rw not_found at e in
        let apart =
          filter-head (is_meta rt) (λ (g : UploadedFile). (g.file_ref == f.file_ref) ≡ false) fs
            later
            (Fresh-All f.file_ref (f.file_ref ∷ seen) fs (ground (arith, eq_refl f.file_ref))
              fresh) in
        rw
          (
            not_found,
            eq_flip m.file_ref f.file_ref apart,
            filter-meta (f.file_ref ∷ seen) fs fresh later,
          )
          refl
  ]

  -- A split of files with distinct references: it gives the one file that is named meta.json, in any case,
  -- and all the others in their order, or it raises, where no file or more than one is named so.
  abbrev pub SplitOf : List UploadedFile → Type 0
  SplitOf files =
      ((meta : UploadedFile) × (filter (is_meta rt) files ≡ meta ∷ [])
        × (split_meta_and_attachments rt files
            ≡ ok (meta, filter (λ (f : UploadedFile). not (is_meta rt f)) files)))
      ⊎ ((e : Exception) × (split_meta_and_attachments rt files ≡ raise e)
          × (length (filter (is_meta rt) files) ≢ 1))

  Fresh-SplitOf : (files : List UploadedFile) → Fresh [] files → SplitOf files
  unfolding split_meta_and_attachments
  Fresh-SplitOf files fresh = split_of (filter (is_meta rt) files) refl
    where
      split_of : (metas : List UploadedFile) → filter (is_meta rt) files ≡ metas → SplitOf files
      split_of [] none_named = inr (
        value_error no_meta,
        ap (split_at rt files) none_named,
        rw (none_named) (λ e. absurd (omega (arith, e))),
      )
      split_of (meta ∷ []) one =
          inl (meta, one, rw (one) (ap (λ fs. ok (meta, fs)) (filter-meta [] files fresh one)))
      split_of (m ∷ n ∷ metas) several = inr (
        value_error (many_metas (length (m ∷ n ∷ metas))),
        ap (split_at rt files) several,
        rw (several) (λ e. absurd (omega (arith, e))),
      )

  -- The files of a manifest that is accepted have distinct references that are not empty. Their split gives
  -- the one file that is named meta.json, in any case, and as the attachments all the others in their
  -- order; it raises exactly where no file or more than one is named so.
  pub load-split :
      (path : String) {files : List UploadedFile}
      → load_manifest rt path ≡ ok files
      → Fresh [] files × SplitOf files
  unfolding load_manifest
  load-split path {files} h =
      let (payload, a, h) = >>=-eq-ok (rt.read_json path) _ h in
      let (d, b, h) = >>=-eq-ok (as_dict payload) _ h in
      let (entries, c, h) = >>=-eq-ok (entries_of rt (get "files" d)) _ h in
      let fresh = load_entries-Fresh [] entries h in (fresh, Fresh-SplitOf files fresh)
