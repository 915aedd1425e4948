-- ===== src/Upload/Preflight/Laws.antt =====
-- What the checks before the queue leave to the parsers.
use bi_ble_atlas.Base.{
  ℕ, ◌≤◌, ◌<◌, String, ◌≡◌, refl, ap, subst, Bool, true, false, not, ◌||◌, Option, List, [], ◌∷◌,
  ◌==◌, filter, member, All, has_char, partition, text_append, Bool-cases, inl, inr, arith, eq_iff,
  eq_refl, ltb, length,
}
use bi_ble_atlas.Base.Dict.{Dict}
use bi_ble_atlas.Base.Value.{Value}
use bi_ble_atlas.Base.Result.{Result, ok, raise, >>=-eq-ok, raise_if-eq-ok}
use bi_ble_atlas.Upload.Trace.Laws.{All-map}
use bi_ble_atlas.Upload.Preflight.{
  UploadFileRef, Tools, top_level_dirs, read_names, one_dir, validate_skill_names, validate_skill,
  validate_common, run_upload_preflight,
}

member-filter :
    (x d : String) (ds : List String)
    → member x ds ≡ true
    → member x (d ∷ filter (λ e. not (e == d)) ds) ≡ true
unfolding filter
member-filter x d [] h = cc
member-filter x d (e ∷ ds) h =
    ground (arith, eq_iff e d, eq_iff e x, eq_iff d x, member-filter x d ds)

one-member : (d x : String) → member x (d ∷ []) ≡ true → (d == x) ≡ true
one-member d x h = ground (arith, h)

implied : (a b : Bool) → (a ≡ true → b ≡ true) → (not a || b) ≡ true
implied true b h = h refl
implied false b h = refl

not-false : (b : Bool) → not b ≡ false → b ≡ true
not-false true h = refl
not-false false h = cc

at_most : (n : ℕ) → ltb 2000 n ≡ false → n ≤ 2000
at_most n h = ground (arith, h)

module _ (tools : Tools) where
  read_names-ok :
      (r : Result String (List String)) {names : List String}
      → read_names tools r ≡ ok names
      → r ≡ ok names
  read_names-ok (ok names) h = cc
  read_names-ok (raise text) h = cc

  -- A name with a slash starts in one of the directories.
  abbrev InDirs : List String → String → Type 0
  InDirs dirs name = has_char 47 name ≡ true → member (partition 47 name).0 dirs ≡ true

  top_level_dirs-InDirs : (names : List String) → All (InDirs (top_level_dirs tools names)) names
  unfolding top_level_dirs
  top_level_dirs-InDirs [] = tt
  top_level_dirs-InDirs (n ∷ names) = elim (Bool-cases (has_char 47 n)) [
    | inr no_slash ↦
        let same : top_level_dirs tools names ≡ top_level_dirs tools (n ∷ names) =
          rw (no_slash) refl in
        subst (λ ds. All (InDirs ds) (n ∷ names)) same
          (λ slash. cc (no_slash, slash), top_level_dirs-InDirs names)
    | inl slash ↦
        let dir = (partition 47 n).0 in
        let same : (dir ∷ filter (λ d. not (d == dir)) (top_level_dirs tools names))
            ≡ top_level_dirs tools (n ∷ names) =
          rw (slash) refl in
        subst (λ ds. All (InDirs ds) (n ∷ names)) same
          (
            λ again. ground (arith, eq_refl dir),
            All-map (InDirs (top_level_dirs tools names)) _ names
                (λ m in_dirs has.
                  member-filter (partition 47 m).0 dir (top_level_dirs tools names) (in_dirs has))
                (top_level_dirs-InDirs names),
          )
  ]

  one_dir-ok : (ds : List String) {d : String} → one_dir tools ds ≡ ok d → ds ≡ d ∷ []
  one_dir-ok [] h = cc
  one_dir-ok (e ∷ []) {d} h = let same : e ≡ d = cc (h) in ap (λ x. x ∷ []) same
  one_dir-ok (d ∷ e ∷ ds) h = cc

  -- The names of a package: one directory that holds SKILL.md, and every name with a slash begins with it.
  abbrev pub IsPackage : List String → Type 0
  IsPackage names =
      (skill_name : String) × All
        (λ name. (not (has_char 47 name) || skill_name == (partition 47 name).0) ≡ true) names
      × (member (text_append skill_name "/SKILL.md") names ≡ true)

  validate_skill_names-IsPackage :
      (filename : String) (names : List String) {answer : Dict Value}
      → validate_skill_names tools filename names ≡ ok answer
      → IsPackage names
  unfolding validate_skill_names
  validate_skill_names-IsPackage filename names h =
      let (skill_name, one, h) = >>=-eq-ok (one_dir tools (top_level_dirs tools names)) _ h in
      let (present, h) =
        raise_if-eq-ok (not (member (text_append skill_name "/SKILL.md") names)) _ _ h in
      (
        skill_name,
        All-map (InDirs (top_level_dirs tools names)) _ names
            (λ m in_dirs. implied (has_char 47 m) (skill_name == (partition 47 m).0) (λ has.
              one-member skill_name (partition 47 m).0 (
                subst (λ ds. member (partition 47 m).0 ds ≡ true)
                  (one_dir-ok (top_level_dirs tools names) one) (in_dirs has))))
            (top_level_dirs-InDirs names),
        not-false (member (text_append skill_name "/SKILL.md") names) present,
      )

  -- An accepted upload of a skill has between 1 and 2000 files, of which the first is a zip file that
  -- holds one top-level directory with a SKILL.md; every name in it that has a slash begins with that
  -- directory.
  pub run_upload_preflight-IsPackage :
      (files : List UploadFileRef) (script : Option String) (context : Value) {answer : Dict Value}
      → run_upload_preflight tools "SKILL" files script context ≡ ok answer
      → (0 < length files)
        × (length files ≤ 2000)
        × ((f : UploadFileRef) × (fs : List UploadFileRef) × (names : List String) × (files
              ≡ f ∷ fs)
            × (tools.namelist f.path ≡ ok names)
            × IsPackage names)
  unfolding run_upload_preflight validate_common validate_skill
  run_upload_preflight-IsPackage [] script context h = cc
  run_upload_preflight-IsPackage (f ∷ fs) script context h =
      let (u, common, h) = >>=-eq-ok (validate_common tools (f ∷ fs) script context) _ h in
      let (few, common) = raise_if-eq-ok (ltb 2000 (length (f ∷ fs))) _ _ common in
      let (names, read, h) = >>=-eq-ok (read_names tools (tools.namelist f.path)) _ h in
      (
        omega arith,
        at_most (length (f ∷ fs)) few,
        (
          f,
          fs,
          names,
          refl,
          read_names-ok (tools.namelist f.path) read,
          validate_skill_names-IsPackage f.filename names h,
        ),
      )
