-- ===== src/Upload/Skill/Zip/Laws.antt =====
-- What holds of the entries that are extracted.
use bi_ble_atlas.Base.{
  ℕ, ◌+◌, ◌≤◌, String, ◌≡◌, subst, true, false, not, List, [], ◌∷◌, ltb, length, All, arith,
}
use bi_ble_atlas.Base.Result.{Result, ok, raise, >>=-eq-ok, raise_if-eq-ok, raise_if-ok}
use bi_ble_atlas.Upload.Skill.Zip.{
  max_entries, max_total_uncompressed_bytes, max_single_entry_bytes, ZipInfo, Paths, is_symlink,
  is_inside, check_entry, check_entries, open_zip, safe_entries,
}

abbrev pub total_size : List ZipInfo → ℕ
total_size [] = 0
total_size (e ∷ es) = e.file_size + total_size es

at_most : (m n : ℕ) → ltb m n ≡ false → n ≤ m
at_most m n h = ground (arith, h)

at_most_sum : (m t n : ℕ) → t ≡ 0 + n → ltb m t ≡ false → n ≤ m
at_most_sum m t n e h = omega (arith, at_most m t h, e)

open_zip-ok :
    (paths : Paths) (extract_dir : String) (r : Result String (List ZipInfo)) {es : List ZipInfo}
    → open_zip paths extract_dir r ≡ ok es
    → r ≡ ok es
unfolding open_zip
open_zip-ok paths extract_dir (ok es) h = cc
open_zip-ok paths extract_dir (raise text) h = cc

module _ (paths : Paths) (extract_dir : String) where
  -- An entry that is no link and no absolute path, lands in the directory, and has a bounded size.
  abbrev pub IsSafe : ZipInfo → Type 0
  IsSafe e =
      (is_symlink e ≡ false)
      × (paths.isabs e.filename ≡ false)
      × (is_inside paths extract_dir e ≡ true)
      × (e.file_size ≤ max_single_entry_bytes)

  check_entry-IsSafe :
      (e : ZipInfo) {u : Unit {0}} → check_entry paths extract_dir e ≡ ok u → IsSafe e
  unfolding check_entry
  check_entry-IsSafe e h =
      let (link, h) = raise_if-eq-ok (is_symlink e) _ _ h in
      let (abs, h) = raise_if-eq-ok (paths.isabs e.filename) _ _ h in
      let (inside, h) = raise_if-eq-ok (not (is_inside paths extract_dir e)) _ _ h in
      (
        link,
        abs,
        ground (arith, inside),
        at_most max_single_entry_bytes e.file_size
            (raise_if-ok (ltb max_single_entry_bytes e.file_size) _ h),
      )

  check_entries-IsSafe :
      (n : ℕ) (es : List ZipInfo) {total : ℕ}
      → check_entries paths extract_dir n es ≡ ok total
      → All IsSafe es × (total ≡ n + total_size es)
  unfolding check_entries
  check_entries-IsSafe n [] h = (tt, ground arith)
  check_entries-IsSafe n (e ∷ es) h =
      let (u, a, h) = >>=-eq-ok (check_entry paths extract_dir e) _ h in
      let (safe, total) = check_entries-IsSafe (n + e.file_size) es h in
      ((check_entry-IsSafe e a, safe), ground (arith, total))

  -- What is extracted of a package are all of its entries, at most 2000, of at most 64 MB each and 512 MB
  -- together; none is a symbolic link or has an absolute path, and the path of each, resolved, is the
  -- directory of the extraction or below it.
  pub safe_entries-IsSafe :
      (zip_path : String) {es : List ZipInfo}
      → safe_entries paths extract_dir zip_path ≡ ok es
      → (paths.infolist zip_path ≡ ok es)
        × (length es ≤ max_entries)
        × All IsSafe es
        × (total_size es ≤ max_total_uncompressed_bytes)
  unfolding safe_entries
  safe_entries-IsSafe zip_path {es} h =
      let (entries, opened, h) =
        >>=-eq-ok (open_zip paths extract_dir (paths.infolist zip_path)) _ h in
      let (few, h) = raise_if-eq-ok (ltb max_entries (length entries)) _ _ h in
      let (total, checked, h) = >>=-eq-ok (check_entries paths extract_dir 0 entries) _ h in
      let (small, h) = raise_if-eq-ok (ltb max_total_uncompressed_bytes total) _ _ h in
      let (safe, counted) = check_entries-IsSafe 0 entries checked in
      let same : entries ≡ es = cc (h) in
      subst
        (λ (xs : List ZipInfo).
          (paths.infolist zip_path ≡ ok xs)
          × (length xs ≤ max_entries)
          × All IsSafe xs
          × (total_size xs ≤ max_total_uncompressed_bytes))
        same
        (
          open_zip-ok paths extract_dir (paths.infolist zip_path) opened,
          at_most max_entries (length entries) few,
          safe,
          at_most_sum max_total_uncompressed_bytes total (total_size entries) counted small,
        )
