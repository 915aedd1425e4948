-- ===== src/Upload/Skill/Zip.antt =====
-- skill_parser/zip_safe_extractor.py: the checks on a package before it is extracted.
pub mod Laws
use Prim.Native.Nat.{◌/◌, ◌%◌}
use bi_ble_atlas.Base.{
  ℕ, ◌+◌, ◌*◌, String, Bool, not, ◌&&◌, List, [], ◌∷◌, ◌==◌, if◌then◌else◌, ltb, nat_eq, length,
  starts_with, text_append,
}
use bi_ble_atlas.Base.Result.{Result, ok, raise, ◌>>=◌, ◌>>◌, raise_if}
use bi_ble_atlas.Upload.{
  Exception, value_error, skill_package_not_zip, too_many_entries, symlink_entry, absolute_entry,
  escaping_entry, large_entry, large_total,
}

abbrev pub max_entries : ℕ
max_entries = 2000

abbrev pub max_total_uncompressed_bytes : ℕ
max_total_uncompressed_bytes = 512 * 1024 * 1024

abbrev pub max_single_entry_bytes : ℕ
max_single_entry_bytes = 64 * 1024 * 1024

-- What is read of `zipfile.ZipInfo`.
pub record ZipInfo : Type 0 where
  pub filename : String
  pub external_attr : ℕ
  pub file_size : ℕ

pub record Paths : Type 0 where
  -- the entries of `zipfile.ZipFile(path)`; an exception by its text
  pub infolist : String → Result String (List ZipInfo)
  pub isabs : String → Bool
  pub join : String → String → String
  pub realpath : String → String
  -- `os.sep`
  pub sep : String
  -- `zf.extractall`
  pub extract_all : List ZipInfo → String → Result Exception (Unit {0})

-- `external_attr >> 16 & 0o120000 == 0o120000`: the bits 13 and 15 of the file's mode.
unfoldable pub is_symlink : ZipInfo → Bool
is_symlink e =
    let mode = e.external_attr / 65536 in
    nat_eq ((mode / 8192) % 2) 1 && nat_eq ((mode / 32768) % 2) 1

module _ (paths : Paths) (extract_dir : String) where
  abbrev pub target_of : ZipInfo → String
  target_of e = paths.realpath (paths.join extract_dir e.filename)

  -- The target is the directory, or below it.
  abbrev pub is_inside : ZipInfo → Bool
  is_inside e =
      let realbase = paths.realpath extract_dir in
      not (
        not (starts_with (text_append realbase paths.sep) (target_of e))
        && not (target_of e == realbase))

  unfoldable pub check_entry : ZipInfo → Result Exception (Unit {0})
  unfolding is_symlink
  check_entry e = do
    raise_if (is_symlink e) (value_error (symlink_entry e.filename))
    raise_if (paths.isabs e.filename) (value_error (absolute_entry e.filename))
    raise_if (not (is_inside e)) (value_error (escaping_entry e.filename))
    raise_if (ltb max_single_entry_bytes e.file_size)
        (value_error (large_entry e.filename e.file_size))

  -- The loop, from the bytes counted so far to all of them.
  unfoldable pub check_entries : ℕ → List ZipInfo → Result Exception ℕ
  check_entries total_bytes [] = ok total_bytes
  check_entries total_bytes (e ∷ es) = do
    check_entry e
    check_entries (total_bytes + e.file_size) es

  unfoldable pub open_zip : Result String (List ZipInfo) → Result Exception (List ZipInfo)
  open_zip (ok es) = ok es
  open_zip (raise text) = raise (value_error (skill_package_not_zip text))

  -- The entries that are handed to `extractall`.
  unfoldable pub safe_entries : String → Result Exception (List ZipInfo)
  unfolding check_entries
  safe_entries zip_path = do
    entries ← open_zip (paths.infolist zip_path)
    raise_if (ltb max_entries (length entries)) (value_error (too_many_entries (length entries)))
    total_bytes ← check_entries 0 entries
    raise_if (ltb max_total_uncompressed_bytes total_bytes) (value_error (large_total total_bytes))
    ok entries

  unfoldable pub safe_extract : String → Result Exception String
  unfolding safe_entries
  safe_extract zip_path = do
    entries ← safe_entries zip_path
    paths.extract_all entries extract_dir
    ok extract_dir
