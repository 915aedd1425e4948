-- ===== src/Upload/Memory/Manifest.antt =====
-- memory_upload/parsers/memory_parser/manifest_loader.py, file_classifier.py, storage_plan_builder.py
-- and `UploadedFile` of schemas.py.
pub mod Laws
use bi_ble_atlas.Base.{
  ℕ, String, Bool, true, false, not, ◌||◌, Option, none, some, List, [], ◌∷◌, map, ◌==◌,
  if◌then◌else◌, or_else, member, length, filter,
}
use bi_ble_atlas.Base.Dict.{Dict, get}
use bi_ble_atlas.Base.Int.{pos}
use bi_ble_atlas.Base.Value.{
  Value, null, bool, int, str, arr, Items, items, nil, cons, truthy, dict_of, list_of,
}
use bi_ble_atlas.Base.Result.{Result, ok, raise, ◌>>=◌, ◌>>◌, raise_if}
use bi_ble_atlas.Upload.{
  Exception, value_error, manifest_without_files, no_meta, many_metas, entry_incomplete,
  duplicated_ref, Runtime, as_dict, stripped,
}

pub record UploadedFile : Type 0 where
  pub file_ref : String
  pub filename : String
  pub abs_path : String
  pub size_bytes : Value
  -- `null` where it is `None`
  pub content_type : Value

-- `d.get(k, 0) or 0`
abbrev pub number_or_zero : String → Dict Value → Value
number_or_zero k d = let v = or_else (get k d) (int (pos 0)) in if truthy v then v else int (pos 0)

module _ (rt : Runtime) where
  -- The checks on one entry of the manifest, and the file.
  unfoldable pub load_entry : List String → Value → Result Exception UploadedFile
  load_entry seen_refs item = do
    d ← as_dict item
    let file_ref = stripped rt "file_ref" d
    let filename = stripped rt "filename" d
    let abs_path = stripped rt "abs_path" d
    raise_if (file_ref == "" || filename == "" || abs_path == "")
        (value_error (entry_incomplete file_ref filename abs_path))
    raise_if (member file_ref seen_refs) (value_error (duplicated_ref file_ref))
    size_bytes ← rt.to_int (number_or_zero "size_bytes" d)
    ok (record {
      file_ref = file_ref;
      filename = filename;
      abs_path = abs_path;
      size_bytes = size_bytes;
      content_type = or_else (get "content_type" d) Value.null;
    })

  unfoldable pub load_entries : List String → List Value → Result Exception (List UploadedFile)
  load_entries seen_refs [] = ok []
  load_entries seen_refs (item ∷ rest) = load_entry seen_refs item >>= λ file.
      load_entries (file.file_ref ∷ seen_refs) rest >>= λ files. ok (file ∷ files)

  -- `if not isinstance(files, list) or not files: raise ...`
  unfoldable pub entries_of : Option Value → Result Exception (List Value)
  entries_of (some (arr (cons v vs))) = ok (v ∷ items vs)
  entries_of o = raise (value_error manifest_without_files)

  unfoldable pub load_manifest : String → Result Exception (List UploadedFile)
  unfolding load_entries entries_of
  load_manifest manifest_path = do
    payload ← rt.read_json manifest_path
    d ← as_dict payload
    entries ← entries_of (get "files" d)
    load_entries [] entries

  abbrev pub is_meta : UploadedFile → Bool
  is_meta f = rt.lower f.filename == "meta.json"

  abbrev split_at :
      List UploadedFile → List UploadedFile → Result Exception (UploadedFile × List UploadedFile)
  split_at files [] = raise (value_error no_meta)
  split_at files (meta ∷ []) =
      ok (meta, filter (λ (f : UploadedFile). not (f.file_ref == meta.file_ref)) files)
  split_at files (m ∷ n ∷ metas) = raise (value_error (many_metas (length (m ∷ n ∷ metas))))

  unfoldable pub split_meta_and_attachments :
      List UploadedFile → Result Exception (UploadedFile × List UploadedFile)
  split_meta_and_attachments files = split_at files (filter is_meta files)

-- One entry of the plan.
unfoldable pub plan_entry : UploadedFile → Dict Value
plan_entry f =
    ("file_ref", str f.file_ref)
    ∷ ("filename", str f.filename)
    ∷ ("source_path", str f.abs_path)
    ∷ ("size_bytes", f.size_bytes)
    ∷ ("content_type", f.content_type)
    ∷ ("must_store_local", bool true)
    ∷ ("storage_role", str "memory_attachment")
    ∷ []

unfoldable pub build_local_storage_plan : List UploadedFile → Dict Value
unfolding plan_entry
build_local_storage_plan attachments =
    ("files", list_of (map (λ f. dict_of (plan_entry f)) attachments)) ∷ []
