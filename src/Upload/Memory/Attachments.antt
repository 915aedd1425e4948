-- ===== src/Upload/Memory/Attachments.antt =====
-- The attachments of a memory through storage: what the plan of build_local_storage_plan stores, and
-- which paths the chunk of build_single_memory_chunk ends with.

use bi_ble_atlas.Base.{
  String, ◌≡◌, refl, sym, ap, ◌∙◌, subst, false, Option, none, some, List, [], ◌∷◌, map, ◌==◌,
  if◌then◌else◌, is_empty, arith, eq_refl, All, Bool-cases, inl, inr,
}
use bi_ble_atlas.Base.Dict.{Dict, get, put, get-put, get-put_self}
use bi_ble_atlas.Base.Value.{Value, str, dict_of, list_of, items-to_items, elements}
use bi_ble_atlas.Base.Result.{Result, ok, ◌>>=◌}
use bi_ble_atlas.Upload.{Exception, as_dict}
use bi_ble_atlas.Upload.Trace
use bi_ble_atlas.Upload.Files.Laws.{store_file-ok, save_files_by_plan-ok}
use bi_ble_atlas.Upload.World.{FileStoreResult, World}
use bi_ble_atlas.Upload.Plan.{
  PlanFile, plan_file, iterate, storage_paths, hydrate, hydrate_all,
  hydrate_chunks_with_storage_paths,
}
use bi_ble_atlas.Upload.Files.{is_missing, store_file, save_files, save_files_by_plan}
use bi_ble_atlas.Upload.Memory.Manifest.{UploadedFile, plan_entry, build_local_storage_plan}
use bi_ble_atlas.Upload.Memory.Manifest.Laws.{Fresh, Fresh-All, eq_flip}
use bi_ble_atlas.Upload.Memory.Meta.{MemoryMeta}
use bi_ble_atlas.Upload.Memory.Chunk.{chunk_metadata, memory_chunk, build_single_memory_chunk}

abbrev planned : UploadedFile → PlanFile
planned f = record { file_ref = f.file_ref; src_path = f.abs_path; filename = f.filename }

get-put-apart :
    (j k : String) (r : FileStoreResult) (acc : Dict FileStoreResult)
    → (k == j) ≡ false
    → get j (put k r acc) ≡ get j acc
get-put-apart j k r acc apart = rw (get-put j k r acc, apart) refl

-- What holds of the references that a save has yet to reach.
abbrev Unsaved : Dict FileStoreResult → List UploadedFile → Type 0
Unsaved acc = All (λ (f : UploadedFile). get f.file_ref acc ≡ none)

Unsaved-empty : (fs : List UploadedFile) → Unsaved [] fs
unfolding get
Unsaved-empty [] = tt
Unsaved-empty (f ∷ fs) = (refl, Unsaved-empty fs)

Unsaved-put :
    (k : String) (r : FileStoreResult) (acc : Dict FileStoreResult) (fs : List UploadedFile)
    → All (λ (f : UploadedFile). (f.file_ref == k) ≡ false) fs
    → Unsaved acc fs
    → Unsaved (put k r acc) fs
Unsaved-put k r acc [] h u = tt
Unsaved-put k r acc (f ∷ fs) (apart, h) (new, u) = (
  get-put-apart f.file_ref k r acc (eq_flip f.file_ref k apart) ∙ new,
  Unsaved-put k r acc fs h u,
)

module _ (world : World) (kb_index : Option String) (task_id : Option Value) where
  -- The path that an attachment is stored under, if it is there to be stored.
  unfoldable pub expected_paths : List UploadedFile → Result Exception (List Value)
  expected_paths [] = ok []
  expected_paths (f ∷ fs) =
      let stored =
        (world.store kb_index f.abs_path f.filename task_id >>= λ r.
        expected_paths fs >>= λ rest. ok (str r.storage_path ∷ rest)) in
      if is_missing world (planned f) then expected_paths fs else stored

  plan_file-entry : (f : UploadedFile) → plan_file world (dict_of (plan_entry f)) ≡ ok (planned f)
  unfolding plan_file plan_entry get as_dict
  plan_file-entry f = refl

  refs : List UploadedFile → List Value
  refs fs = map (λ s. str s) (map (λ (f : UploadedFile). f.file_ref) fs)

  entries : List UploadedFile → List Value
  entries = map (λ f. dict_of (plan_entry f))

  -- One file of a save that returned: it was missing, or the rest went on with its result.
  save_files-there :
      (f : UploadedFile) (fs : List UploadedFile) (acc : Dict FileStoreResult)
      {results : Dict FileStoreResult}
      → is_missing world (planned f) ≡ false
      → (save_files world kb_index task_id (entries (f ∷ fs)) acc).0 ≡ ok results
      → (r : FileStoreResult) × (world.store kb_index f.abs_path f.filename task_id ≡ ok r)
        × ((save_files world kb_index task_id (entries fs) (put f.file_ref r acc)).0 ≡ ok results)
  unfolding save_files store_file entries
  save_files-there f fs acc {results} there e =
      let (results', stored, e) =
        Trace.>>=-eq-ok (store_file world kb_index task_id (planned f) acc) _
          (rw (plan_file-entry f, there) at e) in
      let (r, got, same) = store_file-ok world kb_index task_id (planned f) acc stored in
      (
        r,
        got,
        subst
            (λ (x : Dict FileStoreResult).
              (save_files world kb_index task_id (entries fs) x).0 ≡ ok results)
            (sym same) e,
      )

  -- The results that a save ends with, under a reference that is not among its files.
  saved-other :
      (k : String) (fs : List UploadedFile) (acc : Dict FileStoreResult)
      {results : Dict FileStoreResult}
      → All (λ (f : UploadedFile). (f.file_ref == k) ≡ false) fs
      → (save_files world kb_index task_id (entries fs) acc).0 ≡ ok results
      → get k results ≡ get k acc
  unfolding save_files store_file entries
  saved-other k [] acc h e = cc
  saved-other k (f ∷ fs) acc {results} (apart, h) e =
      elim (Bool-cases (is_missing world (planned f))) [
        | inl gone ↦ saved-other k fs acc h (rw (plan_file-entry f, gone) at e)
        | inr there ↦
            let (r, stored, rest) = save_files-there f fs acc there e in
            saved-other k fs (put f.file_ref r acc) h rest ∙ get-put-apart k f.file_ref r acc apart
      ]

  -- The paths that the chunk gets are those that its attachments were stored under.
  saved-paths :
      (seen : List String) (fs : List UploadedFile) (acc : Dict FileStoreResult)
      {results : Dict FileStoreResult}
      → Fresh seen fs
      → Unsaved acc fs
      → (save_files world kb_index task_id (entries fs) acc).0 ≡ ok results
      → (ps : List Value) × (expected_paths fs ≡ ok ps) × (storage_paths results (refs fs) ≡ ok ps)
  unfolding expected_paths storage_paths refs save_files entries
  saved-paths seen [] acc fresh u e = ([], refl, refl)
  saved-paths seen (f ∷ fs) acc {results} (new, given, fresh) (none_yet, u) e =
      let apart =
        Fresh-All f.file_ref (f.file_ref ∷ seen) fs (ground (arith, eq_refl f.file_ref)) fresh in
      elim (Bool-cases (is_missing world (planned f))) [
        | inl gone ↦
            let e' : (save_files world kb_index task_id (entries fs) acc).0 ≡ ok results =
              rw (plan_file-entry f, gone) at e in
            let (ps, a, b) = saved-paths (f.file_ref ∷ seen) fs acc fresh u e' in
            (ps, rw (gone) a, rw (b, saved-other f.file_ref fs acc apart e' ∙ none_yet) refl)
        | inr there ↦
            let (r, stored, rest) = save_files-there f fs acc there e in
            let (ps, a, b) =
              saved-paths (f.file_ref ∷ seen) fs (put f.file_ref r acc) fresh
                (Unsaved-put f.file_ref r acc fs apart u) rest in
            let found =
              saved-other f.file_ref fs (put f.file_ref r acc) apart rest
              ∙ get-put_self f.file_ref r acc in
            (str r.storage_path ∷ ps, rw (there, stored, a) refl, rw (b, found) refl)
      ]

  hydrate-memory_chunk :
      (meta : MemoryMeta) (f : UploadedFile) (fs : List UploadedFile)
      (results : Dict FileStoreResult) {ps : List Value}
      → storage_paths results (refs (f ∷ fs)) ≡ ok ps
      → hydrate results (memory_chunk meta (f ∷ fs))
        ≡ ok (
            put "metadata"
              (dict_of (put "related_storage_paths" (list_of ps) (chunk_metadata meta (f ∷ fs))))
              (memory_chunk meta (f ∷ fs)))
  unfolding hydrate memory_chunk chunk_metadata iterate elements get put as_dict refs
  hydrate-memory_chunk meta f fs results e = rw (items-to_items (refs fs), e) refl

  -- Where the references of the attachments are distinct and the save of their plan returns with a file
  -- stored, the one chunk of the memory comes back with its related_storage_paths replaced by the paths
  -- that the attachments were stored under, in their order, without those that were not on the disk; its
  -- other entries stay.
  pub hydrate-build_single_memory_chunk :
      (meta : MemoryMeta) (attachments : List UploadedFile) {results : Dict FileStoreResult}
      → Fresh [] attachments
      → (save_files_by_plan world kb_index (some (build_local_storage_plan attachments)) task_id).0
        ≡ ok results
      → is_empty results ≡ false
      → (ps : List Value) × (expected_paths attachments ≡ ok ps)
        × (hydrate_chunks_with_storage_paths (build_single_memory_chunk meta attachments) results
            ≡ ok (
                put "metadata"
                  (dict_of
                    (put "related_storage_paths" (list_of ps) (chunk_metadata meta attachments)))
                  (memory_chunk meta attachments)
                ∷ []))
  unfolding save_files_by_plan build_local_storage_plan hydrate_chunks_with_storage_paths
      build_single_memory_chunk hydrate_all save_files get entries
  hydrate-build_single_memory_chunk meta [] {results} fresh e filled =
      let saved =
        save_files_by_plan-ok world kb_index task_id ("files", list_of []) [] [] refl refl e in
      let same : [] ≡ results = cc (saved) in cc (ap is_empty same)
  hydrate-build_single_memory_chunk meta (f ∷ fs) {results} fresh e filled =
      let saved =
        save_files_by_plan-ok world kb_index task_id ("files", list_of (entries (f ∷ fs))) []
          (entries (f ∷ fs)) refl refl e in
      let (ps, a, b) = saved-paths [] (f ∷ fs) [] fresh (Unsaved-empty (f ∷ fs)) saved in
      (ps, a, rw (filled, hydrate-memory_chunk meta f fs results b) refl)
