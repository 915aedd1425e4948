-- ===== src/FileSystem/Object/Laws.antt =====
-- What a gateway stores is what it reads back; and how it fails.
use bi_ble_atlas.Base.{
  ◌<◌, String, ◌≡◌, ◌≢◌, refl, sym, ap, ◌∙◌, true, false, Option, none, some, ◌==◌, length,
  Bool-cases, inl, inr, eq_iff, eq_refl, or_else,
}
use bi_ble_atlas.Base.Result.{Result, ok, raise}
use bi_ble_atlas.FileSystem.{FileStoreResult, FileSystemError, file_not_found}
use bi_ble_atlas.FileSystem.Segment.{build_storage_path, sanitize_filename, sanitize_segment}
use bi_ble_atlas.FileSystem.Segment.Key.{to_object_key-injective}
use bi_ble_atlas.FileSystem.Hash.{Bytes, Stream, read_and_hash}
use bi_ble_atlas.FileSystem.Hash.Laws.{read_and_hash-content}
use bi_ble_atlas.FileSystem.Object.{
  Failure, replaced, Gateway, key_of, store, put_answer, put_read, open_read, exists, delete,
  read_answer, failed_to_read, returned,
}

replaced_self :
    (b k : String) (o : Option Bytes) (objects : String → String → Option Bytes)
    → replaced b k o objects b k ≡ o
replaced_self b k o objects = rw (eq_refl b, eq_refl k) refl

replaced_other :
    (b k l : String) (o : Option Bytes) (objects : String → String → Option Bytes)
    → k ≢ l
    → replaced b k o objects b l ≡ objects b l
replaced_other b k l o objects differs = elim (Bool-cases (k == l)) [
  | inl same ↦ absurd (differs ((eq_iff k l).0 same))
  | inr other ↦ rw (eq_refl b, other) refl
]

module _ (g : Gateway) where
  -- The object of a storage path.
  abbrev pub object_of : g.client.State → (storage_path : String) → Option Bytes
  object_of s storage_path = g.client.objects s g.bucket (key_of g storage_path)

  -- An upload that went well: the object is there with its length and digest, the others are as they were.
  pub record IsStored (content : Bytes) (s : g.client.State) (r : FileStoreResult)
      (t : g.client.State) : Type 0 where
    pub size : r.size_bytes ≡ length content
    pub digest : r.file_hash ≡ g.hash.hexdigest (g.hash.update content g.hash.new)
    pub reachable : g.client.reachable t ≡ true
    pub object : object_of t r.storage_path ≡ some content
    pub others :
        (storage_path : String)
        → storage_path ≢ r.storage_path
        → object_of t storage_path ≡ object_of s storage_path

  -- Two storage paths have two objects.
  key-differs : (p q : String) → p ≢ q → key_of g p ≢ key_of g q
  key-differs p q differs same = differs (to_object_key-injective p q g.prefix same)

  put-IsStored :
      (content : Bytes) (s : g.client.State) (r : FileStoreResult)
      → g.client.reachable s ≡ true
      → r.size_bytes ≡ length content
      → r.file_hash ≡ g.hash.hexdigest (g.hash.update content g.hash.new)
      → IsStored content s r
          (g.client.put_object g.bucket (key_of g r.storage_path) content (length content) s).1
  put-IsStored content s r up size digest =
      let (returned, still_up, objects) =
        g.client.put_object-ok g.bucket (key_of g r.storage_path) content s up in
      record {
        size = size;
        digest = digest;
        reachable = still_up;
        object =
            objects g.bucket (key_of g r.storage_path)
            ∙ replaced_self g.bucket (key_of g r.storage_path) (some content) (g.client.objects s);
        others = λ p differs.
            objects g.bucket (key_of g p)
            ∙ replaced_other g.bucket (key_of g r.storage_path) (key_of g p) (some content)
                (g.client.objects s) (key-differs r.storage_path p (λ e. differs (sym e)));
      }

  -- A file that is there, where the service is reachable.
  IsStored-read :
      (content : Bytes) (s : g.client.State) (r : FileStoreResult) (t : g.client.State)
      → IsStored content s r t
      → (open_read g r.storage_path t ≡ ok content) × (exists g r.storage_path t ≡ true)
  unfolding open_read exists
  IsStored-read content s r t stored = (
    ap (read_answer g r.storage_path) (
        g.client.get_object-ok g.bucket (key_of g r.storage_path) t stored.reachable stored.object),
    ap (returned g) (
        g.client.stat_object-ok g.bucket (key_of g r.storage_path) t stored.reachable
          stored.object),
  )

  module _ (date_part : String) (file_stream : Stream) (domain kb_index : Option String)
      (filename : String) (task_id : Option String) where
    abbrev result : (content : Bytes) → FileStoreResult
    result content = record {
      storage_path = build_storage_path date_part domain kb_index filename task_id;
      file_hash = g.hash.hexdigest (g.hash.update content g.hash.new);
      size_bytes = length content;
      filename = sanitize_filename filename;
      domain = sanitize_segment (or_else domain "") "UNKNOWN";
      kb_index = sanitize_segment (or_else kb_index "") "default";
    }

    -- The run of `store` whose put returned.
    store-run :
        (content : Bytes) (s : g.client.State)
        → read_and_hash g.hash g.chunk_size file_stream
          ≡ (content, g.hash.hexdigest (g.hash.update content g.hash.new), length content)
        → (g.client.put_object g.bucket
            (key_of g (result content).storage_path)
            content
            (length content)
            s).0
          ≡ ok tt
        → store g date_part file_stream domain kb_index filename task_id s ≡ (
          ok (result content),
          (g.client.put_object g.bucket
              (key_of g (result content).storage_path)
              content
              (length content)
              s).1,
        )
    unfolding store put_read
    store-run content s read answered =
        ap (λ file. put_read g date_part domain kb_index filename task_id file s) read
        ∙ ap (put_answer g (key_of g (result content).storage_path) (result content))
            (λ i. (answered i, after))
      where
        after : g.client.State
        after =
            (g.client.put_object g.bucket (key_of g (result content).storage_path) content
              (length content) s).1

    -- A file of a stream that can be rewound, however much of it was read before, is stored where the service
    -- is reachable and the chunk size is not 0: the result has the path that is built for it, the length of
    -- the whole file and its digest, every other path has the object that it had, and the path is then read
    -- back as the whole file and exists.
    pub store-open_read :
        (s : g.client.State)
        → file_stream.can_seek ≡ true
        → 0 < g.chunk_size
        → g.client.reachable s ≡ true
        → (r : FileStoreResult) × (t : g.client.State) × (store g date_part file_stream domain
              kb_index filename task_id s
            ≡ (ok r, t))
          × (r.storage_path ≡ build_storage_path date_part domain kb_index filename task_id)
          × IsStored file_stream.content s r t
          × (open_read g r.storage_path t ≡ ok file_stream.content)
          × (exists g r.storage_path t ≡ true)
    store-open_read s seekable positive up =
        let content = file_stream.content in
        let r = result content in
        let key = key_of g r.storage_path in
        let t = (g.client.put_object g.bucket key content (length content) s).1 in
        let stored : IsStored content s r t = put-IsStored content s r up refl refl in
        let (answer, found) = IsStored-read content s r t stored in
        (
          r,
          t,
          store-run content s
              (read_and_hash-content g.hash g.chunk_size file_stream seekable positive)
              (g.client.put_object-ok g.bucket key content s up).0,
          refl,
          stored,
          answer,
          found,
        )

  -- Whatever the client raised, `open_read` raises FILE_NOT_FOUND.
  pub open_read-raises :
      (storage_path : String) (s : g.client.State) {e : FileSystemError}
      → open_read g storage_path s ≡ raise e
      → e.code ≡ file_not_found
  unfolding open_read
  open_read-raises storage_path s {e} raised =
      by_answer (g.client.get_object g.bucket (key_of g storage_path) s) raised
    where
      failed_code : (f : Failure) → (failed_to_read g storage_path f).code ≡ file_not_found
      failed_code f = elim (Bool-cases (g.is_not_found f)) [
        | inl missing ↦ rw (missing) refl
        | inr other ↦ rw (other) refl
      ]

      by_answer :
          (r : Result Failure Bytes)
          → read_answer g storage_path r ≡ raise e
          → e.code ≡ file_not_found
      by_answer (ok content) raised = cc
      by_answer (raise f) raised =
          let same : failed_to_read g storage_path f ≡ e = cc (raised) in
          ap (λ x. x.code) (sym same) ∙ failed_code f

  -- A removal where the service is reachable: it is reported, also for an object that is not there, the path
  -- no longer exists, and every other path has the object that it had.
  pub delete-exists :
      (storage_path : String) (s : g.client.State)
      → g.client.reachable s ≡ true
      → ((delete g storage_path s).0 ≡ true)
        × (exists g storage_path (delete g storage_path s).1 ≡ false)
        × ((other : String)
            → other ≢ storage_path
            → object_of (delete g storage_path s).1 other ≡ object_of s other)
  unfolding delete exists
  delete-exists storage_path s up =
      let (removed, still_up, objects) =
        g.client.remove_object-ok g.bucket (key_of g storage_path) s up in
      let t = (g.client.remove_object g.bucket (key_of g storage_path) s).1 in
      let gone : object_of t storage_path ≡ none =
        objects g.bucket (key_of g storage_path)
        ∙ replaced_self g.bucket (key_of g storage_path) none (g.client.objects s) in
      let (e, missing) =
        g.client.stat_object-missing g.bucket (key_of g storage_path) t still_up gone in
      (
        ap (returned g) removed,
        ap (returned g) missing,
        λ other differs.
            objects g.bucket (key_of g other)
            ∙ replaced_other g.bucket (key_of g storage_path) (key_of g other) none
                (g.client.objects s) (key-differs storage_path other (λ e. differs (sym e))),
      )
