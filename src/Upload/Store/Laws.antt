-- ===== src/Upload/Store/Laws.antt =====
-- The writes of documents that an import makes, against what it returns.
use bi_ble_atlas.Base.{
  ℕ, String, ◌≡◌, refl, ◌∙◌, Option, none, some, List, [], ◌∷◌, ◌⊎◌, inl, inr, text_append,
}
use bi_ble_atlas.Base.Dict.{Dict, get}
use bi_ble_atlas.Base.Value.{Value}
use bi_ble_atlas.Base.Result.{Result, ok, raise}
use bi_ble_atlas.Upload.{Exception}
use bi_ble_atlas.Upload.Trace.{Event, Trace, wrote_chunks, ◌>>=◌, pure, lift}
use bi_ble_atlas.Upload.Trace.Laws.{All-map, Within, Within->>=}
use bi_ble_atlas.Upload.World.{FileStoreResult, World}
use bi_ble_atlas.Upload.Plan.{hydrate_chunks_with_storage_paths}
use bi_ble_atlas.Upload.Files.{save_files_by_plan}
use bi_ble_atlas.Upload.Vector.{
  extract_vector_options, extract_vector_source_template, search_profile_for_binding,
}
use bi_ble_atlas.Upload.Store.{
  template_of, ParseResult, Script, vectorize_if_needed, store_parsed_content, store_memory,
  store_skill,
}
use bi_ble_atlas.Upload.Store.Quiet.{
  Write, writes, IsStoring, writes-append, writes-none, Quiet, lift-Quiet, save_files_by_plan-Quiet,
  get_or_create_binding-Quiet, get_or_create_skill_binding-Quiet,
}

module _ (world : World) where
  -- The result of an import after its write: it returns if the write does, and raises what that raises.
  abbrev pub Agrees : Result Exception ℕ → Result Exception (Dict Value) → Type 0
  Agrees (ok n) (ok d) = Unit {0}
  Agrees (raise e) (raise e') = e ≡ e'
  Agrees _ _ = ⊥

  module _ (index : String) (model : Option String) (options : Option (Dict Value))
      (template : Option Value) where
    -- There is no write and the step raises, or there is one, of the chunks with their vectors.
    abbrev IsEmbeddedWrite : List (Dict Value) → Trace (Dict Value) → Type 0
    IsEmbeddedWrite chunks t =
        ((e : Exception) × (t.0 ≡ raise e) × (writes t.1 ≡ []))
        ⊎ ((embedded : List (Dict Value)) × (vectorize_if_needed world chunks model template
              ≡ ok embedded)
            × (writes t.1 ≡ record { index = index; chunks = embedded; options = options } ∷ [])
            × Agrees (world.bulk_upsert_content_docs index embedded options) t.0)

    -- There is no write and the import raises, or there is one: the files were stored, and the documents
    -- are the chunks of the parse result with the paths of those files, and with their vectors.
    abbrev pub IsWrite : ParseResult → Trace (Dict FileStoreResult) → Trace (Dict Value) → Type 0
    IsWrite result files t =
        ((e : Exception) × (t.0 ≡ raise e) × (writes t.1 ≡ []))
        ⊎ ((stored : Dict FileStoreResult) × (chunks embedded : List (Dict Value)) × (files.0
              ≡ ok stored)
            × (hydrate_chunks_with_storage_paths result.chunks stored ≡ ok chunks)
            × (vectorize_if_needed world chunks model template ≡ ok embedded)
            × (writes t.1 ≡ record { index = index; chunks = embedded; options = options } ∷ [])
            × Agrees (world.bulk_upsert_content_docs index embedded options) t.0)

    embedded->>= {ℓ} :
        {A : Type ℓ} (chunks : List (Dict Value)) (m : Trace A) (f : A → Trace (Dict Value))
        → Quiet m
        → ((a : A) → IsEmbeddedWrite chunks (f a))
        → IsEmbeddedWrite chunks (m >>= f)
    embedded->>= chunks (raise e, es) f h k = inl (e, refl, writes-none es h)
    embedded->>= chunks (ok a, es) f h k = elim (k a) [
      | inl (e, raised, no_write) ↦ inl (e, raised, writes-append es (f a).1 h ∙ no_write)
      | inr (embedded, vectors, written, agrees) ↦
          inr (embedded, vectors, writes-append es (f a).1 h ∙ written, agrees)
    ]

    -- The files, the chunks with their paths, and a step that writes these.
    stored-IsWrite :
        (result : ParseResult) (files : Trace (Dict FileStoreResult))
        (rest : Dict FileStoreResult → List (Dict Value) → Trace (Dict Value))
        → Quiet files
        → ((stored : Dict FileStoreResult) (chunks : List (Dict Value))
            → IsEmbeddedWrite chunks (rest stored chunks))
        → IsWrite result files (
            files >>= λ stored.
            lift (hydrate_chunks_with_storage_paths result.chunks stored) >>= rest stored)
    stored-IsWrite result (raise e, es) rest h k = inl (e, refl, writes-none es h)
    stored-IsWrite result (ok stored, es) rest h k =
        hydrated (hydrate_chunks_with_storage_paths result.chunks stored) refl
      where
        hydrated :
            (r : Result Exception (List (Dict Value)))
            → hydrate_chunks_with_storage_paths result.chunks stored ≡ r
            → IsWrite result (ok stored, es) ((ok stored, es) >>= λ s. lift r >>= rest stored)
        hydrated (raise e) e' = inl (e, refl, writes-append es [] h)
        hydrated (ok chunks) e' = elim (k stored chunks) [
          | inl (e, raised, no_write) ↦
              inl (e, raised, writes-append es (rest stored chunks).1 h ∙ no_write)
          | inr (embedded, vectors, written, agrees) ↦ inr (
            stored,
            chunks,
            embedded,
            refl,
            e',
            vectors,
            writes-append es (rest stored chunks).1 h ∙ written,
            agrees,
          )
        ]

    written-IsWrite :
        (chunks embedded : List (Dict Value)) (answer : ℕ → Dict Value) (r : Result Exception ℕ)
        → vectorize_if_needed world chunks model template ≡ ok embedded
        → world.bulk_upsert_content_docs index embedded options ≡ r
        → IsEmbeddedWrite chunks
            (store_parsed_content world index embedded options >>= λ n. pure (answer n))
    unfolding store_parsed_content
    written-IsWrite chunks embedded answer (ok n) vectors e =
        rw (e) (inr (embedded, vectors, refl, rw (e) tt))
    written-IsWrite chunks embedded answer (raise x) vectors e =
        rw (e) (inr (embedded, vectors, refl, rw (e) refl))

    embedded-IsWrite :
        (chunks : List (Dict Value)) (answer : ℕ → Dict Value)
        (r : Result Exception (List (Dict Value)))
        → vectorize_if_needed world chunks model template ≡ r
        → IsEmbeddedWrite chunks (
            lift r >>= λ embedded.
            store_parsed_content world index embedded options >>= λ n. pure (answer n))
    embedded-IsWrite chunks answer (raise x) e = inl (x, refl, refl)
    embedded-IsWrite chunks answer (ok embedded) e = written-IsWrite chunks embedded answer _ e refl

    tail-IsWrite :
        (chunks : List (Dict Value)) (answer : ℕ → Dict Value)
        → IsEmbeddedWrite chunks (
            lift (vectorize_if_needed world chunks model template) >>= λ embedded.
            store_parsed_content world index embedded options >>= λ n. pure (answer n))
    tail-IsWrite chunks answer = embedded-IsWrite chunks answer _ refl

  -- The template of the vectors of a memory.
  abbrev pub memory_template : Dict Value → Option Value
  memory_template profile =
      template_of world (extract_vector_source_template profile)
        (extract_vector_source_template (search_profile_for_binding profile))

  -- The import of a memory writes documents at most once, into memory_<kb_index>: where it writes none it
  -- raises; where it writes, the documents are the chunks of the parse result, with the paths of the files
  -- that were stored, as they are where the import has no model, and else as the embedding of these chunks
  -- returned them; and the import returns exactly if the write does, and raises what the write raises.
  pub store_memory-IsWrite :
      (kb_index : String) (result : ParseResult) (model : Option String) (script : Script)
      (task_id : Option Value)
      → IsWrite
          (text_append "memory_" kb_index)
          model
          (extract_vector_options result.search_profile)
          (memory_template result.search_profile)
          result
          (save_files_by_plan world (some kb_index) result.local_file_storage_plan task_id)
          (store_memory world kb_index result model script task_id)
  unfolding store_memory
  store_memory-IsWrite kb_index result model script task_id = search (
    stored-IsWrite, embedded->>=, save_files_by_plan-Quiet, get_or_create_binding-Quiet,
    tail-IsWrite,
  )

  -- The same of a skill, into its index and without options.
  pub store_skill-IsWrite :
      (kb_index : String) (result : ParseResult) (model : Option String) (script : Script)
      (task_id : Option Value)
      → IsWrite kb_index model none
          (get "source_template" result.search_profile)
          result
          (save_files_by_plan world none result.local_file_storage_plan task_id)
          (store_skill world kb_index result model script task_id)
  unfolding store_skill
  store_skill-IsWrite kb_index result model script task_id = search (
    stored-IsWrite, embedded->>=, save_files_by_plan-Quiet, get_or_create_skill_binding-Quiet,
    tail-IsWrite,
  )

-- All calls that the storage of an import makes.
abbrev pub IsStored : Event → Type 0
IsStored (wrote_chunks _ _ _) = Unit {0}
IsStored e = IsStoring e

storing-IsStored : (e : Event) → IsStoring e → IsStored e
storing-IsStored (wrote_chunks _ _ _) h = tt
storing-IsStored e h = h

Stored->>= {ℓ} :
    {A : Type ℓ} {B : Type 0} (m : Trace A) (f : A → Trace B)
    → Quiet m
    → ((a : A) → Within IsStored (f a))
    → Within IsStored (m >>= f)
Stored->>= m f h k = Within->>= IsStored m f (All-map IsStoring IsStored m.1 storing-IsStored h) k

module _ (world : World) where
  written-IsStored :
      {B : Type 0} (index : String) (chunks : List (Dict Value)) (options : Option (Dict Value))
      (f : ℕ → B)
      → Within IsStored (store_parsed_content world index chunks options >>= λ n. pure (f n))
  unfolding store_parsed_content
  written-IsStored index chunks options f =
      Within->>= IsStored (store_parsed_content world index chunks options) (λ n. pure (f n))
        (tt, tt) (λ n. tt)

  module _ (kb_index : String) (result : ParseResult) (model : Option String) (script : Script)
      (task_id : Option Value) where
    pub store_memory-IsStored :
        Within IsStored (store_memory world kb_index result model script task_id)
    unfolding store_memory
    store_memory-IsStored = search (
      Stored->>=, save_files_by_plan-Quiet, get_or_create_binding-Quiet, lift-Quiet,
      written-IsStored,
    )

    pub store_skill-IsStored :
        Within IsStored (store_skill world kb_index result model script task_id)
    unfolding store_skill
    store_skill-IsStored = search (
      Stored->>=, save_files_by_plan-Quiet, get_or_create_skill_binding-Quiet, lift-Quiet,
      written-IsStored,
    )

-- A step that, where it returns, wrote documents once, into this index.
unfoldable pub OneWrite {ℓ} : String → {A : Type ℓ} → Trace A → Type ℓ
OneWrite index {A} t =
    (a : A) → t.0 ≡ ok a → (w : Write) × (writes t.1 ≡ w ∷ []) × (w.index ≡ index)

module _ (world : World) (index : String) (model : Option String) (options : Option (Dict Value))
    (template : Option Value) (result : ParseResult) (files : Trace (Dict FileStoreResult)) where
  pub IsWrite-OneWrite :
      (t : Trace (Dict Value))
      → IsWrite world index model options template result files t
      → OneWrite index t
  unfolding OneWrite
  IsWrite-OneWrite t (inl (e, raised, written)) d r = cc (raised, r)
  IsWrite-OneWrite t (inr (stored, chunks, embedded, saved, hydrated, vectors, written, agrees)) d
        r =
      (_, written, refl)
