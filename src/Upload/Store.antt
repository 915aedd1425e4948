-- ===== src/Upload/Store.antt =====
-- `StoreMemory.store` of memory_upload/storage/store_memory.py and `StoreSkill.store` of
-- skill_upload/storage/store_skill.py: files, binding, vectors and documents, in this order.
pub mod Quiet
pub mod Laws
use mathlib.Core.Option
use bi_ble_atlas.Base.{
  ℕ, String, Bool, Option, none, some, List, [], ◌∷◌, ◌++◌, ◌==◌, if◌then◌else◌, text_append,
  length,
}
use bi_ble_atlas.Base.Dict.{Dict, get}
use bi_ble_atlas.Base.Int.{pos}
use bi_ble_atlas.Base.Value.{Value, int, str}
use bi_ble_atlas.Base.Result.{Result, ok, raise}
use bi_ble_atlas.Errors.{domain_error, internal}
use bi_ble_atlas.Upload.{Exception, domain}
use bi_ble_atlas.Upload.Trace.{Trace, wrote_chunks, ◌>>=◌, ◌>>◌, pure, lift, emit}
use bi_ble_atlas.Upload.World.{FileStoreResult, IndexBinding, World}
use bi_ble_atlas.Upload.Plan.{hydrate_chunks_with_storage_paths}
use bi_ble_atlas.Upload.Files.{save_files_by_plan}
use bi_ble_atlas.Upload.Vector.{
  extract_vector_source_template, search_profile_for_binding, extract_vector_options,
}
use bi_ble_atlas.Upload.Binding.{
  Import, text_value, get_or_create_binding, get_or_create_skill_binding,
}

-- `ParseResult` of bible/features/upload/types.py.
pub record ParseResult : Type 0 where
  pub chunks : List (Dict Value)
  pub search_profile : Dict Value
  pub local_file_storage_plan : Option (Dict Value)

pub record Script : Type 0 where
  pub source : String
  pub sha256 : String

module _ (world : World) where
  unfoldable pub vectorization_failed : Exception → Exception
  vectorization_failed e = domain (
      domain_error internal (text_append "Vectorization failed: " (world.text_of e))
        (some (("code", str "VECTOR_MODEL_PREPARE_FAILED") ∷ [])) none)

  -- `except Exception as exc`
  unfoldable pub embed :
      List (Dict Value) → String → Option Value → Result Exception (List (Dict Value))
  unfolding vectorization_failed
  embed chunks model template = elim (world.embed_chunks chunks model template) [
    | ok vs ↦ ok vs
    | raise e ↦ raise (vectorization_failed e)
  ]

  unfoldable pub vectorize_if_needed :
      List (Dict Value) → Option String → Option Value → Result Exception (List (Dict Value))
  unfolding embed
  vectorize_if_needed chunks none template = ok chunks
  vectorize_if_needed chunks (some model) template =
      if model == "" then ok chunks else embed chunks model template

  unfoldable pub store_parsed_content : String → List (Dict Value) → Option (Dict Value) → Trace ℕ
  store_parsed_content index chunks vector_options = do
    emit (wrote_chunks index chunks vector_options)
    lift (world.bulk_upsert_content_docs index chunks vector_options)

  -- `source_template or self._extract_vector_source_template(search_profile)`
  abbrev pub template_of : Option String → Option String → Option Value
  template_of none nested = Option.map (λ t. str t) nested
  template_of (some t) nested = if t == "" then Option.map (λ t. str t) nested else some (str t)

  abbrev pub import_of : String → String → Option String → Script → Dict Value → Import
  import_of kb_index tag vector_model script profile = record {
    kb_index = kb_index;
    tag = tag;
    parser_script_source = script.source;
    parser_script_sha256 = script.sha256;
    vector_model = vector_model;
    search_profile = profile;
  }

  abbrev pub answer : String → IndexBinding → ℕ → Dict FileStoreResult → Dict Value
  answer kb_index binding indexed stored =
      ("kb_index", str kb_index)
      ∷ ("binding_id", str binding.kb_index)
      ∷ ("chunks_indexed", int (pos indexed))
      ∷ ("files_stored", int (pos (length stored)))
      ∷ []

  unfoldable pub store_memory :
      String → ParseResult → Option String → Script → Option Value → Trace (Dict Value)
  store_memory kb_index result vector_model script task_id = do
    let template = extract_vector_source_template result.search_profile
    let options = extract_vector_options result.search_profile
    let profile = search_profile_for_binding result.search_profile
    stored ← save_files_by_plan world (some kb_index) result.local_file_storage_plan task_id
    chunks ← lift (hydrate_chunks_with_storage_paths result.chunks stored)
    binding ← get_or_create_binding world (import_of kb_index "memory" vector_model script profile)
    embedded ← lift (
        vectorize_if_needed chunks vector_model
          (template_of template (extract_vector_source_template profile)))
    indexed ← store_parsed_content (text_append "memory_" kb_index) embedded options
    pure (answer kb_index binding indexed stored)

  abbrev pub statuses : Dict Value
  statuses = ("database_write_status", str "ok") ∷ ("file_write_status", str "ok") ∷ []

  unfoldable pub store_skill :
      String → ParseResult → Option String → Script → Option Value → Trace (Dict Value)
  store_skill kb_index result vector_model script task_id = do
    stored ← save_files_by_plan world none result.local_file_storage_plan task_id
    chunks ← lift (hydrate_chunks_with_storage_paths result.chunks stored)
    binding ←
        get_or_create_skill_binding world
          (import_of kb_index "skill" vector_model script result.search_profile)
    embedded ←
        lift (vectorize_if_needed chunks vector_model (get "source_template" result.search_profile))
    indexed ← store_parsed_content kb_index embedded none
    pure (answer kb_index binding indexed stored ++ statuses)
