-- ===== src/Upload/Memory/Chunk.antt =====
-- memory_upload/parsers/memory_parser/chunk_builder.py and orchestrator.py.
use bi_ble_atlas.Base.{
  String, Option, none, some, List, [], ◌∷◌, map, ◌==◌, if◌then◌else◌, or_else, strip, text_append,
}
use bi_ble_atlas.Base.Dict.{Dict}
use bi_ble_atlas.Base.Value.{Value, str, dict_of, list_of}
use bi_ble_atlas.Base.Result.{Result, ok, ◌>>=◌}
use bi_ble_atlas.Upload.{Exception, Runtime}
use bi_ble_atlas.Upload.Memory.Manifest.{
  UploadedFile, load_manifest, split_meta_and_attachments, build_local_storage_plan,
}
use bi_ble_atlas.Upload.Memory.Meta.{MemoryMeta, parse_meta}
use bi_ble_atlas.Upload.Memory.Profile.{search_profile}

-- `"\n".join(filter(None, [a, b])).strip()`
abbrev pub joined : String → String → String
joined a b =
    strip (if a == "" then b else if b == "" then a else text_append a (text_append "\n" b))

abbrev pub texts_value : List String → Value
texts_value ss = list_of (map (λ s. str s) ss)

abbrev pub optional_value : Option String → Value
optional_value none = Value.null
optional_value (some s) = str s

unfoldable pub chunk_metadata : MemoryMeta → List UploadedFile → Dict Value
chunk_metadata meta attachments =
    ("source_file", str "meta.json")
    ∷ ("created_at", optional_value meta.created_at)
    ∷ ("updated_at", optional_value meta.updated_at)
    ∷ ("related_file_refs", texts_value (map (λ (f : UploadedFile). f.file_ref) attachments))
    ∷ ("related_storage_paths", list_of [])
    ∷ []

unfoldable pub memory_chunk : MemoryMeta → List UploadedFile → Dict Value
unfolding chunk_metadata
memory_chunk meta attachments =
    ("doc_id", str meta.memory_id)
    ∷ ("memory_id", str meta.memory_id)
    ∷ ("title", str meta.title)
    ∷ ("content", str (joined meta.abstract meta.overview))
    ∷ ("abstract", str meta.abstract)
    ∷ ("overview", str meta.overview)
    ∷ ("task_ids", texts_value meta.task_ids)
    ∷ ("feature_tags", texts_value meta.feature_tags)
    ∷ ("domain_tags", texts_value meta.domain_tags)
    ∷ ("component_tags", texts_value meta.component_tags)
    ∷ (
      "attributes",
      dict_of (
          ("tag", str "memory")
          ∷ ("source_client", str (or_else meta.source_client ""))
          ∷ ("language", str (or_else meta.language "zh"))
          ∷ []),
    )
    ∷ ("metadata", dict_of (chunk_metadata meta attachments))
    ∷ []

-- The one chunk of a memory.
unfoldable pub build_single_memory_chunk : MemoryMeta → List UploadedFile → List (Dict Value)
unfolding memory_chunk
build_single_memory_chunk meta attachments = memory_chunk meta attachments ∷ []

pub record Parsed : Type 0 where
  pub chunks : List (Dict Value)
  pub search_profile : Dict Value
  pub local_file_storage_plan : Dict Value

unfoldable pub parse_manifest : Runtime → String → Result Exception Parsed
parse_manifest rt file_path = do
  files ← load_manifest rt file_path
  split ← split_meta_and_attachments rt files
  meta ← parse_meta rt split.0.abs_path
  ok (record {
    chunks = build_single_memory_chunk meta split.1;
    search_profile = search_profile;
    local_file_storage_plan = build_local_storage_plan split.1;
  })
