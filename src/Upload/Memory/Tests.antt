-- ===== src/Upload/Memory/Tests.antt =====
-- A memory with two attachments, of which one is gone.
use bi_ble_atlas.Base.{String, ◌≡◌, refl, none, some, List, [], ◌∷◌, filter, strip, is_space}
use bi_ble_atlas.Base.Dict.{Dict, get, put}
use bi_ble_atlas.Base.Int.{pos}
use bi_ble_atlas.Base.Value.{Value, int, dict_of, list_of, one_half, elements}
use bi_ble_atlas.Base.Result.{ok}
use bi_ble_atlas.Search.Profile.{hybrid, name}
use bi_ble_atlas.Search.Compiler.{Python, compile}
use bi_ble_atlas.Upload.{as_dict}
use bi_ble_atlas.Upload.World.{FileStoreResult}
use bi_ble_atlas.Upload.Files.{save_files, save_files_by_plan}
use bi_ble_atlas.Upload.Files
use bi_ble_atlas.Upload.Plan.{plan_file, iterate, hydrate_chunks_with_storage_paths}
use bi_ble_atlas.Upload.Vector.{search_profile_for_binding}
use bi_ble_atlas.Upload.Memory.Manifest.{
  UploadedFile, load_entry, load_entries, entries_of, load_manifest, split_meta_and_attachments,
  plan_entry, build_local_storage_plan,
}
use bi_ble_atlas.Upload.Memory.Manifest.Laws.{Fresh, SplitOf, load-split}
use bi_ble_atlas.Upload.Memory.Meta.{
  MemoryMeta, opt, nonblank, str_list, require_field, validate_required, limit_field,
  validate_lengths, validate_iso8601, build_meta, parse_meta,
}
use bi_ble_atlas.Upload.Memory.Meta.Laws.{IsValid, parse_meta-IsValid}
use bi_ble_atlas.Upload.Memory.Chunk.{chunk_metadata, memory_chunk, build_single_memory_chunk}
use bi_ble_atlas.Upload.Memory.Profile.{search_profile}
use bi_ble_atlas.Upload.Memory.Served.{IsServed, compile-search_profile}
use bi_ble_atlas.Upload.Memory.Attachments.{expected_paths, hydrate-build_single_memory_chunk}
use bi_ble_atlas.Upload.Examples.{runtime, world, stored_at}

abbrev file : String → String → String → UploadedFile
file ref name path = record {
  file_ref = ref;
  filename = name;
  abs_path = path;
  size_bytes = int (pos 0);
  content_type = Value.null;
}

abbrev meta_file : UploadedFile
meta_file = file "f1" "META.json" "/up/meta"

abbrev attachments : List UploadedFile
attachments = file "f2" "a.txt" "/up/a" ∷ file "f3" "b.txt" "/gone/b" ∷ []

loaded : load_manifest runtime "/up/manifest" ≡ ok (meta_file ∷ attachments)
unfolding load_manifest load_entries load_entry entries_of get as_dict strip is_space
loaded = refl

was_split :
    split_meta_and_attachments runtime (meta_file ∷ attachments) ≡ ok (meta_file, attachments)
unfolding split_meta_and_attachments filter
was_split = refl

load-split_example : Fresh [] (meta_file ∷ attachments) × SplitOf runtime (meta_file ∷ attachments)
load-split_example = load-split runtime "/up/manifest" loaded

abbrev meta : MemoryMeta
meta = record {
  memory_id = "m1";
  title = "Title";
  abstract = "Short";
  overview = "";
  created_at = none;
  updated_at = none;
  task_ids = "t1" ∷ [];
  feature_tags = [];
  domain_tags = [];
  component_tags = [];
  source_client = none;
  language = some "zh";
}

parsed : parse_meta runtime "/up/meta" ≡ ok meta
unfolding parse_meta validate_required validate_lengths validate_iso8601 build_meta require_field
    limit_field opt str_list nonblank get as_dict strip is_space
parsed = refl

parse_meta-IsValid_example : IsValid runtime meta
parse_meta-IsValid_example = parse_meta-IsValid runtime "/up/meta" refl parsed

abbrev results : Dict FileStoreResult
results = ("f2", stored_at "a.txt") ∷ []

saved :
    (save_files_by_plan world (some "kb1") (some (build_local_storage_plan attachments)) none).0
    ≡ ok results
unfolding save_files_by_plan save_files Files.store_file plan_file iterate build_local_storage_plan
    plan_entry get put as_dict elements
saved = refl

hydrate-build_single_memory_chunk_example :
    (ps : List Value) × (expected_paths world (some "kb1") none attachments ≡ ok ps)
    × (hydrate_chunks_with_storage_paths (build_single_memory_chunk meta attachments) results
        ≡ ok (
            put "metadata"
              (dict_of (put "related_storage_paths" (list_of ps) (chunk_metadata meta attachments)))
              (memory_chunk meta attachments)
            ∷ []))
hydrate-build_single_memory_chunk_example =
    hydrate-build_single_memory_chunk world (some "kb1") none meta attachments
      (refl, refl, (refl, refl, tt)) saved refl

abbrev py : Python
py = record { str_of = λ v. "1.0"; text_weight = λ v. some one_half }

compile-search_profile_example : IsServed (pos 5) hybrid (
    compile py "hybrid" "cats"
      (pos 5)
      (search_profile_for_binding search_profile)
      none
      (some one_half))
unfolding name
compile-search_profile_example =
    compile-search_profile py hybrid "cats" (pos 5) none one_half {w = one_half} refl
