-- ===== src/Upload/Plan.antt =====
-- What `_save_files_by_plan` and `_hydrate_chunks_with_storage_paths` of
-- bible/features/upload/memory_upload/storage/store_memory.py (and of store_skill.py of the skills) read
-- of a storage plan and write into the chunks.

use bi_ble_atlas.Base.{String, Option, none, some, List, [], ◌∷◌, if◌then◌else◌, or_else, is_empty}
use bi_ble_atlas.Base.Dict.{Dict, get, put}
use bi_ble_atlas.Base.Value.{Value, str, arr, obj, truthy, dict_of, list_of, elements}
use bi_ble_atlas.Base.Result.{Result, ok, raise, ◌>>=◌}
use bi_ble_atlas.Upload.{Exception, type_error, as_dict}
use bi_ble_atlas.Upload.World.{FileStoreResult, World}

-- An entry's reference, source path and name, where they are texts.
pub record PlanFile : Type 0 where
  pub file_ref : String
  pub src_path : String
  pub filename : String

abbrev pub text_or : String → Option Value → Result Exception String
text_or d none = ok d
text_or d (some (str s)) = ok s
text_or d (some v) = raise type_error

-- `file_entry.get("abs_path") or file_entry.get("source_path", "")`
abbrev path_or : Option Value → Option Value → Result Exception String
path_or none source = text_or "" source
path_or (some v) source = if truthy v then text_or "" (some v) else text_or "" source

unfoldable pub plan_file : World → Value → Result Exception PlanFile
plan_file world entry = do
  d ← as_dict entry
  file_ref ← text_or "" (get "file_ref" d)
  src_path ← path_or (get "abs_path" d) (get "source_path" d)
  filename ← text_or (world.basename src_path) (get "filename" d)
  ok (record { file_ref = file_ref; src_path = src_path; filename = filename })

-- `for x in v`
unfoldable pub iterate : Value → Result Exception (List Value)
iterate v = elim (elements v) [ none ↦ raise type_error | some vs ↦ ok vs ]

-- `[results[ref]["storage_path"] for ref in refs if ref in results]`
unfoldable pub storage_paths : Dict FileStoreResult → List Value → Result Exception (List Value)
storage_paths results [] = ok []
storage_paths results (str ref ∷ refs) = do
  rest ← storage_paths results refs
  ok (elim (get ref results) [ none ↦ rest | some r ↦ str r.storage_path ∷ rest ])
storage_paths results (arr xs ∷ refs) = raise type_error
storage_paths results (obj fs ∷ refs) = raise type_error
storage_paths results (v ∷ refs) = storage_paths results refs

-- `dict(c.get("metadata") or {})`
abbrev metadata_of : Option Value → Result Exception (Dict Value)
metadata_of none = ok []
metadata_of (some v) = if truthy v then as_dict v else ok []

-- `metadata.get("related_file_refs") or []`
abbrev file_refs_of : Dict Value → Value
file_refs_of metadata =
    let v = or_else (get "related_file_refs" metadata) Value.null in
    if truthy v then v else list_of []

unfoldable pub hydrate : Dict FileStoreResult → Dict Value → Result Exception (Dict Value)
unfolding storage_paths iterate
hydrate results chunk = do
  metadata ← metadata_of (get "metadata" chunk)
  let file_refs = file_refs_of metadata
  let hydrated = (do
    refs ← iterate file_refs
    paths ← storage_paths results refs
    ok (put "metadata" (dict_of (put "related_storage_paths" (list_of paths) metadata)) chunk))
  if truthy file_refs then hydrated else ok chunk

unfoldable pub hydrate_all :
    Dict FileStoreResult → List (Dict Value) → Result Exception (List (Dict Value))
unfolding hydrate
hydrate_all results [] = ok []
hydrate_all results (chunk ∷ chunks) =
    hydrate results chunk >>= λ c. hydrate_all results chunks >>= λ cs. ok (c ∷ cs)

unfoldable pub hydrate_chunks_with_storage_paths :
    List (Dict Value) → Dict FileStoreResult → Result Exception (List (Dict Value))
hydrate_chunks_with_storage_paths chunks results =
    let hydrated = hydrate_all results chunks in if is_empty results then ok chunks else hydrated
