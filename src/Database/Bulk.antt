-- ===== src/Database/Bulk.antt =====
-- `_bulk` of opensearch/writer.py, which elasticsearch/writer.py has too, and `bulk_upsert_file_registry`.
pub mod Laws
use bi_ble_atlas.Base.{
  ℕ, zero, suc, ◌+◌, String, Bool, true, false, Option, none, some, List, [], ◌∷◌, ◌++◌, ◌==◌,
  if◌then◌else◌, or_else, strip, length, map,
}
use bi_ble_atlas.Base.Dict.{Dict, get, keys, without}
use bi_ble_atlas.Base.Int.{ℤ, pos, negsuc}
use bi_ble_atlas.Base.Value.{Value, str, int, list_of, dict_of}
use bi_ble_atlas.Base.Result.{Result, ok, raise}
use bi_ble_atlas.Database.{
  database_backend_unavailable, database_invalid_argument, Failure, Exception, database,
  value_error, Runtime, BulkWriteResult, get_or_null,
}
use bi_ble_atlas.Database.Client.{Action, Client, unavailable}
use bi_ble_atlas.Database.Lookup.{error, or_value}
use bi_ble_atlas.Database.Chunked.{take, chunked}
use bi_ble_atlas.Database.Step.{Step, ◌>>=◌, pure, lift, rescue}

abbrev pub empty_result : BulkWriteResult
empty_result = record { success_count = 0; fail_count = 0; errors = [] }

-- `list(doc.keys())[:10]`
abbrev pub preview : Dict Value → Value
preview doc = list_of (take 10 (map (λ k. str k) (keys doc)))

module _ (rt : Runtime) (c : Client) (index : String) where
  -- `str(doc.get("_id") or doc.get("doc_id") or doc.get("chunk_id") or "").strip()`
  unfoldable pub doc_id : Dict Value → String
  doc_id doc = strip (
      rt.str_of (
        or_value
          (or_value (or_value (get_or_null "_id" doc) (get_or_null "doc_id" doc))
            (get_or_null "chunk_id" doc))
          (str "")))

  unfoldable pub action_of : Dict Value → Action
  action_of doc = record { index = index; id = doc_id doc; doc = without ("_id" ∷ []) doc }

  -- A document without an id is counted as a failure.
  unfoldable pub reject : Dict Value → BulkWriteResult → BulkWriteResult
  reject doc result = record result {
    fail_count = result.fail_count + 1;
    errors =
        result.errors
        ++ dict_of
            (("reason", str "missing _id/doc_id/chunk_id") ∷ ("doc_preview", preview doc) ∷ [])
          ∷ [];
  }

  -- The loop over the documents of a chunk.
  unfoldable pub collect : List (Dict Value) → BulkWriteResult → List Action × BulkWriteResult
  collect [] result = ([], result)
  collect (doc ∷ docs) result = elim (doc_id doc == "") [
    | true ↦ collect docs (reject doc result)
    | false ↦ let (actions, result') = collect docs result in (action_of doc ∷ actions, result')
  ]

  -- What `bulk` answered.
  unfoldable pub count : BulkWriteResult → ℕ × List Value → BulkWriteResult
  count result (success_count, errors) = record {
    success_count = result.success_count + success_count;
    fail_count = result.fail_count + length errors;
    errors = result.errors ++ errors;
  }

  unfoldable pub send : List Action → BulkWriteResult → Step c.State Exception BulkWriteResult
  send [] result = pure result
  send (action ∷ actions) result =
      (λ s.
        rescue
          (unavailable c (
            error database_backend_unavailable "Bulk upsert failed due to backend transport error."
              (("index", str index) ∷ ("batch_size", int (pos (length (action ∷ actions)))) ∷ [])))
          (c.bulk (action ∷ actions) s))
      >>= λ answer. pure (count result answer)

  unfoldable pub write_chunks :
      List (List (Dict Value)) → BulkWriteResult → Step c.State Exception BulkWriteResult
  write_chunks [] result = pure result
  write_chunks (chunk ∷ chunks) result =
      let (actions, result') = collect chunk result in
      send actions result' >>= λ result''. write_chunks chunks result''

  -- `range(0, len(docs), size)` refuses a size of zero, and is empty for one below it.
  unfoldable pub bulk_docs : ℤ → List (Dict Value) → Step c.State Exception BulkWriteResult
  bulk_docs bulk_chunk_size [] = pure empty_result
  bulk_docs (pos zero) (doc ∷ docs) = lift (raise value_error)
  bulk_docs (pos (suc n)) (doc ∷ docs) = write_chunks (chunked (suc n) (doc ∷ docs)) empty_result
  bulk_docs (negsuc n) (doc ∷ docs) = pure empty_result

  -- `_bulk`
  unfoldable pub bulk : ℤ → List (Dict Value) → Step c.State Exception BulkWriteResult
  bulk bulk_chunk_size docs =
      if index == ""
      then lift
          (raise (database (error database_invalid_argument "bulk upsert requires index." [])))
      else bulk_docs bulk_chunk_size docs

  unfoldable pub bulk_upsert_file_registry :
      ℤ → List (Dict Value) → Step c.State Exception BulkWriteResult
  bulk_upsert_file_registry bulk_chunk_size file_records = bulk bulk_chunk_size file_records
