-- ===== src/Database/Postgres/Bulk.antt =====
-- The bulk writes of postgres/writer.py: rows by index and id, in batches that may fail each for itself.
use bi_ble_atlas.Base.{
  zero, suc, ◌+◌, String, Option, none, some, List, [], ◌∷◌, ◌++◌, ◌==◌, if◌then◌else◌, strip,
  length, text_append,
}
use bi_ble_atlas.Base.Dict.{Dict, get, without}
use bi_ble_atlas.Base.Int.{ℤ, pos, negsuc}
use bi_ble_atlas.Base.Value.{Value, str, int, present, dict_of}
use bi_ble_atlas.Base.Result.{Result, ok, raise}
use bi_ble_atlas.Database.{
  database_invalid_argument, Exception, database, value_error, Runtime, BulkWriteResult,
}
use bi_ble_atlas.Database.Lookup.{error}
use bi_ble_atlas.Database.Bulk.{empty_result, preview}
use bi_ble_atlas.Database.Chunked.{chunked}
use bi_ble_atlas.Database.Postgres.{Failure, upsert_rows, Pool}
use bi_ble_atlas.Database.Step.{Step, ◌>>=◌, pure, lift}

abbrev pub Row : Type 0
Row = String × String × Dict Value

-- A text that is not blank, or what the other fields give.
abbrev pub or_next : String → Option String → Option String
or_next text rest = if text == "" then rest else some text

-- `id_fields` of the two writes.
unfoldable pub content_id_fields : List String
content_id_fields = "_id" ∷ "doc_id" ∷ "chunk_id" ∷ []

unfoldable pub file_id_fields : List String
file_id_fields = "_id" ∷ "file_id" ∷ "storage_path" ∷ []

-- The texts of a tuple, as an f-string shows them.
unfoldable pub quoted : List String → String
quoted [] = ""
quoted (f ∷ []) = text_append "'" (text_append f "'")
quoted (f ∷ g ∷ fs) = text_append "'" (text_append f (text_append "', " (quoted (g ∷ fs))))

module _ (rt : Runtime) where
  abbrev pub id_text : Option Value → String
  id_text none = ""
  id_text (some v) = strip (rt.str_of v)

  -- `_extract_row_id`: the first of the fields that is there and not blank
  unfoldable pub extract_row_id : Dict Value → List String → Option String
  extract_row_id record_ [] = none
  extract_row_id record_ (f ∷ fs) =
      or_next (id_text (present (get f record_))) (extract_row_id record_ fs)

  module _ (p : Pool) (table index : String) (id_fields : List String) where
    unfoldable pub reject : Dict Value → BulkWriteResult → BulkWriteResult
    reject record_ result = record result {
      fail_count = result.fail_count + 1;
      errors =
          result.errors
          ++ dict_of (
              (
                "reason",
                str (text_append "missing id fields: (" (text_append (quoted id_fields) ")")),
              )
              ∷ ("record_preview", preview record_)
              ∷ [])
            ∷ [];
    }

    -- The loop over the records of a chunk.
    unfoldable pub collect : List (Dict Value) → BulkWriteResult → List Row × BulkWriteResult
    collect [] result = ([], result)
    collect (record_ ∷ records) result = elim (extract_row_id record_ id_fields) [
      | none ↦ collect records (reject record_ result)
      | some row_id ↦
          let (rows, result') = collect records result in
          ((index, row_id, without ("_id" ∷ []) record_) ∷ rows, result')
    ]

    -- The batch was written, or it failed as a whole.
    unfoldable pub settle :
        List Row
        → BulkWriteResult
        → Result Failure (List (Dict Value)) × p.State
        → Result Exception BulkWriteResult × p.State
    settle rows result (ok _, s) =
        (ok (record result { success_count = result.success_count + length rows }), s)
    settle rows result (raise e, s) = (
      ok (record result {
        fail_count = result.fail_count + length rows;
        errors =
            result.errors
            ++ dict_of (("reason", str (p.repr e)) ∷ ("batch_size", int (pos (length rows))) ∷ [])
              ∷ [];
      }),
      s,
    )

    unfoldable pub send : List Row → BulkWriteResult → Step p.State Exception BulkWriteResult
    send [] result s = pure result s
    send (row ∷ rows) result s =
        settle (row ∷ rows) result (p.run (upsert_rows table (row ∷ rows)) s)

    unfoldable pub write_chunks :
        List (List (Dict Value)) → BulkWriteResult → Step p.State Exception BulkWriteResult
    write_chunks [] result = pure result
    write_chunks (chunk ∷ chunks) result =
        let (rows, result') = collect chunk result in
        send rows result' >>= λ result''. write_chunks chunks result''

    -- `range(0, len(records), size)` refuses a size of zero, and is empty for one below it.
    unfoldable pub bulk_records : ℤ → List (Dict Value) → Step p.State Exception BulkWriteResult
    bulk_records bulk_chunk_size [] = pure empty_result
    bulk_records (pos zero) (record_ ∷ records) = lift (raise value_error)
    bulk_records (pos (suc n)) (record_ ∷ records) =
        write_chunks (chunked (suc n) (record_ ∷ records)) empty_result
    bulk_records (negsuc n) (record_ ∷ records) = pure empty_result

    unfoldable pub bulk_upsert_json_records :
        ℤ → List (Dict Value) → Step p.State Exception BulkWriteResult
    bulk_upsert_json_records bulk_chunk_size records =
        if index == ""
        then lift
            (raise (database (error database_invalid_argument "bulk upsert requires index." [])))
        else bulk_records bulk_chunk_size records

  unfoldable pub bulk_upsert_content_docs :
      (p : Pool) (content_table index : String)
      → ℤ
      → List (Dict Value)
      → Step p.State Exception BulkWriteResult
  bulk_upsert_content_docs p content_table index =
      bulk_upsert_json_records p content_table index content_id_fields

  unfoldable pub bulk_upsert_file_registry :
      (p : Pool) (file_registry_table index : String)
      → ℤ
      → List (Dict Value)
      → Step p.State Exception BulkWriteResult
  bulk_upsert_file_registry p file_registry_table index =
      bulk_upsert_json_records p file_registry_table index file_id_fields
