-- ===== src/Database/Postgres/Laws.antt =====
-- What the Postgres writer promises whatever the pool answers.
use bi_ble_atlas.Base.{
  zero, suc, ◌+◌, String, ◌≡◌, refl, ap, ◌∙◌, ◌⊎◌, inl, inr, true, false, none, some, List, [], ◌∷◌,
  ◌==◌, length, member, All, Bool-cases, arith, eq_iff, eq_refl,
}
use bi_ble_atlas.Base.Dict.{Dict, get, put}
use bi_ble_atlas.Base.Int.{pos, negsuc, is_positive, ℤ}
use bi_ble_atlas.Base.Value.{Value, str, present}
use bi_ble_atlas.Base.Result.{Result, ok, raise}
use bi_ble_atlas.Database.{Runtime, BulkWriteResult}
use bi_ble_atlas.Database.Bulk.{empty_result}
use bi_ble_atlas.Database.Bulk.Laws.{counted, length-append}
use bi_ble_atlas.Database.Chunked.{chunked, concat, chunked-concat}
use bi_ble_atlas.Database.Step.{continue_with, >>=-eq-ok, rescue-ok, answered-ok}
use bi_ble_atlas.Database.Postgres.{
  Failure, Pool, update_row, deactivate_row, update_binding, deactivate_binding, require_row, done,
  run_or,
}
use bi_ble_atlas.Database.Postgres.Bulk.{
  Row, extract_row_id, id_text, reject, collect, settle, send, write_chunks, bulk_records,
  bulk_upsert_json_records,
}

module _ (rt : Runtime) (p : Pool) (table index : String) (id_fields : List String) where
  -- A chunk: each record gives a row or is counted as a failure.
  collect-counted :
      (records : List (Dict Value)) (r : BulkWriteResult)
      → length (collect rt p table index id_fields records r).0
          + counted (collect rt p table index id_fields records r).1
        ≡ length records + counted r
  unfolding collect reject
  collect-counted [] r = refl
  collect-counted (doc ∷ docs) r = ground (
    arith,
    collect-counted docs r,
    collect-counted docs (reject rt p table index id_fields doc r),
    reject-counted,
  )
    where
      reject-counted : counted (reject rt p table index id_fields doc r) ≡ counted r + 1
      reject-counted = omega arith

  -- A batch returns, however the pool answers, and is counted.
  send-returns :
      (rows : List Row) (r : BulkWriteResult) (s : p.State)
      → (r' : BulkWriteResult) × ((send rt p table index id_fields rows r s).0 ≡ ok r')
        × (counted r' ≡ length rows + counted r)
  unfolding send settle
  send-returns [] r s = (r, refl, omega arith)
  send-returns (row ∷ rows) r s = settled (p.run _ s)
    where
      settled :
          (answer : Result Failure (List (Dict Value)) × p.State)
          → (r' : BulkWriteResult) × ((settle rt p table index id_fields (row ∷ rows) r answer).0
              ≡ ok r')
            × (counted r' ≡ length (row ∷ rows) + counted r)
      settled (ok rs, t) =
          (record r { success_count = r.success_count + length (row ∷ rows) }, refl, omega arith)
      settled (raise e, t) = (_, refl, omega arith)

  write_chunks-returns :
      (chunks : List (List (Dict Value))) (r : BulkWriteResult) (s : p.State)
      → (r' : BulkWriteResult) × ((write_chunks rt p table index id_fields chunks r s).0 ≡ ok r')
        × (counted r' ≡ length (concat chunks) + counted r)
  unfolding write_chunks
  write_chunks-returns [] r s = (r, refl, omega arith)
  write_chunks-returns (chunk ∷ chunks) r s =
      let (rows, r0) = collect rt p table index id_fields chunk r in
      let (r1, sent, all1) = send-returns rows r0 s in
      let (r2, returned, all2) =
        write_chunks-returns chunks r1 (send rt p table index id_fields rows r0 s).1 in
      (
        r2,
        ap
              (λ x.
                (continue_with (write_chunks rt p table index id_fields chunks)
                  (x, (send rt p table index id_fields rows r0 s).1)).0)
              sent
            ∙ returned,
        omega (arith, all1, all2, collect-counted chunk r, length-append chunk (concat chunks)),
      )

  -- With a chunk size above zero, a bulk write to an index returns whatever the pool answers, batches that
  -- fail included, and accounts for every record once, as written or as failed.
  pub bulk_upsert_json_records-returns :
      (bulk_chunk_size : ℤ) (records : List (Dict Value)) (s : p.State)
      → (index == "") ≡ false
      → is_positive bulk_chunk_size ≡ true
      → (r : BulkWriteResult) × ((bulk_upsert_json_records rt p table index id_fields
            bulk_chunk_size records s).0
          ≡ ok r)
        × (r.success_count + r.fail_count ≡ length records)
  unfolding bulk_upsert_json_records bulk_records
  bulk_upsert_json_records-returns n [] s named h = (empty_result, rw named refl, refl)
  bulk_upsert_json_records-returns (pos zero) (doc ∷ docs) s named h = cc
  bulk_upsert_json_records-returns (negsuc n) (doc ∷ docs) s named h = cc
  bulk_upsert_json_records-returns (pos (suc n)) (doc ∷ docs) s named h =
      let (r, returned, all) = write_chunks-returns (chunked (suc n) (doc ∷ docs)) empty_result s in
      let joined = ap (λ xs. length xs) (chunked-concat (suc n) (doc ∷ docs) (omega arith)).0 in
      (r, rw named returned, omega (arith, all, joined))

-- The id of a row is the text of one of the fields, without blanks around it, and is not empty; without an
-- id, all of the fields are missing, null or blank.
pub extract_row_id-cases :
    (rt : Runtime) (doc : Dict Value) (fs : List String)
    → ((text : String) × (extract_row_id rt doc fs ≡ some text)
        × ((text == "") ≡ false)
        × ((f : String) × (member f fs ≡ true) × (id_text rt (present (get f doc)) ≡ text)))
      ⊎ ((extract_row_id rt doc fs ≡ none) × All (λ f. id_text rt (present (get f doc)) ≡ "") fs)
unfolding extract_row_id
extract_row_id-cases rt doc [] = inr (refl, tt)
extract_row_id-cases rt doc (f ∷ fs) = elim (Bool-cases (id_text rt (present (get f doc)) == "")) [
  | inl blank ↦ elim (extract_row_id-cases rt doc fs) [
    | inl (text, found, named, (g, among, same)) ↦
        inl (text, rw blank found, named, (g, ground (arith), same))
    | inr (nothing, blanks) ↦
        inr (rw blank nothing, ((eq_iff (id_text rt (present (get f doc))) "").0 blank, blanks))
  ]
  | inr named ↦
      inl (id_text rt (present (get f doc)), rw named refl, named, (f, rw (eq_refl f) refl, refl))
]

-- An update of a binding reports success for every answer of the pool, one that names no row included.
pub update_binding-answer :
    (rt : Runtime) (p : Pool) (table now domain kb_index k : String) (v : Value)
    (patch : Dict Value) (s : p.State) {rows : List (Dict Value)}
    → (p.run (update_row table (put "updated_at" (str now) ((k, v) ∷ patch)) domain kb_index) s).0
      ≡ ok rows
    → (update_binding rt p table now domain kb_index ((k, v) ∷ patch) s).0
      ≡ ok (done rt p table "updated" true domain kb_index)
unfolding update_binding
update_binding-answer rt p table now domain kb_index k v patch s answered =
    answered-ok _ (λ rows. done rt p table "updated" true domain kb_index) (p.run _ s) answered

-- A deactivation that reports success had a row.
pub deactivate_binding-row :
    (rt : Runtime) (p : Pool) (table now domain kb_index : String) (s : p.State)
    {answer : Dict Value}
    → (deactivate_binding rt p table now domain kb_index s).0 ≡ ok answer
    → (row : Dict Value) × (rows : List (Dict Value)) × ((p.run
          (deactivate_row table now domain kb_index)
          s).0
        ≡ ok (row ∷ rows))
unfolding deactivate_binding require_row
deactivate_binding-row rt p table now domain kb_index s e =
    let (rows, asked, required, _) =
      >>=-eq-ok (run_or rt p table _ (deactivate_row table now domain kb_index)) _ s e in
    first_row rows (rescue-ok _ (p.run (deactivate_row table now domain kb_index) s) asked) required
  where
    first_row :
        (rows : List (Dict Value)) {answer : Dict Value}
        → (p.run (deactivate_row table now domain kb_index) s).0 ≡ ok rows
        → require_row rt p table domain kb_index rows ≡ ok answer
        → (row : Dict Value) × (rows : List (Dict Value)) × ((p.run
              (deactivate_row table now domain kb_index)
              s).0
            ≡ ok (row ∷ rows))
    first_row [] asked required = cc
    first_row (row ∷ rows) asked required = (row, rows, asked)
