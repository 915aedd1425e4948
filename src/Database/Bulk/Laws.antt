-- ===== src/Database/Bulk/Laws.antt =====
-- The counts of a bulk write, and what it sends.
use bi_ble_atlas.Base.{
  ℕ, zero, suc, ◌+◌, String, ◌≡◌, refl, sym, ap, ◌⊎◌, List, [], ◌∷◌, ◌++◌, ◌==◌, length, Bool-cases,
  inl, inr, arith,
}
use bi_ble_atlas.Base.Dict.{Dict}
use bi_ble_atlas.Base.Int.{ℤ, pos, negsuc}
use bi_ble_atlas.Base.Value.{Value}
use bi_ble_atlas.Base.Result.{ok, raise}
use bi_ble_atlas.Database.{Runtime, BulkWriteResult}
use bi_ble_atlas.Database.Client.{Action, Client}
use bi_ble_atlas.Database.Chunked.{chunked, concat, chunked-concat}
use bi_ble_atlas.Database.Step.{>>=-eq-ok, called-ok}
use bi_ble_atlas.Database.Bulk.{
  empty_result, reject, collect, count, send, write_chunks, bulk_docs, bulk,
}

pub length-append {ℓ} : {A : Type ℓ} (xs ys : List A) → length (xs ++ ys) ≡ length xs + length ys
length-append [] ys = omega arith
length-append (x ∷ xs) ys = omega (arith, length-append xs ys)

-- The documents that a result accounts for.
abbrev pub counted : BulkWriteResult → ℕ
counted r = r.success_count + r.fail_count

module _ (rt : Runtime) (c : Client) (index : String) where
  reject-errors :
      (doc : Dict Value) (r : BulkWriteResult)
      → (length (reject rt c index doc r).errors ≡ length r.errors + 1)
        × (counted (reject rt c index doc r) ≡ counted r + 1)
        × ((reject rt c index doc r).fail_count ≡ r.fail_count + 1)
  unfolding reject
  reject-errors doc r = (length-append r.errors _, omega arith, refl)

  -- A chunk: each document gives an action or is counted as a failure, with its error.
  collect-counted :
      (docs : List (Dict Value)) (r : BulkWriteResult)
      → (length (collect rt c index docs r).0 + counted (collect rt c index docs r).1
          ≡ length docs + counted r)
        × (length (collect rt c index docs r).1.errors + r.fail_count
            ≡ length r.errors + (collect rt c index docs r).1.fail_count)
  unfolding collect
  collect-counted [] r = (refl, refl)
  collect-counted (doc ∷ docs) r = ground (
    arith,
    collect-counted docs r,
    collect-counted docs (reject rt c index doc r),
    reject-errors doc r,
  )

  send-counted :
      (actions : List Action) (r : BulkWriteResult) (s : c.State) {r' : BulkWriteResult}
      → (send rt c index actions r s).0 ≡ ok r'
      → (counted r' ≡ length actions + counted r)
        × (length r'.errors + r.fail_count ≡ length r.errors + r'.fail_count)
  unfolding send count
  send-counted [] r s {r'} e = let same : r ≡ r' = cc (e) in rw (← same) (omega arith, refl)
  send-counted (action ∷ actions) r s {r'} e =
      let ((n, errors), returned, same, _) =
        called-ok _ (count rt c index r) (c.bulk (action ∷ actions) s) e in
      let counts = c.bulk-ok (action ∷ actions) s {n = n} {errors = errors} returned in
      rw (← same) (
        omega (arith, length-append r.errors errors, counts),
        omega (arith, length-append r.errors errors),
      )

  write_chunks-counted :
      (chunks : List (List (Dict Value))) (r : BulkWriteResult) (s : c.State) {r' : BulkWriteResult}
      → (write_chunks rt c index chunks r s).0 ≡ ok r'
      → (counted r' ≡ length (concat chunks) + counted r)
        × (length r'.errors + r.fail_count ≡ length r.errors + r'.fail_count)
  unfolding write_chunks
  write_chunks-counted [] r s {r'} e = let same : r ≡ r' = cc (e) in rw (← same) (omega arith, refl)
  write_chunks-counted (chunk ∷ chunks) r s {r'} e =
      let (r1, sent, rest, _) =
        >>=-eq-ok (send rt c index (collect rt c index chunk r).0 (collect rt c index chunk r).1) _
          s e in
      let (all, balanced) = collect-counted chunk r in
      let (all1, balanced1) = send-counted _ _ s sent in
      let (all2, balanced2) = write_chunks-counted chunks r1 _ rest in
      (
        omega (arith, all, all1, all2, length-append chunk (concat chunks)),
        omega (arith, balanced, balanced1, balanced2),
      )

  -- What a bulk write accounts for: every document once, with an error for each that failed, or, with a
  -- chunk size below zero, nothing.
  abbrev pub Counts :
      (bulk_chunk_size : ℤ) (docs : List (Dict Value)) (before : c.State)
      → BulkWriteResult
      → (after : c.State) → Type 0
  Counts bulk_chunk_size docs before r after =
      ((r.success_count + r.fail_count ≡ length docs) × (length r.errors ≡ r.fail_count))
      ⊎ ((n : ℕ) × (bulk_chunk_size ≡ negsuc n) × (r ≡ empty_result) × (after ≡ before))

  bulk_docs-counted :
      (bulk_chunk_size : ℤ) (docs : List (Dict Value)) (s : c.State) {r : BulkWriteResult}
      → (bulk_docs rt c index bulk_chunk_size docs s).0 ≡ ok r
      → Counts bulk_chunk_size docs s r (bulk_docs rt c index bulk_chunk_size docs s).1
  unfolding bulk_docs
  bulk_docs-counted n [] s {r} e =
      let same : empty_result ≡ r = cc (e) in inl (rw (← same) (omega arith, refl))
  bulk_docs-counted (pos zero) (doc ∷ docs) s e = cc
  bulk_docs-counted (pos (suc n)) (doc ∷ docs) s {r} e =
      let (all, balanced) =
        write_chunks-counted (chunked (suc n) (doc ∷ docs)) empty_result s {r' = r} e in
      let joined = ap (λ xs. length xs) (chunked-concat (suc n) (doc ∷ docs) (omega arith)).0 in
      inl (omega (arith, all, joined), omega (arith, balanced))
  bulk_docs-counted (negsuc n) (doc ∷ docs) s {r} e =
      let same : empty_result ≡ r = cc (e) in inr (n, refl, sym same, refl)

  -- A bulk write that returns accounts for every document once, as written or as failed, and has an error
  -- for each that failed; or its chunk size is below zero, it counts nothing and has left the
  -- database as it was.
  pub bulk-counted :
      (bulk_chunk_size : ℤ) (docs : List (Dict Value)) (s : c.State) {r : BulkWriteResult}
      → (bulk rt c index bulk_chunk_size docs s).0 ≡ ok r
      → Counts bulk_chunk_size docs s r (bulk rt c index bulk_chunk_size docs s).1
  unfolding bulk
  bulk-counted n docs s {r} e = elim (Bool-cases (index == "")) [
    | inl blank ↦ let refused : raise _ ≡ ok r = rw blank at e in cc (refused)
    | inr named ↦ rw (named) (bulk_docs-counted n docs s {r = r} (rw named at e))
  ]
