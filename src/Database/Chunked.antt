-- ===== src/Database/Chunked.antt =====
-- `_chunked` of the writers: the documents in windows of a fixed size. The source counts indices in
-- `range(0, len(docs), size)`; here each window is taken off what is left, at most one for each document.
use bi_ble_atlas.Base.{
  ℕ, zero, suc, ◌≤◌, ◌<◌, ◌≡◌, refl, ap, ◌∙◌, List, [], ◌∷◌, ◌++◌, length, All, arith,
}

module _ {ℓ} {A : Type ℓ} where
  -- `xs[:n]` and `xs[n:]`
  unfoldable pub take : ℕ → List A → List A
  take zero xs = []
  take (suc n) [] = []
  take (suc n) (x ∷ xs) = x ∷ take n xs

  unfoldable pub drop : ℕ → List A → List A
  drop zero xs = xs
  drop (suc n) [] = []
  drop (suc n) (x ∷ xs) = drop n xs

  unfoldable pub windows : (size rounds : ℕ) → List A → List (List A)
  unfolding take drop
  windows size zero xs = []
  windows size (suc rounds) [] = []
  windows size (suc rounds) (x ∷ xs) = take size (x ∷ xs) ∷ windows size rounds (drop size (x ∷ xs))

  unfoldable pub chunked : ℕ → List A → List (List A)
  unfolding windows
  chunked size xs = windows size (length xs) xs

  abbrev pub concat : List (List A) → List A
  concat [] = []
  concat (xs ∷ xss) = xs ++ concat xss

  pub take-drop : (n : ℕ) (xs : List A) → take n xs ++ drop n xs ≡ xs
  unfolding take drop
  take-drop zero xs = refl
  take-drop (suc n) [] = refl
  take-drop (suc n) (x ∷ xs) = ap (λ ys. x ∷ ys) (take-drop n xs)

  pub length-take : (n : ℕ) (xs : List A) → length (take n xs) ≤ n
  unfolding take
  length-take zero xs = omega arith
  length-take (suc n) [] = omega arith
  length-take (suc n) (x ∷ xs) = omega (arith, length-take n xs)

  pub length-drop : (n : ℕ) (xs : List A) → length (drop n xs) ≤ length xs
  unfolding drop
  length-drop zero xs = omega arith
  length-drop (suc n) [] = omega arith
  length-drop (suc n) (x ∷ xs) = omega (arith, length-drop n xs)

  windows-concat :
      (size rounds : ℕ) (xs : List A)
      → length xs ≤ rounds
      → concat (windows (suc size) rounds xs) ≡ xs
  unfolding windows
  windows-concat size zero [] h = refl
  windows-concat size zero (x ∷ xs) h = absurd (omega arith)
  windows-concat size (suc rounds) [] h = refl
  windows-concat size (suc rounds) (x ∷ xs) h =
      ap (λ ys. take (suc size) (x ∷ xs) ++ ys)
        (windows-concat size rounds (drop (suc size) (x ∷ xs)) (shorter x xs h))
      ∙ take-drop (suc size) (x ∷ xs)
    where
      shorter :
          (x : A) (xs : List A)
          → suc (length xs) ≤ suc rounds
          → length (drop (suc size) (x ∷ xs)) ≤ rounds
      shorter x xs h = omega (arith, length-drop size xs)

  windows-sizes :
      (size rounds : ℕ) (xs : List A)
      → All (λ ys. (0 < length ys) × (length ys ≤ suc size)) (windows (suc size) rounds xs)
  unfolding windows
  windows-sizes size zero xs = tt
  windows-sizes size (suc rounds) [] = tt
  windows-sizes size (suc rounds) (x ∷ xs) = (
    (positive x xs, length-take (suc size) (x ∷ xs)),
    windows-sizes size rounds (drop (suc size) (x ∷ xs)),
  )
    where
      positive : (x : A) (xs : List A) → 0 < length (take (suc size) (x ∷ xs))
      positive x xs = omega arith

  windows-rounds : (size rounds : ℕ) (xs : List A) → length (windows (suc size) rounds xs) ≤ rounds
  unfolding windows
  windows-rounds size zero xs = omega arith
  windows-rounds size (suc rounds) [] = omega arith
  windows-rounds size (suc rounds) (x ∷ xs) =
      omega (arith, windows-rounds size rounds (drop (suc size) (x ∷ xs)))

  -- With a size above zero the loop over the windows ends after at most one round for each document, has
  -- gone through all of them, in order, and each window has at least one document and at most the size.
  pub chunked-concat :
      (size : ℕ) (xs : List A)
      → 0 < size
      → (concat (chunked size xs) ≡ xs)
        × All (λ ys. (0 < length ys) × (length ys ≤ size)) (chunked size xs)
        × (length (chunked size xs) ≤ length xs)
  unfolding chunked
  chunked-concat zero xs h = absurd (omega arith)
  chunked-concat (suc size) xs h = (
    windows-concat size (length xs) xs (omega arith),
    windows-sizes size (length xs) xs,
    windows-rounds size (length xs) xs,
  )
