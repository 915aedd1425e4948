-- ===== src/Base/Dict.antt =====
-- Python's `dict` with text keys, as a list of pairs in insertion order.
use Prim.Native.String.{String}
use mathlib.Core.Path.{◌≡◌, refl}
use mathlib.Core.Bool.{Bool, true, false}
use mathlib.Core.Option.{Option, none, some}
use mathlib.Core.List.{List, [], ◌∷◌}
use native.Mathlib.Omega.{arith}
use text.Mathlib.Text.{◌==◌}
use text.Mathlib.TextEquality.{eq_iff}
use text.Mathlib.TextPositions.{eq_refl}
use bi_ble_atlas.Base.Branch.{if◌then◌else◌, is_some}
use bi_ble_atlas.Base.Lists.{member}

abbrev pub Dict {ℓ} : Type ℓ → Type ℓ
Dict V = List (String × V)

module _ {ℓ} {V : Type ℓ} where
  -- `d.get(k)`
  unfoldable pub get : String → Dict V → Option V
  get k [] = none
  get k ((j, v) ∷ d) = if j == k then some v else get k d

  -- `d[k] = v`: a key that is there keeps its place, a new one comes last.
  unfoldable pub put : String → V → Dict V → Dict V
  put k v [] = (k, v) ∷ []
  put k v ((j, w) ∷ d) = if j == k then (j, v) ∷ d else (j, w) ∷ put k v d

  -- `k in d`
  abbrev pub has : String → Dict V → Bool
  has k d = is_some (get k d)

  abbrev pub keys : Dict V → List String
  keys [] = []
  keys ((j, v) ∷ d) = j ∷ keys d

  -- `{k: v for k, v in d.items() if k not in excluded}`
  unfoldable pub without : List String → Dict V → Dict V
  without ks [] = []
  without ks ((j, v) ∷ d) = let rest = without ks d in if member j ks then rest else (j, v) ∷ rest

  -- the members of `set(d) - set(ks)`, in the order of `d`
  unfoldable pub unknown_keys : List String → Dict V → List String
  unknown_keys ks [] = []
  unknown_keys ks ((j, v) ∷ d) =
      let rest = unknown_keys ks d in if member j ks then rest else j ∷ rest

module _ {ℓ} {V : Type ℓ} where
  pub get-put :
      (j k : String) (v : V) (d : Dict V) → get j (put k v d) ≡ (if k == j then some v else get j d)
  unfolding get put
  get-put j k v [] = refl
  get-put j k v ((i, w) ∷ d) = ground (arith, eq_iff k j, eq_iff i k, eq_iff i j, get-put j k v d)

  pub get-put_self : (k : String) (v : V) (d : Dict V) → get k (put k v d) ≡ some v
  get-put_self k v d = simp (get-put, eq_refl)

module _ {ℓ} {V : Type ℓ} where
  -- A key that is filtered out is gone, whatever the dictionary held.
  pub get-without-member :
      (k : String) (ks : List String) (d : Dict V)
      → member k ks ≡ true
      → get k (without ks d) ≡ none
  unfolding get without
  get-without-member k ks [] h = refl
  get-without-member k ks ((j, v) ∷ d) h = ground (arith, eq_iff j k, get-without-member k ks d h)

  pub get-without-other :
      (k : String) (ks : List String) (d : Dict V)
      → member k ks ≡ false
      → get k (without ks d) ≡ get k d
  unfolding get without
  get-without-other k ks [] h = refl
  get-without-other k ks ((j, v) ∷ d) h = ground (arith, eq_iff j k, get-without-other k ks d h)
