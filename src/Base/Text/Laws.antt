-- ===== src/Base/Text/Laws.antt =====
-- Laws of `str.strip`.
use Prim.Native.Char.{Char, code}
use Prim.Native.Nat.{◌≤◌}
use Prim.Native.String.{String, [], ◌∷◌}
use mathlib.Core.Path.{◌≡◌, refl, sym, ap, ◌∙◌}
use mathlib.Core.Bool.{Bool, true, false, ◌&&◌}
use mathlib.Core.Logic.{inl, inr}
use native.Mathlib.Omega.{arith}
use bi_ble_atlas.Base.Branch.{if◌then◌else◌, Bool-cases}
use bi_ble_atlas.Base.Text.{is_space, is_blank, lstrip, rstrip, strip, text_length}

length-lstrip : (s : String) → text_length (lstrip s) ≤ text_length s
unfolding lstrip
length-lstrip [] = omega arith
length-lstrip (c ∷ s) = ground (arith, length-lstrip s)

length-rstrip : (s : String) → text_length (rstrip s) ≤ text_length s
unfolding rstrip
length-rstrip [] = omega arith
length-rstrip (c ∷ s) = ground (arith, length-rstrip s)

pub length-strip : (s : String) → text_length (strip s) ≤ text_length s
unfolding strip
length-strip s = omega (arith, length-rstrip (lstrip s), length-lstrip s)

rstrip-lstrip : (s : String) → rstrip (lstrip s) ≡ [] → rstrip s ≡ []
unfolding lstrip rstrip
rstrip-lstrip [] h = refl
rstrip-lstrip (c ∷ s) h = elim (Bool-cases (is_space (code c))) [
  | inl space ↦ rw (rstrip-lstrip s (rw (space) at h), space) refl
  | inr no_space ↦ rw (no_space) at h
]

rstrip-rstrip : (s : String) → rstrip (rstrip s) ≡ rstrip s
unfolding rstrip
rstrip-rstrip [] = refl
rstrip-rstrip (c ∷ s) = elim (Bool-cases (is_blank (rstrip s) && is_space (code c))) [
  | inl gone ↦ rw (gone) refl
  | inr stays ↦ rw (stays, rstrip-rstrip s, stays) refl
]

blank-eq : (s : String) → is_blank s ≡ true → s ≡ []
blank-eq [] h = refl
blank-eq (c ∷ s) h = cc

-- Two characters, of which the first stays, are not a rest of one.
rest-apart : (c d : Char) (s : String) (b : Bool) → (if b then [] else c ∷ []) ≡ c ∷ d ∷ s → ⊥
rest-apart c d s true h = cc
rest-apart c d s false h = cc

-- A stripped text of a first character that is no space and a rest: the rest, stripped, is not empty.
pub strip-rest :
    (line : String) (c d : Char) (s : String)
    → strip line ≡ c ∷ d ∷ s
    → is_space (code d) ≡ true
    → is_blank (strip s) ≡ false
unfolding strip rstrip
strip-rest line c d s h k = elim (Bool-cases (is_blank (rstrip (lstrip s)))) [
  | inr filled ↦ filled
  | inl blank ↦
      let gone : rstrip s ≡ [] = rstrip-lstrip s (blank-eq (rstrip (lstrip s)) blank) in
      let again : rstrip (c ∷ d ∷ s) ≡ c ∷ d ∷ s =
        ap rstrip (sym h) ∙ rstrip-rstrip (lstrip line) ∙ h in
      elim (rest-apart c d s (is_space (code c)) (rw (gone, k) at again)) [ ]
]
