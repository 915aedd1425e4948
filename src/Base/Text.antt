-- ===== src/Base/Text.antt =====
-- Texts walked character by character: `str.split` and `str.partition` on one character.
pub mod Laws
use Prim.Native.Char.{Char, code}
use Prim.Native.Nat.{ℕ, zero, suc}
use Prim.Native.String.{String, [], ◌∷◌}
use mathlib.Core.List
use mathlib.Core.Bool.{Bool, true, false, ◌||◌, ◌&&◌}
use bi_ble_atlas.Base.Branch.{nat_eq, leb, if◌then◌else◌}

-- `chr(sep) in s`
unfoldable pub has_char : ℕ → String → Bool
has_char sep [] = false
has_char sep (c ∷ s) = nat_eq (code c) sep || has_char sep s

-- A character in front of the first part.
abbrev push_first : Char → List.List String → List.List String
push_first c List.[] = List.◌∷◌ (c ∷ []) List.[]
push_first c (List.◌∷◌ part parts) = List.◌∷◌ (c ∷ part) parts

-- `s.split(sep)`
unfoldable pub split : ℕ → String → List.List String
split sep [] = List.◌∷◌ [] List.[]
split sep (c ∷ s) =
    let parts = split sep s in if nat_eq (code c) sep then List.◌∷◌ [] parts else push_first c parts

-- `s.partition(sep)`: what stands before the first separator, and what stands after it.
unfoldable pub partition : ℕ → String → String × String
partition sep [] = ([], [])
partition sep (c ∷ s) =
    let (before, after) = partition sep s in
    if nat_eq (code c) sep then ([], s) else (c ∷ before, after)

-- The code points that `str.isspace` accepts, which are those that `str.strip` takes off.
unfoldable pub is_space : ℕ → Bool
is_space c =
    (leb 9 c && leb c 13)
    || (leb 28 c && leb c 32)
    || nat_eq c 133
    || nat_eq c 160
    || nat_eq c 5760
    || (leb 8192 c && leb c 8202)
    || nat_eq c 8232
    || nat_eq c 8233
    || nat_eq c 8239
    || nat_eq c 8287
    || nat_eq c 12288

abbrev pub is_blank : String → Bool
is_blank [] = true
is_blank (c ∷ s) = false

-- `s.lstrip()`
unfoldable pub lstrip : String → String
lstrip [] = []
lstrip (c ∷ s) = let rest = lstrip s in if is_space (code c) then rest else c ∷ s

-- `s.rstrip()`
unfoldable pub rstrip : String → String
rstrip [] = []
rstrip (c ∷ s) = let rest = rstrip s in if is_blank rest && is_space (code c) then [] else c ∷ rest

-- `s.strip()`
unfoldable pub strip : String → String
unfolding lstrip rstrip
strip s = rstrip (lstrip s)

-- `len(s)`
abbrev pub text_length : String → ℕ
text_length [] = 0
text_length (c ∷ s) = suc (text_length s)

-- `s[:n]`
unfoldable pub first_chars : ℕ → String → String
first_chars zero s = []
first_chars (suc n) [] = []
first_chars (suc n) (c ∷ s) = c ∷ first_chars n s

-- `s.startswith(prefix)`
unfoldable pub starts_with : (prefix s : String) → Bool
starts_with [] s = true
starts_with (p ∷ ps) [] = false
starts_with (p ∷ ps) (c ∷ s) = nat_eq (code p) (code c) && starts_with ps s

-- The code points that `str.splitlines` ends a line at; a line feed after a carriage return belongs to
-- the same end.
unfoldable pub is_line_end : ℕ → Bool
is_line_end c =
    (leb 10 c && leb c 13)
    || (leb 28 c && leb c 30)
    || nat_eq c 133
    || nat_eq c 8232
    || nat_eq c 8233

-- A character in front of the first line.
abbrev push_line : Char → List.List String → List.List String
push_line c List.[] = List.◌∷◌ (c ∷ []) List.[]
push_line c (List.◌∷◌ line lines) = List.◌∷◌ (c ∷ line) lines

-- The lines after a carriage return, or after another character.
unfoldable pub lines_after : Bool → String → List.List String
lines_after after_return [] = List.[]
lines_after after_return (c ∷ s) =
    let rest = lines_after (nat_eq (code c) 13) s in
    if after_return && nat_eq (code c) 10
    then rest
    else if is_line_end (code c)
    then List.◌∷◌ [] rest
    else push_line c rest

-- `s.splitlines()`
unfoldable pub splitlines : String → List.List String
unfolding lines_after
splitlines s = lines_after false s
