-- ===== src/FileSystem/Segment/Laws.antt =====
-- The parts of a storage path are safe names: nothing that a caller sends makes a path leave its place.
use Prim.Native.Char.{code}
use Prim.Native.String.{[] as no_text, ◌∷◌ as char_before}
use bi_ble_atlas.Base.{
  String, ◌≡◌, refl, ap, ◌∙◌, Bool, true, false, not, ◌&&◌, ◌||◌, Option, none, some, List, [], ◌∷◌,
  ◌==◌, if◌then◌else◌, strip, lstrip, rstrip, is_space, is_blank, filter, All, inl, inr, Bool-cases,
  eq_iff,
}
use bi_ble_atlas.FileSystem.Segment.{
  is_mark, is_alphanumeric, is_allowed, replace_runs, lstrip_marks, rstrip_marks, or_text,
  sanitize_segment, path_name, is_no_name, sanitize_filename, optional_segment, task_or_default,
  non_empty, storage_parts,
}

-- Every character is of the class [a-zA-Z0-9._-]; a slash is not.
abbrev pub is_clean : String → Bool
is_clean no_text = true
is_clean (char_before c s) = is_allowed (code c) && is_clean s

-- A name that is one step down: clean, not empty, and neither "." nor "..".
abbrev pub is_safe : String → Bool
is_safe s = is_clean s && not (is_no_name s)

and_intro : (a b : Bool) → a ≡ true → b ≡ true → (a && b) ≡ true
and_intro a b h k = rw (h, k) refl

and_left : (a b : Bool) → (a && b) ≡ true → a ≡ true
and_left true b h = refl
and_left false b h = cc

and_right : (a b : Bool) → (a && b) ≡ true → b ≡ true
and_right true b h = h
and_right false b h = cc

underscored :
    (b : Bool) (t : String)
    → is_clean t ≡ true
    → is_clean (if b then t else char_before "_" t) ≡ true
unfolding is_alphanumeric is_mark
underscored true t h = h
underscored false t h = h

replace_runs-clean : (s : String) (in_run : Bool) → is_clean (replace_runs s in_run) ≡ true
unfolding replace_runs
replace_runs-clean no_text in_run = refl
replace_runs-clean (char_before c s) in_run = elim (Bool-cases (is_allowed (code c))) [
  | inl allowed ↦ rw (allowed, allowed) (replace_runs-clean s false)
  | inr other ↦ rw (other) (underscored in_run (replace_runs s true) (replace_runs-clean s true))
]

-- A strip takes characters off, and leaves the others.
lstrip-clean : (s : String) → is_clean s ≡ true → is_clean (lstrip s) ≡ true
unfolding lstrip
lstrip-clean no_text h = refl
lstrip-clean (char_before c s) h = elim (Bool-cases (is_space (code c))) [
  | inl space ↦ rw (space) (lstrip-clean s (and_right (is_allowed (code c)) (is_clean s) h))
  | inr other ↦ rw (other) h
]

rstrip-clean : (s : String) → is_clean s ≡ true → is_clean (rstrip s) ≡ true
unfolding rstrip
rstrip-clean no_text h = refl
rstrip-clean (char_before c s) h = elim (Bool-cases (is_blank (rstrip s) && is_space (code c))) [
  | inl gone ↦ rw (gone) refl
  | inr stays ↦ rw (stays) (
      and_intro (is_allowed (code c)) (is_clean (rstrip s))
        (and_left (is_allowed (code c)) (is_clean s) h)
        (rstrip-clean s (and_right (is_allowed (code c)) (is_clean s) h)))
]

strip-clean : (s : String) → is_clean s ≡ true → is_clean (strip s) ≡ true
unfolding strip
strip-clean s h = rstrip-clean (lstrip s) (lstrip-clean s h)

lstrip_marks-clean : (s : String) → is_clean s ≡ true → is_clean (lstrip_marks s) ≡ true
unfolding lstrip_marks
lstrip_marks-clean no_text h = refl
lstrip_marks-clean (char_before c s) h = elim (Bool-cases (is_mark (code c))) [
  | inl mark ↦ rw (mark) (lstrip_marks-clean s (and_right (is_allowed (code c)) (is_clean s) h))
  | inr other ↦ rw (other) h
]

rstrip_marks-clean : (s : String) → is_clean s ≡ true → is_clean (rstrip_marks s) ≡ true
unfolding rstrip_marks
rstrip_marks-clean no_text h = refl
rstrip_marks-clean (char_before c s) h =
    elim (Bool-cases (is_blank (rstrip_marks s) && is_mark (code c))) [
      | inl gone ↦ rw (gone) refl
      | inr stays ↦ rw (stays) (
          and_intro (is_allowed (code c)) (is_clean (rstrip_marks s))
            (and_left (is_allowed (code c)) (is_clean s) h)
            (rstrip_marks-clean s (and_right (is_allowed (code c)) (is_clean s) h)))
    ]

-- No mark at the start.
abbrev starts_unmarked : String → Bool
starts_unmarked no_text = true
starts_unmarked (char_before c s) = not (is_mark (code c))

lstrip_marks-unmarked : (s : String) → starts_unmarked (lstrip_marks s) ≡ true
unfolding lstrip_marks
lstrip_marks-unmarked no_text = refl
lstrip_marks-unmarked (char_before c s) = elim (Bool-cases (is_mark (code c))) [
  | inl mark ↦ rw (mark) (lstrip_marks-unmarked s)
  | inr other ↦ rw (other, other) refl
]

rstrip_marks-unmarked :
    (s : String) → starts_unmarked s ≡ true → starts_unmarked (rstrip_marks s) ≡ true
unfolding rstrip_marks
rstrip_marks-unmarked no_text h = refl
rstrip_marks-unmarked (char_before c s) h =
    elim (Bool-cases (is_blank (rstrip_marks s) && is_mark (code c))) [
      | inl gone ↦ rw (gone) refl
      | inr stays ↦ rw (stays) h
    ]

-- A text that starts with no mark is no dots.
unmarked-differs :
    (s dots : String)
    → starts_unmarked s ≡ true
    → starts_unmarked dots ≡ false
    → (s == dots) ≡ false
unmarked-differs s dots h k = elim (Bool-cases (s == dots)) [
  | inr differs ↦ differs
  | inl same ↦
      let marked : starts_unmarked s ≡ false = ap starts_unmarked ((eq_iff s dots).0 same) ∙ k in
      cc (marked, h)
]

-- A part is left out, or is safe.
abbrev pub is_safe_or_empty : String → Bool
is_safe_or_empty s = (s == "") || is_safe s

unmarked-safe :
    (s : String) → is_clean s ≡ true → starts_unmarked s ≡ true → is_safe_or_empty s ≡ true
unfolding is_mark
unmarked-safe s h k = elim (Bool-cases (s == "")) [
  | inl empty ↦ rw (empty) refl
  | inr filled ↦ rw (filled, h, unmarked-differs s "." k refl, unmarked-differs s ".." k refl) refl
]

or_text-safe :
    (s fallback : String)
    → is_safe_or_empty s ≡ true
    → is_safe_or_empty fallback ≡ true
    → is_safe_or_empty (or_text s fallback) ≡ true
or_text-safe s fallback h k = elim (Bool-cases (s == "")) [
  | inl empty ↦ rw (empty) k
  | inr filled ↦ rw (filled) h
]

pub sanitize_segment-safe :
    (value fallback : String)
    → is_safe_or_empty fallback ≡ true
    → is_safe_or_empty (sanitize_segment value fallback) ≡ true
unfolding sanitize_segment
sanitize_segment-safe value fallback h = elim (Bool-cases (strip value == "")) [
  | inl blank ↦ rw (blank) h
  | inr filled ↦ rw (filled) (
      let t = replace_runs (strip value) false in
      or_text-safe (rstrip_marks (lstrip_marks t)) fallback
        (unmarked-safe (rstrip_marks (lstrip_marks t))
          (rstrip_marks-clean (lstrip_marks t)
            (lstrip_marks-clean t (replace_runs-clean (strip value) false)))
          (rstrip_marks-unmarked (lstrip_marks t) (lstrip_marks-unmarked t)))
        h)
]

pub sanitize_filename-IsSafe : (filename : String) → is_safe (sanitize_filename filename) ≡ true
unfolding sanitize_filename is_alphanumeric is_mark
sanitize_filename-IsSafe filename = elim (Bool-cases (strip (path_name filename) == "")) [
  | inl blank ↦ rw (blank) refl
  | inr filled ↦ rw (filled) (
      let t = replace_runs (strip (path_name filename)) false in
      named (strip t) (strip-clean t (replace_runs-clean (strip (path_name filename)) false)))
]
  where
    named :
        (s : String)
        → is_clean s ≡ true
        → is_safe (if is_no_name s then "unnamed.bin" else s) ≡ true
    named s h = elim (Bool-cases (is_no_name s)) [
      | inl no_name ↦ rw (no_name) refl
      | inr name ↦ rw (name, h, name) refl
    ]

abbrev pub IsSafe : String → Type 0
IsSafe s = is_safe s ≡ true

or_rest : (a b : Bool) → (a || b) ≡ true → a ≡ false → b ≡ true
or_rest true b h k = cc
or_rest false b h k = h

filter-IsSafe :
    (parts : List String)
    → All (λ p. is_safe_or_empty p ≡ true) parts
    → All IsSafe (non_empty parts)
unfolding filter
filter-IsSafe [] h = tt
filter-IsSafe (part ∷ parts) (h, hs) = elim (Bool-cases (part == "")) [
  | inl empty ↦ rw (empty) (filter-IsSafe parts hs)
  | inr filled ↦ rw (filled) (or_rest (part == "") (is_safe part) h filled, filter-IsSafe parts hs)
]

optional_segment-safe : (value : Option String) → is_safe_or_empty (optional_segment value) ≡ true
optional_segment-safe none = refl
optional_segment-safe (some value) = elim (Bool-cases (value == "")) [
  | inl empty ↦ rw (empty) refl
  | inr filled ↦ rw (filled) (sanitize_segment-safe value "" refl)
]

or_right : (a b : Bool) → b ≡ true → (a || b) ≡ true
or_right true b h = refl
or_right false b h = h

default-safe : is_safe_or_empty "default" ≡ true
unfolding is_alphanumeric is_mark
default-safe = refl

-- Whatever the domain, the index, the file name and the task id of an upload are, every part of its storage
-- path, the day being such a part, has only characters of [a-zA-Z0-9._-], is not empty, and is neither "."
-- nor "..".
pub storage_parts-IsSafe :
    (date_part : String) (domain kb_index : Option String) (filename : String)
    (task_id : Option String)
    → IsSafe date_part
    → All IsSafe (storage_parts date_part domain kb_index filename task_id)
unfolding storage_parts
storage_parts-IsSafe date_part domain kb_index filename task_id day =
    filter-IsSafe
      (optional_segment domain
        ∷ optional_segment kb_index
        ∷ date_part
        ∷ sanitize_segment (task_or_default task_id) "default"
        ∷ sanitize_filename filename
        ∷ [])
      (
        optional_segment-safe domain,
        (
          optional_segment-safe kb_index,
          (
            or_right (date_part == "") (is_safe date_part) day,
            (
              sanitize_segment-safe (task_or_default task_id) "default" default-safe,
              (
                or_right (sanitize_filename filename == "") (is_safe (sanitize_filename filename))
                    (sanitize_filename-IsSafe filename),
                tt,
              ),
            ),
          ),
        ),
      )
