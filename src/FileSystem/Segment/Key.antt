-- ===== src/FileSystem/Segment/Key.antt =====
-- Different storage paths have different object keys.
use Prim.Native.String.append
use Prim.Native.String.{[] as no_text, ◌∷◌ as char_before}
use bi_ble_atlas.Base.{String, ◌≡◌, sym, ap, ◌∙◌, Bool-cases, inl, inr, ◌==◌, text_append}
use bi_ble_atlas.FileSystem.Segment.{strip_slashes, to_object_key}

-- A text without its first character.
abbrev tail : String → String
tail no_text = no_text
tail (char_before c s) = s

append-cancel : (p s t : String) → text_append p s ≡ text_append p t → s ≡ t
append-cancel no_text s t h = sym (append.nil s) ∙ h ∙ append.nil t
append-cancel (char_before c p) s t h =
    append-cancel p s t (ap tail (sym (append.cons c p s) ∙ h ∙ append.cons c p t))

pub to_object_key-injective :
    (p q prefix : String) → to_object_key p prefix ≡ to_object_key q prefix → p ≡ q
unfolding to_object_key
to_object_key-injective p q prefix h = elim (Bool-cases (strip_slashes prefix == "")) [
  | inl empty ↦ (rw (empty) at h)
  | inr filled ↦ append-cancel "/" p q (
      append-cancel (strip_slashes prefix) (text_append "/" p) (text_append "/" q)
        (rw (filled) at h))
]
