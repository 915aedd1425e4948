-- ===== src/Base/Value.antt =====
-- The values of JSON documents as Python holds them: `None`, `bool`, `int`, `float`, `str`, `list`
-- and `dict` with text keys. A float is its 64-bit pattern; nothing here computes with it.
use Prim.Native.Nat.{ℕ, zero, ◌^◌}
use Prim.Native.String.{String, [] as no_text, ◌∷◌ as char_before}
use mathlib.Core.Path.{◌≡◌, refl}
use mathlib.Core.Bool.{Bool, true, false, not, ◌||◌}
use mathlib.Core.Option.{Option, none, some}
use mathlib.Core.List.{List, [], ◌∷◌}
use text.Mathlib.Text.{◌==◌}
use bi_ble_atlas.Base.Branch.{nat_eq}
use bi_ble_atlas.Base.Int.{ℤ, pos}
use bi_ble_atlas.Base.Dict.{Dict}

mutual
  -- The entries of a dictionary, in insertion order.
  pub data Fields : Type 0 where
    field : String → Value → Fields → Fields
    end : Fields

  pub data Value : Type 0 where
    obj : Fields → Value
    arr : Items → Value
    null : Value
    str : String → Value
    bool : Bool → Value
    float : ℕ → Value
    int : ℤ → Value

  -- The elements of a list.
  pub data Items : Type 0 where
    cons : Value → Items → Items
    nil : Items

abbrev pub fields : Fields → Dict Value
fields (field k v fs) = (k, v) ∷ fields fs
fields end = []

abbrev pub items : Items → List Value
items (cons v vs) = v ∷ items vs
items nil = []

abbrev pub to_fields : Dict Value → Fields
to_fields ((k, v) ∷ d) = field k v (to_fields d)
to_fields [] = end

abbrev pub to_items : List Value → Items
to_items (v ∷ vs) = cons v (to_items vs)
to_items [] = nil

-- List and dictionary displays.
abbrev pub list_of : List Value → Value
list_of vs = arr (to_items vs)

abbrev pub dict_of : Dict Value → Value
dict_of d = obj (to_fields d)

pub items-to_items : (vs : List Value) → items (to_items vs) ≡ vs
items-to_items [] = refl
items-to_items (v ∷ vs) = rw (items-to_items vs)

pub fields-to_fields : (d : Dict Value) → fields (to_fields d) ≡ d
fields-to_fields [] = refl
fields-to_fields ((k, v) ∷ d) = rw (fields-to_fields d)

pub to_fields-fields : (fs : Fields) → to_fields (fields fs) ≡ fs
to_fields-fields end = refl
to_fields-fields (field k v fs) = rw (to_fields-fields fs)

-- `bool(v)`; the float patterns of 0.0 and -0.0 are false.
abbrev pub truthy : Value → Bool
truthy null = false
truthy (bool b) = b
truthy (int (pos zero)) = false
truthy (int _) = true
truthy (float bits) = not (nat_eq bits 0 || nat_eq bits (2 ^ 63))
truthy (str s) = not (s == "")
truthy (arr nil) = false
truthy (arr _) = true
truthy (obj end) = false
truthy (obj _) = true

-- `o is not None`, for what `dict.get` returns
abbrev pub present : Option Value → Option Value
present none = none
present (some null) = none
present (some v) = some v

abbrev pub is_str : Value → Bool
is_str (str s) = true
is_str _ = false

abbrev pub one_half : Value
one_half = float 0x3FE0000000000000

-- 0.6
abbrev pub three_fifths : Value
three_fifths = float 0x3FE3333333333333

abbrev pub one : Value
one = float 0x3FF0000000000000

abbrev characters : String → List Value
characters no_text = []
characters (char_before c s) = str (char_before c no_text) ∷ characters s

abbrev key_values : Fields → List Value
key_values (field k v fs) = str k ∷ key_values fs
key_values end = []

-- The elements that `for x in v` goes through; `none` is a `TypeError`.
unfoldable pub elements : Value → Option (List Value)
elements (arr xs) = some (items xs)
elements (str s) = some (characters s)
elements (obj fs) = some (key_values fs)
elements v = none
