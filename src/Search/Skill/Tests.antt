-- ===== src/Search/Skill/Tests.antt =====
-- The SKILL search on concrete profiles.
use bi_ble_atlas.Base.{String, ◌≡◌, refl, true, some, Option, [], ◌∷◌, has_char, partition}
use bi_ble_atlas.Base.Dict.{Dict, get, has}
use bi_ble_atlas.Base.Value.{Value, str, list_of, one, one_half}
use bi_ble_atlas.Base.Result.{ok}
use bi_ble_atlas.Search.{iterate}
use bi_ble_atlas.Search.Profile.{keyword}
use bi_ble_atlas.Search.Compiler.Canonical.{canonical, entries}
use bi_ble_atlas.Search.Skill.{Floats, field_weight, raw_fields, boosted_fields}

abbrev read_float : String → Option Value
read_float s = some one_half

abbrev floats : Floats
floats = record { parse_float = read_float; to_float = λ v. ok v }

abbrev wrapped : Dict Value
wrapped = canonical keyword (("term_fields", entries (("name", one) ∷ [])) ∷ []) []

is_wrapped : has "search_type_profile" wrapped ≡ true
unfolding get
is_wrapped = refl

abbrev entry : Dict Value
entry = ("fields", list_of (str "name^5" ∷ [])) ∷ []

abbrev converted : Value
converted = list_of (field_weight "name" one_half ∷ [])

entry-boosted : boosted_fields floats (raw_fields entry) ≡ ok (some converted)
unfolding boosted_fields get iterate has_char partition
entry-boosted = refl
