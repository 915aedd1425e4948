-- ===== src/Search/Skill/Laws.antt =====
-- What the adaptation of SKILL profiles keeps, and what it loses.
use bi_ble_atlas.Base.{String, ◌≡◌, refl, true, Option, some}
use bi_ble_atlas.Base.Dict.{Dict, put, has, get-put}
use bi_ble_atlas.Base.Int.{ℤ}
use bi_ble_atlas.Base.Value.{Value}
use bi_ble_atlas.Base.Result.{ok}
use bi_ble_atlas.Search.Compiler.{Python}
use bi_ble_atlas.Search.Searcher.{Tools, run_search, search_memory}
use bi_ble_atlas.Search.Skill.{
  Floats, raw_fields, boosted_fields, adapt_keyword, adapt_title, adapt_skill_profile, search_skill,
}

module _ (floats : Floats) where
  -- On a profile in the wrapper form, a SKILL search is the search of the MEMORY domain.
  pub search_skill-wrapped :
      (py : Python) (tools : Tools) (kb_index query search_type : String) (top_k : ℤ)
      (p : Dict Value) (model : Option String) (w : Option Value)
      → has "search_type_profile" p ≡ true
      → search_skill floats py tools kb_index query search_type top_k p model w
        ≡ search_memory py tools kb_index query search_type top_k p model w
  unfolding search_skill search_memory run_search adapt_skill_profile
  search_skill-wrapped py tools kb_index query search_type top_k p model w h = rw h refl

  raw_fields-put : (kw : Dict Value) (v : Value) → raw_fields (put "enabled" v kw) ≡ raw_fields kw
  raw_fields-put kw v = rw (get-put "fields" "enabled" v kw) refl

  -- Where the fields of a keyword or title entry are in the SKILL notation, its key "enabled" has no
  -- effect on the adapted profile: whatever value it is given, the result is that without the change.
  pub adapt-enabled :
      (entry adapted : Dict Value) (v converted : Value)
      → boosted_fields floats (raw_fields entry) ≡ ok (some converted)
      → (adapt_keyword floats (some (put "enabled" v entry)) adapted
          ≡ adapt_keyword floats (some entry) adapted)
        × (adapt_title floats (some (put "enabled" v entry)) adapted
            ≡ adapt_title floats (some entry) adapted)
  unfolding adapt_keyword adapt_title
  adapt-enabled entry adapted v converted h = rw (raw_fields-put entry v, h) (refl, refl)
