-- ===== src/Search/Skill.antt =====
-- bible/features/search/skill_search/searcher/search_skill.py: the SKILL form of a profile, its
-- adaptation to the form of the compiler, and the search request of the domain. `float()` of a text and
-- of a value are parameters.
pub mod Laws
mod Tests
use bi_ble_atlas.Base.{
  ℕ, String, Bool, true, false, not, ◌&&◌, Option, none, some, List, [], ◌∷◌, map, ◌==◌,
  if◌then◌else◌, or_else, has_char, partition, all,
}
use bi_ble_atlas.Base.Dict.{Dict, get, put, has, without}
use bi_ble_atlas.Base.Int.{ℤ}
use bi_ble_atlas.Base.Value.{
  Value, null, str, obj, arr, fields, dict_of, list_of, truthy, present, is_str, one,
}
use bi_ble_atlas.Base.Result.{Result, ok, raise, ◌>>=◌}
use bi_ble_atlas.Search.{Exception, iterate, as_dict}
use bi_ble_atlas.Search.Compiler.{Python}
use bi_ble_atlas.Search.Hits.{map_hits}
use bi_ble_atlas.Search.Searcher.{Tools, SearchResult, run_search}

pub record Floats : Type 0 where
  -- `float(text)`; `none` is a `ValueError`
  pub parse_float : String → Option Value
  -- `float(value)`
  pub to_float : Value → Result Exception Value

-- {"field": field, "weight": weight}
abbrev pub field_weight : String → Value → Value
field_weight field weight = dict_of (("field", str field) ∷ ("weight", weight) ∷ [])

abbrev pub default_field : Value
default_field = str "content_vector"

-- `if isinstance(v, dict)`
abbrev pub dict_part : Option Value → Option (Dict Value)
dict_part (some (obj fs)) = some (fields fs)
dict_part o = none

-- `if k in source: target[k] = source[k]`
abbrev pub copy_key : String → Dict Value → Dict Value → Dict Value
copy_key k source target = elim (get k source) [ none ↦ target | some v ↦ put k v target ]

-- `source[k]` where it is true, else nothing
abbrev pub true_part : Option Value → Option Value
true_part none = none
true_part (some v) = if truthy v then some v else none

-- `d.get("fields", [])`
abbrev pub raw_fields : Dict Value → Value
raw_fields d = or_else (get "fields" d) (list_of [])

module _ (floats : Floats) where
  unfoldable pub parse_field_boost : String → Value
  parse_field_boost spec =
      if has_char b'^' spec
      then (let (field, boost) = partition b'^' spec in
          field_weight field (or_else (floats.parse_float boost) one))
      else field_weight spec one

  abbrev parse_value : Value → Value
  parse_value (str s) = parse_field_boost s
  parse_value v = v

  -- `[_parse_field_boost(f) for f in v]` where `v and all(isinstance(f, str) for f in v)`
  unfoldable pub boosted_fields : Value → Result Exception (Option Value)
  unfolding parse_field_boost
  boosted_fields v =
      let found = (do
        vs ← iterate v
        ok (if all is_str vs then some (list_of (map parse_value vs)) else none)) in
      if truthy v then found else ok none

  -- `{k: v for k, v in kw.items() if k != "fields"}`, with "term_fields" set once more
  abbrev pub compiler_keyword : Dict Value → Dict Value
  compiler_keyword kw =
      let rest = without ("fields" ∷ []) kw in
      elim (true_part (get "term_fields" kw)) [ none ↦ rest | some v ↦ put "term_fields" v rest ]

  abbrev keyword_part : Dict Value → Option Value → Dict Value
  keyword_part kw (some converted) = ("term_fields", converted) ∷ []
  keyword_part kw none = compiler_keyword kw

  unfoldable pub adapt_keyword : Option (Dict Value) → Dict Value → Result Exception (Dict Value)
  unfolding boosted_fields
  adapt_keyword none adapted = ok adapted
  adapt_keyword (some kw) adapted = do
    converted ← boosted_fields (raw_fields kw)
    ok (put "keyword" (dict_of (keyword_part kw converted)) adapted)

  abbrev pub default_title : Value
  default_title = list_of (field_weight "name" one ∷ [])

  abbrev put_title : Value → Dict Value → Dict Value
  put_title match_fields adapted =
      put "title" (dict_of (("match_fields", match_fields) ∷ [])) adapted

  abbrev title_fields : Dict Value → Option Value → Value
  title_fields ti (some converted) = converted
  title_fields ti none = or_else (true_part (get "match_fields" ti)) default_title

  unfoldable pub adapt_title : Option (Dict Value) → Dict Value → Result Exception (Dict Value)
  unfolding boosted_fields
  adapt_title none adapted = ok (put_title default_title adapted)
  adapt_title (some ti) adapted = do
    converted ← boosted_fields (raw_fields ti)
    ok (put_title (title_fields ti converted) adapted)

  unfoldable pub adapt_text : Option (Dict Value) → Dict Value → Result Exception (Dict Value)
  unfolding boosted_fields
  adapt_text none adapted = ok adapted
  adapt_text (some tx) adapted = do
    converted ← boosted_fields (raw_fields tx)
    let part = copy_key "multi_match_type" tx (("fields", or_else converted (raw_fields tx)) ∷ [])
    ok (put "text" (dict_of part) adapted)

  unfoldable pub adapt_vector : Option (Dict Value) → Dict Value → Dict Value
  adapt_vector none adapted = adapted
  adapt_vector (some vec) adapted =
      put "vector"
        (dict_of (
          copy_key "num_candidates" vec
            (("vector_field", or_else (get "vector_field" vec) default_field) ∷ [])))
        adapted

  -- `hy.get("default_vector_weight") or hy.get("vector_weight")`, put as a float unless it is `None`
  abbrev hybrid_weight : Option Value → Dict Value → Result Exception (Dict Value)
  hybrid_weight none part = ok part
  hybrid_weight (some w) part = do
    weight ← floats.to_float w
    ok (put "default_vector_weight" weight part)

  abbrev pub or_legacy : Option Value → Option Value → Option Value
  or_legacy (some v) legacy = some v
  or_legacy none legacy = present legacy

  -- `hy.get("vector_field") or vec_sub.get("vector_field", "content_vector")`
  unfoldable pub hybrid_field : Option Value → Option Value → Result Exception Value
  hybrid_field (some v) vector_entry = ok v
  hybrid_field none vector_entry = do
    vec_sub ← as_dict (or_else (true_part vector_entry) (dict_of []))
    ok (or_else (get "vector_field" vec_sub) default_field)

  unfoldable pub adapt_hybrid :
      Option Value → Option (Dict Value) → Dict Value → Result Exception (Dict Value)
  unfolding hybrid_field
  adapt_hybrid vector_entry none adapted = ok adapted
  adapt_hybrid vector_entry (some hy) adapted = do
    weighted ←
        hybrid_weight
          (or_legacy (true_part (get "default_vector_weight" hy)) (get "vector_weight" hy)) []
    field ← hybrid_field (true_part (get "vector_field" hy)) vector_entry
    let part =
        copy_key "fields" hy (copy_key "num_candidates" hy (put "vector_field" field weighted))
    ok (
        put "hybrid" (dict_of (copy_key "multi_match_type" hy (copy_key "match_fields" hy part)))
          adapted)

  abbrev entry_of : String → Dict Value → Option (Dict Value)
  entry_of k raw_profile = dict_part (get k raw_profile)

  -- The form without the wrapper.
  unfoldable pub adapt_flat : Dict Value → Result Exception (Dict Value)
  unfolding adapt_keyword adapt_title adapt_text adapt_hybrid
  adapt_flat raw_profile = do
    with_keyword ← adapt_keyword (entry_of "keyword" raw_profile) []
    with_title ← adapt_title (entry_of "title" raw_profile) with_keyword
    with_text ← adapt_text (entry_of "text" raw_profile) with_title
    let with_vector = adapt_vector (entry_of "vector" raw_profile) with_text
    with_hybrid ←
        adapt_hybrid (get "vector" raw_profile) (entry_of "hybrid" raw_profile) with_vector
    ok (copy_key "response_fields" raw_profile with_hybrid)

  unfoldable pub adapt_skill_profile : Dict Value → Result Exception (Dict Value)
  adapt_skill_profile raw_profile =
      let adapted = adapt_flat raw_profile in
      if has "search_type_profile" raw_profile then ok raw_profile else adapted

  -- `SkillSearcher.search`
  unfoldable pub search_skill :
      Python
      → Tools
      → String
      → String
      → String
      → ℤ
      → Dict Value
      → Option String
      → Option Value
      → Result Exception SearchResult
  unfolding run_search
  search_skill py tools = run_search py tools map_hits adapt_skill_profile
