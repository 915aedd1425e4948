-- ===== src/Search/Service/Domains.antt =====
-- What the three domains put into the steps of their search services:
-- bible/features/search/knowledge_base_search/knowledge_base_search_service.py,
-- memory_search/memory_search_service.py and skill_search/skill_search_service.py beside it.
use bi_ble_atlas.Base.{String, [], Option, none, some, or_else, text_append, if◌then◌else◌}
use bi_ble_atlas.Base.Dict.{Dict, get}
use bi_ble_atlas.Base.Value.{Value, null, present, truthy, dict_of, one_half, three_fifths}
use bi_ble_atlas.Base.Result.{Result, ok, ◌>>=◌}
use bi_ble_atlas.Search.{Exception, as_dict}
use bi_ble_atlas.Search.Hits.{map_hits, kb_map_hits}
use bi_ble_atlas.Search.Searcher.{SearchResult}
use bi_ble_atlas.Search.Skill.{Floats, adapt_skill_profile}
use bi_ble_atlas.Search.Service.{Domain}

-- The default of the binding's profile, in the knowledge-base and memory services: a key that stands there with `None` gives `None`.
unfoldable pub default_weight : Dict Value → Result Exception (Option Value)
default_weight search_profile = do
  stp ← as_dict (or_else (get "search_type_profile" search_profile) (dict_of []))
  hybrid_cfg ← as_dict (or_else (get "hybrid" stp) (dict_of search_profile))
  ok (present (some (or_else (get "default_vector_weight" hybrid_cfg) three_fifths)))

abbrev same_index : String → String
same_index kb_index = kb_index

-- `search_result["kb_index"]`
abbrev result_index : String → SearchResult → String
result_index kb_index result = result.kb_index

-- `binding.kb_index`
abbrev binding_index : String → SearchResult → String
binding_index kb_index result = kb_index

unfoldable pub knowledge_base : Domain
knowledge_base = record {
  name = "KNOWLEDGE_BASE";
  kind = "knowledge_base";
  content_index = same_index;
  map_hits = kb_map_hits;
  adapt = ok;
  default_weight = default_weight;
  answer_index = result_index;
}

-- f"memory_{binding.kb_index}"
abbrev memory_index : String → String
memory_index kb_index = text_append "memory_" kb_index

unfoldable pub memory : Domain
memory = record {
  name = "MEMORY";
  kind = "memory";
  content_index = memory_index;
  map_hits = map_hits;
  adapt = ok;
  default_weight = default_weight;
  answer_index = binding_index;
}

module _ (floats : Floats) where
  -- `float(val) if val is not None else 0.5`
  abbrev float_or_half : Option Value → Result Exception (Option Value)
  float_or_half none = ok (some one_half)
  float_or_half (some v) = do w ← floats.to_float v; ok (some w)

  abbrev or_legacy : Option Value → Option Value → Option Value
  or_legacy none legacy = legacy
  or_legacy (some v) legacy = some v

  -- `stp.get("hybrid", {})` where the wrapper is true, and `search_profile.get("hybrid", {})` otherwise
  unfoldable pub hybrid_part : Value → Dict Value → Result Exception Value
  hybrid_part stp search_profile =
      let wrapped = (do d ← as_dict stp; ok (or_else (get "hybrid" d) (dict_of []))) in
      if truthy stp then wrapped else ok (or_else (get "hybrid" search_profile) (dict_of []))

  unfoldable pub skill_weight : Dict Value → Result Exception (Option Value)
  unfolding hybrid_part
  skill_weight search_profile = do
    part ← hybrid_part (or_else (get "search_type_profile" search_profile) null) search_profile
    hybrid_cfg ← as_dict part
    float_or_half (
        or_legacy (present (get "default_vector_weight" hybrid_cfg))
          (present (get "vector_weight" hybrid_cfg)))

  unfoldable pub skill : Domain
  unfolding skill_weight
  skill = record {
    name = "SKILL";
    kind = "skill";
    content_index = same_index;
    map_hits = map_hits;
    adapt = adapt_skill_profile floats;
    default_weight = skill_weight;
    answer_index = binding_index;
  }
