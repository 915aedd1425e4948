-- ===== src/Search/Hits.antt =====
-- bible/features/search/common/hit_mapper.py, and the `_map_hits` of the knowledge-base searcher: raw
-- OpenSearch hits become result items. A hit has a dictionary under "_source" and a score under
-- "_score", each of which may be absent.
pub mod Laws
mod Tests
use bi_ble_atlas.Base.{
  String, Bool, true, false, not, ◌&&◌, ◌||◌, Option, none, some, List, [], ◌∷◌, map, ◌==◌,
  is_empty, is_some, member, or_else, if◌then◌else◌, split, has_char,
}
use bi_ble_atlas.Base.Dict.{Dict, get, put, without}
use bi_ble_atlas.Base.Value.{Value, float, obj, fields, dict_of}

pub record Hit : Type 0 where
  pub source : Option (Dict Value)
  pub score : Option Value

abbrev pub excluded_fields : List String
excluded_fields = "chunk_id" ∷ "took_ms" ∷ []

abbrev pub score_field : String
score_field = "score"

-- One round of the loop: `none` is `MISSING`.
unfoldable pub step_into : String → Value → Option Value
step_into part (obj fs) = get part (fields fs)
step_into part v = none

-- `if val is MISSING: return`
abbrev pub and_then : Option Value → (Value → Option Value) → Option Value
and_then none next = none
and_then (some v) next = next v

unfoldable pub walk : List String → Value → Option Value
unfolding step_into
walk [] v = some v
walk (part ∷ parts) v = and_then (step_into part v) (walk parts)

-- `parts[-1]`
abbrev pub last_of : String → List String → String
last_of p [] = p
last_of p (q ∷ qs) = last_of q qs

abbrev pub leaf_key : List String → String
leaf_key [] = ""
leaf_key (p ∷ ps) = last_of p ps

unfoldable pub resolve_dot_path : Value → String → String × Option Value
unfolding walk
resolve_dot_path source path = let parts = split b'.' path in (leaf_key parts, walk parts source)

-- `if value is not MISSING: item[k] = value`
abbrev pub put_found : String → Option Value → Dict Value → Dict Value
put_found k none item = item
put_found k (some v) item = put k v item

-- One field of `response_fields`.
unfoldable pub map_field : Dict Value → Dict Value → String → Dict Value
unfolding resolve_dot_path
map_field source item field =
    if member field excluded_fields || field == score_field
    then item
    else if has_char b'.' field
    then (let (leaf, value) = resolve_dot_path (dict_of source) field in put_found leaf value item)
    else put_found field (get field source) item

unfoldable pub map_fields : Dict Value → Dict Value → List String → Dict Value
map_fields source item [] = item
map_fields source item (field ∷ rest) = map_fields source (map_field source item field) rest

abbrev pub source_of : Hit → Dict Value
source_of hit = or_else hit.source []

-- `hit.get("_score", 0.0)`
abbrev pub score_of : Hit → Value
score_of hit = or_else hit.score (float 0)

-- The branches on `response_fields`, without the score.
abbrev pub map_source : List String → Dict Value → Dict Value
map_source [] source = without excluded_fields source
map_source (f ∷ fs) source = map_fields source [] (f ∷ fs)

unfoldable pub map_hit : List String → Hit → Dict Value
unfolding map_fields map_field
map_hit response_fields hit =
    let item = map_source response_fields (source_of hit) in
    if is_empty response_fields || member score_field response_fields
    then put score_field (score_of hit) item
    else item

unfoldable pub map_hits : List Hit → List String → List (Dict Value)
unfolding map_hit
map_hits hits response_fields = map (map_hit response_fields) hits

-- `{field: source[field] for field in response_fields if field not in _excluded and field in source}`
unfoldable pub kb_fields : Dict Value → Dict Value → List String → Dict Value
kb_fields source item [] = item
kb_fields source item (field ∷ rest) =
    kb_fields source
      (if member field excluded_fields then item else put_found field (get field source) item) rest

abbrev pub kb_source : List String → Dict Value → Dict Value
kb_source [] source = without excluded_fields source
kb_source (f ∷ fs) source = kb_fields source [] (f ∷ fs)

unfoldable pub kb_map_hit : List String → Hit → Dict Value
kb_map_hit response_fields hit =
    put score_field (score_of hit) (kb_source response_fields (source_of hit))

-- `KnowledgeBaseSearcher._map_hits`
unfoldable pub kb_map_hits : List Hit → List String → List (Dict Value)
unfolding kb_map_hit
kb_map_hits hits response_fields = map (kb_map_hit response_fields) hits
