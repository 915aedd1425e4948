-- ===== src/Search/Hits/Tests.antt =====
-- The mappers on concrete hits.
use bi_ble_atlas.Base.{String, ◌≡◌, refl, true, some, List, [], ◌∷◌, split, has_char, All}
use bi_ble_atlas.Base.Dict.{get}
use bi_ble_atlas.Base.Value.{str, float, dict_of}
use bi_ble_atlas.Search.Hits.{Hit, walk, leaf_key, source_of, map_hit}
use bi_ble_atlas.Search.Hits.Laws.{IsDotless, map_hit-dotted}

abbrev hit : Hit
hit = record {
  source = some (
      ("title", str "Genesis")
      ∷ ("chunk_id", str "c1")
      ∷ ("metadata", dict_of (("chunk_id", str "c2") ∷ []))
      ∷ []);
  score = some (float 7);
}

abbrev plain_fields : List String
plain_fields = "title" ∷ "chunk_id" ∷ "score" ∷ []

plain_fields-IsDotless : All IsDotless plain_fields
unfolding has_char
plain_fields-IsDotless = (refl, (refl, (refl, tt)))

abbrev path : String
path = "metadata.chunk_id"

path-dotted : has_char b'.' path ≡ true
unfolding has_char
path-dotted = refl

path-found : walk (split b'.' path) (dict_of (source_of hit)) ≡ some (str "c2")
unfolding walk split get
path-found = refl

map_hit-dotted_example :
    get (leaf_key (split b'.' path)) (map_hit (path ∷ []) hit) ≡ some (str "c2")
map_hit-dotted_example = map_hit-dotted path hit (str "c2") path-dotted path-found
