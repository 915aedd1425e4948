-- ===== src/Upload/Memory/Profile.antt =====
-- memory_upload/parsers/memory_parser/search_profile_builder.py. Weights are the bits of the floats.

use bi_ble_atlas.Base.{ℕ, String, true, List, [], ◌∷◌, map}
use bi_ble_atlas.Base.Dict.{Dict}
use bi_ble_atlas.Base.Int.{pos}
use bi_ble_atlas.Base.Value.{Value, bool, int, float, str, dict_of, list_of}

-- {"field": field, "weight": weight}
abbrev pub weighted : String → ℕ → Value
weighted field weight = dict_of (("field", str field) ∷ ("weight", float weight) ∷ [])

abbrev pub five : ℕ
five = 0x4014000000000000

abbrev pub two : ℕ
two = 0x4000000000000000

abbrev pub three : ℕ
three = 0x4008000000000000

abbrev pub source_template : String
source_template = "{title}\n{abstract}\n{overview}"

abbrev pub keyword_part : Dict Value
keyword_part =
    ("enabled", bool true)
    ∷ (
      "term_fields",
      list_of (
          weighted "memory_id.keyword" five
          ∷ weighted "task_ids.keyword" two
          ∷ weighted "feature_tags.keyword" 0x3FF8000000000000
          ∷ weighted "domain_tags.keyword" 0x3FF3333333333333
          ∷ weighted "component_tags.keyword" 0x3FF3333333333333
          ∷ []),
    )
    ∷ []

abbrev pub title_part : Dict Value
title_part = ("enabled", bool true) ∷ ("match_fields", list_of (weighted "title" three ∷ [])) ∷ []

abbrev pub text_part : Dict Value
text_part =
    ("enabled", bool true)
    ∷ ("multi_match_type", str "most_fields")
    ∷ (
      "fields",
      list_of (
          weighted "title" three
          ∷ weighted "abstract" three
          ∷ weighted "overview" 0x4004000000000000
          ∷ weighted "content" two
          ∷ []),
    )
    ∷ []

abbrev pub vector_part : Dict Value
vector_part =
    ("enabled", bool true)
    ∷ ("vector_field", str "content_vector")
    ∷ ("source_template", str source_template)
    ∷ ("num_candidates", int (pos 100))
    ∷ []

abbrev pub hybrid_part : Dict Value
hybrid_part = ("enabled", bool true) ∷ ("default_vector_weight", float 0x3FE4CCCCCCCCCCCD) ∷ []

abbrev pub response_fields : List String
response_fields =
    "doc_id" ∷ "memory_id" ∷ "title" ∷ "abstract" ∷ "overview" ∷ "task_ids" ∷ "feature_tags"
    ∷ "domain_tags" ∷ "component_tags" ∷ "metadata.related_storage_paths" ∷ "score" ∷ []

-- `build_search_profile()`
unfoldable pub search_profile : Dict Value
search_profile =
    ("tag", str "memory")
    ∷ (
      "search_type_profile",
      dict_of (
          ("keyword", dict_of keyword_part)
          ∷ ("title", dict_of title_part)
          ∷ ("text", dict_of text_part)
          ∷ ("vector", dict_of vector_part)
          ∷ ("hybrid", dict_of hybrid_part)
          ∷ []),
    )
    ∷ ("response_fields", list_of (map (λ s. str s) response_fields))
    ∷ []
