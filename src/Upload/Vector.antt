-- ===== src/Upload/Vector.antt =====
-- What `StoreMemory` of memory_upload/storage/store_memory.py reads of a search profile for the
-- vectors, and the profile that it keeps for the binding.
use bi_ble_atlas.Base.{String, Option, none, some, [], ◌∷◌, if◌then◌else◌}
use bi_ble_atlas.Base.Dict.{Dict, get, put, without}
use bi_ble_atlas.Base.Int.{is_positive}
use bi_ble_atlas.Base.Value.{Value, int, str, obj, fields, dict_of}

-- `v` where `isinstance(v, dict)`
abbrev pub dict_at : String → Dict Value → Option (Dict Value)
dict_at k d = elim (get k d) [ some (obj fs) ↦ some (fields fs) | _ ↦ none ]

-- `v` where `isinstance(v, str)`
abbrev pub text_at : String → Dict Value → Option String
text_at k d = elim (get k d) [ some (str s) ↦ some s | _ ↦ none ]

-- The vector section of `search_type_profile`, where both are dictionaries.
abbrev pub vector_profile : Dict Value → Option (Dict Value)
vector_profile d = elim (dict_at "search_type_profile" d) [
  | none ↦ none
  | some types ↦ dict_at "vector" types
]

unfoldable pub extract_vector_source_template : Dict Value → Option String
extract_vector_source_template search_profile = elim (text_at "source_template" search_profile) [
  | some t ↦ some t
  | none ↦ elim (vector_profile search_profile) [
    | none ↦ none
    | some v ↦ text_at "source_template" v
  ]
]

abbrev pub dropped : Dict Value → Dict Value
dropped = without ("source_template" ∷ [])

unfoldable pub search_profile_for_binding : Dict Value → Dict Value
search_profile_for_binding search_profile = elim (dict_at "search_type_profile" search_profile) [
  | none ↦ dropped search_profile
  | some types ↦ elim (dict_at "vector" types) [
    | none ↦ dropped search_profile
    | some v ↦
        put "search_type_profile" (dict_of (put "vector" (dict_of (dropped v)) types))
          (dropped search_profile)
  ]
]

unfoldable pub extract_vector_options : Dict Value → Option (Dict Value)
extract_vector_options search_profile = elim (vector_profile search_profile) [
  | none ↦ none
  | some v ↦ elim (get "num_candidates" v) [
    | some (int n) ↦ if is_positive n then some (("num_candidates", int n) ∷ []) else none
    | _ ↦ none
  ]
]
