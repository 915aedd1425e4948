-- ===== src/Search/Compiler/Canonical.antt =====
-- The compilation of profiles in the canonical form, for every list of fields and weights.
use bi_ble_atlas.Base.{
  String, ◌≡◌, ◌≢◌, refl, Option, none, List, [], ◌∷◌, map, eq_refl, text_append,
}
use bi_ble_atlas.Base.Dict.{Dict, get, unknown_keys}
use bi_ble_atlas.Base.Int.{ℤ}
use bi_ble_atlas.Base.Value.{Value, str, items-to_items, list_of, dict_of}
use bi_ble_atlas.Base.Result.{ok}
use bi_ble_atlas.Search.{iterate, subscript, as_key, as_dict, traverse}
use bi_ble_atlas.Search.Profile.{
  SearchType, keyword, title, text, vector, hybrid, name, parse_search_type, extract_type_profile,
  extract_by_wrapper, extract_wrapped, validate_top_level_profile, validate_profile_wrapper,
  require_entry, require_enabled, validate_type_profile, validate_field_lists,
  validate_field_entries, validate_num_candidates, type_profile_keys, field_list_names,
  validate_entries, response_fields, texts, extract_response_fields, source_fields,
}
use bi_ble_atlas.Search.Compiler.{
  Query, term, matches, multi_match, should, queries, Python, combine, field_and_weight, clause,
  clauses, compile_clauses, compile_keyword, compile_title, boosted, multi_match_query,
  compile_text, compile_by_type, with_source, compile,
}

-- A field with its weight, as an entry of a field list.
abbrev pub entry : String × Value → Value
entry (f, w) = dict_of (("field", str f) ∷ ("weight", w) ∷ [])

abbrev pub entries : List (String × Value) → Value
entries fws = list_of (map entry fws)

-- A profile in the wrapper form, with the part of one search type and the response fields.
abbrev pub canonical : SearchType → Dict Value → List String → Dict Value
canonical t part fields =
    ("search_type_profile", dict_of ((name t, dict_of part) ∷ []))
    ∷ ("response_fields", list_of (map (λ s. str s) fields))
    ∷ []

-- One clause as it is, several under `should`.
abbrev pub combined : Query → List Query → Query
combined q [] = q
combined q (r ∷ rs) = should (queries q (r ∷ rs))

combine-combined : (q : Query) (qs : List Query) → combine (q ∷ qs) ≡ ok (combined q qs)
unfolding combine
combine-combined q [] = refl
combine-combined q (r ∷ rs) = refl

validate_entries-entry :
    (t l : String) (fws : List (String × Value)) → validate_entries t l (map entry fws) ≡ ok tt
unfolding validate_entries unknown_keys
validate_entries-entry t l [] = refl
validate_entries-entry t l ((f, w) ∷ fws) = validate_entries-entry t l fws

clauses-entry :
    (form : Value → String → Value → Query) (query : String) (fws : List (String × Value))
    → traverse (clause form query) (map entry fws)
      ≡ ok (map (λ (fw : String × Value). form (str fw.0) query fw.1) fws)
unfolding traverse clause field_and_weight subscript as_dict as_key get
clauses-entry form query [] = refl
clauses-entry form query ((f, w) ∷ fws) = rw (clauses-entry form query fws)

texts-str : (fields : List String) → texts (map (λ s. str s) fields) ≡ ok fields
unfolding texts
texts-str [] = refl
texts-str (s ∷ fields) = rw (texts-str fields)

iterate-list_of : (vs : List Value) → iterate (list_of vs) ≡ ok vs
unfolding iterate
iterate-list_of vs = rw (items-to_items vs)

canonical-fields :
    (t : SearchType) (part : Dict Value) (fields : List String)
    → response_fields (get "response_fields" (canonical t part fields)) ≡ ok fields
unfolding response_fields get
canonical-fields t part fields = rw (items-to_items (map (λ s. str s) fields), texts-str)

canonical-source :
    (t : SearchType) (part : Dict Value) (fields : List String)
    → extract_response_fields (canonical t part fields) ≡ ok (source_fields fields)
unfolding extract_response_fields response_fields get
canonical-source t part fields = rw (items-to_items (map (λ s. str s) fields), texts-str)

-- The field list that a search type reads first.
abbrev pub list_name : SearchType → String
list_name keyword = "term_fields"
list_name title = "match_fields"
list_name _ = "fields"

module _ (x : String × Value) (xs : List (String × Value)) (fields : List String) where
  abbrev listed : SearchType → Dict Value
  listed t = (list_name t, entries (x ∷ xs)) ∷ []

  -- The part with one field list passes the checks.
  listed-part :
      (t : SearchType)
      → t ≢ vector
      → extract_type_profile t (canonical t (listed t) fields) ≡ ok (listed t)
  unfolding extract_type_profile extract_by_wrapper extract_wrapped validate_top_level_profile
      validate_profile_wrapper require_entry require_enabled validate_type_profile
      validate_field_lists validate_field_entries validate_num_candidates unknown_keys get as_dict
      name type_profile_keys field_list_names
  listed-part keyword h =
      rw (items-to_items (map entry xs), validate_entries-entry "keyword" "term_fields" xs)
  listed-part title h =
      rw (items-to_items (map entry xs), validate_entries-entry "title" "match_fields" xs)
  listed-part text h = rw (items-to_items (map entry xs), validate_entries-entry "text" "fields" xs)
  listed-part hybrid h =
      rw (items-to_items (map entry xs), validate_entries-entry "hybrid" "fields" xs)
  listed-part vector h = absurd (h refl)

  -- The query over a list of fields, one clause for each.
  abbrev pub clause_query : (Value → String → Value → Query) → String → Query
  clause_query form query =
      combined (form (str x.0) query x.1)
        (map (λ (fw : String × Value). form (str fw.0) query fw.1) xs)

  compile_clauses-listed :
      (form : Value → String → Value → Query) (t : SearchType) (l query : String) (top_k : ℤ)
      → compile_clauses form t l query top_k ((l, entries (x ∷ xs)) ∷ [])
        ≡ ok (record { size = top_k; query = clause_query form query; source = none })
  unfolding compile_clauses get clauses
  compile_clauses-listed form t l query top_k = rw (
    eq_refl l,
    iterate-list_of (map entry (x ∷ xs)),
    clauses-entry form query (x ∷ xs),
    combine-combined,
  )

  module _ (py : Python) (query : String) (top_k : ℤ) (w v : Option Value) where
    -- A keyword profile compiles to one term clause for each field, in the order of the profile and
    -- with its weight, or to the only clause itself; the response fields but "score" are the filter.
    pub compile-keyword :
        compile py "keyword" query top_k (canonical keyword (listed keyword) fields) w v
        ≡ ok (
          with_source py
              (source_fields fields)
              (record { size = top_k; query = clause_query term query; source = none }),
          fields,
        )
    unfolding compile compile_by_type compile_keyword parse_search_type
    compile-keyword = rw (
      listed-part keyword (λ e. cc (e)),
      compile_clauses-listed term keyword "term_fields" query top_k,
      canonical-source keyword (listed keyword) fields,
      canonical-fields keyword (listed keyword) fields,
    )

    -- A title profile compiles to one match clause for each field, in the order of the profile and
    -- with its weight, or to the only clause itself; the response fields but "score" are the filter.
    pub compile-title :
        compile py "title" query top_k (canonical title (listed title) fields) w v
        ≡ ok (
          with_source py
              (source_fields fields)
              (record { size = top_k; query = clause_query matches query; source = none }),
          fields,
        )
    unfolding compile compile_by_type compile_title parse_search_type
    compile-title = rw (
      listed-part title (λ e. cc (e)),
      compile_clauses-listed matches title "match_fields" query top_k,
      canonical-source title (listed title) fields,
      canonical-fields title (listed title) fields,
    )

    -- The fields with their weights in the notation "field^weight".
    abbrev pub boosts : List (String × Value) → List String
    boosts [] = []
    boosts ((f, weight) ∷ fws) = text_append f (text_append "^" (py.str_of weight)) ∷ boosts fws

    module _ (str_of_text : (s : String) → py.str_of (str s) ≡ s) where
      boosted-entry :
          (fws : List (String × Value)) → traverse (boosted py) (map entry fws) ≡ ok (boosts fws)
      unfolding traverse boosted field_and_weight subscript as_dict get
      boosted-entry [] = refl
      boosted-entry ((f, weight) ∷ fws) = rw (str_of_text, boosted-entry fws)

      compile_text-listed :
          compile_text py query top_k (listed text)
          ≡ ok (record {
            size = top_k;
            query = multi_match query (boosts (x ∷ xs)) (str "most_fields");
            source = none;
          })
      unfolding compile_text multi_match_query get
      compile_text-listed = rw (iterate-list_of (map entry (x ∷ xs)), boosted-entry (x ∷ xs))

      -- A text profile compiles to one multi_match over all its fields in the boost notation, where
      -- `str` of a text is that text.
      pub compile-text :
          compile py "text" query top_k (canonical text (listed text) fields) w v
          ≡ ok (
            with_source py (source_fields fields) (record {
              size = top_k;
              query = multi_match query (boosts (x ∷ xs)) (str "most_fields");
              source = none;
            }),
            fields,
          )
      unfolding compile compile_by_type parse_search_type
      compile-text = rw (
        listed-part text (λ e. cc (e)),
        compile_text-listed,
        canonical-source text (listed text) fields,
        canonical-fields text (listed text) fields,
      )
