-- ===== src/Database/Lookup.antt =====
-- How opensearch/writer.py reads a binding: its document, and the two lookups. elasticsearch/writer.py has
-- the same methods; its query by tag names no order.
pub mod Laws
use bi_ble_atlas.Base.{
  String, Bool, true, false, not, Option, none, some, List, [], ◌∷◌, ◌++◌, is_empty, if◌then◌else◌,
  or_else, text_append, filter, map,
}
use bi_ble_atlas.Base.Dict.{Dict, get, put, has}
use bi_ble_atlas.Base.Int.{pos}
use bi_ble_atlas.Base.Value.{
  Value, Items, obj, arr, cons, nil, null, str, bool, int, truthy, list_of, dict_of,
}
use bi_ble_atlas.Base.Result.{Result, ok, raise, ◌>>=◌}
use bi_ble_atlas.Database.{
  Engine, opensearch, elasticsearch, index_binding_conflict, index_not_bound,
  database_backend_unavailable, database_invalid_argument, DatabaseErrorCode, DatabaseError,
  Failure, not_found, conflict, Exception, database, key_error, attribute_error, type_error,
  Runtime, IndexBinding, item, as_dict, get_or_null, post_init,
}
use bi_ble_atlas.Database.Client.{Operand, param, literal, Script, Client, unavailable}

abbrev pub error : DatabaseErrorCode → String → Dict Value → DatabaseError
error code message details = record { code = code; message = message; details = details }

-- `_binding_doc_id`
unfoldable pub binding_doc_id : (domain kb_index : String) → String
binding_doc_id domain kb_index = text_append domain (text_append "::" kb_index)

abbrev pub details_of : (name domain kb_index : String) → Dict Value
details_of name domain kb_index = (name, str domain) ∷ ("kb_index", str kb_index) ∷ []

-- `bool(source.get("is_active", True))`
abbrev pub is_active_of : Dict Value → Bool
is_active_of source = truthy (or_else (get "is_active" source) (bool true))

-- `hits[0].get("_source", {})` of hits that are true
unfoldable pub first_source : Value → Result Exception Value
first_source (arr (cons hit hits)) =
    as_dict hit >>= λ d. ok (or_else (get "_source" d) (dict_of []))
first_source (obj fs) = raise (key_error "0")
first_source (str s) = raise attribute_error
first_source v = raise type_error

-- `v or d`
abbrev pub or_value : Value → Value → Value
or_value v d = if truthy v then v else d

-- `(resp.get("hits") or {}).get("hits") or []`
unfoldable pub hits_of : Dict Value → Result Exception Value
hits_of resp = as_dict (or_value (get_or_null "hits" resp) (dict_of [])) >>= λ d.
    ok (or_value (get_or_null "hits" d) (list_of []))

-- {"term": {field: value}}
abbrev pub term_of : String → Value → Value
term_of field value = dict_of (("term", dict_of ((field, value) ∷ [])) ∷ [])

-- A call of the client where `TransportError` is caught.
abbrev pub expect {ℓ} :
    {A : Type ℓ} → Client → DatabaseError → Result Failure A → Result Exception A
expect c e (ok a) = ok a
expect c e (raise failure) = raise (unavailable c e failure)

module _ (rt : Runtime) where
  -- `_to_binding`
  unfoldable pub to_binding : Dict Value → Result Exception IndexBinding
  to_binding source = item "domain_type" source >>= λ domain_type.
      item "kb_index" source >>= λ kb_index. item "tag" source >>= λ tag.
      item "parser_script_source" source >>= λ script.
      item "parser_script_sha256" source >>= λ sha256.
      item "search_profile_json" source >>= λ profile_json.
      item "search_profile_sha256" source >>= λ profile_sha256.
      post_init rt profile_json >>= λ profile. ok (record {
        domain_type = domain_type;
        kb_index = kb_index;
        tag = tag;
        parser_script_source = script;
        parser_script_sha256 = sha256;
        vector_model = get_or_null "vector_model" source;
        search_profile_json = profile;
        search_profile_sha256 = profile_sha256;
        is_active = is_active_of source;
        created_at = get_or_null "created_at" source;
        updated_at = get_or_null "updated_at" source;
        deleted_at = get_or_null "deleted_at" source;
      })

  -- A document that was found: none unless it is active.
  unfoldable pub active_binding : Dict Value → Result Exception (Option IndexBinding)
  active_binding source =
      if is_active_of source then (to_binding source >>= λ b. ok (some b)) else ok none

  module _ (c : Client) (index : String) where
    -- The answer of `client.get`, and the two exceptions that are caught.
    unfoldable pub fetched :
        (domain kb_index : String)
        → Result Failure (Dict Value)
        → Result Exception (Option IndexBinding)
    fetched domain kb_index (ok resp) =
        as_dict (or_else (get "_source" resp) (dict_of [])) >>= active_binding
    fetched domain kb_index (raise not_found) = ok none
    fetched domain kb_index (raise e) = raise (
        unavailable c
          (error database_backend_unavailable "Failed to query index binding by domain/index."
            (details_of "domain" domain kb_index))
          e)

    unfoldable pub get_binding_by_domain_index :
        (domain kb_index : String) → c.State → Result Exception (Option IndexBinding)
    unfolding fetched
    get_binding_by_domain_index domain kb_index s =
        fetched domain kb_index (c.fetch index (binding_doc_id domain kb_index) s)

    -- `sort` stands in the query of OpenSearch alone.
    abbrev pub latest_first : Engine → Dict Value
    latest_first opensearch =
        ("sort", list_of (dict_of (("created_at", dict_of (("order", str "desc") ∷ [])) ∷ []) ∷ []))
        ∷ []
    latest_first elasticsearch = []

    -- The active bindings of a domain with a tag, two at most.
    unfoldable pub tag_query : Engine → (domain tag : String) → Dict Value
    tag_query engine domain tag =
        ("size", int (pos 2)) ∷ latest_first engine
        ++ (
          "query",
          dict_of (
              (
                "bool",
                dict_of (
                    (
                      "filter",
                      list_of (
                          term_of "domain_type.keyword" (str domain)
                          ∷ term_of "tag.keyword" (str tag)
                          ∷ term_of "is_active" (bool true)
                          ∷ []),
                    )
                    ∷ []),
              )
              ∷ []),
        )
          ∷ []

    -- The first hit, if there is one.
    unfoldable pub selected : Value → Result Exception (Option IndexBinding)
    selected hits =
        let found = first_source hits >>= as_dict >>= to_binding >>= λ b. ok (some b) in
        if truthy hits then found else ok none

    unfoldable pub get_binding_by_domain_tag :
        Engine → (domain tag : String) → c.State → Result Exception (Option IndexBinding)
    unfolding selected
    get_binding_by_domain_tag engine domain tag s =
        (expect c
            (error database_backend_unavailable "Failed to query index binding by domain/tag."
              (("domain", str domain) ∷ ("tag", str tag) ∷ []))
            (c.find index (tag_query engine domain tag) s)
          >>= hits_of)
        >>= selected
