-- ===== src/Database/Binding/Payload.antt =====
-- The document that `create_index_binding` writes, against the one that it is given.
use bi_ble_atlas.Base.{String, ◌≡◌, refl, sym, ap, ◌∙◌, false, some, or_else, ◌==◌}
use bi_ble_atlas.Base.Dict.{Dict, get, get-put}
use bi_ble_atlas.Base.Value.{Value, str}
use bi_ble_atlas.Base.Result.{ok}
use bi_ble_atlas.Database.{Runtime, IndexBinding, post_init}
use bi_ble_atlas.Database.Lookup.{is_active_of}
use bi_ble_atlas.Database.Lookup.Laws.{Describes, Carries}
use bi_ble_atlas.Database.Binding.{payload_of}

-- The fields that the written document adds are not those that describe a binding.
pub get-payload_of :
    (k now : String) (doc : Dict Value)
    → ("is_active" == k) ≡ false
    → ("created_at" == k) ≡ false
    → ("updated_at" == k) ≡ false
    → ("deleted_at" == k) ≡ false
    → get k (payload_of now doc) ≡ get k doc
unfolding payload_of
get-payload_of k now doc a b c d = simp (get-put, a, b, c, d)

pub is_active_of-payload_of :
    (now : String) (doc : Dict Value) → is_active_of (payload_of now doc) ≡ is_active_of doc
unfolding payload_of
is_active_of-payload_of now doc = simp (get-put)

pub Describes-payload_of :
    (now : String) (doc : Dict Value) {b : IndexBinding}
    → Describes b (payload_of now doc)
    → Describes b doc
Describes-payload_of now doc {b} h = record {
  domain_type = sym (get-payload_of "domain_type" now doc refl refl refl refl) ∙ h.domain_type;
  kb_index = sym (get-payload_of "kb_index" now doc refl refl refl refl) ∙ h.kb_index;
  tag = sym (get-payload_of "tag" now doc refl refl refl refl) ∙ h.tag;
  parser_script_source =
      sym (get-payload_of "parser_script_source" now doc refl refl refl refl)
      ∙ h.parser_script_source;
  parser_script_sha256 =
      sym (get-payload_of "parser_script_sha256" now doc refl refl refl refl)
      ∙ h.parser_script_sha256;
  search_profile_sha256 =
      sym (get-payload_of "search_profile_sha256" now doc refl refl refl refl)
      ∙ h.search_profile_sha256;
  vector_model =
      ap (λ o. or_else o Value.null)
        (sym (get-payload_of "vector_model" now doc refl refl refl refl))
      ∙ h.vector_model;
  is_active = sym (is_active_of-payload_of now doc) ∙ h.is_active;
}

-- The profile of a binding that was created now from a document, and its times: it keeps a time of
-- creation that the document has.
pub record IsCreated (rt : Runtime) (now : String) (b : IndexBinding) (doc : Dict Value)
    : Type 0 where
  pub profile : Value
  pub given_profile : get "search_profile_json" doc ≡ some profile
  pub search_profile_json : post_init rt profile ≡ ok b.search_profile_json
  pub created_at : b.created_at ≡ or_else (get "created_at" doc) (str now)
  pub updated_at : b.updated_at ≡ str now
  pub deleted_at : b.deleted_at ≡ Value.null

pub IsCreated-payload_of :
    (rt : Runtime) (now : String) (doc : Dict Value) {b : IndexBinding}
    → Carries rt b (payload_of now doc)
    → IsCreated rt now b doc
unfolding payload_of
IsCreated-payload_of rt now doc h = record {
  profile = h.profile;
  given_profile =
      sym (get-payload_of "search_profile_json" now doc refl refl refl refl) ∙ h.stored_profile;
  search_profile_json = h.search_profile_json;
  created_at = sym h.created_at ∙ simp (get-put);
  updated_at = sym h.updated_at ∙ simp (get-put);
  deleted_at = sym h.deleted_at ∙ simp (get-put);
}
