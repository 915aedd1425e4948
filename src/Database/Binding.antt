-- ===== src/Database/Binding.antt =====
-- The bindings of opensearch/writer.py. elasticsearch/writer.py has the same methods, but for
-- `upgrade_binding_vector_model`, which it lacks.
pub mod Payload
pub mod Laws
use bi_ble_atlas.Base.{
  String, Bool, true, false, not, ◌≡◌, Option, none, some, List, [], ◌∷◌, is_empty, if◌then◌else◌,
  or_else, text_append, filter, map,
}
use bi_ble_atlas.Base.Dict.{Dict, get, put, has, keys}
use bi_ble_atlas.Base.Value.{Value, str, bool, list_of}
use bi_ble_atlas.Base.Result.{Result, ok, raise}
use bi_ble_atlas.Database.{
  index_binding_conflict, index_not_bound, database_backend_unavailable, database_invalid_argument,
  DatabaseErrorCode, DatabaseError, Failure, not_found, conflict, Exception, database, Runtime,
  item,
}
use bi_ble_atlas.Database.Client.{Operand, param, literal, Script, Client, unavailable}
use bi_ble_atlas.Database.Lookup.{error, binding_doc_id, details_of, is_active_of}
use bi_ble_atlas.Database.Step.{Step, ◌>>=◌, pure, lift, rescue}

-- f"Binding not found for {domain}::{kb_index}."
abbrev pub not_bound : (domain kb_index : String) → DatabaseError
not_bound domain kb_index =
    error index_not_bound
      (text_append "Binding not found for " (text_append (binding_doc_id domain kb_index) ".")) []

unfoldable pub required : List String
required =
    "domain_type" ∷ "kb_index" ∷ "tag" ∷ "parser_script_source" ∷ "parser_script_sha256"
    ∷ "search_profile_json" ∷ "search_profile_sha256" ∷ []

-- The required keys that a document lacks; the source goes through a set, in no order.
unfoldable pub missing : Dict Value → List String
unfolding required filter
missing doc = filter (λ k. not (has k doc)) required

-- The document that `create_index_binding` writes.
unfoldable pub payload_of : String → Dict Value → Dict Value
payload_of now doc = put "deleted_at" Value.null (
    put "updated_at" (str now) (
      put "created_at" (or_else (get "created_at" doc) (str now))
        (put "is_active" (bool (is_active_of doc)) doc)))

-- `raise` where a required key is missing
unfoldable pub check_complete : Dict Value → Result Exception (Unit {0})
unfolding missing
check_complete doc =
    if is_empty (missing doc)
    then ok tt
    else raise (
        database (
          error database_invalid_argument "create_index_binding requires complete binding_doc."
            (("missing_fields", list_of (map (λ k. str k) (missing doc))) ∷ [])))

-- {"created": True, "_id": resp.get("_id", doc_id)}, and the same of an update
abbrev pub answer : String → String → Dict Value → Dict Value
answer done doc_id resp = (done, bool true) ∷ ("_id", or_else (get "_id" resp) (str doc_id)) ∷ []

-- The assignments of `update_binding`: one for each key of the patch.
abbrev pub set_clauses : Dict Value → List (String × Operand)
set_clauses [] = []
set_clauses ((k, v) ∷ patch) = (k, param k) ∷ set_clauses patch

module _ (rt : Runtime) (c : Client) (index now : String) where
  unfoldable pub create_failed : (domain kb_index : Value) → Failure → Exception
  create_failed domain kb_index conflict = database (
      error index_binding_conflict
        (text_append "Index binding already exists for "
          (text_append (binding_doc_id (rt.str_of domain) (rt.str_of kb_index)) "."))
        [])
  create_failed domain kb_index e =
      unavailable c
        (error database_backend_unavailable "Failed to create index binding."
          (("domain_type", domain) ∷ ("kb_index", kb_index) ∷ []))
        e

  -- `client.index`, of a document whose domain and index are known.
  unfoldable pub create_document :
      (domain kb_index : Value) → Dict Value → Step c.State Exception (Dict Value)
  create_document domain kb_index doc =
      (λ s. rescue (create_failed domain kb_index) (
        c.create index (binding_doc_id (rt.str_of domain) (rt.str_of kb_index)) (payload_of now doc)
          s))
      >>= λ resp.
          pure (answer "created" (binding_doc_id (rt.str_of domain) (rt.str_of kb_index)) resp)

  unfoldable pub create_index_binding : Dict Value → Step c.State Exception (Dict Value)
  create_index_binding doc = lift (check_complete doc) >>= λ _.
      lift (item "domain_type" doc) >>= λ domain.
      lift (item "kb_index" doc) >>= λ kb_index. create_document domain kb_index doc

  unfoldable pub update_failed : String → (domain kb_index : String) → Failure → Exception
  update_failed message domain kb_index not_found = database (not_bound domain kb_index)
  update_failed message domain kb_index e =
      unavailable c
        (error database_backend_unavailable message (details_of "domain_type" domain kb_index)) e

  -- `client.update` with a script, as the three updates of a binding make it.
  unfoldable pub run_update :
      String → (domain kb_index : String) → Script → Step c.State Exception (Dict Value)
  unfolding update_failed
  run_update message domain kb_index script =
      (λ s.
        rescue (update_failed message domain kb_index)
          (c.update index (binding_doc_id domain kb_index) script s))
      >>= λ resp. pure (answer "updated" (binding_doc_id domain kb_index) resp)

  unfoldable pub deactivation : Script
  deactivation = record {
    source =
        ("is_active", literal (bool false))
        ∷ ("deleted_at", param "now")
        ∷ ("updated_at", param "now")
        ∷ [];
    params = ("now", str now) ∷ [];
  }

  unfoldable pub deactivate_binding :
      (domain kb_index : String) → Step c.State Exception (Dict Value)
  unfolding run_update deactivation
  deactivate_binding domain kb_index =
      run_update "Failed to deactivate index binding." domain kb_index deactivation

  unfoldable pub model_upgrade : String → Script
  model_upgrade vector_model = record {
    source = ("vector_model", param "vector_model") ∷ ("updated_at", param "now") ∷ [];
    params = ("vector_model", str vector_model) ∷ ("now", str now) ∷ [];
  }

  unfoldable pub upgrade_binding_vector_model :
      (domain kb_index vector_model : String) → Step c.State Exception (Dict Value)
  unfolding run_update model_upgrade
  upgrade_binding_vector_model domain kb_index vector_model =
      run_update "Failed to upgrade binding vector_model." domain kb_index
        (model_upgrade vector_model)

  unfoldable pub patch_script : Dict Value → Script
  patch_script patch = record {
    source = set_clauses (put "updated_at" (str now) patch);
    params = put "updated_at" (str now) patch;
  }

  unfoldable pub update_binding :
      (domain kb_index : String) → Dict Value → Step c.State Exception (Dict Value)
  unfolding run_update patch_script
  update_binding domain kb_index patch =
      run_update "Failed to update index binding." domain kb_index (patch_script patch)
