-- ===== src/Upload/World.antt =====
-- What the imports ask of the world outside: the file gateway, the database writer, the embedding tool,
-- hashes and the clock. An answer depends on the call alone.
use bi_ble_atlas.Base.{ℕ, String, Bool, Option, List}
use bi_ble_atlas.Base.Dict.{Dict}
use bi_ble_atlas.Base.Value.{Value}
use bi_ble_atlas.Base.Result.{Result}
use bi_ble_atlas.Upload.{Exception}

-- `FileStoreResult` of bible/features/upload/types.py.
pub record FileStoreResult : Type 0 where
  pub filename : String
  pub storage_path : String
  pub file_hash : String
  pub size_bytes : Value

-- `IndexBinding` of bible/infrastructure/database/types.py, without the times of update and deletion.
-- `search_profile_json` is the text that `__post_init__` decodes.
pub record IndexBinding : Type 0 where
  pub domain_type : String
  pub kb_index : String
  pub tag : String
  pub parser_script_source : String
  pub parser_script_sha256 : String
  pub vector_model : Option String
  pub search_profile_json : String
  pub search_profile_sha256 : String
  pub is_active : Bool
  pub created_at : Option String

pub record World : Type 0 where
  -- `os.path.exists`, `os.path.basename`
  pub exists : String → Bool
  pub basename : String → String
  -- `gateway.store`: the index, where the domain and the index are given, the path, the name and the task
  pub store : Option String → String → String → Option Value → Result Exception FileStoreResult
  pub get_binding_by_domain_index : String → String → Result Exception (Option IndexBinding)
  pub create_index_binding : Dict Value → Result Exception (Unit {0})
  pub upgrade_binding_vector_model : String → String → Result Exception (Unit {0})
  pub update_binding : String → Dict Value → Result Exception (Unit {0})
  -- `embed_chunks`: the chunks, the model and the template
  pub embed_chunks :
      List (Dict Value) → String → Option Value → Result Exception (List (Dict Value))
  -- `str(exc)`
  pub text_of : Exception → String
  -- the `success_count` of `bulk_upsert_content_docs`
  pub bulk_upsert_content_docs :
      String → List (Dict Value) → Option (Dict Value) → Result Exception ℕ
  -- `json.dumps(profile, ensure_ascii=False, sort_keys=True)`, and the SHA-256 of a text
  pub dumps : Dict Value → String
  pub sha256 : String → String
  pub now : String
