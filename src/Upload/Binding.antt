-- ===== src/Upload/Binding.antt =====
-- `_get_or_create_binding` of memory_upload/storage/store_memory.py and of
-- skill_upload/storage/store_skill.py, and `assert_binding_consistency` of the latter.
pub mod Laws
use bi_ble_atlas.Base.{
  String, Bool, true, false, not, ◌&&◌, Option, none, some, List, [], ◌∷◌, ◌++◌, ◌==◌,
  if◌then◌else◌, is_some,
}
use bi_ble_atlas.Base.Dict.{Dict}
use bi_ble_atlas.Base.Value.{Value, null, str}
use bi_ble_atlas.Base.Result.{Result, ok, raise}
use bi_ble_atlas.Upload.Trace.{
  Trace, created_binding, upgraded_binding, updated_binding, ◌>>=◌, ◌>>◌, pure, lift, emit,
}
use bi_ble_atlas.Upload.World.{IndexBinding, World}

-- What an import brings to its binding.
pub record Import : Type 0 where
  pub kb_index : String
  pub tag : String
  pub parser_script_source : String
  pub parser_script_sha256 : String
  pub vector_model : Option String
  pub search_profile : Dict Value

abbrev pub text_value : Option String → Value
text_value none = Value.null
text_value (some s) = str s

abbrev pub same_model : Option String → Option String → Bool
same_model none none = true
same_model (some a) (some b) = a == b
same_model _ _ = false

abbrev pub by_existing :
    Trace IndexBinding
    → (IndexBinding → Trace IndexBinding)
    → Option IndexBinding
    → Trace IndexBinding
by_existing create reuse none = create
by_existing create reuse (some existing) = reuse existing

module _ (world : World) (i : Import) where
  abbrev pub profile_json : String
  profile_json = world.dumps i.search_profile

  abbrev pub profile_sha256 : String
  profile_sha256 = world.sha256 profile_json

  -- The binding of an index without one.
  unfoldable pub new_binding : String → IndexBinding
  new_binding domain_type = record {
    domain_type = domain_type;
    kb_index = i.kb_index;
    tag = i.tag;
    parser_script_source = i.parser_script_source;
    parser_script_sha256 = i.parser_script_sha256;
    vector_model = i.vector_model;
    search_profile_json = profile_json;
    search_profile_sha256 = profile_sha256;
    is_active = true;
    created_at = some world.now;
  }

  unfoldable pub binding_doc : String → Dict Value
  binding_doc domain_type =
      ("domain_type", str domain_type)
      ∷ ("kb_index", str i.kb_index)
      ∷ ("tag", str i.tag)
      ∷ ("parser_script_source", str i.parser_script_source)
      ∷ ("parser_script_sha256", str i.parser_script_sha256)
      ∷ ("vector_model", text_value i.vector_model)
      ∷ ("search_profile_json", str profile_json)
      ∷ ("search_profile_sha256", str profile_sha256)
      ∷ ("created_at", str world.now)
      ∷ []

  unfoldable pub create_binding : String → Trace IndexBinding
  create_binding domain_type = do
    emit (created_binding (binding_doc domain_type))
    lift (world.create_index_binding (binding_doc domain_type))
    pure (new_binding domain_type)

  -- An existing binding of a memory, by its model and that of the import: one is only ever added.
  unfoldable pub upgrade_model : Option String → Option String → IndexBinding → Trace IndexBinding
  upgrade_model none (some m) existing = do
    emit (upgraded_binding i.kb_index m)
    lift (world.upgrade_binding_vector_model i.kb_index m)
    pure (record {
      domain_type = existing.domain_type;
      kb_index = existing.kb_index;
      tag = existing.tag;
      parser_script_source = existing.parser_script_source;
      parser_script_sha256 = existing.parser_script_sha256;
      vector_model = some m;
      search_profile_json = existing.search_profile_json;
      search_profile_sha256 = existing.search_profile_sha256;
      is_active = existing.is_active;
      created_at = existing.created_at;
    })
  upgrade_model _ _ existing = pure existing

  unfoldable pub upgrade_binding : IndexBinding → Trace IndexBinding
  unfolding upgrade_model
  upgrade_binding existing = upgrade_model existing.vector_model i.vector_model existing

  unfoldable pub get_or_create_binding : Trace IndexBinding
  get_or_create_binding =
      lift (world.get_binding_by_domain_index "MEMORY" i.kb_index)
      >>= by_existing (create_binding "MEMORY") upgrade_binding

  -- The fields of a skill's binding that the import changes.
  unfoldable pub patch : IndexBinding → Dict Value
  patch existing =
      (if same_model existing.vector_model i.vector_model
        then []
        else ("vector_model", text_value i.vector_model) ∷ [])
      ++ (if existing.parser_script_source == i.parser_script_source
          then []
          else ("parser_script_source", str i.parser_script_source) ∷ [])
      ++ (if existing.parser_script_sha256 == i.parser_script_sha256
          then []
          else ("parser_script_sha256", str i.parser_script_sha256) ∷ [])
      ++ (if existing.search_profile_sha256 == profile_sha256
          then []
          else ("search_profile_json", str profile_json)
            ∷ ("search_profile_sha256", str profile_sha256)
            ∷ [])

  unfoldable pub update_if_needed : Dict Value → Trace (Unit {0})
  update_if_needed [] = pure tt
  update_if_needed (entry ∷ patch) =
      emit (updated_binding i.kb_index (entry ∷ patch))
      >> lift (world.update_binding i.kb_index (entry ∷ patch))

  unfoldable pub overwrite_binding : IndexBinding → Trace IndexBinding
  overwrite_binding existing = do
    update_if_needed (patch existing)
    pure (record {
      domain_type = existing.domain_type;
      kb_index = existing.kb_index;
      tag = existing.tag;
      parser_script_source = i.parser_script_source;
      parser_script_sha256 = i.parser_script_sha256;
      vector_model = i.vector_model;
      search_profile_json = profile_json;
      search_profile_sha256 = profile_sha256;
      is_active = existing.is_active;
      created_at = existing.created_at;
    })

  unfoldable pub get_or_create_skill_binding : Trace IndexBinding
  get_or_create_skill_binding =
      lift (world.get_binding_by_domain_index "SKILL" i.kb_index)
      >>= by_existing (create_binding "SKILL") overwrite_binding
