-- ===== src/Upload/Memory/Meta.antt =====
-- memory_upload/parsers/memory_parser/meta_parser.py, and `MemoryMeta` of schemas.py.
pub mod Laws
use bi_ble_atlas.Base.{
  ℕ, String, Bool, true, false, not, Option, none, some, List, [], ◌∷◌, ◌==◌, if◌then◌else◌,
  or_else, strip, text_length, leb,
}
use bi_ble_atlas.Base.Dict.{Dict, get}
use bi_ble_atlas.Base.Value.{Value, null, str, arr, items, truthy}
use bi_ble_atlas.Base.Result.{Result, ok, raise, ◌>>=◌, ◌>>◌, raise_if}
use bi_ble_atlas.Upload.{
  Exception, key_error, value_error, missing_field, too_long, not_iso8601, not_a_list, Runtime,
  as_dict, stripped, or_none,
}

pub record MemoryMeta : Type 0 where
  pub memory_id : String
  pub title : String
  pub abstract : String
  pub overview : String
  pub created_at : Option String
  pub updated_at : Option String
  pub task_ids : List String
  pub feature_tags : List String
  pub domain_tags : List String
  pub component_tags : List String
  pub source_client : Option String
  pub language : Option String

module _ (rt : Runtime) where
  abbrev pub opt_value : Value → Option String
  opt_value Value.null = none
  opt_value v = or_none (strip (rt.str_of v))

  -- `_opt(d.get(k))`
  unfoldable pub opt : String → Dict Value → Option String
  opt k d = opt_value (or_else (get k d) Value.null)

  -- `[str(v).strip() for v in value if str(v).strip()]`
  unfoldable pub nonblank : List Value → List String
  nonblank [] = []
  nonblank (v ∷ vs) =
      let rest = nonblank vs in
      if strip (rt.str_of v) == "" then rest else strip (rt.str_of v) ∷ rest

  unfoldable pub str_list : Value → Result Exception (List String)
  unfolding nonblank
  str_list Value.null = ok []
  str_list (arr vs) = ok (nonblank (items vs))
  str_list v = raise (value_error not_a_list)

  unfoldable pub require_field : String → Dict Value → Result Exception (Unit {0})
  require_field field d = raise_if (stripped rt field d == "") (value_error (missing_field field))

  unfoldable pub validate_required : Dict Value → Result Exception (Unit {0})
  unfolding require_field
  validate_required d = do
    require_field "memory_id" d
    require_field "title" d
    require_field "abstract" d

  -- `len(str(data.get(field, ""))) > limit`
  unfoldable pub limit_field : String → ℕ → Dict Value → Result Exception (Unit {0})
  limit_field field limit d =
      raise_if (not (leb (text_length (rt.str_of (or_else (get field d) (str "")))) limit))
        (value_error (too_long field limit))

  unfoldable pub validate_lengths : Dict Value → Result Exception (Unit {0})
  unfolding limit_field
  validate_lengths d = do
    limit_field "title" 200 d
    limit_field "abstract" 500 d
    limit_field "overview" 2000 d

  abbrev iso8601 : String → Option String → Result Exception (Unit {0})
  iso8601 k none = ok tt
  iso8601 k (some s) = raise_if (not (rt.is_iso8601 s)) (value_error (not_iso8601 k))

  -- The calls have `required=False`.
  unfoldable pub validate_iso8601 : String → Dict Value → Result Exception (Unit {0})
  unfolding opt
  validate_iso8601 k d = iso8601 k (opt k d)

  -- `data[k]`
  abbrev pub item : String → Dict Value → Result Exception Value
  item k d = elim (get k d) [ none ↦ raise (key_error k) | some v ↦ ok v ]

  -- `str(data.get("overview", "") or "").strip()`
  abbrev pub overview_of : Dict Value → String
  overview_of d =
      let v = or_else (get "overview" d) (str "") in
      strip (rt.str_of (if truthy v then v else str ""))

  unfoldable pub build_meta : Dict Value → Result Exception MemoryMeta
  unfolding opt str_list
  build_meta d = do
    memory_id ← item "memory_id" d
    title ← item "title" d
    abstract ← item "abstract" d
    task_ids ← str_list (or_else (get "task_ids" d) Value.null)
    feature_tags ← str_list (or_else (get "feature_tags" d) Value.null)
    domain_tags ← str_list (or_else (get "domain_tags" d) Value.null)
    component_tags ← str_list (or_else (get "component_tags" d) Value.null)
    ok (record {
      memory_id = strip (rt.str_of memory_id);
      title = strip (rt.str_of title);
      abstract = strip (rt.str_of abstract);
      overview = overview_of d;
      created_at = opt "created_at" d;
      updated_at = opt "updated_at" d;
      task_ids = task_ids;
      feature_tags = feature_tags;
      domain_tags = domain_tags;
      component_tags = component_tags;
      source_client = opt "source_client" d;
      language = some (or_else (opt "language" d) "zh");
    })

  unfoldable pub parse_meta : String → Result Exception MemoryMeta
  unfolding validate_required validate_lengths validate_iso8601 build_meta
  parse_meta path = do
    data_value ← rt.read_json path
    d ← as_dict data_value
    validate_required d
    validate_lengths d
    validate_iso8601 "created_at" d
    validate_iso8601 "updated_at" d
    build_meta d
