-- ===== src/Database/Content.antt =====
-- `search_content_docs` of opensearch/writer.py and of elasticsearch/writer.py, which differ in the
-- preparation of the body.
pub mod Laws
use bi_ble_atlas.Base.{String, Option, none, some, List, [], ◌∷◌, or_else}
use bi_ble_atlas.Base.Dict.{Dict, get}
use bi_ble_atlas.Base.Int.{ℤ, pos}
use bi_ble_atlas.Base.Value.{Value, obj, int, str, fields, dict_of, list_of}
use bi_ble_atlas.Base.Result.{Result, ok, raise, ◌>>=◌}
use bi_ble_atlas.Database.{
  Engine, opensearch, elasticsearch, database_backend_unavailable, Exception, type_error, Runtime,
  as_dict, get_or_null,
}
use bi_ble_atlas.Database.Client.{Client}
use bi_ble_atlas.Database.Lookup.{error, or_value, expect}
use bi_ble_atlas.Database.Dsl.{prepare_opensearch, prepare_elasticsearch}

pub record Found : Type 0 where
  pub total : ℤ
  pub hits : Value

-- `_prepare_search_dsl`
unfoldable pub prepare : Engine → Dict Value → Result Exception Value
prepare opensearch dsl = ok (prepare_opensearch (dict_of dsl))
prepare elasticsearch dsl = prepare_elasticsearch dsl

module _ (rt : Runtime) where
  -- `int(v)`
  unfoldable pub as_int : Value → Result Exception ℤ
  as_int v = elim (rt.to_int v) [ none ↦ raise type_error | some z ↦ ok z ]

  -- `int(total.get("value", 0)) if isinstance(total, dict) else int(total)`
  unfoldable pub total_value : Value → Result Exception ℤ
  unfolding as_int
  total_value (obj fs) = as_int (or_else (get "value" (fields fs)) (int (pos 0)))
  total_value v = as_int v

  unfoldable pub found_in : Dict Value → Result Exception Found
  found_in response = as_dict (or_value (get_or_null "hits" response) (dict_of [])) >>= λ hits_obj.
      total_value (or_else (get "total" hits_obj) (int (pos 0))) >>= λ total.
      ok (record { total = total; hits = or_value (get_or_null "hits" hits_obj) (list_of []) })

  unfoldable pub search_content_docs :
      (c : Client) → Engine → String → Dict Value → c.State → Result Exception Found
  search_content_docs c engine index dsl s = (prepare engine dsl >>= as_dict) >>= λ body.
      expect c
        (error database_backend_unavailable "Failed to search content documents."
          (("index", str index) ∷ []))
        (c.find index body s)
      >>= found_in
