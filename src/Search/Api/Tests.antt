-- ===== src/Search/Api/Tests.antt =====
-- The memory endpoint on a concrete request.
use bi_ble_atlas.Base.{String, Bool, true, none, some, List, [], ◌∷◌, ◌==◌}
use bi_ble_atlas.Base
use bi_ble_atlas.Base.Int.{pos}
use bi_ble_atlas.Base.Value.{int, one_half}
use bi_ble_atlas.Base.Result.{Result, ok}
use bi_ble_atlas.Search.{Exception}
use bi_ble_atlas.Search.Service.{Request, Response, SearchConfig}
use bi_ble_atlas.Search.Api
use bi_ble_atlas.Search.Api.{is_well_formed}

abbrev allowed : List String
allowed = "keyword" ∷ "hybrid" ∷ []

abbrev cfg : SearchConfig
cfg = record { default_top_k = pos 10; max_top_k = pos 100 }

abbrev request : Request
request = record {
  query = "cats";
  tag = "memory";
  search_type = some "hybrid";
  top_k = some (pos 5);
  vector_model = none;
  vector_weight = some one_half;
  kb_index = none;
}

abbrev response : Response
response = record {
  domain = "MEMORY";
  kb_index = "kb1";
  tag = "memory";
  total = int (pos 0);
  kind = "memory";
  items = [];
}

abbrev service : Request → Result Exception Response
service r = ok response

abbrev message_of : Exception → String
message_of e = "failed"
