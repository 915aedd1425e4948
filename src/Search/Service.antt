-- ===== src/Search/Service.antt =====
-- The search services: bible/features/search/knowledge_base_search/knowledge_base_search_service.py,
-- memory_search/memory_search_service.py and skill_search/skill_search_service.py beside it, from the
-- request to the response. The three services run the same steps and differ by what `Domain` holds. The lookups of bindings are
-- parameters that return a binding or `None`; no searcher is injected, which is the production default.
pub mod Domains
pub mod Laws
mod Tests
use bi_ble_atlas.Base.{
  String, Bool, true, false, not, ◌&&◌, Option, none, some, List, [], ◌==◌, if◌then◌else◌, or_else,
  text_append,
}
use bi_ble_atlas.Base.Dict.{Dict, get}
use bi_ble_atlas.Base.Int.{ℤ, min_ℤ}
use bi_ble_atlas.Base.Value.{Value, present, dict_of, three_fifths}
use bi_ble_atlas.Base.Result.{Result, ok, raise, ◌>>=◌}
use bi_ble_atlas.Search.{Exception, index_not_bound, vector_model_conflict, as_dict}
use bi_ble_atlas.Search.Compiler.{Python}
use bi_ble_atlas.Search.Hits.{map_hits, kb_map_hits}
use bi_ble_atlas.Search.Searcher.{Tools, SearchResult, Mapper, is_vector_type, run_search}

pub record Binding : Type 0 where
  pub kb_index : String
  pub vector_model : Option String
  pub search_profile_json : Dict Value

pub record Writer : Type 0 where
  pub get_binding_by_domain_index : String → String → Option Binding
  pub get_binding_by_domain_tag : String → String → Option Binding

pub record SearchConfig : Type 0 where
  pub default_top_k : ℤ
  pub max_top_k : ℤ

pub record Request : Type 0 where
  pub query : String
  pub tag : String
  pub search_type : Option String
  pub top_k : Option ℤ
  pub vector_model : Option String
  pub vector_weight : Option Value
  pub kb_index : Option String

pub record Response : Type 0 where
  pub domain : String
  pub kb_index : String
  pub tag : String
  pub total : Value
  -- the key under "results", and the list there
  pub kind : String
  pub items : List (Dict Value)

pub record Domain : Type 0 where
  pub name : String
  pub kind : String
  -- what the searcher does to the profile before it compiles it
  pub adapt : Dict Value → Result Exception (Dict Value)
  -- the profile's default of the vector weight
  pub default_weight : Dict Value → Result Exception (Option Value)
  -- the index that the searcher is given
  pub content_index : String → String
  pub map_hits : Mapper
  -- the response's index, from the binding's and the searcher's result
  pub answer_index : String → SearchResult → String

-- `if s`, for an optional text
abbrev pub given : Option String → Option String
given none = none
given (some s) = if s == "" then none else some s

-- `search_type or _DEFAULT_SEARCH_TYPE`
unfoldable pub effective_search_type : Option String → String
effective_search_type search_type = or_else (given search_type) "text"

unfoldable pub normalise_top_k : SearchConfig → Option ℤ → ℤ
normalise_top_k cfg top_k = min_ℤ (or_else top_k cfg.default_top_k) cfg.max_top_k

unfoldable pub caller_weight :
    Option Value → Result Exception (Option Value) → Result Exception (Option Value)
caller_weight none default = default
caller_weight (some w) default = ok (some w)

unfoldable pub normalise_vector_weight :
    (Dict Value → Result Exception (Option Value))
    → Option Value
    → String
    → Dict Value
    → Result Exception (Option Value)
unfolding caller_weight
normalise_vector_weight default vector_weight search_type search_profile =
    let weight = caller_weight vector_weight (default search_profile) in
    if is_vector_type search_type then weight else ok none

-- `if vector_model and bound_model and vector_model != bound_model: raise ...`
unfoldable pub check_model : Option String → Option String → Result Exception (Option String)
check_model none bound_model = ok bound_model
check_model (some model) none = ok none
check_model (some model) (some bound) =
    if not (model == "") && (not (bound == "") && not (model == bound))
    then raise (vector_model_conflict model bound)
    else ok (some bound)

-- `if binding is None: raise IndexNotBoundError(...)`
unfoldable pub bound_or : String → String → Option Binding → Result Exception Binding
bound_or selector value none = raise (index_not_bound selector value)
bound_or selector value (some binding) = ok binding

unfoldable pub select : Writer → Domain → String → Option String → Result Exception Binding
select db domain tag none = bound_or "tag" tag (db.get_binding_by_domain_tag domain.name tag)
select db domain tag (some kb_index) =
    bound_or "kb_index" kb_index (db.get_binding_by_domain_index domain.name kb_index)

unfoldable pub build_response : Domain → String → String → SearchResult → Response
build_response domain tag kb_index result = record {
  domain = domain.name;
  kb_index = domain.answer_index kb_index result;
  tag = tag;
  total = result.total;
  kind = domain.kind;
  items = result.items;
}

module _ (py : Python) (tools : Tools) (cfg : SearchConfig) (db : Writer) (domain : Domain) where
  -- Steps 3 to 6.
  unfoldable pub search_bound : Request → Binding → Result Exception Response
  search_bound request binding = do
    let search_type = effective_search_type request.search_type
    weight ←
        normalise_vector_weight domain.default_weight request.vector_weight search_type
          binding.search_profile_json
    model ← check_model request.vector_model binding.vector_model
    result ←
        run_search py tools domain.map_hits domain.adapt (domain.content_index binding.kb_index)
          request.query search_type (normalise_top_k cfg request.top_k) binding.search_profile_json
          model weight
    ok (build_response domain request.tag binding.kb_index result)

  unfoldable pub search : Request → Result Exception Response
  unfolding select search_bound
  search request = do
    binding ← select db domain request.tag (given request.kb_index)
    search_bound request binding
