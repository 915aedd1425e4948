-- ===== src/Search/Service/Tests.antt =====
-- The knowledge-base search service over one binding.
use bi_ble_atlas.Base.{String, ◌≡◌, refl, Option, none, some, [], ◌∷◌, ◌==◌, if◌then◌else◌}
use bi_ble_atlas.Base.Int.{pos, ◌≤ℤ◌}
use bi_ble_atlas.Base.Value.{Value, str, list_of, one, one_half}
use bi_ble_atlas.Base.Result.{Result, ok, raise}
use bi_ble_atlas.Search.Profile.{keyword}
use bi_ble_atlas.Search.Compiler.{Dsl, Python}
use bi_ble_atlas.Search.Compiler.Canonical.{canonical, entries}
use bi_ble_atlas.Search.Searcher.{Raw, Tools}
use bi_ble_atlas.Search.Searcher.Laws.{with_database}
use bi_ble_atlas.Search.Service
use bi_ble_atlas.Search.Service.{Binding, Writer, SearchConfig, Request, given, select, search}
use bi_ble_atlas.Search.Service.Domains.{knowledge_base}
use bi_ble_atlas.Search.Service.Laws.{search-confined}

abbrev str_of : Value → String
str_of (str s) = s
str_of v = "1.0"

abbrev complement : Value → Option Value
complement v = some one_half

abbrev py : Python
py = record { str_of = str_of; text_weight = complement }

abbrev found : Raw
found = record {
  hits = some ((record { source = some (("title", str "Genesis") ∷ []); score = some one }) ∷ []);
  total = none;
}

-- A database with one index.
abbrev one_index : String → Dsl → Result String Raw
one_index index dsl = if index == "kb1" then ok found else raise "no such index"

-- A database that answers on every index.
abbrev any_index : String → Dsl → Result String Raw
any_index index dsl = ok found

abbrev tools : Tools
tools = record {
  ensure_model_ready = λ model. none;
  embed_query = λ query model. ok (list_of (one ∷ []));
  search_content_docs = one_index;
}

abbrev cfg : SearchConfig
cfg = record { default_top_k = pos 10; max_top_k = pos 100 }

abbrev bound : Binding
bound = record {
  kb_index = "kb1";
  vector_model = some "m1";
  search_profile_json = canonical keyword (("term_fields", entries (("name", one) ∷ [])) ∷ []) [];
}

abbrev writer : Writer
writer = record {
  get_binding_by_domain_index = λ domain index. none;
  get_binding_by_domain_tag = λ domain tag. some bound;
}

abbrev request : Request
request = record {
  query = "cats";
  tag = "docs";
  search_type = some "keyword";
  top_k = some (pos 500);
  vector_model = some "m2";
  vector_weight = none;
  kb_index = none;
}

selected-bound :
    (binding : Binding)
    → select writer knowledge_base request.tag (given request.kb_index) ≡ ok binding
    → bound ≡ binding
unfolding select Service.bound_or
selected-bound binding selected = cc (selected)

confined :
    (binding : Binding)
    → select writer knowledge_base request.tag (given request.kb_index) ≡ ok binding
    → (dsl : Dsl) → dsl.size ≤ℤ cfg.max_top_k
    → tools.search_content_docs (knowledge_base.content_index binding.kb_index) dsl
      ≡ any_index (knowledge_base.content_index binding.kb_index) dsl
unfolding knowledge_base
confined binding selected dsl small = rw (← selected-bound binding selected) refl

search-confined_example :
    search py tools cfg writer knowledge_base request
    ≡ search py (with_database any_index tools) cfg writer knowledge_base request
search-confined_example =
    search-confined py tools cfg writer knowledge_base any_index request confined
