-- ===== src/Search/Searcher.antt =====
-- bible/features/search/knowledge_base_search/searcher/search_knowledge_base.py and
-- bible/features/search/memory_search/searcher/search_memory.py: one search request, from the query
-- text to the items. The embedding tool and the database are parameters; an exception of theirs is
-- the text that `str(exc)` gives. The two searchers differ by their mapper of hits.
pub mod Laws
use bi_ble_atlas.Base.{
  ℕ, String, Bool, true, false, not, ◌||◌, Option, none, some, List, [], ◌==◌, if◌then◌else◌,
  length, or_else, text_append,
}
use bi_ble_atlas.Base.Dict.{Dict}
use bi_ble_atlas.Base.Int.{ℤ, pos}
use bi_ble_atlas.Base.Value.{Value, int}
use bi_ble_atlas.Base.Result.{Result, ok, raise, ◌>>=◌}
use bi_ble_atlas.Search.{Exception, profile_invalid, internal_error, no_vector_model}
use bi_ble_atlas.Search.Compiler.{Dsl, Python, compile}
use bi_ble_atlas.Search.Hits.{Hit, map_hits, kb_map_hits}

-- What `search_content_docs` returns.
pub record Raw : Type 0 where
  pub hits : Option (List Hit)
  pub total : Option Value

pub record Tools : Type 0 where
  -- `none` where it returns
  pub ensure_model_ready : String → Option String
  pub embed_query : String → String → Result String Value
  pub search_content_docs : String → Dsl → Result String Raw

pub record SearchResult : Type 0 where
  pub kb_index : String
  pub total : Value
  pub items : List (Dict Value)

abbrev pub is_vector_type : String → Bool
is_vector_type s = s == "vector" || s == "hybrid"

-- `except Exception as exc: raise SearchInternalError(message % exc)`
unfoldable pub wrap {ℓ} : {A : Type ℓ} → String → Result String A → Result Exception A
wrap message (ok a) = ok a
wrap message (raise text) = raise (internal_error (text_append message text))

-- `if not vector_model: raise ...`
unfoldable pub require_model : String → Option String → Result Exception String
require_model search_type none = raise (profile_invalid (no_vector_model search_type))
require_model search_type (some model) =
    if model == "" then raise (profile_invalid (no_vector_model search_type)) else ok model

-- The embedding, unless the preparation of the model raises.
unfoldable pub embed_ready : Option String → Result String Value → Result String Value
embed_ready none embedding = embedding
embed_ready (some text) embedding = raise text

unfoldable pub embed_with : Tools → String → String → Result Exception (Option Value)
embed_with tools query model = do
  v ←
      wrap "Vector embedding failed: "
        (embed_ready (tools.ensure_model_ready model) (tools.embed_query query model))
  ok (some v)

-- Step 1.
unfoldable pub query_vector :
    Tools → String → String → Option String → Result Exception (Option Value)
query_vector tools search_type query vector_model =
    let embedded = (do
      model ← require_model search_type vector_model
      embed_with tools query model) in
    if is_vector_type search_type then embedded else ok none

abbrev pub Mapper : Type 0
Mapper = List Hit → List String → List (Dict Value)

-- Step 4.
unfoldable pub map_result : Mapper → String → List String → Raw → SearchResult
map_result map_hits kb_index response_fields raw =
    let items = map_hits (or_else raw.hits []) response_fields in
    record {
      kb_index = kb_index;
      total = or_else raw.total (int (pos (length items)));
      items = items;
    }

module _ (py : Python) (tools : Tools) where
  -- Steps 3 and 4.
  unfoldable pub execute : Mapper → String → Dsl × List String → Result Exception SearchResult
  unfolding wrap
  execute map_hits kb_index (dsl, response_fields) = do
    raw ← wrap "Database search failed: " (tools.search_content_docs kb_index dsl)
    ok (map_result map_hits kb_index response_fields raw)

  -- `adapt` is what is done to the profile before it is compiled: nothing, in two of the searchers.
  unfoldable pub run_search :
      Mapper
      → (Dict Value → Result Exception (Dict Value))
      → String
      → String
      → String
      → ℤ
      → Dict Value
      → Option String
      → Option Value
      → Result Exception SearchResult
  unfolding query_vector execute
  run_search map_hits adapt kb_index query search_type top_k search_profile vector_model
        vector_weight =
      do
        v ← query_vector tools search_type query vector_model
        profile ← adapt search_profile
        compiled ← compile py search_type query top_k profile vector_weight v
        execute map_hits kb_index compiled

  -- `KnowledgeBaseSearcher.search`
  unfoldable pub search_knowledge_base :
      String
      → String
      → String
      → ℤ
      → Dict Value
      → Option String
      → Option Value
      → Result Exception SearchResult
  unfolding run_search
  search_knowledge_base = run_search kb_map_hits ok

  -- `MemorySearcher.search`: the same steps with the shared mapper.
  unfoldable pub search_memory :
      String
      → String
      → String
      → ℤ
      → Dict Value
      → Option String
      → Option Value
      → Result Exception SearchResult
  unfolding run_search
  search_memory = run_search map_hits ok
