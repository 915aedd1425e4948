-- ===== src/Search/Searcher/Laws.antt =====
-- What one search request asks the database for, and what it returns.
use bi_ble_atlas.Base.{String, ◌≡◌, refl, ap, Option}
use bi_ble_atlas.Base.Dict.{Dict}
use bi_ble_atlas.Base.Int.{ℤ}
use bi_ble_atlas.Base.Value.{Value}
use bi_ble_atlas.Base.Result.{Result, ok, raise, ◌>>=◌}
use bi_ble_atlas.Search.{Exception}
use bi_ble_atlas.Search.Compiler.{Dsl, Python, compile}
use bi_ble_atlas.Search.Compiler.Laws.{compile-size}
use bi_ble_atlas.Search.Searcher.{
  Raw, Tools, wrap, embed_with, query_vector, Mapper, map_result, run_search,
}

-- The tools with another database.
abbrev pub with_database : (String → Dsl → Result String Raw) → Tools → Tools
with_database db tools = record tools { search_content_docs = db }

pub bind-agrees {ℓ κ λ₁} :
    {E : Type ℓ} {A : Type κ} {B : Type λ₁} (r : Result E A) (f g : A → Result E B)
    → ((a : A) → r ≡ ok a → f a ≡ g a)
    → (r >>= f) ≡ (r >>= g)
bind-agrees (ok a) f g h = h a refl
bind-agrees (raise e) f g h = refl

-- A request sees the database only through queries on its index that ask for `top_k` hits: two
-- databases that agree on those give the same result, errors included.
pub run_search-local :
    (py : Python) (tools : Tools) (db : String → Dsl → Result String Raw) (m : Mapper)
    (adapt : Dict Value → Result Exception (Dict Value)) (kb_index query search_type : String)
    (top_k : ℤ) (p : Dict Value) (model : Option String) (w : Option Value)
    → ((dsl : Dsl) → dsl.size ≡ top_k → tools.search_content_docs kb_index dsl ≡ db kb_index dsl)
    → run_search py tools m adapt kb_index query search_type top_k p model w
      ≡ run_search py (with_database db tools) m adapt kb_index query search_type top_k p model w
unfolding run_search query_vector embed_with
run_search-local py tools db m adapt kb_index query search_type top_k p model w agree =
    bind-agrees (query_vector tools search_type query model) _ _ λ v at_v.
      bind-agrees (adapt p) _ _ λ p' at_p'.
        bind-agrees (compile py search_type query top_k p' w v) _ _ λ (dsl, fs) at_dsl.
          let (sized, _, _) = compile-size py search_type query top_k p' w v at_dsl in
          ap (λ r. wrap "Database search failed: " r >>= (λ raw. ok (map_result m kb_index fs raw)))
            (agree dsl sized)
