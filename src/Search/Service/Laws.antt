-- ===== src/Search/Service/Laws.antt =====
-- What the search services promise their callers, and what they ask of the database.
use bi_ble_atlas.Base.{
  String, ◌≡◌, refl, ap, Option, none, some, or_else, arith, Bool-cases, inl, inr, ◌⊎◌, not, ◌&&◌,
  ◌==◌,
}
use bi_ble_atlas.Base.Int.{ℤ, min_ℤ, ◌≤ℤ◌, leb_ℤ}
use bi_ble_atlas.Base.Result.{Result, ok, raise, ◌>>=◌, Result-cases}
use bi_ble_atlas.Search.{Exception, vector_model_conflict}
use bi_ble_atlas.Search.Compiler.{Dsl, Python}
use bi_ble_atlas.Search.Searcher.{Raw, Tools}
use bi_ble_atlas.Search.Searcher.Laws.{with_database, bind-agrees, run_search-local}
use bi_ble_atlas.Search.Service.{
  Binding, Writer, SearchConfig, Request, Response, Domain, given, effective_search_type,
  normalise_top_k, normalise_vector_weight, check_model, select, build_response, search_bound,
  search,
}

min_ℤ-bounded : (a b : ℤ) → min_ℤ a b ≤ℤ b
min_ℤ-bounded a b = elim (Bool-cases (leb_ℤ a b)) [
  | inl le ↦ rw le (ground (arith, le))
  | inr gt ↦ rw gt (omega arith)
]

-- The number of hits asked for is never above the configured maximum, whatever the caller asks.
normalise_top_k-bounded :
    (cfg : SearchConfig) (k : Option ℤ) → normalise_top_k cfg k ≤ℤ cfg.max_top_k
unfolding normalise_top_k
normalise_top_k-bounded cfg k = min_ℤ-bounded (or_else k cfg.default_top_k) cfg.max_top_k

abbrev pub without_model : Request → Request
without_model request = record request { vector_model = none }

module _ (py : Python) (tools : Tools) (cfg : SearchConfig) (db : Writer) (domain : Domain) where
  -- A search asks the content database only for hits of the selected binding's content index, and for
  -- at most `max_top_k` of them: two databases that agree on those queries give the same answer or
  -- the same error.
  pub search-confined :
      (content : String → Dsl → Result String Raw) (request : Request)
      → ((binding : Binding)
          → select db domain request.tag (given request.kb_index) ≡ ok binding
          → (dsl : Dsl) → dsl.size ≤ℤ cfg.max_top_k
          → tools.search_content_docs (domain.content_index binding.kb_index) dsl
            ≡ content (domain.content_index binding.kb_index) dsl)
      → search py tools cfg db domain request
        ≡ search py (with_database content tools) cfg db domain request
  unfolding search search_bound
  search-confined content request agree =
      let search_type = effective_search_type request.search_type in
      bind-agrees (select db domain request.tag (given request.kb_index)) _ _ λ found selected.
        bind-agrees
          (normalise_vector_weight domain.default_weight request.vector_weight search_type
            found.search_profile_json)
          _ _
          λ weight _.
            bind-agrees (check_model request.vector_model found.vector_model) _ _ λ model _.
              ap
                (λ r.
                  r >>= (λ result. ok (build_response domain request.tag found.kb_index result)))
                (run_search-local py tools content domain.map_hits domain.adapt
                  (domain.content_index found.kb_index) request.query search_type
                  (normalise_top_k cfg request.top_k) found.search_profile_json model weight
                  λ dsl sized.
                    agree found selected dsl (rw sized (normalise_top_k-bounded cfg request.top_k)))

  check_model-cases :
      (requested bound : Option String)
      → (check_model requested bound ≡ ok bound)
        ⊎ ((m : String) × (b : String) × (requested ≡ some m)
            × (bound ≡ some b)
            × (check_model requested bound ≡ raise (vector_model_conflict m b)))
  unfolding check_model
  check_model-cases none bound = inl refl
  check_model-cases (some m) none = inl refl
  check_model-cases (some m) (some b) =
      elim (Bool-cases (not (m == "") && (not (b == "") && not (m == b)))) [
        | inl clash ↦ inr (m, b, refl, refl, rw clash refl)
        | inr fine ↦ inl (rw fine refl)
      ]

  Conflict : Binding → Request → Result Exception Response → Type 0
  Conflict binding request r =
      (m : String) × (b : String) × (request.vector_model ≡ some m)
      × (binding.vector_model ≡ some b)
      × (r ≡ raise (vector_model_conflict m b))

  search_bound-model :
      (request : Request) (binding : Binding)
      → (search_bound py tools cfg db domain request binding
          ≡ search_bound py tools cfg db domain (without_model request) binding)
        ⊎ Conflict binding request (search_bound py tools cfg db domain request binding)
  unfolding search_bound Conflict check_model
  search_bound-model request binding =
      let search_type = effective_search_type request.search_type in
      elim (Result-cases (
        normalise_vector_weight domain.default_weight request.vector_weight search_type
          binding.search_profile_json)) [
            | inr (e, raised) ↦ inl (rw raised refl)
            | inl (weight, at_weight) ↦
                elim (check_model-cases request.vector_model binding.vector_model) [
                  | inl same ↦ inl (rw same refl)
                  | inr (m, b, at_m, at_b, clash) ↦
                      inr (m, b, at_m, at_b, rw (at_weight, clash) refl)
                ]
          ]

  -- The model that a caller names is only compared: the answer or error is the one without it, or
  -- the error is the conflict between that model and the one of the selected binding.
  pub search-model :
      (request : Request)
      → (search py tools cfg db domain request
          ≡ search py tools cfg db domain (without_model request))
        ⊎ ((binding : Binding) × (m : String) × (b : String) × (select db domain request.tag
                (given request.kb_index)
              ≡ ok binding)
            × (request.vector_model ≡ some m)
            × (binding.vector_model ≡ some b)
            × (search py tools cfg db domain request ≡ raise (vector_model_conflict m b)))
  unfolding search Conflict
  search-model request =
      elim (Result-cases (select db domain request.tag (given request.kb_index))) [
        | inr (e, raised) ↦ inl (rw raised refl)
        | inl (binding, selected) ↦ elim (search_bound-model request binding) [
          | inl same ↦ inl (rw selected same)
          | inr (m, b, at_m, at_b, clash) ↦
              inr (binding, m, b, selected, at_m, at_b, rw selected clash)
        ]
      ]
