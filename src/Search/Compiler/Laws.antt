-- ===== src/Search/Compiler/Laws.antt =====
-- What a compiled query is: its size and its source filter, and the query itself for profiles in the
-- canonical form.
use bi_ble_atlas.Base.{
  String, ◌≡◌, refl, false, Option, none, some, List, [], ◌∷◌, arith, ◌==◌, eq_iff, member,
  is_empty, if◌then◌else◌,
}
use bi_ble_atlas.Base.Dict.{Dict, get}
use bi_ble_atlas.Base.Int.{ℤ}
use bi_ble_atlas.Base.Value.{Value, present}
use bi_ble_atlas.Base.Result.{Result, ok, >>=-eq-ok}
use bi_ble_atlas.Search.{Exception, profile_invalid, no_fields, iterate, as_key}
use bi_ble_atlas.Search.Profile.{
  SearchType, keyword, title, text, vector, hybrid, name, parse_search_type, extract_type_profile,
  response_fields, extract_response_fields, source_fields,
}
use bi_ble_atlas.Search.Compiler.{
  Query, term, matches, knn, function_score, should, last, more, Dsl, Python, clauses, list_field,
  require_truthy, compile_clauses, compile_keyword, compile_title, require_vector,
  require_vector_field, knn_query, compile_vector, multi_match_query, compile_text,
  effective_weight, weight_of_text, bm25_query, compile_hybrid, compile_by_type, with_source,
  compile,
}

-- The source filter drops "score" and keeps every other field.
pub member-source_fields :
    (f : String) (fs : List String)
    → member f (source_fields fs) ≡ (if f == "score" then false else member f fs)
unfolding source_fields
member-source_fields f [] = ground arith
member-source_fields f (g ∷ fs) =
    ground (arith, eq_iff g "score", eq_iff f "score", eq_iff g f, member-source_fields f fs)

compile_clauses-size :
    (form : Value → String → Value → Query) (t : SearchType) (l query : String) (top_k : ℤ)
    (d : Dict Value) {dsl : Dsl}
    → compile_clauses form t l query top_k d ≡ ok dsl
    → (dsl.size ≡ top_k) × (dsl.source ≡ none)
unfolding compile_clauses
compile_clauses-size form t l query top_k d h =
    let (u, a, h) =
      >>=-eq-ok (require_truthy (list_field l d) (profile_invalid (no_fields (name t)))) _ h in
    let (es, a, h) = >>=-eq-ok (iterate (list_field l d)) _ h in
    let (q, a, h) = >>=-eq-ok (clauses form query es) _ h in ground arith

source-eq :
    (p : Dict Value) {gs source : List String}
    → response_fields (get "response_fields" p) ≡ ok gs
    → extract_response_fields p ≡ ok source
    → source ≡ source_fields gs
unfolding extract_response_fields
source-eq p b a = cc (rw b at a)

module _ (py : Python) where
  vector_given :
      (t : SearchType) (v : Option Value) {x : Value} → require_vector t v ≡ ok x → v ≡ some x
  unfolding require_vector
  vector_given t none h = cc
  vector_given t (some y) h = cc

  weight_given : (w : Value) {x : Value} → weight_of_text py w ≡ ok x → py.text_weight w ≡ some x
  unfolding weight_of_text
  weight_given w h = ground arith

  field_given :
      (t : SearchType) (d : Dict Value) {f : Value}
      → require_vector_field t d ≡ ok f
      → get "vector_field" d ≡ some f
  unfolding require_vector_field
  field_given t d h = ground arith

  as_key-eq : (k : Value) {f : Value} → as_key k ≡ ok f → k ≡ f
  unfolding as_key
  as_key-eq k h = ground arith

  knn_query-eq :
      (f x : Value) (top_k : ℤ) (d : Dict Value) {q : Query}
      → knn_query f x top_k d ≡ ok q
      → q ≡ knn f x top_k (present (get "num_candidates" d))
  unfolding knn_query
  knn_query-eq f x top_k d h = let (k, a, h) = >>=-eq-ok (as_key f) _ h in cc (as_key-eq f a, h)

  by_type-size :
      (t : SearchType) (query : String) (top_k : ℤ) (d : Dict Value) (v w : Option Value)
      {dsl : Dsl}
      → compile_by_type py t query top_k d v w ≡ ok dsl
      → (dsl.size ≡ top_k) × (dsl.source ≡ none)
  unfolding compile_by_type compile_keyword compile_title compile_text compile_vector compile_hybrid
  by_type-size keyword query top_k d v w h =
      compile_clauses-size term keyword "term_fields" query top_k d h
  by_type-size title query top_k d v w h =
      compile_clauses-size matches title "match_fields" query top_k d h
  by_type-size text query top_k d v w h =
      let (u, a, h) =
        >>=-eq-ok (require_truthy (list_field "fields" d) (profile_invalid (no_fields (name text))))
          _ h in
      let (q, a, h) = >>=-eq-ok (multi_match_query py query (list_field "fields" d) d) _ h in
      ground arith
  by_type-size vector query top_k d v w h =
      let (x, a, h) = >>=-eq-ok (require_vector vector v) _ h in
      let (f, a, h) = >>=-eq-ok (require_vector_field vector d) _ h in
      let (q, a, h) = >>=-eq-ok (knn_query f x top_k d) _ h in ground arith
  by_type-size hybrid query top_k d v w h =
      let (x, a, h) = >>=-eq-ok (require_vector hybrid v) _ h in
      let (tw, a, h) = >>=-eq-ok (weight_of_text py (effective_weight py w d)) _ h in
      let (f, a, h) = >>=-eq-ok (require_vector_field hybrid d) _ h in
      let (b, a, h) = >>=-eq-ok (bm25_query py query d) _ h in
      let (q, a, h) = >>=-eq-ok (knn_query f x top_k d) _ h in ground arith

  finish :
      (top_k : ℤ) (source gs fs : List String) (d dsl : Dsl)
      → (d.size ≡ top_k) × (d.source ≡ none)
      → source ≡ source_fields gs
      → ◌≡◌ {A = Result Exception (Dsl × List String)}
          (ok (with_source py source d, gs))
          (ok (dsl, fs))
      → (dsl.size ≡ top_k)
        × (dsl.source ≡ (if is_empty (source_fields fs) then none else some (source_fields fs)))
        × (member "score" (source_fields fs) ≡ false)
  finish top_k source gs fs d dsl (sized, plain) e h =
      let same : gs ≡ fs = cc h in
      let made : with_source py source d ≡ dsl = cc h in
      rw (← made, e, same)
        (
          size_kept (source_fields fs) d sized,
          source_kept (source_fields fs) d plain,
          member-source_fields "score" fs,
        )
    where
      size_kept : (xs : List String) (d : Dsl) → d.size ≡ top_k → (with_source py xs d).size ≡ top_k
      size_kept [] d h = h
      size_kept (x ∷ xs) d h = h

      source_kept :
          (xs : List String) (d : Dsl)
          → d.source ≡ none
          → (with_source py xs d).source ≡ (if is_empty xs then none else some xs)
      source_kept [] d h = h
      source_kept (x ∷ xs) d h = refl

  -- Every compiled query, of every search type, asks for `top_k` hits, and its source filter is
  -- the response fields that it comes with without "score", or absent where no field is left.
  pub compile-size :
      (search_type query : String) (top_k : ℤ) (p : Dict Value) (w v : Option Value) {dsl : Dsl}
      {fs : List String}
      → compile py search_type query top_k p w v ≡ ok (dsl, fs)
      → (dsl.size ≡ top_k)
        × (dsl.source ≡ (if is_empty (source_fields fs) then none else some (source_fields fs)))
        × (member "score" (source_fields fs) ≡ false)
  unfolding compile
  compile-size s query top_k p w v {fs} h =
      let (t, a, h) = >>=-eq-ok (parse_search_type s) _ h in
      let (stp, a, h) = >>=-eq-ok (extract_type_profile t p) _ h in
      let (d, compiled, h) = >>=-eq-ok (compile_by_type py t query top_k stp v w) _ h in
      let (source, a, h) = >>=-eq-ok (extract_response_fields p) _ h in
      let (gs, b, h) = >>=-eq-ok (response_fields (get "response_fields" p)) _ h in
      finish top_k source gs fs d _ (by_type-size t query top_k stp v w compiled) (source-eq p b a)
        h

  -- A compiled hybrid query has two arms: the text arm with the weight `round(1.0 - w, 6)` and the
  -- nearest-neighbour arm with the weight w, where w is the caller's weight or else that of the
  -- profile; the latter asks for `top_k` neighbours of the query vector.
  pub compile_hybrid-arms :
      (query : String) (top_k : ℤ) (d : Dict Value) (v w : Option Value) {dsl : Dsl}
      → compile_hybrid py query top_k d v w ≡ ok dsl
      → (query_vector : Value) × (text_weight : Value) × (bm25 : Query) × (field : Value) × (v
          ≡ some query_vector)
        × (py.text_weight (effective_weight py w d) ≡ some text_weight)
        × (get "vector_field" d ≡ some field)
        × (dsl.query
            ≡ should (
                more (function_score bm25 text_weight) (
                  last (
                    function_score
                      (knn field query_vector top_k (present (get "num_candidates" d)))
                      (effective_weight py w d)))))
  unfolding compile_hybrid
  compile_hybrid-arms query top_k d v w h =
      let (x, a, h) = >>=-eq-ok (require_vector hybrid v) _ h in
      let (tw, b, h) = >>=-eq-ok (weight_of_text py (effective_weight py w d)) _ h in
      let (f, c, h) = >>=-eq-ok (require_vector_field hybrid d) _ h in
      let (bm, e, h) = >>=-eq-ok (bm25_query py query d) _ h in
      let (q, g, h) = >>=-eq-ok (knn_query f x top_k d) _ h in
      (
        x,
        tw,
        bm,
        f,
        vector_given hybrid v a,
        weight_given (effective_weight py w d) b,
        field_given hybrid d c,
        rw (← knn_query-eq f x top_k d g) (cc h),
      )
