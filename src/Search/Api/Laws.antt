-- ===== src/Search/Api/Laws.antt =====
-- What the API promises of the requests that it answers, and of its refusals.
use bi_ble_atlas.Base.{
  ℕ, String, ◌≡◌, refl, Bool, true, false, Option, none, some, List, ◌⊎◌, inl, inr, ◌≤◌, member,
  arith, Bool-cases,
}
use bi_ble_atlas.Base.Int.{ℤ, pos, ◌≤ℤ◌}
use bi_ble_atlas.Base.Value.{Value, float}
use bi_ble_atlas.Base.Result.{Result, ok, raise, raise_if, ◌>>=◌}
use bi_ble_atlas.Search.{Exception}
use bi_ble_atlas.Search.Http.Laws.{raise_search_http_exception-answers}
use bi_ble_atlas.Search.Service.{Request, Response, SearchConfig, normalise_top_k}
use bi_ble_atlas.Search.Api.{
  Answer, refused, is_empty_text, is_well_formed, Check, validate_search_type, validate_top_k,
  validate_request, handle, after_search, after_checks, check_tag, bad_request,
}

module _ (allowed : List String) (cfg : SearchConfig) (required_tag : Option String) where
  -- A float from 0.0 to 1.0, by its 64-bit pattern: no sign and no greater than the pattern of 1.0, or -0.0.
  -- The patterns of the infinite numbers and of NaN are greater.
  abbrev pub IsUnit : Value → Type 0
  IsUnit w =
      (bits : ℕ) × (w ≡ float bits) × ((bits ≤ 0x3FF0000000000000) ⊎ (bits ≡ 0x8000000000000000))

  -- What holds of a request that an endpoint answers.
  pub record IsAccepted (request : Request) : Type 0 where
    pub query_given : is_empty_text request.query ≡ false
    pub tag_given : is_empty_text request.tag ≡ false
    pub type_allowed : (s : String) → request.search_type ≡ some s → member s allowed ≡ true
    pub top_k_bounded :
        (k : ℤ)
        → request.top_k ≡ some k
        → (pos 1 ≤ℤ k) × (k ≤ℤ cfg.max_top_k) × (normalise_top_k cfg (some k) ≡ k)
    pub weight_in_unit : (w : Value) → request.vector_weight ≡ some w → IsUnit w
    pub tag_required : (t : String) → required_tag ≡ some t → request.tag ≡ t

  abbrev Is400 : Check → Type 0
  Is400 (ok _) = Unit {0}
  Is400 (raise h) = h.status_code ≡ 400

  raise_if-400 : (b : Bool) (c m : String) → Is400 (raise_if b (bad_request c m))
  raise_if-400 true c m = refl
  raise_if-400 false c m = tt

  bind-400 :
      (a : Check) (next : Unit {0} → Check)
      → Is400 a
      → ((u : Unit {0}) → Is400 (next u))
      → Is400 (a >>= next)
  bind-400 (ok u) next h k = k u
  bind-400 (raise e) next h k = h

  type-400 : (o : Option String) → Is400 (validate_search_type allowed cfg required_tag o)
  unfolding validate_search_type
  type-400 none = tt
  type-400 (some s) = raise_if-400 _ _ _

  top_k-400 : (o : Option ℤ) → Is400 (validate_top_k allowed cfg required_tag o)
  unfolding validate_top_k
  top_k-400 none = tt
  top_k-400 (some k) = raise_if-400 _ _ _

  tag-400 :
      (required : Option String) (tag : String)
      → Is400 (check_tag allowed cfg required_tag required tag)
  tag-400 none tag = tt
  tag-400 (some t) tag = raise_if-400 _ _ _

  request-400 : (request : Request) → Is400 (validate_request allowed cfg required_tag request)
  unfolding validate_request
  request-400 request =
      bind-400 (validate_search_type allowed cfg required_tag request.search_type) _
        (type-400 request.search_type)
        λ _.
          bind-400 (validate_top_k allowed cfg required_tag request.top_k) _
            (top_k-400 request.top_k) λ _. tag-400 required_tag request.tag

  module _ (message_of : Exception → String) (search : Request → Result Exception Response)
      (request : Request) where
    -- A status of an answer with an error.
    abbrev pub IsError : Answer → Type 0
    IsError (refused h) = (400 ≤ h.status_code) × (h.status_code ≤ 500)
    IsError _ = Unit {0}

    after_search-IsError :
        (r : Result Exception Response)
        → IsError (after_search allowed cfg required_tag message_of search r)
    after_search-IsError (ok response) = tt
    after_search-IsError (raise e) = elim (raise_search_http_exception-answers message_of e) [
      | inl (h, at_h, (same, lo, hi, shown)) ↦ rw at_h (omega arith, hi)
      | inr (at_e, unknown) ↦ rw at_e tt
    ]

    after_checks-IsError :
        (c : Check)
        → Is400 c
        → IsError (after_checks allowed cfg required_tag message_of search request c)
    after_checks-IsError (ok u) h = after_search-IsError (search request)
    after_checks-IsError (raise e) h = (omega (arith, h), omega (arith, h))

    -- Whatever the request and its service do, an answer that refuses has a status from 400 to 500.
    pub handle-IsError : IsError (handle allowed cfg required_tag message_of search request)
    unfolding handle
    handle-IsError = elim (Bool-cases (is_well_formed request)) [
      | inr ill ↦ rw ill tt
      | inl well ↦ rw well (after_checks-IsError _ (request-400 request))
    ]
