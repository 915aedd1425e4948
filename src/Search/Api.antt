-- ===== src/Search/Api.antt =====
-- bible/api/search/knowledge_base_search_api.py, memory_search_api.py and skill_search_api.py: what a
-- request must satisfy before it reaches its service, and the answer. Pydantic's own answer to a body
-- that the model's constraints refuse is a constructor. The bounds of a weight are those of its 64-bit
-- pattern.
pub mod Laws
mod Tests
use bi_ble_atlas.Base.{
  leb, nat_eq, String, Bool, true, false, not, ◌&&◌, ◌||◌, Option, none, some, List, ◌==◌, member,
  if◌then◌else◌, strip, ◌⊎◌, inl, inr,
}
use bi_ble_atlas.Base.Int.{ℤ, pos, leb_ℤ}
use bi_ble_atlas.Base.Value.{Value, float}
use bi_ble_atlas.Base.Result.{Result, ok, raise, ◌>>=◌, ◌>>◌, raise_if}
use bi_ble_atlas.Search.{Exception}
use bi_ble_atlas.Search.Http.{
  http_status_for_search_code, HttpException, raise_search_http_exception,
}
use bi_ble_atlas.Search.Service.{Request, Response, SearchConfig}

pub data Answer : Type 0 where
  -- status 200
  answered : Response → Answer
  -- status 422, before the route runs
  unprocessable : Answer
  refused : HttpException → Answer
  -- an exception that leaves the route
  failed : Exception → Answer

-- `not v or not v.strip()`
unfoldable pub is_empty_text : String → Bool
is_empty_text v = strip v == ""

abbrev pub optional {ℓ} : {A : Type ℓ} → (A → Bool) → Option A → Bool
optional test none = true
optional test (some v) = test v

-- `ge=0.0, le=1.0`: of the patterns without a sign those up to that of 1.0, and that of -0.0. A weight is a
-- float when it is tested. NaN, which JSON does not have, is taken to be refused.
unfoldable pub in_unit : Value → Bool
in_unit (float bits) = leb bits 0x3FF0000000000000 || nat_eq bits 0x8000000000000000
in_unit v = false

-- The constraints of the request model: its field validators, `ge=1` and the bounds of the weight.
unfoldable pub is_well_formed : Request → Bool
unfolding is_empty_text in_unit
is_well_formed request =
    not (is_empty_text request.query)
    && not (is_empty_text request.tag)
    && optional (λ (k : String). not (is_empty_text k)) request.kb_index
    && optional (leb_ℤ (pos 1)) request.top_k
    && optional in_unit request.vector_weight

abbrev pub bad_request : String → String → HttpException
bad_request code message = record { status_code = 400; code = code; message = message }

abbrev Check : Type 0
Check = Result HttpException (Unit {0})

module _ (allowed_search_types : List String) (cfg : SearchConfig)
    (required_tag : Option String) where
  unfoldable pub validate_search_type : Option String → Check
  validate_search_type none = ok tt
  validate_search_type (some search_type) =
      raise_if (not (member search_type allowed_search_types))
        (bad_request "SEARCH_TYPE_INVALID" "search_type is not allowed.")

  unfoldable pub validate_top_k : Option ℤ → Check
  validate_top_k none = ok tt
  validate_top_k (some top_k) =
      raise_if (not (leb_ℤ top_k cfg.max_top_k))
        (bad_request "INVALID_ARGUMENT" "top_k exceeds max_top_k.")

  -- `required_tag` is `none` in the knowledge-base API, which checks none.
  abbrev check_tag : Option String → String → Check
  check_tag none tag = ok tt
  check_tag (some required) tag =
      raise_if (not (tag == required))
        (bad_request "TAG_INVALID" "tag is invalid for this endpoint.")

  unfoldable pub validate_tag : String → Check
  validate_tag = check_tag required_tag

  unfoldable pub validate_request : Request → Check
  unfolding validate_search_type validate_top_k validate_tag
  validate_request request = do
    validate_search_type request.search_type
    validate_top_k request.top_k
    validate_tag request.tag

  module _ (message_of : Exception → String) (search : Request → Result Exception Response) where
    abbrev to_answer : HttpException ⊎ Exception → Answer
    to_answer (inl h) = refused h
    to_answer (inr e) = failed e

    abbrev after_search : Result Exception Response → Answer
    after_search (ok response) = answered response
    after_search (raise e) = to_answer (raise_search_http_exception message_of e)

    abbrev after_checks : Request → Check → Answer
    after_checks request (raise h) = refused h
    after_checks request (ok _) = after_search (search request)

    -- The route.
    unfoldable pub handle : Request → Answer
    unfolding is_well_formed validate_request
    handle request =
        if is_well_formed request
        then after_checks request (validate_request request)
        else unprocessable
