-- ===== src/Search/Http.antt =====
-- bible/features/search/errors.py: the HTTP answer to a search that failed.
pub mod Laws
use bi_ble_atlas.Base.{
  ℕ, String, Bool, true, false, Option, none, some, List, [], ◌∷◌, ◌⊎◌, inl, inr, or_else,
  if◌then◌else◌,
}
use bi_ble_atlas.Base.Dict.{Dict, get}
use bi_ble_atlas.Search.{
  Exception, profile_invalid, internal_error, index_not_bound, vector_model_conflict,
}

abbrev pub search_error_http_status : Dict ℕ
search_error_http_status =
    ("INVALID_ARGUMENT", 400)
    ∷ ("TAG_REQUIRED", 400)
    ∷ ("TAG_INVALID", 400)
    ∷ ("SEARCH_TYPE_INVALID", 400)
    ∷ ("INDEX_NOT_BOUND", 404)
    ∷ ("VECTOR_MODEL_CONFLICT", 409)
    ∷ ("SEARCH_PROFILE_INVALID", 422)
    ∷ ("INTERNAL_ERROR", 500)
    ∷ []

unfoldable pub http_status_for_search_code : String → ℕ
http_status_for_search_code code = or_else (get code search_error_http_status) 500

-- The entry of `_EXCEPTION_MAP` for the class of an exception: the code, and whether the message is
-- exposed.
unfoldable pub exception_map : Exception → Option (String × Bool)
exception_map (index_not_bound selector value) = some ("INDEX_NOT_BOUND", true)
exception_map (vector_model_conflict requested bound) = some ("VECTOR_MODEL_CONFLICT", true)
exception_map (profile_invalid reason) = some ("SEARCH_PROFILE_INVALID", true)
exception_map (internal_error text) = some ("INTERNAL_ERROR", false)
exception_map e = none

pub record HttpException : Type 0 where
  pub status_code : ℕ
  pub code : String
  pub message : String

abbrev pub to_http : String → String × Bool → HttpException
to_http text (code, expose) = record {
  status_code = http_status_for_search_code code;
  code = code;
  message = if expose then text else "An internal error occurred.";
}

abbrev pub convert : Exception → String → Option (String × Bool) → HttpException ⊎ Exception
convert e text none = inr e
convert e text (some entry) = inl (to_http text entry)

-- `message_of` is `getattr(exc, "reason", None) or str(exc)`. What is raised: an `HTTPException`, or
-- the exception itself.
unfoldable pub raise_search_http_exception :
    (Exception → String) → Exception → HttpException ⊎ Exception
unfolding exception_map
raise_search_http_exception message_of e = convert e (message_of e) (exception_map e)
