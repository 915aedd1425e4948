-- ===== src/Errors.antt =====
-- bible/common/errors.py: the error codes, their HTTP status and whether a caller may retry.
mod Laws
mod Tests
use bi_ble_atlas.Base.{
  ℕ, String, Bool, true, false, Option, none, some, or_else, List, [], ◌∷◌, ◌==◌, if◌then◌else◌,
}
use bi_ble_atlas.Base.Dict.{Dict}
use bi_ble_atlas.Base.Value.{Value}

pub data ErrorCode : Type 0 where
  invalid_argument unauthenticated permission_denied not_found already_exists : ErrorCode
  failed_precondition conflict resource_exhausted cancelled internal not_implemented : ErrorCode
  unavailable deadline_exceeded auth_invalid_api_key tenant_not_found : ErrorCode

-- `code.value`
unfoldable pub value : ErrorCode → String
value invalid_argument = "INVALID_ARGUMENT"
value unauthenticated = "UNAUTHENTICATED"
value permission_denied = "PERMISSION_DENIED"
value not_found = "NOT_FOUND"
value already_exists = "ALREADY_EXISTS"
value failed_precondition = "FAILED_PRECONDITION"
value conflict = "CONFLICT"
value resource_exhausted = "RESOURCE_EXHAUSTED"
value cancelled = "CANCELLED"
value internal = "INTERNAL"
value not_implemented = "NOT_IMPLEMENTED"
value unavailable = "UNAVAILABLE"
value deadline_exceeded = "DEADLINE_EXCEEDED"
value auth_invalid_api_key = "AUTH_INVALID_API_KEY"
value tenant_not_found = "TENANT_NOT_FOUND"

-- `ERROR_HTTP_STATUS_MAP`
unfoldable pub error_http_status_map : ErrorCode → ℕ
error_http_status_map invalid_argument = 400
error_http_status_map unauthenticated = 401
error_http_status_map permission_denied = 403
error_http_status_map not_found = 404
error_http_status_map already_exists = 409
error_http_status_map failed_precondition = 412
error_http_status_map conflict = 409
error_http_status_map resource_exhausted = 429
error_http_status_map cancelled = 499
error_http_status_map internal = 500
error_http_status_map not_implemented = 501
error_http_status_map unavailable = 503
error_http_status_map deadline_exceeded = 504
error_http_status_map auth_invalid_api_key = 401
error_http_status_map tenant_not_found = 404

-- membership in `RETRYABLE_ERROR_CODES`
unfoldable pub retryable_error_codes : ErrorCode → Bool
retryable_error_codes resource_exhausted = true
retryable_error_codes unavailable = true
retryable_error_codes deadline_exceeded = true
retryable_error_codes _ = false

-- A code, or the text of one: `ErrorCode | str`.
pub data CodeOrText : Type 0 where
  code : ErrorCode → CodeOrText
  text : String → CodeOrText

abbrev pub error_codes : List ErrorCode
error_codes =
    invalid_argument ∷ unauthenticated ∷ permission_denied ∷ not_found ∷ already_exists
    ∷ failed_precondition ∷ conflict ∷ resource_exhausted ∷ cancelled ∷ internal ∷ not_implemented
    ∷ unavailable ∷ deadline_exceeded ∷ auth_invalid_api_key ∷ tenant_not_found ∷ []

-- The enumeration's lookup by value, `ErrorCode(s)`; `none` is the `ValueError`.
unfoldable pub lookup_code : String → List ErrorCode → Option ErrorCode
lookup_code s [] = none
lookup_code s (c ∷ cs) = if value c == s then some c else lookup_code s cs

unfoldable pub error_code_from_value : CodeOrText → ErrorCode
error_code_from_value (code c) = c
error_code_from_value (text s) = or_else (lookup_code s error_codes) internal

unfoldable pub http_status_for_error : CodeOrText → ℕ
http_status_for_error c = error_http_status_map (error_code_from_value c)

unfoldable pub is_retryable_error : CodeOrText → Bool
is_retryable_error c = retryable_error_codes (error_code_from_value c)

pub record DomainError : Type 0 where
  pub code : ErrorCode
  pub message : String
  pub details : Option (Dict Value)
  pub retryable : Bool

-- `DomainError(code, message, details=..., retryable=...)`
unfoldable pub domain_error : ErrorCode → String → Option (Dict Value) → Option Bool → DomainError
unfolding is_retryable_error
domain_error c message details retryable = record {
  code = c;
  message = message;
  details = details;
  retryable = or_else retryable (is_retryable_error (code c));
}

unfoldable pub http_status_code : DomainError → ℕ
unfolding http_status_for_error
http_status_code e = http_status_for_error (code e.code)

pub record ErrorInfo : Type 0 where
  pub code : String
  pub message : String
  pub details : Option (Dict Value)
  pub retryable : Bool

unfoldable pub to_error_info : DomainError → ErrorInfo
unfolding value
to_error_info e = record {
  code = value e.code;
  message = e.message;
  details = e.details;
  retryable = e.retryable;
}
