-- ===== src/Errors/Laws.antt =====
-- What the error codes promise to the API layer.
use bi_ble_atlas.Base.{◌≤◌, ◌≡◌, refl, ◌⊎◌, true, arith, String, Option, none}
use bi_ble_atlas.Base.Dict.{Dict}
use bi_ble_atlas.Base.Value.{Value}
use bi_ble_atlas.Errors.{
  ErrorCode, value, CodeOrText, code, text, error_http_status_map, error_code_from_value,
  lookup_code, http_status_for_error, is_retryable_error, retryable_error_codes, domain_error,
  http_status_code, to_error_info,
}

-- The value of every code is read back as that code.
pub error_code_from_value-value : (c : ErrorCode) → error_code_from_value (text (value c)) ≡ c
unfolding error_code_from_value lookup_code value
error_code_from_value-value ErrorCode.invalid_argument = refl
error_code_from_value-value _ = refl

-- Whatever the code or the text given for one, the HTTP status is from 400 to 504.
pub http_status_bounds :
    (c : CodeOrText) → (400 ≤ http_status_for_error c) × (http_status_for_error c ≤ 504)
unfolding http_status_for_error error_http_status_map
http_status_bounds c = ground arith

-- A retryable error has one of the statuses 429, 503 and 504.
pub retryable_status :
    (c : CodeOrText)
    → is_retryable_error c ≡ true
    → (http_status_for_error c ≡ 429)
      ⊎ (http_status_for_error c ≡ 503)
      ⊎ (http_status_for_error c ≡ 504)
unfolding is_retryable_error http_status_for_error error_http_status_map retryable_error_codes
retryable_status c h = ground arith

from_code : (c : ErrorCode) → error_code_from_value (code c) ≡ c
unfolding error_code_from_value
from_code c = refl

-- An error that crosses the API as `ErrorInfo` keeps its status and its retry flag: the status
-- computed from the transmitted text is that of the error, and an error built without an explicit
-- flag transmits the flag of its code.
pub error_info_roundtrip :
    (c : ErrorCode) (message : String) (details : Option (Dict Value))
    → (http_status_for_error (text (to_error_info (domain_error c message details none)).code)
        ≡ http_status_code (domain_error c message details none))
      × ((to_error_info (domain_error c message details none)).retryable
          ≡ is_retryable_error (text (value c)))
unfolding to_error_info domain_error http_status_code http_status_for_error is_retryable_error
error_info_roundtrip c message details = ground (arith, error_code_from_value-value c, from_code c)
