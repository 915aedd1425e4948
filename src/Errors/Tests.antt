-- ===== src/Errors/Tests.antt =====
-- The error codes at concrete errors.
use bi_ble_atlas.Base.{◌≡◌, true, refl}
use bi_ble_atlas.Errors
use bi_ble_atlas.Errors.{
  ErrorCode, value, text, error_code_from_value, http_status_for_error, is_retryable_error,
  domain_error, http_status_code, to_error_info,
}

retryable : is_retryable_error (text "UNAVAILABLE") ≡ true
unfolding is_retryable_error error_code_from_value Errors.retryable_error_codes Errors.lookup_code
    value
retryable = refl
