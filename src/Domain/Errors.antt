-- ===== src/Domain/Errors.antt =====
-- internal/domain/errors.go: the structured error codes and the retry policy that they select.
pub mod Policy
use aba_go_orchestrator.Common.{
  Text, lit, text_eq, trim_space, to_upper, Bool, true, false, ◌||◌, if◌then◌else◌,
}

abbrev pub error_code_user_not_found_by_phone : Text
error_code_user_not_found_by_phone = lit "USER_NOT_FOUND_BY_PHONE"

abbrev pub error_code_invalid_phone : Text
error_code_invalid_phone = lit "INVALID_PHONE"

abbrev pub error_code_session_expired : Text
error_code_session_expired = lit "SESSION_EXPIRED"

abbrev pub error_code_worker_unavailable : Text
error_code_worker_unavailable = lit "WORKER_UNAVAILABLE"

abbrev pub error_code_max_ui_error : Text
error_code_max_ui_error = lit "MAX_UI_ERROR"

abbrev pub error_code_browser_error : Text
error_code_browser_error = lit "BROWSER_ERROR"

abbrev pub error_code_delivery_unknown : Text
error_code_delivery_unknown = lit "DELIVERY_UNKNOWN"

abbrev pub error_code_blocked_recipient : Text
error_code_blocked_recipient = lit "BLOCKED_RECIPIENT"

abbrev pub error_code_account_mismatch : Text
error_code_account_mismatch = lit "ACCOUNT_MISMATCH"

pub data ErrorDisposition : Type 0 where
  final retryable unknown : ErrorDisposition

-- The switch of ClassifyErrorCode, on the trimmed code in upper case.
unfoldable pub disposition : Text → ErrorDisposition
disposition u =
    if text_eq u error_code_user_not_found_by_phone
      || text_eq u error_code_invalid_phone
      || text_eq u error_code_blocked_recipient
      || text_eq u error_code_account_mismatch
    then final
    else if text_eq u error_code_delivery_unknown
    then unknown
    else if text_eq u error_code_session_expired
        || text_eq u error_code_worker_unavailable
        || text_eq u error_code_max_ui_error
        || text_eq u error_code_browser_error
    then retryable
    else final

unfoldable pub classify_error_code : Text → ErrorDisposition
unfolding disposition
classify_error_code code = disposition (to_upper (trim_space code))

unfoldable pub is_session_health_error : Text → Bool
is_session_health_error code =
    let u = to_upper (trim_space code) in
    text_eq u error_code_session_expired || text_eq u error_code_browser_error
