-- ===== src/Domain/Errors/Policy.antt =====
-- internal/domain/errors.go: the retry policy as a table.
use aba_go_orchestrator.Common.{
  Text, text_eq, text_eq_iff, trim_space, to_upper, true, ◌≡◌, refl, ◌⊎◌, ◌↔◌, inl, inr, arith,
}
use aba_go_orchestrator.Domain.Errors.{
  retryable, unknown, disposition, classify_error_code, is_session_health_error,
  error_code_delivery_unknown, error_code_session_expired, error_code_worker_unavailable,
  error_code_max_ui_error, error_code_browser_error,
}

abbrev pub IsRetryableCode : Text → Type 0
IsRetryableCode u =
    (u ≡ error_code_session_expired)
    ⊎ (u ≡ error_code_worker_unavailable)
    ⊎ (u ≡ error_code_max_ui_error)
    ⊎ (u ≡ error_code_browser_error)

disposition-retryable : (u : Text) → disposition u ≡ retryable → IsRetryableCode u
unfolding disposition
disposition-retryable u h = ground (
  arith,
  text_eq_iff u error_code_session_expired,
  text_eq_iff u error_code_worker_unavailable,
  text_eq_iff u error_code_max_ui_error,
  text_eq_iff u error_code_browser_error,
)

retryable-disposition : (u : Text) → IsRetryableCode u → disposition u ≡ retryable
unfolding disposition text_eq
retryable-disposition u (inl h) = rw h refl
retryable-disposition u (inr (inl h)) = rw h refl
retryable-disposition u (inr (inr (inl h))) = rw h refl
retryable-disposition u (inr (inr (inr h))) = rw h refl

disposition-unknown : (u : Text) → disposition u ≡ unknown → u ≡ error_code_delivery_unknown
unfolding disposition
disposition-unknown u h = ground (arith, text_eq_iff u error_code_delivery_unknown)

unknown-disposition : (u : Text) → u ≡ error_code_delivery_unknown → disposition u ≡ unknown
unfolding disposition text_eq
unknown-disposition u h = rw h refl

-- After trimming and upper-casing, exactly four codes are retryable and exactly one is unknown;
-- every other code, the empty one included, is final.
pub classify_error_code_iff :
    (code : Text)
    → ((classify_error_code code ≡ retryable) ↔ IsRetryableCode (to_upper (trim_space code)))
      × ((classify_error_code code ≡ unknown)
          ↔ (to_upper (trim_space code) ≡ error_code_delivery_unknown))
unfolding classify_error_code
classify_error_code_iff code =
    let u = to_upper (trim_space code) in
    (
      (disposition-retryable u, retryable-disposition u),
      (disposition-unknown u, unknown-disposition u),
    )

-- An error that puts the account into cooldown is one that is retried.
pub session_health-retryable :
    (code : Text) → is_session_health_error code ≡ true → classify_error_code code ≡ retryable
unfolding classify_error_code is_session_health_error
session_health-retryable code h =
    let u = to_upper (trim_space code) in
    retryable-disposition u (
      ground
        (arith, text_eq_iff u error_code_session_expired, text_eq_iff u error_code_browser_error))
