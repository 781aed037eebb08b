-- ===== src/Examples/Domain.antt =====
-- internal/domain: phones and error codes that come up.
use aba_go_orchestrator.Common.{
  lit, select, ◌≡◌, refl, ◌↔◌, true, arith, trim_space, to_upper, to_upper, text_eq,
}
use aba_go_orchestrator.Domain.Phone.{is_digit, normalize_phone}
use aba_go_orchestrator.Domain.Phone.Canonical.{Spells, normalize_phone_iff}
use aba_go_orchestrator.Domain.Errors.{is_session_health_error}
use aba_go_orchestrator.Examples.Data.{phone}

normalize_phone_iff_example :
    (normalize_phone (lit "+7 (912) 345-67-89") ≡ phone)
    ↔ Spells (select is_digit (lit "+7 (912) 345-67-89")) phone
normalize_phone_iff_example =
    normalize_phone_iff (lit "+7 (912) 345-67-89") phone (refl, refl, ground arith)

normalize_phone_test : normalize_phone (lit "+7 (912) 345-67-89") ≡ phone
unfolding normalize_phone
normalize_phone_test = refl

browser_is_sick : is_session_health_error (lit "Browser_Error ") ≡ true
unfolding is_session_health_error trim_space to_upper text_eq
browser_is_sick = refl
