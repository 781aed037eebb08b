-- ===== src/Transport/Download/Names.antt =====
-- internal/transport/http.go: the name under which a report is sent.
use aba_go_orchestrator.Common.{
  ◌-◌, Text, lit, take, length, length-append, ◌==◌, Bool, true, false, [], ◌∷◌, ◌++◌, exists, ◌≡◌,
  refl, ap, arith,
}
use aba_go_orchestrator.Transport.Download.{is_stop, from_last_dot, get_extension, status_name}

abbrev pub has_dot : Text → Bool
has_dot = exists λ c. c == b'.'

from_last_dot-none : (s : Text) → has_dot s ≡ false → from_last_dot s ≡ []
unfolding from_last_dot
from_last_dot-none [] h = refl
from_last_dot-none (c ∷ s) h = ground (arith, from_last_dot-none s)

from_last_dot-append : (s t : Text) → has_dot t ≡ false → from_last_dot (s ++ b'.' ∷ t) ≡ b'.' ∷ t
unfolding from_last_dot
from_last_dot-append [] t h = rw (from_last_dot-none t h) refl
from_last_dot-append (c ∷ s) t h = rw (from_last_dot-append s t h) refl

has_stop-append : (s t : Text) → exists is_stop (s ++ b'.' ∷ t) ≡ true
has_stop-append [] t = refl
has_stop-append (c ∷ s) t = ground (arith, has_stop-append s t)

get_extension-append : (s t : Text) → has_dot t ≡ false → get_extension (s ++ b'.' ∷ t) ≡ b'.' ∷ t
unfolding get_extension
get_extension-append s t h = rw (has_stop-append s t) (ground (arith, from_last_dot-append s t h))

take-length : (s t : Text) → take (length s) (s ++ t) ≡ s
take-length [] t = refl
take-length (c ∷ s) t = ap (◌∷◌ c) (take-length s t)

-- A report is sent under the original name with `_status` before the last dot of it, whatever stands
-- before and behind that dot.
pub status_name_lem :
    (stem ext : Text)
    → has_dot ext ≡ false
    → status_name (stem ++ b'.' ∷ ext) ≡ stem ++ lit "_status" ++ b'.' ∷ ext
unfolding status_name
status_name_lem stem ext h =
    let e : get_extension (stem ++ b'.' ∷ ext) ≡ b'.' ∷ ext = get_extension-append stem ext h in
    let n : length (stem ++ b'.' ∷ ext) - length (b'.' ∷ ext) ≡ length stem =
      omega (arith, length-append stem (b'.' ∷ ext)) in
    rw (e, n, take-length stem (b'.' ∷ ext)) refl
