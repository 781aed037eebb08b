-- ===== src/Logging/Redaction.antt =====
-- internal/logging/logging.go: RedactURL on an address with credentials.
use mathlib.Core.List.{append_assoc}
use native.Mathlib.Nat.{suc-add}
use aba_go_orchestrator.Common.{
  ℕ, ◌+◌, ◌-◌, Text, lit, is_empty, trim_space, ltb, ◌==◌, ==_refl, Bool, false, none, some, [],
  ◌∷◌, ◌++◌, length, take, drop, length-append, exists, if◌then◌else◌, ◌≡◌, refl, sym, ap, ◌∙◌,
  arith,
}
use aba_go_orchestrator.Logging.{last_index, index_slashes, redact_url, redact_at, hidden}

abbrev pub has : ℕ → Text → Bool
has c = exists λ d. c == d

last_index-none : (c : ℕ) (s : Text) → has c s ≡ false → last_index c s ≡ none
unfolding last_index
last_index-none c [] h = refl
last_index-none c (d ∷ s) h = ground (arith, last_index-none c s)

last_index-append :
    (c : ℕ) (s t : Text) → has c t ≡ false → last_index c (s ++ c ∷ t) ≡ some (length s)
unfolding last_index
last_index-append c [] t h = rw (last_index-none c t h, ==_refl c) refl
last_index-append c (d ∷ s) t h = rw (last_index-append c s t h) refl

index_slashes-append :
    (s t : Text) → has b'/' s ≡ false → index_slashes (s ++ b'/' ∷ b'/' ∷ t) ≡ some (length s)
unfolding index_slashes
index_slashes-append [] t h = refl
index_slashes-append (c ∷ []) t h = ground (arith)
index_slashes-append (c ∷ d ∷ s) t h = ground (arith, index_slashes-append (d ∷ s) t)

take-length : (s t : Text) → take (length s) (s ++ t) ≡ s
take-length [] t = refl
take-length (c ∷ s) t = ap (◌∷◌ c) (take-length s t)

drop-length : (s t : Text) → drop (length s) (s ++ t) ≡ t
drop-length [] t = refl
drop-length (c ∷ s) t = drop-length s t

-- The address with a scheme, credentials and a host.
abbrev pub address : Text → Text → Text → Text
address scheme user host = (scheme ++ b'/' ∷ b'/' ∷ []) ++ user ++ b'@' ∷ host

drop_after : (c : ℕ) (s t : Text) → drop (length s + 1) (s ++ c ∷ t) ≡ t
drop_after c [] t = refl
drop_after c (d ∷ s) t = rw suc-add (drop_after c s t)

redacted :
    (p user host : Text) (n : ℕ)
    → n + 2 ≡ length p
    → is_empty user ≡ false
    → redact_at (p ++ user ++ b'@' ∷ host) (length (p ++ user)) (some n) ≡ p ++ hidden user ++ host
redacted p user host n e u =
    let rest = user ++ b'@' ∷ host in
    let wide : length (p ++ user) ≡ length p + length user = length-append p user in
    let late : ltb (length (p ++ user)) (length p) ≡ false = ground (arith, wide) in
    let gap : length (p ++ user) - length p ≡ length user = omega (arith, wide) in
    let whole : p ++ user ++ b'@' ∷ host ≡ p ++ rest = append_assoc p user (b'@' ∷ host) in
    let head : take (length p) (p ++ user ++ b'@' ∷ host) ≡ p =
      ap (take (length p)) whole ∙ take-length p rest in
    let tail : drop (length p) (p ++ user ++ b'@' ∷ host) ≡ rest =
      ap (drop (length p)) whole ∙ drop-length p rest in
    rw
      (
        e,
        late,
        tail,
        gap,
        take-length user (b'@' ∷ host),
        u,
        head,
        drop_after b'@' (p ++ user) host,
      )
      refl

-- The credentials of an address, whatever they are, are replaced: only whether they hold a colon is
-- still seen. This holds of a scheme without a slash and a host without an `@`, and of credentials
-- with any characters.
pub redact_url-address :
    (scheme user host : Text)
    → trim_space (address scheme user host) ≡ address scheme user host
    → has b'/' scheme ≡ false
    → has b'@' host ≡ false
    → is_empty user ≡ false
    → redact_url (address scheme user host)
      ≡ (scheme ++ lit "//") ++ (if has b':' user then lit "***:***@" else lit "***@") ++ host
unfolding redact_url
redact_url-address scheme user host t s h u =
    let p = scheme ++ b'/' ∷ b'/' ∷ [] in
    let at : last_index b'@' (address scheme user host) ≡ some (length (p ++ user)) =
      last_index-append b'@' (p ++ user) host h in
    let start : index_slashes (address scheme user host) ≡ some (length scheme) =
      ap index_slashes (
        append_assoc p user (b'@' ∷ host)
        ∙ append_assoc scheme (b'/' ∷ b'/' ∷ []) (user ++ b'@' ∷ host))
      ∙ index_slashes-append scheme (user ++ b'@' ∷ host) s in
    rw (t, at, start)
      (redacted p user host (length scheme) (sym (length-append scheme (b'/' ∷ b'/' ∷ []))) u)
