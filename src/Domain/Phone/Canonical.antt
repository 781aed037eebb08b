-- ===== src/Domain/Phone/Canonical.antt =====
-- internal/domain/phone.go: which texts NormalizePhone accepts, and what it makes of them.
use aba_go_orchestrator.Common.{
  ℕ, ◌≤◌, Text, true, [], ◌∷◌, length, select, All, get_elem?, some, ◌≡◌, refl, ap, ◌⊎◌, ◌↔◌, inl,
  arith,
}
use aba_go_orchestrator.Domain.Phone.{is_digit, canonical_digits, normalize_phone}

-- Ten digits, the first of them 9.
abbrev pub IsCanonical : Text → Type 0
IsCanonical s = (length s ≡ 10) × (get_elem? s 0 ≡ some b'9') × All (λ c. is_digit c ≡ true) s

-- The digits spell the number as it is, or behind a 7 or an 8.
abbrev pub Spells : Text → Text → Type 0
Spells d s = (d ≡ s) ⊎ (d ≡ b'7' ∷ s) ⊎ (d ≡ b'8' ∷ s)

canonical_digits-Spells :
    (d s : Text) → length s ≡ 10 → get_elem? s 0 ≡ some b'9' → canonical_digits d ≡ s → Spells d s
unfolding canonical_digits
canonical_digits-Spells [] s n h e = absurd (omega (arith, ap length e))
canonical_digits-Spells (c ∷ []) s n h e = absurd (omega (arith, ap length e))
canonical_digits-Spells (c ∷ d ∷ t) s n h e = ground (arith, ap length e)

Spells-canonical_digits :
    (d s : Text) → length s ≡ 10 → get_elem? s 0 ≡ some b'9' → Spells d s → canonical_digits d ≡ s
unfolding canonical_digits
Spells-canonical_digits d [] n h k = absurd (omega arith)
Spells-canonical_digits d (c ∷ []) n h k = absurd (omega arith)
Spells-canonical_digits d (c ∷ c' ∷ s) n h k = ground arith

-- For a number of ten digits that begins with 9, NormalizePhone returns it exactly for the inputs
-- whose digits are that number, alone or behind one 7 or one 8.
pub normalize_phone_iff :
    (p s : Text) → IsCanonical s → (normalize_phone p ≡ s) ↔ Spells (select is_digit p) s
unfolding normalize_phone
normalize_phone_iff p s c = (
  canonical_digits-Spells (select is_digit p) s c.0 c.1,
  Spells-canonical_digits (select is_digit p) s c.0 c.1,
)

select-eq_self : (s : Text) → All (λ c. is_digit c ≡ true) s → select is_digit s ≡ s
select-eq_self [] h = refl
select-eq_self (c ∷ s) h = rw h.0 (ap (◌∷◌ c) (select-eq_self s h.1))

pub normalize_phone-eq_self : (s : Text) → IsCanonical s → normalize_phone s ≡ s
normalize_phone-eq_self s h = (normalize_phone_iff s s h).1 (inl (select-eq_self s h.2))

-- An input whose digits are a 7 or an 8, then a 9, then ten or more digits more, is not rejected:
-- NormalizePhone drops the first digit and returns all the others, which is no ten-digit number.
pub normalize_phone_overlong :
    (p t : Text) (c : ℕ)
    → (c ≡ b'7') ⊎ (c ≡ b'8')
    → select is_digit p ≡ c ∷ b'9' ∷ t
    → 10 ≤ length t
    → (normalize_phone p ≡ b'9' ∷ t) × ¬ IsCanonical (normalize_phone p)
unfolding normalize_phone canonical_digits
normalize_phone_overlong p t c h e n = (found, λ k. omega (arith, ap length found, k.0))
  where
    found : normalize_phone p ≡ b'9' ∷ t
    found = rw (e, canonical_digits) (ground arith)
