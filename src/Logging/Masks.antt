-- ===== src/Logging/Masks.antt =====
-- internal/logging/logging.go: what MaskPhone lets through.
use aba_go_orchestrator.Common.{
  ℕ, zero, suc, ◌+◌, ◌-◌, ◌≤◌, ◌<◌, Text, trim_space, leb, ◌==◌, true, false, [], ◌∷◌, ◌++◌, length,
  take, drop, length-take, length-drop, length-append, length-replicate, count_where, if◌then◌else◌,
  ◌≡◌, refl, arith,
}
use aba_go_orchestrator.Logging.{stars, keep_last, mask, mask_phone}

-- How many characters are not stars.
abbrev pub shown : Text → ℕ
shown = count_where λ c. if c == b'*' then false else true

shown-append : (s t : Text) → shown (s ++ t) ≡ shown s + shown t
shown-append [] t = omega arith
shown-append (c ∷ s) t = ground (arith, shown-append s t)

shown-stars : (n : ℕ) → shown (stars n) ≡ 0
shown-stars zero = refl
shown-stars (suc n) = shown-stars n

shown-le : (s : Text) → shown s ≤ length s
shown-le [] = omega arith
shown-le (c ∷ s) = ground (arith, shown-le s)

-- The head, the stars and the tail of a text.
abbrev covered : ℕ → Text → Text
covered first r =
    take first r ++ stars (length r - first - keep_last) ++ drop (length r - keep_last) r

covered_lem :
    (first : ℕ) (r : Text)
    → first + keep_last < length r
    → (length (covered first r) ≡ length r) × (shown (covered first r) ≤ first + keep_last)
covered_lem first r h =
    let m = length r - first - keep_last in
    let d = drop (length r - keep_last) r in
    let a = length-append (take first r ++ stars m) d in
    let b = length-append (take first r) (stars m) in
    let c = length-take first r in
    let e = length-drop (length r - keep_last) r in
    let f : length (stars m) ≡ m = length-replicate m b'*' in
    let g = shown-append (take first r ++ stars m) d in
    let i = shown-append (take first r) (stars m) in
    let j = shown-le (take first r) in
    let k = shown-le d in
    (omega (arith, a, b, c, e, f, h), omega (arith, g, i, j, k, c, e, shown-stars m, h))

-- How many characters of a phone of `n` may be seen.
abbrev pub allowance : ℕ → ℕ
allowance n = if leb n 5 then 0 else if leb n 7 then 5 else 7

mask_lem : (r : Text) → (length (mask r) ≡ length r) × (shown (mask r) ≤ allowance (length r))
mask_lem r = ground (arith, covered_lem 1 r, covered_lem 3 r, hidden, shown-stars (length r))
  where
    hidden : length (stars (length r)) ≡ length r
    hidden = length-replicate (length r) b'*'

-- The masked text is as long as the trimmed phone. It shows none of a phone of up to five
-- characters, at most five of one of six or seven, and at most seven of a longer one.
pub mask_phone_lem :
    (phone : Text)
    → (length (mask_phone phone) ≡ length (trim_space phone))
      × (shown (mask_phone phone) ≤ allowance (length (trim_space phone)))
unfolding mask_phone
mask_phone_lem phone = mask_lem (trim_space phone)
