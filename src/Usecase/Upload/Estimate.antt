-- ===== src/Usecase/Upload/Estimate.antt =====
-- internal/usecase/campaign.go: the estimate of the days that a campaign takes.
use native.Mathlib.Nat.{
  div-lt_iff_lt-mul, lt-div-mul-add, suc-mul, zero-mul, one-mul, le_trans, mul-le-mul_right,
}
use aba_go_orchestrator.Common.{
  ℕ, zero, suc, ◌+◌, ◌-◌, ◌*◌, ◌/◌, ◌≤◌, ◌<◌, leb, ltb, ◌==◌, if◌then◌else◌, ◌≡◌, ◌↔◌, false, arith,
}
use aba_go_orchestrator.Usecase.Upload.{estimate_days}

-- The configured average, 41 where there is none.
abbrev pub average : ℕ → ℕ
average avg = if avg == 0 then 41 else avg

rounded_up :
    (cold a : ℕ)
    → 0 < a
    → (cold ≤ (cold + a - 1) / a * a) × ((n : ℕ) → cold ≤ n * a → (cold + a - 1) / a ≤ n)
rounded_up cold a pos = (omega (arith, over), λ n h. least n h)
  where
    over : cold + a - 1 < (cold + a - 1) / a * a + a
    over = lt-div-mul-add pos

    least : (n : ℕ) → cold ≤ n * a → (cold + a - 1) / a ≤ n
    least n h =
        let wide : cold + a - 1 < suc n * a = omega (arith, suc-mul n a) in
        let below : (cold + a - 1) / a < suc n = (div-lt_iff_lt-mul pos).1 wide in omega arith

at_least_one :
    (cold a q n : ℕ)
    → 0 < a
    → cold ≤ q * a
    → ((m : ℕ) → cold ≤ m * a → q ≤ m)
    → (cold ≤ (if ltb q 1 then 1 else q) * a)
      × (1 ≤ (if ltb q 1 then 1 else q))
      × (1 ≤ n → cold ≤ n * a → (if ltb q 1 then 1 else q) ≤ n)
at_least_one cold a zero n pos up min =
    (omega (arith, zero-mul a, one-mul a), omega arith, λ k h. k)
at_least_one cold a (suc q) n pos up min =
    let big : ltb (suc q) 1 ≡ false = ground arith in rw big (up, omega arith, λ k h. min n h)

least :
    (cold avg n : ℕ)
    → (cold ≤ estimate_days cold avg * average avg)
      × (1 ≤ estimate_days cold avg)
      × (1 ≤ n → cold ≤ n * average avg → estimate_days cold avg ≤ n)
unfolding estimate_days
least cold zero n =
    let (up, min) = rounded_up cold 41 (omega arith) in
    at_least_one cold 41 ((cold + 41 - 1) / 41) n (omega arith) up min
least cold (suc avg) n =
    let some_avg : leb (suc avg) 0 ≡ false = ground arith in
    let some_avg' : (suc avg == 0) ≡ false = ground arith in
    let (up, min) = rounded_up cold (suc avg) (omega arith) in
    rw (some_avg, some_avg')
      (at_least_one cold (suc avg) ((cold + suc avg - 1) / suc avg) n (omega arith) up min)

-- The estimated days are the least number of days, one at least, in which the cold recipients are
-- reached at the average a day: `n` days are as many or more exactly if there is one and they are
-- enough.
pub estimate_days_iff :
    (cold avg n : ℕ) → (estimate_days cold avg ≤ n) ↔ ((1 ≤ n) × (cold ≤ n * average avg))
estimate_days_iff cold avg n =
    let (up, one, min) = least cold avg n in
    (λ h. (omega arith, le_trans up (mul-le-mul_right (average avg) h)), λ (k, h). min k h)
