-- ===== src/Config/Intervals.antt =====
-- internal/config/config.go: the random interval between two cold messages.
use Prim.Native.Nat.{max}
use aba_go_orchestrator.Common.{ℕ, ◌+◌, ◌-◌, ◌*◌, ◌≤◌, ◌<◌, ltb, if◌then◌else◌, ◌≡◌, refl, arith}
use aba_go_orchestrator.Config.{Config, minute, random_interval, random_cold_interval}

minutes_drawn :
    (random : ℕ → ℕ) (a b n : ℕ)
    → (0 < n → random n < n)
    → n ≡ (if ltb b a then a else b) - a + 1
    → let b' = if ltb b a then a else b in
      let k = if ltb a b' then a + random n else a in (a ≤ k) × (k ≤ max a b)
minutes_drawn random a b n h e = ground (arith, h)

-- With `rand.Intn(n)` below `n`, the interval is a whole number of minutes, at least the configured
-- minimum and at most the maximum, or exactly the minimum where the maximum is below it.
pub cold_interval_bounds :
    (random : ℕ → ℕ) (c : Config)
    → ((n : ℕ) → 0 < n → random n < n)
    → (k : ℕ) × (random_cold_interval random c ≡ k * minute)
      × (c.interval_cold_min_minutes ≤ k)
      × (k ≤ max c.interval_cold_min_minutes c.interval_cold_max_minutes)
unfolding random_cold_interval random_interval
cold_interval_bounds random c h =
    let a = c.interval_cold_min_minutes in
    let b = c.interval_cold_max_minutes in
    let n = (if ltb b a then a else b) - a + 1 in
    let (low, high) = minutes_drawn random a b n (h n) refl in (_, refl, low, high)
