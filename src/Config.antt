-- ===== src/Config.antt =====
-- internal/config/config.go: limits, intervals and the work window. The time zone database is a
-- parameter: `wall t` is the wall clock at the instant `t`, `instant w` the instant that time.Date
-- gives for the wall clock `w`; both count nanoseconds. Integers of the environment are taken as
-- natural numbers.
pub mod Window
pub mod Intervals
pub mod Environment
pub mod Unsubscribe
use aba_go_orchestrator.Common.{
  ℕ, ◌+◌, ◌-◌, ◌*◌, ◌/◌, ◌<◌, Text, ltb, leb, ◌==◌, Bool, true, false, not, ◌&&◌, ◌||◌, Option,
  none, some, if◌then◌else◌,
}

pub record Zone : Type 0 where
  pub wall : ℕ → ℕ
  pub instant : ℕ → ℕ

pub record Config : Type 0 where
  pub limit_cold_min : ℕ
  pub limit_cold_max : ℕ
  pub limit_cold_estimated_avg : ℕ
  pub limit_warm_daily : ℕ
  pub interval_cold_min_minutes : ℕ
  pub interval_cold_max_minutes : ℕ
  pub work_window_start_hour : ℕ
  pub work_window_start_minute : ℕ
  pub work_window_end_hour : ℕ
  pub work_window_end_minute : ℕ
  pub location : Zone
  pub max_retry_attempts : ℕ
  pub retry_delay_minutes : ℕ
  pub account_cooldown_minutes : ℕ

abbrev pub minute : ℕ
minute = 60_000_000_000

abbrev pub hour : ℕ
hour = 3_600_000_000_000

abbrev pub day : ℕ
day = 86_400_000_000_000

-- time.Date of the local day of `now`, at the given hour and minute.
abbrev pub at_clock : Zone → ℕ → ℕ → ℕ → ℕ
at_clock z now h m = z.instant (z.wall now / day * day + h * hour + m * minute)

unfoldable pub is_within_work_window : Config → ℕ → Bool
is_within_work_window c now =
    let start = at_clock c.location now c.work_window_start_hour c.work_window_start_minute in
    let end = at_clock c.location now c.work_window_end_hour c.work_window_end_minute in
    leb start now && ltb now end

-- `time.Duration(minutes) * time.Minute` for a draw between the two bounds; `rand.Intn(n)` is
-- `random n`.
unfoldable pub random_interval : (ℕ → ℕ) → ℕ → ℕ → ℕ
random_interval random min max =
    let max' = if ltb max min then min else max in
    (if ltb min max' then min + random (max' - min + 1) else min) * minute

unfoldable pub random_cold_interval : (ℕ → ℕ) → Config → ℕ
unfolding random_interval
random_cold_interval random c =
    random_interval random c.interval_cold_min_minutes c.interval_cold_max_minutes

unfoldable pub retry_delay : Config → ℕ
retry_delay c = (if ltb c.retry_delay_minutes 1 then 15 else c.retry_delay_minutes) * minute

unfoldable pub account_cooldown : Config → ℕ
account_cooldown c =
    (if ltb c.account_cooldown_minutes 1 then 60 else c.account_cooldown_minutes) * minute

-- AddDate(0, 0, 1) keeps the wall clock and adds a day to it.
unfoldable pub next_day_work_start : Config → ℕ → ℕ
next_day_work_start c now =
    let start = at_clock c.location now c.work_window_start_hour c.work_window_start_minute in
    if leb start now then c.location.instant (c.location.wall start + day) else start
