-- ===== src/Config/Window.antt =====
-- internal/config/config.go: the work window and the start of the next one.
use aba_go_orchestrator.Common.{
  ℕ, ◌+◌, ◌-◌, ◌*◌, ◌/◌, ◌%◌, ◌≤◌, ◌<◌, leb, true, ◌↔◌, ◌≡◌, sym, subst, ap, ◌∙◌, arith,
  if◌then◌else◌,
}
use aba_go_orchestrator.Config.{
  Zone, Config, minute, hour, day, at_clock, is_within_work_window, next_day_work_start,
}

-- A zone without clock changes, `offset` ahead of UTC, as the fallback of loadLocation is.
pub record IsSteady (z : Zone) (offset : ℕ) : Type 0 where
  pub wall_ahead : (t : ℕ) → z.wall t ≡ t + offset
  pub instant_behind : (w : ℕ) → z.instant w ≡ w - offset
  pub within_day : offset < day

-- Minutes since the local midnight.
abbrev pub minute_of_day : Config → ℕ → ℕ
minute_of_day c now = c.location.wall now % day / minute

-- The arithmetic: `w` is the wall clock, `o` the offset.
come :
    (t o h m : ℕ)
    → o < day
    → day ≤ t
    → ((t + o) / day * day + h * hour + m * minute - o ≤ t) ↔ (h * 60 + m ≤ (t + o) % day / minute)
come t o h m p q = (λ k. omega arith, λ k. omega arith)

module _ (c : Config) (now offset : ℕ) (s : IsSteady c.location offset) (late : day ≤ now) where
  at_clock_steady :
      (h m : ℕ)
      → at_clock c.location now h m ≡ (now + offset) / day * day + h * hour + m * minute - offset
  at_clock_steady h m =
      s.instant_behind _
      ∙ ap (λ w. w / day * day + h * hour + m * minute - offset) (s.wall_ahead now)

  -- A time of day, in whole minutes, has come exactly if that many minutes have passed.
  at_clock_le : (h m : ℕ) → (at_clock c.location now h m ≤ now) ↔ (h * 60 + m ≤ minute_of_day c now)
  at_clock_le h m =
      subst (λ w. (at_clock c.location now h m ≤ now) ↔ (h * 60 + m ≤ w % day / minute))
        (sym (s.wall_ahead now))
        (subst (λ x. (x ≤ now) ↔ (h * 60 + m ≤ (now + offset) % day / minute))
          (sym (at_clock_steady h m)) (come now offset h m s.within_day late))

  -- The start on the day of `now`, and the next one.
  next_steady :
      let h = c.work_window_start_hour in
      let m = c.work_window_start_minute in
      let x = (now + offset) / day * day + h * hour + m * minute - offset in
      next_day_work_start c now ≡ (if leb x now then x + day else x)
  unfolding next_day_work_start
  next_steady =
      let e = at_clock_steady c.work_window_start_hour c.work_window_start_minute in
      let x : ℕ =
        (now + offset) / day * day
        + c.work_window_start_hour * hour
        + c.work_window_start_minute * minute
        - offset in
      let w : c.location.instant (c.location.wall x + day) ≡ x + day =
        s.instant_behind _ ∙ ap (λ y. y + day - offset) (s.wall_ahead x) ∙ omega arith in
      subst
        (λ y.
          (if leb y now then c.location.instant (c.location.wall y + day) else y)
          ≡ (if leb x now then x + day else x))
        (sym e) (ap (λ y. if leb x now then y else x) w)

next_arith :
    (t o h m : ℕ)
    → o < day
    → day ≤ t
    → h < 24
    → m < 60
    → let x = (t + o) / day * day + h * hour + m * minute - o in
      let n = if leb x t then x + day else x in
      (t < n) × (n ≤ t + day) × ((n + o) % day / minute ≡ h * 60 + m)
next_arith t o h m p q r v = ground arith

-- In a zone without clock changes that is ahead of UTC by less than a day, or is UTC, an instant from the
-- second day of the epoch on is in the work window exactly if its time of day, in whole minutes, is at or
-- after the start of the window and before its end. So a window that does not end after its start, such as
-- one across midnight, is never open there.
pub window_iff :
    (c : Config) (now offset : ℕ)
    → IsSteady c.location offset
    → day ≤ now
    → (is_within_work_window c now ≡ true) ↔ (
        (c.work_window_start_hour * 60 + c.work_window_start_minute ≤ minute_of_day c now)
        × (minute_of_day c now < c.work_window_end_hour * 60 + c.work_window_end_minute))
unfolding is_within_work_window
window_iff c now offset s late =
    let a = at_clock_le c now offset s late c.work_window_start_hour c.work_window_start_minute in
    let b = at_clock_le c now offset s late c.work_window_end_hour c.work_window_end_minute in
    (λ h. ground (arith, a, b), λ h. ground (arith, a, b))

-- In a zone without clock changes that is ahead of UTC by less than a day, or is UTC, from the second day of
-- the epoch on, with a start of the window below 24:00: the next start lies after `now`, by a day at most,
-- and it is a start: the time of day there is the start of the window.
pub next_start :
    (c : Config) (now offset : ℕ)
    → IsSteady c.location offset
    → day ≤ now
    → c.work_window_start_hour < 24
    → c.work_window_start_minute < 60
    → (now < next_day_work_start c now)
      × (next_day_work_start c now ≤ now + day)
      × (minute_of_day c (next_day_work_start c now)
          ≡ c.work_window_start_hour * 60 + c.work_window_start_minute)
next_start c now offset s late p q =
    let h = c.work_window_start_hour in
    let m = c.work_window_start_minute in
    let (a, b, e) = next_arith now offset h m s.within_day late p q in
    subst (λ n. (now < n) × (n ≤ now + day) × (minute_of_day c n ≡ h * 60 + m))
      (sym (next_steady c now offset s late))
      (a, b, ap (λ w. w % day / minute) (s.wall_ahead _) ∙ e)
