-- ===== src/Config/Environment/Clock.antt =====
-- internal/config/config.go: what a clock of the work window can be.
use aba_go_orchestrator.Common.{
  ℕ, ◌≤◌, Text, lit, split, trim_space, Option, none, some, List, [], ◌∷◌, arith,
}
use aba_go_orchestrator.Config.{Zone}
use aba_go_orchestrator.Config.Environment.{
  Integer, atoi, clock_of, of_parts, parse_hhmm, env_string, load_from_env,
}

-- An hour and a minute of a day.
abbrev pub IsClock : ℕ × ℕ → Type 0
IsClock c = (c.0 ≤ 23) × (c.1 ≤ 59)

clock_of-IsClock : (h m : ℕ) (i j : Option Integer) → IsClock (h, m) → IsClock (clock_of h m i j)
clock_of-IsClock h m none j c = c
clock_of-IsClock h m (some i) none c = c
clock_of-IsClock h m (some i) (some j) (hc, mc) = ground arith

of_parts-IsClock : (h m : ℕ) (parts : List Text) → IsClock (h, m) → IsClock (of_parts h m parts)
unfolding of_parts
of_parts-IsClock h m [] c = c
of_parts-IsClock h m (a ∷ []) c = c
of_parts-IsClock h m (a ∷ b ∷ []) c =
    clock_of-IsClock h m (atoi (trim_space a)) (atoi (trim_space b)) c
of_parts-IsClock h m (a ∷ b ∷ d ∷ parts) c = c

pub parse_hhmm-IsClock : (raw : Text) (h m : ℕ) → h ≤ 23 → m ≤ 59 → IsClock (parse_hhmm raw h m)
unfolding parse_hhmm
parse_hhmm-IsClock raw h m hc mc = of_parts-IsClock h m (split raw b':') (hc, mc)

-- Whatever the environment says, the window of the configuration has clocks of a day at both ends.
pub load_from_env-IsClock :
    (env : Text → Text) (zone : Zone)
    → IsClock (
      (load_from_env env zone).work_window_start_hour,
      (load_from_env env zone).work_window_start_minute,
    )
      × IsClock (
        (load_from_env env zone).work_window_end_hour,
        (load_from_env env zone).work_window_end_minute,
      )
unfolding load_from_env
load_from_env-IsClock env zone = (
  parse_hhmm-IsClock (env_string env (lit "WORK_WINDOW_START") (lit "10:01")) 7 0 (omega arith)
      (omega arith),
  parse_hhmm-IsClock (env_string env (lit "WORK_WINDOW_END") (lit "20:50")) 21 0 (omega arith)
      (omega arith),
)
