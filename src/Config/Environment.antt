-- ===== src/Config/Environment.antt =====
-- internal/config/config.go: LoadFromEnv and what it reads of the environment. Negative integers are cut
-- at 0 in the fields of the configuration, which are natural numbers.
pub mod Clock
use aba_go_orchestrator.Common.{
  ℕ, zero, suc, ◌+◌, ◌-◌, ◌*◌, Text, lit, is_empty, split, trim_space, leb, ltb, ◌==◌, Bool, true,
  false, not, ◌&&◌, ◌||◌, Option, none, some, List, [], ◌∷◌, if◌then◌else◌,
}
use aba_go_orchestrator.Domain.Phone.{is_digit}
use aba_go_orchestrator.Config.{Zone, Config}

-- An integer with its sign.
pub record Integer : Type 0 where
  pub negative : Bool
  pub magnitude : ℕ

-- The value of a text of digits, after `acc`.
unfoldable pub digits_value : ℕ → Text → Option ℕ
digits_value acc [] = some acc
digits_value acc (c ∷ s) =
    let rest = digits_value (acc * 10 + (c - b'0')) s in if is_digit c then rest else none

abbrev pub max_int : ℕ
max_int = 9_223_372_036_854_775_807

abbrev pub in_range : Bool → Option ℕ → Option Integer
in_range negative none = none
in_range negative (some n) =
    if leb n (if negative then max_int + 1 else max_int)
    then some (record { negative = negative; magnitude = n })
    else none

abbrev pub signed : Bool → Text → Option Integer
unfolding digits_value
signed negative [] = none
signed negative (c ∷ s) = in_range negative (digits_value 0 (c ∷ s))

-- strconv.Atoi.
unfoldable pub atoi : Text → Option Integer
unfolding signed
atoi [] = none
atoi (c ∷ s) =
    if c == b'-' then signed true s else if c == b'+' then signed false s else signed false (c ∷ s)

-- The variables of the environment.
abbrev pub Environ : Type 0
Environ = Text → Text

unfoldable pub env_string : Environ → Text → Text → Text
unfolding trim_space
env_string env key fallback = let v = trim_space (env key) in if is_empty v then fallback else v

abbrev pub natural : Integer → ℕ
natural n = if n.negative then 0 else n.magnitude

abbrev pub natural_or : ℕ → Option Integer → ℕ
natural_or fallback none = fallback
natural_or fallback (some n) = natural n

unfoldable pub env_int : Environ → Text → ℕ → ℕ
unfolding trim_space atoi
env_int env key fallback =
    let v = trim_space (env key) in if is_empty v then fallback else natural_or fallback (atoi v)

-- Is the integer at least 0 and at most `n`?
abbrev pub is_within : ℕ → Integer → Bool
is_within n i = (not i.negative || i.magnitude == 0) && leb i.magnitude n

abbrev pub clock_of : ℕ → ℕ → Option Integer → Option Integer → ℕ × ℕ
clock_of default_hour default_minute (some h) (some m) =
    if is_within 23 h && is_within 59 m
    then (h.magnitude, m.magnitude)
    else (default_hour, default_minute)
clock_of default_hour default_minute _ _ = (default_hour, default_minute)

abbrev pub of_parts : ℕ → ℕ → List Text → ℕ × ℕ
unfolding trim_space atoi
of_parts default_hour default_minute (h ∷ m ∷ []) =
    clock_of default_hour default_minute (atoi (trim_space h)) (atoi (trim_space m))
of_parts default_hour default_minute _ = (default_hour, default_minute)

unfoldable pub parse_hhmm : Text → ℕ → ℕ → ℕ × ℕ
unfolding split of_parts
parse_hhmm raw default_hour default_minute = of_parts default_hour default_minute (split raw b':')

abbrev pub bool_or : Bool → Option Bool → Bool
bool_or fallback none = fallback
bool_or fallback (some b) = b

-- `parse_bool` is strconv.ParseBool.
unfoldable pub env_bool : (Text → Option Bool) → Environ → Text → Bool → Bool
unfolding trim_space
env_bool parse_bool env key fallback =
    let v = trim_space (env key) in if is_empty v then fallback else bool_or fallback (parse_bool v)

-- time.FixedZone, three hours ahead.
abbrev pub moscow : Zone
moscow = record { wall = λ t. t + 10_800_000_000_000; instant = λ t. t - 10_800_000_000_000 }

abbrev pub zone_or_moscow : Option Zone → Zone
zone_or_moscow none = moscow
zone_or_moscow (some z) = z

-- `load` is time.LoadLocation.
unfoldable pub load_location : (Text → Option Zone) → Environ → Zone
unfolding trim_space
load_location load env =
    let tz = trim_space (env (lit "TZ")) in
    zone_or_moscow (load (if is_empty tz then lit "Europe/Moscow" else tz))

-- LoadFromEnv, for the fields of the configuration that are modelled; `zone` is loadLocation.
unfoldable pub load_from_env : Environ → Zone → Config
unfolding env_string env_int parse_hhmm
load_from_env env zone =
    let start = parse_hhmm (env_string env (lit "WORK_WINDOW_START") (lit "10:01")) 7 0 in
    let end = parse_hhmm (env_string env (lit "WORK_WINDOW_END") (lit "20:50")) 21 0 in
    record {
      limit_cold_min = env_int env (lit "LIMIT_COLD_MIN") 141;
      limit_cold_max = env_int env (lit "LIMIT_COLD_MAX") 159;
      limit_cold_estimated_avg = env_int env (lit "LIMIT_COLD_ESTIMATED_AVG") 150;
      limit_warm_daily = env_int env (lit "LIMIT_WARM_DAILY") 500;
      interval_cold_min_minutes = env_int env (lit "INTERVAL_COLD_MIN_MINUTES") 1;
      interval_cold_max_minutes = env_int env (lit "INTERVAL_COLD_MAX_MINUTES") 5;
      work_window_start_hour = start.0;
      work_window_start_minute = start.1;
      work_window_end_hour = end.0;
      work_window_end_minute = end.1;
      location = zone;
      max_retry_attempts = env_int env (lit "MAX_RETRY_ATTEMPTS") 3;
      retry_delay_minutes = env_int env (lit "RETRY_DELAY_MINUTES") 15;
      account_cooldown_minutes = env_int env (lit "ACCOUNT_COOLDOWN_MINUTES") 60;
    }
