-- ===== src/Worker/Poller/Start.antt =====
-- internal/worker/poller.go: NewReplyPoller, reconnect and what Run does at the ticks of its timer.
use aba_go_orchestrator.Common.{
  ℕ, Text, lit, is_empty, trim_space, Bool, true, false, not, ◌&&◌, Option, none, some, List, [],
  ◌∷◌, ◌++◌, if◌then◌else◌, ◌≡◌, refl, Bool-cases, inl, inr,
}
use aba_go_orchestrator.Repository.Store.{Db, Result, ok, err, db_error, Faults}
use aba_go_orchestrator.Config.Environment.{Environ, env_bool, bool_or}
use aba_go_orchestrator.Worker.Poller.{Broker, Poll, poll_active_campaigns}

-- The channel: does it open, and is the queue declared on it?
pub record Connection : Type 0 where
  pub opens : Bool
  pub declares : Bool

-- The channel that the poller holds, by a number, and whether it was closed.
pub record ReplyPoller : Type 0 where
  pub channel : Option ℕ
  pub is_closed : Bool

abbrev pub close_old : ReplyPoller → ReplyPoller
close_old p = elim p.channel [ none ↦ p | some c ↦ record p { is_closed = true } ]

-- The old channel is closed first, and an error leaves it in place, closed. `fresh` is the new one.
unfoldable pub reconnect : Connection → ℕ → ReplyPoller → Result (Unit {0}) × ReplyPoller
reconnect c fresh p =
    if c.opens && c.declares
    then (ok tt, record { channel = some fresh; is_closed = false })
    else (err db_error, close_old p)

abbrev pub made : Result (Unit {0}) × ReplyPoller → Result ReplyPoller
made (ok u, p) = ok p
made (err e, p) = err e

unfoldable pub new_reply_poller : Connection → ℕ → Result ReplyPoller
unfolding reconnect
new_reply_poller c fresh = made (reconnect c fresh (record { channel = none; is_closed = false }))

abbrev parsed_or : Bool → Option Bool → Bool
parsed_or b none = b
parsed_or b (some c) = c

-- Run reads the variable itself.
unfoldable pub disable_auto_polling : (Text → Option Bool) → Environ → Bool
unfolding trim_space
disable_auto_polling parse_bool env =
    let v = trim_space (env (lit "DISABLE_AUTO_POLLING")) in
    if not (is_empty v) then parsed_or true (parse_bool v) else true

-- The messages of Run over its ticks, each with its broker, faults and tables.
unfoldable pub run : (Text → Option Bool) → Environ → List (Broker × (ℕ → Faults) × Db) → List Poll
unfolding disable_auto_polling poll_active_campaigns
run parse_bool env [] = []
run parse_bool env ((b, f, db) ∷ ticks) =
    let rest = run parse_bool env ticks in
    if disable_auto_polling parse_bool env then [] else poll_active_campaigns b f db ++ rest

-- The poller reads its switch as the configuration does: off unless the variable says otherwise.
pub disable_auto_polling-env_bool :
    (parse_bool : Text → Option Bool) (env : Environ)
    → disable_auto_polling parse_bool env
      ≡ env_bool parse_bool env (lit "DISABLE_AUTO_POLLING") true
unfolding disable_auto_polling env_bool
disable_auto_polling-env_bool parse_bool env =
    elim (Bool-cases (is_empty (trim_space (env (lit "DISABLE_AUTO_POLLING"))))) [
      | inl e ↦ rw e refl
      | inr e ↦ rw e (same (parse_bool (trim_space (env (lit "DISABLE_AUTO_POLLING")))))
    ]
  where
    same : (b : Option Bool) → parsed_or true b ≡ bool_or true b
    same none = refl
    same (some b) = refl
