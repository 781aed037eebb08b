-- ===== src/Worker/Limits/System.antt =====
-- internal/worker: the bound on the attempts of a target, for all that runs on the tables together.
use aba_go_orchestrator.Common.{ℕ, ◌≤◌, arith, some, List, [], ◌∷◌, All, first, ◌≡◌, ◌≢◌, ap}
use aba_go_orchestrator.Domain.Models.{CampaignTarget}
use aba_go_orchestrator.Repository.Store.{target_has_id}
use aba_go_orchestrator.Repository.Store.Each.{Each}
use aba_go_orchestrator.Repository.Retry.{attempts_or_default}
use aba_go_orchestrator.Repository.Attempts.{Reach, here, next, keep, IsNew, reach_trans}
use aba_go_orchestrator.Repository.Attempts.Bound.{attempts_bounded}
use aba_go_orchestrator.Config.{Config}
use aba_go_orchestrator.Worker.System.{
  System, Event, tick, batch, check, upload, callback, replies, happen, run,
}
use aba_go_orchestrator.Worker.Scheduler.Starts.{check_and_start_campaigns-targets}
use aba_go_orchestrator.Usecase.Upload.Outcome.{upload_campaign-Step}
use aba_go_orchestrator.Transport.Webhooks.Steps.{worker_callback-Step, replies_webhook-Reach}
use aba_go_orchestrator.Domain.Status.{retry_pending}
use aba_go_orchestrator.Worker.Limits.Ticks.{tick_reach}
use aba_go_orchestrator.Worker.Limits.Batches.{batch_reach}

-- The consumer runs with the given configuration, and no callback reports `retry_pending`.
abbrev pub IsConfigured : Config → Event → Type 0
IsConfigured c (tick o time tenants) = Unit {0}
IsConfigured c (batch o rs) = (i : ℕ) → (o i).config ≡ c
IsConfigured c (check f now) = Unit {0}
IsConfigured c (upload o u) = Unit {0}
IsConfigured c (callback p f g now h k) = k.status ≢ retry_pending
IsConfigured c (replies p o h body) = Unit {0}

happen_reach :
    (c : Config) (e : Event) (s : System)
    → IsConfigured c e
    → Reach (attempts_or_default c.max_retry_attempts) s.db (happen c e s).db
happen_reach c (tick o time tenants) s h =
    tick_reach (attempts_or_default c.max_retry_attempts) o c time 0 tenants
      (record { db = s.db; cursors = s.cursors })
happen_reach c (batch o rs) s h =
    batch_reach (attempts_or_default c.max_retry_attempts) o 0 rs
      (record { db = s.db; blocklist = s.blocklist; observed = [] })
      (λ j. ap (λ k. attempts_or_default k.max_retry_attempts) (h j))
happen_reach c (check f now) s h = next here (keep (check_and_start_campaigns-targets f now s.db))
happen_reach c (upload o u) s h = next here (
    upload_campaign-Step (attempts_or_default c.max_retry_attempts) c o u
      (record { db = s.db; files = s.files }))
happen_reach c (callback p f g now h k) s n =
    next here (worker_callback-Step (attempts_or_default c.max_retry_attempts) p f g now h k s.db n)
happen_reach c (replies p o h body) s n =
    replies_webhook-Reach (attempts_or_default c.max_retry_attempts) p o h body s.db

pub run_reach :
    (c : Config) (es : List Event) (s : System)
    → All (IsConfigured c) es
    → Reach (attempts_or_default c.max_retry_attempts) s.db (run c es s).db
run_reach c [] s h = here
run_reach c (e ∷ es) s h = reach_trans (happen_reach c e s h.0) (run_reach c es (happen c e s) h.1)

-- Whatever fails and however ticks, batches of results, checks for due campaigns, uploads, replies and
-- callbacks other than of `retry_pending` follow each other, with one configuration and from a database
-- whose targets are new: no target, uploaded before or on the way, is ever dosed more often than the
-- configured number of attempts (3 where it is 0).
pub attempts_within_limit :
    (c : Config) (es : List Event) (s : System) (j : ℕ) (t : CampaignTarget)
    → Each IsNew s.db.targets
    → All (IsConfigured c) es
    → first (target_has_id j) (run c es s).db.targets ≡ some t
    → t.attempt_count ≤ attempts_or_default c.max_retry_attempts
attempts_within_limit c es s j t new h found =
    attempts_bounded (attempts_or_default c.max_retry_attempts) s.db (run c es s).db j t
      (ground arith) new (run_reach c es s h) found
