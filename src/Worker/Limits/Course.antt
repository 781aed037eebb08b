-- ===== src/Worker/Limits/Course.antt =====
-- internal/worker: the course of a target, for all that runs on the tables together.
use aba_go_orchestrator.Common.{ℕ, some, List, All, first, ◌≡◌}
use aba_go_orchestrator.Domain.Models.{CampaignTarget}
use aba_go_orchestrator.Repository.Store.{target_has_id}
use aba_go_orchestrator.Repository.Lifecycle.Course.{Persists, target-Persists}
use aba_go_orchestrator.Config.{Config}
use aba_go_orchestrator.Worker.System.{System, Event, run}
use aba_go_orchestrator.Worker.Limits.System.{IsConfigured, run_reach}

-- Whatever fails and however ticks, batches of results, checks for due campaigns, uploads, replies and
-- callbacks other than of `retry_pending` follow each other, with one configuration: a target that is
-- there stays there, as the same client of the same campaign in the same row of the sheet; its attempts
-- never decrease, and once it was sent or replied, it keeps a moment of that.
pub client-Persists :
    (c : Config) (es : List Event) (s : System) (j : ℕ) (t : CampaignTarget)
    → All (IsConfigured c) es
    → first (target_has_id j) s.db.targets ≡ some t
    → (t' : CampaignTarget) × (first (target_has_id j) (run c es s).db.targets ≡ some t')
      × Persists t t'
client-Persists c es s j t h there = target-Persists j t (run_reach c es s h) there
