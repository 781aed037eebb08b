-- ===== src/Repository/Attempts/Bound.antt =====
-- internal/repository: the bound on the attempts of a target.
use aba_go_orchestrator.Common.{ℕ, ◌≤◌, ◌<◌, some, first, ◌≡◌, arith}
use aba_go_orchestrator.Domain.Models.{CampaignTarget}
use aba_go_orchestrator.Repository.Store.{Db, target_has_id}
use aba_go_orchestrator.Repository.Store.Each.{Each}
use aba_go_orchestrator.Repository.Attempts.{Within, Reach, IsNew}
use aba_go_orchestrator.Repository.Attempts.Kept.{Reach-Kept}

-- From a database whose targets are new, through any claims, retryable failures with a limit of
-- `limit` attempts, unknown deliveries, replies, deferrals, new campaigns with new targets and status
-- reports other than `retry_pending`, in any order, with any statements failing, and with any changes
-- that leave the targets alone: no target is ever dosed more than `limit` times.
pub attempts_bounded :
    (limit : ℕ) (db db' : Db) (j : ℕ) (t : CampaignTarget)
    → 0 < limit
    → Each IsNew db.targets
    → Reach limit db db'
    → first (target_has_id j) db'.targets ≡ some t
    → t.attempt_count ≤ limit
attempts_bounded limit db db' j t l new r found =
    (Reach-Kept limit l r (λ i u e. fresh u (new i u e)) j t found).0
  where
    fresh : (u : CampaignTarget) → IsNew u → Within limit u
    fresh u n = ground arith
