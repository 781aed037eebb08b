-- ===== src/Worker/Scheduler.antt =====
-- internal/worker/scheduler.go: a check for campaigns that are due. The starts run as goroutines of
-- their own; they stand here in the order of the list, since each touches its own campaign only. The
-- flag that keeps two checks apart is not modelled.
pub mod Starts
use aba_go_orchestrator.Common.{ℕ, ◌+◌, Bool, not, ◌&&◌, is_some, List, [], ◌∷◌, if◌then◌else◌}
use aba_go_orchestrator.Domain.Status.{draft, campaign_is}
use aba_go_orchestrator.Domain.Models.{Campaign}
use aba_go_orchestrator.Repository.Store.{Db, Result, ok, err, panicked, Faults}
use aba_go_orchestrator.Repository.Campaigns.{get_active_campaigns_ready_to_start, start_campaign}

-- A draft without a time of its start: the message of the log dereferences it.
abbrev pub is_untimed_draft : Campaign → Bool
is_untimed_draft c = campaign_is c.status draft && not (is_some c.time_to_start)

-- `f i` are the faults of the i-th start, and `now i` its time; its error is only logged. A panic ends
-- the loop, and with it the program.
unfoldable pub start_each : (ℕ → Faults) → (ℕ → ℕ) → ℕ → List Campaign → Db → Result (Unit {0}) × Db
start_each f now i [] db = (ok tt, db)
start_each f now i (c ∷ cs) db =
    let rest =
      start_each f now (i + 1) cs
        (if campaign_is c.status draft then (start_campaign (f i) (now i) c.id db).1 else db) in
    if is_untimed_draft c then (err panicked, db) else rest

abbrev pub with_ready :
    (ℕ → Faults) → (ℕ → ℕ) → Db → Result (List Campaign) → Result (Unit {0}) × Db
with_ready f now db (err e) = (ok tt, db)
with_ready f now db (ok ready) = start_each f now 1 ready db

-- checkAndStartCampaigns: call 0 is the query.
unfoldable pub check_and_start_campaigns : (ℕ → Faults) → (ℕ → ℕ) → Db → Result (Unit {0}) × Db
unfolding start_each
check_and_start_campaigns f now db =
    with_ready f now db (get_active_campaigns_ready_to_start (f 0) (now 0) db)
