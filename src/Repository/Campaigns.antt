-- ===== src/Repository/Campaigns.antt =====
-- internal/repository/postgres.go: the life of a campaign (StartCampaign, StopCampaign,
-- UpdateCampaignStatus, GetActiveCampaignsReadyToStart, GetCampaignsByStatus) and its targets by
-- status.
use aba_go_orchestrator.Common.{
  ℕ, leb, Bool, false, not, ◌==◌, ◌&&◌, ◌||◌, Option, none, some, List, select, update, exists,
}
use aba_go_orchestrator.Domain.Status.{
  TaskStatus, CampaignStatus, draft, processing, stopped, is, campaign_is,
}
use aba_go_orchestrator.Domain.Models.{Campaign, CampaignTarget}
use aba_go_orchestrator.Repository.Store.{
  Db, Result, ok, ◌>>◌, Faults, exec, commit, campaign_has_id,
}

abbrev pub set_status : CampaignStatus → ℕ → Campaign → Campaign
set_status status now c = record c { status = status; updated_at = now }

unfoldable pub update_campaign_status :
    Faults → ℕ → ℕ → CampaignStatus → Db → Result (Unit {0}) × Db
update_campaign_status f now id status db = commit db do
  exec (f 0)
  ok (
    tt,
    record db { campaigns = update (campaign_has_id id) (set_status status now) db.campaigns },
  )

unfoldable pub stop_campaign : Faults → ℕ → ℕ → Db → Result (Unit {0}) × Db
stop_campaign f now id db = commit db do
  exec (f 0)
  ok (
    tt,
    record db { campaigns = update (campaign_has_id id) (set_status stopped now) db.campaigns },
  )

-- `WHERE id = $3 AND status = 'draft'`.
abbrev pub is_draft : ℕ → Campaign → Bool
is_draft id c = campaign_has_id id c && campaign_is c.status draft

unfoldable pub start_campaign : Faults → ℕ → ℕ → Db → Result (Unit {0}) × Db
start_campaign f now id db = commit db do
  exec (f 0)
  ok (tt, record db { campaigns = update (is_draft id) (set_status processing now) db.campaigns })

abbrev pub is_time : Option ℕ → ℕ → Bool
is_time none now = false
is_time (some t) now = leb t now

unfoldable pub is_ready : ℕ → Campaign → Bool
is_ready now c =
    (campaign_is c.status draft || campaign_is c.status processing)
    && not c.deleted
    && (c.start_immediately || is_time c.time_to_start now)

unfoldable pub get_active_campaigns_ready_to_start : Faults → ℕ → Db → Result (List Campaign)
unfolding is_ready
get_active_campaigns_ready_to_start f now db = do
  exec (f 0)
  ok (select (is_ready now) db.campaigns)

unfoldable pub get_campaigns_by_status : Faults → CampaignStatus → Db → Result (List Campaign)
get_campaigns_by_status f status db = do
  exec (f 0)
  ok (select (λ c. campaign_is c.status status && not c.deleted) db.campaigns)

unfoldable pub get_campaign_targets_with_status :
    Faults → ℕ → List TaskStatus → Db → Result (List CampaignTarget)
get_campaign_targets_with_status f campaign_id statuses db = do
  exec (f 0)
  ok (select (λ t. t.campaign_id == campaign_id && exists (is t.status) statuses) db.targets)
