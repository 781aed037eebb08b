-- ===== src/Worker/Accounts.antt =====
-- internal/worker/campaign_doser.go: the choice of the sending account (pickAccount).
pub mod RoundRobin
use aba_go_orchestrator.Common.{
  ℕ, ◌+◌, ◌-◌, ◌*◌, ◌/◌, ◌%◌, Text, lit, text_eq, is_empty, ltb, leb, ◌==◌, Bool, true, false, not,
  ◌&&◌, Option, none, some, List, [], ◌∷◌, first, length, get_elem?, if◌then◌else◌,
}
use aba_go_orchestrator.Domain.Models.{
  TenantAccount, TenantDailyQuota, PendingTargetForDosing, default_messenger_type,
}
use aba_go_orchestrator.Repository.Store.{
  Db, Error, Result, ok, err, encoding_error, db_error, Faults, account_has_id,
}
use aba_go_orchestrator.Repository.Dosing.{
  Dose, assign_account_and_enqueue_target, list_assignable_tenant_accounts,
}
use aba_go_orchestrator.Repository.Pending.{get_next_pending_target}
use aba_go_orchestrator.Repository.Quota.{
  get_or_create_tenant_daily_quota, try_reserve_cold_slot, increment_warm_used,
}
use aba_go_orchestrator.Repository.Retry.{defer_retry_targets_without_accounts}
use aba_go_orchestrator.Config.{
  Config, day, is_within_work_window, next_day_work_start, random_cold_interval,
}

-- rrCursor: a missing entry reads as 0.
abbrev pub Cursors : Type 0
Cursors = ℕ → ℕ

abbrev pub set_cursor : ℕ → ℕ → Cursors → Cursors
set_cursor tenant_id v cs i = if i == tenant_id then v else cs i

abbrev pub preferred_of : Option ℕ → List TenantAccount → Option TenantAccount
preferred_of none accounts = none
preferred_of (some id) accounts = first (account_has_id id) accounts

abbrev pub rotate : ℕ → List TenantAccount → Cursors → Option TenantAccount × Cursors
rotate tenant_id accounts cs = (
  get_elem? accounts (cs tenant_id % length accounts),
  set_cursor tenant_id (cs tenant_id + 1) cs,
)

abbrev pub or_rotate :
    Option TenantAccount → ℕ → List TenantAccount → Cursors → Option TenantAccount × Cursors
or_rotate (some a) tenant_id accounts cs = (some a, cs)
or_rotate none tenant_id accounts cs = rotate tenant_id accounts cs

unfoldable pub pick_account :
    ℕ → List TenantAccount → Option ℕ → Cursors → Option TenantAccount × Cursors
pick_account tenant_id [] preferred cs = (none, cs)
pick_account tenant_id (a ∷ as') preferred cs =
    or_rotate (preferred_of preferred (a ∷ as')) tenant_id (a ∷ as') cs
