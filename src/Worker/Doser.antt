-- ===== src/Worker/Doser.antt =====
-- internal/worker/campaign_doser.go: the tick of CampaignDoser for one tenant and for all.
use aba_go_orchestrator.Common.{
  ℕ, ◌+◌, ◌/◌, ltb, leb, Bool, true, false, not, Option, none, some, List, [], ◌∷◌, if◌then◌else◌,
}
use aba_go_orchestrator.Domain.Models.{TenantAccount, TenantDailyQuota, PendingTargetForDosing}
use aba_go_orchestrator.Repository.Store.{Db, Result, ok, err, db_error}
use aba_go_orchestrator.Repository.Dosing.{list_assignable_tenant_accounts}
use aba_go_orchestrator.Repository.Pending.{get_next_pending_target}
use aba_go_orchestrator.Repository.Quota.{get_or_create_tenant_daily_quota}
use aba_go_orchestrator.Repository.Retry.{defer_retry_targets_without_accounts}
use aba_go_orchestrator.Config.{
  Config, day, is_within_work_window, next_day_work_start, random_cold_interval,
}
use aba_go_orchestrator.Worker.Accounts.{Cursors}
use aba_go_orchestrator.Worker.Schedule.{Outside, Doser, Returned, schedule_target}

-- `quota.LastColdPublishAt != nil && now.Sub(*quota.LastColdPublishAt) < interval`.
abbrev pub is_too_soon : Option ℕ → ℕ → ℕ → Bool
is_too_soon none now interval = false
is_too_soon (some last) now interval = ltb now (last + interval)

abbrev pub schedule_cold :
    Outside
    → Config
    → ℕ
    → ℕ
    → ℕ
    → List TenantAccount
    → Doser
    → Option PendingTargetForDosing
    → Returned × Doser
schedule_cold o c now quota_date interval accounts s none = (ok tt, s)
schedule_cold o c now quota_date interval accounts s (some target) =
    schedule_target o c now quota_date true interval target accounts s

-- The cold part of doseTenant.
unfoldable pub dose_cold :
    Outside → Config → ℕ → ℕ → ℕ → TenantDailyQuota → List TenantAccount → Doser → Returned × Doser
dose_cold o c now tenant_id quota_date quota accounts s =
    let interval = random_cold_interval o.random c in
    if not (is_within_work_window c now)
    then (ok tt, s)
    else if leb quota.cold_limit quota.cold_used
    then (ok tt, s)
    else if is_too_soon quota.last_cold_publish_at now interval
    then (ok tt, s)
    else if o.faults 3 0
    then (err db_error, s)
    else schedule_cold o c now quota_date interval accounts s
        (get_next_pending_target o.locked s.db now tenant_id false)

abbrev pub warm_or_cold :
    Outside
    → Config
    → ℕ
    → ℕ
    → ℕ
    → TenantDailyQuota
    → List TenantAccount
    → Doser
    → Option PendingTargetForDosing
    → Returned × Doser
warm_or_cold o c now tenant_id quota_date quota accounts s none =
    dose_cold o c now tenant_id quota_date quota accounts s
warm_or_cold o c now tenant_id quota_date quota accounts s (some target) =
    schedule_target o c now quota_date false 0 target accounts s

-- The part of doseTenant behind the accounts, with the answer of GetOrCreateTenantDailyQuota.
abbrev pub with_quota :
    Outside
    → Config
    → ℕ
    → ℕ
    → ℕ
    → List TenantAccount
    → Cursors
    → Result TenantDailyQuota × Db
    → Returned × Doser
with_quota o c now tenant_id quota_date accounts cs (err e, db) =
    (err e, record { db = db; cursors = cs })
with_quota o c now tenant_id quota_date accounts cs (ok quota, db) =
    let s : Doser = record { db = db; cursors = cs } in
    if ltb quota.warm_used c.limit_warm_daily
    then (if o.faults 2 0
        then (err db_error, s)
        else warm_or_cold o c now tenant_id quota_date quota accounts s
            (get_next_pending_target o.locked db now tenant_id true))
    else dose_cold o c now tenant_id quota_date quota accounts s

abbrev pub with_accounts :
    Outside → Config → ℕ → ℕ → ℕ → List TenantAccount → Doser → Returned × Doser
with_accounts o c now tenant_id quota_date [] s = (
  ok tt,
  record s {
    db =
        (defer_retry_targets_without_accounts (o.faults 1) now tenant_id (next_day_work_start c now)
          s.db).1;
  },
)
with_accounts o c now tenant_id quota_date (a ∷ as') s =
    with_quota o c now tenant_id quota_date (a ∷ as') s.cursors (
      get_or_create_tenant_daily_quota o.random (o.faults 1) tenant_id quota_date c.limit_cold_min
        c.limit_cold_max s.db)

-- The quota date is the local day of `now`.
unfoldable pub dose_tenant : Outside → Config → ℕ → ℕ → Doser → Returned × Doser
unfolding dose_cold schedule_target
dose_tenant o c now tenant_id s =
    let quota_date = c.location.wall now / day in
    if o.faults 0 0
    then (err db_error, s)
    else with_accounts o c now tenant_id quota_date
        (list_assignable_tenant_accounts s.db tenant_id quota_date now) s

-- doseAllTenants: the error of one tenant does not keep the others from their turn. `o i` and
-- `time i` are what the i-th tenant of the list meets.
unfoldable pub dose_all_tenants : (ℕ → Outside) → Config → (ℕ → ℕ) → ℕ → List ℕ → Doser → Doser
dose_all_tenants o c time i [] s = s
dose_all_tenants o c time i (t ∷ ts) s =
    dose_all_tenants o c time (i + 1) ts (dose_tenant (o i) c (time i) t s).1
