-- ===== src/Repository/Quota.antt =====
-- internal/repository/anti_ban.go: the daily quotas of a tenant (GetOrCreateTenantDailyQuota,
-- TryReserveColdSlot, IncrementWarmUsed).
pub mod Slots
use aba_go_orchestrator.Common.{
  ℕ, ◌+◌, ◌-◌, ◌*◌, ◌/◌, Bool, true, false, not, ltb, leb, ◌==◌, ◌&&◌, Option, none, some, List, [],
  ◌∷◌, first, update, exists, is_some, if◌then◌else◌,
}
use aba_go_orchestrator.Domain.Models.{TenantDailyQuota}
use aba_go_orchestrator.Repository.Store.{
  Db, Result, ok, err, db_error, ◌>>=◌, ◌>>◌, Faults, exec, scan, commit,
}

abbrev pub ns_per_second : ℕ
ns_per_second = 1_000_000_000

abbrev pub quota_of : ℕ → ℕ → TenantDailyQuota → Bool
quota_of tenant_id date q = q.tenant_id == tenant_id && q.quota_date == date

-- `rand.Intn(n)` is `random n`.
unfoldable pub draw_cold_limit : (ℕ → ℕ) → ℕ → ℕ → ℕ
draw_cold_limit random cold_min cold_max =
    if ltb cold_min cold_max then cold_min + random (cold_max - cold_min + 1) else cold_min

abbrev new_quota : ℕ → ℕ → ℕ → TenantDailyQuota
new_quota tenant_id date cold_limit = record {
  tenant_id = tenant_id;
  quota_date = date;
  cold_limit = cold_limit;
  cold_used = 0;
  warm_used = 0;
  last_cold_publish_at = none;
}

abbrev with_quota : (ℕ → ℕ) → ℕ → ℕ → ℕ → ℕ → Db → Db
with_quota random tenant_id date cold_min cold_max db =
    if is_some (first (quota_of tenant_id date) db.quotas) then db else record db {
      quotas = new_quota tenant_id date (draw_cold_limit random cold_min cold_max) ∷ db.quotas;
    }

-- Two statements without a transaction: the new row stays where the second one fails.
unfoldable pub get_or_create_tenant_daily_quota :
    (ℕ → ℕ) → Faults → ℕ → ℕ → ℕ → ℕ → Db → Result TenantDailyQuota × Db
get_or_create_tenant_daily_quota random f tenant_id date cold_min cold_max db =
    if f 0
    then (err db_error, db)
    else let db' = with_quota random tenant_id date cold_min cold_max db in
      (exec (f 1) >> scan (first (quota_of tenant_id date) db'.quotas), db')

-- `last_cold_publish_at IS NULL OR last_cold_publish_at + secs <= at`, with whole seconds.
abbrev pub is_spaced : Option ℕ → ℕ → ℕ → Bool
is_spaced none min_interval at = true
is_spaced (some last) min_interval at = leb (last + min_interval / ns_per_second * ns_per_second) at

unfoldable pub has_cold_slot : ℕ → ℕ → TenantDailyQuota → Bool
has_cold_slot at min_interval q =
    ltb q.cold_used q.cold_limit && is_spaced q.last_cold_publish_at min_interval at

abbrev pub take_cold_slot : ℕ → TenantDailyQuota → TenantDailyQuota
take_cold_slot at q = record q { cold_used = q.cold_used + 1; last_cold_publish_at = some at }

abbrev pub reservable : ℕ → ℕ → ℕ → ℕ → TenantDailyQuota → Bool
reservable tenant_id date at min_interval q =
    quota_of tenant_id date q && has_cold_slot at min_interval q

-- RowsAffected() == 1; (tenant_id, quota_date) is the primary key.
abbrev pub affects : ℕ → ℕ → Option TenantDailyQuota → Bool
affects at min_interval none = false
affects at min_interval (some q) = has_cold_slot at min_interval q

unfoldable pub try_reserve_cold_slot : Faults → ℕ → ℕ → ℕ → ℕ → Db → Result Bool × Db
try_reserve_cold_slot f tenant_id date at min_interval db = commit db do
  exec (f 0)
  ok (
    affects at min_interval (first (quota_of tenant_id date) db.quotas),
    record db {
      quotas = update (reservable tenant_id date at min_interval) (take_cold_slot at) db.quotas;
    },
  )

unfoldable pub increment_warm_used : Faults → ℕ → ℕ → Db → Result (Unit {0}) × Db
increment_warm_used f tenant_id date db = commit db do
  exec (f 0)
  ok (
    tt,
    record db {
      quotas =
          update (quota_of tenant_id date) (λ q. record q { warm_used = q.warm_used + 1 })
            db.quotas;
    },
  )
