-- ===== src/Repository/Dosing.antt =====
-- internal/repository/anti_ban.go: the choice of the next target, its claim together with a daily
-- slot of the sending account, and the assignable accounts of a tenant.
pub mod Claim
use aba_go_orchestrator.Common.{
  ℕ, ◌+◌, ◌*◌, ◌/◌, Text, text_eq, is_empty, Bool, true, false, not, ltb, leb, ◌==◌, ◌&&◌, ◌||◌,
  Option, none, some, List, [], ◌∷◌, ◌++◌, first, select, update, exists, is_some, if◌then◌else◌,
}
use aba_go_orchestrator.Domain.Status.{TaskStatus, pending, retry_pending, is}
use aba_go_orchestrator.Domain.Models.{
  Campaign, CampaignTarget, OutboxMessage, TenantAccount, PendingTargetForDosing, ChatPhoneMapping,
  active, cooldown, disabled, account_is, is_assignable, after_now,
}
use aba_go_orchestrator.Repository.Store.{
  Db, DailyUsage, Result, ok, err, ◌>>=◌, ◌>>◌, Faults, exec, commit, db_error,
  daily_limit_exhausted, campaign_has_id, target_has_id, account_has_id,
}
use aba_go_orchestrator.Repository.Retry.{is_due, is_live_campaign}

-- A day in nanoseconds, and the UTC date of a time as a day number.
abbrev pub ns_per_day : ℕ
ns_per_day = 86_400_000_000_000

unfoldable pub utc_date : ℕ → ℕ
utc_date t = t / ns_per_day

-- May the target get a new attempt?
unfoldable pub is_eligible : ℕ → CampaignTarget → Bool
is_eligible now t =
    (is t.status pending && t.attempt_count == 0)
    || (is t.status retry_pending && is_due now t.next_attempt_at)

abbrev pub usage_of : ℕ → ℕ → DailyUsage → Bool
usage_of account_id date u = u.tenant_account_id == account_id && u.usage_date == date

-- The upsert of the daily usage; none where its WHERE clause leaves no row affected.
abbrev pub bump_usage :
    TenantAccount → ℕ → List DailyUsage → Option DailyUsage → Option (List DailyUsage)
bump_usage a date us none =
    some (record { tenant_account_id = a.id; usage_date = date; used_count = 1 } ∷ us)
bump_usage a date us (some u) =
    if ltb u.used_count a.daily_limit
    then some (update (usage_of a.id date) (λ v. record v { used_count = v.used_count + 1 }) us)
    else none

unfoldable pub reserve_daily_slot : TenantAccount → ℕ → List DailyUsage → Option (List DailyUsage)
reserve_daily_slot a date us = bump_usage a date us (first (usage_of a.id date) us)

abbrev pub or_exhausted {ℓ} : {A : Type ℓ} → Option A → Result A
or_exhausted none = err daily_limit_exhausted
or_exhausted (some a) = ok a

-- The foreign key of the usage row: the account has to be there.
abbrev pub or_violation {ℓ} : {A : Type ℓ} → Option A → Result A
or_violation none = err db_error
or_violation (some a) = ok a

abbrev pub assign : ℕ → ℕ → ℕ → CampaignTarget → CampaignTarget
assign account_id tenant_id now t = record t {
  tenant_account_id = some account_id;
  tenant_id = tenant_id;
  status = pending;
  attempt_count = t.attempt_count + 1;
  next_attempt_at = none;
  updated_at = now;
}

-- The request of the doser: what AssignAccountAndEnqueueTarget is called with.
pub record Dose : Type 0 where
  pub target_id : ℕ
  pub tenant_id : ℕ
  pub account_id : ℕ
  pub event_type : Text
  pub payload : Text
  pub publish_at : ℕ

abbrev pub dosed_message : ℕ → Dose → OutboxMessage
dosed_message outbox_id d = record {
  id = outbox_id;
  event_type = d.event_type;
  payload = d.payload;
  processed = false;
  tenant_id = d.tenant_id;
  tenant_account_id = d.account_id;
  publish_at = d.publish_at;
}

-- `WHERE id = $1 AND …`, where the id is the primary key.
abbrev pub claim : ℕ → Option CampaignTarget → Option CampaignTarget
claim now none = none
claim now (some t) = if is_eligible now t then some t else none

abbrev pub after_claim : ℕ → ℕ → Dose → List DailyUsage → Db → Db
after_claim now outbox_id d usage db = record db {
  targets = update (target_has_id d.target_id) (assign d.account_id d.tenant_id now) db.targets;
  outbox = db.outbox ++ dosed_message outbox_id d ∷ [];
  usage = usage;
}

-- `outbox_id` is the fresh uuid of the outbox row.
unfoldable pub assign_account_and_enqueue_target : Faults → ℕ → ℕ → Dose → Db → Result Bool × Db
assign_account_and_enqueue_target f now outbox_id d db = commit db do
  exec (f 0)
  exec (f 1)
  elim (claim now (first (target_has_id d.target_id) db.targets)) [
    | none ↦ ok (false, db)
    | some t ↦ do
      exec (f 2)
      a ← or_violation (first (account_has_id d.account_id) db.accounts)
      usage ← or_exhausted (reserve_daily_slot a (utc_date d.publish_at) db.usage)
      exec (f 3)
      exec (f 4)
      exec (f 5)
      ok (true, after_claim now outbox_id d usage db)
  ]

-- The WHERE clause of ListAssignableTenantAccounts.
abbrev pub is_listed : ℕ → ℕ → TenantAccount → Bool
is_listed tenant_id now a =
    a.tenant_id == tenant_id
    && not (account_is a.status disabled)
    && (account_is a.status active || not (after_now a.cooldown_until now))

abbrev used_on : ℕ → Option DailyUsage → ℕ
used_on d none = 0
used_on d (some u) = u.used_count

-- A row as it is scanned: the usage of the date is joined, and a cooldown that is over is lifted.
abbrev pub scan_account : Db → ℕ → ℕ → TenantAccount → TenantAccount
scan_account db date now a = record a {
  status =
      if account_is a.status cooldown && not (after_now a.cooldown_until now)
      then active
      else a.status;
  used_today = used_on date (first (usage_of a.id date) db.usage);
}

abbrev assignable_rows : Db → ℕ → ℕ → ℕ → List TenantAccount → List TenantAccount
assignable_rows db tenant_id date now [] = []
assignable_rows db tenant_id date now (a ∷ as') =
    let rest = assignable_rows db tenant_id date now as' in
    if is_listed tenant_id now a && is_assignable (scan_account db date now a) now
    then scan_account db date now a ∷ rest
    else rest

-- The accounts stand in the table in the order of created_at and id.
unfoldable pub list_assignable_tenant_accounts : Db → ℕ → ℕ → ℕ → List TenantAccount
unfolding is_assignable
list_assignable_tenant_accounts db tenant_id quota_date now =
    assignable_rows db tenant_id quota_date now db.accounts
