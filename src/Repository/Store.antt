-- ===== src/Repository/Store.antt =====
-- internal/repository: the tables behind PostgresRepository, and its transactions. The clock and
-- the outcome of each statement are arguments: `f n` says that the n-th statement of a call fails
-- (a lost connection, a constraint on a table or column that is not modelled).
pub mod Each
use aba_go_orchestrator.Common.{
  ℕ, Text, text_eq, ◌==◌, leb, Bool, true, false, not, ◌&&◌, ◌||◌, List, Option, none, some,
  if◌then◌else◌,
}
use aba_go_orchestrator.Domain.Models.{
  Campaign, CampaignTarget, OutboxMessage, CampaignReply, TenantAccount, BlockedRecipient,
  ChatPhoneMapping, AdminChatPhoneMapping, TenantDailyQuota, Tenant,
}

-- tenant_account_daily_usage.
pub record DailyUsage : Type 0 where
  pub tenant_account_id : ℕ
  pub usage_date : ℕ
  pub used_count : ℕ

pub record Db : Type 0 where
  pub campaigns : List Campaign
  pub targets : List CampaignTarget
  pub outbox : List OutboxMessage
  pub replies : List CampaignReply
  pub accounts : List TenantAccount
  pub usage : List DailyUsage
  pub quotas : List TenantDailyQuota
  pub blocked : List BlockedRecipient
  pub chat_mappings : List ChatPhoneMapping
  pub admin_mappings : List AdminChatPhoneMapping
  pub tenants : List Tenant

-- `panicked` is a run-time panic, which net/http turns into a broken connection.
pub data Error : Type 0 where
  no_rows db_error daily_limit_exhausted empty_argument encoding_error : Error
  file_error storage_error sheet_error panicked : Error

pub data Result {ℓ} (A : Type ℓ) : Type ℓ where
  ok : A → Result A
  err : Error → Result A

infixl 5 ◌>>=◌ ◌>>◌
abbrev pub ◌>>=◌ {ℓ κ} : {A : Type ℓ} {B : Type κ} → Result A → (A → Result B) → Result B
ok a >>= k = k a
err e >>= k = err e

abbrev pub ◌>>◌ {ℓ} : {B : Type ℓ} → Result (Unit {0}) → Result B → Result B
m >> k = m >>= λ _. k

abbrev pub Faults : Type 0
Faults = ℕ → Bool

-- A statement that returns an error where it fails.
abbrev pub exec : Bool → Result (Unit {0})
exec true = err db_error
exec false = ok tt

-- QueryRow(…).Scan: pgx.ErrNoRows where there is no row.
abbrev pub scan {ℓ} : {A : Type ℓ} → Option A → Result A
scan none = err no_rows
scan (some a) = ok a

-- The deferred Rollback: what is not committed is undone.
abbrev pub commit {ℓ} : {A : Type ℓ} → Db → Result (A × Db) → Result A × Db
commit db (ok (a, db')) = (ok a, db')
commit db (err e) = (err e, db)

abbrev pub campaign_has_id : ℕ → Campaign → Bool
campaign_has_id i c = c.id == i

abbrev pub target_has_id : ℕ → CampaignTarget → Bool
target_has_id i t = t.id == i

abbrev pub account_has_id : ℕ → TenantAccount → Bool
account_has_id i a = a.id == i

abbrev pub or_else {ℓ} : {A : Type ℓ} → Option A → Option A → Option A
or_else none b = b
or_else (some a) b = some a

-- Every statement goes through.
abbrev pub no_faults : Faults
no_faults n = false
