-- ===== src/Repository/Retry.antt =====
-- internal/repository/anti_ban.go: the retry pipeline (ApplyRetryableFailure, MarkAccountCooldown,
-- MarkTargetDeliveryUnknown, DeferRetryTargetsWithoutAccounts).
pub mod Policy
use aba_go_orchestrator.Common.{
  ℕ, Text, Bool, true, false, not, ltb, leb, ◌==◌, ◌&&◌, ◌||◌, Option, none, some, first, update,
  List, is_some, if◌then◌else◌,
}
use aba_go_orchestrator.Domain.Errors.{is_session_health_error}
use aba_go_orchestrator.Domain.Status.{
  TaskStatus, pending, sent, delivered, viewed, failed, replied, user_not_found_by_phone,
  retry_pending, delivery_unknown, other, processing, is, campaign_is,
}
use aba_go_orchestrator.Domain.Models.{
  Campaign, CampaignTarget, TenantAccount, cooldown, disabled, account_is, uuid_nil,
}
use aba_go_orchestrator.Repository.Store.{
  Db, Result, ok, ◌>>=◌, ◌>>◌, Faults, exec, scan, commit, target_has_id, account_has_id,
  campaign_has_id,
}

-- `WHERE id = $1 AND status <> 'disabled'`.
abbrev pub can_cool : ℕ → TenantAccount → Bool
can_cool account_id a = account_has_id account_id a && not (account_is a.status disabled)

abbrev pub cool_down : ℕ → ℕ → List TenantAccount → List TenantAccount
cool_down account_id until =
    update (can_cool account_id) λ a. record a { status = cooldown; cooldown_until = some until }

unfoldable pub mark_account_cooldown : Faults → ℕ → ℕ → Db → Result (Unit {0}) × Db
mark_account_cooldown f account_id until db =
    commit db
      do exec (f 0); ok (tt, record db { accounts = cool_down account_id until db.accounts })

-- The columns that a failure writes.
abbrev pub write_failure : TaskStatus → Text → Text → Option ℕ → ℕ → CampaignTarget → CampaignTarget
write_failure status error_code error_message next_attempt_at now t = record t {
  status = status;
  last_error = some error_message;
  last_error_code = some error_code;
  last_error_message = some error_message;
  next_attempt_at = next_attempt_at;
  updated_at = now;
}

-- The cases of the switch: an answer, or none where the failure is to be written.
unfoldable pub settled : TaskStatus → Option Bool
settled retry_pending = some true
settled delivery_unknown = some false
settled failed = some false
settled user_not_found_by_phone = some false
settled sent = some false
settled delivered = some false
settled viewed = some false
settled replied = some false
settled pending = none
settled (other s) = none

abbrev pub attempts_or_default : ℕ → ℕ
attempts_or_default max_attempts = if ltb max_attempts 1 then 3 else max_attempts

-- Is the account to be cooled down? A zero time.Time stands for no cooldown.
unfoldable pub cools : ℕ → Text → ℕ → Bool
cools account_id error_code cooldown_until =
    not (account_id == uuid_nil) && is_session_health_error error_code && not (cooldown_until == 0)

-- What ResultConsumer passes on about a retryable failure.
pub record Failure : Type 0 where
  pub target_id : ℕ
  pub account_id : ℕ
  pub error_code : Text
  pub error_message : Text
  pub next_attempt_at : ℕ
  pub cooldown_until : ℕ
  pub max_attempts : ℕ

abbrev pub is_exhausted : Failure → CampaignTarget → Bool
is_exhausted e t = leb (attempts_or_default e.max_attempts) t.attempt_count

abbrev pub fail_target : ℕ → Failure → Bool → CampaignTarget → CampaignTarget
fail_target now e true = write_failure failed e.error_code e.error_message none now
fail_target now e false =
    write_failure retry_pending e.error_code e.error_message (some e.next_attempt_at) now

abbrev pub cooled : Failure → List TenantAccount → List TenantAccount
cooled e accounts =
    if cools e.account_id e.error_code e.cooldown_until
    then cool_down e.account_id e.cooldown_until accounts
    else accounts

abbrev pub after_failure : ℕ → Failure → CampaignTarget → Db → Db
after_failure now e t db = record db {
  accounts = cooled e db.accounts;
  targets = update (target_has_id e.target_id) (fail_target now e (is_exhausted e t)) db.targets;
}

-- Statement 2 is the cooldown, which is run only where it is due; 3 writes the target.
unfoldable pub apply_retryable_failure : Faults → ℕ → Failure → Db → Result Bool × Db
apply_retryable_failure f now e db = commit db do
  exec (f 0)
  exec (f 1)
  t ← scan (first (target_has_id e.target_id) db.targets)
  elim (settled t.status) [
    | some retried ↦ do exec (f 4); ok (retried, db)
    | none ↦ do
      exec (cools e.account_id e.error_code e.cooldown_until && f 2)
      exec (f 3)
      exec (f 4)
      ok (not (is_exhausted e t), after_failure now e t db)
  ]

-- `status NOT IN ('sent', 'delivered', 'viewed', 'replied', 'delivery_unknown')`.
abbrev pub can_be_unknown : ℕ → CampaignTarget → Bool
can_be_unknown target_id t =
    target_has_id target_id t
    && not (
        is t.status sent
        || is t.status delivered
        || is t.status viewed
        || is t.status replied
        || is t.status delivery_unknown)

unfoldable pub mark_target_delivery_unknown :
    Faults → ℕ → ℕ → Text → Text → Db → Result (Unit {0}) × Db
mark_target_delivery_unknown f now target_id code message db = commit db do
  exec (f 0)
  ok (
    tt,
    record db {
      targets =
          update (can_be_unknown target_id) (write_failure delivery_unknown code message none now)
            db.targets;
    },
  )

-- `next_attempt_at IS NULL OR next_attempt_at <= NOW()`.
abbrev pub is_due : ℕ → Option ℕ → Bool
is_due now none = true
is_due now (some t) = leb t now

abbrev pub is_live_campaign : ℕ → Campaign → Bool
is_live_campaign tenant_id c =
    c.tenant_id == tenant_id && campaign_is c.status processing && not c.deleted

-- The join with the campaign of the target.
abbrev pub in_live_campaign : Db → ℕ → CampaignTarget → Bool
in_live_campaign db tenant_id t =
    is_some
      (first (λ c. campaign_has_id t.campaign_id c && is_live_campaign tenant_id c) db.campaigns)

unfoldable pub defer_retry_targets_without_accounts :
    Faults → ℕ → ℕ → ℕ → Db → Result (Unit {0}) × Db
defer_retry_targets_without_accounts f now tenant_id next db = commit db do
  exec (f 0)
  ok (
    tt,
    record db {
      targets =
          update
            (λ t.
              in_live_campaign db tenant_id t
              && is t.status retry_pending
              && is_due now t.next_attempt_at)
            (λ t. record t { next_attempt_at = some next; updated_at = now }) db.targets;
    },
  )
