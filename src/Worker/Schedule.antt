-- ===== src/Worker/Schedule.antt =====
-- internal/worker/campaign_doser.go: scheduleTarget. What the source does not hold is a parameter: the
-- spintax package and the title case of golang.org/x/text, which make the message text, the JSON
-- encoder and the fresh uuids. Every call of the repository has faults of its own.
use aba_go_orchestrator.Common.{
  ℕ, ◌+◌, Text, lit, is_empty, Bool, true, false, not, ◌&&◌, Option, none, some, List,
  if◌then◌else◌,
}
use aba_go_orchestrator.Domain.Models.{
  TenantAccount, PendingTargetForDosing, default_messenger_type,
}
use aba_go_orchestrator.Repository.Store.{Db, Result, ok, err, encoding_error, Faults}
use aba_go_orchestrator.Repository.Dosing.{Dose, assign_account_and_enqueue_target}
use aba_go_orchestrator.Repository.Quota.{try_reserve_cold_slot, increment_warm_used}
use aba_go_orchestrator.Repository.Retry.{defer_retry_targets_without_accounts}
use aba_go_orchestrator.Config.{Config, next_day_work_start}
use aba_go_orchestrator.Worker.Accounts.{Cursors, pick_account}

-- domain.SendTaskPayload.
pub record SendTaskPayload : Type 0 where
  pub task_id : ℕ
  pub campaign_id : ℕ
  pub tenant_id : ℕ
  pub tenant_account_id : ℕ
  pub account_id : ℕ
  pub messenger : Text
  pub messenger_type : Text
  pub phone : Text
  pub message_text : Text
  pub use_chat_id : Bool
  pub chat_id : Text
  pub contact_type : Text
  pub attachment_url : Option Text
  pub attachment_name : Option Text

pub record Outside : Type 0 where
  -- The template with the client's name filled in, and its spintax expanded.
  pub message_text : Text → Text → Text
  -- json.Marshal; none is an error.
  pub marshal : SendTaskPayload → Option Text
  -- strings.ToLower.
  pub lower : Text → Text
  pub fresh_id : ℕ
  pub random : ℕ → ℕ
  -- The rows that other transactions hold.
  pub locked : ℕ → Bool
  -- The faults of the n-th call of the repository in this tick.
  pub faults : ℕ → Faults

pub record Doser : Type 0 where
  pub db : Db
  pub cursors : Cursors

abbrev pub outbox_event_send : Text
outbox_event_send = lit "message.send"

abbrev pub outbox_event_send_existing_chat : Text
outbox_event_send_existing_chat = lit "message.send_existing_chat"

abbrev pub uses_chat : Bool → PendingTargetForDosing → Bool
uses_chat is_cold target = not is_cold && (target.is_warm && not (is_empty target.chat_id))

abbrev pub contact_type : Bool → Text
contact_type true = lit "cold"
contact_type false = lit "warm"

abbrev pub messenger_of : PendingTargetForDosing → Text
messenger_of target =
    if is_empty target.messenger_type then default_messenger_type else target.messenger_type

abbrev pub payload_of : Outside → Bool → PendingTargetForDosing → TenantAccount → SendTaskPayload
payload_of o is_cold target account = record {
  task_id = target.target_id;
  campaign_id = target.campaign_id;
  tenant_id = target.tenant_id;
  tenant_account_id = account.id;
  account_id = account.id;
  messenger = o.lower (messenger_of target);
  messenger_type = messenger_of target;
  phone = target.phone_normalized;
  message_text = o.message_text target.message_template target.client_name;
  use_chat_id = uses_chat is_cold target;
  chat_id = target.chat_id;
  contact_type = contact_type is_cold;
  attachment_url = target.attachment_url;
  attachment_name = target.attachment_name;
}

abbrev pub dose_of : Bool → PendingTargetForDosing → TenantAccount → Text → ℕ → Dose
dose_of is_cold target account payload publish_at = record {
  target_id = target.target_id;
  tenant_id = target.tenant_id;
  account_id = account.id;
  event_type =
      if uses_chat is_cold target then outbox_event_send_existing_chat else outbox_event_send;
  payload = payload;
  publish_at = publish_at;
}

-- The error that doseTenant returns, if any; it is only logged.
abbrev pub Returned : Type 0
Returned = Result (Unit {0})

abbrev pub forget {ℓ} : {A : Type ℓ} → Result A → Returned
forget (ok a) = ok tt
forget (err e) = err e

-- The cold branch after the reservation of a slot: an error of the claim is only logged.
abbrev pub enqueue_cold : Outside → ℕ → Dose → Result Bool × Db → Returned × Db
enqueue_cold o now d (err e, db) = (err e, db)
enqueue_cold o now d (ok false, db) = (ok tt, db)
enqueue_cold o now d (ok true, db) =
    (ok tt, (assign_account_and_enqueue_target (o.faults 5) now o.fresh_id d db).1)

-- The warm branch after the claim: the use is counted for any answer but an error.
abbrev pub count_warm : Outside → ℕ → ℕ → Result Bool × Db → Returned × Db
count_warm o tenant_id quota_date (err e, db) = (ok tt, db)
count_warm o tenant_id quota_date (ok dosed, db) =
    increment_warm_used (o.faults 6) tenant_id quota_date db

-- scheduleTarget from the payload on; none is an error of the encoder.
abbrev pub enqueue :
    Outside
    → ℕ
    → ℕ
    → Bool
    → ℕ
    → PendingTargetForDosing
    → TenantAccount
    → Option Text
    → Db
    → Returned × Db
enqueue o now quota_date is_cold interval target account none db = (err encoding_error, db)
enqueue o now quota_date true interval target account (some payload) db =
    enqueue_cold o now (dose_of true target account payload now)
      (try_reserve_cold_slot (o.faults 4) target.tenant_id quota_date now interval db)
enqueue o now quota_date false interval target account (some payload) db =
    count_warm o target.tenant_id quota_date (
      assign_account_and_enqueue_target (o.faults 5) now o.fresh_id
        (dose_of false target account payload (now + interval)) db)

abbrev pub schedule_with :
    Outside
    → Config
    → ℕ
    → ℕ
    → Bool
    → ℕ
    → PendingTargetForDosing
    → Option TenantAccount
    → Db
    → Returned × Db
schedule_with o c now quota_date is_cold interval target none db = (
  ok tt,
  (defer_retry_targets_without_accounts (o.faults 4) now target.tenant_id
      (next_day_work_start c now) db).1,
)
schedule_with o c now quota_date is_cold interval target (some account) db =
    enqueue o now quota_date is_cold interval target account
      (o.marshal (payload_of o is_cold target account)) db

unfoldable pub schedule_target :
    Outside
    → Config
    → ℕ
    → ℕ
    → Bool
    → ℕ
    → PendingTargetForDosing
    → List TenantAccount
    → Doser
    → Returned × Doser
schedule_target o c now quota_date is_cold interval target accounts s =
    let (account, cs) = pick_account target.tenant_id accounts target.preferred_account s.cursors in
    let (r, db) = schedule_with o c now quota_date is_cold interval target account s.db in
    (r, record { db = db; cursors = cs })
