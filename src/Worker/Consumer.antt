-- ===== src/Worker/Consumer.antt =====
-- internal/worker/result_consumer.go: what flush does with a batch of results, item by item, and the
-- groups of replies that it collects; Notify has the notifications that follow. The uuid parser is a
-- parameter; every call of the repository has faults of its own.
pub mod Flush
pub mod Groups
pub mod Notify
pub mod Loop
use aba_go_orchestrator.Common.{
  ℕ, ◌+◌, ◌-◌, Text, lit, text_eq, is_empty, trim_space, leb, ◌==◌, Bool, true, false, not, ◌&&◌,
  ◌||◌, Option, none, some, List, [], ◌∷◌, ◌++◌, first, if◌then◌else◌,
}
use aba_go_orchestrator.Domain.Errors.{
  ErrorDisposition, final, retryable, unknown, classify_error_code, is_session_health_error,
  error_code_delivery_unknown,
}
use aba_go_orchestrator.Domain.Status.{
  TaskStatus, sent, delivered, viewed, failed, replied, user_not_found_by_phone, retry_pending,
  delivery_unknown, other, is,
}
use aba_go_orchestrator.Domain.Models.{
  Campaign, CampaignTarget, ChatPhoneMapping, TargetResult, ClientReplyInfo, uuid_nil,
}
use aba_go_orchestrator.Repository.Store.{
  Db, Result, ok, err, no_rows, ◌>>=◌, ◌>>◌, Faults, exec, scan, target_has_id,
}
use aba_go_orchestrator.Repository.Targets.{update_target_status}
use aba_go_orchestrator.Repository.Retry.{
  Failure, apply_retryable_failure, mark_target_delivery_unknown,
}
use aba_go_orchestrator.Repository.Replies.{register_reply}
use aba_go_orchestrator.Repository.Mappings.{
  Mapping, upsert_chat_phone_mapping, get_chat_phone_mapping_by_chat_id, upsert_admin_chat_mapping,
}
use aba_go_orchestrator.Config.{Config, retry_delay, account_cooldown}
use aba_go_orchestrator.Worker.Cache.{Cache, add}

-- observedReply.
pub record ObservedReply : Type 0 where
  pub tenant_id : ℕ
  pub tenant_account_id : ℕ
  pub reply : ClientReplyInfo

abbrev pub or_nil : Option ℕ → ℕ
or_nil none = uuid_nil
or_nil (some id) = id

-- replyAccountID, for a target that is there.
unfoldable pub reply_account_id : ℕ → CampaignTarget → ℕ
reply_account_id account_id target =
    if not (account_id == uuid_nil) then account_id else or_nil target.tenant_account_id

-- resultAccountID.
unfoldable pub result_account_id : (Text → Option ℕ) → TargetResult → ℕ
result_account_id parse r =
    if not (r.tenant_account_id == uuid_nil)
    then r.tenant_account_id
    else let id = trim_space r.account_id in if is_empty id then uuid_nil else or_nil (parse id)

unfoldable pub is_admin_notification_result : TargetResult → Bool
is_admin_notification_result r =
    is r.status sent && r.target_id == uuid_nil && r.campaign_id == uuid_nil

abbrev is_uncertain : ErrorDisposition → Bool
is_uncertain retryable = true
is_uncertain unknown = true
is_uncertain final = false

unfoldable pub is_send_failure_result : TargetResult → Bool
is_send_failure_result r =
    is r.status failed
    || is r.status delivery_unknown
    || is r.status retry_pending
    || (not (is_empty r.error_code)
        && is_uncertain (classify_error_code r.error_code)
        && not (
            is r.status sent || is r.status delivered || is r.status viewed || is r.status replied))

-- What flush finds outside: the clock, google/uuid, the configuration, cfg.IsUnsubscribeReply (also
-- as the matcher of the repository), the faults of the n-th call of the repository for an item.
pub record Outside : Type 0 where
  pub now : ℕ
  pub parse : Text → Option ℕ
  pub config : Config
  pub is_unsubscribe : Text → Bool
  pub matcher : Option (Text → Bool)
  pub faults : ℕ → Faults

pub record Consumer : Type 0 where
  pub db : Db
  pub blocklist : Option Cache
  pub observed : List ObservedReply

pub data Verdict : Type 0 where
  ack nack : Verdict

abbrev verdict {ℓ} : {A : Type ℓ} → Result A → Verdict
verdict (ok a) = ack
verdict (err e) = nack

-- An update of the database whose error is answered with a nack.
abbrev pub settle {ℓ} : {A : Type ℓ} → Consumer → Result A × Db → Verdict × Consumer
settle s (r, db) = (verdict r, record s { db = db })

abbrev pub text_or_empty : Option Text → Text
text_or_empty none = []
text_or_empty (some t) = t

-- The account that handleSendFailure blames: it reads account_id as it is.
abbrev blamed_account : (Text → Option ℕ) → TargetResult → ℕ
blamed_account parse r =
    if not (r.tenant_account_id == uuid_nil)
    then r.tenant_account_id
    else if is_empty r.account_id
    then uuid_nil
    else or_nil (parse r.account_id)

-- What is asked of ApplyRetryableFailure.
unfoldable pub failure_of : Outside → TargetResult → Text → Failure
failure_of o r code =
    let account_id = blamed_account o.parse r in
    record {
      target_id = r.target_id;
      account_id = account_id;
      error_code = code;
      error_message = text_or_empty r.error_message;
      next_attempt_at = o.now + retry_delay o.config;
      cooldown_until =
          if is_session_health_error code && not (account_id == uuid_nil)
          then o.now + account_cooldown o.config
          else 0;
      max_attempts = o.config.max_retry_attempts;
    }

abbrev pub handle_disposition :
    Outside → TargetResult → Text → Consumer → ErrorDisposition → Verdict × Consumer
handle_disposition o r code s unknown = settle s (
    mark_target_delivery_unknown (o.faults 0) o.now r.target_id code (text_or_empty r.error_message)
      s.db)
handle_disposition o r code s retryable =
    settle s (apply_retryable_failure (o.faults 0) o.now (failure_of o r code) s.db)
handle_disposition o r code s final = settle s (
    update_target_status (o.faults 0) o.now r.target_id failed
      (some (text_or_empty r.error_message)) none s.db)

-- handleSendFailure, once the code is known.
abbrev pub handle_error_code : Outside → TargetResult → Text → Consumer → Verdict × Consumer
handle_error_code o r code s = handle_disposition o r code s (classify_error_code code)

-- A failed result without a code stays terminal.
unfoldable pub handle_send_failure : Outside → TargetResult → Consumer → Verdict × Consumer
unfolding failure_of
handle_send_failure o r s =
    let code = trim_space r.error_code in
    if not (is_empty code)
    then handle_error_code o r code s
    else if is r.status delivery_unknown
    then handle_error_code o r error_code_delivery_unknown s
    else settle s (
        update_target_status (o.faults 0) o.now r.target_id failed
          (some (text_or_empty r.error_message)) none s.db)

-- GetCampaignTargetByID.
abbrev pub get_campaign_target_by_id : Faults → ℕ → Db → Result CampaignTarget
get_campaign_target_by_id f id db = do exec (f 0); scan (first (target_has_id id) db.targets)

abbrev two_minutes : ℕ
two_minutes = 120_000_000_000

abbrev near : Option ℕ → ℕ → Bool
near none t = false
near (some u) t = leb ((u - t) + (t - u)) two_minutes

abbrev same_text : Option Text → Text → Bool
same_text none t = false
same_text (some u) t = text_eq (trim_space u) (trim_space t)

-- The reply is the one that the target has, and no more than two minutes apart.
unfoldable pub is_duplicate_reply : TargetResult → Text → Result CampaignTarget → Bool
is_duplicate_reply r text (err e) = false
is_duplicate_reply r text (ok t) =
    is t.status replied && same_text t.last_reply_text text && near t.replied_at r.timestamp

abbrev block : Bool → ℕ → Text → Option Cache → Option Cache
block true tenant_id phone (some c) = some (add tenant_id phone c)
block true tenant_id phone none = none
block false tenant_id phone c = c

-- The part behind RegisterReply.
abbrev pub observe :
    Outside → TargetResult → Text → Consumer → Campaign → Result CampaignTarget → Verdict × Consumer
observe o r text s c (err e) = (nack, s)
observe o r text s c (ok t) = (
  ack,
  record s {
    blocklist = block (o.is_unsubscribe text) c.tenant_id t.phone_normalized s.blocklist;
    observed =
        s.observed
        ++ record {
          tenant_id = c.tenant_id;
          tenant_account_id = reply_account_id r.tenant_account_id t;
          reply = record {
            user_phone = t.phone_normalized;
            user_name = t.client_name;
            message = text;
            time = r.timestamp;
          };
        }
          ∷ [];
  },
)

abbrev pub registered :
    Outside → TargetResult → Text → Consumer → Result Campaign × Db → Verdict × Consumer
registered o r text s (err e, db) = (nack, record s { db = db })
registered o r text s (ok c, db) =
    observe o r text (record s { db = db }) c
      (get_campaign_target_by_id (o.faults 2) r.target_id db)

unfoldable pub handle_reply : Outside → TargetResult → Text → Consumer → Verdict × Consumer
unfolding is_duplicate_reply
handle_reply o r text s =
    if is_duplicate_reply r text (get_campaign_target_by_id (o.faults 0) r.target_id s.db)
    then (ack, s)
    else registered o r text s (
        register_reply o.matcher (o.faults 1) o.now r.campaign_id r.phone_number text r.timestamp
          s.db)

abbrev pub not_found_message : Option Text → Option Text
not_found_message none = some (lit "user not found by phone")
not_found_message (some m) = some m

abbrev pub is_blank : TaskStatus → Bool
is_blank (other []) = true
is_blank _ = false

abbrev pub report :
    Outside → TargetResult → TaskStatus → Option Text → Consumer → Verdict × Consumer
report o r status message s =
    settle s (update_target_status (o.faults 0) o.now r.target_id status message none s.db)

-- The branches on the status, for a result that is no reply.
unfoldable pub handle_status : Outside → TargetResult → Consumer → Verdict × Consumer
unfolding handle_send_failure is_send_failure_result
handle_status o r s =
    if is r.status viewed
    then report o r viewed r.error_message s
    else if is r.status user_not_found_by_phone
    then report o r user_not_found_by_phone (not_found_message r.error_message) s
    else if is_send_failure_result r
    then handle_send_failure o r s
    else if is_blank r.status
    then (ack, s)
    else report o r r.status r.error_message s

abbrev pub reply_or_status : Outside → TargetResult → Option Text → Consumer → Verdict × Consumer
reply_or_status o r none s = handle_status o r s
reply_or_status o r (some text) s =
    if is r.status replied then handle_reply o r text s else handle_status o r s

-- From the second test for an admin notification on.
unfoldable pub handle_result : Outside → TargetResult → Consumer → Verdict × Consumer
unfolding handle_reply handle_status is_admin_notification_result
handle_result o r s =
    if is_admin_notification_result r
    then (ack, s)
    else if r.target_id == uuid_nil || r.campaign_id == uuid_nil
    then (ack, s)
    else reply_or_status o r r.reply_text s
