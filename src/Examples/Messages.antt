-- ===== src/Examples/Messages.antt =====
-- internal/worker, internal/usecase and the chats: a blocked message, replies, a poll, an admin chat and
-- callbacks.
use aba_go_orchestrator.Common.{
  ℕ, lit, is_empty, trim_space, text_eq, ◌∷◌, [], List, length, All, ◌≡◌, ◌≢◌, ◌↔◌, Bool, refl,
  true, false, ◌≤◌, ◌<◌, first, none, some, if◌then◌else◌,
}
use aba_go_orchestrator.Domain.Status.{pending, retry_pending, is_error_status, rank}
use aba_go_orchestrator.Domain.Phone.{normalize_phone}
use aba_go_orchestrator.Domain.Models.{
  Campaign, CampaignTarget, OutboxMessage, AdminChatPhoneMapping, BlockedRecipient,
}
use aba_go_orchestrator.Repository.Store.{Db, Result, ok, no_faults, target_has_id}
use aba_go_orchestrator.Repository.Targets.{update_target_status, status_to_write, count_report}
use aba_go_orchestrator.Repository.Dosing.{is_eligible}
use aba_go_orchestrator.Repository.Pending.{is_blocked_recipient}
use aba_go_orchestrator.Repository.Replies.{list_blocked_recipients}
use aba_go_orchestrator.Repository.Mappings.{
  upsert_admin_chat_mapping, get_admin_chat_phone_mapping_by_phone,
}
use aba_go_orchestrator.Repository.Mappings.Admins.{admin_chat_found}
use aba_go_orchestrator.Usecase.Callback.{update_target_status_with_code, callback_reopens}
use aba_go_orchestrator.Worker.Cache.{is_blocked, refresh, new_cache}
use aba_go_orchestrator.Worker.Cache.View.{refresh-is_blocked}
use aba_go_orchestrator.Worker.Outbox.{
  SendTask, acked, get_pending_messages, process_messages, mark,
}
use aba_go_orchestrator.Worker.Outbox.Delivery.{
  has_id, rows_of, HandedOver, IsBlockedTask, marked_if_handled, blocked_not_sent,
}
use aba_go_orchestrator.Worker.Poller.{chunks}
use aba_go_orchestrator.Worker.Poller.Chunks.{flatten, chunks_complete}
use aba_go_orchestrator.Worker.Outbox
use aba_go_orchestrator.Examples.Data.{parse, phone, campaign, target, config, db_with}

-- A cold message of the campaign, and the blocklist with its recipient.
abbrev message : OutboxMessage
message = record {
  id = 7;
  event_type = lit "message.send";
  payload = lit "{}";
  processed = false;
  tenant_id = 1;
  tenant_account_id = 3;
  publish_at = 100;
}

abbrev outbox_outside : Outbox.Outside
outbox_outside = record {
  now = 129_600_000_000_000;
  decode = λ t. record {
    task_id = lit "t";
    campaign_id = lit "c";
    tenant_id = lit "1";
    tenant_account_id = [];
    account_id = [];
    phone = phone;
    contact_type = lit "cold";
  };
  parse = parse;
  print = λ n. n ∷ [];
  equal_fold = text_eq;
  config = config;
  block_checker = some ((b'1', phone) ∷ []);
  marshals = λ r. true;
  takes_result = true;
  ensures = λ t. true;
  answer = acked;
}

abbrev full : Db
full = record (db_with pending) { outbox = message ∷ [] }

marked_if_handled_example :
    (b : Bool) × (first
        (has_id 7)
        (process_messages (λ i. outbox_outside) (λ i. false) no_faults no_faults 200 full).1.outbox
      ≡ some (if b then mark message else message))
    × ((b ≡ true) ↔ (
        (false ≡ false)
        × HandedOver
            (λ i. outbox_outside)
            0
            7
            (rows_of (get_pending_messages (λ i. false) no_faults 200 100 full))))
marked_if_handled_example =
    marked_if_handled (λ i. outbox_outside) (λ i. false) no_faults no_faults 200 full 7 message refl

phone_is_blocked : is_blocked b'1' phone ((b'1', phone) ∷ []) ≡ true
unfolding is_blocked text_eq
phone_is_blocked = refl

blocked_task : IsBlockedTask outbox_outside (outbox_outside.decode (lit "{}"))
blocked_task = record {
  cache = (b'1', phone) ∷ [];
  tenant_id = b'1';
  task_id = b't';
  campaign_id = b'c';
  checker = refl;
  has_tenant = refl;
  has_phone = refl;
  tenant_parses = refl;
  task_parses = refl;
  campaign_parses = refl;
  blocked = phone_is_blocked;
}

blocked_not_sent_example :
    All
      (λ e. All (λ s. s.1 ≢ lit "{}") e.1.sends)
      (process_messages (λ i. outbox_outside) (λ i. false) no_faults no_faults 200 full).0
blocked_not_sent_example =
    blocked_not_sent (λ i. outbox_outside) (lit "{}") (λ k. blocked_task) (λ k r. refl) (λ i. false)
      no_faults no_faults 200 full

abbrev three : List ℕ
three = 1 ∷ 2 ∷ 3 ∷ []

chunks_complete_example :
    (flatten (chunks three) ≡ three) × All (λ c. (0 < length c) × (length c ≤ 50)) (chunks three)
chunks_complete_example = chunks_complete three

abbrev blocked_row : BlockedRecipient
blocked_row = record { tenant_id = 1; phone_normalized = phone; blocked_at = 5 }

abbrev blocking : Db
blocking = record (db_with pending) { blocked = blocked_row ∷ [] }

refresh-is_blocked_example :
    is_blocked 1 phone (refresh (list_blocked_recipients no_faults blocking) new_cache)
    ≡ is_blocked_recipient blocking 1 phone
refresh-is_blocked_example = refresh-is_blocked no_faults 1 phone blocking new_cache refl

abbrev stored : Result (Unit {0}) × Db
stored =
    upsert_admin_chat_mapping no_faults (lit " c1 ") 1 3 (lit "8 912 345-67-89") []
      (db_with pending)

stored_is_ok :
    upsert_admin_chat_mapping no_faults
      (lit " c1 ")
      1
      3
      (lit "8 912 345-67-89")
      []
      (db_with pending)
    ≡ (ok tt, stored.1)
unfolding upsert_admin_chat_mapping trim_space normalize_phone
stored_is_ok = refl

admin_chat_found_example :
    (m : AdminChatPhoneMapping) × (get_admin_chat_phone_mapping_by_phone no_faults 1 3
        (normalize_phone (lit "8 912 345-67-89"))
        []
        stored.1
      ≡ ok m)
    × (m.chat_id ≡ trim_space (lit " c1 "))
admin_chat_found_example =
    admin_chat_found no_faults no_faults (lit " c1 ") 1 3 (lit "8 912 345-67-89") []
      (db_with pending) stored.1 stored_is_ok refl

abbrev called_back : Result Campaign × Db
called_back =
    update_target_status_with_code no_faults no_faults 150 20 retry_pending [] [] none
      (db_with pending)

callback_is_accepted :
    update_target_status_with_code no_faults no_faults 150 20 retry_pending [] [] none
      (db_with pending)
    ≡ (ok campaign, called_back.1)
unfolding update_target_status_with_code update_target_status status_to_write count_report rank
    is_error_status trim_space
callback_is_accepted = refl

no_code : is_empty (trim_space []) ≡ true
unfolding trim_space
no_code = refl

callback_reopens_example :
    (t' : CampaignTarget) × (first (target_has_id 20) called_back.1.targets ≡ some t')
    × (t'.status ≡ retry_pending)
    × (t'.attempt_count ≡ 0)
    × (is_eligible 160 t' ≡ true)
callback_reopens_example =
    callback_reopens no_faults no_faults 150 160 20 [] [] (db_with pending) called_back.1
      (target pending) campaign no_code refl refl refl callback_is_accepted
