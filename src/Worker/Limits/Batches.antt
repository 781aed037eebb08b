-- ===== src/Worker/Limits/Batches.antt =====
-- internal/worker/result_consumer.go: the repository calls of a batch.
use aba_go_orchestrator.Common.{
  ℕ, ◌+◌, ◌==◌, Text, is_empty, trim_space, Bool, true, false, not, ◌&&◌, ◌||◌, Option, none, some,
  List, [], ◌∷◌, if◌then◌else◌, ◌≡◌, ◌≢◌, refl, sym, subst, arith,
}
use aba_go_orchestrator.Domain.Errors.{
  ErrorDisposition, final, retryable, unknown, error_code_delivery_unknown,
}
use aba_go_orchestrator.Domain.Status.{
  sent, viewed, failed, replied, user_not_found_by_phone, retry_pending, delivery_unknown, is,
}
use aba_go_orchestrator.Domain.Models.{
  Campaign, CampaignTarget, ChatPhoneMapping, TargetResult, uuid_nil,
}
use aba_go_orchestrator.Repository.Store.{Db, Result, ok, err, Faults}
use aba_go_orchestrator.Repository.Retry.{attempts_or_default}
use aba_go_orchestrator.Repository.Mappings.{
  Mapping, upsert_chat_phone_mapping, get_chat_phone_mapping_by_chat_id, upsert_admin_chat_mapping,
}
use aba_go_orchestrator.Repository.Attempts.{
  Reach, here, next, fail, lose, report, reply, keep, reach_trans,
}
use aba_go_orchestrator.Worker.Consumer.{
  Outside, Consumer, Verdict, is_send_failure_result, handle_disposition, failure_of,
  handle_send_failure, get_campaign_target_by_id, is_duplicate_reply, observe, registered,
  handle_reply, handle_status, reply_or_status, handle_result, is_admin_notification_result,
  result_account_id, is_blank,
}
use aba_go_orchestrator.Worker.Consumer.Flush.{
  names_target, has_phone, store_chat, store_admin_chat, resolve, with_mapping, handle_chat,
  process_result, flush_from,
}

upsert_chat_targets :
    (f : Faults) (m : Mapping) (db : Db) → (upsert_chat_phone_mapping f m db).1.targets ≡ db.targets
unfolding upsert_chat_phone_mapping
upsert_chat_targets f m db = ground arith

upsert_admin_targets :
    (f : Faults) (chat : Text) (tenant account : ℕ) (phone messenger : Text) (db : Db)
    → (upsert_admin_chat_mapping f chat tenant account phone messenger db).1.targets ≡ db.targets
unfolding upsert_admin_chat_mapping
upsert_admin_targets f chat tenant account phone messenger db = ground arith

module _ (limit : ℕ) (o : Outside)
    (max : attempts_or_default o.config.max_retry_attempts ≡ limit) where
  abbrev Reaches : Db → Verdict × Consumer → Type 0
  Reaches db x = Reach limit db x.1.db

  -- One branch of an `if`, with the outcome of its test.
  either :
      (b : Bool) (x y : Verdict × Consumer) {db : Db}
      → (b ≡ true → Reach limit db x.1.db)
      → (b ≡ false → Reach limit db y.1.db)
      → Reach limit db (if b then x else y).1.db
  either true x y p q = p refl
  either false x y p q = q refl

  handle_error_code_reach :
      (r : TargetResult) (code : Text) (s : Consumer) (d : ErrorDisposition)
      → Reaches s.db (handle_disposition o r code s d)
  unfolding failure_of
  handle_error_code_reach r code s unknown = next here (lose (o.faults 0) o.now r.target_id code _)
  handle_error_code_reach r code s retryable =
      next here (fail (o.faults 0) o.now (failure_of o r code) max)
  handle_error_code_reach r code s final =
      next here (report (o.faults 0) o.now r.target_id failed _ none (ground arith))

  handle_send_failure_reach :
      (r : TargetResult) (s : Consumer) → Reaches s.db (handle_send_failure o r s)
  unfolding handle_send_failure
  handle_send_failure_reach r s =
      either (not (is_empty (trim_space r.error_code))) _ _
        (λ _. handle_error_code_reach r (trim_space r.error_code) s _)
        (λ _.
          either (is r.status delivery_unknown) _ _
            (λ _. handle_error_code_reach r error_code_delivery_unknown s _)
            (λ _. next here (report (o.faults 0) o.now r.target_id failed _ none (ground arith))))

  observe_db :
      (r : TargetResult) (text : Text) (s : Consumer) (c : Campaign) (t : Result CampaignTarget)
      → (observe o r text s c t).1.db ≡ s.db
  observe_db r text s c (err e) = refl
  observe_db r text s c (ok t) = refl

  registered_reach :
      (r : TargetResult) (text : Text) (s : Consumer) (db : Db) (x : Result Campaign × Db)
      → Reach limit db x.1
      → Reaches db (registered o r text s x)
  registered_reach r text s db (err e, db') h = h
  registered_reach r text s db (ok c, db') h =
      subst (Reach limit db)
        (sym (
          observe_db r text (record s { db = db' }) c
            (get_campaign_target_by_id (o.faults 2) r.target_id db')))
        h

  handle_reply_reach :
      (r : TargetResult) (text : Text) (s : Consumer) → Reaches s.db (handle_reply o r text s)
  unfolding handle_reply
  handle_reply_reach r text s =
      either (is_duplicate_reply r text (get_campaign_target_by_id (o.faults 0) r.target_id s.db)) _
        _ (λ _. here)
        (λ _. registered_reach r text s s.db _ (
          next here
            (reply o.matcher (o.faults 1) o.now r.campaign_id r.phone_number text r.timestamp)))

  reported_status : (r : TargetResult) → is_send_failure_result r ≡ false → r.status ≢ retry_pending
  unfolding is_send_failure_result
  reported_status r h = ground arith

  handle_status_reach : (r : TargetResult) (s : Consumer) → Reaches s.db (handle_status o r s)
  unfolding handle_status
  handle_status_reach r s =
      either (is r.status viewed) _ _
        (λ _. next here (report (o.faults 0) o.now r.target_id viewed _ none (ground arith)))
        (λ _.
          either (is r.status user_not_found_by_phone) _ _
            (λ _.
              next here (
                report (o.faults 0) o.now r.target_id user_not_found_by_phone _ none
                  (ground arith)))
            (λ _.
              either (is_send_failure_result r) _ _ (λ _. handle_send_failure_reach r s)
                (λ h.
                  either (is_blank r.status) _ _ (λ _. here)
                    (λ _. next here (
                      report (o.faults 0) o.now r.target_id r.status _ none
                        (reported_status r h))))))

  reply_or_status_reach :
      (r : TargetResult) (text : Option Text) (s : Consumer)
      → Reaches s.db (reply_or_status o r text s)
  reply_or_status_reach r none s = handle_status_reach r s
  reply_or_status_reach r (some text) s =
      either (is r.status replied) _ _ (λ _. handle_reply_reach r text s)
        (λ _. handle_status_reach r s)

  handle_result_reach : (r : TargetResult) (s : Consumer) → Reaches s.db (handle_result o r s)
  unfolding handle_result
  handle_result_reach r s =
      either (is_admin_notification_result r) _ _ (λ _. here)
        (λ _.
          either (r.target_id == uuid_nil || r.campaign_id == uuid_nil) _ _ (λ _. here)
            (λ _. reply_or_status_reach r r.reply_text s))

  with_mapping_reach :
      (r : TargetResult) (s : Consumer) (m : Result ChatPhoneMapping)
      → Reaches s.db (with_mapping o r s m)
  with_mapping_reach r s (err e) = here
  with_mapping_reach r s (ok m) =
      either (m.campaign_target_id == uuid_nil) _ _ (λ _. here)
        (λ _. handle_result_reach (resolve r m) s)

  handle_chat_reach : (r : TargetResult) (s : Consumer) → Reaches s.db (handle_chat o r s)
  unfolding handle_chat
  handle_chat_reach r s =
      either (names_target r && has_phone r) _ _ (λ _. handle_result_reach r s)
        (λ _.
          with_mapping_reach r s (get_chat_phone_mapping_by_chat_id (o.faults 4) r.chat_id s.db))

  store_admin_targets :
      (r : TargetResult) (account : ℕ) (db : Db)
      → (store_admin_chat o r account db).targets ≡ db.targets
  store_admin_targets r account db = ground (
    arith,
    upsert_admin_targets (o.faults 3) r.chat_id r.tenant_id account r.phone_number r.messenger_type
        db,
  )

  process_result_reach : (r : TargetResult) (s : Consumer) → Reaches s.db (process_result o r s)
  unfolding process_result
  process_result_reach r s =
      either (is_empty r.chat_id) _ _ (λ _. handle_result_reach r s)
        (λ _.
          either (is r.status sent && names_target r && has_phone r) _ _
            (λ _.
              reach_trans (next here (keep (upsert_chat_targets (o.faults 3) _ s.db)))
                (handle_chat_reach r (record s { db = store_chat o r s.db })))
            (λ _.
              either (is_admin_notification_result r && has_phone r) _ _
                (λ _. next here (keep (store_admin_targets r (result_account_id o.parse r) s.db)))
                (λ _. handle_chat_reach r s)))

-- A batch of results.
pub batch_reach :
    (limit : ℕ) (o : ℕ → Outside) (i : ℕ) (rs : List TargetResult) (s : Consumer)
    → ((j : ℕ) → attempts_or_default (o j).config.max_retry_attempts ≡ limit)
    → Reach limit s.db (flush_from o i rs s).1.db
unfolding flush_from
batch_reach limit o i [] s h = here
batch_reach limit o i (r ∷ rs) s h =
    reach_trans (process_result_reach limit (o i) (h i) r s)
      (batch_reach limit o (i + 1) rs (process_result (o i) r s).1 h)
