-- ===== src/Worker/Outbox.antt =====
-- internal/worker/outbox.go: processMessages, with the queries GetPendingMessages and
-- MarkAsProcessedBatch of internal/repository/postgres.go. The JSON decoder and encoder, the uuid
-- parser and printer, strings.EqualFold and the broker are parameters.
pub mod Delivery
pub mod Queue
pub mod Broker
pub mod Drain
use aba_go_orchestrator.Common.{
  ℕ, zero, suc, ◌+◌, Text, lit, is_empty, trim_space, leb, ltb, ◌==◌, Bool, true, false, not, ◌&&◌,
  ◌||◌, Option, none, some, List, [], ◌∷◌, ◌++◌, take, select, update, exists, is_some,
  if◌then◌else◌,
}
use aba_go_orchestrator.Domain.Errors.{error_code_blocked_recipient}
use aba_go_orchestrator.Domain.Status.{failed}
use aba_go_orchestrator.Domain.Models.{OutboxMessage, TargetResult, uuid_nil}
use aba_go_orchestrator.Repository.Store.{Db, Result, ok, err, ◌>>◌, Faults, exec, commit}
use aba_go_orchestrator.Config.{Config, is_within_work_window}
use aba_go_orchestrator.Worker.Cache.{Cache, is_blocked}

-- `ORDER BY publish_at ASC`.
abbrev pub insert : OutboxMessage → List OutboxMessage → List OutboxMessage
insert m [] = m ∷ []
insert m (n ∷ ns) =
    let rest = insert m ns in if leb m.publish_at n.publish_at then m ∷ n ∷ ns else n ∷ rest

abbrev pub by_publish_at : List OutboxMessage → List OutboxMessage
by_publish_at [] = []
by_publish_at (m ∷ ms) = insert m (by_publish_at ms)

-- `locked` are the rows that other transactions hold (SKIP LOCKED).
unfoldable pub get_pending_messages : (ℕ → Bool) → Faults → ℕ → ℕ → Db → Result (List OutboxMessage)
get_pending_messages locked f now limit db = do
  exec (f 0)
  ok (
      take limit (
        by_publish_at
          (select (λ m. not m.processed && leb m.publish_at now && not (locked m.id)) db.outbox)))

abbrev pub mark : OutboxMessage → OutboxMessage
mark m = record m { processed = true }

-- Nothing is asked of the database for an empty batch.
unfoldable pub mark_as_processed_batch : Faults → List ℕ → Db → Result (Unit {0}) × Db
mark_as_processed_batch f [] db = (ok tt, db)
mark_as_processed_batch f (i ∷ ids) db = commit db do
  exec (f 0)
  ok (tt, record db { outbox = update (λ m. exists (λ j. j == m.id) (i ∷ ids)) mark db.outbox })

-- The fields of outboxSendTask that decide.
pub record SendTask : Type 0 where
  pub task_id : Text
  pub campaign_id : Text
  pub tenant_id : Text
  pub tenant_account_id : Text
  pub account_id : Text
  pub phone : Text
  pub contact_type : Text

-- The broker's answer to a publication: an error, no confirmation to wait for, an error of the wait,
-- or the confirmation.
pub data Answer : Type 0 where
  refused_publish unconfirmed_mode wait_failed nacked acked : Answer

pub record Outside : Type 0 where
  pub now : ℕ
  pub decode : Text → SendTask
  pub parse : Text → Option ℕ
  pub print : ℕ → Text
  pub equal_fold : Text → Text → Bool
  pub config : Config
  pub block_checker : Option Cache
  -- Does the encoder return, and does the broker take the result?
  pub marshals : TargetResult → Bool
  pub takes_result : Bool
  -- Does the queue of the account get declared and bound?
  pub ensures : Text → Bool
  pub answer : Answer

abbrev or_account : (Text → Option ℕ) → Text → Text
or_account parse account_id =
    let id = trim_space account_id in if not (is_empty id) && is_some (parse id) then id else []

unfoldable pub resolve_tenant_account_id : Outside → OutboxMessage → SendTask → Text
resolve_tenant_account_id o m task =
    if not (m.tenant_account_id == uuid_nil)
    then o.print m.tenant_account_id
    else let id = trim_space task.tenant_account_id in
      if not (is_empty id) then id else or_account o.parse task.account_id

unfoldable pub account_routing_key : Text → Text
account_routing_key id = lit "account." ++ id

-- What one round of the loop does: the results that the broker took for the queue of the results, the
-- messages that were handed to it for the queue of an account (routing key and payload), and whether the
-- id is put on the list of those to mark.
pub record Outcome : Type 0 where
  pub results : List TargetResult
  pub sends : List (Text × Text)
  pub is_handled : Bool

abbrev pub left : Outcome
left = record { results = []; sends = []; is_handled = false }

abbrev pub refused : TargetResult → Outcome
refused r = record { results = r ∷ []; sends = []; is_handled = true }

abbrev pub handed_over : Bool → Text → Text → Outcome
handed_over is_handled key payload = record {
  results = [];
  sends = (key, payload) ∷ [];
  is_handled = is_handled;
}

abbrev or_nil : Option ℕ → ℕ
or_nil none = uuid_nil
or_nil (some i) = i

-- The result that stands for the message to a blocked recipient.
abbrev pub blocked_result : Outside → SendTask → ℕ → ℕ → TargetResult
blocked_result o task task_id campaign_id = record {
  target_id = task_id;
  campaign_id = campaign_id;
  tenant_id = uuid_nil;
  tenant_account_id =
      if is_empty task.tenant_account_id then uuid_nil else or_nil (o.parse task.tenant_account_id);
  account_id = task.account_id;
  phone_number = task.phone;
  status = failed;
  reply_text = none;
  error_code = error_code_blocked_recipient;
  error_message = some (lit "Заблокировано пользователем");
  timestamp = o.now;
  chat_id = [];
  messenger_type = [];
}

abbrev with_ids : Outside → SendTask → Option ℕ → Option ℕ → Option TargetResult
with_ids o task (some t) (some c) =
    let r = blocked_result o task t c in if o.marshals r then some r else none
with_ids o task none c = none
with_ids o task (some t) none = none

abbrev with_tenant : Outside → SendTask → Option Cache → Option ℕ → Option TargetResult
with_tenant o task (some cache) (some tenant_id) =
    if is_blocked tenant_id task.phone cache
    then with_ids o task (o.parse task.task_id) (o.parse task.campaign_id)
    else none
with_tenant o task none t = none
with_tenant o task (some cache) none = none

-- The result of a message that is blocked, if one can be made.
unfoldable pub refusal : Outside → SendTask → Option TargetResult
refusal o task =
    if is_empty task.tenant_id || is_empty task.phone
    then none
    else with_tenant o task o.block_checker (o.parse task.tenant_id)

abbrev pub confirmed : Answer → Text → Text → Outcome
confirmed refused_publish key payload = left
confirmed unconfirmed_mode key payload = handed_over true key payload
confirmed wait_failed key payload = handed_over false key payload
confirmed nacked key payload = handed_over false key payload
confirmed acked key payload = handed_over true key payload

abbrev pub publish : Outside → OutboxMessage → Text → Outcome
publish o m account =
    if is_empty account
    then left
    else if not (o.ensures account)
    then left
    else confirmed o.answer (account_routing_key account) m.payload

abbrev pub refuse_or_publish : Outside → OutboxMessage → SendTask → Option TargetResult → Outcome
refuse_or_publish o m task (some r) = if o.takes_result then refused r else left
refuse_or_publish o m task none = publish o m (resolve_tenant_account_id o m task)

-- One round of the loop.
unfoldable pub process_message : Outside → OutboxMessage → Outcome
unfolding refusal resolve_tenant_account_id account_routing_key
process_message o m =
    let task = o.decode m.payload in
    if o.equal_fold task.contact_type (lit "cold") && not (is_within_work_window o.config o.now)
    then left
    else refuse_or_publish o m task (refusal o task)

abbrev pub Entry : Type 0
Entry = ℕ × Outcome

-- The loop: each message's id with what became of it.
unfoldable pub process_each : (ℕ → Outside) → ℕ → List OutboxMessage → List Entry
process_each o i [] = []
process_each o i (m ∷ ms) = (m.id, process_message (o i) m) ∷ process_each o (i + 1) ms

abbrev pub processed_ids : List Entry → List ℕ
processed_ids [] = []
processed_ids (e ∷ es) = let rest = processed_ids es in if e.1.is_handled then e.0 ∷ rest else rest

abbrev pub with_messages :
    (ℕ → Outside) → Faults → Db → Result (List OutboxMessage) → List Entry × Db
with_messages o g db (err e) = ([], db)
with_messages o g db (ok ms) =
    let entries = process_each o 0 ms in
    (entries, (mark_as_processed_batch g (processed_ids entries) db).1)

-- `f` are the faults of the query, `g` those of the update; the errors are only logged.
unfoldable pub process_messages :
    (ℕ → Outside) → (ℕ → Bool) → Faults → Faults → ℕ → Db → List Entry × Db
unfolding get_pending_messages
process_messages o locked f g now db =
    with_messages o g db (get_pending_messages locked f now 100 db)

-- The rows that others put into the outbox between two ticks.
abbrev pub enqueue : List OutboxMessage → Db → Db
enqueue ms db = record db { outbox = db.outbox ++ ms }

-- Run: one run at each tick, here `n` of them. The n-th reads the clock and the locks of its moment, has
-- the faults `f` and `g`, and finds the rows that have arrived since the one before.
unfoldable pub run :
    (ℕ → ℕ → Outside)
    → (ℕ → ℕ → Bool)
    → (ℕ → List OutboxMessage)
    → (ℕ → Faults)
    → (ℕ → Faults)
    → (ℕ → ℕ)
    → ℕ
    → Db
    → Db
unfolding process_messages
run o locked arrivals f g now zero db = db
run o locked arrivals f g now (suc n) db =
    (process_messages (o n) (locked n) (f n) (g n) (now n)
      (enqueue (arrivals n) (run o locked arrivals f g now n db))).1
