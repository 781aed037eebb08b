-- ===== src/Worker/Consumer/Flush.antt =====
-- internal/worker/result_consumer.go: flush from the chat of a result on, over a whole batch, and
-- groupRepliesByTenantAccount.
use aba_go_orchestrator.Common.{
  ℕ, ◌+◌, Text, is_empty, trim_space, ◌==◌, Bool, not, ◌&&◌, Option, List, [], ◌∷◌, ◌++◌,
  if◌then◌else◌,
}
use aba_go_orchestrator.Domain.Status.{sent, is}
use aba_go_orchestrator.Domain.Models.{ChatPhoneMapping, TargetResult, ClientReplyInfo, uuid_nil}
use aba_go_orchestrator.Repository.Store.{Db, Result, ok, err}
use aba_go_orchestrator.Repository.Mappings.{
  upsert_chat_phone_mapping, get_chat_phone_mapping_by_chat_id, upsert_admin_chat_mapping,
}
use aba_go_orchestrator.Worker.Consumer.{
  Outside, Consumer, Verdict, ack, ObservedReply, is_admin_notification_result, result_account_id,
  handle_result,
}

abbrev pub names_target : TargetResult → Bool
names_target r = not (r.target_id == uuid_nil) && not (r.campaign_id == uuid_nil)

abbrev pub has_phone : TargetResult → Bool
has_phone r = not (is_empty (trim_space r.phone_number))

-- The chat of a sent message is stored; an error is only logged.
abbrev pub store_chat : Outside → TargetResult → Db → Db
store_chat o r db =
    (upsert_chat_phone_mapping (o.faults 3)
      (record {
        chat_id = r.chat_id;
        campaign_id = r.campaign_id;
        campaign_target_id = r.target_id;
        phone_normalized = r.phone_number;
      })
      db).1

abbrev pub store_admin_chat : Outside → TargetResult → ℕ → Db → Db
store_admin_chat o r account_id db =
    if account_id == uuid_nil
    then db
    else (upsert_admin_chat_mapping (o.faults 3) r.chat_id r.tenant_id account_id r.phone_number
        r.messenger_type db).1

-- A result that names no target, campaign or phone gets those of its chat.
unfoldable pub resolve : TargetResult → ChatPhoneMapping → TargetResult
resolve r m = record r {
  target_id = m.campaign_target_id;
  campaign_id = m.campaign_id;
  phone_number = m.phone_normalized;
  tenant_account_id =
      if r.tenant_account_id == uuid_nil then m.tenant_account_id else r.tenant_account_id;
}

abbrev pub with_mapping :
    Outside → TargetResult → Consumer → Result ChatPhoneMapping → Verdict × Consumer
with_mapping o r s (err e) = (ack, s)
with_mapping o r s (ok m) =
    if m.campaign_target_id == uuid_nil then (ack, s) else handle_result o (resolve r m) s

unfoldable pub handle_chat : Outside → TargetResult → Consumer → Verdict × Consumer
unfolding resolve
handle_chat o r s =
    if names_target r && has_phone r
    then handle_result o r s
    else with_mapping o r s (get_chat_phone_mapping_by_chat_id (o.faults 4) r.chat_id s.db)

unfoldable pub process_result : Outside → TargetResult → Consumer → Verdict × Consumer
unfolding handle_chat
process_result o r s =
    if is_empty r.chat_id
    then handle_result o r s
    else if is r.status sent && names_target r && has_phone r
    then handle_chat o r (record s { db = store_chat o r s.db })
    else if is_admin_notification_result r && has_phone r
    then (ack, record s { db = store_admin_chat o r (result_account_id o.parse r) s.db })
    else handle_chat o r s

-- One verdict per result; `o i` is what the i-th one meets.
unfoldable pub flush_from :
    (ℕ → Outside) → ℕ → List TargetResult → Consumer → List Verdict × Consumer
flush_from o i [] s = ([], s)
flush_from o i (r ∷ rs) s =
    let (v, s') = process_result (o i) r s in
    let (vs, s'') = flush_from o (i + 1) rs s' in (v ∷ vs, s'')

-- A batch starts without observed replies.
abbrev pub flush :
    (ℕ → Outside) → List TargetResult → Db → Option (List (ℕ × Text)) → List Verdict × Consumer
flush o rs db blocklist =
    flush_from o 0 rs (record { db = db; blocklist = blocklist; observed = [] })

-- A group: its key (tenant and account) with its replies.
abbrev pub Group : Type 0
Group = ℕ × ℕ × List ClientReplyInfo

unfoldable pub has_key : ℕ → ℕ → Group → Bool
has_key tenant_id account_id g = g.0 == tenant_id && g.1 == account_id

unfoldable pub append_reply : ObservedReply → List Group → List Group
append_reply item [] = (item.tenant_id, item.tenant_account_id, item.reply ∷ []) ∷ []
append_reply item ((t, a, rs) ∷ gs) =
    let rest = append_reply item gs in
    if t == item.tenant_id && a == item.tenant_account_id
    then (t, a, rs ++ item.reply ∷ []) ∷ gs
    else (t, a, rs) ∷ rest

-- The loop over the observed replies.
abbrev pub group_from : List ObservedReply → List Group → List Group
group_from [] gs = gs
group_from (item ∷ items) gs = group_from items (append_reply item gs)

abbrev pub group_replies_by_tenant_account : List ObservedReply → List Group
group_replies_by_tenant_account observed = group_from observed []
