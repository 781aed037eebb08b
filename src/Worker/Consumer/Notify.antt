-- ===== src/Worker/Consumer/Notify.antt =====
-- internal/worker/result_consumer.go: the end of flush, the notifications of the tenant admins. The
-- groups stand in the order of a list, as a range over the map takes them in any order. flush holds the
-- mutex that reconnect locks: where it is called, the consumer blocks.
pub mod Observed
pub mod Routes
use aba_go_orchestrator.Common.{
  ℕ, ◌+◌, Text, lit, is_empty, ◌==◌, Bool, true, false, not, ◌&&◌, ◌||◌, Option, none, some, List,
  [], ◌∷◌, ◌++◌, first, if◌then◌else◌,
}
use aba_go_orchestrator.Domain.Phone.{normalize_phone, parse_admin_phones}
use aba_go_orchestrator.Domain.Models.{
  Tenant, TenantAdminNotificationTask, AdminChatPhoneMapping, ClientReplyInfo, uuid_nil,
  default_messenger_type,
}
use aba_go_orchestrator.Repository.Store.{Db, Result, ok, err, ◌>>=◌, ◌>>◌, Faults, exec, scan}
use aba_go_orchestrator.Repository.Mappings.{get_admin_chat_phone_mapping_by_phone}
use aba_go_orchestrator.Worker.Consumer.Flush.{Group, group_replies_by_tenant_account}
use aba_go_orchestrator.Worker.Consumer.{Consumer}

-- GetTenantByID.
unfoldable pub get_tenant_by_id : Faults → ℕ → Db → Result Tenant
get_tenant_by_id f tenant_id db = do exec (f 0); scan (first (λ t. t.id == tenant_id) db.tenants)

abbrev pub tenant_admin_notify_queue : Text → Text
tenant_admin_notify_queue account = lit "tasks.messages.tenant_admin_notify.account." ++ account

-- What the code meets outside, for the n-th notification that it tries: whether the context is
-- cancelled, and whether the publication goes through.
pub record Outside : Type 0 where
  pub uuid_string : ℕ → Text
  pub marshal : TenantAdminNotificationTask → Option Text
  pub cancelled : ℕ → Bool
  pub has_channel : Bool
  pub declares : Text → Bool
  pub publishes : ℕ → Bool
  pub tenant_faults : ℕ → Faults
  pub mapping_faults : ℕ → Faults

-- A message in a queue.
pub record Notification : Type 0 where
  pub queue : Text
  pub task : TenantAdminNotificationTask
  pub payload : Text

pub data Progress : Type 0 where
  running returned blocked : Progress

pub record Notified : Type 0 where
  pub published : List Notification
  pub tried : ℕ
  pub progress : Progress

abbrev pub is_running : Progress → Bool
is_running running = true
is_running _ = false

abbrev pub chat_of : Result AdminChatPhoneMapping → Text
chat_of (ok m) = m.chat_id
chat_of (err e) = []

-- The stored chat of the admin with this account, and "" where there is none or the query fails.
unfoldable pub admin_chat_id : Faults → ℕ → ℕ → Text → Db → Text
unfolding normalize_phone get_admin_chat_phone_mapping_by_phone
admin_chat_id f tenant_id account_id phone db =
    let normalized = normalize_phone phone in
    if is_empty normalized
    then []
    else chat_of (
        get_admin_chat_phone_mapping_by_phone f tenant_id account_id normalized
          default_messenger_type db)

abbrev pub task_of :
    Outside → ℕ → ℕ → List ClientReplyInfo → Text → Text → TenantAdminNotificationTask
task_of o tenant_id account_id replies phone chat_id = record {
  tenant_phone = phone;
  tenant_id = o.uuid_string tenant_id;
  tenant_account_id = o.uuid_string account_id;
  chat_id = chat_id;
  use_chat_id = not (is_empty chat_id);
  replies = replies;
}

-- The publication of a task; a channel that is missing and a publication that fails call reconnect.
unfoldable pub publish : Outside → Text → TenantAdminNotificationTask → Text → Notified → Notified
publish o queue task payload s =
    let s' = record s { tried = s.tried + 1 } in
    if o.cancelled s.tried
    then record s' { progress = returned }
    else if not o.has_channel
    then record s' { progress = blocked }
    else if not (o.declares queue)
    then s'
    else if o.publishes s.tried
    then record s' {
      published = s.published ++ record { queue = queue; task = task; payload = payload } ∷ [];
    }
    else record s' { progress = blocked }

abbrev pub publish_encoded :
    Outside → Text → TenantAdminNotificationTask → Option Text → Notified → Notified
unfolding publish
publish_encoded o queue task none s = record s { tried = s.tried + 1 }
publish_encoded o queue task (some payload) s = publish o queue task payload s

unfoldable pub notify_phone :
    Outside → Db → ℕ → ℕ → List ClientReplyInfo → Text → Notified → Notified
unfolding admin_chat_id
notify_phone o db tenant_id account_id replies phone s =
    let chat = admin_chat_id (o.mapping_faults s.tried) tenant_id account_id phone db in
    let task = task_of o tenant_id account_id replies phone chat in
    publish_encoded o (tenant_admin_notify_queue (o.uuid_string account_id)) task (o.marshal task) s

-- The loop over the phones of the admins, until the context is cancelled or the consumer blocks.
unfoldable pub notify_phones :
    Outside → Db → ℕ → ℕ → List ClientReplyInfo → List Text → Notified → Notified
unfolding notify_phone
notify_phones o db tenant_id account_id replies [] s = s
notify_phones o db tenant_id account_id replies (phone ∷ phones) s =
    let s' = notify_phone o db tenant_id account_id replies phone s in
    let rest = notify_phones o db tenant_id account_id replies phones s' in
    if is_running s'.progress then rest else s'

abbrev pub admin_phones : Tenant → List Text
unfolding parse_admin_phones
admin_phones t = elim t.admin_phone [ none ↦ [] | some phones ↦ parse_admin_phones phones ]

abbrev pub notify_tenant :
    Outside → Db → ℕ → ℕ → List ClientReplyInfo → Result Tenant → Notified → Notified
unfolding notify_phones
notify_tenant o db tenant_id account_id replies (err e) s = s
notify_tenant o db tenant_id account_id replies (ok t) s =
    notify_phones o db tenant_id account_id replies (admin_phones t) s

abbrev pub has_replies : List ClientReplyInfo → Bool
has_replies [] = false
has_replies (r ∷ rs) = true

-- A group without replies or without a sender account is skipped.
unfoldable pub notify_group : Outside → Db → ℕ → Group → Notified → Notified
unfolding get_tenant_by_id
notify_group o db i (tenant_id, account_id, replies) s =
    if not (has_replies replies) || account_id == uuid_nil
    then s
    else notify_tenant o db tenant_id account_id replies
        (get_tenant_by_id (o.tenant_faults i) tenant_id db) s

unfoldable pub notify_groups : Outside → Db → ℕ → List Group → Notified → Notified
unfolding notify_group
notify_groups o db i [] s = s
notify_groups o db i (g ∷ gs) s =
    let s' = notify_group o db i g s in
    let rest = notify_groups o db (i + 1) gs s' in if is_running s'.progress then rest else s'

abbrev pub nothing_sent : Notified
nothing_sent = record { published = []; tried = 0; progress = running }

-- The end of flush, after the items of the batch: the replies that they observed, group by group.
abbrev pub notify : Outside → Consumer → Notified
unfolding notify_groups
notify o k = notify_groups o k.db 0 (group_replies_by_tenant_account k.observed) nothing_sent
