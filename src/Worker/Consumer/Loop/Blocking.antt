-- ===== src/Worker/Consumer/Loop/Blocking.antt =====
-- internal/worker/result_consumer.go: a flush does not block where the broker takes every notification.
use aba_go_orchestrator.Common.{
  ℕ, ◌+◌, Text, Bool, true, false, ◌||◌, Option, none, some, List, [], ◌∷◌, ◌==◌, not,
  if◌then◌else◌, ◌≡◌, refl, arith,
}
use aba_go_orchestrator.Domain.Models.{
  Tenant, TenantAdminNotificationTask, ClientReplyInfo, uuid_nil,
}
use aba_go_orchestrator.Repository.Store.{Db, Result, ok, err}
use aba_go_orchestrator.Worker.Consumer.{Outside, Consumer}
use aba_go_orchestrator.Worker.Consumer.Flush.{Group, flush, group_replies_by_tenant_account}
use aba_go_orchestrator.Worker.Consumer.Notify
use aba_go_orchestrator.Worker.Consumer.Notify.{
  Notified, running, is_running, publish, publish_encoded, admin_chat_id, task_of,
  tenant_admin_notify_queue, notify_phone, notify_phones, admin_phones, notify_tenant, has_replies,
  get_tenant_by_id, notify_group, notify_groups, nothing_sent, notify,
}
use aba_go_orchestrator.Worker.Consumer.Loop.{
  QueuedResult, ResultConsumer, results_of, blocks_for_ever, flush_list,
}

-- A channel is there and takes every publication.
abbrev pub IsWorking : Notify.Outside → Type 0
IsWorking n = (n.has_channel ≡ true) × ((i : ℕ) → n.publishes i ≡ true)

abbrev IsFree : Notified → Type 0
IsFree s = blocks_for_ever s.progress ≡ false

either-IsFree : (b : Bool) (x y : Notified) → IsFree x → IsFree y → IsFree (if b then x else y)
either-IsFree true x y h k = h
either-IsFree false x y h k = k

module _ (n : Notify.Outside) (w : IsWorking n) where
  publish-IsFree :
      (queue : Text) (task : TenantAdminNotificationTask) (payload : Option Text) (s : Notified)
      → IsFree s
      → IsFree (publish_encoded n queue task payload s)
  unfolding publish
  publish-IsFree queue task none s h = h
  publish-IsFree queue task (some payload) s h = ground (arith, w.0, w.1 s.tried, h)

  notify_phone-IsFree :
      (db : Db) (tenant_id account_id : ℕ) (replies : List ClientReplyInfo) (phone : Text)
      (s : Notified)
      → IsFree s
      → IsFree (notify_phone n db tenant_id account_id replies phone s)
  unfolding notify_phone
  notify_phone-IsFree db tenant_id account_id replies phone s h =
      let chat = admin_chat_id (n.mapping_faults s.tried) tenant_id account_id phone db in
      let task = task_of n tenant_id account_id replies phone chat in
      publish-IsFree (tenant_admin_notify_queue (n.uuid_string account_id)) task (n.marshal task) s
        h

  notify_phones-IsFree :
      (db : Db) (tenant_id account_id : ℕ) (replies : List ClientReplyInfo) (phones : List Text)
      (s : Notified)
      → IsFree s
      → IsFree (notify_phones n db tenant_id account_id replies phones s)
  unfolding notify_phones notify_phone
  notify_phones-IsFree db tenant_id account_id replies [] s h = h
  notify_phones-IsFree db tenant_id account_id replies (phone ∷ phones) s h =
      let s' = notify_phone n db tenant_id account_id replies phone s in
      let h' : IsFree s' = notify_phone-IsFree db tenant_id account_id replies phone s h in
      either-IsFree (is_running s'.progress)
        (notify_phones n db tenant_id account_id replies phones s') s'
        (notify_phones-IsFree db tenant_id account_id replies phones s' h') h'

  notify_tenant-IsFree :
      (db : Db) (tenant_id account_id : ℕ) (replies : List ClientReplyInfo) (t : Result Tenant)
      (s : Notified)
      → IsFree s
      → IsFree (notify_tenant n db tenant_id account_id replies t s)
  unfolding notify_phones
  notify_tenant-IsFree db tenant_id account_id replies (err e) s h = h
  notify_tenant-IsFree db tenant_id account_id replies (ok t) s h =
      notify_phones-IsFree db tenant_id account_id replies (admin_phones t) s h

  notify_group-IsFree :
      (db : Db) (i : ℕ) (g : Group) (s : Notified) → IsFree s → IsFree (notify_group n db i g s)
  unfolding notify_group
  notify_group-IsFree db i (tenant_id, account_id, replies) s h =
      let tenant = get_tenant_by_id (n.tenant_faults i) tenant_id db in
      either-IsFree (not (has_replies replies) || account_id == uuid_nil) s
        (notify_tenant n db tenant_id account_id replies tenant s) h
        (notify_tenant-IsFree db tenant_id account_id replies tenant s h)

  notify_groups-IsFree :
      (db : Db) (i : ℕ) (gs : List Group) (s : Notified)
      → IsFree s
      → IsFree (notify_groups n db i gs s)
  unfolding notify_groups
  notify_groups-IsFree db i [] s h = h
  notify_groups-IsFree db i (g ∷ gs) s h =
      let s' = notify_group n db i g s in
      let h' : IsFree s' = notify_group-IsFree db i g s h in
      either-IsFree (is_running s'.progress) (notify_groups n db (i + 1) gs s') s'
        (notify_groups-IsFree db (i + 1) gs s' h') h'

  notify-IsFree : (k : Consumer) → IsFree (notify n k)
  unfolding notify_groups
  notify-IsFree k =
      notify_groups-IsFree k.db 0 (group_replies_by_tenant_account k.observed) nothing_sent refl

  pub flush_list-stuck :
      (o : ℕ → Outside) (qs : List QueuedResult) (s : ResultConsumer)
      → s.stuck ≡ false
      → (flush_list o n qs s).stuck ≡ false
  flush_list-stuck o [] s h = h
  flush_list-stuck o (q ∷ qs) s h = notify-IsFree (flush o (results_of (q ∷ qs)) s.db s.blocklist).1
