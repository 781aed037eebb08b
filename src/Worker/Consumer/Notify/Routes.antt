-- ===== src/Worker/Consumer/Notify/Routes.antt =====
-- internal/worker/result_consumer.go: where the notifications go, and what they tell.
use aba_go_orchestrator.Common.{
  ℕ, ◌+◌, Text, is_empty, ◌==◌, Bool, true, false, not, ◌||◌, Option, none, some, List, [], ◌∷◌,
  ◌++◌, All, if◌then◌else◌, ◌≡◌, ◌≢◌, refl, ◌⊎◌, inl, inr, arith,
}
use aba_go_orchestrator.Domain.Phone.{normalize_phone}
use aba_go_orchestrator.Domain.Models.{
  Tenant, TenantAdminNotificationTask, AdminChatPhoneMapping, ClientReplyInfo, uuid_nil,
  default_messenger_type,
}
use aba_go_orchestrator.Repository.Store.{Db, Result, ok, err, Faults}
use aba_go_orchestrator.Repository.Mappings.{get_admin_chat_phone_mapping_by_phone}
use aba_go_orchestrator.Worker.Consumer.{ObservedReply, Consumer}
use aba_go_orchestrator.Worker.Consumer.Flush.{Group, group_replies_by_tenant_account}
use aba_go_orchestrator.Worker.Consumer.Groups.{observed_by}
use aba_go_orchestrator.Worker.Consumer.Notify.{
  Outside, Notification, Notified, returned, blocked, is_running, admin_chat_id, chat_of, task_of,
  tenant_admin_notify_queue, publish, publish_encoded, notify_phone, notify_phones, admin_phones,
  notify_tenant, has_replies, notify_group, notify_groups, notify, nothing_sent, get_tenant_by_id,
}
use aba_go_orchestrator.Worker.Consumer.Notify.Observed.{IsObserved, groups-IsObserved}

All-append_one :
    {A : Type 0} (P : A → Type 0) (xs : List A) (x : A) → All P xs → P x → All P (xs ++ x ∷ [])
All-append_one P [] x all p = (p, tt)
All-append_one P (y ∷ xs) x (q, all) p = (q, All-append_one P xs x all p)

-- The chat that the task names, if any, is one stored for the account.
abbrev pub IsChatOf : Db → ℕ → ℕ → TenantAdminNotificationTask → Type 0
IsChatOf db t a task =
    (task.use_chat_id ≡ false)
    ⊎ ((f : Faults) × (m : AdminChatPhoneMapping) × (get_admin_chat_phone_mapping_by_phone f t a
            (normalize_phone task.tenant_phone) default_messenger_type db
          ≡ ok m)
        × (m.chat_id ≡ task.chat_id))

abbrev pub Routed : Outside → Db → List ObservedReply → Notification → Type 0
Routed o db observed n =
    (t a : ℕ) × (a ≢ uuid_nil)
    × (n.queue ≡ tenant_admin_notify_queue (o.uuid_string a))
    × (n.task.tenant_account_id ≡ o.uuid_string a)
    × (n.task.tenant_id ≡ o.uuid_string t)
    × (n.task.replies ≡ observed_by t a observed)
    × IsChatOf db t a n.task

chat-IsChatOf :
    (o : Outside) (f : Faults) (db : Db) (t a : ℕ) (replies : List ClientReplyInfo) (phone : Text)
    → IsChatOf db t a (task_of o t a replies phone (admin_chat_id f t a phone db))
unfolding admin_chat_id
chat-IsChatOf o f db t a replies phone = by_phone (is_empty (normalize_phone phone))
  where
    by_mapping :
        (r : Result AdminChatPhoneMapping)
        → get_admin_chat_phone_mapping_by_phone f t a
            (normalize_phone phone)
            default_messenger_type
            db
          ≡ r
        → IsChatOf db t a (task_of o t a replies phone (chat_of r))
    by_mapping (ok m) e = inr (f, m, e, refl)
    by_mapping (err x) e = inl refl

    by_phone :
        (b : Bool)
        → IsChatOf db t a (
            task_of o t a replies phone (
              if b
              then []
              else chat_of (
                  get_admin_chat_phone_mapping_by_phone f t a
                    (normalize_phone phone)
                    default_messenger_type
                    db)))
    by_phone true = inl refl
    by_phone false = by_mapping _ refl

module _ (o : Outside) (db : Db) (observed : List ObservedReply) where
  abbrev AllRouted : Notified → Type 0
  AllRouted s = All (Routed o db observed) s.published

  either :
      (b : Bool) (s s' : Notified) → AllRouted s → AllRouted s' → AllRouted (if b then s else s')
  either true s s' h k = h
  either false s s' h k = k

  publish-Routed :
      (queue : Text) (task : TenantAdminNotificationTask) (payload : Text) (s : Notified)
      → Routed o db observed (record { queue = queue; task = task; payload = payload })
      → AllRouted s
      → AllRouted (publish o queue task payload s)
  unfolding publish
  publish-Routed queue task payload s r all =
      by_tests (o.cancelled s.tried) (not o.has_channel) (not (o.declares queue))
        (o.publishes s.tried)
    where
      s' : Notified
      s' = record s { tried = s.tried + 1 }

      by_tests :
          (w x y z : Bool)
          → AllRouted (
              if w
              then record s' { progress = returned }
              else if x
              then record s' { progress = blocked }
              else if y
              then s'
              else if z
              then record s' {
                published =
                    s.published ++ record { queue = queue; task = task; payload = payload } ∷ [];
              }
              else record s' { progress = blocked })
      by_tests true x y z = all
      by_tests false true y z = all
      by_tests false false true z = all
      by_tests false false false true = All-append_one (Routed o db observed) s.published _ all r
      by_tests false false false false = all

  module _ (t a : ℕ) (replies : List ClientReplyInfo) (there : a ≢ uuid_nil)
      (own : replies ≡ observed_by t a observed) where
    encoded-Routed :
        (task : TenantAdminNotificationTask) (payload : Option Text) (s : Notified)
        → Routed o db observed (record {
          queue = tenant_admin_notify_queue (o.uuid_string a);
          task = task;
          payload = [];
        })
        → AllRouted s
        → AllRouted (publish_encoded o (tenant_admin_notify_queue (o.uuid_string a)) task payload s)
    unfolding publish_encoded
    encoded-Routed task none s r all = all
    encoded-Routed task (some payload) s r all =
        publish-Routed (tenant_admin_notify_queue (o.uuid_string a)) task payload s r all

    notify_phone-Routed :
        (phone : Text) (s : Notified)
        → AllRouted s
        → AllRouted (notify_phone o db t a replies phone s)
    unfolding notify_phone
    notify_phone-Routed phone s all =
        let chat = admin_chat_id (o.mapping_faults s.tried) t a phone db in
        let task = task_of o t a replies phone chat in
        encoded-Routed task (o.marshal task) s
          (
            t,
            a,
            there,
            refl,
            refl,
            refl,
            own,
            chat-IsChatOf o (o.mapping_faults s.tried) db t a replies phone,
          )
          all

    notify_phones-Routed :
        (phones : List Text) (s : Notified)
        → AllRouted s
        → AllRouted (notify_phones o db t a replies phones s)
    unfolding notify_phones
    notify_phones-Routed [] s all = all
    notify_phones-Routed (phone ∷ phones) s all =
        either (is_running (notify_phone o db t a replies phone s).progress) _ _
          (notify_phones-Routed phones (notify_phone o db t a replies phone s)
            (notify_phone-Routed phone s all))
          (notify_phone-Routed phone s all)

    notify_tenant-Routed :
        (r : Result Tenant) (s : Notified)
        → AllRouted s
        → AllRouted (notify_tenant o db t a replies r s)
    unfolding notify_tenant
    notify_tenant-Routed (err e) s all = all
    notify_tenant-Routed (ok tenant) s all = notify_phones-Routed (admin_phones tenant) s all

  notify_group-Routed :
      (i : ℕ) (g : Group) (s : Notified)
      → IsObserved observed g
      → AllRouted s
      → AllRouted (notify_group o db i g s)
  unfolding notify_group
  notify_group-Routed i (t, a, replies) s own all =
      by_test (not (has_replies replies)) (a == uuid_nil) refl
    where
      by_test :
          (x y : Bool)
          → (a == uuid_nil) ≡ y
          → AllRouted (
              if x || y
              then s
              else notify_tenant o db t a replies (get_tenant_by_id (o.tenant_faults i) t db) s)
      by_test true y e = all
      by_test false true e = all
      by_test false false e =
          notify_tenant-Routed t a replies (λ k. ground arith) own
            (get_tenant_by_id (o.tenant_faults i) t db) s all

  notify_groups-Routed :
      (i : ℕ) (gs : List Group) (s : Notified)
      → All (IsObserved observed) gs
      → AllRouted s
      → AllRouted (notify_groups o db i gs s)
  unfolding notify_groups
  notify_groups-Routed i [] s own all = all
  notify_groups-Routed i (g ∷ gs) s (own, rest) all =
      either (is_running (notify_group o db i g s).progress) _ _
        (notify_groups-Routed (i + 1) gs (notify_group o db i g s) rest
          (notify_group-Routed i g s own all))
        (notify_group-Routed i g s own all)

-- Whatever fails, every notification that the consumer publishes after a batch goes to the queue of a
-- sender account, which is not nil, names this account, tells exactly the replies of one tenant that
-- this account observed in the batch, in their order, and names a chat only if one is stored for this
-- account, the tenant and the phone.
pub notify-IsRouted :
    (o : Outside) (k : Consumer) → All (Routed o k.db k.observed) (notify o k).published
unfolding notify
notify-IsRouted o k =
    notify_groups-Routed o k.db k.observed 0 (group_replies_by_tenant_account k.observed)
      nothing_sent (groups-IsObserved k.observed) tt
