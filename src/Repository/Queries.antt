-- ===== src/Repository/Queries.antt =====
-- internal/repository: the queries and calls that the workers do not make, or make at their start
-- (postgres.go: GetTargetsByStatus, MarkAsProcessed, CreateReply, GetRepliesByCampaign,
-- GetChatPhoneMappingByPhone; anti_ban.go: GetTenantsWithProcessingCampaigns,
-- CreateDosedOutboxMessage, GetTenantAccountByID, GetTenantAccountByKey, MarkTargetRetryPending). The
-- columns id, created_at and updated_at of a reply are left out.
pub mod Listed
use aba_go_orchestrator.Common.{
  ℕ, Text, text_eq, is_empty, trim_space, Bool, true, false, not, ◌==◌, ◌&&◌, ◌||◌, Option, none,
  some, List, [], ◌∷◌, ◌++◌, map, first, select, update, exists, is_some, if◌then◌else◌,
}
use aba_go_orchestrator.Domain.Status.{TaskStatus, processing, is, campaign_is}
use aba_go_orchestrator.Domain.Models.{
  Campaign, CampaignTarget, CampaignReply, OutboxMessage, TenantAccount, ChatPhoneMapping, uuid_nil,
}
use aba_go_orchestrator.Repository.Store.{
  Db, Result, ok, err, no_rows, ◌>>=◌, ◌>>◌, Faults, exec, scan, commit, target_has_id,
  account_has_id,
}
use aba_go_orchestrator.Repository.Mappings.{messenger_or_default}
use aba_go_orchestrator.Repository.Retry.{Failure, apply_retryable_failure}
use aba_go_orchestrator.Repository.Replies.{reply_row, reply_account, violates}

-- The columns that GetTargetsByStatus reads; the others stay at their zero values.
abbrev pub scanned_target : CampaignTarget → CampaignTarget
scanned_target t = record t {
  tenant_id = uuid_nil;
  tenant_account_id = none;
  messenger_type = [];
  last_error_code = none;
  last_error_message = none;
  attempt_count = 0;
  next_attempt_at = none;
}

unfoldable pub get_targets_by_status : Faults → ℕ → TaskStatus → Db → Result (List CampaignTarget)
get_targets_by_status f campaign_id status db = do
  exec (f 0)
  ok (
      map scanned_target
        (select (λ t. t.campaign_id == campaign_id && is t.status status) db.targets))

unfoldable pub mark_as_processed : Faults → ℕ → Db → Result (Unit {0}) × Db
mark_as_processed f id db = commit db do
  exec (f 0)
  ok (
    tt,
    record db { outbox = update (λ m. m.id == id) (λ m. record m { processed = true }) db.outbox },
  )

abbrev pub insert_reply : Option CampaignTarget → Text → ℕ → Db → Db
insert_reply none text received_at db = db
insert_reply (some t) text received_at db = record db {
  replies = db.replies ++ reply_row db t text received_at ∷ [];
}

abbrev pub violates_for : Option CampaignTarget → Db → Bool
violates_for none db = false
violates_for (some t) db = violates (reply_account db t)

-- The INSERT selects from the target: without one it inserts nothing, and this is no error. It fails where
-- neither the target nor its tenant has an account.
unfoldable pub create_reply : Faults → ℕ → Text → ℕ → Db → Result (Unit {0}) × Db
create_reply f target_id text received_at db = commit db do
  exec (violates_for (first (target_has_id target_id) db.targets) db || f 0)
  ok (tt, insert_reply (first (target_has_id target_id) db.targets) text received_at db)

-- The join of a reply with its target.
abbrev pub is_reply_of : Db → ℕ → CampaignReply → Bool
is_reply_of db campaign_id r =
    is_some
      (first (λ t. target_has_id r.campaign_target_id t && t.campaign_id == campaign_id) db.targets)

abbrev pub scanned_reply : CampaignReply → CampaignReply
scanned_reply r = record r { tenant_id = uuid_nil; tenant_account_id = none }

-- The query has no ORDER BY: `order` is the order in which the database returns the rows.
unfoldable pub get_replies_by_campaign :
    (List CampaignReply → List CampaignReply) → Faults → ℕ → Db → Result (List CampaignReply)
get_replies_by_campaign order f campaign_id db = do
  exec (f 0)
  ok (order (map scanned_reply (select (is_reply_of db campaign_id) db.replies)))

unfoldable pub get_chat_phone_mapping_by_phone :
    Faults → ℕ → Text → Text → Db → Result ChatPhoneMapping
unfolding trim_space
get_chat_phone_mapping_by_phone f tenant_id phone messenger_type db =
    if is_empty (trim_space phone) then err no_rows else do
      exec (f 0)
      scan (
          first
            (λ m.
              m.tenant_id == tenant_id
              && text_eq m.phone_normalized phone
              && text_eq m.messenger_type (messenger_or_default messenger_type))
            db.chat_mappings)

-- SELECT DISTINCT, in the order of the first rows.
abbrev pub add_distinct : ℕ → List ℕ → List ℕ
add_distinct id ids = if exists (λ j. j == id) ids then ids else ids ++ id ∷ []

unfoldable pub distinct_tenants : List Campaign → List ℕ → List ℕ
distinct_tenants [] ids = ids
distinct_tenants (c ∷ cs) ids = distinct_tenants cs (add_distinct c.tenant_id ids)

abbrev pub is_processing : Campaign → Bool
is_processing c = campaign_is c.status processing && not c.deleted

unfoldable pub get_tenants_with_processing_campaigns : Faults → Db → Result (List ℕ)
unfolding distinct_tenants
get_tenants_with_processing_campaigns f db = do
  exec (f 0)
  ok (distinct_tenants (select is_processing db.campaigns) [])

-- The daily usage is not among the columns.
abbrev pub unused : TenantAccount → TenantAccount
unused a = record a { used_today = 0 }

unfoldable pub get_tenant_account_by_id : Faults → ℕ → Db → Result TenantAccount
get_tenant_account_by_id f id db = do
  exec (f 0)
  a ← scan (first (account_has_id id) db.accounts)
  ok (unused a)

unfoldable pub get_tenant_account_by_key : Faults → ℕ → Text → Db → Result TenantAccount
get_tenant_account_by_key f tenant_id account_key db = do
  exec (f 0)
  a ← scan (first (λ a. a.tenant_id == tenant_id && text_eq a.account_key account_key) db.accounts)
  ok (unused a)

-- `id` is the fresh uuid of the row; the accounts stand in the order of created_at and id.
unfoldable pub create_dosed_outbox_message :
    Faults → ℕ → ℕ → Text → Text → ℕ → Db → Result (Unit {0}) × Db
create_dosed_outbox_message f id tenant_id event_type payload publish_at db = commit db do
  exec (f 0)
  a ← scan (first (λ a. a.tenant_id == tenant_id) db.accounts)
  exec (f 1)
  ok (
    tt,
    record db {
      outbox =
          db.outbox
          ++ record {
            id = id;
            event_type = event_type;
            payload = payload;
            processed = false;
            tenant_id = tenant_id;
            tenant_account_id = a.id;
            publish_at = publish_at;
          }
            ∷ [];
    },
  )

-- A failure without an account to cool down.
unfoldable pub mark_target_retry_pending :
    Faults → ℕ → ℕ → Text → Text → ℕ → ℕ → Db → Result Bool × Db
unfolding apply_retryable_failure
mark_target_retry_pending f now target_id error_code error_message next_attempt_at max_attempts db =
    apply_retryable_failure f now
      (record {
        target_id = target_id;
        account_id = uuid_nil;
        error_code = error_code;
        error_message = error_message;
        next_attempt_at = next_attempt_at;
        cooldown_until = 0;
        max_attempts = max_attempts;
      })
      db
