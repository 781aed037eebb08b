-- ===== src/Repository/Uploads.antt =====
-- internal/repository: what an upload, a report and a list ask of the tables (CreateCampaign,
-- UpdateCampaign, GetCampaign, ListCampaigns, GetCampaignTargets of postgres.go, CountMappedPhones of
-- anti_ban.go). The column fallback_to_vk_allowed, which no modelled code reads, is left out.
pub mod Created
use aba_go_orchestrator.Common.{
  ℕ, zero, suc, Text, text_eq, is_empty, leb, Bool, true, false, not, ◌==◌, ◌&&◌, ◌||◌, Option,
  none, some, List, [], ◌∷◌, ◌++◌, map, first, select, update, exists, length, if◌then◌else◌,
}
use aba_go_orchestrator.Domain.Models.{
  Campaign, CampaignTarget, OutboxMessage, TenantAccount, ChatPhoneMapping, uuid_nil,
  default_messenger_type,
}
use aba_go_orchestrator.Repository.Store.{
  Db, Result, ok, err, ◌>>=◌, ◌>>◌, Faults, exec, no_rows, commit, campaign_has_id, account_has_id,
}

-- The row of a new campaign; the columns that the INSERT leaves out have their defaults.
abbrev pub campaign_row : ℕ → Campaign → Campaign
campaign_row now c = record c {
  deleted = false;
  processed_count = 0;
  error_count = 0;
  created_at = now;
  updated_at = now;
}

abbrev pub target_row : ℕ → Campaign → CampaignTarget → CampaignTarget
target_row now c t = record {
  id = t.id;
  campaign_id = t.campaign_id;
  tenant_id = if t.tenant_id == uuid_nil then c.tenant_id else t.tenant_id;
  tenant_account_id = none;
  client_name = t.client_name;
  phone_normalized = t.phone_normalized;
  messenger_type = if is_empty t.messenger_type then default_messenger_type else t.messenger_type;
  excel_row_index = t.excel_row_index;
  status = t.status;
  last_error = none;
  last_error_code = none;
  last_error_message = none;
  attempt_count = 0;
  next_attempt_at = none;
  sent_at = none;
  replied_at = none;
  last_reply_text = none;
  created_at = now;
  updated_at = now;
}

-- CreateCampaign, which is called without outbox messages. Statement 1 fails also where the id is
-- taken.
unfoldable pub create_campaign :
    Faults → ℕ → Campaign → List CampaignTarget → Db → Result (Unit {0}) × Db
create_campaign f now c targets db = commit db do
  exec (f 0)
  exec (f 1)
  exec (f 2)
  exec (f 3)
  ok (
    tt,
    record db {
      campaigns = db.campaigns ++ campaign_row now c ∷ [];
      targets = db.targets ++ map (target_row now c) targets;
    },
  )

-- The columns that the queries read; the estimates are not among them.
abbrev pub scanned_campaign : Campaign → Campaign
scanned_campaign c = record c { estimated_days = none; scheduled_completion_date = none }

abbrev pub scan_campaign : Option Campaign → Result Campaign
scan_campaign none = err no_rows
scan_campaign (some c) = ok (scanned_campaign c)

unfoldable pub get_campaign : Faults → ℕ → Db → Result Campaign
get_campaign f id db = do exec (f 0); scan_campaign (first (campaign_has_id id) db.campaigns)

abbrev pub insert_newest : Campaign → List Campaign → List Campaign
insert_newest c [] = c ∷ []
insert_newest c (d ∷ ds) =
    let rest = insert_newest c ds in if leb d.created_at c.created_at then c ∷ d ∷ ds else d ∷ rest

-- `ORDER BY created_at DESC`.
abbrev pub newest_first : List Campaign → List Campaign
newest_first [] = []
newest_first (c ∷ cs) = insert_newest c (newest_first cs)

unfoldable pub list_campaigns : Faults → ℕ → Db → Result (List Campaign)
list_campaigns f tenant_id db = do
  exec (f 0)
  ok (
      map scanned_campaign
        (newest_first (select (λ c. c.tenant_id == tenant_id && not c.deleted) db.campaigns)))

-- UpdateCampaign writes all of these columns back.
abbrev pub write_campaign : Campaign → ℕ → Campaign → Campaign
write_campaign c now row = record row {
  name = c.name;
  message_template = c.message_template;
  status = c.status;
  original_excel_path = c.original_excel_path;
  processed_excel_path = c.processed_excel_path;
  attachment_url = c.attachment_url;
  attachment_name = c.attachment_name;
  deleted = c.deleted;
  processed_count = c.processed_count;
  total_count = c.total_count;
  error_count = c.error_count;
  start_immediately = c.start_immediately;
  time_to_start = c.time_to_start;
  updated_at = now;
}

unfoldable pub update_campaign : Faults → ℕ → Campaign → Db → Result (Unit {0}) × Db
update_campaign f now c db = commit db do
  exec (f 0)
  ok (
    tt,
    record db { campaigns = update (campaign_has_id c.id) (write_campaign c now) db.campaigns },
  )

-- A target with the phone of its sender account.
abbrev pub ReportTarget : Type 0
ReportTarget = CampaignTarget × Option Text

abbrev phone_of : Option TenantAccount → Option Text
phone_of none = none
phone_of (some a) = a.phone_number

abbrev account_phone : Db → Option ℕ → Option Text
account_phone db none = none
account_phone db (some id) = phone_of (first (account_has_id id) db.accounts)

abbrev insert : ReportTarget → List ReportTarget → List ReportTarget
insert x [] = x ∷ []
insert x (y ∷ ys) =
    let rest = insert x ys in
    if leb x.0.excel_row_index y.0.excel_row_index then x ∷ y ∷ ys else y ∷ rest

-- `ORDER BY ct.excel_row_index ASC`.
abbrev by_row : List ReportTarget → List ReportTarget
by_row [] = []
by_row (x ∷ xs) = insert x (by_row xs)

-- The columns that the query reads; the others keep the zero values of Go.
abbrev scanned : CampaignTarget → CampaignTarget
scanned t = record t {
  tenant_id = uuid_nil;
  tenant_account_id = none;
  last_error_code = none;
  last_error_message = none;
  attempt_count = 0;
  next_attempt_at = none;
}

unfoldable pub get_campaign_targets : Faults → ℕ → Db → Result (List ReportTarget)
get_campaign_targets f campaign_id db = do
  exec (f 0)
  ok (
      by_row (
        map (λ t. (scanned t, account_phone db t.tenant_account_id))
          (select (λ t. t.campaign_id == campaign_id) db.targets)))

-- `COUNT(DISTINCT …)`.
abbrev distinct : List Text → ℕ
distinct [] = 0
distinct (p ∷ ps) = let n = distinct ps in if exists (text_eq p) ps then n else suc n

abbrev mapped : ℕ → Text → List Text → ChatPhoneMapping → Bool
mapped tenant_id messenger phones m =
    m.tenant_id == tenant_id
    && text_eq m.messenger_type messenger
    && exists (text_eq m.phone_normalized) phones

unfoldable pub count_mapped_phones : Faults → ℕ → Text → List Text → Db → Result ℕ
count_mapped_phones f tenant_id messenger [] db = ok 0
count_mapped_phones f tenant_id messenger (p ∷ ps) db = do
  exec (f 0)
  let mt = if is_empty messenger then default_messenger_type else messenger
  ok (
      distinct
        (map (λ m. m.phone_normalized) (select (mapped tenant_id mt (p ∷ ps)) db.chat_mappings)))
