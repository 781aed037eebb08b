-- ===== src/Repository/Pending.antt =====
-- internal/repository/anti_ban.go: getNextPendingTarget and the counts of mapped phones.
use aba_go_orchestrator.Common.{
  ℕ, Text, text_eq, is_empty, Bool, true, false, not, ltb, ◌==◌, ◌&&◌, Option, none, some, List, [],
  ◌∷◌, first, select, exists, if◌then◌else◌,
}
use aba_go_orchestrator.Domain.Models.{
  Campaign, CampaignTarget, PendingTargetForDosing, ChatPhoneMapping,
}
use aba_go_orchestrator.Repository.Store.{Db, campaign_has_id}
use aba_go_orchestrator.Repository.Retry.{is_live_campaign}
use aba_go_orchestrator.Repository.Dosing.{is_eligible}

abbrev pub maps_phone : ℕ → Text → Text → ChatPhoneMapping → Bool
maps_phone tenant_id phone messenger m =
    m.tenant_id == tenant_id
    && text_eq m.phone_normalized phone
    && text_eq m.messenger_type messenger

-- The chat of the target's phone; the index on (tenant_id, phone_normalized, messenger_type) is
-- unique, so there is at most one.
unfoldable pub mapping_of : Db → ℕ → CampaignTarget → Option ChatPhoneMapping
mapping_of db tenant_id t =
    first (maps_phone tenant_id t.phone_normalized t.messenger_type) db.chat_mappings

unfoldable pub is_blocked_recipient : Db → ℕ → Text → Bool
is_blocked_recipient db tenant_id phone =
    exists (λ b. b.tenant_id == tenant_id && text_eq b.phone_normalized phone) db.blocked

-- Warm: a mapping with a chat_id. Cold: no mapping.
abbrev pub fits_contact : Bool → Option ChatPhoneMapping → Bool
fits_contact true none = false
fits_contact true (some m) = not (is_empty m.chat_id)
fits_contact false none = true
fits_contact false (some m) = false

-- The WHERE clause; `locked` are the rows that another transaction holds (SKIP LOCKED).
unfoldable pub is_candidate : (ℕ → Bool) → Db → ℕ → ℕ → Bool → CampaignTarget → Bool
is_candidate locked db now tenant_id warm t =
    exists (λ c. campaign_has_id t.campaign_id c && is_live_campaign tenant_id c) db.campaigns
    && is_eligible now t
    && not (is_blocked_recipient db tenant_id t.phone_normalized)
    && fits_contact warm (mapping_of db tenant_id t)
    && not (locked t.id)

abbrev older : CampaignTarget → Option CampaignTarget → CampaignTarget
older t none = t
older t (some u) = if ltb u.created_at t.created_at then u else t

-- `ORDER BY ct.created_at ASC LIMIT 1`; of two targets of one age, the first in the table.
unfoldable pub oldest : List CampaignTarget → Option CampaignTarget
oldest [] = none
oldest (t ∷ ts) = some (older t (oldest ts))

abbrev chat_of : Option ChatPhoneMapping → Text
chat_of none = []
chat_of (some m) = m.chat_id

abbrev account_of : Option ChatPhoneMapping → Option ℕ
account_of none = none
account_of (some m) = some m.tenant_account_id

abbrev for_dosing : Db → ℕ → Bool → CampaignTarget → Option Campaign → Option PendingTargetForDosing
for_dosing db tenant_id warm t none = none
for_dosing db tenant_id warm t (some c) = some (record {
  target_id = t.id;
  campaign_id = t.campaign_id;
  tenant_id = tenant_id;
  client_name = t.client_name;
  phone_normalized = t.phone_normalized;
  message_template = c.message_template;
  chat_id = chat_of (mapping_of db tenant_id t);
  is_warm = warm;
  messenger_type = t.messenger_type;
  attachment_url = c.attachment_url;
  attachment_name = c.attachment_name;
  preferred_account = account_of (mapping_of db tenant_id t);
  attempt_count = t.attempt_count;
})

abbrev selected : Db → ℕ → Bool → Option CampaignTarget → Option PendingTargetForDosing
selected db tenant_id warm none = none
selected db tenant_id warm (some t) =
    for_dosing db tenant_id warm t (first (campaign_has_id t.campaign_id) db.campaigns)

unfoldable pub get_next_pending_target :
    (ℕ → Bool) → Db → ℕ → ℕ → Bool → Option PendingTargetForDosing
unfolding is_candidate oldest
get_next_pending_target locked db now tenant_id warm =
    selected db tenant_id warm
      (oldest (select (is_candidate locked db now tenant_id warm) db.targets))
