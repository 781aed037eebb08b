-- ===== src/Repository/Mappings.antt =====
-- internal/repository/postgres.go: the chats of phones (UpsertChatPhoneMapping,
-- GetChatPhoneMappingByChatID, UpsertAdminChatMapping, GetAdminChatPhoneMappingByPhone). The column
-- viewer_id, which no caller fills, is left out.
pub mod Admins
use aba_go_orchestrator.Common.{
  ℕ, Text, text_eq, is_empty, trim_space, Bool, true, false, not, ◌==◌, ◌&&◌, ◌||◌, Option, none,
  some, List, [], ◌∷◌, ◌++◌, first, update, exists, if◌then◌else◌,
}
use aba_go_orchestrator.Domain.Models.{
  Campaign, CampaignTarget, TenantAccount, ChatPhoneMapping, AdminChatPhoneMapping, uuid_nil,
  default_messenger_type,
}
use aba_go_orchestrator.Domain.Phone.{normalize_phone}
use aba_go_orchestrator.Repository.Store.{
  Db, Result, ok, err, empty_argument, no_rows, ◌>>=◌, ◌>>◌, Faults, exec, scan, commit,
  campaign_has_id, target_has_id, or_else,
}

abbrev pub chat_has_id : Text → ChatPhoneMapping → Bool
chat_has_id chat_id m = text_eq m.chat_id chat_id

-- The messenger of the call, or the default one.
abbrev pub messenger_or_default : Text → Text
messenger_or_default messenger_type =
    let mt = trim_space messenger_type in if is_empty mt then default_messenger_type else mt

abbrev first_account : Option TenantAccount → ℕ
first_account none = uuid_nil
first_account (some a) = a.id

abbrev account_or_first : Option ℕ → Option TenantAccount → ℕ
account_or_first none a = first_account a
account_or_first (some id) a = id

-- What ResultConsumer asks to be stored: it names no messenger.
pub record Mapping : Type 0 where
  pub chat_id : Text
  pub campaign_id : ℕ
  pub campaign_target_id : ℕ
  pub phone_normalized : Text

abbrev mapping_row : Mapping → Db → Campaign → CampaignTarget → ChatPhoneMapping
mapping_row m db c t = record {
  chat_id = m.chat_id;
  campaign_id = m.campaign_id;
  campaign_target_id = m.campaign_target_id;
  phone_normalized = m.phone_normalized;
  tenant_id = c.tenant_id;
  tenant_account_id =
      account_or_first t.tenant_account_id (first (λ a. a.tenant_id == c.tenant_id) db.accounts);
  messenger_type = t.messenger_type;
}

-- ON CONFLICT (chat_id).
abbrev put_mapping : ChatPhoneMapping → List ChatPhoneMapping → List ChatPhoneMapping
put_mapping row ms =
    if exists (chat_has_id row.chat_id) ms
    then update (chat_has_id row.chat_id) (λ m. row) ms
    else ms ++ row ∷ []

-- The fallback: the row of the phone gets the chat.
abbrev move_mapping : ChatPhoneMapping → List ChatPhoneMapping → List ChatPhoneMapping
move_mapping row =
    update
      (λ m.
        m.tenant_id == row.tenant_id
        && text_eq m.phone_normalized row.phone_normalized
        && text_eq m.messenger_type row.messenger_type)
      λ m. record m {
        chat_id = row.chat_id;
        campaign_id = row.campaign_id;
        campaign_target_id = row.campaign_target_id;
      }

-- The row that the SELECT gives, or none.
abbrev joined_row : Mapping → Db → Option Campaign → Option CampaignTarget → Option ChatPhoneMapping
joined_row m db (some c) (some t) =
    if t.campaign_id == c.id then some (mapping_row m db c t) else none
joined_row m db none t = none
joined_row m db (some c) none = none

abbrev with_row :
    (ChatPhoneMapping → List ChatPhoneMapping → List ChatPhoneMapping)
    → Option ChatPhoneMapping
    → Db
    → Db
with_row put none db = db
with_row put (some row) db = record db { chat_mappings = put row db.chat_mappings }

-- Statement 0 fails also where it violates one of the other unique indices; then statement 1 is
-- tried.
unfoldable pub upsert_chat_phone_mapping : Faults → Mapping → Db → Result (Unit {0}) × Db
upsert_chat_phone_mapping f m db =
    let row =
      joined_row m db (first (campaign_has_id m.campaign_id) db.campaigns)
        (first (target_has_id m.campaign_target_id) db.targets) in
    if not (f 0)
    then (ok tt, with_row put_mapping row db)
    else commit db do exec (f 1); ok (tt, with_row move_mapping row db)

unfoldable pub get_chat_phone_mapping_by_chat_id : Faults → Text → Db → Result ChatPhoneMapping
get_chat_phone_mapping_by_chat_id f chat_id db = do
  exec (f 0)
  scan (first (chat_has_id chat_id) db.chat_mappings)

-- The unique key of an admin chat: the sender account, the phone and the messenger.
abbrev pub admin_key : ℕ → Text → Text → AdminChatPhoneMapping → Bool
admin_key account_id phone messenger m =
    m.tenant_account_id == account_id
    && text_eq m.phone_normalized phone
    && text_eq m.messenger_type messenger

abbrev pub admin_of : ℕ → ℕ → Text → Text → AdminChatPhoneMapping → Bool
admin_of tenant_id account_id phone messenger m =
    m.tenant_id == tenant_id && admin_key account_id phone messenger m

unfoldable pub get_admin_chat_phone_mapping_by_phone :
    Faults → ℕ → ℕ → Text → Text → Db → Result AdminChatPhoneMapping
get_admin_chat_phone_mapping_by_phone f tenant_id account_id phone messenger_type db =
    if is_empty (trim_space phone)
    then err no_rows
    else if account_id == uuid_nil
    then err empty_argument
    else exec (f 0)
      >> scan (
          first (admin_of tenant_id account_id phone (messenger_or_default messenger_type))
            db.admin_mappings)

-- ON CONFLICT (tenant_account_id, phone_normalized, messenger_type).
unfoldable pub put_admin :
    AdminChatPhoneMapping → List AdminChatPhoneMapping → List AdminChatPhoneMapping
put_admin row ms =
    let same = admin_key row.tenant_account_id row.phone_normalized row.messenger_type in
    if exists same ms
    then update same (λ m. record m { chat_id = row.chat_id; tenant_id = row.tenant_id }) ms
    else ms ++ row ∷ []

abbrev pub admin_row : Text → ℕ → ℕ → Text → Text → AdminChatPhoneMapping
admin_row chat_id tenant_id account_id phone messenger_type = record {
  tenant_id = tenant_id;
  tenant_account_id = account_id;
  phone_normalized = normalize_phone phone;
  chat_id = trim_space chat_id;
  messenger_type = messenger_or_default messenger_type;
}

unfoldable pub upsert_admin_chat_mapping :
    Faults → Text → ℕ → ℕ → Text → Text → Db → Result (Unit {0}) × Db
upsert_admin_chat_mapping f chat_id tenant_id account_id phone messenger_type db =
    if is_empty (trim_space chat_id) || account_id == uuid_nil || is_empty (normalize_phone phone)
    then (err empty_argument, db)
    else commit db do
      exec (f 0)
      ok (
        tt,
        record db {
          admin_mappings =
              put_admin (admin_row chat_id tenant_id account_id phone messenger_type)
                db.admin_mappings;
        },
      )
