-- ===== src/Domain/Models.antt =====
-- internal/domain/models.go: the entities. A uuid.UUID is its 128-bit number, with uuid.Nil as 0;
-- a time.Time is a count of nanoseconds from the zero time, which is 0; a pointer is an Option.
use aba_go_orchestrator.Common.{
  ℕ, ◌-◌, Text, lit, Bool, true, false, ltb, ◌&&◌, Option, none, some, List, if◌then◌else◌,
}
use aba_go_orchestrator.Domain.Status.{TaskStatus, CampaignStatus}

abbrev pub uuid_nil : ℕ
uuid_nil = 0

abbrev pub default_messenger_type : Text
default_messenger_type = lit "MAX"

-- Tenant, with what the modelled code reads of it; admin_phone is a nullable column.
pub record Tenant : Type 0 where
  pub id : ℕ
  pub name : Text
  pub admin_phone : Option Text

pub record Campaign : Type 0 where
  pub id : ℕ
  pub tenant_id : ℕ
  pub name : Text
  pub message_template : Text
  pub status : CampaignStatus
  pub original_excel_name : Text
  pub original_excel_path : Option Text
  pub processed_excel_path : Option Text
  pub attachment_url : Option Text
  pub attachment_name : Option Text
  pub deleted : Bool
  pub start_immediately : Bool
  pub time_to_start : Option ℕ
  pub processed_count : ℕ
  pub total_count : ℕ
  pub error_count : ℕ
  pub estimated_days : Option ℕ
  pub scheduled_completion_date : Option ℕ
  pub created_at : ℕ
  pub updated_at : ℕ

pub record CampaignTarget : Type 0 where
  pub id : ℕ
  pub campaign_id : ℕ
  pub tenant_id : ℕ
  pub tenant_account_id : Option ℕ
  pub client_name : Text
  pub phone_normalized : Text
  pub messenger_type : Text
  pub excel_row_index : ℕ
  pub status : TaskStatus
  pub last_error : Option Text
  pub last_error_code : Option Text
  pub last_error_message : Option Text
  pub attempt_count : ℕ
  pub next_attempt_at : Option ℕ
  pub sent_at : Option ℕ
  pub replied_at : Option ℕ
  pub last_reply_text : Option Text
  pub created_at : ℕ
  pub updated_at : ℕ

pub record OutboxMessage : Type 0 where
  pub id : ℕ
  pub event_type : Text
  pub payload : Text
  pub processed : Bool
  pub tenant_id : ℕ
  pub tenant_account_id : ℕ
  pub publish_at : ℕ

pub record CampaignReply : Type 0 where
  pub campaign_target_id : ℕ
  pub tenant_id : ℕ
  pub tenant_account_id : Option ℕ
  pub message_text : Text
  pub received_at : ℕ

-- tenant_accounts.status is free text in the table: `other_account_status` is any undeclared one.
pub data AccountStatus : Type 0 where
  active cooldown disabled other_account_status : AccountStatus

abbrev pub account_is : AccountStatus → AccountStatus → Bool
account_is active active = true
account_is cooldown cooldown = true
account_is disabled disabled = true
account_is _ _ = false

pub record TenantAccount : Type 0 where
  pub id : ℕ
  pub tenant_id : ℕ
  pub account_key : Text
  pub phone_number : Option Text
  pub status : AccountStatus
  pub daily_limit : ℕ
  pub cooldown_until : Option ℕ
  pub used_today : ℕ

-- `DailyLimit - UsedToday`, 0 where that is negative.
unfoldable pub remaining_today : TenantAccount → ℕ
remaining_today a = a.daily_limit - a.used_today

abbrev pub after_now : Option ℕ → ℕ → Bool
after_now none now = false
after_now (some t) now = ltb now t

-- IsAssignable, for an account that is there.
unfoldable pub is_assignable : TenantAccount → ℕ → Bool
unfolding remaining_today
is_assignable a now =
    if account_is a.status disabled
    then false
    else if account_is a.status cooldown && after_now a.cooldown_until now
    then false
    else ltb 0 (remaining_today a)

pub record BlockedRecipient : Type 0 where
  pub tenant_id : ℕ
  pub phone_normalized : Text
  pub blocked_at : ℕ

pub record ChatPhoneMapping : Type 0 where
  pub chat_id : Text
  pub campaign_id : ℕ
  pub campaign_target_id : ℕ
  pub phone_normalized : Text
  pub tenant_id : ℕ
  pub tenant_account_id : ℕ
  pub messenger_type : Text

pub record AdminChatPhoneMapping : Type 0 where
  pub tenant_id : ℕ
  pub tenant_account_id : ℕ
  pub phone_normalized : Text
  pub chat_id : Text
  pub messenger_type : Text

pub record TenantDailyQuota : Type 0 where
  pub tenant_id : ℕ
  pub quota_date : ℕ
  pub cold_limit : ℕ
  pub cold_used : ℕ
  pub warm_used : ℕ
  pub last_cold_publish_at : Option ℕ

pub record PendingTargetForDosing : Type 0 where
  pub target_id : ℕ
  pub campaign_id : ℕ
  pub tenant_id : ℕ
  pub client_name : Text
  pub phone_normalized : Text
  pub message_template : Text
  pub chat_id : Text
  pub is_warm : Bool
  pub messenger_type : Text
  pub attachment_url : Option Text
  pub attachment_name : Option Text
  pub preferred_account : Option ℕ
  pub attempt_count : ℕ

pub record TargetResult : Type 0 where
  pub target_id : ℕ
  pub campaign_id : ℕ
  pub tenant_id : ℕ
  pub tenant_account_id : ℕ
  pub account_id : Text
  pub phone_number : Text
  pub status : TaskStatus
  pub reply_text : Option Text
  pub error_code : Text
  pub error_message : Option Text
  pub timestamp : ℕ
  pub chat_id : Text
  pub messenger_type : Text

pub record ClientReplyInfo : Type 0 where
  pub user_phone : Text
  pub user_name : Text
  pub message : Text
  pub time : ℕ

-- The ids are their texts.
pub record TenantAdminNotificationTask : Type 0 where
  pub tenant_phone : Text
  pub tenant_id : Text
  pub tenant_account_id : Text
  pub chat_id : Text
  pub use_chat_id : Bool
  pub replies : List ClientReplyInfo
