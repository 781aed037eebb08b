-- ===== src/Examples/Data.antt =====
-- The rows and requests that the runs share: one tenant with one campaign, one target, one account
-- and the quota of day 0.
use aba_go_orchestrator.Common.{ℕ, Option, ◌+◌, ◌-◌, Text, lit, none, some, [], ◌∷◌, false}
use aba_go_orchestrator.Domain.Status.{TaskStatus, processing}
use aba_go_orchestrator.Domain.Models.{
  Campaign, CampaignTarget, TenantAccount, TenantDailyQuota, active, default_messenger_type,
}
use aba_go_orchestrator.Config.{Zone, Config}
use aba_go_orchestrator.Repository.Store.{Db}
use aba_go_orchestrator.Repository.Dosing.{Dose}
use aba_go_orchestrator.Repository.Retry.{Failure}

abbrev pub phone : Text
phone = lit "9123456789"

abbrev pub campaign : Campaign
campaign = record {
  id = 10;
  tenant_id = 1;
  name = lit "spring";
  message_template = lit "Hello";
  status = processing;
  original_excel_name = lit "list.xlsx";
  original_excel_path = none;
  processed_excel_path = none;
  attachment_url = none;
  attachment_name = none;
  deleted = false;
  start_immediately = false;
  time_to_start = none;
  processed_count = 0;
  total_count = 1;
  error_count = 0;
  estimated_days = some 1;
  scheduled_completion_date = none;
  created_at = 5;
  updated_at = 5;
}

abbrev pub target : TaskStatus → CampaignTarget
target s = record {
  id = 20;
  campaign_id = 10;
  tenant_id = 1;
  tenant_account_id = none;
  client_name = lit "Anna";
  phone_normalized = phone;
  messenger_type = default_messenger_type;
  excel_row_index = 2;
  status = s;
  last_error = none;
  last_error_code = none;
  last_error_message = none;
  attempt_count = 0;
  next_attempt_at = none;
  sent_at = none;
  replied_at = none;
  last_reply_text = none;
  created_at = 5;
  updated_at = 5;
}

abbrev pub account : TenantAccount
account = record {
  id = 3;
  tenant_id = 1;
  account_key = lit "first";
  phone_number = none;
  status = active;
  daily_limit = 2;
  cooldown_until = none;
  used_today = 0;
}

abbrev pub quota : TenantDailyQuota
quota = record {
  tenant_id = 1;
  quota_date = 0;
  cold_limit = 2;
  cold_used = 0;
  warm_used = 0;
  last_cold_publish_at = none;
}

abbrev pub db_with : TaskStatus → Db
db_with s = record {
  campaigns = campaign ∷ [];
  targets = target s ∷ [];
  outbox = [];
  replies = [];
  accounts = account ∷ [];
  usage = [];
  quotas = quota ∷ [];
  blocked = [];
  chat_mappings = [];
  admin_mappings = [];
  tenants = record { id = 1; name = lit "shop"; admin_phone = some (lit "89000000000; x") } ∷ [];
}

abbrev pub dose : Dose
dose = record {
  target_id = 20;
  tenant_id = 1;
  account_id = 3;
  event_type = lit "message.send";
  payload = lit "{}";
  publish_at = 100;
}

abbrev pub failure : Failure
failure = record {
  target_id = 20;
  account_id = 3;
  error_code = lit "SESSION_EXPIRED";
  error_message = lit "logged out";
  next_attempt_at = 500;
  cooldown_until = 900;
  max_attempts = 2;
}

abbrev pub three_hours : ℕ
three_hours = 10_800_000_000_000

abbrev pub moscow : Zone
moscow = record { wall = λ t. t + three_hours; instant = λ w. w - three_hours }

abbrev pub config : Config
config = record {
  limit_cold_min = 8;
  limit_cold_max = 15;
  limit_cold_estimated_avg = 11;
  limit_warm_daily = 50;
  interval_cold_min_minutes = 15;
  interval_cold_max_minutes = 45;
  work_window_start_hour = 9;
  work_window_start_minute = 0;
  work_window_end_hour = 20;
  work_window_end_minute = 30;
  location = moscow;
  max_retry_attempts = 3;
  retry_delay_minutes = 15;
  account_cooldown_minutes = 60;
}

-- One decimal digit, as a uuid.
abbrev pub parse : Text → Option ℕ
parse [] = none
parse (c ∷ []) = some c
parse (c ∷ d ∷ s) = none
