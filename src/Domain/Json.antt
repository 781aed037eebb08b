-- ===== src/Domain/Json.antt =====
-- internal/domain/models.go: TargetResult.UnmarshalJSON. The JSON decoder and uuid.Parse are arguments:
-- `RawResult` is what the decoder gives.
use aba_go_orchestrator.Common.{ℕ, Text, is_empty, trim_space, Option, none, some, if◌then◌else◌}
use aba_go_orchestrator.Domain.Status.{TaskStatus}
use aba_go_orchestrator.Domain.Models.{TargetResult, uuid_nil}

unfoldable pub parse_optional_uuid : (Text → Option ℕ) → Text → Option ℕ
unfolding trim_space
parse_optional_uuid parse raw =
    let trimmed = trim_space raw in if is_empty trimmed then some uuid_nil else parse trimmed

pub record RawResult : Type 0 where
  pub target_id : Text
  pub campaign_id : Text
  pub tenant_id : Text
  pub tenant_account_id : Text
  pub account_id : Text
  pub phone_number : Text
  pub status : TaskStatus
  pub reply_text : Option Text
  pub error_code : Text
  pub error_message : Option Text
  pub timestamp : ℕ
  pub chat_id : Text
  pub messenger_type : Text

abbrev pub with_ids : RawResult → Option ℕ → Option ℕ → Option ℕ → Option ℕ → Option TargetResult
with_ids raw (some target) (some campaign) (some tenant) (some account) = some (record {
  target_id = target;
  campaign_id = campaign;
  tenant_id = tenant;
  tenant_account_id = account;
  account_id = raw.account_id;
  phone_number = raw.phone_number;
  status = raw.status;
  reply_text = raw.reply_text;
  error_code = raw.error_code;
  error_message = raw.error_message;
  timestamp = raw.timestamp;
  chat_id = raw.chat_id;
  messenger_type = raw.messenger_type;
})
with_ids raw _ _ _ _ = none

-- `none` is an error, of the decoder or of an id.
unfoldable pub unmarshal_json : (Text → Option ℕ) → Option RawResult → Option TargetResult
unfolding parse_optional_uuid
unmarshal_json parse none = none
unmarshal_json parse (some raw) =
    with_ids raw (parse_optional_uuid parse raw.target_id)
      (parse_optional_uuid parse raw.campaign_id) (parse_optional_uuid parse raw.tenant_id)
      (parse_optional_uuid parse raw.tenant_account_id)
