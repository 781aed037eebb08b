-- ===== src/Domain/Status.antt =====
-- internal/domain/models.go: task and campaign statuses.
use aba_go_orchestrator.Common.{ℕ, Text, lit, Bool, true, false, ◌==◌, ◌||◌}

-- The Go type is a string: `other` is any text that is no declared constant.
pub data TaskStatus : Type 0 where
  pending sent delivered viewed failed replied user_not_found_by_phone retry_pending
        delivery_unknown :
      TaskStatus
  other : Text → TaskStatus

pub data CampaignStatus : Type 0 where
  draft processing completed paused campaign_failed stopped : CampaignStatus

pub CampaignStatus-discrete : Discrete CampaignStatus
CampaignStatus-discrete = hlevel

abbrev tag : TaskStatus → ℕ
tag (other s) = 0
tag pending = 1
tag sent = 2
tag delivered = 3
tag viewed = 4
tag failed = 5
tag replied = 6
tag user_not_found_by_phone = 7
tag retry_pending = 8
tag delivery_unknown = 9

-- `s == c` for a declared constant `c`.
abbrev pub is : TaskStatus → TaskStatus → Bool
is s c = tag s == tag c

abbrev pub campaign_is : CampaignStatus → CampaignStatus → Bool
campaign_is draft draft = true
campaign_is processing processing = true
campaign_is completed completed = true
campaign_is paused paused = true
campaign_is campaign_failed campaign_failed = true
campaign_is stopped stopped = true
campaign_is _ _ = false

-- StatusText.
unfoldable pub status_text : TaskStatus → Text
status_text pending = lit "Ожидает отправки"
status_text sent = lit "Отправлено"
status_text delivered = lit "Доставлено"
status_text viewed = lit "Просмотрено"
status_text failed = lit "Ошибка"
status_text replied = lit "Ответ получен"
status_text user_not_found_by_phone = lit "Пользователь не найден"
status_text retry_pending = lit "Ожидает повторной отправки"
status_text delivery_unknown = lit "Статус доставки неизвестен"
status_text (other s) = lit "Неизвестно"

-- IsErrorStatus.
unfoldable pub is_error_status : TaskStatus → Bool
is_error_status s = is s failed || is s user_not_found_by_phone || is s delivery_unknown

-- Rank.
unfoldable pub rank : TaskStatus → ℕ
rank replied = 4
rank viewed = 3
rank sent = 2
rank delivered = 2
rank pending = 1
rank retry_pending = 1
rank _ = 0
