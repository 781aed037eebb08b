-- ===== src/Examples/Workers.antt =====
-- internal/worker: ticks of the doser, a batch of the result consumer and a check of the scheduler on
-- one database.
use aba_go_orchestrator.Common.{
  ℕ, lit, trim_space, text_eq, to_upper, ◌∷◌, [], List, ◌≡◌, refl, false, arith, ◌≤◌, first, Option,
  none, some,
}
use aba_go_orchestrator.Domain.Errors.{classify_error_code, is_session_health_error}
use aba_go_orchestrator.Domain.Status.{pending, failed}
use aba_go_orchestrator.Domain.Models.{CampaignTarget, TargetResult}
use aba_go_orchestrator.Repository.Store.{no_faults, target_has_id}
use aba_go_orchestrator.Repository.Store.Each.{Each}
use aba_go_orchestrator.Repository.Attempts.{IsNew}
use aba_go_orchestrator.Repository.Dosing.{is_eligible}
use aba_go_orchestrator.Repository.Pending.{is_blocked_recipient}
use aba_go_orchestrator.Worker.Cache.{new_cache}
use aba_go_orchestrator.Worker.Consumer.{ObservedReply}
use aba_go_orchestrator.Worker.System.{System, Event, tick, batch, check, run}
use aba_go_orchestrator.Worker.Limits.System.{attempts_within_limit}
use aba_go_orchestrator.Worker.Limits.Course.{client-Persists}
use aba_go_orchestrator.Repository.Lifecycle.Course.{Persists}
use aba_go_orchestrator.Worker.Doser
use aba_go_orchestrator.Worker.Accounts
use aba_go_orchestrator.Worker.Schedule
use aba_go_orchestrator.Worker.Consumer
use aba_go_orchestrator.Repository.Dosing.{
  list_assignable_tenant_accounts, assign_account_and_enqueue_target, reserve_daily_slot, utc_date,
}
use aba_go_orchestrator.Worker.Consumer.Flush.{flush_from, process_result}
use aba_go_orchestrator.Repository.Retry.{apply_retryable_failure, cools, settled}
use aba_go_orchestrator.Repository.Quota.{
  get_or_create_tenant_daily_quota, draw_cold_limit, has_cold_slot, try_reserve_cold_slot,
}
use aba_go_orchestrator.Repository.Pending.{
  get_next_pending_target, mapping_of, is_candidate, oldest,
}
use aba_go_orchestrator.Config.{
  is_within_work_window, account_cooldown, random_cold_interval, retry_delay,
}
use aba_go_orchestrator.Domain.Models.{is_assignable}
use aba_go_orchestrator.Worker.Scheduler.{start_each, check_and_start_campaigns}
use aba_go_orchestrator.Repository.Campaigns.{
  get_active_campaigns_ready_to_start, is_ready, start_campaign,
}
use aba_go_orchestrator.Examples.Data.{parse, phone, target, config, db_with}

abbrev doser_outside : ℕ → Schedule.Outside
doser_outside i = record {
  message_text = λ template name. template;
  marshal = λ p. some p.message_text;
  lower = λ t. t;
  fresh_id = 7;
  random = λ n. 0;
  locked = λ i. false;
  faults = λ n. no_faults;
}

abbrev pub consumer_outside : ℕ → Consumer.Outside
consumer_outside i = record {
  now = 129_700_000_000_000;
  parse = parse;
  config = config;
  is_unsubscribe = λ t. text_eq t (lit "@");
  matcher = none;
  faults = λ n. no_faults;
}

-- The worker reports that its session has expired.
abbrev pub result : TargetResult
result = record {
  target_id = 20;
  campaign_id = 10;
  tenant_id = 1;
  tenant_account_id = 3;
  account_id = [];
  phone_number = phone;
  status = failed;
  reply_text = none;
  error_code = lit "SESSION_EXPIRED";
  error_message = none;
  timestamp = 129_700_000_000_000;
  chat_id = [];
  messenger_type = [];
}

-- A tick, the failure of what it sent, a check for due campaigns, and another tick.
abbrev events : List Event
events =
    tick doser_outside (λ i. 129_600_000_000_000) (1 ∷ [])
    ∷ batch consumer_outside (result ∷ [])
    ∷ check (λ i. no_faults) (λ i. 129_800_000_000_000)
    ∷ tick doser_outside (λ i. 144_000_000_000_000) (1 ∷ [])
    ∷ []

abbrev start : System
start = record {
  db = db_with pending;
  cursors = λ i. 0;
  blocklist = some new_cache;
  files = λ p. false;
}

start-IsNew : Each IsNew (db_with pending).targets
start-IsNew j t e = ground arith

abbrev found : Option CampaignTarget → CampaignTarget
found none = target pending
found (some t) = t

abbrev last : CampaignTarget
last = found (first (target_has_id 20) (run config events start).db.targets)

found_last : first (target_has_id 20) (run config events start).db.targets ≡ some last
unfolding Doser.dose_all_tenants Doser.dose_tenant list_assignable_tenant_accounts flush_from
    process_result Consumer.handle_result trim_space classify_error_code text_eq to_upper
    apply_retryable_failure get_or_create_tenant_daily_quota get_next_pending_target is_eligible
    is_blocked_recipient mapping_of is_within_work_window draw_cold_limit Accounts.pick_account
    account_cooldown random_cold_interval retry_delay is_session_health_error is_assignable
    assign_account_and_enqueue_target reserve_daily_slot utc_date is_candidate oldest has_cold_slot
    try_reserve_cold_slot cools settled Consumer.failure_of Consumer.handle_send_failure
    Consumer.handle_status Consumer.is_admin_notification_result Consumer.is_send_failure_result
    check_and_start_campaigns start_each get_active_campaigns_ready_to_start is_ready start_campaign
    Doser.dose_cold Schedule.schedule_target
found_last = refl

attempts_within_limit_example : last.attempt_count ≤ 3
attempts_within_limit_example =
    attempts_within_limit config events start 20 last start-IsNew
      (tt, ((λ i. refl), (tt, (tt, tt)))) found_last

client-Persists_example :
    (t' : CampaignTarget) × (first (target_has_id 20) (run config events start).db.targets
      ≡ some t')
    × Persists (target pending) t'
client-Persists_example =
    client-Persists config events start 20 (target pending) (tt, ((λ i. refl), (tt, (tt, tt)))) refl
