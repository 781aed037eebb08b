-- ===== src/Examples/Requests.antt =====
-- internal/transport, internal/worker/scheduler.go, internal/config and internal/logging: a callback,
-- the name of a report, a check for due campaigns, a reply that unsubscribes, and what is written to
-- the log.
use aba_go_orchestrator.Common.{
  replace_all, replace_from, has_prefix, split, ◌↔◌, Some, All, text_eq, ℕ, lit, some, [], ◌∷◌,
  ◌++◌, true, trim_space, trim_left, trim_right, is_space, first, ◌≡◌, refl, ◌⊎◌,
}
use aba_go_orchestrator.Domain.Status.{pending, delivered, draft, processing}
use aba_go_orchestrator.Domain.Models.{Campaign}
use aba_go_orchestrator.Repository.Store.{Db, ok, no_faults, campaign_has_id}
use aba_go_orchestrator.Repository.Campaigns.{is_ready}
use aba_go_orchestrator.Worker.Scheduler.{check_and_start_campaigns}
use aba_go_orchestrator.Worker.Scheduler.Starts.{due_draft_started}
use aba_go_orchestrator.Logging.{redact_url}
use aba_go_orchestrator.Logging.Redaction.{address, redact_url-address}
use aba_go_orchestrator.Transport.{Parsers}
use aba_go_orchestrator.Transport.Hub.{Hub, store_conn}
use aba_go_orchestrator.Transport.Webhooks.{Callback, worker_callback}
use aba_go_orchestrator.Transport.Webhooks.Told.{Told, Refused, worker_callback-Told}
use aba_go_orchestrator.Transport.Download.{from_last_dot, get_extension, status_name}
use aba_go_orchestrator.Config.Unsubscribe.{
  words, join_space, normalize_unsubscribe, default_variant, trimmed_variants,
  parse_unsubscribe_variants, normal_forms, build_unsubscribe_set, is_unsubscribe_reply,
  unsubscribes,
}
use aba_go_orchestrator.Config.Unsubscribe.Match.{Matches, SameWords, IsWordless, unsubscribes_iff}
use aba_go_orchestrator.Examples.Data.{parse, campaign, db_with}

abbrev parsers : Parsers
parsers = record { parse_uuid = parse; parse_time = parse }

abbrev hub : Hub
hub = store_conn 10 1 (store_conn 12 2 [])

abbrev callback : Callback
callback = record {
  task_id = 20;
  status = delivered;
  error_code = [];
  error_message = [];
  sent_at = lit "7";
}

worker_callback-Told_example :
    Told hub 20
      (db_with pending)
      (worker_callback parsers no_faults no_faults 9 hub (some callback) (db_with pending))
    ⊎ Refused
        (db_with pending)
        (worker_callback parsers no_faults no_faults 9 hub (some callback) (db_with pending))
worker_callback-Told_example =
    worker_callback-Told parsers no_faults no_faults 9 hub callback (db_with pending)

status_name_run : status_name (lit "list.v2.xlsx") ≡ lit "list.v2_status.xlsx"
unfolding status_name get_extension from_last_dot
status_name_run = refl

unsubscribes_iff_example :
    let parts = lit " no  thanks" ∷ [] ∷ lit "stop" ∷ [] in
    (unsubscribes (λ s. s) (lit " no  thanks;;stop") (lit "  no thanks ") ≡ true) ↔ (
      Some (Matches (λ s. s) (lit "  no thanks ")) parts
      ⊎ (All (IsWordless (λ s. s)) parts × SameWords (λ s. s) (lit "  no thanks ") default_variant))
unsubscribes_iff_example =
    unsubscribes_iff (λ s. s) (lit " no  thanks") ([] ∷ lit "stop" ∷ []) (lit "  no thanks ") refl
      (
        (refl, (refl, (refl, (refl, (refl, (refl, (refl, (refl, (refl, (refl, (refl, tt))))))))))),
        (tt, ((refl, (refl, (refl, (refl, tt)))), tt)),
      )

unsubscribes_run : unsubscribes (λ s. s) (lit " no  thanks;;stop") (lit "  no thanks ") ≡ true
unfolding unsubscribes is_unsubscribe_reply build_unsubscribe_set parse_unsubscribe_variants
    normal_forms normalize_unsubscribe words join_space trim_space trim_left trim_right is_space
    split text_eq trimmed_variants
unsubscribes_run = refl

abbrev due : Campaign
due = record campaign { status = draft; time_to_start = some 50 }

abbrev db_of : Campaign → Db
db_of c = record (db_with pending) { campaigns = c ∷ [] }

due_draft_started_example :
    (t : ℕ) × ((check_and_start_campaigns (λ i. no_faults) (λ i. 60) (db_of due)).0 ≡ ok tt)
    × (first
          (campaign_has_id 10)
          (check_and_start_campaigns (λ i. no_faults) (λ i. 60) (db_of due)).1.campaigns
        ≡ some (record due { status = processing; updated_at = t }))
unfolding is_ready
due_draft_started_example =
    due_draft_started (λ i. no_faults) (λ i. 60) 10 (db_of due) due (λ n. refl) refl refl refl refl

redact_url-address_example :
    redact_url (address (lit "amqp:") (lit "user:secret") (lit "mq:5672"))
    ≡ (lit "amqp:" ++ lit "//") ++ lit "***:***@" ++ lit "mq:5672"
unfolding trim_space trim_left trim_right is_space
redact_url-address_example =
    redact_url-address (lit "amqp:") (lit "user:secret") (lit "mq:5672") refl refl refl refl

replace_run :
    replace_all (lit "Hi {user_name}, {user_name}!") (lit "{user_name}") (lit "Al")
    ≡ lit "Hi Al, Al!"
unfolding replace_all replace_from has_prefix
replace_run = refl
