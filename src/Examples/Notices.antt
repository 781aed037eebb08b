-- ===== src/Examples/Notices.antt =====
-- internal/worker/result_consumer.go: the notification of a tenant's admins after a batch.
use aba_go_orchestrator.Common.{none, Text, lit, some, List, [], ◌∷◌, true, false, All}
use aba_go_orchestrator.Domain.Status.{pending}
use aba_go_orchestrator.Domain.Models.{ClientReplyInfo}
use aba_go_orchestrator.Repository.Store.{no_faults}
use aba_go_orchestrator.Worker.Consumer.{ObservedReply, Consumer}
use aba_go_orchestrator.Worker.Consumer.Notify.{notify}
use aba_go_orchestrator.Worker.Consumer.Notify
use aba_go_orchestrator.Worker.Consumer.Notify.Routes.{Routed, notify-IsRouted}
use aba_go_orchestrator.Examples.Data.{db_with}

abbrev pub outside : Notify.Outside
outside = record {
  uuid_string = λ i. i ∷ [];
  marshal = λ t. some t.tenant_phone;
  cancelled = λ n. false;
  has_channel = true;
  declares = λ q. true;
  publishes = λ n. true;
  tenant_faults = λ i. no_faults;
  mapping_faults = λ i. no_faults;
}

abbrev info : Text → ClientReplyInfo
info message = record {
  user_phone = lit "9123456789";
  user_name = lit "Anna";
  message = message;
  time = 5;
}

abbrev observed : List ObservedReply
observed =
    record { tenant_id = 1; tenant_account_id = 3; reply = info (lit "yes") }
    ∷ record { tenant_id = 1; tenant_account_id = 0; reply = info (lit "no") }
    ∷ []

abbrev consumer : Consumer
consumer = record { db = db_with pending; blocklist = none; observed = observed }

notify-IsRouted_example :
    All (Routed outside (db_with pending) observed) (notify outside consumer).published
notify-IsRouted_example = notify-IsRouted outside consumer
