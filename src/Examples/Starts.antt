-- ===== src/Examples/Starts.antt =====
-- cmd/orchestrator, internal/worker, internal/repository and internal/logging: the broker of the outbox
-- worker, its queue, stored replies, the tenants of a tick, a record of the log and the attachment store.
use aba_go_orchestrator.Common.{
  ℕ, ◌-◌, ◌*◌, ◌≤◌, Text, lit, text_eq, trim_space, trim_right_slashes, none, some, [], ◌∷◌, ◌++◌,
  ◌+◌, List, Some, ◌↔◌, ◌⊎◌, arith, Bool, true, false, All, exists, count_where, ◌==◌, ◌≡◌, refl,
  if◌then◌else◌,
}
use aba_go_orchestrator.Domain.Status.{pending}
use aba_go_orchestrator.Domain.Models.{OutboxMessage}
use aba_go_orchestrator.Repository.Store.{Db, Result, ok, no_faults}
use aba_go_orchestrator.Repository.Queries.{
  create_reply, distinct_tenants, get_tenants_with_processing_campaigns,
}
use aba_go_orchestrator.Repository.Queries.Listed.{IsServed, tenants_listed}
use mathlib.Core.List.{Perm}
use mathlib.Core.List.Perm
use aba_go_orchestrator.Logging.{string, scalar, FieldMap, lookup}
use aba_go_orchestrator.Logging.Sink.{severity_warn, file_record}
use aba_go_orchestrator.Logging.Sink.Records.{is_reserved, file_record-lookup}
use aba_go_orchestrator.Logging.Sink
use aba_go_orchestrator.Worker.Outbox
use aba_go_orchestrator.Worker.Outbox.{acked, run}
use aba_go_orchestrator.Worker.Outbox.Drain.{IsServing, due_by, run_drains}
use aba_go_orchestrator.Worker.Outbox.Broker
use aba_go_orchestrator.Worker.Outbox.Broker.{
  Command, Server, OutboxWorker, account_send_queue, new_outbox_worker, ensure_each,
  ensure_account_queue, queues_for,
}
use aba_go_orchestrator.Worker.Outbox.Broker.Routing.{routed_to_own_queue}
use aba_go_orchestrator.Storage
use aba_go_orchestrator.Storage.{S3Store, new_s3_store, public_base, put_seaweed_http}
use aba_go_orchestrator.Storage.Addresses.{IsRaw}
use aba_go_orchestrator.Program
use aba_go_orchestrator.Logging
use aba_go_orchestrator.Program.{attachment_store}
use aba_go_orchestrator.Program.Host.{uploads_under_submit_host}
use aba_go_orchestrator.Config.{is_within_work_window}
use aba_go_orchestrator.Examples.Data.{parse, phone, config, db_with}

abbrev allows : Command → Bool
allows c = true

abbrev empty : Server
empty = record { exchanges = []; queues = []; bindings = [] }

abbrev made : Result OutboxWorker × Server
made = new_outbox_worker allows [] [] [] (lit "results") empty

abbrev worker : OutboxWorker
worker = record { send_exchange = lit "tasks.messages.direct"; traced_queues = [] }

abbrev others : OutboxWorker × Server
others = ensure_each (λ n. allows) 0 (lit "b" ∷ []) worker made.1

abbrev ensured : Result (Text × Text × OutboxWorker) × Server
ensured = ensure_account_queue allows (lit "a") others.0 others.1

abbrev worker_after_both : OutboxWorker
worker_after_both = record worker {
  traced_queues = account_send_queue (lit "b") ∷ account_send_queue (lit "a") ∷ [];
}

new_worker_run : made ≡ (ok worker, made.1)
unfolding new_outbox_worker Broker.send_exchange_of trim_space
new_worker_run = refl

ensured_worker : ensured ≡ (
  ok (account_send_queue (lit "a"), Outbox.account_routing_key (lit "a"), worker_after_both),
  ensured.1,
)
unfolding ensure_account_queue ensure_each Broker.trace_account_queue_once account_send_queue
    Outbox.account_routing_key text_eq
ensured_worker = refl

routed_to_own_queue_example :
    ((account_send_queue (lit "a") ≡ account_send_queue (lit "b")) ↔ (lit "a" ≡ lit "b"))
    × All
        (λ q. q ≡ account_send_queue (lit "a"))
        (queues_for worker_after_both.send_exchange
          (Outbox.account_routing_key (lit "a"))
          ensured.1)
    × (exists (text_eq (account_send_queue (lit "a"))) (
          queues_for worker_after_both.send_exchange
            (Outbox.account_routing_key (lit "a"))
            ensured.1)
        ≡ true)
routed_to_own_queue_example =
    routed_to_own_queue allows allows (λ n. allows) [] [] [] (lit "results") (lit "a")
      (account_send_queue (lit "a")) (Outbox.account_routing_key (lit "a")) (lit "b") (lit "b" ∷ [])
      empty made.1 others.1 ensured.1 worker others.0 worker_after_both tt new_worker_run refl
      ensured_worker

abbrev message : ℕ → OutboxMessage
message id = record {
  id = id;
  event_type = lit "message.send";
  payload = lit "{}";
  processed = false;
  tenant_id = 1;
  tenant_account_id = 3;
  publish_at = 100;
}

abbrev outside : Outbox.Outside
outside = record {
  now = 129_600_000_000_000;
  decode = λ t. record {
    task_id = lit "t";
    campaign_id = lit "c";
    tenant_id = lit "1";
    tenant_account_id = [];
    account_id = [];
    phone = phone;
    contact_type = lit "cold";
  };
  parse = parse;
  print = λ n. n ∷ [];
  equal_fold = text_eq;
  config = config;
  block_checker = none;
  marshals = λ r. true;
  takes_result = true;
  ensures = λ t. true;
  answer = acked;
}

abbrev queued : Db
queued = record (db_with pending) { outbox = message 7 ∷ message 8 ∷ [] }

outside-IsServing : IsServing outside
unfolding is_within_work_window
outside-IsServing = record {
  acks = refl;
  takes = refl;
  ensures_all = λ t. refl;
  prints = λ i. refl;
  in_window = refl;
}

-- A row for each tick, due after the horizon.
abbrev arriving : ℕ → List OutboxMessage
arriving n = record (message (9 + n)) { publish_at = 240 } ∷ []

run_drains_example :
    due_by 200
      (run
        (λ n i. outside)
        (λ n i. false)
        arriving
        (λ n. no_faults)
        (λ n. no_faults)
        (λ n. 250 + n)
        1
        queued).outbox
    ≤ due_by 200 queued.outbox - 100 * 1
run_drains_example =
    run_drains (λ n i. outside) (λ n i. false) arriving (λ n. no_faults) (λ n. no_faults)
      (λ n. 250 + n) 200 queued (λ n. omega arith) (λ n i. refl) (λ n. ((refl, omega arith), tt))
      (λ n. refl) (λ n. refl) (λ n k. outside-IsServing) (refl, (refl, tt)) 1

abbrev replied_db : Db
replied_db = (create_reply no_faults 20 (lit "yes") 70 (db_with pending)).1

one_tenant : get_tenants_with_processing_campaigns no_faults (db_with pending) ≡ ok (1 ∷ [])
unfolding get_tenants_with_processing_campaigns distinct_tenants
one_tenant = refl

tenants_listed_example :
    ((exists (λ j. j == 1) (1 ∷ []) ≡ true) ↔ Some (IsServed 1) (db_with pending).campaigns)
    × (count_where (λ j. j == 1) (1 ∷ []) ≤ 1)
tenants_listed_example = tenants_listed no_faults (db_with pending) (1 ∷ []) 1 one_tenant

abbrev log_outside : Sink.Outside
log_outside = record {
  marshal = λ m. none;
  console_time = λ t. lit "10:00";
  file_time = λ t. lit "10:00Z";
  quote = λ t. t;
  pid = 5;
  makes_directory = λ d. true;
  closes = true;
}

-- Fields that pose as the record's own.
abbrev posing : FieldMap
posing = (lit "level", string (lit "INFO")) ∷ (lit "queue", string (lit "q")) ∷ []

queue_free : is_reserved (lit "queue") ≡ false
unfolding text_eq
queue_free = refl

file_record-lookup_example :
    let m = file_record log_outside 9 severity_warn (lit "LOST") (lit "lost") posing in
    (lookup (lit "timestamp") m ≡ some (string (lit "10:00Z")))
    × (lookup (lit "level") m ≡ some (string (lit "WARN")))
    × (lookup (lit "message") m ≡ some (string (lit "lost")))
    × (lookup (lit "event") m ≡ some (string (lit "LOST")))
    × (lookup (lit "pid") m ≡ some (scalar 5))
    × (lookup (lit "queue") m ≡ lookup (lit "queue") posing)
file_record-lookup_example =
    file_record-lookup log_outside 9 severity_warn (lit "LOST") (lit "lost") (lit "queue") posing
      refl queue_free

abbrev env : Text → Text
unfolding text_eq
env key = if text_eq key (lit "SEAWEED_SUBMIT_URL") then lit "http://files:8888/in/" else []

abbrev store : S3Store
store = record {
  bucket = lit "campaign-attachments";
  public_base_url = lit "http://127.0.0.1:8333";
  public_download_url = [];
  endpoint = lit "http://127.0.0.1:8333";
  fid_upload_url = lit "http://files:8888/in/";
  use_s3_signed_put = false;
  use_seaweed_http_fid = true;
  http_public_base_url = lit "http://files:8888";
}

store_made : attachment_store true (λ t. none) env ≡ ok (some store)
unfolding attachment_store new_s3_store Program.store_config Program.endpoint_of Program.bucket_of
    Program.submit_url_of Program.derive_host Program.until_slash Logging.index_slashes
    trim_right_slashes env
store_made = refl

-- The answer of the file server to an upload.
abbrev files : Storage.Outside
unfolding text_eq
files = record {
  reads = true;
  put_object = λ key. none;
  forms = true;
  post = λ url. some (201, lit "{}");
  json = λ body name. if text_eq name (lit "fid") then lit "3,01" else [];
  with_path = λ base f. none;
}

file_put : (put_seaweed_http files store (lit "k")).0 ≡ ok (lit "http://files:8888/3,01")
unfolding put_seaweed_http Storage.address_of public_base files text_eq trim_right_slashes
file_put = refl

uploads_under_submit_host_example :
    ((rest : Text) × (lit "http://files:8888/3,01" ≡ lit "http://files:8888" ++ (lit "/" ++ rest)))
    ⊎ ((status : ℕ) × (body : Text) × (files.post store.fid_upload_url ≡ some (status, body))
        × IsRaw files body (lit "http://files:8888/3,01"))
unfolding env
uploads_under_submit_host_example =
    uploads_under_submit_host true (λ t. none) env (lit "http:") (lit "iles:8888") (lit "/in/") b'f'
      store files (lit "k") (lit "http://files:8888/3,01")
      (refl, (refl, (refl, (refl, (refl, tt)))))
      (refl, (refl, (refl, (refl, (refl, (refl, (refl, (refl, (refl, (refl, tt)))))))))) refl refl
      refl refl store_made file_put
