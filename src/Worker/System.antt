-- ===== src/Worker/System.antt =====
-- internal/worker, internal/usecase and internal/transport: the doser, the result consumer, the
-- scheduler, the uploads and the webhooks on one database, with the cursors of the doser, the blocklist
-- of the consumer and the uploaded files. An event is a tick, a batch, a check, an upload, a callback or
-- a list of replies, with all that it meets outside.
use aba_go_orchestrator.Common.{ℕ, Text, Bool, Option, some, List, [], ◌∷◌}
use aba_go_orchestrator.Domain.Models.{TargetResult}
use aba_go_orchestrator.Repository.Store.{Db, Faults}
use aba_go_orchestrator.Config.{Config}
use aba_go_orchestrator.Worker.Cache.{Cache}
use aba_go_orchestrator.Worker.Accounts.{Cursors}
use aba_go_orchestrator.Worker.Doser.{dose_all_tenants}
use aba_go_orchestrator.Worker.Schedule.{Doser}
use aba_go_orchestrator.Worker.Consumer.{Consumer}
use aba_go_orchestrator.Worker.Consumer.Flush.{flush}
use aba_go_orchestrator.Worker.Scheduler.{check_and_start_campaigns}
use aba_go_orchestrator.Usecase.Upload.{Upload, Disk, upload_campaign}
use aba_go_orchestrator.Usecase.Upload
use aba_go_orchestrator.Transport.{Parsers}
use aba_go_orchestrator.Transport.Hub.{Hub}
use aba_go_orchestrator.Transport.Webhooks.{
  Callback, Reply, Replying, worker_callback, replies_webhook,
}
use aba_go_orchestrator.Worker.Schedule
use aba_go_orchestrator.Worker.Consumer

pub record System : Type 0 where
  pub db : Db
  pub cursors : Cursors
  pub blocklist : Option Cache
  pub files : Text → Bool

pub data Event : Type 0 where
  tick : (ℕ → Schedule.Outside) → (ℕ → ℕ) → List ℕ → Event
  batch : (ℕ → Consumer.Outside) → List TargetResult → Event
  check : (ℕ → Faults) → (ℕ → ℕ) → Event
  upload : Upload.Outside → Upload → Event
  callback : Parsers → Faults → Faults → ℕ → Hub → Callback → Event
  replies : Parsers → Replying → Hub → Option (ℕ × List Reply) → Event

abbrev after_tick : System → Doser → System
after_tick s d = record s { db = d.db; cursors = d.cursors }

abbrev after_batch : System → Consumer → System
after_batch s k = record s { db = k.db; blocklist = k.blocklist }

abbrev after_upload : System → Disk → System
after_upload s d = record s { db = d.db; files = d.files }

abbrev pub happen : Config → Event → System → System
happen c (tick o time tenants) s =
    after_tick s (dose_all_tenants o c time 0 tenants (record { db = s.db; cursors = s.cursors }))
happen c (batch o rs) s = after_batch s (flush o rs s.db s.blocklist).1
happen c (check f now) s = record s { db = (check_and_start_campaigns f now s.db).1 }
happen c (upload o u) s =
    after_upload s (upload_campaign c o u (record { db = s.db; files = s.files })).1
happen c (callback p f g now h k) s = record s {
  db = (worker_callback p f g now h (some k) s.db).db;
}
happen c (replies p o h body) s = record s { db = (replies_webhook p o h body s.db).db }

abbrev pub run : Config → List Event → System → System
run c [] s = s
run c (e ∷ es) s = run c es (happen c e s)
