-- ===== src/Worker/Consumer/Loop.antt =====
-- internal/worker/result_consumer.go: NewResultConsumer, reconnect, Run and flushLoop, two goroutines
-- that share the queue of results under a mutex, as a step relation. The tag of a delivery is its
-- number; the broker, the clock and the decoder are parameters of the steps.
pub mod Answers
pub mod Blocking
pub mod Stop
use aba_go_orchestrator.Common.{
  ℕ, ◌+◌, Text, is_empty, is_some, leb, length, Bool, true, false, ◌&&◌, ◌||◌, Option, none, some,
  List, [], ◌∷◌, ◌++◌, if◌then◌else◌, ◌≡◌,
}
use aba_go_orchestrator.Domain.Models.{TargetResult}
use aba_go_orchestrator.Repository.Store.{Db, Result, ok, err, db_error}
use aba_go_orchestrator.Worker.Cache.{Cache}
use aba_go_orchestrator.Worker.Consumer.{Outside, Consumer, Verdict, ack}
use aba_go_orchestrator.Worker.Consumer.Flush.{flush}
use aba_go_orchestrator.Worker.Consumer.Notify.{
  Notification, Progress, running, returned, blocked, notify,
}
use aba_go_orchestrator.Worker.Consumer.Notify

abbrev pub batch_size : ℕ
batch_size = 1

-- queuedResult.
pub record QueuedResult : Type 0 where
  pub tag : ℕ
  pub result : TargetResult

-- Where Run is: before its first loop, at its select, before the flush of a full batch, waiting for
-- flushLoop after the cancellation, or behind its return.
pub data Main : Type 0 where
  not_started selecting full stopping gone : Main

-- Where flushLoop is.
pub data Flusher : Type 0 where
  absent ticking finished : Flusher

-- `stuck`: a flush holds the mutex and never returns. `received` counts the deliveries taken.
pub record ResultConsumer : Type 0 where
  pub has_channel : Bool
  pub is_running : Bool
  pub main : Main
  pub flusher : Flusher
  pub cancelled : Bool
  pub stopped : Bool
  pub stuck : Bool
  pub received : ℕ
  pub results : List QueuedResult
  pub verdicts : List (ℕ × Verdict)
  pub published : List Notification
  pub db : Db
  pub blocklist : Option Cache

-- What the broker lets happen.
pub record Channel : Type 0 where
  pub opens : Bool
  pub declares : Bool
  pub consumes : Bool

-- The new channel is kept only if the queue is declared on it.
unfoldable pub reconnect : Channel → ResultConsumer → Result (Unit {0}) × ResultConsumer
reconnect b s =
    if b.opens && b.declares then (ok tt, record s { has_channel = true }) else (err db_error, s)

abbrev pub initial : Db → Option Cache → ResultConsumer
initial db blocklist = record {
  has_channel = false;
  is_running = false;
  main = not_started;
  flusher = absent;
  cancelled = false;
  stopped = false;
  stuck = false;
  received = 0;
  results = [];
  verdicts = [];
  published = [];
  db = db;
  blocklist = blocklist;
}

abbrev pub constructed : Result (Unit {0}) × ResultConsumer → Result ResultConsumer
constructed (ok u, s) = ok s
constructed (err e, s) = err e

unfoldable pub new_result_consumer : Channel → Db → Option Cache → Result ResultConsumer
unfolding reconnect
new_result_consumer b db blocklist = constructed (reconnect b (initial db blocklist))

-- The part of Run before its loop. flushLoop is started first, and an error does not end it.
unfoldable pub begin : Channel → ResultConsumer → Result (Unit {0}) × ResultConsumer
begin b s =
    let s' = record s { flusher = ticking } in
    if s.is_running
    then (ok tt, s)
    else if b.opens && b.declares && b.consumes
    then (ok tt, record s' { is_running = true; main = selecting })
    else (err db_error, record s' { main = gone })

abbrev pub queue : TargetResult → ResultConsumer → ResultConsumer
queue r s =
    let results = s.results ++ record { tag = s.received; result = r } ∷ [] in
    record s {
      received = s.received + 1;
      results = results;
      main = if leb batch_size (length results) then full else selecting;
    }

abbrev pub skip : ResultConsumer → ResultConsumer
skip s = record s { received = s.received + 1; verdicts = s.verdicts ++ (s.received, ack) ∷ [] }

abbrev pub queue_or_skip : Option TargetResult → ResultConsumer → ResultConsumer
queue_or_skip none s = skip s
queue_or_skip (some r) s = queue r s

abbrev pub decoded : (Text → Option TargetResult) → Text → Option TargetResult
decoded decode body = if is_empty body then none else decode body

-- A delivery: an empty body and one that is no JSON of a result are acknowledged.
unfoldable pub take_delivery : (Text → Option TargetResult) → Text → ResultConsumer → ResultConsumer
take_delivery decode body s = queue_or_skip (decoded decode body) s

abbrev pub answer_all : List QueuedResult → List Verdict → List (ℕ × Verdict)
answer_all [] vs = []
answer_all (q ∷ qs) [] = []
answer_all (q ∷ qs) (v ∷ vs) = (q.tag, v) ∷ answer_all qs vs

abbrev pub results_of : List QueuedResult → List TargetResult
results_of [] = []
results_of (q ∷ qs) = q.result ∷ results_of qs

abbrev pub blocks_for_ever : Progress → Bool
blocks_for_ever blocked = true
blocks_for_ever running = false
blocks_for_ever returned = false

abbrev pub after_flush :
    Notify.Outside → List QueuedResult → ResultConsumer → List Verdict × Consumer → ResultConsumer
after_flush n qs s (vs, k) = record s {
  results = [];
  verdicts = s.verdicts ++ answer_all qs vs;
  published = s.published ++ (notify n k).published;
  stuck = blocks_for_ever (notify n k).progress;
  db = k.db;
  blocklist = k.blocklist;
}

abbrev pub flush_list :
    (ℕ → Outside) → Notify.Outside → List QueuedResult → ResultConsumer → ResultConsumer
flush_list o n [] s = s
flush_list o n (q ∷ qs) s =
    after_flush n (q ∷ qs) s (flush o (results_of (q ∷ qs)) s.db s.blocklist)

-- flush, under the mutex.
unfoldable pub flush_queue : (ℕ → Outside) → Notify.Outside → ResultConsumer → ResultConsumer
flush_queue o n s = flush_list o n s.results s

-- Run after the append that made the batch full.
unfoldable pub flush_full : (ℕ → Outside) → Notify.Outside → ResultConsumer → ResultConsumer
unfolding flush_queue
flush_full o n s =
    let s' = flush_queue o n s in record s' { main = if s'.stuck then full else selecting }

-- flushLoop on the signal to stop or the end of the context.
unfoldable pub flush_last : (ℕ → Outside) → Notify.Outside → ResultConsumer → ResultConsumer
unfolding flush_queue
flush_last o n s =
    let s' = flush_queue o n s in record s' { flusher = if s'.stuck then ticking else finished }

abbrev pub return_from_run : ResultConsumer → ResultConsumer
return_from_run s = record s { main = gone; is_running = false }

pub data Step (s : ResultConsumer) : ResultConsumer → Type 0 where
  cancel : Step s (record s { cancelled = true })
  deliver :
      (decode : Text → Option TargetResult) (body : Text)
      → s.main ≡ selecting
      → is_some (decoded decode body) && s.stuck ≡ false
      → Step s (take_delivery decode body s)
  fill :
      (o : ℕ → Outside) (n : Notify.Outside)
      → s.main ≡ full
      → s.stuck ≡ false
      → Step s (flush_full o n s)
  -- The channel of the deliveries is closed; stopChan stays open.
  close : s.main ≡ selecting → Step s (return_from_run s)
  stop :
      s.main ≡ selecting
      → s.cancelled ≡ true
      → Step s (record s { main = stopping; stopped = true })
  wait : s.main ≡ stopping → s.flusher ≡ finished → Step s (return_from_run s)
  tick :
      (o : ℕ → Outside) (n : Notify.Outside)
      → s.flusher ≡ ticking
      → s.stuck ≡ false
      → Step s (flush_queue o n s)
  last :
      (o : ℕ → Outside) (n : Notify.Outside)
      → s.flusher ≡ ticking
      → s.stuck ≡ false
      → s.stopped || s.cancelled ≡ true
      → Step s (flush_last o n s)

pub data Steps (s : ResultConsumer) : ResultConsumer → Type 0 where
  here : Steps s s
  next : {s' s'' : ResultConsumer} → Steps s s' → Step s' s'' → Steps s s''
