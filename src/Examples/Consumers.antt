-- ===== src/Examples/Consumers.antt =====
-- internal/worker/result_consumer.go: two deliveries and the end of Run.
use aba_go_orchestrator.Common.{
  ℕ, ◌≤◌, ◌<◌, Text, lit, Option, none, some, [], true, false, if◌then◌else◌, ltb, ◌≡◌, refl, ◌⊎◌,
  arith,
}
use aba_go_orchestrator.Domain.Status.{pending}
use aba_go_orchestrator.Domain.Models.{TargetResult}
use aba_go_orchestrator.Repository.Store.{ok}
use aba_go_orchestrator.Worker.Consumer.Loop.{
  ResultConsumer, Channel, full, selecting, gone, ticking, reconnect, begin, new_result_consumer,
  take_delivery, Steps, here, next, cancel, deliver, initial,
}
use aba_go_orchestrator.Worker.Consumer.Loop.Answers.{answered, waiting, answered_once}
use aba_go_orchestrator.Worker.Consumer.Loop.Stop.{are_own, count_steps, run_can_return}
use aba_go_orchestrator.Examples.Data.{db_with}
use aba_go_orchestrator.Examples.Workers.{consumer_outside, result}
use aba_go_orchestrator.Examples.Notices

abbrev broker : Channel
broker = record { opens = true; declares = true; consumes = true }

abbrev consumer : ResultConsumer
consumer = record (initial (db_with pending) none) { has_channel = true }

consumer_made : new_result_consumer broker (db_with pending) none ≡ ok consumer
unfolding new_result_consumer reconnect
consumer_made = refl

abbrev begun : ResultConsumer
begun = record consumer { flusher = ticking; is_running = true; main = selecting }

begin_run : begin broker consumer ≡ (ok tt, begun)
unfolding begin
begin_run = refl

abbrev decode : Text → Option TargetResult
decode body = some result

-- An empty body, and a result that waits for its flush.
abbrev first_taken : ResultConsumer
first_taken = take_delivery decode [] begun

abbrev second_taken : ResultConsumer
second_taken = take_delivery decode (lit "{}") first_taken

taken_steps : Steps begun second_taken
unfolding take_delivery
taken_steps = next (next here (deliver decode [] refl refl)) (deliver decode (lit "{}") refl refl)

second_received : 1 < second_taken.received
unfolding take_delivery
second_received = omega arith

second_free : second_taken.stuck ≡ false
unfolding take_delivery
second_free = refl

answered_once_example :
    (answered 1 second_taken ≡ 1)
    ⊎ ((second_taken.main ≡ full) × (answered 1 second_taken ≡ 0) × (waiting 1 second_taken ≡ 1))
answered_once_example =
    answered_once broker broker (db_with pending) none consumer begun second_taken 1 consumer_made
      begin_run taken_steps second_received

-- The context is cancelled while the result waits.
abbrev told : ResultConsumer
told = record second_taken { cancelled = true }

run_can_return_example :
    (end : ResultConsumer) × (q : Steps told end) × (are_own q ≡ true)
    × (count_steps q ≤ 4)
    × (end.main ≡ gone)
    × ((i : ℕ) → answered i end ≡ (if ltb i end.received then 1 else 0))
run_can_return_example =
    run_can_return broker broker (db_with pending) none consumer begun told consumer_outside
      Notices.outside consumer_made begin_run (next taken_steps cancel) refl second_free
      (refl, λ i. refl)
