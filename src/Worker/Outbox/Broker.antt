-- ===== src/Worker/Outbox/Broker.antt =====
-- internal/worker/outbox.go: NewOutboxWorker and ensureAccountQueue, on a broker with exchanges, queues
-- and bindings. `allows` says whether the broker carries a command out; a declaration of what is there
-- already changes nothing.
pub mod Routing
use aba_go_orchestrator.Common.{
  ℕ, ◌+◌, Text, lit, text_eq, is_empty, trim_space, Bool, true, false, ◌&&◌, not, List, [], ◌∷◌,
  ◌++◌, exists, select, map, if◌then◌else◌,
}
use aba_go_orchestrator.Repository.Store.{Result, ok, err, db_error, ◌>>=◌}
use aba_go_orchestrator.Worker.Outbox.{account_routing_key}

abbrev pub queue_send : Text
queue_send = lit "tasks.messages.send"

abbrev pub queue_send_existing_chat : Text
queue_send_existing_chat = lit "tasks.messages.send_existing_chat"

unfoldable pub account_send_queue : Text → Text
account_send_queue id = lit "tasks.messages.send.account." ++ id

pub record Binding : Type 0 where
  pub queue : Text
  pub key : Text
  pub exchange : Text

pub record Server : Type 0 where
  pub exchanges : List Text
  pub queues : List Text
  pub bindings : List Binding

pub data Command : Type 0 where
  open_channel confirm : Command
  declare_exchange declare_queue : Text → Command
  bind : Binding → Command

abbrev pub add_text : Text → List Text → List Text
add_text t ts = if exists (text_eq t) ts then ts else ts ++ t ∷ []

abbrev same_binding : Binding → Binding → Bool
same_binding b c = text_eq b.queue c.queue && text_eq b.key c.key && text_eq b.exchange c.exchange

abbrev pub add_binding : Binding → List Binding → List Binding
add_binding b bs = if exists (same_binding b) bs then bs else bs ++ b ∷ []

abbrev pub carry_out : Command → Server → Server
carry_out open_channel s = s
carry_out confirm s = s
carry_out (declare_exchange x) s = record s { exchanges = add_text x s.exchanges }
carry_out (declare_queue q) s = record s { queues = add_text q s.queues }
carry_out (bind b) s = record s { bindings = add_binding b s.bindings }

-- A command and what it leaves.
abbrev pub command : (Command → Bool) → Command → Server → Result (Unit {0}) × Server
command allows c s = if allows c then (ok tt, carry_out c s) else (err db_error, s)

-- The next command where there was no error.
abbrev pub then_command {ℓ} :
    {A : Type ℓ} → Result (Unit {0}) × Server → (Server → Result A × Server) → Result A × Server
then_command (ok u, s) k = k s
then_command (err e, s) k = (err e, s)

abbrev pub declare_queues : (Command → Bool) → List Text → Server → Result (Unit {0}) × Server
declare_queues allows [] s = (ok tt, s)
declare_queues allows (q ∷ qs) s =
    if is_empty q
    then declare_queues allows qs s
    else then_command (command allows (declare_queue q) s) (declare_queues allows qs)

-- The state of the worker that depends on the broker.
pub record OutboxWorker : Type 0 where
  pub send_exchange : Text
  pub traced_queues : List Text

unfoldable pub send_exchange_of : Text → Text
unfolding trim_space
send_exchange_of configured =
    let x = trim_space configured in if is_empty x then lit "tasks.messages.direct" else x

-- An error of the confirm mode is only logged.
unfoldable pub new_outbox_worker :
    (Command → Bool) → Text → Text → Text → Text → Server → Result OutboxWorker × Server
unfolding send_exchange_of
new_outbox_worker allows configured queue_name warm_queue_name results_queue s =
    let exchange = send_exchange_of configured in
    then_command (command allows open_channel s) λ s1.
      then_command (command allows (declare_exchange exchange) s1) λ s2.
        then_command
          (declare_queues allows (queue_name ∷ warm_queue_name ∷ results_queue ∷ [])
            (command allows confirm s2).1)
          λ s3. (ok (record { send_exchange = exchange; traced_queues = [] }), s3)

-- traceAccountQueueOnce: the queues whose binding is logged, each at its first time.
unfoldable pub trace_account_queue_once : Text → OutboxWorker → OutboxWorker
trace_account_queue_once queue w = record w { traced_queues = add_text queue w.traced_queues }

-- The queue and the routing key of an account, and the worker that has traced them.
unfoldable pub ensure_account_queue :
    (Command → Bool) → Text → OutboxWorker → Server → Result (Text × Text × OutboxWorker) × Server
unfolding account_send_queue account_routing_key trace_account_queue_once
ensure_account_queue allows id w s =
    let key = account_routing_key id in
    let queue = account_send_queue id in
    then_command (command allows (declare_queue queue) s) λ s1.
      then_command
        (command allows (bind (record { queue = queue; key = key; exchange = w.send_exchange })) s1)
        λ s2. (ok (queue, key, trace_account_queue_once queue w), s2)

-- The queues that a direct exchange hands a message to.
unfoldable pub queues_for : Text → Text → Server → List Text
queues_for exchange key s =
    map (λ b. b.queue) (select (λ b. text_eq exchange b.exchange && text_eq key b.key) s.bindings)

abbrev worker_after :
    OutboxWorker → Result (Text × Text × OutboxWorker) × Server → OutboxWorker × Server
worker_after w (err e, s) = (w, s)
worker_after w (ok (queue, key, w'), s) = (w', s)

-- The queues of several accounts, one after the other; `allows n` is what the broker does to the n-th.
unfoldable pub ensure_each :
    (ℕ → Command → Bool) → ℕ → List Text → OutboxWorker → Server → OutboxWorker × Server
unfolding ensure_account_queue
ensure_each allows n [] w s = (w, s)
ensure_each allows n (id ∷ ids) w s =
    let (w', s') = worker_after w (ensure_account_queue (allows n) id w s) in
    ensure_each allows (n + 1) ids w' s'
