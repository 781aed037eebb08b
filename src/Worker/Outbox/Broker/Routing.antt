-- ===== src/Worker/Outbox/Broker/Routing.antt =====
-- internal/worker/outbox.go: which queues the messages of an account come into.
use aba_go_orchestrator.Common.{
  ℕ, ◌+◌, Text, text_eq, text_eq_iff, text_eq_refl, is_empty, Bool, true, false, ◌&&◌, List, [],
  ◌∷◌, ◌++◌, exists, select, drop, map, All, if◌then◌else◌, ◌≡◌, ◌↔◌, refl, sym, ap, ◌∙◌, subst,
  arith, Bool-cases, inl, inr,
}
use aba_go_orchestrator.Repository.Store.{Result, ok, err}
use aba_go_orchestrator.Worker.Outbox.{account_routing_key}
use aba_go_orchestrator.Worker.Outbox.Broker.{
  Binding, Server, Command, open_channel, confirm, declare_exchange, declare_queue, bind,
  add_binding, same_binding, carry_out, command, then_command, declare_queues, OutboxWorker,
  account_send_queue, new_outbox_worker, send_exchange_of, ensure_account_queue, worker_after,
  ensure_each, queues_for, trace_account_queue_once,
}

-- A binding from the key of an account to the queue of this account.
abbrev pub IsOwn : Binding → Type 0
IsOwn b = (id : Text) × (b.queue ≡ account_send_queue id) × (b.key ≡ account_routing_key id)

abbrev pub AreOwn : Server → Type 0
AreOwn s = All IsOwn s.bindings

All-snoc :
    {A : Type 0} (P : A → Type 0) (xs : List A) (x : A) → All P xs → P x → All P (xs ++ x ∷ [])
All-snoc P [] x h k = (k, tt)
All-snoc P (y ∷ ys) x h k = (h.0, All-snoc P ys x h.1 k)

add_binding-IsOwn :
    (b : Binding) (bs : List Binding) → IsOwn b → All IsOwn bs → All IsOwn (add_binding b bs)
add_binding-IsOwn b bs own h = either (exists (same_binding b) bs)
  where
    either : (c : Bool) → All IsOwn (if c then bs else bs ++ b ∷ [])
    either true = h
    either false = All-snoc IsOwn bs b h own

then_command-AreOwn {ℓ} :
    {A : Type ℓ} (r : Result (Unit {0}) × Server) (k : Server → Result A × Server)
    → AreOwn r.1
    → ((s : Server) → AreOwn s → AreOwn (k s).1)
    → AreOwn (then_command r k).1
then_command-AreOwn (ok u, s) k h onward = onward s h
then_command-AreOwn (err e, s) k h onward = h

command-AreOwn :
    (allows : Command → Bool) (c : Command) (s : Server)
    → AreOwn (carry_out c s)
    → AreOwn s
    → AreOwn (command allows c s).1
command-AreOwn allows c s h k = elim (Bool-cases (allows c)) [ inl e ↦ rw e h | inr e ↦ rw e k ]

either-AreOwn {ℓ} :
    {A : Type ℓ} (b : Bool) (r q : Result A × Server)
    → AreOwn r.1
    → AreOwn q.1
    → AreOwn (if b then r else q).1
either-AreOwn true r q h k = h
either-AreOwn false r q h k = k

declare_queues-AreOwn :
    (allows : Command → Bool) (qs : List Text) (s : Server)
    → AreOwn s
    → AreOwn (declare_queues allows qs s).1
declare_queues-AreOwn allows [] s h = h
declare_queues-AreOwn allows (q ∷ qs) s h =
    let first = command allows (declare_queue q) s in
    either-AreOwn (is_empty q) (declare_queues allows qs s)
      (then_command first (declare_queues allows qs)) (declare_queues-AreOwn allows qs s h)
      (then_command-AreOwn first (declare_queues allows qs)
        (command-AreOwn allows (declare_queue q) s h h) (declare_queues-AreOwn allows qs))

new_outbox_worker-AreOwn :
    (allows : Command → Bool) (configured queue_name warm_queue_name results_queue : Text)
    (s : Server)
    → AreOwn s
    → AreOwn (new_outbox_worker allows configured queue_name warm_queue_name results_queue s).1
unfolding new_outbox_worker
new_outbox_worker-AreOwn allows configured queue_name warm_queue_name results_queue s h =
    let exchange = declare_exchange (send_exchange_of configured) in
    then_command-AreOwn (command allows open_channel s) _ (command-AreOwn allows open_channel s h h)
      (λ s1 h1.
        then_command-AreOwn (command allows exchange s1) _ (command-AreOwn allows exchange s1 h1 h1)
          (λ s2 h2.
            then_command-AreOwn
              (declare_queues allows (queue_name ∷ warm_queue_name ∷ results_queue ∷ [])
                (command allows confirm s2).1)
              _
              (declare_queues-AreOwn allows (queue_name ∷ warm_queue_name ∷ results_queue ∷ [])
                (command allows confirm s2).1 (command-AreOwn allows confirm s2 h2 h2))
              (λ s3 h3. h3)))

ensure_account_queue-AreOwn :
    (allows : Command → Bool) (id : Text) (w : OutboxWorker) (s : Server)
    → AreOwn s
    → AreOwn (ensure_account_queue allows id w s).1
unfolding ensure_account_queue
ensure_account_queue-AreOwn allows id w s h =
    let queue = account_send_queue id in
    let b : Binding = record {
      queue = queue;
      key = account_routing_key id;
      exchange = w.send_exchange;
    } in
    then_command-AreOwn (command allows (declare_queue queue) s) _
      (command-AreOwn allows (declare_queue queue) s h h)
      (λ s1 h1.
        then_command-AreOwn (command allows (bind b) s1) _
          (command-AreOwn allows (bind b) s1 (add_binding-IsOwn b s1.bindings (id, refl, refl) h1)
            h1)
          (λ s2 h2. h2))

worker_after-server :
    (w : OutboxWorker) (r : Result (Text × Text × OutboxWorker) × Server)
    → (worker_after w r).1 ≡ r.1
worker_after-server w (err e, s) = refl
worker_after-server w (ok (q, k, w'), s) = refl

ensure_each-AreOwn :
    (allows : ℕ → Command → Bool) (n : ℕ) (ids : List Text) (w : OutboxWorker) (s : Server)
    → AreOwn s
    → AreOwn (ensure_each allows n ids w s).1
unfolding ensure_each
ensure_each-AreOwn allows n [] w s h = h
ensure_each-AreOwn allows n (id ∷ ids) w s h =
    let r = ensure_account_queue (allows n) id w s in
    ensure_each-AreOwn allows (n + 1) ids (worker_after w r).0 (worker_after w r).1 (
      subst AreOwn (sym (worker_after-server w r))
        (ensure_account_queue-AreOwn (allows n) id w s h))

key_injective : (i j : Text) → account_routing_key i ≡ account_routing_key j → i ≡ j
unfolding account_routing_key
key_injective i j h = ap (drop 8) h

queue_injective : (i j : Text) → account_send_queue i ≡ account_send_queue j → i ≡ j
unfolding account_send_queue
queue_injective i j h = ap (drop 28) h

module _ (exchange : Text) (id : Text) where
  abbrev hits : Binding → Bool
  hits b = text_eq exchange b.exchange && text_eq (account_routing_key id) b.key

  hit_own : (b : Binding) → IsOwn b → hits b ≡ true → b.queue ≡ account_send_queue id
  hit_own b (j, q, k) h =
      let same_key : text_eq (account_routing_key id) b.key ≡ true = ground (arith, h) in
      let same : account_routing_key id ≡ b.key =
        (text_eq_iff (account_routing_key id) b.key).0 same_key in
      q ∙ ap account_send_queue (sym (key_injective id j (same ∙ k)))

  own_queues :
      (bs : List Binding)
      → All IsOwn bs
      → All (λ q. q ≡ account_send_queue id) (map (λ b. b.queue) (select hits bs))
  own_queues [] h = tt
  own_queues (b ∷ bs) h = either (hits b) (hit_own b h.0) (own_queues bs h.1)
    where
      either :
          (c : Bool)
          → (c ≡ true → b.queue ≡ account_send_queue id)
          → All (λ q. q ≡ account_send_queue id) (map (λ b. b.queue) (select hits bs))
          → All
              (λ q. q ≡ account_send_queue id)
              (map (λ b. b.queue) (if c then b ∷ select hits bs else select hits bs))
      either true h rest = (h refl, rest)
      either false h rest = rest

  abbrev own_binding : Binding
  own_binding = record {
    queue = account_send_queue id;
    key = account_routing_key id;
    exchange = exchange;
  }

  found_binding :
      (bs : List Binding)
      → exists (same_binding own_binding) bs ≡ true
      → exists (text_eq (account_send_queue id)) (map (λ b. b.queue) (select hits bs)) ≡ true
  found_binding [] h = cc
  found_binding (b ∷ bs) h = ground (arith, h, found_binding bs)

  added_binding :
      (bs : List Binding) → exists (same_binding own_binding) (bs ++ own_binding ∷ []) ≡ true
  added_binding [] =
      rw
        (
          text_eq_refl (account_send_queue id),
          text_eq_refl (account_routing_key id),
          text_eq_refl exchange,
        )
        refl
  added_binding (b ∷ bs) = ground (arith, added_binding bs)

  bound :
      (bs : List Binding)
      → exists
          (text_eq (account_send_queue id))
          (map (λ b. b.queue) (select hits (add_binding own_binding bs)))
        ≡ true
  bound bs = elim (Bool-cases (exists (same_binding own_binding) bs)) [
    | inl e ↦ rw e (found_binding bs e)
    | inr e ↦ rw e (found_binding (bs ++ own_binding ∷ []) (added_binding bs))
  ]

ensured :
    (allows : Command → Bool) (id queue key : Text) (w w' : OutboxWorker) (s s' : Server)
    → ensure_account_queue allows id w s ≡ (ok (queue, key, w'), s')
    → (queue ≡ account_send_queue id)
      × (key ≡ account_routing_key id)
      × (w'.send_exchange ≡ w.send_exchange)
      × (s'.bindings ≡ add_binding (own_binding w.send_exchange id) s.bindings)
unfolding ensure_account_queue trace_account_queue_once
ensured allows id queue key w w' s s' h = ground (arith, h)

-- On a broker whose bindings all lead from the key of an account to the queue of the same account, after
-- the outbox worker was made and the queues of any accounts were ensured with any commands refused: where
-- the queue of an account is ensured, what is published under the key it returns comes into the queue it
-- returns and into no other. This queue is the one of this account, and of no other account.
pub routed_to_own_queue :
    (allows allows' : Command → Bool) (other : ℕ → Command → Bool)
    (configured queue_name warm_queue_name results_queue id queue key other_id : Text)
    (ids : List Text) (s0 s1 s2 s3 : Server) (w1 w2 w3 : OutboxWorker)
    → AreOwn s0
    → new_outbox_worker allows configured queue_name warm_queue_name results_queue s0 ≡ (ok w1, s1)
    → ensure_each other 0 ids w1 s1 ≡ (w2, s2)
    → ensure_account_queue allows' id w2 s2 ≡ (ok (queue, key, w3), s3)
    → ((queue ≡ account_send_queue other_id) ↔ (id ≡ other_id))
      × All (λ q. q ≡ queue) (queues_for w3.send_exchange key s3)
      × (exists (text_eq queue) (queues_for w3.send_exchange key s3) ≡ true)
unfolding queues_for
routed_to_own_queue allows allows' other configured queue_name warm_queue_name results_queue id
      queue key other_id ids s0 s1 s2 s3 w1 w2 w3 own h k e =
    let (q, y, x, bs) = ensured allows' id queue key w2 w3 s2 s3 e in
    let own1 : AreOwn s1 = subst AreOwn (ap (λ r. r.1) h) (
      new_outbox_worker-AreOwn allows configured queue_name warm_queue_name results_queue s0 own) in
    let own2 : AreOwn s2 =
      subst AreOwn (ap (λ r. r.1) k) (ensure_each-AreOwn other 0 ids w1 s1 own1) in
    let own3 : All IsOwn s3.bindings =
      subst (All IsOwn) (sym bs)
        (add_binding-IsOwn (own_binding w2.send_exchange id) s2.bindings (id, refl, refl) own2) in
    (
      (λ o. queue_injective id other_id (sym q ∙ o), λ o. q ∙ ap account_send_queue o),
      rw (q, y) (own_queues w3.send_exchange id s3.bindings own3),
      rw (q, y, x, bs) (bound w2.send_exchange id s2.bindings),
    )
