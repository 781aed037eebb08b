-- ===== src/Worker/Outbox/Delivery.antt =====
-- internal/worker/outbox.go: which messages leave, and which rows are marked.
use aba_go_orchestrator.Common.{
  ℕ, ◌+◌, Text, lit, text_eq, text_eq_iff, is_empty, is_some, ◌==◌, Bool, true, false, not, ◌&&◌,
  Option, none, some, List, [], ◌∷◌, first, first-update, first_sound, exists, All, if◌then◌else◌,
  ◌≡◌, ◌≢◌, ◌↔◌, refl, sym, subst, ap, ◌∙◌, inl, inr, ◌⊎◌, arith, Bool-cases,
}
use aba_go_orchestrator.Domain.Models.{OutboxMessage, TargetResult}
use aba_go_orchestrator.Repository.Store.{Db, Result, ok, err, Faults}
use aba_go_orchestrator.Config.{is_within_work_window}
use aba_go_orchestrator.Worker.Cache.{Cache, is_blocked}
use aba_go_orchestrator.Worker.Outbox.{
  SendTask, Outside, Answer, refused_publish, unconfirmed_mode, wait_failed, nacked, acked, Outcome,
  left, refused, confirmed, Entry, refusal, refuse_or_publish, publish, resolve_tenant_account_id,
  account_routing_key, process_message, mark, blocked_result, processed_ids,
  mark_as_processed_batch, process_messages, get_pending_messages, process_each, with_messages,
}

abbrev pub has_id : ℕ → OutboxMessage → Bool
has_id i m = m.id == i

abbrev pub handles : ℕ → Entry → Bool
handles i e = e.0 == i && e.1.is_handled

ids-handles :
    (i : ℕ) (es : List Entry) → exists (λ j. j == i) (processed_ids es) ≡ exists (handles i) es
ids-handles i [] = refl
ids-handles i (e ∷ es) = ground (arith, ids-handles i es)

marked_row :
    (g : Faults) (ids : List ℕ) (db : Db) (i : ℕ) (m : OutboxMessage)
    → first (has_id i) db.outbox ≡ some m
    → first (has_id i) (mark_as_processed_batch g ids db).1.outbox
      ≡ some (if not (g 0) && exists (λ j. j == i) ids then mark m else m)
unfolding mark_as_processed_batch
marked_row g [] db i m h = elim (Bool-cases (g 0)) [ inl e ↦ rw e h | inr e ↦ rw e h ]
marked_row g (j ∷ ids) db i m h = elim (Bool-cases (g 0)) [
  | inl e ↦ rw e h
  | inr e ↦
      let same : m.id ≡ i = ground (arith, first_sound (has_id i) db.outbox m h) in
      rw
        (
          e,
          first-update (λ k. exists (λ l. l == k.id) (j ∷ ids)) (has_id i) mark db.outbox
              (λ a. refl),
          h,
        )
        (ap (λ k. some (if exists (λ l. l == k) (j ∷ ids) then mark m else m)) same)
]

with_messages_row :
    (o : ℕ → Outside) (g : Faults) (db : Db) (r : Result (List OutboxMessage)) (i : ℕ)
    (m : OutboxMessage)
    → first (has_id i) db.outbox ≡ some m
    → let (entries, db') = with_messages o g db r in
      first (has_id i) db'.outbox
      ≡ some (if not (g 0) && exists (handles i) entries then mark m else m)
unfolding mark_as_processed_batch
with_messages_row o g db (err e) i m h = marked_row g [] db i m h
with_messages_row o g db (ok ms) i m h =
    let entries = process_each o 0 ms in
    marked_row g (processed_ids entries) db i m h
    ∙ ap (λ b. some (if not (g 0) && b then mark m else m)) (ids-handles i entries)

-- A message that is handed over: it is not a cold one outside the window, and either the broker takes the
-- result of its refusal, or there is no refusal, the queue of its account is there, and the broker
-- acknowledges the message or is not in the mode in which it would.
abbrev pub IsHandedOver : Outside → OutboxMessage → Type 0
IsHandedOver o m =
    let task = o.decode m.payload in
    let account = resolve_tenant_account_id o m task in
    ((o.equal_fold task.contact_type (lit "cold") && not (is_within_work_window o.config o.now))
      ≡ false)
    × (((is_some (refusal o task) ≡ true) × (o.takes_result ≡ true))
        ⊎ ((is_some (refusal o task) ≡ false)
            × (is_empty account ≡ false)
            × (o.ensures account ≡ true)
            × ((o.answer ≡ acked) ⊎ (o.answer ≡ unconfirmed_mode))))

-- One of these messages has the id and is handed over.
abbrev pub HandedOver : (ℕ → Outside) → ℕ → ℕ → List OutboxMessage → Type 0
HandedOver o k i [] = ⊥
HandedOver o k i (n ∷ ns) = ((n.id ≡ i) × IsHandedOver (o k) n) ⊎ HandedOver o (k + 1) i ns

confirmed_iff :
    (a : Answer) (key payload : Text)
    → ((confirmed a key payload).is_handled ≡ true) ↔ ((a ≡ acked) ⊎ (a ≡ unconfirmed_mode))
confirmed_iff refused_publish key payload = ground arith
confirmed_iff unconfirmed_mode key payload = ground arith
confirmed_iff wait_failed key payload = ground arith
confirmed_iff nacked key payload = ground arith
confirmed_iff acked key payload = ground arith

handled_iff :
    (o : Outside) (m : OutboxMessage) → ((process_message o m).is_handled ≡ true) ↔ IsHandedOver o m
unfolding process_message
handled_iff o m =
    let account = resolve_tenant_account_id o m (o.decode m.payload) in
    ground (arith, confirmed_iff o.answer (account_routing_key account) m.payload)

HandedOver-iff :
    (o : ℕ → Outside) (k i : ℕ) (ms : List OutboxMessage)
    → (exists (handles i) (process_each o k ms) ≡ true) ↔ HandedOver o k i ms
unfolding process_each
HandedOver-iff o k i [] = ground arith
HandedOver-iff o k i (m ∷ ms) = ground (arith, handled_iff (o k) m, HandedOver-iff o (k + 1) i ms)

abbrev pub rows_of : Result (List OutboxMessage) → List OutboxMessage
rows_of (err e) = []
rows_of (ok ms) = ms

entries_iff :
    (o : ℕ → Outside) (g : Faults) (db : Db) (r : Result (List OutboxMessage)) (i : ℕ)
    → (exists (handles i) (with_messages o g db r).0 ≡ true) ↔ HandedOver o 0 i (rows_of r)
entries_iff o g db (err e) i = ground arith
entries_iff o g db (ok ms) i = HandedOver-iff o 0 i ms

-- After a run of processMessages, the first row with an id is marked as processed exactly if the update
-- goes through and a message with this id is among those that were read and is handed over: either its
-- recipient is refused and the broker takes the result, or it is published for its account and the broker
-- acknowledges it or gives no confirmations. Otherwise the row is as it was.
pub marked_if_handled :
    (o : ℕ → Outside) (locked : ℕ → Bool) (f g : Faults) (now : ℕ) (db : Db) (i : ℕ)
    (m : OutboxMessage)
    → first (has_id i) db.outbox ≡ some m
    → (b : Bool) × (first (has_id i) (process_messages o locked f g now db).1.outbox
        ≡ some (if b then mark m else m))
      × ((b ≡ true)
          ↔ ((g 0 ≡ false) × HandedOver o 0 i (rows_of (get_pending_messages locked f now 100 db))))
unfolding process_messages
marked_if_handled o locked f g now db i m h =
    let r = get_pending_messages locked f now 100 db in
    (
      not (g 0) && exists (handles i) (with_messages o g db r).0,
      with_messages_row o g db r i m h,
      ground (arith, entries_iff o g db r i),
    )

module _ (o : Outside) (m : OutboxMessage) where
  abbrev IsOwn : Outcome → Type 0
  IsOwn x = All (λ s. s.1 ≡ m.payload) x.sends

  either-IsOwn : (b : Bool) (x y : Outcome) → IsOwn x → IsOwn y → IsOwn (if b then x else y)
  either-IsOwn true x y h k = h
  either-IsOwn false x y h k = k

  confirmed-IsOwn : (a : Answer) (key : Text) → IsOwn (confirmed a key m.payload)
  confirmed-IsOwn refused_publish key = tt
  confirmed-IsOwn unconfirmed_mode key = (refl, tt)
  confirmed-IsOwn wait_failed key = (refl, tt)
  confirmed-IsOwn nacked key = (refl, tt)
  confirmed-IsOwn acked key = (refl, tt)

  publish-IsOwn : (account : Text) → IsOwn (publish o m account)
  publish-IsOwn account =
      let sent = confirmed o.answer (account_routing_key account) m.payload in
      either-IsOwn (is_empty account) left (if not (o.ensures account) then left else sent) tt (
        either-IsOwn (not (o.ensures account)) left sent tt
          (confirmed-IsOwn o.answer (account_routing_key account)))

  refuse_or_publish-IsOwn :
      (r : Option TargetResult) → IsOwn (refuse_or_publish o m (o.decode m.payload) r)
  refuse_or_publish-IsOwn (some r) = either-IsOwn o.takes_result (refused r) left tt tt
  refuse_or_publish-IsOwn none = publish-IsOwn (resolve_tenant_account_id o m (o.decode m.payload))

  process_message-IsOwn : IsOwn (process_message o m)
  unfolding process_message
  process_message-IsOwn =
      let task = o.decode m.payload in
      either-IsOwn
        (o.equal_fold task.contact_type (lit "cold") && not (is_within_work_window o.config o.now))
        left (refuse_or_publish o m task (refusal o task)) tt
        (refuse_or_publish-IsOwn (refusal o task))

refused_not_sent :
    (o : Outside) (m : OutboxMessage) (r : TargetResult)
    → refusal o (o.decode m.payload) ≡ some r
    → (process_message o m).sends ≡ []
unfolding process_message
refused_not_sent o m r h = ground (arith, h)

-- A task whose recipient is on the blocklist, with ids that can be parsed.
pub record IsBlockedTask (o : Outside) (task : SendTask) : Type 0 where
  pub cache : Cache
  pub tenant_id : ℕ
  pub task_id : ℕ
  pub campaign_id : ℕ
  pub checker : o.block_checker ≡ some cache
  pub has_tenant : is_empty task.tenant_id ≡ false
  pub has_phone : is_empty task.phone ≡ false
  pub tenant_parses : o.parse task.tenant_id ≡ some tenant_id
  pub task_parses : o.parse task.task_id ≡ some task_id
  pub campaign_parses : o.parse task.campaign_id ≡ some campaign_id
  pub blocked : is_blocked tenant_id task.phone cache ≡ true

made_refusal :
    (o : Outside) (task : SendTask) (b : IsBlockedTask o task)
    → ((r : TargetResult) → o.marshals r ≡ true)
    → refusal o task ≡ some (blocked_result o task b.task_id b.campaign_id)
unfolding refusal
made_refusal o task b enc =
    let r = blocked_result o task b.task_id b.campaign_id in
    rw (b.has_tenant, b.has_phone, b.checker, b.tenant_parses)
      (rw b.blocked (rw (b.task_parses, b.campaign_parses) (rw (enc r) refl)))

module _ (o : ℕ → Outside) (payload : Text)
    (blocked : (k : ℕ) → IsBlockedTask (o k) ((o k).decode payload))
    (encodes : (k : ℕ) (r : TargetResult) → (o k).marshals r ≡ true) where
  abbrev pub OtherSends : Entry → Type 0
  OtherSends e = All (λ s. s.1 ≢ payload) e.1.sends

  other_sends :
      (s : Text) (sends : List (Text × Text))
      → s ≢ payload
      → All (λ x. x.1 ≡ s) sends
      → All (λ x. x.1 ≢ payload) sends
  other_sends s [] d h = tt
  other_sends s (x ∷ xs) d h = (λ e. d (sym h.0 ∙ e), other_sends s xs d h.1)

  message-OtherSends : (k : ℕ) (m : OutboxMessage) → OtherSends (m.id, process_message (o k) m)
  message-OtherSends k m = elim (Bool-cases (text_eq m.payload payload)) [
    | inl e ↦
        let same : payload ≡ m.payload = sym ((text_eq_iff m.payload payload).0 e) in
        let b : IsBlockedTask (o k) ((o k).decode m.payload) =
          subst (λ p. IsBlockedTask (o k) ((o k).decode p)) same (blocked k) in
        rw (refused_not_sent (o k) m _ (made_refusal (o k) ((o k).decode m.payload) b (encodes k)))
          tt
    | inr e ↦
        other_sends m.payload (process_message (o k) m).sends
          (λ s. absurd (cc (e, (text_eq_iff m.payload payload).1 s)))
          (process_message-IsOwn (o k) m)
  ]

  each-OtherSends : (k : ℕ) (ms : List OutboxMessage) → All OtherSends (process_each o k ms)
  unfolding process_each
  each-OtherSends k [] = tt
  each-OtherSends k (m ∷ ms) = (message-OtherSends k m, each-OtherSends (k + 1) ms)

  fetched-OtherSends :
      (g : Faults) (db : Db) (r : Result (List OutboxMessage))
      → All OtherSends (with_messages o g db r).0
  fetched-OtherSends g db (err e) = tt
  fetched-OtherSends g db (ok ms) = each-OtherSends 0 ms

  -- Where the task of a payload names a recipient on the blocklist, its ids can be parsed and results can
  -- be encoded, no run of processMessages hands the broker this payload for the queue of any account,
  -- whatever else is in the batch and whatever the broker answers.
  pub blocked_not_sent :
      (locked : ℕ → Bool) (f g : Faults) (now : ℕ) (db : Db)
      → All OtherSends (process_messages o locked f g now db).0
  unfolding process_messages
  blocked_not_sent locked f g now db =
      fetched-OtherSends g db (get_pending_messages locked f now 100 db)
