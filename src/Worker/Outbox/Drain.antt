-- ===== src/Worker/Outbox/Drain.antt =====
-- internal/worker/outbox.go: how fast the runs of processMessages empty the outbox.
use aba_go_orchestrator.Common.{
  ℕ, zero, suc, ◌+◌, ◌-◌, ◌*◌, ◌≤◌, ◌<◌, leb, Text, Option, is_empty, ◌==◌, Bool, true, false, not,
  ◌&&◌, some, none, List, [], ◌∷◌, ◌++◌, map, take, select, update, exists, count_where,
  count_where-append, All, ◌≡◌, refl, sym, ap, ◌∙◌, subst, update-All, arith,
}
use aba_go_orchestrator.Domain.Models.{OutboxMessage, TargetResult, uuid_nil}
use aba_go_orchestrator.Repository.Store.{Db, ok, Faults}
use aba_go_orchestrator.Config.{is_within_work_window}
use aba_go_orchestrator.Worker.Outbox.{
  Outside, acked, publish, refuse_or_publish, refusal, account_routing_key, by_publish_at, mark,
  process_message, resolve_tenant_account_id, process_each, processed_ids, get_pending_messages,
  mark_as_processed_batch, process_messages, with_messages, enqueue, run,
}
use aba_go_orchestrator.Worker.Outbox.Queue.{
  is_pending_at, count_where-select, count_where-take, count_where-by_publish_at, count_where-le,
  All-select, All-by_publish_at, All-take, is_early, take-early, by_publish_at-IsSorted,
}

-- The broker takes everything, and the window for cold contacts is open.
pub record IsServing (o : Outside) : Type 0 where
  pub acks : o.answer ≡ acked
  pub takes : o.takes_result ≡ true
  pub ensures_all : (account : Text) → o.ensures account ≡ true
  pub prints : (i : ℕ) → is_empty (o.print i) ≡ false
  pub in_window : is_within_work_window o.config o.now ≡ true

abbrev pub HasAccount : OutboxMessage → Type 0
HasAccount m = (m.tenant_account_id == uuid_nil) ≡ false

serving_publishes :
    (o : Outside) (m : OutboxMessage)
    → IsServing o
    → (publish o m (o.print m.tenant_account_id)).is_handled ≡ true
unfolding account_routing_key
serving_publishes o m s =
    let account = o.print m.tenant_account_id in
    let named : is_empty account ≡ false = s.prints m.tenant_account_id in
    rw (named, s.ensures_all account, s.acks) refl

serving_refuses :
    (o : Outside) (m : OutboxMessage) (r : Option TargetResult)
    → IsServing o
    → HasAccount m
    → (refuse_or_publish o m (o.decode m.payload) r).is_handled ≡ true
unfolding resolve_tenant_account_id
serving_refuses o m (some r) s a = rw s.takes refl
serving_refuses o m none s a = rw a (serving_publishes o m s)

serving_handles :
    (o : Outside) (m : OutboxMessage)
    → IsServing o
    → HasAccount m
    → (process_message o m).is_handled ≡ true
unfolding process_message
serving_handles o m s a =
    let task = o.decode m.payload in
    let taken : (refuse_or_publish o m task (refusal o task)).is_handled ≡ true =
      serving_refuses o m (refusal o task) s a in
    ground (arith, s.in_window, taken)

processed_ids-map :
    (o : ℕ → Outside) (i : ℕ) (ms : List OutboxMessage)
    → ((k : ℕ) → IsServing (o k))
    → All HasAccount ms
    → processed_ids (process_each o i ms) ≡ map (λ m. m.id) ms
unfolding process_each
processed_ids-map o i [] s a = refl
processed_ids-map o i (m ∷ ms) s a =
    rw (serving_handles (o i) m (s i) a.0, processed_ids-map o (i + 1) ms s a.1) refl

-- Is the message among these?
abbrev among : List ℕ → OutboxMessage → Bool
among ids m = exists (λ j. j == m.id) ids

IsAmong : List ℕ → OutboxMessage → Type 0
IsAmong ids m = among ids m ≡ true

listed_more :
    (i : ℕ) (ids : List ℕ) (ms : List OutboxMessage)
    → All (IsAmong ids) ms
    → All (IsAmong (i ∷ ids)) ms
unfolding IsAmong
listed_more i ids [] h = tt
listed_more i ids (m ∷ ms) h =
    let now : among ids m ≡ true = h.0 in (ground (arith, now), listed_more i ids ms h.1)

All-listed : (ms : List OutboxMessage) → All (IsAmong (map (λ m. m.id) ms)) ms
unfolding IsAmong
All-listed [] = tt
All-listed (m ∷ ms) = (ground arith, listed_more m.id (map (λ m. m.id) ms) ms (All-listed ms))

update-never :
    (f : OutboxMessage → OutboxMessage) (ms : List OutboxMessage) → update (λ m. false) f ms ≡ ms
update-never f [] = refl
update-never f (m ∷ ms) = ap (◌∷◌ m) (update-never f ms)

marked_outbox :
    (g : Faults) (ids : List ℕ) (db : Db)
    → g 0 ≡ false
    → (mark_as_processed_batch g ids db).1.outbox ≡ update (among ids) mark db.outbox
unfolding mark_as_processed_batch
marked_outbox g [] db h = sym (update-never mark db.outbox)
marked_outbox g (i ∷ ids) db h = rw h refl

-- A message that waits and was to be published by the horizon.
abbrev pub is_due_by : ℕ → OutboxMessage → Bool
is_due_by horizon m = not m.processed && leb m.publish_at horizon

abbrev pub due_by : ℕ → List OutboxMessage → ℕ
due_by horizon ms = count_where (is_due_by horizon) ms

module _ (horizon now : ℕ) (locked : ℕ → Bool) (past : horizon ≤ now)
    (free : (i : ℕ) → locked i ≡ false) where
  -- A marked message is not due.
  due_by-update :
      (p : OutboxMessage → Bool) (ms : List OutboxMessage)
      → due_by horizon (update p mark ms) + count_where (λ m. is_due_by horizon m && p m) ms
        ≡ due_by horizon ms
  due_by-update p [] = refl
  due_by-update p (m ∷ ms) = ground (arith, due_by-update p ms)

  abbrev waiting : Db → List OutboxMessage
  waiting db = by_publish_at (select (is_pending_at locked now) db.outbox)

  abbrev fetched : Db → List OutboxMessage
  fetched db = take 100 (waiting db)

  pending_early :
      (m : OutboxMessage)
      → is_due_by horizon m ≡ true
      → (is_pending_at locked now m && is_early horizon m) ≡ true
  pending_early m h = ground (arith, h, past, free m.id)

  early_pending :
      (p : OutboxMessage → Bool) (m : OutboxMessage)
      → (is_pending_at locked now m && (is_early horizon m && p m)) ≡ true
      → (is_due_by horizon m && p m) ≡ true
  early_pending p m h = ground (arith, h)

  -- Every due message is among the waiting ones.
  due_waiting : (db : Db) → due_by horizon db.outbox ≤ count_where (is_early horizon) (waiting db)
  due_waiting db = omega (
    arith,
    count_where-le (is_due_by horizon) (λ m. is_pending_at locked now m && is_early horizon m)
        db.outbox pending_early,
    count_where-select (is_early horizon) (is_pending_at locked now) db.outbox,
    count_where-by_publish_at (is_early horizon) (select (is_pending_at locked now) db.outbox),
  )

  both_count :
      (p q : OutboxMessage → Bool) (ms : List OutboxMessage)
      → All (λ m. q m ≡ true) ms
      → count_where (λ m. p m && q m) ms ≡ count_where p ms
  both_count p q [] h = refl
  both_count p q (m ∷ ms) h = ground (arith, h.0, both_count p q ms h.1)

  -- The due messages that a run marks are at least the early ones that it fetched.
  listed_due :
      (ids : List ℕ) (db : Db)
      → All (IsAmong ids) (fetched db)
      → count_where (is_early horizon) (fetched db)
        ≤ count_where (λ m. is_due_by horizon m && among ids m) db.outbox
  unfolding IsAmong
  listed_due ids db h =
      let p = λ (m : OutboxMessage). is_early horizon m && among ids m in
      omega (
        arith,
        both_count (is_early horizon) (among ids) (fetched db) h,
        count_where-take p 100 (waiting db),
        count_where-by_publish_at p (select (is_pending_at locked now) db.outbox),
        count_where-select p (is_pending_at locked now) db.outbox,
        count_where-le (λ m. is_pending_at locked now m && p m)
            (λ m. is_due_by horizon m && among ids m) db.outbox (early_pending (among ids)),
      )

  fetched_eq :
      (f : Faults) (db : Db)
      → f 0 ≡ false
      → get_pending_messages locked f now 100 db ≡ ok (fetched db)
  unfolding get_pending_messages
  fetched_eq f db e = rw e refl

  abbrev after : (ℕ → Outside) → Faults → Faults → Db → Db
  after o f g db = (process_messages o locked f g now db).1

  after-outbox :
      (o : ℕ → Outside) (f g : Faults) (db : Db)
      → f 0 ≡ false
      → g 0 ≡ false
      → ((k : ℕ) → IsServing (o k))
      → All HasAccount db.outbox
      → (after o f g db).outbox ≡ update (among (map (λ m. m.id) (fetched db))) mark db.outbox
  unfolding process_messages
  after-outbox o f g db e e' s a =
      let due = select (is_pending_at locked now) db.outbox in
      let owned : All HasAccount (fetched db) = All-take HasAccount 100 (by_publish_at due) (
        All-by_publish_at HasAccount due
          (All-select HasAccount (is_pending_at locked now) db.outbox a)) in
      ap (λ r. (with_messages o g db r).1.outbox) (fetched_eq f db e)
      ∙ (ap (λ ids. (mark_as_processed_batch g ids db).1.outbox)
            (processed_ids-map o 0 (fetched db) s owned)
          ∙ marked_outbox g (map (λ m. m.id) (fetched db)) db e')

  -- One run marks 100 due messages, or all of them where there are fewer.
  after-due_by :
      (o : ℕ → Outside) (f g : Faults) (db : Db)
      → f 0 ≡ false
      → g 0 ≡ false
      → ((k : ℕ) → IsServing (o k))
      → All HasAccount db.outbox
      → due_by horizon (after o f g db).outbox ≤ due_by horizon db.outbox - 100
  after-due_by o f g db e e' s a =
      let ids = map (λ m. m.id) (fetched db) in
      rw (after-outbox o f g db e e' s a) (
        omega (
          arith,
          due_by-update (among ids) db.outbox,
          due_waiting db,
          take-early horizon 100 (waiting db)
              (by_publish_at-IsSorted (select (is_pending_at locked now) db.outbox)),
          listed_due ids db (All-listed (fetched db)),
        ))

  after-HasAccount :
      (o : ℕ → Outside) (f g : Faults) (db : Db)
      → f 0 ≡ false
      → g 0 ≡ false
      → ((k : ℕ) → IsServing (o k))
      → All HasAccount db.outbox
      → All HasAccount (after o f g db).outbox
  after-HasAccount o f g db e e' s a =
      subst (All HasAccount) (sym (after-outbox o f g db e e' s a))
        (update-All HasAccount (among (map (λ m. m.id) (fetched db))) mark db.outbox (λ m h x. x) a)

-- A row that arrives names its account and is due after the horizon only.
abbrev pub ArrivesLate : ℕ → OutboxMessage → Type 0
ArrivesLate horizon m = HasAccount m × (horizon < m.publish_at)

enqueue-HasAccount :
    (horizon : ℕ) (ms ns : List OutboxMessage)
    → All HasAccount ms
    → All (ArrivesLate horizon) ns
    → All HasAccount (ms ++ ns)
enqueue-HasAccount horizon [] [] h k = tt
enqueue-HasAccount horizon [] (n ∷ ns) h k = (k.0.0, enqueue-HasAccount horizon [] ns tt k.1)
enqueue-HasAccount horizon (m ∷ ms) ns h k = (h.0, enqueue-HasAccount horizon ms ns h.1 k)

late_due :
    (horizon : ℕ) (ns : List OutboxMessage) → All (ArrivesLate horizon) ns → due_by horizon ns ≡ 0
late_due horizon [] h = refl
late_due horizon (n ∷ ns) h = ground (arith, h.0.1, late_due horizon ns h.1)

enqueue-due_by :
    (horizon : ℕ) (ms ns : List OutboxMessage)
    → All (ArrivesLate horizon) ns
    → due_by horizon (ms ++ ns) ≡ due_by horizon ms
enqueue-due_by horizon ms ns h =
    omega (arith, count_where-append (is_due_by horizon) ms ns, late_due horizon ns h)

module _ (o : ℕ → ℕ → Outside) (locked : ℕ → ℕ → Bool) (arrivals : ℕ → List OutboxMessage)
    (f g : ℕ → Faults) (now : ℕ → ℕ) (horizon : ℕ) (db : Db) (past : (n : ℕ) → horizon ≤ now n)
    (free : (n i : ℕ) → locked n i ≡ false)
    (late : (n : ℕ) → All (ArrivesLate horizon) (arrivals n)) (reads : (n : ℕ) → f n 0 ≡ false)
    (writes : (n : ℕ) → g n 0 ≡ false) (serves : (n k : ℕ) → IsServing (o n k))
    (owned : All HasAccount db.outbox) where
  abbrev found : ℕ → Db
  found n = enqueue (arrivals n) (run o locked arrivals f g now n db)

  run-HasAccount : (n : ℕ) → All HasAccount (run o locked arrivals f g now n db).outbox
  unfolding run
  run-HasAccount zero = owned
  run-HasAccount (suc n) =
      after-HasAccount horizon (now n) (locked n) (past n) (free n) (o n) (f n) (g n) (found n)
        (reads n) (writes n) (serves n)
        (enqueue-HasAccount horizon (run o locked arrivals f g now n db).outbox (arrivals n)
          (run-HasAccount n) (late n))

  -- The runs of the outbox worker work off what is due by a moment, the horizon: from then on, while the
  -- database answers, no other transaction holds rows, the broker takes what it is given, the window is
  -- open, every message names its account, and the rows that arrive are due later than the horizon, each
  -- run leaves 100 fewer of the messages due by it, until none is left. The clock may go on between the
  -- runs, and more messages become due meanwhile.
  pub run_drains :
      (n : ℕ)
      → due_by horizon (run o locked arrivals f g now n db).outbox
        ≤ due_by horizon db.outbox - 100 * n
  unfolding run
  run_drains zero = omega arith
  run_drains (suc n) = omega (
    arith,
    run_drains n,
    enqueue-due_by horizon (run o locked arrivals f g now n db).outbox (arrivals n) (late n),
    after-due_by horizon (now n) (locked n) (past n) (free n) (o n) (f n) (g n) (found n) (reads n)
        (writes n) (serves n)
        (enqueue-HasAccount horizon (run o locked arrivals f g now n db).outbox (arrivals n)
          (run-HasAccount n) (late n)),
  )
