-- ===== src/Worker/Consumer/Loop/Answers.antt =====
-- internal/worker/result_consumer.go: which deliveries are answered, over any run of the consumer.
use aba_go_orchestrator.Common.{
  ℕ, zero, suc, leb, length-append, ◌+◌, ◌<◌, Bool, true, Option, none, some, List, [], ◌∷◌, ◌++◌,
  length, count_where, count_where-append, ◌==◌, ltb, if◌then◌else◌, ◌≡◌, ◌≢◌, refl, ap, subst, ◌⊎◌,
  inl, inr, arith,
}
use aba_go_orchestrator.Domain.Models.{TargetResult}
use aba_go_orchestrator.Repository.Store.{Db, ok}
use aba_go_orchestrator.Worker.Cache.{Cache}
use aba_go_orchestrator.Worker.Consumer.{Outside, Consumer, Verdict, ack}
use aba_go_orchestrator.Worker.Consumer.Flush.{process_result, flush_from, flush}
use aba_go_orchestrator.Worker.Consumer.Notify
use aba_go_orchestrator.Worker.Consumer.Loop.{
  batch_size, QueuedResult, selecting, full, ResultConsumer, Channel, begin, new_result_consumer,
  reconnect, queue_or_skip, decoded, take_delivery, answer_all, results_of, flush_list, flush_queue,
  flush_full, flush_last, Step, cancel, deliver, fill, close, stop, wait, tick, last, Steps, here,
  next,
}

abbrev pub is_answer : ℕ → ℕ × Verdict → Bool
is_answer i a = a.0 == i

abbrev pub is_queued : ℕ → QueuedResult → Bool
is_queued i q = q.tag == i

-- How often a delivery was answered.
abbrev pub answered : ℕ → ResultConsumer → ℕ
answered i s = count_where (is_answer i) s.verdicts

abbrev pub waiting : ℕ → ResultConsumer → ℕ
waiting i s = count_where (is_queued i) s.results

-- One verdict for each result.
length-flush_from :
    (o : ℕ → Outside) (i : ℕ) (rs : List TargetResult) (k : Consumer)
    → length (flush_from o i rs k).0 ≡ length rs
unfolding flush_from
length-flush_from o i [] k = refl
length-flush_from o i (r ∷ rs) k =
    ap suc (length-flush_from o (i + 1) rs (process_result (o i) r k).1)

length-results_of : (qs : List QueuedResult) → length (results_of qs) ≡ length qs
length-results_of [] = refl
length-results_of (q ∷ qs) = ap suc (length-results_of qs)

count-answer_all :
    (i : ℕ) (qs : List QueuedResult) (vs : List Verdict)
    → length vs ≡ length qs
    → count_where (is_answer i) (answer_all qs vs) ≡ count_where (is_queued i) qs
count-answer_all i [] vs h = refl
count-answer_all i (q ∷ qs) [] h = absurd (omega arith)
count-answer_all i (q ∷ qs) (v ∷ vs) h =
    let rest = count-answer_all i qs vs (omega arith) in ground (arith, rest)

-- What a flush does to the queue and to the verdicts.
flush_list-results :
    (o : ℕ → Outside) (n : Notify.Outside) (qs : List QueuedResult) (s : ResultConsumer)
    → s.results ≡ qs
    → (flush_list o n qs s).results ≡ []
flush_list-results o n [] s h = h
flush_list-results o n (q ∷ qs) s h = refl

flush_list-answered :
    (o : ℕ → Outside) (n : Notify.Outside) (qs : List QueuedResult) (s : ResultConsumer) (i : ℕ)
    → answered i (flush_list o n qs s) ≡ answered i s + count_where (is_queued i) qs
flush_list-answered o n [] s i = omega arith
flush_list-answered o n (q ∷ qs) s i =
    let rs = results_of (q ∷ qs) in
    let (vs, k) = flush o rs s.db s.blocklist in
    let same : length vs ≡ length (q ∷ qs) = omega (
      arith,
      length-flush_from o 0 rs (record { db = s.db; blocklist = s.blocklist; observed = [] }),
      length-results_of (q ∷ qs),
    ) in
    omega (
      arith,
      count_where-append (is_answer i) s.verdicts (answer_all (q ∷ qs) vs),
      count-answer_all i (q ∷ qs) vs same,
    )

pub flush_list-kept :
    (o : ℕ → Outside) (n : Notify.Outside) (qs : List QueuedResult) (s : ResultConsumer)
    → let s' = flush_list o n qs s in
      (s'.received ≡ s.received)
      × (s'.main ≡ s.main)
      × (s'.flusher ≡ s.flusher)
      × (s'.cancelled ≡ s.cancelled)
flush_list-kept o n [] s = (refl, refl, refl, refl)
flush_list-kept o n (q ∷ qs) s = (refl, refl, refl, refl)

-- Each delivery that was taken is answered once or waits once; results wait only before a flush.
pub record Balanced (s : ResultConsumer) : Type 0 where
  pub each : (i : ℕ) → answered i s + waiting i s ≡ (if ltb i s.received then 1 else 0)
  pub queue : (s.main ≡ full) ⊎ (s.results ≡ [])

flush_queue-Balanced :
    (o : ℕ → Outside) (n : Notify.Outside) (s : ResultConsumer)
    → Balanced s
    → Balanced (flush_queue o n s)
unfolding flush_queue
flush_queue-Balanced o n s h =
    let s' = flush_list o n s.results s in
    let kept : s'.received ≡ s.received = (flush_list-kept o n s.results s).0 in
    let none_left : s'.results ≡ [] = flush_list-results o n s.results s refl in
    record {
      each = λ i.
          let old : answered i s + waiting i s ≡ (if ltb i s.received then 1 else 0) = h.each i in
          let now : answered i s' ≡ answered i s + waiting i s =
            flush_list-answered o n s.results s i in
          rw (none_left, kept) (omega (arith, old, now));
      queue = inr none_left;
    }

full_length : {A : Type 0} (xs : List A) (x : A) → leb batch_size (length (xs ++ x ∷ [])) ≡ true
full_length [] x = refl
full_length (y ∷ xs) x = ground (arith, length-append xs (x ∷ []))

abbrev taken : ℕ → ℕ → ℕ
taken i n = if ltb i n then 1 else 0

one_more : (i n : ℕ) → taken i (n + 1) ≡ taken i n + (if n == i then suc zero else zero)
one_more i n = ground arith

queue_or_skip-Balanced :
    (r : Option TargetResult) (s : ResultConsumer)
    → s.main ≡ selecting
    → Balanced s
    → Balanced (queue_or_skip r s)
queue_or_skip-Balanced none s m h = record {
  each = λ i. omega (
    arith,
    h.each i,
    one_more i s.received,
    count_where-append (is_answer i) s.verdicts ((s.received, ack) ∷ []),
  );
  queue = h.queue;
}
queue_or_skip-Balanced (some r) s m h = record {
  each = λ i. omega (
    arith,
    h.each i,
    one_more i s.received,
    count_where-append (is_queued i) s.results (record { tag = s.received; result = r } ∷ []),
  );
  queue = inl (
      ap (λ b. if b then full else selecting)
        (full_length s.results (record { tag = s.received; result = r })));
}

pub empty_outside :
    (s : ResultConsumer) → s.main ≢ full → (s.main ≡ full) ⊎ (s.results ≡ []) → s.results ≡ []
empty_outside s m (inl e) = absurd (m e)
empty_outside s m (inr e) = e

Step-Balanced : {s s' : ResultConsumer} → Step s s' → Balanced s → Balanced s'
unfolding take_delivery flush_full flush_last
Step-Balanced {s} cancel h = record { each = h.each; queue = h.queue }
Step-Balanced {s} (deliver decode body m k) h = queue_or_skip-Balanced (decoded decode body) s m h
Step-Balanced {s} (fill o n m k) h =
    let h' = flush_queue-Balanced o n s h in
    record { each = h'.each; queue = inr (flush_list-results o n s.results s refl) }
Step-Balanced {s} (close m) h = record {
  each = h.each;
  queue = inr (empty_outside s (λ e. absurd (cc (m, e))) h.queue);
}
Step-Balanced {s} (stop m c) h = record {
  each = h.each;
  queue = inr (empty_outside s (λ e. absurd (cc (m, e))) h.queue);
}
Step-Balanced {s} (wait m f) h = record {
  each = h.each;
  queue = inr (empty_outside s (λ e. absurd (cc (m, e))) h.queue);
}
Step-Balanced {s} (tick o n f k) h = flush_queue-Balanced o n s h
Step-Balanced {s} (last o n f k c) h =
    let h' = flush_queue-Balanced o n s h in record { each = h'.each; queue = h'.queue }

pub Steps-Balanced : {s s' : ResultConsumer} → Steps s s' → Balanced s → Balanced s'
Steps-Balanced here h = h
Steps-Balanced (next r e) h = Step-Balanced e (Steps-Balanced r h)

-- A consumer that has taken nothing.
IsFresh : ResultConsumer → Type 0
IsFresh s = (s.results ≡ []) × (s.verdicts ≡ []) × (s.received ≡ 0)

fresh-Balanced : (s : ResultConsumer) → IsFresh s → Balanced s
unfolding IsFresh
fresh-Balanced s h = record { each = λ i. rw (h.0, h.1, h.2) (ground arith); queue = inr h.0 }

begin-IsFresh : (b : Channel) (s : ResultConsumer) → IsFresh s → IsFresh (begin b s).1
unfolding begin IsFresh
begin-IsFresh b s h = ground (arith, h)

new-IsFresh :
    (b : Channel) (db : Db) (blocklist : Option Cache) (s : ResultConsumer)
    → new_result_consumer b db blocklist ≡ ok s
    → IsFresh s
unfolding new_result_consumer reconnect IsFresh
new-IsFresh b db blocklist s h = ground (arith, h)

pub begin-Balanced :
    (b b' : Channel) (db : Db) (blocklist : Option Cache) (s s' : ResultConsumer)
    → new_result_consumer b db blocklist ≡ ok s
    → begin b' s ≡ (ok tt, s')
    → Balanced s'
unfolding new_result_consumer reconnect begin
begin-Balanced b b' db blocklist s s' h k =
    let fresh : IsFresh (begin b' s).1 = begin-IsFresh b' s (new-IsFresh b db blocklist s h) in
    subst Balanced (ap (λ p. p.1) k) (fresh-Balanced (begin b' s).1 fresh)

one_of_two : (a w : ℕ) (P : Type 0) → P → a + w ≡ 1 → (a ≡ 1) ⊎ (P × (a ≡ 0) × (w ≡ 1))
one_of_two zero w P p h = inr (p, refl, omega arith)
one_of_two (suc a) w P p h = inl (omega arith)

once :
    (i : ℕ) (s : ResultConsumer)
    → Balanced s
    → i < s.received
    → (answered i s ≡ 1) ⊎ ((s.main ≡ full) × (answered i s ≡ 0) × (waiting i s ≡ 1))
once i s h l = elim h.queue [
  | inl m ↦ one_of_two (answered i s) (waiting i s) (s.main ≡ full) m total
  | inr e ↦
      let none_left : waiting i s ≡ 0 = ap (count_where (is_queued i)) e in
      inl (omega (arith, total, none_left))
]
  where
    total : answered i s + waiting i s ≡ 1
    total = ground (arith, h.each i)

-- Of a consumer that was made and whose Run began, after any number of steps of Run and flushLoop in
-- any order: a delivery that was taken is answered once, or it waits, unanswered and once, for the
-- flush that Run is about to make.
pub answered_once :
    (b b' : Channel) (db : Db) (blocklist : Option Cache) (s s' s'' : ResultConsumer) (i : ℕ)
    → new_result_consumer b db blocklist ≡ ok s
    → begin b' s ≡ (ok tt, s')
    → Steps s' s''
    → i < s''.received
    → (answered i s'' ≡ 1) ⊎ ((s''.main ≡ full) × (answered i s'' ≡ 0) × (waiting i s'' ≡ 1))
answered_once b b' db blocklist s s' s'' i h k r l =
    let bal : Balanced s'' = Steps-Balanced r (begin-Balanced b b' db blocklist s s' h k) in
    once i s'' bal l
