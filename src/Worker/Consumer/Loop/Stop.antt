-- ===== src/Worker/Consumer/Loop/Stop.antt =====
-- internal/worker/result_consumer.go: how Run and flushLoop come to their ends.
use aba_go_orchestrator.Common.{
  ℕ, suc, ◌+◌, ◌≤◌, ◌&&◌, Bool, true, false, Option, none, some, List, [], ◌∷◌, if◌then◌else◌, ◌≡◌,
  refl, ap, ◌∙◌, arith, count_where, ltb,
}
use aba_go_orchestrator.Domain.Models.{TargetResult}
use aba_go_orchestrator.Repository.Store.{Db, ok}
use aba_go_orchestrator.Worker.Cache.{Cache}
use aba_go_orchestrator.Worker.Consumer.{Outside}
use aba_go_orchestrator.Worker.Consumer.Notify
use aba_go_orchestrator.Worker.Consumer.Notify.{
  Notified, running, is_running, publish, publish_encoded, admin_chat_id, task_of,
  tenant_admin_notify_queue, notify_phone, notify_phones, admin_phones, notify_tenant, has_replies,
  get_tenant_by_id, notify_group, notify_groups, nothing_sent, notify,
}
use aba_go_orchestrator.Worker.Consumer.Loop.{
  QueuedResult, Main, Flusher, selecting, full, stopping, gone, not_started, absent, ticking,
  finished, ResultConsumer, Channel, begin, new_result_consumer, reconnect, queue_or_skip, decoded,
  take_delivery, flush_list, flush_queue, flush_full, flush_last, Step, cancel, deliver, fill,
  close, stop, wait, tick, last, Steps, here, next,
}
use aba_go_orchestrator.Worker.Consumer.Loop.Answers.{
  answered, Balanced, Steps-Balanced, begin-Balanced, flush_list-kept, waiting, is_queued,
  empty_outside,
}
use aba_go_orchestrator.Worker.Consumer.Loop.Blocking.{IsWorking, flush_list-stuck}

abbrev is_begun : Main → Bool
is_begun not_started = false
is_begun selecting = true
is_begun full = true
is_begun stopping = true
is_begun gone = true

abbrev is_launched : Flusher → Bool
is_launched absent = false
is_launched ticking = true
is_launched finished = true

-- Run and flushLoop have begun.
abbrev pub HasBegun : ResultConsumer → Type 0
HasBegun s = (is_begun s.main ≡ true) × (is_launched s.flusher ≡ true)

either-is_begun : (b : Bool) → is_begun (if b then full else selecting) ≡ true
either-is_begun true = refl
either-is_begun false = refl

either-is_launched : (b : Bool) → is_launched (if b then ticking else finished) ≡ true
either-is_launched true = refl
either-is_launched false = refl

flush_list-HasBegun :
    (o : ℕ → Outside) (n : Notify.Outside) (qs : List QueuedResult) (s : ResultConsumer)
    → HasBegun s
    → HasBegun (flush_list o n qs s)
flush_list-HasBegun o n [] s h = h
flush_list-HasBegun o n (q ∷ qs) s h = h

queue_or_skip-HasBegun :
    (r : Option TargetResult) (s : ResultConsumer) → HasBegun s → HasBegun (queue_or_skip r s)
queue_or_skip-HasBegun none s h = h
queue_or_skip-HasBegun (some r) s h = (either-is_begun _, h.1)

Step-HasBegun : {s s' : ResultConsumer} → Step s s' → HasBegun s → HasBegun s'
unfolding take_delivery flush_full flush_last flush_queue
Step-HasBegun cancel h = h
Step-HasBegun {s} (deliver decode body m k) h = queue_or_skip-HasBegun (decoded decode body) s h
Step-HasBegun {s} (fill o n m k) h = (either-is_begun _, (flush_list-HasBegun o n s.results s h).1)
Step-HasBegun (close m) h = (refl, h.1)
Step-HasBegun (stop m c) h = (refl, h.1)
Step-HasBegun (wait m f) h = (refl, h.1)
Step-HasBegun {s} (tick o n f k) h = flush_list-HasBegun o n s.results s h
Step-HasBegun {s} (last o n f k c) h =
    ((flush_list-HasBegun o n s.results s h).0, either-is_launched _)

Steps-HasBegun : {s s' : ResultConsumer} → Steps s s' → HasBegun s → HasBegun s'
Steps-HasBegun here h = h
Steps-HasBegun (next r e) h = Step-HasBegun e (Steps-HasBegun r h)

begin-HasBegun :
    (b : Channel) (s s' : ResultConsumer)
    → s.is_running ≡ false
    → begin b s ≡ (ok tt, s')
    → HasBegun s'
unfolding begin
begin-HasBegun b s s' h k = ground (arith, h, k)

new-is_running :
    (b : Channel) (db : Db) (blocklist : Option Cache) (s : ResultConsumer)
    → new_result_consumer b db blocklist ≡ ok s
    → s.is_running ≡ false
unfolding new_result_consumer reconnect
new-is_running b db blocklist s h = ground (arith, h)

steps_trans : {a b c : ResultConsumer} → Steps a b → Steps b c → Steps a c
steps_trans r here = r
steps_trans r (next q e) = next (steps_trans r q) e

-- A step of the two goroutines alone: no delivery, no closed channel of the deliveries, no cancellation.
abbrev pub is_own : {s s' : ResultConsumer} → Step s s' → Bool
is_own cancel = false
is_own (deliver decode body m k) = false
is_own (close m) = false
is_own (fill o n m k) = true
is_own (stop m c) = true
is_own (wait m f) = true
is_own (tick o n f k) = true
is_own (last o n f k c) = true

abbrev pub are_own : {s s' : ResultConsumer} → Steps s s' → Bool
are_own here = true
are_own (next r e) = are_own r && is_own e

abbrev pub count_steps : {s s' : ResultConsumer} → Steps s s' → ℕ
count_steps here = 0
count_steps (next r e) = suc (count_steps r)

are_own_trans :
    {a b c : ResultConsumer} (r : Steps a b) (q : Steps b c)
    → are_own r ≡ true
    → are_own q ≡ true
    → are_own (steps_trans r q) ≡ true
unfolding steps_trans
are_own_trans r here h k = h
are_own_trans r (next q e) h k =
    let rest : are_own q ≡ true = ground (arith, k) in
    let before : are_own (steps_trans r q) ≡ true = are_own_trans r q h rest in
    ground (arith, k, before)

count_steps_trans :
    {a b c : ResultConsumer} (r : Steps a b) (q : Steps b c)
    → count_steps (steps_trans r q) ≡ count_steps r + count_steps q
unfolding steps_trans
count_steps_trans r here = omega arith
count_steps_trans r (next q e) = omega (arith, count_steps_trans r q)

-- A way to the return of Run by at most so many steps of its own.
abbrev Way : ℕ → ResultConsumer → Type 0
Way k s =
    (s' : ResultConsumer) × (r : Steps s s') × (are_own r ≡ true)
    × (count_steps r ≤ k)
    × (s'.main ≡ gone)

first_step :
    {s s' : ResultConsumer} {k : ℕ} (e : Step s s') → is_own e ≡ true → Way k s' → Way (suc k) s
first_step e own (s', r, h, l, m) =
    let one : are_own (next here e) ≡ true = ground (arith, own) in
    (
      s',
      steps_trans (next here e) r,
      are_own_trans (next here e) r one h,
      omega (arith, count_steps_trans (next here e) r, l),
      m,
    )

longer : {s : ResultConsumer} {k : ℕ} → Way k s → Way (suc k) s
longer (s', r, h, l, m) = (s', r, h, omega (arith, l), m)

module _ (o : ℕ → Outside) (n : Notify.Outside) (w : IsWorking n) where
  Way-from_stopping :
      (f : Flusher) (s : ResultConsumer)
      → s.flusher ≡ f
      → s.main ≡ stopping
      → s.cancelled ≡ true
      → s.stuck ≡ false
      → is_launched f ≡ true
      → Way 2 s
  unfolding flush_last flush_queue
  Way-from_stopping absent s e m c k l = absurd (cc)
  Way-from_stopping finished s e m c k l =
      longer (first_step (wait m e) refl (_, here, refl, omega arith, refl))
  Way-from_stopping ticking s e m c k l =
      let s' = flush_list o n s.results s in
      let free : s'.stuck ≡ false = flush_list-stuck n w o s.results s k in
      let kept = flush_list-kept o n s.results s in
      let ended : (flush_last o n s).flusher ≡ finished =
        ap (λ b. if b then ticking else finished) free in
      let stays : (flush_last o n s).main ≡ stopping = kept.1 ∙ m in
      first_step (last o n e k (ground (arith, c))) refl
        (first_step (wait stays ended) refl (_, here, refl, omega arith, refl))

  Way-from_selecting :
      (s : ResultConsumer)
      → s.main ≡ selecting
      → s.cancelled ≡ true
      → s.stuck ≡ false
      → is_launched s.flusher ≡ true
      → Way 3 s
  Way-from_selecting s m c k l =
      first_step (stop m c) refl
        (Way-from_stopping s.flusher (record s { main = stopping; stopped = true }) refl refl c k l)

  Way-from_full :
      (s : ResultConsumer)
      → s.main ≡ full
      → s.cancelled ≡ true
      → s.stuck ≡ false
      → is_launched s.flusher ≡ true
      → Way 4 s
  unfolding flush_full flush_queue
  Way-from_full s m c k l =
      let s' = flush_list o n s.results s in
      let free : s'.stuck ≡ false = flush_list-stuck n w o s.results s k in
      let kept = flush_list-kept o n s.results s in
      let back : (flush_full o n s).main ≡ selecting =
        ap (λ b. if b then full else selecting) free in
      first_step (fill o n m k) refl
        (Way-from_selecting (flush_full o n s) back (kept.3 ∙ c) free (ap is_launched kept.2 ∙ l))

  way :
      (m : Main) (s : ResultConsumer)
      → s.main ≡ m
      → s.cancelled ≡ true
      → s.stuck ≡ false
      → HasBegun s
      → Way 4 s
  way not_started s e c k h = absurd (cc (ap is_begun e, h.0))
  way selecting s e c k h = longer (Way-from_selecting s e c k h.1)
  way full s e c k h = Way-from_full s e c k h.1
  way stopping s e c k h = longer (longer (Way-from_stopping s.flusher s refl e c k h.1))
  way gone s e c k h = (s, here, refl, omega arith, e)

all_answered :
    (s : ResultConsumer)
    → s.main ≡ gone
    → Balanced s
    → (i : ℕ) → answered i s ≡ (if ltb i s.received then 1 else 0)
all_answered s m h i =
    let none_left : s.results ≡ [] = empty_outside s (λ e. absurd (cc (m, e))) h.queue in
    let none_waits : waiting i s ≡ 0 = ap (count_where (is_queued i)) none_left in
    omega (arith, h.each i, none_waits)

-- After a cancellation Run can end by itself: from every state that the two goroutines reach in which the
-- context is cancelled and the mutex free, with a broker that takes the notifications, at most four steps
-- of the two goroutines, without a further delivery, a closed channel of the deliveries or another
-- cancellation, lead to the return of Run, and there every delivery that was taken has been answered
-- exactly once, and no other.
pub run_can_return :
    (b b' : Channel) (db : Db) (blocklist : Option Cache) (s s' s'' : ResultConsumer)
    (o : ℕ → Outside) (n : Notify.Outside)
    → new_result_consumer b db blocklist ≡ ok s
    → begin b' s ≡ (ok tt, s')
    → Steps s' s''
    → s''.cancelled ≡ true
    → s''.stuck ≡ false
    → IsWorking n
    → (end : ResultConsumer) × (q : Steps s'' end) × (are_own q ≡ true)
      × (count_steps q ≤ 4)
      × (end.main ≡ gone)
      × ((i : ℕ) → answered i end ≡ (if ltb i end.received then 1 else 0))
run_can_return b b' db blocklist s s' s'' o n h k r over free w =
    let begun : HasBegun s' = begin-HasBegun b' s s' (new-is_running b db blocklist s h) k in
    let (end, q, own, short, m) = way o n w s''.main s'' refl over free (Steps-HasBegun r begun) in
    let bal : Balanced end =
      Steps-Balanced (steps_trans r q) (begin-Balanced b b' db blocklist s s' h k) in
    (end, q, own, short, m, λ i. all_answered end m bal i)
