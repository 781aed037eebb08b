-- ===== src/Worker/Outbox/Queue.antt =====
-- internal/worker/outbox.go: the queue of due messages, and what sorting and taking keep of it.
use aba_go_orchestrator.Common.{
  ℕ, zero, suc, ◌≤◌, leb, Bool, true, false, not, ◌&&◌, List, [], ◌∷◌, take, select, count_where,
  All, if◌then◌else◌, ◌≡◌, refl, arith, ◌<◌, ◌⊎◌, inl, inr, Bool-cases,
}
use aba_go_orchestrator.Domain.Models.{OutboxMessage}
use aba_go_orchestrator.Worker.Outbox.{insert, by_publish_at}

-- What GetPendingMessages looks for.
abbrev pub is_pending_at : (ℕ → Bool) → ℕ → OutboxMessage → Bool
is_pending_at locked now m = not m.processed && leb m.publish_at now && not (locked m.id)

module _ {ℓ} {A : Type ℓ} where
  pub count_where-select :
      (p q : A → Bool) (xs : List A)
      → count_where p (select q xs) ≡ count_where (λ x. q x && p x) xs
  count_where-select p q [] = refl
  count_where-select p q (x ∷ xs) = ground (arith, count_where-select p q xs)

  pub count_where-take :
      (p : A → Bool) (n : ℕ) (xs : List A) → count_where p (take n xs) ≤ count_where p xs
  count_where-take p zero xs = omega arith
  count_where-take p (suc n) [] = omega arith
  count_where-take p (suc n) (x ∷ xs) = ground (arith, count_where-take p n xs)

pub count_where-insert :
    (p : OutboxMessage → Bool) (m : OutboxMessage) (ms : List OutboxMessage)
    → count_where p (insert m ms) ≡ count_where p (m ∷ ms)
count_where-insert p m [] = refl
count_where-insert p m (n ∷ ns) = ground (arith, count_where-insert p m ns)

-- Sorting keeps the rows.
pub count_where-by_publish_at :
    (p : OutboxMessage → Bool) (ms : List OutboxMessage)
    → count_where p (by_publish_at ms) ≡ count_where p ms
count_where-by_publish_at p [] = refl
count_where-by_publish_at p (m ∷ ms) =
    ground (arith, count_where-insert p m (by_publish_at ms), count_where-by_publish_at p ms)

module _ {κ} (P : OutboxMessage → Type κ) where
  pub All-either :
      (b : Bool) (ms ns : List OutboxMessage) → All P ms → All P ns → All P (if b then ms else ns)
  All-either true ms ns h k = h
  All-either false ms ns h k = k

  pub All-select :
      (q : OutboxMessage → Bool) (ms : List OutboxMessage) → All P ms → All P (select q ms)
  All-select q [] h = tt
  All-select q (m ∷ ms) h =
      let rest = All-select q ms h.1 in
      All-either (q m) (m ∷ select q ms) (select q ms) (h.0, rest) rest

  pub All-insert :
      (m : OutboxMessage) (ms : List OutboxMessage) → P m → All P ms → All P (insert m ms)
  All-insert m [] x h = (x, tt)
  All-insert m (n ∷ ns) x h =
      All-either (leb m.publish_at n.publish_at) (m ∷ n ∷ ns) (n ∷ insert m ns) (x, h)
        (h.0, All-insert m ns x h.1)

  pub All-by_publish_at : (ms : List OutboxMessage) → All P ms → All P (by_publish_at ms)
  All-by_publish_at [] h = tt
  All-by_publish_at (m ∷ ms) h = All-insert m (by_publish_at ms) h.0 (All-by_publish_at ms h.1)

  pub All-take : (n : ℕ) (ms : List OutboxMessage) → All P ms → All P (take n ms)
  All-take zero ms h = tt
  All-take (suc n) [] h = tt
  All-take (suc n) (m ∷ ms) h = (h.0, All-take n ms h.1)

module _ {ℓ} {A : Type ℓ} (p q : A → Bool) where
  pub count_where-le :
      (xs : List A) → ((x : A) → p x ≡ true → q x ≡ true) → count_where p xs ≤ count_where q xs
  count_where-le [] h = omega arith
  count_where-le (x ∷ xs) h = ground (arith, h x, count_where-le xs h)

-- By the moment of publication.
abbrev pub IsSorted : List OutboxMessage → Type 0
IsSorted [] = Unit {0}
IsSorted (m ∷ ms) = All (λ n. m.publish_at ≤ n.publish_at) ms × IsSorted ms

later-All :
    (a b : ℕ) (ms : List OutboxMessage)
    → a ≤ b
    → All (λ n. b ≤ n.publish_at) ms
    → All (λ n. a ≤ n.publish_at) ms
later-All a b [] h k = tt
later-All a b (m ∷ ms) h k = (omega (arith, h, k.0), later-All a b ms h k.1)

insert-IsSorted :
    (m : OutboxMessage) (ms : List OutboxMessage) → IsSorted ms → IsSorted (insert m ms)
insert-IsSorted m [] h = (tt, tt)
insert-IsSorted m (n ∷ ns) h = elim (Bool-cases (leb m.publish_at n.publish_at)) [
  | inl e ↦
      let le : m.publish_at ≤ n.publish_at = ground (arith, e) in
      rw e ((le, later-All m.publish_at n.publish_at ns le h.0), h)
  | inr e ↦
      let le : n.publish_at ≤ m.publish_at = ground (arith, e) in
      rw e (All-insert (λ x. n.publish_at ≤ x.publish_at) m ns le h.0, insert-IsSorted m ns h.1)
]

pub by_publish_at-IsSorted : (ms : List OutboxMessage) → IsSorted (by_publish_at ms)
by_publish_at-IsSorted [] = tt
by_publish_at-IsSorted (m ∷ ms) = insert-IsSorted m (by_publish_at ms) (by_publish_at-IsSorted ms)

module _ (horizon : ℕ) where
  abbrev pub is_early : OutboxMessage → Bool
  is_early m = leb m.publish_at horizon

  late_none :
      (a : ℕ) (ms : List OutboxMessage)
      → horizon < a
      → All (λ n. a ≤ n.publish_at) ms
      → count_where is_early ms ≡ 0
  late_none a [] l h = refl
  late_none a (m ∷ ms) l h = ground (arith, l, h.0, late_none a ms l h.1)

  -- The first `n` of a sorted list are `n` early ones, or all that there are.
  pub take-early :
      (n : ℕ) (ms : List OutboxMessage)
      → IsSorted ms
      → (n ≤ count_where is_early (take n ms))
        ⊎ (count_where is_early ms ≤ count_where is_early (take n ms))
  take-early zero ms h = inl (omega arith)
  take-early (suc n) [] h = inr (omega arith)
  take-early (suc n) (m ∷ ms) h = elim (Bool-cases (is_early m)) [
    | inl e ↦ ground (arith, e, take-early n ms h.1)
    | inr e ↦
        let late : horizon < m.publish_at = ground (arith, e) in
        let none_left : count_where is_early ms ≡ 0 = late_none m.publish_at ms late h.0 in
        inr (ground (arith, e, none_left))
  ]
