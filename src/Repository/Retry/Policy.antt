-- ===== src/Repository/Retry/Policy.antt =====
-- internal/repository/anti_ban.go: what a retryable failure does to its target and its account.
use aba_go_orchestrator.Common.{
  ℕ, ◌≤◌, ◌<◌, Text, Bool, true, false, not, none, some, first, first-update_self, ◌≡◌, refl, ◌⊎◌,
  inl, inr, arith,
}
use aba_go_orchestrator.Domain.Status.{
  TaskStatus, pending, retry_pending, failed, delivery_unknown, user_not_found_by_phone, sent,
  delivered, viewed, replied, other,
}
use aba_go_orchestrator.Domain.Models.{CampaignTarget}
use aba_go_orchestrator.Repository.Store.{Db, Error, ok, err, Faults, target_has_id}
use aba_go_orchestrator.Repository.Retry.{
  Failure, attempts_or_default, is_exhausted, fail_target, settled, after_failure,
  apply_retryable_failure,
}

-- What a call that succeeds has read and written.
pub apply_retryable_failure_ok :
    (f : Faults) (now : ℕ) (e : Failure) (db db' : Db) (b : Bool)
    → apply_retryable_failure f now e db ≡ (ok b, db')
    → (t : CampaignTarget) × (first (target_has_id e.target_id) db.targets ≡ some t)
      × (((settled t.status ≡ some b) × (db' ≡ db))
          ⊎ ((settled t.status ≡ none)
              × (b ≡ not (is_exhausted e t))
              × (db' ≡ after_failure now e t db)))
unfolding apply_retryable_failure
apply_retryable_failure_ok f now e db db' b h = ground arith

pub apply_retryable_failure_err :
    (f : Faults) (now : ℕ) (e : Failure) (db db' : Db) (x : Error)
    → apply_retryable_failure f now e db ≡ (err x, db')
    → db' ≡ db
unfolding apply_retryable_failure
apply_retryable_failure_err f now e db db' x h = ground arith

-- An attempt is left as long as fewer were made than allowed; a limit below 1 counts as 3.
abbrev pub HasAttempts : Failure → CampaignTarget → Type 0
HasAttempts e t = t.attempt_count < attempts_or_default e.max_attempts

-- The statuses with an outcome that stands.
pub data IsFinal : TaskStatus → Type 0 where
  failed_final : IsFinal failed
  unknown_final : IsFinal delivery_unknown
  not_found_final : IsFinal user_not_found_by_phone
  sent_final : IsFinal sent
  delivered_final : IsFinal delivered
  viewed_final : IsFinal viewed
  replied_final : IsFinal replied

-- Waiting for its first result: `pending`, or a text that is no declared status.
pub data IsOpen : TaskStatus → Type 0 where
  pending_open : IsOpen pending
  other_open : (s : Text) → IsOpen (other s)

abbrev pub Outcome : Failure → Db → Db → CampaignTarget → CampaignTarget → Bool → Type 0
Outcome e db db' t t' b =
    (IsOpen t.status
      × HasAttempts e t
      × (b ≡ true)
      × (t'.status ≡ retry_pending)
      × (t'.next_attempt_at ≡ some e.next_attempt_at))
    ⊎ (IsOpen t.status
        × (attempts_or_default e.max_attempts ≤ t.attempt_count)
        × (b ≡ false)
        × (t'.status ≡ failed)
        × (t'.next_attempt_at ≡ none))
    ⊎ ((t.status ≡ retry_pending) × (b ≡ true) × (db' ≡ db))
    ⊎ (IsFinal t.status × (b ≡ false) × (db' ≡ db))

settled-true : (s : TaskStatus) → settled s ≡ some true → s ≡ retry_pending
unfolding settled
settled-true s h = ground arith

settled-false : (s : TaskStatus) → settled s ≡ some false → IsFinal s
unfolding settled
settled-false failed h = failed_final
settled-false delivery_unknown h = unknown_final
settled-false user_not_found_by_phone h = not_found_final
settled-false sent h = sent_final
settled-false delivered h = delivered_final
settled-false viewed h = viewed_final
settled-false replied h = replied_final
settled-false pending h = absurd (cc)
settled-false retry_pending h = absurd (cc)
settled-false (other s) h = absurd (cc)

settled-none : (s : TaskStatus) → settled s ≡ none → IsOpen s
unfolding settled
settled-none pending h = pending_open
settled-none (other s) h = other_open s
settled-none failed h = absurd (cc)
settled-none delivery_unknown h = absurd (cc)
settled-none user_not_found_by_phone h = absurd (cc)
settled-none sent h = absurd (cc)
settled-none delivered h = absurd (cc)
settled-none viewed h = absurd (cc)
settled-none replied h = absurd (cc)
settled-none retry_pending h = absurd (cc)

settled-Outcome :
    (e : Failure) (db db' : Db) (t : CampaignTarget) (b : Bool)
    → settled t.status ≡ some b
    → db' ≡ db
    → Outcome e db db' t t b
settled-Outcome e db db' t true h k = inr (inr (inl (settled-true t.status h, refl, k)))
settled-Outcome e db db' t false h k = inr (inr (inr (settled-false t.status h, refl, k)))

failure-Outcome :
    (now : ℕ) (e : Failure) (db db' : Db) (t : CampaignTarget)
    → settled t.status ≡ none
    → Outcome e db db' t (fail_target now e (is_exhausted e t) t) (not (is_exhausted e t))
failure-Outcome now e db db' t h = ground (arith, settled-none t.status h)

-- The outcome of a retryable failure that is accepted, by the status of its target. An open target
-- becomes `retry_pending`, to be tried again at the given time, if it has attempts left, and
-- `failed` if it has none. A target that waits for a retry, and a target with a final status or an
-- answer of the client, are left as they were, with the whole database: nothing final is reopened.
-- The attempt count never changes.
pub retry_policy :
    (f : Faults) (now : ℕ) (e : Failure) (db db' : Db) (b : Bool)
    → apply_retryable_failure f now e db ≡ (ok b, db')
    → (t : CampaignTarget) × (t' : CampaignTarget) × (first (target_has_id e.target_id) db.targets
        ≡ some t)
      × (first (target_has_id e.target_id) db'.targets ≡ some t')
      × (t'.attempt_count ≡ t.attempt_count)
      × Outcome e db db' t t' b
retry_policy f now e db db' b h =
    let (t, found, r) = apply_retryable_failure_ok f now e db db' b h in
    elim r [
      | inl (s, k) ↦ (t, t, found, rw k found, refl, settled-Outcome e db db' t b s k)
      | inr (s, c, k) ↦
          let after = fail_target now e (is_exhausted e t) in
          (
            t,
            after t,
            found,
            rw k (
                first-update_self (target_has_id e.target_id) after db.targets t
                  (λ a m. kept (is_exhausted e t) a m) found),
            counted (is_exhausted e t) t,
            rw c (failure-Outcome now e db db' t s),
          )
    ]
  where
    kept :
        (x : Bool) (a : CampaignTarget)
        → target_has_id e.target_id a ≡ true
        → target_has_id e.target_id (fail_target now e x a) ≡ true
    kept true a m = m
    kept false a m = m

    counted :
        (x : Bool) (a : CampaignTarget) → (fail_target now e x a).attempt_count ≡ a.attempt_count
    counted true a = refl
    counted false a = refl
