-- ===== src/Usecase/Callback.antt =====
-- internal/usecase/campaign.go: UpdateTargetStatusWithCode, which a worker's HTTP callback calls.
use aba_go_orchestrator.Common.{
  to_upper, text_eq, ◌∷◌, ℕ, Text, is_empty, trim_space, Bool, true, false, not, ◌&&◌, ◌||◌, Option,
  none, some, first, first-update_self, [], if◌then◌else◌, ◌≡◌, ◌≢◌, refl, sym, subst, ◌⊎◌, inl,
  inr,
}
use aba_go_orchestrator.Domain.Errors.{
  ErrorDisposition, final, retryable, unknown, classify_error_code, error_code_delivery_unknown,
}
use aba_go_orchestrator.Domain.Status.{
  TaskStatus, pending, failed, retry_pending, delivery_unknown, is, is_error_status, rank,
}
use aba_go_orchestrator.Domain.Models.{Campaign, CampaignTarget}
use aba_go_orchestrator.Repository.Store.{
  Db, Result, ok, ◌>>=◌, ◌>>◌, Faults, exec, scan, campaign_has_id, target_has_id,
}
use aba_go_orchestrator.Repository.Targets.{update_target_status, status_to_write, write_status}
use aba_go_orchestrator.Repository.Targets.Report.{update_target_status_ok}
use aba_go_orchestrator.Repository.Dosing.{is_eligible}

-- campaignForTarget: two queries.
unfoldable pub campaign_for_target : Faults → ℕ → Db → Result Campaign
campaign_for_target f target_id db = do
  exec (f 0)
  t ← scan (first (target_has_id target_id) db.targets)
  exec (f 1)
  scan (first (campaign_has_id t.campaign_id) db.campaigns)

abbrev is_failure : TaskStatus → Bool
is_failure status = is status failed || is status delivery_unknown || is status retry_pending

-- A code that is missing stands for DELIVERY_UNKNOWN where that is the status.
abbrev effective_code : TaskStatus → Text → Text
effective_code status code =
    if is_empty code && is status delivery_unknown then error_code_delivery_unknown else code

abbrev is_owned : ErrorDisposition → Bool
is_owned retryable = true
is_owned unknown = true
is_owned final = false

-- Is the transition left to ResultConsumer?
unfoldable pub is_deferred : TaskStatus → Text → Bool
is_deferred status error_code =
    let code = effective_code status (trim_space error_code) in
    is_failure status && not (is_empty code) && is_owned (classify_error_code code)

abbrev pub non_empty : Text → Option Text
non_empty s = if is_empty s then none else some s

-- `f` are the faults of the queries of a deferred call, `g` those of the update.
unfoldable pub update_target_status_with_code :
    Faults → Faults → ℕ → ℕ → TaskStatus → Text → Text → Option ℕ → Db → Result Campaign × Db
unfolding is_deferred
update_target_status_with_code f g now target_id status error_code last_error sent_at db =
    if is_deferred status error_code
    then (campaign_for_target f target_id db, db)
    else update_target_status g now target_id status (non_empty last_error) sent_at db

empty-final : classify_error_code [] ≡ final
unfolding classify_error_code trim_space to_upper text_eq
empty-final = refl

lost-unknown : classify_error_code error_code_delivery_unknown ≡ unknown
unfolding classify_error_code trim_space to_upper text_eq
lost-unknown = refl

is_owned_lem : (d : ErrorDisposition) → d ≢ final → is_owned d ≡ true
is_owned_lem retryable h = refl
is_owned_lem unknown h = refl
is_owned_lem final h = absurd (h refl)

deferred :
    (status : TaskStatus) (u : Text)
    → (status ≡ failed) ⊎ (status ≡ delivery_unknown) ⊎ (status ≡ retry_pending)
    → ((status ≡ delivery_unknown) × (is_empty u ≡ true)) ⊎ (classify_error_code u ≢ final)
    → (is_failure status
        && not (is_empty (effective_code status u))
        && is_owned (classify_error_code (effective_code status u)))
      ≡ true
deferred status [] h (inl (e, _)) = rw (e, lost-unknown) refl
deferred status (c ∷ u) h (inl (e, i)) = absurd (cc)
deferred status [] h (inr n) = absurd (n empty-final)
deferred status (c ∷ u) (inl e) (inr n) = rw (e, is_owned_lem _ n) refl
deferred status (c ∷ u) (inr (inl e)) (inr n) = rw (e, is_owned_lem _ n) refl
deferred status (c ∷ u) (inr (inr e)) (inr n) = rw (e, is_owned_lem _ n) refl

-- A callback that reports `delivery_unknown` with a blank code, or a failure with a retryable or
-- unknown code, changes nothing: the transition is left to the result consumer.
pub callback_defers :
    (f g : Faults) (now target_id : ℕ) (status : TaskStatus) (error_code last_error : Text)
    (sent_at : Option ℕ) (db : Db)
    → (status ≡ failed) ⊎ (status ≡ delivery_unknown) ⊎ (status ≡ retry_pending)
    → ((status ≡ delivery_unknown) × (is_empty (trim_space error_code) ≡ true))
      ⊎ (classify_error_code (trim_space error_code) ≢ final)
    → (update_target_status_with_code f g now target_id status error_code last_error sent_at db).1
      ≡ db
unfolding update_target_status_with_code is_deferred
callback_defers f g now target_id status error_code last_error sent_at db h c =
    rw (deferred status (trim_space error_code) h c) refl

blank_written :
    (f g : Faults) (now target_id : ℕ) (u : Text) (last_error : Text) (db : Db)
    (r : Result Campaign × Db)
    → is_empty u ≡ true
    → (if is_failure retry_pending
          && not (is_empty (effective_code retry_pending u))
          && is_owned (classify_error_code (effective_code retry_pending u))
        then (campaign_for_target f target_id db, db)
        else update_target_status g now target_id retry_pending (non_empty last_error) none db)
      ≡ r
    → update_target_status g now target_id retry_pending (non_empty last_error) none db ≡ r
blank_written f g now target_id [] last_error db r e h = h
blank_written f g now target_id (c ∷ u) last_error db r e h = absurd (cc)

reopened :
    (later now : ℕ) (message : Option Text) (t : CampaignTarget)
    → t.status ≡ pending
    → t.next_attempt_at ≡ none
    → let t' = write_status (status_to_write t.status retry_pending) message none now t in
      (t'.status ≡ retry_pending)
      × (t'.attempt_count ≡ t.attempt_count)
      × (is_eligible later t' ≡ true)
unfolding status_to_write is_eligible rank is_error_status
reopened later now message t waits due = rw (waits, due) (refl, refl, refl)

-- A callback that reports `retry_pending` with a blank code for a pending target is not deferred:
-- if it is accepted, the target waits for a retry, with its attempts as they were. Without a time for
-- the next attempt in its row it can be dosed again at once, however many attempts it has had.
pub callback_reopens :
    (f g : Faults) (now later target_id : ℕ) (error_code last_error : Text) (db db' : Db)
    (t : CampaignTarget) (c : Campaign)
    → is_empty (trim_space error_code) ≡ true
    → first (target_has_id target_id) db.targets ≡ some t
    → t.status ≡ pending
    → t.next_attempt_at ≡ none
    → update_target_status_with_code f g now target_id retry_pending error_code last_error none db
      ≡ (ok c, db')
    → (t' : CampaignTarget) × (first (target_has_id target_id) db'.targets ≡ some t')
      × (t'.status ≡ retry_pending)
      × (t'.attempt_count ≡ t.attempt_count)
      × (is_eligible later t' ≡ true)
unfolding update_target_status_with_code is_deferred
callback_reopens f g now later target_id error_code last_error db db' t c blank found waits due h =
    let message = non_empty last_error in
    let (t₀, found₀, e, _) =
      update_target_status_ok g now target_id retry_pending message none db c db'
        (blank_written f g now target_id (trim_space error_code) last_error db _ blank h) in
    let same : t₀ ≡ t = cc in
    let write = λ (u : CampaignTarget).
      write_status (status_to_write t₀.status retry_pending) message none now u in
    let (waiting, counted, eligible) =
      subst
        (λ u.
          let t' = write_status (status_to_write u.status retry_pending) message none now u in
          (t'.status ≡ retry_pending)
          × (t'.attempt_count ≡ t.attempt_count)
          × (is_eligible later t' ≡ true))
        (sym same) (reopened later now message t waits due) in
    (
      write t₀,
      subst (λ d. first (target_has_id target_id) d.targets ≡ some (write t₀)) (sym e)
          (first-update_self (target_has_id target_id) write db.targets t₀ (λ a k. k) found₀),
      waiting,
      counted,
      eligible,
    )
