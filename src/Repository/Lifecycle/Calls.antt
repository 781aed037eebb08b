-- ===== src/Repository/Lifecycle/Calls.antt =====
-- internal/repository: a target is followed through every call.
use aba_go_orchestrator.Common.{
  map, ℕ, Text, Bool, true, false, Option, none, some, first, List, ◌≡◌, refl, sym, subst, ap, inl,
  inr, Bool-cases,
}
use aba_go_orchestrator.Domain.Status.{TaskStatus, delivery_unknown}
use aba_go_orchestrator.Domain.Models.{Campaign, CampaignTarget}
use aba_go_orchestrator.Repository.Store.{Db, Result, ok, err, Faults, target_has_id}
use aba_go_orchestrator.Repository.Targets.{
  status_to_write, write_status, final_sent_at, update_target_status,
}
use aba_go_orchestrator.Repository.Targets.Report.{
  update_target_status_ok, update_target_status_err,
}
use aba_go_orchestrator.Repository.Retry.{
  defer_retry_targets_without_accounts, Failure, is_exhausted, fail_target, settled, write_failure,
  apply_retryable_failure, mark_target_delivery_unknown, can_be_unknown,
}
use aba_go_orchestrator.Repository.Retry.Policy.{
  apply_retryable_failure_ok, apply_retryable_failure_err,
}
use aba_go_orchestrator.Repository.Dosing.{
  Dose, assign, is_eligible, assign_account_and_enqueue_target,
}
use aba_go_orchestrator.Repository.Dosing.Claim.{claim_granted, claim_refused, claim_failed}
use aba_go_orchestrator.Repository.Replies.{answers, write_reply, register_reply}
use aba_go_orchestrator.Repository.Replies.Completion.{register_reply_ok, register_reply_err}
use aba_go_orchestrator.Repository.Uploads.{target_row, create_campaign}
use aba_go_orchestrator.Repository.Uploads.Created.{create_campaign-cases}
use aba_go_orchestrator.Repository.Attempts.{
  Step, create, claim, fail, lose, reply, defer, keep, report,
}
use aba_go_orchestrator.Repository.Attempts.Kept.{same_row}
use aba_go_orchestrator.Repository.Lifecycle.Moves.{
  eligible_Moved, failure_Moved, unknown_Moved, reply_Moved, deferred_Moved, report_Moved,
}
use aba_go_orchestrator.Repository.Lifecycle.{
  Moved, Followed, Followed-update, Followed-append, Followed-here,
}

module _ (limit j : ℕ) (t : CampaignTarget) (db : Db)
    (there : first (target_has_id j) db.targets ≡ some t) where
  claim-Followed :
      (f : Faults) (now outbox_id : ℕ) (d : Dose) (r : Result Bool × Db)
      → assign_account_and_enqueue_target f now outbox_id d db ≡ r
      → Followed j t r.1.targets
  claim-Followed f now outbox_id d (err e, db') h =
      Followed-here j t db.targets db'.targets
        (ap (λ x. x.targets) (claim_failed f now outbox_id d db db' e h)) there
  claim-Followed f now outbox_id d (ok false, db') h =
      Followed-here j t db.targets db'.targets
        (ap (λ x. x.targets) (claim_refused f now outbox_id d db db' h).1) there
  claim-Followed f now outbox_id d (ok true, db') h =
      let (u, _, usage, found, fit, _, _, e) = claim_granted f now outbox_id d db db' h in
      let assigned = assign d.account_id d.tenant_id now in
      subst (λ x. Followed j t x.targets) (sym e)
        (Followed-update (target_has_id d.target_id) assigned j t db.targets (λ u. refl)
          (λ k. eligible_Moved now d.account_id d.tenant_id t (
            subst (λ x. is_eligible now x ≡ true)
              (sym (same_row limit d.target_id j db.targets t u found there k)) fit))
          there)

  fail-Followed :
      (f : Faults) (now : ℕ) (e : Failure) (r : Result Bool × Db)
      → apply_retryable_failure f now e db ≡ r
      → Followed j t r.1.targets
  fail-Followed f now e (err x, db') h =
      Followed-here j t db.targets db'.targets
        (ap (λ x. x.targets) (apply_retryable_failure_err f now e db db' x h)) there
  fail-Followed f now e (ok b, db') h =
      let (u, found, r) = apply_retryable_failure_ok f now e db db' b h in
      elim r [
        | inl (_, k) ↦ Followed-here j t db.targets db'.targets (ap (λ x. x.targets) k) there
        | inr (o, _, k) ↦
            subst (λ x. Followed j t x.targets) (sym k)
              (Followed-update (target_has_id e.target_id) (fail_target now e (is_exhausted e u)) j
                t db.targets (fail_target_id (is_exhausted e u))
                (λ i. failure_Moved now e (is_exhausted e u) t (
                  subst (λ x. settled x.status ≡ none)
                    (sym (same_row limit e.target_id j db.targets t u found there i)) o))
                there)
      ]
    where
      fail_target_id : (x : Bool) (u : CampaignTarget) → (fail_target now e x u).id ≡ u.id
      fail_target_id true u = refl
      fail_target_id false u = refl

  lose-Followed :
      (f : Faults) (now target_id : ℕ) (code message : Text)
      → Followed j t (mark_target_delivery_unknown f now target_id code message db).1.targets
  unfolding mark_target_delivery_unknown
  lose-Followed f now target_id code message = elim (Bool-cases (f 0)) [
    | inl e ↦ rw e (Followed-here j t db.targets db.targets refl there)
    | inr e ↦ rw e (
        Followed-update (can_be_unknown target_id)
          (write_failure delivery_unknown code message none now) j t db.targets (λ u. refl)
          (λ i. unknown_Moved now code message t) there)
  ]

  report-Followed :
      (f : Faults) (now target_id : ℕ) (status : TaskStatus) (message : Option Text)
      (sent_at : Option ℕ) (r : Result Campaign × Db)
      → update_target_status f now target_id status message sent_at db ≡ r
      → Followed j t r.1.targets
  report-Followed f now target_id status message sent_at (err x, db') h =
      Followed-here j t db.targets db'.targets
        (ap (λ x. x.targets)
          (update_target_status_err f now target_id status message sent_at db x db' h))
        there
  report-Followed f now target_id status message sent_at (ok c, db') h =
      let (u, found, e, _) =
        update_target_status_ok f now target_id status message sent_at db c db' h in
      let at = final_sent_at sent_at status now in
      subst (λ x. Followed j t x.targets) (sym e)
        (Followed-update (target_has_id target_id)
          (write_status (status_to_write u.status status) message at now) j t db.targets (λ u. refl)
          (λ i.
            subst (λ x. Moved t (write_status (status_to_write x.status status) message at now t))
              (same_row limit target_id j db.targets t u found there i)
              (report_Moved status message at now t))
          there)

  reply-Followed :
      (matcher : Option (Text → Bool)) (f : Faults) (now campaign_id : ℕ) (phone text : Text)
      (replied_at : ℕ) (r : Result Campaign × Db)
      → register_reply matcher f now campaign_id phone text replied_at db ≡ r
      → Followed j t r.1.targets
  reply-Followed matcher f now campaign_id phone text replied_at (err x, db') h =
      Followed-here j t db.targets db'.targets
        (ap (λ x. x.targets)
          (register_reply_err matcher f now campaign_id phone text replied_at db db' x h))
        there
  reply-Followed matcher f now campaign_id phone text replied_at (ok c, db') h =
      let (u, c, _, _, e, _) =
        register_reply_ok matcher f now campaign_id phone text replied_at db db' c h in
      subst (λ x. Followed j t x.targets) (sym e)
        (Followed-update (answers campaign_id phone) (write_reply text replied_at now) j t
          db.targets (λ u. refl) (λ i. reply_Moved text replied_at now t) there)

  defer-Followed :
      (f : Faults) (now tenant_id until : ℕ)
      → Followed j t (defer_retry_targets_without_accounts f now tenant_id until db).1.targets
  unfolding defer_retry_targets_without_accounts
  defer-Followed f now tenant_id until = elim (Bool-cases (f 0)) [
    | inl e ↦ rw e (Followed-here j t db.targets db.targets refl there)
    | inr e ↦
        rw e
          (Followed-update _ _ j t db.targets (λ u. refl) (λ i. deferred_Moved now until t) there)
  ]

  create-Followed :
      (f : Faults) (now : ℕ) (c : Campaign) (ts : List CampaignTarget)
      → Followed j t (create_campaign f now c ts db).1.targets
  create-Followed f now c ts = elim (create_campaign-cases f now c ts db) [
    | inl e ↦ Followed-here j t db.targets _ (ap (λ x. x.targets) e) there
    | inr e ↦
        subst (Followed j t) (sym e)
          (Followed-append j t db.targets (map (target_row now c) ts) there)
  ]

-- One call follows the target.
pub Step-Followed :
    {limit : ℕ} {db db' : Db} (j : ℕ) (t : CampaignTarget)
    → Step limit db db'
    → first (target_has_id j) db.targets ≡ some t
    → Followed j t db'.targets
Step-Followed {limit} {db} j t (claim f now outbox_id d) there =
    claim-Followed limit j t db there f now outbox_id d
      (assign_account_and_enqueue_target f now outbox_id d db) refl
Step-Followed {limit} {db} j t (fail f now e m) there =
    fail-Followed limit j t db there f now e (apply_retryable_failure f now e db) refl
Step-Followed {limit} {db} j t (lose f now target_id code message) there =
    lose-Followed limit j t db there f now target_id code message
Step-Followed {limit} {db} j t (reply matcher f now campaign_id phone text replied_at) there =
    reply-Followed limit j t db there matcher f now campaign_id phone text replied_at
      (register_reply matcher f now campaign_id phone text replied_at db) refl
Step-Followed {limit} {db} j t (defer f now tenant_id until) there =
    defer-Followed limit j t db there f now tenant_id until
Step-Followed {limit} {db} j t (create f now c ts new) there =
    create-Followed limit j t db there f now c ts
Step-Followed {limit} {db} {db'} j t (keep e) there =
    Followed-here j t db.targets db'.targets e there
Step-Followed {limit} {db} j t (report f now target_id status message sent_at r) there =
    report-Followed limit j t db there f now target_id status message sent_at
      (update_target_status f now target_id status message sent_at db) refl
