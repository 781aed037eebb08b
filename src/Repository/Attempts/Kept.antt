-- ===== src/Repository/Attempts/Kept.antt =====
-- internal/repository: every call keeps the targets within their attempts.
use aba_go_orchestrator.Common.{
  All, map, [], ◌∷◌, ℕ, ◌<◌, Text, Bool, true, false, Option, none, some, first, first_sound, List,
  ◌≡◌, ◌≢◌, refl, sym, subst, inl, inr, arith, Bool-cases,
}
use aba_go_orchestrator.Domain.Status.{TaskStatus, retry_pending, delivery_unknown}
use aba_go_orchestrator.Domain.Models.{Campaign, CampaignTarget}
use aba_go_orchestrator.Repository.Store.{Db, Result, ok, err, Faults, target_has_id}
use aba_go_orchestrator.Repository.Store.Each.{Each, Each-update, Each-append}
use aba_go_orchestrator.Repository.Targets.{
  status_to_write, write_status, final_sent_at, update_target_status,
}
use aba_go_orchestrator.Repository.Targets.Report.{
  update_target_status_ok, update_target_status_err,
}
use aba_go_orchestrator.Repository.Retry.{
  defer_retry_targets_without_accounts, Failure, attempts_or_default, is_exhausted, fail_target,
  write_failure, apply_retryable_failure, mark_target_delivery_unknown, can_be_unknown,
}
use aba_go_orchestrator.Repository.Retry.Policy.{
  apply_retryable_failure_ok, apply_retryable_failure_err,
}
use aba_go_orchestrator.Repository.Dosing.{
  Dose, assign, is_eligible, assign_account_and_enqueue_target,
}
use aba_go_orchestrator.Repository.Dosing.Claim.{claim_granted, claim_refused, claim_failed}
use aba_go_orchestrator.Repository.Replies.{answers, write_reply, register_reply}
use aba_go_orchestrator.Repository.Replies.Completion.{register_reply_ok, register_reply_err}
use aba_go_orchestrator.Repository.Uploads.{target_row, create_campaign}
use aba_go_orchestrator.Repository.Uploads.Created.{create_campaign-cases}
use aba_go_orchestrator.Repository.Attempts.{
  Within, Kept, IsNew, Step, create, claim, fail, lose, reply, defer, keep, report, Reach, here,
  next,
}

module _ (limit : ℕ) where
  eligible_Within :
      (now account tenant : ℕ) (t : CampaignTarget)
      → 0 < limit
      → is_eligible now t ≡ true
      → Within limit t
      → Within limit (assign account tenant now t)
  unfolding is_eligible
  eligible_Within now account tenant t l h w = ground arith

  failure_Within :
      (now : ℕ) (e : Failure) (t u : CampaignTarget)
      → attempts_or_default e.max_attempts ≡ limit
      → t ≡ u
      → Within limit t
      → Within limit (fail_target now e (is_exhausted e u) t)
  failure_Within now e t u l h w = ground (arith, h)

  report_Within :
      (status : TaskStatus) (message : Option Text) (sent_at : Option ℕ) (now : ℕ)
      (t u : CampaignTarget)
      → status ≢ retry_pending
      → t ≡ u
      → Within limit t
      → Within limit (write_status (status_to_write u.status status) message sent_at now t)
  unfolding status_to_write
  report_Within status message sent_at now t u r h w = ground arith

  -- Two rows found by one id are one row.
  pub same_row :
      (i j : ℕ) (ts : List CampaignTarget) (t u : CampaignTarget)
      → first (target_has_id i) ts ≡ some u
      → first (target_has_id j) ts ≡ some t
      → target_has_id i t ≡ true
      → t ≡ u
  same_row i j ts t u found there k =
      let hit : target_has_id j t ≡ true = first_sound (target_has_id j) ts t there in
      let e : j ≡ i = ground arith in
      let there' : first (target_has_id i) ts ≡ some t =
        subst (λ x. first (target_has_id x) ts ≡ some t) e there in
      cc

  claim-Kept :
      (f : Faults) (now outbox_id : ℕ) (d : Dose) (db : Db) (r : Result Bool × Db)
      → 0 < limit
      → assign_account_and_enqueue_target f now outbox_id d db ≡ r
      → Kept limit db
      → Kept limit r.1
  claim-Kept f now outbox_id d db (err e, db') l h kept =
      subst (Kept limit) (sym (claim_failed f now outbox_id d db db' e h)) kept
  claim-Kept f now outbox_id d db (ok false, db') l h kept =
      subst (Kept limit) (sym (claim_refused f now outbox_id d db db' h).1) kept
  claim-Kept f now outbox_id d db (ok true, db') l h kept =
      let (t, _, usage, found, fit, _, _, e) = claim_granted f now outbox_id d db db' h in
      subst (Kept limit) (sym e) (
        Each-update (Within limit) (target_has_id d.target_id) (assign d.account_id d.tenant_id now)
          db.targets (λ u. refl)
          (λ j u there k w.
            eligible_Within now d.account_id d.tenant_id u l
              (subst (λ x. is_eligible now x ≡ true)
                (sym (same_row d.target_id j db.targets u t found there k)) fit)
              w)
          kept)

  fail-Kept :
      (f : Faults) (now : ℕ) (e : Failure) (db : Db) (r : Result Bool × Db)
      → attempts_or_default e.max_attempts ≡ limit
      → apply_retryable_failure f now e db ≡ r
      → Kept limit db
      → Kept limit r.1
  fail-Kept f now e db (err x, db') m h kept =
      subst (Kept limit) (sym (apply_retryable_failure_err f now e db db' x h)) kept
  fail-Kept f now e db (ok b, db') m h kept =
      let (t, found, r) = apply_retryable_failure_ok f now e db db' b h in
      elim r [
        | inl (_, k) ↦ subst (Kept limit) (sym k) kept
        | inr (_, _, k) ↦ subst (Kept limit) (sym k) (
            Each-update (Within limit) (target_has_id e.target_id)
              (fail_target now e (is_exhausted e t)) db.targets (fail_target_id (is_exhausted e t))
              (λ j u there i w.
                failure_Within now e u t m (same_row e.target_id j db.targets u t found there i) w)
              kept)
      ]
    where
      fail_target_id : (x : Bool) (u : CampaignTarget) → (fail_target now e x u).id ≡ u.id
      fail_target_id true u = refl
      fail_target_id false u = refl

  lose-Kept :
      (f : Faults) (now target_id : ℕ) (code message : Text) (db : Db)
      → Kept limit db
      → Kept limit (mark_target_delivery_unknown f now target_id code message db).1
  unfolding mark_target_delivery_unknown
  lose-Kept f now target_id code message db kept = elim (Bool-cases (f 0)) [
    | inl e ↦ rw e kept
    | inr e ↦ rw e (
        Each-update (Within limit) (can_be_unknown target_id)
          (write_failure delivery_unknown code message none now) db.targets (λ u. refl)
          (λ j u there i w. ground arith) kept)
  ]

  report-Kept :
      (f : Faults) (now target_id : ℕ) (status : TaskStatus) (message : Option Text)
      (sent_at : Option ℕ) (db : Db) (r : Result Campaign × Db)
      → status ≢ retry_pending
      → update_target_status f now target_id status message sent_at db ≡ r
      → Kept limit db
      → Kept limit r.1
  report-Kept f now target_id status message sent_at db (err x, db') n h kept =
      subst (Kept limit)
        (sym (update_target_status_err f now target_id status message sent_at db x db' h)) kept
  report-Kept f now target_id status message sent_at db (ok c, db') n h kept =
      let (t, found, e, _) =
        update_target_status_ok f now target_id status message sent_at db c db' h in
      subst (Kept limit) (sym e) (
        Each-update (Within limit) (target_has_id target_id)
          (write_status (status_to_write t.status status) message (final_sent_at sent_at status now)
            now)
          db.targets (λ u. refl)
          (λ j u there i w.
            report_Within status message (final_sent_at sent_at status now) now u t n
              (same_row target_id j db.targets u t found there i) w)
          kept)

  reply-Kept :
      (matcher : Option (Text → Bool)) (f : Faults) (now campaign_id : ℕ) (phone text : Text)
      (replied_at : ℕ) (db : Db) (r : Result Campaign × Db)
      → register_reply matcher f now campaign_id phone text replied_at db ≡ r
      → Kept limit db
      → Kept limit r.1
  reply-Kept matcher f now campaign_id phone text replied_at db (err x, db') h kept =
      subst (Kept limit)
        (sym (register_reply_err matcher f now campaign_id phone text replied_at db db' x h)) kept
  reply-Kept matcher f now campaign_id phone text replied_at db (ok c, db') h kept =
      let (t, c, _, _, e, _) =
        register_reply_ok matcher f now campaign_id phone text replied_at db db' c h in
      subst (Kept limit) (sym e) (
        Each-update (Within limit) (answers campaign_id phone) (write_reply text replied_at now)
          db.targets (λ u. refl) (λ j u there i w. ground arith) kept)

  defer-Kept :
      (f : Faults) (now tenant_id until : ℕ) (db : Db)
      → Kept limit db
      → Kept limit (defer_retry_targets_without_accounts f now tenant_id until db).1
  unfolding defer_retry_targets_without_accounts
  defer-Kept f now tenant_id until db kept = elim (Bool-cases (f 0)) [
    | inl e ↦ rw e kept
    | inr e ↦ rw e (Each-update (Within limit) _ _ db.targets (λ u. refl) (λ j u there i w. w) kept)
  ]

  rows_Within :
      (now : ℕ) (c : Campaign) (ts : List CampaignTarget)
      → 0 < limit
      → All IsNew ts
      → All (Within limit) (map (target_row now c) ts)
  rows_Within now c [] l new = tt
  rows_Within now c (t ∷ ts) l new = let n = new.0 in (ground arith, rows_Within now c ts l new.1)

  create-Kept :
      (f : Faults) (now : ℕ) (c : Campaign) (ts : List CampaignTarget) (db : Db)
      → 0 < limit
      → All IsNew ts
      → Kept limit db
      → Kept limit (create_campaign f now c ts db).1
  create-Kept f now c ts db l new kept = elim (create_campaign-cases f now c ts db) [
    | inl e ↦ subst (Kept limit) (sym e) kept
    | inr e ↦ subst (Each (Within limit)) (sym e) (
        Each-append (Within limit) db.targets (map (target_row now c) ts) kept
          (rows_Within now c ts l new))
  ]

  Step-Kept : {db db' : Db} → 0 < limit → Step limit db db' → Kept limit db → Kept limit db'
  Step-Kept {db} l (claim f now outbox_id d) kept =
      claim-Kept f now outbox_id d db (assign_account_and_enqueue_target f now outbox_id d db) l
        refl kept
  Step-Kept {db} l (fail f now e m) kept =
      fail-Kept f now e db (apply_retryable_failure f now e db) m refl kept
  Step-Kept {db} l (lose f now target_id code message) kept =
      lose-Kept f now target_id code message db kept
  Step-Kept {db} l (reply matcher f now campaign_id phone text replied_at) kept =
      reply-Kept matcher f now campaign_id phone text replied_at db
        (register_reply matcher f now campaign_id phone text replied_at db) refl kept
  Step-Kept {db} l (defer f now tenant_id until) kept = defer-Kept f now tenant_id until db kept
  Step-Kept {db} l (create f now c ts new) kept = create-Kept f now c ts db l new kept
  Step-Kept l (keep e) kept = subst (Each (Within limit)) (sym e) kept
  Step-Kept {db} l (report f now target_id status message sent_at r) kept =
      report-Kept f now target_id status message sent_at db
        (update_target_status f now target_id status message sent_at db) r refl kept

  pub Reach-Kept : {db db' : Db} → 0 < limit → Reach limit db db' → Kept limit db → Kept limit db'
  Reach-Kept l here kept = kept
  Reach-Kept l (next r s) kept = Step-Kept l s (Reach-Kept l r kept)
