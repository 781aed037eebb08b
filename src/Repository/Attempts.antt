-- ===== src/Repository/Attempts.antt =====
-- internal/repository: how often a target is dosed over its life, through any sequence of calls that
-- change targets.
pub mod Kept
pub mod Bound
use aba_go_orchestrator.Common.{
  All, ℕ, ◌≤◌, ◌<◌, Text, Bool, true, false, Option, none, some, first, first_sound, List, ◌≡◌, ◌≢◌,
  refl, sym, subst, inl, inr, arith, Bool-cases,
}
use aba_go_orchestrator.Domain.Status.{TaskStatus, pending, retry_pending, delivery_unknown}
use aba_go_orchestrator.Domain.Models.{Campaign, CampaignTarget}
use aba_go_orchestrator.Repository.Store.{Db, Result, ok, err, Faults, target_has_id}
use aba_go_orchestrator.Repository.Store.Each.{Each, Each-update}
use aba_go_orchestrator.Repository.Targets.{
  status_to_write, write_status, final_sent_at, update_target_status,
}
use aba_go_orchestrator.Repository.Targets.Report.{
  update_target_status_ok, update_target_status_err,
}
use aba_go_orchestrator.Repository.Retry.{
  defer_retry_targets_without_accounts, Failure, attempts_or_default, is_exhausted, fail_target,
  write_failure, apply_retryable_failure, mark_target_delivery_unknown, can_be_unknown,
}
use aba_go_orchestrator.Repository.Retry.Policy.{
  apply_retryable_failure_ok, apply_retryable_failure_err,
}
use aba_go_orchestrator.Repository.Dosing.{
  Dose, assign, is_eligible, assign_account_and_enqueue_target,
}
use aba_go_orchestrator.Repository.Dosing.Claim.{claim_granted, claim_refused, claim_failed}
use aba_go_orchestrator.Repository.Replies.{register_reply}
use aba_go_orchestrator.Repository.Uploads.{create_campaign}

-- Within the limit, and below it while a retry is pending.
abbrev pub Within : ℕ → CampaignTarget → Type 0
Within limit t = (t.attempt_count ≤ limit) × (t.status ≡ retry_pending → t.attempt_count < limit)

abbrev pub IsNew : CampaignTarget → Type 0
IsNew t = (t.attempt_count ≡ 0) × (t.status ≡ pending)

-- One call of the repository, or one that leaves the targets alone. A report of `retry_pending` is left
-- out: only a callback that names it reports it.
pub data Step (limit : ℕ) : Db → Db → Type 0 where
  claim :
      {db : Db} (f : Faults) (now outbox_id : ℕ) (d : Dose)
      → Step limit db (assign_account_and_enqueue_target f now outbox_id d db).1
  fail :
      {db : Db} (f : Faults) (now : ℕ) (e : Failure)
      → attempts_or_default e.max_attempts ≡ limit
      → Step limit db (apply_retryable_failure f now e db).1
  lose :
      {db : Db} (f : Faults) (now target_id : ℕ) (code message : Text)
      → Step limit db (mark_target_delivery_unknown f now target_id code message db).1
  reply :
      {db : Db} (matcher : Option (Text → Bool)) (f : Faults) (now campaign_id : ℕ)
      (phone text : Text) (replied_at : ℕ)
      → Step limit db (register_reply matcher f now campaign_id phone text replied_at db).1
  defer :
      {db : Db} (f : Faults) (now tenant_id until : ℕ)
      → Step limit db (defer_retry_targets_without_accounts f now tenant_id until db).1
  create :
      {db : Db} (f : Faults) (now : ℕ) (c : Campaign) (ts : List CampaignTarget)
      → All IsNew ts
      → Step limit db (create_campaign f now c ts db).1
  keep : {db db' : Db} → db'.targets ≡ db.targets → Step limit db db'
  report :
      {db : Db} (f : Faults) (now target_id : ℕ) (status : TaskStatus) (message : Option Text)
      (sent_at : Option ℕ)
      → status ≢ retry_pending
      → Step limit db (update_target_status f now target_id status message sent_at db).1

pub data Reach (limit : ℕ) (db : Db) : Db → Type 0 where
  here : Reach limit db db
  next : {db' db'' : Db} → Reach limit db db' → Step limit db' db'' → Reach limit db db''

pub reach_trans : {limit : ℕ} {a b c : Db} → Reach limit a b → Reach limit b c → Reach limit a c
reach_trans r here = r
reach_trans r (next q s) = next (reach_trans r q) s

abbrev pub Kept : ℕ → Db → Type 0
Kept limit db = Each (Within limit) db.targets
