-- ===== src/Repository/Targets/Report.antt =====
-- internal/repository/postgres.go: what a status report does to a target and to its campaign.
use Prim.Native.Nat.{max}
use aba_go_orchestrator.Common.{
  ℕ, Text, true, false, Option, some, first, first-update_self, first-update_other, ◌≡◌, ◌≢◌, sym,
  subst, ◌⊎◌, arith,
}
use aba_go_orchestrator.Domain.Status.{TaskStatus, is_error_status, rank}
use aba_go_orchestrator.Domain.Models.{Campaign, CampaignTarget}
use aba_go_orchestrator.Repository.Store.{
  Db, Error, ok, err, Faults, campaign_has_id, target_has_id,
}
use aba_go_orchestrator.Repository.Targets.{
  status_to_write, after_report, write_status, final_sent_at, update_target_status,
}

module _ (f : Faults) (now target_id : ℕ) (status : TaskStatus) (last_error : Option Text)
    (sent_at : Option ℕ) (db : Db) where
  -- What a report that is accepted has read and written.
  pub update_target_status_ok :
      (c : Campaign) (db' : Db)
      → update_target_status f now target_id status last_error sent_at db ≡ (ok c, db')
      → (t : CampaignTarget) × (first (target_has_id target_id) db.targets ≡ some t)
        × (db' ≡ after_report target_id status last_error sent_at now t db)
        × (first (campaign_has_id t.campaign_id) db'.campaigns ≡ some c)
  unfolding update_target_status
  update_target_status_ok c db' h = ground arith

  -- A report that is refused changes nothing.
  pub update_target_status_err :
      (e : Error) (db' : Db)
      → update_target_status f now target_id status last_error sent_at db ≡ (err e, db')
      → db' ≡ db
  unfolding update_target_status
  update_target_status_err e db' h = ground arith

  target_after :
      (t : CampaignTarget)
      → first (target_has_id target_id) db.targets ≡ some t
      → first
          (target_has_id target_id)
          (after_report target_id status last_error sent_at now t db).targets
        ≡ some (
            write_status
              (status_to_write t.status status)
              last_error
              (final_sent_at sent_at status now)
              now
              t)
  target_after t h = first-update_self (target_has_id target_id) _ db.targets t (λ a k. k) h

-- The status that is written: an error status always, any other only if its rank is no lower.
pub status_to_write-rank :
    (old status : TaskStatus)
    → ((is_error_status status ≡ true) × (status_to_write old status ≡ status))
      ⊎ ((is_error_status status ≡ false)
          × (rank (status_to_write old status) ≡ max (rank old) (rank status))
          × ((status_to_write old status ≡ old) ⊎ (status_to_write old status ≡ status)))
unfolding status_to_write
status_to_write-rank old status = ground arith

-- A report that is accepted leaves every target of another id as it was. Its own target then has
-- the reported status if that is an error status; otherwise it keeps the higher of the two ranks,
-- with the old status or the reported one.
pub report_ranks :
    (f : Faults) (now target_id : ℕ) (status : TaskStatus) (last_error : Option Text)
    (sent_at : Option ℕ) (db db' : Db) (c : Campaign) (j : ℕ)
    → update_target_status f now target_id status last_error sent_at db ≡ (ok c, db')
    → j ≢ target_id
    → (t t' : CampaignTarget) × (first (target_has_id target_id) db.targets ≡ some t)
      × (first (target_has_id target_id) db'.targets ≡ some t')
      × (((is_error_status status ≡ true) × (t'.status ≡ status))
          ⊎ ((is_error_status status ≡ false)
              × (rank t'.status ≡ max (rank t.status) (rank status))
              × ((t'.status ≡ t.status) ⊎ (t'.status ≡ status))))
      × (first (target_has_id j) db'.targets ≡ first (target_has_id j) db.targets)
report_ranks f now target_id status last_error sent_at db db' c j h ne =
    let (t, found, e, _) =
      update_target_status_ok f now target_id status last_error sent_at db c db' h in
    (
      t,
      written t,
      found,
      subst (λ d. first (target_has_id target_id) d.targets ≡ some (written t)) (sym e)
          (target_after f now target_id status last_error sent_at db t found),
      status_to_write-rank t.status status,
      subst (λ d. first (target_has_id j) d.targets ≡ first (target_has_id j) db.targets) (sym e)
          (first-update_other (target_has_id target_id) (target_has_id j) _ db.targets
            (λ a k. ground arith) (λ a k. ground arith)),
    )
  where
    written : CampaignTarget → CampaignTarget
    written t =
        write_status (status_to_write t.status status) last_error (final_sent_at sent_at status now)
          now t
