-- ===== src/Repository/Targets/Counters.antt =====
-- internal/repository/postgres.go: the campaign counters that UpdateTargetStatus keeps.
use aba_go_orchestrator.Common.{
  ℕ, zero, suc, ◌+◌, none, some, first, first-update_self, ◌≡◌, refl, arith,
}
use aba_go_orchestrator.Domain.Status.{TaskStatus, delivered, viewed, is_error_status, rank}
use aba_go_orchestrator.Domain.Models.{Campaign, CampaignTarget}
use aba_go_orchestrator.Repository.Store.{Db, no_faults, campaign_has_id, target_has_id}
use aba_go_orchestrator.Repository.Targets.{
  status_to_write, count_report, update_target_status, after_report,
}

-- `n` reports of `delivered` on one target, none of which fails.
abbrev pub deliveries : ℕ → ℕ → Db → Db
deliveries zero target_id db = db
deliveries (suc n) target_id db =
    deliveries n target_id (update_target_status no_faults n target_id delivered none none db).1

module _ (now target_id : ℕ) (db : Db) (t : CampaignTarget) (c : Campaign)
    (found : first (target_has_id target_id) db.targets ≡ some t)
    (owner : first (campaign_has_id t.campaign_id) db.campaigns ≡ some c)
    (seen : t.status ≡ viewed) where
  abbrev next : Db
  next = after_report target_id delivered none none now t db

  campaign_after :
      first (campaign_has_id t.campaign_id) next.campaigns
      ≡ some (count_report t.status delivered now c)
  unfolding count_report
  campaign_after =
      first-update_self (campaign_has_id t.campaign_id) _ db.campaigns c (λ a k. ground arith) owner

  delivery_lem : (update_target_status no_faults now target_id delivered none none db).1 ≡ next
  unfolding update_target_status status_to_write count_report rank is_error_status
  delivery_lem = ground (arith, campaign_after)

  still_viewed :
      (t' : CampaignTarget) × (first (target_has_id target_id) next.targets ≡ some t')
      × (t'.status ≡ viewed)
      × (t'.campaign_id ≡ t.campaign_id)
  unfolding status_to_write rank is_error_status
  still_viewed = (
    _,
    first-update_self (target_has_id target_id) _ db.targets t (λ a k. k) found,
    ground arith,
    refl,
  )

counted :
    (now : ℕ) (c : Campaign) (old : TaskStatus)
    → old ≡ viewed
    → (count_report old delivered now c).processed_count ≡ c.processed_count + 1
unfolding count_report
counted now c old h = ground arith

-- A target that has been viewed stays `viewed` under late reports of `delivered`, and each of them,
-- however many, adds one to the processed count of its campaign.
pub deliveries_overcount :
    (n target_id : ℕ) (db : Db) (t : CampaignTarget) (c : Campaign)
    → first (target_has_id target_id) db.targets ≡ some t
    → first (campaign_has_id t.campaign_id) db.campaigns ≡ some c
    → t.status ≡ viewed
    → (t' : CampaignTarget) × (c' : Campaign) × (first
          (target_has_id target_id)
          (deliveries n target_id db).targets
        ≡ some t')
      × (t'.status ≡ viewed)
      × (first (campaign_has_id t.campaign_id) (deliveries n target_id db).campaigns ≡ some c')
      × (c'.processed_count ≡ c.processed_count + n)
deliveries_overcount zero target_id db t c found owner seen =
    (t, c, found, seen, owner, omega arith)
deliveries_overcount (suc n) target_id db t c found owner seen =
    let (t', found', seen', same) = still_viewed n target_id db t c found owner seen in
    let (t'', c'', a, b, d, e) =
      deliveries_overcount n target_id
        (update_target_status no_faults n target_id delivered none none db).1 t'
        (count_report t.status delivered n c)
        (rw (delivery_lem n target_id db t c found owner seen) found')
        (rw (delivery_lem n target_id db t c found owner seen, same)
          (campaign_after n target_id db t c found owner seen))
        seen' in
    (t'', c'', a, b, rw (← same) d, ground (arith, counted n c t.status seen))
