-- ===== src/Examples/Repository.antt =====
-- internal/repository: calls on one campaign with one target.
use aba_go_orchestrator.Common.{
  lit, ◌++◌, ◌∷◌, [], List, length, ◌≡◌, ◌≢◌, refl, ◌⊎◌, true, false, Bool, to_upper, arith, ◌≤◌,
  ◌+◌, ◌*◌, first, exists, none, some, text_eq, trim_space,
}
use Prim.Native.Nat.{max}
use aba_go_orchestrator.Domain.Errors.{is_session_health_error}
use aba_go_orchestrator.Domain.Status.{
  pending, retry_pending, sent, viewed, delivered, failed, completed, is_error_status, rank,
}
use aba_go_orchestrator.Domain.Models.{Campaign, CampaignTarget, TenantAccount}
use aba_go_orchestrator.Repository.Store.{
  Db, Result, ok, no_faults, target_has_id, account_has_id, campaign_has_id,
}
use aba_go_orchestrator.Repository.Targets.{status_to_write, count_report, update_target_status}
use aba_go_orchestrator.Repository.Targets.Report.{report_ranks}
use aba_go_orchestrator.Repository.Targets.Counters.{deliveries, deliveries_overcount}
use aba_go_orchestrator.Repository.Retry.{settled, cools, apply_retryable_failure}
use aba_go_orchestrator.Repository.Retry.Policy.{Outcome, retry_policy}
use aba_go_orchestrator.Repository.Dosing.{
  utc_date, is_eligible, reserve_daily_slot, dosed_message, assign_account_and_enqueue_target,
}
use aba_go_orchestrator.Repository.Dosing.Claim.{UsageStep, claimed_once, claim_effect}
use aba_go_orchestrator.Repository.Attempts.{Reach, here, next, claim, report}
use aba_go_orchestrator.Repository.Lifecycle.Course.{HadError, rank_falls_by_error}
use aba_go_orchestrator.Repository.Quota.{ns_per_second}
use aba_go_orchestrator.Repository.Quota.Slots.{Request, grants, SpacedFrom, cold_slots}
use aba_go_orchestrator.Repository.Replies.{
  add_blocked, all_replied, answers, blocks, is_unsubscribe_reply, register_reply, reply_row,
  write_reply,
}
use aba_go_orchestrator.Repository.Replies.Completion.{Completes, reply-Completes}
use aba_go_orchestrator.Examples.Data.{phone, campaign, target, quota, db_with, dose, failure}

-- The first claim of a new target.
abbrev claimed : Result Bool × Db
claimed = assign_account_and_enqueue_target no_faults 100 7 dose (db_with pending)

claim_is_granted :
    assign_account_and_enqueue_target no_faults 100 7 dose (db_with pending) ≡ (ok true, claimed.1)
unfolding assign_account_and_enqueue_target is_eligible reserve_daily_slot utc_date
claim_is_granted = refl

-- The tables when the message of the claim has left the outbox.
abbrev later_tables : Db
later_tables = record claimed.1 { outbox = [] }

-- A claim, a report that the message was viewed, and a late one that it was sent.
abbrev seen : Db
seen = (update_target_status no_faults 110 20 viewed none (some 105) claimed.1).1

abbrev late : Db
late = (update_target_status no_faults 120 20 sent none (some 106) seen).1

viewed_report : viewed ≢ retry_pending
viewed_report e = absurd (cc (e))

sent_report : sent ≢ retry_pending
sent_report e = absurd (cc (e))

abbrev calls : Reach 3 (db_with pending) late
calls =
    next
      (next (next here (claim no_faults 100 7 dose))
        (report no_faults 110 20 viewed none (some 105) viewed_report))
      (report no_faults 120 20 sent none (some 106) sent_report)

rank_falls_by_error_example :
    (t' : CampaignTarget) × (first (target_has_id 20) late.targets ≡ some t')
    × ((rank pending ≤ rank t'.status) ⊎ HadError 20 calls)
rank_falls_by_error_example = rank_falls_by_error 20 (target pending) calls refl

claimed_once_example :
    assign_account_and_enqueue_target no_faults 200 8 dose later_tables ≡ (ok false, later_tables)
claimed_once_example =
    claimed_once no_faults no_faults 100 200 7 8 dose dose (db_with pending) claimed.1 later_tables
      refl claim_is_granted refl refl refl

claim_effect_example :
    (t : CampaignTarget) × (t' : CampaignTarget) × (a : TenantAccount) × (first
        (target_has_id 20)
        (db_with pending).targets
      ≡ some t)
    × (is_eligible 100 t ≡ true)
    × (first (target_has_id 20) claimed.1.targets ≡ some t')
    × (t'.status ≡ pending)
    × (t'.attempt_count ≡ t.attempt_count + 1)
    × (t'.tenant_account_id ≡ some 3)
    × (claimed.1.outbox ≡ [] ++ dosed_message 7 dose ∷ [])
    × (first (account_has_id 3) (db_with pending).accounts ≡ some a)
    × UsageStep a (utc_date 100) [] claimed.1.usage
claim_effect_example =
    claim_effect no_faults 100 7 dose (db_with pending) claimed.1 claim_is_granted

-- The failure of that claim; the account needs to be logged in again.
abbrev retried : Result Bool × Db
retried = apply_retryable_failure no_faults 150 failure claimed.1

retry_is_accepted : apply_retryable_failure no_faults 150 failure claimed.1 ≡ (ok true, retried.1)
unfolding apply_retryable_failure settled assign_account_and_enqueue_target is_eligible
    reserve_daily_slot utc_date cools is_session_health_error text_eq to_upper trim_space
retry_is_accepted = refl

retry_policy_example :
    (t : CampaignTarget) × (t' : CampaignTarget) × (first (target_has_id 20) claimed.1.targets
      ≡ some t)
    × (first (target_has_id 20) retried.1.targets ≡ some t')
    × (t'.attempt_count ≡ t.attempt_count)
    × Outcome failure claimed.1 retried.1 t t' true
retry_policy_example = retry_policy no_faults 150 failure claimed.1 retried.1 true retry_is_accepted

-- A report of `failed` on a target that the client has viewed.
abbrev reported : Result Campaign × Db
reported = update_target_status no_faults 150 20 failed none none (db_with viewed)

report_is_accepted :
    update_target_status no_faults 150 20 failed none none (db_with viewed)
    ≡ (ok (record campaign { error_count = 1; updated_at = 150 }), reported.1)
unfolding update_target_status status_to_write count_report is_error_status rank
report_is_accepted = refl

report_ranks_example :
    (t t' : CampaignTarget) × (first (target_has_id 20) (db_with viewed).targets ≡ some t)
    × (first (target_has_id 20) reported.1.targets ≡ some t')
    × (((is_error_status failed ≡ true) × (t'.status ≡ failed))
        ⊎ ((is_error_status failed ≡ false)
            × (rank t'.status ≡ max (rank t.status) (rank failed))
            × ((t'.status ≡ t.status) ⊎ (t'.status ≡ failed))))
    × (first (target_has_id 21) reported.1.targets
        ≡ first (target_has_id 21) (db_with viewed).targets)
report_ranks_example =
    report_ranks no_faults 150 20 failed none none (db_with viewed) reported.1
      (record campaign { error_count = 1; updated_at = 150 }) 21 report_is_accepted (ground arith)

deliveries_overcount_example :
    (t' : CampaignTarget) × (c' : Campaign) × (first
        (target_has_id 20)
        (deliveries 3 20 (db_with viewed)).targets
      ≡ some t')
    × (t'.status ≡ viewed)
    × (first (campaign_has_id 10) (deliveries 3 20 (db_with viewed)).campaigns ≡ some c')
    × (c'.processed_count ≡ 0 + 3)
deliveries_overcount_example =
    deliveries_overcount 3 20 (db_with viewed) (target viewed) campaign refl refl refl

-- Two calls an hour apart, with a minute asked for.
abbrev requests : List Request
requests =
    record { at = 0; min_interval = 60_000_000_000; faults = no_faults }
    ∷ record { at = 3_600_000_000_000; min_interval = 60_000_000_000; faults = no_faults }
    ∷ []

cold_slots_example :
    (length (grants 1 0 requests (db_with pending)) + 0 ≤ 2)
    × SpacedFrom (60 * ns_per_second) none (grants 1 0 requests (db_with pending))
cold_slots_example =
    cold_slots 1 0 60 requests (db_with pending) quota refl (omega arith)
      (omega arith, (omega arith, tt))

-- The client of the only target asks to be left alone.
abbrev answered : Result Campaign × Db
answered = register_reply none no_faults 300 10 phone (lit "@") 290 (db_with delivered)

abbrev done : Campaign
done = record campaign { status = completed }

reply_is_accepted :
    register_reply none no_faults 300 10 phone (lit "@") 290 (db_with delivered)
    ≡ (ok done, answered.1)
unfolding register_reply all_replied is_unsubscribe_reply text_eq trim_space add_blocked
reply_is_accepted = refl

reply-Completes_example :
    (t : CampaignTarget) × (c : Campaign) × (row : Campaign) × (first
        (answers 10 phone)
        (db_with delivered).targets
      ≡ some t)
    × (first (answers 10 phone) answered.1.targets ≡ some (write_reply (lit "@") 290 300 t))
    × (answered.1.replies ≡ [] ++ reply_row (db_with delivered) t (lit "@") 290 ∷ [])
    × (first (campaign_has_id 10) (db_with delivered).campaigns ≡ some c)
    × (first (campaign_has_id 10) answered.1.campaigns ≡ some row)
    × Completes 10 c row done answered.1.targets
    × ((is_unsubscribe_reply none (lit "@") ≡ false)
        ⊎ (exists (blocks c.tenant_id phone) answered.1.blocked ≡ true))
reply-Completes_example =
    reply-Completes none no_faults 300 10 phone (lit "@") 290 (db_with delivered) answered.1 done
      reply_is_accepted
