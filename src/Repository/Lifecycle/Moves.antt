-- ===== src/Repository/Lifecycle/Moves.antt =====
-- internal/repository: what each call writes to a target.
use aba_go_orchestrator.Common.{
  ℕ, Text, Bool, true, false, Option, none, some, ◌≤◌, ◌⊎◌, ◌≡◌, refl, inl, inr, arith,
}
use aba_go_orchestrator.Domain.Status.{
  TaskStatus, pending, retry_pending, replied, delivery_unknown, rank, is_error_status,
}
use aba_go_orchestrator.Domain.Models.{CampaignTarget}
use aba_go_orchestrator.Repository.Store.{or_else}
use aba_go_orchestrator.Repository.Targets.{status_to_write, write_status}
use aba_go_orchestrator.Repository.Retry.{Failure, fail_target, settled, write_failure}
use aba_go_orchestrator.Repository.Dosing.{assign, is_eligible}
use aba_go_orchestrator.Repository.Replies.{write_reply}
use aba_go_orchestrator.Repository.Lifecycle.{Moved, Same-refl, StaysSet, StaysSet-refl}

eligible_rank :
    (now : ℕ) (t : CampaignTarget)
    → is_eligible now t ≡ true
    → (rank t.status ≤ rank pending) ⊎ (is_error_status pending ≡ true)
unfolding is_eligible rank
eligible_rank now t h = ground arith

open_rank : (s : TaskStatus) → settled s ≡ none → rank s ≤ rank retry_pending
unfolding settled rank
open_rank s h = ground arith

rank_bound : (s : TaskStatus) → rank s ≤ rank replied
unfolding rank
rank_bound s = ground arith

report_rank :
    (old status : TaskStatus)
    → (rank old ≤ rank (status_to_write old status))
      ⊎ (is_error_status (status_to_write old status) ≡ true)
unfolding status_to_write
report_rank old status = ground arith

StaysSet-or_else : (a b : Option ℕ) → StaysSet b (or_else a b)
StaysSet-or_else none b = StaysSet-refl b
StaysSet-or_else (some t) b = inr refl

pub eligible_Moved :
    (now account tenant : ℕ) (t : CampaignTarget)
    → is_eligible now t ≡ true
    → Moved t (assign account tenant now t)
unfolding is_eligible rank is_error_status
eligible_Moved now account tenant t h = record {
  same = Same-refl t;
  attempts = omega arith;
  sent_stays = StaysSet-refl t.sent_at;
  reply_stays = StaysSet-refl t.replied_at;
  status = eligible_rank now t h;
}

pub failure_Moved :
    (now : ℕ) (e : Failure) (b : Bool) (t : CampaignTarget)
    → settled t.status ≡ none
    → Moved t (fail_target now e b t)
unfolding settled rank is_error_status
failure_Moved now e true t h = record {
  same = Same-refl t;
  attempts = omega arith;
  sent_stays = StaysSet-refl t.sent_at;
  reply_stays = StaysSet-refl t.replied_at;
  status = inr refl;
}
failure_Moved now e false t h = record {
  same = Same-refl t;
  attempts = omega arith;
  sent_stays = StaysSet-refl t.sent_at;
  reply_stays = StaysSet-refl t.replied_at;
  status = inl (open_rank t.status h);
}

pub unknown_Moved :
    (now : ℕ) (code message : Text) (t : CampaignTarget)
    → Moved t (write_failure delivery_unknown code message none now t)
unfolding is_error_status
unknown_Moved now code message t = record {
  same = Same-refl t;
  attempts = omega arith;
  sent_stays = StaysSet-refl t.sent_at;
  reply_stays = StaysSet-refl t.replied_at;
  status = inr refl;
}

pub reply_Moved :
    (text : Text) (replied_at now : ℕ) (t : CampaignTarget)
    → Moved t (write_reply text replied_at now t)
unfolding rank
reply_Moved text replied_at now t = record {
  same = Same-refl t;
  attempts = omega arith;
  sent_stays = StaysSet-refl t.sent_at;
  reply_stays = inr refl;
  status = inl (rank_bound t.status);
}

pub deferred_Moved :
    (now until : ℕ) (t : CampaignTarget)
    → Moved t (record t { next_attempt_at = some until; updated_at = now })
deferred_Moved now until t = record {
  same = Same-refl t;
  attempts = omega arith;
  sent_stays = StaysSet-refl t.sent_at;
  reply_stays = StaysSet-refl t.replied_at;
  status = inl (omega arith);
}

pub report_Moved :
    (status : TaskStatus) (message : Option Text) (sent_at : Option ℕ) (now : ℕ)
    (t : CampaignTarget)
    → Moved t (write_status (status_to_write t.status status) message sent_at now t)
unfolding status_to_write rank is_error_status
report_Moved status message sent_at now t = record {
  same = Same-refl t;
  attempts = omega arith;
  sent_stays = StaysSet-or_else sent_at t.sent_at;
  reply_stays = StaysSet-refl t.replied_at;
  status = report_rank t.status status;
}
