-- ===== src/Transport/Webhooks/Told.antt =====
-- internal/transport/http.go: whom a callback tells what.
use aba_go_orchestrator.Common.{
  ℕ, Text, ◌==◌, ==_iff, Bool, true, false, Option, some, [], map, select, first, first_sound,
  if◌then◌else◌, ◌≡◌, refl, ap, ◌⊎◌, inl, inr, arith,
}
use aba_go_orchestrator.Domain.Status.{TaskStatus}
use aba_go_orchestrator.Domain.Models.{Campaign, CampaignTarget}
use aba_go_orchestrator.Repository.Store.{
  Db, Result, ok, err, Faults, campaign_has_id, target_has_id,
}
use aba_go_orchestrator.Repository.Targets.{update_target_status}
use aba_go_orchestrator.Repository.Targets.Report.{
  update_target_status_ok, update_target_status_err,
}
use aba_go_orchestrator.Usecase.Callback.{
  is_deferred, non_empty, campaign_for_target, update_target_status_with_code,
}
use aba_go_orchestrator.Transport.{status_ok, http_error, Parsers, state_of}
use aba_go_orchestrator.Transport.Hub.{Hub, push, broadcast_status}
use aba_go_orchestrator.Transport.Webhooks.{
  Callback, Answer, time_of, callback_answer, worker_callback,
}

-- The campaign of the target, as it is in the tables.
abbrev pub IsCampaignOf : ℕ → Db → Db → Campaign → Type 0
IsCampaignOf target_id db db' c =
    (t : CampaignTarget) × (first (target_has_id target_id) db.targets ≡ some t)
    × (first (campaign_has_id t.campaign_id) db'.campaigns ≡ some c)

campaign_for_target_ok :
    (f : Faults) (target_id : ℕ) (db : Db) (c : Campaign)
    → campaign_for_target f target_id db ≡ ok c
    → IsCampaignOf target_id db db c
unfolding campaign_for_target
campaign_for_target_ok f target_id db c h = ground arith

-- What the use case gives is the campaign as the tables have it, or the tables are as they were.
abbrev pub Given : ℕ → Db → Result Campaign × Db → Type 0
Given target_id db (ok c, db') = IsCampaignOf target_id db db' c
Given target_id db (err e, db') = db' ≡ db

module _ (f g : Faults) (now target_id : ℕ) (status : TaskStatus) (db : Db) where
  deferred-Given :
      (r : Result Campaign) → campaign_for_target f target_id db ≡ r → Given target_id db (r, db)
  deferred-Given (ok c) e = campaign_for_target_ok f target_id db c e
  deferred-Given (err x) e = refl

  reported-Given :
      (message : Option Text) (sent_at : Option ℕ) (r : Result Campaign × Db)
      → update_target_status g now target_id status message sent_at db ≡ r
      → Given target_id db r
  reported-Given message sent_at (ok c, db') e =
      let (t, found, _, there) =
        update_target_status_ok g now target_id status message sent_at db c db' e in
      (t, found, there)
  reported-Given message sent_at (err x, db') e =
      update_target_status_err g now target_id status message sent_at db x db' e

  with_code-Given :
      (code message : Text) (sent_at : Option ℕ)
      → Given target_id db
          (update_target_status_with_code f g now target_id status code message sent_at db)
  unfolding update_target_status_with_code
  with_code-Given code message sent_at = by_test (is_deferred status code)
    where
      by_test :
          (b : Bool)
          → Given target_id db (
              if b
              then (campaign_for_target f target_id db, db)
              else update_target_status g now target_id status (non_empty message) sent_at db)
      by_test true = deferred-Given (campaign_for_target f target_id db) refl
      by_test false =
          reported-Given (non_empty message) sent_at
            (update_target_status g now target_id status (non_empty message) sent_at db) refl

-- The clients of a campaign are told its state, and nobody else is told anything.
abbrev pub IsTold : Hub → ℕ → Campaign → Answer → Type 0
IsTold h campaign_id c a =
    a.pushed ≡ map (push (state_of c)) (select (λ k. k.campaign_id == campaign_id) h)

abbrev pub Told : Hub → ℕ → Db → Answer → Type 0
Told h target_id db a =
    (t : CampaignTarget) × (c : Campaign) × (a.response ≡ status_ok)
    × (first (target_has_id target_id) db.targets ≡ some t)
    × (first (campaign_has_id t.campaign_id) a.db.campaigns ≡ some c)
    × IsTold h t.campaign_id c a

abbrev pub Refused : Db → Answer → Type 0
Refused db a = (a.response ≡ http_error 500) × (a.db ≡ db) × (a.pushed ≡ [])

answer-Told :
    (h : Hub) (target_id : ℕ) (db : Db) (r : Result Campaign × Db)
    → Given target_id db r
    → Told h target_id db (callback_answer h r) ⊎ Refused db (callback_answer h r)
unfolding broadcast_status
answer-Told h target_id db (err e, db') same = inr (refl, same, refl)
answer-Told h target_id db (ok c, db') (t, found, there) =
    let same : c.id ≡ t.campaign_id =
      (==_iff c.id t.campaign_id).0
        (first_sound (campaign_has_id t.campaign_id) db'.campaigns c there) in
    inl (
      t,
      c,
      refl,
      found,
      there,
      ap (λ i. map (push (state_of c)) (select (λ k. k.campaign_id == i) h)) same,
    )

-- A callback with a body that decodes is answered 200 where the target and its campaign are there, and
-- then each connection that listens to this campaign, and no other, is told the status and the counters
-- that the campaign has in the tables afterwards; or it is answered 500, and then no table is changed
-- and nobody is told anything.
pub worker_callback-Told :
    (p : Parsers) (f g : Faults) (now : ℕ) (h : Hub) (k : Callback) (db : Db)
    → Told h k.task_id db (worker_callback p f g now h (some k) db)
      ⊎ Refused db (worker_callback p f g now h (some k) db)
unfolding worker_callback
worker_callback-Told p f g now h k db =
    answer-Told h k.task_id db
      (update_target_status_with_code f g now k.task_id k.status k.error_code k.error_message
        (time_of p k.sent_at) db)
      (with_code-Given f g now k.task_id k.status db k.error_code k.error_message
        (time_of p k.sent_at))
