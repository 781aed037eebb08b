-- ===== src/Repository/Lifecycle/Course.antt =====
-- internal/repository: the course of a target through any sequence of calls.
use aba_go_orchestrator.Common.{ℕ, ◌≤◌, arith, Option, some, first, ◌≡◌, ◌∙◌, ◌⊎◌, inl, inr, true}
use aba_go_orchestrator.Domain.Status.{is_error_status, rank}
use aba_go_orchestrator.Domain.Models.{CampaignTarget}
use aba_go_orchestrator.Repository.Store.{Db, target_has_id}
use aba_go_orchestrator.Repository.Attempts.{Reach, here, next}
use aba_go_orchestrator.Repository.Lifecycle.{Same, Same-refl, StaysSet, StaysSet-refl}
use aba_go_orchestrator.Repository.Lifecycle.Calls.{Step-Followed}

abbrev pub Persists : CampaignTarget → CampaignTarget → Type 0
Persists t t' =
    Same t t'
    × (t.attempt_count ≤ t'.attempt_count)
    × StaysSet t.sent_at t'.sent_at
    × StaysSet t.replied_at t'.replied_at

Same-trans : (a b c : CampaignTarget) → Same a b → Same b c → Same a c
Same-trans a b c h k = (k.0 ∙ h.0, k.1 ∙ h.1, k.2 ∙ h.2, k.3 ∙ h.3, k.4 ∙ h.4, k.5 ∙ h.5)

StaysSet-trans : (a b c : Option ℕ) → StaysSet a b → StaysSet b c → StaysSet a c
StaysSet-trans a b c h k = ground (arith, h, k)

-- Through any calls that change targets, in any order and with any statement failing, a target that is
-- there stays there, as the same client of the same campaign in the same row of the sheet; its attempts
-- never decrease, and once it was sent or replied, the moment of that stays recorded.
pub target-Persists :
    {limit : ℕ} {db db' : Db} (j : ℕ) (t : CampaignTarget)
    → Reach limit db db'
    → first (target_has_id j) db.targets ≡ some t
    → (t' : CampaignTarget) × (first (target_has_id j) db'.targets ≡ some t') × Persists t t'
target-Persists j t here there =
    (t, there, (Same-refl t, omega arith, StaysSet-refl t.sent_at, StaysSet-refl t.replied_at))
target-Persists j t (next r e) there =
    let (u, found, (same, more, sent, reply)) = target-Persists j t r there in
    let (t', found', m) = Step-Followed j u e found in
    (
      t',
      found',
      (
        Same-trans t u t' same m.same,
        omega (arith, more, m.attempts),
        StaysSet-trans t.sent_at u.sent_at t'.sent_at sent m.sent_stays,
        StaysSet-trans t.replied_at u.replied_at t'.replied_at reply m.reply_stays,
      ),
    )

-- The target is there with an error status.
abbrev pub IsFailedIn : ℕ → Db → Type 0
IsFailedIn j db =
    (u : CampaignTarget) × (first (target_has_id j) db.targets ≡ some u)
    × (is_error_status u.status ≡ true)

-- One of these calls, no other than those of `r`, left the target with an error status.
unfoldable pub HadError : {limit : ℕ} {db db' : Db} → ℕ → Reach limit db db' → Type 0
HadError j here = ⊥
HadError j (next {db'' = after} r e) = HadError j r ⊎ IsFailedIn j after

-- For any sequence `r` of calls that change targets, with any statement failing: at its end the target
-- is there, and its status is not lower in rank than at the beginning, or else one of the calls of `r`
-- itself left the target with an error status.
pub rank_falls_by_error :
    {limit : ℕ} {db db' : Db} (j : ℕ) (t : CampaignTarget) (r : Reach limit db db')
    → first (target_has_id j) db.targets ≡ some t
    → (t' : CampaignTarget) × (first (target_has_id j) db'.targets ≡ some t')
      × ((rank t.status ≤ rank t'.status) ⊎ HadError j r)
unfolding HadError
rank_falls_by_error j t here there = (t, there, inl (omega arith))
rank_falls_by_error j t (next {db'' = after} r e) there =
    let (u, found, h) = rank_falls_by_error j t r there in
    let (t', found', m) = Step-Followed j u e found in (t', found', onward u t' found' h m.status)
  where
    onward :
        (u t' : CampaignTarget)
        → first (target_has_id j) after.targets ≡ some t'
        → (rank t.status ≤ rank u.status) ⊎ HadError j r
        → (rank u.status ≤ rank t'.status) ⊎ (is_error_status t'.status ≡ true)
        → (rank t.status ≤ rank t'.status) ⊎ (HadError j r ⊎ IsFailedIn j after)
    onward u t' f (inl a) (inl b) = inl (omega (arith, a, b))
    onward u t' f (inl a) (inr b) = inr (inr (t', f, b))
    onward u t' f (inr h) b = inr (inl h)
