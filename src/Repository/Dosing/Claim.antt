-- ===== src/Repository/Dosing/Claim.antt =====
-- internal/repository/anti_ban.go: what a claim of a target (AssignAccountAndEnqueueTarget) does.
use aba_go_orchestrator.Common.{
  ℕ, ◌+◌, ◌≤◌, ◌<◌, true, false, List, [], ◌∷◌, ◌++◌, Option, none, some, first, update,
  first-update_self, ◌≡◌, ◌∙◌, refl, sym, subst, ap, ==_refl, ◌⊎◌, inl, inr, arith,
}
use aba_go_orchestrator.Domain.Status.{pending}
use aba_go_orchestrator.Domain.Models.{CampaignTarget, TenantAccount}
use aba_go_orchestrator.Repository.Store.{
  Db, DailyUsage, Error, ok, err, Faults, target_has_id, account_has_id,
}
use aba_go_orchestrator.Repository.Dosing.{
  Dose, assign, dosed_message, is_eligible, claim, after_claim, reserve_daily_slot, utc_date,
  usage_of, bump_usage, assign_account_and_enqueue_target,
}

module _ (f : Faults) (now outbox_id : ℕ) (d : Dose) (db db' : Db) where
  -- What a claim that takes the target has read and written.
  pub claim_granted :
      assign_account_and_enqueue_target f now outbox_id d db ≡ (ok true, db')
      → (t : CampaignTarget) × (a : TenantAccount) × (usage : List DailyUsage) × (first
            (target_has_id d.target_id)
            db.targets
          ≡ some t)
        × (is_eligible now t ≡ true)
        × (first (account_has_id d.account_id) db.accounts ≡ some a)
        × (reserve_daily_slot a (utc_date d.publish_at) db.usage ≡ some usage)
        × (db' ≡ after_claim now outbox_id d usage db)
  unfolding assign_account_and_enqueue_target
  claim_granted h = ground arith

  pub claim_refused :
      assign_account_and_enqueue_target f now outbox_id d db ≡ (ok false, db')
      → (claim now (first (target_has_id d.target_id) db.targets) ≡ none) × (db' ≡ db)
  unfolding assign_account_and_enqueue_target
  claim_refused h = ground arith

  pub claim_failed :
      (e : Error) → assign_account_and_enqueue_target f now outbox_id d db ≡ (err e, db') → db' ≡ db
  unfolding assign_account_and_enqueue_target
  claim_failed e h = ground arith

assigned_row :
    (now outbox_id : ℕ) (d : Dose) (usage : List DailyUsage) (db : Db) (t : CampaignTarget)
    → first (target_has_id d.target_id) db.targets ≡ some t
    → first (target_has_id d.target_id) (after_claim now outbox_id d usage db).targets
      ≡ some (assign d.account_id d.tenant_id now t)
assigned_row now outbox_id d usage db t h =
    first-update_self (target_has_id d.target_id) (assign d.account_id d.tenant_id now) db.targets t
      (λ a k. k) h

assigned_not_eligible :
    (later account tenant now : ℕ) (t : CampaignTarget)
    → is_eligible later (assign account tenant now t) ≡ false
unfolding is_eligible
assigned_not_eligible later account tenant now t = ground arith

-- A claimed target is refused to every further claim as long as its row is as the claim left it: on any
-- tables `db''` with this row, whatever else was claimed, reported or stored in between, whatever the
-- second request asks for and whenever it comes, the answer is false and nothing is written, if the
-- first two statements of the claim do not fail.
pub claimed_once :
    (f g : Faults) (now later outbox_id outbox_id' : ℕ) (d d' : Dose) (db db' db'' : Db)
    → d'.target_id ≡ d.target_id
    → assign_account_and_enqueue_target f now outbox_id d db ≡ (ok true, db')
    → first (target_has_id d.target_id) db''.targets ≡ first (target_has_id d.target_id) db'.targets
    → g 0 ≡ false
    → g 1 ≡ false
    → assign_account_and_enqueue_target g later outbox_id' d' db'' ≡ (ok false, db'')
unfolding assign_account_and_enqueue_target
claimed_once f g now later outbox_id outbox_id' d d' db db' db'' same h stays p q =
    let (t, _, usage, found, _, _, _, e) = claim_granted f now outbox_id d db db' h in
    let refused : claim later (some (assign d.account_id d.tenant_id now t)) ≡ none =
      rw (assigned_not_eligible later d.account_id d.tenant_id now t) refl in
    let claimed_row : first (target_has_id d.target_id) db'.targets
        ≡ some (assign d.account_id d.tenant_id now t) =
      rw e (assigned_row now outbox_id d usage db t found) in
    let row : first (target_has_id d'.target_id) db''.targets
        ≡ some (assign d.account_id d.tenant_id now t) =
      rw same (stays ∙ claimed_row) in
    rw (p, q, row, refused) refl

-- The usage row that a successful reservation leaves: a first use of the day, or one use more,
-- which stays within the daily limit.
abbrev pub UsageStep : TenantAccount → ℕ → List DailyUsage → List DailyUsage → Type 0
UsageStep a date before after =
    (u' : DailyUsage) × (first (usage_of a.id date) after ≡ some u')
    × (((first (usage_of a.id date) before ≡ none) × (u'.used_count ≡ 1))
        ⊎ ((u : DailyUsage) × (first (usage_of a.id date) before ≡ some u)
            × (u'.used_count ≡ u.used_count + 1)
            × (u'.used_count ≤ a.daily_limit)))

fresh_use : TenantAccount → ℕ → DailyUsage
fresh_use a date = record { tenant_account_id = a.id; usage_date = date; used_count = 1 }

bump_usage-UsageStep :
    (a : TenantAccount) (date : ℕ) (before after : List DailyUsage) (o : Option DailyUsage)
    → first (usage_of a.id date) before ≡ o
    → bump_usage a date before o ≡ some after
    → UsageStep a date before after
unfolding fresh_use
bump_usage-UsageStep a date before after none e k =
    let same : fresh_use a date ∷ before ≡ after = cc in
    subst (UsageStep a date before) same
      (fresh_use a date, rw (==_refl a.id, ==_refl date) refl, inl (e, refl))
bump_usage-UsageStep a date before after (some u) e k =
    let raise : DailyUsage → DailyUsage = λ v. record v { used_count = v.used_count + 1 } in
    let same : update (usage_of a.id date) raise before ≡ after = ground arith in
    let room : u.used_count < a.daily_limit = ground arith in
    subst (UsageStep a date before) same (
      raise u,
      first-update_self (usage_of a.id date) raise before u (λ v m. m) e,
      inr (u, e, refl, omega arith),
    )

-- A claim that takes its target. The target was eligible; it is `pending` again with one attempt
-- more and the chosen account. Exactly one message was added to the outbox, the requested one. One
-- use of the account was counted for the UTC day of its publication, and from the second use of a
-- day on the count stays within the daily limit.
pub claim_effect :
    (f : Faults) (now outbox_id : ℕ) (d : Dose) (db db' : Db)
    → assign_account_and_enqueue_target f now outbox_id d db ≡ (ok true, db')
    → (t : CampaignTarget) × (t' : CampaignTarget) × (a : TenantAccount) × (first
          (target_has_id d.target_id)
          db.targets
        ≡ some t)
      × (is_eligible now t ≡ true)
      × (first (target_has_id d.target_id) db'.targets ≡ some t')
      × (t'.status ≡ pending)
      × (t'.attempt_count ≡ t.attempt_count + 1)
      × (t'.tenant_account_id ≡ some d.account_id)
      × (db'.outbox ≡ db.outbox ++ dosed_message outbox_id d ∷ [])
      × (first (account_has_id d.account_id) db.accounts ≡ some a)
      × UsageStep a (utc_date d.publish_at) db.usage db'.usage
unfolding reserve_daily_slot
claim_effect f now outbox_id d db db' h =
    let (t, a, usage, found, fit, sender, reserved, e) = claim_granted f now outbox_id d db db' h in
    let date : ℕ = utc_date d.publish_at in
    (
      t,
      assign d.account_id d.tenant_id now t,
      a,
      found,
      fit,
      subst
          (λ x.
            first (target_has_id d.target_id) x.targets
            ≡ some (assign d.account_id d.tenant_id now t))
          (sym e) (assigned_row now outbox_id d usage db t found),
      refl,
      refl,
      refl,
      ap (λ x. x.outbox) e,
      sender,
      subst (λ x. UsageStep a date db.usage x.usage) (sym e)
          (bump_usage-UsageStep a date db.usage usage (first (usage_of a.id date) db.usage) refl
            reserved),
    )
