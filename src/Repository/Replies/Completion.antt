-- ===== src/Repository/Replies/Completion.antt =====
-- internal/repository/postgres.go: what a registered reply changes, and when it completes the
-- campaign.
use aba_go_orchestrator.Common.{
  ℕ, ◌≤◌, Text, Bool, true, false, List, [], ◌∷◌, ◌++◌, Option, some, first, first-update_self,
  exists, count_where, All, leb→le, ==_refl, text_eq_refl, Bool-cases, if◌then◌else◌, ◌≡◌, refl,
  sym, subst, ap, ◌⊎◌, ◌↔◌, inl, inr, arith,
}
use aba_go_orchestrator.Domain.Status.{TaskStatus, replied, completed, is}
use aba_go_orchestrator.Domain.Models.{Campaign, CampaignTarget, BlockedRecipient}
use aba_go_orchestrator.Repository.Store.{Db, Error, ok, err, Faults, campaign_has_id}
use aba_go_orchestrator.Repository.Replies.{
  answers, write_reply, reply_row, blocks, add_blocked, of_campaign, has_replied, all_replied,
  complete, complete_row, after_reply, is_unsubscribe_reply, register_reply,
}

-- A target of another campaign, or one that has replied.
abbrev pub RepliedIn : ℕ → CampaignTarget → Type 0
RepliedIn campaign_id t = (of_campaign campaign_id t ≡ false) ⊎ (t.status ≡ replied)

is_replied : (s : TaskStatus) → is s replied ≡ true → s ≡ replied
is_replied s h = ground arith

replied-le :
    (campaign_id : ℕ) (ts : List CampaignTarget)
    → count_where (has_replied campaign_id) ts ≤ count_where (of_campaign campaign_id) ts
replied-le campaign_id [] = omega arith
replied-le campaign_id (t ∷ ts) = ground (arith, replied-le campaign_id ts)

counts-RepliedIn :
    (campaign_id : ℕ) (ts : List CampaignTarget)
    → count_where (of_campaign campaign_id) ts ≤ count_where (has_replied campaign_id) ts
    → All (RepliedIn campaign_id) ts
counts-RepliedIn campaign_id [] h = tt
counts-RepliedIn campaign_id (t ∷ ts) h = (
  ground (arith, replied-le campaign_id ts, is_replied t.status),
  counts-RepliedIn campaign_id ts (ground (arith, replied-le campaign_id ts)),
)

RepliedIn-counts :
    (campaign_id : ℕ) (ts : List CampaignTarget)
    → All (RepliedIn campaign_id) ts
    → count_where (of_campaign campaign_id) ts ≤ count_where (has_replied campaign_id) ts
RepliedIn-counts campaign_id [] h = omega arith
RepliedIn-counts campaign_id (t ∷ ts) h = ground (arith, RepliedIn-counts campaign_id ts h.1)

pub all_replied_iff :
    (campaign_id : ℕ) (ts : List CampaignTarget)
    → (all_replied campaign_id ts ≡ true) ↔ All (RepliedIn campaign_id) ts
unfolding all_replied
all_replied_iff campaign_id ts = (
  λ h. counts-RepliedIn campaign_id ts (leb→le _ _ h),
  λ h. ground (arith, RepliedIn-counts campaign_id ts h),
)

-- What a reply that is accepted has read and written.
pub register_reply_ok :
    (matcher : Option (Text → Bool)) (f : Faults) (now campaign_id : ℕ) (phone text : Text)
    (replied_at : ℕ) (db db' : Db) (c' : Campaign)
    → register_reply matcher f now campaign_id phone text replied_at db ≡ (ok c', db')
    → (t : CampaignTarget) × (c : Campaign) × (first (answers campaign_id phone) db.targets
        ≡ some t)
      × (first (campaign_has_id campaign_id) db.campaigns ≡ some c)
      × (db'
          ≡ after_reply
              (is_unsubscribe_reply matcher text)
              campaign_id
              phone
              text
              replied_at
              now
              t
              c
              db)
      × (c' ≡ complete (all_replied campaign_id db'.targets) c)
unfolding register_reply
register_reply_ok matcher f now campaign_id phone text replied_at db db' c' h = ground arith

pub register_reply_err :
    (matcher : Option (Text → Bool)) (f : Faults) (now campaign_id : ℕ) (phone text : Text)
    (replied_at : ℕ) (db db' : Db) (x : Error)
    → register_reply matcher f now campaign_id phone text replied_at db ≡ (err x, db')
    → db' ≡ db
unfolding register_reply
register_reply_err matcher f now campaign_id phone text replied_at db db' x h = ground arith

exists-append_last {ℓ} :
    {A : Type ℓ} (p : A → Bool) (xs : List A) (x : A) → p x ≡ true → exists p (xs ++ x ∷ []) ≡ true
exists-append_last p [] x h = rw h refl
exists-append_last p (y ∷ xs) x h = ground (arith, exists-append_last p xs x h)

exists-add_blocked :
    (tenant_id : ℕ) (phone : Text) (at : ℕ) (bs : List BlockedRecipient)
    → exists (blocks tenant_id phone) (add_blocked tenant_id phone at bs) ≡ true
unfolding add_blocked
exists-add_blocked tenant_id phone at bs = elim (Bool-cases (exists (blocks tenant_id phone) bs)) [
  | inl e ↦ rw e e
  | inr e ↦ rw e (
      exists-append_last (blocks tenant_id phone) bs _
        (rw (==_refl tenant_id, text_eq_refl phone) refl))
]

-- The campaign is done when its last target has replied.
abbrev pub Completes : ℕ → Campaign → Campaign → Campaign → List CampaignTarget → Type 0
Completes campaign_id c row returned ts =
    (All (RepliedIn campaign_id) ts × (row.status ≡ completed) × (returned.status ≡ completed))
    ⊎ (¬ All (RepliedIn campaign_id) ts × (row ≡ c) × (returned ≡ c))

completes :
    (campaign_id now : ℕ) (c : Campaign) (ts : List CampaignTarget) (b : Bool)
    → all_replied campaign_id ts ≡ b
    → Completes campaign_id c (complete_row b now c) (complete b c) ts
completes campaign_id now c ts true e = inl ((all_replied_iff campaign_id ts).0 e, refl, refl)
completes campaign_id now c ts false e =
    inr (λ a. cc (e, (all_replied_iff campaign_id ts).1 a), refl, refl)

blocked_after :
    (u : Bool) (c : Campaign) (phone : Text) (at : ℕ) (bs : List BlockedRecipient)
    → (u ≡ false)
      ⊎ (exists (blocks c.tenant_id phone) (if u then add_blocked c.tenant_id phone at bs else bs)
          ≡ true)
blocked_after true c phone at bs = inr (exists-add_blocked c.tenant_id phone at bs)
blocked_after false c phone at bs = inl refl

complete_row_id : (b : Bool) (now : ℕ) (c : Campaign) → (complete_row b now c).id ≡ c.id
complete_row_id true now c = refl
complete_row_id false now c = refl

-- A reply that is accepted. The first target with this phone in the campaign is `replied`, with the
-- text and the time of the reply, and one reply for it is stored. The campaign is completed exactly
-- if by now every target of it has replied, and otherwise its row is as it was. If the text asks to
-- unsubscribe, the phone is on the blocklist of the campaign's tenant.
pub reply-Completes :
    (matcher : Option (Text → Bool)) (f : Faults) (now campaign_id : ℕ) (phone text : Text)
    (replied_at : ℕ) (db db' : Db) (c' : Campaign)
    → register_reply matcher f now campaign_id phone text replied_at db ≡ (ok c', db')
    → (t : CampaignTarget) × (c : Campaign) × (row : Campaign) × (first
          (answers campaign_id phone)
          db.targets
        ≡ some t)
      × (first (answers campaign_id phone) db'.targets ≡ some (write_reply text replied_at now t))
      × (db'.replies ≡ db.replies ++ reply_row db t text replied_at ∷ [])
      × (first (campaign_has_id campaign_id) db.campaigns ≡ some c)
      × (first (campaign_has_id campaign_id) db'.campaigns ≡ some row)
      × Completes campaign_id c row c' db'.targets
      × ((is_unsubscribe_reply matcher text ≡ false)
          ⊎ (exists (blocks c.tenant_id phone) db'.blocked ≡ true))
reply-Completes matcher f now campaign_id phone text replied_at db db' c' h =
    let (t, c, found, owner, e, returned) =
      register_reply_ok matcher f now campaign_id phone text replied_at db db' c' h in
    let done : Bool = all_replied campaign_id db'.targets in
    let u : Bool = is_unsubscribe_reply matcher text in
    let post : Db = after_reply u campaign_id phone text replied_at now t c db in
    (
      t,
      c,
      complete_row done now c,
      found,
      subst
          (λ d.
            first (answers campaign_id phone) d.targets ≡ some (write_reply text replied_at now t))
          (sym e)
          (first-update_self (answers campaign_id phone) (write_reply text replied_at now)
            db.targets t (λ a k. k) found),
      ap (λ d. d.replies) e,
      owner,
      subst
          (λ d.
            first (campaign_has_id campaign_id) d.campaigns
            ≡ some (complete_row (all_replied campaign_id d.targets) now c))
          (sym e)
          (first-update_self (campaign_has_id campaign_id)
            (complete_row (all_replied campaign_id post.targets) now) db.campaigns c
            (λ a k. rw (complete_row_id (all_replied campaign_id post.targets) now a) k) owner),
      subst (λ x. Completes campaign_id c (complete_row done now c) x db'.targets) (sym returned)
          (completes campaign_id now c db'.targets done refl),
      subst (λ d. (u ≡ false) ⊎ (exists (blocks c.tenant_id phone) d.blocked ≡ true)) (sym e)
          (blocked_after u c phone replied_at db.blocked),
    )
