-- ===== src/Repository/Lifecycle.antt =====
-- internal/repository: what becomes of one target through the calls that change targets.
pub mod Moves
pub mod Calls
pub mod Course
use aba_go_orchestrator.Common.{
  ℕ, ◌≤◌, arith, Bool, true, false, Option, none, some, is_some, first, ◌≡◌, refl, sym, ap, ◌∙◌,
  subst, ◌⊎◌, inl, inr, List, [], ◌∷◌, ◌++◌, update, first-update, if◌then◌else◌, ◌==◌,
}
use mathlib.Core.Option
use aba_go_orchestrator.Domain.Status.{is_error_status, rank}
use aba_go_orchestrator.Domain.Models.{CampaignTarget}
use aba_go_orchestrator.Repository.Store.{target_has_id}

-- A moment that was recorded stays recorded.
abbrev pub StaysSet : Option ℕ → Option ℕ → Type 0
StaysSet before after = (before ≡ none) ⊎ (is_some after ≡ true)

-- What a target is stays: its id, campaign, client, phone, messenger and row of the sheet.
abbrev pub Same : CampaignTarget → CampaignTarget → Type 0
Same t t' =
    (t'.id ≡ t.id)
    × (t'.campaign_id ≡ t.campaign_id)
    × (t'.client_name ≡ t.client_name)
    × (t'.phone_normalized ≡ t.phone_normalized)
    × (t'.messenger_type ≡ t.messenger_type)
    × (t'.excel_row_index ≡ t.excel_row_index)

pub Same-refl : (t : CampaignTarget) → Same t t
Same-refl t = (refl, refl, refl, refl, refl, refl)

-- The row of a target before and after: whose it is stays, its attempts and the moments of its sending
-- and its reply are not taken back, and its status falls in rank only to an error status.
pub record Moved (t t' : CampaignTarget) : Type 0 where
  pub same : Same t t'
  pub attempts : t.attempt_count ≤ t'.attempt_count
  pub sent_stays : StaysSet t.sent_at t'.sent_at
  pub reply_stays : StaysSet t.replied_at t'.replied_at
  pub status : (rank t.status ≤ rank t'.status) ⊎ (is_error_status t'.status ≡ true)

pub StaysSet-refl : (a : Option ℕ) → StaysSet a a
StaysSet-refl none = inl refl
StaysSet-refl (some t) = inr refl

pub Moved-refl : (t : CampaignTarget) → Moved t t
Moved-refl t = record {
  same = Same-refl t;
  attempts = omega arith;
  sent_stays = StaysSet-refl t.sent_at;
  reply_stays = StaysSet-refl t.replied_at;
  status = inl (omega arith);
}

-- The row that an id finds, and what it has become.
abbrev pub Followed : ℕ → CampaignTarget → List CampaignTarget → Type 0
Followed j t ts = (t' : CampaignTarget) × (first (target_has_id j) ts ≡ some t') × Moved t t'

module _ (p : CampaignTarget → Bool) (f : CampaignTarget → CampaignTarget) where
  hit :
      (b : Bool) (t : CampaignTarget) → (b ≡ true → Moved t (f t)) → Moved t (if b then f t else t)
  hit true t h = h refl
  hit false t h = Moved-refl t

  pub Followed-update :
      (j : ℕ) (t : CampaignTarget) (ts : List CampaignTarget)
      → ((u : CampaignTarget) → (f u).id ≡ u.id)
      → (p t ≡ true → Moved t (f t))
      → first (target_has_id j) ts ≡ some t
      → Followed j t (update p f ts)
  Followed-update j t ts keep move found = (
    if p t then f t else t,
    rw (first-update p (target_has_id j) f ts (λ a. ap (λ i. i == j) (keep a)), found) refl,
    hit (p t) t move,
  )

first-append {ℓ} :
    {A : Type ℓ} (q : A → Bool) (x : A) (xs ys : List A)
    → first q xs ≡ some x
    → first q (xs ++ ys) ≡ some x
first-append q x [] ys h = absurd (cc)
first-append q x (y ∷ xs) ys h = ground (arith, first-append q x xs ys)

pub Followed-append :
    (j : ℕ) (t : CampaignTarget) (ts us : List CampaignTarget)
    → first (target_has_id j) ts ≡ some t
    → Followed j t (ts ++ us)
Followed-append j t ts us found = (t, first-append (target_has_id j) t ts us found, Moved-refl t)

pub Followed-here :
    (j : ℕ) (t : CampaignTarget) (ts ts' : List CampaignTarget)
    → ts' ≡ ts
    → first (target_has_id j) ts ≡ some t
    → Followed j t ts'
Followed-here j t ts ts' e found = (t, ap (first (target_has_id j)) e ∙ found, Moved-refl t)
