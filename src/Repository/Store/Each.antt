-- ===== src/Repository/Store/Each.antt =====
-- What holds of every target that a query by its id finds.
use mathlib.Core.Option
use mathlib.Core.Option.{some-injective}
use aba_go_orchestrator.Common.{
  ℕ, Bool, true, false, some, List, [], ◌∷◌, ◌++◌, All, first, first-All, update, first-update,
  Option-cases, ◌==◌, if◌then◌else◌, ◌≡◌, refl, ap, subst, inl, inr,
}
use aba_go_orchestrator.Domain.Models.{CampaignTarget}
use aba_go_orchestrator.Repository.Store.{target_has_id}

abbrev pub Each {ℓ} : (CampaignTarget → Type ℓ) → List CampaignTarget → Type ℓ
Each P ts = (j : ℕ) (t : CampaignTarget) → first (target_has_id j) ts ≡ some t → P t

module _ {ℓ} (P : CampaignTarget → Type ℓ) (p : CampaignTarget → Bool)
    (f : CampaignTarget → CampaignTarget) where
  hit :
      (b : Bool) (t : CampaignTarget) → (b ≡ true → P t → P (f t)) → P t → P (if b then f t else t)
  hit true t h x = h refl x
  hit false t h x = x

  -- An update that keeps the ids and, for each target that it hits, the property.
  pub Each-update :
      (ts : List CampaignTarget)
      → ((t : CampaignTarget) → (f t).id ≡ t.id)
      → ((j : ℕ) (t : CampaignTarget)
          → first (target_has_id j) ts ≡ some t
          → p t ≡ true
          → P t
          → P (f t))
      → Each P ts
      → Each P (update p f ts)
  Each-update ts keep ih each j t e = elim (Option-cases (first (target_has_id j) ts)) [
    | inl missing ↦ absurd (cc (found, missing))
    | inr (u, there) ↦
        let same : (if p u then f u else u) ≡ t = cc (found, there) in
        subst P same (hit (p u) u (ih j u there) (each j u there))
  ]
    where
      found : Option.map (λ a. if p a then f a else a) (first (target_has_id j) ts) ≡ some t
      found = rw (first-update p (target_has_id j) f ts (λ a. ap (λ i. i == j) (keep a))) at e

module _ {ℓ} (P : CampaignTarget → Type ℓ) where
  found_in :
      (j : ℕ) (t : CampaignTarget) (ts us : List CampaignTarget)
      → All P us
      → (first (target_has_id j) ts ≡ some t → P t)
      → first (target_has_id j) (ts ++ us) ≡ some t
      → P t
  found_in j t [] us all old e = first-All P (target_has_id j) us t all e
  found_in j t (u ∷ ts) us all old e = step (target_has_id j u) (found_in j t ts us all) old e
    where
      step :
          (b : Bool)
          → ((first (target_has_id j) ts ≡ some t → P t)
              → first (target_has_id j) (ts ++ us) ≡ some t
              → P t)
          → ((if b then some u else first (target_has_id j) ts) ≡ some t → P t)
          → (if b then some u else first (target_has_id j) (ts ++ us)) ≡ some t
          → P t
      step true later old = old
      step false later old = later old

  -- Rows added at the end.
  pub Each-append : (ts us : List CampaignTarget) → Each P ts → All P us → Each P (ts ++ us)
  Each-append ts us each all j t = found_in j t ts us all (each j t)
