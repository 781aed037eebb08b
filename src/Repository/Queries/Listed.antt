-- ===== src/Repository/Queries/Listed.antt =====
-- internal/repository: what the queries list.
use aba_go_orchestrator.Common.{
  ℕ, ◌+◌, ◌≤◌, Bool, true, false, ◌==◌, ◌&&◌, ◌||◌, List, [], ◌∷◌, ◌++◌, select, exists,
  count_where, count_where-append, ◌≡◌, ◌↔◌, refl, sym, ap, ◌∙◌, subst, arith, Bool-cases, inl, inr,
  Some,
}
use mathlib.Core.List.{Perm}
use mathlib.Core.List.Perm
use aba_go_orchestrator.Domain.Status.{CampaignStatus, processing, campaign_is}
use aba_go_orchestrator.Domain.Models.{Campaign}
use aba_go_orchestrator.Repository.Store.{Db, ok, Faults}
use aba_go_orchestrator.Repository.Queries.{
  distinct_tenants, add_distinct, is_processing, get_tenants_with_processing_campaigns,
}

or_assoc : (a b c : Bool) → (a || b) || c ≡ a || (b || c)
or_assoc true b c = refl
or_assoc false b c = refl

exists-snoc :
    (i t : ℕ) (ids : List ℕ)
    → exists (λ j. j == i) (ids ++ t ∷ []) ≡ exists (λ j. j == i) ids || t == i
exists-snoc i t [] = ground arith
exists-snoc i t (j ∷ ids) = ground (arith, exists-snoc i t ids)

-- A number that is there is no news.
exists-same :
    (i t : ℕ) (ids : List ℕ)
    → exists (λ j. j == t) ids ≡ true
    → exists (λ j. j == i) ids ≡ exists (λ j. j == i) ids || t == i
exists-same i t [] h = cc
exists-same i t (j ∷ ids) h = ground (arith, h, exists-same i t ids)

add_distinct-exists :
    (i t : ℕ) (ids : List ℕ)
    → exists (λ j. j == i) (add_distinct t ids) ≡ exists (λ j. j == i) ids || t == i
add_distinct-exists i t ids = elim (Bool-cases (exists (λ j. j == t) ids)) [
  | inl e ↦ rw e (exists-same i t ids e)
  | inr e ↦ rw e (exists-snoc i t ids)
]

none-count :
    (i : ℕ) (ids : List ℕ) → exists (λ j. j == i) ids ≡ false → count_where (λ j. j == i) ids ≡ 0
none-count i [] h = refl
none-count i (j ∷ ids) h = ground (arith, h, none-count i ids)

add_distinct-count :
    (i t : ℕ) (ids : List ℕ)
    → ((j : ℕ) → count_where (λ k. k == j) ids ≤ 1)
    → count_where (λ k. k == i) (add_distinct t ids) ≤ 1
add_distinct-count i t ids h = elim (Bool-cases (exists (λ j. j == t) ids)) [
  | inl e ↦ rw e (h i)
  | inr e ↦ rw e (fresh e)
]
  where
    fresh : exists (λ j. j == t) ids ≡ false → count_where (λ k. k == i) (ids ++ t ∷ []) ≤ 1
    fresh e =
        let sum : count_where (λ k. k == i) (ids ++ t ∷ [])
            ≡ count_where (λ k. k == i) ids + count_where (λ k. k == i) (t ∷ []) =
          count_where-append (λ k. k == i) ids (t ∷ []) in
        elim (Bool-cases (t == i)) [
          | inl same ↦
              let equal : t ≡ i = ground (arith, same) in
              let zero_before : count_where (λ k. k == i) ids ≡ 0 =
                none-count i ids (subst (λ k. exists (λ j. j == k) ids ≡ false) equal e) in
              ground (arith, sum, zero_before, same)
          | inr other ↦ ground (arith, sum, h i, other)
        ]

distinct_tenants-exists :
    (i : ℕ) (cs : List Campaign) (ids : List ℕ)
    → exists (λ j. j == i) (distinct_tenants cs ids)
      ≡ exists (λ j. j == i) ids || exists (λ c. c.tenant_id == i) cs
unfolding distinct_tenants
distinct_tenants-exists i [] ids = ground arith
distinct_tenants-exists i (c ∷ cs) ids =
    distinct_tenants-exists i cs (add_distinct c.tenant_id ids)
    ∙ (ap (λ b. b || exists (λ d. d.tenant_id == i) cs) (add_distinct-exists i c.tenant_id ids)
        ∙ or_assoc (exists (λ j. j == i) ids) (c.tenant_id == i)
            (exists (λ d. d.tenant_id == i) cs))

distinct_tenants-count :
    (i : ℕ) (cs : List Campaign) (ids : List ℕ)
    → ((j : ℕ) → count_where (λ k. k == j) ids ≤ 1)
    → count_where (λ j. j == i) (distinct_tenants cs ids) ≤ 1
unfolding distinct_tenants
distinct_tenants-count i [] ids h = h i
distinct_tenants-count i (c ∷ cs) ids h =
    distinct_tenants-count i cs (add_distinct c.tenant_id ids)
      (λ j. add_distinct-count j c.tenant_id ids h)

exists-select :
    {A : Type 0} (p q : A → Bool) (xs : List A)
    → exists p (select q xs) ≡ exists (λ x. q x && p x) xs
exists-select p q [] = refl
exists-select p q (x ∷ xs) = ground (arith, exists-select p q xs)

processing_iff : (s : CampaignStatus) → (campaign_is s processing ≡ true) ↔ (s ≡ processing)
processing_iff s = ground arith

is_processing_iff :
    (c : Campaign) → (is_processing c ≡ true) ↔ ((c.status ≡ processing) × (c.deleted ≡ false))
is_processing_iff c = ground (arith, processing_iff c.status)

-- A campaign of the list that has the property, where the test says so.
exists_iff :
    {A : Type 0} (p : A → Bool) (P : A → Type 0) (xs : List A)
    → ((x : A) → (p x ≡ true) ↔ P x)
    → (exists p xs ≡ true) ↔ Some P xs
exists_iff p P [] h = (λ e. absurd (cc), λ e. absurd e)
exists_iff p P (x ∷ xs) h =
    let (to, from) = exists_iff p P xs h in
    let (sound, complete) = h x in
    elim (Bool-cases (p x)) [
      | inl e ↦ (λ k. inl (sound e), λ s. rw e refl)
      | inr e ↦ (
        λ k. inr (to (rw_false (p x) (exists p xs) e k)),
        λ s. elim s [ inl y ↦ absurd (cc (e, complete y)) | inr y ↦ rw e (from y) ],
      )
    ]
  where
    rw_false : (b c : Bool) → b ≡ false → (b || c) ≡ true → c ≡ true
    rw_false b c e k = ground (arith, e, k)

-- The campaign is one of the tenant, processed and not deleted.
abbrev pub IsServed : ℕ → Campaign → Type 0
IsServed tenant_id c = (c.tenant_id ≡ tenant_id) × (c.status ≡ processing) × (c.deleted ≡ false)

IsServed-iff :
    (i : ℕ) (c : Campaign) → ((is_processing c && c.tenant_id == i) ≡ true) ↔ IsServed i c
IsServed-iff i c = ground (arith, is_processing_iff c)

-- The tenants that the doser serves: a tenant is listed exactly if one of the campaigns is of this tenant,
-- has the status `processing` and is not deleted; and no tenant is listed twice, so that none is dosed
-- twice at a tick.
pub tenants_listed :
    (f : Faults) (db : Db) (ids : List ℕ) (i : ℕ)
    → get_tenants_with_processing_campaigns f db ≡ ok ids
    → ((exists (λ j. j == i) ids ≡ true) ↔ Some (IsServed i) db.campaigns)
      × (count_where (λ j. j == i) ids ≤ 1)
unfolding get_tenants_with_processing_campaigns
tenants_listed f db ids i h =
    let same : ids ≡ distinct_tenants (select is_processing db.campaigns) [] = ground (arith, h) in
    let served : exists (λ j. j == i) ids
        ≡ exists (λ c. is_processing c && c.tenant_id == i) db.campaigns =
      rw same (
        distinct_tenants-exists i (select is_processing db.campaigns) []
        ∙ exists-select (λ c. c.tenant_id == i) is_processing db.campaigns) in
    let (to, from) =
      exists_iff (λ c. is_processing c && c.tenant_id == i) (IsServed i) db.campaigns
        (IsServed-iff i) in
    (
      (λ e. to (sym served ∙ e), λ s. served ∙ from s),
      rw same (distinct_tenants-count i (select is_processing db.campaigns) [] (λ j. omega arith)),
    )
