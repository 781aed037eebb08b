-- ===== src/Repository/Quota/Slots.antt =====
-- internal/repository/anti_ban.go: how many cold slots TryReserveColdSlot grants, and how far apart.
use aba_go_orchestrator.Common.{
  ℕ, ◌+◌, ◌*◌, ◌/◌, ◌≤◌, Bool, true, false, List, [], ◌∷◌, ◌<◌, Option, none, some, first, update,
  first-update, first_sound, All, length, Bool-cases, leb→le, if◌then◌else◌, ◌≡◌, refl, ◌⊎◌, inl,
  inr, arith,
}
use aba_go_orchestrator.Domain.Models.{TenantDailyQuota}
use aba_go_orchestrator.Repository.Store.{Db, Result, ok, err, Faults}
use aba_go_orchestrator.Repository.Quota.{
  ns_per_second, quota_of, has_cold_slot, is_spaced, take_cold_slot, reservable,
  try_reserve_cold_slot,
}

-- One call for a tenant's day: its time, the least interval asked for, its faults.
pub record Request : Type 0 where
  pub at : ℕ
  pub min_interval : ℕ
  pub faults : Faults

abbrev is_granted : Result Bool → Bool
is_granted (ok b) = b
is_granted (err e) = false

-- The times of the slots that a sequence of calls is granted.
pub grants : ℕ → ℕ → List Request → Db → List ℕ
grants tenant_id date [] db = []
grants tenant_id date (r ∷ rs) db =
    let (res, db') = try_reserve_cold_slot r.faults tenant_id date r.at r.min_interval db in
    let rest = grants tenant_id date rs db' in if is_granted res then r.at ∷ rest else rest

-- Each time is at least `gap` behind the one before it.
abbrev pub SpacedFrom : ℕ → Option ℕ → List ℕ → Type 0
SpacedFrom gap last [] = Unit {0}
SpacedFrom gap none (t ∷ ts) = SpacedFrom gap (some t) ts
SpacedFrom gap (some l) (t ∷ ts) = (l + gap ≤ t) × SpacedFrom gap (some t) ts

module _ (tenant_id date : ℕ) where
  abbrev today : Db → Option TenantDailyQuota
  today db = first (quota_of tenant_id date) db.quotas

  reserve_row :
      (at min_interval : ℕ) (qs : List TenantDailyQuota) (q : TenantDailyQuota)
      → first (quota_of tenant_id date) qs ≡ some q
      → first
          (quota_of tenant_id date)
          (update (reservable tenant_id date at min_interval) (take_cold_slot at) qs)
        ≡ some (if has_cold_slot at min_interval q then take_cold_slot at q else q)
  reserve_row at min_interval qs q h =
      rw
        (
          first-update (reservable tenant_id date at min_interval) (quota_of tenant_id date)
              (take_cold_slot at) qs (λ a. refl),
          h,
        )
        (rw (first_sound (quota_of tenant_id date) qs q h) refl)

  -- A call is granted a slot, or leaves the quota of the day as it was.
  reserve_cases :
      (r : Request) (db : Db) (q : TenantDailyQuota)
      → today db ≡ some q
      → let (res, db') = try_reserve_cold_slot r.faults tenant_id date r.at r.min_interval db in
        ((is_granted res ≡ true)
          × (has_cold_slot r.at r.min_interval q ≡ true)
          × (today db' ≡ some (take_cold_slot r.at q)))
        ⊎ ((is_granted res ≡ false) × (today db' ≡ some q))
  unfolding try_reserve_cold_slot
  reserve_cases r db q h = elim (Bool-cases (r.faults 0)) [
    | inl e ↦ rw e (inr (refl, h))
    | inr e ↦ elim (Bool-cases (has_cold_slot r.at r.min_interval q)) [
      | inl s ↦ rw (e, h) (inl (s, s, rw s at (reserve_row r.at r.min_interval db.quotas q h)))
      | inr s ↦ rw (e, h) (inr (s, rw s at (reserve_row r.at r.min_interval db.quotas q h)))
    ]
  ]

grant_spaced :
    (at min_interval s : ℕ) (last : Option ℕ) (ts : List ℕ)
    → s ≤ min_interval / ns_per_second
    → is_spaced last min_interval at ≡ true
    → SpacedFrom (s * ns_per_second) (some at) ts
    → SpacedFrom (s * ns_per_second) last (at ∷ ts)
grant_spaced at min_interval s none ts i h sp = sp
grant_spaced at min_interval s (some l) ts i h sp = (omega (arith, leb→le _ _ h), sp)

has_cold_slot_parts :
    (at min_interval : ℕ) (q : TenantDailyQuota)
    → has_cold_slot at min_interval q ≡ true
    → (q.cold_used < q.cold_limit) × (is_spaced q.last_cold_publish_at min_interval at ≡ true)
unfolding has_cold_slot
has_cold_slot_parts at min_interval q h = ground arith

-- However many calls ask for a cold slot of one tenant and day, and whichever of them fail: the
-- slots granted, with those used before, stay within the cold limit of the day; and if every call
-- asks for an interval of at least `s` seconds, each slot is at least `s` seconds behind the one
-- before it, the last one before these calls included.
pub cold_slots :
    (tenant_id date s : ℕ) (rs : List Request) (db : Db) (q : TenantDailyQuota)
    → first (quota_of tenant_id date) db.quotas ≡ some q
    → q.cold_used ≤ q.cold_limit
    → All (λ r. s ≤ r.min_interval / ns_per_second) rs
    → (length (grants tenant_id date rs db) + q.cold_used ≤ q.cold_limit)
      × SpacedFrom (s * ns_per_second) q.last_cold_publish_at (grants tenant_id date rs db)
unfolding grants
cold_slots tenant_id date s [] db q h l i = (omega arith, tt)
cold_slots tenant_id date s (r ∷ rs) db q h l i =
    let db' : Db = (try_reserve_cold_slot r.faults tenant_id date r.at r.min_interval db).1 in
    elim (reserve_cases tenant_id date r db q h) [
      | inl (g, slot, row) ↦
          let (room, spaced) = has_cold_slot_parts r.at r.min_interval q slot in
          let (fits, rest) =
            cold_slots tenant_id date s rs db' (take_cold_slot r.at q) row (omega arith) i.1 in
          rw g (
            omega arith,
            grant_spaced r.at r.min_interval s q.last_cold_publish_at (grants tenant_id date rs db')
                i.0 spaced rest,
          )
      | inr (g, row) ↦ rw g (cold_slots tenant_id date s rs db' q row l i.1)
    ]
