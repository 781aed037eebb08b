-- ===== src/Worker/Limits/Ticks.antt =====
-- internal/worker/campaign_doser.go: the repository calls of a tick.
use aba_go_orchestrator.Common.{
  ℕ, ◌+◌, ◌/◌, not, Text, Bool, true, false, Option, none, some, List, [], ◌∷◌, ltb, if◌then◌else◌,
  ◌≡◌, arith, leb,
}
use aba_go_orchestrator.Domain.Models.{TenantAccount, TenantDailyQuota, PendingTargetForDosing}
use aba_go_orchestrator.Repository.Store.{Db, Result, ok, err, Faults}
use aba_go_orchestrator.Repository.Dosing.{Dose, list_assignable_tenant_accounts}
use aba_go_orchestrator.Repository.Pending.{get_next_pending_target}
use aba_go_orchestrator.Repository.Quota.{
  get_or_create_tenant_daily_quota, try_reserve_cold_slot, increment_warm_used,
}
use aba_go_orchestrator.Repository.Attempts.{Reach, here, next, claim, defer, keep, reach_trans}
use aba_go_orchestrator.Config.{Config, day, random_cold_interval, is_within_work_window}
use aba_go_orchestrator.Worker.Accounts.{Cursors, pick_account}
use aba_go_orchestrator.Worker.Doser.{
  is_too_soon, schedule_cold, dose_cold, warm_or_cold, with_quota, with_accounts, dose_tenant,
  dose_all_tenants,
}
use aba_go_orchestrator.Worker.Schedule.{
  Outside, Doser, Returned, enqueue_cold, count_warm, enqueue, schedule_with, schedule_target,
  dose_of,
}

try_reserve_targets :
    (f : Faults) (tenant date at gap : ℕ) (db : Db)
    → (try_reserve_cold_slot f tenant date at gap db).1.targets ≡ db.targets
unfolding try_reserve_cold_slot
try_reserve_targets f tenant date at gap db = ground arith

increment_targets :
    (f : Faults) (tenant date : ℕ) (db : Db)
    → (increment_warm_used f tenant date db).1.targets ≡ db.targets
unfolding increment_warm_used
increment_targets f tenant date db = ground arith

quota_targets :
    (random : ℕ → ℕ) (f : Faults) (tenant date low high : ℕ) (db : Db)
    → (get_or_create_tenant_daily_quota random f tenant date low high db).1.targets ≡ db.targets
unfolding get_or_create_tenant_daily_quota
quota_targets random f tenant date low high db = ground arith

module _ (limit : ℕ) (o : Outside) (c : Config) (now : ℕ) where
  -- The database of an answer is reached.
  abbrev Reaches : Db → Returned × Doser → Type 0
  Reaches db x = Reach limit db x.1.db

  -- One branch of an `if`.
  either :
      (b : Bool) (x y : Returned × Doser) {db : Db}
      → Reach limit db x.1.db
      → Reach limit db y.1.db
      → Reach limit db (if b then x else y).1.db
  either true x y p q = p
  either false x y p q = q

  enqueue_cold_reach :
      (db : Db) (d : Dose) (r : Result Bool × Db)
      → r.1.targets ≡ db.targets
      → Reach limit db (enqueue_cold o now d r).1
  enqueue_cold_reach db d (err e, db') h = next here (keep h)
  enqueue_cold_reach db d (ok false, db') h = next here (keep h)
  enqueue_cold_reach db d (ok true, db') h =
      next (next here (keep h)) (claim (o.faults 5) now o.fresh_id d)

  count_warm_reach :
      (db : Db) (tenant date : ℕ) (r : Result Bool × Db)
      → Reach limit db r.1
      → Reach limit db (count_warm o tenant date r).1
  count_warm_reach db tenant date (err e, db') h = h
  count_warm_reach db tenant date (ok dosed, db') h =
      next h (keep (increment_targets (o.faults 6) tenant date db'))

  enqueue_reach :
      (date : ℕ) (is_cold : Bool) (interval : ℕ) (target : PendingTargetForDosing)
      (account : TenantAccount) (payload : Option Text) (db : Db)
      → Reach limit db (enqueue o now date is_cold interval target account payload db).1
  enqueue_reach date is_cold interval target account none db = here
  enqueue_reach date true interval target account (some payload) db =
      enqueue_cold_reach db _
        (try_reserve_cold_slot (o.faults 4) target.tenant_id date now interval db)
        (try_reserve_targets (o.faults 4) target.tenant_id date now interval db)
  enqueue_reach date false interval target account (some payload) db =
      count_warm_reach db target.tenant_id date _ (
        next here (
          claim (o.faults 5) now o.fresh_id
            (dose_of false target account payload (now + interval))))

  schedule_with_reach :
      (date : ℕ) (is_cold : Bool) (interval : ℕ) (target : PendingTargetForDosing)
      (account : Option TenantAccount) (db : Db)
      → Reach limit db (schedule_with o c now date is_cold interval target account db).1
  schedule_with_reach date is_cold interval target none db =
      next here (defer (o.faults 4) now target.tenant_id _)
  schedule_with_reach date is_cold interval target (some account) db =
      enqueue_reach date is_cold interval target account _ db

  schedule_target_reach :
      (date : ℕ) (is_cold : Bool) (interval : ℕ) (target : PendingTargetForDosing)
      (accounts : List TenantAccount) (s : Doser)
      → Reaches s.db (schedule_target o c now date is_cold interval target accounts s)
  unfolding schedule_target
  schedule_target_reach date is_cold interval target accounts s =
      schedule_with_reach date is_cold interval target
        (pick_account target.tenant_id accounts target.preferred_account s.cursors).0 s.db

  schedule_cold_reach :
      (date interval : ℕ) (accounts : List TenantAccount) (s : Doser)
      (target : Option PendingTargetForDosing)
      → Reaches s.db (schedule_cold o c now date interval accounts s target)
  schedule_cold_reach date interval accounts s none = here
  schedule_cold_reach date interval accounts s (some target) =
      schedule_target_reach date true interval target accounts s

  dose_cold_reach :
      (tenant date : ℕ) (quota : TenantDailyQuota) (accounts : List TenantAccount) (s : Doser)
      → Reaches s.db (dose_cold o c now tenant date quota accounts s)
  unfolding dose_cold
  dose_cold_reach tenant date quota accounts s =
      let interval = random_cold_interval o.random c in
      either (not (is_within_work_window c now)) _ _ here (
        either (leb quota.cold_limit quota.cold_used) _ _ here (
          either (is_too_soon quota.last_cold_publish_at now interval) _ _ here (
            either (o.faults 3 0) _ _ here (
              schedule_cold_reach date interval accounts s
                (get_next_pending_target o.locked s.db now tenant false)))))

  warm_or_cold_reach :
      (tenant date : ℕ) (quota : TenantDailyQuota) (accounts : List TenantAccount) (s : Doser)
      (target : Option PendingTargetForDosing)
      → Reaches s.db (warm_or_cold o c now tenant date quota accounts s target)
  warm_or_cold_reach tenant date quota accounts s none =
      dose_cold_reach tenant date quota accounts s
  warm_or_cold_reach tenant date quota accounts s (some target) =
      schedule_target_reach date false 0 target accounts s

  with_quota_reach :
      (tenant date : ℕ) (accounts : List TenantAccount) (cs : Cursors) (db : Db)
      (r : Result TenantDailyQuota × Db)
      → r.1.targets ≡ db.targets
      → Reaches db (with_quota o c now tenant date accounts cs r)
  with_quota_reach tenant date accounts cs db (err e, db') h = next here (keep h)
  with_quota_reach tenant date accounts cs db (ok quota, db') h =
      let s : Doser = record { db = db'; cursors = cs } in
      reach_trans (next here (keep h)) (
        either (ltb quota.warm_used c.limit_warm_daily) _ _
          (either (o.faults 2 0) _ _ here (
            warm_or_cold_reach tenant date quota accounts s
              (get_next_pending_target o.locked db' now tenant true)))
          (dose_cold_reach tenant date quota accounts s))

  with_accounts_reach :
      (tenant date : ℕ) (accounts : List TenantAccount) (s : Doser)
      → Reaches s.db (with_accounts o c now tenant date accounts s)
  with_accounts_reach tenant date [] s = next here (defer (o.faults 1) now tenant _)
  with_accounts_reach tenant date (a ∷ as') s =
      with_quota_reach tenant date (a ∷ as') s.cursors s.db
        (get_or_create_tenant_daily_quota o.random (o.faults 1) tenant date c.limit_cold_min
          c.limit_cold_max s.db)
        (quota_targets o.random (o.faults 1) tenant date c.limit_cold_min c.limit_cold_max s.db)

  dose_tenant_reach : (tenant : ℕ) (s : Doser) → Reaches s.db (dose_tenant o c now tenant s)
  unfolding dose_tenant
  dose_tenant_reach tenant s =
      let date = c.location.wall now / day in
      either (o.faults 0 0) _ _ here
        (with_accounts_reach tenant date (list_assignable_tenant_accounts s.db tenant date now) s)

-- A tick for all tenants.
pub tick_reach :
    (limit : ℕ) (o : ℕ → Outside) (c : Config) (time : ℕ → ℕ) (i : ℕ) (tenants : List ℕ) (s : Doser)
    → Reach limit s.db (dose_all_tenants o c time i tenants s).db
unfolding dose_all_tenants
tick_reach limit o c time i [] s = here
tick_reach limit o c time i (t ∷ ts) s =
    reach_trans (dose_tenant_reach limit (o i) c (time i) t s)
      (tick_reach limit o c time (i + 1) ts (dose_tenant (o i) c (time i) t s).1)
