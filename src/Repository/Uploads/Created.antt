-- ===== src/Repository/Uploads/Created.antt =====
-- internal/repository/postgres.go: what CreateCampaign leaves in the tables.
use aba_go_orchestrator.Common.{
  ℕ, Bool, true, false, List, [], ◌∷◌, ◌++◌, map, ◌≡◌, refl, ap, ◌⊎◌, inl, inr,
}
use aba_go_orchestrator.Domain.Models.{Campaign, CampaignTarget}
use aba_go_orchestrator.Repository.Store.{
  Db, Result, ok, err, ◌>>◌, Faults, exec, commit, no_faults,
}
use aba_go_orchestrator.Repository.Uploads.{campaign_row, target_row, create_campaign}

-- The tables with the campaign and its targets.
abbrev pub with_campaign : ℕ → Campaign → List CampaignTarget → Db → Db
with_campaign now c ts db = record db {
  campaigns = db.campaigns ++ campaign_row now c ∷ [];
  targets = db.targets ++ map (target_row now c) ts;
}

abbrev pub Created : ℕ → Campaign → List CampaignTarget → Db → Result (Unit {0}) × Db → Type 0
Created now c ts db (ok done, db') = db' ≡ with_campaign now c ts db
Created now c ts db (err e, db') = db' ≡ db

by_statements :
    (now : ℕ) (c : Campaign) (ts : List CampaignTarget) (db : Db) (w x y z : Bool)
    → Created now c ts db (
        commit db
          (exec w >> (exec x >> (exec y >> (exec z >> ok (tt, with_campaign now c ts db))))))
by_statements now c ts db true x y z = refl
by_statements now c ts db false true y z = refl
by_statements now c ts db false false true z = refl
by_statements now c ts db false false false true = refl
by_statements now c ts db false false false false = refl

-- All of the rows, or none where a statement fails.
pub create_campaign_lem :
    (f : Faults) (now : ℕ) (c : Campaign) (ts : List CampaignTarget) (db : Db)
    → Created now c ts db (create_campaign f now c ts db)
unfolding create_campaign
create_campaign_lem f now c ts db = by_statements now c ts db (f 0) (f 1) (f 2) (f 3)

either_way :
    (now : ℕ) (c : Campaign) (ts : List CampaignTarget) (db : Db) (r : Result (Unit {0}) × Db)
    → Created now c ts db r
    → (r.1 ≡ db) ⊎ (r.1.targets ≡ db.targets ++ map (target_row now c) ts)
either_way now c ts db (ok done, db') e = inr (ap (λ d. d.targets) e)
either_way now c ts db (err x, db') e = inl e

pub create_campaign-cases :
    (f : Faults) (now : ℕ) (c : Campaign) (ts : List CampaignTarget) (db : Db)
    → ((create_campaign f now c ts db).1 ≡ db)
      ⊎ ((create_campaign f now c ts db).1.targets ≡ db.targets ++ map (target_row now c) ts)
create_campaign-cases f now c ts db =
    either_way now c ts db (create_campaign f now c ts db) (create_campaign_lem f now c ts db)

pub with_campaign_eq :
    (now : ℕ) (c : Campaign) (ts : List CampaignTarget) (db : Db)
    → (create_campaign no_faults now c ts db).1 ≡ with_campaign now c ts db
unfolding create_campaign
with_campaign_eq now c ts db = refl
