-- ===== src/Worker/Scheduler/Starts.antt =====
-- internal/worker/scheduler.go: which campaigns a check starts.
use aba_go_orchestrator.Common.{
  ℕ, ◌+◌, ◌==◌, Bool, true, false, ◌&&◌, some, List, [], ◌∷◌, first, first-update, first_sound,
  select, exists, Bool-cases, if◌then◌else◌, ◌≡◌, refl, ◌∙◌, ◌⊎◌, inl, inr, arith,
}
use aba_go_orchestrator.Domain.Status.{draft, processing, campaign_is}
use aba_go_orchestrator.Domain.Models.{Campaign}
use aba_go_orchestrator.Repository.Store.{Db, Result, ok, err, panicked, Faults, campaign_has_id}
use aba_go_orchestrator.Repository.Campaigns.{
  set_status, is_draft, is_ready, start_campaign, get_active_campaigns_ready_to_start,
}
use aba_go_orchestrator.Worker.Scheduler.{
  is_untimed_draft, start_each, with_ready, check_and_start_campaigns,
}

abbrev hits : ℕ → Campaign → Bool
hits j c = c.id == j && campaign_is c.status draft

-- The row of a campaign after one round of the loop.
abbrev round : (ℕ → Faults) → (ℕ → ℕ) → ℕ → Campaign → Db → Db
round f now i c db =
    if campaign_is c.status draft then (start_campaign (f i) (now i) c.id db).1 else db

round_kept :
    (f : ℕ → Faults) (now : ℕ → ℕ) (i j : ℕ) (c row : Campaign) (db : Db)
    → first (campaign_has_id j) db.campaigns ≡ some row
    → (hits j c ≡ false) ⊎ (campaign_is row.status draft ≡ false)
    → first (campaign_has_id j) (round f now i c db).campaigns ≡ some row
unfolding start_campaign
round_kept f now i j c row db h k = ground (
  arith,
  first-update (is_draft c.id) (campaign_has_id j) (set_status processing (now i)) db.campaigns
      (λ a. refl),
  first_sound (campaign_has_id j) db.campaigns row h,
)

round_started :
    (f : ℕ → Faults) (now : ℕ → ℕ) (i j : ℕ) (c row : Campaign) (db : Db)
    → first (campaign_has_id j) db.campaigns ≡ some row
    → hits j c ≡ true
    → campaign_is row.status draft ≡ true
    → f i 0 ≡ false
    → first (campaign_has_id j) (round f now i c db).campaigns
      ≡ some (set_status processing (now i) row)
unfolding start_campaign
round_started f now i j c row db h k d e = ground (
  arith,
  first-update (is_draft c.id) (campaign_has_id j) (set_status processing (now i)) db.campaigns
      (λ a. refl),
  first_sound (campaign_has_id j) db.campaigns row h,
)

-- What holds with and without the panic.
unless :
    {db : Db} (P : Db → Type 0) (b : Bool) (r : Result (Unit {0}) × Db)
    → P db
    → P r.1
    → P (if b then (err panicked, db) else r).1
unless P true r h k = h
unless P false r h k = k

start_each_kept :
    (f : ℕ → Faults) (now : ℕ → ℕ) (i j : ℕ) (cs : List Campaign) (row : Campaign) (db : Db)
    → first (campaign_has_id j) db.campaigns ≡ some row
    → (exists (hits j) cs ≡ false) ⊎ (campaign_is row.status draft ≡ false)
    → first (campaign_has_id j) (start_each f now i cs db).1.campaigns ≡ some row
unfolding start_each
start_each_kept f now i j [] row db h k = h
start_each_kept f now i j (c ∷ cs) row db h k =
    unless (λ d. first (campaign_has_id j) d.campaigns ≡ some row) (is_untimed_draft c) _ h
      (start_each_kept f now (i + 1) j cs row (round f now i c db)
        (round_kept f now i j c row db h (ground (arith, k))) (ground (arith, k)))

-- Without an untimed draft the loop does not panic.
start_each_ok :
    (f : ℕ → Faults) (now : ℕ → ℕ) (i : ℕ) (cs : List Campaign) (db : Db)
    → exists is_untimed_draft cs ≡ false
    → (start_each f now i cs db).0 ≡ ok tt
unfolding start_each
start_each_ok f now i [] db u = refl
start_each_ok f now i (c ∷ cs) db u =
    let timed : is_untimed_draft c ≡ false = ground (arith, u) in
    rw timed (start_each_ok f now (i + 1) cs (round f now i c db) (ground (arith, u)))

start_each_started :
    (f : ℕ → Faults) (now : ℕ → ℕ) (i j : ℕ) (cs : List Campaign) (row : Campaign) (db : Db)
    → first (campaign_has_id j) db.campaigns ≡ some row
    → exists (hits j) cs ≡ true
    → campaign_is row.status draft ≡ true
    → ((n : ℕ) → f n 0 ≡ false)
    → exists is_untimed_draft cs ≡ false
    → (t : ℕ) × ((start_each f now i cs db).0 ≡ ok tt)
      × (first (campaign_has_id j) (start_each f now i cs db).1.campaigns
          ≡ some (set_status processing t row))
unfolding start_each
start_each_started f now i j [] row db h k d e u = absurd (cc)
start_each_started f now i j (c ∷ cs) row db h k d e u =
    let timed : is_untimed_draft c ≡ false = ground (arith, u) in
    let rest : exists is_untimed_draft cs ≡ false = ground (arith, u) in
    elim (Bool-cases (hits j c)) [
      | inl hit ↦ (
        now i,
        rw timed (start_each_ok f now (i + 1) cs (round f now i c db) rest),
        rw timed (
            start_each_kept f now (i + 1) j cs (set_status processing (now i) row)
              (round f now i c db) (round_started f now i j c row db h hit d (e i)) (inr refl)),
      )
      | inr miss ↦ rw timed (
          start_each_started f now (i + 1) j cs row (round f now i c db)
            (round_kept f now i j c row db h (inl miss)) (ground (arith, k, miss)) d e rest)
    ]

hits-select :
    (now j : ℕ) (cs : List Campaign) (row : Campaign)
    → first (campaign_has_id j) cs ≡ some row
    → is_ready now row ≡ true
    → campaign_is row.status draft ≡ true
    → exists (hits j) (select (is_ready now) cs) ≡ true
hits-select now j [] row h r d = absurd (cc)
hits-select now j (c ∷ cs) row h r d = ground (arith, hits-select now j cs row)

untimed-select :
    (now : ℕ) (cs : List Campaign)
    → exists (λ c. is_ready now c && is_untimed_draft c) cs ≡ false
    → exists is_untimed_draft (select (is_ready now) cs) ≡ false
untimed-select now [] h = refl
untimed-select now (c ∷ cs) h = ground (arith, untimed-select now cs)

-- Where every draft that is due has a time of its start and the statements go through, a check starts
-- every draft that is due: it is `processing` afterwards, and is otherwise as it was but for the time of
-- its update; and the check does not panic.
pub due_draft_started :
    (f : ℕ → Faults) (now : ℕ → ℕ) (j : ℕ) (db : Db) (row : Campaign)
    → ((n : ℕ) → f n 0 ≡ false)
    → exists (λ c. is_ready (now 0) c && is_untimed_draft c) db.campaigns ≡ false
    → first (campaign_has_id j) db.campaigns ≡ some row
    → is_ready (now 0) row ≡ true
    → row.status ≡ draft
    → (t : ℕ) × ((check_and_start_campaigns f now db).0 ≡ ok tt)
      × (first (campaign_has_id j) (check_and_start_campaigns f now db).1.campaigns
          ≡ some (record row { status = processing; updated_at = t }))
unfolding check_and_start_campaigns get_active_campaigns_ready_to_start
due_draft_started f now j db row e u h r d =
    let draft_row : campaign_is row.status draft ≡ true = rw d refl in
    rw (e 0) (
      start_each_started f now 1 j (select (is_ready (now 0)) db.campaigns) row db h
        (hits-select (now 0) j db.campaigns row h r draft_row) draft_row e
        (untimed-select (now 0) db.campaigns u))

-- A campaign that is no draft is left as it is by a check, whatever fails: one that was stopped or
-- completed is not started again.
pub check_keeps_started :
    (f : ℕ → Faults) (now : ℕ → ℕ) (j : ℕ) (db : Db) (row : Campaign)
    → first (campaign_has_id j) db.campaigns ≡ some row
    → campaign_is row.status draft ≡ false
    → first (campaign_has_id j) (check_and_start_campaigns f now db).1.campaigns ≡ some row
unfolding check_and_start_campaigns get_active_campaigns_ready_to_start
check_keeps_started f now j db row h d = elim (Bool-cases (f 0 0)) [
  | inl e ↦ rw e h
  | inr e ↦
      rw e (start_each_kept f now 1 j (select (is_ready (now 0)) db.campaigns) row db h (inr d))
]

round-targets :
    (f : ℕ → Faults) (now : ℕ → ℕ) (i : ℕ) (c : Campaign) (db : Db)
    → (round f now i c db).targets ≡ db.targets
unfolding start_campaign
round-targets f now i c db = ground arith

start_each-targets :
    (f : ℕ → Faults) (now : ℕ → ℕ) (i : ℕ) (cs : List Campaign) (db : Db)
    → (start_each f now i cs db).1.targets ≡ db.targets
unfolding start_each
start_each-targets f now i [] db = refl
start_each-targets f now i (c ∷ cs) db =
    unless (λ d. d.targets ≡ db.targets) (is_untimed_draft c) _ refl
      (start_each-targets f now (i + 1) cs (round f now i c db) ∙ round-targets f now i c db)

pub check_and_start_campaigns-targets :
    (f : ℕ → Faults) (now : ℕ → ℕ) (db : Db)
    → (check_and_start_campaigns f now db).1.targets ≡ db.targets
unfolding check_and_start_campaigns
check_and_start_campaigns-targets f now db =
    by_query (get_active_campaigns_ready_to_start (f 0) (now 0) db)
  where
    by_query : (r : Result (List Campaign)) → (with_ready f now db r).1.targets ≡ db.targets
    by_query (ok cs) = start_each-targets f now 1 cs db
    by_query (err e) = refl
