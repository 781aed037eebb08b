-- ===== src/Usecase/Upload/Outcome.antt =====
-- internal/usecase/campaign.go: what an upload leaves in the tables and among the files.
use aba_go_orchestrator.Common.{
  ℕ, Text, text_eq_refl, subst, ◌+◌, is_empty, Bool, true, false, Option, none, some, List, [], ◌∷◌,
  map, length, All, if◌then◌else◌, ◌-◌, ◌≡◌, refl, sym, ap, ◌∙◌, ◌⊎◌, inl, inr, arith,
}
use aba_go_orchestrator.Domain.Models.{Campaign, CampaignTarget, default_messenger_type}
use aba_go_orchestrator.Domain.Phone.{normalize_phone}
use aba_go_orchestrator.Repository.Store.{
  Db, Result, ok, err, Error, file_error, sheet_error, no_faults,
}
use aba_go_orchestrator.Repository.Uploads.{create_campaign, count_mapped_phones}
use aba_go_orchestrator.Repository.Uploads.Created.{
  with_campaign, with_campaign_eq, Created, create_campaign_lem,
}
use aba_go_orchestrator.Repository.Attempts.{IsNew, Step, create, keep}
use aba_go_orchestrator.Config.{Config}
use aba_go_orchestrator.Usecase.Upload.{
  ExcelRow, SheetRow, rows_from, add_row, Outside, Upload, Copy, copied, not_created, cut_short,
  Disk, add_file, remove_file, original_path, new_target, new_targets, new_campaign, attach,
  read_rows, finish, with_mapped, with_rows, with_attachment, with_copy, upload_campaign,
  estimate_days,
}

-- Reading stops only at a row that cannot be read.
rows_from_err :
    (i : ℕ) (rows : List SheetRow) (e : Error) → rows_from i rows ≡ err e → e ≡ sheet_error
unfolding rows_from
rows_from_err i [] e h = absurd (cc)
rows_from_err i (none ∷ rows) e h = cc
rows_from_err i (some [] ∷ rows) e h = rows_from_err i rows e h
rows_from_err i (some (name ∷ []) ∷ rows) e h = rows_from_err i rows e h
rows_from_err i (some (name ∷ phone ∷ cols) ∷ rows) e h =
    rows_from_err (i + 1) rows e (added (rows_from (i + 1) rows) h)
  where
    added : (r : Result (List ExcelRow)) → add_row i name phone r ≡ err e → r ≡ err e
    added (ok rs) k = absurd (cc)
    added (err x) k = cc

read_rows_err : (rows : List SheetRow) (e : Error) → read_rows rows ≡ err e → e ≡ sheet_error
unfolding read_rows
read_rows_err [] e h = absurd (cc)
read_rows_err (header ∷ rows) e h = rows_from_err 1 rows e h

IsNew-step :
    (b : Bool) (t : CampaignTarget) (ts : List CampaignTarget)
    → IsNew t
    → All IsNew ts
    → All IsNew (if b then ts else t ∷ ts)
IsNew-step true t ts n all = all
IsNew-step false t ts n all = (n, all)

pub new_targets-IsNew :
    (o : Outside) (u : Upload) (rows : List ExcelRow) → All IsNew (new_targets o u rows)
unfolding new_targets
new_targets-IsNew o u [] = tt
new_targets-IsNew o u (row ∷ rows) =
    IsNew-step (is_empty (normalize_phone row.phone))
      (new_target o u row (normalize_phone row.phone)) (new_targets o u rows) (refl, refl)
      (new_targets-IsNew o u rows)

-- The uploads that leave their file behind.
abbrev pub LeavesFile : Outside → Type 0
LeavesFile o = (o.copy ≡ cut_short) ⊎ (read_rows o.rows ≡ err sheet_error)

-- The files that a failed upload leaves.
abbrev pub Failed : Outside → Upload → Disk → Disk → Type 0
Failed o u d d' =
    (d'.db ≡ d.db)
    × (((p : Text) → d'.files p ≡ d.files p)
        ⊎ ((p : Text) → d'.files p ≡ (remove_file (original_path o u) d).files p)
        ⊎ LeavesFile o)

abbrev pub uploaded :
    Config → Outside → Upload → Option Text × Option Text → List ExcelRow → ℕ → Campaign
uploaded c o u attachment rows mapped =
    let total = length (new_targets o u rows) in
    new_campaign o u attachment total (estimate_days (total - mapped) c.limit_cold_estimated_avg)

-- The campaign that an upload stores, with its targets and its file.
abbrev pub Stored : Config → Outside → Upload → Disk → Disk → Type 0
Stored c o u d d' =
    (rows : List ExcelRow) × (attachment : Option Text × Option Text) × (mapped : ℕ) × (read_rows
        o.rows
      ≡ ok rows)
    × (attach o u u.attachment ≡ ok attachment)
    × (count_mapped_phones o.counting u.tenant_id default_messenger_type
          (map (λ t. t.phone_normalized) (new_targets o u rows)) d.db
        ≡ ok mapped)
    × (d'.db
        ≡ with_campaign o.stored_at (uploaded c o u attachment rows mapped) (new_targets o u rows)
            d.db)
    × (d'.files (original_path o u) ≡ true)

abbrev pub Outcome : Config → Outside → Upload → Disk → Result ℕ × Disk → Type 0
Outcome c o u d (ok id, d') = (id ≡ o.campaign_id) × Stored c o u d d'
Outcome c o u d (err e, d') = Failed o u d d'

module _ (c : Config) (o : Outside) (u : Upload) (d : Disk) where
  abbrev added : Disk
  added = add_file (original_path o u) d

  removed :
      (p : Text)
      → (remove_file (original_path o u) added).files p
        ≡ (remove_file (original_path o u) d).files p
  removed p = ground arith

  there : added.files (original_path o u) ≡ true
  there = ground (arith, text_eq_refl (original_path o u))

  with_mapped-Outcome :
      (rows : List ExcelRow) (attachment : Option Text × Option Text) (n : Result ℕ)
      → read_rows o.rows ≡ ok rows
      → attach o u u.attachment ≡ ok attachment
      → count_mapped_phones o.counting u.tenant_id default_messenger_type
          (map (λ t. t.phone_normalized) (new_targets o u rows))
          d.db
        ≡ n
      → Outcome c o u d (with_mapped c o u attachment (new_targets o u rows) added n)
  unfolding with_mapped finish
  with_mapped-Outcome rows attachment (err e) r a m = (refl, inr (inl removed))
  with_mapped-Outcome rows attachment (ok mapped) r a m =
      created
        (create_campaign o.creating o.stored_at (uploaded c o u attachment rows mapped)
          (new_targets o u rows) d.db)
        (create_campaign_lem o.creating o.stored_at (uploaded c o u attachment rows mapped)
          (new_targets o u rows) d.db)
    where
      created :
          (k : Result (Unit {0}) × Db)
          → Created o.stored_at
              (uploaded c o u attachment rows mapped)
              (new_targets o u rows)
              d.db
              k
          → Outcome c o u d (finish o u added k)
      created (ok done, db) e = (refl, (rows, attachment, mapped, r, a, m, e, there))
      created (err x, db) e = (e, inr (inl removed))

  with_rows-Outcome :
      (attachment : Option Text × Option Text) (rows : Result (List ExcelRow))
      → read_rows o.rows ≡ rows
      → attach o u u.attachment ≡ ok attachment
      → Outcome c o u d (with_rows c o u attachment added rows)
  unfolding with_rows
  with_rows-Outcome attachment (err e) r a =
      (refl, inr (inr (inr (subst (λ x. read_rows o.rows ≡ err x) (read_rows_err o.rows e r) r))))
  with_rows-Outcome attachment (ok rows) r a =
      with_mapped-Outcome rows attachment
        (count_mapped_phones o.counting u.tenant_id default_messenger_type
          (map (λ t. t.phone_normalized) (new_targets o u rows)) d.db)
        r a refl

  with_attachment-Outcome :
      (a : Result (Option Text × Option Text))
      → attach o u u.attachment ≡ a
      → Outcome c o u d (with_attachment c o u added a)
  unfolding with_attachment
  with_attachment-Outcome (err e) a = (refl, inr (inl removed))
  with_attachment-Outcome (ok attachment) a = with_rows-Outcome attachment (read_rows o.rows) refl a

  with_copy-Outcome : (k : Copy) → o.copy ≡ k → Outcome c o u d (with_copy c o u d k)
  unfolding with_copy
  with_copy-Outcome not_created e = (refl, inl (λ p. refl))
  with_copy-Outcome cut_short e = (refl, inr (inr (inl e)))
  with_copy-Outcome copied e = with_attachment-Outcome (attach o u u.attachment) refl

  by_prepared :
      (b : Bool) → Outcome c o u d (if b then with_copy c o u d o.copy else (err file_error, d))
  by_prepared true = with_copy-Outcome o.copy refl
  by_prepared false = (refl, inl (λ p. refl))

-- An upload that succeeds gives the id of a campaign that it stores, with all the targets that the rows
-- give, their number, the days for those not yet mapped and the file; one that fails leaves the tables
-- as they were, and the files too but that its own is gone, unless copying it was cut short or a row
-- could not be read.
pub upload_campaign_lem :
    (c : Config) (o : Outside) (u : Upload) (d : Disk) → Outcome c o u d (upload_campaign c o u d)
unfolding upload_campaign
upload_campaign_lem c o u d = by_prepared c o u d o.prepared

-- For the tables, an upload is a step that adds new targets at most.
pub upload_campaign-Step :
    (limit : ℕ) (c : Config) (o : Outside) (u : Upload) (d : Disk)
    → Step limit d.db (upload_campaign c o u d).1.db
upload_campaign-Step limit c o u d = step (upload_campaign c o u d) (upload_campaign_lem c o u d)
  where
    step : (r : Result ℕ × Disk) → Outcome c o u d r → Step limit d.db r.1.db
    step (err e, d') (same, _) = keep (ap (λ x. x.targets) same)
    step (ok id, d') (_, (rows, attachment, mapped, _, _, _, e, _)) =
        subst (Step limit d.db)
          (with_campaign_eq o.stored_at (uploaded c o u attachment rows mapped)
              (new_targets o u rows) d.db
            ∙ sym e)
          (create no_faults o.stored_at (uploaded c o u attachment rows mapped)
            (new_targets o u rows) (new_targets-IsNew o u rows))
