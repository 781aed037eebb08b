-- ===== src/Examples/Uploads.antt =====
-- internal/usecase/campaign.go: the upload of a sheet, from the free path of its file to its rows in the
-- tables.
use aba_go_orchestrator.Common.{
  Text, lit, none, some, [], ◌∷◌, true, false, ◌≡◌, refl, ◌↔◌, ◌≤◌, ◌*◌, get_elem?, ◌++◌, ◌==◌,
  exists,
}
use aba_go_orchestrator.Repository.Store.{ok, no_faults}
use aba_go_orchestrator.Usecase.Upload.{
  SheetRow, Upload, Disk, copied, rows_from, read_rows, sanitized, generate_semantic_filename,
  file_ext, original_path, upload_campaign, estimate_days,
}
use aba_go_orchestrator.Usecase.Upload
use aba_go_orchestrator.Usecase.Upload.Outcome.{Outcome, upload_campaign_lem}
use aba_go_orchestrator.Usecase.Upload.Sheet.{row, read_rows_index}
use aba_go_orchestrator.Usecase.Upload.Estimate.{average, estimate_days_iff}
use aba_go_orchestrator.Usecase.Upload.Paths.{has_slash, original_path-IsInside}
use aba_go_orchestrator.Domain.Status.{pending}
use aba_go_orchestrator.Examples.Data.{config, db_with}

-- A header, a person, a row with one cell and another person.
abbrev header : SheetRow
header = some (lit "name" ∷ lit "phone" ∷ [])

abbrev anna : SheetRow
anna = some (lit "Anna" ∷ lit "+7 912 345-67-89" ∷ [])

abbrev short : SheetRow
short = some (lit "-" ∷ [])

abbrev outside : Upload.Outside
outside = record {
  prepared = true;
  rows = header ∷ anna ∷ short ∷ some (lit "Boris" ∷ lit "89111111111" ∷ []) ∷ [];
  campaign_id = 11;
  target_id = λ i. i;
  created_at = 100;
  date = lit "20240102";
  hash = λ i. lit "0a1b2c3d";
  copy = copied;
  store = none;
  uuid_string = λ i. lit "id";
  add_days = λ t n. t;
  stored_at = 101;
  counting = no_faults;
  creating = no_faults;
}

abbrev upload : Upload
upload = record {
  tenant_id = 1;
  name = lit "a/b";
  template = lit "Hello";
  start_immediately = true;
  time_to_start = none;
  original_name = lit "list.v2.xlsx";
  attachment = none;
}

abbrev disk : Disk
disk = record { db = db_with pending; files = λ p. false }

path_run : original_path outside upload ≡ lit "uploads/a_b-20240102-0a1b2c3d.xlsx"
unfolding original_path generate_semantic_filename sanitized file_ext
path_run = refl

upload_campaign_lem_example :
    Outcome config outside upload disk (upload_campaign config outside upload disk)
upload_campaign_lem_example = upload_campaign_lem config outside upload disk

original_path-IsInside_example :
    (file : Text) × (original_path outside upload ≡ lit "uploads/" ++ file)
    × (has_slash file ≡ false)
    × (exists (λ c. c == b'-') file ≡ true)
original_path-IsInside_example = original_path-IsInside outside upload refl refl

read_rows_run :
    read_rows outside.rows
    ≡ ok
        (row 1 (lit "Anna") (lit "+7 912 345-67-89") ∷ row 2 (lit "Boris") (lit "89111111111") ∷ [])
unfolding read_rows rows_from
read_rows_run = refl

-- Boris stands in the third row below the header, and has index 2.
read_rows_index_example :
    get_elem?
      (row 1 (lit "Anna") (lit "+7 912 345-67-89") ∷ row 2 (lit "Boris") (lit "89111111111") ∷ [])
      1
    ≡ some (row 2 (lit "Boris") (lit "89111111111"))
read_rows_index_example =
    read_rows_index (lit "Boris") (lit "89111111111") [] [] header (anna ∷ short ∷ [])
      (row 1 (lit "Anna") (lit "+7 912 345-67-89") ∷ row 2 (lit "Boris") (lit "89111111111") ∷ [])
      read_rows_run

estimate_days_iff_example : (estimate_days 100 41 ≤ 3) ↔ ((1 ≤ 3) × (100 ≤ 3 * average 41))
estimate_days_iff_example = estimate_days_iff 100 41 3
