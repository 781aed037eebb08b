-- ===== src/Usecase/Upload.antt =====
-- internal/usecase/campaign.go: UploadCampaign. What the code asks of the file system, of excelize, of
-- the attachment store, of the clock and of uuid is an argument, `Outside`; the temporary file, which is
-- gone at the end, is left out. The workers' results stand in the order of the sheet.
pub mod Sheet
pub mod Estimate
pub mod Paths
pub mod Outcome
use aba_go_orchestrator.Common.{
  ℕ, suc, ◌+◌, ◌-◌, ◌/◌, Text, text_eq, lit, is_empty, leb, ltb, ◌==◌, Bool, true, false, not, ◌&&◌,
  ◌||◌, Option, none, some, List, [], ◌∷◌, ◌++◌, map, exists, length, if◌then◌else◌,
}
use aba_go_orchestrator.Domain.Status.{CampaignStatus, draft, processing, pending}
use aba_go_orchestrator.Domain.Models.{Campaign, CampaignTarget, default_messenger_type}
use aba_go_orchestrator.Domain.Phone.{normalize_phone}
use aba_go_orchestrator.Repository.Store.{
  Db, Result, ok, err, ◌>>=◌, ◌>>◌, Faults, exec, file_error, storage_error, sheet_error,
}
use aba_go_orchestrator.Repository.Uploads.{create_campaign, count_mapped_phones}
use aba_go_orchestrator.Config.{Config}

pub record ExcelRow : Type 0 where
  pub index : ℕ
  pub name : Text
  pub phone : Text

-- A row of the sheet as rows.Columns() gives it, `none` where that fails.
abbrev pub SheetRow : Type 0
SheetRow = Option (List Text)

abbrev pub add_row : ℕ → Text → Text → Result (List ExcelRow) → Result (List ExcelRow)
add_row i name phone rest =
    rest >>= λ rows. ok (record { index = i; name = name; phone = phone } ∷ rows)

-- The rows after the header, from the row index `i` on.
unfoldable pub rows_from : ℕ → List SheetRow → Result (List ExcelRow)
rows_from i [] = ok []
rows_from i (none ∷ rows) = err sheet_error
rows_from i (some [] ∷ rows) = rows_from i rows
rows_from i (some (name ∷ []) ∷ rows) = rows_from i rows
rows_from i (some (name ∷ phone ∷ cols) ∷ rows) = add_row i name phone (rows_from (i + 1) rows)

unfoldable pub read_rows : List SheetRow → Result (List ExcelRow)
unfolding rows_from
read_rows [] = ok []
read_rows (header ∷ rows) = rows_from 1 rows

abbrev pub valid_char : ℕ → Bool
valid_char c =
    (leb b'a' c && leb c b'z')
    || (leb b'A' c && leb c b'Z')
    || (leb b'0' c && leb c b'9')
    || c == b'_'
    || c == b'-'

unfoldable pub sanitized : Text → Text
sanitized s = map (λ c. if valid_char c then c else b'_') s

-- generateSemanticFilename; `date` is the day of the upload as 20060102, `hash` the short hash.
unfoldable pub generate_semantic_filename : Text → Text → Text → Text → Text
unfolding sanitized
generate_semantic_filename name date hash ext = sanitized name ++ b'-' ∷ date ++ b'-' ∷ hash ++ ext

-- filepath.Ext.
unfoldable pub file_ext : Text → Text
file_ext [] = []
file_ext (c ∷ s) =
    let rest = file_ext s in
    if not (is_empty rest)
    then rest
    else if c == b'.' && not (exists (λ d. d == b'/') s)
    then c ∷ s
    else []

abbrev pub ext_or : Text → Text → Text
ext_or other s = if is_empty s then other else s

-- How copyFile ends.
pub data Copy : Type 0 where
  copied not_created cut_short : Copy

pub record Outside : Type 0 where
  pub prepared : Bool
  pub rows : List SheetRow
  pub campaign_id : ℕ
  pub target_id : ℕ → ℕ
  pub created_at : ℕ
  pub date : Text
  pub hash : ℕ → Text
  pub copy : Copy
  pub store : Option (Text → Option Text)
  pub uuid_string : ℕ → Text
  pub add_days : ℕ → ℕ → ℕ
  pub stored_at : ℕ
  pub counting : Faults
  pub creating : Faults

pub record Upload : Type 0 where
  pub tenant_id : ℕ
  pub name : Text
  pub template : Text
  pub start_immediately : Bool
  pub time_to_start : Option ℕ
  pub original_name : Text
  pub attachment : Option Text

-- The tables, and which files there are.
pub record Disk : Type 0 where
  pub db : Db
  pub files : Text → Bool

abbrev pub add_file : Text → Disk → Disk
add_file path d = record d { files = λ p. text_eq p path || d.files p }

abbrev pub remove_file : Text → Disk → Disk
remove_file path d = record d { files = λ p. not (text_eq p path) && d.files p }

unfoldable pub original_path : Outside → Upload → Text
unfolding generate_semantic_filename file_ext
original_path o u =
    lit "uploads/"
    ++ generate_semantic_filename u.name o.date (o.hash 0)
        (ext_or (lit ".xlsx") (file_ext u.original_name))

unfoldable pub object_key : Outside → Upload → Text → Text
unfolding generate_semantic_filename file_ext
object_key o u attachment_name =
    o.uuid_string o.campaign_id
    ++ b'/'
      ∷ generate_semantic_filename (u.name ++ lit "-attachment") o.date (o.hash 1)
          (ext_or (lit ".bin") (file_ext attachment_name))

abbrev pub put_attachment :
    Outside → Upload → Text → Option (Text → Option Text) → Result (Option Text × Option Text)
unfolding object_key
put_attachment o u name none = err storage_error
put_attachment o u name (some put) = elim (put (object_key o u name)) [
  | none ↦ err storage_error
  | some url ↦ ok (some url, if is_empty name then none else some name)
]

-- The URL and the name of the attachment.
abbrev pub attach : Outside → Upload → Option Text → Result (Option Text × Option Text)
attach o u none = ok (none, none)
attach o u (some name) = put_attachment o u name o.store

abbrev pub new_target : Outside → Upload → ExcelRow → Text → CampaignTarget
new_target o u row phone = record {
  id = o.target_id row.index;
  campaign_id = o.campaign_id;
  tenant_id = u.tenant_id;
  tenant_account_id = none;
  client_name = row.name;
  phone_normalized = phone;
  messenger_type = default_messenger_type;
  excel_row_index = row.index;
  status = pending;
  last_error = none;
  last_error_code = none;
  last_error_message = none;
  attempt_count = 0;
  next_attempt_at = none;
  sent_at = none;
  replied_at = none;
  last_reply_text = none;
  created_at = 0;
  updated_at = 0;
}

-- What the workers make of the rows.
unfoldable pub new_targets : Outside → Upload → List ExcelRow → List CampaignTarget
unfolding normalize_phone
new_targets o u [] = []
new_targets o u (row ∷ rows) =
    let phone = normalize_phone row.phone in
    let rest = new_targets o u rows in
    if is_empty phone then rest else new_target o u row phone ∷ rest

-- The days that `cold` recipients take at `avg` a day.
unfoldable pub estimate_days : ℕ → ℕ → ℕ
estimate_days cold avg =
    let avg = if leb avg 0 then 41 else avg in
    let days = (cold + avg - 1) / avg in if ltb days 1 then 1 else days

abbrev pub start_at : ℕ → Bool → Option ℕ → ℕ
start_at now immediately none = now
start_at now immediately (some t) = if not immediately then t else now

abbrev pub new_campaign : Outside → Upload → (Option Text × Option Text) → ℕ → ℕ → Campaign
unfolding original_path
new_campaign o u attachment total days = record {
  id = o.campaign_id;
  tenant_id = u.tenant_id;
  name = u.name;
  message_template = u.template;
  status = if u.start_immediately then processing else draft;
  original_excel_name = u.original_name;
  original_excel_path = some (original_path o u);
  processed_excel_path = none;
  attachment_url = attachment.0;
  attachment_name = attachment.1;
  deleted = false;
  start_immediately = u.start_immediately;
  time_to_start = u.time_to_start;
  processed_count = 0;
  total_count = total;
  error_count = 0;
  estimated_days = some days;
  scheduled_completion_date =
      some (o.add_days (start_at o.created_at u.start_immediately u.time_to_start) days);
  created_at = o.created_at;
  updated_at = o.created_at;
}

-- The end of CreateCampaign: the file is removed where it fails.
abbrev pub finish : Outside → Upload → Disk → Result (Unit {0}) × Db → Result ℕ × Disk
unfolding original_path
finish o u d (ok done, db) = (ok o.campaign_id, record d { db = db })
finish o u d (err e, db) = (err e, remove_file (original_path o u) (record d { db = db }))

abbrev pub with_mapped :
    Config
    → Outside
    → Upload
    → (Option Text × Option Text)
    → List CampaignTarget
    → Disk
    → Result ℕ
    → Result ℕ × Disk
unfolding original_path estimate_days create_campaign
with_mapped c o u attachment ts d (err e) = (err e, remove_file (original_path o u) d)
with_mapped c o u attachment ts d (ok mapped) =
    let days = estimate_days (length ts - mapped) c.limit_cold_estimated_avg in
    finish o u d (
      create_campaign o.creating o.stored_at (new_campaign o u attachment (length ts) days) ts d.db)

abbrev pub with_rows :
    Config
    → Outside
    → Upload
    → (Option Text × Option Text)
    → Disk
    → Result (List ExcelRow)
    → Result ℕ × Disk
unfolding new_targets count_mapped_phones
with_rows c o u attachment d (err e) = (err e, d)
with_rows c o u attachment d (ok rows) =
    let ts = new_targets o u rows in
    with_mapped c o u attachment ts d (
      count_mapped_phones o.counting u.tenant_id default_messenger_type
        (map (λ t. t.phone_normalized) ts) d.db)

abbrev pub with_attachment :
    Config → Outside → Upload → Disk → Result (Option Text × Option Text) → Result ℕ × Disk
unfolding original_path read_rows
with_attachment c o u d (err e) = (err e, remove_file (original_path o u) d)
with_attachment c o u d (ok attachment) = with_rows c o u attachment d (read_rows o.rows)

abbrev pub with_copy : Config → Outside → Upload → Disk → Copy → Result ℕ × Disk
unfolding original_path
with_copy c o u d not_created = (err file_error, d)
with_copy c o u d cut_short = (err file_error, add_file (original_path o u) d)
with_copy c o u d copied =
    let d' = add_file (original_path o u) d in with_attachment c o u d' (attach o u u.attachment)

-- `prepared` is whether the directory and the temporary file are there and the sheet opens.
unfoldable pub upload_campaign : Config → Outside → Upload → Disk → Result ℕ × Disk
upload_campaign c o u d = if o.prepared then with_copy c o u d o.copy else (err file_error, d)
