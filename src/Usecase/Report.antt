-- ===== src/Usecase/Report.antt =====
-- internal/usecase/campaign.go: GenerateExcel. The workbook is an interface, `Excel`, with the calls of
-- excelize that the code makes on the first sheet; a column is its number, with 0 for the empty name.
pub mod Cells
pub mod Fresh
pub mod Again
use aba_go_orchestrator.Common.{
  ℕ, zero, suc, ◌+◌, Text, text_eq, lit, is_empty, trim_space, leb, ltb, ◌==◌, Bool, true, false,
  not, ◌&&◌, ◌||◌, Option, none, some, List, [], ◌∷◌, ◌++◌, length, if◌then◌else◌,
}
use aba_go_orchestrator.Domain.Status.{
  failed, viewed, replied, user_not_found_by_phone, is, status_text,
}
use aba_go_orchestrator.Domain.Models.{Campaign, CampaignTarget, default_messenger_type}
use aba_go_orchestrator.Repository.Store.{
  Db, Result, ok, err, ◌>>=◌, ◌>>◌, Faults, file_error, sheet_error, panicked,
}
use aba_go_orchestrator.Repository.Uploads.{
  ReportTarget, get_campaign, get_campaign_targets, update_campaign,
}
use aba_go_orchestrator.Usecase.Upload.{generate_semantic_filename}

-- `set_cell row column` is SetCellValue at a name that JoinCellName gives, whose error is ignored (what a
-- cell keeps of a text, and which rows there are, is among the laws of Report/Cells); `insert_col n` is
-- InsertCols of one column before column `n`.
pub record Excel : Type 1 where
  pub Book : Type 0
  pub get_rows : Book → Option (List (List Text))
  pub set_cell : ℕ → ℕ → Text → Book → Book
  pub insert_col : ℕ → Book → Option Book

abbrev pub max_columns : ℕ
max_columns = 16_384

-- ColumnNumberToName, whose error is ignored.
abbrev pub column_name : ℕ → ℕ
column_name n = if leb n max_columns then n else 0

abbrev pub status_caption : Text
status_caption = lit "Статус MAX отправки"

abbrev pub reply_caption : Text
reply_caption = lit "Ответ пользователя"

abbrev pub reply_time_caption : Text
reply_time_caption = lit "Время получения ответа"

abbrev pub sender_phone_caption : Text
sender_phone_caption = lit "Телефон аккаунта рассылки"

pub record Columns : Type 0 where
  pub status : ℕ
  pub reply : ℕ
  pub reply_time : ℕ
  pub sender_phone : ℕ

abbrev pub no_columns : Columns
no_columns = record { status = 0; reply = 0; reply_time = 0; sender_phone = 0 }

unfoldable pub scan_cell : ℕ → Text → Columns → Columns
scan_cell i val k =
    if text_eq val status_caption
    then record k { status = column_name (i + 1) }
    else if text_eq val reply_caption
    then record k { reply = column_name (i + 1) }
    else if text_eq val reply_time_caption
    then record k { reply_time = column_name (i + 1) }
    else if text_eq val sender_phone_caption
    then record k { sender_phone = column_name (i + 1) }
    else k

-- The loop over the header, from the index `i` on.
unfoldable pub scan_header : ℕ → List Text → Columns → Columns
unfolding scan_cell
scan_header i [] k = k
scan_header i (val ∷ vals) k = scan_header (i + 1) vals (scan_cell i val k)

-- What a row of the report says.
pub record RowTexts : Type 0 where
  pub status : Text
  pub reply : Text
  pub reply_time : Text
  pub sender_phone : Text

abbrev pub error_suffix : Option Text → Text → Text
error_suffix none s = s
error_suffix (some e) s = s ++ lit ": " ++ e

abbrev pub status_of : CampaignTarget → Text
unfolding status_text
status_of t =
    if is t.status user_not_found_by_phone
    then lit "Пользователь на найден в "
      ++ (if is_empty t.messenger_type then default_messenger_type else t.messenger_type)
    else if is t.status failed
    then error_suffix t.last_error (status_text t.status)
    else status_text t.status

abbrev pub unread : Text
unread = lit "не прочитано"

abbrev pub reply_or_unread : Option Text → Text
reply_or_unread none = unread
reply_or_unread (some s) = s

abbrev pub time_or_empty : (ℕ → Text) → Option ℕ → Text
time_or_empty format none = []
time_or_empty format (some t) = format t

abbrev pub trimmed : Option Text → Text
unfolding trim_space
trimmed none = []
trimmed (some s) = trim_space s

-- `format t` is `t.In(uc.cfg.Location).Format("2006-01-02 15:04:05")`.
unfoldable pub row_texts : (ℕ → Text) → Option ReportTarget → RowTexts
row_texts format none = record {
  status = lit "Не обработан";
  reply = unread;
  reply_time = [];
  sender_phone = [];
}
row_texts format (some (t, phone)) = record {
  status = status_of t;
  reply =
      if is t.status replied
      then reply_or_unread t.last_reply_text
      else if is t.status viewed
      then lit "ПРОЧИТАНО"
      else unread;
  reply_time =
      if is t.status replied
      then time_or_empty format t.replied_at
      else if is t.status viewed
      then format t.updated_at
      else [];
  sender_phone = trimmed phone;
}

-- `targetMap[i]`: the last of the targets with this row index.
unfoldable pub target_at : ℕ → List ReportTarget → Option ReportTarget
target_at i [] = none
target_at i (t ∷ ts) = elim (target_at i ts) [
  | some u ↦ some u
  | none ↦ if t.0.excel_row_index == i then some t else none
]

module _ (x : Excel) where
  abbrev pub write : ℕ → ℕ → Text → x.Book → x.Book
  write row col s b = if col == 0 then b else x.set_cell row col s b

  -- A column that the header does not have is put after its last one, at `last + 1`.
  abbrev pub add_column : ℕ → Text → ℕ → x.Book → ℕ × x.Book
  add_column col caption last b =
      if col == 0
      then (column_name (last + 1), write 1 (column_name (last + 1)) caption b)
      else (col, b)

  abbrev pub last_after : ℕ → ℕ → ℕ
  last_after col last = if col == 0 then last + 1 else last

  abbrev pub inserted : ℕ → Columns → Option x.Book → Result (Columns × x.Book)
  inserted n k none = err sheet_error
  inserted n k (some b) = ok (record k { sender_phone = n }, write 1 n sender_phone_caption b)

  -- The column of the sender's phone is inserted to the right of the reply time.
  unfoldable pub add_sender_column : Columns → x.Book → Result (Columns × x.Book)
  add_sender_column k b =
      if not (k.sender_phone == 0)
      then ok (k, b)
      else if k.reply_time == 0 || ltb max_columns (k.reply_time + 1)
      then err sheet_error
      else inserted (k.reply_time + 1) k (x.insert_col (k.reply_time + 1) b)

  -- The columns of the report, added to the sheet where the header of `n` cells lacks them.
  unfoldable pub add_columns : ℕ → Columns → x.Book → Result (Columns × x.Book)
  unfolding add_sender_column
  add_columns n k b =
      let (status, b1) = add_column k.status status_caption n b in
      let n1 = last_after k.status n in
      let (reply, b2) = add_column k.reply reply_caption n1 b1 in
      let n2 = last_after k.reply n1 in
      let (reply_time, b3) = add_column k.reply_time reply_time_caption n2 b2 in
      add_sender_column
        (record {
          status = status;
          reply = reply;
          reply_time = reply_time;
          sender_phone = k.sender_phone;
        })
        b3

  unfoldable pub write_row : Columns → ℕ → RowTexts → x.Book → x.Book
  write_row k row t b = write row k.sender_phone t.sender_phone (
      write row k.reply_time t.reply_time
        (write row k.reply t.reply (write row k.status t.status b)))

  -- The loop over `count` rows from the row number `i` on.
  unfoldable pub write_rows : (ℕ → Text) → List ReportTarget → Columns → ℕ → ℕ → x.Book → x.Book
  unfolding write_row target_at row_texts
  write_rows format ts k i zero b = b
  write_rows format ts k i (suc count) b =
      write_rows format ts k (i + 1) count
        (write_row k (i + 1) (row_texts format (target_at i ts)) b)

  abbrev pub rows_written :
      (ℕ → Text) → List ReportTarget → ℕ → Result (Columns × x.Book) → Result x.Book
  unfolding write_rows
  rows_written format ts count (err e) = err e
  rows_written format ts count (ok (k, b)) = ok (write_rows format ts k 1 count b)

  -- `rows[0]` panics where the sheet has no row.
  abbrev pub filled :
      (ℕ → Text) → List ReportTarget → x.Book → Option (List (List Text)) → Result x.Book
  unfolding scan_header add_columns
  filled format ts b none = err sheet_error
  filled format ts b (some []) = err panicked
  filled format ts b (some (header ∷ rows)) =
      rows_written format ts (length rows)
        (add_columns (length header) (scan_header 0 header no_columns) b)

  -- What becomes of the sheet.
  unfoldable pub fill_report : (ℕ → Text) → List ReportTarget → x.Book → Result x.Book
  fill_report format ts b = filled format ts b (x.get_rows b)

  pub record Outside : Type 0 where
    pub format : ℕ → Text
    pub open_file : Text → Option x.Book
    pub save_as : Text → x.Book → Bool
    pub uuid : Text
    pub date : Text
    pub hash : Text
    pub now : ℕ
    pub finding : Faults
    pub listing : Faults
    pub updating : Faults

  abbrev pub processed_path : Outside → Campaign → Text
  unfolding generate_semantic_filename
  processed_path o c =
      lit "uploads/"
      ++ generate_semantic_filename (c.name ++ lit "_processed_" ++ o.uuid) o.date o.hash
          (lit ".xlsx")

  -- The report is saved, and the campaign gets its path; an error of that is only printed.
  abbrev pub save : Outside → Campaign → Db → x.Book → Result Text × Db
  unfolding update_campaign
  save o c db b =
      let path = processed_path o c in
      if o.save_as path b
      then (
        ok path,
        (update_campaign o.updating o.now (record c { processed_excel_path = some path }) db).1,
      )
      else (err file_error, db)

  abbrev pub saved : Outside → Campaign → Db → Result x.Book → Result Text × Db
  saved o c db (err e) = (err e, db)
  saved o c db (ok b) = save o c db b

  abbrev pub opened : Outside → Campaign → List ReportTarget → Db → Option x.Book → Result Text × Db
  unfolding fill_report
  opened o c ts db none = (err file_error, db)
  opened o c ts db (some b) = saved o c db (fill_report o.format ts b)

  abbrev pub from_original :
      Outside → Campaign → List ReportTarget → Db → Option Text → Result Text × Db
  from_original o c ts db none = (err file_error, db)
  from_original o c ts db (some path) =
      if is_empty path then (err file_error, db) else opened o c ts db (o.open_file path)

  abbrev pub with_targets : Outside → Campaign → Db → Result (List ReportTarget) → Result Text × Db
  with_targets o c db (err e) = (err e, db)
  with_targets o c db (ok ts) = from_original o c ts db c.original_excel_path

  abbrev pub with_campaign : Outside → ℕ → Db → Result Campaign → Result Text × Db
  unfolding get_campaign_targets
  with_campaign o id db (err e) = (err e, db)
  with_campaign o id db (ok c) = with_targets o c db (get_campaign_targets o.listing id db)

  unfoldable pub generate_excel : Outside → ℕ → Db → Result Text × Db
  unfolding get_campaign
  generate_excel o id db = with_campaign o id db (get_campaign o.finding id db)
