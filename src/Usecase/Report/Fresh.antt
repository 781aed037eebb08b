-- ===== src/Usecase/Report/Fresh.antt =====
-- internal/usecase/campaign.go: the first report of a campaign, from the sheet as it was uploaded.
use aba_go_orchestrator.Common.{
  ℕ, ◌+◌, ◌≤◌, ◌<◌, Text, text_eq, leb, ltb, ◌==◌, true, false, none, some, List, [], ◌∷◌, length,
  All, ◌≡◌, ◌≢◌, refl, ◌∙◌, inl, inr, Option-cases, arith,
}
use aba_go_orchestrator.Repository.Store.{ok}
use aba_go_orchestrator.Repository.Uploads.{ReportTarget}
use aba_go_orchestrator.Usecase.Report.{
  Excel, Columns, no_columns, row_texts, target_at, max_columns, write, write_rows, status_caption,
  reply_caption, reply_time_caption, sender_phone_caption, scan_cell, scan_header,
  add_sender_column, add_columns, rows_written, inserted, filled, fill_report,
}
use aba_go_orchestrator.Usecase.Report.Cells.{
  Cells, max_rows, Separate, IsElsewhere, Shows, write-same, elsewhere, write_rows-other,
  write_rows-Shows,
}

-- The cell is none of the captions of a report.
abbrev pub IsForeign : Text → Type 0
IsForeign s =
    (text_eq s status_caption ≡ false)
    × (text_eq s reply_caption ≡ false)
    × (text_eq s reply_time_caption ≡ false)
    × (text_eq s sender_phone_caption ≡ false)

scan_header-foreign :
    (i : ℕ) (header : List Text)
    → All IsForeign header
    → scan_header i header no_columns ≡ no_columns
unfolding scan_header scan_cell
scan_header-foreign i [] h = refl
scan_header-foreign i (val ∷ vals) ((s, p, m, n), h) =
    rw (s, p, m, n) (scan_header-foreign (i + 1) vals h)

-- The four columns after the `n` columns of the sheet.
abbrev pub columns_after : ℕ → Columns
columns_after n = record { status = n + 1; reply = n + 2; reply_time = n + 3; sender_phone = n + 4 }

columns_after-Separate : (n : ℕ) → n + 4 ≤ max_columns → Separate (columns_after n)
columns_after-Separate n h = (
  omega arith,
  omega arith,
  omega arith,
  omega arith,
  omega arith,
  omega arith,
  omega arith,
  omega arith,
  λ e. omega arith,
  λ e. omega arith,
  λ e. omega arith,
  λ e. omega arith,
  λ e. omega arith,
  λ e. omega arith,
)

-- A column left of the new ones.
left-IsElsewhere : (n c : ℕ) → c ≤ n → IsElsewhere (columns_after n) c
left-IsElsewhere n c h = (λ e. omega arith, λ e. omega arith, λ e. omega arith, λ e. omega arith)

module _ (x : Excel) (l : Cells x) (n : ℕ) where
  -- The sheet with the first three captions.
  abbrev pub captioned : x.Book → x.Book
  captioned b =
      write x 1 (n + 3) reply_time_caption
        (write x 1 (n + 2) reply_caption (write x 1 (n + 1) status_caption b))

  -- The header of the report.
  abbrev pub IsHeaded : x.Book → Type 0
  IsHeaded b =
      (l.cell 1 (n + 1) b ≡ status_caption)
      × (l.cell 1 (n + 2) b ≡ reply_caption)
      × (l.cell 1 (n + 3) b ≡ reply_time_caption)
      × (l.cell 1 (n + 4) b ≡ sender_phone_caption)

headed : (x : Excel) (l : Cells x) {t : Text} (s : Text) → length s ≤ 16_383 → t ≡ l.kept s → t ≡ s
headed x l s short e = e ∙ l.kept_short s short

module _ (x : Excel) (l : Cells x) (n : ℕ) (fits : n + 4 ≤ max_columns) where
  add_columns-fresh :
      (b : x.Book)
      → add_columns x n no_columns b
        ≡ inserted x (n + 4) (columns_after n) (x.insert_col (n + 4) (captioned x l n b))
  unfolding add_columns add_sender_column
  add_columns-fresh b =
      let two : n + 1 + 1 ≡ n + 2 = omega arith in
      let three : n + 2 + 1 ≡ n + 3 = omega arith in
      let four : n + 3 + 1 ≡ n + 4 = omega arith in
      let named : leb (n + 1) max_columns ≡ true = ground arith in
      let named' : leb (n + 2) max_columns ≡ true = ground arith in
      let named'' : leb (n + 3) max_columns ≡ true = ground arith in
      let there : (n + 3 == 0) ≡ false = ground arith in
      let room : ltb max_columns (n + 4) ≡ false = ground arith in
      rw (two, three, named, named', named'', four, there, room) refl

  captioned-left : (r c : ℕ) (b : x.Book) → c ≤ n → l.cell r c (captioned x l n b) ≡ l.cell r c b
  captioned-left r c b h =
      let b1 = write x 1 (n + 1) status_caption b in
      let b2 = write x 1 (n + 2) reply_caption b1 in
      elsewhere x l 1 (n + 3) r c reply_time_caption b2 (inr (λ e. omega arith))
      ∙ elsewhere x l 1 (n + 2) r c reply_caption b1 (inr (λ e. omega arith))
      ∙ elsewhere x l 1 (n + 1) r c status_caption b (inr (λ e. omega arith))

  captioned-IsHeaded :
      (b b' : x.Book)
      → x.insert_col (n + 4) (captioned x l n b) ≡ some b'
      → IsHeaded x l n (write x 1 (n + 4) sender_phone_caption b')
  captioned-IsHeaded b b' e =
      let b1 = write x 1 (n + 1) status_caption b in
      let b2 = write x 1 (n + 2) reply_caption b1 in
      (
        elsewhere x l 1 (n + 4) 1 (n + 1) sender_phone_caption b' (inr (λ e. omega arith))
            ∙ l.insert_left (n + 4) 1 (n + 1) (captioned x l n b) b' e (omega arith)
            ∙ elsewhere x l 1 (n + 3) 1 (n + 1) reply_time_caption b2 (inr (λ e. omega arith))
            ∙ elsewhere x l 1 (n + 2) 1 (n + 1) reply_caption b1 (inr (λ e. omega arith))
            ∙ headed x l status_caption (ground arith) (
                write-same x l 1 (n + 1) status_caption b (omega arith) (omega arith) (omega arith)
                  (omega arith)),
        elsewhere x l 1 (n + 4) 1 (n + 2) sender_phone_caption b' (inr (λ e. omega arith))
            ∙ l.insert_left (n + 4) 1 (n + 2) (captioned x l n b) b' e (omega arith)
            ∙ elsewhere x l 1 (n + 3) 1 (n + 2) reply_time_caption b2 (inr (λ e. omega arith))
            ∙ headed x l reply_caption (ground arith) (
                write-same x l 1 (n + 2) reply_caption b1 (omega arith) (omega arith) (omega arith)
                  (omega arith)),
        elsewhere x l 1 (n + 4) 1 (n + 3) sender_phone_caption b' (inr (λ e. omega arith))
            ∙ l.insert_left (n + 4) 1 (n + 3) (captioned x l n b) b' e (omega arith)
            ∙ headed x l reply_time_caption (ground arith) (
                write-same x l 1 (n + 3) reply_time_caption b2 (omega arith) (omega arith)
                  (omega arith) (omega arith)),
        headed x l sender_phone_caption (ground arith) (
            write-same x l 1 (n + 4) sender_phone_caption b' (omega arith) (omega arith)
              (omega arith) (omega arith)),
      )

-- The first report on a sheet whose header has none of the four captions and leaves room for four more
-- columns, with no more rows than a sheet has, where excelize does to cells what it promises and the call
-- that inserts the column of the sender's phone succeeds: it comes out, with the captions in the four
-- columns after the header's, what the cells keep of the texts of its target in any row `r` below the
-- header, and any cell of the columns of the header and left of it as it was. Cells that a row has beyond
-- the header are overwritten or moved.
pub fill_report-fresh :
    (x : Excel) (l : Cells x) (format : ℕ → Text) (ts : List ReportTarget) (b : x.Book)
    (header : List Text) (rows : List (List Text)) (r q c : ℕ)
    → x.get_rows b ≡ some (header ∷ rows)
    → All IsForeign header
    → length header + 4 ≤ max_columns
    → x.insert_col (length header + 4) (captioned x l (length header) b) ≢ none
    → length rows < max_rows
    → 1 ≤ r
    → r ≤ length rows
    → c ≤ length header
    → (b' : x.Book) × (fill_report x format ts b ≡ ok b')
      × IsHeaded x l (length header) b'
      × Shows x l (columns_after (length header)) (r + 1) (row_texts format (target_at r ts)) b'
      × (l.cell q c b' ≡ l.cell q c b)
unfolding fill_report filled rows_written
fill_report-fresh x l format ts b header rows r q c e foreign fits inserts room low high left =
    elim (Option-cases (x.insert_col (length header + 4) (captioned x l (length header) b))) [
      | inl missing ↦ absurd (inserts missing)
      | inr (b2, there) ↦
          let n = length header in
          let k = columns_after n in
          let b3 = write x 1 (n + 4) sender_phone_caption b2 in
          let (h1, h2, h3, h4) = captioned-IsHeaded x l n fits b b2 there in
          let above = λ (c : ℕ).
            write_rows-other x l format ts k 1 (length rows) 1 c b3 (inl (omega arith)) in
          (
            write_rows x format ts k 1 (length rows) b3,
            rw (e, scan_header-foreign 0 header foreign, add_columns-fresh x l n fits b, there)
                refl,
            (above (n + 1) ∙ h1, above (n + 2) ∙ h2, above (n + 3) ∙ h3, above (n + 4) ∙ h4),
            write_rows-Shows x l format ts k 1 (length rows) r b3 (columns_after-Separate n fits)
                (omega arith) low (omega arith),
            write_rows-other x l format ts k 1 (length rows) q c b3
                  (inr (left-IsElsewhere n c left))
                ∙ elsewhere x l 1 (n + 4) q c sender_phone_caption b2 (inr (λ e. omega arith))
                ∙ l.insert_left (n + 4) q c (captioned x l n b) b2 there (omega arith)
                ∙ captioned-left x l n fits q c b left,
          )
    ]
