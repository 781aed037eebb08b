-- ===== src/Usecase/Report/Again.antt =====
-- internal/usecase/campaign.go: a report on a sheet that has the four columns.
use aba_go_orchestrator.Common.{
  ℕ, zero, suc, ◌+◌, ◌≤◌, ◌<◌, Text, text_eq, text_eq_iff, leb, ◌==◌, true, false, some, List, [],
  ◌∷◌, length, get_elem?, count_where, if◌then◌else◌, ◌≡◌, ◌≢◌, refl, sym, ap, subst, ◌∙◌, ◌⊎◌,
  arith,
}
use aba_go_orchestrator.Repository.Store.{ok}
use aba_go_orchestrator.Repository.Uploads.{ReportTarget}
use aba_go_orchestrator.Usecase.Report.{
  Excel, Columns, no_columns, max_columns, column_name, status_caption, reply_caption,
  reply_time_caption, sender_phone_caption, row_texts, target_at, write_rows, scan_cell,
  scan_header, add_sender_column, add_columns, rows_written, filled, fill_report,
}
use aba_go_orchestrator.Usecase.Report.Cells.{
  Cells, max_rows, Separate, IsElsewhere, Shows, write_rows-other, write_rows-Shows,
}

add_columns-there :
    (x : Excel) (n : ℕ) (k : Columns) (b : x.Book) → Separate k → add_columns x n k b ≡ ok (k, b)
unfolding add_columns add_sender_column
add_columns-there x n k b sep =
    let s = sep.0 in
    let p = sep.1 in
    let m = sep.2 in
    let q = sep.3 in
    let s' : (k.status == 0) ≡ false = ground arith in
    let p' : (k.reply == 0) ≡ false = ground arith in
    let m' : (k.reply_time == 0) ≡ false = ground arith in
    let q' : (k.sender_phone == 0) ≡ false = ground arith in rw (s', p', m', q') refl

-- The caption stands in the header at the index `i`, and nowhere else.
abbrev pub IsAt : Text → ℕ → List Text → Type 0
IsAt caption i header =
    (get_elem? header i ≡ some caption) × (count_where (λ v. text_eq v caption) header ≡ 1)

index_inside :
    (i : ℕ) (vals : List Text) (val : Text) → get_elem? vals i ≡ some val → i < length vals
index_inside i [] val h = absurd (cc (h))
index_inside zero (v ∷ vals) val h = omega arith
index_inside (suc i) (v ∷ vals) val h = omega (arith, index_inside i vals val h)

found-count :
    (caption : Text) (i : ℕ) (vals : List Text)
    → get_elem? vals i ≡ some caption
    → 1 ≤ count_where (λ v. text_eq v caption) vals
found-count caption i [] h = absurd (cc (h))
found-count caption zero (val ∷ vals) h =
    let this : val ≡ caption = ground (arith, h) in
    let same : text_eq val caption ≡ true = (text_eq_iff val caption).1 this in ground (arith, same)
found-count caption (suc i) (val ∷ vals) h = ground (arith, found-count caption i vals h)

-- A field of the columns that the scan sets at its caption only.
module _ (field : Columns → ℕ) (caption : Text)
    (sets : (i : ℕ) (val : Text) (k : Columns)
      → field (scan_cell i val k)
        ≡ (if text_eq val caption then column_name (i + 1) else field k)) where
  scan_header-absent :
      (i : ℕ) (vals : List Text) (k : Columns)
      → count_where (λ v. text_eq v caption) vals ≡ 0
      → field (scan_header i vals k) ≡ field k
  unfolding scan_header
  scan_header-absent i [] k h = refl
  scan_header-absent i (val ∷ vals) k h =
      let other : text_eq val caption ≡ false = ground (arith, h) in
      let rest : count_where (λ v. text_eq v caption) vals ≡ 0 = ground (arith, h) in
      scan_header-absent (i + 1) vals (scan_cell i val k) rest ∙ (sets i val k ∙ rw other refl)

  scan_header-found :
      (i j : ℕ) (vals : List Text) (k : Columns)
      → IsAt caption j vals
      → field (scan_header i vals k) ≡ column_name (i + j + 1)
  unfolding scan_header
  scan_header-found i j [] k h = absurd (cc (h.0))
  scan_header-found i zero (val ∷ vals) k h =
      let this : val ≡ caption = ground (arith, h.0) in
      let same : text_eq val caption ≡ true = (text_eq_iff val caption).1 this in
      let rest : count_where (λ v. text_eq v caption) vals ≡ 0 = ground (arith, h.1, same) in
      let here : i + 1 ≡ i + 0 + 1 = omega arith in
      scan_header-absent (i + 1) vals (scan_cell i val k) rest
      ∙ (sets i val k ∙ (rw same refl ∙ ap column_name here))
  scan_header-found i (suc j) (val ∷ vals) k h =
      let there : get_elem? vals j ≡ some caption = h.0 in
      let one : 1 ≤ count_where (λ v. text_eq v caption) vals = found-count caption j vals there in
      let rest : count_where (λ v. text_eq v caption) vals ≡ 1 = ground (arith, h.1, one) in
      let shift : i + 1 + j + 1 ≡ i + suc j + 1 = omega arith in
      scan_header-found (i + 1) j vals (scan_cell i val k) (there, rest) ∙ ap column_name shift

-- No text is two of the captions.
distinct : (val a b : Text) → text_eq a b ≡ false → text_eq val a ≡ true → text_eq val b ≡ false
distinct val a b d h = subst (λ t. text_eq t b ≡ false) (sym ((text_eq_iff val a).0 h)) d

sets-status :
    (i : ℕ) (val : Text) (k : Columns)
    → (scan_cell i val k).status
      ≡ (if text_eq val status_caption then column_name (i + 1) else k.status)
unfolding scan_cell
sets-status i val k = ground arith

sets-reply :
    (i : ℕ) (val : Text) (k : Columns)
    → (scan_cell i val k).reply
      ≡ (if text_eq val reply_caption then column_name (i + 1) else k.reply)
unfolding scan_cell text_eq
sets-reply i val k = ground (arith, distinct val status_caption reply_caption refl)

sets-reply_time :
    (i : ℕ) (val : Text) (k : Columns)
    → (scan_cell i val k).reply_time
      ≡ (if text_eq val reply_time_caption then column_name (i + 1) else k.reply_time)
unfolding scan_cell text_eq
sets-reply_time i val k = ground (
  arith,
  distinct val status_caption reply_time_caption refl,
  distinct val reply_caption reply_time_caption refl,
)

sets-sender_phone :
    (i : ℕ) (val : Text) (k : Columns)
    → (scan_cell i val k).sender_phone
      ≡ (if text_eq val sender_phone_caption then column_name (i + 1) else k.sender_phone)
unfolding scan_cell text_eq
sets-sender_phone i val k = ground (
  arith,
  distinct val status_caption sender_phone_caption refl,
  distinct val reply_caption sender_phone_caption refl,
  distinct val reply_time_caption sender_phone_caption refl,
)

-- The columns, counted from 1, of captions at these indices.
abbrev pub columns_at : ℕ → ℕ → ℕ → ℕ → Columns
columns_at s p m n = record {
  status = s + 1;
  reply = p + 1;
  reply_time = m + 1;
  sender_phone = n + 1;
}

named :
    (caption : Text) (i : ℕ) (header : List Text)
    → length header ≤ max_columns
    → IsAt caption i header
    → column_name (0 + i + 1) ≡ i + 1
named caption i header fits h =
    let inside : i < length header = index_inside i header caption h.0 in
    let known : leb (i + 1) max_columns ≡ true = ground arith in
    let same : 0 + i + 1 ≡ i + 1 = omega arith in rw (same, known) refl

scan_header-columns :
    (header : List Text) (s p m n : ℕ)
    → length header ≤ max_columns
    → IsAt status_caption s header
    → IsAt reply_caption p header
    → IsAt reply_time_caption m header
    → IsAt sender_phone_caption n header
    → scan_header 0 header no_columns ≡ columns_at s p m n
scan_header-columns header s p m n fits a b c d = cc (
  scan_header-found (λ k. k.status) status_caption sets-status 0 s header no_columns a
      ∙ named status_caption s header fits a,
  scan_header-found (λ k. k.reply) reply_caption sets-reply 0 p header no_columns b
      ∙ named reply_caption p header fits b,
  scan_header-found (λ k. k.reply_time) reply_time_caption sets-reply_time 0 m header no_columns c
      ∙ named reply_time_caption m header fits c,
  scan_header-found (λ k. k.sender_phone) sender_phone_caption sets-sender_phone 0 n header
        no_columns d
      ∙ named sender_phone_caption n header fits d,
)

-- Two captions do not stand in one cell.
apart :
    (a b : Text) (i j : ℕ) (header : List Text)
    → text_eq a b ≡ false
    → IsAt a i header
    → IsAt b j header
    → i + 1 ≢ j + 1
apart a b i j header d h k e =
    let same : i ≡ j = omega (arith, e) in
    let both : some a ≡ some b = sym h.0 ∙ (ap (get_elem? header) same ∙ k.0) in
    let equal : text_eq a b ≡ true = (text_eq_iff a b).1 (ground (arith, both)) in
    absurd (cc (d, equal))

columns_at-Separate :
    (header : List Text) (s p m n : ℕ)
    → length header ≤ max_columns
    → IsAt status_caption s header
    → IsAt reply_caption p header
    → IsAt reply_time_caption m header
    → IsAt sender_phone_caption n header
    → Separate (columns_at s p m n)
unfolding text_eq
columns_at-Separate header s p m n fits a b c d =
    let s' : s < length header = index_inside s header status_caption a.0 in
    let p' : p < length header = index_inside p header reply_caption b.0 in
    let m' : m < length header = index_inside m header reply_time_caption c.0 in
    let n' : n < length header = index_inside n header sender_phone_caption d.0 in
    (
      omega arith,
      omega arith,
      omega arith,
      omega arith,
      omega arith,
      omega arith,
      omega arith,
      omega arith,
      apart status_caption reply_caption s p header refl a b,
      apart status_caption reply_time_caption s m header refl a c,
      apart status_caption sender_phone_caption s n header refl a d,
      apart reply_caption reply_time_caption p m header refl b c,
      apart reply_caption sender_phone_caption p n header refl b d,
      apart reply_time_caption sender_phone_caption m n header refl c d,
    )

-- A report on a sheet whose header has each of the four captions in exactly one cell, at the indices `s`,
-- `p`, `m` and `n` from 0, with no more columns and rows than a sheet has, where excelize does to cells what
-- it promises: it comes out, any row `r` below the header shows what its cells keep of the texts of its
-- target in the columns `s + 1`, `p + 1`, `m + 1` and `n + 1`, and any other cell, of the header or of
-- another column, is as it was.
pub fill_report-again :
    (x : Excel) (l : Cells x) (format : ℕ → Text) (ts : List ReportTarget) (b : x.Book)
    (header : List Text) (rows : List (List Text)) (s p m n r q c : ℕ)
    → x.get_rows b ≡ some (header ∷ rows)
    → length header ≤ max_columns
    → length rows < max_rows
    → IsAt status_caption s header
    → IsAt reply_caption p header
    → IsAt reply_time_caption m header
    → IsAt sender_phone_caption n header
    → 1 ≤ r
    → r ≤ length rows
    → (q ≤ 1) ⊎ IsElsewhere (columns_at s p m n) c
    → (b' : x.Book) × (fill_report x format ts b ≡ ok b')
      × Shows x l (columns_at s p m n) (r + 1) (row_texts format (target_at r ts)) b'
      × (l.cell q c b' ≡ l.cell q c b)
unfolding fill_report filled rows_written
fill_report-again x l format ts b header rows s p m n r q c e fits room i1 i2 i3 i4 low high other =
    let k = columns_at s p m n in
    let sep : Separate k = columns_at-Separate header s p m n fits i1 i2 i3 i4 in
    let scanned : scan_header 0 header no_columns ≡ k =
      scan_header-columns header s p m n fits i1 i2 i3 i4 in
    (
      write_rows x format ts k 1 (length rows) b,
      rw (e, scanned, add_columns-there x (length header) k b sep) refl,
      write_rows-Shows x l format ts k 1 (length rows) r b sep (omega arith) low (omega arith),
      write_rows-other x l format ts k 1 (length rows) q c b other,
    )
