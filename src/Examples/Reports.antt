-- ===== src/Examples/Reports.antt =====
-- internal/usecase/campaign.go: reports on a small workbook, which is its rows and the text of each
-- cell.
use aba_go_orchestrator.Common.{
  ℕ, ◌+◌, ◌-◌, ◌≤◌, ◌<◌, Text, text_eq, lit, ltb, ◌==◌, false, ◌&&◌, some, List, [], ◌∷◌, All,
  if◌then◌else◌, ◌≡◌, refl, subst, inl, arith,
}
use aba_go_orchestrator.Domain.Status.{replied}
use aba_go_orchestrator.Repository.Store.{ok}
use aba_go_orchestrator.Repository.Uploads.{ReportTarget}
use aba_go_orchestrator.Usecase.Report.{
  Excel, row_texts, target_at, fill_report, status_caption, reply_caption, reply_time_caption,
  sender_phone_caption,
}
use aba_go_orchestrator.Usecase.Report.Cells.{Cells, Shows}
use aba_go_orchestrator.Usecase.Report.Fresh.{IsForeign, IsHeaded, columns_after, fill_report-fresh}
use aba_go_orchestrator.Usecase.Report.Again.{IsAt, columns_at, fill_report-again}
use aba_go_orchestrator.Examples.Data.{target}

record Book : Type 0 where
  rows : List (List Text)
  text : ℕ → ℕ → Text

abbrev shifted : ℕ → (ℕ → ℕ → Text) → ℕ → ℕ → Text
shifted n text r c = if ltb c n then text r c else if c == n then [] else text r (c - 1)

abbrev excel : Excel
excel = record {
  Book = Book;
  get_rows = λ b. some b.rows;
  set_cell = λ r c s b. record b { text = λ r' c'. if r == r' && c == c' then s else b.text r' c' };
  insert_col = λ n b. some (record b { text = shifted n b.text });
}

inserted :
    (n : ℕ) (b b' : Book)
    → some (record b { text = shifted n b.text }) ≡ some b'
    → record b { text = shifted n b.text } ≡ b'
inserted n b b' e = cc

shifted_left : (n r c : ℕ) (text : ℕ → ℕ → Text) → c < n → shifted n text r c ≡ text r c
shifted_left n r c text h = ground arith

shifted_right : (n r c : ℕ) (text : ℕ → ℕ → Text) → n ≤ c → shifted n text r (c + 1) ≡ text r c
shifted_right n r c text h =
    let past : ltb (c + 1) n ≡ false = ground arith in
    let beside : (c + 1 == n) ≡ false = ground arith in
    let back : c + 1 - 1 ≡ c = omega arith in rw (past, beside, back) refl

cells : Cells excel
cells = record {
  cell = λ r c b. b.text r c;
  kept = λ s. s;
  kept_short = λ s h. refl;
  set_same = λ r c s b top bottom low high. ground arith;
  set_other = λ r c r' c' s b h. rw h refl;
  insert_left = λ n r c b b' e h.
      subst (λ x. x.text r c ≡ b.text r c) (inserted n b b' e) (shifted_left n r c b.text h);
  insert_right = λ n r c b b' e h.
      subst (λ x. x.text r (c + 1) ≡ b.text r c) (inserted n b b' e) (shifted_right n r c b.text h);
}

abbrev names : List Text
names = lit "name" ∷ lit "phone" ∷ []

abbrev anna : List Text
anna = lit "Anna" ∷ lit "9123456789" ∷ []

abbrev sheet : Book
sheet = record { rows = names ∷ anna ∷ []; text = λ r c. [] }

abbrev answered : List ReportTarget
answered = (record (target replied) { excel_row_index = 1 }, some (lit "79000000000")) ∷ []

abbrev clock : ℕ → Text
clock t = lit "now"

names-IsForeign : All IsForeign names
unfolding text_eq
names-IsForeign = ((refl, refl, refl, refl), ((refl, refl, refl, refl), tt))

fill_report-fresh_example :
    (b : Book) × (fill_report excel clock answered sheet ≡ ok b)
    × IsHeaded excel cells 2 b
    × Shows excel cells (columns_after 2) 2 (row_texts clock (target_at 1 answered)) b
    × (cells.cell 2 1 b ≡ cells.cell 2 1 sheet)
fill_report-fresh_example =
    fill_report-fresh excel cells clock answered sheet names (anna ∷ []) 1 2 1 refl names-IsForeign
      (omega arith) (λ e. absurd (cc (e))) (omega arith) (omega arith) (omega arith) (omega arith)

abbrev captions : List Text
captions = reply_caption ∷ status_caption ∷ sender_phone_caption ∷ reply_time_caption ∷ []

abbrev old_report : Book
old_report = record { rows = captions ∷ anna ∷ []; text = λ r c. [] }

status_IsAt : IsAt status_caption 1 captions
unfolding text_eq
status_IsAt = (refl, refl)

reply_IsAt : IsAt reply_caption 0 captions
unfolding text_eq
reply_IsAt = (refl, refl)

reply_time_IsAt : IsAt reply_time_caption 3 captions
unfolding text_eq
reply_time_IsAt = (refl, refl)

sender_phone_IsAt : IsAt sender_phone_caption 2 captions
unfolding text_eq
sender_phone_IsAt = (refl, refl)

fill_report-again_example :
    (b : Book) × (fill_report excel clock answered old_report ≡ ok b)
    × Shows excel cells (columns_at 1 0 3 2) 2 (row_texts clock (target_at 1 answered)) b
    × (cells.cell 1 2 b ≡ cells.cell 1 2 old_report)
fill_report-again_example =
    fill_report-again excel cells clock answered old_report captions (anna ∷ []) 1 0 3 2 1 1 2 refl
      (omega arith) (omega arith) status_IsAt reply_IsAt reply_time_IsAt sender_phone_IsAt
      (omega arith) (omega arith) (inl (omega arith))
