-- ===== src/Usecase/Report/Cells.antt =====
-- internal/usecase/campaign.go: what the rows of a report say, by the cells of the workbook.
use aba_go_orchestrator.Common.{
  ℕ, zero, suc, ◌+◌, ◌≤◌, ◌<◌, Text, length, ◌==◌, ==_iff, false, ◌&&◌, some, List, ◌≡◌, ◌≢◌, refl,
  sym, subst, ◌∙◌, ◌⊎◌, inl, inr, Bool-cases, arith,
}
use aba_go_orchestrator.Repository.Uploads.{ReportTarget}
use aba_go_orchestrator.Usecase.Report.{
  Excel, Columns, RowTexts, row_texts, target_at, max_columns, write, write_row, write_rows,
}

abbrev pub max_rows : ℕ
max_rows = 1_048_576

-- What excelize promises of the text of a cell. Nothing is written to a row that no sheet has.
pub record Cells (x : Excel) : Type 0 where
  pub cell : ℕ → ℕ → x.Book → Text
  -- What a cell keeps of a text: excelize cuts off what is behind 32,767 UTF-16 units.
  pub kept : Text → Text
  pub kept_short : (s : Text) → length s ≤ 16_383 → kept s ≡ s
  pub set_same :
      (r c : ℕ) (s : Text) (b : x.Book)
      → 1 ≤ r
      → r ≤ max_rows
      → 1 ≤ c
      → c ≤ max_columns
      → cell r c (x.set_cell r c s b) ≡ kept s
  pub set_other :
      (r c r' c' : ℕ) (s : Text) (b : x.Book)
      → (r == r' && c == c') ≡ false
      → cell r' c' (x.set_cell r c s b) ≡ cell r' c' b
  pub insert_left :
      (n r c : ℕ) (b b' : x.Book) → x.insert_col n b ≡ some b' → c < n → cell r c b' ≡ cell r c b
  pub insert_right :
      (n r c : ℕ) (b b' : x.Book)
      → x.insert_col n b ≡ some b'
      → n ≤ c
      → cell r (c + 1) b' ≡ cell r c b

-- The four columns are columns of a sheet, and no two are one.
abbrev pub Separate : Columns → Type 0
Separate k =
    (1 ≤ k.status)
    × (1 ≤ k.reply)
    × (1 ≤ k.reply_time)
    × (1 ≤ k.sender_phone)
    × (k.status ≤ max_columns)
    × (k.reply ≤ max_columns)
    × (k.reply_time ≤ max_columns)
    × (k.sender_phone ≤ max_columns)
    × (k.status ≢ k.reply)
    × (k.status ≢ k.reply_time)
    × (k.status ≢ k.sender_phone)
    × (k.reply ≢ k.reply_time)
    × (k.reply ≢ k.sender_phone)
    × (k.reply_time ≢ k.sender_phone)

abbrev pub IsElsewhere : Columns → ℕ → Type 0
IsElsewhere k c = (k.status ≢ c) × (k.reply ≢ c) × (k.reply_time ≢ c) × (k.sender_phone ≢ c)

not_both : (r c r' c' : ℕ) → (r ≢ r') ⊎ (c ≢ c') → (r == r' && c == c') ≡ false
not_both r c r' c' h = ground (arith, h)

module _ (x : Excel) (l : Cells x) where
  pub write-same :
      (r c : ℕ) (s : Text) (b : x.Book)
      → 1 ≤ r
      → r ≤ max_rows
      → 1 ≤ c
      → c ≤ max_columns
      → l.cell r c (write x r c s b) ≡ l.kept s
  write-same r c s b top bottom low high =
      let there : (c == 0) ≡ false = ground arith in
      rw there (l.set_same r c s b top bottom low high)

  write-other :
      (r c r' c' : ℕ) (s : Text) (b : x.Book)
      → (r == r' && c == c') ≡ false
      → l.cell r' c' (write x r c s b) ≡ l.cell r' c' b
  write-other r c r' c' s b h = elim (Bool-cases (c == 0)) [
    | inl e ↦ rw e refl
    | inr e ↦ rw e (l.set_other r c r' c' s b h)
  ]

  -- The row `r` of the sheet shows what its cells keep of the texts.
  abbrev pub Shows : Columns → ℕ → RowTexts → x.Book → Type 0
  Shows k r t b =
      (l.cell r k.status b ≡ l.kept t.status)
      × (l.cell r k.reply b ≡ l.kept t.reply)
      × (l.cell r k.reply_time b ≡ l.kept t.reply_time)
      × (l.cell r k.sender_phone b ≡ l.kept t.sender_phone)

  -- A cell in another row or another column.
  pub elsewhere :
      (r c r' c' : ℕ) (s : Text) (b : x.Book)
      → (r ≢ r') ⊎ (c ≢ c')
      → l.cell r' c' (write x r c s b) ≡ l.cell r' c' b
  elsewhere r c r' c' s b h = write-other r c r' c' s b (not_both r c r' c' h)

  write_row-Shows :
      (k : Columns) (r : ℕ) (t : RowTexts) (b : x.Book)
      → Separate k
      → 1 ≤ r
      → r ≤ max_rows
      → Shows k r t (write_row x k r t b)
  unfolding write_row
  write_row-Shows k r t b (s1, p1, m1, n1, s2, p2, m2, n2, sp, sm, sn, pm, pn, mn) u v =
      let b1 = write x r k.status t.status b in
      let b2 = write x r k.reply t.reply b1 in
      let b3 = write x r k.reply_time t.reply_time b2 in
      (
        elsewhere r k.sender_phone r k.status t.sender_phone b3 (inr (λ e. sn (sym e)))
            ∙ elsewhere r k.reply_time r k.status t.reply_time b2 (inr (λ e. sm (sym e)))
            ∙ elsewhere r k.reply r k.status t.reply b1 (inr (λ e. sp (sym e)))
            ∙ write-same r k.status t.status b u v s1 s2,
        elsewhere r k.sender_phone r k.reply t.sender_phone b3 (inr (λ e. pn (sym e)))
            ∙ elsewhere r k.reply_time r k.reply t.reply_time b2 (inr (λ e. pm (sym e)))
            ∙ write-same r k.reply t.reply b1 u v p1 p2,
        elsewhere r k.sender_phone r k.reply_time t.sender_phone b3 (inr (λ e. mn (sym e)))
            ∙ write-same r k.reply_time t.reply_time b2 u v m1 m2,
        write-same r k.sender_phone t.sender_phone b3 u v n1 n2,
      )

  -- Cells outside the row, and cells outside the four columns.
  write_row-other :
      (k : Columns) (r r' c : ℕ) (t : RowTexts) (b : x.Book)
      → (r ≢ r') ⊎ IsElsewhere k c
      → l.cell r' c (write_row x k r t b) ≡ l.cell r' c b
  unfolding write_row
  write_row-other k r r' c t b h =
      let b1 = write x r k.status t.status b in
      let b2 = write x r k.reply t.reply b1 in
      let b3 = write x r k.reply_time t.reply_time b2 in
      elsewhere r k.sender_phone r' c t.sender_phone b3 (on (λ e. e.3) h)
      ∙ elsewhere r k.reply_time r' c t.reply_time b2 (on (λ e. e.2) h)
      ∙ elsewhere r k.reply r' c t.reply b1 (on (λ e. e.1) h)
      ∙ elsewhere r k.status r' c t.status b (on (λ e. e.0) h)
    where
      on : {A B : Type 0} → (IsElsewhere k c → B) → A ⊎ IsElsewhere k c → A ⊎ B
      on f (inl a) = inl a
      on f (inr e) = inr (f e)

  module _ (format : ℕ → Text) (ts : List ReportTarget) (k : Columns) where
    -- The cells that the loop does not write.
    pub write_rows-other :
        (i count r c : ℕ) (b : x.Book)
        → (r ≤ i) ⊎ IsElsewhere k c
        → l.cell r c (write_rows x format ts k i count b) ≡ l.cell r c b
    unfolding write_rows
    write_rows-other i zero r c b h = refl
    write_rows-other i (suc count) r c b h =
        let t = row_texts format (target_at i ts) in
        write_rows-other (i + 1) count r c (write_row x k (i + 1) t b) (later h)
        ∙ write_row-other k (i + 1) r c t b (now h)
      where
        later : (r ≤ i) ⊎ IsElsewhere k c → (r ≤ i + 1) ⊎ IsElsewhere k c
        later (inl h) = inl (omega arith)
        later (inr e) = inr e

        now : (r ≤ i) ⊎ IsElsewhere k c → (i + 1 ≢ r) ⊎ IsElsewhere k c
        now (inl h) = inl (λ e. omega arith)
        now (inr e) = inr e

    first-Shows :
        (i count : ℕ) (b : x.Book)
        → Separate k
        → i + 1 ≤ max_rows
        → Shows k
            (i + 1)
            (row_texts format (target_at i ts))
            (write_rows x format ts k i (suc count) b)
    unfolding write_rows
    first-Shows i count b sep room =
        let t = row_texts format (target_at i ts) in
        let b' = write_row x k (i + 1) t b in
        let (s, p, m, n) = write_row-Shows k (i + 1) t b sep (omega arith) room in
        (
          kept k.status b' ∙ s,
          kept k.reply b' ∙ p,
          kept k.reply_time b' ∙ m,
          kept k.sender_phone b' ∙ n,
        )
      where
        kept :
            (c : ℕ) (b' : x.Book)
            → l.cell (i + 1) c (write_rows x format ts k (i + 1) count b') ≡ l.cell (i + 1) c b'
        kept c b' = write_rows-other (i + 1) count (i + 1) c b' (inl (omega arith))

    -- Each row that the loop writes shows the texts of its target.
    pub write_rows-Shows :
        (i count r : ℕ) (b : x.Book)
        → Separate k
        → r < max_rows
        → i ≤ r
        → r < i + count
        → Shows k (r + 1) (row_texts format (target_at r ts)) (write_rows x format ts k i count b)
    unfolding write_rows
    write_rows-Shows i zero r b sep room low high = absurd (omega arith)
    write_rows-Shows i (suc count) r b sep room low high = elim (Bool-cases (i == r)) [
      | inl e ↦
          subst
            (λ j.
              Shows k (j + 1) (row_texts format (target_at j ts))
                (write_rows x format ts k i (suc count) b))
            ((==_iff i r).0 e) (first-Shows i count b sep (ground (arith, (==_iff i r).0 e, room)))
      | inr e ↦
          write_rows-Shows (i + 1) count r
            (write_row x k (i + 1) (row_texts format (target_at i ts)) b) sep room (ground arith)
            (omega arith)
    ]
