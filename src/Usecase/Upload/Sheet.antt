-- ===== src/Usecase/Upload/Sheet.antt =====
-- internal/usecase/campaign.go: the row index that an upload gives to a row of the sheet.
use aba_go_orchestrator.Common.{
  ℕ, suc, ◌+◌, Text, Bool, true, false, none, some, List, [], ◌∷◌, ◌++◌, get_elem?, count_where,
  ◌≡◌, refl, ap, subst, ◌∙◌, arith,
}
use aba_go_orchestrator.Repository.Store.{Result, ok, err}
use aba_go_orchestrator.Usecase.Upload.{ExcelRow, SheetRow, add_row, rows_from, read_rows}

-- Has the row a name and a phone?
abbrev pub is_wide : SheetRow → Bool
is_wide none = false
is_wide (some []) = false
is_wide (some (name ∷ [])) = false
is_wide (some (name ∷ phone ∷ cols)) = true

abbrev pub row : ℕ → Text → Text → ExcelRow
row i name phone = record { index = i; name = name; phone = phone }

module _ (name phone : Text) (cols : List Text) (after : List SheetRow) where
  rows_from_index :
      (i : ℕ) (before : List SheetRow) (rs : List ExcelRow)
      → rows_from i (before ++ some (name ∷ phone ∷ cols) ∷ after) ≡ ok rs
      → get_elem? rs (count_where is_wide before)
        ≡ some (row (i + count_where is_wide before) name phone)
  unfolding rows_from
  rows_from_index i [] rs h = first_row (rows_from (i + 1) after) rs h
    where
      first_row :
          (r : Result (List ExcelRow)) (rs : List ExcelRow)
          → add_row i name phone r ≡ ok rs
          → get_elem? rs 0 ≡ some (row (i + 0) name phone)
      first_row (ok rest) rs k =
          let e : row i name phone ∷ rest ≡ rs = cc in
          subst (λ xs. get_elem? xs 0 ≡ some (row (i + 0) name phone)) e
            (ap (λ n. some (row n name phone)) (omega arith))
      first_row (err e) rs k = absurd (cc)
  rows_from_index i (none ∷ before) rs h = absurd (cc)
  rows_from_index i (some [] ∷ before) rs h = rows_from_index i before rs h
  rows_from_index i (some (n ∷ []) ∷ before) rs h = rows_from_index i before rs h
  rows_from_index i (some (n ∷ p ∷ cs) ∷ before) rs h =
      later (rows_from (i + 1) (before ++ some (name ∷ phone ∷ cols) ∷ after)) rs h
        (rows_from_index (i + 1) before)
    where
      later :
          (r : Result (List ExcelRow)) (rs : List ExcelRow)
          → add_row i n p r ≡ ok rs
          → ((rs' : List ExcelRow)
              → r ≡ ok rs'
              → get_elem? rs' (count_where is_wide before)
                ≡ some (row (i + 1 + count_where is_wide before) name phone))
          → get_elem? rs (suc (count_where is_wide before))
            ≡ some (row (i + suc (count_where is_wide before)) name phone)
      later (ok rest) rs k ih =
          let e : row i n p ∷ rest ≡ rs = cc in
          let shift : i + 1 + count_where is_wide before ≡ i + suc (count_where is_wide before) =
            omega arith in
          subst
            (λ xs.
              get_elem? xs (suc (count_where is_wide before))
              ≡ some (row (i + suc (count_where is_wide before)) name phone))
            e (ih rest refl ∙ ap (λ n. some (row n name phone)) shift)
      later (err e) rs k ih = absurd (cc)

  -- In a sheet that can be read, a row with a name and a phone gets one more than the number of rows
  -- with both between the header and it as its index: each row with less than two cells before it puts
  -- it one further behind its place in the sheet.
  pub read_rows_index :
      (header : SheetRow) (before : List SheetRow) (rs : List ExcelRow)
      → read_rows (header ∷ before ++ some (name ∷ phone ∷ cols) ∷ after) ≡ ok rs
      → get_elem? rs (count_where is_wide before)
        ≡ some (row (1 + count_where is_wide before) name phone)
  unfolding read_rows
  read_rows_index header before rs h = rows_from_index 1 before rs h
