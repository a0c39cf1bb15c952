-- ===== src/App/Bordereau/Totals.antt =====
-- What the summary of app/src/lib/portfolio/bordereau.ts says of the rows.
use nextblock.Base.{
  ℕ, ◌+◌, ◌++◌, ltb, ◌<◌, Text, text_leb, List, [], ◌∷◌, length, Option, none, some, ◌≡◌, refl, inl,
  inr, arith, ok, err, Option-cases, sym, ap, subst, Result,
}
use nextblock.App.Bordereau.{Field, coverage, premium, inception, expiry, col_of, cell}
use nextblock.App.Bordereau.Cells.{Doubles, parse_amount}
use nextblock.App.Bordereau.Summary.{
  Warning, bad_coverage, warn_if, other_warnings, BordereauError, no_data_rows, no_coverage_column,
  no_premium_column, BordereauSummary, Columns, earlier, later, date_loop, no_dates, Amounts,
  add_amount, amount_loop, no_amounts, or_empty, summary_of, with_columns, summarize_bordereau_rows,
}
use nextblock.App.Bordereau.FirstDates.{
  dates_in, IsFirst, not_before, date_loop-best, earliest_lem, latest_lem,
}

-- The amounts in a column, where the cell has one.
module _ (n : Doubles) where
  open n use {Double, nought, add, is_positive, print_usdc}

  abbrev amount_before : Option Double → List Double → List Double
  amount_before none amounts = amounts
  amount_before (some x) amounts = x ∷ amounts

  pub amounts_in : ℕ → List (List Text) → List Double
  amounts_in i [] = []
  amounts_in i (row ∷ rows) = amount_before (parse_amount n (cell row (some i))) (amounts_in i rows)

  pub add_all : Double → List Double → Double
  add_all total [] = total
  add_all total (x ∷ amounts) = add_all (add total x) amounts

  amount_loop-total :
      (i : ℕ) (rows : List (List Text)) (a : Amounts n)
      → (amount_loop n i rows a).total ≡ add_all a.total (amounts_in i rows)
  unfolding amount_loop amounts_in add_all
  amount_loop-total i [] a = refl
  amount_loop-total i (row ∷ rows) a = elim (Option-cases (parse_amount n (cell row (some i)))) [
    | inl e ↦ ground (arith, amount_loop-total i rows (add_amount n none a))
    | inr (x, e) ↦ ground (arith, amount_loop-total i rows (add_amount n (some x) a))
  ]

  amount_loop-bad :
      (i : ℕ) (rows : List (List Text)) (a : Amounts n)
      → (amount_loop n i rows a).bad + length (amounts_in i rows) ≡ a.bad + length rows
  unfolding amount_loop amounts_in
  amount_loop-bad i [] a = omega arith
  amount_loop-bad i (row ∷ rows) a = elim (Option-cases (parse_amount n (cell row (some i)))) [
    | inl e ↦ ground (arith, amount_loop-bad i rows (add_amount n none a))
    | inr (x, e) ↦ ground (arith, amount_loop-bad i rows (add_amount n (some x) a))
  ]

  -- The summary of rows with these columns: every row is counted, the totals are those of the cells
  -- that hold an amount, in order, a row that is left out of the coverage is warned of first, and the
  -- dates are the first of the inceptions and the last of the expiries in the order of texts.
  pub record IsSummary (cov prem : ℕ) (inc exp : Option ℕ) (rows : List (List Text))
      (s : BordereauSummary) : Type 0 where
    pub counts : s.policy_count ≡ length rows
    pub covered : s.coverage_limit ≡ print_usdc (add_all nought (amounts_in cov rows))
    pub ceded : s.ceded_premium ≡ print_usdc (add_all nought (amounts_in prem rows))
    pub skipped :
        length (amounts_in cov rows) < length rows
        → (k : ℕ) × (rest : List Warning) × (s.warnings ≡ bad_coverage k ∷ rest)
          × (k + length (amounts_in cov rows) ≡ length rows)
    pub first_inception : IsFirst text_leb s.inception_date (dates_in inc rows)
    pub last_expiry : IsFirst not_before s.expiry_date (dates_in exp rows)

  warn_if_some :
      (i : ℕ) (rows : List (List Text))
      → length (amounts_in i rows) < length rows
      → (rest : List Warning)
      → warn_if
            (ltb 0 (amount_loop n i rows (no_amounts n)).bad)
            (bad_coverage (amount_loop n i rows (no_amounts n)).bad)
          ++ rest
        ≡ bad_coverage (amount_loop n i rows (no_amounts n)).bad ∷ rest
  warn_if_some i rows h rest = ground (arith, amount_loop-bad i rows (no_amounts n))

  summary_of-IsSummary :
      (c : Columns) (rows : List (List Text))
      → IsSummary c.cov c.prem c.inc c.exp rows (summary_of n c rows)
  unfolding summary_of
  summary_of-IsSummary c rows = record {
    counts = refl;
    covered = ap print_usdc (amount_loop-total c.cov rows (no_amounts n));
    ceded = ap print_usdc (amount_loop-total c.prem rows (no_amounts n));
    skipped = λ h.
        let covered = amount_loop n c.cov rows (no_amounts n) in
        let premiums = amount_loop n c.prem rows (no_amounts n) in
        (
          covered.bad,
          other_warnings c premiums.bad
              ((date_loop earlier c.inc rows no_dates).ambiguous
                + (date_loop later c.exp rows no_dates).ambiguous)
              (is_positive covered.total) (is_positive premiums.total),
          warn_if_some c.cov rows h _,
          omega (arith, amount_loop-bad c.cov rows (no_amounts n)),
        );
    first_inception =
        subst (λ t. IsFirst text_leb (or_empty t) (dates_in c.inc rows))
          (sym (date_loop-best earlier c.inc rows no_dates)) (earliest_lem (dates_in c.inc rows));
    last_expiry =
        subst (λ t. IsFirst not_before (or_empty t) (dates_in c.exp rows))
          (sym (date_loop-best later c.exp rows no_dates)) (latest_lem (dates_in c.exp rows));
  }

  -- What the parser owes for these columns.
  abbrev pub Owes :
      (cov prem inc exp : Option ℕ)
      → List (List Text)
      → Result (List BordereauError) BordereauSummary
      → Type 0
  Owes none none inc exp rows r = r ≡ err (no_coverage_column ∷ no_premium_column ∷ [])
  Owes none (some prem) inc exp rows r = r ≡ err (no_coverage_column ∷ [])
  Owes (some cov) none inc exp rows r = r ≡ err (no_premium_column ∷ [])
  Owes (some cov) (some prem) inc exp rows r =
      (s : BordereauSummary) × (r ≡ ok s) × IsSummary cov prem inc exp rows s

  abbrev pub Summarizes : List (List Text) → Result (List BordereauError) BordereauSummary → Type 0
  Summarizes [] r = r ≡ err (no_data_rows ∷ [])
  Summarizes (header ∷ []) r = r ≡ err (no_data_rows ∷ [])
  Summarizes (header ∷ row ∷ rows) r =
      Owes (col_of header coverage) (col_of header premium) (col_of header inception)
        (col_of header expiry) (row ∷ rows) r

  with_columns-Owes :
      (cov prem inc exp lob_c jur_c : Option ℕ) (rows : List (List Text))
      → Owes cov prem inc exp rows (with_columns n cov prem inc exp lob_c jur_c rows)
  with_columns-Owes none none inc exp lob_c jur_c rows = refl
  with_columns-Owes none (some prem) inc exp lob_c jur_c rows = refl
  with_columns-Owes (some cov) none inc exp lob_c jur_c rows = refl
  with_columns-Owes (some cov) (some prem) inc exp lob_c jur_c rows =
      (_, refl, summary_of-IsSummary _ rows)

  -- For all rows: fewer than two give an error, and so does a header without a coverage or without a
  -- premium column, which is named; else the summary counts every row behind the header, its totals
  -- are those of the cells that hold an amount, in order, the number of rows left out of the coverage
  -- is the first warning, and of the dates that are read in the columns that are there, written
  -- year-month-day, it has the first inception and the last expiry in the order of their texts, which
  -- need not be that of the calendar: a slash date may have a year of three digits.
  pub summarize_bordereau_rows-Summarizes :
      (table : List (List Text)) → Summarizes table (summarize_bordereau_rows n table)
  unfolding summarize_bordereau_rows
  summarize_bordereau_rows-Summarizes [] = refl
  summarize_bordereau_rows-Summarizes (header ∷ []) = refl
  summarize_bordereau_rows-Summarizes (header ∷ row ∷ rows) =
      with_columns-Owes (col_of header coverage) (col_of header premium) (col_of header inception)
        (col_of header expiry) (col_of header Field.lob) (col_of header Field.jurisdiction)
        (row ∷ rows)
