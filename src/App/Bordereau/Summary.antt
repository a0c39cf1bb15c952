-- ===== src/App/Bordereau/Summary.antt =====
-- summarizeBordereauRows of app/src/lib/portfolio/bordereau.ts. A warning or an error is a
-- constructor with what its text is filled in with.
use nextblock.Base.{
  ℕ, ◌+◌, Text, text_ltb, ltb, List, [], ◌∷◌, ◌++◌, length, Option, none, some, Bool, true, false,
  not, if◌then◌else◌, Result, ok, err,
}
use nextblock.App.Bordereau.{
  Field, coverage, premium, inception, expiry, col_of, cell, parse_bordereau_date, mode,
}
use nextblock.App.Bordereau.Csv.{parse_csv}
use nextblock.App.Bordereau.Cells.{Doubles, BordereauDate, parse_amount}

pub data Warning : Type 0 where
  bad_coverage bad_premium ambiguous_dates : ℕ → Warning
  no_inception no_expiry zero_coverage zero_premium : Warning

pub data BordereauError : Type 0 where
  no_data_rows no_coverage_column no_premium_column : BordereauError

pub record BordereauSummary : Type 0 where
  pub policy_count : ℕ
  pub coverage_limit : Text
  pub ceded_premium : Text
  pub inception_date : Text
  pub expiry_date : Text
  pub line_of_business : Text
  pub jurisdiction : Text
  pub warnings : List Warning

-- The columns, of which coverage and premium are there.
pub record Columns : Type 0 where
  pub cov : ℕ
  pub prem : ℕ
  pub inc : Option ℕ
  pub exp : Option ℕ
  pub lob : Option ℕ
  pub jur : Option ℕ

-- The earlier and the later of the dates so far and one more.
abbrev pub earlier : Option Text → Text → Text
earlier none iso = iso
earlier (some m) iso = if text_ltb iso m then iso else m

abbrev pub later : Option Text → Text → Text
later none iso = iso
later (some m) iso = if text_ltb m iso then iso else m

pub record Dates : Type 0 where
  pub best : Option Text
  pub ambiguous : ℕ

abbrev pub add_date : (Option Text → Text → Text) → Option BordereauDate → Dates → Dates
add_date better none dates = dates
add_date better (some d) dates = record {
  best = some (better dates.best d.iso);
  ambiguous = dates.ambiguous + (if d.ambiguous then 1 else 0);
}

-- A row adds nothing where the column is missing.
abbrev pub date_step : (Option Text → Text → Text) → Option ℕ → List Text → Dates → Dates
date_step better none row dates = dates
date_step better (some i) row dates =
    add_date better (parse_bordereau_date (cell row (some i))) dates

unfoldable pub date_loop : (Option Text → Text → Text) → Option ℕ → List (List Text) → Dates → Dates
date_loop better col [] dates = dates
date_loop better col (row ∷ rows) dates = date_loop better col rows (date_step better col row dates)

abbrev pub no_dates : Dates
no_dates = record { best = none; ambiguous = 0 }

unfoldable pub texts_of : Option ℕ → List (List Text) → List Text
texts_of none rows = []
texts_of (some i) [] = []
texts_of (some i) (row ∷ rows) = cell row (some i) ∷ texts_of (some i) rows

abbrev pub or_empty : Option Text → Text
or_empty none = []
or_empty (some t) = t

abbrev pub is_none : Option ℕ → Bool
is_none none = true
is_none (some i) = false

abbrev pub warn_if : Bool → Warning → List Warning
warn_if test w = if test then w ∷ [] else []

-- The warnings behind that on the coverage.
abbrev pub other_warnings :
    Columns → (bad_premiums ambiguous : ℕ) (is_covered is_paid : Bool) → List Warning
other_warnings c bad_premiums ambiguous is_covered is_paid =
    warn_if (ltb 0 bad_premiums) (bad_premium bad_premiums)
    ++ (warn_if (is_none c.inc) no_inception
        ++ (warn_if (is_none c.exp) no_expiry
            ++ (warn_if (ltb 0 ambiguous) (ambiguous_dates ambiguous)
                ++ (warn_if (not is_covered) zero_coverage ++ warn_if (not is_paid) zero_premium))))

module _ (n : Doubles) where
  open n use {Double, nought, add, is_positive, print_usdc}

  pub record Amounts : Type 0 where
    pub total : Double
    pub bad : ℕ

  abbrev pub add_amount : Option Double → Amounts → Amounts
  add_amount none a = record a { bad = a.bad + 1 }
  add_amount (some x) a = record a { total = add a.total x }

  unfoldable pub amount_loop : (col : ℕ) → List (List Text) → Amounts → Amounts
  amount_loop col [] a = a
  amount_loop col (row ∷ rows) a =
      amount_loop col rows (add_amount (parse_amount n (cell row (some col))) a)

  abbrev pub no_amounts : Amounts
  no_amounts = record { total = nought; bad = 0 }

  -- The loop of the source keeps all these totals at once; no one of them reads another.
  unfoldable pub summary_of : Columns → List (List Text) → BordereauSummary
  unfolding amount_loop date_loop texts_of
  summary_of c rows =
      let covered = amount_loop c.cov rows no_amounts in
      let premiums = amount_loop c.prem rows no_amounts in
      let inceptions = date_loop earlier c.inc rows no_dates in
      let expiries = date_loop later c.exp rows no_dates in
      let ambiguous = inceptions.ambiguous + expiries.ambiguous in
      record {
        policy_count = length rows;
        coverage_limit = print_usdc covered.total;
        ceded_premium = print_usdc premiums.total;
        inception_date = or_empty inceptions.best;
        expiry_date = or_empty expiries.best;
        line_of_business = mode (texts_of c.lob rows);
        jurisdiction = mode (texts_of c.jur rows);
        warnings =
            warn_if (ltb 0 covered.bad) (bad_coverage covered.bad)
            ++ other_warnings c premiums.bad ambiguous (is_positive covered.total)
                (is_positive premiums.total);
      }

  abbrev pub with_columns :
      Option ℕ
      → Option ℕ
      → (inc_c exp_c lob_c jur_c : Option ℕ) → List (List Text)
      → Result (List BordereauError) BordereauSummary
  with_columns none none inc_c exp_c lob_c jur_c rows =
      err (no_coverage_column ∷ no_premium_column ∷ [])
  with_columns none (some prem) inc_c exp_c lob_c jur_c rows = err (no_coverage_column ∷ [])
  with_columns (some cov) none inc_c exp_c lob_c jur_c rows = err (no_premium_column ∷ [])
  with_columns (some cov) (some prem) inc_c exp_c lob_c jur_c rows = ok (
      summary_of
        (record { cov = cov; prem = prem; inc = inc_c; exp = exp_c; lob = lob_c; jur = jur_c })
        rows)

  unfoldable pub summarize_bordereau_rows :
      List (List Text) → Result (List BordereauError) BordereauSummary
  unfolding summary_of
  summarize_bordereau_rows [] = err (no_data_rows ∷ [])
  summarize_bordereau_rows (header ∷ []) = err (no_data_rows ∷ [])
  summarize_bordereau_rows (header ∷ row ∷ rows) =
      with_columns (col_of header coverage) (col_of header premium) (col_of header inception)
        (col_of header expiry) (col_of header Field.lob) (col_of header Field.jurisdiction)
        (row ∷ rows)

  unfoldable pub summarize_bordereau :
      (csv_text : Text) → Result (List BordereauError) BordereauSummary
  unfolding summarize_bordereau_rows
  summarize_bordereau csv_text = summarize_bordereau_rows (parse_csv csv_text)
