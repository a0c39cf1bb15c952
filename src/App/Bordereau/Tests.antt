-- ===== src/App/Bordereau/Tests.antt =====
-- The bordereau parser at a small sheet, with natural numbers for the doubles.
use nextblock.Base.{ℕ, ◌+◌, ltb, Text, codes, digits_value, List, [], ◌∷◌, some, true, ◌≡◌, refl}
use nextblock.Base.TextOrder.{text_ltb}
use nextblock.Base.Decimals.{print}
use nextblock.App.Bordereau.Cells.{
  Doubles, iso_date, slash_date, slash_value, day_and_month, full_year,
}
use nextblock.App.Bordereau.Csv.{with_content, parse_csv}
use nextblock.App.Bordereau.Printed.{print_csv, parse_csv-print_csv}
use nextblock.App.Bordereau.Summary.{summarize_bordereau_rows, date_loop, later, no_dates}
use nextblock.App.Bordereau.{parse_bordereau_date}
use nextblock.App.Bordereau.Totals.{Summarizes, summarize_bordereau_rows-Summarizes}

abbrev whole : Doubles
whole = record {
  Double = ℕ;
  of_text = λ t. some (digits_value 0 t);
  negate = λ x. x;
  nought = 0;
  add = λ x y. x + y;
  is_positive = λ x. ltb 0 x;
  print_usdc = print;
}

abbrev sheet : List (List Text)
sheet =
    (codes "Sum Insured" ∷ codes "Premium" ∷ codes "Inception" ∷ [])
    ∷ (codes "25,000" ∷ codes "1,250" ∷ codes "2026-01-15" ∷ [])
    ∷ (codes " " ∷ [])
    ∷ (codes "a \"q\", b" ∷ codes "75" ∷ codes "31/12/25" ∷ [])
    ∷ []

parse_csv-print_csv_example : parse_csv (print_csv true sheet) ≡ with_content sheet
parse_csv-print_csv_example = parse_csv-print_csv true sheet

summarize_bordereau_rows-Summarizes_example :
    Summarizes whole sheet (summarize_bordereau_rows whole sheet)
summarize_bordereau_rows-Summarizes_example = summarize_bordereau_rows-Summarizes whole sheet

-- A slash date may have a year of three digits, which as a text is after one of four.
late_expiry :
    (date_loop later
      (some 0)
      ((codes "31/12/999" ∷ []) ∷ (codes "31/12/2026" ∷ []) ∷ [])
      no_dates).best
    ≡ some (codes "999-12-31")
unfolding date_loop parse_bordereau_date iso_date slash_date slash_value day_and_month full_year
    text_ltb print
late_expiry = refl
