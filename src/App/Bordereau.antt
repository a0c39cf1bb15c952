-- ===== src/App/Bordereau.antt =====
-- app/src/lib/portfolio/bordereau.ts: the totals of a ceded portfolio from the rows of its policies.
pub mod Csv
pub mod Printed
pub mod Serials
pub mod Cells
pub mod Summary
pub mod FirstDates
pub mod Totals
mod Tests
use nextblock.Base.{
  ℕ, zero, suc, ◌+◌, Text, codes, trim, to_lower, text_eqb, text_key, text_ltb, between, ltb, leb,
  eqb, is_digit, all_digits, digits_value, print, List, [], ◌∷◌, ◌++◌, map, length, Option, none,
  some, Bool, true, false, ◌&&◌, ◌||◌, not, if◌then◌else◌, Result, ok, err,
}
use nextblock.Base.Table.{Table, load, save}
use nextblock.App.Bordereau.Csv.{parse_csv}
use nextblock.App.Bordereau.Serials.{civil_of_serial}
use nextblock.App.Bordereau.Cells.{
  Doubles, BordereauDate, parse_amount, iso_date, slash_date, dated,
}

-- `Header.toLowerCase().replace(/[^a-z0-9]/g, '')`
abbrev kept : Text → Text
kept [] = []
kept (c ∷ s) = let rest = kept s in if between 97 122 c || is_digit c then c ∷ rest else rest

unfoldable pub normalize_header : Text → Text
normalize_header h = kept (to_lower h)

pub data Field : Type 0 where
  coverage premium inception expiry lob jurisdiction : Field

pub column_aliases : Field → List Text
column_aliases coverage =
    codes "suminsured"
    ∷ codes "sumassured"
    ∷ codes "sominsured"
    ∷ codes "coverage"
    ∷ codes "coveragelimit"
    ∷ codes "limit"
    ∷ codes "tsi"
    ∷ codes "insuredvalue"
    ∷ codes "insuredamount"
    ∷ codes "totalsuminsured"
    ∷ codes "exposure"
    ∷ []
column_aliases premium =
    codes "premium"
    ∷ codes "cededpremium"
    ∷ codes "grosspremium"
    ∷ codes "writtenpremium"
    ∷ codes "premiumamount"
    ∷ codes "netpremium"
    ∷ codes "annualpremium"
    ∷ []
column_aliases inception =
    codes "inception"
    ∷ codes "inceptiondate"
    ∷ codes "effective"
    ∷ codes "effectivedate"
    ∷ codes "start"
    ∷ codes "startdate"
    ∷ codes "from"
    ∷ codes "periodfrom"
    ∷ codes "attachment"
    ∷ codes "attachmentdate"
    ∷ []
column_aliases expiry =
    codes "expiry"
    ∷ codes "expirydate"
    ∷ codes "expiration"
    ∷ codes "expirationdate"
    ∷ codes "end"
    ∷ codes "enddate"
    ∷ codes "to"
    ∷ codes "periodto"
    ∷ codes "maturity"
    ∷ codes "maturitydate"
    ∷ []
column_aliases lob =
    codes "lineofbusiness"
    ∷ codes "lob"
    ∷ codes "class"
    ∷ codes "classofbusiness"
    ∷ codes "peril"
    ∷ codes "product"
    ∷ codes "coveragetype"
    ∷ codes "riskclass"
    ∷ []
column_aliases jurisdiction =
    codes "jurisdiction"
    ∷ codes "country"
    ∷ codes "territory"
    ∷ codes "region"
    ∷ codes "domicile"
    ∷ codes "location"
    ∷ codes "countryofrisk"
    ∷ []

pub contains : Text → List Text → Bool
contains t [] = false
contains t (u ∷ us) = text_eqb u t || contains t us

-- `none` for -1.
unfoldable pub col_from : (i : ℕ) → List Text → (aliases : List Text) → Option ℕ
unfolding contains
col_from i [] aliases = none
col_from i (h ∷ header) aliases =
    let later = col_from (suc i) header aliases in if contains h aliases then some i else later

pub col_of : (header : List Text) → Field → Option ℕ
unfolding col_from column_aliases normalize_header
col_of header field = col_from 0 (map normalize_header header) (column_aliases field)

-- What is behind the end of a row is empty.
abbrev pub cell_at : List Text → ℕ → Text
cell_at [] i = []
cell_at (c ∷ row) zero = c
cell_at (c ∷ row) (suc i) = cell_at row i

abbrev pub cell : List Text → Option ℕ → Text
cell row none = []
cell row (some i) = cell_at row i

abbrev serial_date : Text → Option BordereauDate
serial_date s =
    let serial = digits_value 0 s in
    if all_digits s
      && (leb 4 (length s) && (leb (length s) 6 && (ltb 20000 serial && ltb serial 90000)))
    then (let (y, m, d) = civil_of_serial serial in
        some (record { iso = dated (print y) (print m) (print d); ambiguous = false }))
    else none

pub parse_bordereau_date : (raw : Text) → Option BordereauDate
parse_bordereau_date raw =
    let s = trim raw in
    elim (iso_date s) [
      | some date ↦ some date
      | none ↦ elim (slash_date s) [ some date ↦ date | none ↦ serial_date s ]
    ]

-- The counts of the trimmed texts that are not empty, in the order of their first use.
abbrev counted : Option ℕ → ℕ
counted none = 1
counted (some n) = n + 1

abbrev count_text : Text → Table Text ℕ → Table Text ℕ
count_text [] counts = counts
count_text (c ∷ t) counts = save (c ∷ t) (counted (load (c ∷ t) counts)) counts

pub count_texts : List Text → Table Text ℕ → Table Text ℕ
count_texts [] counts = counts
count_texts (v ∷ values) counts = count_texts values (count_text (trim v) counts)

pub best_of : (best : Text) (best_n : ℕ) → Table Text ℕ → Text
best_of best best_n [] = best
best_of best best_n ((v, n) ∷ counts) =
    best_of (if ltb best_n n then v else best) (if ltb best_n n then n else best_n) counts

pub mode : List Text → Text
mode values = best_of [] 0 (count_texts values [])
