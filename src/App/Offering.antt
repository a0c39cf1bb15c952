-- ===== src/App/Offering.antt =====
-- app/src/lib/offering/terms.ts: the terms of an offering that a curator gives, and the rows they are
-- kept in. A number is none when it is no integer; the format of a range of percents is left out.
pub mod Valid
mod Tests
use nextblock.Base.{
  ℕ, Text, codes, text_key, text_eqb, to_lower, to_upper, trim, length, List, [], ◌∷◌, ◌++◌, Option,
  none, some, Bool, true, false, ◌&&◌, ◌||◌, not, ltb, eqb, if◌then◌else◌,
}
use nextblock.Base.Int.{ℤ, pos, negsuc, ltb_ℤ}
use nextblock.Base.Table.{Table, save}
use nextblock.App.Session.{is_address}

infixl 1 ◌>>=◌
abbrev ◌>>=◌ : {A B : Type 0} → Option A → (A → Option B) → Option B
none >>= f = none
some a >>= f = f a

abbrev pub risk_grades : List Text
risk_grades = codes "LOWER" ∷ codes "MODERATE" ∷ codes "HIGHER" ∷ codes "HIGH" ∷ []

unfoldable pub includes : Text → List Text → Bool
includes t [] = false
includes t (u ∷ texts) = text_eqb t u || includes t texts

abbrev pub max_manager_name : ℕ
max_manager_name = 80

abbrev pub max_strategy : ℕ
max_strategy = 280

abbrev pub max_target_bps : ℕ
max_target_bps = 5000

-- A text that is not there is none.
pub record OfferingTermsInput : Type 0 where
  pub vault_address : Option Text
  pub manager_name : Option Text
  pub strategy_statement : Option Text
  pub risk_grade : Option Text
  pub target_apy_min_bps : Option ℤ
  pub target_apy_max_bps : Option ℤ

pub data OfferingError : Type 0 where
  bad_vault_address no_manager_name long_manager_name no_strategy long_strategy : OfferingError
  bad_risk_grade bad_min bad_max min_above_max max_above_cap : OfferingError

pub data ValidationResult : Type 0 where
  valid : OfferingTermsInput → ValidationResult
  invalid : List OfferingError → ValidationResult

-- `?? ''`
abbrev pub or_empty : Option Text → Text
or_empty none = []
or_empty (some t) = t

abbrev pub vault_of : Option Text → Text
vault_of t = to_lower (trim (or_empty t))

abbrev pub words_of : Option Text → Text
words_of t = trim (or_empty t)

abbrev pub grade_of : Option Text → Text
grade_of t = to_upper (trim (or_empty t))

abbrev pub error_if : Bool → OfferingError → List OfferingError
error_if true e = e ∷ []
error_if false e = []

pub words_errors : (most : ℕ) → (missing too_long : OfferingError) → Text → List OfferingError
words_errors most missing too_long t =
    error_if (eqb (length t) 0) missing ++ error_if (ltb most (length t)) too_long

abbrev is_not_min : Option ℤ → Bool
is_not_min none = true
is_not_min (some n) = ltb_ℤ n (pos 0)

abbrev is_not_max : Option ℤ → Bool
is_not_max none = true
is_not_max (some n) = not (ltb_ℤ (pos 0) n)

abbrev above : Option ℤ → Option ℤ → Bool
above (some m) (some n) = ltb_ℤ n m
above m n = false

pub apy_errors : (min max : Option ℤ) → List OfferingError
apy_errors min max =
    error_if (is_not_min min) bad_min
    ++ (error_if (is_not_max max) bad_max
        ++ (error_if (above min max) min_above_max
            ++ error_if (above max (some (pos max_target_bps))) max_above_cap))

pub vault_errors : Text → List OfferingError
vault_errors t = if is_address t then [] else bad_vault_address ∷ []

pub grade_errors : Text → List OfferingError
unfolding includes
grade_errors t = if includes t risk_grades then [] else bad_risk_grade ∷ []

abbrev answer_of : List OfferingError → OfferingTermsInput → ValidationResult
answer_of [] value = valid value
answer_of (e ∷ errors) value = invalid (e ∷ errors)

-- The texts of the input, trimmed, in one case.
pub normalized : OfferingTermsInput → OfferingTermsInput
normalized i = record {
  vault_address = some (vault_of i.vault_address);
  manager_name = some (words_of i.manager_name);
  strategy_statement = some (words_of i.strategy_statement);
  risk_grade = some (grade_of i.risk_grade);
  target_apy_min_bps = i.target_apy_min_bps;
  target_apy_max_bps = i.target_apy_max_bps;
}

pub errors_of : OfferingTermsInput → List OfferingError
unfolding vault_errors words_errors grade_errors apy_errors
errors_of i =
    vault_errors (vault_of i.vault_address)
    ++ (words_errors max_manager_name no_manager_name long_manager_name (words_of i.manager_name)
        ++ (words_errors max_strategy no_strategy long_strategy (words_of i.strategy_statement)
            ++ (grade_errors (grade_of i.risk_grade)
                ++ apy_errors i.target_apy_min_bps i.target_apy_max_bps)))

unfoldable pub validate_offering_terms : OfferingTermsInput → ValidationResult
unfolding normalized errors_of
validate_offering_terms i = answer_of (errors_of i) (normalized i)

-- A column that has no text, or no number, is none.
pub record TermsRow (N : Type 0) : Type 0 where
  pub vault_address : Option Text
  pub manager_name : Option Text
  pub strategy_statement : Option Text
  pub risk_grade : Option Text
  pub target_apy_min_bps : Option N
  pub target_apy_max_bps : Option N
  pub updated_by : Option Text
  pub updated_at : Option Text

pub record OfferingTerms (N : Type 0) : Type 0 where
  pub vault_address : Text
  pub manager_name : Text
  pub strategy_statement : Text
  pub risk_grade : Text
  pub target_apy_min_bps : N
  pub target_apy_max_bps : N
  pub updated_by : Text
  pub updated_at : Text

abbrev some_if : {A : Type 0} → Bool → A → Option A
some_if b a = if b then some a else none

pub parse_terms_row : {N : Type 0} → TermsRow N → Option (OfferingTerms N)
unfolding includes
parse_terms_row row = do
  vault ← row.vault_address
  manager ← row.manager_name
  strategy ← row.strategy_statement
  grade ← row.risk_grade
  min ← row.target_apy_min_bps
  max ← row.target_apy_max_bps
  some_if (includes (to_upper grade) risk_grades) (record {
    vault_address = to_lower vault;
    manager_name = manager;
    strategy_statement = strategy;
    risk_grade = to_upper grade;
    target_apy_min_bps = min;
    target_apy_max_bps = max;
    updated_by = or_empty row.updated_by;
    updated_at = or_empty row.updated_at;
  })

index_from :
    {N : Type 0}
    → List (OfferingTerms N)
    → Table Text (OfferingTerms N)
    → Table Text (OfferingTerms N)
index_from [] map = map
index_from (t ∷ terms) map = index_from terms (save (to_lower t.vault_address) t map)

pub index_terms_by_vault : {N : Type 0} → List (OfferingTerms N) → Table Text (OfferingTerms N)
unfolding index_from
index_terms_by_vault terms = index_from terms []
