-- ===== src/App/Offering/Valid.antt =====
-- The valid terms of app/src/lib/offering/terms.ts.
use nextblock.Base.{
  ℕ, ◌≤◌, ◌<◌, ◌≡◌, refl, ap, subst, arith, Text, length, List, [], ◌∷◌, Option, none, some, true,
  Bool-cases, inl, inr,
}
use nextblock.Base.Int.{ℤ, pos, negsuc}
use nextblock.Base.Trimmed.{trim-trim, lower_trim-lower_trim, upper_trim-upper_trim}
use nextblock.Base.Lists.{append-none}
use nextblock.App.Session.{is_address}
use nextblock.App.Offering.{
  OfferingTermsInput, OfferingError, ValidationResult, validate_offering_terms, valid, invalid,
  answer_of, normalized, errors_of, or_empty, vault_of, words_of, grade_of, vault_errors,
  words_errors, grade_errors, apy_errors, includes, risk_grades, max_manager_name, max_strategy,
  no_manager_name, long_manager_name, no_strategy, long_strategy,
}

-- What a field of the input must be.
abbrev pub HasLength : (most : ℕ) → Text → Type 0
HasLength most t = (0 < length t) × (length t ≤ most)

abbrev pub IsRange : (min max : Option ℤ) → Type 0
IsRange min max =
    (m : ℕ) × (n : ℕ) × ((min ≡ some (pos m))
      × ((max ≡ some (pos n)) × ((0 < n) × ((m ≤ n) × (n ≤ 5000)))))

pub record IsOffering (v : OfferingTermsInput) : Type 0 where
  pub vault : is_address (or_empty v.vault_address) ≡ true
  pub manager : HasLength 80 (or_empty v.manager_name)
  pub strategy : HasLength 280 (or_empty v.strategy_statement)
  pub grade : includes (or_empty v.risk_grade) risk_grades ≡ true
  pub range : IsRange v.target_apy_min_bps v.target_apy_max_bps

vault_errors-none : (t : Text) → vault_errors t ≡ [] → is_address t ≡ true
unfolding vault_errors
vault_errors-none t h = ground arith

words_errors-none :
    (most : ℕ) (e f : OfferingError) (t : Text) → words_errors most e f t ≡ [] → HasLength most t
unfolding words_errors
words_errors-none most e f t h = ground arith

grade_errors-none : (t : Text) → grade_errors t ≡ [] → includes t risk_grades ≡ true
unfolding grade_errors
grade_errors-none t h = elim (Bool-cases (includes t risk_grades)) [
  | inl e ↦ e
  | inr e ↦ ground arith
]

apy_errors-none : (min max : Option ℤ) → apy_errors min max ≡ [] → IsRange min max
unfolding apy_errors
apy_errors-none none max h = ground arith
apy_errors-none (some m) none h = ground arith
apy_errors-none (some (pos m)) (some (pos n)) h = (m, n, (refl, (refl, ground arith)))
apy_errors-none (some (negsuc m)) (some n) h = ground arith
apy_errors-none (some (pos m)) (some (negsuc n)) h = ground arith

value_of : OfferingTermsInput → ValidationResult → OfferingTermsInput
value_of w (valid v) = v
value_of w (invalid errors) = w

answer_of-valid :
    (errors : List OfferingError) (w v : OfferingTermsInput)
    → answer_of errors w ≡ valid v
    → (errors ≡ []) × (w ≡ v)
unfolding value_of
answer_of-valid [] w v h = (refl, ap (value_of w) h)
answer_of-valid (e ∷ errors) w v h = ground arith

normalized-normalized : (i : OfferingTermsInput) → normalized (normalized i) ≡ normalized i
unfolding normalized
normalized-normalized i =
    rw
      (
        lower_trim-lower_trim (or_empty i.vault_address),
        trim-trim (or_empty i.manager_name),
        trim-trim (or_empty i.strategy_statement),
        upper_trim-upper_trim (or_empty i.risk_grade),
      )
      refl

errors_of-normalized : (i : OfferingTermsInput) → errors_of (normalized i) ≡ errors_of i
unfolding errors_of normalized
errors_of-normalized i =
    rw
      (
        lower_trim-lower_trim (or_empty i.vault_address),
        trim-trim (or_empty i.manager_name),
        trim-trim (or_empty i.strategy_statement),
        upper_trim-upper_trim (or_empty i.risk_grade),
      )
      refl

errors_of-none : (i : OfferingTermsInput) → errors_of i ≡ [] → IsOffering (normalized i)
unfolding errors_of normalized
errors_of-none i h =
    let (a, h1) = append-none (vault_errors (vault_of i.vault_address)) _ h in
    let (b, h2) =
      append-none
        (words_errors max_manager_name no_manager_name long_manager_name (words_of i.manager_name))
        _ h1 in
    let (c, h3) =
      append-none
        (words_errors max_strategy no_strategy long_strategy (words_of i.strategy_statement)) _
        h2 in
    let (d, e) = append-none (grade_errors (grade_of i.risk_grade)) _ h3 in
    record {
      vault = vault_errors-none (vault_of i.vault_address) a;
      manager = words_errors-none _ _ _ _ b;
      strategy = words_errors-none _ _ _ _ c;
      grade = grade_errors-none (grade_of i.risk_grade) d;
      range = apy_errors-none _ _ e;
    }

-- The terms that an input is turned into have an address, a name of at most 80 and a strategy of at
-- most 280 characters, neither empty, one of the four grades, and a range of whole basis points from
-- 0 to a positive number of at most 5000; and they are valid again and stay as they are.
pub validate_offering_terms-IsOffering :
    (i v : OfferingTermsInput)
    → validate_offering_terms i ≡ valid v
    → IsOffering v × (validate_offering_terms v ≡ valid v)
unfolding validate_offering_terms
validate_offering_terms-IsOffering i v h =
    let (none_left, same) = answer_of-valid (errors_of i) (normalized i) v h in
    subst (λ w. IsOffering w × (validate_offering_terms w ≡ valid w)) same
      (
        errors_of-none i none_left,
        rw (errors_of-normalized i, none_left) (ap valid (normalized-normalized i)),
      )
