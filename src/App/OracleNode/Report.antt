-- ===== src/App/OracleNode/Report.antt =====
-- validateNavReport of app/src/lib/oracle-node.ts, on any object: the source tests the type of a field
-- when it runs. Doubles, `String(v)` of a value that is no text, and keccak256 are parameters.
pub mod Checks
pub mod Published
use nextblock.Base.{
  ℕ, ◌-◌, Text, codes, text_eqb, to_lower, trim, all_digits, digits_value, List, [], ◌∷◌, ◌++◌,
  Option, none, some, Bool, true, false, ◌&&◌, ltb, eqb, if◌then◌else◌, Result, ok, err, and_then,
}
use nextblock.App.Session.{is_address}
use nextblock.App.OracleNode.{
  CanonicalValue, Fields, undefined, null, text, number, boolean, array, object, other, end, field,
  CanonicalError, canonical_json,
}

pub record Numbers (N : Type 0) : Type 0 where
  -- `JSON.stringify`, none for a number that is not finite.
  pub json : N → Option Text
  pub leb_number : N → N → Bool
  pub zero_number : N
  pub one_number : N
  -- `Math.round(x * 10_000)` of a number that is not negative.
  pub to_bps : N → ℕ
  -- The value of a number that `Number.isInteger` accepts and that is positive.
  pub positive_integer : N → Option ℕ

pub record PublishNavArgs (H : Type 0) : Type 0 where
  pub vault : Text
  pub nav : ℕ
  pub confidence_bps : ℕ
  pub source_hash : H

pub data NavError : Type 0 where
  bad_vault bad_nav zero_nav bad_confidence no_report_id no_model_version : NavError
  bad_generated_at stale in_future : NavError

-- What the function throws: `toLowerCase` of no text, or an error of the serializer.
pub data Thrown : Type 0 where
  not_a_text : Thrown
  not_canonical : CanonicalError → Thrown

pub data NavValidation (H : Type 0) : Type 0 where
  valid : PublishNavArgs H → NavValidation H
  invalid : List NavError → NavValidation H
  threw : Thrown → NavValidation H

-- `report[key]`
unfoldable pub property : {N : Type 0} → Text → Fields N → CanonicalValue N
property key end = undefined
property key (field k v fields) =
    let rest = property key fields in if text_eqb key k then v else rest

abbrev error_if : Bool → NavError → List NavError
error_if true e = e ∷ []
error_if false e = []

-- `^[0-9]+$`
abbrev pub is_decimal : Text → Bool
is_decimal [] = false
is_decimal (c ∷ t) = all_digits (c ∷ t)

abbrev pub is_blank : Text → Bool
is_blank t = text_eqb (trim t) []

module _ {N H : Type 0} (numbers : Numbers N) (to_string : CanonicalValue N → Text)
    (keccak : Text → H) where
  pub source_hash : CanonicalValue N → Result CanonicalError H
  unfolding canonical_json
  source_hash v = and_then (canonical_json numbers.json v) λ t. ok (keccak t)

  -- What the pattern for addresses is tried on: `report.vault ?? ''` as a text.
  pub vault_text : CanonicalValue N → Text
  vault_text undefined = []
  vault_text null = []
  vault_text (text t) = t
  vault_text v = to_string v

  pub vault_errors : CanonicalValue N → List NavError
  unfolding vault_text
  vault_errors v = if is_address (vault_text v) then [] else bad_vault ∷ []

  pub nav_errors : CanonicalValue N → List NavError
  nav_errors (text t) =
      if is_decimal t then error_if (eqb (digits_value 0 t) 0) zero_nav else bad_nav ∷ []
  nav_errors v = bad_nav ∷ []

  abbrev pub nav_of : CanonicalValue N → ℕ
  nav_of (text t) = digits_value 0 t
  nav_of v = 0

  abbrev pub in_unit : N → Bool
  in_unit x = numbers.leb_number numbers.zero_number x && numbers.leb_number x numbers.one_number

  pub confidence_errors : CanonicalValue N → List NavError
  confidence_errors (number x) = if in_unit x then [] else bad_confidence ∷ []
  confidence_errors v = bad_confidence ∷ []

  abbrev pub bps_of : CanonicalValue N → ℕ
  bps_of (number x) = numbers.to_bps x
  bps_of v = 0

  pub text_errors : NavError → CanonicalValue N → List NavError
  text_errors e (text t) = error_if (is_blank t) e
  text_errors e v = e ∷ []

  abbrev pub max_report_age_seconds : ℕ
  max_report_age_seconds = 900

  abbrev pub age_errors : (now_seconds : ℕ) → Option ℕ → List NavError
  age_errors now_seconds none = bad_generated_at ∷ []
  age_errors now_seconds (some t) =
      if ltb max_report_age_seconds (now_seconds - t)
      then stale ∷ []
      else error_if (ltb 60 (t - now_seconds)) in_future

  pub generated_at_errors : (now_seconds : ℕ) → CanonicalValue N → List NavError
  generated_at_errors now_seconds (number x) = age_errors now_seconds (numbers.positive_integer x)
  generated_at_errors now_seconds v = bad_generated_at ∷ []

  pub errors_of : (report : Fields N) → (now_seconds : ℕ) → List NavError
  unfolding property vault_errors nav_errors confidence_errors text_errors generated_at_errors
  errors_of report now_seconds =
      vault_errors (property (codes "vault") report)
      ++ (nav_errors (property (codes "nav") report)
          ++ (confidence_errors (property (codes "confidence") report)
              ++ (text_errors no_report_id (property (codes "reportId") report)
                  ++ (text_errors no_model_version (property (codes "modelVersion") report)
                      ++ generated_at_errors now_seconds (property (codes "generatedAt") report)))))

  -- The call of `sourceHash` comes after `toLowerCase`.
  pub args_of : Fields N → CanonicalValue N → Result CanonicalError H → NavValidation H
  args_of report (text vault) (ok hash) = valid (record {
    vault = to_lower vault;
    nav = nav_of (property (codes "nav") report);
    confidence_bps = bps_of (property (codes "confidence") report);
    source_hash = hash;
  })
  args_of report (text vault) (err e) = threw (not_canonical e)
  args_of report v hash = threw not_a_text

  abbrev decide : List NavError → NavValidation H → NavValidation H
  decide [] validation = validation
  decide (e ∷ errors) validation = invalid (e ∷ errors)

  unfoldable pub validate_nav_report : (report : Fields N) → (now_seconds : ℕ) → NavValidation H
  unfolding errors_of args_of source_hash property
  validate_nav_report report now_seconds =
      decide (errors_of report now_seconds)
        (args_of report (property (codes "vault") report) (source_hash (object report)))
