-- ===== src/App/OracleNode/Tests.antt =====
-- The oracle node at a concrete report, with fractions of ten thousand for doubles.
use nextblock.Base.{
  ℕ, zero, suc, ◌+◌, ◌<◌, ◌≡◌, ◌↔◌, refl, arith, Text, codes, to_lower, leb, eqb, if◌then◌else◌,
  List, [], ◌∷◌, All, Option, none, some, true, false, ok,
}
use nextblock.Base.TextOrder.{text_leb}
use nextblock.App.Session.{is_address, all_hex}
use nextblock.App.OracleNode.{
  CanonicalValue, Fields, text, number, boolean, array, object, nil, cons, end, field,
  canonical_json, field_text, json_text,
}
use nextblock.App.OracleNode.Sorted.{in_object, swap, canonical_json-SameValue}
use nextblock.App.OracleNode.Report.{
  Numbers, PublishNavArgs, valid, invalid, stale, validate_nav_report,
}
use nextblock.App.OracleNode.Report.Published.{Publishes, validate_nav_report-valid_iff}
use nextblock.App.OracleNode.Signature.{
  compute_braino_signature, verify_braino_signature, verify_braino_signature-true_iff,
}

abbrev digits : ℕ → Option Text
digits n = some ((48 + n) ∷ [])

-- {"b":[1,"\n"],"a":true} and {"a":true,"b":[1,"\n"]}
abbrev b_value : CanonicalValue ℕ
b_value = array (cons (number 1) (cons (text (10 ∷ [])) nil))

abbrev b_first : CanonicalValue ℕ
b_first = object (field (codes "b") b_value (field (codes "a") (boolean true) end))

abbrev a_first : CanonicalValue ℕ
a_first = object (field (codes "a") (boolean true) (field (codes "b") b_value end))

canonical_run : canonical_json digits b_first ≡ ok (codes "{\"a\":true,\"b\":[1,\"\\n\"]}")
unfolding canonical_json text_leb field_text json_text
canonical_run = refl

canonical_json-SameValue_example : canonical_json digits b_first ≡ canonical_json digits a_first
canonical_json-SameValue_example =
    canonical_json-SameValue digits
      (in_object (swap (codes "b") (codes "a") b_value (boolean true) end refl))

abbrev fractions : Numbers ℕ
fractions = record {
  json = λ n. some (codes "x");
  leb_number = leb;
  zero_number = 0;
  one_number = 10000;
  to_bps = λ n. n;
  positive_integer = λ n. if eqb n 0 then none else some n;
}

abbrev vault_address : Text
vault_address = codes "0xABCDEFABCDEFABCDEFABCDEFABCDEFABCDEFABCD"

abbrev report : Fields ℕ
report = field (codes "vault") (text vault_address) (
    field (codes "nav") (text (codes "1250000")) (
      field (codes "confidence") (number 8700) (
        field (codes "reportId") (text (codes "r-1")) (
          field (codes "modelVersion") (text (codes "2"))
            (field (codes "generatedAt") (number 1000) end)))))

abbrev no_text : CanonicalValue ℕ → Text
no_text v = []

abbrev itself : Text → Text
itself t = t

abbrev args : PublishNavArgs Text
args = record {
  vault = codes "0xabcdefabcdefabcdefabcdefabcdefabcdefabcd";
  nav = 1250000;
  confidence_bps = 8700;
  source_hash =
      codes
        "{\"confidence\":x,\"generatedAt\":x,\"modelVersion\":\"2\",\"nav\":\"1250000\",\"reportId\":\"r-1\",\"vault\":\"0xABCDEFABCDEFABCDEFABCDEFABCDEFABCDEFABCD\"}";
}

-- The last second of the report, and one second too late.
accepted_run :
    (validate_nav_report fractions no_text itself report 1900 ≡ valid args)
    × (validate_nav_report fractions no_text itself report 1901 ≡ invalid (stale ∷ []))
unfolding validate_nav_report is_address text_leb field_text json_text
accepted_run = (refl, refl)

validate_nav_report-valid_iff_example :
    validate_nav_report fractions no_text itself report 1900 ≡ valid args
    ↔ Publishes fractions no_text itself report 1900 args
validate_nav_report-valid_iff_example =
    validate_nav_report-valid_iff fractions no_text itself report 1900 args

-- A digest of 32 bytes ab.
abbrev copies : ℕ → List ℕ
copies zero = []
copies (suc n) = 171 ∷ copies n

copies-AreBytes : (n : ℕ) → All (λ b. b < 256) (copies n)
copies-AreBytes zero = tt
copies-AreBytes (suc n) = (omega arith, copies-AreBytes n)

abbrev constant : (secret raw_body : Text) → List ℕ
constant secret raw_body = copies 32

abbrev upper_case : Text
upper_case = codes "ABABABABABABABABABABABABABABABABABABABABABABABABABABABABABABABAB"

verified_run :
    (verify_braino_signature constant (codes "{}") (some upper_case) (codes "key") ≡ true)
    × (verify_braino_signature constant (codes "{}") (some (codes "ABAB")) (codes "key") ≡ false)
unfolding verify_braino_signature
verified_run = (refl, refl)

verify_braino_signature-true_iff_example :
    verify_braino_signature constant (codes "{}") (some upper_case) (codes "key") ≡ true
    ↔ (t : Text) × ((some upper_case ≡ some t)
        × ((all_hex 64 t ≡ true)
            × (to_lower t ≡ compute_braino_signature constant (codes "{}") (codes "key"))))
verify_braino_signature-true_iff_example =
    verify_braino_signature-true_iff constant (codes "{}") (some upper_case) (codes "key")
      (copies-AreBytes 32)
