-- ===== src/App/OracleNode/Report/Checks.antt =====
-- The tests of validateNavReport in app/src/lib/oracle-node.ts lets through.
use nextblock.Base.{
  ℕ, ◌+◌, ◌≤◌, ◌<◌, ◌≡◌, refl, arith, Text, codes, to_lower, digits_value, [], some, true, false,
  inl, inr, ok, Result-cases, Option-cases,
}
use nextblock.Base.Lists.{append-none}
use nextblock.App.Session.{is_address}
use nextblock.App.OracleNode.{CanonicalValue, Fields, text, number, object, canonical_json}
use nextblock.App.OracleNode.Report.{
  Numbers, NavError, property, is_decimal, is_blank, no_report_id, no_model_version, source_hash,
  vault_errors, nav_errors, nav_of, confidence_errors, bps_of, text_errors, generated_at_errors,
  errors_of,
}

module _ {N H : Type 0} (numbers : Numbers N) (to_string : CanonicalValue N → Text)
    (keccak : Text → H) where
  abbrev pub IsNav : CanonicalValue N → ℕ → Type 0
  IsNav v nav =
      (t : Text) × ((v ≡ text t) × ((is_decimal t ≡ true) × ((nav ≡ digits_value 0 t) × (0 < nav))))

  abbrev pub IsConfidence : CanonicalValue N → ℕ → Type 0
  IsConfidence v bps =
      (x : N) × ((v ≡ number x)
        × ((numbers.leb_number numbers.zero_number x ≡ true)
            × ((numbers.leb_number x numbers.one_number ≡ true) × (bps ≡ numbers.to_bps x))))

  abbrev pub HasText : CanonicalValue N → Type 0
  HasText v = (t : Text) × ((v ≡ text t) × (is_blank t ≡ false))

  abbrev pub IsFresh : (now_seconds : ℕ) → CanonicalValue N → Type 0
  IsFresh now_seconds v =
      (x : N) × (t : ℕ) × ((v ≡ number x)
        × ((numbers.positive_integer x ≡ some t)
            × ((now_seconds ≤ t + 900) × (t ≤ now_seconds + 60))))

  pub nav_errors-none :
      (v : CanonicalValue N)
      → nav_errors numbers to_string keccak v ≡ []
      → IsNav v (nav_of numbers to_string keccak v)
  unfolding nav_errors
  nav_errors-none (text t) h = (t, (refl, ground arith))
  nav_errors-none v h = ground arith

  pub IsNav-errors :
      (v : CanonicalValue N) (nav : ℕ)
      → IsNav v nav
      → (nav_errors numbers to_string keccak v ≡ []) × (nav ≡ nav_of numbers to_string keccak v)
  unfolding nav_errors
  IsNav-errors v nav (t, (e, h)) = rw e ground arith

  pub confidence_errors-none :
      (v : CanonicalValue N)
      → confidence_errors numbers to_string keccak v ≡ []
      → IsConfidence v (bps_of numbers to_string keccak v)
  unfolding confidence_errors
  confidence_errors-none (number x) h = (x, (refl, ground arith))
  confidence_errors-none v h = ground arith

  pub IsConfidence-errors :
      (v : CanonicalValue N) (bps : ℕ)
      → IsConfidence v bps
      → (confidence_errors numbers to_string keccak v ≡ [])
        × (bps ≡ bps_of numbers to_string keccak v)
  unfolding confidence_errors
  IsConfidence-errors v bps (x, (e, h)) = rw e ground arith

  pub text_errors-none :
      (e : NavError) (v : CanonicalValue N)
      → text_errors numbers to_string keccak e v ≡ []
      → HasText v
  unfolding text_errors
  text_errors-none e (text t) h = (t, (refl, ground arith))
  text_errors-none e v h = ground arith

  pub HasText-errors :
      (e : NavError) (v : CanonicalValue N)
      → HasText v
      → text_errors numbers to_string keccak e v ≡ []
  unfolding text_errors
  HasText-errors e v (t, (eq, h)) = rw eq ground arith

  pub generated_at_errors-none :
      (now_seconds : ℕ) (v : CanonicalValue N)
      → generated_at_errors numbers to_string keccak now_seconds v ≡ []
      → IsFresh now_seconds v
  unfolding generated_at_errors
  generated_at_errors-none now_seconds (number x) h =
      elim (Option-cases (numbers.positive_integer x)) [
        | inl e ↦ ground arith
        | inr (t, e) ↦ (x, t, (refl, (e, ground arith)))
      ]
  generated_at_errors-none now_seconds v h = ground arith

  pub IsFresh-errors :
      (now_seconds : ℕ) (v : CanonicalValue N)
      → IsFresh now_seconds v
      → generated_at_errors numbers to_string keccak now_seconds v ≡ []
  unfolding generated_at_errors
  IsFresh-errors now_seconds v (x, t, (e, (p, h))) = rw e ground arith

  -- A vault that passes the test, and is a text or the whole throws.
  abbrev pub IsVault : CanonicalValue N → Text → Type 0
  IsVault v vault = (t : Text) × ((v ≡ text t) × ((is_address t ≡ true) × (vault ≡ to_lower t)))

  pub IsVault-errors :
      (v : CanonicalValue N) (vault : Text)
      → IsVault v vault
      → vault_errors numbers to_string keccak v ≡ []
  unfolding vault_errors
  IsVault-errors v vault (t, (e, h)) = rw e ground arith

  abbrev pub IsHash : Fields N → H → Type 0
  IsHash report hash =
      (c : Text) × ((canonical_json numbers.json (object report) ≡ ok c) × (hash ≡ keccak c))

  pub source_hash-ok :
      (report : Fields N) (hash : H)
      → source_hash numbers to_string keccak (object report) ≡ ok hash
      → IsHash report hash
  unfolding source_hash
  source_hash-ok report hash h = elim (Result-cases (canonical_json numbers.json (object report))) [
    | inl (c, e) ↦ (c, (e, ground arith))
    | inr (q, e) ↦ ground arith
  ]

  pub IsHash-ok :
      (report : Fields N) (hash : H)
      → IsHash report hash
      → source_hash numbers to_string keccak (object report) ≡ ok hash
  unfolding source_hash
  IsHash-ok report hash (c, (e, h)) = ground arith

  -- The six tests leave no error.
  abbrev pub PassesAll : Fields N → (now_seconds : ℕ) → Type 0
  PassesAll report now_seconds =
      (vault_errors numbers to_string keccak (property (codes "vault") report) ≡ [])
      × ((nav_errors numbers to_string keccak (property (codes "nav") report) ≡ [])
          × ((confidence_errors numbers to_string keccak (property (codes "confidence") report)
                ≡ [])
              × ((text_errors numbers to_string keccak no_report_id
                      (property (codes "reportId") report)
                    ≡ [])
                  × ((text_errors numbers to_string keccak no_model_version
                          (property (codes "modelVersion") report)
                        ≡ [])
                      × (generated_at_errors numbers to_string keccak now_seconds
                            (property (codes "generatedAt") report)
                          ≡ [])))))

  pub errors_of-none :
      (report : Fields N) (now_seconds : ℕ)
      → errors_of numbers to_string keccak report now_seconds ≡ []
      → PassesAll report now_seconds
  unfolding errors_of
  errors_of-none report now_seconds h =
      let (a, h1) =
        append-none (vault_errors numbers to_string keccak (property (codes "vault") report)) _ h in
      let (b, h2) =
        append-none (nav_errors numbers to_string keccak (property (codes "nav") report)) _ h1 in
      let (c, h3) =
        append-none
          (confidence_errors numbers to_string keccak (property (codes "confidence") report)) _
          h2 in
      let (d, h4) =
        append-none
          (text_errors numbers to_string keccak no_report_id (property (codes "reportId") report)) _
          h3 in
      (
        a,
        (
          b,
          (
            c,
            (
              d,
              append-none
                  (text_errors numbers to_string keccak no_model_version
                    (property (codes "modelVersion") report))
                  _ h4,
            ),
          ),
        ),
      )

  pub PassesAll-errors :
      (report : Fields N) (now_seconds : ℕ)
      → PassesAll report now_seconds
      → errors_of numbers to_string keccak report now_seconds ≡ []
  unfolding errors_of
  PassesAll-errors report now_seconds (a, (b, (c, (d, (e, f))))) = rw (a, b, c, d, e, f) refl
