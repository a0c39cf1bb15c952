-- ===== src/App/OracleNode/Report/Published.antt =====
-- The reports that validateNavReport of app/src/lib/oracle-node.ts lets through.
use nextblock.Base.{
  ℕ, ◌≡◌, ◌↔◌, refl, ap, sym, ◌∙◌, subst, arith, Text, codes, List, [], ◌∷◌, Result, ok,
}
use nextblock.App.OracleNode.{CanonicalValue, Fields, text, object, CanonicalError}
use nextblock.App.OracleNode.Report.{
  Numbers, PublishNavArgs, NavError, NavValidation, valid, invalid, threw, property, no_report_id,
  no_model_version, source_hash, vault_text, vault_errors, nav_of, bps_of, errors_of, args_of,
  decide, validate_nav_report,
}
use nextblock.App.OracleNode.Report.Checks.{
  IsNav, IsConfidence, HasText, IsFresh, nav_errors-none, IsNav-errors, confidence_errors-none,
  IsConfidence-errors, text_errors-none, HasText-errors, generated_at_errors-none, IsFresh-errors,
  IsVault, IsVault-errors, IsHash, source_hash-ok, IsHash-ok, errors_of-none, PassesAll-errors,
}

module _ {N H : Type 0} (numbers : Numbers N) (to_string : CanonicalValue N → Text)
    (keccak : Text → H) where
  -- What the arguments are made of.
  pub record Publishes (report : Fields N) (now_seconds : ℕ) (args : PublishNavArgs H)
      : Type 0 where
    pub vault : IsVault numbers to_string keccak (property (codes "vault") report) args.vault
    pub nav : IsNav numbers to_string keccak (property (codes "nav") report) args.nav
    pub confidence :
        IsConfidence numbers to_string keccak
          (property (codes "confidence") report)
          args.confidence_bps
    pub report_id : HasText numbers to_string keccak (property (codes "reportId") report)
    pub model_version : HasText numbers to_string keccak (property (codes "modelVersion") report)
    pub generated_at :
        IsFresh numbers to_string keccak now_seconds (property (codes "generatedAt") report)
    pub hash : IsHash numbers to_string keccak report args.source_hash

  args_or : PublishNavArgs H → NavValidation H → PublishNavArgs H
  args_or default (valid args) = args
  args_or default (invalid errors) = default
  args_or default (threw e) = default

  args_of-valid :
      (report : Fields N) (v : CanonicalValue N) (r : Result CanonicalError H)
      (args : PublishNavArgs H)
      → vault_errors numbers to_string keccak v ≡ []
      → args_of numbers to_string keccak report v r ≡ valid args
      → IsVault numbers to_string keccak v args.vault
        × ((r ≡ ok args.source_hash)
            × ((nav_of numbers to_string keccak (property (codes "nav") report) ≡ args.nav)
                × (bps_of numbers to_string keccak (property (codes "confidence") report)
                    ≡ args.confidence_bps)))
  unfolding args_of vault_errors vault_text args_or
  args_of-valid report (text t) (ok h) args e q =
      let same = ap (args_or args) q in
      (
        (t, (refl, (ground arith, sym (ap (λ a. a.vault) same)))),
        (ap (λ a. ok a.source_hash) same, (ap (λ a. a.nav) same, ap (λ a. a.confidence_bps) same)),
      )
  args_of-valid report v r args e q = ground arith

  decide-valid :
      (errors : List NavError) (v : NavValidation H) (args : PublishNavArgs H)
      → decide numbers to_string keccak errors v ≡ valid args
      → (errors ≡ []) × (v ≡ valid args)
  decide-valid [] v args h = (refl, h)
  decide-valid (e ∷ errors) v args h = ground arith

  args_of-valid_from :
      (report : Fields N) (v : CanonicalValue N) (r : Result CanonicalError H)
      (args : PublishNavArgs H)
      → IsVault numbers to_string keccak v args.vault
      → r ≡ ok args.source_hash
      → args.nav ≡ nav_of numbers to_string keccak (property (codes "nav") report)
      → args.confidence_bps ≡ bps_of numbers to_string keccak (property (codes "confidence") report)
      → args_of numbers to_string keccak report v r ≡ valid args
  unfolding args_of
  args_of-valid_from report v r args (t, (e, (is_a, lower))) q n b =
      rw (e, q) rw (sym lower, sym n, sym b) refl

  -- A report is turned into arguments exactly when its vault is an address, its NAV a positive decimal,
  -- its confidence a number from 0 to 1, its ids have content, its time is at most 900 seconds old and
  -- 60 ahead, and it has a canonical text, and then the arguments are the vault in lower case, the NAV,
  -- the confidence in basis points and the hash of that text.
  pub validate_nav_report-valid_iff :
      (report : Fields N) (now_seconds : ℕ) (args : PublishNavArgs H)
      → validate_nav_report numbers to_string keccak report now_seconds ≡ valid args
        ↔ Publishes report now_seconds args
  unfolding validate_nav_report
  validate_nav_report-valid_iff report now_seconds args = (
    (λ h.
        let (e, q) =
          decide-valid (errors_of numbers to_string keccak report now_seconds) _ args h in
        let (a, (b, (c, (d, (f, g))))) =
          errors_of-none numbers to_string keccak report now_seconds e in
        let (v, (r, (n, k))) = args_of-valid report (property (codes "vault") report) _ args a q in
        record {
          vault = v;
          nav =
              subst (IsNav numbers to_string keccak (property (codes "nav") report)) n
                (nav_errors-none numbers to_string keccak _ b);
          confidence =
              subst (IsConfidence numbers to_string keccak (property (codes "confidence") report)) k
                (confidence_errors-none numbers to_string keccak _ c);
          report_id = text_errors-none numbers to_string keccak no_report_id _ d;
          model_version = text_errors-none numbers to_string keccak no_model_version _ f;
          generated_at = generated_at_errors-none numbers to_string keccak now_seconds _ g;
          hash = source_hash-ok numbers to_string keccak report args.source_hash r;
        }),
    (λ p.
        let (b, n) = IsNav-errors numbers to_string keccak _ args.nav p.nav in
        let (c, k) =
          IsConfidence-errors numbers to_string keccak _ args.confidence_bps p.confidence in
        let passes = PassesAll-errors numbers to_string keccak report now_seconds (
          IsVault-errors numbers to_string keccak _ args.vault p.vault,
          (
            b,
            (
              c,
              (
                HasText-errors numbers to_string keccak no_report_id _ p.report_id,
                (
                  HasText-errors numbers to_string keccak no_model_version _ p.model_version,
                  IsFresh-errors numbers to_string keccak now_seconds _ p.generated_at,
                ),
              ),
            ),
          ),
        ) in
        ap
          (λ errors. decide numbers to_string keccak errors (
            args_of numbers to_string keccak report (property (codes "vault") report)
              (source_hash numbers to_string keccak (object report))))
          passes
        ∙ args_of-valid_from report (property (codes "vault") report) _ args p.vault
            (IsHash-ok numbers to_string keccak report args.source_hash p.hash) n k),
  )
