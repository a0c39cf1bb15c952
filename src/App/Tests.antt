-- ===== src/App/Tests.antt =====
-- The properties of the application's code at concrete requests, nonces, rows and claims.
use nextblock.Base.{
  ℕ, ◌+◌, ◌-◌, ◌≤◌, List, [], ◌∷◌, none, some, true, false, leb, if◌then◌else◌, ◌≡◌, refl, ap,
  arith, sum_of, All, text_key, text_eqb,
}
use nextblock.Base.Int.{pos, ◌-ℤ◌}
use nextblock.Base.Table.{load, save}
use nextblock.App.RateLimit.{
  WindowEntry, sweep, consume, rate_limit_local, window_key, normalize_bucket, normalize_subject,
}
use nextblock.App.RateLimit.Windows.{
  Request, key_of, answer, asked, let_through, IsWithin, window_lem,
}
use nextblock.App.RateLimit.Retry.{after, retry_lem}
use nextblock.App.Nonces.{consume_local_nonce, issue_nonce, key}
use nextblock.App.Nonces.SingleUse.{
  Operation, issues, consumes, issues_of, uses_of, held, uses_of-le, consume-issue,
}
use nextblock.App.Rows.{
  ClaimStatus, PremiumFlowRow, PremiumFlowKind, received, allocated, protocol_fee,
  protocol_fees_claimed, ClaimRow,
}
use nextblock.App.Settlement.{no_premiums, no_claims, build_settlement_statement, rollup_statements}
use nextblock.App.Settlement.Statements.{
  IsSumOfFlows, IsSumOfClaims, flow_amount, claim_amount, paid_of, build_settlement_statement-IsSum,
}
use nextblock.App.Settlement.Timeline.{IsChronological, flow_weight, claim_weight, timeline_lem}
use nextblock.App.Settlement.Rollup.{
  statements_of, flow_among, paid_among, rollup_statements-IsRollup,
}

-- Requests of "kyb" from "a", two a minute.
abbrev ask : ℕ → Request
ask now = record {
  now = now;
  bucket = 107 ∷ 121 ∷ 98 ∷ [];
  ip = 97 ∷ [];
  limit = 2;
  window_ms = 60000;
}

abbrev two_more : List Request
two_more = ask 1500 ∷ ask 2000 ∷ []

two_more-AreWithin : All (IsWithin (key_of (ask 1000)) 2 61000) two_more
two_more-AreWithin = ((omega arith, λ e. refl), ((omega arith, λ e. refl), tt))

nothing_is_open :
    (entry : WindowEntry)
    → load (key_of (ask 1000)) (sweep 1000 []) ≡ some entry
    → entry.reset_at ≤ 1000
unfolding sweep load
nothing_is_open entry e = absurd (ground arith)

window_lem_example :
    let_through (key_of (ask 1000)) (ask 1000 ∷ two_more) []
    ≡ 1 + (let n = asked (key_of (ask 1000)) two_more in if leb n (2 - 1) then n else 2 - 1)
window_lem_example = window_lem (ask 1000) 2 two_more [] nothing_is_open two_more-AreWithin

abbrev two_before : List Request
two_before = ask 0 ∷ ask 100 ∷ []

abbrev from_b : Request
from_b = record (ask 30000) { ip = 98 ∷ [] }

refused_run :
    (answer (ask 200) (after two_before [])).0
    ≡ record { allowed = false; retry_after_seconds = 60 }
unfolding rate_limit_local consume sweep load save window_key normalize_bucket normalize_subject
refused_run = refl

from_b-IsOther : text_eqb (key_of from_b) (key_of (ask 200)) ≡ false
unfolding window_key normalize_bucket normalize_subject
from_b-IsOther = refl

retry_lem_example :
    (answer (ask 60200) (after (from_b ∷ []) (answer (ask 200) (after two_before [])).1)).0.allowed
    ≡ true
retry_lem_example =
    retry_lem two_before (ask 200) (from_b ∷ []) (ask 60200) (ap (λ a. a.allowed) refused_run)
      (from_b-IsOther, tt) refl (rw refused_run (omega arith))

abbrev replay : List Operation
replay =
    issues 0 (65 ∷ []) (49 ∷ [])
    ∷ consumes 10 (97 ∷ []) (49 ∷ [])
    ∷ consumes 20 (65 ∷ []) (49 ∷ [])
    ∷ []

uses_of-le_example :
    uses_of (key (65 ∷ []) (49 ∷ [])) replay []
    ≤ issues_of (key (65 ∷ []) (49 ∷ [])) replay + held (key (65 ∷ []) (49 ∷ [])) []
uses_of-le_example = uses_of-le (key (65 ∷ []) (49 ∷ [])) replay []

consume-issue_example :
    let first = consume_local_nonce 10 (97 ∷ []) (49 ∷ []) (issue_nonce 0 (65 ∷ []) (49 ∷ []) []) in
    (first.0 ≡ true) × ((consume_local_nonce 20 (65 ∷ []) (49 ∷ []) first.1).0 ≡ false)
consume-issue_example = consume-issue 0 10 20 (65 ∷ []) (97 ∷ []) (49 ∷ []) [] refl (omega arith)

abbrev flow : ℕ → PremiumFlowKind → ℕ → ℕ → PremiumFlowRow
flow portfolio_id kind amount timestamp = record {
  id = [];
  portfolio_id = portfolio_id;
  kind = kind;
  counterparty = none;
  amount = amount;
  timestamp = timestamp;
  tx_hash = 48 ∷ [];
}

abbrev flows : List PremiumFlowRow
flows =
    flow 7 received 100 5
    ∷ flow 7 allocated 90 6
    ∷ flow 8 received 40 7
    ∷ flow 7 protocol_fee 10 6
    ∷ flow 7 protocol_fees_claimed 10 9
    ∷ []

abbrev claims : List ClaimRow
claims =
    record {
      claim_id = 1;
      portfolio_id = 7;
      vault = 48 ∷ [];
      claimant = 49 ∷ [];
      requested_amount = 120;
      claim_type = 0;
      status = ClaimStatus.paid;
      anomaly_flagged = false;
      approved_amount = some 110;
      paid_amount = some 110;
      reserved = pos 0;
      submitted_at = 1;
      updated_at = 4;
    }
    ∷ []

build_settlement_statement-IsSum_example :
    let s = build_settlement_statement 7 flows claims in
    IsSumOfFlows 7 flows no_premiums s.premiums
    × IsSumOfClaims 7 claims no_claims s.claims
    × (s.net_underwriting_result
        ≡ pos (sum_of (flow_amount allocated 7) flows)
          -ℤ pos (sum_of (claim_amount paid_of 7) claims))
build_settlement_statement-IsSum_example = build_settlement_statement-IsSum 7 flows claims

timeline_lem_example :
    let s = build_settlement_statement 7 flows claims in
    IsChronological s.timeline
    × (sum_of (λ e. 1) s.timeline
        ≡ sum_of (flow_weight (λ e. 1) 7) flows + sum_of (claim_weight (λ e. 1) 7) claims)
timeline_lem_example = timeline_lem 7 flows claims (λ e. 1)

rollup_statements-IsRollup_example :
    let r = rollup_statements (statements_of flows claims (7 ∷ 8 ∷ [])) in
    (r.premiums.gross ≡ sum_of (flow_among received (7 ∷ 8 ∷ [])) flows)
    × (r.premiums.lp_quota ≡ sum_of (flow_among allocated (7 ∷ 8 ∷ [])) flows)
    × (r.claims_paid ≡ sum_of (paid_among (7 ∷ 8 ∷ [])) claims)
    × (r.net_underwriting_result ≡ pos r.premiums.lp_quota -ℤ pos r.claims_paid)
rollup_statements-IsRollup_example =
    rollup_statements-IsRollup (7 ∷ 8 ∷ []) flows claims (refl, (refl, tt))
