-- ===== src/App/Settlement/Statements.antt =====
-- The figures of a statement of app/src/lib/settlement.ts against sums over the rows.
use nextblock.Base.{
  ℕ, ◌+◌, List, [], ◌∷◌, Bool, true, false, ◌&&◌, eqb, if◌then◌else◌, sum_of, ◌≡◌, ◌↔◌, arith,
}
use nextblock.Base.Int.{pos, ◌-ℤ◌}
use nextblock.App.Rows.{
  PremiumFlowKind, received, allocated, protocol_fee, underwriting_fee, PremiumFlowRow, ClaimRow,
}
use nextblock.App.Settlement.{
  PremiumBreakdown, ClaimsBreakdown, SettlementEntry, no_premiums, no_claims, add_flow, flow_step,
  flow_loop, add_claim, claim_step, claim_loop, or_zero, build_settlement_statement,
  premiums_reconcile,
}

abbrev pub same_kind : PremiumFlowKind → PremiumFlowKind → Bool
same_kind received received = true
same_kind allocated allocated = true
same_kind protocol_fee protocol_fee = true
same_kind underwriting_fee underwriting_fee = true
same_kind _ _ = false

-- What a flow adds to a figure of a portfolio, for the four kinds that have one.
abbrev pub flow_amount : PremiumFlowKind → ℕ → PremiumFlowRow → ℕ
flow_amount kind id f = if eqb f.portfolio_id id && same_kind kind f.kind then f.amount else 0

-- What a claim adds.
abbrev pub claim_amount : (ClaimRow → ℕ) → ℕ → ClaimRow → ℕ
claim_amount figure id c = if eqb c.portfolio_id id then figure c else 0

abbrev pub paid_of : ClaimRow → ℕ
paid_of c = or_zero c.paid_amount

-- The premiums are those of the flows of the portfolio, on top of p.
abbrev pub IsSumOfFlows : ℕ → List PremiumFlowRow → PremiumBreakdown → PremiumBreakdown → Type 0
IsSumOfFlows id flows p q =
    (q.gross ≡ p.gross + sum_of (flow_amount received id) flows)
    × (q.lp_quota ≡ p.lp_quota + sum_of (flow_amount allocated id) flows)
    × (q.protocol_fees ≡ p.protocol_fees + sum_of (flow_amount protocol_fee id) flows)
    × (q.underwriting_fees ≡ p.underwriting_fees + sum_of (flow_amount underwriting_fee id) flows)

flow_step-IsSum :
    (id : ℕ) (f : PremiumFlowRow) (p : PremiumBreakdown) (timeline : List SettlementEntry)
    → IsSumOfFlows id (f ∷ []) p (flow_step id f (p, timeline)).0
unfolding flow_step add_flow
flow_step-IsSum id f p timeline = ground arith

flow_loop-IsSum :
    (id : ℕ) (flows : List PremiumFlowRow) (acc : PremiumBreakdown × List SettlementEntry)
    → IsSumOfFlows id flows acc.0 (flow_loop id flows acc).0
unfolding flow_loop
flow_loop-IsSum id [] acc = (omega arith, omega arith, omega arith, omega arith)
flow_loop-IsSum id (f ∷ flows) acc =
    let rest = flow_loop-IsSum id flows (flow_step id f acc) in
    let first = flow_step-IsSum id f acc.0 acc.1 in
    (
      omega (arith, rest.0, first.0),
      omega (arith, rest.1, first.1),
      omega (arith, rest.2, first.2),
      omega (arith, rest.3, first.3),
    )

abbrev pub IsSumOfClaims : ℕ → List ClaimRow → ClaimsBreakdown → ClaimsBreakdown → Type 0
IsSumOfClaims id claims b d =
    (d.count ≡ b.count + sum_of (claim_amount (λ c. 1) id) claims)
    × (d.requested ≡ b.requested + sum_of (claim_amount (λ c. c.requested_amount) id) claims)
    × (d.approved ≡ b.approved + sum_of (claim_amount (λ c. or_zero c.approved_amount) id) claims)
    × (d.paid ≡ b.paid + sum_of (claim_amount paid_of id) claims)

claim_step-IsSum :
    (id : ℕ) (c : ClaimRow) (b : ClaimsBreakdown) (timeline : List SettlementEntry)
    → IsSumOfClaims id (c ∷ []) b (claim_step id c (b, timeline)).0
unfolding claim_step add_claim
claim_step-IsSum id c b timeline = ground arith

claim_loop-IsSum :
    (id : ℕ) (claims : List ClaimRow) (acc : ClaimsBreakdown × List SettlementEntry)
    → IsSumOfClaims id claims acc.0 (claim_loop id claims acc).0
unfolding claim_loop
claim_loop-IsSum id [] acc = (omega arith, omega arith, omega arith, omega arith)
claim_loop-IsSum id (c ∷ claims) acc =
    let rest = claim_loop-IsSum id claims (claim_step id c acc) in
    let first = claim_step-IsSum id c acc.0 acc.1 in
    (
      omega (arith, rest.0, first.0),
      omega (arith, rest.1, first.1),
      omega (arith, rest.2, first.2),
      omega (arith, rest.3, first.3),
    )

-- The figures of a statement are those of the rows of its portfolio: the premiums by kind, the claims
-- requested, approved and paid with their number, and as the result the quota of the LPs less what is
-- paid.
pub build_settlement_statement-IsSum :
    (id : ℕ) (flows : List PremiumFlowRow) (claims : List ClaimRow)
    → let s = build_settlement_statement id flows claims in
      IsSumOfFlows id flows no_premiums s.premiums
      × IsSumOfClaims id claims no_claims s.claims
      × (s.net_underwriting_result
          ≡ pos (sum_of (flow_amount allocated id) flows)
            -ℤ pos (sum_of (claim_amount paid_of id) claims))
unfolding build_settlement_statement
build_settlement_statement-IsSum id flows claims =
    let flowed = flow_loop-IsSum id flows (no_premiums, []) in
    let claimed =
      claim_loop-IsSum id claims (no_claims, (flow_loop id flows (no_premiums, [])).1) in
    (flowed, claimed, ground (arith, flowed.1, claimed.3))

-- The check passes exactly when the flows received by the portfolio are worth those allocated and
-- taken as fees: nothing else makes the two sides agree.
premiums_reconcile_iff :
    (id : ℕ) (flows : List PremiumFlowRow) (claims : List ClaimRow)
    → (premiums_reconcile (build_settlement_statement id flows claims).premiums ≡ true) ↔ (
        sum_of (flow_amount received id) flows
        ≡ sum_of (flow_amount allocated id) flows
          + sum_of (flow_amount protocol_fee id) flows
          + sum_of (flow_amount underwriting_fee id) flows)
unfolding premiums_reconcile
premiums_reconcile_iff id flows claims =
    let sums = (build_settlement_statement-IsSum id flows claims).0 in
    ground (arith, sums.0, sums.1, sums.2, sums.3)
