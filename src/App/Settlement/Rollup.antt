-- ===== src/App/Settlement/Rollup.antt =====
-- The rollup of statements in app/src/lib/settlement.ts.
use nextblock.Base.{
  ℕ, ◌+◌, List, [], ◌∷◌, map, Bool, false, ◌&&◌, ◌||◌, eqb, if◌then◌else◌, sum_of, ◌≡◌, arith, refl,
}
use nextblock.Base.Int.{pos, ◌+ℤ◌, ◌-ℤ◌, int_laws}
use nextblock.App.Rows.{PremiumFlowKind, received, allocated, PremiumFlowRow, ClaimRow}
use nextblock.App.Settlement.{
  Statement, VaultRollup, build_settlement_statement, rollup_step, rollup_loop, no_rollup,
  rollup_statements,
}
use nextblock.App.Settlement.Statements.{
  flow_amount, claim_amount, paid_of, same_kind, build_settlement_statement-IsSum,
}

abbrev pub statements_of : List PremiumFlowRow → List ClaimRow → List ℕ → List Statement
statements_of flows claims ids = map (λ id. build_settlement_statement id flows claims) ids

abbrev pub is_among : List ℕ → ℕ → Bool
is_among [] id = false
is_among (i ∷ ids) id = eqb id i || is_among ids id

abbrev pub HasDistinctPortfolios : List ℕ → Type 0
HasDistinctPortfolios [] = Unit
HasDistinctPortfolios (i ∷ ids) = (is_among ids i ≡ false) × HasDistinctPortfolios ids

-- The figures of the rows of any of the portfolios.
abbrev pub flow_among : PremiumFlowKind → List ℕ → PremiumFlowRow → ℕ
flow_among kind ids f = if is_among ids f.portfolio_id && same_kind kind f.kind then f.amount else 0

abbrev pub paid_among : List ℕ → ClaimRow → ℕ
paid_among ids c = if is_among ids c.portfolio_id then paid_of c else 0

flow_among-cons :
    (kind : PremiumFlowKind) (i : ℕ) (ids : List ℕ) (flows : List PremiumFlowRow)
    → is_among ids i ≡ false
    → sum_of (flow_among kind (i ∷ ids)) flows
      ≡ sum_of (flow_amount kind i) flows + sum_of (flow_among kind ids) flows
flow_among-cons kind i ids [] h = omega arith
flow_among-cons kind i ids (f ∷ flows) h = ground (arith, flow_among-cons kind i ids flows h)

paid_among-cons :
    (i : ℕ) (ids : List ℕ) (claims : List ClaimRow)
    → is_among ids i ≡ false
    → sum_of (paid_among (i ∷ ids)) claims
      ≡ sum_of (claim_amount paid_of i) claims + sum_of (paid_among ids) claims
paid_among-cons i ids [] h = omega arith
paid_among-cons i ids (c ∷ claims) h = ground (arith, paid_among-cons i ids claims h)

among-empty :
    (flows : List PremiumFlowRow) (kind : PremiumFlowKind) → sum_of (flow_among kind []) flows ≡ 0
among-empty [] kind = refl
among-empty (f ∷ flows) kind = ground (arith, among-empty flows kind)

paid_among-empty : (claims : List ClaimRow) → sum_of (paid_among []) claims ≡ 0
paid_among-empty [] = refl
paid_among-empty (c ∷ claims) = ground (arith, paid_among-empty claims)

abbrev IsRollupOf :
    List ℕ → List PremiumFlowRow → List ClaimRow → VaultRollup → VaultRollup → Type 0
IsRollupOf ids flows claims r t =
    (t.premiums.gross ≡ r.premiums.gross + sum_of (flow_among received ids) flows)
    × (t.premiums.lp_quota ≡ r.premiums.lp_quota + sum_of (flow_among allocated ids) flows)
    × (t.claims_paid ≡ r.claims_paid + sum_of (paid_among ids) claims)

rollup_loop-IsRollup :
    (ids : List ℕ) (flows : List PremiumFlowRow) (claims : List ClaimRow) (r : VaultRollup)
    → HasDistinctPortfolios ids
    → IsRollupOf ids flows claims r (rollup_loop (statements_of flows claims ids) r)
unfolding rollup_loop rollup_step
rollup_loop-IsRollup [] flows claims r h = (
  omega (arith, among-empty flows received),
  omega (arith, among-empty flows allocated),
  omega (arith, paid_among-empty claims),
)
rollup_loop-IsRollup (i ∷ ids) flows claims r (h, hs) =
    let s = build_settlement_statement i flows claims in
    let sums = build_settlement_statement-IsSum i flows claims in
    let rest = rollup_loop-IsRollup ids flows claims (rollup_step s r) hs in
    (
      omega (arith, rest.0, sums.0.0, flow_among-cons received i ids flows h),
      omega (arith, rest.1, sums.0.1, flow_among-cons allocated i ids flows h),
      omega (arith, rest.2, sums.1.3, paid_among-cons i ids claims h),
    )

-- A rollup whose result is the quota of the LPs less what is paid.
abbrev IsNet : VaultRollup → Type 0
IsNet r = r.net_underwriting_result ≡ pos r.premiums.lp_quota -ℤ pos r.claims_paid

build_settlement_statement-IsNet :
    (id : ℕ) (flows : List PremiumFlowRow) (claims : List ClaimRow)
    → let s = build_settlement_statement id flows claims in
      s.net_underwriting_result ≡ pos s.premiums.lp_quota -ℤ pos s.claims.paid
unfolding build_settlement_statement
build_settlement_statement-IsNet id flows claims = refl

net_add : (a b c d : ℕ) → (pos a -ℤ pos b) +ℤ (pos c -ℤ pos d) ≡ pos (a + c) -ℤ pos (b + d)
net_add a b c d = omega int_laws

rollup_step-IsNet :
    (id : ℕ) (flows : List PremiumFlowRow) (claims : List ClaimRow) (r : VaultRollup)
    → IsNet r
    → IsNet (rollup_step (build_settlement_statement id flows claims) r)
unfolding rollup_step
rollup_step-IsNet id flows claims r h =
    let s = build_settlement_statement id flows claims in
    rw (h, build_settlement_statement-IsNet id flows claims)
      (net_add r.premiums.lp_quota r.claims_paid s.premiums.lp_quota s.claims.paid)

rollup_loop-IsNet :
    (ids : List ℕ) (flows : List PremiumFlowRow) (claims : List ClaimRow) (r : VaultRollup)
    → IsNet r
    → IsNet (rollup_loop (statements_of flows claims ids) r)
unfolding rollup_loop
rollup_loop-IsNet [] flows claims r h = h
rollup_loop-IsNet (i ∷ ids) flows claims r h =
    rollup_loop-IsNet ids flows claims (rollup_step (build_settlement_statement i flows claims) r)
      (rollup_step-IsNet i flows claims r h)

-- The rollup of the statements of distinct portfolios has, as gross premium and quota of the LPs, the
-- flows received by and allocated to any of the portfolios, as claims paid those of their claims, and
-- as result the quota less what is paid.
pub rollup_statements-IsRollup :
    (ids : List ℕ) (flows : List PremiumFlowRow) (claims : List ClaimRow)
    → HasDistinctPortfolios ids
    → let r = rollup_statements (statements_of flows claims ids) in
      (r.premiums.gross ≡ sum_of (flow_among received ids) flows)
      × (r.premiums.lp_quota ≡ sum_of (flow_among allocated ids) flows)
      × (r.claims_paid ≡ sum_of (paid_among ids) claims)
      × (r.net_underwriting_result ≡ pos r.premiums.lp_quota -ℤ pos r.claims_paid)
unfolding rollup_statements
rollup_statements-IsRollup ids flows claims h =
    let start = no_rollup (statements_of flows claims ids) in
    let sums = rollup_loop-IsRollup ids flows claims start h in
    (
      omega (arith, sums.0),
      omega (arith, sums.1),
      omega (arith, sums.2),
      rollup_loop-IsNet ids flows claims start (omega int_laws),
    )
