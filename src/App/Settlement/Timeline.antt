-- ===== src/App/Settlement/Timeline.antt =====
-- The timeline of a statement of app/src/lib/settlement.ts.
use nextblock.Base.{
  ℕ, ◌+◌, ◌≤◌, List, [], ◌∷◌, ◌&&◌, Bool, true, false, eqb, if◌then◌else◌, sum_of, sum_of-append,
  All, ◌≡◌, arith, refl,
}
use nextblock.App.Rows.{
  PremiumFlowKind, protocol_fees_claimed, underwriting_fees_claimed, PremiumFlowRow, ClaimRow,
}
use nextblock.App.Settlement.{
  PremiumBreakdown, ClaimsBreakdown, SettlementEntry, no_premiums, no_claims, add_flow, flow_step,
  flow_loop, flow_item, claim_step, claim_loop, claim_item, insert_entry, sort_entries,
  build_settlement_statement,
}

-- No entry is later than one that follows it.
abbrev pub IsChronological : List SettlementEntry → Type 0
IsChronological [] = Unit
IsChronological (e ∷ entries) =
    All (λ d. e.timestamp ≤ d.timestamp) entries × IsChronological entries

insert_entry-All :
    (t : ℕ) (e : SettlementEntry) (entries : List SettlementEntry)
    → t ≤ e.timestamp
    → All (λ d. t ≤ d.timestamp) entries
    → All (λ d. t ≤ d.timestamp) (insert_entry e entries)
unfolding insert_entry
insert_entry-All t e [] h hs = (h, tt)
insert_entry-All t e (d ∷ entries) h (g, hs) = ground (arith, insert_entry-All t e entries h hs)

All-later :
    (t u : ℕ) (entries : List SettlementEntry)
    → t ≤ u
    → All (λ d. u ≤ d.timestamp) entries
    → All (λ d. t ≤ d.timestamp) entries
All-later t u [] h hs = tt
All-later t u (d ∷ entries) h (g, hs) = (omega arith, All-later t u entries h hs)

insert_entry-IsChronological :
    (e : SettlementEntry) (entries : List SettlementEntry)
    → IsChronological entries
    → IsChronological (insert_entry e entries)
unfolding insert_entry
insert_entry-IsChronological e [] h = (tt, tt)
insert_entry-IsChronological e (d ∷ entries) (h, hs) = ground (
  arith,
  insert_entry-IsChronological e entries hs,
  insert_entry-All d.timestamp e entries,
  All-later e.timestamp d.timestamp entries,
)

sort_entries-IsChronological :
    (entries : List SettlementEntry) → IsChronological (sort_entries entries)
unfolding sort_entries
sort_entries-IsChronological [] = tt
sort_entries-IsChronological (e ∷ entries) =
    insert_entry-IsChronological e (sort_entries entries) (sort_entries-IsChronological entries)

module _ (f : SettlementEntry → ℕ) where
  sum_of-insert_entry :
      (e : SettlementEntry) (entries : List SettlementEntry)
      → sum_of f (insert_entry e entries) ≡ f e + sum_of f entries
  unfolding insert_entry
  sum_of-insert_entry e [] = omega arith
  sum_of-insert_entry e (d ∷ entries) = ground (arith, sum_of-insert_entry e entries)

  sum_of-sort_entries :
      (entries : List SettlementEntry) → sum_of f (sort_entries entries) ≡ sum_of f entries
  unfolding sort_entries
  sum_of-sort_entries [] = refl
  sum_of-sort_entries (e ∷ entries) =
      omega (arith, sum_of-insert_entry e (sort_entries entries), sum_of-sort_entries entries)

-- The flows that the switch passes over have no entry.
abbrev pub has_entry : PremiumFlowKind → Bool
has_entry protocol_fees_claimed = false
has_entry underwriting_fees_claimed = false
has_entry _ = true

-- What the entries of a portfolio's rows weigh.
abbrev pub flow_weight : (SettlementEntry → ℕ) → ℕ → PremiumFlowRow → ℕ
flow_weight f id r = if eqb r.portfolio_id id && has_entry r.kind then f (flow_item r) else 0

abbrev pub claim_weight : (SettlementEntry → ℕ) → ℕ → ClaimRow → ℕ
claim_weight f id c = if eqb c.portfolio_id id then f (claim_item c) else 0

module _ (f : SettlementEntry → ℕ) (id : ℕ) where
  flow_step-weight :
      (r : PremiumFlowRow) (p : PremiumBreakdown) (timeline : List SettlementEntry)
      → sum_of f (flow_step id r (p, timeline)).1 ≡ sum_of f timeline + flow_weight f id r
  unfolding flow_step add_flow
  flow_step-weight r p timeline = ground (arith, sum_of-append f timeline (flow_item r ∷ []))

  flow_loop-weight :
      (flows : List PremiumFlowRow) (acc : PremiumBreakdown × List SettlementEntry)
      → sum_of f (flow_loop id flows acc).1 ≡ sum_of f acc.1 + sum_of (flow_weight f id) flows
  unfolding flow_loop
  flow_loop-weight [] acc = omega arith
  flow_loop-weight (r ∷ flows) acc =
      omega (arith, flow_loop-weight flows (flow_step id r acc), flow_step-weight r acc.0 acc.1)

  claim_step-weight :
      (c : ClaimRow) (b : ClaimsBreakdown) (timeline : List SettlementEntry)
      → sum_of f (claim_step id c (b, timeline)).1 ≡ sum_of f timeline + claim_weight f id c
  unfolding claim_step
  claim_step-weight c b timeline = ground (arith, sum_of-append f timeline (claim_item c ∷ []))

  claim_loop-weight :
      (claims : List ClaimRow) (acc : ClaimsBreakdown × List SettlementEntry)
      → sum_of f (claim_loop id claims acc).1 ≡ sum_of f acc.1 + sum_of (claim_weight f id) claims
  unfolding claim_loop
  claim_loop-weight [] acc = omega arith
  claim_loop-weight (c ∷ claims) acc =
      omega (arith, claim_loop-weight claims (claim_step id c acc), claim_step-weight c acc.0 acc.1)

-- The timeline of a statement is in the order of time, and by any count f of entries it holds exactly
-- the entries of the claims of the portfolio and of its flows but withdrawals of fees.
pub timeline_lem :
    (id : ℕ) (flows : List PremiumFlowRow) (claims : List ClaimRow) (f : SettlementEntry → ℕ)
    → let s = build_settlement_statement id flows claims in
      IsChronological s.timeline
      × (sum_of f s.timeline ≡ sum_of (flow_weight f id) flows + sum_of (claim_weight f id) claims)
unfolding build_settlement_statement
timeline_lem id flows claims f =
    let flowed = flow_loop id flows (no_premiums, []) in
    let claimed = claim_loop id claims (no_claims, flowed.1) in
    (
      sort_entries-IsChronological claimed.1,
      omega (
        arith,
        sum_of-sort_entries f claimed.1,
        claim_loop-weight f id claims (no_claims, flowed.1),
        flow_loop-weight f id flows (no_premiums, []),
      ),
    )
