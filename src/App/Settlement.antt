-- ===== src/App/Settlement.antt =====
-- app/src/lib/settlement.ts, over the rows of app/src/lib/protocol-subgraph/entities.ts: statements of a
-- portfolio and their rollup. Amounts are natural numbers, reserves and results are signed.
pub mod Statements
pub mod Timeline
pub mod Rollup
use nextblock.Base.{
  ℕ, ◌+◌, Text, List, [], ◌∷◌, ◌++◌, length, Option, none, some, Bool, true, false, eqb, leb,
  if◌then◌else◌, ◌≡◌, ◌↔◌, arith,
}
use nextblock.Base.Int.{ℤ, pos, ◌+ℤ◌, ◌-ℤ◌}
use nextblock.Base.Keys.{Key}
use nextblock.Base.Table.{Table, load, save}
use nextblock.App.Rows.{
  ClaimStatus, status_key, PremiumFlowKind, received, allocated, protocol_fee, underwriting_fee,
  protocol_fees_claimed, underwriting_fees_claimed, PremiumFlowRow, ClaimRow,
}

pub record PremiumBreakdown : Type 0 where
  pub gross : ℕ
  pub lp_quota : ℕ
  pub protocol_fees : ℕ
  pub underwriting_fees : ℕ

pub record ClaimsBreakdown : Type 0 where
  pub count : ℕ
  pub requested : ℕ
  pub approved : ℕ
  pub paid : ℕ
  pub reserved_outstanding : ℤ
  pub by_status : Table ClaimStatus ℕ

pub data EntryKind : Type 0 where
  flow_entry : PremiumFlowKind → EntryKind
  claim_entry : ClaimStatus → EntryKind

pub data Reference : Type 0 where
  tx : Text → Reference
  claim_id : ℕ → Reference

pub record SettlementEntry : Type 0 where
  pub timestamp : ℕ
  pub kind : EntryKind
  pub amount : ℕ
  pub reference : Reference

pub record Statement : Type 0 where
  pub portfolio_id : ℕ
  pub premiums : PremiumBreakdown
  pub claims : ClaimsBreakdown
  pub net_underwriting_result : ℤ
  pub timeline : List SettlementEntry

abbrev pub no_premiums : PremiumBreakdown
no_premiums = record { gross = 0; lp_quota = 0; protocol_fees = 0; underwriting_fees = 0 }

abbrev pub no_claims : ClaimsBreakdown
no_claims = record {
  count = 0;
  requested = 0;
  approved = 0;
  paid = 0;
  reserved_outstanding = pos 0;
  by_status = [];
}

-- The switch on the kind of a flow; nothing for the withdrawals of fees, which it passes over.
pub add_flow : PremiumFlowKind → ℕ → PremiumBreakdown → Option PremiumBreakdown
add_flow received amount p = some (record p { gross = p.gross + amount })
add_flow allocated amount p = some (record p { lp_quota = p.lp_quota + amount })
add_flow protocol_fee amount p = some (record p { protocol_fees = p.protocol_fees + amount })
add_flow underwriting_fee amount p =
    some (record p { underwriting_fees = p.underwriting_fees + amount })
add_flow protocol_fees_claimed amount p = none
add_flow underwriting_fees_claimed amount p = none

pub flow_item : PremiumFlowRow → SettlementEntry
flow_item f = record {
  timestamp = f.timestamp;
  kind = flow_entry f.kind;
  amount = f.amount;
  reference = tx f.tx_hash;
}

pub flow_step :
    ℕ
    → PremiumFlowRow
    → PremiumBreakdown × List SettlementEntry
    → PremiumBreakdown × List SettlementEntry
flow_step id f (p, timeline) =
    if eqb f.portfolio_id id
    then elim (add_flow f.kind f.amount p) [
      | none ↦ (p, timeline)
      | some q ↦ (q, timeline ++ (flow_item f ∷ []))
    ]
    else (p, timeline)

pub flow_loop :
    ℕ
    → List PremiumFlowRow
    → PremiumBreakdown × List SettlementEntry
    → PremiumBreakdown × List SettlementEntry
flow_loop id [] acc = acc
flow_loop id (f ∷ flows) acc = flow_loop id flows (flow_step id f acc)

abbrev pub or_zero : Option ℕ → ℕ
or_zero none = 0
or_zero (some n) = n

-- `a ?? b`
abbrev pub or_else : Option ℕ → ℕ → ℕ
or_else none b = b
or_else (some a) b = a

pub claim_item : ClaimRow → SettlementEntry
claim_item c = record {
  timestamp = c.updated_at;
  kind = claim_entry c.status;
  amount = or_else c.paid_amount (or_else c.approved_amount c.requested_amount);
  reference = claim_id c.claim_id;
}

pub add_claim : ClaimRow → ClaimsBreakdown → ClaimsBreakdown
add_claim c b = record {
  count = b.count + 1;
  requested = b.requested + c.requested_amount;
  approved = b.approved + or_zero c.approved_amount;
  paid = b.paid + or_zero c.paid_amount;
  reserved_outstanding = b.reserved_outstanding +ℤ c.reserved;
  by_status = save c.status (or_zero (load c.status b.by_status) + 1) b.by_status;
}

pub claim_step :
    ℕ → ClaimRow → ClaimsBreakdown × List SettlementEntry → ClaimsBreakdown × List SettlementEntry
claim_step id c (b, timeline) =
    if eqb c.portfolio_id id
    then (add_claim c b, timeline ++ (claim_item c ∷ []))
    else (b, timeline)

pub claim_loop :
    ℕ
    → List ClaimRow
    → ClaimsBreakdown × List SettlementEntry
    → ClaimsBreakdown × List SettlementEntry
claim_loop id [] acc = acc
claim_loop id (c ∷ claims) acc = claim_loop id claims (claim_step id c acc)

-- `sort` by timestamp, which keeps the order of entries of one time.
pub insert_entry : SettlementEntry → List SettlementEntry → List SettlementEntry
insert_entry e [] = e ∷ []
insert_entry e (d ∷ entries) =
    let rest = insert_entry e entries in
    if leb e.timestamp d.timestamp then e ∷ d ∷ entries else d ∷ rest

pub sort_entries : List SettlementEntry → List SettlementEntry
sort_entries [] = []
sort_entries (e ∷ entries) = insert_entry e (sort_entries entries)

pub build_settlement_statement : ℕ → List PremiumFlowRow → List ClaimRow → Statement
build_settlement_statement portfolio_id flows claims =
    let flowed = flow_loop portfolio_id flows (no_premiums, []) in
    let claimed = claim_loop portfolio_id claims (no_claims, flowed.1) in
    record {
      portfolio_id = portfolio_id;
      premiums = flowed.0;
      claims = claimed.0;
      net_underwriting_result = pos flowed.0.lp_quota -ℤ pos claimed.0.paid;
      timeline = sort_entries claimed.1;
    }

pub premiums_reconcile : PremiumBreakdown → Bool
premiums_reconcile p = eqb p.gross (p.lp_quota + p.protocol_fees + p.underwriting_fees)

pub record VaultRollup : Type 0 where
  pub portfolio_count : ℕ
  pub premiums : PremiumBreakdown
  pub claims_paid : ℕ
  pub reserved_outstanding : ℤ
  pub net_underwriting_result : ℤ

pub rollup_step : Statement → VaultRollup → VaultRollup
rollup_step s r = record r {
  premiums = record {
    gross = r.premiums.gross + s.premiums.gross;
    lp_quota = r.premiums.lp_quota + s.premiums.lp_quota;
    protocol_fees = r.premiums.protocol_fees + s.premiums.protocol_fees;
    underwriting_fees = r.premiums.underwriting_fees + s.premiums.underwriting_fees;
  };
  claims_paid = r.claims_paid + s.claims.paid;
  reserved_outstanding = r.reserved_outstanding +ℤ s.claims.reserved_outstanding;
  net_underwriting_result = r.net_underwriting_result +ℤ s.net_underwriting_result;
}

pub rollup_loop : List Statement → VaultRollup → VaultRollup
rollup_loop [] r = r
rollup_loop (s ∷ statements) r = rollup_loop statements (rollup_step s r)

abbrev pub no_rollup : List Statement → VaultRollup
no_rollup statements = record {
  portfolio_count = length statements;
  premiums = no_premiums;
  claims_paid = 0;
  reserved_outstanding = pos 0;
  net_underwriting_result = pos 0;
}

pub rollup_statements : List Statement → VaultRollup
rollup_statements statements = rollup_loop statements (no_rollup statements)
