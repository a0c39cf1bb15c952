-- ===== src/Indexer/Premiums.antt =====
-- indexer/src/premium-distributor.ts: every premium movement as an immutable PremiumFlow row.
pub mod Rows
use nextblock.Base.{List, [], ◌∷◌, ℕ, ◌+◌, String, Option, none, some}
use nextblock.Base.Keys.{number_key}
use nextblock.Base.Table.{Table, load, save, amend}
use nextblock.Indexer.Entities.{Portfolio}
use nextblock.Indexer.Log.{Meta, RowId, row_key, event_id, LogParams, no_params, Feed, log_event}

pub data FlowKind : Type 0 where
  received allocated protocol_fee underwriting_fee protocol_fees_claimed : FlowKind
  underwriting_fees_claimed : FlowKind

pub record PremiumFlow : Type 0 where
  pub portfolio_id : ℕ
  pub kind : FlowKind
  pub counterparty : Option ℕ
  pub amount : ℕ
  pub timestamp : ℕ
  pub block_number : ℕ
  pub tx_hash : ℕ

-- The tables that the file imports.
pub record Store : Type 0 where
  pub flows : Table RowId PremiumFlow
  pub portfolios : Table ℕ Portfolio
  pub feed : Feed

abbrev pub flow_row : Meta → ℕ → FlowKind → Option ℕ → ℕ → PremiumFlow
flow_row m portfolio kind counterparty amount = record {
  portfolio_id = portfolio;
  kind = kind;
  counterparty = counterparty;
  amount = amount;
  timestamp = m.timestamp;
  block_number = m.block_number;
  tx_hash = m.tx_hash;
}

unfoldable pub flow :
    Meta → ℕ → FlowKind → Option ℕ → ℕ → Table RowId PremiumFlow → Table RowId PremiumFlow
flow m portfolio kind counterparty amount flows =
    save (event_id m) (flow_row m portfolio kind counterparty amount) flows

log_premium : Meta → String → LogParams → Feed → Feed
log_premium m name p feed = log_event m "PremiumDistributor" name p feed

-- `const pf = Portfolio.load(id); if (pf != null) { …; pf.save(); }`
pub update : ℕ → (Portfolio → Portfolio) → Table ℕ Portfolio → Table ℕ Portfolio
update id f t = amend id (load id t) f t

abbrev pub add_gross : Meta → ℕ → Portfolio → Portfolio
add_gross m gross_amount pf = record pf {
  premiums_received_gross = pf.premiums_received_gross + gross_amount;
  updated_at = m.timestamp;
}

abbrev pub set_vault : Meta → ℕ → Portfolio → Portfolio
set_vault m vault pf = record pf { vault = some vault; updated_at = m.timestamp }

pub handle_premium_received : Meta → (portfolio from gross_amount : ℕ) → Store → Store
unfolding flow log_premium
handle_premium_received m portfolio from gross_amount s = record s {
  flows = flow m portfolio received (some from) gross_amount s.flows;
  portfolios = update portfolio (add_gross m gross_amount) s.portfolios;
  feed =
      log_premium m "PremiumReceived"
        (record no_params {
          portfolio_id = some portfolio;
          actor = some from;
          amount = some gross_amount;
        })
        s.feed;
}

pub handle_premium_allocated : Meta → (portfolio vault lp_quota : ℕ) → Store → Store
unfolding flow log_premium
handle_premium_allocated m portfolio vault lp_quota s = record s {
  flows = flow m portfolio allocated (some vault) lp_quota s.flows;
  feed =
      log_premium m "PremiumAllocated"
        (record no_params {
          portfolio_id = some portfolio;
          vault = some vault;
          amount = some lp_quota;
        })
        s.feed;
}

pub handle_protocol_fee_accrued : Meta → (portfolio amount : ℕ) → Store → Store
unfolding flow log_premium
handle_protocol_fee_accrued m portfolio amount s = record s {
  flows = flow m portfolio protocol_fee none amount s.flows;
  feed =
      log_premium m "ProtocolFeeAccrued"
        (record no_params { portfolio_id = some portfolio; amount = some amount }) s.feed;
}

pub handle_underwriting_fee_accrued : Meta → (portfolio amount : ℕ) → Store → Store
unfolding flow log_premium
handle_underwriting_fee_accrued m portfolio amount s = record s {
  flows = flow m portfolio underwriting_fee none amount s.flows;
  feed =
      log_premium m "UnderwritingFeeAccrued"
        (record no_params { portfolio_id = some portfolio; amount = some amount }) s.feed;
}

pub handle_protocol_fees_claimed : Meta → (recipient amount : ℕ) → Store → Store
unfolding flow log_premium
handle_protocol_fees_claimed m recipient amount s = record s {
  flows = flow m 0 protocol_fees_claimed (some recipient) amount s.flows;
  feed =
      log_premium m "ProtocolFeesClaimed"
        (record no_params { actor = some recipient; amount = some amount }) s.feed;
}

pub handle_underwriting_fees_claimed : Meta → (recipient amount : ℕ) → Store → Store
unfolding flow log_premium
handle_underwriting_fees_claimed m recipient amount s = record s {
  flows = flow m 0 underwriting_fees_claimed (some recipient) amount s.flows;
  feed =
      log_premium m "UnderwritingFeesClaimed"
        (record no_params { actor = some recipient; amount = some amount }) s.feed;
}

pub handle_portfolio_vault_set : Meta → (portfolio vault : ℕ) → Store → Store
unfolding log_premium
handle_portfolio_vault_set m portfolio vault s = record s {
  portfolios = update portfolio (set_vault m vault) s.portfolios;
  feed =
      log_premium m "PortfolioVaultSet"
        (record no_params { portfolio_id = some portfolio; vault = some vault }) s.feed;
}

pub data Event : Type 0 where
  premium_received : (portfolio from gross_amount : ℕ) → Event
  premium_allocated : (portfolio vault lp_quota : ℕ) → Event
  protocol_fee_accrued underwriting_fee_accrued : (portfolio amount : ℕ) → Event
  protocol_fees_claimed underwriting_fees_claimed : (recipient amount : ℕ) → Event
  portfolio_vault_set : (portfolio vault : ℕ) → Event

unfoldable pub handle : Meta → Event → Store → Store
unfolding handle_premium_received handle_premium_allocated handle_protocol_fee_accrued
    handle_underwriting_fee_accrued handle_protocol_fees_claimed handle_underwriting_fees_claimed
    handle_portfolio_vault_set
handle m (premium_received portfolio from gross) s =
    handle_premium_received m portfolio from gross s
handle m (premium_allocated portfolio vault lp_quota) s =
    handle_premium_allocated m portfolio vault lp_quota s
handle m (protocol_fee_accrued portfolio amount) s =
    handle_protocol_fee_accrued m portfolio amount s
handle m (underwriting_fee_accrued portfolio amount) s =
    handle_underwriting_fee_accrued m portfolio amount s
handle m (protocol_fees_claimed recipient amount) s =
    handle_protocol_fees_claimed m recipient amount s
handle m (underwriting_fees_claimed recipient amount) s =
    handle_underwriting_fees_claimed m recipient amount s
handle m (portfolio_vault_set portfolio vault) s = handle_portfolio_vault_set m portfolio vault s

unfoldable pub run : List (Meta × Event) → Store → Store
run [] s = s
run ((m, e) ∷ events) s = run events (handle m e s)
