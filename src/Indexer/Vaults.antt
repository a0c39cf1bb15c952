-- ===== src/Indexer/Vaults.antt =====
-- indexer/src/insurance-vault.ts: LP flows, portfolio allocations, premium recording, claim reserves
-- and payouts of one vault. The emitting vault is `m.address`.
pub mod Rows
pub mod Reserves
use nextblock.Base.{ℕ, ◌+◌, String, Option, none, some, List, [], ◌∷◌}
use nextblock.Base.Int.{ℤ, pos, ◌+ℤ◌, ◌-ℤ◌}
use nextblock.Base.Keys.{number_key}
use nextblock.Base.Table.{Table, load, save, amend}
use nextblock.Indexer.Entities.{VaultDeposit, VaultWithdrawal, Vault, Portfolio, Claim}
use nextblock.Indexer.Log.{
  Meta, RowId, row_key, event_id, LogParams, no_params, Feed, log_event, incr_i32,
}

-- The tables that the file imports.
pub record Store : Type 0 where
  pub vaults : Table ℕ Vault
  pub deposits : Table RowId VaultDeposit
  pub withdrawals : Table RowId VaultWithdrawal
  pub portfolios : Table ℕ Portfolio
  pub claims : Table ℕ Claim
  pub feed : Feed

-- The row of a vault that was never announced by the factory.
abbrev pub unknown_vault : Meta → Vault
unknown_vault m = record {
  name = "";
  symbol = "";
  display_name = "";
  manager = m.address;
  buffer_ratio_bps = 0;
  management_fee_bps = 0;
  created_at = m.timestamp;
  created_at_block = m.block_number;
  deposit_count = 0;
  withdraw_count = 0;
  total_deposited = 0;
  total_withdrawn = 0;
  premiums_recorded = 0;
  claims_reserved = pos 0;
  claims_paid = 0;
  fees_collected = 0;
}

abbrev pub vault_of : Meta → Option Vault → Vault
vault_of m none = unknown_vault m
vault_of m (some v) = v

-- `const v = vaultOf(event.address, event.block); …; v.save();`
pub update_vault : Meta → (Vault → Vault) → Table ℕ Vault → Table ℕ Vault
update_vault m f t = save m.address (f (vault_of m (load m.address t))) t

-- `const c = Claim.load(id); if (c != null) { c.reserved = …; c.updatedAt = …; c.save(); }`
unfoldable pub update_reserved : ℕ → ℕ → (ℤ → ℤ) → Table ℕ Claim → Table ℕ Claim
update_reserved id ts f t =
    amend id (load id t) (λ c. record c { reserved = f c.reserved; updated_at = ts }) t

pub adjust_portfolio_allocation : ℕ → (ℤ → ℤ) → ℕ → Table ℕ Portfolio → Table ℕ Portfolio
adjust_portfolio_allocation id f ts t =
    amend id (load id t) (λ pf. record pf { allocated = f pf.allocated; updated_at = ts }) t

log_vault : Meta → String → LogParams → Feed → Feed
log_vault m name p feed =
    log_event m "InsuranceVault" name (record p { vault = some m.address }) feed

abbrev pub count_deposit : ℕ → Vault → Vault
count_deposit assets v = record v {
  deposit_count = incr_i32 v.deposit_count;
  total_deposited = v.total_deposited + assets;
}

abbrev pub count_withdrawal : ℕ → Vault → Vault
count_withdrawal assets v = record v {
  withdraw_count = incr_i32 v.withdraw_count;
  total_withdrawn = v.total_withdrawn + assets;
}

abbrev pub deposit_row : Meta → (sender owner assets shares : ℕ) → VaultDeposit
deposit_row m sender owner assets shares = record {
  vault = m.address;
  sender = sender;
  owner = owner;
  assets = assets;
  shares = shares;
  timestamp = m.timestamp;
  block_number = m.block_number;
  tx_hash = m.tx_hash;
}

pub handle_deposit : Meta → (sender owner assets shares : ℕ) → Store → Store
unfolding log_vault
handle_deposit m sender owner assets shares s = record s {
  vaults = update_vault m (count_deposit assets) s.vaults;
  deposits = save (event_id m) (deposit_row m sender owner assets shares) s.deposits;
  feed =
      log_vault m "Deposit" (record no_params { actor = some owner; amount = some assets }) s.feed;
}

abbrev pub withdrawal_row : Meta → (sender receiver owner assets shares : ℕ) → VaultWithdrawal
withdrawal_row m sender receiver owner assets shares = record {
  vault = m.address;
  sender = sender;
  receiver = receiver;
  owner = owner;
  assets = assets;
  shares = shares;
  timestamp = m.timestamp;
  block_number = m.block_number;
  tx_hash = m.tx_hash;
}

pub handle_withdraw : Meta → (sender receiver owner assets shares : ℕ) → Store → Store
unfolding log_vault
handle_withdraw m sender receiver owner assets shares s = record s {
  vaults = update_vault m (count_withdrawal assets) s.vaults;
  withdrawals =
      save (event_id m) (withdrawal_row m sender receiver owner assets shares) s.withdrawals;
  feed =
      log_vault m "Withdraw" (record no_params { actor = some owner; amount = some assets }) s.feed;
}

abbrev of_portfolio : (portfolio amount : ℕ) → LogParams
of_portfolio portfolio amount = record no_params {
  portfolio_id = some portfolio;
  amount = some amount;
}

pub handle_portfolio_allocated : Meta → (portfolio amount : ℕ) → Store → Store
unfolding log_vault
handle_portfolio_allocated m portfolio amount s = record s {
  portfolios =
      adjust_portfolio_allocation portfolio (λ z. z +ℤ pos amount) m.timestamp s.portfolios;
  feed = log_vault m "PortfolioAllocated" (of_portfolio portfolio amount) s.feed;
}

-- `plus(amount.neg())` is the difference.
pub handle_portfolio_deallocated : Meta → (portfolio amount : ℕ) → Store → Store
unfolding log_vault
handle_portfolio_deallocated m portfolio amount s = record s {
  portfolios =
      adjust_portfolio_allocation portfolio (λ z. z -ℤ pos amount) m.timestamp s.portfolios;
  feed = log_vault m "PortfolioDeallocated" (of_portfolio portfolio amount) s.feed;
}

pub handle_portfolio_premium_recorded : Meta → (portfolio from amount : ℕ) → Store → Store
unfolding log_vault
handle_portfolio_premium_recorded m portfolio from amount s = record s {
  vaults =
      update_vault m (λ v. record v { premiums_recorded = v.premiums_recorded + amount }) s.vaults;
  feed =
      log_vault m "PortfolioPremiumRecorded"
        (record no_params {
          portfolio_id = some portfolio;
          actor = some from;
          amount = some amount;
        })
        s.feed;
}

abbrev of_claim : (portfolio claim amount : ℕ) → LogParams
of_claim portfolio claim amount = record no_params {
  portfolio_id = some portfolio;
  claim_id = some claim;
  amount = some amount;
}

pub handle_portfolio_claim_reserved : Meta → (portfolio claim amount : ℕ) → Store → Store
unfolding log_vault
handle_portfolio_claim_reserved m portfolio claim amount s = record s {
  vaults =
      update_vault m (λ v. record v { claims_reserved = v.claims_reserved +ℤ pos amount }) s.vaults;
  claims = update_reserved claim m.timestamp (λ z. z +ℤ pos amount) s.claims;
  feed = log_vault m "PortfolioClaimReserved" (of_claim portfolio claim amount) s.feed;
}

pub handle_portfolio_claim_reserve_released : Meta → (portfolio claim amount : ℕ) → Store → Store
unfolding log_vault
handle_portfolio_claim_reserve_released m portfolio claim amount s = record s {
  vaults =
      update_vault m (λ v. record v { claims_reserved = v.claims_reserved -ℤ pos amount }) s.vaults;
  claims = update_reserved claim m.timestamp (λ z. z -ℤ pos amount) s.claims;
  feed = log_vault m "PortfolioClaimReserveReleased" (of_claim portfolio claim amount) s.feed;
}

pub handle_portfolio_claim_paid : Meta → (portfolio claim to amount : ℕ) → Store → Store
unfolding log_vault
handle_portfolio_claim_paid m portfolio claim to amount s = record s {
  vaults =
      update_vault m
        (λ v. record v {
          claims_reserved = v.claims_reserved -ℤ pos amount;
          claims_paid = v.claims_paid + amount;
        })
        s.vaults;
  claims = update_reserved claim m.timestamp (λ z. z -ℤ pos amount) s.claims;
  feed =
      log_vault m "PortfolioClaimPaid"
        (record no_params {
          portfolio_id = some portfolio;
          claim_id = some claim;
          actor = some to;
          amount = some amount;
        })
        s.feed;
}

pub handle_fees_collected : Meta → (recipient amount : ℕ) → Store → Store
unfolding log_vault
handle_fees_collected m recipient amount s = record s {
  vaults = update_vault m (λ v. record v { fees_collected = v.fees_collected + amount }) s.vaults;
  feed =
      log_vault m "FeesCollected"
        (record no_params { actor = some recipient; amount = some amount }) s.feed;
}

pub data Event : Type 0 where
  deposit : (sender owner assets shares : ℕ) → Event
  withdraw : (sender receiver owner assets shares : ℕ) → Event
  portfolio_allocated portfolio_deallocated : (portfolio amount : ℕ) → Event
  portfolio_premium_recorded : (portfolio from amount : ℕ) → Event
  portfolio_claim_reserved : (portfolio claim amount : ℕ) → Event
  portfolio_claim_reserve_released : (portfolio claim amount : ℕ) → Event
  portfolio_claim_paid : (portfolio claim to amount : ℕ) → Event
  fees_collected : (recipient amount : ℕ) → Event

unfoldable pub handle : Meta → Event → Store → Store
unfolding handle_deposit handle_withdraw handle_portfolio_allocated handle_portfolio_deallocated
    handle_portfolio_premium_recorded handle_portfolio_claim_reserved
    handle_portfolio_claim_reserve_released handle_portfolio_claim_paid handle_fees_collected
handle m (deposit sender owner assets shares) s = handle_deposit m sender owner assets shares s
handle m (withdraw sender receiver owner assets shares) s =
    handle_withdraw m sender receiver owner assets shares s
handle m (portfolio_allocated portfolio amount) s = handle_portfolio_allocated m portfolio amount s
handle m (portfolio_deallocated portfolio amount) s =
    handle_portfolio_deallocated m portfolio amount s
handle m (portfolio_premium_recorded portfolio from amount) s =
    handle_portfolio_premium_recorded m portfolio from amount s
handle m (portfolio_claim_reserved portfolio claim amount) s =
    handle_portfolio_claim_reserved m portfolio claim amount s
handle m (portfolio_claim_reserve_released portfolio claim amount) s =
    handle_portfolio_claim_reserve_released m portfolio claim amount s
handle m (portfolio_claim_paid portfolio claim to amount) s =
    handle_portfolio_claim_paid m portfolio claim to amount s
handle m (fees_collected recipient amount) s = handle_fees_collected m recipient amount s

-- The InsuranceVault events of one chain, in their order, of every vault.
unfoldable pub run : List (Meta × Event) → Store → Store
run [] s = s
run ((m, e) ∷ es) s = run es (handle m e s)
