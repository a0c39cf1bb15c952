-- ===== src/Indexer/Factory.antt =====
-- indexer/src/vault-factory.ts: each new vault, and the list of vaults whose events are indexed
-- from here on (`InsuranceVault.create`).
use nextblock.Base.{ℕ, String, some, List, ◌∷◌}
use nextblock.Base.Int.{pos}
use nextblock.Base.Keys.{number_key}
use nextblock.Base.Table.{Table, save}
use nextblock.Indexer.Entities.{Vault}
use nextblock.Indexer.Log.{Meta, no_params, Feed, log_event}

pub record Store : Type 0 where
  pub vaults : Table ℕ Vault
  pub templates : List ℕ
  pub feed : Feed

pub record Creation : Type 0 where
  pub vault : ℕ
  pub name : String
  pub symbol : String
  pub vault_name : String
  pub vault_manager : ℕ
  pub buffer_ratio_bps : ℕ
  pub management_fee_bps : ℕ

abbrev pub new_vault : Meta → Creation → Vault
new_vault m e = record {
  name = e.name;
  symbol = e.symbol;
  display_name = e.vault_name;
  manager = e.vault_manager;
  buffer_ratio_bps = e.buffer_ratio_bps;
  management_fee_bps = e.management_fee_bps;
  created_at = m.timestamp;
  created_at_block = m.block_number;
  deposit_count = 0;
  withdraw_count = 0;
  total_deposited = 0;
  total_withdrawn = 0;
  premiums_recorded = 0;
  claims_reserved = pos 0;
  claims_paid = 0;
  fees_collected = 0;
}

unfoldable pub handle_vault_created : Meta → Creation → Store → Store
handle_vault_created m e s = record {
  vaults = save e.vault (new_vault m e) s.vaults;
  templates = e.vault ∷ s.templates;
  feed =
      log_event m "VaultFactory" "VaultCreated"
        (record no_params { vault = some e.vault; actor = some e.vault_manager }) s.feed;
}
