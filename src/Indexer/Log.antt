-- ===== src/Indexer/Log.antt =====
-- indexer/src/helpers.ts: row ids and the activity feed.
use nextblock.Base.{ℕ, ◌+◌, ◌%◌, ◌^◌, String, ◌≡◌, Bool, true, ◌&&◌, Option, none, ◌↔◌, arith, eqb}
use nextblock.Base.Keys.{Key}
use nextblock.Base.Table.{Table, save}

-- What the handlers read of `ethereum.Event` besides the parameters. Addresses and hashes are
-- numbers here, and `toHexString` is the identity.
pub record Meta : Type 0 where
  pub address : ℕ
  pub tx_hash : ℕ
  pub log_index : ℕ
  pub timestamp : ℕ
  pub block_number : ℕ

-- `txHash-logIndex`
pub record RowId : Type 0 where
  pub tx : ℕ
  pub index : ℕ

pub same_RowId : RowId → RowId → Bool
same_RowId a b = eqb a.tx b.tx && eqb a.index b.index

pub same_RowId_iff : (a b : RowId) → (same_RowId a b ≡ true) ↔ (a ≡ b)
unfolding same_RowId
same_RowId_iff a b = ground arith

instance abbrev pub row_key : Key RowId
row_key = record { same = same_RowId; same_iff = same_RowId_iff }

abbrev pub event_id : Meta → RowId
event_id m = record { tx = m.tx_hash; index = m.log_index }

pub record LogParams : Type 0 where
  pub vault : Option ℕ
  pub portfolio_id : Option ℕ
  pub claim_id : Option ℕ
  pub actor : Option ℕ
  pub amount : Option ℕ

abbrev pub no_params : LogParams
no_params = record {
  vault = none;
  portfolio_id = none;
  claim_id = none;
  actor = none;
  amount = none;
}

pub record ProtocolEvent : Type 0 where
  pub contract : String
  pub name : String
  pub params : LogParams
  pub timestamp : ℕ
  pub block_number : ℕ
  pub tx_hash : ℕ

abbrev pub Feed : Type 0
Feed = Table RowId ProtocolEvent

abbrev pub feed_row : Meta → String → String → LogParams → ProtocolEvent
feed_row m contract name params = record {
  contract = contract;
  name = name;
  params = params;
  timestamp = m.timestamp;
  block_number = m.block_number;
  tx_hash = m.tx_hash;
}

unfoldable pub log_event : Meta → String → String → LogParams → Feed → Feed
log_event m contract name params feed = save (event_id m) (feed_row m contract name params) feed

-- `n + 1` on the i32 counters, as a bit pattern.
abbrev pub incr_i32 : ℕ → ℕ
incr_i32 n = (n + 1) % 2 ^ 32
