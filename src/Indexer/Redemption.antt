-- ===== src/Indexer/Redemption.antt =====
-- indexer/src/redemption-queue.ts: the LP exit history. Every amount only grows, so it is a ℕ.
pub mod Conservation
pub mod Rows
pub mod Settlement
use nextblock.Base.{ℕ, ◌+◌, Bool, true, false, Option, none, some, List, [], ◌∷◌}
use nextblock.Base.Keys.{number_key}
use nextblock.Base.Table.{Table, load, save}
use nextblock.Indexer.Log.{Meta, RowId, row_key, event_id, incr_i32}

pub record Epoch : Type 0 where
  pub epoch_id : ℕ
  pub total_shares_requested : ℕ
  pub settled_shares : ℕ
  pub settled_assets : ℕ
  pub ratio_bps : ℕ
  pub settled : Bool
  pub settled_at : Option ℕ
  pub request_count : ℕ
  pub opened_at_block : ℕ

pub record RedemptionRequest : Type 0 where
  pub epoch : ℕ
  pub lp : ℕ
  pub shares : ℕ
  pub block_number : ℕ
  pub timestamp : ℕ
  pub tx_hash : ℕ

pub record RedemptionClaim : Type 0 where
  pub epoch : ℕ
  pub lp : ℕ
  pub assets_paid : ℕ
  pub shares_returned : ℕ
  pub block_number : ℕ
  pub timestamp : ℕ
  pub tx_hash : ℕ

pub record LpPosition : Type 0 where
  pub total_shares_requested : ℕ
  pub total_assets_claimed : ℕ
  pub total_shares_returned : ℕ
  pub request_count : ℕ
  pub claim_count : ℕ

pub record ProtocolStat : Type 0 where
  pub total_shares_requested : ℕ
  pub total_settled_shares : ℕ
  pub total_settled_assets : ℕ
  pub total_assets_claimed : ℕ
  pub epochs_settled : ℕ
  pub paused : Bool

-- The tables that the file imports. The one ProtocolStat row is the optional entity "global".
pub record Store : Type 0 where
  pub epochs : Table ℕ Epoch
  pub requests : Table RowId RedemptionRequest
  pub claims : Table RowId RedemptionClaim
  pub lps : Table ℕ LpPosition
  pub global : Option ProtocolStat

abbrev pub empty : Store
empty = record { epochs = []; requests = []; claims = []; lps = []; global = none }

abbrev pub new_stat : ProtocolStat
new_stat = record {
  total_shares_requested = 0;
  total_settled_shares = 0;
  total_settled_assets = 0;
  total_assets_claimed = 0;
  epochs_settled = 0;
  paused = false;
}

abbrev pub stat : Option ProtocolStat → ProtocolStat
stat none = new_stat
stat (some s) = s

abbrev pub new_epoch : ℕ → ℕ → Epoch
new_epoch id block = record {
  epoch_id = id;
  total_shares_requested = 0;
  settled_shares = 0;
  settled_assets = 0;
  ratio_bps = 0;
  settled = false;
  settled_at = none;
  request_count = 0;
  opened_at_block = block;
}

abbrev pub epoch_of : ℕ → ℕ → Option Epoch → Epoch
epoch_of id block none = new_epoch id block
epoch_of id block (some e) = e

abbrev pub new_lp : LpPosition
new_lp = record {
  total_shares_requested = 0;
  total_assets_claimed = 0;
  total_shares_returned = 0;
  request_count = 0;
  claim_count = 0;
}

abbrev pub lp_of : Option LpPosition → LpPosition
lp_of none = new_lp
lp_of (some lp) = lp

-- The parameters of the four events.
pub data Event : Type 0 where
  redemption_requested : (epoch lp shares : ℕ) → Event
  epoch_settled : (epoch settled_shares settled_assets ratio_bps : ℕ) → Event
  redemption_claimed : (epoch lp assets_paid shares_returned : ℕ) → Event
  paused_set : Bool → Event

-- The fields that the handlers assign before they save.
abbrev pub request_epoch : ℕ → Epoch → Epoch
request_epoch shares e = record e {
  total_shares_requested = e.total_shares_requested + shares;
  request_count = incr_i32 e.request_count;
}

abbrev pub request_lp : ℕ → LpPosition → LpPosition
request_lp shares l = record l {
  total_shares_requested = l.total_shares_requested + shares;
  request_count = incr_i32 l.request_count;
}

abbrev pub settle_epoch : (shares assets ratio_bps at : ℕ) → Epoch → Epoch
settle_epoch shares assets ratio_bps at e = record e {
  settled_shares = shares;
  settled_assets = assets;
  ratio_bps = ratio_bps;
  settled = true;
  settled_at = some at;
}

abbrev pub claim_lp : (assets_paid shares_returned : ℕ) → LpPosition → LpPosition
claim_lp assets_paid shares_returned l = record l {
  total_assets_claimed = l.total_assets_claimed + assets_paid;
  total_shares_returned = l.total_shares_returned + shares_returned;
  claim_count = incr_i32 l.claim_count;
}

abbrev pub request_row : Meta → (epoch lp shares : ℕ) → RedemptionRequest
request_row m epoch lp shares = record {
  epoch = epoch;
  lp = lp;
  shares = shares;
  block_number = m.block_number;
  timestamp = m.timestamp;
  tx_hash = m.tx_hash;
}

abbrev pub claim_row : Meta → (epoch lp assets_paid shares_returned : ℕ) → RedemptionClaim
claim_row m epoch lp assets_paid shares_returned = record {
  epoch = epoch;
  lp = lp;
  assets_paid = assets_paid;
  shares_returned = shares_returned;
  block_number = m.block_number;
  timestamp = m.timestamp;
  tx_hash = m.tx_hash;
}

pub handle_redemption_requested : Meta → (epoch lp shares : ℕ) → Store → Store
handle_redemption_requested m epoch lp shares s =
    let g = stat s.global in
    record s {
      epochs =
          save epoch (request_epoch shares (epoch_of epoch m.block_number (load epoch s.epochs)))
            s.epochs;
      lps = save lp (request_lp shares (lp_of (load lp s.lps))) s.lps;
      requests = save (event_id m) (request_row m epoch lp shares) s.requests;
      global = some (record g { total_shares_requested = g.total_shares_requested + shares });
    }

pub handle_epoch_settled : Meta → (epoch shares assets ratio_bps : ℕ) → Store → Store
handle_epoch_settled m epoch shares assets ratio_bps s =
    let g = stat s.global in
    record s {
      epochs =
          save epoch
            (settle_epoch shares assets ratio_bps m.timestamp
              (epoch_of epoch m.block_number (load epoch s.epochs)))
            s.epochs;
      global = some (record g {
        total_settled_shares = g.total_settled_shares + shares;
        total_settled_assets = g.total_settled_assets + assets;
        epochs_settled = incr_i32 g.epochs_settled;
      });
    }

-- The epoch is loaded or made for its id, and is not saved.
pub handle_redemption_claimed : Meta → (epoch lp assets_paid shares_returned : ℕ) → Store → Store
handle_redemption_claimed m epoch lp assets_paid shares_returned s =
    let g = stat s.global in
    record s {
      lps = save lp (claim_lp assets_paid shares_returned (lp_of (load lp s.lps))) s.lps;
      claims = save (event_id m) (claim_row m epoch lp assets_paid shares_returned) s.claims;
      global = some (record g { total_assets_claimed = g.total_assets_claimed + assets_paid });
    }

pub handle_paused_set : Bool → Store → Store
handle_paused_set paused s =
    let g = stat s.global in record s { global = some (record g { paused = paused }) }

unfoldable pub handle : Meta → Event → Store → Store
unfolding handle_redemption_requested handle_epoch_settled handle_redemption_claimed
    handle_paused_set
handle m (redemption_requested epoch lp shares) s = handle_redemption_requested m epoch lp shares s
handle m (epoch_settled epoch shares assets ratio_bps) s =
    handle_epoch_settled m epoch shares assets ratio_bps s
handle m (redemption_claimed epoch lp assets_paid shares_returned) s =
    handle_redemption_claimed m epoch lp assets_paid shares_returned s
handle m (paused_set paused) s = handle_paused_set paused s

-- The events of one chain, in their order.
unfoldable pub run : List (Meta × Event) → Store → Store
run [] s = s
run ((m, e) ∷ es) s = run es (handle m e s)
