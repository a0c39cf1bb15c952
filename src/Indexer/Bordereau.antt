-- ===== src/Indexer/Bordereau.antt =====
-- indexer/src/bordereau-oracle.ts: the life of a bordereau assertion.
use nextblock.Base.{ℕ, String, Bool, false, Option, none, some, if◌then◌else◌}
use nextblock.Base.Keys.{number_key}
use nextblock.Base.Table.{Table, load, save, amend}
use nextblock.Indexer.Log.{Meta, LogParams, no_params, Feed, log_event}

pub data AssertionStatus : Type 0 where
  proposed disputed finalized rejected : AssertionStatus

pub record Assertion : Type 0 where
  pub portfolio_id : ℕ
  pub assertion_type : ℕ
  pub data_hash : ℕ
  pub declared_amount : ℕ
  pub proposer : ℕ
  pub liveness_deadline : ℕ
  pub status : AssertionStatus
  pub dispute_reason : Option String
  pub dispute_upheld : Bool
  pub proposed_at : ℕ
  pub finalized_at : Option ℕ
  pub updated_at : ℕ

pub record Store : Type 0 where
  pub assertions : Table ℕ Assertion
  pub feed : Feed

pub record Proposal : Type 0 where
  pub assertion_id : ℕ
  pub portfolio_id : ℕ
  pub assertion_type : ℕ
  pub data_hash : ℕ
  pub declared_amount : ℕ
  pub proposer : ℕ
  pub liveness_deadline : ℕ

abbrev pub new_assertion : ℕ → Proposal → Assertion
new_assertion ts e = record {
  portfolio_id = e.portfolio_id;
  assertion_type = e.assertion_type;
  data_hash = e.data_hash;
  declared_amount = e.declared_amount;
  proposer = e.proposer;
  liveness_deadline = e.liveness_deadline;
  status = proposed;
  dispute_reason = none;
  dispute_upheld = false;
  proposed_at = ts;
  finalized_at = none;
  updated_at = ts;
}

abbrev touched : ℕ → Option Assertion → Option Assertion
touched ts none = none
touched ts (some a) = some (record a { updated_at = ts })

-- `const a = touch(id, ts); if (a != null) { …; a.save(); }`
pub update : ℕ → ℕ → (Assertion → Assertion) → Table ℕ Assertion → Table ℕ Assertion
update id ts f t = amend id (touched ts (load id t)) f t

log_bordereau : Meta → String → LogParams → Feed → Feed
log_bordereau m name p feed = log_event m "BordereauOracle" name p feed

pub handle_assertion_proposed : Meta → Proposal → Store → Store
unfolding log_bordereau
handle_assertion_proposed m e s = record {
  assertions = save e.assertion_id (new_assertion m.timestamp e) s.assertions;
  feed =
      log_bordereau m "AssertionProposed"
        (record no_params {
          portfolio_id = some e.portfolio_id;
          actor = some e.proposer;
          amount = some e.declared_amount;
        })
        s.feed;
}

pub handle_assertion_disputed : Meta → (id sentinel : ℕ) → String → Store → Store
unfolding log_bordereau
handle_assertion_disputed m id sentinel reason s = record {
  assertions =
      update id m.timestamp (λ a. record a { status = disputed; dispute_reason = some reason })
        s.assertions;
  feed = log_bordereau m "AssertionDisputed" (record no_params { actor = some sentinel }) s.feed;
}

pub handle_assertion_dispute_resolved : Meta → (id committee : ℕ) → Bool → Store → Store
unfolding log_bordereau
handle_assertion_dispute_resolved m id committee upheld s = record {
  assertions =
      update id m.timestamp
        (λ a. record a { dispute_upheld = upheld; status = if upheld then rejected else proposed })
        s.assertions;
  feed =
      log_bordereau m "AssertionDisputeResolved" (record no_params { actor = some committee })
        s.feed;
}

pub handle_assertion_finalized : Meta → (id portfolio : ℕ) → Store → Store
unfolding log_bordereau
handle_assertion_finalized m id portfolio s = record {
  assertions =
      update id m.timestamp (λ a. record a { status = finalized; finalized_at = some m.timestamp })
        s.assertions;
  feed =
      log_bordereau m "AssertionFinalized" (record no_params { portfolio_id = some portfolio })
        s.feed;
}

pub handle_assertion_rejected : Meta → (id : ℕ) → Store → Store
unfolding log_bordereau
handle_assertion_rejected m id s = record {
  assertions = update id m.timestamp (λ a. record a { status = rejected }) s.assertions;
  feed = log_bordereau m "AssertionRejected" no_params s.feed;
}

pub data Event : Type 0 where
  assertion_proposed : Proposal → Event
  assertion_disputed : (id sentinel : ℕ) → String → Event
  assertion_dispute_resolved : (id committee : ℕ) → Bool → Event
  assertion_finalized : (id portfolio : ℕ) → Event
  assertion_rejected : (id : ℕ) → Event

unfoldable pub handle : Meta → Event → Store → Store
unfolding handle_assertion_proposed handle_assertion_disputed handle_assertion_dispute_resolved
    handle_assertion_finalized handle_assertion_rejected
handle m (assertion_proposed e) s = handle_assertion_proposed m e s
handle m (assertion_disputed id sentinel reason) s =
    handle_assertion_disputed m id sentinel reason s
handle m (assertion_dispute_resolved id committee upheld) s =
    handle_assertion_dispute_resolved m id committee upheld s
handle m (assertion_finalized id portfolio) s = handle_assertion_finalized m id portfolio s
handle m (assertion_rejected id) s = handle_assertion_rejected m id s
