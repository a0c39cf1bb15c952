-- ===== src/Indexer/Claims.antt =====
-- indexer/src/claim-manager.ts: the claim lifecycle, as the events report it.
pub mod Records
pub mod Machine
use nextblock.Base.{ℕ, String, Bool, true, false, Option, none, some, List, [], ◌∷◌, if◌then◌else◌}
use nextblock.Base.Int.{pos}
use nextblock.Base.Keys.{number_key}
use nextblock.Base.Table.{Table, load, save, amend}
use nextblock.Indexer.Entities.{
  Claim, submitted, assessed, disputed, frozen, approved, rejected, paid,
}
use nextblock.Indexer.Log.{Meta, LogParams, no_params, Feed, log_event}

-- The tables that the file imports.
pub record Store : Type 0 where
  pub claims : Table ℕ Claim
  pub feed : Feed

abbrev pub touched : ℕ → Option Claim → Option Claim
touched ts none = none
touched ts (some c) = some (record c { updated_at = ts })

abbrev pub touch : ℕ → ℕ → Table ℕ Claim → Option Claim
touch id ts claims = touched ts (load id claims)

-- `const c = touch(id, ts); if (c != null) { …; c.save(); }`
pub update : ℕ → ℕ → (Claim → Claim) → Table ℕ Claim → Table ℕ Claim
update id ts f claims = amend id (touch id ts claims) f claims

log_claim : Meta → String → LogParams → Feed → Feed
log_claim m name p feed = log_event m "ClaimManager" name p feed

pub record Submission : Type 0 where
  pub claim_id : ℕ
  pub portfolio_id : ℕ
  pub vault : ℕ
  pub claimant : ℕ
  pub requested_amount : ℕ
  pub claim_type : ℕ
  pub evidence_hash : ℕ
  pub challenge_deadline : ℕ

abbrev pub new_claim : ℕ → Submission → Claim
new_claim ts e = record {
  portfolio_id = e.portfolio_id;
  vault = e.vault;
  claimant = e.claimant;
  requested_amount = e.requested_amount;
  claim_type = e.claim_type;
  evidence_hash = e.evidence_hash;
  challenge_deadline = e.challenge_deadline;
  status = submitted;
  recommendation = 0;
  score_bps = 0;
  anomaly_score_bps = 0;
  anomaly_flagged = false;
  dispute_reason = none;
  dispute_upheld = false;
  approved_amount = none;
  paid_amount = none;
  paid_to = none;
  receipt_id = none;
  reserved = pos 0;
  submitted_at = ts;
  updated_at = ts;
}

pub handle_claim_submitted : Meta → Submission → Store → Store
unfolding log_claim
handle_claim_submitted m e s = record s {
  claims = save e.claim_id (new_claim m.timestamp e) s.claims;
  feed =
      log_claim m "ClaimSubmitted"
        (record {
          claim_id = some e.claim_id;
          portfolio_id = some e.portfolio_id;
          vault = some e.vault;
          actor = some e.claimant;
          amount = some e.requested_amount;
        })
        s.feed;
}

pub handle_claim_assessed : Meta → (id recommendation score anomaly : ℕ) → Store → Store
unfolding log_claim
handle_claim_assessed m id recommendation score anomaly s = record s {
  claims =
      update id m.timestamp
        (λ c. record c {
          status = assessed;
          recommendation = recommendation;
          score_bps = score;
          anomaly_score_bps = anomaly;
        })
        s.claims;
  feed = log_claim m "ClaimAssessed" (record no_params { claim_id = some id }) s.feed;
}

pub handle_claim_anomaly_flagged : Meta → (id anomaly : ℕ) → Store → Store
unfolding log_claim
handle_claim_anomaly_flagged m id anomaly s = record s {
  claims =
      update id m.timestamp (λ c. record c { anomaly_flagged = true; anomaly_score_bps = anomaly })
        s.claims;
  feed = log_claim m "ClaimAnomalyFlagged" (record no_params { claim_id = some id }) s.feed;
}

pub handle_claim_disputed : Meta → (id sentinel : ℕ) → String → Store → Store
unfolding log_claim
handle_claim_disputed m id sentinel reason s = record s {
  claims =
      update id m.timestamp (λ c. record c { status = disputed; dispute_reason = some reason })
        s.claims;
  feed =
      log_claim m "ClaimDisputed" (record no_params { claim_id = some id; actor = some sentinel })
        s.feed;
}

pub handle_claim_dispute_resolved : Meta → (id committee : ℕ) → Bool → Store → Store
unfolding log_claim
handle_claim_dispute_resolved m id committee upheld s = record s {
  claims =
      update id m.timestamp
        (λ c. record c { dispute_upheld = upheld; status = if upheld then rejected else assessed })
        s.claims;
  feed =
      log_claim m "ClaimDisputeResolved"
        (record no_params { claim_id = some id; actor = some committee }) s.feed;
}

pub handle_claim_frozen : Meta → (id sentinel : ℕ) → Store → Store
unfolding log_claim
handle_claim_frozen m id sentinel s = record s {
  claims = update id m.timestamp (λ c. record c { status = frozen }) s.claims;
  feed =
      log_claim m "ClaimFrozen" (record no_params { claim_id = some id; actor = some sentinel })
        s.feed;
}

pub handle_claim_unfrozen : Meta → (id sentinel : ℕ) → Store → Store
unfolding log_claim
handle_claim_unfrozen m id sentinel s = record s {
  claims = update id m.timestamp (λ c. record c { status = assessed }) s.claims;
  feed =
      log_claim m "ClaimUnfrozen" (record no_params { claim_id = some id; actor = some sentinel })
        s.feed;
}

pub handle_claim_approved : Meta → (id committee amount receipt : ℕ) → Store → Store
unfolding log_claim
handle_claim_approved m id committee amount receipt s = record s {
  claims =
      update id m.timestamp
        (λ c. record c {
          status = approved;
          approved_amount = some amount;
          receipt_id = some receipt;
        })
        s.claims;
  feed =
      log_claim m "ClaimApproved"
        (record no_params { claim_id = some id; actor = some committee; amount = some amount })
        s.feed;
}

pub handle_claim_rejected : Meta → (id committee : ℕ) → String → Store → Store
unfolding log_claim
handle_claim_rejected m id committee reason s = record s {
  claims =
      update id m.timestamp (λ c. record c { status = rejected; dispute_reason = some reason })
        s.claims;
  feed =
      log_claim m "ClaimRejected" (record no_params { claim_id = some id; actor = some committee })
        s.feed;
}

pub handle_claim_paid : Meta → (id to amount receipt : ℕ) → Store → Store
unfolding log_claim
handle_claim_paid m id to amount receipt s = record s {
  claims =
      update id m.timestamp
        (λ c. record c {
          status = paid;
          paid_amount = some amount;
          paid_to = some to;
          receipt_id = some receipt;
        })
        s.claims;
  feed =
      log_claim m "ClaimPaid"
        (record no_params { claim_id = some id; actor = some to; amount = some amount }) s.feed;
}

pub data Event : Type 0 where
  claim_submitted : Submission → Event
  claim_assessed : (id recommendation score anomaly : ℕ) → Event
  claim_anomaly_flagged : (id anomaly : ℕ) → Event
  claim_disputed : (id sentinel : ℕ) → String → Event
  claim_dispute_resolved : (id committee : ℕ) → Bool → Event
  claim_frozen claim_unfrozen : (id sentinel : ℕ) → Event
  claim_approved : (id committee amount receipt : ℕ) → Event
  claim_rejected : (id committee : ℕ) → String → Event
  claim_paid : (id to amount receipt : ℕ) → Event

unfoldable pub handle : Meta → Event → Store → Store
unfolding handle_claim_submitted handle_claim_assessed handle_claim_anomaly_flagged
    handle_claim_disputed handle_claim_dispute_resolved handle_claim_frozen handle_claim_unfrozen
    handle_claim_approved handle_claim_rejected handle_claim_paid
handle m (claim_submitted e) s = handle_claim_submitted m e s
handle m (claim_assessed id recommendation score anomaly) s =
    handle_claim_assessed m id recommendation score anomaly s
handle m (claim_anomaly_flagged id anomaly) s = handle_claim_anomaly_flagged m id anomaly s
handle m (claim_disputed id sentinel reason) s = handle_claim_disputed m id sentinel reason s
handle m (claim_dispute_resolved id committee upheld) s =
    handle_claim_dispute_resolved m id committee upheld s
handle m (claim_frozen id sentinel) s = handle_claim_frozen m id sentinel s
handle m (claim_unfrozen id sentinel) s = handle_claim_unfrozen m id sentinel s
handle m (claim_approved id committee amount receipt) s =
    handle_claim_approved m id committee amount receipt s
handle m (claim_rejected id committee reason) s = handle_claim_rejected m id committee reason s
handle m (claim_paid id to amount receipt) s = handle_claim_paid m id to amount receipt s

-- The ClaimManager events of one chain, in their order.
unfoldable pub run : List (Meta × Event) → Store → Store
run [] s = s
run ((m, e) ∷ es) s = run es (handle m e s)
