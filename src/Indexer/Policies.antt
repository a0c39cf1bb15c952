-- ===== src/Indexer/Policies.antt =====
-- indexer/src/policy-registry.ts and indexer/src/ai-assessor.ts: policies, the real-time lock, and
-- the immutable assessment records.
use nextblock.Base.{ℕ, String, Bool, true, false, Option, none, some}
use nextblock.Base.Keys.{number_key}
use nextblock.Base.Table.{Table, load, save, amend}
use nextblock.Indexer.Log.{Meta, RowId, row_key, event_id, no_params, Feed, log_event}

pub record Policy : Type 0 where
  pub name : String
  pub verification_type : ℕ
  pub registered_at : ℕ
  pub activated : Bool
  pub start_time : Option ℕ

pub record Store : Type 0 where
  pub policies : Table ℕ Policy
  pub feed : Feed

abbrev pub new_policy : ℕ → String → ℕ → Policy
new_policy ts name verification_type = record {
  name = name;
  verification_type = verification_type;
  registered_at = ts;
  activated = false;
  start_time = none;
}

pub handle_policy_registered : Meta → (id : ℕ) → String → (verification_type : ℕ) → Store → Store
handle_policy_registered m id name verification_type s = record {
  policies = save id (new_policy m.timestamp name verification_type) s.policies;
  feed = log_event m "PolicyRegistry" "PolicyRegistered" no_params s.feed;
}

pub handle_policy_activated : Meta → (id start_time : ℕ) → Store → Store
handle_policy_activated m id start_time s = record {
  policies =
      amend id (load id s.policies)
        (λ pol. record pol { activated = true; start_time = some start_time }) s.policies;
  feed = log_event m "PolicyRegistry" "PolicyActivated" no_params s.feed;
}

pub handle_real_time_locked : Meta → (at : ℕ) → Store → Store
handle_real_time_locked m at s = record {
  policies = s.policies;
  feed =
      log_event m "PolicyRegistry" "RealTimeLocked" (record no_params { amount = some at }) s.feed;
}

pub data Event : Type 0 where
  policy_registered : (id : ℕ) → String → (verification_type : ℕ) → Event
  policy_activated : (id start_time : ℕ) → Event
  real_time_locked : (at : ℕ) → Event

unfoldable pub handle : Meta → Event → Store → Store
unfolding handle_policy_registered handle_policy_activated handle_real_time_locked
handle m (policy_registered id name verification_type) s =
    handle_policy_registered m id name verification_type s
handle m (policy_activated id start_time) s = handle_policy_activated m id start_time s
handle m (real_time_locked at) s = handle_real_time_locked m at s

pub record Assessment : Type 0 where
  pub claim_id : ℕ
  pub score_bps : ℕ
  pub anomaly_score_bps : ℕ
  pub confidence_bps : ℕ
  pub recommendation : ℕ
  pub recommended_amount : ℕ
  pub source_hash : ℕ
  pub timestamp : ℕ

pub record AssessorStore : Type 0 where
  pub assessments : Table RowId Assessment
  pub feed : Feed

-- The event's parameters, but for the time, which is the block's.
unfoldable pub handle_assessment_published : Meta → Assessment → AssessorStore → AssessorStore
handle_assessment_published m e s = record {
  assessments = save (event_id m) (record e { timestamp = m.timestamp }) s.assessments;
  feed =
      log_event m "AIAssessor" "AssessmentPublished"
        (record no_params { claim_id = some e.claim_id; amount = some e.recommended_amount })
        s.feed;
}
