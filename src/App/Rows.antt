-- ===== src/App/Rows.antt =====
-- The typed rows of app/src/lib/protocol-subgraph/entities.ts that the settlement reads.
use nextblock.Base.{ℕ, Text, Option, Bool, true, false, ◌≡◌, ◌↔◌, arith}
use nextblock.Base.Int.{ℤ}
use nextblock.Base.Keys.{Key}

pub data ClaimStatus : Type 0 where
  submitted assessed disputed frozen approved rejected paid : ClaimStatus

pub data PremiumFlowKind : Type 0 where
  received allocated protocol_fee underwriting_fee : PremiumFlowKind
  protocol_fees_claimed underwriting_fees_claimed : PremiumFlowKind

pub record PremiumFlowRow : Type 0 where
  pub id : Text
  pub portfolio_id : ℕ
  pub kind : PremiumFlowKind
  pub counterparty : Option Text
  pub amount : ℕ
  pub timestamp : ℕ
  pub tx_hash : Text

pub record ClaimRow : Type 0 where
  pub claim_id : ℕ
  pub portfolio_id : ℕ
  pub vault : Text
  pub claimant : Text
  pub requested_amount : ℕ
  pub claim_type : ℕ
  pub status : ClaimStatus
  pub anomaly_flagged : Bool
  pub approved_amount : Option ℕ
  pub paid_amount : Option ℕ
  pub reserved : ℤ
  pub submitted_at : ℕ
  pub updated_at : ℕ

pub same_status : ClaimStatus → ClaimStatus → Bool
same_status submitted submitted = true
same_status assessed assessed = true
same_status disputed disputed = true
same_status frozen frozen = true
same_status approved approved = true
same_status rejected rejected = true
same_status paid paid = true
same_status _ _ = false

pub same_status_iff : (a b : ClaimStatus) → (same_status a b ≡ true) ↔ (a ≡ b)
unfolding same_status
same_status_iff a b = ground arith

instance abbrev pub status_key : Key ClaimStatus
status_key = record { same = same_status; same_iff = same_status_iff }
