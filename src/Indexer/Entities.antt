-- ===== src/Indexer/Entities.antt =====
-- The entities of indexer/schema.graphql that several mapping files of indexer/src write, and the
-- deposit and withdrawal rows of a vault. BigInt fields that the mappings only add to are ℕ; those that they also subtract from are ℤ.
use nextblock.Base.{ℕ, String, Bool, Option}
use nextblock.Base.Int.{ℤ}

pub record Vault : Type 0 where
  pub name : String
  pub symbol : String
  pub display_name : String
  pub manager : ℕ
  pub buffer_ratio_bps : ℕ
  pub management_fee_bps : ℕ
  pub created_at : ℕ
  pub created_at_block : ℕ
  pub deposit_count : ℕ
  pub withdraw_count : ℕ
  pub total_deposited : ℕ
  pub total_withdrawn : ℕ
  pub premiums_recorded : ℕ
  pub claims_reserved : ℤ
  pub claims_paid : ℕ
  pub fees_collected : ℕ

pub record VaultDeposit : Type 0 where
  pub vault : ℕ
  pub sender : ℕ
  pub owner : ℕ
  pub assets : ℕ
  pub shares : ℕ
  pub timestamp : ℕ
  pub block_number : ℕ
  pub tx_hash : ℕ

pub record VaultWithdrawal : Type 0 where
  pub vault : ℕ
  pub sender : ℕ
  pub receiver : ℕ
  pub owner : ℕ
  pub assets : ℕ
  pub shares : ℕ
  pub timestamp : ℕ
  pub block_number : ℕ
  pub tx_hash : ℕ

pub data PortfolioStatus : Type 0 where
  submitted in_review approved rejected active paused expired : PortfolioStatus

pub record Portfolio : Type 0 where
  pub cedant : ℕ
  pub structure_type : ℕ
  pub coverage_limit : ℕ
  pub ceded_premium : ℕ
  pub inception_time : ℕ
  pub expiry_time : ℕ
  pub status : PortfolioStatus
  pub expected_loss_bps : ℕ
  pub reject_reason : Option String
  pub metadata_uri : Option String
  pub document_hash : Option ℕ
  pub vault : Option ℕ
  pub allocated : ℤ
  pub premiums_received_gross : ℕ
  pub submitted_at : ℕ
  pub approved_at : Option ℕ
  pub activated_at : Option ℕ
  pub updated_at : ℕ

pub data ClaimStatus : Type 0 where
  submitted assessed disputed frozen approved rejected paid : ClaimStatus

pub record Claim : Type 0 where
  pub portfolio_id : ℕ
  pub vault : ℕ
  pub claimant : ℕ
  pub requested_amount : ℕ
  pub claim_type : ℕ
  pub evidence_hash : ℕ
  pub challenge_deadline : ℕ
  pub status : ClaimStatus
  pub recommendation : ℕ
  pub score_bps : ℕ
  pub anomaly_score_bps : ℕ
  pub anomaly_flagged : Bool
  pub dispute_reason : Option String
  pub dispute_upheld : Bool
  pub approved_amount : Option ℕ
  pub paid_amount : Option ℕ
  pub paid_to : Option ℕ
  pub receipt_id : Option ℕ
  pub reserved : ℤ
  pub submitted_at : ℕ
  pub updated_at : ℕ
