-- ===== src/App/ClaimsQueue.antt =====
-- app/src/lib/claimsqueue.ts and app/src/lib/notifications/derive.ts: what a claim of the chain shows,
-- and when a change of its status is announced. Statuses are the numbers of the contract.
pub mod Queue
use nextblock.Base.{
  ℕ, ◌+◌, ◌-◌, Text, List, [], ◌∷◌, Option, none, some, Bool, true, false, not, ◌&&◌, ◌||◌, eqb,
  ltb, leb, to_lower, text_eqb, if◌then◌else◌,
}

abbrev pub submitted : ℕ
submitted = 0

abbrev pub assessed : ℕ
assessed = 1

abbrev pub disputed : ℕ
disputed = 2

abbrev pub approved : ℕ
approved = 3

abbrev pub paid : ℕ
paid = 4

abbrev pub rejected : ℕ
rejected = 5

pub record ClaimLike : Type 0 where
  pub claim_id : ℕ
  pub vault : Text
  pub portfolio_id : ℕ
  pub requested_amount : ℕ
  pub status : ℕ
  pub submitted_at : ℕ
  pub challenge_deadline : ℕ
  pub frozen : Bool
  pub dispute_window_elapsed : Bool
  pub has_assessment : Bool
  pub anomalous : Bool
  pub assessment_anomaly_bps : ℕ

pub record ClaimFilter : Type 0 where
  pub status : Option ℕ
  pub vault : Option Text
  pub anomaly_only : Bool

pub is_settled : ℕ → Bool
is_settled status = eqb status paid || eqb status rejected

pub matches : ClaimFilter → ClaimLike → Bool
matches f c =
    elim f.status [ none ↦ true | some status ↦ eqb c.status status ]
    && (elim f.vault [ none ↦ true | some vault ↦ text_eqb (to_lower c.vault) (to_lower vault) ]
        && (not f.anomaly_only || c.anomalous))

pub filter_claims : List ClaimLike → ClaimFilter → List ClaimLike
filter_claims [] f = []
filter_claims (c ∷ claims) f =
    let rest = filter_claims claims f in if matches f c then c ∷ rest else rest

pub claim_age_seconds : ClaimLike → ℕ → ℕ
claim_age_seconds claim now = if ltb claim.submitted_at now then now - claim.submitted_at else 0

pub is_overdue : ClaimLike → (now threshold : ℕ) → Bool
is_overdue claim now threshold =
    if is_settled claim.status then false else ltb threshold (claim_age_seconds claim now)

pub data Severity : Type 0 where
  high normal : Severity

pub severity_of : ClaimLike → Severity
severity_of claim =
    if claim.anomalous || leb 5000 claim.assessment_anomaly_bps then high else normal

-- The reached flags of the six steps of the timeline.
pub record Reached : Type 0 where
  pub submitted : Bool
  pub assessed : Bool
  pub dispute_window : Bool
  pub approved : Bool
  pub paid : Bool
  pub rejected : Bool

abbrev past : ClaimLike → List ℕ → Bool
past claim [] = false
past claim (s ∷ statuses) = eqb s claim.status || past claim statuses

pub derive_claim_timeline : ClaimLike → Reached
derive_claim_timeline claim = record {
  submitted = true;
  assessed = claim.has_assessment || past claim (assessed ∷ disputed ∷ approved ∷ paid ∷ []);
  dispute_window = claim.dispute_window_elapsed || past claim (disputed ∷ approved ∷ paid ∷ []);
  approved = past claim (approved ∷ paid ∷ []);
  paid = past claim (paid ∷ []);
  rejected = past claim (rejected ∷ []);
}

-- The message, which names the claim and the two statuses, is left out.
pub record NotificationDraft : Type 0 where
  pub recipient_addr : Text
  pub claim_id : ℕ
  pub vault : Text
  pub from_status : Option ℕ
  pub to_status : ℕ

abbrev draft_of : ClaimLike → Text → Option ℕ → NotificationDraft
draft_of claim recipient_addr from_status = record {
  recipient_addr = to_lower recipient_addr;
  claim_id = claim.claim_id;
  vault = to_lower claim.vault;
  from_status = from_status;
  to_status = claim.status;
}

pub diff_claim_status : ClaimLike → Text → Option ℕ → Option NotificationDraft
diff_claim_status claim recipient_addr none =
    if eqb claim.status paid || eqb claim.status rejected
    then none
    else some (draft_of claim recipient_addr none)
diff_claim_status claim recipient_addr (some last) =
    if eqb last claim.status then none else some (draft_of claim recipient_addr (some last))
