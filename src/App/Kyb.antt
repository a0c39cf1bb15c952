-- ===== src/App/Kyb.antt =====
-- app/src/lib/kyb/schema.ts: the states of an application and the time window of a signature. Times
-- are seconds.
pub mod Auth
pub mod Database
pub mod Access
pub mod Review
pub mod Grows
pub mod Screened
pub mod Opened
pub mod Closed
pub mod Interleaving
pub mod Cleared
pub mod Gate
pub mod Decided
pub mod Refusals
pub mod Outcome
mod Tests
use nextblock.Base.{
  ℕ, ◌+◌, ◌-◌, Text, codes, print, Option, none, some, Bool, true, false, ltb, leb, ◌++◌,
  if◌then◌else◌,
}

pub data KybStatus : Type 0 where
  submitted under_review approved rejected needs_info : KybStatus

unfoldable pub same_status : KybStatus → KybStatus → Bool
same_status submitted submitted = true
same_status under_review under_review = true
same_status approved approved = true
same_status rejected rejected = true
same_status needs_info needs_info = true
same_status _ _ = false

pub is_kyb_pending : KybStatus → Bool
is_kyb_pending submitted = true
is_kyb_pending under_review = true
is_kyb_pending needs_info = true
is_kyb_pending _ = false

unfoldable pub is_valid_transition : (from to : KybStatus) → Bool
is_valid_transition submitted under_review = true
is_valid_transition submitted rejected = true
is_valid_transition submitted needs_info = true
is_valid_transition under_review approved = true
is_valid_transition under_review rejected = true
is_valid_transition under_review needs_info = true
is_valid_transition needs_info under_review = true
is_valid_transition needs_info rejected = true
is_valid_transition _ _ = false

abbrev pub status_text : KybStatus → Text
status_text submitted = codes "submitted"
status_text under_review = codes "under_review"
status_text approved = codes "approved"
status_text rejected = codes "rejected"
status_text needs_info = codes "needs_info"

abbrev pub operator_auth_window_seconds : ℕ
operator_auth_window_seconds = 300

abbrev with_nonce : Text → Option Text → Text
with_nonce base none = base
with_nonce base (some nonce) = base ++ (codes "\nnonce: " ++ nonce)

-- An empty nonce, which the source leaves out as well, is `none`.
pub operator_auth_message : (action : Text) (timestamp : ℕ) (nonce : Option Text) → Text
operator_auth_message action timestamp nonce =
    with_nonce
      (codes "NextBlock KYB operator authentication\naction: "
        ++ (action ++ (codes "\ntimestamp: " ++ print timestamp)))
      nonce

unfoldable pub is_timestamp_within_window : (signed_at now window : ℕ) → Bool
is_timestamp_within_window signed_at now window =
    if ltb (now + 60) signed_at then false else leb (now - signed_at) window
