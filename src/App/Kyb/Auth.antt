-- ===== src/App/Kyb/Auth.antt =====
-- app/src/lib/kyb/auth.ts: the check of an operator's signature. The recovery of a signature and the
-- reads on chain are arguments.
use nextblock.Base.{ℕ, Text, Option, none, some, Bool, not, ◌||◌, if◌then◌else◌, Result, ok, err}
use nextblock.App.Kyb.{
  operator_auth_message, is_timestamp_within_window, operator_auth_window_seconds,
}

pub record OperatorAuthInput : Type 0 where
  pub address : Text
  pub timestamp : ℕ
  pub signature : Text
  pub nonce : Option Text

-- `verify_message` is false where viem's `verifyMessage` throws. `has_roles` gives, for an address,
-- whether it is a KYC operator and whether it is an owner on chain, and `none` where the read fails.
pub record Chain : Type 0 where
  pub verify_message : (address message signature : Text) → Bool
  pub has_roles : (address : Text) → Option (Bool × Bool)

pub data AuthError : Type 0 where
  signature_expired invalid_signature lacks_role role_check_unavailable : AuthError

pub auth_status : AuthError → ℕ
auth_status signature_expired = 401
auth_status invalid_signature = 401
auth_status lacks_role = 403
auth_status role_check_unavailable = 403

-- The check on chain.
unfoldable pub with_role : (address : Text) → Option (Bool × Bool) → Result AuthError Text
with_role address none = err role_check_unavailable
with_role address (some (is_operator, is_owner)) =
    if is_operator || is_owner then ok address else err lacks_role

unfoldable pub verify_operator_auth :
    Chain → (now : ℕ) (action : Text) → OperatorAuthInput → Result AuthError Text
unfolding with_role
verify_operator_auth chain now action auth =
    if not (is_timestamp_within_window auth.timestamp now operator_auth_window_seconds)
    then err signature_expired
    else if not (
        chain.verify_message auth.address (operator_auth_message action auth.timestamp auth.nonce)
          auth.signature)
    then err invalid_signature
    else with_role auth.address (chain.has_roles auth.address)
