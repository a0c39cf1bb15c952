-- ===== src/App/Handoff.antt =====
-- app/src/lib/roles/handoff.ts: the roles that an operator may grant, and when. keccak256 is a
-- parameter; the encoding of the call is another library's.
pub mod Grants
mod Tests
use nextblock.Base.{
  ℕ, Text, codes, text_eqb, to_lower, List, [], ◌∷◌, map, Option, none, some, Bool, true, false,
  not, ◌||◌, if◌then◌else◌,
}
use nextblock.App.Session.{is_address}

-- "0x" and 64 zeros
abbrev pub default_admin_role : Text
default_admin_role = codes "0x0000000000000000000000000000000000000000000000000000000000000000"

-- The names behind GRANTABLE_ROLES.
abbrev pub grantable_names : List Text
grantable_names =
    codes "AUTHORIZED_CEDANT_ROLE"
    ∷ codes "UNDERWRITING_CURATOR_ROLE"
    ∷ codes "ALLOCATOR_ROLE"
    ∷ codes "SENTINEL_ROLE"
    ∷ codes "CLAIMS_COMMITTEE_ROLE"
    ∷ codes "KYC_OPERATOR_ROLE"
    ∷ codes "ORACLE_ROLE"
    ∷ codes "PREMIUM_DEPOSITOR_ROLE"
    ∷ []

-- The same id, whatever its case.
unfoldable pub is_among : Text → List Text → Bool
is_among id [] = false
is_among id (r ∷ ids) = text_eqb (to_lower r) (to_lower id) || is_among id ids

-- The key that an applicant's type stands for.
pub default_role_key_for_applicant : Option Text → Option Text
default_role_key_for_applicant none = none
default_role_key_for_applicant (some t) =
    if text_eqb t (codes "cedant")
    then some (codes "AUTHORIZED_CEDANT")
    else if text_eqb t (codes "curator")
    then some (codes "UNDERWRITING_CURATOR")
    else none

pub data GrantReadiness : Type 0 where
  invalid_address no_role already_granted ready : GrantReadiness

module _ (keccak : Text → Text) where
  abbrev pub restricted_role_ids : List Text
  restricted_role_ids =
      keccak (codes "OWNER_ROLE") ∷ default_admin_role ∷ keccak (codes "VAULT_FACTORY_ROLE") ∷ []

  unfoldable pub is_grantable_role_id : Text → Bool
  unfolding is_among
  is_grantable_role_id id =
      if is_among id restricted_role_ids then false else is_among id (map keccak grantable_names)

  abbrev pub is_role : Option Text → Bool
  is_role none = false
  is_role (some []) = false
  is_role (some (c ∷ t)) = is_grantable_role_id (c ∷ t)

  unfoldable pub evaluate_grant :
      (account : Text) (role_id : Option Text) (already_has_role : Bool) → GrantReadiness
  unfolding is_grantable_role_id
  evaluate_grant account role_id already_has_role =
      if not (is_address account)
      then invalid_address
      else if not (is_role role_id)
      then no_role
      else if already_has_role
      then already_granted
      else ready
