-- ===== src/App/Session.antt =====
-- app/src/lib/app-auth/session.ts: the actor behind an email session. What Supabase answers is a
-- record of answers; the table of profiles is the state, to which a first sign-in adds a row.
use nextblock.Base.{
  drop, has_line_end, ℕ, zero, suc, Text, codes, text_eqb, text_key, List, [], ◌∷◌, Option, none,
  some, Bool, true, false, not, ◌&&◌, ◌||◌, between, to_lower, trim, trim_start, starts_with,
  is_space, if◌then◌else◌, Result, ok, err,
}
use nextblock.Base.Table.{Table, load, save}

pub data AppAccessRole : Type 0 where
  admin kyb_operator reviewer support : AppAccessRole

pub record EmailWallet : Type 0 where
  pub address : Text
  pub label : Option Text
  pub is_primary : Bool

pub record EmailActor : Type 0 where
  pub user_id : Text
  pub email : Text
  pub display_name : Option Text
  pub roles : List AppAccessRole
  pub wallets : List EmailWallet

pub data SessionError : Type 0 where
  missing_session unavailable invalid_session profile_lookup_failed not_confirmed : SessionError
  provisioning_failed account_disabled role_lookup_failed lacks_role wallet_lookup_failed :
      SessionError

pub session_status : SessionError → ℕ
session_status missing_session = 401
session_status unavailable = 503
session_status invalid_session = 401
session_status profile_lookup_failed = 502
session_status not_confirmed = 403
session_status provisioning_failed = 502
session_status account_disabled = 403
session_status role_lookup_failed = 502
session_status lacks_role = 403
session_status wallet_lookup_failed = 502

-- What follows the white space, of which there is some.
abbrev after_space : Text → Option Text
after_space [] = none
after_space (c ∷ t) =
    if is_space c && not (has_line_end (trim_start t)) then some (trim_start t) else none

-- `^Bearer\s+(.+)$`, in any case, on the trimmed header.
pub bearer_token : Option Text → Option Text
bearer_token none = none
bearer_token (some header) =
    if starts_with (codes "bearer") (to_lower (trim header))
    then after_space (drop 6 (trim header))
    else none

pub normalize_role : Text → Option AppAccessRole
normalize_role value =
    if text_eqb value (codes "admin")
    then some admin
    else if text_eqb value (codes "kyb_operator")
    then some kyb_operator
    else if text_eqb value (codes "reviewer")
    then some reviewer
    else if text_eqb value (codes "support")
    then some support
    else none

pub same_role : AppAccessRole → AppAccessRole → Bool
same_role admin admin = true
same_role kyb_operator kyb_operator = true
same_role reviewer reviewer = true
same_role support support = true
same_role _ _ = false

unfoldable pub has_role : AppAccessRole → List AppAccessRole → Bool
unfolding same_role
has_role role [] = false
has_role role (r ∷ roles) = same_role r role || has_role role roles

pub has_some_role : List AppAccessRole → List AppAccessRole → Bool
unfolding has_role
has_some_role roles [] = false
has_some_role roles (r ∷ required) = has_role r roles || has_some_role roles required

pub has_required_role : (roles required : List AppAccessRole) → Bool
unfolding has_some_role
has_required_role roles [] = true
has_required_role roles (r ∷ required) = has_some_role roles (r ∷ required)

pub can_review_kyb : List AppAccessRole → Bool
unfolding has_role
can_review_kyb roles =
    has_role admin roles || (has_role kyb_operator roles || has_role reviewer roles)

pub can_operate_protocol : List AppAccessRole → Bool
unfolding has_role
can_operate_protocol roles = has_role admin roles || has_role kyb_operator roles

-- `new Set(…)` keeps the first of each role, in the order of the rows.
pub without_role : AppAccessRole → List AppAccessRole → List AppAccessRole
unfolding same_role
without_role r [] = []
without_role r (q ∷ roles) =
    let rest = without_role r roles in if same_role q r then rest else q ∷ rest

pub roles_of_rows : List Text → List AppAccessRole
unfolding without_role
roles_of_rows [] = []
roles_of_rows (row ∷ rows) =
    let rest = roles_of_rows rows in
    elim (normalize_role row) [ none ↦ rest | some r ↦ r ∷ without_role r rest ]

abbrev pub is_hex : ℕ → Bool
is_hex c = between 48 57 c || (between 65 70 c || between 97 102 c)

abbrev pub all_hex : ℕ → Text → Bool
all_hex zero [] = true
all_hex zero (c ∷ t) = false
all_hex (suc n) [] = false
all_hex (suc n) (c ∷ t) = is_hex c && all_hex n t

-- `^0x[0-9a-fA-F]{40}$`
unfoldable pub is_address : Text → Bool
is_address t = starts_with (codes "0x") t && all_hex 40 (drop 2 t)

-- A row of `app_user_wallets`; an address that is no text is `none`.
pub record WalletRow : Type 0 where
  pub wallet_address : Option Text
  pub label : Option Text
  pub is_primary : Bool

pub wallets_of_rows : List WalletRow → List EmailWallet
wallets_of_rows [] = []
wallets_of_rows (row ∷ rows) =
    let rest = wallets_of_rows rows in
    elim row.wallet_address [
      | none ↦ rest
      | some address ↦
          if is_address address
          then record { address = address; label = row.label; is_primary = row.is_primary } ∷ rest
          else rest
    ]

pub record AuthUser : Type 0 where
  pub id : Text
  pub email : Text
  pub email_confirmed : Bool

pub record Profile : Type 0 where
  pub email : Text
  pub display_name : Option Text
  pub is_active : Bool

abbrev pub Profiles : Type 0
Profiles = Table Text Profile

-- The answers of Supabase: `get_user` is the user of a token with an id and an email, if there is
-- one; rows that a query fails to give are `none`.
pub record SessionServices : Type 0 where
  pub has_clients : Bool
  pub get_user : Text → Option AuthUser
  pub profile_lookup_fails : Bool
  pub provisioning_fails : Bool
  pub role_rows : Text → Option (List Text)
  pub wallet_rows : Text → Option (List WalletRow)

abbrev or_email : Text → Text → Text
or_email [] other = other
or_email (c ∷ t) other = c ∷ t

unfoldable pub actor_of :
    SessionServices
    → (required : List AppAccessRole) → AuthUser
    → Profile
    → Result SessionError EmailActor
actor_of s required user profile =
    if not profile.is_active then err account_disabled else elim (s.role_rows user.id) [
      | none ↦ err role_lookup_failed
      | some rows ↦
          if not (has_required_role (roles_of_rows rows) required)
          then err lacks_role
          else elim (s.wallet_rows user.id) [
            | none ↦ err wallet_lookup_failed
            | some wallets ↦ ok (record {
              user_id = user.id;
              email = or_email profile.email user.email;
              display_name = profile.display_name;
              roles = roles_of_rows rows;
              wallets = wallets_of_rows wallets;
            })
          ]
    ]

abbrev new_profile : AuthUser → Profile
new_profile user = record { email = to_lower user.email; display_name = none; is_active = true }

unfoldable pub actor_of_user :
    SessionServices
    → (required : List AppAccessRole) → AuthUser
    → Profiles
    → Result SessionError EmailActor × Profiles
actor_of_user s required user profiles =
    if s.profile_lookup_fails
    then (err profile_lookup_failed, profiles)
    else elim (load user.id profiles) [
      | some profile ↦ (actor_of s required user profile, profiles)
      | none ↦
          if not user.email_confirmed
          then (err not_confirmed, profiles)
          else if s.provisioning_fails
          then (err provisioning_failed, profiles)
          else (
            actor_of s required user (new_profile user),
            save user.id (new_profile user) profiles,
          )
    ]

unfoldable pub get_email_actor :
    SessionServices
    → (authorization : Option Text) (required : List AppAccessRole) → Profiles
    → Result SessionError EmailActor × Profiles
get_email_actor s authorization required profiles = elim (bearer_token authorization) [
  | none ↦ (err missing_session, profiles)
  | some token ↦
      if not s.has_clients then (err unavailable, profiles) else elim (s.get_user token) [
        | none ↦ (err invalid_session, profiles)
        | some user ↦ actor_of_user s required user profiles
      ]
]
