-- ===== src/App/Kyb/Access.antt =====
-- app/src/app/api/kyb/applications/[id]/review/route.ts up to the read of the application: the
-- request and the checks of who makes it. What the body's schema makes of a body is an argument.
use nextblock.Base.{
  ℕ, Text, codes, text_key, List, [], ◌∷◌, ◌++◌, Option, none, some, Bool, true, not, ◌&&◌, ◌||◌,
  eqb, between, length, to_lower, if◌then◌else◌, Result, ok, err,
}
use nextblock.Base.Table.{load}
use nextblock.App.Nonces.Stored.{consume_stored}
use nextblock.App.Session.{
  EmailWallet, AppAccessRole, admin, kyb_operator, reviewer, get_email_actor, session_status,
}
use nextblock.App.Kyb.{KybStatus, status_text}
use nextblock.App.Kyb.Auth.{verify_operator_auth, auth_status}
use nextblock.App.Kyb.Database.{
  Application, Actor, wallet_actor, email_actor, ReviewServices, refused, Handler, ◌>>=◌, ◌>>◌,
  return, reply, require, refuse_if,
}

pub record ReviewAuth : Type 0 where
  pub address : Text
  pub timestamp : ℕ
  pub nonce : Text
  pub signature : Text

pub record ReviewBody : Type 0 where
  pub to_status : KybStatus
  pub note : Option Text
  pub auth : Option ReviewAuth

pub data ParsedBody : Type 0 where
  no_json invalid : ParsedBody
  valid : ReviewBody → ParsedBody

pub record ReviewRequest : Type 0 where
  pub id : Text
  pub authorization : Option Text
  pub body : ParsedBody

-- The characters of [0-9a-f-], in any case.
abbrev all_id : Text → Bool
all_id [] = true
all_id (c ∷ t) =
    (between 48 57 c || (between 65 70 c || (between 97 102 c || eqb c 45))) && all_id t

unfoldable pub is_application_id : Text → Bool
is_application_id id = eqb (length id) 36 && all_id id

unfoldable pub limit_requests : ReviewServices → Handler (Unit {0})
limit_requests s = do allowed ← require s.limited (refused 502); refuse_if (not allowed) 429

unfoldable pub read_body : ParsedBody → Handler ReviewBody
read_body no_json = reply (refused 400)
read_body invalid = reply (refused 400)
read_body (valid body) = return body

abbrev pub action_of : (id : Text) → KybStatus → Text
action_of id to_status = codes "review:" ++ (id ++ (codes ":" ++ status_text to_status))

-- A check that refuses with the status of its error.
unfoldable pub from_result : {E A : Type 0} → (E → ℕ) → Result E A → Handler A
from_result status (ok a) = return a
from_result status (err e) = reply (refused (status e))

unfoldable pub check_signature :
    ReviewServices → (id : Text) → KybStatus → ReviewAuth → Handler Text
unfolding from_result
check_signature s id to_status auth = from_result auth_status (
    verify_operator_auth s.chain s.now_seconds (action_of id to_status) (record {
      address = auth.address;
      timestamp = auth.timestamp;
      signature = auth.signature;
      nonce = some auth.nonce;
    }))

-- The single use of the nonce.
unfoldable pub use_nonce : ReviewServices → (address nonce : Text) → Handler (Unit {0})
use_nonce s address nonce db =
    let consumed = consume_stored s.nonce_store_fails s.now address nonce db.nonces in
    (
      elim (consumed.0) [
        | err e ↦ err (refused 502)
        | ok accepted ↦ if accepted then ok tt else err (refused 401)
      ],
      record db { nonces = consumed.1 },
    )

-- "0x0000000000000000000000000000000000000000"
abbrev zero_address : Text
zero_address = codes "0x0000000000000000000000000000000000000000"

pub primary_wallet : List EmailWallet → Option Text
primary_wallet [] = none
primary_wallet (w ∷ wallets) = if w.is_primary then some w.address else primary_wallet wallets

pub address_of : List EmailWallet → Text
unfolding primary_wallet
address_of [] = zero_address
address_of (w ∷ wallets) = elim (primary_wallet (w ∷ wallets)) [ none ↦ w.address | some a ↦ a ]

abbrev pub reviewer_roles : List AppAccessRole
reviewer_roles = admin ∷ kyb_operator ∷ reviewer ∷ []

unfoldable pub check_session : ReviewServices → (authorization : Option Text) → Handler Actor
check_session s authorization db =
    let answer = get_email_actor s.session authorization reviewer_roles db.profiles in
    (
      elim (answer.0) [
        | err e ↦ err (refused (session_status e))
        | ok actor ↦ ok (email_actor (address_of actor.wallets) actor.user_id actor.email)
      ],
      record db { profiles = answer.1 },
    )

unfoldable pub authorize_by :
    ReviewServices
    → (id : Text) (authorization : Option Text) → KybStatus
    → Option ReviewAuth
    → Handler Actor
unfolding check_signature use_nonce check_session
authorize_by s id authorization to_status none = check_session s authorization
authorize_by s id authorization to_status (some auth) = do
  address ← check_signature s id to_status auth
  use_nonce s address auth.nonce
  return (wallet_actor address)

unfoldable pub authorize :
    ReviewServices → (id : Text) (authorization : Option Text) → ReviewBody → Handler Actor
unfolding authorize_by
authorize s id authorization body = authorize_by s id authorization body.to_status body.auth

unfoldable pub read_application : (kyb_id : Text) → Handler Application
read_application kyb_id db = require (load kyb_id db.applications) (refused 404) db

-- An id is a uuid, which the database compares in lower case.
unfoldable pub fetch_application : ReviewServices → (id : Text) → Handler Application
unfolding read_application
fetch_application s id = do refuse_if s.fetch_fails 404; read_application (to_lower id)
