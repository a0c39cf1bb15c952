-- ===== src/App/Kyb/Database.antt =====
-- The tables that app/src/app/api/kyb/applications/[id]/review/route.ts reads and writes, the answers
-- of the services that it calls, and its replies. A flag `…_fails` says that the database answers a
-- query with an error. The newest row of a table of runs, matches or events comes first; the columns
-- kept for audit only are left out.
use nextblock.Base.{
  ℕ, Text, List, Option, none, some, Bool, text_key, Result, ok, err, if◌then◌else◌,
}
use nextblock.Base.Table.{Table}
use nextblock.App.Nonces.Stored.{NonceRow}
use nextblock.App.Session.{SessionServices, Profiles}
use nextblock.App.Screening.{ProviderEnv, Fetched}
use nextblock.App.Screening.Wallets.{WalletEnv}
use nextblock.App.Kyb.{KybStatus}
use nextblock.App.Kyb.Auth.{Chain}

pub record Application : Type 0 where
  pub status : KybStatus
  pub company_name : Text
  pub jurisdiction : Option Text
  pub wallet_address : Text

pub data SubjectKind : Type 0 where
  entity wallet : SubjectKind

-- Both providers' codes, in the column that both share.
pub data RunCode : Type 0 where
  clear_run match_run error_run : RunCode

pub record ScreeningRun : Type 0 where
  pub application_id : Text
  pub subject_kind : SubjectKind
  pub subject_name : Text
  pub subject_country : Option Text
  pub provider : Text
  pub result_code : RunCode
  pub match_count : ℕ

pub record MatchRow : Type 0 where
  pub run_id : ℕ
  pub application_id : Text
  pub provider_match_id : Text
  pub matched_name : Text
  pub sanctions_list : Text
  pub match_score : Option ℕ

pub data Actor : Type 0 where
  wallet_actor : (address : Text) → Actor
  email_actor : (address user_id email : Text) → Actor

pub record ReviewEvent : Type 0 where
  pub application_id : Text
  pub actor : Actor
  pub from_status : KybStatus
  pub to_status : KybStatus
  pub note : Option Text

pub record Database : Type 0 where
  pub applications : Table Text Application
  pub runs : List ScreeningRun
  pub matches : List MatchRow
  pub events : List ReviewEvent
  pub nonces : List NonceRow
  pub profiles : Profiles

pub record ReviewServices : Type 0 where
  pub has_client : Bool
  -- Whether the request is within the limit; `none` where the store throws.
  pub limited : Option Bool
  pub now : ℕ
  pub now_seconds : ℕ
  pub chain : Chain
  pub nonce_store_fails : Bool
  pub session : SessionServices
  pub fetch_fails : Bool
  pub provider_env : ProviderEnv
  -- What the sanctions service answers to a search for a name, in a country if there is one.
  pub search : Text → Option Text → Fetched
  pub wallet_env : WalletEnv
  pub run_insert_fails : Bool
  pub match_insert_fails : Bool
  pub wallet_run_insert_fails : Bool
  pub wallet_match_insert_fails : Bool
  pub update_fails : Bool
  pub event_insert_fails : Bool

pub data Reply : Type 0 where
  -- An answer with this status and the text of an error.
  refused : (status : ℕ) → Reply
  -- Status 422, with the number of matches.
  sanctions_match wallet_sanctions_match : (match_count : ℕ) → Reply
  -- An exception that the handler does not catch.
  threw : Reply
  reviewed : (id : Text) (from_status to_status : KybStatus) → Reply

-- A part of the handler: it goes on with a value, or it replies.
abbrev pub Handler : Type 0 → Type 0
Handler A = Database → Result Reply A × Database

-- The rest of the handler after a part that gave this result.
unfoldable pub rest : {A B : Type 0} → Result Reply A → (A → Handler B) → Handler B
rest (ok a) f db = f a db
rest (err r) f db = (err r, db)

infixl 5 ◌>>=◌ ◌>>◌
unfoldable pub ◌>>=◌ : {A B : Type 0} → Handler A → (A → Handler B) → Handler B
unfolding rest
◌>>=◌ m f db = rest (m db).0 f (m db).1

abbrev pub ◌>>◌ : {B : Type 0} → Handler (Unit {0}) → Handler B → Handler B
m >> k = m >>= λ _. k

unfoldable pub return : {A : Type 0} → A → Handler A
return a db = (ok a, db)

unfoldable pub reply : {A : Type 0} → Reply → Handler A
reply r db = (err r, db)

-- Replies where a value is missing.
unfoldable pub require : {A : Type 0} → Option A → Reply → Handler A
require none r db = (err r, db)
require (some a) r db = (ok a, db)

-- Refuses a request for which the test holds.
unfoldable pub refuse_if : Bool → (status : ℕ) → Handler (Unit {0})
refuse_if test status db = if test then (err (refused status), db) else (ok tt, db)
