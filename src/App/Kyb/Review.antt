-- ===== src/App/Kyb/Review.antt =====
-- app/src/app/api/kyb/applications/[id]/review/route.ts: the review of an application, in two parts.
-- `open_review` is the handler up to the update of the row, and `close_review` the update and what
-- follows: between the two, which wait for the database, other requests may run.
use nextblock.Base.{
  ℕ, Text, text_key, List, [], ◌∷◌, ◌++◌, Option, none, some, Bool, not, length, to_lower, to_upper,
  take, if◌then◌else◌, Result, ok, err, map,
}
use nextblock.Base.Table.{load, save}
use nextblock.App.Screening.{
  SanctionsScreeningResult, SanctionsResultCode, SanctionsMatch, SanctionsProvider,
  get_sanctions_provider, screen,
}
use nextblock.App.Screening
use nextblock.App.Screening.Wallets
use nextblock.App.Screening.Wallets.{
  WalletScreeningResult, WalletScreeningMatch, WalletRiskCode, get_wallet_screening_provider,
  screen_wallet,
}
use nextblock.App.Kyb.{KybStatus, approved, same_status, is_valid_transition}
use nextblock.App.Kyb.Access.{
  ReviewRequest, ReviewBody, is_application_id, limit_requests, read_body, authorize,
  fetch_application,
}
use nextblock.App.Kyb.Database.{
  Application, entity, wallet, RunCode, clear_run, match_run, error_run, ScreeningRun, MatchRow,
  Actor, ReviewEvent, Database, ReviewServices, Reply, refused, sanctions_match,
  wallet_sanctions_match, threw, reviewed, Handler, ◌>>=◌, ◌>>◌, return, reply, require, refuse_if,
}

abbrev pub run_code : SanctionsResultCode → RunCode
run_code Screening.clear = clear_run
run_code Screening.match = match_run
run_code Screening.error = error_run

abbrev pub wallet_run_code : WalletRiskCode → RunCode
wallet_run_code Wallets.clear = clear_run
wallet_run_code Wallets.match = match_run
wallet_run_code Wallets.error = error_run

-- Appends the run, and gives its place in the table as its id.
unfoldable pub insert_run : (fails : Bool) → ScreeningRun → Handler ℕ
insert_run fails run db =
    if fails
    then (err (refused 502), db)
    else (ok (length db.runs), record db { runs = run ∷ db.runs })

unfoldable pub insert_matches : (fails : Bool) → List MatchRow → Handler (Unit {0})
insert_matches fails rows db =
    if fails then (err (refused 502), db) else (ok tt, record db { matches = rows ++ db.matches })

-- What follows the run: an error, a match or neither.
unfoldable pub after_run : RunCode → (fails : Bool) → List MatchRow → Reply → Handler (Unit {0})
unfolding insert_matches
after_run error_run fails rows found = reply (refused 502)
after_run match_run fails [] found = return tt
after_run match_run fails (row ∷ rows) found = insert_matches fails (row ∷ rows) >> reply found
after_run clear_run fails rows found = return tt

abbrev pub country_of : Option Text → Option Text
country_of none = none
country_of (some jurisdiction) = some (to_upper (take 2 jurisdiction))

abbrev pub name_run : (kyb_id : Text) → Application → SanctionsScreeningResult → ScreeningRun
name_run kyb_id application result = record {
  application_id = kyb_id;
  subject_kind = entity;
  subject_name = application.company_name;
  subject_country = country_of application.jurisdiction;
  provider = result.provider;
  result_code = run_code result.result_code;
  match_count = length result.matches;
}

abbrev pub match_row : (run_id : ℕ) (kyb_id : Text) → SanctionsMatch → MatchRow
match_row run_id kyb_id m = record {
  run_id = run_id;
  application_id = kyb_id;
  provider_match_id = m.provider_match_id;
  matched_name = m.matched_name;
  sanctions_list = m.sanctions_list;
  match_score = m.match_score;
}

unfoldable pub record_name_screening :
    ReviewServices → (kyb_id : Text) → Application → SanctionsScreeningResult → Handler (Unit {0})
unfolding insert_run after_run
record_name_screening s kyb_id application result = do
  run_id ← insert_run s.run_insert_fails (name_run kyb_id application result)
  after_run (run_code result.result_code) s.match_insert_fails
      (map (match_row run_id kyb_id) result.matches) (sanctions_match (length result.matches))

unfoldable pub screen_name : ReviewServices → (kyb_id : Text) → Application → Handler (Unit {0})
unfolding record_name_screening
screen_name s kyb_id application = do
  provider ← require (get_sanctions_provider s.provider_env) (refused 503)
  record_name_screening s kyb_id application (
      screen provider s.now application.company_name (country_of application.jurisdiction) s.search)

abbrev pub wallet_run : (kyb_id address : Text) → WalletScreeningResult → ScreeningRun
wallet_run kyb_id address result = record {
  application_id = kyb_id;
  subject_kind = wallet;
  subject_name = address;
  subject_country = none;
  provider = result.provider;
  result_code = wallet_run_code result.result_code;
  match_count = length result.matches;
}

abbrev pub wallet_match_row : (run_id : ℕ) (kyb_id address : Text) → WalletScreeningMatch → MatchRow
wallet_match_row run_id kyb_id address m = record {
  run_id = run_id;
  application_id = kyb_id;
  provider_match_id = m.provider_match_id;
  matched_name = address;
  sanctions_list = m.category;
  match_score = m.score;
}

unfoldable pub record_wallet_screening :
    ReviewServices → (kyb_id address : Text) → WalletScreeningResult → Handler (Unit {0})
unfolding insert_run after_run
record_wallet_screening s kyb_id address result = do
  run_id ← insert_run s.wallet_run_insert_fails (wallet_run kyb_id address result)
  after_run (wallet_run_code result.result_code) s.wallet_match_insert_fails
      (map (wallet_match_row run_id kyb_id address) result.matches)
      (wallet_sanctions_match (length result.matches))

unfoldable pub screen_address : ReviewServices → (kyb_id address : Text) → Handler (Unit {0})
unfolding record_wallet_screening
screen_address s kyb_id address = do
  provider ← require (get_wallet_screening_provider s.wallet_env) (refused 503)
  result ← require (screen_wallet provider address) threw
  record_wallet_screening s kyb_id address result

-- The gate before an approval.
unfoldable pub screen_applicant :
    ReviewServices → (kyb_id : Text) → KybStatus → Application → Handler (Unit {0})
unfolding screen_name screen_address
screen_applicant s kyb_id approved application = do
  screen_name s kyb_id application
  screen_address s kyb_id (to_lower application.wallet_address)
screen_applicant s kyb_id _ application = return tt

-- A review between the read of its row and the update.
pub record Pending : Type 0 where
  pub id : Text
  pub actor : Actor
  pub from_status : KybStatus
  pub to_status : KybStatus
  pub note : Option Text

abbrev pub pending_of : (id : Text) → ReviewBody → Actor → (from : KybStatus) → Pending
pending_of id body actor from = record {
  id = id;
  actor = actor;
  from_status = from;
  to_status = body.to_status;
  note = body.note;
}

unfoldable pub review_application :
    ReviewServices → (id : Text) → ReviewBody → Actor → Application → Handler Pending
unfolding screen_applicant
review_application s id body actor application = do
  refuse_if (not (is_valid_transition application.status body.to_status)) 422
  screen_applicant s (to_lower id) body.to_status application
  return (pending_of id body actor application.status)

unfoldable pub review_body : ReviewServices → (id : Text) → ReviewBody → Actor → Handler Pending
unfolding review_application
review_body s id body actor = do
  application ← fetch_application s id
  review_application s id body actor application

unfoldable pub open_review : ReviewServices → ReviewRequest → Handler Pending
unfolding review_body
open_review s r = do
  refuse_if (not s.has_client) 503
  limit_requests s
  refuse_if (not (is_application_id r.id)) 400
  body ← read_body r.body
  actor ← authorize s r.id r.authorization body
  review_body s r.id body actor

-- `.update({ status }).eq('id', id).eq('status', fromStatus)`: no row is no error.
unfoldable pub update_status : (kyb_id : Text) (from to : KybStatus) → Database → Database
update_status kyb_id from to db = elim (load kyb_id db.applications) [
  | none ↦ db
  | some application ↦
      if same_status application.status from
      then record db {
        applications = save kyb_id (record application { status = to }) db.applications;
      }
      else db
]

abbrev pub event_of : Pending → ReviewEvent
event_of p = record {
  application_id = to_lower p.id;
  actor = p.actor;
  from_status = p.from_status;
  to_status = p.to_status;
  note = p.note;
}

unfoldable pub close_review : ReviewServices → Pending → Database → Reply × Database
unfolding update_status
close_review s p db =
    if s.update_fails
    then (refused 502, db)
    else let db' = update_status (to_lower p.id) p.from_status p.to_status db in
      if s.event_insert_fails then (refused 500, db') else (
        reviewed p.id p.from_status p.to_status,
        record db' { events = event_of p ∷ db'.events },
      )

-- The handler with nothing in between.
abbrev pub close_opened : ReviewServices → Result Reply Pending → Database → Reply × Database
close_opened s (err e) db = (e, db)
close_opened s (ok p) db = close_review s p db

unfoldable pub review : ReviewServices → ReviewRequest → Database → Reply × Database
unfolding open_review close_review
review s r db = let opened = open_review s r db in close_opened s opened.0 opened.1
