-- ===== src/App/Kyb/Tests.antt =====
-- The KYB review at a concrete application, with the mock providers and a wallet's signature.
use nextblock.Base.{
  Text, codes, text_key, List, [], ◌∷◌, none, some, true, false, ◌≡◌, ◌↔◌, refl, arith,
}
use nextblock.Base.Table.{load}
use nextblock.App.Nonces.Stored.{consume_stored}
use nextblock.App.Session.{SessionServices}
use nextblock.App.Screening.{
  network_error, response, Payload, get_sanctions_provider, screen, mock_screen, comply_screen,
  clear,
}
use nextblock.App.Screening.Codes.{IsAnswer, HasNoHit, comply_screen-clear_iff}
use nextblock.App.Screening.Wallets.{
  get_wallet_screening_provider, screen_wallet, mock_wallet_screen,
}
use nextblock.App.Kyb.{
  KybStatus, under_review, approved, is_valid_transition, is_timestamp_within_window,
}
use nextblock.App.Kyb.Auth.{Chain, verify_operator_auth}
use nextblock.App.Kyb.Access.{
  ReviewRequest, valid, is_application_id, limit_requests, read_body, authorize, fetch_application,
}
use nextblock.App.Kyb.Database.{
  Application, Database, ReviewServices, reviewed, ◌>>=◌, return, reply, require, refuse_if,
}
use nextblock.App.Kyb.Review.{open_review, close_review, review}
use nextblock.App.Kyb.Interleaving.{Step, begin, finish, run}
use nextblock.App.Kyb.Cleared.{ApprovedAreCleared}
use nextblock.App.Kyb.Gate.{run-ApprovedAreCleared}
use nextblock.App.Kyb.Decided.{run-decided}
use nextblock.App.Kyb.Outcome.{IsDone, review-IsDone}

abbrev chain : Chain
chain = record {
  verify_message = λ address message signature. true;
  has_roles = λ address. some (true, false);
}

abbrev session : SessionServices
session = record {
  has_clients = true;
  get_user = λ token. none;
  profile_lookup_fails = false;
  provisioning_fails = false;
  role_rows = λ id. none;
  wallet_rows = λ id. none;
}

abbrev services : ReviewServices
services = record {
  has_client = true;
  limited = some true;
  now = 5000;
  now_seconds = 5;
  chain = chain;
  nonce_store_fails = false;
  session = session;
  fetch_fails = false;
  provider_env = record { sanctions_provider = none; comply_advantage_api_key = none };
  search = λ name country. network_error;
  wallet_env = record { wallet_screening_provider = none; wallet_screening_api_key = none };
  run_insert_fails = false;
  match_insert_fails = false;
  wallet_run_insert_fails = false;
  wallet_match_insert_fails = false;
  update_fails = false;
  event_insert_fails = false;
}

abbrev the_id : Text
the_id = codes "00000000-0000-4000-8000-00000000000a"

abbrev approve : ReviewRequest
approve = record {
  id = the_id;
  authorization = none;
  body = valid (record {
    to_status = approved;
    note = none;
    auth = some (record {
      address = codes "0xab";
      timestamp = 3;
      nonce = codes "77";
      signature = codes "0x1";
    });
  });
}

abbrev application : KybStatus → Application
application status = record {
  status = status;
  company_name = codes "Alpha Re";
  jurisdiction = some (codes "Italy");
  wallet_address = codes "0xC0FFEE";
}

abbrev db_with : KybStatus → Database
db_with status = record {
  applications = (the_id, application status) ∷ [];
  runs = [];
  matches = [];
  events = [];
  nonces =
      record {
        operator_address = codes "0xab";
        nonce = codes "77";
        expires_at = 9000;
        consumed_at = none;
      }
      ∷ [];
  profiles = [];
}

review_approves :
    (review services approve (db_with under_review)).0 ≡ reviewed the_id under_review approved
unfolding review open_review close_review limit_requests is_application_id read_body authorize
    fetch_application ◌>>=◌ return reply require refuse_if consume_stored verify_operator_auth
    is_timestamp_within_window get_sanctions_provider screen mock_screen
    get_wallet_screening_provider screen_wallet mock_wallet_screen is_valid_transition load
review_approves = refl

review-IsDone_example :
    (the_id ≡ the_id)
    × IsDone the_id under_review approved
        (db_with under_review)
        (review services approve (db_with under_review)).1
review-IsDone_example = review-IsDone services approve (db_with under_review) review_approves

-- Two reviews of one application that are open at once.
abbrev script : List Step
script =
    begin services approve ∷ begin services approve ∷ finish services 1 ∷ finish services 0 ∷ []

-- The services of both reviews.
abbrev AreTheServices : ReviewServices → Type 0
AreTheServices s = s ≡ services

none_is_approved : ApprovedAreCleared AreTheServices (db_with under_review)
unfolding load
none_is_approved kyb_id a e k = absurd (ground arith)

run-ApprovedAreCleared_example :
    ApprovedAreCleared AreTheServices
      (run script (record { db = db_with under_review; pending = [] })).db
run-ApprovedAreCleared_example =
    run-ApprovedAreCleared AreTheServices script (db_with under_review)
      (refl, (refl, (tt, (tt, tt)))) none_is_approved

approved_is_there : load the_id (db_with approved).applications ≡ some (application approved)
unfolding load
approved_is_there = refl

run-decided_example :
    load the_id (run script (record { db = db_with approved; pending = [] })).db.applications
    ≡ some (application approved)
run-decided_example =
    run-decided script (record { db = db_with approved; pending = [] }) the_id
      (application approved) tt approved_is_there refl

abbrev no_hits : Payload
no_hits = record { id = some (codes "s-1"); hits = some [] }

comply_screen-clear_iff_example :
    ((comply_screen (response 200 (some no_hits))).result_code ≡ clear)
    ↔ ((p : Payload) × IsAnswer (response 200 (some no_hits)) p × HasNoHit p)
comply_screen-clear_iff_example = comply_screen-clear_iff (response 200 (some no_hits))
