-- ===== src/App/Kyb/Grows.antt =====
-- What the parts of a review up to the update of its row leave alone: the applications, and the
-- screening runs that are there.
use nextblock.Base.{
  ℕ, Text, text_key, text_eqb, List, [], ◌∷◌, Option, none, some, Bool, true, false, ◌&&◌, ◌||◌,
  ◌≡◌, refl, ◌∙◌, inl, inr, Result-cases, arith, Result, ok, err,
}
use nextblock.Base.Table.{load}
use nextblock.App.Kyb.{KybStatus, submitted, under_review, approved, rejected, needs_info}
use nextblock.App.Kyb.Access.{
  ReviewRequest, ReviewBody, ReviewAuth, read_application, authorize_by, from_result, ParsedBody,
  no_json, invalid, valid, limit_requests, read_body, check_signature, use_nonce, check_session,
  authorize, fetch_application,
}
use nextblock.App.Kyb.Database.{
  Application, SubjectKind, entity, wallet, RunCode, clear_run, match_run, error_run, ScreeningRun,
  MatchRow, Actor, Database, ReviewServices, Reply, Handler, ◌>>=◌, return, reply, require,
  refuse_if, refused,
}
use nextblock.App.Kyb.Review.{
  insert_run, insert_matches, after_run, record_name_screening, screen_name,
  record_wallet_screening, screen_address, screen_applicant, review_application, review_body,
  open_review,
}

abbrev pub same_kind : SubjectKind → SubjectKind → Bool
same_kind entity entity = true
same_kind wallet wallet = true
same_kind _ _ = false

abbrev pub is_clear : RunCode → Bool
is_clear clear_run = true
is_clear match_run = false
is_clear error_run = false

-- Whether a screening of this kind and of this name found the application clear.
abbrev pub has_clear_run : SubjectKind → (kyb_id name : Text) → List ScreeningRun → Bool
has_clear_run kind kyb_id name [] = false
has_clear_run kind kyb_id name (run ∷ runs) =
    (same_kind run.subject_kind kind
      && (text_eqb run.application_id kyb_id
          && (text_eqb run.subject_name name && is_clear run.result_code)))
    || has_clear_run kind kyb_id name runs

pub record Grows (db db' : Database) : Type 0 where
  pub same_applications : db'.applications ≡ db.applications
  pub same_events : db'.events ≡ db.events
  pub keeps_runs :
      (kind : SubjectKind) (kyb_id name : Text)
      → has_clear_run kind kyb_id name db.runs ≡ true
      → has_clear_run kind kyb_id name db'.runs ≡ true

pub Grows-refl : (db : Database) → Grows db db
Grows-refl db = record {
  same_applications = refl;
  same_events = refl;
  keeps_runs = λ kind kyb_id name h. h;
}

pub Grows-trans : {db db' db'' : Database} → Grows db db' → Grows db' db'' → Grows db db''
Grows-trans g h = record {
  same_applications = h.same_applications ∙ g.same_applications;
  same_events = h.same_events ∙ g.same_events;
  keeps_runs =
      λ kind kyb_id name r. h.keeps_runs kind kyb_id name (g.keeps_runs kind kyb_id name r);
}

pub record Keeps {A : Type 0} (m : Handler A) : Type 0 where
  pub at : (db : Database) → Grows db (m db).1

pub Keeps-bind :
    {A B : Type 0} {m : Handler A} {f : A → Handler B}
    → Keeps m
    → ((a : A) → Keeps (f a))
    → Keeps (m >>= f)
unfolding ◌>>=◌
Keeps-bind {m} {f} h k = record {
  at = λ db. elim (Result-cases ((m db).0)) [
    | inl (a, e) ↦ rw e (Grows-trans (h.at db) ((k a).at (m db).1))
    | inr (r, e) ↦ rw e (h.at db)
  ];
}

pub return-Keeps : {A : Type 0} (a : A) → Keeps (return a)
unfolding return
return-Keeps a = record { at = Grows-refl }

pub reply-Keeps : {A : Type 0} (r : Reply) → Keeps (reply {A = A} r)
unfolding reply
reply-Keeps r = record { at = Grows-refl }

pub require-Keeps : {A : Type 0} (o : Option A) (r : Reply) → Keeps (require o r)
unfolding require
require-Keeps none r = record { at = Grows-refl }
require-Keeps (some a) r = record { at = Grows-refl }

pub refuse_if-Keeps : (test : Bool) (status : ℕ) → Keeps (refuse_if test status)
unfolding refuse_if
refuse_if-Keeps true status = record { at = Grows-refl }
refuse_if-Keeps false status = record { at = Grows-refl }

pub insert_run-Keeps : (fails : Bool) (run : ScreeningRun) → Keeps (insert_run fails run)
unfolding insert_run
insert_run-Keeps true run = record { at = Grows-refl }
insert_run-Keeps false run = record {
  at = λ db. record {
    same_applications = refl;
    same_events = refl;
    keeps_runs = λ kind kyb_id name h. ground arith;
  };
}

pub insert_matches-Keeps : (fails : Bool) (rows : List MatchRow) → Keeps (insert_matches fails rows)
unfolding insert_matches
insert_matches-Keeps true rows = record { at = Grows-refl }
insert_matches-Keeps false rows = record {
  at = λ db. record {
    same_applications = refl;
    same_events = refl;
    keeps_runs = λ kind kyb_id name h. h;
  };
}

pub use_nonce-Keeps :
    (s : ReviewServices) (address nonce : Text) → Keeps (use_nonce s address nonce)
unfolding use_nonce
use_nonce-Keeps s address nonce = record {
  at = λ db. record {
    same_applications = refl;
    same_events = refl;
    keeps_runs = λ kind kyb_id name h. h;
  };
}

pub check_session-Keeps :
    (s : ReviewServices) (authorization : Option Text) → Keeps (check_session s authorization)
unfolding check_session
check_session-Keeps s authorization = record {
  at = λ db. record {
    same_applications = refl;
    same_events = refl;
    keeps_runs = λ kind kyb_id name h. h;
  };
}

pub read_application-Keeps : (kyb_id : Text) → Keeps (read_application kyb_id)
unfolding read_application
read_application-Keeps kyb_id = record {
  at = λ db. (require-Keeps (load kyb_id db.applications) (refused 404)).at db;
}

pub ruleset keeps_rules = (
  Keeps-bind, return-Keeps, reply-Keeps, require-Keeps, refuse_if-Keeps, insert_run-Keeps,
  insert_matches-Keeps, use_nonce-Keeps, check_session-Keeps, read_application-Keeps,
)

pub after_run-Keeps :
    (code : RunCode) (fails : Bool) (rows : List MatchRow) (found : Reply)
    → Keeps (after_run code fails rows found)
unfolding after_run
after_run-Keeps error_run fails rows found = search keeps_rules
after_run-Keeps match_run fails [] found = search keeps_rules
after_run-Keeps match_run fails (row ∷ rows) found = search keeps_rules
after_run-Keeps clear_run fails rows found = search keeps_rules

pub screen_address-Keeps :
    (s : ReviewServices) (kyb_id address : Text) → Keeps (screen_address s kyb_id address)
unfolding screen_address record_wallet_screening
screen_address-Keeps s kyb_id address = search (keeps_rules, after_run-Keeps) depth 8

pub screen_applicant-Keeps :
    (s : ReviewServices) (kyb_id : Text) (to : KybStatus) (a : Application)
    → Keeps (screen_applicant s kyb_id to a)
unfolding screen_applicant screen_name record_name_screening
screen_applicant-Keeps s kyb_id approved a =
    search (keeps_rules, after_run-Keeps, screen_address-Keeps) depth 8
screen_applicant-Keeps s kyb_id submitted a = search keeps_rules
screen_applicant-Keeps s kyb_id under_review a = search keeps_rules
screen_applicant-Keeps s kyb_id rejected a = search keeps_rules
screen_applicant-Keeps s kyb_id needs_info a = search keeps_rules

from_result-Keeps : {E A : Type 0} (status : E → ℕ) (r : Result E A) → Keeps (from_result status r)
unfolding from_result
from_result-Keeps status (ok a) = search keeps_rules
from_result-Keeps status (err e) = search keeps_rules

pub authorize_by-Keeps :
    (s : ReviewServices) (id : Text) (authorization : Option Text) (to : KybStatus)
    (auth : Option ReviewAuth)
    → Keeps (authorize_by s id authorization to auth)
unfolding authorize_by check_signature
authorize_by-Keeps s id authorization to none = search keeps_rules
authorize_by-Keeps s id authorization to (some auth) = search (keeps_rules, from_result-Keeps)

pub read_body-Keeps : (body : ParsedBody) → Keeps (read_body body)
unfolding read_body
read_body-Keeps no_json = search keeps_rules
read_body-Keeps invalid = search keeps_rules
read_body-Keeps (valid body) = search keeps_rules

pub review_body-Keeps :
    (s : ReviewServices) (id : Text) (body : ReviewBody) (actor : Actor)
    → Keeps (review_body s id body actor)
unfolding review_body review_application fetch_application
review_body-Keeps s id body actor = search (keeps_rules, screen_applicant-Keeps)

-- A review that is not closed yet has changed no application and dropped no run.
pub open_review-Keeps : (s : ReviewServices) (r : ReviewRequest) → Keeps (open_review s r)
unfolding open_review limit_requests authorize
open_review-Keeps s r =
    search (keeps_rules, read_body-Keeps, authorize_by-Keeps, review_body-Keeps) depth 12
