-- ===== src/App/Kyb/Refusals.antt =====
-- No part of a review up to the update of its row answers that the review is done.
use nextblock.Base.{
  ℕ, Text, text_key, List, [], ◌∷◌, Option, none, some, Bool, true, false, ◌≡◌, refl, ap, ◌∙◌,
  arith, inl, inr, Result, ok, err, Result-cases,
}
use nextblock.Base.Table.{load}
use nextblock.App.Kyb.{KybStatus, submitted, under_review, approved, rejected, needs_info}
use nextblock.App.Kyb.Access.{
  ReviewRequest, ReviewBody, ParsedBody, no_json, invalid, valid, ReviewAuth, limit_requests,
  read_body, check_signature, use_nonce, check_session, authorize, authorize_by, from_result,
  fetch_application, read_application,
}
use nextblock.App.Kyb.Database.{
  Application, RunCode, clear_run, match_run, error_run, ScreeningRun, MatchRow, Actor, Database,
  ReviewServices, Reply, reviewed, refused, Handler, ◌>>=◌, rest, return, reply, require, refuse_if,
}
use nextblock.App.Kyb.Review.{
  insert_run, insert_matches, after_run, record_name_screening, screen_name,
  record_wallet_screening, screen_address, screen_applicant, review_application, review_body,
  open_review,
}

abbrev pub is_review : Reply → Bool
is_review (reviewed id from to) = true
is_review _ = false

-- A part that replies does not reply that the review is done.
pub record Refuses {A : Type 0} (m : Handler A) : Type 0 where
  pub at : (db : Database) (r : Reply) → (m db).0 ≡ err r → is_review r ≡ false

Refuses-bind :
    {A B : Type 0} {m : Handler A} {f : A → Handler B}
    → Refuses m
    → ((a : A) → Refuses (f a))
    → Refuses (m >>= f)
unfolding ◌>>=◌ rest
Refuses-bind {B} {m} {f} h k = record {
  at = λ db r e. elim (Result-cases ((m db).0)) [
    | inl (a, x) ↦ (k a).at (m db).1 r (rw x at e)
    | inr (q, x) ↦
        let replied : ◌≡◌ {A = Result Reply B} (err q) (err r) = rw x at e in
        let same : q ≡ r = cc in h.at db r (x ∙ ap err same)
  ];
}

return-Refuses : {A : Type 0} (a : A) → Refuses (return a)
unfolding return
return-Refuses a = record { at = λ db r e. absurd (cc) }

reply-Refuses : {A : Type 0} (r : Reply) → is_review r ≡ false → Refuses (reply {A = A} r)
unfolding reply
reply-Refuses r h = record { at = λ db q e. ground arith }

require-Refuses :
    {A : Type 0} (o : Option A) (r : Reply) → is_review r ≡ false → Refuses (require o r)
unfolding require
require-Refuses none r h = record { at = λ db q e. ground arith }
require-Refuses (some a) r h = record { at = λ db q e. absurd (cc) }

refuse_if-Refuses : (test : Bool) (status : ℕ) → Refuses (refuse_if test status)
unfolding refuse_if
refuse_if-Refuses true status = record { at = λ db q e. ground arith }
refuse_if-Refuses false status = record { at = λ db q e. absurd (cc) }

insert_run-Refuses : (fails : Bool) (run : ScreeningRun) → Refuses (insert_run fails run)
unfolding insert_run
insert_run-Refuses fails run = record { at = λ db q e. ground arith }

insert_matches-Refuses : (fails : Bool) (rows : List MatchRow) → Refuses (insert_matches fails rows)
unfolding insert_matches
insert_matches-Refuses fails rows = record { at = λ db q e. ground arith }

use_nonce-Refuses :
    (s : ReviewServices) (address nonce : Text) → Refuses (use_nonce s address nonce)
unfolding use_nonce
use_nonce-Refuses s address nonce = record { at = λ db q e. ground arith }

check_session-Refuses :
    (s : ReviewServices) (authorization : Option Text) → Refuses (check_session s authorization)
unfolding check_session
check_session-Refuses s authorization = record { at = λ db q e. ground arith }

read_application-Refuses : (kyb_id : Text) → Refuses (read_application kyb_id)
unfolding read_application
read_application-Refuses kyb_id = record {
  at = λ db r. (require-Refuses (load kyb_id db.applications) (refused 404) refl).at db r;
}

from_result-Refuses :
    {E A : Type 0} (status : E → ℕ) (r : Result E A) → Refuses (from_result status r)
unfolding from_result
from_result-Refuses status (ok a) = search (return-Refuses)
from_result-Refuses status (err e) = reply-Refuses _ refl

ruleset refusal_rules = (
  Refuses-bind, return-Refuses, reply-Refuses, require-Refuses, refuse_if-Refuses,
  insert_run-Refuses, insert_matches-Refuses, use_nonce-Refuses, check_session-Refuses,
  read_application-Refuses, from_result-Refuses,
)

after_run-Refuses :
    (code : RunCode) (fails : Bool) (rows : List MatchRow) (found : Reply)
    → is_review found ≡ false
    → Refuses (after_run code fails rows found)
unfolding after_run
after_run-Refuses error_run fails rows found h = search refusal_rules
after_run-Refuses match_run fails [] found h = search refusal_rules
after_run-Refuses match_run fails (row ∷ rows) found h = search refusal_rules
after_run-Refuses clear_run fails rows found h = search refusal_rules

screen_address-Refuses :
    (s : ReviewServices) (kyb_id address : Text) → Refuses (screen_address s kyb_id address)
unfolding screen_address record_wallet_screening
screen_address-Refuses s kyb_id address = search (refusal_rules, after_run-Refuses) depth 10

screen_applicant-Refuses :
    (s : ReviewServices) (kyb_id : Text) (to : KybStatus) (a : Application)
    → Refuses (screen_applicant s kyb_id to a)
unfolding screen_applicant screen_name record_name_screening
screen_applicant-Refuses s kyb_id approved a =
    search (refusal_rules, after_run-Refuses, screen_address-Refuses) depth 10
screen_applicant-Refuses s kyb_id submitted a = search refusal_rules
screen_applicant-Refuses s kyb_id under_review a = search refusal_rules
screen_applicant-Refuses s kyb_id rejected a = search refusal_rules
screen_applicant-Refuses s kyb_id needs_info a = search refusal_rules

authorize_by-Refuses :
    (s : ReviewServices) (id : Text) (authorization : Option Text) (to : KybStatus)
    (auth : Option ReviewAuth)
    → Refuses (authorize_by s id authorization to auth)
unfolding authorize_by check_signature
authorize_by-Refuses s id authorization to none = search refusal_rules
authorize_by-Refuses s id authorization to (some auth) = search refusal_rules

read_body-Refuses : (body : ParsedBody) → Refuses (read_body body)
unfolding read_body
read_body-Refuses no_json = search refusal_rules
read_body-Refuses invalid = search refusal_rules
read_body-Refuses (valid body) = search refusal_rules

review_body-Refuses :
    (s : ReviewServices) (id : Text) (body : ReviewBody) (actor : Actor)
    → Refuses (review_body s id body actor)
unfolding review_body review_application fetch_application
review_body-Refuses s id body actor = search (refusal_rules, screen_applicant-Refuses) depth 10

pub open_review-Refuses : (s : ReviewServices) (r : ReviewRequest) → Refuses (open_review s r)
unfolding open_review limit_requests authorize
open_review-Refuses s r =
    search (refusal_rules, read_body-Refuses, authorize_by-Refuses, review_body-Refuses) depth 12
