-- ===== src/App/Kyb/Opened.antt =====
-- What holds of a review of app/src/app/api/kyb/applications/[id]/review/route.ts that waits for its
-- update.
use nextblock.Base.{
  ℕ, Text, text_key, some, Bool, true, false, not, ◌≡◌, refl, ◌∙◌, sym, ap, subst, arith, ok,
  to_lower,
}
use nextblock.Base.Table.{Table, load}
use nextblock.App.Kyb.{
  KybStatus, submitted, under_review, approved, rejected, needs_info, is_valid_transition,
}
use nextblock.App.Kyb.Access.{
  ReviewBody, ReviewRequest, limit_requests, read_application, authorize, fetch_application,
}
use nextblock.App.Kyb.Database.{
  Application, Actor, Database, ReviewServices, refused, Handler, ◌>>=◌, return, refuse_if,
}
use nextblock.App.Kyb.Review.{
  screen_applicant, pending_of, review_application, review_body, open_review, Pending,
}
use nextblock.App.Kyb.Grows.{Keeps, keeps_rules, read_body-Keeps, authorize_by-Keeps}
use nextblock.App.Kyb.Screened.{
  FindsNameClear, FindsWalletClear, AreOnRecord, >>=-ok, require-ok, screen_applicant-clear,
}

-- A review that is not closed yet, opened in `db`, with `db'` after it.
pub record IsOpened (s : ReviewServices) (id : Text) (p : Pending) (db db' : Database)
    : Type 0 where
  pub same_id : p.id ≡ id
  pub application : Application
  pub found : load (to_lower p.id) db.applications ≡ some application
  pub from : application.status ≡ p.from_status
  pub is_valid : is_valid_transition p.from_status p.to_status ≡ true
  pub screened :
      p.to_status ≡ approved
      → FindsNameClear s application
        × FindsWalletClear s application
        × AreOnRecord (to_lower p.id) application db'

refuse_if-ok :
    (test : Bool) (status : ℕ) (db : Database)
    → (refuse_if test status db).0 ≡ ok tt
    → (test ≡ false) × ((refuse_if test status db).1 ≡ db)
unfolding refuse_if
refuse_if-ok true status db h = absurd (cc)
refuse_if-ok false status db h = (refl, refl)

fetch_application-ok :
    (s : ReviewServices) (id : Text) (db : Database) {a : Application}
    → (fetch_application s id db).0 ≡ ok a
    → (load (to_lower id) db.applications ≡ some a) × ((fetch_application s id db).1 ≡ db)
unfolding fetch_application read_application
fetch_application-ok s id db h =
    let (u, e, k, same) = >>=-ok (refuse_if s.fetch_fails 404) _ db h in
    let (passed, kept) = refuse_if-ok s.fetch_fails 404 db e in
    let (found, kept') = require-ok (load (to_lower id) _) (refused 404) _ k in
    (
      ap (λ (d : Database). load (to_lower id) d.applications) (sym kept) ∙ found,
      same ∙ kept' ∙ kept,
    )

screened_for :
    (s : ReviewServices) (kyb_id : Text) (to : KybStatus) (a : Application) (db : Database)
    → (screen_applicant s kyb_id to a db).0 ≡ ok tt
    → to ≡ approved
    → FindsNameClear s a
      × FindsWalletClear s a
      × AreOnRecord kyb_id a (screen_applicant s kyb_id to a db).1
screened_for s kyb_id approved a db h e = screen_applicant-clear s kyb_id a db h
screened_for s kyb_id submitted a db h e = absurd (cc)
screened_for s kyb_id under_review a db h e = absurd (cc)
screened_for s kyb_id rejected a db h e = absurd (cc)
screened_for s kyb_id needs_info a db h e = absurd (cc)

review_application-IsOpened :
    (s : ReviewServices) (id : Text) (body : ReviewBody) (actor : Actor) (a : Application)
    (db : Database) {p : Pending}
    → load (to_lower id) db.applications ≡ some a
    → (review_application s id body actor a db).0 ≡ ok p
    → IsOpened s id p db (review_application s id body actor a db).1
unfolding review_application return
review_application-IsOpened s id body actor a db {p} found h =
    let invalid = not (is_valid_transition a.status body.to_status) in
    let (u, passed, k, same) = >>=-ok (refuse_if invalid 422) _ db h in
    let valid_step = (refuse_if-ok invalid 422 db passed).0 in
    let (v, screened, k', same') =
      >>=-ok (screen_applicant s (to_lower id) body.to_status a) _ _ k in
    let p_is : pending_of id body actor a.status ≡ p = cc in
    subst (λ q. IsOpened s id q db (review_application s id body actor a db).1) p_is
      (record {
        same_id = refl;
        application = a;
        found = found;
        from = refl;
        is_valid = ground arith;
        screened =
            λ e. rw (same, same') (screened_for s (to_lower id) body.to_status a _ screened e);
      })

review_body-IsOpened :
    (s : ReviewServices) (id : Text) (body : ReviewBody) (actor : Actor) (db : Database)
    {p : Pending}
    → (review_body s id body actor db).0 ≡ ok p
    → IsOpened s id p db (review_body s id body actor db).1
unfolding review_body
review_body-IsOpened s id body actor db {p} h =
    let (a, fetched, k, same) = >>=-ok (fetch_application s id) _ db h in
    let (found, kept) = fetch_application-ok s id db fetched in
    let opened =
      review_application-IsOpened s id body actor a (fetch_application s id db).1
        (ap (λ (d : Database). load (to_lower id) d.applications) kept ∙ found) k in
    subst (λ d. IsOpened s id p d (review_body s id body actor db).1) kept
      (subst (λ d. IsOpened s id p (fetch_application s id db).1 d) (sym same) opened)

record Opens (s : ReviewServices) (id : Text) (m : Handler Pending) : Type 0 where
  at : (db : Database) (p : Pending) → (m db).0 ≡ ok p → IsOpened s id p db (m db).1

review_body-Opens :
    (s : ReviewServices) (id : Text) (body : ReviewBody) (actor : Actor)
    → Opens s id (review_body s id body actor)
review_body-Opens s id body actor = record { at = λ db p. review_body-IsOpened s id body actor db }

Opens-bind :
    {A : Type 0} {s : ReviewServices} {id : Text} {m : Handler A} {f : A → Handler Pending}
    → Keeps m
    → ((a : A) → Opens s id (f a))
    → Opens s id (m >>= f)
Opens-bind {s} {id} {m} {f} h k = record {
  at = λ db p e.
      let (a, done, last, same) = >>=-ok m f db e in
      let opened = (k a).at (m db).1 p last in
      subst (λ d. IsOpened s id p db d) (sym same)
        (record {
          same_id = opened.same_id;
          application = opened.application;
          found =
              ap (λ (t : Table Text Application). load (to_lower p.id) t)
                (sym ((h.at db).same_applications))
              ∙ opened.found;
          from = opened.from;
          is_valid = opened.is_valid;
          screened = opened.screened;
        });
}

open_review-Opens : (s : ReviewServices) (r : ReviewRequest) → Opens s r.id (open_review s r)
unfolding open_review limit_requests authorize
open_review-Opens s r =
    search (Opens-bind, keeps_rules, read_body-Keeps, authorize_by-Keeps, review_body-Opens) depth
      12

-- A review that waits for its update has found its application in a state from which the step is
-- valid, and if it is to approve, its screenings found the applicant clear and are on record.
pub open_review-IsOpened :
    (s : ReviewServices) (r : ReviewRequest) (db : Database) {p : Pending}
    → (open_review s r db).0 ≡ ok p
    → IsOpened s r.id p db (open_review s r db).1
open_review-IsOpened s r db {p} h = (open_review-Opens s r).at db p h
