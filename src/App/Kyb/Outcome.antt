-- ===== src/App/Kyb/Outcome.antt =====
-- What a review of app/src/app/api/kyb/applications/[id]/review/route.ts has done when it says so.
use nextblock.Base.{
  Text, text_key, text_eqb_iff, ◌∷◌, Option, some, true, false, ◌≡◌, ◌↔◌, ap, subst, ◌∙◌, sym,
  arith, Option-cases, inl, inr, Result-cases, to_lower,
}
use nextblock.Base.Table.{load, load-save}
use nextblock.App.Kyb.{
  KybStatus, submitted, under_review, approved, rejected, needs_info, same_status,
  is_valid_transition,
}
use nextblock.App.Kyb.Access.{ReviewRequest}
use nextblock.App.Kyb.Database.{Application, Actor, Database, ReviewServices, reviewed}
use nextblock.App.Kyb.Review.{Pending, open_review, update_status, close_review, review, event_of}
use nextblock.App.Kyb.Grows.{open_review-Keeps, Grows}
use nextblock.App.Kyb.Refusals.{open_review-Refuses}
use nextblock.App.Kyb.Opened.{IsOpened, open_review-IsOpened}

-- What a review that is done has changed.
pub record IsDone (id : Text) (from to : KybStatus) (db db' : Database) : Type 0 where
  pub application : Application
  pub is_valid : is_valid_transition from to ≡ true
  pub before : load (to_lower id) db.applications ≡ some application
  pub status_before : application.status ≡ from
  pub after : load (to_lower id) db'.applications ≡ some (record application { status = to })
  pub actor : Actor
  pub note : Option Text
  pub event :
      db'.events
      ≡ record {
        application_id = to_lower id;
        actor = actor;
        from_status = from;
        to_status = to;
        note = note;
      }
        ∷ db.events

same_status_iff : (s t : KybStatus) → (same_status s t ≡ true) ↔ (s ≡ t)
unfolding same_status
same_status_iff submitted t = ground arith
same_status_iff under_review t = ground arith
same_status_iff approved t = ground arith
same_status_iff rejected t = ground arith
same_status_iff needs_info t = ground arith

-- What the answer of a finished review says of it.
close_review-reviewed :
    (s : ReviewServices) (p : Pending) (db : Database) {id : Text} {from to : KybStatus}
    → (close_review s p db).0 ≡ reviewed id from to
    → (p.id ≡ id)
      × (p.from_status ≡ from)
      × (p.to_status ≡ to)
      × (s.update_fails ≡ false)
      × (s.event_insert_fails ≡ false)
unfolding close_review
close_review-reviewed s p db e = ground arith

module _ (s : ReviewServices) (p : Pending) (db : Database) (updates : s.update_fails ≡ false)
    (appends : s.event_insert_fails ≡ false) where
  close_review-events : (close_review s p db).1.events ≡ event_of p ∷ db.events
  unfolding close_review update_status
  close_review-events = elim (Option-cases (load (to_lower p.id) db.applications)) [
    | inl e ↦ ground arith
    | inr (a, e) ↦ ground arith
  ]

  close_review-after :
      (a : Application)
      → load (to_lower p.id) db.applications ≡ some a
      → a.status ≡ p.from_status
      → load (to_lower p.id) (close_review s p db).1.applications
        ≡ some (record a { status = p.to_status })
  unfolding close_review update_status
  close_review-after a found from = ground (
    arith,
    same_status_iff a.status p.from_status,
    text_eqb_iff (to_lower p.id) (to_lower p.id),
    load-save (to_lower p.id) (to_lower p.id) (record a { status = p.to_status }) db.applications,
  )

closed-IsDone :
    (s : ReviewServices) (p : Pending) (db db' : Database) {id id' : Text} {from to : KybStatus}
    → IsOpened s id p db db'
    → Grows db db'
    → (close_review s p db').0 ≡ reviewed id' from to
    → (id' ≡ id) × IsDone id from to db (close_review s p db').1
closed-IsDone s p db db' {from} {to} o g e =
    let (named, from_is, to_is, updates, appends) = close_review-reviewed s p db' e in
    let last = (close_review s p db').1 in
    let found : load (to_lower p.id) db'.applications ≡ some o.application =
      ap (load (to_lower p.id)) g.same_applications ∙ o.found in
    (
      sym named ∙ o.same_id,
      subst (λ x. IsDone x from to db last) o.same_id
          (subst (λ x. IsDone p.id x to db last) from_is
            (subst (λ x. IsDone p.id p.from_status x db last) to_is
              (record {
                application = o.application;
                is_valid = o.is_valid;
                before = o.found;
                status_before = o.from;
                after = close_review-after s p db' updates appends o.application found o.from;
                actor = p.actor;
                note = p.note;
                event =
                    close_review-events s p db' updates appends
                    ∙ ap (◌∷◌ (event_of p)) g.same_events;
              }))),
    )

-- Where nothing runs between the two parts of a review, an answer that the review is done is true:
-- the application was in the status that the answer names first, is now in the one that it names
-- last, which is a valid step, is unchanged otherwise, and one event that says so is appended.
pub review-IsDone :
    (s : ReviewServices) (r : ReviewRequest) (db : Database) {id : Text} {from to : KybStatus}
    → (review s r db).0 ≡ reviewed id from to
    → (id ≡ r.id) × IsDone r.id from to db (review s r db).1
unfolding review
review-IsDone s r db {id} {from} {to} e = elim (Result-cases (open_review s r db).0) [
  | inr (q, x) ↦
      let refused_one = (open_review-Refuses s r).at db q x in
      let same : q ≡ reviewed id from to = rw x at e in absurd (ground arith)
  | inl (p, x) ↦ rw x (
      closed-IsDone s p db (open_review s r db).1 (open_review-IsOpened s r db x)
        ((open_review-Keeps s r).at db) (rw x at e))
]
