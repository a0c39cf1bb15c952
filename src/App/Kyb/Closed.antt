-- ===== src/App/Kyb/Closed.antt =====
-- What the update at the end of app/src/app/api/kyb/applications/[id]/review/route.ts changes.
use nextblock.Base.{
  Text, text_key, text_eqb, text_eqb_iff, some, true, ◌≡◌, ◌⊎◌, ap, subst, sym, ◌∙◌, arith,
  Bool-cases, Option-cases, inl, inr, to_lower,
}
use mathlib.Core.Option.{some-injective}
use nextblock.Base.Table.{load, load-save}
use nextblock.App.Kyb.{KybStatus, same_status}
use nextblock.App.Kyb.Database.{Application, Database, ReviewServices}
use nextblock.App.Kyb.Review.{Pending, update_status, close_review}

pub close_review-runs :
    (s : ReviewServices) (p : Pending) (db : Database) → (close_review s p db).1.runs ≡ db.runs
unfolding close_review update_status
close_review-runs s p db = elim (Option-cases (load (to_lower p.id) db.applications)) [
  | inl e ↦ ground arith
  | inr (a, e) ↦ ground arith
]

-- The row after the update is the row before it, or that of a review that moved it on.
pub close_review-load :
    (s : ReviewServices) (p : Pending) (db : Database) (kyb_id : Text) (a : Application)
    → load kyb_id (close_review s p db).1.applications ≡ some a
    → (load kyb_id db.applications ≡ some a)
      ⊎ ((b : Application) × (to_lower p.id ≡ kyb_id)
          × (load kyb_id db.applications ≡ some b)
          × (same_status b.status p.from_status ≡ true)
          × (a ≡ record b { status = p.to_status }))
unfolding close_review update_status
close_review-load s p db kyb_id a e = elim (Option-cases (load (to_lower p.id) db.applications)) [
  | inl none_there ↦ inl (ground arith)
  | inr (b, is_there) ↦ elim (Bool-cases (text_eqb (to_lower p.id) kyb_id)) [
    | inr other ↦ inl (
        ground (
          arith,
          load-save kyb_id (to_lower p.id) (record b { status = p.to_status }) db.applications,
        ))
    | inl same ↦ elim (Bool-cases (same_status b.status p.from_status)) [
      | inr moved ↦ inl (ground arith)
      | inl from ↦ elim (Bool-cases s.update_fails) [
        | inl fails ↦ inl (ground arith)
        | inr done ↦
            let is_id = (text_eqb_iff (to_lower p.id) kyb_id).0 same in
            inr (
              b,
              is_id,
              ap (λ k. load k db.applications) (sym is_id) ∙ is_there,
              from,
              ground (
                arith,
                load-save kyb_id (to_lower p.id) (record b { status = p.to_status })
                    db.applications,
              ),
            )
      ]
    ]
  ]
]

update_status-stays :
    (id : Text) (from to : KybStatus) (db : Database) (kyb_id : Text) (a : Application)
    → load kyb_id db.applications ≡ some a
    → (status : KybStatus) × (load kyb_id (update_status id from to db).applications
        ≡ some (record a { status = status }))
unfolding update_status
update_status-stays id from to db kyb_id a e = elim (Option-cases (load id db.applications)) [
  | inl none_there ↦ (a.status, ground arith)
  | inr (b, is_there) ↦
      let saved = load-save kyb_id id (record b { status = to }) db.applications in
      elim (Bool-cases (same_status b.status from)) [
        | inr moved ↦ (a.status, ground arith)
        | inl is_from ↦ elim (Bool-cases (text_eqb id kyb_id)) [
          | inr other ↦ (a.status, ground (arith, saved))
          | inl same ↦
              let is_id = (text_eqb_iff id kyb_id).0 same in
              let b_is_a =
                some-injective _ _ (sym is_there ∙ ap (λ k. load k db.applications) is_id ∙ e) in
              (
                to,
                subst
                    (λ c.
                      load kyb_id (update_status id from to db).applications
                      ≡ some (record c { status = to }))
                    b_is_a (ground (arith, saved)),
              )
        ]
      ]
]

-- A row stays where it is, but for its status.
pub close_review-stays :
    (s : ReviewServices) (p : Pending) (db : Database) (kyb_id : Text) (a : Application)
    → load kyb_id db.applications ≡ some a
    → (status : KybStatus) × (load kyb_id (close_review s p db).1.applications
        ≡ some (record a { status = status }))
unfolding close_review
close_review-stays s p db kyb_id a e =
    let (status, stays) =
      update_status-stays (to_lower p.id) p.from_status p.to_status db kyb_id a e in
    elim (Bool-cases s.update_fails) [
      | inl fails ↦ (a.status, rw fails e)
      | inr done ↦ elim (Bool-cases s.event_insert_fails) [
        | inl fails ↦ (status, rw (done, fails) stays)
        | inr appended ↦ (status, rw (done, appended) stays)
      ]
    ]
