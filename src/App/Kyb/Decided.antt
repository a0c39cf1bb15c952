-- ===== src/App/Kyb/Decided.antt =====
-- The decisions of the KYB review, under any interleaving of requests.
use nextblock.Base.{
  ℕ, zero, suc, Text, text_key, text_eqb_iff, List, [], ◌∷◌, some, Bool, true, ◌≡◌, refl, ap, subst,
  ◌∙◌, All, arith, Option-cases, inl, inr, Result-cases, false, to_lower,
}
use mathlib.Core.Option.{some-injective}
use nextblock.Base.Table.{load, load-save}
use nextblock.App.Kyb.{
  KybStatus, submitted, under_review, approved, rejected, needs_info, same_status,
  is_valid_transition,
}
use nextblock.App.Kyb.Database.{Application, Database, ReviewServices}
use nextblock.App.Kyb.Review.{Pending, open_review, update_status, close_review}
use nextblock.App.Kyb.Grows.{open_review-Keeps}
use nextblock.App.Kyb.Opened.{open_review-IsOpened}
use nextblock.App.Kyb.Interleaving.{
  World, Step, Submission, submit, begin, finish, new_application, insert_application, get_elem?,
  without, step, run,
}

abbrev pub is_decided : KybStatus → Bool
is_decided approved = true
is_decided rejected = true
is_decided _ = false

abbrev pub IsValidStep : Pending → Type 0
IsValidStep p = is_valid_transition p.from_status p.to_status ≡ true

-- No valid step leaves the status of a decided application.
no_step_from_decided :
    (status from to : KybStatus)
    → is_decided status ≡ true
    → is_valid_transition from to ≡ true
    → same_status status from ≡ false
unfolding is_valid_transition same_status
no_step_from_decided approved approved to d v = absurd (cc)
no_step_from_decided approved submitted to d v = refl
no_step_from_decided approved under_review to d v = refl
no_step_from_decided approved rejected to d v = absurd (cc)
no_step_from_decided approved needs_info to d v = refl
no_step_from_decided rejected approved to d v = absurd (cc)
no_step_from_decided rejected submitted to d v = refl
no_step_from_decided rejected under_review to d v = refl
no_step_from_decided rejected rejected to d v = absurd (cc)
no_step_from_decided rejected needs_info to d v = refl
no_step_from_decided _ from to d v = absurd (cc)

close_review-decided :
    (s : ReviewServices) (p : Pending) (db : Database) (kyb_id : Text) (a : Application)
    → IsValidStep p
    → load kyb_id db.applications ≡ some a
    → is_decided a.status ≡ true
    → load kyb_id (close_review s p db).1.applications ≡ some a
unfolding close_review update_status
close_review-decided s p db kyb_id a v e d =
    elim (Option-cases (load (to_lower p.id) db.applications)) [
      | inl none_there ↦ ground arith
      | inr (b, is_there) ↦ ground (
        arith,
        no_step_from_decided a.status p.from_status p.to_status d v,
        text_eqb_iff (to_lower p.id) kyb_id,
        load-save kyb_id (to_lower p.id) (record b { status = p.to_status }) db.applications,
      )
    ]

pub insert_application-kept :
    (fails : Bool) (id : Text) (s : Submission) (db : Database) (kyb_id : Text) (a : Application)
    → load kyb_id db.applications ≡ some a
    → load kyb_id (insert_application fails id s db).applications ≡ some a
unfolding insert_application
insert_application-kept fails id s db kyb_id a e =
    ground (arith, text_eqb_iff id kyb_id, load-save kyb_id id (new_application s) db.applications)

get_elem?-IsValidStep :
    (ps : List Pending) (i : ℕ) {p : Pending}
    → All IsValidStep ps
    → get_elem? ps i ≡ some p
    → IsValidStep p
get_elem?-IsValidStep [] i h e = cc
get_elem?-IsValidStep (q ∷ ps) zero h e = subst IsValidStep (some-injective _ _ e) h.0
get_elem?-IsValidStep (q ∷ ps) (suc i) h e = get_elem?-IsValidStep ps i h.1 e

without-AreValid : (ps : List Pending) (i : ℕ) → All IsValidStep ps → All IsValidStep (without ps i)
without-AreValid [] i h = tt
without-AreValid (q ∷ ps) zero h = h.1
without-AreValid (q ∷ ps) (suc i) h = (h.0, without-AreValid ps i h.1)

step-AreValid :
    (e : Step) (w : World) → All IsValidStep w.pending → All IsValidStep (step e w).pending
unfolding step
step-AreValid (submit fails id s) w h = h
step-AreValid (begin s r) w h = elim (Result-cases (open_review s r w.db).0) [
  | inl (p, e) ↦ rw e ((open_review-IsOpened s r w.db e).is_valid, h)
  | inr (x, e) ↦ rw e h
]
step-AreValid (finish s i) w h = elim (Option-cases (get_elem? w.pending i)) [
  | inl e ↦ rw e h
  | inr (p, e) ↦ rw e (without-AreValid w.pending i h)
]

step-decided :
    (e : Step) (w : World) (kyb_id : Text) (a : Application)
    → All IsValidStep w.pending
    → load kyb_id w.db.applications ≡ some a
    → is_decided a.status ≡ true
    → load kyb_id (step e w).db.applications ≡ some a
unfolding step
step-decided (submit fails id s) w kyb_id a v e d =
    insert_application-kept fails id s w.db kyb_id a e
step-decided (begin s r) w kyb_id a v e d =
    ap (load kyb_id) ((open_review-Keeps s r).at w.db).same_applications ∙ e
step-decided (finish s i) w kyb_id a v e d = elim (Option-cases (get_elem? w.pending i)) [
  | inl f ↦ rw f e
  | inr (p, f) ↦
      rw f (close_review-decided s p w.db kyb_id a (get_elem?-IsValidStep w.pending i v f) e d)
]

-- An application that is approved or rejected stays as it is, whatever submissions, reviews and
-- updates follow in whatever order, if each review that already waits for its update is a valid
-- step.
pub run-decided :
    (steps : List Step) (w : World) (kyb_id : Text) (a : Application)
    → All IsValidStep w.pending
    → load kyb_id w.db.applications ≡ some a
    → is_decided a.status ≡ true
    → load kyb_id (run steps w).db.applications ≡ some a
unfolding run
run-decided [] w kyb_id a v e d = e
run-decided (x ∷ steps) w kyb_id a v e d =
    run-decided steps (step x w) kyb_id a (step-AreValid x w v) (step-decided x w kyb_id a v e d) d
