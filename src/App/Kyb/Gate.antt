-- ===== src/App/Kyb/Gate.antt =====
-- The sanctions gate of the KYB review, under any interleaving of requests.
use nextblock.Base.{
  ℕ, Text, text_key, List, [], ◌∷◌, some, Bool, ◌≡◌, ap, subst, sym, ◌∙◌, All, arith, Option-cases,
  inl, inr, Result-cases, to_lower,
}
use mathlib.Core.Option.{some-injective}
use nextblock.Base.Table.{load, load-save}
use nextblock.App.Kyb.{approved}
use nextblock.App.Kyb.Access.{ReviewRequest}
use nextblock.App.Kyb.Database.{Application, Database, ReviewServices}
use nextblock.App.Kyb.Review.{Pending, open_review, close_review}
use nextblock.App.Kyb.Grows.{open_review-Keeps}
use nextblock.App.Kyb.Opened.{open_review-IsOpened}
use nextblock.App.Kyb.Closed.{close_review-runs, close_review-load, close_review-stays}
use nextblock.App.Kyb.Decided.{insert_application-kept}
use nextblock.App.Kyb.Cleared.{
  IsCleared, ApprovedAreCleared, IsServed, IsReady, IsScreened, Stays, Stays-IsCleared,
  Stays-AreReady, get_elem?-IsReady, without-AreReady,
}
use nextblock.App.Kyb.Interleaving.{
  World, Step, Submission, submit, begin, finish, new_application, insert_application, get_elem?,
  without, step, run,
}

insert_application-runs :
    (fails : Bool) (id : Text) (s : Submission) (db : Database)
    → (insert_application fails id s db).runs ≡ db.runs
unfolding insert_application
insert_application-runs fails id s db = elim (Option-cases (load id db.applications)) [
  | inl e ↦ ground arith
  | inr (a, e) ↦ ground arith
]

insert_application-load :
    (fails : Bool) (id : Text) (s : Submission) (db : Database) (kyb_id : Text) (a : Application)
    → load kyb_id (insert_application fails id s db).applications ≡ some a
    → a.status ≡ approved
    → load kyb_id db.applications ≡ some a
unfolding insert_application
insert_application-load fails id s db kyb_id a e approved_now =
    ground (arith, load-save kyb_id id (new_application s) db.applications)

module _ (P : ReviewServices → Type 0) where
  open_review-Stays :
      (s : ReviewServices) (r : ReviewRequest) (db : Database) → Stays P db (open_review s r db).1
  open_review-Stays s r db =
      let grown = (open_review-Keeps s r).at db in
      record {
        runs = grown.keeps_runs;
        row = λ kyb_id a e. (a.status, ap (load kyb_id) grown.same_applications ∙ e);
      }

  step_begin :
      (s : ReviewServices) (r : ReviewRequest) (w : World)
      → P s
      → IsScreened P w
      → IsScreened P (step (begin s r) w)
  unfolding step
  step_begin s r w served h =
      let grown = (open_review-Keeps s r).at w.db in
      let stays = open_review-Stays s r w.db in
      record {
        rows = λ kyb_id a e k.
            Stays-IsCleared P kyb_id a stays
              (h.rows kyb_id a (ap (load kyb_id) (sym grown.same_applications) ∙ e) k);
        waiting = elim (Result-cases (open_review s r w.db).0) [
          | inl (p, e) ↦
              let o = open_review-IsOpened s r w.db e in
              rw e (
                (
                  o.is_valid,
                  (
                    o.application,
                    ap (load (to_lower p.id)) grown.same_applications ∙ o.found,
                    λ k.
                        let (name_clear, wallet_clear, recorded) = o.screened k in
                        ((s, served, name_clear), (s, served, wallet_clear), recorded),
                  ),
                ),
                Stays-AreReady P w.pending stays h.waiting,
              )
          | inr (x, e) ↦ rw e (Stays-AreReady P w.pending stays h.waiting)
        ];
      }

  step_submit :
      (fails : Bool) (id : Text) (s : Submission) (w : World)
      → IsScreened P w
      → IsScreened P (step (submit fails id s) w)
  unfolding step
  step_submit fails id s w h =
      let stays : Stays P w.db (insert_application fails id s w.db) = record {
        runs = λ kind kyb_id name e. rw (insert_application-runs fails id s w.db) e;
        row = λ kyb_id a e. (a.status, insert_application-kept fails id s w.db kyb_id a e);
      } in
      record {
        rows = λ kyb_id a e k.
            Stays-IsCleared P kyb_id a stays
              (h.rows kyb_id a (insert_application-load fails id s w.db kyb_id a e k) k);
        waiting = Stays-AreReady P w.pending stays h.waiting;
      }

  -- A row that the update moved on to approved is that of a review that was screened.
  close_review-IsCleared :
      (s : ReviewServices) (p : Pending) (db : Database) (kyb_id : Text) (a : Application)
      → ApprovedAreCleared P db
      → IsReady P db p
      → load kyb_id (close_review s p db).1.applications ≡ some a
      → a.status ≡ approved
      → IsCleared P kyb_id a db
  close_review-IsCleared s p db kyb_id a rows (valid_step, (c, there, cleared)) found k =
      elim (close_review-load s p db kyb_id a found) [
        | inl before ↦ rows kyb_id a before k
        | inr (b, is_id, is_b, from, to) ↦
            let c_is_b =
              some-injective _ _ (sym there ∙ ap (λ i. load i db.applications) is_id ∙ is_b) in
            let for_b : IsCleared P kyb_id b db =
              subst (λ i. IsCleared P i b db) is_id
                (subst (λ d. IsCleared P (to_lower p.id) d db) c_is_b
                  (cleared (sym (ap (λ (d : Application). d.status) to) ∙ k))) in
            subst (λ d. IsCleared P kyb_id d db) (sym to) for_b
      ]

  step_finish :
      (s : ReviewServices) (i : ℕ) (w : World) → IsScreened P w → IsScreened P (step (finish s i) w)
  unfolding step
  step_finish s i w h = elim (Option-cases (get_elem? w.pending i)) [
    | inl e ↦ rw e h
    | inr (p, e) ↦
        let stays : Stays P w.db (close_review s p w.db).1 = record {
          runs = λ kind kyb_id name r. rw (close_review-runs s p w.db) r;
          row = close_review-stays s p w.db;
        } in
        let ready = get_elem?-IsReady P w.db w.pending i h.waiting e in
        rw e (record {
          rows = λ kyb_id a found k.
              Stays-IsCleared P kyb_id a stays
                (close_review-IsCleared s p w.db kyb_id a h.rows ready found k);
          waiting =
              Stays-AreReady P (without w.pending i) stays
                (without-AreReady P w.db w.pending i h.waiting);
        })
  ]

  step-IsScreened : (e : Step) (w : World) → IsServed P e → IsScreened P w → IsScreened P (step e w)
  step-IsScreened (submit fails id s) w served h = step_submit fails id s w h
  step-IsScreened (begin s r) w served h = step_begin s r w served h
  step-IsScreened (finish s i) w served h = step_finish s i w h

  run-IsScreened :
      (steps : List Step) (w : World)
      → All (IsServed P) steps
      → IsScreened P w
      → IsScreened P (run steps w)
  unfolding run
  run-IsScreened [] w served h = h
  run-IsScreened (e ∷ steps) w (first, served) h =
      run-IsScreened steps (step e w) served (step-IsScreened e w first h)

  -- Let P hold of the services of every review of a history. From a database whose approved
  -- applications are cleared and with no review waiting, after any interleaving of submissions, reviews
  -- up to their update and updates, every approved application is cleared: the sanctions provider of
  -- services with P found its company name clear, in its country, the wallet provider of services with P
  -- found its wallet, in lower case, clear, and for each a clear run is on record under the id of the
  -- application and the name or address that was screened.
  pub run-ApprovedAreCleared :
      (steps : List Step) (db : Database)
      → All (IsServed P) steps
      → ApprovedAreCleared P db
      → ApprovedAreCleared P (run steps (record { db = db; pending = [] })).db
  run-ApprovedAreCleared steps db served h =
      (run-IsScreened steps _ served (record { rows = h; waiting = tt })).rows
