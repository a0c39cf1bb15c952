-- ===== src/App/Kyb/Interleaving.antt =====
-- Requests to the KYB API as interleaved steps: an application is submitted
-- (app/src/app/api/kyb/applications/route.ts), a review waits for its update, and a waiting review
-- goes on.
use nextblock.Base.{
  ℕ, zero, suc, Text, text_key, List, [], ◌∷◌, Option, none, some, Bool, Result, ok, err,
  if◌then◌else◌,
}
use nextblock.Base.Table.{load, save}
use nextblock.App.Kyb.{submitted}
use nextblock.App.Kyb.Access.{ReviewRequest}
use nextblock.App.Kyb.Database.{Application, Database, ReviewServices, Reply}
use nextblock.App.Kyb.Review.{Pending, open_review, close_review}

pub record World : Type 0 where
  pub db : Database
  pub pending : List Pending

-- What an applicant sends, of what the review reads.
pub record Submission : Type 0 where
  pub company_name : Text
  pub jurisdiction : Text
  pub wallet_address : Text

pub data Step : Type 0 where
  -- `id` is the uuid that the database draws; `fails` says that it answers with an error.
  submit : (fails : Bool) (id : Text) → Submission → Step
  begin : ReviewServices → ReviewRequest → Step
  finish : ReviewServices → (index : ℕ) → Step

abbrev pub new_application : Submission → Application
new_application s = record {
  status = submitted;
  company_name = s.company_name;
  jurisdiction = some s.jurisdiction;
  wallet_address = s.wallet_address;
}

unfoldable pub insert_application : (fails : Bool) (id : Text) → Submission → Database → Database
insert_application fails id s db = if fails then db else elim (load id db.applications) [
  | none ↦ record db { applications = save id (new_application s) db.applications }
  | some application ↦ db
]

abbrev pub get_elem? : List Pending → ℕ → Option Pending
get_elem? [] i = none
get_elem? (p ∷ ps) zero = some p
get_elem? (p ∷ ps) (suc i) = get_elem? ps i

abbrev pub without : List Pending → ℕ → List Pending
without [] i = []
without (p ∷ ps) zero = ps
without (p ∷ ps) (suc i) = p ∷ without ps i

abbrev pub opened : Result Reply Pending → List Pending → List Pending
opened (ok p) ps = p ∷ ps
opened (err e) ps = ps

abbrev pub finish_at : ReviewServices → ℕ → Option Pending → World → World
finish_at s i none w = w
finish_at s i (some p) w = record { db = (close_review s p w.db).1; pending = without w.pending i }

unfoldable pub step : Step → World → World
step (submit fails id s) w = record w { db = insert_application fails id s w.db }
step (begin s r) w = record {
  db = (open_review s r w.db).1;
  pending = opened (open_review s r w.db).0 w.pending;
}
step (finish s i) w = finish_at s i (get_elem? w.pending i) w

unfoldable pub run : List Step → World → World
unfolding step
run [] w = w
run (e ∷ steps) w = run steps (step e w)
