-- ===== src/App/Kyb/Cleared.antt =====
-- What the KYB gate promises of an approved application, and what keeps it.
use nextblock.Base.{
  ℕ, zero, suc, Text, text_key, List, [], ◌∷◌, some, true, ◌≡◌, subst, All, to_lower,
}
use mathlib.Core.Option.{some-injective}
use nextblock.Base.Table.{load}
use nextblock.App.Kyb.{KybStatus, approved, is_valid_transition}
use nextblock.App.Kyb.Database.{Application, SubjectKind, entity, wallet, Database, ReviewServices}
use nextblock.App.Kyb.Review.{Pending}
use nextblock.App.Kyb.Grows.{has_clear_run}
use nextblock.App.Kyb.Screened.{FindsNameClear, FindsWalletClear, AreOnRecord}
use nextblock.App.Kyb.Interleaving.{World, Step, submit, begin, finish, get_elem?, without}

module _ (P : ReviewServices → Type 0) where
  -- An application was screened with services of the kind P, which found its name and its wallet clear,
  -- and both results are on record.
  abbrev pub IsCleared : (kyb_id : Text) → Application → Database → Type 0
  IsCleared kyb_id a db =
      ((s : ReviewServices) × P s × FindsNameClear s a)
      × ((s : ReviewServices) × P s × FindsWalletClear s a)
      × AreOnRecord kyb_id a db

  abbrev pub ApprovedAreCleared : Database → Type 0
  ApprovedAreCleared db =
      (kyb_id : Text) (a : Application)
      → load kyb_id db.applications ≡ some a
      → a.status ≡ approved
      → IsCleared kyb_id a db

  -- A step is served by services of the kind P.
  abbrev pub IsServed : Step → Type 0
  IsServed (submit fails id s) = Unit
  IsServed (begin s r) = P s
  IsServed (finish s i) = Unit

  -- A waiting review is a valid step for a row that is there, and may approve only what is cleared.
  abbrev pub IsReady : Database → Pending → Type 0
  IsReady db p =
      (is_valid_transition p.from_status p.to_status ≡ true)
      × ((a : Application) × (load (to_lower p.id) db.applications ≡ some a)
          × (p.to_status ≡ approved → IsCleared (to_lower p.id) a db))

  pub record IsScreened (w : World) : Type 0 where
    pub rows : ApprovedAreCleared w.db
    pub waiting : All (IsReady w.db) w.pending

  -- The screenings on record stay so, and the rows stay but for their status.
  pub record Stays (db db' : Database) : Type 0 where
    pub runs :
        (kind : SubjectKind) (kyb_id name : Text)
        → has_clear_run kind kyb_id name db.runs ≡ true
        → has_clear_run kind kyb_id name db'.runs ≡ true
    pub row :
        (kyb_id : Text) (a : Application)
        → load kyb_id db.applications ≡ some a
        → (status : KybStatus) × (load kyb_id db'.applications
            ≡ some (record a { status = status }))

  pub Stays-IsCleared :
      {db db' : Database} (kyb_id : Text) (a : Application)
      → Stays db db'
      → IsCleared kyb_id a db
      → IsCleared kyb_id a db'
  Stays-IsCleared kyb_id a g (name, wallet_, recorded) = (
    name,
    wallet_,
    (
      g.runs entity kyb_id a.company_name recorded.0,
      g.runs wallet kyb_id (to_lower a.wallet_address) recorded.1,
    ),
  )

  pub Stays-AreReady :
      {db db' : Database} (ps : List Pending)
      → Stays db db'
      → All (IsReady db) ps
      → All (IsReady db') ps
  Stays-AreReady [] g h = tt
  Stays-AreReady (p ∷ ps) g ((valid_step, (a, found, cleared)), rest) =
      let (status, stays) = g.row (to_lower p.id) a found in
      (
        (
          valid_step,
          (
            record a { status = status },
            stays,
            λ e. Stays-IsCleared (to_lower p.id) a g (cleared e),
          ),
        ),
        Stays-AreReady ps g rest,
      )

  pub get_elem?-IsReady :
      (db : Database) (ps : List Pending) (i : ℕ) {p : Pending}
      → All (IsReady db) ps
      → get_elem? ps i ≡ some p
      → IsReady db p
  get_elem?-IsReady db [] i h e = cc
  get_elem?-IsReady db (q ∷ ps) zero h e = subst (IsReady db) (some-injective _ _ e) h.0
  get_elem?-IsReady db (q ∷ ps) (suc i) h e = get_elem?-IsReady db ps i h.1 e

  pub without-AreReady :
      (db : Database) (ps : List Pending) (i : ℕ)
      → All (IsReady db) ps
      → All (IsReady db) (without ps i)
  without-AreReady db [] i h = tt
  without-AreReady db (q ∷ ps) zero h = h.1
  without-AreReady db (q ∷ ps) (suc i) h = (h.0, without-AreReady db ps i h.1)
