-- ===== src/App/Kyb/Screened.antt =====
-- What a review that is about to approve has on record: a screening of the name and one of the
-- wallet that found the application clear.
use nextblock.Base.{
  ℕ, Text, text_eqb_iff, List, [], ◌∷◌, Option, none, some, Bool, true, ◌≡◌, ◌≢◌, refl, inl, inr,
  Result-cases, arith, ok, to_lower, map, length,
}
use nextblock.App.Screening
use nextblock.App.Screening.{
  SanctionsScreeningResult, SanctionsResultCode, SanctionsMatch, SanctionsProvider,
  get_sanctions_provider, screen,
}
use nextblock.App.Screening.Codes.{screen-match, screen_wallet-match}
use nextblock.App.Screening.Wallets
use nextblock.App.Screening.Wallets.{
  WalletScreeningResult, WalletScreeningMatch, WalletRiskCode, WalletScreeningProvider,
  get_wallet_screening_provider, screen_wallet,
}
use nextblock.App.Kyb.{approved}
use nextblock.App.Kyb.Database.{
  Application, SubjectKind, entity, wallet, RunCode, clear_run, match_run, error_run, ScreeningRun,
  MatchRow, Database, ReviewServices, Reply, refused, sanctions_match, wallet_sanctions_match,
  threw, Handler, rest, ◌>>=◌, return, reply, require,
}
use nextblock.App.Kyb.Review.{
  country_of, name_run, wallet_run, run_code, wallet_run_code, match_row, wallet_match_row,
  insert_run, insert_matches, after_run, record_name_screening, screen_name,
  record_wallet_screening, screen_address, screen_applicant,
}
use nextblock.App.Kyb.Grows.{same_kind, has_clear_run, after_run-Keeps, screen_address-Keeps}

-- A part that goes on after another has gone on after it.
pub >>=-ok :
    {A B : Type 0} (m : Handler A) (f : A → Handler B) (db : Database) {b : B}
    → ((m >>= f) db).0 ≡ ok b
    → (a : A) × ((m db).0 ≡ ok a)
      × ((f a (m db).1).0 ≡ ok b)
      × (((m >>= f) db).1 ≡ (f a (m db).1).1)
unfolding ◌>>=◌ rest
>>=-ok m f db h = elim (Result-cases (m db).0) [
  | inl (a, e) ↦ (a, e, ground arith, ground arith)
  | inr (r, e) ↦ absurd (ground arith)
]

same_kind_refl : (kind : SubjectKind) → same_kind kind kind ≡ true
same_kind_refl entity = refl
same_kind_refl wallet = refl

-- The steps after a run go on only past a run without an error or a match.
after_run-ok :
    (code : RunCode) (fails : Bool) (rows : List MatchRow) (found : Reply) (db : Database)
    → (after_run code fails rows found db).0 ≡ ok tt
    → (code ≡ match_run → rows ≢ [])
    → code ≡ clear_run
unfolding after_run reply return
after_run-ok clear_run fails rows found db h some_match = refl
after_run-ok match_run fails [] found db h some_match = absurd (some_match refl refl)
after_run-ok match_run fails (row ∷ rows) found db h some_match =
    let (u, e, k, same) = >>=-ok (insert_matches fails (row ∷ rows)) (λ v. reply found) db h in
    absurd (cc)
after_run-ok error_run fails rows found db h some_match = absurd (cc)

insert_run-clear :
    (fails : Bool) (run : ScreeningRun) (db : Database) {id : ℕ}
    → (insert_run fails run db).0 ≡ ok id
    → run.result_code ≡ clear_run
    → has_clear_run run.subject_kind run.application_id run.subject_name
        (insert_run fails run db).1.runs
      ≡ true
unfolding insert_run
insert_run-clear fails run db e clear = ground (
  arith,
  text_eqb_iff run.application_id run.application_id,
  text_eqb_iff run.subject_name run.subject_name,
  same_kind_refl run.subject_kind,
)

-- A run that is stored and gone past is on record as clear.
module _ (fails_run fails_matches : Bool) (run : ScreeningRun) (rows : ℕ → List MatchRow)
    (found : Reply) (db : Database) where
  abbrev recording : Handler (Unit {0})
  recording =
      insert_run fails_run run >>= λ id. after_run run.result_code fails_matches (rows id) found

  recording-clear :
      (recording db).0 ≡ ok tt
      → ((id : ℕ) → run.result_code ≡ match_run → rows id ≢ [])
      → (run.result_code ≡ clear_run)
        × (has_clear_run run.subject_kind run.application_id run.subject_name (recording db).1.runs
            ≡ true)
  recording-clear h some_match =
      let (id, e, k, same) = >>=-ok (insert_run fails_run run) _ db h in
      let clear = after_run-ok run.result_code fails_matches (rows id) found _ k (some_match id) in
      let grown =
        (after_run-Keeps run.result_code fails_matches (rows id) found).at
          (insert_run fails_run run db).1 in
      (
        clear,
        rw same (
            grown.keeps_runs run.subject_kind run.application_id run.subject_name
              (insert_run-clear fails_run run db e clear)),
      )

map-ne-nil : {A B : Type 0} (f : A → B) (xs : List A) → xs ≢ [] → map f xs ≢ []
map-ne-nil f [] h e = h refl
map-ne-nil f (x ∷ xs) h e = cc

run_code-match : (c : SanctionsResultCode) → run_code c ≡ match_run → c ≡ Screening.match
run_code-match Screening.clear h = cc
run_code-match Screening.match h = refl
run_code-match Screening.error h = cc

run_code-clear : (c : SanctionsResultCode) → run_code c ≡ clear_run → c ≡ Screening.clear
run_code-clear Screening.clear h = refl
run_code-clear Screening.match h = cc
run_code-clear Screening.error h = cc

wallet_run_code-clear : (c : WalletRiskCode) → wallet_run_code c ≡ clear_run → c ≡ Wallets.clear
wallet_run_code-clear Wallets.clear h = refl
wallet_run_code-clear Wallets.match h = cc
wallet_run_code-clear Wallets.error h = cc

wallet_run_code-match : (c : WalletRiskCode) → wallet_run_code c ≡ match_run → c ≡ Wallets.match
wallet_run_code-match Wallets.clear h = cc
wallet_run_code-match Wallets.match h = refl
wallet_run_code-match Wallets.error h = cc

pub require-ok :
    {A : Type 0} (o : Option A) (r : Reply) (db : Database) {a : A}
    → (require o r db).0 ≡ ok a
    → (o ≡ some a) × ((require o r db).1 ≡ db)
unfolding require
require-ok none r db h = absurd (cc)
require-ok (some a) r db h = (cc, refl)

-- The provider of these services found the name of the applicant clear.
abbrev pub FindsNameClear : ReviewServices → Application → Type 0
FindsNameClear s a =
    (p : SanctionsProvider) × (get_sanctions_provider s.provider_env ≡ some p)
    × ((screen p s.now a.company_name (country_of a.jurisdiction) s.search).result_code
        ≡ Screening.clear)

-- Their wallet provider found the applicant's wallet, in lower case, clear.
abbrev pub FindsWalletClear : ReviewServices → Application → Type 0
FindsWalletClear s a =
    (p : WalletScreeningProvider) × (r : WalletScreeningResult) × (get_wallet_screening_provider
        s.wallet_env
      ≡ some p)
    × (screen_wallet p (to_lower a.wallet_address) ≡ some r)
    × (r.result_code ≡ Wallets.clear)

-- Both results are on record, each under what was screened.
abbrev pub AreOnRecord : (kyb_id : Text) → Application → Database → Type 0
AreOnRecord kyb_id a db =
    (has_clear_run entity kyb_id a.company_name db.runs ≡ true)
    × (has_clear_run wallet kyb_id (to_lower a.wallet_address) db.runs ≡ true)

screen_name-clear :
    (s : ReviewServices) (kyb_id : Text) (a : Application) (db : Database)
    → (screen_name s kyb_id a db).0 ≡ ok tt
    → FindsNameClear s a
      × (has_clear_run entity kyb_id a.company_name (screen_name s kyb_id a db).1.runs ≡ true)
unfolding screen_name record_name_screening
screen_name-clear s kyb_id a db h =
    let (p, e, k, same) =
      >>=-ok (require (get_sanctions_provider s.provider_env) (refused 503)) _ db h in
    let country = country_of a.jurisdiction in
    let r = screen p s.now a.company_name country s.search in
    let (clear, recorded) =
      recording-clear s.run_insert_fails s.match_insert_fails (name_run kyb_id a r)
        (λ run_id. map (match_row run_id kyb_id) r.matches) (sanctions_match (length r.matches)) _ k
        (λ run_id m. map-ne-nil (match_row run_id kyb_id) r.matches (
          screen-match p s.now a.company_name country s.search (run_code-match r.result_code m))) in
    (
      (
        p,
        (require-ok (get_sanctions_provider s.provider_env) (refused 503) db e).0,
        run_code-clear r.result_code clear,
      ),
      rw same recorded,
    )

screen_address-clear :
    (s : ReviewServices) (kyb_id : Text) (a : Application) (db : Database)
    → (screen_address s kyb_id (to_lower a.wallet_address) db).0 ≡ ok tt
    → FindsWalletClear s a
      × (has_clear_run wallet kyb_id
            (to_lower a.wallet_address)
            (screen_address s kyb_id (to_lower a.wallet_address) db).1.runs
          ≡ true)
unfolding screen_address record_wallet_screening
screen_address-clear s kyb_id a db h =
    let address = to_lower a.wallet_address in
    let (p, e, k, same) =
      >>=-ok (require (get_wallet_screening_provider s.wallet_env) (refused 503)) _ db h in
    let (r, e', k', same') = >>=-ok (require (screen_wallet p address) threw) _ _ k in
    let screened = (require-ok (screen_wallet p address) threw _ e').0 in
    let (clear, recorded) =
      recording-clear s.wallet_run_insert_fails s.wallet_match_insert_fails
        (wallet_run kyb_id address r)
        (λ run_id. map (wallet_match_row run_id kyb_id address) r.matches)
        (wallet_sanctions_match (length r.matches)) _ k'
        (λ run_id m.
          map-ne-nil (wallet_match_row run_id kyb_id address) r.matches
            (screen_wallet-match p address screened (wallet_run_code-match r.result_code m))) in
    (
      (
        p,
        r,
        (require-ok (get_wallet_screening_provider s.wallet_env) (refused 503) db e).0,
        screened,
        wallet_run_code-clear r.result_code clear,
      ),
      rw (same, same') recorded,
    )

pub screen_applicant-clear :
    (s : ReviewServices) (kyb_id : Text) (a : Application) (db : Database)
    → (screen_applicant s kyb_id approved a db).0 ≡ ok tt
    → FindsNameClear s a
      × FindsWalletClear s a
      × AreOnRecord kyb_id a (screen_applicant s kyb_id approved a db).1
unfolding screen_applicant
screen_applicant-clear s kyb_id a db h =
    let (u, e, k, same) = >>=-ok (screen_name s kyb_id a) _ db h in
    let after = (screen_name s kyb_id a db).1 in
    let (name_clear, name_recorded) = screen_name-clear s kyb_id a db e in
    let (wallet_clear, wallet_recorded) = screen_address-clear s kyb_id a after k in
    (
      name_clear,
      wallet_clear,
      rw same (
        ((screen_address-Keeps s kyb_id (to_lower a.wallet_address)).at after).keeps_runs entity
            kyb_id a.company_name name_recorded,
        wallet_recorded,
      ),
    )
