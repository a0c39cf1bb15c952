-- ===== src/Indexer/Tests.antt =====
-- Runs of the subgraph handlers on small histories, and the theorems at such inputs.
use nextblock.Base.{ℕ, ◌+◌, ◌≡◌, refl, List, [], ◌∷◌, arith, All, sum_of}
use nextblock.Base.Int.{◌+ℤ◌}
use nextblock.Base.Keys.{number_key}
use nextblock.Base.Table.{load, AllRows}
use nextblock.Indexer.Log.{Meta, row_key}
use nextblock.Indexer.History.{HasDistinctIds, IsUnseen-empty}
use nextblock.Indexer.Entities.{Claim}
use nextblock.Indexer.Redemption
use nextblock.Indexer.Redemption.Conservation.{IsConserved}
use nextblock.Indexer.Redemption.Rows.{Reconciles, run-empty-Reconciles}
use nextblock.Indexer.Redemption.Settlement.{SettlesOnce, IsSettledSum, run-empty-IsSettledSum}
use nextblock.Indexer.Claims
use nextblock.Indexer.Claims.Records.{IsRecorded, run-IsRecorded}
use nextblock.Indexer.Claims.Machine.{status_in, status_after}
use nextblock.Indexer.Portfolios.{Submission, new_portfolio}
use nextblock.Indexer.Premiums
use nextblock.Indexer.Premiums.Rows.{HasGross, run-HasGross}
use nextblock.Indexer.Vaults
use nextblock.Indexer.Vaults.Rows.{IsReconciled, run-IsReconciled}
use nextblock.Indexer.Vaults.Reserves.{IsCovered, AreKnown, run-IsCovered}
use nextblock.Indexer.Graph
use nextblock.Indexer.Graph.ClaimStatus.{claim_events, status-run}
use nextblock.Indexer.Graph.Feed.{IsLogged, row_count, logged, run-empty-IsLogged}
use nextblock.Indexer.Graph.Interleaving.{run-empty-IsConserved_redemption}

-- The event with log index `i`, emitted by `address`.
abbrev at : ℕ → ℕ → Meta
at address i = record {
  address = address;
  tx_hash = 77;
  log_index = i;
  timestamp = 1000 + i;
  block_number = 9;
}

-- Two LPs ask to leave in epoch 3; it settles and one of them claims.
abbrev exits : List (Meta × Redemption.Event)
exits =
    (at 5 0, Redemption.redemption_requested 3 11 400)
    ∷ (at 5 1, Redemption.redemption_requested 3 12 600)
    ∷ (at 5 2, Redemption.epoch_settled 3 1000 950 10000)
    ∷ (at 5 3, Redemption.redemption_claimed 3 11 380 0)
    ∷ []

exits-HasDistinctIds : HasDistinctIds exits
exits-HasDistinctIds = ground arith

run-empty-Reconciles_example : Reconciles (Redemption.run exits Redemption.empty)
run-empty-Reconciles_example = run-empty-Reconciles exits exits-HasDistinctIds

exits-SettlesOnce : SettlesOnce exits
exits-SettlesOnce =
    (λ id h. absurd (cc), (λ id h. absurd (cc), (λ id h. (λ q. cc, tt), (λ id h. tt, tt))))

run-empty-IsSettledSum_example : IsSettledSum (Redemption.run exits Redemption.empty)
run-empty-IsSettledSum_example = run-empty-IsSettledSum exits exits-SettlesOnce

-- One claim: assessed, frozen, released, approved and paid.
abbrev submission : Claims.Submission
submission = record {
  claim_id = 8;
  portfolio_id = 2;
  vault = 21;
  claimant = 31;
  requested_amount = 500;
  claim_type = 0;
  evidence_hash = 99;
  challenge_deadline = 5000;
}

abbrev lifecycle : List (Meta × Claims.Event)
lifecycle =
    (at 6 0, Claims.claim_submitted submission)
    ∷ (at 6 1, Claims.claim_assessed 8 1 9000 10)
    ∷ (at 6 2, Claims.claim_frozen 8 41)
    ∷ (at 6 3, Claims.claim_unfrozen 8 41)
    ∷ (at 6 4, Claims.claim_approved 8 42 450 1)
    ∷ (at 6 5, Claims.claim_paid 8 31 450 2)
    ∷ []

abbrev no_claims : Claims.Store
no_claims = record { claims = []; feed = [] }

run-IsRecorded_example : AllRows IsRecorded (Claims.run lifecycle no_claims).claims
run-IsRecorded_example = run-IsRecorded lifecycle no_claims tt

abbrev open_claim : Claim
open_claim = Claims.new_claim 900 submission

-- Vault 21 takes a deposit, serves a withdrawal, and reserves and pays part of claim 8.
abbrev flows : List (Meta × Vaults.Event)
flows =
    (at 21 0, Vaults.deposit 51 51 1000 1000)
    ∷ (at 21 1, Vaults.withdraw 51 51 51 200 200)
    ∷ (at 21 2, Vaults.portfolio_claim_reserved 2 8 300)
    ∷ (at 21 3, Vaults.portfolio_claim_paid 2 8 31 100)
    ∷ []

abbrev one_claim : Vaults.Store
one_claim = record {
  vaults = [];
  deposits = [];
  withdrawals = [];
  portfolios = [];
  claims = (8, open_claim) ∷ [];
  feed = [];
}

flows-HasDistinctIds : HasDistinctIds flows
flows-HasDistinctIds = ground arith

run-IsReconciled_example : IsReconciled (Vaults.run flows one_claim)
unfolding load
run-IsReconciled_example =
    run-IsReconciled flows one_claim flows-HasDistinctIds (refl, (refl, (refl, (refl, tt))))
      (refl, (refl, (refl, (refl, tt))))
      (record {
        deposited = λ a. refl;
        deposit_counts = λ a. refl;
        withdrawn = λ a. refl;
        withdrawal_counts = λ a. refl;
      })

one_claim-IsCovered : IsCovered one_claim
unfolding load ◌+ℤ◌
one_claim-IsCovered a = ground arith

flows-AreKnown : AreKnown one_claim.claims flows
unfolding load
flows-AreKnown = (
  λ id h. absurd (cc),
  (
    λ id h. absurd (cc),
    (λ id h. (open_claim, ground arith, refl), (λ id h. (open_claim, ground arith, refl), tt)),
  ),
)

run-IsCovered_example : IsCovered (Vaults.run flows one_claim)
run-IsCovered_example = run-IsCovered flows one_claim flows-AreKnown one_claim-IsCovered

-- The same events in one history of the whole chain.
abbrev chain : List (Meta × Graph.Event)
chain =
    (at 6 0, Graph.claim (Claims.claim_submitted submission))
    ∷ (at 5 1, Graph.redemption (Redemption.redemption_requested 3 11 400))
    ∷ (at 21 2, Graph.vault (Vaults.deposit 51 51 1000 1000))
    ∷ (at 5 3, Graph.redemption (Redemption.redemption_claimed 3 11 380 0))
    ∷ []

chain-HasDistinctIds : HasDistinctIds chain
chain-HasDistinctIds = ground arith

run-empty-IsLogged_example :
    All (IsLogged (Graph.run chain Graph.empty).feed) chain
    × (row_count (Graph.run chain Graph.empty).feed ≡ sum_of logged chain)
run-empty-IsLogged_example = run-empty-IsLogged chain chain-HasDistinctIds

status-run_example :
    status_in (load 8 (Graph.run chain Graph.empty).claims)
    ≡ status_after 8 (claim_events chain) (status_in (load 8 Graph.empty.claims))
status-run_example = status-run 8 chain Graph.empty

run-empty-IsConserved_redemption_example : IsConserved (Graph.run chain Graph.empty).redemption
run-empty-IsConserved_redemption_example = run-empty-IsConserved_redemption chain

-- One portfolio, whose premium is received in two parts, and split.
abbrev ceded : Submission
ceded = record {
  portfolio_id = 2;
  cedant = 61;
  structure_type = 0;
  coverage_limit = 5000;
  ceded_premium = 300;
  inception_time = 1000;
  expiry_time = 2000;
}

abbrev one_portfolio : Premiums.Store
one_portfolio = record { flows = []; portfolios = (2, new_portfolio 1000 ceded) ∷ []; feed = [] }

abbrev premiums : List (Meta × Premiums.Event)
premiums =
    (at 7 0, Premiums.premium_received 2 61 100)
    ∷ (at 7 1, Premiums.premium_allocated 2 21 90)
    ∷ (at 7 2, Premiums.premium_received 2 61 200)
    ∷ []

one_portfolio-HasGross : HasGross one_portfolio
unfolding load
one_portfolio-HasGross p pf h = ground arith

premiums-HaveDistinctIds : HasDistinctIds premiums
premiums-HaveDistinctIds = ground arith

run-HasGross_example : HasGross (Premiums.run premiums one_portfolio)
run-HasGross_example =
    run-HasGross premiums one_portfolio premiums-HaveDistinctIds
      (IsUnseen-empty Premiums.PremiumFlow premiums) one_portfolio-HasGross
