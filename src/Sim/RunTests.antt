-- ===== src/Sim/RunTests.antt =====
-- The properties of the agents and the runner at concrete actions and runs.
use nextblock.Base.{
  ℕ, [], ◌∷◌, none, some, true, false, map, ok, sum_of, ◌≤◌, ◌≡◌, ◌↔◌, ◌⊎◌, refl, arith, ◌+◌, ◌*◌,
  ◌^◌,
}
use nextblock.Sim.Ledger.{Figures, share_price, one_bps, empty_state}
use nextblock.Base.Table.{load}
use nextblock.Sim.Guards.{
  assert_distinct_signers, signers_loop, permitted, base_sepolia, anvil, assert_writable_chain,
}
use nextblock.Sim.Rng.{make_rng, next_uint32}
use nextblock.Sim.Findings.{p0, some_severity}
use nextblock.Sim.Agents.{
  PlannedAction, revert, Agent, ProtocolState, usable_of, pick_weighted, pick_usable, pick_loop,
}
use nextblock.Sim.Agents.Choice.{IsChosen, weight_of, pick_weighted-IsChosen}
use nextblock.Sim.Outcomes.{succeeded, reverted, Place, grade_outcome}
use nextblock.Sim.Outcomes.Grades.{Meets, grade_outcome_iff}
use nextblock.Sim.Runner.{
  ChainClient, RunConfig, RunResult, Progress, run_loop, starting, result_of, run_scenario,
  assert_endpoint_agrees, grade_shadow, signer_of,
}
use nextblock.Sim.Runner.Halting.{allowing}
use nextblock.Sim.Runner.Runs.{run_scenario-IsBounded, run_scenario-IsGuarded}
use nextblock.Sim.Runner.Shadow.{grade_shadow_iff}

abbrev expected : Figures
expected = record { balance = 1000; total_shares = 800; share_price = 1000000 }

abbrev pause : ℕ → PlannedAction
pause weight = record {
  contract = 48 ∷ [];
  function_name = 112 ∷ [];
  args = [];
  expect = revert (78 ∷ []);
  weight = weight;
  intent = 112 ∷ [];
}

one_pick : (pick_weighted (pause 0 ∷ pause 3 ∷ []) (make_rng 7)).0 ≡ some (pause 3)
unfolding pick_weighted pick_usable usable_of pick_loop
one_pick = ground arith

small_weights : sum_of weight_of (usable_of (pause 0 ∷ pause 3 ∷ [])) ≤ 2 ^ 21
unfolding usable_of
small_weights = ground arith

pick_weighted-IsChosen_example :
    ((next_uint32 (make_rng 7)).0 * sum_of weight_of (usable_of (pause 0 ∷ pause 3 ∷ [])) ≤ 2 ^ 53)
    × IsChosen
        ((next_uint32 (make_rng 7)).0 * sum_of weight_of (usable_of (pause 0 ∷ pause 3 ∷ [])))
        (usable_of (pause 0 ∷ pause 3 ∷ []))
        (pause 3)
pick_weighted-IsChosen_example =
    pick_weighted-IsChosen (pause 0 ∷ pause 3 ∷ []) (make_rng 7) (pause 3) small_weights one_pick

abbrev place : Place
place = record { seed = 115 ∷ []; index = 4; scenario = 83 ∷ [] }

grade_outcome_iff_example :
    (grade_outcome (65 ∷ []) (pause 3) (reverted (88 ∷ 78 ∷ []) none) place ≡ [])
    ↔ Meets (pause 3).expect (reverted (88 ∷ 78 ∷ []) none)
grade_outcome_iff_example =
    grade_outcome_iff (65 ∷ []) (pause 3) (reverted (88 ∷ 78 ∷ []) none) place

-- A chain that counts what is sent to it, and lets every action through.
abbrev quiet : ℕ → ProtocolState
quiet w = record {
  block_timestamp = w;
  vaults = [];
  portfolios = record { submitted = []; under_review = []; approved = []; active = [] };
  claims = record { pending = []; approved = [] };
  portfolio_cedant = [];
  accounting = [];
  oracle_fresh = [];
}

abbrev permissive : ChainClient ℕ
permissive = record {
  get_chain_id = λ w. 31337;
  read_state = quiet;
  send = λ from action w. (succeeded (49 ∷ []), w + 1);
  read_accounting = λ vault w. expected;
}

abbrev prober : Agent
prober = record {
  id = 65 ∷ [];
  role = none;
  address = 48 ∷ 120 ∷ 65 ∷ [];
  plan = λ state rng. (pause 3 ∷ [], rng);
  local_invariants = λ before after. [];
}

abbrev three_rounds : RunConfig
three_rounds = record {
  scenario = 83 ∷ [];
  seed = 115 ∷ [];
  chain_id = 31337;
  agents = prober ∷ [];
  tracked_vault = 48 ∷ [];
  max_actions = 3;
  shadow = empty_state;
}

anvil_IsWritable : assert_writable_chain 31337 ≡ ok tt
unfolding assert_writable_chain permitted
anvil_IsWritable = refl

permissive_IsAgreeing : assert_endpoint_agrees permissive 31337 0 ≡ ok tt
unfolding assert_endpoint_agrees
permissive_IsAgreeing = anvil_IsWritable

prober_IsDistinct : assert_distinct_signers (map signer_of (prober ∷ [])) ≡ ok tt
unfolding assert_distinct_signers signers_loop load
prober_IsDistinct = refl

run_scenario-IsBounded_example :
    (q : Progress ℕ) × (run_loop permissive three_rounds 3 (starting three_rounds 0) ≡ ok q)
    × (run_scenario permissive [] three_rounds 0 ≡ ok (result_of [] three_rounds q))
    × (q.attempted ≤ 3)
    × (q.halted_early ≡ some_severity p0 q.findings)
    × (((q.halted_early ≡ false) × (q.index ≡ 3))
        ⊎ ((q.halted_early ≡ true)
            × (run_scenario permissive [] (allowing permissive three_rounds 5) 0
                ≡ ok (result_of [] three_rounds q))))
run_scenario-IsBounded_example =
    run_scenario-IsBounded permissive three_rounds [] 0 5 anvil_IsWritable permissive_IsAgreeing
      prober_IsDistinct (omega arith)

three_rounds_run : (r : RunResult × ℕ) × (run_scenario permissive [] three_rounds 0 ≡ ok r)
three_rounds_run =
    let bounded =
      run_scenario-IsBounded permissive three_rounds [] 0 0 anvil_IsWritable permissive_IsAgreeing
        prober_IsDistinct (omega arith) in
    (result_of [] three_rounds bounded.0, bounded.2)

run_scenario-IsGuarded_example :
    ((permissive.get_chain_id 0 ≡ base_sepolia) ⊎ (permissive.get_chain_id 0 ≡ anvil))
    × (three_rounds.chain_id ≡ permissive.get_chain_id 0)
    × (assert_distinct_signers (map signer_of three_rounds.agents) ≡ ok tt)
run_scenario-IsGuarded_example =
    run_scenario-IsGuarded permissive three_rounds [] 0 three_rounds_run.0 three_rounds_run.1

grade_shadow_iff_example :
    ((empty_state.balance ≡ expected.balance)
      × (empty_state.total_shares ≡ expected.total_shares)
      × (share_price empty_state 5 18 ≤ expected.share_price + one_bps)
      × (expected.share_price ≤ share_price empty_state 5 18 + one_bps))
    ↔ (some_severity p0 (grade_shadow permissive three_rounds place 5) ≡ false)
grade_shadow_iff_example = grade_shadow_iff permissive three_rounds place 5
