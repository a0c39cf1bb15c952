-- ===== src/Sim/Runner/Runs.antt =====
-- The loop of packages/sim/src/runner.ts: its bound, its end and when it stops early.
use nextblock.Base.{
  ℕ, zero, suc, ◌+◌, ◌≤◌, ◌<◌, Text, map, length, ok, err, ◌≡◌, ◌≢◌, ◌⊎◌, inl, inr, refl, arith,
  true, false, Bool-cases, Option-cases, Result-cases, ok_of_never-err,
}
use nextblock.Sim.Guards.{
  base_sepolia, anvil, production_chains, permitted, assert_writable_chain, assert_distinct_signers,
}
use nextblock.Sim.Rng.{Rng, int}
use nextblock.Sim.Findings.{p0, some_severity}
use nextblock.Sim.Agents.{Agent, PlannedAction, ProtocolState, pick_weighted}
use nextblock.Sim.Runner.Halting.{allowing, run_loop-halts}
use nextblock.Sim.Runner.Rounds.{run_loop-rounds}
use nextblock.Sim.Runner.{
  ChainClient, RunConfig, RunError, Progress, Turn, breaks, goes_on, agent_at, draw_index, act,
  plan_round, round, run_loop, run_scenario, RunResult, starting, result_of, signer_of,
  assert_endpoint_agrees,
}

-- Where a round leaves the run.
abbrev left_by : {W : Type 0} → Turn W → Progress W
left_by (breaks q) = q
left_by (goes_on q) = q

-- A run is marked as halted exactly when a finding of the first grade is there.
abbrev IsMarked : {W : Type 0} → Progress W → Type 0
IsMarked p = p.halted_early ≡ some_severity p0 p.findings

module _ {W : Type 0} (client : ChainClient W) (config : RunConfig) where
  act-marks :
      (agent : Agent) (action : PlannedAction) (before : ProtocolState) (rng : Rng) (p : Progress W)
      → IsMarked (left_by (act client config agent action before rng p))
        × ((left_by (act client config agent action before rng p)).attempted ≡ p.attempted + 1)
  unfolding act
  act-marks agent action before rng p = ground arith

  plan_round-marks :
      (agent : Agent) (rng : Rng) (p : Progress W)
      → IsMarked p
      → IsMarked (left_by (plan_round client config agent rng p))
        × ((left_by (plan_round client config agent rng p)).attempted ≤ p.attempted + 1)
  unfolding plan_round
  plan_round-marks agent rng p h =
      let planned = agent.plan (client.read_state p.world) rng in
      let picked = pick_weighted planned.0 planned.1 in
      elim (Option-cases picked.0) [
        | inl e ↦ ground arith
        | inr (action, e) ↦
            ground (arith, act-marks agent action (client.read_state p.world) picked.1 p)
      ]

  round-marks :
      (p : Progress W) (turn : Turn W)
      → IsMarked p
      → round client config p ≡ ok turn
      → IsMarked (left_by turn) × ((left_by turn).attempted ≤ p.attempted + 1)
  unfolding round
  round-marks p turn h e = elim (Result-cases (draw_index (length config.agents) p.rng)) [
    | inr (x, d) ↦ ground arith
    | inl ((i, rng), d) ↦ elim (Option-cases (agent_at config.agents i)) [
      | inl none_at ↦ ground arith
      | inr (agent, at) ↦ ground (arith, plan_round-marks agent rng p h)
    ]
  ]

  run_loop-marks :
      (left : ℕ) (p q : Progress W)
      → IsMarked p
      → run_loop client config left p ≡ ok q
      → IsMarked q × (q.attempted ≤ p.attempted + left)
  unfolding run_loop
  run_loop-marks zero p q h e = ground arith
  run_loop-marks (suc left) p q h e = elim (Result-cases (round client config p)) [
    | inr (x, r) ↦ ground arith
    | inl (breaks t, r) ↦ ground (arith, round-marks p (breaks t) h r)
    | inl (goes_on t, r) ↦ ground (arith, round-marks p (goes_on t) h r, run_loop-marks left t q)
  ]

  draw_index-never-err : (n : ℕ) (rng : Rng) (e : RunError) → 0 < n → draw_index n rng ≢ err e
  unfolding draw_index int
  draw_index-never-err zero rng e h = ground arith
  draw_index-never-err (suc n) rng e h = ground arith

  round-never-err :
      (p : Progress W) (e : RunError) → 0 < length config.agents → round client config p ≢ err e
  unfolding round
  round-never-err p e h = elim (Result-cases (draw_index (length config.agents) p.rng)) [
    | inr (x, d) ↦ ground (arith, draw_index-never-err (length config.agents) p.rng x h)
    | inl ((i, rng), d) ↦ elim (Option-cases (agent_at config.agents i)) [
      | inl none_at ↦ ground arith
      | inr (agent, at) ↦ ground arith
    ]
  ]

  run_loop-never-err :
      (left : ℕ) (p : Progress W) (e : RunError)
      → 0 < length config.agents
      → run_loop client config left p ≢ err e
  unfolding run_loop
  run_loop-never-err zero p e h = ground arith
  run_loop-never-err (suc left) p e h = elim (Result-cases (round client config p)) [
    | inr (x, r) ↦ ground (arith, round-never-err p x h)
    | inl (breaks t, r) ↦ ground arith
    | inl (goes_on t, r) ↦ ground (arith, run_loop-never-err left t e h)
  ]

  -- Where the three guards pass and there is an agent, the loop ends and the run gives its result. It
  -- attempts at most `maxActions` actions and is marked as halted early exactly when one of its
  -- findings is of the first grade. A run that is not so marked has gone through `maxActions` rounds,
  -- and one that is has stopped: with any number of actions more allowed it gives the same result and
  -- leaves the same world.
  pub run_scenario-IsBounded :
      (now : Text) (w : W) (more : ℕ)
      → assert_writable_chain config.chain_id ≡ ok tt
      → assert_endpoint_agrees client config.chain_id w ≡ ok tt
      → assert_distinct_signers (map signer_of config.agents) ≡ ok tt
      → 0 < length config.agents
      → (q : Progress W) × (run_loop client config config.max_actions (starting config w) ≡ ok q)
        × (run_scenario client now config w ≡ ok (result_of now config q))
        × (q.attempted ≤ config.max_actions)
        × (q.halted_early ≡ some_severity p0 q.findings)
        × (((q.halted_early ≡ false) × (q.index ≡ config.max_actions))
            ⊎ ((q.halted_early ≡ true)
                × (run_scenario client now (allowing client config more) w
                    ≡ ok (result_of now config q))))
  unfolding run_scenario
  run_scenario-IsBounded now w more writable agrees distinct h =
      let p = starting config w in
      let (q, e) =
        ok_of_never-err (run_loop client config config.max_actions p)
          (λ x. run_loop-never-err config.max_actions p x h) in
      let marks = run_loop-marks config.max_actions p q refl e in
      (
        q,
        e,
        ground arith,
        omega (arith, marks.1),
        marks.0,
        elim (Bool-cases q.halted_early) [
          | inr going ↦
              inl
                (going, omega (arith, run_loop-rounds client config config.max_actions p q e going))
          | inl halted ↦
              let longer =
                run_loop-halts client config config.max_actions more more p q refl e halted in
              inr (halted, ground (arith, longer))
        ],
      )

  assert_writable_chain_ok :
      (chain_id : ℕ)
      → assert_writable_chain chain_id ≡ ok tt
      → (chain_id ≡ base_sepolia) ⊎ (chain_id ≡ anvil)
  unfolding assert_writable_chain permitted
  assert_writable_chain_ok chain_id h = elim (Option-cases (production_chains chain_id)) [
    | inl e ↦ ground arith
    | inr (named, e) ↦ ground arith
  ]

  -- A run that gives a result was on a chain of the allowlist, the one that the endpoint reports, with
  -- signers that the guard holds distinct.
  pub run_scenario-IsGuarded :
      (now : Text) (w : W) (r : RunResult × W)
      → run_scenario client now config w ≡ ok r
      → ((client.get_chain_id w ≡ base_sepolia) ⊎ (client.get_chain_id w ≡ anvil))
        × (config.chain_id ≡ client.get_chain_id w)
        × (assert_distinct_signers (map signer_of config.agents) ≡ ok tt)
  unfolding run_scenario assert_endpoint_agrees
  run_scenario-IsGuarded now w r h = elim (Result-cases (assert_writable_chain config.chain_id)) [
    | inr (x, e) ↦ ground arith
    | inl (u, e) ↦ elim (Result-cases (assert_distinct_signers (map signer_of config.agents))) [
      | inr (x, d) ↦ ground arith
      | inl (v, d) ↦ ground (arith, assert_writable_chain_ok config.chain_id)
    ]
  ]
