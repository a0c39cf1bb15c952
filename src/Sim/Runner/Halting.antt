-- ===== src/Sim/Runner/Halting.antt =====
-- When the loop of packages/sim/src/runner.ts stops before its bound.
use nextblock.Base.{
  ℕ, zero, suc, ◌+◌, length, ok, ◌≡◌, inl, inr, refl, subst, arith, Bool, true, false, not,
  Option-cases, Result-cases,
}
use nextblock.Sim.Rng.{Rng}
use nextblock.Sim.Agents.{Agent, PlannedAction, ProtocolState, pick_weighted}
use nextblock.Sim.Runner.{
  ChainClient, RunConfig, Progress, Turn, breaks, goes_on, agent_at, draw_index, act, plan_round,
  round, grade_shadow, run_loop,
}

module _ {W : Type 0} (client : ChainClient W) (config : RunConfig) where
  -- A turn ends the run, or leaves it going and not halted.
  abbrev is_open : Turn W → Bool
  is_open (breaks q) = true
  is_open (goes_on q) = not q.halted_early

  act-open :
      (agent : Agent) (action : PlannedAction) (before : ProtocolState) (rng : Rng) (p : Progress W)
      → is_open (act client config agent action before rng p) ≡ true
  unfolding act
  act-open agent action before rng p = ground arith

  plan_round-open :
      (agent : Agent) (rng : Rng) (p : Progress W)
      → p.halted_early ≡ false
      → is_open (plan_round client config agent rng p) ≡ true
  unfolding plan_round
  plan_round-open agent rng p h =
      let planned = agent.plan (client.read_state p.world) rng in
      let picked = pick_weighted planned.0 planned.1 in
      elim (Option-cases picked.0) [
        | inl e ↦ ground arith
        | inr (action, e) ↦
            ground (arith, act-open agent action (client.read_state p.world) picked.1 p)
      ]

  round-open :
      (p : Progress W) (turn : Turn W)
      → p.halted_early ≡ false
      → round client config p ≡ ok turn
      → is_open turn ≡ true
  unfolding round
  round-open p turn h e = elim (Result-cases (draw_index (length config.agents) p.rng)) [
    | inr (x, d) ↦ ground arith
    | inl ((i, rng), d) ↦ elim (Option-cases (agent_at config.agents i)) [
      | inl none_at ↦ ground arith
      | inr (agent, at) ↦ ground (arith, plan_round-open agent rng p h)
    ]
  ]

  -- The run with more actions allowed.
  abbrev pub allowing : (more : ℕ) → RunConfig
  allowing more = record config { max_actions = config.max_actions + more }

  round-allowing :
      (more : ℕ) (p : Progress W) → round client (allowing more) p ≡ round client config p
  unfolding round plan_round act grade_shadow
  round-allowing more p = refl

  -- A loop that has halted stays as it is when it may go on for longer.
  pub run_loop-halts :
      (left more extra : ℕ) (p q : Progress W)
      → p.halted_early ≡ false
      → run_loop client config left p ≡ ok q
      → q.halted_early ≡ true
      → run_loop client (allowing more) (left + extra) p ≡ ok q
  unfolding run_loop
  run_loop-halts zero more extra p q open_ e halted = absurd (ground arith)
  run_loop-halts (suc left) more extra p q open_ e halted =
      let again = round-allowing more p in
      let longer : run_loop client (allowing more) (suc (left + extra)) p ≡ ok q =
        elim (Result-cases (round client config p)) [
          | inr (x, r) ↦ absurd (ground arith)
          | inl (breaks t, r) ↦ ground (arith, again)
          | inl (goes_on t, r) ↦
              ground
                (arith, again, round-open p (goes_on t) open_ r, run_loop-halts left more extra t q)
        ] in
      let count : suc (left + extra) ≡ suc left + extra = omega arith in
      subst (λ n. run_loop client (allowing more) n p ≡ ok q) count longer
