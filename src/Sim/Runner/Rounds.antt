-- ===== src/Sim/Runner/Rounds.antt =====
-- The rounds of the loop of packages/sim/src/runner.ts: one that has not halted takes all of them.
use nextblock.Base.{
  ℕ, zero, suc, ◌+◌, ◌<◌, List, [], ◌∷◌, length, none, ok, Bool, true, false, if◌then◌else◌, subst,
  ◌≡◌, ◌≢◌, inl, inr, refl, arith, Option-cases, Result-cases,
}
use nextblock.Sim.Rng.{Rng, int}
use nextblock.Sim.Rng.Bounds.{scaled-lt}
use nextblock.Sim.Agents.{Agent, PlannedAction, ProtocolState, pick_weighted}
use nextblock.Sim.Runner.{
  ChainClient, RunConfig, Progress, Turn, breaks, goes_on, agent_at, draw_index, act, plan_round,
  round, run_loop,
}

draw_index-lt : (n : ℕ) (rng rest : Rng) (i : ℕ) → draw_index n rng ≡ ok (i, rest) → i < n
unfolding draw_index int
draw_index-lt zero rng rest i h = absurd (ground arith)
draw_index-lt (suc n) rng rest i h =
    let bound = scaled-lt rng (n + 1) (omega arith) in grind (arith, bound)

agent_at-some : (agents : List Agent) (i : ℕ) → i < length agents → agent_at agents i ≢ none
unfolding agent_at
agent_at-some [] i h = absurd (omega arith)
agent_at-some (a ∷ agents) zero h = ground arith
agent_at-some (a ∷ agents) (suc i) h = agent_at-some agents i (ground arith)

module _ {W : Type 0} (client : ChainClient W) (config : RunConfig) where
  -- A turn that ends the run has halted it, and another is the next round.
  abbrev IsNext : ℕ → Turn W → Type 0
  IsNext n (breaks q) = q.halted_early ≡ true
  IsNext n (goes_on q) = q.index ≡ n

  turn_of :
      (halted : Bool) (n : ℕ) (q : Progress W)
      → q.halted_early ≡ halted
      → q.index ≡ n
      → IsNext n (if halted then breaks q else goes_on q)
  turn_of true n q h e = h
  turn_of false n q h e = e

  act-IsNext :
      (agent : Agent) (action : PlannedAction) (before : ProtocolState) (rng : Rng) (p : Progress W)
      → IsNext (suc p.index) (act client config agent action before rng p)
  unfolding act
  act-IsNext agent action before rng p = turn_of _ (suc p.index) _ refl refl

  plan_round-IsNext :
      (agent : Agent) (rng : Rng) (p : Progress W)
      → IsNext (suc p.index) (plan_round client config agent rng p)
  unfolding plan_round
  plan_round-IsNext agent rng p =
      let planned = agent.plan (client.read_state p.world) rng in
      let picked = pick_weighted planned.0 planned.1 in
      elim (Option-cases picked.0) [
        | inl e ↦ rw (e, IsNext) refl
        | inr (action, e) ↦
            rw (e, IsNext) (act-IsNext agent action (client.read_state p.world) picked.1 p)
      ]

  round-IsNext :
      (p : Progress W) (turn : Turn W) → round client config p ≡ ok turn → IsNext (suc p.index) turn
  unfolding round
  round-IsNext p turn e = elim (Result-cases (draw_index (length config.agents) p.rng)) [
    | inr (x, d) ↦ absurd (ground arith)
    | inl ((i, rng), d) ↦ elim (Option-cases (agent_at config.agents i)) [
      | inl none_at ↦ absurd (agent_at-some config.agents i (draw_index-lt _ p.rng rng i d) none_at)
      | inr (agent, at) ↦
          subst (IsNext (suc p.index)) (ground arith) (plan_round-IsNext agent rng p)
    ]
  ]

  pub run_loop-rounds :
      (left : ℕ) (p q : Progress W)
      → run_loop client config left p ≡ ok q
      → q.halted_early ≡ false
      → q.index ≡ p.index + left
  unfolding run_loop
  run_loop-rounds zero p q e going = ground arith
  run_loop-rounds (suc left) p q e going = elim (Result-cases (round client config p)) [
    | inr (x, r) ↦ absurd (ground arith)
    | inl (breaks t, r) ↦ ground (arith, round-IsNext p (breaks t) r)
    | inl (goes_on t, r) ↦ ground (arith, round-IsNext p (goes_on t) r, run_loop-rounds left t q)
  ]
