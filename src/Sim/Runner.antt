-- ===== src/Sim/Runner.antt =====
-- packages/sim/src/runner.ts: the loop of one scenario.
pub mod Runs
pub mod Rounds
pub mod Halting
pub mod Shadow
use nextblock.Base.{
  ℕ, zero, suc, ◌+◌, Text, List, [], ◌∷◌, ◌++◌, map, length, Option, none, some, Bool, false, not,
  eqb, includes, if◌then◌else◌, Result, ok, err, and_then,
}
use nextblock.Sim.Ledger.{ShadowState, Figures, Divergence, compare, share_price}
use nextblock.Sim.Guards.{
  GuardError, assert_writable_chain, chain_mismatch, Signer, assert_distinct_signers, redact,
}
use nextblock.Sim.Rng.{Rng, make_named_rng, int, EmptyRange}
use nextblock.Sim.Findings.{
  Severity, p0, p1, p2, p3, FindingKind, drift, permitted, refused, Summary, was_refused,
  was_permitted, was_refused_otherwise, diverged_by, Shown, success_shown, revert_shown, text_shown,
  amount_shown, Finding, classify, some_severity,
}
use nextblock.Sim.Agents.{success, revert, PlannedAction, ProtocolState, Agent, pick_weighted}
use nextblock.Sim.Outcomes.{SendOutcome, Place, grade_outcome, drift_of}

-- The chain behind its interface, as functions of the state `W` of the world.
pub record ChainClient (W : Type 0) : Type 0 where
  pub get_chain_id : W → ℕ
  pub read_state : W → ProtocolState
  pub send : Text → PlannedAction → W → SendOutcome × W
  pub read_accounting : Text → W → Figures

pub record RunConfig : Type 0 where
  pub scenario : Text
  pub seed : Text
  pub chain_id : ℕ
  pub agents : List Agent
  pub tracked_vault : Text
  pub max_actions : ℕ
  pub shadow : ShadowState

pub record RunResult : Type 0 where
  pub run_id : Text
  pub scenario : Text
  pub seed : Text
  pub actions_attempted : ℕ
  pub findings : List Finding
  pub halted_early : Bool

pub data RunError : Type 0 where
  guard : GuardError → RunError
  draw : EmptyRange → RunError

-- `config.agents[i]`
pub agent_at : List Agent → ℕ → Option Agent
agent_at [] i = none
agent_at (a ∷ agents) zero = some a
agent_at (a ∷ agents) (suc i) = agent_at agents i

-- `rng.int(0, n - 1)`, which throws when the list is empty.
pub draw_index : (n : ℕ) → Rng → Result RunError (ℕ × Rng)
draw_index zero rng = err (draw EmptyRange.empty_range)
draw_index (suc n) rng = elim (int 0 n rng) [ ok drawn ↦ ok drawn | err e ↦ err (draw e) ]

-- What the loop carries.
pub record Progress (W : Type 0) : Type 0 where
  pub world : W
  pub rng : Rng
  pub index : ℕ
  pub attempted : ℕ
  pub findings : List Finding
  pub halted_early : Bool

-- How a round ends: the loop breaks off, or goes on.
pub data Turn (W : Type 0) : Type 0 where
  breaks goes_on : Progress W → Turn W

abbrev pub starting : {W : Type 0} → RunConfig → W → Progress W
starting config w = record {
  world = w;
  rng = make_named_rng config.seed;
  index = 0;
  attempted = 0;
  findings = [];
  halted_early = false;
}

-- `now` is the time of the start as text, "-" is 45.
abbrev pub result_of : {W : Type 0} → (now : Text) → RunConfig → Progress W → RunResult × W
result_of now config p = (
  record {
    run_id = now ++ (45 ∷ config.seed);
    scenario = config.scenario;
    seed = config.seed;
    actions_attempted = p.attempted;
    findings = p.findings;
    halted_early = p.halted_early;
  },
  p.world,
)

abbrev pub signer_of : Agent → Signer
signer_of a = record { id = a.id; address = a.address }

module _ {W : Type 0} (client : ChainClient W) where
  -- The figures that the shadow expects.
  abbrev pub shadow_figures : RunConfig → W → Figures
  shadow_figures config w = record {
    balance = config.shadow.balance;
    total_shares = config.shadow.total_shares;
    share_price = share_price config.shadow (client.read_state w).block_timestamp 18;
  }

  pub grade_shadow : RunConfig → Place → W → List Finding
  grade_shadow config place w =
      let observed = client.read_accounting config.tracked_vault w in
      map (drift_of place) (compare (shadow_figures config w) observed)

  unfoldable pub assert_endpoint_agrees : ℕ → W → Result {0, 0} GuardError Unit
  assert_endpoint_agrees expected w =
      let actual = client.get_chain_id w in
      if eqb actual expected
      then assert_writable_chain actual
      else err (chain_mismatch actual expected)

  -- The rest of a round, once an agent has an action.
  pub act : RunConfig → Agent → PlannedAction → ProtocolState → Rng → Progress W → Turn W
  act config agent action before rng p =
      let place : Place = record {
        seed = config.seed;
        index = p.index;
        scenario = config.scenario;
      } in
      let (outcome, world) = client.send agent.address action p.world in
      let found =
        ((p.findings ++ grade_outcome agent.id action outcome place)
          ++ agent.local_invariants before (client.read_state world))
        ++ grade_shadow config place world in
      let halted = some_severity p0 found in
      let q : Progress W = record {
        world = world;
        rng = rng;
        index = suc p.index;
        attempted = p.attempted + 1;
        findings = found;
        halted_early = halted;
      } in
      if halted then breaks q else goes_on q

  pub plan_round : RunConfig → Agent → Rng → Progress W → Turn W
  plan_round config agent rng p =
      let before = client.read_state p.world in
      let (actions, planned) = agent.plan before rng in
      let (picked, rest) = pick_weighted actions planned in
      elim picked [
        | none ↦ goes_on (record p { rng = rest; index = suc p.index })
        | some action ↦ act config agent action before rest p
      ]

  pub round : RunConfig → Progress W → Result RunError (Turn W)
  round config p = elim (draw_index (length config.agents) p.rng) [
    | err e ↦ err e
    | ok (i, rng) ↦ elim (agent_at config.agents i) [
      | none ↦ ok (breaks p)
      | some agent ↦ ok (plan_round config agent rng p)
    ]
  ]

  -- The for loop, on the rounds that are left of `maxActions`.
  pub run_loop : RunConfig → ℕ → Progress W → Result RunError (Progress W)
  run_loop config zero p = ok p
  run_loop config (suc left) p = elim (round config p) [
    | err e ↦ err e
    | ok (breaks q) ↦ ok q
    | ok (goes_on q) ↦ run_loop config left q
  ]

  abbrev guarded :
      {A : Type 0} → Result {0, 0} GuardError Unit → Result RunError A → Result RunError A
  guarded (ok u) rest = rest
  guarded (err e) rest = err (guard e)

  pub run_scenario : (now : Text) → RunConfig → W → Result RunError (RunResult × W)
  run_scenario now config w = guarded (assert_writable_chain config.chain_id) (
      guarded (assert_endpoint_agrees config.chain_id w) (
        guarded (assert_distinct_signers (map signer_of config.agents)) (
          and_then (run_loop config config.max_actions (starting config w))
            (λ p. ok (result_of now config p)))))
