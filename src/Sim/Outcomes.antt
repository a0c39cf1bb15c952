-- ===== src/Sim/Outcomes.antt =====
-- The grades that packages/sim/src/runner.ts gives: `gradeOutcome`, the findings of `gradeShadow` and
-- `worstSeverity`.
pub mod Grades
use nextblock.Base.{
  ℕ, zero, suc, ◌+◌, Text, List, [], ◌∷◌, ◌++◌, map, length, Option, none, some, Bool, false, not,
  eqb, includes, if◌then◌else◌, Result, ok, err, and_then,
}
use nextblock.Sim.Ledger.{ShadowState, Figures, Divergence, compare, share_price}
use nextblock.Sim.Guards.{
  GuardError, assert_writable_chain, chain_mismatch, Signer, assert_distinct_signers, redact,
}
use nextblock.Sim.Rng.{Rng, make_named_rng, int, EmptyRange}
use nextblock.Sim.Findings.{
  Severity, p0, p1, p2, p3, FindingKind, drift, permitted, refused, Summary, was_refused,
  was_permitted, was_refused_otherwise, diverged_by, Shown, success_shown, revert_shown, text_shown,
  amount_shown, Finding, classify, some_severity,
}
use nextblock.Sim.Agents.{success, revert, PlannedAction, ProtocolState, Agent, pick_weighted}

pub data SendOutcome : Type 0 where
  succeeded : (tx_hash : Text) → SendOutcome
  reverted : (error : Text) (tx_hash : Option Text) → SendOutcome

-- The place of a finding: the seed, the round and the scenario.
pub record Place : Type 0 where
  pub seed : Text
  pub index : ℕ
  pub scenario : Text

pub tx_hash_of : SendOutcome → Option Text
tx_hash_of (succeeded tx_hash) = some tx_hash
tx_hash_of (reverted error tx_hash) = tx_hash

abbrev graded :
    Text
    → PlannedAction
    → SendOutcome
    → Place
    → FindingKind
    → Severity
    → Summary
    → Shown
    → Shown
    → Finding
graded agent_id action outcome place kind severity summary expected observed = record {
  kind = kind;
  severity = severity;
  summary = summary;
  rule = none;
  agent = some agent_id;
  repro = record {
    seed = place.seed;
    action_index = place.index;
    scenario = place.scenario;
    contract = some action.contract;
    function_name = some action.function_name;
    args = some action.args;
  };
  expected = some expected;
  observed = some observed;
  tx_hash = tx_hash_of outcome;
}

pub grade_outcome : Text → PlannedAction → SendOutcome → Place → List Finding
grade_outcome agent_id action outcome place =
    let give = graded agent_id action outcome place in
    elim action.expect [
      | success ↦ elim outcome [
        | succeeded tx_hash ↦ []
        | reverted error tx_hash ↦
            give refused (classify refused false false) (was_refused action.intent) success_shown
              (text_shown (redact error))
            ∷ []
      ]
      | revert wanted ↦ elim outcome [
        | succeeded tx_hash ↦
            give permitted (classify permitted false false) (was_permitted action.intent)
              (revert_shown wanted) success_shown
            ∷ []
        | reverted error tx_hash ↦
            if not (includes error wanted)
            then give refused p3 (was_refused_otherwise action.intent) (revert_shown wanted)
                (text_shown (redact error))
              ∷ []
            else []
      ]
    ]

-- "shadow-ledger"
abbrev shadow_ledger : Text
shadow_ledger = 115 ∷ 104 ∷ 97 ∷ 100 ∷ 111 ∷ 119 ∷ 45 ∷ 108 ∷ 101 ∷ 100 ∷ 103 ∷ 101 ∷ 114 ∷ []

unfoldable pub drift_of : Place → Divergence → Finding
drift_of place d = record {
  kind = drift;
  severity = classify drift false false;
  summary = diverged_by d.field d.delta;
  rule = none;
  agent = some shadow_ledger;
  repro = record {
    seed = place.seed;
    action_index = place.index;
    scenario = place.scenario;
    contract = none;
    function_name = none;
    args = none;
  };
  expected = some (amount_shown d.expected);
  observed = some (amount_shown d.observed);
  tx_hash = none;
}

pub worst_severity : List Finding → Option Severity
worst_severity findings =
    if some_severity p0 findings
    then some p0
    else if some_severity p1 findings
    then some p1
    else if some_severity p2 findings
    then some p2
    else if some_severity p3 findings
    then some p3
    else none
