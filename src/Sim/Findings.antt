-- ===== src/Sim/Findings.antt =====
-- packages/sim/src/report/finding.ts: findings and their grades. A text that the source fills in by a
-- template is a constructor with what is filled in.
use nextblock.Base.{ℕ, Text, List, [], ◌∷◌, Option, Bool, true, false, ◌||◌, if◌then◌else◌}
use nextblock.Sim.Ledger.{Field}

pub data Severity : Type 0 where
  p0 p1 p2 p3 : Severity

pub data FindingKind : Type 0 where
  drift permitted refused invariant harness : FindingKind

pub data Summary : Type 0 where
  was_refused was_permitted was_refused_otherwise : (intent : Text) → Summary
  diverged_by : (field : Field) (delta : ℕ) → Summary
  stated : Text → Summary

pub data Shown : Type 0 where
  success_shown : Shown
  revert_shown : (error : Text) → Shown
  text_shown : Text → Shown
  amount_shown : ℕ → Shown

pub record Repro : Type 0 where
  pub seed : Text
  pub action_index : ℕ
  pub scenario : Text
  pub contract : Option Text
  pub function_name : Option Text
  pub args : Option (List Text)

pub record Finding : Type 0 where
  pub kind : FindingKind
  pub severity : Severity
  pub summary : Summary
  pub rule : Option Text
  pub agent : Option Text
  pub repro : Repro
  pub expected : Option Shown
  pub observed : Option Shown
  pub tx_hash : Option Text

unfoldable pub classify : FindingKind → (moves_funds is_authority : Bool) → Severity
classify kind moves_funds is_authority =
    if moves_funds || is_authority
    then p0
    else elim kind [ drift ↦ p0 | permitted ↦ p1 | invariant ↦ p1 | refused ↦ p2 | harness ↦ p3 ]

abbrev pub same_severity : Severity → Severity → Bool
same_severity p0 p0 = true
same_severity p1 p1 = true
same_severity p2 p2 = true
same_severity p3 p3 = true
same_severity _ _ = false

-- `findings.some((f) => f.severity === level)`
abbrev pub some_severity : Severity → List Finding → Bool
some_severity level [] = false
some_severity level (f ∷ fs) = same_severity f.severity level || some_severity level fs
