-- ===== src/Sim/Outcomes/Grades.antt =====
-- The grades of packages/sim/src/runner.ts and packages/sim/src/report/finding.ts.
use nextblock.Base.{
  ℕ, ◌≤◌, Text, List, [], ◌∷◌, Option, none, some, true, false, includes, ◌≡◌, ◌↔◌, inl, inr, refl,
  arith, All, Bool-cases, ◌<◌,
}
use nextblock.Sim.Findings.{Severity, p0, p1, p2, p3, Finding, some_severity}
use nextblock.Sim.Agents.{Expectation, success, revert, PlannedAction}
use nextblock.Sim.Outcomes.{SendOutcome, succeeded, reverted, Place, grade_outcome, worst_severity}

-- The outcome that an action asks for.
abbrev pub Meets : Expectation → SendOutcome → Type 0
Meets success (succeeded tx_hash) = Unit
Meets success (reverted error tx_hash) = ⊥
Meets (revert wanted) (succeeded tx_hash) = ⊥
Meets (revert wanted) (reverted error tx_hash) = includes error wanted ≡ true

-- An outcome gives no finding exactly when it is the one the action asks for.
pub grade_outcome_iff :
    (id : Text) (action : PlannedAction) (outcome : SendOutcome) (place : Place)
    → (grade_outcome id action outcome place ≡ []) ↔ Meets action.expect outcome
unfolding grade_outcome
grade_outcome_iff id action outcome place = ground arith

-- From the worst grade, 0, to the mildest.
abbrev pub rank : Severity → ℕ
rank p0 = 0
rank p1 = 1
rank p2 = 2
rank p3 = 3

-- Where no finding is of one of the first k grades, every finding is milder.
rank_bound :
    (k : ℕ) (fs : List Finding)
    → (0 < k → some_severity p0 fs ≡ false)
    → (1 < k → some_severity p1 fs ≡ false)
    → (2 < k → some_severity p2 fs ≡ false)
    → (3 < k → some_severity p3 fs ≡ false)
    → k ≤ 4
    → All (λ f. k ≤ rank f.severity) fs
rank_bound k [] h0 h1 h2 h3 hk = tt
rank_bound k (f ∷ fs) h0 h1 h2 h3 hk = (
  ground arith,
  rank_bound k fs (λ l. ground (arith, h0 l)) (λ l. ground (arith, h1 l))
      (λ l. ground (arith, h2 l)) (λ l. ground (arith, h3 l)) hk,
)

empty_of_milder : (fs : List Finding) → All (λ f. 4 ≤ rank f.severity) fs → fs ≡ []
empty_of_milder [] h = refl
empty_of_milder (f ∷ fs) h = ground (arith, h.0)

-- The worst grade of a list of findings.
abbrev pub IsWorst : Option Severity → List Finding → Type 0
IsWorst none fs = fs ≡ []
IsWorst (some level) fs =
    (some_severity level fs ≡ true) × All (λ f. rank level ≤ rank f.severity) fs

-- `worstSeverity` gives nothing only for no findings, and otherwise a grade that is there and that no
-- finding is worse than.
worst_severity-IsWorst : (fs : List Finding) → IsWorst (worst_severity fs) fs
unfolding worst_severity
worst_severity-IsWorst fs = elim (Bool-cases (some_severity p0 fs)) [
  | inl e0 ↦ ground (arith, rank_bound 0 fs)
  | inr e0 ↦ elim (Bool-cases (some_severity p1 fs)) [
    | inl e1 ↦ ground (arith, rank_bound 1 fs)
    | inr e1 ↦ elim (Bool-cases (some_severity p2 fs)) [
      | inl e2 ↦ ground (arith, rank_bound 2 fs)
      | inr e2 ↦ elim (Bool-cases (some_severity p3 fs)) [
        | inl e3 ↦ ground (arith, rank_bound 3 fs)
        | inr e3 ↦ ground (arith, rank_bound 4 fs, empty_of_milder fs)
      ]
    ]
  ]
]
