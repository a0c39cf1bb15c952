-- ===== src/Sim/Agents/Choice.antt =====
-- The weighted choice of packages/sim/src/agents/types.ts.
use nextblock.Base.{
  ℕ, ◌+◌, ◌-◌, ◌*◌, ◌^◌, ◌≤◌, List, [], ◌∷◌, ◌++◌, none, some, leb, sum_of, All, ◌≡◌, ◌↔◌, refl, ap,
  subst, arith, Bool-cases, inl, inr,
}
use mathlib.Core.Option.{some-injective}
use native.Mathlib.Nat.{mul-le-mul_right}
use nextblock.Sim.Rng.{Rng, next_uint32}
use nextblock.Sim.Rng.Bounds.{next_uint32-lt}
use nextblock.Sim.Agents.{PlannedAction, usable_of, pick_loop, pick_usable, pick_weighted}

abbrev pub weight_of : PlannedAction → ℕ
weight_of a = a.weight

-- The action stands where the sum of the weights passes the target.
abbrev pub IsChosen : (target : ℕ) (actions : List PlannedAction) → PlannedAction → Type 0
IsChosen target actions a =
    (xs : List PlannedAction) × (ys : List PlannedAction) × (actions ≡ xs ++ (a ∷ ys))
    × (sum_of weight_of xs * 2 ^ 32 ≤ target)
    × (target ≤ (sum_of weight_of xs + a.weight) * 2 ^ 32)

IsChosen-cons :
    (target : ℕ) (b a : PlannedAction) (actions : List PlannedAction)
    → b.weight * 2 ^ 32 ≤ target
    → IsChosen (target - b.weight * 2 ^ 32) actions a
    → IsChosen target (b ∷ actions) a
IsChosen-cons target b a actions h (xs, ys, e, lower, upper) =
    (b ∷ xs, ys, ap (λ l. b ∷ l) e, omega (arith, lower), omega (arith, upper))

IsChosen-first :
    (target : ℕ) (b : PlannedAction) (actions : List PlannedAction)
    → target ≤ b.weight * 2 ^ 32
    → IsChosen target (b ∷ actions) b
IsChosen-first target b actions h = ([], actions, refl, omega arith, omega arith)

pick_loop-IsChosen :
    (target : ℕ) (last b : PlannedAction) (actions : List PlannedAction)
    → target ≤ sum_of weight_of (b ∷ actions) * 2 ^ 32
    → IsChosen target (b ∷ actions) (pick_loop target last (b ∷ actions))
unfolding pick_loop
pick_loop-IsChosen target last b [] h = elim (Bool-cases (leb target (b.weight * 2 ^ 32))) [
  | inl e ↦ rw e (IsChosen-first target b [] (ground arith))
  | inr e ↦ absurd (ground arith)
]
pick_loop-IsChosen target last b (c ∷ actions) h =
    elim (Bool-cases (leb target (b.weight * 2 ^ 32))) [
      | inl e ↦ rw e (IsChosen-first target b (c ∷ actions) (ground arith))
      | inr e ↦ rw e (
          IsChosen-cons target b _ (c ∷ actions) (ground arith)
            (pick_loop-IsChosen (target - b.weight * 2 ^ 32) b c actions (omega arith)))
    ]

pick_usable-IsChosen :
    (usable : List PlannedAction) (rng : Rng) (a : PlannedAction)
    → (pick_usable usable rng).0 ≡ some a
    → IsChosen ((next_uint32 rng).0 * sum_of weight_of usable) usable a
unfolding pick_usable
pick_usable-IsChosen [] rng a e = absurd (ground arith)
pick_usable-IsChosen (b ∷ usable) rng a e =
    subst (IsChosen ((next_uint32 rng).0 * sum_of weight_of (b ∷ usable)) (b ∷ usable))
      (some-injective _ _ e)
      (pick_loop-IsChosen _ b b usable
        (grind (arith, mul-le-mul_right (sum_of weight_of (b ∷ usable)) (next_uint32-lt rng))))

target-bound :
    (usable : List PlannedAction) (rng : Rng)
    → sum_of weight_of usable ≤ 2 ^ 21
    → (next_uint32 rng).0 * sum_of weight_of usable ≤ 2 ^ 53
target-bound usable rng small =
    grind (arith, mul-le-mul_right (sum_of weight_of usable) (next_uint32-lt rng))

-- Where the weights are whole and add up to at most 2 ^ 21, the draw times their sum, in units of
-- 2 ^ -32, is a whole number up to 2 ^ 53, which the doubles of the source hold without rounding, and
-- the action picked is one on whose part of the sum the draw falls.
pub pick_weighted-IsChosen :
    (actions : List PlannedAction) (rng : Rng) (a : PlannedAction)
    → sum_of weight_of (usable_of actions) ≤ 2 ^ 21
    → (pick_weighted actions rng).0 ≡ some a
    → ((next_uint32 rng).0 * sum_of weight_of (usable_of actions) ≤ 2 ^ 53)
      × IsChosen ((next_uint32 rng).0 * sum_of weight_of (usable_of actions)) (usable_of actions) a
unfolding pick_weighted
pick_weighted-IsChosen actions rng a small h =
    (target-bound (usable_of actions) rng small, pick_usable-IsChosen (usable_of actions) rng a h)

pick_usable-none_iff :
    (usable : List PlannedAction) (rng : Rng) → ((pick_usable usable rng).0 ≡ none) ↔ (usable ≡ [])
unfolding pick_usable
pick_usable-none_iff [] rng = ground arith
pick_usable-none_iff (b ∷ usable) rng = ground arith

usable_of-empty_iff :
    (actions : List PlannedAction) → (usable_of actions ≡ []) ↔ All (λ a. a.weight ≡ 0) actions
unfolding usable_of
usable_of-empty_iff [] = ground arith
usable_of-empty_iff (a ∷ actions) = ground (arith, usable_of-empty_iff actions)

-- Nothing is chosen exactly when no action has a weight.
pick_weighted-none_iff :
    (actions : List PlannedAction) (rng : Rng)
    → ((pick_weighted actions rng).0 ≡ none) ↔ All (λ a. a.weight ≡ 0) actions
unfolding pick_weighted
pick_weighted-none_iff actions rng =
    ground (arith, pick_usable-none_iff (usable_of actions) rng, usable_of-empty_iff actions)
