-- ===== src/Sim/Agents.antt =====
-- packages/sim/src/agents/types.ts: what an agent sees and plans, and the weighted choice.
pub mod Choice
use nextblock.Base.{
  ℕ, ◌-◌, ◌*◌, ◌^◌, Text, List, [], ◌∷◌, Option, none, some, Bool, leb, ltb, if◌then◌else◌, sum_of,
}
use nextblock.Base.Table.{Table}
use nextblock.Sim.Rng.{Rng, next_uint32}
use nextblock.Sim.Findings.{Finding}

pub data RoleId : Type 0 where
  owner underwriting_curator allocator sentinel claims_committee kyc_operator oracle : RoleId
  authorized_cedant premium_depositor vault_factory : RoleId

pub data Expectation : Type 0 where
  success : Expectation
  revert : (error : Text) → Expectation

-- The weights of a list of actions are natural numbers, the source's times a common denominator;
-- an argument, of any type in the source, is the text that shows it.
pub record PlannedAction : Type 0 where
  pub contract : Text
  pub function_name : Text
  pub args : List Text
  pub expect : Expectation
  pub weight : ℕ
  pub intent : Text

pub record Portfolios : Type 0 where
  pub submitted : List ℕ
  pub under_review : List ℕ
  pub approved : List ℕ
  pub active : List ℕ

pub record Claims : Type 0 where
  pub pending : List ℕ
  pub approved : List ℕ

pub record Accounting : Type 0 where
  pub total_assets : ℕ
  pub total_shares : ℕ
  pub available_buffer : ℕ
  pub deployed : ℕ

pub record ProtocolState : Type 0 where
  pub block_timestamp : ℕ
  pub vaults : List Text
  pub portfolios : Portfolios
  pub claims : Claims
  pub portfolio_cedant : Table ℕ Text
  pub accounting : Table Text Accounting
  pub oracle_fresh : Table Text Bool

-- `plan` draws from the stream that it is handed, and gives it back.
pub record Agent : Type 0 where
  pub id : Text
  pub role : Option RoleId
  pub address : Text
  pub plan : ProtocolState → Rng → List PlannedAction × Rng
  pub local_invariants : (before after : ProtocolState) → List Finding

unfoldable pub usable_of : List PlannedAction → List PlannedAction
usable_of [] = []
usable_of (a ∷ actions) = let rest = usable_of actions in if ltb 0 a.weight then a ∷ rest else rest

-- The loop of `pickWeighted`; `last` is what it falls back on. The weights are whole, as the agents
-- give them, and with the target they are in units of 2 ^ -32, without rounding: the doubles of the
-- source do not round either while the sum of the weights is at most 2 ^ 21.
unfoldable pub pick_loop : (target : ℕ) (last : PlannedAction) → List PlannedAction → PlannedAction
pick_loop target last [] = last
pick_loop target last (a ∷ actions) =
    let rest = pick_loop (target - a.weight * 2 ^ 32) a actions in
    if leb target (a.weight * 2 ^ 32) then a else rest

unfoldable pub pick_usable : List PlannedAction → Rng → Option PlannedAction × Rng
pick_usable [] rng = (none, rng)
pick_usable (a ∷ actions) rng =
    let (u, rest) = next_uint32 rng in
    (some (pick_loop (u * sum_of (λ b. b.weight) (a ∷ actions)) a (a ∷ actions)), rest)

unfoldable pub pick_weighted : List PlannedAction → Rng → Option PlannedAction × Rng
pick_weighted actions rng = pick_usable (usable_of actions) rng
