-- ===== src/App/VaultSetup.antt =====
-- app/src/lib/vault-setup.ts: the procedure that sets a vault up. The fixed texts of a step are left
-- out; a reason for being blocked is a constructor.
pub mod Order
use nextblock.Base.{
  ℕ, List, [], ◌∷◌, Option, none, some, Bool, true, false, not, ◌&&◌, ◌||◌, ltb, if◌then◌else◌,
}

pub data StepId : Type 0 where
  register activate add authorize premium : StepId

pub data BlockedReason : Type 0 where
  no_vault_policy no_depositor_role no_registered_policy no_active_policy : BlockedReason

pub record SetupStep : Type 0 where
  pub id : StepId
  pub n : ℕ
  pub done : Bool
  pub blocked_reason : Option BlockedReason

pub record SetupInputs : Type 0 where
  pub has_registered_policy : Bool
  pub has_active_policy : Bool
  pub has_vault_policy : Bool
  pub caller_can_deposit : Bool
  pub premium_received : ℕ

abbrev step : StepId → ℕ → Bool → Option BlockedReason → SetupStep
step id n done blocked_reason = record {
  id = id;
  n = n;
  done = done;
  blocked_reason = blocked_reason;
}

pub derive_setup_steps : SetupInputs → List SetupStep
derive_setup_steps i =
    let premium_done = ltb 0 i.premium_received in
    let premium_blocked_reason =
      if premium_done
      then none
      else if not i.has_vault_policy
      then some no_vault_policy
      else if not i.caller_can_deposit
      then some no_depositor_role
      else none in
    step register 1 i.has_registered_policy none
    ∷ step activate 2 i.has_active_policy (
        if i.has_active_policy
        then none
        else if not i.has_registered_policy
        then some no_registered_policy
        else none)
    ∷ step add 3 i.has_vault_policy
        (if i.has_vault_policy || i.has_active_policy then none else some no_active_policy)
    ∷ step authorize 4 i.caller_can_deposit none
    ∷ step premium 5 premium_done premium_blocked_reason
    ∷ []

abbrev pub is_open : SetupStep → Bool
is_open s = not s.done && elim s.blocked_reason [ none ↦ true | some reason ↦ false ]

-- `last` is the id of the last step seen, for the fallback.
pub first_loop : StepId → List SetupStep → StepId
first_loop last [] = last
first_loop last (s ∷ steps) = let rest = first_loop s.id steps in if is_open s then s.id else rest

-- The source reads the last step of the list, which is never empty where it is called.
pub first_actionable_step : List SetupStep → StepId
first_actionable_step steps = first_loop register steps
