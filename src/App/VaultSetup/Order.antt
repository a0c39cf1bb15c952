-- ===== src/App/VaultSetup/Order.antt =====
-- The order of the steps of app/src/lib/vault-setup.ts.
use nextblock.Base.{List, [], ◌∷◌, none, true, ◌≡◌, arith, All, if◌then◌else◌}
use nextblock.App.VaultSetup.{
  StepId, register, SetupStep, SetupInputs, derive_setup_steps, first_loop, first_actionable_step,
}

-- The first step that is not done, and the last one when all are.
abbrev first_undone : StepId → List SetupStep → StepId
first_undone last [] = last
first_undone last (s ∷ steps) = if s.done then first_undone s.id steps else s.id

-- Whatever the inputs, no step is both done and blocked, and the step that the curator is sent to is
-- the first one that is not done: with all before it done, it is never blocked.
first_actionable_step_lem :
    (i : SetupInputs)
    → All (λ s. s.done ≡ true → s.blocked_reason ≡ none) (derive_setup_steps i)
      × (first_actionable_step (derive_setup_steps i)
          ≡ first_undone register (derive_setup_steps i))
unfolding derive_setup_steps first_actionable_step first_loop
first_actionable_step_lem i = ground arith
