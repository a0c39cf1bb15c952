-- ===== src/Sim.antt =====
-- The agent simulation, packages/sim/src: the shadow ledger, the guards and the scenario runner.
pub mod Ledger
pub mod Guards
pub mod Rng
pub mod Findings
pub mod Agents
pub mod Outcomes
pub mod Runner
mod Tests
mod RunTests
