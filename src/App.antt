-- ===== src/App.antt =====
-- The application's framework-free code, app/src/lib: server guards and derivations from indexed rows.
pub mod RateLimit
pub mod Nonces
pub mod Rows
pub mod Settlement
pub mod VaultSetup
pub mod ClaimsQueue
pub mod Screening
pub mod Session
pub mod Kyb
pub mod Bordereau
pub mod OracleNode
pub mod Pilot
pub mod Offering
pub mod PlatformMetrics
pub mod Handoff
mod Tests
