-- ===== src/Indexer.antt =====
-- The protocol subgraph, indexer/src: one module per mapping file, each over the tables that the
-- file imports, and the dispatch of indexer/subgraph.yaml over the whole store.
pub mod Log
pub mod History
pub mod Entities
pub mod Redemption
pub mod Claims
pub mod Portfolios
pub mod Premiums
pub mod Vaults
pub mod Factory
pub mod Compliance
pub mod Nav
pub mod Allocator
pub mod Bordereau
pub mod Adapters
pub mod Policies
pub mod Graph
mod Tests
