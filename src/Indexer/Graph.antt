-- ===== src/Indexer/Graph.antt =====
-- indexer/subgraph.yaml: the whole store and the handler that each event is dispatched to.
pub mod Logging
pub mod Feed
pub mod Interleaving
pub mod ClaimStatus
use nextblock.Base.{ℕ, List, [], ◌∷◌, none}
use nextblock.Base.Table.{Table}
use nextblock.Indexer.Log
use nextblock.Indexer.Log.{Meta, RowId}
use nextblock.Indexer.Entities.{Vault, VaultDeposit, VaultWithdrawal, Portfolio, Claim}
use nextblock.Indexer.Redemption
use nextblock.Indexer.Claims
use nextblock.Indexer.Portfolios
use nextblock.Indexer.Premiums
use nextblock.Indexer.Vaults
use nextblock.Indexer.Factory
use nextblock.Indexer.Compliance
use nextblock.Indexer.Nav
use nextblock.Indexer.Allocator
use nextblock.Indexer.Bordereau
use nextblock.Indexer.Adapters
use nextblock.Indexer.Policies

pub record Db : Type 0 where
  pub feed : Log.Feed
  pub vaults : Table ℕ Vault
  pub templates : List ℕ
  pub deposits : Table RowId VaultDeposit
  pub withdrawals : Table RowId VaultWithdrawal
  pub portfolios : Table ℕ Portfolio
  pub claims : Table ℕ Claim
  pub flows : Table RowId Premiums.PremiumFlow
  pub accounts : Table ℕ Compliance.ComplianceAccount
  pub feeds : Table ℕ Nav.NavFeed
  pub points : Table RowId Nav.NavPoint
  pub risks : Table RowId Nav.PortfolioRiskPoint
  pub proposals : Table ℕ Allocator.AllocationProposal
  pub assertions : Table ℕ Bordereau.Assertion
  pub adapters : Table ℕ Adapters.Adapter
  pub policies : Table ℕ Policies.Policy
  pub assessments : Table RowId Policies.Assessment
  pub redemption : Redemption.Store

abbrev pub empty : Db
empty = record {
  feed = [];
  vaults = [];
  templates = [];
  deposits = [];
  withdrawals = [];
  portfolios = [];
  claims = [];
  flows = [];
  accounts = [];
  feeds = [];
  points = [];
  risks = [];
  proposals = [];
  assertions = [];
  adapters = [];
  policies = [];
  assessments = [];
  redemption = Redemption.empty;
}

-- An event of one of the data sources.
pub data Event : Type 0 where
  redemption : Redemption.Event → Event
  vault_created : Factory.Creation → Event
  vault : Vaults.Event → Event
  portfolio : Portfolios.Event → Event
  premium : Premiums.Event → Event
  claim : Claims.Event → Event
  policy : Policies.Event → Event
  compliance : Compliance.Event → Event
  nav : Nav.Event → Event
  bordereau : Bordereau.Event → Event
  allocator : Allocator.Event → Event
  adapter : Adapters.Event → Event
  assessment : Policies.Assessment → Event

-- Each mapping file sees the tables that it imports.
unfoldable pub step : Meta → Event → Db → Db
step m (redemption e) db = record db { redemption = Redemption.handle m e db.redemption }
step m (vault_created e) db =
    let s =
      Factory.handle_vault_created m e
        (record { vaults = db.vaults; templates = db.templates; feed = db.feed }) in
    record db { vaults = s.vaults; templates = s.templates; feed = s.feed }
step m (vault e) db =
    let s = Vaults.handle m e (record {
      vaults = db.vaults;
      deposits = db.deposits;
      withdrawals = db.withdrawals;
      portfolios = db.portfolios;
      claims = db.claims;
      feed = db.feed;
    }) in
    record db {
      vaults = s.vaults;
      deposits = s.deposits;
      withdrawals = s.withdrawals;
      portfolios = s.portfolios;
      claims = s.claims;
      feed = s.feed;
    }
step m (portfolio e) db =
    let s = Portfolios.handle m e (record { portfolios = db.portfolios; feed = db.feed }) in
    record db { portfolios = s.portfolios; feed = s.feed }
step m (premium e) db =
    let s =
      Premiums.handle m e
        (record { flows = db.flows; portfolios = db.portfolios; feed = db.feed }) in
    record db { flows = s.flows; portfolios = s.portfolios; feed = s.feed }
step m (claim e) db =
    let s = Claims.handle m e (record { claims = db.claims; feed = db.feed }) in
    record db { claims = s.claims; feed = s.feed }
step m (policy e) db =
    let s = Policies.handle m e (record { policies = db.policies; feed = db.feed }) in
    record db { policies = s.policies; feed = s.feed }
step m (compliance e) db =
    let s = Compliance.handle m e (record { accounts = db.accounts; feed = db.feed }) in
    record db { accounts = s.accounts; feed = s.feed }
step m (nav e) db =
    let s =
      Nav.handle m e
        (record { feeds = db.feeds; points = db.points; risks = db.risks; feed = db.feed }) in
    record db { feeds = s.feeds; points = s.points; risks = s.risks; feed = s.feed }
step m (bordereau e) db =
    let s = Bordereau.handle m e (record { assertions = db.assertions; feed = db.feed }) in
    record db { assertions = s.assertions; feed = s.feed }
step m (allocator e) db =
    let s = Allocator.handle m e (record { proposals = db.proposals; feed = db.feed }) in
    record db { proposals = s.proposals; feed = s.feed }
step m (adapter e) db =
    let s = Adapters.handle m e (record { adapters = db.adapters; feed = db.feed }) in
    record db { adapters = s.adapters; feed = s.feed }
step m (assessment e) db =
    let s =
      Policies.handle_assessment_published m e
        (record { assessments = db.assessments; feed = db.feed }) in
    record db { assessments = s.assessments; feed = s.feed }

-- The events of the chain, in their order.
unfoldable pub run : List (Meta × Event) → Db → Db
run [] db = db
run ((m, e) ∷ es) db = run es (step m e db)
