-- ===== src/Lib.antt =====
-- NextBlock: reinsurance tokenization protocol. This development models its TypeScript code.
--
-- The program's parts and their files here:
-- * indexer/src, the protocol subgraph: Indexer. One module per mapping file (Redemption for
--   redemption-queue.ts, Claims for claim-manager.ts, Vaults for insurance-vault.ts, Factory for
--   vault-factory.ts, Portfolios for portfolio-registry.ts, Premiums for premium-distributor.ts,
--   Allocator for vault-allocator.ts, Compliance for compliance-registry.ts, Nav for nav-oracle.ts,
--   Bordereau for bordereau-oracle.ts, Adapters for adapter-registry.ts, Policies for
--   policy-registry.ts and ai-assessor.ts), Log for helpers.ts, Entities for indexer/schema.graphql,
--   and Graph for the dispatch of indexer/subgraph.yaml.
--   A handler `handleX(event)` is `handle_x m … s`: `m` is the event's address, transaction, log
--   index, time and block, the other arguments are its parameters, and `s` holds the tables that the
--   mapping file imports. `T.load(id)` is `load`, `entity.save()` is `save`.
-- * packages/sim/src, the agent simulation: Sim. Ledger for shadow/ledger.ts, Guards for
--   guards/chain-guard.ts and guards/key-guard.ts, Rng for risk/prng.ts, Findings for
--   report/finding.ts, Agents for agents/types.ts, and Outcomes and Runner for runner.ts: Outcomes has
--   the grades, Runner the loop. The runner draws from Rng, asks Agents for an action, sends it to the
--   chain behind the record ChainClient, and compares the chain with Ledger.
-- * app/src/lib, the framework-free code of the application, and the KYB routes over it: App.
--   RateLimit for rate-limit.ts, Nonces for kyb/nonces.ts (Stored for its Supabase store), Session for
--   app-auth/session.ts, Screening for sanctions/provider.ts and sanctions/wallet-provider.ts, Kyb for
--   kyb/schema.ts, kyb/auth.ts and the route app/src/app/api/kyb/applications/[id]/review, whose
--   handler is open_review up to the update of the row and close_review from there, with the insert of
--   app/src/app/api/kyb/applications: Interleaving lets submissions and the two parts of reviews run
--   in any order over one database. Bordereau for portfolio/bordereau.ts, OracleNode for
--   oracle-node.ts, Pilot for pilot/status.ts, Offering for offering/terms.ts,
--   PlatformMetrics for platform-metrics.ts, Handoff for roles/handoff.ts, Rows for the row types of
--   protocol-subgraph/entities.ts, Settlement for settlement.ts, VaultSetup for vault-setup.ts,
--   ClaimsQueue for claimsqueue.ts and notifications/derive.ts. Kyb takes the requester from Session,
--   spends a nonce of Nonces.Stored and asks Screening; Settlement reads the rows of the subgraph's
--   PremiumFlow and Claim.
--
-- Base holds what the parts share: Boolean tests, lists, integers, texts, results, and the tables
-- that stand for the entity store and for the Maps of the source.
--
-- Numbers: BigInt values that come from unsigned event parameters and are only added to are ℕ;
-- those that are also subtracted from are ℤ; i32 counters wrap (`incr_i32`). Addresses, hashes and
-- ids of the subgraph are numbers, on which `toHexString` and `toString` are injective. A new
-- entity replaces the row of its id; a creation event comes once for an id, so this and a merge of
-- the old fields are the same. Texts of the simulation and the application are lists of UTF-16 code
-- units, and `toLowerCase` and `toUpperCase` are those of ASCII letters. A word of the random
-- stream is a number below 2 ^ 32 with its wrap-around written out; a draw from [0, 1) is its word
-- out of 2 ^ 32, which the doubles of the source hold exactly, and so are its products while they
-- stay below 2 ^ 53. The weights of actions are whole, as the planners of the
-- roster give them; for others the doubles may drift, and the source then falls back on the last.
--
-- Doubles are parameters: the bordereau takes a type with a reading of digits and a sum, the oracle
-- node one with an order, a print and a rounding to basis points.
--
-- Loops are structural: over the list that the source walks, over the characters of a text, or over
-- the rounds left of `maxActions`, which bound the scenario loop as in the source. Fuel bounds the
-- digits of a printed number, one more than the number, and the years of a spreadsheet's day
-- number, 300, which is enough since the day is below 90000. An asynchronous call is a function of
-- the state, and what Supabase, a provider, the chain or the recovery of a signature answers is an
-- argument; a client call of the runner that rejects ends the run and is outside the model.
--
-- Not modelled: the React interface, the other API routes, generated ABIs, the Solidity contracts,
-- ABI encoders, signatures and hashing, which are calls of third-party code; texts of messages, of
-- which only what is filled in is kept; the columns that a screening keeps for audit only; the
-- floating-point samplers of the simulation. The environment variables and the times that the code
-- takes from the clock are arguments.
pub mod Base
pub mod Indexer
pub mod Sim
pub mod App
