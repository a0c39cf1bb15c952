-- ===== src/Indexer/Graph/Logging.antt =====
-- Which events leave a row in the activity feed of indexer/src/helpers.ts, one step at a time.
use nextblock.Base.{
  ◌≡◌, ◌≢◌, refl, Bool, true, false, List, [], ◌∷◌, arith, All, ◌∙◌, inl, inr, Bool-cases,
}
use nextblock.Base.Table.{load, save, load-save}
use nextblock.Indexer.Log.{Meta, row_key, same_RowId_iff, event_id, Feed, ProtocolEvent, log_event}
use nextblock.Indexer.Claims
use nextblock.Indexer.Portfolios
use nextblock.Indexer.Premiums
use nextblock.Indexer.Vaults
use nextblock.Indexer.Factory
use nextblock.Indexer.Compliance
use nextblock.Indexer.Nav
use nextblock.Indexer.Allocator
use nextblock.Indexer.Bordereau
use nextblock.Indexer.Adapters
use nextblock.Indexer.Policies
use nextblock.Indexer.Graph.{
  Db, Event, redemption, vault_created, vault, portfolio, premium, claim, policy, compliance, nav,
  bordereau, allocator, adapter, assessment, step, run,
}

-- The row carries the time, the block and the transaction of the event.
abbrev pub IsRowOf : Meta → ProtocolEvent → Type 0
IsRowOf m r =
    (r.timestamp ≡ m.timestamp) × (r.block_number ≡ m.block_number) × (r.tx_hash ≡ m.tx_hash)

-- `after` is the feed `before` with one row, of this event, under the event's id.
abbrev pub Logs : Meta → Feed → Feed → Type 0
Logs m before after = (r : ProtocolEvent) × IsRowOf m r × (after ≡ save (event_id m) r before)

claims-Logs :
    (m : Meta) (e : Claims.Event) (s : Claims.Store) → Logs m s.feed (Claims.handle m e s).feed
unfolding Claims.handle log_event
claims-Logs m (Claims.claim_submitted e) s = (_, (refl, refl, refl), refl)
claims-Logs m _ s = (_, (refl, refl, refl), refl)

portfolios-Logs :
    (m : Meta) (e : Portfolios.Event) (s : Portfolios.Store)
    → Logs m s.feed (Portfolios.handle m e s).feed
unfolding Portfolios.handle log_event
portfolios-Logs m (Portfolios.portfolio_submitted e) s = (_, (refl, refl, refl), refl)
portfolios-Logs m _ s = (_, (refl, refl, refl), refl)

premiums-Logs :
    (m : Meta) (e : Premiums.Event) (s : Premiums.Store)
    → Logs m s.feed (Premiums.handle m e s).feed
unfolding Premiums.handle log_event
premiums-Logs m (Premiums.premium_received p from gross) s = (_, (refl, refl, refl), refl)
premiums-Logs m _ s = (_, (refl, refl, refl), refl)

vaults-Logs :
    (m : Meta) (e : Vaults.Event) (s : Vaults.Store) → Logs m s.feed (Vaults.handle m e s).feed
unfolding Vaults.handle log_event
vaults-Logs m (Vaults.fees_collected recipient amount) s = (_, (refl, refl, refl), refl)
vaults-Logs m _ s = (_, (refl, refl, refl), refl)

policies-Logs :
    (m : Meta) (e : Policies.Event) (s : Policies.Store)
    → Logs m s.feed (Policies.handle m e s).feed
unfolding Policies.handle log_event
policies-Logs m (Policies.real_time_locked at) s = (_, (refl, refl, refl), refl)
policies-Logs m _ s = (_, (refl, refl, refl), refl)

compliance-Logs :
    (m : Meta) (e : Compliance.Event) (s : Compliance.Store)
    → Logs m s.feed (Compliance.handle m e s).feed
unfolding Compliance.handle log_event
compliance-Logs m (Compliance.whitelist_updated user allowed) s = (_, (refl, refl, refl), refl)
compliance-Logs m _ s = (_, (refl, refl, refl), refl)

nav-Logs : (m : Meta) (e : Nav.Event) (s : Nav.Store) → Logs m s.feed (Nav.handle m e s).feed
unfolding Nav.handle log_event
nav-Logs m (Nav.feed_paused v by) s = (_, (refl, refl, refl), refl)
nav-Logs m _ s = (_, (refl, refl, refl), refl)

bordereau-Logs :
    (m : Meta) (e : Bordereau.Event) (s : Bordereau.Store)
    → Logs m s.feed (Bordereau.handle m e s).feed
unfolding Bordereau.handle log_event
bordereau-Logs m (Bordereau.assertion_proposed e) s = (_, (refl, refl, refl), refl)
bordereau-Logs m _ s = (_, (refl, refl, refl), refl)

allocator-Logs :
    (m : Meta) (e : Allocator.Event) (s : Allocator.Store)
    → Logs m s.feed (Allocator.handle m e s).feed
unfolding Allocator.handle log_event
allocator-Logs m (Allocator.allocation_proposed e) s = (_, (refl, refl, refl), refl)
allocator-Logs m _ s = (_, (refl, refl, refl), refl)

adapters-Logs :
    (m : Meta) (e : Adapters.Event) (s : Adapters.Store)
    → Logs m s.feed (Adapters.handle m e s).feed
unfolding Adapters.handle log_event
adapters-Logs m (Adapters.adapter_activated id by) s = (_, (refl, refl, refl), refl)
adapters-Logs m _ s = (_, (refl, refl, refl), refl)

-- Every data source but the RedemptionQueue writes the feed.
abbrev pub logs : Event → Bool
logs (redemption e) = false
logs _ = true

pub step-Logs : (m : Meta) (e : Event) (db : Db) → logs e ≡ true → Logs m db.feed (step m e db).feed
unfolding step log_event Factory.handle_vault_created Policies.handle_assessment_published
step-Logs m (redemption e) db h = cc
step-Logs m (vault_created e) db h = (_, (refl, refl, refl), refl)
step-Logs m (vault e) db h = vaults-Logs m e _
step-Logs m (portfolio e) db h = portfolios-Logs m e _
step-Logs m (premium e) db h = premiums-Logs m e _
step-Logs m (claim e) db h = claims-Logs m e _
step-Logs m (policy e) db h = policies-Logs m e _
step-Logs m (compliance e) db h = compliance-Logs m e _
step-Logs m (nav e) db h = nav-Logs m e _
step-Logs m (bordereau e) db h = bordereau-Logs m e _
step-Logs m (allocator e) db h = allocator-Logs m e _
step-Logs m (adapter e) db h = adapters-Logs m e _
step-Logs m (assessment e) db h = (_, (refl, refl, refl), refl)

pub step-silent : (m : Meta) (e : Event) (db : Db) → logs e ≡ false → (step m e db).feed ≡ db.feed
unfolding step
step-silent m (redemption e) db h = refl
step-silent m (vault_created e) db h = cc
step-silent m _ db h = cc

-- An event leaves the rows of all other ids alone.
pub load-step :
    (i m : Meta) (e : Event) (db : Db)
    → event_id i ≢ event_id m
    → load (event_id i) (step m e db).feed ≡ load (event_id i) db.feed
load-step i m e db ne = elim (Bool-cases (logs e)) [
  | inl h ↦
      let (r, _, eq) = step-Logs m e db h in
      rw eq (
        ground (
          arith,
          load-save (event_id i) (event_id m) r db.feed,
          same_RowId_iff (event_id m) (event_id i),
        ))
  | inr h ↦ rw (step-silent m e db h) refl
]

pub load-run :
    (i : Meta) (es : List (Meta × Event)) (db : Db)
    → All (λ y. event_id i ≢ event_id y.0) es
    → load (event_id i) (run es db).feed ≡ load (event_id i) db.feed
unfolding run
load-run i [] db d = refl
load-run i ((m, e) ∷ es) db d = load-run i es (step m e db) d.1 ∙ load-step i m e db d.0
