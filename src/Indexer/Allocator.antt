-- ===== src/Indexer/Allocator.antt =====
-- indexer/src/vault-allocator.ts: the life of an allocation proposal.
use nextblock.Base.{ℕ, String, Bool, Option, none, some, List, [], ◌∷◌}
use nextblock.Base.Keys.{number_key}
use nextblock.Base.Table.{Table, load, save, amend}
use nextblock.Indexer.Log.{Meta, LogParams, no_params, Feed, log_event}

pub data ProposalStatus : Type 0 where
  proposed executed cancelled expired : ProposalStatus

pub record AllocationProposal : Type 0 where
  pub vault : ℕ
  pub portfolio_id : ℕ
  pub amount : ℕ
  pub is_deallocation : Bool
  pub proposer : ℕ
  pub expires_at : ℕ
  pub status : ProposalStatus
  pub executor : Option ℕ
  pub proposed_at : ℕ
  pub resolved_at : Option ℕ

pub record Store : Type 0 where
  pub proposals : Table ℕ AllocationProposal
  pub feed : Feed

pub record Proposal : Type 0 where
  pub proposal_id : ℕ
  pub vault : ℕ
  pub portfolio_id : ℕ
  pub amount : ℕ
  pub is_deallocation : Bool
  pub proposer : ℕ
  pub expires_at : ℕ

abbrev pub new_proposal : ℕ → Proposal → AllocationProposal
new_proposal ts e = record {
  vault = e.vault;
  portfolio_id = e.portfolio_id;
  amount = e.amount;
  is_deallocation = e.is_deallocation;
  proposer = e.proposer;
  expires_at = e.expires_at;
  status = proposed;
  executor = none;
  proposed_at = ts;
  resolved_at = none;
}

abbrev pub resolved : ProposalStatus → ℕ → Option AllocationProposal → Option AllocationProposal
resolved status ts none = none
resolved status ts (some pr) = some (record pr { status = status; resolved_at = some ts })

-- `const pr = resolve(id, status, ts); if (pr != null) { …; pr.save(); }`
pub resolve :
    ℕ
    → ProposalStatus
    → ℕ
    → (AllocationProposal → AllocationProposal)
    → Table ℕ AllocationProposal
    → Table ℕ AllocationProposal
resolve id status ts f t = amend id (resolved status ts (load id t)) f t

log_allocator : Meta → String → LogParams → Feed → Feed
log_allocator m name p feed = log_event m "VaultAllocator" name p feed

pub handle_allocation_proposed : Meta → Proposal → Store → Store
unfolding log_allocator
handle_allocation_proposed m e s = record {
  proposals = save e.proposal_id (new_proposal m.timestamp e) s.proposals;
  feed =
      log_allocator m "AllocationProposed"
        (record no_params {
          vault = some e.vault;
          portfolio_id = some e.portfolio_id;
          actor = some e.proposer;
          amount = some e.amount;
        })
        s.feed;
}

pub handle_allocation_executed : Meta → (id executor : ℕ) → Store → Store
unfolding log_allocator
handle_allocation_executed m id executor s = record {
  proposals =
      resolve id executed m.timestamp (λ pr. record pr { executor = some executor }) s.proposals;
  feed = log_allocator m "AllocationExecuted" (record no_params { actor = some executor }) s.feed;
}

pub handle_allocation_cancelled : Meta → (id by : ℕ) → Store → Store
unfolding log_allocator
handle_allocation_cancelled m id by s = record {
  proposals = resolve id cancelled m.timestamp (λ pr. pr) s.proposals;
  feed = log_allocator m "AllocationCancelled" (record no_params { actor = some by }) s.feed;
}

pub handle_allocation_expired : Meta → (id : ℕ) → Store → Store
unfolding log_allocator
handle_allocation_expired m id s = record {
  proposals = resolve id expired m.timestamp (λ pr. pr) s.proposals;
  feed = log_allocator m "AllocationExpired" no_params s.feed;
}

pub data Event : Type 0 where
  allocation_proposed : Proposal → Event
  allocation_executed allocation_cancelled : (id actor : ℕ) → Event
  allocation_expired : (id : ℕ) → Event

unfoldable pub handle : Meta → Event → Store → Store
unfolding handle_allocation_proposed handle_allocation_executed handle_allocation_cancelled
    handle_allocation_expired
handle m (allocation_proposed e) s = handle_allocation_proposed m e s
handle m (allocation_executed id executor) s = handle_allocation_executed m id executor s
handle m (allocation_cancelled id by) s = handle_allocation_cancelled m id by s
handle m (allocation_expired id) s = handle_allocation_expired m id s

-- The VaultAllocator events of one chain, in their order.
unfoldable pub run : List (Meta × Event) → Store → Store
run [] s = s
run ((m, e) ∷ es) s = run es (handle m e s)
