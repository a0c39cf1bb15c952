-- ===== src/Indexer/Redemption/Conservation.antt =====
-- The rollup of indexer/src/redemption-queue.ts against the per-LP and per-epoch rows.
use nextblock.Base.{ℕ, ◌+◌, ◌≡◌, refl, none, List, [], ◌∷◌, arith}
use nextblock.Base.Keys.{number_key}
use nextblock.Base.Table.{load, save, total, total-save_add}
use nextblock.Indexer.Log.{Meta}
use nextblock.Indexer.Redemption.{
  Epoch, LpPosition, Store, Event, redemption_requested, epoch_settled, epoch_of, lp_of,
  request_epoch, request_lp, settle_epoch, claim_lp, redemption_claimed, paused_set, empty, stat,
  handle, run,
}

pub record IsConserved (s : Store) : Type 0 where
  pub requested_lps :
      total (λ l. l.total_shares_requested) s.lps ≡ (stat s.global).total_shares_requested
  pub requested_epochs :
      total (λ e. e.total_shares_requested) s.epochs ≡ (stat s.global).total_shares_requested
  pub claimed_lps : total (λ l. l.total_assets_claimed) s.lps ≡ (stat s.global).total_assets_claimed

module _ (lp d : ℕ) (l : LpPosition) (s : Store) where
  -- A saved position that moves one of its numbers by `d` moves that sum by `d`.
  lps-save :
      (f : LpPosition → ℕ)
      → f (lp_of none) ≡ 0
      → f l ≡ f (lp_of (load lp s.lps)) + d
      → total f (save lp l s.lps) ≡ total f s.lps + d
  lps-save f z h = total-save_add f lp l s.lps d (ground arith)

module _ (id block d : ℕ) (e : Epoch) (s : Store) where
  epochs-save :
      (f : Epoch → ℕ)
      → f (epoch_of id block none) ≡ 0
      → f e ≡ f (epoch_of id block (load id s.epochs)) + d
      → total f (save id e s.epochs) ≡ total f s.epochs + d
  epochs-save f z h = total-save_add f id e s.epochs d (ground arith)

handle-IsConserved : (m : Meta) (e : Event) (s : Store) → IsConserved s → IsConserved (handle m e s)
unfolding handle
handle-IsConserved m (redemption_requested epoch lp shares) s c = record {
  requested_lps = omega (
    arith,
    lps-save lp shares (request_lp shares (lp_of (load lp s.lps))) s (λ l. l.total_shares_requested)
        refl refl,
  );
  requested_epochs = omega (
    arith,
    epochs-save epoch m.block_number shares
        (request_epoch shares (epoch_of epoch m.block_number (load epoch s.epochs))) s
        (λ e. e.total_shares_requested) refl refl,
  );
  claimed_lps = omega (
    arith,
    lps-save lp 0 (request_lp shares (lp_of (load lp s.lps))) s (λ l. l.total_assets_claimed) refl
        (omega arith),
  );
}
handle-IsConserved m (epoch_settled epoch shares assets ratio_bps) s c = record {
  requested_lps = c.requested_lps;
  requested_epochs = omega (
    arith,
    epochs-save epoch m.block_number 0
        (settle_epoch shares assets ratio_bps m.timestamp
          (epoch_of epoch m.block_number (load epoch s.epochs)))
        s (λ e. e.total_shares_requested) refl (omega arith),
  );
  claimed_lps = c.claimed_lps;
}
handle-IsConserved m (redemption_claimed epoch lp assets_paid shares_returned) s c = record {
  requested_lps = omega (
    arith,
    lps-save lp 0 (claim_lp assets_paid shares_returned (lp_of (load lp s.lps))) s
        (λ l. l.total_shares_requested) refl (omega arith),
  );
  requested_epochs = c.requested_epochs;
  claimed_lps = omega (
    arith,
    lps-save lp assets_paid (claim_lp assets_paid shares_returned (lp_of (load lp s.lps))) s
        (λ l. l.total_assets_claimed) refl refl,
  );
}
handle-IsConserved m (paused_set paused) s c = record {
  requested_lps = c.requested_lps;
  requested_epochs = c.requested_epochs;
  claimed_lps = c.claimed_lps;
}

run-IsConserved : (es : List (Meta × Event)) (s : Store) → IsConserved s → IsConserved (run es s)
unfolding run
run-IsConserved [] s c = c
run-IsConserved ((m, e) ∷ es) s c = run-IsConserved es (handle m e s) (handle-IsConserved m e s c)

-- After any history from the empty store, the rollup's requested shares are the sum over the LP
-- positions and the sum over the epochs, and its claimed assets the sum over the LP positions.
pub run-empty-IsConserved : (es : List (Meta × Event)) → IsConserved (run es empty)
run-empty-IsConserved es =
    run-IsConserved es empty
      (record { requested_lps = refl; requested_epochs = refl; claimed_lps = refl })
