-- ===== src/Indexer/Redemption/Rows.antt =====
-- The positions and epochs of indexer/src/redemption-queue.ts against the immutable rows.
use nextblock.Base.{ℕ, ◌≡◌, refl, none, List, [], ◌∷◌, arith, eqb, if◌then◌else◌}
use nextblock.Base.Keys.{number_key}
use nextblock.Base.Table.{load, total, total-save, load-save}
use nextblock.Indexer.Log.{Meta, row_key, event_id}
use nextblock.Indexer.History.{HasDistinctIds, IsUnseen, IsUnseen-save, IsUnseen-empty}
use nextblock.Indexer.Redemption.{
  RedemptionRequest, RedemptionClaim, Store, Event, redemption_requested, epoch_settled, epoch_of,
  lp_of, request_epoch, request_lp, settle_epoch, claim_lp, request_row, claim_row,
  redemption_claimed, paused_set, empty, handle, run,
}

abbrev shares_of_lp : ℕ → RedemptionRequest → ℕ
shares_of_lp a r = if eqb r.lp a then r.shares else 0

abbrev shares_of_epoch : ℕ → RedemptionRequest → ℕ
shares_of_epoch id r = if eqb r.epoch id then r.shares else 0

abbrev assets_of_lp : ℕ → RedemptionClaim → ℕ
assets_of_lp a c = if eqb c.lp a then c.assets_paid else 0

pub record Reconciles (s : Store) : Type 0 where
  pub requested :
      (a : ℕ) → (lp_of (load a s.lps)).total_shares_requested ≡ total (shares_of_lp a) s.requests
  pub epochs :
      (id : ℕ)
      → (epoch_of id 0 (load id s.epochs)).total_shares_requested
        ≡ total (shares_of_epoch id) s.requests
  pub claimed :
      (a : ℕ) → (lp_of (load a s.lps)).total_assets_claimed ≡ total (assets_of_lp a) s.claims

module _ (m : Meta) (s : Store) (r : Reconciles s) where
  requested-Reconciles :
      (epoch lp shares : ℕ)
      → load (event_id m) s.requests ≡ none
      → Reconciles (handle m (redemption_requested epoch lp shares) s)
  unfolding handle
  requested-Reconciles epoch lp shares new = record {
    requested = λ a. ground (
      arith,
      load-save a lp (request_lp shares (lp_of (load lp s.lps))) s.lps,
      total-save (shares_of_lp a) (event_id m) (request_row m epoch lp shares) s.requests,
      r.requested a,
    );
    epochs = λ id. ground (
      arith,
      load-save id epoch
          (request_epoch shares (epoch_of epoch m.block_number (load epoch s.epochs))) s.epochs,
      total-save (shares_of_epoch id) (event_id m) (request_row m epoch lp shares) s.requests,
      r.epochs id,
    );
    claimed = λ a.
        ground
          (arith, load-save a lp (request_lp shares (lp_of (load lp s.lps))) s.lps, r.claimed a);
  }

  settled-Reconciles :
      (epoch shares assets ratio_bps : ℕ)
      → Reconciles (handle m (epoch_settled epoch shares assets ratio_bps) s)
  unfolding handle
  settled-Reconciles epoch shares assets ratio_bps = record {
    requested = r.requested;
    epochs = λ id. ground (
      arith,
      load-save id epoch
          (settle_epoch shares assets ratio_bps m.timestamp
            (epoch_of epoch m.block_number (load epoch s.epochs)))
          s.epochs,
      r.epochs id,
    );
    claimed = r.claimed;
  }

  claimed-Reconciles :
      (epoch lp assets_paid shares_returned : ℕ)
      → load (event_id m) s.claims ≡ none
      → Reconciles (handle m (redemption_claimed epoch lp assets_paid shares_returned) s)
  unfolding handle
  claimed-Reconciles epoch lp assets_paid shares_returned new = record {
    requested = λ a. ground (
      arith,
      load-save a lp (claim_lp assets_paid shares_returned (lp_of (load lp s.lps))) s.lps,
      r.requested a,
    );
    epochs = r.epochs;
    claimed = λ a. ground (
      arith,
      load-save a lp (claim_lp assets_paid shares_returned (lp_of (load lp s.lps))) s.lps,
      total-save (assets_of_lp a) (event_id m) (claim_row m epoch lp assets_paid shares_returned)
          s.claims,
      r.claimed a,
    );
  }

run-Reconciles :
    (es : List (Meta × Event)) (s : Store)
    → HasDistinctIds es
    → IsUnseen s.requests es
    → IsUnseen s.claims es
    → Reconciles s
    → Reconciles (run es s)
unfolding run handle
run-Reconciles [] s d u w r = r
run-Reconciles ((m, redemption_requested epoch lp shares) ∷ es) s d u w r =
    run-Reconciles es _ d.1 (IsUnseen-save m _ s.requests es d.0 u.1) w.1
      (requested-Reconciles m s r epoch lp shares u.0)
run-Reconciles ((m, epoch_settled epoch shares assets ratio_bps) ∷ es) s d u w r =
    run-Reconciles es _ d.1 u.1 w.1 (settled-Reconciles m s r epoch shares assets ratio_bps)
run-Reconciles ((m, redemption_claimed epoch lp assets_paid shares_returned) ∷ es) s d u w r =
    run-Reconciles es _ d.1 u.1 (IsUnseen-save m _ s.claims es d.0 w.1)
      (claimed-Reconciles m s r epoch lp assets_paid shares_returned w.0)
run-Reconciles ((m, paused_set paused) ∷ es) s d u w r =
    run-Reconciles es _ d.1 u.1 w.1
      (record { requested = r.requested; epochs = r.epochs; claimed = r.claimed })

-- After a history of events with distinct ids from the empty store, the requested shares of each LP
-- and of each epoch are the sums of its request rows, and the claimed assets of each LP the sum of
-- its claim rows.
pub run-empty-Reconciles :
    (es : List (Meta × Event)) → HasDistinctIds es → Reconciles (run es empty)
unfolding load
run-empty-Reconciles es d =
    run-Reconciles es empty d (IsUnseen-empty RedemptionRequest es)
      (IsUnseen-empty RedemptionClaim es)
      (record { requested = λ a. refl; epochs = λ id. refl; claimed = λ a. refl })
