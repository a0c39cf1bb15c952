-- ===== src/Indexer/Redemption/Settlement.antt =====
-- The settlement totals of indexer/src/redemption-queue.ts.
use nextblock.Base.{ℕ, ◌≡◌, ◌≢◌, refl, Option, none, some, List, [], ◌∷◌, arith, All}
use nextblock.Base.Keys.{number_key}
use nextblock.Base.Table.{load, total, total-save, load-save}
use nextblock.Indexer.Log.{Meta}
use nextblock.Indexer.Redemption.{
  Store, Event, redemption_requested, epoch_settled, epoch_of, request_epoch, settle_epoch,
  redemption_claimed, paused_set, empty, stat, handle, run,
}

abbrev pub settles : Event → Option ℕ
settles (epoch_settled id shares assets ratio_bps) = some id
settles _ = none

-- No epoch id is settled by two events.
abbrev pub SettlesOnce : List (Meta × Event) → Type 0
SettlesOnce [] = Unit
SettlesOnce ((m, e) ∷ es) =
    ((id : ℕ) → settles e ≡ some id → All (λ x. settles x.1 ≢ some id) es) × SettlesOnce es

-- An epoch that an event is to settle carries no settled figures yet.
abbrev IsPending : Store → List (Meta × Event) → Type 0
IsPending s es =
    All
      (λ x.
        (id : ℕ)
        → settles x.1 ≡ some id
        → ((epoch_of id 0 (load id s.epochs)).settled_shares ≡ 0)
          × ((epoch_of id 0 (load id s.epochs)).settled_assets ≡ 0))
      es

pub record IsSettledSum (s : Store) : Type 0 where
  pub shares : total (λ e. e.settled_shares) s.epochs ≡ (stat s.global).total_settled_shares
  pub assets : total (λ e. e.settled_assets) s.epochs ≡ (stat s.global).total_settled_assets

requested-IsSettledSum :
    (m : Meta) (epoch lp shares : ℕ) (s : Store)
    → IsSettledSum s
    → IsSettledSum (handle m (redemption_requested epoch lp shares) s)
unfolding handle
requested-IsSettledSum m epoch lp shares s c =
    let e = request_epoch shares (epoch_of epoch m.block_number (load epoch s.epochs)) in
    record {
      shares = ground (arith, total-save (λ x. x.settled_shares) epoch e s.epochs);
      assets = ground (arith, total-save (λ x. x.settled_assets) epoch e s.epochs);
    }

requested-IsPending :
    (m : Meta) (epoch lp shares : ℕ) (s : Store) (es : List (Meta × Event))
    → IsPending s es
    → IsPending (handle m (redemption_requested epoch lp shares) s) es
unfolding handle
requested-IsPending m epoch lp shares s [] p = tt
requested-IsPending m epoch lp shares s (x ∷ es) p = (
  λ id h. ground (
    arith,
    load-save id epoch (request_epoch shares (epoch_of epoch m.block_number (load epoch s.epochs)))
        s.epochs,
    p.0 id h,
  ),
  requested-IsPending m epoch lp shares s es p.1,
)

settled-IsSettledSum :
    (m : Meta) (epoch shares assets ratio_bps : ℕ) (s : Store)
    → ((epoch_of epoch 0 (load epoch s.epochs)).settled_shares ≡ 0)
      × ((epoch_of epoch 0 (load epoch s.epochs)).settled_assets ≡ 0)
    → IsSettledSum s
    → IsSettledSum (handle m (epoch_settled epoch shares assets ratio_bps) s)
unfolding handle
settled-IsSettledSum m epoch shares assets ratio_bps s z c =
    let e =
      settle_epoch shares assets ratio_bps m.timestamp
        (epoch_of epoch m.block_number (load epoch s.epochs)) in
    record {
      shares = ground (arith, total-save (λ x. x.settled_shares) epoch e s.epochs);
      assets = ground (arith, total-save (λ x. x.settled_assets) epoch e s.epochs);
    }

settled-IsPending :
    (m : Meta) (epoch shares assets ratio_bps : ℕ) (s : Store) (es : List (Meta × Event))
    → All (λ x. settles x.1 ≢ some epoch) es
    → IsPending s es
    → IsPending (handle m (epoch_settled epoch shares assets ratio_bps) s) es
unfolding handle
settled-IsPending m epoch shares assets ratio_bps s [] o p = tt
settled-IsPending m epoch shares assets ratio_bps s (x ∷ es) o p = (
  λ id h. ground (
    arith,
    load-save id epoch
        (settle_epoch shares assets ratio_bps m.timestamp
          (epoch_of epoch m.block_number (load epoch s.epochs)))
        s.epochs,
    p.0 id h,
    o.0,
  ),
  settled-IsPending m epoch shares assets ratio_bps s es o.1 p.1,
)

run-IsSettledSum :
    (es : List (Meta × Event)) (s : Store)
    → SettlesOnce es
    → IsPending s es
    → IsSettledSum s
    → IsSettledSum (run es s)
unfolding run handle
run-IsSettledSum [] s o p c = c
run-IsSettledSum ((m, redemption_requested epoch lp shares) ∷ es) s o p c =
    run-IsSettledSum es _ o.1 (requested-IsPending m epoch lp shares s es p.1)
      (requested-IsSettledSum m epoch lp shares s c)
run-IsSettledSum ((m, epoch_settled epoch shares assets ratio_bps) ∷ es) s o p c =
    run-IsSettledSum es _ o.1
      (settled-IsPending m epoch shares assets ratio_bps s es (o.0 epoch refl) p.1)
      (settled-IsSettledSum m epoch shares assets ratio_bps s (p.0 epoch refl) c)
run-IsSettledSum ((m, redemption_claimed epoch lp assets_paid shares_returned) ∷ es) s o p c =
    run-IsSettledSum es _ o.1 p.1 (record { shares = c.shares; assets = c.assets })
run-IsSettledSum ((m, paused_set paused) ∷ es) s o p c =
    run-IsSettledSum es _ o.1 p.1 (record { shares = c.shares; assets = c.assets })

IsPending-empty : (es : List (Meta × Event)) → IsPending empty es
unfolding load
IsPending-empty [] = tt
IsPending-empty (x ∷ es) = (λ id h. (refl, refl), IsPending-empty es)

-- After a history from the empty store in which no epoch id is settled twice, the rollup's settled
-- shares and assets are the sums over the epochs.
pub run-empty-IsSettledSum :
    (es : List (Meta × Event)) → SettlesOnce es → IsSettledSum (run es empty)
run-empty-IsSettledSum es o =
    run-IsSettledSum es empty o (IsPending-empty es) (record { shares = refl; assets = refl })
