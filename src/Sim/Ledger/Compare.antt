-- ===== src/Sim/Ledger/Compare.antt =====
-- The comparison of the model with the chain in packages/sim/src/shadow/ledger.ts.
use nextblock.Base.{◌+◌, ◌≤◌, ◌≡◌, ◌↔◌, [], arith}
use nextblock.Sim.Ledger.{Figures, compare, one_bps, abs_diff}

-- The comparison reports nothing exactly when the balances and the shares are equal and the two
-- prices are at most one basis point of par apart.
pub compare-agrees :
    (e o : Figures)
    → (compare e o ≡ []) ↔ (
        (e.balance ≡ o.balance)
        × (e.total_shares ≡ o.total_shares)
        × (e.share_price ≤ o.share_price + one_bps)
        × (o.share_price ≤ e.share_price + one_bps))
unfolding compare abs_diff
compare-agrees e o = ground arith
