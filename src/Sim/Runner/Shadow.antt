-- ===== src/Sim/Runner/Shadow.antt =====
-- `gradeShadow` of packages/sim/src/runner.ts.
use nextblock.Base.{◌+◌, ◌≤◌, List, [], ◌∷◌, map, false, ◌≡◌, ◌↔◌, arith}
use nextblock.Sim.Ledger.{Divergence, compare, share_price, one_bps}
use nextblock.Sim.Ledger.Compare.{compare-agrees}
use nextblock.Sim.Findings.{p0, classify, some_severity}
use nextblock.Sim.Outcomes.{Place, drift_of}
use nextblock.Sim.Runner.{ChainClient, RunConfig, shadow_figures, grade_shadow}

drift_IsP0 :
    (place : Place) (ds : List Divergence)
    → (some_severity p0 (map (drift_of place) ds) ≡ false) ↔ (ds ≡ [])
unfolding drift_of classify
drift_IsP0 place [] = ground arith
drift_IsP0 place (d ∷ ds) = ground arith

-- The shadow is graded clean exactly when the figures of the chain agree with it, and any finding is
-- of the first grade.
pub grade_shadow_iff :
    {W : Type 0} (client : ChainClient W) (config : RunConfig) (place : Place) (w : W)
    → let e = config.shadow in
      let o = client.read_accounting config.tracked_vault w in
      let price = share_price e (client.read_state w).block_timestamp 18 in
      ((e.balance ≡ o.balance)
        × (e.total_shares ≡ o.total_shares)
        × (price ≤ o.share_price + one_bps)
        × (o.share_price ≤ price + one_bps))
      ↔ (some_severity p0 (grade_shadow client config place w) ≡ false)
unfolding grade_shadow
grade_shadow_iff client config place w = ground (
  arith,
  drift_IsP0 place
      (compare (shadow_figures client config w) (client.read_accounting config.tracked_vault w)),
  compare-agrees (shadow_figures client config w) (client.read_accounting config.tracked_vault w),
)
