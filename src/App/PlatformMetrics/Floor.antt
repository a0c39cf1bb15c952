-- ===== src/App/PlatformMetrics/Floor.antt =====
-- The floor of the buffer in app/src/lib/platform-metrics.ts.
use nextblock.Base.{ℕ, ◌+◌, ◌*◌, ◌≤◌, ◌≡◌, arith, List, [], ◌∷◌, All, true}
use nextblock.Base.Division.{div_mono}
use nextblock.App.PlatformMetrics.{
  VaultSnapshot, Sums, sums_from, add_vault, no_sums, weighted_from, bps_of, aggregate_platform,
  reserve_health,
}

-- The vault's buffer is at least its floor.
abbrev pub KeepsFloor : VaultSnapshot → Type 0
KeepsFloor v = v.buffer_ratio_bps * v.total_assets ≤ v.available_buffer * 10000

weighted-le :
    (acc : ℕ) (sums : Sums) (vaults : List VaultSnapshot)
    → acc ≤ sums.available_buffer * 10000
    → All KeepsFloor vaults
    → weighted_from acc vaults ≤ (sums_from sums vaults).available_buffer * 10000
weighted-le acc sums [] h k = h
weighted-le acc sums (v ∷ vaults) h (k, ks) =
    weighted-le (acc + v.buffer_ratio_bps * v.total_assets) (add_vault sums v) vaults (grind arith)
      ks

-- When every vault keeps its own floor, the buffer of them together meets the floor that their
-- weights ask for, whatever was unreadable and however both are rounded.
pub reserve_health-meets_floor :
    (vaults : List VaultSnapshot) (unreadable_count : ℕ)
    → All KeepsFloor vaults
    → (reserve_health vaults (aggregate_platform vaults unreadable_count)).meets_floor ≡ true
unfolding reserve_health aggregate_platform bps_of
reserve_health-meets_floor vaults unreadable_count h =
    let sums = sums_from no_sums vaults in
    let below =
      div_mono (weighted_from 0 vaults) (sums.available_buffer * 10000) sums.tvl
        (weighted-le 0 no_sums vaults (omega arith) h) in
    ground (arith, below)
