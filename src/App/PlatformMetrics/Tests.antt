-- ===== src/App/PlatformMetrics/Tests.antt =====
-- The platform's figures for two vaults.
use nextblock.Base.{ℕ, ◌≤◌, ◌<◌, ◌≡◌, arith, codes, List, [], ◌∷◌, sum_of, true}
use nextblock.App.PlatformMetrics.{
  VaultSnapshot, PlatformTotals, aggregate_platform, capital_allocation, reserve_health,
}
use nextblock.App.PlatformMetrics.Shares.{bps_total, capital_allocation_lem}
use nextblock.App.PlatformMetrics.Floor.{reserve_health-meets_floor}

abbrev vault : (assets buffer : ℕ) → VaultSnapshot
vault assets buffer = record {
  address = codes "0x1";
  name = codes "A";
  total_assets = assets;
  total_supply = assets;
  available_buffer = buffer;
  deployed_capital = 300;
  pending_claims = 50;
  buffer_ratio_bps = 2000;
  policy_count = 1;
}

abbrev two_vaults : List VaultSnapshot
two_vaults = vault 1000 200 ∷ vault 999 400 ∷ []

reserve_health-meets_floor_example :
    (reserve_health two_vaults (aggregate_platform two_vaults 1)).meets_floor ≡ true
reserve_health-meets_floor_example =
    reserve_health-meets_floor two_vaults 1 (omega arith, (omega arith, tt))

abbrev totals : PlatformTotals
totals = record {
  vault_count = 2;
  unreadable_count = 0;
  totals = record {
    tvl = 1999;
    deployed_capital = 600;
    available_buffer = 600;
    claim_reserves = 100;
    policy_count = 2;
  };
  utilisation_bps = 3001;
  buffer_bps = 3001;
  reserve_bps = 500;
}

capital_allocation_lem_example :
    (sum_of (λ s. s.value) (capital_allocation totals) ≡ 1999)
    × ((bps_total (capital_allocation totals) ≤ 10000)
        × (9996 < bps_total (capital_allocation totals)))
capital_allocation_lem_example = capital_allocation_lem totals (omega arith) (omega arith)
