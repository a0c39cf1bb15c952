-- ===== src/App/PlatformMetrics.antt =====
-- app/src/lib/platform-metrics.ts: sums and ratios over what the vaults report. A colour is its place
-- in the palette. The split by vault, whose order of equal vaults the language leaves open, and the
-- figures that are doubles are left out.
pub mod Shares
pub mod Floor
mod Tests
use nextblock.Base.{
  ℕ, ◌+◌, ◌-◌, ◌*◌, ◌/◌, ◌%◌, Text, codes, length, List, [], ◌∷◌, Bool, true, false, ltb, leb, eqb,
  if◌then◌else◌,
}

pub record VaultSnapshot : Type 0 where
  pub address : Text
  pub name : Text
  pub total_assets : ℕ
  pub total_supply : ℕ
  pub available_buffer : ℕ
  pub deployed_capital : ℕ
  pub pending_claims : ℕ
  pub buffer_ratio_bps : ℕ
  pub policy_count : ℕ

-- The sums of aggregatePlatform.
pub record Sums : Type 0 where
  pub tvl : ℕ
  pub deployed_capital : ℕ
  pub available_buffer : ℕ
  pub claim_reserves : ℕ
  pub policy_count : ℕ

pub record PlatformTotals : Type 0 where
  pub vault_count : ℕ
  pub unreadable_count : ℕ
  pub totals : Sums
  pub utilisation_bps : ℕ
  pub buffer_bps : ℕ
  pub reserve_bps : ℕ

unfoldable pub bps_of : (part whole : ℕ) → ℕ
bps_of part whole = if eqb whole 0 then 0 else part * 10000 / whole

abbrev pub add_vault : Sums → VaultSnapshot → Sums
add_vault acc v = record {
  tvl = acc.tvl + v.total_assets;
  deployed_capital = acc.deployed_capital + v.deployed_capital;
  available_buffer = acc.available_buffer + v.available_buffer;
  claim_reserves = acc.claim_reserves + v.pending_claims;
  policy_count = acc.policy_count + v.policy_count;
}

abbrev pub sums_from : Sums → List VaultSnapshot → Sums
sums_from acc [] = acc
sums_from acc (v ∷ vaults) = sums_from (add_vault acc v) vaults

abbrev pub no_sums : Sums
no_sums = record {
  tvl = 0;
  deployed_capital = 0;
  available_buffer = 0;
  claim_reserves = 0;
  policy_count = 0;
}

pub aggregate_platform : List VaultSnapshot → (unreadable_count : ℕ) → PlatformTotals
unfolding bps_of
aggregate_platform vaults unreadable_count =
    let sums = sums_from no_sums vaults in
    record {
      vault_count = length vaults;
      unreadable_count = unreadable_count;
      totals = sums;
      utilisation_bps = bps_of sums.deployed_capital sums.tvl;
      buffer_bps = bps_of sums.available_buffer sums.tvl;
      reserve_bps = bps_of sums.claim_reserves sums.tvl;
    }

pub record AllocationSlice : Type 0 where
  pub label : Text
  pub value : ℕ
  pub bps : ℕ
  pub color : ℕ

-- The slices that are not empty, in order; `i` counts those before.
pub slices_from : (tvl i : ℕ) → List (Text × ℕ) → List AllocationSlice
unfolding bps_of
slices_from tvl i [] = []
slices_from tvl i ((label, value) ∷ raw) =
    let later = slices_from tvl (i + 1) raw in
    let rest = slices_from tvl i raw in
    if ltb 0 value
    then record { label = label; value = value; bps = bps_of value tvl; color = i % 8 } ∷ later
    else rest

abbrev pub raw_slices : Sums → List (Text × ℕ)
raw_slices t =
    (codes "Deployed to underwriting", t.deployed_capital)
    ∷ (codes "Liquidity buffer", t.available_buffer)
    ∷ (codes "Claim reserves", t.claim_reserves)
    ∷ (codes "Other", t.tvl - (t.deployed_capital + t.available_buffer + t.claim_reserves))
    ∷ []

pub capital_allocation : PlatformTotals → List AllocationSlice
unfolding slices_from
capital_allocation t = slices_from t.totals.tvl 0 (raw_slices t.totals)

pub record ReserveHealth : Type 0 where
  pub buffer_bps : ℕ
  pub required_bps : ℕ
  pub meets_floor : Bool
  pub reserve_bps : ℕ

abbrev pub weighted_from : ℕ → List VaultSnapshot → ℕ
weighted_from acc [] = acc
weighted_from acc (v ∷ vaults) = weighted_from (acc + v.buffer_ratio_bps * v.total_assets) vaults

abbrev required_of : (weighted tvl : ℕ) → ℕ
required_of weighted tvl = if ltb 0 tvl then weighted / tvl else 0

pub reserve_health : List VaultSnapshot → PlatformTotals → ReserveHealth
reserve_health vaults t =
    let required = required_of (weighted_from 0 vaults) t.totals.tvl in
    record {
      buffer_bps = t.buffer_bps;
      required_bps = required;
      meets_floor = leb required t.buffer_bps;
      reserve_bps = t.reserve_bps;
    }
