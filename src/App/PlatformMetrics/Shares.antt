-- ===== src/App/PlatformMetrics/Shares.antt =====
-- The shares of capital of app/src/lib/platform-metrics.ts.
use nextblock.Base.{
  ℕ, zero, suc, ◌+◌, ◌*◌, ◌≤◌, ◌<◌, ◌≡◌, refl, sym, subst, ◌∙◌, arith, Text, List, [], ◌∷◌, sum_of,
}
use nextblock.App.PlatformMetrics.{
  PlatformTotals, AllocationSlice, bps_of, slices_from, raw_slices, capital_allocation,
}
use native.Mathlib.Nat.{div-add-mod', mod-lt, le_of_mul-le-mul_right, lt_of_mul-lt-mul_right}

abbrev raw_value : List (Text × ℕ) → ℕ
raw_value [] = 0
raw_value ((label, value) ∷ raw) = value + raw_value raw

abbrev raw_bps : ℕ → List (Text × ℕ) → ℕ
raw_bps tvl [] = 0
raw_bps tvl ((label, value) ∷ raw) = bps_of value tvl + raw_bps tvl raw

slices_from-sums :
    (tvl i : ℕ) (raw : List (Text × ℕ))
    → (sum_of (λ s. s.value) (slices_from tvl i raw) ≡ raw_value raw)
      × (sum_of (λ s. s.bps) (slices_from tvl i raw) ≡ raw_bps tvl raw)
unfolding slices_from
slices_from-sums tvl i [] = (refl, refl)
slices_from-sums tvl i ((label, zero) ∷ raw) = ground (arith, slices_from-sums tvl i raw)
slices_from-sums tvl i ((label, suc value) ∷ raw) = ground (arith, slices_from-sums tvl (i + 1) raw)

abbrev count : List (Text × ℕ) → ℕ
count [] = 0
count (r ∷ raw) = 1 + count raw

-- A part is its basis points, rounded down.
bps_of-bounds : (v n : ℕ) → 0 < n → (bps_of v n * n ≤ v * 10000) × (v * 10000 < bps_of v n * n + n)
unfolding bps_of
bps_of-bounds v zero h = absurd (omega arith)
bps_of-bounds v (suc n) h = grind (arith, div-add-mod' (v * 10000) (suc n), mod-lt (v * 10000) h)

raw_bps-bounds :
    (n : ℕ) (raw : List (Text × ℕ))
    → 0 < n
    → (raw_bps n raw * n ≤ raw_value raw * 10000)
      × (raw_value raw * 10000 + count raw ≤ raw_bps n raw * n + count raw * n)
raw_bps-bounds n [] h = (omega arith, omega arith)
raw_bps-bounds n ((label, value) ∷ raw) h =
    grind (arith, bps_of-bounds value n h, raw_bps-bounds n raw h)

abbrev pub bps_total : List AllocationSlice → ℕ
bps_total slices = sum_of (λ s. s.bps) slices

-- When there is capital, and the deployed capital, the buffer and the reserves are no more than it, the
-- slices of the allocation add up to the capital, and their basis points to at most 10000 and to more
-- than 9996.
pub capital_allocation_lem :
    (t : PlatformTotals)
    → 0 < t.totals.tvl
    → t.totals.deployed_capital + t.totals.available_buffer + t.totals.claim_reserves ≤ t.totals.tvl
    → (sum_of (λ s. s.value) (capital_allocation t) ≡ t.totals.tvl)
      × ((bps_total (capital_allocation t) ≤ 10000) × (9996 < bps_total (capital_allocation t)))
unfolding capital_allocation
capital_allocation_lem t some_capital h =
    let n = t.totals.tvl in
    let raw = raw_slices t.totals in
    let sums = slices_from-sums n 0 raw in
    let whole : raw_value raw ≡ n = omega arith in
    let bounds = raw_bps-bounds n raw some_capital in
    (
      sums.0 ∙ whole,
      (
        subst (λ q. q ≤ 10000) (sym sums.1)
            (le_of_mul-le-mul_right {k = n} (grind (arith, whole, bounds)) some_capital),
        subst (λ q. 9996 < q) (sym sums.1)
            (omega (
              arith,
              lt_of_mul-lt-mul_right n {m = 10000} {n = raw_bps n raw + 4}
                  (grind (arith, whole, bounds)),
            )),
      ),
    )
