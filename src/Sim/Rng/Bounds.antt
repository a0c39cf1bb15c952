-- ===== src/Sim/Rng/Bounds.antt =====
-- The ranges of the draws of packages/sim/src/risk/prng.ts.
use nextblock.Base.{ℕ, ◌+◌, ◌-◌, ◌*◌, ◌/◌, ◌^◌, ◌≤◌, ◌<◌, ok, ◌≡◌, arith}
use native.Mathlib.Nat.{mod-lt, div-lt_iff_lt-mul, mul-lt-mul_of_pos_right}
use nextblock.Sim.Rng.{Rng, next_uint32, int}

pub next_uint32-lt : (r : Rng) → (next_uint32 r).0 < 2 ^ 32
unfolding next_uint32
next_uint32-lt r = mod-lt _ (omega arith)

pub scaled-lt : (r : Rng) (n : ℕ) → 0 < n → (next_uint32 r).0 * n / 2 ^ 32 < n
scaled-lt r n h =
    (div-lt_iff_lt-mul (omega arith)).1
      (grind (arith, mul-lt-mul_of_pos_right {k = n} (next_uint32-lt r)))

-- A draw from a range that is not empty gives an integer of that range.
int-IsInRange :
    (lo hi : ℕ) (r : Rng)
    → lo ≤ hi
    → (n : ℕ) × (rest : Rng) × (int lo hi r ≡ ok (n, rest)) × (lo ≤ n) × (n ≤ hi)
unfolding int
int-IsInRange lo hi r h =
    let u = (next_uint32 r).0 in
    (
      lo + u * (hi - lo + 1) / 2 ^ 32,
      (next_uint32 r).1,
      ground arith,
      omega arith,
      omega (arith, scaled-lt r (hi - lo + 1) (omega arith)),
    )
