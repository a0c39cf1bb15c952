-- ===== src/Base/Division.antt =====
-- Floor division.
use Prim.Native.Nat.{ℕ, zero, suc, ◌*◌, ◌/◌, ◌^◌, ◌≤◌, ◌<◌}
use native.Mathlib.Omega.{arith}
use native.Mathlib.Nat.{
  le-div_iff_mul-le, div-mul-le_self, div-le_of_le-mul, mul-le-mul_left, one-le-pow, div-zero,
  le_trans, le_of_mul-le-mul_right, mul-le-mul_right, mul_right_comm,
}

pub div_mono : (m n k : ℕ) → m ≤ n → m / k ≤ n / k
div_mono m n zero h = rw (div-zero m, div-zero n) (omega arith)
div_mono m n (suc k) h =
    (le-div_iff_mul-le (omega arith)).1 (le_trans (div-mul-le_self m (suc k)) h)

pub mul-div-le : (p m d : ℕ) → m ≤ d → p * m / d ≤ p
mul-div-le p m d h = div-le_of_le-mul d (grind (arith, mul-le-mul_left p h))

pub pow_pos : (n : ℕ) → 0 < 10 ^ n
pow_pos n = one-le-pow n 10 (omega arith)

pub div_cross : (a b c d : ℕ) → 0 < b → 0 < d → a * d ≤ c * b → a / b ≤ c / d
div_cross a b c d hb hd h = (le-div_iff_mul-le hd).1 (
    le_of_mul-le-mul_right {k = b}
      (grind (arith, mul-le-mul_right d (div-mul-le_self a b), mul_right_comm (a / b) d b)) hb)
