-- ===== src/Base/Decimals.antt =====
-- `String(n)` and `BigInt(digits)` for natural numbers.
use Prim.Native.Nat.{ℕ, zero, suc, ◌+◌, ◌-◌, ◌*◌, ◌/◌, ◌%◌, ◌<◌}
use mathlib.Core.Path.{◌≡◌, refl}
use mathlib.Core.Bool.{Bool, true, ◌&&◌}
use mathlib.Core.List.{[], ◌∷◌, ◌++◌}
use native.Mathlib.Omega.{arith}
use nextblock.Base.Tests.{ltb, if◌then◌else◌}
use nextblock.Base.Texts.{Text, between}

abbrev pub is_digit : ℕ → Bool
is_digit c = between 48 57 c

abbrev pub all_digits : Text → Bool
all_digits [] = true
all_digits (c ∷ t) = is_digit c && all_digits t

-- The number that digits spell behind `n`.
abbrev pub digits_value : ℕ → Text → ℕ
digits_value n [] = n
digits_value n (c ∷ t) = digits_value (n * 10 + (c - 48)) t

-- `fuel` is more than the number of digits.
digits_of : (fuel n : ℕ) → Text
digits_of zero n = []
digits_of (suc fuel) n =
    let rest = digits_of fuel (n / 10) in
    if ltb n 10 then (48 + n) ∷ [] else rest ++ (48 + n % 10) ∷ []

unfoldable pub print : ℕ → Text
unfolding digits_of
print n = digits_of (suc n) n

digits_value-append :
    (n : ℕ) (t u : Text) → digits_value n (t ++ u) ≡ digits_value (digits_value n t) u
digits_value-append n [] u = refl
digits_value-append n (c ∷ t) u = digits_value-append (n * 10 + (c - 48)) t u

all_digits-append :
    (t u : Text) → all_digits t ≡ true → all_digits u ≡ true → all_digits (t ++ u) ≡ true
all_digits-append [] u h k = k
all_digits-append (c ∷ t) u h k = ground (arith, all_digits-append t u)

digits_of-value :
    (fuel n : ℕ)
    → n < fuel
    → (all_digits (digits_of fuel n) ≡ true) × (digits_value 0 (digits_of fuel n) ≡ n)
unfolding digits_of
digits_of-value zero n h = absurd (omega arith)
digits_of-value (suc fuel) n h =
    let last : Text = (48 + n % 10) ∷ [] in
    ground (
      arith,
      digits_of-value fuel (n / 10),
      digits_value-append 0 (digits_of fuel (n / 10)) last,
      all_digits-append (digits_of fuel (n / 10)) last,
    )

-- A number is read back from its print, which is digits only.
pub print-value : (n : ℕ) → (all_digits (print n) ≡ true) × (digits_value 0 (print n) ≡ n)
unfolding print
print-value n = digits_of-value (suc n) n (omega arith)
