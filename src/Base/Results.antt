-- ===== src/Base/Results.antt =====
-- What a function that may throw gives back.
use mathlib.Core.Path.{◌≡◌, refl}
use mathlib.Core.Logic.{◌≢◌, ◌⊎◌, inl, inr}

pub data Result {ℓ κ} (E : Type ℓ) (A : Type κ) : Type (ℓ ⊔ κ) where
  ok : A → Result E A
  err : E → Result E A

-- The rest of a function after a call that may throw.
abbrev pub and_then {ℓ κ ν} :
    {E : Type ℓ} {A : Type κ} {B : Type ν} → Result E A → (A → Result E B) → Result E B
and_then (ok a) f = f a
and_then (err e) f = err e

-- To split on a computed result and keep the equation.
pub Result-cases {ℓ κ} :
    {E : Type ℓ} {A : Type κ} (r : Result E A) → ((a : A) × (r ≡ ok a)) ⊎ ((e : E) × (r ≡ err e))
Result-cases (ok a) = inl (a, refl)
Result-cases (err e) = inr (e, refl)

-- A result is a value when it is no error.
pub ok_of_never-err {ℓ κ} :
    {E : Type ℓ} {A : Type κ} (r : Result E A) → ((e : E) → r ≢ err e) → (a : A) × (r ≡ ok a)
ok_of_never-err (ok a) h = (a, refl)
ok_of_never-err (err e) h = absurd (h e refl)
