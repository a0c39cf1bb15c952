-- ===== src/Base/Keys.antt =====
-- The keys of entity tables, as an interface: a row id is a number, or a transaction hash with a log
-- index.
use Prim.Native.Nat.{ℕ}
use mathlib.Core.Path.{◌≡◌}
use mathlib.Core.Logic.{◌↔◌}
use mathlib.Core.Bool.{Bool, true}
use nextblock.Base.Tests.{eqb, eqb_iff}

pub record Key {ℓ} (K : Type ℓ) : Type ℓ where
  -- Two ids name one row exactly when they are one id.
  pub same : K → K → Bool
  pub same_iff : (j k : K) → (same j k ≡ true) ↔ (j ≡ k)

instance abbrev pub number_key : Key ℕ
number_key = record { same = eqb; same_iff = eqb_iff }
