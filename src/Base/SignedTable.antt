-- ===== src/Base/SignedTable.antt =====
-- Signed sums over the rows of an entity table.
use mathlib.Core.Path.{◌≡◌, ap}
use mathlib.Core.Logic.{inl, inr}
use mathlib.Core.Option.{Option, none, some}
use mathlib.Core.List.{[], ◌∷◌}
use nextblock.Base.Tests.{Bool-cases}
use nextblock.Base.Int.{ℤ, pos, pos_part, neg_part, ◌+ℤ◌, int_laws}
use nextblock.Base.Keys.{Key}
use nextblock.Base.Table.{Table, load, save}

abbrev pub weight_ℤ {κ} : {V : Type κ} → (V → ℤ) → Option V → ℤ
weight_ℤ f none = pos 0
weight_ℤ f (some v) = f v

abbrev pub total_ℤ {ℓ κ} : {K : Type ℓ} {V : Type κ} → (V → ℤ) → Table K V → ℤ
total_ℤ f [] = pos 0
total_ℤ f ((k, v) ∷ t) = f v +ℤ total_ℤ f t

pub +ℤ_swap : (a b c d e : ℤ) → a +ℤ b ≡ c +ℤ d → (e +ℤ a) +ℤ b ≡ (e +ℤ c) +ℤ d
+ℤ_swap a b c d e h = omega (int_laws, ap pos_part h, ap neg_part h)

module _ {ℓ κ} {K : Type ℓ} {V : Type κ} ⦃key : Key K⦄ where
  pub total_ℤ-save :
      (f : V → ℤ) (k : K) (v : V) (t : Table K V)
      → total_ℤ f (save k v t) +ℤ weight_ℤ f (load k t) ≡ total_ℤ f t +ℤ f v
  unfolding load save
  total_ℤ-save f k v [] = omega int_laws
  total_ℤ-save f k v ((j, w) ∷ t) = elim (Bool-cases (key.same j k)) [
    | inl same ↦ rw same (omega int_laws)
    | inr other ↦ rw other (+ℤ_swap _ _ _ _ (f w) (total_ℤ-save f k v t))
  ]
