-- ===== src/Base/Table.antt =====
-- An entity table of the store: `T.load(id)`, `entity.save()`, and sums over the rows.
use Prim.Native.Nat.{ℕ, ◌+◌}
use mathlib.Core.Path.{◌≡◌, refl, subst}
use mathlib.Core.Logic.{inl, inr}
use mathlib.Core.Option.{Option, none, some, some-injective}
use mathlib.Core.List.{List, [], ◌∷◌}
use native.Mathlib.Omega.{arith}
use nextblock.Base.Tests.{if◌then◌else◌, Bool-cases, Option-cases}
use nextblock.Base.Lists.{All}
use nextblock.Base.Keys.{Key}

abbrev pub Table {ℓ κ} : Type ℓ → Type κ → Type (ℓ ⊔ κ)
Table K V = List (K × V)

-- The number that an optional row adds to a sum.
abbrev pub weight {κ} : {V : Type κ} → (V → ℕ) → Option V → ℕ
weight f none = 0
weight f (some v) = f v

abbrev pub total {ℓ κ} : {K : Type ℓ} {V : Type κ} → (V → ℕ) → Table K V → ℕ
total f [] = 0
total f ((k, v) ∷ t) = f v + total f t

abbrev pub AllRows {ℓ κ ν} : {K : Type ℓ} {V : Type κ} → (V → Type ν) → Table K V → Type ν
AllRows P t = All (λ r. P r.1) t

module _ {ℓ κ} {K : Type ℓ} {V : Type κ} ⦃key : Key K⦄ where
  unfoldable pub load : K → Table K V → Option V
  load k [] = none
  load k ((j, v) ∷ t) = if key.same j k then some v else load k t

  unfoldable pub save : K → V → Table K V → Table K V
  save k v [] = (k, v) ∷ []
  save k v ((j, w) ∷ t) = if key.same j k then (j, v) ∷ t else (j, w) ∷ save k v t

  -- `const c = load(id); if (c != null) { …; c.save(); }`
  abbrev pub amend : K → Option V → (V → V) → Table K V → Table K V
  amend k none f t = t
  amend k (some v) f t = save k (f v) t

  pub load-save :
      (j k : K) (v : V) (t : Table K V)
      → load j (save k v t) ≡ (if key.same k j then some v else load j t)
  unfolding load save
  load-save j k v [] = refl
  load-save j k v ((i, w) ∷ t) =
      ground (arith, key.same_iff i k, key.same_iff i j, key.same_iff k j, load-save j k v t)

  pub total-save :
      (f : V → ℕ) (k : K) (v : V) (t : Table K V)
      → total f (save k v t) + weight f (load k t) ≡ total f t + f v
  unfolding load save
  total-save f k v [] = omega arith
  total-save f k v ((j, w) ∷ t) = ground (arith, total-save f k v t)

  pub AllRows-save {ν} :
      (P : V → Type ν) (k : K) (v : V) (t : Table K V) → AllRows P t → P v → AllRows P (save k v t)
  unfolding save
  AllRows-save P k v [] h p = (p, tt)
  AllRows-save P k v ((j, w) ∷ t) h p = elim (Bool-cases (key.same j k)) [
    | inl same ↦ rw same (p, h.1)
    | inr other ↦ rw other (h.0, AllRows-save P k v t h.1 p)
  ]

  pub AllRows-load {ν} :
      (P : V → Type ν) (k : K) (t : Table K V) {v : V} → AllRows P t → load k t ≡ some v → P v
  unfolding load
  AllRows-load P k [] h q = cc
  AllRows-load P k ((j, w) ∷ t) {v} h q = elim (Bool-cases (key.same j k)) [
    | inl same ↦ subst P (some-injective _ _ (rw same at q)) h.0
    | inr other ↦ AllRows-load P k t h.1 (rw other at q)
  ]

  -- A guarded update keeps what holds of every row, if the update does.
  pub AllRows-amend {ν} :
      (P : V → Type ν) (k : K) (f : V → V) (t : Table K V)
      → ((v : V) → P v → P (f v))
      → AllRows P t
      → AllRows P (amend k (load k t) f t)
  AllRows-amend P k f t keep h = elim (Option-cases (load k t)) [
    | inl e ↦ rw e h
    | inr (v, e) ↦ rw e (AllRows-save P k (f v) t h (keep v (AllRows-load P k t h e)))
  ]

  -- A save that adds `d` to the row's number adds `d` to the sum.
  pub total-save_add :
      (f : V → ℕ) (k : K) (v : V) (t : Table K V) (d : ℕ)
      → f v ≡ weight f (load k t) + d
      → total f (save k v t) ≡ total f t + d
  total-save_add f k v t d h = omega (arith, total-save f k v t)
