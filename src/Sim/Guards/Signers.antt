-- ===== src/Sim/Guards/Signers.antt =====
-- The check of distinct signers in packages/sim/src/guards/key-guard.ts.
use nextblock.Base.{
  Text, text_key, text_eqb_iff, to_lower, List, [], ◌∷◌, map, none, true, ok, ◌≡◌, ◌≢◌, ◌↔◌, refl,
  arith, Option-cases, inl, inr, All,
}
use nextblock.Base.Table.{Table, load, save, load-save, AllRows, AllRows-save, AllRows-load}
use nextblock.Sim.Guards.{Signer, signers_loop, assert_distinct_signers, is_truthy}

abbrev pub address_key : Signer → Text
address_key a = to_lower a.address

abbrev pub IsNamed : Signer → Type 0
IsNamed a = is_truthy a.id ≡ true

abbrev IsAbsent : Table Text Text → Signer → Type 0
IsAbsent seen a = load (address_key a) seen ≡ none

-- No two of the texts are equal.
abbrev pub HasDistinct : List Text → Type 0
HasDistinct [] = Unit
HasDistinct (t ∷ ts) = All (λ u. t ≢ u) ts × HasDistinct ts

IsAbsent-save :
    (k id : Text) (seen : Table Text Text) (agents : List Signer)
    → All (IsAbsent (save k id seen)) agents
      ↔ (All (IsAbsent seen) agents × All (λ u. k ≢ u) (map address_key agents))
IsAbsent-save k id seen [] = ground arith
IsAbsent-save k id seen (a ∷ agents) = ground (
  arith,
  IsAbsent-save k id seen agents,
  load-save (address_key a) k id seen,
  text_eqb_iff k (address_key a),
)

IsAbsent-empty : (agents : List Signer) → All (IsAbsent []) agents
unfolding load
IsAbsent-empty [] = tt
IsAbsent-empty (a ∷ agents) = (refl, IsAbsent-empty agents)

-- Rows whose ids are not empty are found by their truth value.
signers_loop_iff :
    (seen : Table Text Text) (agents : List Signer)
    → AllRows (λ id. is_truthy id ≡ true) seen
    → All IsNamed agents
    → (signers_loop seen agents ≡ ok tt)
      ↔ (HasDistinct (map address_key agents) × All (IsAbsent seen) agents)
unfolding signers_loop
signers_loop_iff seen [] h ids = ground arith
signers_loop_iff seen (a ∷ agents) h (id, ids) = elim (Option-cases (load (address_key a) seen)) [
  | inl e ↦ ground (
    arith,
    signers_loop_iff (save (address_key a) a.id seen) agents
        (AllRows-save (λ i. is_truthy i ≡ true) (address_key a) a.id seen h id) ids,
    IsAbsent-save (address_key a) a.id seen agents,
  )
  | inr (previous, e) ↦
      ground (arith, AllRows-load (λ i. is_truthy i ≡ true) (address_key a) seen h e)
]

-- Among agents with ids, the check passes exactly when no two addresses are equal, upper and lower
-- case taken as one.
pub assert_distinct_signers_iff :
    (agents : List Signer)
    → All IsNamed agents
    → (assert_distinct_signers agents ≡ ok tt) ↔ HasDistinct (map address_key agents)
unfolding assert_distinct_signers
assert_distinct_signers_iff agents ids =
    ground (arith, signers_loop_iff [] agents tt ids, IsAbsent-empty agents)
