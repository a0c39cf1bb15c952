-- ===== src/Indexer/Vaults/Reserves.antt =====
-- The claim reserves of indexer/src/insurance-vault.ts: a vault's figure and its claims' figures.
use nextblock.Base.{
  ℕ, ◌≡◌, refl, ap, ◌∙◌, sym, Option, none, some, List, [], ◌∷◌, arith, eqb, if◌then◌else◌, All,
  Bool-cases, Option-cases, inl, inr,
}
use nextblock.Base.Int.{ℤ, pos, pos_part, neg_part, ◌+ℤ◌, ◌-ℤ◌, int_laws}
use nextblock.Base.Keys.{number_key}
use nextblock.Base.Table.{Table, load, save, load-save}
use nextblock.Base.SignedTable.{weight_ℤ, total_ℤ, total_ℤ-save}
use nextblock.Indexer.Entities.{Vault, Claim}
use nextblock.Indexer.Log.{Meta}
use nextblock.Indexer.Vaults.{
  Store, Event, deposit, withdraw, portfolio_allocated, portfolio_deallocated,
  portfolio_premium_recorded, portfolio_claim_reserved, portfolio_claim_reserve_released,
  portfolio_claim_paid, fees_collected, vault_of, update_vault, update_reserved, handle, run,
}

-- The claim that an event moves the reserve of.
abbrev pub claim_of : Event → Option ℕ
claim_of (portfolio_claim_reserved portfolio claim amount) = some claim
claim_of (portfolio_claim_reserve_released portfolio claim amount) = some claim
claim_of (portfolio_claim_paid portfolio claim to amount) = some claim
claim_of _ = none

-- The claims table has the claim, against this vault.
abbrev pub IsClaimOf : Table ℕ Claim → ℕ → ℕ → Type 0
IsClaimOf claims vault id = (c : Claim) × (load id claims ≡ some c) × (c.vault ≡ vault)

-- Every reserve event is about a claim of the table against the emitting vault.
abbrev pub AreKnown : Table ℕ Claim → List (Meta × Event) → Type 0
AreKnown claims es =
    All (λ x. (id : ℕ) → claim_of x.1 ≡ some id → IsClaimOf claims x.0.address id) es

abbrev reserved_in : ℕ → Claim → ℤ
reserved_in a c = if eqb c.vault a then c.reserved else pos 0

-- The figure of each vault is the sum of the reserves of its claims.
abbrev Covers : Table ℕ Vault → Table ℕ Claim → Type 0
Covers vaults claims =
    (a : ℕ) → weight_ℤ (λ v. v.claims_reserved) (load a vaults) ≡ total_ℤ (reserved_in a) claims

abbrev pub IsCovered : Store → Type 0
IsCovered s = Covers s.vaults s.claims

reserved-update_vault :
    (a : ℕ) (m : Meta) (f : Vault → Vault) (t : Table ℕ Vault)
    → weight_ℤ (λ v. v.claims_reserved) (load a (update_vault m f t)) ≡ (
        if eqb m.address a
        then (f (vault_of m (load m.address t))).claims_reserved
        else weight_ℤ (λ v. v.claims_reserved) (load a t))
unfolding update_vault
reserved-update_vault a m f t =
    ground (arith, load-save a m.address (f (vault_of m (load m.address t))) t)

cancel : (t w s z d : ℤ) → t +ℤ w ≡ s +ℤ z → z ≡ w +ℤ d → t ≡ s +ℤ d
cancel t w s z d h k = omega (int_laws, ap pos_part h, ap neg_part h, ap pos_part k, ap neg_part k)

+ℤ_zero : (z : ℤ) → z +ℤ pos 0 ≡ z
+ℤ_zero z = omega int_laws

sub_as_add : (z : ℤ) (n : ℕ) → z -ℤ pos n ≡ z +ℤ (pos 0 -ℤ pos n)
sub_as_add z n = omega int_laws

-- What an event about vault `v` moves vault `a` by.
abbrev share : ℕ → ℕ → ℤ → ℤ
share v a d = if eqb v a then d else pos 0

module _ (m : Meta) (a : ℕ) (d : ℤ) where
  vault_side :
      (f : Vault → Vault) (vaults : Table ℕ Vault)
      → ((v : Vault) → (f v).claims_reserved ≡ v.claims_reserved +ℤ d)
      → weight_ℤ (λ v. v.claims_reserved) (load a (update_vault m f vaults))
        ≡ weight_ℤ (λ v. v.claims_reserved) (load a vaults) +ℤ share m.address a d
  vault_side f vaults fd = ground (
    arith,
    reserved-update_vault a m f vaults,
    fd (vault_of m (load m.address vaults)),
    +ℤ_zero (weight_ℤ (λ v. v.claims_reserved) (load a vaults)),
  )

  claim_side :
      (g : ℤ → ℤ) (id : ℕ) (claims : Table ℕ Claim)
      → ((z : ℤ) → g z ≡ z +ℤ d)
      → IsClaimOf claims m.address id
      → total_ℤ (reserved_in a) (update_reserved id m.timestamp g claims)
        ≡ total_ℤ (reserved_in a) claims +ℤ share m.address a d
  unfolding update_reserved
  claim_side g id claims gd (c, e, own) =
      let c' : Claim = record c { reserved = g c.reserved; updated_at = m.timestamp } in
      let moved : reserved_in a c' ≡ reserved_in a c +ℤ share m.address a d =
        ground (arith, gd c.reserved, +ℤ_zero (pos 0), own) in
      let sums : total_ℤ (reserved_in a) (save id c' claims) +ℤ reserved_in a c
          ≡ total_ℤ (reserved_in a) claims +ℤ reserved_in a c' =
        rw e at (total_ℤ-save (reserved_in a) id c' claims) in
      rw e (cancel _ (reserved_in a c) _ (reserved_in a c') (share m.address a d) sums moved)

module _ (m : Meta) (vaults : Table ℕ Vault) (claims : Table ℕ Claim)
    (h : Covers vaults claims) where
  keep-Covers :
      (f : Vault → Vault)
      → ((v : Vault) → (f v).claims_reserved ≡ v.claims_reserved)
      → Covers (update_vault m f vaults) claims
  keep-Covers f same a =
      ground
        (arith, reserved-update_vault a m f vaults, same (vault_of m (load m.address vaults)), h a)

  -- The vault's figure and the claim's figure move by the same amount.
  move-Covers :
      (f : Vault → Vault) (g : ℤ → ℤ) (d : ℤ) (id : ℕ)
      → ((v : Vault) → (f v).claims_reserved ≡ v.claims_reserved +ℤ d)
      → ((z : ℤ) → g z ≡ z +ℤ d)
      → IsClaimOf claims m.address id
      → Covers (update_vault m f vaults) (update_reserved id m.timestamp g claims)
  move-Covers f g d id fd gd k a =
      vault_side m a d f vaults fd
      ∙ ap (λ z. z +ℤ share m.address a d) (h a)
      ∙ sym (claim_side m a d g id claims gd k)

-- A reserve update keeps every claim in the table, against its vault.
keep-IsClaimOf :
    (claims : Table ℕ Claim) (vault id j ts : ℕ) (g : ℤ → ℤ)
    → IsClaimOf claims vault j
    → IsClaimOf (update_reserved id ts g claims) vault j
unfolding update_reserved
keep-IsClaimOf claims vault id j ts g (c, e, own) = elim (Option-cases (load id claims)) [
  | inl missing ↦ rw missing (c, e, own)
  | inr (b, found) ↦
      let b' : Claim = record b { reserved = g b.reserved; updated_at = ts } in
      let moved = load-save j id b' claims in
      rw found (elim (Bool-cases (eqb id j)) [
        | inl same ↦ (b', ground (arith, moved), ground arith)
        | inr other ↦ (c, ground (arith, moved), own)
      ])
]

keep-AreKnown :
    (claims : Table ℕ Claim) (id ts : ℕ) (g : ℤ → ℤ) (es : List (Meta × Event))
    → AreKnown claims es
    → AreKnown (update_reserved id ts g claims) es
keep-AreKnown claims id ts g [] k = tt
keep-AreKnown claims id ts g (x ∷ es) k = (
  λ j h. keep-IsClaimOf claims x.0.address id j ts g (k.0 j h),
  keep-AreKnown claims id ts g es k.1,
)

-- Before a history of InsuranceVault events whose reserve events are about claims that the table
-- holds against the emitting vault, let each vault's reserved figure be the sum of the reserves of
-- its claims. Then this holds after the history.
pub run-IsCovered :
    (es : List (Meta × Event)) (s : Store)
    → AreKnown s.claims es
    → IsCovered s
    → IsCovered (run es s)
unfolding run handle
run-IsCovered [] s k h = h
run-IsCovered ((m, deposit sender owner assets shares) ∷ es) s k h =
    run-IsCovered es _ k.1 (keep-Covers m s.vaults s.claims h _ (λ v. refl))
run-IsCovered ((m, withdraw sender receiver owner assets shares) ∷ es) s k h =
    run-IsCovered es _ k.1 (keep-Covers m s.vaults s.claims h _ (λ v. refl))
run-IsCovered ((m, portfolio_allocated portfolio amount) ∷ es) s k h = run-IsCovered es _ k.1 h
run-IsCovered ((m, portfolio_deallocated portfolio amount) ∷ es) s k h = run-IsCovered es _ k.1 h
run-IsCovered ((m, portfolio_premium_recorded portfolio from amount) ∷ es) s k h =
    run-IsCovered es _ k.1 (keep-Covers m s.vaults s.claims h _ (λ v. refl))
run-IsCovered ((m, portfolio_claim_reserved portfolio claim amount) ∷ es) s k h =
    run-IsCovered es _ (keep-AreKnown s.claims claim m.timestamp _ es k.1) (
      move-Covers m s.vaults s.claims h _ _ (pos amount) claim (λ v. refl) (λ z. refl)
        (k.0 claim refl))
run-IsCovered ((m, portfolio_claim_reserve_released portfolio claim amount) ∷ es) s k h =
    run-IsCovered es _ (keep-AreKnown s.claims claim m.timestamp _ es k.1) (
      move-Covers m s.vaults s.claims h _ _ (pos 0 -ℤ pos amount) claim
        (λ v. sub_as_add v.claims_reserved amount) (λ z. sub_as_add z amount) (k.0 claim refl))
run-IsCovered ((m, portfolio_claim_paid portfolio claim to amount) ∷ es) s k h =
    run-IsCovered es _ (keep-AreKnown s.claims claim m.timestamp _ es k.1) (
      move-Covers m s.vaults s.claims h _ _ (pos 0 -ℤ pos amount) claim
        (λ v. sub_as_add v.claims_reserved amount) (λ z. sub_as_add z amount) (k.0 claim refl))
run-IsCovered ((m, fees_collected recipient amount) ∷ es) s k h =
    run-IsCovered es _ k.1 (keep-Covers m s.vaults s.claims h _ (λ v. refl))
