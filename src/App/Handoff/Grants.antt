-- ===== src/App/Handoff/Grants.antt =====
-- The grants that app/src/lib/roles/handoff.ts lets through.
use nextblock.Base.{
  ℕ, ◌≡◌, ◌≢◌, ◌↔◌, refl, sym, ◌∙◌, subst, arith, Text, codes, text_eqb, text_eqb_iff, to_lower,
  List, [], ◌∷◌, map, Option, none, some, Bool, true, false, not, ◌||◌, if◌then◌else◌, Bool-cases,
  inl, inr, ◌⊎◌, All,
}
use mathlib.Core.Option.{some-injective}
use nextblock.App.Session.{is_address}
use nextblock.App.Handoff.{
  default_admin_role, grantable_names, is_among, invalid_address, no_role, already_granted, ready,
  restricted_role_ids, is_grantable_role_id, is_role, evaluate_grant,
}

-- A name of the list whose hash is the id, whatever its case.
abbrev pub IsHashOf : (keccak : Text → Text) → Text → List Text → Type 0
IsHashOf keccak id [] = (true ≡ false)
IsHashOf keccak id (name ∷ names) =
    (to_lower (keccak name) ≡ to_lower id) ⊎ IsHashOf keccak id names

differ : true ≢ false
differ h = ground arith

none-some : {c : ℕ} {t : Text} → none ≢ some (c ∷ t)
none-some e = ground arith

empty_some : {c : ℕ} {t : Text} → some [] ≢ some (c ∷ t)
empty_some e = ground arith

or_true : (a b : Bool) → b ≡ true → (a || b) ≡ true
or_true true b h = refl
or_true false b h = h

module _ (keccak : Text → Text) where
  is_among-IsHashOf :
      (id : Text) (names : List Text)
      → is_among id (map keccak names) ≡ true
      → IsHashOf keccak id names
  unfolding is_among
  is_among-IsHashOf id [] h = sym h
  is_among-IsHashOf id (name ∷ names) h =
      elim (Bool-cases (text_eqb (to_lower (keccak name)) (to_lower id))) [
        | inl e ↦ inl ((text_eqb_iff (to_lower (keccak name)) (to_lower id)).0 e)
        | inr e ↦ inr (is_among-IsHashOf id names (rw e at h))
      ]

  IsHashOf-is_among :
      (id : Text) (names : List Text)
      → IsHashOf keccak id names
      → is_among id (map keccak names) ≡ true
  unfolding is_among
  IsHashOf-is_among id [] h = sym h
  IsHashOf-is_among id (name ∷ names) (inl e) =
      rw ((text_eqb_iff (to_lower (keccak name)) (to_lower id)).1 e) refl
  IsHashOf-is_among id (name ∷ names) (inr h) = or_true _ _ (IsHashOf-is_among id names h)

  -- The hash of a name is not that of OWNER_ROLE or VAULT_FACTORY_ROLE and not zero, in whatever case.
  abbrev pub IsSeparate : Text → Type 0
  IsSeparate name =
      (text_eqb (to_lower (keccak (codes "OWNER_ROLE"))) (to_lower (keccak name)) ≡ false)
      × (text_eqb (to_lower default_admin_role) (to_lower (keccak name)) ≡ false)
      × (text_eqb (to_lower (keccak (codes "VAULT_FACTORY_ROLE"))) (to_lower (keccak name)) ≡ false)

  unrestricted :
      (id : Text) (names : List Text)
      → All IsSeparate names
      → IsHashOf keccak id names
      → is_among id (restricted_role_ids keccak) ≡ false
  unfolding is_among
  unrestricted id [] separate h = absurd (differ h)
  unrestricted id (name ∷ names) ((owner, admin, factory), separate) (inl e) =
      subst
        (λ t.
          (text_eqb (to_lower (keccak (codes "OWNER_ROLE"))) t
            || (text_eqb (to_lower default_admin_role) t
                || (text_eqb (to_lower (keccak (codes "VAULT_FACTORY_ROLE"))) t || false)))
          ≡ false)
        e (rw (owner, admin, factory) refl)
  unrestricted id (name ∷ names) (o, separate) (inr h) = unrestricted id names separate h

  grantable-IsHashOf :
      (id : Text)
      → All IsSeparate grantable_names
      → is_grantable_role_id keccak id ≡ true ↔ IsHashOf keccak id grantable_names
  unfolding is_grantable_role_id
  grantable-IsHashOf id separate = (
    (λ h. elim (Bool-cases (is_among id (restricted_role_ids keccak))) [
      | inl e ↦ absurd (differ (sym h ∙ rw e refl))
      | inr e ↦ is_among-IsHashOf id grantable_names (rw e at h)
    ]),
    (λ h. rw (unrestricted id grantable_names separate h) (IsHashOf-is_among id grantable_names h)),
  )

  -- The role is given and is one of those that an operator grants.
  abbrev pub IsGrantable : Option Text → Type 0
  IsGrantable role_id =
      (c : ℕ) × (t : Text) × ((role_id ≡ some (c ∷ t)) × IsHashOf keccak (c ∷ t) grantable_names)

  is_role-IsGrantable :
      (role_id : Option Text)
      → All IsSeparate grantable_names
      → is_role keccak role_id ≡ true ↔ IsGrantable role_id
  is_role-IsGrantable none separate =
      ((λ h. absurd (differ (sym h))), (λ (c, t, (e, h)). absurd (none-some e)))
  is_role-IsGrantable (some []) separate =
      ((λ h. absurd (differ (sym h))), (λ (c, t, (e, h)). absurd (empty_some e)))
  is_role-IsGrantable (some (c ∷ t)) separate = (
    (λ h. (c, t, (refl, (grantable-IsHashOf (c ∷ t) separate).0 h))),
    (λ (d, u, (e, h)).
        (grantable-IsHashOf (c ∷ t) separate).1
          (subst (λ id. IsHashOf keccak id grantable_names) (sym (some-injective _ _ e)) h)),
  )

  decided :
      (a b has : Bool)
      → (if not a
            then invalid_address
            else if not b
            then no_role
            else if has
            then already_granted
            else ready)
          ≡ ready
        ↔ (a ≡ true) × ((has ≡ false) × (b ≡ true))
  decided a b has = ground arith

  -- Where the hashes of the eight names that an operator grants are not those of OWNER_ROLE and
  -- VAULT_FACTORY_ROLE and not zero, a grant is ready exactly when the account is an address that does
  -- not have the role yet and the role is given and is, in whatever case, one of the eight hashes.
  pub evaluate_grant-ready_iff :
      All IsSeparate grantable_names
      → (account : Text) (role_id : Option Text) (already_has_role : Bool)
      → evaluate_grant keccak account role_id already_has_role ≡ ready
        ↔ (is_address account ≡ true) × ((already_has_role ≡ false) × IsGrantable role_id)
  unfolding evaluate_grant
  evaluate_grant-ready_iff separate account role_id has =
      let (to, from) = decided (is_address account) (is_role keccak role_id) has in
      let (grants, granted) = is_role-IsGrantable role_id separate in
      (
        (λ h. let (a, (b, c)) = to h in (a, (b, grants c))),
        (λ (a, (b, c)). from (a, (b, granted c))),
      )
