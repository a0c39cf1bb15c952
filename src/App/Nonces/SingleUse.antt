-- ===== src/App/Nonces/SingleUse.antt =====
-- Consumption against issue in app/src/lib/kyb/nonces.ts.
use nextblock.Base.{
  ℕ, ◌+◌, ◌≤◌, ◌<◌, ◌≡◌, refl, ap, arith, Text, List, [], ◌∷◌, none, some, Bool, true, false,
  to_lower, ◌++◌, text_key, text_eqb, text_eqb_iff, if◌then◌else◌, ◌&&◌, Option-cases, inl, inr,
}
use nextblock.Base.Table.{load, load-save}
use nextblock.App.Nonces.{
  Issued, key, without_expired, sweep, delete, issue_local_nonce, consume_local_nonce, issue_nonce,
  nonce_ttl_ms,
}

pub data Operation : Type 0 where
  issues : (now : ℕ) (address nonce : Text) → Operation
  consumes : (now : ℕ) (address nonce : Text) → Operation

abbrev count_if : Bool → ℕ
count_if b = if b then 1 else 0

-- The times that the nonce of a key is issued.
abbrev pub issues_of : Text → List Operation → ℕ
issues_of k [] = 0
issues_of k (issues now address nonce ∷ ops) =
    count_if (text_eqb (key address nonce) k) + issues_of k ops
issues_of k (consumes now address nonce ∷ ops) = issues_of k ops

-- The times that it is consumed with the answer true.
abbrev pub uses_of : Text → List Operation → Issued → ℕ
uses_of k [] issued = 0
uses_of k (issues now address nonce ∷ ops) issued =
    uses_of k ops (issue_nonce now address nonce issued)
uses_of k (consumes now address nonce ∷ ops) issued =
    count_if (text_eqb (key address nonce) k && (consume_local_nonce now address nonce issued).0)
    + uses_of k ops (consume_local_nonce now address nonce issued).1

-- 1 when the key is there.
abbrev pub held : Text → Issued → ℕ
held k issued = elim (load k issued) [ none ↦ 0 | some entry ↦ 1 ]

held-without_expired :
    (now : ℕ) (k : Text) (issued : Issued) → held k (without_expired now issued) ≤ held k issued
unfolding load without_expired
held-without_expired now k [] = ground arith
held-without_expired now k ((j, entry) ∷ issued) = ground (arith, held-without_expired now k issued)

held-sweep : (now : ℕ) (k : Text) (issued : Issued) → held k (sweep now issued) ≤ held k issued
unfolding sweep
held-sweep now k issued = ground (arith, held-without_expired now k issued)

held-delete_same : (k : Text) (issued : Issued) → load k (delete k issued) ≡ none
unfolding load delete
held-delete_same k [] = refl
held-delete_same k ((j, entry) ∷ issued) = ground (arith, held-delete_same k issued)

held-delete : (j k : Text) (issued : Issued) → held k (delete j issued) ≤ held k issued
unfolding load delete
held-delete j k [] = ground arith
held-delete j k ((i, entry) ∷ issued) = ground (arith, held-delete j k issued)

held-issue :
    (now : ℕ) (address nonce k : Text) (issued : Issued)
    → held k (issue_nonce now address nonce issued)
      ≤ count_if (text_eqb (key address nonce) k) + held k issued
unfolding issue_nonce issue_local_nonce
held-issue now address nonce k issued = ground (
  arith,
  load-save k (key address nonce) (record { expires_at = now + nonce_ttl_ms }) (sweep now issued),
  held-sweep now k issued,
)

held-consume :
    (now : ℕ) (address nonce k : Text) (issued : Issued)
    → count_if (text_eqb (key address nonce) k && (consume_local_nonce now address nonce issued).0)
        + held k (consume_local_nonce now address nonce issued).1
      ≤ held k issued
unfolding consume_local_nonce
held-consume now address nonce k issued = elim (Option-cases (load (key address nonce) issued)) [
  | inl e ↦ ground arith
  | inr (entry, e) ↦ ground (
    arith,
    held-delete_same (key address nonce) issued,
    held-delete (key address nonce) k issued,
    text_eqb_iff (key address nonce) k,
  )
]

-- Over any operations, a nonce is consumed at most as often as it is issued, and once more if it was
-- there before.
pub uses_of-le :
    (k : Text) (ops : List Operation) (issued : Issued)
    → uses_of k ops issued ≤ issues_of k ops + held k issued
uses_of-le k [] issued = omega arith
uses_of-le k (issues now address nonce ∷ ops) issued = omega (
  arith,
  uses_of-le k ops (issue_nonce now address nonce issued),
  held-issue now address nonce k issued,
)
uses_of-le k (consumes now address nonce ∷ ops) issued = omega (
  arith,
  uses_of-le k ops (consume_local_nonce now address nonce issued).1,
  held-consume now address nonce k issued,
)

load-issue :
    (now : ℕ) (address nonce : Text) (issued : Issued)
    → load (key address nonce) (issue_nonce now address nonce issued)
      ≡ some (record { expires_at = now + nonce_ttl_ms })
unfolding issue_nonce issue_local_nonce
load-issue now address nonce issued = ground (
  arith,
  load-save (key address nonce) (key address nonce) (record { expires_at = now + nonce_ttl_ms })
      (sweep now issued),
  text_eqb_iff (key address nonce) (key address nonce),
)

key-lower :
    (again address nonce : Text)
    → to_lower again ≡ to_lower address
    → key again nonce ≡ key address nonce
unfolding key
key-lower again address nonce one = ap (λ t. t ++ (58 ∷ nonce)) one

-- A nonce consumed within 300 seconds of its issue, with the address in either case, is accepted, and
-- at once after it is refused.
pub consume-issue :
    (now t u : ℕ) (address again nonce : Text) (issued : Issued)
    → to_lower again ≡ to_lower address
    → t < now + 300000
    → let first = consume_local_nonce t again nonce (issue_nonce now address nonce issued) in
      (first.0 ≡ true) × ((consume_local_nonce u address nonce first.1).0 ≡ false)
unfolding consume_local_nonce
consume-issue now t u address again nonce issued one h =
    let j : key again nonce ≡ key address nonce = key-lower again address nonce one in
    ground (
      arith,
      j,
      load-issue now address nonce issued,
      held-delete_same (key again nonce) (issue_nonce now address nonce issued),
    )
