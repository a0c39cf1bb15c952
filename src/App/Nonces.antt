-- ===== src/App/Nonces.antt =====
-- app/src/lib/kyb/nonces.ts without a store: the single-use nonces in memory. Times are milliseconds.
pub mod SingleUse
pub mod Stored
use nextblock.Base.{
  ℕ, ◌+◌, Text, List, [], ◌∷◌, ◌++◌, length, Option, none, some, Bool, true, false, ltb, leb,
  to_lower, text_key, text_eqb, if◌then◌else◌,
}
use nextblock.Base.Table.{Table, load, save}

abbrev pub nonce_ttl_ms : ℕ
nonce_ttl_ms = 300000

pub record NonceEntry : Type 0 where
  pub expires_at : ℕ

abbrev pub Issued : Type 0
Issued = Table Text NonceEntry

pub key : (address nonce : Text) → Text
key address nonce = to_lower address ++ (58 ∷ nonce)

pub without_expired : (now : ℕ) → Issued → Issued
without_expired now [] = []
without_expired now ((k, entry) ∷ issued) =
    let rest = without_expired now issued in
    if leb entry.expires_at now then rest else (k, entry) ∷ rest

pub sweep : (now : ℕ) → Issued → Issued
sweep now issued = if ltb (length issued) 4096 then issued else without_expired now issued

-- `issued.delete(k)`
pub delete : Text → Issued → Issued
delete k [] = []
delete k ((j, entry) ∷ issued) =
    let rest = delete k issued in if text_eqb j k then rest else (j, entry) ∷ rest

pub issue_local_nonce : (now : ℕ) (address nonce : Text) (expires_at : ℕ) → Issued → Issued
issue_local_nonce now address nonce expires_at issued =
    save (key address nonce) (record { expires_at = expires_at }) (sweep now issued)

pub consume_local_nonce : (now : ℕ) (address nonce : Text) → Issued → Bool × Issued
consume_local_nonce now address nonce issued =
    let k = key address nonce in
    elim (load k issued) [
      | none ↦ (false, issued)
      | some entry ↦ (ltb now entry.expires_at, delete k issued)
    ]

-- `nonce` is what the source draws from `randomBytes`.
pub issue_nonce : (now : ℕ) (address nonce : Text) → Issued → Issued
issue_nonce now address nonce issued =
    issue_local_nonce now address nonce (now + nonce_ttl_ms) issued
