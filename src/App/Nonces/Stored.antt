-- ===== src/App/Nonces/Stored.antt =====
-- The Supabase store of app/src/lib/kyb/nonces.ts. A row that is consumed keeps the time.
use nextblock.Base.{
  ℕ, ◌+◌, Text, List, [], ◌∷◌, Option, none, some, Bool, true, false, ltb, to_lower, text_eqb,
  if◌then◌else◌, ◌&&◌, Result, ok, err,
}
use nextblock.App.Nonces.{nonce_ttl_ms}

pub record NonceRow : Type 0 where
  pub operator_address : Text
  pub nonce : Text
  pub expires_at : ℕ
  pub consumed_at : Option ℕ

-- `fails` says that the database answers with an error, for which the store throws.
pub issue_stored :
    (fails : Bool) (now : ℕ) (address nonce : Text)
    → List NonceRow
    → Result (Unit {0}) (List NonceRow)
issue_stored fails now address nonce rows =
    if fails
    then err tt
    else ok (
        record {
          operator_address = to_lower address;
          nonce = nonce;
          expires_at = now + nonce_ttl_ms;
          consumed_at = none;
        }
        ∷ rows)

abbrev is_fresh : Option ℕ → Bool
is_fresh none = true
is_fresh (some time) = false

-- The filters of the update.
unfoldable pub is_open_for : (now : ℕ) (address nonce : Text) → NonceRow → Bool
is_open_for now address nonce row =
    text_eqb row.operator_address (to_lower address)
    && (text_eqb row.nonce nonce && (is_fresh row.consumed_at && ltb now row.expires_at))

pub consume_rows : (now : ℕ) (address nonce : Text) → List NonceRow → List NonceRow
consume_rows now address nonce [] = []
consume_rows now address nonce (row ∷ rows) =
    (if is_open_for now address nonce row then record row { consumed_at = some now } else row)
    ∷ consume_rows now address nonce rows

pub count_open : (now : ℕ) (address nonce : Text) → List NonceRow → ℕ
unfolding is_open_for
count_open now address nonce [] = 0
count_open now address nonce (row ∷ rows) =
    (if is_open_for now address nonce row then 1 else 0) + count_open now address nonce rows

-- `maybeSingle` answers with an error for more than one row.
unfoldable pub consume_stored :
    (fails : Bool) (now : ℕ) (address nonce : Text)
    → List NonceRow
    → Result (Unit {0}) Bool × List NonceRow
unfolding count_open consume_rows
consume_stored fails now address nonce rows = if fails then (err tt, rows) else (
  (if ltb 1 (count_open now address nonce rows)
      then err tt
      else ok (ltb 0 (count_open now address nonce rows))),
  consume_rows now address nonce rows,
)
