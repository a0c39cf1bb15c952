-- ===== src/Sim/Guards.antt =====
-- packages/sim/src/guards: chain-guard.ts and key-guard.ts, the checks before and around a run.
pub mod Signers
pub mod Matching
pub mod Redaction
pub mod Loading
use Prim.Native.String.{String}
use nextblock.Base.{
  ℕ, zero, suc, ◌-◌, Text, text_key, to_lower, trim, starts_with, between, List, [], ◌∷◌, ◌++◌,
  Option, none, some, Bool, true, false, not, ◌&&◌, ◌||◌, eqb, if◌then◌else◌, Result, ok, err,
}
use nextblock.Base.Table.{Table, load, save}

abbrev pub base_sepolia : ℕ
base_sepolia = 84532

abbrev pub anvil : ℕ
anvil = 31337

unfoldable pub permitted : ℕ → Bool
permitted chain_id = eqb chain_id base_sepolia || eqb chain_id anvil

pub production_chains : ℕ → Option String
production_chains chain_id =
    if eqb chain_id 1
    then some "Ethereum mainnet"
    else if eqb chain_id 8453
    then some "Base mainnet"
    else if eqb chain_id 10
    then some "OP mainnet"
    else if eqb chain_id 42161
    then some "Arbitrum One"
    else if eqb chain_id 137
    then some "Polygon"
    else none

-- The errors of the two guards and of a run, each with what its message names.
pub data GuardError : Type 0 where
  production_chain : (named : String) (chain_id : ℕ) → GuardError
  unlisted_chain : (chain_id : ℕ) → GuardError
  chain_mismatch : (actual expected : ℕ) → GuardError
  key_unset key_malformed : GuardError
  shared_address : (previous id address : Text) → GuardError

unfoldable pub assert_writable_chain : ℕ → Result {0, 0} GuardError Unit
assert_writable_chain chain_id =
    if permitted chain_id then ok tt else elim (production_chains chain_id) [
      | some named ↦ err (production_chain named chain_id)
      | none ↦ err (unlisted_chain chain_id)
    ]

-- `actual` is what the endpoint answers.
pub assert_endpoint_matches : (actual expected : ℕ) → Result {0, 0} GuardError Unit
assert_endpoint_matches actual expected =
    if eqb actual expected
    then assert_writable_chain actual
    else err (chain_mismatch actual expected)

pub record Signer : Type 0 where
  pub id : Text
  pub address : Text

-- The truth value of a text: the empty one is false.
abbrev pub is_truthy : Text → Bool
is_truthy [] = false
is_truthy (c ∷ t) = true

unfoldable pub signers_loop : Table Text Text → List Signer → Result {0, 0} GuardError Unit
signers_loop seen [] = ok tt
signers_loop seen (agent ∷ agents) =
    let key = to_lower agent.address in
    let rest = signers_loop (save key agent.id seen) agents in
    elim (load key seen) [
      | none ↦ rest
      | some previous ↦
          if is_truthy previous then err (shared_address previous agent.id agent.address) else rest
    ]

unfoldable pub assert_distinct_signers : List Signer → Result {0, 0} GuardError Unit
assert_distinct_signers agents = signers_loop [] agents

abbrev pub is_hex : ℕ → Bool
is_hex c = between 48 57 c || (between 65 70 c || between 97 102 c)

-- A character of the class of `\b`.
abbrev pub is_word : ℕ → Bool
is_word c = between 48 57 c || (between 65 90 c || (between 97 122 c || eqb c 95))

abbrev pub begins_with_word : Text → Bool
begins_with_word [] = false
begins_with_word (c ∷ t) = is_word c

-- n hex digits and then the end of a word.
unfoldable pub is_key_body : ℕ → Text → Bool
is_key_body zero t = not (begins_with_word t)
is_key_body (suc n) [] = false
is_key_body (suc n) (c ∷ t) = is_hex c && is_key_body n t

-- The same after "0x".
unfoldable pub is_prefixed_key : Text → Bool
is_prefixed_key [] = false
is_prefixed_key (c ∷ []) = false
is_prefixed_key (c ∷ d ∷ t) = eqb c 48 && (eqb d 120 && is_key_body 64 t)

-- The length of the match of `PRIVATE_KEY_PATTERN` at the head of a text, 0 when there is none;
-- `before` is the character before the head, if any.
unfoldable pub match_length : (before : Text) → Text → ℕ
match_length before t =
    if begins_with_word before
    then 0
    else if is_prefixed_key t
    then 66
    else if is_key_body 64 t
    then 64
    else 0

-- n hex digits and nothing else.
unfoldable pub is_hex_run : ℕ → Text → Bool
is_hex_run zero [] = true
is_hex_run zero (c ∷ t) = false
is_hex_run (suc n) [] = false
is_hex_run (suc n) (c ∷ t) = is_hex c && is_hex_run n t

unfoldable pub is_well_formed : Text → Bool
is_well_formed [] = false
is_well_formed (c ∷ []) = false
is_well_formed (c ∷ d ∷ t) = eqb c 48 && (eqb d 120 && is_hex_run 64 t)

abbrev pub checked : Text → Result {0, 0} GuardError Text
checked normalised = if is_well_formed normalised then ok normalised else err key_malformed

unfoldable pub load_present : Text → Result {0, 0} GuardError Text
load_present raw =
    let trimmed = trim raw in
    checked (if starts_with (48 ∷ 120 ∷ []) trimmed then trimmed else 48 ∷ 120 ∷ trimmed)

-- `raw` is the variable of the environment, if it is set.
unfoldable pub load_key : (raw : Option Text) → Result {0, 0} GuardError Text
load_key none = err key_unset
load_key (some []) = err key_unset
load_key (some (c ∷ raw)) = load_present (c ∷ raw)

-- "[redacted-key]"
abbrev pub redacted_key : Text
redacted_key = 91 ∷ 114 ∷ 101 ∷ 100 ∷ 97 ∷ 99 ∷ 116 ∷ 101 ∷ 100 ∷ 45 ∷ 107 ∷ 101 ∷ 121 ∷ 93 ∷ []

-- The global replacement, from left to right: `within` characters of a match are still to be passed.
unfoldable pub redact_loop : (within : ℕ) (before : Text) → Text → Text
redact_loop within before [] = []
redact_loop within before (c ∷ t) =
    let found = match_length before (c ∷ t) in
    let left = if eqb within 0 then found else within in
    let rest = redact_loop (left - 1) (c ∷ []) t in
    if eqb within 0 then if eqb found 0 then c ∷ rest else redacted_key ++ rest else rest

unfoldable pub redact : Text → Text
redact text = redact_loop 0 [] text

pub key_loop : (before : Text) → Text → Bool
key_loop before [] = false
key_loop before (c ∷ t) = not (eqb (match_length before (c ∷ t)) 0) || key_loop (c ∷ []) t

pub looks_like_key : Text → Bool
looks_like_key text = key_loop [] text
