-- ===== src/App/OracleNode/Signature.antt =====
-- The signature of a provider in app/src/lib/oracle-node.ts. HMAC-SHA256 is a parameter; hexadecimal
-- digits are written and read as `Buffer` does.
use nextblock.Base.{
  ℕ, zero, suc, ◌+◌, ◌-◌, ◌*◌, ◌/◌, ◌%◌, ◌<◌, ◌≡◌, ◌↔◌, refl, sym, subst, ap, ◌∙◌, arith, Text,
  text_eqb, text_eqb_iff, to_lower, between, length, List, [], ◌∷◌, All, Option, none, some, Bool,
  true, false, ◌&&◌, ltb, eqb, if◌then◌else◌, Option-cases, inl, inr,
}
use nextblock.App.Session.{is_hex, all_hex}
use nextblock.App.OracleNode.{hex_digit}

abbrev hex_value : ℕ → ℕ
hex_value c = if ltb c 58 then c - 48 else if ltb c 71 then c - 55 else c - 87

-- `Buffer.from(t, 'hex')`, which ends before the first pair that is no byte.
unfoldable pub hex_bytes : Text → List ℕ
hex_bytes [] = []
hex_bytes (c ∷ []) = []
hex_bytes (c ∷ d ∷ t) =
    let rest = hex_bytes t in
    if is_hex c && is_hex d then (hex_value c * 16 + hex_value d) ∷ rest else []

-- `digest('hex')`
unfoldable pub hex_text : List ℕ → Text
hex_text [] = []
hex_text (b ∷ bytes) = hex_digit (b / 16) ∷ hex_digit (b % 16) ∷ hex_text bytes

-- `timingSafeEqual`, where the lengths are equal.
unfoldable pub same_bytes : (expected provided : List ℕ) → Bool
same_bytes expected provided =
    if eqb (length expected) (length provided) then text_eqb expected provided else false

module _ (hmac_sha256 : (secret raw_body : Text) → List ℕ) where
  unfoldable pub compute_braino_signature : (raw_body secret : Text) → Text
  unfolding hex_text
  compute_braino_signature raw_body secret = hex_text (hmac_sha256 secret raw_body)

  unfoldable pub verify_braino_signature :
      (raw_body : Text) → (signature_hex : Option Text) → (secret : Text) → Bool
  unfolding compute_braino_signature hex_bytes same_bytes
  verify_braino_signature raw_body none secret = false
  verify_braino_signature raw_body (some t) secret =
      let expected = hex_bytes (compute_braino_signature raw_body secret) in
      let provided = hex_bytes t in if all_hex 64 t then same_bytes expected provided else false

abbrev twice : ℕ → ℕ
twice zero = zero
twice (suc n) = suc (suc (twice n))

hex_value_lem :
    (c : ℕ)
    → is_hex c ≡ true
    → (hex_value c < 16) × (hex_digit (hex_value c) ≡ (if between 65 90 c then c + 32 else c))
hex_value_lem c h = ground arith

pair_lem :
    (a b : ℕ)
    → a < 16
    → b < 16
    → ((a * 16 + b) / 16 ≡ a) × (((a * 16 + b) % 16 ≡ b) × (a * 16 + b < 256))
pair_lem a b h k = (omega arith, (omega arith, omega arith))

both_true : (a b : Bool) → (a && b) ≡ true → (a ≡ true) × (b ≡ true)
both_true true b h = (refl, h)
both_true false b h = ground arith

hexes :
    (c d : ℕ) (n : ℕ) (t : Text)
    → all_hex (suc (suc n)) (c ∷ d ∷ t) ≡ true
    → (is_hex c ≡ true) × ((is_hex d ≡ true) × (all_hex n t ≡ true))
hexes c d n t h =
    let (e, g) = both_true (is_hex c) (is_hex d && all_hex n t) h in
    (e, both_true (is_hex d) (all_hex n t) g)

hex_bytes-pair :
    (c d : ℕ) (t : Text)
    → is_hex c ≡ true
    → is_hex d ≡ true
    → hex_bytes (c ∷ d ∷ t) ≡ (hex_value c * 16 + hex_value d) ∷ hex_bytes t
unfolding hex_bytes
hex_bytes-pair c d t e f = rw (e, f) refl

hex_text-cons :
    (b : ℕ) (bytes : List ℕ)
    → hex_text (b ∷ bytes) ≡ hex_digit (b / 16) ∷ hex_digit (b % 16) ∷ hex_text bytes
unfolding hex_text
hex_text-cons b bytes = refl

hex_bytes-none : hex_bytes [] ≡ []
unfolding hex_bytes
hex_bytes-none = refl

hex_text-none : hex_text [] ≡ []
unfolding hex_text
hex_text-none = refl

hex_text-hex_bytes :
    (n : ℕ) (t : Text) → all_hex (twice n) t ≡ true → hex_text (hex_bytes t) ≡ to_lower t
hex_text-hex_bytes zero [] h = rw (hex_bytes-none, hex_text-none) refl
hex_text-hex_bytes zero (c ∷ t) h = ground arith
hex_text-hex_bytes (suc n) [] h = ground arith
hex_text-hex_bytes (suc n) (c ∷ []) h = ground arith
hex_text-hex_bytes (suc n) (c ∷ d ∷ t) h =
    let (e, (f, g)) = hexes c d (twice n) t h in
    let (c_small, c_digit) = hex_value_lem c e in
    let (d_small, d_digit) = hex_value_lem d f in
    let (high, (low, _)) = pair_lem (hex_value c) (hex_value d) c_small d_small in
    rw (hex_bytes-pair c d t e f) rw (hex_text-cons, high, low, c_digit, d_digit) rw
      (hex_text-hex_bytes n t g) refl

hex_bytes-AreBytes :
    (n : ℕ) (t : Text) → all_hex (twice n) t ≡ true → All (λ b. b < 256) (hex_bytes t)
hex_bytes-AreBytes zero [] h = rw (hex_bytes-none) tt
hex_bytes-AreBytes zero (c ∷ t) h = ground arith
hex_bytes-AreBytes (suc n) [] h = ground arith
hex_bytes-AreBytes (suc n) (c ∷ []) h = ground arith
hex_bytes-AreBytes (suc n) (c ∷ d ∷ t) h =
    let (e, (f, g)) = hexes c d (twice n) t h in
    let small = pair_lem (hex_value c) (hex_value d) (hex_value_lem c e).0 (hex_value_lem d f).0 in
    rw (hex_bytes-pair c d t e f) (small.1.1, hex_bytes-AreBytes n t g)

hex_bytes-hex_text :
    (bytes : List ℕ) → All (λ b. b < 256) bytes → hex_bytes (hex_text bytes) ≡ bytes
unfolding hex_text hex_bytes
hex_bytes-hex_text [] h = refl
hex_bytes-hex_text (b ∷ bytes) (k, h) = ground (arith, hex_bytes-hex_text bytes h)

if_true : (a b : Bool) → (if a then b else false) ≡ true → (a ≡ true) × (b ≡ true)
if_true true b h = (refl, h)
if_true false b h = ground arith

same_bytes_iff :
    (expected provided : List ℕ) → same_bytes expected provided ≡ true ↔ expected ≡ provided
unfolding same_bytes
same_bytes_iff expected provided = (
  (λ h.
      (text_eqb_iff expected provided).0
        (if_true (eqb (length expected) (length provided)) (text_eqb expected provided) h).1),
  (λ h.
      subst (λ bytes. same_bytes expected bytes ≡ true) h
        (ground (arith, text_eqb_iff expected expected))),
)

module _ (hmac_sha256 : (secret raw_body : Text) → List ℕ) (raw_body secret t : Text) where
  abbrev computed : Text
  computed = compute_braino_signature hmac_sha256 raw_body secret

  verify-bytes :
      verify_braino_signature hmac_sha256 raw_body (some t) secret ≡ true
      → (all_hex 64 t ≡ true) × (hex_bytes computed ≡ hex_bytes t)
  unfolding verify_braino_signature
  verify-bytes h =
      let (e, same) = if_true (all_hex 64 t) (same_bytes (hex_bytes computed) (hex_bytes t)) h in
      (e, (same_bytes_iff (hex_bytes computed) (hex_bytes t)).0 same)

  bytes-verify :
      all_hex 64 t ≡ true
      → hex_bytes computed ≡ hex_bytes t
      → verify_braino_signature hmac_sha256 raw_body (some t) secret ≡ true
  unfolding verify_braino_signature
  bytes-verify e same =
      ap (λ b. if b then same_bytes (hex_bytes computed) (hex_bytes t) else false) e
      ∙ (same_bytes_iff (hex_bytes computed) (hex_bytes t)).1 same

  verify-none : verify_braino_signature hmac_sha256 raw_body none secret ≡ false
  unfolding verify_braino_signature
  verify-none = refl

-- For a digest of bytes, a signature is accepted exactly when it is 64 hexadecimal digits that are, in
-- lower case, the signature of the body; a missing one is refused.
pub verify_braino_signature-true_iff :
    (hmac_sha256 : (secret raw_body : Text) → List ℕ) (raw_body : Text)
    (signature_hex : Option Text) (secret : Text)
    → All (λ b. b < 256) (hmac_sha256 secret raw_body)
    → verify_braino_signature hmac_sha256 raw_body signature_hex secret ≡ true
      ↔ (t : Text) × ((signature_hex ≡ some t)
          × ((all_hex 64 t ≡ true)
              × (to_lower t ≡ compute_braino_signature hmac_sha256 raw_body secret)))
unfolding compute_braino_signature
verify_braino_signature-true_iff hmac_sha256 raw_body signature_hex secret bytes =
    let sent = hmac_sha256 secret raw_body in
    let read : hex_bytes (hex_text sent) ≡ sent = hex_bytes-hex_text sent bytes in
    (
      (λ h. elim (Option-cases signature_hex) [
        | inl e ↦
            let refused =
              ap (λ s. verify_braino_signature hmac_sha256 raw_body s secret) e
              ∙ verify-none hmac_sha256 raw_body secret [] in
            ground (arith, refused)
        | inr (t, e) ↦
            let (hexadecimal, same) =
              verify-bytes hmac_sha256 raw_body secret t
                (sym (ap (λ s. verify_braino_signature hmac_sha256 raw_body s secret) e) ∙ h) in
            (
              t,
              (
                e,
                (
                  hexadecimal,
                  sym (hex_text-hex_bytes 32 t hexadecimal) ∙ ap hex_text (sym same ∙ read),
                ),
              ),
            )
      ]),
      (λ (t, (e, (hexadecimal, lower))).
          ap (λ s. verify_braino_signature hmac_sha256 raw_body s secret) e
          ∙ bytes-verify hmac_sha256 raw_body secret t hexadecimal (
              sym (ap hex_bytes (hex_text-hex_bytes 32 t hexadecimal ∙ lower))
              ∙ hex_bytes-hex_text (hex_bytes t) (hex_bytes-AreBytes 32 t hexadecimal))),
    )
