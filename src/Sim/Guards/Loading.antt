-- ===== src/Sim/Guards/Loading.antt =====
-- The keys that packages/sim/src/guards/key-guard.ts loads, and their redaction.
use nextblock.Base.{
  ℕ, zero, suc, ◌-◌, Text, [], ◌∷◌, ◌++◌, Option, none, some, true, false, trim, trim_end,
  before_end, is_space, ok, ◌≡◌, refl, ap, sym, subst, ◌∙◌, arith,
}
use nextblock.Sim.Guards.Redaction.{redact_loop-found, redact_loop-within}
use nextblock.Sim.Guards.{
  checked, is_hex, is_key_body, is_prefixed_key, match_length, redacted_key, redact_loop, redact,
  is_hex_run, is_well_formed, load_present, load_key,
}

is_hex_run-is_key_body : (n : ℕ) (t : Text) → is_hex_run n t ≡ true → is_key_body n t ≡ true
unfolding is_hex_run is_key_body
is_hex_run-is_key_body zero [] h = refl
is_hex_run-is_key_body zero (c ∷ t) h = ground arith
is_hex_run-is_key_body (suc n) [] h = h
is_hex_run-is_key_body (suc n) (c ∷ t) h = ground (arith, is_hex_run-is_key_body n t)

is_hex-is_space : (c : ℕ) → is_hex c ≡ true → is_space c ≡ false
is_hex-is_space c h = ground arith

is_hex_run-head : (n c : ℕ) (t : Text) → is_hex_run (suc n) (c ∷ t) ≡ true → is_hex c ≡ true
unfolding is_hex_run
is_hex_run-head n c t h = ground arith

is_hex_run-tail : (n c : ℕ) (t : Text) → is_hex_run (suc n) (c ∷ t) ≡ true → is_hex_run n t ≡ true
unfolding is_hex_run
is_hex_run-tail n c t h = ground arith

trim_end-is_hex_run : (n : ℕ) (t : Text) → is_hex_run n t ≡ true → trim_end t ≡ t
unfolding is_hex_run
trim_end-is_hex_run zero [] h = refl
trim_end-is_hex_run zero (c ∷ t) h = ground arith
trim_end-is_hex_run (suc n) [] h = refl
trim_end-is_hex_run (suc n) (c ∷ []) h = rw (is_hex-is_space c (is_hex_run-head n c [] h)) refl
trim_end-is_hex_run (suc n) (c ∷ d ∷ t) h =
    ap (before_end c) (trim_end-is_hex_run n (d ∷ t) (is_hex_run-tail n c (d ∷ t) h))

-- Nothing is written within a match.
redact_loop-rest : (n : ℕ) (before t : Text) → is_hex_run n t ≡ true → redact_loop n before t ≡ []
unfolding redact_loop is_hex_run
redact_loop-rest n before [] h = refl
redact_loop-rest zero before (c ∷ t) h = ground arith
redact_loop-rest (suc n) before (c ∷ t) h =
    redact_loop-within n before c t ∙ redact_loop-rest n (c ∷ []) t (is_hex_run-tail n c t h)

-- A well-formed key is "0x" and 64 digits.
well_formed_digits :
    (k : Text)
    → is_well_formed k ≡ true
    → (t : Text) × (k ≡ 48 ∷ 120 ∷ t) × (is_hex_run 64 t ≡ true)
unfolding is_well_formed
well_formed_digits [] h = absurd (ground arith)
well_formed_digits (c ∷ []) h = absurd (ground arith)
well_formed_digits (c ∷ d ∷ t) h = (t, ground arith, ground arith)

match_length-key : (t : Text) → is_hex_run 64 t ≡ true → match_length [] (48 ∷ 120 ∷ t) ≡ 66
unfolding match_length is_prefixed_key
match_length-key t h = ground (arith, is_hex_run-is_key_body 64 t h)

redact-digits : (t : Text) → is_hex_run 64 t ≡ true → redact (48 ∷ 120 ∷ t) ≡ redacted_key
unfolding redact
redact-digits t h =
    let key = match_length-key t h in
    redact_loop-found [] 48 (120 ∷ t) (ground (arith, key))
    ∙ ap (λ n. redacted_key ++ redact_loop (n - 1) (48 ∷ []) (120 ∷ t)) key
    ∙ ap (λ u. redacted_key ++ u)
        (redact_loop-within 64 (48 ∷ []) 120 t ∙ redact_loop-rest 64 (120 ∷ []) t h)

trim-digits : (t : Text) → is_hex_run 64 t ≡ true → trim (48 ∷ 120 ∷ t) ≡ 48 ∷ 120 ∷ t
trim-digits [] h = refl
trim-digits (c ∷ t) h =
    ap (λ u. before_end 48 (before_end 120 u)) (trim_end-is_hex_run 64 (c ∷ t) h)

load_key-digits :
    (t : Text) → is_hex_run 64 t ≡ true → load_key (some (48 ∷ 120 ∷ t)) ≡ ok (48 ∷ 120 ∷ t)
unfolding load_key load_present is_well_formed
load_key-digits t h = rw (trim-digits t h, h) refl

checked-IsWellFormed : (u k : Text) → checked u ≡ ok k → is_well_formed k ≡ true
checked-IsWellFormed u k h = ground arith

load_key-IsWellFormed :
    (raw : Option Text) (k : Text) → load_key raw ≡ ok k → is_well_formed k ≡ true
unfolding load_key load_present
load_key-IsWellFormed none k h = absurd (ground arith)
load_key-IsWellFormed (some []) k h = absurd (ground arith)
load_key-IsWellFormed (some (c ∷ raw)) k h = checked-IsWellFormed _ k h

-- A key that is loaded is "0x" with 64 digits: loading it again gives it back, and the redaction
-- leaves nothing of it.
pub redact-load_key :
    (raw : Option Text) (k : Text)
    → load_key raw ≡ ok k
    → (load_key (some k) ≡ ok k) × (redact k ≡ redacted_key)
redact-load_key raw k h =
    let (t, form, digits) = well_formed_digits k (load_key-IsWellFormed raw k h) in
    subst (λ u. (load_key (some u) ≡ ok u) × (redact u ≡ redacted_key)) (sym form)
      (load_key-digits t digits, redact-digits t digits)
