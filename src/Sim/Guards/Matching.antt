-- ===== src/Sim/Guards/Matching.antt =====
-- Where the pattern of packages/sim/src/guards/key-guard.ts matches, in a text and in its redaction.
use nextblock.Base.{
  ℕ, zero, suc, ◌-◌, Text, [], ◌∷◌, Bool, true, false, not, eqb, ◌≡◌, ◌≢◌, inl, inr, refl, arith,
  Bool-cases,
}
use nextblock.Sim.Guards.{
  is_hex, is_word, begins_with_word, is_key_body, is_prefixed_key, match_length, redact_loop,
}

-- A word ends after n characters.
abbrev pub ends_after : ℕ → Text → Bool
ends_after zero t = not (begins_with_word t)
ends_after (suc n) [] = true
ends_after (suc n) (c ∷ t) = ends_after n t

is_hex-is_word : (c : ℕ) → is_hex c ≡ true → is_word c ≡ true
is_hex-is_word c h = ground arith

is_key_body-ends : (n : ℕ) (t : Text) → is_key_body n t ≡ true → ends_after n t ≡ true
unfolding is_key_body
is_key_body-ends zero t h = h
is_key_body-ends (suc n) [] h = refl
is_key_body-ends (suc n) (c ∷ t) h = ground (arith, is_key_body-ends n t)

-- Within a word nothing is matched, so nothing is replaced.
redact_loop-word :
    (before : Text) (c : ℕ) (t : Text)
    → begins_with_word before ≡ true
    → redact_loop 0 before (c ∷ t) ≡ c ∷ redact_loop 0 (c ∷ []) t
unfolding redact_loop match_length
redact_loop-word before c t h = ground arith

-- After a word's character, the digits of a key in the redacted text are there in the text.
is_key_body-redact :
    (n : ℕ) (before t : Text)
    → begins_with_word before ≡ true
    → is_key_body n (redact_loop 0 before t) ≡ true
    → is_key_body n t ≡ true
unfolding is_key_body redact_loop
is_key_body-redact n before [] w h = h
is_key_body-redact zero before (c ∷ t) w h = ground (arith, redact_loop-word before c t w)
is_key_body-redact (suc n) before (c ∷ t) w h =
    ground (arith, redact_loop-word before c t w, is_hex-is_word c, is_key_body-redact n (c ∷ []) t)

is_prefixed_key-redact :
    (c : ℕ) (t : Text)
    → is_prefixed_key (c ∷ redact_loop 0 (c ∷ []) t) ≡ true
    → is_prefixed_key (c ∷ t) ≡ true
unfolding is_prefixed_key redact_loop
is_prefixed_key-redact c [] h = h
is_prefixed_key-redact c (d ∷ t) h = elim (Bool-cases (eqb c 48)) [
  | inl e ↦ prefixed (rw (redact_loop-word (c ∷ []) d t (ground arith)) at h)
  | inr e ↦ ground arith
]
  where
    prefixed :
        is_prefixed_key (c ∷ d ∷ redact_loop 0 (d ∷ []) t) ≡ true
        → is_prefixed_key (c ∷ d ∷ t) ≡ true
    prefixed g = ground (arith, is_key_body-redact 64 (d ∷ []) t)

is_key_body-redact_head :
    (n c : ℕ) (t : Text)
    → is_key_body (suc n) (c ∷ redact_loop 0 (c ∷ []) t) ≡ true
    → is_key_body (suc n) (c ∷ t) ≡ true
unfolding is_key_body
is_key_body-redact_head n c t h = ground (arith, is_key_body-redact n (c ∷ []) t, is_hex-is_word c)

pub match_length-redact :
    (before : Text) (c : ℕ) (t : Text)
    → match_length before (c ∷ t) ≡ 0
    → match_length before (c ∷ redact_loop 0 (c ∷ []) t) ≡ 0
unfolding match_length
match_length-redact before c t h =
    ground (arith, is_prefixed_key-redact c t, is_key_body-redact_head 63 c t)

is_prefixed_key-ends : (c : ℕ) (t : Text) → is_prefixed_key (c ∷ t) ≡ true → ends_after 65 t ≡ true
unfolding is_prefixed_key
is_prefixed_key-ends c [] h = refl
is_prefixed_key-ends c (d ∷ t) h = is_key_body-ends 64 t (ground arith)

pub match_length-ends :
    (before : Text) (c : ℕ) (t : Text)
    → match_length before (c ∷ t) ≢ 0
    → ends_after (match_length before (c ∷ t) - 1) t ≡ true
unfolding match_length
match_length-ends before c t h = elim (Bool-cases (begins_with_word before)) [
  | inl w ↦ ground arith
  | inr w ↦ elim (Bool-cases (is_prefixed_key (c ∷ t))) [
    | inl p ↦ rw (w, p) (is_prefixed_key-ends c t p)
    | inr p ↦ elim (Bool-cases (is_key_body 64 (c ∷ t))) [
      | inl k ↦ rw (w, p, k) (is_key_body-ends 64 (c ∷ t) k)
      | inr k ↦ ground arith
    ]
  ]
]

is_key_body-word : (n c : ℕ) (t : Text) → is_key_body (suc n) (c ∷ t) ≡ true → is_word c ≡ true
unfolding is_key_body
is_key_body-word n c t h = is_hex-is_word c (ground arith)

is_prefixed_key-word : (c : ℕ) (t : Text) → is_prefixed_key (c ∷ t) ≡ true → is_word c ≡ true
unfolding is_prefixed_key
is_prefixed_key-word c [] h = ground arith
is_prefixed_key-word c (d ∷ t) h = ground arith

pub match_length-blank :
    (before : Text) (c : ℕ) (t : Text) → is_word c ≡ false → match_length before (c ∷ t) ≡ 0
unfolding match_length
match_length-blank before c t h = elim (Bool-cases (is_prefixed_key (c ∷ t))) [
  | inl p ↦ ground (arith, is_prefixed_key-word c t p)
  | inr p ↦ elim (Bool-cases (is_key_body 64 (c ∷ t))) [
    | inl k ↦ ground (arith, is_key_body-word 63 c t k)
    | inr k ↦ ground arith
  ]
]
