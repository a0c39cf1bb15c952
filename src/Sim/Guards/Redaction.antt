-- ===== src/Sim/Guards/Redaction.antt =====
-- The redaction of packages/sim/src/guards/key-guard.ts.
use nextblock.Base.{
  ℕ, zero, suc, ◌-◌, Text, [], ◌∷◌, ◌++◌, true, false, eqb, ◌≡◌, ◌≢◌, inl, inr, refl, arith, ap,
  Bool-cases,
}
use nextblock.Sim.Guards.{
  is_word, is_key_body, is_prefixed_key, match_length, redacted_key, redact_loop, redact, key_loop,
  looks_like_key,
}
use nextblock.Sim.Guards.Matching.{
  ends_after, match_length-redact, match_length-ends, match_length-blank,
}

key_loop-marker : (before t : Text) → key_loop before (redacted_key ++ t) ≡ key_loop (93 ∷ []) t
unfolding key_loop match_length is_key_body is_prefixed_key
key_loop-marker before t = ground arith

key_loop-kept :
    (before : Text) (c : ℕ) (t : Text)
    → match_length before (c ∷ t) ≡ 0
    → key_loop before (c ∷ t) ≡ key_loop (c ∷ []) t
unfolding key_loop
key_loop-kept before c t h = ground arith

redact_loop-kept :
    (before : Text) (c : ℕ) (t : Text)
    → match_length before (c ∷ t) ≡ 0
    → redact_loop 0 before (c ∷ t) ≡ c ∷ redact_loop 0 (c ∷ []) t
unfolding redact_loop
redact_loop-kept before c t h = ground arith

pub redact_loop-found :
    (before : Text) (c : ℕ) (t : Text)
    → match_length before (c ∷ t) ≢ 0
    → redact_loop 0 before (c ∷ t)
      ≡ redacted_key ++ redact_loop (match_length before (c ∷ t) - 1) (c ∷ []) t
unfolding redact_loop
redact_loop-found before c t h = ground arith

suc-not-zero : (n : ℕ) → eqb (suc n) 0 ≡ false
suc-not-zero n = ground arith

pub redact_loop-within :
    (n : ℕ) (before : Text) (c : ℕ) (t : Text)
    → redact_loop (suc n) before (c ∷ t) ≡ redact_loop n (c ∷ []) t
unfolding redact_loop
redact_loop-within n before c t =
    rw (suc-not-zero n) (ap (λ k. redact_loop k (c ∷ []) t) (omega arith))

redact_loop-clean : (before t : Text) → key_loop before t ≡ false → redact_loop 0 before t ≡ t
unfolding key_loop redact_loop
redact_loop-clean before [] h = refl
redact_loop-clean before (c ∷ t) h = ground (arith, redact_loop-clean (c ∷ []) t)

-- What is shown of the redacted rest: it holds no key where it starts, nor after a match.
abbrev IsClean : (before t : Text) → Type 0
IsClean before t =
    (key_loop before (redact_loop 0 before t) ≡ false)
    × ((n : ℕ) → ends_after n t ≡ true → key_loop (93 ∷ []) (redact_loop n before t) ≡ false)

clean_at :
    (before : Text) (c : ℕ) (t : Text)
    → IsClean (c ∷ []) t
    → key_loop before (redact_loop 0 before (c ∷ t)) ≡ false
clean_at before c t (here, after) = elim (Bool-cases (eqb (match_length before (c ∷ t)) 0)) [
  | inl e ↦
      rw
        (
          redact_loop-kept before c t (ground arith),
          key_loop-kept before c (redact_loop 0 (c ∷ []) t)
              (match_length-redact before c t (ground arith)),
        )
        here
  | inr e ↦
      rw
        (
          redact_loop-found before c t (ground arith),
          key_loop-marker before (redact_loop (match_length before (c ∷ t) - 1) (c ∷ []) t),
        )
        (after (match_length before (c ∷ t) - 1) (match_length-ends before c t (ground arith)))
]

clean_within :
    (before : Text) (c : ℕ) (t : Text)
    → IsClean (c ∷ []) t
    → (n : ℕ) → ends_after n (c ∷ t) ≡ true
    → key_loop (93 ∷ []) (redact_loop n before (c ∷ t)) ≡ false
clean_within before c t (here, after) zero h =
    let blank : is_word c ≡ false = ground arith in
    rw
      (
        redact_loop-kept before c t (match_length-blank before c t blank),
        key_loop-kept (93 ∷ []) c (redact_loop 0 (c ∷ []) t)
            (match_length-blank (93 ∷ []) c (redact_loop 0 (c ∷ []) t) blank),
      )
      here
clean_within before c t (here, after) (suc n) h = rw (redact_loop-within n before c t) (after n h)

redact_loop-IsClean : (before t : Text) → IsClean before t
unfolding redact_loop key_loop
redact_loop-IsClean before [] = (refl, λ n h. refl)
redact_loop-IsClean before (c ∷ t) = (
  clean_at before c t (redact_loop-IsClean (c ∷ []) t),
  clean_within before c t (redact_loop-IsClean (c ∷ []) t),
)

-- No redacted text looks like a key, and a text that does not is left as it is.
pub redact-IsClean :
    (text : Text)
    → (looks_like_key (redact text) ≡ false) × (looks_like_key text ≡ false → redact text ≡ text)
unfolding looks_like_key redact
redact-IsClean text = ((redact_loop-IsClean [] text).0, redact_loop-clean [] text)
