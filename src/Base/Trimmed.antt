-- ===== src/Base/Trimmed.antt =====
-- `trim` of a text that is trimmed, and of one whose letters change their case.
use Prim.Native.Nat.{ℕ, ◌+◌, ◌-◌}
use mathlib.Core.Logic.{inl, inr}
use mathlib.Core.Path.{◌≡◌, refl, ◌∙◌, ap}
use mathlib.Core.Bool.{false}
use mathlib.Core.List.{[], ◌∷◌, map}
use native.Mathlib.Omega.{arith}
use nextblock.Base.Tests.{if◌then◌else◌, Bool-cases}
use nextblock.Base.Texts.{
  Text, between, is_space, trim_start, trim_end, before_end, trim, to_lower, to_upper,
}

before_end-kept : (c : ℕ) (t : Text) → is_space c ≡ false → before_end c t ≡ c ∷ t
before_end-kept c [] e = rw e refl
before_end-kept c (d ∷ t) e = refl

trim_start-trim_end : (t : Text) → trim_start (trim_end (trim_start t)) ≡ trim_end (trim_start t)
trim_start-trim_end [] = refl
trim_start-trim_end (c ∷ t) = elim (Bool-cases (is_space c)) [
  | inl e ↦ rw e (trim_start-trim_end t)
  | inr e ↦ rw e rw (before_end-kept c (trim_end t) e) rw e refl
]

trim_end-before_end :
    (c : ℕ) (t : Text) → trim_end t ≡ t → trim_end (before_end c t) ≡ before_end c t
trim_end-before_end c [] h = elim (Bool-cases (is_space c)) [
  | inl e ↦ rw e refl
  | inr e ↦ rw e rw e refl
]
trim_end-before_end c (d ∷ t) h = ap (before_end c) h

trim_end-trim_end : (t : Text) → trim_end (trim_end t) ≡ trim_end t
trim_end-trim_end [] = refl
trim_end-trim_end (c ∷ t) = trim_end-before_end c (trim_end t) (trim_end-trim_end t)

-- What is trimmed stays as it is.
pub trim-trim : (t : Text) → trim (trim t) ≡ trim t
trim-trim t = ap trim_end (trim_start-trim_end t) ∙ trim_end-trim_end (trim_start t)

module _ (f : ℕ → ℕ) (kept : (c : ℕ) → is_space (f c) ≡ is_space c) where
  trim_start-map : (t : Text) → trim_start (map f t) ≡ map f (trim_start t)
  trim_start-map [] = refl
  trim_start-map (c ∷ t) = elim (Bool-cases (is_space c)) [
    | inl e ↦ rw (kept c, e) (trim_start-map t)
    | inr e ↦ rw (kept c, e) refl
  ]

  before_end-map : (c : ℕ) (t : Text) → before_end (f c) (map f t) ≡ map f (before_end c t)
  before_end-map c [] = elim (Bool-cases (is_space c)) [
    | inl e ↦ rw (kept c, e) refl
    | inr e ↦ rw (kept c, e) refl
  ]
  before_end-map c (d ∷ t) = refl

  trim_end-map : (t : Text) → trim_end (map f t) ≡ map f (trim_end t)
  trim_end-map [] = refl
  trim_end-map (c ∷ t) = ap (before_end (f c)) (trim_end-map t) ∙ before_end-map c (trim_end t)

  trim-map : (t : Text) → trim (map f t) ≡ map f (trim t)
  trim-map t = ap trim_end (trim_start-map t) ∙ trim_end-map (trim_start t)

lower_space : (c : ℕ) → is_space (if between 65 90 c then c + 32 else c) ≡ is_space c
lower_space c = ground arith

upper_space : (c : ℕ) → is_space (if between 97 122 c then c - 32 else c) ≡ is_space c
upper_space c = ground arith

to_lower-to_lower : (t : Text) → to_lower (to_lower t) ≡ to_lower t
to_lower-to_lower [] = refl
to_lower-to_lower (c ∷ t) = ground (arith, to_lower-to_lower t)

to_upper-to_upper : (t : Text) → to_upper (to_upper t) ≡ to_upper t
to_upper-to_upper [] = refl
to_upper-to_upper (c ∷ t) = ground (arith, to_upper-to_upper t)

-- A text that was trimmed and then put into lower or upper case stays as it is under the same.
pub lower_trim-lower_trim : (t : Text) → to_lower (trim (to_lower (trim t))) ≡ to_lower (trim t)
lower_trim-lower_trim t =
    ap to_lower (
      trim-map (λ c. if between 65 90 c then c + 32 else c) lower_space (trim t)
      ∙ ap to_lower (trim-trim t))
    ∙ to_lower-to_lower (trim t)

pub upper_trim-upper_trim : (t : Text) → to_upper (trim (to_upper (trim t))) ≡ to_upper (trim t)
upper_trim-upper_trim t =
    ap to_upper (
      trim-map (λ c. if between 97 122 c then c - 32 else c) upper_space (trim t)
      ∙ ap to_upper (trim-trim t))
    ∙ to_upper-to_upper (trim t)
