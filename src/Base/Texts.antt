-- ===== src/Base/Texts.antt =====
-- The texts of the source, as lists of UTF-16 code units. Upper case is that of ASCII, the only
-- letters of the addresses that the source lowers.
use Prim.Native.Nat.{zero, suc, ℕ, ◌+◌, ◌-◌}
use Prim.Native.Char.{code}
use Prim.Native.String.{String}
use mathlib.Core.Path.{◌≡◌}
use mathlib.Core.Logic.{◌↔◌}
use mathlib.Core.Bool.{Bool, true, false, ◌&&◌, ◌||◌}
use mathlib.Core.List.{List, [], ◌∷◌, map}
use native.Mathlib.Omega.{arith}
use nextblock.Base.Tests.{eqb, leb, if◌then◌else◌}
use nextblock.Base.Keys.{Key}

abbrev pub Text : Type 0
Text = List ℕ

-- The text of a literal.
abbrev pub codes : String → Text
codes String.[] = []
codes (String.◌∷◌ c s) = code c ∷ codes s

abbrev pub text_eqb : Text → Text → Bool
text_eqb [] [] = true
text_eqb [] (d ∷ u) = false
text_eqb (c ∷ t) [] = false
text_eqb (c ∷ t) (d ∷ u) = eqb c d && text_eqb t u

pub text_eqb_iff : (t u : Text) → (text_eqb t u ≡ true) ↔ (t ≡ u)
text_eqb_iff [] [] = ground arith
text_eqb_iff [] (d ∷ u) = ground arith
text_eqb_iff (c ∷ t) [] = ground arith
text_eqb_iff (c ∷ t) (d ∷ u) = ground (arith, text_eqb_iff t u)

instance abbrev pub text_key : Key Text
text_key = record { same = text_eqb; same_iff = text_eqb_iff }

abbrev pub between : ℕ → ℕ → ℕ → Bool
between lo hi c = leb lo c && leb c hi

-- `toLowerCase`.
abbrev pub to_lower : Text → Text
to_lower t = map (λ c. if between 65 90 c then c + 32 else c) t

-- `toUpperCase`.
abbrev pub to_upper : Text → Text
to_upper t = map (λ c. if between 97 122 c then c - 32 else c) t

-- `startsWith`.
abbrev pub starts_with : (prefix t : Text) → Bool
starts_with [] t = true
starts_with (c ∷ p) [] = false
starts_with (c ∷ p) (d ∷ t) = eqb c d && starts_with p t

-- `t.includes(part)`.
abbrev pub includes : (t part : Text) → Bool
includes [] part = starts_with part []
includes (c ∷ t) part = starts_with part (c ∷ t) || includes t part

-- `slice(0, n)`.
abbrev pub take : ℕ → Text → Text
take zero t = []
take (suc n) [] = []
take (suc n) (c ∷ t) = c ∷ take n t

abbrev pub is_space_of : Text → ℕ → Bool
is_space_of [] c = false
is_space_of (s ∷ spaces) c = eqb c s || is_space_of spaces c

-- White space and line ends, as `trim` has them.
abbrev pub is_space : ℕ → Bool
is_space c =
    between 9 13 c
    || (between 8192 8202 c
        || (between 8232 8233 c
            || is_space_of (32 ∷ 160 ∷ 5760 ∷ 8239 ∷ 8287 ∷ 12288 ∷ 65279 ∷ []) c))

abbrev pub trim_start : Text → Text
trim_start [] = []
trim_start (c ∷ t) = let rest = trim_start t in if is_space c then rest else c ∷ t

abbrev pub before_end : ℕ → Text → Text
before_end c [] = if is_space c then [] else c ∷ []
before_end c (d ∷ t) = c ∷ d ∷ t

abbrev pub trim_end : Text → Text
trim_end [] = []
trim_end (c ∷ t) = before_end c (trim_end t)

-- `trim`.
abbrev pub trim : Text → Text
trim t = trim_end (trim_start t)

-- A character that `.` does not match.
abbrev pub has_line_end : Text → Bool
has_line_end [] = false
has_line_end (c ∷ t) = eqb c 10 || (eqb c 13 || (between 8232 8233 c || has_line_end t))

-- `slice(n)`.
abbrev pub drop : ℕ → Text → Text
drop zero t = t
drop (suc n) [] = []
drop (suc n) (c ∷ t) = drop n t
