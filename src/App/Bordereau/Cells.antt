-- ===== src/App/Bordereau/Cells.antt =====
-- parseAmount and parseBordereauDate of app/src/lib/portfolio/bordereau.ts. The doubles that `Number`
-- makes of a text, and what the summary does with them, are a parameter.
use nextblock.Base.{
  ℕ, zero, suc, ◌+◌, Text, trim, eqb, ltb, leb, is_digit, all_digits, digits_value, print,
  has_line_end, [], ◌∷◌, ◌++◌, Option, none, some, Bool, true, false, ◌&&◌, ◌||◌, not,
  if◌then◌else◌, length,
}

-- The doubles: `of_text` is `Number(…)` with `none` where the value is not finite, and `print_usdc`
-- is fmtUsdc.
pub record Doubles : Type 1 where
  pub Double : Type 0
  pub of_text : Text → Option Double
  pub negate : Double → Double
  pub nought : Double
  pub add : Double → Double → Double
  pub is_positive : Double → Bool
  pub print_usdc : Double → Text

abbrev pub without_char : ℕ → Text → Text
without_char c [] = []
without_char c (d ∷ s) = let rest = without_char c s in if eqb d c then rest else d ∷ rest

abbrev pub count_char : ℕ → Text → ℕ
count_char c [] = 0
count_char c (d ∷ s) = (if eqb d c then 1 else 0) + count_char c s

-- `replace(/c/g, e)`
abbrev pub replace_char : (c e : ℕ) → Text → Text
replace_char c e [] = []
replace_char c e (d ∷ s) = (if eqb d c then e else d) ∷ replace_char c e s

-- What follows the first such character.
abbrev pub after_char : ℕ → Text → Text
after_char c [] = []
after_char c (d ∷ s) = let rest = after_char c s in if eqb d c then s else rest

-- Whether the last separator is a comma.
abbrev pub last_is_comma : Bool → Text → Bool
last_is_comma found [] = found
last_is_comma found (d ∷ s) =
    last_is_comma (if eqb d 44 then true else if eqb d 46 then false else found) s

-- The characters of [0-9.,].
abbrev pub amount_chars : Text → Text
amount_chars [] = []
amount_chars (c ∷ s) =
    let rest = amount_chars s in if is_digit c || (eqb c 46 || eqb c 44) then c ∷ rest else rest

pub normalize_amount : Text → Text
normalize_amount s =
    let commas = count_char 44 s in
    let dots = count_char 46 s in
    if ltb 0 commas && ltb 0 dots
    then (if last_is_comma false s
        then replace_char 44 46 (without_char 46 s)
        else without_char 44 s)
    else if ltb 0 commas
    then (if ltb 1 commas || eqb (length (after_char 44 s)) 3
        then without_char 44 s
        else replace_char 44 46 s)
    else if ltb 0 dots
    then (if ltb 1 dots then without_char 46 s else s)
    else s

abbrev ends_with : ℕ → Text → Bool
ends_with c [] = false
ends_with c (d ∷ []) = eqb d c
ends_with c (d ∷ e ∷ s) = ends_with c (e ∷ s)

-- `^\(.*\)$`, or a minus sign in front.
pub is_negative : Text → Bool
is_negative [] = false
is_negative (c ∷ t) = eqb c 40 && (ends_with 41 t && not (has_line_end t)) || eqb c 45

module _ (n : Doubles) where
  open n use {Double, of_text, negate}

  abbrev signed : Bool → Option Double → Option Double
  signed negative none = none
  signed negative (some x) = some (if negative then negate x else x)

  abbrev amount_of : Bool → Text → Option Double
  amount_of negative [] = none
  amount_of negative (c ∷ s) = signed negative (of_text (normalize_amount (c ∷ s)))

  pub parse_amount : (raw : Text) → Option Double
  parse_amount raw = amount_of (is_negative (trim raw)) (amount_chars (trim raw))

-- Up to `most` digits, and what follows.
abbrev take_digits : (most : ℕ) → Text → Text × Text
take_digits zero s = ([], s)
take_digits (suc most) [] = ([], [])
take_digits (suc most) (c ∷ s) =
    let (ds, rest) = take_digits most s in if is_digit c then (c ∷ ds, rest) else ([], c ∷ s)

-- `padStart(2, '0')`
abbrev pad : Text → Text
pad [] = 48 ∷ 48 ∷ []
pad (c ∷ []) = 48 ∷ c ∷ []
pad (c ∷ d ∷ s) = c ∷ d ∷ s

abbrev starts_dash : Text → Option Text
starts_dash [] = none
starts_dash (c ∷ s) = if eqb c 45 then some s else none

abbrev some_digits : Text → Option Text
some_digits [] = none
some_digits (c ∷ s) = some (c ∷ s)

pub record BordereauDate : Type 0 where
  pub iso : Text
  pub ambiguous : Bool

abbrev pub dated : (y m d : Text) → Text
dated y m d = y ++ (45 ∷ (pad m ++ (45 ∷ pad d)))

-- `^(\d{4})-(\d{1,2})-(\d{1,2})`
unfoldable pub iso_date : Text → Option BordereauDate
iso_date s =
    let (y, after_y) = take_digits 4 s in
    elim (if eqb (length y) 4 then starts_dash after_y else none) [
      | none ↦ none
      | some t ↦
          let (m, after_m) = take_digits 2 t in
          elim (if ltb 0 (length m) then starts_dash after_m else none) [
            | none ↦ none
            | some u ↦
                let (d, after_d) = take_digits 2 u in
                if ltb 0 (length d)
                then some (record { iso = dated y m d; ambiguous = false })
                else none
          ]
    ]

-- The day and the month, as the source reads them, and whether both readings are possible.
unfoldable pub day_and_month : (a b : ℕ) → ℕ × ℕ × Bool
day_and_month a b = if ltb 12 b && leb a 12 then (b, a, false) else (a, b, leb a 12 && leb b 12)

unfoldable pub full_year : ℕ → ℕ
full_year y = if ltb y 100 then (if ltb y 70 then y + 2000 else y + 1900) else y

unfoldable pub slash_value : (a b y : ℕ) → Option BordereauDate
unfolding day_and_month full_year
slash_value a b y =
    let (day, month, ambiguous) = day_and_month a b in
    if ltb month 1 || (ltb 12 month || (ltb day 1 || ltb 31 day))
    then none
    else some (record {
      iso = dated (print (full_year y)) (print month) (print day);
      ambiguous = ambiguous;
    })

abbrev starts_separator : Text → Option Text
starts_separator [] = none
starts_separator (c ∷ s) = if eqb c 47 || eqb c 46 then some s else none

-- `^(\d{1,2})[/.](\d{1,2})[/.](\d{2,4})$`; the inner option says whether the date is one.
unfoldable pub slash_date : Text → Option (Option BordereauDate)
unfolding slash_value
slash_date s =
    let (a, after_a) = take_digits 2 s in
    elim (if ltb 0 (length a) then starts_separator after_a else none) [
      | none ↦ none
      | some t ↦
          let (b, after_b) = take_digits 2 t in
          elim (if ltb 0 (length b) then starts_separator after_b else none) [
            | none ↦ none
            | some y ↦
                if all_digits y && (leb 2 (length y) && leb (length y) 4)
                then some (slash_value (digits_value 0 a) (digits_value 0 b) (digits_value 0 y))
                else none
          ]
    ]
