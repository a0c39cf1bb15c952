-- ===== src/App/Bordereau/Serials.antt =====
-- The dates that app/src/lib/portfolio/bordereau.ts reads from Excel serials: `new Date(ms)` and its
-- UTC year, month and day, by the Gregorian calendar.
use nextblock.Base.{
  ℕ, zero, suc, ◌+◌, ◌-◌, ◌%◌, eqb, ltb, List, [], ◌∷◌, Bool, ◌&&◌, ◌||◌, not, ◌≡◌, refl,
  if◌then◌else◌,
}

pub is_leap : ℕ → Bool
is_leap y = eqb (y % 4) 0 && (not (eqb (y % 100) 0) || eqb (y % 400) 0)

abbrev year_days : ℕ → ℕ
year_days y = if is_leap y then 366 else 365

abbrev month_lengths : ℕ → List ℕ
month_lengths y =
    31 ∷ (if is_leap y then 29 else 28) ∷ 31 ∷ 30 ∷ 31 ∷ 30 ∷ 31 ∷ 31 ∷ 30 ∷ 31 ∷ 30 ∷ 31 ∷ []

-- The month and the day of the month of day `d` of the year, from 0.
month_and_day : (month : ℕ) → List ℕ → (d : ℕ) → ℕ × ℕ
month_and_day month [] d = (month, d + 1)
month_and_day month (n ∷ lengths) d =
    let later = month_and_day (month + 1) lengths (d - n) in
    if ltb d n then (month, d + 1) else later

abbrev with_year : ℕ → ℕ × ℕ → ℕ × ℕ × ℕ
with_year y (m, d) = (y, m, d)

-- The year, month and day that lie `d` days after the start of year `y`; `fuel` bounds the years.
civil_from : (fuel y d : ℕ) → ℕ × ℕ × ℕ
unfolding month_and_day is_leap
civil_from zero y d = with_year y (month_and_day 1 (month_lengths y) d)
civil_from (suc fuel) y d =
    let later = civil_from fuel (y + 1) (d - year_days y) in
    if ltb d (year_days y) then with_year y (month_and_day 1 (month_lengths y) d) else later

-- Day 2 is the first of 1900; a serial below 90000 is less than 300 years later.
unfoldable pub civil_of_serial : ℕ → ℕ × ℕ × ℕ
unfolding civil_from
civil_of_serial serial = civil_from 300 1900 (serial - 2)

first_of_1970 : civil_of_serial 25569 ≡ (1970, 1, 1)
unfolding civil_of_serial
first_of_1970 = refl

leap_day : civil_of_serial 45351 ≡ (2024, 2, 29)
unfolding civil_of_serial
leap_day = refl
