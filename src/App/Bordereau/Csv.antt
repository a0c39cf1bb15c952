-- ===== src/App/Bordereau/Csv.antt =====
-- parseCsv of app/src/lib/portfolio/bordereau.ts.
use nextblock.Base.{
  ℕ, Text, trim, eqb, List, [], ◌∷◌, ◌++◌, Bool, true, false, ◌&&◌, ◌||◌, not, if◌then◌else◌,
}

-- The variables of the loop. `skip` says that the loop has passed the next character already (`i++`).
pub record CsvState : Type 0 where
  pub rows : List (List Text)
  pub row : List Text
  pub field : Text
  pub in_quotes : Bool
  pub skip : Bool

-- Whether the next character is this one.
unfoldable pub next_is : ℕ → Text → Bool
next_is c [] = false
next_is c (d ∷ s) = eqb d c

abbrev push_char : ℕ → CsvState → CsvState
push_char c st = record st { field = st.field ++ (c ∷ []) }

abbrev pub end_field : CsvState → CsvState
end_field st = record st { row = st.row ++ (st.field ∷ []); field = [] }

abbrev pub end_row : CsvState → CsvState
end_row st = record st { rows = st.rows ++ (st.row ∷ []); row = [] }

-- The body of the loop at `c`, with what follows.
unfoldable pub csv_step : CsvState → ℕ → Text → CsvState
unfolding next_is
csv_step st c s =
    if st.skip
    then record st { skip = false }
    else if st.in_quotes
    then (if eqb c 34
        then (if next_is 34 s
            then record (push_char 34 st) { skip = true }
            else record st { in_quotes = false })
        else push_char c st)
    else if eqb c 34
    then record st { in_quotes = true }
    else if eqb c 44
    then end_field st
    else if eqb c 10 || eqb c 13
    then record (end_row (end_field st)) { skip = eqb c 13 && next_is 10 s }
    else push_char c st

unfoldable pub csv_loop : CsvState → Text → CsvState
unfolding csv_step
csv_loop st [] = st
csv_loop st (c ∷ s) = csv_loop (csv_step st c s) s

abbrev is_empty {ℓ} : {A : Type ℓ} → List A → Bool
is_empty [] = true
is_empty (x ∷ xs) = false

abbrev pub last_rows : CsvState → List (List Text)
last_rows st =
    if is_empty st.field && is_empty st.row
    then st.rows
    else st.rows ++ ((st.row ++ (st.field ∷ [])) ∷ [])

unfoldable pub has_content : List Text → Bool
has_content [] = false
has_content (cell ∷ cells) = not (is_empty (trim cell)) || has_content cells

unfoldable pub with_content : List (List Text) → List (List Text)
unfolding has_content
with_content [] = []
with_content (row ∷ rows) =
    let rest = with_content rows in if has_content row then row ∷ rest else rest

unfoldable pub strip_bom : Text → Text
strip_bom [] = []
strip_bom (c ∷ s) = if eqb c 65279 then s else c ∷ s

abbrev pub csv_start : CsvState
csv_start = record { rows = []; row = []; field = []; in_quotes = false; skip = false }

unfoldable pub parse_csv : Text → List (List Text)
unfolding csv_loop with_content strip_bom
parse_csv text = with_content (last_rows (csv_loop csv_start (strip_bom text)))
