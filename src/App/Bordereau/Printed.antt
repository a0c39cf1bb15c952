-- ===== src/App/Bordereau/Printed.antt =====
-- A CSV text with every cell in quotes is read back by parseCsv of
-- app/src/lib/portfolio/bordereau.ts.
use nextblock.Base.{
  ℕ, Text, eqb, List, [], ◌∷◌, ◌++◌, Bool, true, false, ◌≡◌, refl, map, subst, sym, ap, ◌∙◌,
  if◌then◌else◌, arith, Bool-cases, eqb_iff, inl, inr,
}
use mathlib.Core.List.{append_assoc, append-nil}
use nextblock.App.Bordereau.Csv.{
  CsvState, next_is, csv_step, csv_loop, has_content, with_content, strip_bom, parse_csv,
}

-- A cell with its quotes doubled.
pub escaped : Text → Text
escaped [] = []
escaped (c ∷ s) = if eqb c 34 then 34 ∷ 34 ∷ escaped s else c ∷ escaped s

-- The end of a line, LF or CR LF.
abbrev pub line_end : Bool → Text
line_end crlf = if crlf then 13 ∷ 10 ∷ [] else 10 ∷ []

pub print_row : (crlf : Bool) → List Text → Text → Text
unfolding escaped
print_row crlf [] rest = line_end crlf ++ rest
print_row crlf (cell ∷ []) rest = 34 ∷ (escaped cell ++ (34 ∷ (line_end crlf ++ rest)))
print_row crlf (cell ∷ d ∷ cells) rest =
    34 ∷ (escaped cell ++ (34 ∷ 44 ∷ print_row crlf (d ∷ cells) rest))

pub print_csv : (crlf : Bool) → List (List Text) → Text
unfolding print_row
print_csv crlf [] = []
print_csv crlf (row ∷ rows) = print_row crlf row (print_csv crlf rows)

abbrev at_cell : List (List Text) → List Text → Text → CsvState
at_cell rows row field = record {
  rows = rows;
  row = row;
  field = field;
  in_quotes = true;
  skip = false;
}

abbrev after_cell : List (List Text) → List Text → Text → CsvState
after_cell rows row field = record {
  rows = rows;
  row = row;
  field = field;
  in_quotes = false;
  skip = false;
}

csv_step-plain :
    (rows : List (List Text)) (row : List Text) (field : Text) (c : ℕ) (s : Text)
    → eqb c 34 ≡ false
    → csv_step (at_cell rows row field) c s ≡ at_cell rows row (field ++ (c ∷ []))
unfolding csv_step
csv_step-plain rows row field c s h = ground arith

escaped-plain : (c : ℕ) (cell : Text) → eqb c 34 ≡ false → escaped (c ∷ cell) ≡ c ∷ escaped cell
unfolding escaped
escaped-plain c cell h = ground arith

csv_loop-quote :
    (rows : List (List Text)) (row : List Text) (field cell rest : Text)
    → csv_loop (at_cell rows row field) (escaped (34 ∷ cell) ++ rest)
      ≡ csv_loop (at_cell rows row (field ++ (34 ∷ []))) (escaped cell ++ rest)
unfolding csv_loop csv_step escaped
csv_loop-quote rows row field cell rest = refl

-- A character is read from its print.
csv_loop-char :
    (rows : List (List Text)) (row : List Text) (field : Text) (c : ℕ) (cell rest : Text)
    → csv_loop (at_cell rows row field) (escaped (c ∷ cell) ++ rest)
      ≡ csv_loop (at_cell rows row (field ++ (c ∷ []))) (escaped cell ++ rest)
csv_loop-char rows row field c cell rest = elim (Bool-cases (eqb c 34)) [
  | inl quote ↦
      subst
        (λ k.
          csv_loop (at_cell rows row field) (escaped (k ∷ cell) ++ rest)
          ≡ csv_loop (at_cell rows row (field ++ (k ∷ []))) (escaped cell ++ rest))
        (sym ((eqb_iff c 34).0 quote)) (csv_loop-quote rows row field cell rest)
  | inr plain ↦ rw (escaped-plain c cell plain) (
      unfold csv_loop in
      ap (λ st. csv_loop st (escaped cell ++ rest))
        (csv_step-plain rows row field c (escaped cell ++ rest) plain))
]

-- Inside quotes the doubled quotes are read as one, and the quote that another character follows ends
-- the cell.
csv_loop-escaped :
    (cell : Text) (rows : List (List Text)) (row : List Text) (field rest : Text)
    → next_is 34 rest ≡ false
    → csv_loop (at_cell rows row field) (escaped cell ++ (34 ∷ rest))
      ≡ csv_loop (after_cell rows row (field ++ cell)) rest
csv_loop-escaped [] rows row field rest h =
    rw append-nil (unfold csv_loop csv_step escaped in rw h refl)
csv_loop-escaped (c ∷ cell) rows row field rest h =
    csv_loop-char rows row field c cell (34 ∷ rest)
    ∙ csv_loop-escaped cell rows row (field ++ (c ∷ [])) rest h
    ∙ ap (λ f. csv_loop (after_cell rows row f) rest) (append_assoc field (c ∷ []) cell)

abbrev between_rows : List (List Text) → CsvState
between_rows rows = after_cell rows [] []

-- What a row is read as: a row with no cell gives one empty cell.
abbrev read_as : List Text → List Text
read_as [] = [] ∷ []
read_as (cell ∷ cells) = cell ∷ cells

line_end-next : (crlf : Bool) (rest : Text) → next_is 34 (line_end crlf ++ rest) ≡ false
unfolding next_is
line_end-next true rest = refl
line_end-next false rest = refl

csv_loop-line_end :
    (crlf : Bool) (rows : List (List Text)) (row : List Text) (field rest : Text)
    → csv_loop (after_cell rows row field) (line_end crlf ++ rest)
      ≡ csv_loop (between_rows (rows ++ ((row ++ (field ∷ [])) ∷ []))) rest
unfolding csv_loop csv_step next_is
csv_loop-line_end true rows row field rest = refl
csv_loop-line_end false rows row field rest = refl

csv_loop-open_quote :
    (rows : List (List Text)) (row : List Text) (rest : Text)
    → csv_loop (after_cell rows row []) (34 ∷ rest) ≡ csv_loop (at_cell rows row []) rest
unfolding csv_loop csv_step
csv_loop-open_quote rows row rest = refl

csv_loop-comma :
    (rows : List (List Text)) (row : List Text) (field rest : Text)
    → csv_loop (after_cell rows row field) (44 ∷ rest)
      ≡ csv_loop (after_cell rows (row ++ (field ∷ [])) []) rest
unfolding csv_loop csv_step
csv_loop-comma rows row field rest = refl

comma-next : (rest : Text) → next_is 34 (44 ∷ rest) ≡ false
unfolding next_is
comma-next rest = refl

csv_loop-print_row :
    (crlf : Bool) (cell : Text) (cells : List Text) (rows : List (List Text)) (row : List Text)
    (rest : Text)
    → csv_loop (after_cell rows row []) (print_row crlf (cell ∷ cells) rest)
      ≡ csv_loop (between_rows (rows ++ ((row ++ (cell ∷ cells)) ∷ []))) rest
unfolding print_row
csv_loop-print_row crlf cell [] rows row rest =
    csv_loop-open_quote rows row (escaped cell ++ (34 ∷ (line_end crlf ++ rest)))
    ∙ csv_loop-escaped cell rows row [] (line_end crlf ++ rest) (line_end-next crlf rest)
    ∙ csv_loop-line_end crlf rows row cell rest
csv_loop-print_row crlf cell (d ∷ cells) rows row rest =
    let later = print_row crlf (d ∷ cells) rest in
    csv_loop-open_quote rows row (escaped cell ++ (34 ∷ 44 ∷ later))
    ∙ csv_loop-escaped cell rows row [] (44 ∷ later) (comma-next later)
    ∙ csv_loop-comma rows row cell later
    ∙ csv_loop-print_row crlf d cells rows (row ++ (cell ∷ [])) rest
    ∙ ap (λ r. csv_loop (between_rows (rows ++ (r ∷ []))) rest)
        (append_assoc row (cell ∷ []) (d ∷ cells))

csv_loop-row :
    (crlf : Bool) (row : List Text) (rows : List (List Text)) (rest : Text)
    → csv_loop (between_rows rows) (print_row crlf row rest)
      ≡ csv_loop (between_rows (rows ++ (read_as row ∷ []))) rest
csv_loop-row crlf [] rows rest = unfold print_row in csv_loop-line_end crlf rows [] [] rest
csv_loop-row crlf (cell ∷ cells) rows rest = csv_loop-print_row crlf cell cells rows [] rest

csv_loop-print_csv :
    (crlf : Bool) (table rows : List (List Text))
    → csv_loop (between_rows rows) (print_csv crlf table) ≡ between_rows (rows ++ map read_as table)
unfolding print_csv
csv_loop-print_csv crlf [] rows = unfold csv_loop in rw append-nil refl
csv_loop-print_csv crlf (row ∷ table) rows =
    csv_loop-row crlf row rows (print_csv crlf table)
    ∙ csv_loop-print_csv crlf table (rows ++ (read_as row ∷ []))
    ∙ ap between_rows (append_assoc rows (read_as row ∷ []) (map read_as table))

with_content-read_as :
    (table : List (List Text)) → with_content (map read_as table) ≡ with_content table
unfolding with_content has_content
with_content-read_as [] = refl
with_content-read_as ([] ∷ table) = with_content-read_as table
with_content-read_as ((cell ∷ cells) ∷ table) = ground (arith, with_content-read_as table)

strip_bom-print_csv :
    (crlf : Bool) (table : List (List Text))
    → strip_bom (print_csv crlf table) ≡ print_csv crlf table
unfolding strip_bom print_csv print_row
strip_bom-print_csv crlf [] = refl
strip_bom-print_csv true ([] ∷ table) = refl
strip_bom-print_csv false ([] ∷ table) = refl
strip_bom-print_csv crlf ((cell ∷ []) ∷ table) = refl
strip_bom-print_csv crlf ((cell ∷ d ∷ cells) ∷ table) = refl

-- Any table of cells, whatever commas, quotes and line ends are in them, is read back from its print
-- with every cell in quotes and quotes doubled, with LF or CR LF after each row, but for the rows in
-- which every cell is blank.
pub parse_csv-print_csv :
    (crlf : Bool) (table : List (List Text)) → parse_csv (print_csv crlf table) ≡ with_content table
unfolding parse_csv
parse_csv-print_csv crlf table =
    rw (strip_bom-print_csv crlf table, csv_loop-print_csv crlf table [])
      (with_content-read_as table)
