-- ===== src/App/Bordereau/FirstDates.antt =====
-- The first and the last date, in the order of texts, in a column of
-- app/src/lib/portfolio/bordereau.ts.
use nextblock.Base.{
  ℕ, Text, text_leb, text_leb_refl, text_leb-total, text_leb_trans, List, [], ◌∷◌, Option, none,
  some, Bool, true, ◌≡◌, refl, ◌⊎◌, inl, inr, arith, Option-cases, Bool-cases, sym, ap, subst, All,
}
use nextblock.Base.TextOrder.{text_ltb}
use nextblock.App.Bordereau.{cell, parse_bordereau_date}
use nextblock.App.Bordereau.Cells.{BordereauDate}
use nextblock.App.Bordereau.Summary.{earlier, later, Dates, date_step, date_loop, or_empty}

-- The dates in a column.
abbrev iso_of : Option BordereauDate → List Text → List Text
iso_of none dates = dates
iso_of (some d) dates = d.iso ∷ dates

pub dates_in : Option ℕ → List (List Text) → List Text
dates_in none rows = []
dates_in (some i) [] = []
dates_in (some i) (row ∷ rows) =
    iso_of (parse_bordereau_date (cell row (some i))) (dates_in (some i) rows)

abbrev pub IsAmong : Text → List Text → Type 0
IsAmong d [] = ⊥
IsAmong d (e ∷ dates) = (e ≡ d) ⊎ IsAmong d dates

-- The empty text where there is no date, and otherwise one of them that comes first in the order.
abbrev pub IsFirst : (Text → Text → Bool) → Text → List Text → Type 0
IsFirst le t [] = t ≡ []
IsFirst le t (d ∷ dates) = IsAmong t (d ∷ dates) × All (λ e. le t e ≡ true) (d ∷ dates)

abbrev pub not_before : Text → Text → Bool
not_before t e = text_leb e t

fold_better : (Option Text → Text → Text) → Text → List Text → Text
fold_better better m [] = m
fold_better better m (d ∷ dates) = fold_better better (better (some m) d) dates

pub best_among : (Option Text → Text → Text) → Option Text → List Text → Option Text
unfolding fold_better
best_among better best [] = best
best_among better best (d ∷ dates) = some (fold_better better (better best d) dates)

best_among-cons :
    (better : Option Text → Text → Text) (best : Option Text) (d : Text) (dates : List Text)
    → best_among better best (d ∷ dates) ≡ best_among better (some (better best d)) dates
unfolding best_among
best_among-cons better best d [] = refl
best_among-cons better best d (e ∷ dates) = refl

pub date_loop-best :
    (better : Option Text → Text → Text) (col : Option ℕ) (rows : List (List Text)) (dates : Dates)
    → (date_loop better col rows dates).best ≡ best_among better dates.best (dates_in col rows)
unfolding date_loop dates_in
date_loop-best better none [] dates = unfold best_among in refl
date_loop-best better none (row ∷ rows) dates = date_loop-best better none rows dates
date_loop-best better (some i) [] dates = unfold best_among in refl
date_loop-best better (some i) (row ∷ rows) dates =
    let ih = date_loop-best better (some i) rows (date_step better (some i) row dates) in
    elim (Option-cases (parse_bordereau_date (cell row (some i)))) [
      | inl e ↦ ground (arith, ih)
      | inr (d, e) ↦
          ground (arith, ih, best_among-cons better dates.best d.iso (dates_in (some i) rows))
    ]

module _ (better : Option Text → Text → Text) (le : Text → Text → Bool)
    (le_refl : (t : Text) → le t t ≡ true)
    (le_trans : (t u v : Text) → le t u ≡ true → le u v ≡ true → le t v ≡ true)
    (picks : (m d : Text)
      → ((better (some m) d ≡ d) × (le d m ≡ true)) ⊎ ((better (some m) d ≡ m) × (le m d ≡ true)))
    (takes_first : (d : Text) → better none d ≡ d) where
  -- The fold gives its start or one of the dates, and none of these comes before it.
  abbrev Folded : Text → Text → List Text → Type 0
  Folded r m dates = ((r ≡ m) ⊎ IsAmong r dates) × (le r m ≡ true) × All (λ e. le r e ≡ true) dates

  fold_better-Folded : (m : Text) (dates : List Text) → Folded (fold_better better m dates) m dates
  unfolding fold_better
  fold_better-Folded m [] = (inl refl, le_refl m, tt)
  fold_better-Folded m (d ∷ dates) = elim (picks m d) [
    | inl (e, d_first) ↦
        let (among, below, all_below) = fold_better-Folded d dates in
        subst (λ r. Folded r m (d ∷ dates)) (ap (λ k. fold_better better k dates) (sym e))
          (
            inr (elim among [ inl is_d ↦ inl (sym is_d) | inr later_one ↦ inr later_one ]),
            le_trans _ d m below d_first,
            (below, all_below),
          )
    | inr (e, m_first) ↦
        let (among, below, all_below) = fold_better-Folded m dates in
        subst (λ r. Folded r m (d ∷ dates)) (ap (λ k. fold_better better k dates) (sym e))
          (
            elim among [ inl is_m ↦ inl is_m | inr later_one ↦ inr (inr later_one) ],
            below,
            (le_trans _ m d below m_first, all_below),
          )
  ]

  best_among-IsFirst :
      (dates : List Text) → IsFirst le (or_empty (best_among better none dates)) dates
  unfolding best_among
  best_among-IsFirst [] = refl
  best_among-IsFirst (d ∷ dates) =
      let (among, below, all_below) = fold_better-Folded d dates in
      subst (λ r. IsFirst le r (d ∷ dates))
        (ap (λ k. fold_better better k dates) (sym (takes_first d)))
        (
          elim among [ inl is_d ↦ inl (sym is_d) | inr later_one ↦ inr later_one ],
          (below, all_below),
        )

earlier_picks :
    (m d : Text)
    → ((earlier (some m) d ≡ d) × (text_leb d m ≡ true))
      ⊎ ((earlier (some m) d ≡ m) × (text_leb m d ≡ true))
unfolding text_ltb
earlier_picks m d = elim (Bool-cases (text_leb m d)) [
  | inl e ↦ inr (ground arith)
  | inr e ↦ inl (ground (arith, text_leb-total m d e))
]

later_picks :
    (m d : Text)
    → ((later (some m) d ≡ d) × (not_before d m ≡ true))
      ⊎ ((later (some m) d ≡ m) × (not_before m d ≡ true))
unfolding text_ltb
later_picks m d = elim (Bool-cases (text_leb d m)) [
  | inl e ↦ inr (ground arith)
  | inr e ↦ inl (ground (arith, text_leb-total d m e))
]

pub earliest_lem :
    (dates : List Text) → IsFirst text_leb (or_empty (best_among earlier none dates)) dates
earliest_lem =
    best_among-IsFirst earlier text_leb text_leb_refl text_leb_trans earlier_picks (λ d. refl)

pub latest_lem :
    (dates : List Text) → IsFirst not_before (or_empty (best_among later none dates)) dates
latest_lem =
    best_among-IsFirst later not_before text_leb_refl (λ t u v h k. text_leb_trans v u t k h)
      later_picks (λ d. refl)
