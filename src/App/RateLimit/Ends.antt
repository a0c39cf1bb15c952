-- ===== src/App/RateLimit/Ends.antt =====
-- When the windows of app/src/lib/rate-limit.ts end, whatever is swept or saved.
use nextblock.Base.{
  ℕ, ◌≤◌, ◌≡◌, refl, subst, arith, Text, [], ◌∷◌, none, some, true, false, text_key, text_eqb,
  text_eqb_iff, All, Bool-cases, inl, inr,
}
use nextblock.Base.Table.{load, save, load-save}
use nextblock.App.RateLimit.{WindowEntry, Windows, without_expired, sweep}

-- One row for a key.
abbrev pub IsDistinct : Windows → Type 0
IsDistinct [] = Unit
IsDistinct ((j, entry) ∷ windows) = (load j windows ≡ none) × IsDistinct windows

-- Every window of the key ends by `t`.
abbrev pub EndsBy : (k : Text) (t : ℕ) → Windows → Type 0
EndsBy k t = All λ row. (text_eqb row.0 k ≡ true → row.1.reset_at ≤ t)

none-EndsBy : (k : Text) (t : ℕ) (windows : Windows) → load k windows ≡ none → EndsBy k t windows
unfolding load
none-EndsBy k t [] e = tt
none-EndsBy k t ((j, w) ∷ windows) e = elim (Bool-cases (text_eqb j k)) [
  | inl same ↦ ground arith
  | inr other ↦ ((λ h. ground arith), none-EndsBy k t windows (rw other at e))
]

pub IsDistinct-EndsBy :
    (k : Text) (entry : WindowEntry) (windows : Windows)
    → IsDistinct windows
    → load k windows ≡ some entry
    → EndsBy k entry.reset_at windows
unfolding load
IsDistinct-EndsBy k entry [] d e = tt
IsDistinct-EndsBy k entry ((j, w) ∷ windows) d e = elim (Bool-cases (text_eqb j k)) [
  | inl same ↦ (
    (λ h. ground arith),
    none-EndsBy k entry.reset_at windows
        (subst (λ i. load i windows ≡ none) ((text_eqb_iff j k).0 same) d.0),
  )
  | inr other ↦ ((λ h. ground arith), IsDistinct-EndsBy k entry windows d.1 (rw other at e))
]

load-without_expired-none :
    (now : ℕ) (k : Text) (windows : Windows)
    → load k windows ≡ none
    → load k (without_expired now windows) ≡ none
unfolding load without_expired
load-without_expired-none now k [] e = refl
load-without_expired-none now k ((j, w) ∷ windows) e =
    ground (arith, load-without_expired-none now k windows)

without_expired-IsDistinct :
    (now : ℕ) (windows : Windows) → IsDistinct windows → IsDistinct (without_expired now windows)
unfolding without_expired
without_expired-IsDistinct now [] d = tt
without_expired-IsDistinct now ((j, w) ∷ windows) d =
    ground (arith, load-without_expired-none now j windows, without_expired-IsDistinct now windows)

pub save-IsDistinct :
    (k : Text) (entry : WindowEntry) (windows : Windows)
    → IsDistinct windows
    → IsDistinct (save k entry windows)
unfolding save load
save-IsDistinct k entry [] d = (refl, tt)
save-IsDistinct k entry ((j, w) ∷ windows) d = ground (
  arith,
  load-save j k entry windows,
  text_eqb_iff k j,
  text_eqb_iff j k,
  save-IsDistinct k entry windows,
)

without_expired-EndsBy :
    (now : ℕ) (k : Text) (t : ℕ) (windows : Windows)
    → EndsBy k t windows
    → EndsBy k t (without_expired now windows)
unfolding without_expired
without_expired-EndsBy now k t [] h = tt
without_expired-EndsBy now k t ((j, w) ∷ windows) h =
    ground (arith, without_expired-EndsBy now k t windows)

pub save-EndsBy :
    (j k : Text) (t : ℕ) (entry : WindowEntry) (windows : Windows)
    → text_eqb j k ≡ false
    → EndsBy k t windows
    → EndsBy k t (save j entry windows)
unfolding save
save-EndsBy j k t entry [] e h = ((λ same. ground arith), tt)
save-EndsBy j k t entry ((i, w) ∷ windows) e h =
    ground (
      arith,
      text_eqb_iff i j,
      text_eqb_iff i k,
      text_eqb_iff j k,
      save-EndsBy j k t entry windows e,
    )

pub EndsBy-load :
    (k : Text) (t : ℕ) (windows : Windows) (entry : WindowEntry)
    → EndsBy k t windows
    → load k windows ≡ some entry
    → entry.reset_at ≤ t
unfolding load
EndsBy-load k t [] entry h e = ground arith
EndsBy-load k t ((j, w) ∷ windows) entry h e = ground (arith, EndsBy-load k t windows entry)

pub sweep-IsDistinct :
    (now : ℕ) (windows : Windows) → IsDistinct windows → IsDistinct (sweep now windows)
unfolding sweep
sweep-IsDistinct now windows d = ground (arith, without_expired-IsDistinct now windows d)

pub sweep-EndsBy :
    (now : ℕ) (k : Text) (t : ℕ) (windows : Windows)
    → EndsBy k t windows
    → EndsBy k t (sweep now windows)
unfolding sweep
sweep-EndsBy now k t windows h = ground (arith, without_expired-EndsBy now k t windows h)
