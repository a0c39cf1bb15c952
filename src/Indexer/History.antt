-- ===== src/Indexer/History.antt =====
-- Histories of events: the log indexes of a chain are distinct, so each row id is new to its table.
use nextblock.Base.{◌≡◌, ◌≢◌, refl, none, List, [], ◌∷◌, arith, All}
use nextblock.Base.Table.{Table, load, save, load-save}
use nextblock.Indexer.Log.{Meta, RowId, row_key, same_RowId_iff, event_id}

module _ {ℓ} {E : Type ℓ} where
  -- No two events of a history share transaction hash and log index.
  abbrev pub HasDistinctIds : List (Meta × E) → Type ℓ
  HasDistinctIds [] = Unit
  HasDistinctIds (x ∷ xs) = All (λ y. event_id x.0 ≢ event_id y.0) xs × HasDistinctIds xs

module _ {ℓ κ} {E : Type ℓ} {V : Type κ} where
  -- The table holds no row under the id of a coming event.
  abbrev pub IsUnseen : Table RowId V → List (Meta × E) → Type κ
  IsUnseen t es = All (λ x. load (event_id x.0) t ≡ none) es

  pub IsUnseen-save :
      (m : Meta) (v : V) (t : Table RowId V) (es : List (Meta × E))
      → All (λ y. event_id m ≢ event_id y.0) es
      → IsUnseen t es
      → IsUnseen (save (event_id m) v t) es
  IsUnseen-save m v t [] d u = tt
  IsUnseen-save m v t (x ∷ es) d u = (
    ground (
      arith,
      load-save (event_id x.0) (event_id m) v t,
      same_RowId_iff (event_id m) (event_id x.0),
      d.0,
      u.0,
    ),
    IsUnseen-save m v t es d.1 u.1,
  )

pub IsUnseen-empty {ℓ κ} : {E : Type ℓ} (V : Type κ) (es : List (Meta × E)) → IsUnseen {V = V} [] es
unfolding load
IsUnseen-empty V [] = tt
IsUnseen-empty V (x ∷ es) = (refl, IsUnseen-empty V es)
