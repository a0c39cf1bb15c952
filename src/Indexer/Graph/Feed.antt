-- ===== src/Indexer/Graph/Feed.antt =====
-- The activity feed of indexer/src/helpers.ts: which events leave a row, over the whole store.
use nextblock.Base.{
  ℕ, ◌+◌, ◌≡◌, ◌≢◌, refl, Bool, true, false, none, some, List, [], ◌∷◌, arith, All, sum_of, sym,
  if◌then◌else◌, ◌∙◌, inl, inr, Bool-cases,
}
use nextblock.Base.Table.{load, total, total-save, load-save}
use nextblock.Indexer.Log.{Meta, row_key, same_RowId_iff, event_id, Feed, ProtocolEvent}
use nextblock.Indexer.History.{HasDistinctIds, IsUnseen, IsUnseen-empty}
use nextblock.Indexer.Graph.{Db, Event, step, run, empty}
use nextblock.Indexer.Graph.Logging.{IsRowOf, logs, step-Logs, step-silent, load-step, load-run}

-- What the feed holds under an event's id: its row, or nothing for a RedemptionQueue event.
abbrev Holds : Meta → Feed → Bool → Type 0
Holds m feed true = (r : ProtocolEvent) × IsRowOf m r × (load (event_id m) feed ≡ some r)
Holds m feed false = load (event_id m) feed ≡ none

abbrev pub IsLogged : Feed → Meta × Event → Type 0
IsLogged feed x = Holds x.0 feed (logs x.1)

step-Holds :
    (m : Meta) (e : Event) (db : Db) (b : Bool)
    → logs e ≡ b
    → load (event_id m) db.feed ≡ none
    → Holds m (step m e db).feed b
step-Holds m e db true h new =
    let (r, row, eq) = step-Logs m e db h in
    (
      r,
      row,
      rw eq (
          ground (
            arith,
            load-save (event_id m) (event_id m) r db.feed,
            same_RowId_iff (event_id m) (event_id m),
          )),
    )
step-Holds m e db false h new = rw (step-silent m e db h) new

later-Holds :
    (m : Meta) (before after : Feed) (b : Bool)
    → load (event_id m) after ≡ load (event_id m) before
    → Holds m before b
    → Holds m after b
later-Holds m before after true eq (r, row, found) = (r, row, eq ∙ found)
later-Holds m before after false eq h = eq ∙ h

-- A later event's id stays unseen.
step-IsUnseen :
    (m : Meta) (e : Event) (db : Db) (es : List (Meta × Event))
    → All (λ y. event_id m ≢ event_id y.0) es
    → IsUnseen db.feed es
    → IsUnseen (step m e db).feed es
step-IsUnseen m e db [] d u = tt
step-IsUnseen m e db (x ∷ es) d u =
    (load-step x.0 m e db (λ q. d.0 (sym q)) ∙ u.0, step-IsUnseen m e db es d.1 u.1)

run-IsLogged :
    (es : List (Meta × Event)) (db : Db)
    → HasDistinctIds es
    → IsUnseen db.feed es
    → All (IsLogged (run es db).feed) es
unfolding run
run-IsLogged [] db d u = tt
run-IsLogged ((m, e) ∷ es) db d u = (
  later-Holds m (step m e db).feed (run es (step m e db)).feed (logs e)
      (load-run m es (step m e db) d.0) (step-Holds m e db (logs e) refl u.0),
  run-IsLogged es (step m e db) d.1 (step-IsUnseen m e db es d.0 u.1),
)

abbrev pub row_count : Feed → ℕ
row_count feed = total (λ r. 1) feed

abbrev pub logged : Meta × Event → ℕ
logged x = if logs x.1 then 1 else 0

step-row_count :
    (m : Meta) (e : Event) (db : Db)
    → load (event_id m) db.feed ≡ none
    → row_count (step m e db).feed ≡ row_count db.feed + logged (m, e)
step-row_count m e db new = elim (Bool-cases (logs e)) [
  | inl h ↦
      let (r, _, eq) = step-Logs m e db h in
      rw eq (ground (arith, h, total-save (λ (r : ProtocolEvent). 1) (event_id m) r db.feed))
  | inr h ↦ rw (step-silent m e db h) (ground (arith, h))
]

run-row_count :
    (es : List (Meta × Event)) (db : Db)
    → HasDistinctIds es
    → IsUnseen db.feed es
    → row_count (run es db).feed ≡ row_count db.feed + sum_of logged es
unfolding run
run-row_count [] db d u = omega arith
run-row_count ((m, e) ∷ es) db d u = omega (
  arith,
  run-row_count es (step m e db) d.1 (step-IsUnseen m e db es d.0 u.1),
  step-row_count m e db u.0,
)

-- After a history of events with distinct ids from the empty store, the feed has under the id of each
-- event, but those of the RedemptionQueue, a row with the event's time, block and transaction, has no
-- row under the id of a RedemptionQueue event, and has as many rows as there are other events.
pub run-empty-IsLogged :
    (es : List (Meta × Event))
    → HasDistinctIds es
    → All (IsLogged (run es empty).feed) es × (row_count (run es empty).feed ≡ sum_of logged es)
run-empty-IsLogged es d = (
  run-IsLogged es empty d (IsUnseen-empty ProtocolEvent es),
  omega (arith, run-row_count es empty d (IsUnseen-empty ProtocolEvent es)),
)
