-- ===== src/Indexer/Claims/Records.antt =====
-- The rows of the claims table of indexer/src/claim-manager.ts.
use nextblock.Base.{ℕ, ◌≡◌, ◌≢◌, false, none, List, [], ◌∷◌, arith, inl, inr, Option-cases}
use nextblock.Base.Keys.{number_key}
use nextblock.Base.Table.{Table, load, AllRows, AllRows-save, AllRows-load}
use nextblock.Indexer.Entities.{Claim, submitted, disputed, approved, paid}
use nextblock.Indexer.Log.{Meta}
use nextblock.Indexer.Claims.{
  Store, Event, claim_submitted, claim_assessed, claim_anomaly_flagged, claim_disputed,
  claim_dispute_resolved, claim_frozen, claim_unfrozen, claim_approved, claim_rejected, claim_paid,
  update, new_claim, handle, run,
}

-- A paid claim carries the amount, the payee and the receipt; an approved one the amount and the
-- receipt; a disputed one the reason; a submitted one no assessment, decision or payment.
pub record IsRecorded (c : Claim) : Type 0 where
  pub payment :
      c.status ≡ paid → (c.paid_amount ≢ none) × (c.paid_to ≢ none) × (c.receipt_id ≢ none)
  pub approval : c.status ≡ approved → (c.approved_amount ≢ none) × (c.receipt_id ≢ none)
  pub reason : c.status ≡ disputed → c.dispute_reason ≢ none
  pub untouched :
      c.status ≡ submitted
      → (c.recommendation ≡ 0)
        × (c.score_bps ≡ 0)
        × (c.approved_amount ≡ none)
        × (c.paid_amount ≡ none)
        × (c.dispute_upheld ≡ false)

AllRows-update :
    (P : Claim → Type 0) (id ts : ℕ) (f : Claim → Claim) (t : Table ℕ Claim)
    → ((c : Claim) → P c → P (f (record c { updated_at = ts })))
    → AllRows P t
    → AllRows P (update id ts f t)
unfolding update
AllRows-update P id ts f t keep h = elim (Option-cases (load id t)) [
  | inl e ↦ rw e h
  | inr (c, e) ↦ rw e (AllRows-save P id _ t h (keep c (AllRows-load P id t h e)))
]

handle-IsRecorded :
    (m : Meta) (e : Event) (s : Store)
    → AllRows IsRecorded s.claims
    → AllRows IsRecorded (handle m e s).claims
unfolding handle
handle-IsRecorded m (claim_submitted e) s h =
    AllRows-save IsRecorded e.claim_id (new_claim m.timestamp e) s.claims h (ground arith)
handle-IsRecorded m (claim_dispute_resolved id committee upheld) s h =
    AllRows-update IsRecorded id m.timestamp _ s.claims (λ c r. ground arith) h
handle-IsRecorded m (claim_anomaly_flagged id anomaly) s h =
    AllRows-update IsRecorded id m.timestamp _ s.claims (λ c r. ground arith) h
handle-IsRecorded m (claim_assessed id recommendation score anomaly) s h =
    AllRows-update IsRecorded id m.timestamp _ s.claims (λ c r. ground arith) h
handle-IsRecorded m (claim_disputed id sentinel reason) s h =
    AllRows-update IsRecorded id m.timestamp _ s.claims (λ c r. ground arith) h
handle-IsRecorded m (claim_frozen id sentinel) s h =
    AllRows-update IsRecorded id m.timestamp _ s.claims (λ c r. ground arith) h
handle-IsRecorded m (claim_unfrozen id sentinel) s h =
    AllRows-update IsRecorded id m.timestamp _ s.claims (λ c r. ground arith) h
handle-IsRecorded m (claim_approved id committee amount receipt) s h =
    AllRows-update IsRecorded id m.timestamp _ s.claims (λ c r. ground arith) h
handle-IsRecorded m (claim_rejected id committee reason) s h =
    AllRows-update IsRecorded id m.timestamp _ s.claims (λ c r. ground arith) h
handle-IsRecorded m (claim_paid id to amount receipt) s h =
    AllRows-update IsRecorded id m.timestamp _ s.claims (λ c r. ground arith) h

-- If every claim row is recorded as its status asks, then every row is so after any sequence of
-- ClaimManager events.
pub run-IsRecorded :
    (es : List (Meta × Event)) (s : Store)
    → AllRows IsRecorded s.claims
    → AllRows IsRecorded (run es s).claims
unfolding run
run-IsRecorded [] s h = h
run-IsRecorded ((m, e) ∷ es) s h = run-IsRecorded es (handle m e s) (handle-IsRecorded m e s h)
