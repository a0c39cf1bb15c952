-- ===== src/Indexer/Claims/Machine.antt =====
-- The state machine of one claim under indexer/src/claim-manager.ts, without a store, beside the table.
use nextblock.Base.{
  ℕ, ◌≡◌, refl, Bool, true, false, Option, none, some, List, [], ◌∷◌, arith, eqb, inl, inr,
  Option-cases, if◌then◌else◌,
}
use nextblock.Base.Keys.{number_key}
use nextblock.Base.Table.{Table, load, load-save}
use nextblock.Indexer.Entities.{
  Claim, ClaimStatus, submitted, assessed, disputed, frozen, approved, rejected, paid,
}
use nextblock.Indexer.Log.{Meta}
use nextblock.Indexer.Claims.{
  Store, Event, claim_submitted, claim_assessed, claim_anomaly_flagged, claim_disputed,
  claim_dispute_resolved, claim_frozen, claim_unfrozen, claim_approved, claim_rejected, claim_paid,
  update, new_claim, handle,
}

-- The claim that an event is about.
abbrev pub subject : Event → ℕ
subject (claim_submitted e) = e.claim_id
subject (claim_assessed id recommendation score anomaly) = id
subject (claim_anomaly_flagged id anomaly) = id
subject (claim_disputed id sentinel reason) = id
subject (claim_dispute_resolved id committee upheld) = id
subject (claim_frozen id sentinel) = id
subject (claim_unfrozen id sentinel) = id
subject (claim_approved id committee amount receipt) = id
subject (claim_rejected id committee reason) = id
subject (claim_paid id to amount receipt) = id

-- The status that an event puts its claim in, if it puts it in one.
abbrev pub target : Event → Option ClaimStatus
target (claim_submitted e) = some submitted
target (claim_assessed id recommendation score anomaly) = some assessed
target (claim_anomaly_flagged id anomaly) = none
target (claim_disputed id sentinel reason) = some disputed
target (claim_dispute_resolved id committee upheld) = some (if upheld then rejected else assessed)
target (claim_frozen id sentinel) = some frozen
target (claim_unfrozen id sentinel) = some assessed
target (claim_approved id committee amount receipt) = some approved
target (claim_rejected id committee reason) = some rejected
target (claim_paid id to amount receipt) = some paid

abbrev pub opens : Event → Bool
opens (claim_submitted e) = true
opens _ = false

abbrev pub overwrite : ClaimStatus → Option ClaimStatus → Option ClaimStatus
overwrite st none = none
overwrite st (some old) = some st

-- One move of the machine: only a submission leaves the unknown state, and an event with no target
-- changes nothing.
abbrev pub move : Bool → Option ClaimStatus → Option ClaimStatus → Option ClaimStatus
move opening none now = now
move true (some st) now = some st
move false (some st) now = overwrite st now

-- The status of claim `j` after a history.
unfoldable pub status_after : ℕ → List (Meta × Event) → Option ClaimStatus → Option ClaimStatus
status_after j [] now = now
status_after j ((m, e) ∷ es) now =
    status_after j es (if eqb (subject e) j then move (opens e) (target e) now else now)

abbrev pub status_in : Option Claim → Option ClaimStatus
status_in none = none
status_in (some c) = some c.status

unfoldable pub status_of : ℕ → Store → Option ClaimStatus
status_of j s = status_in (load j s.claims)

module _ (j id ts : ℕ) (f : Claim → Claim) (t : Table ℕ Claim) where
  status-update :
      (st : ClaimStatus)
      → ((c : Claim) → (f c).status ≡ st)
      → status_in (load j (update id ts f t))
        ≡ (if eqb id j then overwrite st (status_in (load j t)) else status_in (load j t))
  unfolding update
  status-update st h = elim (Option-cases (load id t)) [
    | inl e ↦ rw e (ground arith)
    | inr (c, e) ↦ rw e (
        ground (
          arith,
          load-save j id (f (record c { updated_at = ts })) t,
          h (record c { updated_at = ts }),
        ))
  ]

  status-keep :
      ((c : Claim) → (f c).status ≡ c.status)
      → status_in (load j (update id ts f t))
        ≡ (if eqb id j then status_in (load j t) else status_in (load j t))
  unfolding update
  status-keep h = elim (Option-cases (load id t)) [
    | inl e ↦ rw e (ground arith)
    | inr (c, e) ↦ rw e (
        ground (
          arith,
          load-save j id (f (record c { updated_at = ts })) t,
          h (record c { updated_at = ts }),
        ))
  ]

pub handle-move :
    (m : Meta) (e : Event) (j : ℕ) (s : Store)
    → status_of j (handle m e s)
      ≡ (if eqb (subject e) j then move (opens e) (target e) (status_of j s) else status_of j s)
unfolding handle status_of
handle-move m (claim_submitted e) j s =
    ground (arith, load-save j e.claim_id (new_claim m.timestamp e) s.claims)
handle-move m (claim_assessed id recommendation score anomaly) j s =
    status-update j id m.timestamp _ s.claims assessed (λ c. refl)
handle-move m (claim_anomaly_flagged id anomaly) j s =
    status-keep j id m.timestamp _ s.claims (λ c. refl)
handle-move m (claim_disputed id sentinel reason) j s =
    status-update j id m.timestamp _ s.claims disputed (λ c. refl)
handle-move m (claim_dispute_resolved id committee upheld) j s =
    status-update j id m.timestamp _ s.claims (if upheld then rejected else assessed) (λ c. refl)
handle-move m (claim_frozen id sentinel) j s =
    status-update j id m.timestamp _ s.claims frozen (λ c. refl)
handle-move m (claim_unfrozen id sentinel) j s =
    status-update j id m.timestamp _ s.claims assessed (λ c. refl)
handle-move m (claim_approved id committee amount receipt) j s =
    status-update j id m.timestamp _ s.claims approved (λ c. refl)
handle-move m (claim_rejected id committee reason) j s =
    status-update j id m.timestamp _ s.claims rejected (λ c. refl)
handle-move m (claim_paid id to amount receipt) j s =
    status-update j id m.timestamp _ s.claims paid (λ c. refl)
