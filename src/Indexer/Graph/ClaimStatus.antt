-- ===== src/Indexer/Graph/ClaimStatus.antt =====
-- The status of a claim over the whole chain of indexer/subgraph.yaml: indexer/src/claim-manager.ts
-- and indexer/src/insurance-vault.ts write one table.
use nextblock.Base.{ℕ, ◌≡◌, refl, ◌∙◌, ap, List, [], ◌∷◌, arith, eqb_iff, Option-cases, inl, inr}
use nextblock.Base.Int.{ℤ}
use nextblock.Base.Keys.{number_key}
use nextblock.Base.Table.{Table, load, load-save}
use nextblock.Indexer.Entities.{Claim}
use nextblock.Indexer.Log.{Meta}
use nextblock.Indexer.Claims
use nextblock.Indexer.Claims.Machine.{status_in, status_of, status_after, handle-move}
use nextblock.Indexer.Vaults
use nextblock.Indexer.Vaults.{update_reserved}
use nextblock.Indexer.Graph.{Db, Event, claim, vault, vault_created, step, run}

-- The events of the ClaimManager in a history.
abbrev pub claim_events : List (Meta × Event) → List (Meta × Claims.Event)
claim_events [] = []
claim_events ((m, claim e) ∷ es) = (m, e) ∷ claim_events es
claim_events ((m, _) ∷ es) = claim_events es

update_reserved-keeps :
    (j id ts : ℕ) (f : ℤ → ℤ) (t : Table ℕ Claim)
    → status_in (load j (update_reserved id ts f t)) ≡ status_in (load j t)
unfolding update_reserved
update_reserved-keeps j id ts f t = elim (Option-cases (load id t)) [
  | inl e ↦ ground arith
  | inr (c, e) ↦ ground (
    arith,
    eqb_iff id j,
    load-save j id (record c { reserved = f c.reserved; updated_at = ts }) t,
  )
]

vault-keeps :
    (m : Meta) (e : Vaults.Event) (j : ℕ) (s : Vaults.Store)
    → status_in (load j (Vaults.handle m e s).claims) ≡ status_in (load j s.claims)
unfolding Vaults.handle
vault-keeps m (Vaults.portfolio_claim_reserved portfolio id amount) j s =
    update_reserved-keeps j id m.timestamp _ s.claims
vault-keeps m (Vaults.portfolio_claim_reserve_released portfolio id amount) j s =
    update_reserved-keeps j id m.timestamp _ s.claims
vault-keeps m (Vaults.portfolio_claim_paid portfolio id to amount) j s =
    update_reserved-keeps j id m.timestamp _ s.claims
vault-keeps m e j s = refl

-- After any history of the whole chain on any store, the status held for a claim is the one that a
-- machine of that claim alone reaches on the ClaimManager events of the history.
pub status-run :
    (j : ℕ) (es : List (Meta × Event)) (db : Db)
    → status_in (load j (run es db).claims)
      ≡ status_after j (claim_events es) (status_in (load j db.claims))
unfolding run step status_of status_after
status-run j [] db = refl
status-run j ((m, claim e) ∷ es) db =
    status-run j es (step m (claim e) db)
    ∙ ap (status_after j (claim_events es))
        (handle-move m e j (record { claims = db.claims; feed = db.feed }))
status-run j ((m, vault e) ∷ es) db =
    status-run j es (step m (vault e) db)
    ∙ ap (status_after j (claim_events es)) (
        vault-keeps m e j (record {
          vaults = db.vaults;
          deposits = db.deposits;
          withdrawals = db.withdrawals;
          portfolios = db.portfolios;
          claims = db.claims;
          feed = db.feed;
        }))
status-run j ((m, vault_created e) ∷ es) db = status-run j es (step m (vault_created e) db)
status-run j ((m, e) ∷ es) db = status-run j es (step m e db)
