-- ===== src/Indexer/Graph/Interleaving.antt =====
-- The tables of indexer/src/redemption-queue.ts under the dispatch of indexer/subgraph.yaml.
use nextblock.Base.{◌≡◌, refl, sym, subst, List, [], ◌∷◌}
use nextblock.Indexer.Log.{Meta}
use nextblock.Indexer.Redemption
use nextblock.Indexer.Redemption.Conservation.{IsConserved, run-empty-IsConserved}
use nextblock.Indexer.Graph.{Db, Event, redemption, vault_created, step, run, empty}

abbrev redemption_events : List (Meta × Event) → List (Meta × Redemption.Event)
redemption_events [] = []
redemption_events ((m, redemption e) ∷ es) = (m, e) ∷ redemption_events es
redemption_events ((m, _) ∷ es) = redemption_events es

-- The exit history after a history of the whole chain is the one after its RedemptionQueue events.
pub redemption-run :
    (es : List (Meta × Event)) (db : Db)
    → (run es db).redemption ≡ Redemption.run (redemption_events es) db.redemption
unfolding run step Redemption.run
redemption-run [] db = refl
redemption-run ((m, redemption e) ∷ es) db = redemption-run es (step m (redemption e) db)
redemption-run ((m, vault_created e) ∷ es) db = redemption-run es (step m (vault_created e) db)
redemption-run ((m, e) ∷ es) db = redemption-run es (step m e db)

-- Over the whole chain, from the empty store, the redemption rollup reconciles with its rows.
pub run-empty-IsConserved_redemption :
    (es : List (Meta × Event)) → IsConserved (run es empty).redemption
run-empty-IsConserved_redemption es =
    subst IsConserved (sym (redemption-run es empty)) (run-empty-IsConserved (redemption_events es))
