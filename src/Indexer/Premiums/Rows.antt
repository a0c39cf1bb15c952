-- ===== src/Indexer/Premiums/Rows.antt =====
-- The gross premium of indexer/src/premium-distributor.ts against the immutable flows.
use nextblock.Base.{
  ℕ, ◌+◌, ◌≡◌, none, some, Option, List, [], ◌∷◌, arith, eqb, eqb_iff, if◌then◌else◌, Bool, true,
  false, ◌&&◌, Option-cases, inl, inr,
}
use nextblock.Base.Keys.{number_key}
use nextblock.Base.Table.{Table, load, total, total-save, load-save}
use nextblock.Indexer.Entities.{Portfolio}
use nextblock.Indexer.Log.{Meta, RowId, row_key, event_id}
use nextblock.Indexer.History.{HasDistinctIds, IsUnseen, IsUnseen-save}
use nextblock.Indexer.Premiums.{
  FlowKind, received, allocated, protocol_fee, underwriting_fee, PremiumFlow, Store, flow_row, flow,
  update, Event, premium_received, premium_allocated, protocol_fee_accrued,
  underwriting_fee_accrued, portfolio_vault_set, add_gross, set_vault, handle, run,
}

abbrev is_received : FlowKind → Bool
is_received received = true
is_received _ = false

abbrev pub received_by : ℕ → PremiumFlow → ℕ
received_by p f = if eqb f.portfolio_id p && is_received f.kind then f.amount else 0

-- The gross premium of every portfolio is the sum of the flows received for it.
abbrev pub HasGross : Store → Type 0
HasGross s =
    (p : ℕ) (pf : Portfolio)
    → load p s.portfolios ≡ some pf
    → pf.premiums_received_gross ≡ total (received_by p) s.flows

flow-total :
    (m : Meta) (p portfolio : ℕ) (kind : FlowKind) (counterparty : Option ℕ) (amount : ℕ)
    (t : Table RowId PremiumFlow)
    → load (event_id m) t ≡ none
    → total (received_by p) (flow m portfolio kind counterparty amount t)
      ≡ total (received_by p) t + received_by p (flow_row m portfolio kind counterparty amount)
unfolding flow
flow-total m p portfolio kind counterparty amount t new = ground (
  arith,
  total-save (received_by p) (event_id m) (flow_row m portfolio kind counterparty amount) t,
)

load-update :
    (p id : ℕ) (f : Portfolio → Portfolio) (t : Table ℕ Portfolio)
    → load p (update id f t)
      ≡ (if eqb id p then elim (load p t) [ none ↦ none | some pf ↦ some (f pf) ] else load p t)
unfolding update
load-update p id f t = elim (Option-cases (load id t)) [
  | inl e ↦ ground (arith, eqb_iff id p)
  | inr (pf, e) ↦ ground (arith, eqb_iff id p, load-save p id (f pf) t)
]

handle-HasGross :
    (m : Meta) (e : Event) (s : Store)
    → load (event_id m) s.flows ≡ none
    → HasGross s
    → HasGross (handle m e s)
unfolding handle
handle-HasGross m (premium_received portfolio from gross) s new r p pf h =
    let kept = load-update p portfolio (add_gross m gross) s.portfolios in
    elim (Option-cases (load p s.portfolios)) [
      | inl e ↦ ground (arith, kept)
      | inr (old, e) ↦
          ground (
            arith,
            kept,
            r p old e,
            flow-total m p portfolio received (some from) gross s.flows new,
          )
    ]
handle-HasGross m (premium_allocated portfolio vault quota) s new r p pf h =
    ground (arith, r p pf h, flow-total m p portfolio allocated (some vault) quota s.flows new)
handle-HasGross m (protocol_fee_accrued portfolio amount) s new r p pf h =
    ground (arith, r p pf h, flow-total m p portfolio protocol_fee none amount s.flows new)
handle-HasGross m (underwriting_fee_accrued portfolio amount) s new r p pf h =
    ground (arith, r p pf h, flow-total m p portfolio underwriting_fee none amount s.flows new)
handle-HasGross m (Event.protocol_fees_claimed recipient amount) s new r p pf h = ground (
  arith,
  r p pf h,
  flow-total m p 0 FlowKind.protocol_fees_claimed (some recipient) amount s.flows new,
)
handle-HasGross m (Event.underwriting_fees_claimed recipient amount) s new r p pf h = ground (
  arith,
  r p pf h,
  flow-total m p 0 FlowKind.underwriting_fees_claimed (some recipient) amount s.flows new,
)
handle-HasGross m (portfolio_vault_set portfolio vault) s new r p pf h =
    let kept = load-update p portfolio (set_vault m vault) s.portfolios in
    elim (Option-cases (load p s.portfolios)) [
      | inl e ↦ ground (arith, kept)
      | inr (old, e) ↦ ground (arith, kept, r p old e)
    ]

handle-IsUnseen :
    (m : Meta) (e : Event) (s : Store) (events : List (Meta × Event))
    → HasDistinctIds ((m, e) ∷ events)
    → IsUnseen s.flows events
    → IsUnseen (handle m e s).flows events
unfolding handle flow
handle-IsUnseen m (premium_received portfolio from gross) s events d u =
    IsUnseen-save m _ s.flows events d.0 u
handle-IsUnseen m (premium_allocated portfolio vault quota) s events d u =
    IsUnseen-save m _ s.flows events d.0 u
handle-IsUnseen m (protocol_fee_accrued portfolio amount) s events d u =
    IsUnseen-save m _ s.flows events d.0 u
handle-IsUnseen m (underwriting_fee_accrued portfolio amount) s events d u =
    IsUnseen-save m _ s.flows events d.0 u
handle-IsUnseen m (Event.protocol_fees_claimed recipient amount) s events d u =
    IsUnseen-save m _ s.flows events d.0 u
handle-IsUnseen m (Event.underwriting_fees_claimed recipient amount) s events d u =
    IsUnseen-save m _ s.flows events d.0 u
handle-IsUnseen m (portfolio_vault_set portfolio vault) s events d u = u

-- Through a history of premium events with distinct ids, whose flows are not there yet, the gross
-- premium of every portfolio stays the sum of the flows received for it.
pub run-HasGross :
    (events : List (Meta × Event)) (s : Store)
    → HasDistinctIds events
    → IsUnseen s.flows events
    → HasGross s
    → HasGross (run events s)
unfolding run
run-HasGross [] s d u r = r
run-HasGross ((m, e) ∷ events) s d u r =
    run-HasGross events (handle m e s) d.1 (handle-IsUnseen m e s events d u.1)
      (handle-HasGross m e s u.0 r)
