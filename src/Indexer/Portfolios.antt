-- ===== src/Indexer/Portfolios.antt =====
-- indexer/src/portfolio-registry.ts: the ceded-portfolio lifecycle, as the events report it.
use nextblock.Base.{ℕ, String, Option, none, some}
use nextblock.Base.Int.{pos}
use nextblock.Base.Keys.{number_key}
use nextblock.Base.Table.{Table, load, save}
use nextblock.Indexer.Entities.{
  Portfolio, submitted, in_review, approved, rejected, active, paused, expired,
}
use nextblock.Indexer.Log.{Meta, LogParams, no_params, Feed, log_event}

-- The tables that the file imports.
pub record Store : Type 0 where
  pub portfolios : Table ℕ Portfolio
  pub feed : Feed

pub record Submission : Type 0 where
  pub portfolio_id : ℕ
  pub cedant : ℕ
  pub structure_type : ℕ
  pub coverage_limit : ℕ
  pub ceded_premium : ℕ
  pub inception_time : ℕ
  pub expiry_time : ℕ

abbrev pub new_portfolio : ℕ → Submission → Portfolio
new_portfolio ts e = record {
  cedant = e.cedant;
  structure_type = e.structure_type;
  coverage_limit = e.coverage_limit;
  ceded_premium = e.ceded_premium;
  inception_time = e.inception_time;
  expiry_time = e.expiry_time;
  status = submitted;
  expected_loss_bps = 0;
  reject_reason = none;
  metadata_uri = none;
  document_hash = none;
  vault = none;
  allocated = pos 0;
  premiums_received_gross = 0;
  submitted_at = ts;
  approved_at = none;
  activated_at = none;
  updated_at = ts;
}

-- The row that `mustLoad` makes for a portfolio that was never submitted: all fields are zero.
abbrev blank : ℕ → Submission
blank id = record {
  portfolio_id = id;
  cedant = 0;
  structure_type = 0;
  coverage_limit = 0;
  ceded_premium = 0;
  inception_time = 0;
  expiry_time = 0;
}

abbrev pub must_load : ℕ → ℕ → Option Portfolio → Portfolio
must_load id ts none = new_portfolio ts (blank id)
must_load id ts (some pf) = record pf { updated_at = ts }

-- `const pf = mustLoad(id, ts); …; pf.save();`
pub update : ℕ → ℕ → (Portfolio → Portfolio) → Table ℕ Portfolio → Table ℕ Portfolio
update id ts f t = save id (f (must_load id ts (load id t))) t

log_portfolio : Meta → String → LogParams → Feed → Feed
log_portfolio m name p feed = log_event m "PortfolioRegistry" name p feed

abbrev by_actor : (id actor : ℕ) → LogParams
by_actor id actor = record no_params { portfolio_id = some id; actor = some actor }

pub handle_portfolio_submitted : Meta → Submission → Store → Store
unfolding log_portfolio
handle_portfolio_submitted m e s = record s {
  portfolios = save e.portfolio_id (new_portfolio m.timestamp e) s.portfolios;
  feed =
      log_portfolio m "PortfolioSubmitted"
        (record no_params {
          portfolio_id = some e.portfolio_id;
          actor = some e.cedant;
          amount = some e.coverage_limit;
        })
        s.feed;
}

pub handle_portfolio_review_started : Meta → (id curator : ℕ) → Store → Store
unfolding log_portfolio
handle_portfolio_review_started m id curator s = record s {
  portfolios = update id m.timestamp (λ pf. record pf { status = in_review }) s.portfolios;
  feed = log_portfolio m "PortfolioReviewStarted" (by_actor id curator) s.feed;
}

pub handle_portfolio_approved : Meta → (id curator expected_loss_bps : ℕ) → Store → Store
unfolding log_portfolio
handle_portfolio_approved m id curator expected_loss_bps s = record s {
  portfolios =
      update id m.timestamp
        (λ pf. record pf {
          status = approved;
          expected_loss_bps = expected_loss_bps;
          approved_at = some m.timestamp;
        })
        s.portfolios;
  feed = log_portfolio m "PortfolioApproved" (by_actor id curator) s.feed;
}

pub handle_portfolio_rejected : Meta → (id curator : ℕ) → String → Store → Store
unfolding log_portfolio
handle_portfolio_rejected m id curator reason s = record s {
  portfolios =
      update id m.timestamp (λ pf. record pf { status = rejected; reject_reason = some reason })
        s.portfolios;
  feed = log_portfolio m "PortfolioRejected" (by_actor id curator) s.feed;
}

pub handle_portfolio_activated : Meta → (id curator : ℕ) → Store → Store
unfolding log_portfolio
handle_portfolio_activated m id curator s = record s {
  portfolios =
      update id m.timestamp (λ pf. record pf { status = active; activated_at = some m.timestamp })
        s.portfolios;
  feed = log_portfolio m "PortfolioActivated" (by_actor id curator) s.feed;
}

pub handle_portfolio_paused : Meta → (id sentinel : ℕ) → Store → Store
unfolding log_portfolio
handle_portfolio_paused m id sentinel s = record s {
  portfolios = update id m.timestamp (λ pf. record pf { status = paused }) s.portfolios;
  feed = log_portfolio m "PortfolioPaused" (by_actor id sentinel) s.feed;
}

pub handle_portfolio_unpaused : Meta → (id sentinel : ℕ) → Store → Store
unfolding log_portfolio
handle_portfolio_unpaused m id sentinel s = record s {
  portfolios = update id m.timestamp (λ pf. record pf { status = active }) s.portfolios;
  feed = log_portfolio m "PortfolioUnpaused" (by_actor id sentinel) s.feed;
}

pub handle_portfolio_expired : Meta → (id : ℕ) → Store → Store
unfolding log_portfolio
handle_portfolio_expired m id s = record s {
  portfolios = update id m.timestamp (λ pf. record pf { status = expired }) s.portfolios;
  feed = log_portfolio m "PortfolioExpired" (record no_params { portfolio_id = some id }) s.feed;
}

pub handle_portfolio_metadata_updated : Meta → (id document_hash : ℕ) → String → Store → Store
unfolding log_portfolio
handle_portfolio_metadata_updated m id document_hash uri s = record s {
  portfolios =
      update id m.timestamp
        (λ pf. record pf { metadata_uri = some uri; document_hash = some document_hash })
        s.portfolios;
  feed =
      log_portfolio m "PortfolioMetadataUpdated" (record no_params { portfolio_id = some id })
        s.feed;
}

pub data Event : Type 0 where
  portfolio_submitted : Submission → Event
  portfolio_review_started : (id curator : ℕ) → Event
  portfolio_approved : (id curator expected_loss_bps : ℕ) → Event
  portfolio_rejected : (id curator : ℕ) → String → Event
  portfolio_activated : (id curator : ℕ) → Event
  portfolio_paused portfolio_unpaused : (id sentinel : ℕ) → Event
  portfolio_expired : (id : ℕ) → Event
  portfolio_metadata_updated : (id document_hash : ℕ) → String → Event

unfoldable pub handle : Meta → Event → Store → Store
unfolding handle_portfolio_submitted handle_portfolio_review_started handle_portfolio_approved
    handle_portfolio_rejected handle_portfolio_activated handle_portfolio_paused
    handle_portfolio_unpaused handle_portfolio_expired handle_portfolio_metadata_updated
handle m (portfolio_submitted e) s = handle_portfolio_submitted m e s
handle m (portfolio_review_started id curator) s = handle_portfolio_review_started m id curator s
handle m (portfolio_approved id curator loss) s = handle_portfolio_approved m id curator loss s
handle m (portfolio_rejected id curator reason) s = handle_portfolio_rejected m id curator reason s
handle m (portfolio_activated id curator) s = handle_portfolio_activated m id curator s
handle m (portfolio_paused id sentinel) s = handle_portfolio_paused m id sentinel s
handle m (portfolio_unpaused id sentinel) s = handle_portfolio_unpaused m id sentinel s
handle m (portfolio_expired id) s = handle_portfolio_expired m id s
handle m (portfolio_metadata_updated id hash uri) s =
    handle_portfolio_metadata_updated m id hash uri s
