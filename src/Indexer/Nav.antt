-- ===== src/Indexer/Nav.antt =====
-- indexer/src/nav-oracle.ts: per-vault NAV feeds, the NAV series and the risk publications.
use nextblock.Base.{ℕ, String, Bool, true, false, Option, none, some, List, [], ◌∷◌}
use nextblock.Base.Keys.{number_key}
use nextblock.Base.Table.{Table, load, save}
use nextblock.Indexer.Log.{
  Meta, RowId, row_key, event_id, LogParams, no_params, Feed, log_event, incr_i32,
}

pub record NavFeed : Type 0 where
  pub last_nav : ℕ
  pub last_confidence_bps : ℕ
  pub last_source_hash : ℕ
  pub published_at : ℕ
  pub paused : Bool
  pub anomaly_count : ℕ
  pub point_count : ℕ

pub record NavPoint : Type 0 where
  pub vault : ℕ
  pub nav : ℕ
  pub confidence_bps : ℕ
  pub source_hash : ℕ
  pub timestamp : ℕ
  pub block_number : ℕ

pub record PortfolioRiskPoint : Type 0 where
  pub portfolio_id : ℕ
  pub risk_score_bps : ℕ
  pub confidence_bps : ℕ
  pub source_hash : ℕ
  pub timestamp : ℕ

pub record Store : Type 0 where
  pub feeds : Table ℕ NavFeed
  pub points : Table RowId NavPoint
  pub risks : Table RowId PortfolioRiskPoint
  pub feed : Feed

-- `Bytes.empty()` is 0.
abbrev pub feed_of : ℕ → Option NavFeed → NavFeed
feed_of ts none = record {
  last_nav = 0;
  last_confidence_bps = 0;
  last_source_hash = 0;
  published_at = ts;
  paused = false;
  anomaly_count = 0;
  point_count = 0;
}
feed_of ts (some f) = record f { published_at = ts }

-- `const f = feedOf(vault, ts); …; f.save();`
pub update : ℕ → ℕ → (NavFeed → NavFeed) → Table ℕ NavFeed → Table ℕ NavFeed
update vault ts f t = save vault (f (feed_of ts (load vault t))) t

log_nav : Meta → String → LogParams → Feed → Feed
log_nav m name p feed = log_event m "NavOracle" name p feed

abbrev pub publish : (nav confidence_bps source_hash : ℕ) → NavFeed → NavFeed
publish nav confidence_bps source_hash f = record f {
  last_nav = nav;
  last_confidence_bps = confidence_bps;
  last_source_hash = source_hash;
  point_count = incr_i32 f.point_count;
}

abbrev pub point_row : Meta → (vault nav confidence_bps source_hash : ℕ) → NavPoint
point_row m vault nav confidence_bps source_hash = record {
  vault = vault;
  nav = nav;
  confidence_bps = confidence_bps;
  source_hash = source_hash;
  timestamp = m.timestamp;
  block_number = m.block_number;
}

pub handle_nav_published : Meta → (vault nav confidence_bps source_hash : ℕ) → Store → Store
unfolding log_nav
handle_nav_published m vault nav confidence_bps source_hash s = record s {
  feeds = update vault m.timestamp (publish nav confidence_bps source_hash) s.feeds;
  points = save (event_id m) (point_row m vault nav confidence_bps source_hash) s.points;
  feed =
      log_nav m "NavPublished" (record no_params { vault = some vault; amount = some nav }) s.feed;
}

pub handle_nav_anomaly_detected : Meta → (vault attempted_nav : ℕ) → Store → Store
unfolding log_nav
handle_nav_anomaly_detected m vault attempted_nav s = record s {
  feeds =
      update vault m.timestamp (λ f. record f { anomaly_count = incr_i32 f.anomaly_count }) s.feeds;
  feed =
      log_nav m "NavAnomalyDetected"
        (record no_params { vault = some vault; amount = some attempted_nav }) s.feed;
}

pub handle_portfolio_risk_published :
    Meta → (portfolio risk_score_bps confidence_bps source_hash : ℕ) → Store → Store
unfolding log_nav
handle_portfolio_risk_published m portfolio risk_score_bps confidence_bps source_hash s = record s {
  risks =
      save (event_id m)
        (record {
          portfolio_id = portfolio;
          risk_score_bps = risk_score_bps;
          confidence_bps = confidence_bps;
          source_hash = source_hash;
          timestamp = m.timestamp;
        })
        s.risks;
  feed =
      log_nav m "PortfolioRiskPublished" (record no_params { portfolio_id = some portfolio })
        s.feed;
}

pub handle_feed_paused : Meta → (vault by : ℕ) → Store → Store
unfolding log_nav
handle_feed_paused m vault by s = record s {
  feeds = update vault m.timestamp (λ f. record f { paused = true }) s.feeds;
  feed = log_nav m "FeedPaused" (record no_params { vault = some vault; actor = some by }) s.feed;
}

pub handle_feed_unpaused : Meta → (vault by : ℕ) → Store → Store
unfolding log_nav
handle_feed_unpaused m vault by s = record s {
  feeds = update vault m.timestamp (λ f. record f { paused = false }) s.feeds;
  feed = log_nav m "FeedUnpaused" (record no_params { vault = some vault; actor = some by }) s.feed;
}

pub data Event : Type 0 where
  nav_published : (vault nav confidence_bps source_hash : ℕ) → Event
  nav_anomaly_detected : (vault attempted_nav : ℕ) → Event
  portfolio_risk_published : (portfolio risk_score_bps confidence_bps source_hash : ℕ) → Event
  feed_paused feed_unpaused : (vault by : ℕ) → Event

unfoldable pub handle : Meta → Event → Store → Store
unfolding handle_nav_published handle_nav_anomaly_detected handle_portfolio_risk_published
    handle_feed_paused handle_feed_unpaused
handle m (nav_published vault nav confidence hash) s =
    handle_nav_published m vault nav confidence hash s
handle m (nav_anomaly_detected vault nav) s = handle_nav_anomaly_detected m vault nav s
handle m (portfolio_risk_published portfolio score confidence hash) s =
    handle_portfolio_risk_published m portfolio score confidence hash s
handle m (feed_paused vault by) s = handle_feed_paused m vault by s
handle m (feed_unpaused vault by) s = handle_feed_unpaused m vault by s

-- The NavOracle events of one chain, in their order.
unfoldable pub run : List (Meta × Event) → Store → Store
run [] s = s
run ((m, e) ∷ es) s = run es (handle m e s)
