-- ===== src/Freshness/Report.antt =====
-- orchestration/freshness.py: `build_freshness_report` and the platform's thresholds.
pub mod Overall
mod Tests
use real_time_blockchain_ana.Prelude.{
  Bool, true, false, List, [], ◌∷◌, ◌++◌, map, value_error, key_error, Result, ok, err, ◌>>=◌,
  if◌then◌else◌, ◌==◌,
}
use real_time_blockchain_ana.Prelude.Int.{ℤ, pos}
use real_time_blockchain_ana.Python.Text.{Text, codes, text_eq, text_lt, lower}
use real_time_blockchain_ana.Python.Time.{Instant, DateTime, aware}
use real_time_blockchain_ana.Python.Sort.{sorted}
use real_time_blockchain_ana.Freshness.{
  FreshnessThreshold, source_position, event_time, FreshnessDimension, FreshnessResult,
  FreshnessReport, evaluate_value, position_lag, age_seconds,
}

abbrev pub blocks : ℤ → ℤ → FreshnessThreshold
blocks warning_at stale_at = record {
  warning = warning_at;
  stale = stale_at;
  unit = codes "blocks";
}

abbrev pub seconds : ℤ → ℤ → FreshnessThreshold
seconds warning_at stale_at = record {
  warning = warning_at;
  stale = stale_at;
  unit = codes "seconds";
}

abbrev pub chainlink_position_threshold : FreshnessThreshold
chainlink_position_threshold = blocks (pos 10000) (pos 50000)

abbrev pub event_activity_threshold : FreshnessThreshold
event_activity_threshold = seconds (pos 86400) (pos 259200)

abbrev pub warehouse_refresh_threshold : FreshnessThreshold
warehouse_refresh_threshold = seconds (pos 93600) (pos 180000)

-- `source_thresholds[pipeline_name]`
unfoldable pub source_threshold : Text → Result FreshnessThreshold
source_threshold pipeline_name =
    if text_eq pipeline_name (codes "aave_forward")
    then ok (blocks (pos 50000) (pos 250000))
    else if text_eq pipeline_name (codes "uniswap_forward")
    then ok (blocks (pos 50000) (pos 250000))
    else err key_error

-- `CHAINLINK_FEED_THRESHOLDS.get(feed_name)`, and the raise where it is None.
unfoldable pub feed_threshold : Text → Result FreshnessThreshold
feed_threshold feed_name =
    if text_eq feed_name (codes "ETH/USD")
    then ok (seconds (pos 900) (pos 3600))
    else if text_eq feed_name (codes "WBTC/USD")
    then ok (seconds (pos 1800) (pos 7200))
    else if text_eq feed_name (codes "USDC/USD")
    then ok (seconds (pos 900) (pos 3600))
    else if text_eq feed_name (codes "USDT/USD")
    then ok (seconds (pos 900) (pos 3600))
    else err value_error

pub record SourceFreshnessSnapshot : Type 0 where
  pub pipeline_name : Text
  pub source_head : ℤ
  pub safe_head : ℤ
  pub committed_position : ℤ
  pub latest_event_at : DateTime

pub record FeedFreshnessSnapshot : Type 0 where
  pub feed_name : Text
  pub feed_address : Text
  pub committed_round_id : ℤ
  pub source_round_id : ℤ
  pub latest_feed_updated_at : DateTime

module _ (now : Instant) where
  -- The two results of a source.
  unfoldable pub source_results : SourceFreshnessSnapshot → Result (List FreshnessResult)
  source_results source = do
    lag ← position_lag source.safe_head source.committed_position
    threshold ← source_threshold source.pipeline_name
    covered ←
        evaluate_value (source.pipeline_name ++ codes "_source_position") source.pipeline_name
          source_position lag threshold now (codes "Eligible confirmed blocks not yet committed")
          true
    age ← age_seconds source.latest_event_at (aware now)
    active ←
        evaluate_value (source.pipeline_name ++ codes "_event_activity") source.pipeline_name
          event_time age event_activity_threshold now
          (codes
            "Age of the latest retained business event; informational and independent of source coverage")
          false
    ok (covered ∷ active ∷ [])

  -- `f"chainlink_{feed_name.lower().replace('/', '_')}"`
  abbrev pub feed_check : Text → Text
  feed_check feed_name =
      codes "chainlink_" ++ map (λ c. if c == 47 then 95 else c) (lower feed_name)

  unfoldable pub feed_results : List FeedFreshnessSnapshot → Result (List FreshnessResult)
  feed_results [] = ok []
  feed_results (feed ∷ feeds) = do
    threshold ← feed_threshold feed.feed_name
    age ← age_seconds feed.latest_feed_updated_at (aware now)
    here ←
        evaluate_value (feed_check feed.feed_name) (codes "chainlink_forward")
          FreshnessDimension.feed age threshold now
          (codes "Age of the feed's latest canonical effective observation") true
    rest ← feed_results feeds
    ok (here ∷ rest)

  -- The two results of each mart, in the order of their names.
  unfoldable pub mart_results : ℤ → List (Text × DateTime) → Result (List FreshnessResult)
  mart_results refresh_age [] = ok []
  mart_results refresh_age ((mart_name, represented_at) ∷ marts) = do
    age ← age_seconds represented_at (aware now)
    built ←
        evaluate_value (mart_name ++ codes "_transformation") (codes "daily_warehouse_pipeline")
          FreshnessDimension.transformation refresh_age warehouse_refresh_threshold now
          (codes "MART transformation age from the successful warehouse run") true
    shown ←
        evaluate_value (mart_name ++ codes "_represented_data") (codes "daily_warehouse_pipeline")
          FreshnessDimension.represented_data age event_activity_threshold now
          (codes
            "Age of the latest business time represented by the MART; informational and independent of transformation freshness")
          false
    rest ← mart_results refresh_age marts
    ok (built ∷ shown ∷ rest)

abbrev pub mart_lt : (Text × DateTime) → (Text × DateTime) → Bool
mart_lt a b = text_lt a.0 b.0

-- `checked_at` is an aware time. The positions that go into `details` alone are left out.
unfoldable pub build_freshness_report :
    Instant
    → SourceFreshnessSnapshot
    → SourceFreshnessSnapshot
    → ℤ
    → ℤ
    → List FeedFreshnessSnapshot
    → DateTime
    → List (Text × DateTime)
    → Result FreshnessReport
build_freshness_report now aave uniswap chainlink_safe_head chainlink_committed_position
      chainlink_feeds warehouse_refreshed_at mart_represented_times =
    do
      first ← source_results now aave
      second ← source_results now uniswap
      lag ← position_lag chainlink_safe_head chainlink_committed_position
      chainlink ←
          evaluate_value (codes "chainlink_forward_source_position") (codes "chainlink_forward")
            source_position lag chainlink_position_threshold now
            (codes "Eligible confirmed blocks not yet committed globally") true
      feeds ← feed_results now chainlink_feeds
      refresh_age ← age_seconds warehouse_refreshed_at (aware now)
      load ←
          evaluate_value (codes "daily_warehouse_load") (codes "daily_warehouse_pipeline")
            FreshnessDimension.load refresh_age warehouse_refresh_threshold now
            (codes "Age of the latest successful daily warehouse run") true
      marts ← mart_results now refresh_age (sorted mart_lt mart_represented_times)
      ok (record {
        checked_at = now;
        results = first ++ second ++ chainlink ∷ (feeds ++ load ∷ marts);
      })
