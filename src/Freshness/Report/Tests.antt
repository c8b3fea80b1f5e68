-- ===== src/Freshness/Report/Tests.antt =====
-- A run of the freshness report, a hundred seconds after all refreshes.
use real_time_blockchain_ana.Prelude.{
  ◌≤◌, ◌≡◌, refl, Bool, true, false, [], ◌∷◌, ok, err, key_error, ℕ_discrete,
}
use real_time_blockchain_ana.Prelude.Int.{ℤ, pos, ◌-ℤ◌, max_ℤ}
use real_time_blockchain_ana.Prelude.Lists.{All, Any}
use real_time_blockchain_ana.Python.Text.{Text, codes, strip, Text-discrete}
use real_time_blockchain_ana.Python.Time.{Instant, aware}
use real_time_blockchain_ana.Python.Sort.{sorted}
use real_time_blockchain_ana.Freshness.{
  FreshnessState, fresh, FreshnessThreshold, FreshnessDimension, source_position, event_time,
  FreshnessResult, FreshnessReport, classify, freshness_result, evaluate_value, position_lag,
  age_seconds, float_seconds, binade, ranking, overall_state,
}
use real_time_blockchain_ana.Freshness.Report.{
  blocks, SourceFreshnessSnapshot, source_threshold, source_results, feed_results, mart_results,
  chainlink_position_threshold, event_activity_threshold, warehouse_refresh_threshold,
  build_freshness_report,
}
use real_time_blockchain_ana.Freshness.Report.Overall.{
  Classified, build_freshness_report-Classified,
}

abbrev now : Instant
now = 200000000000

abbrev snapshot : Text → SourceFreshnessSnapshot
snapshot name = record {
  pipeline_name = name;
  source_head = pos 120;
  safe_head = pos 100;
  committed_position = pos 90;
  latest_event_at = aware 199900000000;
}

abbrev fresh_result :
    Text → Text → FreshnessDimension → ℤ → FreshnessThreshold → Text → Bool → FreshnessResult
fresh_result name pipeline dimension value threshold reason blocking = record {
  check_name = name;
  pipeline_name = pipeline;
  dimension = dimension;
  state = fresh;
  observed_value = value;
  threshold = threshold;
  checked_at = aware now;
  reason = reason;
  blocking = blocking;
}

abbrev lag_reason : Text
lag_reason = codes "Eligible confirmed blocks not yet committed"

abbrev activity_reason : Text
activity_reason =
    codes
      "Age of the latest retained business event; informational and independent of source coverage"

abbrev report : FreshnessReport
report = record {
  checked_at = now;
  results =
      fresh_result (codes "aave_forward_source_position") (codes "aave_forward") source_position
        (pos 10) (blocks (pos 50000) (pos 250000)) lag_reason true
      ∷ fresh_result (codes "aave_forward_event_activity") (codes "aave_forward") event_time
          (pos 100) event_activity_threshold activity_reason false
      ∷ fresh_result (codes "uniswap_forward_source_position") (codes "uniswap_forward")
          source_position (pos 10) (blocks (pos 50000) (pos 250000)) lag_reason true
      ∷ fresh_result (codes "uniswap_forward_event_activity") (codes "uniswap_forward") event_time
          (pos 100) event_activity_threshold activity_reason false
      ∷ fresh_result (codes "chainlink_forward_source_position") (codes "chainlink_forward")
          source_position (pos 5) chainlink_position_threshold
          (codes "Eligible confirmed blocks not yet committed globally") true
      ∷ fresh_result (codes "daily_warehouse_load") (codes "daily_warehouse_pipeline")
          FreshnessDimension.load (pos 100) warehouse_refresh_threshold
          (codes "Age of the latest successful daily warehouse run") true
      ∷ [];
}

builds :
    build_freshness_report now
      (snapshot (codes "aave_forward"))
      (snapshot (codes "uniswap_forward"))
      (pos 100)
      (pos 95)
      []
      (aware 199900000000)
      []
    ≡ ok report
unfolding build_freshness_report source_results source_threshold feed_results mart_results
    evaluate_value freshness_result classify position_lag age_seconds float_seconds binade sorted
    max_ℤ ◌-ℤ◌ strip Text-discrete ℕ_discrete
builds = refl

build_freshness_report-Classified_example :
    All (Classified now) report.results
    × ((s : FreshnessState) × (overall_state report ≡ ok s)
        × Any (λ r. (r.blocking ≡ true) × (s ≡ r.state)) report.results
        × All (λ r. r.blocking ≡ true → ranking r.state ≤ ranking s) report.results)
build_freshness_report-Classified_example =
    build_freshness_report-Classified now (snapshot (codes "aave_forward"))
      (snapshot (codes "uniswap_forward")) (pos 100) (pos 95) [] (aware 199900000000) [] report
      builds

-- A pipeline without a policy.
refuses_unknown :
    build_freshness_report now
      (snapshot (codes "other"))
      (snapshot (codes "uniswap_forward"))
      (pos 100)
      (pos 95)
      []
      (aware 199900000000)
      []
    ≡ err key_error
unfolding build_freshness_report source_results source_threshold position_lag max_ℤ ◌-ℤ◌
    Text-discrete ℕ_discrete
refuses_unknown = refl
