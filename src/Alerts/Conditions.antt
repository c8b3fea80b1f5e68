-- ===== src/Alerts/Conditions.antt =====
-- orchestration/alerts.py: the health conditions of a freshness report and of the latest runs.
use real_time_blockchain_ana.Prelude.{
  Bool, true, false, ◌&&◌, ◌||◌, Option, none, some, List, [], ◌∷◌, ◌++◌, if◌then◌else◌,
}
use real_time_blockchain_ana.Prelude.Int.{ℤ, pos, max_ℤ}
use real_time_blockchain_ana.Python.Text.{text_lt, Text, text_eq, codes}
use real_time_blockchain_ana.Python.Sort.{sorted}
use real_time_blockchain_ana.Sql.{select_where}
use real_time_blockchain_ana.Freshness.{
  fresh, stale, FreshnessDimension, transformation, FreshnessResult, FreshnessReport, ranking,
  max_by,
}
use real_time_blockchain_ana.Alerts.{
  HealthCondition, AlertReasonCode, source_position_lag, chainlink_feed_age, warehouse_refresh_age,
  mart_refresh_age, pipeline_failure,
}

-- `dict.get` on the entries in insertion order.
unfoldable pub lookup {ℓ} : {A : Type ℓ} → Text → List (Text × A) → Option A
lookup key [] = none
lookup key ((k, a) ∷ entries) =
    let rest = lookup key entries in if text_eq k key then some a else rest

-- `_FRESHNESS_ALERTS`
abbrev pub freshness_alerts : List (Text × (Text × AlertReasonCode))
freshness_alerts =
    (codes "aave_forward_source_position", (codes "freshness:aave_forward", source_position_lag))
    ∷ (
      codes "uniswap_forward_source_position",
      (codes "freshness:uniswap_forward", source_position_lag),
    )
    ∷ (
      codes "chainlink_forward_source_position",
      (codes "freshness:chainlink_global", source_position_lag),
    )
    ∷ (codes "chainlink_eth_usd", (codes "freshness:chainlink_eth_usd", chainlink_feed_age))
    ∷ (codes "chainlink_usdc_usd", (codes "freshness:chainlink_usdc_usd", chainlink_feed_age))
    ∷ (codes "chainlink_usdt_usd", (codes "freshness:chainlink_usdt_usd", chainlink_feed_age))
    ∷ (codes "chainlink_wbtc_usd", (codes "freshness:chainlink_wbtc_usd", chainlink_feed_age))
    ∷ (codes "daily_warehouse_load", (codes "freshness:daily_warehouse", warehouse_refresh_age))
    ∷ []

abbrev pub monitored_pipelines : List Text
monitored_pipelines =
    codes "aave_forward"
    ∷ codes "chainlink_forward"
    ∷ codes "uniswap_forward"
    ∷ codes "daily_warehouse_pipeline"
    ∷ []

-- `_condition`, with the entry that the check has in the table.
abbrev pub condition_of : FreshnessResult → Text × AlertReasonCode → HealthCondition
condition_of result (alert_key, reason_code) = record {
  alert_key = alert_key;
  check_name = result.check_name;
  pipeline_name = result.pipeline_name;
  reason_code = reason_code;
  state = result.state;
  current_value = result.observed_value;
  warning_threshold = result.threshold.warning;
  stale_threshold = result.threshold.stale;
}

abbrev pub listed :
    FreshnessResult → Option (Text × AlertReasonCode) → List HealthCondition → List HealthCondition
listed result none rest = rest
listed result (some entry) rest = condition_of result entry ∷ rest

-- The conditions of the results that block and that the table names.
unfoldable pub listed_conditions : List FreshnessResult → List HealthCondition
listed_conditions [] = []
listed_conditions (result ∷ results) =
    let rest = listed_conditions results in
    if result.blocking then listed result (lookup result.check_name freshness_alerts) rest else rest

abbrev pub is_transformation : FreshnessDimension → Bool
is_transformation transformation = true
is_transformation _ = false

-- `max(result.observed_value for result in marts)`
unfoldable pub largest_value : ℤ → List FreshnessResult → ℤ
largest_value best [] = best
largest_value best (result ∷ results) = largest_value (max_ℤ best result.observed_value) results

abbrev pub mart_conditions : List FreshnessResult → List HealthCondition
mart_conditions [] = []
mart_conditions (first ∷ marts) =
    let worst = max_by (λ result. ranking result.state) first marts in
    record {
      alert_key = codes "freshness:marts";
      check_name = codes "mart_transformations";
      pipeline_name = codes "daily_warehouse_pipeline";
      reason_code = mart_refresh_age;
      state = worst.state;
      current_value = largest_value first.observed_value marts;
      warning_threshold = worst.threshold.warning;
      stale_threshold = worst.threshold.stale;
    }
    ∷ []

unfoldable pub freshness_conditions : FreshnessReport → List HealthCondition
freshness_conditions report =
    sorted (λ a b. text_lt a.alert_key b.alert_key)
      (listed_conditions report.results
        ++ mart_conditions (
            select_where (λ result. result.blocking && is_transformation result.dimension)
              report.results))

abbrev pub failure_condition : Text → Bool → HealthCondition
failure_condition pipeline_name has_failed = record {
  alert_key = codes "pipeline_failure:" ++ pipeline_name;
  check_name = pipeline_name ++ codes "_execution";
  pipeline_name = pipeline_name;
  reason_code = pipeline_failure;
  state = if has_failed then stale else fresh;
  current_value = if has_failed then pos 1 else pos 0;
  warning_threshold = pos 0;
  stale_threshold = pos 1;
}

-- `status not in {"FAILED", "SUCCEEDED", "NO_OP"}`: no condition.
abbrev pub status_condition : Text → Option Text → List HealthCondition
status_condition pipeline_name none = []
status_condition pipeline_name (some status) =
    if text_eq status (codes "FAILED")
    then failure_condition pipeline_name true ∷ []
    else if text_eq status (codes "SUCCEEDED") || text_eq status (codes "NO_OP")
    then failure_condition pipeline_name false ∷ []
    else []

unfoldable pub failure_conditions : List (Text × Text) → List Text → List HealthCondition
failure_conditions statuses [] = []
failure_conditions statuses (pipeline_name ∷ pipelines) =
    status_condition pipeline_name (lookup pipeline_name statuses)
    ++ failure_conditions statuses pipelines

unfoldable pub pipeline_failure_conditions : List (Text × Text) → List HealthCondition
pipeline_failure_conditions statuses = failure_conditions statuses monitored_pipelines
