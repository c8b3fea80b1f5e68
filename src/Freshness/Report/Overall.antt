-- ===== src/Freshness/Report/Overall.antt =====
-- The results of a report that `build_freshness_report` returns.
use real_time_blockchain_ana.Prelude.{
  ◌≤◌, ◌≡◌, refl, inl, inr, Bool, true, false, List, [], ◌∷◌, ◌++◌, value_error, raise_if, ◌||◌, ok,
  bind-eq-ok, ok-injective, subst,
}
use real_time_blockchain_ana.Prelude.Int.{ℤ, pos, ltb_ℤ}
use real_time_blockchain_ana.Prelude.Lists.{All, Any, All-append, Any-append_right}
use real_time_blockchain_ana.Python.Text.{Text, strip, is_empty}
use real_time_blockchain_ana.Python.Time.{Instant, DateTime, aware, as_utc}
use real_time_blockchain_ana.Python.Sort.{sorted}
use real_time_blockchain_ana.Freshness.{
  FreshnessThreshold, FreshnessState, ranking, source_position, event_time, FreshnessDimension,
  FreshnessResult, FreshnessReport, classify, freshness_result, evaluate_value, position_lag,
  age_seconds, overall_state,
}
use real_time_blockchain_ana.Freshness.Rules.{overall_state-worst}
use real_time_blockchain_ana.Freshness.Report.{
  SourceFreshnessSnapshot, FeedFreshnessSnapshot, source_threshold, feed_threshold,
  chainlink_position_threshold, event_activity_threshold, warehouse_refresh_threshold,
  source_results, feed_results, mart_lt, mart_results, build_freshness_report,
}

-- The dimensions that a report's overall state depends on.
abbrev pub blocks_on : FreshnessDimension → Bool
blocks_on FreshnessDimension.event_time = false
blocks_on FreshnessDimension.represented_data = false
blocks_on _ = true

-- The state is the one that the value has by the threshold, at the time of the report, and informs
-- alone exactly where it is about retained or represented business data.
abbrev pub Classified : Instant → FreshnessResult → Type 0
Classified now r =
    (classify r.observed_value r.threshold ≡ ok r.state)
    × (r.checked_at ≡ aware now)
    × (r.blocking ≡ blocks_on r.dimension)

freshness_result-same : (x r : FreshnessResult) → freshness_result x ≡ ok r → x ≡ r
unfolding freshness_result
freshness_result-same x r h =
    let (_, _, h1) =
      bind-eq-ok
        (raise_if (is_empty (strip x.check_name) || is_empty (strip x.pipeline_name)) value_error) _
        h in
    let (_, _, h2) = bind-eq-ok (raise_if (ltb_ℤ x.observed_value (pos 0)) value_error) _ h1 in
    let (_, _, h3) = bind-eq-ok (as_utc x.checked_at) _ h2 in
    let (_, _, h4) = bind-eq-ok (raise_if (is_empty (strip x.reason)) value_error) _ h3 in
    ok-injective h4

evaluate_value-Classified :
    (name pipeline : Text) (dimension : FreshnessDimension) (value : ℤ)
    (threshold : FreshnessThreshold) (now : Instant) (reason : Text) (blocking : Bool)
    (r : FreshnessResult)
    → blocking ≡ blocks_on dimension
    → evaluate_value name pipeline dimension value threshold now reason blocking ≡ ok r
    → Classified now r × (r.blocking ≡ blocking)
unfolding evaluate_value
evaluate_value-Classified name pipeline dimension value threshold now reason blocking r b h =
    let (state, e1, h1) = bind-eq-ok (classify value threshold) _ h in
    subst (λ x. Classified now x × (x.blocking ≡ blocking)) (freshness_result-same _ r h1)
      ((e1, refl, b), refl)

source_results-Classified :
    (now : Instant) (source : SourceFreshnessSnapshot) (rs : List FreshnessResult)
    → source_results now source ≡ ok rs
    → All (Classified now) rs
unfolding source_results
source_results-Classified now source rs h =
    let (lag, _, h1) = bind-eq-ok (position_lag source.safe_head source.committed_position) _ h in
    let (threshold, _, h2) = bind-eq-ok (source_threshold source.pipeline_name) _ h1 in
    let (covered, e3, h3) =
      bind-eq-ok (evaluate_value _ _ source_position lag threshold now _ true) _ h2 in
    let (age, _, h4) = bind-eq-ok (age_seconds source.latest_event_at (aware now)) _ h3 in
    let (active, e5, h5) =
      bind-eq-ok (evaluate_value _ _ event_time age event_activity_threshold now _ false) _ h4 in
    subst (All (Classified now)) (ok-injective h5) (
      (evaluate_value-Classified _ _ source_position lag threshold now _ true covered refl e3).0,
      (
        (evaluate_value-Classified _ _ event_time age event_activity_threshold now _ false active
            refl e5).0,
        tt,
      ),
    )

feed_results-Classified :
    (now : Instant) (feeds : List FeedFreshnessSnapshot) (rs : List FreshnessResult)
    → feed_results now feeds ≡ ok rs
    → All (Classified now) rs
unfolding feed_results
feed_results-Classified now [] rs h = subst (All (Classified now)) (ok-injective h) tt
feed_results-Classified now (f ∷ feeds) rs h =
    let (threshold, _, h1) = bind-eq-ok (feed_threshold f.feed_name) _ h in
    let (age, _, h2) = bind-eq-ok (age_seconds f.latest_feed_updated_at (aware now)) _ h1 in
    let (here, e3, h3) =
      bind-eq-ok (evaluate_value _ _ FreshnessDimension.feed age threshold now _ true) _ h2 in
    let (rest, e4, h4) = bind-eq-ok (feed_results now feeds) _ h3 in
    subst (All (Classified now)) (ok-injective h4) (
      (evaluate_value-Classified _ _ FreshnessDimension.feed age threshold now _ true here refl
          e3).0,
      feed_results-Classified now feeds rest e4,
    )

mart_results-Classified :
    (now : Instant) (refresh_age : ℤ) (marts : List (Text × DateTime)) (rs : List FreshnessResult)
    → mart_results now refresh_age marts ≡ ok rs
    → All (Classified now) rs
unfolding mart_results
mart_results-Classified now refresh_age [] rs h = subst (All (Classified now)) (ok-injective h) tt
mart_results-Classified now refresh_age ((name, shown_at) ∷ marts) rs h =
    let (age, _, h1) = bind-eq-ok (age_seconds shown_at (aware now)) _ h in
    let (built, e2, h2) =
      bind-eq-ok
        (evaluate_value _ _ FreshnessDimension.transformation refresh_age
          warehouse_refresh_threshold now _ true)
        _ h1 in
    let (shown, e3, h3) =
      bind-eq-ok
        (evaluate_value _ _ FreshnessDimension.represented_data age event_activity_threshold now _
          false)
        _ h2 in
    let (rest, e4, h4) = bind-eq-ok (mart_results now refresh_age marts) _ h3 in
    subst (All (Classified now)) (ok-injective h4) (
      (evaluate_value-Classified _ _ FreshnessDimension.transformation refresh_age
          warehouse_refresh_threshold now _ true built refl e2).0,
      (
        (evaluate_value-Classified _ _ FreshnessDimension.represented_data age
            event_activity_threshold now _ false shown refl e3).0,
        mart_results-Classified now refresh_age marts rest e4,
      ),
    )

no-blocking :
    (rs : List FreshnessResult)
    → Any (λ r. r.blocking ≡ true) rs
    → All (λ r. r.blocking ≡ true → ⊥) rs
    → ⊥
no-blocking [] a h = a
no-blocking (r ∷ rs) (inl e) (n, h) = n e
no-blocking (r ∷ rs) (inr a) (n, h) = no-blocking rs a h

has-overall :
    (report : FreshnessReport)
    → Any (λ r. r.blocking ≡ true) report.results
    → (s : FreshnessState) × (overall_state report ≡ ok s)
      × Any (λ r. (r.blocking ≡ true) × (s ≡ r.state)) report.results
      × All (λ r. r.blocking ≡ true → ranking r.state ≤ ranking s) report.results
has-overall report some = elim (overall_state-worst report) [
  | inl (none_blocks, _) ↦ absurd (no-blocking report.results some none_blocks)
  | inr worst ↦ worst
]

-- In a report that `build_freshness_report` returns, every result has the state that its value has
-- by its threshold, is of the time of the report, and blocks exactly where it is not about the age
-- of retained events or represented data. The report has an overall state: that of a blocking
-- result that none is worse than.
pub build_freshness_report-Classified :
    (now : Instant) (aave uniswap : SourceFreshnessSnapshot) (safe_head committed : ℤ)
    (feeds : List FeedFreshnessSnapshot) (refreshed_at : DateTime) (marts : List (Text × DateTime))
    (report : FreshnessReport)
    → build_freshness_report now aave uniswap safe_head committed feeds refreshed_at marts
      ≡ ok report
    → All (Classified now) report.results
      × ((s : FreshnessState) × (overall_state report ≡ ok s)
          × Any (λ r. (r.blocking ≡ true) × (s ≡ r.state)) report.results
          × All (λ r. r.blocking ≡ true → ranking r.state ≤ ranking s) report.results)
unfolding build_freshness_report
build_freshness_report-Classified now aave uniswap safe_head committed feeds refreshed_at marts
      report h =
    let C = Classified now in
    let (first, e1, h1) = bind-eq-ok (source_results now aave) _ h in
    let (second, e2, h2) = bind-eq-ok (source_results now uniswap) _ h1 in
    let (lag, _, h3) = bind-eq-ok (position_lag safe_head committed) _ h2 in
    let (chainlink, e4, h4) =
      bind-eq-ok (evaluate_value _ _ source_position lag chainlink_position_threshold now _ true) _
        h3 in
    let (fs, e5, h5) = bind-eq-ok (feed_results now feeds) _ h4 in
    let (age, _, h6) = bind-eq-ok (age_seconds refreshed_at (aware now)) _ h5 in
    let (load, e7, h7) =
      bind-eq-ok
        (evaluate_value _ _ FreshnessDimension.load age warehouse_refresh_threshold now _ true) _
        h6 in
    let (ms, e8, h8) = bind-eq-ok (mart_results now age (sorted mart_lt marts)) _ h7 in
    let c4 =
      evaluate_value-Classified _ _ source_position lag chainlink_position_threshold now _ true
        chainlink refl e4 in
    let c7 =
      evaluate_value-Classified _ _ FreshnessDimension.load age warehouse_refresh_threshold now _
        true load refl e7 in
    let tail : All C (load ∷ ms) =
      (c7.0, mart_results-Classified now age (sorted mart_lt marts) ms e8) in
    let middle : All C (chainlink ∷ (fs ++ load ∷ ms)) =
      (c4.0, All-append C fs (load ∷ ms) (feed_results-Classified now feeds fs e5) tail) in
    let every : All C (first ++ second ++ chainlink ∷ (fs ++ load ∷ ms)) =
      All-append C (first ++ second) (chainlink ∷ (fs ++ load ∷ ms))
        (All-append C first second (source_results-Classified now aave first e1)
          (source_results-Classified now uniswap second e2))
        middle in
    let blocked : Any (λ r. r.blocking ≡ true) (first ++ second ++ chainlink ∷ (fs ++ load ∷ ms)) =
      Any-append_right (λ r. r.blocking ≡ true) (first ++ second) (chainlink ∷ (fs ++ load ∷ ms))
        (inl c4.1) in
    let made = ok-injective h8 in
    (
      subst (λ x. All C x.results) made every,
      has-overall report (subst (λ x. Any (λ r. r.blocking ≡ true) x.results) made blocked),
    )
