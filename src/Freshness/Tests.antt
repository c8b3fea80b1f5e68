-- ===== src/Freshness/Tests.antt =====
-- The freshness rules at concrete inputs.
use real_time_blockchain_ana.Prelude.{
  ◌≤◌, ◌<◌, ◌+◌, ◌-◌, ◌/◌, ◌≡◌, ◌⊎◌, refl, true, false, [], ◌∷◌, ok, err, value_error, arith,
}
use real_time_blockchain_ana.Prelude.Int.{◌-ℤ◌, pos}
use real_time_blockchain_ana.Python.Text.{codes, strip, lstrip, is_space}
use real_time_blockchain_ana.Python.Time.{aware}
use real_time_blockchain_ana.Freshness.{
  FreshnessState, FreshnessThreshold, FreshnessResult, FreshnessReport, source_position, event_time,
  freshness_threshold, classify, age_seconds, float_seconds, binade,
}
use real_time_blockchain_ana.Freshness.Rules.{Measures, classify_lem, age_seconds_lem}

abbrev position_threshold : FreshnessThreshold
position_threshold = record { warning = pos 50000; stale = pos 250000; unit = codes "blocks" }

threshold_made :
    freshness_threshold (pos 50000) (pos 250000) (codes "blocks") ≡ ok position_threshold
unfolding freshness_threshold strip lstrip is_space
threshold_made = refl

classify_lem_example :
    (s : FreshnessState) × (classify (pos 50000) position_threshold ≡ ok s)
    × Measures position_threshold (pos 50000) s
    × ((s' : FreshnessState) → Measures position_threshold (pos 50000) s' → s' ≡ s)
classify_lem_example =
    classify_lem (pos 50000) (pos 250000) (pos 50000) (codes "blocks") position_threshold
      threshold_made (omega arith)

age_seconds_lem_example :
    (3500000 ≤ 7000000
      → 7000000 < 3500000 + 9007199254740992
      → age_seconds (aware 3500000) (aware 7000000) ≡ ok (pos ((7000000 - 3500000) / 1000000)))
    × (3500000 ≤ 7000000
        → (age_seconds (aware 3500000) (aware 7000000) ≡ ok (pos ((7000000 - 3500000) / 1000000)))
          ⊎ (age_seconds (aware 3500000) (aware 7000000)
              ≡ ok (pos ((7000000 - 3500000) / 1000000 + 1))))
    × (7000000 < 3500000
        → 3500000 < 7000000 + 1000000
        → age_seconds (aware 3500000) (aware 7000000) ≡ ok (pos 0))
    × (7000000 + 1000000 ≤ 3500000 → age_seconds (aware 3500000) (aware 7000000) ≡ err value_error)
age_seconds_lem_example = age_seconds_lem 3500000 7000000

-- Half a second in the future.
age_of_future : age_seconds (aware 4000000) (aware 3500000) ≡ ok (pos 0)
age_of_future = (age_seconds_lem 4000000 3500000).2 (omega arith) (omega arith)

-- A microsecond short of 63902822400 seconds, which the division in floats rounds up.
age_rounded : age_seconds (aware 1) (aware 63902822400000000) ≡ ok (pos 63902822400)
unfolding age_seconds float_seconds binade ◌-ℤ◌
age_rounded = refl

abbrev warned : FreshnessResult
warned = record {
  check_name = codes "aave";
  pipeline_name = codes "aave";
  dimension = source_position;
  state = FreshnessState.warning;
  observed_value = pos 60000;
  threshold = position_threshold;
  checked_at = aware 9;
  reason = codes "lag";
  blocking = true;
}

abbrev report : FreshnessReport
report = record {
  checked_at = 9;
  results =
      warned
      ∷ record warned { dimension = event_time; state = FreshnessState.stale; blocking = false }
      ∷ [];
}
