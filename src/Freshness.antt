-- ===== src/Freshness.antt =====
-- orchestration/freshness.py: thresholds, the measurements, and the report's overall state. The
-- free-form `details` of a result, which no rule reads, are not modelled.
pub mod Rules
pub mod Report
mod Tests
use real_time_blockchain_ana.Prelude.{
  ℕ, zero, suc, ◌+◌, ◌-◌, ◌*◌, ◌/◌, ◌%◌, ◌^◌, leb, Bool, true, false, List, [], ◌∷◌, map, Error,
  value_error, Result, ok, err, ◌>>=◌, ◌>>◌, raise_if, if◌then◌else◌, ltb, ◌||◌,
}
use real_time_blockchain_ana.Prelude.Int.{ℤ, pos, negsuc, ◌-ℤ◌, ltb_ℤ, leb_ℤ, max_ℤ}
use real_time_blockchain_ana.Python.Text.{Text, strip, is_empty}
use real_time_blockchain_ana.Python.Time.{Instant, DateTime, aware, naive, as_utc}
use real_time_blockchain_ana.Sql.{select_where}

pub data FreshnessState : Type 0 where
  fresh warning stale : FreshnessState

pub data FreshnessDimension : Type 0 where
  source_position event_time feed load transformation represented_data : FreshnessDimension

pub record FreshnessThreshold : Type 0 where
  pub warning : ℤ
  pub stale : ℤ
  pub unit : Text

-- `FreshnessThreshold(...)` with its `__post_init__`.
unfoldable pub freshness_threshold : ℤ → ℤ → Text → Result FreshnessThreshold
freshness_threshold warning_at stale_at unit = do
  raise_if (ltb_ℤ warning_at (pos 0) || leb_ℤ stale_at warning_at) value_error
  raise_if (is_empty (strip unit)) value_error
  ok (record { warning = warning_at; stale = stale_at; unit = unit })

pub record FreshnessResult : Type 0 where
  pub check_name : Text
  pub pipeline_name : Text
  pub dimension : FreshnessDimension
  pub state : FreshnessState
  pub observed_value : ℤ
  pub threshold : FreshnessThreshold
  pub checked_at : DateTime
  pub reason : Text
  pub blocking : Bool

-- `FreshnessResult.__post_init__`
unfoldable pub freshness_result : FreshnessResult → Result FreshnessResult
freshness_result r = do
  raise_if (is_empty (strip r.check_name) || is_empty (strip r.pipeline_name)) value_error
  raise_if (ltb_ℤ r.observed_value (pos 0)) value_error
  now ← as_utc r.checked_at
  raise_if (is_empty (strip r.reason)) value_error
  ok r

unfoldable pub classify : ℤ → FreshnessThreshold → Result FreshnessState
classify value threshold = do
  raise_if (ltb_ℤ value (pos 0)) value_error
  ok (
      if leb_ℤ threshold.stale value
      then FreshnessState.stale
      else if leb_ℤ threshold.warning value
      then FreshnessState.warning
      else fresh)

-- The time of the check is an aware one, as every caller passes.
unfoldable pub evaluate_value :
    Text
    → Text
    → FreshnessDimension
    → ℤ
    → FreshnessThreshold
    → Instant
    → Text
    → Bool
    → Result FreshnessResult
evaluate_value check_name pipeline_name dimension value threshold checked_at reason blocking = do
  state ← classify value threshold
  freshness_result (record {
    check_name = check_name;
    pipeline_name = pipeline_name;
    dimension = dimension;
    state = state;
    observed_value = value;
    threshold = threshold;
    checked_at = aware checked_at;
    reason = reason;
    blocking = blocking;
  })

unfoldable pub position_lag : ℤ → ℤ → Result ℤ
position_lag safe_head committed_position = do
  raise_if (ltb_ℤ safe_head (pos 0) || ltb_ℤ committed_position (pos 0)) value_error
  ok (max_ℤ (pos 0) (safe_head -ℤ committed_position))

-- The largest power of two that is at most `q`, and at most `2 ^ k`; 1 if there is none.
unfoldable pub binade : ℕ → ℕ → ℕ
binade zero q = 1
binade (suc k) q = let rest = binade k q in if leb (2 ^ suc k) q then 2 ^ suc k else rest

-- The whole part of `n` microseconds in seconds as a float. The division by a million is correctly
-- rounded to 53 bits. With `q` whole seconds and `r` microseconds the floats next to `q + 1` are
-- `binade / 2 ^ 52` apart, so the quotient is rounded up to `q + 1` where what is missing is at
-- most half of that. Datetimes are less than `2 ^ 39` seconds apart.
unfoldable pub float_seconds : ℕ → ℕ
float_seconds n =
    let q = n / 1000000 in
    let r = n % 1000000 in
    if leb ((1000000 - r) * 9007199254740992) (1000000 * binade 40 q) then q + 1 else q

-- `int(elapsed.total_seconds())` of a number of microseconds: rounded towards zero, after the
-- rounding of the float.
abbrev pub total_seconds : ℤ → ℤ
total_seconds (pos n) = pos (float_seconds n)
total_seconds (negsuc n) = pos 0 -ℤ pos (float_seconds (suc n))

unfoldable pub age_seconds : DateTime → DateTime → Result ℤ
age_seconds observed_at checked_at = do
  observed ← as_utc observed_at
  checked ← as_utc checked_at
  let seconds = total_seconds (pos checked -ℤ pos observed)
  raise_if (ltb_ℤ seconds (pos 0)) value_error
  ok seconds

pub record FreshnessReport : Type 0 where
  pub checked_at : Instant
  pub results : List FreshnessResult

abbrev pub ranking : FreshnessState → ℕ
ranking fresh = 0
ranking FreshnessState.warning = 1
ranking FreshnessState.stale = 2

module _ {A : Type 0} (key : A → ℕ) where
  -- `max(..., key=key)` of a sequence that starts with `best`: the first of the largest.
  unfoldable pub max_by : A → List A → A
  max_by best [] = best
  max_by best (x ∷ xs) = max_by (if ltb (key best) (key x) then x else best) xs

abbrev pub worst_state : List FreshnessResult → Result FreshnessState
worst_state [] = err value_error
worst_state (item ∷ items) = ok (max_by ranking item.state (map (λ x. x.state) items))

-- `FreshnessReport.overall_state`
unfoldable pub overall_state : FreshnessReport → Result FreshnessState
overall_state report = worst_state (select_where (λ item. item.blocking) report.results)
