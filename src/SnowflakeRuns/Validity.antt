-- ===== src/SnowflakeRuns/Validity.antt =====
-- The rows of warehouse/pipeline_runs.py pass the checks of a `PipelineRunRecord`.
use real_time_blockchain_ana.Prelude.{
  Option, none, some, ◌||◌, is_some, ◌≡◌, refl, Bool, true, false, not, value_error, ok, arith,
  bind-eq-ok, raise_if, if◌then◌else◌,
}
use real_time_blockchain_ana.Prelude.Int.{ℤ, pos, ltb_ℤ}
use real_time_blockchain_ana.Python.Text.{Text}
use real_time_blockchain_ana.Python.Time.{DateTime}
use real_time_blockchain_ana.Runs.{
  RunStatus, ErrorStage, any_naive, is_running, is_naive, RunMetrics, PipelineRunRecord,
  pipeline_run_record, end_checks, fresh_run,
}
use real_time_blockchain_ana.SnowflakeRuns.{DurationColumn, stored_duration, set_end, add_metrics}

-- The record passes its own checks: every `PipelineRunRecord` of the program does.
abbrev pub IsValid : PipelineRunRecord → Type 0
IsValid r = pipeline_run_record r ≡ ok r

-- What a valid record has passed.
pub valid_parts :
    (r : PipelineRunRecord)
    → IsValid r
    → (is_naive r.started_at ≡ false)
      × (end_checks r.status r.finished_at r.duration_seconds r.error_stage r.error_class ≡ ok tt)
unfolding pipeline_run_record
valid_parts r h =
    let (_, e1, h1) = bind-eq-ok (raise_if (is_naive r.started_at) value_error) _ h in
    let (_, e2, _) =
      bind-eq-ok (end_checks r.status r.finished_at r.duration_seconds r.error_stage r.error_class)
        _ h1 in
    (ground arith, e2)

pub fresh_run-IsValid :
    (r : PipelineRunRecord) → IsValid r → IsValid (fresh_run r.identity r.run_type r.started_at)
unfolding pipeline_run_record end_checks
fresh_run-IsValid r h = rw (valid_parts r h).0 refl

-- What the column keeps of a duration passes the checks that the duration has passed.
pub end_checks-stored :
    (column : DurationColumn) (status : RunStatus) (finished : Option DateTime) (d : Option ℤ)
    (stage : Option ErrorStage) (error_class : Option Text)
    → end_checks status finished d stage error_class ≡ ok tt
    → end_checks status finished (stored_duration column d) stage error_class ≡ ok tt
unfolding end_checks
end_checks-stored column status finished none stage c h = h
end_checks-stored column status finished (some d) stage c h =
    let (_, _, h1) = bind-eq-ok (raise_if (any_naive finished) value_error) _ h in
    let (_, _, h2) = bind-eq-ok (raise_if (ends_badly status finished) value_error) _ h1 in
    let (_, e, _) = bind-eq-ok (raise_if (ltb_ℤ d (pos 0)) value_error) _ h2 in
    let ahead : ltb_ℤ d (pos 0) ≡ false = ground arith in
    let sign = column.kept-nonneg d (ground arith) in
    let ahead' : ltb_ℤ (column.kept d) (pos 0) ≡ false = ground arith in rw ahead' (rw ahead at h)
  where
    ends_badly : RunStatus → Option DateTime → Bool
    ends_badly status finished =
        if is_running status then is_some finished || true else not (is_some finished) || false

pub set_end-IsValid :
    (column : DurationColumn) (r row : PipelineRunRecord)
    → IsValid r
    → IsValid row
    → IsValid (set_end column r row)
unfolding pipeline_run_record
set_end-IsValid column r row h k =
    rw
      (
        (valid_parts row k).0,
        end_checks-stored column r.status r.finished_at r.duration_seconds r.error_stage
            r.error_class (valid_parts r h).1,
      )
      refl

pub add_metrics-IsValid :
    (m : RunMetrics) (row : PipelineRunRecord) → IsValid row → IsValid (add_metrics m row)
unfolding pipeline_run_record
add_metrics-IsValid m row k = rw ((valid_parts row k).0, (valid_parts row k).1) refl
