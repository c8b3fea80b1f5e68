-- ===== src/SnowflakeRuns.antt =====
-- warehouse/pipeline_runs.py: `SnowflakePipelineRunStore`, on a table of run rows. The column
-- made_progress, which nothing reads back, is left out, and so is a NUMBER(38, 0) that overflows.
pub mod Validity
pub mod Lifecycle
pub mod ReadBack
mod Tests
use real_time_blockchain_ana.Prelude.{
  Bool, true, false, not, ◌&&◌, Option, none, some, List, [], ◌∷◌, ◌++◌, value_error, duplicate_run,
  run_state_conflict, Result, ok, err, ◌>>=◌, Exec, ◌==◌, if◌then◌else◌,
}
use real_time_blockchain_ana.Prelude.Int.{ℤ, pos, ◌+ℤ◌, ◌≤ℤ◌}
use real_time_blockchain_ana.Python.Text.{Text, codes, text_eq}
use real_time_blockchain_ana.Sql.{select_where, update_where, rows_where}
use real_time_blockchain_ana.Runs.{
  running, is_running, RunIdentity, same_identity, RunMetrics, run_metrics, PipelineRunRecord,
  pipeline_run_record, fresh_run, PipelineRunStore,
}

-- The table PIPELINE_RUNS: a row has the fields of `PipelineRunRecord`.
abbrev pub RunTable : Type 0
RunTable = List PipelineRunRecord

-- `WHERE pipeline_name = %s AND run_id = %s`
abbrev pub has_key : RunIdentity → PipelineRunRecord → Bool
has_key identity row = same_identity row.identity identity

-- `... AND status = 'RUNNING'`
abbrev pub is_open : RunIdentity → PipelineRunRecord → Bool
is_open identity row = has_key identity row && is_running row.status

-- `INSERT ... SELECT ... WHERE NOT EXISTS (...)`: the other columns have their defaults.
unfoldable pub start : PipelineRunRecord → Exec RunTable PipelineRunRecord
start r table =
    if not (is_running r.status)
    then (err value_error, table)
    else if rows_where (has_key r.identity) table == 0
    then (ok r, table ++ fresh_run r.identity r.run_type r.started_at ∷ [])
    else (err duplicate_run, table)

-- The column DURATION_SECONDS, a NUMBER(18, 3) of control/provision_pipeline_runs.sql: the float
-- that `float(...)` makes of what the column keeps of a float. It rounds, and keeps the sign.
pub record DurationColumn : Type 0 where
  pub kept : ℤ → ℤ
  pub kept-nonneg : (d : ℤ) → pos 0 ≤ℤ d → pos 0 ≤ℤ kept d

abbrev pub stored_duration : DurationColumn → Option ℤ → Option ℤ
stored_duration column none = none
stored_duration column (some d) = some (column.kept d)

-- The SET clause of `finish`.
abbrev pub set_end : DurationColumn → PipelineRunRecord → PipelineRunRecord → PipelineRunRecord
set_end column r row = record row {
  status = r.status;
  finished_at = r.finished_at;
  duration_seconds = stored_duration column r.duration_seconds;
  metrics = r.metrics;
  error_stage = r.error_stage;
  error_class = r.error_class;
}

unfoldable pub finish : DurationColumn → PipelineRunRecord → Exec RunTable PipelineRunRecord
finish column r table =
    let after = update_where (is_open r.identity) (set_end column r) table in
    if is_running r.status
    then (err value_error, table)
    else if rows_where (is_open r.identity) table == 1
    then (ok r, after)
    else (err run_state_conflict, after)

abbrev pub detail : Text → List (Text × ℤ) → ℤ
detail key [] = pos 0
detail key ((k, value) ∷ details) =
    let rest = detail key details in if text_eq k key then value else rest

-- `OBJECT_INSERT(details, key, value, TRUE)`
abbrev pub set_detail : Text → ℤ → List (Text × ℤ) → List (Text × ℤ)
set_detail key value [] = (key, value) ∷ []
set_detail key value ((k, old) ∷ details) =
    let rest = set_detail key value details in
    if text_eq k key then (k, value) ∷ details else (k, old) ∷ rest

-- The SET clause of `increment_metrics`.
abbrev pub add_metrics : RunMetrics → PipelineRunRecord → PipelineRunRecord
add_metrics m row =
    let old = row.metrics in
    record row {
      metrics = record old {
        records_read = old.records_read +ℤ m.records_read;
        records_written = old.records_written +ℤ m.records_written;
        records_inserted = old.records_inserted +ℤ m.records_inserted;
        records_updated = old.records_updated +ℤ m.records_updated;
        records_quarantined = old.records_quarantined +ℤ m.records_quarantined;
        retry_count = old.retry_count +ℤ m.retry_count;
        details =
            set_detail (codes "copy_files")
              (detail (codes "copy_files") old.details +ℤ detail (codes "copy_files") m.details)
              old.details;
      };
    }

unfoldable pub increment_metrics : RunIdentity → RunMetrics → Exec RunTable (Unit {0})
increment_metrics identity m table =
    let after = update_where (is_open identity) (add_metrics m) table in
    if rows_where (is_open identity) table == 1
    then (ok tt, after)
    else (err run_state_conflict, after)

-- The constructors that `get` calls check again what the row has.
abbrev pub run_from_rows : List PipelineRunRecord → Result (Option PipelineRunRecord)
run_from_rows [] = ok none
run_from_rows (row ∷ []) =
    run_metrics row.metrics >>= λ _. pipeline_run_record row >>= λ r. ok (some r)
run_from_rows (_ ∷ _ ∷ _) = err run_state_conflict

unfoldable pub get : RunIdentity → RunTable → Result (Option PipelineRunRecord)
get identity table = run_from_rows (select_where (has_key identity) table)

unfoldable pub snowflake_run_store : DurationColumn → PipelineRunStore RunTable
snowflake_run_store column = record { start = start; finish = finish column }
