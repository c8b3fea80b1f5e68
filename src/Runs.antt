-- ===== src/Runs.antt =====
-- orchestration/observability.py: the records of pipeline runs, and the recorder that writes them
-- without letting a failing store stop the pipeline. The clock and the timer are arguments. A
-- duration is a float: it is the whole number of units of `2 ^ -1074` seconds that the float is,
-- and the subtraction of floats, which rounds, is a parameter. The keys of metric details are taken
-- as they are.
pub mod Recorder
mod Tests
use real_time_blockchain_ana.Prelude.{
  ◌-◌, ◌^◌, ℕ_discrete, Bool, true, false, not, ◌&&◌, ◌||◌, Option, none, some, List, [], ◌∷◌,
  Error, value_error, run_state_conflict, Result, ok, err, ◌>>=◌, ◌>>◌, raise_if, Exec,
  if◌then◌else◌, is_some, holds,
}
use real_time_blockchain_ana.Prelude.Int.{ℤ, pos, ltb_ℤ, max_ℤ}
use real_time_blockchain_ana.Python.Text.{Text, Text-discrete, strip, is_empty}
use real_time_blockchain_ana.Python.Time.{Instant, DateTime, aware, naive}

abbrev pub max_position : ℤ
max_position = pos (10 ^ 38 - 1)

pub data RunStatus : Type 0 where
  running succeeded failed no_op skipped : RunStatus

pub data RunType : Type 0 where
  forward warehouse backfill correction : RunType

pub data ErrorStage : Type 0 where
  validation source_fetch persistence silver snowflake dbt reconciliation watermark_commit :
      ErrorStage

abbrev pub is_running : RunStatus → Bool
is_running running = true
is_running _ = false

abbrev pub is_failed : RunStatus → Bool
is_failed failed = true
is_failed _ = false

-- `_position`, of an integer or None.
unfoldable pub position : Option ℤ → Result (Option ℤ)
position none = ok none
position (some value) = do
  raise_if (ltb_ℤ value (pos 0) || ltb_ℤ max_position value) value_error
  ok (some value)

-- `_count`
unfoldable pub count : ℤ → Result ℤ
unfolding position
count value = do checked ← position (some value); ok value

pub record RunIdentity : Type 0 where
  pub pipeline_name : Text
  pub run_id : Text

-- `RunIdentity(...)` with its `__post_init__`.
unfoldable pub run_identity : Text → Text → Result RunIdentity
run_identity pipeline_name run_id = do
  raise_if (is_empty (strip pipeline_name)) value_error
  raise_if (is_empty (strip run_id)) value_error
  ok (record { pipeline_name = strip pipeline_name; run_id = strip run_id })

unfoldable pub identity-discrete : Discrete RunIdentity
identity-discrete = hlevel Text-discrete

abbrev pub same_identity : RunIdentity → RunIdentity → Bool
same_identity a b = holds (identity-discrete a b)

pub record RunMetrics : Type 0 where
  pub source_start_position : Option ℤ
  pub source_end_position : Option ℤ
  pub source_head_position : Option ℤ
  pub safe_head_position : Option ℤ
  pub watermark_before : Option ℤ
  pub watermark_after : Option ℤ
  pub records_read : ℤ
  pub records_written : ℤ
  pub records_inserted : ℤ
  pub records_updated : ℤ
  pub records_quarantined : ℤ
  pub retry_count : ℤ
  pub details : List (Text × ℤ)

unfoldable pub detail_counts : List (Text × ℤ) → Result (Unit {0})
detail_counts [] = ok tt
detail_counts ((_, value) ∷ details) = do checked ← count value; detail_counts details

-- `RunMetrics(...)` with its `__post_init__`.
unfoldable pub run_metrics : RunMetrics → Result RunMetrics
run_metrics m = do
  _ ← position m.source_start_position
  _ ← position m.source_end_position
  _ ← position m.source_head_position
  _ ← position m.safe_head_position
  _ ← position m.watermark_before
  _ ← position m.watermark_after
  _ ← count m.records_read
  _ ← count m.records_written
  _ ← count m.records_inserted
  _ ← count m.records_updated
  _ ← count m.records_quarantined
  _ ← count m.retry_count
  _ ← detail_counts m.details
  ok m

-- `RunMetrics()`
abbrev pub no_metrics : RunMetrics
no_metrics = record {
  source_start_position = none;
  source_end_position = none;
  source_head_position = none;
  safe_head_position = none;
  watermark_before = none;
  watermark_after = none;
  records_read = pos 0;
  records_written = pos 0;
  records_inserted = pos 0;
  records_updated = pos 0;
  records_quarantined = pos 0;
  retry_count = pos 0;
  details = [];
}

pub record PipelineRunRecord : Type 0 where
  pub identity : RunIdentity
  pub run_type : RunType
  pub started_at : DateTime
  pub status : RunStatus
  pub finished_at : Option DateTime
  pub duration_seconds : Option ℤ
  pub metrics : RunMetrics
  pub error_stage : Option ErrorStage
  pub error_class : Option Text

abbrev pub is_naive : DateTime → Bool
is_naive (aware _) = false
is_naive (naive _) = true

abbrev pub any_naive : Option DateTime → Bool
any_naive none = false
any_naive (some t) = is_naive t

abbrev pub negative : Option ℤ → Bool
negative none = false
negative (some d) = ltb_ℤ d (pos 0)

-- `not self.error_class`
abbrev pub no_class : Option Text → Bool
no_class none = true
no_class (some name) = is_empty name

-- The checks of `PipelineRunRecord.__post_init__` after that of `started_at`.
unfoldable pub end_checks :
    RunStatus → Option DateTime → Option ℤ → Option ErrorStage → Option Text → Result (Unit {0})
end_checks status finished_at duration_seconds error_stage error_class = do
  raise_if (any_naive finished_at) value_error
  raise_if
      (if is_running status
        then is_some finished_at || is_some duration_seconds
        else not (is_some finished_at) || not (is_some duration_seconds))
      value_error
  raise_if (negative duration_seconds) value_error
  raise_if
      (if is_failed status
        then not (is_some error_stage) || no_class error_class
        else is_some error_stage || is_some error_class)
      value_error

-- `PipelineRunRecord(...)` with its `__post_init__`.
unfoldable pub pipeline_run_record : PipelineRunRecord → Result PipelineRunRecord
pipeline_run_record r = do
  raise_if (is_naive r.started_at) value_error
  _ ← end_checks r.status r.finished_at r.duration_seconds r.error_stage r.error_class
  ok r

-- `terminal_record`. The finish time is aware, and `error_class` is the name of the error's class.
unfoldable pub terminal_record :
    PipelineRunRecord
    → RunStatus
    → RunMetrics
    → Instant
    → ℤ
    → Option ErrorStage
    → Option Text
    → Result PipelineRunRecord
terminal_record run status metrics finished_at duration_seconds error_stage error_class = do
  raise_if (not (is_running run.status)) run_state_conflict
  raise_if (is_running status) value_error
  pipeline_run_record (record run {
    status = status;
    finished_at = some (aware finished_at);
    duration_seconds = some duration_seconds;
    metrics = metrics;
    error_stage = error_stage;
    error_class = error_class;
  })

-- The record of a run that starts.
abbrev pub fresh_run : RunIdentity → RunType → DateTime → PipelineRunRecord
fresh_run identity run_type started_at = record {
  identity = identity;
  run_type = run_type;
  started_at = started_at;
  status = running;
  finished_at = none;
  duration_seconds = none;
  metrics = no_metrics;
  error_stage = none;
  error_class = none;
}

-- The protocol `PipelineRunStore`. What a call that raises leaves behind is its state too.
pub record PipelineRunStore (S : Type 0) : Type 0 where
  pub start : PipelineRunRecord → Exec S PipelineRunRecord
  pub finish : PipelineRunRecord → Exec S PipelineRunRecord

-- The fields of `BestEffortRunRecorder`; `enabled` says that its store is not None.
pub record BestEffortRunRecorder : Type 0 where
  pub enabled : Bool
  pub started_tick : ℤ
  pub run : PipelineRunRecord
  pub stage : ErrorStage
  pub finished : Bool

-- `set_stage`
abbrev pub set_stage : ErrorStage → BestEffortRunRecorder → BestEffortRunRecorder
set_stage stage recorder = record recorder { stage = stage }

-- `_disable`
abbrev pub disable : BestEffortRunRecorder → BestEffortRunRecorder
disable recorder = record recorder { enabled = false }

abbrev pub stage_of : RunStatus → ErrorStage → Option ErrorStage
stage_of status stage = if is_failed status then some stage else none

module _ {S : Type 0} (store : PipelineRunStore S) where
  -- `try: ...  except Exception as error: self._disable(...)`, if there is a store.
  abbrev pub attempt :
      (PipelineRunRecord → Exec S PipelineRunRecord)
      → PipelineRunRecord
      → Bool
      → BestEffortRunRecorder
      → S
      → BestEffortRunRecorder × S
  attempt call r false recorder s = (recorder, s)
  attempt call r true recorder s =
      let (result, after) = call r s in
      elim result [ ok _ ↦ (recorder, after) | err _ ↦ (disable recorder, after) ]

  -- `BestEffortRunRecorder(...)`, at a reading of the clock and of the timer.
  unfoldable pub recorder :
      Bool → RunIdentity → RunType → DateTime → ℤ → S → Result BestEffortRunRecorder × S
  recorder enabled identity run_type now tick s =
      elim (pipeline_run_record (fresh_run identity run_type now)) [
        | err e ↦ (err e, s)
        | ok r ↦
            let made : BestEffortRunRecorder = record {
              enabled = enabled;
              started_tick = tick;
              run = r;
              stage = validation;
              finished = false;
            } in
            let (after, s') = attempt (store.start) r enabled made s in (ok after, s')
      ]

module _ {S : Type 0} (store : PipelineRunStore S) (subtract : ℤ → ℤ → ℤ) where
  -- `finish`, at a reading of the clock and of the timer: the terminal record, the recorder and the
  -- store's state after it.
  unfoldable pub finish :
      Instant
      → ℤ
      → RunStatus
      → RunMetrics
      → Option Text
      → BestEffortRunRecorder
      → S
      → Result PipelineRunRecord × BestEffortRunRecorder × S
  finish now tick status metrics error_class before s =
      let done : BestEffortRunRecorder = record before { finished = true } in
      if before.finished
      then (err run_state_conflict, before, s)
      else (elim (terminal_record before.run status metrics now
          (max_ℤ (pos 0) (subtract tick before.started_tick)) (stage_of status before.stage)
          error_class) [
            | err e ↦ (err e, done, s)
            | ok terminal ↦
                let (after, s') = attempt store (store.finish) terminal before.enabled done s in
                (ok terminal, after, s')
          ])

  abbrev pub succeed :
      Instant
      → ℤ
      → RunMetrics
      → BestEffortRunRecorder
      → S
      → Result PipelineRunRecord × BestEffortRunRecorder × S
  succeed now tick metrics = finish now tick succeeded metrics none

  abbrev pub noop :
      Instant
      → ℤ
      → RunMetrics
      → BestEffortRunRecorder
      → S
      → Result PipelineRunRecord × BestEffortRunRecorder × S
  noop now tick metrics = finish now tick no_op metrics none

  -- `fail`, whose error has a class; without metrics these are `RunMetrics()`.
  abbrev pub fail :
      Instant
      → ℤ
      → Text
      → Option RunMetrics
      → BestEffortRunRecorder
      → S
      → Result PipelineRunRecord × BestEffortRunRecorder × S
  fail now tick error_class none = finish now tick failed no_metrics (some error_class)
  fail now tick error_class (some metrics) = finish now tick failed metrics (some error_class)
