-- ===== src/Runs/Tests.antt =====
-- Runs of the run recorder, over a store that always fails.
use real_time_blockchain_ana.Prelude.{
  ℕ, ◌≡◌, refl, true, false, none, some, Option, runtime_error, run_state_conflict, value_error, ok,
  err,
}
use real_time_blockchain_ana.Prelude.Int.{ℤ, pos, ◌-ℤ◌, max_ℤ}
use real_time_blockchain_ana.Python.Text.{Text, codes}
use real_time_blockchain_ana.Python.Time.{Instant, aware}
use real_time_blockchain_ana.Runs.{
  RunStatus, succeeded, failed, forward, validation, RunIdentity, RunMetrics, no_metrics,
  PipelineRunRecord, pipeline_run_record, end_checks, terminal_record, fresh_run, PipelineRunStore,
  BestEffortRunRecorder, recorder, stage_of, finish,
}
use real_time_blockchain_ana.Runs.Recorder.{ended, elapsed, finish-ended}

abbrev failing : PipelineRunStore ℕ
failing = record { start = λ r n. (err runtime_error, n); finish = λ r n. (err runtime_error, n) }

abbrev identity : RunIdentity
identity = record { pipeline_name = codes "aave_forward"; run_id = codes "run-1" }

finish-ended_example :
    (before after : BestEffortRunRecorder) × (s' : ℕ) × (terminal : PipelineRunRecord) × ((recorder
        failing true identity forward
        (aware 5)
        (pos 100)
        0).0
      ≡ ok before)
    × (finish failing ◌-ℤ◌ 9 (pos 350) failed no_metrics (some (codes "RuntimeError")) before 0
        ≡ (ok terminal, after, s'))
    × (terminal
        ≡ ended
            (fresh_run identity forward (aware 5))
            failed
            no_metrics
            9
            (elapsed failing ◌-ℤ◌ (pos 350) (pos 100))
            (stage_of failed before.stage)
            (some (codes "RuntimeError")))
    × (pipeline_run_record terminal ≡ ok terminal)
    × ((now' : Instant) (tick' : ℤ) (status' : RunStatus) (metrics' : RunMetrics)
          (class' : Option Text) (v : ℕ)
        → finish failing ◌-ℤ◌ now' tick' status' metrics' class' after v
          ≡ (err run_state_conflict, after, v))
finish-ended_example =
    finish-ended failing ◌-ℤ◌ true identity forward 5 (pos 100) 0 0 9 (pos 350) failed no_metrics
      (some (codes "RuntimeError")) (_, _, refl)

-- After a failed `start` the recorder has no store, and it still returns the terminal record.
abbrev disabled : BestEffortRunRecorder
disabled = record {
  enabled = false;
  started_tick = pos 100;
  run = fresh_run identity forward (aware 5);
  stage = validation;
  finished = false;
}

starts_disabled : recorder failing true identity forward (aware 5) (pos 100) 0 ≡ (ok disabled, 0)
unfolding recorder pipeline_run_record end_checks
starts_disabled = refl

-- A failure without an error class is refused by the record's checks, and the recorder is finished
-- all the same.
fails_without_class :
    finish failing ◌-ℤ◌ 9 (pos 350) failed no_metrics none disabled 0
    ≡ (err value_error, record disabled { finished = true }, 0)
unfolding finish terminal_record pipeline_run_record end_checks max_ℤ ◌-ℤ◌
fails_without_class = refl

ends_once :
    finish failing ◌-ℤ◌ 9
      (pos 350)
      succeeded
      no_metrics
      none
      (record disabled { finished = true })
      0
    ≡ (err run_state_conflict, record disabled { finished = true }, 0)
unfolding finish
ends_once = refl
