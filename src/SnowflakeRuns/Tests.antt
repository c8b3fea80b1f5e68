-- ===== src/SnowflakeRuns/Tests.antt =====
-- Runs of the Snowflake run store.
use real_time_blockchain_ana.Prelude.{
  ◌*◌, ◌/◌, ◌≡◌, refl, none, some, [], ◌∷◌, ok, err, duplicate_run, arith, ℕ_discrete,
}
use real_time_blockchain_ana.Prelude.Int.{ℤ, pos, negsuc, ◌≤ℤ◌}
use real_time_blockchain_ana.Python.Text.{codes, Text-discrete}
use real_time_blockchain_ana.Python.Time.{aware}
use real_time_blockchain_ana.Sql.{select_where, rows_where}
use real_time_blockchain_ana.Runs.{
  succeeded, forward, RunIdentity, no_metrics, PipelineRunRecord, pipeline_run_record, run_metrics,
  position, count, detail_counts, end_checks, fresh_run, identity-discrete,
}
use real_time_blockchain_ana.Runs.Recorder.{ended}
use real_time_blockchain_ana.SnowflakeRuns.{DurationColumn, start, finish, get, increment_metrics}
use real_time_blockchain_ana.SnowflakeRuns.Validity.{IsValid}
use real_time_blockchain_ana.SnowflakeRuns.Lifecycle.{
  Step, Steps, Consistent, HasEnded, Steps-Consistent, Steps-HasEnded,
}
use real_time_blockchain_ana.SnowflakeRuns.ReadBack.{finish-get}

abbrev identity : RunIdentity
identity = record { pipeline_name = codes "aave"; run_id = codes "r" }

abbrev run : PipelineRunRecord
run = fresh_run identity forward (aware 5)

-- A column that keeps thousands of units and drops the rest.
abbrev thousands : ℤ → ℤ
thousands (pos n) = pos (n / 1000 * 1000)
thousands (negsuc n) = negsuc n

thousands-nonneg : (d : ℤ) → pos 0 ≤ℤ d → pos 0 ≤ℤ thousands d
thousands-nonneg d h = ground arith

abbrev by_thousands : DurationColumn
by_thousands = record { kept = thousands; kept-nonneg = thousands-nonneg }

abbrev terminal : PipelineRunRecord
terminal = ended run succeeded no_metrics 9 (pos 250417) none none

run-IsValid : IsValid run
unfolding pipeline_run_record end_checks
run-IsValid = refl

terminal-IsValid : IsValid terminal
unfolding pipeline_run_record end_checks
terminal-IsValid = refl

no_metrics_checked : run_metrics no_metrics ≡ ok no_metrics
unfolding run_metrics position count detail_counts
no_metrics_checked = refl

finish-get_example :
    ((start run []).0 ≡ ok run)
    × ((finish by_thousands terminal (start run []).1).0 ≡ ok terminal)
    × (get run.identity (finish by_thousands terminal (start run []).1).1
        ≡ ok (some (record terminal { duration_seconds = some (pos 250000) })))
unfolding get select_where
finish-get_example =
    finish-get by_thousands run terminal [] run-IsValid terminal-IsValid refl refl refl refl refl
      no_metrics_checked refl

nothing-Consistent : Consistent []
unfolding rows_where
nothing-Consistent = ((λ i. omega arith), tt)

-- The run starts, ends, and starts again.
abbrev twice : Steps by_thousands [] (start run (finish by_thousands terminal (start run []).1).1).1
twice =
    Steps.then_step [] (finish by_thousands terminal (start run []).1).1
      (start run (finish by_thousands terminal (start run []).1).1).1
      (Steps.then_step [] (start run []).1 (finish by_thousands terminal (start run []).1).1
        (Steps.then_step [] [] (start run []).1 (Steps.done []) (Step.started run [] run-IsValid))
        (Step.ended terminal (start run []).1 terminal-IsValid))
      (Step.started run (finish by_thousands terminal (start run []).1).1 run-IsValid)

Steps-Consistent_example :
    Consistent (start run (finish by_thousands terminal (start run []).1).1).1
Steps-Consistent_example =
    Steps-Consistent by_thousands [] (start run (finish by_thousands terminal (start run []).1).1).1
      twice nothing-Consistent

terminal-HasEnded : HasEnded identity terminal (terminal ∷ [])
unfolding select_where identity-discrete Text-discrete ℕ_discrete
terminal-HasEnded = (refl, refl)

Steps-HasEnded_example :
    HasEnded identity terminal (increment_metrics identity no_metrics (terminal ∷ [])).1
Steps-HasEnded_example =
    Steps-HasEnded by_thousands identity terminal (terminal ∷ [])
      (increment_metrics identity no_metrics (terminal ∷ [])).1
      (Steps.then_step (terminal ∷ []) (terminal ∷ [])
        (increment_metrics identity no_metrics (terminal ∷ [])).1 (Steps.done (terminal ∷ []))
        (Step.added identity no_metrics (terminal ∷ [])))
      terminal-HasEnded

-- A second start of the run is refused.
starts_once : start run (terminal ∷ []) ≡ (err duplicate_run, terminal ∷ [])
unfolding start rows_where identity-discrete Text-discrete ℕ_discrete
starts_once = refl
