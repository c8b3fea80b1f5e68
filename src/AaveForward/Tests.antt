-- ===== src/AaveForward/Tests.antt =====
-- Plans and the pipeline at concrete inputs.
use real_time_blockchain_ana.Prelude.{
  ◌≡◌, ◌⊎◌, refl, none, some, List, [], ◌∷◌, ok, Exec, arith, ℕ_discrete,
}
use real_time_blockchain_ana.Prelude.Int.{ℤ, pos, ◌+ℤ◌, ◌-ℤ◌, ◌≤ℤ◌, ◌<ℤ◌}
use real_time_blockchain_ana.Python.Text.{codes, Text-discrete}
use real_time_blockchain_ana.Python.Time.{aware}
use real_time_blockchain_ana.Sql.{select_where}
use real_time_blockchain_ana.Watermark.{WatermarkIdentity, WatermarkState, identity-discrete}
use real_time_blockchain_ana.SnowflakeWatermarks.{
  WatermarkTable, get, snowflake_watermark_store, state_of,
}
use real_time_blockchain_ana.SnowflakeWatermarks.Contract.{snowflake-IsWatermarkStore}
use real_time_blockchain_ana.Python.Sort.{sorted}
use real_time_blockchain_ana.Prelude.Int.{min_ℤ, ◌-ℤ◌, ◌+ℤ◌}
use real_time_blockchain_ana.AaveForward.{
  contiguous_end_from, CompletedBlockRange, next_chunk, CompletedBlockRange,
  highest_contiguous_block, AaveForwardPlan, plan_forward_increment, interval, AaveBootstrapPlan,
  plan_next_bootstrap_chunk, eligible_bootstrap_watermark, run_commit_last_pipeline,
}
use real_time_blockchain_ana.AaveForward.Coverage.{
  Covered, IsHighestContiguous, highest-IsHighestContiguous,
}
use real_time_blockchain_ana.AaveForward.Plans.{
  PlansInterval, plan_forward_increment_lem, PlansChunk, plan_next_bootstrap_chunk_lem,
  eligible_bootstrap_watermark_lem, bootstrap_progress,
}
use real_time_blockchain_ana.AaveForward.Pipeline.{
  AllStages, CommitsLast, run_commit_last_pipeline-CommitsLast,
}

abbrev range : ℤ → ℤ → CompletedBlockRange
range a b = record {
  start_block = a;
  end_block = b;
  successful_run_id = codes "r";
  completed_at = none;
}

abbrev done_ranges : List CompletedBlockRange
done_ranges = range (pos 15) (pos 30) ∷ range (pos 10) (pos 20) ∷ range (pos 40) (pos 50) ∷ []

highest-IsHighestContiguous_example :
    (end : ℤ) × (highest_contiguous_block (pos 10) done_ranges ≡ ok end)
    × IsHighestContiguous (pos 10) end done_ranges
highest-IsHighestContiguous_example = highest-IsHighestContiguous (pos 10) done_ranges (omega arith)

plan_forward_increment_lem_example :
    (plan : AaveForwardPlan) × (plan_forward_increment (pos 100) (pos 500) (pos 50) ≡ ok plan)
    × (((pos 500 ≤ℤ pos 100) × (plan.start_block ≡ none) × (plan.end_block ≡ none))
        ⊎ ((pos 100 <ℤ pos 500) × PlansInterval (pos 100) (pos 500) (pos 50) plan))
plan_forward_increment_lem_example =
    plan_forward_increment_lem (pos 100) (pos 500) (pos 50) (omega arith) (omega arith)
      (omega arith)

plan_next_bootstrap_chunk_lem_example :
    (end : ℤ) × (plan : AaveBootstrapPlan) × (plan_next_bootstrap_chunk
        (pos 10)
        (pos 60)
        (pos 5)
        done_ranges
      ≡ ok plan)
    × IsHighestContiguous (pos 10) end done_ranges
    × PlansChunk (pos 10) (pos 60) (pos 5) end plan
plan_next_bootstrap_chunk_lem_example =
    plan_next_bootstrap_chunk_lem (pos 10) (pos 60) (pos 5) done_ranges (omega arith) (omega arith)
      (omega arith)

eligible_bootstrap_watermark_lem_example :
    let covered = (b : ℤ) → pos 10 ≤ℤ b → b ≤ℤ pos 30 → Covered b done_ranges in
    (covered × (eligible_bootstrap_watermark (pos 10) (pos 30) done_ranges ≡ ok (some (pos 30))))
    ⊎ ((¬ covered) × (eligible_bootstrap_watermark (pos 10) (pos 30) done_ranges ≡ ok none))
eligible_bootstrap_watermark_lem_example =
    eligible_bootstrap_watermark_lem (pos 10) (pos 30) done_ranges (omega arith)

-- A chunk as it is planned, before a run has completed it.
abbrev chunk : CompletedBlockRange
chunk = record (range (pos 10) (pos 14)) { successful_run_id = codes "" }

abbrev first_plan : AaveBootstrapPlan
first_plan = record {
  project_start_block = pos 10;
  safe_end_block = pos 60;
  next_range = some chunk;
  highest_contiguous_block = pos 9;
}

plans_first : plan_next_bootstrap_chunk (pos 10) (pos 60) (pos 5) [] ≡ ok first_plan
unfolding plan_next_bootstrap_chunk next_chunk highest_contiguous_block contiguous_end_from sorted
    ◌-ℤ◌ ◌+ℤ◌ min_ℤ
plans_first = refl

bootstrap_progress_example :
    (end' : ℤ) × (highest_contiguous_block (pos 10) (range (pos 10) (pos 14) ∷ []) ≡ ok end')
    × (pos 14 ≤ℤ end')
    × (pos 9 <ℤ end')
bootstrap_progress_example =
    bootstrap_progress (pos 10) (pos 60) (pos 5) first_plan chunk (range (pos 10) (pos 14)) [] []
      (omega arith) (omega arith) (omega arith) plans_first refl refl refl

abbrev aave : WatermarkIdentity
aave = record {
  pipeline_name = codes "aave";
  source_name = codes "v3";
  chain_id = pos 42161;
  watermark_type = codes "block";
}

abbrev current : WatermarkState
current = state_of aave (pos 100) (codes "r1") (aware 5)

has_current : get aave (current ∷ []) ≡ ok (some current)
unfolding get select_where identity-discrete Text-discrete ℕ_discrete
has_current = refl

abbrev succeeds : Exec WatermarkTable (Unit {0})
succeeds w = (ok tt, w)

abbrev next_plan : AaveForwardPlan
next_plan = interval (pos 100) (pos 500) (pos 101) (pos 150)

run_commit_last_pipeline-CommitsLast_example :
    CommitsLast
      (snowflake_watermark_store (aware 9))
      aave
      current
      next_plan
      (AllStages (λ _. succeeds) (λ _. succeeds) succeeds succeeds next_plan (current ∷ []))
      (current ∷ [])
      (run_commit_last_pipeline
        (snowflake_watermark_store (aware 9))
        (λ w. w)
        current
        next_plan
        (codes "r2")
        (λ _. succeeds)
        (λ _. succeeds)
        succeeds
        succeeds
        (current ∷ []))
unfolding snowflake_watermark_store
run_commit_last_pipeline-CommitsLast_example =
    run_commit_last_pipeline-CommitsLast (snowflake_watermark_store (aware 9)) aave
      (snowflake-IsWatermarkStore (aware 9)) (λ w. w) (λ _. succeeds) (λ _. succeeds) succeeds
      succeeds (λ w. refl) (λ p w. refl) (λ t w. refl) (λ w. refl) (λ w. refl) current next_plan
      (codes "r2") (current ∷ []) (some current) refl has_current
