-- ===== src/AaveForward/Bootstrap.antt =====
-- orchestration/aave_forward.py: one step of the bootstrap, over a store of completed ranges and a
-- chunk processor that may change the world `W` and may raise.
use real_time_blockchain_ana.Prelude.{Option, none, some, List, Result, ok, Exec}
use real_time_blockchain_ana.Prelude.Int.{ℤ, pos}
use real_time_blockchain_ana.Python.Text.{Text, codes}
use real_time_blockchain_ana.Python.Time.{Instant, DateTime, aware, as_utc}
use real_time_blockchain_ana.Watermark.{WatermarkIdentity}
use real_time_blockchain_ana.AaveForward.{
  CompletedBlockRange, completed_block_range, AaveBootstrapPlan, plan_next_bootstrap_chunk,
  and_then,
}

-- `AAVE_LEGACY_BOOTSTRAP_RANGES`
abbrev pub aave_legacy_bootstrap_ranges : WatermarkIdentity
aave_legacy_bootstrap_ranges = record {
  pipeline_name = codes "aave_forward";
  source_name = codes "alchemy_rpc";
  chain_id = pos 42161;
  watermark_type = codes "block_number";
}

-- The protocol `CompletedRangeStore`.
pub record CompletedRangeStore (W : Type 0) : Type 0 where
  pub list_ranges : WatermarkIdentity → Exec W (List CompletedBlockRange)
  pub record_range : WatermarkIdentity → CompletedBlockRange → Exec W CompletedBlockRange

-- A call that does not touch the world.
abbrev pub pure_call : {W A : Type 0} → Result A → Exec W A
pure_call r w = (r, w)

module _ {W : Type 0} (store : CompletedRangeStore W) (process : ℤ → ℤ → Exec W (Unit {0})) where
  open store use {list_ranges, record_range}

  unfoldable pub plan_from_store : ℤ → ℤ → ℤ → Exec W AaveBootstrapPlan
  plan_from_store project_start_block safe_end_block chunk_size =
      and_then (list_ranges aave_legacy_bootstrap_ranges) (λ ranges.
        pure_call (plan_next_bootstrap_chunk project_start_block safe_end_block chunk_size ranges))

  -- The source output is persisted first, and then the range is recorded.
  unfoldable pub process_range : CompletedBlockRange → Text → Instant → Exec W CompletedBlockRange
  process_range next_range successful_run_id completed_at =
      and_then (process next_range.start_block next_range.end_block) (λ _.
        and_then
          (pure_call (
            completed_block_range next_range.start_block next_range.end_block successful_run_id
              (some (aware completed_at))))
          (record_range aave_legacy_bootstrap_ranges))

  abbrev pub process_planned :
      ℤ
      → ℤ
      → ℤ
      → Text
      → DateTime
      → AaveBootstrapPlan
      → Option CompletedBlockRange
      → Exec W AaveBootstrapPlan
  process_planned project_start_block safe_end_block chunk_size successful_run_id completed_at plan
        none =
      pure_call (ok plan)
  process_planned project_start_block safe_end_block chunk_size successful_run_id completed_at plan
        (some next_range) =
      and_then (pure_call (as_utc completed_at)) (λ now.
        and_then (process_range next_range successful_run_id now)
          (λ _. plan_from_store project_start_block safe_end_block chunk_size))

  unfoldable pub process_next_bootstrap_chunk :
      ℤ → ℤ → ℤ → Text → DateTime → Exec W AaveBootstrapPlan
  process_next_bootstrap_chunk project_start_block safe_end_block chunk_size successful_run_id
        completed_at =
      and_then (plan_from_store project_start_block safe_end_block chunk_size) (λ plan.
        process_planned project_start_block safe_end_block chunk_size successful_run_id completed_at
          plan plan.next_range)
