-- ===== src/AaveForward.antt =====
-- orchestration/aave_forward.py: completed block ranges, coverage, planning and the commit-last
-- pipeline.
pub mod Bootstrap
pub mod Coverage
pub mod Plans
pub mod Pipeline
mod Tests
use real_time_blockchain_ana.Prelude.{
  Bool, true, false, not, ◌&&◌, ◌||◌, Option, none, some, List, [], ◌∷◌, ◌++◌, Error, value_error,
  assertion_error, Result, ok, err, ◌>>=◌, ◌>>◌, raise_if, Exec, if◌then◌else◌,
}
use real_time_blockchain_ana.Prelude.Int.{ℤ, pos, ◌+ℤ◌, ◌-ℤ◌, ltb_ℤ, leb_ℤ, eqb_ℤ, max_ℤ, min_ℤ}
use real_time_blockchain_ana.Python.Text.{Text, codes}
use real_time_blockchain_ana.Python.Time.{DateTime, aware, naive}
use real_time_blockchain_ana.Python.Sort.{sorted}
use real_time_blockchain_ana.Watermark.{
  WatermarkState, WatermarkStore, ProcessingMode, commit_watermark,
}

pub record CompletedBlockRange : Type 0 where
  pub start_block : ℤ
  pub end_block : ℤ
  pub successful_run_id : Text
  pub completed_at : Option DateTime

abbrev pub is_naive : Option DateTime → Bool
is_naive none = false
is_naive (some (aware _)) = false
is_naive (some (naive _)) = true

-- `CompletedBlockRange(...)` with its `__post_init__`.
unfoldable pub completed_block_range : ℤ → ℤ → Text → Option DateTime → Result CompletedBlockRange
completed_block_range start_block end_block successful_run_id completed_at = do
  raise_if (ltb_ℤ start_block (pos 0) || ltb_ℤ end_block start_block) value_error
  raise_if (is_naive completed_at) value_error
  ok (record {
    start_block = start_block;
    end_block = end_block;
    successful_run_id = successful_run_id;
    completed_at = completed_at;
  })

unfoldable pub calculate_safe_head : ℤ → ℤ → Result ℤ
calculate_safe_head latest_block confirmation_depth = do
  raise_if (ltb_ℤ latest_block (pos 0)) value_error
  raise_if (ltb_ℤ confirmation_depth (pos 0)) value_error
  ok (max_ℤ (pos 0) (latest_block -ℤ confirmation_depth))

-- `start_block` and `end_block` are None together: an interval, or none.
pub record AaveForwardPlan : Type 0 where
  pub committed_block : ℤ
  pub safe_head : ℤ
  pub start_block : Option ℤ
  pub end_block : Option ℤ

abbrev pub is_noop : AaveForwardPlan → Bool
is_noop plan = elim plan.start_block [ none ↦ true | some _ ↦ false ]

abbrev pub no_interval : ℤ → ℤ → AaveForwardPlan
no_interval committed_block safe_head = record {
  committed_block = committed_block;
  safe_head = safe_head;
  start_block = none;
  end_block = none;
}

abbrev pub interval : ℤ → ℤ → ℤ → ℤ → AaveForwardPlan
interval committed_block safe_head start_block end_block = record {
  committed_block = committed_block;
  safe_head = safe_head;
  start_block = some start_block;
  end_block = some end_block;
}

unfoldable pub plan_forward_increment : ℤ → ℤ → ℤ → Result AaveForwardPlan
plan_forward_increment committed_block safe_head max_blocks = do
  raise_if (ltb_ℤ committed_block (pos 0) || ltb_ℤ safe_head (pos 0)) value_error
  raise_if (leb_ℤ max_blocks (pos 0)) value_error
  let start_block = committed_block +ℤ pos 1
  ok (
      if leb_ℤ safe_head committed_block
      then no_interval committed_block safe_head
      else interval committed_block safe_head start_block
          (min_ℤ safe_head (start_block +ℤ max_blocks -ℤ pos 1)))

-- The sort key `(item.start_block, item.end_block)`.
abbrev pub range_lt : CompletedBlockRange → CompletedBlockRange → Bool
range_lt a b =
    ltb_ℤ a.start_block b.start_block
    || (eqb_ℤ a.start_block b.start_block && ltb_ℤ a.end_block b.end_block)

-- The loop of `highest_contiguous_block` over the sorted ranges.
unfoldable pub contiguous_end_from : ℤ → ℤ → List CompletedBlockRange → ℤ
contiguous_end_from project_start contiguous_end [] = contiguous_end
contiguous_end_from project_start contiguous_end (item ∷ items) =
    let skipped = contiguous_end_from project_start contiguous_end items in
    let extended = contiguous_end_from project_start (max_ℤ contiguous_end item.end_block) items in
    if ltb_ℤ item.end_block project_start
    then skipped
    else if ltb_ℤ (contiguous_end +ℤ pos 1) item.start_block
    then contiguous_end
    else extended

unfoldable pub highest_contiguous_block : ℤ → List CompletedBlockRange → Result ℤ
highest_contiguous_block project_start_block completed_ranges = do
  raise_if (ltb_ℤ project_start_block (pos 0)) value_error
  ok (
      contiguous_end_from project_start_block (project_start_block -ℤ pos 1)
        (sorted range_lt completed_ranges))

unfoldable pub combined_aave_coverage :
    List CompletedBlockRange → List CompletedBlockRange → List CompletedBlockRange
combined_aave_coverage legacy_ranges forward_ranges = legacy_ranges ++ forward_ranges

pub record AaveBootstrapPlan : Type 0 where
  pub project_start_block : ℤ
  pub safe_end_block : ℤ
  pub next_range : Option CompletedBlockRange
  pub highest_contiguous_block : ℤ

abbrev pub is_complete : AaveBootstrapPlan → Bool
is_complete plan = leb_ℤ plan.safe_end_block plan.highest_contiguous_block

-- The next chunk after `contiguous_end`, if it does not reach the safe end.
unfoldable pub next_chunk : ℤ → ℤ → ℤ → Result (Option CompletedBlockRange)
unfolding completed_block_range
next_chunk contiguous_end safe_end_block chunk_size =
    let next_start = contiguous_end +ℤ pos 1 in
    if leb_ℤ safe_end_block contiguous_end
    then ok none
    else (completed_block_range next_start
          (min_ℤ safe_end_block (next_start +ℤ chunk_size -ℤ pos 1)) (codes "") none
        >>= λ r. ok (some r))

unfoldable pub plan_next_bootstrap_chunk :
    ℤ → ℤ → ℤ → List CompletedBlockRange → Result AaveBootstrapPlan
plan_next_bootstrap_chunk project_start_block safe_end_block chunk_size completed_ranges = do
  raise_if (ltb_ℤ safe_end_block project_start_block) value_error
  raise_if (leb_ℤ chunk_size (pos 0)) value_error
  contiguous_end ← highest_contiguous_block project_start_block completed_ranges
  next_range ← next_chunk contiguous_end safe_end_block chunk_size
  ok (record {
    project_start_block = project_start_block;
    safe_end_block = safe_end_block;
    next_range = next_range;
    highest_contiguous_block = contiguous_end;
  })

unfoldable pub eligible_bootstrap_watermark : ℤ → ℤ → List CompletedBlockRange → Result (Option ℤ)
eligible_bootstrap_watermark project_start_block safe_end_block completed_ranges = do
  contiguous_end ← highest_contiguous_block project_start_block completed_ranges
  ok (if leb_ℤ safe_end_block contiguous_end then some safe_end_block else none)

-- The effects that the pipelines call: source and Silver jobs, loads, checks. Each may change the
-- world `W` and may raise. `m` and then `k`, which sees its result.
abbrev pub and_then : {W A B : Type 0} → Exec W A → (A → Exec W B) → Exec W B
and_then m k w = let (r, w') = m w in elim r [ ok a ↦ k a w' | err e ↦ (err e, w') ]

-- `if plan.is_noop: return current`, then `assert plan.end_block is not None`, then the stages.
abbrev pub run_interval :
    {W : Type 0}
    → Option ℤ
    → Option ℤ
    → WatermarkState
    → (ℤ → Exec W WatermarkState)
    → Exec W WatermarkState
run_interval none end_block current stages w = (ok current, w)
run_interval (some _) none current stages w = (err assertion_error, w)
run_interval (some _) (some end_block) current stages w = stages end_block w

module _ {W T : Type 0} (store : WatermarkStore W) where
  -- `run_commit_last_pipeline`
  unfoldable pub run_commit_last_pipeline :
      (W → W)
      → WatermarkState
      → AaveForwardPlan
      → Text
      → (AaveForwardPlan → Exec W T)
      → (T → Exec W (Unit {0}))
      → Exec W (Unit {0})
      → Exec W (Unit {0})
      → Exec W WatermarkState
  run_commit_last_pipeline between current plan successful_run_id persist_source build_silver
        load_snowflake run_dbt_and_quality w =
      if not (eqb_ℤ plan.committed_block current.committed_value)
      then (err value_error, w)
      else run_interval plan.start_block plan.end_block current
          (λ end_block. and_then (persist_source plan) (λ source_result.
            and_then (build_silver source_result) (λ _. and_then load_snowflake (λ _.
              and_then run_dbt_and_quality (λ _.
                commit_watermark store between current.identity end_block successful_run_id true
                  ProcessingMode.forward)))))
          w
