-- ===== src/CompletedRanges.antt =====
-- warehouse/completed_ranges.py: coverage diagnostics, and the append-only ledger of completed
-- ranges with its atomic batches.
pub mod Sweep
pub mod Ledger
mod Tests
use real_time_blockchain_ana.Prelude.{
  ℕ, suc, ◌+◌, Bool, true, false, not, ◌&&◌, ◌||◌, Option, none, some, List, [], ◌∷◌, ◌++◌, map,
  Error, value_error, duplicate_evidence, conflicting_evidence, Result, ok, err, ◌>>=◌, ◌>>◌,
  raise_if, Exec, if◌then◌else◌, ltb, holds, ℕ_discrete,
}
use real_time_blockchain_ana.Prelude.Int.{ℤ, pos, ◌+ℤ◌, ◌-ℤ◌, ltb_ℤ, leb_ℤ, eqb_ℤ, max_ℤ}
use real_time_blockchain_ana.Prelude.Lists.{length}
use real_time_blockchain_ana.Python.Text.{Text, text_eq, strip, is_empty}
use real_time_blockchain_ana.Python.Time.{DateTime, aware, naive}
use real_time_blockchain_ana.Python.Sort.{sorted}
use real_time_blockchain_ana.Sql.{select_where}
use real_time_blockchain_ana.Watermark.{WatermarkIdentity, same_identity}
use real_time_blockchain_ana.AaveForward.{CompletedBlockRange}

-- The key `(item.start_block, item.end_block)`.
pub record Interval : Type 0 where
  pub first : ℤ
  pub last : ℤ

abbrev pub interval_of : CompletedBlockRange → Interval
interval_of r = record { first = r.start_block; last = r.end_block }

abbrev pub same_interval : Interval → Interval → Bool
same_interval a b = eqb_ℤ a.first b.first && eqb_ℤ a.last b.last

abbrev pub interval_lt : Interval → Interval → Bool
interval_lt a b = ltb_ℤ a.first b.first || (eqb_ℤ a.first b.first && ltb_ℤ a.last b.last)

-- `counts[key] = counts.get(key, 0) + 1`, on a dict in insertion order.
unfoldable pub count_key : Interval → List (Interval × ℕ) → List (Interval × ℕ)
count_key key [] = (key, 1) ∷ []
count_key key ((k, n) ∷ counts) =
    let rest = count_key key counts in
    if same_interval k key then (k, n + 1) ∷ counts else (k, n) ∷ rest

unfoldable pub count_from : List (Interval × ℕ) → List CompletedBlockRange → List (Interval × ℕ)
count_from counts [] = counts
count_from counts (item ∷ items) = count_from (count_key (interval_of item) counts) items

abbrev pub keys : List (Interval × ℕ) → List Interval
keys [] = []
keys ((k, _) ∷ counts) = k ∷ keys counts

-- `sum(count > 1 for count in counts.values())`
unfoldable pub duplicates : List (Interval × ℕ) → ℕ
duplicates [] = 0
duplicates ((_, n) ∷ counts) = (if ltb 1 n then 1 else 0) + duplicates counts

-- The variables of the loop over the intervals.
pub record SweepState : Type 0 where
  pub contiguous_end : ℤ
  pub gaps : List Interval
  pub merged_end : ℤ

unfoldable pub sweep_step : ℤ → SweepState → Interval → SweepState
sweep_step start s item =
    let effective_start = max_ℤ item.first start in
    if ltb_ℤ item.last start then s else record {
      contiguous_end =
          if leb_ℤ effective_start (s.contiguous_end +ℤ pos 1)
          then max_ℤ s.contiguous_end item.last
          else s.contiguous_end;
      gaps =
          if ltb_ℤ (s.merged_end +ℤ pos 1) effective_start
          then s.gaps
            ++ record { first = s.merged_end +ℤ pos 1; last = effective_start -ℤ pos 1 } ∷ []
          else s.gaps;
      merged_end = max_ℤ s.merged_end item.last;
    }

unfoldable pub sweep : ℤ → SweepState → List Interval → SweepState
sweep start s [] = s
sweep start s (item ∷ items) = sweep start (sweep_step start s item) items

pub record CompletedRangeCoverage : Type 0 where
  pub physical_rows : ℕ
  pub logical_ranges : ℕ
  pub duplicate_groups : ℕ
  pub highest_contiguous_block : ℤ
  pub gaps : List Interval

abbrev pub sweep_start : ℤ → SweepState
sweep_start start = record {
  contiguous_end = start -ℤ pos 1;
  gaps = [];
  merged_end = start -ℤ pos 1;
}

unfoldable pub summarize_completed_range_coverage :
    ℤ → List CompletedBlockRange → Result CompletedRangeCoverage
summarize_completed_range_coverage project_start_block completed_ranges = do
  raise_if (ltb_ℤ project_start_block (pos 0)) value_error
  let counts = count_from [] completed_ranges
  let swept =
      sweep project_start_block (sweep_start project_start_block) (sorted interval_lt (keys counts))
  ok (record {
    physical_rows = length completed_ranges;
    logical_ranges = length counts;
    duplicate_groups = duplicates counts;
    highest_contiguous_block = swept.contiguous_end;
    gaps = swept.gaps;
  })
