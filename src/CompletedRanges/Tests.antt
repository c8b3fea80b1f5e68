-- ===== src/CompletedRanges/Tests.antt =====
-- The ledger at concrete inputs.
use real_time_blockchain_ana.Prelude.{
  ◌≡◌, refl, some, [], ◌∷◌, ok, err, conflicting_evidence, arith, ℕ_discrete,
}
use real_time_blockchain_ana.Prelude.Int.{ℤ, pos}
use real_time_blockchain_ana.Python.Text.{Text, codes, strip, lstrip, is_space, Text-discrete}
use real_time_blockchain_ana.Python.Time.{aware}
use real_time_blockchain_ana.Sql.{select_where}
use real_time_blockchain_ana.Watermark.{WatermarkIdentity, identity-discrete}
use real_time_blockchain_ana.AaveForward.{CompletedBlockRange, highest_contiguous_block}
use real_time_blockchain_ana.CompletedRanges.{
  CompletedRangeCoverage, summarize_completed_range_coverage,
}
use real_time_blockchain_ana.CompletedRanges.Sweep.Contiguous.{summarize-highest_contiguous_block}
use real_time_blockchain_ana.CompletedRanges.Ledger.{
  EvidenceTable, row_of, record_ranges, record_one, record_each, validate_each,
  validate_completed_range, matching_rows, assert_identical, datetime-discrete,
}
use real_time_blockchain_ana.CompletedRanges.Ledger.Batch.{BatchOutcome, record_ranges-BatchOutcome}

abbrev aave : WatermarkIdentity
aave = record {
  pipeline_name = codes "aave";
  source_name = codes "v3";
  chain_id = pos 42161;
  watermark_type = codes "block";
}

abbrev done : ℤ → ℤ → Text → CompletedBlockRange
done a b run = record {
  start_block = a;
  end_block = b;
  successful_run_id = run;
  completed_at = some (aware 5);
}

abbrev first : CompletedBlockRange
first = done (pos 10) (pos 20) (codes "r1")

abbrev second : CompletedBlockRange
second = done (pos 21) (pos 30) (codes "r2")

abbrev ledger : EvidenceTable
ledger = row_of aave first ∷ []

-- A retry that overlaps the earlier batch: the first range is already there.
record_retry :
    record_ranges aave (first ∷ second ∷ []) ledger
    ≡ (ok (first ∷ second ∷ []), row_of aave first ∷ row_of aave second ∷ [])
unfolding record_ranges record_each record_one validate_each validate_completed_range matching_rows
    assert_identical datetime-discrete select_where strip lstrip is_space identity-discrete
    Text-discrete ℕ_discrete
record_retry = refl

-- The second range is new, but the first conflicts: neither is recorded.
record_conflict :
    record_ranges aave (second ∷ done (pos 10) (pos 20) (codes "r3") ∷ []) ledger
    ≡ (err conflicting_evidence, ledger)
unfolding record_ranges record_each record_one validate_each validate_completed_range matching_rows
    assert_identical datetime-discrete select_where strip lstrip is_space identity-discrete
    Text-discrete ℕ_discrete
record_conflict = refl

record_ranges-BatchOutcome_example :
    BatchOutcome aave (first ∷ second ∷ []) ledger (record_ranges aave (first ∷ second ∷ []) ledger)
record_ranges-BatchOutcome_example = record_ranges-BatchOutcome aave (first ∷ second ∷ []) ledger

summarize-highest_contiguous_block_example :
    (c : CompletedRangeCoverage) × (summarize_completed_range_coverage
        (pos 10)
        (second ∷ first ∷ first ∷ [])
      ≡ ok c)
    × (highest_contiguous_block (pos 10) (second ∷ first ∷ first ∷ [])
        ≡ ok c.highest_contiguous_block)
summarize-highest_contiguous_block_example =
    summarize-highest_contiguous_block (pos 10) (second ∷ first ∷ first ∷ []) (omega arith)
