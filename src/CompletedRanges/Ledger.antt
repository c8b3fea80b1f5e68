-- ===== src/CompletedRanges/Ledger.antt =====
-- warehouse/completed_ranges.py: the append-only ledger. A table is the list of its rows; the
-- statements of one transaction run on it alone, and a raise rolls all of them back.
pub mod Evidence
pub mod Batch
use real_time_blockchain_ana.Prelude.{
  ℕ, Option, none, some, is_some, Bool, true, false, not, ◌&&◌, ◌||◌, List, [], ◌∷◌, ◌++◌, map,
  value_error, duplicate_evidence, conflicting_evidence, Result, ok, err, ◌>>=◌, ◌>>◌, raise_if,
  Exec, if◌then◌else◌, ltb, holds, ℕ_discrete,
}
use real_time_blockchain_ana.Prelude.Int.{ℤ, eqb_ℤ, ltb_ℤ}
use real_time_blockchain_ana.Python.Text.{Text, text_eq, strip, is_empty}
use real_time_blockchain_ana.Python.Time.{DateTime, aware, naive}
use real_time_blockchain_ana.Python.Sort.{sorted}
use real_time_blockchain_ana.Sql.{select_where}
use real_time_blockchain_ana.Watermark.{WatermarkIdentity, same_identity}
use real_time_blockchain_ana.AaveForward.{CompletedBlockRange, completed_block_range}

-- A row of the table PIPELINE_COMPLETED_RANGES.
pub record EvidenceRow : Type 0 where
  pub identity : WatermarkIdentity
  pub evidence : CompletedBlockRange

abbrev pub EvidenceTable : Type 0
EvidenceTable = List EvidenceRow

unfoldable pub datetime-discrete : Discrete DateTime
datetime-discrete = hlevel ℕ_discrete

-- `==` of two datetimes: an aware and a naive one differ.
abbrev pub datetime_eq : DateTime → DateTime → Bool
datetime_eq a b = holds (datetime-discrete a b)

-- The order of a timestamp column, which holds one kind of datetime; NULL comes last.
abbrev pub datetime_lt : Option DateTime → Option DateTime → Bool
datetime_lt (some (aware a)) (some (aware b)) = ltb a b
datetime_lt (some (naive a)) (some (naive b)) = ltb a b
datetime_lt (some (naive _)) (some (aware _)) = true
datetime_lt (some _) none = true
datetime_lt _ _ = false

-- `isinstance(completed_at, datetime)`, and equal to that of the candidate.
abbrev pub same_time : Option DateTime → Option DateTime → Bool
same_time (some a) (some b) = datetime_eq a b
same_time _ _ = false

abbrev pub has_identity : WatermarkIdentity → EvidenceRow → Bool
has_identity identity row = same_identity row.identity identity

-- `ORDER BY start_block, end_block, completed_at`
abbrev pub evidence_lt : CompletedBlockRange → CompletedBlockRange → Bool
evidence_lt a b =
    ltb_ℤ a.start_block b.start_block
    || (eqb_ℤ a.start_block b.start_block
        && (ltb_ℤ a.end_block b.end_block
            || (eqb_ℤ a.end_block b.end_block && datetime_lt a.completed_at b.completed_at)))

-- Each row becomes a `CompletedBlockRange(...)`, which checks its values.
unfoldable pub build_each : List CompletedBlockRange → Result (List CompletedBlockRange)
build_each [] = ok []
build_each (row ∷ rows) = do
  built ← completed_block_range row.start_block row.end_block row.successful_run_id row.completed_at
  later ← build_each rows
  ok (built ∷ later)

unfoldable pub list_ranges : WatermarkIdentity → EvidenceTable → Result (List CompletedBlockRange)
list_ranges identity table =
    build_each
      (sorted evidence_lt (map (λ row. row.evidence) (select_where (has_identity identity) table)))

-- The WHERE clause of `_matching_rows`.
abbrev pub has_range : WatermarkIdentity → ℤ → ℤ → EvidenceRow → Bool
has_range identity start_block end_block row =
    has_identity identity row
    && (eqb_ℤ row.evidence.start_block start_block && eqb_ℤ row.evidence.end_block end_block)

-- `_matching_rows`
unfoldable pub matching_rows :
    WatermarkIdentity → CompletedBlockRange → EvidenceTable → List EvidenceRow
matching_rows identity completed_range table =
    select_where (has_range identity completed_range.start_block completed_range.end_block) table

-- `_assert_identical`
unfoldable pub assert_identical : CompletedBlockRange → CompletedBlockRange → Result (Unit {0})
assert_identical candidate existing =
    raise_if
      (not (text_eq existing.successful_run_id candidate.successful_run_id)
        || not (same_time existing.completed_at candidate.completed_at))
      conflicting_evidence

abbrev pub row_of : WatermarkIdentity → CompletedBlockRange → EvidenceRow
row_of identity completed_range = record { identity = identity; evidence = completed_range }

-- What the loop does with one range, after the rows that match it were read.
abbrev pub append_or_keep :
    WatermarkIdentity
    → CompletedBlockRange
    → EvidenceTable
    → List EvidenceRow
    → Result EvidenceTable
append_or_keep identity completed_range table [] =
    ok (table ++ row_of identity completed_range ∷ [])
append_or_keep identity completed_range table (existing ∷ []) = do
  assert_identical completed_range existing.evidence
  ok table
append_or_keep identity completed_range table (_ ∷ _ ∷ _) = err duplicate_evidence

unfoldable pub record_one :
    WatermarkIdentity → CompletedBlockRange → EvidenceTable → Result EvidenceTable
record_one identity completed_range table =
    append_or_keep identity completed_range table (matching_rows identity completed_range table)

unfoldable pub record_each :
    WatermarkIdentity → List CompletedBlockRange → EvidenceTable → Result EvidenceTable
record_each identity [] table = ok table
record_each identity (completed_range ∷ completed_ranges) table = do
  table' ← record_one identity completed_range table
  record_each identity completed_ranges table'

-- `_validate_completed_range`
unfoldable pub validate_completed_range : CompletedBlockRange → Result (Unit {0})
validate_completed_range completed_range = do
  raise_if (is_empty (strip completed_range.successful_run_id)) value_error
  raise_if (not (is_some completed_range.completed_at)) value_error

unfoldable pub validate_each : List CompletedBlockRange → Result (Unit {0})
validate_each [] = ok tt
validate_each (completed_range ∷ completed_ranges) = do
  validate_completed_range completed_range
  validate_each completed_ranges

-- COMMIT, or ROLLBACK and raise.
abbrev pub end_transaction :
    List CompletedBlockRange
    → EvidenceTable
    → Result EvidenceTable
    → Result (List CompletedBlockRange) × EvidenceTable
end_transaction completed_ranges table (ok table') = (ok completed_ranges, table')
end_transaction completed_ranges table (err e) = (err e, table)

unfoldable pub record_ranges :
    WatermarkIdentity → List CompletedBlockRange → Exec EvidenceTable (List CompletedBlockRange)
record_ranges identity [] table = (ok [], table)
record_ranges identity (first ∷ later) table =
    end_transaction (first ∷ later) table
      (validate_each (first ∷ later) >> record_each identity (first ∷ later) table)

unfoldable pub record_range :
    WatermarkIdentity → CompletedBlockRange → Exec EvidenceTable CompletedBlockRange
record_range identity completed_range table =
    let (result, table') = record_ranges identity (completed_range ∷ []) table in
    (result >>= (λ _. ok completed_range), table')
