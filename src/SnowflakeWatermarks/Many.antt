-- ===== src/SnowflakeWatermarks/Many.antt =====
-- warehouse/watermarks.py: `initialize_many` and `advance_many`, one transaction over several keys.
-- A transaction that raises is rolled back: the table is as it would be without it. A statement
-- sees what other sessions have committed before it. From the first UPDATE to the end of a
-- transaction the table is locked, so that none of their commits falls in there.
pub mod Row
pub mod Changes
pub mod AllOrNothing
pub mod Contract
mod Tests
use real_time_blockchain_ana.Prelude.{
  ℕ, Bool, true, false, not, ◌&&◌, ◌||◌, List, [], ◌∷◌, ◌++◌, value_error, commit_conflict, Result,
  ok, err, ◌>>=◌, ◌>>◌, raise_if, Exec, ◌==◌, if◌then◌else◌,
}
use real_time_blockchain_ana.Prelude.Int.{ℤ, eqb_ℤ, leb_ℤ}
use real_time_blockchain_ana.Python.Text.{Text}
use real_time_blockchain_ana.Python.Time.{DateTime}
use real_time_blockchain_ana.Python.Sort.{sorted}
use real_time_blockchain_ana.Sql.{select_where, update_where, rows_where}
use real_time_blockchain_ana.Watermark.{WatermarkIdentity, WatermarkState}
use real_time_blockchain_ana.Watermark.Atomic.{
  IdentityMap, keys, item_lt, lookup, same_keys, AtomicWatermarkStore,
}
use real_time_blockchain_ana.SnowflakeWatermarks.{
  WatermarkTable, has_key, state_of, set_progress, snowflake_watermark_store,
}

-- What other sessions have made of a table by the time of a statement of `advance_many`: of the
-- SELECT of each key, and of the first UPDATE, or of the end where it has none.
pub record OtherSessions : Type 0 where
  pub at_select : WatermarkIdentity → WatermarkTable → WatermarkTable
  pub at_update : WatermarkTable → WatermarkTable

abbrev pub no_others : OtherSessions
no_others = record { at_select = λ identity table. table; at_update = λ table. table }

-- COMMIT, or after a raise ROLLBACK, of the transaction on what is otherwise `table`.
abbrev pub close_transaction :
    {A : Type 0} → WatermarkTable → Result (WatermarkTable × A) → Result A × WatermarkTable
close_transaction table (ok (after, result)) = (ok result, after)
close_transaction table (err e) = (err e, table)

-- `len(rows) != 1 or int(rows[0][0]) != expected`
abbrev pub prior_row : ℤ → List WatermarkState → Result WatermarkState
prior_row expected [] = err commit_conflict
prior_row expected (row ∷ []) =
    if eqb_ℤ row.committed_value expected then ok row else err commit_conflict
prior_row expected (_ ∷ _ ∷ _) = err commit_conflict

-- The first loop: `prior`, of the tables that the SELECTs of the keys see.
unfoldable pub read_prior :
    (WatermarkIdentity → WatermarkTable) → IdentityMap ℤ → Result (IdentityMap WatermarkState)
read_prior seen [] = ok []
read_prior seen ((identity, expected) ∷ items) = do
  row ← prior_row expected (select_where (has_key identity) (seen identity))
  rest ← read_prior seen items
  ok ((identity, row) ∷ rest)

-- `... AND committed_value = %s AND committed_value <= %s`
abbrev pub reachable : WatermarkIdentity → ℤ → ℤ → WatermarkState → Bool
reachable identity expected candidate row =
    has_key identity row
    && (eqb_ℤ row.committed_value expected && leb_ℤ row.committed_value candidate)

module _ (updated_at : DateTime) (successful_run_id : Text) where
  -- One turn of the second loop: nothing for an equal candidate, and else an UPDATE of one row.
  unfoldable pub update_row : WatermarkIdentity → ℤ → ℤ → WatermarkTable → Result WatermarkTable
  update_row identity expected candidate table =
      let where_clause = reachable identity expected candidate in
      if eqb_ℤ candidate expected
      then ok table
      else if rows_where where_clause table == 1
      then ok
          (update_where where_clause (set_progress candidate successful_run_id updated_at) table)
      else err commit_conflict

  unfoldable pub update_rows :
      IdentityMap ℤ → IdentityMap ℤ → WatermarkTable → Result WatermarkTable
  update_rows candidate_values [] table = ok table
  update_rows candidate_values ((identity, expected) ∷ items) table = do
    candidate ← lookup candidate_values identity
    after ← update_row identity expected candidate table
    update_rows candidate_values items after

  -- One entry of the result: the new state where the value has changed, and else the prior one.
  abbrev pub result_state :
      IdentityMap WatermarkState → WatermarkIdentity → ℤ → ℤ → Result WatermarkState
  result_state prior identity expected candidate =
      if eqb_ℤ candidate expected
      then (lookup prior identity >>= λ p.
          ok (state_of identity p.committed_value p.successful_run_id p.updated_at))
      else ok (state_of identity candidate successful_run_id updated_at)

  unfoldable pub result_states :
      IdentityMap ℤ → IdentityMap WatermarkState → IdentityMap ℤ → Result (List WatermarkState)
  result_states candidate_values prior [] = ok []
  result_states candidate_values prior ((identity, expected) ∷ items) = do
    candidate ← lookup candidate_values identity
    state ← result_state prior identity expected candidate
    rest ← result_states candidate_values prior items
    ok (state ∷ rest)

  -- What `advance_many` sends and returns, over the sorted items of `expected_values`.
  unfoldable pub advance_statements :
      OtherSessions
      → IdentityMap ℤ
      → IdentityMap ℤ
      → WatermarkTable
      → Result (WatermarkTable × List WatermarkState)
  advance_statements others candidate_values ordered table = do
    prior ← read_prior (λ identity. others.at_select identity table) ordered
    after ← update_rows candidate_values ordered (others.at_update table)
    states ← result_states candidate_values prior ordered
    ok (after, states)

  unfoldable pub insert_rows :
      IdentityMap ℤ → WatermarkTable → Result (WatermarkTable × List WatermarkState)
  insert_rows [] table = ok (table, [])
  insert_rows ((identity, value) ∷ items) table =
      let state = state_of identity value successful_run_id updated_at in
      do
        raise_if (not (rows_where (has_key identity) table == 0)) commit_conflict
        inserted ← insert_rows items (table ++ state ∷ [])
        ok (inserted.0, state ∷ inserted.1)

  unfoldable pub initialize_many : IdentityMap ℤ → Exec WatermarkTable (List WatermarkState)
  initialize_many values table = close_transaction table (insert_rows (sorted item_lt values) table)

  unfoldable pub advance_many :
      OtherSessions → IdentityMap ℤ → IdentityMap ℤ → Exec WatermarkTable (List WatermarkState)
  advance_many others expected_values candidate_values table =
      if same_keys (keys expected_values) (keys candidate_values)
      then close_transaction (others.at_update table)
          (advance_statements others candidate_values (sorted item_lt expected_values) table)
      else (err value_error, table)

unfoldable pub snowflake_atomic_store :
    DateTime → OtherSessions → AtomicWatermarkStore WatermarkTable
snowflake_atomic_store clock others = record {
  single = snowflake_watermark_store clock;
  initialize_many = λ values run. initialize_many clock run values;
  advance_many = λ expected candidates run. advance_many clock run others expected candidates;
}
