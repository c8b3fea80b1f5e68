-- ===== src/SnowflakeWatermarks.antt =====
-- warehouse/watermarks.py: `SnowflakeWatermarkStore`, on a table of watermark rows. A clock reading
-- is an argument of the store.
pub mod Contract
pub mod Many
mod Tests
use real_time_blockchain_ana.Prelude.{
  ℕ, Bool, true, false, ◌&&◌, Option, none, some, List, [], ◌∷◌, ◌++◌, Error, runtime_error,
  commit_conflict, Result, ok, err, Exec, ◌==◌, if◌then◌else◌,
}
use real_time_blockchain_ana.Prelude.Int.{ℤ, ltb_ℤ, eqb_ℤ}
use real_time_blockchain_ana.Python.Text.{Text}
use real_time_blockchain_ana.Python.Time.{DateTime}
use real_time_blockchain_ana.Sql.{select_where, update_where, rows_where}
use real_time_blockchain_ana.Watermark.{
  WatermarkIdentity, WatermarkState, WatermarkStore, same_identity,
}

-- The table PIPELINE_WATERMARKS: a row has the fields of `WatermarkState`.
abbrev pub WatermarkTable : Type 0
WatermarkTable = List WatermarkState

-- `WHERE pipeline_name = %s AND source_name = %s AND chain_id = %s AND watermark_type = %s`
abbrev pub has_key : WatermarkIdentity → WatermarkState → Bool
has_key identity row = same_identity row.identity identity

abbrev pub state_from_rows : List WatermarkState → Result (Option WatermarkState)
state_from_rows [] = ok none
state_from_rows (row ∷ []) = ok (some row)
state_from_rows (_ ∷ _ ∷ _) = err runtime_error

unfoldable pub get : WatermarkIdentity → WatermarkTable → Result (Option WatermarkState)
get identity table = state_from_rows (select_where (has_key identity) table)

abbrev pub state_of : WatermarkIdentity → ℤ → Text → DateTime → WatermarkState
state_of identity value run_id updated_at = record {
  identity = identity;
  committed_value = value;
  successful_run_id = run_id;
  updated_at = updated_at;
}

-- `INSERT ... SELECT ... WHERE NOT EXISTS (SELECT 1 ... )`: one row where no row has the key.
pub initialize : DateTime → WatermarkIdentity → ℤ → Text → Exec WatermarkTable WatermarkState
initialize updated_at identity value successful_run_id table =
    let state = state_of identity value successful_run_id updated_at in
    if rows_where (has_key identity) table == 0
    then (ok state, table ++ state ∷ [])
    else (err commit_conflict, table)

-- `... AND committed_value = %s AND committed_value < %s`
abbrev pub advanceable : WatermarkIdentity → ℤ → ℤ → WatermarkState → Bool
advanceable identity expected candidate row =
    has_key identity row
    && (eqb_ℤ row.committed_value expected && ltb_ℤ row.committed_value candidate)

abbrev pub set_progress : ℤ → Text → DateTime → WatermarkState → WatermarkState
set_progress candidate run_id updated_at row = record row {
  committed_value = candidate;
  successful_run_id = run_id;
  updated_at = updated_at;
}

-- The UPDATE counts for exactly one row, or the transaction is rolled back.
pub advance : DateTime → WatermarkIdentity → ℤ → ℤ → Text → Exec WatermarkTable WatermarkState
advance updated_at identity expected_value candidate_value successful_run_id table =
    let where_clause = advanceable identity expected_value candidate_value in
    if rows_where where_clause table == 1
    then (
      ok (state_of identity candidate_value successful_run_id updated_at),
      update_where where_clause (set_progress candidate_value successful_run_id updated_at) table,
    )
    else (err commit_conflict, table)

unfoldable pub snowflake_watermark_store : DateTime → WatermarkStore WatermarkTable
snowflake_watermark_store clock = record {
  get = get;
  initialize = initialize clock;
  advance = advance clock;
}
