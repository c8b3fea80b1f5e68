-- ===== src/SnowflakeAlerts.antt =====
-- warehouse/alert_state.py: `SnowflakeAlertStore`, on a table of alert rows. A row has the fields
-- of `AlertRecord`: its columns have been decoded.
pub mod Contract
use real_time_blockchain_ana.Prelude.{
  ℕ, Bool, true, false, ◌&&◌, List, [], ◌∷◌, runtime_error, duplicate_alert_key, alert_concurrency,
  Result, ok, err, Exec, ◌==◌, if◌then◌else◌,
}
use real_time_blockchain_ana.Prelude.Int.{ℤ, eqb_ℤ}
use real_time_blockchain_ana.Python.Text.{Text, text_eq}
use real_time_blockchain_ana.Sql.{select_where, update_where, rows_where}
use real_time_blockchain_ana.Alerts.{AlertRecord, AlertStore, stored}

-- The table ALERT_STATE.
abbrev pub AlertTable : Type 0
AlertTable = List AlertRecord

-- `WHERE alert_key = %s`
abbrev pub has_key : Text → AlertRecord → Bool
has_key alert_key row = text_eq row.alert_key alert_key

abbrev pub record_from_rows : List AlertRecord → Result AlertRecord
record_from_rows [] = err runtime_error
record_from_rows (row ∷ []) = ok row
record_from_rows (_ ∷ _ ∷ _) = err duplicate_alert_key

unfoldable pub get : Text → AlertTable → Result AlertRecord
get alert_key table = record_from_rows (select_where (has_key alert_key) table)

-- `WHERE alert_key = %s AND state_version = %s`
abbrev pub at_version : Text → ℤ → AlertRecord → Bool
at_version alert_key expected_version row =
    has_key alert_key row && eqb_ℤ row.state_version expected_version

-- The statement is not rolled back where it counts for other than one row.
unfoldable pub compare_and_set : ℤ → AlertRecord → Exec AlertTable AlertRecord
compare_and_set expected_version candidate table =
    let where_clause = at_version candidate.alert_key expected_version in
    (
      (if rows_where where_clause table == 1 then ok candidate else err alert_concurrency),
      update_where where_clause (stored candidate) table,
    )

abbrev pub snowflake_alert_store : AlertStore AlertTable
snowflake_alert_store = record { get = get; compare_and_set = compare_and_set }
