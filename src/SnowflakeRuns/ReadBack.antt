-- ===== src/SnowflakeRuns/ReadBack.antt =====
-- A run that has started and ended is read back from PIPELINE_RUNS.
use real_time_blockchain_ana.Prelude.{
  ◌≡◌, refl, sym, ap, ◌∙◌, true, false, none, some, List, [], ◌∷◌, ok, arith, and_left, bind-eq-ok,
}
use real_time_blockchain_ana.Prelude.Lists.{length}
use real_time_blockchain_ana.Sql.{
  select_where, update_where, rows_where, select_where_sound, select_where-append,
  rows_where-length,
}
use real_time_blockchain_ana.Sql.Single.{OnlyRow, update-OnlyRow_hit, rows_where_hit}
use real_time_blockchain_ana.Runs.{
  is_running, RunIdentity, same_identity, run_metrics, PipelineRunRecord, pipeline_run_record,
  fresh_run,
}
use real_time_blockchain_ana.SnowflakeRuns.{
  DurationColumn, stored_duration, RunTable, has_key, is_open, start, set_end, finish,
  run_from_rows, get,
}
use real_time_blockchain_ana.SnowflakeRuns.Validity.{IsValid, valid_parts, end_checks-stored}

rows-none : (rows : List PipelineRunRecord) → run_from_rows rows ≡ ok none → rows ≡ []
rows-none [] h = refl
rows-none (x ∷ []) h =
    let (_, _, h1) = bind-eq-ok (run_metrics x.metrics) _ h in
    let (_, _, h2) = bind-eq-ok (pipeline_run_record x) _ h1 in cc
rows-none (x ∷ y ∷ rows) h = cc

same_identity_refl : (i : RunIdentity) → same_identity i i ≡ true
same_identity_refl i = ground arith

start-OnlyRow :
    (r : PipelineRunRecord) (t : RunTable)
    → is_running r.status ≡ true
    → select_where (has_key r.identity) t ≡ []
    → ((start r t).0 ≡ ok r)
      × OnlyRow (has_key r.identity) (fresh_run r.identity r.run_type r.started_at) (start r t).1
unfolding start select_where
start-OnlyRow r t open_ absent =
    let none : rows_where (has_key r.identity) t ≡ 0 =
      rows_where-length (has_key r.identity) t ∙ ap length absent in
    let new = fresh_run r.identity r.run_type r.started_at in
    (
      rw (open_, none) refl,
      rw
          (
            open_,
            none,
            select_where-append (has_key r.identity) t (new ∷ []),
            absent,
            same_identity_refl r.identity,
          )
          refl,
    )

is_open-row :
    (i : RunIdentity) (row : PipelineRunRecord)
    → has_key i row ≡ true
    → is_running row.status ≡ true
    → is_open i row ≡ true
is_open-row i row h k = ground arith

finish-row :
    (column : DurationColumn) (i : RunIdentity) (r row : PipelineRunRecord) (t : RunTable)
    → r.identity ≡ i
    → is_running r.status ≡ false
    → OnlyRow (has_key i) row t
    → is_running row.status ≡ true
    → finish column r t ≡ (ok r, update_where (is_open i) (set_end column r) t)
unfolding finish
finish-row column i r row t same over only open_ =
    let counted : rows_where (is_open i) t ≡ 1 =
      rows_where_hit (has_key i) (is_open i) (λ x h. and_left _ _ h) row t only
        (is_open-row i row (select_where_sound (has_key i) t only) open_) in
    rw (over, same, counted) refl

get-row :
    (i : RunIdentity) (row : PipelineRunRecord) (t : RunTable)
    → IsValid row
    → run_metrics row.metrics ≡ ok row.metrics
    → OnlyRow (has_key i) row t
    → get i t ≡ ok (some row)
unfolding get
get-row i row t v m only = rw (only, m, v) refl

-- The record with its duration as the column gives it back.
abbrev pub read_back : DurationColumn → PipelineRunRecord → PipelineRunRecord
read_back column r = record r { duration_seconds = stored_duration column r.duration_seconds }

read_back-IsValid :
    (column : DurationColumn) (r : PipelineRunRecord) → IsValid r → IsValid (read_back column r)
unfolding pipeline_run_record
read_back-IsValid column r h =
    rw
      (
        (valid_parts r h).0,
        end_checks-stored column r.status r.finished_at r.duration_seconds r.error_stage
            r.error_class (valid_parts r h).1,
      )
      refl

-- A run that starts where it has no row, and then ends, is read back as the terminal record, but
-- for the duration, which is read back as the duration column keeps it: where both are valid
-- records of the same run, the first RUNNING and the second not, with metrics that pass their
-- checks, both calls succeed, and `get` returns that record.
pub finish-get :
    (column : DurationColumn) (r terminal : PipelineRunRecord) (t : RunTable)
    → IsValid r
    → IsValid terminal
    → is_running r.status ≡ true
    → is_running terminal.status ≡ false
    → terminal.identity ≡ r.identity
    → terminal.run_type ≡ r.run_type
    → terminal.started_at ≡ r.started_at
    → run_metrics terminal.metrics ≡ ok terminal.metrics
    → get r.identity t ≡ ok none
    → ((start r t).0 ≡ ok r)
      × ((finish column terminal (start r t).1).0 ≡ ok terminal)
      × (get r.identity (finish column terminal (start r t).1).1
          ≡ ok (
              some (record terminal {
                duration_seconds = stored_duration column terminal.duration_seconds;
              })))
unfolding get
finish-get column r terminal t v w open_ over same_id same_type same_start metrics absent =
    let new = fresh_run r.identity r.run_type r.started_at in
    let (began, only) =
      start-OnlyRow r t open_ (rows-none (select_where (has_key r.identity) t) absent) in
    let closed = finish-row column r.identity terminal new (start r t).1 same_id over only refl in
    let row =
      update-OnlyRow_hit (has_key r.identity) (is_open r.identity) (set_end column terminal) new
        (start r t).1 (λ x. refl) only
        (is_open-row r.identity new (same_identity_refl r.identity) refl) in
    let whole : set_end column terminal new ≡ read_back column terminal = λ k.
      set_end column terminal (fresh_run (sym same_id k) (sym same_type k) (sym same_start k)) in
    (
      began,
      ap (λ x. x.0) closed,
      ap (λ x. get r.identity x.1) closed
          ∙ get-row r.identity (read_back column terminal)
              (update_where (is_open r.identity) (set_end column terminal) (start r t).1)
              (read_back-IsValid column terminal w) metrics (row ∙ ap (λ x. x ∷ []) whole),
    )
