-- ===== src/Watermark.antt =====
-- orchestration/watermark.py: the watermark contract and the service functions over a store. What
-- other writers commit between the read and the write of a service call is its argument `between`.
pub mod Laws
pub mod Commit
pub mod Progress
pub mod Atomic
use real_time_blockchain_ana.Prelude.{
  ℕ, ◌-◌, ◌^◌, Bool, true, false, not, ◌||◌, Option, none, some, Error, value_error,
  missing_watermark, already_initialized, regressive_watermark, commit_conflict, unsafe_commit,
  Result, ok, err, ◌>>=◌, ◌>>◌, raise_if, Exec, is_some, holds, ℕ_discrete,
}
use real_time_blockchain_ana.Prelude.Int.{ℤ, pos, ltb_ℤ, eqb_ℤ}
use real_time_blockchain_ana.Python.Text.{Text, Text-discrete, strip, is_empty}
use real_time_blockchain_ana.Python.Time.{DateTime}

abbrev pub max_watermark_value : ℤ
max_watermark_value = pos (10 ^ 38 - 1)

pub data ProcessingMode : Type 0 where
  forward backfill : ProcessingMode

pub record WatermarkIdentity : Type 0 where
  pub pipeline_name : Text
  pub source_name : Text
  pub chain_id : ℤ
  pub watermark_type : Text

unfoldable pub identity-discrete : Discrete WatermarkIdentity
identity-discrete = hlevel (ℕ_discrete, Text-discrete)

abbrev pub same_identity : WatermarkIdentity → WatermarkIdentity → Bool
same_identity a b = holds (identity-discrete a b)

-- `_validate_watermark_value`, of a value that is an integer by its type.
unfoldable pub validate_watermark_value : ℤ → Result ℤ
validate_watermark_value value = do
  raise_if (ltb_ℤ value (pos 0)) value_error
  raise_if (ltb_ℤ max_watermark_value value) value_error
  ok value

-- `WatermarkIdentity(...)` with its `__post_init__`.
pub watermark_identity : Text → Text → ℤ → Text → Result WatermarkIdentity
unfolding validate_watermark_value
watermark_identity pipeline_name source_name chain_id watermark_type = do
  raise_if (is_empty (strip pipeline_name)) value_error
  raise_if (is_empty (strip source_name)) value_error
  raise_if (is_empty (strip watermark_type)) value_error
  checked ← validate_watermark_value chain_id
  ok (record {
    pipeline_name = pipeline_name;
    source_name = source_name;
    chain_id = chain_id;
    watermark_type = watermark_type;
  })

pub record WatermarkState : Type 0 where
  pub identity : WatermarkIdentity
  pub committed_value : ℤ
  pub successful_run_id : Text
  pub updated_at : DateTime

-- The protocol `WatermarkStore`, over the states of the database.
pub record WatermarkStore (S : Type 0) : Type 0 where
  pub get : WatermarkIdentity → S → Result (Option WatermarkState)
  pub initialize : WatermarkIdentity → ℤ → Text → Exec S WatermarkState
  pub advance : WatermarkIdentity → ℤ → ℤ → Text → Exec S WatermarkState

-- `_validate_run_id`
unfoldable pub validate_run_id : Text → Result Text
validate_run_id run_id = do raise_if (is_empty (strip run_id)) value_error; ok (strip run_id)

-- Whether an advance is needed.
unfoldable pub validate_candidate : ℤ → ℤ → Result Bool
unfolding validate_watermark_value
validate_candidate current_value candidate_value = do
  current ← validate_watermark_value current_value
  candidate ← validate_watermark_value candidate_value
  raise_if (ltb_ℤ candidate_value current_value) regressive_watermark
  ok (ltb_ℤ current_value candidate_value)

-- What a commit has decided when it comes to write: to return the current state, or to advance from
-- a value under a stripped run id.
pub data Decision : Type 0 where
  keep : WatermarkState → Decision
  advance_from : ℤ → Text → Decision

abbrev pub present : Option WatermarkState → Result WatermarkState
present none = err missing_watermark
present (some current) = ok current

abbrev pub is_backfill : ProcessingMode → Bool
is_backfill forward = false
is_backfill backfill = true

abbrev pub decide_advance : WatermarkState → ℤ → Text → Bool → Decision
decide_advance current expected run_id true = advance_from expected run_id
decide_advance current expected run_id false = keep current

module _ {S : Type 0} (store : WatermarkStore S) where
  open store use {get, initialize, advance}

  unfoldable pub get_watermark : WatermarkIdentity → S → Result (Option WatermarkState)
  get_watermark identity s = get identity s

  -- The checks of `initialize_watermark` before its write: the run id to write.
  unfoldable pub initialize_decision : WatermarkIdentity → ℤ → Text → S → Result Text
  initialize_decision identity value successful_run_id s = do
    checked ← validate_watermark_value value
    run_id ← validate_run_id successful_run_id
    current ← get identity s
    raise_if (is_some current) already_initialized
    ok run_id

  unfoldable pub initialize_watermark :
      (S → S) → WatermarkIdentity → ℤ → Text → Exec S WatermarkState
  initialize_watermark between identity value successful_run_id s =
      elim (initialize_decision identity value successful_run_id s) [
        | err e ↦ (err e, s)
        | ok run_id ↦ initialize identity value run_id (between s)
      ]

  -- The checks of `commit_watermark` before its write.
  unfoldable pub commit_decision :
      WatermarkIdentity → ℤ → Text → Bool → ProcessingMode → S → Result Decision
  commit_decision identity candidate_value successful_run_id processing_succeeded processing_mode
        s =
      do
        raise_if (is_backfill processing_mode) unsafe_commit
        raise_if (not processing_succeeded) unsafe_commit
        found ← get identity s
        current ← present found
        run_id ← validate_run_id successful_run_id
        should_advance ← validate_candidate current.committed_value candidate_value
        ok (decide_advance current current.committed_value run_id should_advance)

  -- The checks of `commit_watermark_from_expected` before its write.
  unfoldable pub commit_from_expected_decision :
      WatermarkIdentity → ℤ → ℤ → Text → Bool → S → Result Decision
  commit_from_expected_decision identity expected_value candidate_value successful_run_id
        processing_succeeded s =
      do
        raise_if (not processing_succeeded) unsafe_commit
        found ← get identity s
        current ← present found
        raise_if (not (eqb_ℤ current.committed_value expected_value)) commit_conflict
        run_id ← validate_run_id successful_run_id
        should_advance ← validate_candidate expected_value candidate_value
        ok (decide_advance current expected_value run_id should_advance)

  -- The write that both commits end with.
  abbrev pub carry_out : (S → S) → WatermarkIdentity → ℤ → Result Decision → Exec S WatermarkState
  carry_out between identity candidate_value decision s = elim decision [
    | err e ↦ (err e, s)
    | ok (keep current) ↦ (ok current, s)
    | ok (advance_from expected run_id) ↦
        advance identity expected candidate_value run_id (between s)
  ]

  unfoldable pub commit_watermark :
      (S → S) → WatermarkIdentity → ℤ → Text → Bool → ProcessingMode → Exec S WatermarkState
  commit_watermark between identity candidate_value successful_run_id processing_succeeded
        processing_mode s =
      carry_out between identity candidate_value
        (commit_decision identity candidate_value successful_run_id processing_succeeded
          processing_mode s)
        s

  unfoldable pub commit_watermark_from_expected :
      (S → S) → WatermarkIdentity → ℤ → ℤ → Text → Bool → Exec S WatermarkState
  commit_watermark_from_expected between identity expected_value candidate_value successful_run_id
        processing_succeeded s =
      carry_out between identity candidate_value
        (commit_from_expected_decision identity expected_value candidate_value successful_run_id
          processing_succeeded s)
        s
