-- ===== src/Watermark/Atomic.antt =====
-- orchestration/watermark.py: sets of related watermarks that are committed together. A mapping is
-- the list of its items, in its order of iteration.
pub mod Commit
use real_time_blockchain_ana.Prelude.{
  Bool, true, false, not, ◌&&◌, ◌||◌, List, [], ◌∷◌, map, value_error, key_error,
  already_initialized, unsafe_commit, Result, ok, err, ◌>>=◌, ◌>>◌, raise_if, Exec, is_some,
  if◌then◌else◌,
}
use real_time_blockchain_ana.Prelude.Int.{ℤ, pos, ltb_ℤ, eqb_ℤ}
use real_time_blockchain_ana.Python.Text.{Text, text_eq, text_lt, codes, strip, is_empty, lower}
use real_time_blockchain_ana.Python.Sort.{sorted}
use real_time_blockchain_ana.Watermark.{
  WatermarkIdentity, WatermarkState, WatermarkStore, ProcessingMode, same_identity, is_backfill,
  validate_watermark_value, validate_run_id, validate_candidate,
}

-- `_identity_sort_key(a) < _identity_sort_key(b)`
unfoldable pub identity_lt : WatermarkIdentity → WatermarkIdentity → Bool
identity_lt a b =
    text_lt a.pipeline_name b.pipeline_name
    || (text_eq a.pipeline_name b.pipeline_name
        && (text_lt a.source_name b.source_name
            || (text_eq a.source_name b.source_name
                && (ltb_ℤ a.chain_id b.chain_id
                    || (eqb_ℤ a.chain_id b.chain_id
                        && text_lt a.watermark_type b.watermark_type)))))

-- `Mapping[WatermarkIdentity, T]`
abbrev pub IdentityMap : Type 0 → Type 0
IdentityMap T = List (WatermarkIdentity × T)

module _ {T : Type 0} where
  abbrev pub keys : IdentityMap T → List WatermarkIdentity
  keys items = map (λ item. item.0) items

  abbrev pub item_lt : (WatermarkIdentity × T) → (WatermarkIdentity × T) → Bool
  item_lt a b = identity_lt a.0 b.0

  -- `not values`
  abbrev pub no_items : IdentityMap T → Bool
  no_items [] = true
  no_items (_ ∷ _) = false

  -- `values[identity]`
  unfoldable pub lookup : IdentityMap T → WatermarkIdentity → Result T
  lookup [] identity = err key_error
  lookup ((key, value) ∷ items) identity =
      let rest = lookup items identity in if same_identity key identity then ok value else rest

abbrev pub member : WatermarkIdentity → List WatermarkIdentity → Bool
member identity [] = false
member identity (key ∷ rest) = same_identity key identity || member identity rest

abbrev pub subset : List WatermarkIdentity → List WatermarkIdentity → Bool
subset [] other = true
subset (key ∷ rest) other = member key other && subset rest other

-- `set(a) == set(b)`
abbrev pub same_keys : List WatermarkIdentity → List WatermarkIdentity → Bool
same_keys a b = subset a b && subset b a

-- The protocol `AtomicWatermarkStore`.
pub record AtomicWatermarkStore (S : Type 0) : Type 0 where
  pub single : WatermarkStore S
  pub initialize_many : IdentityMap ℤ → Text → Exec S (List WatermarkState)
  pub advance_many : IdentityMap ℤ → IdentityMap ℤ → Text → Exec S (List WatermarkState)

-- `chainlink_feed_watermark`; ARBITRUM_CHAIN_ID is 42161.
unfoldable pub chainlink_feed_watermark : Text → Result WatermarkIdentity
chainlink_feed_watermark feed_address =
    let normalized = lower (strip feed_address) in
    do
      raise_if (is_empty normalized) value_error
      ok (record {
        pipeline_name = codes "chainlink_forward";
        source_name = normalized;
        chain_id = pos 42161;
        watermark_type = codes "round_id";
      })

-- The loop over the values of `initialize_watermarks_atomically`.
unfoldable pub validate_values : IdentityMap ℤ → Result (Unit {0})
validate_values [] = ok tt
validate_values ((_, value) ∷ items) = do
  checked ← validate_watermark_value value
  validate_values items

-- `expected_values`, after the checks of each current state and its candidate.
unfoldable pub expected_items : IdentityMap WatermarkState → IdentityMap ℤ → Result (IdentityMap ℤ)
expected_items [] candidate_values = ok []
expected_items ((identity, current) ∷ items) candidate_values = do
  raise_if (not (same_identity current.identity identity)) value_error
  candidate ← lookup candidate_values identity
  changed ← validate_candidate current.committed_value candidate
  rest ← expected_items items candidate_values
  ok ((identity, current.committed_value) ∷ rest)

-- `all(candidate_values[identity] == expected for ...)`; each lookup has succeeded before.
unfoldable pub all_reached : IdentityMap ℤ → IdentityMap ℤ → Result Bool
all_reached [] candidate_values = ok true
all_reached ((identity, expected) ∷ items) candidate_values = do
  candidate ← lookup candidate_values identity
  rest ← all_reached items candidate_values
  ok (eqb_ℤ candidate expected && rest)

-- What has been decided when `commit_watermarks_atomically` comes to write: to return the current
-- states, in the order of their keys, or to advance from the expected values under a run id.
pub data AtomicDecision : Type 0 where
  keep_all : List WatermarkState → AtomicDecision
  advance_all : IdentityMap ℤ → Text → AtomicDecision

module _ {S : Type 0} (store : AtomicWatermarkStore S) where
  open store use {single, initialize_many, advance_many}

  -- `[identity for identity in values if store.get(identity)]` is not empty.
  unfoldable pub any_initialized : List WatermarkIdentity → S → Result Bool
  any_initialized [] s = ok false
  any_initialized (identity ∷ rest) s = do
    found ← single.get identity s
    later ← any_initialized rest s
    ok (is_some found || later)

  unfoldable pub initialize_many_decision : IdentityMap ℤ → Text → S → Result Text
  initialize_many_decision values successful_run_id s = do
    raise_if (no_items values) value_error
    _ ← validate_values values
    run_id ← validate_run_id successful_run_id
    initialized ← any_initialized (keys values) s
    raise_if initialized already_initialized
    ok run_id

  unfoldable pub initialize_watermarks_atomically :
      (S → S) → IdentityMap ℤ → Text → Exec S (List WatermarkState)
  initialize_watermarks_atomically between values successful_run_id s =
      elim (initialize_many_decision values successful_run_id s) [
        | err e ↦ (err e, s)
        | ok run_id ↦ initialize_many values run_id (between s)
      ]

  -- The states of the keys in their order.
  unfoldable pub states_of : IdentityMap WatermarkState → List WatermarkState
  states_of current_states = map (λ item. item.1) (sorted item_lt current_states)

  abbrev pub decide_all : IdentityMap WatermarkState → IdentityMap ℤ → Text → Bool → AtomicDecision
  decide_all current_states expected_values run_id true = keep_all (states_of current_states)
  decide_all current_states expected_values run_id false = advance_all expected_values run_id

  -- The checks of `commit_watermarks_atomically` before its write.
  unfoldable pub commit_all_decision :
      IdentityMap WatermarkState
      → IdentityMap ℤ
      → Text
      → Bool
      → ProcessingMode
      → Result AtomicDecision
  commit_all_decision current_states candidate_values successful_run_id processing_succeeded
        processing_mode =
      do
        raise_if (is_backfill processing_mode) unsafe_commit
        raise_if (not processing_succeeded) unsafe_commit
        raise_if
            (no_items current_states
              || not (same_keys (keys current_states) (keys candidate_values)))
            value_error
        run_id ← validate_run_id successful_run_id
        expected_values ← expected_items current_states candidate_values
        reached ← all_reached expected_values candidate_values
        ok (decide_all current_states expected_values run_id reached)

  unfoldable pub commit_watermarks_atomically :
      (S → S)
      → IdentityMap WatermarkState
      → IdentityMap ℤ
      → Text
      → Bool
      → ProcessingMode
      → Exec S (List WatermarkState)
  commit_watermarks_atomically between current_states candidate_values successful_run_id
        processing_succeeded processing_mode s =
      elim (commit_all_decision current_states candidate_values successful_run_id
        processing_succeeded processing_mode) [
          | err e ↦ (err e, s)
          | ok (keep_all states) ↦ (ok states, s)
          | ok (advance_all expected_values run_id) ↦
              advance_many expected_values candidate_values run_id (between s)
        ]
