-- ===== src/UniswapRecovery.antt =====
-- orchestration/uniswap_recovery.py: the source contract that a run id carries, the recovery plan
-- and the commit-last pipeline.
pub mod SourceContract
pub mod Plans
mod Tests
use real_time_blockchain_ana.Prelude.{
  ℕ, ◌+◌, Bool, true, false, not, ◌&&◌, ◌||◌, Option, none, some, List, [], ◌∷◌, ◌++◌, map,
  value_error, source_contract_changed, Result, ok, err, ◌>>=◌, ◌>>◌, raise_if, Exec, if◌then◌else◌,
  leb, ◌==◌,
}
use real_time_blockchain_ana.Prelude.Int.{ℤ, pos, ◌+ℤ◌, ◌-ℤ◌, ltb_ℤ, leb_ℤ, eqb_ℤ, min_ℤ}
use real_time_blockchain_ana.Prelude.Lists.{length}
use real_time_blockchain_ana.Python.Text.{lower, Text, text_eq, codes, strip, is_empty}
use real_time_blockchain_ana.Watermark.{
  WatermarkIdentity, WatermarkState, WatermarkStore, same_identity, commit_watermark_from_expected,
}
use real_time_blockchain_ana.AaveForward.{
  CompletedBlockRange, highest_contiguous_block, and_then, run_interval,
}

-- No character that is not ASCII has a hexadecimal digit for its lower case, so what is accepted
-- below is the same as with the whole of `str.lower`.
unfoldable pub normalized : Text → Text
normalized fingerprint = lower (strip fingerprint)

-- `character in "0123456789abcdef"`
abbrev pub is_hex : ℕ → Bool
is_hex c = (leb 48 c && leb c 57) || (leb 97 c && leb c 102)

unfoldable pub any_not_hex : Text → Bool
any_not_hex [] = false
any_not_hex (c ∷ s) = not (is_hex c) || any_not_hex s

-- What stands after the run id, for a version and a fingerprint that were normalized.
abbrev pub contract_suffix : Text → Text → Text
contract_suffix contract_version fingerprint =
    codes "|uniswap_source_contract=" ++ contract_version ++ codes ":" ++ fingerprint

-- The two guards of `source_contract_run_id`.
unfoldable pub check_fingerprint : Text → Result (Unit {0})
check_fingerprint fingerprint =
    raise_if (not (length fingerprint == 64) || any_not_hex fingerprint) value_error

unfoldable pub check_tags : Text → Text → Result (Unit {0})
check_tags run_id contract_version =
    raise_if (is_empty (strip run_id) || is_empty (strip contract_version)) value_error

unfoldable pub source_contract_run_id : Text → Text → Text → Result Text
source_contract_run_id run_id fingerprint contract_version = do
  check_fingerprint (normalized fingerprint)
  check_tags run_id contract_version
  ok (strip run_id ++ contract_suffix (strip contract_version) (normalized fingerprint))

-- What is left of a text after a prefix that it has.
abbrev pub after_prefix : Text → Text → Option Text
after_prefix [] s = some s
after_prefix (c ∷ p) [] = none
after_prefix (c ∷ p) (d ∷ s) = let rest = after_prefix p s in if c == d then rest else none

-- `str.removeprefix`
abbrev pub remove_prefix : Text → Text → Text
remove_prefix p s = elim (after_prefix p s) [ none ↦ s | some rest ↦ rest ]

-- `str.endswith`
unfoldable pub ends_with : Text → Text → Bool
ends_with [] suffix = text_eq [] suffix
ends_with (c ∷ s) suffix = text_eq (c ∷ s) suffix || ends_with s suffix

unfoldable pub assert_source_contract_matches : WatermarkState → Text → Text → Result (Unit {0})
assert_source_contract_matches state fingerprint contract_version = do
  tagged ← source_contract_run_id (codes "accepted") fingerprint contract_version
  raise_if (not (ends_with state.successful_run_id (remove_prefix (codes "accepted") tagged)))
      source_contract_changed

pub record UniswapRecoveryPlan : Type 0 where
  pub committed_block : ℤ
  pub safe_head : ℤ
  pub start_block : Option ℤ
  pub end_block : Option ℤ

unfoldable pub plan_recovery_increment : ℤ → ℤ → ℤ → Result UniswapRecoveryPlan
plan_recovery_increment committed_block safe_head max_blocks = do
  raise_if (ltb_ℤ committed_block (pos 0) || ltb_ℤ safe_head (pos 0)) value_error
  raise_if (leb_ℤ max_blocks (pos 0)) value_error
  let start_block = committed_block +ℤ pos 1
  ok (
      if leb_ℤ safe_head committed_block
      then record {
        committed_block = committed_block;
        safe_head = safe_head;
        start_block = none;
        end_block = none;
      }
      else record {
        committed_block = committed_block;
        safe_head = safe_head;
        start_block = some start_block;
        end_block = some (min_ℤ safe_head (start_block +ℤ max_blocks -ℤ pos 1));
      })

unfoldable pub bootstrap_eligible_value : ℤ → ℤ → List CompletedBlockRange → Result (Option ℤ)
bootstrap_eligible_value project_start_block frozen_safe_block completed_ranges = do
  contiguous ← highest_contiguous_block project_start_block completed_ranges
  ok (if leb_ℤ frozen_safe_block contiguous then some frozen_safe_block else none)

abbrev pub uniswap_forward_watermark : WatermarkIdentity
uniswap_forward_watermark = record {
  pipeline_name = codes "uniswap_forward";
  source_name = codes "uniswap_v3_pools";
  chain_id = pos 42161;
  watermark_type = codes "block_number";
}

abbrev pub recovery_contract_version : Text
recovery_contract_version = codes "v1"

-- A call that does not touch the world.
abbrev pub lift : {W A : Type 0} → Result A → Exec W A
lift r w = (r, w)

-- The guards before the first stage.
unfoldable pub check_recovery : WatermarkState → UniswapRecoveryPlan → Text → Result (Unit {0})
check_recovery current plan contract_fingerprint = do
  raise_if (not (same_identity current.identity uniswap_forward_watermark)) value_error
  assert_source_contract_matches current contract_fingerprint recovery_contract_version
  raise_if (not (eqb_ℤ current.committed_value plan.committed_block)) value_error

module _ {W : Type 0} (store : WatermarkStore W) where
  unfoldable pub commit_recovery :
      (W → W) → UniswapRecoveryPlan → ℤ → Text → Text → Exec W WatermarkState
  commit_recovery between plan end_block successful_run_id contract_fingerprint =
      and_then
        (lift
          (source_contract_run_id successful_run_id contract_fingerprint recovery_contract_version))
        (λ run_id.
          commit_watermark_from_expected store between uniswap_forward_watermark
            plan.committed_block end_block run_id true)

module _ {W T : Type 0} (store : WatermarkStore W) where
  unfoldable pub run_commit_last_pipeline :
      (W → W)
      → WatermarkState
      → UniswapRecoveryPlan
      → Text
      → Text
      → (UniswapRecoveryPlan → Exec W T)
      → (T → Exec W (Unit {0}))
      → Exec W (Unit {0})
      → Exec W (Unit {0})
      → Exec W WatermarkState
  run_commit_last_pipeline between current plan successful_run_id contract_fingerprint
        persist_source build_silver load_snowflake run_dbt_and_quality =
      and_then (lift (check_recovery current plan contract_fingerprint)) (λ _.
        run_interval plan.start_block plan.end_block current (λ end_block.
          and_then (persist_source plan) (λ source_result.
            and_then (build_silver source_result) (λ _. and_then load_snowflake (λ _.
              and_then run_dbt_and_quality (λ _.
                commit_recovery store between plan end_block successful_run_id
                  contract_fingerprint))))))
