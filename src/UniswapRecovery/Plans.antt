-- ===== src/UniswapRecovery/Plans.antt =====
-- The recovery plan of orchestration/uniswap_recovery.py.
use real_time_blockchain_ana.Prelude.{◌≡◌, refl, List, ok, ◌>>=◌, arith}
use real_time_blockchain_ana.Prelude.Int.{ℤ}
use real_time_blockchain_ana.AaveForward.{
  AaveForwardPlan, CompletedBlockRange, plan_forward_increment, eligible_bootstrap_watermark,
}
use real_time_blockchain_ana.UniswapRecovery.{
  UniswapRecoveryPlan, plan_recovery_increment, bootstrap_eligible_value,
}

abbrev pub as_recovery : AaveForwardPlan → UniswapRecoveryPlan
as_recovery plan = record {
  committed_block = plan.committed_block;
  safe_head = plan.safe_head;
  start_block = plan.start_block;
  end_block = plan.end_block;
}

-- The recovery of Uniswap plans as the forward pipeline of Aave does: on every input
-- `plan_recovery_increment` has the interval, or the error, of `plan_forward_increment`, and
-- `bootstrap_eligible_value` proposes what `eligible_bootstrap_watermark` proposes.
pub plan_recovery-plan_forward :
    (committed safe_head max_blocks start safe_end : ℤ) (ranges : List CompletedBlockRange)
    → (plan_recovery_increment committed safe_head max_blocks ≡ (
        plan_forward_increment committed safe_head max_blocks >>= (λ plan. ok (as_recovery plan))))
      × (bootstrap_eligible_value start safe_end ranges
          ≡ eligible_bootstrap_watermark start safe_end ranges)
unfolding plan_recovery_increment plan_forward_increment bootstrap_eligible_value
    eligible_bootstrap_watermark
plan_recovery-plan_forward committed safe_head max_blocks start safe_end ranges =
    (ground arith, refl)
