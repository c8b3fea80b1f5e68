-- ===== src/SnowflakeWatermarks/Tests.antt =====
-- The watermark store, and the commits over it, at concrete inputs.
use real_time_blockchain_ana.Prelude.{
  ◌≡◌, refl, none, some, false, true, [], ◌∷◌, ok, arith, ℕ_discrete,
}
use real_time_blockchain_ana.Prelude.Int.{pos}
use real_time_blockchain_ana.Python.Text.{codes, strip, is_empty, Text-discrete, lstrip, is_space}
use real_time_blockchain_ana.Python.Time.{aware}
use real_time_blockchain_ana.Sql.{select_where}
use real_time_blockchain_ana.Watermark.{
  WatermarkIdentity, WatermarkState, forward, identity-discrete, commit_watermark,
}
use real_time_blockchain_ana.Watermark.Laws.{IsWatermarkStore}
use real_time_blockchain_ana.Watermark.Commit.{CommitOutcome, commit_watermark-CommitOutcome}
use real_time_blockchain_ana.Watermark.Progress.{commit_watermark_advances}
use real_time_blockchain_ana.SnowflakeWatermarks.{
  WatermarkTable, get, snowflake_watermark_store, state_of, set_progress,
}
use real_time_blockchain_ana.SnowflakeWatermarks.Contract.{snowflake-IsWatermarkStore}

abbrev aave : WatermarkIdentity
aave = record {
  pipeline_name = codes "aave";
  source_name = codes "v3";
  chain_id = pos 42161;
  watermark_type = codes "block";
}

abbrev uniswap : WatermarkIdentity
uniswap = record {
  pipeline_name = codes "uni";
  source_name = codes "v3";
  chain_id = pos 42161;
  watermark_type = codes "block";
}

abbrev aave_row : WatermarkState
aave_row = state_of aave (pos 100) (codes "r1") (aware 5)

abbrev watermarks : WatermarkTable
watermarks = aave_row ∷ []

abbrev overtaken : WatermarkTable
overtaken = set_progress (pos 120) (codes "r9") (aware 6) aave_row ∷ []

has_aave : get aave watermarks ≡ ok (some aave_row)
unfolding get select_where identity-discrete Text-discrete ℕ_discrete
has_aave = refl

has_overtaken :
    get aave overtaken ≡ ok (some (set_progress (pos 120) (codes "r9") (aware 6) aave_row))
unfolding get select_where identity-discrete Text-discrete ℕ_discrete
has_overtaken = refl

no_uniswap : get uniswap watermarks ≡ ok none
unfolding get select_where identity-discrete Text-discrete ℕ_discrete
no_uniswap = refl

run_named : is_empty (strip (codes "r2")) ≡ false
unfolding strip lstrip is_space
run_named = refl

snowflake-IsWatermarkStore_example : IsWatermarkStore (snowflake_watermark_store (aware 9))
snowflake-IsWatermarkStore_example = snowflake-IsWatermarkStore (aware 9)

-- Another run has moved the watermark before the write.
commit_watermark-CommitOutcome_example :
    CommitOutcome
      (snowflake_watermark_store (aware 9))
      (λ _. overtaken)
      aave
      (pos 150)
      (codes "r2")
      watermarks
      (commit_watermark
        (snowflake_watermark_store (aware 9))
        (λ _. overtaken)
        aave
        (pos 150)
        (codes "r2")
        true
        forward
        watermarks)
unfolding snowflake_watermark_store
commit_watermark-CommitOutcome_example =
    commit_watermark-CommitOutcome (snowflake_watermark_store (aware 9))
      (snowflake-IsWatermarkStore (aware 9)) (λ _. overtaken) aave (pos 150) (codes "r2") true
      forward watermarks _ has_overtaken

commit_watermark_advances_example :
    let (result, after) =
      commit_watermark
        (snowflake_watermark_store (aware 9))
        (λ t. t)
        aave
        (pos 150)
        (codes "r2")
        true
        forward
        watermarks in
    (w : WatermarkState) × (result ≡ ok w)
    × (w.committed_value ≡ pos 150)
    × (get aave after ≡ ok (some w))
unfolding snowflake_watermark_store
commit_watermark_advances_example =
    commit_watermark_advances (snowflake_watermark_store (aware 9))
      (snowflake-IsWatermarkStore (aware 9)) (λ t. t) aave (pos 150) (codes "r2") watermarks
      aave_row aave_row has_aave has_aave refl run_named (omega arith, omega arith)
      (omega arith, omega arith) (omega arith)
