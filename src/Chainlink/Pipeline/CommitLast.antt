-- ===== src/Chainlink/Pipeline/CommitLast.antt =====
-- The commit-last pipeline of orchestration/chainlink_forward.py.
use real_time_blockchain_ana.Prelude.{
  ◌≡◌, refl, ap, ◌∙◌, ◌⊎◌, inl, inr, true, List, Result, ok, Exec, Bool-cases,
}
use real_time_blockchain_ana.Prelude.Int.{ℤ}
use real_time_blockchain_ana.Prelude.Lists.{All}
use real_time_blockchain_ana.Python.Text.{Text}
use real_time_blockchain_ana.Watermark.{WatermarkIdentity, WatermarkState, ProcessingMode}
use real_time_blockchain_ana.Watermark.Atomic.{
  IdentityMap, AtomicWatermarkStore, commit_watermarks_atomically,
}
use real_time_blockchain_ana.Watermark.Atomic.Commit.{
  Distinct, values_of, Advanced, IsAtomicWatermarkStore, commit_watermarks-AtomicOutcome,
}
use real_time_blockchain_ana.AaveForward.{and_then}
use real_time_blockchain_ana.AaveForward.Pipeline.{and_then_rule, AllStages}
use real_time_blockchain_ana.Chainlink.Pipeline.{
  ChainlinkForwardPlan, is_noop, candidates, value_of, run_commit_last_pipeline,
}

module _ {W : Type 0} (store : AtomicWatermarkStore W) where
  open store use {single}

  -- All watermarks are in `after` as they are in `w`.
  abbrev pub AllKept : W → W → Type 0
  AllKept w after = (i : WatermarkIdentity) → single.get i after ≡ single.get i w

  -- How a pipeline over `current` and `plan` ends: all watermarks are as they were, or every stage
  -- has succeeded and each of the current watermarks is at the plan's candidate.
  abbrev pub CommitsLast :
      IdentityMap WatermarkState
      → ChainlinkForwardPlan
      → Type 0
      → W
      → Result (List WatermarkState) × W
      → Type 0
  CommitsLast current plan stages w (result, after) =
      AllKept w after
      ⊎ ((values : IdentityMap ℤ) × (states : List WatermarkState) × (candidates plan ≡ ok values)
          × stages
          × (result ≡ ok states)
          × All (Advanced store values after) (values_of current))

module _ {W T : Type 0} (store : AtomicWatermarkStore W) (laws : IsAtomicWatermarkStore store)
    (between : W → W) (persist_source : ChainlinkForwardPlan → Exec W T)
    (build_silver : T → Exec W (Unit {0})) (load_snowflake run_dbt_and_quality : Exec W (Unit {0}))
    (alone : (w : W) → AllKept store w (between w))
    (k1 : (p : ChainlinkForwardPlan) (w : W) → AllKept store w (persist_source p w).1)
    (k2 : (t : T) (w : W) → AllKept store w (build_silver t w).1)
    (k3 : (w : W) → AllKept store w (load_snowflake w).1)
    (k4 : (w : W) → AllKept store w (run_dbt_and_quality w).1) where
  open store use {single}

  commit-CommitsLast :
      (current : IdentityMap WatermarkState) (plan : ChainlinkForwardPlan) (values : IdentityMap ℤ)
      (run : Text) (stages : Type 0) (w u : W)
      → Distinct current
      → AllKept store w u
      → candidates plan ≡ ok values
      → stages
      → CommitsLast store current plan stages w (
          commit_watermarks_atomically store between current values run true ProcessingMode.forward
            u)
  commit-CommitsLast current plan values run stages w u d same e st =
      elim (commit_watermarks-AtomicOutcome store laws between current values run true
        ProcessingMode.forward u d) [
          | inl kept ↦ inl (λ i. ap (single.get i) kept ∙ same i)
          | inr (inl (kept, _)) ↦ inl (λ i. ap (single.get i) kept ∙ alone u i ∙ same i)
          | inr (inr ((states, result), all)) ↦ inr (values, states, e, st, result, all)
        ]

  stages-CommitsLast :
      (current : IdentityMap WatermarkState) (plan : ChainlinkForwardPlan) (run : Text) (w : W)
      → Distinct current
      → CommitsLast store current plan
          (AllStages persist_source build_silver load_snowflake run_dbt_and_quality plan w)
          w
          (and_then
            (persist_source plan)
            (λ source_result. and_then (build_silver source_result) (λ _.
              and_then load_snowflake (λ _. and_then run_dbt_and_quality (λ _.
                and_then (value_of (candidates plan)) (λ values.
                  commit_watermarks_atomically store between current values run true
                    ProcessingMode.forward)))))
            w)
  stages-CommitsLast current plan run w d =
      let P =
        CommitsLast store current plan
          (AllStages persist_source build_silver load_snowflake run_dbt_and_quality plan w) w in
      let commit : IdentityMap ℤ → Exec W (List WatermarkState) = λ values.
        commit_watermarks_atomically store between current values run true ProcessingMode.forward in
      let choose : Exec W (List WatermarkState) = and_then (value_of (candidates plan)) commit in
      let check : Exec W (List WatermarkState) = and_then run_dbt_and_quality (λ _. choose) in
      let load : Exec W (List WatermarkState) = and_then load_snowflake (λ _. check) in
      let build : T → Exec W (List WatermarkState) = λ t. and_then (build_silver t) (λ _. load) in
      let s1 = k1 plan w in
      and_then_rule P (persist_source plan) build w (λ _ _. inl s1)
        λ t e1.
          let w1 = (persist_source plan w).1 in
          let s2 : AllKept store w (build_silver t w1).1 = λ i. k2 t w1 i ∙ s1 i in
          and_then_rule P (build_silver t) (λ _. load) w1 (λ _ _. inl s2)
            λ _ e2.
              let w2 = (build_silver t w1).1 in
              let s3 : AllKept store w (load_snowflake w2).1 = λ i. k3 w2 i ∙ s2 i in
              and_then_rule P load_snowflake (λ _. check) w2 (λ _ _. inl s3)
                λ _ e3.
                  let w3 = (load_snowflake w2).1 in
                  let s4 : AllKept store w (run_dbt_and_quality w3).1 = λ i. k4 w3 i ∙ s3 i in
                  and_then_rule P run_dbt_and_quality (λ _. choose) w3 (λ _ _. inl s4)
                    λ _ e4.
                      let w4 = (run_dbt_and_quality w3).1 in
                      and_then_rule P (value_of (candidates plan)) commit w4 (λ _ _. inl s4)
                        λ values e5.
                          commit-CommitsLast current plan values run _ w w4 d s4 e5
                            (t, e1, e2, e3, e4)

  -- The Chainlink pipeline moves no watermark before every stage has succeeded, and then it moves
  -- all: it leaves every watermark as it was, or all four stages have succeeded, in their order,
  -- and each of the current watermarks is stored at the plan's candidate, which is not below the
  -- value that the caller had. The stages are any effects that do not themselves write watermarks,
  -- no other session writes one during the commit, the store keeps its contract, and the current
  -- states are a mapping.
  pub chainlink-CommitsLast :
      (current : IdentityMap WatermarkState) (plan : ChainlinkForwardPlan) (run : Text) (w : W)
      → Distinct current
      → CommitsLast store current plan
          (AllStages persist_source build_silver load_snowflake run_dbt_and_quality plan w)
          w
          (run_commit_last_pipeline store between current plan run persist_source build_silver
            load_snowflake run_dbt_and_quality w)
  unfolding run_commit_last_pipeline
  chainlink-CommitsLast current plan run w d = elim (Bool-cases (is_noop plan)) [
    | inl e ↦ rw (e, run_commit_last_pipeline) (inl (λ i. refl))
    | inr e ↦ rw (e, run_commit_last_pipeline) (stages-CommitsLast current plan run w d)
  ]
