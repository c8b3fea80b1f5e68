-- ===== src/AaveForward/Pipeline.antt =====
-- The commit-last pipeline of orchestration/aave_forward.py.
use real_time_blockchain_ana.Prelude.{
  ◌≡◌, refl, ap, ◌∙◌, sym, ◌⊎◌, inl, inr, true, Option, none, some, Error, Result, ok, err, Exec,
  Bool-cases, Result-cases, subst,
}
use real_time_blockchain_ana.Prelude.Int.{eqb_ℤ→eq, ℤ, eqb_ℤ}
use real_time_blockchain_ana.Python.Text.{Text}
use real_time_blockchain_ana.Watermark.{
  WatermarkIdentity, WatermarkState, WatermarkStore, forward, commit_watermark,
}
use real_time_blockchain_ana.Watermark.Laws.{IsWatermarkStore}
use real_time_blockchain_ana.Watermark.Commit.{commit_watermark-CommitOutcome}
use real_time_blockchain_ana.AaveForward.{
  AaveForwardPlan, and_then, run_interval, run_commit_last_pipeline,
}

-- To prove something of a sequence: of the first part's failure, and of the second after its
-- success.
pub and_then_rule :
    {W A B : Type 0} (P : Result B × W → Type 0) (m : Exec W A) (k : A → Exec W B) (w : W)
    → ((e : Error) → (m w).0 ≡ err e → P (err e, (m w).1))
    → ((a : A) → (m w).0 ≡ ok a → P (k a (m w).1))
    → P (and_then m k w)
and_then_rule P m k w failed done = elim (Result-cases (m w).0) [
  | inl (a, e) ↦ rw (e, and_then) (done a e)
  | inr (why, e) ↦ rw (e, and_then) (failed why e)
]

-- All four stages have succeeded, in their order, each in the world that the one before has left.
abbrev pub AllStages :
    {W T P : Type 0}
    → (P → Exec W T)
    → (T → Exec W (Unit {0}))
    → Exec W (Unit {0})
    → Exec W (Unit {0})
    → P
    → W
    → Type 0
AllStages {T} persist_source build_silver load_snowflake run_dbt_and_quality plan w =
    (t : T) × ((persist_source plan w).0 ≡ ok t)
    × ((build_silver t (persist_source plan w).1).0 ≡ ok tt)
    × ((load_snowflake (build_silver t (persist_source plan w).1).1).0 ≡ ok tt)
    × ((run_dbt_and_quality (load_snowflake (build_silver t (persist_source plan w).1).1).1).0
        ≡ ok tt)

module _ {W : Type 0} (store : WatermarkStore W) (i : WatermarkIdentity) where
  open store use {get}

  -- A stage leaves the watermark `i` alone, whether it succeeds or raises.
  abbrev pub Keeps : {A : Type 0} → Exec W A → Type 0
  Keeps m = (w : W) → get i (m w).1 ≡ get i w

  -- How a pipeline over `current` and `plan` ends: the watermark is as it was before, or every
  -- stage has succeeded and the watermark is the end of the plan.
  abbrev pub CommitsLast :
      WatermarkState → AaveForwardPlan → Type 0 → W → Result WatermarkState × W → Type 0
  CommitsLast current plan stages w (result, after) =
      (get i after ≡ get i w)
      ⊎ ((end : ℤ) × (state : WatermarkState) × (plan.end_block ≡ some end)
          × (plan.committed_block ≡ current.committed_value)
          × stages
          × (result ≡ ok state)
          × (state.committed_value ≡ end)
          × (get i after ≡ ok (some state)))

module _ {W T : Type 0} (store : WatermarkStore W) (i : WatermarkIdentity) where
  open store use {get}

  module _ (laws : IsWatermarkStore store) (between : W → W)
      (persist_source : AaveForwardPlan → Exec W T) (build_silver : T → Exec W (Unit {0}))
      (load_snowflake run_dbt_and_quality : Exec W (Unit {0}))
      (alone : (w : W) → get i (between w) ≡ get i w)
      (k1 : (p : AaveForwardPlan) → Keeps store i (persist_source p))
      (k2 : (t : T) → Keeps store i (build_silver t)) (k3 : Keeps store i load_snowflake)
      (k4 : Keeps store i run_dbt_and_quality) where
    commit-CommitsLast :
        (current : WatermarkState) (plan : AaveForwardPlan) (end : ℤ) (run : Text) (stages : Type 0)
        (w u : W) (before : Option WatermarkState)
        → get i w ≡ ok before
        → get i u ≡ get i w
        → plan.end_block ≡ some end
        → plan.committed_block ≡ current.committed_value
        → stages
        → CommitsLast store i current plan stages w
            (commit_watermark store between i end run true forward u)
    commit-CommitsLast current plan end run stages w u before g same pe pc st =
        elim (commit_watermark-CommitOutcome store laws between i end run true forward u before
          (alone u ∙ same ∙ g)) [
            | inl (kept, _) ↦ inl (ap (get i) kept ∙ same)
            | inr (inl (kept, _)) ↦ inl (ap (get i) kept ∙ alone u ∙ same)
            | inr (inr (cur, old, state, _, _, _, _, result, _, value, _, there, _)) ↦
                inr (end, state, pe, pc, st, result, value, there)
          ]

    -- The stages and the commit, for a plan with an interval.
    stages-CommitsLast :
        (current : WatermarkState) (plan : AaveForwardPlan) (end : ℤ) (run : Text) (w : W)
        (before : Option WatermarkState)
        → get i w ≡ ok before
        → plan.end_block ≡ some end
        → plan.committed_block ≡ current.committed_value
        → CommitsLast store i current plan
            (AllStages persist_source build_silver load_snowflake run_dbt_and_quality plan w)
            w
            (and_then
              (persist_source plan)
              (λ source_result. and_then (build_silver source_result) (λ _.
                and_then load_snowflake (λ _.
                  and_then run_dbt_and_quality
                    (λ _. commit_watermark store between i end run true forward))))
              w)
    stages-CommitsLast current plan end run w before g pe pc =
        let P =
          CommitsLast store i current plan
            (AllStages persist_source build_silver load_snowflake run_dbt_and_quality plan w) w in
        let commit = commit_watermark store between i end run true forward in
        let check : Exec W WatermarkState = and_then run_dbt_and_quality (λ _. commit) in
        let load : Exec W WatermarkState = and_then load_snowflake (λ _. check) in
        let build : T → Exec W WatermarkState = λ t. and_then (build_silver t) (λ _. load) in
        let s1 = k1 plan w in
        and_then_rule P (persist_source plan) build w (λ _ _. inl s1)
          λ t e1.
            let w1 = (persist_source plan w).1 in
            let s2 = k2 t w1 ∙ s1 in
            and_then_rule P (build_silver t) (λ _. load) w1 (λ _ _. inl s2)
              λ u2 e2.
                let w2 = (build_silver t w1).1 in
                let s3 = k3 w2 ∙ s2 in
                and_then_rule P load_snowflake (λ _. check) w2 (λ _ _. inl s3)
                  λ u3 e3.
                    let w3 = (load_snowflake w2).1 in
                    let s4 = k4 w3 ∙ s3 in
                    and_then_rule P run_dbt_and_quality (λ _. commit) w3 (λ _ _. inl s4)
                      λ u4 e4.
                        commit-CommitsLast current plan end run _ w _ before g s4 pe pc
                          (t, e1, e2, e3, e4)

    interval-CommitsLast :
        (current : WatermarkState) (plan : AaveForwardPlan) (run : Text) (w : W)
        (before : Option WatermarkState)
        → get i w ≡ ok before
        → plan.committed_block ≡ current.committed_value
        → (start end : Option ℤ) → plan.end_block ≡ end
        → CommitsLast store i current plan
            (AllStages persist_source build_silver load_snowflake run_dbt_and_quality plan w)
            w
            (run_interval start end current
              (λ end_block. and_then (persist_source plan) (λ source_result.
                and_then (build_silver source_result) (λ _. and_then load_snowflake (λ _.
                  and_then run_dbt_and_quality
                    (λ _. commit_watermark store between i end_block run true forward)))))
              w)
    interval-CommitsLast current plan run w before g pc none end pe = inl refl
    interval-CommitsLast current plan run w before g pc (some start) none pe = inl refl
    interval-CommitsLast current plan run w before g pc (some start) (some end) pe =
        stages-CommitsLast current plan end run w before g pe pc

    -- `run_commit_last_pipeline` moves the watermark only after every stage has succeeded, and then
    -- to the end of the plan: whatever stage raises, and whatever else goes wrong, the watermark
    -- stays. The stages are any effects that do not themselves write the watermark, no other
    -- session writes it during the commit, and its key has no duplicate rows.
    pub run_commit_last_pipeline-CommitsLast :
        (current : WatermarkState) (plan : AaveForwardPlan) (run : Text) (w : W)
        (before : Option WatermarkState)
        → current.identity ≡ i
        → get i w ≡ ok before
        → CommitsLast store i current plan
            (AllStages persist_source build_silver load_snowflake run_dbt_and_quality plan w)
            w
            (run_commit_last_pipeline store between current plan run persist_source build_silver
              load_snowflake run_dbt_and_quality w)
    unfolding run_commit_last_pipeline
    run_commit_last_pipeline-CommitsLast current plan run w before id g =
        elim (Bool-cases (eqb_ℤ plan.committed_block current.committed_value)) [
          | inr stale ↦ rw stale (inl refl)
          | inl fresh ↦ rw fresh (
              subst
                (λ j.
                  CommitsLast store i current plan
                    (AllStages persist_source build_silver load_snowflake run_dbt_and_quality plan
                      w)
                    w
                    (run_interval plan.start_block plan.end_block current
                      (λ end_block. and_then (persist_source plan) (λ source_result.
                        and_then (build_silver source_result) (λ _. and_then load_snowflake (λ _.
                          and_then run_dbt_and_quality
                            (λ _. commit_watermark store between j end_block run true forward)))))
                      w))
                (sym id)
                (interval-CommitsLast current plan run w before g
                  (eqb_ℤ→eq plan.committed_block current.committed_value fresh) plan.start_block
                  plan.end_block refl))
        ]
