-- ===== src/Watermark/Progress.antt =====
-- Progress and errors of the commits of orchestration/watermark.py.
use real_time_blockchain_ana.Prelude.{
  ◌≡◌, refl, ◌≢◌, ◌⊎◌, inl, inr, Bool, true, false, Option, none, some, Error, regressive_watermark,
  unsafe_commit, already_initialized, Result, ok, err, arith, Result-cases, sym, ap, ◌∙◌, subst,
  bind-eq-ok, ok-injective, raise_if, is_some,
}
use real_time_blockchain_ana.Prelude.Int.{ℤ, pos, ◌<ℤ◌, ◌≤ℤ◌}
use real_time_blockchain_ana.Python.Text.{Text, strip, is_empty}
use real_time_blockchain_ana.Watermark.{
  WatermarkIdentity, WatermarkState, WatermarkStore, ProcessingMode, forward, backfill,
  max_watermark_value, validate_watermark_value, validate_run_id, validate_candidate,
  commit_decision, commit_watermark, initialize_decision, initialize_watermark,
}
use real_time_blockchain_ana.Watermark.Laws.{IsWatermarkStore, Wrote}

-- A value that the warehouse column holds.
abbrev pub IsStorable : ℤ → Type 0
IsStorable v = (pos 0 ≤ℤ v) × (v ≤ℤ max_watermark_value)

validate_candidate_above :
    (current candidate : ℤ)
    → IsStorable current
    → IsStorable candidate
    → current <ℤ candidate
    → validate_candidate current candidate ≡ ok true
unfolding validate_candidate
validate_candidate_above current candidate h k lt = ground arith

validate_candidate_below :
    (current candidate : ℤ)
    → IsStorable current
    → IsStorable candidate
    → candidate <ℤ current
    → validate_candidate current candidate ≡ err regressive_watermark
unfolding validate_candidate
validate_candidate_below current candidate h k lt = ground arith

validate_run_id_ok :
    (run : Text) → is_empty (strip run) ≡ false → validate_run_id run ≡ ok (strip run)
unfolding validate_run_id
validate_run_id_ok run h = rw h

module _ {S : Type 0} (store : WatermarkStore S) where
  open store use {get, initialize, advance}

  -- A backfill never moves a forward watermark, and neither does a run that has not succeeded: both
  -- are refused before the store is read.
  pub commit_watermark_boundary :
      (between : S → S) (i : WatermarkIdentity) (candidate : ℤ) (run : Text) (succeeded : Bool)
      (mode : ProcessingMode) (s : S)
      → (mode ≡ backfill) ⊎ (succeeded ≡ false)
      → commit_watermark store between i candidate run succeeded mode s ≡ (err unsafe_commit, s)
  unfolding commit_watermark commit_decision
  commit_watermark_boundary between i candidate run succeeded backfill s h = refl
  commit_watermark_boundary between i candidate run true forward s (inl e) = cc
  commit_watermark_boundary between i candidate run true forward s (inr e) = cc
  commit_watermark_boundary between i candidate run false forward s h = refl

  -- A storable candidate below the storable committed value, under a run id that is not blank, is
  -- refused as regressive, and nothing is written.
  pub commit_watermark_regressive :
      (between : S → S) (i : WatermarkIdentity) (candidate : ℤ) (run : Text) (s : S)
      (cur : WatermarkState)
      → get i s ≡ ok (some cur)
      → is_empty (strip run) ≡ false
      → IsStorable cur.committed_value
      → IsStorable candidate
      → candidate <ℤ cur.committed_value
      → commit_watermark store between i candidate run true forward s
        ≡ (err regressive_watermark, s)
  unfolding commit_watermark commit_decision
  commit_watermark_regressive between i candidate run s cur g named c1 c2 lt = rw (
    g,
    validate_run_id_ok run named,
    validate_candidate_below cur.committed_value candidate c1 c2 lt,
  )

  -- How `initialize_watermark` ends.
  abbrev pub Initialized :
      (S → S) → WatermarkIdentity → ℤ → Text → S → Result WatermarkState × S → Type 0
  Initialized between i value run_id s (result, after) =
      (((e : Error) × (result ≡ err e) × (after ≡ s)))
      ⊎ ((((e : Error) × (result ≡ err e)) × (after ≡ between s))
          ⊎ ((w : WatermarkState) × (result ≡ ok w)
              × (get i (between s) ≡ ok none)
              × (w.identity ≡ i)
              × (w.committed_value ≡ value)
              × (w.successful_run_id ≡ run_id)
              × (get i after ≡ ok (some w))
              × ((j : WatermarkIdentity) → j ≢ i → get j after ≡ get j (between s))))

  initialize_decision_run_id :
      (i : WatermarkIdentity) (value : ℤ) (run : Text) (s : S) (run_id : Text)
      → initialize_decision store i value run s ≡ ok run_id
      → run_id ≡ strip run
  unfolding initialize_decision validate_run_id
  initialize_decision_run_id i value run s run_id h =
      let (v, e1, h1) = bind-eq-ok (validate_watermark_value value) _ h in
      let (r, e2, h2) = bind-eq-ok (validate_run_id run) _ h1 in
      let (c, e3, h3) = bind-eq-ok (get i s) _ h2 in
      let (u, e4, h4) = bind-eq-ok (raise_if (is_some c) already_initialized) _ h3 in
      sym (ok-injective h4) ∙ stripped r e2
    where
      stripped : (r : Text) → validate_run_id run ≡ ok r → r ≡ strip run
      stripped r e = ground arith

  module _ (laws : IsWatermarkStore store) where
    -- A successful forward run with a run id that is not blank, whose candidate is storable and
    -- above the storable committed value, does advance the watermark to it, unless another writer
    -- has moved the value between the read and the write.
    pub commit_watermark_advances :
        (between : S → S) (i : WatermarkIdentity) (candidate : ℤ) (run : Text) (s : S)
        (cur old : WatermarkState)
        → get i s ≡ ok (some cur)
        → get i (between s) ≡ ok (some old)
        → old.committed_value ≡ cur.committed_value
        → is_empty (strip run) ≡ false
        → IsStorable cur.committed_value
        → IsStorable candidate
        → cur.committed_value <ℤ candidate
        → let (result, after) = commit_watermark store between i candidate run true forward s in
          (w : WatermarkState) × (result ≡ ok w)
          × (w.committed_value ≡ candidate)
          × (get i after ≡ ok (some w))
    unfolding commit_watermark commit_decision
    commit_watermark_advances between i candidate run s cur old g gb same named c1 c2 lt =
        let (w, e) =
          laws.advance_total i cur.committed_value candidate (strip run) (between s) old gb same
            lt in
        let wrote = subst (Wrote store i (between s)) (pair_path e) (
          laws.advance-Wrote i cur.committed_value candidate (strip run) (between s) (some old)
            gb) in
        let (value, _, _, _) =
          laws.advance_ok i cur.committed_value candidate (strip run) (between s) (some old) w gb
            e in
        rw
          (
            g,
            validate_run_id_ok run named,
            validate_candidate_above cur.committed_value candidate c1 c2 lt,
          )
          (w, e, value, wrote.1)
      where
        pair_path :
            {r r' : Result WatermarkState} {s' : S}
            → r ≡ r'
            → ◌≡◌ {A = Result WatermarkState × S} (r, s') (r', s')
        pair_path {s' = s'} e = ap (λ x. (x, s')) e

    initialize-once :
        (between : S → S) (i : WatermarkIdentity) (value : ℤ) (run_id : Text) (s : S)
        (before : Option WatermarkState) (r : Result WatermarkState) (s' : S)
        → get i (between s) ≡ ok before
        → initialize i value run_id (between s) ≡ (r, s')
        → Initialized between i value run_id s (r, s')
    initialize-once between i value run_id s before (err e) s' gb h = inr (
        inl (
          (e, refl),
          subst (Wrote store i (between s)) h
              (laws.initialize-Wrote i value run_id (between s) before gb),
        ))
    initialize-once between i value run_id s before (ok w) s' gb h =
        let wrote =
          subst (Wrote store i (between s)) h
            (laws.initialize-Wrote i value run_id (between s) before gb) in
        let (v, rid, fresh) =
          laws.initialize_ok i value run_id (between s) before w gb (ap (λ p. p.0) h) in
        inr (inr (w, refl, gb ∙ ap ok fresh, wrote.0, v, rid, wrote.1, wrote.2))

    -- Where the key has no duplicate rows at the write, `initialize_watermark` writes only where
    -- the key is absent, also at the time of its write, and then the key has the given value; in
    -- every other case it raises and the database is as the other writers left it.
    pub initialize_watermark-Initialized :
        (between : S → S) (i : WatermarkIdentity) (value : ℤ) (run : Text) (s : S)
        (before : Option WatermarkState)
        → get i (between s) ≡ ok before
        → Initialized between i value
            (strip run)
            s
            (initialize_watermark store between i value run s)
    unfolding initialize_watermark
    initialize_watermark-Initialized between i value run s before gb =
        elim (Result-cases (initialize_decision store i value run s)) [
          | inl (run_id, e) ↦
              rw (e, initialize_watermark)
                (subst
                  (λ x. Initialized between i value x s (initialize i value run_id (between s)))
                  (initialize_decision_run_id i value run s run_id e)
                  (initialize-once between i value run_id s before _ _ gb refl))
          | inr (why, e) ↦ rw (e, initialize_watermark) (inl (why, refl, refl))
        ]
