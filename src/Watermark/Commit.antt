-- ===== src/Watermark/Commit.antt =====
-- The commits of orchestration/watermark.py over any store that keeps its contract, with any other
-- writer between the read and the write.
use real_time_blockchain_ana.Prelude.{
  ◌≡◌, refl, ◌≢◌, ◌⊎◌, inl, inr, Bool, true, false, Option, none, some, Error, commit_conflict,
  Result, ok, err, arith, Result-cases, bind-eq-ok, ok-injective, subst, ◌∙◌, sym, ap, raise_if,
  not,
}
use real_time_blockchain_ana.Prelude.Int.{ℤ, ◌<ℤ◌, eq_of_parts, eqb_ℤ}
use real_time_blockchain_ana.Python.Text.{Text, strip}
use real_time_blockchain_ana.Watermark.{
  WatermarkIdentity, WatermarkState, WatermarkStore, ProcessingMode, forward, backfill, Decision,
  keep, advance_from, validate_run_id, validate_candidate, commit_decision,
  commit_from_expected_decision, commit_watermark, commit_watermark_from_expected, carry_out,
  present, decide_advance,
}
use real_time_blockchain_ana.Watermark.Laws.{IsWatermarkStore, Wrote}

validate_candidate_lem :
    (current candidate : ℤ) (b : Bool)
    → validate_candidate current candidate ≡ ok b
    → (b ≡ true → current <ℤ candidate) × (b ≡ false → current ≡ candidate)
unfolding validate_candidate
validate_candidate_lem current candidate b h =
    ((λ e. ground arith), (λ e. ground (arith, eq_of_parts current candidate)))

eqb_ℤ→eq : (a b : ℤ) {u : Unit {0}} → raise_if (not (eqb_ℤ a b)) commit_conflict ≡ ok u → a ≡ b
eqb_ℤ→eq a b h = ground (arith, eq_of_parts a b)

module _ {S : Type 0} (store : WatermarkStore S) where
  open store use {get, initialize, advance}

  -- What has been established when a commit goes on to write.
  abbrev Decided : WatermarkIdentity → ℤ → Text → S → Decision → Type 0
  Decided i candidate run s (keep w) = (get i s ≡ ok (some w)) × (w.committed_value ≡ candidate)
  Decided i candidate run s (advance_from expected run_id) =
      (cur : WatermarkState) × (get i s ≡ ok (some cur))
      × (cur.committed_value ≡ expected)
      × (expected <ℤ candidate)
      × (run_id ≡ strip run)

  present-eq-ok :
      {i : WatermarkIdentity} {s : S} (found : Option WatermarkState) (cur : WatermarkState)
      → get i s ≡ ok found
      → present found ≡ ok cur
      → get i s ≡ ok (some cur)
  present-eq-ok none cur e h = cc
  present-eq-ok (some w) cur e h = cc

  decide-Decided :
      (i : WatermarkIdentity) (candidate : ℤ) (run : Text) (s : S) (cur : WatermarkState)
      (expected : ℤ) (run_id : Text) (b : Bool)
      → get i s ≡ ok (some cur)
      → cur.committed_value ≡ expected
      → validate_run_id run ≡ ok run_id
      → (b ≡ true → expected <ℤ candidate) × (b ≡ false → expected ≡ candidate)
      → Decided i candidate run s (decide_advance cur expected run_id b)
  unfolding validate_run_id
  decide-Decided i candidate run s cur expected run_id true g e r v =
      (cur, g, e, v.0 refl, ground arith)
  decide-Decided i candidate run s cur expected run_id false g e r v = (g, e ∙ v.1 refl)

  commit_decision-Decided :
      (i : WatermarkIdentity) (candidate : ℤ) (run : Text) (succeeded : Bool)
      (mode : ProcessingMode) (s : S) (d : Decision)
      → commit_decision store i candidate run succeeded mode s ≡ ok d
      → (succeeded ≡ true) × (mode ≡ forward) × Decided i candidate run s d
  unfolding commit_decision
  commit_decision-Decided i candidate run succeeded backfill s d h = cc
  commit_decision-Decided i candidate run false forward s d h = cc
  commit_decision-Decided i candidate run true forward s d h =
      let (found, e1, h1) = bind-eq-ok (get i s) _ h in
      let (cur, e2, h2) = bind-eq-ok (present found) _ h1 in
      let (run_id, e3, h3) = bind-eq-ok (validate_run_id run) _ h2 in
      let (b, e4, h4) = bind-eq-ok (validate_candidate cur.committed_value candidate) _ h3 in
      (
        refl,
        refl,
        subst (Decided i candidate run s) (ok-injective h4) (
            decide-Decided i candidate run s cur cur.committed_value run_id b
              (present-eq-ok found cur e1 e2) refl e3
              (validate_candidate_lem cur.committed_value candidate b e4)),
      )

  commit_from_expected_decision-Decided :
      (i : WatermarkIdentity) (expected candidate : ℤ) (run : Text) (succeeded : Bool) (s : S)
      (d : Decision)
      → commit_from_expected_decision store i expected candidate run succeeded s ≡ ok d
      → (succeeded ≡ true)
        × Decided i candidate run s d
        × ((cur : WatermarkState) × (get i s ≡ ok (some cur)) × (cur.committed_value ≡ expected))
  unfolding commit_from_expected_decision
  commit_from_expected_decision-Decided i expected candidate run false s d h = cc
  commit_from_expected_decision-Decided i expected candidate run true s d h =
      let (found, e1, h1) = bind-eq-ok (get i s) _ h in
      let (cur, e2, h2) = bind-eq-ok (present found) _ h1 in
      let (_, e3, h3) =
        bind-eq-ok (raise_if (not (eqb_ℤ cur.committed_value expected)) commit_conflict) _ h2 in
      let (run_id, e4, h4) = bind-eq-ok (validate_run_id run) _ h3 in
      let (b, e5, h5) = bind-eq-ok (validate_candidate expected candidate) _ h4 in
      let found_cur = present-eq-ok found cur e1 e2 in
      let same : cur.committed_value ≡ expected = eqb_ℤ→eq cur.committed_value expected e3 in
      (
        refl,
        subst (Decided i candidate run s) (ok-injective h5) (
            decide-Decided i candidate run s cur expected run_id b found_cur same e4
              (validate_candidate_lem expected candidate b e5)),
        (cur, found_cur, same),
      )

  -- How a commit ends. It writes nothing, and then it raises or returns the current state because
  -- that holds the candidate already. Or the store refuses its write. Or it stores the candidate,
  -- above a committed value that is the one it had read, and touches no other key.
  abbrev pub CommitOutcome :
      (S → S) → WatermarkIdentity → ℤ → Text → S → Result WatermarkState × S → Type 0
  CommitOutcome between i candidate run s (result, after) =
      ((after ≡ s)
        × (((e : Error) × (result ≡ err e))
            ⊎ ((cur : WatermarkState) × (result ≡ ok cur)
                × (get i s ≡ ok (some cur))
                × (cur.committed_value ≡ candidate))))
      ⊎ (((after ≡ between s) × ((e : Error) × (result ≡ err e)))
          ⊎ ((cur : WatermarkState) × (old : WatermarkState) × (w : WatermarkState) × (get i s
                ≡ ok (some cur))
              × (get i (between s) ≡ ok (some old))
              × (old.committed_value ≡ cur.committed_value)
              × (cur.committed_value <ℤ candidate)
              × (result ≡ ok w)
              × (w.identity ≡ i)
              × (w.committed_value ≡ candidate)
              × (w.successful_run_id ≡ strip run)
              × (get i after ≡ ok (some w))
              × ((j : WatermarkIdentity) → j ≢ i → get j after ≡ get j (between s))))

  module _ (laws : IsWatermarkStore store) where
    advance-CommitOutcome :
        (between : S → S) (i : WatermarkIdentity) (expected candidate : ℤ) (run : Text) (s : S)
        (cur : WatermarkState) (before : Option WatermarkState) (r : Result WatermarkState) (s' : S)
        → get i s ≡ ok (some cur)
        → cur.committed_value ≡ expected
        → expected <ℤ candidate
        → get i (between s) ≡ ok before
        → advance i expected candidate (strip run) (between s) ≡ (r, s')
        → CommitOutcome between i candidate run s (r, s')
    advance-CommitOutcome between i expected candidate run s cur before (err e) s' g v lt gb h =
        let wrote =
          subst (Wrote store i (between s)) h
            (laws.advance-Wrote i expected candidate (strip run) (between s) before gb) in
        inr (inl (wrote, (e, refl)))
    advance-CommitOutcome between i expected candidate run s cur before (ok w) s' g v lt gb h =
        let wrote =
          subst (Wrote store i (between s)) h
            (laws.advance-Wrote i expected candidate (strip run) (between s) before gb) in
        let (value, run_id, _, (old, there, old_value)) =
          laws.advance_ok i expected candidate (strip run) (between s) before w gb
            (ap (λ p. p.0) h) in
        inr (
          inr (
            cur,
            old,
            w,
            g,
            gb ∙ ap ok there,
            old_value ∙ sym v,
            rw v lt,
            refl,
            wrote.0,
            value,
            run_id,
            wrote.1,
            wrote.2,
          ))

    carry_out-CommitOutcome :
        (between : S → S) (i : WatermarkIdentity) (candidate : ℤ) (run : Text) (s : S)
        (before : Option WatermarkState) (d : Decision)
        → get i (between s) ≡ ok before
        → Decided i candidate run s d
        → CommitOutcome between i candidate run s (carry_out store between i candidate (ok d) s)
    carry_out-CommitOutcome between i candidate run s before (keep w) gb h =
        inl (refl, inr (w, refl, h.0, h.1))
    carry_out-CommitOutcome between i candidate run s before (advance_from expected run_id) gb
          (cur, g, v, lt, e) =
        rw e
          (advance-CommitOutcome between i expected candidate run s cur before _ _ g v lt gb refl)

    -- Where the key has no duplicate rows at the write, every `commit_watermark`, with any writers
    -- between its read and its write, ends in one of three ways. It writes nothing, and raises or
    -- returns the state that already has the candidate's value. Or its write raises, and the
    -- database is as the other writers left it. Or the value was still the one that it had read and
    -- was below the candidate, and now the key has the candidate and the stripped run id, and no
    -- other key has changed. So no other writer's value is overwritten, and no value goes backward.
    pub commit_watermark-CommitOutcome :
        (between : S → S) (i : WatermarkIdentity) (candidate : ℤ) (run : Text) (succeeded : Bool)
        (mode : ProcessingMode) (s : S) (before : Option WatermarkState)
        → get i (between s) ≡ ok before
        → CommitOutcome between i candidate run s
            (commit_watermark store between i candidate run succeeded mode s)
    unfolding commit_watermark
    commit_watermark-CommitOutcome between i candidate run succeeded mode s before gb =
        elim (Result-cases (commit_decision store i candidate run succeeded mode s)) [
          | inl (d, e) ↦
              rw (e, commit_watermark)
                (carry_out-CommitOutcome between i candidate run s before d gb
                  (commit_decision-Decided i candidate run succeeded mode s d e).2)
          | inr (why, e) ↦ rw (e, commit_watermark) (inl (refl, inl (why, refl)))
        ]

    -- Where the key has no duplicate rows at the write, every `commit_watermark_from_expected`,
    -- with any writers between its read and its write, ends in one of three ways. It writes
    -- nothing, and raises or returns the state that already has the candidate's value. Or its write
    -- raises, and the database is as the other writers left it. Or the value was still the one that
    -- it had read and was below the candidate, and now the key has the candidate and the stripped
    -- run id, and no other key has changed.
    pub commit_from_expected-CommitOutcome :
        (between : S → S) (i : WatermarkIdentity) (expected candidate : ℤ) (run : Text)
        (succeeded : Bool) (s : S) (before : Option WatermarkState)
        → get i (between s) ≡ ok before
        → CommitOutcome between i candidate run s
            (commit_watermark_from_expected store between i expected candidate run succeeded s)
    unfolding commit_watermark_from_expected
    commit_from_expected-CommitOutcome between i expected candidate run succeeded s before gb =
        elim (Result-cases
          (commit_from_expected_decision store i expected candidate run succeeded s)) [
            | inl (d, e) ↦
                rw (e, commit_watermark_from_expected)
                  (carry_out-CommitOutcome between i candidate run s before d gb
                    (commit_from_expected_decision-Decided i expected candidate run succeeded s d
                      e).1)
            | inr (why, e) ↦ rw (e, commit_watermark_from_expected) (inl (refl, inl (why, refl)))
          ]
