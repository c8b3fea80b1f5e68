-- ===== src/Watermark/Atomic/Commit.antt =====
-- `commit_watermarks_atomically` of orchestration/watermark.py over any store of its contract.
use real_time_blockchain_ana.Prelude.{
  ◌≡◌, refl, ap, ◌∙◌, ◌≢◌, ◌⊎◌, inl, inr, Bool, true, false, not, ◌||◌, some, List, [], ◌∷◌, Error,
  value_error, unsafe_commit, Result, ok, err, Result-cases, bind-eq-ok, ok-injective, subst,
  raise_if, arith,
}
use real_time_blockchain_ana.Prelude.Int.{ℤ, ◌≤ℤ◌}
use real_time_blockchain_ana.Prelude.Lists.{All}
use real_time_blockchain_ana.Python.Text.{Text}
use real_time_blockchain_ana.Watermark.{
  WatermarkIdentity, WatermarkState, ProcessingMode, same_identity, is_backfill, validate_run_id,
  validate_candidate,
}
use real_time_blockchain_ana.Watermark.Atomic.{
  IdentityMap, keys, no_items, same_keys, lookup, AtomicWatermarkStore, expected_items, all_reached,
  AtomicDecision, keep_all, advance_all, decide_all, commit_all_decision,
  commit_watermarks_atomically,
}

module _ {T : Type 0} where
  -- The keys are different, as those of a mapping are.
  abbrev pub Distinct : IdentityMap T → Type 0
  Distinct [] = Unit
  Distinct (item ∷ items) = All (λ other. other.0 ≢ item.0) items × Distinct items

-- The committed values of the states.
abbrev pub values_of : IdentityMap WatermarkState → IdentityMap ℤ
values_of [] = []
values_of ((identity, current) ∷ items) = (identity, current.committed_value) ∷ values_of items

values_of-All :
    (i : WatermarkIdentity) (items : IdentityMap WatermarkState)
    → All (λ other. other.0 ≢ i) items
    → All (λ other. other.0 ≢ i) (values_of items)
values_of-All i [] h = tt
values_of-All i (item ∷ items) (ne, h) = (ne, values_of-All i items h)

values_of-Distinct :
    (items : IdentityMap WatermarkState) → Distinct items → Distinct (values_of items)
values_of-Distinct [] d = tt
values_of-Distinct (item ∷ items) (fresh, d) =
    (values_of-All item.0 items fresh, values_of-Distinct items d)

expected_items-values_of :
    (current : IdentityMap WatermarkState) (candidates expected : IdentityMap ℤ)
    → expected_items current candidates ≡ ok expected
    → values_of current ≡ expected
unfolding expected_items
expected_items-values_of [] candidates expected h = ok-injective h
expected_items-values_of ((i, state) ∷ items) candidates expected h =
    let (_, e1, h1) =
      bind-eq-ok (raise_if (not (same_identity state.identity i)) value_error) _ h in
    let (c, e2, h2) = bind-eq-ok (lookup candidates i) _ h1 in
    let (b, e3, h3) = bind-eq-ok (validate_candidate state.committed_value c) _ h2 in
    let (rest, e4, h4) = bind-eq-ok (expected_items items candidates) _ h3 in
    ap (λ k. (i, state.committed_value) ∷ k) (expected_items-values_of items candidates rest e4)
    ∙ ok-injective h4

module _ {S : Type 0} (store : AtomicWatermarkStore S) where
  open store use {single, advance_many}

  -- The key is stored at its candidate, which is not below the expected value.
  abbrev pub Advanced : IdentityMap ℤ → S → (WatermarkIdentity × ℤ) → Type 0
  Advanced candidates after (i, e) =
      (c : ℤ) × (state : WatermarkState) × (lookup candidates i ≡ ok c)
      × (e ≤ℤ c)
      × (single.get i after ≡ ok (some state))
      × (state.committed_value ≡ c)

  -- What an atomic store promises: a call that raises changes nothing, and one that returns has
  -- advanced every key.
  abbrev pub AdvancedAll :
      IdentityMap ℤ → IdentityMap ℤ → S → Result (List WatermarkState) × S → Type 0
  AdvancedAll expected candidates s (err e, after) = after ≡ s
  AdvancedAll expected candidates s (ok states, after) = All (Advanced candidates after) expected

  pub record IsAtomicWatermarkStore : Type 0 where
    pub advance_many-AdvancedAll :
        (expected candidates : IdentityMap ℤ) (run : Text) (s : S)
        → Distinct expected
        → AdvancedAll expected candidates s (advance_many expected candidates run s)

  -- What has been established when an atomic commit goes on to write.
  abbrev AllDecided : IdentityMap WatermarkState → Bool → AtomicDecision → Type 0
  AllDecided current succeeded (keep_all states) = succeeded ≡ true
  AllDecided current succeeded (advance_all expected run_id) =
      (succeeded ≡ true) × (values_of current ≡ expected)

  decide_all-AllDecided :
      (current : IdentityMap WatermarkState) (expected : IdentityMap ℤ) (run_id : Text) (b : Bool)
      → values_of current ≡ expected
      → AllDecided current true (decide_all store current expected run_id b)
  decide_all-AllDecided current expected run_id true e = refl
  decide_all-AllDecided current expected run_id false e = (refl, e)

  commit_all_decision-AllDecided :
      (current : IdentityMap WatermarkState) (candidates : IdentityMap ℤ) (run : Text)
      (succeeded : Bool) (mode : ProcessingMode) (d : AtomicDecision)
      → commit_all_decision store current candidates run succeeded mode ≡ ok d
      → AllDecided current succeeded d
  unfolding commit_all_decision
  commit_all_decision-AllDecided current candidates run succeeded mode d h =
      let (_, e1, h1) = bind-eq-ok (raise_if (is_backfill mode) unsafe_commit) _ h in
      let (_, e2, h2) = bind-eq-ok (raise_if (not succeeded) unsafe_commit) _ h1 in
      let (_, e3, h3) =
        bind-eq-ok
          (raise_if (no_items current || not (same_keys (keys current) (keys candidates)))
            value_error)
          _ h2 in
      let (run_id, e4, h4) = bind-eq-ok (validate_run_id run) _ h3 in
      let (expected, e5, h5) = bind-eq-ok (expected_items current candidates) _ h4 in
      let (reached, e6, h6) = bind-eq-ok (all_reached expected candidates) _ h5 in
      let yes_ : true ≡ succeeded = ground arith in
      subst (λ b. AllDecided current b d) yes_
        (subst (AllDecided current true) (ok-injective h6) (
          decide_all-AllDecided current expected run_id reached
            (expected_items-values_of current candidates expected e5)))

  -- How an atomic commit ends: it writes nothing, or the store refuses its write, or every key is
  -- stored at its candidate.
  abbrev pub AtomicOutcome :
      (S → S)
      → IdentityMap WatermarkState
      → IdentityMap ℤ
      → S
      → Result (List WatermarkState) × S
      → Type 0
  AtomicOutcome between current candidates s (result, after) =
      (after ≡ s)
      ⊎ (((after ≡ between s) × ((e : Error) × (result ≡ err e)))
          ⊎ (((states : List WatermarkState) × (result ≡ ok states))
              × All (Advanced candidates after) (values_of current)))

  module _ (laws : IsAtomicWatermarkStore) where
    refused-or-done :
        (between : S → S) (current : IdentityMap WatermarkState) (candidates : IdentityMap ℤ)
        (s : S) (r : Result (List WatermarkState)) (after : S)
        → AdvancedAll (values_of current) candidates (between s) (r, after)
        → AtomicOutcome between current candidates s (r, after)
    refused-or-done between current candidates s (err e) after h = inr (inl (h, (e, refl)))
    refused-or-done between current candidates s (ok states) after h = inr (inr ((states, refl), h))

    write-AtomicOutcome :
        (between : S → S) (current : IdentityMap WatermarkState)
        (candidates expected : IdentityMap ℤ) (run : Text) (s : S)
        → Distinct current
        → values_of current ≡ expected
        → AtomicOutcome between current candidates s
            (advance_many expected candidates run (between s))
    write-AtomicOutcome between current candidates expected run s d e =
        subst
          (λ k.
            AtomicOutcome between current candidates s (advance_many k candidates run (between s)))
          e
          (refused-or-done between current candidates s _ _ (
            laws.advance_many-AdvancedAll (values_of current) candidates run (between s)
              (values_of-Distinct current d)))

    -- Where the current states are a mapping, every `commit_watermarks_atomically`, with any
    -- writers before its write, ends in one of three ways. It writes nothing. Or its write raises,
    -- and the database is as the other writers left it. Or it returns, and every key is stored at
    -- its candidate, which is not below the value that the caller had.
    pub commit_watermarks-AtomicOutcome :
        (between : S → S) (current : IdentityMap WatermarkState) (candidates : IdentityMap ℤ)
        (run : Text) (succeeded : Bool) (mode : ProcessingMode) (s : S)
        → Distinct current
        → AtomicOutcome between current candidates s
            (commit_watermarks_atomically store between current candidates run succeeded mode s)
    unfolding commit_watermarks_atomically
    commit_watermarks-AtomicOutcome between current candidates run succeeded mode s d =
        elim (Result-cases (commit_all_decision store current candidates run succeeded mode)) [
          | inr (why, e) ↦ rw (e, commit_watermarks_atomically) (inl refl)
          | inl (keep_all states, e) ↦ rw (e, commit_watermarks_atomically) (inl refl)
          | inl (advance_all expected run_id, e) ↦
              let (_, same) =
                commit_all_decision-AllDecided current candidates run succeeded mode
                  (advance_all expected run_id) e in
              rw (e, commit_watermarks_atomically)
                (write-AtomicOutcome between current candidates expected run_id s d same)
        ]
