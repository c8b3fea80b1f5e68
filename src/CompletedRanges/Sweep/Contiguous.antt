-- ===== src/CompletedRanges/Sweep/Contiguous.antt =====
-- The sweep's contiguous end agrees with `highest_contiguous_block`.
use real_time_blockchain_ana.Prelude.{
  ◌≡◌, refl, ap, ◌∙◌, subst, inl, inr, true, false, List, [], ◌∷◌, ok, arith, if◌then◌else◌,
  Bool-cases,
}
use real_time_blockchain_ana.Prelude.Int.{
  ℤ, pos, ◌+ℤ◌, ◌≤ℤ◌, ◌<ℤ◌, int_laws, ltb_ℤ, leb_ℤ, max_ℤ, ltb_ℤ→lt, ltb_ℤ→le,
}
use real_time_blockchain_ana.Prelude.Lists.{All, length}
use real_time_blockchain_ana.Python.Sort.{sorted, IsSorted}
use real_time_blockchain_ana.AaveForward.{CompletedBlockRange, highest_contiguous_block}
use real_time_blockchain_ana.AaveForward.Coverage.{
  IsHighestContiguous, IsHighestContiguous-unique, highest-IsHighestContiguous,
}
use real_time_blockchain_ana.CompletedRanges.{
  Interval, interval_lt, count_from, keys, SweepState, sweep_step, sweep, sweep_start,
  CompletedRangeCoverage, summarize_completed_range_coverage, duplicates,
}
use real_time_blockchain_ana.CompletedRanges.Sweep.{
  Within, swept-Covered, swept-IsSorted, not-Within_before,
}

leb_ℤ→le : (a b : ℤ) → leb_ℤ a b ≡ true → a ≤ℤ b
leb_ℤ→le a b h = ground arith

leb_ℤ→lt : (a b : ℤ) → leb_ℤ a b ≡ false → b <ℤ a
leb_ℤ→lt a b h = ground arith

module _ (start : ℤ) where
  record Sweeps (from : ℤ) (is : List Interval) (to : ℤ) : Type 0 where
    grows : from ≤ℤ to
    covers : (b : ℤ) → from <ℤ b → b ≤ℤ to → Within b is
    stops : ¬ Within (to +ℤ pos 1) is

  Sweeps-skip :
      (from : ℤ) (i : Interval) (is : List Interval) (to : ℤ)
      → start ≤ℤ from +ℤ pos 1
      → i.last <ℤ start
      → Sweeps from is to
      → Sweeps from (i ∷ is) to
  Sweeps-skip from i is to low past s = record {
    grows = s.grows;
    covers = λ b lo hi. inr (s.covers b lo hi);
    stops = λ c. elim c [ inl here ↦ omega (int_laws, s.grows) | inr later ↦ s.stops later ];
  }

  Sweeps-gap :
      (from : ℤ) (i : Interval) (is : List Interval) (to : ℤ)
      → start ≤ℤ from +ℤ pos 1
      → All (λ j. interval_lt j i ≡ false) is
      → from +ℤ pos 1 <ℤ max_ℤ i.first start
      → Sweeps from is to
      → Sweeps from (i ∷ is) to
  Sweeps-gap from i is to low after gap s = record {
    grows = s.grows;
    covers = λ b lo hi. inr (s.covers b lo hi);
    stops = λ c. elim c [
      | inl here ↦ elim (Bool-cases (ltb_ℤ from to)) [
        | inl more ↦
            not-Within_before (from +ℤ pos 1) i is after (omega int_laws)
              (s.covers (from +ℤ pos 1) (omega int_laws) (omega (int_laws, ltb_ℤ→lt from to more)))
        | inr same ↦ omega (int_laws, ltb_ℤ→le from to same)
      ]
      | inr later ↦ s.stops later
    ];
  }

  Sweeps-extend :
      (from : ℤ) (i : Interval) (is : List Interval) (to : ℤ)
      → max_ℤ i.first start ≤ℤ from +ℤ pos 1
      → Sweeps (max_ℤ from i.last) is to
      → Sweeps from (i ∷ is) to
  Sweeps-extend from i is to near s = record {
    grows = omega (int_laws, s.grows);
    covers = λ b lo hi. elim (Bool-cases (ltb_ℤ (max_ℤ from i.last) b)) [
      | inl beyond ↦ inr (s.covers b (ltb_ℤ→lt (max_ℤ from i.last) b beyond) hi)
      | inr within ↦ inl (omega int_laws, omega (int_laws, ltb_ℤ→le (max_ℤ from i.last) b within))
    ];
    stops = λ c. elim c [ inl here ↦ omega (int_laws, s.grows) | inr later ↦ s.stops later ];
  }

  step_contiguous :
      (s : SweepState) (i : Interval)
      → (sweep_step start s i).contiguous_end ≡ (
          if ltb_ℤ i.last start
          then s.contiguous_end
          else if leb_ℤ (max_ℤ i.first start) (s.contiguous_end +ℤ pos 1)
          then max_ℤ s.contiguous_end i.last
          else s.contiguous_end)
  unfolding sweep_step
  step_contiguous s i = elim (Bool-cases (ltb_ℤ i.last start)) [
    | inl e ↦ rw e refl
    | inr e ↦ rw e refl
  ]

  sweep-Sweeps :
      (s : SweepState) (is : List Interval)
      → start ≤ℤ s.contiguous_end +ℤ pos 1
      → IsSorted interval_lt is
      → Sweeps s.contiguous_end is (sweep start s is).contiguous_end
  unfolding sweep
  sweep-Sweeps s [] low h = record {
    grows = omega arith;
    covers = λ b lo hi. absurd (omega arith);
    stops = λ c. c;
  }
  sweep-Sweeps s (i ∷ is) low h =
      let to = (sweep start (sweep_step start s i) is).contiguous_end in
      let rest = λ (lower : start ≤ℤ (sweep_step start s i).contiguous_end +ℤ pos 1).
        sweep-Sweeps (sweep_step start s i) is lower h.1 in
      let step = step_contiguous s i in
      elim (Bool-cases (ltb_ℤ i.last start)) [
        | inl past ↦
            let same = step ∙ rw past refl in
            Sweeps-skip s.contiguous_end i is to low (ltb_ℤ→lt i.last start past)
              (subst (λ c. Sweeps c is to) same (rest (rw same low)))
        | inr live ↦ elim (Bool-cases (leb_ℤ (max_ℤ i.first start) (s.contiguous_end +ℤ pos 1))) [
          | inl near ↦
              let same : (sweep_step start s i).contiguous_end ≡ max_ℤ s.contiguous_end i.last =
                step ∙ rw (live, near) refl in
              Sweeps-extend s.contiguous_end i is to
                (leb_ℤ→le (max_ℤ i.first start) (s.contiguous_end +ℤ pos 1) near)
                (subst (λ c. Sweeps c is to) same (rest (rw same (omega int_laws))))
          | inr gap ↦
              let same = step ∙ rw (live, gap) refl in
              Sweeps-gap s.contiguous_end i is to low h.0
                (leb_ℤ→lt (max_ℤ i.first start) (s.contiguous_end +ℤ pos 1) gap)
                (subst (λ c. Sweeps c is to) same (rest (rw same low)))
        ]
      ]

-- For a project start that is not negative, `summarize_completed_range_coverage` succeeds on any
-- completed ranges, and the contiguous end that its one pass computes is the block that
-- `highest_contiguous_block` computes from the same ranges.
pub summarize-highest_contiguous_block :
    (start : ℤ) (rs : List CompletedBlockRange)
    → pos 0 ≤ℤ start
    → (c : CompletedRangeCoverage) × (summarize_completed_range_coverage start rs ≡ ok c)
      × (highest_contiguous_block start rs ≡ ok c.highest_contiguous_block)
unfolding summarize_completed_range_coverage
summarize-highest_contiguous_block start rs h =
    let is = sorted interval_lt (keys (count_from [] rs)) in
    let s = sweep-Sweeps start (sweep_start start) is (omega int_laws) (swept-IsSorted rs) in
    let end = (sweep start (sweep_start start) is).contiguous_end in
    let here : IsHighestContiguous start end rs = record {
      reaches = omega (int_laws, s.grows);
      covers = λ b lo hi. (swept-Covered b rs).0 (s.covers b (omega int_laws) hi);
      stops = λ c. s.stops ((swept-Covered (end +ℤ pos 1) rs).1 c);
    } in
    let (best, e, highest) = highest-IsHighestContiguous start rs h in
    let counts = count_from [] rs in
    (
      record {
        physical_rows = length rs;
        logical_ranges = length counts;
        duplicate_groups = duplicates counts;
        highest_contiguous_block = end;
        gaps = (sweep start (sweep_start start) is).gaps;
      },
      ground arith,
      e ∙ ap ok (IsHighestContiguous-unique start best end rs highest here),
    )
