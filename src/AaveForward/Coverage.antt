-- ===== src/AaveForward/Coverage.antt =====
-- What `highest_contiguous_block` of orchestration/aave_forward.py computes.
use real_time_blockchain_ana.Prelude.{
  ◌≡◌, inl, inr, true, false, List, [], ◌∷◌, ok, arith, Bool-cases,
}
use real_time_blockchain_ana.Prelude.Int.{
  ℤ, pos, ◌+ℤ◌, ◌-ℤ◌, ◌≤ℤ◌, ◌<ℤ◌, int_laws, ltb_ℤ, max_ℤ, ltb_ℤ→lt, ltb_ℤ→le,
}
use real_time_blockchain_ana.Prelude.Lists.{All, Any}
use real_time_blockchain_ana.Python.Sort.{sorted, IsSorted, sorted-IsSorted, Any-sorted, sorted-Any}
use real_time_blockchain_ana.AaveForward.{
  CompletedBlockRange, range_lt, contiguous_end_from, highest_contiguous_block,
}

abbrev pub Contains : ℤ → CompletedBlockRange → Type 0
Contains b r = (r.start_block ≤ℤ b) × (b ≤ℤ r.end_block)

-- Some completed range contains the block.
abbrev pub Covered : ℤ → List CompletedBlockRange → Type 0
Covered b rs = Any (Contains b) rs

range_lt_asym : (a b : CompletedBlockRange) → range_lt a b ≡ true → range_lt b a ≡ false
range_lt_asym a b h = ground arith

range_lt_trans :
    (a b c : CompletedBlockRange)
    → range_lt b a ≡ false
    → range_lt c b ≡ false
    → range_lt c a ≡ false
range_lt_trans a b c h k = ground arith

range_lt-start : (a b : CompletedBlockRange) → range_lt b a ≡ false → a.start_block ≤ℤ b.start_block
range_lt-start a b h = ground arith

-- No range of the list contains a block that comes before the start of each.
not-Covered_before :
    (b : ℤ) (r : CompletedBlockRange) (rs : List CompletedBlockRange)
    → All (λ y. range_lt y r ≡ false) rs
    → b <ℤ r.start_block
    → ¬ Covered b rs
not-Covered_before b r [] h lt c = c
not-Covered_before b r (x ∷ rs) h lt (inl c) = omega (arith, range_lt-start r x h.0)
not-Covered_before b r (x ∷ rs) h lt (inr c) = not-Covered_before b r rs h.1 lt c

module _ (start : ℤ) where
  -- The loop never goes back, covers what it passes, and stops before a block that no range has.
  record Scanned (from : ℤ) (rs : List CompletedBlockRange) (to : ℤ) : Type 0 where
    grows : from ≤ℤ to
    covers : (b : ℤ) → from <ℤ b → b ≤ℤ to → Covered b rs
    stops : ¬ Covered (to +ℤ pos 1) rs

  scan_skip :
      (from : ℤ) (r : CompletedBlockRange) (rs : List CompletedBlockRange) (to : ℤ)
      → start ≤ℤ from +ℤ pos 1
      → r.end_block <ℤ start
      → Scanned from rs to
      → Scanned from (r ∷ rs) to
  scan_skip from r rs to low past s = record {
    grows = s.grows;
    covers = λ b lo hi. inr (s.covers b lo hi);
    stops = λ c. elim c [ inl here ↦ omega (int_laws, s.grows) | inr later ↦ s.stops later ];
  }

  scan_break :
      (from : ℤ) (r : CompletedBlockRange) (rs : List CompletedBlockRange)
      → All (λ y. range_lt y r ≡ false) rs
      → from +ℤ pos 1 <ℤ r.start_block
      → Scanned from (r ∷ rs) from
  scan_break from r rs sorted_after gap = record {
    grows = omega arith;
    covers = λ b lo hi. absurd (omega arith);
    stops = λ c. elim c [
      | inl here ↦ omega arith
      | inr later ↦ not-Covered_before (from +ℤ pos 1) r rs sorted_after gap later
    ];
  }

  scan_extend :
      (from : ℤ) (r : CompletedBlockRange) (rs : List CompletedBlockRange) (to : ℤ)
      → r.start_block ≤ℤ from +ℤ pos 1
      → Scanned (max_ℤ from r.end_block) rs to
      → Scanned from (r ∷ rs) to
  scan_extend from r rs to near s = record {
    grows = omega (int_laws, s.grows);
    covers = λ b lo hi. elim (Bool-cases (ltb_ℤ (max_ℤ from r.end_block) b)) [
      | inl beyond ↦ inr (s.covers b (ltb_ℤ→lt (max_ℤ from r.end_block) b beyond) hi)
      | inr within ↦
          inl (omega int_laws, omega (int_laws, ltb_ℤ→le (max_ℤ from r.end_block) b within))
    ];
    stops = λ c. elim c [ inl here ↦ omega (int_laws, s.grows) | inr later ↦ s.stops later ];
  }

  scan-Scanned :
      (from : ℤ) (rs : List CompletedBlockRange)
      → start ≤ℤ from +ℤ pos 1
      → IsSorted range_lt rs
      → Scanned from rs (contiguous_end_from start from rs)
  unfolding contiguous_end_from
  scan-Scanned from [] low s = record {
    grows = omega arith;
    covers = λ b lo hi. absurd (omega arith);
    stops = λ c. c;
  }
  scan-Scanned from (r ∷ rs) low s = elim (Bool-cases (ltb_ℤ r.end_block start)) [
    | inl past ↦
        rw past (
          scan_skip from r rs _ low (ltb_ℤ→lt r.end_block start past)
            (scan-Scanned from rs low s.1))
    | inr live ↦ elim (Bool-cases (ltb_ℤ (from +ℤ pos 1) r.start_block)) [
      | inl gap ↦
          rw (live, gap) (scan_break from r rs s.0 (ltb_ℤ→lt (from +ℤ pos 1) r.start_block gap))
      | inr near ↦
          rw (live, near)
            (scan_extend from r rs _ (ltb_ℤ→le (from +ℤ pos 1) r.start_block near)
              (scan-Scanned (max_ℤ from r.end_block) rs (omega int_laws) s.1))
    ]
  ]

-- `end` is the highest block up to which every block from `start` is in some range.
pub record IsHighestContiguous (start end : ℤ) (rs : List CompletedBlockRange) : Type 0 where
  pub reaches : start ≤ℤ end +ℤ pos 1
  pub covers : (b : ℤ) → start ≤ℤ b → b ≤ℤ end → Covered b rs
  pub stops : ¬ Covered (end +ℤ pos 1) rs

-- For a project start that is not negative, `highest_contiguous_block` returns the one block up to
-- which the completed ranges, in any order and with any overlaps, leave no gap: each block from the
-- start up to it lies in a range, and the next block lies in none.
pub highest-IsHighestContiguous :
    (start : ℤ) (rs : List CompletedBlockRange)
    → pos 0 ≤ℤ start
    → (end : ℤ) × (highest_contiguous_block start rs ≡ ok end) × IsHighestContiguous start end rs
unfolding highest_contiguous_block
highest-IsHighestContiguous start rs h =
    let scanned =
      scan-Scanned start (start -ℤ pos 1) (sorted range_lt rs) (omega int_laws)
        (sorted-IsSorted range_lt range_lt_asym range_lt_trans rs) in
    (
      contiguous_end_from start (start -ℤ pos 1) (sorted range_lt rs),
      ground arith,
      record {
        reaches = omega (int_laws, scanned.grows);
        covers =
            λ b lo hi. Any-sorted range_lt (Contains b) rs (scanned.covers b (omega int_laws) hi);
        stops = λ c. scanned.stops (sorted-Any range_lt (Contains _) rs c);
      },
    )

-- The end of any covered interval from the start is at most the highest contiguous block.
pub covered-le :
    (start end c : ℤ) (rs : List CompletedBlockRange)
    → IsHighestContiguous start end rs
    → ((b : ℤ) → start ≤ℤ b → b ≤ℤ c → Covered b rs)
    → c ≤ℤ end
covered-le start end c rs h all = elim (Bool-cases (ltb_ℤ end c)) [
  | inl more ↦
      absurd (h.stops (all (end +ℤ pos 1) h.reaches (omega (int_laws, ltb_ℤ→lt end c more))))
  | inr done ↦ ltb_ℤ→le end c done
]

-- The result is the only block of that kind.
pub IsHighestContiguous-unique :
    (start a b : ℤ) (rs : List CompletedBlockRange)
    → IsHighestContiguous start a rs
    → IsHighestContiguous start b rs
    → a ≡ b
IsHighestContiguous-unique start a b rs h k =
    omega (int_laws, covered-le start a b rs h k.covers, covered-le start b a rs k h.covers)
