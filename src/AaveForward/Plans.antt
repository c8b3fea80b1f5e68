-- ===== src/AaveForward/Plans.antt =====
-- The plans of orchestration/aave_forward.py.
use real_time_blockchain_ana.Prelude.{
  subst, ok-injective, sym, ◌≡◌, refl, ◌∙◌, ◌⊎◌, inl, inr, true, false, Option, none, some, List,
  ◌∷◌, ◌++◌, ok, arith, Bool-cases,
}
use real_time_blockchain_ana.Prelude.Int.{
  ℤ, pos, ◌+ℤ◌, ◌-ℤ◌, ◌≤ℤ◌, ◌<ℤ◌, int_laws, ltb_ℤ, leb_ℤ, min_ℤ, min_ℤ_parts, ltb_ℤ→lt, ltb_ℤ→le,
}
use real_time_blockchain_ana.Prelude.Lists.{Any-append_right, Any-insert_middle}
use real_time_blockchain_ana.Python.Text.{Text, codes}
use real_time_blockchain_ana.AaveForward.{
  CompletedBlockRange, completed_block_range, highest_contiguous_block, AaveForwardPlan,
  plan_forward_increment, AaveBootstrapPlan, next_chunk, no_interval, interval,
  plan_next_bootstrap_chunk, eligible_bootstrap_watermark,
}
use real_time_blockchain_ana.AaveForward.Coverage.{
  Contains, Covered, IsHighestContiguous, highest-IsHighestContiguous, covered-le,
}

-- A planned interval continues the committed one without a gap, stays at or below the safe head and
-- has between one and `max_blocks` blocks.
abbrev pub PlansInterval : ℤ → ℤ → ℤ → AaveForwardPlan → Type 0
PlansInterval committed safe_head max_blocks plan =
    (first : ℤ) × (last : ℤ) × (plan.start_block ≡ some first)
    × (plan.end_block ≡ some last)
    × (first ≡ committed +ℤ pos 1)
    × (first ≤ℤ last)
    × (last ≤ℤ safe_head)
    × (last -ℤ first +ℤ pos 1 ≤ℤ max_blocks)
    × ((last ≡ safe_head) ⊎ (last -ℤ first +ℤ pos 1 ≡ max_blocks))

full_or_capped :
    (safe_head committed max_blocks : ℤ)
    → let last = min_ℤ safe_head (committed +ℤ pos 1 +ℤ max_blocks -ℤ pos 1) in
      (last ≡ safe_head) ⊎ (last -ℤ (committed +ℤ pos 1) +ℤ pos 1 ≡ max_blocks)
full_or_capped safe_head committed max_blocks =
    elim (min_ℤ_parts safe_head (committed +ℤ pos 1 +ℤ max_blocks -ℤ pos 1)).2 [
      | inl a ↦ inl (omega int_laws)
      | inr b ↦ inr (omega int_laws)
    ]

-- With blocks that are not negative and a positive limit, `plan_forward_increment` plans nothing if
-- the safe head is committed, and otherwise the next interval, as long as the limit and the safe
-- head allow.
pub plan_forward_increment_lem :
    (committed safe_head max_blocks : ℤ)
    → pos 0 ≤ℤ committed
    → pos 0 ≤ℤ safe_head
    → pos 0 <ℤ max_blocks
    → (plan : AaveForwardPlan) × (plan_forward_increment committed safe_head max_blocks ≡ ok plan)
      × (((safe_head ≤ℤ committed) × (plan.start_block ≡ none) × (plan.end_block ≡ none))
          ⊎ ((committed <ℤ safe_head) × PlansInterval committed safe_head max_blocks plan))
unfolding plan_forward_increment
plan_forward_increment_lem committed safe_head max_blocks h k m =
    elim (Bool-cases (leb_ℤ safe_head committed)) [
      | inl done ↦ (no_interval committed safe_head, ground arith, inl (ground arith, refl, refl))
      | inr more ↦
          let first = committed +ℤ pos 1 in
          let last = min_ℤ safe_head (first +ℤ max_blocks -ℤ pos 1) in
          let lt : committed <ℤ safe_head = ground arith in
          (
            interval committed safe_head first last,
            ground arith,
            inr (
              lt,
              (
                first,
                last,
                refl,
                refl,
                refl,
                omega int_laws,
                omega int_laws,
                omega int_laws,
                full_or_capped safe_head committed max_blocks,
              ),
            ),
          )
    ]

completed_block_range_ok :
    (a b : ℤ) (run : Text)
    → pos 0 ≤ℤ a
    → a ≤ℤ b
    → completed_block_range a b run none
      ≡ ok (record { start_block = a; end_block = b; successful_run_id = run; completed_at = none })
unfolding completed_block_range
completed_block_range_ok a b run h k = ground arith

-- The plan of the next bootstrap chunk, for the highest contiguous block `end`.
abbrev pub PlansChunk : ℤ → ℤ → ℤ → ℤ → AaveBootstrapPlan → Type 0
PlansChunk start safe_end chunk_size end plan =
    (plan.highest_contiguous_block ≡ end)
    × (((safe_end ≤ℤ end) × (plan.next_range ≡ none))
        ⊎ ((end <ℤ safe_end)
            × ((r : CompletedBlockRange) × (plan.next_range ≡ some r)
                × (r.start_block ≡ end +ℤ pos 1)
                × (r.start_block ≤ℤ r.end_block)
                × (r.end_block ≤ℤ safe_end)
                × (r.end_block -ℤ r.start_block +ℤ pos 1 ≤ℤ chunk_size))))

abbrev planned_chunk : ℤ → ℤ → Option CompletedBlockRange → ℤ → AaveBootstrapPlan
planned_chunk start safe_end next end = record {
  project_start_block = start;
  safe_end_block = safe_end;
  next_range = next;
  highest_contiguous_block = end;
}

next_chunk-PlansChunk :
    (start safe_end chunk_size end : ℤ)
    → pos 0 <ℤ chunk_size
    → pos 0 ≤ℤ end +ℤ pos 1
    → (next : Option CompletedBlockRange) × (next_chunk end safe_end chunk_size ≡ ok next)
      × PlansChunk start safe_end chunk_size end (planned_chunk start safe_end next end)
unfolding next_chunk
next_chunk-PlansChunk start safe_end chunk_size end m low = elim (Bool-cases (leb_ℤ safe_end end)) [
  | inl done ↦ (none, rw done refl, (refl, inl (ground arith, refl)))
  | inr more ↦
      let lt : end <ℤ safe_end = ground arith in
      let first = end +ℤ pos 1 in
      let last = min_ℤ safe_end (first +ℤ chunk_size -ℤ pos 1) in
      (
        some (record {
          start_block = first;
          end_block = last;
          successful_run_id = codes "";
          completed_at = none;
        }),
        rw (more, completed_block_range_ok first last (codes "") low (omega int_laws)) refl,
        (refl, inr (lt, (_, refl, refl, omega int_laws, omega int_laws, omega int_laws))),
      )
]

-- For a project start that is not negative, a safe end that does not precede it and a positive
-- chunk size, the bootstrap plan never raises: it plans nothing exactly if the coverage reaches the
-- safe end, and otherwise a chunk that begins at the first uncovered block, ends at the safe end at
-- the latest and is no longer than the chunk size.
pub plan_next_bootstrap_chunk_lem :
    (start safe_end chunk_size : ℤ) (ranges : List CompletedBlockRange)
    → pos 0 ≤ℤ start
    → start ≤ℤ safe_end
    → pos 0 <ℤ chunk_size
    → (end : ℤ) × (plan : AaveBootstrapPlan) × (plan_next_bootstrap_chunk start safe_end chunk_size
          ranges
        ≡ ok plan)
      × IsHighestContiguous start end ranges
      × PlansChunk start safe_end chunk_size end plan
unfolding plan_next_bootstrap_chunk
plan_next_bootstrap_chunk_lem start safe_end chunk_size ranges h k m =
    let (end, e, highest) = highest-IsHighestContiguous start ranges h in
    let (next, n, planned) =
      next_chunk-PlansChunk start safe_end chunk_size end m (omega (int_laws, highest.reaches)) in
    let g1 : ltb_ℤ safe_end start ≡ false = ground arith in
    let g2 : leb_ℤ chunk_size (pos 0) ≡ false = ground arith in
    (end, planned_chunk start safe_end next end, rw (g1, g2, e, n) refl, highest, planned)

-- For a project start that is not negative, `eligible_bootstrap_watermark` proposes the safe end
-- exactly if each block from the project start to it lies in a completed range.
pub eligible_bootstrap_watermark_lem :
    (start safe_end : ℤ) (ranges : List CompletedBlockRange)
    → pos 0 ≤ℤ start
    → let covered = (b : ℤ) → start ≤ℤ b → b ≤ℤ safe_end → Covered b ranges in
      (covered × (eligible_bootstrap_watermark start safe_end ranges ≡ ok (some safe_end)))
      ⊎ ((¬ covered) × (eligible_bootstrap_watermark start safe_end ranges ≡ ok none))
unfolding eligible_bootstrap_watermark
eligible_bootstrap_watermark_lem start safe_end ranges h =
    let (end, e, highest) = highest-IsHighestContiguous start ranges h in
    elim (Bool-cases (leb_ℤ safe_end end)) [
      | inl done ↦
          inl ((λ b lo hi. highest.covers b lo (le_end safe_end end b done hi)), rw (e, done))
      | inr more ↦ inr (
        (λ all. more_blocks safe_end end more (covered-le start end safe_end ranges highest all)),
        rw (e, more),
      )
    ]
  where
    le_end : (s e b : ℤ) → leb_ℤ s e ≡ true → b ≤ℤ s → b ≤ℤ e
    le_end s e b h k = ground arith

    more_blocks : (s e : ℤ) → leb_ℤ s e ≡ false → s ≤ℤ e → ⊥
    more_blocks s e h k = ground arith

chunk_bounds :
    (start safe_end chunk_size end : ℤ) (plan : AaveBootstrapPlan) (r : CompletedBlockRange)
    → PlansChunk start safe_end chunk_size end plan
    → plan.next_range ≡ some r
    → (r.start_block ≡ end +ℤ pos 1) × (r.start_block ≤ℤ r.end_block)
chunk_bounds start safe_end chunk_size end plan r (_, inl (_, absent)) next = cc
chunk_bounds start safe_end chunk_size end plan r (_, inr (_, (x, there, first, long, _, _))) next =
    let same : x ≡ r = cc in
    subst
      (λ (y : CompletedBlockRange). (y.start_block ≡ end +ℤ pos 1) × (y.start_block ≤ℤ y.end_block))
      same (first, long)

beyond_end :
    (end : ℤ) (r : CompletedBlockRange) (end' : ℤ)
    → r.start_block ≡ end +ℤ pos 1
    → r.start_block ≤ℤ r.end_block
    → r.end_block ≤ℤ end'
    → end <ℤ end'
beyond_end end r end' first long reached =
    omega (int_laws, subst (λ x. x ≤ℤ r.end_block) first long)

Contains-chunk :
    (end b : ℤ) (r r' : CompletedBlockRange)
    → r.start_block ≡ end +ℤ pos 1
    → r'.start_block ≡ r.start_block
    → r'.end_block ≡ r.end_block
    → end <ℤ b
    → b ≤ℤ r.end_block
    → Contains b r'
Contains-chunk end b r r' first s e lo hi = (rw (s, first) (omega int_laws), rw e hi)

-- A bootstrap makes progress, for a project start that is not negative, a safe end that does not
-- precede it and a positive chunk size: if the bootstrap plan for some evidence has a chunk, then
-- once a range with the chunk's bounds is recorded, wherever in the evidence, the highest
-- contiguous block is at least the end of the chunk, and so beyond the one that the plan was made
-- for.
pub bootstrap_progress :
    (start safe_end chunk_size : ℤ) (plan : AaveBootstrapPlan) (r r' : CompletedBlockRange)
    (before after : List CompletedBlockRange)
    → pos 0 ≤ℤ start
    → start ≤ℤ safe_end
    → pos 0 <ℤ chunk_size
    → plan_next_bootstrap_chunk start safe_end chunk_size (before ++ after) ≡ ok plan
    → plan.next_range ≡ some r
    → r'.start_block ≡ r.start_block
    → r'.end_block ≡ r.end_block
    → (end' : ℤ) × (highest_contiguous_block start (before ++ r' ∷ after) ≡ ok end')
      × (r.end_block ≤ℤ end')
      × (plan.highest_contiguous_block <ℤ end')
bootstrap_progress start safe_end chunk_size plan r r' before after h k m made next s e =
    let (end, plan', made', highest, planned') =
      plan_next_bootstrap_chunk_lem start safe_end chunk_size (before ++ after) h k m in
    let planned =
      subst (PlansChunk start safe_end chunk_size end) (ok-injective (sym made' ∙ made)) planned' in
    let (first, long) = chunk_bounds start safe_end chunk_size end plan r planned next in
    let (end', e', highest') = highest-IsHighestContiguous start (before ++ r' ∷ after) h in
    let reached = covered-le start end' r.end_block (before ++ r' ∷ after) highest' (λ b lo hi.
      elim (Bool-cases (ltb_ℤ end b)) [
        | inl beyond ↦
            Any-append_right (Contains b) before (r' ∷ after)
              (inl (Contains-chunk end b r r' first s e (ltb_ℤ→lt end b beyond) hi))
        | inr within ↦
            Any-insert_middle (Contains b) r' before after
              (highest.covers b lo (ltb_ℤ→le end b within))
      ]) in
    (end', e', reached, rw (planned.0) (beyond_end end r end' first long reached))
