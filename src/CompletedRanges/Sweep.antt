-- ===== src/CompletedRanges/Sweep.antt =====
-- What `summarize_completed_range_coverage` of warehouse/completed_ranges.py reports.
pub mod Contiguous
use real_time_blockchain_ana.Prelude.{
  ℕ, ◌≡◌, refl, ap, sym, ◌∙◌, ◌⊎◌, inl, inr, ◌↔◌, Bool, true, false, List, [], ◌∷◌, ◌++◌, Result,
  ok, err, arith, if◌then◌else◌, Bool-cases,
}
use real_time_blockchain_ana.Prelude.Int.{
  ℤ, pos, ◌+ℤ◌, ◌-ℤ◌, ◌≤ℤ◌, ◌<ℤ◌, int_laws, ltb_ℤ, leb_ℤ, max_ℤ, ltb_ℤ→lt, ltb_ℤ→le, eq_of_parts,
  max_ℤ_parts,
}
use real_time_blockchain_ana.Prelude.Lists.{All, Any}
use real_time_blockchain_ana.Python.Sort.{sorted, IsSorted, sorted-IsSorted, Any-sorted, sorted-Any}
use real_time_blockchain_ana.AaveForward.{CompletedBlockRange, highest_contiguous_block}
use real_time_blockchain_ana.AaveForward.Coverage.{
  Contains, Covered, IsHighestContiguous, IsHighestContiguous-unique, highest-IsHighestContiguous,
}
use real_time_blockchain_ana.CompletedRanges.{
  Interval, interval_of, same_interval, interval_lt, count_key, count_from, keys, SweepState,
  sweep_step, sweep, sweep_start, CompletedRangeCoverage, summarize_completed_range_coverage,
}

abbrev pub Has : ℤ → Interval → Type 0
Has b i = (i.first ≤ℤ b) × (b ≤ℤ i.last)

-- The block lies in one of the intervals.
abbrev pub Within : ℤ → List Interval → Type 0
Within b is = Any (Has b) is

interval_lt_asym : (a b : Interval) → interval_lt a b ≡ true → interval_lt b a ≡ false
interval_lt_asym a b h = ground arith

interval_lt_trans :
    (a b c : Interval) → interval_lt b a ≡ false → interval_lt c b ≡ false → interval_lt c a ≡ false
interval_lt_trans a b c h k = ground arith

interval_lt-first : (a b : Interval) → interval_lt b a ≡ false → a.first ≤ℤ b.first
interval_lt-first a b h = ground arith

same_interval→eq : (a b : Interval) → same_interval a b ≡ true → a ≡ b
same_interval→eq a b h = ground (arith, eq_of_parts a.first b.first, eq_of_parts a.last b.last)

-- Counting loses no interval and makes none up.
module _ (P : Interval → Type 0) where
  count_key-Any :
      (k : Interval) (c : List (Interval × ℕ))
      → Any P (keys (count_key k c)) ↔ (P k ⊎ Any P (keys c))
  unfolding count_key
  count_key-Any k [] = ((λ h. h), (λ h. h))
  count_key-Any k ((j, n) ∷ c) = elim (Bool-cases (same_interval j k)) [
    | inl e ↦
        rw e
          ((λ h. inr h), (λ h. elim h [ inl p ↦ inl (rw (same_interval→eq j k e) p) | inr q ↦ q ]))
    | inr e ↦
        let (f, g) = count_key-Any k c in
        rw e (
          (λ h. elim h [
            | inl p ↦ inr (inl p)
            | inr q ↦ elim (f q) [ inl a ↦ inl a | inr b ↦ inr (inr b) ]
          ]),
          (λ h. elim h [
            | inl p ↦ inr (g (inl p))
            | inr q ↦ elim q [ inl a ↦ inl a | inr b ↦ inr (g (inr b)) ]
          ]),
        )
  ]

  count_from-Any :
      (c : List (Interval × ℕ)) (rs : List CompletedBlockRange)
      → Any P (keys (count_from c rs)) ↔ (Any P (keys c) ⊎ Any (λ r. P (interval_of r)) rs)
  unfolding count_from
  count_from-Any c [] = ((λ h. inl h), (λ h. elim h [ inl a ↦ a | inr b ↦ absurd b ]))
  count_from-Any c (r ∷ rs) =
      let (f, g) = count_from-Any (count_key (interval_of r) c) rs in
      let (f', g') = count_key-Any (interval_of r) c in
      (
        (λ h. elim (f h) [
          | inl a ↦ elim (f' a) [ inl p ↦ inr (inl p) | inr q ↦ inl q ]
          | inr b ↦ inr (inr b)
        ]),
        (λ h. elim h [
          | inl a ↦ g (inl (g' (inr a)))
          | inr b ↦ elim b [ inl p ↦ g (inl (g' (inl p))) | inr q ↦ g (inr q) ]
        ]),
      )

-- The intervals that are swept cover the blocks that the ranges cover.
pub swept-Covered :
    (b : ℤ) (rs : List CompletedBlockRange)
    → Within b (sorted interval_lt (keys (count_from [] rs))) ↔ Covered b rs
swept-Covered b rs =
    let (f, g) = count_from-Any (Has b) [] rs in
    (
      (λ h. elim (f (Any-sorted interval_lt (Has b) (keys (count_from [] rs)) h)) [
        | inl none_yet ↦ absurd none_yet
        | inr c ↦ c
      ]),
      (λ c. sorted-Any interval_lt (Has b) (keys (count_from [] rs)) (g (inr c))),
    )

pub swept-IsSorted :
    (rs : List CompletedBlockRange)
    → IsSorted interval_lt (sorted interval_lt (keys (count_from [] rs)))
swept-IsSorted rs =
    sorted-IsSorted interval_lt interval_lt_asym interval_lt_trans (keys (count_from [] rs))

-- No later interval contains a block that comes before the first.
pub not-Within_before :
    (b : ℤ) (i : Interval) (is : List Interval)
    → All (λ j. interval_lt j i ≡ false) is
    → b <ℤ i.first
    → ¬ Within b is
not-Within_before b i [] h lt c = c
not-Within_before b i (x ∷ xs) h lt (inl c) = omega (arith, interval_lt-first i x h.0)
not-Within_before b i (x ∷ xs) h lt (inr c) = not-Within_before b i xs h.1 lt c
