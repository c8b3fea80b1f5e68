-- ===== src/BlockSearch/Bisection.antt =====
-- The loop of `resolve_first_block_at_or_after` of backfill/block_search.py.
use real_time_blockchain_ana.Prelude.{
  if◌then◌else◌, true, ◌⊎◌, Bool, Option, some, err, ℕ, zero, suc, ◌+◌, ◌-◌, ◌/◌, ◌^◌, ◌≤◌, ◌<◌,
  ◌≡◌, refl, sym, inl, inr, false, Result, ok, arith, Bool-cases, ltb, leb, ltb→lt, leb→le, subst,
}
use native.Mathlib.Nat.{two-pow-succ}
use real_time_blockchain_ana.Python.Time.{Instant}
use real_time_blockchain_ana.BlockSearch.{BlockTimestampRpc, bisect_turn, bisect, timestamp_of}

middle-bounds : (low high : ℕ) → low < high → (low ≤ (low + high) / 2) × ((low + high) / 2 < high)
middle-bounds low high h = (omega arith, omega arith)

-- With the timestamps `t`, `n` is the first block of the range that reaches the boundary.
abbrev pub First : (ℕ → Instant) → Instant → ℕ → ℕ → ℕ → Type 0
First t boundary low high n =
    (low ≤ n) × (n ≤ high) × (boundary ≤ t n) × ((m : ℕ) → low ≤ m → m < n → t m < boundary)

turn-ends :
    (boundary : Instant) (more : Bool) (stamp : Result Instant) (low : ℕ) (l u : Result ℕ)
    → (r : Result ℕ) × ((if more
          then bisect_turn boundary stamp (some l) (some u)
          else some (ok low))
        ≡ some r)
unfolding bisect_turn
turn-ends boundary false stamp low l u = (ok low, refl)
turn-ends boundary true (err e) low l u = (err e, refl)
turn-ends boundary true (ok t) low l u = elim (Bool-cases (leb boundary t)) [
  | inl e ↦ (l, rw e refl)
  | inr e ↦ (u, rw e refl)
]

-- A turn that gives a block has read a timestamp.
turn-ok :
    (boundary : Instant) (stamp : Result Instant) (l u : Option (Result ℕ)) (n : ℕ)
    → bisect_turn boundary stamp l u ≡ some (ok n)
    → (l ≡ some (ok n)) ⊎ (u ≡ some (ok n))
unfolding bisect_turn
turn-ok boundary (err e) l u n h = absurd (cc h)
turn-ok boundary (ok t) l u n h = elim (Bool-cases (leb boundary t)) [
  | inl e ↦ inl (rw e at h)
  | inr e ↦ inr (rw e at h)
]

module _ (rpc : BlockTimestampRpc) (boundary : Instant) where
  -- The loop ends: a step halves the range, so that for a range of less than `2 ^ k` blocks it has
  -- a result within `k` steps, whatever the client answers, and has the same one with more steps.
  pub bisect-fuel :
      (k fuel low high : ℕ)
      → high - low < 2 ^ k
      → k ≤ fuel
      → (r : Result ℕ) × (bisect rpc boundary k low high ≡ some r)
        × (bisect rpc boundary fuel low high ≡ some r)
  unfolding bisect
  bisect-fuel zero zero low high h g =
      let done : ltb low high ≡ false = ground arith in (ok low, rw done refl, rw done refl)
  bisect-fuel zero (suc fuel) low high h g =
      let done : ltb low high ≡ false = ground arith in (ok low, rw done refl, rw done refl)
  bisect-fuel (suc k) zero low high h g = absurd (omega (arith, g))
  bisect-fuel (suc k) (suc fuel) low high h g =
      let middle = (low + high) / 2 in
      let twice = two-pow-succ k in
      let left : middle - low < 2 ^ k = omega (arith, h, twice) in
      let right : high - (middle + 1) < 2 ^ k = omega (arith, h, twice) in
      let more : k ≤ fuel = omega (arith, g) in
      let (l, l1, l2) = bisect-fuel k fuel low middle left more in
      let (u, u1, u2) = bisect-fuel k fuel (middle + 1) high right more in
      let (r, ends) = turn-ends boundary (ltb low high) (timestamp_of rpc middle) low l u in
      (r, rw (l1, u1) ends, rw (l2, u2) ends)

  -- Where it ends: inside the range.
  pub bisect-bounds :
      (fuel low high n : ℕ)
      → low ≤ high
      → bisect rpc boundary fuel low high ≡ some (ok n)
      → (low ≤ n) × (n ≤ high)
  unfolding bisect
  bisect-bounds zero low high n le h = elim (Bool-cases (ltb low high)) [
    | inl e ↦ let f = rw e at h in cc
    | inr e ↦ let f : low ≡ n = cc (rw e at h) in (omega arith, omega arith)
  ]
  bisect-bounds (suc fuel) low high n le h =
      let middle = (low + high) / 2 in
      elim (Bool-cases (ltb low high)) [
        | inr e ↦ let f : low ≡ n = cc (rw e at h) in (omega arith, omega arith)
        | inl e ↦
            let (m1, m2) = middle-bounds low high (ltb→lt low high e) in
            elim (turn-ok boundary (timestamp_of rpc middle) _ _ n (rw e at h)) [
              | inl next ↦
                  let (a, b) = bisect-bounds fuel low middle n m1 next in (a, omega (arith, b, m2))
              | inr next ↦
                  let (a, b) = bisect-bounds fuel (middle + 1) high n omega (arith, m2) next in
                  (omega (arith, a, m1), b)
            ]
      ]

  module _ (t : ℕ → Instant) (upper : ℕ)
      (answers : (n : ℕ) → n ≤ upper → timestamp_of rpc n ≡ ok (t n))
      (monotone : (a b : ℕ) → a ≤ b → b ≤ upper → t a ≤ t b) where
    stops-First :
        (low high : ℕ)
        → low ≡ high
        → boundary ≤ t high
        → (n : ℕ) × (Path (Option (Result ℕ)) (some (ok low)) (some (ok n)))
          × First t boundary low high n
    stops-First low high e hb = (
      low,
      refl,
      (
        omega arith,
        omega (arith, e),
        subst (λ k. boundary ≤ t k) (sym e) hb,
        λ m p q. absurd (omega (arith, p, q)),
      ),
    )

    -- With timestamps that do not decrease, the loop finds the first block that reaches the
    -- boundary.
    pub bisect-First :
        (fuel low high : ℕ)
        → low ≤ high
        → high ≤ upper
        → high - low ≤ fuel
        → boundary ≤ t high
        → (n : ℕ) × (bisect rpc boundary fuel low high ≡ some (ok n)) × First t boundary low high n
    unfolding bisect bisect_turn
    bisect-First zero low high le hu hf hb =
        let done : ltb low high ≡ false = ground arith in
        rw (done, bisect) (stops-First low high (omega (arith, le, hf)) hb)
    bisect-First (suc fuel) low high le hu hf hb =
        let middle = (low + high) / 2 in
        elim (Bool-cases (ltb low high)) [
          | inr e ↦ rw (e, bisect) (stops-First low high (ground arith) hb)
          | inl e ↦
              let (m1, m2) = middle-bounds low high (ltb→lt low high e) in
              elim (Bool-cases (leb boundary (t middle))) [
                | inl reached ↦
                    let (n, found, (a, b, c, d)) =
                      bisect-First fuel low middle (omega arith) (omega (arith, hu, m2))
                        (omega (arith, hf, m2)) (leb→le boundary (t middle) reached) in
                    (
                      n,
                      rw (e, answers middle (omega (arith, hu, m2)), reached) found,
                      (a, omega (arith, b, m2), c, d),
                    )
                | inr below ↦
                    let early : t middle < boundary = ground arith in
                    let (n, found, (a, b, c, d)) =
                      bisect-First fuel (middle + 1) high (omega (arith, m2)) hu
                        (omega (arith, hf, m1)) hb in
                    (
                      n,
                      rw (e, answers middle (omega (arith, hu, m2)), below) found,
                      (
                        omega (arith, a, m1),
                        b,
                        c,
                        λ m p q. elim (Bool-cases (leb m middle)) [
                          | inl small ↦
                              let up =
                                monotone m middle (leb→le m middle small) (omega (arith, hu, m2)) in
                              omega (arith, up, early)
                          | inr large ↦ let big : middle + 1 ≤ m = ground arith in d m big q
                        ],
                      ),
                    )
              ]
        ]
