-- ===== src/BlockSearch/Boundary.antt =====
-- `resolve_first_block_at_or_after` of backfill/block_search.py as a whole.
use real_time_blockchain_ana.Prelude.{
  ℕ, ◌-◌, ◌≤◌, ◌<◌, ◌≡◌, refl, ◌∙◌, ap, inl, inr, false, ◌||◌, Option, none, some, value_error,
  runtime_error, Result, ok, raise_if, arith, Bool-cases, bind-eq-ok, ltb, ok-injective, subst,
}
use real_time_blockchain_ana.Prelude.Int.{ℤ, pos, negsuc, pos_part, ltb_ℤ}
use real_time_blockchain_ana.Python.Time.{Instant, DateTime, aware, naive}
use real_time_blockchain_ana.BlockSearch.{
  BlockTimestampRpc, ResolvedBlockBoundary, timestamp_of, bisect, loop_result, upper_block,
  previous_of, previous_timestamp_of, reaches, as_block, bracket, search,
  resolve_first_block_at_or_after,
}
use real_time_blockchain_ana.BlockSearch.Bisection.{bisect-bounds, bisect-First, First}

loop_result-ok : (r : Option (Result ℕ)) (n : ℕ) → loop_result r ≡ ok n → r ≡ some (ok n)
loop_result-ok none n h = absurd (cc h)
loop_result-ok (some r) n h = ap some h

bounds_valid :
    (lowest top : ℤ) {u : Unit {0}}
    → raise_if (ltb_ℤ lowest (pos 0) || ltb_ℤ top lowest) value_error ≡ ok u
    → (lowest ≡ pos (pos_part lowest))
      × (top ≡ pos (pos_part top))
      × (pos_part lowest ≤ pos_part top)
bounds_valid (pos a) (pos b) h = (refl, refl, ground arith)
bounds_valid (pos a) (negsuc b) h = absurd (ground arith)
bounds_valid (negsuc a) b h = absurd (ground arith)

module _ (rpc : BlockTimestampRpc) where
  -- What a returned boundary says of the block before the selected one: there is none, at the lower
  -- end of the range, or it is earlier than the boundary.
  abbrev pub Precedes : Instant → ℕ → ℕ → Option ℤ → Option Instant → Type 0
  Precedes boundary lowest n none none = n ≡ lowest
  Precedes boundary lowest n (some b) (some p) =
      (lowest < n) × (b ≡ pos (n - 1)) × (timestamp_of rpc (n - 1) ≡ ok p) × (p < boundary)
  Precedes boundary lowest n none (some p) = ⊥
  Precedes boundary lowest n (some b) none = ⊥

  abbrev pub Brackets : Instant → ℕ → ℕ → ResolvedBlockBoundary → Type 0
  Brackets boundary lowest upper r =
      (n : ℕ) × (r.selected_block ≡ pos n)
      × (lowest ≤ n)
      × (n ≤ upper)
      × (r.boundary_timestamp ≡ boundary)
      × (timestamp_of rpc n ≡ ok r.selected_timestamp)
      × (boundary ≤ r.selected_timestamp)
      × Precedes boundary lowest n r.previous_block r.previous_timestamp

  previous-Precedes :
      (boundary : Instant) (lowest n : ℕ) (block : Option ℕ) (stamp : Option Instant)
      → previous_of lowest n ≡ block
      → previous_timestamp_of rpc block ≡ ok stamp
      → reaches boundary stamp ≡ false
      → lowest ≤ n
      → Precedes boundary lowest n (as_block block) stamp
  unfolding previous_of previous_timestamp_of reaches
  previous-Precedes boundary lowest n none none e h early le = ground arith
  previous-Precedes boundary lowest n none (some p) e h early le = cc
  previous-Precedes boundary lowest n (some b) none e h early le =
      let (p, _, h1) = bind-eq-ok (timestamp_of rpc b) _ h in cc
  previous-Precedes boundary lowest n (some b) (some p) e h early le =
      let (q, there, h1) = bind-eq-ok (timestamp_of rpc b) _ h in
      let same : q ≡ p = cc in
      let block : b ≡ n - 1 = ground arith in
      (
        ground arith,
        ap pos block,
        subst (λ k. timestamp_of rpc k ≡ ok p) block (there ∙ ap ok same),
        ground arith,
      )

  bracket-Brackets :
      (boundary : Instant) (lowest upper n : ℕ) (r : ResolvedBlockBoundary)
      → lowest ≤ n
      → n ≤ upper
      → bracket rpc boundary lowest n ≡ ok r
      → Brackets boundary lowest upper r
  unfolding bracket
  bracket-Brackets boundary lowest upper n r a b h =
      let (selected, e1, h1) = bind-eq-ok (timestamp_of rpc n) _ h in
      let (previous, e2, h2) = bind-eq-ok (previous_timestamp_of rpc (previous_of lowest n)) _ h1 in
      let (_, e3, h3) =
        bind-eq-ok (raise_if (ltb selected boundary || reaches boundary previous) runtime_error) _
          h2 in
      let early : ltb selected boundary ≡ false = ground arith in
      let late : reaches boundary previous ≡ false = ground arith in
      subst (Brackets boundary lowest upper) (ok-injective h3) (
        n,
        refl,
        a,
        b,
        refl,
        e1,
        ground arith,
        previous-Precedes boundary lowest n (previous_of lowest n) previous refl e2 late a,
      )

  search-Brackets :
      (boundary : Instant) (lowest upper : ℕ) (r : ResolvedBlockBoundary)
      → lowest ≤ upper
      → search rpc boundary lowest upper ≡ ok r
      → Brackets boundary lowest upper r
  unfolding search
  search-Brackets boundary lowest upper r le h =
      let (top, e1, h1) = bind-eq-ok (timestamp_of rpc upper) _ h in
      let (_, e2, h2) = bind-eq-ok (raise_if (ltb top boundary) value_error) _ h1 in
      let (low, e3, h3) =
        bind-eq-ok (loop_result (bisect rpc boundary (upper - lowest) lowest upper)) _ h2 in
      let (a, b) =
        bisect-bounds rpc boundary (upper - lowest) lowest upper low le (loop_result-ok _ low e3) in
      bracket-Brackets boundary lowest upper low r a b h3

  -- Whatever the RPC client answers, a boundary that is returned is one: the request had an aware
  -- timestamp and valid bounds, the selected block lies within them and its timestamp, as the
  -- client gives it, has reached the boundary, and the block before it, where the range has one,
  -- has a timestamp before the boundary.
  pub resolve-Brackets :
      (boundary_timestamp : DateTime) (lowest_block : ℤ) (highest_block : Option ℤ)
      (r : ResolvedBlockBoundary)
      → resolve_first_block_at_or_after rpc boundary_timestamp lowest_block highest_block ≡ ok r
      → (boundary : Instant) × (lowest : ℕ) × (upper : ℕ) × (boundary_timestamp ≡ aware boundary)
        × (lowest_block ≡ pos lowest)
        × (upper_block rpc highest_block ≡ ok (pos upper))
        × Brackets boundary lowest upper r
  unfolding resolve_first_block_at_or_after
  resolve-Brackets (naive b) lowest_block highest_block r h = cc
  resolve-Brackets (aware b) lowest_block highest_block r h =
      let (top, e1, h1) = bind-eq-ok (upper_block rpc highest_block) _ h in
      let (_, e2, h2) =
        bind-eq-ok (raise_if (ltb_ℤ lowest_block (pos 0) || ltb_ℤ top lowest_block) value_error) _
          h1 in
      let (low, up, le) = bounds_valid lowest_block top e2 in
      (
        b,
        pos_part lowest_block,
        pos_part top,
        refl,
        low,
        e1 ∙ ap ok up,
        search-Brackets b (pos_part lowest_block) (pos_part top) r le h2,
      )

  module _ (t : ℕ → Instant) (lowest upper : ℕ)
      (answers : (n : ℕ) → n ≤ upper → timestamp_of rpc n ≡ ok (t n))
      (monotone : (a b : ℕ) → a ≤ b → b ≤ upper → t a ≤ t b) where
    previous-early :
        (boundary : Instant) (n : ℕ)
        → n ≤ upper
        → ((m : ℕ) → lowest ≤ m → m < n → t m < boundary)
        → (previous : Option Instant) × (previous_timestamp_of rpc (previous_of lowest n)
            ≡ ok previous)
          × (reaches boundary previous ≡ false)
    unfolding previous_of previous_timestamp_of reaches
    previous-early boundary n le d = elim (Bool-cases (ltb lowest n)) [
      | inr e ↦ rw (e, previous_of) (none, refl, refl)
      | inl e ↦
          let before = d (n - 1) (ground arith) (ground arith) in
          rw (e, previous_of)
            (some (t (n - 1)), rw (answers (n - 1) (ground arith)) refl, ground arith)
    ]

    bracket-First :
        (boundary : Instant) (n : ℕ)
        → n ≤ upper
        → First t boundary lowest upper n
        → (r : ResolvedBlockBoundary) × (bracket rpc boundary lowest n ≡ ok r)
          × (r.selected_block ≡ pos n)
          × (r.selected_timestamp ≡ t n)
    unfolding bracket
    bracket-First boundary n le (a, b, c, d) =
        let (previous, found, early) = previous-early boundary n le d in
        let reached : ltb (t n) boundary ≡ false = ground arith in
        let r : ResolvedBlockBoundary = record {
          boundary_timestamp = boundary;
          previous_block = as_block (previous_of lowest n);
          previous_timestamp = previous;
          selected_block = pos n;
          selected_timestamp = t n;
        } in
        (r, rw (answers n le, found, reached, early) refl, refl, refl)

    -- Where the client answers every block up to `upper` with an aware timestamp, these do not
    -- decrease, and that of `upper` reaches the boundary, the search from `lowest` to `upper` ends
    -- and succeeds, and it selects the first block of the range whose timestamp reaches the
    -- boundary.
    pub resolve-First :
        (boundary : Instant) (highest_block : Option ℤ)
        → lowest ≤ upper
        → upper_block rpc highest_block ≡ ok (pos upper)
        → boundary ≤ t upper
        → (r : ResolvedBlockBoundary) × (n : ℕ) × (resolve_first_block_at_or_after rpc
              (aware boundary)
              (pos lowest)
              highest_block
            ≡ ok r)
          × (r.selected_block ≡ pos n)
          × (r.selected_timestamp ≡ t n)
          × First t boundary lowest upper n
    unfolding resolve_first_block_at_or_after search
    resolve-First boundary highest_block le top late =
        let (n, found, first) =
          bisect-First rpc boundary t upper answers monotone (upper - lowest) lowest upper le
            (omega arith) (omega arith) late in
        let (r, bracketed, number, stamp) = bracket-First boundary n first.1 first in
        let valid : (ltb_ℤ (pos lowest) (pos 0) || ltb_ℤ (pos upper) (pos lowest)) ≡ false =
          ground arith in
        let reached : ltb (t upper) boundary ≡ false = ground arith in
        (
          r,
          n,
          rw (top, valid, answers upper (omega arith), reached, found, bracketed) refl,
          number,
          stamp,
          first,
        )
