-- ===== src/BlockSearch/Tests.antt =====
-- Runs of the block search, on a chain of 101 blocks that are 12 units apart.
use real_time_blockchain_ana.Prelude.{
  ℕ, ◌+◌, ◌*◌, ◌≤◌, ◌≡◌, refl, none, some, Result, ok, err, value_error, arith,
}
use real_time_blockchain_ana.Prelude.Int.{pos, negsuc, pos_part}
use real_time_blockchain_ana.Python.Time.{Instant, aware, naive}
use real_time_blockchain_ana.BlockSearch.{
  BlockTimestampRpc, ResolvedBlockBoundary, timestamp_of, bisect, bisect_turn, bracket,
  previous_timestamp_of, previous_of, reaches, search, upper_block, resolve_first_block_at_or_after,
}
use real_time_blockchain_ana.BlockSearch.Bisection.{bisect-fuel, First}
use real_time_blockchain_ana.BlockSearch.Boundary.{Brackets, resolve-Brackets, resolve-First}

abbrev block_time : ℕ → Instant
block_time n = 12 * n + 1000

abbrev chain : BlockTimestampRpc
chain = record {
  get_latest_block_number = ok (pos 100);
  get_block_timestamp = λ n. ok (aware (block_time (pos_part n)));
}

chain-answers : (n : ℕ) → n ≤ 100 → timestamp_of chain n ≡ ok (block_time n)
unfolding timestamp_of
chain-answers n h = refl

block_time-monotone : (a b : ℕ) → a ≤ b → b ≤ 100 → block_time a ≤ block_time b
block_time-monotone a b h k = omega arith

resolve-First_example :
    (r : ResolvedBlockBoundary) × (n : ℕ) × (resolve_first_block_at_or_after chain
        (aware 1500)
        (pos 3)
        none
      ≡ ok r)
    × (r.selected_block ≡ pos n)
    × (r.selected_timestamp ≡ block_time n)
    × First block_time 1500 3 100 n
unfolding upper_block
resolve-First_example =
    resolve-First chain block_time 3 100 chain-answers block_time-monotone 1500 none (omega arith)
      refl (omega arith)

abbrev found : ResolvedBlockBoundary
found = record {
  boundary_timestamp = 1500;
  previous_block = some (pos 41);
  previous_timestamp = some 1492;
  selected_block = pos 42;
  selected_timestamp = 1504;
}

finds_block : resolve_first_block_at_or_after chain (aware 1500) (pos 3) none ≡ ok found
unfolding resolve_first_block_at_or_after upper_block search timestamp_of bisect bisect_turn bracket
    previous_timestamp_of previous_of reaches
finds_block = refl

resolve-Brackets_example :
    (boundary : Instant) × (lowest : ℕ) × (upper : ℕ) × (aware 1500 ≡ aware boundary)
    × (pos 3 ≡ pos lowest)
    × (upper_block chain none ≡ ok (pos upper))
    × Brackets chain boundary lowest upper found
resolve-Brackets_example = resolve-Brackets chain (aware 1500) (pos 3) none found finds_block

-- A range of 98 blocks takes seven steps.
bisect-fuel_example :
    (r : Result ℕ) × (bisect chain 1500 7 3 100 ≡ some r) × (bisect chain 1500 97 3 100 ≡ some r)
bisect-fuel_example = bisect-fuel chain 1500 7 97 3 100 (omega arith) (omega arith)

refuses_naive : resolve_first_block_at_or_after chain (naive 1500) (pos 3) none ≡ err value_error
unfolding resolve_first_block_at_or_after upper_block search timestamp_of bisect bisect_turn bracket
    previous_timestamp_of previous_of reaches
refuses_naive = refl

refuses_late : resolve_first_block_at_or_after chain (aware 3000) (pos 3) none ≡ err value_error
unfolding resolve_first_block_at_or_after upper_block search timestamp_of bisect bisect_turn bracket
    previous_timestamp_of previous_of reaches
refuses_late = refl

refuses_bounds :
    resolve_first_block_at_or_after chain (aware 1500) (negsuc 0) none ≡ err value_error
unfolding resolve_first_block_at_or_after upper_block search timestamp_of bisect bisect_turn bracket
    previous_timestamp_of previous_of reaches
refuses_bounds = refl

-- The lower end of the range has no predecessor.
finds_lowest :
    resolve_first_block_at_or_after chain (aware 10) (pos 3) (some (pos 9))
    ≡ ok (record {
      boundary_timestamp = 10;
      previous_block = none;
      previous_timestamp = none;
      selected_block = pos 3;
      selected_timestamp = 1036;
    })
unfolding resolve_first_block_at_or_after upper_block search timestamp_of bisect bisect_turn bracket
    previous_timestamp_of previous_of reaches
finds_lowest = refl
