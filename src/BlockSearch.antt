-- ===== src/BlockSearch.antt =====
-- backfill/block_search.py: the search for the first block at or after a timestamp. What the RPC
-- client answers is the record `BlockTimestampRpc`.
pub mod Bisection
pub mod Boundary
mod Tests
use real_time_blockchain_ana.Prelude.{
  ℕ, zero, suc, ◌+◌, ◌-◌, ◌/◌, Bool, true, false, not, ◌||◌, Option, none, some, value_error,
  runtime_error, out_of_steps, Result, ok, err, ◌>>=◌, ◌>>◌, raise_if, if◌then◌else◌, ltb, leb,
}
use real_time_blockchain_ana.Prelude.Int.{ℤ, pos, pos_part, ltb_ℤ}
use real_time_blockchain_ana.Python.Time.{Instant, DateTime, as_utc}

-- The protocol `BlockTimestampRpc`. A call that raises answers `err`.
pub record BlockTimestampRpc : Type 0 where
  pub get_latest_block_number : Result ℤ
  pub get_block_timestamp : ℤ → Result DateTime

pub record ResolvedBlockBoundary : Type 0 where
  pub boundary_timestamp : Instant
  pub previous_block : Option ℤ
  pub previous_timestamp : Option Instant
  pub selected_block : ℤ
  pub selected_timestamp : Instant

-- `low - 1 if low > lowest_block else None`
unfoldable pub previous_of : ℕ → ℕ → Option ℕ
previous_of lowest low = if ltb lowest low then some (low - 1) else none

-- `previous_timestamp is not None and previous_timestamp >= boundary`
unfoldable pub reaches : Instant → Option Instant → Bool
reaches boundary none = false
reaches boundary (some t) = leb boundary t

abbrev pub as_block : Option ℕ → Option ℤ
as_block none = none
as_block (some n) = some (pos n)

-- How a turn of the loop goes on, in the lower or in the upper half; it stops where the call
-- raises.
unfoldable pub bisect_turn :
    Instant → Result Instant → Option (Result ℕ) → Option (Result ℕ) → Option (Result ℕ)
bisect_turn boundary (err e) lower upper = some (err e)
bisect_turn boundary (ok timestamp) lower upper = if leb boundary timestamp then lower else upper

-- What the loop gives. `out_of_steps` is the model's own: the loop has ended by then.
abbrev pub loop_result : Option (Result ℕ) → Result ℕ
loop_result none = err out_of_steps
loop_result (some r) = r

module _ (rpc : BlockTimestampRpc) where
  open rpc use {get_latest_block_number, get_block_timestamp}

  -- `_as_utc(rpc.get_block_timestamp(block_number), ...)`, of a block number that is not negative.
  unfoldable pub timestamp_of : ℕ → Result Instant
  timestamp_of block_number = get_block_timestamp (pos block_number) >>= as_utc

  -- The `while low < high` loop, with the number of steps that are left to it: `none` where they
  -- run out before the loop ends.
  unfoldable pub bisect : Instant → ℕ → ℕ → ℕ → Option (Result ℕ)
  bisect boundary zero low high = if ltb low high then none else some (ok low)
  bisect boundary (suc fuel) low high =
      let middle = (low + high) / 2 in
      let lower = bisect boundary fuel low middle in
      let upper = bisect boundary fuel (middle + 1) high in
      if ltb low high then bisect_turn boundary (timestamp_of middle) lower upper else some (ok low)

  -- `rpc.get_latest_block_number() if highest_block is None else highest_block`
  unfoldable pub upper_block : Option ℤ → Result ℤ
  upper_block none = get_latest_block_number
  upper_block (some highest_block) = ok highest_block

  unfoldable pub previous_timestamp_of : Option ℕ → Result (Option Instant)
  previous_timestamp_of none = ok none
  previous_timestamp_of (some block_number) = timestamp_of block_number >>= λ t. ok (some t)

  -- What follows the loop.
  unfoldable pub bracket : Instant → ℕ → ℕ → Result ResolvedBlockBoundary
  bracket boundary lowest low = do
    selected_timestamp ← timestamp_of low
    previous_timestamp ← previous_timestamp_of (previous_of lowest low)
    raise_if (ltb selected_timestamp boundary || reaches boundary previous_timestamp) runtime_error
    ok (record {
      boundary_timestamp = boundary;
      previous_block = as_block (previous_of lowest low);
      previous_timestamp = previous_timestamp;
      selected_block = pos low;
      selected_timestamp = selected_timestamp;
    })

  -- The loop and what follows it, with bounds that are not negative. The range has
  -- `upper - lowest` steps at most.
  unfoldable pub search : Instant → ℕ → ℕ → Result ResolvedBlockBoundary
  search boundary lowest upper = do
    upper_timestamp ← timestamp_of upper
    raise_if (ltb upper_timestamp boundary) value_error
    low ← loop_result (bisect boundary (upper - lowest) lowest upper)
    bracket boundary lowest low

  -- The block numbers are integers by their type.
  unfoldable pub resolve_first_block_at_or_after :
      DateTime → ℤ → Option ℤ → Result ResolvedBlockBoundary
  resolve_first_block_at_or_after boundary_timestamp lowest_block highest_block = do
    boundary ← as_utc boundary_timestamp
    upper ← upper_block highest_block
    raise_if (ltb_ℤ lowest_block (pos 0) || ltb_ℤ upper lowest_block) value_error
    search boundary (pos_part lowest_block) (pos_part upper)
