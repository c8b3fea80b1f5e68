-- ===== src/Python/Time.antt =====
-- Python's `datetime` and `timedelta`. An instant is the number of microseconds since
-- `datetime.min`, read in UTC. Two aware datetimes are compared by their instants, so an aware one
-- is its instant; a naive one keeps its wall clock reading.
use real_time_blockchain_ana.Prelude.{ℕ, value_error, Result, ok, err}

abbrev pub Instant : Type 0
Instant = ℕ

pub data DateTime : Type 0 where
  aware : Instant → DateTime
  naive : ℕ → DateTime

-- `if value.tzinfo is None: raise ValueError(...)`, then `value.astimezone(UTC)`.
abbrev pub as_utc : DateTime → Result Instant
as_utc (aware t) = ok t
as_utc (naive _) = err value_error
