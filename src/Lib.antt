-- ===== src/Lib.antt =====
-- The control plane of the blockchain analytics platform: leases, watermarks, completed ranges,
-- Chainlink rounds, block search, run records, freshness and alerts. Paths are from the repository's
-- root.
--
-- A pipeline run takes a lease (warehouse/leases.py), plans an interval of blocks after its
-- watermark (orchestration/aave_forward.py), runs its stages and commits the watermark last
-- (orchestration/watermark.py over warehouse/watermarks.py). A bootstrap records completed ranges
-- (warehouse/completed_ranges.py) and plans its next chunk from their coverage. The Chainlink pipeline
-- plans rounds from a cursor for each feed (orchestration/chainlink_forward.py with the round ids of
-- backfill/chainlink.py) and commits all cursors in one transaction. A backfill finds its first block
-- from a time (backfill/block_search.py). Each run writes its record (orchestration/observability.py
-- over warehouse/pipeline_runs.py). Freshness results (orchestration/freshness.py) become health
-- conditions, which drive the alert lifecycle (orchestration/alerts.py over
-- warehouse/alert_state.py).
--
-- Files:
--   Prelude, Python, Sql   shared helpers: errors as values, integers, text, datetimes, sorting, and
--                          the SQL statements on lists of rows
--   Lease                  warehouse/leases.py; Ops and Calls hold the calls' laws, Exclusion the
--                          interleavings of many runs
--   Watermark              orchestration/watermark.py over any store; Laws is the store's contract,
--                          Atomic the sets of watermarks that are committed together
--   SnowflakeWatermarks    warehouse/watermarks.py; Contract fills the laws, Many has the
--                          transactions over several keys
--   Chainlink              backfill/chainlink.py: round ids and ranges; Forward and Pipeline are
--                          orchestration/chainlink_forward.py, Observations the merge
--   BlockSearch            backfill/block_search.py
--   Runs                   orchestration/observability.py
--   SnowflakeRuns          warehouse/pipeline_runs.py; Lifecycle has the calls of many processes
--   AaveForward            orchestration/aave_forward.py: Bootstrap, Coverage, Plans, Pipeline
--   UniswapRecovery        orchestration/uniswap_recovery.py: SourceContract, Plans
--   CompletedRanges        warehouse/completed_ranges.py: Sweep the diagnostics, Ledger the batches
--   Freshness              orchestration/freshness.py: Rules, and Report the whole report
--   Alerts                 orchestration/alerts.py: Conditions, Lifecycle, Incidents, and Evaluation
--                          with the contract of the alert store
--   SnowflakeAlerts        warehouse/alert_state.py; Contract fills the contract
--
-- Functions keep the source's names. A record is a dataclass, a data type an enum, `Result` a call
-- that may raise and `Exec` one that also changes the database; a raise is one constructor for each
-- class, without its message. Arguments have the types that the source annotates, so guards against
-- other types do not arise. An aware datetime is its instant in microseconds, a naive one is kept
-- apart. A clock reading is an argument. A table is the list of its decoded rows; a SELECT, an UPDATE
-- or an INSERT is a function on it, and one statement is atomic, as are the statements of one
-- transaction from its first write on. What other sessions commit between a read and the write that
-- follows is the argument `between`, and for the transaction of `advance_many` the record
-- `OtherSessions`: any functions on the database, so a theorem on them holds of every interleaving.
--
-- What an RPC client answers is a record of functions that a definition takes: nothing is assumed of
-- it but what a theorem says.
--
-- Loops are structural recursion, on the list or on the attempts that are left. The bisection of
-- BlockSearch has a number of steps, which starts as the size of its range: each turn makes the range
-- smaller, so that the loop ends within them. A loop that had not would give `none`, which no result
-- of the program is, and its caller the error `out_of_steps`, which no class of the program is.
--
-- A float is written out where it decides something. A duration is the whole number of units of
-- `2 ^ -1074` seconds that it is; the subtraction of two timer readings and what the column
-- NUMBER(18, 3) gives back of a duration are parameters, of which only the sign is assumed. The
-- division of microseconds by a million in `total_seconds` is rounded to 53 bits.
--
-- Not modelled: the numeric overflow of a database column, connections, table names and their
-- configuration, log lines and messages, the overflow of a datetime at its greatest value, the keys of
-- metric details, and the parts of the repository that only call engines (Spark, dbt, Airflow, RPC
-- providers, web pages).
pub mod Prelude
pub mod Python
pub mod Sql
pub mod Lease
pub mod Watermark
pub mod AaveForward
pub mod UniswapRecovery
pub mod BlockSearch
pub mod Chainlink
pub mod CompletedRanges
pub mod SnowflakeWatermarks
pub mod Freshness
pub mod Alerts
pub mod SnowflakeAlerts
pub mod Runs
pub mod SnowflakeRuns
