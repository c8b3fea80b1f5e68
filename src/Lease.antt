-- ===== src/Lease.antt =====
-- warehouse/leases.py: `SnowflakePipelineLeaseStore`, on a table of lease rows. A clock reading is
-- an argument of each call. Other sessions may commit between the two statements of `acquire`:
-- what they do to the table is its argument `between`.
pub mod Ops
pub mod Calls
pub mod Exclusion
mod Tests
use real_time_blockchain_ana.Prelude.{
  ℕ, ◌+◌, suc, Bool, true, false, not, ◌&&◌, ◌||◌, Option, none, some, List, [], ◌∷◌, Error,
  value_error, lease_held, lease_conflict, lease_ownership, lease_state, Result, ok, err, ◌>>=◌,
  ◌>>◌, raise_if, Exec, ◌==◌, leb, ltb, if◌then◌else◌, holds, ℕ_discrete,
}
use real_time_blockchain_ana.Prelude.Int.{ℤ, pos, negsuc, pos_part, leb_ℤ}
use real_time_blockchain_ana.Python.Text.{Text, Text-discrete, text_eq, strip, is_empty}
use real_time_blockchain_ana.Python.Time.{Instant, DateTime, as_utc}
use real_time_blockchain_ana.Sql.{select_where, update_where, rows_where}

pub record PipelineLeaseIdentity : Type 0 where
  pub pipeline_name : Text
  pub source_name : Text
  pub chain_id : ℤ

-- `PipelineLeaseIdentity(...)` with its `__post_init__`.
pub lease_identity : Text → Text → ℤ → Result PipelineLeaseIdentity
lease_identity pipeline_name source_name chain_id = do
  raise_if (is_empty (strip pipeline_name) || is_empty (strip source_name)) value_error
  raise_if (leb_ℤ chain_id (pos 0)) value_error
  ok (record { pipeline_name = pipeline_name; source_name = source_name; chain_id = chain_id })

pub identity-discrete : Discrete PipelineLeaseIdentity
identity-discrete = hlevel (ℕ_discrete, Text-discrete)

abbrev pub same_identity : PipelineLeaseIdentity → PipelineLeaseIdentity → Bool
same_identity a b = holds (identity-discrete a b)

pub record PipelineLeaseState : Type 0 where
  pub identity : PipelineLeaseIdentity
  pub owner_run_id : Option Text
  pub acquired_at : Option Instant
  pub expires_at : Option Instant
  pub lease_version : ℕ

pub record PipelineLeaseHandle : Type 0 where
  pub identity : PipelineLeaseIdentity
  pub owner_run_id : Text
  pub acquired_at : Instant
  pub expires_at : Instant
  pub lease_version : ℕ

-- The table PIPELINE_RUN_LEASES: a row has the fields of `PipelineLeaseState`.
abbrev pub LeaseTable : Type 0
LeaseTable = List PipelineLeaseState

-- `WHERE pipeline_name = %s AND source_name = %s AND chain_id = %s`
abbrev pub has_key : PipelineLeaseIdentity → PipelineLeaseState → Bool
has_key identity row = same_identity row.identity identity

-- `owner_run_id = %s`
abbrev pub has_owner : Text → Option Text → Bool
has_owner owner none = false
has_owner owner (some o) = text_eq o owner

-- `owner_run_id IS NULL OR expires_at <= %s`
abbrev pub is_available : Instant → Option Text → Option Instant → Bool
is_available now none expires_at = true
is_available now (some _) none = false
is_available now (some _) (some e) = leb e now

-- `_is_active`
abbrev active_from : Instant → Option Text → Option Instant → Bool
active_from now none expires_at = false
active_from now (some _) none = false
active_from now (some _) (some e) = ltb now e

abbrev pub is_active : PipelineLeaseState → Instant → Bool
is_active state now = active_from now state.owner_run_id state.expires_at

-- `_state_from_rows`
abbrev pub state_from_rows : List PipelineLeaseState → Result PipelineLeaseState
state_from_rows [] = err lease_state
state_from_rows (row ∷ []) = ok row
state_from_rows (_ ∷ _ ∷ _) = err lease_state

pub get : PipelineLeaseIdentity → LeaseTable → Result PipelineLeaseState
get identity table = state_from_rows (select_where (has_key identity) table)

-- The parameters that `acquire` prepares: the stripped owner and the clock in UTC.
abbrev pub acquire_request : Text → ℤ → DateTime → Result (Text × Instant)
acquire_request owner_run_id ttl clock = do
  let owner = strip owner_run_id
  raise_if (is_empty owner) value_error
  raise_if (leb_ℤ ttl (pos 0)) value_error
  now ← as_utc clock
  ok (owner, now)

-- The WHERE and SET clauses of `_acquire_query`.
abbrev pub acquirable : PipelineLeaseIdentity → ℕ → Instant → PipelineLeaseState → Bool
acquirable identity version now row =
    has_key identity row
    && ((row.lease_version == version) && is_available now row.owner_run_id row.expires_at)

abbrev pub take_over : Text → Instant → Instant → ℕ → PipelineLeaseState → PipelineLeaseState
take_over owner now expires version row = record row {
  owner_run_id = some owner;
  acquired_at = some now;
  expires_at = some expires;
  lease_version = version;
}

-- The UPDATE of `acquire`, and what follows from its row count. After ROLLBACK the table is as the
-- UPDATE found it.
pub acquire_update :
    PipelineLeaseIdentity
    → Text
    → Instant
    → Instant
    → PipelineLeaseState
    → Exec LeaseTable PipelineLeaseHandle
unfolding get
acquire_update identity owner now expires_at state table =
    let new_version = state.lease_version + 1 in
    let where_clause = acquirable identity state.lease_version now in
    let updated = update_where where_clause (take_over owner now expires_at new_version) table in
    if rows_where where_clause table == 1
    then (
      ok (record {
        identity = identity;
        owner_run_id = owner;
        acquired_at = now;
        expires_at = expires_at;
        lease_version = new_version;
      }),
      updated,
    )
    else (get identity updated >>= (λ current. err lease_conflict), table)

-- `acquire`, with the table that other sessions have committed by the time of the UPDATE.
pub acquire_at :
    (LeaseTable → LeaseTable)
    → PipelineLeaseIdentity
    → Text
    → Instant
    → Instant
    → Exec LeaseTable PipelineLeaseHandle
unfolding get acquire_update
acquire_at between identity owner now expires_at table = elim (get identity table) [
  | err e ↦ (err e, table)
  | ok state ↦
      if is_active state now
      then (err lease_held, table)
      else acquire_update identity owner now expires_at state (between table)
]

pub acquire :
    (LeaseTable → LeaseTable)
    → PipelineLeaseIdentity
    → Text
    → ℤ
    → DateTime
    → Exec LeaseTable PipelineLeaseHandle
unfolding acquire_at
acquire between identity owner_run_id ttl clock table =
    elim (acquire_request owner_run_id ttl clock) [
      | err e ↦ (err e, table)
      | ok (owner, now) ↦ acquire_at between identity owner now (now + pos_part ttl) table
    ]

-- `owner_run_id = %s AND lease_version = %s`, in the WHERE clauses of `renew` and `release`.
abbrev pub owned_by : PipelineLeaseHandle → PipelineLeaseState → Bool
owned_by handle row =
    has_key handle.identity row
    && (has_owner handle.owner_run_id row.owner_run_id
        && (row.lease_version == handle.lease_version))

-- The statement of `renew` and of `release`: it counts for exactly one row, or it is rolled back.
pub guarded_update :
    {A : Type 0}
    → PipelineLeaseHandle
    → (PipelineLeaseState → PipelineLeaseState)
    → A
    → Exec LeaseTable A
guarded_update handle set result table =
    if rows_where (owned_by handle) table == 1
    then (ok result, update_where (owned_by handle) set table)
    else (err lease_ownership, table)

abbrev pub extend : Instant → ℕ → PipelineLeaseState → PipelineLeaseState
extend expires version row = record row { expires_at = some expires; lease_version = version }

abbrev pub renew_request : ℤ → DateTime → Result Instant
renew_request ttl clock = do raise_if (leb_ℤ ttl (pos 0)) value_error; as_utc clock

pub renew : PipelineLeaseHandle → ℤ → DateTime → Exec LeaseTable PipelineLeaseHandle
unfolding guarded_update
renew handle ttl clock table = elim (renew_request ttl clock) [
  | err e ↦ (err e, table)
  | ok now ↦
      let expires_at = now + pos_part ttl in
      let new_version = handle.lease_version + 1 in
      guarded_update handle (extend expires_at new_version)
        (record handle { expires_at = expires_at; lease_version = new_version }) table
]

abbrev pub clear : ℕ → PipelineLeaseState → PipelineLeaseState
clear version row = record row {
  owner_run_id = none;
  acquired_at = none;
  expires_at = none;
  lease_version = version;
}

pub release : PipelineLeaseHandle → Exec LeaseTable PipelineLeaseState
unfolding guarded_update
release handle =
    let new_version = handle.lease_version + 1 in
    guarded_update handle (clear new_version) (record {
      identity = handle.identity;
      owner_run_id = none;
      acquired_at = none;
      expires_at = none;
      lease_version = new_version;
    })
