-- ===== src/Lease/Tests.antt =====
-- The lease store at concrete inputs.
use real_time_blockchain_ana.Prelude.{
  ◌≡◌, refl, ◌⊎◌, none, some, [], ◌∷◌, ok, err, lease_conflict, lease_ownership, arith, ℕ_discrete,
}
use real_time_blockchain_ana.Prelude.Int.{pos}
use real_time_blockchain_ana.Python.Text.{codes, strip, Text-discrete}
use real_time_blockchain_ana.Python.Time.{aware}
use real_time_blockchain_ana.Sql.{select_where, update_where, rows_where}
use real_time_blockchain_ana.Lease.{
  PipelineLeaseIdentity, PipelineLeaseState, PipelineLeaseHandle, LeaseTable, identity-discrete,
  acquire, acquire_update, take_over, renew, release,
}
use real_time_blockchain_ana.Lease.Ops.{HasRow, granted, Owns}
use real_time_blockchain_ana.Lease.Calls.{renew_lem}
use real_time_blockchain_ana.Lease.Exclusion.{
  LeaseStep, LeaseRun, StepsTo, step-StepsTo, racing_acquire_conflicts,
  acquire_excluded_until_expiry, stale_handle_refused,
}

abbrev uniswap : PipelineLeaseIdentity
uniswap = record { pipeline_name = codes "uni"; source_name = codes "v3"; chain_id = pos 42161 }

abbrev aave : PipelineLeaseIdentity
aave = record { pipeline_name = codes "aave"; source_name = codes "v3"; chain_id = pos 42161 }

abbrev free_row : PipelineLeaseState
free_row = record {
  identity = uniswap;
  owner_run_id = none;
  acquired_at = none;
  expires_at = none;
  lease_version = 4;
}

abbrev other_row : PipelineLeaseState
other_row = record {
  identity = aave;
  owner_run_id = some (codes "a1");
  acquired_at = some 5;
  expires_at = some 90;
  lease_version = 7;
}

abbrev leases : LeaseTable
leases = other_row ∷ free_row ∷ []

has_free : HasRow uniswap free_row leases
unfolding select_where identity-discrete Text-discrete ℕ_discrete
has_free = refl

-- Between the SELECT and the UPDATE another run has taken and released the lease.
abbrev moved_row : PipelineLeaseState
moved_row = record free_row { lease_version = 6 }

acquire_conflict :
    (acquire (λ t. moved_row ∷ []) uniswap (codes "r1") (pos 20) (aware 10) leases)
    ≡ (err lease_conflict, moved_row ∷ [])
unfolding acquire strip select_where update_where rows_where identity-discrete Text-discrete
    ℕ_discrete
acquire_conflict = refl

abbrev holder : PipelineLeaseHandle
holder = granted aave (codes "a1") 5 90 7

has_other : HasRow aave other_row leases
unfolding select_where identity-discrete Text-discrete ℕ_discrete
has_other = refl

renew_lem_example :
    let (result, t') = renew holder (pos 50) (aware 60) leases in
    let h' = record holder { expires_at = 110; lease_version = 8 } in
    (Owns holder other_row
      × (result ≡ ok h')
      × HasRow aave (record other_row { expires_at = some 110; lease_version = 8 }) t')
    ⊎ ((¬ Owns holder other_row) × (result ≡ err lease_ownership) × (t' ≡ leases))
renew_lem_example = renew_lem holder 50 60 other_row leases (omega arith) has_other

abbrev after_release : LeaseTable
after_release = (release holder leases).1

step-StepsTo_example : StepsTo aave other_row after_release (Owns holder other_row)
step-StepsTo_example =
    step-StepsTo {t = leases} aave other_row (LeaseStep.releases holder refl) has_other

won_free :
    (acquire_update uniswap (codes "r1") 10 30 free_row leases).0
    ≡ ok (granted uniswap (codes "r1") 10 30 5)
unfolding acquire_update rows_where identity-discrete Text-discrete ℕ_discrete
won_free = refl

-- The run that the examples below take: the holder of the other lease releases it.
abbrev between_runs :
    LeaseRun
      (acquire_update uniswap (codes "r1") 10 30 free_row leases).1
      (release holder (acquire_update uniswap (codes "r1") 10 30 free_row leases).1).1
between_runs = LeaseRun.then_step LeaseRun.start (LeaseStep.releases holder refl)

racing_acquire_conflicts_example :
    let u = (release holder (acquire_update uniswap (codes "r1") 10 30 free_row leases).1).1 in
    acquire_update uniswap (codes "r2") 11 31 free_row u ≡ (err lease_conflict, u)
racing_acquire_conflicts_example =
    racing_acquire_conflicts uniswap (codes "r1") (codes "r2") 10 30 11 31 free_row free_row
      (granted uniswap (codes "r1") 10 30 5) leases _ has_free won_free between_runs

abbrev taken_row : PipelineLeaseState
taken_row = take_over (codes "r1") 10 30 5 free_row

has_taken :
    HasRow uniswap taken_row
      (release holder (acquire_update uniswap (codes "r1") 10 30 free_row leases).1).1
unfolding acquire_update release select_where update_where rows_where identity-discrete
    Text-discrete ℕ_discrete
has_taken = refl

acquire_excluded_until_expiry_example :
    let u = (release holder (acquire_update uniswap (codes "r1") 10 30 free_row leases).1).1 in
    acquire_update uniswap (codes "r2") 29 50 taken_row u ≡ (err lease_conflict, u)
acquire_excluded_until_expiry_example =
    acquire_excluded_until_expiry uniswap (codes "r1") (codes "r2") 10 30 29 50 free_row taken_row
      free_row taken_row (granted uniswap (codes "r1") 10 30 5) leases _ has_free won_free
      between_runs has_taken refl (omega arith)

abbrev stale_handle : PipelineLeaseHandle
stale_handle = granted uniswap (codes "r0") 1 2 3

stale_handle_refused_example :
    (release stale_handle after_release ≡ (err lease_ownership, after_release))
    × (renew stale_handle (pos 20) (aware 9) after_release ≡ (err lease_ownership, after_release))
stale_handle_refused_example =
    stale_handle_refused stale_handle 20 9 free_row leases after_release has_free (omega arith)
      (omega arith) (LeaseRun.then_step LeaseRun.start (LeaseStep.releases holder refl))
