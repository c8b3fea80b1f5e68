-- ===== src/Lease/Exclusion.antt =====
-- Leases of warehouse/leases.py under any interleaving. Reads change nothing, so an interleaving of
-- any number of runs is a sequence of the statements that write: the UPDATE of `acquire`, with
-- whatever row its session had read before, `renew` and `release`.
use real_time_blockchain_ana.Prelude.{
  ℕ, ◌+◌, ◌<◌, ◌≡◌, refl, ◌⊎◌, inl, inr, Bool, true, lease_conflict, lease_ownership, ok, err,
  arith, Bool-cases, Result-cases, ◌==◌,
}
use real_time_blockchain_ana.Prelude.Int.{ℤ, pos}
use real_time_blockchain_ana.Python.Text.{Text}
use real_time_blockchain_ana.Python.Time.{Instant, DateTime, aware}
use real_time_blockchain_ana.Sql.{update_where, rows_where}
use real_time_blockchain_ana.Lease.{
  PipelineLeaseIdentity, PipelineLeaseState, PipelineLeaseHandle, LeaseTable, is_available,
  acquirable, acquire_update, owned_by, guarded_update, renew, release, renew_request,
}
use real_time_blockchain_ana.Lease.Calls.{release_lem, renew_lem}
use real_time_blockchain_ana.Lease.Ops.{
  HasRow, acquire_update_lem, Owns, update-HasRow, owned_by-Owns,
}

pub data LeaseStep (t u : LeaseTable) : Type 0 where
  acquires :
      (k : PipelineLeaseIdentity) (owner : Text) (now expires : Instant) (read : PipelineLeaseState)
      → u ≡ (acquire_update k owner now expires read t).1
      → LeaseStep t u
  renews :
      (h : PipelineLeaseHandle) (ttl : ℤ) (clock : DateTime)
      → u ≡ (renew h ttl clock t).1
      → LeaseStep t u
  releases : (h : PipelineLeaseHandle) → u ≡ (release h t).1 → LeaseStep t u

pub data LeaseRun (t : LeaseTable) : LeaseTable → Type 0 where
  start : LeaseRun t t
  then_step : {u v : LeaseTable} → LeaseRun t u → LeaseStep u v → LeaseRun t v

-- What entitles a step to change the row `r`.
abbrev pub Entitled : {t u : LeaseTable} → LeaseStep t u → PipelineLeaseState → Type 0
Entitled (acquires _ _ now _ _ _) r = is_available now r.owner_run_id r.expires_at ≡ true
Entitled (renews h _ _ _) r = Owns h r
Entitled (releases h _) r = Owns h r

-- The row after a step: the same, or a new version of it by an entitled step.
abbrev pub StepsTo : PipelineLeaseIdentity → PipelineLeaseState → LeaseTable → Type 0 → Type 0
StepsTo k r u E =
    HasRow k r u
    ⊎ (E × ((r' : PipelineLeaseState) × HasRow k r' u × (r'.lease_version ≡ r.lease_version + 1)))

update_StepsTo :
    (p : PipelineLeaseState → Bool) (f : PipelineLeaseState → PipelineLeaseState) (E : Type 0)
    (k : PipelineLeaseIdentity) (r : PipelineLeaseState) (t : LeaseTable)
    → ((x : PipelineLeaseState) → (f x).identity ≡ x.identity)
    → (p r ≡ true → E × ((f r).lease_version ≡ r.lease_version + 1))
    → HasRow k r t
    → StepsTo k r (update_where p f t) E
update_StepsTo p f E k r t keeps bump h = elim (Bool-cases (p r)) [
  | inl e ↦ inr ((bump e).0, (f r, rw e at (update-HasRow p f k r t keeps h), (bump e).1))
  | inr e ↦ inl (rw e at (update-HasRow p f k r t keeps h))
]

guarded_StepsTo :
    {A : Type 0} (h : PipelineLeaseHandle) (set : PipelineLeaseState → PipelineLeaseState) (a : A)
    (k : PipelineLeaseIdentity) (r : PipelineLeaseState) (t : LeaseTable)
    → ((x : PipelineLeaseState) → (set x).identity ≡ x.identity)
    → ((set r).lease_version ≡ h.lease_version + 1)
    → HasRow k r t
    → StepsTo k r (guarded_update h set a t).1 (Owns h r)
unfolding guarded_update
guarded_StepsTo h set a k r t keeps bump has = elim (Bool-cases (rows_where (owned_by h) t == 1)) [
  | inl e ↦ rw e (
      update_StepsTo (owned_by h) set (Owns h r) k r t keeps
        (λ o. (owned_by-Owns h r o, omega (arith, (owned_by-Owns h r o).1))) has)
  | inr e ↦ rw e (inl has)
]

acquirable-is_available :
    (k : PipelineLeaseIdentity) (version now : ℕ) (r : PipelineLeaseState)
    → acquirable k version now r ≡ true
    → (is_available now r.owner_run_id r.expires_at ≡ true) × (r.lease_version ≡ version)
acquirable-is_available k version now r e = ground arith

acquire_StepsTo :
    (i : PipelineLeaseIdentity) (owner : Text) (now expires : Instant) (read : PipelineLeaseState)
    (k : PipelineLeaseIdentity) (r : PipelineLeaseState) (t : LeaseTable)
    → HasRow k r t
    → StepsTo k r
        (acquire_update i owner now expires read t).1
        (is_available now r.owner_run_id r.expires_at ≡ true)
unfolding acquire_update
acquire_StepsTo i owner now expires read k r t has =
    elim (Bool-cases (rows_where (acquirable i read.lease_version now) t == 1)) [
      | inl e ↦ rw e (
          update_StepsTo (acquirable i read.lease_version now) _ _ k r t (λ x. refl)
            (λ o.
              let both = acquirable-is_available i read.lease_version now r o in
              (both.0, omega (arith, both.1)))
            has)
      | inr e ↦ rw e (inl has)
    ]

renew_StepsTo :
    (h : PipelineLeaseHandle) (ttl : ℤ) (clock : DateTime) (k : PipelineLeaseIdentity)
    (r : PipelineLeaseState) (t : LeaseTable)
    → HasRow k r t
    → StepsTo k r (renew h ttl clock t).1 (Owns h r)
unfolding renew
renew_StepsTo h ttl clock k r t has = elim (Result-cases (renew_request ttl clock)) [
  | inl (now, e) ↦ rw (e, renew) (guarded_StepsTo h _ _ k r t (λ x. refl) refl has)
  | inr (why, e) ↦ rw (e, renew) (inl has)
]

release_StepsTo :
    (h : PipelineLeaseHandle) (k : PipelineLeaseIdentity) (r : PipelineLeaseState) (t : LeaseTable)
    → HasRow k r t
    → StepsTo k r (release h t).1 (Owns h r)
unfolding release
release_StepsTo h k r t has = guarded_StepsTo h _ _ k r t (λ x. refl) refl has

-- A held lease changes only by its owner's current handle, or by an `acquire` that finds it
-- available: any other step of any run leaves the row as it is, and one that changes the row raises
-- its version by one.
pub step-StepsTo :
    {t u : LeaseTable} (k : PipelineLeaseIdentity) (r : PipelineLeaseState) (step : LeaseStep t u)
    → HasRow k r t
    → StepsTo k r u (Entitled step r)
step-StepsTo k r (acquires i owner now expires read e) has =
    rw e (acquire_StepsTo i owner now expires read k r _ has)
step-StepsTo k r (renews h ttl clock e) has = rw e (renew_StepsTo h ttl clock k r _ has)
step-StepsTo k r (releases h e) has = rw e (release_StepsTo h k r _ has)

-- The row after a run: the same, or one of a later version.
abbrev pub RunsTo : PipelineLeaseIdentity → PipelineLeaseState → LeaseTable → Type 0
RunsTo k r u =
    HasRow k r u
    ⊎ ((r' : PipelineLeaseState) × HasRow k r' u × (r.lease_version < r'.lease_version))

later_row :
    (u : LeaseTable) (E : Type 0) (k : PipelineLeaseIdentity) (r r' : PipelineLeaseState)
    → (r ≡ r') ⊎ (r.lease_version < r'.lease_version)
    → StepsTo k r' u E
    → RunsTo k r u
later_row _ _ k r r' (inl e) (inl has) = inl (rw e has)
later_row _ _ k r r' (inl e) (inr (_, (r2, has, v))) = inr (r2, has, rw e (omega arith))
later_row _ _ k r r' (inr lt) (inl has) = inr (r', has, lt)
later_row _ _ k r r' (inr lt) (inr (_, (r2, has, v))) = inr (r2, has, omega arith)

-- No interleaving deletes a lease row, duplicates it or brings an earlier version back.
pub run-RunsTo :
    {t u : LeaseTable} (k : PipelineLeaseIdentity) (r : PipelineLeaseState)
    → HasRow k r t
    → LeaseRun t u
    → RunsTo k r u
run-RunsTo k r has start = inl has
run-RunsTo k r has (then_step run step) = elim (run-RunsTo k r has run) [
  | inl same ↦ later_row _ _ k r r (inl refl) (step-StepsTo k r step same)
  | inr (r', has', lt) ↦ later_row _ _ k r r' (inr lt) (step-StepsTo k r' step has')
]

HasRow-version :
    (k : PipelineLeaseIdentity) (r r' : PipelineLeaseState) (u : LeaseTable)
    → HasRow k r u
    → HasRow k r' u
    → r ≡ r'
HasRow-version k r r' u a b = cc

-- Of two runs that have read the same row, the one whose UPDATE comes second fails, whatever
-- happens in between, and leaves the table alone.
pub racing_acquire_conflicts :
    (k : PipelineLeaseIdentity) (first second : Text) (n1 e1 n2 e2 : Instant)
    (read r : PipelineLeaseState) (h : PipelineLeaseHandle) (t u : LeaseTable)
    → HasRow k r t
    → (acquire_update k first n1 e1 read t).0 ≡ ok h
    → LeaseRun (acquire_update k first n1 e1 read t).1 u
    → acquire_update k second n2 e2 read u ≡ (err lease_conflict, u)
racing_acquire_conflicts k first second n1 e1 n2 e2 read r h t u has won run =
    elim (acquire_update_lem k first n1 e1 read r t has) [
      | inr (why, lost) ↦ cc
      | inl (_, _, _, taken) ↦ elim (run-RunsTo k _ taken run) [
        | inl same ↦ elim (acquire_update_lem k second n2 e2 read _ u same) [
          | inl (v, _, _, _) ↦ absurd (omega arith)
          | inr (why, lost) ↦ lost
        ]
        | inr (r', has', lt) ↦ elim (acquire_update_lem k second n2 e2 read r' u has') [
          | inl (v, _, _, _) ↦ absurd (omega arith)
          | inr (why, lost) ↦ lost
        ]
      ]
    ]

-- Mutual exclusion: from the moment a lease is granted, no other `acquire` succeeds before it
-- expires, as long as the row has the granted version (its owner has neither renewed nor released
-- it).
pub acquire_excluded_until_expiry :
    (k : PipelineLeaseIdentity) (owner other : Text) (now expires now' expires' : Instant)
    (read read' r r' : PipelineLeaseState) (h : PipelineLeaseHandle) (t u : LeaseTable)
    → HasRow k r t
    → (acquire_update k owner now expires read t).0 ≡ ok h
    → LeaseRun (acquire_update k owner now expires read t).1 u
    → HasRow k r' u
    → r'.lease_version ≡ h.lease_version
    → now' < expires
    → acquire_update k other now' expires' read' u ≡ (err lease_conflict, u)
acquire_excluded_until_expiry k owner other now expires now' expires' read read' r r' h t u has won
      run has' v early =
    elim (acquire_update_lem k owner now expires read r t has) [
      | inr (why, lost) ↦ cc
      | inl (_, _, granted_handle, taken) ↦ elim (run-RunsTo k _ taken run) [
        | inl same ↦ elim (acquire_update_lem k other now' expires' read' _ u same) [
          | inl (_, free, _, _) ↦ absurd (ground arith)
          | inr (why, lost) ↦ lost
        ]
        | inr (r2, has2, lt) ↦ absurd (ground (arith, HasRow-version k r2 r' u has2 has'))
      ]
    ]

stale_refused :
    (h : PipelineLeaseHandle) (ttl : ℕ) (now : Instant) (r : PipelineLeaseState) (u : LeaseTable)
    → HasRow h.identity r u
    → h.lease_version < r.lease_version
    → 0 < ttl
    → (release h u ≡ (err lease_ownership, u))
      × (renew h (pos ttl) (aware now) u ≡ (err lease_ownership, u))
stale_refused h ttl now r u has stale long =
    (ground (arith, release_lem h r u has), ground (arith, renew_lem h ttl now r u long has))

-- Fencing: once the row has moved past the version of a handle, no interleaving makes the handle
-- good again: its `release` and its `renew` are refused and change nothing.
pub stale_handle_refused :
    (h : PipelineLeaseHandle) (ttl : ℕ) (now : Instant) (r : PipelineLeaseState) (t u : LeaseTable)
    → HasRow h.identity r t
    → h.lease_version < r.lease_version
    → 0 < ttl
    → LeaseRun t u
    → (release h u ≡ (err lease_ownership, u))
      × (renew h (pos ttl) (aware now) u ≡ (err lease_ownership, u))
stale_handle_refused h ttl now r t u has stale long run = elim (run-RunsTo h.identity r has run) [
  | inl same ↦ stale_refused h ttl now r u same stale long
  | inr (r', has', lt) ↦ stale_refused h ttl now r' u has' (omega arith) long
]
