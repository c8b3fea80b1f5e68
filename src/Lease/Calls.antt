-- ===== src/Lease/Calls.antt =====
-- `acquire`, `renew` and `release` of warehouse/leases.py as calls: every outcome, with what other
-- sessions commit while `acquire` runs.
use real_time_blockchain_ana.Prelude.{
  ℕ, ◌+◌, ◌<◌, ◌≡◌, refl, ◌≢◌, ◌⊎◌, inl, inr, true, false, none, some, lease_held, value_error,
  lease_conflict, lease_ownership, Result, ok, err, arith, Bool-cases,
}
use real_time_blockchain_ana.Prelude.Int.{ℤ, pos, ◌≤ℤ◌}
use real_time_blockchain_ana.Python.Text.{Text, strip, is_empty}
use real_time_blockchain_ana.Python.Time.{Instant, aware, naive, DateTime}
use real_time_blockchain_ana.Lease.{
  PipelineLeaseIdentity, PipelineLeaseState, PipelineLeaseHandle, LeaseTable, is_active,
  is_available, get, take_over, acquire_request, renew_request, acquire_at, acquire, extend, renew,
  clear, release,
}
use real_time_blockchain_ana.Lease.Ops.{
  HasRow, granted, acquire_update_lem, Owns, guarded_update_lem,
}

get-HasRow :
    (k : PipelineLeaseIdentity) (r : PipelineLeaseState) (t : LeaseTable)
    → HasRow k r t
    → get k t ≡ ok r
unfolding get
get-HasRow k r t h = rw h

-- The three ends of an `acquire` that read the row `s` and found `r` when it wrote.
abbrev pub Acquired :
    PipelineLeaseIdentity
    → Text
    → Instant
    → Instant
    → PipelineLeaseState
    → PipelineLeaseState
    → LeaseTable
    → LeaseTable
    → Result PipelineLeaseHandle × LeaseTable
    → Type 0
Acquired k owner now expires s r before meanwhile (result, after) =
    ((is_active s now ≡ true) × (result ≡ err lease_held) × (after ≡ before))
    ⊎ ((is_active s now ≡ false)
        × (((r.lease_version ≡ s.lease_version)
              × (is_available now r.owner_run_id r.expires_at ≡ true)
              × (result ≡ ok (granted k owner now expires (s.lease_version + 1)))
              × HasRow k (take_over owner now expires (s.lease_version + 1) r) after)
            ⊎ (((r.lease_version ≢ s.lease_version)
                  ⊎ (is_available now r.owner_run_id r.expires_at ≡ false))
                × (result ≡ err lease_conflict)
                × (after ≡ meanwhile))))

acquire_at-Acquired :
    (between : LeaseTable → LeaseTable) (k : PipelineLeaseIdentity) (owner : Text)
    (now expires : Instant) (s r : PipelineLeaseState) (t : LeaseTable)
    → HasRow k s t
    → HasRow k r (between t)
    → Acquired k owner now expires s r t (between t) (acquire_at between k owner now expires t)
unfolding acquire_at
acquire_at-Acquired between k owner now expires s r t hs hr =
    rw (get-HasRow k s t hs, acquire_at)
      (elim (Bool-cases (is_active s now)) [
        | inl e ↦ rw e (inl (refl, refl, refl))
        | inr e ↦ rw e (
            inr (
              refl,
              elim (acquire_update_lem k owner now expires s r (between t) hr) [
                | inl won ↦ inl won
                | inr (why, same) ↦ rw same (inr (why, refl, refl))
              ],
            ))
      ])

acquire_request_ok :
    (owner : Text) (ttl : ℕ) (now : Instant)
    → is_empty (strip owner) ≡ false
    → 0 < ttl
    → acquire_request owner (pos ttl) (aware now) ≡ ok (strip owner, now)
acquire_request_ok owner ttl now named long = ground arith

renew_request_ok :
    (ttl : ℕ) (now : Instant) → 0 < ttl → renew_request (pos ttl) (aware now) ≡ ok now
renew_request_ok ttl now long = ground arith

-- `acquire` with a run id that is not blank, a positive TTL and an aware clock ends in one of
-- three ways: another run holds the lease and nothing changes; or the row has kept its version and
-- is available, and the caller's row and handle agree; or the row has changed since it was read,
-- and the table is as the other sessions left it.
pub acquire-Acquired :
    (between : LeaseTable → LeaseTable) (k : PipelineLeaseIdentity) (owner : Text) (ttl : ℕ)
    (now : Instant) (s r : PipelineLeaseState) (t : LeaseTable)
    → is_empty (strip owner) ≡ false
    → 0 < ttl
    → HasRow k s t
    → HasRow k r (between t)
    → Acquired k
        (strip owner)
        now
        (now + ttl)
        s
        r
        t
        (between t)
        (acquire between k owner (pos ttl) (aware now) t)
unfolding acquire
acquire-Acquired between k owner ttl now s r t named long hs hr =
    rw (acquire_request_ok owner ttl now named long, acquire)
      (acquire_at-Acquired between k (strip owner) now (now + ttl) s r t hs hr)

-- A blank run id, a TTL that is not positive and a naive clock are refused before the table is
-- read.
pub acquire_refuses :
    (between : LeaseTable → LeaseTable) (k : PipelineLeaseIdentity) (owner : Text) (ttl : ℤ)
    (clock : DateTime) (t : LeaseTable)
    → (is_empty (strip owner) ≡ true) ⊎ ((ttl ≤ℤ pos 0) ⊎ ((w : ℕ) × (clock ≡ naive w)))
    → acquire between k owner ttl clock t ≡ (err value_error, t)
unfolding acquire
acquire_refuses between k owner ttl clock t why = ground arith

-- On a key that has one row, with a positive TTL and an aware clock, `renew` does one of two
-- things. If the handle owns the row, the row then expires the TTL after the time of the call and
-- has the next version, its other columns are as before, and the handle that is returned says the
-- same. If not, it is refused and the table stays as it is.
pub renew_lem :
    (h : PipelineLeaseHandle) (ttl : ℕ) (now : Instant) (r : PipelineLeaseState) (t : LeaseTable)
    → 0 < ttl
    → HasRow h.identity r t
    → let (result, t') = renew h (pos ttl) (aware now) t in
      let h' = record h { expires_at = now + ttl; lease_version = h.lease_version + 1 } in
      (Owns h r
        × (result ≡ ok h')
        × HasRow h.identity
            (record r { expires_at = some (now + ttl); lease_version = h.lease_version + 1 })
            t')
      ⊎ ((¬ Owns h r) × (result ≡ err lease_ownership) × (t' ≡ t))
unfolding renew
renew_lem h ttl now r t long has =
    let h' = record h { expires_at = now + ttl; lease_version = h.lease_version + 1 } in
    rw (renew_request_ok ttl now long, renew)
      (elim (guarded_update_lem h (extend (now + ttl) (h.lease_version + 1)) h' r t (λ x. refl)
        has) [ inl won ↦ inl won | inr (why, same) ↦ rw same (inr (why, refl, refl)) ])

-- The state that `release` returns.
abbrev pub released : PipelineLeaseHandle → PipelineLeaseState
released h = record {
  identity = h.identity;
  owner_run_id = none;
  acquired_at = none;
  expires_at = none;
  lease_version = h.lease_version + 1;
}

-- On a key that has one row, `release` frees the row that the handle owns; a handle that owns no
-- row is refused, and the table stays as it is.
pub release_lem :
    (h : PipelineLeaseHandle) (r : PipelineLeaseState) (t : LeaseTable)
    → HasRow h.identity r t
    → let (result, t') = release h t in
      (Owns h r × (result ≡ ok (released h)) × HasRow h.identity (clear (h.lease_version + 1) r) t')
      ⊎ ((¬ Owns h r) × (result ≡ err lease_ownership) × (t' ≡ t))
unfolding release
release_lem h r t has =
    elim (guarded_update_lem h (clear (h.lease_version + 1)) (released h) r t (λ x. refl) has) [
      | inl won ↦ inl won
      | inr (why, same) ↦ rw same (inr (why, refl, refl))
    ]
