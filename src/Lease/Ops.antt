-- ===== src/Lease/Ops.antt =====
-- One statement at a time: what `acquire`, `renew` and `release` do to the row of a lease.
use real_time_blockchain_ana.Prelude.{
  ℕ, ◌+◌, ◌≡◌, refl, ap, ◌∙◌, ◌≢◌, ◌⊎◌, inl, inr, Bool, true, false, none, some, List, [], ◌∷◌,
  lease_conflict, lease_ownership, ok, err, arith, if◌then◌else◌, and_left, Bool-cases,
}
use real_time_blockchain_ana.Python.Text.{Text}
use real_time_blockchain_ana.Python.Time.{Instant}
use real_time_blockchain_ana.Sql.{select_where, select_where_sound, update_where, update_where_none}
use real_time_blockchain_ana.Sql.Single.{update-OnlyRow, rows_where_hit, rows_where_miss}
use real_time_blockchain_ana.Lease.{
  same_identity, PipelineLeaseIdentity, PipelineLeaseState, PipelineLeaseHandle, LeaseTable,
  has_key, is_available, get, acquirable, take_over, acquire_update, owned_by, guarded_update,
}

-- The rows of one lease.
abbrev pub rows_of : PipelineLeaseIdentity → LeaseTable → List PipelineLeaseState
rows_of k t = select_where (has_key k) t

-- Exactly one row, as it is pre-provisioned.
abbrev pub HasRow : PipelineLeaseIdentity → PipelineLeaseState → LeaseTable → Type 0
HasRow k r t = rows_of k t ≡ r ∷ []

-- The columns owner and expiry are NULL together.
abbrev pub IsWellFormed : PipelineLeaseState → Type 0
IsWellFormed r =
    ((r.owner_run_id ≡ none) × (r.expires_at ≡ none))
    ⊎ ((o : Text) × (e : Instant) × (r.owner_run_id ≡ some o) × (r.expires_at ≡ some e))

pub update-HasRow :
    (p : PipelineLeaseState → Bool) (f : PipelineLeaseState → PipelineLeaseState)
    (k : PipelineLeaseIdentity) (r : PipelineLeaseState) (t : LeaseTable)
    → ((x : PipelineLeaseState) → (f x).identity ≡ x.identity)
    → HasRow k r t
    → HasRow k (if p r then f r else r) (update_where p f t)
update-HasRow p f k r t keeps h =
    update-OnlyRow (has_key k) p f r t (λ x. ap (λ i. same_identity i k) (keeps x)) h

update-HasRow_hit :
    (p : PipelineLeaseState → Bool) (f : PipelineLeaseState → PipelineLeaseState)
    (k : PipelineLeaseIdentity) (r : PipelineLeaseState) (t : LeaseTable)
    → ((x : PipelineLeaseState) → (f x).identity ≡ x.identity)
    → HasRow k r t
    → p r ≡ true
    → HasRow k (f r) (update_where p f t)
update-HasRow_hit p f k r t keeps h e = update-HasRow p f k r t keeps h ∙ rw e refl

acquire_where :
    (k : PipelineLeaseIdentity) (v now : ℕ) (x : PipelineLeaseState)
    → acquirable k v now x ≡ true
    → has_key k x ≡ true
acquire_where k v now x h = and_left _ _ h

owned_where :
    (h : PipelineLeaseHandle) (x : PipelineLeaseState)
    → owned_by h x ≡ true
    → has_key h.identity x ≡ true
owned_where h x e = and_left _ _ e

pub HasRow-key :
    (k : PipelineLeaseIdentity) (r : PipelineLeaseState) (t : LeaseTable)
    → HasRow k r t
    → has_key k r ≡ true
HasRow-key k r t h = select_where_sound (has_key k) t h

-- The handle that `acquire` returns when its UPDATE succeeds.
abbrev pub granted : PipelineLeaseIdentity → Text → Instant → Instant → ℕ → PipelineLeaseHandle
granted k owner now expires version = record {
  identity = k;
  owner_run_id = owner;
  acquired_at = now;
  expires_at = expires;
  lease_version = version;
}

-- The UPDATE of `acquire`, on the row that it finds: it grants the lease if the row still has the
-- version that was read and is available, and otherwise it is a conflict that changes nothing.
pub acquire_update_lem :
    (k : PipelineLeaseIdentity) (owner : Text) (now expires : Instant) (s r : PipelineLeaseState)
    (t : LeaseTable)
    → HasRow k r t
    → let t' = (acquire_update k owner now expires s t).1 in
      ((r.lease_version ≡ s.lease_version)
        × (is_available now r.owner_run_id r.expires_at ≡ true)
        × ((acquire_update k owner now expires s t).0
            ≡ ok (granted k owner now expires (s.lease_version + 1)))
        × HasRow k (take_over owner now expires (s.lease_version + 1) r) t')
      ⊎ (((r.lease_version ≢ s.lease_version)
            ⊎ (is_available now r.owner_run_id r.expires_at ≡ false))
          × (acquire_update k owner now expires s t ≡ (err lease_conflict, t)))
unfolding acquire_update get
acquire_update_lem k owner now expires s r t h =
    elim (Bool-cases (acquirable k s.lease_version now r)) [
      | inl e ↦
          rw (rows_where_hit (has_key k) _ (acquire_where k s.lease_version now) r t h e)
            (inl (ground arith, ground arith, refl, update-HasRow_hit _ _ k r t (λ x. refl) h e))
      | inr e ↦
          let count = rows_where_miss (has_key k) _ (acquire_where k s.lease_version now) r t h e in
          let same =
            update_where_none _ (take_over owner now expires (s.lease_version + 1)) t count in
          rw count (inr (ground (arith, HasRow-key k r t h), rw (same, h)))
    ]

-- The row is the one that the handle was issued for.
abbrev pub Owns : PipelineLeaseHandle → PipelineLeaseState → Type 0
Owns h r = (r.owner_run_id ≡ some h.owner_run_id) × (r.lease_version ≡ h.lease_version)

pub owned_by-Owns :
    (h : PipelineLeaseHandle) (r : PipelineLeaseState) → owned_by h r ≡ true → Owns h r
owned_by-Owns h r e = ground arith

Owns-owned_by :
    (h : PipelineLeaseHandle) (r : PipelineLeaseState)
    → has_key h.identity r ≡ true
    → owned_by h r ≡ false
    → ¬ Owns h r
Owns-owned_by h r k e o = ground arith

-- The guarded statement of `renew` and `release`: it acts on the row that the handle owns, and
-- otherwise it changes nothing.
pub guarded_update_lem :
    {A : Type 0} (h : PipelineLeaseHandle) (set : PipelineLeaseState → PipelineLeaseState) (a : A)
    (r : PipelineLeaseState) (t : LeaseTable)
    → ((x : PipelineLeaseState) → (set x).identity ≡ x.identity)
    → HasRow h.identity r t
    → (Owns h r
        × ((guarded_update h set a t).0 ≡ ok a)
        × HasRow h.identity (set r) (guarded_update h set a t).1)
      ⊎ ((¬ Owns h r) × (guarded_update h set a t ≡ (err lease_ownership, t)))
unfolding guarded_update
guarded_update_lem h set a r t keeps has = elim (Bool-cases (owned_by h r)) [
  | inl e ↦
      rw (rows_where_hit (has_key h.identity) _ (owned_where h) r t has e)
        (inl (owned_by-Owns h r e, refl, update-HasRow_hit _ set h.identity r t keeps has e))
  | inr e ↦
      rw (rows_where_miss (has_key h.identity) _ (owned_where h) r t has e)
        (inr (Owns-owned_by h r (HasRow-key h.identity r t has) e, refl))
]
