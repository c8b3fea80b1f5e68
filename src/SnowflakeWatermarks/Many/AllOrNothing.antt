-- ===== src/SnowflakeWatermarks/Many/AllOrNothing.antt =====
-- `advance_many` of warehouse/watermarks.py changes all of its keys or none.
use real_time_blockchain_ana.Prelude.{
  ◌≡◌, refl, sym, ◌≢◌, ◌⊎◌, inl, inr, some, List, [], ◌∷◌, Result, ok, err, Bool-cases, bind-eq-ok,
  ok-injective, subst,
}
use real_time_blockchain_ana.Prelude.Int.{ℤ}
use real_time_blockchain_ana.Prelude.Lists.{All, All-imp}
use real_time_blockchain_ana.Python.Text.{Text}
use real_time_blockchain_ana.Python.Time.{DateTime}
use real_time_blockchain_ana.Python.Sort.{All-sorted, insert, sorted, All-insert}
use real_time_blockchain_ana.Watermark.{WatermarkIdentity, WatermarkState}
use real_time_blockchain_ana.Watermark.Atomic.{IdentityMap, keys, item_lt, same_keys}
use real_time_blockchain_ana.Watermark.Atomic.Commit.{Distinct}
use real_time_blockchain_ana.SnowflakeWatermarks.{WatermarkTable, get}
use real_time_blockchain_ana.SnowflakeWatermarks.Many.{
  OtherSessions, no_others, close_transaction, read_prior, update_rows, result_states,
  advance_statements, advance_many,
}
use real_time_blockchain_ana.SnowflakeWatermarks.Many.Row.{Ready, Present}
use real_time_blockchain_ana.SnowflakeWatermarks.Many.Changes.{
  Committed, OthersKept, read_prior-Ready, update_rows-Committed,
}

-- Sorting keeps the keys different.
insert-Distinct :
    (x : WatermarkIdentity × ℤ) (items : IdentityMap ℤ)
    → All (λ other. other.0 ≢ x.0) items
    → Distinct items
    → Distinct (insert item_lt x items)
unfolding insert
insert-Distinct x [] a d = (tt, tt)
insert-Distinct x (y ∷ items) (ne, a) (fresh, d) = elim (Bool-cases (item_lt y x)) [
  | inl e ↦ rw e (
    All-insert item_lt (λ other. other.0 ≢ y.0) x items (λ p. ne (sym p)) fresh,
    insert-Distinct x items a d,
  )
  | inr e ↦ rw e ((ne, a), (fresh, d))
]

sorted-Distinct : (items : IdentityMap ℤ) → Distinct items → Distinct (sorted item_lt items)
unfolding sorted
sorted-Distinct [] d = tt
sorted-Distinct (x ∷ items) (fresh, d) =
    insert-Distinct x (sorted item_lt items)
      (All-sorted item_lt (λ other. other.0 ≢ x.0) items fresh) (sorted-Distinct items d)

-- The table that the SELECT of each key sees.
abbrev pub seen_by : OtherSessions → WatermarkTable → WatermarkIdentity → WatermarkTable
seen_by others t i = others.at_select i t

-- The SELECT of the key has seen one row, with the expected value.
abbrev pub Expected : (WatermarkIdentity → WatermarkTable) → (WatermarkIdentity × ℤ) → Type 0
Expected seen (i, e) =
    (r : WatermarkState) × (get i (seen i) ≡ ok (some r)) × (r.committed_value ≡ e)

-- A key that has one row at its SELECT still has one at the first UPDATE, whatever its value.
abbrev pub KeepsRow : OtherSessions → WatermarkTable → (WatermarkIdentity × ℤ) → Type 0
KeepsRow others t item =
    Present (others.at_select item.0 t) item → Present (others.at_update t) item

keeps-Present :
    (others : OtherSessions) (t : WatermarkTable) (prior : IdentityMap WatermarkState)
    (items : IdentityMap ℤ)
    → All (KeepsRow others t) items
    → All (Ready (seen_by others t) prior) items
    → All (Present (others.at_update t)) items
keeps-Present others t prior [] keeps ready = tt
keeps-Present others t prior (item ∷ items) (k, ks) ((r, _, before, _), rs) =
    (k (r, before), keeps-Present others t prior items ks rs)

pub no_others-KeepsRow :
    (t : WatermarkTable) (items : IdentityMap ℤ) → All (KeepsRow no_others t) items
no_others-KeepsRow t [] = tt
no_others-KeepsRow t (item ∷ items) = ((λ h. h), no_others-KeepsRow t items)

-- How a call on the table `t` ends. It raises, and the table is as it was or as the other sessions
-- have left it. Or the SELECT of each key has seen its expected value, each key is at its
-- candidate, as the state that is returned says, or has been left alone, and no other key has
-- changed from what the other sessions have left. The states come back in the order of their keys.
abbrev pub AllOrNothing :
    OtherSessions
    → WatermarkTable
    → IdentityMap ℤ
    → IdentityMap ℤ
    → Result (List WatermarkState) × WatermarkTable
    → Type 0
AllOrNothing others t expected candidates (err e, after) =
    (after ≡ t) ⊎ (after ≡ others.at_update t)
AllOrNothing others t expected candidates (ok states, after) =
    All (Expected (seen_by others t)) (sorted item_lt expected)
    × Committed (seen_by others t) candidates (others.at_update t) after (sorted item_lt expected)
        states
    × OthersKept (others.at_update t) after expected

close-AllOrNothing :
    (others : OtherSessions) (expected candidates : IdentityMap ℤ) (t : WatermarkTable)
    (r : Result (WatermarkTable × List WatermarkState))
    → ((after : WatermarkTable) (states : List WatermarkState)
        → r ≡ ok (after, states)
        → AllOrNothing others t expected candidates (ok states, after))
    → AllOrNothing others t expected candidates (close_transaction (others.at_update t) r)
close-AllOrNothing others expected candidates t (ok (after, states)) h = h after states refl
close-AllOrNothing others expected candidates t (err e) h = inr refl

module _ (clock : DateTime) (run : Text) (others : OtherSessions) where
  statements-AllOrNothing :
      (expected candidates : IdentityMap ℤ) (t after : WatermarkTable)
      (states : List WatermarkState)
      → Distinct expected
      → All (KeepsRow others t) expected
      → advance_statements clock run others candidates (sorted item_lt expected) t
        ≡ ok (after, states)
      → AllOrNothing others t expected candidates (ok states, after)
  unfolding advance_statements
  statements-AllOrNothing expected candidates t after states d keeps h =
      let ordered = sorted item_lt expected in
      let seen = seen_by others t in
      let start = others.at_update t in
      let (prior, e1, h1) = bind-eq-ok (read_prior seen ordered) _ h in
      let (u, e2, h2) = bind-eq-ok (update_rows clock run candidates ordered start) _ h1 in
      let (ss, e3, h3) = bind-eq-ok (result_states clock run candidates prior ordered) _ h2 in
      let distinct = sorted-Distinct expected d in
      let ready = read_prior-Ready seen ordered prior distinct e1 in
      let present =
        keeps-Present others t prior ordered (All-sorted item_lt (KeepsRow others t) expected keeps)
          ready in
      let (done, kept) =
        update_rows-Committed clock run seen candidates prior ordered start u ss distinct ready
          present e2 e3 in
      subst (λ r. AllOrNothing others t expected candidates (ok r.1, r.0)) (ok-injective h3)
        (
          All-imp (Ready seen prior) (Expected seen) ordered
              (λ x (r, _, before, value). (r, before, value)) ready,
          done,
          λ j ne. kept j (All-sorted item_lt (λ item. j ≢ item.0) expected ne),
        )

  -- An `advance_many` on mappings, whose keys are different, while other sessions commit before
  -- each SELECT and before the first UPDATE, and leave each key that has one row with one row. It
  -- either raises, and the table is as it was or as they left it; or each key's SELECT has seen its
  -- expected value and the states come back at the candidates. A key whose candidate is another
  -- value is above its expected value, still had that value when it was written, and is stored as
  -- the state says. A key whose candidate is the expected value is not written, and its state is
  -- the one that its SELECT saw. No other key changes from what the other sessions have left.
  pub advance_many-AllOrNothing :
      (expected candidates : IdentityMap ℤ) (t : WatermarkTable)
      → Distinct expected
      → All (KeepsRow others t) expected
      → AllOrNothing others t expected candidates
          (advance_many clock run others expected candidates t)
  unfolding advance_many
  advance_many-AllOrNothing expected candidates t d keeps =
      elim (Bool-cases (same_keys (keys expected) (keys candidates))) [
        | inr other ↦ rw (other, advance_many) (inl refl)
        | inl same ↦
            rw (same, advance_many)
              (close-AllOrNothing others expected candidates t
                (advance_statements clock run others candidates (sorted item_lt expected) t)
                (λ after states e.
                  statements-AllOrNothing expected candidates t after states d keeps e))
      ]
