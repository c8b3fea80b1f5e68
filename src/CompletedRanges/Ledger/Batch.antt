-- ===== src/CompletedRanges/Ledger/Batch.antt =====
-- Atomic batches of the ledger: `record_ranges` of warehouse/completed_ranges.py.
use mathlib.Core.List.{append-nil, append_assoc}
use real_time_blockchain_ana.Prelude.{
  is_some, ◌≡◌, refl, sym, ap, ◌∙◌, ◌⊎◌, inl, inr, true, List, [], ◌∷◌, ◌++◌, Result, ok, err, ◌>>◌,
  arith, bind-eq-ok, ok-injective, subst,
}
use real_time_blockchain_ana.Prelude.Lists.{All, All-imp, Any}
use real_time_blockchain_ana.Watermark.{WatermarkIdentity}
use real_time_blockchain_ana.AaveForward.{CompletedBlockRange}
use real_time_blockchain_ana.CompletedRanges.Ledger.{
  EvidenceRow, EvidenceTable, validate_completed_range, row_of, record_one, record_each,
  validate_each, end_transaction, record_ranges,
}
use real_time_blockchain_ana.CompletedRanges.Ledger.Evidence.{
  Recorded, Extends, record_one_again, record_one-Recorded,
}

module _ (i : WatermarkIdentity) where
  abbrev Timed : List CompletedBlockRange → Type 0
  Timed rs = All (λ r. is_some r.completed_at ≡ true) rs

  validate_each-Timed :
      (rs : List CompletedBlockRange) {u : Unit {0}} → validate_each rs ≡ ok u → Timed rs
  unfolding validate_each validate_completed_range
  validate_each-Timed [] h = tt
  validate_each-Timed (r ∷ rs) h =
      let (u, e, h') = bind-eq-ok (validate_completed_range r) (λ _. validate_each rs) h in
      (timed r e, validate_each-Timed rs h')
    where
      timed :
          (r : CompletedBlockRange) {u : Unit {0}}
          → validate_completed_range r ≡ ok u
          → is_some r.completed_at ≡ true
      timed r h = ground arith

  widen :
      (r : CompletedBlockRange) (rs : List CompletedBlockRange) (added : List EvidenceRow)
      → All (λ row. Any (λ x. row ≡ row_of i x) rs) added
      → All (λ row. Any (λ x. row ≡ row_of i x) (r ∷ rs)) added
  widen r rs added h = All-imp _ _ added (λ row a. inr a) h

  Extends-step :
      (r : CompletedBlockRange) (rs : List CompletedBlockRange) (t t1 t' : EvidenceTable)
      → (t1 ≡ t) ⊎ (t1 ≡ t ++ row_of i r ∷ [])
      → Extends i rs t1 t'
      → Extends i (r ∷ rs) t t'
  Extends-step r rs t t1 t' (inl same) (added, e, from) =
      (added, e ∙ ap (λ x. x ++ added) same, widen r rs added from)
  Extends-step r rs t t1 t' (inr grown) (added, e, from) = (
    row_of i r ∷ added,
    e ∙ ap (λ x. x ++ added) grown ∙ append_assoc t (row_of i r ∷ []) added,
    (inl refl, widen r rs added from),
  )

  record_each-Recorded :
      (rs : List CompletedBlockRange) (t t' : EvidenceTable)
      → Timed rs
      → record_each i rs t ≡ ok t'
      → All (λ r. Recorded i r t') rs
        × ((r0 : CompletedBlockRange) → Recorded i r0 t → Recorded i r0 t')
        × Extends i rs t t'
  unfolding record_each
  record_each-Recorded [] t t' timed h = (
    tt,
    (λ r0 h0. subst (Recorded i r0) (ok-injective h) h0),
    ([], sym (ok-injective h) ∙ sym (append-nil t), tt),
  )
  record_each-Recorded (r ∷ rs) t t' timed h =
      let (t1, e, h') = bind-eq-ok (record_one i r t) (record_each i rs) h in
      let (here, kept, step) = record_one-Recorded i r t t1 timed.0 e in
      let (later, kept', grown) = record_each-Recorded rs t1 t' timed.1 h' in
      (
        (kept' r here, later),
        (λ r0 h0. kept' r0 (kept r0 h0)),
        Extends-step r rs t t1 t' step grown,
      )

  record_each_again :
      (rs : List CompletedBlockRange) (t : EvidenceTable)
      → Timed rs
      → All (λ r. Recorded i r t) rs
      → record_each i rs t ≡ ok t
  unfolding record_each
  record_each_again [] t timed h = refl
  record_each_again (r ∷ rs) t timed h =
      rw (record_one_again i r t timed.0 h.0) (record_each_again rs t timed.1 h.1)

  -- How a batch ends: all of it recorded by added rows alone, and a retry then changes nothing; or
  -- an error, and nothing recorded.
  abbrev pub BatchOutcome :
      List CompletedBlockRange
      → EvidenceTable
      → Result (List CompletedBlockRange) × EvidenceTable
      → Type 0
  BatchOutcome rs t (ok recorded, t') =
      (recorded ≡ rs)
      × All (λ r. Recorded i r t') rs
      × Extends i rs t t'
      × (record_ranges i rs t' ≡ (ok rs, t'))
  BatchOutcome rs t (err e, t') = t' ≡ t

  batch :
      (r : CompletedBlockRange) (rs : List CompletedBlockRange) (t : EvidenceTable)
      (m : Result EvidenceTable)
      → (validate_each (r ∷ rs) >> record_each i (r ∷ rs) t) ≡ m
      → BatchOutcome (r ∷ rs) t (end_transaction (r ∷ rs) t m)
  unfolding record_ranges
  batch r rs t (err e) h = refl
  batch r rs t (ok t') h =
      let (u, valid, each) =
        bind-eq-ok (validate_each (r ∷ rs)) (λ _. record_each i (r ∷ rs) t) h in
      let (all, _, grown) =
        record_each-Recorded (r ∷ rs) t t' (validate_each-Timed (r ∷ rs) valid) each in
      (
        refl,
        all,
        grown,
        rw (valid, record_each_again (r ∷ rs) t' (validate_each-Timed (r ∷ rs) valid) all) refl,
      )

  -- A batch of completed ranges is recorded as a whole or not at all. Where it succeeds each range
  -- has exactly one row, with its run and its time, the earlier rows stay and only rows of the
  -- batch are added, and recording the same batch again succeeds and adds none. Where it raises the
  -- table is as it was.
  pub record_ranges-BatchOutcome :
      (rs : List CompletedBlockRange) (t : EvidenceTable) → BatchOutcome rs t (record_ranges i rs t)
  unfolding record_ranges
  record_ranges-BatchOutcome [] t = (refl, tt, ([], sym (append-nil t), tt), refl)
  record_ranges-BatchOutcome (r ∷ rs) t =
      batch r rs t (validate_each (r ∷ rs) >> record_each i (r ∷ rs) t) refl
