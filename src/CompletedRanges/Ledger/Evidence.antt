-- ===== src/CompletedRanges/Ledger/Evidence.antt =====
-- One range of the ledger of warehouse/completed_ranges.py: found recorded, or added.
use real_time_blockchain_ana.Prelude.{
  conflicting_evidence, not, Bool, ◌||◌, raise_if, Option, some, none, is_some, ◌≡◌, refl, sym, ◌∙◌,
  ◌⊎◌, inl, inr, true, List, [], ◌∷◌, ◌++◌, ok, arith, if◌then◌else◌, Bool-cases, bind-eq-ok,
  ok-injective, subst,
}
use real_time_blockchain_ana.Prelude.Int.{ℤ, eq_of_parts}
use real_time_blockchain_ana.Prelude.Lists.{All, Any}
use real_time_blockchain_ana.Python.Text.{Text, text_eq}
use real_time_blockchain_ana.Sql.{select_where, select_where-append}
use real_time_blockchain_ana.Watermark.{WatermarkIdentity, same_identity}
use real_time_blockchain_ana.AaveForward.{CompletedBlockRange}
use real_time_blockchain_ana.CompletedRanges.Ledger.{
  EvidenceRow, EvidenceTable, matching_rows, has_range, same_time, row_of, assert_identical,
  append_or_keep, record_one,
}

same_identity_refl : (i : WatermarkIdentity) → same_identity i i ≡ true
same_identity_refl i = ground arith

has_range_refl :
    (i : WatermarkIdentity) (r : CompletedBlockRange)
    → has_range i r.start_block r.end_block (row_of i r) ≡ true
has_range_refl i r = rw (same_identity_refl i) (ground arith)

has_range-parts :
    (i : WatermarkIdentity) (first last : ℤ) (row : EvidenceRow)
    → has_range i first last row ≡ true
    → (row.evidence.start_block ≡ first) × (row.evidence.end_block ≡ last)
has_range-parts i first last row h = (
  ground (arith, eq_of_parts row.evidence.start_block first),
  ground (arith, eq_of_parts row.evidence.end_block last),
)

text_eq_refl : (a : Text) → text_eq a a ≡ true
text_eq_refl a = ground arith

same_time_refl : (t : Option _) → is_some t ≡ true → same_time t t ≡ true
same_time_refl none h = absurd (cc h)
same_time_refl (some t) h = ground arith

same_time→eq : (a b : Option _) → same_time a b ≡ true → a ≡ b
same_time→eq none b h = absurd (cc h)
same_time→eq (some a) none h = absurd (cc h)
same_time→eq (some a) (some b) h = ground arith

text_eq→eq : (a b : Text) → text_eq a b ≡ true → a ≡ b
text_eq→eq a b h = ground arith

-- The same evidence: its run and its time.
abbrev pub SameEvidence : CompletedBlockRange → CompletedBlockRange → Type 0
SameEvidence r e = (e.successful_run_id ≡ r.successful_run_id) × (e.completed_at ≡ r.completed_at)

SameEvidence-assert_identical :
    (r e : CompletedBlockRange)
    → is_some r.completed_at ≡ true
    → SameEvidence r e
    → assert_identical r e ≡ ok tt
unfolding assert_identical
SameEvidence-assert_identical r e timed (run, time) =
    rw (run, time, text_eq_refl r.successful_run_id, same_time_refl r.completed_at timed) refl

neither :
    (a b : Bool) {u : Unit {0}}
    → raise_if (not a || not b) conflicting_evidence ≡ ok u
    → (a ≡ true) × (b ≡ true)
neither a b h = (ground arith, ground arith)

assert_identical-SameEvidence :
    (r e : CompletedBlockRange) {u : Unit {0}} → assert_identical r e ≡ ok u → SameEvidence r e
unfolding assert_identical
assert_identical-SameEvidence r e h =
    let (run, time) =
      neither (text_eq e.successful_run_id r.successful_run_id)
        (same_time e.completed_at r.completed_at) h in
    (
      text_eq→eq e.successful_run_id r.successful_run_id run,
      same_time→eq e.completed_at r.completed_at time,
    )

module _ (i : WatermarkIdentity) where
  -- One row has the range, with the run and the time that the range gives.
  abbrev pub Recorded : CompletedBlockRange → EvidenceTable → Type 0
  Recorded r t =
      (row : EvidenceRow) × (matching_rows i r t ≡ row ∷ []) × SameEvidence r row.evidence

  pub record_one_again :
      (r : CompletedBlockRange) (t : EvidenceTable)
      → is_some r.completed_at ≡ true
      → Recorded r t
      → record_one i r t ≡ ok t
  unfolding record_one
  record_one_again r t timed (row, e, same) =
      rw (e, SameEvidence-assert_identical r row.evidence timed same) refl

  -- What a step that succeeds has done: it found the range recorded, or no row for it.
  append_or_keep-cases :
      (r : CompletedBlockRange) (t t' : EvidenceTable) (rows : List EvidenceRow)
      → append_or_keep i r t rows ≡ ok t'
      → ((t ≡ t') × ((row : EvidenceRow) × (rows ≡ row ∷ []) × SameEvidence r row.evidence))
        ⊎ ((rows ≡ []) × (t' ≡ t ++ row_of i r ∷ []))
  append_or_keep-cases r t t' [] h = inr (refl, sym (ok-injective h))
  append_or_keep-cases r t t' (row ∷ []) h =
      let (u, e, h1) = bind-eq-ok (assert_identical r row.evidence) (λ _. ok t) h in
      inl (ok-injective h1, (row, refl, assert_identical-SameEvidence r row.evidence e))
  append_or_keep-cases r t t' (_ ∷ _ ∷ _) h = absurd (cc h)

  matching_append :
      (r : CompletedBlockRange) (t : EvidenceTable) (row : EvidenceRow)
      → matching_rows i r (t ++ row ∷ [])
        ≡ matching_rows i r t
          ++ (if has_range i r.start_block r.end_block row then row ∷ [] else [])
  unfolding matching_rows select_where
  matching_append r t row = select_where-append (has_range i r.start_block r.end_block) t (row ∷ [])

  appended-Recorded :
      (r : CompletedBlockRange) (t : EvidenceTable)
      → is_some r.completed_at ≡ true
      → matching_rows i r t ≡ []
      → Recorded r (t ++ row_of i r ∷ [])
  appended-Recorded r t h e =
      (row_of i r, matching_append r t (row_of i r) ∙ rw (e, has_range_refl i r) refl, (refl, refl))

  matching_congr :
      (a b : CompletedBlockRange) (t : EvidenceTable)
      → a.start_block ≡ b.start_block
      → a.end_block ≡ b.end_block
      → matching_rows i a t ≡ matching_rows i b t
  unfolding matching_rows
  matching_congr a b t h k = rw (h, k) refl

  append_keeps-Recorded :
      (r0 r : CompletedBlockRange) (t : EvidenceTable)
      → matching_rows i r t ≡ []
      → Recorded r0 t
      → Recorded r0 (t ++ row_of i r ∷ [])
  append_keeps-Recorded r0 r t e (row, e0, same) =
      elim (Bool-cases (has_range i r0.start_block r0.end_block (row_of i r))) [
        | inl hit ↦
            let (first, last) = has_range-parts i r0.start_block r0.end_block (row_of i r) hit in
            absurd (cc (sym e ∙ matching_congr r r0 t first last ∙ e0))
        | inr miss ↦ (row, matching_append r0 t (row_of i r) ∙ rw (e0, miss) refl, same)
      ]

  -- Rows are only added, and only rows of the batch.
  abbrev pub Extends : List CompletedBlockRange → EvidenceTable → EvidenceTable → Type 0
  Extends rs t t' =
      (added : List EvidenceRow) × (t' ≡ t ++ added)
      × All (λ row. Any (λ r. row ≡ row_of i r) rs) added

  pub record_one-Recorded :
      (r : CompletedBlockRange) (t t' : EvidenceTable)
      → is_some r.completed_at ≡ true
      → record_one i r t ≡ ok t'
      → Recorded r t'
        × ((r0 : CompletedBlockRange) → Recorded r0 t → Recorded r0 t')
        × ((t' ≡ t) ⊎ (t' ≡ t ++ row_of i r ∷ []))
  unfolding record_one
  record_one-Recorded r t t' timed h = elim (append_or_keep-cases r t t' (matching_rows i r t) h) [
    | inl (same, found) ↦
        (subst (Recorded r) same found, (λ r0 h0. subst (Recorded r0) same h0), inl (sym same))
    | inr (e, added) ↦ (
      subst (Recorded r) (sym added) (appended-Recorded r t timed e),
      (λ r0 h0. subst (Recorded r0) (sym added) (append_keeps-Recorded r0 r t e h0)),
      inr added,
    )
  ]
