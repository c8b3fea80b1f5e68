-- ===== src/SnowflakeWatermarks/Many/Row.antt =====
-- One key in the statements of `advance_many` of warehouse/watermarks.py.
use real_time_blockchain_ana.Prelude.{
  ◌≡◌, refl, sym, ap, ◌∙◌, ◌≢◌, ◌⊎◌, inl, inr, false, some, ok, arith, ◌==◌, Bool-cases,
  ok-injective, subst,
}
use real_time_blockchain_ana.Prelude.Int.{eqb_ℤ→eq, ℤ, ◌<ℤ◌, eq_of_parts, eqb_ℤ}
use real_time_blockchain_ana.Python.Text.{Text}
use real_time_blockchain_ana.Python.Time.{DateTime}
use real_time_blockchain_ana.Sql.{select_where_sound, rows_where}
use real_time_blockchain_ana.Watermark.{WatermarkIdentity, WatermarkState}
use real_time_blockchain_ana.Watermark.Laws.{Wrote}
use real_time_blockchain_ana.Watermark.Atomic.{IdentityMap, lookup}
use real_time_blockchain_ana.SnowflakeWatermarks.{
  WatermarkTable, has_key, get, state_of, advance, advanceable, snowflake_watermark_store,
}
use real_time_blockchain_ana.SnowflakeWatermarks.Contract.{
  snowflake-IsWatermarkStore, get-OnlyRow, same_identity→eq,
}
use real_time_blockchain_ana.SnowflakeWatermarks.Many.{reachable, update_row, result_state}

-- With a candidate other than the expected value, `<=` and `<` select the same rows.
reachable-advanceable :
    (i : WatermarkIdentity) (e c : ℤ) → eqb_ℤ c e ≡ false → reachable i e c ≡ advanceable i e c
reachable-advanceable i e c ne = λ k row. same row k
  where
    same : (row : WatermarkState) → reachable i e c row ≡ advanceable i e c row
    same row = ground (arith, eq_of_parts row.committed_value e)

-- What the key comes to from `t` to `t'`: it has been left alone, with the state that its SELECT
-- saw; or its one row had the expected value in `t` as well, and in `t'` it is the new state, above
-- that value.
abbrev pub Stored :
    (WatermarkIdentity → WatermarkTable)
    → WatermarkTable
    → WatermarkTable
    → WatermarkIdentity
    → ℤ
    → WatermarkState
    → Type 0
Stored seen t t' i e s =
    ((s.committed_value ≡ e) × (get i (seen i) ≡ ok (some s)) × (get i t' ≡ get i t))
    ⊎ ((e <ℤ s.committed_value)
        × ((r : WatermarkState) × (get i t ≡ ok (some r)) × (r.committed_value ≡ e))
        × (get i t' ≡ ok (some s)))

pub Stored-later :
    (seen : WatermarkIdentity → WatermarkTable) (t u t' : WatermarkTable) (i : WatermarkIdentity)
    (e : ℤ) (s : WatermarkState)
    → get i t' ≡ get i u
    → Stored seen t u i e s
    → Stored seen t t' i e s
Stored-later seen t u t' i e s kept (inl (v, read, same)) = inl (v, read, kept ∙ same)
Stored-later seen t u t' i e s kept (inr (lt, had, now)) = inr (lt, had, kept ∙ now)

pub Stored-earlier :
    (seen : WatermarkIdentity → WatermarkTable) (t u t' : WatermarkTable) (i : WatermarkIdentity)
    (e : ℤ) (s : WatermarkState)
    → get i u ≡ get i t
    → Stored seen u t' i e s
    → Stored seen t t' i e s
Stored-earlier seen t u t' i e s kept (inl (v, read, same)) = inl (v, read, same ∙ kept)
Stored-earlier seen t u t' i e s kept (inr (lt, (r, had, v), now)) =
    inr (lt, (r, sym kept ∙ had, v), now)

-- The turn of the key goes from `t` to `t'` and concerns no other key.
abbrev pub Moved :
    (WatermarkIdentity → WatermarkTable)
    → WatermarkIdentity
    → ℤ
    → ℤ
    → WatermarkTable
    → WatermarkTable
    → WatermarkState
    → Type 0
Moved seen i e c t t' s =
    (s.identity ≡ i)
    × (c ≡ s.committed_value)
    × Stored seen t t' i e s
    × ((j : WatermarkIdentity) → j ≢ i → get j t' ≡ get j t)

get-identity :
    (i : WatermarkIdentity) (t : WatermarkTable) (r : WatermarkState)
    → get i t ≡ ok (some r)
    → r.identity ≡ i
get-identity i t r h =
    same_identity→eq r.identity i (select_where_sound (has_key i) t (get-OnlyRow i t r h))

-- The SELECT of the key has seen one row, with the expected value, and it is the one that was read.
abbrev pub Ready :
    (WatermarkIdentity → WatermarkTable)
    → IdentityMap WatermarkState
    → (WatermarkIdentity × ℤ)
    → Type 0
Ready seen prior (i, e) =
    (r : WatermarkState) × (lookup prior i ≡ ok r)
    × (get i (seen i) ≡ ok (some r))
    × (r.committed_value ≡ e)

-- The key has one row.
abbrev pub Present : WatermarkTable → (WatermarkIdentity × ℤ) → Type 0
Present t (i, e) = (r : WatermarkState) × (get i t ≡ ok (some r))

module _ (clock : DateTime) (run : Text) where
  -- One turn of the loop is the compare-and-set of a single watermark.
  update_row-advance :
      (i : WatermarkIdentity) (e c : ℤ) (t t' : WatermarkTable)
      → eqb_ℤ c e ≡ false
      → update_row clock run i e c t ≡ ok t'
      → advance clock i e c run t ≡ (ok (state_of i c run clock), t')
  unfolding update_row advance
  update_row-advance i e c t t' ne h = elim (Bool-cases (rows_where (advanceable i e c) t == 1)) [
    | inl one ↦
        let done = rw (ne, reachable-advanceable i e c ne, one) at h in
        rw one (ap (λ u. (ok (state_of i c run clock), u)) (ok-injective done))
    | inr other ↦ let failed = rw (ne, reachable-advanceable i e c ne, other) at h in cc
  ]

  pub update_row-Moves :
      (seen : WatermarkIdentity → WatermarkTable) (i : WatermarkIdentity) (e c : ℤ)
      (t t' : WatermarkTable) (prior : IdentityMap WatermarkState) (s : WatermarkState)
      → Ready seen prior (i, e)
      → Present t (i, e)
      → update_row clock run i e c t ≡ ok t'
      → result_state clock run prior i e c ≡ ok s
      → Moved seen i e c t t' s
  unfolding update_row snowflake_watermark_store
  update_row-Moves seen i e c t t' prior s (r, there, before, value) (x, present) h k =
      elim (Bool-cases (eqb_ℤ c e)) [
        | inl same ↦
            let kept : t ≡ t' = ok-injective (rw same at h) in
            let row : state_of i r.committed_value r.successful_run_id r.updated_at ≡ s =
              ok-injective (rw (same, there) at k) in
            let own : state_of i r.committed_value r.successful_run_id r.updated_at ≡ r =
              ap (λ k. state_of k r.committed_value r.successful_run_id r.updated_at)
                (sym (get-identity i (seen i) r before)) in
            let same_value : c ≡ e = eqb_ℤ→eq c e same in
            subst (Moved seen i e c t t') (sym own ∙ row) (
              get-identity i (seen i) r before,
              same_value ∙ sym value,
              inl (value, before, ap (get i) (sym kept)),
              λ j ne. ap (get j) (sym kept),
            )
        | inr ne ↦
            let laws = snowflake-IsWatermarkStore clock in
            let step = update_row-advance i e c t t' ne h in
            let state : state_of i c run clock ≡ s = ok-injective (rw ne at k) in
            let (same_id, stored, others) =
              subst (Wrote (snowflake_watermark_store clock) i t) step
                (laws.advance-Wrote i e c run t (some x) present) in
            let (_, _, lt, (old, found, v)) =
              laws.advance_ok i e c run t (some x) (state_of i c run clock) present
                (ap (λ p. p.0) step) in
            let had : get i t ≡ ok (some old) = present ∙ ap ok found in
            subst (Moved seen i e c t t') state
              (refl, refl, inr (lt, (old, had, v), stored), others)
      ]
