-- ===== src/SnowflakeWatermarks/Contract.antt =====
-- `SnowflakeWatermarkStore` keeps the contract of a watermark store.
use mathlib.Core.List.{append-nil}
use real_time_blockchain_ana.Prelude.{
  ◌≡◌, refl, sym, ap, ◌∙◌, ◌≢◌, inl, inr, true, false, Option, none, some, List, [], ◌∷◌, ◌++◌, ok,
  arith, ◌==◌, Bool-cases, and_left, ok-injective,
}
use real_time_blockchain_ana.Prelude.Int.{ℤ, ◌<ℤ◌, eq_of_parts}
use real_time_blockchain_ana.Python.Text.{Text}
use real_time_blockchain_ana.Python.Time.{DateTime}
use real_time_blockchain_ana.Sql.{
  select_where, update_where, rows_where, select_where_sound, select_where-append,
  select-update_where_other,
}
use real_time_blockchain_ana.Sql.Single.{
  OnlyRow, update-OnlyRow_hit, rows_where_hit, rows_where_miss, rows_where_absent,
}
use real_time_blockchain_ana.Watermark.{WatermarkIdentity, WatermarkState, same_identity}
use real_time_blockchain_ana.Watermark.Laws.{IsWatermarkStore, Wrote}
use real_time_blockchain_ana.SnowflakeWatermarks.{
  WatermarkTable, has_key, state_from_rows, get, state_of, initialize, advanceable, set_progress,
  advance, snowflake_watermark_store,
}

rows-none : (rows : List WatermarkState) → state_from_rows rows ≡ ok none → rows ≡ []
rows-none [] h = refl
rows-none (r ∷ []) h = cc
rows-none (r ∷ _ ∷ _) h = cc

rows-some :
    (rows : List WatermarkState) (r : WatermarkState)
    → state_from_rows rows ≡ ok (some r)
    → rows ≡ r ∷ []
rows-some [] r h = cc
rows-some (x ∷ []) r h = ground arith
rows-some (x ∷ _ ∷ _) r h = cc

get-absent :
    (i : WatermarkIdentity) (t : WatermarkTable)
    → get i t ≡ ok none
    → select_where (has_key i) t ≡ []
unfolding get
get-absent i t h = rows-none _ h

pub get-OnlyRow :
    (i : WatermarkIdentity) (t : WatermarkTable) (r : WatermarkState)
    → get i t ≡ ok (some r)
    → OnlyRow (has_key i) r t
unfolding get
get-OnlyRow i t r h = rows-some _ r h

OnlyRow-get :
    (i : WatermarkIdentity) (t : WatermarkTable) (r : WatermarkState)
    → OnlyRow (has_key i) r t
    → get i t ≡ ok (some r)
unfolding get
OnlyRow-get i t r h = rw h

-- Reads depend on the rows of their key alone.
get_congr :
    (j : WatermarkIdentity) (t t' : WatermarkTable)
    → select_where (has_key j) t' ≡ select_where (has_key j) t
    → get j t' ≡ get j t
unfolding get
get_congr j t t' h = rw h

pub same_identity→eq : (a b : WatermarkIdentity) → same_identity a b ≡ true → a ≡ b
same_identity→eq a b h = ground arith

pub same_identity_ne : (a b : WatermarkIdentity) → a ≢ b → same_identity a b ≡ false
same_identity_ne a b h = ground arith

pub same_identity_refl : (a : WatermarkIdentity) → same_identity a a ≡ true
same_identity_refl a = ground arith

advanceable-has_key :
    (i : WatermarkIdentity) (e c : ℤ) (x : WatermarkState)
    → advanceable i e c x ≡ true
    → has_key i x ≡ true
advanceable-has_key i e c x h = and_left _ _ h

-- The row that passes the WHERE clause of `advance`.
advanceable-row :
    (i : WatermarkIdentity) (e c : ℤ) (r : WatermarkState)
    → advanceable i e c r ≡ true
    → (r.identity ≡ i) × (r.committed_value ≡ e) × (e <ℤ c)
advanceable-row i e c r h = ground (arith, eq_of_parts r.committed_value e)

row-advanceable :
    (i : WatermarkIdentity) (e c : ℤ) (r : WatermarkState)
    → has_key i r ≡ true
    → r.committed_value ≡ e
    → e <ℤ c
    → advanceable i e c r ≡ true
row-advanceable i e c r k v lt = ground arith

key_other :
    (i j : WatermarkIdentity) (x : WatermarkState)
    → j ≢ i
    → has_key i x ≡ true
    → has_key j x ≡ false
key_other i j x ne h =
    same_identity_ne x.identity j (λ e. ne (sym e ∙ same_identity→eq x.identity i h))

module _ (clock : DateTime) (i : WatermarkIdentity) (e c : ℤ) (run : Text)
    (t : WatermarkTable) where
  -- Where one row is counted, the key has one row and it passes the WHERE clause.
  counted :
      (before : Option WatermarkState)
      → get i t ≡ ok before
      → rows_where (advanceable i e c) t ≡ 1
      → (r : WatermarkState) × (before ≡ some r) × (advanceable i e c r ≡ true)
  counted none g n = absurd (
      omega
        (arith, rows_where_absent (has_key i) _ (advanceable-has_key i e c) t (get-absent i t g)))
  counted (some r) g n = elim (Bool-cases (advanceable i e c r)) [
    | inl p ↦ (r, refl, p)
    | inr p ↦ absurd (
        omega (
          arith,
          rows_where_miss (has_key i) _ (advanceable-has_key i e c) r t (get-OnlyRow i t r g) p,
        ))
  ]

  advanced-Wrote :
      (before : Option WatermarkState)
      → get i t ≡ ok before
      → rows_where (advanceable i e c) t ≡ 1
      → Wrote (snowflake_watermark_store clock) i t (
        ok (state_of i c run clock),
        update_where (advanceable i e c) (set_progress c run clock) t,
      )
  unfolding snowflake_watermark_store
  advanced-Wrote before g n =
      let (r, b, p) = counted before g n in
      let row =
        update-OnlyRow_hit (has_key i) (advanceable i e c) (set_progress c run clock) r t
          (λ x. refl) (get-OnlyRow i t r (g ∙ ap ok b)) p in
      let same = advanceable-row i e c r p in
      (
        refl,
        OnlyRow-get i _ _ row ∙ ap (λ k. ok (some (state_of k c run clock))) same.0,
        λ j ne. get_congr j t _ (
            select-update_where_other (advanceable i e c) (has_key j) (set_progress c run clock) t
              (λ x h. key_other i j x ne (advanceable-has_key i e c x h)) (λ x. refl)),
      )

  advance-Wrote :
      (before : Option WatermarkState)
      → get i t ≡ ok before
      → Wrote (snowflake_watermark_store clock) i t (advance clock i e c run t)
  unfolding advance
  advance-Wrote before g = elim (Bool-cases (rows_where (advanceable i e c) t == 1)) [
    | inl n ↦ rw (n, advance) (advanced-Wrote before g (ground arith))
    | inr n ↦ rw (n, advance) refl
  ]

  advance_ok :
      (before : Option WatermarkState) (w : WatermarkState)
      → get i t ≡ ok before
      → (advance clock i e c run t).0 ≡ ok w
      → (w.committed_value ≡ c)
        × (w.successful_run_id ≡ run)
        × (e <ℤ c)
        × ((old : WatermarkState) × (before ≡ some old) × (old.committed_value ≡ e))
  unfolding advance
  advance_ok before w g h = elim (Bool-cases (rows_where (advanceable i e c) t == 1)) [
    | inl n ↦
        let (r, b, p) = counted before g (ground arith) in
        let (_, v, lt) = advanceable-row i e c r p in
        let same : state_of i c run clock ≡ w = ok-injective (rw n at h) in
        (rw (← same) refl, rw (← same) refl, lt, (r, b, v))
    | inr n ↦ cc (rw n at h)
  ]

  advance_total :
      (old : WatermarkState)
      → get i t ≡ ok (some old)
      → old.committed_value ≡ e
      → e <ℤ c
      → (w : WatermarkState) × ((advance clock i e c run t).0 ≡ ok w)
  unfolding advance
  advance_total old g v lt =
      let row = get-OnlyRow i t old g in
      let p = row-advanceable i e c old (select_where_sound (has_key i) t row) v lt in
      (
        state_of i c run clock,
        rw (rows_where_hit (has_key i) _ (advanceable-has_key i e c) old t row p),
      )

module _ (clock : DateTime) (i : WatermarkIdentity) (value : ℤ) (run : Text)
    (t : WatermarkTable) where
  inserted_row :
      select_where (has_key i) t ≡ []
      → OnlyRow (has_key i) (state_of i value run clock) (t ++ state_of i value run clock ∷ [])
  unfolding select_where
  inserted_row absent = rw (
    select_where-append (has_key i) t (state_of i value run clock ∷ []),
    absent,
    same_identity_refl i,
  )

  inserted_other :
      (j : WatermarkIdentity)
      → j ≢ i
      → select_where (has_key j) (t ++ state_of i value run clock ∷ []) ≡ select_where (has_key j) t
  unfolding select_where
  inserted_other j ne =
      rw
        (
          select_where-append (has_key j) t (state_of i value run clock ∷ []),
          same_identity_ne i j (λ e. ne (sym e)),
        )
        (append-nil _)

  no_rows :
      (before : Option WatermarkState)
      → get i t ≡ ok before
      → rows_where (has_key i) t ≡ 0
      → before ≡ none
  no_rows none g n = refl
  no_rows (some r) g n = absurd (
      omega (
        arith,
        rows_where_hit (has_key i) (has_key i) (λ x h. h) r t (get-OnlyRow i t r g)
            (select_where_sound (has_key i) t (get-OnlyRow i t r g)),
      ))

  initialize-Wrote :
      (before : Option WatermarkState)
      → get i t ≡ ok before
      → Wrote (snowflake_watermark_store clock) i t (initialize clock i value run t)
  unfolding initialize snowflake_watermark_store
  initialize-Wrote before g = elim (Bool-cases (rows_where (has_key i) t == 0)) [
    | inl n ↦
        let absent = get-absent i t (g ∙ ap ok (no_rows before g (ground arith))) in
        rw (n, initialize)
          (
            refl,
            OnlyRow-get i _ _ (inserted_row absent),
            λ j ne. get_congr j t _ (inserted_other j ne),
          )
    | inr n ↦ rw (n, initialize) refl
  ]

  initialize_ok :
      (before : Option WatermarkState) (w : WatermarkState)
      → get i t ≡ ok before
      → (initialize clock i value run t).0 ≡ ok w
      → (w.committed_value ≡ value) × (w.successful_run_id ≡ run) × (before ≡ none)
  unfolding initialize
  initialize_ok before w g h = elim (Bool-cases (rows_where (has_key i) t == 0)) [
    | inl n ↦
        let same : state_of i value run clock ≡ w = ok-injective (rw n at h) in
        (rw (← same) refl, rw (← same) refl, no_rows before g (ground arith))
    | inr n ↦ cc (rw n at h)
  ]

  initialize_total :
      get i t ≡ ok none → (w : WatermarkState) × ((initialize clock i value run t).0 ≡ ok w)
  unfolding initialize
  initialize_total g = (
    state_of i value run clock,
    rw (rows_where_absent (has_key i) (has_key i) (λ x h. h) t (get-absent i t g)),
  )

-- The Snowflake store keeps the contract of `WatermarkStore`: an `advance` succeeds exactly where
-- the committed value is the expected one and below the candidate, an `initialize` exactly where
-- the key is absent, what they return is then what `get` reads, and no other key changes.
pub snowflake-IsWatermarkStore :
    (clock : DateTime) → IsWatermarkStore (snowflake_watermark_store clock)
unfolding snowflake_watermark_store
snowflake-IsWatermarkStore clock = record {
  advance-Wrote = λ i e c run t before g. advance-Wrote clock i e c run t before g;
  advance_ok = λ i e c run t before w g h. advance_ok clock i e c run t before w g h;
  advance_total = λ i e c run t old g v lt. advance_total clock i e c run t old g v lt;
  initialize-Wrote = λ i v run t before g. initialize-Wrote clock i v run t before g;
  initialize_ok = λ i v run t before w g h. initialize_ok clock i v run t before w g h;
  initialize_total = λ i v run t g. initialize_total clock i v run t g;
}
