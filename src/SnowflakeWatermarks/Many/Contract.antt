-- ===== src/SnowflakeWatermarks/Many/Contract.antt =====
-- The Snowflake store as an `AtomicWatermarkStore` of orchestration/watermark.py.
use real_time_blockchain_ana.Prelude.{
  ◌≡◌, refl, ◌∙◌, inl, inr, arith, List, [], ◌∷◌, Result, ok, err, Bool-cases,
}
use real_time_blockchain_ana.Prelude.Int.{ℤ}
use real_time_blockchain_ana.Prelude.Lists.{All}
use real_time_blockchain_ana.Python.Time.{DateTime}
use real_time_blockchain_ana.Python.Sort.{insert, sorted}
use real_time_blockchain_ana.Watermark.{WatermarkIdentity, WatermarkState}
use real_time_blockchain_ana.Watermark.Atomic.{IdentityMap, lookup, item_lt}
use real_time_blockchain_ana.Watermark.Atomic.Commit.{Advanced, AdvancedAll, IsAtomicWatermarkStore}
use real_time_blockchain_ana.SnowflakeWatermarks.{WatermarkTable, snowflake_watermark_store}
use real_time_blockchain_ana.SnowflakeWatermarks.Many.{no_others, snowflake_atomic_store}
use real_time_blockchain_ana.SnowflakeWatermarks.Many.Row.{Stored}
use real_time_blockchain_ana.SnowflakeWatermarks.Many.Changes.{Committed}
use real_time_blockchain_ana.SnowflakeWatermarks.Many.AllOrNothing.{
  no_others-KeepsRow, AllOrNothing, advance_many-AllOrNothing,
}

-- What holds of the sorted items holds of all.
insert-All :
    (P : (WatermarkIdentity × ℤ) → Type 0) (x : WatermarkIdentity × ℤ) (items : IdentityMap ℤ)
    → All P (insert item_lt x items)
    → P x × All P items
unfolding insert
insert-All P x [] h = h
insert-All P x (y ∷ items) h = elim (Bool-cases (item_lt y x)) [
  | inl e ↦
      let (here, later) = rw e at h in let (p, q) = insert-All P x items later in (p, (here, q))
  | inr e ↦ rw e at h
]

sorted-All :
    (P : (WatermarkIdentity × ℤ) → Type 0) (items : IdentityMap ℤ)
    → All P (sorted item_lt items)
    → All P items
unfolding sorted
sorted-All P [] h = tt
sorted-All P (x ∷ items) h =
    let (p, q) = insert-All P x (sorted item_lt items) h in (p, sorted-All P items q)

module _ (clock : DateTime) where
  Stored-Advanced :
      (candidates : IdentityMap ℤ) (t after : WatermarkTable) (item : WatermarkIdentity × ℤ)
      (s : WatermarkState)
      → lookup candidates item.0 ≡ ok s.committed_value
      → Stored (λ i. t) t after item.0 item.1 s
      → Advanced (snowflake_atomic_store clock no_others) candidates after item
  unfolding snowflake_atomic_store snowflake_watermark_store
  Stored-Advanced candidates t after item s chosen (inl (value, read, same)) =
      (s.committed_value, s, chosen, rw value (omega arith), same ∙ read, refl)
  Stored-Advanced candidates t after item s chosen (inr (lt, _, now)) =
      (s.committed_value, s, chosen, omega (arith, lt), now, refl)

  Committed-Advanced :
      (candidates : IdentityMap ℤ) (t after : WatermarkTable) (items : IdentityMap ℤ)
      (states : List WatermarkState)
      → Committed (λ i. t) candidates t after items states
      → All (Advanced (snowflake_atomic_store clock no_others) candidates after) items
  Committed-Advanced candidates t after [] states h = tt
  Committed-Advanced candidates t after (item ∷ items) [] h = absurd h
  Committed-Advanced candidates t after (item ∷ items) (s ∷ states) ((_, chosen, stored), h) = (
    Stored-Advanced candidates t after item s chosen stored,
    Committed-Advanced candidates t after items states h,
  )

  AllOrNothing-AdvancedAll :
      (t : WatermarkTable) (expected candidates : IdentityMap ℤ) (r : Result (List WatermarkState))
      (after : WatermarkTable)
      → AllOrNothing no_others t expected candidates (r, after)
      → AdvancedAll (snowflake_atomic_store clock no_others) expected candidates t (r, after)
  AllOrNothing-AdvancedAll t expected candidates (err e) after (inl h) = h
  AllOrNothing-AdvancedAll t expected candidates (err e) after (inr h) = h
  AllOrNothing-AdvancedAll t expected candidates (ok states) after (_, committed, _) =
      sorted-All (Advanced (snowflake_atomic_store clock no_others) candidates after) expected
        (Committed-Advanced candidates t after (sorted item_lt expected) states committed)

  -- With no commits of other sessions inside a transaction, the Snowflake store keeps the contract
  -- of `AtomicWatermarkStore`: on mappings, whose keys are different, an `advance_many` that raises
  -- changes nothing, and one that returns has stored every key at its candidate, not below the
  -- expected value.
  pub snowflake-IsAtomicWatermarkStore :
      IsAtomicWatermarkStore (snowflake_atomic_store clock no_others)
  unfolding snowflake_atomic_store
  snowflake-IsAtomicWatermarkStore = record {
    advance_many-AdvancedAll = λ expected candidates run t d.
        AllOrNothing-AdvancedAll t expected candidates _ _ (
          advance_many-AllOrNothing clock run no_others expected candidates t d
            (no_others-KeepsRow t expected));
  }
