-- ===== src/SnowflakeAlerts/Contract.antt =====
-- `SnowflakeAlertStore` keeps the contract of an alert store.
use real_time_blockchain_ana.Prelude.{
  ◌≡◌, refl, sym, ◌∙◌, ◌≢◌, inl, inr, true, false, List, [], ◌∷◌, alert_concurrency, ok, err, arith,
  Bool-cases, and_left,
}
use real_time_blockchain_ana.Prelude.Int.{ℤ, eq_of_parts}
use real_time_blockchain_ana.Python.Text.{Text, text_eq}
use real_time_blockchain_ana.Sql.{
  select_where, select_where_sound, select-update_where_other, update_where_none,
}
use real_time_blockchain_ana.Sql.Single.{
  OnlyRow, update-OnlyRow_hit, rows_where_hit, rows_where_miss,
}
use real_time_blockchain_ana.Alerts.{AlertRecord, stored}
use real_time_blockchain_ana.Alerts.Evaluation.{IsAlertStore}
use real_time_blockchain_ana.SnowflakeAlerts.{
  AlertTable, has_key, record_from_rows, get, at_version, compare_and_set, snowflake_alert_store,
}

rows-ok : (rows : List AlertRecord) (r : AlertRecord) → record_from_rows rows ≡ ok r → rows ≡ r ∷ []
rows-ok [] r h = cc
rows-ok (x ∷ []) r h = ground arith
rows-ok (x ∷ _ ∷ _) r h = cc

get-OnlyRow :
    (k : Text) (t : AlertTable) (r : AlertRecord) → get k t ≡ ok r → OnlyRow (has_key k) r t
unfolding get
get-OnlyRow k t r h = rows-ok _ r h

OnlyRow-get :
    (k : Text) (t : AlertTable) (r : AlertRecord) → OnlyRow (has_key k) r t → get k t ≡ ok r
unfolding get
OnlyRow-get k t r h = rw h

get_congr :
    (j : Text) (t t' : AlertTable)
    → select_where (has_key j) t' ≡ select_where (has_key j) t
    → get j t' ≡ get j t
unfolding get
get_congr j t t' h = rw h

text_eq→eq : (a b : Text) → text_eq a b ≡ true → a ≡ b
text_eq→eq a b h = ground arith

text_eq_ne : (a b : Text) → a ≢ b → text_eq a b ≡ false
text_eq_ne a b h = ground arith

at_version-has_key :
    (k : Text) (v : ℤ) (x : AlertRecord) → at_version k v x ≡ true → has_key k x ≡ true
at_version-has_key k v x h = and_left _ _ h

at_version_hit :
    (k : Text) (v : ℤ) (r : AlertRecord)
    → has_key k r ≡ true
    → r.state_version ≡ v
    → at_version k v r ≡ true
at_version_hit k v r h e = ground arith

at_version_miss :
    (k : Text) (v : ℤ) (r : AlertRecord)
    → at_version k v r ≡ false
    → has_key k r ≡ true
    → r.state_version ≢ v
at_version_miss k v r h e same = cc (h, at_version_hit k v r e same)

at_version-version :
    (k : Text) (v : ℤ) (r : AlertRecord) → at_version k v r ≡ true → r.state_version ≡ v
at_version-version k v r h = ground (arith, eq_of_parts r.state_version v)

module _ (expected : ℤ) (candidate old : AlertRecord) (t : AlertTable) where
  compare_and_set_hit :
      get candidate.alert_key t ≡ ok old
      → at_version candidate.alert_key expected old ≡ true
      → let (r, t') = compare_and_set expected candidate t in
        (r ≡ ok candidate)
        × (get candidate.alert_key t' ≡ ok (stored candidate old))
        × ((j : Text) → j ≢ candidate.alert_key → get j t' ≡ get j t)
  unfolding compare_and_set
  compare_and_set_hit g hit =
      let k = candidate.alert_key in
      let row = get-OnlyRow k t old g in
      let after =
        update-OnlyRow_hit (has_key k) (at_version k expected) (stored candidate) old t (λ x. refl)
          row hit in
      (
        rw
            (rows_where_hit (has_key k) (at_version k expected) (at_version-has_key k expected) old
              t row hit)
            refl,
        OnlyRow-get k _ _ after,
        λ j ne. get_congr j t _ (
            select-update_where_other (at_version k expected) (has_key j) (stored candidate) t
              (λ x h.
                text_eq_ne x.alert_key j
                  (λ e. ne (sym e ∙ text_eq→eq x.alert_key k (at_version-has_key k expected x h))))
              (λ x. refl)),
      )

  compare_and_set_miss :
      get candidate.alert_key t ≡ ok old
      → at_version candidate.alert_key expected old ≡ false
      → compare_and_set expected candidate t ≡ (err alert_concurrency, t)
  unfolding compare_and_set
  compare_and_set_miss g miss =
      let k = candidate.alert_key in
      let none_counted =
        rows_where_miss (has_key k) (at_version k expected) (at_version-has_key k expected) old t
          (get-OnlyRow k t old g) miss in
      rw (none_counted, update_where_none (at_version k expected) (stored candidate) t none_counted)
        refl

pub snowflake-IsAlertStore : IsAlertStore snowflake_alert_store
snowflake-IsAlertStore = record {
  compare_and_set_lem = λ expected candidate old t g.
      elim (Bool-cases (at_version candidate.alert_key expected old)) [
        | inl hit ↦
            let (r, after, others) = compare_and_set_hit expected candidate old t g hit in
            inl (at_version-version candidate.alert_key expected old hit, r, after, others)
        | inr miss ↦ inr (
          at_version_miss candidate.alert_key expected old miss (
              select_where_sound (has_key candidate.alert_key) t
                (get-OnlyRow candidate.alert_key t old g)),
          compare_and_set_miss expected candidate old t g miss,
        )
      ];
}
