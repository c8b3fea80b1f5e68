-- ===== src/Sql/Single.antt =====
-- Statements on a key that exactly one row has, or none.
use real_time_blockchain_ana.Prelude.{
  ◌≡◌, refl, sym, ap, ◌∙◌, Bool, true, false, List, [], ◌∷◌, arith, if◌then◌else◌,
}
use real_time_blockchain_ana.Sql.{
  select_where, update_where, rows_where, rows_where-select, select-update_where,
}

module _ {ℓ} {A : Type ℓ} (q : A → Bool) where
  -- The rows of the key are those of `row`, and no other.
  abbrev pub OnlyRow : A → List A → Type ℓ
  OnlyRow row t = select_where q t ≡ row ∷ []

  pub update-OnlyRow :
      (p : A → Bool) (f : A → A) (r : A) (t : List A)
      → ((x : A) → q (f x) ≡ q x)
      → OnlyRow r t
      → OnlyRow (if p r then f r else r) (update_where p f t)
  unfolding update_where
  update-OnlyRow p f r t keeps h = select-update_where p q f t keeps ∙ ap (update_where p f) h

  pub update-OnlyRow_hit :
      (p : A → Bool) (f : A → A) (r : A) (t : List A)
      → ((x : A) → q (f x) ≡ q x)
      → OnlyRow r t
      → p r ≡ true
      → OnlyRow (f r) (update_where p f t)
  update-OnlyRow_hit p f r t keeps h e = update-OnlyRow p f r t keeps h ∙ rw e refl

  module _ (p : A → Bool) (sub : (x : A) → p x ≡ true → q x ≡ true) where
    pub rows_where-OnlyRow :
        (r : A) (t : List A) → OnlyRow r t → rows_where p t ≡ (if p r then 1 else 0)
    unfolding rows_where
    rows_where-OnlyRow r t h =
        sym (rows_where-select p q t sub) ∙ ap (rows_where p) h ∙ ground arith

    pub rows_where_hit : (r : A) (t : List A) → OnlyRow r t → p r ≡ true → rows_where p t ≡ 1
    rows_where_hit r t h e = rows_where-OnlyRow r t h ∙ rw e refl

    pub rows_where_miss : (r : A) (t : List A) → OnlyRow r t → p r ≡ false → rows_where p t ≡ 0
    rows_where_miss r t h e = rows_where-OnlyRow r t h ∙ rw e refl

    pub rows_where_absent : (t : List A) → select_where q t ≡ [] → rows_where p t ≡ 0
    unfolding rows_where
    rows_where_absent t h = sym (rows_where-select p q t sub) ∙ ap (rows_where p) h
