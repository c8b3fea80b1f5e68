-- ===== src/Sql.antt =====
-- The SQL statements that the stores send, on a table that is the list of its rows. A comparison
-- with NULL is not true, so a row whose column is NULL does not pass it.
pub mod Single
use real_time_blockchain_ana.Prelude.{
  ℕ, ◌+◌, ◌≡◌, refl, Bool, true, false, List, [], ◌∷◌, ◌++◌, arith, if◌then◌else◌, Bool-cases, inl,
  inr,
}
use real_time_blockchain_ana.Prelude.Lists.{length}

module _ {ℓ} {A : Type ℓ} where
  -- `SELECT ... WHERE p`: `cursor.fetchall()`
  unfoldable pub select_where : (A → Bool) → List A → List A
  select_where p [] = []
  select_where p (x ∷ xs) = let rest = select_where p xs in if p x then x ∷ rest else rest

  -- `UPDATE ... SET f WHERE p`
  unfoldable pub update_where : (A → Bool) → (A → A) → List A → List A
  update_where p f [] = []
  update_where p f (x ∷ xs) = (if p x then f x else x) ∷ update_where p f xs

  -- `cursor.rowcount` of that statement: the number of rows that pass `p`.
  unfoldable pub rows_where : (A → Bool) → List A → ℕ
  rows_where p [] = 0
  rows_where p (x ∷ xs) = (if p x then 1 else 0) + rows_where p xs

  pub rows_where-select :
      (p q : A → Bool) (xs : List A)
      → ((x : A) → p x ≡ true → q x ≡ true)
      → rows_where p (select_where q xs) ≡ rows_where p xs
  unfolding select_where rows_where
  rows_where-select p q [] h = refl
  rows_where-select p q (x ∷ xs) h = ground (arith, rows_where-select p q xs h, h x)

  pub select-update_where :
      (p q : A → Bool) (f : A → A) (xs : List A)
      → ((x : A) → q (f x) ≡ q x)
      → select_where q (update_where p f xs) ≡ update_where p f (select_where q xs)
  unfolding select_where update_where
  select-update_where p q f [] h = refl
  select-update_where p q f (x ∷ xs) h = ground (arith, select-update_where p q f xs h, h x)

  pub update_where_none :
      (p : A → Bool) (f : A → A) (xs : List A) → rows_where p xs ≡ 0 → update_where p f xs ≡ xs
  unfolding rows_where update_where
  update_where_none p f [] h = refl
  update_where_none p f (x ∷ xs) h = ground (arith, update_where_none p f xs)

  -- Rows of another key are not touched.
  pub select-update_where_other :
      (p q : A → Bool) (f : A → A) (xs : List A)
      → ((x : A) → p x ≡ true → q x ≡ false)
      → ((x : A) → q (f x) ≡ q x)
      → select_where q (update_where p f xs) ≡ select_where q xs
  unfolding select_where update_where
  select-update_where_other p q f [] h k = refl
  select-update_where_other p q f (x ∷ xs) h k =
      ground (arith, select-update_where_other p q f xs h k, h x, k x)

  pub rows_where-length :
      (p : A → Bool) (xs : List A) → rows_where p xs ≡ length (select_where p xs)
  unfolding select_where rows_where
  rows_where-length p [] = refl
  rows_where-length p (x ∷ xs) = ground (arith, rows_where-length p xs)

  -- What a SELECT returns first has passed its test.
  pub select_where_sound :
      (p : A → Bool) (xs : List A) {y : A} {ys : List A} → select_where p xs ≡ y ∷ ys → p y ≡ true
  unfolding select_where
  select_where_sound p [] h = cc
  select_where_sound p (x ∷ xs) {y} {ys} h = elim (Bool-cases (p x)) [
    | inl e ↦ ground arith
    | inr e ↦ select_where_sound p xs {ys = ys} (ground arith)
  ]

  pub select_where-append :
      (q : A → Bool) (xs ys : List A)
      → select_where q (xs ++ ys) ≡ select_where q xs ++ select_where q ys
  unfolding select_where
  select_where-append q [] ys = refl
  select_where-append q (x ∷ xs) ys = ground (arith, select_where-append q xs ys)
