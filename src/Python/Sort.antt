-- ===== src/Python/Sort.antt =====
-- Python's `sorted`: a stable sort. `lt a b` is `key(a) < key(b)`.
use real_time_blockchain_ana.Prelude.{
  ◌≡◌, ◌⊎◌, inl, inr, Bool, true, false, List, [], ◌∷◌, if◌then◌else◌, Bool-cases,
}
use real_time_blockchain_ana.Prelude.Lists.{All, Any, All-imp}

module _ {ℓ} {A : Type ℓ} (lt : A → A → Bool) where
  -- Into a sorted list, before the entries of an equal key.
  unfoldable pub insert : A → List A → List A
  insert x [] = x ∷ []
  insert x (y ∷ ys) = let rest = insert x ys in if lt y x then y ∷ rest else x ∷ y ∷ ys

  unfoldable pub sorted : List A → List A
  sorted [] = []
  sorted (x ∷ xs) = insert x (sorted xs)

  Any-insert : (P : A → Type 0) (x : A) (ys : List A) → Any P (insert x ys) → P x ⊎ Any P ys
  unfolding insert
  Any-insert P x [] h = h
  Any-insert P x (y ∷ ys) h = elim (Bool-cases (lt y x)) [
    | inl e ↦ elim (rw e at h) [
      | inl p ↦ inr (inl p)
      | inr q ↦ elim (Any-insert P x ys q) [ inl p ↦ inl p | inr r ↦ inr (inr r) ]
    ]
    | inr e ↦ rw e at h
  ]

  insert-Any : (P : A → Type 0) (x : A) (ys : List A) → P x ⊎ Any P ys → Any P (insert x ys)
  unfolding insert
  insert-Any P x [] h = h
  insert-Any P x (y ∷ ys) h = elim (Bool-cases (lt y x)) [
    | inl e ↦ rw e (elim h [
      | inl p ↦ inr (insert-Any P x ys (inl p))
      | inr q ↦ elim q [ inl p ↦ inl p | inr r ↦ inr (insert-Any P x ys (inr r)) ]
    ])
    | inr e ↦ rw e h
  ]

  pub Any-sorted : (P : A → Type 0) (xs : List A) → Any P (sorted xs) → Any P xs
  unfolding sorted
  Any-sorted P [] h = h
  Any-sorted P (x ∷ xs) h = elim (Any-insert P x (sorted xs) h) [
    | inl p ↦ inl p
    | inr q ↦ inr (Any-sorted P xs q)
  ]

  pub sorted-Any : (P : A → Type 0) (xs : List A) → Any P xs → Any P (sorted xs)
  unfolding sorted
  sorted-Any P [] h = h
  sorted-Any P (x ∷ xs) (inl p) = insert-Any P x (sorted xs) (inl p)
  sorted-Any P (x ∷ xs) (inr q) = insert-Any P x (sorted xs) (inr (sorted-Any P xs q))

  pub All-insert {κ} : (P : A → Type κ) (x : A) (ys : List A) → P x → All P ys → All P (insert x ys)
  unfolding insert
  All-insert P x [] p h = (p, tt)
  All-insert P x (y ∷ ys) p h = elim (Bool-cases (lt y x)) [
    | inl e ↦ rw e (h.0, All-insert P x ys p h.1)
    | inr e ↦ rw e (p, h)
  ]

  pub All-sorted {κ} : (P : A → Type κ) (xs : List A) → All P xs → All P (sorted xs)
  unfolding sorted
  All-sorted P [] h = tt
  All-sorted P (x ∷ xs) (p, h) = All-insert P x (sorted xs) p (All-sorted P xs h)

  -- Each entry comes before those of a greater key.
  abbrev pub IsSorted : List A → Type 0
  IsSorted [] = Unit
  IsSorted (x ∷ xs) = All (λ y. lt y x ≡ false) xs × IsSorted xs

  module _ (asym : (a b : A) → lt a b ≡ true → lt b a ≡ false)
      (trans : (a b c : A) → lt b a ≡ false → lt c b ≡ false → lt c a ≡ false) where
    insert-IsSorted : (x : A) (ys : List A) → IsSorted ys → IsSorted (insert x ys)
    unfolding insert
    insert-IsSorted x [] h = (tt, tt)
    insert-IsSorted x (y ∷ ys) h = elim (Bool-cases (lt y x)) [
      | inl e ↦
          rw e (All-insert (λ z. lt z y ≡ false) x ys (asym y x e) h.0, insert-IsSorted x ys h.1)
      | inr e ↦ rw e (
        (e, All-imp (λ z. lt z y ≡ false) (λ z. lt z x ≡ false) ys (λ z k. trans x y z e k) h.0),
        h,
      )
    ]

    pub sorted-IsSorted : (xs : List A) → IsSorted (sorted xs)
    unfolding sorted
    sorted-IsSorted [] = tt
    sorted-IsSorted (x ∷ xs) = insert-IsSorted x (sorted xs) (sorted-IsSorted xs)
