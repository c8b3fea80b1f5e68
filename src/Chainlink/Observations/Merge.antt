-- ===== src/Chainlink/Observations/Merge.antt =====
-- `merge_observations` of backfill/chainlink.py loses no observation and makes none up.
use real_time_blockchain_ana.Prelude.{
  ◌≡◌, refl, sym, ap, ◌∙◌, ◌≢◌, ◌⊎◌, inl, inr, true, false, List, [], ◌∷◌, ◌++◌, ok, arith,
  Bool-cases, bind-eq-ok, ok-injective, subst,
}
use real_time_blockchain_ana.Prelude.Lists.{All, Any, All-imp, All-append, Any-append_left}
use real_time_blockchain_ana.Python.Text.{Text, text_eq, lower}
use real_time_blockchain_ana.Prelude.Int.{ℤ, eqb_ℤ}
use real_time_blockchain_ana.Python.Sort.{All-sorted, insert, sorted, sorted-Any, All-insert}
use real_time_blockchain_ana.Chainlink.Observations.{
  MarketDataObservation, same_data, put, put_all, id_lt, merge_observations,
}

-- The ten fields that are compared agree, the addresses up to the case of their letters.
abbrev pub SameFields : MarketDataObservation → MarketDataObservation → Type 0
SameFields o c =
    (c.protocol ≡ o.protocol)
    × (c.event_type ≡ o.event_type)
    × (c.chain ≡ o.chain)
    × (lower c.feed_address ≡ lower o.feed_address)
    × (c.base_asset ≡ o.base_asset)
    × (c.quote_asset ≡ o.quote_asset)
    × (c.round_id ≡ o.round_id)
    × (c.answer_raw ≡ o.answer_raw)
    × (c.feed_decimals ≡ o.feed_decimals)
    × (c.feed_updated_at ≡ o.feed_updated_at)

-- The entry has the observation's id and agrees with it in these fields.
abbrev pub Represents : MarketDataObservation → MarketDataObservation → Type 0
Represents o c = (c.observation_id ≡ o.observation_id) × SameFields o c

abbrev pub DistinctIds : List MarketDataObservation → Type 0
DistinctIds [] = Unit
DistinctIds (c ∷ merged) =
    All (λ d. d.observation_id ≢ c.observation_id) merged × DistinctIds merged

text_eq→eq : (s t : Text) → text_eq s t ≡ true → s ≡ t
text_eq→eq s t h = ground arith

text_eq-false : (s t : Text) → text_eq s t ≡ false → s ≢ t
text_eq-false s t h = ground arith

eqb_ℤ→eq : (m n : ℤ) → eqb_ℤ m n ≡ true → m ≡ n
eqb_ℤ→eq m n h = ground arith

same_data-SameFields : (o c : MarketDataObservation) → same_data o c ≡ true → SameFields o c
unfolding same_data
same_data-SameFields o c h = ground (arith, h)

-- A turn of the loop finds the observation's entry, or adds the observation at the end.
put-cases :
    (o : MarketDataObservation) (m m' : List MarketDataObservation)
    → put o m ≡ ok m'
    → Any (Represents o) m'
      × ((m ≡ m') ⊎ ((m ++ o ∷ [] ≡ m') × All (λ d. d.observation_id ≢ o.observation_id) m))
unfolding put
put-cases o [] m' h =
    let e = ok-injective h in
    (
      subst (Any (Represents o)) e
          (inl (refl, (refl, refl, refl, refl, refl, refl, refl, refl, refl, refl))),
      inr (e, tt),
    )
put-cases o (c ∷ m) m' h = elim (Bool-cases (text_eq c.observation_id o.observation_id)) [
  | inl same ↦ elim (Bool-cases (same_data o c)) [
    | inl d ↦
        let e = ok-injective (rw (same, d) at h) in
        (
          subst (Any (Represents o)) e
              (inl (text_eq→eq c.observation_id o.observation_id same, same_data-SameFields o c d)),
          inl e,
        )
    | inr d ↦ let failed = rw (same, d) at h in cc
  ]
  | inr other ↦
      let (later, e1, h1) = bind-eq-ok (put o m) _ (rw other at h) in
      let e = ok-injective h1 in
      let (there, how) = put-cases o m later e1 in
      (
        subst (Any (Represents o)) e (inr there),
        elim how [
          | inl kept ↦ inl (ap (λ k. c ∷ k) kept ∙ e)
          | inr (added, fresh) ↦ inr (
            ap (λ k. c ∷ k) added ∙ e,
            (text_eq-false c.observation_id o.observation_id other, fresh),
          )
        ],
      )
]

append-DistinctIds :
    (o : MarketDataObservation) (m : List MarketDataObservation)
    → DistinctIds m
    → All (λ d. d.observation_id ≢ o.observation_id) m
    → DistinctIds (m ++ o ∷ [])
append-DistinctIds o [] d h = (tt, tt)
append-DistinctIds o (c ∷ m) (fresh, d) (ne, h) = (
  All-append (λ x. x.observation_id ≢ c.observation_id) m (o ∷ []) fresh ((λ e. ne (sym e)), tt),
  append-DistinctIds o m d h,
)

put-grows :
    (P : MarketDataObservation → Type 0) (o : MarketDataObservation)
    (m m' : List MarketDataObservation)
    → put o m ≡ ok m'
    → Any P m
    → Any P m'
put-grows P o m m' h p = elim (put-cases o m m' h).1 [
  | inl kept ↦ subst (Any P) kept p
  | inr (added, _) ↦ subst (Any P) added (Any-append_left P m (o ∷ []) p)
]

put-All :
    (Q : MarketDataObservation → Type 0) (o : MarketDataObservation)
    (m m' : List MarketDataObservation)
    → put o m ≡ ok m'
    → Q o
    → All Q m
    → All Q m'
put-All Q o m m' h q qs = elim (put-cases o m m' h).1 [
  | inl kept ↦ subst (All Q) kept qs
  | inr (added, _) ↦ subst (All Q) added (All-append Q m (o ∷ []) qs (q, tt))
]

put-DistinctIds :
    (o : MarketDataObservation) (m m' : List MarketDataObservation)
    → put o m ≡ ok m'
    → DistinctIds m
    → DistinctIds m'
put-DistinctIds o m m' h d = elim (put-cases o m m' h).1 [
  | inl kept ↦ subst DistinctIds kept d
  | inr (added, fresh) ↦ subst DistinctIds added (append-DistinctIds o m d fresh)
]

put_all-grows :
    (P : MarketDataObservation → Type 0) (os m m' : List MarketDataObservation)
    → put_all os m ≡ ok m'
    → Any P m
    → Any P m'
unfolding put_all
put_all-grows P [] m m' h p = subst (Any P) (ok-injective h) p
put_all-grows P (o ∷ os) m m' h p =
    let (u, e1, h1) = bind-eq-ok (put o m) _ h in
    put_all-grows P os u m' h1 (put-grows P o m u e1 p)

put_all-Represents :
    (os m m' : List MarketDataObservation)
    → put_all os m ≡ ok m'
    → All (λ o. Any (Represents o) m') os
unfolding put_all
put_all-Represents [] m m' h = tt
put_all-Represents (o ∷ os) m m' h =
    let (u, e1, h1) = bind-eq-ok (put o m) _ h in
    (put_all-grows (Represents o) os u m' h1 (put-cases o m u e1).0, put_all-Represents os u m' h1)

put_all-All :
    (Q : MarketDataObservation → Type 0) (os m m' : List MarketDataObservation)
    → put_all os m ≡ ok m'
    → All Q os
    → All Q m
    → All Q m'
unfolding put_all
put_all-All Q [] m m' h q qs = subst (All Q) (ok-injective h) qs
put_all-All Q (o ∷ os) m m' h (q, q') qs =
    let (u, e1, h1) = bind-eq-ok (put o m) _ h in
    put_all-All Q os u m' h1 q' (put-All Q o m u e1 q qs)

put_all-DistinctIds :
    (os m m' : List MarketDataObservation) → put_all os m ≡ ok m' → DistinctIds m → DistinctIds m'
unfolding put_all
put_all-DistinctIds [] m m' h d = subst DistinctIds (ok-injective h) d
put_all-DistinctIds (o ∷ os) m m' h d =
    let (u, e1, h1) = bind-eq-ok (put o m) _ h in
    put_all-DistinctIds os u m' h1 (put-DistinctIds o m u e1 d)

-- Sorting keeps the ids different.
insert-DistinctIds :
    (c : MarketDataObservation) (m : List MarketDataObservation)
    → All (λ d. d.observation_id ≢ c.observation_id) m
    → DistinctIds m
    → DistinctIds (insert id_lt c m)
unfolding insert
insert-DistinctIds c [] h d = (tt, tt)
insert-DistinctIds c (x ∷ m) (ne, h) (fresh, d) = elim (Bool-cases (id_lt x c)) [
  | inl e ↦ rw e (
    All-insert id_lt (λ y. y.observation_id ≢ x.observation_id) c m (λ p. ne (sym p)) fresh,
    insert-DistinctIds c m h d,
  )
  | inr e ↦ rw e ((ne, h), (fresh, d))
]

sorted-DistinctIds : (m : List MarketDataObservation) → DistinctIds m → DistinctIds (sorted id_lt m)
unfolding sorted
sorted-DistinctIds [] d = tt
sorted-DistinctIds (c ∷ m) (fresh, d) =
    insert-DistinctIds c (sorted id_lt m)
      (All-sorted id_lt (λ x. x.observation_id ≢ c.observation_id) m fresh) (sorted-DistinctIds m d)

inputs-All :
    (os inputs : List MarketDataObservation)
    → ((o : MarketDataObservation) → Any (λ c. c ≡ o) os → Any (λ c. c ≡ o) inputs)
    → All (λ o. Any (λ c. c ≡ o) inputs) os
inputs-All [] inputs k = tt
inputs-All (o ∷ os) inputs k = (k o (inl refl), inputs-All os inputs (λ x p. k x (inr p)))

-- For every observation that came in, a merge that succeeds has an entry with its id, protocol,
-- event type, chain, base and quote asset, round id, raw answer, feed decimals and feed update
-- time, and its feed address up to the case of letters. Each entry is one of those observations,
-- and no two entries have the same id.
pub merge_observations-Represents :
    (existing discovered merged : List MarketDataObservation)
    → merge_observations existing discovered ≡ ok merged
    → All (λ o. Any (Represents o) merged) (existing ++ discovered)
      × All (λ c. Any (λ o. o ≡ c) (existing ++ discovered)) merged
      × DistinctIds merged
unfolding merge_observations
merge_observations-Represents existing discovered merged h =
    let inputs = existing ++ discovered in
    let (m, e, h1) = bind-eq-ok (put_all inputs []) _ h in
    subst
      (λ r.
        All (λ o. Any (Represents o) r) inputs
        × All (λ c. Any (λ o. o ≡ c) inputs) r
        × DistinctIds r)
      (ok-injective h1)
      (
        All-imp (λ o. Any (Represents o) m) (λ o. Any (Represents o) (sorted id_lt m)) inputs
            (λ o p. sorted-Any id_lt (Represents o) m p) (put_all-Represents inputs [] m e),
        All-sorted id_lt (λ c. Any (λ o. o ≡ c) inputs) m
            (put_all-All (λ c. Any (λ o. o ≡ c) inputs) inputs [] m e
              (inputs-All inputs inputs (λ o p. p)) tt),
        sorted-DistinctIds m (put_all-DistinctIds inputs [] m e tt),
      )
