-- ===== src/Freshness/Rules.antt =====
-- The rules of orchestration/freshness.py.
use real_time_blockchain_ana.Prelude.{
  ℕ, zero, suc, ◌+◌, ◌-◌, ◌/◌, ◌≤◌, ◌<◌, ◌≡◌, refl, ap, ◌∙◌, ◌⊎◌, inl, inr, Bool, true, List, [],
  ◌∷◌, map, value_error, ok, err, arith, if◌then◌else◌, ltb, Bool-cases,
}
use real_time_blockchain_ana.Prelude.Int.{ℤ, pos, ◌-ℤ◌, ◌≤ℤ◌, ◌<ℤ◌, ltb_ℤ, leb_ℤ}
use real_time_blockchain_ana.Prelude.Lists.{All, Any}
use real_time_blockchain_ana.Python.Text.{Text}
use real_time_blockchain_ana.Python.Time.{Instant, aware}
use real_time_blockchain_ana.Sql.{select_where}
use real_time_blockchain_ana.Freshness.{
  FreshnessState, fresh, FreshnessThreshold, FreshnessResult, FreshnessReport, freshness_threshold,
  classify, binade, float_seconds, total_seconds, age_seconds, ranking, max_by, worst_state,
  overall_state,
}

-- What a state says of a measured value.
abbrev pub Measures : FreshnessThreshold → ℤ → FreshnessState → Type 0
Measures t value fresh = value <ℤ t.warning
Measures t value FreshnessState.warning = (t.warning ≤ℤ value) × (value <ℤ t.stale)
Measures t value FreshnessState.stale = t.stale ≤ℤ value

-- The boundaries of a threshold that the constructor accepts are in order.
threshold-ordered :
    (warning_at stale_at : ℤ) (unit : Text) (t : FreshnessThreshold)
    → freshness_threshold warning_at stale_at unit ≡ ok t
    → (pos 0 ≤ℤ t.warning) × (t.warning <ℤ t.stale)
unfolding freshness_threshold
threshold-ordered warning_at stale_at unit t made = (ground arith, ground arith)

Measures-unique :
    (t : FreshnessThreshold) (value : ℤ) (s s' : FreshnessState)
    → t.warning <ℤ t.stale
    → Measures t value s
    → Measures t value s'
    → s' ≡ s
Measures-unique t value fresh fresh o h h' = refl
Measures-unique t value fresh FreshnessState.warning o h h' = absurd (omega arith)
Measures-unique t value fresh FreshnessState.stale o h h' = absurd (omega arith)
Measures-unique t value FreshnessState.warning fresh o h h' = absurd (omega arith)
Measures-unique t value FreshnessState.warning FreshnessState.warning o h h' = refl
Measures-unique t value FreshnessState.warning FreshnessState.stale o h h' = absurd (omega arith)
Measures-unique t value FreshnessState.stale fresh o h h' = absurd (omega arith)
Measures-unique t value FreshnessState.stale FreshnessState.warning o h h' = absurd (omega arith)
Measures-unique t value FreshnessState.stale FreshnessState.stale o h h' = refl

classify-Measures :
    (t : FreshnessThreshold) (value : ℤ)
    → pos 0 ≤ℤ value
    → (s : FreshnessState) × (classify value t ≡ ok s) × Measures t value s
unfolding classify
classify-Measures t value h = elim (Bool-cases (leb_ℤ t.stale value)) [
  | inl e ↦ (FreshnessState.stale, ground arith, ground arith)
  | inr e ↦ elim (Bool-cases (leb_ℤ t.warning value)) [
    | inl e' ↦ (FreshnessState.warning, ground arith, (ground arith, ground arith))
    | inr e' ↦ (fresh, ground arith, ground arith)
  ]
]

-- With a threshold that the constructor accepts, every value that is not negative gets a state, and
-- the state says in which of the three ranges the value lies, the lower bounds included; no other
-- state says so of the value.
pub classify_lem :
    (warning_at stale_at value : ℤ) (unit : Text) (t : FreshnessThreshold)
    → freshness_threshold warning_at stale_at unit ≡ ok t
    → pos 0 ≤ℤ value
    → (s : FreshnessState) × (classify value t ≡ ok s)
      × Measures t value s
      × ((s' : FreshnessState) → Measures t value s' → s' ≡ s)
classify_lem warning_at stale_at value unit t made h =
    let (s, e, m) = classify-Measures t value h in
    (
      s,
      e,
      m,
      λ s' m'.
          Measures-unique t value s s' (threshold-ordered warning_at stale_at unit t made).1 m m',
    )

binade_le : (k q : ℕ) → binade k q ≤ q + 1
unfolding binade
binade_le zero q = omega arith
binade_le (suc k) q = let le = binade_le k q in ground arith

-- Less than `2 ^ 53` microseconds lose nothing in the division.
float_seconds-exact : (n : ℕ) → n < 9007199254740992 → float_seconds n ≡ n / 1000000
unfolding float_seconds
float_seconds-exact n h = let le = binade_le 40 (n / 1000000) in ground arith

float_seconds-near : (n : ℕ) → (float_seconds n ≡ n / 1000000) ⊎ (float_seconds n ≡ n / 1000000 + 1)
unfolding float_seconds
float_seconds-near n = ground arith

total_seconds_late :
    (a b : ℕ) → b ≤ a → total_seconds (pos a -ℤ pos b) ≡ pos (float_seconds (a - b))
unfolding ◌-ℤ◌
total_seconds_late a b h = ground arith

age_late :
    (observed checked : Instant) (seconds : ℕ)
    → observed ≤ checked
    → float_seconds (checked - observed) ≡ seconds
    → age_seconds (aware observed) (aware checked) ≡ ok (pos seconds)
unfolding age_seconds
age_late observed checked seconds h e =
    let age : total_seconds (pos checked -ℤ pos observed) ≡ pos seconds =
      total_seconds_late checked observed h ∙ ap pos e in
    rw age (ground arith)

total_seconds_early : (a b : ℕ) → a < b → b < a + 1000000 → total_seconds (pos a -ℤ pos b) ≡ pos 0
unfolding ◌-ℤ◌
total_seconds_early a b h k = let exact = float_seconds-exact (b - a) (omega arith) in ground arith

total_seconds_future :
    (a b : ℕ) → a + 1000000 ≤ b → ltb_ℤ (total_seconds (pos a -ℤ pos b)) (pos 0) ≡ true
unfolding ◌-ℤ◌
total_seconds_future a b h = let near = float_seconds-near (b - a) in ground arith

-- For aware timestamps, the age of an observation is the whole seconds that have passed, rounded
-- down, where these are less than `2 ^ 53` microseconds (285 years); beyond that it may be one
-- second more, since the code divides in floats. An observation that lies less than a second in the
-- future has the age 0, and one that lies at least a second in the future is refused.
pub age_seconds_lem :
    (observed checked : Instant)
    → (observed ≤ checked
        → checked < observed + 9007199254740992
        → age_seconds (aware observed) (aware checked) ≡ ok (pos ((checked - observed) / 1000000)))
      × (observed ≤ checked
          → (age_seconds (aware observed) (aware checked)
              ≡ ok (pos ((checked - observed) / 1000000)))
            ⊎ (age_seconds (aware observed) (aware checked)
                ≡ ok (pos ((checked - observed) / 1000000 + 1))))
      × (checked < observed
          → observed < checked + 1000000
          → age_seconds (aware observed) (aware checked) ≡ ok (pos 0))
      × (checked + 1000000 ≤ observed
          → age_seconds (aware observed) (aware checked) ≡ err value_error)
unfolding age_seconds
age_seconds_lem observed checked = (
  (λ h k.
      age_late observed checked _ h
        (float_seconds-exact (checked - observed) (omega (arith, h, k)))),
  (λ h. elim (float_seconds-near (checked - observed)) [
    | inl e ↦ inl (age_late observed checked _ h e)
    | inr e ↦ inr (age_late observed checked _ h e)
  ]),
  (λ h k. rw (total_seconds_early checked observed h k) refl),
  (λ h. rw (total_seconds_future checked observed h) refl),
)

-- `m` is one of the states and ranks highest.
abbrev IsWorst : FreshnessState → List FreshnessState → FreshnessState → Type 0
IsWorst best xs m =
    (ranking best ≤ ranking m)
    × All (λ x. ranking x ≤ ranking m) xs
    × ((m ≡ best) ⊎ Any (λ x. m ≡ x) xs)

IsWorst-next :
    (best x : FreshnessState) (xs : List FreshnessState) (m : FreshnessState)
    → IsWorst (if ltb (ranking best) (ranking x) then x else best) xs m
    → IsWorst best (x ∷ xs) m
IsWorst-next best x xs m h = elim (Bool-cases (ltb (ranking best) (ranking x))) [
  | inl e ↦ let (a, b, c) : IsWorst x xs m = rw e at h in (ground arith, (a, b), inr c)
  | inr e ↦
      let (a, b, c) : IsWorst best xs m = rw e at h in
      (a, (ground arith, b), elim c [ inl same ↦ inl same | inr later ↦ inr (inr later) ])
]

max_by-IsWorst :
    (best : FreshnessState) (xs : List FreshnessState) → IsWorst best xs (max_by ranking best xs)
unfolding max_by
max_by-IsWorst best [] = (omega arith, tt, inl refl)
max_by-IsWorst best (x ∷ xs) =
    IsWorst-next best x xs _
      (max_by-IsWorst (if ltb (ranking best) (ranking x) then x else best) xs)

module _ {A : Type 0} (p : A → Bool) (P : A → Type 0) where
  All-select_where : (xs : List A) → All P (select_where p xs) → All (λ x. p x ≡ true → P x) xs
  unfolding select_where
  All-select_where [] h = tt
  All-select_where (x ∷ xs) h = elim (Bool-cases (p x)) [
    | inl e ↦
        let both : P x × All P (select_where p xs) = rw e at h in
        ((λ b. both.0), All-select_where xs both.1)
    | inr e ↦ ((λ b. absurd (cc (e, b))), All-select_where xs (rw e at h))
  ]

  Any-select_where : (xs : List A) → Any P (select_where p xs) → Any (λ x. (p x ≡ true) × P x) xs
  unfolding select_where
  Any-select_where [] h = h
  Any-select_where (x ∷ xs) h = elim (Bool-cases (p x)) [
    | inl e ↦ elim (rw e at h) [
      | inl here ↦ inl (e, here)
      | inr later ↦ inr (Any-select_where xs later)
    ]
    | inr e ↦ inr (Any-select_where xs (rw e at h))
  ]

All-map :
    (P : FreshnessState → Type 0) (rs : List FreshnessResult)
    → All P (map (λ r. r.state) rs)
    → All (λ r. P r.state) rs
All-map P [] h = tt
All-map P (r ∷ rs) h = (h.0, All-map P rs h.1)

Any-map :
    (P : FreshnessState → Type 0) (rs : List FreshnessResult)
    → Any P (map (λ r. r.state) rs)
    → Any (λ r. P r.state) rs
Any-map P [] h = h
Any-map P (r ∷ rs) (inl h) = inl h
Any-map P (r ∷ rs) (inr h) = inr (Any-map P rs h)

worst_state-worst :
    (rs : List FreshnessResult)
    → ((rs ≡ []) × (worst_state rs ≡ err value_error))
      ⊎ ((s : FreshnessState) × (worst_state rs ≡ ok s)
          × Any (λ r. s ≡ r.state) rs
          × All (λ r. ranking r.state ≤ ranking s) rs)
worst_state-worst [] = inl (refl, refl)
worst_state-worst (r ∷ rs) =
    let states = map (λ x. x.state) rs in
    let (a, b, c) = max_by-IsWorst r.state states in
    let s = max_by ranking r.state states in
    inr (
      s,
      refl,
      elim c [ inl same ↦ inl same | inr later ↦ inr (Any-map (λ x. s ≡ x) rs later) ],
      (a, All-map (λ x. ranking x ≤ ranking s) rs b),
    )

pub overall_state-worst :
    (report : FreshnessReport)
    → (All (λ r. r.blocking ≡ true → ⊥) report.results × (overall_state report ≡ err value_error))
      ⊎ ((s : FreshnessState) × (overall_state report ≡ ok s)
          × Any (λ r. (r.blocking ≡ true) × (s ≡ r.state)) report.results
          × All (λ r. r.blocking ≡ true → ranking r.state ≤ ranking s) report.results)
unfolding overall_state
overall_state-worst report =
    let rs = report.results in
    elim (worst_state-worst (select_where (λ item. item.blocking) rs)) [
      | inl (none_blocks, e) ↦
          inl (All-select_where (λ item. item.blocking) (λ r. ⊥) rs (rw none_blocks tt), e)
      | inr (s, e, some_has, none_worse) ↦ inr (
        s,
        e,
        Any-select_where (λ item. item.blocking) (λ r. s ≡ r.state) rs some_has,
        All-select_where (λ item. item.blocking) (λ r. ranking r.state ≤ ranking s) rs none_worse,
      )
    ]
