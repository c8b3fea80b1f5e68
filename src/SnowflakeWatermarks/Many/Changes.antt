-- ===== src/SnowflakeWatermarks/Many/Changes.antt =====
-- The statements of `advance_many` of warehouse/watermarks.py, key by key.
use real_time_blockchain_ana.Prelude.{
  ◌≡◌, refl, sym, ap, ◌∙◌, ◌≢◌, inl, inr, false, some, List, [], ◌∷◌, ok, Bool-cases, ok-injective,
  bind-eq-ok, subst,
}
use real_time_blockchain_ana.Prelude.Int.{eqb_ℤ→eq, ℤ, eqb_ℤ}
use real_time_blockchain_ana.Prelude.Lists.{All, All-imp}
use real_time_blockchain_ana.Python.Text.{Text}
use real_time_blockchain_ana.Python.Time.{DateTime}
use real_time_blockchain_ana.Sql.{select_where}
use real_time_blockchain_ana.Watermark.{WatermarkIdentity, WatermarkState, same_identity}
use real_time_blockchain_ana.Watermark.Atomic.{IdentityMap, lookup}
use real_time_blockchain_ana.Watermark.Atomic.Commit.{Distinct}
use real_time_blockchain_ana.SnowflakeWatermarks.{WatermarkTable, has_key, state_from_rows, get}
use real_time_blockchain_ana.SnowflakeWatermarks.Contract.{same_identity_ne, same_identity_refl}
use real_time_blockchain_ana.SnowflakeWatermarks.Many.{
  prior_row, read_prior, update_row, update_rows, result_state, result_states,
}
use real_time_blockchain_ana.SnowflakeWatermarks.Many.Row.{
  Stored, Stored-later, Stored-earlier, Ready, Present, update_row-Moves,
}

-- Each item has its state: of its key and at its candidate, and stored or left alone.
abbrev pub Committed :
    (WatermarkIdentity → WatermarkTable)
    → IdentityMap ℤ
    → WatermarkTable
    → WatermarkTable
    → IdentityMap ℤ
    → List WatermarkState
    → Type 0
Committed seen candidates t after [] [] = Unit
Committed seen candidates t after [] (_ ∷ _) = ⊥
Committed seen candidates t after (_ ∷ _) [] = ⊥
Committed seen candidates t after ((i, e) ∷ items) (s ∷ states) =
    ((s.identity ≡ i) × (lookup candidates i ≡ ok s.committed_value) × Stored seen t after i e s)
    × Committed seen candidates t after items states

-- Keys that no item has are as they were.
abbrev pub OthersKept : WatermarkTable → WatermarkTable → IdentityMap ℤ → Type 0
OthersKept t t' items =
    (j : WatermarkIdentity) → All (λ item. j ≢ item.0) items → get j t' ≡ get j t

Present-kept :
    (i : WatermarkIdentity) (t u : WatermarkTable) (items : IdentityMap ℤ)
    → ((j : WatermarkIdentity) → j ≢ i → get j u ≡ get j t)
    → All (λ other. other.0 ≢ i) items
    → All (Present t) items
    → All (Present u) items
Present-kept i t u [] kept fresh rs = tt
Present-kept i t u (item ∷ items) kept (ne, fresh) ((r, there), rs) =
    ((r, kept item.0 ne ∙ there), Present-kept i t u items kept fresh rs)

Committed-earlier :
    (seen : WatermarkIdentity → WatermarkTable) (candidates : IdentityMap ℤ) (i : WatermarkIdentity)
    (t u after : WatermarkTable) (items : IdentityMap ℤ) (states : List WatermarkState)
    → ((j : WatermarkIdentity) → j ≢ i → get j u ≡ get j t)
    → All (λ other. other.0 ≢ i) items
    → Committed seen candidates u after items states
    → Committed seen candidates t after items states
Committed-earlier seen candidates i t u after [] [] kept fresh h = tt
Committed-earlier seen candidates i t u after [] (s ∷ states) kept fresh h = h
Committed-earlier seen candidates i t u after (item ∷ items) [] kept fresh h = h
Committed-earlier seen candidates i t u after (item ∷ items) (s ∷ states) kept (ne, fresh)
      ((id, at, stored), h) =
    (
      (id, at, Stored-earlier seen t u after item.0 item.1 s (kept item.0 ne) stored),
      Committed-earlier seen candidates i t u after items states kept fresh h,
    )

prior_row-rows :
    (e : ℤ) (r : WatermarkState) (rows : List WatermarkState)
    → prior_row e rows ≡ ok r
    → (state_from_rows rows ≡ ok (some r)) × (r.committed_value ≡ e)
prior_row-rows e r [] h = cc
prior_row-rows e r (x ∷ []) h = elim (Bool-cases (eqb_ℤ x.committed_value e)) [
  | inl v ↦
      let same : x ≡ r = ok-injective (rw v at h) in
      (
        ap (λ y. ok (some y)) same,
        ap (λ y. y.committed_value) (sym same) ∙ eqb_ℤ→eq x.committed_value e v,
      )
  | inr v ↦ let failed = rw v at h in cc
]
prior_row-rows e r (x ∷ y ∷ rows) h = cc

prior_row-one :
    (i : WatermarkIdentity) (e : ℤ) (t : WatermarkTable) (r : WatermarkState)
    → prior_row e (select_where (has_key i) t) ≡ ok r
    → (get i t ≡ ok (some r)) × (r.committed_value ≡ e)
unfolding get
prior_row-one i e t r h = prior_row-rows e r (select_where (has_key i) t) h

Ready-weaken :
    (i : WatermarkIdentity) (row : WatermarkState) (seen : WatermarkIdentity → WatermarkTable)
    (prior : IdentityMap WatermarkState) (items : IdentityMap ℤ)
    → All (λ other. other.0 ≢ i) items
    → All (Ready seen prior) items
    → All (Ready seen ((i, row) ∷ prior)) items
unfolding lookup
Ready-weaken i row seen prior [] fresh rs = tt
Ready-weaken i row seen prior (item ∷ items) (ne, fresh) ((r, there, before, value), rs) =
    let other : same_identity i item.0 ≡ false = same_identity_ne i item.0 (λ p. ne (sym p)) in
    ((r, rw other there, before, value), Ready-weaken i row seen prior items fresh rs)

pub read_prior-Ready :
    (seen : WatermarkIdentity → WatermarkTable) (items : IdentityMap ℤ)
    (prior : IdentityMap WatermarkState)
    → Distinct items
    → read_prior seen items ≡ ok prior
    → All (Ready seen prior) items
unfolding read_prior lookup
read_prior-Ready seen [] prior d h = tt
read_prior-Ready seen ((i, e) ∷ items) prior (fresh, d) h =
    let (row, e1, h1) = bind-eq-ok (prior_row e (select_where (has_key i) (seen i))) _ h in
    let (rest, e2, h2) = bind-eq-ok (read_prior seen items) _ h1 in
    let (before, value) = prior_row-one i e (seen i) row e1 in
    subst (λ p. All (Ready seen p) ((i, e) ∷ items)) (ok-injective h2)
      (
        (row, rw (same_identity_refl i) refl, before, value),
        Ready-weaken i row seen rest items fresh (read_prior-Ready seen items rest d e2),
      )

module _ (clock : DateTime) (run : Text) (seen : WatermarkIdentity → WatermarkTable)
    (candidates : IdentityMap ℤ) (prior : IdentityMap WatermarkState) where
  pub update_rows-Committed :
      (items : IdentityMap ℤ) (t t' : WatermarkTable) (states : List WatermarkState)
      → Distinct items
      → All (Ready seen prior) items
      → All (Present t) items
      → update_rows clock run candidates items t ≡ ok t'
      → result_states clock run candidates prior items ≡ ok states
      → Committed seen candidates t t' items states × OthersKept t t' items
  unfolding update_rows result_states
  update_rows-Committed [] t t' states d r p h k = (
    subst (Committed seen candidates t t' []) (ok-injective k) tt,
    λ j a. ap (get j) (sym (ok-injective h)),
  )
  update_rows-Committed ((i, e) ∷ items) t t' states (fresh, d) (r, rs) (p, ps) h k =
      let (c, e1, h1) = bind-eq-ok (lookup candidates i) _ h in
      let (u, e2, h2) = bind-eq-ok (update_row clock run i e c t) _ h1 in
      let (c', f1, k1) = bind-eq-ok (lookup candidates i) _ k in
      let (s, f2, k2) = bind-eq-ok (result_state clock run prior i e c') _ k1 in
      let (rest, f3, k3) = bind-eq-ok (result_states clock run candidates prior items) _ k2 in
      let same : c' ≡ c = ok-injective (sym f1 ∙ e1) in
      let (id, at, stored, kept) =
        update_row-Moves clock run seen i e c t u prior s r p e2 (rw same at f2) in
      let (later, others) =
        update_rows-Committed items u t' rest d rs (Present-kept i t u items kept fresh ps) h2 f3 in
      let mine =
        others i (All-imp (λ o. o.0 ≢ i) (λ o. i ≢ o.0) items (λ o n q. n (sym q)) fresh) in
      (
        subst (Committed seen candidates t t' ((i, e) ∷ items)) (ok-injective k3) (
          (id, e1 ∙ ap ok at, Stored-later seen t u t' i e s mine stored),
          Committed-earlier seen candidates i t u t' items rest kept fresh later,
        ),
        λ j (ne, nes). others j nes ∙ kept j ne,
      )
