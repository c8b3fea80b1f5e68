-- ===== src/UniswapRecovery/SourceContract.antt =====
-- The source contract in run ids: orchestration/uniswap_recovery.py.
use mathlib.Core.List.{append_assoc}
use real_time_blockchain_ana.Prelude.{
  ◌≤◌, ◌≢◌, ◌≡◌, refl, sym, ap, ◌∙◌, Bool, true, false, ◌||◌, [], ◌∷◌, ◌++◌,
  source_contract_changed, ok, err, arith, bind-eq-ok, ok-injective, Bool-cases, ◌⊎◌, inl, inr,
}
use real_time_blockchain_ana.Prelude.Lists.{length}
use real_time_blockchain_ana.Python.Text.{Text, text_eq, codes, strip, lstrip, is_space, is_empty}
use real_time_blockchain_ana.Watermark.{WatermarkState}
use real_time_blockchain_ana.UniswapRecovery.{
  normalized, check_fingerprint, check_tags, contract_suffix, source_contract_run_id, ends_with,
  assert_source_contract_matches,
}

text_eq_refl : (a : Text) → text_eq a a ≡ true
text_eq_refl a = ground arith

text_eq→eq : (a b : Text) → text_eq a b ≡ true → a ≡ b
text_eq→eq a b h = ground arith

or_cases : (a b : Bool) → (a || b) ≡ true → (a ≡ true) ⊎ (b ≡ true)
or_cases a b h = ground arith

ends_with-append : (s t : Text) → ends_with (s ++ t) t ≡ true
unfolding ends_with
ends_with-append [] [] = text_eq_refl []
ends_with-append [] (c ∷ t) = rw (text_eq_refl (c ∷ t)) refl
ends_with-append (c ∷ s) t = rw (ends_with-append s t) (ground arith)

-- A text that ends with a suffix is something and then the suffix.
ends_with_split : (s t : Text) → ends_with s t ≡ true → (front : Text) × (s ≡ front ++ t)
unfolding ends_with
ends_with_split [] t h = ([], text_eq→eq [] t h)
ends_with_split (c ∷ s) t h = elim (or_cases (text_eq (c ∷ s) t) (ends_with s t) h) [
  | inl e ↦ ([], text_eq→eq (c ∷ s) t e)
  | inr e ↦ let (front, split) = ends_with_split s t e in (c ∷ front, ap (λ x. c ∷ x) split)
]

length-append_le : (s t : Text) → length t ≤ length (s ++ t)
length-append_le [] t = omega arith
length-append_le (c ∷ s) t = omega (arith, length-append_le s t)

accepted_named : is_empty (strip (codes "accepted")) ≡ false
unfolding strip lstrip is_space
accepted_named = refl

accepted_strips : strip (codes "accepted") ≡ codes "accepted"
unfolding strip lstrip is_space
accepted_strips = refl

checked-version :
    (run version : Text) {u : Unit {0}}
    → check_tags run version ≡ ok u
    → is_empty (strip version) ≡ false
unfolding check_tags
checked-version run version h = ground arith

-- What a tagged run id has passed, and what it is.
tagged-parts :
    (run fingerprint version : Text) {id : Text}
    → source_contract_run_id run fingerprint version ≡ ok id
    → (check_fingerprint (normalized fingerprint) ≡ ok tt)
      × (is_empty (strip version) ≡ false)
      × (id ≡ strip run ++ contract_suffix (strip version) (normalized fingerprint))
unfolding source_contract_run_id
tagged-parts run fingerprint version h =
    let (u, e, h1) = bind-eq-ok (check_fingerprint (normalized fingerprint)) _ h in
    let (v, e', h2) = bind-eq-ok (check_tags run version) _ h1 in
    (e, checked-version run version e', sym (ok-injective h2))

accepted_tag :
    (fingerprint version : Text)
    → check_fingerprint (normalized fingerprint) ≡ ok tt
    → is_empty (strip version) ≡ false
    → source_contract_run_id (codes "accepted") fingerprint version
      ≡ ok (codes "accepted" ++ contract_suffix (strip version) (normalized fingerprint))
unfolding source_contract_run_id check_tags
accepted_tag fingerprint version h k = rw (h, accepted_named, k, accepted_strips) refl

-- Two texts with the same end, of the same length.
append-tails :
    (front front' back back' : Text)
    → length back ≡ length back'
    → front ++ back ≡ front' ++ back'
    → back ≡ back'
append-tails [] [] back back' h e = e
append-tails [] (c ∷ front') back back' h e =
    absurd (omega (arith, h, ap length e, length-append_le front' back'))
append-tails (c ∷ front) [] back back' h e =
    absurd (omega (arith, h, ap length e, length-append_le front back))
append-tails (c ∷ front) (d ∷ front') back back' h e =
    append-tails front front' back back' h (ap rest e)
  where
    rest : Text → Text
    rest [] = []
    rest (_ ∷ s) = s

-- The suffix ends with the fingerprint.
suffix_front :
    (front version fingerprint : Text)
    → front ++ contract_suffix version fingerprint
      ≡ (front ++ (codes "|uniswap_source_contract=" ++ version ++ codes ":")) ++ fingerprint
suffix_front front version fingerprint =
    sym (append_assoc front (codes "|uniswap_source_contract=" ++ version ++ codes ":") fingerprint)

check_fingerprint-length : (f : Text) → check_fingerprint f ≡ ok tt → length f ≡ 64
unfolding check_fingerprint
check_fingerprint-length f h = ground arith

-- A watermark that was committed under a tagged run id is accepted by a later run of the same
-- contract version exactly where the two fingerprints are the same after normalization, and every
-- other fingerprint that is well formed is refused as a changed source contract.
pub assert_source_contract_lem :
    (state : WatermarkState) (run committed fingerprint version : Text)
    → source_contract_run_id run committed version ≡ ok state.successful_run_id
    → check_fingerprint (normalized fingerprint) ≡ ok tt
    → ((normalized fingerprint ≡ normalized committed)
        × (assert_source_contract_matches state fingerprint version ≡ ok tt))
      ⊎ ((normalized fingerprint ≢ normalized committed)
          × (assert_source_contract_matches state fingerprint version
              ≡ err source_contract_changed))
unfolding assert_source_contract_matches
assert_source_contract_lem state run committed fingerprint version tagged valid =
    let (was_valid, versioned, id) = tagged-parts run committed version tagged in
    let suffix = contract_suffix (strip version) (normalized fingerprint) in
    elim (Bool-cases (ends_with state.successful_run_id suffix)) [
      | inl yes_ends ↦
          let (front, split) = ends_with_split state.successful_run_id suffix yes_ends in
          inl (
            append-tails _ _ (normalized fingerprint) (normalized committed)
                (check_fingerprint-length (normalized fingerprint) valid
                  ∙ sym (check_fingerprint-length (normalized committed) was_valid))
                (sym (suffix_front front (strip version) (normalized fingerprint))
                  ∙ sym split
                  ∙ id
                  ∙ suffix_front (strip run) (strip version) (normalized committed)),
            rw (accepted_tag fingerprint version valid versioned, yes_ends) refl,
          )
      | inr no_ends ↦ inr (
        (λ same. differs same id no_ends),
        rw (accepted_tag fingerprint version valid versioned, no_ends) refl,
      )
    ]
  where
    differs :
        normalized fingerprint ≡ normalized committed
        → state.successful_run_id
          ≡ strip run ++ contract_suffix (strip version) (normalized committed)
        → ends_with state.successful_run_id
            (contract_suffix (strip version) (normalized fingerprint))
          ≡ false
        → ⊥
    differs same id no_ends =
        let ends : ends_with state.successful_run_id
              (contract_suffix (strip version) (normalized fingerprint))
            ≡ true =
          rw (id, same)
            (ends_with-append (strip run)
              (contract_suffix (strip version) (normalized committed))) in
        cc (no_ends, ends)
