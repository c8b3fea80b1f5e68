-- ===== src/Chainlink/Rounds.antt =====
-- Proxy round ids: `encode_proxy_round_id` and `split_proxy_round_id` of backfill/chainlink.py.
use real_time_blockchain_ana.Prelude.{
  ℕ, zero, suc, ◌+◌, ◌*◌, ◌/◌, ◌%◌, ◌^◌, ◌<◌, ◌≡◌, refl, ap, sym, ◌∙◌, ◌⊎◌, inl, inr, ◌&&◌,
  value_error, ok, err, arith, ok-injective, ltb, leb, Bool-cases, subst,
}
use real_time_blockchain_ana.Prelude.Int.{ℤ, pos, negsuc, ◌<ℤ◌}
use real_time_blockchain_ana.Prelude.Bits.{bit_and_mask, bit_or_above}
use real_time_blockchain_ana.Chainlink.{encode_proxy_round_id, split_proxy_round_id}

-- The number of the aggregator round `a` of the phase `p`.
abbrev pub proxy_id : ℕ → ℕ → ℤ
proxy_id p a = pos (p * 18446744073709551616 + a)

-- A phase of 16 bits and an aggregator round of 64 bits, neither of them 0.
abbrev pub IsRound : ℕ → ℕ → Type 0
IsRound p a = (0 < p) × (p < 65536) × (0 < a) × (a < 18446744073709551616)

pub encode_ok : (p a : ℕ) → IsRound p a → encode_proxy_round_id (pos p) (pos a) ≡ ok (proxy_id p a)
unfolding encode_proxy_round_id
encode_ok p a h = rw (bit_or_above 64 p a (omega arith)) (ground arith)

pub split_ok :
    (n : ℕ)
    → 0 < n
    → split_proxy_round_id (pos n)
      ≡ ok (pos (n / 18446744073709551616), pos (n % 18446744073709551616))
unfolding split_proxy_round_id
split_ok n h = rw (bit_and_mask 64 n) (ground arith)

pub split-proxy_id :
    (p a : ℕ) → IsRound p a → split_proxy_round_id (proxy_id p a) ≡ ok (pos p, pos a)
split-proxy_id p a h =
    let phase : (p * 18446744073709551616 + a) / 18446744073709551616 ≡ p = omega arith in
    let round : (p * 18446744073709551616 + a) % 18446744073709551616 ≡ a = omega arith in
    split_ok (p * 18446744073709551616 + a) (omega arith) ∙ rw (phase, round) refl

-- The guards of `encode_proxy_round_id`.
abbrev pub InRange : ℤ → ℤ → Type 0
InRange p a = (pos 0 <ℤ p) × (p <ℤ pos 65536) × (pos 0 <ℤ a) × (a <ℤ pos 18446744073709551616)

encode_refuses : (p a : ℤ) → (¬ InRange p a) → encode_proxy_round_id p a ≡ err value_error
unfolding encode_proxy_round_id
encode_refuses (pos p) (pos a) h = ground arith
encode_refuses (pos p) (negsuc a) h = ground arith
encode_refuses (negsuc p) a h = ground arith

-- `encode_proxy_round_id` accepts exactly the phases of 16 bits and the aggregator rounds of 64
-- bits that are positive. The id that it gives is positive and has 80 bits, and
-- `split_proxy_round_id` gives the two parts back; all other arguments are refused.
pub split-encode :
    (p a : ℤ)
    → (InRange p a
        × ((id : ℤ) × (encode_proxy_round_id p a ≡ ok id)
            × (pos 0 <ℤ id)
            × (id <ℤ pos (2 ^ 80))
            × (split_proxy_round_id id ≡ ok (p, a))))
      ⊎ ((¬ InRange p a) × (encode_proxy_round_id p a ≡ err value_error))
split-encode (pos p) (pos a) =
    elim (Bool-cases (leb 1 p && (ltb p 65536 && (leb 1 a && ltb a 18446744073709551616)))) [
      | inl e ↦
          let h : IsRound p a = ground arith in
          inl (
            omega (arith, h),
            (proxy_id p a, encode_ok p a h, omega arith, omega arith, split-proxy_id p a h),
          )
      | inr e ↦
          let n : ¬ InRange (pos p) (pos a) = ground arith in
          inr (n, encode_refuses (pos p) (pos a) n)
    ]
split-encode (pos p) (negsuc a) =
    let n : ¬ InRange (pos p) (negsuc a) = ground arith in
    inr (n, encode_refuses (pos p) (negsuc a) n)
split-encode (negsuc p) a =
    let n : ¬ InRange (negsuc p) a = ground arith in inr (n, encode_refuses (negsuc p) a n)

encode_parts :
    (n : ℕ)
    → InRange (pos (n / 18446744073709551616)) (pos (n % 18446744073709551616))
    → encode_proxy_round_id (pos (n / 18446744073709551616)) (pos (n % 18446744073709551616))
      ≡ ok (pos n)
encode_parts n r =
    let whole : n / 18446744073709551616 * 18446744073709551616 + n % 18446744073709551616 ≡ n =
      omega arith in
    encode_ok (n / 18446744073709551616) (n % 18446744073709551616) (omega arith)
    ∙ ap (λ k. ok (pos k)) whole

-- Every id that `split_proxy_round_id` splits into parts that `encode_proxy_round_id` accepts comes
-- back from these parts.
pub encode-split :
    (id p a : ℤ)
    → split_proxy_round_id id ≡ ok (p, a)
    → InRange p a
    → encode_proxy_round_id p a ≡ ok id
unfolding split_proxy_round_id
encode-split (pos zero) p a h r = cc
encode-split (pos (suc n)) p a h r =
    let e : (pos (suc n / 18446744073709551616), pos (suc n % 18446744073709551616)) ≡ (p, a) =
      ok-injective (sym (split_ok (suc n) (omega arith)) ∙ h) in
    subst (λ t. InRange t.0 t.1 → encode_proxy_round_id t.0 t.1 ≡ ok (pos (suc n))) e
      (encode_parts (suc n)) r
encode-split (negsuc n) p a h r =
    let refused : split_proxy_round_id (negsuc n) ≡ err value_error = ground arith in cc
