-- ===== src/Chainlink/Forward/Phases.antt =====
-- The loop over the phases of `_ranges_after_cursor` of orchestration/chainlink_forward.py.
use real_time_blockchain_ana.Prelude.{
  bind-eq-ok, ok-injective, raise_if, not, ◌||◌, value_error, ℕ, zero, suc, ◌+◌, ◌≤◌, ◌<◌, ◌≡◌,
  refl, ap, sym, inl, inr, ◌↔◌, List, [], ◌∷◌, ◌++◌, ok, arith, leb, Bool-cases, subst,
}
use real_time_blockchain_ana.Prelude.Int.{ℤ, eqb_ℤ, ltb_ℤ, pos, ◌+ℤ◌, ◌≤ℤ◌, leb_ℤ}
use real_time_blockchain_ana.Prelude.Lists.{
  All, All-append, Any, Any-append_left, Any-append_right, Any-append_cases,
}
use real_time_blockchain_ana.Chainlink.{
  split_proxy_round_id, encode_proxy_round_id, ChainlinkFeed, ChainlinkRpc, FeedRoundRange,
  feed_round_range, phase_range, last_round,
}
use real_time_blockchain_ana.Chainlink.Rounds.{proxy_id, IsRound, encode_ok, split-proxy_id}
use real_time_blockchain_ana.Chainlink.Forward.{nonempty_range, round_after, cursor_phases}

-- The round `a` of the phase `p` is in the range.
abbrev pub Contains : ℕ → ℕ → FeedRoundRange → Type 0
Contains p a r =
    (r.phase_id ≡ pos p) × (r.start_round_id ≤ℤ proxy_id p a) × (proxy_id p a ≤ℤ r.end_round_id)

abbrev pub Planned : List FeedRoundRange → ℕ → ℕ → Type 0
Planned ranges p a = Any (Contains p a) ranges

-- The round `a` of the phase `p` of the feed is in one of the ranges.
abbrev pub PlannedFor : ChainlinkFeed → List FeedRoundRange → ℕ → ℕ → Type 0
PlannedFor feed ranges p a = Any (λ r. (r.feed ≡ feed) × Contains p a r) ranges

abbrev pub range_of : ChainlinkFeed → ℕ → ℕ → ℕ → FeedRoundRange
range_of feed p first last = record {
  feed = feed;
  phase_id = pos p;
  start_round_id = proxy_id p first;
  end_round_id = proxy_id p last;
}

-- The ranges are all of the feed that they are planned for.
abbrev pub OfFeed : ChainlinkFeed → FeedRoundRange → Type 0
OfFeed feed r = r.feed ≡ feed

phase_range-OfFeed :
    (feed : ChainlinkFeed) (phase_id first last : ℤ) (r : FeedRoundRange)
    → phase_range feed phase_id first last ≡ ok r
    → OfFeed feed r
unfolding phase_range feed_round_range
phase_range-OfFeed feed phase_id first last r h =
    let (s, _, h1) = bind-eq-ok (encode_proxy_round_id phase_id first) _ h in
    let (e, _, h2) = bind-eq-ok (encode_proxy_round_id phase_id last) _ h1 in
    let (start, _, h3) = bind-eq-ok (split_proxy_round_id s) _ h2 in
    let (end, _, h4) = bind-eq-ok (split_proxy_round_id e) _ h3 in
    let (_, _, h5) =
      bind-eq-ok (raise_if (not (eqb_ℤ start.0 phase_id) || not (eqb_ℤ end.0 phase_id)) value_error)
        _ h4 in
    let (_, _, h6) = bind-eq-ok (raise_if (ltb_ℤ end.1 start.1) value_error) _ h5 in
    sym (ap (λ (x : FeedRoundRange). x.feed) (ok-injective h6))

nonempty_range-OfFeed :
    (feed : ChainlinkFeed) (phase_id first last : ℤ) (ranges : List FeedRoundRange)
    → nonempty_range feed phase_id first last ≡ ok ranges
    → All (OfFeed feed) ranges
unfolding nonempty_range
nonempty_range-OfFeed feed phase_id first last ranges h = elim (Bool-cases (leb_ℤ first last)) [
  | inl e ↦
      let (r, e1, h1) = bind-eq-ok (phase_range feed phase_id first last) _ (rw e at h) in
      subst (All (OfFeed feed)) (ok-injective h1)
        (phase_range-OfFeed feed phase_id first last r e1, tt)
  | inr e ↦ subst (All (OfFeed feed)) (ok-injective (rw e at h)) tt
]

pub cursor_phases-OfFeed :
    (rpc : ChainlinkRpc) (feed : ChainlinkFeed) (cp ca tp ta : ℤ) (count : ℕ) (phase_id : ℤ)
    (ranges : List FeedRoundRange)
    → cursor_phases rpc feed cp ca tp ta count phase_id ≡ ok ranges
    → All (OfFeed feed) ranges
unfolding cursor_phases
cursor_phases-OfFeed rpc feed cp ca tp ta zero phase_id ranges h =
    subst (All (OfFeed feed)) (ok-injective h) tt
cursor_phases-OfFeed rpc feed cp ca tp ta (suc count) phase_id ranges h =
    let (last, e1, h1) = bind-eq-ok (last_round rpc feed tp ta phase_id) _ h in
    let (here, e2, h2) =
      bind-eq-ok (nonempty_range feed phase_id (round_after cp ca phase_id) last) _ h1 in
    let (later, e3, h3) =
      bind-eq-ok (cursor_phases rpc feed cp ca tp ta count (phase_id +ℤ pos 1)) _ h2 in
    subst (All (OfFeed feed)) (ok-injective h3) (
      All-append (OfFeed feed) here later
        (nonempty_range-OfFeed feed phase_id (round_after cp ca phase_id) last here e2)
        (cursor_phases-OfFeed rpc feed cp ca tp ta count (phase_id +ℤ pos 1) later e3))

phase_range_ok :
    (feed : ChainlinkFeed) (p first last : ℕ)
    → IsRound p first
    → IsRound p last
    → first ≤ last
    → phase_range feed (pos p) (pos first) (pos last) ≡ ok (range_of feed p first last)
unfolding phase_range feed_round_range
phase_range_ok feed p first last hf hl le =
    rw
      (
        encode_ok p first hf,
        encode_ok p last hl,
        split-proxy_id p first hf,
        split-proxy_id p last hl,
      )
      (ground arith)

one-Planned :
    (feed : ChainlinkFeed) (p first last q a : ℕ)
    → IsRound q a
    → 0 < p
    → 0 < first
    → last < 18446744073709551616
    → Planned (range_of feed p first last ∷ []) q a
    → (q ≡ p) × (first ≤ a) × (a ≤ last)
one-Planned feed p first last q a r p0 f0 l1 (inl (e, low, high)) =
    let same : q ≡ p = ground arith in (same, omega (arith, low, r), omega (arith, high, r))
one-Planned feed p first last q a r p0 f0 l1 (inr bad) = absurd bad

pos_suc : (p : ℕ) → pos p +ℤ pos 1 ≡ pos (suc p)
unfolding ◌+ℤ◌
pos_suc p = ground arith

nonempty_range-exact :
    (feed : ChainlinkFeed) (p first last : ℕ)
    → 0 < p
    → p < 65536
    → 0 < first
    → last < 18446744073709551616
    → (ranges : List FeedRoundRange) × (nonempty_range feed (pos p) (pos first) (pos last)
        ≡ ok ranges)
      × ((q a : ℕ) → IsRound q a → Planned ranges q a ↔ ((q ≡ p) × (first ≤ a) × (a ≤ last)))
unfolding nonempty_range
nonempty_range-exact feed p first last p0 p1 f0 l1 =
    elim (Bool-cases (leb_ℤ (pos first) (pos last))) [
      | inl e ↦
          let le : first ≤ last = ground arith in
          (
            (range_of feed p first last ∷ []),
            rw (e, phase_range_ok feed p first last (omega arith) (omega arith) le) refl,
            λ q a h. (
              one-Planned feed p first last q a h p0 f0 l1,
              λ d. inl (ap pos (sym d.0), omega (arith, d), omega (arith, d)),
            ),
          )
      | inr e ↦ ([], rw e refl, λ q a h. ((λ bad. absurd bad), λ d. absurd (ground arith)))
    ]

-- `q` and `a` lie in the phases from `p` on, after the cursor, and not after the last rounds.
abbrev pub Due : (ℕ → ℕ) → (ℕ → ℕ) → ℕ → ℕ → ℕ → ℕ → Type 0
Due first last p upto q a = (p ≤ q) × (q < upto) × (first q ≤ a) × (a ≤ last q)

module _ (rpc : ChainlinkRpc) (feed : ChainlinkFeed) (cp ca tp ta : ℕ) (first last : ℕ → ℕ)
    (starts : (q : ℕ) → round_after (pos cp) (pos ca) (pos q) ≡ pos (first q))
    (first0 : (q : ℕ) → 0 < first q)
    (ends : (q : ℕ)
      → cp ≤ q
      → q ≤ tp
      → last_round rpc feed (pos tp) (pos ta) (pos q) ≡ ok (pos (last q)))
    (last1 : (q : ℕ) → last q < 18446744073709551616) (tp1 : tp < 65536) where
  pub cursor_phases-Due :
      (count p : ℕ)
      → 0 < p
      → cp ≤ p
      → count + p ≤ suc tp
      → (ranges : List FeedRoundRange) × (cursor_phases rpc feed
            (pos cp)
            (pos ca)
            (pos tp)
            (pos ta)
            count
            (pos p)
          ≡ ok ranges)
        × ((q a : ℕ) → IsRound q a → Planned ranges q a ↔ Due first last p (count + p) q a)
  unfolding cursor_phases
  cursor_phases-Due zero p p0 pc h =
      ([], refl, λ q a r. ((λ bad. absurd bad), λ d. absurd (omega (arith, d))))
  cursor_phases-Due (suc count) p p0 pc h =
      let (here, e1, i1) =
        nonempty_range-exact feed p (first p) (last p) p0 (omega arith) (first0 p) (last1 p) in
      let (later, e2, i2) =
        cursor_phases-Due count (suc p) (omega arith) (omega arith) (omega arith) in
      (
        here ++ later,
        rw (ends p pc (omega arith), starts p, e1, pos_suc p, e2) refl,
        λ q a r. (
          (λ there. elim (Any-append_cases (Contains q a) here later there) [
            | inl x ↦
                let (e, lo, hi) = (i1 q a r).0 x in
                (
                  omega (arith, e),
                  omega (arith, e),
                  subst (λ k. first k ≤ a) (sym e) lo,
                  subst (λ k. a ≤ last k) (sym e) hi,
                )
            | inr x ↦
                let (from, below, lo, hi) = (i2 q a r).0 x in
                (omega (arith, from), omega (arith, below), lo, hi)
          ]),
          (λ (from, below, lo, hi). elim (Bool-cases (leb q p)) [
            | inl small ↦
                let e : q ≡ p = ground arith in
                Any-append_left (Contains q a) here later
                  ((i1 q a r).1 (e, subst (λ k. first k ≤ a) e lo, subst (λ k. a ≤ last k) e hi))
            | inr large ↦
                let after : p < q = ground arith in
                Any-append_right (Contains q a) here later
                  ((i2 q a r).1 (omega (arith, after), omega (arith, below), lo, hi))
          ]),
        ),
      )
