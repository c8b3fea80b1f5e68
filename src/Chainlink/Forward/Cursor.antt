-- ===== src/Chainlink/Forward/Cursor.antt =====
-- `_ranges_after_cursor` of orchestration/chainlink_forward.py plans exactly the rounds that are
-- due.
use real_time_blockchain_ana.Prelude.{
  Bool, Result, bind-eq-ok, ok-injective, raise_if, value_error, subst, ℕ, suc, ◌+◌, ◌-◌, ◌*◌, ◌≤◌,
  ◌<◌, ◌≡◌, refl, sym, inl, inr, ◌↔◌, true, false, ◌&&◌, ◌||◌, List, [], ok, arith, if◌then◌else◌,
  ◌==◌, leb, Bool-cases,
}
use real_time_blockchain_ana.Prelude.Int.{ℤ, pos, pos_part, ◌+ℤ◌, ◌-ℤ◌, ◌≤ℤ◌, ◌<ℤ◌, eqb_ℤ, ltb_ℤ}
use real_time_blockchain_ana.Prelude.Lists.{All}
use real_time_blockchain_ana.Chainlink.{
  split_proxy_round_id, ChainlinkFeed, ChainlinkRpc, FeedRoundRange, last_round,
}
use real_time_blockchain_ana.Chainlink.Rounds.{proxy_id, IsRound, split-proxy_id}
use real_time_blockchain_ana.Chainlink.Forward.{
  FeedTarget, round_after, cursor_phases, ranges_after_cursor,
}
use real_time_blockchain_ana.Chainlink.Forward.Phases.{
  OfFeed, cursor_phases-OfFeed, Planned, Due, cursor_phases-Due,
}

-- The first and the last round of each phase.
abbrev pub first_due : ℕ → ℕ → ℕ → ℕ
first_due cp ca q = if q == cp then ca + 1 else 1

abbrev pub last_due : ℕ → ℕ → (ℕ → ℕ) → ℕ → ℕ
last_due tp ta latest q = if q == tp then ta else latest q

starts_due : (cp ca q : ℕ) → round_after (pos cp) (pos ca) (pos q) ≡ pos (first_due cp ca q)
unfolding round_after ◌+ℤ◌
starts_due cp ca q = ground arith

ends_due :
    (rpc : ChainlinkRpc) (feed : ChainlinkFeed) (cp tp ta : ℕ) (latest : ℕ → ℕ)
    → ((q : ℕ)
        → cp ≤ q
        → q < tp
        → rpc.get_phase_latest_round feed.feed_address (pos q) ≡ ok (pos (latest q)))
    → (q : ℕ) → cp ≤ q
    → q ≤ tp
    → last_round rpc feed (pos tp) (pos ta) (pos q) ≡ ok (pos (last_due tp ta latest q))
unfolding last_round
ends_due rpc feed cp tp ta latest answers q le ge = elim (Bool-cases (eqb_ℤ (pos q) (pos tp))) [
  | inl e ↦ let same : (q == tp) ≡ true = ground arith in rw (e, same) refl
  | inr e ↦
      let below : q < tp = ground arith in
      let other : (q == tp) ≡ false = ground arith in rw (e, other) (answers q le below)
]

-- The round `a` of the phase `q` lies after the cursor and not after the target, and not after the
-- last round of its phase.
abbrev pub IsDue : ℕ → ℕ → ℕ → ℕ → (ℕ → ℕ) → ℕ → ℕ → Type 0
IsDue cp ca tp ta latest q a =
    (proxy_id cp ca <ℤ proxy_id q a) × (proxy_id q a ≤ℤ proxy_id tp ta) × (q < tp → a ≤ latest q)

Due↔IsDue :
    (cp ca tp ta : ℕ) (latest : ℕ → ℕ) (q a : ℕ)
    → IsRound cp ca
    → IsRound tp ta
    → IsRound q a
    → Due (first_due cp ca) (last_due tp ta latest) cp (suc tp) q a ↔ IsDue cp ca tp ta latest q a
Due↔IsDue cp ca tp ta latest q a hc ht h = (
  (λ (from, below, lo, hi). (ground arith, ground arith, λ m. ground arith)),
  (λ (after, upto, hi).
      (omega (arith, after, hc, h), omega (arith, upto, ht, h), ground arith, ground arith)),
)

phase_count : (cp tp : ℕ) → cp ≤ tp → pos_part (pos tp +ℤ pos 1 -ℤ pos cp) ≡ tp + 1 - cp
unfolding ◌+ℤ◌ ◌-ℤ◌
phase_count cp tp h = ground arith

-- The checks pass, and the loop covers the phases from the cursor's to the target's.
ranges_after_cursor-phases :
    (rpc : ChainlinkRpc) (target : FeedTarget) (cp ca tp ta : ℕ) (ranges : List FeedRoundRange)
    → IsRound cp ca
    → IsRound tp ta
    → target.round.round_id ≡ proxy_id tp ta
    → proxy_id cp ca <ℤ proxy_id tp ta
    → cursor_phases rpc target.feed (pos cp) (pos ca) (pos tp) (pos ta) (tp + 1 - cp) (pos cp)
      ≡ ok ranges
    → ranges_after_cursor rpc target (proxy_id cp ca) ≡ ok ranges
unfolding ranges_after_cursor
ranges_after_cursor-phases rpc target cp ca tp ta ranges hc ht e lt loop =
    let forward : (ltb_ℤ (pos tp) (pos cp) || (eqb_ℤ (pos tp) (pos cp) && ltb_ℤ (pos ta) (pos ca)))
        ≡ false =
      ground arith in
    let moved : eqb_ℤ (proxy_id tp ta) (proxy_id cp ca) ≡ false = ground arith in
    let phases : pos_part (pos tp +ℤ pos 1 -ℤ pos cp) ≡ tp + 1 - cp =
      phase_count cp tp (omega (arith, lt, hc, ht)) in
    rw (split-proxy_id cp ca hc, e, split-proxy_id tp ta ht, forward, moved, phases) loop

ranges_after_cursor-same :
    (rpc : ChainlinkRpc) (target : FeedTarget) (cp ca : ℕ)
    → IsRound cp ca
    → target.round.round_id ≡ proxy_id cp ca
    → ranges_after_cursor rpc target (proxy_id cp ca) ≡ ok []
unfolding ranges_after_cursor
ranges_after_cursor-same rpc target cp ca hc e =
    let forward : (ltb_ℤ (pos cp) (pos cp) || (eqb_ℤ (pos cp) (pos cp) && ltb_ℤ (pos ca) (pos ca)))
        ≡ false =
      ground arith in
    let stayed : eqb_ℤ (proxy_id cp ca) (proxy_id cp ca) ≡ true = ground arith in
    rw (split-proxy_id cp ca hc, e, split-proxy_id cp ca hc, forward, stayed) refl

-- From a cursor and a target that are rounds, the target not before the cursor, and with the latest
-- rounds that the client gives for the phases before the target's, the plan succeeds, and the
-- rounds in its ranges are exactly those after the cursor, up to the target, that their phases
-- have.
pub ranges_after_cursor-IsDue :
    (rpc : ChainlinkRpc) (target : FeedTarget) (cp ca tp ta : ℕ) (latest : ℕ → ℕ)
    → IsRound cp ca
    → IsRound tp ta
    → target.round.round_id ≡ proxy_id tp ta
    → proxy_id cp ca ≤ℤ proxy_id tp ta
    → ((q : ℕ)
        → cp ≤ q
        → q < tp
        → rpc.get_phase_latest_round target.feed.feed_address (pos q) ≡ ok (pos (latest q)))
    → ((q : ℕ) → latest q < 18446744073709551616)
    → (ranges : List FeedRoundRange) × (ranges_after_cursor rpc target (proxy_id cp ca) ≡ ok ranges)
      × ((q a : ℕ) → IsRound q a → Planned ranges q a ↔ IsDue cp ca tp ta latest q a)
unfolding ranges_after_cursor
ranges_after_cursor-IsDue rpc target cp ca tp ta latest hc ht e le answers small =
    elim (Bool-cases (leb (tp * 18446744073709551616 + ta) (cp * 18446744073709551616 + ca))) [
      | inl back ↦
          let phase : tp ≡ cp = ground arith in
          let round : ta ≡ ca = ground arith in
          (
            [],
            ranges_after_cursor-same rpc target cp ca hc (rw (sym phase, sym round) e),
            λ q a h. (
              (λ bad. absurd bad),
              λ (after, upto, _). absurd (omega (arith, after, upto, phase, round)),
            ),
          )
      | inr ahead ↦
          let lt : proxy_id cp ca <ℤ proxy_id tp ta = ground arith in
          let (ranges, loop, exact) =
            cursor_phases-Due rpc target.feed cp ca tp ta (first_due cp ca) (last_due tp ta latest)
              (starts_due cp ca) (λ q. ground arith)
              (ends_due rpc target.feed cp tp ta latest answers)
              (λ q. let s = small q in ground arith) ht.1 (tp + 1 - cp) cp hc.0 (omega arith)
              (omega (arith, lt, hc, ht)) in
          (
            ranges,
            ranges_after_cursor-phases rpc target cp ca tp ta ranges hc ht e lt loop,
            λ q a h.
                let upto : tp + 1 - cp + cp ≡ suc tp = omega (arith, lt, hc, ht) in
                let same = rw upto at (exact q a h) in
                let (to, from) = Due↔IsDue cp ca tp ta latest q a hc ht h in
                ((λ x. to (same.0 x)), (λ d. same.1 (from d))),
          )
    ]

unless_same-OfFeed :
    (feed : ChainlinkFeed) (same : Bool) (loop : Result (List FeedRoundRange))
    (ranges : List FeedRoundRange)
    → (if same then ok [] else loop) ≡ ok ranges
    → (loop ≡ ok ranges → All (OfFeed feed) ranges)
    → All (OfFeed feed) ranges
unless_same-OfFeed feed true loop ranges h k = subst (All (OfFeed feed)) (ok-injective h) tt
unless_same-OfFeed feed false loop ranges h k = k h

-- The ranges that are planned for a target are of its feed.
pub ranges_after_cursor-OfFeed :
    (rpc : ChainlinkRpc) (target : FeedTarget) (cursor : ℤ) (ranges : List FeedRoundRange)
    → ranges_after_cursor rpc target cursor ≡ ok ranges
    → All (OfFeed target.feed) ranges
unfolding ranges_after_cursor
ranges_after_cursor-OfFeed rpc target cursor ranges h =
    let (current, _, h1) = bind-eq-ok (split_proxy_round_id cursor) _ h in
    let (goal, _, h2) = bind-eq-ok (split_proxy_round_id target.round.round_id) _ h1 in
    let backward = ltb_ℤ goal.0 current.0 || (eqb_ℤ goal.0 current.0 && ltb_ℤ goal.1 current.1) in
    let (_, _, h3) = bind-eq-ok (raise_if backward value_error) _ h2 in
    unless_same-OfFeed target.feed (eqb_ℤ target.round.round_id cursor) _ ranges h3
      (λ e. cursor_phases-OfFeed rpc target.feed current.0 current.1 goal.0 goal.1 _ _ ranges e)
