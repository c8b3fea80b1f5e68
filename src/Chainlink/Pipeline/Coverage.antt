-- ===== src/Chainlink/Pipeline/Coverage.antt =====
-- `plan_chainlink_forward` of orchestration/chainlink_forward.py misses no round that is due.
use real_time_blockchain_ana.Prelude.{
  ℕ, ◌≤◌, ◌<◌, ◌≡◌, refl, sym, ap, ◌∙◌, inl, inr, List, [], ◌∷◌, ◌++◌, value_error, ok, arith,
  bind-eq-ok, ok-injective, subst, raise_if, not,
}
use real_time_blockchain_ana.Prelude.Int.{ℤ, pos, ◌≤ℤ◌, ltb_ℤ, leb_ℤ}
use real_time_blockchain_ana.Prelude.Lists.{All, Any, Any-append_left, Any-append_right}
use real_time_blockchain_ana.Watermark.{WatermarkIdentity, WatermarkState}
use real_time_blockchain_ana.Watermark.Atomic.{IdentityMap, keys, lookup, same_keys}
use real_time_blockchain_ana.Chainlink.{ChainlinkFeed, ChainlinkRpc, FeedRoundRange}
use real_time_blockchain_ana.Chainlink.Rounds.{proxy_id, IsRound}
use real_time_blockchain_ana.Chainlink.Forward.{FeedTarget, ranges_after_cursor}
use real_time_blockchain_ana.Chainlink.Forward.Phases.{Planned, PlannedFor, OfFeed}
use real_time_blockchain_ana.Chainlink.Forward.Cursor.{
  ranges_after_cursor-OfFeed, IsDue, ranges_after_cursor-IsDue,
}
use real_time_blockchain_ana.Chainlink.Pipeline.{
  FrozenChainlinkSnapshot, ChainlinkForwardPlan, chainlink_forward_watermark, target_identity,
  target_identities, target_ranges, round_count, plan_chainlink_forward,
}

-- The ranges of the target from its cursor are among the planned ones.
abbrev pub FromCursor :
    ChainlinkRpc → IdentityMap WatermarkState → List FeedRoundRange → FeedTarget → Type 0
FromCursor rpc states planned target =
    (identity : WatermarkIdentity) × (state : WatermarkState) × (ranges : List FeedRoundRange)
    × (target_identity target ≡ ok identity)
    × (lookup states identity ≡ ok state)
    × (ranges_after_cursor rpc target state.committed_value ≡ ok ranges)
    × All (OfFeed target.feed) ranges
    × ((q a : ℕ) → PlannedFor target.feed ranges q a → PlannedFor target.feed planned q a)

FromCursor-weaken :
    (rpc : ChainlinkRpc) (states : IdentityMap WatermarkState) (here rest : List FeedRoundRange)
    (targets : List FeedTarget)
    → All (FromCursor rpc states rest) targets
    → All (FromCursor rpc states (here ++ rest)) targets
FromCursor-weaken rpc states here rest [] h = tt
FromCursor-weaken rpc states here rest (target ∷ targets) ((i, s, r, e, l, p, of, sub), h) = (
  (i, s, r, e, l, p, of, λ q a x. Any-append_right _ here rest (sub q a x)),
  FromCursor-weaken rpc states here rest targets h,
)

target_ranges-FromCursor :
    (rpc : ChainlinkRpc) (states : IdentityMap WatermarkState) (targets : List FeedTarget)
    (planned : List FeedRoundRange)
    → target_ranges rpc states targets ≡ ok planned
    → All (FromCursor rpc states planned) targets
unfolding target_ranges
target_ranges-FromCursor rpc states [] planned h = tt
target_ranges-FromCursor rpc states (target ∷ targets) planned h =
    let (i, e1, h1) = bind-eq-ok (target_identity target) _ h in
    let (s, e2, h2) = bind-eq-ok (lookup states i) _ h1 in
    let (here, e3, h3) = bind-eq-ok (ranges_after_cursor rpc target s.committed_value) _ h2 in
    let (rest, e4, h4) = bind-eq-ok (target_ranges rpc states targets) _ h3 in
    subst (λ p. All (FromCursor rpc states p) (target ∷ targets)) (ok-injective h4)
      (
        (
          i,
          s,
          here,
          e1,
          e2,
          e3,
          ranges_after_cursor-OfFeed rpc target s.committed_value here e3,
          λ q a x. Any-append_left _ here rest x,
        ),
        FromCursor-weaken rpc states here rest targets
            (target_ranges-FromCursor rpc states targets rest e4),
      )

-- What a plan that is returned has passed.
plan_chainlink_forward-checks :
    (rpc : ChainlinkRpc) (snapshot : FrozenChainlinkSnapshot) (states : IdentityMap WatermarkState)
    (max_rounds : ℤ) (plan : ChainlinkForwardPlan)
    → plan_chainlink_forward rpc snapshot states max_rounds ≡ ok plan
    → (plan.snapshot ≡ snapshot)
      × (target_ranges rpc states snapshot.targets ≡ ok plan.ranges)
      × ((global : WatermarkState) × (lookup states chainlink_forward_watermark ≡ ok global)
          × (plan.committed_block ≡ global.committed_value)
          × (global.committed_value ≤ℤ snapshot.block.number))
      × ((count : ℤ) × (round_count plan.ranges ≡ ok count) × (count ≤ℤ max_rounds))
unfolding plan_chainlink_forward
plan_chainlink_forward-checks rpc snapshot states max_rounds plan h =
    let (_, e1, h1) = bind-eq-ok (raise_if (leb_ℤ max_rounds (pos 0)) value_error) _ h in
    let (ids, e2, h2) = bind-eq-ok (target_identities snapshot.targets) _ h1 in
    let (_, e3, h3) =
      bind-eq-ok
        (raise_if (not (same_keys (keys states) (chainlink_forward_watermark ∷ ids))) value_error) _
        h2 in
    let (global, e4, h4) = bind-eq-ok (lookup states chainlink_forward_watermark) _ h3 in
    let (_, e5, h5) =
      bind-eq-ok (raise_if (ltb_ℤ snapshot.block.number global.committed_value) value_error) _ h4 in
    let (ranges, e6, h6) = bind-eq-ok (target_ranges rpc states snapshot.targets) _ h5 in
    let (count, e7, h7) = bind-eq-ok (round_count ranges) _ h6 in
    let (_, e8, h8) = bind-eq-ok (raise_if (ltb_ℤ max_rounds count) value_error) _ h7 in
    subst
      (λ p.
        (p.snapshot ≡ snapshot)
        × (target_ranges rpc states snapshot.targets ≡ ok p.ranges)
        × ((g : WatermarkState) × (lookup states chainlink_forward_watermark ≡ ok g)
            × (p.committed_block ≡ g.committed_value)
            × (g.committed_value ≤ℤ snapshot.block.number))
        × ((c : ℤ) × (round_count p.ranges ≡ ok c) × (c ≤ℤ max_rounds)))
      (ok-injective h8) (refl, e6, (global, e4, refl, ground arith), (count, e7, ground arith))

-- The target's cursor and its round are rounds, the cursor not after the round, and the client
-- answers for the phases between them.
abbrev pub Answered :
    ChainlinkRpc → IdentityMap WatermarkState → FeedTarget → ℕ → ℕ → ℕ → ℕ → (ℕ → ℕ) → Type 0
Answered rpc states target cp ca tp ta latest =
    IsRound cp ca
    × IsRound tp ta
    × (target.round.round_id ≡ proxy_id tp ta)
    × (proxy_id cp ca ≤ℤ proxy_id tp ta)
    × ((q : ℕ)
        → cp ≤ q
        → q < tp
        → rpc.get_phase_latest_round target.feed.feed_address (pos q) ≡ ok (pos (latest q)))
    × ((q : ℕ) → latest q < 18446744073709551616)
    × ((identity : WatermarkIdentity) × (state : WatermarkState) × (target_identity target
          ≡ ok identity)
        × (lookup states identity ≡ ok state)
        × (state.committed_value ≡ proxy_id cp ca))

All-Planned :
    (feed : ChainlinkFeed) (ranges : List FeedRoundRange) (q a : ℕ)
    → All (OfFeed feed) ranges
    → Planned ranges q a
    → PlannedFor feed ranges q a
All-Planned feed [] q a h x = elim x [ ]
All-Planned feed (r ∷ ranges) q a (e, h) (inl x) = inl (e, x)
All-Planned feed (r ∷ ranges) q a (e, h) (inr x) = inr (All-Planned feed ranges q a h x)

FromCursor-covers :
    (rpc : ChainlinkRpc) (states : IdentityMap WatermarkState) (planned : List FeedRoundRange)
    (target : FeedTarget) (cp ca tp ta : ℕ) (latest : ℕ → ℕ)
    → FromCursor rpc states planned target
    → Answered rpc states target cp ca tp ta latest
    → (q a : ℕ) → IsRound q a
    → IsDue cp ca tp ta latest q a
    → PlannedFor target.feed planned q a
FromCursor-covers rpc states planned target cp ca tp ta latest (i, s, ranges, e1, e2, e3, of, sub)
      (hc, ht, e, le, answers, small, (i', s', f1, f2, cursor)) q a r due =
    let (exact_ranges, found, exact) =
      ranges_after_cursor-IsDue rpc target cp ca tp ta latest hc ht e le answers small in
    let same_identity : i' ≡ i = ok-injective (sym f1 ∙ e1) in
    let same_state : s' ≡ s = ok-injective (sym f2 ∙ rw same_identity e2) in
    let at_cursor : s.committed_value ≡ proxy_id cp ca =
      ap (λ k. k.committed_value) (sym same_state) ∙ cursor in
    let same : exact_ranges ≡ ranges =
      ok-injective
        (sym found ∙ subst (λ k. ranges_after_cursor rpc target k ≡ ok ranges) at_cursor e3) in
    sub q a (
      All-Planned target.feed ranges q a of (subst (λ k. Planned k q a) same ((exact q a r).1 due)))

All-Any :
    (P Q : FeedTarget → Type 0) (targets : List FeedTarget)
    → All P targets
    → Any Q targets
    → (t : FeedTarget) × P t × Q t
All-Any P Q [] h x = absurd x
All-Any P Q (t ∷ ts) (p, h) (inl q) = (t, p, q)
All-Any P Q (t ∷ ts) (p, h) (inr x) = All-Any P Q ts h x

-- A plan that is returned is for the snapshot, whose block is not below the committed one, has no
-- more rounds than the limit, and misses none. For each target of the snapshot whose cursor and
-- round are rounds, the cursor not after the round, and for which the client answers for the phases
-- between, each round of the target's feed that comes after the cursor, is not after the target's,
-- and is not after the last round of its phase lies in a planned range of that feed.
pub plan_chainlink_forward-covers :
    (rpc : ChainlinkRpc) (snapshot : FrozenChainlinkSnapshot) (states : IdentityMap WatermarkState)
    (max_rounds : ℤ) (plan : ChainlinkForwardPlan) (target : FeedTarget) (cp ca tp ta : ℕ)
    (latest : ℕ → ℕ) (q a : ℕ)
    → plan_chainlink_forward rpc snapshot states max_rounds ≡ ok plan
    → Any (λ t. t ≡ target) snapshot.targets
    → Answered rpc states target cp ca tp ta latest
    → IsRound q a
    → IsDue cp ca tp ta latest q a
    → (plan.snapshot ≡ snapshot)
      × (plan.committed_block ≤ℤ snapshot.block.number)
      × ((count : ℤ) × (round_count plan.ranges ≡ ok count) × (count ≤ℤ max_rounds))
      × PlannedFor target.feed plan.ranges q a
plan_chainlink_forward-covers rpc snapshot states max_rounds plan target cp ca tp ta latest q a h
      there answered round due =
    let (same, loop, (global, _, value, le), count) =
      plan_chainlink_forward-checks rpc snapshot states max_rounds plan h in
    let every = target_ranges-FromCursor rpc states snapshot.targets plan.ranges loop in
    let (t, p, e) =
      All-Any (FromCursor rpc states plan.ranges) (λ t. t ≡ target) snapshot.targets every there in
    (
      same,
      subst (λ k. k ≤ℤ snapshot.block.number) (sym value) le,
      count,
      FromCursor-covers rpc states plan.ranges target cp ca tp ta latest
          (subst (FromCursor rpc states plan.ranges) e p) answered q a round due,
    )
