-- ===== src/Chainlink/Forward.antt =====
-- orchestration/chainlink_forward.py: the rounds of each feed that are missing after its cursor.
pub mod Phases
pub mod Cursor
use real_time_blockchain_ana.Prelude.{
  ℕ, zero, suc, Bool, true, false, ◌&&◌, ◌||◌, List, [], ◌∷◌, ◌++◌, value_error, Result, ok, err,
  ◌>>=◌, ◌>>◌, raise_if, if◌then◌else◌,
}
use real_time_blockchain_ana.Prelude.Int.{ℤ, pos, pos_part, ◌+ℤ◌, ◌-ℤ◌, ltb_ℤ, leb_ℤ, eqb_ℤ}
use real_time_blockchain_ana.Chainlink.{
  ChainlinkFeed, ChainlinkRound, ChainlinkRpc, split_proxy_round_id, FeedRoundRange, phase_range,
  last_round,
}

-- `FeedTarget`, whose property `round_id` is that of its round.
pub record FeedTarget : Type 0 where
  pub feed : ChainlinkFeed
  pub round : ChainlinkRound

-- `if first <= last: ranges.append(FeedRoundRange(...))`
unfoldable pub nonempty_range : ChainlinkFeed → ℤ → ℤ → ℤ → Result (List FeedRoundRange)
nonempty_range feed phase_id first last =
    if leb_ℤ first last then (phase_range feed phase_id first last >>= λ r. ok (r ∷ [])) else ok []

-- `current_aggregator + 1 if phase_id == current_phase else 1`
unfoldable pub round_after : ℤ → ℤ → ℤ → ℤ
round_after current_phase current_aggregator phase_id =
    if eqb_ℤ phase_id current_phase then current_aggregator +ℤ pos 1 else pos 1

module _ (rpc : ChainlinkRpc) (feed : ChainlinkFeed)
    (current_phase current_aggregator target_phase target_aggregator : ℤ) where
  -- The loop over the phases from `phase_id` on, of which `count` are left.
  unfoldable pub cursor_phases : ℕ → ℤ → Result (List FeedRoundRange)
  cursor_phases zero phase_id = ok []
  cursor_phases (suc count) phase_id = do
    last ← last_round rpc feed target_phase target_aggregator phase_id
    here ← nonempty_range feed phase_id (round_after current_phase current_aggregator phase_id) last
    later ← cursor_phases count (phase_id +ℤ pos 1)
    ok (here ++ later)

-- `_ranges_after_cursor`
unfoldable pub ranges_after_cursor : ChainlinkRpc → FeedTarget → ℤ → Result (List FeedRoundRange)
ranges_after_cursor rpc target current_round_id = do
  current ← split_proxy_round_id current_round_id
  goal ← split_proxy_round_id target.round.round_id
  raise_if (ltb_ℤ goal.0 current.0 || (eqb_ℤ goal.0 current.0 && ltb_ℤ goal.1 current.1))
      value_error
  if eqb_ℤ target.round.round_id current_round_id
      then ok []
      else cursor_phases rpc target.feed current.0 current.1 goal.0 goal.1
          (pos_part (goal.0 +ℤ pos 1 -ℤ current.0)) current.0
