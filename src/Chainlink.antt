-- ===== src/Chainlink.antt =====
-- backfill/chainlink.py: proxy round ids and the ranges of rounds that a block window spans. What
-- the RPC client answers is the record `ChainlinkRpc`.
pub mod Rounds
mod Tests
pub mod Forward
pub mod Pipeline
pub mod Observations
use Prim.Native.Nat.{bit_and, bit_or}
use real_time_blockchain_ana.Prelude.{
  ℕ, zero, suc, ◌+◌, ◌-◌, ◌*◌, ◌/◌, ◌^◌, Bool, true, false, not, ◌&&◌, ◌||◌, List, [], ◌∷◌, ◌++◌,
  Error, value_error, Result, ok, err, ◌>>=◌, ◌>>◌, raise_if, if◌then◌else◌, ◌==◌,
}
use real_time_blockchain_ana.Prelude.Int.{ℤ, pos, pos_part, ◌+ℤ◌, ◌-ℤ◌, ltb_ℤ, leb_ℤ, eqb_ℤ}
use real_time_blockchain_ana.Python.Text.{Text}

-- `ChainlinkFeed` of market_data/feeds.py.
pub record ChainlinkFeed : Type 0 where
  pub name : Text
  pub feed_address : Text
  pub base_asset : Text
  pub quote_asset : Text
  pub chain : Text

-- `ChainlinkRound` of market_data/rpc.py.
pub record ChainlinkRound : Type 0 where
  pub round_id : ℤ
  pub answer_raw : ℤ
  pub updated_at : Text

-- What the planners ask of the protocol `ChainlinkHistoricalRpc`.
pub record ChainlinkRpc : Type 0 where
  pub get_round_at_block : Text → ℤ → Result ChainlinkRound
  pub get_phase_latest_round : Text → ℤ → Result ℤ

abbrev pub round_phase_offset : ℕ
round_phase_offset = 64

abbrev pub aggregator_round_mask : ℕ
aggregator_round_mask = 2 ^ round_phase_offset - 1

-- `(phase_id << ROUND_PHASE_OFFSET) | aggregator_round_id`, after the guards: neither is negative.
unfoldable pub encode_proxy_round_id : ℤ → ℤ → Result ℤ
encode_proxy_round_id phase_id aggregator_round_id = do
  raise_if (not (ltb_ℤ (pos 0) phase_id && ltb_ℤ phase_id (pos (2 ^ 16)))) value_error
  raise_if
      (not (
        ltb_ℤ (pos 0) aggregator_round_id && leb_ℤ aggregator_round_id (pos aggregator_round_mask)))
      value_error
  ok (pos (bit_or (pos_part phase_id * 2 ^ round_phase_offset) (pos_part aggregator_round_id)))

-- The phase and the aggregator round: `>>` and `&`.
unfoldable pub split_proxy_round_id : ℤ → Result (ℤ × ℤ)
split_proxy_round_id round_id = do
  raise_if (leb_ℤ round_id (pos 0)) value_error
  ok (
    pos (pos_part round_id / 2 ^ round_phase_offset),
    pos (bit_and (pos_part round_id) aggregator_round_mask),
  )

pub record FeedRoundRange : Type 0 where
  pub feed : ChainlinkFeed
  pub phase_id : ℤ
  pub start_round_id : ℤ
  pub end_round_id : ℤ

-- `FeedRoundRange(...)` with its `__post_init__`.
unfoldable pub feed_round_range : ChainlinkFeed → ℤ → ℤ → ℤ → Result FeedRoundRange
feed_round_range feed phase_id start_round_id end_round_id = do
  start ← split_proxy_round_id start_round_id
  end ← split_proxy_round_id end_round_id
  raise_if (not (eqb_ℤ start.0 phase_id) || not (eqb_ℤ end.0 phase_id)) value_error
  raise_if (ltb_ℤ end.1 start.1) value_error
  ok (record {
    feed = feed;
    phase_id = phase_id;
    start_round_id = start_round_id;
    end_round_id = end_round_id;
  })

-- The range of the rounds `first` to `last` of one phase.
unfoldable pub phase_range : ChainlinkFeed → ℤ → ℤ → ℤ → Result FeedRoundRange
phase_range feed phase_id first last = do
  start_round_id ← encode_proxy_round_id phase_id first
  end_round_id ← encode_proxy_round_id phase_id last
  feed_round_range feed phase_id start_round_id end_round_id

module _ (rpc : ChainlinkRpc) (feed : ChainlinkFeed) where
  open rpc use {get_round_at_block, get_phase_latest_round}

  -- The last round of a phase: that of the window's end in its phase, and else the phase's latest.
  unfoldable pub last_round : ℤ → ℤ → ℤ → Result ℤ
  last_round end_phase end_aggregator phase_id =
      if eqb_ℤ phase_id end_phase
      then ok end_aggregator
      else get_phase_latest_round feed.feed_address phase_id

  abbrev pub first_round : ℤ → ℤ → ℤ → ℤ
  first_round start_phase start_aggregator phase_id =
      if eqb_ℤ phase_id start_phase then start_aggregator else pos 1

  -- The loop over the phases from `phase_id` on, of which `count` are left.
  unfoldable pub discover_phases : ℤ → ℤ → ℤ → ℤ → ℕ → ℤ → Result (List FeedRoundRange)
  discover_phases start_phase start_aggregator end_phase end_aggregator zero phase_id = ok []
  discover_phases start_phase start_aggregator end_phase end_aggregator (suc count) phase_id = do
    last ← last_round end_phase end_aggregator phase_id
    here ← phase_range feed phase_id (first_round start_phase start_aggregator phase_id) last
    later ←
        discover_phases start_phase start_aggregator end_phase end_aggregator count
          (phase_id +ℤ pos 1)
    ok (here ∷ later)

  unfoldable pub discover_round_ranges : ℤ → ℤ → Result (List FeedRoundRange)
  discover_round_ranges start_block end_block = do
    raise_if (ltb_ℤ start_block (pos 0) || ltb_ℤ end_block start_block) value_error
    start ← get_round_at_block feed.feed_address start_block
    end ← get_round_at_block feed.feed_address end_block
    from ← split_proxy_round_id start.round_id
    to ← split_proxy_round_id end.round_id
    raise_if (ltb_ℤ to.0 from.0) value_error
    discover_phases from.0 from.1 to.0 to.1 (pos_part (to.0 -ℤ from.0 +ℤ pos 1)) from.0
