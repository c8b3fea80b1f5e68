-- ===== src/Chainlink/Pipeline.antt =====
-- orchestration/chainlink_forward.py: the frozen snapshot, the plan of all feeds and the
-- commit-last pipeline.
pub mod Coverage
pub mod CommitLast
use real_time_blockchain_ana.Prelude.{
  Bool, true, false, not, ◌||◌, List, [], ◌∷◌, ◌++◌, map, value_error, Result, ok, err, ◌>>=◌, ◌>>◌,
  raise_if, Exec, if◌then◌else◌,
}
use real_time_blockchain_ana.Prelude.Int.{ℤ, pos, ◌+ℤ◌, ◌-ℤ◌, ltb_ℤ, leb_ℤ}
use real_time_blockchain_ana.Python.Text.{Text, codes}
use real_time_blockchain_ana.Watermark.{
  WatermarkIdentity, WatermarkState, ProcessingMode, same_identity,
}
use real_time_blockchain_ana.Watermark.Atomic.{
  IdentityMap, keys, lookup, same_keys, AtomicWatermarkStore, chainlink_feed_watermark,
  commit_watermarks_atomically,
}
use real_time_blockchain_ana.AaveForward.{calculate_safe_head, and_then}
use real_time_blockchain_ana.Chainlink.{
  ChainlinkFeed, ChainlinkRound, ChainlinkRpc, FeedRoundRange, split_proxy_round_id,
}
use real_time_blockchain_ana.Chainlink.Forward.{FeedTarget, ranges_after_cursor}

-- `BlockSnapshot` of market_data/rpc.py.
pub record BlockSnapshot : Type 0 where
  pub number : ℤ
  pub timestamp : Text

-- The protocol `ChainlinkForwardRpc`: the round queries, and those of blocks.
pub record ChainlinkForwardRpc : Type 0 where
  pub rounds : ChainlinkRpc
  pub get_latest_block : Result BlockSnapshot
  pub get_block_snapshot : ℤ → Result BlockSnapshot

abbrev pub chainlink_forward_watermark : WatermarkIdentity
chainlink_forward_watermark = record {
  pipeline_name = codes "chainlink_forward";
  source_name = codes "chainlink_feeds";
  chain_id = pos 42161;
  watermark_type = codes "block_number";
}

-- `FeedTarget.identity`
abbrev pub target_identity : FeedTarget → Result WatermarkIdentity
target_identity target = chainlink_feed_watermark target.feed.feed_address

pub record FrozenChainlinkSnapshot : Type 0 where
  pub observed_head : ℤ
  pub confirmation_depth : ℤ
  pub block : BlockSnapshot
  pub targets : List FeedTarget

-- `tuple(FeedTarget(feed, rpc.get_round_at_block(...)) for feed in feeds)`
unfoldable pub targets_at : ChainlinkRpc → ℤ → List ChainlinkFeed → Result (List FeedTarget)
targets_at rpc block_number [] = ok []
targets_at rpc block_number (feed ∷ feeds) = do
  round ← rpc.get_round_at_block feed.feed_address block_number
  rest ← targets_at rpc block_number feeds
  ok (record { feed = feed; round = round } ∷ rest)

abbrev pub is_nil : List ChainlinkFeed → Bool
is_nil [] = true
is_nil (_ ∷ _) = false

unfoldable pub freeze_chainlink_snapshot :
    ChainlinkForwardRpc → List ChainlinkFeed → ℤ → Result FrozenChainlinkSnapshot
freeze_chainlink_snapshot rpc feeds confirmation_depth = do
  raise_if (is_nil feeds) value_error
  latest ← rpc.get_latest_block
  safe_number ← calculate_safe_head latest.number confirmation_depth
  safe_block ← rpc.get_block_snapshot safe_number
  targets ← targets_at rpc.rounds safe_number feeds
  ok (record {
    observed_head = latest.number;
    confirmation_depth = confirmation_depth;
    block = safe_block;
    targets = targets;
  })

pub record ChainlinkForwardPlan : Type 0 where
  pub committed_block : ℤ
  pub snapshot : FrozenChainlinkSnapshot
  pub ranges : List FeedRoundRange

abbrev pub is_noop : ChainlinkForwardPlan → Bool
is_noop plan = leb_ℤ plan.snapshot.block.number plan.committed_block

-- `ChainlinkForwardPlan.round_count`, of the ranges from the first to the last.
unfoldable pub round_count : List FeedRoundRange → Result ℤ
round_count [] = ok (pos 0)
round_count (item ∷ items) = do
  end ← split_proxy_round_id item.end_round_id
  start ← split_proxy_round_id item.start_round_id
  rest ← round_count items
  ok (end.1 -ℤ start.1 +ℤ pos 1 +ℤ rest)

-- `values[identity] = value`: in the place of the key, or at the end.
unfoldable pub set_item : {T : Type 0} → WatermarkIdentity → T → IdentityMap T → IdentityMap T
set_item identity value [] = (identity, value) ∷ []
set_item identity value ((key, old) ∷ items) =
    let rest = set_item identity value items in
    if same_identity key identity then (key, value) ∷ items else (key, old) ∷ rest

unfoldable pub set_targets : List FeedTarget → IdentityMap ℤ → Result (IdentityMap ℤ)
set_targets [] values = ok values
set_targets (target ∷ targets) values = do
  identity ← target_identity target
  set_targets targets (set_item identity target.round.round_id values)

-- `ChainlinkForwardPlan.candidates`
unfoldable pub candidates : ChainlinkForwardPlan → Result (IdentityMap ℤ)
candidates plan = do
  values ← set_targets plan.snapshot.targets []
  ok (set_item chainlink_forward_watermark plan.snapshot.block.number values)

unfoldable pub target_identities : List FeedTarget → Result (List WatermarkIdentity)
target_identities [] = ok []
target_identities (target ∷ targets) = do
  identity ← target_identity target
  rest ← target_identities targets
  ok (identity ∷ rest)

-- The ranges of the feeds, each from its own cursor.
unfoldable pub target_ranges :
    ChainlinkRpc → IdentityMap WatermarkState → List FeedTarget → Result (List FeedRoundRange)
target_ranges rpc states [] = ok []
target_ranges rpc states (target ∷ targets) = do
  identity ← target_identity target
  state ← lookup states identity
  here ← ranges_after_cursor rpc target state.committed_value
  rest ← target_ranges rpc states targets
  ok (here ++ rest)

unfoldable pub plan_chainlink_forward :
    ChainlinkRpc
    → FrozenChainlinkSnapshot
    → IdentityMap WatermarkState
    → ℤ
    → Result ChainlinkForwardPlan
plan_chainlink_forward rpc snapshot states max_rounds = do
  raise_if (leb_ℤ max_rounds (pos 0)) value_error
  identities ← target_identities snapshot.targets
  raise_if (not (same_keys (keys states) (chainlink_forward_watermark ∷ identities))) value_error
  global ← lookup states chainlink_forward_watermark
  raise_if (ltb_ℤ snapshot.block.number global.committed_value) value_error
  ranges ← target_ranges rpc states snapshot.targets
  count ← round_count ranges
  raise_if (ltb_ℤ max_rounds count) value_error
  ok (record { committed_block = global.committed_value; snapshot = snapshot; ranges = ranges })

-- A value that has been computed, or a raise.
abbrev pub value_of : {W A : Type 0} → Result A → Exec W A
value_of result w = (result, w)

module _ {W T : Type 0} (store : AtomicWatermarkStore W) where
  -- `run_commit_last_pipeline`
  unfoldable pub run_commit_last_pipeline :
      (W → W)
      → IdentityMap WatermarkState
      → ChainlinkForwardPlan
      → Text
      → (ChainlinkForwardPlan → Exec W T)
      → (T → Exec W (Unit {0}))
      → Exec W (Unit {0})
      → Exec W (Unit {0})
      → Exec W (List WatermarkState)
  run_commit_last_pipeline between current_states plan successful_run_id persist_source build_silver
        load_snowflake run_dbt_and_quality w =
      if is_noop plan
      then (ok (map (λ item. item.1) current_states), w)
      else and_then (persist_source plan)
          (λ source_result. and_then (build_silver source_result) (λ _.
            and_then load_snowflake (λ _. and_then run_dbt_and_quality (λ _.
              and_then (value_of (candidates plan)) (λ values.
                commit_watermarks_atomically store between current_states values successful_run_id
                  true ProcessingMode.forward)))))
          w
