-- ===== src/Chainlink/Tests.antt =====
-- Runs of the Chainlink planners: a feed whose cursor is round 5 of phase 1, whose phase 1 ended
-- with round 9, and whose latest round is round 3 of phase 2.
use real_time_blockchain_ana.Prelude.{
  Exec, ℕ, ◌≡◌, refl, ◌↔◌, inl, ◌⊎◌, [], ◌∷◌, List, ok, err, value_error, arith, ◌^◌, ℕ_discrete,
}
use real_time_blockchain_ana.Prelude.Int.{ℤ, pos, ◌≤ℤ◌, ◌<ℤ◌, ◌-ℤ◌, ◌+ℤ◌}
use real_time_blockchain_ana.Python.Text.{Text-discrete, strip, codes}
use real_time_blockchain_ana.Python.Time.{aware}
use real_time_blockchain_ana.Watermark.{WatermarkIdentity, WatermarkState, identity-discrete}
use real_time_blockchain_ana.Watermark.Atomic.{IdentityMap, lookup, chainlink_feed_watermark}
use real_time_blockchain_ana.Watermark.Atomic.Commit.{Distinct}
use real_time_blockchain_ana.SnowflakeWatermarks.{WatermarkTable}
use real_time_blockchain_ana.SnowflakeWatermarks.Many.{no_others, snowflake_atomic_store}
use real_time_blockchain_ana.SnowflakeWatermarks.Many.Contract.{snowflake-IsAtomicWatermarkStore}
use real_time_blockchain_ana.AaveForward.Pipeline.{AllStages}
use real_time_blockchain_ana.Chainlink.Pipeline.CommitLast.{CommitsLast, chainlink-CommitsLast}
use real_time_blockchain_ana.Chainlink.{
  ChainlinkFeed, ChainlinkRound, ChainlinkRpc, FeedRoundRange, feed_round_range, phase_range,
  last_round, encode_proxy_round_id, split_proxy_round_id,
}
use real_time_blockchain_ana.Chainlink.Rounds.{InRange, IsRound, proxy_id, split-encode}
use real_time_blockchain_ana.Chainlink.Forward.{
  nonempty_range, round_after, cursor_phases, FeedTarget, ranges_after_cursor,
}
use real_time_blockchain_ana.Chainlink.Forward.Phases.{Planned, PlannedFor}
use real_time_blockchain_ana.Chainlink.Forward.Cursor.{IsDue, ranges_after_cursor-IsDue}
use real_time_blockchain_ana.Chainlink.Pipeline.{
  FrozenChainlinkSnapshot, ChainlinkForwardPlan, chainlink_forward_watermark,
  plan_chainlink_forward, run_commit_last_pipeline, round_count, target_identities, target_ranges,
}
use real_time_blockchain_ana.Chainlink.Pipeline.Coverage.{Answered, plan_chainlink_forward-covers}

abbrev feed : ChainlinkFeed
feed = record {
  name = codes "ETH / USD";
  feed_address = codes "0xFEED";
  base_asset = codes "ETH";
  quote_asset = codes "USD";
  chain = codes "arbitrum";
}

abbrev round_2_3 : ChainlinkRound
round_2_3 = record { round_id = proxy_id 2 3; answer_raw = pos 7; updated_at = codes "t" }

abbrev rpc : ChainlinkRpc
rpc = record {
  get_round_at_block = λ address block. ok round_2_3;
  get_phase_latest_round = λ address phase. ok (pos 9);
}

abbrev target : FeedTarget
target = record { feed = feed; round = round_2_3 }

split-encode_example :
    (InRange (pos 3) (pos 12)
      × ((id : ℤ) × (encode_proxy_round_id (pos 3) (pos 12) ≡ ok id)
          × (pos 0 <ℤ id)
          × (id <ℤ pos (2 ^ 80))
          × (split_proxy_round_id id ≡ ok (pos 3, pos 12))))
    ⊎ ((¬ InRange (pos 3) (pos 12)) × (encode_proxy_round_id (pos 3) (pos 12) ≡ err value_error))
split-encode_example = split-encode (pos 3) (pos 12)

-- A phase of 17 bits is refused.
encode_refuses_wide : encode_proxy_round_id (pos 65536) (pos 1) ≡ err value_error
unfolding encode_proxy_round_id
encode_refuses_wide = refl

encodes : encode_proxy_round_id (pos 1) (pos 5) ≡ ok (pos 18446744073709551621)
unfolding encode_proxy_round_id
encodes = refl

ranges_after_cursor-IsDue_example :
    (ranges : List FeedRoundRange) × (ranges_after_cursor rpc target (proxy_id 1 5) ≡ ok ranges)
    × ((q a : ℕ) → IsRound q a → Planned ranges q a ↔ IsDue 1 5 2 3 (λ q. 9) q a)
ranges_after_cursor-IsDue_example =
    ranges_after_cursor-IsDue rpc target 1 5 2 3 (λ q. 9)
      (omega arith, omega arith, omega arith, omega arith)
      (omega arith, omega arith, omega arith, omega arith) refl (omega arith) (λ q h k. refl)
      (λ q. omega arith)

abbrev cursor_range : ℕ → ℕ → ℕ → FeedRoundRange
cursor_range p first last = record {
  feed = feed;
  phase_id = pos p;
  start_round_id = proxy_id p first;
  end_round_id = proxy_id p last;
}

abbrev feed_identity : WatermarkIdentity
feed_identity = record {
  pipeline_name = codes "chainlink_forward";
  source_name = codes "0xfeed";
  chain_id = pos 42161;
  watermark_type = codes "round_id";
}

abbrev cursor_state : WatermarkIdentity → ℤ → WatermarkState
cursor_state identity value = record {
  identity = identity;
  committed_value = value;
  successful_run_id = codes "run";
  updated_at = aware 1;
}

abbrev states : IdentityMap WatermarkState
states =
    (chainlink_forward_watermark, cursor_state chainlink_forward_watermark (pos 100))
    ∷ (feed_identity, cursor_state feed_identity (proxy_id 1 5))
    ∷ []

abbrev snapshot : FrozenChainlinkSnapshot
snapshot = record {
  observed_head = pos 130;
  confirmation_depth = pos 10;
  block = record { number = pos 120; timestamp = codes "t" };
  targets = target ∷ [];
}

-- Rounds 6 to 9 of phase 1, then rounds 1 to 3 of phase 2.
abbrev plan : ChainlinkForwardPlan
plan = record {
  committed_block = pos 100;
  snapshot = snapshot;
  ranges = cursor_range 1 6 9 ∷ cursor_range 2 1 3 ∷ [];
}

plans : plan_chainlink_forward rpc snapshot states (pos 7) ≡ ok plan
unfolding plan_chainlink_forward target_identities chainlink_feed_watermark strip identity-discrete
    Text-discrete ℕ_discrete lookup target_ranges ranges_after_cursor split_proxy_round_id
    cursor_phases ◌-ℤ◌ ◌+ℤ◌ last_round nonempty_range round_after phase_range round_count
    encode_proxy_round_id feed_round_range
plans = refl

plan_limit : plan_chainlink_forward rpc snapshot states (pos 6) ≡ err value_error
unfolding plan_chainlink_forward target_identities chainlink_feed_watermark strip identity-discrete
    Text-discrete ℕ_discrete lookup target_ranges ranges_after_cursor split_proxy_round_id
    cursor_phases ◌-ℤ◌ ◌+ℤ◌ last_round nonempty_range round_after phase_range round_count
    encode_proxy_round_id feed_round_range
plan_limit = refl

answered : Answered rpc states target 1 5 2 3 (λ q. 9)
unfolding chainlink_feed_watermark lookup strip identity-discrete Text-discrete ℕ_discrete
answered = (
  (omega arith, omega arith, omega arith, omega arith),
  (omega arith, omega arith, omega arith, omega arith),
  refl,
  omega arith,
  (λ q h k. refl),
  (λ q. omega arith),
  (feed_identity, cursor_state feed_identity (proxy_id 1 5), refl, refl, refl),
)

plan_chainlink_forward-covers_example :
    (plan.snapshot ≡ snapshot)
    × (plan.committed_block ≤ℤ snapshot.block.number)
    × ((count : ℤ) × (round_count plan.ranges ≡ ok count) × (count ≤ℤ pos 7))
    × PlannedFor target.feed plan.ranges 1 9
plan_chainlink_forward-covers_example =
    plan_chainlink_forward-covers rpc snapshot states (pos 7) plan target 1 5 2 3 (λ q. 9) 1 9 plans
      (inl refl) answered (omega arith, omega arith, omega arith, omega arith)
      (omega arith, omega arith, λ h. omega arith)

abbrev watermarks : WatermarkTable
watermarks =
    cursor_state chainlink_forward_watermark (pos 100)
    ∷ cursor_state feed_identity (proxy_id 1 5)
    ∷ []

states-Distinct : Distinct states
states-Distinct = (((λ e. cc), tt), (tt, tt))

abbrev stage : Exec WatermarkTable (Unit {0})
stage w = (ok tt, w)

chainlink-CommitsLast_example :
    CommitsLast
      (snowflake_atomic_store (aware 9) no_others)
      states
      plan
      (AllStages (λ p. stage) (λ t. stage) stage stage plan watermarks)
      watermarks
      (run_commit_last_pipeline
        (snowflake_atomic_store (aware 9) no_others)
        (λ w. w)
        states
        plan
        (codes "r2")
        (λ p. stage)
        (λ t. stage)
        stage
        stage
        watermarks)
chainlink-CommitsLast_example =
    chainlink-CommitsLast (snowflake_atomic_store (aware 9) no_others)
      (snowflake-IsAtomicWatermarkStore (aware 9)) (λ w. w) (λ p. stage) (λ t. stage) stage stage
      (λ w i. refl) (λ p w i. refl) (λ t w i. refl) (λ w i. refl) (λ w i. refl) states plan
      (codes "r2") watermarks states-Distinct
