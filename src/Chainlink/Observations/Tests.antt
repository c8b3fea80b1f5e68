-- ===== src/Chainlink/Observations/Tests.antt =====
-- Runs of the merge of observations.
use real_time_blockchain_ana.Prelude.{◌≡◌, refl, [], ◌∷◌, ok, err, value_error, ℕ_discrete}
use real_time_blockchain_ana.Prelude.Int.{pos}
use real_time_blockchain_ana.Prelude.Lists.{All, Any}
use real_time_blockchain_ana.Python.Text.{Text, codes, text_lt, Text-discrete}
use real_time_blockchain_ana.Python.Sort.{sorted, insert}
use real_time_blockchain_ana.Chainlink.Observations.{
  MarketDataObservation, same_data, put, put_all, merge_observations,
}
use real_time_blockchain_ana.Chainlink.Observations.Merge.{
  Represents, DistinctIds, merge_observations-Represents,
}

-- An observation by its id, its answer and the time of its poll.
abbrev observed : Text → Text → Text → MarketDataObservation
observed id answer time = record {
  observation_id = id;
  protocol = codes "chainlink";
  event_type = codes "price_update";
  chain = codes "arbitrum";
  feed_address = codes "0xA";
  base_asset = codes "ETH";
  quote_asset = codes "USD";
  round_id = id;
  answer_raw = answer;
  feed_decimals = pos 8;
  feed_updated_at = codes "t";
  observed_at = time;
  block_number = pos 1;
  block_timestamp = codes "t";
  ingested_at = time;
  producer_version = codes "1";
  schema_version = codes "1";
}

-- The same data at another time is one observation, and the first one is kept.
merges :
    merge_observations (observed (codes "b") (codes "7") (codes "x") ∷ []) (
      observed (codes "a") (codes "5") (codes "x")
      ∷ observed (codes "b") (codes "7") (codes "y")
      ∷ [])
    ≡ ok (
        observed (codes "a") (codes "5") (codes "x")
        ∷ observed (codes "b") (codes "7") (codes "x")
        ∷ [])
unfolding merge_observations put_all put same_data sorted insert text_lt Text-discrete ℕ_discrete
merges = refl

conflicts :
    merge_observations
      (observed (codes "b") (codes "7") (codes "x") ∷ [])
      (observed (codes "b") (codes "8") (codes "x") ∷ [])
    ≡ err value_error
unfolding merge_observations put_all put same_data Text-discrete ℕ_discrete
conflicts = refl

merge_observations-Represents_example :
    All
      (λ o. Any (Represents o) (
        observed (codes "a") (codes "5") (codes "x")
        ∷ observed (codes "b") (codes "7") (codes "x")
        ∷ []))
      (observed (codes "b") (codes "7") (codes "x")
        ∷ observed (codes "a") (codes "5") (codes "x")
        ∷ observed (codes "b") (codes "7") (codes "y")
        ∷ [])
    × All
        (λ c.
          Any
            (λ o. o ≡ c)
            (observed (codes "b") (codes "7") (codes "x")
              ∷ observed (codes "a") (codes "5") (codes "x")
              ∷ observed (codes "b") (codes "7") (codes "y")
              ∷ []))
        (observed (codes "a") (codes "5") (codes "x")
          ∷ observed (codes "b") (codes "7") (codes "x")
          ∷ [])
    × DistinctIds (
        observed (codes "a") (codes "5") (codes "x")
        ∷ observed (codes "b") (codes "7") (codes "x")
        ∷ [])
merge_observations-Represents_example =
    merge_observations-Represents (observed (codes "b") (codes "7") (codes "x") ∷ [])
      (observed (codes "a") (codes "5") (codes "x")
        ∷ observed (codes "b") (codes "7") (codes "y")
        ∷ [])
      (observed (codes "a") (codes "5") (codes "x")
        ∷ observed (codes "b") (codes "7") (codes "x")
        ∷ [])
      merges
