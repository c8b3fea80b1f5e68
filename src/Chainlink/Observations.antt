-- ===== src/Chainlink/Observations.antt =====
-- backfill/chainlink.py: `merge_observations`, of the observations of market_data/models.py.
pub mod Merge
mod Tests
use real_time_blockchain_ana.Prelude.{
  Bool, true, false, ◌&&◌, List, [], ◌∷◌, ◌++◌, value_error, Result, ok, err, ◌>>=◌, if◌then◌else◌,
}
use real_time_blockchain_ana.Prelude.Int.{ℤ, eqb_ℤ}
use real_time_blockchain_ana.Python.Text.{Text, text_eq, text_lt, lower}
use real_time_blockchain_ana.Python.Sort.{sorted}

pub record MarketDataObservation : Type 0 where
  pub observation_id : Text
  pub protocol : Text
  pub event_type : Text
  pub chain : Text
  pub feed_address : Text
  pub base_asset : Text
  pub quote_asset : Text
  pub round_id : Text
  pub answer_raw : Text
  pub feed_decimals : ℤ
  pub feed_updated_at : Text
  pub observed_at : Text
  pub block_number : ℤ
  pub block_timestamp : Text
  pub ingested_at : Text
  pub producer_version : Text
  pub schema_version : Text

-- `comparable == current_comparable`
unfoldable pub same_data : MarketDataObservation → MarketDataObservation → Bool
same_data a b =
    text_eq a.protocol b.protocol
    && (text_eq a.event_type b.event_type
        && (text_eq a.chain b.chain
            && (text_eq (lower a.feed_address) (lower b.feed_address)
                && (text_eq a.base_asset b.base_asset
                    && (text_eq a.quote_asset b.quote_asset
                        && (text_eq a.round_id b.round_id
                            && (text_eq a.answer_raw b.answer_raw
                                && (eqb_ℤ a.feed_decimals b.feed_decimals
                                    && text_eq a.feed_updated_at b.feed_updated_at))))))))

-- One turn of the loop. The dict `merged`, whose keys are the ids of its values, is the list of
-- these.
unfoldable pub put :
    MarketDataObservation → List MarketDataObservation → Result (List MarketDataObservation)
put observation [] = ok (observation ∷ [])
put observation (current ∷ merged) =
    let rest = put observation merged in
    if text_eq current.observation_id observation.observation_id
    then (if same_data observation current then ok (current ∷ merged) else err value_error)
    else (rest >>= λ later. ok (current ∷ later))

unfoldable pub put_all :
    List MarketDataObservation → List MarketDataObservation → Result (List MarketDataObservation)
put_all [] merged = ok merged
put_all (observation ∷ observations) merged = put observation merged >>= put_all observations

abbrev pub id_lt : MarketDataObservation → MarketDataObservation → Bool
id_lt a b = text_lt a.observation_id b.observation_id

unfoldable pub merge_observations :
    List MarketDataObservation → List MarketDataObservation → Result (List MarketDataObservation)
merge_observations existing discovered =
    put_all (existing ++ discovered) [] >>= λ merged. ok (sorted id_lt merged)
