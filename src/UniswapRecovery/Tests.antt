-- ===== src/UniswapRecovery/Tests.antt =====
-- The source contract at concrete inputs.
use real_time_blockchain_ana.Prelude.{◌≡◌, ◌≢◌, ◌⊎◌, refl, ◌++◌, ok, err, source_contract_changed}
use real_time_blockchain_ana.Prelude.Int.{pos}
use real_time_blockchain_ana.Python.Text.{Text, codes, strip, lstrip, is_space}
use real_time_blockchain_ana.Python.Time.{aware}
use real_time_blockchain_ana.Watermark.{WatermarkState}
use real_time_blockchain_ana.UniswapRecovery.{
  normalized, any_not_hex, check_fingerprint, check_tags, contract_suffix, source_contract_run_id,
  assert_source_contract_matches, uniswap_forward_watermark,
}
use real_time_blockchain_ana.UniswapRecovery.SourceContract.{assert_source_contract_lem}

abbrev accepted_print : Text
accepted_print = codes "00112233445566778899aabbccddeeff00112233445566778899aabbccddeeff"

abbrev changed_print : Text
changed_print = codes "10112233445566778899AABBCCDDEEFF00112233445566778899aabbccddeeff"

abbrev committed : WatermarkState
committed = record {
  identity = uniswap_forward_watermark;
  committed_value = pos 7;
  successful_run_id = codes "r1" ++ contract_suffix (codes "v1") accepted_print;
  updated_at = aware 5;
}

committed_tagged :
    source_contract_run_id (codes "r1 ") accepted_print (codes "v1")
    ≡ ok committed.successful_run_id
unfolding source_contract_run_id check_fingerprint check_tags normalized any_not_hex strip lstrip
    is_space
committed_tagged = refl

changed_valid : check_fingerprint (normalized changed_print) ≡ ok tt
unfolding check_fingerprint normalized any_not_hex strip lstrip is_space
changed_valid = refl

assert_source_contract_lem_example :
    ((normalized changed_print ≡ normalized accepted_print)
      × (assert_source_contract_matches committed changed_print (codes "v1") ≡ ok tt))
    ⊎ ((normalized changed_print ≢ normalized accepted_print)
        × (assert_source_contract_matches committed changed_print (codes "v1")
            ≡ err source_contract_changed))
assert_source_contract_lem_example =
    assert_source_contract_lem committed (codes "r1 ") accepted_print changed_print (codes "v1")
      committed_tagged changed_valid
