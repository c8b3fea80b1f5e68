-- ===== src/SnowflakeWatermarks/Many/Tests.antt =====
-- Runs of `advance_many` on a table of two watermarks.
use real_time_blockchain_ana.Prelude.{◌≡◌, refl, [], ◌∷◌, ok, err, commit_conflict, ℕ_discrete}
use real_time_blockchain_ana.Prelude.Lists.{All}
use real_time_blockchain_ana.Prelude.Int.{ℤ, pos}
use real_time_blockchain_ana.Python.Text.{codes, text_lt, Text-discrete}
use real_time_blockchain_ana.Python.Time.{aware}
use real_time_blockchain_ana.Python.Sort.{sorted, insert}
use real_time_blockchain_ana.Sql.{select_where, update_where, rows_where}
use real_time_blockchain_ana.Watermark.{WatermarkIdentity, identity-discrete}
use real_time_blockchain_ana.Watermark.Atomic.{IdentityMap, lookup, identity_lt}
use real_time_blockchain_ana.SnowflakeWatermarks.{get, WatermarkTable, state_of}
use real_time_blockchain_ana.SnowflakeWatermarks.Many.{
  OtherSessions, no_others, advance_many, advance_statements, read_prior, update_row, update_rows,
  result_states,
}
use real_time_blockchain_ana.Watermark.Atomic.Commit.{Distinct}
use real_time_blockchain_ana.SnowflakeWatermarks.Many.AllOrNothing.{
  KeepsRow, AllOrNothing, advance_many-AllOrNothing,
}

abbrev feed : WatermarkIdentity
feed = record {
  pipeline_name = codes "c";
  source_name = codes "0x";
  chain_id = pos 42161;
  watermark_type = codes "r";
}

abbrev block : WatermarkIdentity
block = record {
  pipeline_name = codes "b";
  source_name = codes "feeds";
  chain_id = pos 42161;
  watermark_type = codes "n";
}

abbrev two_rows : WatermarkTable
two_rows =
    state_of feed (pos 7) (codes "r1") (aware 1)
    ∷ state_of block (pos 100) (codes "r1") (aware 1)
    ∷ []

abbrev expected : IdentityMap ℤ
expected = (feed, pos 7) ∷ (block, pos 100) ∷ []

abbrev wanted : IdentityMap ℤ
wanted = (feed, pos 7) ∷ (block, pos 120) ∷ []

expected-Distinct : Distinct expected
expected-Distinct = (((λ e. cc), tt), (tt, tt))

-- After its SELECT another session moves the feed on, which `wanted` leaves alone.
abbrev meanwhile : OtherSessions
meanwhile = record {
  at_select = λ i t. t;
  at_update = λ t.
      state_of feed (pos 8) (codes "r9") (aware 2)
      ∷ state_of block (pos 100) (codes "r1") (aware 1)
      ∷ [];
}

meanwhile-keeps : All (KeepsRow meanwhile two_rows) expected
unfolding get select_where identity-discrete Text-discrete ℕ_discrete
meanwhile-keeps = ((λ h. (_, refl)), ((λ h. (_, refl)), tt))

advance_many-AllOrNothing_example :
    AllOrNothing meanwhile two_rows expected wanted
      (advance_many (aware 9) (codes "r2") meanwhile expected wanted two_rows)
advance_many-AllOrNothing_example =
    advance_many-AllOrNothing (aware 9) (codes "r2") meanwhile expected wanted two_rows
      expected-Distinct meanwhile-keeps

-- The update of the block succeeds, and the state of the feed that comes back is the one before.
returns_stale : advance_many (aware 9) (codes "r2") meanwhile expected wanted two_rows ≡ (
  ok (
      state_of block (pos 120) (codes "r2") (aware 9)
      ∷ state_of feed (pos 7) (codes "r1") (aware 1)
      ∷ []),
  state_of feed (pos 8) (codes "r9") (aware 2)
      ∷ state_of block (pos 120) (codes "r2") (aware 9)
      ∷ [],
)
unfolding advance_many advance_statements read_prior update_row update_rows result_states sorted
    insert identity_lt text_lt select_where update_where rows_where lookup identity-discrete
    Text-discrete ℕ_discrete
returns_stale = refl

-- Another session that moves the block on makes the update fail, and its own commit stays.
abbrev overtaken : OtherSessions
overtaken = record {
  at_select = λ i t. t;
  at_update = λ t. state_of block (pos 110) (codes "r9") (aware 2) ∷ [];
}

refuses_overtaken :
    advance_many (aware 9) (codes "r2") overtaken expected wanted two_rows
    ≡ (err commit_conflict, state_of block (pos 110) (codes "r9") (aware 2) ∷ [])
unfolding advance_many advance_statements read_prior update_row update_rows result_states sorted
    insert identity_lt text_lt select_where update_where rows_where lookup identity-discrete
    Text-discrete ℕ_discrete
refuses_overtaken = refl

-- The states come back in the order of their keys; the feed keeps its row.
advances_both : advance_many (aware 9) (codes "r2") no_others expected wanted two_rows ≡ (
  ok (
      state_of block (pos 120) (codes "r2") (aware 9)
      ∷ state_of feed (pos 7) (codes "r1") (aware 1)
      ∷ []),
  state_of feed (pos 7) (codes "r1") (aware 1)
      ∷ state_of block (pos 120) (codes "r2") (aware 9)
      ∷ [],
)
unfolding advance_many advance_statements read_prior update_row update_rows result_states sorted
    insert identity_lt text_lt select_where update_where rows_where lookup identity-discrete
    Text-discrete ℕ_discrete
advances_both = refl

-- A candidate below its expected value rolls the other update back.
refuses_lower :
    advance_many
      (aware 9)
      (codes "r2")
      no_others
      expected
      ((feed, pos 6) ∷ (block, pos 120) ∷ [])
      two_rows
    ≡ (err commit_conflict, two_rows)
unfolding advance_many advance_statements read_prior update_row update_rows result_states sorted
    insert identity_lt text_lt select_where update_where rows_where lookup identity-discrete
    Text-discrete ℕ_discrete
refuses_lower = refl
