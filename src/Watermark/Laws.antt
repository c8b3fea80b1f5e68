-- ===== src/Watermark/Laws.antt =====
-- What a store promises: the contract that `WatermarkStore` of orchestration/watermark.py states.
use real_time_blockchain_ana.Prelude.{◌≡◌, ◌≢◌, Option, none, some, Result, ok, err}
use real_time_blockchain_ana.Prelude.Int.{ℤ, ◌<ℤ◌}
use real_time_blockchain_ana.Python.Text.{Text}
use real_time_blockchain_ana.Watermark.{WatermarkIdentity, WatermarkState, WatermarkStore}

module _ {S : Type 0} (store : WatermarkStore S) where
  open store use {get, initialize, advance}

  -- What a write did to the key `i`: it failed and left the database alone, or it stored the state
  -- that it returned, and no other key changed.
  abbrev pub Wrote : WatermarkIdentity → S → Result WatermarkState × S → Type 0
  Wrote i s (err _, s') = s' ≡ s
  Wrote i s (ok w, s') =
      (w.identity ≡ i)
      × (get i s' ≡ ok (some w))
      × ((j : WatermarkIdentity) → j ≢ i → get j s' ≡ get j s)

  -- The laws hold where the key can be read, that is, where it has no duplicate rows. `advance` is
  -- a compare-and-set that only moves forward: it stores the candidate exactly where the committed
  -- value is the expected one and is below it.
  pub record IsWatermarkStore : Type 0 where
    pub advance-Wrote :
        (i : WatermarkIdentity) (expected candidate : ℤ) (run : Text) (s : S)
        (before : Option WatermarkState)
        → get i s ≡ ok before
        → Wrote i s (advance i expected candidate run s)
    pub advance_ok :
        (i : WatermarkIdentity) (expected candidate : ℤ) (run : Text) (s : S)
        (before : Option WatermarkState) (w : WatermarkState)
        → get i s ≡ ok before
        → (advance i expected candidate run s).0 ≡ ok w
        → (w.committed_value ≡ candidate)
          × (w.successful_run_id ≡ run)
          × (expected <ℤ candidate)
          × ((old : WatermarkState) × (before ≡ some old) × (old.committed_value ≡ expected))
    pub advance_total :
        (i : WatermarkIdentity) (expected candidate : ℤ) (run : Text) (s : S) (old : WatermarkState)
        → get i s ≡ ok (some old)
        → old.committed_value ≡ expected
        → expected <ℤ candidate
        → (w : WatermarkState) × ((advance i expected candidate run s).0 ≡ ok w)
    pub initialize-Wrote :
        (i : WatermarkIdentity) (value : ℤ) (run : Text) (s : S) (before : Option WatermarkState)
        → get i s ≡ ok before
        → Wrote i s (initialize i value run s)
    pub initialize_ok :
        (i : WatermarkIdentity) (value : ℤ) (run : Text) (s : S) (before : Option WatermarkState)
        (w : WatermarkState)
        → get i s ≡ ok before
        → (initialize i value run s).0 ≡ ok w
        → (w.committed_value ≡ value) × (w.successful_run_id ≡ run) × (before ≡ none)
    pub initialize_total :
        (i : WatermarkIdentity) (value : ℤ) (run : Text) (s : S)
        → get i s ≡ ok none
        → (w : WatermarkState) × ((initialize i value run s).0 ≡ ok w)
