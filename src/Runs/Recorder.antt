-- ===== src/Runs/Recorder.antt =====
-- `BestEffortRunRecorder` of orchestration/observability.py over any store, also one that always
-- fails.
use real_time_blockchain_ana.Prelude.{
  ℕ, ◌≡◌, refl, sym, inl, inr, Bool, true, false, Option, none, some, ◌∷◌, run_state_conflict,
  Result, ok, err, arith, Result-cases, subst,
}
use real_time_blockchain_ana.Prelude.Int.{ℤ, pos, ◌≤ℤ◌, ltb_ℤ, max_ℤ, max_ℤ_parts}
use real_time_blockchain_ana.Python.Text.{Text}
use real_time_blockchain_ana.Python.Time.{Instant, aware}
use real_time_blockchain_ana.Runs.{
  RunStatus, running, succeeded, failed, no_op, skipped, is_running, RunType, ErrorStage,
  RunIdentity, RunMetrics, PipelineRunRecord, pipeline_run_record, end_checks, terminal_record,
  fresh_run, PipelineRunStore, BestEffortRunRecorder, attempt, recorder, stage_of, finish,
}

-- A status that a run can end with, and the class of the error: one that is not empty for a
-- failure, and none for the others.
abbrev pub Fits : RunStatus → Option Text → Type 0
Fits running error_class = ⊥
Fits failed error_class = (c : ℕ) × (name : Text) × (error_class ≡ some (c ∷ name))
Fits _ error_class = error_class ≡ none

-- The terminal record of the run.
abbrev pub ended :
    PipelineRunRecord
    → RunStatus
    → RunMetrics
    → Instant
    → ℤ
    → Option ErrorStage
    → Option Text
    → PipelineRunRecord
ended run status metrics finished_at duration error_stage error_class = record run {
  status = status;
  finished_at = some (aware finished_at);
  duration_seconds = some duration;
  metrics = metrics;
  error_stage = error_stage;
  error_class = error_class;
}

ended-valid :
    (run : PipelineRunRecord) (t : Instant) (status : RunStatus) (metrics : RunMetrics)
    (now : Instant) (d : ℤ) (stage : ErrorStage) (error_class : Option Text)
    → run.started_at ≡ aware t
    → pos 0 ≤ℤ d
    → Fits status error_class
    → pipeline_run_record (ended run status metrics now d (stage_of status stage) error_class)
      ≡ ok (ended run status metrics now d (stage_of status stage) error_class)
unfolding pipeline_run_record end_checks
ended-valid run t running metrics now d stage c e n f = absurd f
ended-valid run t succeeded metrics now d stage c e n f =
    let ahead : ltb_ℤ d (pos 0) ≡ false = ground arith in rw (e, f, ahead) refl
ended-valid run t failed metrics now d stage c e n (k, name, f) =
    let ahead : ltb_ℤ d (pos 0) ≡ false = ground arith in rw (e, f, ahead) refl
ended-valid run t no_op metrics now d stage c e n f =
    let ahead : ltb_ℤ d (pos 0) ≡ false = ground arith in rw (e, f, ahead) refl
ended-valid run t skipped metrics now d stage c e n f =
    let ahead : ltb_ℤ d (pos 0) ≡ false = ground arith in rw (e, f, ahead) refl

Fits-ends :
    (status : RunStatus) (error_class : Option Text)
    → Fits status error_class
    → is_running status ≡ false
Fits-ends running c f = absurd f
Fits-ends succeeded c f = refl
Fits-ends failed c f = refl
Fits-ends no_op c f = refl
Fits-ends skipped c f = refl

terminal_record-ended :
    (run : PipelineRunRecord) (identity : RunIdentity) (run_type : RunType) (t : Instant)
    (status : RunStatus) (metrics : RunMetrics) (now : Instant) (d : ℤ) (stage : ErrorStage)
    (error_class : Option Text)
    → run ≡ fresh_run identity run_type (aware t)
    → pos 0 ≤ℤ d
    → Fits status error_class
    → terminal_record run status metrics now d (stage_of status stage) error_class
      ≡ ok (
          ended
            (fresh_run identity run_type (aware t))
            status
            metrics
            now
            d
            (stage_of status stage)
            error_class)
unfolding terminal_record
terminal_record-ended run identity run_type t status metrics now d stage c own n f =
    let may_end : is_running status ≡ false = Fits-ends status c f in
    let fresh = fresh_run identity run_type (aware t) in
    subst
      (λ r.
        terminal_record r status metrics now d (stage_of status stage) c
        ≡ ok (ended fresh status metrics now d (stage_of status stage) c))
      (sym own)
      (rw (may_end, terminal_record) (ended-valid fresh t status metrics now d stage c refl n f))

module _ {S : Type 0} (store : PipelineRunStore S) where
  attempt-keeps :
      (P : BestEffortRunRecorder → Type 0)
      (call : PipelineRunRecord → S → Result PipelineRunRecord × S) (r : PipelineRunRecord)
      (enabled : Bool) (before : BestEffortRunRecorder) (s : S)
      → P before
      → P (record before { enabled = false })
      → P (attempt store call r enabled before s).0
  attempt-keeps P call r false before s p q = p
  attempt-keeps P call r true before s p q = elim (Result-cases (call r s).0) [
    | inl (a, e) ↦ rw (e, attempt) p
    | inr (why, e) ↦ rw (e, attempt) q
  ]

  -- A recorder that has been made and not finished.
  abbrev pub Started : RunIdentity → RunType → Instant → ℤ → BestEffortRunRecorder → Type 0
  Started identity run_type t tick before =
      (before.finished ≡ false)
      × (before.started_tick ≡ tick)
      × (before.run ≡ fresh_run identity run_type (aware t))

  recorder-Started :
      (enabled : Bool) (identity : RunIdentity) (run_type : RunType) (t : Instant) (tick : ℤ)
      (s : S)
      → (before : BestEffortRunRecorder) × ((recorder store enabled identity run_type
            (aware t)
            tick
            s).0
          ≡ ok before)
        × Started identity run_type t tick before
  unfolding recorder pipeline_run_record end_checks
  recorder-Started enabled identity run_type t tick s = (
    _,
    refl,
    attempt-keeps (Started identity run_type t tick) (store.start) _ enabled _ s (refl, refl, refl)
        (refl, refl, refl),
  )

module _ {S : Type 0} (store : PipelineRunStore S) (subtract : ℤ → ℤ → ℤ) where
  finished-refuses :
      (now : Instant) (tick : ℤ) (status : RunStatus) (metrics : RunMetrics)
      (error_class : Option Text) (before : BestEffortRunRecorder) (s : S)
      → before.finished ≡ true
      → finish store subtract now tick status metrics error_class before s
        ≡ (err run_state_conflict, before, s)
  unfolding finish
  finished-refuses now tick status metrics error_class before s h = rw h refl

  -- The duration of a run that started at a timer's reading.
  abbrev pub elapsed : ℤ → ℤ → ℤ
  elapsed tick started_tick = max_ℤ (pos 0) (subtract tick started_tick)

  finish-attempt :
      (identity : RunIdentity) (run_type : RunType) (t : Instant) (started_tick : ℤ)
      (before : BestEffortRunRecorder) (u : S) (now : Instant) (tick : ℤ) (status : RunStatus)
      (metrics : RunMetrics) (error_class : Option Text)
      → Started store identity run_type t started_tick before
      → Fits status error_class
      → (let terminal : PipelineRunRecord =
            ended
              (fresh_run identity run_type (aware t))
              status
              metrics
              now
              (elapsed tick started_tick)
              (stage_of status before.stage)
              error_class in
          let (after, s') =
            attempt store
              (store.finish)
              terminal
              before.enabled
              (record before { finished = true })
              u in
          finish store subtract now tick status metrics error_class before u
          ≡ (ok terminal, after, s'))
  unfolding finish
  finish-attempt identity run_type t started_tick before u now tick status metrics error_class
        (open_, ticked, own) fits =
      rw
        (
          open_,
          terminal_record-ended before.run identity run_type t status metrics now
              (max_ℤ (pos 0) (subtract tick before.started_tick)) before.stage error_class own
              (max_ℤ_parts (pos 0) (subtract tick before.started_tick)).0 fits,
          ticked,
        )
        refl

  -- A recorder can be made and finished whatever its store does, and however the subtraction of
  -- timer readings rounds. For an aware time of start, a status other than RUNNING, and an error
  -- class that is not empty for a failure and absent for the others, `finish` returns the run's
  -- record with that status, and it is one that the record's own checks accept. Every further
  -- `finish` of the recorder is refused and does not call the store.
  pub finish-ended :
      (enabled : Bool) (identity : RunIdentity) (run_type : RunType) (t : Instant)
      (started_tick : ℤ) (s u : S) (now : Instant) (tick : ℤ) (status : RunStatus)
      (metrics : RunMetrics) (error_class : Option Text)
      → Fits status error_class
      → (before after : BestEffortRunRecorder) × (s' : S) × (terminal : PipelineRunRecord)
        × ((recorder store enabled identity run_type (aware t) started_tick s).0 ≡ ok before)
        × (finish store subtract now tick status metrics error_class before u
            ≡ (ok terminal, after, s'))
        × (terminal
            ≡ ended
                (fresh_run identity run_type (aware t))
                status
                metrics
                now
                (elapsed tick started_tick)
                (stage_of status before.stage)
                error_class)
        × (pipeline_run_record terminal ≡ ok terminal)
        × ((now' : Instant) (tick' : ℤ) (status' : RunStatus) (metrics' : RunMetrics)
              (class' : Option Text) (v : S)
            → finish store subtract now' tick' status' metrics' class' after v
              ≡ (err run_state_conflict, after, v))
  unfolding finish
  finish-ended enabled identity run_type t started_tick s u now tick status metrics error_class
        fits =
      let (before, made, (open_, ticked, own)) =
        recorder-Started store enabled identity run_type t started_tick s in
      let terminal =
        ended (fresh_run identity run_type (aware t)) status metrics now (elapsed tick started_tick)
          (stage_of status before.stage) error_class in
      let done : BestEffortRunRecorder = record before { finished = true } in
      let (after, s') = attempt store (store.finish) terminal before.enabled done u in
      let shut : after.finished ≡ true =
        attempt-keeps store (λ r. r.finished ≡ true) (store.finish) terminal before.enabled done u
          refl refl in
      let nonnegative = max_ℤ_parts (pos 0) (subtract tick started_tick) in
      (
        before,
        after,
        s',
        terminal,
        made,
        finish-attempt identity run_type t started_tick before u now tick status metrics error_class
            (open_, ticked, own) fits,
        refl,
        ended-valid (fresh_run identity run_type (aware t)) t status metrics now
            (elapsed tick started_tick) before.stage error_class refl nonnegative.0 fits,
        λ now' tick' status' metrics' class' v.
            finished-refuses now' tick' status' metrics' class' after v shut,
      )
