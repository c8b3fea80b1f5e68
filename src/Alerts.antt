-- ===== src/Alerts.antt =====
-- orchestration/alerts.py: the alert lifecycle, and its evaluation over a store.
pub mod Conditions
pub mod Lifecycle
pub mod Incidents
pub mod Evaluation
mod Tests
use real_time_blockchain_ana.Prelude.{
  ℕ, zero, suc, ◌+◌, Bool, true, false, not, ◌&&◌, ◌||◌, Option, none, some, List, [], ◌∷◌, ◌++◌,
  Error, value_error, assertion_error, alert_concurrency, Result, ok, err, ◌>>=◌, ◌>>◌, raise_if,
  Exec, if◌then◌else◌, leb, is_some,
}
use real_time_blockchain_ana.Prelude.Int.{ℤ, pos, ◌+ℤ◌, ltb_ℤ}
use real_time_blockchain_ana.Prelude.Lists.{length}
use real_time_blockchain_ana.Python.Text.{Text, text_eq, codes}
use real_time_blockchain_ana.Python.Time.{Instant, DateTime, as_utc}
use real_time_blockchain_ana.Freshness.{FreshnessState, fresh, stale}

pub data AlertState : Type 0 where
  is_open is_resolved : AlertState

pub data AlertSeverity : Type 0 where
  warning critical : AlertSeverity

pub data AlertEventType : Type 0 where
  alert_opened alert_escalated alert_resolved : AlertEventType

pub data AlertReasonCode : Type 0 where
  source_position_lag chainlink_feed_age warehouse_refresh_age mart_refresh_age pipeline_failure :
      AlertReasonCode

abbrev pub same_reason : AlertReasonCode → AlertReasonCode → Bool
same_reason source_position_lag source_position_lag = true
same_reason chainlink_feed_age chainlink_feed_age = true
same_reason warehouse_refresh_age warehouse_refresh_age = true
same_reason mart_refresh_age mart_refresh_age = true
same_reason pipeline_failure pipeline_failure = true
same_reason _ _ = false

pub record HealthCondition : Type 0 where
  pub alert_key : Text
  pub check_name : Text
  pub pipeline_name : Text
  pub reason_code : AlertReasonCode
  pub state : FreshnessState
  pub current_value : ℤ
  pub warning_threshold : ℤ
  pub stale_threshold : ℤ

pub record AlertRecord : Type 0 where
  pub alert_key : Text
  pub check_name : Text
  pub pipeline_name : Text
  pub reason_code : AlertReasonCode
  pub state : AlertState
  pub severity : Option AlertSeverity
  pub opened_at : Option Instant
  pub last_observed_at : Option Instant
  pub resolved_at : Option Instant
  pub incident_generation : ℤ
  pub occurrence_count : ℤ
  pub current_value : Option ℤ
  pub warning_threshold : Option ℤ
  pub stale_threshold : Option ℤ
  pub state_version : ℤ

pub record NotificationEvent : Type 0 where
  pub event_type : AlertEventType
  pub alert_key : Text
  pub pipeline_name : Text
  pub check_name : Text
  pub severity : AlertSeverity
  pub reason_code : AlertReasonCode
  pub current_value : ℤ
  pub warning_threshold : ℤ
  pub stale_threshold : ℤ
  pub opened_at : Instant
  pub resolved_at : Option Instant
  pub observed_at : Instant
  pub incident_generation : ℤ

pub record AlertDecision : Type 0 where
  pub next_record : AlertRecord
  pub event : Option NotificationEvent
  pub changed : Bool

-- `_severity`
unfoldable pub severity_of : FreshnessState → Result AlertSeverity
severity_of FreshnessState.warning = ok AlertSeverity.warning
severity_of stale = ok critical
severity_of fresh = err value_error

-- `assert value is not None`
abbrev pub asserted {ℓ} : {A : Type ℓ} → Option A → Result A
asserted none = err assertion_error
asserted (some a) = ok a

-- `_event`
unfoldable pub event_of : AlertEventType → AlertRecord → Instant → Result NotificationEvent
event_of event_type r observed_at = do
  severity ← asserted r.severity
  opened_at ← asserted r.opened_at
  current_value ← asserted r.current_value
  warning_threshold ← asserted r.warning_threshold
  stale_threshold ← asserted r.stale_threshold
  ok (record {
    event_type = event_type;
    alert_key = r.alert_key;
    pipeline_name = r.pipeline_name;
    check_name = r.check_name;
    severity = severity;
    reason_code = r.reason_code;
    current_value = current_value;
    warning_threshold = warning_threshold;
    stale_threshold = stale_threshold;
    opened_at = opened_at;
    resolved_at = r.resolved_at;
    observed_at = observed_at;
    incident_generation = r.incident_generation;
  })

-- The record of a decision to resolve the open alert.
abbrev pub resolve : AlertRecord → HealthCondition → Instant → AlertRecord
resolve current condition now = record current {
  state = is_resolved;
  last_observed_at = some now;
  resolved_at = some now;
  current_value = some condition.current_value;
  warning_threshold = some condition.warning_threshold;
  stale_threshold = some condition.stale_threshold;
  state_version = current.state_version +ℤ pos 1;
}

-- The record of a decision to open a resolved alert as a new incident.
abbrev pub reopen : AlertRecord → HealthCondition → AlertSeverity → Instant → AlertRecord
reopen current condition observed_severity now = record {
  alert_key = current.alert_key;
  check_name = condition.check_name;
  pipeline_name = condition.pipeline_name;
  reason_code = condition.reason_code;
  state = is_open;
  severity = some observed_severity;
  opened_at = some now;
  last_observed_at = some now;
  resolved_at = none;
  incident_generation = current.incident_generation +ℤ pos 1;
  occurrence_count = pos 1;
  current_value = some condition.current_value;
  warning_threshold = some condition.warning_threshold;
  stale_threshold = some condition.stale_threshold;
  state_version = current.state_version +ℤ pos 1;
}

-- The record of a further observation of an open alert.
abbrev pub observe_again : AlertRecord → HealthCondition → AlertSeverity → Instant → AlertRecord
observe_again current condition severity now = record current {
  severity = some severity;
  last_observed_at = some now;
  occurrence_count = current.occurrence_count +ℤ pos 1;
  current_value = some condition.current_value;
  warning_threshold = some condition.warning_threshold;
  stale_threshold = some condition.stale_threshold;
  state_version = current.state_version +ℤ pos 1;
}

abbrev pub is_critical : Option AlertSeverity → Bool
is_critical (some critical) = true
is_critical _ = false

abbrev pub is_warning : Option AlertSeverity → Bool
is_warning (some AlertSeverity.warning) = true
is_warning _ = false

abbrev pub changed_with : AlertRecord → Option NotificationEvent → AlertDecision
changed_with candidate event = record { next_record = candidate; event = event; changed = true }

unfoldable pub decide_recovery :
    AlertRecord → HealthCondition → Instant → AlertState → Result AlertDecision
decide_recovery current condition now is_resolved =
    ok (record { next_record = current; event = none; changed = false })
decide_recovery current condition now is_open = do
  event ← event_of alert_resolved (resolve current condition now) now
  ok (changed_with (resolve current condition now) (some event))

-- The end of `decide_alert_transition`, for an open alert.
abbrev pub decide_again :
    AlertRecord → HealthCondition → Instant → Bool → AlertSeverity → Result AlertDecision
decide_again current condition now true severity = do
  let candidate = observe_again current condition severity now
  event ← event_of alert_escalated candidate now
  ok (changed_with candidate (some event))
decide_again current condition now false severity =
    ok (changed_with (observe_again current condition severity now) none)

-- `escalated`, and the severity that is then kept or taken.
abbrev pub escalates_to : Option AlertSeverity → AlertSeverity → Bool
escalates_to severity observed_severity =
    is_warning severity && is_critical (some observed_severity)

abbrev pub next_severity : Option AlertSeverity → Bool → AlertSeverity
next_severity severity escalated =
    if is_critical severity || escalated then critical else AlertSeverity.warning

unfoldable pub decide_problem :
    AlertRecord → HealthCondition → Instant → AlertSeverity → AlertState → Result AlertDecision
decide_problem current condition now observed_severity is_resolved = do
  let candidate = reopen current condition observed_severity now
  event ← event_of alert_opened candidate now
  ok (changed_with candidate (some event))
decide_problem current condition now observed_severity is_open =
    let escalated = escalates_to current.severity observed_severity in
    decide_again current condition now escalated (next_severity current.severity escalated)

-- The transition that the state of the condition asks for.
unfoldable pub decide_state :
    AlertRecord → HealthCondition → Instant → FreshnessState → Result AlertDecision
decide_state current condition now fresh = decide_recovery current condition now current.state
decide_state current condition now FreshnessState.warning = do
  observed_severity ← severity_of FreshnessState.warning
  decide_problem current condition now observed_severity current.state
decide_state current condition now stale = do
  observed_severity ← severity_of stale
  decide_problem current condition now observed_severity current.state

-- The metadata of the pre-seeded record is that of the condition.
abbrev pub same_metadata : AlertRecord → HealthCondition → Bool
same_metadata current condition =
    text_eq current.check_name condition.check_name
    && (text_eq current.pipeline_name condition.pipeline_name
        && same_reason current.reason_code condition.reason_code)

unfoldable pub decide_alert_transition :
    AlertRecord → HealthCondition → DateTime → Result AlertDecision
decide_alert_transition current condition observed_at = do
  now ← as_utc observed_at
  raise_if (not (text_eq current.alert_key condition.alert_key)) value_error
  raise_if (not (same_metadata current condition)) value_error
  decide_state current condition now condition.state

-- The protocol `AlertStore`, over the states of the database.
pub record AlertStore (S : Type 0) : Type 0 where
  pub get : Text → S → Result AlertRecord
  pub compare_and_set : ℤ → AlertRecord → Exec S AlertRecord

-- The row that an update stores: the SET clause leaves the identity of the alert alone.
abbrev pub stored : AlertRecord → AlertRecord → AlertRecord
stored candidate row = record candidate {
  alert_key = row.alert_key;
  check_name = row.check_name;
  pipeline_name = row.pipeline_name;
  reason_code = row.reason_code;
}

-- How one pass through the loop over the attempts ends: with a decision, with an exception that
-- leaves the function, or in the handler of a conflict.
pub data Attempt : Type 0 where
  decided : AlertDecision → Attempt
  failed : Error → Attempt
  conflicted : Attempt

abbrev pub written : Option NotificationEvent → Result AlertRecord → Attempt
written event (ok persisted) = decided (changed_with persisted event)
written event (err alert_concurrency) = conflicted
written event (err e) = failed e

module _ {S : Type 0} (store : AlertStore S) where
  open store use {get, compare_and_set}

  -- The read of one pass, and what is decided on it.
  unfoldable pub read_decision :
      HealthCondition → DateTime → S → Result (AlertRecord × AlertDecision)
  read_decision condition observed_at s = do
    current ← get condition.alert_key s
    decision ← decide_alert_transition current condition observed_at
    ok (current, decision)

  -- The write of one pass: what other sessions commit since its read is `between`.
  unfoldable pub write_decision : (S → S) → AlertRecord → AlertDecision → S → Attempt × S
  write_decision between current decision s =
      let (result, s') = compare_and_set current.state_version decision.next_record (between s) in
      (written decision.event result, s')

  unfoldable pub attempt_alert : (S → S) → HealthCondition → DateTime → S → Attempt × S
  attempt_alert between condition observed_at s = elim (read_decision condition observed_at s) [
    | err e ↦ (failed e, s)
    | ok (current, decision) ↦
        if decision.changed
        then write_decision between current decision s
        else (decided decision, s)
  ]

  abbrev pub conclude : Attempt × S → Exec S AlertDecision → Result AlertDecision × S
  conclude (decided decision, s') retry = (ok decision, s')
  conclude (failed e, s') retry = (err e, s')
  conclude (conflicted, s') retry = retry s'

  -- The attempts on one condition, when `left` remain after the next.
  unfoldable pub evaluate_alert :
      (ℕ → S → S) → HealthCondition → DateTime → ℕ → Exec S AlertDecision
  evaluate_alert between condition observed_at zero s =
      conclude (attempt_alert (between zero) condition observed_at s)
        (λ s'. (err alert_concurrency, s'))
  evaluate_alert between condition observed_at (suc fewer) s =
      conclude (attempt_alert (between (suc fewer)) condition observed_at s)
        (evaluate_alert between condition observed_at fewer)

  unfoldable pub evaluate_conditions :
      (ℕ → ℕ → S → S) → List HealthCondition → DateTime → ℕ → Exec S (List AlertDecision)
  evaluate_conditions between [] observed_at left s = (ok [], s)
  evaluate_conditions between (condition ∷ conditions) observed_at left s =
      let (first, s') = evaluate_alert (between (length conditions)) condition observed_at left s in
      elim first [
        | err e ↦ (err e, s')
        | ok decision ↦
            let (rest, s'') = evaluate_conditions between conditions observed_at left s' in
            (rest >>= (λ decisions. ok (decision ∷ decisions)), s'')
      ]

  -- What other sessions commit between the read and the write of an attempt is `between n k`, where
  -- `n` conditions follow and `k` attempts are left.
  unfoldable pub evaluate_alerts :
      (ℕ → ℕ → S → S) → List HealthCondition → DateTime → ℤ → Exec S (List AlertDecision)
  evaluate_alerts between conditions observed_at (pos (suc left)) s =
      evaluate_conditions between conditions observed_at left s
  evaluate_alerts between conditions observed_at _ s = (err value_error, s)
