-- ===== src/Alerts/Tests.antt =====
-- The alert lifecycle at concrete inputs, over the Snowflake store.
use real_time_blockchain_ana.Prelude.{
  ◌≡◌, ◌≢◌, ◌↔◌, ◌⊎◌, refl, true, false, none, some, [], ◌∷◌, ok, ℕ_discrete,
}
use real_time_blockchain_ana.Prelude.Int.{pos, ◌+ℤ◌}
use real_time_blockchain_ana.Python.Text.{codes, Text-discrete}
use real_time_blockchain_ana.Python.Time.{Instant, aware}
use real_time_blockchain_ana.Sql.{select_where}
use real_time_blockchain_ana.Freshness.{FreshnessState, fresh, stale}
use real_time_blockchain_ana.Alerts.{
  is_resolved, AlertSeverity, critical, AlertRecord, AlertDecision, HealthCondition, AlertEventType,
  NotificationEvent, alert_escalated, decide_state, severity_of, decide_problem, event_of,
  pipeline_failure, decide_alert_transition, reopen, observe_again, alert_opened, evaluate_alert,
}
use real_time_blockchain_ana.Alerts.Lifecycle.{
  Matches, Transition, event_type_of, decide_alert_transition-Transition,
}
use real_time_blockchain_ana.Alerts.Incidents.{
  opens, goes_on, Sums, Incident-Sums, event_iff_change,
}
use real_time_blockchain_ana.Alerts.Evaluation.{Evaluated, InOrder, evaluate_alert-Evaluated}
use real_time_blockchain_ana.SnowflakeAlerts.{AlertTable, get, snowflake_alert_store}
use real_time_blockchain_ana.SnowflakeAlerts.Contract.{snowflake-IsAlertStore}

abbrev condition : FreshnessState → HealthCondition
condition state = record {
  alert_key = codes "k";
  check_name = codes "c";
  pipeline_name = codes "p";
  reason_code = pipeline_failure;
  state = state;
  current_value = pos 1;
  warning_threshold = pos 0;
  stale_threshold = pos 1;
}

-- As the table is seeded.
abbrev seeded : AlertRecord
seeded = record {
  alert_key = codes "k";
  check_name = codes "c";
  pipeline_name = codes "p";
  reason_code = pipeline_failure;
  state = is_resolved;
  severity = none;
  opened_at = none;
  last_observed_at = none;
  resolved_at = none;
  incident_generation = pos 0;
  occurrence_count = pos 0;
  current_value = none;
  warning_threshold = none;
  stale_threshold = none;
  state_version = pos 0;
}

seeded-Matches : (f : FreshnessState) → Matches seeded (condition f)
unfolding Text-discrete ℕ_discrete
seeded-Matches f = (refl, refl)

decide_alert_transition-Transition_example :
    (d : AlertDecision) × (decide_alert_transition seeded (condition stale) (aware 7) ≡ ok d)
    × Transition seeded (condition stale) 7 is_resolved stale d.next_record (event_type_of d.event)
    × (((d.changed ≡ false) × (d.next_record ≡ seeded))
        ⊎ ((d.changed ≡ true) × (d.next_record.state_version ≡ pos 0 +ℤ pos 1)))
decide_alert_transition-Transition_example =
    decide_alert_transition-Transition seeded (condition stale) 7 tt (seeded-Matches stale)

abbrev warned : AlertRecord
warned = reopen seeded (condition FreshnessState.warning) AlertSeverity.warning 7

abbrev escalated : AlertRecord
escalated = observe_again warned (condition stale) critical 8

warning-not-fresh : FreshnessState.warning ≢ fresh
warning-not-fresh e = cc

stale-not-fresh : stale ≢ fresh
stale-not-fresh e = cc

-- An event of the incident that opened at 7.
abbrev event_at : AlertEventType → AlertSeverity → Instant → NotificationEvent
event_at kind severity now = record {
  event_type = kind;
  alert_key = codes "k";
  pipeline_name = codes "p";
  check_name = codes "c";
  severity = severity;
  reason_code = pipeline_failure;
  current_value = pos 1;
  warning_threshold = pos 0;
  stale_threshold = pos 1;
  opened_at = 7;
  resolved_at = none;
  observed_at = now;
  incident_generation = pos 1;
}

abbrev opening : AlertDecision
opening = record {
  next_record = warned;
  event = some (event_at alert_opened AlertSeverity.warning 7);
  changed = true;
}

abbrev escalation : AlertDecision
escalation = record {
  next_record = escalated;
  event = some (event_at alert_escalated critical 8);
  changed = true;
}

decides_opening :
    decide_alert_transition seeded (condition FreshnessState.warning) (aware 7) ≡ ok opening
unfolding decide_alert_transition decide_state severity_of decide_problem event_of Text-discrete
    ℕ_discrete ◌+ℤ◌
decides_opening = refl

decides_escalation : decide_alert_transition warned (condition stale) (aware 8) ≡ ok escalation
unfolding decide_alert_transition decide_state severity_of decide_problem event_of Text-discrete
    ℕ_discrete ◌+ℤ◌
decides_escalation = refl

event_iff_change_example :
    (some alert_opened ≡ none)
    ↔ ((warned.state ≡ seeded.state) × (warned.severity ≡ seeded.severity))
event_iff_change_example =
    event_iff_change seeded (condition FreshnessState.warning) 7 opening tt
      (seeded-Matches FreshnessState.warning) decides_opening

warned-Matches : Matches warned (condition stale)
unfolding Text-discrete ℕ_discrete
warned-Matches = (refl, refl)

Incident-Sums_example : Sums (pos 0 +ℤ pos 1) (stale ∷ FreshnessState.warning ∷ []) escalated
Incident-Sums_example =
    Incident-Sums (pos 0 +ℤ pos 1) (stale ∷ FreshnessState.warning ∷ []) escalated (
      goes_on _ _ warned (condition stale) 8 escalation
        (opens seeded (condition FreshnessState.warning) 7 opening refl tt
          (seeded-Matches FreshnessState.warning) warning-not-fresh decides_opening)
        warned-Matches stale-not-fresh decides_escalation)

abbrev alerts : AlertTable
alerts = seeded ∷ []

alerts-InOrder : InOrder snowflake_alert_store snowflake-IsAlertStore (condition stale) 7 alerts
unfolding get select_where Text-discrete ℕ_discrete
alerts-InOrder = (seeded, (refl, tt, (refl, refl)))

evaluate_alert-Evaluated_example :
    Evaluated snowflake_alert_store snowflake-IsAlertStore
      (condition stale)
      7
      (λ n t. t)
      (evaluate_alert snowflake_alert_store (λ n t. t) (condition stale) (aware 7) 2 alerts)
evaluate_alert-Evaluated_example =
    evaluate_alert-Evaluated snowflake_alert_store snowflake-IsAlertStore (condition stale) 7
      (λ n t. t) 2 alerts (λ n x h. h) alerts-InOrder
