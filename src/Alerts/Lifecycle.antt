-- ===== src/Alerts/Lifecycle.antt =====
-- The lifecycle of one alert: `decide_alert_transition` of orchestration/alerts.py.
use real_time_blockchain_ana.Prelude.{
  ◌≡◌, refl, ap, sym, ◌⊎◌, inl, inr, true, false, Option, none, some, ok, ◌>>=◌, is_some, subst,
  Returns, bind-Returns, Returns-value,
}
use real_time_blockchain_ana.Prelude.Int.{pos, ◌+ℤ◌}
use real_time_blockchain_ana.Python.Text.{text_eq}
use real_time_blockchain_ana.Python.Time.{Instant, aware}
use real_time_blockchain_ana.Freshness.{FreshnessState, fresh, stale}
use real_time_blockchain_ana.Alerts.{
  AlertState, is_open, is_resolved, AlertSeverity, critical, AlertRecord, HealthCondition,
  AlertDecision, NotificationEvent, AlertEventType, alert_opened, alert_escalated, alert_resolved,
  severity_of, event_of, asserted, resolve, reopen, observe_again, decide_recovery, decide_problem,
  decide_again, escalates_to, next_severity, decide_state, same_metadata, decide_alert_transition,
  changed_with,
}

-- An open alert says how bad it is and when it opened, and has not been resolved; a resolved one
-- may be as it was seeded, with nothing set.
abbrev pub IsCoherent : AlertRecord → AlertState → Type 0
IsCoherent r is_open =
    ((s : AlertSeverity) × (r.severity ≡ some s))
    × ((t : Instant) × (r.opened_at ≡ some t))
    × (r.resolved_at ≡ none)
IsCoherent r is_resolved = Unit

abbrev pub IsWellFormed : AlertRecord → Type 0
IsWellFormed r = IsCoherent r r.state

-- The record is that of the condition's alert.
abbrev pub Matches : AlertRecord → HealthCondition → Type 0
Matches r c = (text_eq r.alert_key c.alert_key ≡ true) × (same_metadata r c ≡ true)

-- The transitions of an alert, in the state and severity that its record has.
pub data Transition (current : AlertRecord) (c : HealthCondition) (now : Instant)
    : AlertState → FreshnessState → AlertRecord → Option AlertEventType → Type 0 where
  stays_resolved : Transition current c now is_resolved fresh current none
  resolves : Transition current c now is_open fresh (resolve current c now) (some alert_resolved)
  opens_warning :
      Transition current c now is_resolved FreshnessState.warning
        (reopen current c AlertSeverity.warning now)
        (some alert_opened)
  opens_critical :
      Transition current c now is_resolved stale (reopen current c critical now) (some alert_opened)
  keeps_severity :
      (f : FreshnessState) (s : AlertSeverity)
      → current.severity ≡ some s
      → (f ≡ FreshnessState.warning) ⊎ ((f ≡ stale) × (s ≡ critical))
      → Transition current c now is_open f (observe_again current c s now) none
  escalates :
      current.severity ≡ some AlertSeverity.warning
      → Transition current c now is_open stale
          (observe_again current c critical now)
          (some alert_escalated)

abbrev pub event_type_of : Option NotificationEvent → Option AlertEventType
event_type_of none = none
event_type_of (some e) = some e.event_type

asserted_some {ℓ} :
    {A : Type ℓ} (o : Option A) → is_some o ≡ true → Returns (λ a. Unit) (asserted o)
asserted_some none h = absurd (cc h)
asserted_some (some a) h = tt

-- The event of a record that has all it reports.
event_of-Returns :
    (kind : AlertEventType) (r : AlertRecord) (now : Instant)
    → is_some r.severity ≡ true
    → is_some r.opened_at ≡ true
    → is_some r.current_value ≡ true
    → is_some r.warning_threshold ≡ true
    → is_some r.stale_threshold ≡ true
    → Returns (λ e. e.event_type ≡ kind) (event_of kind r now)
unfolding event_of
event_of-Returns kind r now h1 h2 h3 h4 h5 =
    let P = λ (e : NotificationEvent). e.event_type ≡ kind in
    bind-Returns _ P (asserted r.severity) _ (asserted_some r.severity h1) (λ _ _.
      bind-Returns _ P (asserted r.opened_at) _ (asserted_some r.opened_at h2) (λ _ _.
        bind-Returns _ P (asserted r.current_value) _ (asserted_some r.current_value h3) (λ _ _.
          bind-Returns _ P (asserted r.warning_threshold) _ (asserted_some r.warning_threshold h4)
            (λ _ _.
              bind-Returns _ P (asserted r.stale_threshold) _ (asserted_some r.stale_threshold h5)
                (λ _ _. refl)))))

module _ (current : AlertRecord) (c : HealthCondition) (now : Instant) where
  -- The decision makes the transition from the given states.
  abbrev Decides : AlertState → FreshnessState → AlertDecision → Type 0
  Decides a f d =
      Transition current c now a f d.next_record (event_type_of d.event)
      × (((d.changed ≡ false) × (d.next_record ≡ current))
          ⊎ ((d.changed ≡ true) × (d.next_record.state_version ≡ current.state_version +ℤ pos 1)))

  with_event :
      (a : AlertState) (f : FreshnessState) (kind : AlertEventType) (r : AlertRecord)
      → Returns (λ e. e.event_type ≡ kind) (event_of kind r now)
      → Transition current c now a f r (some kind)
      → r.state_version ≡ current.state_version +ℤ pos 1
      → Returns (Decides a f) (event_of kind r now >>= λ e. ok (changed_with r (some e)))
  with_event a f kind r event t v =
      bind-Returns (λ e. e.event_type ≡ kind) (Decides a f) (event_of kind r now) _ event
        (λ e same. (subst (Transition current c now a f r) (ap some (sym same)) t, inr (refl, v)))

  decide_recovery-Decides :
      (a : AlertState)
      → IsCoherent current a
      → Returns (Decides a fresh) (decide_recovery current c now a)
  unfolding decide_recovery
  decide_recovery-Decides is_resolved h = (stays_resolved, inl (refl, refl))
  decide_recovery-Decides is_open ((s, hs), (t, ht), _) =
      with_event is_open fresh alert_resolved (resolve current c now)
        (event_of-Returns alert_resolved (resolve current c now) now (ap is_some hs) (ap is_some ht)
          refl refl refl)
        resolves refl

  decide_problem-opens :
      (f : FreshnessState) (s : AlertSeverity)
      → Transition current c now is_resolved f (reopen current c s now) (some alert_opened)
      → Returns (Decides is_resolved f) (decide_problem current c now s is_resolved)
  unfolding decide_problem
  decide_problem-opens f s t =
      with_event is_resolved f alert_opened (reopen current c s now)
        (event_of-Returns alert_opened (reopen current c s now) now refl refl refl refl refl) t refl

  -- A further observation at the severity `observed`, of an alert that has the severity `s`.
  again-Decides :
      (f : FreshnessState) (s observed : AlertSeverity)
      → severity_of f ≡ ok observed
      → current.severity ≡ some s
      → is_some current.opened_at ≡ true
      → Returns (Decides is_open f) (
          decide_again current c now
            (escalates_to (some s) observed)
            (next_severity (some s) (escalates_to (some s) observed)))
  unfolding severity_of
  again-Decides fresh s observed e hs ho = absurd (cc e)
  again-Decides FreshnessState.warning AlertSeverity.warning AlertSeverity.warning e hs ho =
      (keeps_severity FreshnessState.warning AlertSeverity.warning hs (inl refl), inr (refl, refl))
  again-Decides FreshnessState.warning critical AlertSeverity.warning e hs ho =
      (keeps_severity FreshnessState.warning critical hs (inl refl), inr (refl, refl))
  again-Decides FreshnessState.warning s critical e hs ho = absurd (cc e)
  again-Decides stale s AlertSeverity.warning e hs ho = absurd (cc e)
  again-Decides stale critical critical e hs ho =
      (keeps_severity stale critical hs (inr (refl, refl)), inr (refl, refl))
  again-Decides stale AlertSeverity.warning critical e hs ho =
      with_event is_open stale alert_escalated (observe_again current c critical now)
        (event_of-Returns alert_escalated (observe_again current c critical now) now refl ho refl
          refl refl)
        (escalates hs) refl

  decide_problem-again :
      (f : FreshnessState) (s observed : AlertSeverity)
      → severity_of f ≡ ok observed
      → current.severity ≡ some s
      → is_some current.opened_at ≡ true
      → Returns (Decides is_open f) (decide_problem current c now observed is_open)
  unfolding decide_problem
  decide_problem-again f s observed e hs ho =
      subst
        (λ o. Returns (Decides is_open f) (
          decide_again current c now (escalates_to o observed)
            (next_severity o (escalates_to o observed))))
        (sym hs) (again-Decides f s observed e hs ho)

  decide_state-Decides :
      (a : AlertState) (f : FreshnessState)
      → current.state ≡ a
      → IsCoherent current a
      → Returns (Decides a f) (decide_state current c now f)
  unfolding decide_state severity_of
  decide_state-Decides a fresh e h =
      subst (λ x. Returns (Decides a fresh) (decide_recovery current c now x)) (sym e)
        (decide_recovery-Decides a h)
  decide_state-Decides is_resolved FreshnessState.warning e h =
      subst
        (λ x.
          Returns (Decides is_resolved FreshnessState.warning)
            (decide_problem current c now AlertSeverity.warning x))
        (sym e) (decide_problem-opens FreshnessState.warning AlertSeverity.warning opens_warning)
  decide_state-Decides is_resolved stale e h =
      subst (λ x. Returns (Decides is_resolved stale) (decide_problem current c now critical x))
        (sym e) (decide_problem-opens stale critical opens_critical)
  decide_state-Decides is_open FreshnessState.warning e ((s, hs), (t, ht), _) =
      subst
        (λ x.
          Returns (Decides is_open FreshnessState.warning)
            (decide_problem current c now AlertSeverity.warning x))
        (sym e)
        (decide_problem-again FreshnessState.warning s AlertSeverity.warning refl hs
          (ap is_some ht))
  decide_state-Decides is_open stale e ((s, hs), (t, ht), _) =
      subst (λ x. Returns (Decides is_open stale) (decide_problem current c now critical x)) (sym e)
        (decide_problem-again stale s critical refl hs (ap is_some ht))

-- On a well-formed record of the condition's alert, at an aware time, a decision is reached (no
-- assertion fails) and it is one of the transitions: its record and the type of its event are those
-- of the transition, the version goes up by one where something changes, and else the record stays.
pub decide_alert_transition-Transition :
    (current : AlertRecord) (c : HealthCondition) (now : Instant)
    → IsWellFormed current
    → Matches current c
    → (d : AlertDecision) × (decide_alert_transition current c (aware now) ≡ ok d)
      × Transition current c now current.state c.state d.next_record (event_type_of d.event)
      × (((d.changed ≡ false) × (d.next_record ≡ current))
          ⊎ ((d.changed ≡ true) × (d.next_record.state_version ≡ current.state_version +ℤ pos 1)))
unfolding decide_alert_transition
decide_alert_transition-Transition current c now h (key, data_) =
    let (d, e, t) =
      Returns-value (Decides current c now current.state c.state)
        (decide_state current c now c.state)
        (decide_state-Decides current c now current.state c.state refl h) in
    (d, rw (key, data_) e, t.0, t.1)

-- A transition from a well-formed record leaves a well-formed record.
pub Transition-IsWellFormed :
    (current : AlertRecord) (c : HealthCondition) (now : Instant) (a : AlertState)
    (f : FreshnessState) (r : AlertRecord) (kind : Option AlertEventType)
    → current.state ≡ a
    → IsCoherent current a
    → Transition current c now a f r kind
    → IsWellFormed r
Transition-IsWellFormed current c now a f r kind e h stays_resolved = rw e tt
Transition-IsWellFormed current c now a f r kind e h resolves = tt
Transition-IsWellFormed current c now a f r kind e h opens_warning = ((_, refl), (_, refl), refl)
Transition-IsWellFormed current c now a f r kind e h opens_critical = ((_, refl), (_, refl), refl)
Transition-IsWellFormed current c now a f r kind e h (keeps_severity _ s _ _) =
    subst (IsCoherent (observe_again current c s now)) (sym e) ((s, refl), h.1, h.2)
Transition-IsWellFormed current c now a f r kind e h (escalates _) =
    subst (IsCoherent (observe_again current c critical now)) (sym e) ((critical, refl), h.1, h.2)
