-- ===== src/Alerts/Incidents.antt =====
-- What the transitions of an alert add up to over an incident.
use real_time_blockchain_ana.Prelude.{
  ℕ, suc, ◌≡◌, ◌≢◌, refl, ap, sym, ◌∙◌, inl, inr, ◌↔◌, Option, none, some, List, [], ◌∷◌, arith,
  subst, ok, ok-injective,
}
use real_time_blockchain_ana.Prelude.Int.{ℤ, pos, ◌+ℤ◌}
use real_time_blockchain_ana.Prelude.Lists.{length}
use real_time_blockchain_ana.Python.Time.{Instant, aware}
use real_time_blockchain_ana.Freshness.{FreshnessState, fresh, stale}
use real_time_blockchain_ana.Alerts.{
  AlertState, is_open, is_resolved, AlertSeverity, critical, AlertRecord, HealthCondition,
  AlertEventType, AlertDecision, decide_alert_transition,
}
use real_time_blockchain_ana.Alerts.Lifecycle.{
  Transition, stays_resolved, resolves, opens_warning, opens_critical, keeps_severity, escalates,
  IsWellFormed, Matches, event_type_of, decide_alert_transition-Transition, Transition-IsWellFormed,
}

-- Where an alert stands in an incident, as the evaluations of its condition have left it: the
-- states observed since it opened, the latest first, and the incident's generation.
pub data Incident : ℤ → List FreshnessState → AlertRecord → Type 0 where
  opens :
      (current : AlertRecord) (c : HealthCondition) (now : Instant) (d : AlertDecision)
      → current.state ≡ is_resolved
      → IsWellFormed current
      → Matches current c
      → c.state ≢ fresh
      → decide_alert_transition current c (aware now) ≡ ok d
      → Incident (current.incident_generation +ℤ pos 1) (c.state ∷ []) d.next_record
  goes_on :
      (g : ℤ) (fs : List FreshnessState) (current : AlertRecord) (c : HealthCondition)
      (now : Instant) (d : AlertDecision)
      → Incident g fs current
      → Matches current c
      → c.state ≢ fresh
      → decide_alert_transition current c (aware now) ≡ ok d
      → Incident g (c.state ∷ fs) d.next_record

-- CRITICAL where a stale state was among those observed.
abbrev pub worst_seen : List FreshnessState → AlertSeverity
worst_seen [] = AlertSeverity.warning
worst_seen (stale ∷ fs) = critical
worst_seen (_ ∷ fs) = worst_seen fs

abbrev pub Sums : ℤ → List FreshnessState → AlertRecord → Type 0
Sums g fs r =
    (r.state ≡ is_open)
    × (r.severity ≡ some (worst_seen fs))
    × (r.occurrence_count ≡ pos (length fs))
    × (r.incident_generation ≡ g)
    × (r.resolved_at ≡ none)

next_count : (x : ℤ) (n : ℕ) → x ≡ pos n → x +ℤ pos 1 ≡ pos (suc n)
unfolding ◌+ℤ◌
next_count x n e = ground arith

open-Sums :
    (current r : AlertRecord) (c : HealthCondition) (now : Instant) (f : FreshnessState)
    (kind : Option AlertEventType)
    → f ≢ fresh
    → Transition current c now is_resolved f r kind
    → Sums (current.incident_generation +ℤ pos 1) (f ∷ []) r
open-Sums current r c now f kind ne stays_resolved = absurd (ne refl)
open-Sums current r c now f kind ne opens_warning = (refl, refl, refl, refl, refl)
open-Sums current r c now f kind ne opens_critical = (refl, refl, refl, refl, refl)

again-Sums :
    (g : ℤ) (fs : List FreshnessState) (current r : AlertRecord) (c : HealthCondition)
    (now : Instant) (f : FreshnessState) (kind : Option AlertEventType)
    → Sums g fs current
    → f ≢ fresh
    → Transition current c now is_open f r kind
    → Sums g (f ∷ fs) r
again-Sums g fs current r c now f kind h ne resolves = absurd (ne refl)
again-Sums g fs current r c now f kind h ne (keeps_severity _ s hs (inl w)) = (
  h.0,
  subst (λ x. some s ≡ some (worst_seen (x ∷ fs))) (sym w) (sym hs ∙ h.1),
  next_count _ (length fs) h.2,
  h.3,
  h.4,
)
again-Sums g fs current r c now f kind h ne (keeps_severity _ s hs (inr (w, e))) = (
  h.0,
  subst (λ x. some s ≡ some (worst_seen (x ∷ fs))) (sym w) (ap some e),
  next_count _ (length fs) h.2,
  h.3,
  h.4,
)
again-Sums g fs current r c now f kind h ne (escalates hs) =
    (h.0, refl, next_count _ (length fs) h.2, h.3, h.4)

-- The transition that a decision makes.
decided-Transition :
    (current : AlertRecord) (c : HealthCondition) (now : Instant) (d : AlertDecision)
    → IsWellFormed current
    → Matches current c
    → decide_alert_transition current c (aware now) ≡ ok d
    → Transition current c now current.state c.state d.next_record (event_type_of d.event)
decided-Transition current c now d h m e =
    let (made, e', t, _) = decide_alert_transition-Transition current c now h m in
    subst
      (λ x. Transition current c now current.state c.state x.next_record (event_type_of x.event))
      (ok-injective (sym e' ∙ e)) t

-- The records of an incident have all that an open alert says.
Incident-IsWellFormed :
    (g : ℤ) (fs : List FreshnessState) (r : AlertRecord) → Incident g fs r → IsWellFormed r
Incident-IsWellFormed g fs r (opens current c now d e h m ne made) =
    Transition-IsWellFormed current c now current.state c.state d.next_record _ refl h
      (decided-Transition current c now d h m made)
Incident-IsWellFormed g fs r (goes_on _ fs' current c now d i m ne made) =
    let h = Incident-IsWellFormed g fs' current i in
    Transition-IsWellFormed current c now current.state c.state d.next_record _ refl h
      (decided-Transition current c now d h m made)

-- During an incident, which evaluations open on a well-formed resolved record and continue on what
-- the one before left, each observing a state that is not fresh of the alert's own condition: the
-- record stays open, its severity is CRITICAL exactly where a stale state has been observed since
-- it opened (a later warning does not lower it), its occurrence count is the number of
-- observations, and its generation is one more than that of the record it opened on.
pub Incident-Sums :
    (g : ℤ) (fs : List FreshnessState) (r : AlertRecord) → Incident g fs r → Sums g fs r
Incident-Sums g fs r (opens current c now d e h m ne made) =
    open-Sums current d.next_record c now c.state _ ne (
      subst (λ a. Transition current c now a c.state d.next_record (event_type_of d.event)) e
        (decided-Transition current c now d h m made))
Incident-Sums g fs r (goes_on _ fs' current c now d i m ne made) =
    let sums = Incident-Sums g fs' current i in
    again-Sums g fs' current d.next_record c now c.state _ sums ne (
      subst (λ a. Transition current c now a c.state d.next_record (event_type_of d.event)) sums.0
        (decided-Transition current c now d (Incident-IsWellFormed g fs' current i) m made))

Transition-silent :
    (current r : AlertRecord) (c : HealthCondition) (now : Instant) (a : AlertState)
    (f : FreshnessState) (kind : Option AlertEventType)
    → current.state ≡ a
    → Transition current c now a f r kind
    → (kind ≡ none) ↔ ((r.state ≡ current.state) × (r.severity ≡ current.severity))
Transition-silent current r c now a f kind e stays_resolved = ((λ _. (refl, refl)), (λ _. refl))
Transition-silent current r c now a f kind e resolves =
    ((λ h. absurd (cc h)), (λ h. absurd (cc (h.0, e))))
Transition-silent current r c now a f kind e opens_warning =
    ((λ h. absurd (cc h)), (λ h. absurd (cc (h.0, e))))
Transition-silent current r c now a f kind e opens_critical =
    ((λ h. absurd (cc h)), (λ h. absurd (cc (h.0, e))))
Transition-silent current r c now a f kind e (keeps_severity _ s hs _) =
    ((λ _. (refl, sym hs)), (λ _. refl))
Transition-silent current r c now a f kind e (escalates hs) =
    ((λ h. absurd (cc h)), (λ h. absurd (cc (h.1, hs))))

-- A decision on a well-formed record of the condition's alert, at an aware time, has no event
-- exactly if it leaves the lifecycle state and the severity as they are: repeated observations of
-- the same severity are silent, and each opening, escalation and resolution is reported.
pub event_iff_change :
    (current : AlertRecord) (c : HealthCondition) (now : Instant) (d : AlertDecision)
    → IsWellFormed current
    → Matches current c
    → decide_alert_transition current c (aware now) ≡ ok d
    → (event_type_of d.event ≡ none)
      ↔ ((d.next_record.state ≡ current.state) × (d.next_record.severity ≡ current.severity))
event_iff_change current c now d h m e =
    Transition-silent current d.next_record c now current.state c.state _ refl
      (decided-Transition current c now d h m e)
