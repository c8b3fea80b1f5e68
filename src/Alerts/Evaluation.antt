-- ===== src/Alerts/Evaluation.antt =====
-- `evaluate_alerts` of orchestration/alerts.py over any store that keeps its contract.
use real_time_blockchain_ana.Prelude.{
  ℕ, zero, suc, ◌≡◌, refl, sym, ap, ◌∙◌, ◌≢◌, ◌⊎◌, inl, inr, Bool, true, false, ◌&&◌, Option,
  alert_concurrency, Result, ok, err, arith, subst,
}
use real_time_blockchain_ana.Prelude.Int.{ℤ, pos, ◌+ℤ◌}
use real_time_blockchain_ana.Python.Text.{Text, text_eq}
use real_time_blockchain_ana.Python.Time.{Instant, aware}
use real_time_blockchain_ana.Freshness.{FreshnessState}
use real_time_blockchain_ana.Alerts.{
  AlertReasonCode, AlertRecord, AlertStore, AlertState, AlertEventType, AlertDecision,
  HealthCondition, Attempt, decided, failed, conflicted, stored, same_reason, read_decision,
  write_decision, attempt_alert, conclude, evaluate_alert, written,
}
use real_time_blockchain_ana.Alerts.Lifecycle.{
  IsWellFormed, Matches, Transition, stays_resolved, resolves, opens_warning, opens_critical,
  keeps_severity, escalates, event_type_of, decide_alert_transition-Transition,
  Transition-IsWellFormed,
}

module _ {S : Type 0} (store : AlertStore S) where
  open store use {get, compare_and_set}

  -- `compare_and_set` writes exactly where the version is the expected one.
  pub record IsAlertStore : Type 0 where
    pub compare_and_set_lem :
        (expected : ℤ) (candidate old : AlertRecord) (s : S)
        → get candidate.alert_key s ≡ ok old
        → let (r, s') = compare_and_set expected candidate s in
          ((old.state_version ≡ expected)
            × (r ≡ ok candidate)
            × (get candidate.alert_key s' ≡ ok (stored candidate old))
            × ((j : Text) → j ≢ candidate.alert_key → get j s' ≡ get j s))
          ⊎ ((old.state_version ≢ expected)
              × (compare_and_set expected candidate s ≡ (err alert_concurrency, s)))

text_eq→eq : (a b : Text) → text_eq a b ≡ true → a ≡ b
text_eq→eq a b h = ground arith

text_eq_refl : (a : Text) → text_eq a a ≡ true
text_eq_refl a = ground arith

same_reason→eq : (a b : AlertReasonCode) → same_reason a b ≡ true → a ≡ b
same_reason→eq a b h = ground arith

same_reason_refl : (a : AlertReasonCode) → same_reason a a ≡ true
same_reason_refl a = ground arith

and_parts : (a b : Bool) → (a && b) ≡ true → (a ≡ true) × (b ≡ true)
and_parts a b h = (ground arith, ground arith)

-- The identity of a record that matches the condition is the condition's.
Matches-fields :
    (r : AlertRecord) (c : HealthCondition)
    → Matches r c
    → (r.alert_key ≡ c.alert_key)
      × (r.check_name ≡ c.check_name)
      × (r.pipeline_name ≡ c.pipeline_name)
      × (r.reason_code ≡ c.reason_code)
Matches-fields r c (key, metadata) =
    let (name_, reason) = and_parts (text_eq r.check_name c.check_name) _ metadata in
    let (pipeline, code) = and_parts (text_eq r.pipeline_name c.pipeline_name) _ reason in
    (
      text_eq→eq r.alert_key c.alert_key key,
      text_eq→eq r.check_name c.check_name name_,
      text_eq→eq r.pipeline_name c.pipeline_name pipeline,
      same_reason→eq r.reason_code c.reason_code code,
    )

stored-same :
    (a old : AlertRecord) (c : HealthCondition) → Matches a c → Matches old c → stored a old ≡ a
stored-same a old c h k =
    let (a1, a2, a3, a4) = Matches-fields a c h in
    let (o1, o2, o3, o4) = Matches-fields old c k in
    rw (o1 ∙ sym a1, o2 ∙ sym a2, o3 ∙ sym a3, o4 ∙ sym a4) refl

reopen-Matches :
    (r : AlertRecord) (c : HealthCondition)
    → r.alert_key ≡ c.alert_key
    → r.check_name ≡ c.check_name
    → r.pipeline_name ≡ c.pipeline_name
    → r.reason_code ≡ c.reason_code
    → Matches r c
reopen-Matches r c k n p code =
    rw
      (
        k,
        n,
        p,
        code,
        text_eq_refl c.alert_key,
        text_eq_refl c.check_name,
        text_eq_refl c.pipeline_name,
        same_reason_refl c.reason_code,
      )
      (refl, refl)

Transition-Matches :
    (current : AlertRecord) (c : HealthCondition) (now : Instant) (a : AlertState)
    (f : FreshnessState) (r : AlertRecord) (kind : Option AlertEventType)
    → Matches current c
    → Transition current c now a f r kind
    → Matches r c
Transition-Matches current c now a f r kind h stays_resolved = h
Transition-Matches current c now a f r kind h resolves = h
Transition-Matches current c now a f r kind h opens_warning =
    reopen-Matches r c (Matches-fields current c h).0 refl refl refl
Transition-Matches current c now a f r kind h opens_critical =
    reopen-Matches r c (Matches-fields current c h).0 refl refl refl
Transition-Matches current c now a f r kind h (keeps_severity _ _ _ _) = h
Transition-Matches current c now a f r kind h (escalates _) = h

module _ {S : Type 0} (store : AlertStore S) (laws : IsAlertStore store) (c : HealthCondition)
    (now : Instant) where
  open store use {get, compare_and_set}

  -- The alert of the condition is in order: one well-formed row, with the condition's metadata.
  abbrev pub Holds : S → AlertRecord → Type 0
  Holds s r = (get c.alert_key s ≡ ok r) × IsWellFormed r × Matches r c

  abbrev pub InOrder : S → Type 0
  InOrder s = (r : AlertRecord) × Holds s r

  -- The decision's record is the one that is stored, and it comes by one of the transitions from a
  -- record that was stored.
  abbrev pub Settled : AlertDecision → S → Type 0
  Settled d s' =
      Holds s' d.next_record
      × ((current : AlertRecord) × Transition current c now current.state c.state d.next_record
            (event_type_of d.event))

  -- The version of the alert has changed between the read and the write.
  abbrev pub Overtaken : S → S → Type 0
  Overtaken s s' =
      (r : AlertRecord) × (r' : AlertRecord) × (get c.alert_key s ≡ ok r)
      × (get c.alert_key s' ≡ ok r')
      × (r'.state_version ≢ r.state_version)

  abbrev Attempted : (S → S) → S → Attempt × S → Type 0
  Attempted between s (decided d, s') = Settled d s'
  Attempted between s (failed e, s') = ⊥
  Attempted between s (conflicted, s') = Overtaken s (between s) × (s' ≡ between s)

  write-Attempted :
      (between : S → S) (s : S) (current old : AlertRecord) (d : AlertDecision)
      → Holds s current
      → Holds (between s) old
      → Transition current c now current.state c.state d.next_record (event_type_of d.event)
      → Attempted between s (write_decision store between current d s)
  unfolding write_decision
  write-Attempted between s current old d h k t =
      let next = d.next_record in
      let matches =
        Transition-Matches current c now current.state c.state next (event_type_of d.event) h.2 t in
      let key = (Matches-fields next c matches).0 in
      let read : get next.alert_key (between s) ≡ ok old = rw key k.0 in
      elim (laws.compare_and_set_lem current.state_version next old (between s) read) [
        | inl (v, e, after, _) ↦
            let s' = (compare_and_set current.state_version next (between s)).1 in
            let holds : get c.alert_key s' ≡ ok next =
              subst (λ x. get x s' ≡ ok next) key
                (after ∙ ap ok (stored-same next old c matches k.2)) in
            let formed =
              Transition-IsWellFormed current c now current.state c.state next
                (event_type_of d.event) refl h.1 t in
            subst (λ r. Attempted between s (written d.event r, s')) (sym e)
              ((holds, formed, matches), (current, t))
        | inr (v, e) ↦
            subst (λ p. Attempted between s (written d.event p.0, p.1)) (sym e)
              ((current, old, h.0, k.0, v), refl)
      ]

  read_decision-Decides :
      (s : S) (current : AlertRecord)
      → Holds s current
      → (d : AlertDecision) × (read_decision store c (aware now) s ≡ ok (current, d))
        × Transition current c now current.state c.state d.next_record (event_type_of d.event)
        × (((d.changed ≡ false) × (d.next_record ≡ current))
            ⊎ ((d.changed ≡ true) × (d.next_record.state_version ≡ current.state_version +ℤ pos 1)))
  unfolding read_decision
  read_decision-Decides s current (g, formed, matches) =
      let (d, e, t, v) = decide_alert_transition-Transition current c now formed matches in
      (d, rw (g, e) refl, t, v)

  attempt_alert-Attempted :
      (between : S → S) (s : S)
      → InOrder s
      → InOrder (between s)
      → Attempted between s (attempt_alert store between c (aware now) s)
  unfolding attempt_alert
  attempt_alert-Attempted between s (current, h) (old, k) =
      let (d, e, t, v) = read_decision-Decides s current h in
      elim v [
        | inl (unchanged, same) ↦
            rw (e, unchanged, attempt_alert) (subst (Holds s) (sym same) h, (current, t))
        | inr (changed, _) ↦
            rw (e, changed, attempt_alert) (write-Attempted between s current old d h k t)
      ]

  abbrev pub Evaluated : (ℕ → S → S) → Result AlertDecision × S → Type 0
  Evaluated between (ok d, s') = Settled d s'
  Evaluated between (err e, s') =
      (e ≡ alert_concurrency)
      × ((s : S) × InOrder s × Overtaken s (between zero s) × (s' ≡ between zero s))

  last-Evaluated :
      (between : ℕ → S → S) (s : S) (r : Attempt × S)
      → InOrder s
      → Attempted (between zero) s r
      → Evaluated between (conclude store r (λ s'. (err alert_concurrency, s')))
  last-Evaluated between s (decided d, s') o h = h
  last-Evaluated between s (failed e, s') o h = absurd h
  last-Evaluated between s (conflicted, s') o h = (refl, (s, o, h.0, h.1))

  tried_again :
      (between : ℕ → S → S) (fewer : ℕ) {s : S} (r : Attempt × S)
      → Attempted (between (suc fewer)) s r
      → ((s' : S)
          → s' ≡ between (suc fewer) s
          → Evaluated between (evaluate_alert store between c (aware now) fewer s'))
      → Evaluated between (conclude store r (evaluate_alert store between c (aware now) fewer))
  tried_again between fewer (decided d, s') h again = h
  tried_again between fewer (failed e, s') h again = absurd h
  tried_again between fewer (conflicted, s') (_, same) again = again s' same

  -- Where the alert is in order and no other session breaks it, the attempts end with a stored
  -- decision, or with the concurrency error after the last attempt too was overtaken by a write to
  -- this alert; no other error is raised.
  pub evaluate_alert-Evaluated :
      (between : ℕ → S → S) (left : ℕ) (s : S)
      → ((n : ℕ) (x : S) → InOrder x → InOrder (between n x))
      → InOrder s
      → Evaluated between (evaluate_alert store between c (aware now) left s)
  unfolding evaluate_alert
  evaluate_alert-Evaluated between zero s keeps o =
      last-Evaluated between s _ o (attempt_alert-Attempted (between zero) s o (keeps zero s o))
  evaluate_alert-Evaluated between (suc fewer) s keeps o =
      tried_again between fewer (attempt_alert store (between (suc fewer)) c (aware now) s)
        (attempt_alert-Attempted (between (suc fewer)) s o (keeps (suc fewer) s o))
        (λ s' same.
          evaluate_alert-Evaluated between fewer s' keeps
            (subst InOrder (sym same) (keeps (suc fewer) s o)))

  -- Where the alert is in order and no other session breaks it, a decision is reached if no other
  -- session changes the version of this alert in the last attempt that is allowed, and what it
  -- decided is then stored.
  pub evaluate_alert_settles :
      (between : ℕ → S → S) (left : ℕ) (s : S)
      → ((n : ℕ) (x : S) → InOrder x → InOrder (between n x))
      → ((x : S) → ¬ Overtaken x (between zero x))
      → InOrder s
      → let (result, s') = evaluate_alert store between c (aware now) left s in
        (d : AlertDecision) × (result ≡ ok d) × Settled d s'
  evaluate_alert_settles between left s keeps quiet o =
      settled (evaluate_alert store between c (aware now) left s)
        (evaluate_alert-Evaluated between left s keeps o)
    where
      settled :
          (r : Result AlertDecision × S)
          → Evaluated between r
          → (d : AlertDecision) × (r.0 ≡ ok d) × Settled d r.1
      settled (ok d, s') h = (d, refl, h)
      settled (err e, s') (_, (x, _, over, _)) = absurd (quiet x over)
