-- ===== src/SnowflakeRuns/Lifecycle.antt =====
-- The rows of PIPELINE_RUNS under the calls of warehouse/pipeline_runs.py, by any number of
-- processes.
use mathlib.Core.List.{append-nil}
use real_time_blockchain_ana.Prelude.{
  ◌+◌, ◌≤◌, ◌≡◌, refl, ap, ◌∙◌, inl, inr, Bool, true, false, not, [], ◌∷◌, ◌++◌, arith, Bool-cases,
  subst, ◌==◌, if◌then◌else◌,
}
use real_time_blockchain_ana.Prelude.Lists.{All, All-append, length}
use real_time_blockchain_ana.Sql.{
  select_where, update_where, rows_where, select_where-append, rows_where-length,
}
use real_time_blockchain_ana.Sql.Single.{OnlyRow, update-OnlyRow}
use real_time_blockchain_ana.Runs.{
  is_running, RunIdentity, same_identity, RunMetrics, PipelineRunRecord, fresh_run,
}
use real_time_blockchain_ana.SnowflakeRuns.{
  DurationColumn, RunTable, has_key, is_open, start, set_end, finish, add_metrics,
  increment_metrics,
}
use real_time_blockchain_ana.SnowflakeRuns.Validity.{
  IsValid, fresh_run-IsValid, set_end-IsValid, add_metrics-IsValid,
}

-- One call on the table by some process, whether it succeeds or raises.
pub data Step (column : DurationColumn) : RunTable → RunTable → Type 0 where
  started : (r : PipelineRunRecord) (t : RunTable) → IsValid r → Step column t (start r t).1
  ended : (r : PipelineRunRecord) (t : RunTable) → IsValid r → Step column t (finish column r t).1
  added :
      (i : RunIdentity) (m : RunMetrics) (t : RunTable) → Step column t (increment_metrics i m t).1

pub data Steps (column : DurationColumn) : RunTable → RunTable → Type 0 where
  done : (t : RunTable) → Steps column t t
  then_step : (t u v : RunTable) → Steps column t u → Step column u v → Steps column t v

same_identity→eq : (a b : RunIdentity) → same_identity a b ≡ true → a ≡ b
same_identity→eq a b h = ground arith

update-All :
    (P : PipelineRunRecord → Type 0) (p : PipelineRunRecord → Bool)
    (f : PipelineRunRecord → PipelineRunRecord) (t : RunTable)
    → ((x : PipelineRunRecord) → P x → P (f x))
    → All P t
    → All P (update_where p f t)
unfolding update_where
update-All P p f [] k h = tt
update-All P p f (x ∷ t) k (h, hs) = elim (Bool-cases (p x)) [
  | inl e ↦ rw e (k x h, update-All P p f t k hs)
  | inr e ↦ rw e (h, update-All P p f t k hs)
]

-- Counts of a key are not changed by an update that keeps the identities.
update-rows_where :
    (q p : PipelineRunRecord → Bool) (f : PipelineRunRecord → PipelineRunRecord) (t : RunTable)
    → ((x : PipelineRunRecord) → q (f x) ≡ q x)
    → rows_where q (update_where p f t) ≡ rows_where q t
unfolding update_where rows_where
update-rows_where q p f [] k = refl
update-rows_where q p f (x ∷ t) k = ground (arith, update-rows_where q p f t k, k x)

append-rows_where :
    (q : PipelineRunRecord → Bool) (t : RunTable) (r : PipelineRunRecord)
    → rows_where q (t ++ r ∷ []) ≡ rows_where q t + (if q r then 1 else 0)
unfolding rows_where
append-rows_where q [] r = ground arith
append-rows_where q (x ∷ t) r = let ih = append-rows_where q t r in omega (arith, ih)

-- Each run has one row at most, and every row passes the checks of a record.
abbrev pub Consistent : RunTable → Type 0
Consistent t = ((i : RunIdentity) → rows_where (has_key i) t ≤ 1) × All IsValid t

one_more :
    (j i : RunIdentity) (t : RunTable)
    → ((k : RunIdentity) → rows_where (has_key k) t ≤ 1)
    → rows_where (has_key j) t ≡ 0
    → rows_where (has_key i) t + (if same_identity j i then 1 else 0) ≤ 1
one_more j i t one absent = elim (Bool-cases (same_identity j i)) [
  | inl e ↦
      let none : rows_where (has_key i) t ≡ 0 =
        subst (λ k. rows_where (has_key k) t ≡ 0) (same_identity→eq j i e) absent in
      rw (e, none) (omega arith)
  | inr e ↦ let le = one i in rw e (omega (arith, le))
]

start-Consistent :
    (r : PipelineRunRecord) (t : RunTable) → IsValid r → Consistent t → Consistent (start r t).1
unfolding start
start-Consistent r t v (one, all) = elim (Bool-cases (not (is_running r.status))) [
  | inl e ↦ rw (e, start) (one, all)
  | inr e ↦ elim (Bool-cases (rows_where (has_key r.identity) t == 0)) [
    | inr n ↦ rw (e, n, start) (one, all)
    | inl n ↦
        let new = fresh_run r.identity r.run_type r.started_at in
        rw (e, n, start)
          (
            λ i.
                rw (append-rows_where (has_key i) t new)
                  (one_more r.identity i t one (ground arith)),
            All-append IsValid t (new ∷ []) all (fresh_run-IsValid r v, tt),
          )
  ]
]

update-Consistent :
    (p : PipelineRunRecord → Bool) (f : PipelineRunRecord → PipelineRunRecord) (t : RunTable)
    → ((x : PipelineRunRecord) → (f x).identity ≡ x.identity)
    → ((x : PipelineRunRecord) → IsValid x → IsValid (f x))
    → Consistent t
    → Consistent (update_where p f t)
update-Consistent p f t keeps valid (one, all) = (
  λ i.
      rw (update-rows_where (has_key i) p f t (λ x. ap (λ k. same_identity k i) (keeps x))) (one i),
  update-All IsValid p f t valid all,
)

-- The table that `finish` leaves, in each of its cases.
finish-table :
    (column : DurationColumn) (P : RunTable → Type 0) (r : PipelineRunRecord) (t : RunTable)
    → P t
    → (is_running r.status ≡ false → P (update_where (is_open r.identity) (set_end column r) t))
    → P (finish column r t).1
unfolding finish
finish-table column P r t p q = elim (Bool-cases (is_running r.status)) [
  | inl e ↦ rw (e, finish) p
  | inr e ↦ elim (Bool-cases (rows_where (is_open r.identity) t == 1)) [
    | inl n ↦ rw (e, n, finish) (q e)
    | inr n ↦ rw (e, n, finish) (q e)
  ]
]

increment-table :
    (P : RunTable → Type 0) (i : RunIdentity) (m : RunMetrics) (t : RunTable)
    → P (update_where (is_open i) (add_metrics m) t)
    → P (increment_metrics i m t).1
unfolding increment_metrics
increment-table P i m t p = elim (Bool-cases (rows_where (is_open i) t == 1)) [
  | inl n ↦ rw (n, increment_metrics) p
  | inr n ↦ rw (n, increment_metrics) p
]

Step-Consistent :
    (column : DurationColumn) (t u : RunTable) → Step column t u → Consistent t → Consistent u
Step-Consistent column t _ (started r _ v) c = start-Consistent r t v c
Step-Consistent column t _ (ended r _ v) c = finish-table column Consistent r t c (λ e.
    update-Consistent (is_open r.identity) (set_end column r) t (λ x. refl)
      (λ x. set_end-IsValid column r x v) c)
Step-Consistent column t _ (added i m _) c =
    increment-table Consistent i m t
      (update-Consistent (is_open i) (add_metrics m) t (λ x. refl) (λ x. add_metrics-IsValid m x) c)

-- Whatever the duration column keeps of a float, and whatever calls processes make, in any order
-- and whether they succeed or raise: a table in which each run has at most one row, and every row
-- passes the checks of a record, stays such a table.
pub Steps-Consistent :
    (column : DurationColumn) (t u : RunTable) → Steps column t u → Consistent t → Consistent u
Steps-Consistent column t _ (done _) c = c
Steps-Consistent column t v (then_step _ u _ before step) c =
    Step-Consistent column u v step (Steps-Consistent column t u before c)

-- The one row of the run has ended.
abbrev pub HasEnded : RunIdentity → PipelineRunRecord → RunTable → Type 0
HasEnded i row t = OnlyRow (has_key i) row t × (is_running row.status ≡ false)

insert-OnlyRow :
    (i : RunIdentity) (row new : PipelineRunRecord) (t : RunTable)
    → OnlyRow (has_key i) row t
    → rows_where (has_key new.identity) t ≡ 0
    → OnlyRow (has_key i) row (t ++ new ∷ [])
unfolding select_where
insert-OnlyRow i row new t only absent = elim (Bool-cases (same_identity new.identity i)) [
  | inl e ↦
      let none : rows_where (has_key i) t ≡ 0 =
        subst (λ k. rows_where (has_key k) t ≡ 0) (same_identity→eq new.identity i e) absent in
      let one : rows_where (has_key i) t ≡ 1 = rows_where-length (has_key i) t ∙ ap length only in
      absurd (omega (arith, none, one))
  | inr e ↦ rw (select_where-append (has_key i) t (new ∷ []), e) (append-nil _ ∙ only)
]

start-HasEnded :
    (i : RunIdentity) (row r : PipelineRunRecord) (t : RunTable)
    → HasEnded i row t
    → HasEnded i row (start r t).1
unfolding start
start-HasEnded i row r t (only, over) = elim (Bool-cases (not (is_running r.status))) [
  | inl e ↦ rw (e, start) (only, over)
  | inr e ↦ elim (Bool-cases (rows_where (has_key r.identity) t == 0)) [
    | inr n ↦ rw (e, n, start) (only, over)
    | inl n ↦
        rw (e, n, start)
          (
            insert-OnlyRow i row (fresh_run r.identity r.run_type r.started_at) t only
                (ground arith),
            over,
          )
  ]
]

update-HasEnded :
    (i j : RunIdentity) (row : PipelineRunRecord) (f : PipelineRunRecord → PipelineRunRecord)
    (t : RunTable)
    → ((x : PipelineRunRecord) → (f x).identity ≡ x.identity)
    → HasEnded i row t
    → HasEnded i row (update_where (is_open j) f t)
update-HasEnded i j row f t keeps (only, over) =
    let still : is_open j row ≡ false = ground arith in
    let kept =
      update-OnlyRow (has_key i) (is_open j) f row t (λ x. ap (λ k. same_identity k i) (keeps x))
        only in
    (rw still at kept, over)

Step-HasEnded :
    (column : DurationColumn) (i : RunIdentity) (row : PipelineRunRecord) (t u : RunTable)
    → Step column t u
    → HasEnded i row t
    → HasEnded i row u
Step-HasEnded column i row t _ (started r _ v) h = start-HasEnded i row r t h
Step-HasEnded column i row t _ (ended r _ v) h =
    finish-table column (HasEnded i row) r t h
      (λ e. update-HasEnded i r.identity row (set_end column r) t (λ x. refl) h)
Step-HasEnded column i row t _ (added j m _) h =
    increment-table (HasEnded i row) j m t (update-HasEnded i j row (add_metrics m) t (λ x. refl) h)

-- A run ends once, whatever the duration column keeps of a float: whatever calls processes make
-- after its one row has a status other than RUNNING, in any order and whether they succeed or
-- raise, the run keeps that row as it is.
pub Steps-HasEnded :
    (column : DurationColumn) (i : RunIdentity) (row : PipelineRunRecord) (t u : RunTable)
    → Steps column t u
    → HasEnded i row t
    → HasEnded i row u
Steps-HasEnded column i row t _ (done _) h = h
Steps-HasEnded column i row t v (then_step _ u _ before step) h =
    Step-HasEnded column i row u v step (Steps-HasEnded column i row t u before h)
