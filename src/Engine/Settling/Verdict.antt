-- ===== src/Engine/Settling/Verdict.antt =====
-- The state that settling gives to a run, and that it leaves no step open.
use mathlib.Core.List.{Memᴰ}
use rupture_grid.Base.{
  count_of-none, any-true, ℕ, ◌<◌, ◌≡◌, refl, sym, ◌∙◌, ap, ◌⊎◌, inl, inr, Bool, true, false, ◌&&◌,
  some, List, arith, ◌==◌, if◌then◌else◌, count_of, count_of-pos, Bool-cases, update_where-member,
  update_where, find_by-update_key, &&-true, ==_iff,
}
use rupture_grid.Engine.Store.{
  StepState, RunState, StepRun, Run, Db, is_open, is_waiting, is_active, is_succeeded,
  is_unsuccessful, is_running, find_run, advance_provenance_revision,
}
use rupture_grid.Engine.Recovery.{
  SettleCandidate, settle_candidates, settle_run, settle_closed, close_blocked, closes_some,
  has_step, failed_count, settled_row, cancelled_row, dependency_error,
}
use rupture_grid.Engine.Schedule.{Op, run_schedule}
use rupture_grid.Engine.Settling.{
  AllSteps, SomeStep, IsCandidate, settle_candidates-IsCandidate, settle_run-step_runs, no_step,
  closed_of_idle, failure_remains, success_remains,
}

-- COMPLETED with every step SUCCEEDED, or FAILED with some step FAILED or CANCELLED.
pub record HasVerdict (run : ℕ) (db : Db) : Type 0 where
  pub row : Run
  pub found : find_run run db ≡ some row
  pub verdict :
      ((row.state ≡ RunState.completed) × AllSteps is_succeeded run db)
      ⊎ ((row.state ≡ RunState.failed) × SomeStep is_unsuccessful run db)

close_blocked-runs :
    (clock : ℕ) (c : SettleCandidate) (db : Db) → (close_blocked clock c db).runs ≡ db.runs
close_blocked-runs clock c db = ground arith

settle_closed-runs :
    (clock : ℕ) (c : SettleCandidate) (closed : Bool) (db : Db)
    → (settle_closed clock c closed db).1.runs
      ≡ update_where
          (λ r. r.id == c.id && is_running r.state)
          (settled_row clock (failed_count c.id db) c.id db)
          db.runs
unfolding advance_provenance_revision
settle_closed-runs clock c closed db = ground arith

settle_run-find_run :
    (clock : ℕ) (c : SettleCandidate) (db : Db) (r : Run)
    → find_run c.id db ≡ some r
    → is_running r.state ≡ true
    → (let body = close_blocked clock c db in
        find_run c.id (settle_run clock c db).1
        ≡ some (settled_row clock (failed_count c.id body) c.id body r))
unfolding settle_run
settle_run-find_run clock c db r found running =
    let body = close_blocked clock c db in
    rw (settle_closed-runs clock c (closes_some c db) body) (
      find_by-update_key (λ x. x.id) c.id (λ x. is_running x.state)
        (settled_row clock (failed_count c.id body) c.id body) body.runs r (λ x. refl)
        (rw (close_blocked-runs clock c db) found) running)

-- The count of the transaction speaks of the rows behind it.
failed_count-after :
    (clock : ℕ) (c : SettleCandidate) (db : Db)
    → failed_count c.id (close_blocked clock c db) ≡ failed_count c.id (settle_run clock c db).1
failed_count-after clock c db =
    ap (count_of (λ s. s.run_id == c.id && is_unsuccessful s.state))
      (sym (settle_run-step_runs clock c db))

not_unsuccessful :
    (b : Bool) (x : StepState) → is_succeeded x ≡ true → (b && is_unsuccessful x) ≡ false
not_unsuccessful b x h = ground arith

not_of_run :
    (run : ℕ) (s : StepRun)
    → (s.run_id == run) ≡ false
    → (s.run_id == run && is_unsuccessful s.state) ≡ false
not_of_run run s h = rw h refl

failed_count-zero : (run : ℕ) (db : Db) → AllSteps is_succeeded run db → failed_count run db ≡ 0
failed_count-zero run db all =
    count_of-none (λ s. s.run_id == run && is_unsuccessful s.state) db.step_runs
      (λ s m. elim (Bool-cases (s.run_id == run)) [
        | inl e ↦ not_unsuccessful (s.run_id == run) s.state (all s m ((==_iff s.run_id run).0 e))
        | inr e ↦ not_of_run run s e
      ])

failed_count-pos : (run : ℕ) (db : Db) → SomeStep is_unsuccessful run db → 0 < failed_count run db
failed_count-pos run db (s, m, same, bad) =
    count_of-pos (λ x. x.run_id == run && is_unsuccessful x.state) db.step_runs
      (any-true (λ x. x.run_id == run && is_unsuccessful x.state) db.step_runs s
        (&&-true (s.run_id == run) (is_unsuccessful s.state) ((==_iff s.run_id run).1 same) bad) m)

settled-completed :
    (clock n run : ℕ) (db : Db) (r : Run)
    → n ≡ 0
    → (settled_row clock n run db r).state ≡ RunState.completed
settled-completed clock n run db r h = ground arith

settled-failed :
    (clock n run : ℕ) (db : Db) (r : Run)
    → 0 < n
    → (settled_row clock n run db r).state ≡ RunState.failed
settled-failed clock n run db r h = ground arith

-- A run that the settling query has found, and that is still RUNNING when its own transaction runs, is
-- settled rightly whatever happened in between: it becomes COMPLETED and all of its steps have
-- SUCCEEDED, or it becomes FAILED and some step of it is FAILED or CANCELLED.
pub settle_run-HasVerdict :
    (clock limit : ℕ) (c : SettleCandidate) (ops : List Op) (db : Db) (r : Run)
    → Memᴰ c (settle_candidates limit db)
    → find_run c.id (run_schedule ops db) ≡ some r
    → is_running r.state ≡ true
    → HasVerdict c.id (settle_run clock c (run_schedule ops db)).1
settle_run-HasVerdict clock limit c ops db r listed present running =
    let found = settle_candidates-IsCandidate limit db c listed in
    let db₁ = run_schedule ops db in
    let db₂ = (settle_run clock c db₁).1 in
    let body = close_blocked clock c db₁ in
    let row = settled_row clock (failed_count c.id body) c.id body r in
    let row_found = settle_run-find_run clock c db₁ r present running in
    let count = failed_count-after clock c db₁ in
    elim (Bool-cases (has_step is_unsuccessful c.id db)) [
      | inl bad ↦
          let some_bad = failure_remains clock c ops db found bad in
          record {
            row = row;
            found = row_found;
            verdict = inr (
              settled-failed clock (failed_count c.id body) c.id body r
                  (rw count (failed_count-pos c.id db₂ some_bad)),
              some_bad,
            );
          }
      | inr good ↦
          let all_good = success_remains clock c ops db found good in
          record {
            row = row;
            found = row_found;
            verdict = inl (
              settled-completed clock (failed_count c.id body) c.id body r
                  (count ∙ failed_count-zero c.id db₂ all_good),
              all_good,
            );
          }
    ]

change-closed :
    (b : Bool) (clock : ℕ) (s : StepRun)
    → is_active s.state ≡ false
    → (b ≡ false → is_waiting s.state ≡ false)
    → is_open (if b then cancelled_row clock dependency_error s else s).state ≡ false
change-closed true clock s h k = refl
change-closed false clock s h k = closed_of_idle s.state h (k refl)

change-run :
    (b : Bool) (clock : ℕ) (s : StepRun)
    → (if b then cancelled_row clock dependency_error s else s).run_id ≡ s.run_id
change-run true clock s = refl
change-run false clock s = refl

waits_not : (a b : ℕ) (w : Bool) → a ≡ b → (a == b && w) ≡ false → w ≡ false
waits_not a b w h k = ground arith

idle_step :
    (c : SettleCandidate) (db : Db) (s : StepRun)
    → IsCandidate c db
    → (c.has_failure && c.has_open) ≡ false
    → Memᴰ s db.step_runs
    → s.run_id ≡ c.id
    → is_waiting s.state ≡ false
idle_step c db s found e m same = elim (Bool-cases (has_step is_unsuccessful c.id db)) [
  | inl bad ↦ let none_open = no_step is_open c.id db s (grind arith) m same in ground arith
  | inr good ↦ no_step is_waiting c.id db s (found.finished good) m same
]

closed_member :
    (clock : ℕ) (c : SettleCandidate) (db : Db) (t : StepRun)
    → IsCandidate c db
    → Memᴰ t (
        update_where
          (λ s. s.run_id == c.id && is_waiting s.state)
          (cancelled_row clock dependency_error)
          db.step_runs)
    → t.run_id ≡ c.id
    → is_open t.state ≡ false
closed_member clock c db t found m same =
    let (s, s_in, e) =
      update_where-member (λ x. x.run_id == c.id && is_waiting x.state)
        (cancelled_row clock dependency_error) db.step_runs t m in
    let run : s.run_id ≡ c.id =
      sym (change-run (s.run_id == c.id && is_waiting s.state) clock s)
      ∙ (sym (ap (λ x. x.run_id) e) ∙ same) in
    let quiet = no_step is_active c.id db s found.idle s_in run in
    rw e (
      change-closed (s.run_id == c.id && is_waiting s.state) clock s quiet
        (λ h. waits_not s.run_id c.id (is_waiting s.state) run h))

-- A run that the settling query has just found is left with no step open: what was waiting behind a
-- failure is cancelled.
pub settle_run-closes :
    (clock limit : ℕ) (c : SettleCandidate) (db : Db)
    → Memᴰ c (settle_candidates limit db)
    → (s : StepRun) → Memᴰ s (settle_run clock c db).1.step_runs
    → s.run_id ≡ c.id
    → is_open s.state ≡ false
settle_run-closes clock limit c db listed t t_in same =
    let found = settle_candidates-IsCandidate limit db c listed in
    let m = rw (settle_run-step_runs clock c db) at t_in in
    elim (Bool-cases (c.has_failure && c.has_open)) [
      | inl e ↦ closed_member clock c db t found (rw e at m) same
      | inr e ↦
          let m' : Memᴰ t db.step_runs = rw e at m in
          closed_of_idle t.state (no_step is_active c.id db t found.idle m' same)
            (idle_step c db t found e m' same)
    ]
