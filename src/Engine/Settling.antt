-- ===== src/Engine/Settling.antt =====
-- Settling of runs (recovery.ts): the verdict of a settled run, also when other transactions run
-- between the query that found it and its own transaction.
pub mod Verdict
use mathlib.Core.List.{Memᴰ}
use rupture_grid.Base.{
  ℕ, ◌<◌, ◌≡◌, refl, sym, ◌∙◌, ap, ◌⊎◌, inl, inr, Bool, true, false, not, ◌&&◌, ◌||◌, Option, none,
  some, List, [], ◌∷◌, arith, ◌==◌, ltb, if◌then◌else◌, any, count_of, Rows, Rows-trans,
  Rows-member, Rows-image, any-false, any-true, any-witness, count_of-zero, count_of-pos,
  Bool-cases, update_where-member, take-member, update_where, change, find_by-update_key,
  &&-eq-true, &&-true, ==_refl, ==_iff,
}
use rupture_grid.Engine.Store.{
  StepState, RunState, StepRun, Run, Db, is_open, is_waiting, is_active, is_succeeded,
  is_unsuccessful, is_running, find_run, advance_provenance_revision,
}
use rupture_grid.Engine.Recovery.{
  SettleCandidate, settle_candidates, settle_candidate, settle_rows, is_settleable, settle_run,
  settle_closed, close_blocked, closes_some, has_step, any_state, failed_count, settled_row,
  cancelled_row, dependency_error,
}
use rupture_grid.Engine.Schedule.{Op, settle, run_schedule, apply}
use rupture_grid.Engine.RowChange.{Rows-apply}
use rupture_grid.Engine.Evolution.{
  Evolves, Evolves-refl, Evolves-trans, RowChange-Evolves, Rows-Evolves,
}
use rupture_grid.Engine.Statements.{settle_closed-step_runs}

abbrev pub AllSteps : (StepState → Bool) → ℕ → Db → Type 0
AllSteps p run db = (s : StepRun) → Memᴰ s db.step_runs → s.run_id ≡ run → p s.state ≡ true

-- Some step of the run is in one of the states.
abbrev pub SomeStep : (StepState → Bool) → ℕ → Db → Type 0
SomeStep p run db = (s : StepRun) × Memᴰ s db.step_runs × (s.run_id ≡ run) × (p s.state ≡ true)

listed-member :
    (db : Db) (rs : List Run) (r : Run) (c : SettleCandidate)
    → is_settleable db r ≡ true
    → (Memᴰ c (settle_rows db rs)
        → (q : Run) × (c ≡ settle_candidate db q) × (is_settleable db q ≡ true))
    → Memᴰ c (settle_candidate db r ∷ settle_rows db rs)
    → (q : Run) × (c ≡ settle_candidate db q) × (is_settleable db q ≡ true)
listed-member db rs r c e rest (Memᴰ.head same) = (r, same, e)
listed-member db rs r c e rest (Memᴰ.tail m) = rest m

-- The row that the query gives for a run.
settle_rows-member :
    (db : Db) (rs : List Run) (c : SettleCandidate)
    → Memᴰ c (settle_rows db rs)
    → (r : Run) × (c ≡ settle_candidate db r) × (is_settleable db r ≡ true)
unfolding settle_rows
settle_rows-member db [] c m = elim m [ ]
settle_rows-member db (r ∷ rs) c m = elim (Bool-cases (is_settleable db r)) [
  | inl e ↦ listed-member db rs r c e (settle_rows-member db rs c) (rw e at m)
  | inr e ↦ settle_rows-member db rs c (rw e at m)
]

settle_candidates-member :
    (limit : ℕ) (db : Db) (c : SettleCandidate)
    → Memᴰ c (settle_candidates limit db)
    → (r : Run) × (c ≡ settle_candidate db r) × (is_settleable db r ≡ true)
unfolding settle_candidates
settle_candidates-member limit db c m =
    settle_rows-member db db.runs c (take-member limit (settle_rows db db.runs) c m)

-- What the query established of a candidate: no step is active, and without a failure none is waiting.
pub record IsCandidate (c : SettleCandidate) (db : Db) : Type 0 where
  pub idle : has_step is_active c.id db ≡ false
  pub failure : c.has_failure ≡ has_step is_unsuccessful c.id db
  pub open_steps : c.has_open ≡ has_step is_open c.id db
  pub finished : has_step is_unsuccessful c.id db ≡ false → has_step is_waiting c.id db ≡ false

IsCandidate-row :
    (db : Db) (r : Run) → is_settleable db r ≡ true → IsCandidate (settle_candidate db r) db
IsCandidate-row db r h = ground arith

pub settle_candidates-IsCandidate :
    (limit : ℕ) (db : Db) (c : SettleCandidate)
    → Memᴰ c (settle_candidates limit db)
    → IsCandidate c db
settle_candidates-IsCandidate limit db c m =
    let (r, same, e) = settle_candidates-member limit db c m in rw same (IsCandidate-row db r e)

-- A row of the run shows that some step is in a state.
pub no_step :
    (p : StepState → Bool) (run : ℕ) (db : Db) (s : StepRun)
    → has_step p run db ≡ false
    → Memᴰ s db.step_runs
    → s.run_id ≡ run
    → p s.state ≡ false
no_step p run db s h m same =
    let row = any-false (λ x. x.run_id == run && p x.state) db.step_runs s h m in ground arith

succeeded_of_closed :
    (x : StepState) → is_open x ≡ false → is_unsuccessful x ≡ false → is_succeeded x ≡ true
succeeded_of_closed x h k = ground arith

pub closed_of_idle :
    (x : StepState) → is_active x ≡ false → is_waiting x ≡ false → is_open x ≡ false
closed_of_idle x h k = ground arith

pub settle_run-step_runs :
    (clock : ℕ) (c : SettleCandidate) (db : Db)
    → (settle_run clock c db).1.step_runs ≡ (close_blocked clock c db).step_runs
unfolding settle_run
settle_run-step_runs clock c db =
    settle_closed-step_runs clock c (closes_some c db) (close_blocked clock c db)

-- From the tables of the query to those behind the transaction, rows evolve.
Rows-settled :
    (clock : ℕ) (c : SettleCandidate) (ops : List Op) (db : Db)
    → Rows Evolves db.step_runs (settle_run clock c (run_schedule ops db)).1.step_runs
unfolding apply
Rows-settled clock c ops db =
    Rows-trans Evolves db.step_runs (run_schedule ops db).step_runs _ Evolves-trans
      (Rows-Evolves ops db)
      (Rows-apply Evolves Evolves-refl (settle clock c) (run_schedule ops db)
        (RowChange-Evolves (settle clock c) (run_schedule ops db)))

module _ (clock : ℕ) (c : SettleCandidate) (ops : List Op) (db : Db)
    (found : IsCandidate c db) where
  -- The tables behind the transaction.
  abbrev pub after : Db
  after = (settle_run clock c (run_schedule ops db)).1

  pub failure_remains :
      has_step is_unsuccessful c.id db ≡ true → SomeStep is_unsuccessful c.id after
  failure_remains h =
      let (s, s_in, e) =
        any-witness (λ x. x.run_id == c.id && is_unsuccessful x.state) db.step_runs h in
      let (t, t_in, kept) = Rows-image Evolves _ _ s (Rows-settled clock c ops db) s_in in
      (t, t_in, grind arith, grind arith)

  pub success_remains : has_step is_unsuccessful c.id db ≡ false → AllSteps is_succeeded c.id after
  success_remains h t t_in same =
      let (s, s_in, kept) = Rows-member Evolves _ _ t (Rows-settled clock c ops db) t_in in
      let run : s.run_id ≡ c.id = sym kept.same_run ∙ same in
      let quiet = no_step is_active c.id db s found.idle s_in run in
      let dry = no_step is_waiting c.id db s (found.finished h) s_in run in
      let well = no_step is_unsuccessful c.id db s h s_in run in
      let shut = closed_of_idle s.state quiet dry in
      rw (kept.write_once shut).state (succeeded_of_closed s.state shut well)
