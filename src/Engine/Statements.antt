-- ===== src/Engine/Statements.antt =====
-- How a transaction reaches the step rows: a relation that is reflexive and holds of the change that
-- each kind of statement makes holds between the tables before and after.
use rupture_grid.Base.{
  ℕ, ◌≡◌, inl, inr, Bool, true, false, ◌&&◌, Option, none, some, List, Text, arith, ◌==◌,
  if◌then◌else◌, update_where, Rows, Rows-refl, Rows-update_where, Bool-cases,
}
use rupture_grid.Engine.Store.{
  StepState, StepRun, Db, is_open, is_active, advance_provenance_revision, is_waiting,
  InvocationRecord, matched_step, update_step,
}
use rupture_grid.Engine.Claim.{
  renewed_row, ClaimOptions, FencingContext, claim_of_run, claim_matched, claimed_row, is_claimable,
  is_owned_by, renew_of_run, renew_matched,
}
use rupture_grid.Engine.Transitions.{
  record_stale_writer_in_tx, allocate_sequence, fenced_of_run, fenced_matched, record_of_run,
  record_allocated, stale_of_run, max_attempts,
}
use rupture_grid.Engine.Recovery.{
  SettleCandidate, settle_run, settle_cancelled_run, resolve_of_run, resolve_matched,
  is_recoverable, indeterminate_row, requeued_row, cancel_steps, cancelled_row, close_blocked,
  closes_some, settle_closed, dependency_error, run_cancelled_error,
}
use rupture_grid.Engine.Reconciler.{change_marker, marker_matched}

pub settle_closed-step_runs :
    (clock : ℕ) (c : SettleCandidate) (closed : Bool) (db : Db)
    → (settle_closed clock c closed db).1.step_runs ≡ db.step_runs
unfolding advance_provenance_revision
settle_closed-step_runs clock c closed db = ground arith

pub settle_cancelled_run-step_runs :
    (clock run : ℕ) (db : Db)
    → (settle_cancelled_run clock run db).step_runs
      ≡ (cancel_steps is_open clock run run_cancelled_error db).step_runs
unfolding settle_cancelled_run advance_provenance_revision
settle_cancelled_run-step_runs clock run db = ground arith

module _ (R : StepRun → StepRun → Type 0) (R-refl : (s : StepRun) → R s s) where
  abbrev pub RowsOf : Db → Db → Type 0
  RowsOf db db' = Rows R db.step_runs db'.step_runs

  pub RowsOf-refl : (db : Db) → RowsOf db db
  RowsOf-refl db = Rows-refl R db.step_runs R-refl

  pub RowsOf-update_where :
      (p : StepRun → Bool) (f : StepRun → StepRun) (rows : List StepRun)
      → ((s : StepRun) → p s ≡ true → R s (f s))
      → Rows R rows (update_where p f rows)
  RowsOf-update_where p f rows h = Rows-update_where R p f rows R-refl h

  pub RowsOf-update_step :
      (id : ℕ) (test : StepRun → Bool) (f : StepRun → StepRun) (db : Db)
      → ((s : StepRun) → (s.id == id && test s) ≡ true → R s (f s))
      → RowsOf db (update_step id test f db)
  RowsOf-update_step id test f db h =
      RowsOf-update_where (λ s. s.id == id && test s) f db.step_runs h

  -- A fenced write changes step rows only by its own update.
  pub RowsOf-fenced_of_run :
      (id : ℕ) (ctx : FencingContext) (detail : Text) (test : StepRun → Bool)
      (f : StepRun → StepRun) (db : Db) (run : Option ℕ)
      → ((s : StepRun) → (s.id == id && test s) ≡ true → R s (f s))
      → RowsOf db (fenced_of_run id ctx detail test f db run).1
  unfolding advance_provenance_revision record_stale_writer_in_tx
  RowsOf-fenced_of_run id ctx detail test f db none h = RowsOf-refl db
  RowsOf-fenced_of_run id ctx detail test f db (some run) h =
      elim (matched_step id test db)
        as (λ m. RowsOf db (fenced_matched id ctx detail test f run db m).1) [
          | none ↦ RowsOf-refl db
          | some s ↦ RowsOf-update_step id test f db h
        ]

  pub RowsOf-change_marker :
      (run id : ℕ) (test : StepRun → Bool) (f : StepRun → StepRun) (db : Db)
      → ((s : StepRun) → (s.id == id && test s) ≡ true → R s (f s))
      → RowsOf db (change_marker run id test f db).1
  unfolding advance_provenance_revision
  RowsOf-change_marker run id test f db h =
      elim (matched_step id test db) as (λ m. RowsOf db (marker_matched run id test f db m).1) [
        | none ↦ RowsOf-refl db
        | some s ↦ RowsOf-update_step id test f db h
      ]

  pub RowsOf-claim_of_run :
      (now : ℕ) (options : ClaimOptions) (id : ℕ) (db : Db) (run : Option ℕ)
      → ((s : StepRun)
          → (s.id == id && is_claimable db now s) ≡ true
          → R s (claimed_row now options s))
      → RowsOf db (claim_of_run now options id db run).1
  unfolding advance_provenance_revision
  RowsOf-claim_of_run now options id db none h = RowsOf-refl db
  RowsOf-claim_of_run now options id db (some run) h =
      elim (matched_step id (is_claimable db now) db)
        as (λ m. RowsOf db (claim_matched now options id run db m).1) [
          | none ↦ RowsOf-refl db
          | some s ↦ RowsOf-update_step id (is_claimable db now) (claimed_row now options) db h
        ]

  pub RowsOf-renew_of_run :
      (now duration id : ℕ) (ctx : FencingContext) (db : Db) (run : Option ℕ)
      → ((s : StepRun)
          → (s.id == id && (is_owned_by ctx s && is_active s.state)) ≡ true
          → R s (renewed_row now duration s))
      → RowsOf db (renew_of_run now duration id ctx db run).1
  unfolding advance_provenance_revision
  RowsOf-renew_of_run now duration id ctx db none h = RowsOf-refl db
  RowsOf-renew_of_run now duration id ctx db (some run) h =
      elim (matched_step id (λ x. is_owned_by ctx x && is_active x.state) db)
        as (λ m. RowsOf db (renew_matched now duration id ctx run db m).1) [
          | none ↦ RowsOf-refl db
          | some s ↦
              RowsOf-update_step id (λ x. is_owned_by ctx x && is_active x.state)
                (renewed_row now duration) db h
        ]

  pub RowsOf-record_of_run :
      (id : ℕ) (observed : InvocationRecord) (ctx : FencingContext) (db : Db) (run : Option ℕ)
      → RowsOf db (record_of_run id observed ctx db run).1
  unfolding advance_provenance_revision
  RowsOf-record_of_run id observed ctx db none = RowsOf-refl db
  RowsOf-record_of_run id observed ctx db (some run) =
      elim (allocate_sequence max_attempts id observed.sequence db.invocations)
        as (λ m. RowsOf db (record_allocated run id observed ctx db m).1) [
          | none ↦ RowsOf-refl db
          | some sequence ↦ RowsOf-refl db
        ]

  pub RowsOf-stale_of_run :
      (id : ℕ) (ctx : FencingContext) (detail : Text) (db : Db) (run : Option ℕ)
      → RowsOf db (stale_of_run id ctx detail db run).1
  unfolding advance_provenance_revision record_stale_writer_in_tx
  RowsOf-stale_of_run id ctx detail db none = RowsOf-refl db
  RowsOf-stale_of_run id ctx detail db (some run) = RowsOf-refl db

  RowsOf-resolved :
      (now clock id : ℕ) (ambiguous : Bool) (run : ℕ) (s : StepRun) (db : Db)
      → ((x : StepRun)
          → (x.id == id && is_recoverable now x) ≡ true
          → R x (if ambiguous then indeterminate_row clock x else requeued_row x))
      → RowsOf db (resolve_matched now clock id ambiguous run db (some s)).1
  unfolding advance_provenance_revision
  RowsOf-resolved now clock id true run s db h =
      RowsOf-update_step id (is_recoverable now) (indeterminate_row clock) db h
  RowsOf-resolved now clock id false run s db h =
      RowsOf-update_step id (is_recoverable now) requeued_row db h

  pub RowsOf-resolve_of_run :
      (now clock id : ℕ) (ambiguous : Bool) (db : Db) (run : Option ℕ)
      → ((s : StepRun)
          → (s.id == id && is_recoverable now s) ≡ true
          → R s (if ambiguous then indeterminate_row clock s else requeued_row s))
      → RowsOf db (resolve_of_run now clock id ambiguous db run).1
  unfolding advance_provenance_revision
  RowsOf-resolve_of_run now clock id ambiguous db none h = RowsOf-refl db
  RowsOf-resolve_of_run now clock id ambiguous db (some run) h =
      elim (matched_step id (is_recoverable now) db)
        as (λ m. RowsOf db (resolve_matched now clock id ambiguous run db m).1) [
          | none ↦ RowsOf-refl db
          | some s ↦ RowsOf-resolved now clock id ambiguous run s db h
        ]

  pub RowsOf-cancel_steps :
      (p : StepState → Bool) (clock run : ℕ) (message : Text) (db : Db)
      → ((s : StepRun)
          → (s.run_id == run && p s.state) ≡ true
          → R s (cancelled_row clock message s))
      → RowsOf db (cancel_steps p clock run message db)
  RowsOf-cancel_steps p clock run message db h =
      RowsOf-update_where (λ s. s.run_id == run && p s.state) (cancelled_row clock message)
        db.step_runs h

  RowsOf-close_blocked :
      (clock : ℕ) (c : SettleCandidate) (db : Db)
      → ((s : StepRun)
          → ((c.has_failure && c.has_open) ≡ true)
          → ((s.run_id == c.id && is_waiting s.state) ≡ true)
          → R s (cancelled_row clock dependency_error s))
      → RowsOf db (close_blocked clock c db)
  RowsOf-close_blocked clock c db h = elim (Bool-cases (c.has_failure && c.has_open)) [
    | inl e ↦ rw e (RowsOf-cancel_steps is_waiting clock c.id dependency_error db (λ s w. h s e w))
    | inr e ↦ rw e (RowsOf-refl db)
  ]

  pub RowsOf-settle_run :
      (clock : ℕ) (c : SettleCandidate) (db : Db)
      → ((s : StepRun)
          → ((c.has_failure && c.has_open) ≡ true)
          → ((s.run_id == c.id && is_waiting s.state) ≡ true)
          → R s (cancelled_row clock dependency_error s))
      → RowsOf db (settle_run clock c db).1
  unfolding settle_run
  RowsOf-settle_run clock c db h =
      rw (settle_closed-step_runs clock c (closes_some c db) (close_blocked clock c db))
        (RowsOf-close_blocked clock c db h)
