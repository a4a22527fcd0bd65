-- ===== src/Engine/Reconciliation.antt =====
-- Conservative recovery: what the reconciler does with an expired lease.

use mathlib.Core.Path.{subst}
use rupture_grid.Base.{
  ℕ, ◌≡◌, refl, sym, ap, ◌∙◌, Bool, true, false, ◌&&◌, Option, some, arith, if◌then◌else◌,
  guarded-passes, find_by-update_key,
}
use rupture_grid.Engine.Classify.{is_mutating, mutating, read_only}
use rupture_grid.Engine.Store.{StepRun, Db, find_step, advance_provenance_revision}
use rupture_grid.Engine.Store.Laws.{resolve_run_id_of_step-some}
use rupture_grid.Engine.Recovery.{
  Resolution, resolve_expired_lease, resolve_of_run, resolve_matched, is_recoverable,
  indeterminate_row, requeued_row,
}
use rupture_grid.Engine.Reconciler.{is_mutating_step, has_sent_invocation, reconcile_step}

-- What one round gives: its answer and the row behind it.
pub record Resolves (id : ℕ) (answer : Option Resolution) (row : StepRun)
    (outcome : Option Resolution × Db) : Type 0 where
  pub answered : outcome.0 ≡ answer
  pub left : find_step id outcome.1 ≡ some row

-- How the reconciler decides, by the frozen snapshot alone.
abbrev pub reconciled_answer : Bool → Resolution
reconciled_answer is_mutating = if is_mutating then Resolution.indeterminate else Resolution.requeue

abbrev pub reconciled_row : Bool → ℕ → StepRun → StepRun
reconciled_row is_mutating clock s =
    if is_mutating then indeterminate_row clock s else requeued_row s

resolve_matched-Resolves :
    (now clock id run : ℕ) (ambiguous : Bool) (db : Db) (s : StepRun)
    → find_step id db ≡ some s
    → is_recoverable now s ≡ true
    → Resolves id
        (some (reconciled_answer ambiguous))
        (reconciled_row ambiguous clock s)
        (resolve_matched now clock id ambiguous run db (some s))
unfolding advance_provenance_revision
resolve_matched-Resolves now clock id run true db s found e = record {
  answered = refl;
  left =
      find_by-update_key (λ x. x.id) id (is_recoverable now) (indeterminate_row clock) db.step_runs
        s (λ x. refl) found e;
}
resolve_matched-Resolves now clock id run false db s found e = record {
  answered = refl;
  left =
      find_by-update_key (λ x. x.id) id (is_recoverable now) requeued_row db.step_runs s (λ x. refl)
        found e;
}

ambiguity :
    (m sent : Bool)
    → (is_mutating (if m then mutating else read_only) && (if m && sent then true else m)) ≡ m
ambiguity m sent = ground arith

-- An expired lease is resolved by the declared mutation alone: a step that its snapshot does not
-- declare READ_ONLY becomes FAILED with an INDETERMINATE effect and is never handed on, whatever was
-- recorded of its invocations; a READ_ONLY step goes back to PENDING without an owner.
pub reconcile_step-Resolves :
    (now clock id : ℕ) (db : Db) (s : StepRun)
    → find_step id db ≡ some s
    → is_recoverable now s ≡ true
    → Resolves id
        (some (reconciled_answer (is_mutating_step id db)))
        (reconciled_row (is_mutating_step id db) clock s)
        (reconcile_step now clock id db)
unfolding reconcile_step resolve_expired_lease
reconcile_step-Resolves now clock id db s found e =
    let m = is_mutating_step id db in
    let sent = has_sent_invocation id db in
    let ambiguous =
      is_mutating (if m then mutating else read_only) && (if m && sent then true else m) in
    let path : reconcile_step now clock id db
        ≡ resolve_matched now clock id m s.run_id db (some s) =
      ap (λ o. resolve_of_run now clock id ambiguous db o)
        (resolve_run_id_of_step-some id db s found)
      ∙ ap (λ b. resolve_of_run now clock id b db (some s.run_id)) (ambiguity m sent)
      ∙ ap (λ o. resolve_matched now clock id m s.run_id db o)
          (guarded-passes (is_recoverable now) (find_step id db) s found e) in
    subst (Resolves id (some (reconciled_answer m)) (reconciled_row m clock s)) (sym path)
      (resolve_matched-Resolves now clock id s.run_id m db s found e)
