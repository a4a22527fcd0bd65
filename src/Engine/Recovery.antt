-- ===== src/Engine/Recovery.antt =====
-- packages/engine/src/recovery.ts: expired leases, settling of finished runs, and cancelled runs.
-- `now` is the time of the database, `clock` that of the worker.
use rupture_grid.Base.{
  ℕ, ◌+◌, Bool, true, false, not, ◌&&◌, ◌||◌, Option, none, some, List, [], ◌∷◌, Text, codes, take,
  ltb, ◌==◌, if◌then◌else◌, any, count_of, update_where,
}
use rupture_grid.Engine.Classify.{
  IntentOutcome, SideEffectKnowledge, Mutation, is_mutating, is_indeterminate,
}
use rupture_grid.Engine.Store.{
  StepState, RunState, DispatchState, StepRun, Run, StepInvocation, FailureReason, Db, is_active,
  is_waiting, is_open, is_unsuccessful, is_running, is_expired, resolve_run_id_of_step,
  matched_step, update_step, update_run, advance_provenance_revision,
}

pub data Resolution : Type 0 where
  indeterminate requeue : Resolution

abbrev pub lease_expired_error : Text
lease_expired_error = codes "lease expired mid-flight; mutation outcome not safely known (ADR-0008)"

abbrev pub indeterminate_row : ℕ → StepRun → StepRun
indeterminate_row clock s = record s {
  state = StepState.failed;
  intent_outcome = some IntentOutcome.failed;
  side_effect_knowledge = some SideEffectKnowledge.indeterminate;
  error = some lease_expired_error;
  terminal_at = some clock;
}

abbrev pub requeued_row : StepRun → StepRun
requeued_row s = record s {
  state = StepState.pending;
  lease_owner = none;
  lease_expires_at = none;
  dispatch_state = DispatchState.reconcile;
}

-- The row is active and its lease has expired in database time.
abbrev pub is_recoverable : ℕ → StepRun → Bool
is_recoverable now s = is_active s.state && is_expired s.lease_expires_at now

abbrev pub resolve_matched : ℕ → ℕ → ℕ → Bool → ℕ → Db → Option StepRun → Option Resolution × Db
resolve_matched now clock id ambiguous run db none = (none, db)
resolve_matched now clock id ambiguous run db (some s) =
    if ambiguous
    then (
      some Resolution.indeterminate,
      advance_provenance_revision run
          (update_step id (is_recoverable now) (indeterminate_row clock) db),
    )
    else (
      some Resolution.requeue,
      advance_provenance_revision run (update_step id (is_recoverable now) requeued_row db),
    )

abbrev pub resolve_of_run : ℕ → ℕ → ℕ → Bool → Db → Option ℕ → Option Resolution × Db
resolve_of_run now clock id ambiguous db none = (none, db)
resolve_of_run now clock id ambiguous db (some run) =
    resolve_matched now clock id ambiguous run db (matched_step id (is_recoverable now) db)

unfoldable pub resolve_expired_lease : ℕ → ℕ → ℕ → Mutation → Bool → Db → Option Resolution × Db
unfolding resolve_run_id_of_step
resolve_expired_lease now clock id mutation maybe_sent db =
    resolve_of_run now clock id (is_mutating mutation && maybe_sent) db
      (resolve_run_id_of_step id db)

-- One row of the settling query.
pub record SettleCandidate : Type 0 where
  pub id : ℕ
  pub has_failure : Bool
  pub has_open : Bool

-- `EXISTS (… s.runId = r.id AND s.state IN …)`.
abbrev pub has_step : (StepState → Bool) → ℕ → Db → Bool
has_step p run db = any (λ s. s.run_id == run && p s.state) db.step_runs

abbrev pub any_state : StepState → Bool
any_state s = true

-- The WHERE clause of the settling query.
abbrev pub is_settleable : Db → Run → Bool
is_settleable db r =
    is_running r.state
    && (has_step any_state r.id db
        && (not (has_step is_active r.id db)
            && (not (has_step is_waiting r.id db) || has_step is_unsuccessful r.id db)))

abbrev pub settle_candidate : Db → Run → SettleCandidate
settle_candidate db r = record {
  id = r.id;
  has_failure = has_step is_unsuccessful r.id db;
  has_open = has_step is_open r.id db;
}

unfoldable pub settle_rows : Db → List Run → List SettleCandidate
settle_rows db [] = []
settle_rows db (r ∷ rs) =
    let rest = settle_rows db rs in
    if is_settleable db r then settle_candidate db r ∷ rest else rest

unfoldable pub settle_candidates : ℕ → Db → List SettleCandidate
unfolding settle_rows
settle_candidates limit db = take limit (settle_rows db db.runs)

abbrev pub dependency_error : Text
dependency_error = codes "dependency step failed; ordered execution stopped before this step"

abbrev pub cancelled_row : ℕ → Text → StepRun → StepRun
cancelled_row clock message s = record s {
  state = StepState.cancelled;
  intent_outcome = some IntentOutcome.cancelled;
  side_effect_knowledge = some SideEffectKnowledge.known_absent;
  terminal_at = some clock;
  error = some message;
}

-- Every step of a run in one of the given states becomes CANCELLED with KNOWN_ABSENT.
abbrev pub cancel_steps : (StepState → Bool) → ℕ → ℕ → Text → Db → Db
cancel_steps p clock run message db = record db {
  step_runs =
      update_where (λ s. s.run_id == run && p s.state) (cancelled_row clock message) db.step_runs;
}

abbrev pub belongs_to : ℕ → Db → StepInvocation → Bool
belongs_to run db i = any (λ s. s.id == i.step_run_id && s.run_id == run) db.step_runs

abbrev pub failure_reason : ℕ → ℕ → Db → Option FailureReason → Option FailureReason
failure_reason failed run db old =
    if ltb 0 failed
    then some (record {
      failed_steps = failed;
      indeterminate_invocations =
          count_of (λ i. belongs_to run db i && is_indeterminate i.observed.side_effect_knowledge)
            db.invocations;
    })
    else old

abbrev pub settled_row : ℕ → ℕ → ℕ → Db → Run → Run
settled_row clock failed run db r = record r {
  state = if ltb 0 failed then RunState.failed else RunState.completed;
  terminal_at = some clock;
  failure_reason = failure_reason failed run db r.failure_reason;
}

abbrev pub failed_count : ℕ → Db → ℕ
failed_count run db = count_of (λ s. s.run_id == run && is_unsuccessful s.state) db.step_runs

-- The first statement: the steps blocked behind a failure are closed.
abbrev pub close_blocked : ℕ → SettleCandidate → Db → Db
close_blocked clock c db =
    if c.has_failure && c.has_open
    then cancel_steps is_waiting clock c.id dependency_error db
    else db

abbrev pub closes_some : SettleCandidate → Db → Bool
closes_some c db = (c.has_failure && c.has_open) && has_step is_waiting c.id db

-- The rest of the transaction, on the tables `db` that the first statement left.
abbrev pub settle_closed : ℕ → SettleCandidate → Bool → Db → ℕ × Db
settle_closed clock c closed db =
    let settled =
      update_run c.id (λ r. is_running r.state) (settled_row clock (failed_count c.id db) c.id db)
        db in
    let updated = count_of (λ r. r.id == c.id && is_running r.state) db.runs in
    (updated, if closed || ltb 0 updated then advance_provenance_revision c.id settled else settled)

-- One run's transaction: how many runs it settled, and the tables.
unfoldable pub settle_run : ℕ → SettleCandidate → Db → ℕ × Db
settle_run clock c db = settle_closed clock c (closes_some c db) (close_blocked clock c db)

-- The loop over the candidates, which the query found before the first transaction.
unfoldable pub settle_each : ℕ → List SettleCandidate → Db → ℕ × Db
settle_each clock [] db = (0, db)
settle_each clock (c ∷ cs) db =
    let (n, db') = settle_run clock c db in
    let (m, db'') = settle_each clock cs db' in (n + m, db'')

unfoldable pub settle_runs : ℕ → ℕ → Db → ℕ × Db
settle_runs clock limit db = settle_each clock (settle_candidates limit db) db

abbrev pub run_cancelled_error : Text
run_cancelled_error = codes "run cancelled before execution reached this step"

-- `state IN ('CREATED', 'SNAPSHOT_PINNED', 'DISPATCHING', 'RUNNING')`.
abbrev pub is_cancellable : RunState → Bool
is_cancellable RunState.created = true
is_cancellable RunState.snapshot_pinned = true
is_cancellable RunState.dispatching = true
is_cancellable RunState.running = true
is_cancellable _ = false

abbrev pub has_some {ℓ} : {A : Type ℓ} → Option A → Bool
has_some none = false
has_some (some a) = true

unfoldable pub settle_cancelled_run : ℕ → ℕ → Db → Db
settle_cancelled_run clock run db =
    let steps = cancel_steps is_open clock run run_cancelled_error db in
    let cancelled =
      update_run run (λ r. is_cancellable r.state)
        (λ r. record r { state = RunState.cancelled; terminal_at = some clock }) steps in
    if has_step is_open run db || any (λ r. r.id == run && is_cancellable r.state) db.runs
    then advance_provenance_revision run cancelled
    else cancelled
