-- ===== src/Engine/Dispatch.antt =====
-- The transactions that first dispatch a run: `markRunDispatching` of packages/engine/src/run-create.ts,
-- and the markers of `dispatchRunDurably` (apps/api/src/execution/execution.controller.ts) and of
-- `dispatchRun` (apps/worker/src/execution-worker.ts). The two have the same markers, and only the API
-- has the last one. The queue is asked between them, outside any transaction; its answer chooses the
-- next one.
use rupture_grid.Base.{
  ℕ, Bool, true, false, ◌&&◌, some, List, Text, codes, any, ◌==◌, if◌then◌else◌, update_where,
}
use rupture_grid.Engine.Store.{
  StepRun, DispatchState, Run, RunState, Db, advance_provenance_revision,
}
use rupture_grid.Engine.Reconciler.{change_marker, is_pending_dispatch}

abbrev is_pinned : RunState → Bool
is_pinned RunState.snapshot_pinned = true
is_pinned _ = false

-- The run that the statement matches.
abbrev pub is_undispatched_run : ℕ → Run → Bool
is_undispatched_run run r = r.id == run && is_pinned r.state

abbrev pub dispatching_run : Run → Run
dispatching_run r = record r { state = RunState.dispatching }

-- `markRunDispatching`.
unfoldable pub mark_run_dispatching : ℕ → Db → Db
mark_run_dispatching run db =
    let body = record db {
      runs = update_where (is_undispatched_run run) dispatching_run db.runs;
    } in
    if any (is_undispatched_run run) db.runs then advance_provenance_revision run body else body

-- After the queue accepted: only `dispatchState` and `dispatchedAt` are written.
abbrev pub initial_row : ℕ → StepRun → StepRun
initial_row clock s = record s {
  dispatch_state = DispatchState.dispatched;
  dispatched_at = some clock;
}

unfoldable pub mark_initial_dispatched : ℕ → ℕ → ℕ → Db → Bool × Db
mark_initial_dispatched clock run id db =
    change_marker run id (λ s. is_pending_dispatch s.dispatch_state) (initial_row clock) db

abbrev pub enqueue_failed : Text
enqueue_failed = codes "enqueue failed (Redis unavailable)"

-- After it refused, whatever the state of the step.
abbrev pub refused_row : StepRun → StepRun
refused_row s = record s { last_dispatch_error = some enqueue_failed }

unfoldable pub mark_initial_error : ℕ → ℕ → Db → Bool × Db
mark_initial_error run id db = change_marker run id (λ s. true) refused_row db

abbrev pub enqueued_nothing : Text
enqueued_nothing = codes "initial dispatch enqueued nothing"

abbrev pub undelivered_row : StepRun → StepRun
undelivered_row s = record s {
  dispatch_state = DispatchState.reconcile;
  last_dispatch_error = some enqueued_nothing;
}

-- `id IN (…)`.
abbrev pub is_among : List ℕ → StepRun → Bool
is_among ids s = any (λ id. id == s.id) ids

-- Where no step was on the frontier: the steps that were read as pending are left to the reconciler.
unfoldable pub mark_undelivered : ℕ → List ℕ → Db → Db
mark_undelivered run ids db =
    let body = record db { step_runs = update_where (is_among ids) undelivered_row db.step_runs } in
    if any (is_among ids) db.step_runs then advance_provenance_revision run body else body
