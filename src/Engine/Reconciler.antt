-- ===== src/Engine/Reconciler.antt =====
-- packages/engine/src/reconciler.ts and the discovery query of recovery.ts: the bounded sweep over
-- undispatched steps and over expired leases; and the dispatch markers of
-- packages/engine/src/step-processor.ts. The queue is outside: `enqueue` says for each step whether
-- it accepts the job (`none`) or with which message it refuses it.
use rupture_grid.Base.{
  ℕ, zero, suc, ◌+◌, Bool, true, false, not, ◌&&◌, ◌||◌, Option, none, some, List, [], ◌∷◌, Text,
  codes, take, leb, ◌==◌, if◌then◌else◌, any, find_by,
}
use rupture_grid.Engine.Classify.{
  Mutation, read_only, mutating, TransportStage, request_sent, response_headers, response_complete,
}
use rupture_grid.Engine.Store.{
  RunState, DispatchState, StepRun, Run, Snapshot, Db, is_active, is_waiting, is_pending,
  is_undispatched, is_expired, find_step, find_run, matched_step, update_step, update_run,
  is_terminal_run, is_running, advance_provenance_revision,
}
use rupture_grid.Engine.Claim.{has_no_owner, has_unfinished_prior}
use rupture_grid.Engine.Recovery.{
  Resolution, resolve_expired_lease, settle_runs, settle_cancelled_run, has_some,
}

abbrev text_eq : Text → Text → Bool
text_eq [] [] = true
text_eq [] (y ∷ ys) = false
text_eq (x ∷ xs) [] = false
text_eq (x ∷ xs) (y ∷ ys) = x == y && text_eq xs ys

abbrev enqueue_pending : Text
enqueue_pending = codes "enqueue-pending"

abbrev is_enqueue_pending : Option Text → Bool
is_enqueue_pending none = false
is_enqueue_pending (some message) = text_eq message enqueue_pending

-- `r.state IN ('DISPATCHING', 'RUNNING')`.
abbrev is_dispatchable_run : RunState → Bool
is_dispatchable_run RunState.dispatching = true
is_dispatchable_run RunState.running = true
is_dispatchable_run _ = false

-- The WHERE clause of `findUndispatchedSteps`.
abbrev pub is_undispatched_step : Db → ℕ → StepRun → Bool
is_undispatched_step db now s =
    any (λ r. r.id == s.run_id && is_dispatchable_run r.state) db.runs
    && (is_waiting s.state
        && (is_undispatched s.dispatch_state
            && ((has_no_owner s.lease_owner || is_expired s.lease_expires_at now)
                && (not (is_enqueue_pending s.last_dispatch_error)
                    && not (has_unfinished_prior db s)))))

-- `ORDER BY createdAt`.
insert_by_creation : StepRun → List StepRun → List StepRun
insert_by_creation s [] = s ∷ []
insert_by_creation s (t ∷ ts) =
    let rest = insert_by_creation s ts in
    if leb s.created_at t.created_at then s ∷ t ∷ ts else t ∷ rest

undispatched_rows : Db → ℕ → List StepRun → List StepRun
undispatched_rows db now [] = []
undispatched_rows db now (s ∷ ss) =
    let rest = undispatched_rows db now ss in
    if is_undispatched_step db now s then insert_by_creation s rest else rest

unfoldable pub find_undispatched_steps : ℕ → ℕ → Db → List StepRun
unfolding undispatched_rows insert_by_creation
find_undispatched_steps now limit db = take limit (undispatched_rows db now db.step_runs)

-- A guarded change of a step's dispatch marker, with the revision advanced if a row matched.
abbrev pub marker_matched :
    ℕ → ℕ → (StepRun → Bool) → (StepRun → StepRun) → Db → Option StepRun → Bool × Db
marker_matched run id test f db none = (false, db)
marker_matched run id test f db (some s) =
    (true, advance_provenance_revision run (update_step id test f db))

abbrev pub change_marker : ℕ → ℕ → (StepRun → Bool) → (StepRun → StepRun) → Db → Bool × Db
change_marker run id test f db = marker_matched run id test f db (matched_step id test db)

abbrev pub dispatched_row : ℕ → StepRun → StepRun
dispatched_row clock s = record s {
  dispatch_state = DispatchState.dispatched;
  dispatched_at = some clock;
  last_dispatch_error = none;
}

-- The markers of the sweep, after the queue accepted and after it refused.
unfoldable pub mark_dispatched : ℕ → ℕ → ℕ → Db → Bool × Db
mark_dispatched clock run id db =
    change_marker run id (λ s. is_undispatched s.dispatch_state && is_waiting s.state)
      (dispatched_row clock) db

unfoldable pub mark_dispatch_error : ℕ → ℕ → Text → Db → Bool × Db
mark_dispatch_error run id message db =
    change_marker run id (λ s. is_undispatched s.dispatch_state)
      (λ s. record s { last_dispatch_error = some (take 500 message) }) db

abbrev pub is_reconcile : DispatchState → Bool
is_reconcile DispatchState.reconcile = true
is_reconcile _ = false

abbrev pub is_pending_dispatch : DispatchState → Bool
is_pending_dispatch DispatchState.pending = true
is_pending_dispatch _ = false

abbrev is_dispatched : DispatchState → Bool
is_dispatched DispatchState.dispatched = true
is_dispatched _ = false

-- The three markers of `dispatchNextOrderedStep`.
unfoldable pub promote_marker : ℕ → ℕ → Db → Bool × Db
promote_marker run id db =
    change_marker run id (λ s. is_pending_dispatch s.dispatch_state)
      (λ s. record s { dispatch_state = DispatchState.reconcile }) db

unfoldable pub mark_next_dispatched : ℕ → ℕ → ℕ → Db → Bool × Db
mark_next_dispatched clock run id db =
    change_marker run id (λ s. is_reconcile s.dispatch_state) (dispatched_row clock) db

unfoldable pub mark_next_error : ℕ → ℕ → Text → Db → Bool × Db
mark_next_error run id message db =
    change_marker run id (λ s. is_reconcile s.dispatch_state)
      (λ s. record s { last_dispatch_error = some (take 500 message) }) db

-- `findFirst({ where: { runId, sequence: sequence + 1 } })`.
next_step : ℕ → ℕ → List StepRun → Option StepRun
next_step run sequence [] = none
next_step run sequence (s ∷ ss) =
    if s.run_id == run && s.sequence == sequence + 1 then some s else next_step run sequence ss

-- After the promotion: the queue is asked outside any transaction, and the marker follows its answer.
abbrev dispatch_promoted : ℕ → ℕ → ℕ → Option Text → Bool × Db → Db
dispatch_promoted clock run id answer (false, db) = db
dispatch_promoted clock run id none (true, db) = (mark_next_dispatched clock run id db).1
dispatch_promoted clock run id (some message) (true, db) = (mark_next_error run id message db).1

abbrev dispatch_next_found : ℕ → ℕ → (ℕ → Option Text) → Db → Option StepRun → Db
dispatch_next_found clock run enqueue db none = db
dispatch_next_found clock run enqueue db (some next) =
    if is_pending next.state && not (is_dispatched next.dispatch_state)
    then dispatch_promoted clock run next.id (enqueue next.id) (promote_marker run next.id db)
    else db

unfoldable pub dispatch_next_ordered_step : ℕ → ℕ → ℕ → (ℕ → Option Text) → Db → Db
unfolding next_step promote_marker mark_next_dispatched mark_next_error
dispatch_next_ordered_step clock run sequence enqueue db =
    dispatch_next_found clock run enqueue db (next_step run sequence db.step_runs)

abbrev mark_answer : ℕ → StepRun → Option Text → Db → Db
mark_answer clock s none db = (mark_dispatched clock s.run_id s.id db).1
mark_answer clock s (some message) db = (mark_dispatch_error s.run_id s.id message db).1

-- The loop over the steps that the discovery found: the number requeued and the tables.
dispatch_each : ℕ → (ℕ → Option Text) → List StepRun → Db → ℕ × Db
dispatch_each clock enqueue [] db = (0, db)
dispatch_each clock enqueue (s ∷ ss) db =
    let (n, db') = dispatch_each clock enqueue ss (mark_answer clock s (enqueue s.id) db) in
    ((if has_some (enqueue s.id) then n else suc n), db')

pub record SweepResult : Type 0 where
  pub requeued : ℕ
  pub settled : ℕ
  pub lease_recoveries : ℕ

-- One sweep: requeue, then settle.
unfoldable pub run_reconcile_sweep : ℕ → ℕ → ℕ → ℕ → (ℕ → Option Text) → Db → SweepResult × Db
unfolding dispatch_each mark_dispatched mark_dispatch_error settle_runs
run_reconcile_sweep now clock dispatch_batch settle_batch enqueue db =
    let (requeued, db') =
      dispatch_each clock enqueue (find_undispatched_steps now dispatch_batch db) db in
    let (settled, db'') = settle_runs clock settle_batch db' in
    (record { requeued = requeued; settled = settled; lease_recoveries = 0 }, db'')

-- `step?.action?.mutation !== 'READ_ONLY'`: the step's entry in the frozen snapshot, if there is one.
abbrev mutation_at : List (Option Mutation) → ℕ → Option Mutation
mutation_at [] i = none
mutation_at (m ∷ ms) zero = m
mutation_at (m ∷ ms) (suc i) = mutation_at ms i

abbrev not_read_only : Option Mutation → Bool
not_read_only (some read_only) = false
not_read_only (some mutating) = true
not_read_only none = true

abbrev mutating_in : ℕ → Option Snapshot → Bool
mutating_in sequence none = true
mutating_in sequence (some snapshot) = not_read_only (mutation_at snapshot.mutations sequence)

abbrev mutating_of_step : Db → Option StepRun → Bool
mutating_of_step db none = true
mutating_of_step db (some s) =
    mutating_in s.sequence (find_by (λ snapshot. snapshot.run_id) s.run_id db.snapshots)

unfoldable pub is_mutating_step : ℕ → Db → Bool
is_mutating_step id db = mutating_of_step db (find_step id db)

abbrev is_sent_stage : Option TransportStage → Bool
is_sent_stage (some request_sent) = true
is_sent_stage (some response_headers) = true
is_sent_stage (some response_complete) = true
is_sent_stage _ = false

-- Whether some recorded invocation of the step reached REQUEST_SENT or later.
unfoldable pub has_sent_invocation : ℕ → Db → Bool
has_sent_invocation id db =
    any (λ i. i.step_run_id == id && is_sent_stage i.observed.transport_stage) db.invocations

-- One round of `reconcileExpiredLeases`, its arguments as the source computes them.
unfoldable pub reconcile_step : ℕ → ℕ → ℕ → Db → Option Resolution × Db
unfolding is_mutating_step has_sent_invocation
reconcile_step now clock id db =
    let is_mutating = is_mutating_step id db in
    resolve_expired_lease now clock id (if is_mutating then mutating else read_only)
      (if is_mutating && has_sent_invocation id db then true else is_mutating) db

expired_ids : ℕ → List StepRun → List ℕ
expired_ids now [] = []
expired_ids now (s ∷ ss) =
    let rest = expired_ids now ss in
    if is_active s.state && is_expired s.lease_expires_at now then s.id ∷ rest else rest

pub record LeaseCounts : Type 0 where
  pub indeterminate : ℕ
  pub requeue : ℕ

abbrev count_resolution : Option Resolution → LeaseCounts → LeaseCounts
count_resolution none c = c
count_resolution (some Resolution.indeterminate) c = record c {
  indeterminate = suc c.indeterminate;
}
count_resolution (some Resolution.requeue) c = record c { requeue = suc c.requeue }

reconcile_each : ℕ → ℕ → List ℕ → Db → LeaseCounts × Db
reconcile_each now clock [] db = (record { indeterminate = 0; requeue = 0 }, db)
reconcile_each now clock (id ∷ ids) db =
    let (result, db') = reconcile_step now clock id db in
    let (counts, db'') = reconcile_each now clock ids db' in (count_resolution result counts, db'')

unfoldable pub reconcile_expired_leases : ℕ → ℕ → ℕ → Db → LeaseCounts × Db
unfolding expired_ids reconcile_each reconcile_step
reconcile_expired_leases now clock batch db =
    reconcile_each now clock (take batch (expired_ids now db.step_runs)) db

-- The transaction of the cancel endpoint for a RUNNING run
-- (apps/api/src/execution/execution.controller.ts).
abbrev pub request_matched : ℕ → ℕ → Db → Option Run → Db
request_matched clock run db none = db
request_matched clock run db (some r) =
    advance_provenance_revision run
      (update_run run (λ x. true) (λ x. record x { cancel_requested_at = some clock }) db)

unfoldable pub request_cancel : ℕ → ℕ → Db → Db
request_cancel clock run db = request_matched clock run db (find_run run db)

-- The answers of the endpoint.
pub data CancelReply : Type 0 where
  not_found cancelled_before_execution cancel_requested : CancelReply
  already_terminal : RunState → CancelReply

abbrev cancel_found : ℕ → ℕ → Db → Option Run → CancelReply × Db
cancel_found clock run db none = (not_found, db)
cancel_found clock run db (some r) =
    if is_terminal_run r.state
    then (already_terminal r.state, db)
    else if is_running r.state
    then (cancel_requested, request_cancel clock run db)
    else (cancelled_before_execution, settle_cancelled_run clock run db)

unfoldable pub cancel : ℕ → ℕ → Db → CancelReply × Db
cancel clock run db = cancel_found clock run db (find_run run db)
