-- ===== src/Engine/RowChange.antt =====
-- What each transaction of the alphabet does to one step row, with the guard under which it does it.
use rupture_grid.Base.{
  ℕ, ◌≡◌, refl, inl, inr, true, ◌&&◌, some, List, ◌==◌, if◌then◌else◌, take, Rows, arith, any,
  update_where, Bool-cases, &&-eq-true,
}
use rupture_grid.Engine.Classify.{is_mutating}
use rupture_grid.Engine.Store.{
  StepState, DispatchState, StepRun, Db, is_waiting, is_active, is_claimed, is_open,
  is_undispatched, resolve_run_id_of_step, advance_provenance_revision,
}
use rupture_grid.Engine.Claim.{
  is_claimable, claimed_row, renewed_row, is_owned_by, claim_step, heartbeat_step,
}
use rupture_grid.Engine.Transitions.{
  terminal_row, terminal_detail, mark_executing_detail, mark_executing, write_terminal_state,
  record_stale_writer, record_invocation,
}
use rupture_grid.Engine.Recovery.{
  is_recoverable, indeterminate_row, requeued_row, cancelled_row, dependency_error,
  run_cancelled_error, resolve_expired_lease,
}
use rupture_grid.Engine.Reconciler.{
  dispatched_row, is_reconcile, is_pending_dispatch, mark_dispatched, mark_dispatch_error,
  promote_marker, mark_next_dispatched, mark_next_error, request_cancel,
}
use rupture_grid.Engine.Dispatch.{
  mark_run_dispatching, mark_initial_dispatched, mark_initial_error, mark_undelivered, initial_row,
  refused_row, undelivered_row, is_among,
}
use rupture_grid.Engine.Schedule.{
  Op, claim, heartbeat, start, invoke, finish, stale, resolve, settle, settle_cancelled, dispatched,
  dispatch_error, promote, next_dispatched, next_error, request, apply, run_dispatching,
  initial_dispatched, initial_error, undelivered,
}
use rupture_grid.Engine.Statements.{
  RowsOf-refl, RowsOf-claim_of_run, RowsOf-renew_of_run, RowsOf-fenced_of_run, RowsOf-record_of_run,
  RowsOf-stale_of_run, RowsOf-resolve_of_run, RowsOf-settle_run, RowsOf-cancel_steps,
  RowsOf-change_marker, RowsOf-update_where, settle_cancelled_run-step_runs,
}

abbrev pub RowChange : Op → Db → StepRun → StepRun → Type 0
RowChange (claim now options step) db s t =
    ((s.id == step && is_claimable db now s) ≡ true) × (t ≡ claimed_row now options s)
RowChange (heartbeat now duration step ctx) db s t =
    ((s.id == step && (is_owned_by ctx s && is_active s.state)) ≡ true)
    × (t ≡ renewed_row now duration s)
RowChange (start clock step ctx) db s t =
    ((s.id == step && (is_owned_by ctx s && is_claimed s.state)) ≡ true)
    × (t ≡ record s { state = StepState.executing; executing_at = some clock })
RowChange (invoke step observed ctx) db s t = ⊥
RowChange (finish clock step write ctx) db s t =
    ((s.id == step && (is_owned_by ctx s && is_active s.state)) ≡ true)
    × (t ≡ terminal_row clock write s)
RowChange (stale step ctx detail) db s t = ⊥
RowChange (resolve now clock step mutation maybe_sent) db s t =
    ((s.id == step && is_recoverable now s) ≡ true)
    × (t ≡ (
        if is_mutating mutation && maybe_sent then indeterminate_row clock s else requeued_row s))
RowChange (settle clock c) db s t =
    ((c.has_failure && c.has_open) ≡ true)
    × ((s.run_id == c.id && is_waiting s.state) ≡ true)
    × (t ≡ cancelled_row clock dependency_error s)
RowChange (settle_cancelled clock run) db s t =
    ((s.run_id == run && is_open s.state) ≡ true) × (t ≡ cancelled_row clock run_cancelled_error s)
RowChange (dispatched clock run step) db s t =
    ((s.id == step && (is_undispatched s.dispatch_state && is_waiting s.state)) ≡ true)
    × (t ≡ dispatched_row clock s)
RowChange (dispatch_error run step message) db s t =
    ((s.id == step && is_undispatched s.dispatch_state) ≡ true)
    × (t ≡ record s { last_dispatch_error = some (take 500 message) })
RowChange (promote run step) db s t =
    ((s.id == step && is_pending_dispatch s.dispatch_state) ≡ true)
    × (t ≡ record s { dispatch_state = DispatchState.reconcile })
RowChange (next_dispatched clock run step) db s t =
    ((s.id == step && is_reconcile s.dispatch_state) ≡ true) × (t ≡ dispatched_row clock s)
RowChange (next_error run step message) db s t =
    ((s.id == step && is_reconcile s.dispatch_state) ≡ true)
    × (t ≡ record s { last_dispatch_error = some (take 500 message) })
RowChange (request clock run) db s t = ⊥
RowChange (run_dispatching run) db s t = ⊥
RowChange (initial_dispatched clock run step) db s t =
    ((s.id == step && is_pending_dispatch s.dispatch_state) ≡ true) × (t ≡ initial_row clock s)
RowChange (initial_error run step) db s t = ((s.id == step) ≡ true) × (t ≡ refused_row s)
RowChange (undelivered run steps) db s t = (is_among steps s ≡ true) × (t ≡ undelivered_row s)

request_cancel-step_runs :
    (clock run : ℕ) (db : Db) → (request_cancel clock run db).step_runs ≡ db.step_runs
unfolding request_cancel advance_provenance_revision
request_cancel-step_runs clock run db = ground arith

mark_run_dispatching-step_runs :
    (run : ℕ) (db : Db) → (mark_run_dispatching run db).step_runs ≡ db.step_runs
unfolding mark_run_dispatching advance_provenance_revision
mark_run_dispatching-step_runs run db = ground arith

mark_undelivered-step_runs :
    (run : ℕ) (ids : List ℕ) (db : Db)
    → (mark_undelivered run ids db).step_runs
      ≡ update_where (is_among ids) undelivered_row db.step_runs
unfolding mark_undelivered advance_provenance_revision
mark_undelivered-step_runs run ids db = elim (Bool-cases (any (is_among ids) db.step_runs)) [
  | inl e ↦ rw e refl
  | inr e ↦ rw e refl
]

-- A reflexive relation that holds of every row change of a transaction holds between the tables.
module _ (R : StepRun → StepRun → Type 0) (R-refl : (s : StepRun) → R s s) where
  pub Rows-apply :
      (op : Op) (db : Db)
      → ((s t : StepRun) → RowChange op db s t → R s t)
      → Rows R db.step_runs (apply op db).step_runs
  unfolding apply claim_step heartbeat_step mark_executing record_invocation write_terminal_state
      record_stale_writer resolve_expired_lease mark_dispatched mark_dispatch_error promote_marker
      mark_next_dispatched mark_next_error mark_initial_dispatched mark_initial_error
  Rows-apply (claim now options step) db h =
      RowsOf-claim_of_run R R-refl now options step db (resolve_run_id_of_step step db)
        (λ s e. h s _ (e, refl))
  Rows-apply (heartbeat now duration step ctx) db h =
      RowsOf-renew_of_run R R-refl now duration step ctx db (resolve_run_id_of_step step db)
        (λ s e. h s _ (e, refl))
  Rows-apply (start clock step ctx) db h =
      RowsOf-fenced_of_run R R-refl step ctx mark_executing_detail _ _ db
        (resolve_run_id_of_step step db) (λ s e. h s _ (e, refl))
  Rows-apply (invoke step observed ctx) db h =
      RowsOf-record_of_run R R-refl step observed ctx db (resolve_run_id_of_step step db)
  Rows-apply (finish clock step write ctx) db h =
      RowsOf-fenced_of_run R R-refl step ctx (terminal_detail write.state) _
        (terminal_row clock write) db (resolve_run_id_of_step step db) (λ s e. h s _ (e, refl))
  Rows-apply (stale step ctx detail) db h =
      RowsOf-stale_of_run R R-refl step ctx detail db (resolve_run_id_of_step step db)
  Rows-apply (resolve now clock step mutation maybe_sent) db h =
      RowsOf-resolve_of_run R R-refl now clock step (is_mutating mutation && maybe_sent) db
        (resolve_run_id_of_step step db) (λ s e. h s _ (e, refl))
  Rows-apply (settle clock c) db h =
      RowsOf-settle_run R R-refl clock c db (λ s e w. h s _ (e, w, refl))
  Rows-apply (settle_cancelled clock run) db h = rw (settle_cancelled_run-step_runs clock run db) (
      RowsOf-cancel_steps R R-refl is_open clock run run_cancelled_error db
        (λ s e. h s _ (e, refl)))
  Rows-apply (dispatched clock run step) db h =
      RowsOf-change_marker R R-refl run step _ _ db (λ s e. h s _ (e, refl))
  Rows-apply (dispatch_error run step message) db h =
      RowsOf-change_marker R R-refl run step _ _ db (λ s e. h s _ (e, refl))
  Rows-apply (promote run step) db h =
      RowsOf-change_marker R R-refl run step _ _ db (λ s e. h s _ (e, refl))
  Rows-apply (next_dispatched clock run step) db h =
      RowsOf-change_marker R R-refl run step _ _ db (λ s e. h s _ (e, refl))
  Rows-apply (next_error run step message) db h =
      RowsOf-change_marker R R-refl run step _ _ db (λ s e. h s _ (e, refl))
  Rows-apply (request clock run) db h =
      rw (request_cancel-step_runs clock run db) (RowsOf-refl R R-refl db)
  Rows-apply (run_dispatching run) db h =
      rw (mark_run_dispatching-step_runs run db) (RowsOf-refl R R-refl db)
  Rows-apply (initial_dispatched clock run step) db h =
      RowsOf-change_marker R R-refl run step _ _ db (λ s e. h s _ (e, refl))
  Rows-apply (initial_error run step) db h =
      RowsOf-change_marker R R-refl run step _ _ db
        (λ s e. h s _ ((&&-eq-true (s.id == step) true e).0, refl))
  Rows-apply (undelivered run steps) db h = rw (mark_undelivered-step_runs run steps db) (
      RowsOf-update_where R R-refl (is_among steps) undelivered_row db.step_runs
        (λ s e. h s _ (e, refl)))
