-- ===== src/Engine/Schedule.antt =====
-- The transactions of the execution core as one alphabet, and schedules as lists of them. Every write
-- to an existing run and its steps by workers, reconcilers, the dispatch of a run and the cancel
-- endpoint is one transaction under the lock of its run, so each interleaving of theirs is a
-- schedule; the times and arguments are the environment's choice. A schedule starts on tables that
-- hold its runs: the transaction that creates a run with its steps is not in the alphabet.
use rupture_grid.Base.{ℕ, Bool, List, [], ◌∷◌, Text}
use rupture_grid.Engine.Classify.{Mutation}
use rupture_grid.Engine.Store.{Db, InvocationRecord}
use rupture_grid.Engine.Claim.{ClaimOptions, FencingContext, claim_step, heartbeat_step}
use rupture_grid.Engine.Transitions.{
  TerminalWrite, mark_executing, write_terminal_state, record_stale_writer, record_invocation,
}
use rupture_grid.Engine.Recovery.{
  SettleCandidate, resolve_expired_lease, settle_run, settle_cancelled_run,
}
use rupture_grid.Engine.Reconciler.{
  mark_dispatched, mark_dispatch_error, promote_marker, mark_next_dispatched, mark_next_error,
  request_cancel,
}
use rupture_grid.Engine.Dispatch.{
  mark_run_dispatching, mark_initial_dispatched, mark_initial_error, mark_undelivered,
}

pub data Op : Type 0 where
  claim : (now : ℕ) → ClaimOptions → (step : ℕ) → Op
  heartbeat : (now duration step : ℕ) → FencingContext → Op
  start : (clock step : ℕ) → FencingContext → Op
  invoke : (step : ℕ) → InvocationRecord → FencingContext → Op
  finish : (clock step : ℕ) → TerminalWrite → FencingContext → Op
  stale : (step : ℕ) → FencingContext → Text → Op
  resolve : (now clock step : ℕ) → Mutation → Bool → Op
  settle : (clock : ℕ) → SettleCandidate → Op
  settle_cancelled : (clock run : ℕ) → Op
  dispatched : (clock run step : ℕ) → Op
  dispatch_error : (run step : ℕ) → Text → Op
  promote : (run step : ℕ) → Op
  next_dispatched : (clock run step : ℕ) → Op
  next_error : (run step : ℕ) → Text → Op
  request : (clock run : ℕ) → Op
  run_dispatching : (run : ℕ) → Op
  initial_dispatched : (clock run step : ℕ) → Op
  initial_error : (run step : ℕ) → Op
  undelivered : (run : ℕ) → List ℕ → Op

unfoldable pub apply : Op → Db → Db
apply (claim now options step) db = (claim_step now options step db).1
apply (heartbeat now duration step ctx) db = (heartbeat_step now duration step ctx db).1
apply (start clock step ctx) db = (mark_executing clock step ctx db).1
apply (invoke step observed ctx) db = (record_invocation step observed ctx db).1
apply (finish clock step write ctx) db = (write_terminal_state clock step write ctx db).1
apply (stale step ctx detail) db = (record_stale_writer step ctx detail db).1
apply (resolve now clock step mutation maybe_sent) db =
    (resolve_expired_lease now clock step mutation maybe_sent db).1
apply (settle clock candidate) db = (settle_run clock candidate db).1
apply (settle_cancelled clock run) db = settle_cancelled_run clock run db
apply (dispatched clock run step) db = (mark_dispatched clock run step db).1
apply (dispatch_error run step message) db = (mark_dispatch_error run step message db).1
apply (promote run step) db = (promote_marker run step db).1
apply (next_dispatched clock run step) db = (mark_next_dispatched clock run step db).1
apply (next_error run step message) db = (mark_next_error run step message db).1
apply (request clock run) db = request_cancel clock run db
apply (run_dispatching run) db = mark_run_dispatching run db
apply (initial_dispatched clock run step) db = (mark_initial_dispatched clock run step db).1
apply (initial_error run step) db = (mark_initial_error run step db).1
apply (undelivered run steps) db = mark_undelivered run steps db

unfoldable pub run_schedule : List Op → Db → Db
unfolding apply
run_schedule [] db = db
run_schedule (op ∷ ops) db = run_schedule ops (apply op db)
