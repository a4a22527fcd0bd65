-- ===== src/Engine/Watermark/Schedules.antt =====
-- The writer protocol over the whole alphabet and over schedules.
use mathlib.Core.Option
use native.Mathlib.Nat.{le_refl, le_trans}
use rupture_grid.Base.{
  ==_refl, ℕ, ◌+◌, ◌≤◌, ◌≡◌, refl, inl, inr, true, Option, ◌&&◌, some, List, [], ◌∷◌, arith, ◌==◌,
  if◌then◌else◌,
}
use rupture_grid.Engine.Classify.{is_mutating}
use rupture_grid.Engine.Store.{StepRun, Db, resolve_run_id_of_step, find_step}
use rupture_grid.Engine.Claim.{claim_step, heartbeat_step}
use rupture_grid.Engine.Transitions.{
  mark_executing, write_terminal_state, record_stale_writer, record_invocation,
  mark_executing_detail, terminal_detail, terminal_row,
}
use rupture_grid.Engine.Recovery.{resolve_expired_lease}
use rupture_grid.Engine.Reconciler.{
  mark_dispatched, mark_dispatch_error, promote_marker, mark_next_dispatched, mark_next_error,
}
use rupture_grid.Engine.Dispatch.{mark_initial_dispatched, mark_initial_error, refused_row}
use rupture_grid.Engine.Schedule.{
  Op, claim, heartbeat, start, invoke, finish, stale, resolve, settle, settle_cancelled, dispatched,
  dispatch_error, promote, next_dispatched, next_error, request, apply, run_schedule,
  run_dispatching, initial_dispatched, initial_error, undelivered,
}
use rupture_grid.Engine.Watermark.{
  provenance, FollowsProtocol, fenced_of_run-FollowsProtocol, change_marker-FollowsProtocol,
  claim_of_run-FollowsProtocol, renew_of_run-FollowsProtocol, record_of_run-FollowsProtocol,
  stale_of_run-FollowsProtocol, resolve_of_run-FollowsProtocol,
}
use rupture_grid.Engine.Watermark.Runs.{
  settle_run-FollowsProtocol, settle_cancelled_run-FollowsProtocol, request_cancel-FollowsProtocol,
  mark_run_dispatching-FollowsProtocol, mark_undelivered-FollowsProtocol,
}

-- The run of a step; none for a step that does not exist.
abbrev pub run_of_step : ℕ → Db → Option ℕ
run_of_step step db = Option.map (λ (s : StepRun). s.run_id) (find_step step db)

-- The run that a transaction is about: that of the row of its step, or the one that it is given.
abbrev pub run_of : Op → Db → Option ℕ
run_of (claim now options step) db = run_of_step step db
run_of (heartbeat now duration step ctx) db = run_of_step step db
run_of (start clock step ctx) db = run_of_step step db
run_of (invoke step observed ctx) db = run_of_step step db
run_of (finish clock step write ctx) db = run_of_step step db
run_of (stale step ctx detail) db = run_of_step step db
run_of (resolve now clock step m maybe_sent) db = run_of_step step db
run_of (settle clock c) db = some c.id
run_of (settle_cancelled clock run) db = some run
run_of (dispatched clock run step) db = some run
run_of (dispatch_error run step message) db = some run
run_of (promote run step) db = some run
run_of (next_dispatched clock run step) db = some run
run_of (next_error run step message) db = some run
run_of (request clock run) db = some run
run_of (run_dispatching run) db = some run
run_of (initial_dispatched clock run step) db = some run
run_of (initial_error run step) db = some run
run_of (undelivered run steps) db = some run

-- Each transaction of the alphabet either leaves every table as it was, or advances the provenance
-- revision of its own run by exactly one, and no other counter of a head: the run of the row of its
-- step, or the run that it is given.
pub apply-FollowsProtocol : (op : Op) (db : Db) → FollowsProtocol (run_of op db) db (apply op db)
unfolding apply claim_step heartbeat_step mark_executing record_invocation write_terminal_state
    record_stale_writer resolve_expired_lease mark_dispatched mark_dispatch_error promote_marker
    mark_next_dispatched mark_next_error mark_initial_dispatched mark_initial_error
    resolve_run_id_of_step
apply-FollowsProtocol (claim now options step) db =
    claim_of_run-FollowsProtocol now options step db (resolve_run_id_of_step step db)
apply-FollowsProtocol (heartbeat now duration step ctx) db =
    renew_of_run-FollowsProtocol now duration step ctx db (resolve_run_id_of_step step db)
apply-FollowsProtocol (start clock step ctx) db =
    fenced_of_run-FollowsProtocol step ctx mark_executing_detail _ _ db
      (resolve_run_id_of_step step db)
apply-FollowsProtocol (invoke step observed ctx) db =
    record_of_run-FollowsProtocol step observed ctx db (resolve_run_id_of_step step db)
apply-FollowsProtocol (finish clock step write ctx) db =
    fenced_of_run-FollowsProtocol step ctx (terminal_detail write.state) _
      (terminal_row clock write) db (resolve_run_id_of_step step db)
apply-FollowsProtocol (stale step ctx detail) db =
    stale_of_run-FollowsProtocol step ctx detail db (resolve_run_id_of_step step db)
apply-FollowsProtocol (resolve now clock step mutation maybe_sent) db =
    resolve_of_run-FollowsProtocol now clock step (is_mutating mutation && maybe_sent) db
      (resolve_run_id_of_step step db)
apply-FollowsProtocol (settle clock c) db = settle_run-FollowsProtocol clock c db
apply-FollowsProtocol (settle_cancelled clock run) db =
    settle_cancelled_run-FollowsProtocol clock run db
apply-FollowsProtocol (dispatched clock run step) db = change_marker-FollowsProtocol run step _ _ db
apply-FollowsProtocol (dispatch_error run step message) db =
    change_marker-FollowsProtocol run step _ _ db
apply-FollowsProtocol (promote run step) db = change_marker-FollowsProtocol run step _ _ db
apply-FollowsProtocol (next_dispatched clock run step) db =
    change_marker-FollowsProtocol run step _ _ db
apply-FollowsProtocol (next_error run step message) db =
    change_marker-FollowsProtocol run step _ _ db
apply-FollowsProtocol (request clock run) db = request_cancel-FollowsProtocol clock run db
apply-FollowsProtocol (run_dispatching run) db = mark_run_dispatching-FollowsProtocol run db
apply-FollowsProtocol (initial_dispatched clock run step) db =
    change_marker-FollowsProtocol run step _ _ db
apply-FollowsProtocol (initial_error run step) db =
    change_marker-FollowsProtocol run step (λ s. true) refused_row db
apply-FollowsProtocol (undelivered run steps) db = mark_undelivered-FollowsProtocol run steps db

FollowsProtocol-le :
    (owner : Option ℕ) (run : ℕ) (db db' : Db)
    → FollowsProtocol owner db db'
    → provenance run db ≤ provenance run db'
FollowsProtocol-le owner run db db' (inl same) = rw same (le_refl (provenance run db))
FollowsProtocol-le owner run db db' (inr (r, e, once)) = ground (arith, once.revision run)

provenance-le :
    (run : ℕ) (ops : List Op) (db : Db) → provenance run db ≤ provenance run (run_schedule ops db)
unfolding run_schedule
provenance-le run [] db = le_refl (provenance run db)
provenance-le run (op ∷ ops) db =
    le_trans (FollowsProtocol-le (run_of op db) run db (apply op db) (apply-FollowsProtocol op db))
      (provenance-le run ops (apply op db))

rose : (run p q : ℕ) → q ≡ (if run == run then p + 1 else p) → q ≡ p + 1
rose run p q h = ground (arith, ==_refl run)

unchanged_step :
    (owner : Option ℕ) (db db' : Db)
    → FollowsProtocol owner db db'
    → ((run : ℕ) → provenance run db' ≤ provenance run db)
    → db' ≡ db
unchanged_step owner db db' (inl same) h = same
unchanged_step owner db db' (inr (run, e, once)) h =
    absurd (
      omega (arith, h run, rose (run) (provenance run db) (provenance run db') (once.revision run)))

-- The revision is a watermark: if after a schedule no run's revision is other than before it, then
-- the schedule wrote nothing at all.
pub run_schedule-watermark :
    (ops : List Op) (db : Db)
    → ((run : ℕ) → provenance run (run_schedule ops db) ≡ provenance run db)
    → run_schedule ops db ≡ db
unfolding run_schedule
run_schedule-watermark [] db h = refl
run_schedule-watermark (op ∷ ops) db h =
    let first : apply op db ≡ db =
      unchanged_step (run_of op db) db (apply op db) (apply-FollowsProtocol op db)
        (λ run. omega (arith, h run, provenance-le run ops (apply op db))) in
    rw first (run_schedule-watermark ops db (rw first at h))
