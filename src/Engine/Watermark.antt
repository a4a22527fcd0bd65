-- ===== src/Engine/Watermark.antt =====
-- The writer protocol of truth-input-head.ts: each transaction either writes nothing or advances the
-- provenance revision `P` of one run by exactly one.
pub mod Runs
pub mod Schedules
use rupture_grid.Base.{
  ℕ, ◌+◌, ◌<◌, ◌≤◌, ◌≡◌, refl, ◌⊎◌, inl, inr, Bool, true, false, ◌&&◌, ◌||◌, Option, none, some,
  List, [], ◌∷◌, Text, arith, ◌==◌, if◌then◌else◌, any, count_of, count_of-zero,
  update_where-unmatched, Bool-cases, ltb, ||-eq-false, update_where, ap,
}
use rupture_grid.Engine.Classify.{Mutation, is_mutating}
use rupture_grid.Engine.Store.{
  StepState, StepRun, Run, Db, InvocationRecord, TruthInputHead, is_open, is_waiting, is_running,
  is_active, advance_provenance_revision, read_truth_input_head, resolve_run_id_of_step,
  matched_step, find_run,
}
use rupture_grid.Engine.Store.Laws.{read_truth_input_head-advance_provenance_revision}
use rupture_grid.Engine.Claim.{
  ClaimOptions, FencingContext, claim_step, heartbeat_step, claim_of_run, claim_matched,
  renew_of_run, is_owned_by, renew_matched, is_claimable,
}
use rupture_grid.Engine.Transitions.{
  mark_executing, write_terminal_state, record_stale_writer, record_invocation, fenced_of_run,
  fenced_matched, record_stale_writer_in_tx, record_of_run, record_allocated, stale_of_run,
  allocate_sequence, max_attempts, mark_executing_detail, terminal_detail, terminal_row,
}
use rupture_grid.Engine.Recovery.{
  SettleCandidate, resolve_expired_lease, resolve_of_run, resolve_matched, is_recoverable,
  settle_run, close_blocked, closes_some, settle_closed, settle_cancelled_run, is_cancellable,
  has_step, cancel_steps, cancelled_row, dependency_error, run_cancelled_error, settled_row,
  failed_count,
}
use rupture_grid.Engine.Reconciler.{
  change_marker, marker_matched, mark_dispatched, mark_dispatch_error, promote_marker,
  mark_next_dispatched, mark_next_error, request_cancel,
}
use rupture_grid.Engine.Schedule.{
  Op, claim, heartbeat, start, invoke, finish, stale, resolve, settle, settle_cancelled, dispatched,
  dispatch_error, promote, next_dispatched, next_error, request, apply, run_schedule,
}

-- `P` of a run.
abbrev pub provenance : ℕ → Db → ℕ
provenance run db = (read_truth_input_head run db).provenance_revision

abbrev pub derivation : ℕ → Db → ℕ
derivation run db = (read_truth_input_head run db).derivation_generation

-- `P` of a run rose by one, and no other counter of any run changed.
pub record AdvancesOnce (run : ℕ) (db db' : Db) : Type 0 where
  pub revision :
      (other : ℕ)
      → provenance other db'
        ≡ (if run == other then provenance other db + 1 else provenance other db)
  pub generation : (other : ℕ) → derivation other db' ≡ derivation other db

-- The two outcomes of a transaction of the run `owner`: none for a step that does not exist.
abbrev pub FollowsProtocol : Option ℕ → Db → Db → Type 0
FollowsProtocol owner db db' =
    (db' ≡ db) ⊎ ((run : ℕ) × (owner ≡ some run) × AdvancesOnce run db db')

-- A transaction whose last statement is the advance, after writes that leave the heads alone.
pub advances :
    (run : ℕ) (db body : Db)
    → body.heads ≡ db.heads
    → FollowsProtocol (some run) db (advance_provenance_revision run body)
unfolding read_truth_input_head
advances run db body same = inr (
  run,
  refl,
  record {
    revision =
        λ other. ground (arith, read_truth_input_head-advance_provenance_revision run other body);
    generation =
        λ other. ground (arith, read_truth_input_head-advance_provenance_revision run other body);
  },
)

pub fenced_of_run-FollowsProtocol :
    (id : ℕ) (ctx : FencingContext) (detail : Text) (test : StepRun → Bool) (f : StepRun → StepRun)
    (db : Db) (run : Option ℕ)
    → FollowsProtocol run db (fenced_of_run id ctx detail test f db run).1
unfolding record_stale_writer_in_tx
fenced_of_run-FollowsProtocol id ctx detail test f db none = inl refl
fenced_of_run-FollowsProtocol id ctx detail test f db (some run) =
    elim (matched_step id test db)
      as (λ m. FollowsProtocol (some run) db (fenced_matched id ctx detail test f run db m).1) [
        | none ↦ advances run db _ refl
        | some s ↦ advances run db _ refl
      ]

pub change_marker-FollowsProtocol :
    (run id : ℕ) (test : StepRun → Bool) (f : StepRun → StepRun) (db : Db)
    → FollowsProtocol (some run) db (change_marker run id test f db).1
change_marker-FollowsProtocol run id test f db =
    elim (matched_step id test db)
      as (λ m. FollowsProtocol (some run) db (marker_matched run id test f db m).1) [
        | none ↦ inl refl
        | some s ↦ advances run db _ refl
      ]

pub claim_of_run-FollowsProtocol :
    (now : ℕ) (options : ClaimOptions) (id : ℕ) (db : Db) (run : Option ℕ)
    → FollowsProtocol run db (claim_of_run now options id db run).1
claim_of_run-FollowsProtocol now options id db none = inl refl
claim_of_run-FollowsProtocol now options id db (some run) =
    elim (matched_step id (is_claimable db now) db)
      as (λ m. FollowsProtocol (some run) db (claim_matched now options id run db m).1) [
        | none ↦ inl refl
        | some s ↦ advances run db _ refl
      ]

pub renew_of_run-FollowsProtocol :
    (now duration id : ℕ) (ctx : FencingContext) (db : Db) (run : Option ℕ)
    → FollowsProtocol run db (renew_of_run now duration id ctx db run).1
renew_of_run-FollowsProtocol now duration id ctx db none = inl refl
renew_of_run-FollowsProtocol now duration id ctx db (some run) =
    elim (matched_step id (λ x. is_owned_by ctx x && is_active x.state) db)
      as (λ m. FollowsProtocol (some run) db (renew_matched now duration id ctx run db m).1) [
        | none ↦ inl refl
        | some s ↦ advances run db _ refl
      ]

pub record_of_run-FollowsProtocol :
    (id : ℕ) (observed : InvocationRecord) (ctx : FencingContext) (db : Db) (run : Option ℕ)
    → FollowsProtocol run db (record_of_run id observed ctx db run).1
record_of_run-FollowsProtocol id observed ctx db none = inl refl
record_of_run-FollowsProtocol id observed ctx db (some run) =
    elim (allocate_sequence max_attempts id observed.sequence db.invocations)
      as (λ m. FollowsProtocol (some run) db (record_allocated run id observed ctx db m).1) [
        | none ↦ inl refl
        | some sequence ↦ advances run db _ refl
      ]

pub stale_of_run-FollowsProtocol :
    (id : ℕ) (ctx : FencingContext) (detail : Text) (db : Db) (run : Option ℕ)
    → FollowsProtocol run db (stale_of_run id ctx detail db run).1
unfolding record_stale_writer_in_tx
stale_of_run-FollowsProtocol id ctx detail db none = inl refl
stale_of_run-FollowsProtocol id ctx detail db (some run) = advances run db _ refl

pub resolve_matched-FollowsProtocol :
    (now clock id : ℕ) (ambiguous : Bool) (run : ℕ) (db : Db) (m : Option StepRun)
    → FollowsProtocol (some run) db (resolve_matched now clock id ambiguous run db m).1
resolve_matched-FollowsProtocol now clock id ambiguous run db none = inl refl
resolve_matched-FollowsProtocol now clock id true run db (some s) = advances run db _ refl
resolve_matched-FollowsProtocol now clock id false run db (some s) = advances run db _ refl

pub resolve_of_run-FollowsProtocol :
    (now clock id : ℕ) (ambiguous : Bool) (db : Db) (run : Option ℕ)
    → FollowsProtocol run db (resolve_of_run now clock id ambiguous db run).1
resolve_of_run-FollowsProtocol now clock id ambiguous db none = inl refl
resolve_of_run-FollowsProtocol now clock id ambiguous db (some run) =
    resolve_matched-FollowsProtocol now clock id ambiguous run db
      (matched_step id (is_recoverable now) db)
