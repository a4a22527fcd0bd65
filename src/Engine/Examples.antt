-- ===== src/Engine/Examples.antt =====
-- A run of two steps, and the theorems on schedules at it.
mod Endings
mod Loops
use mathlib.Core.List.{Memᴰ}
use rupture_grid.Base.{
  ℕ, ◌+◌, ◌<◌, ◌≤◌, ◌≡◌, ◌≢◌, refl, ◌↔◌, ◌⊎◌, inl, inr, Bool, true, false, ◌&&◌, Option, none, some,
  List, [], ◌∷◌, ◌++◌, arith, any, find_by, if◌then◌else◌, ◌==◌,
}
use rupture_grid.Engine.Classify.{
  IntentOutcome, SideEffectKnowledge, known_absent, known_occurred, indeterminate, Mutation,
  mutating, read_only, request_sent, stage, ClassifyInput, classify_invocation, stage_at_least,
  is_4xx, no_effect_4xx, demo_fintech_webhook, RetryDecisionInput, decide_retry, safe,
}
use rupture_grid.Engine.Classify.Laws.{classify_invocation-known_absent_iff, decide_retry-mutating}
use rupture_grid.Engine.Store.{
  StepState, RunState, DispatchState, StepRun, Run, InvocationRecord, StepInvocation, Snapshot, Db,
  is_open, find_step, find_run, resolve_run_id_of_step, advance_provenance_revision,
  read_truth_input_head,
}
use rupture_grid.Engine.Store.Laws.{read_truth_input_head-advance_provenance_revision}
use rupture_grid.Engine.Claim.{ClaimOptions, ClaimResult, FencingContext, claim_step}
use rupture_grid.Engine.Transitions.{
  mark_executing, TerminalState, TerminalWrite, record_invocation, occupies, invocation_row,
}
use rupture_grid.Engine.Recovery.{
  SettleCandidate, settle_candidates, settle_rows, settle_run, settle_cancelled_run, is_recoverable,
}
use rupture_grid.Engine.Reconciler.{is_mutating_step, reconcile_step}
use rupture_grid.Engine.Schedule.{Op, claim, heartbeat, start, finish, resolve, apply, run_schedule}
use rupture_grid.Engine.Evolution.{Evolves, run_schedule-Evolves}
use rupture_grid.Engine.Fencing.{claim_step-token_lt}
use rupture_grid.Engine.Fencing.Superseded.{IsRefused, generation, superseded-IsRefused}
use rupture_grid.Engine.Leases.{IsHeld, claim_step-exclusive}
use rupture_grid.Engine.Ordering.{IsOrdered, run_schedule-IsOrdered}
use rupture_grid.Engine.Watermark.{FollowsProtocol}
use rupture_grid.Engine.Watermark.Schedules.{apply-FollowsProtocol, run_schedule-watermark}
use rupture_grid.Engine.Settling.Verdict.{HasVerdict, settle_run-HasVerdict, settle_run-closes}
use rupture_grid.Engine.Invocations.{allocated, record_invocation-total}
use rupture_grid.Engine.Reconciliation.{
  Resolves, reconciled_answer, reconciled_row, reconcile_step-Resolves,
}

abbrev pub step : ℕ → ℕ → StepState → Option ℕ → ℕ → StepRun
step id sequence state owner token = record {
  id = id;
  run_id = 1;
  sequence = sequence;
  state = state;
  lease_owner = owner;
  lease_expires_at = some 500;
  fencing_token = token;
  dispatch_state = DispatchState.dispatched;
  dispatch_attempts = 1;
  last_dispatch_error = none;
  dispatched_at = some 50;
  intent_outcome = none;
  side_effect_knowledge = none;
  attempt_count = 0;
  error = none;
  created_at = 10;
  claimed_at = none;
  executing_at = none;
  terminal_at = none;
}

abbrev run_in : RunState → Run
run_in state = record {
  id = 1;
  state = state;
  terminal_at = none;
  failure_reason = none;
  cancel_requested_at = none;
}

abbrev pub tables : List StepRun → RunState → Db
tables steps state = record {
  step_runs = steps;
  runs = run_in state ∷ [];
  invocations = [];
  stale_writer_events = [];
  heads = [];
  snapshots = record { run_id = 1; mutations = some mutating ∷ some read_only ∷ [] } ∷ [];
}

abbrev pub first_step : StepRun
first_step = step 10 0 StepState.pending none 0

abbrev second_step : StepRun
second_step = step 11 1 StepState.pending none 0

abbrev pub fresh : Db
fresh = tables (first_step ∷ second_step ∷ []) RunState.dispatching

abbrev pub worker : ClaimOptions
worker = record { owner_id = 7; lease_duration_ms = 1000 }

abbrev rival : ClaimOptions
rival = record { owner_id = 8; lease_duration_ms = 1000 }

abbrev first_claim : ClaimResult
first_claim = record {
  step_run_id = 10;
  run_id = 1;
  sequence = 0;
  fencing_token = 1;
  lease_expires_at = 1100;
  state = StepState.claimed;
}

abbrev second_claim : ClaimResult
second_claim = record {
  step_run_id = 10;
  run_id = 1;
  sequence = 0;
  fencing_token = 2;
  lease_expires_at = 3000;
  state = StepState.claimed;
}

abbrev pub as_worker : FencingContext
as_worker = record { owner_id = 7; fencing_token = 1 }

abbrev success : TerminalWrite
success = record {
  state = TerminalState.succeeded;
  intent_outcome = IntentOutcome.succeeded;
  side_effect_knowledge = known_occurred;
  attempt_count = 1;
  error = none;
}

-- The worker claims the first step, starts it and ends it.
abbrev day : List Op
day = claim 100 worker 10 ∷ start 150 10 as_worker ∷ finish 300 10 success as_worker ∷ []

run_schedule-Evolves_example :
    (t : StepRun) × (find_step 10 (run_schedule day fresh) ≡ some t) × Evolves first_step t
unfolding find_by
run_schedule-Evolves_example = run_schedule-Evolves day fresh 10 first_step refl

-- The lease runs out and a rival claims.
claim_step-token_lt_example : first_claim.fencing_token < second_claim.fencing_token
unfolding claim_step run_schedule find_by mark_executing advance_provenance_revision
claim_step-token_lt_example =
    claim_step-token_lt 100 2000 worker rival 10 fresh (start 150 10 as_worker ∷ []) first_claim
      second_claim refl refl

superseded-IsRefused_example : IsRefused 10 1 (generation worker first_claim) (
    run_schedule
      (finish 2100 10 success as_worker ∷ [])
      (claim_step 2000 rival 10
        (run_schedule (start 150 10 as_worker ∷ []) (claim_step 100 worker 10 fresh).1)).1)
unfolding claim_step run_schedule find_by mark_executing advance_provenance_revision
superseded-IsRefused_example =
    superseded-IsRefused 100 2000 worker rival 10 fresh (start 150 10 as_worker ∷ [])
      (finish 2100 10 success as_worker ∷ []) first_claim second_claim refl refl

claim_step-exclusive_example :
    (let db =
        run_schedule
          (claim 900 rival 10 ∷ start 950 10 as_worker ∷ [])
          (claim_step 100 worker 10 fresh).1 in
      (claim_step 1000 rival 10 db ≡ (none, db))
      × (s : StepRun) × (find_step 10 db ≡ some s)
      × IsHeld 7 1 1100 s)
unfolding claim_step find_by
claim_step-exclusive_example =
    claim_step-exclusive 100 1000 worker rival 10 fresh
      (claim 900 rival 10 ∷ start 950 10 as_worker ∷ []) first_claim refl (omega arith, (tt, tt))
      (omega arith)

fresh-pending : (s : StepRun) → Memᴰ s fresh.step_runs → s.state ≡ StepState.pending
fresh-pending s (Memᴰ.head e) = rw e refl
fresh-pending s (Memᴰ.tail (Memᴰ.head e)) = rw e refl
fresh-pending s (Memᴰ.tail (Memᴰ.tail m)) = elim m [ ]

fresh-IsOrdered : IsOrdered fresh
fresh-IsOrdered s prior m at same earlier started = let e = fresh-pending s m in cc

run_schedule-IsOrdered_example : IsOrdered (run_schedule day fresh)
run_schedule-IsOrdered_example = run_schedule-IsOrdered day fresh fresh-IsOrdered

apply-FollowsProtocol_example : FollowsProtocol (some 1) fresh (apply (claim 100 worker 10) fresh)
unfolding find_by
apply-FollowsProtocol_example = apply-FollowsProtocol (claim 100 worker 10) fresh

-- The second step waits for the first: a claim of it writes nothing.
run_schedule-watermark_example : run_schedule (claim 100 worker 11 ∷ []) fresh ≡ fresh
unfolding claim_step run_schedule find_by
run_schedule-watermark_example =
    run_schedule-watermark (claim 100 worker 11 ∷ []) fresh (λ run. refl)
