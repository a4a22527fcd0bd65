-- ===== src/Engine/Examples/Endings.antt =====
-- The theorems on single transactions and loops, each at a concrete run.
use mathlib.Core.List.{Memᴰ}
use rupture_grid.Base.{
  ℕ, suc, ◌≤◌, ◌<◌, ◌≡◌, ◌≢◌, refl, ◌↔◌, ◌⊎◌, true, false, ◌&&◌, none, some, [], ◌∷◌, ◌++◌, any,
  arith, take, find_by,
}
use rupture_grid.Engine.Classify.{
  IntentOutcome, known_absent, known_occurred, mutating, connecting, request_sent, stage,
  ClassifyInput, classify_invocation, stage_at_least, is_4xx, no_effect_4xx, demo_fintech_webhook,
  decide_retry, safe,
}
use rupture_grid.Engine.Classify.Laws.{classify_invocation-known_absent_iff}
use rupture_grid.Engine.Store.{
  StepState, RunState, StepRun, InvocationRecord, Db, is_open, advance_provenance_revision,
}
use rupture_grid.Engine.Claim.{claim_step}
use rupture_grid.Engine.Transitions.{record_invocation, occupies, invocation_row}
use rupture_grid.Engine.Recovery.{SettleCandidate, settle_candidates, settle_rows, settle_run}
use rupture_grid.Engine.Reconciler.{is_mutating_step, reconcile_step}
use rupture_grid.Engine.Schedule.{claim, run_schedule}
use rupture_grid.Engine.Settling.Verdict.{HasVerdict, settle_run-HasVerdict, settle_run-closes}
use rupture_grid.Engine.Invocations.{allocated, record_invocation-total}
use rupture_grid.Engine.Reconciliation.{
  Resolves, reconciled_answer, reconciled_row, reconcile_step-Resolves,
}
use rupture_grid.Engine.Processor.{
  Action, Attempt, observed, failing, ended, threw, HttpOutcome, InvocationResult, run_invocation,
  run_invocation_from, will_retry, max_attempts_of, result_of, classify_attempt,
}
use rupture_grid.Engine.Processor.Retry.{
  run_invocation-ends, run_invocation-mutating, run_invocation-threw,
}
use rupture_grid.Engine.Examples.{step, tables, first_step, fresh, worker, as_worker}

-- The first step has failed and the second waits.
abbrev failed_step : StepRun
failed_step = step 10 0 StepState.failed none 1

abbrev blocked_step : StepRun
blocked_step = step 11 1 StepState.pending none 0

abbrev stuck : Db
stuck = tables (failed_step ∷ blocked_step ∷ []) RunState.running

abbrev stuck_candidate : SettleCandidate
stuck_candidate = record { id = 1; has_failure = true; has_open = true }

settle_run-HasVerdict_example :
    HasVerdict 1 (settle_run 900 stuck_candidate (run_schedule (claim 800 worker 11 ∷ []) stuck)).1
unfolding settle_candidates settle_rows find_by run_schedule take claim_step
settle_run-HasVerdict_example =
    settle_run-HasVerdict 900 10 stuck_candidate (claim 800 worker 11 ∷ []) stuck _ (Memᴰ.head refl)
      refl refl

settle_run-closes_example : is_open StepState.cancelled ≡ false
unfolding settle_candidates settle_rows find_by settle_run take advance_provenance_revision
settle_run-closes_example =
    settle_run-closes 900 10 stuck_candidate stuck (Memᴰ.head refl) _ (Memᴰ.tail (Memᴰ.head refl))
      refl

abbrev delivery : InvocationRecord
delivery = record {
  sequence = 0;
  wave_index = 0;
  invocation_identity = none;
  transport_stage = none;
  http_status = some 200;
  request_bytes = none;
  response_bytes = none;
  response_body = none;
  duration_ms = some 12;
  outcome = IntentOutcome.succeeded;
  side_effect_knowledge = known_occurred;
  error = none;
}

record_invocation-total_example :
    (let n = allocated 10 0 fresh.invocations in
      ((record_invocation 10 delivery as_worker fresh).0 ≡ some n)
      × (any (occupies 10 n) fresh.invocations ≡ false)
      × ((record_invocation 10 delivery as_worker fresh).1.invocations
          ≡ fresh.invocations ++ invocation_row 10 n delivery as_worker ∷ []))
unfolding find_by
record_invocation-total_example =
    record_invocation-total 10 delivery as_worker fresh first_step refl

-- A worker has died in the mutating first step.
abbrev lost_step : StepRun
lost_step = step 10 0 StepState.executing (some 7) 1

abbrev lost : Db
lost = tables (lost_step ∷ blocked_step ∷ []) RunState.running

reconcile_step-Resolves_example :
    Resolves 10
      (some (reconciled_answer (is_mutating_step 10 lost)))
      (reconciled_row (is_mutating_step 10 lost) 900 lost_step)
      (reconcile_step 800 900 10 lost)
unfolding find_by
reconcile_step-Resolves_example = reconcile_step-Resolves 800 900 10 lost lost_step refl refl

-- A webhook that was answered with a rejection.
abbrev rejected : ClassifyInput
rejected = record {
  mutation = mutating;
  contract_kind = demo_fintech_webhook;
  transport_stage = some (stage request_sent);
  intent_outcome = IntentOutcome.failed;
  http_status = some 422;
}

classify_invocation-known_absent_iff_example :
    ((classify_invocation rejected).side_effect_knowledge ≡ known_absent) ↔ (
      (rejected.intent_outcome ≢ IntentOutcome.succeeded)
      × ((stage_at_least rejected.transport_stage request_sent ≡ false)
          ⊎ ((rejected.intent_outcome ≡ IntentOutcome.failed)
              × ((is_4xx rejected.http_status && no_effect_4xx rejected.contract_kind) ≡ true))))
classify_invocation-known_absent_iff_example = classify_invocation-known_absent_iff rejected refl

abbrev pub transfer : Action
transfer = record {
  mutation = mutating;
  retry_policy = some safe;
  repeat = none;
  concurrency = none;
}

abbrev refused : HttpOutcome
refused = record {
  transport_stage = some (stage connecting);
  intent_outcome = IntentOutcome.failed;
  http_status = none;
  error = none;
}

-- The first connection fails and the second attempt succeeds.
abbrev pub flaky : ℕ → Attempt
flaky (suc (suc k)) = observed (record {
  transport_stage = some (stage request_sent);
  intent_outcome = IntentOutcome.succeeded;
  http_status = some 200;
  error = none;
})
flaky _ = observed refused

abbrev settled : InvocationResult
settled = record {
  ok = true;
  attempts_used = 2;
  intent_outcome = IntentOutcome.succeeded;
  side_effect_knowledge = known_occurred;
  error = none;
}

run_invocation-ends_example :
    ((r : InvocationResult) × (o : HttpOutcome) × (run_invocation transfer demo_fintech_webhook
          flaky
        ≡ ended r)
      × (1 ≤ r.attempts_used)
      × (r.attempts_used ≤ max_attempts_of transfer)
      × (flaky r.attempts_used ≡ observed o)
      × (r ≡ result_of r.attempts_used o (classify_attempt transfer demo_fintech_webhook o)))
    ⊎ ((k : ℕ) × (run_invocation transfer demo_fintech_webhook flaky ≡ threw)
        × (1 ≤ k)
        × (k ≤ max_attempts_of transfer)
        × (flaky k ≡ failing))
run_invocation-ends_example = run_invocation-ends transfer demo_fintech_webhook flaky

run_invocation-mutating_example :
    (o : HttpOutcome) × (flaky 1 ≡ observed o)
    × ((classify_attempt transfer demo_fintech_webhook o).intent_outcome ≡ IntentOutcome.failed)
    × ((classify_attempt transfer demo_fintech_webhook o).side_effect_knowledge ≡ known_absent)
unfolding run_invocation run_invocation_from classify_attempt classify_invocation stage_at_least
    will_retry decide_retry
run_invocation-mutating_example =
    run_invocation-mutating transfer demo_fintech_webhook flaky settled 1 refl refl (omega arith)
      (omega arith)

-- The first connection fails, and the second attempt throws.
abbrev breaking : ℕ → Attempt
breaking (suc (suc k)) = failing
breaking _ = observed refused

run_invocation-threw_example :
    (k : ℕ) × (1 ≤ k)
    × (breaking k ≡ failing)
    × ((j : ℕ)
        → 1 ≤ j
        → j < k
        → (o : HttpOutcome) × (breaking j ≡ observed o)
          × ((classify_attempt transfer demo_fintech_webhook o).intent_outcome
              ≡ IntentOutcome.failed)
          × ((classify_attempt transfer demo_fintech_webhook o).side_effect_knowledge
              ≡ known_absent))
unfolding run_invocation run_invocation_from classify_attempt classify_invocation stage_at_least
    will_retry decide_retry
run_invocation-threw_example = run_invocation-threw transfer demo_fintech_webhook breaking refl refl
