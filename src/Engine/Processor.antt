-- ===== src/Engine/Processor.antt =====
-- The invocation loop and the repeat waves of packages/engine/src/step-processor.ts. The network is
-- outside: `http i k` is what attempt `k` of the planned invocation `i` observed, or that the attempt
-- throws, and `cancelled w` says whether a cancel request is seen before wave `w`. The clock,
-- telemetry, evidence capture and the staggering of waves change none of the values below. The branch
-- of the retry loop for a lost lease is left out, since `recordInvocation` is not fenced and never
-- reports one.
pub mod Results
pub mod Retry
pub mod Honest
pub mod Waves
use rupture_grid.Base.{
  ℕ, zero, suc, ◌+◌, ◌-◌, ◌*◌, Bool, true, false, ◌&&◌, not, Option, none, some, List, [], ◌∷◌,
  Text, codes, ltb, leb, if◌then◌else◌,
}
use rupture_grid.Engine.Classify.{
  IntentOutcome, SideEffectKnowledge, known_occurred, known_absent, indeterminate, not_applicable,
  StageName, Mutation, mutating, read_only, is_mutating, ContractKind, ClassifyInput,
  ClassifyResult, classify_invocation, DeclaredRetryPolicy, safe, none_declared, decide_retry,
  safe_retry_max_attempts,
}
use rupture_grid.Engine.Transitions.{TerminalState, TerminalWrite}

-- What `executeHttp` reports of one attempt.
pub record HttpOutcome : Type 0 where
  pub transport_stage : Option StageName
  pub intent_outcome : IntentOutcome
  pub http_status : Option ℕ
  pub error : Option Text

-- The action of a step, as far as the loops read it.
pub record Action : Type 0 where
  pub mutation : Mutation
  pub retry_policy : Option DeclaredRetryPolicy
  pub repeat : Option ℕ
  pub concurrency : Option ℕ

pub record InvocationResult : Type 0 where
  pub ok : Bool
  pub attempts_used : ℕ
  pub intent_outcome : IntentOutcome
  pub side_effect_knowledge : SideEffectKnowledge
  pub error : Option Text

abbrev pub declared_policy : Option DeclaredRetryPolicy → DeclaredRetryPolicy
declared_policy none = none_declared
declared_policy (some p) = p

abbrev pub is_success : IntentOutcome → Bool
is_success IntentOutcome.succeeded = true
is_success _ = false

unfoldable pub classify_attempt : Action → ContractKind → HttpOutcome → ClassifyResult
classify_attempt action contract o = classify_invocation (record {
  mutation = action.mutation;
  contract_kind = contract;
  transport_stage = o.transport_stage;
  intent_outcome = o.intent_outcome;
  http_status = o.http_status;
})

unfoldable pub will_retry : Action → ℕ → ℕ → ClassifyResult → Bool
will_retry action max_attempts attempt classified =
    (decide_retry (record {
      declared_policy = declared_policy action.retry_policy;
      mutation = action.mutation;
      side_effect_knowledge = classified.side_effect_knowledge;
      intent_outcome = classified.intent_outcome;
      attempts_so_far = attempt;
      max_attempts = max_attempts;
    })).will_retry

-- One attempt: what the target answered, or an error that leaves the loop. References in the body that
-- do not resolve throw before anything is sent, and a failed record of the invocation behind it.
pub data Attempt : Type 0 where
  observed : HttpOutcome → Attempt
  failing : Attempt

-- How a loop ends: with a value, with an error that it passes on, or not within its fuel.
pub data Ran {ℓ} (A : Type ℓ) : Type ℓ where
  ended : A → Ran A
  threw out_of_fuel : Ran A

abbrev pub result_of : ℕ → HttpOutcome → ClassifyResult → InvocationResult
result_of attempt o classified = record {
  ok = is_success classified.intent_outcome;
  attempts_used = attempt;
  intent_outcome = classified.intent_outcome;
  side_effect_knowledge = classified.side_effect_knowledge;
  error = o.error;
}

-- What the loop does after one attempt, where `retried` is the loop behind it.
abbrev pub after_attempt :
    Action → ContractKind → ℕ → ℕ → Ran InvocationResult → Attempt → Ran InvocationResult
after_attempt action contract max_attempts attempt retried failing = threw
after_attempt action contract max_attempts attempt retried (observed o) =
    if will_retry action max_attempts attempt (classify_attempt action contract o)
    then retried
    else ended (result_of attempt o (classify_attempt action contract o))

-- `runInvocationWithRetry` from behind `attempt` attempts.
unfoldable pub run_invocation_from :
    Action → ContractKind → ℕ → (ℕ → Attempt) → ℕ → ℕ → Ran InvocationResult
run_invocation_from action contract max_attempts http zero attempt = out_of_fuel
run_invocation_from action contract max_attempts http (suc fuel) attempt =
    let retried = run_invocation_from action contract max_attempts http fuel (suc attempt) in
    after_attempt action contract max_attempts (suc attempt) retried (http (suc attempt))

abbrev is_safe : Option DeclaredRetryPolicy → Bool
is_safe (some safe) = true
is_safe _ = false

-- `action.retryPolicy === 'SAFE' ? SAFE_RETRY_MAX_ATTEMPTS : 1`.
abbrev pub max_attempts_of : Action → ℕ
max_attempts_of action = if is_safe action.retry_policy then safe_retry_max_attempts else 1

-- One planned invocation; its fuel is the largest budget.
unfoldable pub run_invocation : Action → ContractKind → (ℕ → Attempt) → Ran InvocationResult
run_invocation action contract http =
    run_invocation_from action contract (max_attempts_of action) http safe_retry_max_attempts 0

-- `rank` of `worstKnowledge`.
abbrev pub rank : SideEffectKnowledge → ℕ
rank not_applicable = 0
rank known_absent = 1
rank known_occurred = 2
rank indeterminate = 3

unfoldable pub worst_knowledge : SideEffectKnowledge → SideEffectKnowledge → SideEffectKnowledge
worst_knowledge a b = if leb (rank b) (rank a) then a else b

-- The variables of the wave loop.
pub record Progress : Type 0 where
  pub attempts : ℕ
  pub knowledge : SideEffectKnowledge
  pub last_error : Option Text
  pub ok : Bool

abbrev pub start : Progress
start = record { attempts = 0; knowledge = not_applicable; last_error = none; ok = true }

abbrev later_error : Option Text → Option Text → Option Text
later_error none old = old
later_error (some message) old = some message

abbrev pub absorb : Progress → InvocationResult → Progress
absorb p r = record {
  attempts = p.attempts + r.attempts_used;
  knowledge = worst_knowledge p.knowledge r.side_effect_knowledge;
  last_error = later_error r.error p.last_error;
  ok = p.ok && r.ok;
}

unfoldable pub absorb_all : Progress → List InvocationResult → Progress
absorb_all p [] = p
absorb_all p (r ∷ rs) = absorb_all (absorb p r) rs

-- `Promise.all`: one invocation that throws rejects the wave.
abbrev pub cons_results :
    Ran InvocationResult → Ran (List InvocationResult) → Ran (List InvocationResult)
cons_results threw rest = threw
cons_results out_of_fuel rest = out_of_fuel
cons_results (ended r) threw = threw
cons_results (ended r) out_of_fuel = out_of_fuel
cons_results (ended r) (ended rs) = ended (r ∷ rs)

-- The invocations `first .. first + count - 1` of one wave, in slot order.
unfoldable pub run_slots :
    Action → ContractKind → (ℕ → ℕ → Attempt) → ℕ → ℕ → Ran (List InvocationResult)
run_slots action contract http first zero = ended []
run_slots action contract http first (suc count) =
    cons_results (run_invocation action contract (http first))
      (run_slots action contract http (suc first) count)

abbrev pub cancelled_error : Text
cancelled_error = codes "run cancelled mid-flight"

abbrev pub cancelled_write : Action → Progress → TerminalWrite
cancelled_write action p = record {
  state = TerminalState.cancelled;
  intent_outcome = IntentOutcome.cancelled;
  side_effect_knowledge =
      if ltb 0 p.attempts && is_mutating action.mutation then indeterminate else known_absent;
  attempt_count = p.attempts;
  error = some cancelled_error;
}

abbrev success_knowledge : Mutation → SideEffectKnowledge
success_knowledge mutating = known_occurred
success_knowledge read_only = not_applicable

-- The write behind the loop.
abbrev pub final_write : Action → Progress → TerminalWrite
final_write action p = record {
  state = if p.ok then TerminalState.succeeded else TerminalState.failed;
  intent_outcome = if p.ok then IntentOutcome.succeeded else IntentOutcome.failed;
  side_effect_knowledge = if p.ok then success_knowledge action.mutation else p.knowledge;
  attempt_count = p.attempts;
  error = p.last_error;
}

abbrev pub min_of : ℕ → ℕ → ℕ
min_of a b = if leb a b then a else b

abbrev pub or_else : ℕ → Option ℕ → ℕ
or_else d none = d
or_else d (some n) = n

abbrev pub at_least_one : ℕ → ℕ
at_least_one n = if ltb n 1 then 1 else n

-- `EXECUTION_LIMITS` of packages/shared/src/index.ts.
abbrev pub max_repeat : ℕ
max_repeat = 100

abbrev pub max_concurrency : ℕ
max_concurrency = 32

abbrev pub effective_repeat : Action → ℕ
effective_repeat action = at_least_one (min_of (or_else 1 action.repeat) max_repeat)

abbrev pub effective_concurrency : Action → ℕ
effective_concurrency action = at_least_one (min_of (or_else 1 action.concurrency) max_concurrency)

-- A wave has run: its results are absorbed, and the loop stops at a failure. A rejected wave leaves
-- the step without a terminal write.
abbrev pub after_wave :
    Action
    → Progress
    → (Progress → Ran TerminalWrite)
    → Ran (List InvocationResult)
    → Ran TerminalWrite
after_wave action p continue threw = threw
after_wave action p continue out_of_fuel = out_of_fuel
after_wave action p continue (ended results) =
    let p' = absorb_all p results in if p'.ok then continue p' else ended (final_write action p')

-- The loop over the waves of `concurrency` slots.
unfoldable pub run_waves :
    Action
    → ContractKind
    → (ℕ → ℕ → Attempt)
    → (ℕ → Bool)
    → ℕ
    → ℕ
    → ℕ
    → ℕ
    → Progress
    → Ran TerminalWrite
run_waves action contract http cancelled repeat concurrency zero wave p = out_of_fuel
run_waves action contract http cancelled repeat concurrency (suc fuel) wave p =
    if ltb (wave * concurrency) repeat
    then if cancelled wave
      then ended (cancelled_write action p)
      else after_wave action p
          (λ p'. run_waves action contract http cancelled repeat concurrency fuel (suc wave) p')
          (run_slots action contract http (wave * concurrency)
            (min_of concurrency (repeat - wave * concurrency)))
    else ended (final_write action p)

-- What the step writes at its end.
unfoldable pub process_waves :
    Action → ContractKind → (ℕ → ℕ → Attempt) → (ℕ → Bool) → Ran TerminalWrite
process_waves action contract http cancelled =
    run_waves action contract http cancelled (effective_repeat action)
      (effective_concurrency action) (suc (effective_repeat action)) 0 start
