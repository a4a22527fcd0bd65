-- ===== src/Engine/Processor/Retry.antt =====
-- The retry loop of one planned invocation ends within its budget, and repeats no mutation that may
-- have happened.
use mathlib.Core.Path.{subst}
use rupture_grid.Base.{
  ℕ, zero, suc, ◌+◌, ◌≤◌, ◌<◌, ◌≡◌, refl, sym, ◌⊎◌, inl, inr, true, arith, if◌then◌else◌,
  Bool-cases,
}
use rupture_grid.Engine.Classify.{
  ClassifyResult, ContractKind, mutating, known_absent, IntentOutcome, decide_retry,
  safe_retry_max_attempts,
}
use rupture_grid.Engine.Classify.Laws.{decide_retry-mutating}
use rupture_grid.Engine.Processor.{
  HttpOutcome, Attempt, observed, failing, Ran, ended, threw, Action, InvocationResult,
  classify_attempt, will_retry, result_of, after_attempt, run_invocation_from, run_invocation,
  max_attempts_of,
}

will_retry-lt :
    (action : Action) (most attempt : ℕ) (c : ClassifyResult)
    → will_retry action most attempt c ≡ true
    → attempt < most
unfolding will_retry decide_retry
will_retry-lt action most attempt c h = ground arith

will_retry-mutating :
    (action : Action) (most attempt : ℕ) (c : ClassifyResult)
    → action.mutation ≡ mutating
    → will_retry action most attempt c ≡ true
    → (c.intent_outcome ≡ IntentOutcome.failed) × (c.side_effect_knowledge ≡ known_absent)
unfolding will_retry
will_retry-mutating action most attempt c m h =
    let (_, _, a, b) = (decide_retry-mutating _ m).0 h in (a, b)

-- An attempt that the loop repeated: it was observed, and its retry is permitted.
abbrev IsRetried : Action → ContractKind → ℕ → (ℕ → Attempt) → ℕ → Type 0
IsRetried action contract most http k =
    (o : HttpOutcome) × (http k ≡ observed o)
    × (will_retry action most k (classify_attempt action contract o) ≡ true)

-- That attempt `last` ends the loop that stands behind `attempt` attempts: each one before was
-- repeated, and where there is one, `last` is within the budget.
record IsLast (action : Action) (contract : ContractKind) (most : ℕ) (http : ℕ → Attempt)
    (attempt last : ℕ) : Type 0 where
  later : attempt < last
  within : (suc attempt < last) → last ≤ most
  permitted : (k : ℕ) → attempt < k → k < last → IsRetried action contract most http k

-- The two ends of the loop.
Ends : Action → ContractKind → ℕ → (ℕ → Attempt) → ℕ → Ran InvocationResult → Type 0
Ends action contract most http attempt ran =
    ((r : InvocationResult) × (o : HttpOutcome) × (ran ≡ ended r)
      × IsLast action contract most http attempt r.attempts_used
      × (http r.attempts_used ≡ observed o)
      × (r ≡ result_of r.attempts_used o (classify_attempt action contract o)))
    ⊎ ((k : ℕ) × (ran ≡ threw) × IsLast action contract most http attempt k × (http k ≡ failing))

next_or_later : (attempt k : ℕ) → attempt < k → (k ≡ suc attempt) ⊎ (suc attempt < k)
next_or_later attempt k h = grind arith

module _ (action : Action) (contract : ContractKind) (most : ℕ) (http : ℕ → Attempt) where
  IsLast-now : (attempt : ℕ) → IsLast action contract most http attempt (suc attempt)
  IsLast-now attempt = record {
    later = omega arith;
    within = λ h. absurd (omega arith);
    permitted = λ k a b. absurd (omega arith);
  }

  IsLast-later :
      (attempt last : ℕ)
      → IsRetried action contract most http (suc attempt)
      → IsLast action contract most http (suc attempt) last
      → IsLast action contract most http attempt last
  IsLast-later attempt last (o, seen, again) i =
      let lt = will_retry-lt action most (suc attempt) _ again in
      record {
        later = let l = i.later in omega arith;
        within = λ h. elim (next_or_later (suc attempt) last i.later) [
          | inl e ↦ omega arith
          | inr l ↦ i.within l
        ];
        permitted = λ k a b. elim (next_or_later attempt k a) [
          | inl e ↦ rw e (o, seen, again)
          | inr l ↦ i.permitted k l b
        ];
      }

  Ends-later :
      (attempt : ℕ) (ran : Ran InvocationResult)
      → IsRetried action contract most http (suc attempt)
      → Ends action contract most http (suc attempt) ran
      → Ends action contract most http attempt ran
  unfolding Ends
  Ends-later attempt ran again (inl (r, o, run, i, seen, same)) =
      inl (r, o, run, IsLast-later attempt r.attempts_used again i, seen, same)
  Ends-later attempt ran again (inr (k, run, i, seen)) =
      inr (k, run, IsLast-later attempt k again i, seen)

  Ends-after :
      (attempt : ℕ) (retried : Ran InvocationResult) (a : Attempt)
      → http (suc attempt) ≡ a
      → (IsRetried action contract most http (suc attempt)
          → Ends action contract most http (suc attempt) retried)
      → Ends action contract most http attempt
          (after_attempt action contract most (suc attempt) retried a)
  unfolding Ends
  Ends-after attempt retried failing seen rest = inr (suc attempt, refl, IsLast-now attempt, seen)
  Ends-after attempt retried (observed o) seen rest =
      let c = classify_attempt action contract o in
      elim (Bool-cases (will_retry action most (suc attempt) c)) [
        | inl e ↦
            let again : IsRetried action contract most http (suc attempt) = (o, seen, e) in
            subst
              (λ b.
                Ends action contract most http attempt
                  (if b then retried else ended (result_of (suc attempt) o c)))
              (sym e) (Ends-later attempt retried again (rest again))
        | inr e ↦
            subst
              (λ b.
                Ends action contract most http attempt
                  (if b then retried else ended (result_of (suc attempt) o c)))
              (sym e) (inl (result_of (suc attempt) o c, o, refl, IsLast-now attempt, seen, refl))
      ]

  run_invocation_from-Ends :
      (fuel attempt : ℕ)
      → 1 ≤ fuel
      → most ≤ fuel + attempt
      → Ends action contract most http attempt
          (run_invocation_from action contract most http fuel attempt)
  unfolding run_invocation_from
  run_invocation_from-Ends zero attempt p q = absurd (omega arith)
  run_invocation_from-Ends (suc fuel) attempt p q =
      Ends-after attempt _ (http (suc attempt)) refl (λ (o, seen, again).
        let lt = will_retry-lt action most (suc attempt) _ again in
        run_invocation_from-Ends fuel (suc attempt) (omega arith) (omega arith))

max_attempts_of-bounds : (action : Action) → max_attempts_of action ≤ safe_retry_max_attempts
max_attempts_of-bounds action = ground arith

max_attempts_of-pos : (action : Action) → 1 ≤ max_attempts_of action
max_attempts_of-pos action = ground arith

-- The end, with all that the loop records of it.
whole-Ends :
    (action : Action) (contract : ContractKind) (http : ℕ → Attempt)
    → Ends action contract (max_attempts_of action) http 0 (run_invocation action contract http)
unfolding run_invocation
whole-Ends action contract http =
    let bound = max_attempts_of-bounds action in
    let pos = max_attempts_of-pos action in
    run_invocation_from-Ends action contract (max_attempts_of action) http safe_retry_max_attempts 0
      (omega arith) (omega arith)

IsLast-bounds :
    (action : Action) (contract : ContractKind) (http : ℕ → Attempt) (last : ℕ)
    → IsLast action contract (max_attempts_of action) http 0 last
    → (1 ≤ last) × (last ≤ max_attempts_of action)
IsLast-bounds action contract http last i =
    let pos = max_attempts_of-pos action in
    (i.later, elim (next_or_later 0 last i.later) [ inl e ↦ omega arith | inr l ↦ i.within l ])

-- A planned invocation always ends, after at least one attempt and within the budget of its action:
-- with a result, which reports the classification of its last attempt, or with an error, where its
-- last attempt throws.
pub run_invocation-ends :
    (action : Action) (contract : ContractKind) (http : ℕ → Attempt)
    → ((r : InvocationResult) × (o : HttpOutcome) × (run_invocation action contract http ≡ ended r)
        × (1 ≤ r.attempts_used)
        × (r.attempts_used ≤ max_attempts_of action)
        × (http r.attempts_used ≡ observed o)
        × (r ≡ result_of r.attempts_used o (classify_attempt action contract o)))
      ⊎ ((k : ℕ) × (run_invocation action contract http ≡ threw)
          × (1 ≤ k)
          × (k ≤ max_attempts_of action)
          × (http k ≡ failing))
unfolding Ends
run_invocation-ends action contract http = elim (whole-Ends action contract http) [
  | inl (r, o, run, i, seen, same) ↦
      let (a, b) = IsLast-bounds action contract http r.attempts_used i in
      inl (r, o, run, a, b, seen, same)
  | inr (k, run, i, seen) ↦
      let (a, b) = IsLast-bounds action contract http k i in inr (k, run, a, b, seen)
]

-- When the action is mutating, every attempt before the last of a planned invocation that gives a
-- result was observed and classified as FAILED with its effect KNOWN_ABSENT.
pub run_invocation-mutating :
    (action : Action) (contract : ContractKind) (http : ℕ → Attempt) (r : InvocationResult) (k : ℕ)
    → action.mutation ≡ mutating
    → run_invocation action contract http ≡ ended r
    → 1 ≤ k
    → k < r.attempts_used
    → (o : HttpOutcome) × (http k ≡ observed o)
      × ((classify_attempt action contract o).intent_outcome ≡ IntentOutcome.failed)
      × ((classify_attempt action contract o).side_effect_knowledge ≡ known_absent)
unfolding Ends
run_invocation-mutating action contract http r k m run a b =
    elim (whole-Ends action contract http) [
      | inr (j, ran, i, seen) ↦ let clash : threw ≡ ended r = cc in cc
      | inl (q, last, ran, i, seen, reported) ↦
          let same : r ≡ q = cc in
          let (o, at_k, again) = i.permitted k a (rw (← same) b) in
          let (x, y) = will_retry-mutating action (max_attempts_of action) k _ m again in
          (o, at_k, x, y)
    ]

-- When a planned invocation of a mutating action throws, it does so at an attempt that throws, and
-- every attempt before that one was observed and classified as FAILED with its effect KNOWN_ABSENT.
pub run_invocation-threw :
    (action : Action) (contract : ContractKind) (http : ℕ → Attempt)
    → action.mutation ≡ mutating
    → run_invocation action contract http ≡ threw
    → (k : ℕ) × (1 ≤ k)
      × (http k ≡ failing)
      × ((j : ℕ)
          → 1 ≤ j
          → j < k
          → (o : HttpOutcome) × (http j ≡ observed o)
            × ((classify_attempt action contract o).intent_outcome ≡ IntentOutcome.failed)
            × ((classify_attempt action contract o).side_effect_knowledge ≡ known_absent))
unfolding Ends
run_invocation-threw action contract http m run = elim (whole-Ends action contract http) [
  | inl (q, last, ran, i, seen, reported) ↦ let clash : ended q ≡ threw = cc in cc
  | inr (k, ran, i, seen) ↦ (
    k,
    i.later,
    seen,
    λ j a b.
        let (o, at_j, again) = i.permitted j a b in
        let (x, y) = will_retry-mutating action (max_attempts_of action) j _ m again in
        (o, at_j, x, y),
  )
]
