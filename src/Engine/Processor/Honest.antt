-- ===== src/Engine/Processor/Honest.antt =====
-- What the terminal write of a step says of the results of its invocations.
use mathlib.Core.List.{Memᴰ}
use mathlib.Core.Path.{subst}
use rupture_grid.Base.{
  ℕ, ◌+◌, ◌≤◌, ◌<◌, ◌≡◌, refl, sym, ap, ◌∙◌, ◌⊎◌, inl, inr, Bool, true, false, List, arith, ltb,
  Bool-cases,
}
use rupture_grid.Engine.Classify.{
  Mutation, mutating, read_only, IntentOutcome, indeterminate, known_absent, known_occurred,
  not_applicable,
}
use rupture_grid.Engine.Transitions.{TerminalState, TerminalWrite}
use rupture_grid.Engine.Processor.{
  Action, InvocationResult, rank, Progress, start, absorb_all, cancelled_write, final_write,
}
use rupture_grid.Engine.Processor.Results.{
  attempts_of, all_ok, absorb_all-attempts, absorb_all-ok, absorb_all-member, absorb_all-attained,
}

mutation_cases : (m : Mutation) → (m ≡ mutating) ⊎ (m ≡ read_only)
mutation_cases mutating = inl refl
mutation_cases read_only = inr refl

-- What the write of a cancelled step says of its effect: INDETERMINATE if attempts of a mutating
-- action have been made, and KNOWN_ABSENT if none has been made or the action only reads.
abbrev pub IsCautious : Action → TerminalWrite → Type 0
IsCautious action w =
    ((w.side_effect_knowledge ≡ indeterminate)
      × (1 ≤ w.attempt_count)
      × (action.mutation ≡ mutating))
    ⊎ ((w.side_effect_knowledge ≡ known_absent)
        × ((w.attempt_count ≡ 0) ⊎ (action.mutation ≡ read_only)))

-- What the write of a succeeded step says of its effect.
abbrev pub IsDefinite : Action → TerminalWrite → Type 0
IsDefinite action w =
    ((action.mutation ≡ mutating) × (w.side_effect_knowledge ≡ known_occurred))
    ⊎ ((action.mutation ≡ read_only) × (w.side_effect_knowledge ≡ not_applicable))

-- What the write of a failed step says of its effect: no less than each of the invocations says, and
-- no more than one of them does.
abbrev pub IsWorst : List InvocationResult → TerminalWrite → Type 0
IsWorst rs w =
    ((r : InvocationResult)
      → Memᴰ r rs
      → rank r.side_effect_knowledge ≤ rank w.side_effect_knowledge)
    × ((w.side_effect_knowledge ≡ not_applicable)
        ⊎ ((r : InvocationResult) × Memᴰ r rs
            × (w.side_effect_knowledge ≡ r.side_effect_knowledge)))

-- How the write of a step agrees with the results of the `n` invocations that ran: a success means
-- that all planned repeats ran and each was a success; a failure means that one was not; a
-- cancellation comes before the last repeat, when none has failed.
abbrev pub IsHonest : Action → ℕ → ℕ → List InvocationResult → TerminalWrite → Type 0
IsHonest action repeat n rs w =
    ((w.state ≡ TerminalState.succeeded)
      × (w.intent_outcome ≡ IntentOutcome.succeeded)
      × (n ≡ repeat)
      × (all_ok rs ≡ true)
      × IsDefinite action w)
    ⊎ (((w.state ≡ TerminalState.failed)
          × (w.intent_outcome ≡ IntentOutcome.failed)
          × (n ≤ repeat)
          × (all_ok rs ≡ false)
          × IsWorst rs w)
        ⊎ ((w.state ≡ TerminalState.cancelled)
            × (w.intent_outcome ≡ IntentOutcome.cancelled)
            × (n < repeat)
            × (all_ok rs ≡ true)
            × IsCautious action w))

final_write-IsDefinite :
    (action : Action) (p : Progress) → p.ok ≡ true → IsDefinite action (final_write action p)
final_write-IsDefinite action p e = elim (mutation_cases action.mutation) [
  | inl m ↦ inl (m, rw (e, m) refl)
  | inr m ↦ inr (m, rw (e, m) refl)
]

final_write-IsWorst :
    (action : Action) (rs : List InvocationResult)
    → (absorb_all start rs).ok ≡ false
    → IsWorst rs (final_write action (absorb_all start rs))
final_write-IsWorst action rs e =
    (λ r m. rw e (absorb_all-member rs start r m), rw e (absorb_all-attained rs start))

final_write-IsHonest :
    (action : Action) (repeat n : ℕ) (rs : List InvocationResult) (ok : Bool)
    → all_ok rs ≡ ok
    → n ≤ repeat
    → (all_ok rs ≡ true → n ≡ repeat)
    → IsHonest action repeat n rs (final_write action (absorb_all start rs))
final_write-IsHonest action repeat n rs true e le all =
    let ok : (absorb_all start rs).ok ≡ true = absorb_all-ok rs start ∙ e in
    inl (rw ok refl, rw ok refl, all e, e, final_write-IsDefinite action (absorb_all start rs) ok)
final_write-IsHonest action repeat n rs false e le all =
    let ok : (absorb_all start rs).ok ≡ false = absorb_all-ok rs start ∙ e in
    inr (inl (rw ok refl, rw ok refl, le, e, final_write-IsWorst action rs ok))

cancelled_write-IsCautious :
    (action : Action) (p : Progress) → IsCautious action (cancelled_write action p)
cancelled_write-IsCautious action p = elim (mutation_cases action.mutation) [
  | inr m ↦ inr (rw m (ground arith), inr m)
  | inl m ↦ elim (Bool-cases (ltb 0 p.attempts)) [
    | inl e ↦ inl (rw (e, m) refl, ground arith, m)
    | inr e ↦ inr (rw e refl, inl (ground arith))
  ]
]

no_start : (n : ℕ) → 0 + n ≡ n
no_start n = omega arith

pub ending-IsHonest :
    (action : Action) (repeat n : ℕ) (rs : List InvocationResult) (w : TerminalWrite)
    → ((w ≡ cancelled_write action (absorb_all start rs)) × (n < repeat) × (all_ok rs ≡ true))
      ⊎ ((w ≡ final_write action (absorb_all start rs))
          × (n ≤ repeat)
          × (all_ok rs ≡ true → n ≡ repeat))
    → (w.attempt_count ≡ attempts_of rs) × IsHonest action repeat n rs w
ending-IsHonest action repeat n rs w (inl (same, lt, ok)) =
    let counted = absorb_all-attempts rs start in
    (
      ap (λ (x : TerminalWrite). x.attempt_count) same ∙ (counted ∙ no_start _),
      inr (
          inr (
            ap (λ (x : TerminalWrite). x.state) same,
            ap (λ (x : TerminalWrite). x.intent_outcome) same,
            lt,
            ok,
            subst (IsCautious action) (sym same)
                (cancelled_write-IsCautious action (absorb_all start rs)),
          )),
    )
ending-IsHonest action repeat n rs w (inr (same, le, all)) =
    let counted = absorb_all-attempts rs start in
    (
      ap (λ (x : TerminalWrite). x.attempt_count) same ∙ (counted ∙ no_start _),
      subst (IsHonest action repeat n rs) (sym same)
          (final_write-IsHonest action repeat n rs _ refl le all),
    )
