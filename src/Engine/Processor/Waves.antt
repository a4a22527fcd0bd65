-- ===== src/Engine/Processor/Waves.antt =====
-- The wave loop of a step ends, and what it writes agrees with the results of its invocations.
use rupture_grid.Base.{ℕ, suc, ◌-◌, ◌*◌, ◌≤◌, ◌<◌, ◌≡◌, ◌⊎◌, Bool, true, List}
use rupture_grid.Engine.Classify.{ContractKind}
use rupture_grid.Engine.Transitions.{TerminalWrite}
use rupture_grid.Engine.Processor.{
  Attempt, ended, threw, Ran, Action, InvocationResult, Progress, start, absorb_all, run_slots,
  run_invocation, cancelled_write, final_write, min_of, run_waves,
}
use rupture_grid.Engine.Processor.Results.{all_ok}

module _ (action : Action) (contract : ContractKind) (http : ℕ → ℕ → Attempt) where
  -- What the loop has done when it writes: the invocations that ran, their results, and the write.
  module _ (cancelled : ℕ → Bool) (repeat concurrency : ℕ) (pos : 1 ≤ concurrency) where
    Written : Ran TerminalWrite → Type 0
    Written o =
        ((n : ℕ) × (rs : List InvocationResult) × (w : TerminalWrite) × (o ≡ ended w)
          × (run_slots action contract http 0 n ≡ ended rs)
          × (((w ≡ cancelled_write action (absorb_all start rs))
                × (n < repeat)
                × (all_ok rs ≡ true))
              ⊎ ((w ≡ final_write action (absorb_all start rs))
                  × (n ≤ repeat)
                  × (all_ok rs ≡ true → n ≡ repeat))))
        ⊎ ((i : ℕ) × (o ≡ threw) × (i < repeat) × (run_invocation action contract (http i) ≡ threw))

    abbrev done : ℕ → ℕ
    done wave = min_of (wave * concurrency) repeat

    abbrev size : ℕ → ℕ
    size wave = min_of concurrency (repeat - wave * concurrency)

    abbrev rest_of : ℕ → ℕ → Progress → Ran TerminalWrite
    rest_of fuel wave p' =
        run_waves action contract http cancelled repeat concurrency fuel (suc wave) p'
