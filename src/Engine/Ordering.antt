-- ===== src/Engine/Ordering.antt =====
-- Ordered execution: no step starts before every earlier step of its run has succeeded.
use mathlib.Core.List.{Memᴰ}
use rupture_grid.Base.{
  ◌<◌, ◌≡◌, ◌⊎◌, inl, inr, Bool, true, false, List, [], ◌∷◌, arith, Rows-member, any-false, ltb,
  ◌==◌, ◌&&◌, not,
}
use rupture_grid.Engine.Store.{StepState, StepRun, Db, is_succeeded}
use rupture_grid.Engine.Claim.{has_unfinished_prior}
use rupture_grid.Engine.Schedule.{Op, claim, apply, run_schedule}
use rupture_grid.Engine.RowChange.{RowChange, Rows-apply}
use rupture_grid.Engine.Evolution.{Evolves, Evolves-refl, RowChange-Evolves}

-- The states that only a claimed step reaches.
abbrev pub is_started : StepState → Bool
is_started StepState.claimed = true
is_started StepState.executing = true
is_started StepState.succeeded = true
is_started StepState.failed = true
is_started _ = false

-- Of two steps of a run, if the later has started, the earlier has succeeded.
abbrev pub IsOrdered : Db → Type 0
IsOrdered db =
    (s prior : StepRun)
    → Memᴰ s db.step_runs
    → Memᴰ prior db.step_runs
    → prior.run_id ≡ s.run_id
    → prior.sequence < s.sequence
    → is_started s.state ≡ true
    → is_succeeded prior.state ≡ true

-- A transaction starts a row only where the claim's ordering guard holds in the tables before it.
abbrev StartsInOrder : Db → StepRun → StepRun → Type 0
StartsInOrder db s t =
    Evolves s t
    × (is_started t.state ≡ true
        → (is_started s.state ≡ true) ⊎ (has_unfinished_prior db s ≡ false))

RowChange-StartsInOrder :
    (op : Op) (db : Db) (s t : StepRun)
    → RowChange op db s t
    → is_started t.state ≡ true
    → (is_started s.state ≡ true) ⊎ (has_unfinished_prior db s ≡ false)
RowChange-StartsInOrder (claim now options step) db s t h k = ground arith
RowChange-StartsInOrder _ db s t h k = ground arith

no_unfinished_prior :
    (db : Db) (s prior : StepRun)
    → has_unfinished_prior db s ≡ false
    → Memᴰ prior db.step_runs
    → prior.run_id ≡ s.run_id
    → prior.sequence < s.sequence
    → is_succeeded prior.state ≡ true
no_unfinished_prior db s prior h m same earlier =
    let row : (prior.run_id == s.run_id
          && (ltb prior.sequence s.sequence && not (is_succeeded prior.state)))
        ≡ false =
      any-false _ db.step_runs prior h m in
    ground arith

Evolves-succeeded :
    (s t : StepRun) → Evolves s t → is_succeeded s.state ≡ true → is_succeeded t.state ≡ true
Evolves-succeeded s t h e = grind arith

apply-IsOrdered : (op : Op) (db : Db) → IsOrdered db → IsOrdered (apply op db)
apply-IsOrdered op db ordered t later_prior t_in p_in same earlier started =
    let rows =
      Rows-apply (StartsInOrder db) (λ x. (Evolves-refl x, λ k. inl k)) op db
        (λ x y c. (RowChange-Evolves op db x y c, RowChange-StartsInOrder op db x y c)) in
    let (s, s_in, s_kept) = Rows-member (StartsInOrder db) _ _ t rows t_in in
    let (prior, prior_in, prior_kept) = Rows-member (StartsInOrder db) _ _ later_prior rows p_in in
    let same' : prior.run_id ≡ s.run_id = grind arith in
    let earlier' : prior.sequence < s.sequence = grind arith in
    Evolves-succeeded prior later_prior prior_kept.0 (elim (s_kept.1 started) [
      | inl old ↦ ordered s prior s_in prior_in same' earlier' old
      | inr free ↦ no_unfinished_prior db s prior free prior_in same' earlier'
    ])

-- Every schedule keeps the steps of each run in order: if in the tables before it a started step has
-- only succeeded steps before it in its run, the same holds after it, whatever workers, reconcilers
-- and cancellations do and in whatever order. Started means CLAIMED, EXECUTING, SUCCEEDED or FAILED.
pub run_schedule-IsOrdered :
    (ops : List Op) (db : Db) → IsOrdered db → IsOrdered (run_schedule ops db)
unfolding run_schedule
run_schedule-IsOrdered [] db h = h
run_schedule-IsOrdered (op ∷ ops) db h =
    run_schedule-IsOrdered ops (apply op db) (apply-IsOrdered op db h)
