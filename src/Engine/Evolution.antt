-- ===== src/Engine/Evolution.antt =====
-- How the transactions may change a step row over a whole schedule.
use rupture_grid.Base.{
  ℕ, ◌≤◌, ◌≡◌, ◌⊎◌, false, none, some, List, [], ◌∷◌, arith, Rows, Rows-refl, Rows-trans,
  Rows-find_by,
}
use rupture_grid.Engine.Store.{StepRun, Db, is_open, find_step}
use rupture_grid.Engine.Schedule.{Op, claim, apply, run_schedule}
use rupture_grid.Engine.RowChange.{RowChange, Rows-apply}

-- What a terminal step has recorded of its outcome.
pub record SameOutcome (s t : StepRun) : Type 0 where
  pub state : t.state ≡ s.state
  pub intent_outcome : t.intent_outcome ≡ s.intent_outcome
  pub side_effect_knowledge : t.side_effect_knowledge ≡ s.side_effect_knowledge
  pub attempt_count : t.attempt_count ≡ s.attempt_count
  pub error : t.error ≡ s.error
  pub terminal_at : t.terminal_at ≡ s.terminal_at

-- The identity of a row is fixed, its fencing token never falls, a terminal outcome is written once,
-- and a token belongs to one owner: while it stays, the owner stays or is removed.
pub record Evolves (s t : StepRun) : Type 0 where
  pub same_id : t.id ≡ s.id
  pub same_run : t.run_id ≡ s.run_id
  pub same_sequence : t.sequence ≡ s.sequence
  pub token_grows : s.fencing_token ≤ t.fencing_token
  pub token_owner :
      t.fencing_token ≡ s.fencing_token → (t.lease_owner ≡ s.lease_owner) ⊎ (t.lease_owner ≡ none)
  pub write_once : is_open s.state ≡ false → SameOutcome s t

pub Evolves-refl : (s : StepRun) → Evolves s s
Evolves-refl s = ground arith

pub Evolves-trans : (s t u : StepRun) → Evolves s t → Evolves t u → Evolves s u
Evolves-trans s t u h k = grind arith

-- Each change that a transaction makes is of this kind.
pub RowChange-Evolves : (op : Op) (db : Db) (s t : StepRun) → RowChange op db s t → Evolves s t
RowChange-Evolves (claim now options step) db s t h = ground arith
RowChange-Evolves _ db s t h = ground arith

-- A reflexive and transitive relation on rows that every transaction respects, every schedule does.
pub Rows-run_schedule :
    (R : StepRun → StepRun → Type 0)
    → ((s : StepRun) → R s s)
    → ((s t u : StepRun) → R s t → R t u → R s u)
    → ((op : Op) (db : Db) (s t : StepRun) → RowChange op db s t → R s t)
    → (ops : List Op) (db : Db) → Rows R db.step_runs (run_schedule ops db).step_runs
unfolding run_schedule
Rows-run_schedule R r tr h [] db = Rows-refl R db.step_runs r
Rows-run_schedule R r tr h (op ∷ ops) db =
    Rows-trans R db.step_runs (apply op db).step_runs (run_schedule ops (apply op db)).step_runs tr
      (Rows-apply R r op db (h op db)) (Rows-run_schedule R r tr h ops (apply op db))

pub Rows-Evolves :
    (ops : List Op) (db : Db) → Rows Evolves db.step_runs (run_schedule ops db).step_runs
Rows-Evolves = Rows-run_schedule Evolves Evolves-refl Evolves-trans RowChange-Evolves

-- Under every schedule a step row stays findable and changes only as `Evolves` allows: its run and
-- sequence are fixed, its fencing token never falls, while the token stays the lease owner stays or
-- is removed, and a terminal step keeps its state, outcome, effect knowledge, attempts, error and time.
pub run_schedule-Evolves :
    (ops : List Op) (db : Db) (id : ℕ) (s : StepRun)
    → find_step id db ≡ some s
    → (t : StepRun) × (find_step id (run_schedule ops db) ≡ some t) × Evolves s t
run_schedule-Evolves ops db id s found =
    Rows-find_by Evolves (λ x. x.id) id db.step_runs (run_schedule ops db).step_runs s
      (λ a b h. h.same_id) (Rows-Evolves ops db) found
