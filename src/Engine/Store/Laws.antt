-- ===== src/Engine/Store/Laws.antt =====
-- The counters of a run's head: each write adds one to one counter of one run.

use rupture_grid.Base.{some, ℕ, ◌+◌, ◌≡◌, List, [], ◌∷◌, ◌==◌, if◌then◌else◌, find_by, arith}
use rupture_grid.Engine.Store.{
  StepRun, find_step, resolve_run_id_of_step, TruthInputHead, Db, advance_head, derive_head,
  advance_provenance_revision, head_or_zero, advance_derivation_generation, read_truth_input_head,
}

find_by-advance_head :
    (run other : ℕ) (hs : List TruthInputHead)
    → head_or_zero other (find_by (λ h. h.run_id) other (advance_head run hs)) ≡ (
        let h = head_or_zero other (find_by (λ h. h.run_id) other hs) in
        if run == other then record h { provenance_revision = h.provenance_revision + 1 } else h)
unfolding advance_head find_by
find_by-advance_head run other [] = ground arith
find_by-advance_head run other (h ∷ hs) = ground (arith, find_by-advance_head run other hs)

find_by-derive_head :
    (run other : ℕ) (hs : List TruthInputHead)
    → head_or_zero other (find_by (λ h. h.run_id) other (derive_head run hs)) ≡ (
        let h = head_or_zero other (find_by (λ h. h.run_id) other hs) in
        if run == other
        then record h { derivation_generation = h.derivation_generation + 1 }
        else h)
unfolding derive_head find_by
find_by-derive_head run other [] = ground arith
find_by-derive_head run other (h ∷ hs) = ground (arith, find_by-derive_head run other hs)

-- A provenance write adds exactly 1 to `P` of its run, leaves its `D` alone, and touches no other run.
pub read_truth_input_head-advance_provenance_revision :
    (run other : ℕ) (db : Db)
    → read_truth_input_head other (advance_provenance_revision run db) ≡ (
        let h = read_truth_input_head other db in
        if run == other then record h { provenance_revision = h.provenance_revision + 1 } else h)
unfolding read_truth_input_head advance_provenance_revision
read_truth_input_head-advance_provenance_revision run other db =
    find_by-advance_head run other db.heads

-- The same of a derived write and `D`.
pub read_truth_input_head-advance_derivation_generation :
    (run other : ℕ) (db : Db)
    → read_truth_input_head other (advance_derivation_generation run db) ≡ (
        let h = read_truth_input_head other db in
        if run == other
        then record h { derivation_generation = h.derivation_generation + 1 }
        else h)
unfolding read_truth_input_head advance_derivation_generation
read_truth_input_head-advance_derivation_generation run other db =
    find_by-derive_head run other db.heads

pub resolve_run_id_of_step-some :
    (id : ℕ) (db : Db) (s : StepRun)
    → find_step id db ≡ some s
    → resolve_run_id_of_step id db ≡ some s.run_id
unfolding resolve_run_id_of_step
resolve_run_id_of_step-some id db s found = rw found
