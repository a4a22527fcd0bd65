-- ===== src/Engine/Invocations.antt =====
-- The append-only invocation records: `recordInvocation` always finds a free sequence.
use rupture_grid.Base.{
  ℕ, suc, ◌+◌, ◌<◌, ◌≡◌, refl, ap, ◌∙◌, inl, inr, false, some, List, [], ◌∷◌, ◌++◌, arith,
  if◌then◌else◌, any, Bool-cases,
}
use rupture_grid.Engine.Store.{
  StepRun, Db, InvocationRecord, StepInvocation, find_step, advance_provenance_revision,
}
use rupture_grid.Engine.Store.Laws.{resolve_run_id_of_step-some}
use rupture_grid.Engine.Claim.{FencingContext}
use rupture_grid.Engine.Transitions.{
  allocate_sequence, max_sequence, max_attempts, occupies, record_invocation, record_allocated,
  record_of_run, invocation_row,
}

-- No row of the step has a sequence above the maximum.
above_max-free :
    (id n : ℕ) (rows : List StepInvocation)
    → max_sequence id rows < n
    → any (occupies id n) rows ≡ false
unfolding max_sequence
above_max-free id n [] h = refl
above_max-free id n (i ∷ is) h = ground (arith, above_max-free id n is)

-- The sequence that a record gets: the planned one if it is free, and else one above the maximum.
abbrev pub allocated : ℕ → ℕ → List StepInvocation → ℕ
allocated id planned rows =
    if any (occupies id planned) rows then max_sequence id rows + 1 else planned

allocate_sequence-some :
    (fuel id planned : ℕ) (rows : List StepInvocation)
    → allocate_sequence (suc (suc fuel)) id planned rows ≡ some (allocated id planned rows)
unfolding allocate_sequence
allocate_sequence-some fuel id planned rows =
    ground (arith, above_max-free id (max_sequence id rows + 1) rows)

allocated-free :
    (id planned : ℕ) (rows : List StepInvocation)
    → any (occupies id (allocated id planned rows)) rows ≡ false
allocated-free id planned rows = elim (Bool-cases (any (occupies id planned) rows)) [
  | inl e ↦ rw e (above_max-free id (max_sequence id rows + 1) rows (omega arith))
  | inr e ↦ rw e e
]

-- For an existing step a record is always written, whichever generation writes it: the bounded
-- allocation succeeds, with the planned sequence if that is free and else with one above the
-- maximum; the sequence was free, and the row is appended under it with its writer, behind all rows
-- before.
pub record_invocation-total :
    (id : ℕ) (observed : InvocationRecord) (ctx : FencingContext) (db : Db) (s : StepRun)
    → find_step id db ≡ some s
    → (let n = allocated id observed.sequence db.invocations in
        ((record_invocation id observed ctx db).0 ≡ some n)
        × (any (occupies id n) db.invocations ≡ false)
        × ((record_invocation id observed ctx db).1.invocations
            ≡ db.invocations ++ invocation_row id n observed ctx ∷ []))
unfolding record_invocation advance_provenance_revision
record_invocation-total id observed ctx db s found =
    let n = allocated id observed.sequence db.invocations in
    let got : allocate_sequence max_attempts id observed.sequence db.invocations ≡ some n =
      allocate_sequence-some 62 id observed.sequence db.invocations in
    let result : record_invocation id observed ctx db
        ≡ record_allocated s.run_id id observed ctx db (some n) =
      ap (record_of_run id observed ctx db) (resolve_run_id_of_step-some id db s found)
      ∙ ap (record_allocated s.run_id id observed ctx db) got in
    (
      ap (λ p. p.0) result,
      allocated-free id observed.sequence db.invocations,
      ap (λ p. p.1.invocations) result,
    )
