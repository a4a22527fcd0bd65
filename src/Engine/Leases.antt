-- ===== src/Engine/Leases.antt =====
-- The lease of a claim keeps every other owner out until its deadline.
use rupture_grid.Base.{
  ℕ, ◌+◌, ◌≤◌, ◌≡◌, refl, false, Option, none, some, List, [], ◌∷◌, arith, Rows-find_by,
  guarded-fails, ap,
}
use rupture_grid.Engine.Store.{StepRun, Db, is_waiting, find_step}
use rupture_grid.Engine.Store.Laws.{resolve_run_id_of_step-some}
use rupture_grid.Engine.Claim.{
  ClaimOptions, ClaimResult, claim_step, claim_matched, claimed_row, is_claimable,
}
use rupture_grid.Engine.Schedule.{Op, claim, heartbeat, resolve, apply, run_schedule}
use rupture_grid.Engine.RowChange.{RowChange, Rows-apply}
use rupture_grid.Engine.Fencing.{claim_step-IsClaim}

-- Every claim and every recovery is made at a database time up to the deadline, and no renewal moves
-- a lease to before it.
abbrev pub InTime : ℕ → Op → Type 0
InTime deadline (claim now options step) = now ≤ deadline
InTime deadline (heartbeat now duration step ctx) = deadline ≤ now + duration
InTime deadline (resolve now clock step kind maybe_sent) = now ≤ deadline
InTime deadline _ = Unit

abbrev pub AllInTime : ℕ → List Op → Type 0
AllInTime deadline [] = Unit
AllInTime deadline (op ∷ ops) = InTime deadline op × AllInTime deadline ops

abbrev LastsUntil : ℕ → Option ℕ → Type 0
LastsUntil deadline none = ⊥
LastsUntil deadline (some expiry) = deadline ≤ expiry

-- The step is with one generation: its owner, its token, a lease up to the deadline, and a state
-- that is not offered to others.
pub record IsHeld (owner token deadline : ℕ) (s : StepRun) : Type 0 where
  pub owned : s.lease_owner ≡ some owner
  pub fenced : s.fencing_token ≡ token
  pub lasts : LastsUntil deadline s.lease_expires_at
  pub taken : is_waiting s.state ≡ false

module _ (owner token deadline : ℕ) where
  RowChange-IsHeld :
      (op : Op) (db : Db) (s t : StepRun)
      → InTime deadline op
      → RowChange op db s t
      → IsHeld owner token deadline s
      → IsHeld owner token deadline t
  RowChange-IsHeld (claim now options step) db s t i h k = ground arith
  RowChange-IsHeld _ db s t i h k = ground arith

  -- The relation between the rows: the key stays, and a held row stays held.
  abbrev StaysHeld : StepRun → StepRun → Type 0
  StaysHeld s t = (t.id ≡ s.id) × (IsHeld owner token deadline s → IsHeld owner token deadline t)

  RowChange-id : (op : Op) (db : Db) (s t : StepRun) → RowChange op db s t → t.id ≡ s.id
  RowChange-id (claim now options step) db s t h = ground arith
  RowChange-id _ db s t h = ground arith

  run_schedule-IsHeld :
      (ops : List Op) (db : Db) (id : ℕ) (s : StepRun)
      → AllInTime deadline ops
      → find_step id db ≡ some s
      → IsHeld owner token deadline s
      → (t : StepRun) × (find_step id (run_schedule ops db) ≡ some t)
        × IsHeld owner token deadline t
  unfolding run_schedule
  run_schedule-IsHeld [] db id s i found h = (s, found, h)
  run_schedule-IsHeld (op ∷ ops) db id s (i, is) found h =
      let (t, found', stays) =
        Rows-find_by StaysHeld (λ x. x.id) id db.step_runs (apply op db).step_runs s (λ a b k. k.0)
          (Rows-apply StaysHeld (λ x. (refl, λ k. k)) op db
            (λ x y c. (RowChange-id op db x y c, RowChange-IsHeld op db x y i c)))
          found in
      run_schedule-IsHeld ops (apply op db) id t is found' (stays.1 h)

IsHeld-not_claimable :
    (owner token deadline now : ℕ) (db : Db) (s : StepRun)
    → now ≤ deadline
    → IsHeld owner token deadline s
    → is_claimable db now s ≡ false
IsHeld-not_claimable owner token deadline now db s i h = ground arith

claim_step-unclaimable :
    (now : ℕ) (options : ClaimOptions) (id : ℕ) (db : Db) (s : StepRun)
    → find_step id db ≡ some s
    → is_claimable db now s ≡ false
    → claim_step now options id db ≡ (none, db)
unfolding claim_step
claim_step-unclaimable now options id db s found blocked =
    rw (resolve_run_id_of_step-some id db s found) (
      ap (claim_matched now options id s.run_id db)
        (guarded-fails (is_claimable db now) (find_step id db) s found blocked))

-- After a successful claim, whatever the schedule does up to the deadline of the lease, the step
-- stays with the claimer's owner and token, and a further claim of it up to the deadline gets
-- nothing and writes nothing. The schedule's claims and recoveries are up to the deadline, and no
-- renewal in it shortens a lease to before the deadline.
pub claim_step-exclusive :
    (now later : ℕ) (options others : ClaimOptions) (id : ℕ) (db : Db) (ops : List Op)
    (r : ClaimResult)
    → (claim_step now options id db).0 ≡ some r
    → AllInTime r.lease_expires_at ops
    → later ≤ r.lease_expires_at
    → (let db' = run_schedule ops (claim_step now options id db).1 in
        (claim_step later others id db' ≡ (none, db'))
        × (s : StepRun) × (find_step id db' ≡ some s)
        × IsHeld options.owner_id r.fencing_token r.lease_expires_at s)
claim_step-exclusive now later options others id db ops r first times before =
    let c = claim_step-IsClaim now options id db r first in
    let held : IsHeld options.owner_id r.fencing_token r.lease_expires_at
        (claimed_row now options c.row) =
      ground (arith, c.result) in
    let db₁ = (claim_step now options id db).1 in
    let (t, found, kept) =
      run_schedule-IsHeld options.owner_id r.fencing_token r.lease_expires_at ops db₁ id
        (claimed_row now options c.row) times c.after held in
    (
      claim_step-unclaimable later others id (run_schedule ops db₁) t found (
          IsHeld-not_claimable options.owner_id r.fencing_token r.lease_expires_at later
            (run_schedule ops db₁) t before kept),
      t,
      found,
      kept,
    )
