-- ===== src/Engine/Claim.antt =====
-- packages/engine/src/claim.ts: the atomic claim and the heartbeat. The claim is one conditional
-- UPDATE under the lock of the run, at the time `now` of the database.
use rupture_grid.Base.{
  ℕ, ◌+◌, Bool, true, false, not, ◌&&◌, ◌||◌, Option, none, some, ltb, ◌==◌, any,
}
use rupture_grid.Engine.Store.{
  StepState, RunState, DispatchState, StepRun, Db, is_waiting, is_active, is_succeeded,
  is_dispatching, is_terminal_run, eq_some, is_expired, resolve_run_id_of_step, matched_step,
  update_step, update_run, advance_provenance_revision,
}

pub record ClaimOptions : Type 0 where
  pub owner_id : ℕ
  pub lease_duration_ms : ℕ

pub record ClaimResult : Type 0 where
  pub step_run_id : ℕ
  pub run_id : ℕ
  pub sequence : ℕ
  pub fencing_token : ℕ
  pub lease_expires_at : ℕ
  pub state : StepState

-- A writer's generation: what its state writes are conditioned on.
pub record FencingContext : Type 0 where
  pub owner_id : ℕ
  pub fencing_token : ℕ

abbrev pub has_no_owner : Option ℕ → Bool
has_no_owner none = true
has_no_owner (some owner) = false

-- `EXISTS (… r.state NOT IN ('CANCELLED', 'FAILED', 'COMPLETED'))`.
abbrev pub run_is_live : Db → StepRun → Bool
run_is_live db s = any (λ r. r.id == s.run_id && not (is_terminal_run r.state)) db.runs

-- `EXISTS (… prior.sequence < s.sequence AND prior.state <> 'SUCCEEDED')`.
abbrev pub has_unfinished_prior : Db → StepRun → Bool
has_unfinished_prior db s =
    any
      (λ prior.
        prior.run_id == s.run_id
        && (ltb prior.sequence s.sequence && not (is_succeeded prior.state)))
      db.step_runs

-- The WHERE clause of the claim.
abbrev pub is_claimable : Db → ℕ → StepRun → Bool
is_claimable db now s =
    (is_waiting s.state || (is_active s.state && is_expired s.lease_expires_at now))
    && ((has_no_owner s.lease_owner || is_expired s.lease_expires_at now)
        && (run_is_live db s && not (has_unfinished_prior db s)))

abbrev pub claimed_row : ℕ → ClaimOptions → StepRun → StepRun
claimed_row now options s = record s {
  state = StepState.claimed;
  lease_owner = some options.owner_id;
  lease_expires_at = some (now + options.lease_duration_ms);
  fencing_token = s.fencing_token + 1;
  claimed_at = some now;
  dispatch_state = DispatchState.dispatched;
  dispatch_attempts = s.dispatch_attempts + 1;
}

abbrev pub claim_result : ℕ → ClaimOptions → StepRun → ClaimResult
claim_result now options s = record {
  step_run_id = s.id;
  run_id = s.run_id;
  sequence = s.sequence;
  fencing_token = s.fencing_token + 1;
  lease_expires_at = now + options.lease_duration_ms;
  state = StepState.claimed;
}

-- `run_promoted`: DISPATCHING → RUNNING for the run of the claimed step.
abbrev pub promote_run : ℕ → Db → Db
promote_run run =
    update_run run (λ r. is_dispatching r.state) (λ r. record r { state = RunState.running })

-- What the transaction does with the row that the UPDATE matches, if any.
abbrev pub claim_matched : ℕ → ClaimOptions → ℕ → ℕ → Db → Option StepRun → Option ClaimResult × Db
claim_matched now options id run db none = (none, db)
claim_matched now options id run db (some s) = (
  some (claim_result now options s),
  advance_provenance_revision run
      (promote_run run (update_step id (is_claimable db now) (claimed_row now options) db)),
)

abbrev pub claim_of_run : ℕ → ClaimOptions → ℕ → Db → Option ℕ → Option ClaimResult × Db
claim_of_run now options id db none = (none, db)
claim_of_run now options id db (some run) =
    claim_matched now options id run db (matched_step id (is_claimable db now) db)

unfoldable pub claim_step : ℕ → ClaimOptions → ℕ → Db → Option ClaimResult × Db
unfolding resolve_run_id_of_step
claim_step now options id db = claim_of_run now options id db (resolve_run_id_of_step id db)

-- `leaseOwnerId = owner AND fencingToken = token`.
abbrev pub is_owned_by : FencingContext → StepRun → Bool
is_owned_by ctx s = eq_some s.lease_owner ctx.owner_id && s.fencing_token == ctx.fencing_token

-- The result of a fenced write: done, refused with `LeaseLostError`, or refused by the foreign key
-- because the step does not exist.
pub data WriteResult : Type 0 where
  written lease_lost missing_step : WriteResult

abbrev pub renewed_row : ℕ → ℕ → StepRun → StepRun
renewed_row now duration s = record s { lease_expires_at = some (now + duration) }

abbrev pub renew_matched : ℕ → ℕ → ℕ → FencingContext → ℕ → Db → Option StepRun → Option ℕ × Db
renew_matched now duration id ctx run db none = (none, db)
renew_matched now duration id ctx run db (some s) = (
  some (now + duration),
  advance_provenance_revision run
      (update_step id (λ x. is_owned_by ctx x && is_active x.state) (renewed_row now duration) db),
)

abbrev pub renew_of_run : ℕ → ℕ → ℕ → FencingContext → Db → Option ℕ → Option ℕ × Db
renew_of_run now duration id ctx db none = (none, db)
renew_of_run now duration id ctx db (some run) =
    renew_matched now duration id ctx run db
      (matched_step id (λ x. is_owned_by ctx x && is_active x.state) db)

-- The new deadline, or `none` for a `LeaseLostError`.
unfoldable pub heartbeat_step : ℕ → ℕ → ℕ → FencingContext → Db → Option ℕ × Db
unfolding resolve_run_id_of_step
heartbeat_step now duration id ctx db =
    renew_of_run now duration id ctx db (resolve_run_id_of_step id db)
