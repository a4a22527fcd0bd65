-- ===== src/Engine/Fencing/Superseded.antt =====
-- The writes of a generation that no longer owns its step.

use rupture_grid.Base.{
  ℕ, ◌≡◌, ap, ◌≢◌, Bool, false, ◌&&◌, Option, none, some, List, Text, arith, guarded-fails,
}
use rupture_grid.Engine.Store.{
  StepRun, Db, is_active, is_claimed, find_step, matched_step, advance_provenance_revision,
  resolve_run_id_of_step,
}
use rupture_grid.Engine.Claim.{
  ClaimOptions, ClaimResult, FencingContext, claim_step, claimed_row, is_owned_by, heartbeat_step,
  WriteResult, lease_lost, renew_matched,
}
use rupture_grid.Engine.Transitions.{
  TerminalWrite, mark_executing, mark_executing_detail, terminal_detail, write_terminal_state,
  record_stale_writer_in_tx, fenced_of_run, fenced_matched, terminal_row,
}
use rupture_grid.Engine.Schedule.{Op, run_schedule}
use rupture_grid.Engine.Evolution.{run_schedule-Evolves}
use rupture_grid.Engine.Fencing.{claim_step-IsClaim}

-- The refusal of a fenced write: the attempt is recorded, the revision of the run advances, and
-- nothing else changes.
abbrev pub refused : ℕ → ℕ → FencingContext → Text → Db → WriteResult × Db
refused run id ctx detail db =
    (lease_lost, advance_provenance_revision run (record_stale_writer_in_tx id ctx detail db))

not_owned-&& :
    (ctx : FencingContext) (s : StepRun) (b : Bool)
    → is_owned_by ctx s ≡ false
    → (is_owned_by ctx s && b) ≡ false
not_owned-&& ctx s b h = ground arith

fenced_of_run-unmatched :
    (id : ℕ) (ctx : FencingContext) (detail : Text) (test : StepRun → Bool) (f : StepRun → StepRun)
    (db : Db) (o : Option ℕ) (run : ℕ)
    → o ≡ some run
    → matched_step id test db ≡ none
    → fenced_of_run id ctx detail test f db o ≡ refused run id ctx detail db
fenced_of_run-unmatched id ctx detail test f db o run found unmatched =
    rw found (ap (fenced_matched id ctx detail test f run db) unmatched)

module _ (id : ℕ) (ctx : FencingContext) (db : Db) (s : StepRun) (found : find_step id db ≡ some s)
    (foreign : is_owned_by ctx s ≡ false) where
  resolve_some : resolve_run_id_of_step id db ≡ some s.run_id
  unfolding resolve_run_id_of_step
  resolve_some = rw found

  unmatched : (p : StepRun → Bool) → matched_step id (λ x. is_owned_by ctx x && p x) db ≡ none
  unmatched p =
      guarded-fails (λ x. is_owned_by ctx x && p x) (find_step id db) s found
        (not_owned-&& ctx s (p s) foreign)

  write_terminal_state-refused :
      (clock : ℕ) (write : TerminalWrite)
      → write_terminal_state clock id write ctx db
        ≡ refused s.run_id id ctx (terminal_detail write.state) db
  unfolding write_terminal_state
  write_terminal_state-refused clock write =
      fenced_of_run-unmatched id ctx (terminal_detail write.state) _ (terminal_row clock write) db _
        s.run_id resolve_some (unmatched (λ x. is_active x.state))

  mark_executing-refused :
      (clock : ℕ)
      → mark_executing clock id ctx db ≡ refused s.run_id id ctx mark_executing_detail db
  unfolding mark_executing
  mark_executing-refused clock =
      fenced_of_run-unmatched id ctx mark_executing_detail _ _ db _ s.run_id resolve_some
        (unmatched (λ x. is_claimed x.state))

  heartbeat_step-refused : (now duration : ℕ) → heartbeat_step now duration id ctx db ≡ (none, db)
  unfolding heartbeat_step
  heartbeat_step-refused now duration =
      rw resolve_some
        (ap (renew_matched now duration id ctx s.run_id db) (unmatched (λ x. is_active x.state)))

token_ne-not_owned :
    (ctx : FencingContext) (s : StepRun)
    → s.fencing_token ≢ ctx.fencing_token
    → is_owned_by ctx s ≡ false
token_ne-not_owned ctx s h = ground arith

abbrev pub generation : ClaimOptions → ClaimResult → FencingContext
generation options r = record { owner_id = options.owner_id; fencing_token = r.fencing_token }

-- What a superseded generation is answered, in the tables `db` and for the run of the step.
pub record IsRefused (id run : ℕ) (ctx : FencingContext) (db : Db) : Type 0 where
  pub terminal :
      (clock : ℕ) (write : TerminalWrite)
      → write_terminal_state clock id write ctx db
        ≡ refused run id ctx (terminal_detail write.state) db
  pub executing :
      (clock : ℕ) → mark_executing clock id ctx db ≡ refused run id ctx mark_executing_detail db
  pub renewal : (now duration : ℕ) → heartbeat_step now duration id ctx db ≡ (none, db)

-- Once another claim of the step has succeeded after a generation's own, then for every later
-- schedule that generation's terminal write and its EXECUTING write are refused with a lost lease,
-- where only the stale attempt and the advance of the run's revision are recorded, and its heartbeat
-- is refused with nothing written.
pub superseded-IsRefused :
    (now later : ℕ) (options others : ClaimOptions) (id : ℕ) (db : Db) (ops rest : List Op)
    (r q : ClaimResult)
    → (claim_step now options id db).0 ≡ some r
    → (let db' = run_schedule ops (claim_step now options id db).1 in
        (claim_step later others id db').0 ≡ some q
        → IsRefused id r.run_id
            (generation options r)
            (run_schedule rest (claim_step later others id db').1))
superseded-IsRefused now later options others id db ops rest r q first second =
    let c = claim_step-IsClaim now options id db r first in
    let db₁ = (claim_step now options id db).1 in
    let db₂ = run_schedule ops db₁ in
    let d = claim_step-IsClaim later others id db₂ q second in
    let db₃ = (claim_step later others id db₂).1 in
    let (t, t_found, t_kept) =
      run_schedule-Evolves ops db₁ id (claimed_row now options c.row) c.after in
    let (u, u_found, u_kept) =
      run_schedule-Evolves rest db₃ id (claimed_row later others d.row) d.after in
    let run : u.run_id ≡ r.run_id = grind arith in
    let newer : u.fencing_token ≢ r.fencing_token = grind arith in
    let foreign = token_ne-not_owned (generation options r) u newer in
    let later_db = run_schedule rest db₃ in
    rw (← run) (record {
      terminal = write_terminal_state-refused id (generation options r) later_db u u_found foreign;
      executing = mark_executing-refused id (generation options r) later_db u u_found foreign;
      renewal = heartbeat_step-refused id (generation options r) later_db u u_found foreign;
    })
