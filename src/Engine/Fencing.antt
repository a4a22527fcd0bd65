-- ===== src/Engine/Fencing.antt =====
-- Leases and fencing tokens: what a claim establishes, and what a superseded generation can do.
pub mod Superseded
use mathlib.Core.Option
use rupture_grid.Base.{
  ℕ, suc, ◌+◌, ◌≤◌, ◌<◌, ◌≡◌, refl, sym, ◌∙◌, ap, ◌≢◌, ◌⊎◌, inl, inr, Bool, true, false, ◌&&◌,
  Option, none, some, List, [], ◌∷◌, map, arith, ◌==◌, ==_refl, find_by-update_key, guarded-cases,
}
use rupture_grid.Engine.Store.{
  StepRun, Db, is_active, is_claimed, find_step, matched_step, update_step,
  advance_provenance_revision, resolve_run_id_of_step, StaleWriterEvent,
}
use rupture_grid.Engine.Claim.{
  ClaimOptions, ClaimResult, FencingContext, claim_step, claimed_row, claim_result, is_claimable,
  is_owned_by, heartbeat_step, claim_of_run, claim_matched, promote_run, WriteResult, written,
  lease_lost,
}
use rupture_grid.Engine.Transitions.{
  TerminalWrite, mark_executing, write_terminal_state, fenced_of_run, record_stale_writer_in_tx,
}
use rupture_grid.Engine.Schedule.{Op, run_schedule}
use rupture_grid.Engine.Evolution.{run_schedule-Evolves}

-- A claim that succeeds found a claimable row, and left it to the claimer.
pub record IsClaim (now : ℕ) (options : ClaimOptions) (id : ℕ) (db : Db) (r : ClaimResult)
    : Type 0 where
  pub row : StepRun
  pub found : find_step id db ≡ some row
  pub claimable : is_claimable db now row ≡ true
  pub result : r ≡ claim_result now options row
  pub after : find_step id (claim_step now options id db).1 ≡ some (claimed_row now options row)

claim_of_run-IsClaim :
    (now : ℕ) (options : ClaimOptions) (id : ℕ) (db : Db) (run : Option ℕ) (r : ClaimResult)
    → (claim_of_run now options id db run).0 ≡ some r
    → (s : StepRun) × (find_step id db ≡ some s)
      × (is_claimable db now s ≡ true)
      × (r ≡ claim_result now options s)
      × (find_step id (claim_of_run now options id db run).1 ≡ some (claimed_row now options s))
unfolding advance_provenance_revision
claim_of_run-IsClaim now options id db none r h = cc
claim_of_run-IsClaim now options id db (some run) r h =
    elim (guarded-cases (is_claimable db now) (find_step id db)) [
      | inl none_matched ↦ let refused : none ≡ some r = rw none_matched at h in absurd (cc)
      | inr (s, found, passed, matched) ↦ (
        s,
        found,
        passed,
        let won : some (claim_result now options s) ≡ some r = rw matched at h in cc,
        rw matched (
            find_by-update_key (λ x. x.id) id (is_claimable db now) (claimed_row now options)
              db.step_runs s (λ x. refl) found passed),
      )
    ]

pub claim_step-IsClaim :
    (now : ℕ) (options : ClaimOptions) (id : ℕ) (db : Db) (r : ClaimResult)
    → (claim_step now options id db).0 ≡ some r
    → IsClaim now options id db r
unfolding claim_step
claim_step-IsClaim now options id db r h =
    let (s, found, passed, result, after) =
      claim_of_run-IsClaim now options id db (resolve_run_id_of_step id db) r h in
    record { row = s; found = found; claimable = passed; result = result; after = after }

-- Two successful claims of one step, whatever happens between them, have strictly growing tokens.
pub claim_step-token_lt :
    (now later : ℕ) (options others : ClaimOptions) (id : ℕ) (db : Db) (ops : List Op)
    (r q : ClaimResult)
    → (claim_step now options id db).0 ≡ some r
    → (claim_step later others id (run_schedule ops (claim_step now options id db).1)).0 ≡ some q
    → r.fencing_token < q.fencing_token
claim_step-token_lt now later options others id db ops r q first second =
    let c = claim_step-IsClaim now options id db r first in
    let db' = (claim_step now options id db).1 in
    let d = claim_step-IsClaim later others id (run_schedule ops db') q second in
    let (t, found, kept) =
      run_schedule-Evolves ops db' id (claimed_row now options c.row) c.after in
    let same : some t ≡ some d.row = sym found ∙ d.found in
    let token : t.fencing_token ≡ d.row.fencing_token = cc in
    rw (c.result, d.result) (omega (arith, kept.token_grows))
