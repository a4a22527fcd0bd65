-- ===== src/Engine/Watermark/Runs.antt =====
-- The writer protocol of the transactions that change the rows of a whole run.

use rupture_grid.Base.{
  ◌∙◌, ℕ, ◌≡◌, refl, inl, inr, Bool, false, ◌&&◌, ◌||◌, none, some, List, Text, arith, ◌==◌, any,
  count_of, count_of-zero, update_where-unmatched, Bool-cases, ltb, ||-eq-false, update_where, ap,
}
use rupture_grid.Engine.Store.{StepState, Run, Db, is_open, is_waiting, is_running, find_run}
use rupture_grid.Engine.Recovery.{
  SettleCandidate, settle_run, close_blocked, closes_some, settle_closed, settle_cancelled_run,
  is_cancellable, has_step, cancel_steps, cancelled_row, dependency_error, run_cancelled_error,
}
use rupture_grid.Engine.Reconciler.{request_cancel, request_matched}
use rupture_grid.Engine.Dispatch.{
  mark_run_dispatching, mark_undelivered, is_undispatched_run, dispatching_run, is_among,
  undelivered_row,
}
use rupture_grid.Engine.Watermark.{FollowsProtocol, advances}

cancel_steps-unmatched :
    (p : StepState → Bool) (clock run : ℕ) (message : Text) (db : Db)
    → has_step p run db ≡ false
    → cancel_steps p clock run message db ≡ db
cancel_steps-unmatched p clock run message db h =
    ap (λ rows. record db { step_runs = rows })
      (update_where-unmatched (λ s. s.run_id == run && p s.state) (cancelled_row clock message)
        db.step_runs h)

close_blocked-unmatched :
    (clock : ℕ) (c : SettleCandidate) (db : Db)
    → closes_some c db ≡ false
    → close_blocked clock c db ≡ db
close_blocked-unmatched clock c db h = elim (Bool-cases (c.has_failure && c.has_open)) [
  | inl e ↦ rw e (cancel_steps-unmatched is_waiting clock c.id dependency_error db (rw e at h))
  | inr e ↦ rw e refl
]

runs-unmatched :
    (p : Run → Bool) (f : Run → Run) (db : Db)
    → any p db.runs ≡ false
    → record db { runs = update_where p f db.runs } ≡ db
runs-unmatched p f db h =
    ap (λ rows. record db { runs = rows }) (update_where-unmatched p f db.runs h)

close_blocked-heads :
    (clock : ℕ) (c : SettleCandidate) (db : Db) → (close_blocked clock c db).heads ≡ db.heads
close_blocked-heads clock c db = ground arith

not_positive : (n : ℕ) → ltb 0 n ≡ false → n ≡ 0
not_positive n h = ground arith

settle_closed-FollowsProtocol :
    (clock : ℕ) (c : SettleCandidate) (closed : Bool) (db body : Db)
    → body.heads ≡ db.heads
    → (closed ≡ false → body ≡ db)
    → FollowsProtocol (some c.id) db (settle_closed clock c closed body).1
settle_closed-FollowsProtocol clock c closed db body heads same =
    let updated = count_of (λ r. r.id == c.id && is_running r.state) body.runs in
    elim (Bool-cases (closed || ltb 0 updated)) [
      | inl e ↦ rw e (advances c.id db _ heads)
      | inr e ↦
          let (open_, none_updated) = ||-eq-false closed (ltb 0 updated) e in
          let unmatched =
            count_of-zero (λ r. r.id == c.id && is_running r.state) body.runs
              (not_positive updated none_updated) in
          inl (rw e (runs-unmatched _ _ body unmatched ∙ same open_))
    ]

pub settle_run-FollowsProtocol :
    (clock : ℕ) (c : SettleCandidate) (db : Db)
    → FollowsProtocol (some c.id) db (settle_run clock c db).1
unfolding settle_run
settle_run-FollowsProtocol clock c db =
    settle_closed-FollowsProtocol clock c (closes_some c db) db (close_blocked clock c db)
      (close_blocked-heads clock c db) (close_blocked-unmatched clock c db)

pub settle_cancelled_run-FollowsProtocol :
    (clock run : ℕ) (db : Db) → FollowsProtocol (some run) db (settle_cancelled_run clock run db)
unfolding settle_cancelled_run
settle_cancelled_run-FollowsProtocol clock run db =
    let some_step = has_step is_open run db in
    let some_run = any (λ r. r.id == run && is_cancellable r.state) db.runs in
    elim (Bool-cases (some_step || some_run)) [
      | inl e ↦ rw e (advances run db _ refl)
      | inr e ↦
          let (no_step, no_run) = ||-eq-false some_step some_run e in
          inl (
            rw e (
              runs-unmatched _ _ (cancel_steps is_open clock run run_cancelled_error db) no_run
              ∙ cancel_steps-unmatched is_open clock run run_cancelled_error db no_step))
    ]

pub request_cancel-FollowsProtocol :
    (clock run : ℕ) (db : Db) → FollowsProtocol (some run) db (request_cancel clock run db)
unfolding request_cancel
request_cancel-FollowsProtocol clock run db =
    elim (find_run run db)
      as (λ m. FollowsProtocol (some run) db (request_matched clock run db m)) [
        | none ↦ inl refl
        | some r ↦ advances run db _ refl
      ]

pub mark_run_dispatching-FollowsProtocol :
    (run : ℕ) (db : Db) → FollowsProtocol (some run) db (mark_run_dispatching run db)
unfolding mark_run_dispatching
mark_run_dispatching-FollowsProtocol run db =
    elim (Bool-cases (any (is_undispatched_run run) db.runs)) [
      | inl e ↦ rw e (advances run db _ refl)
      | inr e ↦ inl (rw e (runs-unmatched (is_undispatched_run run) dispatching_run db e))
    ]

pub mark_undelivered-FollowsProtocol :
    (run : ℕ) (ids : List ℕ) (db : Db) → FollowsProtocol (some run) db (mark_undelivered run ids db)
unfolding mark_undelivered
mark_undelivered-FollowsProtocol run ids db = elim (Bool-cases (any (is_among ids) db.step_runs)) [
  | inl e ↦ rw e (advances run db _ refl)
  | inr e ↦ inl (
      rw e (
        ap (λ rows. record db { step_runs = rows })
          (update_where-unmatched (is_among ids) undelivered_row db.step_runs e)))
]
