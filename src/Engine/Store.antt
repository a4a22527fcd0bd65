-- ===== src/Engine/Store.antt =====
-- The durable tables of the control database (packages/control-db/prisma/schema.prisma) as far as
-- the execution core reads and writes them, and the head of the truth inputs of a run
-- (packages/engine/src/truth-input-head.ts). Ids and owners are opaque and compared for equality
-- only, so they are numbers; times are numbers of milliseconds.
pub mod Laws
use rupture_grid.Base.{
  ℕ, ◌+◌, Bool, true, false, ◌&&◌, Option, none, some, List, [], ◌∷◌, map, Text, ltb, ◌==◌,
  if◌then◌else◌, find_by, update_where, guarded, any, count_of,
}
use mathlib.Core.Option
use rupture_grid.Engine.Classify.{
  IntentOutcome, SideEffectKnowledge, TransportStage, Mutation, read_only, mutating,
}

pub data StepState : Type 0 where
  pending dispatched claimed executing succeeded failed cancelled : StepState

pub data RunState : Type 0 where
  created snapshot_pinned dispatching running reconciling : RunState
  completed failed cancelled : RunState

pub data DispatchState : Type 0 where
  pending dispatched reconcile : DispatchState

pub record StepRun : Type 0 where
  pub id : ℕ
  pub run_id : ℕ
  pub sequence : ℕ
  pub state : StepState
  pub lease_owner : Option ℕ
  pub lease_expires_at : Option ℕ
  pub fencing_token : ℕ
  pub dispatch_state : DispatchState
  pub dispatch_attempts : ℕ
  pub last_dispatch_error : Option Text
  pub dispatched_at : Option ℕ
  pub intent_outcome : Option IntentOutcome
  pub side_effect_knowledge : Option SideEffectKnowledge
  pub attempt_count : ℕ
  pub error : Option Text
  pub created_at : ℕ
  pub claimed_at : Option ℕ
  pub executing_at : Option ℕ
  pub terminal_at : Option ℕ

-- `failed` steps did not succeed; `indeterminate` invocations have an unknown effect.
pub record FailureReason : Type 0 where
  pub failed_steps : ℕ
  pub indeterminate_invocations : ℕ

pub record Run : Type 0 where
  pub id : ℕ
  pub state : RunState
  pub terminal_at : Option ℕ
  pub failure_reason : Option FailureReason
  pub cancel_requested_at : Option ℕ

-- What the executor observed of one physical request.
pub record InvocationRecord : Type 0 where
  pub sequence : ℕ
  pub wave_index : ℕ
  pub invocation_identity : Option Text
  pub transport_stage : Option TransportStage
  pub http_status : Option ℕ
  pub request_bytes : Option ℕ
  pub response_bytes : Option ℕ
  pub response_body : Option Text
  pub duration_ms : Option ℕ
  pub outcome : IntentOutcome
  pub side_effect_knowledge : SideEffectKnowledge
  pub error : Option Text

-- A row of `step_invocation`: the observation, the step, and the writer's generation.
pub record StepInvocation : Type 0 where
  pub step_run_id : ℕ
  pub observed : InvocationRecord
  pub written_by_owner : ℕ
  pub written_by_fencing_token : ℕ

pub record StaleWriterEvent : Type 0 where
  pub step_run_id : ℕ
  pub attempted_by : ℕ
  pub fencing_token : ℕ
  pub detail : Text

-- A row of `run_truth_input_head`.
pub record TruthInputHead : Type 0 where
  pub run_id : ℕ
  pub provenance_revision : ℕ
  pub derivation_generation : ℕ

-- The frozen snapshot of a run, as far as the core reads it: each step's `action.mutation`.
pub record Snapshot : Type 0 where
  pub run_id : ℕ
  pub mutations : List (Option Mutation)

pub record Db : Type 0 where
  pub step_runs : List StepRun
  pub runs : List Run
  pub invocations : List StepInvocation
  pub stale_writer_events : List StaleWriterEvent
  pub heads : List TruthInputHead
  pub snapshots : List Snapshot

abbrev pub is_waiting : StepState → Bool
is_waiting pending = true
is_waiting dispatched = true
is_waiting _ = false

-- `state IN ('CLAIMED', 'EXECUTING')`.
abbrev pub is_active : StepState → Bool
is_active claimed = true
is_active executing = true
is_active _ = false

abbrev pub is_claimed : StepState → Bool
is_claimed claimed = true
is_claimed _ = false

abbrev pub is_succeeded : StepState → Bool
is_succeeded succeeded = true
is_succeeded _ = false

abbrev pub is_pending : StepState → Bool
is_pending pending = true
is_pending _ = false

-- `state IN ('FAILED', 'CANCELLED')`.
abbrev pub is_unsuccessful : StepState → Bool
is_unsuccessful failed = true
is_unsuccessful cancelled = true
is_unsuccessful _ = false

abbrev pub is_open : StepState → Bool
is_open succeeded = false
is_open failed = false
is_open cancelled = false
is_open _ = true

abbrev pub is_running : RunState → Bool
is_running running = true
is_running _ = false

abbrev pub is_dispatching : RunState → Bool
is_dispatching dispatching = true
is_dispatching _ = false

-- `state IN ('CANCELLED', 'FAILED', 'COMPLETED')`.
abbrev pub is_terminal_run : RunState → Bool
is_terminal_run completed = true
is_terminal_run failed = true
is_terminal_run cancelled = true
is_terminal_run _ = false

abbrev pub is_undispatched : DispatchState → Bool
is_undispatched pending = true
is_undispatched reconcile = true
is_undispatched dispatched = false

abbrev pub eq_some : Option ℕ → ℕ → Bool
eq_some none b = false
eq_some (some a) b = a == b

-- `"leaseExpiresAt" < "statement_timestamp"()`; a comparison with NULL does not hold.
abbrev pub is_expired : Option ℕ → ℕ → Bool
is_expired none now = false
is_expired (some at) now = ltb at now

abbrev pub find_step : ℕ → Db → Option StepRun
find_step id db = find_by (λ s. s.id) id db.step_runs

abbrev pub find_run : ℕ → Db → Option Run
find_run id db = find_by (λ r. r.id) id db.runs

unfoldable pub resolve_run_id_of_step : ℕ → Db → Option ℕ
resolve_run_id_of_step id db = Option.map (λ s. s.run_id) (find_step id db)

-- A statement `UPDATE … WHERE id = … AND test`: the row that it matches, if any, and the new table.
abbrev pub matched_step : ℕ → (StepRun → Bool) → Db → Option StepRun
matched_step id test db = guarded test (find_step id db)

abbrev pub update_step : ℕ → (StepRun → Bool) → (StepRun → StepRun) → Db → Db
update_step id test f db = record db {
  step_runs = update_where (λ s. s.id == id && test s) f db.step_runs;
}

abbrev pub matched_run : ℕ → (Run → Bool) → Db → Option Run
matched_run id test db = guarded test (find_run id db)

abbrev pub update_run : ℕ → (Run → Bool) → (Run → Run) → Db → Db
update_run id test f db = record db { runs = update_where (λ r. r.id == id && test r) f db.runs }

advance_head : ℕ → List TruthInputHead → List TruthInputHead
advance_head run [] =
    record { run_id = run; provenance_revision = 1; derivation_generation = 0 } ∷ []
advance_head run (h ∷ hs) =
    if h.run_id == run
    then record h { provenance_revision = h.provenance_revision + 1 } ∷ hs
    else h ∷ advance_head run hs

-- The upsert that adds 1 to the provenance revision `P` of a run.
unfoldable pub advance_provenance_revision : ℕ → Db → Db
unfolding advance_head
advance_provenance_revision run db = record db { heads = advance_head run db.heads }

derive_head : ℕ → List TruthInputHead → List TruthInputHead
derive_head run [] =
    record { run_id = run; provenance_revision = 0; derivation_generation = 1 } ∷ []
derive_head run (h ∷ hs) =
    if h.run_id == run
    then record h { derivation_generation = h.derivation_generation + 1 } ∷ hs
    else h ∷ derive_head run hs

-- The upsert that adds 1 to the derivation generation `D` of a run.
unfoldable pub advance_derivation_generation : ℕ → Db → Db
unfolding derive_head
advance_derivation_generation run db = record db { heads = derive_head run db.heads }

-- A run without a head row has the pair (0, 0).
abbrev head_or_zero : ℕ → Option TruthInputHead → TruthInputHead
head_or_zero run none = record { run_id = run; provenance_revision = 0; derivation_generation = 0 }
head_or_zero run (some h) = h

unfoldable pub read_truth_input_head : ℕ → Db → TruthInputHead
read_truth_input_head run db = head_or_zero run (find_by (λ h. h.run_id) run db.heads)
