-- ===== src/Engine/Transitions.antt =====
-- packages/engine/src/transitions.ts: the fenced state writes and the append-only records. Each is
-- one transaction under the lock of the run; `clock` is the worker's own clock.
use rupture_grid.Base.{
  ℕ, zero, suc, ◌+◌, max, Bool, ◌&&◌, Option, none, some, List, [], ◌∷◌, ◌++◌, Text, codes, take,
  ◌==◌, if◌then◌else◌, any,
}
use mathlib.Core.Option
use rupture_grid.Engine.Classify.{IntentOutcome, SideEffectKnowledge}
use rupture_grid.Engine.Store.{
  StepState, StepRun, Db, InvocationRecord, StepInvocation, is_active, is_claimed,
  resolve_run_id_of_step, matched_step, update_step, advance_provenance_revision,
}
use rupture_grid.Engine.Claim.{
  FencingContext, is_owned_by, WriteResult, written, lease_lost, missing_step,
}

-- `recordStaleWriterInTx`: the attempt is appended, its text cut to 500.
unfoldable pub record_stale_writer_in_tx : ℕ → FencingContext → Text → Db → Db
record_stale_writer_in_tx id ctx detail db = record db {
  stale_writer_events =
      db.stale_writer_events
      ++ record {
        step_run_id = id;
        attempted_by = ctx.owner_id;
        fencing_token = ctx.fencing_token;
        detail = take 500 detail;
      }
        ∷ [];
}

-- The shape of both fenced writes: on a match the rows are changed, and otherwise the attempt is
-- recorded; the provenance revision advances once either way.
abbrev pub fenced_matched :
    ℕ
    → FencingContext
    → Text
    → (StepRun → Bool)
    → (StepRun → StepRun)
    → ℕ
    → Db
    → Option StepRun
    → WriteResult × Db
fenced_matched id ctx detail test f run db none =
    (lease_lost, advance_provenance_revision run (record_stale_writer_in_tx id ctx detail db))
fenced_matched id ctx detail test f run db (some s) =
    (written, advance_provenance_revision run (update_step id test f db))

-- With no such step the update matches nothing and the record of the attempt violates its foreign
-- key: the transaction fails and writes nothing.
abbrev pub fenced_of_run :
    ℕ
    → FencingContext
    → Text
    → (StepRun → Bool)
    → (StepRun → StepRun)
    → Db
    → Option ℕ
    → WriteResult × Db
fenced_of_run id ctx detail test f db none = (missing_step, db)
fenced_of_run id ctx detail test f db (some run) =
    fenced_matched id ctx detail test f run db (matched_step id test db)

abbrev pub mark_executing_detail : Text
mark_executing_detail = codes "mark-executing (not owner/token, or step not CLAIMED)"

unfoldable pub mark_executing : ℕ → ℕ → FencingContext → Db → WriteResult × Db
unfolding resolve_run_id_of_step
mark_executing clock id ctx db =
    fenced_of_run id ctx mark_executing_detail (λ s. is_owned_by ctx s && is_claimed s.state)
      (λ s. record s { state = StepState.executing; executing_at = some clock }) db
      (resolve_run_id_of_step id db)

-- The three states that a terminal write may give.
pub data TerminalState : Type 0 where
  succeeded failed cancelled : TerminalState

abbrev pub step_state : TerminalState → StepState
step_state succeeded = StepState.succeeded
step_state failed = StepState.failed
step_state cancelled = StepState.cancelled

pub record TerminalWrite : Type 0 where
  pub state : TerminalState
  pub intent_outcome : IntentOutcome
  pub side_effect_knowledge : SideEffectKnowledge
  pub attempt_count : ℕ
  pub error : Option Text

unfoldable pub terminal_detail : TerminalState → Text
terminal_detail succeeded = codes "terminal SUCCEEDED"
terminal_detail failed = codes "terminal FAILED"
terminal_detail cancelled = codes "terminal CANCELLED"

abbrev pub terminal_row : ℕ → TerminalWrite → StepRun → StepRun
terminal_row clock write s = record s {
  state = step_state write.state;
  intent_outcome = some write.intent_outcome;
  side_effect_knowledge = some write.side_effect_knowledge;
  attempt_count = write.attempt_count;
  error = Option.map (take 500) write.error;
  terminal_at = some clock;
}

unfoldable pub write_terminal_state : ℕ → ℕ → TerminalWrite → FencingContext → Db → WriteResult × Db
unfolding resolve_run_id_of_step
write_terminal_state clock id write ctx db =
    fenced_of_run id ctx (terminal_detail write.state) (λ s. is_owned_by ctx s && is_active s.state)
      (terminal_row clock write) db (resolve_run_id_of_step id db)

abbrev pub stale_of_run : ℕ → FencingContext → Text → Db → Option ℕ → WriteResult × Db
stale_of_run id ctx detail db none = (missing_step, db)
stale_of_run id ctx detail db (some run) =
    (written, advance_provenance_revision run (record_stale_writer_in_tx id ctx detail db))

unfoldable pub record_stale_writer : ℕ → FencingContext → Text → Db → WriteResult × Db
unfolding resolve_run_id_of_step
record_stale_writer id ctx detail db = stale_of_run id ctx detail db (resolve_run_id_of_step id db)

-- The unique key (stepRunId, sequence) of an invocation row.
abbrev pub occupies : ℕ → ℕ → StepInvocation → Bool
occupies id sequence i = i.step_run_id == id && i.observed.sequence == sequence

-- `aggregate({ _max: { sequence } })`, with 0 for no row.
unfoldable pub max_sequence : ℕ → List StepInvocation → ℕ
max_sequence id [] = 0
max_sequence id (i ∷ is) =
    let rest = max_sequence id is in
    if i.step_run_id == id then max i.observed.sequence rest else rest

-- The bounded allocation loop: the first free sequence that it tries, or `none` after `fuel` tries.
unfoldable pub allocate_sequence : ℕ → ℕ → ℕ → List StepInvocation → Option ℕ
allocate_sequence zero id sequence rows = none
allocate_sequence (suc fuel) id sequence rows =
    let retried = allocate_sequence fuel id (max_sequence id rows + 1) rows in
    if any (occupies id sequence) rows then retried else some sequence

abbrev pub max_attempts : ℕ
max_attempts = 64

abbrev pub invocation_row : ℕ → ℕ → InvocationRecord → FencingContext → StepInvocation
invocation_row id sequence observed ctx = record {
  step_run_id = id;
  observed = record observed { sequence = sequence; error = Option.map (take 500) observed.error };
  written_by_owner = ctx.owner_id;
  written_by_fencing_token = ctx.fencing_token;
}

-- The sequence that the record got. `none` is an exception, and then nothing is written.
abbrev pub record_allocated :
    ℕ → ℕ → InvocationRecord → FencingContext → Db → Option ℕ → Option ℕ × Db
record_allocated run id observed ctx db none = (none, db)
record_allocated run id observed ctx db (some sequence) = (
  some sequence,
  advance_provenance_revision run
      (record db { invocations = db.invocations ++ invocation_row id sequence observed ctx ∷ [] }),
)

abbrev pub record_of_run : ℕ → InvocationRecord → FencingContext → Db → Option ℕ → Option ℕ × Db
record_of_run id observed ctx db none = (none, db)
record_of_run id observed ctx db (some run) =
    record_allocated run id observed ctx db
      (allocate_sequence max_attempts id observed.sequence db.invocations)

unfoldable pub record_invocation : ℕ → InvocationRecord → FencingContext → Db → Option ℕ × Db
unfolding resolve_run_id_of_step
record_invocation id observed ctx db =
    record_of_run id observed ctx db (resolve_run_id_of_step id db)
