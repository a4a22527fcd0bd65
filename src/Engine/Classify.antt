-- ===== src/Engine/Classify.antt =====
-- packages/engine/src/classify.ts: side-effect knowledge of one invocation and the retry decision.
pub mod Laws
use rupture_grid.Base.{
  ℕ, Bool, true, false, ◌&&◌, Option, none, some, Text, leb, ltb, ◌==◌, if◌then◌else◌,
}

pub data IntentOutcome : Type 0 where
  succeeded failed cancelled : IntentOutcome

pub data SideEffectKnowledge : Type 0 where
  known_occurred known_absent indeterminate not_applicable : SideEffectKnowledge

pub data TransportStage : Type 0 where
  prepared connecting request_sent response_headers response_complete : TransportStage

-- The source takes the stage as a string: one of the five, or any other text.
pub data StageName : Type 0 where
  stage : TransportStage → StageName
  other : Text → StageName

pub data Mutation : Type 0 where
  read_only mutating : Mutation

pub data ContractKind : Type 0 where
  demo_fintech_webhook generic_http : ContractKind

-- The place of a stage in `STAGE_ORDER`.
abbrev pub stage_index : TransportStage → ℕ
stage_index prepared = 0
stage_index connecting = 1
stage_index request_sent = 2
stage_index response_headers = 3
stage_index response_complete = 4

-- `STAGE_ORDER.indexOf(actual) >= STAGE_ORDER.indexOf(stage)`; an unknown text has index -1, which
-- is below every stage.
unfoldable pub stage_at_least : Option StageName → TransportStage → Bool
stage_at_least none least = false
stage_at_least (some (stage s)) least = leb (stage_index least) (stage_index s)
stage_at_least (some (other t)) least = false

unfoldable pub stage_reached : Option StageName → Bool
stage_reached none = false
stage_reached (some (stage s)) = true
stage_reached (some (other t)) = false

pub record ClassifyInput : Type 0 where
  pub mutation : Mutation
  pub contract_kind : ContractKind
  pub transport_stage : Option StageName
  pub intent_outcome : IntentOutcome
  pub http_status : Option ℕ

pub record ClassifyResult : Type 0 where
  pub intent_outcome : IntentOutcome
  pub side_effect_knowledge : SideEffectKnowledge

-- Membership in `NO_EFFECT_4XX_CONTRACTS`.
abbrev pub no_effect_4xx : ContractKind → Bool
no_effect_4xx demo_fintech_webhook = true
no_effect_4xx generic_http = false

abbrev pub is_4xx : Option ℕ → Bool
is_4xx none = false
is_4xx (some status) = leb 400 status && ltb status 500

abbrev classify_failed : Bool → Bool → ClassifyResult
classify_failed false definitive = record {
  intent_outcome = failed;
  side_effect_knowledge = known_absent;
}
classify_failed true definitive = record {
  intent_outcome = failed;
  side_effect_knowledge = if definitive then known_absent else indeterminate;
}

-- The branches behind the read-only one, by the executor's intent outcome.
abbrev classify_mutating : IntentOutcome → Bool → Bool → ClassifyResult
classify_mutating succeeded sent definitive = record {
  intent_outcome = succeeded;
  side_effect_knowledge = known_occurred;
}
classify_mutating cancelled sent definitive = record {
  intent_outcome = cancelled;
  side_effect_knowledge = if sent then indeterminate else known_absent;
}
classify_mutating failed sent definitive = classify_failed sent definitive

abbrev classify_by : Mutation → ClassifyInput → ClassifyResult
classify_by read_only input = record {
  intent_outcome = input.intent_outcome;
  side_effect_knowledge = not_applicable;
}
classify_by mutating input =
    classify_mutating input.intent_outcome (stage_at_least input.transport_stage request_sent)
      (is_4xx input.http_status && no_effect_4xx input.contract_kind)

unfoldable pub classify_invocation : ClassifyInput → ClassifyResult
unfolding stage_at_least
classify_invocation input = classify_by input.mutation input

pub data DeclaredRetryPolicy : Type 0 where
  none_declared safe : DeclaredRetryPolicy

pub record RetryDecisionInput : Type 0 where
  pub declared_policy : DeclaredRetryPolicy
  pub mutation : Mutation
  pub side_effect_knowledge : SideEffectKnowledge
  pub intent_outcome : IntentOutcome
  pub attempts_so_far : ℕ
  pub max_attempts : ℕ

-- The six fixed reasons.
pub data RetryReason : Type 0 where
  budget_exhausted policy_none indeterminate_mutation provably_not_sent : RetryReason
  read_only_transient no_condition : RetryReason

pub record RetryDecision : Type 0 where
  pub will_retry : Bool
  pub reason : RetryReason

abbrev declared_none : DeclaredRetryPolicy → Bool
declared_none none_declared = true
declared_none safe = false

abbrev pub is_mutating : Mutation → Bool
is_mutating mutating = true
is_mutating read_only = false

abbrev pub is_indeterminate : SideEffectKnowledge → Bool
is_indeterminate indeterminate = true
is_indeterminate _ = false

abbrev is_known_absent : SideEffectKnowledge → Bool
is_known_absent known_absent = true
is_known_absent _ = false

abbrev is_failed : IntentOutcome → Bool
is_failed failed = true
is_failed _ = false

abbrev is_read_only : Mutation → Bool
is_read_only read_only = true
is_read_only mutating = false

unfoldable pub decide_retry : RetryDecisionInput → RetryDecision
decide_retry r =
    if leb r.max_attempts r.attempts_so_far
    then record { will_retry = false; reason = budget_exhausted }
    else if declared_none r.declared_policy
    then record { will_retry = false; reason = policy_none }
    else if is_mutating r.mutation && is_indeterminate r.side_effect_knowledge
    then record { will_retry = false; reason = indeterminate_mutation }
    else if is_failed r.intent_outcome && is_known_absent r.side_effect_knowledge
    then record { will_retry = true; reason = provably_not_sent }
    else if is_read_only r.mutation && is_failed r.intent_outcome
    then record { will_retry = true; reason = read_only_transient }
    else record { will_retry = false; reason = no_condition }

abbrev pub safe_retry_max_attempts : ℕ
safe_retry_max_attempts = 3
