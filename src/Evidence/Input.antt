-- ===== src/Evidence/Input.antt =====
-- packages/evidence/src/generic-invariant-evaluate.ts: the input and the result of an evaluation,
-- and the validity of captures. packages/engine/src/generic-invariant-registry.ts: the parameters.
use rupture_grid.Base.{
  ◌≡◌, refl, sym, ℕ, Bool, true, false, ◌&&◌, Option, none, some, List, [], ◌∷◌, Text, same_text,
  has, if◌then◌else◌, sort_by,
}
use rupture_grid.Evidence.Values.{Value, Payload, ScopeBinding}
use rupture_grid.Evidence.Graph.{Relationship, lookup}

-- The functions of JavaScript that the program calls: `JSON.stringify`, `String`, and the rounding
-- that a sum of numbers undergoes.
pub record Script : Type 0 where
  pub stringify : Payload → Text
  pub string_of : Value → Text
  pub rounded : ℕ → ℕ

-- `GENERIC_EVALUATION_GAPS`.
pub data Gap : Type 0 where
  attribution_gap enumeration_completeness_gap scope_incoherent evidence_conflict : Gap
  capture_invalid_or_absent evaluation_surface_absent baseline_missing remaining_missing : Gap
  contested_evidence resource_missing : Gap

pub data Verdict : Type 0 where
  pass fail not_evaluable : Verdict

pub data FailureMechanism : Type 0 where
  too_many_accepted_effects exceeded_baseline negative_remaining mismatch_of_remaining :
      FailureMechanism

-- `GENERIC_COMPLETENESS_BASES`.
pub data CompletenessBasis : Type 0 where
  observed_total incomplete : CompletenessBasis

-- `GenericEvidenceEntity`.
pub record Entity : Type 0 where
  pub event_id : Text
  pub role_id : Text
  pub query_id : Text
  pub payload : Payload
  pub source_observation_hashes : List Text
  pub contested : Bool

-- `GenericCaptureStatus`.
pub record CaptureStatus : Type 0 where
  pub query_id : Text
  pub role_id : Text
  pub valid : Bool
  pub captured : Bool
  pub reason_code : Text

-- `GenericEvaluationSubject`.
pub record Subject : Type 0 where
  pub subject_key : Text
  pub subject_event_ids : List Text
  pub subject_payload : Payload

pub record AcceptedMatch : Type 0 where
  pub field : Text
  pub value : Value

pub record CompletenessProof : Type 0 where
  pub query_id : Text
  pub subject_field : Text
  pub total_field : Text

pub record AtMostOneParams : Type 0 where
  pub subject_role : Text
  pub subject_identity_field : Text
  pub effect_role : Text
  pub effect_identity_field : Text
  pub accepted_match : AcceptedMatch
  pub equivalence_fields : List Text
  pub max_accepted_effects : ℕ
  pub completeness_proof : CompletenessProof
  pub scope_binding : ScopeBinding

pub record ConservationParams : Type 0 where
  pub resource_identity_field : Text
  pub baseline_role : Text
  pub baseline_units_field : Text
  pub remaining_role : Text
  pub remaining_units_field : Text
  pub consumption_effect_role : Text
  pub consumption_effect_identity_field : Text
  pub consumption_units_field : Text
  pub consumption_accepted_match : AcceptedMatch
  pub completeness_proof : CompletenessProof
  pub scope_binding : ScopeBinding

-- An instance by its kind; any other kind is unknown.
pub data Instance : Type 0 where
  at_most_one_accepted_effect : AtMostOneParams → Instance
  resource_conservation : ConservationParams → Instance
  unknown_kind : Text → Instance

-- `GenericEvaluationInput`.
pub record Input : Type 0 where
  pub instance_of : Instance
  pub captures : List (Text × CaptureStatus)
  pub queries_by_role : List (Text × List Text)
  pub entities : List Entity
  pub active_relationships : List Relationship
  pub subject : Subject
  pub contested_event_ids : List Text

-- `GenericEvaluationResult`, without its texts, its details and its lists of proofs.
pub record Result : Type 0 where
  pub verdict : Verdict
  pub gap : Option Gap
  pub failure_mechanism : Option FailureMechanism
  pub completeness_basis : CompletenessBasis

-- `gapResult`.
abbrev pub gap_result : Gap → Result
gap_result g = record {
  verdict = not_evaluable;
  gap = some g;
  failure_mechanism = none;
  completeness_basis = incomplete;
}

-- The early returns of an evaluation: the gap of the first condition that holds.
unfoldable pub first_gap : List (Bool × Gap) → Result → Result
first_gap [] otherwise = otherwise
first_gap ((condition, g) ∷ rest) otherwise =
    let later = first_gap rest otherwise in if condition then gap_result g else later

-- None of the conditions holds.
abbrev pub Clear : List (Bool × Gap) → Type 0
Clear [] = Unit
Clear ((condition, g) ∷ rest) = (condition ≡ false) × Clear rest

-- A verdict other than `not_evaluable` comes from behind the early returns.
pub first_gap-Clear :
    (conditions : List (Bool × Gap)) (r : Result) (v : Verdict)
    → (v ≡ not_evaluable → ⊥)
    → (first_gap conditions r).verdict ≡ v
    → Clear conditions × (r.verdict ≡ v)
unfolding first_gap
first_gap-Clear [] r v apart h = (tt, h)
first_gap-Clear ((true, g) ∷ rest) r v apart h = absurd (apart (sym h))
first_gap-Clear ((false, g) ∷ rest) r v apart h =
    let (a, b) = first_gap-Clear rest r v apart h in ((refl, a), b)

pub first_gap-not_evaluable :
    (conditions : List (Bool × Gap)) (r : Result)
    → r.verdict ≡ not_evaluable
    → (first_gap conditions r).verdict ≡ not_evaluable
unfolding first_gap
first_gap-not_evaluable [] r h = h
first_gap-not_evaluable ((true, g) ∷ rest) r h = refl
first_gap-not_evaluable ((false, g) ∷ rest) r h = first_gap-not_evaluable rest r h

abbrev pub fail_result : FailureMechanism → CompletenessBasis → Result
fail_result m basis = record {
  verdict = fail;
  gap = none;
  failure_mechanism = some m;
  completeness_basis = basis;
}

abbrev pub pass_result : Result
pass_result = record {
  verdict = pass;
  gap = none;
  failure_mechanism = none;
  completeness_basis = observed_total;
}

-- `status !== undefined && status.captured && status.valid`.
abbrev pub is_usable : Option CaptureStatus → Bool
is_usable none = false
is_usable (some status) = status.captured && status.valid

-- The queries of a list whose capture is absent or invalid.
unfoldable pub capture_invalid : Input → List Text → List Text
capture_invalid input [] = []
capture_invalid input (query ∷ queries) =
    let rest = capture_invalid input queries in
    if is_usable (lookup query input.captures) then rest else query ∷ rest

abbrev queries_or_none : Option (List Text) → List Text
queries_or_none none = []
queries_or_none (some ids) = sort_by (λ id. id) ids

unfoldable pub queries_for_role : Input → Text → List Text
queries_for_role input role = queries_or_none (lookup role input.queries_by_role)

-- `[...new Set(texts)]`.
abbrev pub without : Text → List Text → List Text
without t [] = []
without t (u ∷ us) = let rest = without t us in if same_text u t then rest else u ∷ rest

abbrev pub distinct_texts : List Text → List Text
distinct_texts [] = []
distinct_texts (t ∷ ts) = t ∷ without t (distinct_texts ts)

-- Those, sorted.
abbrev pub required_queries : List Text → List Text
required_queries ids = sort_by (λ id. id) (distinct_texts ids)

-- `input.contestedEventIds.has(subject.subjectEventIds[0] ?? '')`.
abbrev pub first_or_blank : List Text → Text
first_or_blank [] = []
first_or_blank (t ∷ ts) = t

unfoldable pub is_subject_contested : Input → Bool
is_subject_contested input =
    has (first_or_blank input.subject.subject_event_ids) input.contested_event_ids
