-- ===== src/Evidence/AtMostOne.antt =====
-- packages/evidence/src/generic-invariant-evaluate.ts: `evaluateAtMostOneAcceptedEffect`.
pub mod Failing
pub mod Passing
pub mod Complete
use rupture_grid.Base.{
  ℕ, Bool, true, false, not, ◌&&◌, ◌||◌, Option, none, some, List, [], ◌∷◌, ◌++◌, Text, codes,
  same_text, has, any, if◌then◌else◌, ltb, ◌==◌, length,
}
use rupture_grid.Evidence.Values.{
  ℤ, pos, negsuc, Value, absent_value, Surface, value_of, same_value, is_non_provable_value,
  safe_integer, coherent_scope, Converged, nothing_observed, conflicting, one_value,
  converge_values,
}
use rupture_grid.Evidence.Input.{
  Script, Gap, attribution_gap, enumeration_completeness_gap, scope_incoherent, evidence_conflict,
  capture_invalid_or_absent, contested_evidence, too_many_accepted_effects, incomplete, Entity,
  CompletenessProof, AtMostOneParams, Input, Result, CaptureStatus, gap_result, fail_result,
  pass_result, is_usable, capture_invalid, first_gap, queries_for_role, required_queries,
  distinct_texts, is_subject_contested,
}
use rupture_grid.Evidence.Candidates.{
  Candidate, Group, declared_value, events_of, keyed, lacks_identity, grouped, distinct_candidates,
  contested_identities, keys_of, is_accepted, is_equivalent, in_scope, is_attributed, keep,
}
use rupture_grid.Evidence.Graph.{lookup}

abbrev pub is_nil : {A : Type 0} → List A → Bool
is_nil [] = true
is_nil (x ∷ xs) = false

module _ (script : Script) (input : Input) (params : AtMostOneParams) where
  abbrev pub subject_value : Text → Value
  subject_value field = value_of field input.subject.subject_payload

  -- The groups of the effects that are not contested, and the keys of those that are.
  abbrev pub effect_groups : List Group
  effect_groups = grouped (
      keyed script params.effect_identity_field (events_of params.effect_role false input.entities))

  abbrev pub contested_effects : List Entity
  contested_effects = events_of params.effect_role true input.entities

  abbrev pub contested_effect_keys : List Text
  contested_effect_keys =
      distinct_texts (keys_of (keyed script params.effect_identity_field contested_effects))

  -- An effect that could be counted for the subject.
  unfoldable pub is_candidate_worthy : Entity → Bool
  is_candidate_worthy e =
      is_accepted params.accepted_match e
      && (is_equivalent params.equivalence_fields input.subject.subject_payload e
          && in_scope (codes "effect") input.subject.subject_payload params.scope_binding e)

  unfoldable pub candidates : List Candidate
  candidates =
      keep (λ c. is_candidate_worthy c.1)
        (distinct_candidates script contested_effect_keys effect_groups)

  abbrev pub is_attributed_candidate : Candidate → Bool
  is_attributed_candidate c =
      is_attributed input.active_relationships input.subject.subject_event_ids c.1

  unfoldable pub attributed : List Candidate
  attributed = keep is_attributed_candidate candidates

  unfoldable pub unattributed : List Candidate
  unattributed = keep (λ c. not (is_attributed_candidate c)) candidates

  -- The events of a contested identity, whether grouped or contested themselves.
  abbrev pub events_of_key : Text → List Candidate → List Entity
  events_of_key k [] = []
  events_of_key k ((j, e) ∷ cs) =
      let rest = events_of_key k cs in if same_text j k then e ∷ rest else rest

  abbrev pub members_of_key : Text → List Entity
  members_of_key k =
      events_of_key k (
        keyed script params.effect_identity_field
          (events_of params.effect_role false input.entities))
      ++ events_of_key k (keyed script params.effect_identity_field contested_effects)

  -- The contested identities that have a member that could be counted.
  unfoldable pub affecting_contested : List Text
  affecting_contested =
      keep (λ k. any is_candidate_worthy (members_of_key k))
        (contested_identities script contested_effect_keys effect_groups)

  -- The entities that the summary query captured.
  abbrev pub from_query : Option CaptureStatus → Text → Bool
  from_query none query = false
  from_query (some status) query = same_text status.query_id query

  unfoldable pub summary_entities : CompletenessProof → List Entity
  summary_entities proof =
      keep (λ e. from_query (lookup e.query_id input.captures) proof.query_id) input.entities

  -- Those that are bound to the subject and its scope.
  unfoldable pub bound_summaries : List Entity
  bound_summaries =
      keep
        (λ e.
          same_value (declared_value e params.completeness_proof.subject_field)
            (subject_value params.subject_identity_field)
          && in_scope (codes "summary") input.subject.subject_payload params.scope_binding e)
        (summary_entities params.completeness_proof)

  abbrev pub totals_of : List Entity → List Value
  totals_of [] = []
  totals_of (e ∷ es) = declared_value e params.completeness_proof.total_field ∷ totals_of es

  -- The queries whose captures a PASS requires.
  unfoldable pub required_for_pass : List Text
  required_for_pass = required_queries (
      queries_for_role input params.subject_role
      ++ (queries_for_role input params.effect_role ++ (params.completeness_proof.query_id ∷ [])))

  -- The comparison of the count with the observed total.
  unfoldable pub judge_total : Option ℤ → Result
  judge_total none = gap_result evidence_conflict
  judge_total (some (negsuc n)) = gap_result evidence_conflict
  judge_total (some (pos total)) =
      first_gap
        ((ltb total (length attributed), evidence_conflict)
          ∷ ((not (length attributed == total), enumeration_completeness_gap)
              ∷ ((ltb params.max_accepted_effects (length attributed), evidence_conflict) ∷ [])))
        pass_result

  unfoldable pub judge_converged : Converged → Result
  judge_converged conflicting = gap_result evidence_conflict
  judge_converged nothing_observed = gap_result enumeration_completeness_gap
  judge_converged (one_value v) =
      first_gap ((same_value v absent_value, enumeration_completeness_gap) ∷ [])
        (judge_total (safe_integer v))

  -- The captures and the summaries that completeness rests on.
  unfoldable pub judge_completeness : Result
  judge_completeness =
      first_gap
        ((
          not (is_usable (lookup params.completeness_proof.query_id input.captures)),
          capture_invalid_or_absent,
        )
          ∷ ((not (is_nil (capture_invalid input required_for_pass)), capture_invalid_or_absent)
              ∷ ((any (λ e. e.contested) bound_summaries, contested_evidence) ∷ [])))
        (judge_converged (converge_values (totals_of bound_summaries)))

  -- The contested identities, then the effects that no path leads to.
  unfoldable pub judge_contested : Result
  judge_contested =
      first_gap
        ((is_subject_contested input, contested_evidence)
          ∷ ((
            lacks_identity script params.effect_identity_field contested_effects,
            contested_evidence,
          )
              ∷ ((not (is_nil affecting_contested), contested_evidence)
                  ∷ ((not (is_nil unattributed), attribution_gap) ∷ []))))
        judge_completeness

  -- The lower bound, before everything that asks for completeness.
  unfoldable pub judge_effects : Result
  judge_effects =
      if ltb params.max_accepted_effects (length attributed)
      then first_gap ((is_subject_contested input, contested_evidence) ∷ [])
          (fail_result too_many_accepted_effects incomplete)
      else judge_contested

  unfoldable pub evaluate_at_most_one : Result
  evaluate_at_most_one =
      first_gap
        ((is_non_provable_value (subject_value params.subject_identity_field), scope_incoherent)
          ∷ ((
            not (
                coherent_scope
                  (record { name = codes "subject"; payload = input.subject.subject_payload } ∷ [])
                  params.scope_binding),
            scope_incoherent,
          )
              ∷ ((
                any (λ field. is_non_provable_value (subject_value field))
                    params.equivalence_fields,
                scope_incoherent,
              )
                  ∷ [])))
        judge_effects
