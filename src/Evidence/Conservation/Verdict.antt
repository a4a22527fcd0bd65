-- ===== src/Evidence/Conservation/Verdict.antt =====
-- packages/evidence/src/generic-invariant-evaluate.ts: the verdict of `evaluateResourceConservation`
-- from the facts, and the dispatch `evaluateGenericInvariant`.
use rupture_grid.Base.{
  ℕ, Bool, true, false, not, ◌&&◌, ◌||◌, Option, none, some, List, [], ◌∷◌, ◌++◌, Text, any,
  if◌then◌else◌, length, ltb, leb, ◌==◌,
}
use rupture_grid.Evidence.Values.{ℤ, same_ℤ, difference, is_negative, is_non_provable_value}
use rupture_grid.Evidence.Input.{
  Script, Gap, attribution_gap, enumeration_completeness_gap, scope_incoherent, evidence_conflict,
  capture_invalid_or_absent, evaluation_surface_absent, baseline_missing, remaining_missing,
  contested_evidence, exceeded_baseline, negative_remaining, mismatch_of_remaining, incomplete,
  observed_total, ConservationParams, Input, Result, Instance, at_most_one_accepted_effect,
  resource_conservation, unknown_kind, gap_result, first_gap, fail_result, pass_result, is_usable,
  capture_invalid, queries_for_role, required_queries, is_subject_contested,
}
use rupture_grid.Evidence.Candidates.{lacks_identity}
use rupture_grid.Evidence.Graph.{lookup}
use rupture_grid.Evidence.AtMostOne.{is_nil, evaluate_at_most_one}
use rupture_grid.Evidence.Conservation.{
  Fact, contradicted, resource_value, baseline_surface, baseline_fact, contested_consumption,
  contested_consumption_identities, type_invalid_consumption, negative_consumption,
  out_of_scope_consumption, attributed_reservations, unattributed_reservations,
  accepted_reserved_units, is_remaining_authoritative, remaining_surface, is_remaining_contested,
  remaining_fact, bound_resource_summaries, summary_surface, natural_known,
}

abbrev pub is_contradicted : Fact → Bool
is_contradicted contradicted = true
is_contradicted f = false

abbrev pub is_some : {A : Type 0} → Option A → Bool
is_some none = false
is_some (some a) = true

abbrev pub is_below_zero : Option ℤ → Bool
is_below_zero none = false
is_below_zero (some z) = is_negative z

module _ (script : Script) (input : Input) (params : ConservationParams) where
  -- The queries whose captures a PASS requires.
  unfoldable pub required_for_authority : List Text
  required_for_authority = required_queries (
      queries_for_role input params.baseline_role
      ++ (queries_for_role input params.remaining_role
          ++ (queries_for_role input params.consumption_effect_role
              ++ (params.completeness_proof.query_id ∷ []))))

  abbrev pub is_count : Option ℕ → Bool
  is_count none = false
  is_count (some total) = length (attributed_reservations script input params) == total

  unfoldable pub is_enumeration_complete : Bool
  is_enumeration_complete = is_count (natural_known (summary_surface script input params))

  -- What Case C and PASS ask of the consumption effects and of the summaries.
  unfoldable pub is_consumption_proven : Bool
  is_consumption_proven =
      is_enumeration_complete
      && (is_usable (lookup params.completeness_proof.query_id input.captures)
          && (is_nil (unattributed_reservations script input params)
              && (is_nil (contested_consumption_identities script input params)
                  && (is_nil (type_invalid_consumption script input params)
                      && (is_nil (negative_consumption script input params)
                          && is_nil (out_of_scope_consumption script input params))))))

  -- `remainingFact !== expected`, under the conditions of Case C.
  unfoldable pub is_mismatch : Option ℕ → Option ℤ → Bool
  is_mismatch (some baseline) (some remaining) =
      is_consumption_proven
      && (is_nil (capture_invalid input (queries_for_role input params.consumption_effect_role))
          && (is_remaining_authoritative script input params
              && not (
                  same_ℤ remaining
                    (difference baseline (accepted_reserved_units script input params)))))
  is_mismatch baseline remaining = false

  unfoldable pub is_conserved : Option ℕ → Option ℤ → Bool
  is_conserved (some baseline) (some remaining) =
      is_consumption_proven
      && (is_nil (capture_invalid input required_for_authority)
          && (same_ℤ remaining (difference baseline (accepted_reserved_units script input params))
              && (leb (accepted_reserved_units script input params) baseline
                  && not (is_negative remaining))))
  is_conserved baseline remaining = false

  -- The named gap when no case fired.
  unfoldable pub name_gap : Result
  name_gap =
      first_gap
        ((
          not (is_nil (contested_consumption_identities script input params))
              || lacks_identity script params.consumption_effect_identity_field
                  (contested_consumption script input params),
          contested_evidence,
        )
          ∷ ((not (is_nil (type_invalid_consumption script input params)), evidence_conflict)
              ∷ ((not (is_nil (negative_consumption script input params)), evidence_conflict)
                  ∷ ((not (is_nil (out_of_scope_consumption script input params)), scope_incoherent)
                      ∷ gaps_of_facts))))
        (gap_result evaluation_surface_absent)
    where
      gaps_of_facts : List (Bool × Gap)
      gaps_of_facts =
          (
            not (is_some (baseline_fact script input params))
                && is_contradicted (baseline_surface script input params),
            evidence_conflict,
          )
          ∷ ((not (is_some (baseline_fact script input params)), baseline_missing)
              ∷ ((is_remaining_contested script input params, contested_evidence)
                  ∷ ((is_contradicted (remaining_surface script input params), evidence_conflict)
                      ∷ ((not (is_some (remaining_fact script input params)), remaining_missing)
                          ∷ ((
                            not (is_nil (capture_invalid input required_for_authority)),
                            capture_invalid_or_absent,
                          )
                              ∷ ((
                                is_contradicted (summary_surface script input params),
                                evidence_conflict,
                              )
                                  ∷ ((
                                    not (is_nil (unattributed_reservations script input params)),
                                    attribution_gap,
                                  )
                                      ∷ ((not is_enumeration_complete, enumeration_completeness_gap)
                                          ∷ []))))))))

  -- Case C, PASS, and the gaps.
  unfoldable pub judge_complete : Result
  judge_complete =
      if is_mismatch (baseline_fact script input params) (remaining_fact script input params)
      then fail_result mismatch_of_remaining observed_total
      else if is_conserved (baseline_fact script input params) (remaining_fact script input params)
      then pass_result
      else name_gap

  abbrev pub exceeds : Option ℕ → Bool
  exceeds none = false
  exceeds (some baseline) =
      not (is_nil (attributed_reservations script input params))
      && ltb baseline (accepted_reserved_units script input params)

  -- Case A.
  unfoldable pub is_exceeded : Bool
  is_exceeded = exceeds (baseline_fact script input params)

  -- Case B.
  unfoldable pub is_negative_remaining : Bool
  is_negative_remaining =
      is_remaining_authoritative script input params
      && is_below_zero (remaining_fact script input params)

  unfoldable pub judge_cases : Result
  judge_cases =
      if is_exceeded
      then fail_result exceeded_baseline incomplete
      else if is_negative_remaining
      then fail_result negative_remaining incomplete
      else first_gap
          ((
            any (λ e. e.contested) (bound_resource_summaries script input params),
            contested_evidence,
          )
            ∷ [])
          judge_complete

  unfoldable pub evaluate_conservation : Result
  evaluate_conservation =
      first_gap
        ((is_non_provable_value (resource_value script input params), scope_incoherent)
          ∷ ((is_subject_contested input, contested_evidence) ∷ []))
        judge_cases

-- `evaluateGenericInvariant`, by the kind of the instance.
unfoldable pub evaluate_instance : Script → Input → Instance → Result
evaluate_instance script input (at_most_one_accepted_effect params) =
    evaluate_at_most_one script input params
evaluate_instance script input (resource_conservation params) =
    evaluate_conservation script input params
evaluate_instance script input (unknown_kind kind) = gap_result evaluation_surface_absent

abbrev pub evaluate_generic_invariant : Script → Input → Result
evaluate_generic_invariant script input = evaluate_instance script input input.instance_of
