-- ===== src/Evidence/Examples/Stock.antt =====
-- Evaluations of a stock of ten units and its reservations.
use rupture_grid.Base.{
  ◌≡◌, refl, ◌⊎◌, ℕ, ◌+◌, true, false, none, List, [], ◌∷◌, Text, same_text, codes,
}
use rupture_grid.Evidence.Values.{
  pos, text, integer, boolean, null_value, Payload, same_value, value_of, strip_provenance,
  safe_integer, scope_problem, converge_values, difference,
}
use rupture_grid.Evidence.Graph.{
  adjacency_of, neighbors, lookup, upsert, scan, search, attributable,
}
use rupture_grid.Evidence.Input.{
  Entity, Input, ConservationParams, resource_conservation, pass, fail, first_gap, capture_invalid,
  queries_for_role, is_subject_contested,
}
use rupture_grid.Evidence.Candidates.{
  events_of, keyed, grouped, is_conflicting, distinct_candidates, contested_identities, in_scope,
  is_attributed, keep,
}
use rupture_grid.Evidence.Candidates.Distinct.{Distinct}
use rupture_grid.Evidence.Conservation.{
  baseline_surface, baseline_fact, contested_consumption_identities, judge_consumption,
  type_invalid_consumption, negative_consumption, out_of_scope_consumption, attributed_reservations,
  unattributed_reservations, sum_units, accepted_reserved_units, is_remaining_authoritative,
  remaining_surface, remaining_fact, bound_resource_summaries, summary_surface,
}
use rupture_grid.Evidence.Conservation.Verdict.{
  required_for_authority, is_enumeration_complete, is_consumption_proven, is_mismatch, is_conserved,
  name_gap, judge_complete, is_exceeded, is_negative_remaining, judge_cases, evaluate_conservation,
}
use rupture_grid.Evidence.Conservation.Reserved.{
  identities_of, AreReserved, attributed_reservations-AreReserved,
}
use rupture_grid.Evidence.Conservation.Sums.{KeepsSafe, KeepsUnsafe, exact_units}
use rupture_grid.Evidence.Conservation.Soundness.{Conserved, evaluate_conservation-pass}
use rupture_grid.Evidence.Conservation.Failing.{
  Exceeded, NegativeRemaining, Mismatch, evaluate_conservation-fail,
}
use rupture_grid.Evidence.Examples.{
  sample_script, order_field, scope_field, charge_field, accepted_field, total_field, role,
  subject_fields, status, edge, summary_of,
}

abbrev units_field : Text
units_field = 26 ∷ []

-- An event of a role with units.
abbrev stock_event : ℕ → ℕ → ℕ → ℕ → Payload → Entity
stock_event event in_role query units rest = record {
  event_id = event ∷ [];
  role_id = role in_role;
  query_id = query ∷ [];
  payload = (units_field, integer (pos units)) ∷ rest;
  source_observation_hashes = [];
  contested = false;
}

abbrev reservation : ℕ → ℕ → ℕ → Entity
reservation event name units =
    stock_event event 2 12 units
      ((charge_field, text (name ∷ [])) ∷ ((accepted_field, boolean true) ∷ subject_fields))

abbrev stock_params : ConservationParams
stock_params = record {
  resource_identity_field = order_field;
  baseline_role = role 4;
  baseline_units_field = units_field;
  remaining_role = role 5;
  remaining_units_field = units_field;
  consumption_effect_role = role 2;
  consumption_effect_identity_field = charge_field;
  consumption_units_field = units_field;
  consumption_accepted_match = record { field = accepted_field; value = boolean true };
  completeness_proof = record {
    query_id = 13 ∷ [];
    subject_field = order_field;
    total_field = total_field;
  };
  scope_binding = record { fields = scope_field ∷ []; generation_field = none };
}

abbrev stock_input : List Entity → Input
stock_input entities = record {
  instance_of = resource_conservation stock_params;
  captures = status 12 2 ∷ (status 13 3 ∷ (status 14 4 ∷ (status 15 5 ∷ [])));
  queries_by_role =
      (role 2, (12 ∷ []) ∷ [])
      ∷ ((role 3, (13 ∷ []) ∷ []) ∷ ((role 4, (14 ∷ []) ∷ []) ∷ ((role 5, (15 ∷ []) ∷ []) ∷ [])));
  entities = entities;
  active_relationships = edge 32 ∷ (edge 34 ∷ []);
  subject = record {
    subject_key = [];
    subject_event_ids = (31 ∷ []) ∷ [];
    subject_payload = subject_fields;
  };
  contested_event_ids = [];
}

-- Ten units at first, four reserved, six left.
abbrev conserved_entities : List Entity
conserved_entities =
    stock_event 41 4 14 10 subject_fields
    ∷ (stock_event 42 5 15 6 subject_fields ∷ (reservation 32 7 4 ∷ (summary_of 1 ∷ [])))

abbrev conserved_stock : Input
conserved_stock = stock_input conserved_entities

-- Ten units at first, eleven reserved.
abbrev oversold_stock : Input
oversold_stock =
    stock_input
      (stock_event 41 4 14 10 subject_fields ∷ (reservation 32 7 4 ∷ (reservation 34 8 7 ∷ [])))

-- A reservation that the derivation contested and that has no identity.
abbrev unidentified : Entity
unidentified = record {
  event_id = 35 ∷ [];
  role_id = role 2;
  query_id = 12 ∷ [];
  payload =
      (units_field, integer (pos 9))
      ∷ ((charge_field, null_value) ∷ ((accepted_field, boolean true) ∷ subject_fields));
  source_observation_hashes = [];
  contested = true;
}

conserved_stock-passes :
    (evaluate_conservation sample_script conserved_stock stock_params).verdict ≡ pass
unfolding evaluate_conservation first_gap judge_cases judge_complete is_exceeded
    is_negative_remaining is_mismatch is_conserved is_consumption_proven is_enumeration_complete
    required_for_authority name_gap baseline_surface baseline_fact contested_consumption_identities
    judge_consumption type_invalid_consumption negative_consumption out_of_scope_consumption
    attributed_reservations unattributed_reservations sum_units accepted_reserved_units
    is_remaining_authoritative remaining_surface remaining_fact bound_resource_summaries
    summary_surface capture_invalid queries_for_role is_subject_contested events_of keyed grouped
    is_conflicting distinct_candidates contested_identities in_scope is_attributed keep attributable
    adjacency_of neighbors lookup upsert scan search same_text same_value value_of strip_provenance
    safe_integer scope_problem converge_values difference codes
conserved_stock-passes = refl

oversold_stock-fails :
    (evaluate_conservation sample_script oversold_stock stock_params).verdict ≡ fail
unfolding evaluate_conservation first_gap judge_cases judge_complete is_exceeded
    is_negative_remaining is_mismatch is_conserved is_consumption_proven is_enumeration_complete
    required_for_authority name_gap baseline_surface baseline_fact contested_consumption_identities
    judge_consumption type_invalid_consumption negative_consumption out_of_scope_consumption
    attributed_reservations unattributed_reservations sum_units accepted_reserved_units
    is_remaining_authoritative remaining_surface remaining_fact bound_resource_summaries
    summary_surface capture_invalid queries_for_role is_subject_contested events_of keyed grouped
    is_conflicting distinct_candidates contested_identities in_scope is_attributed keep attributable
    adjacency_of neighbors lookup upsert scan search same_text same_value value_of strip_provenance
    safe_integer scope_problem converge_values difference codes
oversold_stock-fails = refl

-- A contested reservation without an identity does not keep the evaluation from a PASS.
unidentified-passes :
    (evaluate_conservation sample_script
      (stock_input (unidentified ∷ conserved_entities))
      stock_params).verdict
    ≡ pass
unfolding evaluate_conservation first_gap judge_cases judge_complete is_exceeded
    is_negative_remaining is_mismatch is_conserved is_consumption_proven is_enumeration_complete
    required_for_authority name_gap baseline_surface baseline_fact contested_consumption_identities
    judge_consumption type_invalid_consumption negative_consumption out_of_scope_consumption
    attributed_reservations unattributed_reservations sum_units accepted_reserved_units
    is_remaining_authoritative remaining_surface remaining_fact bound_resource_summaries
    summary_surface capture_invalid queries_for_role is_subject_contested events_of keyed grouped
    is_conflicting distinct_candidates contested_identities in_scope is_attributed keep attributable
    adjacency_of neighbors lookup upsert scan search same_text same_value value_of strip_provenance
    safe_integer scope_problem converge_values difference codes
unidentified-passes = refl

sample_script-KeepsSafe : KeepsSafe sample_script
sample_script-KeepsSafe n h = refl

sample_script-KeepsUnsafe : KeepsUnsafe sample_script
sample_script-KeepsUnsafe n h = h

attributed_reservations-AreReserved_example :
    Distinct (identities_of (attributed_reservations sample_script oversold_stock stock_params))
    × AreReserved sample_script oversold_stock stock_params
        (attributed_reservations sample_script oversold_stock stock_params)
attributed_reservations-AreReserved_example =
    attributed_reservations-AreReserved sample_script oversold_stock stock_params

evaluate_conservation-pass_example :
    (is_subject_contested conserved_stock ≡ false)
    × ((baseline : ℕ) × (remaining : ℕ) × Conserved sample_script conserved_stock stock_params
          baseline remaining
        × (remaining
              + exact_units (attributed_reservations sample_script conserved_stock stock_params)
            ≡ baseline))
evaluate_conservation-pass_example =
    evaluate_conservation-pass sample_script conserved_stock stock_params sample_script-KeepsSafe
      sample_script-KeepsUnsafe conserved_stock-passes

evaluate_conservation-fail_example :
    (is_subject_contested oversold_stock ≡ false)
    × (Exceeded sample_script oversold_stock stock_params
        ⊎ (NegativeRemaining sample_script oversold_stock stock_params
            ⊎ Mismatch sample_script oversold_stock stock_params))
evaluate_conservation-fail_example =
    evaluate_conservation-fail sample_script oversold_stock stock_params sample_script-KeepsSafe
      sample_script-KeepsUnsafe oversold_stock-fails
