-- ===== src/Evidence/Examples/Loaded.antt =====
-- The input of the order with the captures that the loader reads.
use mathlib.Core.List.{Memᴰ}
use rupture_grid.Base.{◌≡◌, refl, ℕ, true, false, none, some, List, [], ◌∷◌, same_text, codes}
use rupture_grid.Evidence.Values.{
  same_value, value_of, strip_provenance, safe_integer, scope_problem, converge_values,
}
use rupture_grid.Evidence.Graph.{
  adjacency_of, neighbors, lookup, upsert, scan, search, attributable,
}
use rupture_grid.Evidence.Input.{
  Entity, Input, Subject, at_most_one_accepted_effect, pass, first_gap, capture_invalid,
  queries_for_role, is_subject_contested,
}
use rupture_grid.Evidence.Candidates.{
  events_of, keyed, grouped, is_conflicting, distinct_candidates, contested_identities,
  is_equivalent, in_scope, is_attributed, keep,
}
use rupture_grid.Evidence.AtMostOne.{
  judge_effects, judge_contested, judge_completeness, judge_converged, judge_total, attributed,
  unattributed, candidates, affecting_contested, is_candidate_worthy, summary_entities,
  bound_summaries, required_for_pass, evaluate_at_most_one,
}
use rupture_grid.Evidence.Loading.{
  CaptureRow, Inspection, load_captures, build_captures, eligible, load_subjects,
}
use rupture_grid.Evidence.Loading.Laws.{ShowsSurface, evaluate_at_most_one-ShowsSurface}
use rupture_grid.Evidence.Loading.Subjects.{IsSubject, load_subjects-IsSubject}
use rupture_grid.Evidence.Loading.Graph.{
  EventRow, DiagnosticRow, RelationshipRow, LoadedEvidence, ids_of, load_evidence, AreActive,
  load_evidence-AreActive,
}
use rupture_grid.Evidence.Examples.{
  edge, sample_script, order_params, charge, subject_fields, role, one_charge,
}

abbrev inspection : ℕ → ℕ → CaptureRow
inspection query in_role = record {
  query_id = some (query ∷ []);
  role_id = role in_role;
  is_observed = true;
  http_status = some 200;
  observed_truncated = false;
  row_truncated = false;
  shape_valid = true;
  reason_code = none;
}

-- The second inspection of the first query comes too late.
abbrev inspections : List CaptureRow
inspections = inspection 11 1 ∷ (inspection 12 2 ∷ (inspection 13 3 ∷ (inspection 11 9 ∷ [])))

-- The last declared query is never captured.
abbrev declared : List Inspection
declared =
    record { query_id = 11 ∷ []; role_id = role 1 }
    ∷ (record { query_id = 12 ∷ []; role_id = role 2 }
        ∷ (record { query_id = 13 ∷ []; role_id = role 3 }
            ∷ (record { query_id = 14 ∷ []; role_id = role 4 } ∷ [])))

abbrev loaded_order : Input
loaded_order = record {
  instance_of = one_charge.instance_of;
  captures = build_captures declared inspections;
  queries_by_role = one_charge.queries_by_role;
  entities = one_charge.entities;
  active_relationships = one_charge.active_relationships;
  subject = one_charge.subject;
  contested_event_ids = [];
}

loaded_order-passes : (evaluate_at_most_one sample_script loaded_order order_params).verdict ≡ pass
unfolding evaluate_at_most_one first_gap judge_effects judge_contested judge_completeness
    judge_converged judge_total attributed unattributed candidates affecting_contested
    is_candidate_worthy summary_entities bound_summaries required_for_pass capture_invalid
    queries_for_role is_subject_contested events_of keyed grouped is_conflicting distinct_candidates
    contested_identities is_equivalent in_scope is_attributed keep attributable adjacency_of
    neighbors lookup upsert scan search same_text same_value value_of strip_provenance safe_integer
    scope_problem converge_values codes load_captures build_captures
loaded_order-passes = refl

effect_query : Memᴰ (12 ∷ []) (required_for_pass sample_script loaded_order order_params)
unfolding required_for_pass queries_for_role lookup same_text
effect_query = Memᴰ.tail (Memᴰ.head refl)

evaluate_at_most_one-ShowsSurface_example :
    (row : CaptureRow) × Memᴰ row inspections × ShowsSurface (12 ∷ []) row
evaluate_at_most_one-ShowsSurface_example =
    evaluate_at_most_one-ShowsSurface sample_script loaded_order order_params declared inspections
      (12 ∷ []) refl loaded_order-passes effect_query

-- An event of the subject role.
abbrev placed : Entity
placed = record {
  event_id = 31 ∷ [];
  role_id = role 1;
  query_id = 11 ∷ [];
  payload = subject_fields;
  source_observation_hashes = [];
  contested = false;
}

abbrev the_subject : Subject
the_subject = record {
  subject_key = 90 ∷ [];
  subject_event_ids = (31 ∷ []) ∷ [];
  subject_payload = subject_fields;
}

the_subject-loaded : Memᴰ the_subject (
    load_subjects sample_script
      (at_most_one_accepted_effect order_params)
      (charge 32 7 false ∷ (placed ∷ [])))
unfolding load_subjects eligible keyed grouped upsert value_of same_text codes
the_subject-loaded = Memᴰ.head refl

load_subjects-IsSubject_example :
    IsSubject sample_script
      (at_most_one_accepted_effect order_params)
      (charge 32 7 false ∷ (placed ∷ []))
      the_subject
load_subjects-IsSubject_example =
    load_subjects-IsSubject sample_script (at_most_one_accepted_effect order_params)
      (charge 32 7 false ∷ (placed ∷ [])) the_subject the_subject-loaded

-- The event of the charge as it is recorded, with a gap that contests it.
abbrev event_rows : List EventRow
event_rows =
    record {
      id = 32 ∷ [];
      event_type = role 2;
      payload = subject_fields;
      provenance_query = some (12 ∷ []);
      source_observation_hashes = [];
      normalizer_name = codes "generic-inspection-normalizer";
    }
    ∷ []

abbrev gap_rows : List DiagnosticRow
gap_rows =
    record { gap_kind = codes "contested-identity"; affected_event_ids = (32 ∷ []) ∷ [] } ∷ []

abbrev relationship_rows : List RelationshipRow
relationship_rows = record { relationship = edge 32; paths = [] } ∷ []

abbrev loaded_evidence : LoadedEvidence
loaded_evidence = load_evidence (role 2 ∷ []) event_rows gap_rows relationship_rows

load_evidence-AreActive_example :
    (events_of (role 2) true loaded_evidence.entities ≡ [])
    × AreActive
        (ids_of loaded_evidence.entities)
        loaded_evidence.contested_event_ids
        loaded_evidence.active_relationships
load_evidence-AreActive_example =
    load_evidence-AreActive (role 2 ∷ []) event_rows gap_rows relationship_rows (role 2)
