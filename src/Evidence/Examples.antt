-- ===== src/Evidence/Examples.antt =====
-- Evaluations of small inputs: one order, its charges and its summary; one stock and its reservations.
mod Stock
mod Captures
mod Loaded
use mathlib.Core.List.{Memᴰ}
use rupture_grid.Base.{
  ◌≡◌, refl, ap, sym, ℕ, Bool, true, false, Option, none, some, List, [], ◌∷◌, ◌++◌, Text, arith,
  same_text, codes, sort_by, ◌↔◌, ◌⊎◌, inl, inr, ◌≤◌, ◌<◌, ◌+◌, length, has, find_by, take,
}
use rupture_grid.Evidence.Values.{
  same_value, value_of, strip_provenance, safe_integer, scope_problem, converge_values, difference,
  pos, negsuc, Value, text, integer, boolean, null_value, Payload, absent_value,
}
use rupture_grid.Evidence.Graph.{
  adjacency_of, neighbors, lookup, upsert, scan, search, Relationship, identity_direct,
  attributable,
}
use rupture_grid.Evidence.Graph.Paths.{PathOf}
use rupture_grid.Evidence.Graph.Reach.{attributable_iff}
use rupture_grid.Evidence.Input.{
  first_gap, capture_invalid, queries_for_role, is_subject_contested, Script, Entity, CaptureStatus,
  Subject, Input, AtMostOneParams, ConservationParams, at_most_one_accepted_effect,
  resource_conservation, Result, fail_result, pass_result, gap_result, pass, fail, Instance,
}
use rupture_grid.Evidence.Candidates.{
  events_of, keyed, grouped, is_conflicting, distinct_candidates, contested_identities,
  is_equivalent, in_scope, is_attributed, keep, Candidate, keys_of,
}
use rupture_grid.Evidence.AtMostOne.{
  judge_effects, judge_contested, judge_completeness, judge_converged, judge_total, attributed,
  unattributed, candidates, affecting_contested, is_candidate_worthy, summary_entities,
  bound_summaries, required_for_pass, evaluate_at_most_one,
}
use rupture_grid.Evidence.Candidates.Distinct.{Distinct}
use rupture_grid.Evidence.Candidates.Alike.{TellsApart}
use rupture_grid.Evidence.AtMostOne.Failing.{AreCounted, evaluate_at_most_one-fail}
use rupture_grid.Evidence.AtMostOne.Complete.{evaluate_at_most_one-pass_complete}
use rupture_grid.Evidence.Conservation.Verdict.{evaluate_conservation}

-- `String` and `JSON.stringify` for texts only; that is enough for the identities below.
abbrev shown : Value → Text
shown (text t) = t
shown v = []

abbrev first_shown : Payload → Text
first_shown [] = []
first_shown ((name, value) ∷ rest) = name

abbrev sample_script : Script
sample_script = record { stringify = first_shown; string_of = shown; rounded = λ n. n }

-- The fields.
abbrev order_field : Text
order_field = 21 ∷ []

abbrev scope_field : Text
scope_field = 22 ∷ []

abbrev charge_field : Text
charge_field = 23 ∷ []

abbrev accepted_field : Text
accepted_field = 24 ∷ []

abbrev total_field : Text
total_field = 25 ∷ []

abbrev role : ℕ → Text
role n = n ∷ []

abbrev subject_fields : Payload
subject_fields = (order_field, text (90 ∷ [])) ∷ ((scope_field, text (91 ∷ [])) ∷ [])

abbrev charge : ℕ → ℕ → Bool → Entity
charge event name contested = record {
  event_id = event ∷ [];
  role_id = role 2;
  query_id = 12 ∷ [];
  payload = (charge_field, text (name ∷ [])) ∷ ((accepted_field, boolean true) ∷ subject_fields);
  source_observation_hashes = [];
  contested = contested;
}

abbrev summary_of : ℕ → Entity
summary_of total = record {
  event_id = 33 ∷ [];
  role_id = role 3;
  query_id = 13 ∷ [];
  payload = (total_field, integer (pos total)) ∷ subject_fields;
  source_observation_hashes = [];
  contested = false;
}

abbrev status : ℕ → ℕ → Text × CaptureStatus
status query in_role = (
  query ∷ [],
  record {
    query_id = query ∷ [];
    role_id = role in_role;
    valid = true;
    captured = true;
    reason_code = [];
  },
)

abbrev edge : ℕ → Relationship
edge event = record {
  relationship_id = 50 ∷ (event ∷ []);
  from_event_id = 31 ∷ [];
  to_event_id = event ∷ [];
  relation_kind = [];
  basis = identity_direct;
}

abbrev order_params : AtMostOneParams
order_params = record {
  subject_role = role 1;
  subject_identity_field = order_field;
  effect_role = role 2;
  effect_identity_field = charge_field;
  accepted_match = record { field = accepted_field; value = boolean true };
  equivalence_fields = order_field ∷ [];
  max_accepted_effects = 1;
  completeness_proof = record {
    query_id = 13 ∷ [];
    subject_field = order_field;
    total_field = total_field;
  };
  scope_binding = record { fields = scope_field ∷ []; generation_field = none };
}

abbrev order_input : List Entity → Input
order_input entities = record {
  instance_of = at_most_one_accepted_effect order_params;
  captures = status 11 1 ∷ (status 12 2 ∷ (status 13 3 ∷ []));
  queries_by_role =
      (role 1, (11 ∷ []) ∷ []) ∷ ((role 2, (12 ∷ []) ∷ []) ∷ ((role 3, (13 ∷ []) ∷ []) ∷ []));
  entities = entities;
  active_relationships = edge 32 ∷ (edge 34 ∷ []);
  subject = record {
    subject_key = [];
    subject_event_ids = (31 ∷ []) ∷ [];
    subject_payload = subject_fields;
  };
  contested_event_ids = [];
}

abbrev one_charge : Input
one_charge = order_input (charge 32 7 false ∷ (summary_of 1 ∷ []))

abbrev two_charges : Input
two_charges = order_input (charge 32 7 false ∷ (charge 34 8 false ∷ []))

-- A charge of the order and its complete summary pass; two charges fail.
one_charge-passes : evaluate_at_most_one sample_script one_charge order_params ≡ pass_result
unfolding evaluate_at_most_one first_gap judge_effects judge_contested judge_completeness
    judge_converged judge_total attributed unattributed candidates affecting_contested
    is_candidate_worthy summary_entities bound_summaries required_for_pass capture_invalid
    queries_for_role is_subject_contested events_of keyed grouped is_conflicting distinct_candidates
    contested_identities is_equivalent in_scope is_attributed keep attributable adjacency_of
    neighbors lookup upsert scan search same_text same_value value_of strip_provenance safe_integer
    scope_problem converge_values difference codes
one_charge-passes = refl

two_charges-fails : (evaluate_at_most_one sample_script two_charges order_params).verdict ≡ fail
unfolding evaluate_at_most_one first_gap judge_effects judge_contested judge_completeness
    judge_converged judge_total attributed unattributed candidates affecting_contested
    is_candidate_worthy summary_entities bound_summaries required_for_pass capture_invalid
    queries_for_role is_subject_contested events_of keyed grouped is_conflicting distinct_candidates
    contested_identities is_equivalent in_scope is_attributed keep attributable adjacency_of
    neighbors lookup upsert scan search same_text same_value value_of strip_provenance safe_integer
    scope_problem converge_values difference codes
two_charges-fails = refl

attributable_iff_example :
    ((found_path : List Relationship) × (attributable (edge 32 ∷ []) (31 ∷ []) (32 ∷ [])
        ≡ some found_path))
    ↔ ((path : List Relationship) × PathOf (edge 32 ∷ []) (31 ∷ []) path (32 ∷ []))
attributable_iff_example = attributable_iff (edge 32 ∷ []) (31 ∷ []) (32 ∷ [])

evaluate_at_most_one-fail_example :
    (is_subject_contested two_charges ≡ false)
    × ((cs : List Candidate) × (1 < length cs)
        × Distinct (keys_of cs)
        × AreCounted sample_script two_charges order_params cs)
evaluate_at_most_one-fail_example =
    evaluate_at_most_one-fail sample_script two_charges order_params two_charges-fails

abbrev the_charge : Entity
the_charge = charge 32 7 false

abbrev charge_code : ℕ
charge_code = 23

abbrev total_code : ℕ
total_code = 25

abbrev first_code : Text → ℕ
first_code [] = 0
first_code (c ∷ cs) = c

codes_differ : {A : Type 0} → charge_code ≡ total_code → A
codes_differ h = absurd (omega arith)

fields_differ : {A : Type 0} → charge_field ≡ total_field → A
fields_differ h = codes_differ (ap first_code h)

-- The two recorded payloads start with different fields.
recorded-TellsApart : TellsApart sample_script one_charge.entities
unfolding strip_provenance same_text codes
recorded-TellsApart e f (Memᴰ.head p) (Memᴰ.head q) h = rw (p, q) refl
recorded-TellsApart e f (Memᴰ.tail (Memᴰ.head p)) (Memᴰ.tail (Memᴰ.head q)) h = rw (p, q) refl
recorded-TellsApart e f (Memᴰ.head p) (Memᴰ.tail (Memᴰ.head q)) h =
    let clash : charge_field ≡ total_field = rw (p, q) at h in fields_differ clash
recorded-TellsApart e f (Memᴰ.tail (Memᴰ.head p)) (Memᴰ.head q) h =
    let clash : total_field ≡ charge_field = rw (p, q) at h in fields_differ (sym clash)
recorded-TellsApart e f (Memᴰ.tail (Memᴰ.tail m)) n h = elim m [ ]
recorded-TellsApart e f m (Memᴰ.tail (Memᴰ.tail n)) h = elim n [ ]

evaluate_at_most_one-pass_complete_example :
    (the_charge.contested ≡ false)
    × (has
          (codes "string:" ++ (7 ∷ []))
          (keys_of (attributed sample_script one_charge order_params))
        ≡ true)
    × Distinct (keys_of (attributed sample_script one_charge order_params))
    × (length (attributed sample_script one_charge order_params) ≤ 1)
unfolding is_candidate_worthy value_of same_value same_text is_equivalent in_scope scope_problem
    codes
evaluate_at_most_one-pass_complete_example =
    evaluate_at_most_one-pass_complete sample_script one_charge order_params
      (codes "string:" ++ (7 ∷ [])) the_charge recorded-TellsApart (refl, refl, refl, refl)
      (ap (λ (r : Result). r.verdict) one_charge-passes) (Memᴰ.head refl, refl, (refl, refl), refl)
