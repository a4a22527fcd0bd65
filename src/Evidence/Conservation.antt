-- ===== src/Evidence/Conservation.antt =====
-- packages/evidence/src/generic-invariant-evaluate.ts: the facts that `evaluateResourceConservation`
-- establishes: the baseline, the reservations, the remaining state and the observed total.
pub mod Verdict
pub mod Sums
pub mod Reserved
pub mod Soundness
pub mod Failing
use rupture_grid.Base.{
  ℕ, ◌+◌, Bool, true, false, not, ◌&&◌, ◌||◌, Option, none, some, List, [], ◌∷◌, ◌++◌, Text, codes,
  same_text, any, if◌then◌else◌, length,
}
use rupture_grid.Evidence.Values.{
  ℤ, pos, negsuc, Value, null_value, value_of, same_value, is_non_provable_value, safe_integer,
  Converged, nothing_observed, conflicting, one_value, converge_values,
}
use rupture_grid.Evidence.Input.{
  Script, Entity, ConservationParams, Input, CaptureStatus, capture_invalid, queries_for_role,
  distinct_texts,
}
use rupture_grid.Evidence.Candidates.{
  Candidate, Group, declared_value, events_of, keyed, grouped, distinct_candidates,
  contested_identities, keys_of, is_accepted, in_scope, is_attributed, keep,
}
use rupture_grid.Evidence.Graph.{lookup}
use rupture_grid.Evidence.AtMostOne.{is_nil}

-- An accepted consumption effect and its units.
pub record Reservation : Type 0 where
  pub identity : Text
  pub entity : Entity
  pub units : ℕ

-- What becomes of a distinct consumption effect.
pub data Consumption : Type 0 where
  not_accepted type_invalid negative_units out_of_scope : Consumption
  reserved : ℕ → Consumption

-- A fact of a surface: none observed, a contradiction, or an integer.
pub data Fact : Type 0 where
  unobserved contradicted : Fact
  known : ℤ → Fact

abbrev pub values_of : Text → List Entity → List Value
values_of field [] = []
values_of field (e ∷ es) = declared_value e field ∷ values_of field es

-- A non-negative safe integer.
abbrev pub natural_fact : Option ℤ → Fact
natural_fact (some (pos n)) = known (pos n)
natural_fact o = contradicted

abbrev pub natural_of : Converged → Fact
natural_of nothing_observed = unobserved
natural_of conflicting = contradicted
natural_of (one_value v) = natural_fact (safe_integer v)

abbrev pub natural_known : Fact → Option ℕ
natural_known (known (pos n)) = some n
natural_known f = none

abbrev pub reservation_if : Candidate → Consumption → List Reservation → List Reservation
reservation_if c (reserved n) rest = record { identity = c.0; entity = c.1; units = n } ∷ rest
reservation_if c other rest = rest

-- The effects that contradict the contract, each kind by its identities.
abbrev is_type_invalid : Consumption → Bool
is_type_invalid type_invalid = true
is_type_invalid other = false

abbrev has_negative_units : Consumption → Bool
has_negative_units negative_units = true
has_negative_units other = false

abbrev is_out_of_scope : Consumption → Bool
is_out_of_scope out_of_scope = true
is_out_of_scope other = false

abbrev integer_fact : Option ℤ → Value → Fact
integer_fact (some z) v = known z
integer_fact none null_value = unobserved
integer_fact none v = contradicted

abbrev integer_of : Converged → Fact
integer_of nothing_observed = unobserved
integer_of conflicting = contradicted
integer_of (one_value v) = integer_fact (safe_integer v) v

abbrev integer_known : Fact → Option ℤ
integer_known (known z) = some z
integer_known f = none

module _ (script : Script) (input : Input) (params : ConservationParams) where
  abbrev pub resource_value : Value
  resource_value = value_of params.resource_identity_field input.subject.subject_payload

  abbrev pub is_of_resource : Entity → Bool
  is_of_resource e = same_value (declared_value e params.resource_identity_field) resource_value

  -- The values of a field on the events of a role that are bound to the resource and its scope.
  abbrev pub is_bound : Text → Entity → Bool
  is_bound surface e =
      is_of_resource e && in_scope surface input.subject.subject_payload params.scope_binding e

  abbrev pub is_role_contested : Text → Bool
  is_role_contested role = any (λ e. same_text e.role_id role && e.contested) input.entities

  -- The baseline surface; invalid captures leave it unobserved.
  unfoldable pub baseline_surface : Fact
  baseline_surface =
      if is_nil (capture_invalid input (queries_for_role input params.baseline_role))
      then natural_of (
          converge_values (
            values_of params.baseline_units_field (
              keep (is_bound (codes "baseline"))
                (events_of params.baseline_role false input.entities))))
      else unobserved

  -- `baselineFact`: none if the surface is contested.
  unfoldable pub baseline_fact : Option ℕ
  baseline_fact =
      if is_role_contested params.baseline_role then none else natural_known baseline_surface

  -- The consumption effects of the resource, and those that the derivation contested.
  abbrev pub of_resource : List Candidate → List Candidate
  of_resource = keep (λ c. is_of_resource c.1)

  abbrev pub consumption_groups : List Group
  consumption_groups = grouped (
      of_resource (
        keyed script params.consumption_effect_identity_field
          (events_of params.consumption_effect_role false input.entities)))

  abbrev pub contested_consumption : List Entity
  contested_consumption = events_of params.consumption_effect_role true input.entities

  abbrev pub contested_consumption_keys : List Text
  contested_consumption_keys =
      distinct_texts
        (keys_of (keyed script params.consumption_effect_identity_field contested_consumption))

  unfoldable pub contested_consumption_identities : List Text
  contested_consumption_identities =
      contested_identities script contested_consumption_keys consumption_groups

  abbrev pub judge_units : Entity → Option ℤ → Consumption
  judge_units e none = type_invalid
  judge_units e (some (negsuc n)) = negative_units
  judge_units e (some (pos n)) =
      if in_scope (codes "consumption") input.subject.subject_payload params.scope_binding e
      then reserved n
      else out_of_scope

  unfoldable pub judge_consumption : Entity → Consumption
  judge_consumption e =
      if is_accepted params.consumption_accepted_match e
      then judge_units e (safe_integer (declared_value e params.consumption_units_field))
      else not_accepted

  abbrev pub distinct_consumption : List Candidate
  distinct_consumption = distinct_candidates script contested_consumption_keys consumption_groups

  abbrev pub reservations_of : List Candidate → List Reservation
  reservations_of [] = []
  reservations_of (c ∷ cs) = reservation_if c (judge_consumption c.1) (reservations_of cs)

  unfoldable pub type_invalid_consumption : List Candidate
  type_invalid_consumption =
      keep (λ c. is_type_invalid (judge_consumption c.1)) distinct_consumption

  unfoldable pub negative_consumption : List Candidate
  negative_consumption = keep (λ c. has_negative_units (judge_consumption c.1)) distinct_consumption

  unfoldable pub out_of_scope_consumption : List Candidate
  out_of_scope_consumption =
      keep (λ c. is_out_of_scope (judge_consumption c.1)) distinct_consumption

  abbrev pub is_reached : Reservation → Bool
  is_reached r = is_attributed input.active_relationships input.subject.subject_event_ids r.entity

  unfoldable pub attributed_reservations : List Reservation
  attributed_reservations = keep is_reached (reservations_of distinct_consumption)

  unfoldable pub unattributed_reservations : List Reservation
  unattributed_reservations = keep (λ r. not (is_reached r)) (reservations_of distinct_consumption)

  -- The sum of the units, each addition rounded.
  unfoldable pub sum_units : ℕ → List Reservation → ℕ
  sum_units total [] = total
  sum_units total (r ∷ rs) = sum_units (script.rounded (total + r.units)) rs

  unfoldable pub accepted_reserved_units : ℕ
  accepted_reserved_units = sum_units 0 attributed_reservations

  unfoldable pub is_remaining_authoritative : Bool
  is_remaining_authoritative =
      is_nil (capture_invalid input (queries_for_role input params.remaining_role))

  -- The remaining surface. A single `null` is no contradiction: the code keeps it in a variable that
  -- is null when there is none.
  unfoldable pub remaining_surface : Fact
  remaining_surface = integer_of (
      converge_values (
        values_of params.remaining_units_field (
          keep (is_bound (codes "remaining"))
            (events_of params.remaining_role false input.entities))))

  abbrev pub is_remaining_contested : Bool
  is_remaining_contested = is_role_contested params.remaining_role

  unfoldable pub remaining_fact : Option ℤ
  remaining_fact = if is_remaining_contested then none else integer_known remaining_surface

  -- The summaries that are bound to the resource and its scope.
  abbrev from_summary_query : Option CaptureStatus → Bool
  from_summary_query none = false
  from_summary_query (some status) = same_text status.query_id params.completeness_proof.query_id

  unfoldable pub bound_resource_summaries : List Entity
  bound_resource_summaries =
      keep
        (λ e.
          from_summary_query (lookup e.query_id input.captures)
          && (same_value (declared_value e params.completeness_proof.subject_field) resource_value
              && in_scope (codes "summary") input.subject.subject_payload params.scope_binding e))
        input.entities

  unfoldable pub summary_surface : Fact
  summary_surface =
      natural_of
        (converge_values (values_of params.completeness_proof.total_field bound_resource_summaries))
