-- ===== src/Evidence/Loading/Graph.antt =====
-- packages/evidence/src/generic-invariant-input.ts: the role events, the contested identifiers and the
-- active graph of a run, from the recorded rows.
use rupture_grid.Base.{
  ◌≡◌, refl, Bool, true, false, not, ◌&&◌, ◌||◌, Option, none, some, List, [], ◌∷◌, ◌++◌, Text,
  codes, same_text, has, any, if◌then◌else◌, inl, inr, Bool-cases, &&-eq-true,
}
use rupture_grid.Evidence.Values.{Payload}
use rupture_grid.Evidence.Graph.{RelationBasis, identity_direct, identity_chain, Relationship}
use rupture_grid.Evidence.Input.{Entity}
use rupture_grid.Evidence.Candidates.{events_of}

-- A recorded event; its query is the one of its provenance, if that is a text.
pub record EventRow : Type 0 where
  pub id : Text
  pub event_type : Text
  pub payload : Payload
  pub provenance_query : Option Text
  pub source_observation_hashes : List Text
  pub normalizer_name : Text

-- A recorded derivation gap with the identifiers that it names.
pub record DiagnosticRow : Type 0 where
  pub gap_kind : Text
  pub affected_event_ids : List Text

-- A recorded relationship with the events of the paths that its evidence names.
pub record RelationshipRow : Type 0 where
  pub relationship : Relationship
  pub paths : List (List Text)

pub record LoadedEvidence : Type 0 where
  pub entities : List Entity
  pub contested_event_ids : List Text
  pub active_relationships : List Relationship

abbrev or_blank : Option Text → Text
or_blank none = []
or_blank (some t) = t

abbrev entity_of : EventRow → Entity
entity_of row = record {
  event_id = row.id;
  role_id = row.event_type;
  query_id = or_blank row.provenance_query;
  payload = row.payload;
  source_observation_hashes = row.source_observation_hashes;
  contested = false;
}

-- The events of the declared roles that the generic normalizer made.
unfoldable pub load_events : List Text → List EventRow → List Entity
load_events roles [] = []
load_events roles (row ∷ rows) =
    let rest = load_events roles rows in
    if has row.event_type roles
      && same_text row.normalizer_name (codes "generic-inspection-normalizer")
    then entity_of row ∷ rest
    else rest

unfoldable pub load_contested : List DiagnosticRow → List Text
load_contested [] = []
load_contested (row ∷ rows) =
    let rest = load_contested rows in
    if same_text row.gap_kind (codes "contested-identity")
    then row.affected_event_ids ++ rest
    else rest

abbrev pub ids_of : List Entity → List Text
ids_of [] = []
ids_of (e ∷ es) = e.event_id ∷ ids_of es

-- A chain is active if no path of it goes through a contested event and its kind is the platform's.
abbrev is_open : List Text → List (List Text) → Text → RelationBasis → Bool
is_open contested paths kind identity_direct = true
is_open contested paths kind identity_chain =
    not (any (any (λ id. has id contested)) paths)
    && same_text kind (codes "identity-chain-reachability")

abbrev is_active : List Text → List Text → RelationshipRow → Bool
is_active ids contested row =
    (has row.relationship.from_event_id ids && has row.relationship.to_event_id ids)
    && (not (
          has row.relationship.from_event_id contested
          || has row.relationship.to_event_id contested)
        && is_open contested row.paths row.relationship.relation_kind row.relationship.basis)

unfoldable pub load_active : List Text → List Text → List RelationshipRow → List Relationship
load_active ids contested [] = []
load_active ids contested (row ∷ rows) =
    let rest = load_active ids contested rows in
    if is_active ids contested row then row.relationship ∷ rest else rest

-- `loadGenericEventsAndActiveGraph`.
unfoldable pub load_evidence :
    List Text → List EventRow → List DiagnosticRow → List RelationshipRow → LoadedEvidence
load_evidence roles events diagnostics relationships =
    let entities = load_events roles events in
    let contested = load_contested diagnostics in
    record {
      entities = entities;
      contested_event_ids = contested;
      active_relationships = load_active (ids_of entities) contested relationships;
    }

events_of-load_events :
    (role : Text) (roles : List Text) (rows : List EventRow)
    → events_of role true (load_events roles rows) ≡ []
unfolding events_of load_events
events_of-load_events role roles [] = refl
events_of-load_events role roles (row ∷ rows) =
    let rest = events_of-load_events role roles rows in
    elim (Bool-cases (
      has row.event_type roles
      && same_text row.normalizer_name (codes "generic-inspection-normalizer"))) [
        | inr e ↦ rw e rest
        | inl e ↦ elim (Bool-cases (same_text row.event_type role)) [
          | inl d ↦ rw (e, d) rest
          | inr d ↦ rw (e, d) rest
        ]
      ]

-- The ends of a relationship are loaded events, and neither is contested.
abbrev pub AreActive : List Text → List Text → List Relationship → Type 0
AreActive ids contested [] = Unit
AreActive ids contested (r ∷ rs) =
    ((has r.from_event_id ids ≡ true)
      × (has r.to_event_id ids ≡ true)
      × (has r.from_event_id contested ≡ false)
      × (has r.to_event_id contested ≡ false))
    × AreActive ids contested rs

neither : (a b : Bool) → not (a || b) ≡ true → (a ≡ false) × (b ≡ false)
neither false false h = (refl, refl)
neither true b h = cc
neither false true h = cc

load_active-AreActive :
    (ids contested : List Text) (rows : List RelationshipRow)
    → AreActive ids contested (load_active ids contested rows)
unfolding load_active
load_active-AreActive ids contested [] = tt
load_active-AreActive ids contested (row ∷ rows) =
    let rest = load_active-AreActive ids contested rows in
    elim (Bool-cases (is_active ids contested row)) [
      | inr e ↦ rw e rest
      | inl e ↦
          let (ends, clean) = &&-eq-true _ _ e in
          let (a, b) = &&-eq-true _ _ ends in
          let (c, d) = neither _ _ (&&-eq-true _ _ clean).0 in rw e ((a, b, c, d), rest)
    ]

-- Whatever the recorded gaps say, no loaded event is marked as contested, so no role has contested
-- events; but every loaded relationship joins two loaded events that no gap contests.
pub load_evidence-AreActive :
    (roles : List Text) (events : List EventRow) (diagnostics : List DiagnosticRow)
    (relationships : List RelationshipRow) (role : Text)
    → (events_of role true (load_evidence roles events diagnostics relationships).entities ≡ [])
      × AreActive
          (ids_of (load_evidence roles events diagnostics relationships).entities)
          (load_evidence roles events diagnostics relationships).contested_event_ids
          (load_evidence roles events diagnostics relationships).active_relationships
unfolding load_evidence
load_evidence-AreActive roles events diagnostics relationships role =
    (events_of-load_events role roles events, load_active-AreActive _ _ relationships)
