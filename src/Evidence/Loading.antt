-- ===== src/Evidence/Loading.antt =====
-- packages/evidence/src/generic-invariant-input.ts: the captures and the subjects that the evaluators
-- take, from the recorded observations and events.
pub mod Laws
pub mod Subjects
pub mod Graph
use rupture_grid.Base.{
  ℕ, Bool, true, false, not, ◌&&◌, Option, none, some, List, [], ◌∷◌, ◌++◌, Text, codes, same_text,
  leb, ltb, if◌then◌else◌, sort_by,
}
use rupture_grid.Evidence.Values.{is_non_provable_value}
use rupture_grid.Evidence.Graph.{lookup}
use rupture_grid.Evidence.Input.{
  Script, Entity, CaptureStatus, Subject, Instance, at_most_one_accepted_effect,
  resource_conservation, unknown_kind,
}
use rupture_grid.Evidence.Candidates.{Group, keyed, grouped, group_key}

-- What the loader reads of a recorded inspection; a field of another type is absent.
pub record CaptureRow : Type 0 where
  pub query_id : Option Text
  pub role_id : Text
  pub is_observed : Bool
  pub http_status : Option ℕ
  pub observed_truncated : Bool
  pub row_truncated : Bool
  pub shape_valid : Bool
  pub reason_code : Option Text

abbrev pub is_2xx : Option ℕ → Bool
is_2xx none = false
is_2xx (some status) = leb 200 status && ltb status 300

abbrev pub is_valid : CaptureRow → Bool
is_valid row =
    row.is_observed
    && (is_2xx row.http_status
        && ((not row.observed_truncated && not row.row_truncated) && row.shape_valid))

abbrev reason_of : Option Text → Bool → Text
reason_of (some reason) valid = reason
reason_of none true = codes "VALID"
reason_of none false = codes "CAPTURE_INVALID_OR_ABSENT"

abbrev pub status_of : Text → CaptureRow → CaptureStatus
status_of query row = record {
  query_id = query;
  role_id = row.role_id;
  valid = is_valid row;
  captured = true;
  reason_code = reason_of row.reason_code (is_valid row);
}

-- The first capture of a query keeps its place.
abbrev pub add_capture :
    Text
    → CaptureRow
    → Option CaptureStatus
    → List (Text × CaptureStatus)
    → List (Text × CaptureStatus)
add_capture query row none known = known ++ ((query, status_of query row) ∷ [])
add_capture query row (some status) known = known

abbrev pub add_row :
    CaptureRow → Option Text → List (Text × CaptureStatus) → List (Text × CaptureStatus)
add_row row none known = known
add_row row (some query) known = add_capture query row (lookup query known) known

abbrev pub add_rows : List CaptureRow → List (Text × CaptureStatus) → List (Text × CaptureStatus)
add_rows [] known = known
add_rows (row ∷ rows) known = add_rows rows (add_row row row.query_id known)

-- `loadPersistedCaptureStatuses`, from the rows in the order of the chain.
unfoldable pub load_captures : List CaptureRow → List (Text × CaptureStatus)
load_captures rows = add_rows rows []

-- A query that the policy declares.
pub record Inspection : Type 0 where
  pub query_id : Text
  pub role_id : Text

abbrev pub absent_status : Inspection → CaptureStatus
absent_status i = record {
  query_id = i.query_id;
  role_id = i.role_id;
  valid = false;
  captured = false;
  reason_code = codes "NO_CAPTURE_PRESENT";
}

abbrev pub add_absent :
    Inspection → Option CaptureStatus → List (Text × CaptureStatus) → List (Text × CaptureStatus)
add_absent i (some status) known = known
add_absent i none known = known ++ ((i.query_id, absent_status i) ∷ [])

abbrev pub add_all_absent :
    List Inspection → List (Text × CaptureStatus) → List (Text × CaptureStatus)
add_all_absent [] known = known
add_all_absent (i ∷ is) known = add_all_absent is (add_absent i (lookup i.query_id known) known)

-- `captures` of `buildGenericEvaluationInput`: the loaded statuses, and an absent one for every
-- declared query that was never captured.
unfoldable pub build_captures : List Inspection → List CaptureRow → List (Text × CaptureStatus)
build_captures declared rows = add_all_absent declared (load_captures rows)

abbrev push_query : Text → Text → List (Text × List Text) → List (Text × List Text)
push_query role query [] = (role, query ∷ []) ∷ []
push_query role query ((r, queries) ∷ rest) =
    let later = push_query role query rest in
    if same_text r role then (r, queries ++ (query ∷ [])) ∷ rest else (r, queries) ∷ later

abbrev push_queries : List Inspection → List (Text × List Text) → List (Text × List Text)
push_queries [] known = known
push_queries (i ∷ is) known = push_queries is (push_query i.role_id i.query_id known)

-- Its `queriesByRole`.
unfoldable pub build_queries_by_role : List Inspection → List (Text × List Text)
build_queries_by_role declared = push_queries declared []

-- The events that can be a subject: those of the subject role, or all but the consumption effects.
abbrev pub is_eligible : Instance → Entity → Bool
is_eligible (at_most_one_accepted_effect params) e = same_text e.role_id params.subject_role
is_eligible (resource_conservation params) e =
    not (same_text e.role_id params.consumption_effect_role)
is_eligible (unknown_kind kind) e = true

abbrev pub identity_field : Instance → Text
identity_field (at_most_one_accepted_effect params) = params.subject_identity_field
identity_field (resource_conservation params) = params.resource_identity_field
identity_field (unknown_kind kind) = []

unfoldable pub eligible : Instance → List Entity → List Entity
eligible instance_of [] = []
eligible instance_of (e ∷ es) =
    let rest = eligible instance_of es in if is_eligible instance_of e then e ∷ rest else rest

abbrev pub event_key : Entity → Text
event_key e = e.event_id

abbrev pub event_ids : List Entity → List Text
event_ids [] = []
event_ids (e ∷ es) = e.event_id ∷ event_ids es

-- The text behind a prefix, if there is one.
abbrev after_prefix : Text → Text → Option Text
after_prefix [] t = some t
after_prefix (p ∷ ps) [] = none
after_prefix (p ∷ ps) (c ∷ cs) =
    let rest = after_prefix ps cs in if leb p c && leb c p then rest else none

abbrev shortened : Text → Option Text → Text
shortened key none = key
shortened key (some rest) = rest

-- The subject of a group, its events in the order of their identifiers.
abbrev pub subject_of : Text → List Entity → Option Subject
subject_of key [] = none
subject_of key (first ∷ rest) = some (record {
  subject_key = shortened key (after_prefix (codes "string:") key);
  subject_event_ids = event_ids (first ∷ rest);
  subject_payload = first.payload;
})

abbrev pub push_subject : Option Subject → List Subject → List Subject
push_subject none subjects = subjects
push_subject (some s) subjects = s ∷ subjects

abbrev pub subjects_of_groups : List Group → List Subject
subjects_of_groups [] = []
subjects_of_groups ((key, group) ∷ groups) =
    push_subject (subject_of key (sort_by event_key group)) (subjects_of_groups groups)

-- `loadGenericEvaluationSubjects`.
unfoldable pub load_subjects : Script → Instance → List Entity → List Subject
load_subjects script instance_of entities = subjects_of_groups (
    sort_by group_key
      (grouped (keyed script (identity_field instance_of) (eligible instance_of entities))))
