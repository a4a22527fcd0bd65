-- ===== src/Evidence/Candidates.antt =====
-- packages/evidence/src/generic-invariant-evaluate.ts: the distinct effects of a role, grouped by
-- their identity, the contested identities, and the match of an effect with the subject.
pub mod Members
pub mod Covered
pub mod Alike
pub mod Distinct
use rupture_grid.Base.{
  Bool, true, false, not, ◌&&◌, ◌||◌, Option, none, some, List, [], ◌∷◌, ◌++◌, Text, codes,
  same_text, has, any, if◌then◌else◌, sort_by,
}
use rupture_grid.Evidence.Values.{
  Value, Payload, ScopeBinding, Surface, value_of, same_value, is_non_provable_value, type_of,
  strip_provenance, coherent_scope,
}
use rupture_grid.Evidence.Input.{Script, Entity, AcceptedMatch}
use rupture_grid.Evidence.Graph.{Relationship, upsert, lookup, attributable}

-- An effect under the key of its identity.
abbrev pub Candidate : Type 0
Candidate = Text × Entity

abbrev pub Group : Type 0
Group = Text × List Entity

-- `${typeof identity}:${String(identity)}`.
abbrev pub identity_key : Script → Value → Text
identity_key script v = type_of v ++ (codes ":" ++ script.string_of v)

abbrev pub declared_value : Entity → Text → Value
declared_value e field = value_of field e.payload

-- The events of a role that are contested, or that are not.
unfoldable pub events_of : Text → Bool → List Entity → List Entity
events_of role contested [] = []
events_of role contested (e ∷ es) =
    let rest = events_of role contested es in
    if same_text e.role_id role && (if contested then e.contested else not e.contested)
    then e ∷ rest
    else rest

module _ (script : Script) (field : Text) where
  -- The events with a provable identity, each with its key.
  unfoldable pub keyed : List Entity → List Candidate
  keyed [] = []
  keyed (e ∷ es) =
      let rest = keyed es in
      let identity = declared_value e field in
      if is_non_provable_value identity then rest else (identity_key script identity, e) ∷ rest

  abbrev pub lacks_identity : List Entity → Bool
  lacks_identity = any (λ e. is_non_provable_value (declared_value e field))

-- The groups of the events with one key, in the order of the first of each.
abbrev pub add_to_groups : List Candidate → List Group → List Group
add_to_groups [] groups = groups
add_to_groups ((k, e) ∷ rest) groups =
    add_to_groups rest (upsert k [] (λ (es : List Entity). es ++ (e ∷ [])) groups)

abbrev pub group_key : Group → Text
group_key g = g.0

unfoldable pub grouped : List Candidate → List Group
grouped candidates = add_to_groups candidates []

-- An event of the group differs from the first one in its declared payload.
unfoldable pub is_conflicting : Script → List Entity → Bool
is_conflicting script [] = false
is_conflicting script (first ∷ rest) =
    any
      (λ e. not (
        same_text (script.stringify (strip_provenance e.payload))
          (script.stringify (strip_provenance first.payload))))
      rest

-- A group that counts: its events agree, and the derivation did not contest its identity.
abbrev pub is_settled : Script → List Text → Group → Bool
is_settled script contested (k, es) = not (is_conflicting script es) && not (has k contested)

-- The first event of every settled group.
abbrev pub firsts_of : Script → List Text → List Group → List Candidate
firsts_of script contested [] = []
firsts_of script contested ((k, []) ∷ groups) = firsts_of script contested groups
firsts_of script contested ((k, e ∷ es) ∷ groups) =
    let rest = firsts_of script contested groups in
    if is_settled script contested (k, e ∷ es) then (k, e) ∷ rest else rest

unfoldable pub distinct_candidates : Script → List Text → List Group → List Candidate
distinct_candidates script contested groups = firsts_of script contested (sort_by group_key groups)

abbrev pub keys_of : {A : Type 0} → List (Text × A) → List Text
keys_of [] = []
keys_of ((k, a) ∷ rest) = k ∷ keys_of rest

abbrev pub unsettled_keys : Script → List Text → List Group → List Text
unsettled_keys script contested [] = []
unsettled_keys script contested ((k, es) ∷ groups) =
    let rest = unsettled_keys script contested groups in
    if is_settled script contested (k, es) then rest else k ∷ rest

-- The contested keys of which no group was formed.
abbrev pub keys_without_group : List Group → List Text → List Text
keys_without_group groups [] = []
keys_without_group groups (k ∷ ks) =
    let rest = keys_without_group groups ks in if has k (keys_of groups) then rest else k ∷ rest

-- The identities that are contested, by their payloads or by the derivation.
unfoldable pub contested_identities : Script → List Text → List Group → List Text
contested_identities script contested groups =
    unsettled_keys script contested (sort_by group_key groups)
    ++ keys_without_group groups contested

abbrev pub is_accepted : AcceptedMatch → Entity → Bool
is_accepted match_with e = same_value (declared_value e match_with.field) match_with.value

-- The effect has the subject's value, a provable one, in every field.
unfoldable pub is_equivalent : List Text → Payload → Entity → Bool
is_equivalent [] subject e = true
is_equivalent (field ∷ fields) subject e =
    let value = declared_value e field in
    (not (is_non_provable_value value) && same_value value (value_of field subject))
    && is_equivalent fields subject e

unfoldable pub in_scope : Text → Payload → ScopeBinding → Entity → Bool
in_scope surface subject scope e =
    coherent_scope
      (record { name = codes "subject"; payload = subject }
        ∷ (record { name = surface; payload = e.payload } ∷ []))
      scope

abbrev pub is_found : Option (List Relationship) → Bool
is_found none = false
is_found (some path) = true

-- Some event of the subject leads to the event.
unfoldable pub is_attributed : List Relationship → List Text → Entity → Bool
is_attributed rels subject_events e =
    any (λ s. is_found (attributable rels s e.event_id)) subject_events

-- The members that pass a test.
module _ {A : Type 0} where
  unfoldable pub keep : (A → Bool) → List A → List A
  keep p [] = []
  keep p (x ∷ xs) = let rest = keep p xs in if p x then x ∷ rest else rest
