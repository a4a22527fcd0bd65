-- ===== src/Evidence/Graph.antt =====
-- packages/evidence/src/generic-invariant-evaluate.ts: the active graph and the search for a path
-- in it.
pub mod Entries
pub mod Adjacent
pub mod Paths
pub mod Covers
pub mod Reach
use rupture_grid.Base.{
  ℕ, zero, suc, ◌+◌, Bool, true, false, Option, none, some, List, [], ◌∷◌, ◌++◌, Text, same_text,
  if◌then◌else◌, has, sort_by, length,
}

pub data RelationBasis : Type 0 where
  identity_direct identity_chain : RelationBasis

-- `GenericActiveRelationship`.
pub record Relationship : Type 0 where
  pub relationship_id : Text
  pub from_event_id : Text
  pub to_event_id : Text
  pub relation_kind : Text
  pub basis : RelationBasis

-- A `Map` with texts as keys is its entries in the order of insertion.
module _ {A : Type 0} where
  unfoldable pub lookup : Text → List (Text × A) → Option A
  lookup k [] = none
  lookup k ((j, a) ∷ entries) = if same_text j k then some a else lookup k entries

  -- `map.set(k, change(map.get(k) ?? fresh))`.
  unfoldable pub upsert : Text → A → (A → A) → List (Text × A) → List (Text × A)
  upsert k fresh change [] = (k, change fresh) ∷ []
  upsert k fresh change ((j, a) ∷ entries) =
      let rest = upsert k fresh change entries in
      if same_text j k then (j, change a) ∷ entries else (j, a) ∷ rest

-- The targets of an event, each with the relationships that lead to it.
abbrev pub Targets : Type 0
Targets = List (Text × List Relationship)

abbrev pub Adjacency : Type 0
Adjacency = List (Text × Targets)

abbrev pub add_relationship : Relationship → Adjacency → Adjacency
add_relationship r =
    upsert r.from_event_id [] (upsert r.to_event_id [] (λ (rs : List Relationship). rs ++ (r ∷ [])))

abbrev pub add_all : List Relationship → Adjacency → Adjacency
add_all [] adjacency = adjacency
add_all (r ∷ rs) adjacency = add_all rs (add_relationship r adjacency)

unfoldable pub adjacency_of : List Relationship → Adjacency
adjacency_of rs = add_all rs []

abbrev pub entry_key : Text × List Relationship → Text
entry_key entry = entry.0

-- The neighbours of an event, sorted; none if the event has no entry.
abbrev pub sorted_targets : Option Targets → Targets
sorted_targets none = []
sorted_targets (some targets) = sort_by entry_key targets

unfoldable pub neighbors : Adjacency → Text → Targets
neighbors adjacency event = sorted_targets (lookup event adjacency)

-- An entry of the queue: an event and the path to it.
abbrev pub Item : Type 0
Item = Text × List Relationship

pub data Scanned : Type 0 where
  found : List Relationship → Scanned
  going : List Item → List Text → Scanned

-- The loop over the neighbours of one event.
unfoldable pub scan : Text → List Relationship → Targets → List Item → List Text → Scanned
scan target path [] queue visited = going queue visited
scan target path ((next, []) ∷ entries) queue visited = scan target path entries queue visited
scan target path ((next, rel ∷ rels) ∷ entries) queue visited = elim (has next visited) [
  | true ↦ scan target path entries queue visited
  | false ↦ elim (same_text next target) [
    | true ↦ found (path ++ (rel ∷ []))
    | false ↦ scan target path entries (queue ++ ((next, path ++ (rel ∷ [])) ∷ [])) (next ∷ visited)
  ]
]

-- The loop over the queue, on fuel.
unfoldable pub search : Adjacency → Text → ℕ → List Item → List Text → Option (List Relationship)
search adjacency target zero queue visited = none
search adjacency target (suc fuel) [] visited = none
search adjacency target (suc fuel) ((event, path) ∷ queue) visited =
    elim (scan target path (neighbors adjacency event) queue visited) [
      | found result ↦ some result
      | going next_queue next_visited ↦ search adjacency target fuel next_queue next_visited
    ]

-- `attributable`. Every event but the first enters the queue by a relationship of its own, so the
-- number of relationships bounds the rounds.
unfoldable pub attributable : List Relationship → Text → Text → Option (List Relationship)
attributable rels from_event to_event =
    if same_text from_event to_event
    then some []
    else search (adjacency_of rels) to_event (suc (length rels)) ((from_event, []) ∷ [])
        (from_event ∷ [])
