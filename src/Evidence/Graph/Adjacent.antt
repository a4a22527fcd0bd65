-- ===== src/Evidence/Graph/Adjacent.antt =====
-- The adjacency maps hold the active relationships, and nothing else.
use mathlib.Core.List.{Memᴰ}
use rupture_grid.Base.{
  ◌≡◌, refl, ◌⊎◌, inl, inr, ap, false, Option, none, some, List, [], ◌∷◌, ◌++◌, Text, same_text,
  same_text-eq, Bool-cases, sort_by-member, member-sort_by,
}
use rupture_grid.Evidence.Graph.Entries.{
  or_else, lookup-upsert_same, lookup-upsert_other, upsert-member, upsert-new, upsert-kept,
}
use rupture_grid.Evidence.Graph.{
  Relationship, lookup, upsert, Targets, Adjacency, add_relationship, add_all, adjacency_of,
  entry_key, sorted_targets, neighbors,
}

-- The targets of an event, unsorted.
abbrev targets_of : Adjacency → Text → Targets
targets_of adjacency event = or_else [] (lookup event adjacency)

abbrev push : Relationship → List Relationship → List Relationship
push r rs = rs ++ (r ∷ [])

push-member :
    (r q : Relationship) (rs : List Relationship) → Memᴰ q (push r rs) → (q ≡ r) ⊎ Memᴰ q rs
push-member r q [] (Memᴰ.head e) = inl e
push-member r q [] (Memᴰ.tail t) = elim t [ ]
push-member r q (s ∷ rs) (Memᴰ.head e) = inr (Memᴰ.head e)
push-member r q (s ∷ rs) (Memᴰ.tail t) = elim (push-member r q rs t) [
  | inl e ↦ inl e
  | inr m ↦ inr (Memᴰ.tail m)
]

push-cons :
    (r : Relationship) (rs : List Relationship)
    → (q : Relationship) × (qs : List Relationship) × (push r rs ≡ (q ∷ qs))
push-cons r [] = (r, [], refl)
push-cons r (s ∷ rs) = (s, push r rs, refl)

targets_of-same :
    (r : Relationship) (m : Adjacency)
    → targets_of (add_relationship r m) r.from_event_id
      ≡ upsert r.to_event_id [] (push r) (targets_of m r.from_event_id)
targets_of-same r m =
    rw (lookup-upsert_same r.from_event_id [] (upsert r.to_event_id [] (push r)) m) refl

targets_of-other :
    (r : Relationship) (m : Adjacency) (event : Text)
    → same_text r.from_event_id event ≡ false
    → targets_of (add_relationship r m) event ≡ targets_of m event
targets_of-other r m event h =
    rw (lookup-upsert_other r.from_event_id [] (upsert r.to_event_id [] (push r)) event m h) refl

-- Every relationship that the maps hold is one of `rels`, at its place.
abbrev Sound : List Relationship → Adjacency → Type 0
Sound rels m =
    (event next : Text) (rs : List Relationship) (q : Relationship)
    → Memᴰ (next, rs) (targets_of m event)
    → Memᴰ q rs
    → Memᴰ q rels × (q.from_event_id ≡ event) × (q.to_event_id ≡ next)

-- The maps hold a relationship of the same ends, first among its equals.
abbrev Held : Relationship → Adjacency → Type 0
Held r m =
    (q : Relationship) × (qs : List Relationship) × Memᴰ (r.to_event_id, q ∷ qs)
      (targets_of m r.from_event_id)

Sound-add :
    (rels : List Relationship) (r : Relationship) (m : Adjacency)
    → Memᴰ r rels
    → Sound rels m
    → Sound rels (add_relationship r m)
Sound-add rels r m at sound event next rs q t u =
    elim (Bool-cases (same_text r.from_event_id event)) [
      | inr e ↦ sound event next rs q (rw (targets_of-other r m event e) at t) u
      | inl e ↦
          let here : r.from_event_id ≡ event = same_text-eq _ _ e in
          elim (upsert-member r.to_event_id [] (push r) (targets_of m event) (next, rs)
            (rw (← here) (rw (targets_of-same r m) at (rw (← here) at t)))) [
              | inl old ↦ sound event next rs q old u
              | inr (b, p, old) ↦
                  let x : next ≡ r.to_event_id = ap (λ (z : Text × List Relationship). z.0) p in
                  let y : rs ≡ push r b = ap (λ (z : Text × List Relationship). z.1) p in
                  elim (push-member r q b (rw y at u)) [
                    | inl s ↦ (rw s at, rw s here, rw (s, x) refl)
                    | inr w ↦ elim old [
                      | inl nil ↦ elim (rw nil at w) [ ]
                      | inr v ↦
                          let (g, h, i) = sound event r.to_event_id b q v w in
                          (g, h, rw (i, x) refl)
                    ]
                  ]
            ]
    ]

Held-new : (r : Relationship) (m : Adjacency) → Held r (add_relationship r m)
Held-new r m =
    let (b, t) = upsert-new r.to_event_id [] (push r) (targets_of m r.from_event_id) in
    let (q, qs, e) = push-cons r b in (q, qs, rw (targets_of-same r m, ← e) t)

Held-add : (r s : Relationship) (m : Adjacency) → Held r m → Held r (add_relationship s m)
Held-add r s m (q, qs, t) = elim (Bool-cases (same_text s.from_event_id r.from_event_id)) [
  | inr e ↦ (q, qs, rw (targets_of-other s m r.from_event_id e) t)
  | inl e ↦
      let here : s.from_event_id ≡ r.from_event_id = same_text-eq _ _ e in
      elim (upsert-kept s.to_event_id [] (push s) (targets_of m s.from_event_id) r.to_event_id
        (q ∷ qs) (rw here t)) [
          | inl u ↦ (q, qs, rw (← here, targets_of-same s m) u)
          | inr u ↦ (q, qs ++ (s ∷ []), rw (← here, targets_of-same s m) u)
        ]
]

Sound-all :
    (rels rs : List Relationship) (m : Adjacency)
    → ((r : Relationship) → Memᴰ r rs → Memᴰ r rels)
    → Sound rels m
    → Sound rels (add_all rs m)
Sound-all rels [] m within sound = sound
Sound-all rels (r ∷ rs) m within sound =
    Sound-all rels rs (add_relationship r m) (λ q t. within q (Memᴰ.tail t))
      (Sound-add rels r m (within r (Memᴰ.head refl)) sound)

Held-kept :
    (r : Relationship) (rs : List Relationship) (m : Adjacency) → Held r m → Held r (add_all rs m)
Held-kept r [] m h = h
Held-kept r (s ∷ rs) m h = Held-kept r rs (add_relationship s m) (Held-add r s m h)

Held-all :
    (r : Relationship) (rs : List Relationship) (m : Adjacency) → Memᴰ r rs → Held r (add_all rs m)
Held-all r [] m t = elim t [ ]
Held-all r (s ∷ rs) m (Memᴰ.head e) = rw e (Held-kept s rs (add_relationship s m) (Held-new s m))
Held-all r (s ∷ rs) m (Memᴰ.tail t) = Held-all r rs (add_relationship s m) t

sorted_targets-member :
    (o : Option Targets) (z : Text × List Relationship)
    → (Memᴰ z (sorted_targets o) → Memᴰ z (or_else [] o))
      × (Memᴰ z (or_else [] o) → Memᴰ z (sorted_targets o))
sorted_targets-member none z = (λ t. t, λ t. t)
sorted_targets-member (some ts) z = (sort_by-member entry_key ts z, member-sort_by entry_key ts z)

-- A neighbour's relationships are active ones between the two events.
pub neighbors_sound :
    (rels : List Relationship) (event next : Text) (rs : List Relationship) (q : Relationship)
    → Memᴰ (next, rs) (neighbors (adjacency_of rels) event)
    → Memᴰ q rs
    → Memᴰ q rels × (q.from_event_id ≡ event) × (q.to_event_id ≡ next)
unfolding adjacency_of lookup neighbors
neighbors_sound rels event next rs q t u =
    Sound-all rels rels [] (λ r v. v) (λ a b c d v w. elim v [ ]) event next rs q
      ((sorted_targets-member (lookup event (adjacency_of rels)) (next, rs)).0 t) u

-- The target of an active relationship is a neighbour, with a relationship to go there by.
pub neighbors_complete :
    (rels : List Relationship) (r : Relationship)
    → Memᴰ r rels
    → (q : Relationship) × (qs : List Relationship) × Memᴰ
        (r.to_event_id, q ∷ qs)
        (neighbors (adjacency_of rels) r.from_event_id)
unfolding adjacency_of neighbors
neighbors_complete rels r t =
    let (q, qs, u) = Held-all r rels [] t in
    (
      q,
      qs,
      (sorted_targets-member (lookup r.from_event_id (adjacency_of rels)) (r.to_event_id, q ∷ qs)).1
          u,
    )
