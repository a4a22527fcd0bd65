-- ===== src/Evidence/Graph/Reach.antt =====
-- The search finds a path if there is one: when the queue runs out, the visited events are closed
-- under the active relationships; and the fuel is enough for the queue to run out.
use mathlib.Core.List.{Memᴰ}
use rupture_grid.Base.{
  ◌≡◌, refl, ◌⊎◌, inl, inr, ap, false, none, some, List, [], ◌∷◌, Text, ℕ, zero, suc, ◌+◌, ◌≤◌,
  same_text, same_text_refl, same_text_sym, Bool-cases, Option-cases, has, has-Memᴰ, ◌↔◌, length,
  arith,
}
use rupture_grid.Evidence.Graph.{
  Relationship, adjacency_of, neighbors, Item, going, scan, search, attributable,
}
use rupture_grid.Evidence.Graph.Covers.{In, Queued, unseen, Covers, Ends, scan-Covers}
use rupture_grid.Evidence.Graph.Adjacent.{neighbors_sound, neighbors_complete}
use rupture_grid.Evidence.Graph.Paths.{PathOf, Scanned-cases, attributable_sound}

module _ (rels : List Relationship) (target : Text) where
  -- What holds of an event whose neighbours have been visited.
  abbrev Done : Text → List Text → Type 0
  Done x visited = (r : Relationship) → Memᴰ r rels → r.from_event_id ≡ x → In r.to_event_id visited

  abbrev Closed : List Text → Type 0
  Closed visited = (x : Text) → In x visited → Done x visited

  abbrev Pending : List Item → List Text → Type 0
  Pending queue visited = (x : Text) → In x visited → Queued x queue ⊎ Done x visited

  Pending-next :
      (event : Text) (path : List Relationship) (queue q : List Item) (visited v : List Text)
      → Covers rels target (neighbors (adjacency_of rels) event) queue visited (going q v)
      → Pending ((event, path) ∷ queue) visited
      → Pending q v
  Pending-next event path queue q visited v (a, b, c, d, f, g) pending x i = elim (d x i) [
    | inr k ↦ inl k
    | inl k ↦ elim (pending x k) [
      | inr done ↦ inr (λ r m e. b r.to_event_id (done r m e))
      | inl (p, Memᴰ.tail m) ↦ inl (f x (p, m))
      | inl (p, Memᴰ.head m) ↦ inr (λ r n e.
          let here : x ≡ event = ap (λ (z : Item). z.0) m in
          let (s, qs, t) = neighbors_complete rels r n in c r.to_event_id s qs (rw (← here, ← e) t))
    ]
  ]

  -- If the search ends without a path, the visited events are closed, and the target is not one.
  search_closes :
      (fuel : ℕ) (queue : List Item) (visited : List Text)
      → has target visited ≡ false
      → Pending queue visited
      → unseen visited rels + length queue ≤ fuel
      → search (adjacency_of rels) target fuel queue visited ≡ none
      → (final : List Text) × ((x : Text) → In x visited → In x final)
        × (has target final ≡ false)
        × Closed final
  unfolding search
  search_closes zero [] visited h pending enough e = (
    visited,
    λ x i. i,
    h,
    λ x i. elim (pending x i) [ inl (p, m) ↦ elim m [ ] | inr done ↦ done ],
  )
  search_closes zero (item ∷ queue) visited h pending enough e = absurd (omega arith)
  search_closes (suc fuel) [] visited h pending enough e = (
    visited,
    λ x i. i,
    h,
    λ x i. elim (pending x i) [ inl (p, m) ↦ elim m [ ] | inr done ↦ done ],
  )
  search_closes (suc fuel) ((event, path) ∷ queue) visited h pending enough e =
      let entries = neighbors (adjacency_of rels) event in
      let ends : Ends rels target entries = λ n q qs m.
        let (a, b, c) = neighbors_sound rels event n (q ∷ qs) q m (Memᴰ.head refl) in (a, c) in
      let covers = scan-Covers rels target path entries queue visited ends h in
      elim (Scanned-cases (scan target path entries queue visited)) [
        | inl (r, s) ↦ let clash : some r ≡ none = rw (search, s) at e in cc
        | inr (q, v, s) ↦
            let c : Covers rels target entries queue visited (going q v) = rw s at covers in
            let less : unseen v rels + length q ≤ fuel = let bound = c.5 in omega arith in
            let (final, within, missed, closed) =
              search_closes fuel q v c.0 (Pending-next event path queue q visited v c pending) less
                (rw (search, s) at e) in
            (final, λ x i. within x (c.1 x i), missed, closed)
      ]

  Closed-path :
      (visited : List Text) (a b : Text) (path : List Relationship)
      → Closed visited
      → In a visited
      → PathOf rels a path b
      → In b visited
  Closed-path visited a b [] closed i e = rw (← e) i
  Closed-path visited a b (r ∷ path) closed i (m, e, rest) =
      Closed-path visited r.to_event_id b path closed (closed a i r m e) rest

unseen-length : (visited : List Text) (rs : List Relationship) → unseen visited rs ≤ length rs
unseen-length visited [] = omega arith
unseen-length visited (r ∷ rs) = ground (arith, unseen-length visited rs)

attributable_complete :
    (rels path : List Relationship) (a b : Text)
    → PathOf rels a path b
    → attributable rels a b ≡ none
    → ⊥
unfolding attributable
attributable_complete rels path a b walk h = elim (Bool-cases (same_text a b)) [
  | inl e ↦ let clash : some [] ≡ none = rw e at h in cc
  | inr e ↦
      let enough : unseen (a ∷ []) rels + 1 ≤ suc (length rels) =
        let bound = unseen-length (a ∷ []) rels in omega arith in
      let apart : has b (a ∷ []) ≡ false = rw (same_text_sym b a, e) refl in
      let (final, within, missed, closed) =
        search_closes rels b (suc (length rels)) ((a, []) ∷ []) (a ∷ []) apart
          (λ x i. elim (has-Memᴰ x (a ∷ []) i) [
            | Memᴰ.head p ↦ inl ([], Memᴰ.head (rw p refl))
            | Memᴰ.tail m ↦ elim m [ ]
          ])
          enough (rw e at h) in
      let start : In a final = within a (rw (same_text_refl a) refl) in
      let reached = Closed-path rels b final a b path closed start walk in cc
]

-- The search over the active graph returns a path exactly if some path of active relationships leads
-- from the first event to the second.
pub attributable_iff :
    (rels : List Relationship) (a b : Text)
    → ((found_path : List Relationship) × (attributable rels a b ≡ some found_path))
      ↔ ((path : List Relationship) × PathOf rels a path b)
attributable_iff rels a b = (
  λ h. (h.0, attributable_sound rels a b h.0 h.1),
  λ h. elim (Option-cases (attributable rels a b)) [
    | inl e ↦ absurd (attributable_complete rels h.0 a b h.1 e)
    | inr (p, e) ↦ (p, e)
  ],
)
