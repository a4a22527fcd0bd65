-- ===== src/Evidence/Graph/Covers.antt =====
-- What the loop over the neighbours of an event does to the queue and to the visited events.
use mathlib.Core.List.{Memᴰ}
use rupture_grid.Base.{
  ◌≡◌, refl, ◌⊎◌, inl, inr, ap, true, false, not, List, [], ◌∷◌, ◌++◌, Text, ℕ, suc, ◌+◌, ◌≤◌,
  same_text, same_text_refl, same_text-eq, same_text_sym, Bool-cases, has, length, count_of, arith,
  ||-true,
}
use rupture_grid.Evidence.Graph.{Relationship, Targets, Item, Scanned, found, going, scan}
use rupture_grid.Evidence.Graph.Paths.{scan-seen, scan-target, scan-new}

abbrev pub In : Text → List Text → Type 0
In x visited = has x visited ≡ true

abbrev pub Queued : Text → List Item → Type 0
Queued x queue = (path : List Relationship) × Memᴰ (x, path) queue

-- The active relationships whose target is not visited.
abbrev pub unseen : List Text → List Relationship → ℕ
unseen visited = count_of (λ r. not (has r.to_event_id visited))

unseen_mono :
    (x : Text) (visited : List Text) (rs : List Relationship)
    → unseen (x ∷ visited) rs ≤ unseen visited rs
unseen_mono x visited [] = omega arith
unseen_mono x visited (r ∷ rs) = ground (arith, unseen_mono x visited rs)

unseen-drop :
    (x : Text) (visited : List Text) (rs : List Relationship) (r : Relationship)
    → Memᴰ r rs
    → r.to_event_id ≡ x
    → has x visited ≡ false
    → suc (unseen (x ∷ visited) rs) ≤ unseen visited rs
unseen-drop x visited [] r m e h = elim m [ ]
unseen-drop x visited (q ∷ rs) r (Memᴰ.head d) e h =
    let to_x : q.to_event_id ≡ x = rw (← d) e in
    let less = unseen_mono x visited rs in rw (to_x, h, same_text_refl x) (omega arith)
unseen-drop x visited (q ∷ rs) r (Memᴰ.tail m) e h =
    ground (arith, unseen-drop x visited rs r m e h)

length-snoc : (queue : List Item) (z : Item) → length (queue ++ (z ∷ [])) ≡ suc (length queue)
length-snoc [] z = refl
length-snoc (y ∷ queue) z = rw (length-snoc queue z) refl

Queued-snoc :
    (queue : List Item) (x : Text) (z : Item) → Queued x queue → Queued x (queue ++ (z ∷ []))
Queued-snoc [] x z (p, m) = elim m [ ]
Queued-snoc (y ∷ queue) x z (p, Memᴰ.head e) = (p, Memᴰ.head e)
Queued-snoc (y ∷ queue) x z (p, Memᴰ.tail m) =
    let (q, n) = Queued-snoc queue x z (p, m) in (q, Memᴰ.tail n)

Queued-last :
    (queue : List Item) (x : Text) (p : List Relationship) → Queued x (queue ++ ((x, p) ∷ []))
Queued-last [] x p = (p, Memᴰ.head refl)
Queued-last (y ∷ queue) x p = let (q, m) = Queued-last queue x p in (q, Memᴰ.tail m)

module _ (rels : List Relationship) (target : Text) where
  -- What the loop over the neighbours does to the queue and the visited events.
  abbrev pub Covers : Targets → List Item → List Text → Scanned → Type 0
  Covers entries queue visited (found path) = Unit
  Covers entries queue visited (going next_queue next_visited) =
      (has target next_visited ≡ false)
      × ((x : Text) → In x visited → In x next_visited)
      × ((x : Text) (q : Relationship) (qs : List Relationship)
          → Memᴰ (x, q ∷ qs) entries
          → In x next_visited)
      × ((x : Text) → In x next_visited → In x visited ⊎ Queued x next_queue)
      × ((x : Text) → Queued x queue → Queued x next_queue)
      × (unseen next_visited rels + length next_queue ≤ unseen visited rels + length queue)

  abbrev pub Ends : Targets → Type 0
  Ends entries =
      (next : Text) (r : Relationship) (rs : List Relationship)
      → Memᴰ (next, r ∷ rs) entries
      → Memᴰ r rels × (r.to_event_id ≡ next)

  Covers-skip :
      (e : Text × List Relationship) (entries : Targets) (queue : List Item) (visited : List Text)
      (s : Scanned)
      → ((x : Text) (q : Relationship) (qs : List Relationship) → (x, q ∷ qs) ≡ e → In x visited)
      → Covers entries queue visited s
      → Covers (e ∷ entries) queue visited s
  Covers-skip e entries queue visited (found path) here c = tt
  Covers-skip e entries queue visited (going q v) here (a, b, c, d, f, g) = (
    a,
    b,
    λ x r rs m. elim m [ Memᴰ.head p ↦ b x (here x r rs p) | Memᴰ.tail n ↦ c x r rs n ],
    d,
    f,
    g,
  )

  Covers-push :
      (next : Text) (rs : List Relationship) (entries : Targets) (queue : List Item)
      (visited : List Text) (path : List Relationship) (r : Relationship) (s : Scanned)
      → Memᴰ r rels
      → r.to_event_id ≡ next
      → has next visited ≡ false
      → Covers entries (queue ++ ((next, path) ∷ [])) (next ∷ visited) s
      → Covers ((next, rs) ∷ entries) queue visited s
  Covers-push next rs entries queue visited path r (found p) m t h c = tt
  Covers-push next rs entries queue visited path r (going q v) m t h (a, b, c, d, f, g) =
      let drop = unseen-drop next visited rels r m t h in
      let longer = length-snoc queue (next, path) in
      (
        a,
        λ x i. b x (rw i (||-true (same_text x next))),
        λ x q_first qs n. elim n [
          | Memᴰ.head p ↦
              let same : x ≡ next = ap (λ (z : Text × List Relationship). z.0) p in
              b x (rw (same, same_text_refl next) refl)
          | Memᴰ.tail o ↦ c x q_first qs o
        ],
        λ x i. elim (d x i) [
          | inr k ↦ inr k
          | inl k ↦ elim (Bool-cases (same_text x next)) [
            | inl e ↦
                let same : x ≡ next = same_text-eq x next e in
                inr (rw same (f next (Queued-last queue next path)))
            | inr e ↦ inl (rw e at k)
          ]
        ],
        λ x i. f x (Queued-snoc queue x (next, path) i),
        (let sum : unseen v rels + length q ≤ unseen (next ∷ visited) rels + suc (length queue) =
              rw longer at g in
            omega arith),
      )

  pub scan-Covers :
      (path : List Relationship) (entries : Targets) (queue : List Item) (visited : List Text)
      → Ends entries
      → has target visited ≡ false
      → Covers entries queue visited (scan target path entries queue visited)
  unfolding scan
  scan-Covers path [] queue visited ends h =
      (h, λ x i. i, λ x q qs m. elim m [ ], λ x i. inl i, λ x i. i, omega arith)
  scan-Covers path ((next, []) ∷ entries) queue visited ends h =
      Covers-skip (next, []) entries queue visited (scan target path entries queue visited)
        (λ x q qs e. let clash : (q ∷ qs) ≡ [] = ap (λ (z : Text × List Relationship). z.1) e in cc)
        (scan-Covers path entries queue visited (λ n q qs m. ends n q qs (Memᴰ.tail m)) h)
  scan-Covers path ((next, r ∷ rs) ∷ entries) queue visited ends h =
      let later : Ends entries = λ n q qs m. ends n q qs (Memᴰ.tail m) in
      let (m, t) = ends next r rs (Memᴰ.head refl) in
      let longer = path ++ (r ∷ []) in
      elim (Bool-cases (has next visited)) [
        | inl e ↦ rw (scan-seen target path next r rs entries queue visited e) (
            Covers-skip (next, r ∷ rs) entries queue visited
              (scan target path entries queue visited)
              (λ x q qs p.
                let same : x ≡ next = ap (λ (z : Text × List Relationship). z.0) p in rw same e)
              (scan-Covers path entries queue visited later h))
        | inr e ↦ elim (Bool-cases (same_text next target)) [
          | inl d ↦ rw (scan-target target path next r rs entries queue visited e d) tt
          | inr d ↦ rw (scan-new target path next r rs entries queue visited e d) (
              Covers-push next (r ∷ rs) entries queue visited longer r
                (scan target path entries (queue ++ ((next, longer) ∷ [])) (next ∷ visited)) m t e
                (scan-Covers path entries (queue ++ ((next, longer) ∷ [])) (next ∷ visited) later
                  (rw (same_text_sym target next, d) h)))
        ]
      ]
