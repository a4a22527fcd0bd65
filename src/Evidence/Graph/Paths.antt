-- ===== src/Evidence/Graph/Paths.antt =====
-- A path that the search returns leads from the first event to the target by active relationships.
use mathlib.Core.List.{Memᴰ}
use rupture_grid.Base.{
  ◌≡◌, refl, sym, ◌∙◌, ◌⊎◌, inl, inr, ap, true, false, some, List, [], ◌∷◌, ◌++◌, Text, ℕ, zero,
  suc, same_text, same_text-eq, Bool-cases, has, length,
}
use rupture_grid.Evidence.Graph.{
  Relationship, Targets, adjacency_of, neighbors, Item, Scanned, found, going, scan, search,
  attributable,
}
use rupture_grid.Evidence.Graph.Adjacent.{neighbors_sound}

pub Scanned-cases :
    (s : Scanned)
    → ((path : List Relationship) × (s ≡ found path))
      ⊎ ((queue : List Item) × (visited : List Text) × (s ≡ going queue visited))
Scanned-cases (found path) = inl (path, refl)
Scanned-cases (going queue visited) = inr (queue, visited, refl)

-- The three branches of the loop over the neighbours.
module _ (target : Text) (path : List Relationship) (next : Text) (r : Relationship)
    (rs : List Relationship) (entries : Targets) (queue : List Item) (visited : List Text) where
  pub scan-seen :
      has next visited ≡ true
      → scan target path ((next, r ∷ rs) ∷ entries) queue visited
        ≡ scan target path entries queue visited
  unfolding scan
  scan-seen e = rw (scan, e) refl

  pub scan-target :
      has next visited ≡ false
      → same_text next target ≡ true
      → scan target path ((next, r ∷ rs) ∷ entries) queue visited ≡ found (path ++ (r ∷ []))
  unfolding scan
  scan-target e d = rw (scan, e, d) refl

  pub scan-new :
      has next visited ≡ false
      → same_text next target ≡ false
      → scan target path ((next, r ∷ rs) ∷ entries) queue visited
        ≡ scan target path entries (queue ++ ((next, path ++ (r ∷ [])) ∷ [])) (next ∷ visited)
  unfolding scan
  scan-new e d = rw (scan, e, d) refl

module _ (rels : List Relationship) where
  -- A path of active relationships, each from where the one before it ends.
  abbrev pub PathOf : Text → List Relationship → Text → Type 0
  PathOf a [] b = a ≡ b
  PathOf a (r ∷ rs) b = Memᴰ r rels × (r.from_event_id ≡ a) × PathOf r.to_event_id rs b

  PathOf-snoc :
      (a b : Text) (rs : List Relationship) (r : Relationship)
      → PathOf a rs b
      → Memᴰ r rels
      → r.from_event_id ≡ b
      → PathOf a (rs ++ (r ∷ [])) r.to_event_id
  PathOf-snoc a b [] r h m e = (m, e ∙ sym h, refl)
  PathOf-snoc a b (q ∷ rs) r (m, e, h) n f = (m, e, PathOf-snoc q.to_event_id b rs r h n f)

  module _ (start target : Text) where
    abbrev GoodQueue : List Item → Type 0
    GoodQueue queue =
        (id : Text) (path : List Relationship) → Memᴰ (id, path) queue → PathOf start path id

    abbrev GoodScan : Scanned → Type 0
    GoodScan (found path) = PathOf start path target
    GoodScan (going queue visited) = GoodQueue queue

    abbrev GoodEntries : Text → Targets → Type 0
    GoodEntries event entries =
        (next : Text) (rs : List Relationship) (q : Relationship)
        → Memᴰ (next, rs) entries
        → Memᴰ q rs
        → Memᴰ q rels × (q.from_event_id ≡ event) × (q.to_event_id ≡ next)

    GoodQueue-snoc :
        (queue : List Item) (id : Text) (path : List Relationship)
        → GoodQueue queue
        → PathOf start path id
        → GoodQueue (queue ++ ((id, path) ∷ []))
    GoodQueue-snoc [] id path good h i p (Memᴰ.head e) =
        let x : i ≡ id = ap (λ (z : Item). z.0) e in
        let y : p ≡ path = ap (λ (z : Item). z.1) e in rw (x, y) h
    GoodQueue-snoc [] id path good h i p (Memᴰ.tail t) = elim t [ ]
    GoodQueue-snoc (x ∷ queue) id path good h i p (Memᴰ.head e) = good i p (Memᴰ.head e)
    GoodQueue-snoc (x ∷ queue) id path good h i p (Memᴰ.tail t) =
        GoodQueue-snoc queue id path (λ j q m. good j q (Memᴰ.tail m)) h i p t

    scan_sound :
        (event : Text) (path : List Relationship) (entries : Targets) (queue : List Item)
        (visited : List Text)
        → PathOf start path event
        → GoodEntries event entries
        → GoodQueue queue
        → GoodScan (scan target path entries queue visited)
    unfolding scan
    scan_sound event path [] queue visited h good ok = ok
    scan_sound event path ((next, []) ∷ entries) queue visited h good ok =
        scan_sound event path entries queue visited h (λ n rs q m. good n rs q (Memᴰ.tail m)) ok
    scan_sound event path ((next, r ∷ rs) ∷ entries) queue visited h good ok =
        let (m, f, t) = good next (r ∷ rs) r (Memᴰ.head refl) (Memᴰ.head refl) in
        let longer : PathOf start (path ++ (r ∷ [])) next =
          rw (← t) (PathOf-snoc start event path r h m f) in
        let later : GoodEntries event entries = λ n qs q u. good n qs q (Memᴰ.tail u) in
        elim (Bool-cases (has next visited)) [
          | inl e ↦
              rw (scan-seen target path next r rs entries queue visited e)
                (scan_sound event path entries queue visited h later ok)
          | inr e ↦ elim (Bool-cases (same_text next target)) [
            | inl d ↦
                let here : next ≡ target = same_text-eq next target d in
                rw (scan-target target path next r rs entries queue visited e d) (rw here at longer)
            | inr d ↦ rw (scan-new target path next r rs entries queue visited e d) (
                scan_sound event path entries (queue ++ ((next, path ++ (r ∷ [])) ∷ []))
                  (next ∷ visited) h later (GoodQueue-snoc queue next (path ++ (r ∷ [])) ok longer))
          ]
        ]

    search_sound :
        (fuel : ℕ) (queue : List Item) (visited : List Text) (result : List Relationship)
        → GoodQueue queue
        → search (adjacency_of rels) target fuel queue visited ≡ some result
        → PathOf start result target
    unfolding search
    search_sound zero queue visited result ok h = cc
    search_sound (suc fuel) [] visited result ok h = cc
    search_sound (suc fuel) ((event, path) ∷ queue) visited result ok h =
        let good =
          scan_sound event path (neighbors (adjacency_of rels) event) queue visited
            (ok event path (Memᴰ.head refl)) (neighbors_sound rels event)
            (λ i p m. ok i p (Memᴰ.tail m)) in
        elim (Scanned-cases
          (scan target path (neighbors (adjacency_of rels) event) queue visited)) [
            | inl (r, e) ↦
                let same : r ≡ result =
                  let same_path : some r ≡ some result = rw (search, e) at h in cc in
                rw (← same) (rw e at good)
            | inr (q, v, e) ↦ search_sound fuel q v result (rw e at good) (rw (search, e) at h)
          ]

  -- The path that the search returns is a path of active relationships between the two events.
  pub attributable_sound :
      (a b : Text) (result : List Relationship)
      → attributable rels a b ≡ some result
      → PathOf a result b
  unfolding attributable
  attributable_sound a b result h = elim (Bool-cases (same_text a b)) [
    | inl e ↦
        let same : result ≡ [] = let same_path : some [] ≡ some result = rw e at h in cc in
        rw same (same_text-eq a b e)
    | inr e ↦
        search_sound a b (suc (length rels)) ((a, []) ∷ []) (a ∷ []) result
          (GoodQueue-snoc a b [] a [] (λ i p m. elim m [ ]) refl) (rw e at h)
  ]
