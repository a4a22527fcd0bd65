-- ===== src/Evidence/Candidates/Distinct.antt =====
-- The candidates have different identities.
use rupture_grid.Base.{
  ◌≡◌, refl, inl, inr, Bool, false, List, [], ◌∷◌, ◌++◌, Text, same_text, same_text_sym, has,
  Bool-cases, insert_by, sort_by, ltb_text, arith, ||-eq-false,
}
use rupture_grid.Evidence.Graph.{upsert}
use rupture_grid.Evidence.Input.{Script, Entity}
use rupture_grid.Evidence.Candidates.{
  Candidate, Group, add_to_groups, grouped, group_key, is_settled, firsts_of, distinct_candidates,
  keys_of, keep,
}

-- Every text is not among those behind it.
abbrev pub Distinct : List Text → Type 0
Distinct [] = Unit
Distinct (t ∷ ts) = (has t ts ≡ false) × Distinct ts

module _ {A : Type 0} where
  has-upsert :
      (j k : Text) (fresh : A) (change : A → A) (m : List (Text × A))
      → same_text j k ≡ false
      → has j (keys_of (upsert k fresh change m)) ≡ has j (keys_of m)
  unfolding upsert
  has-upsert j k fresh change [] h = rw h refl
  has-upsert j k fresh change ((i, a) ∷ m) h = elim (Bool-cases (same_text i k)) [
    | inl e ↦ rw e refl
    | inr e ↦ rw (e, has-upsert j k fresh change m h) refl
  ]

  Distinct-upsert :
      (k : Text) (fresh : A) (change : A → A) (m : List (Text × A))
      → Distinct (keys_of m)
      → Distinct (keys_of (upsert k fresh change m))
  unfolding upsert
  Distinct-upsert k fresh change [] d = (refl, tt)
  Distinct-upsert k fresh change ((i, a) ∷ m) d = elim (Bool-cases (same_text i k)) [
    | inl e ↦ rw e d
    | inr e ↦
        let apart = has-upsert i k fresh change m e in
        rw (e, apart) (d.0, Distinct-upsert k fresh change m d.1)
  ]

  has-insert_by :
      (key : Text × A → Text) (j : Text) (x : Text × A) (ys : List (Text × A))
      → has j (keys_of (insert_by key x ys)) ≡ has j (keys_of (x ∷ ys))
  has-insert_by key j x [] = refl
  has-insert_by key j x (y ∷ ys) = ground (arith, has-insert_by key j x ys)

  Distinct-insert_by :
      (key : Text × A → Text) (x : Text × A) (ys : List (Text × A))
      → Distinct (keys_of (x ∷ ys))
      → Distinct (keys_of (insert_by key x ys))
  Distinct-insert_by key x [] d = d
  Distinct-insert_by key (i, a) ((j, b) ∷ ys) d =
      elim (Bool-cases (ltb_text (key (j, b)) (key (i, a)))) [
        | inr e ↦ rw e d
        | inl e ↦
            let (x, y) = ||-eq-false (same_text i j) (has i (keys_of ys)) d.0 in
            rw (e, has-insert_by key j (i, a) ys, same_text_sym j i, x)
              (d.1.0, Distinct-insert_by key (i, a) ys (y, d.1.1))
      ]

  has-sort_by :
      (key : Text × A → Text) (j : Text) (xs : List (Text × A))
      → has j (keys_of (sort_by key xs)) ≡ has j (keys_of xs)
  has-sort_by key j [] = refl
  has-sort_by key j (x ∷ xs) =
      rw (has-insert_by key j x (sort_by key xs), has-sort_by key j xs) refl

  Distinct-sort_by :
      (key : Text × A → Text) (xs : List (Text × A))
      → Distinct (keys_of xs)
      → Distinct (keys_of (sort_by key xs))
  Distinct-sort_by key [] d = d
  Distinct-sort_by key (x ∷ xs) d =
      Distinct-insert_by key x (sort_by key xs)
        (rw (has-sort_by key x.0 xs) d.0, Distinct-sort_by key xs d.1)

  has-keep :
      (p : Text × A → Bool) (j : Text) (xs : List (Text × A))
      → has j (keys_of xs) ≡ false
      → has j (keys_of (keep p xs)) ≡ false
  unfolding keep
  has-keep p j [] h = refl
  has-keep p j (x ∷ xs) h = ground (arith, has-keep p j xs)

  pub Distinct-keep :
      (p : Text × A → Bool) (xs : List (Text × A))
      → Distinct (keys_of xs)
      → Distinct (keys_of (keep p xs))
  unfolding keep
  Distinct-keep p [] d = d
  Distinct-keep p ((i, a) ∷ xs) d = elim (Bool-cases (p (i, a))) [
    | inl e ↦ rw e (has-keep p i xs d.0, Distinct-keep p xs d.1)
    | inr e ↦ rw e (Distinct-keep p xs d.1)
  ]

Distinct-add_to_groups :
    (cs : List Candidate) (gs : List Group)
    → Distinct (keys_of gs)
    → Distinct (keys_of (add_to_groups cs gs))
Distinct-add_to_groups [] gs d = d
Distinct-add_to_groups ((k, e) ∷ cs) gs d =
    Distinct-add_to_groups cs (upsert k [] (λ (es : List Entity). es ++ (e ∷ [])) gs)
      (Distinct-upsert k [] (λ (es : List Entity). es ++ (e ∷ [])) gs d)

module _ (script : Script) (contested : List Text) where
  has-firsts_of :
      (j : Text) (gs : List Group)
      → has j (keys_of gs) ≡ false
      → has j (keys_of (firsts_of script contested gs)) ≡ false
  has-firsts_of j [] h = refl
  has-firsts_of j ((k, []) ∷ gs) h = has-firsts_of j gs (||-eq-false _ _ h).1
  has-firsts_of j ((k, e ∷ es) ∷ gs) h =
      let (x, y) = ||-eq-false (same_text j k) (has j (keys_of gs)) h in
      elim (Bool-cases (is_settled script contested (k, e ∷ es))) [
        | inl s ↦ rw (s, x) (has-firsts_of j gs y)
        | inr s ↦ rw s (has-firsts_of j gs y)
      ]

  Distinct-firsts_of :
      (gs : List Group) → Distinct (keys_of gs) → Distinct (keys_of (firsts_of script contested gs))
  Distinct-firsts_of [] d = d
  Distinct-firsts_of ((k, []) ∷ gs) d = Distinct-firsts_of gs d.1
  Distinct-firsts_of ((k, e ∷ es) ∷ gs) d =
      elim (Bool-cases (is_settled script contested (k, e ∷ es))) [
        | inl s ↦ rw s (has-firsts_of k gs d.0, Distinct-firsts_of gs d.1)
        | inr s ↦ rw s (Distinct-firsts_of gs d.1)
      ]

  -- The distinct candidates of the groups of some events have different keys.
  pub Distinct-distinct_candidates :
      (cs : List Candidate) → Distinct (keys_of (distinct_candidates script contested (grouped cs)))
  unfolding distinct_candidates grouped
  Distinct-distinct_candidates cs =
      Distinct-firsts_of (sort_by group_key (grouped cs))
        (Distinct-sort_by group_key (grouped cs) (Distinct-add_to_groups cs [] tt))
