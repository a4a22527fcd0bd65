-- ===== src/Evidence/Candidates/Members.antt =====
-- Where the members of groups and of the lists of candidates come from.
use mathlib.Core.List.{Memᴰ}
use rupture_grid.Base.{
  ◌≡◌, refl, ◌⊎◌, inl, inr, ap, Bool, true, false, not, ◌&&◌, List, [], ◌∷◌, ◌++◌, Text, same_text,
  same_text-eq, Bool-cases, sort_by, sort_by-member, arith, &&-eq-true,
}
use rupture_grid.Evidence.Values.{is_non_provable_value}
use rupture_grid.Evidence.Graph.{upsert}
use rupture_grid.Evidence.Graph.Entries.{upsert-member}
use rupture_grid.Evidence.Input.{Script, Entity}
use rupture_grid.Evidence.Candidates.{
  Candidate, Group, declared_value, identity_key, events_of, keyed, add_to_groups, grouped,
  group_key, is_settled, firsts_of, distinct_candidates, keep,
}

module _ {A : Type 0} where
  pub snoc-member : (x y : A) (xs : List A) → Memᴰ y (xs ++ (x ∷ [])) → (y ≡ x) ⊎ Memᴰ y xs
  snoc-member x y [] (Memᴰ.head e) = inl e
  snoc-member x y [] (Memᴰ.tail t) = elim t [ ]
  snoc-member x y (z ∷ xs) (Memᴰ.head e) = inr (Memᴰ.head e)
  snoc-member x y (z ∷ xs) (Memᴰ.tail t) = elim (snoc-member x y xs t) [
    | inl e ↦ inl e
    | inr m ↦ inr (Memᴰ.tail m)
  ]

  pub keep-member :
      (p : A → Bool) (xs : List A) (x : A) → Memᴰ x (keep p xs) → Memᴰ x xs × (p x ≡ true)
  unfolding keep
  keep-member p [] x m = elim m [ ]
  keep-member p (y ∷ ys) x m = elim (Bool-cases (p y)) [
    | inl e ↦ elim (rw e at m) [
      | Memᴰ.head q ↦ (Memᴰ.head q, rw q e)
      | Memᴰ.tail n ↦ let (a, b) = keep-member p ys x n in (Memᴰ.tail a, b)
    ]
    | inr e ↦ let (a, b) = keep-member p ys x (rw e at m) in (Memᴰ.tail a, b)
  ]

  pub member-keep :
      (p : A → Bool) (xs : List A) (x : A) → Memᴰ x xs → p x ≡ true → Memᴰ x (keep p xs)
  unfolding keep
  member-keep p [] x m h = elim m [ ]
  member-keep p (y ∷ ys) x (Memᴰ.head q) h = let e : p y ≡ true = rw (← q) h in rw e (Memᴰ.head q)
  member-keep p (y ∷ ys) x (Memᴰ.tail n) h = elim (Bool-cases (p y)) [
    | inl e ↦ rw e (Memᴰ.tail (member-keep p ys x n h))
    | inr e ↦ rw e (member-keep p ys x n h)
  ]

pub events_of-member :
    (role : Text) (es : List Entity) (e : Entity)
    → Memᴰ e (events_of role false es)
    → Memᴰ e es × (e.role_id ≡ role) × (e.contested ≡ false)
unfolding events_of
events_of-member role [] e m = elim m [ ]
events_of-member role (x ∷ es) e m =
    elim (Bool-cases (same_text x.role_id role && not x.contested)) [
      | inl s ↦
          let (a, b) = &&-eq-true _ _ s in
          let c : x.contested ≡ false = ground arith in
          elim (rw s at m) [
            | Memᴰ.head q ↦ (Memᴰ.head q, rw q (same_text-eq x.role_id role a), rw q c)
            | Memᴰ.tail n ↦ let (f, g, h) = events_of-member role es e n in (Memᴰ.tail f, g, h)
          ]
      | inr s ↦ let (f, g, h) = events_of-member role es e (rw s at m) in (Memᴰ.tail f, g, h)
    ]

module _ (script : Script) (field : Text) where
  -- The event has a provable identity, and the key is that of it.
  abbrev pub IsKeyed : Text → Entity → Type 0
  IsKeyed k e =
      (is_non_provable_value (declared_value e field) ≡ false)
      × (k ≡ identity_key script (declared_value e field))

  pub keyed-member :
      (es : List Entity) (k : Text) (e : Entity)
      → Memᴰ (k, e) (keyed script field es)
      → Memᴰ e es × IsKeyed k e
  unfolding keyed
  keyed-member [] k e m = elim m [ ]
  keyed-member (x ∷ es) k e m = elim (Bool-cases (is_non_provable_value (declared_value x field))) [
    | inl s ↦ let (a, b) = keyed-member es k e (rw s at m) in (Memᴰ.tail a, b)
    | inr s ↦ elim (rw s at m) [
      | Memᴰ.head q ↦
          let f : k ≡ identity_key script (declared_value x field) =
            ap (λ (z : Candidate). z.0) q in
          let g : e ≡ x = ap (λ (z : Candidate). z.1) q in (Memᴰ.head g, (rw g s, rw g f))
      | Memᴰ.tail n ↦ let (a, b) = keyed-member es k e n in (Memᴰ.tail a, b)
    ]
  ]

-- Every member of a group came with the group's key.
module _ (all : List Candidate) where
  abbrev From : List Group → Type 0
  From gs =
      (k : Text) (es : List Entity) (e : Entity) → Memᴰ (k, es) gs → Memᴰ e es → Memᴰ (k, e) all

  From-add :
      (k : Text) (e : Entity) (gs : List Group)
      → Memᴰ (k, e) all
      → From gs
      → From (upsert k [] (λ (es : List Entity). es ++ (e ∷ [])) gs)
  From-add k e gs at from j es x m n =
      elim (upsert-member k [] (λ (es : List Entity). es ++ (e ∷ [])) gs (j, es) m) [
        | inl old ↦ from j es x old n
        | inr (b, p, old) ↦
            let f : j ≡ k = ap (λ (z : Group). z.0) p in
            let g : es ≡ (b ++ (e ∷ [])) = ap (λ (z : Group). z.1) p in
            elim (snoc-member e x b (rw g at n)) [
              | inl q ↦ rw (f, q) at
              | inr o ↦ elim old [
                | inl nil ↦ elim (rw nil at o) [ ]
                | inr v ↦ rw f (from k b x v o)
              ]
            ]
      ]

  From-all :
      (cs : List Candidate) (gs : List Group)
      → ((c : Candidate) → Memᴰ c cs → Memᴰ c all)
      → From gs
      → From (add_to_groups cs gs)
  From-all [] gs within from = from
  From-all ((k, e) ∷ cs) gs within from =
      From-all cs (upsert k [] (λ (es : List Entity). es ++ (e ∷ [])) gs)
        (λ c m. within c (Memᴰ.tail m)) (From-add k e gs (within (k, e) (Memᴰ.head refl)) from)

-- A member of a group is one of the events that were grouped, under the key of the group.
pub grouped-member :
    (cs : List Candidate) (k : Text) (es : List Entity) (e : Entity)
    → Memᴰ (k, es) (grouped cs)
    → Memᴰ e es
    → Memᴰ (k, e) cs
unfolding grouped
grouped-member cs k es e m n = From-all cs cs [] (λ c o. o) (λ j fs x o p. elim o [ ]) k es e m n

module _ (script : Script) (contested : List Text) where
  firsts_of-member :
      (gs : List Group) (k : Text) (e : Entity)
      → Memᴰ (k, e) (firsts_of script contested gs)
      → (es : List Entity) × Memᴰ (k, e ∷ es) gs
  firsts_of-member [] k e m = elim m [ ]
  firsts_of-member ((j, []) ∷ gs) k e m =
      let (es, n) = firsts_of-member gs k e m in (es, Memᴰ.tail n)
  firsts_of-member ((j, x ∷ xs) ∷ gs) k e m =
      elim (Bool-cases (is_settled script contested (j, x ∷ xs))) [
        | inl s ↦ elim (rw s at m) [
          | Memᴰ.head q ↦
              let f : k ≡ j = ap (λ (z : Candidate). z.0) q in
              let g : e ≡ x = ap (λ (z : Candidate). z.1) q in (xs, Memᴰ.head (rw (f, g) refl))
          | Memᴰ.tail n ↦ let (es, o) = firsts_of-member gs k e n in (es, Memᴰ.tail o)
        ]
        | inr s ↦ let (es, o) = firsts_of-member gs k e (rw s at m) in (es, Memᴰ.tail o)
      ]

  -- A distinct candidate is one of the events that were grouped, under its own key.
  pub distinct_candidates-member :
      (cs : List Candidate) (k : Text) (e : Entity)
      → Memᴰ (k, e) (distinct_candidates script contested (grouped cs))
      → Memᴰ (k, e) cs
  unfolding distinct_candidates
  distinct_candidates-member cs k e m =
      let (es, n) = firsts_of-member (sort_by group_key (grouped cs)) k e m in
      grouped-member cs k (e ∷ es) e (sort_by-member group_key (grouped cs) (k, e ∷ es) n)
        (Memᴰ.head refl)
