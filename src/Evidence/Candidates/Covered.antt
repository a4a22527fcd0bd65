-- ===== src/Evidence/Candidates/Covered.antt =====
-- Every event with an identity is in a group, and every group counts or is contested.
use mathlib.Core.List.{Memᴰ}
use rupture_grid.Base.{
  ◌≡◌, refl, ◌⊎◌, inl, inr, ap, Bool, true, false, not, ◌&&◌, List, [], ◌∷◌, ◌++◌, Text, same_text,
  same_text_refl, same_text-eq, has, has-member, any-false, Bool-cases, sort_by, member-sort_by,
  arith, if◌then◌else◌,
}
use rupture_grid.Evidence.Values.{is_non_provable_value, strip_provenance}
use rupture_grid.Evidence.Graph.{upsert}
use rupture_grid.Evidence.Graph.Entries.{upsert-new, upsert-kept}
use rupture_grid.Evidence.Input.{Script, Entity}
use rupture_grid.Evidence.Candidates.{
  Candidate, Group, declared_value, events_of, keyed, add_to_groups, grouped, group_key, is_settled,
  is_conflicting, firsts_of, distinct_candidates, unsettled_keys, keys_without_group, keys_of,
  contested_identities,
}
use rupture_grid.Evidence.Candidates.Members.{IsKeyed}

module _ {A : Type 0} where
  pub member-++_left : (x : A) (xs ys : List A) → Memᴰ x xs → Memᴰ x (xs ++ ys)
  member-++_left x [] ys m = elim m [ ]
  member-++_left x (z ∷ xs) ys (Memᴰ.head e) = Memᴰ.head e
  member-++_left x (z ∷ xs) ys (Memᴰ.tail m) = Memᴰ.tail (member-++_left x xs ys m)

  pub member-++_right : (x : A) (xs ys : List A) → Memᴰ x ys → Memᴰ x (xs ++ ys)
  member-++_right x [] ys m = m
  member-++_right x (z ∷ xs) ys m = Memᴰ.tail (member-++_right x xs ys m)

  pub member-keys_of :
      (k : Text) (xs : List (Text × A)) → has k (keys_of xs) ≡ true → (a : A) × Memᴰ (k, a) xs
  member-keys_of k [] h = cc
  member-keys_of k ((j, b) ∷ xs) h = elim (Bool-cases (same_text k j)) [
    | inl e ↦ (b, Memᴰ.head (rw (same_text-eq k j e) refl))
    | inr e ↦ let (a, m) = member-keys_of k xs (rw e at h) in (a, Memᴰ.tail m)
  ]

  pub keys_of-member :
      (k : Text) (a : A) (xs : List (Text × A)) → Memᴰ (k, a) xs → Memᴰ k (keys_of xs)
  keys_of-member k a [] m = elim m [ ]
  keys_of-member k a ((j, b) ∷ xs) (Memᴰ.head e) = Memᴰ.head (ap (λ (z : Text × A). z.0) e)
  keys_of-member k a ((j, b) ∷ xs) (Memᴰ.tail m) = Memᴰ.tail (keys_of-member k a xs m)

pub member-events_of :
    (role : Text) (contested : Bool) (es : List Entity) (e : Entity)
    → Memᴰ e es
    → e.role_id ≡ role
    → e.contested ≡ contested
    → Memᴰ e (events_of role contested es)
unfolding events_of
member-events_of role contested [] e m r c = elim m [ ]
member-events_of role true (x ∷ es) e (Memᴰ.head q) r c =
    rw (← q, r, same_text_refl role, c) (Memᴰ.head refl)
member-events_of role false (x ∷ es) e (Memᴰ.head q) r c =
    rw (← q, r, same_text_refl role, c) (Memᴰ.head refl)
member-events_of role contested (x ∷ es) e (Memᴰ.tail m) r c =
    let rest = member-events_of role contested es e m r c in
    elim (Bool-cases
      (same_text x.role_id role && (if contested then x.contested else not x.contested))) [
        | inl s ↦ rw s (Memᴰ.tail rest)
        | inr s ↦ rw s rest
      ]

pub member-keyed :
    (script : Script) (field : Text) (es : List Entity) (k : Text) (e : Entity)
    → Memᴰ e es
    → IsKeyed script field k e
    → Memᴰ (k, e) (keyed script field es)
unfolding keyed
member-keyed script field [] k e m h = elim m [ ]
member-keyed script field (x ∷ es) k e (Memᴰ.head q) (h, i) = rw (← q, h) (Memᴰ.head (rw i refl))
member-keyed script field (x ∷ es) k e (Memᴰ.tail m) h =
    let rest = member-keyed script field es k e m h in
    elim (Bool-cases (is_non_provable_value (declared_value x field))) [
      | inl s ↦ rw s rest
      | inr s ↦ rw s (Memᴰ.tail rest)
    ]

-- The event is in the group of the key.
abbrev pub InGroup : Text → Entity → List Group → Type 0
InGroup k e gs = (es : List Entity) × Memᴰ (k, es) gs × Memᴰ e es

InGroup-add :
    (k j : Text) (e x : Entity) (gs : List Group)
    → InGroup k e gs
    → InGroup k e (upsert j [] (λ (es : List Entity). es ++ (x ∷ [])) gs)
InGroup-add k j e x gs (es, m, n) =
    elim (upsert-kept j [] (λ (es : List Entity). es ++ (x ∷ [])) gs k es m) [
      | inl o ↦ (es, o, n)
      | inr o ↦ (es ++ (x ∷ []), o, member-++_left e es (x ∷ []) n)
    ]

InGroup-kept :
    (k : Text) (e : Entity) (cs : List Candidate) (gs : List Group)
    → InGroup k e gs
    → InGroup k e (add_to_groups cs gs)
InGroup-kept k e [] gs h = h
InGroup-kept k e ((j, x) ∷ cs) gs h =
    InGroup-kept k e cs (upsert j [] (λ (es : List Entity). es ++ (x ∷ [])) gs)
      (InGroup-add k j e x gs h)

InGroup-all :
    (k : Text) (e : Entity) (cs : List Candidate) (gs : List Group)
    → Memᴰ (k, e) cs
    → InGroup k e (add_to_groups cs gs)
InGroup-all k e [] gs m = elim m [ ]
InGroup-all k e ((j, x) ∷ cs) gs (Memᴰ.head q) =
    let f : k ≡ j = ap (λ (z : Candidate). z.0) q in
    let g : e ≡ x = ap (λ (z : Candidate). z.1) q in
    let (b, n) = upsert-new j [] (λ (es : List Entity). es ++ (x ∷ [])) gs in
    rw (f, g)
      (InGroup-kept j x cs (upsert j [] (λ (es : List Entity). es ++ (x ∷ [])) gs)
        (b ++ (x ∷ []), n, member-++_right x b (x ∷ []) (Memᴰ.head refl)))
InGroup-all k e ((j, x) ∷ cs) gs (Memᴰ.tail m) =
    InGroup-all k e cs (upsert j [] (λ (es : List Entity). es ++ (x ∷ [])) gs) m

module _ (script : Script) (contested : List Text) where
  -- The two events have the same declared payload, as its text.
  abbrev pub SameText : Entity → Entity → Type 0
  SameText e f =
      same_text (script.stringify (strip_provenance e.payload))
        (script.stringify (strip_provenance f.payload))
      ≡ true

  group-alike :
      (e first : Entity) (rest : List Entity)
      → is_conflicting script (first ∷ rest) ≡ false
      → Memᴰ e (first ∷ rest)
      → SameText e first
  unfolding is_conflicting
  group-alike e first rest h (Memᴰ.head q) = rw q (same_text_refl _)
  group-alike e first rest h (Memᴰ.tail m) = let differs = any-false _ rest e h m in ground arith

  settled_first :
      (gs : List Group) (k : Text) (e : Entity) (es : List Entity)
      → Memᴰ (k, es) gs
      → Memᴰ e es
      → is_settled script contested (k, es) ≡ true
      → (f : Entity) × SameText e f × Memᴰ (k, f) (firsts_of script contested gs)
  settled_first [] k e es m n h = elim m [ ]
  settled_first ((j, []) ∷ gs) k e es (Memᴰ.head q) n h =
      let g : es ≡ [] = ap (λ (z : Group). z.1) q in elim (rw g at n) [ ]
  settled_first ((j, x ∷ xs) ∷ gs) k e es (Memᴰ.head q) n h =
      let f : k ≡ j = ap (λ (z : Group). z.0) q in
      let g : es ≡ (x ∷ xs) = ap (λ (z : Group). z.1) q in
      let s : is_settled script contested (j, x ∷ xs) ≡ true = rw (← f, ← g) h in
      let agrees : is_conflicting script (x ∷ xs) ≡ false = ground arith in
      (x, group-alike e x xs agrees (rw g at n), rw (s, f) (Memᴰ.head refl))
  settled_first ((j, []) ∷ gs) k e es (Memᴰ.tail m) n h = settled_first gs k e es m n h
  settled_first ((j, x ∷ xs) ∷ gs) k e es (Memᴰ.tail m) n h =
      let (f, alike, o) = settled_first gs k e es m n h in
      elim (Bool-cases (is_settled script contested (j, x ∷ xs))) [
        | inl s ↦ (f, alike, rw s (Memᴰ.tail o))
        | inr s ↦ (f, alike, rw s o)
      ]

  unsettled_key :
      (gs : List Group) (k : Text) (es : List Entity)
      → Memᴰ (k, es) gs
      → is_settled script contested (k, es) ≡ false
      → Memᴰ k (unsettled_keys script contested gs)
  unsettled_key [] k es m h = elim m [ ]
  unsettled_key ((j, xs) ∷ gs) k es (Memᴰ.head q) h =
      let f : k ≡ j = ap (λ (z : Group). z.0) q in
      let g : es ≡ xs = ap (λ (z : Group). z.1) q in
      let s : is_settled script contested (j, xs) ≡ false = rw (← f, ← g) h in
      rw (s, f) (Memᴰ.head refl)
  unsettled_key ((j, xs) ∷ gs) k es (Memᴰ.tail m) h =
      let rest = unsettled_key gs k es m h in
      elim (Bool-cases (is_settled script contested (j, xs))) [
        | inl s ↦ rw s rest
        | inr s ↦ rw s (Memᴰ.tail rest)
      ]

  -- A keyed event has a distinct candidate of its key and of its text, or its key is contested.
  pub candidate_or_contested :
      (cs : List Candidate) (k : Text) (e : Entity)
      → Memᴰ (k, e) cs
      → ((f : Entity) × SameText e f
          × Memᴰ (k, f) (distinct_candidates script contested (grouped cs)))
        ⊎ Memᴰ k (contested_identities script contested (grouped cs))
  unfolding distinct_candidates contested_identities grouped
  candidate_or_contested cs k e m =
      let (es, n, o) = InGroup-all k e cs [] m in
      let sorted = member-sort_by group_key (grouped cs) (k, es) n in
      elim (Bool-cases (is_settled script contested (k, es))) [
        | inl s ↦ inl (settled_first (sort_by group_key (grouped cs)) k e es sorted o s)
        | inr s ↦
            inr
              (member-++_left k _ _ (unsettled_key (sort_by group_key (grouped cs)) k es sorted s))
      ]

  without_group :
      (gs : List Group) (ks : List Text) (k : Text)
      → Memᴰ k ks
      → has k (keys_of gs) ≡ false
      → Memᴰ k (keys_without_group gs ks)
  without_group gs [] k m h = elim m [ ]
  without_group gs (j ∷ ks) k (Memᴰ.head e) h =
      let s : has j (keys_of gs) ≡ false = rw (← e) h in rw s (Memᴰ.head e)
  without_group gs (j ∷ ks) k (Memᴰ.tail m) h =
      let rest = without_group gs ks k m h in
      elim (Bool-cases (has j (keys_of gs))) [ inl s ↦ rw s rest | inr s ↦ rw s (Memᴰ.tail rest) ]

  contested_group :
      (k : Text) (es : List Entity) → Memᴰ k contested → is_settled script contested (k, es) ≡ false
  contested_group k es m = let at = has-member k contested m in ground arith

  -- An identity that the derivation contested is a contested identity.
  pub contested_key :
      (cs : List Candidate) (k : Text)
      → Memᴰ k contested
      → Memᴰ k (contested_identities script contested (grouped cs))
  unfolding contested_identities
  contested_key cs k m = elim (Bool-cases (has k (keys_of (grouped cs)))) [
    | inr e ↦ member-++_right k _ _ (without_group (grouped cs) contested k m e)
    | inl e ↦
        let (es, n) = member-keys_of k (grouped cs) e in
        let sorted = member-sort_by group_key (grouped cs) (k, es) n in
        member-++_left k _ _
          (unsettled_key (sort_by group_key (grouped cs)) k es sorted (contested_group k es m))
  ]
