-- ===== src/Evidence/Chain/Stored.antt =====
-- The search for the row that was stored for a capture.
use mathlib.Core.List.{Memᴰ}
use rupture_grid.Base.{
  ◌≡◌, refl, sym, ap, ◌∙◌, inl, inr, true, false, Option, none, some, List, [], ◌∷◌, ◌++◌, Text,
  same_text_refl, same_text-eq, Bool-cases, ==_refl, ==_iff, &&-eq-true,
}
use rupture_grid.Evidence.Chain.{
  Observation, Capture, has_identity, same_option, or_blank, find_identity,
}

same_option-eq : (o : Option Text) (t : Text) → same_option o (some t) ≡ true → o ≡ some t
same_option-eq none t h = cc
same_option-eq (some s) t h = ap some (same_text-eq s t h)

module _ {A : Type 0} where
  pub find_identity-snoc :
      (c : Capture A) (os : List (Observation A)) (o : Observation A)
      → find_identity c os ≡ none
      → has_identity c o ≡ true
      → find_identity c (os ++ (o ∷ [])) ≡ some o
  unfolding find_identity
  find_identity-snoc c [] o h k = rw k refl
  find_identity-snoc c (x ∷ os) o h k = elim (Bool-cases (has_identity c x)) [
    | inl e ↦ let clash : some x ≡ none = rw e at h in cc
    | inr e ↦ rw e (find_identity-snoc c os o (rw e at h) k)
  ]

  pub find_identity-member :
      (c : Capture A) (os : List (Observation A)) (o : Observation A)
      → find_identity c os ≡ some o
      → Memᴰ o os × (has_identity c o ≡ true)
  unfolding find_identity
  find_identity-member c [] o h = cc
  find_identity-member c (x ∷ os) o h = elim (Bool-cases (has_identity c x)) [
    | inl e ↦
        let found : some x ≡ some o = rw e at h in
        let same : o ≡ x = cc in (Memᴰ.head same, rw same e)
    | inr e ↦ let (m, k) = find_identity-member c os o (rw e at h) in (Memᴰ.tail m, k)
  ]

  -- A row that was stored for the kind and the invocation of a capture; a capture without an
  -- invocation is looked up as the empty text.
  abbrev pub IsStoredFor : Capture A → Observation A → Type 0
  IsStoredFor c o =
      (o.kind ≡ c.kind) × (o.invocation_identity ≡ some (or_blank c.invocation_identity))

  pub has_identity-IsStoredFor :
      (c : Capture A) (o : Observation A) → has_identity c o ≡ true → IsStoredFor c o
  has_identity-IsStoredFor c o h =
      let (a, b) = &&-eq-true _ _ h in
      ((==_iff o.kind c.kind).0 a, same_option-eq o.invocation_identity _ b)

  IsStoredFor-has_identity :
      (c : Capture A) (o : Observation A) → IsStoredFor c o → has_identity c o ≡ true
  IsStoredFor-has_identity c o (a, b) =
      rw (a, b, ==_refl c.kind, same_text_refl (or_blank c.invocation_identity)) refl

  -- The search passes over every row.
  pub find_identity-none :
      (c : Capture A) (os : List (Observation A)) (o : Observation A)
      → find_identity c os ≡ none
      → Memᴰ o os
      → IsStoredFor c o
      → ⊥
  unfolding find_identity
  find_identity-none c [] o h m same = elim m [ ]
  find_identity-none c (x ∷ os) o h m same = elim (Bool-cases (has_identity c x)) [
    | inl e ↦ let clash : some x ≡ none = rw e at h in cc
    | inr e ↦ elim m [
      | Memᴰ.head p ↦
          let hit : has_identity c x ≡ true = rw (← p) (IsStoredFor-has_identity c o same) in
          let clash : true ≡ false = sym hit ∙ e in cc
      | Memᴰ.tail n ↦ find_identity-none c os o (rw e at h) n same
    ]
  ]
