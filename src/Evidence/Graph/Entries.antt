-- ===== src/Evidence/Graph/Entries.antt =====
-- A `Map` as its entries: what a change of one key does to the others, and to the members.
use mathlib.Core.List.{Memᴰ}
use rupture_grid.Base.{
  ◌≡◌, refl, ◌⊎◌, inl, inr, ap, false, Option, none, some, List, [], ◌∷◌, Text, same_text,
  same_text_refl, same_text-eq, Bool-cases,
}
use rupture_grid.Evidence.Graph.{lookup, upsert}

-- `??`.
abbrev pub or_else : {A : Type 0} → A → Option A → A
or_else fresh none = fresh
or_else fresh (some a) = a

module _ {A : Type 0} (k : Text) (fresh : A) (change : A → A) where
  pub lookup-upsert_same :
      (m : List (Text × A))
      → lookup k (upsert k fresh change m) ≡ some (change (or_else fresh (lookup k m)))
  unfolding lookup upsert
  lookup-upsert_same [] = rw (same_text_refl k) refl
  lookup-upsert_same ((j, a) ∷ m) = elim (Bool-cases (same_text j k)) [
    | inl e ↦ rw (e, e) refl
    | inr e ↦ rw (e, e) (lookup-upsert_same m)
  ]

  pub lookup-upsert_other :
      (i : Text) (m : List (Text × A))
      → same_text k i ≡ false
      → lookup i (upsert k fresh change m) ≡ lookup i m
  unfolding lookup upsert
  lookup-upsert_other i [] h = rw h refl
  lookup-upsert_other i ((j, a) ∷ m) h = elim (Bool-cases (same_text j k)) [
    | inl e ↦ let same : j ≡ k = same_text-eq j k e in rw (e, same, h) refl
    | inr e ↦ elim (Bool-cases (same_text j i)) [
      | inl d ↦ rw (e, d) refl
      | inr d ↦ rw (e, d) (lookup-upsert_other i m h)
    ]
  ]

  -- An entry after the change is an old one or the changed one.
  pub upsert-member :
      (m : List (Text × A)) (z : Text × A)
      → Memᴰ z (upsert k fresh change m)
      → Memᴰ z m ⊎ ((a : A) × (z ≡ (k, change a)) × ((a ≡ fresh) ⊎ Memᴰ (k, a) m))
  unfolding upsert
  upsert-member [] z (Memᴰ.head e) = inr (fresh, e, inl refl)
  upsert-member [] z (Memᴰ.tail t) = elim t [ ]
  upsert-member ((j, a) ∷ m) z t = elim (Bool-cases (same_text j k)) [
    | inl e ↦
        let same : j ≡ k = same_text-eq j k e in
        elim (rw e at t) [
          | Memᴰ.head p ↦ inr (a, rw (p, same) refl, inr (Memᴰ.head (rw same refl)))
          | Memᴰ.tail p ↦ inl (Memᴰ.tail p)
        ]
    | inr e ↦ elim (rw e at t) [
      | Memᴰ.head p ↦ inl (Memᴰ.head p)
      | Memᴰ.tail p ↦ elim (upsert-member m z p) [
        | inl q ↦ inl (Memᴰ.tail q)
        | inr (b, q, inl r) ↦ inr (b, q, inl r)
        | inr (b, q, inr r) ↦ inr (b, q, inr (Memᴰ.tail r))
      ]
    ]
  ]

  pub upsert-new : (m : List (Text × A)) → (a : A) × Memᴰ (k, change a) (upsert k fresh change m)
  unfolding upsert
  upsert-new [] = (fresh, Memᴰ.head refl)
  upsert-new ((j, a) ∷ m) = elim (Bool-cases (same_text j k)) [
    | inl e ↦ let same : j ≡ k = same_text-eq j k e in (a, rw e (Memᴰ.head (rw same refl)))
    | inr e ↦ let (b, t) = upsert-new m in (b, rw e (Memᴰ.tail t))
  ]

  pub upsert-kept :
      (m : List (Text × A)) (j : Text) (a : A)
      → Memᴰ (j, a) m
      → Memᴰ (j, a) (upsert k fresh change m) ⊎ Memᴰ (j, change a) (upsert k fresh change m)
  unfolding upsert
  upsert-kept [] j a t = elim t [ ]
  upsert-kept ((i, b) ∷ m) j a t = elim (Bool-cases (same_text i k)) [
    | inl e ↦ elim t [
      | Memᴰ.head p ↦
          let x : j ≡ i = ap (λ (q : Text × A). q.0) p in
          let y : a ≡ b = ap (λ (q : Text × A). q.1) p in inr (rw e (Memᴰ.head (rw (x, y) refl)))
      | Memᴰ.tail p ↦ inl (rw e (Memᴰ.tail p))
    ]
    | inr e ↦ elim t [
      | Memᴰ.head p ↦ inl (rw e (Memᴰ.head p))
      | Memᴰ.tail p ↦ elim (upsert-kept m j a p) [
        | inl q ↦ inl (rw e (Memᴰ.tail q))
        | inr q ↦ inr (rw e (Memᴰ.tail q))
      ]
    ]
  ]
