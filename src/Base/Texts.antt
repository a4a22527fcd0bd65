-- ===== src/Base/Texts.antt =====
-- Texts: equality, the order of their code points, membership in a list of texts, and sorting.
use Prim.Native.Nat.{ℕ}
use mathlib.Core.Path.{◌≡◌, refl}
use mathlib.Core.Logic.{inl, inr}
use mathlib.Core.Bool.{Bool, true, false, ◌&&◌, ◌||◌}
use mathlib.Core.List.{List, [], ◌∷◌, Memᴰ}
use native.Mathlib.Omega.{arith}
use rupture_grid.Base.Tests.{
  Text, ltb, ◌==◌, if◌then◌else◌, ==_iff, ==_refl, &&-eq-true, Bool-cases,
}
use rupture_grid.Base.Lists.{any}
use rupture_grid.Base.Table.{any-true}

-- `===` on strings.
unfoldable pub same_text : Text → Text → Bool
same_text [] [] = true
same_text [] (c ∷ cs) = false
same_text (b ∷ bs) [] = false
same_text (b ∷ bs) (c ∷ cs) = (b == c) && same_text bs cs

pub same_text_refl : (t : Text) → same_text t t ≡ true
unfolding same_text
same_text_refl [] = refl
same_text_refl (c ∷ cs) = rw (==_refl c, same_text_refl cs) refl

pub same_text-eq : (s t : Text) → same_text s t ≡ true → s ≡ t
unfolding same_text
same_text-eq [] [] h = refl
same_text-eq [] (c ∷ cs) h = cc
same_text-eq (b ∷ bs) [] h = cc
same_text-eq (b ∷ bs) (c ∷ cs) h =
    let (x, y) = &&-eq-true _ _ h in rw ((==_iff b c).0 x, same_text-eq bs cs y) refl

==_sym : (a b : ℕ) → (a == b) ≡ (b == a)
==_sym a b = ground arith

pub same_text_sym : (s t : Text) → same_text s t ≡ same_text t s
unfolding same_text
same_text_sym [] [] = refl
same_text_sym [] (c ∷ cs) = refl
same_text_sym (b ∷ bs) [] = refl
same_text_sym (b ∷ bs) (c ∷ cs) = rw (==_sym b c, same_text_sym bs cs) refl

-- `<` on strings.
abbrev pub ltb_text : Text → Text → Bool
ltb_text [] [] = false
ltb_text [] (c ∷ cs) = true
ltb_text (b ∷ bs) [] = false
ltb_text (b ∷ bs) (c ∷ cs) = ltb b c || ((b == c) && ltb_text bs cs)

-- Membership in a set of texts.
abbrev pub has : Text → List Text → Bool
has t ts = any (same_text t) ts

pub has-Memᴰ : (t : Text) (ts : List Text) → has t ts ≡ true → Memᴰ t ts
has-Memᴰ t (s ∷ ts) h = elim (Bool-cases (same_text t s)) [
  | inl e ↦ Memᴰ.head (same_text-eq t s e)
  | inr e ↦ Memᴰ.tail (has-Memᴰ t ts (rw e at h))
]
has-Memᴰ t [] h = cc

pub has-member : (t : Text) (ts : List Text) → Memᴰ t ts → has t ts ≡ true
has-member t ts m = any-true (same_text t) ts t (same_text_refl t) m

-- Rows in the order of the text of each.
module _ {ℓ} {A : Type ℓ} (key : A → Text) where
  abbrev pub insert_by : A → List A → List A
  insert_by x [] = x ∷ []
  insert_by x (y ∷ ys) =
      let rest = insert_by x ys in if ltb_text (key y) (key x) then y ∷ rest else x ∷ (y ∷ ys)

  abbrev pub sort_by : List A → List A
  sort_by [] = []
  sort_by (x ∷ xs) = insert_by x (sort_by xs)

  pub insert_by-member : (x : A) (ys : List A) (z : A) → Memᴰ z (insert_by x ys) → Memᴰ z (x ∷ ys)
  insert_by-member x [] z m = m
  insert_by-member x (y ∷ ys) z m = elim (Bool-cases (ltb_text (key y) (key x))) [
    | inl e ↦ elim (rw e at m) [
      | Memᴰ.head p ↦ Memᴰ.tail (Memᴰ.head p)
      | Memᴰ.tail p ↦ elim (insert_by-member x ys z p) [
        | Memᴰ.head q ↦ Memᴰ.head q
        | Memᴰ.tail q ↦ Memᴰ.tail (Memᴰ.tail q)
      ]
    ]
    | inr e ↦ rw e at m
  ]

  pub member-insert_by : (x : A) (ys : List A) (z : A) → Memᴰ z (x ∷ ys) → Memᴰ z (insert_by x ys)
  member-insert_by x [] z m = m
  member-insert_by x (y ∷ ys) z m = elim (Bool-cases (ltb_text (key y) (key x))) [
    | inl e ↦ rw e (elim m [
      | Memᴰ.head p ↦ Memᴰ.tail (member-insert_by x ys z (Memᴰ.head p))
      | Memᴰ.tail (Memᴰ.head p) ↦ Memᴰ.head p
      | Memᴰ.tail (Memᴰ.tail p) ↦ Memᴰ.tail (member-insert_by x ys z (Memᴰ.tail p))
    ])
    | inr e ↦ rw e m
  ]

  -- Sorting keeps the members.
  pub sort_by-member : (xs : List A) (z : A) → Memᴰ z (sort_by xs) → Memᴰ z xs
  sort_by-member [] z m = m
  sort_by-member (x ∷ xs) z m = elim (insert_by-member x (sort_by xs) z m) [
    | Memᴰ.head p ↦ Memᴰ.head p
    | Memᴰ.tail p ↦ Memᴰ.tail (sort_by-member xs z p)
  ]

  pub member-sort_by : (xs : List A) (z : A) → Memᴰ z xs → Memᴰ z (sort_by xs)
  member-sort_by [] z m = elim m [ ]
  member-sort_by (x ∷ xs) z (Memᴰ.head p) = member-insert_by x (sort_by xs) z (Memᴰ.head p)
  member-sort_by (x ∷ xs) z (Memᴰ.tail m) =
      member-insert_by x (sort_by xs) z (Memᴰ.tail (member-sort_by xs z m))
