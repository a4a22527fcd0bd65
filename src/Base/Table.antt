-- ===== src/Base/Table.antt =====
-- Database tables as lists of rows: a look-up by primary key and the guarded updates.
use Prim.Native.Nat.{ℕ, zero, suc, ◌<◌}
use mathlib.Core.Path.{◌≡◌, refl, subst}
use mathlib.Core.Logic.{inl, inr, ◌⊎◌}
use mathlib.Core.Bool.{Bool, true, false, ◌&&◌}
use mathlib.Core.Option
use mathlib.Core.Option.{Option, none, some}
use mathlib.Core.List.{List, [], ◌∷◌, map, Memᴰ}
use native.Mathlib.Omega.{arith}
use rupture_grid.Base.Tests.{◌==◌, if◌then◌else◌, Bool-cases, &&-true, ||-eq-false, ||-true, ==_iff}
use rupture_grid.Base.Lists.{any, count_of, take}

module _ {ℓ} {A : Type ℓ} where
  -- The row with a primary key. Keys are unique, so it is the first one.
  unfoldable pub find_by : (A → ℕ) → ℕ → List A → Option A
  find_by key k [] = none
  find_by key k (x ∷ xs) = if key x == k then some x else find_by key k xs

  -- `UPDATE … WHERE`: every row that passes the test is changed.
  abbrev pub change : (A → Bool) → (A → A) → A → A
  change p f x = if p x then f x else x

  abbrev pub update_where : (A → Bool) → (A → A) → List A → List A
  update_where p f = map (change p f)

  -- A row under a further test: the row that a guarded statement on one key finds.
  abbrev pub guarded : (A → Bool) → Option A → Option A
  guarded p none = none
  guarded p (some x) = if p x then some x else none

  pub find_by-map :
      (key : A → ℕ) (g : A → A) (k : ℕ) (xs : List A)
      → ((x : A) → key (g x) ≡ key x)
      → find_by key k (map g xs) ≡ Option.map g (find_by key k xs)
  unfolding find_by
  find_by-map key g k [] same = refl
  find_by-map key g k (x ∷ xs) same = ground (arith, same x, find_by-map key g k xs same)

  pub find_by-key :
      (key : A → ℕ) (k : ℕ) (xs : List A) (x : A) → find_by key k xs ≡ some x → key x ≡ k
  unfolding find_by
  find_by-key key k [] x h = cc
  find_by-key key k (y ∷ xs) x h = ground (arith, find_by-key key k xs x)

-- Two tables with the same rows in the same places, each pair of rows related.
abbrev pub Rows {ℓ} : {A : Type ℓ} → (A → A → Type 0) → List A → List A → Type 0
Rows R [] [] = Unit
Rows R [] (y ∷ ys) = ⊥
Rows R (x ∷ xs) [] = ⊥
Rows R (x ∷ xs) (y ∷ ys) = R x y × Rows R xs ys

module _ {ℓ} {A : Type ℓ} (R : A → A → Type 0) where
  pub Rows-refl : (xs : List A) → ((x : A) → R x x) → Rows R xs xs
  Rows-refl [] r = tt
  Rows-refl (x ∷ xs) r = (r x, Rows-refl xs r)

  pub Rows-trans :
      (xs ys zs : List A)
      → ((x y z : A) → R x y → R y z → R x z)
      → Rows R xs ys
      → Rows R ys zs
      → Rows R xs zs
  Rows-trans [] [] [] t h k = tt
  Rows-trans [] [] (z ∷ zs) t h k = elim k [ ]
  Rows-trans [] (y ∷ ys) zs t h k = elim h [ ]
  Rows-trans (x ∷ xs) [] zs t h k = elim h [ ]
  Rows-trans (x ∷ xs) (y ∷ ys) [] t h k = elim k [ ]
  Rows-trans (x ∷ xs) (y ∷ ys) (z ∷ zs) t h k = (t x y z h.0 k.0, Rows-trans xs ys zs t h.1 k.1)

  -- A guarded update relates the tables if it relates each row that passes the test.
  pub Rows-update_where :
      (p : A → Bool) (f : A → A) (xs : List A)
      → ((x : A) → R x x)
      → ((x : A) → p x ≡ true → R x (f x))
      → Rows R xs (update_where p f xs)
  Rows-update_where p f [] r h = tt
  Rows-update_where p f (x ∷ xs) r h =
      let rest = Rows-update_where p f xs r h in
      elim (Bool-cases (p x)) [ inl e ↦ rw e (h x e, rest) | inr e ↦ rw e (r x, rest) ]

  pub Rows-find_by :
      (key : A → ℕ) (k : ℕ) (xs ys : List A) (z : A)
      → ((a b : A) → R a b → key b ≡ key a)
      → Rows R xs ys
      → find_by key k xs ≡ some z
      → (y : A) × (find_by key k ys ≡ some y) × R z y
  unfolding find_by
  Rows-find_by key k [] [] z same h e = cc
  Rows-find_by key k [] (y ∷ ys) z same h e = elim h [ ]
  Rows-find_by key k (x ∷ xs) [] z same h e = elim h [ ]
  Rows-find_by key k (x ∷ xs) (y ∷ ys) z same h e = elim (Bool-cases (key x == k)) [
    | inl t ↦ (
      y,
      rw (same x y h.0, t) refl,
      let same_row : x ≡ z = ground arith in subst (λ w. R w y) same_row h.0,
    )
    | inr t ↦ rw (same x y h.0, t) (Rows-find_by key k xs ys z same h.1 (ground arith))
  ]

module _ {ℓ} {A : Type ℓ} where
  pub change-id :
      (key : A → ℕ) (b : Bool) (f : A → A) (x : A)
      → key (f x) ≡ key x
      → key (if b then f x else x) ≡ key x
  change-id key true f x h = h
  change-id key false f x h = refl

  -- What a guarded statement on a key matches: nothing, or the row with the key, which passes.
  pub guarded-cases :
      (p : A → Bool) (o : Option A)
      → (guarded p o ≡ none) ⊎ ((x : A) × (o ≡ some x) × (p x ≡ true) × (guarded p o ≡ some x))
  guarded-cases p none = inl refl
  guarded-cases p (some x) = elim (Bool-cases (p x)) [
    | inl e ↦ inr (x, refl, e, rw e refl)
    | inr e ↦ inl (rw e refl)
  ]

  -- The row of a key after `UPDATE … WHERE id = … AND test`.
  pub find_by-update_key :
      (key : A → ℕ) (k : ℕ) (p : A → Bool) (f : A → A) (xs : List A) (x : A)
      → ((y : A) → key (f y) ≡ key y)
      → find_by key k xs ≡ some x
      → p x ≡ true
      → find_by key k (update_where (λ y. key y == k && p y) f xs) ≡ some (f x)
  find_by-update_key key k p f xs x same found passed =
      let row : key x ≡ k = find_by-key key k xs x found in
      let both : (key x == k && p x) ≡ true =
        rw (&&-true (key x == k) (p x) ((==_iff (key x) k).1 row) passed) in
      rw (
        find_by-map key (change (λ y. key y == k && p y) f) k xs
            (λ y. change-id key (key y == k && p y) f y (same y)),
        found,
        both,
      )

  pub guarded-fails :
      (p : A → Bool) (o : Option A) (x : A) → o ≡ some x → p x ≡ false → guarded p o ≡ none
  guarded-fails p o x found fails = rw found (rw fails refl)

  pub guarded-passes :
      (p : A → Bool) (o : Option A) (x : A) → o ≡ some x → p x ≡ true → guarded p o ≡ some x
  guarded-passes p o x found passes = rw found (rw passes refl)

  -- A row of the second table comes from a related row of the first.
  pub Rows-member :
      (R : A → A → Type 0) (xs ys : List A) (y : A)
      → Rows R xs ys
      → Memᴰ y ys
      → (x : A) × Memᴰ x xs × R x y
  Rows-member R [] [] y h m = elim m [ ]
  Rows-member R (x ∷ xs) [] y h m = elim h [ ]
  Rows-member R [] (z ∷ ys) y h m = elim h [ ]
  Rows-member R (x ∷ xs) (z ∷ ys) y h (Memᴰ.head e) = (x, Memᴰ.head refl, rw e h.0)
  Rows-member R (x ∷ xs) (z ∷ ys) y h (Memᴰ.tail m) =
      let (w, at, r) = Rows-member R xs ys y h.1 m in (w, Memᴰ.tail at, r)

  pub any-false : (p : A → Bool) (xs : List A) (x : A) → any p xs ≡ false → Memᴰ x xs → p x ≡ false
  any-false p [] x h m = elim m [ ]
  any-false p (y ∷ ys) x h (Memᴰ.head e) = rw e (||-eq-false (p y) (any p ys) h).0
  any-false p (y ∷ ys) x h (Memᴰ.tail m) = any-false p ys x (||-eq-false (p y) (any p ys) h).1 m

  pub any-true : (p : A → Bool) (xs : List A) (x : A) → p x ≡ true → Memᴰ x xs → any p xs ≡ true
  any-true p [] x h m = elim m [ ]
  any-true p (y ∷ ys) x h (Memᴰ.head e) = rw (← e, h) refl
  any-true p (y ∷ ys) x h (Memᴰ.tail m) = rw (any-true p ys x h m) (||-true (p y))

  pub any-witness :
      (p : A → Bool) (xs : List A) → any p xs ≡ true → (x : A) × Memᴰ x xs × (p x ≡ true)
  any-witness p [] h = cc
  any-witness p (x ∷ xs) h = elim (Bool-cases (p x)) [
    | inl e ↦ (x, Memᴰ.head refl, e)
    | inr e ↦ let (y, m, q) = any-witness p xs (rw e at h) in (y, Memᴰ.tail m, q)
  ]

  pub update_where-unmatched :
      (p : A → Bool) (f : A → A) (xs : List A) → any p xs ≡ false → update_where p f xs ≡ xs
  update_where-unmatched p f [] h = refl
  update_where-unmatched p f (x ∷ xs) h =
      let (a, b) = ||-eq-false (p x) (any p xs) h in rw (a, update_where-unmatched p f xs b)

  pub count_of-zero : (p : A → Bool) (xs : List A) → count_of p xs ≡ 0 → any p xs ≡ false
  count_of-zero p [] h = refl
  count_of-zero p (x ∷ xs) h = ground (arith, count_of-zero p xs)

  pub count_of-pos : (p : A → Bool) (xs : List A) → any p xs ≡ true → 0 < count_of p xs
  count_of-pos p [] h = cc
  count_of-pos p (x ∷ xs) h = ground (arith, count_of-pos p xs)

  pub update_where-member :
      (p : A → Bool) (f : A → A) (xs : List A) (y : A)
      → Memᴰ y (update_where p f xs)
      → (x : A) × Memᴰ x xs × (y ≡ change p f x)
  update_where-member p f [] y m = elim m [ ]
  update_where-member p f (x ∷ xs) y (Memᴰ.head e) = (x, Memᴰ.head refl, e)
  update_where-member p f (x ∷ xs) y (Memᴰ.tail m) =
      let (z, at, e) = update_where-member p f xs y m in (z, Memᴰ.tail at, e)

  pub Rows-image :
      (R : A → A → Type 0) (xs ys : List A) (x : A)
      → Rows R xs ys
      → Memᴰ x xs
      → (y : A) × Memᴰ y ys × R x y
  Rows-image R [] ys x h m = elim m [ ]
  Rows-image R (w ∷ xs) [] x h m = elim h [ ]
  Rows-image R (w ∷ xs) (y ∷ ys) x h (Memᴰ.head e) = (y, Memᴰ.head refl, rw e h.0)
  Rows-image R (w ∷ xs) (y ∷ ys) x h (Memᴰ.tail m) =
      let (z, at, r) = Rows-image R xs ys x h.1 m in (z, Memᴰ.tail at, r)

  pub take-member : (n : ℕ) (xs : List A) (x : A) → Memᴰ x (take n xs) → Memᴰ x xs
  unfolding take
  take-member zero xs x m = elim m [ ]
  take-member (suc n) [] x m = elim m [ ]
  take-member (suc n) (y ∷ ys) x (Memᴰ.head e) = Memᴰ.head e
  take-member (suc n) (y ∷ ys) x (Memᴰ.tail m) = Memᴰ.tail (take-member n ys x m)

  pub count_of-none :
      (p : A → Bool) (xs : List A) → ((x : A) → Memᴰ x xs → p x ≡ false) → count_of p xs ≡ 0
  count_of-none p [] h = refl
  count_of-none p (x ∷ xs) h =
      rw (h x (Memᴰ.head refl), count_of-none p xs (λ y m. h y (Memᴰ.tail m))) refl
