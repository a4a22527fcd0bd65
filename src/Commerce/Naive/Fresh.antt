-- ===== src/Commerce/Naive/Fresh.antt =====
-- Submissions with generated ids of their own, which meet no unique column.
use mathlib.Core.List.{Memᴰ}
use rupture_grid.Base.{
  ℕ, ◌≡◌, ◌≢◌, ◌||◌, inl, inr, any, Bool-cases, refl, Bool, false, List, [], ◌∷◌, ◌==◌, ==_iff,
}
use rupture_grid.Commerce.Reserve.{Db, Submission, Order, Reservation, violates}
use rupture_grid.Commerce.Naive.{commit_act}

-- The generated ids of a submission are in none of the rows.
pub record IsNew (x : Submission) (db : Db) : Type 0 where
  pub orders :
      (o : Order)
      → Memᴰ o db.orders
      → (o.id ≢ x.order_id) × (o.processing_attempt_id ≢ x.attempt_id)
  pub reservations :
      (r : Reservation)
      → Memᴰ r db.reservations
      → (r.id ≢ x.reservation_id) × (r.order_id ≢ x.order_id)

-- Two submissions have no generated id in common.
abbrev pub AreApart : Submission → Submission → Type 0
AreApart x y =
    (x.order_id ≢ y.order_id)
    × (x.attempt_id ≢ y.attempt_id)
    × (x.reservation_id ≢ y.reservation_id)

-- The submissions have generated ids of their own, as a generator of unique ids gives them.
abbrev pub AreFresh : List Submission → Db → Type 0
AreFresh [] db = Unit
AreFresh (x ∷ xs) db = IsNew x db × ((y : Submission) → Memᴰ y xs → AreApart x y) × AreFresh xs db

all_differ :
    {A : Type 0} (p : A → Bool) (xs : List A)
    → ((x : A) → Memᴰ x xs → p x ≡ false)
    → any p xs ≡ false
all_differ p [] h = refl
all_differ p (x ∷ xs) h = rw (h x (Memᴰ.head refl)) (all_differ p xs (λ y m. h y (Memᴰ.tail m)))

differ : (a b : ℕ) → a ≢ b → (a == b) ≡ false
differ a b h = elim (Bool-cases (a == b)) [ inl e ↦ absurd (h ((==_iff a b).0 e)) | inr e ↦ e ]

pub IsNew-violates : (x : Submission) (db : Db) → IsNew x db → violates x db ≡ false
IsNew-violates x db new =
    let no_order =
      all_differ (λ (o : Order). o.id == x.order_id || o.processing_attempt_id == x.attempt_id)
        db.orders
        (λ o m.
          let (a, b) = new.orders o m in
          rw (differ o.id x.order_id a) (differ o.processing_attempt_id x.attempt_id b)) in
    let no_reservation =
      all_differ (λ (r : Reservation). r.id == x.reservation_id || r.order_id == x.order_id)
        db.reservations
        (λ r m.
          let (a, b) = new.reservations r m in
          rw (differ r.id x.reservation_id a) (differ r.order_id x.order_id b)) in
    rw no_order no_reservation

-- The rows of another submission do not stand in the way.
IsNew-commit_act :
    (x y : Submission) (row : ℕ) (db : Db)
    → AreApart x y
    → IsNew y db
    → IsNew y (commit_act x row db)
IsNew-commit_act x y row db (a, b, c) new = record {
  orders = λ o m. elim m [ Memᴰ.head e ↦ rw e (a, b) | Memᴰ.tail n ↦ new.orders o n ];
  reservations = λ r m. elim m [ Memᴰ.head e ↦ rw e (c, a) | Memᴰ.tail n ↦ new.reservations r n ];
}

pub AreFresh-commit_act :
    (x : Submission) (xs : List Submission) (row : ℕ) (db : Db)
    → ((y : Submission) → Memᴰ y xs → AreApart x y)
    → AreFresh xs db
    → AreFresh xs (commit_act x row db)
AreFresh-commit_act x [] row db apart fresh = tt
AreFresh-commit_act x (y ∷ ys) row db apart (new, own, rest) = (
  IsNew-commit_act x y row db (apart y (Memᴰ.head refl)) new,
  own,
  AreFresh-commit_act x ys row db (λ z m. apart z (Memᴰ.tail m)) rest,
)
