-- ===== src/Commerce/Examples.antt =====
-- One unit and one open intent, submitted twice.
use mathlib.Core.List.{Memᴰ}
use rupture_grid.Base.{
  ℕ, suc, ◌+◌, some, find_by, ◌≡◌, refl, sym, ◌∙◌, List, [], ◌∷◌, length, arith,
}
use rupture_grid.Commerce.Reserve.{
  units, short, Sku, unsettled, CheckoutIntent, Db, Submission, reserve_all,
}
use rupture_grid.Commerce.Reserve.Laws.{IsSettling, IsStocked, IsSound, reserve_all-IsSound}
use rupture_grid.Commerce.Naive.{naive_check, find_sku, overlapping}
use rupture_grid.Commerce.Naive.Fresh.{IsNew, AreApart, AreFresh}
use rupture_grid.Commerce.Naive.Oversell.{overlapping-oversell}

abbrev last_unit : Sku
last_unit = record {
  id = 1;
  sku = 5;
  initial_available_units = 1;
  remaining_available_units = units 1;
}

abbrev intent : CheckoutIntent
intent = record { id = 2; sku = 5; status = unsettled }

abbrev shop : Db
shop = record { skus = last_unit ∷ []; intents = intent ∷ []; orders = []; reservations = [] }

abbrev submission : ℕ → Submission
submission n = record { intent = intent; attempt_id = n; order_id = n; reservation_id = n }

only_row : (s : Sku) → Memᴰ s shop.skus → s ≡ last_unit
only_row s (Memᴰ.head e) = e
only_row s (Memᴰ.tail m) = elim m [ ]

shop-IsStocked : IsStocked shop
shop-IsStocked = record {
  unique = λ s t m n e. only_row s m ∙ sym (only_row t n);
  balanced = λ s m. rw (only_row s m) (1, refl, refl);
}

shop-IsSettling : IsSettling shop
shop-IsSettling id = (omega arith, λ opened. refl)

reserve_all-IsSound_example : IsSound (reserve_all (submission 10 ∷ submission 11 ∷ []) shop)
reserve_all-IsSound_example =
    reserve_all-IsSound (submission 10 ∷ submission 11 ∷ []) shop (shop-IsSettling, shop-IsStocked)

abbrev rush : List Submission
rush = submission 10 ∷ submission 11 ∷ []

submission-IsNew : (n : ℕ) → IsNew (submission n) shop
submission-IsNew n = record { orders = λ o m. elim m [ ]; reservations = λ r m. elim m [ ] }

apart : AreApart (submission 10) (submission 11)
apart = (λ e. omega (arith, e), λ e. omega (arith, e), λ e. omega (arith, e))

rush-AreFresh : AreFresh rush shop
rush-AreFresh = (
  submission-IsNew 10,
  (λ y m. elim m [ Memᴰ.head e ↦ rw e apart | Memᴰ.tail n ↦ elim n [ ] ]),
  (submission-IsNew 11, (λ y m. elim m [ ]), tt),
)

overlapping-oversell_example :
    (t : Sku) × (n : ℕ) × (find_sku 1 (overlapping rush 5 shop) ≡ some t)
    × (t.remaining_available_units ≡ short n)
    × (length rush ≡ 1 + suc n)
    × (length (overlapping rush 5 shop).orders ≡ length rush + length shop.orders)
unfolding naive_check find_by
overlapping-oversell_example =
    overlapping-oversell rush 5 1 1 shop last_unit refl refl refl rush-AreFresh (omega arith)
