-- ===== src/Commerce/Naive/Oversell.antt =====
-- Stock under overlapping submissions of the VULNERABLE pipeline.
use mathlib.Core.Path.{subst}
use mathlib.Core.Option
use rupture_grid.Base.{
  ℕ, zero, suc, ◌+◌, ◌-◌, ◌<◌, ◌≡◌, length, refl, sym, ap, ◌∙◌, Bool, true, false, some, List, [],
  ◌∷◌, ◌==◌, if◌then◌else◌, arith, find_by-map, find_by-key, ==_iff, change, change-id,
}
use rupture_grid.Commerce.Reserve.{
  Units, units, short, decrement, Sku, Db, Submission, ReserveOutcome, accepted, broken, violates,
  take_unit,
}
use rupture_grid.Commerce.Naive.{
  proceed, naive_check, find_sku, commit_act, act_on, naive_act, naive_acts, one_if_accepted,
  accepted_count, act_after, overlapping,
}
use rupture_grid.Commerce.Naive.Fresh.{IsNew, AreFresh, IsNew-violates, AreFresh-commit_act}

abbrev times : ℕ → Units → Units
times zero u = u
times (suc k) u = times k (decrement u)

-- The row behind one act, which is answered with `result`.
abbrev Acted : ℕ → Sku → Db × ReserveOutcome → Type 0
Acted row s (db, outcome) =
    (after : Sku) × (find_sku row db ≡ some after)
    × (after.remaining_available_units
        ≡ times (one_if_accepted outcome) s.remaining_available_units)

commit_act-Acted :
    (x : Submission) (row : ℕ) (db : Db) (s : Sku)
    → find_sku row db ≡ some s
    → Acted row s (commit_act x row db, accepted x.order_id x.reservation_id)
commit_act-Acted x row db s h =
    let here : s.id ≡ row = find_by-key (λ (y : Sku). y.id) row db.skus s h in
    let hit : (s.id == row) ≡ true = (==_iff s.id row).1 here in
    let moved =
      find_by-map (λ (y : Sku). y.id) (change (λ (y : Sku). y.id == row) take_unit) row db.skus
        (λ y. change-id (λ (z : Sku). z.id) (y.id == row) take_unit y refl) in
    (
      take_unit s,
      moved
          ∙ (ap (Option.map (change (λ (y : Sku). y.id == row) take_unit)) h
              ∙ ap (λ b. some (if b then take_unit s else s)) hit),
      refl,
    )

act_on-Acted :
    (x : Submission) (row : ℕ) (db : Db) (s : Sku) (b : Bool)
    → find_sku row db ≡ some s
    → Acted row s
        (if b then (db, broken) else (commit_act x row db, accepted x.order_id x.reservation_id))
act_on-Acted x row db s true h = (s, h, refl)
act_on-Acted x row db s false h = commit_act-Acted x row db s h

naive_act-Acted :
    (x : Submission) (row : ℕ) (db : Db) (s : Sku)
    → find_sku row db ≡ some s
    → Acted row s (naive_act x row db)
unfolding naive_act
naive_act-Acted x row db s h =
    subst (λ o. Acted row s (act_on x row db o)) (sym h) (act_on-Acted x row db s (violates x db) h)

no_more : (n : ℕ) → 0 + n ≡ n
no_more n = omega arith

one_more : (k n : ℕ) → suc k + n ≡ suc (k + n)
one_more k n = omega arith

times_add : (k n : ℕ) (u : Units) → times (k + n) u ≡ times n (times k u)
times_add zero n u = ap (λ m. times m u) (no_more n)
times_add (suc k) n u = ap (λ m. times m u) (one_more k n) ∙ times_add k n (decrement u)

naive_acts-remaining :
    (xs : List Submission) (row : ℕ) (db : Db) (s : Sku)
    → find_sku row db ≡ some s
    → (t : Sku) × (find_sku row (naive_acts xs row db) ≡ some t)
      × (t.remaining_available_units ≡ times (accepted_count xs row db) s.remaining_available_units)
unfolding naive_acts accepted_count
naive_acts-remaining [] row db s h = (s, h, refl)
naive_acts-remaining (x ∷ xs) row db s h =
    let (after, found, e) = naive_act-Acted x row db s h in
    let (t, there, f) = naive_acts-remaining xs row (naive_act x row db).0 after found in
    (
      t,
      there,
      f
          ∙ (ap (times (accepted_count xs row (naive_act x row db).0)) e
              ∙ sym (
                  times_add (one_if_accepted (naive_act x row db).1) _
                    s.remaining_available_units)),
    )

times_short : (k n : ℕ) → times k (short n) ≡ short (n + k)
times_short zero n = ap short (omega arith)
times_short (suc k) n = times_short k (suc n) ∙ ap short (omega arith)

-- More decrements than units.
times-short : (r n : ℕ) → times (r + suc n) (units r) ≡ short n
times-short zero n =
    ap (λ k. times k (units 0)) (no_more (suc n)) ∙ times_short n 0 ∙ ap short (no_more n)
times-short (suc r) n = ap (λ k. times k (units (suc r))) (one_more r (suc n)) ∙ times-short r n

-- An act on an existing row with fresh ids commits.
naive_act-commits :
    (x : Submission) (row : ℕ) (db : Db) (s : Sku)
    → find_sku row db ≡ some s
    → IsNew x db
    → naive_act x row db ≡ (commit_act x row db, accepted x.order_id x.reservation_id)
unfolding naive_act
naive_act-commits x row db s found new = rw (found, IsNew-violates x db new) refl

-- Every one of them is accepted, and leaves an order.
naive_acts-accepts :
    (xs : List Submission) (row : ℕ) (db : Db) (s : Sku)
    → find_sku row db ≡ some s
    → AreFresh xs db
    → (accepted_count xs row db ≡ length xs)
      × (length (naive_acts xs row db).orders ≡ length xs + length db.orders)
unfolding naive_acts accepted_count
naive_acts-accepts [] row db s found fresh = (refl, sym (no_more (length db.orders)))
naive_acts-accepts (x ∷ xs) row db s found (new, apart, rest) =
    let commits = naive_act-commits x row db s found new in
    let (after, there, _) = commit_act-Acted x row db s found in
    let (all, orders) =
      naive_acts-accepts xs row (commit_act x row db) after there
        (AreFresh-commit_act x xs row db apart rest) in
    (
      ap (λ p. one_if_accepted p.1 + accepted_count xs row p.0) commits
          ∙ (ap (λ n. 1 + n) all ∙ omega arith),
      ap (λ p. length (naive_acts xs row p.0).orders) commits ∙ (orders ∙ omega arith),
    )

surplus : (r k : ℕ) → r < k → (n : ℕ) × (k ≡ r + suc n)
surplus r k h = (k - suc r, omega (arith, h))

-- The VULNERABLE pipeline oversells: if more submissions for a SKU overlap than the row has units, in
-- any order and with fresh ids, then each of them leaves an order, and the row ends below zero by
-- exactly the surplus.
pub overlapping-oversell :
    (xs : List Submission) (sku row r : ℕ) (db : Db) (s : Sku)
    → naive_check sku db ≡ proceed row
    → find_sku row db ≡ some s
    → s.remaining_available_units ≡ units r
    → AreFresh xs db
    → r < length xs
    → (t : Sku) × (n : ℕ) × (find_sku row (overlapping xs sku db) ≡ some t)
      × (t.remaining_available_units ≡ short n)
      × (length xs ≡ r + suc n)
      × (length (overlapping xs sku db).orders ≡ length xs + length db.orders)
unfolding overlapping
overlapping-oversell xs sku row r db s checked h e fresh more =
    let (t, found, f) = naive_acts-remaining xs row db s h in
    let (all, orders) = naive_acts-accepts xs row db s h fresh in
    let (n, over) = surplus r (length xs) more in
    (
      t,
      n,
      ap (λ c. find_sku row (act_after xs db c)) checked ∙ found,
      f
          ∙ (ap (λ k. times k s.remaining_available_units) (all ∙ over)
              ∙ (ap (times (r + suc n)) e ∙ times-short r n)),
      over,
      ap (λ c. length (act_after xs db c).orders) checked ∙ orders,
    )
