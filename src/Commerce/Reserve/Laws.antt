-- ===== src/Commerce/Reserve/Laws.antt =====
-- Under any order of SECURE submissions an intent is accepted once and no unit is sold twice.
use mathlib.Core.List.{Memᴰ}
use mathlib.Core.Path.{subst}
use rupture_grid.Base.{
  ℕ, zero, suc, ◌+◌, ◌≤◌, ◌≡◌, refl, sym, ap, ◌∙◌, inl, inr, Bool, true, false, List, [], ◌∷◌, any,
  count_of, ◌==◌, if◌then◌else◌, arith, Bool-cases, ==_iff, &&-eq-true, &&-true, any-witness,
  change, update_where, update_where-member,
}
use rupture_grid.Commerce.Reserve.{
  units, is_available, Sku, CheckoutIntent, Order, Reservation, Db, Submission, is_open_intent,
  settle_intent, has_unit, take_unit, violates, commit_reserve, reserve, reserve_all,
}

abbrev pub orders_of : ℕ → Db → ℕ
orders_of intent db = count_of (λ (o : Order). o.intent_id == intent) db.orders

abbrev pub reserved_of : ℕ → Db → ℕ
reserved_of sku db = count_of (λ (r : Reservation). r.sku == sku) db.reservations

-- An intent that is still open has no order, and none has more than one.
abbrev pub IsSettling : Db → Type 0
IsSettling db =
    (intent : ℕ)
    → (orders_of intent db ≤ 1)
      × (any (is_open_intent intent) db.intents ≡ true → orders_of intent db ≡ 0)

-- SKUs are unique, and the remaining units of each are what its reservations have left of the initial.
pub record IsStocked (db : Db) : Type 0 where
  pub unique : (s t : Sku) → Memᴰ s db.skus → Memᴰ t db.skus → s.sku ≡ t.sku → s ≡ t
  pub balanced :
      (s : Sku)
      → Memᴰ s db.skus
      → (left : ℕ) × (s.remaining_available_units ≡ units left)
        × (left + reserved_of s.sku db ≡ s.initial_available_units)

settled_open :
    (id other : ℕ) (is : List CheckoutIntent)
    → any (is_open_intent other) (update_where (is_open_intent id) settle_intent is) ≡ true
    → (any (is_open_intent other) is ≡ true) × ((id == other) ≡ false)
settled_open id other [] h = cc
settled_open id other (i ∷ is) h = ground (arith, settled_open id other is)

commit-IsSettling :
    (x : Submission) (db : Db)
    → any (is_open_intent x.intent.id) db.intents ≡ true
    → IsSettling db
    → IsSettling (commit_reserve x db)
commit-IsSettling x db opened h intent =
    let (most, none_yet) = h intent in
    let (most_here, none_here) = h x.intent.id in
    let nothing = none_here opened in
    let still = settled_open x.intent.id intent db.intents in
    elim (Bool-cases (x.intent.id == intent)) [
      | inl same ↦
          let e : x.intent.id ≡ intent = (==_iff x.intent.id intent).0 same in
          let zero_here : orders_of intent db ≡ 0 = rw (← e) nothing in
          (ground arith, λ k. let (a, b) = still k in cc)
      | inr other ↦ (ground arith, λ k. let (a, b) = still k in let z = none_yet a in ground arith)
    ]

take_one :
    (s : Sku) (left reserved : ℕ)
    → is_available s.remaining_available_units ≡ true
    → s.remaining_available_units ≡ units left
    → left + reserved ≡ s.initial_available_units
    → (l : ℕ) × ((take_unit s).remaining_available_units ≡ units l)
      × (l + suc reserved ≡ s.initial_available_units)
take_one s zero reserved a e h = cc
take_one s (suc l) reserved a e h = (l, rw e refl, omega arith)

counted_one :
    (b : Bool) (l n total : ℕ)
    → b ≡ true
    → l + suc n ≡ total
    → l + ((if b then 1 else 0) + n) ≡ total
counted_one true l n total h k = omega arith
counted_one false l n total h k = cc

counted_none :
    (b : Bool) (l n total : ℕ) → b ≡ false → l + n ≡ total → l + ((if b then 1 else 0) + n) ≡ total
counted_none true l n total h k = cc
counted_none false l n total h k = omega arith

module _ (x : Submission) (db : Db) (stocked : IsStocked db)
    (there : any (has_unit x.intent.sku) db.skus ≡ true) where
  -- The row of the SKU is the one that has a unit.
  available_here :
      (s : Sku)
      → Memᴰ s db.skus
      → s.sku ≡ x.intent.sku
      → is_available s.remaining_available_units ≡ true
  available_here s m same =
      let (w, at, h) = any-witness (has_unit x.intent.sku) db.skus there in
      let (a, b) =
        &&-eq-true (w.sku == x.intent.sku) (is_available w.remaining_available_units) h in
      let e : w ≡ s = stocked.unique w s at m ((==_iff w.sku x.intent.sku).0 a ∙ sym same) in
      ap (λ (t : Sku). is_available t.remaining_available_units) (sym e) ∙ b

  change-sku : (s : Sku) → (change (has_unit x.intent.sku) take_unit s).sku ≡ s.sku
  change-sku s = ground arith

  balanced_row :
      (s : Sku)
      → Memᴰ s db.skus
      → (left : ℕ) × ((change (has_unit x.intent.sku) take_unit s).remaining_available_units
          ≡ units left)
        × (left + reserved_of s.sku (commit_reserve x db) ≡ s.initial_available_units)
  balanced_row s m =
      let (left, e, total) = stocked.balanced s m in
      elim (Bool-cases (x.intent.sku == s.sku)) [
        | inl same ↦
            let k : s.sku ≡ x.intent.sku = sym ((==_iff x.intent.sku s.sku).0 same) in
            let a = available_here s m k in
            let (l, f, t) = take_one s left (reserved_of s.sku db) a e total in
            let hit : has_unit x.intent.sku s ≡ true =
              &&-true _ _ ((==_iff s.sku x.intent.sku).1 k) a in
            (
              l,
              ap (λ b. (if b then take_unit s else s).remaining_available_units) hit ∙ f,
              counted_one _ l _ _ same t,
            )
        | inr other ↦
            let miss : has_unit x.intent.sku s ≡ false = ground arith in
            (
              left,
              ap (λ b. (if b then take_unit s else s).remaining_available_units) miss ∙ e,
              counted_none _ left _ _ other total,
            )
      ]

  moved :
      (s : Sku)
      → Memᴰ s db.skus
      → (left : ℕ) × ((change (has_unit x.intent.sku) take_unit s).remaining_available_units
          ≡ units left)
        × (left + reserved_of (change (has_unit x.intent.sku) take_unit s).sku (commit_reserve x db)
            ≡ (change (has_unit x.intent.sku) take_unit s).initial_available_units)
  moved s m =
      let (left, e, total) = balanced_row s m in
      let same_initial : (change (has_unit x.intent.sku) take_unit s).initial_available_units
          ≡ s.initial_available_units =
        ground arith in
      (
        left,
        e,
        ap (λ k. left + reserved_of k (commit_reserve x db)) (change-sku s)
            ∙ (total ∙ sym same_initial),
      )

  commit-IsStocked : IsStocked (commit_reserve x db)
  commit-IsStocked = record {
    unique = λ s t m n e.
        let (a, at, p) = update_where-member (has_unit x.intent.sku) take_unit db.skus s m in
        let (b, bt, q) = update_where-member (has_unit x.intent.sku) take_unit db.skus t n in
        let same : a.sku ≡ b.sku =
          sym (change-sku a)
          ∙ (sym (ap (λ (u : Sku). u.sku) p) ∙ (e ∙ (ap (λ (u : Sku). u.sku) q ∙ change-sku b))) in
        p ∙ (ap (change (has_unit x.intent.sku) take_unit) (stocked.unique a b at bt same) ∙ sym q);
    balanced = λ s m.
        let (a, at, p) = update_where-member (has_unit x.intent.sku) take_unit db.skus s m in
        subst
          (λ (u : Sku).
            (left : ℕ) × (u.remaining_available_units ≡ units left)
            × (left + reserved_of u.sku (commit_reserve x db) ≡ u.initial_available_units))
          (sym p) (moved a at);
  }

-- What each transaction keeps.
abbrev pub IsSound : Db → Type 0
IsSound db = IsSettling db × IsStocked db

reserve-IsSound : (x : Submission) (db : Db) → IsSound db → IsSound (reserve x db).0
unfolding reserve
reserve-IsSound x db h = elim (Bool-cases (any (is_open_intent x.intent.id) db.intents)) [
  | inr closed ↦ rw closed h
  | inl opened ↦ elim (Bool-cases (any (has_unit x.intent.sku) db.skus)) [
    | inr out ↦ rw (opened, out) h
    | inl there ↦ elim (Bool-cases (violates x db)) [
      | inl bad ↦ rw (opened, there, bad) h
      | inr good ↦
          rw (opened, there, good)
            (commit-IsSettling x db opened h.0, commit-IsStocked x db h.1 there)
    ]
  ]
]

-- Whatever SECURE submissions commit in whatever order: no intent has more than one order, an intent
-- that is still open has none, and the remaining units of every SKU are a natural number, namely
-- what its reservations have left of its initial units. The tables start in such a state.
pub reserve_all-IsSound :
    (xs : List Submission) (db : Db) → IsSound db → IsSound (reserve_all xs db)
unfolding reserve_all
reserve_all-IsSound [] db h = h
reserve_all-IsSound (x ∷ xs) db h = reserve_all-IsSound xs (reserve x db).0 (reserve-IsSound x db h)
