-- ===== src/Evidence/Conservation/Sums.antt =====
-- The rounding of JavaScript's numbers does not change a comparison of the sum with a safe baseline.
use rupture_grid.Base.{
  ◌≡◌, refl, ◌⊎◌, inl, inr, ℕ, ◌+◌, ◌≤◌, ◌<◌, Option, some, none, List, [], ◌∷◌, leb, ltb,
  Bool-cases, arith,
}
use rupture_grid.Evidence.Values.{
  ℤ, pos, negsuc, Value, integer, safe_integer, max_safe, Converged, nothing_observed, conflicting,
  one_value,
}
use rupture_grid.Evidence.Input.{
  Script, Input, ConservationParams, capture_invalid, queries_for_role,
}
use rupture_grid.Evidence.AtMostOne.{is_nil}
use rupture_grid.Evidence.Conservation.{
  Reservation, natural_fact, natural_of, natural_known, is_role_contested, sum_units, baseline_fact,
  baseline_surface,
}

-- A safe sum is exact.
abbrev pub KeepsSafe : Script → Type 0
KeepsSafe script = (n : ℕ) → n ≤ max_safe → script.rounded n ≡ n

-- A sum that is not safe is not rounded to a safe one.
abbrev pub KeepsUnsafe : Script → Type 0
KeepsUnsafe script = (n : ℕ) → max_safe < n → max_safe < script.rounded n

-- The exact sum of the units.
abbrev pub exact_units : List Reservation → ℕ
exact_units [] = 0
exact_units (r ∷ rs) = r.units + exact_units rs

module _ (script : Script) (input : Input) (params : ConservationParams) where
  sum_units-unsafe :
      (total : ℕ) (rs : List Reservation)
      → KeepsUnsafe script
      → max_safe < total
      → max_safe < sum_units script input params total rs
  unfolding sum_units
  sum_units-unsafe total [] up h = h
  sum_units-unsafe total (r ∷ rs) up h =
      sum_units-unsafe (script.rounded (total + r.units)) rs up (up (total + r.units) (omega arith))

  -- The computed sum is exact, or both sums are above the safe integers.
  pub sum_units-exact :
      (total : ℕ) (rs : List Reservation)
      → KeepsSafe script
      → KeepsUnsafe script
      → (sum_units script input params total rs ≡ total + exact_units rs)
        ⊎ ((max_safe < sum_units script input params total rs)
            × (max_safe < total + exact_units rs))
  unfolding sum_units
  sum_units-exact total [] same up = inl (omega arith)
  sum_units-exact total (r ∷ rs) same up = elim (Bool-cases (leb (total + r.units) max_safe)) [
    | inl e ↦
        let exact = same (total + r.units) (ground arith) in
        elim (sum_units-exact (total + r.units) rs same up) [
          | inl f ↦ inl (rw exact (let g = f in omega arith))
          | inr (f, g) ↦ inr (rw exact f, omega arith)
        ]
    | inr e ↦
        let above : max_safe < total + r.units = ground arith in
        inr (
          sum_units-unsafe (script.rounded (total + r.units)) rs up (up (total + r.units) above),
          omega arith,
        )
  ]

  safe_integer-bound : (v : Value) (n : ℕ) → safe_integer v ≡ some (pos n) → n ≤ max_safe
  unfolding safe_integer
  safe_integer-bound (integer (pos m)) n h = elim (Bool-cases (leb m max_safe)) [
    | inl e ↦
        let same : some (pos m) ≡ some (pos n) = rw e at h in let equal : m ≡ n = cc in ground arith
    | inr e ↦ let clash : none ≡ some (pos n) = rw e at h in cc
  ]
  safe_integer-bound (integer (negsuc m)) n h = elim (Bool-cases (ltb m max_safe)) [
    | inl e ↦ let clash : some (negsuc m) ≡ some (pos n) = rw e at h in cc
    | inr e ↦ let clash : none ≡ some (pos n) = rw e at h in cc
  ]
  safe_integer-bound v n h = cc

  natural_known-bound :
      (c : Converged) (n : ℕ) → natural_known (natural_of c) ≡ some n → n ≤ max_safe
  natural_known-bound nothing_observed n h = cc
  natural_known-bound conflicting n h = cc
  natural_known-bound (one_value v) n h = safe_integer-bound v n (known_back (safe_integer v) h)
    where
      known_back : (o : Option ℤ) → natural_known (natural_fact o) ≡ some n → o ≡ some (pos n)
      known_back none e = cc
      known_back (some (negsuc m)) e = cc
      known_back (some (pos m)) e = let same : m ≡ n = cc in rw same refl

  -- A baseline is a safe integer.
  pub baseline_fact-bound : (n : ℕ) → baseline_fact script input params ≡ some n → n ≤ max_safe
  unfolding baseline_fact baseline_surface
  baseline_fact-bound n h =
      elim (Bool-cases (is_role_contested script input params params.baseline_role)) [
        | inl e ↦ let clash : none ≡ some n = rw e at h in cc
        | inr e ↦
            elim (Bool-cases
              (is_nil (capture_invalid input (queries_for_role input params.baseline_role)))) [
                | inl d ↦ natural_known-bound _ n (rw (e, d) at h)
                | inr d ↦ let clash : none ≡ some n = rw (e, d) at h in cc
              ]
      ]
