-- ===== src/Evidence/Conservation/Failing.antt =====
-- What a FAIL of the resource conservation rests on, by its mechanism.
use rupture_grid.Base.{
  ◌≡◌, refl, ◌⊎◌, inl, inr, ℕ, ◌≤◌, ◌<◌, Bool, true, false, not, ◌&&◌, Option, some, none, List, [],
  ◌∷◌, Bool-cases, &&-eq-true, ltb, arith,
}
use rupture_grid.Evidence.Values.{ℤ, pos, negsuc, same_ℤ, difference}
use rupture_grid.Evidence.Input.{
  Script, Input, ConservationParams, pass, fail, first_gap-Clear, is_subject_contested,
}
use rupture_grid.Evidence.AtMostOne.{is_nil}
use rupture_grid.Evidence.Conservation.{
  Reservation, sum_units, baseline_fact, attributed_reservations, accepted_reserved_units,
  is_remaining_authoritative, remaining_fact,
}
use rupture_grid.Evidence.Conservation.Verdict.{
  is_mismatch, is_conserved, name_gap, judge_complete, exceeds, is_exceeded, is_below_zero,
  is_negative_remaining, judge_cases, evaluate_conservation,
}
use rupture_grid.Evidence.Conservation.Soundness.{
  not_fail, ConsumptionProven, is_consumption_proven-ConsumptionProven, name_gap-verdict,
  exact_below,
}
use rupture_grid.Evidence.Conservation.Sums.{
  KeepsSafe, KeepsUnsafe, exact_units, sum_units-exact, baseline_fact-bound,
}

not-true : (b : Bool) → not b ≡ true → b ≡ false
not-true true h = cc
not-true false h = refl

module _ (script : Script) (input : Input) (params : ConservationParams) where
  -- Case A: more units are reserved than the baseline has.
  abbrev pub Exceeded : Type 0
  Exceeded =
      (baseline : ℕ) × (baseline_fact script input params ≡ some baseline)
      × (baseline < exact_units (attributed_reservations script input params))

  -- Case B: every remaining query is valid, and the remaining state is negative.
  abbrev pub NegativeRemaining : Type 0
  NegativeRemaining =
      (n : ℕ) × (remaining_fact script input params ≡ some (negsuc n))
      × (is_remaining_authoritative script input params ≡ true)

  -- Case C: with a complete enumeration, the remaining state is not what the reservations leave.
  abbrev pub Mismatch : Type 0
  Mismatch =
      (baseline : ℕ) × (remaining : ℤ) × (baseline_fact script input params ≡ some baseline)
      × (remaining_fact script input params ≡ some remaining)
      × (same_ℤ remaining
            (difference baseline (exact_units (attributed_reservations script input params)))
          ≡ false)
      × (is_remaining_authoritative script input params ≡ true)
      × ConsumptionProven script input params

  exceeds-Exceeded :
      (o : Option ℕ)
      → KeepsSafe script
      → KeepsUnsafe script
      → baseline_fact script input params ≡ o
      → exceeds script input params o ≡ true
      → Exceeded
  unfolding accepted_reserved_units
  exceeds-Exceeded none same up at h = cc
  exceeds-Exceeded (some b) same up at h =
      let above : b < accepted_reserved_units script input params = ground arith in
      let bound = baseline_fact-bound script input params b at in
      elim (sum_units-exact script input params 0 (attributed_reservations script input params) same
        up) [ inl e ↦ (b, at, omega arith) | inr (e, f) ↦ (b, at, omega arith) ]

  is_below_zero-negsuc : (o : Option ℤ) → is_below_zero o ≡ true → (n : ℕ) × (o ≡ some (negsuc n))
  is_below_zero-negsuc none h = cc
  is_below_zero-negsuc (some (pos n)) h = cc
  is_below_zero-negsuc (some (negsuc n)) h = (n, refl)

  sum_units_below :
      (rs : List Reservation) (b : ℕ)
      → (not (is_nil rs) && ltb b (sum_units script input params 0 rs)) ≡ false
      → sum_units script input params 0 rs ≤ b
  unfolding sum_units
  sum_units_below [] b h = omega arith
  sum_units_below (r ∷ rs) b h = ground arith

  -- Without Case A, the sum is at most the baseline.
  sum_below :
      (o : Option ℕ) (b : ℕ)
      → o ≡ some b
      → exceeds script input params o ≡ false
      → accepted_reserved_units script input params ≤ b
  unfolding accepted_reserved_units
  sum_below none b at h = cc
  sum_below (some c) b at h =
      let same : c ≡ b = cc in
      sum_units_below (attributed_reservations script input params) b (rw same at h)

  is_mismatch-Mismatch :
      (o : Option ℕ) (z : Option ℤ)
      → KeepsSafe script
      → KeepsUnsafe script
      → baseline_fact script input params ≡ o
      → remaining_fact script input params ≡ z
      → exceeds script input params o ≡ false
      → is_mismatch script input params o z ≡ true
      → Mismatch
  unfolding is_mismatch
  is_mismatch-Mismatch none z same up at_b at_z no_a h = cc
  is_mismatch-Mismatch (some b) none same up at_b at_z no_a h = cc
  is_mismatch-Mismatch (some b) (some z) same up at_b at_z no_a h =
      let (a, h1) = &&-eq-true _ _ h in
      let (c, h2) = &&-eq-true _ _ h1 in
      let (d, e) = &&-eq-true _ _ h2 in
      let exact = exact_below script input params b same up at_b (sum_below (some b) b refl no_a) in
      (
        b,
        z,
        at_b,
        at_z,
        not-true _ (rw exact at e),
        d,
        is_consumption_proven-ConsumptionProven script input params a,
      )

  -- If JavaScript's additions are exact on the safe integers and keep unsafe sums unsafe, a FAIL
  -- rests on a resource whose first event is not contested and on one of three violations: the
  -- exact sum of the attributed reservations is above the baseline; or a valid remaining surface
  -- is negative; or, with a complete enumeration without contradictions, the remaining units are
  -- not the baseline less that sum.
  pub evaluate_conservation-fail :
      KeepsSafe script
      → KeepsUnsafe script
      → (evaluate_conservation script input params).verdict ≡ fail
      → (is_subject_contested input ≡ false) × (Exceeded ⊎ (NegativeRemaining ⊎ Mismatch))
  unfolding evaluate_conservation judge_cases is_exceeded is_negative_remaining judge_complete
  evaluate_conservation-fail same up h =
      let (a, b) = first_gap-Clear _ (judge_cases script input params) fail not_fail h in
      let base = baseline_fact script input params in
      let rest = remaining_fact script input params in
      elim (Bool-cases (exceeds script input params base)) [
        | inl e ↦ (a.1.0, inl (exceeds-Exceeded base same up refl e))
        | inr e ↦
            elim (Bool-cases
              (is_remaining_authoritative script input params && is_below_zero rest)) [
                | inl d ↦
                    let (valid, below) = &&-eq-true _ _ d in
                    let (n, at) = is_below_zero-negsuc rest below in
                    (a.1.0, inr (inl (n, at, valid)))
                | inr d ↦
                    let (c, f) =
                      first_gap-Clear _ (judge_complete script input params) fail not_fail
                        (rw (e, d) at b) in
                    elim (Bool-cases (is_mismatch script input params base rest)) [
                      | inl m ↦
                          (a.1.0, inr (inr (is_mismatch-Mismatch base rest same up refl refl e m)))
                      | inr m ↦ elim (Bool-cases (is_conserved script input params base rest)) [
                        | inl k ↦ let clash : pass ≡ fail = rw (m, k) at f in cc
                        | inr k ↦
                            let clash : (name_gap script input params).verdict ≡ fail =
                              rw (m, k) at f in
                            let gap = name_gap-verdict script input params in cc
                      ]
                    ]
              ]
      ]
