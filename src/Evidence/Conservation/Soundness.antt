-- ===== src/Evidence/Conservation/Soundness.antt =====
-- What the verdicts of the resource conservation rest on.
use rupture_grid.Base.{
  ◌≡◌, refl, inl, inr, ℕ, ◌+◌, ◌-◌, ◌≤◌, true, false, not, Option, some, none, List, [], ◌∷◌,
  Bool-cases, &&-eq-true, leb, length, arith, ==_iff,
}
use rupture_grid.Evidence.Values.{ℤ, pos, negsuc, same_ℤ, difference, is_negative}
use rupture_grid.Evidence.Graph.{lookup}
use rupture_grid.Evidence.Input.{
  Script, Input, ConservationParams, pass, fail, not_evaluable, first_gap-Clear,
  first_gap-not_evaluable, gap_result, evaluation_surface_absent, is_subject_contested,
  capture_invalid, is_usable,
}
use rupture_grid.Evidence.AtMostOne.{is_nil}
use rupture_grid.Evidence.Conservation.{
  baseline_fact, attributed_reservations, unattributed_reservations,
  contested_consumption_identities, accepted_reserved_units, type_invalid_consumption,
  negative_consumption, out_of_scope_consumption, remaining_fact, summary_surface, natural_known,
}
use rupture_grid.Evidence.Conservation.Verdict.{
  required_for_authority, is_count, is_enumeration_complete, is_consumption_proven, is_mismatch,
  is_conserved, name_gap, judge_complete, is_exceeded, is_negative_remaining, judge_cases,
  evaluate_conservation,
}
use rupture_grid.Evidence.Conservation.Sums.{
  KeepsSafe, KeepsUnsafe, exact_units, sum_units-exact, baseline_fact-bound,
}

not_pass : pass ≡ not_evaluable → ⊥
not_pass h = cc

pub not_fail : fail ≡ not_evaluable → ⊥
not_fail h = cc

pub is_nil-eq : {A : Type 0} (xs : List A) → is_nil xs ≡ true → xs ≡ []
is_nil-eq [] h = refl
is_nil-eq (x ∷ xs) h = cc

module _ (script : Script) (input : Input) (params : ConservationParams) where
  -- The facts that Case C and PASS share.
  abbrev pub ConsumptionProven : Type 0
  ConsumptionProven =
      (natural_known (summary_surface script input params)
        ≡ some (length (attributed_reservations script input params)))
      × (is_usable (lookup params.completeness_proof.query_id input.captures) ≡ true)
      × (unattributed_reservations script input params ≡ [])
      × (contested_consumption_identities script input params ≡ [])
      × (type_invalid_consumption script input params ≡ [])
      × (negative_consumption script input params ≡ [])
      × (out_of_scope_consumption script input params ≡ [])

  is_count-eq :
      (o : Option ℕ)
      → is_count script input params o ≡ true
      → o ≡ some (length (attributed_reservations script input params))
  is_count-eq none h = cc
  is_count-eq (some n) h =
      let same : length (attributed_reservations script input params) ≡ n = (==_iff _ n).0 h in
      rw same refl

  pub is_consumption_proven-ConsumptionProven :
      is_consumption_proven script input params ≡ true → ConsumptionProven
  unfolding is_consumption_proven is_enumeration_complete
  is_consumption_proven-ConsumptionProven h =
      let (a, h1) = &&-eq-true _ _ h in
      let (b, h2) = &&-eq-true _ _ h1 in
      let (c, h3) = &&-eq-true _ _ h2 in
      let (d, h4) = &&-eq-true _ _ h3 in
      let (e, h5) = &&-eq-true _ _ h4 in
      let (f, g) = &&-eq-true _ _ h5 in
      (
        is_count-eq _ a,
        b,
        is_nil-eq _ c,
        is_nil-eq _ d,
        is_nil-eq _ e,
        is_nil-eq _ f,
        is_nil-eq _ g,
      )

  pub name_gap-verdict : (name_gap script input params).verdict ≡ not_evaluable
  unfolding name_gap
  name_gap-verdict = first_gap-not_evaluable _ (gap_result evaluation_surface_absent) refl

  -- What holds of the numbers after a PASS.
  abbrev pub Conserved : ℕ → ℕ → Type 0
  Conserved baseline remaining =
      (baseline_fact script input params ≡ some baseline)
      × (remaining_fact script input params ≡ some (pos remaining))
      × (remaining + accepted_reserved_units script input params ≡ baseline)
      × (capture_invalid input (required_for_authority script input params) ≡ [])
      × ConsumptionProven

  same_ℤ-difference :
      (z : ℤ) (b s : ℕ)
      → same_ℤ z (difference b s) ≡ true
      → leb s b ≡ true
      → not (is_negative z) ≡ true
      → (r : ℕ) × (z ≡ pos r) × (r + s ≡ b)
  unfolding difference
  same_ℤ-difference (negsuc n) b s h le pos_z = cc
  same_ℤ-difference (pos n) b s h le pos_z =
      let equal = (==_iff n (b - s)).0 (rw le at h) in (n, refl, ground arith)

  is_conserved-Conserved :
      (b : Option ℕ) (z : Option ℤ)
      → baseline_fact script input params ≡ b
      → remaining_fact script input params ≡ z
      → is_conserved script input params b z ≡ true
      → (baseline : ℕ) × (remaining : ℕ) × Conserved baseline remaining
  unfolding is_conserved
  is_conserved-Conserved none z at_b at_z h = cc
  is_conserved-Conserved (some b) none at_b at_z h = cc
  is_conserved-Conserved (some b) (some z) at_b at_z h =
      let (a, h1) = &&-eq-true _ _ h in
      let (c, h2) = &&-eq-true _ _ h1 in
      let (d, h3) = &&-eq-true _ _ h2 in
      let (e, f) = &&-eq-true _ _ h3 in
      let (r, is_r, sum) =
        same_ℤ-difference z b (accepted_reserved_units script input params) d e f in
      (
        b,
        r,
        (at_b, rw (← is_r) at_z, sum, is_nil-eq _ c, is_consumption_proven-ConsumptionProven a),
      )

  judge_complete-pass :
      (judge_complete script input params).verdict ≡ pass
      → (baseline : ℕ) × (remaining : ℕ) × Conserved baseline remaining
  unfolding judge_complete
  judge_complete-pass h =
      elim (Bool-cases (
        is_mismatch script input params (baseline_fact script input params)
          (remaining_fact script input params))) [
            | inl e ↦ let clash : fail ≡ pass = rw e at h in cc
            | inr e ↦
                elim (Bool-cases (
                  is_conserved script input params (baseline_fact script input params)
                    (remaining_fact script input params))) [
                      | inl d ↦ is_conserved-Conserved _ _ refl refl d
                      | inr d ↦
                          let clash : (name_gap script input params).verdict ≡ pass =
                            rw (e, d) at h in
                          let gap = name_gap-verdict in cc
                    ]
          ]

  -- The computed sum is the exact one if it is at most a baseline.
  pub exact_below :
      (b : ℕ)
      → KeepsSafe script
      → KeepsUnsafe script
      → baseline_fact script input params ≡ some b
      → accepted_reserved_units script input params ≤ b
      → accepted_reserved_units script input params
        ≡ exact_units (attributed_reservations script input params)
  unfolding accepted_reserved_units
  exact_below b same up at le =
      let bound = baseline_fact-bound script input params b at in
      elim (sum_units-exact script input params 0 (attributed_reservations script input params) same
        up) [ inl e ↦ omega arith | inr (e, f) ↦ absurd (omega arith) ]

  -- If JavaScript's additions are exact on the safe integers and keep unsafe sums unsafe, a PASS
  -- rests on a resource whose first event is not contested, on valid captures of every required
  -- query, on an observed total that counts the attributed reservations, none unattributed or
  -- contradictory, and on a baseline that is the remaining units and the exact sum of the reserved
  -- units together.
  pub evaluate_conservation-pass :
      KeepsSafe script
      → KeepsUnsafe script
      → (evaluate_conservation script input params).verdict ≡ pass
      → (is_subject_contested input ≡ false)
        × ((baseline : ℕ) × (remaining : ℕ) × Conserved baseline remaining
            × (remaining + exact_units (attributed_reservations script input params) ≡ baseline))
  unfolding evaluate_conservation judge_cases
  evaluate_conservation-pass same up h =
      let (a, b) = first_gap-Clear _ (judge_cases script input params) pass not_pass h in
      elim (Bool-cases (is_exceeded script input params)) [
        | inl e ↦ let clash : fail ≡ pass = rw e at b in cc
        | inr e ↦ elim (Bool-cases (is_negative_remaining script input params)) [
          | inl d ↦ let clash : fail ≡ pass = rw (e, d) at b in cc
          | inr d ↦
              let (c, f) =
                first_gap-Clear _ (judge_complete script input params) pass not_pass
                  (rw (e, d) at b) in
              let (base, rest, conserved) = judge_complete-pass f in
              let sum = conserved.2 in
              let exact = exact_below base same up conserved.0 (omega arith) in
              (a.1.0, (base, rest, conserved, rw (← exact) sum))
        ]
      ]
