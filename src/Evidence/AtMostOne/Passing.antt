-- ===== src/Evidence/AtMostOne/Passing.antt =====
-- What a PASS of the at-most-one evaluation has checked.
use mathlib.Core.List.{Memᴰ}
use rupture_grid.Base.{
  ◌≡◌, refl, inl, inr, Bool, true, false, not, Option, none, some, List, [], ◌∷◌, codes, Bool-cases,
  &&-eq-true, any, any-false, ltb, ◌≤◌, arith, length, ==_iff,
}
use rupture_grid.Evidence.Values.{ℤ, pos, negsuc, same_value, safe_integer, converge_values}
use rupture_grid.Evidence.Graph.{lookup}
use rupture_grid.Evidence.Input.{
  Script, Entity, AtMostOneParams, Input, pass, not_evaluable, pass_result, fail_result,
  too_many_accepted_effects, incomplete, first_gap-Clear, is_usable, is_subject_contested,
  capture_invalid,
}
use rupture_grid.Evidence.Candidates.{declared_value, lacks_identity, in_scope}
use rupture_grid.Evidence.Candidates.Members.{keep-member}
use rupture_grid.Evidence.AtMostOne.{
  is_nil, subject_value, contested_effects, affecting_contested, attributed, unattributed,
  from_query, summary_entities, bound_summaries, totals_of, required_for_pass, judge_total,
  judge_converged, judge_completeness, judge_contested, judge_effects, evaluate_at_most_one,
}

passes : pass ≡ not_evaluable → ⊥
passes h = cc

not-false : (b : Bool) → not b ≡ false → b ≡ true
not-false true h = refl
not-false false h = cc

pub is_nil-eq : {A : Type 0} (xs : List A) → not (is_nil xs) ≡ false → xs ≡ []
is_nil-eq [] h = refl
is_nil-eq (x ∷ xs) h = cc

module _ (script : Script) (input : Input) (params : AtMostOneParams) where
  -- A summary that its query captured for the subject, with a total of the counted effects.
  abbrev pub IsSummary : Entity → Type 0
  IsSummary e =
      Memᴰ e input.entities
      × (from_query script input params (lookup e.query_id input.captures)
            params.completeness_proof.query_id
          ≡ true)
      × (same_value (declared_value e params.completeness_proof.subject_field)
            (subject_value script input params params.subject_identity_field)
          ≡ true)
      × (in_scope (codes "summary") input.subject.subject_payload params.scope_binding e ≡ true)
      × (safe_integer (declared_value e params.completeness_proof.total_field)
          ≡ some (pos (length (attributed script input params))))

  judge_total-pass :
      (o : Option ℤ)
      → (judge_total script input params o).verdict ≡ pass
      → (o ≡ some (pos (length (attributed script input params))))
        × (length (attributed script input params) ≤ params.max_accepted_effects)
  unfolding judge_total
  judge_total-pass none h = cc
  judge_total-pass (some (negsuc n)) h = cc
  judge_total-pass (some (pos n)) h =
      let (a, b) = first_gap-Clear _ pass_result pass passes h in
      let same : length (attributed script input params) ≡ n = (==_iff _ n).0 (not-false _ a.1.0) in
      (rw same refl, ground (arith, a.1.1.0))

  judge_converged-pass :
      (es : List Entity)
      → (judge_converged script input params
          (converge_values (totals_of script input params es))).verdict
        ≡ pass
      → (e : Entity) × Memᴰ e es
        × (safe_integer (declared_value e params.completeness_proof.total_field)
            ≡ some (pos (length (attributed script input params))))
        × (length (attributed script input params) ≤ params.max_accepted_effects)
  unfolding judge_converged converge_values
  judge_converged-pass [] h = cc
  judge_converged-pass (e ∷ es) h =
      let first = declared_value e params.completeness_proof.total_field in
      elim (Bool-cases (any (λ v. not (same_value first v)) (totals_of script input params es))) [
        | inl s ↦ let clash : not_evaluable ≡ pass = rw s at h in cc
        | inr s ↦
            let (a, b) =
              first_gap-Clear _ (judge_total script input params (safe_integer first)) pass passes
                (rw s at h) in
            let (c, d) = judge_total-pass (safe_integer first) b in (e, Memᴰ.head refl, c, d)
      ]

  -- What the early returns behind the lower bound have excluded.
  abbrev pub PassedGuards : Type 0
  PassedGuards =
      (is_subject_contested input ≡ false)
      × (lacks_identity script params.effect_identity_field (contested_effects script input params)
          ≡ false)
      × (affecting_contested script input params ≡ [])
      × (unattributed script input params ≡ [])
      × (is_usable (lookup params.completeness_proof.query_id input.captures) ≡ true)
      × (capture_invalid input (required_for_pass script input params) ≡ [])

  judge_contested-pass :
      (judge_contested script input params).verdict ≡ pass
      → PassedGuards
        × (length (attributed script input params) ≤ params.max_accepted_effects)
        × ((e : Entity) × IsSummary e × (e.contested ≡ false))
  unfolding judge_contested judge_completeness bound_summaries summary_entities
  judge_contested-pass h =
      let (a, h1) = first_gap-Clear _ (judge_completeness script input params) pass passes h in
      let (b, h2) = first_gap-Clear _ _ pass passes h1 in
      let (e, m, total, bound) = judge_converged-pass (bound_summaries script input params) h2 in
      let (n, bound_here) = keep-member _ _ e m in
      let (subject, scoped) = &&-eq-true _ _ bound_here in
      let (o, captured) = keep-member _ _ e n in
      (
        (
          a.0,
          a.1.0,
          is_nil-eq _ a.1.1.0,
          is_nil-eq _ a.1.1.1.0,
          not-false _ b.0,
          is_nil-eq _ b.1.0,
        ),
        bound,
        (e, (o, captured, subject, scoped, total), any-false _ _ e b.1.1.0 m),
      )

  -- A PASS rests on a subject whose first event is not contested, on a summary that is not, on
  -- valid captures of every required query, on the attribution of every candidate, and on a count of the
  -- attributed effects that is the observed total and at most the maximum.
  pub evaluate_at_most_one-pass :
      (evaluate_at_most_one script input params).verdict ≡ pass
      → PassedGuards
        × (length (attributed script input params) ≤ params.max_accepted_effects)
        × ((e : Entity) × IsSummary e × (e.contested ≡ false))
  unfolding evaluate_at_most_one judge_effects
  evaluate_at_most_one-pass h =
      let (a, b) = first_gap-Clear _ (judge_effects script input params) pass passes h in
      elim (Bool-cases
        (ltb params.max_accepted_effects (length (attributed script input params)))) [
          | inl e ↦
              let (c, d) =
                first_gap-Clear _ (fail_result too_many_accepted_effects incomplete) pass passes
                  (rw e at b) in
              cc
          | inr e ↦ judge_contested-pass (rw e at b)
        ]
