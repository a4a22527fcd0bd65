-- ===== src/Evidence/AtMostOne/Failing.antt =====
-- What a FAIL of the at-most-one evaluation rests on.
use mathlib.Core.List.{Memᴰ}
use rupture_grid.Base.{
  ◌≡◌, refl, inl, inr, true, false, Option, none, some, List, [], ◌∷◌, Text, codes, Bool-cases,
  Option-cases, &&-eq-true, any-witness, ltb, ◌<◌, arith, length,
}
use rupture_grid.Evidence.Values.{
  ℤ, pos, negsuc, safe_integer, Converged, nothing_observed, conflicting, one_value,
}
use rupture_grid.Evidence.Graph.{Relationship, attributable}
use rupture_grid.Evidence.Graph.Paths.{PathOf, attributable_sound}
use rupture_grid.Evidence.Input.{
  Script, Entity, AtMostOneParams, Input, fail, not_evaluable, pass_result, first_gap-Clear,
  is_subject_contested,
}
use rupture_grid.Evidence.Candidates.{
  Candidate, is_accepted, is_equivalent, in_scope, is_attributed, keys_of, keyed, events_of,
}
use rupture_grid.Evidence.Candidates.Members.{
  IsKeyed, keep-member, events_of-member, keyed-member, distinct_candidates-member,
}
use rupture_grid.Evidence.Candidates.Distinct.{
  Distinct, Distinct-keep, Distinct-distinct_candidates,
}
use rupture_grid.Evidence.AtMostOne.{
  is_candidate_worthy, candidates, attributed, contested_effect_keys, judge_completeness,
  judge_total, judge_converged, judge_contested, judge_effects, evaluate_at_most_one,
}

not_a_gap : fail ≡ not_evaluable → ⊥
not_a_gap h = cc

pub is_attributed-path :
    (rels : List Relationship) (subject_events : List Text) (e : Entity)
    → is_attributed rels subject_events e ≡ true
    → (s : Text) × Memᴰ s subject_events
      × ((path : List Relationship) × PathOf rels s path e.event_id)
unfolding is_attributed
is_attributed-path rels subject_events e h =
    let (s, m, f) = any-witness _ subject_events h in
    elim (Option-cases (attributable rels s e.event_id)) [
      | inl n ↦ let clash : false ≡ true = rw n at f in cc
      | inr (p, q) ↦ (s, m, (p, attributable_sound rels s e.event_id p q))
    ]

module _ (script : Script) (input : Input) (params : AtMostOneParams) where
  -- An effect of the evidence that counts against the subject under an identity.
  abbrev pub IsCounted : Text → Entity → Type 0
  IsCounted k e =
      Memᴰ e input.entities
      × (e.role_id ≡ params.effect_role)
      × (e.contested ≡ false)
      × IsKeyed script params.effect_identity_field k e
      × (is_accepted params.accepted_match e ≡ true)
      × (is_equivalent params.equivalence_fields input.subject.subject_payload e ≡ true)
      × (in_scope (codes "effect") input.subject.subject_payload params.scope_binding e ≡ true)
      × ((s : Text) × Memᴰ s input.subject.subject_event_ids
          × ((path : List Relationship) × PathOf input.active_relationships s path e.event_id))

  pub attributed-IsCounted :
      (k : Text) (e : Entity) → Memᴰ (k, e) (attributed script input params) → IsCounted k e
  unfolding attributed candidates is_candidate_worthy
  attributed-IsCounted k e m =
      let (a, reached) = keep-member _ _ (k, e) m in
      let (b, worthy) = keep-member _ _ (k, e) a in
      let source = events_of params.effect_role false input.entities in
      let (c, key) = keyed-member script params.effect_identity_field source k e (
        distinct_candidates-member script (contested_effect_keys script input params)
          (keyed script params.effect_identity_field source) k e b) in
      let (d, role, clean) = events_of-member params.effect_role input.entities e c in
      let (accepted, rest) = &&-eq-true _ _ worthy in
      let (equivalent, scoped) = &&-eq-true _ _ rest in
      (
        d,
        role,
        clean,
        key,
        accepted,
        equivalent,
        scoped,
        is_attributed-path input.active_relationships input.subject.subject_event_ids e reached,
      )

  abbrev pub AreCounted : List Candidate → Type 0
  AreCounted [] = Unit
  AreCounted ((k, e) ∷ cs) = IsCounted k e × AreCounted cs

  AreCounted-all :
      (cs : List Candidate)
      → ((k : Text) (e : Entity) → Memᴰ (k, e) cs → IsCounted k e)
      → AreCounted cs
  AreCounted-all [] h = tt
  AreCounted-all ((k, e) ∷ cs) h =
      (h k e (Memᴰ.head refl), AreCounted-all cs (λ j f m. h j f (Memᴰ.tail m)))

  pub attributed-Distinct : Distinct (keys_of (attributed script input params))
  unfolding attributed candidates
  attributed-Distinct = Distinct-keep _ _ (
      Distinct-keep _ _
        (Distinct-distinct_candidates script (contested_effect_keys script input params) _))

  judge_total-fail : (o : Option ℤ) → (judge_total script input params o).verdict ≡ fail → ⊥
  unfolding judge_total
  judge_total-fail none h = cc
  judge_total-fail (some (negsuc n)) h = cc
  judge_total-fail (some (pos n)) h =
      let (a, b) = first_gap-Clear _ pass_result fail not_a_gap h in cc

  judge_converged-fail :
      (c : Converged) → (judge_converged script input params c).verdict ≡ fail → ⊥
  unfolding judge_converged
  judge_converged-fail conflicting h = cc
  judge_converged-fail nothing_observed h = cc
  judge_converged-fail (one_value v) h =
      let (a, b) = first_gap-Clear _ _ fail not_a_gap h in judge_total-fail (safe_integer v) b

  judge_contested-fail : (judge_contested script input params).verdict ≡ fail → ⊥
  unfolding judge_contested judge_completeness
  judge_contested-fail h =
      let (a, b) = first_gap-Clear _ (judge_completeness script input params) fail not_a_gap h in
      let (c, d) = first_gap-Clear _ _ fail not_a_gap b in judge_converged-fail _ d

  judge_effects-fail :
      (judge_effects script input params).verdict ≡ fail
      → (is_subject_contested input ≡ false)
        × (params.max_accepted_effects < length (attributed script input params))
  unfolding judge_effects
  judge_effects-fail h =
      elim (Bool-cases
        (ltb params.max_accepted_effects (length (attributed script input params)))) [
          | inl e ↦
              let (a, b) = first_gap-Clear _ _ fail not_a_gap (rw e at h) in (a.0, ground arith)
          | inr e ↦ absurd (judge_contested-fail (rw e at h))
        ]

  -- A FAIL rests on a subject whose first event is not contested and on more effects than the
  -- maximum, of pairwise different identities: each is recorded in the role of the effects, not
  -- contested, accepted, equivalent to the subject, in its scope, and at the end of a path of
  -- active relationships from an event of the subject.
  pub evaluate_at_most_one-fail :
      (evaluate_at_most_one script input params).verdict ≡ fail
      → (is_subject_contested input ≡ false)
        × ((cs : List Candidate) × (params.max_accepted_effects < length cs)
            × Distinct (keys_of cs)
            × AreCounted cs)
  unfolding evaluate_at_most_one
  evaluate_at_most_one-fail h =
      let (a, b) = first_gap-Clear _ (judge_effects script input params) fail not_a_gap h in
      let (clean, more) = judge_effects-fail b in
      (
        clean,
        (
          attributed script input params,
          more,
          attributed-Distinct,
          AreCounted-all _ attributed-IsCounted,
        ),
      )
