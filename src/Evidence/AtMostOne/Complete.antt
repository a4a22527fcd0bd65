-- ===== src/Evidence/AtMostOne/Complete.antt =====
-- A PASS of the at-most-one evaluation counts every effect that could count against the subject.
use mathlib.Core.List.{Memᴰ}
use rupture_grid.Base.{
  ◌≡◌, refl, sym, inl, inr, ap, true, false, not, List, [], ◌∷◌, Text, codes, Bool-cases, any,
  any-true, has, has-member, same_text, same_text_refl, same_text-eq, ◌≤◌, length,
}
use rupture_grid.Evidence.Input.{
  Script, Entity, AtMostOneParams, Input, pass, without, distinct_texts,
}
use rupture_grid.Evidence.Candidates.{Candidate, events_of, keyed, contested_identities, keys_of}
use rupture_grid.Evidence.Candidates.Members.{
  IsKeyed, member-keep, keyed-member, events_of-member, distinct_candidates-member,
}
use rupture_grid.Evidence.Candidates.Distinct.{Distinct}
use rupture_grid.Evidence.Candidates.Covered.{
  member-++_left, member-++_right, member-events_of, member-keyed, keys_of-member,
  candidate_or_contested, contested_key,
}
use rupture_grid.Evidence.Candidates.Alike.{
  provenance, generation_fields, TellsApart, Alike, is_accepted-Alike, is_equivalent-Alike,
  in_scope-Alike,
}
use rupture_grid.Evidence.AtMostOne.{
  is_candidate_worthy, candidates, attributed, unattributed, effect_groups, contested_effects,
  contested_effect_keys, events_of_key, members_of_key, affecting_contested,
  is_attributed_candidate, evaluate_at_most_one,
}
use rupture_grid.Evidence.AtMostOne.Failing.{attributed-Distinct}
use rupture_grid.Evidence.AtMostOne.Passing.{evaluate_at_most_one-pass}

no_member : {A : Type 0} (x : A) (xs : List A) → xs ≡ [] → Memᴰ x xs → ⊥
no_member x xs e m = elim (rw e at m) [ ]

member-without :
    (t k : Text) (ts : List Text) → same_text k t ≡ false → Memᴰ k ts → Memᴰ k (without t ts)
member-without t k [] h m = elim m [ ]
member-without t k (u ∷ ts) h (Memᴰ.head e) = rw (← e, h) (Memᴰ.head refl)
member-without t k (u ∷ ts) h (Memᴰ.tail m) =
    let rest = member-without t k ts h m in
    elim (Bool-cases (same_text u t)) [ inl s ↦ rw s rest | inr s ↦ rw s (Memᴰ.tail rest) ]

member-distinct_texts : (k : Text) (ts : List Text) → Memᴰ k ts → Memᴰ k (distinct_texts ts)
member-distinct_texts k [] m = elim m [ ]
member-distinct_texts k (t ∷ ts) (Memᴰ.head e) = Memᴰ.head e
member-distinct_texts k (t ∷ ts) (Memᴰ.tail m) = elim (Bool-cases (same_text k t)) [
  | inl e ↦ Memᴰ.head (same_text-eq k t e)
  | inr e ↦ Memᴰ.tail (member-without t k (distinct_texts ts) e (member-distinct_texts k ts m))
]

module _ (script : Script) (input : Input) (params : AtMostOneParams) where
  -- No field that the parameters name is the platform's own.
  abbrev pub IsBusiness : Type 0
  IsBusiness =
      (same_text provenance params.accepted_match.field ≡ false)
      × (has provenance params.equivalence_fields ≡ false)
      × (has provenance params.scope_binding.fields ≡ false)
      × (has provenance (generation_fields params.scope_binding.generation_field) ≡ false)

  is_candidate_worthy-Alike :
      (e f : Entity)
      → IsBusiness
      → Alike e f
      → is_candidate_worthy script input params e ≡ is_candidate_worthy script input params f
  unfolding is_candidate_worthy
  is_candidate_worthy-Alike e f (a, b, c, d) h =
      rw
        (
          is_accepted-Alike params.accepted_match e f h a,
          is_equivalent-Alike params.equivalence_fields input.subject.subject_payload e f h b,
          in_scope-Alike (codes "effect") input.subject.subject_payload e f h params.scope_binding c
              d,
        )
        refl

  events_of_key-member :
      (k : Text) (e : Entity) (cs : List Candidate)
      → Memᴰ (k, e) cs
      → Memᴰ e (events_of_key script input params k cs)
  events_of_key-member k e [] m = elim m [ ]
  events_of_key-member k e ((j, x) ∷ cs) (Memᴰ.head q) =
      let f : j ≡ k = sym (ap (λ (z : Candidate). z.0) q) in
      let g : e ≡ x = ap (λ (z : Candidate). z.1) q in rw (f, same_text_refl k, g) (Memᴰ.head refl)
  events_of_key-member k e ((j, x) ∷ cs) (Memᴰ.tail m) =
      let rest = events_of_key-member k e cs m in
      elim (Bool-cases (same_text j k)) [ inl s ↦ rw s (Memᴰ.tail rest) | inr s ↦ rw s rest ]

  -- A contested identity with a member that could count is an affecting one.
  affecting :
      (k : Text) (e : Entity)
      → Memᴰ k (
          contested_identities script
            (contested_effect_keys script input params)
            (effect_groups script input params))
      → Memᴰ e (members_of_key script input params k)
      → is_candidate_worthy script input params e ≡ true
      → Memᴰ k (affecting_contested script input params)
  unfolding affecting_contested
  affecting k e m n w =
      member-keep
        (λ j. any (is_candidate_worthy script input params) (members_of_key script input params j))
        _ k m
        (any-true (is_candidate_worthy script input params) (members_of_key script input params k) e
          w n)

  counted :
      (c : Candidate)
      → unattributed script input params ≡ []
      → Memᴰ c (candidates script input params)
      → Memᴰ c (attributed script input params)
  unfolding attributed unattributed
  counted c none_left m = elim (Bool-cases (is_attributed_candidate script input params c)) [
    | inl e ↦ member-keep (is_attributed_candidate script input params) _ c m e
    | inr e ↦ absurd (
        no_member c _ none_left (
          member-keep (λ d. not (is_attributed_candidate script input params d)) _ c m (rw e refl)))
  ]

  -- An effect of the role that could count, under its key.
  abbrev pub CouldCount : Text → Entity → Type 0
  CouldCount k e =
      Memᴰ e input.entities
      × (e.role_id ≡ params.effect_role)
      × IsKeyed script params.effect_identity_field k e
      × (is_candidate_worthy script input params e ≡ true)

  contested-affecting :
      (k : Text) (e : Entity)
      → CouldCount k e
      → e.contested ≡ true
      → Memᴰ k (affecting_contested script input params)
  contested-affecting k e (m, role, key, worthy) c =
      let source = events_of params.effect_role false input.entities in
      let at = member-events_of params.effect_role true input.entities e m role c in
      let under =
        member-keyed script params.effect_identity_field (contested_effects script input params) k e
          at key in
      affecting k e
        (contested_key script (contested_effect_keys script input params)
          (keyed script params.effect_identity_field source) k
          (member-distinct_texts k _ (keys_of-member k e _ under)))
        (member-++_right e _ _ (events_of_key-member k e _ under)) worthy

  uncontested-counted :
      (k : Text) (e : Entity)
      → TellsApart script input.entities
      → IsBusiness
      → CouldCount k e
      → e.contested ≡ false
      → unattributed script input params ≡ []
      → affecting_contested script input params ≡ []
      → has k (keys_of (attributed script input params)) ≡ true
  unfolding candidates
  uncontested-counted k e apart business (m, role, key, worthy) c none_left none_affected =
      let source = events_of params.effect_role false input.entities in
      let at = member-events_of params.effect_role false input.entities e m role c in
      let under = member-keyed script params.effect_identity_field source k e at key in
      elim (candidate_or_contested script (contested_effect_keys script input params)
        (keyed script params.effect_identity_field source) k e under) [
          | inr bad ↦ absurd (
              no_member k _ none_affected (
                affecting k e bad (member-++_left e _ _ (events_of_key-member k e _ under)) worthy))
          | inl (f, same, n) ↦
              let (o, first_key) = keyed-member script params.effect_identity_field source k f (
                distinct_candidates-member script (contested_effect_keys script input params)
                  (keyed script params.effect_identity_field source) k f n) in
              let (f_at, f_role, f_clean) =
                events_of-member params.effect_role input.entities f o in
              let alike : Alike e f = apart e f m f_at (same_text-eq _ _ same) in
              let f_worthy : is_candidate_worthy script input params f ≡ true =
                rw (← is_candidate_worthy-Alike e f business alike) worthy in
              has-member k _ (
                keys_of-member k f _ (
                  counted (k, f) none_left
                    (member-keep (λ d. is_candidate_worthy script input params d.1) _ (k, f) n
                      f_worthy)))
        ]

  -- If `JSON.stringify` tells the recorded payloads apart and the parameters name no platform field,
  -- then after a PASS every recorded effect of the role with a provable
  -- identity that is accepted, equivalent and in scope is not contested and its identity is one of the
  -- counted ones, which are pairwise different and at most the maximum.
  pub evaluate_at_most_one-pass_complete :
      (k : Text) (e : Entity)
      → TellsApart script input.entities
      → IsBusiness
      → (evaluate_at_most_one script input params).verdict ≡ pass
      → CouldCount k e
      → (e.contested ≡ false)
        × (has k (keys_of (attributed script input params)) ≡ true)
        × Distinct (keys_of (attributed script input params))
        × (length (attributed script input params) ≤ params.max_accepted_effects)
  evaluate_at_most_one-pass_complete k e apart business h could =
      let (guards, bound, summary) = evaluate_at_most_one-pass script input params h in
      let (a, b, none_affected, none_left, c, d) = guards in
      let clean : e.contested ≡ false = elim (Bool-cases e.contested) [
        | inl dirty ↦ absurd (no_member k _ none_affected (contested-affecting k e could dirty))
        | inr clean ↦ clean
      ] in
      (
        clean,
        uncontested-counted k e apart business could clean none_left none_affected,
        attributed-Distinct script input params,
        bound,
      )
