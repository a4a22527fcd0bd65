-- ===== src/Evidence/Chain/Laws.antt =====
-- The verification of a chain against its meaning, and appends against the verification.
use rupture_grid.Base.{
  ◌≡◌, refl, ◌↔◌, ℕ, suc, Bool, true, false, not, Option, none, some, List, [], ◌∷◌, ◌++◌, Text,
  same_text, same_text_refl, same_text-eq, ◌==◌, ==_iff, ==_refl, length,
}
use rupture_grid.Evidence.Chain.{
  Observation, Head, Chain, ProblemKind, same_option, problem_if, row_problems, last_hash,
  head_problems, chain_problems,
}

same_option_refl : (o : Option Text) → same_option o o ≡ true
same_option_refl none = refl
same_option_refl (some t) = same_text_refl t

same_option-eq : (o p : Option Text) → same_option o p ≡ true → o ≡ p
same_option-eq none none h = refl
same_option-eq (some s) (some t) h = rw (same_text-eq s t h) refl
same_option-eq none (some t) h = cc
same_option-eq (some s) none h = cc

++-nil : {A : Type 0} (xs ys : List A) → (xs ++ ys) ≡ [] → (xs ≡ []) × (ys ≡ [])
++-nil [] ys h = (refl, h)
++-nil (x ∷ xs) ys h = cc

problem_if-nil : (b : Bool) (n : ℕ) (k : ProblemKind) → problem_if (not b) n k ≡ [] → b ≡ true
problem_if-nil true n k h = refl
problem_if-nil false n k h = cc

module _ {A : Type 0} (hash_of : A → Text) where
  -- The rows from a position on, each with its index, its own hash and the hash of the one before.
  abbrev pub IsLinked : ℕ → Option Text → List (Observation A) → Type 0
  IsLinked position expected [] = Unit
  IsLinked position expected (o ∷ os) =
      (o.chain_index ≡ position)
      × (hash_of o.payload ≡ o.content_hash)
      × (o.prev_content_hash ≡ expected)
      × IsLinked (suc position) (some o.content_hash) os

  -- The head row has the hash of the last row and the number of rows.
  abbrev pub IsHead : Option Head → List (Observation A) → Type 0
  IsHead none os = os ≡ []
  IsHead (some h) os =
      (some h.head_content_hash ≡ last_hash none os) × (h.observation_count ≡ length os)

  row_problems-IsLinked :
      (position : ℕ) (expected : Option Text) (os : List (Observation A))
      → (row_problems hash_of position expected os ≡ []) ↔ IsLinked position expected os
  unfolding row_problems
  row_problems-IsLinked position expected [] = (λ h. tt, λ h. refl)
  row_problems-IsLinked position expected (o ∷ os) =
      let rest = row_problems-IsLinked (suc position) (some o.content_hash) os in
      (
        λ h.
            let (a, h1) = ++-nil _ _ h in
            let (b, h2) = ++-nil _ _ h1 in
            let (c, h3) = ++-nil _ _ h2 in
            (
              (==_iff _ position).0 (problem_if-nil (o.chain_index == position) _ _ a),
              same_text-eq _ _
                  (problem_if-nil (same_text (hash_of o.payload) o.content_hash) _ _ b),
              same_option-eq _ _ (problem_if-nil (same_option o.prev_content_hash expected) _ _ c),
              rest.0 h3,
            ),
        λ (a, b, c, d).
            rw (a, ==_refl position, b, same_text_refl o.content_hash, c, same_option_refl expected)
              (rest.1 d),
      )

  head_problems-IsHead :
      (h : Option Head) (os : List (Observation A))
      → (head_problems hash_of h os ≡ []) ↔ IsHead h os
  unfolding head_problems
  head_problems-IsHead none [] = (λ e. refl, λ e. refl)
  head_problems-IsHead none (o ∷ os) = (λ e. cc, λ e. cc)
  head_problems-IsHead (some h) os = (
    λ e.
        let (a, b) = ++-nil _ _ e in
        (
          same_option-eq _ _
              (problem_if-nil (same_option (some h.head_content_hash) (last_hash none os)) _ _ a),
          (==_iff _ (length os)).0 (problem_if-nil (h.observation_count == length os) _ _ b),
        ),
    λ (a, b). rw (← a, same_option_refl (some h.head_content_hash), b, ==_refl (length os)) refl,
  )

  -- The verification finds no problem exactly if the indices run from 0 without a gap, every row has
  -- the hash of its payload and the hash of the row before it, and the head row has the hash of the
  -- last row and the number of rows; without a head row there are no rows.
  pub chain_problems_iff :
      (chain : Chain A)
      → (chain_problems hash_of chain ≡ [])
        ↔ (IsLinked 0 none chain.observations × IsHead chain.head chain.observations)
  unfolding chain_problems
  chain_problems_iff chain =
      let rows = row_problems-IsLinked 0 none chain.observations in
      let tops = head_problems-IsHead chain.head chain.observations in
      (λ h. let (a, b) = ++-nil _ _ h in (rows.0 a, tops.0 b), λ (a, b). rw (rows.1 a) (tops.1 b))
