-- ===== src/Engine/Processor/Results.antt =====
-- The results of consecutive invocations and what the wave loop makes of them.
use mathlib.Core.List.{Memᴰ}
use mathlib.Core.Path.{subst}
use rupture_grid.Base.{
  ℕ, zero, suc, ◌+◌, ◌≤◌, ◌<◌, ◌≡◌, refl, sym, ap, ◌∙◌, ◌⊎◌, inl, inr, Bool, true, ◌&&◌, List, [],
  ◌∷◌, ◌++◌, arith, leb, Bool-cases,
}
use rupture_grid.Engine.Classify.{SideEffectKnowledge, ContractKind}
use rupture_grid.Engine.Processor.{
  Attempt, ended, threw, Action, InvocationResult, run_invocation, rank, worst_knowledge, Progress,
  absorb, absorb_all, cons_results, run_slots,
}
use rupture_grid.Engine.Processor.Retry.{run_invocation-ends}

-- The attempts of all results.
abbrev pub attempts_of : List InvocationResult → ℕ
attempts_of [] = 0
attempts_of (r ∷ rs) = r.attempts_used + attempts_of rs

abbrev pub all_ok : List InvocationResult → Bool
all_ok [] = true
all_ok (r ∷ rs) = r.ok && all_ok rs

pub absorb_all-attempts :
    (rs : List InvocationResult) (p : Progress)
    → (absorb_all p rs).attempts ≡ p.attempts + attempts_of rs
unfolding absorb_all
absorb_all-attempts [] p = omega arith
absorb_all-attempts (r ∷ rs) p = grind (arith, absorb_all-attempts rs (absorb p r))

pub absorb_all-ok :
    (rs : List InvocationResult) (p : Progress) → (absorb_all p rs).ok ≡ (p.ok && all_ok rs)
unfolding absorb_all
absorb_all-ok [] p = ground arith
absorb_all-ok (r ∷ rs) p = ground (arith, absorb_all-ok rs (absorb p r))

worst_knowledge-left : (a b : SideEffectKnowledge) → rank a ≤ rank (worst_knowledge a b)
unfolding worst_knowledge
worst_knowledge-left a b = ground arith

worst_knowledge-right : (a b : SideEffectKnowledge) → rank b ≤ rank (worst_knowledge a b)
unfolding worst_knowledge
worst_knowledge-right a b = ground arith

absorb_all-le :
    (rs : List InvocationResult) (p : Progress)
    → rank p.knowledge ≤ rank (absorb_all p rs).knowledge
unfolding absorb_all
absorb_all-le [] p = omega arith
absorb_all-le (r ∷ rs) p =
    let a = worst_knowledge-left p.knowledge r.side_effect_knowledge in
    let b = absorb_all-le rs (absorb p r) in omega arith

pub absorb_all-member :
    (rs : List InvocationResult) (p : Progress) (r : InvocationResult)
    → Memᴰ r rs
    → rank r.side_effect_knowledge ≤ rank (absorb_all p rs).knowledge
unfolding absorb_all
absorb_all-member [] p r m = elim m [ ]
absorb_all-member (x ∷ rs) p r (Memᴰ.head e) =
    let a = worst_knowledge-right p.knowledge x.side_effect_knowledge in
    let b = absorb_all-le rs (absorb p x) in rw e (omega arith)
absorb_all-member (x ∷ rs) p r (Memᴰ.tail m) = absorb_all-member rs (absorb p x) r m

worst_knowledge-either :
    (a b : SideEffectKnowledge) → (worst_knowledge a b ≡ a) ⊎ (worst_knowledge a b ≡ b)
unfolding worst_knowledge
worst_knowledge-either a b = elim (Bool-cases (leb (rank b) (rank a))) [
  | inl e ↦ inl (rw e refl)
  | inr e ↦ inr (rw e refl)
]

-- What the loop says of the effect is what it said before, or what one of the results says.
pub absorb_all-attained :
    (rs : List InvocationResult) (p : Progress)
    → ((absorb_all p rs).knowledge ≡ p.knowledge)
      ⊎ ((r : InvocationResult) × Memᴰ r rs
          × ((absorb_all p rs).knowledge ≡ r.side_effect_knowledge))
unfolding absorb_all
absorb_all-attained [] p = inl refl
absorb_all-attained (x ∷ rs) p = elim (absorb_all-attained rs (absorb p x)) [
  | inr (r, m, e) ↦ inr (r, Memᴰ.tail m, e)
  | inl e ↦ elim (worst_knowledge-either p.knowledge x.side_effect_knowledge) [
    | inl d ↦ inl (e ∙ d)
    | inr d ↦ inr (x, Memᴰ.head refl, e ∙ d)
  ]
]

pub absorb_all-++ :
    (xs ys : List InvocationResult) (p : Progress)
    → absorb_all p (xs ++ ys) ≡ absorb_all (absorb_all p xs) ys
unfolding absorb_all
absorb_all-++ [] ys p = refl
absorb_all-++ (x ∷ xs) ys p = absorb_all-++ xs ys (absorb p x)

module _ (action : Action) (contract : ContractKind) (http : ℕ → ℕ → Attempt) where
  -- The invocations of a range all end with results, or one of them throws and so does the range.
  pub run_slots-ends :
      (count first : ℕ)
      → ((rs : List InvocationResult) × (run_slots action contract http first count ≡ ended rs))
        ⊎ ((i : ℕ) × (run_slots action contract http first count ≡ threw)
            × (first ≤ i)
            × (i < first + count)
            × (run_invocation action contract (http i) ≡ threw))
  unfolding run_slots
  run_slots-ends zero first = inl ([], refl)
  run_slots-ends (suc count) first = elim (run_invocation-ends action contract (http first)) [
    | inr (k, e, _, _, _) ↦ inr (first, rw e refl, omega arith, omega arith, e)
    | inl (r, o, e, _, _, _, _) ↦ elim (run_slots-ends count (suc first)) [
      | inl (rs, h) ↦ inl (r ∷ rs, rw (e, h) refl)
      | inr (i, h, a, b, thrown) ↦ inr (i, rw (e, h) refl, omega arith, omega arith, thrown)
    ]
  ]

  -- A range with results: that of its first invocation and those of the rest.
  run_slots-suc :
      (count first : ℕ) (xs : List InvocationResult)
      → run_slots action contract http first (suc count) ≡ ended xs
      → (r : InvocationResult) × (rs : List InvocationResult) × (run_invocation action contract
            (http first)
          ≡ ended r)
        × (run_slots action contract http (suc first) count ≡ ended rs)
        × (xs ≡ (r ∷ rs))
  unfolding run_slots
  run_slots-suc count first xs h = elim (run_invocation-ends action contract (http first)) [
    | inr (k, e, _, _, _) ↦ let clash : threw ≡ ended xs = rw e at h in cc
    | inl (r, o, e, _, _, _, _) ↦ elim (run_slots-ends count (suc first)) [
      | inl (rs, g) ↦ let both : ended (r ∷ rs) ≡ ended xs = rw (e, g) at h in (r, rs, e, g, cc)
      | inr (i, g, _, _, _) ↦ let clash : threw ≡ ended xs = rw (e, g) at h in cc
    ]
  ]

  -- Two consecutive ranges of invocations are one.
  pub run_slots-++ :
      (a b first : ℕ) (xs ys : List InvocationResult)
      → run_slots action contract http first a ≡ ended xs
      → run_slots action contract http (first + a) b ≡ ended ys
      → run_slots action contract http first (a + b) ≡ ended (xs ++ ys)
  unfolding run_slots
  run_slots-++ zero b first xs ys h k =
      let none_yet : xs ≡ [] = cc in
      let same : first + 0 ≡ first = omega arith in
      let empty : 0 + b ≡ b = omega arith in
      rw none_yet (
        subst (λ n. run_slots action contract http first n ≡ ended ys) (sym empty)
          (subst (λ n. run_slots action contract http n b ≡ ended ys) same k))
  run_slots-++ (suc a) b first xs ys h k =
      let (r, rs, e, h', split) = run_slots-suc a first xs h in
      let longer : suc a + b ≡ suc (a + b) = omega arith in
      let shift : first + suc a ≡ suc first + a = omega arith in
      let rest =
        run_slots-++ a b (suc first) rs ys h'
          (subst (λ n. run_slots action contract http n b ≡ ended ys) shift k) in
      subst (λ zs. run_slots action contract http first (suc a + b) ≡ ended (zs ++ ys)) (sym split)
        (ap (run_slots action contract http first) longer
          ∙ ap (cons_results (run_invocation action contract (http first))) rest
          ∙ ap (λ o. cons_results o (ended (rs ++ ys))) e)
