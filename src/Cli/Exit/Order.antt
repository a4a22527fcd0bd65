-- ===== src/Cli/Exit/Order.antt =====
-- The exit class depends on which verdicts there are, and not on their order or repetition.
use mathlib.Core.List.{Memᴰ}
use rupture_grid.Base.{
  ◌≡◌, refl, sym, ap, ◌∙◌, Bool, true, false, not, ◌&&◌, Option, none, some, List, [], ◌∷◌, ◌++◌,
  any, arith, any-true, any-witness,
}
use rupture_grid.Cli.Exit.{
  ExitClass, passed, not_evaluated, invariant_fail, execution_failure, SubjectVerdict, CoverageMode,
  strict_coverage, other_mode, BoundKeyDomain, TerminalState, completed, ExitClassificationInput,
  fails, undecided_at, about_key, about_subject, is_bound, is_true, report, push_if, strict_doubts,
  mode_doubts, domain_doubts_of, domain_doubts, all_domain_doubts, not_evaluable_reasons,
  classify_exit,
}

-- Two lists with the same members.
abbrev pub SameMembers : {A : Type 0} → List A → List A → Type 0
SameMembers {A = A} xs ys = (x : A) → (Memᴰ x xs → Memᴰ x ys) × (Memᴰ x ys → Memᴰ x xs)

any-within :
    {A : Type 0} (p : A → Bool) (xs ys : List A)
    → ((x : A) → Memᴰ x xs → Memᴰ x ys)
    → any p xs ≡ true
    → any p ys ≡ true
any-within p xs ys within h = let (x, m, q) = any-witness p xs h in any-true p ys x q (within x m)

both_true : (a b : Bool) → (a ≡ true → b ≡ true) → (b ≡ true → a ≡ true) → a ≡ b
both_true a b f g = ground arith

any-SameMembers :
    {A : Type 0} (p : A → Bool) (xs ys : List A) → SameMembers xs ys → any p xs ≡ any p ys
any-SameMembers p xs ys h =
    both_true _ _ (any-within p xs ys (λ x. (h x).0)) (any-within p ys xs (λ x. (h x).1))

any_congr :
    {A : Type 0} (p q : A → Bool) (xs : List A) → ((x : A) → p x ≡ q x) → any p xs ≡ any q xs
any_congr p q [] h = refl
any_congr p q (x ∷ xs) h = rw (h x, any_congr p q xs h) refl

abbrev is_nil : {A : Type 0} → List A → Bool
is_nil [] = true
is_nil (x ∷ xs) = false

is_nil-++ : {A : Type 0} (xs ys : List A) → is_nil (xs ++ ys) ≡ (is_nil xs && is_nil ys)
is_nil-++ [] ys = refl
is_nil-++ (x ∷ xs) ys = refl

is_nil-report :
    {A B : Type 0} (p : A → Bool) (m : A → B) (xs : List A)
    → is_nil (report p m xs) ≡ not (any p xs)
unfolding report
is_nil-report p m [] = refl
is_nil-report p m (x ∷ xs) = ground (arith, is_nil-report p m xs)

is_nil-push_if : {A : Type 0} (b : Bool) (m : A) → is_nil (push_if b m) ≡ not b
is_nil-push_if true m = refl
is_nil-push_if false m = refl

module _ (vs ws : List SubjectVerdict) (same : SameMembers vs ws) where
  strict_doubts-same :
      (d : BoundKeyDomain) → is_nil (strict_doubts vs d) ≡ is_nil (strict_doubts ws d)
  strict_doubts-same d =
      let key =
        any_congr (λ s. not (any (about_subject d.invariant_key s) vs))
          (λ s. not (any (about_subject d.invariant_key s) ws)) d.eligible_subjects
          (λ s. ap not (any-SameMembers (about_subject d.invariant_key s) vs ws same)) in
      simp (is_nil-++, is_nil-report, is_nil-push_if, key)

  mode_doubts-same :
      (d : BoundKeyDomain) (mode : CoverageMode)
      → is_nil (mode_doubts vs d mode) ≡ is_nil (mode_doubts ws d mode)
  mode_doubts-same d strict_coverage = strict_doubts-same d
  mode_doubts-same d (other_mode label) = refl

  domain_doubts_of-same :
      (d : BoundKeyDomain) (mode : Option CoverageMode)
      → is_nil (domain_doubts_of vs d mode) ≡ is_nil (domain_doubts_of ws d mode)
  domain_doubts_of-same d none = refl
  domain_doubts_of-same d (some mode) =
      let a = mode_doubts-same d mode in
      let b = any-SameMembers (about_key d.invariant_key) vs ws same in
      let c = any-SameMembers (undecided_at d.invariant_key) vs ws same in
      simp (is_nil-++, is_nil-report, is_nil-push_if, a, b, c)

  all_domain_doubts-same :
      (ds : List BoundKeyDomain)
      → is_nil (all_domain_doubts vs ds) ≡ is_nil (all_domain_doubts ws ds)
  unfolding all_domain_doubts domain_doubts
  all_domain_doubts-same [] = refl
  all_domain_doubts-same (d ∷ ds) =
      let a = domain_doubts_of-same d d.mode in
      let b = all_domain_doubts-same ds in simp (is_nil-++, a, b)

  not_evaluable_reasons-same :
      (input : ExitClassificationInput)
      → is_nil (not_evaluable_reasons (record input { subject_verdicts = vs }))
        ≡ is_nil (not_evaluable_reasons (record input { subject_verdicts = ws }))
  unfolding not_evaluable_reasons
  not_evaluable_reasons-same input =
      let a = all_domain_doubts-same input.bound_key_domains in
      let b = any-SameMembers (λ v. not (is_bound input.bound_key_domains v)) vs ws same in
      simp (is_nil-++, is_nil-report, a, b)

-- The class, by the five tests that decide it.
abbrev class_by : Option TerminalState → Bool → Bool → Bool → Bool → ExitClass
class_by (some completed) true true silent unbound = invariant_fail
class_by (some completed) true false false unbound = not_evaluated
class_by (some completed) true false true true = not_evaluated
class_by (some completed) true false true false = passed
class_by _ _ _ _ _ = execution_failure

classify_exit-class :
    (input : ExitClassificationInput)
    → (classify_exit input).exit_class
      ≡ class_by input.run_terminal_state
          (is_true input.evidence_integrity_verified)
          (any fails input.subject_verdicts)
          (is_nil (not_evaluable_reasons input))
          (is_nil input.bound_key_domains)
unfolding classify_exit
classify_exit-class input = ground arith

-- Two inputs that differ only in the order or the repetition of their verdicts have the same class.
pub classify_exit-SameMembers :
    (input : ExitClassificationInput) (vs ws : List SubjectVerdict)
    → SameMembers vs ws
    → (classify_exit (record input { subject_verdicts = vs })).exit_class
      ≡ (classify_exit (record input { subject_verdicts = ws })).exit_class
classify_exit-SameMembers input vs ws same =
    let some_fail = any-SameMembers fails vs ws same in
    let silent = not_evaluable_reasons-same vs ws same input in
    classify_exit-class (record input { subject_verdicts = vs })
    ∙ (ap
          (λ f.
            class_by input.run_terminal_state (is_true input.evidence_integrity_verified) f
              (is_nil (not_evaluable_reasons (record input { subject_verdicts = vs })))
              (is_nil input.bound_key_domains))
          some_fail
        ∙ (ap
              (λ n.
                class_by input.run_terminal_state (is_true input.evidence_integrity_verified)
                  (any fails ws) n (is_nil input.bound_key_domains))
              silent
            ∙ sym (classify_exit-class (record input { subject_verdicts = ws }))))
