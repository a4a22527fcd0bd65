-- ===== src/Cli/Examples.antt =====
-- A passing run and a run with a broken evidence chain.
use mathlib.Core.List.{Memᴰ}
use rupture_grid.Base.{◌≡◌, refl, ◌↔◌, true, some, none, [], ◌∷◌}
use rupture_grid.Cli.Exit.{
  invariant_fail, execution_failure, holds, violated, SubjectVerdict, strict_coverage,
  BoundKeyDomain, completed, ExitClassificationInput, report, domain_doubts, all_domain_doubts,
  not_evaluable_reasons, exit_class_for, classify_exit,
}
use rupture_grid.Cli.Exit.Trust.{IsProven, classify_exit-IsProven}
use rupture_grid.Cli.Exit.Order.{classify_exit-SameMembers}
use rupture_grid.Cli.Exit.Precedence.{IsTrusted, classify_exit-precedence}

abbrev domain : BoundKeyDomain
domain = record {
  invariant_key = 3;
  mode = some strict_coverage;
  declared_subjects = 40 ∷ [];
  eligible_subjects = 40 ∷ [];
  missing_subjects = [];
  unexpected_subject_count = 0;
  evidence_gap_count = 0;
}

abbrev clean : ExitClassificationInput
clean = record {
  run_terminal_state = some completed;
  execution_failure_reason = none;
  evidence_integrity_verified = some true;
  subject_verdicts = record { invariant_key = 3; subject_key = 40; verdict = holds } ∷ [];
  bound_key_domains = domain ∷ [];
  anomalies = [];
  authorization_failure = none;
}

classify_exit-IsProven_example : IsProven clean
unfolding classify_exit not_evaluable_reasons all_domain_doubts domain_doubts report
classify_exit-IsProven_example = classify_exit-IsProven clean refl

-- The same run with a violated subject.
abbrev violating : ExitClassificationInput
violating = record clean {
  subject_verdicts = record { invariant_key = 3; subject_key = 40; verdict = violated } ∷ [];
}

classify_exit-precedence_example :
    (((classify_exit violating).exit_class ≡ execution_failure) ↔ (¬ (IsTrusted violating)))
    × (((classify_exit violating).exit_class ≡ invariant_fail) ↔ (
        IsTrusted violating
        × ((v : SubjectVerdict) × Memᴰ v violating.subject_verdicts × (v.verdict ≡ violated))))
    × (exit_class_for (classify_exit violating).exit_code
        ≡ some (classify_exit violating).exit_class)
classify_exit-precedence_example = classify_exit-precedence violating

abbrev good_verdict : SubjectVerdict
good_verdict = record { invariant_key = 3; subject_key = 40; verdict = holds }

abbrev bad_verdict : SubjectVerdict
bad_verdict = record { invariant_key = 3; subject_key = 41; verdict = violated }

swapped : (a b x : SubjectVerdict) → Memᴰ x (a ∷ b ∷ []) → Memᴰ x (b ∷ a ∷ [])
swapped a b x (Memᴰ.head e) = Memᴰ.tail (Memᴰ.head e)
swapped a b x (Memᴰ.tail (Memᴰ.head e)) = Memᴰ.head e
swapped a b x (Memᴰ.tail (Memᴰ.tail m)) = elim m [ ]

classify_exit-SameMembers_example :
    (classify_exit (record clean { subject_verdicts = good_verdict ∷ bad_verdict ∷ [] })).exit_class
    ≡ (classify_exit
        (record clean { subject_verdicts = bad_verdict ∷ good_verdict ∷ [] })).exit_class
classify_exit-SameMembers_example =
    classify_exit-SameMembers clean (good_verdict ∷ bad_verdict ∷ [])
      (bad_verdict ∷ good_verdict ∷ [])
      (λ x. (swapped good_verdict bad_verdict x, swapped bad_verdict good_verdict x))
