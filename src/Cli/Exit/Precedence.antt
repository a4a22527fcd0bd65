-- ===== src/Cli/Exit/Precedence.antt =====
-- The order of the exit rules.
use rupture_grid.Base.{◌≡◌, ◌↔◌, true, some, List, any, arith, any-true, any-witness}
use mathlib.Core.List.{Memᴰ}
use rupture_grid.Cli.Exit.{
  invariant_fail, execution_failure, violated, SubjectVerdict, completed, ExitClassificationInput,
  fails, exit_class_for, classify_exit,
}

fails-violated : (v : SubjectVerdict) → (fails v ≡ true) ↔ (v.verdict ≡ violated)
fails-violated v = ground arith

some_fail :
    (verdicts : List SubjectVerdict)
    → (any fails verdicts ≡ true)
      ↔ ((v : SubjectVerdict) × Memᴰ v verdicts × (v.verdict ≡ violated))
some_fail verdicts = (
  λ h. let (v, m, f) = any-witness fails verdicts h in (v, m, (fails-violated v).0 f),
  λ p. let (v, m, f) = p in any-true fails verdicts v ((fails-violated v).1 f) m,
)

-- The run is COMPLETED and its evidence chain verified.
abbrev pub IsTrusted : ExitClassificationInput → Type 0
IsTrusted input =
    (input.run_terminal_state ≡ some completed) × (input.evidence_integrity_verified ≡ some true)

classify_exit-first :
    (input : ExitClassificationInput)
    → ((classify_exit input).exit_class ≡ execution_failure) ↔ (¬ (IsTrusted input))
unfolding classify_exit
classify_exit-first input = ground arith

classify_exit-second :
    (input : ExitClassificationInput)
    → ((classify_exit input).exit_class ≡ invariant_fail)
      ↔ (IsTrusted input × (any fails input.subject_verdicts ≡ true))
unfolding classify_exit
classify_exit-second input = ground arith

classify_exit-code :
    (input : ExitClassificationInput)
    → exit_class_for (classify_exit input).exit_code ≡ some (classify_exit input).exit_class
unfolding classify_exit exit_class_for
classify_exit-code input = ground arith

-- The exit is EXECUTION_FAILURE exactly when the run is not COMPLETED or its evidence chain is not
-- verified, whatever the verdicts; it is INVARIANT_FAIL exactly when both hold and some verdict is
-- a FAIL; and the class is recovered from the exit code.
pub classify_exit-precedence :
    (input : ExitClassificationInput)
    → (((classify_exit input).exit_class ≡ execution_failure) ↔ (¬ (IsTrusted input)))
      × (((classify_exit input).exit_class ≡ invariant_fail) ↔ (
          IsTrusted input
          × ((v : SubjectVerdict) × Memᴰ v input.subject_verdicts × (v.verdict ≡ violated))))
      × (exit_class_for (classify_exit input).exit_code ≡ some (classify_exit input).exit_class)
classify_exit-precedence input =
    let (a, b) = classify_exit-second input in
    let (c, d) = some_fail input.subject_verdicts in
    (
      classify_exit-first input,
      (λ h. let (t, f) = a h in (t, c f), λ p. let (t, f) = p in b (t, d f)),
      classify_exit-code input,
    )
