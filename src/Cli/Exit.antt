-- ===== src/Cli/Exit.antt =====
-- packages/cli/src/exit-code.ts: the exit class of a run from its durable, authorized truth. Keys of
-- invariants and subjects are only compared, and are numbers here. Of the reason text the model
-- keeps the messages as data, before they are sorted, joined and cut at 500 characters.
pub mod Order
pub mod Precedence
pub mod Trust
use rupture_grid.Base.{
  ℕ, Bool, true, false, not, ◌&&◌, Option, none, some, List, [], ◌∷◌, ◌++◌, map, Text, codes,
  length, any, ltb, ◌==◌, if◌then◌else◌, find_by,
}

-- `EXIT_CLASSES`.
pub data ExitClass : Type 0 where
  passed invariant_fail not_evaluated execution_failure usage_error : ExitClass

-- `EXIT_CODES`.
unfoldable pub exit_code_for : ExitClass → ℕ
exit_code_for passed = 0
exit_code_for invariant_fail = 1
exit_code_for not_evaluated = 2
exit_code_for execution_failure = 3
exit_code_for usage_error = 4

-- The entries of `EXIT_CODES`, in their order.
abbrev exit_classes : List ExitClass
exit_classes = passed ∷ invariant_fail ∷ not_evaluated ∷ execution_failure ∷ usage_error ∷ []

unfoldable pub exit_class_for : ℕ → Option ExitClass
unfolding exit_code_for find_by
exit_class_for code = find_by exit_code_for code exit_classes

pub data Verdict : Type 0 where
  holds violated undecided : Verdict

pub record SubjectVerdict : Type 0 where
  pub invariant_key : ℕ
  pub subject_key : ℕ
  pub verdict : Verdict

-- The label of a coverage mode: the strict one, or any other text.
pub data CoverageMode : Type 0 where
  strict_coverage : CoverageMode
  other_mode : Text → CoverageMode

pub record BoundKeyDomain : Type 0 where
  pub invariant_key : ℕ
  pub mode : Option CoverageMode
  pub declared_subjects : List ℕ
  pub eligible_subjects : List ℕ
  pub missing_subjects : List ℕ
  pub unexpected_subject_count : ℕ
  pub evidence_gap_count : ℕ

pub record ExitAnomaly : Type 0 where
  pub kind : Text
  pub invariant_key : Option ℕ
  pub subject_key : Option ℕ
  pub detail : Text

pub data TerminalState : Type 0 where
  completed failed cancelled : TerminalState

pub record ExitClassificationInput : Type 0 where
  pub run_terminal_state : Option TerminalState
  pub execution_failure_reason : Option Text
  pub evidence_integrity_verified : Option Bool
  pub subject_verdicts : List SubjectVerdict
  pub bound_key_domains : List BoundKeyDomain
  pub anomalies : List ExitAnomaly
  pub authorization_failure : Option Text

-- The messages of the third rule.
pub data Doubt : Type 0 where
  no_proof no_declared_subject evidence_gaps unexpected_subjects no_verdict : ℕ → Doubt
  missing_subject missing_verdict undecided_subject : ℕ → ℕ → Doubt
  unbound_verdict : ℕ → Doubt
  anomaly : ExitAnomaly → Doubt
  not_authorized : Text → Doubt

pub data Reason : Type 0 where
  given : Text → Reason
  no_terminal_state : Reason
  terminal_state_is : TerminalState → Reason
  integrity_failed : Reason
  violations : List SubjectVerdict → Reason
  doubts : List Doubt → Reason
  no_bound_invariant : Reason
  all_hold : ℕ → Reason

pub record ExitClassification : Type 0 where
  pub exit_class : ExitClass
  pub exit_code : ℕ
  pub reason : Reason
  pub precedence_rule : ℕ

abbrev is_violated : Verdict → Bool
is_violated violated = true
is_violated _ = false

abbrev is_undecided : Verdict → Bool
is_undecided undecided = true
is_undecided _ = false

abbrev pub fails : SubjectVerdict → Bool
fails v = is_violated v.verdict

abbrev pub undecided_at : ℕ → SubjectVerdict → Bool
undecided_at key v = (v.invariant_key == key) && is_undecided v.verdict

abbrev pub about_key : ℕ → SubjectVerdict → Bool
about_key key v = v.invariant_key == key

abbrev pub about_subject : ℕ → ℕ → SubjectVerdict → Bool
about_subject key subject v = (v.invariant_key == key) && (v.subject_key == subject)

-- A loop that pushes a message for each element that passes a test.
unfoldable pub report : {A B : Type 0} → (A → Bool) → (A → B) → List A → List B
report p message [] = []
report p message (x ∷ xs) = let rest = report p message xs in if p x then message x ∷ rest else rest

-- A test that pushes one message.
abbrev pub push_if : {A : Type 0} → Bool → A → List A
push_if b message = if b then message ∷ [] else []

abbrev pub strict_doubts : List SubjectVerdict → BoundKeyDomain → List Doubt
strict_doubts verdicts d =
    push_if (length d.declared_subjects == 0) (no_declared_subject d.invariant_key)
    ++ (report (λ s. true) (missing_subject d.invariant_key) d.missing_subjects
        ++ (push_if (ltb 0 d.unexpected_subject_count) (unexpected_subjects d.invariant_key)
            ++ (push_if (ltb 0 d.evidence_gap_count) (evidence_gaps d.invariant_key)
                ++ report (λ s. not (any (about_subject d.invariant_key s) verdicts))
                    (missing_verdict d.invariant_key) d.eligible_subjects)))

abbrev pub mode_doubts : List SubjectVerdict → BoundKeyDomain → CoverageMode → List Doubt
mode_doubts verdicts d strict_coverage = strict_doubts verdicts d
mode_doubts verdicts d (other_mode label) = []

abbrev pub verdict_doubts : List SubjectVerdict → BoundKeyDomain → List Doubt
verdict_doubts verdicts d =
    push_if (not (any (about_key d.invariant_key) verdicts)) (no_verdict d.invariant_key)
    ++ report (undecided_at d.invariant_key) (λ v. undecided_subject d.invariant_key v.subject_key)
        verdicts

-- One turn of the loop over the bound keys.
abbrev pub domain_doubts_of :
    List SubjectVerdict → BoundKeyDomain → Option CoverageMode → List Doubt
domain_doubts_of verdicts d none = no_proof d.invariant_key ∷ []
domain_doubts_of verdicts d (some mode) = mode_doubts verdicts d mode ++ verdict_doubts verdicts d

unfoldable pub domain_doubts : List SubjectVerdict → BoundKeyDomain → List Doubt
domain_doubts verdicts d = domain_doubts_of verdicts d d.mode

unfoldable pub all_domain_doubts : List SubjectVerdict → List BoundKeyDomain → List Doubt
all_domain_doubts verdicts [] = []
all_domain_doubts verdicts (d ∷ ds) = domain_doubts verdicts d ++ all_domain_doubts verdicts ds

abbrev pub is_bound : List BoundKeyDomain → SubjectVerdict → Bool
is_bound domains v = any (λ d. d.invariant_key == v.invariant_key) domains

abbrev pub authorization_doubts : Option Text → List Doubt
authorization_doubts none = []
authorization_doubts (some t) = not_authorized t ∷ []

-- `notEvaluableReasons`.
unfoldable pub not_evaluable_reasons : ExitClassificationInput → List Doubt
not_evaluable_reasons input =
    all_domain_doubts input.subject_verdicts input.bound_key_domains
    ++ (report (λ v. not (is_bound input.bound_key_domains v))
          (λ v. unbound_verdict v.invariant_key) input.subject_verdicts
        ++ (map anomaly input.anomalies ++ authorization_doubts input.authorization_failure))

abbrev classified : ExitClass → Reason → ℕ → ExitClassification
classified c reason rule = record {
  exit_class = c;
  exit_code = exit_code_for c;
  reason = reason;
  precedence_rule = rule;
}

abbrev or_reason : Option Text → Reason → Reason
or_reason none r = r
or_reason (some t) r = given t

abbrev pub is_true : Option Bool → Bool
is_true (some true) = true
is_true _ = false

-- The fourth rule and the guard before it.
abbrev by_domains : List BoundKeyDomain → ExitClassification
by_domains [] = classified not_evaluated no_bound_invariant 3
by_domains (d ∷ ds) = classified passed (all_hold (length (d ∷ ds))) 4

abbrev by_doubts : ExitClassificationInput → List Doubt → ExitClassification
by_doubts input [] = by_domains input.bound_key_domains
by_doubts input (r ∷ rs) = classified not_evaluated (doubts (r ∷ rs)) 3

-- Behind the first rule.
abbrev by_verdicts : ExitClassificationInput → ExitClassification
by_verdicts input =
    if any fails input.subject_verdicts
    then classified invariant_fail (violations (report fails (λ v. v) input.subject_verdicts)) 2
    else by_doubts input (not_evaluable_reasons input)

abbrev by_evidence : ExitClassificationInput → Bool → ExitClassification
by_evidence input false =
    classified execution_failure (or_reason input.execution_failure_reason integrity_failed) 1
by_evidence input true = by_verdicts input

abbrev by_run : ExitClassificationInput → Option TerminalState → ExitClassification
by_run input none =
    classified execution_failure (or_reason input.execution_failure_reason no_terminal_state) 1
by_run input (some completed) = by_evidence input (is_true input.evidence_integrity_verified)
by_run input (some state) =
    classified execution_failure
      (or_reason input.execution_failure_reason (terminal_state_is state)) 1

unfoldable pub classify_exit : ExitClassificationInput → ExitClassification
unfolding report exit_code_for
classify_exit input = by_run input input.run_terminal_state
