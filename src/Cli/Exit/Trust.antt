-- ===== src/Cli/Exit/Trust.antt =====
-- What a passing exit of the command line rests on.
use rupture_grid.Base.{
  ℕ, ◌≡◌, refl, ◌≢◌, ◌↔◌, Bool, true, false, not, Option, none, some, List, [], ◌∷◌, ◌++◌, map,
  length, any, ◌==◌, ltb, arith, any-false, any-witness, Text,
}
use mathlib.Core.List.{Memᴰ}
use rupture_grid.Cli.Exit.{
  passed, holds, SubjectVerdict, CoverageMode, strict_coverage, other_mode, BoundKeyDomain,
  completed, ExitClassificationInput, fails, undecided_at, about_key, about_subject, report,
  push_if, domain_doubts, domain_doubts_of, strict_doubts, mode_doubts, verdict_doubts,
  authorization_doubts, all_domain_doubts, is_bound, not_evaluable_reasons, classify_exit,
}

-- The persisted domain of a bound invariant is covered: it has an authoritative proof and a verdict,
-- and under strict coverage it declares a subject, misses none, shows no anomaly and has a verdict
-- for each of its eligible subjects.
pub record IsCovered (verdicts : List SubjectVerdict) (d : BoundKeyDomain) : Type 0 where
  proof : d.mode ≢ none
  some_verdict : any (about_key d.invariant_key) verdicts ≡ true
  decided : any (undecided_at d.invariant_key) verdicts ≡ false
  declared : d.mode ≡ some strict_coverage → d.declared_subjects ≢ []
  none_missing : d.mode ≡ some strict_coverage → d.missing_subjects ≡ []
  none_unexpected : d.mode ≡ some strict_coverage → d.unexpected_subject_count ≡ 0
  no_gap : d.mode ≡ some strict_coverage → d.evidence_gap_count ≡ 0
  eligible :
      d.mode ≡ some strict_coverage
      → (s : ℕ) → Memᴰ s d.eligible_subjects
      → any (about_subject d.invariant_key s) verdicts ≡ true

append-nil : {A : Type 0} (xs ys : List A) → ((xs ++ ys) ≡ []) ↔ ((xs ≡ []) × (ys ≡ []))
append-nil [] ys = ground arith
append-nil (x ∷ xs) ys = ground arith

push_if-nil : {A : Type 0} (b : Bool) (m : A) → (push_if b m ≡ []) ↔ (b ≡ false)
push_if-nil true m = ground arith
push_if-nil false m = ground arith

report-nil :
    {A B : Type 0} (p : A → Bool) (m : A → B) (xs : List A)
    → (report p m xs ≡ []) ↔ (any p xs ≡ false)
unfolding report
report-nil p m [] = ground arith
report-nil p m (x ∷ xs) = ground (arith, report-nil p m xs)

not-false : (b : Bool) → not b ≡ false → b ≡ true
not-false b h = ground arith

nonempty : (xs : List ℕ) → (length xs == 0) ≡ false → xs ≢ []
nonempty [] h = cc
nonempty (x ∷ xs) h = λ e. cc

any_all : (xs : List ℕ) → any (λ s. true) xs ≡ false → xs ≡ []
any_all [] h = refl
any_all (x ∷ xs) h = cc

all_domain_doubts-nil :
    (verdicts : List SubjectVerdict) (ds : List BoundKeyDomain) (d : BoundKeyDomain)
    → all_domain_doubts verdicts ds ≡ []
    → Memᴰ d ds
    → domain_doubts verdicts d ≡ []
unfolding all_domain_doubts
all_domain_doubts-nil verdicts [] d h m = elim m [ ]
all_domain_doubts-nil verdicts (e ∷ ds) d h (Memᴰ.head q) =
    rw q ((append-nil (domain_doubts verdicts e) (all_domain_doubts verdicts ds)).0 h).0
all_domain_doubts-nil verdicts (e ∷ ds) d h (Memᴰ.tail m) =
    all_domain_doubts-nil verdicts ds d
      ((append-nil (domain_doubts verdicts e) (all_domain_doubts verdicts ds)).0 h).1 m

-- What the strict loop of one domain checks.
record IsStrict (verdicts : List SubjectVerdict) (d : BoundKeyDomain) : Type 0 where
  declared : (length d.declared_subjects == 0) ≡ false
  none_missing : any (λ s. true) d.missing_subjects ≡ false
  none_unexpected : ltb 0 d.unexpected_subject_count ≡ false
  no_gap : ltb 0 d.evidence_gap_count ≡ false
  eligible :
      any (λ s. not (any (about_subject d.invariant_key s) verdicts)) d.eligible_subjects ≡ false

module _ (verdicts : List SubjectVerdict) (d : BoundKeyDomain) where
  strict_doubts-nil : strict_doubts verdicts d ≡ [] → IsStrict verdicts d
  strict_doubts-nil h =
      let (a, h1) = (append-nil _ _).0 h in
      let (b, h2) = (append-nil _ _).0 h1 in
      let (c, h3) = (append-nil _ _).0 h2 in
      let (e, f) = (append-nil _ _).0 h3 in
      record {
        declared = (push_if-nil _ _).0 a;
        none_missing = (report-nil _ _ _).0 b;
        none_unexpected = (push_if-nil _ _).0 c;
        no_gap = (push_if-nil _ _).0 e;
        eligible = (report-nil _ _ _).0 f;
      }

  IsStrict-case :
      (mode : CoverageMode)
      → mode_doubts verdicts d mode ≡ []
      → some mode ≡ some strict_coverage
      → IsStrict verdicts d
  IsStrict-case strict_coverage h e = strict_doubts-nil h
  IsStrict-case (other_mode label) h e = cc

  IsStrict-facts :
      (mode : Option CoverageMode)
      → domain_doubts_of verdicts d mode ≡ []
      → mode ≡ some strict_coverage
      → IsStrict verdicts d
  IsStrict-facts none h e = cc
  IsStrict-facts (some mode) h e = IsStrict-case mode ((append-nil _ _).0 h).0 e

  verdict_facts :
      (mode : Option CoverageMode)
      → domain_doubts_of verdicts d mode ≡ []
      → (mode ≢ none) × (verdict_doubts verdicts d ≡ [])
  verdict_facts none h = cc
  verdict_facts (some mode) h = (λ e. cc, ((append-nil _ _).0 h).1)

  domain_doubts-nil : domain_doubts verdicts d ≡ [] → IsCovered verdicts d
  unfolding domain_doubts
  domain_doubts-nil h =
      let (proved, rest) = verdict_facts d.mode h in
      let (a, b) = (append-nil _ _).0 rest in
      let strict = IsStrict-facts d.mode h in
      record {
        proof = proved;
        some_verdict = not-false _ ((push_if-nil _ _).0 a);
        decided = (report-nil _ _ _).0 b;
        declared = λ e. nonempty d.declared_subjects (strict e).declared;
        none_missing = λ e. any_all d.missing_subjects (strict e).none_missing;
        none_unexpected = λ e. let n = (strict e).none_unexpected in ground arith;
        no_gap = λ e. let n = (strict e).no_gap in ground arith;
        eligible = λ e s m. not-false _ (any-false _ _ s (strict e).eligible m);
      }

-- The facts behind a pass.
pub record IsProven (input : ExitClassificationInput) : Type 0 where
  finished : input.run_terminal_state ≡ some completed
  verified : input.evidence_integrity_verified ≡ some true
  bound : input.bound_key_domains ≢ []
  no_anomaly : input.anomalies ≡ []
  authorized : input.authorization_failure ≡ none
  covered :
      (d : BoundKeyDomain) → Memᴰ d input.bound_key_domains → IsCovered input.subject_verdicts d
  verdicts :
      (v : SubjectVerdict)
      → Memᴰ v input.subject_verdicts
      → (v.verdict ≡ holds) × (is_bound input.bound_key_domains v ≡ true)

-- What `classify_exit` has tested when it passes.
classify_exit-tests :
    (input : ExitClassificationInput)
    → (classify_exit input).exit_class ≡ passed
    → (input.run_terminal_state ≡ some completed)
      × (input.evidence_integrity_verified ≡ some true)
      × (any fails input.subject_verdicts ≡ false)
      × (not_evaluable_reasons input ≡ [])
      × (input.bound_key_domains ≢ [])
unfolding classify_exit
classify_exit-tests input h = ground arith

map-nil : {A B : Type 0} (f : A → B) (xs : List A) → map f xs ≡ [] → xs ≡ []
map-nil f [] h = refl
map-nil f (x ∷ xs) h = cc

authorization_doubts-nil : (o : Option Text) → authorization_doubts o ≡ [] → o ≡ none
authorization_doubts-nil none h = refl
authorization_doubts-nil (some t) h = cc

only_holds :
    (v : SubjectVerdict) (key : ℕ)
    → (key == v.invariant_key) ≡ true
    → fails v ≡ false
    → undecided_at key v ≡ false
    → v.verdict ≡ holds
only_holds v key e f u = ground arith

-- A run passes only if it is COMPLETED, its evidence chain is verified, it binds an invariant, there is
-- no anomaly and no authorization failure, every bound domain is covered, and every verdict is a
-- PASS for a bound invariant.
pub classify_exit-IsProven :
    (input : ExitClassificationInput) → (classify_exit input).exit_class ≡ passed → IsProven input
unfolding not_evaluable_reasons
classify_exit-IsProven input h =
    let (run, chain, no_fail, silent, bound) = classify_exit-tests input h in
    let (domains, rest) = (append-nil _ _).0 silent in
    let (unbound, rest1) = (append-nil _ _).0 rest in
    let (odd, refused) = (append-nil _ _).0 rest1 in
    let covered : (d : BoundKeyDomain)
        → Memᴰ d input.bound_key_domains
        → IsCovered input.subject_verdicts d =
      λ d m. domain_doubts-nil _ d (all_domain_doubts-nil _ _ d domains m) in
    record {
      finished = run;
      verified = chain;
      bound = bound;
      no_anomaly = map-nil _ _ odd;
      authorized = authorization_doubts-nil _ refused;
      covered = covered;
      verdicts = λ v m.
          let known = not-false _ (any-false _ _ v ((report-nil _ _ _).0 unbound) m) in
          let (d, at, same) = any-witness _ _ known in
          (
            only_holds v d.invariant_key same (any-false _ _ v no_fail m)
                (any-false _ _ v (covered d at).decided m),
            known,
          );
    }
