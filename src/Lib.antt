-- ===== src/Lib.antt =====
-- The verification library of RuptureGrid.
--
-- RuptureGrid runs experiments against a target: ordered steps of HTTP requests, in repeat waves,
-- with side effects whose outcome may stay unknown. The engine keeps runs and steps in PostgreSQL;
-- workers claim steps under leases with fencing tokens, a reconciler repairs what workers leave
-- behind, and the API cancels. The command line turns the durable verdict of a run into an exit
-- code. Demo Fintech and Demo Commerce are targets that process rightly or wrongly by their mode.
--
-- Base: shared names, tests on numbers, lists, and tables as lists of rows with guarded updates.
-- Engine: packages/engine.
--   Classify models packages/engine/src/classify.ts; Classify.Laws is about it.
--   Store models the tables of packages/control-db/prisma/schema.prisma and
--     packages/engine/src/truth-input-head.ts; Store.Laws is about the head.
--   Claim, Transitions, Recovery and Reconciler model claim.ts, transitions.ts, recovery.ts and
--     reconciler.ts of packages/engine/src, one function of the tables per transaction (claimStep is
--     claim_step, writeTerminalState is write_terminal_state, and so on). Reconciler also holds
--     dispatchNextOrderedStep of step-processor.ts and the cancel endpoint of
--     apps/api/src/execution/execution.controller.ts.
--   Dispatch models the transactions of the first dispatch of a run: markRunDispatching of
--     packages/engine/src/run-create.ts and the markers of dispatchRunDurably (the controller) and
--     dispatchRun (apps/worker/src/execution-worker.ts).
--   Schedule has all these transactions as one alphabet. Each takes the advisory lock of its run, so
--     an interleaving of them is a list; times and arguments are free. The creation of a run is not
--     in the alphabet: schedules start on tables that hold their runs. Statements and RowChange say
--     what each does to a row; Evolution, Fencing, Leases, Ordering, Watermark, Settling, Invocations
--     and Reconciliation are the theorems.
--   Processor models the retry loop and the wave loop of packages/engine/src/step-processor.ts, with
--     the errors that leave them; Processor.Retry, Results, Honest and Waves are about them.
-- Cli: Exit models packages/cli/src/exit-code.ts; Exit.Trust, Precedence and Order are
--   about it.
-- Fintech: Keys models packages/demo-db/src/keys.ts, Credit models applyWalletCreditFinancialEffect
--   of packages/demo-db/src/index.ts, Webhook models processDelivery of
--   apps/demo-fintech/src/webhook-processing-service.ts; the Laws and Runs are about them. Faults
--   models consumeTrigger of packages/demo-db/src/fault-control.ts.
-- Commerce: Reserve models reserveIdempotentIntentScoped of packages/commerce-db/src/checkout-core.ts,
--   the SECURE pipeline of the other target, and Naive its VULNERABLE one; Reserve.Laws,
--   Naive.Fresh and Naive.Oversell are about them.
-- Evidence: packages/evidence.
--   Chain models appendChainObservation of packages/evidence/src/raw-observation-store.ts and
--     verifyRunEvidenceChain of packages/evidence/src/integrity.ts for one run; Chain.Laws, Stored
--     and Appends are about them. The hash is a parameter.
--   The other modules model the evaluation of generic invariants,
--     packages/evidence/src/generic-invariant-evaluate.ts, which turns the recorded events of a run
--     into PASS, FAIL or NOT_EVALUABLE.
--   Values has payload values, coherentScope and convergeValues; Graph has adjacencyOf and
--     attributable, and its children compare the search with paths; Input has the input, the result
--     and the captures, with the parameters of packages/engine/src/generic-invariant-registry.ts.
--   Candidates has the grouping of effects by identity, which both evaluators do; its children say
--     where candidates come from, that they differ, and that none is lost.
--   AtMostOne is evaluateAtMostOneAcceptedEffect, with what a FAIL rests on (Failing), what a PASS has
--     checked (Passing) and that it counts every effect (Complete). Conservation has the facts of
--     evaluateResourceConservation and Verdict its cases and evaluateGenericInvariant; Sums is about
--     rounding, Reserved, Soundness and Failing about the reservations and the verdicts.
--   Loading models loadPersistedCaptureStatuses, the captures and queries that
--     buildGenericEvaluationInput makes of them, and loadGenericEvaluationSubjects, of
--     packages/evidence/src/generic-invariant-input.ts; Loading.Laws joins the captures to a PASS,
--     Loading.Subjects is about the subjects, and Loading.Graph models loadGenericEventsAndActiveGraph.
-- The modules named Examples apply the theorems at concrete tables.
--
-- Ids, owners and keys that are only compared are numbers; times are milliseconds; a database
-- transaction is one function, which leaves the tables alone where it fails. What the network, the
-- queue, the clock and JSON decoding give is an argument. The retry loop runs on fuel 3, the largest
-- attempt budget, and recordInvocation's allocation on its own bound of attempts. The wave loop runs
-- on one unit of fuel more than the repeats, and the graph search on one more than the active
-- relationships: every event but the first enters the queue by a relationship of its own.
-- JSON.stringify, String and the rounding of a sum are parameters of the evaluators; a result is its
-- verdict, gap, mechanism and basis, without the texts and the lists of proofs.
--
-- Not modelled: HTTP, signatures, telemetry, redaction and derivation of evidence, publication and replay,
-- validation of experiments and manifests, the rest of Demo Commerce, the user interface and process wiring.
pub mod Base
pub mod Cli
pub mod Commerce
pub mod Engine
pub mod Evidence
pub mod Fintech
