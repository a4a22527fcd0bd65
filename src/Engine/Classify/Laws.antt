-- ===== src/Engine/Classify/Laws.antt =====
-- What the classification promises: it never says more than the transport stage shows.
use rupture_grid.Base.{◌<◌, ◌≡◌, ◌≢◌, ◌↔◌, ◌⊎◌, true, false, ◌&&◌, arith}
use rupture_grid.Engine.Classify.{
  mutating, request_sent, succeeded, failed, known_absent, ClassifyInput, classify_invocation,
  stage_at_least, is_4xx, no_effect_4xx, RetryDecisionInput, decide_retry, safe,
}

-- For a mutating action KNOWN_ABSENT is claimed exactly when the executor did not succeed and either
-- the request was never sent, or it failed with a 4xx answer under a no-effect contract.
pub classify_invocation-known_absent_iff :
    (i : ClassifyInput)
    → i.mutation ≡ mutating
    → ((classify_invocation i).side_effect_knowledge ≡ known_absent) ↔ (
        (i.intent_outcome ≢ succeeded)
        × ((stage_at_least i.transport_stage request_sent ≡ false)
            ⊎ ((i.intent_outcome ≡ failed)
                × ((is_4xx i.http_status && no_effect_4xx i.contract_kind) ≡ true))))
unfolding classify_invocation
classify_invocation-known_absent_iff i m = ground arith

-- A retry of a mutating action is permitted only within the budget, under the declared policy SAFE,
-- and after a failure whose effect is known to be absent.
pub decide_retry-mutating :
    (r : RetryDecisionInput)
    → r.mutation ≡ mutating
    → ((decide_retry r).will_retry ≡ true) ↔ (
        (r.attempts_so_far < r.max_attempts)
        × (r.declared_policy ≡ safe)
        × (r.intent_outcome ≡ failed)
        × (r.side_effect_knowledge ≡ known_absent))
unfolding decide_retry
decide_retry-mutating r m = ground arith
