-- ===== src/Evidence/Examples/Captures.antt =====
-- Two captures of one run, the second retried, and one with other content under the first identity.
use rupture_grid.Base.{◌⊎◌, ◌≡◌, refl, ◌↔◌, ℕ, none, some, List, [], ◌∷◌, Text, same_text}
use rupture_grid.Evidence.Chain.{
  Chain, Capture, conflict, find_identity, append_observation, append_all, empty_chain,
  chain_problems,
}
use rupture_grid.Evidence.Chain.Laws.{IsLinked, IsHead, chain_problems_iff}
use rupture_grid.Evidence.Chain.Appends.{
  IsAdded, IsRepeated, append_observation-Outcome, append_all-chain_problems,
}

-- The hash of a text, for the examples, is the text.
abbrev sample_hash : Text → Text
sample_hash t = t

abbrev capture : ℕ → ℕ → Capture Text
capture identity content = record {
  kind = 1;
  invocation_identity = some (identity ∷ []);
  payload = content ∷ [];
  content_hash = content ∷ [];
}

abbrev captures : List (Capture Text)
captures = capture 1 7 ∷ (capture 2 8 ∷ (capture 2 8 ∷ (capture 1 9 ∷ [])))

abbrev stored : Chain Text
stored = append_all captures empty_chain

-- The other content is refused.
capture-conflict : (append_observation (capture 1 9) stored).0 ≡ conflict
unfolding append_all append_observation find_identity same_text
capture-conflict = refl

append_all-chain_problems_example : chain_problems sample_hash stored ≡ []
append_all-chain_problems_example =
    append_all-chain_problems sample_hash captures (refl, (refl, (refl, (refl, tt))))

chain_problems_iff_example : (chain_problems sample_hash stored ≡ []) ↔ (
    IsLinked sample_hash 0 none stored.observations
    × IsHead sample_hash stored.head stored.observations)
chain_problems_iff_example = chain_problems_iff sample_hash stored

append_observation-Outcome_example :
    IsAdded (capture 1 9) stored (append_observation (capture 1 9) stored)
    ⊎ IsRepeated (capture 1 9) stored (append_observation (capture 1 9) stored)
append_observation-Outcome_example = append_observation-Outcome (capture 1 9) stored
