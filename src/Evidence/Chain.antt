-- ===== src/Evidence/Chain.antt =====
-- packages/evidence/src/raw-observation-store.ts and packages/evidence/src/integrity.ts: the evidence
-- chain of one run, its append under the advisory lock of the run, and its verification. The columns
-- that neither reads back are left out.
pub mod Laws
pub mod Stored
pub mod Appends
use rupture_grid.Base.{
  ◌≡◌, ℕ, zero, suc, Bool, true, false, not, ◌&&◌, Option, none, some, List, [], ◌∷◌, ◌++◌, Text,
  same_text, if◌then◌else◌, ◌==◌, length,
}

-- Kinds of observations and invocation identities are compared only.
pub record Observation {ℓ} (A : Type ℓ) : Type ℓ where
  pub kind : ℕ
  pub invocation_identity : Option Text
  pub payload : A
  pub content_hash : Text
  pub prev_content_hash : Option Text
  pub chain_index : ℕ

pub record Head : Type 0 where
  pub last_chain_index : ℕ
  pub head_content_hash : Text
  pub observation_count : ℕ

-- The rows of one run, by ascending chain index.
pub record Chain {ℓ} (A : Type ℓ) : Type ℓ where
  pub observations : List (Observation A)
  pub head : Option Head

-- What a writer hands over: the stored representation with its hash.
pub record Capture {ℓ} (A : Type ℓ) : Type ℓ where
  pub kind : ℕ
  pub invocation_identity : Option Text
  pub payload : A
  pub content_hash : Text

pub data Appended : Type 0 where
  appended already_stored : Text → ℕ → Appended
  conflict : Appended

pub data ProblemKind : Type 0 where
  gap hash_mismatch broken_link head_mismatch count_mismatch : ProblemKind

pub record ChainProblem : Type 0 where
  pub at_index : ℕ
  pub problem_kind : ProblemKind

abbrev pub same_option : Option Text → Option Text → Bool
same_option none none = true
same_option (some s) (some t) = same_text s t
same_option none (some t) = false
same_option (some s) none = false

abbrev is_nil : {A : Type 0} → List A → Bool
is_nil [] = true
is_nil (x ∷ xs) = false

abbrev pub or_blank : Option Text → Text
or_blank none = []
or_blank (some t) = t

-- `(head?.lastChainIndex ?? -1) + 1`.
abbrev pub next_index : Option Head → ℕ
next_index none = 0
next_index (some h) = suc h.last_chain_index

abbrev pub head_hash : Option Head → Option Text
head_hash none = none
head_hash (some h) = some h.head_content_hash

abbrev count_of_head : Option Head → ℕ
count_of_head none = 0
count_of_head (some h) = h.observation_count

abbrev pub problem_if : Bool → ℕ → ProblemKind → List ChainProblem
problem_if true n k = record { at_index = n; problem_kind = k } ∷ []
problem_if false n k = []

module _ {A : Type 0} where
  -- A row of the identity tuple; a missing identity is looked up as the empty text.
  abbrev pub has_identity : Capture A → Observation A → Bool
  has_identity c o =
      o.kind == c.kind && same_option o.invocation_identity (some (or_blank c.invocation_identity))

  unfoldable pub find_identity : Capture A → List (Observation A) → Option (Observation A)
  find_identity c [] = none
  find_identity c (o ∷ os) = if has_identity c o then some o else find_identity c os

  abbrev pub new_observation : Capture A → Option Head → Observation A
  new_observation c h = record {
    kind = c.kind;
    invocation_identity = c.invocation_identity;
    payload = c.payload;
    content_hash = c.content_hash;
    prev_content_hash = head_hash h;
    chain_index = next_index h;
  }

  abbrev pub new_head : Capture A → Option Head → Head
  new_head c h = record {
    last_chain_index = next_index h;
    head_content_hash = c.content_hash;
    observation_count = suc (count_of_head h);
  }

  -- The answer to a repeated identity, and the insertion of a new one.
  abbrev pub answer : Capture A → Chain A → Option (Observation A) → Appended × Chain A
  answer c chain none = (
    appended c.content_hash (next_index chain.head),
    record {
      observations = chain.observations ++ (new_observation c chain.head ∷ []);
      head = some (new_head c chain.head);
    },
  )
  answer c chain (some o) = (
    if same_text o.content_hash c.content_hash
        then already_stored o.content_hash o.chain_index
        else conflict,
    chain,
  )

  -- `appendChainObservation`.
  unfoldable pub append_observation : Capture A → Chain A → Appended × Chain A
  append_observation c chain = answer c chain (find_identity c chain.observations)

  unfoldable pub append_all : List (Capture A) → Chain A → Chain A
  append_all [] chain = chain
  append_all (c ∷ cs) chain = append_all cs (append_observation c chain).1

  abbrev pub empty_chain : Chain A
  empty_chain = record { observations = []; head = none }

  abbrev pub last_hash : Option Text → List (Observation A) → Option Text
  last_hash before [] = before
  last_hash before (o ∷ os) = last_hash (some o.content_hash) os

  module _ (hash_of : A → Text) where
    -- The loop over the rows, with the position and the hash of the row before.
    unfoldable pub row_problems : ℕ → Option Text → List (Observation A) → List ChainProblem
    row_problems position expected [] = []
    row_problems position expected (o ∷ os) =
        problem_if (not (o.chain_index == position)) o.chain_index gap
        ++ (problem_if (not (same_text (hash_of o.payload) o.content_hash)) o.chain_index
              hash_mismatch
            ++ (problem_if (not (same_option o.prev_content_hash expected)) o.chain_index
                  broken_link
                ++ row_problems (suc position) (some o.content_hash) os))

    unfoldable pub head_problems : Option Head → List (Observation A) → List ChainProblem
    head_problems none [] = []
    head_problems none (o ∷ os) = problem_if true (length os) head_mismatch
    head_problems (some h) os =
        problem_if (not (same_option (some h.head_content_hash) (last_hash none os)))
          h.last_chain_index head_mismatch
        ++ problem_if (not (h.observation_count == length os)) h.last_chain_index count_mismatch

    -- `verifyRunEvidenceChain`: the problems of its report.
    unfoldable pub chain_problems : Chain A → List ChainProblem
    chain_problems chain =
        row_problems 0 none chain.observations ++ head_problems chain.head chain.observations

    unfoldable pub is_intact : Chain A → Bool
    is_intact chain = is_nil (chain_problems chain)
