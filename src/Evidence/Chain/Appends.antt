-- ===== src/Evidence/Chain/Appends.antt =====
-- Appends keep the chain of a run intact, and never change a row.
use mathlib.Core.List.{Memᴰ}
use rupture_grid.Base.{
  ◌≡◌, ◌≢◌, refl, ◌⊎◌, inl, inr, ℕ, suc, ◌+◌, true, false, Option, none, some, List, [], ◌∷◌, ◌++◌,
  Text, same_text, same_text_refl, same_text-eq, Bool-cases, Option-cases, ==_refl, length, arith,
}
use rupture_grid.Evidence.Chain.{
  Observation, Head, Chain, Capture, Appended, appended, already_stored, conflict, has_identity,
  find_identity, next_index, head_hash, new_observation, new_head, append_observation, append_all,
  empty_chain, last_hash, chain_problems,
}
use rupture_grid.Evidence.Chain.Laws.{IsLinked, IsHead, chain_problems_iff}
use rupture_grid.Evidence.Chain.Stored.{
  IsStoredFor, has_identity-IsStoredFor, find_identity-none, find_identity-snoc,
  find_identity-member,
}

module _ {A : Type 0} where
  last_hash-snoc :
      (before : Option Text) (os : List (Observation A)) (o : Observation A)
      → last_hash before (os ++ (o ∷ [])) ≡ some o.content_hash
  last_hash-snoc before [] o = refl
  last_hash-snoc before (x ∷ os) o = last_hash-snoc (some x.content_hash) os o

  length-snoc :
      (os : List (Observation A)) (o : Observation A) → length (os ++ (o ∷ [])) ≡ suc (length os)
  length-snoc [] o = refl
  length-snoc (x ∷ os) o = rw (length-snoc os o) refl

  -- An append that added a row: no row was stored for the capture, the new one is behind all others,
  -- and the head is moved on to it.
  abbrev pub IsAdded : Capture A → Chain A → Appended × Chain A → Type 0
  IsAdded c chain result =
      ((o : Observation A) → Memᴰ o chain.observations → IsStoredFor c o → ⊥)
      × (result.0 ≡ appended c.content_hash (next_index chain.head))
      × (result.1.observations ≡ (chain.observations ++ (new_observation c chain.head ∷ [])))
      × (head_hash result.1.head ≡ some c.content_hash)
      × (next_index result.1.head ≡ suc (next_index chain.head))

  -- An append that changed nothing, because of a row that was stored for the capture.
  abbrev pub IsRepeated : Capture A → Chain A → Appended × Chain A → Type 0
  IsRepeated c chain result =
      (o : Observation A) × Memᴰ o chain.observations
      × IsStoredFor c o
      × (result.1 ≡ chain)
      × (((o.content_hash ≡ c.content_hash)
            × (result.0 ≡ already_stored o.content_hash o.chain_index))
          ⊎ ((o.content_hash ≢ c.content_hash) × (result.0 ≡ conflict)))

  repeated :
      (c : Capture A) (chain : Chain A) (o : Observation A)
      → find_identity c chain.observations ≡ some o
      → IsRepeated c chain (append_observation c chain)
  unfolding append_observation
  repeated c chain o e =
      let (m, k) = find_identity-member c chain.observations o e in
      let own = has_identity-IsStoredFor c o k in
      elim (Bool-cases (same_text o.content_hash c.content_hash)) [
        | inl d ↦
            let same = same_text-eq o.content_hash c.content_hash d in
            (o, m, own, rw e refl, inl (same, rw (e, d) refl))
        | inr d ↦ (
          o,
          m,
          own,
          rw e refl,
          inr (
            λ q. let clash : true ≡ false = rw (q, same_text_refl c.content_hash) at d in cc,
            rw (e, d) refl,
          ),
        )
      ]

  -- Every append does one of two things. If no row of the chain was stored for the kind and the
  -- invocation of the capture, it adds one row behind the others and moves the head on to it.
  -- Otherwise it leaves the chain as it is, and answers with a stored row of them if the content is
  -- the same, and with an integrity conflict if it differs.
  pub append_observation-Outcome :
      (c : Capture A) (chain : Chain A)
      → IsAdded c chain (append_observation c chain)
        ⊎ IsRepeated c chain (append_observation c chain)
  unfolding append_observation
  append_observation-Outcome c chain = elim (Option-cases (find_identity c chain.observations)) [
    | inl e ↦ inl (
      λ o m same. find_identity-none c chain.observations o e m same,
      rw e refl,
      rw e refl,
      rw e refl,
      rw e refl,
    )
    | inr (o, e) ↦ inr (repeated c chain o e)
  ]

  -- A retry of an append that stored its observation under an invocation identity answers with the
  -- stored row and changes nothing.
  pub append_observation-retry :
      (c : Capture A) (chain : Chain A) (identity : Text)
      → c.invocation_identity ≡ some identity
      → find_identity c chain.observations ≡ none
      → append_observation c (append_observation c chain).1
        ≡ (already_stored c.content_hash (next_index chain.head), (append_observation c chain).1)
  unfolding append_observation
  append_observation-retry c chain identity known fresh =
      let own : has_identity c (new_observation c chain.head) ≡ true =
        rw (==_refl c.kind, known, same_text_refl identity) refl in
      let stored =
        find_identity-snoc c chain.observations (new_observation c chain.head) fresh own in
      rw (fresh, stored, same_text_refl c.content_hash) refl

  module _ (hash_of : A → Text) where
    IsLinked-snoc :
        (position : ℕ) (before : Option Text) (os : List (Observation A)) (o : Observation A)
        → IsLinked hash_of position before os
        → o.chain_index ≡ position + length os
        → hash_of o.payload ≡ o.content_hash
        → o.prev_content_hash ≡ last_hash before os
        → IsLinked hash_of position before (os ++ (o ∷ []))
    IsLinked-snoc position before [] o h at own prev = (omega arith, own, prev, tt)
    IsLinked-snoc position before (x ∷ os) o (a, b, c, d) at own prev =
        (a, b, c, IsLinked-snoc (suc position) (some x.content_hash) os o d (omega arith) own prev)

    -- The chain is linked, its head row is right, and so is the index that the next append takes.
    abbrev pub IsChain : Chain A → Type 0
    IsChain chain =
        IsLinked hash_of 0 none chain.observations
        × IsHead hash_of chain.head chain.observations
        × (next_index chain.head ≡ length chain.observations)

    head_hash-last :
        (h : Option Head) (os : List (Observation A))
        → IsHead hash_of h os
        → head_hash h ≡ last_hash none os
    head_hash-last none os e = rw e refl
    head_hash-last (some h) os (a, b) = a

    -- A capture carries the hash of its payload.
    abbrev pub IsHashed : Capture A → Type 0
    IsHashed c = hash_of c.payload ≡ c.content_hash

    abbrev pub AreHashed : List (Capture A) → Type 0
    AreHashed [] = Unit
    AreHashed (c ∷ cs) = IsHashed c × AreHashed cs

    new_head-IsHead :
        (c : Capture A) (h : Option Head) (os : List (Observation A)) (o : Observation A)
        → IsHead hash_of h os
        → o.content_hash ≡ c.content_hash
        → IsHead hash_of (some (new_head c h)) (os ++ (o ∷ []))
    new_head-IsHead c none os o e same =
        (rw (last_hash-snoc none os o, same) refl, rw (length-snoc os o, e) refl)
    new_head-IsHead c (some h) os o (a, b) same =
        (rw (last_hash-snoc none os o, same) refl, rw (length-snoc os o, b) refl)

    append_observation-IsChain :
        (c : Capture A) (chain : Chain A)
        → IsHashed c
        → IsChain chain
        → IsChain (append_observation c chain).1
    unfolding append_observation
    append_observation-IsChain c chain own (linked, top, next) =
        elim (Option-cases (find_identity c chain.observations)) [
          | inr (o, e) ↦ rw e (linked, top, next)
          | inl e ↦
              let o = new_observation c chain.head in
              rw e (
                IsLinked-snoc 0 none chain.observations o linked (omega (arith, next)) own
                    (head_hash-last chain.head chain.observations top),
                new_head-IsHead c chain.head chain.observations o top refl,
                rw (length-snoc chain.observations o, next) refl,
              )
        ]

    append_all-IsChain :
        (cs : List (Capture A)) (chain : Chain A)
        → AreHashed cs
        → IsChain chain
        → IsChain (append_all cs chain)
    unfolding append_all
    append_all-IsChain [] chain h ok = ok
    append_all-IsChain (c ∷ cs) chain (h, hs) ok =
        append_all-IsChain cs (append_observation c chain).1 hs
          (append_observation-IsChain c chain h ok)

    -- Whatever captures the writers append to the empty chain, in any order and with any repetitions
    -- and conflicts, each with the hash of its payload, the verification finds no problem.
    pub append_all-chain_problems :
        (cs : List (Capture A))
        → AreHashed cs
        → chain_problems hash_of (append_all cs empty_chain) ≡ []
    append_all-chain_problems cs h =
        let (linked, top, next) = append_all-IsChain cs empty_chain h (tt, refl, refl) in
        (chain_problems_iff hash_of (append_all cs empty_chain)).1 (linked, top)
