-- ===== src/Evidence/Conservation/Reserved.antt =====
-- What every reservation of the sum is, and that no identity is summed twice.
use mathlib.Core.List.{Memᴰ}
use rupture_grid.Base.{
  ◌≡◌, refl, inl, inr, ap, ℕ, Bool, true, false, Option, some, none, List, [], ◌∷◌, Text, codes,
  has, Bool-cases, ||-eq-false, same_text,
}
use rupture_grid.Evidence.Values.{ℤ, pos, negsuc, safe_integer}
use rupture_grid.Evidence.Graph.Paths.{PathOf}
use rupture_grid.Evidence.Input.{Script, Entity, Input, ConservationParams}
use rupture_grid.Evidence.Candidates.{
  Candidate, declared_value, is_accepted, in_scope, events_of, keyed, keys_of, keep,
}
use rupture_grid.Evidence.Candidates.Members.{
  IsKeyed, keep-member, events_of-member, keyed-member, distinct_candidates-member,
}
use rupture_grid.Evidence.Candidates.Distinct.{Distinct, Distinct-distinct_candidates}
use rupture_grid.Evidence.AtMostOne.Failing.{is_attributed-path}
use rupture_grid.Evidence.Conservation.{
  Reservation, Consumption, not_accepted, type_invalid, negative_units, out_of_scope, reserved,
  is_of_resource, of_resource, contested_consumption_keys, judge_units, judge_consumption,
  distinct_consumption, reservation_if, reservations_of, attributed_reservations,
}

abbrev pub identities_of : List Reservation → List Text
identities_of [] = []
identities_of (r ∷ rs) = r.identity ∷ identities_of rs

module _ (script : Script) (input : Input) (params : ConservationParams) where
  judge_consumption-reserved :
      (e : Entity) (n : ℕ)
      → judge_consumption script input params e ≡ reserved n
      → (is_accepted params.consumption_accepted_match e ≡ true)
        × (safe_integer (declared_value e params.consumption_units_field) ≡ some (pos n))
        × (in_scope (codes "consumption") input.subject.subject_payload params.scope_binding e
            ≡ true)
  unfolding judge_consumption
  judge_consumption-reserved e n h =
      elim (Bool-cases (is_accepted params.consumption_accepted_match e)) [
        | inr a ↦ let clash : not_accepted ≡ reserved n = rw a at h in cc
        | inl a ↦ let (b, c) = judge_units-reserved _ (rw a at h) in (a, b, c)
      ]
    where
      judge_units-reserved :
          (o : Option ℤ)
          → judge_units script input params e o ≡ reserved n
          → (o ≡ some (pos n))
            × (in_scope (codes "consumption") input.subject.subject_payload params.scope_binding e
                ≡ true)
      judge_units-reserved none k = cc
      judge_units-reserved (some (negsuc m)) k = cc
      judge_units-reserved (some (pos m)) k =
          elim (Bool-cases
            (in_scope (codes "consumption") input.subject.subject_payload params.scope_binding e)) [
              | inr b ↦ let clash : out_of_scope ≡ reserved n = rw b at k in cc
              | inl b ↦
                  let same : reserved m ≡ reserved n = rw b at k in
                  let equal : m ≡ n = cc in (rw equal refl, b)
            ]

  -- A reservation that may be summed for the resource.
  abbrev pub IsReserved : Reservation → Type 0
  IsReserved r =
      Memᴰ r.entity input.entities
      × (r.entity.role_id ≡ params.consumption_effect_role)
      × (r.entity.contested ≡ false)
      × IsKeyed script params.consumption_effect_identity_field r.identity r.entity
      × (is_of_resource script input params r.entity ≡ true)
      × (is_accepted params.consumption_accepted_match r.entity ≡ true)
      × (safe_integer (declared_value r.entity params.consumption_units_field) ≡ some (pos r.units))
      × (in_scope (codes "consumption") input.subject.subject_payload params.scope_binding r.entity
          ≡ true)
      × ((s : Text) × Memᴰ s input.subject.subject_event_ids
          × ((path : List _) × PathOf input.active_relationships s path r.entity.event_id))

  abbrev pub AreReserved : List Reservation → Type 0
  AreReserved [] = Unit
  AreReserved (r ∷ rs) = IsReserved r × AreReserved rs

  reservations_of-member :
      (cs : List Candidate) (r : Reservation)
      → Memᴰ r (reservations_of script input params cs)
      → Memᴰ (r.identity, r.entity) cs
        × (judge_consumption script input params r.entity ≡ reserved r.units)
  reservations_of-member [] r m = elim m [ ]
  reservations_of-member (c ∷ cs) r m =
      by_judgement (judge_consumption script input params c.1) refl m
        (λ n. reservations_of-member cs r n)
    where
      by_judgement :
          (j : Consumption)
          → judge_consumption script input params c.1 ≡ j
          → Memᴰ r (reservation_if c j (reservations_of script input params cs))
          → (Memᴰ r (reservations_of script input params cs)
              → Memᴰ (r.identity, r.entity) cs
                × (judge_consumption script input params r.entity ≡ reserved r.units))
          → Memᴰ (r.identity, r.entity) (c ∷ cs)
            × (judge_consumption script input params r.entity ≡ reserved r.units)
      by_judgement (reserved n) e (Memᴰ.head q) later =
          let f : r.identity ≡ c.0 = ap (λ (z : Reservation). z.identity) q in
          let g : r.entity ≡ c.1 = ap (λ (z : Reservation). z.entity) q in
          let u : r.units ≡ n = ap (λ (z : Reservation). z.units) q in
          (Memᴰ.head (rw (f, g) refl), rw (g, u) e)
      by_judgement (reserved n) e (Memᴰ.tail t) later = let (a, b) = later t in (Memᴰ.tail a, b)
      by_judgement not_accepted e t later = let (a, b) = later t in (Memᴰ.tail a, b)
      by_judgement type_invalid e t later = let (a, b) = later t in (Memᴰ.tail a, b)
      by_judgement negative_units e t later = let (a, b) = later t in (Memᴰ.tail a, b)
      by_judgement out_of_scope e t later = let (a, b) = later t in (Memᴰ.tail a, b)

  has-reservations_of :
      (k : Text) (cs : List Candidate)
      → has k (keys_of cs) ≡ false
      → has k (identities_of (reservations_of script input params cs)) ≡ false
  has-reservations_of k [] h = refl
  has-reservations_of k (c ∷ cs) h =
      let (a, b) = ||-eq-false _ _ h in
      by_judgement (judge_consumption script input params c.1) a (has-reservations_of k cs b)
    where
      by_judgement :
          (j : Consumption)
          → same_text k c.0 ≡ false
          → has k (identities_of (reservations_of script input params cs)) ≡ false
          → has k (identities_of (reservation_if c j (reservations_of script input params cs)))
            ≡ false
      by_judgement (reserved n) a b = rw (a, b) refl
      by_judgement not_accepted a b = b
      by_judgement type_invalid a b = b
      by_judgement negative_units a b = b
      by_judgement out_of_scope a b = b

  Distinct-reservations_of :
      (cs : List Candidate)
      → Distinct (keys_of cs)
      → Distinct (identities_of (reservations_of script input params cs))
  Distinct-reservations_of [] d = d
  Distinct-reservations_of (c ∷ cs) d =
      by_judgement (judge_consumption script input params c.1) (has-reservations_of c.0 cs d.0)
        (Distinct-reservations_of cs d.1)
    where
      by_judgement :
          (j : Consumption)
          → has c.0 (identities_of (reservations_of script input params cs)) ≡ false
          → Distinct (identities_of (reservations_of script input params cs))
          → Distinct (identities_of (reservation_if c j (reservations_of script input params cs)))
      by_judgement (reserved n) a b = (a, b)
      by_judgement not_accepted a b = b
      by_judgement type_invalid a b = b
      by_judgement negative_units a b = b
      by_judgement out_of_scope a b = b

  has-keep :
      (p : Reservation → Bool) (k : Text) (rs : List Reservation)
      → has k (identities_of rs) ≡ false
      → has k (identities_of (keep p rs)) ≡ false
  unfolding keep
  has-keep p k [] h = refl
  has-keep p k (r ∷ rs) h =
      let (a, b) = ||-eq-false (same_text k r.identity) (has k (identities_of rs)) h in
      elim (Bool-cases (p r)) [
        | inl e ↦ rw (e, a) (has-keep p k rs b)
        | inr e ↦ rw e (has-keep p k rs b)
      ]

  Distinct-keep :
      (p : Reservation → Bool) (rs : List Reservation)
      → Distinct (identities_of rs)
      → Distinct (identities_of (keep p rs))
  unfolding keep
  Distinct-keep p [] d = d
  Distinct-keep p (r ∷ rs) d = elim (Bool-cases (p r)) [
    | inl e ↦ rw e (has-keep p r.identity rs d.0, Distinct-keep p rs d.1)
    | inr e ↦ rw e (Distinct-keep p rs d.1)
  ]

  attributed-IsReserved :
      (r : Reservation) → Memᴰ r (attributed_reservations script input params) → IsReserved r
  unfolding attributed_reservations
  attributed-IsReserved r m =
      let (a, reached) = keep-member _ _ r m in
      let (b, judged) = reservations_of-member (distinct_consumption script input params) r a in
      let source = events_of params.consumption_effect_role false input.entities in
      let under = keyed script params.consumption_effect_identity_field source in
      let (c, of_it) =
        keep-member _ under (r.identity, r.entity)
          (distinct_candidates-member script (contested_consumption_keys script input params)
            (of_resource script input params under) r.identity r.entity b) in
      let (d, key) =
        keyed-member script params.consumption_effect_identity_field source r.identity r.entity c in
      let (e, role, clean) =
        events_of-member params.consumption_effect_role input.entities r.entity d in
      let (accepted, exact, scoped) = judge_consumption-reserved r.entity r.units judged in
      (
        e,
        role,
        clean,
        key,
        of_it,
        accepted,
        exact,
        scoped,
        is_attributed-path input.active_relationships input.subject.subject_event_ids r.entity
            reached,
      )

  AreReserved-all :
      (rs : List Reservation) → ((r : Reservation) → Memᴰ r rs → IsReserved r) → AreReserved rs
  AreReserved-all [] h = tt
  AreReserved-all (r ∷ rs) h = (h r (Memᴰ.head refl), AreReserved-all rs (λ q m. h q (Memᴰ.tail m)))

  -- The summed reservations have pairwise different identities, and each is recorded in the role of
  -- the consumption effects, not contested, of the resource, accepted, with its recorded non-negative
  -- safe number of units, in the scope of the resource, and at the end of a path of active
  -- relationships from an event of the subject.
  pub attributed_reservations-AreReserved :
      Distinct (identities_of (attributed_reservations script input params))
      × AreReserved (attributed_reservations script input params)
  unfolding attributed_reservations
  attributed_reservations-AreReserved = (
    Distinct-keep _ _ (
        Distinct-reservations_of (distinct_consumption script input params)
          (Distinct-distinct_candidates script (contested_consumption_keys script input params) _)),
    AreReserved-all (attributed_reservations script input params) attributed-IsReserved,
  )
