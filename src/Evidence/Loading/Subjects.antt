-- ===== src/Evidence/Loading/Subjects.antt =====
-- What a loaded subject is.
use mathlib.Core.List.{Memᴰ}
use rupture_grid.Base.{
  ◌≡◌, refl, sym, ap, inl, inr, true, Option, none, some, List, [], ◌∷◌, Text, Bool-cases, sort_by,
  sort_by-member,
}
use rupture_grid.Evidence.Values.{Payload}
use rupture_grid.Evidence.Input.{Script, Entity, Subject, Instance}
use rupture_grid.Evidence.Candidates.{Group, keyed, grouped, group_key}
use rupture_grid.Evidence.Candidates.Members.{IsKeyed, keyed-member, grouped-member}
use rupture_grid.Evidence.Loading.{
  is_eligible, identity_field, eligible, event_key, event_ids, subject_of, push_subject,
  subjects_of_groups, load_subjects,
}

eligible-member :
    (i : Instance) (es : List Entity) (e : Entity)
    → Memᴰ e (eligible i es)
    → Memᴰ e es × (is_eligible i e ≡ true)
unfolding eligible
eligible-member i [] e m = elim m [ ]
eligible-member i (x ∷ es) e m = elim (Bool-cases (is_eligible i x)) [
  | inl s ↦ elim (rw s at m) [
    | Memᴰ.head q ↦ (Memᴰ.head q, rw q s)
    | Memᴰ.tail n ↦ let (a, b) = eligible-member i es e n in (Memᴰ.tail a, b)
  ]
  | inr s ↦ let (a, b) = eligible-member i es e (rw s at m) in (Memᴰ.tail a, b)
]

-- The events are eligible recorded events of one provable identity.
abbrev pub AreOf : Script → Instance → List Entity → Text → List Entity → Type 0
AreOf script i entities key [] = Unit
AreOf script i entities key (e ∷ es) =
    (Memᴰ e entities × (is_eligible i e ≡ true) × IsKeyed script (identity_field i) key e)
    × AreOf script i entities key es

AreOf-all :
    (script : Script) (i : Instance) (entities : List Entity) (key : Text) (es : List Entity)
    → ((e : Entity)
        → Memᴰ e es
        → Memᴰ e entities × (is_eligible i e ≡ true) × IsKeyed script (identity_field i) key e)
    → AreOf script i entities key es
AreOf-all script i entities key [] h = tt
AreOf-all script i entities key (e ∷ es) h =
    (h e (Memᴰ.head refl), AreOf-all script i entities key es (λ x m. h x (Memᴰ.tail m)))

-- A subject has at least one event, and the payload of the first.
abbrev pub IsSubject : Script → Instance → List Entity → Subject → Type 0
IsSubject script i entities s =
    (key : Text) × (first : Entity) × (rest : List Entity) × AreOf script i entities key
      (first ∷ rest)
    × (s.subject_event_ids ≡ event_ids (first ∷ rest))
    × (s.subject_payload ≡ first.payload)

abbrev ids_or : Option Subject → List Text
ids_or none = []
ids_or (some s) = s.subject_event_ids

abbrev payload_or : Option Subject → Payload
payload_or none = []
payload_or (some s) = s.subject_payload

subject_of-member :
    (script : Script) (i : Instance) (entities es : List Entity) (key : Text) (s : Subject)
    → AreOf script i entities key es
    → subject_of key es ≡ some s
    → IsSubject script i entities s
subject_of-member script i entities [] key s of_key h = cc
subject_of-member script i entities (first ∷ rest) key s of_key h =
    (key, first, rest, of_key, sym (ap ids_or h), sym (ap payload_or h))

module _ (script : Script) (i : Instance) (entities : List Entity) where
  subjects_of_groups-member :
      (gs : List Group) (s : Subject)
      → ((key : Text) (es : List Entity)
          → Memᴰ (key, es) gs
          → AreOf script i entities key (sort_by event_key es))
      → Memᴰ s (subjects_of_groups gs)
      → IsSubject script i entities s
  subjects_of_groups-member [] s good m = elim m [ ]
  subjects_of_groups-member ((key, es) ∷ gs) s good m =
      by_subject (subject_of key (sort_by event_key es)) refl m
        (λ n. subjects_of_groups-member gs s (λ k fs o. good k fs (Memᴰ.tail o)) n)
    where
      by_subject :
          (o : Option Subject)
          → subject_of key (sort_by event_key es) ≡ o
          → Memᴰ s (push_subject o (subjects_of_groups gs))
          → (Memᴰ s (subjects_of_groups gs) → IsSubject script i entities s)
          → IsSubject script i entities s
      by_subject none e n later = later n
      by_subject (some t) e (Memᴰ.tail n) later = later n
      by_subject (some t) e (Memᴰ.head q) later =
          subject_of-member script i entities (sort_by event_key es) key s
            (good key es (Memᴰ.head refl)) (rw q e)

  group-AreOf :
      (key : Text) (es : List Entity)
      → Memᴰ
          (key, es)
          (sort_by group_key (grouped (keyed script (identity_field i) (eligible i entities))))
      → AreOf script i entities key (sort_by event_key es)
  group-AreOf key es m =
      let under = keyed script (identity_field i) (eligible i entities) in
      AreOf-all script i entities key (sort_by event_key es) (λ e n.
        let (a, is) = keyed-member script (identity_field i) (eligible i entities) key e (
          grouped-member under key es e (sort_by-member group_key (grouped under) (key, es) m)
            (sort_by-member event_key es e n)) in
        let (b, ok) = eligible-member i entities e a in (b, ok, is))

  -- Every loaded subject has at least one event, the payload of its first event, and only recorded
  -- events that are eligible for the kind of the instance and have one and the same provable identity.
  pub load_subjects-IsSubject :
      (s : Subject) → Memᴰ s (load_subjects script i entities) → IsSubject script i entities s
  unfolding load_subjects
  load_subjects-IsSubject s m = subjects_of_groups-member _ s group-AreOf m
