-- ===== src/Evidence/Candidates/Alike.antt =====
-- Two effects with the same declared payload are alike for the filter of the candidates.
use mathlib.Core.List.{Memᴰ}
use rupture_grid.Base.{
  ◌≡◌, refl, ap, false, Option, none, some, List, [], ◌∷◌, Text, codes, same_text, same_text-eq,
  has, Bool-cases, ||-eq-false, inl, inr,
}
use rupture_grid.Evidence.Values.{
  Value, Payload, value_of, strip_provenance, ScopeBinding, Surface, Problem, field_problem,
  generation_problem, values_at, compare_values, first_problem, compare_fields, compare_generation,
  scope_problem,
}
use rupture_grid.Evidence.Input.{Script, Entity, AcceptedMatch}
use rupture_grid.Evidence.Candidates.{is_accepted, is_equivalent, in_scope}

abbrev pub provenance : Text
provenance = codes "rupturegrid"

value_of-strip :
    (field : Text) (p : Payload)
    → same_text provenance field ≡ false
    → value_of field (strip_provenance p) ≡ value_of field p
unfolding value_of strip_provenance
value_of-strip field [] h = refl
value_of-strip field ((name, value) ∷ p) h = elim (Bool-cases (same_text name provenance)) [
  | inl e ↦
      let same : name ≡ provenance = same_text-eq name provenance e in
      rw (e, same, h) (value_of-strip field p h)
  | inr e ↦ elim (Bool-cases (same_text name field)) [
    | inl d ↦ rw (e, d) refl
    | inr d ↦ rw (e, d) (value_of-strip field p h)
  ]
]

-- The two effects have the same declared payload.
abbrev pub Alike : Entity → Entity → Type 0
Alike e f = strip_provenance e.payload ≡ strip_provenance f.payload

-- `JSON.stringify` tells the declared payloads of the recorded events apart.
abbrev pub TellsApart : Script → List Entity → Type 0
TellsApart script es =
    (e f : Entity)
    → Memᴰ e es
    → Memᴰ f es
    → script.stringify (strip_provenance e.payload) ≡ script.stringify (strip_provenance f.payload)
    → Alike e f

Alike-value :
    (e f : Entity) (field : Text)
    → Alike e f
    → same_text provenance field ≡ false
    → value_of field e.payload ≡ value_of field f.payload
Alike-value e f field h other =
    rw (← value_of-strip field e.payload other, ← value_of-strip field f.payload other, h) refl

pub is_accepted-Alike :
    (match_with : AcceptedMatch) (e f : Entity)
    → Alike e f
    → same_text provenance match_with.field ≡ false
    → is_accepted match_with e ≡ is_accepted match_with f
is_accepted-Alike match_with e f h other = rw (Alike-value e f match_with.field h other) refl

pub is_equivalent-Alike :
    (fields : List Text) (subject : Payload) (e f : Entity)
    → Alike e f
    → has provenance fields ≡ false
    → is_equivalent fields subject e ≡ is_equivalent fields subject f
unfolding is_equivalent
is_equivalent-Alike [] subject e f h other = refl
is_equivalent-Alike (field ∷ fields) subject e f h other =
    let (a, b) = ||-eq-false _ _ other in
    rw (Alike-value e f field h a, is_equivalent-Alike fields subject e f h b) refl

abbrev pub generation_fields : Option Text → List Text
generation_fields none = []
generation_fields (some field) = field ∷ []

-- The second surface of a comparison, with the payload of an effect.
abbrev with_effect : Text → Payload → Entity → List Surface
with_effect surface subject e =
    record { name = codes "subject"; payload = subject }
    ∷ (record { name = surface; payload = e.payload } ∷ [])

module _ (surface : Text) (subject : Payload) (e f : Entity) (h : Alike e f) where
  compare_values-Alike :
      (judge : Value → Option Value → Option Problem) (field : Text)
      → same_text provenance field ≡ false
      → compare_values judge field none (values_at field (with_effect surface subject e))
        ≡ compare_values judge field none (values_at field (with_effect surface subject f))
  compare_values-Alike judge field other =
      ap
        (λ v.
          compare_values judge field none
            ((codes "subject", value_of field subject) ∷ ((surface, v) ∷ [])))
        (Alike-value e f field h other)

  compare_fields-Alike :
      (fields : List Text)
      → has provenance fields ≡ false
      → compare_fields fields (with_effect surface subject e)
        ≡ compare_fields fields (with_effect surface subject f)
  compare_fields-Alike [] other = refl
  compare_fields-Alike (field ∷ fields) other =
      let (a, b) = ||-eq-false _ _ other in
      λ i.
        first_problem (compare_values-Alike field_problem field a i)
          (compare_fields-Alike fields b i)

  compare_generation-Alike :
      (field : Option Text)
      → has provenance (generation_fields field) ≡ false
      → compare_generation field (with_effect surface subject e)
        ≡ compare_generation field (with_effect surface subject f)
  compare_generation-Alike none other = refl
  compare_generation-Alike (some field) other =
      compare_values-Alike generation_problem field (||-eq-false _ _ other).0

  pub in_scope-Alike :
      (scope : ScopeBinding)
      → has provenance scope.fields ≡ false
      → has provenance (generation_fields scope.generation_field) ≡ false
      → in_scope surface subject scope e ≡ in_scope surface subject scope f
  unfolding in_scope scope_problem
  in_scope-Alike scope a b =
      rw (compare_fields-Alike scope.fields a, compare_generation-Alike scope.generation_field b)
        refl
