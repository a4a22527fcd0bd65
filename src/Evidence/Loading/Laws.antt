-- ===== src/Evidence/Loading/Laws.antt =====
-- What a valid capture and a loaded subject rest on.
use mathlib.Core.List.{Memᴰ}
use rupture_grid.Base.{
  ◌≡◌, refl, ◌⊎◌, inl, inr, Bool, true, false, not, Option, none, some, List, [], ◌∷◌, ◌++◌, Text,
  same_text, same_text-eq, Bool-cases, Option-cases, &&-eq-true,
}
use rupture_grid.Evidence.Graph.{lookup}
use rupture_grid.Evidence.Input.{
  Script, Input, AtMostOneParams, CaptureStatus, pass, is_usable, capture_invalid,
}
use rupture_grid.Evidence.AtMostOne.{required_for_pass, evaluate_at_most_one}
use rupture_grid.Evidence.AtMostOne.Passing.{evaluate_at_most_one-pass}
use rupture_grid.Evidence.Loading.{
  CaptureRow, is_2xx, is_valid, status_of, add_capture, add_row, add_rows, load_captures,
  Inspection, absent_status, add_absent, add_all_absent, build_captures,
}

-- The rows that the statuses come from.
abbrev Comes : List CaptureRow → List (Text × CaptureStatus) → Type 0
Comes rows known =
    (query : Text) (status : CaptureStatus)
    → lookup query known ≡ some status
    → (row : CaptureRow) × Memᴰ row rows
      × (row.query_id ≡ some query)
      × (status ≡ status_of query row)

lookup-snoc :
    (known : List (Text × CaptureStatus)) (query q : Text) (added status : CaptureStatus)
    → lookup query (known ++ ((q, added) ∷ [])) ≡ some status
    → (lookup query known ≡ some status) ⊎ ((q ≡ query) × (status ≡ added))
unfolding lookup
lookup-snoc [] query q added status h = elim (Bool-cases (same_text q query)) [
  | inl e ↦ let found : some added ≡ some status = rw e at h in inr (same_text-eq q query e, cc)
  | inr e ↦ let clash : none ≡ some status = rw e at h in cc
]
lookup-snoc ((j, a) ∷ known) query q added status h = elim (Bool-cases (same_text j query)) [
  | inl e ↦ inl (rw e (rw e at h))
  | inr e ↦ elim (lookup-snoc known query q added status (rw e at h)) [
    | inl d ↦ inl (rw e d)
    | inr d ↦ inr d
  ]
]

add_capture-Comes :
    (rows : List CaptureRow) (query : Text) (row : CaptureRow) (o : Option CaptureStatus)
    (known : List (Text × CaptureStatus))
    → Memᴰ row rows
    → row.query_id ≡ some query
    → Comes rows known
    → Comes rows (add_capture query row o known)
add_capture-Comes rows query row (some s) known m is comes = comes
add_capture-Comes rows query row none known m is comes = λ q status h.
    elim (lookup-snoc known q query (status_of query row) status h) [
      | inl d ↦ comes q status d
      | inr (same, d) ↦ (row, m, rw (← same) is, rw (← same) d)
    ]

add_row-Comes :
    (rows : List CaptureRow) (row : CaptureRow) (o : Option Text)
    (known : List (Text × CaptureStatus))
    → Memᴰ row rows
    → row.query_id ≡ o
    → Comes rows known
    → Comes rows (add_row row o known)
add_row-Comes rows row none known m is comes = comes
add_row-Comes rows row (some query) known m is comes =
    add_capture-Comes rows query row (lookup query known) known m is comes

add_rows-Comes :
    (all rows : List CaptureRow) (known : List (Text × CaptureStatus))
    → ((row : CaptureRow) → Memᴰ row rows → Memᴰ row all)
    → Comes all known
    → Comes all (add_rows rows known)
add_rows-Comes all [] known within comes = comes
add_rows-Comes all (row ∷ rows) known within comes =
    add_rows-Comes all rows (add_row row row.query_id known) (λ r m. within r (Memᴰ.tail m))
      (add_row-Comes all row row.query_id known (within row (Memᴰ.head refl)) refl comes)

-- A recorded inspection that shows its surface: observed, answered with a status from 200 to 299, not
-- truncated, and of the declared shape.
abbrev pub ShowsSurface : Text → CaptureRow → Type 0
ShowsSurface query row =
    (row.query_id ≡ some query)
    × (row.is_observed ≡ true)
    × (is_2xx row.http_status ≡ true)
    × (row.observed_truncated ≡ false)
    × (row.row_truncated ≡ false)
    × (row.shape_valid ≡ true)

not_truncated : (b : Bool) → not b ≡ true → b ≡ false
not_truncated true h = cc
not_truncated false h = refl

is_valid-ShowsSurface :
    (query : Text) (row : CaptureRow)
    → row.query_id ≡ some query
    → is_valid row ≡ true
    → ShowsSurface query row
is_valid-ShowsSurface query row is h =
    let (a, h1) = &&-eq-true _ _ h in
    let (b, h2) = &&-eq-true _ _ h1 in
    let (c, d) = &&-eq-true _ _ h2 in
    let (e, f) = &&-eq-true _ _ c in (is, a, b, not_truncated _ e, not_truncated _ f, d)

-- Only a query with a recorded inspection that shows its surface has a usable capture.
load_captures-ShowsSurface :
    (rows : List CaptureRow) (query : Text)
    → is_usable (lookup query (load_captures rows)) ≡ true
    → (row : CaptureRow) × Memᴰ row rows × ShowsSurface query row
unfolding load_captures lookup
load_captures-ShowsSurface rows query h = elim (Option-cases (lookup query (load_captures rows))) [
  | inl e ↦ let clash : false ≡ true = rw e at h in cc
  | inr (status, e) ↦
      let (row, m, is, same) =
        add_rows-Comes rows rows [] (λ r m. m) (λ q s k. cc) query status e in
      let usable = rw (e, same) at h in (row, m, is_valid-ShowsSurface query row is usable)
]

-- An absent entry is not usable, and the others are those that were loaded.
add_absent-usable :
    (i : Inspection) (o : Option CaptureStatus) (known : List (Text × CaptureStatus)) (query : Text)
    → is_usable (lookup query (add_absent i o known)) ≡ true
    → is_usable (lookup query known) ≡ true
add_absent-usable i (some s) known query h = h
add_absent-usable i none known query h =
    elim (Option-cases (lookup query (known ++ ((i.query_id, absent_status i) ∷ [])))) [
      | inl e ↦ let clash : false ≡ true = rw e at h in cc
      | inr (status, e) ↦ elim (lookup-snoc known query i.query_id (absent_status i) status e) [
        | inl d ↦ rw d (rw e at h)
        | inr (same, d) ↦ let clash : false ≡ true = rw (e, d) at h in cc
      ]
    ]

add_all_absent-usable :
    (is : List Inspection) (known : List (Text × CaptureStatus)) (query : Text)
    → is_usable (lookup query (add_all_absent is known)) ≡ true
    → is_usable (lookup query known) ≡ true
add_all_absent-usable [] known query h = h
add_all_absent-usable (i ∷ is) known query h =
    add_absent-usable i (lookup i.query_id known) known query
      (add_all_absent-usable is (add_absent i (lookup i.query_id known) known) query h)

build_captures-ShowsSurface :
    (declared : List Inspection) (rows : List CaptureRow) (query : Text)
    → is_usable (lookup query (build_captures declared rows)) ≡ true
    → (row : CaptureRow) × Memᴰ row rows × ShowsSurface query row
unfolding build_captures
build_captures-ShowsSurface declared rows query h =
    load_captures-ShowsSurface rows query
      (add_all_absent-usable declared (load_captures rows) query h)

capture_invalid-usable :
    (input : Input) (queries : List Text) (query : Text)
    → capture_invalid input queries ≡ []
    → Memᴰ query queries
    → is_usable (lookup query input.captures) ≡ true
unfolding capture_invalid
capture_invalid-usable input [] query h m = elim m [ ]
capture_invalid-usable input (q ∷ queries) query h m =
    elim (Bool-cases (is_usable (lookup q input.captures))) [
      | inr e ↦ let clash : (q ∷ capture_invalid input queries) ≡ [] = rw e at h in cc
      | inl e ↦ elim m [
        | Memᴰ.head p ↦ rw p e
        | Memᴰ.tail n ↦ capture_invalid-usable input queries query (rw e at h) n
      ]
    ]

-- If the captures of the input are those that are built for it from the declared queries and the
-- recorded inspections, a PASS of the at-most-one evaluation has, for
-- every query of the subject role, of the effect role and of the completeness proof, a recorded
-- inspection that was observed, answered with a status from 200 to 299, not truncated, and of the
-- declared shape.
pub evaluate_at_most_one-ShowsSurface :
    (script : Script) (input : Input) (params : AtMostOneParams) (declared : List Inspection)
    (rows : List CaptureRow) (query : Text)
    → input.captures ≡ build_captures declared rows
    → (evaluate_at_most_one script input params).verdict ≡ pass
    → Memᴰ query (required_for_pass script input params)
    → (row : CaptureRow) × Memᴰ row rows × ShowsSurface query row
evaluate_at_most_one-ShowsSurface script input params declared rows query loaded h m =
    let (guards, bound, summary) = evaluate_at_most_one-pass script input params h in
    let usable =
      capture_invalid-usable input (required_for_pass script input params) query guards.5 m in
    build_captures-ShowsSurface declared rows query (rw loaded at usable)
