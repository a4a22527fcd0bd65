-- ===== src/Evidence/Values.antt =====
-- packages/evidence/src/generic-invariant-evaluate.ts: the values of declared payloads, the
-- comparison of a scope across surfaces, and the convergence of observed values.
use rupture_grid.Base.{
  ℕ, suc, ◌-◌, Bool, true, false, not, Option, none, some, List, [], ◌∷◌, Text, codes, same_text,
  ◌==◌, leb, ltb, if◌then◌else◌, any,
}

-- Integers over the native numbers: `negsuc n` is −(n + 1).
pub data ℤ : Type 0 where
  pos negsuc : ℕ → ℤ

abbrev pub same_ℤ : ℤ → ℤ → Bool
same_ℤ (pos m) (pos n) = m == n
same_ℤ (negsuc m) (negsuc n) = m == n
same_ℤ (pos m) (negsuc n) = false
same_ℤ (negsuc m) (pos n) = false

abbrev pub is_negative : ℤ → Bool
is_negative (pos n) = false
is_negative (negsuc n) = true

-- The difference of two natural numbers.
unfoldable pub difference : ℕ → ℕ → ℤ
difference m n = if leb n m then pos (m - n) else negsuc (n - suc m)

-- A value of a payload. A number that is no integer has its text, an object or an array its place
-- in memory, by which `===` compares it.
pub data Value : Type 0 where
  absent_value null_value : Value
  text other_number : Text → Value
  integer : ℤ → Value
  boolean : Bool → Value
  structure : ℕ → Value

-- `===`, which the source uses together with a test that the types agree.
unfoldable pub same_value : Value → Value → Bool
same_value absent_value absent_value = true
same_value null_value null_value = true
same_value (text s) (text t) = same_text s t
same_value (other_number s) (other_number t) = same_text s t
same_value (integer m) (integer n) = same_ℤ m n
same_value (boolean true) (boolean b) = b
same_value (boolean false) (boolean b) = not b
same_value (structure m) (structure n) = m == n
same_value v w = false

-- `REDACTED`.
abbrev pub redacted : Text
redacted = codes "[Redacted]"

-- `value === undefined || value === null`.
abbrev pub is_missing : Value → Bool
is_missing absent_value = true
is_missing null_value = true
is_missing v = false

abbrev pub is_non_provable_value : Value → Bool
is_non_provable_value (text t) = same_text t redacted
is_non_provable_value v = is_missing v

-- `typeof value`.
abbrev pub type_of : Value → Text
type_of absent_value = codes "undefined"
type_of null_value = codes "object"
type_of (text t) = codes "string"
type_of (other_number t) = codes "number"
type_of (integer n) = codes "number"
type_of (boolean b) = codes "boolean"
type_of (structure n) = codes "object"

-- `Number.MAX_SAFE_INTEGER`.
abbrev pub max_safe : ℕ
max_safe = 9007199254740991

-- The integer of a value that passes `typeof … 'number'`, `isInteger` and `isSafeInteger`.
unfoldable pub safe_integer : Value → Option ℤ
safe_integer (integer (pos n)) = if leb n max_safe then some (pos n) else none
safe_integer (integer (negsuc n)) = if ltb n max_safe then some (negsuc n) else none
safe_integer v = none

-- A payload is its entries in their order.
abbrev pub Payload : Type 0
Payload = List (Text × Value)

-- `payload[field]`.
unfoldable pub value_of : Text → Payload → Value
value_of field [] = absent_value
value_of field ((name, value) ∷ entries) =
    if same_text name field then value else value_of field entries

unfoldable pub strip_provenance : Payload → Payload
strip_provenance [] = []
strip_provenance ((name, value) ∷ entries) =
    let rest = strip_provenance entries in
    if same_text name (codes "rupturegrid") then rest else (name, value) ∷ rest

-- A payload and the surface it was seen on.
pub record Surface : Type 0 where
  pub name : Text
  pub payload : Payload

pub record ScopeBinding : Type 0 where
  pub fields : List Text
  pub generation_field : Option Text

pub data Problem : Type 0 where
  missing_value redacted_value mismatch missing_or_redacted_generation generation_mismatch : Problem

pub record ScopeDetail : Type 0 where
  pub field : Text
  pub surface : Text
  pub problem : Problem

-- What is wrong with the value of a field on one surface, against the first surface's value.
abbrev pub field_problem : Value → Option Value → Option Problem
field_problem value reference =
    if is_missing value
    then some missing_value
    else if is_non_provable_value value
    then some redacted_value
    else elim reference [
      | none ↦ none
      | some first ↦ if same_value first value then none else some mismatch
    ]

abbrev pub generation_problem : Value → Option Value → Option Problem
generation_problem value reference =
    if is_non_provable_value value then some missing_or_redacted_generation else elim reference [
      | none ↦ none
      | some first ↦ if same_value first value then none else some generation_mismatch
    ]

-- The reference for the next surface: the first value seen.
abbrev first_seen : Option Value → Value → Value
first_seen none v = v
first_seen (some first) v = first

-- The value of a field on each surface.
abbrev pub values_at : Text → List Surface → List (Text × Value)
values_at field [] = []
values_at field (s ∷ ss) = (s.name, value_of field s.payload) ∷ values_at field ss

abbrev detail_of : Text → Text → Option Problem → Option ScopeDetail
detail_of field surface none = none
detail_of field surface (some problem) =
    some (record { field = field; surface = surface; problem = problem })

abbrev pub first_problem : Option ScopeDetail → Option ScopeDetail → Option ScopeDetail
first_problem none second = second
first_problem (some detail) second = some detail

-- The first problem of a field over the surfaces.
abbrev pub compare_values :
    (Value → Option Value → Option Problem)
    → Text
    → Option Value
    → List (Text × Value)
    → Option ScopeDetail
compare_values judge field reference [] = none
compare_values judge field reference ((surface, value) ∷ rest) =
    first_problem (detail_of field surface (judge value reference))
      (compare_values judge field (some (first_seen reference value)) rest)

abbrev pub compare_fields : List Text → List Surface → Option ScopeDetail
compare_fields [] surfaces = none
compare_fields (field ∷ fields) surfaces =
    first_problem (compare_values field_problem field none (values_at field surfaces))
      (compare_fields fields surfaces)

abbrev pub compare_generation : Option Text → List Surface → Option ScopeDetail
compare_generation none surfaces = none
compare_generation (some field) surfaces =
    compare_values generation_problem field none (values_at field surfaces)

-- `coherentScope`: the first incoherence, if there is one.
unfoldable pub scope_problem : List Surface → ScopeBinding → Option ScopeDetail
scope_problem surfaces scope =
    first_problem (compare_fields scope.fields surfaces)
      (compare_generation scope.generation_field surfaces)

abbrev is_none : Option ScopeDetail → Bool
is_none none = true
is_none (some detail) = false

abbrev pub coherent_scope : List Surface → ScopeBinding → Bool
coherent_scope surfaces scope = is_none (scope_problem surfaces scope)

pub data Converged : Type 0 where
  nothing_observed conflicting : Converged
  one_value : Value → Converged

unfoldable pub converge_values : List Value → Converged
converge_values [] = nothing_observed
converge_values (first ∷ rest) =
    if any (λ v. not (same_value first v)) rest then conflicting else one_value first
