-- ===== src/AsTracker/Records.antt =====
-- proxy/as_tracker.cpp: the table of the records' constants over the structures that count, and
-- when a dispatch on it is refused.
use dxr11_pascal.Base.{
  ℕ, ◌+◌, Bool, false, ◌&&◌, ◌||◌, not, List, [], ◌∷◌, Option, none, some, ◌==◌, if◌then◌else◌, any,
}
use dxr11_pascal.AsTracker.{
  Reach, reach_or, RecordConstants, no_constants, TlasInfo, State, Summary,
}
use dxr11_pascal.AsTracker.Builds.{is_live, counts}

unfoldable pub is_bound : List ℕ → ℕ → Bool
is_bound bound at = any (λ a. a == at) bound

unfoldable pub meets_unknown : State → List ℕ → Bool → ℕ × TlasInfo → Bool
meets_unknown s bound exact (at, t) =
    if not t.valid || t.unknown_blas == 0
    then false
    else if exact
    then is_bound bound at
    else is_live s at

-- `UnknownBlas`
unfoldable pub unknown_blas : State → List ℕ → Bool → Bool
unknown_blas s bound exact = any (meets_unknown s bound exact) s.tlas

-- What a refusal names: the instances on an unknown structure, or the record.
pub data Refusal : Type 0 where
  unknown_structures : ℕ → Refusal
  one_tlas : ℕ → Refusal
  cross_live : ℕ → Refusal
  procedural_and_triangles : ℕ → Refusal

unfoldable pub same_record : RecordConstants → RecordConstants → Bool
same_record m a =
    m.geometry_index == a.geometry_index && m.instance_contribution == a.instance_contribution

unfoldable pub clash : RecordConstants → RecordConstants → Bool
clash m a = a.assigned && (m.assigned && not (same_record m a))

unfoldable pub pick : RecordConstants → RecordConstants → RecordConstants
pick m a = if a.assigned && not m.assigned then a else m

pub data Merged : Type 0 where
  conflict_at : ℕ → Merged
  merged : List RecordConstants → Merged

unfoldable pub push_merged : RecordConstants → Merged → Merged
push_merged c (conflict_at i) = conflict_at i
push_merged c (merged cs) = merged (c ∷ cs)

-- A structure's constants, from record `i` on, put with what is merged so far.
unfoldable pub merge : ℕ → List RecordConstants → List RecordConstants → Merged
merge i ms [] = merged ms
merge i [] (a ∷ cs) = let rest = merge (i + 1) [] cs in push_merged (pick no_constants a) rest
merge i (m ∷ ms) (a ∷ cs) =
    let rest = merge (i + 1) ms cs in
    if clash m a then conflict_at i else push_merged (pick m a) rest

-- The first loop of `TableWouldBeWrong`.
unfoldable pub layout_refusal :
    State → Option (List ℕ) → List (ℕ × TlasInfo) → List RecordConstants → Option Refusal
layout_refusal s only [] ms = none
layout_refusal s only ((at, t) ∷ m) ms =
    if not t.valid || not (counts s only at)
    then layout_refusal s only m ms
    else if not (t.unknown_blas == 0)
    then some (unknown_structures t.unknown_blas)
    else if t.constants_conflict
    then some (one_tlas t.conflict_slot)
    else elim (merge 0 ms t.constants) [
      | conflict_at i ↦ some (cross_live i)
      | merged ms' ↦ layout_refusal s only m ms'
    ]

unfoldable pub mixed_at : ℕ → List Reach → Option ℕ
mixed_at i [] = none
mixed_at i (r ∷ rs) =
    let later = mixed_at (i + 1) rs in if r.has_triangles && r.has_procedural then some i else later

-- The second loop.
unfoldable pub procedural_refusal : State → Option (List ℕ) → List (ℕ × TlasInfo) → Option Refusal
procedural_refusal s only [] = none
procedural_refusal s only ((at, t) ∷ m) =
    if not t.valid || not (counts s only at)
    then procedural_refusal s only m
    else elim (mixed_at 0 t.reach) [
      | none ↦ procedural_refusal s only m
      | some i ↦ some (procedural_and_triangles i)
    ]

-- `TableWouldBeWrong`
unfoldable pub table_would_be_wrong : State → Bool → Option (List ℕ) → Option Refusal
table_would_be_wrong s commits_procedural only = elim (layout_refusal s only s.tlas []) [
  | some r ↦ some r
  | none ↦ if commits_procedural then procedural_refusal s only s.tlas else none
]

-- A structure's constants put into the table, which keeps what it has.
unfoldable pub put_constants : List RecordConstants → List RecordConstants → List RecordConstants
put_constants out [] = out
put_constants [] (a ∷ cs) = pick no_constants a ∷ put_constants [] cs
put_constants (m ∷ out) (a ∷ cs) = pick m a ∷ put_constants out cs

unfoldable pub constants_table :
    State → Option (List ℕ) → List (ℕ × TlasInfo) → List RecordConstants → List RecordConstants
constants_table s only [] out = out
constants_table s only ((at, t) ∷ m) out =
    if not t.valid || not (counts s only at)
    then constants_table s only m out
    else constants_table s only m (put_constants out t.constants)

-- `RecordConstantsTable`
unfoldable pub record_constants_table : State → Option (List ℕ) → List RecordConstants
record_constants_table s only = constants_table s only s.tlas []

unfoldable pub put_kinds : List Reach → List Reach → List Reach
put_kinds out [] = out
put_kinds [] (r ∷ rs) = r ∷ put_kinds [] rs
put_kinds (o ∷ out) (r ∷ rs) = reach_or o r ∷ put_kinds out rs

unfoldable pub kinds_table : State → Option (List ℕ) → List (ℕ × TlasInfo) → List Reach → List Reach
kinds_table s only [] out = out
kinds_table s only ((at, t) ∷ m) out =
    if not t.valid || not (counts s only at)
    then kinds_table s only m out
    else kinds_table s only m (put_kinds out t.reach)

-- `RecordKinds`
unfoldable pub record_kinds : State → Option (List ℕ) → List Reach
record_kinds s only = kinds_table s only s.tlas []

-- `GetSummary`
unfoldable pub get_summary : State → Summary
get_summary s = s.summary
