-- ===== src/AsTracker/Classes.antt =====
-- proxy/as_tracker.cpp: `GeometryLabels` and `PairClasses`, the records that the pairs of a
-- TraceRay call reach in the scenes bound.
use dxr11_pascal.Base.{
  ℕ, zero, suc, ◌+◌, ◌-◌, ◌*◌, ◌%◌, Bool, true, false, ◌&&◌, ◌||◌, not, List, [], ◌∷◌, ◌++◌, Option,
  none, some, ltb, ◌==◌, if◌then◌else◌, length, get_elem?, any, put_at, copies,
}
use dxr11_pascal.AsTracker.{word, TlasInfo, State}
use dxr11_pascal.AsTracker.Builds.{is_current, is_live}
use dxr11_pascal.AsTracker.Queries.{any_read}
use dxr11_pascal.AsTracker.Records.{is_bound}

-- Whether a structure is one that a dispatch may trace: bound, if one that is bound was read.
unfoldable pub is_traced : State → List ℕ → Bool → ℕ × TlasInfo → Bool
is_traced s bound any_bound (at, t) =
    if not t.valid then false else if any_bound then is_bound bound at else is_live s at

unfoldable pub traced : State → List ℕ → Bool → List (ℕ × TlasInfo) → List (ℕ × TlasInfo)
traced s bound any_bound [] = []
traced s bound any_bound (e ∷ m) =
    let rest = traced s bound any_bound m in
    if is_traced s bound any_bound e then e ∷ rest else rest

-- The record that a pair reaches for a geometry of a class; it does not wrap.
unfoldable pub record_of : ℕ × ℕ → ℕ → ℕ → ℕ
record_of (r, m) gi contribution = r % 16 + m % 16 * gi + contribution

-- A record's label: -1, a geometry index, or -2.
pub data Label : Type 0 where
  unlabelled : Label
  geometry : ℕ → Label
  several : Label

unfoldable pub relabel : ℕ → Label → Label
relabel gi unlabelled = geometry gi
relabel gi (geometry g) = if g == gi then geometry g else several
relabel gi several = several

unfoldable pub label_at : ℕ → ℕ → List Label → List Label
label_at idx gi out = elim (get_elem? out idx) [
  | none ↦ out
  | some l ↦ put_at idx (relabel gi l) out
]

unfoldable pub label_pairs : List (ℕ × ℕ) → ℕ → ℕ → List Label → List Label
label_pairs [] gi contribution out = out
label_pairs (p ∷ ps) gi contribution out =
    label_pairs ps gi contribution (label_at (record_of p gi contribution) gi out)

-- The loop over a class's geometries, `left` of them from the `gi`-th on.
unfoldable pub label_class : List (ℕ × ℕ) → ℕ → ℕ → ℕ → List Label → List Label
label_class pairs contribution gi zero out = out
label_class pairs contribution gi (suc left) out =
    label_class pairs contribution (gi + 1) left (label_pairs pairs gi contribution out)

unfoldable pub label_classes : List (ℕ × ℕ) → List (ℕ × ℕ) → List Label → List Label
label_classes pairs [] out = out
label_classes pairs ((c, n) ∷ cs) out = label_classes pairs cs (label_class pairs c 0 n out)

unfoldable pub classes_of : List (ℕ × TlasInfo) → List (ℕ × ℕ)
classes_of [] = []
classes_of ((at, t) ∷ m) = t.classes ++ classes_of m

pub record Labels : Type 0 where
  pub labels : List Label
  pub was_read : Bool
  pub is_stale : Bool

-- `GeometryLabels`
unfoldable pub geometry_labels : State → List (ℕ × ℕ) → ℕ → List ℕ → Bool → Labels
geometry_labels s pairs records bound exact =
    let chosen = traced s bound (exact || any_read s bound) s.tlas in
    record {
      labels = label_classes pairs (classes_of chosen) (copies records unlabelled);
      was_read = any (λ e. true) chosen;
      is_stale = any (λ e. not (is_current s e.0)) chosen;
    }

-- `PairClasses`: what a pair reaches, record by record; one outside the table is UINT_MAX.
unfoldable pub signature_class : ℕ → ℕ × ℕ → ℕ → ℕ → ℕ → List ℕ
signature_class records p contribution gi zero = []
signature_class records p contribution gi (suc left) =
    let idx = record_of p gi contribution in
    (if ltb idx records then idx else word - 1)
    ∷ signature_class records p contribution (gi + 1) left

unfoldable pub signature : ℕ → ℕ × ℕ → List (ℕ × ℕ) → List ℕ
signature records p [] = []
signature records p ((c, n) ∷ cs) = signature_class records p c 0 n ++ signature records p cs

unfoldable pub reaches_class : ℕ → ℕ × ℕ → ℕ → ℕ → ℕ → Bool
reaches_class records p contribution gi zero = false
reaches_class records p contribution gi (suc left) =
    ltb (record_of p gi contribution) records || reaches_class records p contribution (gi + 1) left

unfoldable pub reaches : ℕ → ℕ × ℕ → List (ℕ × ℕ) → Bool
reaches records p [] = false
reaches records p ((c, n) ∷ cs) = reaches_class records p c 0 n || reaches records p cs

unfoldable pub same_list : List ℕ → List ℕ → Bool
same_list [] [] = true
same_list [] (y ∷ ys) = false
same_list (x ∷ xs) [] = false
same_list (x ∷ xs) (y ∷ ys) = x == y && same_list xs ys

-- The number that a signature was given: its place among those seen, `i` the first's.
unfoldable pub id_of : ℕ → List ℕ → List (List ℕ) → Option ℕ
id_of i sig [] = none
id_of i sig (seen ∷ ids) = if same_list seen sig then some i else id_of (i + 1) sig ids

-- A pair's class, -1 being `none`, and the signatures seen after it.
unfoldable pub class_of : ℕ → List (ℕ × ℕ) → ℕ × ℕ → List (List ℕ) → Option ℕ
class_of records cs p ids =
    if not (reaches records p cs)
    then none
    else elim (id_of 0 (signature records p cs) ids) [ some i ↦ some i | none ↦ some (length ids) ]

unfoldable pub seen_after : ℕ → List (ℕ × ℕ) → ℕ × ℕ → List (List ℕ) → List (List ℕ)
seen_after records cs p ids =
    if not (reaches records p cs) then ids else elim (id_of 0 (signature records p cs) ids) [
      | some i ↦ ids
      | none ↦ ids ++ signature records p cs ∷ []
    ]

unfoldable pub pair_ids : ℕ → List (ℕ × ℕ) → List (ℕ × ℕ) → List (List ℕ) → List (Option ℕ)
pair_ids records cs [] ids = []
pair_ids records cs (p ∷ ps) ids =
    class_of records cs p ids ∷ pair_ids records cs ps (seen_after records cs p ids)

unfoldable pub pair_classes : State → List (ℕ × ℕ) → ℕ → List ℕ → Bool → List (Option ℕ)
pair_classes s pairs records bound exact =
    pair_ids records (classes_of (traced s bound (exact || any_read s bound) s.tlas)) pairs []
