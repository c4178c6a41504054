-- ===== src/AsTracker/Merging.antt =====
-- proxy/as_tracker.cpp: one structure's constants put with those merged so far, in the check of
-- `TableWouldBeWrong` and in `RecordConstantsTable`.
use dxr11_pascal.Base.{
  ℕ, zero, suc, ◌+◌, ◌≡◌, refl, ap, ◌∙◌, inl, inr, Bool, true, false, ◌⊎◌, List, [], ◌∷◌, some,
  arith, if◌then◌else◌, get_elem?, Bool-cases,
}
use dxr11_pascal.AsTracker.{RecordConstants, no_constants}
use dxr11_pascal.AsTracker.Records.{
  same_record, clash, pick, Merged, conflict_at, merged, push_merged, merge, put_constants,
}

pub push_merged-split :
    (c : RecordConstants) (r : Merged) (out : List RecordConstants)
    → push_merged c r ≡ merged out
    → (rest : List RecordConstants) × (r ≡ merged rest) × (out ≡ c ∷ rest)
unfolding push_merged
push_merged-split c (conflict_at i) out e = absurd cc
push_merged-split c (merged cs) out e = (cs, refl, cc)

pub unless_conflict :
    (b : Bool) (i : ℕ) (r : Merged) (out : List RecordConstants)
    → (if b then conflict_at i else r) ≡ merged out
    → (b ≡ false) × (r ≡ merged out)
unless_conflict true i r out e = absurd cc
unless_conflict false i r out e = (refl, e)

-- Without a conflict, the merged list is what the table gets.
pub merge-put_constants :
    (i : ℕ) (ms cs out : List RecordConstants)
    → merge i ms cs ≡ merged out
    → out ≡ put_constants ms cs
unfolding merge put_constants
merge-put_constants i [] [] out e = cc
merge-put_constants i (m ∷ ms) [] out e = cc
merge-put_constants i [] (a ∷ cs) out e =
    let (rest, f, g) = push_merged-split _ (merge (i + 1) [] cs) out e in
    g ∙ ap (λ x. pick no_constants a ∷ x) (merge-put_constants (i + 1) [] cs rest f)
merge-put_constants i (m ∷ ms) (a ∷ cs) out e =
    let (quiet, pushed) = unless_conflict (clash m a) i _ out e in
    let (rest, f, g) = push_merged-split _ (merge (i + 1) ms cs) out pushed in
    g ∙ ap (λ x. pick m a ∷ x) (merge-put_constants (i + 1) ms cs rest f)

pick-mine : (m a : RecordConstants) → m.assigned ≡ true → pick m a ≡ m
unfolding pick
pick-mine m a e = ground arith

pick-other : (m a : RecordConstants) → a.assigned ≡ true → clash m a ≡ false → pick m a ≡ a
unfolding pick clash same_record
pick-other m a e quiet = elim (Bool-cases m.assigned) [
  | inl u ↦
      let g : m.geometry_index ≡ a.geometry_index = ground arith in
      let i : m.instance_contribution ≡ a.instance_contribution = ground arith in
      let same : m ≡ a = cc in ground (arith, same)
  | inr u ↦ ground arith
]

clash-no_constants : (c : RecordConstants) → clash no_constants c ≡ false
unfolding clash
clash-no_constants c = ground arith

-- What is in the table stays.
pub put_constants-stay :
    (ms cs : List RecordConstants) (k : ℕ) (rc : RecordConstants)
    → get_elem? ms k ≡ some rc
    → rc.assigned ≡ true
    → get_elem? (put_constants ms cs) k ≡ some rc
unfolding put_constants
put_constants-stay ms [] k rc e a = e
put_constants-stay [] (c ∷ cs) k rc e a = absurd cc
put_constants-stay (m ∷ ms) (c ∷ cs) zero rc e a =
    let same : m ≡ rc = cc in ap some (pick-mine m c (ap (λ x. x.assigned) same ∙ a) ∙ same)
put_constants-stay (m ∷ ms) (c ∷ cs) (suc k) rc e a = put_constants-stay ms cs k rc e a

-- What a structure has assigned goes into the table, where nothing clashes.
pub merge-holds :
    (i : ℕ) (ms cs out : List RecordConstants) (k : ℕ) (rc : RecordConstants)
    → merge i ms cs ≡ merged out
    → get_elem? cs k ≡ some rc
    → rc.assigned ≡ true
    → get_elem? (put_constants ms cs) k ≡ some rc
unfolding merge put_constants
merge-holds i ms [] out k rc e f a = absurd cc
merge-holds i [] (c ∷ cs) out zero rc e f a =
    let same : c ≡ rc = cc in
    ap some
      (pick-other no_constants c (ap (λ x. x.assigned) same ∙ a) (clash-no_constants c) ∙ same)
merge-holds i [] (c ∷ cs) out (suc k) rc e f a =
    let (rest, g, h) = push_merged-split _ (merge (i + 1) [] cs) out e in
    merge-holds (i + 1) [] cs rest k rc g f a
merge-holds i (m ∷ ms) (c ∷ cs) out zero rc e f a =
    let (quiet, pushed) = unless_conflict (clash m c) i _ out e in
    let same : c ≡ rc = cc in ap some (pick-other m c (ap (λ x. x.assigned) same ∙ a) quiet ∙ same)
merge-holds i (m ∷ ms) (c ∷ cs) out (suc k) rc e f a =
    let (quiet, pushed) = unless_conflict (clash m c) i _ out e in
    let (rest, g, h) = push_merged-split _ (merge (i + 1) ms cs) out pushed in
    merge-holds (i + 1) ms cs rest k rc g f a

pub Merged-cases :
    (r : Merged)
    → ((i : ℕ) × (r ≡ conflict_at i)) ⊎ ((out : List RecordConstants) × (r ≡ merged out))
Merged-cases (conflict_at i) = inl (i, refl)
Merged-cases (merged out) = inr (out, refl)
