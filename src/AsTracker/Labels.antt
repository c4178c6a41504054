-- ===== src/AsTracker/Labels.antt =====
-- proxy/as_tracker.cpp: what `GeometryLabels` says of a record holds for every hit that reaches it.
use dxr11_pascal.Base.{
  ℕ, zero, suc, ◌+◌, ◌*◌, ◌%◌, ◌≤◌, ◌<◌, ◌≡◌, refl, sym, ap, ◌∙◌, subst, inl, inr, Bool, true,
  false, ◌||◌, List, [], ◌∷◌, ◌++◌, some, arith, ◌==◌, length, get_elem?, get_elem?-lt, put_at,
  length-put_at, get_elem?-put_at, get_elem?-put_at_ne, copies, length-copies, Listed, Listed-left,
  Listed-right, Bool-cases, Option-cases,
}
use dxr11_pascal.AsTracker.{TlasInfo, State}
use dxr11_pascal.AsTracker.Queries.{any_read}
use dxr11_pascal.AsTracker.Classes.{
  is_traced, traced, record_of, Label, unlabelled, geometry, several, relabel, label_at,
  label_pairs, label_class, label_classes, classes_of, geometry_labels,
}

-- Whether a label is right for hits on geometry `gi`: it is that index, or several.
abbrev pub tells : ℕ → Label → Bool
tells gi unlabelled = false
tells gi (geometry g) = g == gi
tells gi several = true

relabel-tells_on : (gi k : ℕ) (l : Label) → tells gi l ≡ true → tells gi (relabel k l) ≡ true
unfolding relabel
relabel-tells_on gi k unlabelled e = absurd cc
relabel-tells_on gi k (geometry g) e = elim (Bool-cases (g == k)) [
  | inl u ↦ rw (u, relabel) e
  | inr u ↦ rw (u, relabel) refl
]
relabel-tells_on gi k several e = refl

relabel-tells : (gi : ℕ) (l : Label) → tells gi (relabel gi l) ≡ true
unfolding relabel
relabel-tells gi unlabelled = ground arith
relabel-tells gi (geometry g) = elim (Bool-cases (g == gi)) [
  | inl u ↦ rw (u, relabel) u
  | inr u ↦ rw (u, relabel) refl
]
relabel-tells gi several = refl

-- A record's label is right for hits on a geometry.
pub record TellsAt (idx gi : ℕ) (out : List Label) : Type 0 where
  pub label : Label
  pub is_there : get_elem? out idx ≡ some label
  pub is_right : tells gi label ≡ true

length-label_at : (i k : ℕ) (out : List Label) → length (label_at i k out) ≡ length out
unfolding label_at
length-label_at i k out = elim (Option-cases (get_elem? out i)) [
  | inl e ↦ rw (e, label_at) refl
  | inr (l, e) ↦ rw (e, label_at) (length-put_at i (relabel k l) out)
]

label_at-TellsAt_on :
    (idx gi i k : ℕ) (out : List Label)
    → idx < length out
    → TellsAt idx gi out
    → TellsAt idx gi (label_at i k out)
unfolding label_at
label_at-TellsAt_on idx gi i k out inside h = elim (Option-cases (get_elem? out i)) [
  | inl e ↦ rw (e, label_at) h
  | inr (l, e) ↦ elim (Bool-cases (i == idx)) [
    | inl u ↦
        let same : i ≡ idx = ground arith in
        let own : l ≡ h.label = cc in
        rw (e, label_at)
          (record {
            label = relabel k l;
            is_there =
                ap (get_elem? (put_at i (relabel k l) out)) (sym same)
                ∙ get_elem?-put_at i (relabel k l) out (omega (arith, inside, same));
            is_right = relabel-tells_on gi k l (ap (tells gi) own ∙ h.is_right);
          })
    | inr u ↦
        rw (e, label_at)
          (record {
            label = h.label;
            is_there =
                get_elem?-put_at_ne i idx (relabel k l) out (λ z. ground (arith, z)) ∙ h.is_there;
            is_right = h.is_right;
          })
  ]
]

label_at-TellsAt :
    (idx gi : ℕ) (out : List Label) → idx < length out → TellsAt idx gi (label_at idx gi out)
unfolding label_at
label_at-TellsAt idx gi out inside =
    let (l, e) = get_elem?-lt idx out inside in
    rw (e, label_at)
      (record {
        label = relabel gi l;
        is_there = get_elem?-put_at idx (relabel gi l) out inside;
        is_right = relabel-tells gi l;
      })

-- What later hits keep: the records, and each label that is right.
record Stays (out out' : List Label) : Type 0 where
  same_length : length out' ≡ length out
  still_right : (idx gi : ℕ) → idx < length out → TellsAt idx gi out → TellsAt idx gi out'

Stays-refl : (out : List Label) → Stays out out
Stays-refl out = record { same_length = refl; still_right = λ idx gi low h. h }

Stays-trans : (a b c : List Label) → Stays a b → Stays b c → Stays a c
Stays-trans a b c p q = record {
  same_length = q.same_length ∙ p.same_length;
  still_right =
      λ idx gi low h. q.still_right idx gi (rw p.same_length low) (p.still_right idx gi low h);
}

label_at-Stays : (i k : ℕ) (out : List Label) → Stays out (label_at i k out)
label_at-Stays i k out = record {
  same_length = length-label_at i k out;
  still_right = λ idx gi low h. label_at-TellsAt_on idx gi i k out low h;
}

label_pairs-Stays :
    (ps : List (ℕ × ℕ)) (gi c : ℕ) (out : List Label) → Stays out (label_pairs ps gi c out)
unfolding label_pairs
label_pairs-Stays [] gi c out = Stays-refl out
label_pairs-Stays (p ∷ ps) gi c out =
    let next = label_at (record_of p gi c) gi out in
    Stays-trans out next _ (label_at-Stays (record_of p gi c) gi out)
      (label_pairs-Stays ps gi c next)

label_class-Stays :
    (ps : List (ℕ × ℕ)) (c gi left : ℕ) (out : List Label)
    → Stays out (label_class ps c gi left out)
unfolding label_class
label_class-Stays ps c gi zero out = Stays-refl out
label_class-Stays ps c gi (suc left) out =
    let next = label_pairs ps gi c out in
    Stays-trans out next _ (label_pairs-Stays ps gi c out)
      (label_class-Stays ps c (gi + 1) left next)

label_classes-Stays :
    (ps cs : List (ℕ × ℕ)) (out : List Label) → Stays out (label_classes ps cs out)
unfolding label_classes
label_classes-Stays ps [] out = Stays-refl out
label_classes-Stays ps ((c, n) ∷ cs) out =
    let next = label_class ps c 0 n out in
    Stays-trans out next _ (label_class-Stays ps c 0 n out) (label_classes-Stays ps cs next)

label_pairs-TellsAt :
    (ps : List (ℕ × ℕ)) (p : ℕ × ℕ) (gi c : ℕ) (out : List Label)
    → Listed p ps
    → record_of p gi c < length out
    → TellsAt (record_of p gi c) gi (label_pairs ps gi c out)
unfolding label_pairs
label_pairs-TellsAt [] p gi c out (i, e) low = absurd cc
label_pairs-TellsAt (q ∷ ps) p gi c out (zero, e) low =
    let same : q ≡ p = cc in
    let next = label_at (record_of p gi c) gi out in
    subst
      (λ x.
        TellsAt (record_of p gi c) gi (label_pairs ps gi c (label_at (record_of x gi c) gi out)))
      (sym same)
      ((label_pairs-Stays ps gi c next).still_right (record_of p gi c) gi
        (rw (length-label_at (record_of p gi c) gi out) low)
        (label_at-TellsAt (record_of p gi c) gi out low))
label_pairs-TellsAt (q ∷ ps) p gi c out (suc i, e) low =
    label_pairs-TellsAt ps p gi c (label_at (record_of q gi c) gi out) (i, e)
      (rw (length-label_at (record_of q gi c) gi out) low)

label_class-TellsAt :
    (ps : List (ℕ × ℕ)) (p : ℕ × ℕ) (c gi left k : ℕ) (out : List Label)
    → Listed p ps
    → gi ≤ k
    → k < gi + left
    → record_of p k c < length out
    → TellsAt (record_of p k c) k (label_class ps c gi left out)
unfolding label_class
label_class-TellsAt ps p c gi zero k out there low high inside = absurd (omega arith)
label_class-TellsAt ps p c gi (suc left) k out there low high inside =
    let next = label_pairs ps gi c out in
    let stays = label_pairs-Stays ps gi c out in
    elim (Bool-cases (gi == k)) [
      | inr u ↦
          label_class-TellsAt ps p c (gi + 1) left k next there (ground arith) (omega arith)
            (rw stays.same_length inside)
      | inl u ↦
          let same : gi ≡ k = ground arith in
          (label_class-Stays ps c (gi + 1) left next).still_right (record_of p k c) k
            (rw stays.same_length inside)
            (subst (λ g. TellsAt (record_of p k c) k (label_pairs ps g c out)) (sym same)
              (label_pairs-TellsAt ps p k c out there inside))
    ]

label_classes-TellsAt :
    (ps : List (ℕ × ℕ)) (p : ℕ × ℕ) (cs : List (ℕ × ℕ)) (c n k : ℕ) (out : List Label)
    → Listed p ps
    → Listed (c, n) cs
    → k < n
    → record_of p k c < length out
    → TellsAt (record_of p k c) k (label_classes ps cs out)
unfolding label_classes
label_classes-TellsAt ps p [] c n k out there (i, e) low inside = absurd cc
label_classes-TellsAt ps p (d ∷ cs) c n k out there (zero, e) low inside =
    let same : d ≡ (c, n) = cc in
    let next = label_class ps c 0 n out in
    subst (λ x. TellsAt (record_of p k c) k (label_classes ps cs (label_class ps x.0 0 x.1 out)))
      (sym same)
      ((label_classes-Stays ps cs next).still_right (record_of p k c) k
        (rw (label_class-Stays ps c 0 n out).same_length inside)
        (label_class-TellsAt ps p c 0 n k out there (omega arith) (omega (arith, low)) inside))
label_classes-TellsAt ps p (d ∷ cs) c n k out there (suc i, e) low inside =
    label_classes-TellsAt ps p cs c n k (label_class ps d.0 0 d.1 out) there (i, e) low
      (rw (label_class-Stays ps d.0 0 d.1 out).same_length inside)

pub Listed-classes_of :
    (m : List (ℕ × TlasInfo)) (at : ℕ) (t : TlasInfo) (c : ℕ × ℕ)
    → Listed (at, t) m
    → Listed c t.classes
    → Listed c (classes_of m)
unfolding classes_of
Listed-classes_of [] at t c (i, e) h = absurd cc
Listed-classes_of (x ∷ m) at t c (zero, e) h =
    let same : x ≡ (at, t) = cc in
    subst (λ y. Listed c (y.1.classes ++ classes_of m)) (sym same)
      (Listed-left c t.classes (classes_of m) h)
Listed-classes_of (x ∷ m) at t c (suc i, e) h =
    Listed-right c x.1.classes (classes_of m) (Listed-classes_of m at t c (i, e) h)

pub Listed-traced :
    (s : State) (bound : List ℕ) (any_bound : Bool) (m : List (ℕ × TlasInfo)) (x : ℕ × TlasInfo)
    → Listed x m
    → is_traced s bound any_bound x ≡ true
    → Listed x (traced s bound any_bound m)
unfolding traced
Listed-traced s bound any_bound [] x (i, e) h = absurd cc
Listed-traced s bound any_bound (y ∷ m) x (zero, e) h =
    let same : y ≡ x = cc in
    let here : is_traced s bound any_bound y ≡ true = rw same h in rw (here, traced) (zero, e)
Listed-traced s bound any_bound (y ∷ m) x (suc i, e) h =
    let (j, f) = Listed-traced s bound any_bound m x (i, e) h in
    elim (Bool-cases (is_traced s bound any_bound y)) [
      | inl u ↦ rw (u, traced) (suc j, f)
      | inr u ↦ rw (u, traced) (j, f)
    ]

-- The record that a hit reaches, as DXR has it, is its TraceRay call's offset, modulo 16, and its
-- geometry's index times the call's multiplier, modulo 16, and its instance's contribution. The label
-- of every such record is right for that hit: when it is a geometry index, it is the hit's. The hit is
-- on geometry `k` of a class of a structure that the dispatch may trace, through one of the pairs
-- (offset, multiplier) of its TraceRay calls, and on a record of the table.
pub geometry_labels-TellsAt :
    (s : State) (pairs : List (ℕ × ℕ)) (records : ℕ) (bound : List ℕ) (exact : Bool) (at : ℕ)
    (t : TlasInfo) (offset multiplier c n k : ℕ)
    → Listed (at, t) s.tlas
    → is_traced s bound (exact || any_read s bound) (at, t) ≡ true
    → Listed (offset, multiplier) pairs
    → Listed (c, n) t.classes
    → k < n
    → offset % 16 + multiplier % 16 * k + c < records
    → TellsAt
        (offset % 16 + multiplier % 16 * k + c)
        k
        (geometry_labels s pairs records bound exact).labels
unfolding geometry_labels record_of
geometry_labels-TellsAt s pairs records bound exact at t r m c n k here is_on there class low
      inside =
    let chosen = traced s bound (exact || any_read s bound) s.tlas in
    label_classes-TellsAt pairs (r, m) (classes_of chosen) c n k (copies records unlabelled) there
      (Listed-classes_of chosen at t (c, n) (Listed-traced s bound _ s.tlas (at, t) here is_on)
        class)
      low (rw (length-copies records unlabelled) inside)
