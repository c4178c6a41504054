-- ===== src/AsTracker/Answers.antt =====
-- proxy/as_tracker.cpp: `ParseLocked` gives every geometry of every instance the constants of the
-- record that its hits reach.
use dxr11_pascal.Base.{
  ℕ, zero, suc, ◌+◌, ◌%◌, ◌≤◌, ◌<◌, ◌≡◌, ◌≢◌, refl, sym, ◌∙◌, subst, inl, inr, false, List, [], ◌∷◌,
  some, arith, ◌==◌, if◌then◌else◌, length, length-copies, get_elem?, max, Bool-cases, Option-cases,
}
use dxr11_pascal.AsTracker.{word, TlasInfo, BlasInfo, Instance}
use dxr11_pascal.AsTracker.Parse.{
  Known, is_unknown, add_instance, add_instances, geometries_of, add_row, note_unknown, note_known,
  kind_reach, records_end, record_count_of, parse_start, parse,
}
use dxr11_pascal.AsTracker.Slots.{
  answer, Keeps, Keeps-refl, Keeps-trans, Keeps-same, fill_slots-Keeps, get_elem?-fill_slots,
}

add_instance-Keeps :
    (known : Known) (d : Instance) (t : TlasInfo) → Keeps t (add_instance known d t)
unfolding add_instance add_row note_unknown note_known
add_instance-Keeps known d t = elim (Bool-cases (d.structure == 0)) [
  | inl e ↦ rw (e, add_instance) (Keeps-same t _ refl refl refl (omega arith))
  | inr e ↦ elim (Option-cases (known d.structure)) [
    | inl f ↦ rw (e, add_instance, f) (Keeps-same t _ refl refl refl (omega arith))
    | inr (b, f) ↦
        rw (e, add_instance, f)
          (Keeps-trans t (note_known d.contribution b t) _
            (Keeps-same t _ refl refl refl (ground arith))
            (fill_slots-Keeps d.contribution (kind_reach b.kind) 0 (geometries_of (some b))
              (note_known d.contribution b t)))
  ]
]

add_instances-Keeps :
    (known : Known) (ds : List Instance) (t : TlasInfo) → Keeps t (add_instances known ds t)
unfolding add_instances
add_instances-Keeps known [] t = Keeps-refl t
add_instances-Keeps known (d ∷ ds) t =
    Keeps-trans t (add_instance known d t) _ (add_instance-Keeps known d t)
      (add_instances-Keeps known ds (add_instance known d t))

-- An active instance whose structure, with its kind, was seen built.
abbrev pub IsKnown : Known → Instance → Type 0
IsKnown known d = (b : BlasInfo) × (known d.structure ≡ some b) × (is_unknown b.kind ≡ false)

add_instance-unknown :
    (known : Known) (d : Instance) (t : TlasInfo)
    → (d.structure == 0) ≡ false
    → (add_instance known d t).unknown_blas ≡ 0
    → IsKnown known d
unfolding add_instance add_row note_unknown note_known
add_instance-unknown known d t on = elim (Option-cases (known d.structure)) [
  | inl f ↦ rw (on, add_instance, f) (λ e. absurd (omega (arith, e)))
  | inr (b, f) ↦
      rw (on, add_instance, f)
        (λ e.
          let later =
            (fill_slots-Keeps d.contribution (kind_reach b.kind) 0 (geometries_of (some b))
              (note_known d.contribution b t)).unknown_grows in
          (
            b,
            refl,
            elim (Bool-cases (is_unknown b.kind)) [
              | inr u ↦ u
              | inl u ↦ absurd (ground (arith, e, later, u))
            ],
          ))
]

add_instances-unknown :
    (known : Known) (ds : List Instance) (d : Instance) (t : TlasInfo) (i : ℕ)
    → get_elem? ds i ≡ some d
    → (d.structure == 0) ≡ false
    → (add_instances known ds t).unknown_blas ≡ 0
    → IsKnown known d
unfolding add_instances
add_instances-unknown known [] d t i e on quiet = absurd cc
add_instances-unknown known (c ∷ ds) d t zero e on quiet =
    let same : c ≡ d = cc in
    let later = (add_instances-Keeps known ds (add_instance known c t)).unknown_grows in
    let now : (add_instance known c t).unknown_blas ≡ 0 = omega (arith, later, quiet) in
    add_instance-unknown known d t on
      (subst (λ x. (add_instance known x t).unknown_blas ≡ 0) same now)
add_instances-unknown known (c ∷ ds) d t (suc i) e on quiet =
    add_instances-unknown known ds d (add_instance known c t) i e on quiet

-- A parse that counts no unknown structure has seen each active instance's structure.
pub parse-IsKnown :
    (known : Known) (ds : List Instance) (d : Instance) (i : ℕ)
    → get_elem? ds i ≡ some d
    → d.structure ≢ 0
    → (parse known ds).unknown_blas ≡ 0
    → IsKnown known d
unfolding parse
parse-IsKnown known ds d i e active quiet =
    add_instances-unknown known ds d (parse_start known ds) i e (ground (arith, active)) quiet

get_elem?-add_instance :
    (known : Known) (d : Instance) (b : BlasInfo) (k : ℕ) (t : TlasInfo)
    → (d.structure == 0) ≡ false
    → known d.structure ≡ some b
    → k < geometries_of (some b)
    → d.contribution + geometries_of (some b) ≤ t.record_count
    → t.record_count < word
    → length t.constants ≡ t.record_count
    → (add_instance known d t).constants_conflict ≡ false
    → get_elem? (add_instance known d t).constants (d.contribution + k)
      ≡ some (answer k d.contribution)
unfolding add_instance note_known
get_elem?-add_instance known d b k t active is_b low fit small len =
    rw (active, add_instance, is_b)
      (get_elem?-fill_slots d.contribution (kind_reach b.kind) 0 (geometries_of (some b)) k
        (note_known d.contribution b t) (omega arith) (omega (arith, low)) (omega (arith, fit))
        small len)

get_elem?-add_instances :
    (known : Known) (ds : List Instance) (d : Instance) (b : BlasInfo) (k : ℕ) (t : TlasInfo)
    (i : ℕ)
    → get_elem? ds i ≡ some d
    → (d.structure == 0) ≡ false
    → known d.structure ≡ some b
    → k < geometries_of (some b)
    → d.contribution + geometries_of (some b) ≤ t.record_count
    → t.record_count < word
    → length t.constants ≡ t.record_count
    → (add_instances known ds t).constants_conflict ≡ false
    → get_elem? (add_instances known ds t).constants (d.contribution + k)
      ≡ some (answer k d.contribution)
unfolding add_instances
get_elem?-add_instances known [] d b k t i e active is_b low fit small len quiet = absurd cc
get_elem?-add_instances known (c ∷ ds) d b k t zero e active is_b low fit small len quiet =
    let same : c ≡ d = cc in
    let first = get_elem?-add_instance known d b k t active is_b low fit small len in
    let u = add_instance known d t in
    let later = add_instances-Keeps known ds u in
    subst
      (λ x.
        (add_instances known ds (add_instance known x t)).constants_conflict ≡ false
        → get_elem? (add_instances known ds (add_instance known x t)).constants (d.contribution + k)
          ≡ some (answer k d.contribution))
      (sym same)
      (λ still.
        later.assigned_stay (d.contribution + k) (answer k d.contribution)
          (first (later.conflict_stays still)) refl)
      quiet
get_elem?-add_instances known (c ∷ ds) d b k t (suc i) e active is_b low fit small len quiet =
    let u = add_instance known c t in
    let kept = add_instance-Keeps known c t in
    get_elem?-add_instances known ds d b k u i e active is_b low (rw kept.same_count fit)
      (rw kept.same_count small) (kept.same_length ∙ len ∙ sym kept.same_count) quiet

-- The end of the records after one more instance.
abbrev end_after : Known → Instance → ℕ → ℕ
end_after known d n =
    if d.structure == 0
    then n
    else max n ((d.contribution + geometries_of (known d.structure)) % word)

le-records_end : (known : Known) (ds : List Instance) (n : ℕ) → n ≤ records_end known ds n
unfolding records_end
le-records_end known [] n = omega arith
le-records_end known (d ∷ ds) n =
    let later = le-records_end known ds (end_after known d n) in ground (arith, later)

-- The records of an active instance end before the end of the table.
records_end-holds :
    (known : Known) (ds : List Instance) (d : Instance) (i n : ℕ)
    → get_elem? ds i ≡ some d
    → (d.structure == 0) ≡ false
    → (d.contribution + geometries_of (known d.structure)) % word ≤ records_end known ds n
unfolding records_end
records_end-holds known [] d i n e active = absurd cc
records_end-holds known (c ∷ ds) d zero n e active =
    let same : c ≡ d = cc in
    let later = le-records_end known ds (end_after known d n) in
    let here : (d.contribution + geometries_of (known d.structure)) % word ≤ end_after known d n =
      ground arith in
    subst
      (λ x.
        (d.contribution + geometries_of (known d.structure)) % word
        ≤ records_end known ds (end_after known x n))
      (sym same) (omega (arith, here, later))
records_end-holds known (c ∷ ds) d (suc i) n e active = records_end-holds known ds d i _ e active

records_end-lt :
    (known : Known) (ds : List Instance) (n : ℕ) → n < word → records_end known ds n < word
unfolding records_end
records_end-lt known [] n h = h
records_end-lt known (d ∷ ds) n h = records_end-lt known ds (end_after known d n) (ground arith)

-- When no two instances disagree about a record, the record that the hits on geometry `gi` of an
-- instance reach, the instance's contribution plus `gi`, carries that geometry index and that
-- contribution. The instance is active, on a structure seen built, and its records do not wrap.
pub parse-answers :
    (known : Known) (ds : List Instance) (d : Instance) (b : BlasInfo) (place gi : ℕ)
    → get_elem? ds place ≡ some d
    → d.structure ≢ 0
    → known d.structure ≡ some b
    → gi < geometries_of (some b)
    → d.contribution + geometries_of (some b) < word
    → (parse known ds).constants_conflict ≡ false
    → get_elem? (parse known ds).constants (d.contribution + gi) ≡ some (answer gi d.contribution)
unfolding parse parse_start record_count_of
parse-answers known ds d b place gi e active is_b low fit quiet =
    let on : (d.structure == 0) ≡ false = ground arith in
    let holds : (d.contribution + geometries_of (some b)) % word ≤ records_end known ds 0 =
      subst (λ o. (d.contribution + geometries_of o) % word ≤ records_end known ds 0) is_b
        (records_end-holds known ds d place 0 e on) in
    let below = records_end-lt known ds 0 (omega arith) in
    let room : d.contribution + geometries_of (some b) ≤ record_count_of known ds =
      ground (arith, holds, low, fit) in
    let small : record_count_of known ds < word = ground (arith, below) in
    get_elem?-add_instances known ds d b gi (parse_start known ds) place e on is_b low room small
      (length-copies _ _) quiet
