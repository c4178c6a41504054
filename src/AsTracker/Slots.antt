-- ===== src/AsTracker/Slots.antt =====
-- proxy/as_tracker.cpp: what the steps of `ParseLocked` keep of the records, and what the loop over
-- an instance's geometries leaves on them.
use dxr11_pascal.Base.{
  ℕ, zero, suc, ◌+◌, ◌%◌, ◌≤◌, ◌<◌, ◌≡◌, ◌≢◌, refl, sym, ap, ◌∙◌, subst, inl, inr, true, false,
  some, arith, leb, ◌==◌, length, get_elem?, length-put_at, get_elem?-put_at, get_elem?-put_at_ne,
  get_elem?-lt, Bool-cases, Option-cases,
}
use dxr11_pascal.AsTracker.{word, Reach, RecordConstants, TlasInfo}
use dxr11_pascal.AsTracker.Parse.{set_constants, add_reach, fill_slots, same_constants}

-- The constants of geometry `gi` of an instance of contribution `ic`.
abbrev pub answer : ℕ → ℕ → RecordConstants
answer gi ic = record { geometry_index = gi; instance_contribution = ic; assigned = true }

-- What a step keeps: the number of records, what is assigned, a conflict, and the instances on unknown
-- structures.
pub record Keeps (t t' : TlasInfo) : Type 0 where
  pub same_count : t'.record_count ≡ t.record_count
  pub same_length : length t'.constants ≡ length t.constants
  pub assigned_stay :
      (i : ℕ) (rc : RecordConstants)
      → get_elem? t.constants i ≡ some rc
      → rc.assigned ≡ true
      → get_elem? t'.constants i ≡ some rc
  pub conflict_stays : t'.constants_conflict ≡ false → t.constants_conflict ≡ false
  pub unknown_grows : t.unknown_blas ≤ t'.unknown_blas

pub Keeps-refl : (t : TlasInfo) → Keeps t t
Keeps-refl t = record {
  same_count = refl;
  same_length = refl;
  assigned_stay = λ i rc e a. e;
  conflict_stays = λ e. e;
  unknown_grows = omega arith;
}

pub Keeps-trans : (t u v : TlasInfo) → Keeps t u → Keeps u v → Keeps t v
Keeps-trans t u v p q = record {
  same_count = q.same_count ∙ p.same_count;
  same_length = q.same_length ∙ p.same_length;
  assigned_stay = λ i rc e a. q.assigned_stay i rc (p.assigned_stay i rc e a) a;
  conflict_stays = λ e. p.conflict_stays (q.conflict_stays e);
  unknown_grows = omega (arith, p.unknown_grows, q.unknown_grows);
}

-- A step on other fields.
pub Keeps-same :
    (t t' : TlasInfo)
    → t'.record_count ≡ t.record_count
    → t'.constants ≡ t.constants
    → t'.constants_conflict ≡ t.constants_conflict
    → t.unknown_blas ≤ t'.unknown_blas
    → Keeps t t'
Keeps-same t t' n c k u = record {
  same_count = n;
  same_length = ap length c;
  assigned_stay = λ i rc e a. ap (λ cs. get_elem? cs i) c ∙ e;
  conflict_stays = λ e. sym k ∙ e;
  unknown_grows = u;
}

set_constants-Keeps : (slot gi ic : ℕ) (t : TlasInfo) → Keeps t (set_constants slot gi ic t)
unfolding set_constants
set_constants-Keeps slot gi ic t = elim (Option-cases (get_elem? t.constants slot)) [
  | inl e ↦ rw (e, set_constants) (Keeps-refl t)
  | inr (rc, e) ↦ elim (Bool-cases rc.assigned) [
    | inl a ↦ elim (Bool-cases (same_constants rc gi ic)) [
      | inl s ↦ rw (e, set_constants, s, a) (Keeps-refl t)
      | inr s ↦
          rw (e, set_constants, s, a)
            (record {
              same_count = refl;
              same_length = refl;
              assigned_stay = λ i c f b. f;
              conflict_stays = λ f. cc;
              unknown_grows = omega arith;
            })
    ]
    | inr a ↦
        rw (e, set_constants, a)
          (record {
            same_count = refl;
            same_length = length-put_at slot (answer gi ic) t.constants;
            assigned_stay = λ i c f b.
                let apart : slot ≢ i = λ u. cc in
                get_elem?-put_at_ne slot i (answer gi ic) t.constants apart ∙ f;
            conflict_stays = λ f. f;
            unknown_grows = omega arith;
          })
  ]
]

same-answer :
    (rc : RecordConstants) (gi ic : ℕ)
    → rc.assigned ≡ true
    → same_constants rc gi ic ≡ true
    → rc ≡ answer gi ic
unfolding same_constants
same-answer rc gi ic a s =
    let g : rc.geometry_index ≡ gi = ground arith in
    let i : rc.instance_contribution ≡ ic = ground arith in cc

get_elem?-set_constants :
    (slot gi ic : ℕ) (t : TlasInfo)
    → slot < length t.constants
    → (set_constants slot gi ic t).constants_conflict ≡ false
    → get_elem? (set_constants slot gi ic t).constants slot ≡ some (answer gi ic)
unfolding set_constants
get_elem?-set_constants slot gi ic t h = elim (Option-cases (get_elem? t.constants slot)) [
  | inl e ↦ let (x, f) = get_elem?-lt slot t.constants h in absurd cc
  | inr (rc, e) ↦ elim (Bool-cases rc.assigned) [
    | inl a ↦ elim (Bool-cases (same_constants rc gi ic)) [
      | inl s ↦ rw (e, set_constants, s, a) (λ k. e ∙ ap some (same-answer rc gi ic a s))
      | inr s ↦ rw (e, set_constants, s, a) (λ k. absurd cc)
    ]
    | inr a ↦ rw (e, set_constants, a) (λ k. get_elem?-put_at slot (answer gi ic) t.constants h)
  ]
]

add_reach-Keeps : (slot : ℕ) (bits : Reach) (t : TlasInfo) → Keeps t (add_reach slot bits t)
unfolding add_reach
add_reach-Keeps slot bits t = elim (Option-cases (get_elem? t.reach slot)) [
  | inl e ↦ rw (e, add_reach) (Keeps-refl t)
  | inr (r, e) ↦ rw (e, add_reach) (Keeps-same t _ refl refl refl (omega arith))
]

-- One round of the loop.
abbrev fill_slot : ℕ → Reach → ℕ → TlasInfo → TlasInfo
fill_slot ic bits gi t =
    set_constants ((ic + gi) % word) gi ic (add_reach ((ic + gi) % word) bits t)

fill_slot-Keeps : (ic : ℕ) (bits : Reach) (gi : ℕ) (t : TlasInfo) → Keeps t (fill_slot ic bits gi t)
fill_slot-Keeps ic bits gi t =
    let slot = (ic + gi) % word in
    Keeps-trans t (add_reach slot bits t) _ (add_reach-Keeps slot bits t)
      (set_constants-Keeps slot gi ic (add_reach slot bits t))

get_elem?-fill_slot :
    (ic : ℕ) (bits : Reach) (gi : ℕ) (t : TlasInfo)
    → (ic + gi) % word < length t.constants
    → (fill_slot ic bits gi t).constants_conflict ≡ false
    → get_elem? (fill_slot ic bits gi t).constants ((ic + gi) % word) ≡ some (answer gi ic)
get_elem?-fill_slot ic bits gi t h =
    let slot = (ic + gi) % word in
    let u = add_reach slot bits t in
    get_elem?-set_constants slot gi ic u (rw (add_reach-Keeps slot bits t).same_length h)

pub fill_slots-Keeps :
    (ic : ℕ) (bits : Reach) (gi left : ℕ) (t : TlasInfo) → Keeps t (fill_slots ic bits gi left t)
unfolding fill_slots
fill_slots-Keeps ic bits gi zero t = Keeps-refl t
fill_slots-Keeps ic bits gi (suc left) t =
    elim (Bool-cases (leb t.record_count ((ic + gi) % word))) [
      | inl e ↦ rw (e, fill_slots) (Keeps-refl t)
      | inr e ↦
          rw (e, fill_slots)
            (Keeps-trans t (fill_slot ic bits gi t) _ (fill_slot-Keeps ic bits gi t)
              (fill_slots-Keeps ic bits (gi + 1) left (fill_slot ic bits gi t)))
    ]

-- Without a conflict, the loop leaves each geometry's constants on its record.
pub get_elem?-fill_slots :
    (ic : ℕ) (bits : Reach) (gi left k : ℕ) (t : TlasInfo)
    → gi ≤ k
    → k < gi + left
    → ic + (gi + left) ≤ t.record_count
    → t.record_count < word
    → length t.constants ≡ t.record_count
    → (fill_slots ic bits gi left t).constants_conflict ≡ false
    → get_elem? (fill_slots ic bits gi left t).constants (ic + k) ≡ some (answer k ic)
unfolding fill_slots
get_elem?-fill_slots ic bits gi zero k t low high fit small len = absurd (omega arith)
get_elem?-fill_slots ic bits gi (suc left) k t low high fit small len =
    let here : (ic + gi) % word ≡ ic + gi = omega arith in
    let inside : leb t.record_count ((ic + gi) % word) ≡ false = ground arith in
    let u = fill_slot ic bits gi t in
    let kept = fill_slot-Keeps ic bits gi t in
    let later = fill_slots-Keeps ic bits (gi + 1) left u in
    rw (inside, fill_slots)
      (λ quiet. elim (Bool-cases (gi == k)) [
        | inl e ↦
            let same : gi ≡ k = ground arith in
            let end = fill_slots ic bits (gi + 1) left u in
            let written =
              get_elem?-fill_slot ic bits gi t (omega (arith, here)) (later.conflict_stays quiet) in
            let stays = later.assigned_stay ((ic + gi) % word) (answer gi ic) written refl in
            subst (λ g. get_elem? end.constants (ic + g) ≡ some (answer g ic)) same
              (subst (λ i. get_elem? end.constants i ≡ some (answer gi ic)) here stays)
        | inr e ↦
            get_elem?-fill_slots ic bits (gi + 1) left k u (ground arith) (omega arith)
              (rw kept.same_count (omega arith)) (rw kept.same_count small)
              (kept.same_length ∙ len ∙ sym kept.same_count) quiet
      ])
