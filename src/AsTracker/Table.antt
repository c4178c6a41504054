-- ===== src/AsTracker/Table.antt =====
-- proxy/as_tracker.cpp: when `TableWouldBeWrong` lets a dispatch pass, `RecordConstantsTable` is
-- right for every structure that counts.
use dxr11_pascal.Base.{
  ℕ, zero, suc, ◌+◌, ◌<◌, ◌≡◌, ◌≢◌, refl, sym, ◌∙◌, subst, inl, inr, Bool, true, false, ◌||◌, not,
  List, [], ◌∷◌, Option, none, some, arith, ◌==◌, get_elem?, Bool-cases, Option-cases,
}
use dxr11_pascal.AsTracker.{RecordConstants, TlasInfo, State, Instance, word}
use dxr11_pascal.AsTracker.Parse.{Known, geometries_of, parse}
use dxr11_pascal.AsTracker.Builds.{counts}
use dxr11_pascal.AsTracker.Slots.{answer}
use dxr11_pascal.AsTracker.Answers.{IsKnown, parse-answers, parse-IsKnown}
use dxr11_pascal.AsTracker.Records.{
  merged, merge, layout_refusal, table_would_be_wrong, put_constants, constants_table,
  record_constants_table,
}
use dxr11_pascal.AsTracker.Merging.{
  put_constants-stay, merge-put_constants, merge-holds, Merged-cases,
}

constants_table-stay :
    (s : State) (only : Option (List ℕ)) (m : List (ℕ × TlasInfo)) (ms : List RecordConstants)
    (k : ℕ) (rc : RecordConstants)
    → get_elem? ms k ≡ some rc
    → rc.assigned ≡ true
    → get_elem? (constants_table s only m ms) k ≡ some rc
unfolding constants_table
constants_table-stay s only [] ms k rc e a = e
constants_table-stay s only ((at, t) ∷ m) ms k rc e a =
    elim (Bool-cases (not t.valid || not (counts s only at))) [
      | inl u ↦ rw (u, constants_table) (constants_table-stay s only m ms k rc e a)
      | inr u ↦
          rw (u, constants_table)
            (constants_table-stay s only m (put_constants ms t.constants) k rc
              (put_constants-stay ms t.constants k rc e a) a)
    ]

-- A structure that counts.
pub record Counted (s : State) (only : Option (List ℕ)) (at : ℕ) (t : TlasInfo) : Type 0 where
  pub is_valid : t.valid ≡ true
  pub is_counted : counts s only at ≡ true

Counted-kept :
    (s : State) (only : Option (List ℕ)) (at : ℕ) (t : TlasInfo)
    → Counted s only at t
    → (not t.valid || not (counts s only at)) ≡ false
Counted-kept s only at t c = rw (c.is_valid, c.is_counted) refl

-- What the first loop has checked of a structure that counts, and of the table.
pub record Checked (table : List RecordConstants) (t : TlasInfo) : Type 0 where
  pub all_known : t.unknown_blas ≡ 0
  pub no_conflict : t.constants_conflict ≡ false
  pub in_table :
      (k : ℕ) (rc : RecordConstants)
      → get_elem? t.constants k ≡ some rc
      → rc.assigned ≡ true
      → get_elem? table k ≡ some rc

-- What a structure that counts must be for the first loop to go on.
layout_refusal-step :
    (s : State) (only : Option (List ℕ)) (m : List (ℕ × TlasInfo)) (ms : List RecordConstants)
    (at : ℕ) (t : TlasInfo)
    → (not t.valid || not (counts s only at)) ≡ false
    → layout_refusal s only ((at, t) ∷ m) ms ≡ none
    → (t.unknown_blas ≡ 0)
      × (t.constants_conflict ≡ false)
      × (out : List RecordConstants) × (merge 0 ms t.constants ≡ merged out)
      × (layout_refusal s only m out ≡ none)
unfolding layout_refusal
layout_refusal-step s only m ms at t kept = elim (Bool-cases (t.unknown_blas == 0)) [
  | inr u ↦ rw (kept, u, layout_refusal) (λ q. absurd cc)
  | inl u ↦ elim (Bool-cases t.constants_conflict) [
    | inl c ↦ rw (kept, u, c, layout_refusal) (λ q. absurd cc)
    | inr c ↦ elim (Merged-cases (merge 0 ms t.constants)) [
      | inl (i, f) ↦ rw (kept, u, c, f, layout_refusal) (λ q. absurd cc)
      | inr (out, f) ↦ rw (kept, u, c, f, layout_refusal) (λ q. (ground arith, refl, out, refl, q))
    ]
  ]
]

constants_table-skip :
    (s : State) (only : Option (List ℕ)) (m : List (ℕ × TlasInfo)) (ms : List RecordConstants)
    (e : ℕ × TlasInfo)
    → (not e.1.valid || not (counts s only e.0)) ≡ true
    → constants_table s only (e ∷ m) ms ≡ constants_table s only m ms
unfolding constants_table
constants_table-skip s only m ms (at, t) u = rw (u, constants_table) refl

constants_table-keep :
    (s : State) (only : Option (List ℕ)) (m : List (ℕ × TlasInfo)) (ms : List RecordConstants)
    (e : ℕ × TlasInfo)
    → (not e.1.valid || not (counts s only e.0)) ≡ false
    → constants_table s only (e ∷ m) ms ≡ constants_table s only m (put_constants ms e.1.constants)
unfolding constants_table
constants_table-keep s only m ms (at, t) u = rw (u, constants_table) refl

layout_refusal-skip :
    (s : State) (only : Option (List ℕ)) (m : List (ℕ × TlasInfo)) (ms : List RecordConstants)
    (e : ℕ × TlasInfo)
    → (not e.1.valid || not (counts s only e.0)) ≡ true
    → layout_refusal s only (e ∷ m) ms ≡ layout_refusal s only m ms
unfolding layout_refusal
layout_refusal-skip s only m ms (at, t) u = rw (u, layout_refusal) refl

-- The structure at the head of those that are left.
layout_refusal-head :
    (s : State) (only : Option (List ℕ)) (m : List (ℕ × TlasInfo)) (ms : List RecordConstants)
    (at : ℕ) (t : TlasInfo)
    → (not t.valid || not (counts s only at)) ≡ false
    → layout_refusal s only ((at, t) ∷ m) ms ≡ none
    → Checked (constants_table s only ((at, t) ∷ m) ms) t
layout_refusal-head s only m ms at t kept quiet =
    let (all, fine, out, f, later) = layout_refusal-step s only m ms at t kept quiet in
    rw (constants_table-keep s only m ms (at, t) kept) (record {
      all_known = all;
      no_conflict = fine;
      in_table = λ k rc g a.
          constants_table-stay s only m (put_constants ms t.constants) k rc
            (merge-holds 0 ms t.constants out k rc f g a) a;
    })

layout_refusal-Checked :
    (s : State) (only : Option (List ℕ)) (m : List (ℕ × TlasInfo)) (ms : List RecordConstants)
    (place at : ℕ) (t : TlasInfo)
    → get_elem? m place ≡ some (at, t)
    → Counted s only at t
    → layout_refusal s only m ms ≡ none
    → Checked (constants_table s only m ms) t
layout_refusal-Checked s only [] ms place at t e c quiet = absurd cc
layout_refusal-Checked s only (x ∷ m) ms zero at t e c quiet =
    let same : x ≡ (at, t) = cc in
    let kept = Counted-kept s only at t c in
    subst
      (λ y. layout_refusal s only (y ∷ m) ms ≡ none → Checked (constants_table s only (y ∷ m) ms) t)
      (sym same) (layout_refusal-head s only m ms at t kept) quiet
layout_refusal-Checked s only ((b, u) ∷ m) ms (suc place) at t e c quiet =
    elim (Bool-cases (not u.valid || not (counts s only b))) [
      | inl skip ↦ rw (constants_table-skip s only m ms (b, u) skip) (
          layout_refusal-Checked s only m ms place at t e c
            (sym (layout_refusal-skip s only m ms (b, u) skip) ∙ quiet))
      | inr kept ↦
          let (all, fine, out, f, later) = layout_refusal-step s only m ms b u kept quiet in
          let same : out ≡ put_constants ms u.constants =
            merge-put_constants 0 ms u.constants out f in
          rw (constants_table-keep s only m ms (b, u) kept) (
            subst (λ o. Checked (constants_table s only m o) t) same
              (layout_refusal-Checked s only m out place at t e c later))
    ]

layout_passes :
    (s : State) (commits : Bool) (only : Option (List ℕ))
    → table_would_be_wrong s commits only ≡ none
    → layout_refusal s only s.tlas [] ≡ none
unfolding table_would_be_wrong
layout_passes s commits only = elim (Option-cases (layout_refusal s only s.tlas [])) [
  | inl e ↦ λ q. e
  | inr (r, e) ↦ rw (e, table_would_be_wrong) (λ q. absurd cc)
]

layout_passes-Checked :
    (s : State) (commits : Bool) (only : Option (List ℕ)) (place at : ℕ) (t : TlasInfo)
    → get_elem? s.tlas place ≡ some (at, t)
    → Counted s only at t
    → table_would_be_wrong s commits only ≡ none
    → Checked (record_constants_table s only) t
unfolding record_constants_table
layout_passes-Checked s commits only place at t e c quiet =
    layout_refusal-Checked s only s.tlas [] place at t e c (layout_passes s commits only quiet)

-- When a dispatch on read instances is not refused, each active instance of each structure that counts
-- is on a structure whose build, with the kind of its geometry, was seen, and for each geometry of it
-- the record that its hits reach, the instance's contribution plus the geometry's index, carries that
-- index and that contribution. The structure stands as it was parsed from its instances, and the
-- instance's records do not wrap.
pub table-answers :
    (s : State) (commits : Bool) (only : Option (List ℕ)) (known : Known) (ds : List Instance)
    (at place : ℕ) (d : Instance) (i : ℕ)
    → get_elem? s.tlas place ≡ some (at, parse known ds)
    → Counted s only at (parse known ds)
    → table_would_be_wrong s commits only ≡ none
    → get_elem? ds i ≡ some d
    → d.structure ≢ 0
    → d.contribution + geometries_of (known d.structure) < word
    → IsKnown known d
      × ((gi : ℕ)
          → gi < geometries_of (known d.structure)
          → get_elem? (record_constants_table s only) (d.contribution + gi)
            ≡ some (answer gi d.contribution))
table-answers s commits only known ds at place d i e c quiet there active fit =
    let checked = layout_passes-Checked s commits only place at (parse known ds) e c quiet in
    let seen = parse-IsKnown known ds d i there active checked.all_known in
    let (b, is_b, kind) = seen in
    (
      seen,
      λ gi low.
          let mine =
            parse-answers known ds d b i gi there active is_b
              (subst (λ o. gi < geometries_of o) is_b low)
              (subst (λ o. d.contribution + geometries_of o < word) is_b fit) checked.no_conflict in
          checked.in_table (d.contribution + gi) (answer gi d.contribution) mine refl,
    )
