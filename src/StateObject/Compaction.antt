-- ===== src/StateObject/Compaction.antt =====
-- proxy/state_object_cache.cpp: the final array that `Desc` builds, and where it points the
-- associations.
use dxr11_pascal.Base.{
  ℕ, zero, suc, ◌≡◌, refl, sym, ap, subst, ◌∙◌, inl, inr, List, [], ◌∷◌, Option, none, some, arith,
  get_elem?, Option-cases, All, All-map,
}
use dxr11_pascal.StateObject.{
  kind_code, Kind, Desc, config, association, opaque, Subobject, Store, Final, in_final, target_of,
  compact, target_index, apply_fixup, apply_fixups, desc_of,
}
use dxr11_pascal.StateObject.Shape.{
  Bare, bare_all, kept, bare_all-compact, bare_all-set_target, bare_all-get, sub_zero,
  first_of_kind_lem, found_target, set_target-get, compact_map, set_target-here, set_target-still,
  compact_at, compact_kept, first_of_kind_found, get-bare_all,
}

-- A subobject of the working array, and one of the final array (with its kind and description).
abbrev pub IsFor : List Subobject → ℕ → ℕ → Type 0
IsFor subs j t =
    (x : Subobject) × (b : Bare) × (get_elem? subs j ≡ some x)
    × (get_elem? (kept subs) t ≡ some b)
    × (kind_code b.0 ≡ kind_code x.kind)

target_index_lem :
    (subs : List Subobject) (fs : List Final) (j t : ℕ)
    → bare_all fs ≡ kept subs
    → target_index subs (compact 0 subs).1 fs j ≡ some t
    → IsFor subs j t
unfolding target_index
target_index_lem subs fs j t h = elim (Option-cases (get_elem? (compact 0 subs).1 j)) [
  | inl u ↦ rw (u, target_index) λ e. ground arith
  | inr (none, u) ↦
      rw (u, target_index)
        (elim (Option-cases (get_elem? subs j)) [
          | inl v ↦ rw v λ e. ground arith
          | inr (x, v) ↦ rw v λ e.
              let (g, _, at, same) = first_of_kind_lem x.kind 0 fs t e in
              let there = ap (λ n. get_elem? fs n) (sym (sub_zero t)) ∙ at in
              (
                x,
                (g.kind, g.desc),
                refl,
                ap (λ l. get_elem? l t) (sym h) ∙ bare_all-get t fs g there,
                same,
              )
        ])
  | inr (some a, u) ↦
      rw (u, target_index)
        λ e.
          let (x, d, at, _, has, final) = compact_map 0 subs j a u in
          let same : a ≡ t = ground arith in
          (
            x,
            (x.kind, d),
            at,
            ap (get_elem? (kept subs)) (sym same ∙ sym (sub_zero a)) ∙ final,
            refl,
          )
]

-- A fixup with the final index of its association, where `Desc` moves it, and that of its target.
abbrev pub IsApplied : Store → ℕ → ℕ → ℕ × ℕ → Type 0
IsApplied s a t (i, j) =
    (get_elem? (compact 0 s.subs).1 i ≡ some (some a)) × IsFor s.subs i a × IsFor s.subs j t

-- Every target in a final array comes of a fixup that `P` holds of.
abbrev pub Comes : Store → (ℕ × ℕ → Type 0) → List Final → Type 0
Comes s P fs =
    (a t : ℕ) (f : Final)
    → get_elem? fs a ≡ some f
    → f.target ≡ in_final t
    → (p : ℕ × ℕ) × P p × IsApplied s a t p

apply_fixup-Comes :
    (s : Store) (P : ℕ × ℕ → Type 0) (p : ℕ × ℕ) (fs : List Final)
    → P p
    → bare_all fs ≡ kept s.subs
    → Comes s P fs
    → (bare_all (apply_fixup s.subs (compact 0 s.subs).1 fs p) ≡ kept s.subs)
      × Comes s P (apply_fixup s.subs (compact 0 s.subs).1 fs p)
unfolding apply_fixup
apply_fixup-Comes s P (i, j) fs has h old = elim (Option-cases (get_elem? (compact 0 s.subs).1 i)) [
  | inl u ↦ rw (u, apply_fixup) (h, old)
  | inr (none, u) ↦ rw (u, apply_fixup) (h, old)
  | inr (some a, u) ↦
      rw (u, apply_fixup)
        (elim (Option-cases (target_index s.subs (compact 0 s.subs).1 fs j)) [
          | inl v ↦ rw v (h, old)
          | inr (t, v) ↦ rw v (
            bare_all-set_target a t fs ∙ h,
            λ b t' f at to. elim (set_target-get a t b fs f at) [
              | inl same ↦ old b t' f same to
              | inr (here, new) ↦
                  let same : t ≡ t' = ground arith in
                  let (x, d, found, _, _, final) = compact_map 0 s.subs i a u in
                  let final' = ap (get_elem? (kept s.subs)) (here ∙ sym (sub_zero a)) ∙ final in
                  (
                    (i, j),
                    has,
                    (
                      u ∙ ap (λ c. some (some c)) (sym here),
                      (x, (x.kind, d), found, final', refl),
                      subst (IsFor s.subs j) same (target_index_lem s.subs fs j t h v),
                    ),
                  )
            ],
          )
        ])
]

apply_fixups-Comes :
    (s : Store) (P : ℕ × ℕ → Type 0) (ps : List (ℕ × ℕ)) (fs : List Final)
    → All P ps
    → bare_all fs ≡ kept s.subs
    → Comes s P fs
    → (bare_all (apply_fixups s.subs (compact 0 s.subs).1 fs ps) ≡ kept s.subs)
      × Comes s P (apply_fixups s.subs (compact 0 s.subs).1 fs ps)
unfolding apply_fixups
apply_fixups-Comes s P [] fs has h old = (h, old)
apply_fixups-Comes s P (p ∷ ps) fs has h old =
    let (h', old') = apply_fixup-Comes s P p fs has.0 h old in
    apply_fixups-Comes s P ps (apply_fixup s.subs (compact 0 s.subs).1 fs p) has.1 h' old'

-- A fixup of the store.
abbrev pub IsFixup : Store → ℕ × ℕ → Type 0
IsFixup s p = (n : ℕ) × (get_elem? s.fixups n ≡ some p)

All-get {ℓ} : {A : Type ℓ} (xs : List A) → All (λ x. (n : ℕ) × (get_elem? xs n ≡ some x)) xs
All-get [] = tt
All-get (x ∷ xs) = (
  (0, refl),
  All-map (λ y. (n : ℕ) × (get_elem? xs n ≡ some y))
      (λ y. (n : ℕ) × (get_elem? (x ∷ xs) n ≡ some y)) (λ y (n, e). (suc n, e)) xs (All-get xs),
)

target_of-in_final : (d : Desc) (t : ℕ) → target_of d ≡ in_final t → ⊥
unfolding target_of
target_of-in_final (config f) t e = absurd cc
target_of-in_final (association none x) t e = absurd cc
target_of-in_final (association (some i) x) t e = absurd cc
target_of-in_final (opaque n) t e = absurd cc

compact-no_target :
    (n : ℕ) (xs : List Subobject) (a t : ℕ) (f : Final)
    → get_elem? (compact n xs).0 a ≡ some f
    → f.target ≡ in_final t
    → ⊥
unfolding compact found_target
compact-no_target n [] a t f e h = ground arith
compact-no_target n (x ∷ xs) zero t f e h = elim (Option-cases x.desc) [
  | inl u ↦ compact-no_target n xs zero t f (ground arith) h
  | inr (d, u) ↦
      let first : Final = record { kind = x.kind; desc = d; target = target_of d } in
      let same : some first ≡ some f = ground arith in
      target_of-in_final d t (ap found_target same ∙ h)
]
compact-no_target n (x ∷ xs) (suc a) t f e h = elim (Option-cases x.desc) [
  | inl u ↦ compact-no_target n xs (suc a) t f (ground arith) h
  | inr (d, u) ↦ compact-no_target (suc n) xs a t f (ground arith) h
]

desc_of_lem : (s : Store) → (bare_all (desc_of s) ≡ kept s.subs) × Comes s (IsFixup s) (desc_of s)
unfolding desc_of
desc_of_lem s =
    apply_fixups-Comes s (IsFixup s) s.fixups (compact 0 s.subs).0 (All-get s.fixups)
      (bare_all-compact 0 s.subs) (λ a t f e h. elim (compact-no_target 0 s.subs a t f e h) [ ])

-- The array that `Desc` builds holds the subobjects of the working array that are no
-- placeholders, in their order, each with its type and its description.
pub desc_of-kept : (s : Store) → bare_all (desc_of s) ≡ kept s.subs
desc_of-kept s = (desc_of_lem s).0

-- At an index, an association that points into the final array.
abbrev IsSettled : List Final → ℕ → Type 0
IsSettled fs a = (t : ℕ) × (f : Final) × (get_elem? fs a ≡ some f) × (f.target ≡ in_final t)

apply_fixup-IsSettled :
    (subs : List Subobject) (m : List (Option ℕ)) (fs : List Final) (p : ℕ × ℕ) (a : ℕ)
    → IsSettled fs a
    → IsSettled (apply_fixup subs m fs p) a
unfolding apply_fixup
apply_fixup-IsSettled subs m fs (i, j) a h = elim (Option-cases (get_elem? m i)) [
  | inl u ↦ rw (u, apply_fixup) h
  | inr (none, u) ↦ rw (u, apply_fixup) h
  | inr (some b, u) ↦ elim (Option-cases (target_index subs m fs j)) [
    | inl v ↦ rw (u, apply_fixup) (rw v h)
    | inr (t, v) ↦
        rw (u, apply_fixup) (rw v (let (w, f, at, to) = h in set_target-still b t a w fs f at to))
  ]
]

apply_fixups-IsSettled :
    (subs : List Subobject) (m : List (Option ℕ)) (ps : List (ℕ × ℕ)) (fs : List Final) (a : ℕ)
    → IsSettled fs a
    → IsSettled (apply_fixups subs m fs ps) a
unfolding apply_fixups
apply_fixups-IsSettled subs m [] fs a h = h
apply_fixups-IsSettled subs m (p ∷ ps) fs a h =
    apply_fixups-IsSettled subs m ps (apply_fixup subs m fs p) a
      (apply_fixup-IsSettled subs m fs p a h)

-- A subobject of a type stands in the final array.
abbrev pub HasKind : List Subobject → Kind → Type 0
HasKind subs k =
    (n : ℕ) × (b : Bare) × (get_elem? (kept subs) n ≡ some b) × (kind_code b.0 ≡ kind_code k)

target_index-found :
    (subs : List Subobject) (fs : List Final) (j : ℕ) (y : Subobject)
    → get_elem? subs j ≡ some y
    → HasKind subs y.kind
    → bare_all fs ≡ kept subs
    → (t : ℕ) × (target_index subs (compact 0 subs).1 fs j ≡ some t)
unfolding target_index
target_index-found subs fs j y e (n, b, at, same) h = elim (compact_at 0 subs j y e) [
  | inr (t, u) ↦ (t, rw (u, target_index) refl)
  | inl u ↦
      let (g, there, is) = get-bare_all n fs b (ap (λ l. get_elem? l n) h ∙ at) in
      let kind : kind_code g.kind ≡ kind_code y.kind = ap (λ c. kind_code c.0) is ∙ same in
      let (t, found) = first_of_kind_found y.kind 0 fs n g there kind in
      (t, rw (u, e, target_index) found)
]

bare_all-apply_fixup :
    (subs : List Subobject) (fs : List Final) (p : ℕ × ℕ)
    → bare_all (apply_fixup subs (compact 0 subs).1 fs p) ≡ bare_all fs
unfolding apply_fixup
bare_all-apply_fixup subs fs (i, j) = elim (Option-cases (get_elem? (compact 0 subs).1 i)) [
  | inl u ↦ rw (u, apply_fixup) refl
  | inr (none, u) ↦ rw (u, apply_fixup) refl
  | inr (some a, u) ↦ elim (Option-cases (target_index subs (compact 0 subs).1 fs j)) [
    | inl v ↦ rw (u, apply_fixup) (rw v refl)
    | inr (t, v) ↦ rw (u, apply_fixup) (rw v (bare_all-set_target a t fs))
  ]
]

-- The fixup of a subobject that is kept settles it, if its target's type is still there.
apply_fixups-settles :
    (subs : List Subobject) (ps : List (ℕ × ℕ)) (fs : List Final) (n i j a : ℕ) (y : Subobject)
    → get_elem? ps n ≡ some (i, j)
    → get_elem? (compact 0 subs).1 i ≡ some (some a)
    → get_elem? subs j ≡ some y
    → HasKind subs y.kind
    → bare_all fs ≡ kept subs
    → IsSettled (apply_fixups subs (compact 0 subs).1 fs ps) a
unfolding apply_fixups apply_fixup
apply_fixups-settles subs [] fs n i j a y e u f has h = absurd cc
apply_fixups-settles subs (p ∷ ps) fs zero i j a y e u f has h =
    let m = (compact 0 subs).1 in
    let same : p ≡ (i, j) = cc in
    let (t, v) = target_index-found subs fs j y f has h in
    let (x, d, _, _, _, final) = compact_map 0 subs i a u in
    let (g, at, _) =
      get-bare_all a fs (x.kind, d)
        (ap (λ l. get_elem? l a) h ∙ ap (get_elem? (kept subs)) (sym (sub_zero a)) ∙ final) in
    let done : IsSettled (apply_fixup subs m fs (i, j)) a =
      rw (u, apply_fixup)
        (rw v (let (z, there, to) = set_target-here a t fs g at in (t, z, there, to))) in
    apply_fixups-IsSettled subs m ps (apply_fixup subs m fs p) a
      (subst (λ q. IsSettled (apply_fixup subs m fs q) a) (sym same) done)
apply_fixups-settles subs (p ∷ ps) fs (suc n) i j a y e u f has h =
    apply_fixups-settles subs ps (apply_fixup subs (compact 0 subs).1 fs p) n i j a y e u f has
      (bare_all-apply_fixup subs fs p ∙ h)

-- An association that is no placeholder and that a fixup of the store names points, in the array
-- that `Desc` builds, at an index of that array, if a subobject of the type of the fixup's target
-- is left there. That comes of a fixup of the store whose association is moved to the same place, and
-- what it points at has the type of that fixup's target.
pub desc_of-targets :
    (s : Store) (n i j : ℕ) (x y : Subobject) (d : Desc)
    → get_elem? s.fixups n ≡ some (i, j)
    → get_elem? s.subs i ≡ some x
    → x.desc ≡ some d
    → get_elem? s.subs j ≡ some y
    → HasKind s.subs y.kind
    → (a : ℕ) × (t : ℕ) × (f : Final) × (get_elem? (compact 0 s.subs).1 i ≡ some (some a))
      × (get_elem? (desc_of s) a ≡ some f)
      × (f.target ≡ in_final t)
      × ((p : ℕ × ℕ) × IsFixup s p × IsApplied s a t p)
unfolding desc_of
desc_of-targets s n i j x y d e f has g there =
    let (a, u) = compact_kept 0 s.subs i x d f has in
    let (t, z, at, to) =
      apply_fixups-settles s.subs s.fixups (compact 0 s.subs).0 n i j a y e u g there
        (bare_all-compact 0 s.subs) in
    (a, t, z, u, at, to, (desc_of_lem s).1 a t z at to)
