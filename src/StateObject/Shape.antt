-- ===== src/StateObject/Shape.antt =====
-- proxy/state_object_cache.cpp: the final array without its targets, and the map into it.
use dxr11_pascal.Base.{
  ℕ, zero, suc, ◌-◌, ◌≤◌, ◌≡◌, refl, sym, ap, ◌∙◌, ◌⊎◌, inl, inr, true, false, List, [], ◌∷◌,
  Option, none, some, arith, get_elem?, Bool-cases, Option-cases,
}
use dxr11_pascal.StateObject.{
  Kind, kind_code, kind_eq, Desc, Subobject, Final, Target, nothing, in_final, compact,
  first_of_kind, set_target,
}

-- A final subobject without its target.
abbrev pub Bare : Type 0
Bare = Kind × Desc

abbrev pub bare_all : List Final → List Bare
bare_all [] = []
bare_all (f ∷ fs) = (f.kind, f.desc) ∷ bare_all fs

-- The subobjects that are no placeholders.
unfoldable pub kept : List Subobject → List Bare
kept [] = []
kept (x ∷ xs) = elim x.desc [ none ↦ kept xs | some d ↦ (x.kind, d) ∷ kept xs ]

pub bare_all-compact : (n : ℕ) (xs : List Subobject) → bare_all (compact n xs).0 ≡ kept xs
unfolding compact kept
bare_all-compact n [] = refl
bare_all-compact n (x ∷ xs) = elim (Option-cases x.desc) [
  | inl e ↦ rw e (bare_all-compact n xs)
  | inr (d, e) ↦ rw e (ap (λ l. (x.kind, d) ∷ l) (bare_all-compact (suc n) xs))
]

pub bare_all-set_target : (i t : ℕ) (fs : List Final) → bare_all (set_target i t fs) ≡ bare_all fs
unfolding set_target
bare_all-set_target i t [] = refl
bare_all-set_target zero t (f ∷ fs) = refl
bare_all-set_target (suc i) t (f ∷ fs) = ap (λ l. (f.kind, f.desc) ∷ l) (bare_all-set_target i t fs)

-- What stands at an index of the bare list.
pub get-bare_all :
    (a : ℕ) (fs : List Final) (b : Bare)
    → get_elem? (bare_all fs) a ≡ some b
    → (g : Final) × (get_elem? fs a ≡ some g) × ((g.kind, g.desc) ≡ b)
get-bare_all a [] b e = ground arith
get-bare_all zero (f ∷ fs) b e = (f, refl, ground arith)
get-bare_all (suc a) (f ∷ fs) b e = get-bare_all a fs b e

pub bare_all-get :
    (a : ℕ) (fs : List Final) (g : Final)
    → get_elem? fs a ≡ some g
    → get_elem? (bare_all fs) a ≡ some (g.kind, g.desc)
bare_all-get a [] g e = ground arith
bare_all-get zero (f ∷ fs) g e = ground arith
bare_all-get (suc a) (f ∷ fs) g e = bare_all-get a fs g e

sub_self : (n : ℕ) → n - n ≡ 0
sub_self n = omega arith

pub sub_zero : (n : ℕ) → n - 0 ≡ n
sub_zero n = omega arith

sub_step : (n t : ℕ) → suc n ≤ t → t - n ≡ suc (t - suc n)
sub_step n t h = omega arith

get_past {ℓ} :
    {A : Type ℓ} (n t : ℕ) (x : A) (xs : List A)
    → suc n ≤ t
    → get_elem? (x ∷ xs) (t - n) ≡ get_elem? xs (t - suc n)
get_past n t x xs h = rw (sub_step n t h) refl

pub kind_eq_lem : (a b : Kind) → kind_eq a b ≡ true → kind_code a ≡ kind_code b
unfolding kind_eq
kind_eq_lem a b e = ground arith

-- The first of a type, found from index `n` on.
pub first_of_kind_lem :
    (k : Kind) (n : ℕ) (fs : List Final) (t : ℕ)
    → first_of_kind k n fs ≡ some t
    → (g : Final) × (n ≤ t) × (get_elem? fs (t - n) ≡ some g) × (kind_code g.kind ≡ kind_code k)
unfolding first_of_kind
first_of_kind_lem k n [] t e = ground arith
first_of_kind_lem k n (f ∷ fs) t e = elim (Bool-cases (kind_eq f.kind k)) [
  | inl u ↦
      let same : n ≡ t = ground arith in
      (f, ground arith, rw (same, sub_self t) refl, kind_eq_lem f.kind k u)
  | inr u ↦
      let (g, far, at, same) = first_of_kind_lem k (suc n) fs t (ground arith) in
      (g, ground arith, get_past n t f fs far ∙ at, same)
]

unfoldable pub found_target : Option Final → Target
found_target none = nothing
found_target (some f) = f.target

pub set_target-get :
    (i t a : ℕ) (fs : List Final) (f : Final)
    → get_elem? (set_target i t fs) a ≡ some f
    → (get_elem? fs a ≡ some f) ⊎ ((a ≡ i) × (f.target ≡ in_final t))
unfolding set_target found_target
set_target-get i t a [] f e = ground arith
set_target-get zero t zero (g ∷ fs) f e = inr (refl, sym (ap found_target e))
set_target-get zero t (suc a) (g ∷ fs) f e = inl e
set_target-get (suc i) t zero (g ∷ fs) f e = inl e
set_target-get (suc i) t (suc a) (g ∷ fs) f e = ground (arith, set_target-get i t a fs f e)

-- Where the map sends a working index: to that subobject's place in the final array.
pub compact_map :
    (n : ℕ) (xs : List Subobject) (i a : ℕ)
    → get_elem? (compact n xs).1 i ≡ some (some a)
    → (x : Subobject) × (d : Desc) × (get_elem? xs i ≡ some x)
      × (n ≤ a)
      × (x.desc ≡ some d)
      × (get_elem? (kept xs) (a - n) ≡ some (x.kind, d))
unfolding compact kept
compact_map n [] i a e = ground arith
compact_map n (x ∷ xs) zero a e = elim (Option-cases x.desc) [
  | inl u ↦ ground arith
  | inr (d, u) ↦
      let same : n ≡ a = ground arith in
      (x, d, refl, ground arith, u, rw (u, same, sub_self a) refl)
]
compact_map n (x ∷ xs) (suc i) a e = elim (Option-cases x.desc) [
  | inl u ↦
      let (y, d, at, far, has, final) = compact_map n xs i a (ground arith) in
      (y, d, at, far, has, rw u final)
  | inr (d, u) ↦
      let (y, d', at, far, has, final) = compact_map (suc n) xs i a (ground arith) in
      (y, d', at, ground arith, has, rw u (get_past n a (x.kind, d) (kept xs) far ∙ final))
]

-- A subobject that is there is found by its type.
pub first_of_kind_found :
    (k : Kind) (n : ℕ) (fs : List Final) (m : ℕ) (g : Final)
    → get_elem? fs m ≡ some g
    → kind_code g.kind ≡ kind_code k
    → (t : ℕ) × (first_of_kind k n fs ≡ some t)
unfolding first_of_kind kind_eq
first_of_kind_found k n [] m g e same = absurd cc
first_of_kind_found k n (f ∷ fs) m g e same = elim (Bool-cases (kind_eq f.kind k)) [
  | inl u ↦ (n, rw u refl)
  | inr u ↦ elim (ℕ-cases m) [
    | inl z ↦
        let at : get_elem? (f ∷ fs) 0 ≡ some g = ap (get_elem? (f ∷ fs)) (sym z) ∙ e in
        let here : f ≡ g = cc in
        let miss : kind_eq g.kind k ≡ false = ap (λ h. kind_eq h.kind k) (sym here) ∙ u in
        absurd (ground (arith, miss, same))
    | inr (i, z) ↦
        let at : get_elem? fs i ≡ some g = ap (get_elem? (f ∷ fs)) (sym z) ∙ e in
        let (t, found) = first_of_kind_found k (suc n) fs i g at same in (t, rw u found)
  ]
]
  where
    ℕ-cases : (m : ℕ) → (m ≡ 0) ⊎ ((i : ℕ) × (m ≡ suc i))
    ℕ-cases zero = inl refl
    ℕ-cases (suc i) = inr (i, refl)

-- Where the map sends a working index that has a description.
pub compact_at :
    (n : ℕ) (xs : List Subobject) (i : ℕ) (x : Subobject)
    → get_elem? xs i ≡ some x
    → (get_elem? (compact n xs).1 i ≡ some none)
      ⊎ ((a : ℕ) × (get_elem? (compact n xs).1 i ≡ some (some a)))
unfolding compact
compact_at n [] i x e = absurd cc
compact_at n (y ∷ xs) zero x e = elim (Option-cases y.desc) [
  | inl u ↦ inl (rw u refl)
  | inr (d, u) ↦ inr (n, rw u refl)
]
compact_at n (y ∷ xs) (suc i) x e = elim (Option-cases y.desc) [
  | inl u ↦ rw u (compact_at n xs i x e)
  | inr (d, u) ↦ rw u (compact_at (suc n) xs i x e)
]

-- A working index with a description is not dropped.
pub compact_kept :
    (n : ℕ) (xs : List Subobject) (i : ℕ) (x : Subobject) (d : Desc)
    → get_elem? xs i ≡ some x
    → x.desc ≡ some d
    → (a : ℕ) × (get_elem? (compact n xs).1 i ≡ some (some a))
unfolding compact
compact_kept n [] i x d e f = absurd cc
compact_kept n (y ∷ xs) zero x d e f =
    let same : y ≡ x = cc in
    let has : y.desc ≡ some d = ap (λ z. z.desc) same ∙ f in (n, rw has refl)
compact_kept n (y ∷ xs) (suc i) x d e f = elim (Option-cases y.desc) [
  | inl u ↦ rw u (compact_kept n xs i x d e f)
  | inr (c, u) ↦ rw u (compact_kept (suc n) xs i x d e f)
]

pub set_target-here :
    (a t : ℕ) (fs : List Final) (g : Final)
    → get_elem? fs a ≡ some g
    → (f : Final) × (get_elem? (set_target a t fs) a ≡ some f) × (f.target ≡ in_final t)
unfolding set_target
set_target-here a t [] g e = absurd cc
set_target-here zero t (x ∷ fs) g e = (record x { target = in_final t }, refl, refl)
set_target-here (suc a) t (x ∷ fs) g e = set_target-here a t fs g e

pub set_target-still :
    (b t a u : ℕ) (fs : List Final) (g : Final)
    → get_elem? fs a ≡ some g
    → g.target ≡ in_final u
    → (v : ℕ) × (f : Final) × (get_elem? (set_target b t fs) a ≡ some f) × (f.target ≡ in_final v)
unfolding set_target
set_target-still b t a u [] g e h = absurd cc
set_target-still zero t zero u (x ∷ fs) g e h = (t, record x { target = in_final t }, refl, refl)
set_target-still zero t (suc a) u (x ∷ fs) g e h = (u, g, e, h)
set_target-still (suc b) t zero u (x ∷ fs) g e h = (u, g, e, h)
set_target-still (suc b) t (suc a) u (x ∷ fs) g e h = set_target-still b t a u fs g e h
