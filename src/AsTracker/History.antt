-- ===== src/AsTracker/History.antt =====
-- proxy/as_tracker.cpp: the history of the bottom-level builds keeps what the reads to come are
-- parsed against.
use dxr11_pascal.Base.{
  ℕ, zero, suc, ◌+◌, ◌≤◌, ◌≡◌, ◌≢◌, refl, sym, ap, ◌∙◌, subst, inl, inr, Bool, true, false, ◌&&◌,
  not, ◌⊎◌, List, [], ◌∷◌, ◌++◌, Option, none, some, arith, ltb, ◌==◌, if◌then◌else◌, drop,
  get_elem?, lookup, lookup-set_key, Bool-cases, Option-cases,
}
use dxr11_pascal.AsTracker.{BlasInfo, Instance, BuildLog, PendingRead, State, key_or}
use dxr11_pascal.AsTracker.Parse.{build_before, blas_at, parse, parse_into, as_of_or_now}
use dxr11_pascal.AsTracker.Builds.{
  Geometry, is_current, keep_from, trim, floor_pending, floor_built, floor_of, note_bottom_level,
  info_of,
}

abbrev starts_below : ℕ → BuildLog → Bool
starts_below floor [] = false
starts_below floor ((n, b) ∷ h) = ltb n floor

-- The index kept from is the one given, or that of an entry below the floor.
keep_from-cases :
    (floor i kept : ℕ) (h : BuildLog)
    → (keep_from floor i kept h ≡ kept)
      ⊎ ((j : ℕ) × (keep_from floor i kept h ≡ i + j) × (starts_below floor (drop j h) ≡ true))
unfolding keep_from
keep_from-cases floor i kept [] = inl refl
keep_from-cases floor i kept (e ∷ []) = inl refl
keep_from-cases floor i kept (e ∷ f ∷ h) = elim (Bool-cases (ltb f.0 floor)) [
  | inl u ↦ elim (keep_from-cases floor (i + 1) (i + 1) (f ∷ h)) [
    | inl k ↦ inr (1, rw (u, keep_from) k, u)
    | inr (j, k, b) ↦ inr (suc j, rw (u, keep_from) (k ∙ omega arith), b)
  ]
  | inr u ↦ elim (keep_from-cases floor (i + 1) kept (f ∷ h)) [
    | inl k ↦ inl (rw (u, keep_from) k)
    | inr (j, k, b) ↦ inr (suc j, rw (u, keep_from) (k ∙ omega arith), b)
  ]
]

-- An entry before the one asked for is found.
build_before-found :
    (floor as_of : ℕ) (h : BuildLog)
    → starts_below floor h ≡ true
    → floor ≤ as_of
    → (b : BlasInfo) × (build_before as_of h ≡ some b)
unfolding build_before
build_before-found floor as_of [] e le = absurd cc
build_before-found floor as_of ((n, b) ∷ h) e le = elim (Option-cases (build_before as_of h)) [
  | inl f ↦ rw (f, build_before) (b, ground (arith, le, e))
  | inr (c, f) ↦ rw (f, build_before) (c, refl)
]

-- What the end of a history finds is what all of it finds.
build_before-drop :
    (as_of j : ℕ) (h : BuildLog) (b : BlasInfo)
    → build_before as_of (drop j h) ≡ some b
    → build_before as_of h ≡ some b
unfolding build_before
build_before-drop as_of zero h b e = e
build_before-drop as_of (suc j) [] b e = e
build_before-drop as_of (suc j) ((n, c) ∷ h) b e =
    rw (build_before-drop as_of j h b e, build_before) refl

-- Trimming below a floor changes no answer at or above it.
pub trim-build_before :
    (floor as_of : ℕ) (h : BuildLog)
    → floor ≤ as_of
    → build_before as_of (trim floor h) ≡ build_before as_of h
unfolding trim
trim-build_before floor as_of h le = elim (keep_from-cases floor 0 0 h) [
  | inl k ↦ rw (k, trim) refl
  | inr (j, k, below) ↦
      let (b, found) = build_before-found floor as_of (drop j h) below le in
      let kept : keep_from floor 0 0 h ≡ j = k ∙ omega arith in
      rw (kept, trim) (found ∙ sym (build_before-drop as_of j h b found))
]

-- A build recorded at or after `as_of` changes nothing for it.
build_before-append :
    (as_of n : ℕ) (b : BlasInfo) (h : BuildLog)
    → as_of ≤ n
    → build_before as_of (h ++ (n, b) ∷ []) ≡ build_before as_of h
unfolding build_before
build_before-append as_of n b [] le = ground arith
build_before-append as_of n b ((k, c) ∷ h) le = rw (build_before-append as_of n b h le) refl

floor_pending-le : (ps : List PendingRead) (floor : ℕ) → floor_pending ps floor ≤ floor
unfolding floor_pending
floor_pending-le [] floor = omega arith
floor_pending-le (p ∷ ps) floor =
    let later =
      floor_pending-le ps (if not (p.as_of == 0) && ltb p.as_of floor then p.as_of else floor) in
    ground (arith, later)

floor_pending-holds :
    (ps : List PendingRead) (p : PendingRead) (i floor : ℕ)
    → get_elem? ps i ≡ some p
    → p.as_of ≢ 0
    → floor_pending ps floor ≤ p.as_of
unfolding floor_pending
floor_pending-holds [] p i floor e pos = absurd cc
floor_pending-holds (q ∷ ps) p zero floor e pos =
    let same : q.as_of ≡ p.as_of = ap (λ x. x.as_of) (let u : q ≡ p = cc in u) in
    let later =
      floor_pending-le ps (if not (q.as_of == 0) && ltb q.as_of floor then q.as_of else floor) in
    ground (arith, later)
floor_pending-holds (q ∷ ps) p (suc i) floor e pos =
    floor_pending-holds ps p i (if not (q.as_of == 0) && ltb q.as_of floor then q.as_of else floor)
      e pos

floor_built-le : (s : State) (m : List (ℕ × ℕ)) (floor : ℕ) → floor_built s m floor ≤ floor
unfolding floor_built
floor_built-le s [] floor = omega arith
floor_built-le s ((at, n) ∷ m) floor =
    let later = floor_built-le s m (if ltb n floor && not (is_current s at) then n else floor) in
    ground (arith, later)

floor_built-holds :
    (s : State) (m : List (ℕ × ℕ)) (at n i floor : ℕ)
    → get_elem? m i ≡ some (at, n)
    → is_current s at ≡ false
    → floor_built s m floor ≤ n
unfolding floor_built
floor_built-holds s [] at n i floor e old = absurd cc
floor_built-holds s (y ∷ m) at n zero floor e old =
    let same : y ≡ (at, n) = cc in
    let later = floor_built-le s m (if ltb n floor && not (is_current s at) then n else floor) in
    subst
      (λ x. floor_built s m (if ltb x.1 floor && not (is_current s x.0) then x.1 else floor) ≤ n)
      (sym same) (ground (arith, later, old))
floor_built-holds s ((b, k) ∷ m) at n (suc i) floor e old =
    floor_built-holds s m at n i (if ltb k floor && not (is_current s b) then k else floor) e old

-- A serial that a read to come is parsed as of: that of a read that waits, or that of the latest
-- build of a structure that is not read.
pub data Awaited (s : State) (as_of : ℕ) : Type 0 where
  pending_read :
      (i : ℕ) (p : PendingRead) → get_elem? s.pending i ≡ some p → p.as_of ≡ as_of → Awaited s as_of
  not_read :
      (i at : ℕ)
      → get_elem? s.tlas_as_serial i ≡ some (at, as_of)
      → is_current s at ≡ false
      → Awaited s as_of

floor_of-le : (s : State) (as_of : ℕ) → as_of ≢ 0 → Awaited s as_of → floor_of s ≤ as_of
unfolding floor_of
floor_of-le s as_of pos (pending_read i p e f) =
    let low = floor_pending-holds s.pending p i (s.as_serial + 1) e (λ z. pos (sym f ∙ z)) in
    let lower = floor_built-le s s.tlas_as_serial (floor_pending s.pending (s.as_serial + 1)) in
    omega (arith, low, lower, f)
floor_of-le s as_of pos (not_read i at e old) =
    floor_built-holds s s.tlas_as_serial at as_of i _ e old

abbrev found_in : ℕ → Option BuildLog → Option BlasInfo
found_in as_of none = none
found_in as_of (some h) = build_before as_of h

build_before-key_or :
    (at as_of : ℕ) (m : List (ℕ × BuildLog))
    → build_before as_of (key_or [] at m) ≡ found_in as_of (lookup at m)
unfolding key_or build_before
build_before-key_or at as_of m = elim (Option-cases (lookup at m)) [
  | inl e ↦ rw (e, key_or) refl
  | inr (h, e) ↦ rw (e, key_or) refl
]

trimmed_append :
    (floor as_of n : ℕ) (b : BlasInfo) (h : BuildLog)
    → floor ≤ as_of
    → as_of ≤ n
    → build_before as_of (trim floor (h ++ (n, b) ∷ [])) ≡ build_before as_of h
trimmed_append floor as_of n b h low high =
    trim-build_before floor as_of (h ++ (n, b) ∷ []) low ∙ build_before-append as_of n b h high

blas_at-note_bottom_level :
    (dst : ℕ) (gs : List (Option Geometry)) (s : State) (at as_of : ℕ)
    → floor_of s ≤ as_of
    → as_of ≤ s.as_serial
    → blas_at (note_bottom_level dst gs s) at as_of ≡ blas_at s at as_of
unfolding blas_at note_bottom_level
blas_at-note_bottom_level dst gs s at as_of low high =
    let put = trim (floor_of s) (key_or [] dst s.blas_hist ++ (s.as_serial + 1, info_of gs) ∷ []) in
    let kept =
      trimmed_append (floor_of s) as_of (s.as_serial + 1) (info_of gs) (key_or [] dst s.blas_hist)
        low (omega (arith, high)) in
    let now = ap (found_in as_of) (lookup-set_key dst at put s.blas_hist) in
    elim (Bool-cases (dst == at)) [
      | inr u ↦ now ∙ rw u refl
      | inl u ↦
          let same : dst ≡ at = ground arith in
          now
          ∙ rw u (
              kept
              ∙ build_before-key_or dst as_of s.blas_hist
              ∙ ap (λ x. found_in as_of (lookup x s.blas_hist)) same)
    ]

-- Recording the build of a bottom-level structure changes nothing of what a read to come will be
-- parsed to: a read that waits, or one of the latest build of a structure that is not read, whose
-- serial was recorded before.
pub note_bottom_level-parse_into :
    (dst : ℕ) (gs : List (Option Geometry)) (s : State) (ds : List Instance) (as_of : ℕ)
    → as_of ≢ 0
    → as_of ≤ s.as_serial
    → Awaited s as_of
    → parse_into (note_bottom_level dst gs s) ds as_of ≡ parse_into s ds as_of
unfolding parse_into as_of_or_now
note_bottom_level-parse_into dst gs s ds as_of pos high awaited =
    let known : (as_of == 0) ≡ false = ground arith in
    rw known (
      ap (λ f. parse f ds)
        (λ i at.
          blas_at-note_bottom_level dst gs s at as_of (floor_of-le s as_of pos awaited) high i))
