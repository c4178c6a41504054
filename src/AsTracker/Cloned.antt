-- ===== src/AsTracker/Cloned.antt =====
-- proxy/as_tracker.cpp: a copy of a structure that was read is as well known as its source.
use dxr11_pascal.Base.{
  ℕ, ◌+◌, ◌≡◌, ◌≢◌, refl, ap, ◌∙◌, subst, inl, inr, Bool, true, false, List, Option, none, some,
  arith, ◌==◌, lookup, set_key, lookup-set_key, Bool-cases, Option-cases,
}
use dxr11_pascal.AsTracker.{
  BuildInstances, BlasInfo, TlasInfo, no_tlas, State, key_or, touch, has_key,
}
use dxr11_pascal.AsTracker.Builds.{is_current, advance}
use dxr11_pascal.AsTracker.Reads.{remember, remember_copy, find_build}
use dxr11_pascal.AsTracker.Queries.{lookup_tlas}
use dxr11_pascal.AsTracker.Copies.{
  Mode, put_blas, drop_contents, copy_blas, copy_instances, copy_snapshot, copy_serial, copy_source,
  copy_tlas, copy_structure, last_info_at, is_same,
}

-- Two states with the same structures, read from the same builds.
record SameReads (s s' : State) : Type 0 where
  same_tlas : s'.tlas ≡ s.tlas
  same_read : s'.read_of ≡ s.read_of
  same_built : s'.last_built ≡ s.last_built

remember-SameReads : (at : ℕ) (e : BuildInstances) (s : State) → SameReads s (remember at e s)
unfolding remember
remember-SameReads at e s = elim (Bool-cases (e.build == 0)) [
  | inl u ↦ rw (u, remember) (record { same_tlas = refl; same_read = refl; same_built = refl })
  | inr u ↦ rw (u, remember) (record { same_tlas = refl; same_read = refl; same_built = refl })
]

remember_copy-SameReads :
    (dst build source of : ℕ) (s : State) → SameReads s (remember_copy dst build source of s)
unfolding remember_copy
remember_copy-SameReads dst build source of s = elim (Option-cases (lookup source s.inst_hist)) [
  | inl e ↦ rw (e, remember_copy) (record { same_tlas = refl; same_read = refl; same_built = refl })
  | inr (h, e) ↦ elim (Option-cases (find_build of h)) [
    | inl f ↦
        rw (e, f, remember_copy) (record { same_tlas = refl; same_read = refl; same_built = refl })
    | inr (b, f) ↦ rw (e, f, remember_copy) (remember-SameReads dst (record b { build = build }) s)
  ]
]

copy_snapshot-SameReads : (dst src : ℕ) (s : State) → SameReads s (copy_snapshot dst src s)
unfolding copy_snapshot
copy_snapshot-SameReads dst src s = elim (Option-cases (lookup src s.snapshots)) [
  | inl e ↦ rw (e, copy_snapshot) (record { same_tlas = refl; same_read = refl; same_built = refl })
  | inr (ds, e) ↦
      rw (e, copy_snapshot) (record { same_tlas = refl; same_read = refl; same_built = refl })
]

-- A structure read from its latest build.
pub record IsFresh (s : State) (at : ℕ) : Type 0 where
  pub build : ℕ
  pub is_built : lookup at s.last_built ≡ some build
  pub is_read : lookup at s.read_of ≡ some build

pub is_current-IsFresh : (s : State) (at : ℕ) → is_current s at ≡ true → IsFresh s at
unfolding is_current
is_current-IsFresh s at = elim (Option-cases (lookup at s.last_built)) [
  | inl e ↦ rw (e, is_current) (λ q. absurd cc)
  | inr (b, e) ↦ elim (Option-cases (lookup at s.read_of)) [
    | inl f ↦ rw (e, f, is_current) (λ q. absurd cc)
    | inr (r, f) ↦
        rw (e, f, is_current)
          (λ q.
            let same : r ≡ b = ground arith in
            record { build = b; is_built = e; is_read = f ∙ ap some same })
  ]
]

pub IsFresh-is_current : (s : State) (at : ℕ) → IsFresh s at → is_current s at ≡ true
unfolding is_current
IsFresh-is_current s at h = rw (h.is_built, h.is_read, is_current) (ground arith)

-- What a copy leaves at its destination.
record IsCopied (s : State) (dst : ℕ) (t : TlasInfo) : Type 0 where
  is_same_scene : lookup dst s.tlas ≡ some t
  is_fresh : IsFresh s dst

lookup-set_key_same {ℓ} :
    {V : Type ℓ} (k : ℕ) (v : V) (m : List (ℕ × V)) → lookup k (set_key k v m) ≡ some v
lookup-set_key_same k v m =
    let hit : (k == k) ≡ true = ground arith in lookup-set_key k k v m ∙ rw hit refl

lookup-set_key_other {ℓ} :
    {V : Type ℓ} (k asked : ℕ) (v : V) (m : List (ℕ × V))
    → k ≢ asked
    → lookup asked (set_key k v m) ≡ lookup asked m
lookup-set_key_other k asked v m apart =
    let miss : (k == asked) ≡ false = ground arith in lookup-set_key k asked v m ∙ rw miss refl

key_or-lookup {ℓ} :
    {V : Type ℓ} (d : V) (k : ℕ) (v : V) (m : List (ℕ × V)) → lookup k m ≡ some v → key_or d k m ≡ v
unfolding key_or
key_or-lookup d k v m e = rw (e, key_or) refl

copy_instances-IsCopied :
    (dst src build : ℕ) (s : State)
    → lookup dst s.last_built ≡ some build
    → IsCopied (copy_instances dst src s) dst (key_or no_tlas src s.tlas)
unfolding copy_instances
copy_instances-IsCopied dst src build s e =
    let known = key_or no_tlas src s.tlas in
    let latest = key_or 0 dst s.last_built in
    let mid : State = record s {
      tlas = set_key dst known (touch no_tlas src s.tlas);
      read_of = set_key dst latest s.read_of;
    } in
    let same = remember_copy-SameReads dst latest src (key_or 0 src s.last_built) mid in
    record {
      is_same_scene =
          ap (lookup dst) same.same_tlas ∙ lookup-set_key_same dst known (touch no_tlas src s.tlas);
      is_fresh = record {
        build = build;
        is_built = ap (lookup dst) same.same_built ∙ e;
        is_read =
            ap (lookup dst) same.same_read
            ∙ lookup-set_key_same dst latest s.read_of
            ∙ ap some (key_or-lookup 0 dst build s.last_built e);
      };
    }

copy_snapshot-IsCopied :
    (dst src : ℕ) (s : State) (t : TlasInfo)
    → IsCopied s dst t
    → IsCopied (copy_snapshot dst src s) dst t
copy_snapshot-IsCopied dst src s t h =
    let same = copy_snapshot-SameReads dst src s in
    record {
      is_same_scene = ap (lookup dst) same.same_tlas ∙ h.is_same_scene;
      is_fresh = record {
        build = h.is_fresh.build;
        is_built = ap (lookup dst) same.same_built ∙ h.is_fresh.is_built;
        is_read = ap (lookup dst) same.same_read ∙ h.is_fresh.is_read;
      };
    }

copy_source-IsCopied :
    (dst src build : ℕ) (s : State)
    → IsFresh s src
    → lookup dst s.last_built ≡ some build
    → IsCopied (copy_source dst src s) dst (lookup_tlas s src)
unfolding copy_source lookup_tlas
copy_source-IsCopied dst src build s fresh e =
    let on = IsFresh-is_current s src fresh in
    rw (on, copy_source)
      (copy_snapshot-IsCopied dst src (copy_instances dst src s) _
        (copy_instances-IsCopied dst src build s e))

copy_tlas-IsCopied :
    (dst src : ℕ) (s : State)
    → dst ≢ src
    → IsFresh s src
    → IsCopied (copy_tlas true dst src s) dst (lookup_tlas s src)
unfolding copy_tlas copy_serial drop_contents advance lookup_tlas
copy_tlas-IsCopied dst src s apart fresh =
    copy_source-IsCopied dst src (s.tlas_serial + 1) _
      (record {
        build = fresh.build;
        is_built =
            lookup-set_key_other dst src (s.tlas_serial + 1) s.last_built apart ∙ fresh.is_built;
        is_read = fresh.is_read;
      })
      (lookup-set_key_same dst (s.tlas_serial + 1) s.last_built)

copy_blas-SameReads :
    (b : Option BlasInfo) (from_tlas : Bool) (dst : ℕ) (s : State)
    → SameReads s (copy_blas b from_tlas dst s)
unfolding copy_blas put_blas
copy_blas-SameReads (some b) from_tlas dst s = record {
  same_tlas = refl;
  same_read = refl;
  same_built = refl;
}
copy_blas-SameReads none true dst s = record {
  same_tlas = refl;
  same_read = refl;
  same_built = refl;
}
copy_blas-SameReads none false dst s = record {
  same_tlas = refl;
  same_read = refl;
  same_built = refl;
}

-- The whole copy, for either part of the bottom level.
copy_both-IsCopied :
    (b : Option BlasInfo) (dst src : ℕ) (s : State)
    → dst ≢ src
    → IsFresh s src
    → IsCopied (copy_tlas true dst src (copy_blas b true dst s)) dst (lookup_tlas s src)
unfolding lookup_tlas
copy_both-IsCopied b dst src s apart fresh =
    let same = copy_blas-SameReads b true dst s in
    let u = copy_blas b true dst s in
    subst (λ m. IsCopied (copy_tlas true dst src u) dst (key_or no_tlas src m)) same.same_tlas
      (copy_tlas-IsCopied dst src u apart (record {
        build = fresh.build;
        is_built = ap (lookup src) same.same_built ∙ fresh.is_built;
        is_read = ap (lookup src) same.same_read ∙ fresh.is_read;
      }))

copy_structure-same :
    (mode : Mode) (dst src : ℕ) (s : State)
    → is_same mode ≡ true
    → has_key src s.last_built ≡ true
    → copy_structure mode dst src s
      ≡ copy_tlas true dst src (copy_blas (last_info_at s src) true dst s)
unfolding copy_structure
copy_structure-same mode dst src s same built = rw (same, built, copy_structure) refl

-- A CLONE or COMPACT of a structure that was read from its latest build, to another address: the
-- destination is read from its own latest build, the copy, and what is known of it is what was
-- known of the source.
pub copy_structure-IsCopied :
    (mode : Mode) (dst src : ℕ) (s : State)
    → is_same mode ≡ true
    → dst ≢ src
    → is_current s src ≡ true
    → (lookup_tlas (copy_structure mode dst src s) dst ≡ lookup_tlas s src)
      × (is_current (copy_structure mode dst src s) dst ≡ true)
unfolding has_key lookup_tlas key_or
copy_structure-IsCopied mode dst src s same apart current =
    let fresh = is_current-IsFresh s src current in
    let built : has_key src s.last_built ≡ true = rw (fresh.is_built, has_key) refl in
    let copied = copy_both-IsCopied (last_info_at s src) dst src s apart fresh in
    let whole = copy_structure-same mode dst src s same built in
    (
      ap (λ u. lookup_tlas u dst) whole ∙ rw (copied.is_same_scene, lookup_tlas, key_or) refl,
      ap (λ u. is_current u dst) whole ∙ IsFresh-is_current _ dst copied.is_fresh,
    )
