-- ===== src/AsTracker/Builds.antt =====
-- proxy/as_tracker.cpp: the builds that are recorded, which structures are live, and the history
-- of the bottom-level ones.
use dxr11_pascal.Base.{
  ℕ, ◌+◌, ◌-◌, ◌/◌, ◌%◌, Bool, true, false, ◌&&◌, ◌||◌, not, List, [], ◌∷◌, ◌++◌, Option, none,
  some, ltb, leb, ◌==◌, if◌then◌else◌, length, drop, any, lookup, set_key, max,
}
use dxr11_pascal.ResTracker.{Buffers, find}
use dxr11_pascal.AsTracker.{
  Kind, unknown, triangles, procedural, mixed, BlasInfo, no_blas, TlasInfo, BuildLog, PendingRead,
  State, Summary, key_or, has_key,
}

-- A geometry of a build's description: its type and its flags.
pub record Geometry : Type 0 where
  pub is_procedural : Bool
  pub flags : ℕ

-- The inputs of a build: the instance count and the address of the instances; the geometries, with
-- `none` for a null pointer in an array of pointers; a bottom-level layout that is not read; or
-- neither level.
pub data Inputs : Type 0 where
  top_level : ℕ → ℕ → Inputs
  bottom_level : List (Option Geometry) → Inputs
  unreadable : Inputs
  other_type : Inputs

-- `std::map::emplace`
unfoldable pub emplace {ℓ} : {V : Type ℓ} → ℕ → V → List (ℕ × V) → List (ℕ × V)
emplace k v m = elim (lookup k m) [ none ↦ set_key k v m | some old ↦ m ]

-- `CurrentLocked`: whether the instance data was read from the latest build.
unfoldable pub is_current : State → ℕ → Bool
is_current s at = elim (lookup at s.last_built) [
  | none ↦ false
  | some b ↦ elim (lookup at s.read_of) [ none ↦ false | some r ↦ r == b ]
]

abbrev pub live_window : ℕ
live_window = 64

abbrev pub supersede_builds : ℕ
supersede_builds = 4

-- Whether another structure, read and new since the build `b` of `at`, has taken its place.
unfoldable pub supersedes : State → ℕ → ℕ → ℕ × TlasInfo → Bool
supersedes s at b (a, t) = if a == at || not t.valid then false else elim (lookup a s.first_built) [
  | none ↦ false
  | some first ↦ elim (lookup a s.build_count) [
    | none ↦ false
    | some count ↦ ltb b first && leb supersede_builds count
  ]
]

-- `LiveLocked`
unfoldable pub is_live : State → ℕ → Bool
is_live s at = elim (lookup at s.last_built) [
  | none ↦ true
  | some b ↦
      if ltb (b + live_window) s.tlas_serial then false else not (any (supersedes s at b) s.tlas)
]

-- `CountsLocked`; `none` is a null `only`.
unfoldable pub counts : State → Option (List ℕ) → ℕ → Bool
counts s none at = is_live s at
counts s (some only) at = any (λ a. a == at) only

-- `AgoLocked`
unfoldable pub ago : State → ℕ → ℕ
ago s at = elim (lookup at s.last_built) [ none ↦ 0 | some b ↦ s.tlas_serial - b ]

-- A new build of a top-level structure: its serial, its first build and its count.
unfoldable pub advance : ℕ → State → State
advance dst s = record s {
  tlas_serial = s.tlas_serial + 1;
  last_built = set_key dst (s.tlas_serial + 1) s.last_built;
  first_built = emplace dst (s.tlas_serial + 1) s.first_built;
  build_count = set_key dst (key_or 0 dst s.build_count + 1) s.build_count;
}

-- Whether `restrack::Find` names the resource.
unfoldable pub is_resolved : Buffers → ℕ → Bool
is_resolved buffers at = elim ((find at buffers).resource) [ none ↦ false | some r ↦ true ]

unfoldable pub note_top_level : Buffers → ℕ → ℕ → State → State
note_top_level buffers dst descs s =
    let sum = s.summary in
    let s' = advance dst s in
    record s' {
      as_serial = s.as_serial + 1;
      tlas_as_serial = set_key dst (s.as_serial + 1) s.tlas_as_serial;
      summary = record sum {
        tlas_count = sum.tlas_count + 1;
        tlas_resolved =
            if is_resolved buffers descs then sum.tlas_resolved + 1 else sum.tlas_resolved;
        saw_top_level = true;
      };
    }

unfoldable pub saw : Bool → List (Option Geometry) → Bool
saw procedural_kind [] = false
saw procedural_kind (none ∷ gs) = saw procedural_kind gs
saw procedural_kind (some g ∷ gs) =
    (if g.is_procedural then procedural_kind else not procedural_kind) || saw procedural_kind gs

unfoldable pub kind_of : Bool → Bool → Kind
kind_of tri proc =
    if tri && proc then mixed else if proc then procedural else if tri then triangles else unknown

unfoldable pub info_of : List (Option Geometry) → BlasInfo
info_of gs = record {
  kind = kind_of (saw false gs) (saw true gs);
  geometry_count = length gs;
  origin = 0;
}

-- The serial below which only the latest entry of a history is still needed.
unfoldable pub floor_pending : List PendingRead → ℕ → ℕ
floor_pending [] floor = floor
floor_pending (p ∷ ps) floor =
    floor_pending ps (if not (p.as_of == 0) && ltb p.as_of floor then p.as_of else floor)

unfoldable pub floor_built : State → List (ℕ × ℕ) → ℕ → ℕ
floor_built s [] floor = floor
floor_built s ((at, n) ∷ m) floor =
    floor_built s m (if ltb n floor && not (is_current s at) then n else floor)

unfoldable pub floor_of : State → ℕ
floor_of s = floor_built s s.tlas_as_serial (floor_pending s.pending (s.as_serial + 1))

-- `keepFrom`, from index `i` on.
unfoldable pub keep_from : ℕ → ℕ → ℕ → BuildLog → ℕ
keep_from floor i kept [] = kept
keep_from floor i kept (e ∷ []) = kept
keep_from floor i kept (e ∷ f ∷ h) =
    keep_from floor (i + 1) (if ltb f.0 floor then i + 1 else kept) (f ∷ h)

unfoldable pub trim : ℕ → BuildLog → BuildLog
trim floor h = drop (keep_from floor 0 0 h) h

unfoldable pub count_kind : Kind → Summary → Summary
count_kind triangles sum = record sum { triangle_count = sum.triangle_count + 1 }
count_kind procedural sum = record sum { procedural_count = sum.procedural_count + 1 }
count_kind mixed sum = record sum { mixed_count = sum.mixed_count + 1 }
count_kind unknown sum = sum

unfoldable pub count_blas : BlasInfo → Summary → Summary
count_blas b sum = count_kind b.kind (record sum { blas_count = sum.blas_count + 1 })

unfoldable pub note_bottom_level : ℕ → List (Option Geometry) → State → State
note_bottom_level dst gs s =
    let b = info_of gs in
    let old = key_or [] dst s.blas_hist in
    record s {
      blas = set_key dst b s.blas;
      as_serial = s.as_serial + 1;
      blas_hist = set_key dst (trim (floor_of s) (old ++ (s.as_serial + 1, b) ∷ [])) s.blas_hist;
      summary = if has_key dst s.blas then s.summary else count_blas b s.summary;
    }

-- `NoteBuild`; `none` is a null description.
unfoldable pub note_build : Buffers → Option (ℕ × Inputs) → State → State
note_build buffers none s = s
note_build buffers (some (dst, top_level n descs)) s = note_top_level buffers dst descs s
note_build buffers (some (dst, bottom_level gs)) s = note_bottom_level dst gs s
note_build buffers (some (dst, unreadable)) s = s
note_build buffers (some (dst, other_type)) s = s

-- NO_DUPLICATE_ANYHIT_INVOCATION is 2.
unfoldable pub is_flagged : ℕ → Bool
is_flagged f = not (f / 2 % 2 == 0)

unfoldable pub set_flag : ℕ → ℕ
set_flag f = if is_flagged f then f else f + 2

unfoldable pub all_flagged : List Geometry → Bool
all_flagged [] = true
all_flagged (g ∷ gs) = is_flagged g.flags && all_flagged gs

unfoldable pub set_flags : List Geometry → List Geometry
set_flags [] = []
set_flags (g ∷ gs) = record g { flags = set_flag g.flags } ∷ set_flags gs

-- `NoDuplicateAnyHit` on the geometries of a bottom-level build; `none` leaves them as they are.
unfoldable pub no_duplicate_any_hit : List Geometry → Option (List Geometry)
no_duplicate_any_hit [] = none
no_duplicate_any_hit (g ∷ gs) = if all_flagged (g ∷ gs) then none else some (set_flags (g ∷ gs))

-- `Lookup`
unfoldable pub lookup_blas : State → ℕ → BlasInfo
lookup_blas s at = elim (lookup at s.blas) [ none ↦ no_blas | some b ↦ b ]

-- `MaxGeometryCount`
unfoldable pub max_geometry_from : ℕ → List (ℕ × BlasInfo) → ℕ
max_geometry_from m [] = m
max_geometry_from m ((at, b) ∷ bs) = max_geometry_from (max m b.geometry_count) bs

unfoldable pub max_geometry_count : State → ℕ
max_geometry_count s = max_geometry_from 1 s.blas
