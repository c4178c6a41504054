-- ===== src/AsTracker/Decodes.antt =====
-- proxy/as_tracker.cpp: what the driver's decode says of a deserialized structure. The decode's
-- bytes are an argument: their number, the header, and the descriptions as they are read at an
-- offset; the sizes of the descriptions are the API's.
use dxr11_pascal.Base.{
  ℕ, zero, suc, ◌+◌, ◌*◌, ◌/◌, Bool, true, false, ◌&&◌, ◌||◌, not, List, [], ◌∷◌, Option, none,
  some, ltb, ◌==◌, if◌then◌else◌, any, keep_if, lookup, erase, set_key,
}
use dxr11_pascal.AsTracker.{
  BlasInfo, Row, Instance, BuildLog, BuildInstances, Deserialized, State, TlasInfo, key_or, has_key,
}
use dxr11_pascal.AsTracker.Parse.{parse_into, parse_locked}
use dxr11_pascal.AsTracker.Builds.{kind_of}
use dxr11_pascal.AsTracker.Reads.{remember, rows_of}

-- `DeserializedNow`
unfoldable pub deserialized_now : State → ℕ → Option Deserialized
deserialized_now s dst = lookup dst s.deserialized

unfoldable pub is_open : Row → Bool
is_open r = r.active && r.geometries == 0

-- Whether an instance of a read that met an unknown structure is on a deserialized one.
unfoldable pub meets_deserialized : State → List Row → List Instance → Bool
meets_deserialized s [] ds = false
meets_deserialized s (r ∷ rs) [] = false
meets_deserialized s (r ∷ rs) (d ∷ ds) =
    (is_open r && has_key d.structure s.deserialized) || meets_deserialized s rs ds

unfoldable pub build_awaits : State → ℕ → List BuildInstances → Bool
build_awaits s build = any λ e. e.build == build && meets_deserialized s e.rows e.descs

unfoldable pub read_awaits : State → ℕ → TlasInfo → Bool
read_awaits s at t =
    if not t.valid || t.unknown_blas == 0 then false else elim (lookup at s.read_of) [
      | none ↦ false
      | some build ↦ elim (lookup at s.inst_hist) [ none ↦ false | some h ↦ build_awaits s build h ]
    ]

unfoldable pub scene_awaits : State → ℕ → Bool
scene_awaits s at =
    has_key at s.deserialized
    || elim (lookup at s.tlas) [ none ↦ false | some t ↦ read_awaits s at t ]

-- `AwaitsDecode`
unfoldable pub awaits_decode : State → List ℕ → Bool
awaits_decode s scenes = elim s.deserialized [ [] ↦ false | e ∷ m ↦ any (scene_awaits s) scenes ]

pub data Level : Type 0 where
  bottom top neither : Level

pub record Sizes : Type 0 where
  pub header_size : ℕ
  pub geometry_size : ℕ
  pub instance_size : ℕ

pub record Decode : Type 0 where
  pub size : ℕ
  pub level : Level
  pub desc_count : ℕ
  pub procedural_at : ℕ → Bool
  pub instance_at : ℕ → Instance

-- What a call answers.
pub data Outcome : Type 0 where
  no_header : Outcome
  short_geometries : Outcome
  neither_level : Outcome
  short_instances : Outcome
  bottom_decoded : ℕ → Outcome
  top_decoded : ℕ → Outcome

-- The geometries of a decode from an offset on, `left` of them: whether each is procedural, or
-- `none` where the bytes end before them.
unfoldable pub geometries_at : Sizes → Decode → ℕ → ℕ → Option (List Bool)
geometries_at z d at zero = some []
geometries_at z d at (suc left) =
    let aligned = (at + 7) / 8 * 8 in
    let rest = geometries_at z d (aligned + z.geometry_size) left in
    if ltb d.size (aligned + z.geometry_size)
    then none
    else elim rest [ none ↦ none | some gs ↦ some (d.procedural_at aligned ∷ gs) ]

unfoldable pub decoded_info : ℕ → List Bool → BlasInfo
decoded_info n gs = record {
  kind = kind_of (any not gs) (any (λ g. g) gs);
  geometry_count = n;
  origin = 2;
}

unfoldable pub replace_build : ℕ → BlasInfo → BuildLog → BuildLog
replace_build serial b [] = []
replace_build serial b ((n, old) ∷ h) =
    (n, if n == serial then b else old) ∷ replace_build serial b h

unfoldable pub ends_at : ℕ → BuildLog → Bool
ends_at serial [] = false
ends_at serial ((n, b) ∷ []) = n == serial
ends_at serial (e ∷ f ∷ h) = ends_at serial (f ∷ h)

unfoldable pub erase_tlas : ℕ → State → State
erase_tlas dst s = record s {
  last_built = erase dst s.last_built;
  first_built = erase dst s.first_built;
  build_count = erase dst s.build_count;
  tlas = erase dst s.tlas;
  tlas_as_serial = erase dst s.tlas_as_serial;
}

unfoldable pub has_build_of : ℕ → ℕ → State → Bool
has_build_of dst build s = elim (lookup dst s.last_built) [ none ↦ false | some b ↦ b == build ]

-- Not a top-level structure after all.
unfoldable pub unmake_tlas : ℕ → Deserialized → State → State
unmake_tlas dst at s =
    if not at.was_tlas && has_build_of dst at.tlas_serial s then erase_tlas dst s else s

-- A kept build that met an unknown structure is parsed again.
unfoldable pub is_unsettled : BuildInstances → Bool
is_unsettled e = any is_open e.rows && elim e.descs [ [] ↦ false | d ∷ ds ↦ true ]

unfoldable pub reread_build : ℕ → BuildInstances → State → State × BuildInstances
reread_build at e s =
    if not (is_unsettled e)
    then (s, e)
    else if elim (lookup at s.read_of) [ none ↦ false | some r ↦ r == e.build ]
    then (let s' = parse_locked s at e.descs e.as_of in (s', record e { rows = rows_of s' at }))
    else (s, record e { rows = (parse_into s e.descs e.as_of).rows })

unfoldable pub reread_builds : ℕ → List BuildInstances → State → State × List BuildInstances
reread_builds at [] s = (s, [])
reread_builds at (e ∷ h) s =
    let (s1, e') = reread_build at e s in let (s2, h') = reread_builds at h s1 in (s2, e' ∷ h')

unfoldable pub reread_all :
    List (ℕ × List BuildInstances) → State → State × List (ℕ × List BuildInstances)
reread_all [] s = (s, [])
reread_all ((at, h) ∷ m) s =
    let (s1, h') = reread_builds at h s in let (s2, m') = reread_all m s1 in (s2, (at, h') ∷ m')

unfoldable pub reread : State → State
reread s = let (s', m) = reread_all s.inst_hist s in record s' { inst_hist = m }

unfoldable pub apply_bottom : ℕ → Deserialized → BlasInfo → State → State
apply_bottom dst at b s =
    let h = replace_build at.blas_serial b (key_or [] dst s.blas_hist) in
    let s1 = record s {
      blas_hist = set_key dst h s.blas_hist;
      blas = if ends_at at.blas_serial h then set_key dst b s.blas else s.blas;
    } in
    reread (unmake_tlas dst at s1)

-- The entry of the deserialize goes; without entries, so does the structure.
unfoldable pub drop_build : ℕ → ℕ → State → State
drop_build dst serial s = elim (lookup dst s.blas_hist) [
  | none ↦ s
  | some h ↦ elim (keep_if (λ e. not (e.0 == serial)) h) [
    | [] ↦ record s { blas_hist = erase dst s.blas_hist; blas = erase dst s.blas }
    | e ∷ kept ↦ record s { blas_hist = set_key dst (e ∷ kept) s.blas_hist }
  ]
]

unfoldable pub instances_of : Decode → ℕ → ℕ → List Instance
instances_of d i zero = []
instances_of d i (suc left) = d.instance_at i ∷ instances_of d (i + 1) left

unfoldable pub apply_top : ℕ → Deserialized → List Instance → State → State
apply_top dst at ds s =
    let s1 = drop_build dst at.blas_serial s in
    let as_of = key_or 0 dst s1.tlas_as_serial in
    if has_build_of dst at.tlas_serial s1
    then (let s2 = parse_locked s1 dst ds (elim ds [ [] ↦ 0 | d ∷ more ↦ as_of ]) in
        remember dst
          (record { build = at.tlas_serial; as_of = as_of; descs = ds; rows = rows_of s2 dst })
          (record s2 {
            snapshots = set_key dst ds s2.snapshots;
            read_of = set_key dst at.tlas_serial s2.read_of;
          }))
    else remember dst
        (record {
          build = at.tlas_serial;
          as_of = as_of;
          descs = ds;
          rows = (parse_into s1 ds as_of).rows;
        })
        s1

-- The deserialize that this decode is of waits no more.
unfoldable pub settle : ℕ → Deserialized → State → State
settle dst at s = elim (lookup dst s.deserialized) [
  | none ↦ s
  | some d ↦
      if d.tlas_serial == at.tlas_serial
      then record s { deserialized = erase dst s.deserialized }
      else s
]

unfoldable pub apply_level : Sizes → ℕ → Deserialized → Decode → Level → State → State × Outcome
apply_level z dst at d bottom s = elim (geometries_at z d z.header_size d.desc_count) [
  | none ↦ (s, short_geometries)
  | some gs ↦ (apply_bottom dst at (decoded_info d.desc_count gs) s, bottom_decoded d.desc_count)
]
apply_level z dst at d top s =
    if ltb d.size (z.header_size + d.desc_count * z.instance_size)
    then (s, short_instances)
    else (apply_top dst at (instances_of d 0 d.desc_count) s, top_decoded d.desc_count)
apply_level z dst at d neither s = (s, neither_level)

-- `ApplyDecoded`; `none` is a null `data`.
unfoldable pub apply_decoded : Sizes → ℕ → Deserialized → Option Decode → State → State × Outcome
apply_decoded z dst at none s = (s, no_header)
apply_decoded z dst at (some d) s =
    if ltb d.size z.header_size
    then (s, no_header)
    else apply_level z dst at d d.level (settle dst at s)
