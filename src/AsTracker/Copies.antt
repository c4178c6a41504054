-- ===== src/AsTracker/Copies.antt =====
-- proxy/as_tracker.cpp: structures that are copied or deserialized, `NoteCopy`.
use dxr11_pascal.Base.{
  ℕ, ◌+◌, Bool, true, false, ◌&&◌, ◌||◌, [], ◌∷◌, ◌++◌, Option, none, some, ◌==◌, if◌then◌else◌,
  lookup, erase, set_key,
}
use dxr11_pascal.AsTracker.{BlasInfo, no_blas, no_tlas, BuildLog, State, key_or, touch, has_key}
use dxr11_pascal.AsTracker.Parse.{is_unknown}
use dxr11_pascal.AsTracker.Builds.{is_current, advance}
use dxr11_pascal.AsTracker.Reads.{remember_copy}

-- D3D12_RAYTRACING_ACCELERATION_STRUCTURE_COPY_MODE
pub data Mode : Type 0 where
  clone compact decode_for_tools serialize deserialize : Mode

unfoldable pub is_same : Mode → Bool
is_same clone = true
is_same compact = true
is_same _ = false

unfoldable pub last_info : BuildLog → Option BlasInfo
last_info [] = none
last_info ((n, b) ∷ []) = some b
last_info (e ∷ f ∷ h) = last_info (f ∷ h)

unfoldable pub last_info_at : State → ℕ → Option BlasInfo
last_info_at s at = elim (lookup at s.blas_hist) [ none ↦ none | some h ↦ last_info h ]

-- The entry of a structure that is put there without a build.
unfoldable pub put_blas : ℕ → BlasInfo → State → State
put_blas dst b s = record s {
  blas = set_key dst b s.blas;
  as_serial = s.as_serial + 1;
  blas_hist = set_key dst (key_or [] dst s.blas_hist ++ (s.as_serial + 1, b) ∷ []) s.blas_hist;
}

-- What was read of a structure holds no more.
unfoldable pub forget_read : ℕ → State → State
forget_read dst s = record s {
  tlas = set_key dst (record (key_or no_tlas dst s.tlas) { valid = false }) s.tlas;
  read_of = erase dst s.read_of;
}

unfoldable pub drop_contents : ℕ → State → State
drop_contents dst s = record s { snapshots = erase dst s.snapshots; aliases = erase dst s.aliases }

-- The branch of `NoteCopy` on DESERIALIZE: either level, until the decode.
unfoldable pub note_deserialize : ℕ → State → State
note_deserialize dst s =
    let was_tlas = has_key dst s.last_built in
    let s1 = put_blas dst (record no_blas { origin = 2 }) s in
    let s2 = advance dst (record s1 {
      as_serial = s1.as_serial + 1;
      tlas_as_serial = set_key dst (s1.as_serial + 1) s1.tlas_as_serial;
    }) in
    let s3 = forget_read dst (drop_contents dst s2) in
    record s3 {
      deserialized =
          set_key dst
            (record {
              blas_serial = s1.as_serial;
              tlas_serial = s2.tlas_serial;
              was_tlas = was_tlas;
            })
            s3.deserialized;
    }

unfoldable pub copied_info : BlasInfo → BlasInfo
copied_info b = if is_unknown b.kind then b else record b { origin = 1 }

-- The bottom-level part of a copy.
unfoldable pub copy_blas : Option BlasInfo → Bool → ℕ → State → State
copy_blas (some b) from_tlas dst s = put_blas dst (copied_info b) s
copy_blas none from_tlas dst s =
    if from_tlas then s else put_blas dst (record no_blas { origin = 3 }) s

-- A copy whose source was read: the same instances.
unfoldable pub copy_instances : ℕ → ℕ → State → State
copy_instances dst src s =
    let build = key_or 0 dst s.last_built in
    remember_copy dst build src (key_or 0 src s.last_built) (record s {
      tlas = set_key dst (key_or no_tlas src s.tlas) (touch no_tlas src s.tlas);
      read_of = set_key dst build s.read_of;
    })

unfoldable pub copy_snapshot : ℕ → ℕ → State → State
copy_snapshot dst src s = elim (lookup src s.snapshots) [
  | none ↦ s
  | some ds ↦ record s { snapshots = set_key dst ds s.snapshots }
]

-- A copy whose source is still to be read: its alias.
unfoldable pub copy_alias : ℕ → ℕ → State → State
copy_alias dst src s = record s {
  read_of = erase dst s.read_of;
  aliases =
      set_key dst
        (record {
          source = src;
          source_build = key_or 0 src s.last_built;
          build = key_or 0 dst s.last_built;
        })
        s.aliases;
}

-- The top-level part of a copy.
unfoldable pub copy_serial : ℕ → ℕ → State → State
copy_serial dst src s = record s {
  tlas_as_serial = set_key dst (key_or 0 src s.tlas_as_serial) (touch 0 src s.tlas_as_serial);
}

unfoldable pub copy_source : ℕ → ℕ → State → State
copy_source dst src s =
    if is_current s src
    then copy_snapshot dst src (copy_instances dst src s)
    else copy_alias dst src s

unfoldable pub copy_tlas : Bool → ℕ → ℕ → State → State
copy_tlas from_tlas dst src s =
    if from_tlas || has_key dst s.last_built
    then (let s1 = drop_contents dst (advance dst s) in
        if from_tlas then copy_source dst src (copy_serial dst src s1) else forget_read dst s1)
    else s

unfoldable pub copy_structure : Mode → ℕ → ℕ → State → State
copy_structure mode dst src s =
    let from_blas : Option BlasInfo = if is_same mode then last_info_at s src else none in
    let from_tlas = is_same mode && has_key src s.last_built in
    copy_tlas from_tlas dst src (copy_blas from_blas from_tlas dst s)

-- `NoteCopy`
unfoldable pub note_copy : ℕ → ℕ → Mode → State → State
note_copy dst src serialize s = s
note_copy dst src decode_for_tools s = s
note_copy dst src deserialize s = if dst == 0 then s else note_deserialize dst s
note_copy dst src clone s = if dst == 0 then s else copy_structure clone dst src s
note_copy dst src compact s = if dst == 0 then s else copy_structure compact dst src s
