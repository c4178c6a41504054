-- ===== src/AsTracker/Parse.antt =====
-- proxy/as_tracker.cpp: `ParseLocked`, what a scene's instances say of its hit group records.
use dxr11_pascal.Base.{
  ℕ, zero, suc, ◌+◌, ◌%◌, Bool, true, false, ◌&&◌, ◌||◌, List, [], ◌∷◌, ◌++◌, Option, none, some,
  ltb, leb, ◌==◌, if◌then◌else◌, length, get_elem?, lookup, set_key, put_at, copies, max,
}
use dxr11_pascal.TraceArgs.{insert_pair}
use dxr11_pascal.AsTracker.{
  word, Kind, unknown, triangles, procedural, mixed, BlasInfo, Reach, reach_none, reach_or,
  RecordConstants, no_constants, Row, no_row, TlasInfo, no_tlas, Instance, BuildLog, State, has_key,
}

-- `BlasAtLocked`: the latest build recorded before `as_of`.
unfoldable pub build_before : ℕ → BuildLog → Option BlasInfo
build_before as_of [] = none
build_before as_of ((n, b) ∷ h) =
    let later = build_before as_of h in
    elim later [ some f ↦ some f | none ↦ if ltb n as_of then some b else none ]

unfoldable pub blas_at : State → ℕ → ℕ → Option BlasInfo
blas_at s blas as_of = elim (lookup blas s.blas_hist) [
  | none ↦ none
  | some h ↦ build_before as_of h
]

unfoldable pub geometries_of : Option BlasInfo → ℕ
geometries_of none = 1
geometries_of (some b) = if b.geometry_count == 0 then 1 else b.geometry_count

-- What a structure's address stands for, as of the build that is parsed.
abbrev pub Known : Type 0
Known = ℕ → Option BlasInfo

-- The first loop: the greatest contribution, and the end of the records.
unfoldable pub greatest_contribution : List Instance → ℕ → ℕ
greatest_contribution [] m = m
greatest_contribution (d ∷ ds) m =
    greatest_contribution ds (if d.structure == 0 then m else max m d.contribution)

unfoldable pub records_end : Known → List Instance → ℕ → ℕ
records_end known [] n = n
records_end known (d ∷ ds) n = records_end known ds (
    if d.structure == 0
    then n
    else max n ((d.contribution + geometries_of (known d.structure)) % word))

unfoldable pub kind_reach : Kind → Reach
kind_reach unknown = reach_none
kind_reach triangles = record { has_triangles = true; has_procedural = false }
kind_reach procedural = record { has_triangles = false; has_procedural = true }
kind_reach mixed = record { has_triangles = true; has_procedural = true }

unfoldable pub is_unknown : Kind → Bool
is_unknown unknown = true
is_unknown _ = false

unfoldable pub same_constants : RecordConstants → ℕ → ℕ → Bool
same_constants rc gi ic = rc.geometry_index == gi && rc.instance_contribution == ic

-- One record of one instance: its constants, or the conflict.
unfoldable pub set_constants : ℕ → ℕ → ℕ → TlasInfo → TlasInfo
set_constants slot gi ic t = elim (get_elem? t.constants slot) [
  | none ↦ t
  | some rc ↦
      if rc.assigned
      then (if same_constants rc gi ic then t else record t {
        constants_conflict = true;
        conflict_slot = if t.constants_conflict then t.conflict_slot else slot;
      })
      else record t {
        constants =
            put_at slot
              (record { geometry_index = gi; instance_contribution = ic; assigned = true })
              t.constants;
      }
]

unfoldable pub add_reach : ℕ → Reach → TlasInfo → TlasInfo
add_reach slot bits t = elim (get_elem? t.reach slot) [
  | none ↦ t
  | some r ↦ record t { reach = put_at slot (reach_or r bits) t.reach }
]

-- The loop over the geometries of an instance, `left` of them from the `gi`-th on.
unfoldable pub fill_slots : ℕ → Reach → ℕ → ℕ → TlasInfo → TlasInfo
fill_slots ic bits gi zero t = t
fill_slots ic bits gi (suc left) t =
    let slot = (ic + gi) % word in
    let rest =
      fill_slots ic bits (gi + 1) left (set_constants slot gi ic (add_reach slot bits t)) in
    if leb t.record_count slot then t else rest

unfoldable pub add_row : Row → TlasInfo → TlasInfo
add_row r t = record t { rows = t.rows ++ r ∷ [] }

unfoldable pub note_unknown : TlasInfo → TlasInfo
note_unknown t = record t { unknown_blas = t.unknown_blas + 1 }

-- The flags, row and class of an instance whose structure was seen being built.
unfoldable pub note_known : ℕ → BlasInfo → TlasInfo → TlasInfo
note_known ic b t =
    let bits = kind_reach b.kind in
    let geoms = geometries_of (some b) in
    record t {
      any_triangles = t.any_triangles || bits.has_triangles;
      any_procedural = t.any_procedural || bits.has_procedural;
      unknown_blas = if is_unknown b.kind then t.unknown_blas + 1 else t.unknown_blas;
      classes = t.classes ++ (ic, geoms) ∷ [];
      rows =
          t.rows
          ++ record {
            active = true;
            contribution = ic;
            geometries = if is_unknown b.kind then 0 else geoms;
            reach = bits;
          }
            ∷ [];
    }

unfoldable pub add_instance : Known → Instance → TlasInfo → TlasInfo
add_instance known d t = if d.structure == 0 then add_row no_row t else elim (known d.structure) [
  | none ↦ note_unknown (
      add_row
        (record {
          active = true;
          contribution = d.contribution;
          geometries = 0;
          reach = reach_none;
        })
        t)
  | some b ↦
      fill_slots d.contribution (kind_reach b.kind) 0 (geometries_of (some b))
        (note_known d.contribution b t)
]

unfoldable pub add_instances : Known → List Instance → TlasInfo → TlasInfo
add_instances known [] t = t
add_instances known (d ∷ ds) t = add_instances known ds (add_instance known d t)

-- `std::sort` and `std::unique` on the classes.
unfoldable pub sort_classes : List (ℕ × ℕ) → List (ℕ × ℕ)
sort_classes [] = []
sort_classes (c ∷ cs) = insert_pair c (sort_classes cs)

unfoldable pub record_count_of : Known → List Instance → ℕ
record_count_of known ds = let n = records_end known ds 0 in if n == 0 then 1 else n

-- The structure as it stands before the second loop.
unfoldable pub parse_start : Known → List Instance → TlasInfo
parse_start known ds = record no_tlas {
  valid = true;
  instance_count = length ds;
  max_contribution = greatest_contribution ds 0;
  record_count = record_count_of known ds;
  reach = copies (record_count_of known ds) reach_none;
  constants = copies (record_count_of known ds) no_constants;
}

-- `ParseLocked` with `into`: what is written there.
unfoldable pub parse : Known → List Instance → TlasInfo
parse known ds =
    let t = add_instances known ds (parse_start known ds) in
    record t { classes = sort_classes t.classes }

-- The serial that a structure's instances are parsed as of; 0 stands for now.
unfoldable pub as_of_or_now : State → ℕ → ℕ
as_of_or_now s as_of = if as_of == 0 then s.as_serial + 1 else as_of

unfoldable pub parse_into : State → List Instance → ℕ → TlasInfo
parse_into s ds as_of = parse (λ a. blas_at s a (as_of_or_now s as_of)) ds

-- `ParseLocked` without `into`.
unfoldable pub parse_locked : State → ℕ → List Instance → ℕ → State
parse_locked s at ds as_of =
    let t = parse_into s ds as_of in
    let sum = s.summary in
    record s {
      tlas = set_key at t s.tlas;
      summary = if has_key at s.tlas then sum else record sum {
        tlas_read = sum.tlas_read + 1;
        max_contribution_read = max sum.max_contribution_read t.max_contribution;
      };
    }
