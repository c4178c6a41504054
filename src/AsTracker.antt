-- ===== src/AsTracker.antt =====
-- proxy/as_tracker.h and proxy/as_tracker.cpp: what is known of the acceleration structures that
-- the application builds, and the hit group records that a scene reaches.
-- GPU addresses, buffers, lists and queues are numbers, 0 the null pointer; an instance description
-- is its structure's address and its contribution. The maps are walked in the order of their keys.
-- Serials are 64 bits wide and do not wrap; a record's index is 32 bits wide (`word`). The
-- explanations that go to the log, and the log's counters, are not modelled.
pub mod Parse
pub mod Builds
pub mod Reads
pub mod Queries
pub mod Copies
pub mod Decodes
pub mod Records
pub mod Classes
pub mod Slots
pub mod Answers
pub mod Merging
pub mod Table
pub mod Labels
pub mod History
pub mod Remember
pub mod Kept
pub mod Calls
pub mod Reread
pub mod Steps
pub mod Freshness
pub mod Waits
pub mod Taken
pub mod Brought
pub mod Cloned
pub mod Pairing
mod Tests
use dxr11_pascal.Base.{
  ℕ, ◌+◌, ◌^◌, Bool, true, false, ◌||◌, List, [], ◌∷◌, Option, none, some, lookup, set_key,
  if◌then◌else◌, leb, ◌&&◌,
}

abbrev pub word : ℕ
word = 2 ^ 32

pub data Kind : Type 0 where
  unknown triangles procedural mixed : Kind

pub record BlasInfo : Type 0 where
  pub kind : Kind
  pub geometry_count : ℕ
  pub origin : ℕ

abbrev pub no_blas : BlasInfo
no_blas = record { kind = unknown; geometry_count = 0; origin = 0 }

-- `Reach`, a set of two flags.
pub record Reach : Type 0 where
  pub has_triangles : Bool
  pub has_procedural : Bool

abbrev pub reach_none : Reach
reach_none = record { has_triangles = false; has_procedural = false }

abbrev pub reach_or : Reach → Reach → Reach
reach_or a b = record {
  has_triangles = a.has_triangles || b.has_triangles;
  has_procedural = a.has_procedural || b.has_procedural;
}

pub record RecordConstants : Type 0 where
  pub geometry_index : ℕ
  pub instance_contribution : ℕ
  pub assigned : Bool

abbrev pub no_constants : RecordConstants
no_constants = record { geometry_index = 0; instance_contribution = 0; assigned = false }

pub record Row : Type 0 where
  pub active : Bool
  pub contribution : ℕ
  pub geometries : ℕ
  pub reach : Reach

abbrev pub no_row : Row
no_row = record { active = false; contribution = 0; geometries = 0; reach = reach_none }

pub record TlasInfo : Type 0 where
  pub valid : Bool
  pub instance_count : ℕ
  pub max_contribution : ℕ
  pub record_count : ℕ
  pub constants : List RecordConstants
  pub constants_conflict : Bool
  pub conflict_slot : ℕ
  pub any_triangles : Bool
  pub any_procedural : Bool
  pub unknown_blas : ℕ
  pub reach : List Reach
  pub classes : List (ℕ × ℕ)
  pub rows : List Row

abbrev pub no_tlas : TlasInfo
no_tlas = record {
  valid = false;
  instance_count = 0;
  max_contribution = 0;
  record_count = 0;
  constants = [];
  constants_conflict = false;
  conflict_slot = 0;
  any_triangles = false;
  any_procedural = false;
  unknown_blas = 0;
  reach = [];
  classes = [];
  rows = [];
}

-- D3D12_RAYTRACING_INSTANCE_DESC, as far as it is read.
pub record Instance : Type 0 where
  pub structure : ℕ
  pub contribution : ℕ

pub record Alias : Type 0 where
  pub source : ℕ
  pub source_build : ℕ
  pub build : ℕ

-- The builds of one address, by serial, oldest first.
abbrev pub BuildLog : Type 0
BuildLog = List (ℕ × BlasInfo)

pub record PendingRead : Type 0 where
  pub tlas : ℕ
  pub readback : ℕ
  pub count : ℕ
  pub build : ℕ
  pub as_of : ℕ
  pub owner : ℕ
  pub queue : ℕ
  pub fence_value : ℕ

pub record QueueFence : Type 0 where
  pub created : Bool
  pub value : ℕ

pub record BuildInstances : Type 0 where
  pub build : ℕ
  pub as_of : ℕ
  pub descs : List Instance
  pub rows : List Row

pub record Deserialized : Type 0 where
  pub blas_serial : ℕ
  pub tlas_serial : ℕ
  pub was_tlas : Bool

pub record Summary : Type 0 where
  pub blas_count : ℕ
  pub triangle_count : ℕ
  pub procedural_count : ℕ
  pub mixed_count : ℕ
  pub tlas_count : ℕ
  pub tlas_resolved : ℕ
  pub tlas_read : ℕ
  pub max_contribution_read : ℕ
  pub saw_top_level : Bool

-- The globals of the module. `fences` is total: a missing entry reads as one whose fence was not
-- created.
pub record State : Type 0 where
  pub blas : List (ℕ × BlasInfo)
  pub as_serial : ℕ
  pub blas_hist : List (ℕ × BuildLog)
  pub tlas_as_serial : List (ℕ × ℕ)
  pub aliases : List (ℕ × Alias)
  pub tlas : List (ℕ × TlasInfo)
  pub tlas_serial : ℕ
  pub last_built : List (ℕ × ℕ)
  pub last_asked : List (ℕ × ℕ)
  pub first_built : List (ℕ × ℕ)
  pub build_count : List (ℕ × ℕ)
  pub read_of : List (ℕ × ℕ)
  pub pending : List PendingRead
  pub fences : ℕ → QueueFence
  pub snapshots : List (ℕ × List Instance)
  pub inst_hist : List (ℕ × List BuildInstances)
  pub deserialized : List (ℕ × Deserialized)
  pub summary : Summary

-- `operator[]` read: the entry, made with a default when it is missing.
unfoldable pub key_or {ℓ} : {V : Type ℓ} → V → ℕ → List (ℕ × V) → V
key_or d k m = elim (lookup k m) [ none ↦ d | some v ↦ v ]

unfoldable pub touch {ℓ} : {V : Type ℓ} → V → ℕ → List (ℕ × V) → List (ℕ × V)
touch d k m = elim (lookup k m) [ none ↦ set_key k d m | some v ↦ m ]

unfoldable pub has_key {ℓ} : {V : Type ℓ} → ℕ → List (ℕ × V) → Bool
has_key k m = elim (lookup k m) [ none ↦ false | some v ↦ true ]
