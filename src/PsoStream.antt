-- ===== src/PsoStream.antt =====
-- proxy/pso_stream.cpp: what a pipeline state stream carries.
-- The stream is a list of bytes; a copy out of it (`memcpy`) is the bytes it copies, so a pointer
-- is eight bytes. What the SDK's headers settle, the numbers of the subobject types and the size
-- and alignment of each payload's type, is the record `Sdk`. An alignment is a power of two, for
-- which `AlignUp` rounds up to a multiple.
pub mod Total
pub mod Written
pub mod Reported
mod Tests
use dxr11_pascal.Base.{
  ℕ, zero, suc, ◌+◌, ◌-◌, ◌*◌, ◌/◌, ◌%◌, ◌^◌, Bool, true, false, ◌&&◌, ◌||◌, not, List, [], ◌∷◌,
  ◌++◌, Option, none, some, ltb, leb, ◌==◌, if◌then◌else◌, any, length, drop, take, get_elem?,
}

pub data Stage : Type 0 where
  vs ps ds hs gs cs amplification mesh : Stage

-- The subobject types that `PayloadLayout` knows, and any other.
pub data Kind : Type 0 where
  root_signature stream_output blend sample_mask rasterizer depth_stencil input_layout : Kind
  ib_strip_cut_value primitive_topology render_target_formats depth_stencil_format : Kind
  sample_desc node_mask cached_pso flags depth_stencil1 view_instancing : Kind
  depth_stencil2 rasterizer1 rasterizer2 : Kind
  shader : Stage → Kind
  unknown : Kind

pub record Layout : Type 0 where
  pub size : ℕ
  pub align : ℕ

-- `shader_layout` is that of D3D12_SHADER_BYTECODE, `word_layout` that of UINT.
pub record Sdk : Type 0 where
  pub kind_of : ℕ → Kind
  pub shader_layout : Layout
  pub word_layout : Layout
  pub layout_of : Kind → Layout

unfoldable pub payload_layout : Sdk → Kind → Layout
payload_layout sdk (shader s) = sdk.shader_layout
payload_layout sdk sample_mask = sdk.word_layout
payload_layout sdk node_mask = sdk.word_layout
payload_layout sdk unknown = record { size = 0; align = 0 }
payload_layout sdk k = sdk.layout_of k

unfoldable pub align_up : ℕ → ℕ → ℕ
align_up n a = (n + (a - 1)) / a * a

abbrev pub pointer_size : ℕ
pointer_size = 8

abbrev pub tag_size : ℕ
tag_size = 4

pub record Parsed : Type 0 where
  pub complete : Bool
  pub stopped_at : ℕ
  pub root_signature_bytes : List ℕ
  pub node_mask_bytes : List ℕ
  pub cached_pso_bytes : List ℕ
  pub flags_bytes : List ℕ
  pub cs_bytes : List ℕ
  pub has_graphics_stage : Bool
  pub shaders : List (Stage × List ℕ)

abbrev pub nothing : Parsed
nothing = record {
  complete = false;
  stopped_at = 0;
  root_signature_bytes = [];
  node_mask_bytes = [];
  cached_pso_bytes = [];
  flags_bytes = [];
  cs_bytes = [];
  has_graphics_stage = false;
  shaders = [];
}

-- The tag at the front of what is left: four bytes, the lowest first.
unfoldable pub tag_at : List ℕ → ℕ
tag_at (a ∷ b ∷ c ∷ d ∷ rest) = a + 256 * b + 65536 * c + 16777216 * d
tag_at _ = 0

-- Whether a copied D3D12_SHADER_BYTECODE has code: its pointer is not null.
unfoldable pub has_code : List ℕ → Bool
has_code bc = any (λ b. not (b == 0)) (take pointer_size bc)

unfoldable pub add_shader : Stage → List ℕ → List (Stage × List ℕ) → List (Stage × List ℕ)
add_shader s bc shaders =
    if ltb (length shaders) 8 && has_code bc then shaders ++ (s, bc) ∷ [] else shaders

-- The switch of `Walk` on a known type; `body` is the stream from the payload on.
unfoldable pub absorb : Sdk → Kind → List ℕ → Parsed → Parsed
absorb sdk root_signature body out = record out { root_signature_bytes = take pointer_size body }
absorb sdk node_mask body out = record out { node_mask_bytes = take sdk.word_layout.size body }
absorb sdk cached_pso body out = record out {
  cached_pso_bytes = take (sdk.layout_of cached_pso).size body;
}
absorb sdk flags body out = record out { flags_bytes = take (sdk.layout_of flags).size body }
absorb sdk (shader cs) body out =
    let bc = take sdk.shader_layout.size body in
    record out { cs_bytes = bc; shaders = add_shader cs bc out.shaders }
absorb sdk (shader s) body out =
    let bc = take sdk.shader_layout.size body in
    record out { has_graphics_stage = true; shaders = add_shader s bc out.shaders }
absorb sdk k body out = out

unfoldable pub payload_at : Layout → ℕ
payload_at lay = align_up tag_size lay.align

unfoldable pub step_of : Layout → ℕ
step_of lay = align_up (payload_at lay + lay.size) pointer_size

-- The loop of `Walk` on fuel; `none` is out of fuel.
unfoldable pub walk_from : Sdk → ℕ → List ℕ → Parsed → Option Parsed
walk_from sdk zero p out = none
walk_from sdk (suc fuel) p out =
    let k = sdk.kind_of (tag_at p) in
    let lay = payload_layout sdk k in
    let rest =
      walk_from sdk fuel (drop (step_of lay) p) (absorb sdk k (drop (payload_at lay) p) out) in
    if not (leb pointer_size (length p))
    then some (record out { complete = true })
    else if lay.size == 0
    then some (record out { stopped_at = tag_at p })
    else if ltb (length p) (step_of lay)
    then some (record out { stopped_at = tag_at p })
    else rest

-- `Walk`; `none` is a null description or a null stream. A round takes at least a byte, so that
-- one round for each byte, and the last test, is enough fuel.
unfoldable pub walk : Sdk → Option (List ℕ) → Option Parsed
walk sdk none = some nothing
walk sdk (some []) = some nothing
walk sdk (some p) = walk_from sdk (suc (length p)) p nothing

-- `IsComputeOnly`
unfoldable pub is_compute_only : Parsed → Bool
is_compute_only out = not out.has_graphics_stage && has_code out.cs_bytes
