-- ===== src/PsoStream/Tests.antt =====
-- proxy/pso_stream.cpp on the stream of a compute pipeline: a root signature, a node mask and a
-- compute shader.
use dxr11_pascal.Base.{ℕ, ◌≡◌, refl, true, List, [], ◌∷◌, some, arith, ◌==◌, if◌then◌else◌}
use dxr11_pascal.PsoStream.{
  Kind, root_signature, node_mask, shader, unknown, cs, Sdk, payload_layout, align_up, Parsed,
  nothing, tag_at, has_code, add_shader, absorb, payload_at, step_of, walk_from, walk,
  is_compute_only,
}
use dxr11_pascal.PsoStream.Total.{walk-total}
use dxr11_pascal.PsoStream.Reported.{IsReport, walk-IsReport}
use dxr11_pascal.PsoStream.Written.{Written, stream, absorb_all}

-- Runs every function of the module.
evaluates : ℕ
unfolding payload_layout align_up tag_at has_code add_shader absorb payload_at step_of walk_from
    walk is_compute_only
evaluates = 0

abbrev sample_kind : ℕ → Kind
sample_kind n =
    if n == 0
    then root_signature
    else if n == 6
    then shader cs
    else if n == 17
    then node_mask
    else unknown

abbrev sample_sdk : Sdk
sample_sdk = record {
  kind_of = sample_kind;
  shader_layout = record { size = 16; align = 8 };
  word_layout = record { size = 4; align = 4 };
  layout_of = λ k. record { size = 8; align = 8 };
}

abbrev signature : Written
signature = record {
  b0 = 0;
  b1 = 0;
  b2 = 0;
  b3 = 0;
  pad = 0 ∷ 0 ∷ 0 ∷ 0 ∷ [];
  payload = 1 ∷ 2 ∷ 3 ∷ 4 ∷ 5 ∷ 6 ∷ 7 ∷ 8 ∷ [];
  tail = [];
}

abbrev mask : Written
mask = record { b0 = 17; b1 = 0; b2 = 0; b3 = 0; pad = []; payload = 1 ∷ 0 ∷ 0 ∷ 0 ∷ []; tail = [] }

abbrev compute : Written
compute = record {
  b0 = 6;
  b1 = 0;
  b2 = 0;
  b3 = 0;
  pad = 0 ∷ 0 ∷ 0 ∷ 0 ∷ [];
  payload = 9 ∷ 0 ∷ 0 ∷ 0 ∷ 0 ∷ 0 ∷ 0 ∷ 0 ∷ 5 ∷ 0 ∷ 0 ∷ 0 ∷ 0 ∷ 0 ∷ 0 ∷ 0 ∷ [];
  tail = [];
}

abbrev written : List Written
written = mask ∷ compute ∷ []

written_is_compute :
    walk sample_sdk (some (stream (signature ∷ written)))
    ≡ some (record (absorb_all sample_sdk (signature ∷ written) nothing) { complete = true })
unfolding evaluates
written_is_compute = refl

compute_only : is_compute_only (absorb_all sample_sdk (signature ∷ written) nothing) ≡ true
unfolding evaluates
compute_only = refl

walk-total_example :
    (out : Parsed) × (walk sample_sdk (some (1 ∷ 2 ∷ 3 ∷ 4 ∷ 5 ∷ 6 ∷ 7 ∷ 8 ∷ 9 ∷ [])) ≡ some out)
walk-total_example = walk-total sample_sdk (some (1 ∷ 2 ∷ 3 ∷ 4 ∷ 5 ∷ 6 ∷ 7 ∷ 8 ∷ 9 ∷ []))

walk-IsReport_example :
    (res : Parsed) × (walk sample_sdk (some (stream (signature ∷ written))) ≡ some res)
    × (res.complete ≡ true)
    × IsReport sample_sdk (signature ∷ written) nothing res
unfolding evaluates
walk-IsReport_example = walk-IsReport sample_sdk signature written refl (
  (omega arith, omega arith, refl, omega arith, refl, refl, omega arith),
  (
    (omega arith, omega arith, refl, omega arith, refl, refl, omega arith),
    ((omega arith, omega arith, refl, omega arith, refl, refl, omega arith), tt),
  ),
)
