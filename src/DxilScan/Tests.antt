-- ===== src/DxilScan/Tests.antt =====
-- proxy/dxil_scan.cpp on a container of one part, that says the shader uses RayQuery.
use dxr11_pascal.Base.{
  ℕ, zero, suc, ◌+◌, ◌*◌, ◌^◌, ◌<◌, ◌≡◌, refl, true, List, [], ◌∷◌, none, some, ltb, if◌then◌else◌,
  get_elem?, arith,
}
use dxr11_pascal.DxilScan.{
  Memory, header_size, count_field, read, part_flags, scan_from, feature_flags, uses_ray_query,
}
use dxr11_pascal.DxilScan.Bounds.{Agree, feature_flags-Agree, HasFlags, feature_flags-HasFlags}

-- Runs every function of the module.
evaluates : ℕ
unfolding read part_flags scan_from feature_flags uses_ray_query
evaluates = 0

abbrev zeros : ℕ → List ℕ → List ℕ
zeros zero rest = rest
zeros (suc n) rest = 0 ∷ zeros n rest

abbrev container : List ℕ
container =
    68
    ∷ 88
    ∷ 66
    ∷ 67
    ∷ zeros 16 (
        1
        ∷ 0
        ∷ 0
        ∷ 0
        ∷ 52
        ∷ 0
        ∷ 0
        ∷ 0
        ∷ 1
        ∷ 0
        ∷ 0
        ∷ 0
        ∷ 36
        ∷ 0
        ∷ 0
        ∷ 0
        ∷ 83
        ∷ 70
        ∷ 73
        ∷ 48
        ∷ 8
        ∷ 0
        ∷ 0
        ∷ 0
        ∷ 0
        ∷ 0
        ∷ 16
        ∷ zeros 5 [])

abbrev sample : Memory
sample i = elim (get_elem? container i) [ none ↦ 0 | some b ↦ b ]

sample_flags : feature_flags (some sample) 52 ≡ 2 ^ 20
unfolding evaluates
sample_flags = refl

sample_uses : uses_ray_query (some sample) 52 ≡ true
unfolding evaluates
sample_uses = refl

-- A caller's size that is too small.
sample_cut : feature_flags (some sample) 51 ≡ 0
unfolding evaluates
sample_cut = refl

sample_positive : 0 < feature_flags (some sample) 52
sample_positive = omega (arith, sample_flags)

-- Memory that differs past the end.
abbrev other_tail : Memory
other_tail i = if ltb i 52 then sample i else 7

other_tail-Agree : Agree 52 sample other_tail
other_tail-Agree i h = ground arith

feature_flags-Agree_example : feature_flags (some sample) 52 ≡ feature_flags (some other_tail) 52
feature_flags-Agree_example = feature_flags-Agree sample other_tail 52 other_tail-Agree

feature_flags-HasFlags_example :
    (k : ℕ) × (k < read sample 4 count_field)
    × HasFlags sample 52 (read sample 4 (header_size + k * 4)) (feature_flags (some sample) 52)
feature_flags-HasFlags_example = feature_flags-HasFlags sample 52 sample_positive
