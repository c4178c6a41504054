-- ===== src/PsoStream/Total.antt =====
-- proxy/pso_stream.cpp: the walk comes to an end, and what it says of a whole stream.
use dxr11_pascal.Base.{
  ℕ, zero, suc, ◌+◌, ◌≤◌, ◌<◌, ◌≡◌, refl, inl, inr, true, false, not, List, [], ◌∷◌, Option, none,
  some, arith, ltb, leb, ◌==◌, Bool-cases, length, length-drop, drop,
}
use dxr11_pascal.PsoStream.{
  Layout, Sdk, payload_layout, align_up, pointer_size, Parsed, nothing, tag_at, absorb, payload_at,
  step_of, walk_from, walk,
}

align_up-more : (n : ℕ) → n ≤ align_up n 8
unfolding align_up
align_up-more n = omega arith

step_of-positive : (lay : Layout) → (lay.size == 0) ≡ false → 0 < step_of lay
unfolding step_of
step_of-positive lay h = ground (arith, align_up-more (payload_at lay + lay.size))

walk_from-total :
    (sdk : Sdk) (fuel : ℕ) (p : List ℕ) (out : Parsed)
    → length p < fuel
    → (end : Parsed) × (walk_from sdk fuel p out ≡ some end)
unfolding walk_from
walk_from-total sdk zero p out h = ground arith
walk_from-total sdk (suc fuel) p out h =
    let k = sdk.kind_of (tag_at p) in
    let lay = payload_layout sdk k in
    elim (Bool-cases (not (leb pointer_size (length p)))) [
      | inl u ↦ (record out { complete = true }, rw u refl)
      | inr u ↦ elim (Bool-cases (lay.size == 0)) [
        | inl v ↦ (record out { stopped_at = tag_at p }, rw (u, v) refl)
        | inr v ↦ elim (Bool-cases (ltb (length p) (step_of lay))) [
          | inl w ↦ (record out { stopped_at = tag_at p }, rw (u, v, w) refl)
          | inr w ↦
              let less : length (drop (step_of lay) p) < fuel =
                ground (arith, length-drop (step_of lay) p, step_of-positive lay v, h, u) in
              rw (u, v, w)
                (walk_from-total sdk fuel (drop (step_of lay) p)
                  (absorb sdk k (drop (payload_at lay) p) out) less)
        ]
      ]
    ]

-- The walk comes to an end on every stream, whatever its bytes are.
pub walk-total : (sdk : Sdk) (p : Option (List ℕ)) → (out : Parsed) × (walk sdk p ≡ some out)
unfolding walk
walk-total sdk none = (nothing, refl)
walk-total sdk (some []) = (nothing, refl)
walk-total sdk (some (x ∷ p)) =
    walk_from-total sdk (suc (length (x ∷ p))) (x ∷ p) nothing (omega arith)
