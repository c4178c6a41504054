-- ===== src/PsoStream/Written.antt =====
-- proxy/pso_stream.cpp: a stream written the way the CD3DX12 helpers write it, and its walk.
use mathlib.Core.List.{append_assoc}
use native.Mathlib.Nat.{add-mul, div-add-mod', div-eq_of_lt-le}
use dxr11_pascal.Base.{
  ℕ, zero, suc, ◌+◌, ◌*◌, ◌/◌, ◌%◌, ◌≤◌, ◌<◌, ◌≡◌, refl, sym, ap, ◌∙◌, true, false, not, List, [],
  ◌∷◌, ◌++◌, some, arith, ltb, leb, ◌==◌, length, length-append, drop, take, All,
}
use dxr11_pascal.PsoStream.{
  Kind, root_signature, stream_output, blend, sample_mask, rasterizer, depth_stencil, input_layout,
  ib_strip_cut_value, primitive_topology, render_target_formats, depth_stencil_format, sample_desc,
  node_mask, cached_pso, flags, depth_stencil1, view_instancing, depth_stencil2, rasterizer1,
  rasterizer2, shader, unknown, vs, ps, ds, hs, gs, cs, amplification, mesh, Layout, Sdk,
  payload_layout, align_up, pointer_size, tag_size, Parsed, nothing, tag_at, absorb, payload_at,
  step_of, walk_from, walk,
}

-- A subobject as it is written: the four bytes of its tag, its payload, and the bytes between
-- and after them.
pub record Written : Type 0 where
  pub b0 : ℕ
  pub b1 : ℕ
  pub b2 : ℕ
  pub b3 : ℕ
  pub pad : List ℕ
  pub payload : List ℕ
  pub tail : List ℕ

abbrev pub front : Written → List ℕ
front w = w.b0 ∷ w.b1 ∷ w.b2 ∷ w.b3 ∷ w.pad

abbrev pub bytes : Written → List ℕ
bytes w = front w ++ (w.payload ++ w.tail)

abbrev pub stream : List Written → List ℕ
stream [] = []
stream (w ∷ ws) = bytes w ++ stream ws

abbrev pub kind : Sdk → Written → Kind
kind sdk w = sdk.kind_of (w.b0 + 256 * w.b1 + 65536 * w.b2 + 16777216 * w.b3)

-- The payload's type is known and has a size and an alignment; the payload has that size and
-- stands at the first place after the tag that is a multiple of its alignment; and the whole is
-- padded to the next multiple of a pointer's size.
abbrev pub IsWritten : Sdk → Written → Type 0
IsWritten sdk w =
    let lay = payload_layout sdk (kind sdk w) in
    (0 < lay.size)
    × (0 < lay.align)
    × (length (front w) % lay.align ≡ 0)
    × (length w.pad < lay.align)
    × (length w.payload ≡ lay.size)
    × (length (bytes w) % 8 ≡ 0)
    × (length w.tail < 8)

-- What the SDK's headers say of a pointer.
abbrev pub IsSdk : Sdk → Type 0
IsSdk sdk = (sdk.layout_of root_signature).size ≡ pointer_size

abbrev pub absorb_all : Sdk → List Written → Parsed → Parsed
absorb_all sdk [] out = out
absorb_all sdk (w ∷ ws) out = absorb_all sdk ws (absorb sdk (kind sdk w) w.payload out)

drop-append {ℓ} : {A : Type ℓ} (n : ℕ) (xs ys : List A) → length xs ≡ n → drop n (xs ++ ys) ≡ ys
drop-append zero [] ys h = refl
drop-append zero (x ∷ xs) ys h = ground arith
drop-append (suc n) [] ys h = ground arith
drop-append (suc n) (x ∷ xs) ys h = drop-append n xs ys (omega (arith, h))

pub take-append {ℓ} :
    {A : Type ℓ} (n : ℕ) (xs ys : List A) → length xs ≡ n → take n (xs ++ ys) ≡ take n xs
take-append zero xs ys h = refl
take-append (suc n) [] ys h = ground arith
take-append (suc n) (x ∷ xs) ys h = ap (λ l. x ∷ l) (take-append n xs ys (omega (arith, h)))

-- What stands after the payload does not count.
absorb-append :
    (sdk : Sdk) (k : Kind) (xs ys : List ℕ) (out : Parsed)
    → IsSdk sdk
    → length xs ≡ (payload_layout sdk k).size
    → absorb sdk k (xs ++ ys) out ≡ absorb sdk k xs out
unfolding absorb payload_layout
absorb-append sdk root_signature xs ys out is h = rw (take-append pointer_size xs ys (h ∙ is)) refl
absorb-append sdk stream_output xs ys out is h = refl
absorb-append sdk blend xs ys out is h = refl
absorb-append sdk sample_mask xs ys out is h = refl
absorb-append sdk rasterizer xs ys out is h = refl
absorb-append sdk depth_stencil xs ys out is h = refl
absorb-append sdk input_layout xs ys out is h = refl
absorb-append sdk ib_strip_cut_value xs ys out is h = refl
absorb-append sdk primitive_topology xs ys out is h = refl
absorb-append sdk render_target_formats xs ys out is h = refl
absorb-append sdk depth_stencil_format xs ys out is h = refl
absorb-append sdk sample_desc xs ys out is h = refl
absorb-append sdk node_mask xs ys out is h = rw (take-append sdk.word_layout.size xs ys h) refl
absorb-append sdk cached_pso xs ys out is h =
    rw (take-append (sdk.layout_of cached_pso).size xs ys h) refl
absorb-append sdk flags xs ys out is h = rw (take-append (sdk.layout_of flags).size xs ys h) refl
absorb-append sdk depth_stencil1 xs ys out is h = refl
absorb-append sdk view_instancing xs ys out is h = refl
absorb-append sdk depth_stencil2 xs ys out is h = refl
absorb-append sdk rasterizer1 xs ys out is h = refl
absorb-append sdk rasterizer2 xs ys out is h = refl
absorb-append sdk (shader vs) xs ys out is h = rw (take-append sdk.shader_layout.size xs ys h) refl
absorb-append sdk (shader ps) xs ys out is h = rw (take-append sdk.shader_layout.size xs ys h) refl
absorb-append sdk (shader ds) xs ys out is h = rw (take-append sdk.shader_layout.size xs ys h) refl
absorb-append sdk (shader hs) xs ys out is h = rw (take-append sdk.shader_layout.size xs ys h) refl
absorb-append sdk (shader gs) xs ys out is h = rw (take-append sdk.shader_layout.size xs ys h) refl
absorb-append sdk (shader cs) xs ys out is h = rw (take-append sdk.shader_layout.size xs ys h) refl
absorb-append sdk (shader amplification) xs ys out is h =
    rw (take-append sdk.shader_layout.size xs ys h) refl
absorb-append sdk (shader mesh) xs ys out is h =
    rw (take-append sdk.shader_layout.size xs ys h) refl
absorb-append sdk unknown xs ys out is h = refl

-- Rounding up gives the first multiple that is not below.
align_up_lem : (n a m : ℕ) → 0 < a → m % a ≡ 0 → n ≤ m → m < n + a → align_up n a ≡ m
unfolding align_up
align_up_lem n a m pos multiple low high =
    let k = m / a in
    let whole : k * a ≡ m = omega (arith, div-add-mod' m a, multiple) in
    let next : (k + 1) * a ≡ k * a + a = omega (arith, add-mul k 1 a) in
    ap (λ x. x * a) (div-eq_of_lt-le a (omega (arith, whole)) (omega (arith, whole, next))) ∙ whole

front_lem :
    (sdk : Sdk) (w : Written)
    → IsWritten sdk w
    → payload_at (payload_layout sdk (kind sdk w)) ≡ length (front w)
unfolding payload_at
front_lem sdk w (some_size, some_align, at, pad, size, step, tail) =
    align_up_lem tag_size _ (length (front w)) some_align at (omega arith) (omega (arith, pad))

bytes_lem :
    (sdk : Sdk) (w : Written)
    → IsWritten sdk w
    → step_of (payload_layout sdk (kind sdk w)) ≡ length (bytes w)
unfolding step_of
bytes_lem sdk w good =
    let (some_size, some_align, at, pad, size, step, tail) = good in
    let all = length-append (front w) (w.payload ++ w.tail) in
    let body = length-append w.payload w.tail in
    let before = front_lem sdk w good in
    align_up_lem _ 8 (length (bytes w)) (omega arith) step
      (omega (arith, all, body, before, size, tail)) (omega (arith, all, body, before, size, tail))

step_of-eight : (lay : Layout) → 0 < lay.size → 8 ≤ step_of lay
unfolding step_of align_up
step_of-eight lay h = omega arith

walk_from_nil :
    (sdk : Sdk) (fuel : ℕ) (out : Parsed)
    → walk_from sdk (suc fuel) [] out ≡ some (record out { complete = true })
unfolding walk_from
walk_from_nil sdk fuel out = refl

-- One round on a written subobject.
absorb-body :
    (sdk : Sdk) (w : Written) (rest : List ℕ) (out : Parsed)
    → IsSdk sdk
    → IsWritten sdk w
    → absorb sdk
        (kind sdk w)
        (drop (payload_at (payload_layout sdk (kind sdk w))) (bytes w ++ rest))
        out
      ≡ absorb sdk (kind sdk w) w.payload out
absorb-body sdk w rest out is good =
    let (some_size, some_align, multiple, pad, size, whole, tail) = good in
    let at = sym (front_lem sdk w good) in
    let k = kind sdk w in
    let n = payload_at (payload_layout sdk k) in
    let split =
      ap (drop n) (append_assoc (front w) (w.payload ++ w.tail) rest)
      ∙ drop-append n (front w) ((w.payload ++ w.tail) ++ rest) at
      ∙ append_assoc w.payload w.tail rest in
    ap (λ body. absorb sdk k body out) split
    ∙ absorb-append sdk k w.payload (w.tail ++ rest) out is size

round_lem :
    (sdk : Sdk) (fuel : ℕ) (w : Written) (rest : List ℕ) (out : Parsed)
    → IsSdk sdk
    → IsWritten sdk w
    → walk_from sdk (suc fuel) (bytes w ++ rest) out
      ≡ walk_from sdk fuel rest (absorb sdk (kind sdk w) w.payload out)
unfolding walk_from tag_at
round_lem sdk fuel w rest out is good =
    let some_size = good.0 in
    let step = sym (bytes_lem sdk w good) in
    let lay = payload_layout sdk (kind sdk w) in
    let all = length-append (bytes w) rest in
    let eight = step_of-eight lay some_size in
    let enough : not (leb pointer_size (length (bytes w ++ rest))) ≡ false = ground arith in
    let known : (lay.size == 0) ≡ false = ground arith in
    let inside : ltb (length (bytes w ++ rest)) (step_of lay) ≡ false = ground arith in
    rw (enough, known, inside)
      (ap
          (λ p.
            walk_from sdk fuel p
              (absorb sdk (kind sdk w) (drop (payload_at lay) (bytes w ++ rest)) out))
          (drop-append (step_of lay) (bytes w) rest step)
        ∙ ap (walk_from sdk fuel rest) (absorb-body sdk w rest out is good))

walk_from-stream :
    (sdk : Sdk) (fuel : ℕ) (ws : List Written) (out : Parsed)
    → IsSdk sdk
    → All (IsWritten sdk) ws
    → length (stream ws) < fuel
    → walk_from sdk fuel (stream ws) out ≡ some (record (absorb_all sdk ws out) { complete = true })
walk_from-stream sdk zero ws out is all h = ground arith
walk_from-stream sdk (suc fuel) [] out is all h = walk_from_nil sdk fuel out
walk_from-stream sdk (suc fuel) (w ∷ ws) out is all h =
    round_lem sdk fuel w (stream ws) out is all.0
    ∙ walk_from-stream sdk fuel ws (absorb sdk (kind sdk w) w.payload out) is all.1
        (omega (arith, h, length-append (bytes w) (stream ws)))

-- A stream of subobjects (one at least) that are written as the CD3DX12 helpers write them, each
-- of a known type, its payload at the first multiple of its alignment after the tag and the whole
-- padded to the next multiple of a pointer's size, is walked to its end and reported complete, and
-- what is reported is what each payload in turn adds. The hypothesis on the SDK is that a root
-- signature's payload has the size of a pointer.
pub walk-stream :
    (sdk : Sdk) (w : Written) (ws : List Written)
    → IsSdk sdk
    → All (IsWritten sdk) (w ∷ ws)
    → walk sdk (some (stream (w ∷ ws)))
      ≡ some (record (absorb_all sdk (w ∷ ws) nothing) { complete = true })
unfolding walk
walk-stream sdk w ws is all =
    walk_from-stream sdk (suc (length (stream (w ∷ ws)))) (w ∷ ws) nothing is all (omega arith)
