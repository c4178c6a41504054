-- ===== src/PsoStream/Reported.antt =====
-- proxy/pso_stream.cpp: what the walk of a well written stream reports, field by field.
use mathlib.Core.List.{append-nil, append_assoc}
use dxr11_pascal.Base.{
  ℕ, zero, suc, ◌≤◌, ◌<◌, ◌≡◌, ◌⊎◌, refl, sym, ap, subst, ◌∙◌, inl, inr, Bool, true, false, ◌||◌,
  List, [], ◌∷◌, ◌++◌, some, arith, ltb, any, if◌then◌else◌, length, length-append, take, All,
  Bool-cases,
}
use dxr11_pascal.PsoStream.{
  Kind, root_signature, stream_output, blend, sample_mask, rasterizer, depth_stencil, input_layout,
  ib_strip_cut_value, primitive_topology, render_target_formats, depth_stencil_format, sample_desc,
  node_mask, cached_pso, flags, depth_stencil1, view_instancing, depth_stencil2, rasterizer1,
  rasterizer2, shader, unknown, Stage, vs, ps, ds, hs, gs, cs, amplification, mesh, Sdk,
  payload_layout, pointer_size, Parsed, nothing, has_code, add_shader, absorb, walk,
}
use dxr11_pascal.PsoStream.Written.{
  Written, stream, kind, IsWritten, IsSdk, absorb_all, take-append, walk-stream,
}

-- The tests for the subobjects whose payload is reported.
abbrev pub is_root_signature : Kind → Bool
is_root_signature root_signature = true
is_root_signature _ = false

abbrev pub is_node_mask : Kind → Bool
is_node_mask node_mask = true
is_node_mask _ = false

abbrev pub is_cached_pso : Kind → Bool
is_cached_pso cached_pso = true
is_cached_pso _ = false

abbrev pub is_flags : Kind → Bool
is_flags flags = true
is_flags _ = false

abbrev pub is_compute : Kind → Bool
is_compute (shader cs) = true
is_compute _ = false

abbrev pub is_graphics : Kind → Bool
is_graphics (shader cs) = false
is_graphics (shader s) = true
is_graphics _ = false

-- The payload of the last subobject of a type, or what was there.
abbrev pub last_payload : Sdk → (Kind → Bool) → List Written → List ℕ → List ℕ
last_payload sdk is [] old = old
last_payload sdk is (w ∷ ws) old =
    last_payload sdk is ws (if is (kind sdk w) then w.payload else old)

-- The shader that a subobject carries, if its code is there.
abbrev pub shader_in : Kind → List ℕ → List (Stage × List ℕ)
shader_in (shader s) payload = if has_code payload then (s, payload) ∷ [] else []
shader_in _ payload = []

abbrev pub shaders_in : Sdk → List Written → List (Stage × List ℕ)
shaders_in sdk [] = []
shaders_in sdk (w ∷ ws) = shader_in (kind sdk w) w.payload ++ shaders_in sdk ws

-- What is reported of a whole stream after `out`.
pub record IsReport (sdk : Sdk) (ws : List Written) (out res : Parsed) : Type 0 where
  pub root_signature_is :
      res.root_signature_bytes ≡ last_payload sdk is_root_signature ws out.root_signature_bytes
  pub node_mask_is : res.node_mask_bytes ≡ last_payload sdk is_node_mask ws out.node_mask_bytes
  pub cached_pso_is : res.cached_pso_bytes ≡ last_payload sdk is_cached_pso ws out.cached_pso_bytes
  pub flags_is : res.flags_bytes ≡ last_payload sdk is_flags ws out.flags_bytes
  pub compute_is : res.cs_bytes ≡ last_payload sdk is_compute ws out.cs_bytes
  pub graphics_is :
      res.has_graphics_stage ≡ (out.has_graphics_stage || any (λ w. is_graphics (kind sdk w)) ws)
  pub shaders_are : res.shaders ≡ take 8 (out.shaders ++ shaders_in sdk ws)

ℕ-cases : (n : ℕ) → (n ≡ 0) ⊎ ((m : ℕ) × (n ≡ suc m))
ℕ-cases zero = inl refl
ℕ-cases (suc n) = inr (n, refl)

take-all {ℓ} : {A : Type ℓ} (n : ℕ) (xs : List A) → length xs ≡ n → take n xs ≡ xs
take-all zero [] h = refl
take-all zero (x ∷ xs) h = absurd (omega (arith, h))
take-all (suc n) [] h = absurd (omega (arith, h))
take-all (suc n) (x ∷ xs) h = ap (λ l. x ∷ l) (take-all n xs (omega (arith, h)))

-- What one subobject adds.
record Adds (k : Kind) (body : List ℕ) (out res : Parsed) : Type 0 where
  root_signature_is :
      res.root_signature_bytes ≡ (if is_root_signature k then body else out.root_signature_bytes)
  node_mask_is : res.node_mask_bytes ≡ (if is_node_mask k then body else out.node_mask_bytes)
  cached_pso_is : res.cached_pso_bytes ≡ (if is_cached_pso k then body else out.cached_pso_bytes)
  flags_is : res.flags_bytes ≡ (if is_flags k then body else out.flags_bytes)
  compute_is : res.cs_bytes ≡ (if is_compute k then body else out.cs_bytes)
  graphics_is : res.has_graphics_stage ≡ (out.has_graphics_stage || is_graphics k)
  shaders_are :
      res.shaders
      ≡ (if ltb (length out.shaders) 8 then out.shaders ++ shader_in k body else out.shaders)

or_false : (b : Bool) → b ≡ (b || false)
or_false b = ground arith

or_true : (b : Bool) → true ≡ (b || true)
or_true b = ground arith

no_shader : (xs : List (Stage × List ℕ)) → xs ≡ (if ltb (length xs) 8 then xs ++ [] else xs)
no_shader xs = elim (Bool-cases (ltb (length xs) 8)) [
  | inl u ↦ rw u (sym (append-nil xs))
  | inr u ↦ rw u refl
]

one_shader :
    (s : Stage) (bc : List ℕ) (xs : List (Stage × List ℕ))
    → add_shader s bc xs ≡ (if ltb (length xs) 8 then xs ++ shader_in (shader s) bc else xs)
unfolding add_shader
one_shader s bc xs = elim (Bool-cases (ltb (length xs) 8)) [
  | inr u ↦ rw (u, add_shader) refl
  | inl u ↦ elim (Bool-cases (has_code bc)) [
    | inl v ↦ rw (u, v, add_shader) refl
    | inr v ↦ rw (u, v, add_shader) (sym (append-nil xs))
  ]
]

-- A subobject that is not reported.
nothing_lem :
    (k : Kind) (body : List ℕ) (out : Parsed)
    → is_root_signature k ≡ false
    → is_node_mask k ≡ false
    → is_cached_pso k ≡ false
    → is_flags k ≡ false
    → is_compute k ≡ false
    → is_graphics k ≡ false
    → shader_in k body ≡ []
    → Adds k body out out
nothing_lem k body out a b c d e f g = record {
  root_signature_is = rw a refl;
  node_mask_is = rw b refl;
  cached_pso_is = rw c refl;
  flags_is = rw d refl;
  compute_is = rw e refl;
  graphics_is = rw f (or_false out.has_graphics_stage);
  shaders_are = rw g (no_shader out.shaders);
}

-- A shader of the graphics pipeline.
graphics_lem :
    (s : Stage) (body bc : List ℕ) (out : Parsed)
    → is_compute (shader s) ≡ false
    → is_graphics (shader s) ≡ true
    → bc ≡ body
    → Adds
        (shader s)
        body
        out
        (record out { has_graphics_stage = true; shaders = add_shader s bc out.shaders })
graphics_lem s body bc out c g whole = record {
  root_signature_is = refl;
  node_mask_is = refl;
  cached_pso_is = refl;
  flags_is = refl;
  compute_is = rw c refl;
  graphics_is = rw g (or_true out.has_graphics_stage);
  shaders_are = ap (λ b. add_shader s b out.shaders) whole ∙ one_shader s body out.shaders;
}

absorb-Adds :
    (sdk : Sdk) (k : Kind) (body : List ℕ) (out : Parsed)
    → IsSdk sdk
    → length body ≡ (payload_layout sdk k).size
    → Adds k body out (absorb sdk k body out)
unfolding absorb payload_layout
absorb-Adds sdk root_signature body out is h = record {
  root_signature_is = take-all pointer_size body (h ∙ is);
  node_mask_is = refl;
  cached_pso_is = refl;
  flags_is = refl;
  compute_is = refl;
  graphics_is = or_false out.has_graphics_stage;
  shaders_are = no_shader out.shaders;
}
absorb-Adds sdk node_mask body out is h = record {
  root_signature_is = refl;
  node_mask_is = take-all sdk.word_layout.size body h;
  cached_pso_is = refl;
  flags_is = refl;
  compute_is = refl;
  graphics_is = or_false out.has_graphics_stage;
  shaders_are = no_shader out.shaders;
}
absorb-Adds sdk cached_pso body out is h = record {
  root_signature_is = refl;
  node_mask_is = refl;
  cached_pso_is = take-all (sdk.layout_of cached_pso).size body h;
  flags_is = refl;
  compute_is = refl;
  graphics_is = or_false out.has_graphics_stage;
  shaders_are = no_shader out.shaders;
}
absorb-Adds sdk flags body out is h = record {
  root_signature_is = refl;
  node_mask_is = refl;
  cached_pso_is = refl;
  flags_is = take-all (sdk.layout_of flags).size body h;
  compute_is = refl;
  graphics_is = or_false out.has_graphics_stage;
  shaders_are = no_shader out.shaders;
}
absorb-Adds sdk (shader cs) body out is h =
    let whole = take-all sdk.shader_layout.size body h in
    record {
      root_signature_is = refl;
      node_mask_is = refl;
      cached_pso_is = refl;
      flags_is = refl;
      compute_is = whole;
      graphics_is = or_false out.has_graphics_stage;
      shaders_are = ap (λ b. add_shader cs b out.shaders) whole ∙ one_shader cs body out.shaders;
    }
absorb-Adds sdk (shader vs) body out is h =
    graphics_lem vs body (take sdk.shader_layout.size body) out refl refl
      (take-all sdk.shader_layout.size body h)
absorb-Adds sdk (shader ps) body out is h =
    graphics_lem ps body (take sdk.shader_layout.size body) out refl refl
      (take-all sdk.shader_layout.size body h)
absorb-Adds sdk (shader ds) body out is h =
    graphics_lem ds body (take sdk.shader_layout.size body) out refl refl
      (take-all sdk.shader_layout.size body h)
absorb-Adds sdk (shader hs) body out is h =
    graphics_lem hs body (take sdk.shader_layout.size body) out refl refl
      (take-all sdk.shader_layout.size body h)
absorb-Adds sdk (shader gs) body out is h =
    graphics_lem gs body (take sdk.shader_layout.size body) out refl refl
      (take-all sdk.shader_layout.size body h)
absorb-Adds sdk (shader amplification) body out is h =
    graphics_lem amplification body (take sdk.shader_layout.size body) out refl refl
      (take-all sdk.shader_layout.size body h)
absorb-Adds sdk (shader mesh) body out is h =
    graphics_lem mesh body (take sdk.shader_layout.size body) out refl refl
      (take-all sdk.shader_layout.size body h)
absorb-Adds sdk stream_output body out is h =
    nothing_lem stream_output body out refl refl refl refl refl refl refl
absorb-Adds sdk blend body out is h = nothing_lem blend body out refl refl refl refl refl refl refl
absorb-Adds sdk sample_mask body out is h =
    nothing_lem sample_mask body out refl refl refl refl refl refl refl
absorb-Adds sdk rasterizer body out is h =
    nothing_lem rasterizer body out refl refl refl refl refl refl refl
absorb-Adds sdk depth_stencil body out is h =
    nothing_lem depth_stencil body out refl refl refl refl refl refl refl
absorb-Adds sdk input_layout body out is h =
    nothing_lem input_layout body out refl refl refl refl refl refl refl
absorb-Adds sdk ib_strip_cut_value body out is h =
    nothing_lem ib_strip_cut_value body out refl refl refl refl refl refl refl
absorb-Adds sdk primitive_topology body out is h =
    nothing_lem primitive_topology body out refl refl refl refl refl refl refl
absorb-Adds sdk render_target_formats body out is h =
    nothing_lem render_target_formats body out refl refl refl refl refl refl refl
absorb-Adds sdk depth_stencil_format body out is h =
    nothing_lem depth_stencil_format body out refl refl refl refl refl refl refl
absorb-Adds sdk sample_desc body out is h =
    nothing_lem sample_desc body out refl refl refl refl refl refl refl
absorb-Adds sdk depth_stencil1 body out is h =
    nothing_lem depth_stencil1 body out refl refl refl refl refl refl refl
absorb-Adds sdk view_instancing body out is h =
    nothing_lem view_instancing body out refl refl refl refl refl refl refl
absorb-Adds sdk depth_stencil2 body out is h =
    nothing_lem depth_stencil2 body out refl refl refl refl refl refl refl
absorb-Adds sdk rasterizer1 body out is h =
    nothing_lem rasterizer1 body out refl refl refl refl refl refl refl
absorb-Adds sdk rasterizer2 body out is h =
    nothing_lem rasterizer2 body out refl refl refl refl refl refl refl
absorb-Adds sdk unknown body out is h =
    nothing_lem unknown body out refl refl refl refl refl refl refl

take-short {ℓ} : {A : Type ℓ} (n : ℕ) (xs : List A) → length xs ≤ n → xs ≡ take n (xs ++ [])
take-short n [] h = elim (ℕ-cases n) [ inl z ↦ rw z refl | inr (m, z) ↦ rw z refl ]
take-short zero (x ∷ xs) h = absurd (omega (arith, h))
take-short (suc n) (x ∷ xs) h = ap (λ l. x ∷ l) (take-short n xs (omega (arith, h)))

-- At most eight shaders are kept, the first ones.
take_more :
    (n : ℕ) (xs ys zs : List (Stage × List ℕ))
    → length xs ≤ n
    → take n ((if ltb (length xs) n then xs ++ ys else xs) ++ zs) ≡ take n (xs ++ (ys ++ zs))
take_more n xs ys zs h = elim (Bool-cases (ltb (length xs) n)) [
  | inl u ↦ rw u (ap (take n) (append_assoc xs ys zs))
  | inr u ↦
      let full : length xs ≡ n = ground (arith, h, u) in
      rw u (take-append n xs zs full ∙ sym (take-append n xs (ys ++ zs) full))
]

shader_in-short : (k : Kind) (body : List ℕ) → length (shader_in k body) < 2
shader_in-short (shader s) body = elim (Bool-cases (has_code body)) [
  | inl u ↦ rw u (omega arith)
  | inr u ↦ rw u (omega arith)
]
shader_in-short root_signature body = omega arith
shader_in-short node_mask body = omega arith
shader_in-short cached_pso body = omega arith
shader_in-short flags body = omega arith
shader_in-short stream_output body = omega arith
shader_in-short blend body = omega arith
shader_in-short sample_mask body = omega arith
shader_in-short rasterizer body = omega arith
shader_in-short depth_stencil body = omega arith
shader_in-short input_layout body = omega arith
shader_in-short ib_strip_cut_value body = omega arith
shader_in-short primitive_topology body = omega arith
shader_in-short render_target_formats body = omega arith
shader_in-short depth_stencil_format body = omega arith
shader_in-short sample_desc body = omega arith
shader_in-short depth_stencil1 body = omega arith
shader_in-short view_instancing body = omega arith
shader_in-short depth_stencil2 body = omega arith
shader_in-short rasterizer1 body = omega arith
shader_in-short rasterizer2 body = omega arith
shader_in-short unknown body = omega arith

Adds-short :
    (k : Kind) (body : List ℕ) (out res : Parsed)
    → Adds k body out res
    → length out.shaders ≤ 8
    → length res.shaders ≤ 8
Adds-short k body out res a h =
    let short = shader_in-short k body in
    let more = length-append out.shaders (shader_in k body) in
    subst (λ l. length l ≤ 8) (sym a.shaders_are)
      (elim (Bool-cases (ltb (length out.shaders) 8)) [
        | inl u ↦ rw u (ground (arith, u, short, more))
        | inr u ↦ rw u h
      ])

absorb_all-IsReport :
    (sdk : Sdk) (ws : List Written) (out : Parsed)
    → IsSdk sdk
    → All (IsWritten sdk) ws
    → length out.shaders ≤ 8
    → IsReport sdk ws out (absorb_all sdk ws out)
absorb_all-IsReport sdk [] out is all few = record {
  root_signature_is = refl;
  node_mask_is = refl;
  cached_pso_is = refl;
  flags_is = refl;
  compute_is = refl;
  graphics_is = or_false out.has_graphics_stage;
  shaders_are = take-short 8 out.shaders few;
}
absorb_all-IsReport sdk (w ∷ ws) out is all few =
    let (_, _, _, _, size, _, _) = all.0 in
    let k = kind sdk w in
    let next = absorb sdk k w.payload out in
    let a = absorb-Adds sdk k w.payload out is size in
    let r = absorb_all-IsReport sdk ws next is all.1 (Adds-short k w.payload out next a few) in
    record {
      root_signature_is =
          r.root_signature_is ∙ ap (last_payload sdk is_root_signature ws) a.root_signature_is;
      node_mask_is = r.node_mask_is ∙ ap (last_payload sdk is_node_mask ws) a.node_mask_is;
      cached_pso_is = r.cached_pso_is ∙ ap (last_payload sdk is_cached_pso ws) a.cached_pso_is;
      flags_is = r.flags_is ∙ ap (last_payload sdk is_flags ws) a.flags_is;
      compute_is = r.compute_is ∙ ap (last_payload sdk is_compute ws) a.compute_is;
      graphics_is =
          r.graphics_is
          ∙ ap (λ b. b || any (λ v. is_graphics (kind sdk v)) ws) a.graphics_is
          ∙ or_assoc out.has_graphics_stage (is_graphics k)
              (any (λ v. is_graphics (kind sdk v)) ws);
      shaders_are =
          r.shaders_are
          ∙ ap (λ l. take 8 (l ++ shaders_in sdk ws)) a.shaders_are
          ∙ take_more 8 out.shaders (shader_in k w.payload) (shaders_in sdk ws) few;
    }
  where
    or_assoc : (a b c : Bool) → ((a || b) || c) ≡ (a || (b || c))
    or_assoc a b c = ground arith

-- A stream of subobjects (one at least) that are written as the CD3DX12 helpers write them, each
-- of a known type, its payload at the first multiple of its alignment after the tag and the whole
-- padded to the next multiple of a pointer's size, is walked to its end and reported complete. What
-- is reported as the root signature, the node mask, the cached PSO, the flags and the compute shader
-- is the payload of the last subobject of that type, nothing where there is none; a graphics stage
-- is reported exactly when there is a shader of another stage; and the shaders are the first eight
-- that have code, with their stages. Payloads of other types are not reported. The hypothesis on
-- the SDK is that a root signature's payload has the size of a pointer.
pub walk-IsReport :
    (sdk : Sdk) (w : Written) (ws : List Written)
    → IsSdk sdk
    → All (IsWritten sdk) (w ∷ ws)
    → (res : Parsed) × (walk sdk (some (stream (w ∷ ws))) ≡ some res)
      × (res.complete ≡ true)
      × IsReport sdk (w ∷ ws) nothing res
walk-IsReport sdk w ws is all =
    let r = absorb_all-IsReport sdk (w ∷ ws) nothing is all (omega arith) in
    (
      record (absorb_all sdk (w ∷ ws) nothing) { complete = true },
      walk-stream sdk w ws is all,
      refl,
      record {
        root_signature_is = r.root_signature_is;
        node_mask_is = r.node_mask_is;
        cached_pso_is = r.cached_pso_is;
        flags_is = r.flags_is;
        compute_is = r.compute_is;
        graphics_is = r.graphics_is;
        shaders_are = r.shaders_are;
      },
    )
