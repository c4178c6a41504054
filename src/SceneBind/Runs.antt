-- ===== src/SceneBind/Runs.antt =====
-- proxy/scene_bind.cpp: `NoteCopy` pairs its two lists of ranges descriptor by descriptor.
use native.Mathlib.Nat.{zero-mul, suc-mul, add-mul}
use mathlib.Core.List.{append_assoc}
use dxr11_pascal.Base.{
  ℕ, zero, suc, ◌+◌, ◌-◌, ◌*◌, ◌≤◌, ◌<◌, ◌≡◌, refl, sym, ap, ◌∙◌, inl, inr, List, [], ◌∷◌, ◌++◌,
  Option, some, arith, leb, if◌then◌else◌, length, min, Bool-cases,
}
use dxr11_pascal.SceneBind.Copying.{Run, push_run, pair_runs, rounds}

-- The handles of a range.
abbrev pub block : ℕ → ℕ → ℕ → List ℕ
block inc start zero = []
block inc start (suc n) = start ∷ block inc (start + inc) n

abbrev pub handles : ℕ → List (ℕ × ℕ) → List ℕ
handles inc [] = []
handles inc ((s, n) ∷ rs) = block inc s n ++ handles inc rs

-- Two lists side by side, as far as the shorter one goes.
abbrev pub side_by_side : List ℕ → List ℕ → List (ℕ × ℕ)
side_by_side [] ys = []
side_by_side (x ∷ xs) [] = []
side_by_side (x ∷ xs) (y ∷ ys) = (x, y) ∷ side_by_side xs ys

-- The pairs of source and destination of runs.
abbrev pub pairs_of : ℕ → List Run → List (ℕ × ℕ)
pairs_of inc [] = []
pairs_of inc (r ∷ rs) =
    side_by_side (block inc r.source r.count) (block inc r.target r.count) ++ pairs_of inc rs

block-add : (inc s n m : ℕ) → block inc s (n + m) ≡ block inc s n ++ block inc (s + n * inc) m
block-add inc s zero m =
    ap (block inc s) (omega arith) ∙ ap (λ x. block inc x m) (omega (arith, zero-mul inc))
block-add inc s (suc n) m =
    let next : s + inc + n * inc ≡ s + suc n * inc = omega (arith, suc-mul n inc) in
    let count : suc n + m ≡ suc (n + m) = omega arith in
    ap (block inc s) count
    ∙ ap (λ hs. s ∷ hs)
        (block-add inc (s + inc) n m ∙ ap (λ x. block inc (s + inc) n ++ block inc x m) next)

side_by_side-block :
    (inc s d n : ℕ) (xs ys : List ℕ)
    → side_by_side (block inc s n ++ xs) (block inc d n ++ ys)
      ≡ side_by_side (block inc s n) (block inc d n) ++ side_by_side xs ys
side_by_side-block inc s d zero xs ys = refl
side_by_side-block inc s d (suc n) xs ys =
    ap (λ ps. (s, d) ∷ ps) (side_by_side-block inc (s + inc) (d + inc) n xs ys)

side_by_side-none : (xs : List ℕ) → side_by_side xs [] ≡ []
side_by_side-none [] = refl
side_by_side-none (x ∷ xs) = refl

-- What is left of the first range from an offset on, and of the ranges after it.
abbrev left_of : ℕ → List (ℕ × ℕ) → ℕ → List ℕ
left_of inc [] off = []
left_of inc ((s, n) ∷ rs) off = block inc (s + off * inc) (n - off) ++ handles inc rs

left_of-zero : (inc : ℕ) (rs : List (ℕ × ℕ)) → left_of inc rs 0 ≡ handles inc rs
left_of-zero inc [] = refl
left_of-zero inc ((s, n) ∷ rs) =
    let here : s + 0 * inc ≡ s = omega (arith, zero-mul inc) in
    ap (λ x. block inc x (n - 0) ++ handles inc rs) here
    ∙ ap (λ k. block inc s k ++ handles inc rs) (omega arith)

-- A step of `n` descriptors inside a range.
left_of-step :
    (inc s sn off n : ℕ) (rs : List (ℕ × ℕ))
    → off + n ≤ sn
    → left_of inc ((s, sn) ∷ rs) off
      ≡ block inc (s + off * inc) n ++ left_of inc ((s, sn) ∷ rs) (off + n)
left_of-step inc s sn off n rs le =
    let split : sn - off ≡ n + (sn - (off + n)) = omega (arith, le) in
    let next : s + off * inc + n * inc ≡ s + (off + n) * inc = omega (arith, add-mul off n inc) in
    ap (λ k. block inc (s + off * inc) k ++ handles inc rs) split
    ∙ ap (λ hs. hs ++ handles inc rs)
        (block-add inc (s + off * inc) n (sn - (off + n))
          ∙ ap (λ x. block inc (s + off * inc) n ++ block inc x (sn - (off + n))) next)
    ∙ append_assoc (block inc (s + off * inc) n) (block inc (s + (off + n) * inc) (sn - (off + n)))
        (handles inc rs)

-- How many rounds are left at most.
abbrev weight : List (ℕ × ℕ) → ℕ → ℕ
weight [] off = 0
weight ((s, n) ∷ rs) off = (if leb n off then 1 else 2) + 2 * length rs

weight-le : (rs : List (ℕ × ℕ)) (off : ℕ) → weight rs off ≤ 2 * length rs
weight-le [] off = omega arith
weight-le ((s, n) ∷ rs) off = ground arith

-- A range that is used up.
left_of-done :
    (inc s n off : ℕ) (rs : List (ℕ × ℕ))
    → n ≤ off
    → left_of inc ((s, n) ∷ rs) off ≡ left_of inc rs 0
left_of-done inc s n off rs le =
    let empty : n - off ≡ 0 = omega (arith, le) in
    ap (λ k. block inc (s + off * inc) k ++ handles inc rs) empty ∙ sym (left_of-zero inc rs)

-- The runs of the loop pair what is left of both lists.
Pairs : ℕ → List (ℕ × ℕ) → List (ℕ × ℕ) → ℕ → ℕ → Option (List Run) → Type 0
Pairs inc dst src doff soff found =
    (rs : List Run) × (found ≡ some rs)
    × (pairs_of inc rs ≡ side_by_side (left_of inc src soff) (left_of inc dst doff))

-- A run in front of those that pair the rest.
pairs_of-push :
    (inc d dn s sn doff soff n : ℕ) (dst src : List (ℕ × ℕ)) (rs : List Run)
    → doff + n ≤ dn
    → soff + n ≤ sn
    → pairs_of inc rs
      ≡ side_by_side
          (left_of inc ((s, sn) ∷ src) (soff + n))
          (left_of inc ((d, dn) ∷ dst) (doff + n))
    → pairs_of inc (record { source = s + soff * inc; target = d + doff * inc; count = n } ∷ rs)
      ≡ side_by_side (left_of inc ((s, sn) ∷ src) soff) (left_of inc ((d, dn) ∷ dst) doff)
pairs_of-push inc d dn s sn doff soff n dst src rs low high f =
    let from = block inc (s + soff * inc) n in
    let to = block inc (d + doff * inc) n in
    let after_src = left_of inc ((s, sn) ∷ src) (soff + n) in
    let after_dst = left_of inc ((d, dn) ∷ dst) (doff + n) in
    ap (λ ps. side_by_side from to ++ ps) f
    ∙ sym (side_by_side-block inc (s + soff * inc) (d + doff * inc) n after_src after_dst)
    ∙ ap (λ hs. side_by_side hs (to ++ after_dst)) (sym (left_of-step inc s sn soff n src high))
    ∙ ap (side_by_side (left_of inc ((s, sn) ∷ src) soff))
        (sym (left_of-step inc d dn doff n dst low))

pair_runs-Pairs :
    (fuel inc : ℕ) (dst src : List (ℕ × ℕ)) (doff soff : ℕ)
    → weight dst doff + weight src soff < fuel
    → Pairs inc dst src doff soff (pair_runs fuel inc dst src doff soff)
unfolding Pairs pair_runs push_run
pair_runs-Pairs zero inc dst src doff soff lt = absurd (omega (arith, lt))
pair_runs-Pairs (suc fuel) inc [] src doff soff lt =
    ([], refl, sym (side_by_side-none (left_of inc src soff)))
pair_runs-Pairs (suc fuel) inc (d ∷ dst) [] doff soff lt = ([], refl, refl)
pair_runs-Pairs (suc fuel) inc ((d, dn) ∷ dst) ((s, sn) ∷ src) doff soff lt =
    elim (Bool-cases (leb dn doff)) [
      | inl u ↦
          let (rs, e, f) =
            pair_runs-Pairs fuel inc dst ((s, sn) ∷ src) 0 soff
              (ground (arith, lt, u, weight-le dst 0)) in
          rw (u, pair_runs)
            (
              rs,
              e,
              f
                  ∙ ap (side_by_side (left_of inc ((s, sn) ∷ src) soff))
                      (sym (left_of-done inc d dn doff dst (ground arith))),
            )
      | inr u ↦ elim (Bool-cases (leb sn soff)) [
        | inl v ↦
            let (rs, e, f) =
              pair_runs-Pairs fuel inc ((d, dn) ∷ dst) src doff 0
                (ground (arith, lt, v, weight-le src 0)) in
            rw (u, v, pair_runs)
              (
                rs,
                e,
                f
                    ∙ ap (λ hs. side_by_side hs (left_of inc ((d, dn) ∷ dst) doff))
                        (sym (left_of-done inc s sn soff src (ground arith))),
              )
        | inr v ↦
            let n = min (dn - doff) (sn - soff) in
            let (rs, e, f) =
              pair_runs-Pairs fuel inc ((d, dn) ∷ dst) ((s, sn) ∷ src) (doff + n) (soff + n)
                (ground (arith, lt, u, v)) in
            let run : Run = record {
              source = s + soff * inc;
              target = d + doff * inc;
              count = n;
            } in
            rw (u, v, e, pair_runs)
              (
                run ∷ rs,
                refl,
                pairs_of-push inc d dn s sn doff soff n dst src rs (ground (arith, u, v))
                    (ground (arith, u, v)) f,
              )
      ]
    ]

-- The loop of `NoteCopy` ends, and its runs pair the descriptors of the two lists of ranges one by
-- one, in order, as far as the shorter list goes.
pub pair_runs_lem :
    (inc : ℕ) (dst src : List (ℕ × ℕ))
    → (rs : List Run) × (pair_runs (rounds dst src) inc dst src 0 0 ≡ some rs)
      × (pairs_of inc rs ≡ side_by_side (handles inc src) (handles inc dst))
unfolding Pairs
pair_runs_lem inc dst src =
    let (rs, e, f) =
      pair_runs-Pairs (rounds dst src) inc dst src 0 0
        (omega (arith, weight-le dst 0, weight-le src 0)) in
    (
      rs,
      e,
      f
          ∙ ap (λ hs. side_by_side hs (left_of inc dst 0)) (left_of-zero inc src)
          ∙ ap (side_by_side (handles inc src)) (left_of-zero inc dst),
    )
