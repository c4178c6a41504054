-- ===== src/LrsLimit/Layout.antt =====
-- proxy/lrs_limit.h: the measured rule of the file's comment, and the walk that decides it.
use dxr11_pascal.Base.{
  ℕ, ◌+◌, ◌*◌, ◌/◌, ◌^◌, ◌≤◌, ◌<◌, ◌↔◌, ◌≡◌, refl, sym, ap, ◌∙◌, Option-cases, inl, inr, true,
  false, List, [], ◌∷◌, Option, none, some, ltb, if◌then◌else◌, arith,
}
use dxr11_pascal.LrsLimit.{
  Parameter, constants, descriptor_table, descriptor, Walk, start, walk_one, walk, fits,
}

-- Where a parameter ends that is laid out after `o` dwords: constants take a dword each, a table
-- one, a root descriptor two at an even offset.
unfoldable pub end_of : ℕ → Parameter → ℕ
end_of o (constants c) = o + c
end_of o descriptor_table = o + 1
end_of o descriptor = (o + 1) / 2 * 2 + 2

unfoldable pub total : ℕ → List Parameter → ℕ
total o [] = o
total o (p ∷ ps) = total (end_of o p) ps

-- Where the first constants parameter starts that ends past dword 64.
unfoldable pub crossing : ℕ → List Parameter → Option ℕ
crossing o [] = none
crossing o (constants c ∷ ps) =
    let later = crossing (o + c) ps in if ltb 64 (o + c) then some o else later
crossing o (descriptor_table ∷ ps) = crossing (end_of o descriptor_table) ps
crossing o (descriptor ∷ ps) = crossing (end_of o descriptor) ps

-- The rule: at most 128 dwords past that start, or 192 in all.
unfoldable pub allowed : Option ℕ → ℕ
allowed none = 192
allowed (some s) = s + 128

end_of-more : (o : ℕ) (p : Parameter) → o ≤ end_of o p
unfolding end_of
end_of-more o (constants c) = omega arith
end_of-more o descriptor_table = omega arith
end_of-more o descriptor = omega arith

total-more : (o : ℕ) (ps : List Parameter) → o ≤ total o ps
unfolding total
total-more o [] = omega arith
total-more o (p ∷ ps) = omega (arith, total-more (end_of o p) ps, end_of-more o p)

walk_one-o : (w : Walk) (p : Parameter) → end_of w.o p < 2 ^ 32 → (walk_one w p).o ≡ end_of w.o p
unfolding walk_one end_of
walk_one-o w (constants c) h = ground arith
walk_one-o w descriptor_table h = ground arith
walk_one-o w descriptor h = ground arith

walk-o : (w : Walk) (ps : List Parameter) → total w.o ps < 2 ^ 32 → (walk w ps).o ≡ total w.o ps
unfolding walk total
walk-o w [] h = refl
walk-o w (p ∷ ps) h =
    let one = walk_one-o w p (omega (arith, h, total-more (end_of w.o p) ps)) in
    walk-o (walk_one w p) ps (rw one h) ∙ ap (λ o. total o ps) one

walk_one-crossed :
    (w : Walk) (p : Parameter)
    → w.crossed ≡ true
    → ((walk_one w p).crossed ≡ true) × ((walk_one w p).cap ≡ w.cap)
unfolding walk_one
walk_one-crossed w (constants c) h = ground arith
walk_one-crossed w descriptor_table h = (h, refl)
walk_one-crossed w descriptor h = (h, refl)

walk-cap_crossed : (w : Walk) (ps : List Parameter) → w.crossed ≡ true → (walk w ps).cap ≡ w.cap
unfolding walk
walk-cap_crossed w [] h = refl
walk-cap_crossed w (p ∷ ps) h =
    let (crossed, cap) = walk_one-crossed w p h in walk-cap_crossed (walk_one w p) ps crossed ∙ cap

-- A parameter that does not cross leaves the limit alone.
walk_one-kept :
    (w : Walk) (p : Parameter)
    → crossing w.o (p ∷ []) ≡ none
    → end_of w.o p < 2 ^ 32
    → ((walk_one w p).crossed ≡ w.crossed) × ((walk_one w p).cap ≡ w.cap)
unfolding walk_one crossing end_of
walk_one-kept w (constants c) h k = ground arith
walk_one-kept w descriptor_table h k = (refl, refl)
walk_one-kept w descriptor h k = (refl, refl)

walk_one-past :
    (w : Walk) (p : Parameter) (s : ℕ)
    → w.crossed ≡ false
    → crossing w.o (p ∷ []) ≡ some s
    → end_of w.o p + 128 < 2 ^ 32
    → ((walk_one w p).crossed ≡ true) × ((walk_one w p).cap ≡ w.o + 128)
unfolding walk_one crossing end_of
walk_one-past w (constants c) s e u h = ground arith
walk_one-past w descriptor_table s e u h = ground arith
walk_one-past w descriptor s e u h = ground arith

crossing-kept :
    (o : ℕ) (p : Parameter) (ps : List Parameter)
    → crossing o (p ∷ []) ≡ none
    → crossing o (p ∷ ps) ≡ crossing (end_of o p) ps
unfolding crossing end_of
crossing-kept o (constants c) ps h = ground arith
crossing-kept o descriptor_table ps h = refl
crossing-kept o descriptor ps h = refl

crossing-past :
    (o : ℕ) (p : Parameter) (ps : List Parameter) (s : ℕ)
    → crossing o (p ∷ []) ≡ some s
    → allowed (crossing o (p ∷ ps)) ≡ o + 128
unfolding crossing allowed
crossing-past o (constants c) ps s h = ground arith
crossing-past o descriptor_table ps s h = ground arith
crossing-past o descriptor ps s h = ground arith

allowed_empty : (o : ℕ) → allowed (crossing o []) ≡ 192
unfolding crossing allowed
allowed_empty o = refl

walk-cap :
    (w : Walk) (ps : List Parameter)
    → w.crossed ≡ false
    → w.cap ≡ 192
    → total w.o ps + 128 < 2 ^ 32
    → (walk w ps).cap ≡ allowed (crossing w.o ps)
unfolding walk total
walk-cap w [] e cap h = cap ∙ sym (allowed_empty w.o)
walk-cap w (p ∷ ps) e cap h =
    let end : end_of w.o p + 128 < 2 ^ 32 = omega (arith, h, total-more (end_of w.o p) ps) in
    let small : end_of w.o p < 2 ^ 32 = omega (arith, end) in
    elim (Option-cases (crossing w.o (p ∷ []))) [
      | inl u ↦
          let one = walk_one-o w p small in
          let (crossed, cap') = walk_one-kept w p u small in
          walk-cap (walk_one w p) ps (crossed ∙ e) (cap' ∙ cap) (rw one h)
          ∙ ap (λ o. allowed (crossing o ps)) one
          ∙ ap allowed (sym (crossing-kept w.o p ps u))
      | inr (s, u) ↦
          let (crossed, cap') = walk_one-past w p s e u end in
          walk-cap_crossed (walk_one w p) ps crossed ∙ cap' ∙ sym (crossing-past w.o p ps s u)
    ]

-- `Fits` decides the measured rule: when the total and 128 more stay below 2^32 dwords, it takes
-- the parameters exactly when their total is at most 128 past the start of the first constants
-- parameter that ends past dword 64, or at most 192 when there is none.
pub fits_iff :
    (ps : List Parameter)
    → total 0 ps + 128 < 2 ^ 32
    → (fits ps ≡ true) ↔ (total 0 ps ≤ allowed (crossing 0 ps))
unfolding fits
fits_iff ps h = ground (arith, walk-o start ps (omega (arith, h)), walk-cap start ps refl refl h)
