-- ===== src/TraceArgs/Soundness.antt =====
-- proxy/trace_args.cpp: the set of an operation holds each result on values of its operands.
use dxr11_pascal.Base.{
  ℕ, ◌-◌, ◌/◌, ◌^◌, ◌≤◌, ◌<◌, bit_and, ◌≡◌, refl, ◌⊎◌, inl, inr, Bool, true, false, ◌||◌, List,
  some, arith, ltb, leb, Bool-cases, Option-cases,
}
use dxr11_pascal.TraceArgs.{
  BinOp, mul_op, lshr_op, and_op, urem_op, Values, every, only, word, apply, below,
  greatest_divisor, least_shift, is_zero_only, eval_half, eval_bin,
}
use dxr11_pascal.TraceArgs.Bits.{bit_and_comm, bit_and-le_left}
use dxr11_pascal.TraceArgs.Submasks.{mem}
use dxr11_pascal.TraceArgs.Sets.{
  contains, may_hold-norm, norm-contains, mem-below, cross-mem, all_submasks-mem,
  greatest_divisor-mem, least_shift-mem, zero_only_mem, shift_bound,
}

urem_half :
    (p q r : ℕ) (ks : List ℕ)
    → mem q ks ≡ true
    → apply urem_op p q ≡ some r
    → contains (eval_half urem_op true ks) r ≡ true
unfolding eval_half
urem_half p q r ks m a = elim (Option-cases (greatest_divisor ks 0)) [
  | inl e ↦ rw (e, eval_half) refl
  | inr (top, e) ↦
      let bound = (greatest_divisor-mem q ks 0 top e).1 m in
      let small : r < top = unfold apply in ground arith in
      rw (e, eval_half) (norm-contains r (below top) (mem-below r top small))
]

lshr_half :
    (p q r : ℕ) (ks : List ℕ)
    → p < word
    → mem q ks ≡ true
    → apply lshr_op p q ≡ some r
    → contains (eval_half lshr_op true ks) r ≡ true
unfolding eval_half
lshr_half p q r ks hp m a =
    let mn = least_shift ks 32 in
    elim (Bool-cases (ltb mn 26 || leb 32 mn)) [
      | inl wide ↦ rw wide refl
      | inr narrow ↦
          let least = (least_shift-mem q ks 32).1 m in
          let value : (q < 32) × (r ≡ p / 2 ^ q) = unfold apply in ground arith in
          let lo : 26 ≤ mn = ground arith in
          let small : r < 2 ^ (32 - mn) = rw (value.1) (shift_bound p q mn hp lo least value.0) in
          rw narrow (norm-contains r (below (2 ^ (32 - mn))) (mem-below r (2 ^ (32 - mn)) small))
    ]

mul_half :
    (op_right : Bool) (p q r : ℕ) (ks : List ℕ)
    → (mem p ks ≡ true) ⊎ (mem q ks ≡ true)
    → apply mul_op p q ≡ some r
    → contains (eval_half mul_op op_right ks) r ≡ true
unfolding eval_half
mul_half right p q r ks m a = elim (Bool-cases (is_zero_only ks)) [
  | inr other ↦ rw other refl
  | inl z ↦
      let zero_side : (p ≡ 0) ⊎ (q ≡ 0) = elim m [
        | inl h ↦ inl (zero_only_mem p ks z h)
        | inr h ↦ inr (zero_only_mem q ks z h)
      ] in
      let gone : r ≡ 0 = elim zero_side [
        | inl h ↦ unfold apply in ground arith
        | inr h ↦ unfold apply in ground arith
      ] in
      rw (z, gone) refl
]

-- With the right operand known.
half_right :
    (op : BinOp) (p q r : ℕ) (ks : List ℕ)
    → p < word
    → mem q ks ≡ true
    → apply op p q ≡ some r
    → contains (eval_half op true ks) r ≡ true
unfolding eval_half
half_right and_op p q r ks hp m a =
    let same : bit_and p q ≡ r = unfold apply in cc in
    rw (← same) (may_hold-norm _ _ (all_submasks-mem q p ks m))
half_right mul_op p q r ks hp m a = mul_half true p q r ks (inr m) a
half_right urem_op p q r ks hp m a = urem_half p q r ks m a
half_right lshr_op p q r ks hp m a = lshr_half p q r ks hp m a
half_right _ p q r ks hp m a = refl

-- With the left operand known.
half_left :
    (op : BinOp) (p q r : ℕ) (ks : List ℕ)
    → mem p ks ≡ true
    → apply op p q ≡ some r
    → contains (eval_half op false ks) r ≡ true
unfolding eval_half
half_left and_op p q r ks m a =
    let same : bit_and q p ≡ r = unfold apply in cc (bit_and_comm q p) in
    rw (← same) (may_hold-norm _ _ (all_submasks-mem p q ks m))
half_left mul_op p q r ks m a = mul_half false p q r ks (inl m) a
half_left _ p q r ks m a = refl

pub bin_sound :
    (op : BinOp) (xs ys : Values) (p q r : ℕ)
    → p < word
    → contains xs p ≡ true
    → contains ys q ≡ true
    → apply op p q ≡ some r
    → contains (eval_bin op xs ys) r ≡ true
unfolding eval_bin
bin_sound op every every p q r hp m n a = refl
bin_sound op every (only ys) p q r hp m n a = half_right op p q r ys hp n a
bin_sound op (only xs) every p q r hp m n a = half_left op p q r xs m a
bin_sound op (only xs) (only ys) p q r hp m n a =
    may_hold-norm _ r (cross-mem op p q r xs ys m n (rw a (ground arith)))

pub apply-lt : (op : BinOp) (p q r : ℕ) → p < word → apply op p q ≡ some r → r < word
unfolding apply
apply-lt and_op p q r hp a = ground (arith, bit_and-le_left p q)
apply-lt _ p q r hp a = ground arith
