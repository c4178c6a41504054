-- ===== src/TraceArgs/Words.antt =====
-- proxy/trace_args.cpp: what the shader's operations compute on 32-bit words, and that `Eval` computes
-- the same.
use native.Mathlib.Nat.{add-mul, pow-succ', div-add-mod', div-eq_of_lt-le}
use dxr11_pascal.Base.{
  ℕ, zero, suc, ◌+◌, ◌-◌, ◌*◌, ◌/◌, ◌%◌, ◌^◌, ◌≤◌, ◌<◌, ◌≡◌, ◌≢◌, refl, sym, ap, subst, ◌∙◌, ◌⊎◌,
  inl, inr, bit_and, bit_or, bit_xor, true, false, List, none, some, arith, ltb, leb, ◌==◌,
  Option-cases,
}
use dxr11_pascal.TraceArgs.{
  BinOp, add_op, sub_op, mul_op, and_op, or_op, xor_op, shl_op, lshr_op, ashr_op, udiv_op, urem_op,
  other_op, Values, every, only, word, apply, eval_bin, eval_half, greatest_divisor,
}
use dxr11_pascal.TraceArgs.Sets.{contains, may_hold-norm, cross-mem, greatest_divisor-mem}
use dxr11_pascal.TraceArgs.Soundness.{bin_sound, apply-lt}
use dxr11_pascal.TraceArgs.Submasks.{mem}

-- The results of an operation on two words. A difference is what gives the left operand back when the
-- right one is added. A negative word is shifted right arithmetically as it is extended by its sign
-- to 32 bits more. A division by zero may give any word, as may an operation that is not known; a
-- shift by 32 or more has no result (LLVM's poison).
pub data Computes : BinOp → ℕ → ℕ → ℕ → Type 0 where
  adds : {p q v : ℕ} → v ≡ (p + q) % word → Computes add_op p q v
  subtracts : {p q v : ℕ} → v < word → (v + q) % word ≡ p → Computes sub_op p q v
  multiplies : {p q v : ℕ} → v ≡ p * q % word → Computes mul_op p q v
  ands : {p q v : ℕ} → v ≡ bit_and p q → Computes and_op p q v
  ors : {p q v : ℕ} → v < word → v ≡ bit_or p q → Computes or_op p q v
  xors : {p q v : ℕ} → v < word → v ≡ bit_xor p q → Computes xor_op p q v
  shifts_left : {p q v : ℕ} → q < 32 → v ≡ p * 2 ^ q % word → Computes shl_op p q v
  shifts_right : {p q v : ℕ} → q < 32 → v ≡ p / 2 ^ q → Computes lshr_op p q v
  shifts_positive : {p q v : ℕ} → q < 32 → p < 2 ^ 31 → v ≡ p / 2 ^ q → Computes ashr_op p q v
  shifts_negative :
      {p q v : ℕ}
      → q < 32
      → 2 ^ 31 ≤ p
      → v ≡ (p + (2 ^ q - 1) * word) / 2 ^ q
      → Computes ashr_op p q v
  divides : {p q v : ℕ} → q ≢ 0 → v ≡ p / q → Computes udiv_op p q v
  remains : {p q v : ℕ} → q ≢ 0 → v ≡ p % q → Computes urem_op p q v
  divides_by_zero : {p q v : ℕ} → q ≡ 0 → v < word → Computes udiv_op p q v
  remains_by_zero : {p q v : ℕ} → q ≡ 0 → v < word → Computes urem_op p q v
  anything : {p q v : ℕ} → v < word → Computes other_op p q v

power_pos : (q : ℕ) → 0 < 2 ^ q
power_pos zero = omega arith
power_pos (suc q) =
    let next : 2 ^ suc q ≡ 2 * 2 ^ q = pow-succ' 2 q in omega (arith, next, power_pos q)

-- The sign-extended shift as the code has it.
negative_shift :
    (d p : ℕ) → 0 < d → p < word → (p + (d - 1) * word) / d ≡ word - 1 - (word - 1 - p) / d
negative_shift d p pos low =
    let m = word - 1 - p in
    let a = m / d in
    let whole : a * d + m % d ≡ m = div-add-mod' m d in
    let rest : m % d < d = omega (arith, pos) in
    let short : a ≤ m = omega (arith, pos) in
    let c = word - 1 - a in
    let sum : (c + (a + 1)) * d ≡ c * d + (a + 1) * d = add-mul c (a + 1) d in
    let next : (a + 1) * d ≡ a * d + d = omega (arith, add-mul a 1 d) in
    let all : c + (a + 1) ≡ word = omega (arith, short, low) in
    let total : (c + (a + 1)) * d ≡ word * d = ap (λ x. x * d) all in
    let up : (c + 1) * d ≡ c * d + d = omega (arith, add-mul c 1 d) in
    div-eq_of_lt-le d (omega (arith, whole, rest, sum, next, total, low, pos))
      (omega (arith, whole, rest, sum, next, total, up, low, pos))

-- `Eval` gives that result.
Computes-apply :
    (op : BinOp) (p q v : ℕ)
    → p < word
    → q < word
    → Computes op p q v
    → (apply op p q ≡ some v)
      ⊎ ((v < word) × (op ≡ other_op))
      ⊎ ((v < word) × (q ≡ 0) × ((op ≡ udiv_op) ⊎ (op ≡ urem_op)))
unfolding apply
Computes-apply add_op p q v hp hq (adds e) = inl (ap some (sym e))
Computes-apply sub_op p q v hp hq (subtracts low e) =
    let same : (p + word - q) % word ≡ v = omega (arith, hp, hq, low, e) in inl (ap some same)
Computes-apply mul_op p q v hp hq (multiplies e) = inl (ap some (sym e))
Computes-apply and_op p q v hp hq (ands e) = inl (ap some (sym e))
Computes-apply or_op p q v hp hq (ors low e) =
    let same : bit_or p q % word ≡ v = omega (arith, low, e) in inl (ap some same)
Computes-apply xor_op p q v hp hq (xors low e) =
    let same : bit_xor p q % word ≡ v = omega (arith, low, e) in inl (ap some same)
Computes-apply shl_op p q v hp hq (shifts_left low e) =
    let in_word : leb 32 q ≡ false = ground (arith, low) in inl (rw in_word (ap some (sym e)))
Computes-apply lshr_op p q v hp hq (shifts_right low e) =
    let in_word : leb 32 q ≡ false = ground (arith, low) in inl (rw in_word (ap some (sym e)))
Computes-apply ashr_op p q v hp hq (shifts_positive low sign e) =
    let in_word : leb 32 q ≡ false = ground (arith, low) in
    let positive : ltb p (2 ^ 31) ≡ true = ground (arith, sign) in
    inl (rw (in_word, positive) (ap some (sym e)))
Computes-apply ashr_op p q v hp hq (shifts_negative low sign e) =
    let in_word : leb 32 q ≡ false = ground (arith, low) in
    let negative : ltb p (2 ^ 31) ≡ false = ground (arith, sign) in
    inl (rw (in_word, negative) (ap some (sym (e ∙ negative_shift (2 ^ q) p (power_pos q) hp))))
Computes-apply udiv_op p q v hp hq (divides nz e) =
    let by : (q == 0) ≡ false = ground (arith, nz) in inl (rw by (ap some (sym e)))
Computes-apply urem_op p q v hp hq (remains nz e) =
    let by : (q == 0) ≡ false = ground (arith, nz) in inl (rw by (ap some (sym e)))
Computes-apply udiv_op p q v hp hq (divides_by_zero z low) = inr (inr (low, z, inl refl))
Computes-apply urem_op p q v hp hq (remains_by_zero z low) = inr (inr (low, z, inr refl))
Computes-apply other_op p q v hp hq (anything low) = inr (inl (low, refl))

pub Computes-lt : (op : BinOp) (p q v : ℕ) → p < word → q < word → Computes op p q v → v < word
Computes-lt op p q v hp hq c = elim (Computes-apply op p q v hp hq c) [
  | inl a ↦ apply-lt op p q v hp a
  | inr (inl (low, _)) ↦ low
  | inr (inr (low, _, _)) ↦ low
]

-- What `Eval` makes of an operation with one side known; two known sides are not its matter.
abbrev eval_half_of : BinOp → Values → Values → Values
eval_half_of op every (only ys) = eval_half op true ys
eval_half_of op (only xs) every = eval_half op false xs
eval_half_of op _ _ = every

-- Where the code gives up on an operation, its set has every value.
given_up :
    (op : BinOp) (xs ys : Values) (p q v : ℕ)
    → contains xs p ≡ true
    → contains ys q ≡ true
    → apply op p q ≡ none
    → contains (eval_half_of op xs ys) v ≡ true
    → contains (eval_bin op xs ys) v ≡ true
unfolding eval_bin
given_up op every every p q v m n a half = refl
given_up op every (only ys) p q v m n a half = half
given_up op (only xs) every p q v m n a half = half
given_up op (only xs) (only ys) p q v m n a half =
    may_hold-norm _ v (cross-mem op p q v xs ys m n (rw a refl))

no_divisor :
    (ys : List ℕ) (q v : ℕ)
    → q ≡ 0
    → mem q ys ≡ true
    → contains (eval_half urem_op true ys) v ≡ true
unfolding eval_half
no_divisor ys q v z m = elim (Option-cases (greatest_divisor ys 0)) [
  | inl e ↦ rw (e, eval_half) refl
  | inr (top, e) ↦
      absurd (let (pos, _) = (greatest_divisor-mem q ys 0 top e).1 m in omega (arith, pos, z))
]

half_urem :
    (xs ys : Values) (q v : ℕ)
    → q ≡ 0
    → contains ys q ≡ true
    → contains (eval_half_of urem_op xs ys) v ≡ true
unfolding eval_half
half_urem every every q v z n = refl
half_urem every (only ys) q v z n = no_divisor ys q v z n
half_urem (only xs) every q v z n = refl
half_urem (only xs) (only ys) q v z n = refl

half_udiv : (xs ys : Values) (v : ℕ) → contains (eval_half_of udiv_op xs ys) v ≡ true
unfolding eval_half
half_udiv every every v = refl
half_udiv every (only ys) v = refl
half_udiv (only xs) every v = refl
half_udiv (only xs) (only ys) v = refl

half_other : (xs ys : Values) (v : ℕ) → contains (eval_half_of other_op xs ys) v ≡ true
unfolding eval_half
half_other every every v = refl
half_other every (only ys) v = refl
half_other (only xs) every v = refl
half_other (only xs) (only ys) v = refl

zero_gives_up : (p q : ℕ) → q ≡ 0 → (apply udiv_op p q ≡ none) × (apply urem_op p q ≡ none)
unfolding apply
zero_gives_up p q z = let by : (q == 0) ≡ true = ground (arith, z) in (rw by refl, rw by refl)

other_gives_up : (p q : ℕ) → apply other_op p q ≡ none
unfolding apply
other_gives_up p q = refl

-- The set of an operation holds every result on values of its operands' sets.
pub result_sound :
    (op : BinOp) (xs ys : Values) (p q v : ℕ)
    → p < word
    → q < word
    → contains xs p ≡ true
    → contains ys q ≡ true
    → Computes op p q v
    → contains (eval_bin op xs ys) v ≡ true
result_sound op xs ys p q v hp hq m n c = elim (Computes-apply op p q v hp hq c) [
  | inl a ↦ bin_sound op xs ys p q v hp m n a
  | inr (inl (low, e)) ↦
      subst (λ o. contains (eval_bin o xs ys) v ≡ true) (sym e)
        (given_up other_op xs ys p q v m n (other_gives_up p q) (half_other xs ys v))
  | inr (inr (low, z, inl e)) ↦
      subst (λ o. contains (eval_bin o xs ys) v ≡ true) (sym e)
        (given_up udiv_op xs ys p q v m n (zero_gives_up p q z).0 (half_udiv xs ys v))
  | inr (inr (low, z, inr e)) ↦
      subst (λ o. contains (eval_bin o xs ys) v ≡ true) (sym e)
        (given_up urem_op xs ys p q v m n (zero_gives_up p q z).1 (half_urem xs ys q v z n))
]
