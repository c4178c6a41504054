-- ===== src/TraceArgs/Bits.antt =====
-- Bitwise "and" at variables: one law for the lowest digit, and what follows by induction.
use Prim.Native.Nat.{digits, bit_and-bitwise}
use dxr11_pascal.Base.{
  ℕ, zero, suc, ◌+◌, ◌-◌, ◌*◌, ◌/◌, ◌%◌, ◌≤◌, ◌<◌, min, bit_and, ◌≡◌, refl, sym, ◌∙◌, arith, ap,
}
use native.Mathlib.Decide.{dec_lt}

-- The recursion that the native operation stands for, with a count of digits of its own.
abbrev mask_digits : ℕ → ℕ → ℕ → ℕ
mask_digits count x y = digits (λ rest. zero) min count x y

-- A digit more than the first number needs changes nothing.
mask_digits-suc : (x y count : ℕ) → x ≤ count → mask_digits (suc count) x y ≡ mask_digits count x y
mask_digits-suc zero y zero enough = refl
mask_digits-suc zero y (suc count) enough = refl
mask_digits-suc (suc x) y zero enough = ground arith
mask_digits-suc (suc x) y (suc count) enough =
    let half : suc x / 2 ≤ count = omega arith in
    omega (arith, mask_digits-suc (suc x / 2) (y / 2) count half)

mask_digits-more : (spare x y : ℕ) → mask_digits (spare + x) x y ≡ mask_digits x x y
mask_digits-more zero x y =
    let none_spare : 0 + x ≡ x = omega arith in ap (λ c. mask_digits c x y) none_spare
mask_digits-more (suc spare) x y =
    let one_spare : suc spare + x ≡ suc (spare + x) = omega arith in
    ap (λ c. mask_digits c x y) one_spare
    ∙ mask_digits-suc x y (spare + x) (omega arith)
    ∙ mask_digits-more spare x y

-- So any count that is large enough gives the native operation.
mask_digits_lem : (count x y : ℕ) → x ≤ count → mask_digits count x y ≡ bit_and x y
mask_digits_lem count x y enough =
    let split : count ≡ (count - x) + x = omega arith in
    ap (λ c. mask_digits c x y) split ∙ mask_digits-more (count - x) x y ∙ sym (bit_and-bitwise x y)

pub zero-bit_and : (b : ℕ) → bit_and 0 b ≡ 0
zero-bit_and b = sym (mask_digits_lem 0 0 b (omega arith))

-- The lowest digit, and the others.
bit_and_split :
    (a b : ℕ)
    → mask_digits (suc a) a b ≡ bit_and a b
    → mask_digits a (a / 2) (b / 2) ≡ bit_and (a / 2) (b / 2)
    → bit_and a b ≡ bit_and (a / 2) (b / 2) * 2 + min (a % 2) (b % 2)
bit_and_split zero b whole halves = omega (arith, zero-bit_and b, zero-bit_and (b / 2))
bit_and_split (suc a) b whole halves =
    let fewer = mask_digits_lem a (suc a / 2) (b / 2) (omega arith) in
    omega (arith, bit_and-bitwise (suc a) b, fewer)

pub bit_and_step : (a b : ℕ) → bit_and a b ≡ bit_and (a / 2) (b / 2) * 2 + min (a % 2) (b % 2)
bit_and_step a b =
    let whole = mask_digits_lem (suc a) a b (omega arith) in
    let halves = mask_digits_lem a (a / 2) (b / 2) (omega arith) in bit_and_split a b whole halves

le_by_halves : (n a b : ℕ) → a ≤ n → (bit_and a b ≤ a) × (bit_and a b ≤ b)
le_by_halves n zero b h = omega (arith, zero-bit_and b)
le_by_halves zero (suc a) b h = absurd (omega arith)
le_by_halves (suc n) (suc a) b h =
    omega (arith, bit_and_step (suc a) b, le_by_halves n (suc a / 2) (b / 2) (omega arith))

pub bit_and-le_left : (a b : ℕ) → bit_and a b ≤ a
bit_and-le_left a b = (le_by_halves a a b (omega arith)).0

pub bit_and-le_right : (a b : ℕ) → bit_and a b ≤ b
bit_and-le_right a b = (le_by_halves a a b (omega arith)).1

-- Every bit of `s` is one of `c`.
abbrev pub IsSubmask : ℕ → ℕ → Type 0
IsSubmask s c = bit_and s c ≡ s

IsSubmask-by_halves : (n a c : ℕ) → a ≤ n → IsSubmask (bit_and a c) c
IsSubmask-by_halves n zero c h = rw (zero-bit_and c) (zero-bit_and c)
IsSubmask-by_halves zero (suc a) c h = absurd (omega arith)
IsSubmask-by_halves (suc n) (suc a) c h =
    let x = bit_and (suc a) c in
    let y = bit_and (suc a / 2) (c / 2) in
    let ih : bit_and y (c / 2) ≡ y = IsSubmask-by_halves n (suc a / 2) (c / 2) (omega arith) in
    let low = bit_and_step (suc a) c in
    let half : x / 2 ≡ y = omega arith in
    omega (arith, bit_and_step x c, ap (λ (t : ℕ). bit_and t (c / 2)) half)

-- What is masked by `c` is a submask of it.
pub bit_and-IsSubmask : (a c : ℕ) → IsSubmask (bit_and a c) c
bit_and-IsSubmask a c = IsSubmask-by_halves a a c (omega arith)

-- One step of the enumeration skips no submask.
next_by_halves :
    (n s t c : ℕ) → t ≤ n → IsSubmask s c → IsSubmask t c → s < t → s ≤ bit_and (t - 1) c
next_by_halves n s zero c h p q lt = absurd (omega arith)
next_by_halves zero s (suc t) c h p q lt = absurd (omega arith)
next_by_halves (suc n) s (suc t) c h p q lt =
    let sp = bit_and_step s c in
    let tp = bit_and_step (suc t) c in
    let np = bit_and_step (suc t - 1) c in
    let s_half : IsSubmask (s / 2) (c / 2) = omega arith in
    let t_half : IsSubmask (suc t / 2) (c / 2) = omega arith in
    elim (dec_lt 0 (suc t % 2)) [
      | yes odd ↦
          let same : (suc t - 1) / 2 ≡ suc t / 2 = omega arith in
          omega (arith, ap (λ (x : ℕ). bit_and x (c / 2)) same)
      | no even ↦
          let less : (suc t - 1) / 2 ≡ suc t / 2 - 1 = omega arith in
          let ih =
            next_by_halves n (s / 2) (suc t / 2) (c / 2) (omega arith) s_half t_half
              (omega arith) in
          omega (arith, ap (λ (x : ℕ). bit_and x (c / 2)) less)
    ]

pub submask_next : (s t c : ℕ) → IsSubmask s c → IsSubmask t c → s < t → s ≤ bit_and (t - 1) c
submask_next s t c p q lt = next_by_halves t s t c (omega arith) p q lt

self_by_halves : (n a : ℕ) → a ≤ n → IsSubmask a a
self_by_halves n zero h = refl
self_by_halves zero (suc a) h = absurd (omega arith)
self_by_halves (suc n) (suc a) h =
    omega (arith, bit_and_step (suc a) (suc a), self_by_halves n (suc a / 2) (omega arith))

pub IsSubmask-refl : (a : ℕ) → IsSubmask a a
IsSubmask-refl a = self_by_halves a a (omega arith)

comm_by_halves : (n a b : ℕ) → a ≤ n → b ≤ n → bit_and a b ≡ bit_and b a
comm_by_halves zero zero zero h k = refl
comm_by_halves zero zero (suc b) h k = absurd (omega arith)
comm_by_halves zero (suc a) b h k = absurd (omega arith)
comm_by_halves (suc n) a b h k = omega (
  arith,
  bit_and_step a b,
  bit_and_step b a,
  comm_by_halves n (a / 2) (b / 2) (omega arith) (omega arith),
)

pub bit_and_comm : (a b : ℕ) → bit_and a b ≡ bit_and b a
bit_and_comm a b = comm_by_halves (a + b) a b (omega arith) (omega arith)
