-- ===== src/TraceArgs/Submasks.antt =====
-- The loop of `Eval` over the submasks of a mask, and `Popcount`: the fuel is enough, and every
-- value that the mask lets through is found.
use dxr11_pascal.Base.{
  ℕ, zero, suc, ◌+◌, ◌-◌, ◌≤◌, ◌<◌, bit_and, ◌≡◌, ◌↔◌, subst, refl, inl, inr, Bool, true, List,
  arith, ◌==◌, if◌then◌else◌, any, Bool-cases,
}
use dxr11_pascal.TraceArgs.{popcount_from, popcount, submasks_from, submasks}
use dxr11_pascal.TraceArgs.Bits.{
  bit_and-le_left, bit_and-le_right, IsSubmask, IsSubmask-refl, bit_and-IsSubmask, submask_next,
}

-- Is `x` among the values?
abbrev pub mem : ℕ → List ℕ → Bool
mem x = any λ y. y == x

submasks_from_all :
    (fuel c sub s : ℕ)
    → sub < fuel
    → IsSubmask sub c
    → IsSubmask s c
    → s ≤ sub
    → mem s (submasks_from fuel c sub) ≡ true
unfolding submasks_from
submasks_from_all zero c sub s lt p q le = absurd (omega arith)
submasks_from_all (suc fuel) c sub s lt p q le = ground (
  arith,
  bit_and-le_left (sub - 1) c,
  bit_and-IsSubmask (sub - 1) c,
  submask_next s sub c,
  submasks_from_all fuel c (bit_and (sub - 1) c) s,
)

-- Each value of the loop is a submask of `c`.
submasks_from_only :
    (fuel c sub s : ℕ) → IsSubmask sub c → mem s (submasks_from fuel c sub) ≡ true → IsSubmask s c
unfolding submasks_from
submasks_from_only zero c sub s p m = cc
submasks_from_only (suc fuel) c sub s p m = elim (Bool-cases (sub == s)) [
  | inl hit ↦ let same : sub ≡ s = ground arith in subst (λ x. IsSubmask x c) same p
  | inr miss ↦
      submasks_from_only fuel c (bit_and (sub - 1) c) s (bit_and-IsSubmask (sub - 1) c)
        (ground arith)
]

-- The loop over the submasks of `c` lists `s` exactly when every bit of `s` is one of `c`.
pub submasks_iff : (c s : ℕ) → (mem s (submasks c) ≡ true) ↔ IsSubmask s c
unfolding submasks
submasks_iff c s = (
  (λ m. submasks_from_only (suc c) c c s (IsSubmask-refl c) m),
  (λ p.
      submasks_from_all (suc c) c c s (omega arith) (IsSubmask-refl c) p
        (omega (arith, bit_and-le_right s c))),
)

-- Masking by `c` gives a value that the loop lists.
pub submasks_sound : (c x : ℕ) → mem (bit_and x c) (submasks c) ≡ true
submasks_sound c x = (submasks_iff c (bit_and x c)).1 (bit_and-IsSubmask x c)

popcount_fuel_step : (f g x : ℕ) → x ≤ f → x ≤ g → popcount_from f x ≡ popcount_from g x
unfolding popcount_from
popcount_fuel_step zero zero x p q = refl
popcount_fuel_step zero (suc g) x p q = ground arith
popcount_fuel_step (suc f) zero x p q = ground arith
popcount_fuel_step (suc f) (suc g) x p q =
    ground (arith, bit_and-le_right x (x - 1), popcount_fuel_step f g (bit_and x (x - 1)))

-- `Popcount` by its own recursion: the fuel never ends the loop.
pub popcount_lem : (x : ℕ) → popcount x ≡ (if x == 0 then 0 else popcount (bit_and x (x - 1)) + 1)
unfolding popcount popcount_from
popcount_lem zero = refl
popcount_lem (suc x) =
    let y = bit_and (suc x) (suc x - 1) in
    let less = bit_and-le_right (suc x) (suc x - 1) in
    ground (arith, popcount_fuel_step x y y (omega arith) (omega arith))
