-- ===== src/TraceArgs/Sets.antt =====
-- proxy/trace_args.cpp: what the loops of `Eval` over sets of values collect.
use native.Mathlib.Nat.{div-lt_iff_lt-mul, pow-le-pow_right}
use dxr11_pascal.Base.{
  ℕ, zero, suc, ◌+◌, ◌-◌, ◌*◌, ◌/◌, ◌^◌, ◌≤◌, ◌<◌, min, max, bit_and, ◌≡◌, refl, ◌∙◌, inl, inr,
  Bool, true, ◌||◌, List, [], ◌∷◌, Option, none, some, arith, ltb, ◌==◌, any-append, Bool-cases,
  length,
}
use dxr11_pascal.TraceArgs.{
  BinOp, Values, every, only, word, cap, insert_sorted, sort_unique, norm, popcount, submasks,
  apply, append_known, one_known, cross_row, cross, below, all_submasks, greatest_divisor,
  least_shift, is_zero_only, norm_or_every,
}
use dxr11_pascal.TraceArgs.Submasks.{mem, submasks_sound}

-- Is `v` one of the values of the set?
abbrev pub contains : Values → ℕ → Bool
contains every v = true
contains (only vs) v = mem v vs

mem-insert_sorted : (v x : ℕ) (xs : List ℕ) → mem v (insert_sorted x xs) ≡ (x == v || mem v xs)
unfolding insert_sorted
mem-insert_sorted v x [] = refl
mem-insert_sorted v x (y ∷ ys) = ground (arith, mem-insert_sorted v x ys)

pub mem-sort_unique : (v : ℕ) (xs : List ℕ) → mem v (sort_unique xs) ≡ mem v xs
unfolding sort_unique
mem-sort_unique v [] = refl
mem-sort_unique v (x ∷ xs) =
    ground (arith, mem-insert_sorted v x (sort_unique xs), mem-sort_unique v xs)

pub norm-contains : (v : ℕ) (xs : List ℕ) → mem v xs ≡ true → contains (norm xs) v ≡ true
unfolding norm
norm-contains v xs h = elim (Bool-cases (ltb cap (length (sort_unique xs)))) [
  | inl big ↦ rw big refl
  | inr fits ↦ rw fits (mem-sort_unique v xs ∙ h)
]

pub mem-below : (v n : ℕ) → v < n → mem v (below n) ≡ true
unfolding below
mem-below v zero h = absurd (omega arith)
mem-below v (suc n) h = ground (arith, any-append (λ y. y == v) (below n) (n ∷ []), mem-below v n)

-- Is `r` among what a loop collected? A loop that gave up stands for every value.
abbrev pub may_hold : Option (List ℕ) → ℕ → Bool
may_hold none r = true
may_hold (some rs) r = mem r rs

pub may_hold-norm :
    (o : Option (List ℕ)) (r : ℕ) → may_hold o r ≡ true → contains (norm_or_every o) r ≡ true
may_hold-norm none r h = refl
may_hold-norm (some rs) r h = norm-contains r rs h

pub may_hold-left :
    (x y : Option (List ℕ)) (r : ℕ) → may_hold x r ≡ true → may_hold (append_known x y) r ≡ true
unfolding append_known
may_hold-left none y r h = refl
may_hold-left (some xs) none r h = refl
may_hold-left (some xs) (some ys) r h = rw (any-append (λ y. y == r) xs ys) (ground arith)

pub may_hold-right :
    (x y : Option (List ℕ)) (r : ℕ) → may_hold y r ≡ true → may_hold (append_known x y) r ≡ true
unfolding append_known
may_hold-right none y r h = refl
may_hold-right (some xs) none r h = refl
may_hold-right (some xs) (some ys) r h = rw (any-append (λ y. y == r) xs ys) (ground arith)

pub eq_of_test : (x y : ℕ) → (x == y) ≡ true → x ≡ y
eq_of_test x y h = ground arith

-- A result of one operation, or any value where the code gives up on it.
cross_row-mem :
    (op : BinOp) (p q r : ℕ) (qs : List ℕ)
    → mem q qs ≡ true
    → may_hold (one_known (apply op p q)) r ≡ true
    → may_hold (cross_row op p qs) r ≡ true
unfolding cross_row
cross_row-mem op p q r [] m a = cc
cross_row-mem op p q r (x ∷ xs) m a = elim (Bool-cases (x == q)) [
  | inl hit ↦ may_hold-left (one_known (apply op p x)) _ r (rw (eq_of_test x q hit) a)
  | inr miss ↦ may_hold-right _ _ r (cross_row-mem op p q r xs (ground arith) a)
]

pub cross-mem :
    (op : BinOp) (p q r : ℕ) (ps qs : List ℕ)
    → mem p ps ≡ true
    → mem q qs ≡ true
    → may_hold (one_known (apply op p q)) r ≡ true
    → may_hold (cross op ps qs) r ≡ true
unfolding cross
cross-mem op p q r [] qs m n a = cc
cross-mem op p q r (x ∷ xs) qs m n a = elim (Bool-cases (x == p)) [
  | inl hit ↦ may_hold-left _ _ r (cross_row-mem op x q r qs n (rw (eq_of_test x p hit) a))
  | inr miss ↦ may_hold-right _ _ r (cross-mem op p q r xs qs (ground arith) n a)
]

-- With one side unknown: any word `x` on that side.
pub all_submasks-mem :
    (c x : ℕ) (cs : List ℕ) → mem c cs ≡ true → may_hold (all_submasks cs) (bit_and x c) ≡ true
unfolding all_submasks
all_submasks-mem c x [] m = cc
all_submasks-mem c x (d ∷ ds) m = elim (Bool-cases (ltb 6 (popcount d))) [
  | inl many ↦ rw many refl
  | inr few ↦ rw few (elim (Bool-cases (d == c)) [
    | inl hit ↦
        may_hold-left (some (submasks d)) _ (bit_and x c)
          (rw (eq_of_test d c hit) (submasks_sound c x))
    | inr miss ↦ may_hold-right _ _ (bit_and x c) (all_submasks-mem c x ds (ground arith))
  ])
]

pub greatest_divisor-mem :
    (d : ℕ) (ds : List ℕ) (mx top : ℕ)
    → greatest_divisor ds mx ≡ some top
    → (mx ≤ top) × (mem d ds ≡ true → (0 < d) × (d ≤ top))
unfolding greatest_divisor
greatest_divisor-mem d [] mx top e = ground arith
greatest_divisor-mem d (x ∷ xs) mx top e = ground (arith, greatest_divisor-mem d xs (max mx x) top)

pub least_shift-mem :
    (q : ℕ) (qs : List ℕ) (mn : ℕ)
    → (least_shift qs mn ≤ mn) × (mem q qs ≡ true → least_shift qs mn ≤ q)
unfolding least_shift
least_shift-mem q [] mn = ground arith
least_shift-mem q (x ∷ xs) mn = ground (arith, least_shift-mem q xs (min mn x))

pub zero_only_mem : (q : ℕ) (qs : List ℕ) → is_zero_only qs ≡ true → mem q qs ≡ true → q ≡ 0
unfolding is_zero_only
zero_only_mem q [] z m = cc
zero_only_mem q (x ∷ []) z m = ground arith
zero_only_mem q (x ∷ y ∷ ys) z m = cc

-- Words shifted right by at least `mn` bits.
shift_table : (q : ℕ) → 26 ≤ q → q < 32 → (0 < 2 ^ q) × (2 ^ (32 - q) * 2 ^ q ≡ 2 ^ 32)
shift_table q lo hi = cases (q - 26) (omega arith) (omega arith)
  where
    cases : (k : ℕ) → q ≡ 26 + k → k < 6 → (0 < 2 ^ q) × (2 ^ (32 - q) * 2 ^ q ≡ 2 ^ 32)
    cases zero e h = rw e (omega arith, refl)
    cases (suc zero) e h = rw e (omega arith, refl)
    cases (suc (suc zero)) e h = rw e (omega arith, refl)
    cases (suc (suc (suc zero))) e h = rw e (omega arith, refl)
    cases (suc (suc (suc (suc zero)))) e h = rw e (omega arith, refl)
    cases (suc (suc (suc (suc (suc zero))))) e h = rw e (omega arith, refl)
    cases (suc (suc (suc (suc (suc (suc k)))))) e h = absurd (omega arith)

pub shift_bound : (p q mn : ℕ) → p < word → 26 ≤ mn → mn ≤ q → q < 32 → p / 2 ^ q < 2 ^ (32 - mn)
shift_bound p q mn hp lo le hi =
    let (pos, whole) = shift_table q (omega arith) hi in
    let first : p / 2 ^ q < 2 ^ (32 - q) =
      (div-lt_iff_lt-mul {k = 2 ^ q} {x = p} {y = 2 ^ (32 - q)} pos).1 (rw whole hp) in
    let mono : 2 ^ (32 - q) ≤ 2 ^ (32 - mn) =
      pow-le-pow_right {n = 2} (omega arith) (omega arith) in
    omega arith
