-- ===== src/TraceArgs.antt =====
-- proxy/trace_args.h and proxy/trace_args.cpp: which hit group arguments the TraceRay calls of
-- a library can use. Modelled from the expression graph on: `Merge`, `Literal`, the evaluation
-- over sets of 32-bit values, and `Pairs`. The graph is built from the shader's text with
-- regular expressions (`Scan`, `Builder`), which are not modelled.
-- A node index is a number; the -1 of a `Site` that nothing has filled is an index out of range.
mod Bits
pub mod Submasks
pub mod Sets
pub mod Soundness
pub mod Words
pub mod Dispatch
pub mod Merging
pub mod Order
mod Tests
use dxr11_pascal.Base.{
  ℕ, zero, suc, ◌+◌, ◌-◌, ◌*◌, ◌/◌, ◌%◌, ◌^◌, min, max, bit_and, bit_or, bit_xor, Bool, true, false,
  ◌&&◌, ◌||◌, not, List, [], ◌∷◌, ◌++◌, map, Option, none, some, ltb, leb, ◌==◌, if◌then◌else◌,
  length, get_elem?,
}

pub record Leaf : Type 0 where
  pub space : ℕ
  pub reg : ℕ
  pub offset : ℕ

-- The operations that the graph's builder recognises, and any other text.
pub data BinOp : Type 0 where
  add_op sub_op mul_op shl_op lshr_op ashr_op and_op or_op xor_op udiv_op urem_op other_op : BinOp

pub data Node : Type 0 where
  konst : ℕ → Node
  unknown : Node
  leaf : Leaf → Node
  union : List ℕ → Node
  bin : BinOp → List ℕ → Node
  boolean : Node

pub record Site : Type 0 where
  pub r : ℕ
  pub m : ℕ
  pub kind : ℕ

pub record Args : Type 0 where
  pub nodes : List Node
  pub sites : List Site

-- `LeafValue`: `none` where it is null or returns false.
abbrev pub LeafValue : Type 0
LeafValue = Leaf → ℕ → Option ℕ

-- `Set`: every value, or those listed.
pub data Values : Type 0 where
  every : Values
  only : List ℕ → Values

abbrev pub word : ℕ
word = 2 ^ 32

abbrev pub cap : ℕ
cap = 64

unfoldable pub insert_sorted : ℕ → List ℕ → List ℕ
insert_sorted x [] = x ∷ []
insert_sorted x (y ∷ ys) =
    if ltb x y then x ∷ y ∷ ys else if x == y then y ∷ ys else y ∷ insert_sorted x ys

-- `std::sort` and `std::unique`.
unfoldable pub sort_unique : List ℕ → List ℕ
sort_unique [] = []
sort_unique (x ∷ xs) = insert_sorted x (sort_unique xs)

unfoldable pub norm : List ℕ → Values
norm v = let u = sort_unique v in if ltb cap (length u) then every else only u

-- `for (; x; x &= x - 1) ++n`, on fuel.
unfoldable pub popcount_from : ℕ → ℕ → ℕ
popcount_from zero x = 0
popcount_from (suc fuel) x =
    let rest = popcount_from fuel (bit_and x (x - 1)) in if x == 0 then 0 else rest + 1

-- Each round makes `x` smaller, so `x` rounds are enough.
unfoldable pub popcount : ℕ → ℕ
popcount x = popcount_from x x

-- `for (sub = c;; sub = (sub - 1) & c) { push(sub); if (!sub) break; }`, on fuel.
unfoldable pub submasks_from : ℕ → ℕ → ℕ → List ℕ
submasks_from zero c sub = []
submasks_from (suc fuel) c sub =
    let rest = submasks_from fuel c (bit_and (sub - 1) c) in
    if sub == 0 then sub ∷ [] else sub ∷ rest

-- `sub` falls in each round, so `c + 1` rounds are enough.
unfoldable pub submasks : ℕ → List ℕ
submasks c = submasks_from (suc c) c c

-- One operation on 32-bit words; `none` where the code gives up on the whole set.
unfoldable pub apply : BinOp → ℕ → ℕ → Option ℕ
apply add_op p q = some ((p + q) % word)
apply sub_op p q = some ((p + word - q) % word)
apply mul_op p q = some (p * q % word)
apply and_op p q = some (bit_and p q)
apply or_op p q = some (bit_or p q % word)
apply xor_op p q = some (bit_xor p q % word)
apply shl_op p q = if leb 32 q then none else some (p * 2 ^ q % word)
apply lshr_op p q = if leb 32 q then none else some (p / 2 ^ q)
apply ashr_op p q =
    if leb 32 q
    then none
    else some (if ltb p (2 ^ 31) then p / 2 ^ q else word - 1 - (word - 1 - p) / 2 ^ q)
apply udiv_op p q = if q == 0 then none else some (p / q)
apply urem_op p q = if q == 0 then none else some (p % q)
apply other_op p q = none

-- What two parts of a loop collect; `none` where one of them returned "every value".
unfoldable pub append_known : Option (List ℕ) → Option (List ℕ) → Option (List ℕ)
append_known none ys = none
append_known (some xs) none = none
append_known (some xs) (some ys) = some (xs ++ ys)

abbrev pub one_known : Option ℕ → Option (List ℕ)
one_known none = none
one_known (some r) = some (r ∷ [])

-- The inner loop, over the right operand.
unfoldable pub cross_row : BinOp → ℕ → List ℕ → Option (List ℕ)
cross_row op p [] = some []
cross_row op p (q ∷ qs) = append_known (one_known (apply op p q)) (cross_row op p qs)

-- The outer loop, over the left operand.
unfoldable pub cross : BinOp → List ℕ → List ℕ → Option (List ℕ)
cross op [] qs = some []
cross op (p ∷ ps) qs = append_known (cross_row op p qs) (cross op ps qs)

-- The values 0 to `n - 1`.
unfoldable pub below : ℕ → List ℕ
below zero = []
below (suc n) = below n ++ n ∷ []

unfoldable pub all_submasks : List ℕ → Option (List ℕ)
all_submasks [] = some []
all_submasks (c ∷ cs) =
    if ltb 6 (popcount c) then none else append_known (some (submasks c)) (all_submasks cs)

-- The greatest divisor, unless one is 0 or past the cap.
unfoldable pub greatest_divisor : List ℕ → ℕ → Option ℕ
greatest_divisor [] mx = some mx
greatest_divisor (d ∷ ds) mx = if d == 0 || ltb cap d then none else greatest_divisor ds (max mx d)

unfoldable pub least_shift : List ℕ → ℕ → ℕ
least_shift [] mn = mn
least_shift (q ∷ qs) mn = least_shift qs (min mn q)

unfoldable pub is_zero_only : List ℕ → Bool
is_zero_only [] = false
is_zero_only (x ∷ []) = x == 0
is_zero_only (x ∷ y ∷ ys) = false

abbrev pub norm_or_every : Option (List ℕ) → Values
norm_or_every none = every
norm_or_every (some vs) = norm vs

-- One side is unknown: what the known side `k` still bounds.
unfoldable pub eval_half : BinOp → Bool → List ℕ → Values
eval_half and_op known_right k = norm_or_every (all_submasks k)
eval_half mul_op known_right k = if is_zero_only k then only (0 ∷ []) else every
eval_half urem_op true k = elim (greatest_divisor k 0) [ none ↦ every | some mx ↦ norm (below mx) ]
eval_half lshr_op true k =
    let mn = least_shift k 32 in
    if ltb mn 26 || leb 32 mn then every else norm (below (2 ^ (32 - mn)))
eval_half op known_right k = every

unfoldable pub eval_bin : BinOp → Values → Values → Values
eval_bin op (only xs) (only ys) = norm_or_every (cross op xs ys)
eval_bin op (only xs) every = eval_half op false xs
eval_bin op every (only ys) = eval_half op true ys
eval_bin op every every = every

abbrev pub listed : Values → Option (List ℕ)
listed every = none
listed (only vs) = some vs

-- The values of all the kids, unless one is unknown.
unfoldable pub gather : (ℕ → Values) → List ℕ → Option (List ℕ)
gather f [] = some []
gather f (k ∷ ks) = append_known (listed (f k)) (gather f ks)

unfoldable pub eval_node : LeafValue → ℕ → (ℕ → Values) → Node → Values
eval_node value kind f (konst c) = only (c ∷ [])
eval_node value kind f unknown = every
eval_node value kind f (leaf l) = elim (value l kind) [ none ↦ every | some x ↦ only (x ∷ []) ]
eval_node value kind f boolean = only (0 ∷ 1 ∷ [])
eval_node value kind f (union kids) = norm_or_every (gather f kids)
eval_node value kind f (bin op (a ∷ b ∷ [])) = eval_bin op (f a) (f b)
eval_node value kind f (bin op kids) = every

-- `Eval`: the first argument counts the levels that are left; the code stops past depth 64.
unfoldable pub eval : List Node → LeafValue → ℕ → ℕ → ℕ → Values
eval nodes value kind zero i = every
eval nodes value kind (suc levels) i = elim (get_elem? nodes i) [
  | none ↦ every
  | some n ↦ eval_node value kind (eval nodes value kind levels) n
]

unfoldable pub low4 : Values → List ℕ
low4 every = below 16
low4 (only vs) = sort_unique (map (λ x. x % 16) vs)

unfoldable pub literal_index : List Node → ℕ → Bool
literal_index nodes i = elim (get_elem? nodes i) [ some (konst c) ↦ true | _ ↦ false ]

unfoldable pub literal : List Node → List Site → Bool
literal nodes [] = true
literal nodes (s ∷ ss) = literal_index nodes s.r && (literal_index nodes s.m && literal nodes ss)

unfoldable pub shift_node : ℕ → Node → Node
shift_node base (union kids) = union (map (λ k. k + base) kids)
shift_node base (bin op kids) = bin op (map (λ k. k + base) kids)
shift_node base n = n

unfoldable pub shift_site : ℕ → Site → Site
shift_site base s = record s { r = s.r + base; m = s.m + base }

unfoldable pub merge : Args → Args → Args
merge source into = record {
  nodes = into.nodes ++ map (shift_node (length into.nodes)) source.nodes;
  sites = into.sites ++ map (shift_site (length into.nodes)) source.sites;
}

-- `std::set<std::pair<UINT, UINT>>`: the order of pairs, and insertion.
unfoldable pub pair_ltb : ℕ × ℕ → ℕ × ℕ → Bool
pair_ltb (a, b) (c, d) = ltb a c || a == c && ltb b d

unfoldable pub insert_pair : ℕ × ℕ → List (ℕ × ℕ) → List (ℕ × ℕ)
insert_pair p [] = p ∷ []
insert_pair p (q ∷ qs) =
    if pair_ltb p q then p ∷ q ∷ qs else if pair_ltb q p then q ∷ insert_pair p qs else q ∷ qs

unfoldable pub insert_row : ℕ → List ℕ → List (ℕ × ℕ) → List (ℕ × ℕ)
insert_row r [] out = out
insert_row r (m ∷ ms) out = insert_row r ms (insert_pair (r, m) out)

unfoldable pub insert_rows : List ℕ → List ℕ → List (ℕ × ℕ) → List (ℕ × ℕ)
insert_rows [] ms out = out
insert_rows (r ∷ rs) ms out = insert_rows rs ms (insert_row r ms out)

unfoldable pub pairs_from : List Node → LeafValue → List Site → List (ℕ × ℕ) → List (ℕ × ℕ)
pairs_from nodes value [] out = out
pairs_from nodes value (s ∷ ss) out = pairs_from nodes value ss (
    insert_rows (low4 (eval nodes value s.kind 65 s.r)) (low4 (eval nodes value s.kind 65 s.m)) out)

unfoldable pub pairs : Args → LeafValue → List (ℕ × ℕ)
pairs a value = pairs_from a.nodes value a.sites []
