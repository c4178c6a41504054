-- ===== src/TraceArgs/Order.antt =====
-- proxy/trace_args.cpp: the answer of `Pairs` is sorted, without repeats, of 4-bit numbers, and
-- for literal arguments does not depend on what is bound.
use dxr11_pascal.Base.{
  ℕ, zero, suc, ◌+◌, ◌*◌, ◌%◌, ◌≤◌, ◌<◌, ◌≡◌, refl, true, List, [], ◌∷◌, map, arith, inl, inr,
  get_elem?, length, All, All-append, Option-cases,
}
use dxr11_pascal.TraceArgs.{
  Node, konst, unknown, leaf, union, bin, boolean, Site, Args, LeafValue, Values, every, only,
  insert_sorted, sort_unique, below, eval_node, eval, low4, literal_index, literal, pair_ltb,
  insert_pair, insert_row, insert_rows, pairs_from, pairs,
}

-- Strictly increasing, each pair above `lo` in the order of the set, both parts below 16. A pair
-- stands at place 16 r + m of that order.
abbrev pub place : ℕ × ℕ → ℕ
place p = p.0 * 16 + p.1

abbrev pub IsRow : ℕ → List (ℕ × ℕ) → Type 0
IsRow lo [] = Unit
IsRow lo (p ∷ ps) = (p.0 < 16) × (p.1 < 16) × (lo ≤ place p) × IsRow (place p + 1) ps

All-below : (n k : ℕ) → n ≤ k → All (λ x. x < k) (below n)
unfolding below
All-below zero k h = tt
All-below (suc n) k h =
    All-append (λ x. x < k) (below n) (n ∷ []) (All-below n k (omega arith)) (omega arith, tt)

All-insert_sorted :
    (k x : ℕ) (xs : List ℕ) → x < k → All (λ y. y < k) xs → All (λ y. y < k) (insert_sorted x xs)
unfolding insert_sorted
All-insert_sorted k x [] h a = (h, tt)
All-insert_sorted k x (y ∷ ys) h a = ground (arith, All-insert_sorted k x ys h a.1)

All-low : (vs : List ℕ) → All (λ y. y < 16) (sort_unique (map (λ x. x % 16) vs))
unfolding sort_unique
All-low [] = tt
All-low (v ∷ vs) = All-insert_sorted 16 (v % 16) _ (omega arith) (All-low vs)

low4-lt : (s : Values) → All (λ y. y < 16) (low4 s)
unfolding low4
low4-lt every = All-below 16 16 (omega arith)
low4-lt (only vs) = All-low vs

IsRow-insert_pair :
    (lo r m : ℕ) (ps : List (ℕ × ℕ))
    → r < 16
    → m < 16
    → lo ≤ r * 16 + m
    → IsRow lo ps
    → IsRow lo (insert_pair (r, m) ps)
unfolding insert_pair pair_ltb
IsRow-insert_pair lo r m [] hr hm h s = (hr, hm, h, tt)
IsRow-insert_pair lo r m ((c, d) ∷ ps) hr hm h s =
    ground (arith, IsRow-insert_pair (c * 16 + d + 1) r m ps hr hm, s.3)

IsRow-insert_row :
    (r : ℕ) (ms : List ℕ) (out : List (ℕ × ℕ))
    → r < 16
    → All (λ y. y < 16) ms
    → IsRow 0 out
    → IsRow 0 (insert_row r ms out)
unfolding insert_row
IsRow-insert_row r [] out hr hm s = s
IsRow-insert_row r (m ∷ ms) out hr hm s =
    IsRow-insert_row r ms (insert_pair (r, m) out) hr hm.1
      (IsRow-insert_pair 0 r m out hr hm.0 (omega arith) s)

IsRow-insert_rows :
    (rs ms : List ℕ) (out : List (ℕ × ℕ))
    → All (λ y. y < 16) rs
    → All (λ y. y < 16) ms
    → IsRow 0 out
    → IsRow 0 (insert_rows rs ms out)
unfolding insert_rows
IsRow-insert_rows [] ms out hr hm s = s
IsRow-insert_rows (r ∷ rs) ms out hr hm s =
    IsRow-insert_rows rs ms (insert_row r ms out) hr.1 hm (IsRow-insert_row r ms out hr.0 hm s)

IsRow-pairs_from :
    (nodes : List Node) (value : LeafValue) (ss : List Site) (out : List (ℕ × ℕ))
    → IsRow 0 out
    → IsRow 0 (pairs_from nodes value ss out)
unfolding pairs_from
IsRow-pairs_from nodes value [] out s = s
IsRow-pairs_from nodes value (t ∷ ts) out s = IsRow-pairs_from nodes value ts _ (
    IsRow-insert_rows _ _ out (low4-lt (eval nodes value t.kind 65 t.r))
      (low4-lt (eval nodes value t.kind 65 t.m)) s)

length-row : (lo : ℕ) (ps : List (ℕ × ℕ)) → lo ≤ 256 → IsRow lo ps → length ps + lo ≤ 256
length-row lo [] h s = omega arith
length-row lo (p ∷ ps) h s = omega (arith, length-row (place p + 1) ps (omega arith) s.3)

-- `Pairs` returns strictly increasing pairs of numbers below 16, so at most 256 of them.
pub pairs-IsRow :
    (a : Args) (value : LeafValue) → IsRow 0 (pairs a value) × (length (pairs a value) ≤ 256)
unfolding pairs
pairs-IsRow a value =
    let row = IsRow-pairs_from a.nodes value a.sites [] tt in
    (row, omega (arith, length-row 0 (pairs_from a.nodes value a.sites []) (omega arith) row))

eval_literal :
    (nodes : List Node) (v w : LeafValue) (kind i : ℕ)
    → literal_index nodes i ≡ true
    → eval nodes v kind 65 i ≡ eval nodes w kind 65 i
unfolding literal_index eval eval_node
eval_literal nodes v w kind i h = elim (Option-cases (get_elem? nodes i)) [
  | inl e ↦ rw (e, eval) refl
  | inr (konst c, e) ↦ rw (e, eval) refl
  | inr (unknown, e) ↦ rw (e, eval) refl
  | inr (leaf l, e) ↦ absurd (ground arith)
  | inr (union ks, e) ↦ absurd (ground arith)
  | inr (bin op ks, e) ↦ absurd (ground arith)
  | inr (boolean, e) ↦ rw (e, eval) refl
]

literal_from :
    (nodes : List Node) (v w : LeafValue) (ss : List Site) (out : List (ℕ × ℕ))
    → literal nodes ss ≡ true
    → pairs_from nodes v ss out ≡ pairs_from nodes w ss out
unfolding literal pairs_from
literal_from nodes v w [] out h = refl
literal_from nodes v w (s ∷ ss) out h =
    rw
      (
        eval_literal nodes v w s.kind s.r (ground arith),
        eval_literal nodes v w s.kind s.m (ground arith),
      )
      (literal_from nodes v w ss _ (ground arith))

-- When `Literal` holds, what is bound at a dispatch does not change the pairs.
pub pairs-literal :
    (a : Args) (v w : LeafValue) → literal a.nodes a.sites ≡ true → pairs a v ≡ pairs a w
unfolding pairs
pairs-literal a v w h = literal_from a.nodes v w a.sites [] h
