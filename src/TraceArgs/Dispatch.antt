-- ===== src/TraceArgs/Dispatch.antt =====
-- proxy/trace_args.cpp: the sets that `Eval` and `Pairs` compute are never too small.
use dxr11_pascal.Base.{
  ℕ, zero, suc, ◌%◌, ◌<◌, ◌≡◌, refl, ◌∙◌, inl, inr, Bool, true, ◌&&◌, ◌||◌, List, [], ◌∷◌, map,
  some, arith, ◌==◌, any, get_elem?, Bool-cases, Option-cases,
}
use dxr11_pascal.TraceArgs.{
  Leaf, BinOp, Node, konst, unknown, leaf, union, bin, boolean, Site, Args, LeafValue, Values,
  every, only, word, gather, eval_node, eval, low4, listed, pairs, pairs_from, insert_pair,
  insert_row, insert_rows, pair_ltb,
}
use dxr11_pascal.TraceArgs.Words.{Computes, Computes-lt, result_sound}
use dxr11_pascal.TraceArgs.Submasks.{mem}
use dxr11_pascal.TraceArgs.Sets.{
  contains, may_hold, may_hold-norm, mem-sort_unique, mem-below, eq_of_test, may_hold-left,
  may_hold-right,
}

-- A value that a shader may compute for a node: `actual l` is the dword that is bound for the
-- leaf `l` at the dispatch. What the graph does not know may be any word. An operation gives what
-- `Computes` says.
pub data Gives (nodes : List Node) (actual : Leaf → ℕ) : ℕ → ℕ → Type 0 where
  gives_konst :
      {i v : ℕ} (c : ℕ)
      → get_elem? nodes i ≡ some (konst c)
      → v ≡ c
      → v < word
      → Gives nodes actual i v
  gives_unknown : {i v : ℕ} → get_elem? nodes i ≡ some unknown → v < word → Gives nodes actual i v
  gives_leaf :
      {i v : ℕ} (l : Leaf)
      → get_elem? nodes i ≡ some (leaf l)
      → v ≡ actual l
      → v < word
      → Gives nodes actual i v
  gives_boolean : {i v : ℕ} → get_elem? nodes i ≡ some boolean → v < 2 → Gives nodes actual i v
  gives_union :
      {i v : ℕ} (k : ℕ) (kids : List ℕ)
      → get_elem? nodes i ≡ some (union kids)
      → mem k kids ≡ true
      → Gives nodes actual k v
      → Gives nodes actual i v
  gives_bin :
      {i v : ℕ} (op : BinOp) (a b p q : ℕ)
      → get_elem? nodes i ≡ some (bin op (a ∷ b ∷ []))
      → Gives nodes actual a p
      → Gives nodes actual b q
      → Computes op p q v
      → Gives nodes actual i v

Gives-lt : {nodes : List Node} {actual : Leaf → ℕ} {i v : ℕ} → Gives nodes actual i v → v < word
Gives-lt (gives_konst c e h w) = w
Gives-lt (gives_unknown e w) = w
Gives-lt (gives_leaf l e h w) = w
Gives-lt (gives_boolean e w) = omega arith
Gives-lt (gives_union k kids e m g) = Gives-lt g
Gives-lt (gives_bin op a b p q e g h c) = Computes-lt op p q _ (Gives-lt g) (Gives-lt h) c

gather-mem :
    (f : ℕ → Values) (k v : ℕ) (kids : List ℕ)
    → mem k kids ≡ true
    → contains (f k) v ≡ true
    → may_hold (gather f kids) v ≡ true
unfolding gather
gather-mem f k v [] m h = cc
gather-mem f k v (x ∷ xs) m h = elim (Bool-cases (x == k)) [
  | inl hit ↦ may_hold-left (listed (f x)) _ v (here (f x) (rw (eq_of_test x k hit) h))
  | inr miss ↦ may_hold-right _ _ v (gather-mem f k v xs (ground arith) h)
]
  where
    here : (s : Values) → contains s v ≡ true → may_hold (listed s) v ≡ true
    here every c = refl
    here (only vs) c = c

-- What the dispatch can read is what is bound.
abbrev pub Reads : LeafValue → ℕ → (Leaf → ℕ) → Type 0
Reads value kind actual = (l : Leaf) (x : ℕ) → value l kind ≡ some x → actual l ≡ x

leaf_sound :
    (value : LeafValue) (kind : ℕ) (l : Leaf) (v : ℕ)
    → ((x : ℕ) → value l kind ≡ some x → v ≡ x)
    → contains (eval_node value kind (λ _. every) (leaf l)) v ≡ true
unfolding eval_node
leaf_sound value kind l v h = elim (Option-cases (value l kind)) [
  | inl e ↦ rw (e, eval_node) refl
  | inr (x, e) ↦ rw (e, eval_node) (ground (arith, h x e))
]

union_sound :
    (value : LeafValue) (kind : ℕ) (f : ℕ → Values) (k v : ℕ) (kids : List ℕ)
    → mem k kids ≡ true
    → contains (f k) v ≡ true
    → contains (eval_node value kind f (union kids)) v ≡ true
unfolding eval_node
union_sound value kind f k v kids m h = may_hold-norm _ v (gather-mem f k v kids m h)

operation_sound :
    (value : LeafValue) (kind : ℕ) (f : ℕ → Values) (op : BinOp) (a b p q v : ℕ)
    → p < word
    → q < word
    → contains (f a) p ≡ true
    → contains (f b) q ≡ true
    → Computes op p q v
    → contains (eval_node value kind f (bin op (a ∷ b ∷ []))) v ≡ true
unfolding eval_node
operation_sound value kind f op a b p q v hp hq left right ok =
    result_sound op (f a) (f b) p q v hp hq left right ok

eval_sound :
    (nodes : List Node) (value : LeafValue) (kind : ℕ) (actual : Leaf → ℕ)
    → Reads value kind actual
    → (levels : ℕ) {i v : ℕ} → Gives nodes actual i v
    → contains (eval nodes value kind levels i) v ≡ true
unfolding eval
eval_sound nodes value kind actual rd zero g = refl
eval_sound nodes value kind actual rd (suc n) (gives_konst c e h w) =
    rw (e, eval) (unfold eval_node in ground arith)
eval_sound nodes value kind actual rd (suc n) (gives_unknown e w) =
    rw (e, eval) (unfold eval_node in refl)
eval_sound nodes value kind actual rd (suc n) (gives_leaf l e h w) =
    rw (e, eval) (unfold eval_node in leaf_sound value kind l _ (λ x a. h ∙ rd l x a))
eval_sound nodes value kind actual rd (suc n) (gives_boolean e w) =
    rw (e, eval) (unfold eval_node in ground arith)
eval_sound nodes value kind actual rd (suc n) {v = v} (gives_union k kids e m g) =
    rw (e, eval)
      (union_sound value kind (eval nodes value kind n) k v kids m
        (eval_sound nodes value kind actual rd n g))
eval_sound nodes value kind actual rd (suc n) {v = v} (gives_bin op a b p q e g h ok) =
    rw (e, eval)
      (operation_sound value kind (eval nodes value kind n) op a b p q v (Gives-lt g) (Gives-lt h)
        (eval_sound nodes value kind actual rd n g) (eval_sound nodes value kind actual rd n h) ok)

mem-map_low : (v : ℕ) (vs : List ℕ) → mem v vs ≡ true → mem (v % 16) (map (λ x. x % 16) vs) ≡ true
mem-map_low v [] h = cc
mem-map_low v (x ∷ xs) h = elim (Bool-cases (x == v)) [
  | inl hit ↦ rw (eq_of_test x v hit) (ground arith)
  | inr miss ↦ ground (arith, mem-map_low v xs)
]

pub mem-low4 : (s : Values) (v : ℕ) → contains s v ≡ true → mem (v % 16) (low4 s) ≡ true
unfolding low4
mem-low4 every v h = mem-below (v % 16) 16 (omega arith)
mem-low4 (only vs) v h = mem-sort_unique (v % 16) (map (λ x. x % 16) vs) ∙ mem-map_low v vs h

-- Is the pair in the set?
abbrev pub mem_pair : ℕ → ℕ → List (ℕ × ℕ) → Bool
mem_pair r m = any λ p. p.0 == r && p.1 == m

mem-insert_pair :
    (r m a b : ℕ) (ps : List (ℕ × ℕ))
    → mem_pair r m (insert_pair (a, b) ps) ≡ (a == r && b == m || mem_pair r m ps)
unfolding insert_pair pair_ltb
mem-insert_pair r m a b [] = refl
mem-insert_pair r m a b ((c, d) ∷ ps) = ground (arith, mem-insert_pair r m a b ps)

mem-insert_row :
    (r m a : ℕ) (ms : List ℕ) (out : List (ℕ × ℕ))
    → mem_pair r m (insert_row a ms out) ≡ (a == r && mem m ms || mem_pair r m out)
unfolding insert_row
mem-insert_row r m a [] out = ground arith
mem-insert_row r m a (b ∷ bs) out =
    ground (arith, mem-insert_row r m a bs (insert_pair (a, b) out), mem-insert_pair r m a b out)

pub mem-insert_rows :
    (r m : ℕ) (rs ms : List ℕ) (out : List (ℕ × ℕ))
    → mem_pair r m (insert_rows rs ms out) ≡ (mem r rs && mem m ms || mem_pair r m out)
unfolding insert_rows
mem-insert_rows r m [] ms out = refl
mem-insert_rows r m (a ∷ as') ms out =
    ground (arith, mem-insert_rows r m as' ms (insert_row a ms out), mem-insert_row r m a ms out)

pairs_keep :
    (nodes : List Node) (value : LeafValue) (r m : ℕ) (ss : List Site) (out : List (ℕ × ℕ))
    → mem_pair r m out ≡ true
    → mem_pair r m (pairs_from nodes value ss out) ≡ true
unfolding pairs_from
pairs_keep nodes value r m [] out h = h
pairs_keep nodes value r m (s ∷ ss) out h = pairs_keep nodes value r m ss _ (
    rw
      (mem-insert_rows r m (low4 (eval nodes value s.kind 65 s.r))
        (low4 (eval nodes value s.kind 65 s.m)) out)
      (ground arith))

pairs_from_sound :
    (nodes : List Node) (value : LeafValue) (actual : Leaf → ℕ) (s : Site) (x y : ℕ)
    → Reads value s.kind actual
    → Gives nodes actual s.r x
    → Gives nodes actual s.m y
    → (i : ℕ) (ss : List Site) (out : List (ℕ × ℕ)) → get_elem? ss i ≡ some s
    → mem_pair (x % 16) (y % 16) (pairs_from nodes value ss out) ≡ true
unfolding pairs_from
pairs_from_sound nodes value actual s x y rd g h i [] out e = cc
pairs_from_sound nodes value actual s x y rd g h zero (t ∷ ts) out e =
    let same : s ≡ t = cc in
    let left = mem-low4 _ x (eval_sound nodes value s.kind actual rd 65 g) in
    let right = mem-low4 _ y (eval_sound nodes value s.kind actual rd 65 h) in
    pairs_keep nodes value (x % 16) (y % 16) ts _ (
      rw (← same) (
        rw
          (mem-insert_rows (x % 16) (y % 16) (low4 (eval nodes value s.kind 65 s.r))
            (low4 (eval nodes value s.kind 65 s.m)) out)
          (ground (arith, left, right))))
pairs_from_sound nodes value actual s x y rd g h (suc i) (t ∷ ts) out e =
    pairs_from_sound nodes value actual s x y rd g h i ts _ e

-- Whatever values the shader computes for the two hit group arguments of a TraceRay call, over
-- the dwords that are bound at the dispatch, their low 4 bits are one of the pairs, as long as
-- each dword that was read is the one that is bound. A division by zero may give any word; a shift
-- by 32 or more gives no value.
pub pairs_sound :
    (a : Args) (value : LeafValue) (actual : Leaf → ℕ) (i : ℕ) (s : Site) (x y : ℕ)
    → Reads value s.kind actual
    → get_elem? a.sites i ≡ some s
    → Gives a.nodes actual s.r x
    → Gives a.nodes actual s.m y
    → mem_pair (x % 16) (y % 16) (pairs a value) ≡ true
unfolding pairs
pairs_sound a value actual i s x y rd e g h =
    pairs_from_sound a.nodes value actual s x y rd g h i a.sites [] e
