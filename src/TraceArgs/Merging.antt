-- ===== src/TraceArgs/Merging.antt =====
-- proxy/trace_args.cpp: `Merge` puts two expression graphs side by side.
use mathlib.Core.Path.{fun_ext}
use native.Mathlib.Nat.{add-zero, add-suc}
use dxr11_pascal.Base.{
  ℕ, zero, suc, ◌+◌, ◌<◌, ◌≡◌, refl, ap, ◌∙◌, subst, Bool, ◌&&◌, ◌||◌, List, [], ◌∷◌, ◌++◌, map,
  none, some, arith, any, get_elem?, Option-cases, inl, inr, length, All, any-append,
}
use dxr11_pascal.TraceArgs.{
  Node, konst, unknown, leaf, union, bin, boolean, Site, Args, LeafValue, Values, gather, eval_node,
  eval, low4, shift_node, shift_site, merge, insert_rows, pairs_from, pairs,
}
use dxr11_pascal.TraceArgs.Submasks.{mem}
use dxr11_pascal.TraceArgs.Dispatch.{mem_pair, mem-insert_rows}

-- Every index that a node or a site names is one of the graph.
abbrev pub InRange : ℕ → Node → Type 0
InRange n (union kids) = All (λ k. k < n) kids
InRange n (bin op kids) = All (λ k. k < n) kids
InRange n _ = Unit {0}

pub record IsClosed (a : Args) : Type 0 where
  pub nodes_in : All (InRange (length a.nodes)) a.nodes
  pub sites_in : All (λ s. (s.r < length a.nodes) × (s.m < length a.nodes)) a.sites

get_elem?-append_right {ℓ} :
    {A : Type ℓ} (xs ys : List A) (i : ℕ) → get_elem? (xs ++ ys) (i + length xs) ≡ get_elem? ys i
get_elem?-append_right [] ys i = rw add-zero
get_elem?-append_right (x ∷ xs) ys i = rw add-suc (get_elem?-append_right xs ys i)

get_elem?-append_left {ℓ} :
    {A : Type ℓ} (xs ys : List A) (i : ℕ) → i < length xs → get_elem? (xs ++ ys) i ≡ get_elem? xs i
get_elem?-append_left [] ys i h = absurd (omega arith)
get_elem?-append_left (x ∷ xs) ys zero h = refl
get_elem?-append_left (x ∷ xs) ys (suc i) h = get_elem?-append_left xs ys i (omega arith)

get_elem?-map-none {ℓ κ} :
    {A : Type ℓ} {B : Type κ} (f : A → B) (xs : List A) (i : ℕ)
    → get_elem? xs i ≡ none
    → get_elem? (map f xs) i ≡ none
get_elem?-map-none f [] i e = refl
get_elem?-map-none f (x ∷ xs) zero e = cc
get_elem?-map-none f (x ∷ xs) (suc i) e = get_elem?-map-none f xs i e

get_elem?-map-some {ℓ κ} :
    {A : Type ℓ} {B : Type κ} (f : A → B) (xs : List A) (i : ℕ) {x : A}
    → get_elem? xs i ≡ some x
    → get_elem? (map f xs) i ≡ some (f x)
get_elem?-map-some f [] i e = cc
get_elem?-map-some f (y ∷ ys) zero e = cc
get_elem?-map-some f (y ∷ ys) (suc i) e = get_elem?-map-some f ys i e

All-get {ℓ κ} :
    {A : Type ℓ} (P : A → Type κ) (xs : List A) (i : ℕ) {x : A}
    → All P xs
    → get_elem? xs i ≡ some x
    → P x
All-get P [] i h e = cc
All-get P (y ∷ ys) zero h e = subst P (cc e) h.0
All-get P (y ∷ ys) (suc i) h e = All-get P ys i h.1 e

gather-map :
    (f : ℕ → Values) (b : ℕ) (ks : List ℕ)
    → gather f (map (λ k. k + b) ks) ≡ gather (λ k. f (k + b)) ks
unfolding gather
gather-map f b [] = refl
gather-map f b (k ∷ ks) = rw (gather-map f b ks)

eval_node-shift :
    (value : LeafValue) (kind : ℕ) (f : ℕ → Values) (b : ℕ) (n : Node)
    → eval_node value kind f (shift_node b n) ≡ eval_node value kind (λ k. f (k + b)) n
unfolding eval_node shift_node
eval_node-shift value kind f b (konst c) = refl
eval_node-shift value kind f b unknown = refl
eval_node-shift value kind f b (leaf l) = refl
eval_node-shift value kind f b boolean = refl
eval_node-shift value kind f b (union kids) = rw (gather-map f b kids)
eval_node-shift value kind f b (bin op []) = refl
eval_node-shift value kind f b (bin op (x ∷ [])) = refl
eval_node-shift value kind f b (bin op (x ∷ y ∷ [])) = refl
eval_node-shift value kind f b (bin op (x ∷ y ∷ z ∷ r)) = refl

gather_congr :
    (f g : ℕ → Values) (n : ℕ)
    → ((k : ℕ) → k < n → f k ≡ g k)
    → (ks : List ℕ) → All (λ k. k < n) ks
    → gather f ks ≡ gather g ks
unfolding gather
gather_congr f g n same [] h = refl
gather_congr f g n same (k ∷ ks) h = rw (same k h.0, gather_congr f g n same ks h.1)

eval_node_congr :
    (value : LeafValue) (kind : ℕ) (f g : ℕ → Values) (n : ℕ)
    → ((k : ℕ) → k < n → f k ≡ g k)
    → (x : Node) → InRange n x
    → eval_node value kind f x ≡ eval_node value kind g x
unfolding eval_node
eval_node_congr value kind f g n same (konst c) h = refl
eval_node_congr value kind f g n same unknown h = refl
eval_node_congr value kind f g n same (leaf l) h = refl
eval_node_congr value kind f g n same boolean h = refl
eval_node_congr value kind f g n same (union kids) h = rw (gather_congr f g n same kids h)
eval_node_congr value kind f g n same (bin op []) h = refl
eval_node_congr value kind f g n same (bin op (x ∷ [])) h = refl
eval_node_congr value kind f g n same (bin op (x ∷ y ∷ [])) h = rw (same x h.0, same y h.1.0)
eval_node_congr value kind f g n same (bin op (x ∷ y ∷ z ∷ r)) h = refl

merged_nodes : Args → Args → List Node
merged_nodes source into = into.nodes ++ map (shift_node (length into.nodes)) source.nodes

module _ (source into : Args) (value : LeafValue) (kind : ℕ) where
  -- What came from `source` evaluates as before, at its shifted index.
  eval-merge_source :
      (levels i : ℕ)
      → eval (merged_nodes source into) value kind levels (i + length into.nodes)
        ≡ eval source.nodes value kind levels i
  unfolding eval merged_nodes
  eval-merge_source zero i = refl
  eval-merge_source (suc n) i =
      let b = length into.nodes in
      let shifted = get_elem?-append_right into.nodes (map (shift_node b) source.nodes) i in
      elim (Option-cases (get_elem? source.nodes i)) [
        | inl e ↦ rw (shifted, get_elem?-map-none (shift_node b) source.nodes i e, e, eval) refl
        | inr (x, e) ↦
            rw (shifted, get_elem?-map-some (shift_node b) source.nodes i e, e, eval)
              (eval_node-shift value kind (eval (merged_nodes source into) value kind n) b x
                ∙ ap (λ (f : ℕ → Values). eval_node value kind f x) (fun_ext (eval-merge_source n)))
      ]

  -- What was in `into` evaluates as before, if `into` names only nodes of its own.
  eval-merge_into :
      IsClosed into
      → (levels i : ℕ) → i < length into.nodes
      → eval (merged_nodes source into) value kind levels i ≡ eval into.nodes value kind levels i
  unfolding eval merged_nodes
  eval-merge_into c zero i h = refl
  eval-merge_into c (suc n) i h =
      let kept =
        get_elem?-append_left into.nodes (map (shift_node (length into.nodes)) source.nodes) i h in
      elim (Option-cases (get_elem? into.nodes i)) [
        | inl e ↦ rw (kept, e, eval) refl
        | inr (x, e) ↦
            rw (kept, e, eval)
              (eval_node_congr value kind _ _ (length into.nodes) (eval-merge_into c n) x
                (All-get (InRange (length into.nodes)) into.nodes i c.nodes_in e))
      ]

-- Does some call of the sites use the pair?
unfoldable pub site_uses : List Node → LeafValue → ℕ → ℕ → Site → Bool
site_uses nodes value r m s =
    mem r (low4 (eval nodes value s.kind 65 s.r)) && mem m (low4 (eval nodes value s.kind 65 s.m))

pub mem-pairs_from :
    (nodes : List Node) (value : LeafValue) (r m : ℕ) (ss : List Site) (out : List (ℕ × ℕ))
    → mem_pair r m (pairs_from nodes value ss out)
      ≡ (any (site_uses nodes value r m) ss || mem_pair r m out)
unfolding pairs_from site_uses
mem-pairs_from nodes value r m [] out = refl
mem-pairs_from nodes value r m (s ∷ ss) out =
    let rs = low4 (eval nodes value s.kind 65 s.r) in
    let ms = low4 (eval nodes value s.kind 65 s.m) in
    ground (
      arith,
      mem-pairs_from nodes value r m ss (insert_rows rs ms out),
      mem-insert_rows r m rs ms out,
    )

any-sites_source :
    (source into : Args) (value : LeafValue) (r m : ℕ) (ss : List Site)
    → any (site_uses (merged_nodes source into) value r m) (map (shift_site (length into.nodes)) ss)
      ≡ any (site_uses source.nodes value r m) ss
unfolding site_uses shift_site
any-sites_source source into value r m [] = refl
any-sites_source source into value r m (s ∷ ss) = rw (
  eval-merge_source source into value s.kind 65 s.r,
  eval-merge_source source into value s.kind 65 s.m,
  any-sites_source source into value r m ss,
)

any-sites_into :
    (source into : Args) (value : LeafValue) (r m : ℕ) (ss : List Site)
    → IsClosed into
    → All (λ s. (s.r < length into.nodes) × (s.m < length into.nodes)) ss
    → any (site_uses (merged_nodes source into) value r m) ss
      ≡ any (site_uses into.nodes value r m) ss
unfolding site_uses
any-sites_into source into value r m [] c h = refl
any-sites_into source into value r m (s ∷ ss) c h = rw (
  eval-merge_into source into value s.kind c 65 s.r h.0.0,
  eval-merge_into source into value s.kind c 65 s.m h.0.1,
  any-sites_into source into value r m ss c h.1,
)

-- A pair is used after merging `source` into `into` exactly when one of the two used it, whatever
-- the dwords are, if `into` names only nodes of its own (as the builder's graphs do). The merge
-- neither loses a pair of one library nor mixes up the two.
pub pairs-merge :
    (source into : Args) (value : LeafValue) (r m : ℕ)
    → IsClosed into
    → mem_pair r m (pairs (merge source into) value)
      ≡ (mem_pair r m (pairs into value) || mem_pair r m (pairs source value))
unfolding pairs merge merged_nodes
pairs-merge source into value r m c =
    let all_nodes = merged_nodes source into in
    let shifted = map (shift_site (length into.nodes)) source.sites in
    let here = mem-pairs_from all_nodes value r m (into.sites ++ shifted) [] in
    let parts = any-append (site_uses all_nodes value r m) into.sites shifted in
    let left = any-sites_into source into value r m into.sites c c.sites_in in
    let right = any-sites_source source into value r m source.sites in
    ground (
      arith,
      here,
      parts,
      left,
      right,
      mem-pairs_from into.nodes value r m into.sites [],
      mem-pairs_from source.nodes value r m source.sites [],
    )
