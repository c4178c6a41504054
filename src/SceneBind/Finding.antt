-- ===== src/SceneBind/Finding.antt =====
-- proxy/scene_bind.cpp: the structures that a GPU handle, a slot or a table names in the heaps bound.
use dxr11_pascal.Base.{
  ℕ, ◌+◌, ◌-◌, ◌*◌, ◌/◌, ◌%◌, Bool, true, false, ◌||◌, not, List, [], ◌∷◌, Option, none, some, ltb,
  leb, ◌==◌, if◌then◌else◌, min, lookup,
}
use dxr11_pascal.TraceArgs.{pair_ltb}
use dxr11_pascal.SceneBind.{Structures, each_in}

-- A heap that is bound: whether a shader sees views in it, where its handles start, its size, and
-- the increment of its device, `none` where the device cannot be asked.
pub record Bound : Type 0 where
  pub is_visible : Bool
  pub cpu_start : ℕ
  pub gpu_start : ℕ
  pub count : ℕ
  pub increment : Option ℕ

-- Whether a GPU handle is one of a heap's.
unfoldable pub is_outside : Bound → ℕ → ℕ → Bool
is_outside h inc gpu =
    inc == 0
    || (ltb gpu h.gpu_start
        || (leb (h.gpu_start + h.count * inc) gpu || not ((gpu - h.gpu_start) % inc == 0)))

unfoldable pub structure_at : Structures → ℕ → ℕ
structure_at t cpu = elim (lookup cpu t) [ none ↦ 0 | some a ↦ a ]

-- `Lookup`; 0 is no structure. `none` among the heaps is a null pointer.
unfoldable pub lookup_gpu : Structures → List (Option Bound) → ℕ → ℕ
lookup_gpu t [] gpu = 0
lookup_gpu t (none ∷ hs) gpu = lookup_gpu t hs gpu
lookup_gpu t (some h ∷ hs) gpu =
    let rest = lookup_gpu t hs gpu in
    if not h.is_visible then rest else elim h.increment [
      | none ↦ rest
      | some inc ↦
          if is_outside h inc gpu
          then rest
          else structure_at t (h.cpu_start + (gpu - h.gpu_start) / inc * inc)
    ]

-- `LookupSlot`: the structure, and whether the slot is in a heap.
unfoldable pub lookup_slot : Structures → List (Option Bound) → ℕ → ℕ × Bool
lookup_slot t [] slot = (0, false)
lookup_slot t (none ∷ hs) slot = lookup_slot t hs slot
lookup_slot t (some h ∷ hs) slot =
    let rest = lookup_slot t hs slot in
    if not h.is_visible then rest else if leb h.count slot then (0, false) else elim h.increment [
      | none ↦ (0, false)
      | some inc ↦ (lookup_gpu t (some h ∷ []) (h.gpu_start + slot * inc), true)
    ]

-- `std::sort` on what a table holds, which has each index once.
unfoldable pub sort_entry : ℕ × ℕ → List (ℕ × ℕ) → List (ℕ × ℕ)
sort_entry e [] = e ∷ []
sort_entry e (f ∷ es) =
    let later = sort_entry e es in if pair_ltb f e then f ∷ later else e ∷ f ∷ es

unfoldable pub sort_entries : List (ℕ × ℕ) → List (ℕ × ℕ)
sort_entries [] = []
sort_entries (e ∷ es) = sort_entry e (sort_entries es)

-- `Enumerate`: the entries of a table, and whether its start is in a heap; a start of 0 is the
-- heap's.
unfoldable pub enumerate_in : Structures → Bound → ℕ → ℕ → ℕ → List (ℕ × ℕ) × Bool
enumerate_in t h inc start n =
    let at : ℕ = if start == 0 then h.gpu_start else start in
    let first = (at - h.gpu_start) / inc in
    if is_outside h inc at
    then ([], false)
    else (sort_entries (each_in (h.cpu_start + first * inc) (min n (h.count - first)) inc t), true)

unfoldable pub enumerate : Structures → List (Option Bound) → ℕ → ℕ → List (ℕ × ℕ) × Bool
enumerate t [] start n = ([], false)
enumerate t (none ∷ hs) start n = enumerate t hs start n
enumerate t (some h ∷ hs) start n =
    let rest = enumerate t hs start n in
    if not h.is_visible
    then rest
    else elim h.increment [ none ↦ ([], false) | some inc ↦ enumerate_in t h inc start n ]
