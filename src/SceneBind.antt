-- ===== src/SceneBind.antt =====
-- proxy/scene_bind.cpp: which acceleration structure a descriptor names.
-- `g_tlas` is an association list from CPU descriptor handles to structures' addresses; the order
-- in which `std::unordered_map` is walked does not matter to what is modelled. Handles are 64-bit
-- numbers that do not wrap. The increment of the device and what a heap answers are arguments.
pub mod Copying
pub mod Finding
pub mod Erase
pub mod Runs
pub mod Slots
mod Tests
use dxr11_pascal.Base.{
  ℕ, zero, suc, ◌+◌, ◌-◌, ◌*◌, ◌/◌, ◌%◌, Bool, true, false, ◌&&◌, ◌||◌, not, List, [], ◌∷◌, Option,
  none, some, ltb, leb, ◌==◌, if◌then◌else◌, length, lookup, insert, erase,
}

abbrev pub Structures : Type 0
Structures = List (ℕ × ℕ)

pub record State : Type 0 where
  pub structures : Structures
  pub any_recorded : Bool

-- `EachIn` over the handles: `left` of them from the `i`-th on, with the index of each one found.
unfoldable pub visit_handles : ℕ → ℕ → Structures → ℕ → ℕ → List (ℕ × ℕ)
visit_handles start inc t i zero = []
visit_handles start inc t i (suc left) =
    let rest = visit_handles start inc t (i + 1) left in
    elim (lookup (start + i * inc) t) [ none ↦ rest | some a ↦ (i, a) ∷ rest ]

-- `EachIn` over what is recorded.
unfoldable pub visit_recorded : ℕ → ℕ → ℕ → Structures → List (ℕ × ℕ)
visit_recorded start n inc [] = []
visit_recorded start n inc ((k, a) ∷ t) =
    let rest = visit_recorded start n inc t in
    if leb start k && ((k - start) % inc == 0 && ltb ((k - start) / inc) n)
    then ((k - start) / inc, a) ∷ rest
    else rest

-- `EachIn`: what it visits, whichever of the two is smaller to walk.
unfoldable pub each_in : ℕ → ℕ → ℕ → Structures → List (ℕ × ℕ)
each_in start n inc t =
    if inc == 0
    then []
    else if leb n (length t)
    then visit_handles start inc t 0 n
    else visit_recorded start n inc t

unfoldable pub erase_handles : ℕ → ℕ → List (ℕ × ℕ) → Structures → Structures
erase_handles start inc [] t = t
erase_handles start inc ((i, a) ∷ ps) t = erase_handles start inc ps (erase (start + i * inc) t)

unfoldable pub erase_locked : ℕ → ℕ → ℕ → Structures → Structures
erase_locked start n inc t = erase_handles start inc (each_in start n inc t) t

-- A heap: whether it is one of CBV, SRV and UAV descriptors, where it starts, and its size.
pub record Heap : Type 0 where
  pub is_view : Bool
  pub start : ℕ
  pub count : ℕ

-- `NoteHeap`; `none` is a null heap.
unfoldable pub note_heap : ℕ → Option Heap → State → State
note_heap inc none s = s
note_heap inc (some h) s =
    if not s.any_recorded
    then s
    else if not h.is_view
    then s
    else record s { structures = erase_locked h.start h.count inc s.structures }

unfoldable pub note_overwrite : ℕ → State → State
note_overwrite at s =
    if not s.any_recorded then s else record s { structures = erase at s.structures }

-- `NoteSrv`; the structure is `none` for a view of anything else.
unfoldable pub note_srv : ℕ → Option ℕ → State → State
note_srv at none s = note_overwrite at s
note_srv at (some a) s = record { structures = insert at a s.structures; any_recorded = true }
