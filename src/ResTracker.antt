-- ===== src/ResTracker.antt =====
-- proxy/res_tracker.cpp: which buffer a GPU address lies in.
-- `g_buffers`, a map ordered by start address, is a list in increasing order of start; a resource
-- is a number, and a heap type too. What `Note` asks the resource and its driver for is its
-- `Resource` record: addresses are 64 bits wide, and the map's end test wraps.
pub mod Lookup
pub mod Order
mod Tests
use dxr11_pascal.Base.{
  ℕ, zero, suc, ◌+◌, ◌-◌, ◌%◌, ◌^◌, Bool, true, false, ◌&&◌, ◌||◌, not, List, [], ◌∷◌, Option, none,
  some, ltb, leb, ◌==◌, if◌then◌else◌, length,
}

pub record Entry : Type 0 where
  pub size : ℕ
  pub resource : ℕ
  pub heap : ℕ

abbrev pub Buffers : Type 0
Buffers = List (ℕ × Entry)

-- What `GetDesc`, `GetGPUVirtualAddress` and `GetHeapProperties` tell of a resource; `none` is a
-- failing call.
pub record Resource : Type 0 where
  pub name : ℕ
  pub is_buffer : Bool
  pub width : ℕ
  pub address : ℕ
  pub heap_properties : Option ℕ

-- `D3D12_HEAP_TYPE_DEFAULT`
abbrev pub heap_type_default : ℕ
heap_type_default = 1

-- Assignment in the ordered map.
unfoldable pub assign : ℕ → Entry → Buffers → Buffers
assign va e [] = (va, e) ∷ []
assign va e ((at, f) ∷ rest) =
    let later = assign va e rest in
    if ltb va at
    then (va, e) ∷ (at, f) ∷ rest
    else if va == at
    then (va, e) ∷ rest
    else (at, f) ∷ later

unfoldable pub heap_of : Resource → Bool → ℕ
heap_of r reserved =
    if reserved
    then heap_type_default
    else elim r.heap_properties [ none ↦ heap_type_default | some h ↦ h ]

-- `Note`; `none` is a null resource.
unfoldable pub note : Option Resource → Bool → Buffers → Buffers
note none reserved b = b
note (some r) reserved b =
    if not r.is_buffer
    then b
    else if r.address == 0
    then b
    else assign r.address (record { size = r.width; resource = r.name; heap = heap_of r reserved })
        b

-- The last entry that starts at or before an address (`upper_bound`, and one back).
unfoldable pub last_from : ℕ → Buffers → Option (ℕ × Entry)
last_from a [] = none
last_from a ((at, e) ∷ rest) =
    let later = last_from a rest in
    if leb at a then elim later [ none ↦ some (at, e) | some f ↦ some f ] else none

pub record Found : Type 0 where
  pub resource : Option ℕ
  pub offset : ℕ
  pub heap : ℕ

abbrev pub not_found : Found
not_found = record { resource = none; offset = 0; heap = heap_type_default }

unfoldable pub find : ℕ → Buffers → Found
find a b = if a == 0 then not_found else elim (last_from a b) [
  | none ↦ not_found
  | some (at, e) ↦
      if leb ((at + e.size) % 2 ^ 64) a
      then not_found
      else record { resource = some e.resource; offset = a - at; heap = e.heap }
]

unfoldable pub count : Buffers → ℕ
count b = length b
