-- ===== src/ResTracker/Order.antt =====
-- proxy/res_tracker.cpp: the map stays ordered, with one entry for a start address.
use dxr11_pascal.Base.{ℕ, ◌≤◌, ◌<◌, Bool, [], ◌∷◌, Option, none, some, All, All-map, arith}
use dxr11_pascal.ResTracker.{Entry, Buffers, Resource, assign, heap_of, note}

-- Every start is above a bound.
abbrev pub Above : ℕ → Buffers → Type 0
Above n = All λ p. n < p.0

abbrev pub IsOrdered : Buffers → Type 0
IsOrdered [] = Unit
IsOrdered ((at, e) ∷ rest) = Above at rest × IsOrdered rest

assign-Above : (n va : ℕ) (e : Entry) (b : Buffers) → n < va → Above n b → Above n (assign va e b)
unfolding assign
assign-Above n va e [] h k = (h, tt)
assign-Above n va e ((at, f) ∷ rest) h k = ground (arith, assign-Above n va e rest h k.1)

Above-more : (n m : ℕ) (b : Buffers) → n ≤ m → Above m b → Above n b
Above-more n m b h = All-map (λ p. m < p.0) (λ p. n < p.0) (λ p k. omega arith) b

assign-IsOrdered : (va : ℕ) (e : Entry) (b : Buffers) → IsOrdered b → IsOrdered (assign va e b)
unfolding assign
assign-IsOrdered va e [] h = (tt, tt)
assign-IsOrdered va e ((at, f) ∷ rest) h =
    ground
      (arith, assign-IsOrdered va e rest h.1, assign-Above at va e rest, Above-more va at rest, h)

-- The map stays in order, each start address with one entry, when a buffer is noted, whether its
-- address is new or reused.
note-IsOrdered :
    (r : Option Resource) (reserved : Bool) (b : Buffers)
    → IsOrdered b
    → IsOrdered (note r reserved b)
unfolding note
note-IsOrdered none reserved b h = h
note-IsOrdered (some r) reserved b h = ground (
  arith,
  assign-IsOrdered r.address
      (record { size = r.width; resource = r.name; heap = heap_of r reserved }) b h,
)
