-- ===== src/ResTracker/Lookup.antt =====
-- proxy/res_tracker.cpp: what `Find` answers.
use dxr11_pascal.Base.{
  ℕ, suc, ◌+◌, ◌-◌, ◌^◌, ◌≤◌, ◌<◌, ◌≡◌, refl, ◌⊎◌, inl, inr, Bool, true, [], ◌∷◌, none, some, leb,
  Bool-cases, Option-cases, All, get_elem?, arith,
}
use dxr11_pascal.ResTracker.{Entry, Buffers, Resource, assign, heap_of, note, last_from, find}
use dxr11_pascal.ResTracker.Order.{Above, IsOrdered}

-- The map's entry at a start address.
abbrev pub IsEntry : Buffers → ℕ → Entry → Type 0
IsEntry b at e = (n : ℕ) × (get_elem? b n ≡ some (at, e))

-- Whether no entry starts after `va` and not after `a`.
abbrev pub IsClear : ℕ → ℕ → Buffers → Type 0
IsClear a va = All λ p. (p.0 ≤ va) ⊎ (a < p.0)

last_none : (a va x : ℕ) (b : Buffers) → x ≡ va → IsClear a va b → Above x b → last_from a b ≡ none
unfolding last_from
last_none a va x [] h k o = refl
last_none a va x ((y, e) ∷ b) h k o = ground arith

last_from-assign :
    (a va : ℕ) (e : Entry) (b : Buffers)
    → va ≤ a
    → IsOrdered b
    → IsClear a va b
    → last_from a (assign va e b) ≡ some (va, e)
unfolding last_from assign
last_from-assign a va e [] h o k = ground arith
last_from-assign a va e ((x, f) ∷ b) h o k =
    ground (arith, last_from-assign a va e b h o.1 k.1, last_none a va x b, k, o)

last_from_lem :
    (a at : ℕ) (e : Entry) (b : Buffers) → last_from a b ≡ some (at, e) → IsEntry b at e × (at ≤ a)
unfolding last_from
last_from_lem a at e [] h = ground arith
last_from_lem a at e ((x, f) ∷ b) h = elim (Bool-cases (leb x a)) [
  | inl u ↦ elim (Option-cases (last_from a b)) [
    | inl v ↦ ((0, ground arith), ground arith)
    | inr ((y, g), v) ↦
        let ((n, at_n), le) = last_from_lem a at e b (ground arith) in ((suc n, at_n), le)
  ]
  | inr u ↦ ground arith
]

-- A buffer with a GPU address that does not wrap is found at every address in it, with the offset
-- from its start and its heap type, right after it was noted (over a stale entry at its start too),
-- when the map is in order and no other entry starts between its start and the address.
pub note-find :
    (r : Resource) (reserved : Bool) (b : Buffers) (a : ℕ)
    → r.is_buffer ≡ true
    → 0 < r.address
    → r.address ≤ a
    → a < r.address + r.width
    → r.address + r.width < 2 ^ 64
    → IsOrdered b
    → IsClear a r.address b
    → find a (note (some r) reserved b)
      ≡ record { resource = some r.name; offset = a - r.address; heap = heap_of r reserved }
unfolding find note
note-find r reserved b a buffer address low high width o k =
    let e : Entry = record { size = r.width; resource = r.name; heap = heap_of r reserved } in
    ground (arith, last_from-assign a r.address e b low o k)

find-none :
    {P : Type 0} (a : ℕ) (b : Buffers) (name : ℕ)
    → last_from a b ≡ none
    → (find a b).resource ≡ some name
    → P
unfolding find
find-none a b name u h = ground arith

find-some :
    (a at : ℕ) (e : Entry) (b : Buffers) (name : ℕ)
    → last_from a b ≡ some (at, e)
    → (find a b).resource ≡ some name
    → (a < at + e.size)
      × (e.resource ≡ name)
      × ((find a b).offset ≡ a - at)
      × ((find a b).heap ≡ e.heap)
unfolding find
find-some a at e b name u h = ground arith

-- What `Find` answers is an entry of the map: one that starts at or before the address, ends
-- after it, and gives the resource, the heap type and (as the distance to its start) the offset.
pub find-IsEntry :
    (a : ℕ) (b : Buffers) (name : ℕ)
    → (find a b).resource ≡ some name
    → (at : ℕ) × (e : Entry) × IsEntry b at e
      × (at ≤ a)
      × (a < at + e.size)
      × (e.resource ≡ name)
      × ((find a b).offset ≡ a - at)
      × ((find a b).heap ≡ e.heap)
find-IsEntry a b name h = elim (Option-cases (last_from a b)) [
  | inl u ↦ find-none a b name u h
  | inr ((at, e), u) ↦
      let (is, low) = last_from_lem a at e b u in
      let (high, same, offset, heap) = find-some a at e b name u h in
      (at, e, is, low, high, same, offset, heap)
]
