-- ===== src/HeapReserve.antt =====
-- proxy/heap_reserve.cpp: the descriptors at the end of a shader-visible heap that the shim keeps
-- for itself, and the ranges that it places in them.
-- Pointers are numbers, 0 the null pointer; an `Entry` is known by its address, `key`, which is
-- what gpu_hold tracks its uses by. A dereference of an entry that is gone is `dangling`.
-- Sizes of 32 bits wrap (`word`); 64-bit addresses are numbers. The number of views asked for is not
-- narrowed to 32 bits as the code does it: a vector of so many views does not occur.
-- The vtable hook, `Holder` and the driver's calls are not modelled: what they answer is in
-- `Driver`, and what `Range` writes to the heap is in its result. So is the entry whose use by the
-- owner `Range` reports to gpu_hold as it ends. The test switch `DXR_TIER11_RANGE_POISON` is off.
pub mod Packing
pub mod Linking
pub mod Sound
pub mod Ranges
pub mod InFlight
mod Tests
use dxr11_pascal.Base.{
  ℕ, zero, suc, ◌+◌, ◌-◌, ◌*◌, ◌%◌, ◌^◌, min, Bool, true, false, ◌&&◌, ◌||◌, not, List, [], ◌∷◌,
  ◌++◌, Option, none, some, ltb, leb, ◌==◌, if◌then◌else◌, any, keep_if, length, lookup, insert,
}

abbrev pub word : ℕ
word = 2 ^ 32

abbrev pub reserve_size : ℕ
reserve_size = 4096

abbrev pub max_heap : ℕ
max_heap = 1000000

pub record View : Type 0 where
  pub structure : ℕ
  pub raw : ℕ
  pub bytes : ℕ

unfoldable pub view_eq : View → View → Bool
view_eq a b = a.structure == b.structure && (a.raw == b.raw && a.bytes == b.bytes)

-- `std::vector<View>` under `operator==`, which the map's `operator<` agrees with.
unfoldable pub views_eq : List View → List View → Bool
views_eq [] [] = true
views_eq [] (y ∷ ys) = false
views_eq (x ∷ xs) [] = false
views_eq (x ∷ xs) (y ∷ ys) = view_eq x y && views_eq xs ys

pub record Entry : Type 0 where
  pub key : ℕ
  pub at : ℕ
  pub n : ℕ
  pub views : List View

-- `by_views` maps the views of a range to its entry's address.
pub record Reserve : Type 0 where
  pub base : ℕ
  pub size : ℕ
  pub cpu0 : ℕ
  pub gpu0 : ℕ
  pub inc : ℕ
  pub entries : List Entry
  pub by_views : List (List View × ℕ)

-- One pass of `Place` over the gaps between the entries, and the one after the last.
unfoldable pub first_fit : ℕ → ℕ → ℕ → List Entry → Option ℕ
first_fit size n at [] = if leb ((at + n) % word) size then some at else none
first_fit size n at (e ∷ es) =
    if leb ((at + n) % word) e.at then some at else first_fit size n ((e.at + e.n) % word) es

unfoldable pub erase_views : List View → List (List View × ℕ) → List (List View × ℕ)
erase_views vs = keep_if λ p. not (views_eq p.0 vs)

-- `for (Entry* e : idle) r.byViews.erase(e->views)`
unfoldable pub erase_all : List Entry → List (List View × ℕ) → List (List View × ℕ)
erase_all [] m = m
erase_all (e ∷ es) m = erase_all es (erase_views e.views m)

unfoldable pub drop_idle : (ℕ → Bool) → Reserve → Reserve
drop_idle busy r = record r {
  entries = keep_if (λ e. busy e.key) r.entries;
  by_views = erase_all (keep_if (λ e. not (busy e.key)) r.entries) r.by_views;
}

-- `Place`: the reserve as it leaves it, and the place found; `none` is the -1 of the code.
unfoldable pub place : (ℕ → Bool) → Reserve → ℕ → Reserve × Option ℕ
place busy r n = elim (first_fit r.size n 0 r.entries) [
  | some at ↦ (r, some at)
  | none ↦
      if any (λ e. not (busy e.key)) r.entries
      then (drop_idle busy r, first_fit r.size n 0 (drop_idle busy r).entries)
      else (r, none)
]

-- `std::lower_bound` by `at`, and the insertion there.
unfoldable pub insert_entry : Entry → List Entry → List Entry
insert_entry x [] = x ∷ []
insert_entry x (e ∷ es) = if ltb e.at x.at then e ∷ insert_entry x es else x ∷ e ∷ es

unfoldable pub find_views : List View → List (List View × ℕ) → Option ℕ
find_views vs [] = none
find_views vs ((ws, k) ∷ m) = if views_eq ws vs then some k else find_views vs m

-- What an entry's address points at.
unfoldable pub entry_at : ℕ → List Entry → Option Entry
entry_at k [] = none
entry_at k (e ∷ es) = if e.key == k then some e else entry_at k es

pub data Failure : Type 0 where
  empty_range no_room not_created too_many still_in_flight dangling : Failure

-- A success: the entry, the views written to the heap with their CPU handles, and the GPU handle.
pub record Placed : Type 0 where
  pub entry : Entry
  pub written : List (ℕ × View)
  pub handle : ℕ

pub data Outcome : Type 0 where
  ok : Placed → Outcome
  fail : Failure → Outcome

-- The loop over `CreateShaderResourceView`: slot `i` of the range at the CPU handle of its place.
unfoldable pub write_views : Reserve → ℕ → List View → List (ℕ × View)
write_views r at [] = []
write_views r at (v ∷ vs) = (r.cpu0 + (r.base + at) * r.inc, v) ∷ write_views r (at + 1) vs

unfoldable pub handle_of : Reserve → Entry → ℕ
handle_of r e = r.gpu0 + (r.base + e.at) * r.inc

-- The rest of `Range` where no range with these views is kept.
unfoldable pub add_range : (ℕ → Bool) → ℕ → Reserve → List View → Reserve × Outcome
add_range busy fresh r views =
    if ltb r.size (length views)
    then (r, fail too_many)
    else (let (r', found) = place busy r (length views) in
        elim found [
          | none ↦ (r', fail still_in_flight)
          | some at ↦
              let e : Entry = record { key = fresh; at = at; n = length views; views = views } in
              (
                record r' {
                  entries = insert_entry e r'.entries;
                  by_views = (views, fresh) ∷ r'.by_views;
                },
                ok (record {
                  entry = e;
                  written = write_views r' at views;
                  handle = handle_of r' e;
                }),
              )
        ])

-- `Range` in one reserve; `fresh` is the address of a new entry.
unfoldable pub range_in : (ℕ → Bool) → ℕ → Reserve → List View → Reserve × Outcome
range_in busy fresh r views = elim (find_views views r.by_views) [
  | some k ↦ (
    r,
    elim (entry_at k r.entries) [
      | some e ↦ ok (record { entry = e; written = []; handle = handle_of r e })
      | none ↦ fail dangling
    ],
  )
  | none ↦ add_range busy fresh r views
]

-- A heap bound at the dispatch, and whether it is one of CBV, SRV and UAV descriptors.
pub record BoundHeap : Type 0 where
  pub heap : ℕ
  pub is_view : Bool

pub record State : Type 0 where
  pub heaps : List (ℕ × Reserve)
  pub own : ℕ
  pub own_device : ℕ

-- What the driver and the allocator answer: the shim's own heap if it can be created (0 if not)
-- with its handles and increment, which work is still in flight, and a new entry's address.
pub record Driver : Type 0 where
  pub own_heap : ℕ
  pub own_cpu : ℕ
  pub own_gpu : ℕ
  pub increment : ℕ
  pub busy : ℕ → Bool
  pub fresh : ℕ

unfoldable pub make_reserve : ℕ → ℕ → ℕ → ℕ → ℕ → Reserve
make_reserve cpu0 gpu0 inc base size = record {
  base = base;
  size = size;
  cpu0 = cpu0;
  gpu0 = gpu0;
  inc = inc;
  entries = [];
  by_views = [];
}

-- The last heap of the right type among those bound; 0 if there is none.
unfoldable pub view_heap : List BoundHeap → ℕ → ℕ
view_heap [] view = view
view_heap (h ∷ hs) view = view_heap hs (if not (h.heap == 0) && h.is_view then h.heap else view)

unfoldable pub range_at : Driver → State → ℕ → List View → State × Outcome
range_at d s heap views = elim (lookup heap s.heaps) [
  | none ↦ (s, fail no_room)
  | some r ↦
      let (r', out) = range_in d.busy d.fresh r views in
      (record s { heaps = insert heap r' s.heaps }, out)
]

-- Makes the shim's own heap unless it is there for this device; `false` if that fails.
unfoldable pub ensure_own : Driver → State → ℕ → State × Bool
ensure_own d s device =
    if s.own == 0 || not (s.own_device == device)
    then (if d.own_heap == 0 then (s, false) else (
      record {
        heaps =
            insert d.own_heap (make_reserve d.own_cpu d.own_gpu d.increment 0 reserve_size) s.heaps;
        own = d.own_heap;
        own_device = device;
      },
      true,
    ))
    else (s, true)

unfoldable pub is_empty : List View → Bool
is_empty [] = true
is_empty (v ∷ vs) = false

unfoldable pub bound_heaps : List BoundHeap → List ℕ
bound_heaps [] = []
bound_heaps (h ∷ hs) = h.heap ∷ bound_heaps hs

-- `Range`: the state, the outcome, and the heaps to bind (empty: leave them as they are).
unfoldable pub range : Driver → State → ℕ → List BoundHeap → List View → State × Outcome × List ℕ
range d s device heaps views =
    if is_empty views
    then (s, fail empty_range, [])
    else (let view = view_heap heaps 0 in
        if view == 0
        then (let (s', made) = ensure_own d s device in
            if made
            then (let (s'', out) = range_at d s' s'.own views in
                (s'', out, bound_heaps heaps ++ s'.own ∷ []))
            else (s', fail not_created, []))
        else (let (s', out) = range_at d s view views in (s', out, [])))

-- `Create`: how many descriptors are added at the end of a heap that the application asked for,
-- by whether it is a shader-visible heap of the right type. 0: the heap is left as asked.
unfoldable pub extra_descriptors : Bool → ℕ → ℕ
extra_descriptors grows asked =
    if not grows || leb max_heap asked
    then 0
    else (let extra = min reserve_size (max_heap - asked) in if ltb extra 256 then 0 else extra)
