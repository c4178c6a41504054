-- ===== src/ResTracker/Tests.antt =====
-- proxy/res_tracker.cpp at a concrete map: two buffers, the second of which is replaced.
use dxr11_pascal.Base.{
  ℕ, ◌+◌, ◌-◌, ◌≤◌, ◌<◌, ◌≡◌, refl, inl, true, false, [], ◌∷◌, none, some, arith,
}
use dxr11_pascal.ResTracker.{
  Entry, Buffers, Resource, assign, heap_of, note, last_from, find, count,
}
use dxr11_pascal.ResTracker.Order.{IsOrdered}
use dxr11_pascal.ResTracker.Lookup.{IsEntry, note-find, find-IsEntry}

-- Runs every function of the module.
evaluates : ℕ
unfolding assign heap_of note last_from find count
evaluates = 0

abbrev two_buffers : Buffers
two_buffers =
    (4096, record { size = 256; resource = 1; heap = 2 })
    ∷ (8192, record { size = 512; resource = 2; heap = 1 })
    ∷ []

abbrev reused : Resource
reused = record {
  name = 3;
  is_buffer = true;
  width = 1024;
  address = 8192;
  heap_properties = some 2;
}

count-reused : count (note (some reused) false two_buffers) ≡ 2
unfolding evaluates
count-reused = refl

find_gap : find 5000 two_buffers ≡ record { resource = none; offset = 0; heap = 1 }
unfolding evaluates
find_gap = refl

two_buffers-IsOrdered : IsOrdered two_buffers
two_buffers-IsOrdered = ((omega arith, tt), (tt, tt))

note-find_example :
    find 9000 (note (some reused) false two_buffers)
    ≡ record { resource = some 3; offset = 9000 - 8192; heap = heap_of reused false }
note-find_example =
    note-find reused false two_buffers 9000 refl (omega arith) (omega arith) (omega arith)
      (omega arith) two_buffers-IsOrdered (inl (omega arith), (inl (omega arith), tt))

find-IsEntry_example :
    (at : ℕ) × (e : Entry) × IsEntry two_buffers at e
    × (at ≤ 4100)
    × (4100 < at + e.size)
    × (e.resource ≡ 1)
    × ((find 4100 two_buffers).offset ≡ 4100 - at)
    × ((find 4100 two_buffers).heap ≡ e.heap)
unfolding evaluates
find-IsEntry_example = find-IsEntry 4100 two_buffers 1 refl
