-- ===== src/HeapReserve/Tests.antt =====
-- proxy/heap_reserve.cpp at concrete reserves.
use dxr11_pascal.Base.{
  ℕ, ◌≡◌, refl, Bool, true, false, List, [], ◌∷◌, some, arith, ◌==◌, keep_if, lookup, insert, erase,
}
use dxr11_pascal.HeapReserve.{
  View, Entry, Reserve, view_eq, views_eq, first_fit, erase_views, erase_all, drop_idle, place,
  insert_entry, find_views, entry_at, write_views, handle_of, add_range, range_in, Driver,
  make_reserve, view_heap, range_at, ensure_own, is_empty, bound_heaps, range, extra_descriptors,
}
use dxr11_pascal.GpuHold
use dxr11_pascal.GpuHold.{
  signal_locked, done_locked, extra_stamps, restamp, stamp_locked, end_locked, sweep_locked,
  uses_res, use_of, add_use, stamp_owners, stamp_owner, stamp_submitted, owners_of, after_submit,
  submitted_once, detach, any_live, busy, is_live, is_empty as holds_nothing, Op, uses_op,
  detach_op, step, run, set_fence,
}
use dxr11_pascal.GpuHold.Recording.{has_use}
use dxr11_pascal.GpuHold.Safety.{Submits, mem_owner}
use dxr11_pascal.GpuHold.Retire.{initial}
use dxr11_pascal.HeapReserve.InFlight.{range_in-in_flight}
use dxr11_pascal.HeapReserve.Packing.{HasNoGap}
use dxr11_pascal.HeapReserve.Sound.{IsSound, Serves}
use dxr11_pascal.HeapReserve.Ranges.{range_in-Serves, range_in-kept, range_in-full}

-- Runs every function of the module.
evaluates : ℕ
unfolding view_eq views_eq first_fit erase_views erase_all drop_idle place insert_entry find_views
    entry_at write_views handle_of add_range range_in make_reserve view_heap range_at ensure_own
    is_empty bound_heaps range extra_descriptors lookup insert
evaluates = 0

abbrev structure_view : ℕ → View
structure_view a = record { structure = a; raw = 0; bytes = 0 }

abbrev first_range : Entry
first_range = record { key = 70; at = 0; n = 2; views = structure_view 1 ∷ structure_view 2 ∷ [] }

abbrev second_range : Entry
second_range = record { key = 71; at = 2; n = 1; views = structure_view 3 ∷ [] }

-- Four descriptors after the application's hundred, three of them in two ranges.
abbrev sample : Reserve
sample = record {
  base = 100;
  size = 4;
  cpu0 = 0;
  gpu0 = 5000;
  inc = 32;
  entries = first_range ∷ second_range ∷ [];
  by_views = (second_range.views, 71) ∷ (first_range.views, 70) ∷ [];
}

sample-IsSound : IsSound sample
unfolding evaluates
sample-IsSound = record {
  small = omega arith;
  packed = omega arith;
  linked = ((second_range, refl, refl, refl), ((first_range, refl, refl, refl), tt));
}

abbrev wanted : List View
wanted = structure_view 8 ∷ structure_view 9 ∷ []

abbrev first_busy : ℕ → Bool
first_busy k = k == 70

abbrev all_busy : ℕ → Bool
all_busy k = true

range_in-Serves_example :
    let res = range_in first_busy 72 sample wanted in
    IsSound res.0 × Serves sample res.0 wanted res.1
unfolding evaluates
range_in-Serves_example =
    range_in-Serves first_busy 72 sample wanted sample-IsSound refl (omega arith)

range_in-kept_example :
    entry_at 70 (range_in first_busy 72 sample wanted).0.entries ≡ some first_range
unfolding evaluates
range_in-kept_example = range_in-kept first_busy 72 sample wanted 70 first_range refl refl refl

range_in-full_example : HasNoGap 4 2 0 (keep_if (λ e. all_busy e.key) sample.entries)
unfolding evaluates
range_in-full_example = range_in-full all_busy 72 sample wanted sample-IsSound (omega arith) refl

-- With no heap bound the shim's own heap is made and bound as well.
abbrev driver : Driver
driver = record {
  own_heap = 9;
  own_cpu = 64;
  own_gpu = 4096;
  increment = 32;
  busy = all_busy;
  fresh = 72;
}

own_heap_lem :
    (range driver
      (record { heaps = []; own = 0; own_device = 0 })
      5
      (record { heap = 3; is_view = false } ∷ [])
      wanted).2
    ≡ 3 ∷ 9 ∷ []
unfolding evaluates
own_heap_lem = refl

extra_lem :
    ◌≡◌ {A = List ℕ}
      (extra_descriptors true 1000 ∷ extra_descriptors true 999800 ∷ [])
      (4096 ∷ 0 ∷ [])
unfolding evaluates
extra_lem = refl

-- Runs the functions of gpu_hold as well.
holds : ℕ
unfolding evaluates set_fence signal_locked done_locked extra_stamps restamp stamp_locked end_locked
    sweep_locked uses_res use_of add_use stamp_owners stamp_owner stamp_submitted owners_of
    after_submit submitted_once detach any_live busy is_live holds_nothing step run has_use
    mem_owner erase
holds = 0

abbrev gpu_at : ℕ → GpuHold.Gpu
gpu_at n = record { completed = λ q. n; can_create = λ q. true; can_signal = λ q. true }

-- The list 12 uses the first range.
abbrev range_used : GpuHold.State
range_used = record {
  live = (12, record { res = 70; queue = 0; fence = 0 } ∷ []) ∷ [];
  ending = [];
  fences = initial.fences;
}

range_used-Submits : Submits (λ l. l) (gpu_at 0) range_used 3 (12 ∷ []) 12 70
unfolding holds
range_used-Submits = record {
  distinct = (refl, tt);
  on_queue = omega arith;
  sent = refl;
  used = refl;
  creates = refl;
  signals = refl;
}

-- The list is reset and another one records, and the GPU is still at work.
abbrev meanwhile : List (GpuHold.Gpu × Op)
meanwhile = (gpu_at 0, detach_op 12) ∷ (gpu_at 0, uses_op 71 13) ∷ []

range_in-in_flight_example :
    entry_at 70
      (range_in
        (busy false
          (gpu_at 0)
          (run (λ l. l) (after_submit (λ l. l) (gpu_at 0) range_used 3 (12 ∷ [])) meanwhile))
        72
        sample
        wanted).0.entries
    ≡ some first_range
unfolding holds
range_in-in_flight_example =
    range_in-in_flight (λ l. l) (gpu_at 0) range_used 3 (12 ∷ []) 12 70 meanwhile (gpu_at 0) 72
      sample wanted first_range range_used-Submits
      ((λ q. omega arith), ((λ q. omega arith), (λ q. omega arith))) (omega arith) (omega arith)
      refl refl
