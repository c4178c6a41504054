-- ===== src/HeapReserve/InFlight.antt =====
-- proxy/heap_reserve.cpp over proxy/gpu_hold.cpp: `Range` asks `gpuhold::Busy` which ranges may go,
-- by the address of their entries.
use dxr11_pascal.Base.{
  ℕ, length, ◌+◌, ◌<◌, ◌≡◌, ◌≢◌, inl, inr, false, List, some, arith, Bool-cases,
}
use dxr11_pascal.GpuHold.{State, Gpu, Op, after_submit, busy, run}
use dxr11_pascal.GpuHold.Safety.{Forward, Submits, busy_until_passed}
use dxr11_pascal.HeapReserve.{View, Entry, Reserve, entry_at, place, range_in}
use dxr11_pascal.HeapReserve.Ranges.{range_in-kept}
use dxr11_pascal.HeapReserve.Sound.{IsFresh}

-- A list that uses an entry's range goes out on queue `q`, and the driver takes the signal. Then,
-- whatever calls of gpu_hold follow while the GPU only advances, as long as the queue's fence has not
-- reached the value that this submission signalled, `Range` neither drops nor moves that range. The
-- entry's address is not null, and a new entry has an address that no entry
-- has which `Place` leaves.
pub range_in-in_flight :
    (from : ℕ → ℕ) (g : Gpu) (s : State) (q : ℕ) (lists : List ℕ) (o k : ℕ) (ops : List (Gpu × Op))
    (last : Gpu) (fresh : ℕ) (r : Reserve) (views : List View) (e : Entry)
    → Submits from g s q lists o k
    → Forward g ops last
    → k ≢ 0
    → last.completed q < (s.fences q).value + 1
    → IsFresh fresh
        (place
          (busy false last (run from (after_submit from g s q lists) ops))
          r
          (length views)).0.entries
    → entry_at k r.entries ≡ some e
    → entry_at k
        (range_in
          (busy false last (run from (after_submit from g s q lists) ops))
          fresh
          r
          views).0.entries
      ≡ some e
range_in-in_flight from g s q lists o k ops last fresh r views e sub forward nz behind new there =
    let now = run from (after_submit from g s q lists) ops in
    elim (Bool-cases (busy false last now k)) [
      | inl held ↦ range_in-kept (busy false last now) fresh r views k e new there held
      | inr idle ↦
          let past = busy_until_passed from g s q lists o k ops last sub forward nz idle in
          absurd (omega (arith, past, behind))
    ]
