-- ===== src/SceneBind/Tests.antt =====
-- proxy/scene_bind.cpp with two heaps whose handles interleave, as the driver's do.
use dxr11_pascal.Base.{
  ℕ, ◌+◌, ◌*◌, ◌<◌, ◌≡◌, ◌≢◌, refl, true, false, List, [], ◌∷◌, none, some, arith, lookup, insert,
  erase,
}
use dxr11_pascal.TraceArgs.{pair_ltb}
use dxr11_pascal.SceneBind.{
  State, visit_handles, visit_recorded, each_in, erase_handles, erase_locked, Heap, note_heap,
  note_overwrite, note_srv,
}
use dxr11_pascal.SceneBind.Copying.{
  Run, ranges, push_run, pair_runs, carried_by, carried, erase_runs, write_all, copy_runs, rounds,
  note_copy,
}
use dxr11_pascal.SceneBind.Finding.{
  Bound, is_outside, structure_at, lookup_gpu, lookup_slot, sort_entry, sort_entries, enumerate_in,
  enumerate,
}
use dxr11_pascal.SceneBind.Runs.{handles, side_by_side, pairs_of, pair_runs_lem}
use dxr11_pascal.SceneBind.Slots.{lookup_slot-note_srv}
use dxr11_pascal.SceneBind.Erase.{note_heap_forgets, note_heap_keeps}

-- Runs every function of the module.
evaluates : ℕ
unfolding visit_handles visit_recorded each_in erase_handles erase_locked note_heap note_overwrite
    note_srv lookup insert erase ranges push_run pair_runs carried_by carried erase_runs write_all
    copy_runs note_copy is_outside structure_at lookup_gpu lookup_slot sort_entry sort_entries
    enumerate_in enumerate pair_ltb
evaluates = 0

abbrev nothing_recorded : State
nothing_recorded = record { structures = []; any_recorded = false }

-- Handles 1 and 33 are of one heap, 34 of the other.
abbrev three_recorded : State
three_recorded = record { structures = (1, 700) ∷ (33, 800) ∷ (34, 900) ∷ []; any_recorded = true }

abbrev first_heap : Heap
first_heap = record { is_view = true; start = 1; count = 2 }

recorded_in_turn :
    note_srv 34 (some 900) (note_srv 33 (some 800) (note_srv 1 (some 700) nothing_recorded))
    ≡ three_recorded
unfolding evaluates
recorded_in_turn = refl

overwritten : (note_srv 33 none three_recorded).structures ≡ (1, 700) ∷ (34, 900) ∷ []
unfolding evaluates
overwritten = refl

heap_made : (note_heap 32 (some first_heap) three_recorded).structures ≡ (34, 900) ∷ []
unfolding evaluates
heap_made = refl

note_heap_forgets_example :
    lookup (1 + 1 * 32) (note_heap 32 (some first_heap) three_recorded).structures ≡ none
note_heap_forgets_example =
    note_heap_forgets 32 first_heap three_recorded 1 refl refl (omega arith) (omega arith)

first_heap_other : (j : ℕ) → j < 2 → 1 + j * 32 ≢ 34
first_heap_other j h e = omega (arith, h, e)

note_heap_keeps_example :
    lookup 34 (note_heap 32 (some first_heap) three_recorded).structures
    ≡ lookup 34 three_recorded.structures
note_heap_keeps_example = note_heap_keeps 32 first_heap three_recorded 34 first_heap_other

-- Two descriptors moved up by one slot: the copy overlaps itself and reads what was there.
moved_up :
    (note_copy true 32 ((33, 2) ∷ []) ((1, 2) ∷ []) three_recorded).structures
    ≡ (1, 700) ∷ (34, 900) ∷ (33, 700) ∷ (65, 800) ∷ []
unfolding evaluates
moved_up = refl

pair_runs_lem_example :
    (rs : List Run) × (pair_runs
        (rounds ((33, 2) ∷ (5, 1) ∷ []) ((1, 3) ∷ []))
        32
        ((33, 2) ∷ (5, 1) ∷ [])
        ((1, 3) ∷ [])
        0
        0
      ≡ some rs)
    × (pairs_of 32 rs
        ≡ side_by_side (handles 32 ((1, 3) ∷ [])) (handles 32 ((33, 2) ∷ (5, 1) ∷ [])))
pair_runs_lem_example = pair_runs_lem 32 ((33, 2) ∷ (5, 1) ∷ []) ((1, 3) ∷ [])

abbrev bound_heap : Bound
bound_heap = record {
  is_visible = true;
  cpu_start = 1;
  gpu_start = 4096;
  count = 4;
  increment = some 32;
}

abbrev sampler_heap : Bound
sampler_heap = record bound_heap { is_visible = false }

lookup_slot-note_srv_example :
    lookup_slot
      (note_srv (1 + 2 * 32) (some 900) three_recorded).structures
      (none ∷ some sampler_heap ∷ some bound_heap ∷ [])
      2
    ≡ (900, true)
lookup_slot-note_srv_example =
    lookup_slot-note_srv (none ∷ some sampler_heap ∷ []) bound_heap [] 32 2 900 three_recorded refl
      refl refl (omega arith) (omega arith)

whole_heap :
    enumerate three_recorded.structures (some bound_heap ∷ []) 0 4
    ≡ ((0, 700) ∷ (1, 800) ∷ [], true)
unfolding evaluates
whole_heap = refl
