-- ===== src/AsTracker/Steps.antt =====
-- proxy/as_tracker.cpp: the calls that change the state as the steps of one machine, and what every
-- sequence of them keeps.
use dxr11_pascal.Base.{ℕ, inl, inr, Bool, false, List, [], ◌∷◌, Option, ◌==◌, ◌||◌, Bool-cases}
use dxr11_pascal.ResTracker.{Buffers}
use dxr11_pascal.AsTracker.{Instance, Deserialized, State}
use dxr11_pascal.AsTracker.Builds.{Inputs, note_build}
use dxr11_pascal.AsTracker.Reads.{
  note_instances, note_empty, drop_snapshot, note_pending, drop_unsubmitted, Gpu, after_submit,
}
use dxr11_pascal.AsTracker.Queries.{bring_to_build, want_instances}
use dxr11_pascal.AsTracker.Copies.{Mode, note_copy}
use dxr11_pascal.AsTracker.Decodes.{Sizes, Decode, apply_decoded}
use dxr11_pascal.AsTracker.Kept.{
  Kept, note_instances-Kept, note_empty-Kept, note_build-Kept, after_submit-Kept,
}
use dxr11_pascal.AsTracker.Calls.{bring_to_build-Kept, want_instances-Kept, note_copy-Kept}
use dxr11_pascal.AsTracker.Reread.{apply_decoded-Kept}

pub data Op : Type 0 where
  build : Buffers → Option (ℕ × Inputs) → Op
  instances : ℕ → List Instance → Op
  empty : ℕ → Op
  snapshot_dropped : ℕ → Op
  pending_instances : ℕ → ℕ → ℕ → ℕ → Op
  unsubmitted : ℕ → Op
  submit : (ℕ → ℕ) → Gpu → ℕ → List ℕ → Op
  bring : Gpu → ℕ → ℕ → ℕ → Op
  want : ℕ → ℕ → Bool → Op
  copy : ℕ → ℕ → Mode → Op
  decoded : Sizes → ℕ → Deserialized → Option Decode → Op

-- A `BringToBuild` starts with eight copies to follow.
unfoldable pub step : Op → State → State
step (build buffers desc) s = note_build buffers desc s
step (instances at ds) s = note_instances at ds s
step (empty at) s = note_empty at s
step (snapshot_dropped at) s = drop_snapshot at s
step (pending_instances at readback count owner) s = note_pending at readback count owner s
step (unsubmitted owner) s = drop_unsubmitted owner s
step (submit from g q lists) s = after_submit from g q lists s
step (bring g list at b) s = (bring_to_build g list 8 at b s).0
step (want at count cheap) s = (want_instances at count cheap s).0
step (copy dst src mode) s = note_copy dst src mode s
step (decoded z dst at bytes) s = (apply_decoded z dst at bytes s).0

unfoldable pub run : List Op → State → State
run [] s = s
run (o ∷ os) s = run os (step o s)

unfoldable pub start : State
start = record {
  blas = [];
  as_serial = 0;
  blas_hist = [];
  tlas_as_serial = [];
  aliases = [];
  tlas = [];
  tlas_serial = 0;
  last_built = [];
  last_asked = [];
  first_built = [];
  build_count = [];
  read_of = [];
  pending = [];
  fences = λ q. record { created = false; value = 0 };
  snapshots = [];
  inst_hist = [];
  deserialized = [];
  summary = record {
    blas_count = 0;
    triangle_count = 0;
    procedural_count = 0;
    mixed_count = 0;
    tlas_count = 0;
    tlas_resolved = 0;
    tlas_read = 0;
    max_contribution_read = 0;
    saw_top_level = false;
  };
}

step-Kept : (o : Op) (s : State) → Kept s → Kept (step o s)
unfolding step drop_snapshot note_pending drop_unsubmitted
step-Kept (build buffers desc) s k = note_build-Kept buffers desc s k
step-Kept (instances at ds) s k = note_instances-Kept at ds s k
step-Kept (empty at) s k = note_empty-Kept at s k
step-Kept (snapshot_dropped at) s k = k
step-Kept (pending_instances at readback count owner) s k =
    elim (Bool-cases (at == 0 || (readback == 0 || (count == 0 || owner == 0)))) [
      | inl u ↦ rw (u, step, note_pending) k
      | inr u ↦ rw (u, step, note_pending) k
    ]
step-Kept (unsubmitted owner) s k = elim (Bool-cases (owner == 0)) [
  | inl u ↦ rw (u, step, drop_unsubmitted) k
  | inr u ↦ rw (u, step, drop_unsubmitted) k
]
step-Kept (submit from g q lists) s k = after_submit-Kept from g q lists s k
step-Kept (bring g list at b) s k = bring_to_build-Kept g list 8 at b s k
step-Kept (want at count cheap) s k = want_instances-Kept at count cheap s k
step-Kept (copy dst src mode) s k = note_copy-Kept dst src mode s k
step-Kept (decoded z dst at bytes) s k = apply_decoded-Kept z dst at bytes s k

run-Kept_from : (os : List Op) (s : State) → Kept s → Kept (run os s)
unfolding run
run-Kept_from [] s k = k
run-Kept_from (o ∷ os) s k = run-Kept_from os (step o s) (step-Kept o s k)

-- Whatever calls are made from the start, the builds remembered of each structure are at most
-- eight, in increasing order, none of them 0.
pub run-Kept : (os : List Op) → Kept (run os start)
unfolding start
run-Kept os = run-Kept_from os start _
