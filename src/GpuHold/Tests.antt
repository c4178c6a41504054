-- ===== src/GpuHold/Tests.antt =====
-- proxy/gpu_hold.cpp at concrete inputs: one list that reads one table.
use dxr11_pascal.Base.{
  ℕ, ◌+◌, ◌≤◌, ◌≡◌, refl, true, false, List, [], ◌∷◌, arith, lookup, insert, erase,
}
use dxr11_pascal.GpuHold.{
  State, Gpu, signal_locked, done_locked, extra_stamps, restamp, stamp_locked, end_locked,
  sweep_locked, uses_res, use_of, add_use, stamp_owners, stamp_owner, stamp_submitted, owners_of,
  after_submit, submitted_once, detach, any_live, busy, is_live, is_empty, Op, uses_op, submits_op,
  once_op, detach_op, step, run, set_fence,
}
use dxr11_pascal.GpuHold.Recording.{has_use}
use dxr11_pascal.GpuHold.Safety.{Submits, mem_owner, busy_until_passed}
use dxr11_pascal.GpuHold.Tracking.{IsTracked}
use dxr11_pascal.GpuHold.Retire.{step-IsTracked, busy_ends, initial}

-- A driver that takes every call and has completed `n` on every queue.
abbrev gpu_at : ℕ → Gpu
gpu_at n = record { completed = λ _. n; can_create = λ _. true; can_signal = λ _. true }

-- One list (12) whose recording uses one table (7).
abbrev recorded_once : State
recorded_once = record {
  live = (12, record { res = 7; queue = 0; fence = 0 } ∷ []) ∷ [];
  ending = [];
  fences = initial.fences;
}

abbrev plain : ℕ → ℕ
plain l = l

abbrev history : List (Gpu × Op)
history = (gpu_at 0, detach_op 12) ∷ (gpu_at 1, uses_op 8 13) ∷ []

-- Runs every function of the module.
evaluates : ℕ
unfolding set_fence signal_locked done_locked extra_stamps restamp stamp_locked end_locked
    sweep_locked uses_res use_of add_use stamp_owners stamp_owner stamp_submitted owners_of
    after_submit submitted_once detach any_live busy is_live is_empty step run lookup insert erase
evaluates = 0

recorded_once_lem : run plain initial ((gpu_at 0, uses_op 7 12) ∷ []) ≡ recorded_once
unfolding evaluates
recorded_once_lem = refl

busy_in_flight :
    busy false (gpu_at 0) (run plain recorded_once ((gpu_at 0, submits_op 3 (12 ∷ [])) ∷ history)) 7
    ≡ true
unfolding evaluates
busy_in_flight = refl

recorded_once-Submits : Submits plain (gpu_at 0) recorded_once 3 (12 ∷ []) 12 7
unfolding evaluates has_use mem_owner
recorded_once-Submits = record {
  distinct = (refl, tt);
  on_queue = omega arith;
  sent = refl;
  used = refl;
  creates = refl;
  signals = refl;
}

busy_until_passed_example : (recorded_once.fences 3).value + 1 ≤ (gpu_at 1).completed 3
unfolding evaluates
busy_until_passed_example =
    busy_until_passed plain (gpu_at 0) recorded_once 3 (12 ∷ []) 12 7 history (gpu_at 1)
      recorded_once-Submits ((λ q. omega arith), ((λ q. omega arith), (λ q. omega arith)))
      (omega arith) refl

step-IsTracked_example : IsTracked (step plain (gpu_at 0) recorded_once (once_op 3 12))
step-IsTracked_example =
    step-IsTracked plain (gpu_at 0) recorded_once (once_op 3 12)
      (record { uses = omega arith; ended = tt })

busy_ends_example :
    busy false
      (gpu_at 1)
      (run plain initial ((gpu_at 0, uses_op 7 12) ∷ (gpu_at 0, once_op 3 12) ∷ []))
      7
    ≡ false
unfolding evaluates
busy_ends_example =
    busy_ends plain ((gpu_at 0, uses_op 7 12) ∷ (gpu_at 0, once_op 3 12) ∷ []) (gpu_at 1) 7 refl
      (λ q. ground arith)
