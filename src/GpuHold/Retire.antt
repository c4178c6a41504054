-- ===== src/GpuHold/Retire.antt =====
-- proxy/gpu_hold.cpp: every recorded stamp is one that a fence of its queue will pass, so no
-- buffer stays busy for ever.
use dxr11_pascal.Base.{
  ℕ, ◌≤◌, ◌≡◌, refl, inl, inr, false, ◌&&◌, ◌||◌, not, List, [], ◌∷◌, arith, ◌==◌, any, Bool-cases,
  All,
}
use dxr11_pascal.GpuHold.{
  Stamp, State, Gpu, done_locked, owners_of, after_submit, detach, any_live, busy, is_empty, Op,
  uses_op, submits_op, once_op, detach_op, step, run,
}
use dxr11_pascal.GpuHold.Tracking.{
  IsEnded, IsTracked, end_locked-IsTracked, sweep_locked-IsTracked, use_of-IsTracked,
  stamp_submitted-IsTracked, submitted_once-IsTracked,
}

-- Every call keeps the bookkeeping: each stamp, live or ending, is of work that was never
-- submitted, or carries a value that the created fence of its queue was signalled to reach.
pub step-IsTracked :
    (from : ℕ → ℕ) (g : Gpu) (s : State) (op : Op) → IsTracked s → IsTracked (step from g s op)
unfolding step after_submit detach
step-IsTracked from g s (uses_op r o) h = use_of-IsTracked s r o h
step-IsTracked from g s (submits_op q lists) h =
    elim (Bool-cases (q == 0 || is_empty s.live && is_empty s.ending)) [
      | inl idle ↦ rw idle h
      | inr work ↦
          rw work
            (sweep_locked-IsTracked g _ (stamp_submitted-IsTracked g s q (owners_of from lists) h))
    ]
step-IsTracked from g s (once_op q o) h = submitted_once-IsTracked g s q o h
step-IsTracked from g s (detach_op o) h = elim (Bool-cases (o == 0)) [
  | inl null ↦ rw null h
  | inr given ↦ rw given (end_locked-IsTracked g s o h)
]

-- The GPU has passed all that was signalled.
abbrev pub CaughtUp : Gpu → State → Type 0
CaughtUp g s = (q : ℕ) → (s.fences q).value ≤ g.completed q

ended_done :
    (g : Gpu) (s : State) (r : ℕ) (ts : List Stamp)
    → CaughtUp g s
    → All (IsEnded s.fences) ts
    → any (λ t. t.res == r && not (done_locked g s t)) ts ≡ false
unfolding done_locked
ended_done g s r [] c h = refl
ended_done g s r (t ∷ ts) c h = ground (arith, h.0, c t.queue, ended_done g s r ts c h.1)

run-IsTracked :
    (from : ℕ → ℕ) (s : State) (ops : List (Gpu × Op)) → IsTracked s → IsTracked (run from s ops)
unfolding run
run-IsTracked from s [] h = h
run-IsTracked from s ((g, op) ∷ ops) h =
    run-IsTracked from (step from g s op) ops (step-IsTracked from g s op h)

abbrev pub initial : State
initial = record { live = []; ending = []; fences = λ _. record { created = false; value = 0 } }

idle_when_passed :
    (g : Gpu) (s : State) (r : ℕ)
    → IsTracked s
    → any_live r s.live ≡ false
    → CaughtUp g s
    → busy false g s r ≡ false
unfolding busy
idle_when_passed g s r h dead c =
    let passed = ended_done g s r s.ending c h.ended in rw (dead, passed) (ground arith)

-- After any history from the empty state: once no live owner uses `r`, and the GPU has passed
-- all that was signalled, `Busy(r)` answers false. So a buffer can always be reused in the end.
pub busy_ends :
    (from : ℕ → ℕ) (ops : List (Gpu × Op)) (g : Gpu) (r : ℕ)
    → any_live r (run from initial ops).live ≡ false
    → CaughtUp g (run from initial ops)
    → busy false g (run from initial ops) r ≡ false
busy_ends from ops g r dead c =
    idle_when_passed g (run from initial ops) r
      (run-IsTracked from initial ops (record { uses = tt; ended = tt })) dead c
