-- ===== src/AsTracker/Kept.antt =====
-- proxy/as_tracker.cpp: every call keeps the builds that are remembered in order and few.
use dxr11_pascal.Base.{
  ℕ, refl, inl, inr, ◌&&◌, ◌||◌, List, [], ◌∷◌, ◌++◌, Option, none, some, arith, ltb, leb, ◌==◌,
  any, All, lookup, set_key, Bool-cases, Option-cases, List-cases,
}
use dxr11_pascal.ResTracker.{Buffers}
use dxr11_pascal.AsTracker.{BuildInstances, Instance, PendingRead, State, key_or}
use dxr11_pascal.AsTracker.Parse.{parse_locked}
use dxr11_pascal.AsTracker.Builds.{
  Inputs, top_level, bottom_level, unreadable, other_type, advance, note_top_level,
  note_bottom_level, note_build,
}
use dxr11_pascal.AsTracker.Reads.{
  remember_in, remember, find_build, remember_copy, take_read, note_instances, note_empty, Gpu,
  is_done, stamp_pending, parse_read, finish_read, finish_reads, after_submit, to_stamp,
}
use dxr11_pascal.AsTracker.Remember.{IsKept, remember_in-IsKept}

-- Every structure's remembered builds are at most eight, in order, none of them 0.
abbrev pub Kept : State → Type 0
Kept s = All (λ e. IsKept e.1) s.inst_hist

All-set_key :
    (k : ℕ) (h : List BuildInstances) (m : List (ℕ × List BuildInstances))
    → IsKept h
    → All (λ e. IsKept e.1) m
    → All (λ e. IsKept e.1) (set_key k h m)
unfolding set_key
All-set_key k h [] p a = (p, a)
All-set_key k h ((at, g) ∷ m) p (q, a) = elim (Bool-cases (ltb k at)) [
  | inl u ↦ rw (u, set_key) (p, (q, a))
  | inr u ↦ elim (Bool-cases (k == at)) [
    | inl v ↦ rw (u, v, set_key) (p, a)
    | inr v ↦ rw (u, v, set_key) (q, All-set_key k h m p a)
  ]
]

nothing-IsKept : IsKept []
nothing-IsKept = record { in_order = refl; is_short = omega arith }

All-key_or :
    (k : ℕ) (m : List (ℕ × List BuildInstances)) → All (λ e. IsKept e.1) m → IsKept (key_or [] k m)
unfolding key_or lookup
All-key_or k [] a = nothing-IsKept
All-key_or k ((at, g) ∷ m) (q, a) = elim (Bool-cases (at == k)) [
  | inl u ↦ rw (u, key_or, lookup) q
  | inr u ↦ rw (u, key_or, lookup) (All-key_or k m a)
]

pub remember-Kept : (at : ℕ) (e : BuildInstances) (s : State) → Kept s → Kept (remember at e s)
unfolding remember
remember-Kept at e s k = elim (Bool-cases (e.build == 0)) [
  | inl u ↦ rw (u, remember) k
  | inr u ↦
      rw (u, remember)
        (All-set_key at (remember_in e (key_or [] at s.inst_hist)) s.inst_hist
          (remember_in-IsKept e (key_or [] at s.inst_hist) (ground arith)
            (All-key_or at s.inst_hist k))
          k)
]

pub remember_copy-Kept :
    (dst build source of : ℕ) (s : State) → Kept s → Kept (remember_copy dst build source of s)
unfolding remember_copy
remember_copy-Kept dst build source of s k = elim (Option-cases (lookup source s.inst_hist)) [
  | inl e ↦ rw (e, remember_copy) k
  | inr (h, e) ↦ elim (Option-cases (find_build of h)) [
    | inl f ↦ rw (e, f, remember_copy) k
    | inr (b, f) ↦ rw (e, f, remember_copy) (remember-Kept dst (record b { build = build }) s k)
  ]
]

pub take_read-Kept :
    (at build as_of : ℕ) (ds : List Instance) (s : State)
    → Kept s
    → Kept (take_read at build as_of ds s)
unfolding take_read parse_locked
take_read-Kept at build as_of ds s k = remember-Kept at _ _ k

pub note_instances-Kept :
    (at : ℕ) (ds : List Instance) (s : State) → Kept s → Kept (note_instances at ds s)
unfolding note_instances parse_locked
note_instances-Kept at [] s k = k
note_instances-Kept at (d ∷ ds) s k = elim (Bool-cases (at == 0)) [
  | inl u ↦ rw (u, note_instances) k
  | inr u ↦ elim (Option-cases (lookup at s.last_built)) [
    | inl e ↦ rw (u, e, note_instances) k
    | inr (b, e) ↦ rw (u, e, note_instances) (take_read-Kept at b _ (d ∷ ds) _ k)
  ]
]

pub note_empty-Kept : (at : ℕ) (s : State) → Kept s → Kept (note_empty at s)
unfolding note_empty parse_locked
note_empty-Kept at s k = elim (Bool-cases (at == 0)) [
  | inl u ↦ rw (u, note_empty) k
  | inr u ↦ elim (Option-cases (lookup at s.last_built)) [
    | inl e ↦ rw (u, e, note_empty) k
    | inr (b, e) ↦ rw (u, e, note_empty) (remember-Kept at _ _ k)
  ]
]

pub note_build-Kept :
    (buffers : Buffers) (desc : Option (ℕ × Inputs)) (s : State)
    → Kept s
    → Kept (note_build buffers desc s)
unfolding note_build note_top_level note_bottom_level advance
note_build-Kept buffers none s k = k
note_build-Kept buffers (some (dst, top_level n descs)) s k = k
note_build-Kept buffers (some (dst, bottom_level gs)) s k = k
note_build-Kept buffers (some (dst, unreadable)) s k = k
note_build-Kept buffers (some (dst, other_type)) s k = k

parse_read-Kept :
    (p : PendingRead) (ds : List Instance) (s : State) → Kept s → Kept (parse_read p ds s)
unfolding parse_read
parse_read-Kept p ds s k = elim (Option-cases (lookup p.tlas s.read_of)) [
  | inl e ↦ rw (e, parse_read) (take_read-Kept p.tlas p.build p.as_of ds s k)
  | inr (r, e) ↦ elim (Bool-cases (leb r p.build)) [
    | inl u ↦ rw (e, u, parse_read) (take_read-Kept p.tlas p.build p.as_of ds s k)
    | inr u ↦ rw (e, u, parse_read) (remember-Kept p.tlas _ s k)
  ]
]

finish_reads-Kept :
    (g : Gpu) (ps still : List PendingRead) (s : State) → Kept s → Kept (finish_reads g ps still s)
unfolding finish_reads finish_read
finish_reads-Kept g [] still s k = k
finish_reads-Kept g (p ∷ ps) still s k = elim (Bool-cases (is_done g s p)) [
  | inr u ↦ rw (u, finish_reads) (finish_reads-Kept g ps (still ++ p ∷ []) s k)
  | inl u ↦ elim (Option-cases (g.mapped p.readback)) [
    | inl e ↦ rw (u, e, finish_reads, finish_read) (finish_reads-Kept g ps still s k)
    | inr (ds, e) ↦
        rw (u, e, finish_reads, finish_read)
          (finish_reads-Kept g ps still (parse_read p ds s) (parse_read-Kept p ds s k))
  ]
]

stamp_pending-Kept :
    (from : ℕ → ℕ) (g : Gpu) (q : ℕ) (lists : List ℕ) (s : State)
    → Kept s
    → Kept (stamp_pending from g q lists s)
unfolding stamp_pending
stamp_pending-Kept from g q lists s k = elim (Bool-cases (any (to_stamp from lists) s.pending)) [
  | inr u ↦ rw (u, stamp_pending) k
  | inl u ↦ elim (Bool-cases (((s.fences q).created || g.can_create q) && g.can_signal q)) [
    | inl v ↦ rw (u, v, stamp_pending) k
    | inr v ↦ rw (u, v, stamp_pending) k
  ]
]

pub after_submit-Kept :
    (from : ℕ → ℕ) (g : Gpu) (q : ℕ) (lists : List ℕ) (s : State)
    → Kept s
    → Kept (after_submit from g q lists s)
unfolding after_submit
after_submit-Kept from g q lists s k = elim (Bool-cases (q == 0)) [
  | inl u ↦ rw (u, after_submit) k
  | inr u ↦ elim (List-cases s.pending) [
    | inl e ↦ rw (u, e, after_submit) k
    | inr (p, ps, e) ↦
        rw (u, e, after_submit)
          (finish_reads-Kept g (stamp_pending from g q lists s).pending [] _
            (stamp_pending-Kept from g q lists s k))
  ]
]
