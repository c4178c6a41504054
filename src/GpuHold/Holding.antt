-- ===== src/GpuHold/Holding.antt =====
-- proxy/gpu_hold.cpp: a submission that is recorded stays recorded through each call.
use dxr11_pascal.Base.{
  ℕ, ◌≤◌, ◌<◌, ◌≡◌, refl, sym, ap, ◌∙◌, subst, ◌⊎◌, inl, inr, ◌≢◌, true, false, ◌&&◌, ◌||◌, List,
  [], ◌∷◌, arith, ◌==◌, any, lookup, Distinct, insert-Distinct, erase-Distinct, Option-cases,
  Bool-cases,
}
use dxr11_pascal.GpuHold.{
  State, Gpu, signal_locked, end_locked, sweep_locked, uses_of, use_of, stamp_owners, stamp_owner,
  add_use, stamp_submitted, owners_of, after_submit, submitted_once, detach, is_live, is_empty, Op,
  uses_op, submits_op, once_op, detach_op, step,
}
use dxr11_pascal.GpuHold.Recording.{
  recorded, signal_locked_lem, recorded-end_locked, recorded-sweep_locked, recorded-use_of,
  recorded-stamp_owner, recorded-stamp_owners,
}

end_locked-Distinct :
    (g : Gpu) (s : State) (o : ℕ) → Distinct s.live → Distinct (end_locked g s o).live
unfolding end_locked
end_locked-Distinct g s o d = ground (arith, erase-Distinct o s.live d)

stamp_owner-Distinct :
    (g : Gpu) (s : State) (p w o : ℕ) → Distinct s.live → Distinct (stamp_owner g s p w o).live
unfolding stamp_owner
stamp_owner-Distinct g s p w o d = elim (Option-cases (lookup o s.live)) [
  | inl e ↦ rw (e, stamp_owner) d
  | inr (uses, e) ↦ rw (e, stamp_owner) (insert-Distinct o _ s.live d)
]

stamp_owner-fences : (g : Gpu) (s : State) (p w o : ℕ) → (stamp_owner g s p w o).fences ≡ s.fences
unfolding stamp_owner
stamp_owner-fences g s p w o = elim (Option-cases (lookup o s.live)) [
  | inl e ↦ rw (e, stamp_owner)
  | inr (uses, e) ↦ rw (e, stamp_owner)
]

pub stamp_owners-fences :
    (g : Gpu) (p w : ℕ) (s : State) (os : List ℕ) → (stamp_owners g s p w os).fences ≡ s.fences
unfolding stamp_owners
stamp_owners-fences g p w s [] = refl
stamp_owners-fences g p w s (o ∷ os) =
    stamp_owners-fences g p w (stamp_owner g s p w o) os ∙ stamp_owner-fences g s p w o

pub stamp_owners-Distinct :
    (g : Gpu) (p w : ℕ) (s : State) (os : List ℕ)
    → Distinct s.live
    → Distinct (stamp_owners g s p w os).live
unfolding stamp_owners
stamp_owners-Distinct g p w s [] d = d
stamp_owners-Distinct g p w s (o ∷ os) d =
    stamp_owners-Distinct g p w (stamp_owner g s p w o) os (stamp_owner-Distinct g s p w o d)

-- A covered use in a state whose map holds each owner once.
pub record Holds (g : Gpu) (s : State) (r q v : ℕ) : Type 0 where
  pub distinct : Distinct s.live
  pub positive : 0 < v
  pub signalled : v ≤ (s.fences q).value
  pub kept : recorded g s r q v ≡ true

recorded_same :
    (g : Gpu) (s t : State) (r q v : ℕ)
    → s.live ≡ t.live
    → s.ending ≡ t.ending
    → recorded g s r q v ≡ recorded g t r q v
unfolding recorded
recorded_same g s t r q v e f = rw (e, f)

module _ (g : Gpu) (s : State) (r q v : ℕ) (h : Holds g s r q v) where
  signal-Holds : (p : ℕ) → Holds g (signal_locked g s p).0 r q v
  signal-Holds p =
      let (live_eq, ending_eq, rises, _, _) = signal_locked_lem g s p q in
      record {
        distinct = subst Distinct (sym live_eq) h.distinct;
        positive = h.positive;
        signalled = omega arith;
        kept = recorded_same g (signal_locked g s p).0 s r q v live_eq ending_eq ∙ h.kept;
      }

  -- The value that a signal of queue `p` returned is past all that `p` had signalled.
  signal_fresh :
      (p : ℕ) → (signal_locked g s p).1 ≢ 0 → ((q == p) ≡ false) ⊎ (v ≤ (signal_locked g s p).1)
  signal_fresh p nz = elim (Bool-cases (q == p)) [
    | inr off ↦ inl off
    | inl same ↦ inr (
        let here : q ≡ p = ground arith in
        let top = h.signalled in
        let (_, _, _, past, _) = signal_locked_lem g s p q in
        ground (arith, ap (λ (x : ℕ). (s.fences x).value) here))
  ]

  end_locked-Holds : (o : ℕ) → Holds g (end_locked g s o) r q v
  unfolding end_locked
  end_locked-Holds o = record {
    distinct = end_locked-Distinct g s o h.distinct;
    positive = h.positive;
    signalled = ground (arith, h.signalled);
    kept = recorded-end_locked g s o r q v h.distinct h.positive h.kept;
  }

  pub sweep_locked-Holds : Holds g (sweep_locked g s) r q v
  unfolding sweep_locked
  sweep_locked-Holds = record {
    distinct = h.distinct;
    positive = h.positive;
    signalled = h.signalled;
    kept = recorded-sweep_locked g s r q v h.kept;
  }

  use_of-Holds : (u o : ℕ) → Holds g (use_of s u o) r q v
  unfolding use_of
  use_of-Holds u o = record {
    distinct = ground (arith, h.distinct, insert-Distinct o (add_use u (uses_of o s)) s.live);
    positive = h.positive;
    signalled = ground (arith, h.signalled);
    kept = recorded-use_of g s u o r q v h.kept;
  }

  stamp_owners-Holds :
      (p w : ℕ) (os : List ℕ)
      → ((q == p) ≡ false) ⊎ (v ≤ w)
      → Holds g (stamp_owners g s p w os) r q v
  stamp_owners-Holds p w os le = record {
    distinct = stamp_owners-Distinct g p w s os h.distinct;
    positive = h.positive;
    signalled = rw (stamp_owners-fences g p w s os) h.signalled;
    kept = recorded-stamp_owners g p w r q v s os le h.positive h.kept;
  }

  stamp_owner-Holds :
      (p w o : ℕ) → ((q == p) ≡ false) ⊎ (v ≤ w) → Holds g (stamp_owner g s p w o) r q v
  stamp_owner-Holds p w o le = record {
    distinct = stamp_owner-Distinct g s p w o h.distinct;
    positive = h.positive;
    signalled = rw (stamp_owner-fences g s p w o) h.signalled;
    kept = recorded-stamp_owner g s p w o r q v le h.positive h.kept;
  }

stamp_submitted-Holds :
    (g : Gpu) (s : State) (p r q v : ℕ) (os : List ℕ)
    → Holds g s r q v
    → Holds g (stamp_submitted g s p os) r q v
unfolding stamp_submitted
stamp_submitted-Holds g s p r q v os h = elim (Bool-cases (any (is_live s) os)) [
  | inr dead ↦ rw dead h
  | inl live ↦ rw live (elim (Bool-cases ((signal_locked g s p).1 == 0)) [
    | inl failed ↦ rw failed (signal-Holds g s r q v h p)
    | inr signalled ↦ rw signalled (
        stamp_owners-Holds g (signal_locked g s p).0 r q v (signal-Holds g s r q v h p) p
          (signal_locked g s p).1 os (signal_fresh g s r q v h p (ground arith)))
  ])
]

after_submit-Holds :
    (from : ℕ → ℕ) (g : Gpu) (s : State) (p r q v : ℕ) (lists : List ℕ)
    → Holds g s r q v
    → Holds g (after_submit from g s p lists) r q v
unfolding after_submit
after_submit-Holds from g s p r q v lists h =
    elim (Bool-cases (p == 0 || is_empty s.live && is_empty s.ending)) [
      | inl idle ↦ rw idle h
      | inr work ↦ rw work (
          sweep_locked-Holds g (stamp_submitted g s p (owners_of from lists)) r q v
            (stamp_submitted-Holds g s p r q v (owners_of from lists) h))
    ]

submitted_once-Holds :
    (g : Gpu) (s : State) (p o r q v : ℕ) → Holds g s r q v → Holds g (submitted_once g s p o) r q v
unfolding submitted_once
submitted_once-Holds g s p o r q v h = elim (Bool-cases (p == 0 || o == 0)) [
  | inl null ↦ rw null h
  | inr given ↦ rw given (elim (Option-cases (lookup o s.live)) [
    | inl e ↦ rw e h
    | inr (uses, e) ↦ rw e (elim (Bool-cases ((signal_locked g s p).1 == 0)) [
      | inl failed ↦ rw failed (signal-Holds g s r q v h p)
      | inr signalled ↦ rw signalled (
          end_locked-Holds g _ r q v
            (stamp_owner-Holds g (signal_locked g s p).0 r q v (signal-Holds g s r q v h p) p
              (signal_locked g s p).1 o (signal_fresh g s r q v h p (ground arith)))
            o)
    ])
  ])
]

detach-Holds : (g : Gpu) (s : State) (o r q v : ℕ) → Holds g s r q v → Holds g (detach g s o) r q v
unfolding detach
detach-Holds g s o r q v h = elim (Bool-cases (o == 0)) [
  | inl null ↦ rw null h
  | inr given ↦ rw given (end_locked-Holds g s r q v h o)
]

pub step-Holds :
    (from : ℕ → ℕ) (g : Gpu) (s : State) (op : Op) (r q v : ℕ)
    → Holds g s r q v
    → Holds g (step from g s op) r q v
unfolding step
step-Holds from g s (uses_op u o) r q v h = use_of-Holds g s r q v h u o
step-Holds from g s (submits_op p lists) r q v h = after_submit-Holds from g s p r q v lists h
step-Holds from g s (once_op p o) r q v h = submitted_once-Holds g s p o r q v h
step-Holds from g s (detach_op o) r q v h = detach-Holds g s o r q v h
