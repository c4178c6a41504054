-- ===== src/GpuHold/Tracking.antt =====
-- proxy/gpu_hold.cpp: the bookkeeping of stamps and fences, through each operation.
use dxr11_pascal.Base.{
  ℕ, ◌≤◌, ◌<◌, ◌≡◌, refl, ◌⊎◌, inl, inr, ◌≢◌, true, ◌||◌, List, [], ◌∷◌, some, arith, ◌==◌, any,
  lookup, insert, erase, Option-cases, Bool-cases, All, All-append, All-map, All-keep_if,
  All-keep_if-true,
}
use dxr11_pascal.GpuHold.{
  Stamp, QueueFence, State, Gpu, signal_locked, extra_stamps, restamp, stamp_locked, end_locked,
  sweep_locked, uses_res, uses_of, use_of, add_use, stamp_owners, stamp_owner, stamp_submitted,
  submitted_once, is_live,
}

-- Never submitted, or under a value that its queue's fence was signalled to reach.
abbrev pub IsSignalled : (ℕ → QueueFence) → Stamp → Type 0
IsSignalled f t = (t.fence ≡ 0) ⊎ (((f t.queue).created ≡ true) × (t.fence ≤ (f t.queue).value))

-- What waits for its fence was submitted.
abbrev pub IsEnded : (ℕ → QueueFence) → Stamp → Type 0
IsEnded f t = (0 < t.fence) × IsSignalled f t

abbrev pub AllUses : (Stamp → Type 0) → List (ℕ × List Stamp) → Type 0
AllUses P [] = Unit
AllUses P ((o, uses) ∷ m) = All P uses × AllUses P m

pub record IsTracked (s : State) : Type 0 where
  pub uses : AllUses (IsSignalled s.fences) s.live
  pub ended : All (IsEnded s.fences) s.ending

AllUses-insert :
    (P : Stamp → Type 0) (o : ℕ) (new : List Stamp) (m : List (ℕ × List Stamp))
    → All P new
    → AllUses P m
    → AllUses P (insert o new m)
unfolding insert
AllUses-insert P o new [] h k = (h, tt)
AllUses-insert P o new ((p, us) ∷ m) h k = ground (arith, AllUses-insert P o new m h k.1)

AllUses-erase :
    (P : Stamp → Type 0) (o : ℕ) (m : List (ℕ × List Stamp)) → AllUses P m → AllUses P (erase o m)
unfolding erase
AllUses-erase P o [] k = tt
AllUses-erase P o ((p, us) ∷ m) k = ground (arith, AllUses-erase P o m k.1)

AllUses-lookup :
    (P : Stamp → Type 0) (o : ℕ) (uses : List Stamp) (m : List (ℕ × List Stamp))
    → lookup o m ≡ some uses
    → AllUses P m
    → All P uses
unfolding lookup
AllUses-lookup P o uses [] e k = cc
AllUses-lookup P o uses ((p, us) ∷ m) e k = elim (Bool-cases (p == o)) [
  | inl hit ↦ let same : us ≡ uses = ground (arith, e) in rw (← same) k.0
  | inr miss ↦ AllUses-lookup P o uses m (ground arith) k.1
]

AllUses-map :
    (P Q : Stamp → Type 0)
    → ((t : Stamp) → P t → Q t)
    → (m : List (ℕ × List Stamp)) → AllUses P m
    → AllUses Q m
AllUses-map P Q f [] k = tt
AllUses-map P Q f ((o, us) ∷ m) k = (All-map P Q f us k.0, AllUses-map P Q f m k.1)

signal-IsTracked : (g : Gpu) (s : State) (q : ℕ) → IsTracked s → IsTracked (signal_locked g s q).0
signal-IsTracked g s q h = record {
  uses = rw live_eq (AllUses-map _ _ keep s.live h.uses);
  ended = rw ending_eq (All-map _ _ (λ t k. (k.0, keep t k.1)) s.ending h.ended);
}
  where
    live_eq : (signal_locked g s q).0.live ≡ s.live
    live_eq = unfold signal_locked in ground arith

    ending_eq : (signal_locked g s q).0.ending ≡ s.ending
    ending_eq = unfold signal_locked in ground arith

    keep : (t : Stamp) → IsSignalled s.fences t → IsSignalled (signal_locked g s q).0.fences t
    keep t k = unfold signal_locked in ground arith

signal_value :
    (g : Gpu) (s : State) (q : ℕ)
    → (signal_locked g s q).1 ≢ 0
    → (((signal_locked g s q).0.fences q).created ≡ true)
      × ((signal_locked g s q).1 ≤ ((signal_locked g s q).0.fences q).value)
unfolding signal_locked
signal_value g s q h = ground arith

restamp-All :
    (P : Stamp → Type 0) (q v : ℕ) (uses : List Stamp)
    → ((t : Stamp) → t.queue ≡ q → t.fence ≡ v → P t)
    → All P (restamp q v uses)
unfolding restamp
restamp-All P q v [] h = tt
restamp-All P q v (t ∷ ts) h = (h _ refl refl, restamp-All P q v ts h)

stamp_owner-IsTracked :
    (g : Gpu) (s : State) (q v o : ℕ)
    → ((s.fences q).created ≡ true) × (v ≤ (s.fences q).value)
    → IsTracked s
    → IsTracked (stamp_owner g s q v o)
unfolding stamp_owner stamp_locked extra_stamps
stamp_owner-IsTracked g s q v o ok h = elim (Option-cases (lookup o s.live)) [
  | inl e ↦ rw (e, stamp_owner) h
  | inr (uses, e) ↦
      rw (e, stamp_owner)
        (record {
          uses =
              AllUses-insert _ o _ s.live
                (All-append _ (restamp q v uses) _
                  (restamp-All (IsSignalled s.fences) q v uses (λ t eq ef. inr (rw (eq, ef) ok)))
                  (All-keep_if _ _ uses (AllUses-lookup _ o uses s.live e h.uses)))
                h.uses;
          ended = h.ended;
        })
]

stamp_owner_fences : (g : Gpu) (s : State) (q v o : ℕ) → (stamp_owner g s q v o).fences ≡ s.fences
unfolding stamp_owner
stamp_owner_fences g s q v o = ground arith

stamp_owners-IsTracked :
    (g : Gpu) (q v : ℕ) (s : State) (os : List ℕ)
    → ((s.fences q).created ≡ true) × (v ≤ (s.fences q).value)
    → IsTracked s
    → IsTracked (stamp_owners g s q v os)
unfolding stamp_owners
stamp_owners-IsTracked g q v s [] ok h = h
stamp_owners-IsTracked g q v s (o ∷ os) ok h =
    stamp_owners-IsTracked g q v (stamp_owner g s q v o) os (rw (stamp_owner_fences g s q v o) ok)
      (stamp_owner-IsTracked g s q v o ok h)

pub end_locked-IsTracked :
    (g : Gpu) (s : State) (o : ℕ) → IsTracked s → IsTracked (end_locked g s o)
unfolding end_locked
end_locked-IsTracked g s o h = elim (Option-cases (lookup o s.live)) [
  | inl e ↦ rw (e, end_locked) h
  | inr (uses, e) ↦
      rw (e, end_locked)
        (record {
          uses = AllUses-erase _ o s.live h.uses;
          ended = All-append _ s.ending _ h.ended (
              All-keep_if-true (IsSignalled s.fences) (IsEnded s.fences) _
                (λ t k j. (ground (arith, k), j)) uses (AllUses-lookup _ o uses s.live e h.uses));
        })
]

pub sweep_locked-IsTracked : (g : Gpu) (s : State) → IsTracked s → IsTracked (sweep_locked g s)
unfolding sweep_locked
sweep_locked-IsTracked g s h = record { uses = h.uses; ended = All-keep_if _ _ s.ending h.ended }

pub use_of-IsTracked : (s : State) (r o : ℕ) → IsTracked s → IsTracked (use_of s r o)
unfolding use_of add_use
use_of-IsTracked s r o h = elim (Bool-cases (r == 0 || o == 0)) [
  | inl null ↦ rw null h
  | inr given ↦
      rw given (record { uses = AllUses-insert _ o _ s.live grown h.uses; ended = h.ended })
]
  where
    old : All (IsSignalled s.fences) (uses_of o s)
    old = elim (Option-cases (lookup o s.live)) [
      | inl e ↦ rw (e, All) tt
      | inr (uses, e) ↦ rw (e, All) (AllUses-lookup _ o uses s.live e h.uses)
    ]

    grown : All (IsSignalled s.fences) (add_use r (uses_of o s))
    grown = elim (Bool-cases (uses_res r (uses_of o s))) [
      | inl has ↦ rw has old
      | inr new ↦ rw new (All-append _ (uses_of o s) _ old (inl refl, tt))
    ]

pub stamp_submitted-IsTracked :
    (g : Gpu) (s : State) (q : ℕ) (os : List ℕ) → IsTracked s → IsTracked (stamp_submitted g s q os)
unfolding stamp_submitted
stamp_submitted-IsTracked g s q os h = elim (Bool-cases (any (is_live s) os)) [
  | inr dead ↦ rw dead h
  | inl live ↦ rw live (elim (Bool-cases ((signal_locked g s q).1 == 0)) [
    | inl failed ↦ rw failed (signal-IsTracked g s q h)
    | inr signalled ↦ rw signalled (
        stamp_owners-IsTracked g q _ (signal_locked g s q).0 os (signal_value g s q (ground arith))
          (signal-IsTracked g s q h))
  ])
]

pub submitted_once-IsTracked :
    (g : Gpu) (s : State) (q o : ℕ) → IsTracked s → IsTracked (submitted_once g s q o)
unfolding submitted_once
submitted_once-IsTracked g s q o h = elim (Bool-cases (q == 0 || o == 0)) [
  | inl null ↦ rw null h
  | inr given ↦ rw given (elim (Option-cases (lookup o s.live)) [
    | inl e ↦ rw e h
    | inr (uses, e) ↦ rw e (elim (Bool-cases ((signal_locked g s q).1 == 0)) [
      | inl failed ↦ rw failed (signal-IsTracked g s q h)
      | inr signalled ↦ rw signalled (
          end_locked-IsTracked g _ o (
            stamp_owner-IsTracked g (signal_locked g s q).0 q _ o
              (signal_value g s q (ground arith)) (signal-IsTracked g s q h)))
    ])
  ])
]
