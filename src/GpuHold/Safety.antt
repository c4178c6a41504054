-- ===== src/GpuHold/Safety.antt =====
-- proxy/gpu_hold.cpp: no buffer is reported idle while submitted work may read it.
use dxr11_pascal.Base.{
  ℕ, ◌+◌, ◌≤◌, ◌<◌, ◌≡◌, refl, sym, ap, subst, inl, inr, ◌≢◌, Bool, true, false, ◌&&◌, ◌||◌, not,
  List, [], ◌∷◌, arith, ◌==◌, any, lookup, Distinct, Bool-cases,
}
use dxr11_pascal.GpuHold.{
  Stamp, State, Gpu, signal_locked, done_locked, stamp_owners, stamp_owner, stamp_submitted,
  owners_of, after_submit, any_live, busy, is_live, is_empty, Op, step, run,
}
use dxr11_pascal.GpuHold.Recording.{covers, live_any, recorded, recorded-stamp_owners, has_use}
use dxr11_pascal.GpuHold.Coverage.{stamp_owner-recorded, stamp_owner-has_use, uses_res-covers}
use dxr11_pascal.GpuHold.Holding.{
  stamp_owners-fences, stamp_owners-Distinct, Holds, sweep_locked-Holds, step-Holds,
}

-- The GPU only advances: no fence's completed value falls from one call to the next.
abbrev pub Advances : Gpu → Gpu → Type 0
Advances g h = (q : ℕ) → g.completed q ≤ h.completed q

abbrev pub Forward : Gpu → List (Gpu × Op) → Gpu → Type 0
Forward g [] last = Advances g last
Forward g ((h, op) ∷ ops) last = Advances g h × Forward h ops last

advance-Holds :
    (g h : Gpu) (s : State) (r q v : ℕ) → Advances g h → Holds g s r q v → Holds h s r q v
unfolding recorded
advance-Holds g h s r q v a k = record {
  distinct = k.distinct;
  positive = k.positive;
  signalled = k.signalled;
  kept = ground (arith, k.kept, a q);
}

pub run-Holds :
    (from : ℕ → ℕ) (g : Gpu) (s : State) (ops : List (Gpu × Op)) (last : Gpu) (r q v : ℕ)
    → Forward g ops last
    → Holds g s r q v
    → Holds last (run from s ops) r q v
unfolding run
run-Holds from g s [] last r q v a h = advance-Holds g last s r q v a h
run-Holds from g s ((h', op) ∷ ops) last r q v a h =
    run-Holds from h' (step from h' s op) ops last r q v a.1
      (step-Holds from h' s op r q v (advance-Holds g h' s r q v a.0 h))

unfoldable pub mem_owner : ℕ → List ℕ → Bool
mem_owner o = any λ p. p == o

stamp_owners-recorded :
    (g : Gpu) (q v o r : ℕ) (s : State) (os : List ℕ)
    → 0 < v
    → mem_owner o os ≡ true
    → has_use s o r ≡ true
    → recorded g (stamp_owners g s q v os) r q v ≡ true
unfolding stamp_owners mem_owner
stamp_owners-recorded g q v o r s [] pos m h = cc
stamp_owners-recorded g q v o r s (p ∷ os) pos m h = elim (Bool-cases (p == o)) [
  | inl same ↦
      let here : p ≡ o = ground arith in
      recorded-stamp_owners g q v r q v (stamp_owner g s q v p) os (inr (omega arith)) pos
        (rw here (stamp_owner-recorded g s q v o r h))
  | inr other ↦
      stamp_owners-recorded g q v o r (stamp_owner g s q v p) os pos (ground arith)
        (stamp_owner-has_use g s q v p o r h)
]

any-is_live :
    (s : State) (o r : ℕ) (os : List ℕ)
    → mem_owner o os ≡ true
    → has_use s o r ≡ true
    → any (is_live s) os ≡ true
unfolding mem_owner has_use is_live
any-is_live s o r [] m h = cc
any-is_live s o r (p ∷ os) m h =
    ground (arith, any-is_live s o r os, ap (λ (x : ℕ). lookup x s.live))

has_use_live : (s : State) (o r : ℕ) → has_use s o r ≡ true → is_empty s.live ≡ false
unfolding has_use is_empty lookup
has_use_live s o r h = ground arith

-- Everything a submission needs to be seen by the module, and the driver's success.
pub record Submits (from : ℕ → ℕ) (g : Gpu) (s : State) (q : ℕ) (lists : List ℕ) (o r : ℕ)
    : Type 0 where
  pub distinct : Distinct s.live
  pub on_queue : q ≢ 0
  pub sent : mem_owner o (owners_of from lists) ≡ true
  pub used : has_use s o r ≡ true
  pub creates : ((s.fences q).created || g.can_create q) ≡ true
  pub signals : g.can_signal q ≡ true

module _ (from : ℕ → ℕ) (g : Gpu) (s : State) (q : ℕ) (lists : List ℕ) (o r : ℕ)
    (sub : Submits from g s q lists o r) where
  signal_succeeds :
      ((signal_locked g s q).1 ≡ (s.fences q).value + 1)
      × ((signal_locked g s q).0.live ≡ s.live)
      × (((signal_locked g s q).0.fences q).value ≡ (s.fences q).value + 1)
  unfolding signal_locked
  signal_succeeds = ground (arith, sub.creates, sub.signals)

  submitted-Holds :
      Holds g (stamp_submitted g s q (owners_of from lists)) r q ((s.fences q).value + 1)
  unfolding stamp_submitted has_use
  submitted-Holds =
      let s' = (signal_locked g s q).0 in
      let os = owners_of from lists in
      let (value_eq, live_eq, top) = signal_succeeds in
      let nonzero : ((signal_locked g s q).1 == 0) ≡ false = ground arith in
      rw (any-is_live s o r os sub.sent sub.used) (
        rw nonzero (
          rw value_eq (record {
            distinct =
                stamp_owners-Distinct g q _ s' os (subst Distinct (sym live_eq) sub.distinct);
            positive = omega arith;
            signalled = rw (stamp_owners-fences g q ((s.fences q).value + 1) s' os) (omega arith);
            kept =
                stamp_owners-recorded g q _ o r s' os (omega arith) sub.sent
                  (ground (arith, sub.used));
          })))

  after_submit_starts : Holds g (after_submit from g s q lists) r q ((s.fences q).value + 1)
  unfolding after_submit
  after_submit_starts =
      let given : (q == 0 || is_empty s.live && is_empty s.ending) ≡ false =
        ground (arith, sub.on_queue, has_use_live s o r sub.used) in
      rw given
        (sweep_locked-Holds g (stamp_submitted g s q (owners_of from lists)) r q _ submitted-Holds)

any_live-covers :
    (r q v : ℕ) (m : List (ℕ × List Stamp))
    → any_live r m ≡ false
    → live_any (covers r q v) m ≡ false
unfolding any_live live_any
any_live-covers r q v [] h = refl
any_live-covers r q v ((o, uses) ∷ m) h =
    ground (arith, any_live-covers r q v m, uses_res-covers r q v uses)

idle_ending :
    (g : Gpu) (s : State) (r q v : ℕ) (ts : List Stamp)
    → any (λ t. t.res == r && not (done_locked g s t)) ts ≡ false
    → any (covers r q v) ts ≡ true
    → v ≤ g.completed q
unfolding covers done_locked
idle_ending g s r q v [] b h = cc
idle_ending g s r q v (t ∷ ts) b h = ground (arith, idle_ending g s r q v ts)

pub Holds-idle :
    (g : Gpu) (s : State) (r q v : ℕ)
    → Holds g s r q v
    → r ≢ 0
    → busy false g s r ≡ false
    → v ≤ g.completed q
unfolding busy recorded
Holds-idle g s r q v h nz idle =
    ground (arith, h.kept, any_live-covers r q v s.live, idle_ending g s r q v s.ending)

-- A list that uses buffer `r` goes out on queue `q`, and the driver takes the signal. Then,
-- whatever calls follow while the GPU only advances, `Busy(r)` does not answer false before the
-- queue's fence has reached the value that this submission signalled: a buffer that is reported
-- idle is no longer read by that submission.
pub busy_until_passed :
    (from : ℕ → ℕ) (g : Gpu) (s : State) (q : ℕ) (lists : List ℕ) (o r : ℕ) (ops : List (Gpu × Op))
    (last : Gpu)
    → Submits from g s q lists o r
    → Forward g ops last
    → r ≢ 0
    → busy false last (run from (after_submit from g s q lists) ops) r ≡ false
    → (s.fences q).value + 1 ≤ last.completed q
busy_until_passed from g s q lists o r ops last sub a nz idle =
    Holds-idle last _ r q _
      (run-Holds from g (after_submit from g s q lists) ops last r q _ a
        (after_submit_starts from g s q lists o r sub))
      nz idle
