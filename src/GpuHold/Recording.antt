-- ===== src/GpuHold/Recording.antt =====
-- proxy/gpu_hold.cpp: the stamps that stand for a submission, through each operation.
use dxr11_pascal.Base.{
  ℕ, ◌≤◌, ◌<◌, ◌≡◌, ◌⊎◌, inl, inr, Bool, true, false, ◌&&◌, ◌||◌, not, List, [], ◌∷◌, none, some,
  arith, ltb, leb, ◌==◌, any, keep_if, any-append, lookup, insert, erase, erase_absent, Distinct,
  Option-cases, Bool-cases,
}
use dxr11_pascal.GpuHold.{
  Stamp, State, Gpu, signal_locked, done_locked, extra_stamps, restamp, stamp_locked, end_locked,
  sweep_locked, uses_res, uses_of, use_of, stamp_owners, stamp_owner, add_use,
}

-- A stamp that stands for the use of `r` by work that passed `v` on queue `q`, or by later work.
unfoldable pub covers : ℕ → ℕ → ℕ → Stamp → Bool
covers r q v t = t.res == r && (t.queue == q && leb v t.fence)

unfoldable pub live_any : (Stamp → Bool) → List (ℕ × List Stamp) → Bool
live_any c [] = false
live_any c ((o, uses) ∷ m) = any c uses || live_any c m

-- The use of `r` that went out under fence value `v` of queue `q` has passed, or is recorded.
unfoldable pub recorded : Gpu → State → ℕ → ℕ → ℕ → Bool
unfolding live_any
recorded g s r q v =
    leb v (g.completed q) || (live_any (covers r q v) s.live || any (covers r q v) s.ending)

live_any-insert :
    (c : Stamp → Bool) (o : ℕ) (new uses : List Stamp) (m : List (ℕ × List Stamp))
    → lookup o m ≡ some uses
    → (any c uses ≡ true → any c new ≡ true)
    → live_any c m ≡ true
    → live_any c (insert o new m) ≡ true
unfolding live_any insert lookup
live_any-insert c o new uses [] e h k = cc
live_any-insert c o new uses ((p, us) ∷ m) e h k = ground (arith, live_any-insert c o new uses m)

live_any-insert_absent :
    (c : Stamp → Bool) (o : ℕ) (new : List Stamp) (m : List (ℕ × List Stamp))
    → lookup o m ≡ none
    → live_any c m ≡ true
    → live_any c (insert o new m) ≡ true
unfolding live_any insert lookup
live_any-insert_absent c o new [] e k = cc
live_any-insert_absent c o new ((p, us) ∷ m) e k = ground (arith, live_any-insert_absent c o new m)

live_any-erase :
    (c : Stamp → Bool) (o : ℕ) (uses : List Stamp) (m : List (ℕ × List Stamp))
    → Distinct m
    → lookup o m ≡ some uses
    → live_any c m ≡ true
    → (any c uses || live_any c (erase o m)) ≡ true
unfolding live_any erase lookup
live_any-erase c o uses [] d e k = cc
live_any-erase c o uses ((p, us) ∷ m) d e k =
    ground (arith, live_any-erase c o uses m d.1, erase_absent o m)

-- Stamping keeps what is recorded: at the same queue by the newer value, at another queue by
-- the copy that is kept while it has not passed.
any-stamp_parts :
    (g : Gpu) (s : State) (r q v p w : ℕ) (uses : List Stamp)
    → ((q == p) ≡ false) ⊎ (v ≤ w)
    → 0 < v
    → leb v (g.completed q) ≡ false
    → any (covers r q v) uses ≡ true
    → (any (covers r q v) (restamp p w uses) || any (covers r q v) (extra_stamps g s p uses)) ≡ true
unfolding restamp extra_stamps covers
any-stamp_parts g s r q v p w [] le pos nd h = cc
any-stamp_parts g s r q v p w (t ∷ ts) le pos nd h =
    ground (arith, any-stamp_parts g s r q v p w ts)

pub any-stamp_locked :
    (g : Gpu) (s : State) (r q v p w : ℕ) (uses : List Stamp)
    → ((q == p) ≡ false) ⊎ (v ≤ w)
    → 0 < v
    → leb v (g.completed q) ≡ false
    → any (covers r q v) uses ≡ true
    → any (covers r q v) (stamp_locked g s p w uses) ≡ true
unfolding stamp_locked
any-stamp_locked g s r q v p w uses le pos nd h =
    rw (any-append (covers r q v) (restamp p w uses) (extra_stamps g s p uses))
      (any-stamp_parts g s r q v p w uses le pos nd h)

-- A covering stamp that has not passed is never dropped by the filters.
any-not_done :
    (g : Gpu) (s : State) (r q v : ℕ) (ts : List Stamp)
    → leb v (g.completed q) ≡ false
    → any (covers r q v) ts ≡ true
    → any (covers r q v) (keep_if (λ t. not (done_locked g s t)) ts) ≡ true
unfolding done_locked covers
any-not_done g s r q v [] nd h = cc
any-not_done g s r q v (t ∷ ts) nd h = ground (arith, any-not_done g s r q v ts)

any-ended :
    (g : Gpu) (s : State) (r q v : ℕ) (ts : List Stamp)
    → 0 < v
    → leb v (g.completed q) ≡ false
    → any (covers r q v) ts ≡ true
    → any (covers r q v) (keep_if (λ t. ltb 0 t.fence && not (done_locked g s t)) ts) ≡ true
unfolding done_locked covers
any-ended g s r q v [] pos nd h = cc
any-ended g s r q v (t ∷ ts) pos nd h = ground (arith, any-ended g s r q v ts)

-- What is recorded does not depend on the fences; a signal only raises a queue's counter.
pub signal_locked_lem :
    (g : Gpu) (s : State) (p q : ℕ)
    → ((signal_locked g s p).0.live ≡ s.live)
      × ((signal_locked g s p).0.ending ≡ s.ending)
      × ((s.fences q).value ≤ ((signal_locked g s p).0.fences q).value)
      × (((signal_locked g s p).1 ≡ 0) ⊎ ((s.fences p).value < (signal_locked g s p).1))
      × (((signal_locked g s p).1 ≡ 0)
          ⊎ ((signal_locked g s p).1 ≡ ((signal_locked g s p).0.fences p).value))
unfolding signal_locked
signal_locked_lem g s p q = ground arith

pub recorded-end_locked :
    (g : Gpu) (s : State) (o r q v : ℕ)
    → Distinct s.live
    → 0 < v
    → recorded g s r q v ≡ true
    → recorded g (end_locked g s o) r q v ≡ true
unfolding recorded end_locked
recorded-end_locked g s o r q v d pos h = elim (Option-cases (lookup o s.live)) [
  | inl e ↦ rw (e, end_locked) h
  | inr (uses, e) ↦
      let kept = keep_if (λ t. ltb 0 t.fence && not (done_locked g s t)) uses in
      rw (e, end_locked)
        (ground (
          arith,
          any-append (covers r q v) s.ending kept,
          any-ended g s r q v uses,
          live_any-erase (covers r q v) o uses s.live d e,
        ))
]

pub recorded-sweep_locked :
    (g : Gpu) (s : State) (r q v : ℕ)
    → recorded g s r q v ≡ true
    → recorded g (sweep_locked g s) r q v ≡ true
unfolding recorded sweep_locked
recorded-sweep_locked g s r q v h = ground (arith, any-not_done g s r q v s.ending)

-- Replacing an owner's uses keeps what is recorded, if the new uses cover what the old did.
pub recorded-insert :
    (g : Gpu) (s : State) (o r q v : ℕ) (uses new : List Stamp)
    → lookup o s.live ≡ some uses
    → (leb v (g.completed q) ≡ false
        → any (covers r q v) uses ≡ true
        → any (covers r q v) new ≡ true)
    → recorded g s r q v ≡ true
    → recorded g (record s { live = insert o new s.live }) r q v ≡ true
unfolding recorded
recorded-insert g s o r q v uses new e keep h = elim (Bool-cases (leb v (g.completed q))) [
  | inl past ↦ ground arith
  | inr ahead ↦ ground (arith, live_any-insert (covers r q v) o new uses s.live e (keep ahead))
]

any-add_use :
    (c : Stamp → Bool) (u : ℕ) (uses : List Stamp)
    → any c uses ≡ true
    → any c (add_use u uses) ≡ true
unfolding add_use
any-add_use c u uses h =
    ground (arith, any-append c uses (record { res = u; queue = 0; fence = 0 } ∷ []))

pub recorded-use_of :
    (g : Gpu) (s : State) (u o r q v : ℕ)
    → recorded g s r q v ≡ true
    → recorded g (use_of s u o) r q v ≡ true
unfolding recorded use_of
recorded-use_of g s u o r q v h = ground (
  arith,
  any-add_use (covers r q v) u (uses_of o s),
  live_any-insert_absent (covers r q v) o (add_use u []) s.live,
  live_any-insert (covers r q v) o (add_use u (uses_of o s)) (uses_of o s) s.live,
)

pub recorded-stamp_owner :
    (g : Gpu) (s : State) (p w o r q v : ℕ)
    → ((q == p) ≡ false) ⊎ (v ≤ w)
    → 0 < v
    → recorded g s r q v ≡ true
    → recorded g (stamp_owner g s p w o) r q v ≡ true
unfolding stamp_owner
recorded-stamp_owner g s p w o r q v le pos h = elim (Option-cases (lookup o s.live)) [
  | inl e ↦ rw (e, stamp_owner) h
  | inr (uses, e) ↦
      rw (e, stamp_owner)
        (recorded-insert g s o r q v uses _ e (λ nd. any-stamp_locked g s r q v p w uses le pos nd)
          h)
]

pub recorded-stamp_owners :
    (g : Gpu) (p w r q v : ℕ) (s : State) (owners : List ℕ)
    → ((q == p) ≡ false) ⊎ (v ≤ w)
    → 0 < v
    → recorded g s r q v ≡ true
    → recorded g (stamp_owners g s p w owners) r q v ≡ true
unfolding stamp_owners
recorded-stamp_owners g p w r q v s [] le pos h = h
recorded-stamp_owners g p w r q v s (o ∷ os) le pos h =
    recorded-stamp_owners g p w r q v (stamp_owner g s p w o) os le pos
      (recorded-stamp_owner g s p w o r q v le pos h)

-- Does `owner` hold a use of `r`?
unfoldable pub has_use : State → ℕ → ℕ → Bool
has_use s o r = elim (lookup o s.live) [ none ↦ false | some uses ↦ uses_res r uses ]
