-- ===== src/GpuHold/Coverage.antt =====
-- proxy/gpu_hold.cpp: a use that went out on a queue stays recorded until the queue's fence
-- has passed it.
use dxr11_pascal.Base.{
  ℕ, ◌≡◌, refl, inl, inr, Bool, true, false, List, [], ◌∷◌, some, arith, ◌==◌, any, any-append,
  lookup, insert, lookup-insert, ap, Option-cases,
}
use dxr11_pascal.GpuHold.{
  Stamp, State, Gpu, extra_stamps, restamp, stamp_locked, uses_res, stamp_owner,
}
use dxr11_pascal.GpuHold.Recording.{covers, live_any, recorded, has_use}

any-restamp :
    (r q v : ℕ) (uses : List Stamp) → any (covers r q v) (restamp q v uses) ≡ uses_res r uses
unfolding covers restamp uses_res
any-restamp r q v [] = refl
any-restamp r q v (t ∷ ts) = ground (arith, any-restamp r q v ts)

uses_res-restamp : (r q v : ℕ) (uses : List Stamp) → uses_res r (restamp q v uses) ≡ uses_res r uses
unfolding restamp uses_res
uses_res-restamp r q v [] = refl
uses_res-restamp r q v (t ∷ ts) = ground (arith, uses_res-restamp r q v ts)

live_any-lookup :
    (c : Stamp → Bool) (o : ℕ) (uses : List Stamp) (m : List (ℕ × List Stamp))
    → lookup o m ≡ some uses
    → any c uses ≡ true
    → live_any c m ≡ true
unfolding live_any lookup
live_any-lookup c o uses [] e h = cc
live_any-lookup c o uses ((p, us) ∷ m) e h = ground (arith, live_any-lookup c o uses m)

-- A use that its owner holds is recorded by the stamp of the owner.
pub stamp_owner-recorded :
    (g : Gpu) (s : State) (q v o r : ℕ)
    → has_use s o r ≡ true
    → recorded g (stamp_owner g s q v o) r q v ≡ true
unfolding stamp_owner has_use recorded stamp_locked
stamp_owner-recorded g s q v o r h = elim (Option-cases (lookup o s.live)) [
  | inl e ↦ ground arith
  | inr (uses, e) ↦
      let new = stamp_locked g s q v uses in
      let hit : any (covers r q v) new ≡ true = ground (
        arith,
        any-append (covers r q v) (restamp q v uses) (extra_stamps g s q uses),
        any-restamp r q v uses,
      ) in
      let found : lookup o (insert o new s.live) ≡ some new =
        ground (arith, lookup-insert o o new s.live) in
      rw (e, stamp_owner)
        (ground (arith, live_any-lookup (covers r q v) o new (insert o new s.live) found hit))
]

-- Stamping another owner, or this one, leaves the use with its owner.
pub stamp_owner-has_use :
    (g : Gpu) (s : State) (q v p o r : ℕ)
    → has_use s o r ≡ true
    → has_use (stamp_owner g s q v p) o r ≡ true
unfolding stamp_owner has_use stamp_locked uses_res
stamp_owner-has_use g s q v p o r h = elim (Option-cases (lookup p s.live)) [
  | inl e ↦ rw (e, stamp_owner) h
  | inr (uses, e) ↦
      let same : uses_res r (restamp q v uses) ≡ uses_res r uses = uses_res-restamp r q v uses in
      rw (e, stamp_owner)
        (ground (
          arith,
          lookup-insert p o (stamp_locked g s q v uses) s.live,
          any-append (λ (t : Stamp). t.res == r) (restamp q v uses) (extra_stamps g s q uses),
          same,
          ap (λ (x : ℕ). lookup x s.live),
        ))
]

pub uses_res-covers :
    (r q v : ℕ) (uses : List Stamp) → uses_res r uses ≡ false → any (covers r q v) uses ≡ false
unfolding uses_res covers
uses_res-covers r q v [] h = refl
uses_res-covers r q v (t ∷ ts) h = ground (arith, uses_res-covers r q v ts)
