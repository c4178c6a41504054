-- ===== src/AsTracker/Reread.antt =====
-- proxy/as_tracker.cpp: a decode leaves the builds that are remembered in order and few.
use dxr11_pascal.Base.{
  ℕ, suc, ◌+◌, ◌*◌, ◌≡◌, refl, ap, inl, inr, false, ◌&&◌, not, List, [], ◌∷◌, Option, none, some,
  ltb, ◌==◌, length, All, keep_if, lookup, Bool-cases, Option-cases, List-cases,
}
use dxr11_pascal.AsTracker.{BuildInstances, Instance, Deserialized, State, BlasInfo}
use dxr11_pascal.AsTracker.Parse.{parse_locked}
use dxr11_pascal.AsTracker.Decodes.{
  Sizes, Decode, Level, bottom, top, neither, geometries_at, apply_bottom, apply_top, apply_level,
  apply_decoded, settle, drop_build, erase_tlas, has_build_of, unmake_tlas, is_unsettled,
  reread_build, reread_builds, reread_all, reread,
}
use dxr11_pascal.AsTracker.Remember.{Above, IsKept}
use dxr11_pascal.AsTracker.Kept.{Kept, remember-Kept}

-- A build that is parsed again keeps its number and its instances.
pub reread_build-same :
    (at : ℕ) (e : BuildInstances) (s : State)
    → ((reread_build at e s).1.build ≡ e.build) × ((reread_build at e s).1.descs ≡ e.descs)
unfolding reread_build
reread_build-same at e s = elim (Bool-cases (is_unsettled e)) [
  | inr u ↦ rw (u, reread_build) (refl, refl)
  | inl u ↦
      elim (Bool-cases (elim (lookup at s.read_of) [ none ↦ false | some r ↦ r == e.build ])) [
        | inl v ↦ rw (u, v, reread_build) (refl, refl)
        | inr v ↦ rw (u, v, reread_build) (refl, refl)
      ]
]

reread_builds-Above :
    (at n : ℕ) (h : List BuildInstances) (s : State) → Above n h → Above n (reread_builds at h s).1
unfolding reread_builds
reread_builds-Above at n [] s a = refl
reread_builds-Above at n (e ∷ h) s (lt, a) =
    let (same, _) = reread_build-same at e s in
    (rw same lt, rw same (reread_builds-Above at e.build h (reread_build at e s).0 a))

length-reread_builds :
    (at : ℕ) (h : List BuildInstances) (s : State) → length (reread_builds at h s).1 ≡ length h
unfolding reread_builds
length-reread_builds at [] s = refl
length-reread_builds at (e ∷ h) s = ap suc (length-reread_builds at h (reread_build at e s).0)

reread_builds-IsKept :
    (at : ℕ) (h : List BuildInstances) (s : State) → IsKept h → IsKept (reread_builds at h s).1
reread_builds-IsKept at h s k = record {
  in_order = reread_builds-Above at 0 h s k.in_order;
  is_short = rw (length-reread_builds at h s) k.is_short;
}

reread_all-IsKept :
    (m : List (ℕ × List BuildInstances)) (s : State)
    → All (λ e. IsKept e.1) m
    → All (λ e. IsKept e.1) (reread_all m s).1
unfolding reread_all
reread_all-IsKept [] s a = a
reread_all-IsKept ((at, h) ∷ m) s (k, a) =
    (reread_builds-IsKept at h s k, reread_all-IsKept m (reread_builds at h s).0 a)

reread-Kept : (s : State) → Kept s → Kept (reread s)
unfolding reread
reread-Kept s k = reread_all-IsKept s.inst_hist s k

settle-Kept : (dst : ℕ) (at : Deserialized) (s : State) → Kept s → Kept (settle dst at s)
unfolding settle
settle-Kept dst at s k = elim (Option-cases (lookup dst s.deserialized)) [
  | inl e ↦ rw (e, settle) k
  | inr (d, e) ↦ elim (Bool-cases (d.tlas_serial == at.tlas_serial)) [
    | inl u ↦ rw (e, u, settle) k
    | inr u ↦ rw (e, u, settle) k
  ]
]

unmake_tlas-Kept : (dst : ℕ) (at : Deserialized) (s : State) → Kept s → Kept (unmake_tlas dst at s)
unfolding unmake_tlas erase_tlas
unmake_tlas-Kept dst at s k =
    elim (Bool-cases (not at.was_tlas && has_build_of dst at.tlas_serial s)) [
      | inl u ↦ rw (u, unmake_tlas) k
      | inr u ↦ rw (u, unmake_tlas) k
    ]

apply_bottom-Kept :
    (dst : ℕ) (at : Deserialized) (b : BlasInfo) (s : State)
    → Kept s
    → Kept (apply_bottom dst at b s)
unfolding apply_bottom
apply_bottom-Kept dst at b s k = reread-Kept _ (unmake_tlas-Kept dst at _ k)

drop_build-Kept : (dst serial : ℕ) (s : State) → Kept s → Kept (drop_build dst serial s)
unfolding drop_build
drop_build-Kept dst serial s k = elim (Option-cases (lookup dst s.blas_hist)) [
  | inl e ↦ rw (e, drop_build) k
  | inr (h, e) ↦ elim (List-cases (keep_if (λ x. not (x.0 == serial)) h)) [
    | inl f ↦ rw (e, f, drop_build) k
    | inr (x, rest, f) ↦ rw (e, f, drop_build) k
  ]
]

apply_top-Kept :
    (dst : ℕ) (at : Deserialized) (ds : List Instance) (s : State)
    → Kept s
    → Kept (apply_top dst at ds s)
unfolding apply_top parse_locked
apply_top-Kept dst at ds s k =
    let dropped = drop_build-Kept dst at.blas_serial s k in
    elim (Bool-cases (has_build_of dst at.tlas_serial (drop_build dst at.blas_serial s))) [
      | inl u ↦ rw (u, apply_top) (remember-Kept dst _ _ dropped)
      | inr u ↦ rw (u, apply_top) (remember-Kept dst _ _ dropped)
    ]

apply_level-Kept :
    (z : Sizes) (dst : ℕ) (at : Deserialized) (d : Decode) (l : Level) (s : State)
    → Kept s
    → Kept (apply_level z dst at d l s).0
unfolding apply_level
apply_level-Kept z dst at d bottom s k =
    elim (Option-cases (geometries_at z d z.header_size d.desc_count)) [
      | inl e ↦ rw (e, apply_level) k
      | inr (gs, e) ↦ rw (e, apply_level) (apply_bottom-Kept dst at _ s k)
    ]
apply_level-Kept z dst at d top s k =
    elim (Bool-cases (ltb d.size (z.header_size + d.desc_count * z.instance_size))) [
      | inl u ↦ rw (u, apply_level) k
      | inr u ↦ rw (u, apply_level) (apply_top-Kept dst at _ s k)
    ]
apply_level-Kept z dst at d neither s k = k

pub apply_decoded-Kept :
    (z : Sizes) (dst : ℕ) (at : Deserialized) (bytes : Option Decode) (s : State)
    → Kept s
    → Kept (apply_decoded z dst at bytes s).0
unfolding apply_decoded
apply_decoded-Kept z dst at none s k = k
apply_decoded-Kept z dst at (some d) s k = elim (Bool-cases (ltb d.size z.header_size)) [
  | inl u ↦ rw (u, apply_decoded) k
  | inr u ↦ rw (u, apply_decoded) (apply_level-Kept z dst at d d.level _ (settle-Kept dst at s k))
]
