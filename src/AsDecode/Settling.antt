-- ===== src/AsDecode/Settling.antt =====
-- proxy/as_decode.cpp and proxy/as_tracker.cpp: a decode ends the wait for its structure.
use dxr11_pascal.Base.{
  ℕ, zero, suc, ◌+◌, ◌*◌, ◌≡◌, ◌≢◌, ◌≤◌, ◌⊎◌, refl, ap, ◌∙◌, subst, inl, inr, Bool, true, false,
  ◌&&◌, ◌||◌, not, List, [], ◌∷◌, Option, none, some, arith, ltb, ◌==◌, keep_if, lookup, erase,
  lookup-erase, Bool-cases, Option-cases, List-cases, Listed, Listed-keep_if, any,
}
use dxr11_pascal.AsTracker.{BlasInfo, BuildInstances, Instance, Deserialized, State}
use dxr11_pascal.AsTracker.Parse.{parse_locked}
use dxr11_pascal.AsTracker.Reads.{remember}
use dxr11_pascal.AsTracker.Decodes.{
  Sizes, Decode, Level, bottom, top, neither, geometries_at, has_build_of, erase_tlas, unmake_tlas,
  is_unsettled, reread_build, reread_builds, reread_all, reread, apply_bottom, drop_build,
  apply_top, settle, apply_level, apply_decoded,
}
use dxr11_pascal.AsDecode
use dxr11_pascal.AsDecode.{Query, Driver, is_ready, is_job, apply_jobs, bring}

-- Steps that leave the deserialized structures as they are.
abbrev SameWaits : State → State → Type 0
SameWaits s s' = s'.deserialized ≡ s.deserialized

remember-SameWaits : (at : ℕ) (e : BuildInstances) (s : State) → SameWaits s (remember at e s)
unfolding remember
remember-SameWaits at e s = elim (Bool-cases (e.build == 0)) [
  | inl u ↦ rw (u, remember) refl
  | inr u ↦ rw (u, remember) refl
]

reread_build-SameWaits :
    (at : ℕ) (e : BuildInstances) (s : State) → SameWaits s (reread_build at e s).0
unfolding reread_build parse_locked
reread_build-SameWaits at e s = elim (Bool-cases (is_unsettled e)) [
  | inr u ↦ rw (u, reread_build) refl
  | inl u ↦
      elim (Bool-cases (elim (lookup at s.read_of) [ none ↦ false | some r ↦ r == e.build ])) [
        | inl v ↦ rw (u, v, reread_build) refl
        | inr v ↦ rw (u, v, reread_build) refl
      ]
]

reread_builds-SameWaits :
    (at : ℕ) (h : List BuildInstances) (s : State) → SameWaits s (reread_builds at h s).0
unfolding reread_builds
reread_builds-SameWaits at [] s = refl
reread_builds-SameWaits at (e ∷ h) s =
    reread_builds-SameWaits at h (reread_build at e s).0 ∙ reread_build-SameWaits at e s

reread_all-SameWaits :
    (m : List (ℕ × List BuildInstances)) (s : State) → SameWaits s (reread_all m s).0
unfolding reread_all
reread_all-SameWaits [] s = refl
reread_all-SameWaits ((at, h) ∷ m) s =
    reread_all-SameWaits m (reread_builds at h s).0 ∙ reread_builds-SameWaits at h s

unmake_tlas-SameWaits :
    (dst : ℕ) (at : Deserialized) (s : State) → SameWaits s (unmake_tlas dst at s)
unfolding unmake_tlas erase_tlas
unmake_tlas-SameWaits dst at s =
    elim (Bool-cases (not at.was_tlas && has_build_of dst at.tlas_serial s)) [
      | inl u ↦ rw (u, unmake_tlas) refl
      | inr u ↦ rw (u, unmake_tlas) refl
    ]

apply_bottom-SameWaits :
    (dst : ℕ) (at : Deserialized) (b : BlasInfo) (s : State) → SameWaits s (apply_bottom dst at b s)
unfolding apply_bottom reread
apply_bottom-SameWaits dst at b s = reread_all-SameWaits _ _ ∙ unmake_tlas-SameWaits dst at _

drop_build-SameWaits : (dst serial : ℕ) (s : State) → SameWaits s (drop_build dst serial s)
unfolding drop_build
drop_build-SameWaits dst serial s = elim (Option-cases (lookup dst s.blas_hist)) [
  | inl e ↦ rw (e, drop_build) refl
  | inr (h, e) ↦ elim (List-cases (keep_if (λ x. not (x.0 == serial)) h)) [
    | inl f ↦ rw (e, f, drop_build) refl
    | inr (x, rest, f) ↦ rw (e, f, drop_build) refl
  ]
]

apply_top-SameWaits :
    (dst : ℕ) (at : Deserialized) (ds : List Instance) (s : State)
    → SameWaits s (apply_top dst at ds s)
unfolding apply_top parse_locked
apply_top-SameWaits dst at ds s =
    let dropped = drop_build-SameWaits dst at.blas_serial s in
    elim (Bool-cases (has_build_of dst at.tlas_serial (drop_build dst at.blas_serial s))) [
      | inl u ↦ rw (u, apply_top) (remember-SameWaits dst _ _ ∙ dropped)
      | inr u ↦ rw (u, apply_top) (remember-SameWaits dst _ _ ∙ dropped)
    ]

apply_level-SameWaits :
    (z : Sizes) (dst : ℕ) (at : Deserialized) (d : Decode) (l : Level) (s : State)
    → SameWaits s (apply_level z dst at d l s).0
unfolding apply_level
apply_level-SameWaits z dst at d bottom s =
    elim (Option-cases (geometries_at z d z.header_size d.desc_count)) [
      | inl e ↦ rw (e, apply_level) refl
      | inr (gs, e) ↦ rw (e, apply_level) (apply_bottom-SameWaits dst at _ s)
    ]
apply_level-SameWaits z dst at d top s =
    elim (Bool-cases (ltb d.size (z.header_size + d.desc_count * z.instance_size))) [
      | inl u ↦ rw (u, apply_level) refl
      | inr u ↦ rw (u, apply_level) (apply_top-SameWaits dst at _ s)
    ]
apply_level-SameWaits z dst at d neither s = refl

-- Whether a structure waits for the decode of the deserialize with a serial.
abbrev pub has_serial : ℕ → Option Deserialized → Bool
has_serial serial none = false
has_serial serial (some d) = d.tlas_serial == serial

abbrev pub waits_for : ℕ → ℕ → State → Bool
waits_for dst serial s = has_serial serial (lookup dst s.deserialized)

waits_for-same :
    (dst serial : ℕ) (s s' : State)
    → SameWaits s s'
    → waits_for dst serial s' ≡ waits_for dst serial s
waits_for-same dst serial s s' same = ap (λ m. has_serial serial (lookup dst m)) same

erased : (k : ℕ) (m : List (ℕ × Deserialized)) → lookup k (erase k m) ≡ none
erased k m = let hit : (k == k) ≡ true = ground arith in lookup-erase k k m ∙ rw hit refl

settle-over :
    (dst : ℕ) (at : Deserialized) (s : State)
    → waits_for dst at.tlas_serial (settle dst at s) ≡ false
unfolding settle
settle-over dst at s = elim (Option-cases (lookup dst s.deserialized)) [
  | inl e ↦ rw (e, settle) (ap (has_serial at.tlas_serial) e)
  | inr (d, e) ↦ elim (Bool-cases (d.tlas_serial == at.tlas_serial)) [
    | inl u ↦
        let gone : lookup dst (erase dst s.deserialized) ≡ none = erased dst s.deserialized in
        rw (e, u, settle) (ap (has_serial at.tlas_serial) gone)
    | inr u ↦ rw (e, u, settle) (ap (has_serial at.tlas_serial) e ∙ u)
  ]
]

settle-stay :
    (dst : ℕ) (at : Deserialized) (k serial : ℕ) (s : State)
    → waits_for k serial s ≡ false
    → waits_for k serial (settle dst at s) ≡ false
unfolding settle
settle-stay dst at k serial s h = elim (Option-cases (lookup dst s.deserialized)) [
  | inl e ↦ rw (e, settle) h
  | inr (d, e) ↦ elim (Bool-cases (d.tlas_serial == at.tlas_serial)) [
    | inr u ↦ rw (e, u, settle) h
    | inl u ↦ elim (Bool-cases (dst == k)) [
      | inl v ↦
          let gone : lookup k (erase dst s.deserialized) ≡ none =
            lookup-erase dst k s.deserialized ∙ rw v refl in
          rw (e, u, settle) (ap (has_serial serial) gone)
      | inr v ↦
          let kept : lookup k (erase dst s.deserialized) ≡ lookup k s.deserialized =
            lookup-erase dst k s.deserialized ∙ rw v refl in
          rw (e, u, settle) (ap (has_serial serial) kept ∙ h)
    ]
  ]
]

apply_decoded-stay :
    (z : Sizes) (dst : ℕ) (at : Deserialized) (d : Decode) (k serial : ℕ) (s : State)
    → waits_for k serial s ≡ false
    → waits_for k serial (apply_decoded z dst at (some d) s).0 ≡ false
unfolding apply_decoded
apply_decoded-stay z dst at d k serial s h = elim (Bool-cases (ltb d.size z.header_size)) [
  | inl u ↦ rw (u, apply_decoded) h
  | inr u ↦
      rw (u, apply_decoded)
        (waits_for-same k serial (settle dst at s)
            (apply_level z dst at d d.level (settle dst at s)).0
            (apply_level-SameWaits z dst at d d.level (settle dst at s))
          ∙ settle-stay dst at k serial s h)
]

apply_decoded-over :
    (z : Sizes) (dst : ℕ) (at : Deserialized) (d : Decode) (s : State)
    → ltb d.size z.header_size ≡ false
    → waits_for dst at.tlas_serial (apply_decoded z dst at (some d) s).0 ≡ false
unfolding apply_decoded
apply_decoded-over z dst at d s u =
    rw (u, apply_decoded)
      (waits_for-same dst at.tlas_serial (settle dst at s)
          (apply_level z dst at d d.level (settle dst at s)).0
          (apply_level-SameWaits z dst at d d.level (settle dst at s))
        ∙ settle-over dst at s)

apply_jobs-stay :
    (z : Sizes) (g : Driver) (qs : List Query) (k serial : ℕ) (s : State)
    → waits_for k serial s ≡ false
    → waits_for k serial (apply_jobs z g qs s).0 ≡ false
unfolding apply_jobs
apply_jobs-stay z g [] k serial s h = h
apply_jobs-stay z g (q ∷ qs) k serial s h = elim (Option-cases (g.decode_of q)) [
  | inl e ↦ rw (e, apply_jobs) (apply_jobs-stay z g qs k serial s h)
  | inr (d, e) ↦
      rw (e, apply_jobs)
        (apply_jobs-stay z g qs k serial (apply_decoded z q.dst q.at (some d) s).0
          (apply_decoded-stay z q.dst q.at d k serial s h))
]

apply_jobs-over :
    (z : Sizes) (g : Driver) (qs : List Query) (q : Query) (d : Decode) (s : State)
    → Listed q qs
    → g.decode_of q ≡ some d
    → ltb d.size z.header_size ≡ false
    → waits_for q.dst q.at.tlas_serial (apply_jobs z g qs s).0 ≡ false
unfolding apply_jobs
apply_jobs-over z g [] q d s (i, e) f u = absurd cc
apply_jobs-over z g (x ∷ qs) q d s (zero, e) f u =
    let same : x ≡ q = cc in
    let mapped : g.decode_of x ≡ some d = ap g.decode_of same ∙ f in
    subst (λ y. waits_for y.dst y.at.tlas_serial (apply_jobs z g (x ∷ qs) s).0 ≡ false) same
      (rw (mapped, apply_jobs)
        (apply_jobs-stay z g qs x.dst x.at.tlas_serial (apply_decoded z x.dst x.at (some d) s).0
          (apply_decoded-over z x.dst x.at d s u)))
apply_jobs-over z g (x ∷ qs) q d s (suc i, e) f u = elim (Option-cases (g.decode_of x)) [
  | inl v ↦ rw (v, apply_jobs) (apply_jobs-over z g qs q d s (i, e) f u)
  | inr (c, v) ↦
      rw (v, apply_jobs)
        (apply_jobs-over z g qs q d (apply_decoded z x.dst x.at (some c) s).0 (i, e) f u)
]

any-Listed : (q : Query) (qs : List Query) → Listed q qs → any (λ x. true) qs ≡ true
any-Listed q [] (i, e) = absurd cc
any-Listed q (x ∷ qs) h = refl

-- Whether a query has run: its commands are in a finished segment of the list that is split, or the
-- fence of its queue has reached the value signalled after it.
abbrev pub HasRun : Driver → AsDecode.State → ℕ → ℕ → Query → Type 0
HasRun g s list segment_done q =
    ((q.fence_value ≡ 0) × (q.owner ≡ list) × (q.segment ≤ segment_done))
    ⊎ ((q.fence_value ≢ 0)
        × ((s.fences q.queue).created ≡ true)
        × (q.fence_value ≤ g.completed q.queue))

HasRun-is_ready :
    (g : Driver) (s : AsDecode.State) (list segment_done : ℕ) (q : Query)
    → HasRun g s list segment_done q
    → is_ready g s list segment_done q ≡ true
unfolding is_ready
HasRun-is_ready g s list segment_done q (inl (z, own, low)) = ground (arith, z, own, low)
HasRun-is_ready g s list segment_done q (inr (nz, made, low)) = ground (arith, nz, made, low)

-- A deserialize whose size query has run is waited for no more after `Bring`, when the driver gives
-- it a size and buffers, the decode maps with a header, and the list of the decodes is made,
-- closed and signalled; whatever other decodes come with it.
pub bring-over :
    (z : Sizes) (g : Driver) (queue submit list segment_done : ℕ) (s : AsDecode.State) (t : State)
    (q : Query) (d : Decode)
    → queue ≢ 0
    → submit ≢ 0
    → Listed q s.queries
    → HasRun g s list segment_done q
    → is_job g q ≡ true
    → g.decode_of q ≡ some d
    → ltb d.size z.header_size ≡ false
    → (g.has_device && (g.has_list && (g.closes && g.signals))) ≡ true
    → waits_for q.dst q.at.tlas_serial (bring z g queue submit list segment_done s t).1.0 ≡ false
unfolding bring
bring-over z g queue submit list segment_done s t q d on way there run job mapped whole works =
    let ready = HasRun-is_ready g s list segment_done q run in
    let ready_ones = keep_if (is_ready g s list segment_done) s.queries in
    let jobs = keep_if (is_job g) ready_ones in
    let among =
      Listed-keep_if (is_job g) q ready_ones job
        (Listed-keep_if (is_ready g s list segment_done) q s.queries ready there) in
    let some_job = any-Listed q jobs among in
    let on_way : (queue == 0 || submit == 0) ≡ false = ground arith in
    let goes : (g.has_device && (g.has_list && (any (λ x. true) jobs && (g.closes && g.signals))))
        ≡ true =
      ground (arith, some_job, works) in
    rw (on_way, goes, bring) (apply_jobs-over z g jobs q d t among mapped whole)
