-- ===== src/AsTracker/Freshness.antt =====
-- proxy/as_tracker.cpp: which build a structure's instances were read from: a read that comes late
-- replaces no newer one, and a structure brought to a build has been read from that build.
use dxr11_pascal.Base.{
  ℕ, zero, suc, ◌≤◌, ◌≡◌, refl, ap, ◌∙◌, inl, inr, true, ◌&&◌, ◌||◌, List, [], ◌∷◌, ◌++◌, some,
  arith, leb, ◌==◌, any, lookup, set_key, lookup-set_key, Bool-cases, Option-cases, List-cases,
}
use dxr11_pascal.AsTracker.{BuildInstances, Instance, Alias, PendingRead, State}
use dxr11_pascal.AsTracker.Parse.{parse_locked}
use dxr11_pascal.AsTracker.Reads.{
  remember, remember_copy, find_build, take_read, Gpu, is_done, stamp_pending, to_stamp, parse_read,
  finish_read, finish_reads, after_submit,
}
use dxr11_pascal.AsTracker.Queries.{
  bring_pending, take_alias, alias_of, bring_to_build, pending_of, is_read,
}

pub remember-read_of :
    (at : ℕ) (e : BuildInstances) (s : State) → (remember at e s).read_of ≡ s.read_of
unfolding remember
remember-read_of at e s = elim (Bool-cases (e.build == 0)) [
  | inl u ↦ rw (u, remember) refl
  | inr u ↦ rw (u, remember) refl
]

remember_copy-read_of :
    (dst build source of : ℕ) (s : State)
    → (remember_copy dst build source of s).read_of ≡ s.read_of
unfolding remember_copy
remember_copy-read_of dst build source of s = elim (Option-cases (lookup source s.inst_hist)) [
  | inl e ↦ rw (e, remember_copy) refl
  | inr (h, e) ↦ elim (Option-cases (find_build of h)) [
    | inl f ↦ rw (e, f, remember_copy) refl
    | inr (b, f) ↦ rw (e, f, remember_copy) (remember-read_of dst (record b { build = build }) s)
  ]
]

pub take_read-read_of :
    (at build as_of : ℕ) (ds : List Instance) (s : State)
    → (take_read at build as_of ds s).read_of ≡ set_key at build s.read_of
unfolding take_read parse_locked
take_read-read_of at build as_of ds s = remember-read_of at _ _

-- Whether a structure was read from a build, after one is noted.
is_read-set_key :
    (s s' : State) (at build : ℕ)
    → s'.read_of ≡ set_key at build s.read_of
    → is_read s' at build ≡ true
unfolding is_read
is_read-set_key s s' at build e =
    let found : lookup at s'.read_of ≡ some build =
      ap (lookup at) e ∙ lookup-set_key at at build s.read_of ∙ ground arith in
    rw (found, is_read) (ground arith)

bring_pending-is_read :
    (g : Gpu) (list at build : ℕ) (s : State)
    → (bring_pending g list at build s).1 ≡ true
    → is_read (bring_pending g list at build s).0 at build ≡ true
unfolding bring_pending
bring_pending-is_read g list at build s = elim (Option-cases (pending_of at build s.pending)) [
  | inl e ↦ rw (e, bring_pending) (λ q. absurd cc)
  | inr (p, e) ↦ elim (Bool-cases (p.owner == list || is_done g s p)) [
    | inr u ↦ rw (e, u, bring_pending) (λ q. absurd cc)
    | inl u ↦ elim (Option-cases (g.mapped p.readback)) [
      | inl f ↦ rw (e, u, f, bring_pending) (λ q. absurd cc)
      | inr (ds, f) ↦
          rw (e, u, f, bring_pending)
            (λ q. is_read-set_key s _ at build (take_read-read_of at build p.as_of ds s))
    ]
  ]
]

take_alias-is_read :
    (at build : ℕ) (a : Alias) (s : State)
    → (take_alias at build a s).1 ≡ true
    → is_read (take_alias at build a s).0 at build ≡ true
unfolding take_alias
take_alias-is_read at build a s = elim (Option-cases (lookup a.source s.tlas)) [
  | inl e ↦ rw (e, take_alias) (λ q. absurd cc)
  | inr (t, e) ↦
      rw (e, take_alias)
        (λ q.
          is_read-set_key s _ at build (remember_copy-read_of at build a.source a.source_build _))
]

-- When `BringToBuild` answers true, the structure has been read from that very build, however many
-- copies were followed.
pub bring_to_build-is_read :
    (g : Gpu) (list more at build : ℕ) (s : State)
    → (bring_to_build g list more at build s).1 ≡ true
    → is_read (bring_to_build g list more at build s).0 at build ≡ true
unfolding bring_to_build
bring_to_build-is_read g list zero at build s = elim (Bool-cases (is_read s at build)) [
  | inl u ↦ rw (u, bring_to_build) (λ q. u)
  | inr u ↦ rw (u, bring_to_build) (bring_pending-is_read g list at build s)
]
bring_to_build-is_read g list (suc more) at build s = elim (Bool-cases (is_read s at build)) [
  | inl u ↦ rw (u, bring_to_build) (λ q. u)
  | inr u ↦ elim (Option-cases (alias_of s at build)) [
    | inl e ↦ rw (u, e, bring_to_build) (bring_pending-is_read g list at build s)
    | inr (a, e) ↦ elim (Bool-cases (bring_to_build g list more a.source a.source_build s).1) [
      | inl v ↦
          rw (u, e, v, bring_to_build)
            (take_alias-is_read at build a (bring_to_build g list more a.source a.source_build s).0)
      | inr v ↦ rw (u, e, v, bring_to_build) (λ q. absurd cc)
    ]
  ]
]

-- A structure read from a build `r` at least.
pub record ReadSince (r at : ℕ) (s : State) : Type 0 where
  pub build : ℕ
  pub is_of : lookup at s.read_of ≡ some build
  pub is_since : r ≤ build

take_read-ReadSince :
    (to build as_of : ℕ) (ds : List Instance) (r at : ℕ) (s : State)
    → ((b : ℕ) → lookup to s.read_of ≡ some b → b ≤ build)
    → ReadSince r at s
    → ReadSince r at (take_read to build as_of ds s)
take_read-ReadSince to build as_of ds r at s newer h =
    let now =
      ap (lookup at) (take_read-read_of to build as_of ds s)
      ∙ lookup-set_key to at build s.read_of in
    elim (Bool-cases (to == at)) [
      | inr u ↦ record { build = h.build; is_of = now ∙ rw u h.is_of; is_since = h.is_since }
      | inl u ↦
          let same : to ≡ at = ground arith in
          let was = newer h.build (ap (λ x. lookup x s.read_of) same ∙ h.is_of) in
          record {
            build = build;
            is_of = now ∙ rw u refl;
            is_since = omega (arith, was, h.is_since);
          }
    ]

pub parse_read-ReadSince :
    (p : PendingRead) (ds : List Instance) (r at : ℕ) (s : State)
    → ReadSince r at s
    → ReadSince r at (parse_read p ds s)
unfolding parse_read
parse_read-ReadSince p ds r at s h = elim (Option-cases (lookup p.tlas s.read_of)) [
  | inl e ↦
      rw (e, parse_read) (take_read-ReadSince p.tlas p.build p.as_of ds r at s (λ b f. absurd cc) h)
  | inr (c, e) ↦ elim (Bool-cases (leb c p.build)) [
    | inl u ↦
        rw (e, u, parse_read)
          (take_read-ReadSince p.tlas p.build p.as_of ds r at s
            (λ b f. let same : c ≡ b = cc in ground (arith, same)) h)
    | inr u ↦
        rw (e, u, parse_read)
          (record {
            build = h.build;
            is_of = ap (lookup at) (remember-read_of p.tlas _ s) ∙ h.is_of;
            is_since = h.is_since;
          })
  ]
]

pub finish_reads-ReadSince :
    (g : Gpu) (ps still : List PendingRead) (r at : ℕ) (s : State)
    → ReadSince r at s
    → ReadSince r at (finish_reads g ps still s)
unfolding finish_reads finish_read
finish_reads-ReadSince g [] still r at s h = record {
  build = h.build;
  is_of = h.is_of;
  is_since = h.is_since;
}
finish_reads-ReadSince g (p ∷ ps) still r at s h = elim (Bool-cases (is_done g s p)) [
  | inr u ↦ rw (u, finish_reads) (finish_reads-ReadSince g ps (still ++ p ∷ []) r at s h)
  | inl u ↦ elim (Option-cases (g.mapped p.readback)) [
    | inl e ↦ rw (u, e, finish_reads, finish_read) (finish_reads-ReadSince g ps still r at s h)
    | inr (ds, e) ↦
        rw (u, e, finish_reads, finish_read)
          (finish_reads-ReadSince g ps still r at (parse_read p ds s)
            (parse_read-ReadSince p ds r at s h))
  ]
]

pub stamp_pending-read_of :
    (from : ℕ → ℕ) (g : Gpu) (q : ℕ) (lists : List ℕ) (s : State)
    → (stamp_pending from g q lists s).read_of ≡ s.read_of
unfolding stamp_pending
stamp_pending-read_of from g q lists s = elim (Bool-cases (any (to_stamp from lists) s.pending)) [
  | inr u ↦ rw (u, stamp_pending) refl
  | inl u ↦ elim (Bool-cases (((s.fences q).created || g.can_create q) && g.can_signal q)) [
    | inl v ↦ rw (u, v, stamp_pending) refl
    | inr v ↦ rw (u, v, stamp_pending) refl
  ]
]

-- A submission never takes a structure back to an older build: what was read of it before was read
-- from a build no newer than what is known of it afterwards, in whatever order the reads end.
pub after_submit-ReadSince :
    (from : ℕ → ℕ) (g : Gpu) (q : ℕ) (lists : List ℕ) (r at : ℕ) (s : State)
    → ReadSince r at s
    → ReadSince r at (after_submit from g q lists s)
unfolding after_submit
after_submit-ReadSince from g q lists r at s h = elim (Bool-cases (q == 0)) [
  | inl u ↦ rw (u, after_submit) h
  | inr u ↦ elim (List-cases s.pending) [
    | inl e ↦ rw (u, e, after_submit) h
    | inr (p, ps, e) ↦
        let stamped = stamp_pending from g q lists s in
        rw (u, e, after_submit)
          (finish_reads-ReadSince g stamped.pending [] r at stamped (record {
            build = h.build;
            is_of = ap (lookup at) (stamp_pending-read_of from g q lists s) ∙ h.is_of;
            is_since = h.is_since;
          }))
  ]
]
