-- ===== src/AsTracker/Calls.antt =====
-- proxy/as_tracker.cpp: the calls that change the state, as the steps of one machine, and what every
-- run of them keeps.
use dxr11_pascal.Base.{
  ℕ, zero, suc, inl, inr, Bool, true, false, ◌||◌, Option, none, some, ◌==◌, any, lookup,
  Bool-cases, Option-cases,
}
use dxr11_pascal.AsTracker.{Alias, State, BlasInfo, has_key}
use dxr11_pascal.AsTracker.Builds.{advance, is_current}
use dxr11_pascal.AsTracker.Reads.{Gpu, is_done}
use dxr11_pascal.AsTracker.Queries.{
  bring_pending, take_alias, alias_of, bring_to_build, want_instances, wants, pending_of, is_read,
}
use dxr11_pascal.AsTracker.Copies.{
  Mode, clone, compact, decode_for_tools, serialize, deserialize, note_copy, note_deserialize,
  put_blas, forget_read, drop_contents, copy_blas, copy_instances, copy_snapshot, copy_serial,
  copy_source, copy_alias, copy_tlas, copy_structure,
}
use dxr11_pascal.AsTracker.Kept.{Kept, remember_copy-Kept, take_read-Kept}

bring_pending-Kept :
    (g : Gpu) (list at build : ℕ) (s : State) → Kept s → Kept (bring_pending g list at build s).0
unfolding bring_pending
bring_pending-Kept g list at build s k = elim (Option-cases (pending_of at build s.pending)) [
  | inl e ↦ rw (e, bring_pending) k
  | inr (p, e) ↦ elim (Bool-cases (p.owner == list || is_done g s p)) [
    | inr u ↦ rw (e, u, bring_pending) k
    | inl u ↦ elim (Option-cases (g.mapped p.readback)) [
      | inl f ↦ rw (e, u, f, bring_pending) k
      | inr (ds, f) ↦ rw (e, u, f, bring_pending) (take_read-Kept at build p.as_of ds s k)
    ]
  ]
]

take_alias-Kept : (at build : ℕ) (a : Alias) (s : State) → Kept s → Kept (take_alias at build a s).0
unfolding take_alias
take_alias-Kept at build a s k = elim (Option-cases (lookup a.source s.tlas)) [
  | inl e ↦ rw (e, take_alias) k
  | inr (t, e) ↦ rw (e, take_alias) (remember_copy-Kept at build a.source a.source_build _ k)
]

pub bring_to_build-Kept :
    (g : Gpu) (list more at build : ℕ) (s : State)
    → Kept s
    → Kept (bring_to_build g list more at build s).0
unfolding bring_to_build
bring_to_build-Kept g list zero at build s k = elim (Bool-cases (is_read s at build)) [
  | inl u ↦ rw (u, bring_to_build) k
  | inr u ↦ rw (u, bring_to_build) (bring_pending-Kept g list at build s k)
]
bring_to_build-Kept g list (suc more) at build s k = elim (Bool-cases (is_read s at build)) [
  | inl u ↦ rw (u, bring_to_build) k
  | inr u ↦ elim (Option-cases (alias_of s at build)) [
    | inl e ↦ rw (u, e, bring_to_build) (bring_pending-Kept g list at build s k)
    | inr (a, e) ↦
        let before = bring_to_build-Kept g list more a.source a.source_build s k in
        elim (Bool-cases (bring_to_build g list more a.source a.source_build s).1) [
          | inl v ↦ rw (u, e, v, bring_to_build) (take_alias-Kept at build a _ before)
          | inr v ↦ rw (u, e, v, bring_to_build) before
        ]
  ]
]

pub want_instances-Kept :
    (at count : ℕ) (cheap : Bool) (s : State) → Kept s → Kept (want_instances at count cheap s).0
unfolding want_instances
want_instances-Kept at count cheap s k = elim (Bool-cases (any (λ p. p.tlas == at) s.pending)) [
  | inl u ↦ rw (u, want_instances) k
  | inr u ↦ elim (Bool-cases (wants s at count cheap)) [
    | inl v ↦ rw (u, v, want_instances) k
    | inr v ↦ rw (u, v, want_instances) k
  ]
]

copy_blas-Kept :
    (b : Option BlasInfo) (from_tlas : Bool) (dst : ℕ) (s : State)
    → Kept s
    → Kept (copy_blas b from_tlas dst s)
unfolding copy_blas put_blas
copy_blas-Kept (some b) from_tlas dst s k = k
copy_blas-Kept none true dst s k = k
copy_blas-Kept none false dst s k = k

copy_snapshot-Kept : (dst src : ℕ) (s : State) → Kept s → Kept (copy_snapshot dst src s)
unfolding copy_snapshot
copy_snapshot-Kept dst src s k = elim (Option-cases (lookup src s.snapshots)) [
  | inl e ↦ rw (e, copy_snapshot) k
  | inr (ds, e) ↦ rw (e, copy_snapshot) k
]

copy_source-Kept : (dst src : ℕ) (s : State) → Kept s → Kept (copy_source dst src s)
unfolding copy_source copy_instances copy_alias
copy_source-Kept dst src s k = elim (Bool-cases (is_current s src)) [
  | inl u ↦
      rw (u, copy_source)
        (copy_snapshot-Kept dst src (copy_instances dst src s) (remember_copy-Kept dst _ src _ _ k))
  | inr u ↦ rw (u, copy_source) k
]

copy_tlas-Kept :
    (from_tlas : Bool) (dst src : ℕ) (s : State) → Kept s → Kept (copy_tlas from_tlas dst src s)
unfolding copy_tlas copy_serial drop_contents advance forget_read
copy_tlas-Kept true dst src s k = copy_source-Kept dst src _ k
copy_tlas-Kept false dst src s k = elim (Bool-cases (has_key dst s.last_built)) [
  | inl u ↦ rw (u, copy_tlas) k
  | inr u ↦ rw (u, copy_tlas) k
]

copy_structure-Kept :
    (mode : Mode) (dst src : ℕ) (s : State) → Kept s → Kept (copy_structure mode dst src s)
unfolding copy_structure
copy_structure-Kept mode dst src s k = copy_tlas-Kept _ dst src _ (copy_blas-Kept _ _ dst s k)

pub note_copy-Kept :
    (dst src : ℕ) (mode : Mode) (s : State) → Kept s → Kept (note_copy dst src mode s)
unfolding note_copy note_deserialize put_blas forget_read drop_contents advance
note_copy-Kept dst src serialize s k = k
note_copy-Kept dst src decode_for_tools s k = k
note_copy-Kept dst src deserialize s k = elim (Bool-cases (dst == 0)) [
  | inl u ↦ rw (u, note_copy) k
  | inr u ↦ rw (u, note_copy) k
]
note_copy-Kept dst src clone s k = elim (Bool-cases (dst == 0)) [
  | inl u ↦ rw (u, note_copy) k
  | inr u ↦ rw (u, note_copy) (copy_structure-Kept clone dst src s k)
]
note_copy-Kept dst src compact s k = elim (Bool-cases (dst == 0)) [
  | inl u ↦ rw (u, note_copy) k
  | inr u ↦ rw (u, note_copy) (copy_structure-Kept compact dst src s k)
]
