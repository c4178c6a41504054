-- ===== src/AsTracker/Waits.antt =====
-- proxy/as_tracker.cpp: a read that is waiting is taken when the GPU is past it, and not before.
use dxr11_pascal.Base.{
  ℕ, zero, suc, ◌<◌, ◌≡◌, ◌≢◌, refl, sym, ap, ◌∙◌, subst, inl, inr, true, false, ◌&&◌, ◌||◌, not,
  List, [], ◌∷◌, ◌++◌, some, arith, leb, ◌==◌, any, Listed, Listed-left, Listed-right, lookup,
  lookup-set_key, Bool-cases, Option-cases, List-cases,
}
use dxr11_pascal.AsTracker.{BuildInstances, Instance, PendingRead, QueueFence, State}
use dxr11_pascal.AsTracker.Parse.{parse_locked}
use dxr11_pascal.AsTracker.Reads.{
  remember, take_read, Gpu, is_done, stamp_reads, set_fence, stamp_pending, to_stamp, parse_read,
  finish_read, finish_reads, after_submit,
}
use dxr11_pascal.AsTracker.Freshness.{
  ReadSince, take_read-read_of, remember-read_of, finish_reads-ReadSince,
}

-- A read that was stamped is left as it is.
stamp_reads-Listed :
    (from : ℕ → ℕ) (lists : List ℕ) (q v : ℕ) (p : PendingRead) (ps : List PendingRead)
    → p.fence_value ≢ 0
    → Listed p ps
    → Listed p (stamp_reads from lists q v ps)
unfolding stamp_reads to_stamp
stamp_reads-Listed from lists q v p [] sent (i, e) = absurd cc
stamp_reads-Listed from lists q v p (x ∷ ps) sent (zero, e) =
    let same : x ≡ p = cc in
    let out : to_stamp from lists x ≡ false = rw same (ground arith) in
    rw (out, stamp_reads) (zero, e)
stamp_reads-Listed from lists q v p (x ∷ ps) sent (suc i, e) =
    let (j, f) = stamp_reads-Listed from lists q v p ps sent (i, e) in
    elim (Bool-cases (to_stamp from lists x)) [
      | inl u ↦ rw (u, stamp_reads) (suc j, f)
      | inr u ↦ rw (u, stamp_reads) (suc j, f)
    ]

stamp_pending-Listed :
    (from : ℕ → ℕ) (g : Gpu) (q : ℕ) (lists : List ℕ) (p : PendingRead) (s : State)
    → p.fence_value ≢ 0
    → Listed p s.pending
    → Listed p (stamp_pending from g q lists s).pending
unfolding stamp_pending
stamp_pending-Listed from g q lists p s sent h =
    elim (Bool-cases (any (to_stamp from lists) s.pending)) [
      | inr u ↦ rw (u, stamp_pending) h
      | inl u ↦ elim (Bool-cases (((s.fences q).created || g.can_create q) && g.can_signal q)) [
        | inl v ↦ rw (u, v, stamp_pending) (stamp_reads-Listed from lists q _ p s.pending sent h)
        | inr v ↦ rw (u, v, stamp_pending) h
      ]
    ]

finish_reads-still :
    (g : Gpu) (ps still : List PendingRead) (p : PendingRead) (s : State)
    → Listed p still
    → Listed p (finish_reads g ps still s).pending
unfolding finish_reads
finish_reads-still g [] still p s h = h
finish_reads-still g (x ∷ ps) still p s h = elim (Bool-cases (is_done g s x)) [
  | inl u ↦ rw (u, finish_reads) (finish_reads-still g ps still p (finish_read g x s) h)
  | inr u ↦
      rw (u, finish_reads)
        (finish_reads-still g ps (still ++ x ∷ []) p s (Listed-left p still (x ∷ []) h))
]

is_done-late :
    (g : Gpu) (s : State) (p : PendingRead)
    → g.completed p.queue < p.fence_value
    → is_done g s p ≡ false
unfolding is_done
is_done-late g s p late = ground (arith, late)

finish_reads-waits :
    (g : Gpu) (ps still : List PendingRead) (p : PendingRead) (s : State)
    → g.completed p.queue < p.fence_value
    → Listed p ps
    → Listed p (finish_reads g ps still s).pending
unfolding finish_reads
finish_reads-waits g [] still p s late (i, e) = absurd cc
finish_reads-waits g (x ∷ ps) still p s late (zero, e) =
    let same : x ≡ p = cc in
    let out : is_done g s x ≡ false = rw same (is_done-late g s p late) in
    rw (out, finish_reads)
      (finish_reads-still g ps (still ++ x ∷ []) p s (
        subst (λ y. Listed p (still ++ y ∷ [])) (sym same)
          (Listed-right p still (p ∷ []) (zero, refl))))
finish_reads-waits g (x ∷ ps) still p s late (suc i, e) = elim (Bool-cases (is_done g s x)) [
  | inl u ↦ rw (u, finish_reads) (finish_reads-waits g ps still p (finish_read g x s) late (i, e))
  | inr u ↦ rw (u, finish_reads) (finish_reads-waits g ps (still ++ x ∷ []) p s late (i, e))
]

-- A read that was submitted and that the GPU is not past yet goes on waiting, as it is, whatever is
-- submitted.
pub after_submit-waits :
    (from : ℕ → ℕ) (g : Gpu) (q : ℕ) (lists : List ℕ) (p : PendingRead) (s : State)
    → p.fence_value ≢ 0
    → g.completed p.queue < p.fence_value
    → Listed p s.pending
    → Listed p (after_submit from g q lists s).pending
unfolding after_submit
after_submit-waits from g q lists p s sent late h = elim (Bool-cases (q == 0)) [
  | inl u ↦ rw (u, after_submit) h
  | inr u ↦ elim (List-cases s.pending) [
    | inl e ↦ rw (u, e, after_submit) h
    | inr (x, ps, e) ↦
        let stamped = stamp_pending from g q lists s in
        rw (u, e, after_submit)
          (finish_reads-waits g stamped.pending [] p stamped late
            (stamp_pending-Listed from g q lists p s sent h))
  ]
]

remember-fences : (at : ℕ) (e : BuildInstances) (s : State) → (remember at e s).fences ≡ s.fences
unfolding remember
remember-fences at e s = elim (Bool-cases (e.build == 0)) [
  | inl u ↦ rw (u, remember) refl
  | inr u ↦ rw (u, remember) refl
]

take_read-fences :
    (at build as_of : ℕ) (ds : List Instance) (s : State)
    → (take_read at build as_of ds s).fences ≡ s.fences
unfolding take_read parse_locked
take_read-fences at build as_of ds s = remember-fences at _ _

parse_read-fences :
    (p : PendingRead) (ds : List Instance) (s : State) → (parse_read p ds s).fences ≡ s.fences
unfolding parse_read
parse_read-fences p ds s = elim (Option-cases (lookup p.tlas s.read_of)) [
  | inl e ↦ rw (e, parse_read) (take_read-fences p.tlas p.build p.as_of ds s)
  | inr (c, e) ↦ elim (Bool-cases (leb c p.build)) [
    | inl u ↦ rw (e, u, parse_read) (take_read-fences p.tlas p.build p.as_of ds s)
    | inr u ↦ rw (e, u, parse_read) (remember-fences p.tlas _ s)
  ]
]

pub finish_read-fences :
    (g : Gpu) (p : PendingRead) (s : State) → (finish_read g p s).fences ≡ s.fences
unfolding finish_read
finish_read-fences g p s = elim (Option-cases (g.mapped p.readback)) [
  | inl e ↦ rw (e, finish_read) refl
  | inr (ds, e) ↦ rw (e, finish_read) (parse_read-fences p ds s)
]

is_done-fences :
    (g : Gpu) (p : PendingRead) (s s' : State)
    → s'.fences ≡ s.fences
    → is_done g s' p ≡ is_done g s p
unfolding is_done
is_done-fences g p s s' e =
    ap
      (λ f.
        not (p.fence_value == 0)
        && ((f p.queue).created && leb p.fence_value (g.completed p.queue)))
      e

-- A read parsed leaves its structure read from its build, or from a newer one.
parse_read-taken :
    (p : PendingRead) (ds : List Instance) (s : State)
    → ReadSince p.build p.tlas (parse_read p ds s)
unfolding parse_read
parse_read-taken p ds s =
    let taken : ReadSince p.build p.tlas (take_read p.tlas p.build p.as_of ds s) = record {
      build = p.build;
      is_of =
          ap (lookup p.tlas) (take_read-read_of p.tlas p.build p.as_of ds s)
          ∙ lookup-set_key p.tlas p.tlas p.build s.read_of
          ∙ ground arith;
      is_since = omega arith;
    } in
    elim (Option-cases (lookup p.tlas s.read_of)) [
      | inl e ↦ rw (e, parse_read) taken
      | inr (c, e) ↦ elim (Bool-cases (leb c p.build)) [
        | inl u ↦ rw (e, u, parse_read) taken
        | inr u ↦
            rw (e, u, parse_read)
              (record {
                build = c;
                is_of = ap (lookup p.tlas) (remember-read_of p.tlas _ s) ∙ e;
                is_since = ground arith;
              })
      ]
    ]

finish_read-mapped :
    (g : Gpu) (p : PendingRead) (ds : List Instance) (s : State)
    → g.mapped p.readback ≡ some ds
    → finish_read g p s ≡ parse_read p ds s
unfolding finish_read
finish_read-mapped g p ds s e = rw (e, finish_read) refl

no_one : (p : PendingRead) → ¬ Listed p []
no_one p (i, e) = cc

is_done-sent : (g : Gpu) (s : State) (p : PendingRead) → is_done g s p ≡ true → p.fence_value ≢ 0
unfolding is_done
is_done-sent g s p e z = ground (arith, z, e)

set_fence-is_done :
    (g : Gpu) (q : ℕ) (v : QueueFence) (p : PendingRead) (s : State) (r : List PendingRead)
    → ((s.fences q).created ≡ true → v.created ≡ true)
    → is_done g s p ≡ true
    → is_done g (record s { fences = set_fence s.fences q v; pending = r }) p ≡ true
unfolding is_done set_fence
set_fence-is_done g q v p s r keeps past = elim (Bool-cases (q == p.queue)) [
  | inr u ↦ rw (u, is_done, set_fence) past
  | inl u ↦
      let same : q ≡ p.queue = ground arith in
      let made : (s.fences p.queue).created ≡ true = ground (arith, past) in
      let kept : v.created ≡ true = keeps (ap (λ x. (s.fences x).created) same ∙ made) in
      ground (arith, past, u, kept)
]

stamp_pending-is_done :
    (from : ℕ → ℕ) (g : Gpu) (q : ℕ) (lists : List ℕ) (p : PendingRead) (s : State)
    → is_done g s p ≡ true
    → is_done g (stamp_pending from g q lists s) p ≡ true
unfolding stamp_pending
stamp_pending-is_done from g q lists p s past =
    elim (Bool-cases (any (to_stamp from lists) s.pending)) [
      | inr u ↦ rw (u, stamp_pending) past
      | inl u ↦ elim (Bool-cases (((s.fences q).created || g.can_create q) && g.can_signal q)) [
        | inl v ↦ rw (u, v, stamp_pending) (set_fence-is_done g q _ p s _ (λ c. refl) past)
        | inr v ↦
            rw (u, v, stamp_pending)
              (set_fence-is_done g q _ p s s.pending (λ c. ground (arith, c)) past)
      ]
    ]

finish_reads-taken :
    (g : Gpu) (ps still : List PendingRead) (p : PendingRead) (ds : List Instance) (s : State)
    → is_done g s p ≡ true
    → g.mapped p.readback ≡ some ds
    → Listed p ps
    → ReadSince p.build p.tlas (finish_reads g ps still s)
unfolding finish_reads
finish_reads-taken g [] still p ds s past mapped (i, e) = absurd cc
finish_reads-taken g (x ∷ ps) still p ds s past mapped (zero, e) =
    let same : x ≡ p = cc in
    let done : is_done g s x ≡ true = rw same past in
    let read : finish_read g x s ≡ parse_read p ds s =
      ap (λ y. finish_read g y s) same ∙ finish_read-mapped g p ds s mapped in
    rw (done, finish_reads)
      (finish_reads-ReadSince g ps still p.build p.tlas (finish_read g x s)
        (subst (λ t. ReadSince p.build p.tlas t) (sym read) (parse_read-taken p ds s)))
finish_reads-taken g (x ∷ ps) still p ds s past mapped (suc i, e) =
    elim (Bool-cases (is_done g s x)) [
      | inr u ↦
          rw (u, finish_reads) (finish_reads-taken g ps (still ++ x ∷ []) p ds s past mapped (i, e))
      | inl u ↦
          let later = is_done-fences g p s (finish_read g x s) (finish_read-fences g x s) ∙ past in
          rw (u, finish_reads)
            (finish_reads-taken g ps still p ds (finish_read g x s) later mapped (i, e))
    ]

-- A read that the GPU is past is taken by the next submission, when its buffer can be mapped: its
-- structure has then been read from that build or from a newer one.
pub after_submit-taken :
    (from : ℕ → ℕ) (g : Gpu) (q : ℕ) (lists : List ℕ) (p : PendingRead) (ds : List Instance)
    (s : State)
    → q ≢ 0
    → is_done g s p ≡ true
    → g.mapped p.readback ≡ some ds
    → Listed p s.pending
    → ReadSince p.build p.tlas (after_submit from g q lists s)
unfolding after_submit
after_submit-taken from g q lists p ds s on past mapped h =
    let u : (q == 0) ≡ false = ground arith in
    elim (List-cases s.pending) [
      | inl e ↦ absurd (no_one p (subst (λ ps. Listed p ps) e h))
      | inr (x, ps, e) ↦
          let stamped = stamp_pending from g q lists s in
          rw (u, e, after_submit)
            (finish_reads-taken g stamped.pending [] p ds stamped
              (stamp_pending-is_done from g q lists p s past) mapped
              (stamp_pending-Listed from g q lists p s (is_done-sent g s p past) h))
    ]
