-- ===== src/AsTracker/Taken.antt =====
-- proxy/as_tracker.cpp: what is known of a structure's instances after a submission, and which reads
-- go on waiting.
use dxr11_pascal.Base.{
  ℕ, suc, zero, ◌+◌, ◌≤◌, ◌≡◌, ◌≢◌, refl, sym, ap, ◌∙◌, ◌⊎◌, subst, inl, inr, Bool, true, false,
  ◌&&◌, ◌||◌, not, List, [], ◌∷◌, ◌++◌, none, some, arith, leb, ◌==◌, any, if◌then◌else◌, Listed,
  lookup, lookup-set_key, Bool-cases, Option-cases, List-cases,
}
use dxr11_pascal.AsTracker.{BuildInstances, BuildLog, Instance, PendingRead, State, TlasInfo}
use dxr11_pascal.AsTracker.Parse.{
  blas_at, build_before, as_of_or_now, parse, parse_into, parse_locked,
}
use dxr11_pascal.AsTracker.Reads.{
  remember, take_read, Gpu, is_done, stamp_pending, to_stamp, parse_read, finish_read, finish_reads,
  after_submit,
}
use dxr11_pascal.AsTracker.Freshness.{ReadSince, take_read-read_of, after_submit-ReadSince}
use dxr11_pascal.AsTracker.Waits.{after_submit-taken, finish_read-fences}

-- Steps that leave the parse of every list of instances as it is.
abbrev SameParse : State → State → Type 0
SameParse s s' = (s'.blas_hist ≡ s.blas_hist) × (s'.as_serial ≡ s.as_serial)

abbrev parse_with : List (ℕ × BuildLog) → ℕ → List Instance → ℕ → TlasInfo
parse_with hist serial ds as_of =
    parse
      (λ a. elim (lookup a hist) [
        | none ↦ none
        | some h ↦ build_before (if as_of == 0 then serial + 1 else as_of) h
      ])
      ds

parse_into-parse_with :
    (s : State) (ds : List Instance) (as_of : ℕ)
    → parse_into s ds as_of ≡ parse_with s.blas_hist s.as_serial ds as_of
unfolding parse_into blas_at as_of_or_now
parse_into-parse_with s ds as_of = refl

parse_into-same :
    (s s' : State) (ds : List Instance) (as_of : ℕ)
    → SameParse s s'
    → parse_into s' ds as_of ≡ parse_into s ds as_of
parse_into-same s s' ds as_of (h, n) =
    parse_into-parse_with s' ds as_of
    ∙ ap (λ x. parse_with x s'.as_serial ds as_of) h
    ∙ ap (λ x. parse_with s.blas_hist x ds as_of) n
    ∙ sym (parse_into-parse_with s ds as_of)

pub remember_lem :
    (at : ℕ) (e : BuildInstances) (s : State)
    → let s' = remember at e s in (s'.tlas ≡ s.tlas) × (s'.read_of ≡ s.read_of) × SameParse s s'
unfolding remember
remember_lem at e s = elim (Bool-cases (e.build == 0)) [
  | inl u ↦ rw (u, remember) (refl, refl, (refl, refl))
  | inr u ↦ rw (u, remember) (refl, refl, (refl, refl))
]

take_read-SameParse :
    (at build as_of : ℕ) (ds : List Instance) (s : State)
    → SameParse s (take_read at build as_of ds s)
unfolding take_read parse_locked
take_read-SameParse at build as_of ds s = (remember_lem at _ _).2

pub lookup-take_read :
    (at build as_of : ℕ) (ds : List Instance) (k : ℕ) (s : State)
    → lookup k (take_read at build as_of ds s).tlas
      ≡ (if at == k then some (parse_into s ds as_of) else lookup k s.tlas)
unfolding take_read parse_locked
lookup-take_read at build as_of ds k s =
    ap (lookup k) (remember_lem at _ _).0 ∙ lookup-set_key at k (parse_into s ds as_of) s.tlas

-- What is known of a structure, and of which build, is as it was, or comes of one of the reads that
-- wait: the parse of what its buffer holds, and its build.
abbrev pub Moves : Gpu → List PendingRead → ℕ → State → State → Type 0
Moves g ps at s s' =
    ((lookup at s'.tlas ≡ lookup at s.tlas) × (lookup at s'.read_of ≡ lookup at s.read_of))
    ⊎ ((p : PendingRead) × (ds : List Instance) × Listed p ps
        × (p.tlas ≡ at)
        × (g.mapped p.readback ≡ some ds)
        × (lookup at s'.tlas ≡ some (parse_into s ds p.as_of))
        × (lookup at s'.read_of ≡ some p.build))

Moves-same :
    (g : Gpu) (ps : List PendingRead) (at : ℕ) (s t u : State)
    → lookup at u.tlas ≡ lookup at t.tlas
    → lookup at u.read_of ≡ lookup at t.read_of
    → Moves g ps at s t
    → Moves g ps at s u
Moves-same g ps at s t u e f (inl (h, k)) = inl (e ∙ h, f ∙ k)
Moves-same g ps at s t u e f (inr (p, ds, there, on, held, h, k)) =
    inr (p, ds, there, on, held, e ∙ h, f ∙ k)

take_read-Moves :
    (g : Gpu) (ps : List PendingRead) (at : ℕ) (p : PendingRead) (ds : List Instance) (s t : State)
    → Listed p ps
    → g.mapped p.readback ≡ some ds
    → SameParse s t
    → Moves g ps at s t
    → Moves g ps at s (take_read p.tlas p.build p.as_of ds t)
take_read-Moves g ps at p ds s t there held same h =
    let known = lookup-take_read p.tlas p.build p.as_of ds at t in
    let build =
      ap (lookup at) (take_read-read_of p.tlas p.build p.as_of ds t)
      ∙ lookup-set_key p.tlas at p.build t.read_of in
    elim (Bool-cases (p.tlas == at)) [
      | inr u ↦
          Moves-same g ps at s t (take_read p.tlas p.build p.as_of ds t) (known ∙ rw u refl)
            (build ∙ rw u refl) h
      | inl u ↦ inr (
        p,
        ds,
        there,
        ground arith,
        held,
        known ∙ rw u refl ∙ ap some (parse_into-same s t ds p.as_of same),
        build ∙ rw u refl,
      )
    ]

parse_read-Moves :
    (g : Gpu) (ps : List PendingRead) (at : ℕ) (p : PendingRead) (ds : List Instance) (s t : State)
    → Listed p ps
    → g.mapped p.readback ≡ some ds
    → SameParse s t
    → Moves g ps at s t
    → Moves g ps at s (parse_read p ds t) × SameParse s (parse_read p ds t)
unfolding parse_read
parse_read-Moves g ps at p ds s t there held same h =
    let moved = take_read-Moves g ps at p ds s t there held same h in
    let (hist, serial) = take_read-SameParse p.tlas p.build p.as_of ds t in
    let parses : SameParse s (take_read p.tlas p.build p.as_of ds t) =
      (hist ∙ same.0, serial ∙ same.1) in
    elim (Option-cases (lookup p.tlas t.read_of)) [
      | inl e ↦ rw (e, parse_read) (moved, parses)
      | inr (c, e) ↦ elim (Bool-cases (leb c p.build)) [
        | inl u ↦ rw (e, u, parse_read) (moved, parses)
        | inr u ↦
            let kept : BuildInstances = record {
              build = p.build;
              as_of = p.as_of;
              descs = ds;
              rows = (parse_into t ds p.as_of).rows;
            } in
            let (tlas, read, (hist', serial')) = remember_lem p.tlas kept t in
            rw (e, u, parse_read)
              (
                Moves-same g ps at s t (remember p.tlas kept t) (ap (lookup at) tlas)
                    (ap (lookup at) read) h,
                (hist' ∙ same.0, serial' ∙ same.1),
              )
      ]
    ]

finish_reads-Moves :
    (g : Gpu) (all ps still : List PendingRead) (at : ℕ) (s t : State)
    → ((p : PendingRead) → Listed p ps → Listed p all)
    → SameParse s t
    → Moves g all at s t
    → Moves g all at s (finish_reads g ps still t)
unfolding finish_reads finish_read
finish_reads-Moves g all [] still at s t sub same h =
    Moves-same g all at s t (finish_reads g [] still t) refl refl h
finish_reads-Moves g all (p ∷ ps) still at s t sub same h =
    let later : (x : PendingRead) → Listed x ps → Listed x all = λ x (i, e). sub x (suc i, e) in
    elim (Bool-cases (is_done g t p)) [
      | inr u ↦
          rw (u, finish_reads) (finish_reads-Moves g all ps (still ++ p ∷ []) at s t later same h)
      | inl u ↦ elim (Option-cases (g.mapped p.readback)) [
        | inl e ↦
            rw (u, e, finish_reads, finish_read)
              (finish_reads-Moves g all ps still at s t later same h)
        | inr (ds, e) ↦
            let (moved, parses) =
              parse_read-Moves g all at p ds s t (sub p (zero, refl)) e same h in
            rw (u, e, finish_reads, finish_read)
              (finish_reads-Moves g all ps still at s (parse_read p ds t) later parses moved)
      ]
    ]

stamp_pending_lem :
    (from : ℕ → ℕ) (g : Gpu) (q : ℕ) (lists : List ℕ) (s : State)
    → let s' = stamp_pending from g q lists s in
      (s'.tlas ≡ s.tlas) × (s'.read_of ≡ s.read_of) × SameParse s s'
unfolding stamp_pending
stamp_pending_lem from g q lists s = elim (Bool-cases (any (to_stamp from lists) s.pending)) [
  | inr u ↦ rw (u, stamp_pending) (refl, refl, (refl, refl))
  | inl u ↦ elim (Bool-cases (((s.fences q).created || g.can_create q) && g.can_signal q)) [
    | inl v ↦ rw (u, v, stamp_pending) (refl, refl, (refl, refl))
    | inr v ↦ rw (u, v, stamp_pending) (refl, refl, (refl, refl))
  ]
]

-- The two ways a submission goes.
after_submit-runs :
    (from : ℕ → ℕ) (g : Gpu) (q : ℕ) (lists : List ℕ) (s : State)
    → let s1 = stamp_pending from g q lists s in
      (after_submit from g q lists s ≡ s)
      ⊎ (after_submit from g q lists s ≡ finish_reads g s1.pending [] s1)
unfolding after_submit
after_submit-runs from g q lists s =
    let s1 = stamp_pending from g q lists s in
    let pick : List PendingRead → State =
      λ ps. elim ps [ [] ↦ s | p ∷ r ↦ finish_reads g s1.pending [] s1 ] in
    elim (Bool-cases (q == 0)) [
      | inl u ↦ inl (ap (λ b. if b then s else pick s.pending) u)
      | inr u ↦ elim (List-cases s.pending) [
        | inl e ↦ inl (ap (λ b. if b then s else pick s.pending) u ∙ ap pick e)
        | inr (p, ps, e) ↦ inr (ap (λ b. if b then s else pick s.pending) u ∙ ap pick e)
      ]
    ]

after_submit-Moves :
    (from : ℕ → ℕ) (g : Gpu) (q : ℕ) (lists : List ℕ) (at : ℕ) (s : State)
    → Moves g (stamp_pending from g q lists s).pending at s (after_submit from g q lists s)
after_submit-Moves from g q lists at s =
    let s1 = stamp_pending from g q lists s in
    elim (after_submit-runs from g q lists s) [
      | inl e ↦ inl (ap (λ t. lookup at t.tlas) e, ap (λ t. lookup at t.read_of) e)
      | inr e ↦
          let (tlas, read, same) = stamp_pending_lem from g q lists s in
          subst (Moves g s1.pending at s) (sym e) (
            finish_reads-Moves g s1.pending s1.pending [] at s s1 (λ x h. h) same
              (inl (ap (lookup at) tlas, ap (lookup at) read)))
    ]

-- A submission never takes a structure back to an older build, in whatever order the reads end: what
-- was read of it before was read from a build no newer than what is read of it afterwards. And what is
-- known of its instances stays, with its build, or is the parse of what the buffer of one of the reads
-- that wait for it holds, as of that read's build, and of that build.
pub after_submit-newer :
    (from : ℕ → ℕ) (g : Gpu) (q : ℕ) (lists : List ℕ) (r at : ℕ) (s : State)
    → ReadSince r at s
    → ReadSince r at (after_submit from g q lists s)
      × Moves g (stamp_pending from g q lists s).pending at s (after_submit from g q lists s)
after_submit-newer from g q lists r at s h =
    (after_submit-ReadSince from g q lists r at s h, after_submit-Moves from g q lists at s)

-- No read in the list is one that the GPU is past.
abbrev pub none_past : Gpu → State → List PendingRead → Bool
none_past g s [] = true
none_past g s (p ∷ ps) = not (is_done g s p) && none_past g s ps

none_past-append :
    (g : Gpu) (s : State) (ps : List PendingRead) (p : PendingRead)
    → none_past g s ps ≡ true
    → is_done g s p ≡ false
    → none_past g s (ps ++ p ∷ []) ≡ true
none_past-append g s [] p h e = rw e refl
none_past-append g s (x ∷ ps) p h e = ground (arith, none_past-append g s ps p)

none_past-fences :
    (g : Gpu) (s s' : State) (ps : List PendingRead)
    → s'.fences ≡ s.fences
    → none_past g s ps ≡ true
    → none_past g s' ps ≡ true
unfolding is_done
none_past-fences g s s' [] e h = h
none_past-fences g s s' (p ∷ ps) e h =
    let same : is_done g s' p ≡ is_done g s p =
      ap
        (λ f.
          not (p.fence_value == 0)
          && ((f p.queue).created && leb p.fence_value (g.completed p.queue)))
        e in
    ground (arith, none_past-fences g s s' ps e, same)

finish_reads-none_past :
    (g : Gpu) (ps still : List PendingRead) (s : State)
    → none_past g s still ≡ true
    → let s' = finish_reads g ps still s in none_past g s' s'.pending ≡ true
unfolding finish_reads
finish_reads-none_past g [] still s h =
    none_past-fences g s (finish_reads g [] still s) still refl h
finish_reads-none_past g (p ∷ ps) still s h = elim (Bool-cases (is_done g s p)) [
  | inr u ↦
      rw (u, finish_reads)
        (finish_reads-none_past g ps (still ++ p ∷ []) s (none_past-append g s still p h u))
  | inl u ↦
      rw (u, finish_reads)
        (finish_reads-none_past g ps still (finish_read g p s)
          (none_past-fences g s (finish_read g p s) still (finish_read-fences g p s) h))
]

-- The next submission takes a read whose fence has reached the value signalled after it, when its
-- buffer can be mapped: its structure has then been read from that build or from a newer one, what is
-- known of the structure is as it was or the parse of what the buffer of a waiting read holds, with
-- that read's build, and no read that the GPU is past is waiting any more.
pub after_submit-takes :
    (from : ℕ → ℕ) (g : Gpu) (q : ℕ) (lists : List ℕ) (p : PendingRead) (ds : List Instance)
    (s : State)
    → q ≢ 0
    → p.fence_value ≢ 0
    → (s.fences p.queue).created ≡ true
    → p.fence_value ≤ g.completed p.queue
    → g.mapped p.readback ≡ some ds
    → Listed p s.pending
    → let s' = after_submit from g q lists s in
      ReadSince p.build p.tlas s'
      × Moves g (stamp_pending from g q lists s).pending p.tlas s s'
      × (none_past g s' s'.pending ≡ true)
unfolding after_submit is_done
after_submit-takes from g q lists p ds s on sent made past held there =
    let done : is_done g s p ≡ true = ground (arith, sent, made, past) in
    let off : (q == 0) ≡ false = ground arith in
    (
      after_submit-taken from g q lists p ds s on done held there,
      after_submit-Moves from g q lists p.tlas s,
      elim (List-cases s.pending) [
        | inl e ↦ absurd (let (i, f) = subst (λ l. Listed p l) e there in cc)
        | inr (x, ps, e) ↦
            let stamped = stamp_pending from g q lists s in
            rw (off, e, after_submit) (finish_reads-none_past g stamped.pending [] stamped refl)
      ],
    )
