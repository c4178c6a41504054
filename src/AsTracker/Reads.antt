-- ===== src/AsTracker/Reads.antt =====
-- proxy/as_tracker.cpp: the instances that are read back, when, and which builds are kept.
-- What a buffer holds when it is mapped is an argument, `none` where the map fails; so are the
-- driver's answers, in `Gpu`.
-- A readback buffer holds the instances that its read counts (`count`), no more and no fewer.
use dxr11_pascal.Base.{
  ℕ, ◌+◌, ◌-◌, Bool, true, ◌&&◌, ◌||◌, not, List, [], ◌∷◌, ◌++◌, Option, none, some, ltb, leb, ◌==◌,
  if◌then◌else◌, length, drop, any, keep_if, lookup, erase, set_key,
}
use dxr11_pascal.AsTracker.{
  no_tlas, Row, Instance, PendingRead, QueueFence, BuildInstances, State, key_or, touch,
}
use dxr11_pascal.AsTracker.Parse.{parse_into, parse_locked}

abbrev pub hist_size : ℕ
hist_size = 8

-- A kept build, put in its place by its number.
unfoldable pub insert_build : BuildInstances → List BuildInstances → List BuildInstances
insert_build e [] = e ∷ []
insert_build e (f ∷ h) =
    let later = insert_build e h in if ltb e.build f.build then e ∷ f ∷ h else f ∷ later

-- The newest of a sorted list.
unfoldable pub newest : List BuildInstances → List BuildInstances
newest h = if ltb hist_size (length h) then drop (length h - hist_size) h else h

unfoldable pub has_build : ℕ → List BuildInstances → Bool
has_build build = any λ e. e.build == build

-- What `RememberLocked` leaves of the list of one address.
unfoldable pub remember_in : BuildInstances → List BuildInstances → List BuildInstances
remember_in e h = if has_build e.build h then h else newest (insert_build e h)

unfoldable pub remember : ℕ → BuildInstances → State → State
remember at e s =
    if e.build == 0
    then s
    else record s { inst_hist = set_key at (remember_in e (key_or [] at s.inst_hist)) s.inst_hist }

unfoldable pub find_build : ℕ → List BuildInstances → Option BuildInstances
find_build build [] = none
find_build build (e ∷ h) = if e.build == build then some e else find_build build h

-- `RememberCopyLocked`
unfoldable pub remember_copy : ℕ → ℕ → ℕ → ℕ → State → State
remember_copy dst build source source_build s = elim (lookup source s.inst_hist) [
  | none ↦ s
  | some h ↦ elim (find_build source_build h) [
    | none ↦ s
    | some e ↦ remember dst (record e { build = build }) s
  ]
]

unfoldable pub rows_of : State → ℕ → List Row
rows_of s at = (key_or no_tlas at s.tlas).rows

-- A read of the build `build`, parsed and kept as what is known of the structure.
unfoldable pub take_read : ℕ → ℕ → ℕ → List Instance → State → State
take_read at build as_of ds s =
    let s' = parse_locked s at ds as_of in
    let s'' = record s' { read_of = set_key at build s'.read_of } in
    remember at (record { build = build; as_of = as_of; descs = ds; rows = rows_of s'' at }) s''

-- `NoteInstances`; a structure that was never built is parsed without a build to note.
unfoldable pub note_instances : ℕ → List Instance → State → State
note_instances at [] s = s
note_instances at (d ∷ ds) s =
    if at == 0
    then s
    else (let as_of = key_or 0 at s.tlas_as_serial in
        let s0 = record s { tlas_as_serial = touch 0 at s.tlas_as_serial } in
        let s1 : State = elim (lookup at s.last_built) [
          | none ↦ parse_locked s0 at (d ∷ ds) as_of
          | some b ↦ take_read at b as_of (d ∷ ds) s0
        ] in
        record s1 { snapshots = set_key at (d ∷ ds) s1.snapshots })

-- `NoteEmpty`
unfoldable pub note_empty : ℕ → State → State
note_empty at s =
    if at == 0
    then s
    else (let s' = parse_locked s at [] 0 in
        let s1 : State = elim (lookup at s.last_built) [
          | none ↦ s'
          | some b ↦
              remember at (record { build = b; as_of = 0; descs = []; rows = [] })
                (record s' { read_of = set_key at b s'.read_of })
        ] in
        record s1 { snapshots = set_key at [] s1.snapshots })

-- `InstanceSnapshot` and `DropSnapshot`
unfoldable pub instance_snapshot : State → ℕ → Option (List Instance)
instance_snapshot s at = lookup at s.snapshots

unfoldable pub drop_snapshot : ℕ → State → State
drop_snapshot at s = record s { snapshots = erase at s.snapshots }

-- `NotePendingInstances`
unfoldable pub note_pending : ℕ → ℕ → ℕ → ℕ → State → State
note_pending at readback count owner s =
    if at == 0 || (readback == 0 || (count == 0 || owner == 0)) then s else record s {
      pending =
          s.pending
          ++ record {
            tlas = at;
            readback = readback;
            count = count;
            build = elim (lookup at s.last_built) [ none ↦ 0 | some b ↦ b ];
            as_of = elim (lookup at s.tlas_as_serial) [ none ↦ 0 | some a ↦ a ];
            owner = owner;
            queue = 0;
            fence_value = 0;
          }
            ∷ [];
    }

-- `DropUnsubmitted`
unfoldable pub drop_unsubmitted : ℕ → State → State
drop_unsubmitted owner s = if owner == 0 then s else record s {
  pending = keep_if (λ p. not (p.fence_value == 0) || not (p.owner == owner)) s.pending;
}

-- The driver at the moment of a call, and what each readback buffer holds.
pub record Gpu : Type 0 where
  pub completed : ℕ → ℕ
  pub can_create : ℕ → Bool
  pub can_signal : ℕ → Bool
  pub mapped : ℕ → Option (List Instance)

-- `Submitted`: whether one of the lists is the owner's; `from` unwraps a list.
unfoldable pub is_submitted : (ℕ → ℕ) → List ℕ → ℕ → Bool
is_submitted from lists owner = any (λ l. from l == owner) lists

unfoldable pub to_stamp : (ℕ → ℕ) → List ℕ → PendingRead → Bool
to_stamp from lists p = p.fence_value == 0 && is_submitted from lists p.owner

unfoldable pub stamp_reads : (ℕ → ℕ) → List ℕ → ℕ → ℕ → List PendingRead → List PendingRead
stamp_reads from lists q v [] = []
stamp_reads from lists q v (p ∷ ps) =
    let rest = stamp_reads from lists q v ps in
    if to_stamp from lists p then record p { queue = q; fence_value = v } ∷ rest else p ∷ rest

unfoldable pub set_fence : (ℕ → QueueFence) → ℕ → QueueFence → ℕ → QueueFence
set_fence f q v r = if q == r then v else f r

-- The first part of `AfterSubmit`: the reads that the lists recorded get the value that the queue
-- signals after them, if it can be signalled.
unfoldable pub stamp_pending : (ℕ → ℕ) → Gpu → ℕ → List ℕ → State → State
stamp_pending from g q lists s =
    let f = s.fences q in
    let made = f.created || g.can_create q in
    if any (to_stamp from lists) s.pending
    then (if made && g.can_signal q
        then record s {
          fences = set_fence s.fences q (record { created = true; value = f.value + 1 });
          pending = stamp_reads from lists q (f.value + 1) s.pending;
        }
        else record s { fences = set_fence s.fences q (record f { created = made }) })
    else s

unfoldable pub is_done : Gpu → State → PendingRead → Bool
is_done g s p =
    not (p.fence_value == 0)
    && ((s.fences p.queue).created && leb p.fence_value (g.completed p.queue))

-- A read that the GPU is past: an older build's never takes a newer one's place.
unfoldable pub parse_read : PendingRead → List Instance → State → State
parse_read p ds s =
    let newer : Bool = elim (lookup p.tlas s.read_of) [ none ↦ true | some r ↦ leb r p.build ] in
    if newer
    then take_read p.tlas p.build p.as_of ds s
    else remember p.tlas
        (record {
          build = p.build;
          as_of = p.as_of;
          descs = ds;
          rows = (parse_into s ds p.as_of).rows;
        })
        s

unfoldable pub finish_read : Gpu → PendingRead → State → State
finish_read g p s = elim (g.mapped p.readback) [ none ↦ s | some ds ↦ parse_read p ds s ]

-- The second part of `AfterSubmit`: `still` are the reads that go on waiting.
unfoldable pub finish_reads : Gpu → List PendingRead → List PendingRead → State → State
finish_reads g [] still s = record s { pending = still }
finish_reads g (p ∷ ps) still s =
    if is_done g s p
    then finish_reads g ps still (finish_read g p s)
    else finish_reads g ps (still ++ p ∷ []) s

-- `AfterSubmit`
unfoldable pub after_submit : (ℕ → ℕ) → Gpu → ℕ → List ℕ → State → State
after_submit from g q lists s = if q == 0 then s else elim s.pending [
  | [] ↦ s
  | p ∷ ps ↦ let s' = stamp_pending from g q lists s in finish_reads g s'.pending [] s'
]
