-- ===== src/AsDecode.antt =====
-- proxy/as_decode.cpp: what the driver is asked about a deserialized structure, and when.
-- Objects are numbers, 0 the null pointer; buffers, their chunks and what the driver answers are
-- arguments. The commands recorded for the GPU, the log, and the switch that falsifies a decode for
-- a test are not modelled.
pub mod Settling
pub mod Ready
mod Tests
use dxr11_pascal.Base.{
  ℕ, ◌+◌, ◌*◌, Bool, true, false, ◌&&◌, ◌||◌, not, List, [], ◌∷◌, ◌++◌, Option, none, some, ltb,
  leb, ◌==◌, if◌then◌else◌, any, keep_if,
}
use dxr11_pascal.AsTracker.{Deserialized, QueueFence}
use dxr11_pascal.AsTracker.Decodes.{
  Sizes, Decode, Outcome, bottom_decoded, top_decoded, deserialized_now, apply_decoded,
}
use dxr11_pascal.AsTracker.Reads.{is_submitted, set_fence}

abbrev pub slots : ℕ
slots = 8192

pub record Chunk : Type 0 where
  pub buffers : ℕ
  pub device : ℕ
  pub used : ℕ

pub record Query : Type 0 where
  pub dst : ℕ
  pub at : Deserialized
  pub chunk : ℕ
  pub offset : ℕ
  pub owner : ℕ
  pub segment : ℕ
  pub queue : ℕ
  pub fence_value : ℕ

pub record State : Type 0 where
  pub chunk : Option Chunk
  pub queries : List Query
  pub fences : ℕ → QueueFence

-- Whether a query needs a new chunk.
unfoldable pub needs_chunk : Option Chunk → ℕ → Bool
needs_chunk none dev = true
needs_chunk (some c) dev = c.used == slots || not (c.device == dev)

-- The chunk that a query goes into: the current one, or one with the buffers made for it, `none`
-- where they are not.
unfoldable pub chunk_for : Option Chunk → ℕ → Option ℕ → Option Chunk
chunk_for c dev made =
    if needs_chunk c dev
    then elim made [ none ↦ none | some b ↦ some (record { buffers = b; device = dev; used = 0 }) ]
    else c

unfoldable pub add_query : ℕ → Deserialized → ℕ → ℕ → Chunk → State → State
add_query dst at owner segment c s = record s {
  chunk = some (record c { used = c.used + 1 });
  queries =
      s.queries
      ++ record {
        dst = dst;
        at = at;
        chunk = c.buffers;
        offset = 8 * c.used;
        owner = owner;
        segment = segment;
        queue = 0;
        fence_value = 0;
      }
        ∷ [];
}

-- `Note`, over what the tracker says of the structure.
unfoldable pub note : ℕ → ℕ → ℕ → ℕ → ℕ → Option Deserialized → Option ℕ → State → State
note cl dev dst owner segment found made s =
    if cl == 0 || (dev == 0 || dst == 0) then s else elim found [
      | none ↦ s
      | some at ↦ elim (chunk_for s.chunk dev made) [
        | none ↦ s
        | some c ↦ add_query dst at owner segment c s
      ]
    ]

-- `Pending`
unfoldable pub is_pending : State → Bool
is_pending s = any (λ q. true) s.queries

unfoldable pub to_stamp : (ℕ → ℕ) → List ℕ → Query → Bool
to_stamp from lists q = q.fence_value == 0 && is_submitted from lists q.owner

unfoldable pub stamp_queries : (ℕ → ℕ) → List ℕ → ℕ → ℕ → List Query → List Query
stamp_queries from lists queue v [] = []
stamp_queries from lists queue v (q ∷ qs) =
    let rest = stamp_queries from lists queue v qs in
    if to_stamp from lists q then record q { queue = queue; fence_value = v } ∷ rest else q ∷ rest

-- `AfterSubmit`; whether a fence can be made and signalled is the driver's answer.
unfoldable pub after_submit : (ℕ → ℕ) → Bool → Bool → ℕ → List ℕ → State → State
after_submit from can_create can_signal queue lists s =
    let f = s.fences queue in
    let made = f.created || can_create in
    if queue == 0 || not (any (to_stamp from lists) s.queries)
    then s
    else if made && can_signal
    then record s {
      fences = set_fence s.fences queue (record { created = true; value = f.value + 1 });
      queries = stamp_queries from lists queue (f.value + 1) s.queries;
    }
    else record s { fences = set_fence s.fences queue (record f { created = made }) }

-- `DropUnsubmitted`
unfoldable pub drop_unsubmitted : ℕ → State → State
drop_unsubmitted owner s = if owner == 0 then s else record s {
  queries = keep_if (λ q. not (q.fence_value == 0) || not (q.owner == owner)) s.queries;
}

-- What `Bring` meets: whether the device answers, whether the list and its fence can be made, closed
-- and signalled; a query's size and whether its buffers can be made; its decode, if it maps.
pub record Driver : Type 0 where
  pub completed : ℕ → ℕ
  pub has_device : Bool
  pub has_list : Bool
  pub closes : Bool
  pub signals : Bool
  pub size_of : Query → ℕ
  pub has_buffers : Query → Bool
  pub decode_of : Query → Option Decode

-- Whether a query has run: in a segment of the list that is split, or past its fence.
unfoldable pub is_ready : Driver → State → ℕ → ℕ → Query → Bool
is_ready g s list segment_done q =
    (q.fence_value == 0 && (q.owner == list && leb q.segment segment_done))
    || (not (q.fence_value == 0)
        && ((s.fences q.queue).created && leb q.fence_value (g.completed q.queue)))

unfoldable pub is_job : Driver → Query → Bool
is_job g q = not (g.size_of q == 0) && g.has_buffers q

unfoldable pub is_applied : Outcome → Bool
is_applied (bottom_decoded n) = true
is_applied (top_decoded n) = true
is_applied _ = false

-- The jobs' decodes, given to the tracker one after the other, and how many it took.
unfoldable pub apply_jobs :
    Sizes → Driver → List Query → dxr11_pascal.AsTracker.State → dxr11_pascal.AsTracker.State × ℕ
apply_jobs z g [] t = (t, 0)
apply_jobs z g (q ∷ qs) t = elim (g.decode_of q) [
  | none ↦ apply_jobs z g qs t
  | some d ↦
      let (t1, o) = apply_decoded z q.dst q.at (some d) t in
      let (t2, n) = apply_jobs z g qs t1 in (t2, if is_applied o then n + 1 else n)
]

-- `Bring`
unfoldable pub bring :
    Sizes
    → Driver
    → ℕ
    → ℕ
    → ℕ
    → ℕ
    → State
    → dxr11_pascal.AsTracker.State
    → State × (dxr11_pascal.AsTracker.State × ℕ)
bring z g queue submit list segment_done s t =
    let ready = keep_if (is_ready g s list segment_done) s.queries in
    let still = keep_if (λ q. not (is_ready g s list segment_done q)) s.queries in
    let jobs = keep_if (is_job g) ready in
    if queue == 0 || submit == 0 then (s, (t, 0)) else (
      record s { queries = still },
      if g.has_device && (g.has_list && (any (λ q. true) jobs && (g.closes && g.signals)))
          then apply_jobs z g jobs t
          else (t, 0),
    )
