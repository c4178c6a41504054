-- ===== src/GpuHold.antt =====
-- proxy/gpu_hold.cpp: which GPU work may still read a buffer of the shim's.
-- Pointers (resources, owners, queues) are numbers, 0 the null pointer. A fence value is a
-- number that does not wrap: 2 ^ 64 submissions are out of reach. The mutex makes each
-- function one step; what the driver answers in a step (`Gpu`) is an argument of it.
pub mod Recording
pub mod Coverage
pub mod Holding
pub mod Safety
pub mod Tracking
pub mod Retire
mod Tests
use dxr11_pascal.Base.{
  ℕ, ◌+◌, Bool, true, false, ◌&&◌, ◌||◌, not, List, [], ◌∷◌, ◌++◌, Option, none, some, ltb, leb,
  ◌==◌, if◌then◌else◌, any, keep_if, lookup, insert, erase,
}

pub record Stamp : Type 0 where
  pub res : ℕ
  pub queue : ℕ
  pub fence : ℕ

pub record QueueFence : Type 0 where
  pub created : Bool
  pub value : ℕ

-- `fences` is total: `std::map::operator[]` makes the missing entry, and an entry that is
-- missing reads as one whose fence was not created.
pub record State : Type 0 where
  pub live : List (ℕ × List Stamp)
  pub ending : List Stamp
  pub fences : ℕ → QueueFence

-- The driver at the moment of a call: `GetCompletedValue` of each queue's fence, and whether
-- `GetDevice` with `CreateFence`, and `Signal`, succeed.
pub record Gpu : Type 0 where
  pub completed : ℕ → ℕ
  pub can_create : ℕ → Bool
  pub can_signal : ℕ → Bool

unfoldable pub set_fence : (ℕ → QueueFence) → ℕ → QueueFence → ℕ → QueueFence
set_fence f q v r = if q == r then v else f r

unfoldable pub signal_locked : Gpu → State → ℕ → State × ℕ
unfolding set_fence
signal_locked g s q =
    let qf = s.fences q in
    if not qf.created && not (g.can_create q)
    then (s, 0)
    else if g.can_signal q
    then (
      record s { fences = set_fence s.fences q (record { created = true; value = qf.value + 1 }) },
      qf.value + 1,
    )
    else (record s { fences = set_fence s.fences q (record qf { created = true }) }, 0)

unfoldable pub done_locked : Gpu → State → Stamp → Bool
done_locked g s t = (s.fences t.queue).created && leb t.fence (g.completed t.queue)

-- The stamps that are kept beside their new versions: `extra` in the code.
unfoldable pub extra_stamps : Gpu → State → ℕ → List Stamp → List Stamp
unfolding done_locked
extra_stamps g s q = keep_if λ t. ltb 0 t.fence && (not (t.queue == q) && not (done_locked g s t))

unfoldable pub restamp : ℕ → ℕ → List Stamp → List Stamp
restamp q v [] = []
restamp q v (t ∷ ts) = record t { queue = q; fence = v } ∷ restamp q v ts

unfoldable pub stamp_locked : Gpu → State → ℕ → ℕ → List Stamp → List Stamp
unfolding extra_stamps restamp
stamp_locked g s q v uses = restamp q v uses ++ extra_stamps g s q uses

unfoldable pub end_locked : Gpu → State → ℕ → State
unfolding done_locked
end_locked g s owner = elim (lookup owner s.live) [
  | none ↦ s
  | some uses ↦ record s {
    live = erase owner s.live;
    ending = s.ending ++ keep_if (λ t. ltb 0 t.fence && not (done_locked g s t)) uses;
  }
]

unfoldable pub sweep_locked : Gpu → State → State
unfolding done_locked
sweep_locked g s = record s { ending = keep_if (λ t. not (done_locked g s t)) s.ending }

unfoldable pub uses_res : ℕ → List Stamp → Bool
uses_res r = any λ t. t.res == r

abbrev pub uses_of : ℕ → State → List Stamp
uses_of owner s = elim (lookup owner s.live) [ none ↦ [] | some uses ↦ uses ]

-- `for (s : uses) if (s.res == res) return; uses.push_back(...)`
unfoldable pub add_use : ℕ → List Stamp → List Stamp
unfolding uses_res
add_use r uses =
    if uses_res r uses then uses else uses ++ record { res = r; queue = 0; fence = 0 } ∷ []

unfoldable pub use_of : State → ℕ → ℕ → State
unfolding add_use
use_of s r owner =
    if r == 0 || owner == 0
    then s
    else record s { live = insert owner (add_use r (uses_of owner s)) s.live }

unfoldable pub stamp_owner : Gpu → State → ℕ → ℕ → ℕ → State
unfolding stamp_locked
stamp_owner g s q v o = elim (lookup o s.live) [
  | none ↦ s
  | some uses ↦ record s { live = insert o (stamp_locked g s q v uses) s.live }
]

-- `for (o : owners) if (live.find(o) != end) StampLocked(it->second, queue, value)`
unfoldable pub stamp_owners : Gpu → State → ℕ → ℕ → List ℕ → State
unfolding stamp_owner
stamp_owners g s q v [] = s
stamp_owners g s q v (o ∷ os) = stamp_owners g (stamp_owner g s q v o) q v os

unfoldable pub is_live : State → ℕ → Bool
is_live s o = elim (lookup o s.live) [ none ↦ false | some _ ↦ true ]

-- `Dxr11CommandList::From` of each list that went out: 0 for one that is not wrapped.
unfoldable pub owners_of : (ℕ → ℕ) → List ℕ → List ℕ
owners_of from [] = []
owners_of from (l ∷ ls) = if from l == 0 then owners_of from ls else from l ∷ owners_of from ls

unfoldable pub is_empty {ℓ} : {A : Type ℓ} → List A → Bool
is_empty [] = true
is_empty (x ∷ xs) = false

unfoldable pub stamp_submitted : Gpu → State → ℕ → List ℕ → State
stamp_submitted g s q owners =
    if any (is_live s) owners
    then (let (s', value) = signal_locked g s q in
        if value == 0 then s' else stamp_owners g s' q value owners)
    else s

unfoldable pub after_submit : (ℕ → ℕ) → Gpu → State → ℕ → List ℕ → State
after_submit from g s q lists =
    if q == 0 || is_empty s.live && is_empty s.ending
    then s
    else sweep_locked g (stamp_submitted g s q (owners_of from lists))

unfoldable pub submitted_once : Gpu → State → ℕ → ℕ → State
submitted_once g s q owner = if q == 0 || owner == 0 then s else elim (lookup owner s.live) [
  | none ↦ s
  | some uses ↦
      let (s', value) = signal_locked g s q in
      if value == 0 then s' else end_locked g (stamp_owner g s' q value owner) owner
]

unfoldable pub detach : Gpu → State → ℕ → State
detach g s owner = if owner == 0 then s else end_locked g s owner

unfoldable pub any_live : ℕ → List (ℕ × List Stamp) → Bool
unfolding uses_res
any_live r [] = false
any_live r ((o, uses) ∷ m) = uses_res r uses || any_live r m

-- `DXR_TIER11_NOHOLD`, which the tests set to see the check fail, is the first argument.
unfoldable pub busy : Bool → Gpu → State → ℕ → Bool
unfolding any_live done_locked
busy no_hold g s r =
    if r == 0 || no_hold
    then false
    else any_live r s.live || any (λ t. t.res == r && not (done_locked g s t)) s.ending

pub data Op : Type 0 where
  uses_op : ℕ → ℕ → Op
  submits_op : ℕ → List ℕ → Op
  once_op : ℕ → ℕ → Op
  detach_op : ℕ → Op

-- One call of the module, by what the driver answers during it.
unfoldable pub step : (ℕ → ℕ) → Gpu → State → Op → State
step from g s (uses_op r owner) = use_of s r owner
step from g s (submits_op q lists) = after_submit from g s q lists
step from g s (once_op q owner) = submitted_once g s q owner
step from g s (detach_op owner) = detach g s owner

unfoldable pub run : (ℕ → ℕ) → State → List (Gpu × Op) → State
run from s [] = s
run from s ((g, op) ∷ ops) = run from (step from g s op) ops
