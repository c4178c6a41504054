-- ===== src/AsTracker/Queries.antt =====
-- proxy/as_tracker.cpp: a structure that is brought to a build of it, and what the callers ask of
-- the structures that were read.
use dxr11_pascal.Base.{
  ℕ, zero, suc, ◌+◌, Bool, true, false, ◌&&◌, ◌||◌, not, List, [], ◌∷◌, Option, none, some, leb,
  ◌==◌, if◌then◌else◌, any, lookup, set_key,
}
use dxr11_pascal.AsTracker.{
  TlasInfo, no_tlas, Row, PendingRead, BuildInstances, Alias, State, key_or,
}
use dxr11_pascal.AsTracker.Builds.{is_current, is_live}
use dxr11_pascal.AsTracker.Reads.{Gpu, is_done, take_read, remember_copy, find_build}

-- The first pending read of a build of a structure, and the others.
unfoldable pub pending_of : ℕ → ℕ → List PendingRead → Option PendingRead
pending_of at build [] = none
pending_of at build (p ∷ ps) =
    if p.tlas == at && p.build == build then some p else pending_of at build ps

unfoldable pub drop_pending : ℕ → ℕ → List PendingRead → List PendingRead
drop_pending at build [] = []
drop_pending at build (p ∷ ps) =
    if p.tlas == at && p.build == build then ps else p ∷ drop_pending at build ps

-- The read of a build, if it has run: it is of the list that is being split, or its fence passed.
unfoldable pub bring_pending : Gpu → ℕ → ℕ → ℕ → State → State × Bool
bring_pending g list at build s = elim (pending_of at build s.pending) [
  | none ↦ (s, false)
  | some p ↦
      if p.owner == list || is_done g s p
      then (let rest = drop_pending at build s.pending in
          elim (g.mapped p.readback) [
            | none ↦ (record s { pending = rest }, false)
            | some ds ↦
                let s' = take_read at build p.as_of ds s in (record s' { pending = rest }, true)
          ])
      else (s, false)
]

-- What a copy gets of its source, once the source's build is there.
unfoldable pub take_alias : ℕ → ℕ → Alias → State → State × Bool
take_alias at build a s = elim (lookup a.source s.tlas) [
  | none ↦ (s, false)
  | some t ↦ (
    remember_copy at build a.source a.source_build
        (record s { tlas = set_key at t s.tlas; read_of = set_key at build s.read_of }),
    true,
  )
]

unfoldable pub alias_of : State → ℕ → ℕ → Option Alias
alias_of s at build = elim (lookup at s.aliases) [
  | none ↦ none
  | some a ↦ if a.build == build then some a else none
]

unfoldable pub is_read : State → ℕ → ℕ → Bool
is_read s at build = elim (lookup at s.read_of) [ none ↦ false | some r ↦ r == build ]

-- `BringToBuildLocked`: the first argument counts the copies that may still be followed, 8 at the
-- outermost call.
unfoldable pub bring_to_build : Gpu → ℕ → ℕ → ℕ → ℕ → State → State × Bool
bring_to_build g list zero at build s =
    if is_read s at build then (s, true) else bring_pending g list at build s
bring_to_build g list (suc more) at build s =
    if is_read s at build then (s, true) else elim (alias_of s at build) [
      | none ↦ bring_pending g list at build s
      | some a ↦
          let (s', ok) = bring_to_build g list more a.source a.source_build s in
          if ok then take_alias at build a s' else (s', false)
    ]

-- `LatestBuild` and `SerialNow`
unfoldable pub latest_build : State → ℕ → ℕ
latest_build s at = elim (lookup at s.last_built) [ none ↦ 0 | some b ↦ b ]

unfoldable pub serial_now : State → ℕ
serial_now s = s.tlas_serial

-- `Current` and `LiveCurrent`
unfoldable pub all_current : State → List ℕ → Bool
all_current s [] = true
all_current s (a ∷ more) = is_current s a && all_current s more

unfoldable pub live_current_from : State → List (ℕ × TlasInfo) → Bool
live_current_from s [] = true
live_current_from s ((a, t) ∷ m) =
    not (t.valid && (is_live s a && not (is_current s a))) && live_current_from s m

unfoldable pub live_current : State → Bool
live_current s = live_current_from s s.tlas

abbrev pub reread_every : ℕ
reread_every = 8

-- `WantInstances`
unfoldable pub wants : State → ℕ → ℕ → Bool → Bool
wants s at count cheap = if cheap then true else elim (lookup at s.tlas) [
  | none ↦ true
  | some t ↦
      not t.valid
      || (not (t.instance_count == count) || elim (lookup at s.last_asked) [
        | none ↦ true
        | some a ↦ leb (a + reread_every) s.tlas_serial
      ])
]

unfoldable pub want_instances : ℕ → ℕ → Bool → State → State × Bool
want_instances at count cheap s =
    if any (λ p. p.tlas == at) s.pending
    then (s, false)
    else if wants s at count cheap
    then (record s { last_asked = set_key at s.tlas_serial s.last_asked }, true)
    else (s, false)

-- `InstancesAt`, `LookupTlas`, `AnyRead` and `Rows`
unfoldable pub instances_at : State → ℕ → ℕ → Option BuildInstances
instances_at s at build = elim (lookup at s.inst_hist) [ none ↦ none | some h ↦ find_build build h ]

unfoldable pub lookup_tlas : State → ℕ → TlasInfo
lookup_tlas s at = key_or no_tlas at s.tlas

unfoldable pub any_read : State → List ℕ → Bool
any_read s = any λ a. elim (lookup a s.tlas) [ none ↦ false | some t ↦ t.valid ]

unfoldable pub known_rows : State → ℕ → Option (List Row)
known_rows s at = elim (lookup at s.tlas) [
  | none ↦ none
  | some t ↦ if t.valid then some t.rows else none
]
