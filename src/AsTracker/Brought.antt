-- ===== src/AsTracker/Brought.antt =====
-- proxy/as_tracker.cpp: what a structure that `BringToBuildLocked` brings to a build then holds.
use dxr11_pascal.Base.{ℕ, ◌≡◌, true, ◌||◌, List, Option, some, ◌==◌, Listed, lookup}
use dxr11_pascal.AsTracker.{Instance, Alias, PendingRead, State, TlasInfo}
use dxr11_pascal.AsTracker.Parse.{parse_into}
use dxr11_pascal.AsTracker.Reads.{Gpu, is_done}
use dxr11_pascal.AsTracker.Queries.{alias_of, is_read}

-- What a build of a structure holds, as a state knows it: what was read of it; the parse of what the
-- buffer of one of the reads of that build holds, one that the list being split recorded or that the
-- GPU is past; or, of a copy, what the build that it was copied from holds.
pub data Holds (g : Gpu) (list : ℕ) (s : State) : ℕ → ℕ → Option TlasInfo → Type 0 where
  was_read :
      {at build : ℕ} {t : Option TlasInfo}
      → is_read s at build ≡ true
      → t ≡ lookup at s.tlas
      → Holds g list s at build t
  was_waiting :
      {at build : ℕ} {t : Option TlasInfo} (p : PendingRead) (ds : List Instance)
      → Listed p s.pending
      → p.tlas ≡ at
      → p.build ≡ build
      → (p.owner == list || is_done g s p) ≡ true
      → g.mapped p.readback ≡ some ds
      → t ≡ some (parse_into s ds p.as_of)
      → Holds g list s at build t
  was_copied :
      {at build : ℕ} {t : Option TlasInfo} (a : Alias)
      → alias_of s at build ≡ some a
      → Holds g list s a.source a.source_build t
      → Holds g list s at build t
