-- ===== src/LrsLimit.antt =====
-- proxy/lrs_limit.h: how large a local root signature the driver takes.
-- A parameter's type is its constructor, with the number of values of root constants; the walk's
-- `o` and counts are 32 bits wide and wrap.
pub mod Layout
mod Tests
use dxr11_pascal.Base.{
  ℕ, ◌+◌, ◌*◌, ◌/◌, ◌%◌, ◌^◌, Bool, true, false, ◌&&◌, not, List, [], ◌∷◌, ltb, leb, if◌then◌else◌,
}

pub data Parameter : Type 0 where
  constants : ℕ → Parameter
  descriptor_table descriptor : Parameter

-- The walk's `o`, `cap` and `crossed`.
pub record Walk : Type 0 where
  pub o : ℕ
  pub cap : ℕ
  pub crossed : Bool

abbrev pub start : Walk
start = record { o = 0; cap = 192; crossed = false }

unfoldable pub walk_one : Walk → Parameter → Walk
walk_one w (constants c) =
    if not w.crossed && ltb 64 ((w.o + c) % 2 ^ 32)
    then record { o = (w.o + c) % 2 ^ 32; cap = (w.o + 128) % 2 ^ 32; crossed = true }
    else record w { o = (w.o + c) % 2 ^ 32 }
walk_one w descriptor_table = record w { o = (w.o + 1) % 2 ^ 32 }
walk_one w descriptor = record w { o = ((w.o + 1) % 2 ^ 32 / 2 * 2 + 2) % 2 ^ 32 }

unfoldable pub walk : Walk → List Parameter → Walk
walk w [] = w
walk w (p ∷ ps) = walk (walk_one w p) ps

-- `Fits`, with what it reports as `used` and `limit`.
unfoldable pub fits : List Parameter → Bool
fits ps = let w = walk start ps in leb w.o w.cap
