-- ===== src/Base.antt =====
-- Names that every module shares: the libraries' names passed on, Boolean tests on native
-- numbers, lists under native indices, association lists and counted predicates.
mod Tests
mod Lists
mod Assoc
mod Ordered
pub use Tests.*
pub use Lists.*
unfoldable pub use Assoc.*
unfoldable pub use Ordered.*
pub use Prim.Native.Nat.{
  ℕ, zero, suc, ◌+◌, ◌-◌, ◌*◌, ◌/◌, ◌%◌, ◌^◌, ◌≤◌, ◌<◌, min, max, bit_and, bit_or, bit_xor,
}
pub use mathlib.Core.Path.{◌≡◌, refl, sym, ap, ◌∙◌, subst}
pub use mathlib.Core.Logic.{◌≢◌, ◌↔◌, ◌⊎◌, inl, inr}
pub use mathlib.Core.Bool.{Bool, true, false, ◌&&◌, ◌||◌, not}
pub use mathlib.Core.Option.{Option, none, some}
pub use mathlib.Core.List.{List, [], ◌∷◌, ◌++◌, map}
pub use native.Mathlib.Omega.{arith}
