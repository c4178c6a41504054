-- ===== src/Base/Assoc.antt =====
-- A map from numbers (addresses, handles, indices) as an association list. The code's maps are
-- `std::map` and `std::unordered_map`; nothing modelled depends on the order of the latter.
use Prim.Native.Nat.{ℕ}
use mathlib.Core.Path.{◌≡◌, refl}
use mathlib.Core.List.{List, [], ◌∷◌}
use mathlib.Core.Option.{Option, none, some}
use native.Mathlib.Omega.{arith}
use dxr11_pascal.Base.Tests.{◌==◌, if◌then◌else◌}

module _ {ℓ} {V : Type ℓ} where
  unfoldable pub lookup : ℕ → List (ℕ × V) → Option V
  lookup address [] = none
  lookup address ((at, value) ∷ rest) = if at == address then some value else lookup address rest

  unfoldable pub insert : ℕ → V → List (ℕ × V) → List (ℕ × V)
  insert address value [] = (address, value) ∷ []
  insert address value ((at, old) ∷ rest) =
      if at == address then (address, value) ∷ rest else (at, old) ∷ insert address value rest

  unfoldable pub erase : ℕ → List (ℕ × V) → List (ℕ × V)
  erase address [] = []
  erase address ((at, old) ∷ rest) =
      if at == address then erase address rest else (at, old) ∷ erase address rest

  pub lookup-insert :
      (address asked : ℕ) (value : V) (rest : List (ℕ × V))
      → lookup asked (insert address value rest)
        ≡ (if address == asked then some value else lookup asked rest)
  unfolding lookup insert
  lookup-insert address asked value [] = refl
  lookup-insert address asked value ((at, old) ∷ rest) =
      ground (arith, lookup-insert address asked value rest)

  pub lookup-erase :
      (k j : ℕ) (m : List (ℕ × V)) → lookup j (erase k m) ≡ (if k == j then none else lookup j m)
  unfolding lookup erase
  lookup-erase k j [] = ground arith
  lookup-erase k j ((i, w) ∷ m) = ground (arith, lookup-erase k j m)

  -- What a map holds at most once under each key.
  abbrev pub Distinct : List (ℕ × V) → Type ℓ
  Distinct [] = Unit
  Distinct ((k, v) ∷ m) = (lookup k m ≡ none) × Distinct m

  pub insert-Distinct : (k : ℕ) (v : V) (m : List (ℕ × V)) → Distinct m → Distinct (insert k v m)
  unfolding insert lookup
  insert-Distinct k v [] d = (refl, tt)
  insert-Distinct k v ((j, w) ∷ m) d =
      ground (arith, insert-Distinct k v m d.1, lookup-insert k j v m)

  pub erase-Distinct : (k : ℕ) (m : List (ℕ × V)) → Distinct m → Distinct (erase k m)
  unfolding erase
  erase-Distinct k [] d = tt
  erase-Distinct k ((j, w) ∷ m) d = ground (arith, erase-Distinct k m d.1, lookup-erase k j m)

  pub erase_absent : (k : ℕ) (m : List (ℕ × V)) → lookup k m ≡ none → erase k m ≡ m
  unfolding erase lookup
  erase_absent k [] h = refl
  erase_absent k ((j, w) ∷ m) h = ground (arith, erase_absent k m)
