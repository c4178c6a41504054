-- ===== src/Base/Ordered.antt =====
-- A `std::map` from numbers, walked in the order of its keys; and an array's elements by index.
use Prim.Native.Nat.{ℕ, zero, suc, ◌<◌}
use mathlib.Core.Path.{◌≡◌, refl, ap, ◌∙◌}
use mathlib.Core.Logic.{◌≢◌, inl, inr}
use mathlib.Core.Bool.{Bool, true}
use mathlib.Core.List.{List, [], ◌∷◌, ◌++◌}
use mathlib.Core.Option.{some}
use native.Mathlib.Omega.{arith}
use dxr11_pascal.Base.Tests.{Bool-cases, ◌==◌, ltb, if◌then◌else◌}
use dxr11_pascal.Base.Lists.{keep_if, length, get_elem?}
use dxr11_pascal.Base.Assoc.{lookup}

module _ {ℓ} {V : Type ℓ} where
  -- Assignment through `operator[]`.
  unfoldable pub set_key : ℕ → V → List (ℕ × V) → List (ℕ × V)
  set_key key new [] = (key, new) ∷ []
  set_key key new ((at, old) ∷ m) =
      let later = set_key key new m in
      if ltb key at
      then (key, new) ∷ (at, old) ∷ m
      else if key == at
      then (key, new) ∷ m
      else (at, old) ∷ later

  pub lookup-set_key :
      (key asked : ℕ) (new : V) (m : List (ℕ × V))
      → lookup asked (set_key key new m) ≡ (if key == asked then some new else lookup asked m)
  unfolding set_key lookup
  lookup-set_key key asked new [] = refl
  lookup-set_key key asked new ((at, old) ∷ m) = ground (arith, lookup-set_key key asked new m)

  -- The element at an index, written over.
  abbrev pub put_at : ℕ → V → List V → List V
  put_at i v [] = []
  put_at zero v (x ∷ xs) = v ∷ xs
  put_at (suc i) v (x ∷ xs) = x ∷ put_at i v xs

  abbrev pub copies : ℕ → V → List V
  copies zero v = []
  copies (suc n) v = v ∷ copies n v

  pub length-put_at : (i : ℕ) (v : V) (xs : List V) → length (put_at i v xs) ≡ length xs
  length-put_at i v [] = refl
  length-put_at zero v (x ∷ xs) = refl
  length-put_at (suc i) v (x ∷ xs) = ap suc (length-put_at i v xs)

  pub length-copies : (n : ℕ) (v : V) → length (copies n v) ≡ n
  length-copies zero v = refl
  length-copies (suc n) v = ap suc (length-copies n v)

  pub get_elem?-put_at :
      (i : ℕ) (v : V) (xs : List V) → i < length xs → get_elem? (put_at i v xs) i ≡ some v
  get_elem?-put_at i v [] h = ground arith
  get_elem?-put_at zero v (x ∷ xs) h = refl
  get_elem?-put_at (suc i) v (x ∷ xs) h = get_elem?-put_at i v xs (omega (arith, h))

  pub get_elem?-put_at_ne :
      (i j : ℕ) (v : V) (xs : List V) → i ≢ j → get_elem? (put_at i v xs) j ≡ get_elem? xs j
  get_elem?-put_at_ne i j v [] h = refl
  get_elem?-put_at_ne zero zero v (x ∷ xs) h = absurd (h refl)
  get_elem?-put_at_ne zero (suc j) v (x ∷ xs) h = refl
  get_elem?-put_at_ne (suc i) zero v (x ∷ xs) h = refl
  get_elem?-put_at_ne (suc i) (suc j) v (x ∷ xs) h =
      get_elem?-put_at_ne i j v xs (λ e. h (ap suc e))

  -- An index inside an array has an element.
  pub get_elem?-lt : (i : ℕ) (xs : List V) → i < length xs → (x : V) × (get_elem? xs i ≡ some x)
  get_elem?-lt i [] h = absurd (omega (arith, h))
  get_elem?-lt zero (x ∷ xs) h = (x, refl)
  get_elem?-lt (suc i) (x ∷ xs) h = get_elem?-lt i xs (omega (arith, h))

  -- An element of a list, at some index.
  abbrev pub Listed : V → List V → Type ℓ
  Listed v xs = (i : ℕ) × (get_elem? xs i ≡ some v)

  pub Listed-left : (v : V) (xs ys : List V) → Listed v xs → Listed v (xs ++ ys)
  Listed-left v [] ys (i, e) = absurd cc
  Listed-left v (x ∷ xs) ys (zero, e) = (zero, e)
  Listed-left v (x ∷ xs) ys (suc i, e) = let (j, f) = Listed-left v xs ys (i, e) in (suc j, f)

  pub Listed-right : (v : V) (xs ys : List V) → Listed v ys → Listed v (xs ++ ys)
  Listed-right v [] ys h = h
  Listed-right v (x ∷ xs) ys h = let (j, f) = Listed-right v xs ys h in (suc j, f)

  pub Listed-keep_if :
      (p : V → Bool) (v : V) (xs : List V) → p v ≡ true → Listed v xs → Listed v (keep_if p xs)
  Listed-keep_if p v [] h (i, e) = absurd cc
  Listed-keep_if p v (x ∷ xs) h (zero, e) =
      let same : x ≡ v = cc in let on : p x ≡ true = ap p same ∙ h in rw on (zero, e)
  Listed-keep_if p v (x ∷ xs) h (suc i, e) =
      let (j, f) = Listed-keep_if p v xs h (i, e) in
      elim (Bool-cases (p x)) [ inl u ↦ rw u (suc j, f) | inr u ↦ rw u (j, f) ]
