-- ===== src/SceneBind/Slots.antt =====
-- proxy/scene_bind.cpp: a slot of a heap that is bound names the view that was made there last.
use native.Mathlib.Nat.{mul-div_cancel, mul-mod_left, mul-lt-mul_of_pos_right}
use dxr11_pascal.Base.{
  ℕ, ◌+◌, ◌-◌, ◌*◌, ◌/◌, ◌%◌, ◌<◌, ◌≡◌, refl, ap, ◌∙◌, Bool, true, false, not, ◌&&◌, List, [], ◌∷◌,
  ◌++◌, Option, none, some, arith, leb, ◌==◌, lookup, insert, lookup-insert,
}
use dxr11_pascal.SceneBind.{Structures, State, note_srv}
use dxr11_pascal.SceneBind.Finding.{Bound, is_outside, structure_at, lookup_gpu, lookup_slot}

back_to_slot : (base inc slot : ℕ) → 0 < inc → (base + slot * inc - base) / inc * inc ≡ slot * inc
back_to_slot base inc slot pos =
    let back : base + slot * inc - base ≡ slot * inc = omega arith in
    ap (λ x. x / inc * inc) back ∙ ap (λ x. x * inc) (mul-div_cancel slot pos)

is_outside-slot :
    (h : Bound) (inc slot : ℕ)
    → 0 < inc
    → slot < h.count
    → is_outside h inc (h.gpu_start + slot * inc) ≡ false
unfolding is_outside
is_outside-slot h inc slot pos low =
    let below : slot * inc < h.count * inc = mul-lt-mul_of_pos_right low pos in
    let back : h.gpu_start + slot * inc - h.gpu_start ≡ slot * inc = omega arith in
    let whole : (h.gpu_start + slot * inc - h.gpu_start) % inc ≡ 0 =
      ap (λ x. x % inc) back ∙ mul-mod_left slot inc in
    ground (arith, below, whole, pos)

-- A slot's GPU handle finds what its CPU handle names.
lookup_gpu-slot :
    (h : Bound) (inc slot : ℕ) (t : Structures)
    → h.is_visible ≡ true
    → h.increment ≡ some inc
    → 0 < inc
    → slot < h.count
    → lookup_gpu t (some h ∷ []) (h.gpu_start + slot * inc)
      ≡ structure_at t (h.cpu_start + slot * inc)
unfolding lookup_gpu
lookup_gpu-slot h inc slot t visible on pos low =
    rw (visible, on, lookup_gpu, is_outside-slot h inc slot pos low)
      (ap (λ x. structure_at t (h.cpu_start + x)) (back_to_slot h.gpu_start inc slot pos))

structure_at-insert : (k a : ℕ) (t : Structures) → structure_at (insert k a t) k ≡ a
unfolding structure_at
structure_at-insert k a t =
    let hit : (k == k) ≡ true = ground arith in
    let found : lookup k (insert k a t) ≡ some a = lookup-insert k k a t ∙ rw hit refl in
    rw (found, structure_at) refl

-- Whether no heap of a list is one of views that shaders see.
abbrev pub no_views : List (Option Bound) → Bool
no_views [] = true
no_views (none ∷ hs) = no_views hs
no_views (some h ∷ hs) = not h.is_visible && no_views hs

lookup_slot-past :
    (t : Structures) (before hs : List (Option Bound)) (slot : ℕ)
    → no_views before ≡ true
    → lookup_slot t (before ++ hs) slot ≡ lookup_slot t hs slot
unfolding lookup_slot
lookup_slot-past t [] hs slot e = refl
lookup_slot-past t (none ∷ before) hs slot e = lookup_slot-past t before hs slot e
lookup_slot-past t (some h ∷ before) hs slot e =
    let hidden : h.is_visible ≡ false = ground (arith, e) in
    let rest : no_views before ≡ true = ground (arith, e) in
    rw (hidden, lookup_slot) (lookup_slot-past t before hs slot rest)

-- A view of a structure made in a slot of the first heap of views among those that are bound, whatever
-- null pointers and other heaps come before it, is what that slot names, through the handle that a
-- shader uses for it. The heap's increment is known and is not 0, and the slot is inside the heap.
pub lookup_slot-note_srv :
    (before : List (Option Bound)) (h : Bound) (hs : List (Option Bound)) (inc slot a : ℕ)
    (s : State)
    → no_views before ≡ true
    → h.is_visible ≡ true
    → h.increment ≡ some inc
    → 0 < inc
    → slot < h.count
    → lookup_slot
        (note_srv (h.cpu_start + slot * inc) (some a) s).structures
        (before ++ some h ∷ hs)
        slot
      ≡ (a, true)
unfolding lookup_slot lookup_gpu note_srv
lookup_slot-note_srv before h hs inc slot a s none_before visible on pos low =
    let here : leb h.count slot ≡ false = ground (arith, low) in
    let cpu = h.cpu_start + slot * inc in
    let t = (note_srv cpu (some a) s).structures in
    let found : lookup_slot t (some h ∷ hs) slot ≡ (a, true) =
      rw (visible, here, on, lookup_slot)
        (ap (λ x. (x, true))
          (lookup_gpu-slot h inc slot _ visible on pos low
            ∙ structure_at-insert cpu a s.structures)) in
    lookup_slot-past t before (some h ∷ hs) slot none_before ∙ found
