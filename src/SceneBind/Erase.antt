-- ===== src/SceneBind/Erase.antt =====
-- proxy/scene_bind.cpp: a new heap forgets what its descriptors named, and nothing else.
use native.Mathlib.Nat.{mul-div_cancel, mul-mod_left}
use dxr11_pascal.Base.{
  ℕ, zero, suc, ◌+◌, ◌-◌, ◌*◌, ◌/◌, ◌%◌, ◌≤◌, ◌<◌, ◌≡◌, ◌≢◌, refl, ap, ◌∙◌, inl, inr, Bool, true,
  ◌&&◌, List, [], ◌∷◌, none, some, arith, ltb, leb, ◌==◌, if◌then◌else◌, any, length, Bool-cases,
  Option-cases, lookup, erase, lookup-erase,
}
use dxr11_pascal.SceneBind.{
  Structures, State, visit_handles, visit_recorded, each_in, erase_handles, erase_locked, Heap,
  note_heap,
}

-- Whether one of the visited indices is that of a handle.
abbrev pub hits : ℕ → ℕ → ℕ → List (ℕ × ℕ) → Bool
hits start inc k = any λ p. start + p.0 * inc == k

lookup-erase_handles :
    (start inc k : ℕ) (ps : List (ℕ × ℕ)) (t : Structures)
    → lookup k (erase_handles start inc ps t) ≡ (if hits start inc k ps then none else lookup k t)
unfolding erase_handles
lookup-erase_handles start inc k [] t = refl
lookup-erase_handles start inc k ((i, a) ∷ ps) t = ground (
  arith,
  lookup-erase_handles start inc k ps (erase (start + i * inc) t),
  lookup-erase (start + i * inc) k t,
)

hits-handles :
    (start inc j a : ℕ) (t : Structures) (i left : ℕ)
    → i ≤ j
    → j < i + left
    → lookup (start + j * inc) t ≡ some a
    → hits start inc (start + j * inc) (visit_handles start inc t i left) ≡ true
unfolding visit_handles
hits-handles start inc j a t i zero low high e = absurd (omega (arith, low, high))
hits-handles start inc j a t i (suc left) low high e = elim (Bool-cases (i == j)) [
  | inl u ↦
      let same : i ≡ j = ground arith in
      let here : lookup (start + i * inc) t ≡ some a =
        ap (λ x. lookup (start + x * inc) t) same ∙ e in
      rw (here, visit_handles) (rw same (ground arith))
  | inr u ↦
      let ih = hits-handles start inc j a t (i + 1) left (ground arith) (omega (arith, high)) e in
      elim (Option-cases (lookup (start + i * inc) t)) [
        | inl v ↦ rw (v, visit_handles) ih
        | inr (b, v) ↦ rw (v, visit_handles) (ground (arith, ih))
      ]
]

hits-recorded :
    (start n inc j a : ℕ) (t : Structures)
    → 0 < inc
    → j < n
    → lookup (start + j * inc) t ≡ some a
    → hits start inc (start + j * inc) (visit_recorded start n inc t) ≡ true
unfolding visit_recorded lookup
hits-recorded start n inc j a [] pos h e = ground arith
hits-recorded start n inc j a ((k, b) ∷ t) pos h e = elim (Bool-cases (k == start + j * inc)) [
  | inl u ↦
      let far : k - start ≡ j * inc = ground arith in
      let index : (k - start) / inc ≡ j = ap (λ x. x / inc) far ∙ mul-div_cancel j pos in
      let whole : (k - start) % inc ≡ 0 = ap (λ x. x % inc) far ∙ mul-mod_left j inc in
      let low : leb start k ≡ true = ground arith in
      let inside : ltb j n ≡ true = ground arith in rw (index, whole, low, inside) (ground arith)
  | inr u ↦ ground (arith, hits-recorded start n inc j a t pos h (ground arith))
]

-- A handle that is hit is one of the run.
abbrev pub IsSlot : ℕ → ℕ → ℕ → ℕ → Type 0
IsSlot start n inc k = (j : ℕ) × (j < n) × (start + j * inc ≡ k)

handles-hits :
    (start inc n k : ℕ) (t : Structures) (i left : ℕ)
    → i + left ≤ n
    → hits start inc k (visit_handles start inc t i left) ≡ true
    → IsSlot start n inc k
unfolding visit_handles
handles-hits start inc n k t i zero h e = ground arith
handles-hits start inc n k t i (suc left) h e = elim (Bool-cases (start + i * inc == k)) [
  | inl u ↦ (i, omega (arith, h), ground arith)
  | inr u ↦ elim (Option-cases (lookup (start + i * inc) t)) [
    | inl v ↦ handles-hits start inc n k t (i + 1) left (omega (arith, h)) (ground arith)
    | inr (b, v) ↦ handles-hits start inc n k t (i + 1) left (omega (arith, h)) (ground arith)
  ]
]

recorded-hits :
    (start inc n k : ℕ) (t : Structures)
    → hits start inc k (visit_recorded start n inc t) ≡ true
    → IsSlot start n inc k
unfolding visit_recorded
recorded-hits start inc n k [] e = ground arith
recorded-hits start inc n k ((h, a) ∷ t) e =
    elim (Bool-cases (leb start h && ((h - start) % inc == 0 && ltb ((h - start) / inc) n))) [
      | inl u ↦ elim (Bool-cases (start + (h - start) / inc * inc == k)) [
        | inl v ↦ ((h - start) / inc, ground arith, ground arith)
        | inr v ↦ recorded-hits start inc n k t (ground arith)
      ]
      | inr u ↦ recorded-hits start inc n k t (ground arith)
    ]

each_in-hits :
    (start inc n k : ℕ) (t : Structures)
    → hits start inc k (each_in start n inc t) ≡ true
    → IsSlot start n inc k
unfolding each_in
each_in-hits start inc n k t e = elim (Bool-cases (inc == 0)) [
  | inl u ↦ ground arith
  | inr u ↦ elim (Bool-cases (leb n (length t))) [
    | inl v ↦ handles-hits start inc n k t 0 n (omega arith) (ground arith)
    | inr v ↦ recorded-hits start inc n k t (ground arith)
  ]
]

hits-each_in :
    (start n inc j a : ℕ) (t : Structures)
    → 0 < inc
    → j < n
    → lookup (start + j * inc) t ≡ some a
    → hits start inc (start + j * inc) (each_in start n inc t) ≡ true
unfolding each_in
hits-each_in start n inc j a t pos h e = ground (
  arith,
  hits-handles start inc j a t 0 n (omega arith) (omega (arith, h)) e,
  hits-recorded start n inc j a t pos h e,
)

erase_locked_slot :
    (start n inc j : ℕ) (t : Structures)
    → 0 < inc
    → j < n
    → lookup (start + j * inc) (erase_locked start n inc t) ≡ none
unfolding erase_locked
erase_locked_slot start n inc j t pos h =
    let after = lookup-erase_handles start inc (start + j * inc) (each_in start n inc t) t in
    elim (Option-cases (lookup (start + j * inc) t)) [
      | inl u ↦ ground (arith, after)
      | inr (a, u) ↦ ground (arith, after, hits-each_in start n inc j a t pos h u)
    ]

-- A heap of CBV, SRV and UAV descriptors that is made where others were forgets what its
-- descriptors named, once anything was recorded: no handle of one of its descriptors names a
-- structure any more, if the device's increment is not 0.
pub note_heap_forgets :
    (inc : ℕ) (h : Heap) (s : State) (j : ℕ)
    → s.any_recorded ≡ true
    → h.is_view ≡ true
    → 0 < inc
    → j < h.count
    → lookup (h.start + j * inc) (note_heap inc (some h) s).structures ≡ none
unfolding note_heap
note_heap_forgets inc h s j recorded view pos low =
    ground (arith, erase_locked_slot h.start h.count inc j s.structures pos low)

-- Whatever heap is made, a handle that is none of its descriptors' names what it named: so the
-- descriptors of another heap, whose handles may lie between, are left alone.
pub note_heap_keeps :
    (inc : ℕ) (h : Heap) (s : State) (k : ℕ)
    → ((j : ℕ) → j < h.count → h.start + j * inc ≢ k)
    → lookup k (note_heap inc (some h) s).structures ≡ lookup k s.structures
unfolding note_heap erase_locked
note_heap_keeps inc h s k other =
    let found = each_in h.start h.count inc s.structures in
    let after = lookup-erase_handles h.start inc k found s.structures in
    elim (Bool-cases (hits h.start inc k found)) [
      | inl u ↦
          let (j, low, same) = each_in-hits h.start inc h.count k s.structures u in
          absurd (other j low same)
      | inr u ↦ ground (arith, after)
    ]
